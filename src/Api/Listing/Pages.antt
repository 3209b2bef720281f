-- ===== src/Api/Listing/Pages.antt =====
-- Following the cursors lists every deployment of the project.
use Prim.Native.String.{◌++◌ as append}
use mathlib.Core.List.{Perm}
use deploy_hub.Prelude.{
  ℕ, suc, ◌<◌, ltb, not, ◌&&◌, String, true, false, Option, none, some, List, ◌≡◌, refl, sym, ap,
  length, arith,
}
use deploy_hub.Action.{ok}
use deploy_hub.Text.{has_code}
use deploy_hub.Text.Split.{
  before_first-append, after_first-append, has_code-append, append-one, has_code-truthy,
}
use deploy_hub.Schema.{Deployment, deployments_of}
use deploy_hub.Ordered.{take, sort, Comparable, Descending, IsStrict, follow}
use deploy_hub.Ordered.Sorted.{length-sort, sort-Descending, select-sort, sort-perm}
use deploy_hub.Ordered.Follow.{follow_from, IsPaged, select_true}
use deploy_hub.Api.Listing.{
  Formats, Key, above, select_page, run_query, query_under, query_cursor, list_deployments,
  page_for, cursor_of, cursor_for,
}

module _ (f : Formats) where
  -- A time that is shown has no bar in it and is read back; ids are strictly ordered.
  pub record IsSound : Type 0 where
    pub plain : (n : ℕ) → has_code b'|' (f.shown n) ≡ false
    pub reads : (n : ℕ) → f.read_time (f.shown n) ≡ some n
    pub irrefl : (a : String) → f.less a a ≡ false
    pub trans : (a b c : String) → f.less a b ≡ true → f.less b c ≡ true → f.less a c ≡ true

  above-IsStrict : IsSound → IsStrict (above f)
  above-IsStrict s = record {
    irrefl = λ a. ground (arith, s.irrefl a.deployment_id);
    trans =
        λ a b c p q. ground (arith, p, q, s.trans c.deployment_id b.deployment_id a.deployment_id);
  }

  cursor_text :
      (d : Deployment)
      → cursor_of f d ≡ append (f.shown d.updated_at) (String.◌∷◌ "|" d.deployment_id)
  cursor_text d = append-one "|" (f.shown d.updated_at) d.deployment_id

  -- The cursor of a row asks for the page below the row's key.
  cursor_read :
      IsSound
      → (k : String) (limit : ℕ) (ds : List Deployment) (d : Deployment)
      → page_for f none k limit (some (cursor_of f d)) ds
        ≡ ok (select_page f k (some (d.updated_at, d.deployment_id)) limit ds)
  unfolding page_for query_cursor query_under run_query
  cursor_read s k limit ds d = rw (cursor_text d) (
      ground (
        arith,
        s.reads d.updated_at,
        has_code-truthy b'|' (append (f.shown d.updated_at) (String.◌∷◌ "|" d.deployment_id))
            (has_code-append b'|' "|" refl (f.shown d.updated_at) d.deployment_id),
        before_first-append b'|' "|" refl (f.shown d.updated_at) d.deployment_id
            (s.plain d.updated_at),
        after_first-append b'|' "|" refl (f.shown d.updated_at) d.deployment_id
            (s.plain d.updated_at),
      ))

  abbrev key_of : Option Deployment → Option Key
  key_of none = none
  key_of (some d) = some (d.updated_at, d.deployment_id)

  -- The page below a row, or the first page.
  abbrev pub page_after : String → ℕ → List Deployment → Option Deployment → List Deployment
  page_after k limit ds none = select_page f k none limit ds
  page_after k limit ds (some d) = select_page f k (some (d.updated_at, d.deployment_id)) limit ds

  page-IsPaged :
      (s : IsSound) (k : String) (n : ℕ) (ds : List Deployment)
      → Comparable (above f) (deployments_of k ds)
      → IsPaged
          (above f)
          (above-IsStrict s)
          n
          (sort (above f) (deployments_of k ds))
          (page_after k (suc n) ds)
  unfolding select_page
  page-IsPaged s k n ds c none =
      ap (take (suc n))
        (sym (select-sort (above f) (above-IsStrict s) (λ d. true) (deployments_of k ds) c))
  page-IsPaged s k n ds c (some d) =
      ap (take (suc n))
        (sym (select-sort (above f) (above-IsStrict s) (above f d) (deployments_of k ds) c))

  page_answer :
      IsSound
      → (k : String) (limit : ℕ) (ds : List Deployment) (c : Option Deployment)
      → page_for f none k limit (cursor_for f c) ds ≡ ok (page_after k limit ds c)
  unfolding page_for run_query
  page_answer s k limit ds none = refl
  page_answer s k limit ds (some d) = cursor_read s k limit ds d

  in_range : (n : ℕ) → n < 100 → (not (ltb (suc n) 1) && not (ltb 100 (suc n))) ≡ true
  in_range n h = ground (arith, h)

  limit_answer :
      IsSound
      → (k : String) (n : ℕ) (ds : List Deployment) (c : Option Deployment) → n < 100
      → list_deployments f none k (suc n) (cursor_for f c) ds ≡ ok (page_after k (suc n) ds c)
  unfolding list_deployments
  limit_answer s k n ds c h = rw (in_range n h) (page_answer s k (suc n) ds c)

  -- If ids and times are written and ordered as `IsSound` says, and no two deployments of the project
  -- have the same key, then every request for a page of 1 to 100 rows, with no cursor or with the
  -- cursor of a row, is answered, and asking for page after page with the cursor of the last row until a page is
  -- empty ends after at most as many requests as there are deployments, and one, and lists the
  -- project's deployments, each once, the newest first.
  pub list_deployments-follow :
      (k : String) (n fuel : ℕ) (ds : List Deployment)
      → IsSound
      → Comparable (above f) (deployments_of k ds)
      → length (deployments_of k ds) < fuel
      → n < 100
      → ((c : Option Deployment)
          → list_deployments f none k (suc n) (cursor_for f c) ds ≡ ok (page_after k (suc n) ds c))
        × (rows : List Deployment) × (follow (page_after k (suc n) ds) fuel none ≡ some rows)
        × Perm rows (deployments_of k ds)
        × Descending (above f) rows
  list_deployments-follow k n fuel ds s c lt h =
      let o = above-IsStrict s in
      let rows = sort (above f) (deployments_of k ds) in
      (
        λ b. limit_answer s k n ds b h,
        rows,
        follow_from (above f) o n rows (page_after k (suc n) ds) (page-IsPaged s k n ds c) fuel none
            rows (select_true rows) (sort-Descending (above f) o (deployments_of k ds) c)
            (omega (arith, length-sort (above f) (deployments_of k ds))),
        sort-perm (above f) (deployments_of k ds),
        sort-Descending (above f) o (deployments_of k ds) c,
      )
