-- ===== src/Api/Access/Exact.antt =====
-- To whom `verify_project_access` hands out which row of the table of projects.
use mathlib.Core.List.{Memᴰ}
use mathlib.Core.List.Memᴰ.{head, tail, cases_cons}
use deploy_hub.Prelude.{
  ℕ, String, ◌==◌, eq_iff, ◌≡◌, ◌≢◌, ◌↔◌, ◌⊎◌, refl, sym, ap, subst, ◌∙◌, inl, inr, true, false,
  Option, none, some, List, [], ◌∷◌, arith, Bool-cases, ◌&&◌,
}
use deploy_hub.Action.{ok}
use deploy_hub.Schema.{Project}
use deploy_hub.Api.World.{World, admin, Member, role_in}
use deploy_hub.Api.Access.{User, is_admin, is_live, live_project, verify_project_access}
use deploy_hub.Api.Access.Laws.{verify_project_access_live}

-- A row of the table with this id that is not deleted.
pub record IsProject (k : String) (p : Project) (ps : List Project) : Type 0 where
  pub stored : Memᴰ p ps
  pub id : p.id ≡ k
  pub kept : p.deleted_at ≡ none

-- A row for this user among the members.
pub record IsMember (k u : String) (ms : List Member) : Type 0 where
  pub member : Member
  pub stored : Memᴰ member ms
  pub project : member.project_id ≡ k
  pub user : member.user_id ≡ u

-- The primary key.
abbrev pub HasUniqueIds : List Project → Type 0
HasUniqueIds ps = (a b : Project) → Memᴰ a ps → Memᴰ b ps → a.id ≡ b.id → a ≡ b

no_false : true ≢ false
no_false e = ground (arith, e)

some-inj : {A : Type 0} {a b : A} → some a ≡ some b → a ≡ b
some-inj e = cc

live_row : (a k : String) (t : Option ℕ) → (a == k && is_live t ≡ true) ↔ ((a ≡ k) × (t ≡ none))
live_row a k none = ground (arith, eq_iff a k)
live_row a k (some t) = ground (arith, eq_iff a k)

member_row : (a k b u : String) → (a == k && b == u ≡ true) ↔ ((a ≡ k) × (b ≡ u))
member_row a k b u = ground (arith, eq_iff a k, eq_iff b u)

admin_role : (u : User) → is_admin u ≡ true → u.role ≡ admin
admin_role u h = ground (arith, h)

live_project-IsProject :
    (k : String) (p : Project) (ps : List Project) → live_project k ps ≡ some p → IsProject k p ps
unfolding live_project
live_project-IsProject k p [] h = cc
live_project-IsProject k p (q ∷ ps) h = elim (Bool-cases (q.id == k && is_live q.deleted_at)) [
  | inl t ↦
      let (i, l) = (live_row q.id k q.deleted_at).0 t in
      let e : q ≡ p = some-inj (sym (rw t refl) ∙ h) in
      subst (λ r. IsProject k r (q ∷ ps)) e (record { stored = head refl; id = i; kept = l })
  | inr f ↦
      let r = live_project-IsProject k p ps (sym (rw f refl) ∙ h) in
      record { stored = tail r.stored; id = r.id; kept = r.kept }
]

IsProject-live_project :
    (k : String) (p : Project) (ps : List Project)
    → IsProject k p ps
    → (q : Project) × (live_project k ps ≡ some q)
unfolding live_project
IsProject-live_project k p [] h = elim h.stored [ ]
IsProject-live_project k p (q ∷ ps) h = elim (Bool-cases (q.id == k && is_live q.deleted_at)) [
  | inl t ↦ (q, rw t refl)
  | inr f ↦ elim (cases_cons h.stored) [
    | inl e ↦
        let t =
          (live_row q.id k q.deleted_at).1
            (ap (λ r. r.id) (sym e) ∙ h.id, ap (λ r. r.deleted_at) (sym e) ∙ h.kept) in
        elim (no_false (sym t ∙ f)) [ ]
    | inr m ↦
        let (r, e) =
          IsProject-live_project k p ps (record { stored = m; id = h.id; kept = h.kept }) in
        (r, rw f e)
  ]
]

role_in-IsMember : (k u : String) (ms : List Member) → role_in k u ms ≢ none → IsMember k u ms
unfolding role_in
role_in-IsMember k u [] h = elim (h refl) [ ]
role_in-IsMember k u (m ∷ ms) h = elim (Bool-cases (m.project_id == k && m.user_id == u)) [
  | inl t ↦ record {
    member = m;
    stored = head refl;
    project = ((member_row m.project_id k m.user_id u).0 t).0;
    user = ((member_row m.project_id k m.user_id u).0 t).1;
  }
  | inr f ↦
      let r = role_in-IsMember k u ms (λ e. h (rw f e)) in
      record { member = r.member; stored = tail r.stored; project = r.project; user = r.user }
]

IsMember-role_in : (k u : String) (ms : List Member) → IsMember k u ms → role_in k u ms ≢ none
unfolding role_in
IsMember-role_in k u [] h = elim h.stored [ ]
IsMember-role_in k u (m ∷ ms) h = elim (Bool-cases (m.project_id == k && m.user_id == u)) [
  | inl t ↦ rw t (λ e. cc)
  | inr f ↦ elim (cases_cons h.stored) [
    | inl e ↦
        let t =
          (member_row m.project_id k m.user_id u).1
            (ap (λ n. n.project_id) (sym e) ∙ h.project, ap (λ n. n.user_id) (sym e) ∙ h.user) in
        λ _. no_false (sym t ∙ f)
    | inr s ↦ rw f (
        IsMember-role_in k u ms
          (record { member = h.member; stored = s; project = h.project; user = h.user }))
  ]
]

-- While the database answers and no two projects have one id: a project is handed out exactly if it is
-- a row of the table with the id that is asked for and is not deleted, and the caller is an
-- administrator or there is a row among the members for the caller and this project.
pub verify_project_access_exact :
    (k : String) (u : User) (w : World) (p : Project)
    → HasUniqueIds w.projects
    → (verify_project_access none k u w ≡ (ok p, w))
      ↔ (IsProject k p w.projects × ((u.role ≡ admin) ⊎ IsMember k u.user_id w.members))
verify_project_access_exact k u w p unique = (
  λ h.
      let (l, r) = (verify_project_access_live k u w p).0 h in
      (
        live_project-IsProject k p w.projects l,
        elim r [
          | inl a ↦ inl (admin_role u a)
          | inr m ↦ inr (role_in-IsMember k u.user_id w.members m)
        ],
      ),
  λ h.
      let (q, l) = IsProject-live_project k p w.projects h.0 in
      let s = live_project-IsProject k q w.projects l in
      (verify_project_access_live k u w p).1 (
        l ∙ ap some (unique q p s.stored h.0.stored (s.id ∙ sym h.0.id)),
        elim h.1 [
          | inl a ↦ inl (rw a refl)
          | inr m ↦ inr (IsMember-role_in k u.user_id w.members m)
        ],
      ),
)
