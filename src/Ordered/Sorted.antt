-- ===== src/Ordered/Sorted.antt =====
-- Sorting puts the rows into descending order, keeps every row, and commutes with a filter.
use mathlib.Core.List.{Perm}
use mathlib.Core.List.Perm
use deploy_hub.Prelude.{
  if◌then◌else◌, Bool, true, List, [], ◌∷◌, ◌≡◌, refl, ◌∙◌, ◌⊎◌, inl, inr, All, select, length, suc,
  arith, Bool-cases,
}
use deploy_hub.Ordered.{insert, sort, Descending, Comparable, IsStrict}

module _ {ℓ} {A : Type ℓ} (above : A → A → Bool) where
  pub All-insert {κ} :
      (P : A → Type κ) (d : A) (s : List A) → P d → All P s → All P (insert above d s)
  unfolding insert
  All-insert P d [] p h = (p, tt)
  All-insert P d (e ∷ es) p h = elim (Bool-cases (above d e)) [
    | inl t ↦ rw t (p, (h.0, h.1))
    | inr f ↦ rw f (h.0, All-insert P d es p h.1)
  ]

  pub All-sort {κ} : (P : A → Type κ) (l : List A) → All P l → All P (sort above l)
  unfolding sort
  All-sort P [] h = tt
  All-sort P (d ∷ ds) h = All-insert P d (sort above ds) h.0 (All-sort P ds h.1)

  insert-perm : (d : A) (s : List A) → Perm (insert above d s) (d ∷ s)
  unfolding insert
  insert-perm d [] = Perm.rfl
  insert-perm d (e ∷ es) = elim (Bool-cases (above d e)) [
    | inl t ↦ rw t Perm.rfl
    | inr f ↦ rw f (Perm.trans (Perm.cons e (insert-perm d es)) (Perm.swap d e es))
  ]

  pub sort-perm : (l : List A) → Perm (sort above l) l
  unfolding sort
  sort-perm [] = Perm.rfl
  sort-perm (d ∷ ds) = Perm.trans (insert-perm d (sort above ds)) (Perm.cons d (sort-perm ds))

  length-insert : (d : A) (s : List A) → length (insert above d s) ≡ suc (length s)
  unfolding insert
  length-insert d [] = refl
  length-insert d (e ∷ es) = ground (arith, length-insert d es)

  pub length-sort : (l : List A) → length (sort above l) ≡ length l
  unfolding sort
  length-sort [] = refl
  length-sort (d ∷ ds) = omega (arith, length-insert d (sort above ds), length-sort ds)

module _ {ℓ} {A : Type ℓ} (above : A → A → Bool) (o : IsStrict above) where
  All-above :
      (d e : A) (es : List A)
      → above d e ≡ true
      → All (λ y. above e y ≡ true) es
      → All (λ y. above d y ≡ true) es
  All-above d e [] t h = tt
  All-above d e (y ∷ ys) t h = (o.trans d e y t h.0, All-above d e ys t h.1)

  insert-Descending :
      (d : A) (s : List A)
      → All (λ y. (above d y ≡ true) ⊎ (above y d ≡ true)) s
      → Descending above s
      → Descending above (insert above d s)
  unfolding insert
  insert-Descending d [] c h = (tt, tt)
  insert-Descending d (e ∷ es) c h = elim (Bool-cases (above d e)) [
    | inl t ↦ rw t ((t, All-above d e es t h.0), h)
    | inr f ↦ rw f (
      All-insert above (λ y. above e y ≡ true) d es (ground (arith, c.0, f)) h.0,
      insert-Descending d es c.1 h.1,
    )
  ]

  -- The sorted rows are in descending order.
  pub sort-Descending : (l : List A) → Comparable above l → Descending above (sort above l)
  unfolding sort
  sort-Descending [] c = tt
  sort-Descending (d ∷ ds) c =
      insert-Descending d (sort above ds)
        (All-sort above (λ y. (above d y ≡ true) ⊎ (above y d ≡ true)) ds c.0)
        (sort-Descending ds c.1)

  All-select {κ} : (P : A → Type κ) (p : A → Bool) (l : List A) → All P l → All P (select p l)
  All-select P p [] h = tt
  All-select P p (x ∷ xs) h = elim (Bool-cases (p x)) [
    | inl t ↦ rw t (h.0, All-select P p xs h.1)
    | inr f ↦ rw f (All-select P p xs h.1)
  ]

  -- A row above all others goes to the front.
  insert_front : (d : A) (s : List A) → All (λ y. above d y ≡ true) s → insert above d s ≡ d ∷ s
  unfolding insert
  insert_front d [] h = refl
  insert_front d (e ∷ es) h = rw h.0 refl

  select-insert :
      (p : A → Bool) (d : A) (s : List A)
      → Descending above s
      → select p (insert above d s) ≡ (if p d then insert above d (select p s) else select p s)
  unfolding insert
  select-insert p d [] h = refl
  select-insert p d (e ∷ es) h = elim (Bool-cases (above d e)) [
    | inl t ↦ ground (
      arith,
      t,
      insert_front d (select p es)
          (All-select (λ y. above d y ≡ true) p es (All-above d e es t h.0)),
    )
    | inr f ↦ ground (arith, f, select-insert p d es h.1)
  ]

  pub select-sort :
      (p : A → Bool) (l : List A)
      → Comparable above l
      → select p (sort above l) ≡ sort above (select p l)
  unfolding sort
  select-sort p [] c = refl
  select-sort p (d ∷ ds) c =
      select-insert p d (sort above ds) (sort-Descending ds c.1)
      ∙ ground (arith, select-sort p ds c.1)
