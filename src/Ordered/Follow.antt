-- ===== src/Ordered/Follow.antt =====
-- Following the pages of a sorted table visits every row, once and in order.
use deploy_hub.Prelude.{
  ℕ, zero, suc, ◌≤◌, ◌<◌, Bool, true, false, Option, none, some, List, [], ◌∷◌, ◌++◌, ◌≡◌, refl,
  sym, ap, subst, ◌∙◌, inl, inr, All, select, length, arith, Bool-cases,
}
use deploy_hub.Ordered.{take, drop, last_of, under, Descending, IsStrict, follow}

module _ {ℓ} {A : Type ℓ} where
  take-append-drop : (n : ℕ) (l : List A) → take n l ++ drop n l ≡ l
  unfolding take drop
  take-append-drop (suc n) (x ∷ xs) = ap (◌∷◌ x) (take-append-drop n xs)
  take-append-drop _ _ = refl

  length-drop : (n : ℕ) (x : A) (xs : List A) → length (drop (suc n) (x ∷ xs)) ≤ length xs
  unfolding drop
  length-drop zero x [] = omega arith
  length-drop (suc n) x [] = omega arith
  length-drop zero x (y ∷ ys) = omega arith
  length-drop (suc n) x (y ∷ ys) = omega (arith, length-drop n y ys)

  All-last {κ} : (P : A → Type κ) (x : A) (xs : List A) → P x → All P xs → P (last_of x xs)
  All-last P x [] p h = p
  All-last P x (y ∷ ys) p h = All-last P y ys h.0 h.1

  All-take {κ} : (P : A → Type κ) (n : ℕ) (xs : List A) → All P xs → All P (take n xs)
  unfolding take
  All-take P (suc n) (x ∷ xs) h = (h.0, All-take P n xs h.1)
  All-take P zero xs h = tt
  All-take P (suc n) [] h = tt

  -- A filter behind a weaker one.
  select-select :
      (p q : A → Bool) (l : List A)
      → ((x : A) → q x ≡ true → p x ≡ true)
      → select q (select p l) ≡ select q l
  select-select p q [] h = refl
  select-select p q (x ∷ xs) h = ground (arith, h x, select-select p q xs h)

  All-selected : (p : A → Bool) (l : List A) → All (λ x. p x ≡ true) (select p l)
  All-selected p [] = tt
  All-selected p (x ∷ xs) = elim (Bool-cases (p x)) [
    | inl t ↦ rw t (t, All-selected p xs)
    | inr f ↦ rw f (All-selected p xs)
  ]

  select_every : (p : A → Bool) (l : List A) → All (λ x. p x ≡ true) l → select p l ≡ l
  select_every p [] h = refl
  select_every p (x ∷ xs) h = rw h.0 (ap (◌∷◌ x) (select_every p xs h.1))

  pub select_true : (l : List A) → select (λ x. true) l ≡ l
  select_true [] = refl
  select_true (x ∷ xs) = ap (◌∷◌ x) (select_true xs)

  follow_nil :
      (page : Option A → List A) (fuel : ℕ) (c : Option A)
      → page c ≡ []
      → follow page (suc fuel) c ≡ some []
  unfolding follow
  follow_nil page fuel c e = rw (e, follow) refl

  follow_cons :
      (page : Option A → List A) (fuel : ℕ) (c : Option A) (x : A) (xs rest : List A)
      → page c ≡ x ∷ xs
      → follow page fuel (some (last_of x xs)) ≡ some rest
      → follow page (suc fuel) c ≡ some (x ∷ xs ++ rest)
  unfolding follow
  follow_cons page fuel c x xs rest e h = rw (e, follow) (rw h refl)

module _ {ℓ} {A : Type ℓ} (above : A → A → Bool) (o : IsStrict above) where
  asym : (a b : A) → above a b ≡ true → above b a ≡ false
  asym a b t = elim (Bool-cases (above b a)) [
    | inl u ↦ absurd (ground (arith, o.trans a b a t u, o.irrefl a))
    | inr f ↦ f
  ]

  -- What is below the last row of a page is what is behind the page.
  select-drop :
      (n : ℕ) (x : A) (xs : List A)
      → Descending above (x ∷ xs)
      → select (above (last_of x (take n xs))) (x ∷ xs) ≡ drop (suc n) (x ∷ xs)
  unfolding take drop
  select-drop zero x xs h = rw (o.irrefl x) (select_every (above x) xs h.0)
  select-drop (suc n) x [] h = rw (o.irrefl x) refl
  select-drop (suc n) x (y ∷ ys) h =
      rw
        (asym x (last_of y (take n ys)) (
          All-last (λ z. above x z ≡ true) y (take n ys) h.0.0
            (All-take (λ z. above x z ≡ true) n ys h.0.1)))
        (select-drop n y ys h.1)

  drop-Descending : (n : ℕ) (l : List A) → Descending above l → Descending above (drop n l)
  unfolding drop
  drop-Descending (suc n) (x ∷ xs) h = drop-Descending n xs h.1
  drop-Descending zero l h = h
  drop-Descending (suc n) [] h = h

  module _ (n : ℕ) (s : List A) (page : Option A → List A) where
    -- Every page is the first `n + 1` rows under its bound.
    abbrev pub IsPaged : Type ℓ
    IsPaged = (c : Option A) → page c ≡ take (suc n) (select (under above c) s)

    weaker :
        (c : Option A) (x : A) (ys : List A)
        → select (under above c) s ≡ x ∷ ys
        → (z : A) → above (last_of x (take n ys)) z ≡ true
        → under above c z ≡ true
    weaker none x ys e z t = refl
    weaker (some d) x ys e z t =
        let below = subst (All (λ b. above d b ≡ true)) e (All-selected (above d) s) in
        o.trans d (last_of x (take n ys)) z
          (All-last (λ b. above d b ≡ true) x (take n ys) below.0
            (All-take (λ b. above d b ≡ true) n ys below.1))
          t

    under_last :
        (c : Option A) (x : A) (ys : List A)
        → select (under above c) s ≡ x ∷ ys
        → Descending above (x ∷ ys)
        → select (under above (some (last_of x (take n ys)))) s ≡ drop (suc n) (x ∷ ys)
    under_last c x ys e h =
        sym (select-select (under above c) (above (last_of x (take n ys))) s (weaker c x ys e))
        ∙ (ap (select (above (last_of x (take n ys)))) e ∙ select-drop n x ys h)

    -- From any bound on, the pages are the rows under it.
    pub follow_from :
        IsPaged
        → (fuel : ℕ) (c : Option A) (ys : List A) → select (under above c) s ≡ ys
        → Descending above ys
        → length ys < fuel
        → follow page fuel c ≡ some ys
    unfolding take
    follow_from paged zero c ys e h lt = absurd (omega arith)
    follow_from paged (suc fuel) c [] e h lt =
        follow_nil page fuel c (paged c ∙ ap (take (suc n)) e)
    follow_from paged (suc fuel) c (y ∷ ys) e h lt =
        follow_cons page fuel c y (take n ys) (drop (suc n) (y ∷ ys))
          (paged c ∙ ap (take (suc n)) e)
          (follow_from paged fuel (some (last_of y (take n ys))) (drop (suc n) (y ∷ ys))
            (under_last c y ys e h) (drop-Descending (suc n) (y ∷ ys) h)
            (omega (arith, length-drop n y ys)))
        ∙ ap some (take-append-drop (suc n) (y ∷ ys))
