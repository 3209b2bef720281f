-- ===== src/Ordered/Top.antt =====
-- What a query with ORDER BY and LIMIT answers, over an order in which rows may be equal.
use mathlib.Core.List.{Perm}
use deploy_hub.Prelude.{
  ℕ, zero, suc, ◌≤◌, Bool, true, false, List, [], ◌∷◌, ◌++◌, ◌≡◌, refl, sym, ap, subst, ◌⊎◌, inl,
  inr, All, select, length, arith, Bool-cases,
}
use deploy_hub.Ordered.{take, drop, insert, sort}
use deploy_hub.Ordered.Sorted.{sort-perm, All-sort, All-insert}

module _ {ℓ} {A : Type ℓ} where
  take-drop : (n : ℕ) (l : List A) → take n l ++ drop n l ≡ l
  unfolding take drop
  take-drop zero l = refl
  take-drop (suc n) [] = refl
  take-drop (suc n) (x ∷ xs) = ap (λ ys. x ∷ ys) (take-drop n xs)

  length-take : (n : ℕ) (l : List A) → length (take n l) ≤ n
  unfolding take
  length-take zero l = omega arith
  length-take (suc n) [] = omega arith
  length-take (suc n) (x ∷ xs) = omega (arith, length-take n xs)

  take-full : (n : ℕ) (l : List A) → (drop n l ≡ []) ⊎ (length (take n l) ≡ n)
  unfolding take drop
  take-full zero l = inr refl
  take-full (suc n) [] = inl refl
  take-full (suc n) (x ∷ xs) = elim (take-full n xs) [ inl e ↦ inl e | inr e ↦ inr (ap suc e) ]

  pub All-take {κ} : (P : A → Type κ) (n : ℕ) (l : List A) → All P l → All P (take n l)
  unfolding take
  All-take P zero l h = tt
  All-take P (suc n) [] h = tt
  All-take P (suc n) (x ∷ xs) h = (h.0, All-take P n xs h.1)

  pub All-passed : (p : A → Bool) (l : List A) → All (λ x. p x ≡ true) (select p l)
  All-passed p [] = tt
  All-passed p (x ∷ xs) = elim (Bool-cases (p x)) [
    | inl t ↦ rw t (t, All-passed p xs)
    | inr f ↦ rw f (All-passed p xs)
  ]

  pub All-selected {κ} : (P : A → Type κ) (p : A → Bool) (l : List A) → All P l → All P (select p l)
  All-selected P p [] h = tt
  All-selected P p (x ∷ xs) h = elim (Bool-cases (p x)) [
    | inl t ↦ rw t (h.0, All-selected P p xs h.1)
    | inr f ↦ rw f (All-selected P p xs h.1)
  ]

module _ {A : Type 0} (above : A → A → Bool) where
  -- No row is below one that stands behind it.
  abbrev pub Falling : List A → Type 0
  Falling [] = Unit
  Falling (x ∷ xs) = All (λ y. above y x ≡ false) xs × Falling xs

  -- `rows` are the first `n` of the rows of `l` that pass `p`; `rest` are the others.
  pub record IsTop (p : A → Bool) (n : ℕ) (l rows : List A) : Type 0 where
    pub rest : List A
    pub complete : Perm (rows ++ rest) (select p l)
    pub falling : Falling (rows ++ rest)
    pub chosen : All (λ x. p x ≡ true) rows
    pub bounded : length rows ≤ n
    pub full : (rest ≡ []) ⊎ (length rows ≡ n)

  module _ (irrefl : (a : A) → above a a ≡ false)
      (trans : (a b c : A) → above a b ≡ true → above b c ≡ true → above a c ≡ true) where
    falls_below :
        (d e : A) (es : List A)
        → above d e ≡ true
        → All (λ y. above y e ≡ false) es
        → All (λ y. above y d ≡ false) es
    falls_below d e [] t h = tt
    falls_below d e (y ∷ ys) t h = (
      elim (Bool-cases (above y d)) [
        | inl u ↦ let v = trans y d e u t in ground (arith, v, h.0)
        | inr f ↦ f
      ],
      falls_below d e ys t h.1,
    )

    not_both : (d e : A) → above d e ≡ true → above e d ≡ false
    not_both d e t = elim (Bool-cases (above e d)) [
      | inl u ↦ let v = trans d e d t u in ground (arith, v, irrefl d)
      | inr f ↦ f
    ]

    insert-Falling : (d : A) (s : List A) → Falling s → Falling (insert above d s)
    unfolding insert
    insert-Falling d [] h = (tt, tt)
    insert-Falling d (e ∷ es) h = elim (Bool-cases (above d e)) [
      | inl t ↦ rw t ((not_both d e t, falls_below d e es t h.0), h)
      | inr f ↦ rw f (All-insert above (λ y. above y e ≡ false) d es f h.0, insert-Falling d es h.1)
    ]

    pub sort-Falling : (l : List A) → Falling (sort above l)
    unfolding sort
    sort-Falling [] = tt
    sort-Falling (d ∷ ds) = insert-Falling d (sort above ds) (sort-Falling ds)

    -- `WHERE p ORDER BY ... LIMIT n`.
    pub take-sort :
        (p : A → Bool) (n : ℕ) (l : List A) → IsTop p n l (take n (sort above (select p l)))
    take-sort p n l =
        let sorted = sort above (select p l) in
        record {
          rest = drop n sorted;
          complete =
              subst (λ ys. Perm ys (select p l)) (sym (take-drop n sorted))
                (sort-perm above (select p l));
          falling = subst Falling (sym (take-drop n sorted)) (sort-Falling (select p l));
          chosen =
              All-take (λ x. p x ≡ true) n sorted
                (All-sort above (λ x. p x ≡ true) (select p l) (All-passed p l));
          bounded = length-take n sorted;
          full = take-full n sorted;
        }
