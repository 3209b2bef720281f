-- ===== src/Ordered.antt =====
-- `ORDER BY ... DESC LIMIT n` over a strict order that is given as a test, and following a query from
-- page to page by the last row of each.
pub mod Sorted
pub mod Follow
pub mod Top
use deploy_hub.Prelude.{
  ℕ, zero, suc, if◌then◌else◌, Bool, true, false, Option, none, some, List, [], ◌∷◌, ◌++◌, ◌≡◌, ◌⊎◌,
  All, select,
}

module _ {ℓ} {A : Type ℓ} where
  -- `LIMIT n`.
  unfoldable pub take : ℕ → List A → List A
  take (suc n) (x ∷ xs) = x ∷ take n xs
  take _ _ = []

  unfoldable pub drop : ℕ → List A → List A
  drop (suc n) (x ∷ xs) = drop n xs
  drop _ l = l

  -- The last row of a page that starts with this row.
  abbrev pub last_of : A → List A → A
  last_of x [] = x
  last_of x (y ∷ ys) = last_of y ys

module _ {ℓ} {A : Type ℓ} (above : A → A → Bool) where
  unfoldable pub insert : A → List A → List A
  insert d [] = d ∷ []
  insert d (e ∷ es) = let rest = insert d es in if above d e then d ∷ e ∷ es else e ∷ rest

  -- The greatest row first.
  unfoldable pub sort : List A → List A
  unfolding insert
  sort [] = []
  sort (d ∷ ds) = insert d (sort ds)

  -- The rows below a bound, where there is one.
  abbrev pub under : Option A → A → Bool
  under none x = true
  under (some c) x = above c x

  -- Each row is above those behind it.
  abbrev pub Descending : List A → Type 0
  Descending [] = Unit
  Descending (x ∷ xs) = All (λ y. above x y ≡ true) xs × Descending xs

  -- Of two rows one is above the other.
  abbrev pub Comparable : List A → Type 0
  Comparable [] = Unit
  Comparable (x ∷ xs) = All (λ y. (above x y ≡ true) ⊎ (above y x ≡ true)) xs × Comparable xs

  -- A strict order.
  pub record IsStrict : Type ℓ where
    pub irrefl : (a : A) → above a a ≡ false
    pub trans : (a b c : A) → above a b ≡ true → above b c ≡ true → above a c ≡ true

-- Asks for page after page, each below the last row of the one before, until one is empty.
pub follow {ℓ} : {A : Type ℓ} → (Option A → List A) → ℕ → Option A → Option (List A)
follow page zero c = none
follow page (suc fuel) c = elim (page c) [
  | [] ↦ some []
  | x ∷ xs ↦ elim (follow page fuel (some (last_of x xs))) [
    | none ↦ none
    | some rest ↦ some (x ∷ xs ++ rest)
  ]
]
