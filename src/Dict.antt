-- ===== src/Dict.antt =====
-- Python's dict with text keys: its entries in insertion order.
pub mod Laws
use deploy_hub.Prelude.{
  String, ◌==◌, if◌then◌else◌, Bool, true, false, ◌&&◌, not, Option, none, some, List, [], ◌∷◌,
  contains,
}

abbrev pub Dict {ℓ} : Type ℓ → Type ℓ
Dict V = List (String × V)

module _ {ℓ} {V : Type ℓ} where
  -- `list(d.keys())`.
  unfoldable pub keys : Dict V → List String
  keys [] = []
  keys ((j, v) ∷ d) = j ∷ keys d

  -- `d.get(k)`.
  unfoldable pub lookup : String → Dict V → Option V
  lookup k [] = none
  lookup k ((j, v) ∷ d) = if j == k then some v else lookup k d

  -- `d[k] = v`.
  unfoldable pub assign : String → V → Dict V → Dict V
  assign k v [] = (k, v) ∷ []
  assign k v ((j, x) ∷ d) = let rest = assign k v d in if j == k then (j, v) ∷ d else (j, x) ∷ rest

  -- `del d[k]`.
  unfoldable pub erase : String → Dict V → Dict V
  erase k [] = []
  erase k ((j, x) ∷ d) = let rest = erase k d in if j == k then d else (j, x) ∷ rest

  -- A dict has a key once.
  unfoldable pub has_unique_keys : Dict V → Bool
  unfolding keys
  has_unique_keys [] = true
  has_unique_keys ((j, v) ∷ d) = not (contains j (keys d)) && has_unique_keys d
