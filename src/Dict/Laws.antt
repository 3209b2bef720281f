-- ===== src/Dict/Laws.antt =====
-- What a lookup finds after an assignment or a deletion.
use deploy_hub.Prelude.{
  String, ◌==◌, if◌then◌else◌, true, false, ◌||◌, none, some, [], ◌∷◌, contains, ◌≡◌, refl, arith,
  eq_iff,
}
use deploy_hub.Dict.{Dict, keys, lookup, assign, erase, has_unique_keys}

module _ {ℓ} {V : Type ℓ} where
  pub lookup-assign :
      (i k : String) (v : V) (d : Dict V)
      → lookup i (assign k v d) ≡ (if k == i then some v else lookup i d)
  unfolding lookup assign
  lookup-assign i k v [] = refl
  lookup-assign i k v ((j, x) ∷ d) =
      ground (arith, lookup-assign i k v d, eq_iff k i, eq_iff j k, eq_iff j i)

  contains-assign :
      (i k : String) (v : V) (d : Dict V)
      → contains i (keys (assign k v d)) ≡ (k == i || contains i (keys d))
  unfolding keys assign
  contains-assign i k v [] = refl
  contains-assign i k v ((j, x) ∷ d) =
      ground (arith, contains-assign i k v d, eq_iff k i, eq_iff j k, eq_iff j i)

  pub assign_unique :
      (k : String) (v : V) (d : Dict V)
      → has_unique_keys d ≡ true
      → has_unique_keys (assign k v d) ≡ true
  unfolding has_unique_keys keys assign
  assign_unique k v [] h = refl
  assign_unique k v ((j, x) ∷ d) h =
      ground (arith, contains-assign j k v d, assign_unique k v d, eq_iff j k, eq_iff k j)

  lookup-absent : (k : String) (d : Dict V) → contains k (keys d) ≡ false → lookup k d ≡ none
  unfolding lookup keys
  lookup-absent k [] h = refl
  lookup-absent k ((j, x) ∷ d) h = ground (arith, lookup-absent k d)

  pub lookup-erase :
      (i k : String) (d : Dict V)
      → has_unique_keys d ≡ true
      → lookup i (erase k d) ≡ (if k == i then none else lookup i d)
  unfolding lookup erase has_unique_keys
  lookup-erase i k [] h = ground arith
  lookup-erase i k ((j, x) ∷ d) h =
      ground (arith, lookup-erase i k d, lookup-absent i d, eq_iff k i, eq_iff j k, eq_iff j i)

  contains-erase :
      (i k : String) (d : Dict V)
      → contains i (keys d) ≡ false
      → contains i (keys (erase k d)) ≡ false
  unfolding keys erase
  contains-erase i k [] h = refl
  contains-erase i k ((j, x) ∷ d) h = ground (arith, contains-erase i k d)

  pub erase_unique :
      (k : String) (d : Dict V) → has_unique_keys d ≡ true → has_unique_keys (erase k d) ≡ true
  unfolding has_unique_keys erase keys
  erase_unique k [] h = refl
  erase_unique k ((j, x) ∷ d) h = ground (arith, contains-erase j k d, erase_unique k d)

  -- A dict without the key is left as it is.
  pub erase-absent : (k : String) (d : Dict V) → contains k (keys d) ≡ false → erase k d ≡ d
  unfolding erase keys
  erase-absent k [] h = refl
  erase-absent k ((j, x) ∷ d) h = ground (arith, erase-absent k d)
