-- ===== src/Api/Deploy/Latest.antt =====
-- The row that a rollback goes back to.
use deploy_hub.Prelude.{
  ◌≤◌, String, ltb, ◌≡◌, refl, inl, inr, true, false, Option, none, some, List, [], ◌∷◌, All, arith,
  Bool-cases,
}
use mathlib.Core.List.{Memᴰ}
use mathlib.Core.List.Memᴰ.{head, tail}
use deploy_hub.Schema.{Deployment}
use deploy_hub.Api.Deploy.{is_good, later, last_good}

-- No good row of the project is later than this one.
abbrev pub IsLatest : String → Deployment → List Deployment → Type 0
IsLatest k g ds = All (λ d. is_good k d ≡ true → d.updated_at ≤ g.updated_at) ds

-- What `last_good` finds.
abbrev Found : String → List Deployment → Option Deployment → Type 0
Found k ds none = All (λ d. is_good k d ≡ false) ds
Found k ds (some g) = Memᴰ g ds × ((is_good k g ≡ true) × IsLatest k g ds)

IsLatest-mono :
    (k : String) (g h : Deployment) (ds : List Deployment)
    → g.updated_at ≤ h.updated_at
    → IsLatest k g ds
    → IsLatest k h ds
IsLatest-mono k g h [] le p = tt
IsLatest-mono k g h (d ∷ ds) le p = (λ e. omega (arith, p.0 e), IsLatest-mono k g h ds le p.1)

none_good :
    (k : String) (g : Deployment) (ds : List Deployment)
    → All (λ d. is_good k d ≡ false) ds
    → IsLatest k g ds
none_good k g [] p = tt
none_good k g (d ∷ ds) p = (λ e. ground (arith, p.0), none_good k g ds p.1)

later-Found :
    (k : String) (d : Deployment) (ds : List Deployment) (r : Option Deployment)
    → is_good k d ≡ true
    → Found k ds r
    → Found k (d ∷ ds) (later d r)
unfolding later
later-Found k d ds none e p = (head refl, (e, ((λ _. omega arith), none_good k d ds p)))
later-Found k d ds (some b) e p = elim (Bool-cases (ltb d.updated_at b.updated_at)) [
  | inl lt ↦ rw lt (tail p.0, (p.1.0, ((λ _. ground (arith, lt)), p.1.1)))
  | inr ge ↦
      rw ge
        (head refl, (e, ((λ _. omega arith), IsLatest-mono k b d ds (ground (arith, ge)) p.1.1)))
]

skip-Found :
    (k : String) (d : Deployment) (ds : List Deployment) (r : Option Deployment)
    → is_good k d ≡ false
    → Found k ds r
    → Found k (d ∷ ds) r
skip-Found k d ds none e p = (e, p)
skip-Found k d ds (some g) e p = (tail p.0, (p.1.0, ((λ t. ground (arith, e, t)), p.1.1)))

-- `last_good` finds a Running row of the project than which no Running row of the project was updated
-- later; it finds none only if the project has no Running row.
last_good-Found : (k : String) (ds : List Deployment) → Found k ds (last_good k ds)
unfolding last_good
last_good-Found k [] = tt
last_good-Found k (d ∷ ds) = elim (Bool-cases (is_good k d)) [
  | inl e ↦ rw e (later-Found k d ds (last_good k ds) e (last_good-Found k ds))
  | inr e ↦ rw e (skip-Found k d ds (last_good k ds) e (last_good-Found k ds))
]
