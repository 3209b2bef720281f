-- ===== src/Text/Split.antt =====
-- A text is cut at a code point, and put together again.
use Prim.Native.Char.{Char, code}
use Prim.Native.String.{◌++◌ as append}
use deploy_hub.Prelude.{ℕ, String, true, false, some, ◌≡◌, refl, ap, ◌∙◌, arith}
use text.Mathlib.TextLemmas.{nil-append, cons-append}
use deploy_hub.Text.{truthy, same_code, has_code, before_first, after_first}

module _ (k : ℕ) (c : Char) (m : same_code (code c) k ≡ true) where
  pub before_first-append :
      (s t : String) → has_code k s ≡ false → before_first k (append s (String.◌∷◌ c t)) ≡ s
  unfolding before_first has_code
  before_first-append String.[] t h = rw nil-append (ground (arith, m))
  before_first-append (String.◌∷◌ d s) t h =
      rw cons-append (ground (arith, before_first-append s t, h))

  pub after_first-append :
      (s t : String) → has_code k s ≡ false → after_first k (append s (String.◌∷◌ c t)) ≡ some t
  unfolding after_first has_code
  after_first-append String.[] t h = rw nil-append (ground (arith, m))
  after_first-append (String.◌∷◌ d s) t h =
      rw cons-append (ground (arith, after_first-append s t, h))

  pub has_code-append : (s t : String) → has_code k (append s (String.◌∷◌ c t)) ≡ true
  unfolding has_code
  has_code-append String.[] t = rw nil-append (ground (arith, m))
  has_code-append (String.◌∷◌ d s) t = rw cons-append (ground (arith, has_code-append s t))

-- A separator of one code point in the middle.
pub append-one :
    (c : Char) (s t : String)
    → append s (append (String.◌∷◌ c String.[]) t) ≡ append s (String.◌∷◌ c t)
append-one c s t = ap (append s) (cons-append c String.[] t ∙ ap (String.◌∷◌ c) (nil-append t))

pub has_code-truthy : (k : ℕ) (s : String) → has_code k s ≡ true → truthy (some s) ≡ true
unfolding has_code
has_code-truthy k String.[] h = ground (arith, h)
has_code-truthy k (String.◌∷◌ c s) h = refl
