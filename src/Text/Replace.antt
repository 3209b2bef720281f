-- ===== src/Text/Replace.antt =====
-- A text that is replaced by itself.
use Prim.Native.Char.{code}
use Prim.Native.String.{◌++◌ as append}
use text.Mathlib.TextEquality.{Char-path}
use text.Mathlib.TextLemmas.{nil-append, cons-append}
use deploy_hub.Prelude.{
  ℕ, zero, suc, ◌-◌, String, true, ◌≡◌, refl, ap, ◌∙◌, some, arith, Bool-cases, inl, inr,
}
use deploy_hub.Text.{same_code, truthy, starts_with, text_length, replace_from, replace}

-- `s[n:]`.
drop_text : ℕ → String → String
drop_text zero s = s
drop_text (suc n) String.[] = String.[]
drop_text (suc n) (String.◌∷◌ c s) = drop_text n s

same_code-eq : (a b : ℕ) → same_code a b ≡ true → a ≡ b
same_code-eq a b h = ground (arith, h)

starts_with-append :
    (p s : String) → starts_with p s ≡ true → append p (drop_text (text_length p) s) ≡ s
unfolding starts_with text_length drop_text
starts_with-append String.[] s h = nil-append s
starts_with-append (String.◌∷◌ c p) String.[] h = ground (arith, h)
starts_with-append (String.◌∷◌ c p) (String.◌∷◌ d s) h =
    let e : c ≡ d = Char-path c d (same_code-eq (code c) (code d) (ground (arith, h))) in
    cons-append c p (drop_text (text_length p) s)
    ∙ (ap (λ b. String.◌∷◌ b (append p (drop_text (text_length p) s))) e
        ∙ ap (String.◌∷◌ d) (starts_with-append p s (ground (arith, h))))

suc-pred : (n : ℕ) → suc n - 1 ≡ n
suc-pred n = omega arith

replaced :
    (p : String) (k : ℕ) (s : String)
    → truthy (some p) ≡ true
    → replace_from p p k s ≡ drop_text k s
unfolding replace_from drop_text
replaced p zero String.[] h = refl
replaced p (suc k) String.[] h = refl
replaced p (suc k) (String.◌∷◌ c s) h = replaced p k s h
replaced String.[] zero (String.◌∷◌ c s) h = cc
replaced (String.◌∷◌ d p) zero (String.◌∷◌ c s) h =
    elim (Bool-cases (starts_with (String.◌∷◌ d p) (String.◌∷◌ c s))) [
      | inl t ↦ rw t (
          ap (λ n. append (String.◌∷◌ d p) (replace_from (String.◌∷◌ d p) (String.◌∷◌ d p) n s))
            (suc-pred (text_length p))
          ∙ ap (append (String.◌∷◌ d p)) (replaced (String.◌∷◌ d p) (text_length p) s h)
          ∙ starts_with-append (String.◌∷◌ d p) (String.◌∷◌ c s) t)
      | inr f ↦ rw f (ap (String.◌∷◌ c) (replaced (String.◌∷◌ d p) zero s h))
    ]

-- Replacing a text by itself changes nothing.
pub replace-same : (p s : String) → truthy (some p) ≡ true → replace p p s ≡ s
unfolding drop_text
replace-same p s h = replaced p zero s h
