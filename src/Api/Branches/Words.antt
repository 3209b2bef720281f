-- ===== src/Api/Branches/Words.antt =====
-- Words, and what stripping and splitting do to a text of words.
use Prim.Native.Char.{Char, code}
use Prim.Native.String.{◌++◌ as append}
use text.Mathlib.TextLemmas.{nil-append, cons-append}
use deploy_hub.Prelude.{
  ℕ, String, Bool, true, false, ◌&&◌, not, some, [], ◌∷◌, ◌≡◌, refl, sym, ap, ◌∙◌, arith,
}
use deploy_hub.Text.{same_code, truthy, has_code, split, push_code}
use deploy_hub.Api.RepoUrl.{all_codes, after_prefix}
use deploy_hub.Api.Branches.{is_space, strip_left, strip_right, starts_word, words}

-- A word: not empty, and without space.
abbrev pub is_word : String → Bool
is_word s = truthy (some s) && all_codes (λ c. not (is_space c)) s

space_newline : (c : ℕ) → is_space c ≡ false → same_code c 10 ≡ false
unfolding is_space
space_newline c h = ground (arith, h)

pub after_prefix-append : (p s : String) → after_prefix p (append p s) ≡ some s
unfolding after_prefix
after_prefix-append String.[] s = ap some (nil-append s)
after_prefix-append (String.◌∷◌ c p) s = rw cons-append (ground (arith, after_prefix-append p s))

abbrev is_plain : String → Bool
is_plain = all_codes (λ c. not (is_space c))

pub plain-append :
    (s t : String) → is_plain s ≡ true → is_plain t ≡ true → is_plain (append s t) ≡ true
unfolding all_codes
plain-append String.[] t h g = rw nil-append g
plain-append (String.◌∷◌ c s) t h g = rw cons-append (ground (arith, plain-append s t, h, g))

pub no_newline :
    (s t : String) → is_plain s ≡ true → has_code 10 t ≡ false → has_code 10 (append s t) ≡ false
unfolding all_codes has_code
no_newline String.[] t h g = rw nil-append g
no_newline (String.◌∷◌ c s) t h g =
    rw cons-append (ground (arith, no_newline s t, h, g, space_newline (code c)))

pub plain_no_newline : (s : String) → is_plain s ≡ true → has_code 10 s ≡ false
unfolding all_codes has_code
plain_no_newline String.[] h = refl
plain_no_newline (String.◌∷◌ c s) h = ground (arith, plain_no_newline s, h, space_newline (code c))

pub words_of_word : (s : String) → is_word s ≡ true → words s ≡ s ∷ []
unfolding words all_codes
words_of_word String.[] h = cc
words_of_word (String.◌∷◌ c String.[]) h = ground (arith, h)
words_of_word (String.◌∷◌ c (String.◌∷◌ d s)) h = ground (arith, h, words_of_word (String.◌∷◌ d s))

-- A word before a space.
pub words-append :
    (s : String) (c : Char) (t : String)
    → is_space (code c) ≡ true
    → is_word s ≡ true
    → words (append s (String.◌∷◌ c t)) ≡ s ∷ words t
unfolding words all_codes
words-append String.[] c t k h = cc
words-append (String.◌∷◌ d String.[]) c t k h =
    rw cons-append (rw nil-append (ground (arith, k, h)))
words-append (String.◌∷◌ d (String.◌∷◌ e s)) c t k h =
    let d_word : is_space (code d) ≡ false = ground (arith, h) in
    let e_word : is_space (code e) ≡ false = ground (arith, h) in
    let starts : starts_word (append (String.◌∷◌ e s) (String.◌∷◌ c t)) ≡ true =
      rw cons-append (rw e_word refl) in
    let ih = words-append (String.◌∷◌ e s) c t k (ground (arith, h)) in
    rw cons-append (rw d_word (rw starts (rw ih refl)))

-- Nothing is stripped from a text that starts with a word and ends with one.
pub strip_word :
    (s : String) (c : Char)
    → is_space (code c) ≡ true
    → is_word s ≡ true
    → strip_right (append s (String.◌∷◌ c String.[])) ≡ s
unfolding strip_right all_codes
strip_word String.[] c k h = cc
strip_word (String.◌∷◌ d String.[]) c k h = rw cons-append (rw nil-append (ground (arith, k, h)))
strip_word (String.◌∷◌ d (String.◌∷◌ e s)) c k h =
    let ih = strip_word (String.◌∷◌ e s) c k (ground (arith, h)) in
    rw cons-append (rw ih (ground (arith, h)))

pub truthy_right : (s u : String) → truthy (some u) ≡ true → truthy (some (append s u)) ≡ true
truthy_right String.[] u h = rw nil-append h
truthy_right (String.◌∷◌ d s) u h = rw cons-append refl

pub truthy_left : (s u : String) → truthy (some s) ≡ true → truthy (some (append s u)) ≡ true
truthy_left String.[] u h = cc
truthy_left (String.◌∷◌ d s) u h = rw cons-append refl

-- What stands before a text that is not stripped away.
pub strip_before :
    (d : Char) (t u : String)
    → strip_right t ≡ u
    → truthy (some u) ≡ true
    → strip_right (String.◌∷◌ d t) ≡ String.◌∷◌ d u
unfolding strip_right
strip_before d t u e h = rw e (ground (arith, h))

pub strip-append :
    (s t u : String)
    → strip_right t ≡ u
    → truthy (some u) ≡ true
    → strip_right (append s t) ≡ append s u
strip-append String.[] t u e h = ap strip_right (nil-append t) ∙ (e ∙ sym (nil-append u))
strip-append (String.◌∷◌ d s) t u e h =
    ap strip_right (cons-append d s t)
    ∙ (strip_before d (append s t) (append s u) (strip-append s t u e h) (truthy_right s u h)
        ∙ sym (cons-append d s u))

pub split_one : (k : ℕ) (s : String) → has_code k s ≡ false → split k s ≡ s ∷ []
unfolding split has_code
split_one k String.[] h = refl
split_one k (String.◌∷◌ c s) h =
    let f : same_code (code c) k ≡ false = ground (arith, h) in
    let g : has_code k s ≡ false = ground (arith, h) in
    rw f (
      ap (push_code (String.◌∷◌ c String.[])) (split_one k s g)
      ∙ ap (λ x. x ∷ []) (cons-append c String.[] s ∙ ap (String.◌∷◌ c) (nil-append s)))

pub strip_left_word :
    (s x y : String) → is_word s ≡ true → strip_left (append (append s x) y) ≡ append (append s x) y
unfolding strip_left all_codes
strip_left_word String.[] x y h = cc
strip_left_word (String.◌∷◌ c s) x y h =
    let n : is_space (code c) ≡ false = ground (arith, h) in
    let e = ap (λ t. append t y) (cons-append c s x) ∙ cons-append c (append s x) y in
    ap strip_left e ∙ (rw n refl ∙ sym e)
