-- ===== src/Api/Projects/Namespace.antt =====
-- `_NAMESPACE_RE` of api/main.py, which `validate_namespace` of `CreateProjectRequest` matches
-- against, and what its message says of a namespace. `$` matches before a newline at the end, too.
use Prim.Native.Char.{code}
use deploy_hub.Prelude.{
  ℕ, suc, ◌+◌, String, leb, ltb, Bool, true, false, ◌&&◌, ◌||◌, not, ◌≡◌, refl, arith, Bool-cases,
  inl, inr,
}
use deploy_hub.Text.{same_code, text_length}
use deploy_hub.Api.RepoUrl.{all_codes, before_newline}

-- [a-z0-9].
abbrev pub is_end_code : ℕ → Bool
is_end_code c = (leb b'a' c && leb c b'z') || (leb b'0' c && leb c b'9')

-- [a-z0-9\-].
abbrev pub is_inner_code : ℕ → Bool
is_inner_code c = is_end_code c || same_code c b'-'

-- [a-z0-9\-]{1,61}[a-z0-9], after `n` signs of the first class.
unfoldable pub inner_from : ℕ → String → Bool
inner_from n String.[] = false
inner_from n (String.◌∷◌ c String.[]) = leb 1 n && is_end_code (code c)
inner_from n (String.◌∷◌ c (String.◌∷◌ d s)) =
    is_inner_code (code c) && (ltb n 61 && inner_from (suc n) (String.◌∷◌ d s))

unfoldable is_name_text : String → Bool
unfolding inner_from
is_name_text String.[] = false
is_name_text (String.◌∷◌ c s) = is_end_code (code c) && inner_from 0 s

unfoldable pub is_namespace : String → Bool
unfolding is_name_text
is_namespace v = is_name_text (before_newline v)

-- Does the text end with a sign that is no hyphen?
unfoldable pub ends_well : String → Bool
ends_well String.[] = false
ends_well (String.◌∷◌ c String.[]) = not (same_code (code c) b'-')
ends_well (String.◌∷◌ c (String.◌∷◌ d s)) = ends_well (String.◌∷◌ d s)

unfoldable starts_well : String → Bool
starts_well String.[] = false
starts_well (String.◌∷◌ c s) = not (same_code (code c) b'-')

-- "lowercase alphanumeric with hyphens, 3–63 chars, and cannot start or end with a hyphen".
unfoldable pub is_as_described : String → Bool
unfolding starts_well ends_well all_codes text_length
is_as_described t =
    all_codes is_inner_code t
    && (starts_well t && (ends_well t && (leb 3 (text_length t) && leb (text_length t) 63)))

fits : ℕ → String → Bool
unfolding ends_well all_codes text_length
fits n s =
    all_codes is_inner_code s
    && (ends_well s && (leb 2 (n + text_length s) && leb (n + text_length s) 62))

-- The last sign.
single :
    (k n : ℕ)
    → leb n 61 ≡ true
    → leb 1 n && is_end_code k
      ≡ (is_inner_code k && true) && (not (same_code k b'-') && (leb 2 (n + 1) && leb (n + 1) 62))
single k n h = ground (arith, h)

-- One sign more of the first class.
longer :
    (i a e : Bool) (n m : ℕ)
    → ltb n 61 ≡ true
    → i && (ltb n 61 && (a && (e && (leb 2 (suc n + m) && leb (suc n + m) 62))))
      ≡ (i && a) && (e && (leb 2 (n + suc m) && leb (n + suc m) 62))
longer i a e n m t = ground (arith, t)

too_long :
    (i a e r : Bool) (n m : ℕ)
    → ltb n 61 ≡ false
    → i && (ltb n 61 && r)
      ≡ (i && a) && (e && (leb 2 (n + suc (suc m)) && leb (n + suc (suc m)) 62))
too_long i a e r n m f = ground (arith, f)

inner_from-fits : (n : ℕ) (s : String) → leb n 61 ≡ true → inner_from n s ≡ fits n s
unfolding inner_from fits all_codes ends_well text_length
inner_from-fits n String.[] h = refl
inner_from-fits n (String.◌∷◌ c String.[]) h = single (code c) n h
inner_from-fits n (String.◌∷◌ c (String.◌∷◌ d s)) h = elim (Bool-cases (ltb n 61)) [
  | inl t ↦ rw (inner_from-fits (suc n) (String.◌∷◌ d s) (ground (arith, t))) (
      longer (is_inner_code (code c)) (all_codes is_inner_code (String.◌∷◌ d s))
        (ends_well (String.◌∷◌ d s)) n (text_length (String.◌∷◌ d s)) t)
  | inr f ↦
      too_long (is_inner_code (code c)) (all_codes is_inner_code (String.◌∷◌ d s))
        (ends_well (String.◌∷◌ d s)) (inner_from (suc n) (String.◌∷◌ d s)) n (text_length s) f
]

-- The first sign.
first :
    (k m : ℕ) (a e : Bool)
    → is_end_code k && (a && (e && (leb 2 (0 + m) && leb (0 + m) 62)))
      ≡ (is_inner_code k && a)
        && (not (same_code k b'-') && (e && (leb 3 (suc m) && leb (suc m) 63)))
first k m a e = ground arith

is_name_text-described : (t : String) → is_name_text t ≡ is_as_described t
unfolding is_name_text is_as_described fits ends_well all_codes text_length inner_from
is_name_text-described String.[] = refl
is_name_text-described (String.◌∷◌ c String.[]) = ground arith
is_name_text-described (String.◌∷◌ c (String.◌∷◌ d s)) =
    rw (inner_from-fits 0 (String.◌∷◌ d s) refl) (
      first (code c) (text_length (String.◌∷◌ d s)) (all_codes is_inner_code (String.◌∷◌ d s))
        (ends_well (String.◌∷◌ d s)))

-- A namespace is accepted exactly when it is as the message describes, but for a newline that may
-- stand at its end.
pub is_namespace-described : (v : String) → is_namespace v ≡ is_as_described (before_newline v)
unfolding is_namespace
is_namespace-described v = is_name_text-described (before_newline v)
