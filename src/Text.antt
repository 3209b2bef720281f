-- ===== src/Text.antt =====
-- The operations of Python's `str` that the code uses: `split`, `rsplit`, slices and truth.
pub mod Split
pub mod Join
pub mod Replace
use Prim.Native.Char.{code}
use Prim.Native.Nat.{compare, Ordering}
use Prim.Native.String.{String, ◌++◌ as append}
use deploy_hub.Prelude.{
  ℕ, zero, suc, ◌-◌, ◌==◌, Bool, true, false, ◌||◌, ◌&&◌, List, [], ◌∷◌, Option, none, some,
  if◌then◌else◌,
}

-- Equality of code points.
abbrev pub same_code : ℕ → ℕ → Bool
same_code a b = elim (compare a b) [ Ordering.eq ↦ true | _ ↦ false ]

-- `bool(s)` for a text that may be missing.
abbrev pub truthy : Option String → Bool
truthy none = false
truthy (some String.[]) = false
truthy (some (String.◌∷◌ c s)) = true

-- `s[:n]`.
unfoldable pub take_text : ℕ → String → String
take_text zero s = String.[]
take_text (suc n) String.[] = String.[]
take_text (suc n) (String.◌∷◌ c s) = String.◌∷◌ c (take_text n s)

-- `c in s`.
unfoldable pub has_code : ℕ → String → Bool
has_code k String.[] = false
has_code k (String.◌∷◌ c s) = same_code (code c) k || has_code k s

-- `s.split(c)[0]`.
unfoldable pub before_first : ℕ → String → String
before_first k String.[] = String.[]
before_first k (String.◌∷◌ c s) =
    if same_code (code c) k then String.[] else String.◌∷◌ c (before_first k s)

-- `s.split(c, 1)[1]`, which does not exist where `c` does not stand in `s`.
unfoldable pub after_first : ℕ → String → Option String
after_first k String.[] = none
after_first k (String.◌∷◌ c s) = if same_code (code c) k then some s else after_first k s

-- `s.rsplit(c, 1)[0]`.
unfoldable pub before_last : ℕ → String → String
unfolding has_code
before_last k String.[] = String.[]
before_last k (String.◌∷◌ c s) =
    let rest = String.◌∷◌ c (before_last k s) in
    if has_code k s then rest else if same_code (code c) k then String.[] else String.◌∷◌ c s

-- `s.rsplit(c, 1)[1]`, and `s.split(c)[-1]` where `c` stands in `s`.
unfoldable pub after_last : ℕ → String → Option String
unfolding has_code
after_last k String.[] = none
after_last k (String.◌∷◌ c s) =
    let rest = after_last k s in
    if has_code k s then rest else if same_code (code c) k then some s else none

-- The text up to the first `c`, before the texts behind it.
abbrev pub push_code : String → List String → List String
push_code c [] = c ∷ []
push_code c (s ∷ ss) = append c s ∷ ss

-- `s.split(c)`.
unfoldable pub split : ℕ → String → List String
split k String.[] = String.[] ∷ []
split k (String.◌∷◌ c s) =
    let rest = split k s in
    if same_code (code c) k then String.[] ∷ rest else push_code (String.◌∷◌ c String.[]) rest

-- `sep.join(ss)`.
unfoldable pub join : String → List String → String
join sep [] = String.[]
join sep (s ∷ ss) =
    let rest = join sep ss in elim ss [ [] ↦ s | t ∷ ts ↦ append s (append sep rest) ]

-- `s.startswith(prefix)`.
unfoldable pub starts_with : String → String → Bool
starts_with String.[] s = true
starts_with (String.◌∷◌ c p) String.[] = false
starts_with (String.◌∷◌ c p) (String.◌∷◌ d s) = same_code (code c) (code d) && starts_with p s

-- `needle in s`.
unfoldable pub occurs : String → String → Bool
unfolding starts_with
occurs needle String.[] = starts_with needle String.[]
occurs needle (String.◌∷◌ c s) = starts_with needle (String.◌∷◌ c s) || occurs needle s

-- `len(s)`.
unfoldable pub text_length : String → ℕ
text_length String.[] = 0
text_length (String.◌∷◌ c s) = suc (text_length s)

-- `s.endswith(suffix)`.
unfoldable pub ends_with : String → String → Bool
ends_with suffix String.[] = String.[] == suffix
ends_with suffix (String.◌∷◌ c s) = String.◌∷◌ c s == suffix || ends_with suffix s

-- `s.replace(old, new)` for a text `old` that is not empty; `skip` signs are left out first.
unfoldable pub replace_from : String → String → ℕ → String → String
unfolding starts_with text_length
replace_from old new skip String.[] = String.[]
replace_from old new (suc skip) (String.◌∷◌ c s) = replace_from old new skip s
replace_from old new zero (String.◌∷◌ c s) =
    let found = replace_from old new (text_length old - 1) s in
    let rest = replace_from old new zero s in
    if starts_with old (String.◌∷◌ c s) then append new found else String.◌∷◌ c rest

abbrev pub replace : String → String → String → String
replace old new s = replace_from old new zero s
