-- ===== src/Api/RepoUrl/Safe.antt =====
-- A repository's URL that is accepted can stand in a shell script.
use Prim.Native.Char.{code}
use deploy_hub.Prelude.{
  ℕ, String, ◌==◌, eq_iff, leb, Bool, true, false, ◌&&◌, ◌||◌, Option, none, some, ◌≡◌, refl, sym,
  subst, ◌∙◌, arith, Bool-cases, Option-cases, inl, inr,
}
use deploy_hub.Text.{same_code, has_code, before_first, after_first}
use deploy_hub.Api.RepoUrl.{
  is_host_code, is_path_code, is_url_code, all_codes, some_codes, after_prefix, before_suffix,
  before_newline, is_https, is_git_path, has_path, is_ssh, is_repo_url,
}

-- Controls, space, every sign that a shell reads, and what is not ASCII.
abbrev pub is_shell_code : ℕ → Bool
is_shell_code c =
    leb c 44 || (leb 59 c && leb c 63) || (leb 91 c && leb c 94) || same_code c b'`' || leb 123 c

pub shell_or_url : (c : ℕ) → is_shell_code c ≡ true → is_url_code c ≡ false
shell_or_url c h = ground (arith, h)

same_class : (a b : ℕ) → same_code a b ≡ true → is_url_code a ≡ is_url_code b
same_class a b h = ground (arith, h)

path_or_url : (c : ℕ) → is_path_code c ≡ true → is_url_code c ≡ true
path_or_url c h = ground (arith, h)

host_or_url : (c : ℕ) → is_host_code c ≡ true → is_url_code c ≡ true
host_or_url c h = ground (arith, h)

text_in : Option String → String
text_in none = ""
text_in (some s) = s

-- A class of codes.
module _ (cls : ℕ → Bool) (same : (a b : ℕ) → same_code a b ≡ true → cls a ≡ cls b) where
  pub not_in : (c : ℕ) (s : String) → cls c ≡ false → all_codes cls s ≡ true → has_code c s ≡ false
  unfolding all_codes has_code
  not_in c String.[] n h = refl
  not_in c (String.◌∷◌ d s) n h = elim (Bool-cases (same_code (code d) c)) [
    | inl e ↦ let q = same (code d) c e in ground (arith, q, n, h)
    | inr e ↦ ground (arith, e, h, not_in c s n)
  ]

  prefix_stage :
      (p s r : String)
      → after_prefix p s ≡ some r
      → all_codes cls p ≡ true
      → all_codes cls r ≡ true
      → all_codes cls s ≡ true
  unfolding after_prefix all_codes
  prefix_stage String.[] s r h a b = ground (arith, h, b)
  prefix_stage (String.◌∷◌ c p) String.[] r h a b = refl
  prefix_stage (String.◌∷◌ c p) (String.◌∷◌ d s) r h a b =
      elim (Bool-cases (same_code (code c) (code d))) [
        | inl e ↦
            let q = same (code c) (code d) e in ground (arith, e, q, h, a, prefix_stage p s r, b)
        | inr e ↦ ground (arith, e, h)
      ]

  -- A class within this one on the left of the sign, and this one on the right.
  split_stage :
      (k : ℕ) (part : ℕ → Bool) (s t : String)
      → cls k ≡ true
      → ((c : ℕ) → part c ≡ true → cls c ≡ true)
      → after_first k s ≡ some t
      → all_codes part (before_first k s) ≡ true
      → all_codes cls t ≡ true
      → all_codes cls s ≡ true
  unfolding after_first before_first all_codes
  split_stage k part String.[] t u sub h a b = refl
  split_stage k part (String.◌∷◌ c s) t u sub h a b = elim (Bool-cases (same_code (code c) k)) [
    | inl e ↦ let q = same (code c) k e in ground (arith, e, q, u, h, b)
    | inr e ↦ ground (arith, e, h, a, sub (code c), split_stage k part s t u sub, b)
  ]

  suffix_stage :
      (p : String) (part : ℕ → Bool) (s b : String)
      → all_codes cls p ≡ true
      → ((c : ℕ) → part c ≡ true → cls c ≡ true)
      → before_suffix p s ≡ some b
      → all_codes part b ≡ true
      → all_codes cls s ≡ true
  unfolding before_suffix all_codes text_in
  suffix_stage p part String.[] b a sub h g = refl
  suffix_stage p part (String.◌∷◌ c s) b a sub h g = elim (Bool-cases (String.◌∷◌ c s == p)) [
    | inl e ↦ subst (λ t. all_codes cls t ≡ true) (sym ((eq_iff (String.◌∷◌ c s) p).0 e)) a
    | inr e ↦ elim (Option-cases (before_suffix p s)) [
      | inl n ↦ let bad : none ≡ some b = sym (rw e (rw n refl)) ∙ h in cc
      | inr (r, n) ↦
          let q : some (String.◌∷◌ c r) ≡ some b = sym (rw e (rw n refl)) ∙ h in
          let f = subst (λ o. all_codes part (text_in o) ≡ true) (sym q) g in
          ground (arith, f, sub (code c), suffix_stage p part s r a sub n)
    ]
  ]

https_stage :
    (t : String) (o : Option String)
    → after_prefix "https://" t ≡ o
    → is_https o ≡ true
    → all_codes is_url_code t ≡ true
unfolding all_codes
https_stage t none h g = cc
https_stage t (some r) h g =
    prefix_stage is_url_code same_class "https://" t r h refl (ground (arith, g))

path_stage :
    (p : String) (o : Option String)
    → before_suffix ".git" p ≡ o
    → is_git_path o ≡ true
    → all_codes is_url_code p ≡ true
unfolding all_codes
path_stage p none h g = cc
path_stage p (some b) h g =
    suffix_stage is_url_code same_class ".git" is_path_code p b refl path_or_url h
      (ground (arith, g))

host_stage :
    (r : String) (o : Option String)
    → after_first b':' r ≡ o
    → some_codes is_host_code (before_first b':' r) ≡ true
    → has_path o ≡ true
    → all_codes is_url_code r ≡ true
host_stage r none h f g = cc
host_stage r (some p) h f g =
    split_stage is_url_code same_class b':' is_host_code r p refl host_or_url h (ground (arith, f))
      (path_stage p (before_suffix ".git" p) refl g)

ssh_stage :
    (t : String) (o : Option String)
    → after_prefix "git@" t ≡ o
    → is_ssh o ≡ true
    → all_codes is_url_code t ≡ true
unfolding all_codes
ssh_stage t none h g = cc
ssh_stage t (some r) h g =
    prefix_stage is_url_code same_class "git@" t r h refl
      (host_stage r (after_first b':' r) refl (ground (arith, g)) (ground (arith, g)))

-- Every code is one of those of the pattern.
pub is_repo_url-url_codes :
    (url : String) → is_repo_url url ≡ true → all_codes is_url_code (before_newline url) ≡ true
unfolding is_repo_url
is_repo_url-url_codes url h =
    let t = before_newline url in
    elim (Bool-cases (is_https (after_prefix "https://" t))) [
      | inl e ↦ https_stage t (after_prefix "https://" t) refl e
      | inr e ↦ ssh_stage t (after_prefix "git@" t) refl (sym (rw e refl) ∙ h)
    ]

-- A URL that is accepted has no sign that a shell reads, no space and no control in it, but that
-- there may be a newline at its end.
pub is_repo_url-ShellSafe :
    (url : String) (c : ℕ)
    → is_repo_url url ≡ true
    → is_shell_code c ≡ true
    → has_code c (before_newline url) ≡ false
is_repo_url-ShellSafe url c h s =
    not_in is_url_code same_class c (before_newline url) (shell_or_url c s)
      (is_repo_url-url_codes url h)
