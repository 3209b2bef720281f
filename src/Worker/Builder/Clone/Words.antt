-- ===== src/Worker/Builder/Clone/Words.antt =====
-- The words of the command that clones.
use Prim.Native.Char.{code}
use Prim.Native.String.{◌++◌ as append}
use text.Mathlib.TextLemmas as Text
use text.Mathlib.TextLemmas.{nil-append, cons-append}
use deploy_hub.Prelude.{
  ℕ, String, Bool, true, false, ◌&&◌, not, some, List, [], ◌∷◌, ◌≡◌, refl, ap, ◌∙◌, arith, subst,
}
use deploy_hub.Text.{same_code, truthy, has_code, join}
use deploy_hub.Text.Split.{append-one}
use deploy_hub.Api.RepoUrl.{all_codes, is_repo_url, is_url_code, before_newline}
use deploy_hub.Api.RepoUrl.Safe.{is_shell_code, is_repo_url-url_codes}
use deploy_hub.Api.Branches.{is_space, words}
use deploy_hub.Api.Branches.Words.{is_word, words-append, words_of_word}
use deploy_hub.Worker.Builder.{clone_command}

-- What a shell reads in the middle of a command, other than the space.
abbrev pub is_special : ℕ → Bool
is_special c = is_shell_code c && not (same_code c b' ') && not (same_code c b'=')

-- Not empty, with no sign that a shell reads, no space and no control.
abbrev pub is_safe_word : String → Bool
is_safe_word s = truthy (some s) && all_codes (λ c. not (is_shell_code c)) s

all_words : List String → Bool
all_words [] = true
all_words (s ∷ ss) = is_word s && all_words ss

-- Words that are joined by spaces are found again.
words-join : (ss : List String) → all_words ss ≡ true → words (join " " ss) ≡ ss
unfolding all_words join is_space
words-join [] h = unfold words in refl
words-join (s ∷ []) h = words_of_word s (ground (arith, h))
words-join (s ∷ t ∷ ts) h =
    ap words (append-one " " s (join " " (t ∷ ts)))
    ∙ (words-append s " " (join " " (t ∷ ts)) refl (ground (arith, h))
        ∙ ap (λ us. s ∷ us) (words-join (t ∷ ts) (ground (arith, h))))

abbrev pub clone_words : String → String → List String
clone_words b r = "git" ∷ "clone" ∷ "--depth=1" ∷ "--branch" ∷ b ∷ r ∷ "/workspace" ∷ []

regroup :
    (g c d e s b r w : String)
    → append
        (append
          (append
            (append
              (append g (append s (append c (append s (append d (append s (append e s)))))))
              b)
            s)
          r)
        (append s w)
      ≡ join s (g ∷ c ∷ d ∷ e ∷ b ∷ r ∷ w ∷ [])
unfolding join
regroup g c d e s b r w = simp (Text.append_assoc)

clone_command-join : (b r : String) → clone_command b r ≡ join " " (clone_words b r)
unfolding clone_command join
clone_command-join b r = regroup "git" "clone" "--depth=1" "--branch" " " b r "/workspace"

module _ (p q : ℕ → Bool) (sub : (c : ℕ) → p c ≡ true → q c ≡ true) where
  pub all_codes-sub : (s : String) → all_codes p s ≡ true → all_codes q s ≡ true
  unfolding all_codes
  all_codes-sub String.[] h = refl
  all_codes-sub (String.◌∷◌ c s) h = ground (arith, h, sub (code c), all_codes-sub s)

all_codes-append :
    (p : ℕ → Bool) (s t : String)
    → all_codes p s ≡ true
    → all_codes p t ≡ true
    → all_codes p (append s t) ≡ true
unfolding all_codes
all_codes-append p String.[] t h g = rw nil-append g
all_codes-append p (String.◌∷◌ c s) t h g =
    rw cons-append (ground (arith, all_codes-append p s t, h, g))

shell_or_space : (c : ℕ) → not (is_shell_code c) ≡ true → not (is_space c) ≡ true
unfolding is_space
shell_or_space c h = ground (arith, h)

shell_or_special : (c : ℕ) → not (is_shell_code c) ≡ true → not (is_special c) ≡ true
shell_or_special c h = ground (arith, h)

url_or_shell : (c : ℕ) → is_url_code c ≡ true → not (is_shell_code c) ≡ true
url_or_shell c h = ground (arith, h)

pub same_special : (a b : ℕ) → same_code a b ≡ true → not (is_special a) ≡ not (is_special b)
same_special a b h = ground (arith, h)

before_newline_none : (s : String) → has_code 10 s ≡ false → before_newline s ≡ s
unfolding before_newline has_code
before_newline_none String.[] h = refl
before_newline_none (String.◌∷◌ c s) h = ground (arith, h, before_newline_none s)

repo_url-IsUrl :
    (r : String) → is_repo_url r ≡ true → has_code 10 r ≡ false → all_codes is_url_code r ≡ true
repo_url-IsUrl r h n =
    subst (λ s. all_codes is_url_code s ≡ true) (before_newline_none r n)
      (is_repo_url-url_codes r h)

pub repo_url-truthy : (r : String) → is_repo_url r ≡ true → truthy (some r) ≡ true
unfolding is_repo_url
repo_url-truthy String.[] h = ground (arith, h)
repo_url-truthy (String.◌∷◌ c s) h = refl

all_words_of :
    (b r : String) → is_word b ≡ true → is_word r ≡ true → all_words (clone_words b r) ≡ true
unfolding all_words all_codes is_space
all_words_of b r hb hr = ground (arith, hb, hr)

command_plain :
    (b r : String)
    → all_codes (λ c. not (is_special c)) b ≡ true
    → all_codes (λ c. not (is_special c)) r ≡ true
    → all_codes (λ c. not (is_special c)) (clone_command b r) ≡ true
unfolding clone_command
command_plain b r hb hr =
    let start : all_codes (λ c. not (is_special c)) "git clone --depth=1 --branch " ≡ true =
      unfold all_codes in refl in
    let gap : all_codes (λ c. not (is_special c)) " " ≡ true = unfold all_codes in refl in
    let path : all_codes (λ c. not (is_special c)) " /workspace" ≡ true =
      unfold all_codes in refl in
    ext _ _ (ext _ _ (ext _ _ (ext _ _ start hb) gap) hr) path
  where
    ext :
        (s t : String)
        → all_codes (λ c. not (is_special c)) s ≡ true
        → all_codes (λ c. not (is_special c)) t ≡ true
        → all_codes (λ c. not (is_special c)) (append s t) ≡ true
    ext = all_codes-append (λ c. not (is_special c))

pub clone_command-words :
    (b r : String)
    → is_safe_word b ≡ true
    → is_repo_url r ≡ true
    → has_code 10 r ≡ false
    → (words (clone_command b r) ≡ clone_words b r)
      × (all_codes (λ c. not (is_special c)) (clone_command b r) ≡ true)
clone_command-words b r hb hr n =
    let safe_b : all_codes (λ c. not (is_shell_code c)) b ≡ true = ground (arith, hb) in
    let safe_r =
      all_codes-sub is_url_code (λ c. not (is_shell_code c)) url_or_shell r
        (repo_url-IsUrl r hr n) in
    let word_b =
      all_codes-sub (λ c. not (is_shell_code c)) (λ c. not (is_space c)) shell_or_space b safe_b in
    let word_r =
      all_codes-sub (λ c. not (is_shell_code c)) (λ c. not (is_space c)) shell_or_space r safe_r in
    let filled = repo_url-truthy r hr in
    (
      ap words (clone_command-join b r)
          ∙ words-join (clone_words b r) (all_words_of b r (ground arith) (ground arith)),
      command_plain b r
          (all_codes-sub (λ c. not (is_shell_code c)) (λ c. not (is_special c)) shell_or_special b
            safe_b)
          (all_codes-sub (λ c. not (is_shell_code c)) (λ c. not (is_special c)) shell_or_special r
            safe_r),
    )
