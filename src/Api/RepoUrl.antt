-- ===== src/Api/RepoUrl.antt =====
-- `_REPO_URL_RE` of api/main.py, which `validate_repo_url` and `get_github_branches` match against.
-- Its first alternative is a case of the second; `$` matches before a newline at the end, too.
pub mod Safe
mod Tests
use Prim.Native.Char.{code}
use deploy_hub.Prelude.{
  ℕ, String, ◌==◌, leb, if◌then◌else◌, Bool, true, false, ◌&&◌, ◌||◌, Option, none, some,
}
use deploy_hub.Text.{same_code, truthy, before_first, after_first}

-- `[a-zA-Z0-9]`.
abbrev pub is_alnum : ℕ → Bool
is_alnum c = (leb 48 c && leb c 57) || (leb 65 c && leb c 90) || (leb 97 c && leb c 122)

-- `[a-zA-Z0-9._\-]`, of a host.
abbrev pub is_host_code : ℕ → Bool
is_host_code c = is_alnum c || same_code c b'.' || same_code c b'_' || same_code c b'-'

-- `[a-zA-Z0-9._/\-]`, of a path.
abbrev pub is_path_code : ℕ → Bool
is_path_code c = is_host_code c || same_code c b'/'

-- `[a-zA-Z0-9._/:\-@]`.
abbrev pub is_url_code : ℕ → Bool
is_url_code c = is_path_code c || same_code c b':' || same_code c b'@'

unfoldable pub all_codes : (ℕ → Bool) → String → Bool
all_codes p String.[] = true
all_codes p (String.◌∷◌ c s) = p (code c) && all_codes p s

-- One or more of a class.
abbrev pub some_codes : (ℕ → Bool) → String → Bool
some_codes p s = truthy (some s) && all_codes p s

unfoldable pub after_prefix : String → String → Option String
after_prefix String.[] s = some s
after_prefix (String.◌∷◌ c p) String.[] = none
after_prefix (String.◌∷◌ c p) (String.◌∷◌ d s) =
    if same_code (code c) (code d) then after_prefix p s else none

abbrev pub push_option : String → Option String → Option String
push_option c none = none
push_option String.[] (some s) = some s
push_option (String.◌∷◌ c t) (some s) = some (String.◌∷◌ c s)

unfoldable pub before_suffix : String → String → Option String
before_suffix p String.[] = if String.[] == p then some String.[] else none
before_suffix p (String.◌∷◌ c s) =
    let rest = before_suffix p s in
    if String.◌∷◌ c s == p then some String.[] else push_option (String.◌∷◌ c String.[]) rest

-- The text without a newline at its end.
unfoldable pub before_newline : String → String
before_newline String.[] = String.[]
before_newline (String.◌∷◌ c s) =
    let rest = before_newline s in
    if same_code (code c) 10 && (if truthy (some s) then false else true)
    then String.[]
    else String.◌∷◌ c rest

-- `https://[...]+`.
abbrev pub is_https : Option String → Bool
is_https none = false
is_https (some r) = some_codes is_url_code r

abbrev pub is_git_path : Option String → Bool
is_git_path none = false
is_git_path (some b) = some_codes is_path_code b

-- `[...]+:[...]+\.git`.
abbrev pub has_path : Option String → Bool
has_path none = false
has_path (some p) = is_git_path (before_suffix ".git" p)

abbrev pub is_ssh : Option String → Bool
is_ssh none = false
is_ssh (some r) = some_codes is_host_code (before_first b':' r) && has_path (after_first b':' r)

unfoldable pub is_repo_url : String → Bool
unfolding all_codes after_prefix before_suffix before_newline before_first after_first
is_repo_url s =
    let t = before_newline s in
    is_https (after_prefix "https://" t) || is_ssh (after_prefix "git@" t)
