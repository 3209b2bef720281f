-- ===== src/Api/Branches.antt =====
-- `get_github_branches` of api/main.py, over what `git ls-remote --heads` answers. `lower` is
-- str.lower.
pub mod Words
pub mod Listed
mod Tests
use Prim.Native.Char.{code}
use deploy_hub.Prelude.{
  ℕ, String, leb, ltb, if◌then◌else◌, Bool, true, false, ◌&&◌, ◌||◌, not, Option, none, some, List,
  [], ◌∷◌,
}
use deploy_hub.Action.{Exn, http_exception, Result, ok, raised}
use deploy_hub.Text.{same_code, truthy, split, push_code, occurs}
use deploy_hub.Api.RepoUrl.{is_repo_url, after_prefix}

-- What `subprocess.run` answers: whether the return code is 0, stdout and stderr.
pub data LsRemote : Type 0 where
  finished : Bool → String → String → LsRemote
  timed_out : LsRemote
  run_failed : Exn → LsRemote

-- `str.isspace` of a code.
unfoldable pub is_space : ℕ → Bool
is_space c =
    (leb 9 c && leb c 13)
    || (leb 28 c && leb c 32)
    || same_code c 133
    || same_code c 160
    || same_code c 5760
    || (leb 8192 c && leb c 8202)
    || same_code c 8232
    || same_code c 8233
    || same_code c 8239
    || same_code c 8287
    || same_code c 12288

-- `s.strip()`.
unfoldable pub strip_left : String → String
strip_left String.[] = String.[]
strip_left (String.◌∷◌ c s) =
    let rest = strip_left s in if is_space (code c) then rest else String.◌∷◌ c s

unfoldable pub strip_right : String → String
strip_right String.[] = String.[]
strip_right (String.◌∷◌ c s) =
    let rest = strip_right s in
    if is_space (code c) && not (truthy (some rest)) then String.[] else String.◌∷◌ c rest

-- The first word and the others, where the text goes on with a word.
abbrev pub push_word : String → List String → List String
push_word c [] = c ∷ []
push_word String.[] (s ∷ ss) = s ∷ ss
push_word (String.◌∷◌ c t) (s ∷ ss) = String.◌∷◌ c s ∷ ss

abbrev pub starts_word : String → Bool
starts_word String.[] = false
starts_word (String.◌∷◌ c s) = not (is_space (code c))

-- `s.split()`.
unfoldable pub words : String → List String
words String.[] = []
words (String.◌∷◌ c s) =
    let rest = words s in
    let first = String.◌∷◌ c String.[] in
    if is_space (code c) then rest else if starts_word s then push_word first rest else first ∷ rest

-- The branch that a line names.
abbrev pub ref_of : List String → Option String
ref_of (sha ∷ ref ∷ rest) = after_prefix "refs/heads/" ref
ref_of _ = none

abbrev pub push_ref : Option String → List String → List String
push_ref none bs = bs
push_ref (some b) bs = b ∷ bs

-- The loop over the lines; an empty line has no words.
unfoldable pub branches_in : List String → List String
unfolding words after_prefix
branches_in [] = []
branches_in (l ∷ ls) =
    let rest = branches_in ls in if truthy (some l) then push_ref (ref_of (words l)) rest else rest

abbrev pub is_denied : String → Bool
unfolding occurs
is_denied err =
    occurs "authentication" err
    || occurs "could not read username" err
    || occurs "terminal prompts disabled" err

module _ (lower : String → String) where
  abbrev pub run_answer : LsRemote → Result (List String)
  unfolding split strip_left strip_right branches_in is_denied
  run_answer (finished done out err) =
      if done
      then ok (branches_in (split 10 (strip_right (strip_left out))))
      else if is_denied (lower err)
      then raised (http_exception 403 "Repository is private or requires authentication")
      else raised (http_exception 404 "Repository not found or inaccessible")
  run_answer timed_out = raised (http_exception 504 "Request to repository timed out")
  run_answer (run_failed e) = raised (http_exception 500 "Failed to fetch branches")

  unfoldable pub get_github_branches : String → LsRemote → Result (List String)
  unfolding run_answer is_repo_url
  get_github_branches url r =
      if is_repo_url url then run_answer r else raised (http_exception 400 "Invalid repository URL")
