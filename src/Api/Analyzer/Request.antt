-- ===== src/Api/Analyzer/Request.antt =====
-- `analyze_repo` of api/main.py: a repository is cloned into a temporary directory and analyzed. The
-- state is the list of the commands that were run, the newest first.
use deploy_hub.Prelude.{
  ℕ, String, leb, if◌then◌else◌, Bool, true, not, ◌&&◌, ◌||◌, Option, none, some, List, [], ◌∷◌,
  ◌≡◌, refl, ◌⊎◌, inl, inr, arith, Bool-cases,
}
use deploy_hub.Action.{
  Exn, http_exception, Outcome, Action, Result, ok, raised, raise, ◌>>◌, try_catch, modify, call,
}
use deploy_hub.Text.{text_length, replace_from, replace, same_code, truthy, after_last}
use deploy_hub.Api.RepoUrl.{all_codes, before_newline}
use deploy_hub.Api.RepoUrl.Safe.{is_shell_code}
use deploy_hub.Worker.Builder.Clone.Words.{is_safe_word, all_codes-sub}
use deploy_hub.Api.Analyzer.{Dir, DetectedService, analyze}

-- [a-zA-Z0-9_.-].
abbrev is_branch_code : ℕ → Bool
is_branch_code c =
    (leb b'a' c && leb c b'z')
    || (leb b'A' c && leb c b'Z')
    || (leb b'0' c && leb c b'9')
    || same_code c b'_'
    || same_code c b'.'
    || same_code c b'-'

-- The pattern ^[a-zA-Z0-9_.-]{1,100}$; its $ lets a newline stand at the end.
unfoldable pub is_branch : String → Bool
unfolding all_codes text_length before_newline
is_branch s =
    let t = before_newline s in
    all_codes is_branch_code t && (leb 1 (text_length t) && leb (text_length t) 100)

-- `url.split("/")[-1].replace(".git", "")`.
unfoldable pub repo_name : String → String
unfolding replace_from after_last
repo_name url = elim (after_last b'/' url) [
  | none ↦ replace ".git" "" url
  | some t ↦ replace ".git" "" t
]

-- What is answered: the temporary directory's path and the failure of making it, the failure of git,
-- and what stands in the directory then.
pub record Clone : Type 0 where
  pub tmpdir : String
  pub make : Outcome
  pub clone : Outcome
  pub cloned : Option Dir

abbrev pub clone_argv : String → String → String → List String
clone_argv branch url tmpdir = "git" ∷ "clone" ∷ "--depth" ∷ "1" ∷ "-b" ∷ branch ∷ url ∷ tmpdir ∷ []

lift : {A : Type 0} → Result A → Action (List (List String)) A
lift r w = (r, w)

-- `repo_name or self.repo_path.name`; `after_last` is the name of a path.
pub name_of : String → String → String
unfolding repo_name after_last
name_of url tmpdir =
    if truthy (some (repo_name url))
    then repo_name url
    else elim (after_last b'/' tmpdir) [ none ↦ tmpdir | some t ↦ t ]

-- The `try` statement.
clone_and_analyze :
    (String → String) → String → String → Clone → Action (List (List String)) (List DetectedService)
unfolding lift name_of
clone_and_analyze lower branch url o =
    call o.make (λ w. w)
    >> (modify (λ w. clone_argv branch url o.tmpdir ∷ w)
        >> (call o.clone (λ w. w) >> lift (analyze lower (name_of url o.tmpdir) o.cloned)))

unfoldable pub analyze_repo :
    (String → String) → String → String → Clone → Action (List (List String)) (List DetectedService)
unfolding clone_and_analyze is_branch
analyze_repo lower branch url o =
    if is_branch branch
    then try_catch (clone_and_analyze lower branch url o)
        (λ e. raise (http_exception 400 "Failed to clone repository"))
    else raise (http_exception 400 "Invalid branch name")

branch_or_shell : (c : ℕ) → is_branch_code c ≡ true → not (is_shell_code c) ≡ true
branch_or_shell c h = ground (arith, h)

length-truthy : (s : String) → leb 1 (text_length s) ≡ true → truthy (some s) ≡ true
unfolding text_length
length-truthy String.[] h = ground (arith, h)
length-truthy (String.◌∷◌ c s) h = refl

branch-IsSafe : (b : String) → is_branch b ≡ true → is_safe_word (before_newline b) ≡ true
unfolding is_branch
branch-IsSafe b h =
    let t = before_newline b in
    let codes =
      all_codes-sub is_branch_code (λ c. not (is_shell_code c)) branch_or_shell t
        (ground (arith, h)) in
    let filled = length-truthy t (ground (arith, h)) in ground (arith, codes, filled)

-- What is answered: the services that the analysis has found, or the status 400.
abbrev pub Answered : Result (List DetectedService) → Result (List DetectedService) → Type 0
Answered analysis r =
    ((found : List DetectedService) × (r ≡ ok found) × (analysis ≡ ok found))
    ⊎ ((detail : String) × (r ≡ raised (http_exception 400 detail)))

clone_failed : Exn
clone_failed = http_exception 400 "Failed to clone repository"

try_stage :
    (make clone : Outcome) (analysis : Result (List DetectedService)) (argv : List String)
    (w : List (List String))
    → let p =
        try_catch
          (call make (λ v. v) >> (modify (λ v. argv ∷ v) >> (call clone (λ v. v) >> lift analysis)))
          (λ e. raise clone_failed)
          w in
      ((p.1 ≡ w) ⊎ (p.1 ≡ argv ∷ w)) × Answered analysis p.0
unfolding lift clone_failed
try_stage (some e) clone analysis argv w = (inl refl, inr ("Failed to clone repository", refl))
try_stage none (some e) analysis argv w = (inr refl, inr ("Failed to clone repository", refl))
try_stage none none (raised e) argv w = (inr refl, inr ("Failed to clone repository", refl))
try_stage none none (ok found) argv w = (inr refl, inl (found, refl, refl))

-- What is run, and what is answered.
pub record Cloned (lower : String → String) (branch url : String) (o : Clone)
    (w : List (List String)) (p : Result (List DetectedService) × List (List String)) : Type 0 where
  pub run :
      (p.1 ≡ w)
      ⊎ ((p.1 ≡ clone_argv branch url o.tmpdir ∷ w) × (is_safe_word (before_newline branch) ≡ true))
  pub answered : Answered (analyze lower (name_of url o.tmpdir) o.cloned) p.0

-- An analysis runs nothing, or git once, with the branch as one argument, in which no sign stands that
-- a shell reads but that there may be a newline at its end. It answers with the services that the
-- analyzer has found in the clone, or with the status 400.
pub analyze_repo-Cloned :
    (lower : String → String) (branch url : String) (o : Clone) (w : List (List String))
    → Cloned lower branch url o w (analyze_repo lower branch url o w)
unfolding analyze_repo clone_failed
analyze_repo-Cloned lower branch url o w = elim (Bool-cases (is_branch branch)) [
  | inr f ↦ rw f (record { run = inl refl; answered = inr ("Invalid branch name", refl) })
  | inl t ↦
      let (ran, a) =
        try_stage o.make o.clone (analyze lower (name_of url o.tmpdir) o.cloned)
          (clone_argv branch url o.tmpdir) w in
      rw t (record {
        run = elim ran [ inl e ↦ inl e | inr e ↦ inr (e, branch-IsSafe branch t) ];
        answered = a;
      })
]
