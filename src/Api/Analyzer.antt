-- ===== src/Api/Analyzer.antt =====
-- `RepoAnalyzer` and `ShipzenConfig` of api/analyzer.py. A repository is a tree of directories, each
-- with what reading it answers; pathlib, PyYAML and pydantic's coercion of values are outside.
pub mod Ladder
pub mod Walk
pub mod Request
pub mod Services
mod Tests
use Prim.Native.String.{◌++◌ as append}
use deploy_hub.Prelude.{
  ℕ, String, ◌==◌, leb, if◌then◌else◌, Bool, true, false, ◌&&◌, ◌||◌, not, Option, none, some, List,
  [], ◌∷◌, ◌++◌, contains,
}
use deploy_hub.Action.{
  Exn, exception, Outcome, Action, Result, ok, raised, pure, raise, ◌>>◌, modify, attempt,
}
use deploy_hub.Ordered.{sort}
use deploy_hub.Text.{truthy, starts_with, occurs}

-- The keys of a shipzen.yaml; `extra` are those that `ShipzenConfig` does not have. A key that is not
-- set is none.
pub record RawConfig : Type 0 where
  pub builder : Option String
  pub port : Option ℕ
  pub replicas : Option ℕ
  pub health_check_path : Option String
  pub build_args : List (String × String)
  pub extra : List String

abbrev pub builders : List String
builders = "dockerfile" ∷ "buildpacks" ∷ "railpack" ∷ "go" ∷ "maven" ∷ "static" ∷ "auto" ∷ []

within : ℕ → ℕ → Option ℕ → Bool
within lo hi none = true
within lo hi (some n) = leb lo n && leb n hi

known_builder : Option String → Bool
known_builder none = true
known_builder (some b) = contains b builders

-- `validate_health_check_path`.
rooted : Option String → Bool
unfolding starts_with
rooted none = true
rooted (some p) = if truthy (some p) then starts_with "/" p else true

is_empty : List String → Bool
is_empty [] = true
is_empty (x ∷ xs) = false

-- Does `ShipzenConfig(**raw_cfg)` raise no ValidationError?
pub is_valid : RawConfig → Bool
unfolding within known_builder rooted is_empty
is_valid c =
    is_empty c.extra
    && known_builder c.builder
    && within 1 65535 c.port
    && within 1 20 c.replicas
    && rooted c.health_check_path

pub data ServiceType : Type 0 where
  dockerfile buildpacks go maven static railpack : ServiceType
  named : String → ServiceType  -- the builder that the shipzen.yaml names

-- `confidence` is in hundredths.
pub record DetectedService : Type 0 where
  pub name : String
  pub path : String
  pub type : ServiceType
  pub confidence : ℕ
  pub framework : Option String
  pub override_config : Option RawConfig

-- What a directory holds and answers: the first `iterdir`, the files, shipzen.yaml as YAML, the texts
-- of package.json and requirements.txt, and the second `iterdir`.
pub record Listing : Type 0 where
  pub name : String
  pub iterdir : Outcome
  pub files : List String
  pub yaml : Result RawConfig
  pub package_json : Result String
  pub requirements : Result String
  pub subdirs : Outcome

mutual
  pub data Dir : Type 0 where
    dir : Listing → Dirs → Dir

  pub data Dirs : Type 0 where
    end : Dirs
    sub : Dir → Dirs → Dirs

abbrev pub excluded_dirs : List String
excluded_dirs =
    "node_modules" ∷ ".git" ∷ "__pycache__" ∷ "vendor" ∷ "dist" ∷ "build" ∷ ".next" ∷ "target" ∷ []

unfoldable pub is_excluded : String → Bool
unfolding starts_with
is_excluded name = contains name excluded_dirs || starts_with "." name

abbrev pub python_files : List String
python_files = "requirements.txt" ∷ "pyproject.toml" ∷ "manage.py" ∷ []

pub any_of : List String → List String → Bool
any_of [] files = false
any_of (f ∷ fs) files = contains f files || any_of fs files

-- The type and the confidence of a candidate, and its framework.
pub record Candidate : Type 0 where
  pub type : ServiceType
  pub confidence : ℕ
  pub framework : Option String

abbrev pub candidate : ServiceType → ℕ → Option String → Candidate
candidate t c f = record { type = t; confidence = c; framework = f }

abbrev pub only_if : Bool → Candidate → List Candidate
only_if b c = if b then c ∷ [] else []

-- `lower` is str.lower.
module _ (lower : String → String) where
  -- The framework that package.json names.
  node_framework : Result String → Option String
  unfolding occurs
  node_framework (raised e) = none
  node_framework (ok content) =
      if occurs "\"next\"" content
      then some "nextjs"
      else if occurs "\"vite\"" content
      then some "vite"
      else if occurs "\"express\"" content
      then some "express"
      else none

  named_in : Option String → String → Option String
  unfolding occurs
  named_in f content =
      if occurs "fastapi" content
      then some "fastapi"
      else if occurs "flask" content
      then some "flask"
      else f

  read_requirements : Option String → Result String → Option String
  unfolding named_in
  read_requirements f (raised e) = f
  read_requirements f (ok content) = named_in f (lower content)

  -- The framework of a Python service.
  python_framework : Listing → Option String
  unfolding read_requirements
  python_framework l =
      let f : Option String = if contains "manage.py" l.files then some "django" else none in
      if contains "requirements.txt" l.files then read_requirements f l.requirements else f

  -- "Buildpacks (Node/Python)".
  pack_candidates : Listing → List Candidate
  unfolding node_framework python_framework any_of
  pack_candidates l =
      if contains "package.json" l.files
      then candidate buildpacks 85 (node_framework l.package_json) ∷ []
      else only_if (any_of python_files l.files) (candidate buildpacks 85 (python_framework l))

  -- The candidates of a directory, in the order of the code.
  pub candidates : Listing → List Candidate
  unfolding pack_candidates any_of
  candidates l =
      let f = l.files in
      only_if (contains "Dockerfile" f) (candidate dockerfile 100 none)
      ++ pack_candidates l
      ++ only_if (contains "go.mod" f && not (contains "Dockerfile" f)) (candidate go 90 none)
      ++ only_if
          (contains "pom.xml" f && not (contains "Dockerfile" f) && not (contains "go.mod" f))
          (candidate maven 88 none)
      ++ only_if
          (contains "index.html" f
            && not (contains "package.json" f)
            && not (any_of python_files f || contains "go.mod" f || contains "pom.xml" f))
          (candidate static 70 (some "nginx"))
      ++ only_if (any_of ("composer.json" ∷ "index.php" ∷ "Gemfile" ∷ []) f)
          (candidate railpack 85 none)

-- `candidates.sort(key=lambda x: x.confidence, reverse=True)`, which keeps the order of equals.
unfoldable pub best : List Candidate → Option Candidate
unfolding sort
best cs = elim (sort (λ a b. leb b.confidence a.confidence) cs) [ [] ↦ none | c ∷ rest ↦ some c ]

-- The builder that a shipzen.yaml sets, unless it is auto.
pub chosen_builder : Option RawConfig → Option String
chosen_builder none = none
chosen_builder (some c) = elim c.builder [
  | none ↦ none
  | some b ↦ if truthy (some b) && not (b == "auto") then some b else none
]

override : Option String → Candidate → Candidate
override none c = c
override (some b) c = record c { type = named b; confidence = 100 }

-- `current_path.name or self._repo_name`.
name_or : String → String → String
name_or name repo = if truthy (some name) then name else repo

service_of : String → String → Listing → Option RawConfig → Candidate → DetectedService
unfolding name_or override chosen_builder
service_of repo path l config c =
    let d = override (chosen_builder config) c in
    record {
      name = name_or l.name repo;
      path = path;
      type = d.type;
      confidence = d.confidence;
      framework = d.framework;
      override_config = config;
    }

-- The shipzen.yaml of a directory, where it has one.
pub read_config : Listing → Result (Option RawConfig)
unfolding is_valid
read_config l =
    if contains "shipzen.yaml" l.files
    then elim l.yaml [
      | raised e ↦ raised e
      | ok c ↦
          if is_valid c then ok (some c) else raised (exception "shipzen.yaml validation error")
    ]
    else ok none

-- `relative_to(base_path).as_posix()` of a directory in another.
child_path : String → String → String
child_path path name = if truthy (some path) then append path (append "/" name) else name

module _ (lower : String → String) (repo : String) where
  -- What a directory adds to the services.
  pub services_at : String → Listing → Option RawConfig → List DetectedService
  unfolding candidates best service_of
  services_at path l config = elim (best (candidates lower l)) [
    | none ↦ []
    | some c ↦ service_of repo path l config c ∷ []
  ]

  -- The second `iterdir`.
  enter : Outcome → Action (List DetectedService) Unit → Action (List DetectedService) Unit
  enter (some e) rest = raise e
  enter none rest = rest

  -- What follows shipzen.yaml: its errors are not caught here.
  visit_config :
      String
      → Listing
      → Result (Option RawConfig)
      → Action (List DetectedService) Unit
      → Action (List DetectedService) Unit
  unfolding services_at enter
  visit_config path l (raised e) rest = raise e
  visit_config path l (ok config) rest =
      modify (λ services. services ++ services_at path l config) >> attempt (enter l.subdirs rest)

  visit_listing :
      String
      → Listing
      → Outcome
      → Action (List DetectedService) Unit
      → Action (List DetectedService) Unit
  unfolding visit_config read_config
  visit_listing path l (some e) rest = pure tt
  visit_listing path l none rest = visit_config path l (read_config l) rest

  -- `walk_path` of a directory that is not excluded; `rest` walks through those in it.
  visit : String → Listing → Action (List DetectedService) Unit → Action (List DetectedService) Unit
  unfolding visit_listing
  visit path l rest = visit_listing path l l.iterdir rest

  mutual
    pub walk_path : Bool → String → Dir → Action (List DetectedService) Unit
    walk_path is_base path (dir l ds) =
        if not is_base && is_excluded l.name then pure tt else visit path l (walk_dirs path ds)

    pub walk_dirs : String → Dirs → Action (List DetectedService) Unit
    walk_dirs path end = pure tt
    walk_dirs path (sub (dir l ds) rest) =
        walk_path false (child_path path l.name) (dir l ds) >> walk_dirs path rest

  collected : Result (Unit {0}) × List DetectedService → Result (List DetectedService)
  collected (ok _, services) = ok services
  collected (raised e, services) = raised e

  -- The services of a repository; none is a path that is no directory.
  pub analyze : Option Dir → Result (List DetectedService)
  unfolding walk_path collected
  analyze none = ok []
  analyze (some d) = collected (walk_path true "" d [])
