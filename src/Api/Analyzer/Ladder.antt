-- ===== src/Api/Analyzer/Ladder.antt =====
-- Which kind of service a directory is, without candidates and confidences.
use deploy_hub.Prelude.{
  String, if◌then◌else◌, Bool, ◌&&◌, ◌||◌, not, Option, none, some, List, [], ◌∷◌, ◌++◌, ◌≡◌,
  contains, arith, ◌==◌, ap, ◌∙◌, refl, map, Bool-cases, inl, inr,
}
use deploy_hub.Ordered.{sort}
use deploy_hub.Text.{truthy}
use deploy_hub.Api.Analyzer.{
  ServiceType, dockerfile, buildpacks, go, maven, static, railpack, Listing, Candidate, candidate,
  only_if, any_of, python_files, candidates, pack_candidates, best, node_framework,
  python_framework, RawConfig, named, services_at, service_of, override, chosen_builder, name_or,
}

abbrev pub type_of : Option Candidate → Option ServiceType
type_of none = none
type_of (some c) = some c.type

-- The first question that is answered by yes decides.
abbrev pub ladder : Bool → Bool → Bool → Bool → Bool → Bool → Bool → Option ServiceType
ladder docker go_mod pom node python rail html =
    if docker
    then some dockerfile
    else if go_mod
    then some go
    else if pom
    then some maven
    else if node || python
    then some buildpacks
    else if rail
    then some railpack
    else if html
    then some static
    else none

abbrev pub railpack_files : List String
railpack_files = "composer.json" ∷ "index.php" ∷ "Gemfile" ∷ []

ladder_bits :
    (docker go_mod pom node python rail html : Bool) (f g : Option String)
    → type_of (
        best (
          only_if docker (candidate dockerfile 100 none)
          ++ (if node
              then candidate buildpacks 85 f ∷ []
              else only_if python (candidate buildpacks 85 g))
          ++ only_if (go_mod && not docker) (candidate go 90 none)
          ++ only_if (pom && not docker && not go_mod) (candidate maven 88 none)
          ++ only_if
              (html && not node && not (python || go_mod || pom))
              (candidate static 70 (some "nginx"))
          ++ only_if rail (candidate railpack 85 none)))
      ≡ ladder docker go_mod pom node python rail html
unfolding best sort
ladder_bits docker go_mod pom node python rail html f g = ground arith

-- The best candidate is of the first kind that fits.
pub best-ladder :
    (lower : String → String) (l : Listing)
    → type_of (best (candidates lower l))
      ≡ ladder
          (contains "Dockerfile" l.files)
          (contains "go.mod" l.files)
          (contains "pom.xml" l.files)
          (contains "package.json" l.files)
          (any_of python_files l.files)
          (any_of railpack_files l.files)
          (contains "index.html" l.files)
unfolding candidates pack_candidates
best-ladder lower l =
    ladder_bits (contains "Dockerfile" l.files) (contains "go.mod" l.files)
      (contains "pom.xml" l.files) (contains "package.json" l.files) (any_of python_files l.files)
      (any_of railpack_files l.files) (contains "index.html" l.files)
      (node_framework lower l.package_json) (python_framework lower l)

-- A builder that shipzen.yaml sets replaces the kind, unless it is empty or "auto".
abbrev pub replaced_by : Option RawConfig → ServiceType → ServiceType
replaced_by none t = t
replaced_by (some c) t = elim c.builder [
  | none ↦ t
  | some b ↦ if truthy (some b) then (if b == "auto" then t else named b) else t
]

abbrev pub services_of_kind : Option RawConfig → Option ServiceType → List ServiceType
services_of_kind config none = []
services_of_kind config (some t) = replaced_by config t ∷ []

override_stage :
    (b : Option String) (c : Candidate)
    → (override
        (elim b [
          | none ↦ none
          | some t ↦ if truthy (some t) && not (t == "auto") then some t else none
        ])
        c).type
      ≡ (elim b [
        | none ↦ c.type
        | some t ↦ if truthy (some t) then (if t == "auto" then c.type else named t) else c.type
      ])
unfolding override
override_stage none c = refl
override_stage (some String.[]) c = refl
override_stage (some (String.◌∷◌ a t)) c = elim (Bool-cases (String.◌∷◌ a t == "auto")) [
  | inl e ↦ rw e refl
  | inr e ↦ rw e refl
]

override-replaced_by :
    (repo path : String) (l : Listing) (config : Option RawConfig) (c : Candidate)
    → (service_of repo path l config c).type ≡ replaced_by config c.type
unfolding service_of override chosen_builder name_or
override-replaced_by repo path l none c = refl
override-replaced_by repo path l (some g) c = override_stage g.builder c

kinds :
    (repo path : String) (l : Listing) (config : Option RawConfig) (b : Option Candidate)
    → map (λ s. s.type) (elim b [ none ↦ [] | some c ↦ service_of repo path l config c ∷ [] ])
      ≡ services_of_kind config (type_of b)
kinds repo path l config none = refl
kinds repo path l config (some c) = ap (λ t. t ∷ []) (override-replaced_by repo path l config c)

-- A directory adds one service, or none. It is of the first kind that fits: Dockerfile, Go, Maven,
-- buildpacks for Node or Python, Railpack, static pages; but a builder that its shipzen.yaml sets,
-- neither empty nor "auto", takes the place of that kind. There is none exactly where no kind fits,
-- whatever shipzen.yaml says.
pub services_at-ladder :
    (lower : String → String) (repo path : String) (l : Listing) (config : Option RawConfig)
    → map (λ s. s.type) (services_at lower repo path l config)
      ≡ services_of_kind config (
          ladder
            (contains "Dockerfile" l.files)
            (contains "go.mod" l.files)
            (contains "pom.xml" l.files)
            (contains "package.json" l.files)
            (any_of python_files l.files)
            (any_of railpack_files l.files)
            (contains "index.html" l.files))
unfolding services_at
services_at-ladder lower repo path l config =
    kinds repo path l config (best (candidates lower l))
    ∙ ap (services_of_kind config) (best-ladder lower l)
