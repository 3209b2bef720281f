-- ===== src/Api/Analyzer/Services.antt =====
-- The services of a repository as a plain list over its directories.
use deploy_hub.Prelude.{
  String, if◌then◌else◌, Option, none, some, List, [], ◌++◌, ◌≡◌, refl, sym, ap, ◌∙◌, append_assoc,
  append-nil, arith, Bool-cases, inl, inr,
}
use deploy_hub.Action.{Outcome, Action, Result, ok, raised, attempt, ◌>>◌}
use deploy_hub.Api.Analyzer.{
  RawConfig, DetectedService, Listing, dir, Dirs, end, sub, is_excluded, read_config, child_path,
  visit_config, visit_listing, enter, services_at, visit, walk_path, walk_dirs, collected, analyze,
}

-- An action that returns and adds these services.
abbrev pub Adds : Action (List DetectedService) Unit → List DetectedService → Type 0
Adds m found = (w : List DetectedService) → m w ≡ (ok tt, w ++ found)

abbrev pub IsConfigured : Listing → Type 0
IsConfigured l = (c : Option RawConfig) × (read_config l ≡ ok c)

-- Every shipzen.yaml of the tree is valid.
abbrev pub AllConfigured : Dirs → Type 0
AllConfigured end = Unit
AllConfigured (sub (dir l ds) rest) = IsConfigured l × (AllConfigured ds × AllConfigured rest)

module _ (lower : String → String) (repo : String) where
  -- The services of a tree, directory by directory: each with its subdirectories behind it.
  abbrev config_in : Result (Option RawConfig) → Option RawConfig
  config_in (ok c) = c
  config_in (raised e) = none

  abbrev behind : Outcome → List DetectedService → List DetectedService
  behind none below = below
  behind (some e) below = []

  abbrev listed_from : Outcome → List DetectedService → List DetectedService
  listed_from none found = found
  listed_from (some e) found = []

  abbrev pub listed_in : String → Listing → List DetectedService → List DetectedService
  listed_in path l below =
      listed_from l.iterdir
        (services_at lower repo path l (config_in (read_config l)) ++ behind l.subdirs below)

  pub services_in : String → Dirs → List DetectedService
  services_in path end = []
  services_in path (sub (dir l ds) rest) =
      (if is_excluded l.name
        then []
        else listed_in (child_path path l.name) l (services_in (child_path path l.name) ds))
      ++ services_in path rest

  attempt-Adds :
      (m : Action (List DetectedService) Unit) (found : List DetectedService)
      → Adds m found
      → Adds (attempt m) found
  attempt-Adds m found h w = rw (h w) refl

  enter-Adds :
      (o : Outcome) (rest : Action (List DetectedService) Unit) (below : List DetectedService)
      → Adds rest below
      → Adds (attempt (enter lower repo o rest)) (behind o below)
  unfolding enter
  enter-Adds none rest below h w = attempt-Adds rest below h w
  enter-Adds (some e) rest below h w = ap (λ v. (ok tt, v)) (sym (append-nil w))

  config-Adds :
      (path : String) (l : Listing) (c : Option RawConfig)
      (rest : Action (List DetectedService) Unit) (below : List DetectedService)
      → Adds rest below
      → Adds
          (visit_config lower repo path l (ok c) rest)
          (services_at lower repo path l c ++ behind l.subdirs below)
  unfolding visit_config
  config-Adds path l c rest below h w =
      enter-Adds l.subdirs rest below h (w ++ services_at lower repo path l c)
      ∙ ap (λ v. (ok tt, v))
          (append_assoc w (services_at lower repo path l c) (behind l.subdirs below))

  config_stage :
      (path : String) (l : Listing) (r : Result (Option RawConfig)) (c : Option RawConfig)
      (rest : Action (List DetectedService) Unit) (below : List DetectedService)
      → r ≡ ok c
      → Adds rest below
      → Adds
          (visit_config lower repo path l r rest)
          (services_at lower repo path l (config_in r) ++ behind l.subdirs below)
  config_stage path l (ok b) c rest below e h w = config-Adds path l b rest below h w
  config_stage path l (raised x) c rest below e h w = ground (arith, e)

  listing-Adds :
      (path : String) (l : Listing) (o : Outcome) (rest : Action (List DetectedService) Unit)
      (below : List DetectedService)
      → IsConfigured l
      → Adds rest below
      → Adds (visit_listing lower repo path l o rest) (
          listed_from o
            (services_at lower repo path l (config_in (read_config l)) ++ behind l.subdirs below))
  unfolding visit_listing
  listing-Adds path l none rest below (c, e) h w =
      config_stage path l (read_config l) c rest below e h w
  listing-Adds path l (some x) rest below (c, e) h w = ap (λ v. (ok tt, v)) (sym (append-nil w))

  visit-Adds :
      (path : String) (l : Listing) (rest : Action (List DetectedService) Unit)
      (below : List DetectedService)
      → IsConfigured l
      → Adds rest below
      → Adds (visit lower repo path l rest) (listed_in path l below)
  unfolding visit
  visit-Adds path l rest below c h w = listing-Adds path l l.iterdir rest below c h w

  then-Adds :
      (m n : Action (List DetectedService) Unit) (a b : List DetectedService)
      → Adds m a
      → Adds n b
      → Adds (m >> n) (a ++ b)
  then-Adds m n a b h g w = rw (h w) (g (w ++ a) ∙ ap (λ v. (ok tt, v)) (append_assoc w a b))

  dirs_add :
      (path : String) (ds : Dirs)
      → AllConfigured ds
      → Adds (walk_dirs lower repo path ds) (services_in path ds)
  unfolding walk_path services_in
  dirs_add path end h w = ap (λ v. (ok tt, v)) (sym (append-nil w))
  dirs_add path (sub (dir l ds) rest) (c, (below, others)) w =
      elim (Bool-cases (is_excluded l.name)) [
        | inl e ↦ rw e (dirs_add path rest others w)
        | inr e ↦ rw e (
            then-Adds
              (visit lower repo (child_path path l.name) l
                (walk_dirs lower repo (child_path path l.name) ds))
              (walk_dirs lower repo path rest)
              (listed_in (child_path path l.name) l (services_in (child_path path l.name) ds))
              (services_in path rest)
              (visit-Adds (child_path path l.name) l
                (walk_dirs lower repo (child_path path l.name) ds)
                (services_in (child_path path l.name) ds) c
                (dirs_add (child_path path l.name) ds below))
              (dirs_add path rest others) w)
      ]

  -- Where every shipzen.yaml is valid, the analysis returns the services of the root, and those of
  -- the directories below it that are not excluded, each with those below it, in the order of the
  -- listings; a directory that cannot be listed has none.
  pub analyze-services_in :
      (l : Listing) (ds : Dirs)
      → IsConfigured l
      → AllConfigured ds
      → analyze lower repo (some (dir l ds)) ≡ ok (listed_in "" l (services_in "" ds))
  unfolding analyze walk_path collected
  analyze-services_in l ds c h =
      rw (visit-Adds "" l (walk_dirs lower repo "" ds) (services_in "" ds) c (dirs_add "" ds h) [])
        refl
