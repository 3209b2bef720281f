-- ===== src/Api/Analyzer/Walk.antt =====
-- Which directories the walk takes into account, and which failures it lets through.
use deploy_hub.Prelude.{
  String, if◌then◌else◌, Bool, true, ◌&&◌, not, Option, none, some, List, [], ◌++◌, ◌≡◌, refl, ap,
  ◌∙◌, inl, inr, arith, Bool-cases,
}
use deploy_hub.Action.{Outcome, Action, Result, ok, raised, pure, attempt, handle, ◌>>◌}
use deploy_hub.Api.Analyzer.{
  RawConfig, DetectedService, Listing, Dir, dir, Dirs, end, sub, is_excluded, read_config,
  child_path, visit_config, visit_listing, enter, services_at, visit, walk_path, walk_dirs,
  collected, analyze,
}

-- The tree without its excluded directories, at any depth below the root.
mutual
  pub prune : Dir → Dir
  prune (dir l ds) = dir l (prune_dirs ds)

  pub prune_dirs : Dirs → Dirs
  prune_dirs end = end
  prune_dirs (sub (dir l ds) rest) =
      let others = prune_dirs rest in
      if is_excluded l.name then others else sub (prune (dir l ds)) others

attempt_returns :
    (m : Action (List DetectedService) Unit) (w : List DetectedService) → (attempt m w).0 ≡ ok tt
attempt_returns m w = returned (m w)
  where
    returned :
        (r : Result (Unit {0}) × List DetectedService) → (handle r.0 (λ _. pure tt) r.1).0 ≡ ok tt
    returned (ok _, v) = refl
    returned (raised e, v) = refl

-- What a failure of the root's shipzen.yaml, and its absence, make of the analysis.
abbrev pub Settled : Result (Option RawConfig) → Result (List DetectedService) → Type 0
Settled (ok c) r = (found : List DetectedService) × (r ≡ ok found)
Settled (raised e) r = r ≡ raised e

module _ (lower : String → String) (repo : String) where
  mutual
    unfolding walk_path prune

    walk_path-prune :
        (base : Bool) (path : String) (d : Dir)
        → walk_path lower repo base path d ≡ walk_path lower repo base path (prune d)
    walk_path-prune base path (dir l ds) =
        ap (λ r. if not base && is_excluded l.name then pure tt else visit lower repo path l r)
          (walk_dirs-prune path ds)

    walk_dirs-prune :
        (path : String) (ds : Dirs)
        → walk_dirs lower repo path ds ≡ walk_dirs lower repo path (prune_dirs ds)
    walk_dirs-prune path end = refl
    walk_dirs-prune path (sub (dir l ds) rest) = elim (Bool-cases (is_excluded l.name)) [
      | inl e ↦ rw e (walk_dirs-prune path rest)
      | inr e ↦ rw e (
          rw e (
            ap
              (λ r. visit lower repo (child_path path l.name) l r >> walk_dirs lower repo path rest)
              (walk_dirs-prune (child_path path l.name) ds)
            ∙ ap
                (λ r.
                  visit lower repo (child_path path l.name) l
                    (walk_dirs lower repo (child_path path l.name) (prune_dirs ds))
                  >> r)
                (walk_dirs-prune path rest)))
    ]

  -- Excluded and hidden directories below the root change nothing, whatever is in them: the analysis of
  -- a repository, its failure included, is that of the repository without them.
  pub analyze-prune : (d : Dir) → analyze lower repo (some d) ≡ analyze lower repo (some (prune d))
  unfolding analyze
  analyze-prune d =
      ap (λ (m : Action (List DetectedService) Unit). collected lower repo (m []))
        (walk_path-prune true "" d)

  -- What a readable directory answers depends on its own shipzen.yaml alone.
  Answered :
      Result (Option RawConfig)
      → List DetectedService
      → Result (Unit {0}) × List DetectedService
      → Type 0
  Answered (ok c) w p = p.0 ≡ ok tt
  Answered (raised e) w p = p ≡ (raised e, w)

  visit_answer :
      (path : String) (l : Listing) (c : Result (Option RawConfig))
      (rest : Action (List DetectedService) Unit) (w : List DetectedService)
      → Answered c w (visit_config lower repo path l c rest w)
  unfolding visit_config Answered
  visit_answer path l (ok c) rest w =
      attempt_returns (enter lower repo l.subdirs rest) (w ++ services_at lower repo path l c)
  visit_answer path l (raised e) rest w = refl

  collect_stage :
      (c : Result (Option RawConfig)) (w : List DetectedService)
      (p : Result (Unit {0}) × List DetectedService)
      → Answered c w p
      → Settled c (collected lower repo p)
  unfolding collected Answered
  collect_stage (ok c) w (ok _, v) h = (v, refl)
  collect_stage (ok c) w (raised e, v) h = ground (arith, h)
  collect_stage (raised e) w p h = rw h refl

  visit_root :
      (l : Listing) (rest : Action (List DetectedService) Unit) (o : Outcome)
      → o ≡ none
      → Settled (read_config l) (collected lower repo (visit_listing lower repo "" l o rest []))
  unfolding visit_listing
  visit_root l rest (some e) h = ground (arith, h)
  visit_root l rest none h =
      collect_stage (read_config l) [] (visit_config lower repo "" l (read_config l) rest [])
        (visit_answer "" l (read_config l) rest [])

  -- The analysis of a repository whose root can be listed fails exactly with the failure of the root's
  -- own shipzen.yaml: where that can be read, it returns, whatever fails in the directories below.
  pub analyze-Settled :
      (l : Listing) (ds : Dirs)
      → l.iterdir ≡ none
      → Settled (read_config l) (analyze lower repo (some (dir l ds)))
  unfolding analyze walk_path visit
  analyze-Settled l ds i = visit_root l (walk_dirs lower repo "" ds) l.iterdir i
