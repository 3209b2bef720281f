-- ===== src/Controller/Deployments/Kept.antt =====
-- A predicate of the database that `reconcile_deployments` keeps.
use deploy_hub.Prelude.{
  ℕ, String, ltb, if◌then◌else◌, ◌≡◌, refl, sym, ap, inl, inr, Bool, true, false, not, ◌&&◌, Option,
  none, some, List, [], ◌∷◌, arith, Bool-cases, subst,
}
use deploy_hub.Action.{Exn, resume, api_exception, Result, ok, raised, pure, call}
use deploy_hub.Action.Keeps.{Keeps-bind, Keeps-try, Keeps-call}
use deploy_hub.Schema.{State, running, failed, Deployment, update_deployment, deployments_of}
use deploy_hub.Controller.World.{
  World, Db, issue, commit, execute, publish_status, drift, deployment_success,
}
use deploy_hub.Controller.Deployments.Marks.{HasReady, HasNoReady}
use deploy_hub.Controller.Manifests.{Doc, apply_manifests}
use deploy_hub.Controller.Manifests.Effects.{apply_manifests-effects}
use deploy_hub.Controller.Deployments.{
  Turn, Listed, Cluster, listed, or_zero, crash_text, mark_failed, mark_running, on_deployments,
  recreate, report_crash, report_running, observe, check_listed, reconcile_deployment,
  reconcile_rows, Removal, remove_orphan, remove_orphans, reconcile_listed, reconcile_selected,
  reconcile_deployments, routes_of, lift, is_wanted, is_active, is_running,
}

-- What others see and what the open transaction sees satisfy `Q`.
pub record Both (Q : Db → Type 0) (w : World) : Type 0 where
  pub committed : Q w.committed
  pub working : Q w.working

pub Both-same :
    (Q : Db → Type 0) (w v : World)
    → v.committed ≡ w.committed
    → v.working ≡ w.working
    → Both Q w
    → Both Q v
Both-same Q w v c u h = record {
  committed = subst Q (sym c) h.committed;
  working = subst Q (sym u) h.working;
}

pub apply_manifests-Both :
    (Q : Db → Type 0) (docs : Result (List (Option (Result Doc)))) (w : World)
    → Both Q w
    → Both Q (apply_manifests docs w).1
apply_manifests-Both Q (raised x) w h = unfold apply_manifests in h
apply_manifests-Both Q (ok ds) w h =
    Both-same Q w _ (ap (λ (p : Result Unit × World). p.1.committed) (apply_manifests-effects ds w))
      (ap (λ (p : Result Unit × World). p.1.working) (apply_manifests-effects ds w)) h

-- A predicate of the database that the two statements keep, each under what the listing `deps` of
-- the namespace shows.
module _ (deps : List Listed) (Q : Db → Type 0)
    (up : (k : String) (db : Db)
      → HasReady deps k
      → Q db
      → Q (on_deployments (update_deployment k mark_running) db))
    (down : (k : String) (db : Db)
      → HasNoReady deps k
      → Q db
      → Q (on_deployments (update_deployment k mark_failed) db)) where
  report_running-Both :
      (k : String) (t : Turn) (w : World)
      → HasReady deps k
      → Both Q w
      → Both Q (report_running k t w).1
  unfolding report_running
  report_running-Both k t w r h =
      Keeps-bind (Both Q) (execute t.execute (on_deployments (update_deployment k mark_running)) w)
        _
        (Keeps-call (Both Q) t.execute _ w h
          (record { committed = h.committed; working = up k w.working r h.working }))
        λ _ v h.
          Keeps-bind (Both Q) (commit t.commit v) _
            (Keeps-call (Both Q) t.commit _ v h
              (record { committed = h.working; working = h.working }))
            λ _ v h.
              Keeps-try (Both Q)
                (call t.publish (issue (publish_status k running none))
                  (issue deployment_success v))
                _
                (Keeps-call (Both Q) t.publish _ (issue deployment_success v)
                  (record { committed = h.committed; working = h.working })
                  (record { committed = h.committed; working = h.working }))
                (λ _ _ g. g)

  report_crash-Both :
      (k : String) (t : Turn) (w : World)
      → HasNoReady deps k
      → Both Q w
      → Both Q (report_crash k t w).1
  unfolding report_crash
  report_crash-Both k t w r h =
      Keeps-bind (Both Q)
        (execute t.execute (on_deployments (update_deployment k mark_failed)) (issue drift w)) _
        (Keeps-call (Both Q) t.execute _ (issue drift w)
          (record { committed = h.committed; working = h.working })
          (record { committed = h.committed; working = down k w.working r h.working }))
        λ _ v h.
          Keeps-bind (Both Q) (commit t.commit v) _
            (Keeps-call (Both Q) t.commit _ v h
              (record { committed = h.working; working = h.working }))
            λ _ v h.
              Keeps-try (Both Q)
                (call t.publish (issue (publish_status k failed (some crash_text))) v) _
                (Keeps-call (Both Q) t.publish _ v h
                  (record { committed = h.committed; working = h.working }))
                (λ _ _ g. g)

  recreate-Both : (t : Turn) (w : World) → Both Q w → Both Q (recreate t w).1
  unfolding recreate
  recreate-Both t w h =
      Keeps-bind (Both Q) (call t.render (λ v. v) (issue drift w)) _
        (Keeps-call (Both Q) t.render (λ v. v) (issue drift w) (Both-same Q w _ refl refl h)
          (Both-same Q w _ refl refl h))
        (λ _ v g. apply_manifests-Both Q t.docs v g)

  -- The two tests of `observe`: is there a ready replica, and is the row Running?
  choose-Both :
      (k : String) (t : Turn) (some_ready runs : Bool) (w : World)
      → (some_ready ≡ true → HasReady deps k)
      → (some_ready ≡ false → HasNoReady deps k)
      → Both Q w
      → Both Q
          ((if not some_ready && runs
              then report_crash k t
              else if some_ready && not runs
              then report_running k t
              else pure tt)
            w).1
  choose-Both k t true true w shown_up shown_down h = h
  choose-Both k t true false w shown_up shown_down h = report_running-Both k t w (shown_up refl) h
  choose-Both k t false true w shown_up shown_down h = report_crash-Both k t w (shown_down refl) h
  choose-Both k t false false w shown_up shown_down h = h

  observe-Both :
      (k : String) (s : State) (ready : Option ℕ) (t : Turn) (w : World)
      → listed k deps ≡ some ready
      → Both Q w
      → Both Q (observe k s (or_zero ready) t w).1
  unfolding observe
  observe-Both k s ready t w shown h =
      choose-Both k t (ltb 0 (or_zero ready)) (is_running s) w
        (λ e. record { ready = ready; shown = shown; positive = ground arith })
        (λ e. record { ready = ready; shown = shown; zero_ready = ground arith }) h

  check_listed-Both :
      (d : Deployment) (o : Option (Option ℕ)) (others : Bool) (t : Turn) (w : World)
      → listed d.deployment_id deps ≡ o
      → Both Q w
      → Both Q (check_listed d o others t w).1
  unfolding check_listed
  check_listed-Both d none others t w e h = recreate-Both t w h
  check_listed-Both d (some ready) true t w e h = observe-Both d.deployment_id d.state ready t w e h
  check_listed-Both d (some ready) false t w e h = recreate-Both t w h

  reconcile_deployment-Both :
      (svcs routes : List String) (turn : String → Turn) (d : Deployment) (w : World)
      → Both Q w
      → Both Q (reconcile_deployment deps svcs routes turn d w).1
  unfolding reconcile_deployment
  reconcile_deployment-Both svcs routes turn d w h = elim (Bool-cases (is_active d.state)) [
    | inl e ↦
        rw e (check_listed-Both d (listed d.deployment_id deps) _ (turn d.deployment_id) w refl h)
    | inr e ↦ rw e h
  ]

  reconcile_rows-Both :
      (svcs routes : List String) (turn : String → Turn) (ds : List Deployment) (w : World)
      → Both Q w
      → Both Q (reconcile_rows deps svcs routes turn ds w).1
  unfolding reconcile_rows
  reconcile_rows-Both svcs routes turn [] w h = h
  reconcile_rows-Both svcs routes turn (d ∷ ds) w h =
      Keeps-bind (Both Q) (reconcile_deployment deps svcs routes turn d w) _
        (reconcile_deployment-Both svcs routes turn d w h)
        (λ _. reconcile_rows-Both svcs routes turn ds)

  remove_orphan-Both :
      (k : String) (r : Removal) (w : World) → Both Q w → Both Q (remove_orphan k r w).1
  remove_orphan-Both k r w h =
      Both-same Q w _ (unfold remove_orphan in ground arith) (unfold remove_orphan in ground arith)
        h

  remove_orphans-Both :
      (rows : List Deployment) (removal : String → Removal) (ls : List Listed) (w : World)
      → Both Q w
      → Both Q (remove_orphans rows removal ls w).1
  unfolding remove_orphans
  remove_orphans-Both rows removal [] w h = h
  remove_orphans-Both rows removal ((k, ready) ∷ ls) w h = elim (Bool-cases (is_wanted rows k)) [
    | inl e ↦ rw e (remove_orphans-Both rows removal ls w h)
    | inr e ↦ rw e (
        Keeps-bind (Both Q) (remove_orphan k (removal k) w) _ (remove_orphan-Both k (removal k) w h)
          (λ _. remove_orphans-Both rows removal ls))
  ]

  routes_of-Both : (r : Result (List String)) (w : World) → Both Q w → Both Q (routes_of r w).1
  unfolding routes_of
  routes_of-Both (ok names) w h = h
  routes_of-Both (raised (api_exception n s)) w h = h
  routes_of-Both (raised e) w h = h

  reconcile_listed-Both :
      (c : Cluster) (rows : List Deployment) (w : World)
      → c.deployments ≡ ok deps
      → Both Q w
      → Both Q (reconcile_listed c rows w).1
  unfolding reconcile_listed lift
  reconcile_listed-Both c rows w e h =
      rw (e, resume)
        (Keeps-bind (Both Q) (c.services, w) _ h
          λ svcs v h.
            Keeps-bind (Both Q) (routes_of c.routes v) _ (routes_of-Both c.routes v h) λ routes v h.
              Keeps-bind (Both Q) (reconcile_rows deps svcs routes c.turn rows v) _
                (reconcile_rows-Both svcs routes c.turn rows v h)
                λ _ v h.
                  Keeps-bind (Both Q) (remove_orphans rows c.removal deps v) _
                    (remove_orphans-Both rows c.removal deps v h)
                    λ _ v h. Both-same Q v _ refl refl h)

  pub reconcile_deployments-Both :
      (project_id : String) (c : Cluster) (w : World)
      → c.deployments ≡ ok deps
      → Both Q w
      → Both Q (reconcile_deployments project_id c w).1
  unfolding reconcile_deployments reconcile_selected
  reconcile_deployments-Both project_id c w e h =
      Keeps-bind (Both Q) (call c.select (λ v. v) w) _ (Keeps-call (Both Q) c.select (λ v. v) w h h)
        λ _ v h.
          Keeps-try (Both Q)
            (reconcile_listed c (deployments_of project_id v.working.deployments) v) _
            (reconcile_listed-Both c (deployments_of project_id v.working.deployments) v e h)
            (λ _ _ g. g)

-- Nothing is written where the listing fails.
pub unlisted-Both :
    (Q : Db → Type 0) (k : String) (c : Cluster) (x : Exn) (w : World)
    → c.deployments ≡ raised x
    → Both Q w
    → Both Q (reconcile_deployments k c w).1
unfolding reconcile_deployments reconcile_selected reconcile_listed lift
unlisted-Both Q k c x w e h =
    Keeps-bind (Both Q) (call c.select (λ v. v) w) _ (Keeps-call (Both Q) c.select (λ v. v) w h h)
      λ _ v h. rw (e, resume) h
