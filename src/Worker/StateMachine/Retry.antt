-- ===== src/Worker/StateMachine/Retry.antt =====
-- What `update_state` and `get_deployment` promise whatever the database answers.
use deploy_hub.Prelude.{
  ℕ, String, ◌==◌, if◌then◌else◌, ◌≡◌, refl, ap, ◌∙◌, ◌⊎◌, inl, inr, Option, none, some, arith, ◌∷◌,
}
use deploy_hub.Action.{
  Outcome, operational_error, Result, ok, raised, pure, ◌>>◌, resume, handle, call, attempt,
}
use deploy_hub.Schema.{State, Deployment, update_deployment, select_deployment}
use deploy_hub.Schema.Rows.{map_row, select-update}
use deploy_hub.Worker.World.{World, Conn, issue, publish_status, absent}
use deploy_hub.Worker.StateMachine.{
  Attempt, set_state, set_conn, update_state, update_once, get_deployment, get_once, get_conn,
  retry,
}

-- A connection is opened or not; nothing else changes.
pub record SameData (v w : World) : Type 0 where
  pub deployments : v.deployments ≡ w.deployments
  pub builds : v.builds ≡ w.builds
  pub issued : v.issued ≡ w.issued

get_conn-SameData : (a : Attempt) (w : World) → SameData (get_conn a w).1 w
unfolding get_conn
get_conn-SameData a w = ground arith

pub SameData-set_conn : (c : Conn) (v w : World) → SameData v w → SameData (set_conn c v) w
SameData-set_conn c v w h = record {
  deployments = h.deployments;
  builds = h.builds;
  issued = h.issued;
}

-- How an update ends: the row is written, and its status is published or not; or an exception is
-- raised and nothing is written.
abbrev pub Written : String → State → Option String → World → Result (Unit {0}) × World → Type 0
Written k s e w (ok _, v) =
    (now : ℕ) × (v.deployments ≡ update_deployment k (set_state s e now) w.deployments)
    × (v.builds ≡ w.builds)
    × ((v.issued ≡ w.issued) ⊎ (v.issued ≡ publish_status k s e ∷ w.issued))
Written k s e w (raised x, v) = SameData v w

module _ (k : String) (s : State) (e : Option String) (w : World) where
  -- The part of `update_once` behind `_get_conn`.
  write_stage :
      (r : Result (Unit {0})) (t : World) (execute publish : Outcome) (now : ℕ)
      → SameData t w
      → Written k s e w (
          resume r
            (λ _.
              call execute (λ v. record v {
                deployments = update_deployment k (set_state s e now) v.deployments;
              })
              >> attempt (call publish (issue (publish_status k s e))))
            t)
  write_stage (raised x) t execute publish now h = h
  write_stage (ok _) t (some x) publish now h = h
  write_stage (ok _) t none none now h = (
    now,
    ap (update_deployment k (set_state s e now)) h.deployments,
    h.builds,
    inr (ap (λ l. publish_status k s e ∷ l) h.issued),
  )
  write_stage (ok _) t none (some x) now h =
      (now, ap (update_deployment k (set_state s e now)) h.deployments, h.builds, inl h.issued)

  update_once-Written : (a : Attempt) → Written k s e w (update_once k s e a w)
  unfolding update_once
  update_once-Written a =
      write_stage (get_conn a w).0 (get_conn a w).1 a.execute a.publish a.now
        (get_conn-SameData a w)

SameData-trans : {u v w : World} → SameData u v → SameData v w → SameData u w
SameData-trans p q = record {
  deployments = p.deployments ∙ q.deployments;
  builds = p.builds ∙ q.builds;
  issued = p.issued ∙ q.issued;
}

-- The start of an update may be replaced by a world with the same data.
Written-SameData :
    (k : String) (s : State) (e : Option String) (w t : World) (p : Result (Unit {0}) × World)
    → SameData t w
    → Written k s e t p
    → Written k s e w p
Written-SameData k s e w t (raised x, v) h r = SameData-trans r h
Written-SameData k s e w t (ok _, v) h (now, d, b, i) = (
  now,
  d ∙ ap (update_deployment k (set_state s e now)) h.deployments,
  b ∙ h.builds,
  ground arith,
)

module _ (k : String) (s : State) (e : Option String) (w : World) where
  retry_stage :
      (p : Result (Unit {0}) × World) (second : Attempt)
      → Written k s e w p
      → Written k s e w (handle p.0 (retry (update_once k s e second)) p.1)
  retry_stage (ok _, v) second h = h
  retry_stage (raised (operational_error x), v) second h =
      Written-SameData k s e w (set_conn absent v) _ (SameData-set_conn absent v w h)
        (update_once-Written k s e (set_conn absent v) second)
  retry_stage (raised x, v) second h = h

  pub update_state-Written :
      (attempts : ℕ → Attempt) → Written k s e w (update_state k s e attempts w)
  unfolding update_state
  update_state-Written attempts =
      retry_stage (update_once k s e (attempts 0) w) (attempts 1)
        (update_once-Written k s e w (attempts 0))

-- What the rows are after an update of `k`, by its result.
abbrev pub Rows : String → State → Option String → World → Result (Unit {0}) × World → Type 0
Rows k s e w (ok _, v) =
    (now : ℕ) × ((j : String)
      → select_deployment j v.deployments ≡ (
          if k == j
          then map_row (set_state s e now) (select_deployment j w.deployments)
          else select_deployment j w.deployments))
Rows k s e w (raised x, v) = v.deployments ≡ w.deployments

Written-Rows :
    (k : String) (s : State) (e : Option String) (w : World) (p : Result (Unit {0}) × World)
    → Written k s e w p
    → Rows k s e w p
Written-Rows k s e w (raised x, v) h = h.deployments
Written-Rows k s e w (ok _, v) (now, d, b, i) =
    (now, λ j. rw d (select-update k j (set_state s e now) w.deployments (λ _. refl)))

pub update_state-Rows :
    (k : String) (s : State) (e : Option String) (attempts : ℕ → Attempt) (w : World)
    → Rows k s e w (update_state k s e attempts w)
update_state-Rows k s e attempts w =
    Written-Rows k s e w (update_state k s e attempts w) (update_state-Written k s e w attempts)

-- A connection that drops in the first attempt is survived: if the second attempt connects and
-- writes, `update_state` returns.
update_state_survives_drop :
    (k : String) (s : State) (e : Option String) (attempts : ℕ → Attempt) (w : World) (x : String)
    → (update_once k s e (attempts 0) w).0 ≡ raised (operational_error x)
    → (attempts 1).connect ≡ none
    → (attempts 1).execute ≡ none
    → (update_state k s e attempts w).0 ≡ ok tt
unfolding update_state
update_state_survives_drop k s e attempts w x h c q =
    rw h (second (update_once k s e (attempts 0) w).1)
  where
    second : (v : World) → (update_once k s e (attempts 1) (set_conn absent v)).0 ≡ ok tt
    second v = unfold update_once in ground arith

-- What a read of one row may answer: it changes no data, and returns the row that is stored.
abbrev pub Read : String → World → Result (Option Deployment) × World → Type 0
Read k w (ok d, v) = (d ≡ select_deployment k w.deployments) × SameData v w
Read k w (raised x, v) = SameData v w

module _ (k : String) (w : World) where
  resume-Read :
      (r : Result (Unit {0})) (t : World) (execute : Outcome)
      → SameData t w
      → Read k w (
          resume r
            (λ _. call execute (λ v. v) >> λ v. pure (select_deployment k v.deployments) v)
            t)
  resume-Read (raised x) t execute h = h
  resume-Read (ok _) t (some x) h = h
  resume-Read (ok _) t none h = (ap (select_deployment k) h.deployments, h)

  get_once-Read : (a : Attempt) → Read k w (get_once k a w)
  unfolding get_once
  get_once-Read a = resume-Read (get_conn a w).0 (get_conn a w).1 a.execute (get_conn-SameData a w)

Read-SameData :
    (k : String) (w t : World) (p : Result (Option Deployment) × World)
    → SameData t w
    → Read k t p
    → Read k w p
Read-SameData k w t (raised x, v) h r = SameData-trans r h
Read-SameData k w t (ok d, v) h (e, r) =
    (e ∙ ap (select_deployment k) h.deployments, SameData-trans r h)

reread_stage :
    (k : String) (w : World) (p : Result (Option Deployment) × World) (second : Attempt)
    → Read k w p
    → Read k w (handle p.0 (retry (get_once k second)) p.1)
reread_stage k w (ok d, v) second h = h
reread_stage k w (raised (operational_error x), v) second h =
    Read-SameData k w (set_conn absent v) _ (SameData-set_conn absent v w h)
      (get_once-Read k (set_conn absent v) second)
reread_stage k w (raised x, v) second h = h

-- `get_deployment` returns the stored row of the id, or `none` where there is none, and changes
-- nothing but its connection, whatever the database answers.
pub get_deployment-Read :
    (k : String) (attempts : ℕ → Attempt) (w : World) → Read k w (get_deployment k attempts w)
unfolding get_deployment
get_deployment-Read k attempts w =
    reread_stage k w (get_once k (attempts 0) w) (attempts 1) (get_once-Read k w (attempts 0))
