-- ===== src/Api/Admin/Roles.antt =====
-- Who changes whose role.
use deploy_hub.Prelude.{
  String, ◌==◌, eq_iff, ◌≡◌, ◌≢◌, refl, sym, ap, ◌∙◌, inl, inr, true, Option, none, some, List, [],
  ◌∷◌, if◌then◌else◌, arith, Bool-cases, Option-cases,
}
use deploy_hub.Action.{
  Exn, operational_error, unique_violation, database_error, api_exception, name_error,
  http_exception, exception, Outcome, Result, ok, raised, handle, resume,
}
use deploy_hub.Api.World.{World, Role, Account, settle, log_audit_event}
use deploy_hub.Api.Access.{User, is_admin, find_user}
use deploy_hub.Api.Admin.{
  role_named, update_users, with_role, change_role, return_id, role_failed, role_event,
  update_user_role,
}

-- The account of an id has this role instead, and no other account changes.
abbrev pub with_new_role : Role → Option Account → Option Account
with_new_role r none = none
with_new_role r (some a) = some (record a { role = r })

find-update_users :
    (k j : String) (r : Role) (as' : List Account)
    → find_user j (update_users k r as')
      ≡ (if k == j then with_new_role r (find_user j as') else find_user j as')
unfolding find_user update_users
find-update_users k j r [] = ground arith
find-update_users k j r (a ∷ as') =
    ground (arith, find-update_users k j r as', eq_iff k j, eq_iff a.id k, eq_iff a.id j)

-- An administrator gave an existing account the role, and no other account changed.
pub record Changed (k role : String) (u : User) (w v : World) : Type 0 where
  pub by_admin : is_admin u ≡ true
  pub new_role : Role
  pub named : role_named role ≡ some new_role
  pub known : find_user k w.users ≢ none
  pub users :
      (j : String)
      → find_user j v.users
        ≡ (if k == j then with_new_role new_role (find_user j w.users) else find_user j w.users)

failed_stage : (e : Exn) (w : World) → (x : Exn) × (role_failed e w ≡ (raised x, w))
unfolding role_failed
failed_stage (http_exception n s) w = (_, refl)
failed_stage (operational_error s) w = (_, refl)
failed_stage (unique_violation s) w = (_, refl)
failed_stage (database_error s) w = (_, refl)
failed_stage (api_exception n s) w = (_, refl)
failed_stage (name_error s) w = (_, refl)
failed_stage (exception s) w = (_, refl)

-- What follows the block of the connection.
abbrev after : Outcome → String → User → Result (Unit {0}) × World → Result (Unit {0}) × World
after audit k u p =
    let q = handle p.0 role_failed p.1 in
    resume q.0 (λ _. log_audit_event audit (role_event k u)) q.1

after-ok :
    (audit : Outcome) (k : String) (u : User) (p : Result (Unit {0}) × World)
    → (after audit k u p).0 ≡ ok tt
    → (p.0 ≡ ok tt) × ((after audit k u p).1.users ≡ p.1.users)
unfolding log_audit_event
after-ok none k u (ok _, v) h = (refl, refl)
after-ok (some e) k u (ok _, v) h = (refl, refl)
after-ok audit k u (raised e, v) h =
    let (x, q) = failed_stage e v in
    let bad : raised x ≡ ok tt =
      sym (
        ap (λ z. (resume {B = Unit {0}} z.0 (λ _. log_audit_event audit (role_event k u)) z.1).0) q)
      ∙ h in
    cc

-- The UPDATE and its commit, once the connection is there.
block_stage :
    (o : Option Account) (commit : Outcome) (w v : World)
    → (settle w (return_id o commit v)).0 ≡ ok tt
    → (o ≢ none) × ((settle w (return_id o commit v)).1 ≡ v)
unfolding return_id
block_stage none commit w v h = cc
block_stage (some a) none w v h = (λ e. cc, refl)
block_stage (some a) (some e) w v h = cc

change_stage :
    (k : String) (r : Role) (u : User) (connect commit audit : Outcome) (w : World)
    → (change_role k r u connect commit audit w).0 ≡ ok tt
    → (find_user k w.users ≢ none)
      × ((change_role k r u connect commit audit w).1.users ≡ update_users k r w.users)
unfolding change_role
change_stage k r u (some e) commit audit w h = let (q, _) = after-ok audit k u (raised e, w) h in cc
change_stage k r u none commit audit w h =
    let v : World = record w { users = update_users k r w.users } in
    let (q, e) = after-ok audit k u (settle w (return_id (find_user k w.users) commit v)) h in
    let (f, s) = block_stage (find_user k w.users) commit w v q in (f, e ∙ ap (λ x. x.users) s)

after-raised :
    (audit : Outcome) (k : String) (u : User) (p : Result (Unit {0}) × World) (x : Exn) (w : World)
    → (p.0 ≢ ok tt → p.1 ≡ w)
    → (after audit k u p).0 ≡ raised x
    → (after audit k u p).1 ≡ w
unfolding log_audit_event
after-raised none k u (ok _, v) x w f h = cc
after-raised (some e) k u (ok _, v) x w f h = cc
after-raised audit k u (raised e, v) x w f h =
    let (y, q) = failed_stage e v in
    ap (λ z. (resume {B = Unit {0}} z.0 (λ _. log_audit_event audit (role_event k u)) z.1).1) q
    ∙ f (λ b. cc)

-- A block that does not return leaves the state as it was.
block_undone :
    (o : Option Account) (commit : Outcome) (w v : World)
    → (settle w (return_id o commit v)).0 ≢ ok tt
    → (settle w (return_id o commit v)).1 ≡ w
unfolding return_id
block_undone none commit w v h = refl
block_undone (some a) none w v h = elim (h refl) [ ]
block_undone (some a) (some e) w v h = refl

change_undone :
    (k : String) (r : Role) (u : User) (connect commit audit : Outcome) (w : World) (x : Exn)
    → (change_role k r u connect commit audit w).0 ≡ raised x
    → (change_role k r u connect commit audit w).1 ≡ w
unfolding change_role
change_undone k r u (some e) commit audit w x h =
    after-raised audit k u (raised e, w) x w (λ _. refl) h
change_undone k r u none commit audit w x h =
    let v : World = record w { users = update_users k r w.users } in
    after-raised audit k u (settle w (return_id (find_user k w.users) commit v)) x w
      (block_undone (find_user k w.users) commit w v) h

-- What a request leaves behind: the change, or, if it fails, everything as it was.
abbrev pub ChangedOrUndone : String → String → User → World → Result (Unit {0}) × World → Type 0
ChangedOrUndone k role u w (ok _, v) = Changed k role u w v
ChangedOrUndone k role u w (raised x, v) = v ≡ w

by_result :
    (k role : String) (u : User) (w : World) (p : Result (Unit {0}) × World)
    → (p.0 ≡ ok tt → Changed k role u w p.1)
    → ((x : Exn) → p.0 ≡ raised x → p.1 ≡ w)
    → ChangedOrUndone k role u w p
by_result k role u w (ok _, v) f g = f refl
by_result k role u w (raised x, v) f g = g x refl

-- A role is changed by an administrator only, to one of the two roles, and only that of an account
-- that is there: no other account changes. A request that fails changes nothing.
pub update_user_role-Changed :
    (k role : String) (u : User) (connect commit audit : Outcome) (w : World)
    → ChangedOrUndone k role u w (update_user_role k role u connect commit audit w)
unfolding update_user_role with_role
update_user_role-Changed k role u connect commit audit w = elim (Bool-cases (is_admin u)) [
  | inl a ↦ elim (Option-cases (role_named role)) [
    | inl n ↦ rw a (rw n refl)
    | inr (r, n) ↦ rw a (
        rw n (
          by_result k role u w (change_role k r u connect commit audit w)
            (λ h.
              let (f, q) = change_stage k r u connect commit audit w h in
              record {
                by_admin = a;
                new_role = r;
                named = n;
                known = f;
                users = λ j. ap (find_user j) q ∙ find-update_users k j r w.users;
              })
            (change_undone k r u connect commit audit w)))
  ]
  | inr a ↦ rw a refl
]
