-- ===== src/Api/Access/Laws.antt =====
-- Who gets an account with which role, and who gets a project.
use deploy_hub.Prelude.{
  String, ◌≡◌, ◌≢◌, ◌↔◌, ◌⊎◌, true, false, Option, none, some, List, [], ◌∷◌, arith,
}
use deploy_hub.Action.{Outcome, Result, ok, raised}
use deploy_hub.Schema.{Project}
use deploy_hub.Api.World.{World, admin, Account, settle, role_in}
use deploy_hub.Api.Access.{
  User, is_admin, find_user, get_or_create_user, known_or_new, create_user, first_role,
  live_project, verify_project_access, granted, joined, no_access,
}

-- While the database answers: a project is handed out exactly if it is the one that is found, and
-- the caller is an administrator or has a row among its members.
pub verify_project_access_live :
    (k : String) (u : User) (w : World) (p : Project)
    → ((verify_project_access none k u w ≡ (ok p, w)) ↔ (
        (live_project k w.projects ≡ some p)
        × ((is_admin u ≡ true) ⊎ (role_in k u.user_id w.members ≢ none))))
unfolding verify_project_access granted joined
verify_project_access_live k u w p = ground arith

-- Whoever is let in is so for a reason.
pub verify_project_access_opens :
    (o : Outcome) (k : String) (u : User) (w : World) (p : Project)
    → (verify_project_access o k u w).0 ≡ ok p
    → (live_project k w.projects ≡ some p)
      × ((is_admin u ≡ true) ⊎ (role_in k u.user_id w.members ≢ none))
unfolding verify_project_access granted joined
verify_project_access_opens o k u w p h = ground (arith, h)

-- No other is let in.
pub verify_project_access_closed :
    (k : String) (u : User) (w : World)
    → is_admin u ≡ false
    → role_in k u.user_id w.members ≡ none
    → verify_project_access none k u w ≡ (raised no_access, w)
unfolding verify_project_access granted joined
verify_project_access_closed k u w a r = ground (arith, a, r)

first_role-admin : (us : List Account) → (first_role us ≡ admin) ↔ (us ≡ [])
unfolding first_role
first_role-admin [] = ground arith
first_role-admin (a ∷ us) = ground arith

-- What an account that was known, or was not, is turned into.
abbrev Given : Option Account → String → World → Account → Result Account × World → Type 0
Given found k w a p =
    (found ≡ some a)
    ⊎ ((found ≡ none)
        × (p.1.users ≡ a ∷ w.users)
        × (a.id ≡ k)
        × ((a.role ≡ admin) ↔ (w.users ≡ [])))

account_stage :
    (insert : Outcome) (found : Option Account) (k : String) (email : Option String) (w : World)
    (a : Account)
    → (settle w (known_or_new insert found k email w)).0 ≡ ok a
    → Given found k w a (settle w (known_or_new insert found k email w))
unfolding known_or_new create_user
account_stage insert (some b) k email w a h = ground arith
account_stage (some e) none k email w a h = ground arith
account_stage none none k email w a h = ground (arith, first_role-admin w.users)

-- The account of an id that is known is returned as it is; otherwise one is created, as an
-- administrator exactly if it is the first.
get_or_create_user_role :
    (insert : Outcome) (k : String) (email : Option String) (w : World) (a : Account)
    → (get_or_create_user none insert k email w).0 ≡ ok a
    → (find_user k w.users ≡ some a)
      ⊎ ((find_user k w.users ≡ none)
          × ((get_or_create_user none insert k email w).1.users ≡ a ∷ w.users)
          × (a.id ≡ k)
          × ((a.role ≡ admin) ↔ (w.users ≡ [])))
unfolding get_or_create_user
get_or_create_user_role insert k email w a h =
    account_stage insert (find_user k w.users) k email w a h
