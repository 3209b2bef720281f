-- ===== src/Api/Access.antt =====
-- api/auth.py's User and api/database.py: accounts and the access to a project.
pub mod Laws
pub mod Exact
use deploy_hub.Prelude.{
  ℕ, String, ◌==◌, if◌then◌else◌, Bool, true, false, ◌&&◌, Option, none, some, List, [], ◌∷◌,
}
use deploy_hub.Action.{
  Exn, http_exception, Outcome, Action, Result, ok, raised, pure, raise, ◌>>◌, call,
}
use deploy_hub.Schema.{Project}
use deploy_hub.Api.World.{
  World, Role, admin, user, Account, Member, MemberRole, transaction, role_in,
}

-- `User`.
pub record User : Type 0 where
  pub user_id : String
  pub role : Role

abbrev pub is_admin : User → Bool
is_admin u = elim u.role [ admin ↦ true | user ↦ false ]

unfoldable pub find_user : String → List Account → Option Account
find_user k [] = none
find_user k (a ∷ as') = if a.id == k then some a else find_user k as'

first_role : List Account → Role
first_role [] = admin
first_role (a ∷ as') = user

create_user : String → Option String → Action World Account
unfolding first_role
create_user k email w =
    let a : Account = record { id = k; email = email; role = first_role w.users } in
    (ok a, record w { users = a ∷ w.users })

known_or_new : Outcome → Option Account → String → Option String → Action World Account
unfolding create_user
known_or_new insert (some a) k email = pure a
known_or_new insert none k email = call insert (λ w. w) >> create_user k email

-- `get_or_create_user`, run alone: the row of another request cannot come in between.
unfoldable pub get_or_create_user :
    Outcome → Outcome → String → Option String → Action World Account
unfolding known_or_new find_user
get_or_create_user o insert k email =
    transaction o (λ w. known_or_new insert (find_user k w.users) k email w)

abbrev pub is_live : Option ℕ → Bool
is_live none = true
is_live (some t) = false

-- `SELECT * FROM projects WHERE id = %s AND deleted_at IS NULL`.
unfoldable pub live_project : String → List Project → Option Project
live_project k [] = none
live_project k (p ∷ ps) = if p.id == k && is_live p.deleted_at then some p else live_project k ps

granted : Option Project → Exn → Action World Project
granted none e = raise e
granted (some p) e = pure p

abbrev pub not_found : Exn
not_found = http_exception 404 "Project not found"

abbrev pub no_access : Exn
no_access = http_exception 403 "You do not have access to this project"

-- The join with project_members: a row for the caller must be there.
joined : Option MemberRole → Option Project → Option Project
joined none p = none
joined (some r) p = p

-- `verify_project_access`.
unfoldable pub verify_project_access : Outcome → String → User → Action World Project
unfolding granted joined live_project role_in
verify_project_access o k u = transaction o (λ w.
    if is_admin u
    then granted (live_project k w.projects) not_found w
    else granted (joined (role_in k u.user_id w.members) (live_project k w.projects)) no_access w)
