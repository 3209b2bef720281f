-- ===== src/Api/Members/Invited.antt =====
-- What an invitation changes.
use deploy_hub.Prelude.{String, eq_refl, ◌≡◌, refl, true, Option, none, some, ◌∷◌, arith}
use deploy_hub.Action.{Outcome, ok}
use deploy_hub.Api.World.{World, Account, MemberRole, role_in}
use deploy_hub.Api.Access.{User}
use deploy_hub.Api.Members.{
  may_manage, require_owner, find_email, add_member, insert_member, invite, add_project_member,
}

role_in-add :
    (k t : String) (r : MemberRole) (w : World) → role_in k t (add_member k t r w).members ≡ some r
unfolding role_in
role_in-add k t r w = rw (eq_refl k) (rw (eq_refl t) refl)

-- The account was no member of the project, and is one with the role.
abbrev pub Joined : String → MemberRole → Account → World → World → Type 0
Joined k r a w v =
    (role_in k a.id w.members ≡ none)
    × (v.members ≡ record { project_id = k; user_id = a.id; role = r } ∷ w.members)
    × (role_in k a.id v.members ≡ some r)

invite_stage :
    (k : String) (r : MemberRole) (o : Outcome) (found : Option Account) (w : World) (a : Account)
    → (invite k r o found w).0 ≡ ok a
    → (found ≡ some a) × Joined k r a w (invite k r o found w).1
unfolding invite insert_member
invite_stage k r o none w a h = ground (arith, h)
invite_stage k r o (some b) w a h = ground (arith, h, role_in-add k b.id r w)

-- If `add_project_member` returns an account, the caller is an administrator or an owner of the
-- project, the account is that of the address, it was no member of the project, and now it is one
-- with the role asked for, by one new row.
pub add_project_member-Joined :
    (k email : String) (r : MemberRole) (u : User) (connect insert : Outcome) (w : World)
    (a : Account)
    → (add_project_member k email r u connect insert w).0 ≡ ok a
    → (may_manage k u w.members ≡ true)
      × (find_email email w.users ≡ some a)
      × Joined k r a w (add_project_member k email r u connect insert w).1
unfolding add_project_member require_owner
add_project_member-Joined k email r u connect insert w a h =
    ground (arith, h, invite_stage k r insert (find_email email w.users) w a)
