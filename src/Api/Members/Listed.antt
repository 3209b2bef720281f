-- ===== src/Api/Members/Listed.antt =====
-- `list_project_members` of api/main.py, behind `verify_project_access`.
use mathlib.Core.List.{Perm}
use deploy_hub.Prelude.{
  ℕ, String, ◌==◌, eq_iff, ltb, if◌then◌else◌, Bool, true, false, Option, none, some, List, [], ◌∷◌,
  ◌≡◌, refl, inl, inr, All, select, map, arith, Bool-cases,
}
use deploy_hub.Action.{http_exception, Outcome, Result, ok, raised}
use deploy_hub.Ordered.{sort}
use deploy_hub.Ordered.Sorted.{sort-perm, All-sort}
use deploy_hub.Ordered.Top.{Falling, sort-Falling, All-passed}
use deploy_hub.Api.World.{Account, Member}
use deploy_hub.Api.Access.{User, find_user}
use deploy_hub.Api.Members.{may_manage}

-- A row of project_members, with its created_at.
abbrev pub Since : Type 0
Since = Member × ℕ

-- A row of the answer: the member and the account.
abbrev pub Row : Type 0
Row = Since × Account

abbrev pub with_account : Since → Option Account → List Row → List Row
with_account m none rest = rest
with_account m (some a) rest = (m, a) ∷ rest

-- `JOIN users u ON pm.user_id = u.id`.
unfoldable pub join_users : List Since → List Account → List Row
unfolding find_user
join_users [] accounts = []
join_users (m ∷ ms) accounts =
    with_account m (find_user m.0.user_id accounts) (join_users ms accounts)

abbrev pub is_member_of : String → Since → Bool
is_member_of k m = m.0.project_id == k

-- `ORDER BY pm.created_at ASC`.
abbrev pub earlier : Row → Row → Bool
earlier a b = ltb a.0.1 b.0.1

-- The caller's role is read from the same rows.
unfoldable pub list_project_members :
    Outcome → String → User → List Since → List Account → Result (List Row)
unfolding join_users sort
list_project_members (some e) k u ms accounts =
    raised (http_exception 500 "Failed to list project members")
list_project_members none k u ms accounts =
    if may_manage k u (map (λ m. m.0) ms)
    then ok (sort earlier (join_users (select (is_member_of k) ms) accounts))
    else raised (http_exception 403 "Only project owners can manage members")

irrefl : (a : Row) → earlier a a ≡ false
irrefl a = ground arith

trans : (a b c : Row) → earlier a b ≡ true → earlier b c ≡ true → earlier a c ≡ true
trans a b c h g = ground (arith, h, g)

-- The account of a member of the project.
abbrev IsAccountOf : String → List Account → Row → Type 0
IsAccountOf k accounts (m, a) = (m.0.project_id ≡ k) × (find_user m.0.user_id accounts ≡ some a)

with_account-IsAccountOf :
    (k : String) (accounts : List Account) (m : Since) (o : Option Account) (rest : List Row)
    → is_member_of k m ≡ true
    → find_user m.0.user_id accounts ≡ o
    → All (IsAccountOf k accounts) rest
    → All (IsAccountOf k accounts) (with_account m o rest)
with_account-IsAccountOf k accounts m none rest h e g = g
with_account-IsAccountOf k accounts m (some a) rest h e g = (((eq_iff m.0.project_id k).0 h, e), g)

join_users-IsAccountOf :
    (k : String) (accounts : List Account) (ms : List Since)
    → All (λ m. is_member_of k m ≡ true) ms
    → All (IsAccountOf k accounts) (join_users ms accounts)
unfolding join_users
join_users-IsAccountOf k accounts [] h = tt
join_users-IsAccountOf k accounts (m ∷ ms) h =
    with_account-IsAccountOf k accounts m (find_user m.0.user_id accounts) (join_users ms accounts)
      h.0 refl (join_users-IsAccountOf k accounts ms h.1)

-- The members of the project, each once with its account, the first to join first.
pub record MembersOf (k : String) (u : User) (ms : List Since) (accounts : List Account)
    (rows : List Row) : Type 0 where
  pub manager : may_manage k u (map (λ m. m.0) ms) ≡ true
  pub accounts_of : All (IsAccountOf k accounts) rows
  pub each_once : Perm rows (join_users (select (is_member_of k) ms) accounts)
  pub earliest_first : Falling earlier rows

-- The answer by what is found.
abbrev pub ListsMembers : String → User → List Since → List Account → Result (List Row) → Type 0
ListsMembers k u ms accounts (ok rows) = MembersOf k u ms accounts rows
ListsMembers k u ms accounts (raised e) =
    (n : ℕ) × (detail : String) × (e ≡ http_exception n detail)

-- Only an administrator or an owner of the project gets the list of its members. It has every member
-- that has an account, once, with that account, the first to join first. All else is answered with a
-- status.
pub list_project_members-ListsMembers :
    (o : Outcome) (k : String) (u : User) (ms : List Since) (accounts : List Account)
    → ListsMembers k u ms accounts (list_project_members o k u ms accounts)
unfolding list_project_members
list_project_members-ListsMembers (some e) k u ms accounts = (500, _, refl)
list_project_members-ListsMembers none k u ms accounts =
    elim (Bool-cases (may_manage k u (map (λ m. m.0) ms))) [
      | inl t ↦
          let joined = join_users (select (is_member_of k) ms) accounts in
          rw t (record {
            manager = t;
            accounts_of = All-sort earlier (IsAccountOf k accounts) joined (
                join_users-IsAccountOf k accounts (select (is_member_of k) ms)
                  (All-passed (is_member_of k) ms));
            each_once = sort-perm earlier joined;
            earliest_first = sort-Falling earlier irrefl trans joined;
          })
      | inr f ↦ rw f (403, _, refl)
    ]
