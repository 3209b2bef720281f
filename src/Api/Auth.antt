-- ===== src/Api/Auth.antt =====
-- `get_current_user` of api/auth.py: the caller's token is looked up in a cache, or GitHub is asked
-- for its user. The hash, GitHub and the eviction of TTLCache are parameters. A cache entry does not
-- expire between the test for it and its use.
pub mod Vouched
mod Tests
use deploy_hub.Prelude.{
  ℕ, String, if◌then◌else◌, Bool, true, false, ◌&&◌, ltb, not, Option, none, some, List, [], ◌∷◌,
}
use deploy_hub.Action.{
  Exn, http_exception, Outcome, Action, Result, ok, raised, resume, raise, ◌>>=◌,
}
use deploy_hub.Text.{truthy}
use deploy_hub.Dict.{Dict, lookup, assign}
use deploy_hub.Api.World.{World, Account}
use deploy_hub.Api.Access.{User, get_or_create_user}

-- `user_info`; the login is not used.
pub record UserInfo : Type 0 where
  pub id : String
  pub email : Option String

pub record GhUser : Type 0 where
  pub id : String  -- str(gh_user["id"])
  pub email : Option String

pub record GhEmail : Type 0 where
  pub primary : Bool
  pub email : Option String

-- What `httpx.get` answers: a status and the body as JSON, which may not parse. A user that parses has
-- an id and a login.
pub data Reply (A : Type 0) : Type 0 where
  replied : ℕ → Result A → Reply A
  request_error : Reply A

pub record Answers : Type 0 where
  pub user : Reply GhUser
  pub emails : Reply (List GhEmail)
  pub connect : Outcome
  pub insert : Outcome

-- `status_code == 200`.
unfoldable is_ok : ℕ → Bool
is_ok s = not (ltb s 200) && not (ltb 200 s)

auth_unavailable : Exn
auth_unavailable = http_exception 503 "Auth service unavailable"

-- The loop over the e-mail addresses, up to the first that is primary.
primary_email : List GhEmail → Option String
primary_email [] = none
primary_email (e ∷ es) = let rest = primary_email es in if e.primary then e.email else rest

-- `email or gh_user.get("email")`.
or_email : Option String → Option String → Option String
or_email e f = if truthy e then e else f

abbrev pub info_of : GhUser → Option String → UserInfo
unfolding or_email
info_of g e = record { id = g.id; email = or_email e g.email }

unfoldable with_list : GhUser → Result (List GhEmail) → Result UserInfo
unfolding info_of primary_email
with_list g (ok es) = ok (info_of g (primary_email es))
with_list g (raised e) = raised e

unfoldable with_emails : GhUser → Reply (List GhEmail) → Result UserInfo
unfolding is_ok with_list auth_unavailable info_of
with_emails g request_error = raised auth_unavailable
with_emails g (replied s es) = if is_ok s then with_list g es else ok (info_of g none)

unfoldable with_user : Result GhUser → Reply (List GhEmail) → Result UserInfo
unfolding with_emails
with_user (ok g) r = with_emails g r
with_user (raised e) r = raised e

-- "Verify token with GitHub".
verified : Reply GhUser → Reply (List GhEmail) → Result UserInfo
unfolding with_user is_ok auth_unavailable
verified request_error r = raised auth_unavailable
verified (replied s g) r =
    if is_ok s then with_user g r else raised (http_exception 401 "Invalid GitHub token")

-- The cache, by the hash of a token, and the database.
abbrev pub State : Type 0
State = Dict UserInfo × World

user_of : Account → User
user_of a = record { user_id = a.id; role = a.role }

-- The account of a user. The caller keeps the id that GitHub gave, with the role of the row.
unfoldable login : Answers → UserInfo → Action State User
login a i (c, w) =
    let (r, v) = get_or_create_user a.connect a.insert i.id i.email w in
    resume r (λ x s. (ok (record { user_id = i.id; role = x.role }), s)) (c, v)

-- Without GITHUB_ENABLED everyone is the local developer.
login_local : Answers → Action State User
unfolding user_of
login_local a (c, w) =
    let (r, v) =
      get_or_create_user a.connect a.insert "local-dev-user" (some "admin@shipzen.local") w in
    resume r (λ x s. (ok (user_of x), s)) (c, v)

unfoldable remember : String → Result UserInfo → Action State UserInfo
remember key (ok i) (c, w) = (ok i, (assign key i c, w))
remember key (raised e) s = (raised e, s)

-- From what the cache holds under the key.
unfoldable identify : String → Answers → Option UserInfo → Action State UserInfo
unfolding remember verified
identify key a (some i) s = (ok i, s)
identify key a none s = remember key (verified a.user a.emails) s

module _ (sha : String → String) (evict : Dict UserInfo → Dict UserInfo) where
  unfoldable with_token : String → Answers → Action State User
  unfolding identify login
  with_token token a (c, w) =
      (identify (sha token) a (lookup (sha token) (evict c)) >>= login a) (evict c, w)

  -- `token` is the one of the Authorization header, where there is one.
  unfoldable pub get_current_user : Bool → Option String → Answers → Action State User
  unfolding login_local with_token
  get_current_user false token a = login_local a
  get_current_user true none a = raise (http_exception 401 "Authorization header missing")
  get_current_user true (some token) a = with_token token a
