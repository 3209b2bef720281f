-- ===== src/Api/Auth/Tests.antt =====
-- A first sign-in with a token.
use deploy_hub.Prelude.{String, ◌≡◌, ap, ◌∙◌, true, none, some, [], ◌∷◌}
use deploy_hub.Action.{ok}
use deploy_hub.Dict.{lookup}
use deploy_hub.Api.World.{World}
use deploy_hub.Api.Auth.{GhUser, Reply, replied, Answers, get_current_user}
use deploy_hub.Api.Auth.Vouched.{Confirms, IsSound, Vouched, get_current_user-Vouched}

abbrev octocat : GhUser
octocat = record { id = "42"; email = none }

abbrev signed_in : Answers
signed_in = record {
  user = replied 200 (ok octocat);
  emails = replied 200 (ok (record { primary = true; email = some "cat@example.org" } ∷ []));
  connect = none;
  insert = none;
}

abbrev empty : World
empty = record {
  users = [];
  projects = [];
  members = [];
  deployments = [];
  audit_logs = [];
  stream = [];
  published = [];
}

abbrev IsOctocat : String → String → Type 0
IsOctocat token id = "42" ≡ id

id_in : Reply GhUser → String
id_in (replied s (ok g)) = g.id
id_in _ = ""

told : (id : String) → Confirms signed_in.user id → IsOctocat "tok" id
unfolding id_in
told id (g, h, e) = ap id_in h ∙ e

nothing_cached : IsSound (λ t. t) IsOctocat []
unfolding lookup
nothing_cached key i h = cc

get_current_user-Vouched_example :
    Vouched
      (λ t. t)
      IsOctocat
      "tok"
      (get_current_user (λ t. t) (λ d. d) true (some "tok") signed_in ([], empty))
get_current_user-Vouched_example =
    get_current_user-Vouched (λ t. t) IsOctocat (λ d. d) "tok" signed_in [] empty (λ k d i h. h)
      told nothing_cached
