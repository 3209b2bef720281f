-- ===== src/Api/RepoUrl/Tests.antt =====
-- URLs that are accepted, and some that are not.
use deploy_hub.Prelude.{◌≡◌, refl, true, false}
use deploy_hub.Text.{has_code}
use deploy_hub.Api.RepoUrl.{is_repo_url, before_newline}
use deploy_hub.Api.RepoUrl.Safe.{is_repo_url-ShellSafe}

accepts_https : is_repo_url "https://github.com/acme/shop" ≡ true
unfolding is_repo_url
accepts_https = refl

accepts_ssh : is_repo_url "git@github.com:acme/shop.git" ≡ true
unfolding is_repo_url
accepts_ssh = refl

refuses_ssh_without_suffix : is_repo_url "git@github.com:acme/shop" ≡ false
unfolding is_repo_url
refuses_ssh_without_suffix = refl

refuses_command : is_repo_url "https://github.com/acme/shop;reboot" ≡ false
unfolding is_repo_url
refuses_command = refl

is_repo_url-ShellSafe_example :
    has_code b';' (before_newline "git@github.com:acme/shop.git") ≡ false
is_repo_url-ShellSafe_example =
    is_repo_url-ShellSafe "git@github.com:acme/shop.git" b';' accepts_ssh refl
