-- ===== src/Api/Branches/Tests.antt =====
-- Two branches of a repository.
use deploy_hub.Prelude.{◌≡◌, refl, true, List, [], ◌∷◌}
use deploy_hub.Action.{ok}
use deploy_hub.Api.RepoUrl.{is_repo_url, all_codes}
use deploy_hub.Api.Branches.{finished, is_space, get_github_branches}
use deploy_hub.Api.Branches.Listed.{Head, output, get_github_branches-output}

abbrev heads : List Head
heads = ("4a5b", "main") ∷ ("9c0d", "feature/login") ∷ []

get_github_branches-output_example :
    get_github_branches (λ s. s) "https://github.com/acme/shop" (finished true (output heads) "")
    ≡ ok ("main" ∷ "feature/login" ∷ [])
get_github_branches-output_example =
    get_github_branches-output (λ s. s) "https://github.com/acme/shop" "" heads
      (unfold is_repo_url in refl)
      (
        (unfold all_codes is_space in refl, unfold all_codes is_space in refl),
        ((unfold all_codes is_space in refl, unfold all_codes is_space in refl), tt),
      )
