-- ===== src/Api/Branches/Listed.antt =====
-- The branches in what git writes.
use Prim.Native.String.{◌++◌ as append}
use text.Mathlib.TextLemmas.{cons-append, append_assoc}
use deploy_hub.Prelude.{
  String, true, false, some, List, [], ◌∷◌, map, All, ◌≡◌, refl, ap, ◌∙◌, arith,
}
use deploy_hub.Action.{ok}
use deploy_hub.Text.{truthy, has_code, split}
use deploy_hub.Text.Join.{split-append}
use deploy_hub.Api.RepoUrl.{all_codes, is_repo_url}
use deploy_hub.Api.Branches.{
  finished, is_space, strip_left, strip_right, words, ref_of, branches_in, get_github_branches,
}
use deploy_hub.Api.Branches.Words.{
  is_word, after_prefix-append, plain-append, no_newline, plain_no_newline, words_of_word,
  words-append, strip_word, truthy_right, truthy_left, strip_before, strip-append, split_one,
  strip_left_word,
}

-- A branch of a repository: a commit and a name.
abbrev pub Head : Type 0
Head = String × String

abbrev pub IsHead : Head → Type 0
IsHead (sha, name) = (is_word sha ≡ true) × (is_word name ≡ true)

abbrev pub ref_name : Head → String
ref_name (sha, name) = append "refs/heads/" name

-- A line of `git ls-remote`, and its output, each line with its end.
abbrev pub line_of : Head → String
line_of (sha, name) = append sha (String.◌∷◌ "\t" (append "refs/heads/" name))

abbrev pub output : List Head → String
output [] = String.[]
output (h ∷ hs) = append (line_of h) (String.◌∷◌ "\n" (output hs))

-- The lines, without the end of the last.
abbrev trimmed : Head → List Head → String
trimmed h [] = line_of h
trimmed h (g ∷ gs) = append (line_of h) (String.◌∷◌ "\n" (trimmed g gs))

is_word_ref : (h : Head) → IsHead h → is_word (ref_name h) ≡ true
unfolding all_codes is_space
is_word_ref (sha, name) (a, b) =
    let p = plain-append "refs/heads/" name refl (ground (arith, b)) in
    let t = truthy_left "refs/heads/" name refl in rw t p

line_truthy : (h : Head) → truthy (some (line_of h)) ≡ true
line_truthy (sha, name) = truthy_right sha _ refl

line_no_newline : (h : Head) → IsHead h → has_code 10 (line_of h) ≡ false
unfolding has_code
line_no_newline (sha, name) (a, b) =
    no_newline sha _ (ground (arith, a)) (
      plain_no_newline (append "refs/heads/" name) (ground (arith, is_word_ref (sha, name) (a, b))))

line_branch : (h : Head) → IsHead h → ref_of (words (line_of h)) ≡ some h.1
unfolding is_space
line_branch (sha, name) (a, b) =
    ap ref_of (
      words-append sha "\t" (append "refs/heads/" name) refl a
      ∙ ap (λ ws. sha ∷ ws)
          (words_of_word (append "refs/heads/" name) (is_word_ref (sha, name) (a, b))))
    ∙ after_prefix-append "refs/heads/" name

trimmed-truthy : (h : Head) (hs : List Head) → truthy (some (trimmed h hs)) ≡ true
trimmed-truthy h [] = line_truthy h
trimmed-truthy h (g ∷ gs) = truthy_right (line_of h) _ refl

strip_line : (h : Head) → IsHead h → strip_right (append (line_of h) "\n") ≡ line_of h
unfolding is_space
strip_line (sha, name) p =
    let ref = append "refs/heads/" name in
    ap strip_right (append_assoc sha (String.◌∷◌ "\t" ref) "\n")
    ∙ strip-append sha (append (String.◌∷◌ "\t" ref) "\n") (String.◌∷◌ "\t" ref)
        (ap strip_right (cons-append "\t" ref "\n")
          ∙ strip_before "\t" (append ref "\n") ref
              (strip_word ref "\n" refl (is_word_ref (sha, name) p))
              (ground (arith, is_word_ref (sha, name) p)))
        refl

strip-output :
    (h : Head) (hs : List Head) → All IsHead (h ∷ hs) → strip_right (output (h ∷ hs)) ≡ trimmed h hs
strip-output h [] (p, _) = strip_line h p
strip-output h (g ∷ gs) (p, ps) =
    strip-append (line_of h) (String.◌∷◌ "\n" (output (g ∷ gs))) (String.◌∷◌ "\n" (trimmed g gs))
      (strip_before "\n" (output (g ∷ gs)) (trimmed g gs) (strip-output g gs ps)
        (trimmed-truthy g gs))
      refl

-- One line after another.
branches-line :
    (h : Head) (ls : List String) → IsHead h → branches_in (line_of h ∷ ls) ≡ h.1 ∷ branches_in ls
unfolding branches_in
branches-line h ls p = rw (line_truthy h) (rw (line_branch h p) refl)

branches-trimmed :
    (h : Head) (hs : List Head)
    → All IsHead (h ∷ hs)
    → branches_in (split 10 (trimmed h hs)) ≡ map (λ g. g.1) (h ∷ hs)
unfolding branches_in
branches-trimmed h [] (p, _) =
    ap branches_in (split_one 10 (line_of h) (line_no_newline h p)) ∙ branches-line h [] p
branches-trimmed h (g ∷ gs) (p, ps) =
    ap branches_in (split-append 10 "\n" refl (line_of h) (trimmed g gs) (line_no_newline h p))
    ∙ (branches-line h (split 10 (trimmed g gs)) p ∙ ap (λ bs. h.1 ∷ bs) (branches-trimmed g gs ps))

branches-output :
    (hs : List Head)
    → All IsHead hs
    → branches_in (split 10 (strip_right (strip_left (output hs)))) ≡ map (λ g. g.1) hs
unfolding strip_left strip_right split branches_in
branches-output [] ps = refl
branches-output ((sha, name) ∷ hs) (p, ps) =
    ap (λ t. branches_in (split 10 (strip_right t)))
      (strip_left_word sha (String.◌∷◌ "\t" (append "refs/heads/" name))
        (String.◌∷◌ "\n" (output hs)) p.0)
    ∙ (ap (λ t. branches_in (split 10 t)) (strip-output (sha, name) hs (p, ps))
        ∙ branches-trimmed (sha, name) hs (p, ps))

-- For a URL that is accepted, and whatever `str.lower` and stderr are: the branches that git lists,
-- with commits and names that are words, are returned, all of them, in git's order.
pub get_github_branches-output :
    (lower : String → String) (url err : String) (hs : List Head)
    → is_repo_url url ≡ true
    → All IsHead hs
    → get_github_branches lower url (finished true (output hs) err) ≡ ok (map (λ h. h.1) hs)
unfolding get_github_branches
get_github_branches-output lower url err hs u ps = rw u (ap ok (branches-output hs ps))
