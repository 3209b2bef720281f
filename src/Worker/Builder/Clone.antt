-- ===== src/Worker/Builder/Clone.antt =====
-- What the first container of a job runs.
pub mod Words
use deploy_hub.Worker.Builder.Clone.Words.{
  is_special, is_safe_word, clone_words, same_special, clone_command-words,
}
use Prim.Native.Char.{Char, code}
use Prim.Native.String.{◌++◌ as append}
use text.Mathlib.TextLemmas as Text
use text.Mathlib.TextLemmas.{nil-append, cons-append}
use deploy_hub.Prelude.{
  ℕ, String, Bool, true, false, ◌&&◌, ◌||◌, not, Option, none, some, List, [], ◌∷◌, ◌++◌, ◌≡◌, refl,
  sym, ap, ◌∙◌, arith, contains, eq_refl, subst, Bool-cases, inl, inr,
}
use deploy_hub.Text.{same_code, truthy, has_code, before_first, split, join}
use deploy_hub.Text.Split.{append-one}
use deploy_hub.Text.Join.{split-append}
use deploy_hub.Api.RepoUrl.{all_codes, is_repo_url, is_url_code, before_newline}
use deploy_hub.Api.RepoUrl.Safe.{is_shell_code, is_repo_url-url_codes, not_in}
use deploy_hub.Api.Branches.{is_space, words}
use deploy_hub.Api.Branches.Words.{is_word, words-append, words_of_word, split_one}
use deploy_hub.Json.{Json, string, arr, obj, Key, index, at, string_in, list_in, list_of}
use deploy_hub.Json as Json
use deploy_hub.Worker.Builder.{
  Builder, dockerfile_builder, railpack_builder, buildpack_builder, Registry, Overrides,
  generate_job_manifest, clone_command, setup_script, server_script,
}
use deploy_hub.Worker.Builder.Choice.{pod, IsJobFor, generate-IsJobFor}

-- The command of the job's first container, with its arguments.
unfoldable pub init_argv : Json → List Json
unfolding at list_in list_of
init_argv m =
    list_of (list_in (at (pod (Json.name "initContainers" ∷ index 0 ∷ Json.name "command" ∷ [])) m))
    ++ list_of (list_in (at (pod (Json.name "initContainers" ∷ index 0 ∷ Json.name "args" ∷ [])) m))

-- The first container runs a script of which one line, `line`, is the command that clones.
pub record Clones (b r : String) (m : Json) : Type 0 where
  pub script : String
  pub line : String
  pub argv : init_argv m ≡ string "sh" ∷ string "-c" ∷ string script ∷ []
  pub found : contains line (split b'\n' script) ≡ true
  pub split_words : words line ≡ clone_words b r
  pub plain : all_codes (λ c. not (is_special c)) line ≡ true

-- The script is the command alone, or the command is its second line.
line_alone : (line : String) → has_code 10 line ≡ false → contains line (split b'\n' line) ≡ true
line_alone line h = rw (split_one b'\n' line h) (ground (arith, eq_refl line))

split_line :
    (line t : String)
    → has_code 10 line ≡ false
    → split b'\n' (append line (append "\n" t)) ≡ line ∷ split b'\n' t
split_line line t h =
    ap (split b'\n') (append-one "\n" line t) ∙ split-append b'\n' "\n" refl line t h

line_second :
    (line t : String)
    → has_code 10 line ≡ false
    → contains line (split b'\n' (append "\n" (append line (append "\n" t)))) ≡ true
line_second line t h =
    let first =
      ap (split b'\n') (sym (nil-append (append "\n" (append line (append "\n" t)))))
      ∙ split_line "" (append line (append "\n" t)) (unfold has_code in refl) in
    rw first (rw (split_line line t h) (ground (arith, eq_refl line)))

setup_line :
    (b r : String) (o : Overrides)
    → has_code 10 (clone_command b r) ≡ false
    → contains (clone_command b r) (split b'\n' (setup_script b r o)) ≡ true
unfolding setup_script
setup_line b r o h =
    let line = clone_command b r in
    let plain = line_second line "cd /workspace\n" h in
    elim (Bool-cases o.inject_server_js) [
      | inl e ↦ rw e (
          rw (regroup_line line server_script)
            (line_second line (append "cd /workspace\n" server_script) h))
      | inr e ↦ rw e plain
    ]
  where
    regroup_line :
        (line t : String)
        → append (append "\n" (append line (append "\n" "cd /workspace\n"))) t
          ≡ append "\n" (append line (append "\n" (append "cd /workspace\n" t)))
    regroup_line line t = simp (Text.append_assoc)

command_newline :
    (b r : String)
    → all_codes (λ c. not (is_special c)) (clone_command b r) ≡ true
    → has_code 10 (clone_command b r) ≡ false
command_newline b r h = not_in (λ c. not (is_special c)) same_special 10 (clone_command b r) refl h

buildpack-Clones :
    (reg : Registry) (d r b i : String) (o : Overrides)
    → is_safe_word b ≡ true
    → is_repo_url r ≡ true
    → has_code b'\n' r ≡ false
    → Clones b r (generate_job_manifest buildpack_builder reg d r b i o)
unfolding generate_job_manifest init_argv arr obj
buildpack-Clones reg d r b i o hb hr n =
    let (ws, p) = clone_command-words b r hb hr n in
    record {
      script = setup_script b r o;
      line = clone_command b r;
      argv = refl;
      found = setup_line b r o (command_newline b r p);
      split_words = ws;
      plain = p;
    }

generated-Clones :
    (kind : Builder) (reg : Registry) (d r b i : String) (o : Overrides)
    → is_safe_word b ≡ true
    → is_repo_url r ≡ true
    → has_code b'\n' r ≡ false
    → Clones b r (generate_job_manifest kind reg d r b i o)
unfolding generate_job_manifest init_argv arr obj
generated-Clones dockerfile_builder reg d r b i o hb hr n =
    let (ws, p) = clone_command-words b r hb hr n in
    record {
      script = clone_command b r;
      line = clone_command b r;
      argv = refl;
      found = line_alone (clone_command b r) (command_newline b r p);
      split_words = ws;
      plain = p;
    }
generated-Clones railpack_builder reg d r b i o hb hr n = buildpack-Clones reg d r b i o hb hr n
generated-Clones buildpack_builder reg d r b i o hb hr n = buildpack-Clones reg d r b i o hb hr n

-- Whatever the builder, for a branch that a shell reads as one word and an accepted URL without a
-- newline: the job is named after the first eight characters of the deployment's id and labelled with
-- the whole, runs in the build namespace, is tried once, for at most 30 minutes, with no restart of a
-- container, and mounts only volumes that it declares; its first container runs a shell script with
-- one line that clones, whose words are those of the git command, with the branch and the URL each a
-- word, and in which no sign stands that a shell reads.
pub generate-Clones :
    (kind : Builder) (reg : Registry) (d r b i : String) (o : Overrides)
    → is_safe_word b ≡ true
    → is_repo_url r ≡ true
    → has_code b'\n' r ≡ false
    → IsJobFor d (generate_job_manifest kind reg d r b i o)
      × Clones b r (generate_job_manifest kind reg d r b i o)
generate-Clones kind reg d r b i o hb hr n =
    (generate-IsJobFor kind reg d r b i o, generated-Clones kind reg d r b i o hb hr n)
