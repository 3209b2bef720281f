-- ===== src/Rename/Tests.antt =====
-- The script on a small repository.
use Prim.Native.String.{◌++◌ as append}
use deploy_hub.Prelude.{String, ◌≡◌, refl, true, false, none, [], ◌∷◌}
use deploy_hub.Action.{exception, ok, raised}
use deploy_hub.Text.{replace_from}
use deploy_hub.Rename.{
  reads, decode_error, os_error, Opened, File, Folder, folder, end, sub, is_skipped, main,
}

abbrev slash : String → String → String
slash d n = append d (append "/" n)

abbrev file : String → Opened → File
file n o = record { name = n; head = o; whole = o; written = none }

abbrev readable : Folder
readable =
    folder "root"
      (file "README.md" (reads "ShipZen runs shipzen.")
        ∷ file "logo.ico" (os_error (exception "denied"))
        ∷ file "a.bin" (decode_error (exception "utf-8"))
        ∷ [])
      (sub (folder ".git" (file "HEAD" (os_error (exception "denied")) ∷ []) end)
        (sub (folder "ui" (file "page.tsx" (reads "ShipZen") ∷ []) end) end))

-- The endings that are skipped and the directories that are excluded are not opened.
main-readable : main slash readable [] ≡ (ok tt, [])
unfolding main
main-readable = refl

abbrev locked : Folder
locked = folder "root" (file "key" (os_error (exception "denied")) ∷ []) (sub readable end)

-- A file that cannot be opened ends the walk: `is_binary` stands outside the `try` statement.
main-locked : main slash locked [] ≡ (raised (exception "denied"), [])
unfolding main
main-locked = refl

is_skipped_examples :
    (is_skipped "a.jpeg" ≡ true) × (is_skipped "rename.py" ≡ true) × (is_skipped "pyc" ≡ false)
unfolding is_skipped
is_skipped_examples = (refl, refl, refl)

replace_example : replace_from "ab" "c" 0 "abxabb" ≡ "cxcb"
unfolding replace_from
replace_example = refl
