-- ===== src/Rename/Unchanged.antt =====
-- What rename.py writes.
use deploy_hub.Prelude.{
  String, Bool, true, false, if◌then◌else◌, List, [], ◌∷◌, ◌≡◌, refl, ◌∙◌, Bool-cases, inl, inr,
  contains, eq_refl,
}
use deploy_hub.Action.{Outcome, Action, Result, pure, resume, handle, attempt}
use deploy_hub.Action.Keeps.{Keeps-bind, Keeps-try}
use deploy_hub.Text.Replace.{replace-same}
use deploy_hub.Rename.{
  Opened, reads, decode_error, os_error, File, Write, Folder, folder, Folders, end, sub,
  new_content, write_changed, read_all, rename_in_file, is_binary, is_skipped, visit_file,
  visit_files, walk, walk_subdirs, main, exclude_dirs,
}

-- The replacements leave any content as it is.
new_content-same : (s : String) → new_content s ≡ s
unfolding new_content
new_content-same s = rw (replace-same "ShipZen" s refl) (
    rw (replace-same "shipzen" s refl)
      (rw (replace-same "SHIPZEN" s refl) (replace-same "Shipzen" s refl)))

write_changed-writes :
    (path : String) (o : Outcome) (s : String) (ws : List Write)
    → (write_changed path o s ws).1 ≡ ws
unfolding write_changed
write_changed-writes path o s ws = rw (new_content-same s) (rw (eq_refl s) refl)

read_all-writes : (o : Opened) (ws : List Write) → (read_all o ws).1 ≡ ws
read_all-writes (reads s) ws = refl
read_all-writes (decode_error e) ws = refl
read_all-writes (os_error e) ws = refl

is_binary-writes : (o : Opened) (ws : List Write) → (is_binary o ws).1 ≡ ws
unfolding is_binary
is_binary-writes (reads s) ws = refl
is_binary-writes (decode_error e) ws = refl
is_binary-writes (os_error e) ws = refl

-- One action after another.
then-writes :
    {A B : Type 0} (p : Result A × List Write) (f : A → Action (List Write) B) (ws : List Write)
    → p.1 ≡ ws
    → ((a : A) (vs : List Write) → (f a vs).1 ≡ vs)
    → (resume p.0 f p.1).1 ≡ ws
then-writes p f ws h k = Keeps-bind (λ vs. vs ≡ ws) p f h (λ a v e. k a v ∙ e)

rename_in_file-writes :
    (filepath : String) (f : File) (ws : List Write) → (rename_in_file filepath f ws).1 ≡ ws
unfolding rename_in_file
rename_in_file-writes filepath f ws =
    then-writes (read_all f.whole ws) (write_changed filepath f.written) ws
      (read_all-writes f.whole ws) (write_changed-writes filepath f.written)

-- A `try` around an action that keeps the writes keeps them.
attempt-writes :
    (p : Result Unit × List Write) (ws : List Write)
    → p.1 ≡ ws
    → (handle p.0 (λ _. pure tt) p.1).1 ≡ ws
attempt-writes p ws h = Keeps-try (λ vs. vs ≡ ws) p (λ _. pure tt) h (λ x v k. k)

module _ (join : String → String → String) where
  visit_file-writes :
      (dirpath : String) (f : File) (ws : List Write) → (visit_file join dirpath f ws).1 ≡ ws
  unfolding visit_file
  visit_file-writes dirpath f ws = elim (Bool-cases (is_skipped f.name)) [
    | inl s ↦ rw s refl
    | inr s ↦ rw s (
        then-writes (is_binary f.head ws)
          (λ binary. if binary then pure tt else attempt (rename_in_file (join dirpath f.name) f))
          ws (is_binary-writes f.head ws) rename_if_text)
  ]
    where
      rename_if_text :
          (b : Bool) (vs : List Write)
          → ((if b then pure tt else attempt (rename_in_file (join dirpath f.name) f)) vs).1 ≡ vs
      rename_if_text true vs = refl
      rename_if_text false vs =
          attempt-writes (rename_in_file (join dirpath f.name) f vs) vs
            (rename_in_file-writes (join dirpath f.name) f vs)

  visit_files-writes :
      (dirpath : String) (fs : List File) (ws : List Write)
      → (visit_files join dirpath fs ws).1 ≡ ws
  unfolding visit_files
  visit_files-writes dirpath [] ws = refl
  visit_files-writes dirpath (f ∷ fs) ws =
      then-writes (visit_file join dirpath f ws) (λ _. visit_files join dirpath fs) ws
        (visit_file-writes dirpath f ws) (λ _. visit_files-writes dirpath fs)

  mutual
    unfolding walk

    walk-writes :
        (dirpath : String) (d : Folder) (ws : List Write) → (walk join dirpath d ws).1 ≡ ws
    walk-writes dirpath (folder name fs ds) ws =
        then-writes (visit_files join dirpath fs ws) (λ _. walk_subdirs join dirpath ds) ws
          (visit_files-writes dirpath fs ws) (λ _. walk_subdirs-writes dirpath ds)

    walk_subdirs-writes :
        (dirpath : String) (ds : Folders) (ws : List Write)
        → (walk_subdirs join dirpath ds ws).1 ≡ ws
    walk_subdirs-writes dirpath end ws = refl
    walk_subdirs-writes dirpath (sub (folder name fs ds) rest) ws =
        elim (Bool-cases (contains name exclude_dirs)) [
          | inl e ↦ rw e (walk_subdirs-writes dirpath rest ws)
          | inr e ↦ rw e (
              then-writes (walk join (join dirpath name) (folder name fs ds) ws)
                (λ _. walk_subdirs join dirpath rest) ws
                (walk-writes (join dirpath name) (folder name fs ds) ws)
                (λ _. walk_subdirs-writes dirpath rest))
        ]

  -- Whatever the repository holds and whatever reading and writing answers, the script writes no file.
  pub main-writes : (root : Folder) (ws : List Write) → (main join root ws).1 ≡ ws
  unfolding main
  main-writes root ws = walk-writes "c:\\Project\\ShipZen" root ws
