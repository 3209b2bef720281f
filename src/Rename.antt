-- ===== src/Rename.antt =====
-- rename.py, which walks through a repository and is to replace a product's name in its files. The
-- state is the list of the writes, the newest first; a file is what opening and reading it answers.
pub mod Unchanged
mod Tests
use deploy_hub.Prelude.{
  String, ◌==◌, if◌then◌else◌, Bool, true, false, ◌||◌, not, List, [], ◌∷◌, contains,
}
use deploy_hub.Action.{Exn, Outcome, Action, raise, pure, ◌>>=◌, ◌>>◌, call, attempt}
use deploy_hub.Text.{text_length, starts_with, replace_from, replace, ends_with}

-- What reading a file answers: a text, a UnicodeDecodeError or another exception.
pub data Opened : Type 0 where
  reads : String → Opened
  decode_error : Exn → Opened
  os_error : Exn → Opened

-- `head` is what reading the first 1024 characters answers, `whole` what reading all of it answers,
-- and `written` the failure of opening it to write.
pub record File : Type 0 where
  pub name : String
  pub head : Opened
  pub whole : Opened
  pub written : Outcome

pub record Write : Type 0 where
  pub path : String
  pub content : String

mutual
  pub data Folder : Type 0 where
    folder : String → List File → Folders → Folder

  pub data Folders : Type 0 where
    end : Folders
    sub : Folder → Folders → Folders

unfoldable pub is_binary : Opened → Action (List Write) Bool
is_binary (reads s) = pure false
is_binary (decode_error e) = pure true
is_binary (os_error e) = raise e

abbrev pub read_all : Opened → Action (List Write) String
read_all (reads s) = pure s
read_all (decode_error e) = raise e
read_all (os_error e) = raise e

unfoldable pub new_content : String → String
unfolding replace_from
new_content content = replace "Shipzen" "Shipzen" (
    replace "SHIPZEN" "SHIPZEN" (replace "shipzen" "shipzen" (replace "ShipZen" "ShipZen" content)))

-- `f.write` of a text that differs.
unfoldable pub write_changed : String → Outcome → String → Action (List Write) Unit
unfolding new_content
write_changed filepath written content =
    if new_content content == content
    then pure tt
    else call written (λ ws. record { path = filepath; content = new_content content } ∷ ws)

unfoldable pub rename_in_file : String → File → Action (List Write) Unit
unfolding write_changed
rename_in_file filepath f = read_all f.whole >>= write_changed filepath f.written

abbrev pub exclude_dirs : List String
exclude_dirs = ".git" ∷ "node_modules" ∷ "venv" ∷ "__pycache__" ∷ ".terraform" ∷ ".next" ∷ []

abbrev pub skipped_endings : List String
skipped_endings = ".pyc" ∷ ".exe" ∷ ".dll" ∷ ".png" ∷ ".jpg" ∷ ".jpeg" ∷ ".gif" ∷ ".ico" ∷ []

pub ends_with_any : List String → String → Bool
unfolding ends_with
ends_with_any [] name = false
ends_with_any (e ∷ es) name = ends_with e name || ends_with_any es name

unfoldable pub is_skipped : String → Bool
unfolding ends_with_any
is_skipped name = name == "rename.py" || ends_with_any skipped_endings name

-- `join` is os.path.join.
module _ (join : String → String → String) where
  -- A turn of the inner loop.
  unfoldable pub visit_file : String → File → Action (List Write) Unit
  unfolding is_skipped is_binary rename_in_file
  visit_file dirpath f =
      if is_skipped f.name
      then pure tt
      else is_binary f.head >>= λ binary.
          if binary then pure tt else attempt (rename_in_file (join dirpath f.name) f)

  unfoldable pub visit_files : String → List File → Action (List Write) Unit
  unfolding visit_file
  visit_files dirpath [] = pure tt
  visit_files dirpath (f ∷ fs) = visit_file dirpath f >> visit_files dirpath fs

  -- The walk below a directory: its files, then each directory of it that is not excluded.
  unfoldable mutual
    unfolding visit_files

    pub walk : String → Folder → Action (List Write) Unit
    walk dirpath (folder name fs ds) = visit_files dirpath fs >> walk_subdirs dirpath ds

    pub walk_subdirs : String → Folders → Action (List Write) Unit
    walk_subdirs dirpath end = pure tt
    walk_subdirs dirpath (sub (folder name fs ds) rest) =
        let skipped = walk_subdirs dirpath rest in
        let visited = walk (join dirpath name) (folder name fs ds) in
        if contains name exclude_dirs then skipped else visited >> skipped

  unfoldable pub main : Folder → Action (List Write) Unit
  unfolding walk
  main root = walk "c:\\Project\\ShipZen" root
