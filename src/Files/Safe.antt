-- ===== src/Files/Safe.antt =====
-- `WritePrivate`, `WritePublic`, `write` and `fill` of internal/safefile/safefile.go.
pub mod Atomic
use certtool.Base.{
  ℕ, Bool, true, false, if◌then◌else◌, Option, none, some, List, [], take, Outcome, ok, err,
}
use certtool.Base.Text.{Text}
use certtool.Failure.{Failure, is_directory, write_failed}
use certtool.Files.Store.{File, Store, put, Step}

-- Which calls of the operating system fail when a file is written, and what they leave: how much
-- was written before a failure, and the name of the temporary file.
pub record Faults : Type 0 where
  pub directory : Bool
  pub create_fails : Bool
  pub write_fails : Bool
  pub written : ℕ
  pub chmod_fails : Bool
  pub sync_fails : Bool
  pub close_fails : Bool
  pub rename_fails : Bool
  pub remove_fails : Bool
  pub temporary : Text

-- The temporary file, as CreateTemp makes it: empty and for its owner only.
abbrev pub fresh_file : File
fresh_file = record { contents = []; is_private = true }

module _ (faults : Faults) where
  -- fill: what becomes of the temporary file, and whether all went well
  unfoldable pub fill : Text → Bool → Bool × File
  fill bytes private =
      if faults.write_fails
      then (false, record { contents = take faults.written bytes; is_private = true })
      else if faults.chmod_fails
      then (false, record { contents = bytes; is_private = true })
      else if faults.sync_fails
      then (false, record { contents = bytes; is_private = private })
      else if faults.close_fails
      then (false, record { contents = bytes; is_private = private })
      else (true, record { contents = bytes; is_private = private })

  unfoldable pub remove_temp : Store → Store
  remove_temp store = if faults.remove_fails then store else put faults.temporary none store

  -- os.Rename of the temporary file over the destination
  unfoldable pub rename : Text → File → Step (Unit {0})
  unfolding remove_temp
  rename path file store =
      if faults.rename_fails
      then (err write_failed, remove_temp store)
      else (ok tt, put path (some file) (put faults.temporary none store))

  unfoldable pub fill_and_rename : Text → Bool × File → Step (Unit {0})
  unfolding rename
  fill_and_rename path (true, file) store =
      rename path file (put faults.temporary (some file) store)
  fill_and_rename path (false, file) store =
      (err write_failed, remove_temp (put faults.temporary (some file) store))

  unfoldable pub write : Text → Text → Bool → Step (Unit {0})
  unfolding fill fill_and_rename
  write path bytes private store =
      if faults.directory
      then (err is_directory, store)
      else if faults.create_fails
      then (err write_failed, store)
      else fill_and_rename path (fill bytes private) (put faults.temporary (some fresh_file) store)

  unfoldable pub write_private : Text → Text → Step (Unit {0})
  write_private path bytes = write path bytes true

  unfoldable pub write_public : Text → Text → Step (Unit {0})
  write_public path bytes = write path bytes false
