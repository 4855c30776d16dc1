-- ===== src/Files/Private.antt =====
-- Private keys and .pfx files, plain or encrypted: `KeyEncryption`, `existingPrivateFile` and
-- `removeOtherForm` of pkg/certtool/encrypt.go.
pub mod Forms
use certtool.Base.{
  Bool, true, false, ◌&&◌, ◌||◌, not, if◌then◌else◌, Option, none, some, List, [], ◌∷◌, ◌++◌,
  is_empty, Outcome, ok, err, map_err,
}
use certtool.Base.Text.{Text, codes}
use certtool.Failure.{
  Failure, no_pfx_data, cannot_read, no_age_identity, no_key_pair_files, key_without_certificate,
  certificate_without_key, both_forms_exist, cannot_remove,
}
use certtool.Issue.Args.{KeyPair}
use certtool.Issue.Pem.{is_age_encrypted}
use certtool.Files.Store.{File, Store, put, file_exists, Step, ◌>>=◌, ◌>>◌, look, pure}
use certtool.Files.Safe.{Faults, write_private, write_public}

abbrev pub encrypted_suffix : Text
encrypted_suffix = codes ".age"

-- `KeyEncryption`; recipients and identities are known by their texts. `none` is a nil pointer.
pub record KeyEncryption : Type 0 where
  pub recipients : List Text
  pub identities : List Text

-- The age library, and which calls of the operating system fail for a path.
pub record Disk : Type 0 where
  pub faults : Text → Faults
  pub remove_fails : Text → Bool
  pub encrypt : Text → List Text → Outcome Failure Text
  pub decrypt : Text → List Text → Outcome Failure Text

unfoldable pub encrypts : Option KeyEncryption → Bool
encrypts none = false
encrypts (some e) = not (is_empty e.recipients)

unfoldable pub recipients_of : Option KeyEncryption → List Text
recipients_of none = []
recipients_of (some e) = e.recipients

unfoldable pub identities_of : Option KeyEncryption → List Text
identities_of none = []
identities_of (some e) = e.identities

-- KeyEncryption.path
unfoldable pub private_path : Option KeyEncryption → Text → Text
unfolding encrypts
private_path e path = if encrypts e then path ++ encrypted_suffix else path

abbrev contents_of : Option File → Outcome Failure Text
contents_of none = err cannot_read
contents_of (some f) = ok f.contents

-- os.ReadFile
unfoldable pub read_file : Text → Store → Outcome Failure Text
read_file path store = contents_of (store path)

-- which of the two forms exists
unfoldable pub one_form : Text → Bool → Bool → Outcome Failure (Option Text)
one_form path true true = err both_forms_exist
one_form path false true = ok (some (path ++ encrypted_suffix))
one_form path true false = ok (some path)
one_form path false false = ok none

-- The source returns "" for `none`.
unfoldable pub existing_private_file : Text → Store → Outcome Failure (Option Text)
unfolding one_form file_exists
existing_private_file path store =
    one_form path (file_exists store path) (file_exists store (path ++ encrypted_suffix))

module _ (disk : Disk) where
  unfoldable pub sealed : Option KeyEncryption → Text → Outcome Failure Text
  unfolding encrypts recipients_of
  sealed e contents = if encrypts e then disk.encrypt contents (recipients_of e) else ok contents

  -- KeyEncryption.writePrivate
  unfoldable pub write_private_file : Option KeyEncryption → Text → Text → Step Text
  unfolding sealed private_path
  write_private_file e path contents = do
    bytes ← pure (sealed e contents)
    write_private (disk.faults (private_path e path)) (private_path e path) bytes
    pure (ok (private_path e path))

  unfoldable pub write_key_pair : Option KeyEncryption → KeyPair → Text → Text → Step Text
  unfolding write_private_file
  write_key_pair e kp cert_file key_file = do
    write_public (disk.faults cert_file) cert_file kp.public_certificate
    write_private_file e key_file kp.private_key

  unfoldable pub write_pfx : Option KeyEncryption → KeyPair → Text → Step Text
  unfolding write_private_file
  write_pfx e kp pfx_file =
      if is_empty kp.pfx then pure (err no_pfx_data) else write_private_file e pfx_file kp.pfx

  unfoldable pub opened : Option KeyEncryption → Text → Outcome Failure Text
  unfolding identities_of
  opened e bytes =
      if not (is_age_encrypted bytes)
      then ok bytes
      else if is_empty (identities_of e)
      then err no_age_identity
      else disk.decrypt bytes (identities_of e)

  abbrev open_read : Option KeyEncryption → Outcome Failure Text → Outcome Failure Text
  open_read e (err x) = err x
  open_read e (ok bytes) = opened e bytes

  unfoldable pub read_private_file : Option KeyEncryption → Text → Store → Outcome Failure Text
  unfolding read_file opened
  read_private_file e path store = open_read e (read_file path store)

  unfoldable pub read_key_pair_from_file : Option KeyEncryption → Text → Text → Step KeyPair
  unfolding read_private_file
  read_key_pair_from_file e cert_file key_file =
      if is_empty cert_file && is_empty key_file
      then pure (err no_key_pair_files)
      else if is_empty key_file
      then pure (err certificate_without_key)
      else if is_empty cert_file
      then pure (err key_without_certificate)
      else (do
        cert ← look (read_file cert_file)
        key ← look (read_private_file e key_file)
        pure (ok (record { public_certificate = cert; private_key = key; pfx = [] })))

  -- os.Remove, where a file that does not exist is no error
  unfoldable pub remove : Text → Step (Unit {0})
  remove path store =
      if not (file_exists store path)
      then (ok tt, store)
      else if disk.remove_fails path
      then (err cannot_remove, store)
      else (ok tt, put path none store)

  unfoldable pub remove_other_form : Text → Option KeyEncryption → Step (Unit {0})
  unfolding remove encrypts
  remove_other_form path e = remove (if encrypts e then path else path ++ encrypted_suffix)
