-- ===== src/Command/Encryption.antt =====
-- The recipients and identities of the options: `keyEncryption` and `readIdentityFile` of
-- internal/certtool/encrypt.go.
use certtool.Base.{
  Bool, not, if◌then◌else◌, List, [], ◌∷◌, ◌++◌, is_empty, Outcome, ok, ◌>>=◌, map_err,
}
use certtool.Base.Text.{Text, codes}
use certtool.Failure.{Failure}
use certtool.Files.Store.{Store}
use certtool.Files.Private.{KeyEncryption, read_file}
use certtool.Generate.Arguments.{Environment}
use certtool.Command.{split_strings}
use certtool.Command.Modes.{Flags}

pub data EncryptionError : Type 0 where
  refused_recipient bad_identity_variable identities_of_key_failed : Failure → EncryptionError
  unreadable_identity_file bad_identity_file : Text → Failure → EncryptionError

-- ParseAgeRecipient and age.ParseIdentities are arguments.
module _ (parse_recipient : Text → Outcome Failure Text)
    (parse_identities : Text → Outcome Failure (List Text)) where
  unfoldable pub parse_recipients : List Text → Outcome EncryptionError (List Text)
  parse_recipients [] = ok []
  parse_recipients (s ∷ ss) = do
    r ← map_err refused_recipient (parse_recipient s)
    rs ← parse_recipients ss
    ok (r ∷ rs)

  unfoldable pub variable_identities : Text → Outcome EncryptionError (List Text)
  variable_identities held =
      if not (is_empty held) then map_err bad_identity_variable (parse_identities held) else ok []

  unfoldable pub read_identity_file : Text → Store → Outcome EncryptionError (List Text)
  unfolding read_file
  read_identity_file path store = do
    held ← map_err (unreadable_identity_file path) (read_file path store)
    map_err (bad_identity_file path) (parse_identities held)

  unfoldable pub read_identity_files : List Text → Store → Outcome EncryptionError (List Text)
  unfolding read_identity_file
  read_identity_files [] store = ok []
  read_identity_files (path ∷ paths) store = do
    ids ← read_identity_file path store
    more ← read_identity_files paths store
    ok (ids ++ more)

  -- `of_key` is what the open YubiKey returns.
  unfoldable pub key_identities :
      Bool → Outcome Failure (List Text) → Outcome EncryptionError (List Text)
  key_identities wanted of_key = if wanted then map_err identities_of_key_failed of_key else ok []

  unfoldable pub key_encryption :
      Environment
      → Flags
      → Outcome Failure (List Text)
      → Store
      → Outcome EncryptionError KeyEncryption
  unfolding parse_recipients variable_identities read_identity_files key_identities split_strings
  key_encryption env f of_key store = do
    recipients ← parse_recipients (split_strings f.encrypt_to)
    of_variable ← variable_identities (env.getenv (codes "CERTTOOL_AGE_IDENTITY"))
    of_files ← read_identity_files (split_strings f.age_identity_file) store
    of_yubikey ← key_identities f.age_yubikey of_key
    ok (record { recipients = recipients; identities = of_variable ++ (of_files ++ of_yubikey) })
