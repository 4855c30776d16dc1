-- ===== src/Command/Run.antt =====
-- What the command does: `Run`, `runSpec`, `runChain`, `runExportSpec`, `runYubiKeyGenerateRoot`,
-- `generateAndWriteKeyPair` and `yubiKeyConfig` of internal/certtool/certtool.go.
pub mod Perform
pub mod Exports
use certtool.Base.{
  ℕ, ◌^◌, ltb, Bool, true, false, ◌&&◌, ◌||◌, not, if◌then◌else◌, Option, none, some, List, [], ◌∷◌,
  ◌++◌, is_empty, Outcome, ok, err, ◌>>=◌, ◌>>◌, refuse, map_err,
}
use certtool.Base.Text.{Text, codes}
use certtool.Base.Decimal.{read_decimal}
use certtool.Failure.{Failure}
use certtool.Cert.{Certificate}
use certtool.Spec.{Specs}
use certtool.Spec.Passwords.{specs_with_pfx_password, replace_pfx_passwords}
use certtool.Chain.{chain_to_spec}
use certtool.Issue.Args.{Args, Issuer, KeyPair}
use certtool.Issue.Create.{Crypto, generate_key_pair}
use certtool.Files.Store.{Store}
use certtool.Files.Safe.{write_public}
use certtool.Files.Private.{KeyEncryption, read_file, write_key_pair, write_pfx}
use certtool.Generate.Arguments.{Environment}
use certtool.Generate.Existing.{Signatures}
use certtool.Generate.Tree.{generate_from_spec}
use certtool.Yubikey.Policy.{TouchPolicy, parse_touch_policy}
use certtool.Command.{FlagError, parse_chain}
use certtool.Command.Modes.{Flags, ModeError, validate_modes, given}
use certtool.Command.Single.{args_to_spec, certificate_args, pfx_password_variable}
use certtool.Command.Encryption.{EncryptionError, key_encryption}
use certtool.Command.Scenario.Run.{System, write_spec_data, run_scenario}

-- The errors of the command, by the part that they come from.
pub data RunError : Type 0 where
  bad_modes : ModeError → RunError
  bad_flag : FlagError → RunError
  bad_encryption : EncryptionError → RunError
  failed : Failure → RunError
  pin_needed : RunError
  bad_serial : Text → RunError

-- yubikey.Config; 0 is any serial number
pub record Config : Type 0 where
  pub serial : ℕ
  pub slot : Text
  pub pin : Text
  pub management_key : Text

unfoldable pub flag_or_variable : Environment → Text → Text → Text
flag_or_variable env variable flag = if is_empty flag then env.getenv variable else flag

unfoldable pub parse_serial : Text → Option ℕ → Outcome RunError ℕ
parse_serial s none = err (bad_serial s)
parse_serial s (some n) = if ltb n (2 ^ 32) then ok n else err (bad_serial s)

unfoldable pub yubikey_config : Environment → Flags → Outcome RunError Config
unfolding flag_or_variable parse_serial read_decimal
yubikey_config env f =
    let pin = flag_or_variable env (codes "CERTTOOL_YUBIKEY_PIN") f.yubikey_pin in
    do
      refuse (is_empty pin) pin_needed
      serial ←
          if given f.yubikey_serial
          then parse_serial f.yubikey_serial (read_decimal f.yubikey_serial)
          else ok 0
      ok (record {
        serial = serial;
        slot = f.yubikey_slot;
        pin = pin;
        management_key =
            flag_or_variable env (codes "CERTTOOL_YUBIKEY_MANAGEMENT_KEY") f.yubikey_management_key;
      })

-- An open YubiKey, with what its operations return.
pub record OpenKey : Type 0 where
  pub issuer : Outcome Failure Issuer
  pub identities : Outcome Failure (List Text)
  pub generate_root : Args → TouchPolicy → Bool → Outcome Failure Certificate

-- What the command is run with. `open_key` is yubikey.Open; `read_spec` and `marshal_spec` are YAML.
pub record Program : Type 0 where
  pub system : System
  pub crypto : Crypto
  pub signatures : Signatures
  pub environment : Environment
  pub authorized_key : Text → Outcome Failure Text
  pub made_dir : Outcome Failure (Unit {0})
  pub open_key : Config → Outcome Failure OpenKey
  pub read_spec : Text → Store → Outcome Failure Specs
  pub marshal_spec : Specs → Outcome Failure Text
  pub parse_recipient : Text → Outcome Failure Text
  pub parse_identities : Text → Outcome Failure (List Text)
  pub certificate_pem : Certificate → Text

-- What is left to do when everything has been read and checked.
pub data Job : Type 0 where
  export_specs : Specs → Job
  generate_specs : Specs → Option Issuer → KeyEncryption → Job
  generate_single : Args → KeyEncryption → Job
  keep_root : Certificate → Job

-- the specs that --spec exports hold no password
unfoldable pub exported : Specs → Specs
unfolding specs_with_pfx_password
exported specs =
    if not (is_empty (specs_with_pfx_password specs))
    then replace_pfx_passwords pfx_password_variable specs
    else specs

module _ (p : Program) where
  unfoldable pub specs_job : Flags → Option Issuer → KeyEncryption → Specs → Specs → Job
  specs_job f issuer enc to_export specs =
      if given f.export_spec then export_specs to_export else generate_specs specs issuer enc

  unfoldable pub run_spec : Flags → Option Issuer → KeyEncryption → Store → Outcome RunError Job
  unfolding exported specs_job
  run_spec f issuer enc store = do
    specs ← map_err failed (p.read_spec f.spec store)
    ok (specs_job f issuer enc (exported specs) specs)

  unfoldable pub run_chain : Flags → Option Issuer → KeyEncryption → Outcome RunError Job
  unfolding parse_chain chain_to_spec specs_job
  run_chain f issuer enc = do
    widths ← map_err bad_flag (parse_chain f.chain)
    specs ← map_err failed (chain_to_spec widths f.common_name f.organization f.name_prefix)
    ok (specs_job f issuer enc specs specs)

  unfoldable pub run_export_spec : Flags → Outcome RunError Job
  unfolding args_to_spec
  run_export_spec f = do
    specs ← map_err bad_flag (args_to_spec p.system.duration_string p.environment f)
    ok (export_specs specs)

  unfoldable pub run_single : Flags → Option Issuer → KeyEncryption → Store → Outcome RunError Job
  unfolding certificate_args
  run_single f issuer enc store = do
    args ← map_err bad_flag (certificate_args p.environment p.system.disk f (some enc) store)
    ok (generate_single (record args { issuer = issuer }) enc)

  -- openYubiKey
  unfoldable pub open_yubikey : Flags → Outcome RunError OpenKey
  unfolding yubikey_config
  open_yubikey f = do config ← yubikey_config p.environment f; map_err failed (p.open_key config)

  unfoldable pub run_generate_root : Flags → Store → Outcome RunError Job
  unfolding parse_touch_policy certificate_args open_yubikey
  run_generate_root f store = do
    touch ← map_err failed (parse_touch_policy f.yubikey_touch_policy)
    args ← map_err bad_flag (certificate_args p.environment p.system.disk f none store)
    key ← open_yubikey f
    cert ← map_err failed (key.generate_root args touch f.yubikey_overwrite)
    ok (keep_root cert)

  abbrev signs : Flags → Bool
  signs f = f.yubikey && is_empty f.export_spec

  unfoldable pub needed_key : Flags → Outcome RunError (Option OpenKey)
  unfolding open_yubikey
  needed_key f =
      if signs f || f.age_yubikey then (do key ← open_yubikey f; ok (some key)) else ok none

  unfoldable pub needed_issuer : Flags → Option OpenKey → Outcome RunError (Option Issuer)
  needed_issuer f none = ok none
  needed_issuer f (some key) =
      if signs f then (do i ← map_err failed key.issuer; ok (some i)) else ok none

  abbrev identities_from : Option OpenKey → Outcome Failure (List Text)
  identities_from none = ok []
  identities_from (some key) = key.identities

  -- the switch at the end of Run
  unfoldable pub dispatch : Flags → Option Issuer → KeyEncryption → Store → Outcome RunError Job
  unfolding run_spec run_chain run_export_spec run_single
  dispatch f issuer enc store =
      if given f.spec
      then run_spec f issuer enc store
      else if given f.chain
      then run_chain f issuer enc
      else if given f.export_spec
      then run_export_spec f
      else run_single f issuer enc store

  unfoldable pub signing_job : Flags → Store → Outcome RunError Job
  unfolding needed_key needed_issuer key_encryption dispatch
  signing_job f store = do
    key ← needed_key f
    issuer ← needed_issuer f key
    enc ← map_err bad_encryption (
        key_encryption p.parse_recipient p.parse_identities p.environment f (identities_from key)
          store)
    dispatch f issuer enc store

  -- Run behind the scenarios, up to its first change of a file
  unfoldable pub job : Flags → Store → Outcome RunError Job
  unfolding validate_modes run_generate_root signing_job
  job f store = do
    map_err bad_modes (validate_modes f)
    if f.yubikey_generate_root then run_generate_root f store else signing_job f store
