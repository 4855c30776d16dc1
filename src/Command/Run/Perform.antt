-- ===== src/Command/Run/Perform.antt =====
-- The last steps of the command, which write files: `writeSpecFile`, `generateAndLogResults` and
-- `generateAndWriteKeyPair` of internal/certtool/certtool.go, and `Run` around them.
use certtool.Base.{not, if◌then◌else◌, Option, none, some, is_empty, Outcome, ok, err, map_err}
use certtool.Base.Text.{Text}
use certtool.Failure.{Failure}
use certtool.Issue.Args.{KeyPair}
use certtool.Issue.Create.{generate_key_pair}
use certtool.Files.Store.{Store}
use certtool.Files.Pairs.{write_certificate}
use certtool.Files.Private.{KeyEncryption, write_key_pair, write_pfx}
use certtool.Generate.One.{Generator}
use certtool.Generate.Tree.{generate_from_spec}
use certtool.Command.{FlagError}
use certtool.Command.Modes.{Flags, given}
use certtool.Command.Scenario.Run.{write_spec_data, run_scenario}
use certtool.Command.Run.{
  RunError, bad_flag, failed, Program, Job, export_specs, generate_specs, generate_single,
  keep_root, job,
}

-- the result of a step is only logged
abbrev pub finished : {A : Type 0} → Outcome Failure A × Store → Outcome RunError (Unit {0}) × Store
finished (ok a, store) = (ok tt, store)
finished (err e, store) = (err (failed e), store)

abbrev spec_written : Outcome FlagError (Unit {0}) × Store → Outcome RunError (Unit {0}) × Store
spec_written (r, store) = (map_err bad_flag r, store)

module _ (p : Program) (f : Flags) where
  unfoldable pub write_spec_file :
      Outcome Failure Text → Store → Outcome RunError (Unit {0}) × Store
  unfolding write_spec_data
  write_spec_file (err e) store = (err (failed e), store)
  write_spec_file (ok text) store = spec_written (write_spec_data p.system f.export_spec text store)

  abbrev pub generator : KeyEncryption → Generator
  generator enc = record {
    output_dir = f.output_dir;
    overwrite = f.overwrite;
    encryption = some enc;
    crypto = p.crypto;
    signatures = p.signatures;
    environment = p.environment;
    disk = p.system.disk;
    authorized_key = p.authorized_key;
  }

  -- a .pfx is written in place of the certificate and the key
  unfoldable pub write_pair :
      KeyEncryption → Outcome Failure KeyPair → Store → Outcome RunError (Unit {0}) × Store
  unfolding write_pfx write_key_pair
  write_pair enc (err e) store = (err (failed e), store)
  write_pair enc (ok kp) store =
      if not (is_empty kp.pfx)
      then finished (write_pfx p.system.disk (some enc) kp f.pfx_output store)
      else finished
          (write_key_pair p.system.disk (some enc) kp f.public_certificate f.private_key store)

  unfoldable pub perform : Outcome RunError Job → Store → Outcome RunError (Unit {0}) × Store
  unfolding write_spec_file generate_from_spec generate_key_pair write_pair write_certificate
  perform (err e) store = (err e, store)
  perform (ok (export_specs specs)) store = write_spec_file (p.marshal_spec specs) store
  perform (ok (generate_specs specs issuer enc)) store =
      finished (generate_from_spec (generator enc) p.made_dir specs issuer store)
  perform (ok (generate_single args enc)) store =
      write_pair enc (generate_key_pair p.crypto args) store
  perform (ok (keep_root cert)) store =
      finished (write_certificate p.system.disk (p.certificate_pem cert) f.public_certificate store)

unfoldable pub run_flags : Program → Flags → Store → Outcome RunError (Unit {0}) × Store
unfolding perform job
run_flags p f store = perform p f (job p f store) store

unfoldable pub after_scenario :
    Program → Outcome FlagError (Option Flags) × Store → Outcome RunError (Unit {0}) × Store
unfolding run_flags
after_scenario p (err e, store) = (err (bad_flag e), store)
after_scenario p (ok none, store) = (ok tt, store)
after_scenario p (ok (some next), store) = run_flags p next store

unfoldable pub run : Program → Flags → Store → Outcome RunError (Unit {0}) × Store
unfolding run_scenario run_flags after_scenario
run p f store =
    if f.version
    then (ok tt, store)
    else if given f.scenario
    then after_scenario p (run_scenario p.system f store)
    else run_flags p f store
