-- ===== src/Command/Scenario/Run.antt =====
-- `scenarioOptions`, `specDuration`, `writeScenarioSpec` and `runScenario` of
-- internal/certtool/scenario.go, and `writeSpecData` of internal/certtool/certtool.go.
use certtool.Base.{
  ℕ, ◌/◌, ◌%◌, ◌+◌, ℤ, pos, negsuc, eq_ℤ, ltb_ℤ, Bool, true, false, ◌||◌, not, ◌==◌, if◌then◌else◌,
  Option, none, some, List, [], ◌∷◌, ◌++◌, is_empty, Outcome, ok, err, ◌>>=◌, ◌>>◌, refuse, map_err,
}
use certtool.Base.Text.{Text, codes, same, join}
use certtool.Base.Decimal.{itoa}
use certtool.Failure.{Failure}
use certtool.Files.Store.{File, Store}
use certtool.Files.Safe.{write_private}
use certtool.Files.Private.{Disk}
use certtool.Scenario.{ScenarioOptions}
use certtool.Scenario.Write.{Templates, scenario_spec}
use certtool.Command.{
  FlagError, scenario_without_organization, bad_validity, spec_was_edited, failed_by, split_strings,
  split_hostnames,
}
use certtool.Command.KeyTypes.{string_to_key_type}
use certtool.Command.Modes.{Flags, default_flags, given}
use certtool.Command.Scenario.{check_plain, plain_flags, unless_default, validate_scenario}

abbrev hour : ℕ
hour = 3600000000000

-- fmt's %d
abbrev integer : ℤ → Text
integer (pos n) = itoa n
integer (negsuc n) = b'-' ∷ itoa (n + 1)

-- time.Duration.String is the argument `duration_string`.
module _ (duration_string : ℤ → Text) where
  unfoldable pub spec_duration : ℤ → Text
  unfolding itoa
  spec_duration (pos n) =
      if n % hour == 0 then itoa (n / hour) ++ codes "h" else duration_string (pos n)
  spec_duration (negsuc n) =
      if (n + 1) % hour == 0
      then b'-' ∷ (itoa ((n + 1) / hour) ++ codes "h")
      else duration_string (negsuc n)

  unfoldable pub key_type_option : Text → Outcome FlagError Text
  unfolding string_to_key_type
  key_type_option key_type = if is_empty key_type then ok [] else (do
    k ← string_to_key_type key_type
    ok (k.algorithm ++ (codes "-" ++ integer k.key_length)))

  unfoldable pub validity_option : ℤ → Outcome FlagError Text
  unfolding spec_duration
  validity_option validity =
      if eq_ℤ validity default_flags.validity
      then ok []
      else (do refuse (ltb_ℤ validity (pos 1)) bad_validity; ok (spec_duration validity))

  unfoldable pub scenario_options : Flags → Outcome FlagError ScenarioOptions
  unfolding split_hostnames split_strings unless_default check_plain plain_flags same
      key_type_option validity_option
  scenario_options f = do
    hostnames ← split_hostnames f.hostnames
    refuse (is_empty f.organization) scenario_without_organization
    check_plain (plain_flags f)
    key_type ← key_type_option f.key_type
    validity ← validity_option f.validity
    ok (record {
      organization = f.organization;
      organizational_unit = unless_default f.organizational_unit default_flags.organizational_unit;
      country = unless_default f.country default_flags.country;
      locality = unless_default f.locality default_flags.locality;
      province = unless_default f.province default_flags.province;
      hostnames = hostnames;
      clients = split_strings f.clients;
      key_type = key_type;
      validity = validity;
      target = f.target;
      pfx_password_env = codes "CERTTOOL_PFX_PASSWORD";
      external_root = f.yubikey;
      spec_path = if same f.export_spec (codes "-") then [] else f.export_spec;
      output_dir = [];
      generate = false;
    })

-- filepath.Join of a directory that is clean and a name
unfoldable pub join_path : Text → Text → Text
unfolding same
join_path dir name = if is_empty dir || same dir (codes ".") then name else dir ++ (b'/' ∷ name)

-- The files, os.MkdirAll for the directory of a path, and which reads fail other than for a file that
-- does not exist.
pub record System : Type 0 where
  pub disk : Disk
  pub templates : Templates
  pub duration_string : ℤ → Text
  pub make_dir : Text → Outcome Failure (Unit {0})
  pub read_error : Text → Option Failure

abbrev written : Outcome Failure (Unit {0}) × Store → Outcome FlagError (Unit {0}) × Store
written (r, store) = (map_err failed_by r, store)

abbrev returning :
    Option Flags → Outcome FlagError (Unit {0}) × Store → Outcome FlagError (Option Flags) × Store
returning next (ok u, store) = (ok next, store)
returning next (err e, store) = (err e, store)

module _ (s : System) where
  -- writeSpecData; `-` is the standard output
  unfoldable pub write_spec_data : Text → Text → Store → Outcome FlagError (Unit {0}) × Store
  unfolding same write_private
  write_spec_data path text store =
      if same path (codes "-")
      then (ok tt, store)
      else written (write_private (s.disk.faults path) path text store)

  unfoldable pub write_new_spec :
      Text → Text → Outcome Failure (Unit {0}) → Store → Outcome FlagError (Unit {0}) × Store
  unfolding write_spec_data
  write_new_spec path text (err e) store = (err (failed_by e), store)
  write_new_spec path text (ok u) store = write_spec_data path text store

  -- by the error of the read, and by the file
  unfoldable pub write_over :
      Text
      → Text
      → Bool
      → Option Failure
      → Option File
      → Store
      → Outcome FlagError (Unit {0}) × Store
  unfolding same write_new_spec
  write_over path text overwrite (some e) file store = (err (failed_by e), store)
  write_over path text overwrite none none store = write_new_spec path text (s.make_dir path) store
  write_over path text overwrite none (some file) store =
      if same file.contents text
      then (ok tt, store)
      else if not overwrite
      then (err (spec_was_edited path), store)
      else write_new_spec path text (s.make_dir path) store

  unfoldable pub write_scenario_spec :
      Text → Text → Bool → Store → Outcome FlagError (Unit {0}) × Store
  unfolding write_over
  write_scenario_spec path text overwrite store =
      write_over path text overwrite (s.read_error path) (store path) store

  -- the file of the spec, in the output directory
  unfoldable pub scenario_path : Flags → List Text → Text
  unfolding join join_path
  scenario_path f scenarios = join_path f.output_dir (join (codes "+") scenarios ++ codes ".yaml")

  -- the options that generate from the spec, which holds every input of the scenario
  unfoldable pub spec_flags : Flags → Text → Flags
  spec_flags f path = record f {
    scenario = [];
    spec = path;
    hostnames = [];
    clients = [];
    target = [];
    key_type = [];
    validity = default_flags.validity;
  }

  -- What is to be written where, and the options to go on with, if any.
  pub record Plan : Type 0 where
    pub path : Text
    pub text : Text
    pub next : Option Flags

  unfoldable pub scenario_plan : Flags → Outcome FlagError Plan
  unfolding split_strings validate_scenario scenario_options scenario_spec scenario_path spec_flags
      same
  scenario_plan f = do
    let scenarios = split_strings f.scenario
    validate_scenario s.templates.infos f scenarios
    opts ← scenario_options s.duration_string f
    if given f.export_spec
        then (do
          text ← map_err failed_by (scenario_spec s.templates scenarios opts)
          ok (record { path = f.export_spec; text = text; next = none }))
        else (do
          let path = scenario_path f scenarios
          text ← map_err failed_by (
              scenario_spec s.templates scenarios
                (record opts { spec_path = path; output_dir = f.output_dir; generate = true }))
          ok (record { path = path; text = text; next = some (spec_flags f path) }))

  unfoldable pub carry_out :
      Flags → Outcome FlagError Plan → Store → Outcome FlagError (Option Flags) × Store
  unfolding write_spec_data write_scenario_spec
  carry_out f (err e) store = (err e, store)
  carry_out f (ok plan) store = elim plan.next [
    | none ↦ returning none (write_spec_data plan.path plan.text store)
    | some next ↦ returning (some next) (write_scenario_spec plan.path plan.text f.overwrite store)
  ]

  unfoldable pub run_scenario : Flags → Store → Outcome FlagError (Option Flags) × Store
  unfolding scenario_plan carry_out
  run_scenario f store = carry_out f (scenario_plan f) store
