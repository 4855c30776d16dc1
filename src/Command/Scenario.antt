-- ===== src/Command/Scenario.antt =====
-- `runScenario`, `writeScenarioSpec`, `validateScenario`, `scenarioOptions` and `specDuration` of
-- internal/certtool/scenario.go.
pub mod Run
pub mod Modes
use certtool.Base.{
  ℕ, ◌*◌, ◌/◌, ◌%◌, ℤ, pos, negsuc, eq_ℤ, ltb_ℤ, Bool, true, false, ◌&&◌, ◌||◌, not, ◌==◌,
  if◌then◌else◌, Option, none, some, List, [], ◌∷◌, ◌++◌, is_empty, Outcome, ok, err, ◌>>=◌, ◌>>◌,
  refuse, map_err, ◌≡◌, refl,
}
use certtool.Base.Text.{Text, codes, same, join, mem_text}
use certtool.Base.Decimal.{itoa}
use certtool.Failure.{Failure, cannot_read}
use certtool.Profile.{KeyType}
use certtool.Files.Store.{Store, file_exists, Step}
use certtool.Files.Safe.{write_private}
use certtool.Files.Private.{Disk, read_file}
use certtool.Scenario.{
  ScenarioInput, input_unused, input_optional, input_required, ScenarioInfo, ScenarioOptions,
  lookup_scenario, scenario_order, required,
}
use certtool.Scenario.Header.{has_control_character}
use certtool.Scenario.Write.{Templates, scenario_spec}
use certtool.Command.{
  FlagError, not_a_scenario, flag_not_for_scenario, flag_not_for_export, scenario_needs_hostnames,
  scenario_needs_clients, scenario_self_signed, target_unused, clients_unused, hostnames_unused,
  scenario_without_organization, flag_has_control_character, bad_validity, spec_was_edited,
  failed_by, split_strings, split_hostnames,
}
use certtool.Command.KeyTypes.{string_to_key_type}
use certtool.Command.Modes.{Flags, default_flags, given}

-- the loop over the names
unfoldable pub check_known : List Text → Outcome FlagError (Unit {0})
unfolding mem_text scenario_order
check_known [] = ok tt
check_known (s ∷ ss) = if mem_text s scenario_order then check_known ss else err (not_a_scenario s)

-- A flag, whether it is set, and whether it applies when --scenario generates the certificates.
pub record UnusedFlag : Type 0 where
  pub flag : Text
  pub set : Bool
  pub generates : Bool

abbrev unused : Text → Bool → Bool → UnusedFlag
unused flag set generates = record { flag = flag; set = set; generates = generates }

-- whether a text differs from its default
abbrev changed : Text → Text → Bool
changed value default = not (same value default)

unfoldable pub unused_flags : Flags → List UnusedFlag
unfolding same
unused_flags f =
    unused (codes "--public-certificate")
      (changed f.public_certificate default_flags.public_certificate) false
    ∷ unused (codes "--private-key") (changed f.private_key default_flags.private_key) false
    ∷ unused (codes "--ca") f.ca false
    ∷ unused (codes "--max-path-len") (not (eq_ℤ f.max_path_len default_flags.max_path_len)) false
    ∷ unused (codes "--permitted-dns-domains") (given f.permitted_dns_domains) false
    ∷ unused (codes "--permitted-ip-ranges") (given f.permitted_ip_ranges) false
    ∷ unused (codes "--common-name") (given f.common_name) false
    ∷ unused (codes "--parent-public-certificate") (given f.parent_public_certificate) false
    ∷ unused (codes "--parent-private-key") (given f.parent_private_key) false
    ∷ unused (codes "--code-sign") f.code_signing false
    ∷ unused (codes "--pfx-output") (changed f.pfx_output default_flags.pfx_output) false
    ∷ unused (codes "--pfx-password") (given f.pfx_password) false
    ∷ unused (codes "--spec") (given f.spec) false
    ∷ unused (codes "--chain") (given f.chain) false
    ∷ unused (codes "--name-prefix") (given f.name_prefix) false
    ∷ unused (codes "--output-dir") (changed f.output_dir default_flags.output_dir) true
    ∷ unused (codes "--overwrite") f.overwrite true
    ∷ unused (codes "--yubikey-generate-root") f.yubikey_generate_root false
    ∷ unused (codes "--yubikey-serial") (given f.yubikey_serial) true
    ∷ unused (codes "--yubikey-slot") (changed f.yubikey_slot default_flags.yubikey_slot) true
    ∷ unused (codes "--yubikey-pin") (given f.yubikey_pin) true
    ∷ unused (codes "--yubikey-management-key") (given f.yubikey_management_key) true
    ∷ unused (codes "--yubikey-touch-policy")
        (changed f.yubikey_touch_policy default_flags.yubikey_touch_policy) false
    ∷ unused (codes "--yubikey-overwrite") f.yubikey_overwrite false
    ∷ unused (codes "--encrypt-to") (given f.encrypt_to) true
    ∷ unused (codes "--age-identity-file") (given f.age_identity_file) true
    ∷ unused (codes "--age-yubikey") f.age_yubikey true
    ∷ []

-- the loop over the flags; `export` says that --export-spec is given
unfoldable pub check_unused : Bool → List UnusedFlag → Outcome FlagError (Unit {0})
check_unused export [] = ok tt
check_unused export (u ∷ us) =
    let later = check_unused export us in
    if u.set && not u.generates
    then err (flag_not_for_scenario u.flag)
    else if u.set && export
    then err (flag_not_for_export u.flag)
    else later

-- What the scenarios use of the hostnames, the clients and the target.
pub record Uses : Type 0 where
  pub hostnames : Bool
  pub clients : Bool
  pub target : Bool

abbrev uses : ScenarioInput → Bool
uses input_unused = false
uses _ = true

-- LookupScenario's first result
abbrev info_or_zero : Option ScenarioInfo → ScenarioInfo
info_or_zero (some info) = info
info_or_zero none = record {
  name = [];
  summary = [];
  hostnames = input_unused;
  clients = input_unused;
  target = false;
  self_signed = false;
}

module _ (infos : List ScenarioInfo) where
  unfoldable pub check_scenario : Flags → Text → ScenarioInfo → Outcome FlagError (Unit {0})
  check_scenario f s info = do
    refuse (required info.hostnames && is_empty f.hostnames) (scenario_needs_hostnames s)
    refuse (required info.clients && is_empty f.clients) (scenario_needs_clients s)
    refuse (info.self_signed && f.yubikey) (scenario_self_signed s)

  -- the loop over the scenarios
  unfoldable pub check_scenarios : Flags → Uses → List Text → Outcome FlagError Uses
  unfolding lookup_scenario check_scenario
  check_scenarios f u [] = ok u
  check_scenarios f u (s ∷ ss) = do
    let info = info_or_zero (lookup_scenario infos s)
    check_scenario f s info
    check_scenarios f
        (record {
          hostnames = u.hostnames || uses info.hostnames;
          clients = u.clients || uses info.clients;
          target = u.target || info.target;
        })
        ss

  unfoldable pub validate_scenario : Flags → List Text → Outcome FlagError (Unit {0})
  unfolding check_known unused_flags check_unused check_scenarios
  validate_scenario f scenarios = do
    check_known scenarios
    check_unused (given f.export_spec) (unused_flags f)
    u ← check_scenarios f (record { hostnames = false; clients = false; target = false }) scenarios
    refuse (given f.target && not u.target) target_unused
    refuse (given f.clients && not u.clients) clients_unused
    refuse (given f.hostnames && not u.hostnames) hostnames_unused

-- the loop over the values that are written into comments
unfoldable pub check_plain : List (Text × Text) → Outcome FlagError (Unit {0})
unfolding has_control_character
check_plain [] = ok tt
check_plain ((flag, value) ∷ fs) =
    if has_control_character value then err (flag_has_control_character flag) else check_plain fs

unfoldable pub plain_flags : Flags → List (Text × Text)
plain_flags f =
    (codes "--organization", f.organization)
    ∷ (codes "--organizational-unit", f.organizational_unit)
    ∷ (codes "--country", f.country)
    ∷ (codes "--locality", f.locality)
    ∷ (codes "--province", f.province)
    ∷ (codes "--clients", f.clients)
    ∷ (codes "--target", f.target)
    ∷ (codes "--output-dir", f.output_dir)
    ∷ (codes "--export-spec", f.export_spec)
    ∷ []

unfoldable pub unless_default : Text → Text → Text
unfolding same
unless_default value default = if same value default then [] else value
