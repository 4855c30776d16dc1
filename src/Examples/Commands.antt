-- ===== src/Examples/Commands.antt =====
-- Values of the command line's flags, at concrete inputs.
use certtool.Base.{◌≡◌, ◌↔◌, refl, pos, true, false, none, ◌||◌, not, [], ◌∷◌, ok, err, is_ok}
use certtool.Base.Text.{codes}
use certtool.Profile.{KeyType, ecdsa_algorithm}
use certtool.Issue.Keys.{generate_private_key_from_type}
use certtool.Spec.{no_specs}
use certtool.Files.Safe.{Faults}
use certtool.Scenario.{ScenarioInfo, input_required, input_unused}
use certtool.Scenario.Write.{other_document}
use certtool.Command.Scenario.{validate_scenario}
use certtool.Command.Scenario.Run.{System, spec_flags}
use certtool.Command.Scenario.Modes.{scenario_modes_iff}
use certtool.Command.Modes.{
  Flags, default_flags, given, yubikey_flags, validate_modes, chain_and_spec, constraints_on_tree,
  yubikey_flags_alone,
}
use certtool.Command.Modes.Consistent.{Consistent, validate_modes_iff}
use certtool.Command.KeyTypes.{string_to_key_type}
use certtool.Command.KeyTypes.Offered.{IsOffered, working, string_to_key_type-generates}

abbrev p384 : KeyType
p384 = record { algorithm = ecdsa_algorithm; key_length = pos 384 }

p384_accepted : string_to_key_type (codes "ecdsa-384") ≡ ok p384
unfolding string_to_key_type
p384_accepted = refl

string_to_key_type_example :
    IsOffered p384
    × (is_ok (generate_private_key_from_type (working (λ n. n) (λ n. n)) p384) ≡ true)
string_to_key_type_example =
    string_to_key_type-generates (λ n. n) (λ n. n) (codes "ecdsa-384") p384 p384_accepted

abbrev chain_flags : Flags
chain_flags = record default_flags { chain = codes "1,2,3"; overwrite = true }

validate_modes_example : (validate_modes chain_flags ≡ ok tt) ↔ Consistent chain_flags
validate_modes_example = validate_modes_iff chain_flags

modes_forms :
    (validate_modes chain_flags ≡ ok tt)
    × (validate_modes (record chain_flags { spec = codes "a.yaml" }) ≡ err chain_and_spec)
    × (validate_modes (record chain_flags { max_path_len = pos 0 }) ≡ err constraints_on_tree)
    × (validate_modes (record default_flags { yubikey_pin = codes "1" }) ≡ err yubikey_flags_alone)
unfolding validate_modes
modes_forms = (refl, refl, refl, refl)

abbrev web_info : ScenarioInfo
web_info = record {
  name = codes "web";
  summary = codes "A web server.";
  hostnames = input_required;
  clients = input_unused;
  target = false;
  self_signed = false;
}

abbrev web_flags : Flags
web_flags = record default_flags {
  scenario = codes "web";
  hostnames = codes "a.com";
  yubikey_pin = codes "123456";
}

web_flags_accepted : validate_scenario (web_info ∷ []) web_flags (codes "web" ∷ []) ≡ ok tt
unfolding validate_scenario
web_flags_accepted = refl

abbrev no_faults : Faults
no_faults = record {
  directory = false;
  create_fails = false;
  write_fails = false;
  written = 0;
  chmod_fails = false;
  sync_fails = false;
  close_fails = false;
  rename_fails = false;
  remove_fails = false;
  temporary = codes "tmp";
}

abbrev pub sample_system : System
sample_system = record {
  disk = record {
    faults = λ p. no_faults;
    remove_fails = λ p. false;
    encrypt = λ t r. ok t;
    decrypt = λ t i. ok t;
  };
  templates = record {
    infos = web_info ∷ [];
    execute = λ file o. ok [];
    parse = λ text. ok other_document;
    encode = λ d. ok [];
    read_specs = λ text. ok no_specs;
    parse_address = λ text. none;
  };
  duration_string = λ d. [];
  make_dir = λ p. ok tt;
  read_error = λ p. none;
}

not_exported : given web_flags.export_spec ≡ false
not_exported = refl

scenario_modes_example :
    (validate_modes (spec_flags sample_system web_flags (codes "web.yaml")) ≡ ok tt)
    ↔ ((not (yubikey_flags web_flags) || web_flags.yubikey || web_flags.age_yubikey) ≡ true)
scenario_modes_example =
    scenario_modes_iff (web_info ∷ []) sample_system web_flags (codes "web" ∷ []) b'w'
      (codes "eb.yaml") web_flags_accepted not_exported

-- A PIN without a YubiKey is refused, behind a spec that was written.
pin_alone :
    validate_modes (spec_flags sample_system web_flags (codes "web.yaml")) ≡ err yubikey_flags_alone
unfolding validate_modes spec_flags
pin_alone = refl
