-- ===== src/Examples/Exports.antt =====
-- Exported specs at concrete inputs.
use certtool.Base.{
  ◌≡◌, refl, ℤ, pos, true, false, is_empty, Option, none, some, List, [], ◌∷◌, Outcome, ok, err,
}
use certtool.Base.Text.{Text, codes}
use certtool.Failure.{library_failure}
use certtool.Spec.{SpecFields, spec, Specs, no_specs, add_spec, plain_fields}
use certtool.Spec.Passwords.{specs_with_pfx_password}
use certtool.Issue.Args.{Args, default_key_type, fill_defaults}
use certtool.Files.Store.{Store}
use certtool.Generate.Arguments.{Environment, place_args}
use certtool.Command.Modes.{Flags, default_flags}
use certtool.Command.Single.{args_to_spec, certificate_args}
use certtool.Command.Single.Agrees.{IsPlainLeaf, certificate_args-exported}
use certtool.Command.Run.{Program, export_specs, exported, job}
use certtool.Command.Run.Exports.{job-OnlyExports}
use certtool.Examples.Samples.{sample_crypto}
use certtool.Examples.Commands.{sample_system}

abbrev no_files : Store
no_files p = none

-- the password of the .pfx is in the environment
abbrev environment : Environment
environment = record {
  parse_duration = λ s. some default_flags.validity;
  getenv = λ variable. codes "secret";
}

abbrev year : ℤ → Text
year d = codes "8760h0m0s"

abbrev server_flags : Flags
server_flags = record default_flags { common_name = codes "web"; hostnames = codes "a.com" }

abbrev server_args : Args
server_args = record {
  ca = false;
  max_path_len = none;
  permitted_dns_domains = [];
  permitted_ip_ranges = [];
  common_name = codes "web";
  country = codes "US";
  organization = codes "cloudfra";
  organizational_unit = codes "gows";
  locality = codes "Seattle";
  province = codes "WA";
  hostnames = codes "a.com" ∷ [];
  validity = default_flags.validity;
  parent_key_pair = none;
  issuer = none;
  key_type = some default_key_type;
  code_signing = false;
  target = [];
  pfx_password = codes "secret";
  pfx = [];
  email_addresses = [];
  email_protection = false;
}

server_plain : IsPlainLeaf server_flags
server_plain = record {
  leaf = refl;
  no_limit = refl;
  no_domains = refl;
  no_ranges = refl;
  no_key = refl;
  no_parent = refl;
  no_password = refl;
}

makes_args :
    certificate_args environment sample_system.disk server_flags none no_files ≡ ok server_args
unfolding certificate_args certtool.Net.Address.parse_ip certtool.Host.Dns.validate_dns_name
    certtool.Base.Text.trim_suffix
makes_args = refl

certificate_args-exported_example :
    (x : SpecFields) × (b : Args) × (args_to_spec year environment server_flags
      ≡ ok (add_spec (spec x no_specs) no_specs))
    × (place_args environment (spec x no_specs) none none ≡ ok b)
    × (fill_defaults b ≡ fill_defaults server_args)
certificate_args-exported_example =
    certificate_args-exported year environment server_flags server_plain refl refl
      sample_system.disk none no_files server_args makes_args

abbrev signing_specs : Specs
signing_specs =
    add_spec
      (spec
        (record (plain_fields (codes "code")) { code_signing = true; pfx_password = codes "pw" })
        no_specs)
      no_specs

abbrev program : Program
program = record {
  system = sample_system;
  crypto = sample_crypto;
  signatures = record { self_signed = λ c. true; signed_by = λ c p. true };
  environment = environment;
  authorized_key = λ c. ok [];
  made_dir = ok tt;
  open_key = λ c. err library_failure;
  read_spec = λ path store. ok signing_specs;
  marshal_spec = λ ss. ok [];
  parse_recipient = λ s. ok s;
  parse_identities = λ s. ok (s ∷ []);
  certificate_pem = λ c. [];
}

abbrev export_flags : Flags
export_flags = record default_flags { spec = codes "a.yaml"; export_spec = codes "b.yaml" }

exports : job program export_flags no_files ≡ ok (export_specs (exported signing_specs))
unfolding job exported
exports = refl

job-OnlyExports_example :
    (specs : Specs) × (export_specs (exported signing_specs) ≡ export_specs specs)
    × (specs_with_pfx_password specs ≡ [])
job-OnlyExports_example =
    job-OnlyExports program export_flags refl no_files (export_specs (exported signing_specs))
      exports
