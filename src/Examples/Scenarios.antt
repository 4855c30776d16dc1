-- ===== src/Examples/Scenarios.antt =====
-- Scenarios at concrete inputs.
use certtool.Base.{
  ◌≡◌, ◌↔◌, refl, inl, inr, All, Any, true, false, ◌||◌, not, some, none, List, [], ◌∷◌, ◌++◌, ok,
  err,
}
use certtool.Base.Text.{Text, codes, join, split, mem_text}
use certtool.Failure.{control_character, scenario_files_collide}
use certtool.Net.Address.{parse_ip}
use certtool.Cert.Constraints.{dns_name_permitted}
use certtool.Cert.Constraints.Dns.{Permits}
use certtool.Spec.{spec, no_specs, add_spec, plain_fields, SpecFields}
use certtool.Scenario.{input_required, input_unused, ScenarioInfo, ScenarioOptions, scenario_order}
use certtool.Scenario.Quote.{shell_words}
use certtool.Scenario.Header.{check_scenario_text, scenario_header, made, run_command}
use certtool.Scenario.Header.Command.{command_words, run_words, commands-round_trip}
use certtool.Scenario.Header.Comment.{IsCommentLine, scenario_header-IsCommentLine}
use certtool.Scenario.Write.{Templates, sequence, scenario_spec, check_scenario_filenames}
use certtool.Scenario.Write.Safe.{IsSafeSpec, scenario_spec-IsSafeSpec}
use certtool.Scenario.Constraints.{clean_host, hostname_constraints}
use certtool.Scenario.Constraints.Permitted.{AddsDomain, AddsRange, hostname_constraints_iff}

abbrev web : ScenarioInfo
web = record {
  name = codes "web";
  summary = codes "A web server.";
  hostnames = input_required;
  clients = input_unused;
  target = false;
  self_signed = false;
}

abbrev acme : ScenarioOptions
acme = record {
  organization = codes "Acme's $HOME";
  organizational_unit = [];
  country = [];
  locality = [];
  province = [];
  hostnames = codes "www.example.com" ∷ codes "10.0.0.1" ∷ [];
  clients = [];
  key_type = [];
  validity = [];
  target = [];
  pfx_password_env = [];
  external_root = true;
  spec_path = codes "certs.yaml";
  output_dir = [];
  generate = false;
}

acme_words :
    command_words (codes "web" ∷ []) acme
    ≡ codes "certtool"
      ∷ codes "--scenario"
      ∷ codes "web"
      ∷ codes "--organization"
      ∷ codes "Acme's $HOME"
      ∷ codes "--hostnames"
      ∷ codes "www.example.com,10.0.0.1"
      ∷ codes "--yubikey"
      ∷ codes "--export-spec"
      ∷ codes "certs.yaml"
      ∷ []
unfolding command_words certtool.Scenario.Header.Command.flag_words
    certtool.Scenario.Header.Command.one_flag_words certtool.Scenario.Header.subject_flags join
acme_words = refl

web_known : All (λ s. mem_text s scenario_order ≡ true) (codes "web" ∷ [])
unfolding mem_text scenario_order
web_known = (refl, tt)

commands_example :
    (shell_words (join (codes " ") (made (codes "web" ∷ []) acme))
      ≡ some (command_words (codes "web" ∷ []) acme))
    × (shell_words (run_command acme) ≡ some (run_words acme))
commands_example = commands-round_trip (codes "web") [] acme web_known

acme_checked : check_scenario_text acme ≡ ok tt
unfolding check_scenario_text certtool.Scenario.Header.has_control_character
acme_checked = refl

line_break_refused :
    check_scenario_text
      (record acme { organization = codes "Acme" ++ (10 ∷ codes "- commonName: x") })
    ≡ err
        (control_character (codes "organization") (codes "Acme" ++ (10 ∷ codes "- commonName: x")))
unfolding check_scenario_text certtool.Scenario.Header.has_control_character
line_break_refused = refl

header_example : All IsCommentLine (split 10 (scenario_header (codes "web" ∷ []) acme))
header_example = scenario_header-IsCommentLine (codes "web") [] acme web_known acme_checked

abbrev web_fields : SpecFields
web_fields = record (plain_fields (codes "web")) { filename = codes "web-server" }

-- templates that write a list of one entry, which is read as one certificate
abbrev sample_templates : Templates
sample_templates = record {
  infos = web ∷ [];
  execute = λ file o. ok (codes "- commonName: web");
  parse = λ text. ok (sequence (record { head_comment = []; rest = text } ∷ []));
  encode = λ d. ok (codes "- commonName: web");
  read_specs = λ text. ok (add_spec (spec web_fields no_specs) no_specs);
  parse_address = λ text. none;
}

acme_text :
    scenario_spec sample_templates (codes "web" ∷ []) acme
    ≡ ok (scenario_header (codes "web" ∷ []) acme ++ codes "- commonName: web")
unfolding scenario_spec certtool.Scenario.Header.has_control_character
    certtool.Spec.Validate.validate_hostnames certtool.Host.Valid.validate_hostname parse_ip
    certtool.Host.Dns.validate_dns_name certtool.Base.Text.trim_suffix
    certtool.Spec.Validate.check_specs certtool.Spec.Validate.validate_all
    certtool.Spec.Validate.validate_spec certtool.Spec.Validate.validate_names
    certtool.Spec.Validate.validate_filename certtool.Spec.Validate.spec_pfx
    certtool.Profile.pfx_format certtool.Spec.Validate.validate_purpose
    certtool.Spec.Validate.validate_emails certtool.Spec.Validate.has_ca_constraints
    certtool.Spec.Validate.parse_ip_ranges certtool.Base.Decimal.read_decimal
    certtool.Base.Text.contains_byte certtool.Base.Text.has_prefix certtool.Base.Text.is_space join
    certtool.Base.Text.lower_byte mem_text certtool.Base.Text.same split certtool.Base.Text.to_lower
    certtool.Base.Text.trim_left certtool.Base.Text.trim_space certtool.Host.Dns.check_bytes
    certtool.Host.Dns.first_label certtool.Host.Dns.label_byte certtool.Host.Dns.validate_dns_label
    certtool.Host.Dns.validate_labels certtool.Host.Valid.after_last_at
    certtool.Host.Valid.host_without_port certtool.Host.Valid.validate_email_address
    certtool.Net.Address.parse_ipv4 certtool.Net.Address.parse_ipv6 certtool.Net.HostPort.cut
    certtool.Net.HostPort.split_host_port certtool.Net.Range.parse_cidr certtool.Profile.get_profile
    certtool.Profile.lookup_text certtool.Profile.normalized
    certtool.Scenario.Header.check_text_fields check_scenario_text
    certtool.Scenario.Header.check_values certtool.Scenario.Header.comments
    certtool.Scenario.Header.flag certtool.Scenario.Header.flags
    certtool.Scenario.Header.header_lines made run_command scenario_header
    certtool.Scenario.Header.subject_flags certtool.Scenario.Header.text_fields
    certtool.Scenario.Quote.all_plain certtool.Scenario.Quote.escape_quotes
    certtool.Scenario.Quote.plain_byte certtool.Scenario.Quote.shell_quote
    certtool.Scenario.Write.accept_spec certtool.Scenario.Write.add_summary
    certtool.Scenario.Write.check_inputs check_scenario_filenames
    certtool.Scenario.Write.check_scenario_pfx certtool.Scenario.Write.claim_name
    certtool.Scenario.Write.render_all certtool.Scenario.Write.render_scenario
    certtool.Scenario.Write.template_failure certtool.Scenario.Write.with_summary
    certtool.Scenario.lookup_scenario certtool.Spec.Validate.below_no_limit
    certtool.Spec.Validate.is_local_name
acme_text = refl

scenario_spec_example :
    IsSafeSpec sample_templates
      (codes "web" ∷ [])
      acme
      (scenario_header (codes "web" ∷ []) acme ++ codes "- commonName: web")
scenario_spec_example =
    scenario_spec-IsSafeSpec sample_templates (codes "web" ∷ []) acme
      (scenario_header (codes "web" ∷ []) acme ++ codes "- commonName: web") acme_text

same_file_refused :
    check_scenario_filenames
      (add_spec (spec web_fields no_specs) (add_spec (spec web_fields no_specs) no_specs))
      []
    ≡ err (scenario_files_collide (codes "web") (codes "web") (codes "web-server"))
unfolding check_scenario_filenames certtool.Scenario.Write.claim_name certtool.Profile.lookup_text
same_file_refused = refl

hostname_constraints_example :
    ((dns_name_permitted (codes "www.example.com") (hostname_constraints acme.hostnames).dns ≡ true)
      ↔ Any
          (AddsDomain (Permits (certtool.Base.Text.to_lower (codes "www.example.com"))))
          acme.hostnames)
    × ((mem_text (codes "10.0.0.1/32") (hostname_constraints acme.hostnames).ip ≡ true)
        ↔ Any (AddsRange (λ s. codes "10.0.0.1/32" ≡ s)) acme.hostnames)
    × (Any
          (λ h. (parse_ip (clean_host h) ≡ none) × (clean_host h ≡ codes "www.example.com"))
          acme.hostnames
        → dns_name_permitted (codes "www.example.com") (hostname_constraints acme.hostnames).dns
          ≡ true)
hostname_constraints_example =
    hostname_constraints_iff acme.hostnames (codes "www.example.com") (codes "10.0.0.1/32")
