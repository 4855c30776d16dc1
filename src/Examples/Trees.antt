-- ===== src/Examples/Trees.antt =====
-- Spec trees and chains at concrete inputs.
use certtool.Base.{
  ℕ, pos, ◌≡◌, refl, ◌↔◌, ◌⊎◌, ◌≤◌, inl, Bool, true, false, List, [], ◌∷◌, map, Outcome, ok, err,
  is_empty, All,
}
use certtool.Base.Text.{Text, codes, Distinct}
use certtool.Spec.{
  SpecFields, CertificateSpec, spec, Specs, no_specs, add_spec, plain_fields, all_fields,
}
use certtool.Spec.Validate.{validate_filename, validate_spec, validate_filenames, check_specs}
use certtool.Spec.Validate.Accepts.{IsValid, validate_spec_iff}
use certtool.Spec.Validate.Filenames.{HasFileName, validate_filenames_iff}
use certtool.Spec.Passwords.{
  specs_with_pfx_password, specs_with_unprotected_pfx, replace_pfx_passwords,
}
use certtool.Spec.Passwords.Replace.{replace_pfx_passwords_lem}
use certtool.Spec.Depth.{ca_depth}
use certtool.Chain.{chain_to_spec, chain_specs}
use certtool.Chain.Unique.{all_names, chain_to_spec-Distinct}
use certtool.Chain.Shape.{Layered, chain_to_spec-Layered}
use certtool.Chain.Validity.{chain_to_spec-valid}
use certtool.Examples.Samples.{bare_address}

-- a root with an intermediate CA, which has a person below it
abbrev person : CertificateSpec
person =
    spec (record (plain_fields (codes "Ann")) { email_addresses = codes "ann@example.com" ∷ [] })
      no_specs

abbrev tier : CertificateSpec
tier =
    spec
      (record (plain_fields (codes "Tier")) {
        certificate_authority = true;
        filename = codes "tier";
      })
      (add_spec person no_specs)

abbrev hierarchy : CertificateSpec
hierarchy =
    spec (record (plain_fields (codes "Root")) { certificate_authority = true })
      (add_spec tier no_specs)

accepts : validate_spec bare_address hierarchy ≡ ok tt
unfolding validate_spec certtool.Spec.Validate.validate_names validate_filename
    certtool.Spec.Validate.spec_pfx certtool.Profile.pfx_format
    certtool.Spec.Validate.validate_hostnames certtool.Spec.Validate.validate_purpose
    certtool.Spec.Validate.validate_emails certtool.Spec.Validate.parse_ip_ranges
    certtool.Host.Valid.validate_email_address certtool.Host.Dns.validate_dns_name
    certtool.Base.Text.trim_suffix certtool.Base.Text.split certtool.Base.Text.has_prefix
    certtool.Spec.Validate.has_ca_constraints
accepts = refl

validate_spec_example :
    (validate_spec bare_address hierarchy ≡ ok tt) ↔ IsValid bare_address hierarchy
validate_spec_example = validate_spec_iff bare_address hierarchy

validate_filenames_example :
    (validate_filenames (add_spec hierarchy no_specs) ≡ ok tt)
    ↔ All HasFileName (all_fields (add_spec hierarchy no_specs))
validate_filenames_example = validate_filenames_iff (add_spec hierarchy no_specs)

one_tier : ca_depth hierarchy ≡ 1
unfolding ca_depth
one_tier = refl

abbrev with_password : Specs
with_password =
    add_spec
      (spec
        (record (plain_fields (codes "App")) {
          pfx = codes "modern";
          pfx_password = codes "secret";
        })
        no_specs)
      no_specs

passwords_example :
    (specs_with_pfx_password (replace_pfx_passwords (codes "PFX_PASSWORD") with_password) ≡ [])
    × (specs_with_unprotected_pfx (replace_pfx_passwords (codes "PFX_PASSWORD") with_password)
        ≡ specs_with_unprotected_pfx with_password)
passwords_example = replace_pfx_passwords_lem (codes "PFX_PASSWORD") with_password refl

-- widths 1, 2: a root and two leaves
abbrev two_layers : Specs
two_layers = chain_specs (1 ∷ 2 ∷ []) (codes "svc") (codes "Org") (codes "prod")

builds :
    chain_to_spec (pos 1 ∷ pos 2 ∷ []) (codes "svc") (codes "Org") (codes "prod") ≡ ok two_layers
unfolding chain_to_spec certtool.Base.Text.trim_space certtool.Base.Text.mem_text
builds = refl

leaf_names :
    all_names two_layers ≡ codes "prod Org Root CA" ∷ codes "prod svc 1" ∷ codes "prod svc 2" ∷ []
unfolding chain_specs certtool.Spec.Passwords.names_in certtool.Base.Text.trim_space
leaf_names = refl

chain_names_example : Distinct (all_names two_layers)
chain_names_example =
    chain_to_spec-Distinct (pos 1 ∷ pos 2 ∷ []) (codes "svc") (codes "Org") (codes "prod")
      two_layers builds

chain_shape_example :
    (counts : List ℕ) × (map pos counts ≡ pos 1 ∷ pos 2 ∷ []) × Layered counts two_layers
chain_shape_example =
    chain_to_spec-Layered (pos 1 ∷ pos 2 ∷ []) (codes "svc") (codes "Org") (codes "prod") two_layers
      builds

chain_validity_example : check_specs bare_address two_layers ≡ ok two_layers
chain_validity_example =
    chain_to_spec-valid bare_address (pos 1 ∷ pos 2 ∷ []) (codes "svc") (codes "Org") (codes "prod")
      two_layers builds
