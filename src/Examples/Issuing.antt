-- ===== src/Examples/Issuing.antt =====
-- Certificates issued from concrete arguments.
use certtool.Base.{
  ℕ, pos, negsuc, ◌≡◌, refl, ◌↔◌, ltb_ℤ, Bool, true, false, none, some, if◌then◌else◌, List, [],
  ◌∷◌, Outcome, ok, err, ◌>>=◌,
}
use certtool.Base.Text.{Text, codes}
use certtool.Cert.{Certificate, PublicKey, KeyKind, rsa, ecdsa, usage_code_signing}
use certtool.Cert.Constraints.{mark_critical, apply_name_constraints, inherit_name_constraints}
use certtool.Issue.Args.{Args, rsa_private, ecdsa_private}
use certtool.Issue.Keys.{
  IsStrong, generate_private_key_from_type, generate_private_key_from_type-IsStrong,
}
use certtool.Issue.Template.{new_certificate_template}
use certtool.Issue.Template.Roles.{Role, new_certificate_template-Role}
use certtool.Issue.Check.{check_issuer}
use certtool.Issue.Check.Accepts.{CanIssue, AllowsUsages, check_issuer_iff}
use certtool.Issue.Create.{Request, find_parent, prepare, self_signed_template}
use certtool.Issue.Create.Within.{Within, prepare-Within}
use certtool.Issue.Create.Root.{self_signed_template-issues}
use certtool.Examples.Samples.{
  plain_ca, example_ca, sub_ca, ca_key, plain_args, sample_crypto, bare_address,
}

abbrev value_or {ℓ} : {E : Type 0} {A : Type ℓ} → A → Outcome E A → A
value_or a (ok b) = b
value_or a (err e) = a

-- the template of a server for a.example.com, whose names are the ones that example_ca permits
abbrev request : Request
request =
    value_or
      (record {
        template = plain_ca;
        parent = plain_ca;
        key = ca_key;
        signer = record { public = ca_key };
      })
      (prepare sample_crypto plain_args (ecdsa_private 256 3))

finds_parent :
    find_parent sample_crypto plain_args ≡ ok (some (example_ca, record { public = ca_key }))
unfolding find_parent
finds_parent = refl

prepares : prepare sample_crypto plain_args (ecdsa_private 256 3) ≡ ok request
unfolding prepare new_certificate_template certtool.Base.Text.trim_space
    certtool.Host.Valid.validate_hostname certtool.Net.Address.parse_ip
    certtool.Host.Dns.validate_dns_name certtool.Base.Text.trim_suffix certtool.Host.Names.clean
    certtool.Base.Text.to_lower certtool.Net.Print.ip_string check_issuer apply_name_constraints
    certtool.Cert.Constraints.keep_names certtool.Cert.Constraints.dns_name_permitted
    certtool.Cert.Constraints.keep_ips certtool.Cert.Constraints.ip_permitted
    inherit_name_constraints certtool.Issue.Keys.signature_algorithm certtool.Net.Address.to4
prepares = refl

prepare_example : Within example_ca sample_crypto.now request.template
prepare_example =
    prepare-Within sample_crypto plain_args (ecdsa_private 256 3) example_ca
      (record { public = ca_key }) request finds_parent prepares

check_issuer_example : (check_issuer example_ca sub_ca (pos 200) ≡ ok sub_ca) ↔ (
    CanIssue example_ca sub_ca (pos 200)
    × ((apply_name_constraints example_ca sub_ca >>= inherit_name_constraints example_ca)
        ≡ ok sub_ca)
    × AllowsUsages example_ca sub_ca)
check_issuer_example = check_issuer_iff example_ca sub_ca sub_ca (pos 200)

abbrev server_template : Certificate
server_template =
    value_or plain_ca (new_certificate_template bare_address (pos 200) 12 plain_args ca_key)

makes_template :
    new_certificate_template bare_address (pos 200) 12 plain_args ca_key ≡ ok server_template
unfolding new_certificate_template certtool.Base.Text.trim_space
    certtool.Host.Valid.validate_hostname certtool.Net.Address.parse_ip
    certtool.Host.Dns.validate_dns_name certtool.Base.Text.trim_suffix certtool.Host.Names.clean
    certtool.Base.Text.to_lower certtool.Net.Print.ip_string
makes_template = refl

new_certificate_template_example : Role (pos 200) plain_args ca_key server_template
new_certificate_template_example =
    new_certificate_template-Role bare_address (pos 200) 12 plain_args ca_key server_template
      makes_template

makes_key :
    generate_private_key_from_type sample_crypto.keys
      (record { algorithm = codes "rsa"; key_length = pos 3072 })
    ≡ ok (rsa_private 3072 3)
unfolding generate_private_key_from_type
makes_key = refl

generate_private_key_from_type_example : IsStrong (rsa_private 3072 3)
generate_private_key_from_type_example =
    generate_private_key_from_type-IsStrong sample_crypto.keys
      (record { algorithm = codes "rsa"; key_length = pos 3072 }) (rsa_private 3072 3) makes_key

abbrev root_args : Args
root_args = record plain_args { ca = true; issuer = none }

abbrev root : Certificate
root = value_or plain_ca (self_signed_template sample_crypto root_args (record { public = ca_key }))

makes_root : self_signed_template sample_crypto root_args (record { public = ca_key }) ≡ ok root
unfolding self_signed_template new_certificate_template certtool.Issue.Keys.signature_algorithm
makes_root = refl

root_started : ltb_ℤ (pos 300) root.not_before ≡ false
unfolding self_signed_template new_certificate_template certtool.Issue.Keys.signature_algorithm
root_started = refl

root_running : ltb_ℤ root.not_after (pos 300) ≡ false
unfolding self_signed_template new_certificate_template certtool.Issue.Keys.signature_algorithm
root_running = refl

self_signed_template_example :
    check_issuer root sub_ca (pos 300) ≡ ok (if sub_ca.is_ca then mark_critical sub_ca else sub_ca)
self_signed_template_example =
    self_signed_template-issues sample_crypto root_args (record { public = ca_key }) root sub_ca
      (pos 300) refl refl refl refl makes_root root_started root_running
