-- ===== src/Issue/Template.antt =====
-- `newCertificateTemplate` of pkg/certtool/certtool.go.
pub mod Roles
use certtool.Base.{
  ℕ, ◌≡◌, refl, ℤ, pos, negsuc, ◌+ℤ◌, eq_ℤ, is_negative, Bool, true, false, ◌&&◌, ◌||◌, not,
  if◌then◌else◌, Option, none, some, List, [], ◌∷◌, ◌++◌, is_empty, Outcome, ok, err, ◌>>=◌, ◌>>◌,
  refuse, map_err,
}
use certtool.Base.Text.{Text, codes, trim_prefix}
use certtool.Base.Decimal.{itoa}
use certtool.Failure.{Failure, negative_path_length, bad_permitted_domain, code_signing_email}
use certtool.Host.Dns.{validate_dns_name}
use certtool.Host.Valid.{Address}
use certtool.Host.Names.{AltNames, subject_alt_names}
use certtool.Spec.Validate.{validate_emails}
use certtool.Cert.{
  ExtKeyUsage, server_auth, client_auth, usage_code_signing, email_protection, KeyUsage, KeyKind,
  rsa, PublicKey, SignatureAlgorithm, unknown_algorithm, Certificate,
}
use certtool.Cert.Constraints.{dot, localhost}
use certtool.Issue.Args.{Args, args_to_pkix_name}

abbrev pub loopback_text : Text
loopback_text = codes "127.0.0.1"

-- digital signature, and key encipherment as the flag says
abbrev pub leaf_usage : Bool → KeyUsage
leaf_usage encipher = record {
  digital_signature = true;
  key_encipherment = encipher;
  cert_sign = false;
  crl_sign = false;
  other_bits = false;
}

-- certificate and CRL signing, and digital signature
abbrev pub ca_usage : KeyUsage
ca_usage = record {
  digital_signature = true;
  key_encipherment = false;
  cert_sign = true;
  crl_sign = true;
  other_bits = false;
}

unfoldable pub is_rsa : PublicKey → Bool
is_rsa key = elim key.kind [ rsa bits ↦ true | _ ↦ false ]

unfoldable pub ext_usages : Args → List ExtKeyUsage
ext_usages args =
    if args.code_signing
    then usage_code_signing ∷ []
    else if args.ca && args.email_protection
    then server_auth ∷ client_auth ∷ email_protection ∷ []
    else if not args.ca && not (is_empty args.email_addresses)
    then email_protection ∷ client_auth ∷ []
    else server_auth ∷ client_auth ∷ []

-- the fields that every template has
unfoldable pub base_template : ℤ → ℕ → Args → PublicKey → Certificate
unfolding is_rsa ext_usages
base_template now serial args key = record {
  serial_number = serial;
  subject = args_to_pkix_name args (itoa serial);
  issuer = args_to_pkix_name args (itoa serial);
  not_before = now;
  not_after = now +ℤ args.validity;
  key_usage = leaf_usage (not args.code_signing && is_rsa key);
  ext_key_usage = ext_usages args;
  basic_constraints_valid = true;
  is_ca = args.ca;
  max_path_len = pos 0;
  max_path_len_zero = false;
  dns_names = [];
  ip_addresses = [];
  email_addresses = [];
  permitted_dns_domains = [];
  permitted_ip_ranges = [];
  permitted_dns_domains_critical = false;
  signature_algorithm = unknown_algorithm;
  public_key = key;
}

-- MaxPathLen and MaxPathLenZero: -1 is no limit
unfoldable pub limit_path : Option ℤ → Certificate → Outcome Failure Certificate
limit_path none t = ok (record t { max_path_len = negsuc 0 })
limit_path (some n) t =
    if is_negative n
    then err (negative_path_length n)
    else ok (record t { max_path_len = n; max_path_len_zero = eq_ℤ n (pos 0) })

-- the loop over args.PermittedDNSDomains
unfoldable pub check_permitted : List Text → Outcome Failure (Unit {0})
check_permitted [] = ok tt
check_permitted (domain ∷ domains) =
    map_err (bad_permitted_domain domain) (validate_dns_name (trim_prefix dot domain))
    >> check_permitted domains

unfoldable pub ca_template : Args → Certificate → Outcome Failure Certificate
unfolding limit_path check_permitted
ca_template args t = do
  limited ← limit_path args.max_path_len (record t { key_usage = ca_usage })
  check_permitted args.permitted_dns_domains
  ok (record limited {
    permitted_dns_domains = args.permitted_dns_domains;
    permitted_ip_ranges = args.permitted_ip_ranges;
    permitted_dns_domains_critical =
        not (is_empty args.permitted_dns_domains) || not (is_empty args.permitted_ip_ranges);
  })

unfoldable pub name_template : List Text → Certificate → Outcome Failure Certificate
unfolding subject_alt_names
name_template hostnames t = do
  names ← subject_alt_names hostnames
  ok (record t { dns_names = names.dns_names; ip_addresses = names.ip_addresses })

-- mail.ParseAddress is the argument `parse_address`.
module _ (parse_address : Text → Option Address) where
  unfoldable pub leaf_template : Args → Certificate → Outcome Failure Certificate
  unfolding name_template validate_emails
  leaf_template args t =
      if not (is_empty args.email_addresses)
      then (do
        refuse args.code_signing code_signing_email
        validate_emails parse_address args.email_addresses
        name_template args.hostnames (record t { email_addresses = args.email_addresses }))
      else if not args.code_signing
      then name_template (args.hostnames ++ localhost ∷ loopback_text ∷ []) t
      else ok t

  -- `serial` is the random serial number.
  unfoldable pub new_certificate_template : ℤ → ℕ → Args → PublicKey → Outcome Failure Certificate
  unfolding base_template ca_template leaf_template
  new_certificate_template now serial args key =
      let t = base_template now serial args key in
      if args.ca then ca_template args t else leaf_template args t
