-- ===== src/Generate/Reuse.antt =====
-- Certificates that exist already: `reuseKeyPair`, `checkReusedKeyPair`, `reusedCAConstraints`,
-- `dnsDomainsName` and `ipRangesName` of pkg/certtool/spec.go.
use certtool.Base.{
  ◌+◌, ◌*◌, ◌^◌, ℤ, pos, negsuc, eq_ℤ, true, false, ◌&&◌, not, ◌==◌, if◌then◌else◌, Option, none,
  some, List, [], ◌∷◌, ◌++◌, map, is_empty, Outcome, ok, err, refuse,
}
use certtool.Base.Text.{Text, codes, same, to_lower, join, sort_texts}
use certtool.Base.Decimal.{itoa}
use certtool.Net.Range.{IpNet, network_of}
use certtool.Net.Print.{ip_string}
use certtool.Failure.{
  Failure, existing_other_domains, existing_other_ranges, existing_other_path_len,
}
use certtool.Cert.{unknown_kind, Name, unknown_algorithm, Certificate}
use certtool.Cert.Constraints.{inherit_name_constraints}
use certtool.Issue.Args.{Args}

-- slices.Compact
unfoldable pub compact : List Text → List Text
unfolding same
compact [] = []
compact (s ∷ []) = s ∷ []
compact (s ∷ t ∷ ss) = let rest = compact (t ∷ ss) in if same s t then rest else s ∷ rest

unfoldable pub dns_domains_name : List Text → Text
unfolding compact join sort_texts to_lower
dns_domains_name domains =
    if is_empty domains
    then codes "none"
    else join (codes ", ") (compact (sort_texts (map to_lower domains)))

-- net.IPNet.String
unfoldable pub range_string : IpNet → Text
range_string r =
    let n = network_of r.bits r.ones r.addr in
    ip_string (if n.width == 32 then 65535 * 2 ^ 32 + n.number else n.number)
    ++ b'/' ∷ itoa n.prefix

unfoldable pub ip_ranges_name : List IpNet → Text
unfolding compact join sort_texts range_string
ip_ranges_name ranges =
    if is_empty ranges
    then codes "none"
    else join (codes ", ") (compact (sort_texts (map range_string ranges)))

-- the zero value of x509.Certificate
abbrev pub zero_certificate : Certificate
zero_certificate = record {
  serial_number = 0;
  subject = no_name;
  issuer = no_name;
  not_before = pos 0;
  not_after = pos 0;
  key_usage = record {
    digital_signature = false;
    key_encipherment = false;
    cert_sign = false;
    crl_sign = false;
    other_bits = false;
  };
  ext_key_usage = [];
  basic_constraints_valid = false;
  is_ca = false;
  max_path_len = pos 0;
  max_path_len_zero = false;
  dns_names = [];
  ip_addresses = [];
  email_addresses = [];
  permitted_dns_domains = [];
  permitted_ip_ranges = [];
  permitted_dns_domains_critical = false;
  signature_algorithm = unknown_algorithm;
  public_key = record { kind = unknown_kind; identity = 0 };
}
  where
    no_name : Name
    no_name = record {
      country = [];
      organization = [];
      organizational_unit = [];
      locality = [];
      province = [];
      street_address = [];
      postal_code = [];
      serial_number = [];
      common_name = [];
    }

-- the constraints that generating the CA would give it
unfoldable pub wanted : Option Certificate → Args → Outcome Failure Certificate
unfolding inherit_name_constraints
wanted parent args =
    let want = record zero_certificate {
      is_ca = true;
      permitted_dns_domains = args.permitted_dns_domains;
      permitted_ip_ranges = args.permitted_ip_ranges;
    } in
    elim parent [ none ↦ ok want | some p ↦ inherit_name_constraints p want ]

-- -1 is no limit
unfoldable pub wanted_path_len : Option ℤ → ℤ
wanted_path_len none = negsuc 0
wanted_path_len (some n) = n

unfoldable pub path_len_of : Certificate → ℤ
path_len_of cert =
    if eq_ℤ cert.max_path_len (pos 0) && not cert.max_path_len_zero
    then negsuc 0
    else cert.max_path_len

-- what differs first
unfoldable pub compare_constraints :
    Certificate → Certificate → Option ℤ → Outcome Failure (Unit {0})
unfolding dns_domains_name ip_ranges_name path_len_of wanted_path_len same
compare_constraints cert want limit =
    if not (
      same (dns_domains_name cert.permitted_dns_domains)
        (dns_domains_name want.permitted_dns_domains))
    then err existing_other_domains
    else if not
        (same (ip_ranges_name cert.permitted_ip_ranges) (ip_ranges_name want.permitted_ip_ranges))
    then err existing_other_ranges
    else refuse (not (eq_ℤ (path_len_of cert) (wanted_path_len limit))) existing_other_path_len
