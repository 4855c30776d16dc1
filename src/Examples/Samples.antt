-- ===== src/Examples/Samples.antt =====
-- Sample certificates, arguments and libraries.
use certtool.Base.{pos, negsuc, ◌*◌, ◌+◌, ◌^◌, true, false, Option, none, some, [], ◌∷◌, ok, err}
use certtool.Base.Text.{Text, codes}
use certtool.Failure.{library_failure}
use certtool.Net.Range.{IpNet}
use certtool.Host.Valid.{Address}
use certtool.Cert.{ecdsa, PublicKey, unknown_algorithm, Name, Certificate, server_auth, client_auth}
use certtool.Issue.Args.{Args}
use certtool.Issue.Pem.{Encoding}
use certtool.Issue.Template.{ca_usage}
use certtool.Issue.Create.{Crypto}

abbrev pub some_name : Name
some_name = record {
  country = codes "US" ∷ [];
  organization = [];
  organizational_unit = [];
  locality = [];
  province = [];
  street_address = [];
  postal_code = [];
  serial_number = codes "7";
  common_name = codes "ca";
}

abbrev pub ca_key : PublicKey
ca_key = record { kind = ecdsa 384; identity = 1 }

-- a CA without constraints, valid from 100 to 1000
abbrev pub plain_ca : Certificate
plain_ca = record {
  serial_number = 7;
  subject = some_name;
  issuer = some_name;
  not_before = pos 100;
  not_after = pos 1000;
  key_usage = ca_usage;
  ext_key_usage = server_auth ∷ client_auth ∷ [];
  basic_constraints_valid = true;
  is_ca = true;
  max_path_len = negsuc 0;
  max_path_len_zero = false;
  dns_names = [];
  ip_addresses = [];
  email_addresses = [];
  permitted_dns_domains = [];
  permitted_ip_ranges = [];
  permitted_dns_domains_critical = false;
  signature_algorithm = unknown_algorithm;
  public_key = ca_key;
}

-- 10.0.0.0/8 and 10.1.0.0/16
abbrev pub ten : IpNet
ten = record { bits = 32; ones = 8; addr = 10 * 2 ^ 24 }

abbrev pub ten_one : IpNet
ten_one = record { bits = 32; ones = 16; addr = 10 * 2 ^ 24 + 2 ^ 16 }

-- a CA for example.com and 10.0.0.0/8
abbrev pub example_ca : Certificate
example_ca = record plain_ca {
  permitted_dns_domains = codes "example.com" ∷ [];
  permitted_ip_ranges = ten ∷ [];
  permitted_dns_domains_critical = true;
}

-- a CA template for api.example.com, without ranges of its own
abbrev pub sub_ca : Certificate
sub_ca = record plain_ca { permitted_dns_domains = codes "api.example.com" ∷ [] }

abbrev pub plain_args : Args
plain_args = record {
  ca = false;
  max_path_len = none;
  permitted_dns_domains = [];
  permitted_ip_ranges = [];
  common_name = codes "svc";
  country = codes "US";
  organization = codes "Org";
  organizational_unit = codes "Unit";
  locality = codes "Town";
  province = codes "WA";
  hostnames = codes "a.example.com:443" ∷ [];
  validity = pos 5000;
  parent_key_pair = none;
  issuer =
      some (record { certificate = some example_ca; signer = some (record { public = ca_key }) });
  key_type = none;
  code_signing = false;
  target = [];
  pfx_password = [];
  pfx = [];
  email_addresses = [];
  email_protection = false;
}

-- an encoding that writes a block as the line of its type, and reads none
abbrev pub sample_encoding : Encoding
sample_encoding = record {
  decode_pem = λ t. none;
  encode_pem = λ b. b.kind;
  parse_certificate = λ t. ok plain_ca;
  parse_pkcs1 = λ t. err library_failure;
  parse_ec = λ t. err library_failure;
  parse_pkcs8 = λ t. err library_failure;
  marshal_pkcs1 = λ k. codes "key";
  marshal_ec = λ k. ok (codes "key");
}

-- what mail.ParseAddress returns for an address without a name
abbrev pub bare_address : Text → Option Address
bare_address email = some (record { name = []; address = email })

abbrev pub sample_crypto : Crypto
sample_crypto = record {
  keys = record { rsa_key = λ n. ok 3; ecdsa_key = λ n. ok 3 };
  encoding = sample_encoding;
  parse_address = bare_address;
  now = pos 200;
  serial = 12;
  create_certificate = λ t. λ p. λ k. λ s. ok (codes "der");
  legacy_pfx = λ k. λ c. λ p. ok (codes "pfx");
  modern_pfx = λ k. λ c. λ p. ok (codes "pfx");
}
