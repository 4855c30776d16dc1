-- ===== src/Cert.antt =====
-- The fields of x509.Certificate, pkix.Name and key types that pkg/certtool/certtool.go reads and
-- writes. Times are numbers of nanoseconds; a key is known by its kind and an identity.
pub mod Constraints
use certtool.Base.{ℕ, ℤ, Bool, true, false, ◌||◌, ◌==◌, List, [], ◌∷◌}
use certtool.Base.Text.{Text}
use certtool.Net.Range.{IpNet}

pub data ExtKeyUsage : Type 0 where
  usage_any server_auth client_auth usage_code_signing email_protection : ExtKeyUsage
  other_usage : ℕ → ExtKeyUsage

unfoldable pub usage_eq : ExtKeyUsage → ExtKeyUsage → Bool
usage_eq usage_any usage_any = true
usage_eq server_auth server_auth = true
usage_eq client_auth client_auth = true
usage_eq usage_code_signing usage_code_signing = true
usage_eq email_protection email_protection = true
usage_eq (other_usage m) (other_usage n) = m == n
usage_eq _ _ = false

-- The bits of x509.KeyUsage; `other_bits` is set when any bit but these four is.
pub record KeyUsage : Type 0 where
  pub digital_signature : Bool
  pub key_encipherment : Bool
  pub cert_sign : Bool
  pub crl_sign : Bool
  pub other_bits : Bool

-- KeyUsage != 0
unfoldable pub is_set : KeyUsage → Bool
is_set u = u.digital_signature || u.key_encipherment || u.cert_sign || u.crl_sign || u.other_bits

pub data KeyKind : Type 0 where
  rsa ecdsa : ℕ → KeyKind
  unknown_kind : KeyKind

pub record PublicKey : Type 0 where
  pub kind : KeyKind
  pub identity : ℕ

pub data SignatureAlgorithm : Type 0 where
  unknown_algorithm sha256_with_rsa ecdsa_with_sha256 ecdsa_with_sha384 ecdsa_with_sha512 :
      SignatureAlgorithm

-- pkix.Name
pub record Name : Type 0 where
  pub country : List Text
  pub organization : List Text
  pub organizational_unit : List Text
  pub locality : List Text
  pub province : List Text
  pub street_address : List Text
  pub postal_code : List Text
  pub serial_number : Text
  pub common_name : Text

pub record Certificate : Type 0 where
  pub serial_number : ℕ
  pub subject : Name
  pub issuer : Name
  pub not_before : ℤ
  pub not_after : ℤ
  pub key_usage : KeyUsage
  pub ext_key_usage : List ExtKeyUsage
  pub basic_constraints_valid : Bool
  pub is_ca : Bool
  pub max_path_len : ℤ
  pub max_path_len_zero : Bool
  pub dns_names : List Text
  pub ip_addresses : List ℕ
  pub email_addresses : List Text
  pub permitted_dns_domains : List Text
  pub permitted_ip_ranges : List IpNet
  pub permitted_dns_domains_critical : Bool
  pub signature_algorithm : SignatureAlgorithm
  pub public_key : PublicKey
