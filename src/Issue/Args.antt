-- ===== src/Issue/Args.antt =====
-- The arguments of a certificate: `Args`, `KeyPair`, `Issuer`, `GetKeyType`, `fillDefaults` and
-- `argsToPkixName` of pkg/certtool/certtool.go, and the private keys.
use certtool.Base.{
  ℕ, ℤ, pos, eq_ℤ, Bool, true, false, if◌then◌else◌, Option, none, some, List, [], ◌∷◌, ◌*◌,
  Outcome, ok, err,
}
use certtool.Base.Text.{Text, codes}
use certtool.Net.Range.{IpNet}
use certtool.Failure.{Failure}
use certtool.Cert.{rsa, ecdsa, unknown_kind, PublicKey, Name, Certificate}
use certtool.Profile.{KeyType, TargetProfile, windows10_target, get_profile, rsa_algorithm}

-- A private key, by the size of its modulus or curve and what tells it from others. A key of another
-- kind may be able to sign, such as Ed25519, or not, such as X25519.
pub data PrivateKey : Type 0 where
  rsa_private ecdsa_private : ℕ → ℕ → PrivateKey
  other_private : Bool → ℕ → PrivateKey

-- crypto.Signer: a key in memory or on a token, known by its public key
pub record Signer : Type 0 where
  pub public : PublicKey

pub record KeyPair : Type 0 where
  pub public_certificate : Text
  pub private_key : Text
  pub pfx : Text

pub record Issuer : Type 0 where
  pub certificate : Option Certificate
  pub signer : Option Signer

pub record Args : Type 0 where
  pub ca : Bool
  pub max_path_len : Option ℤ
  pub permitted_dns_domains : List Text
  pub permitted_ip_ranges : List IpNet
  pub common_name : Text
  pub country : Text
  pub organization : Text
  pub organizational_unit : Text
  pub locality : Text
  pub province : Text
  pub hostnames : List Text
  pub validity : ℤ
  pub parent_key_pair : Option KeyPair
  pub issuer : Option Issuer
  pub key_type : Option KeyType
  pub code_signing : Bool
  pub target : Text
  pub pfx_password : Text
  pub pfx : Text
  pub email_addresses : List Text
  pub email_protection : Bool

abbrev pub default_key_type : KeyType
default_key_type = record { algorithm = rsa_algorithm; key_length = pos 2048 }

-- a nil key type is the default's
unfoldable pub get_key_type : Option KeyType → KeyType
get_key_type none = default_key_type
get_key_type (some k) = k

-- time.Hour * 24 * 365, in nanoseconds
abbrev pub one_year : ℤ
one_year = pos (3600000000000 * 24 * 365)

-- if field == "" { field = default }
unfoldable pub default_to : Text → Text → Text
default_to default [] = default
default_to default (c ∷ s) = c ∷ s

-- the key type of a profile that is known
unfoldable pub profile_key : Outcome Failure TargetProfile → Option KeyType
profile_key (ok profile) = some profile.key_type
profile_key (err e) = none

unfoldable pub key_or {ℓ} : {A : Type ℓ} → Option A → Option A → Option A
key_or (some k) _ = some k
key_or none k = k

unfoldable pub fill_defaults : Args → Args
unfolding default_to profile_key key_or
fill_defaults args =
    let organization = default_to (codes "Certtool") args.organization in
    let target =
      if args.code_signing then default_to windows10_target args.target else args.target in
    let profiled = if args.code_signing then profile_key (get_profile target) else none in
    record args {
      country = default_to (codes "US") args.country;
      organization = organization;
      common_name = default_to organization args.common_name;
      organizational_unit = default_to (codes "None") args.organizational_unit;
      locality = default_to (codes "Seattle") args.locality;
      province = default_to (codes "WA") args.province;
      validity = if eq_ℤ args.validity (pos 0) then one_year else args.validity;
      target = target;
      key_type = key_or args.key_type (key_or profiled (some default_key_type));
    }

unfoldable pub args_to_pkix_name : Args → Text → Name
args_to_pkix_name args serial_number = record {
  country = args.country ∷ [];
  organization = args.organization ∷ [];
  organizational_unit = args.organizational_unit ∷ [];
  locality = args.locality ∷ [];
  province = args.province ∷ [];
  street_address = [];
  postal_code = [];
  common_name = args.common_name;
  serial_number = serial_number;
}

-- publicKey, for keys that certtool generates
unfoldable pub public_key : PrivateKey → Option PublicKey
public_key (rsa_private bits key) = some (record { kind = rsa bits; identity = key })
public_key (ecdsa_private bits key) = some (record { kind = ecdsa bits; identity = key })
public_key (other_private signs key) = none

-- privateKey.(crypto.Signer)
unfoldable pub signer_of : PrivateKey → Option Signer
signer_of (rsa_private bits key) =
    some (record { public = record { kind = rsa bits; identity = key } })
signer_of (ecdsa_private bits key) =
    some (record { public = record { kind = ecdsa bits; identity = key } })
signer_of (other_private true key) =
    some (record { public = record { kind = unknown_kind; identity = key } })
signer_of (other_private false key) = none
