-- ===== src/Issue/Pem.antt =====
-- Key pairs as PEM: `ReadKeyPair` and `pemBlockForKey` of pkg/certtool/certtool.go, and
-- `IsAgeEncrypted` of pkg/certtool/encrypt.go.
pub mod RoundTrip
use certtool.Base.{
  Bool, true, false, ◌||◌, not, ◌==◌, if◌then◌else◌, Option, none, some, List, [], ◌∷◌, ◌++◌,
  is_empty, any, ℕ, Outcome, ok, err, ◌>>=◌, ◌>>◌, refuse,
}
use certtool.Base.Text.{Text, codes, same, has_prefix}
use certtool.Failure.{
  Failure, no_pem_data, pem_remainder, key_encrypted_with_age, key_encrypted, pem_type_unsupported,
  key_not_encodable,
}
use certtool.Cert.{Certificate}
use certtool.Issue.Args.{PrivateKey, rsa_private, ecdsa_private, other_private}

-- pem.Block
pub record Block : Type 0 where
  pub kind : Text
  pub bytes : Text

-- The functions of encoding/pem and crypto/x509 that are called here.
pub record Encoding : Type 0 where
  -- pem.Decode: the first block and what follows it
  pub decode_pem : Text → Option (Block × Text)
  pub encode_pem : Block → Text
  pub parse_certificate : Text → Outcome Failure Certificate
  pub parse_pkcs1 : Text → Outcome Failure PrivateKey
  pub parse_ec : Text → Outcome Failure PrivateKey
  pub parse_pkcs8 : Text → Outcome Failure PrivateKey
  pub marshal_pkcs1 : PrivateKey → Text
  pub marshal_ec : PrivateKey → Outcome Failure Text

abbrev pub rsa_private_key_pem_type : Text
rsa_private_key_pem_type = codes "RSA PRIVATE KEY"

abbrev pub ec_private_key_pem_type : Text
ec_private_key_pem_type = codes "EC PRIVATE KEY"

abbrev pub pkcs8_private_key_pem_type : Text
pkcs8_private_key_pem_type = codes "PRIVATE KEY"

abbrev pub encrypted_pkcs8_pem_type : Text
encrypted_pkcs8_pem_type = codes "ENCRYPTED PRIVATE KEY"

abbrev pub certificate_pem_type : Text
certificate_pem_type = codes "CERTIFICATE"

-- armor.Header
abbrev pub age_header : Text
age_header = codes "-----BEGIN AGE ENCRYPTED FILE-----"

-- space, tab, carriage return and line feed
is_blank : ℕ → Bool
is_blank c = c == 32 || (c == 9 || (c == 13 || c == 10))

-- bytes.TrimLeft(data, " \t\r\n")
unfoldable pub trim_blanks : Text → Text
unfolding is_blank
trim_blanks [] = []
trim_blanks (c ∷ s) = let rest = trim_blanks s in if is_blank c then rest else c ∷ s

unfoldable pub is_age_encrypted : Text → Bool
unfolding trim_blanks has_prefix
is_age_encrypted contents =
    let contents = trim_blanks contents in
    has_prefix contents age_header || has_prefix contents (codes "age-encryption.org/")

-- pem.Decode, where it must find one block and nothing behind it
unfoldable pub single_block : Option (Block × Text) → Outcome Failure Block
single_block none = err no_pem_data
single_block (some (block, remainder)) =
    if not (is_empty remainder) then err pem_remainder else ok block

module _ (encoding : Encoding) where
  -- the switch on privateKeyPemBlock.Type
  unfoldable pub parse_key_block : Block → Outcome Failure PrivateKey
  unfolding same
  parse_key_block block =
      if same block.kind rsa_private_key_pem_type
      then encoding.parse_pkcs1 block.bytes
      else if same block.kind ec_private_key_pem_type
      then encoding.parse_ec block.bytes
      else if same block.kind pkcs8_private_key_pem_type
      then encoding.parse_pkcs8 block.bytes
      else if same block.kind encrypted_pkcs8_pem_type
      then err key_encrypted
      else err (pem_type_unsupported block.kind)

  unfoldable pub read_key_pair : Text → Text → Outcome Failure (Certificate × PrivateKey)
  unfolding single_block is_age_encrypted parse_key_block
  read_key_pair public_cert_file_data private_key_file_data = do
    cert_block ← single_block (encoding.decode_pem public_cert_file_data)
    cert ← encoding.parse_certificate cert_block.bytes
    refuse (is_age_encrypted private_key_file_data) key_encrypted_with_age
    key_block ← single_block (encoding.decode_pem private_key_file_data)
    key ← parse_key_block key_block
    ok (cert, key)

  unfoldable pub pem_block_for_key : PrivateKey → Outcome Failure Block
  pem_block_for_key (rsa_private bits key) = ok (record {
    kind = rsa_private_key_pem_type;
    bytes = encoding.marshal_pkcs1 (rsa_private bits key);
  })
  pem_block_for_key (ecdsa_private bits key) = do
    b ← encoding.marshal_ec (ecdsa_private bits key)
    ok (record { kind = ec_private_key_pem_type; bytes = b })
  pem_block_for_key (other_private signs key) = err key_not_encodable
