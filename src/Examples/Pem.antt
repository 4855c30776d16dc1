-- ===== src/Examples/Pem.antt =====
-- An encoding of PEM blocks that has the laws, and a key pair that is read back.
use certtool.Base.{
  ℕ, ◌≡◌, refl, sym, false, ◌==◌, if◌then◌else◌, some, [], ◌∷◌, ◌++◌, drop, Outcome, ok, err, arith,
}
use certtool.Base.Text.{Text, codes, contains_byte}
use certtool.Failure.{Failure, library_failure}
use certtool.Issue.Args.{PrivateKey, rsa_private, ecdsa_private, other_private}
use certtool.Issue.Pem.{Block, Encoding, certificate_pem_type, read_key_pair, pem_block_for_key}
use certtool.Issue.Pem.RoundTrip.{EncodingLaws, pem_block_for_key-round_trip}
use certtool.Examples.Samples.{plain_ca}

-- the text before the first hyphen, and the rest from it
abbrev before_hyphen : Text → Text
before_hyphen [] = []
before_hyphen (c ∷ s) = let rest = before_hyphen s in if c == b'-' then [] else c ∷ rest

abbrev from_hyphen : Text → Text
from_hyphen [] = []
from_hyphen (c ∷ s) = let rest = from_hyphen s in if c == b'-' then c ∷ s else rest

abbrev numbers_of : PrivateKey → Text
numbers_of (rsa_private bits key) = bits ∷ key ∷ []
numbers_of (ecdsa_private bits key) = bits ∷ key ∷ []
numbers_of (other_private signs key) = []

abbrev rsa_of : Text → Outcome Failure PrivateKey
rsa_of (bits ∷ key ∷ []) = ok (rsa_private bits key)
rsa_of _ = err library_failure

abbrev ecdsa_of : Text → Outcome Failure PrivateKey
ecdsa_of (bits ∷ key ∷ []) = ok (ecdsa_private bits key)
ecdsa_of _ = err library_failure

abbrev pub encode_block : Block → Text
encode_block b = codes "-----BEGIN " ++ (b.kind ++ (codes "-----" ++ b.bytes))

abbrev pub plain_encoding : Encoding
plain_encoding = record {
  decode_pem = λ t.
      let body = drop 11 t in
      some (record { kind = before_hyphen body; bytes = drop 5 (from_hyphen body) }, []);
  encode_pem = encode_block;
  parse_certificate = λ t. ok plain_ca;
  parse_pkcs1 = rsa_of;
  parse_ec = ecdsa_of;
  parse_pkcs8 = λ t. err library_failure;
  marshal_pkcs1 = numbers_of;
  marshal_ec = λ k. ok (numbers_of k);
}

before-append : (k r : Text) → contains_byte b'-' k ≡ false → before_hyphen (k ++ b'-' ∷ r) ≡ k
unfolding contains_byte
before-append [] r h = refl
before-append (c ∷ k) r h = ground (arith, before-append k r)

from-append : (k r : Text) → contains_byte b'-' k ≡ false → from_hyphen (k ++ b'-' ∷ r) ≡ b'-' ∷ r
unfolding contains_byte
from-append [] r h = refl
from-append (c ∷ k) r h = ground (arith, from-append k r)

ec_reads :
    (bits key : ℕ) (b : Text)
    → plain_encoding.marshal_ec (ecdsa_private bits key) ≡ ok b
    → ecdsa_of b ≡ ok (ecdsa_private bits key)
ec_reads bits key b e = let same_text : bits ∷ key ∷ [] ≡ b = cc in rw (sym same_text) refl

plain_laws : EncodingLaws plain_encoding
plain_laws = record {
  decode_encoded = λ b one_line h.
      let r = codes "----" ++ b.bytes in
      rw (before-append b.kind r h) (rw (from-append b.kind r h) refl);
  begin_line = λ b. (b.bytes, refl);
  pkcs1_parses = refl;
  ec_parses = λ {bits} {key} {b} e. ec_reads bits key b e;
}

abbrev key_block : Block
key_block = record { kind = codes "RSA PRIVATE KEY"; bytes = 2048 ∷ 5 ∷ [] }

encodes : pem_block_for_key plain_encoding (rsa_private 2048 5) ≡ ok key_block
unfolding pem_block_for_key
encodes = refl

pem_round_trip_example :
    read_key_pair plain_encoding
      (encode_block (record { kind = certificate_pem_type; bytes = [] }))
      (encode_block key_block)
    ≡ ok (plain_ca, rsa_private 2048 5)
pem_round_trip_example =
    pem_block_for_key-round_trip plain_encoding plain_laws plain_ca [] (rsa_private 2048 5)
      key_block refl encodes
