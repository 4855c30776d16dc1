-- ===== src/Issue/Pem/RoundTrip.antt =====
-- What `pemBlockForKey` writes, `ReadKeyPair` of pkg/certtool/certtool.go reads.
use certtool.Base.{ℕ, ◌≡◌, refl, sym, false, some, [], ◌++◌, ok, >>=-eq-ok}
use certtool.Base.Text.{Text, codes, same, has_prefix, contains_byte}
use certtool.Cert.{Certificate}
use certtool.Issue.Args.{PrivateKey, rsa_private, ecdsa_private, other_private}
use certtool.Issue.Pem.{
  Block, Encoding, rsa_private_key_pem_type, ec_private_key_pem_type, certificate_pem_type,
  is_age_encrypted, trim_blanks, parse_key_block, read_key_pair, pem_block_for_key,
}

-- What the documentation of encoding/pem and crypto/x509 says of the functions.
pub record EncodingLaws (encoding : Encoding) : Type 0 where
  -- an encoded block is decoded, with nothing left, if its type is one line and without hyphens
  pub decode_encoded :
      (block : Block)
      → contains_byte 10 block.kind ≡ false
      → contains_byte b'-' block.kind ≡ false
      → encoding.decode_pem (encoding.encode_pem block) ≡ some (block, [])
  -- an encoded block starts with the line of its type
  pub begin_line :
      (block : Block)
      → (rest : Text) × (encoding.encode_pem block
          ≡ codes "-----BEGIN " ++ (block.kind ++ (codes "-----" ++ rest)))
  pub pkcs1_parses :
      {bits key : ℕ}
      → encoding.parse_pkcs1 (encoding.marshal_pkcs1 (rsa_private bits key))
        ≡ ok (rsa_private bits key)
  pub ec_parses :
      {bits key : ℕ} {b : Text}
      → encoding.marshal_ec (ecdsa_private bits key) ≡ ok b
      → encoding.parse_ec b ≡ ok (ecdsa_private bits key)

module _ (encoding : Encoding) (laws : EncodingLaws encoding) where
  reads_back :
      (cert : Certificate) (der : Text) (key : PrivateKey) (block : Block)
      → encoding.parse_certificate der ≡ ok cert
      → contains_byte 10 block.kind ≡ false
      → contains_byte b'-' block.kind ≡ false
      → is_age_encrypted (encoding.encode_pem block) ≡ false
      → parse_key_block encoding block ≡ ok key
      → read_key_pair encoding
          (encoding.encode_pem (record { kind = certificate_pem_type; bytes = der }))
          (encoding.encode_pem block)
        ≡ ok (cert, key)
  unfolding read_key_pair contains_byte
  reads_back cert der key block parsed one_line no_hyphen plain k =
      rw (laws.decode_encoded (record { kind = certificate_pem_type; bytes = der }) refl refl)
        (rw parsed (rw plain (rw (laws.decode_encoded block one_line no_hyphen) (rw k refl))))

  not_age :
      (block : Block)
      → (rest : Text)
      → is_age_encrypted (codes "-----BEGIN " ++ (block.kind ++ (codes "-----" ++ rest))) ≡ false
      → encoding.encode_pem block ≡ codes "-----BEGIN " ++ (block.kind ++ (codes "-----" ++ rest))
      → is_age_encrypted (encoding.encode_pem block) ≡ false
  not_age block rest h e = rw e h

  read_as :
      (cert : Certificate) (der : Text) (key : PrivateKey) (own block : Block)
      → own ≡ block
      → read_key_pair encoding
          (encoding.encode_pem (record { kind = certificate_pem_type; bytes = der }))
          (encoding.encode_pem own)
        ≡ ok (cert, key)
      → read_key_pair encoding
          (encoding.encode_pem (record { kind = certificate_pem_type; bytes = der }))
          (encoding.encode_pem block)
        ≡ ok (cert, key)
  read_as cert der key own block e h = rw (sym e) h

  -- A certificate and a generated private key, encoded as certtool encodes them, are read back as
  -- they were; in particular the key is not taken for one encrypted with age.
  pub pem_block_for_key-round_trip :
      (cert : Certificate) (der : Text) (key : PrivateKey) (block : Block)
      → encoding.parse_certificate der ≡ ok cert
      → pem_block_for_key encoding key ≡ ok block
      → read_key_pair encoding
          (encoding.encode_pem (record { kind = certificate_pem_type; bytes = der }))
          (encoding.encode_pem block)
        ≡ ok (cert, key)
  unfolding pem_block_for_key is_age_encrypted trim_blanks has_prefix parse_key_block same
      contains_byte
  pem_block_for_key-round_trip cert der (rsa_private bits key) block parsed h =
      let own : Block = record {
        kind = rsa_private_key_pem_type;
        bytes = encoding.marshal_pkcs1 (rsa_private bits key);
      } in
      let (rest, begins) = laws.begin_line own in
      let e : own ≡ block = cc in
      read_as cert der (rsa_private bits key) own block e (
        reads_back cert der (rsa_private bits key) own parsed refl refl
          (not_age own rest refl begins) laws.pkcs1_parses)
  pem_block_for_key-round_trip cert der (ecdsa_private bits key) block parsed h =
      let (b, p, q) = >>=-eq-ok (encoding.marshal_ec (ecdsa_private bits key)) _ h in
      let own : Block = record { kind = ec_private_key_pem_type; bytes = b } in
      let (rest, begins) = laws.begin_line own in
      let e : own ≡ block = cc in
      read_as cert der (ecdsa_private bits key) own block e (
        reads_back cert der (ecdsa_private bits key) own parsed refl refl
          (not_age own rest refl begins) (laws.ec_parses p))
  pem_block_for_key-round_trip cert der (other_private signs key) block parsed h = cc
