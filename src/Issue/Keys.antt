-- ===== src/Issue/Keys.antt =====
-- The keys that pkg/certtool/certtool.go makes and signs with: `generatePrivateKeyFromType`,
-- `signatureAlgorithm` and the check of the algorithm's name.
use certtool.Base.{
  ℕ, ◌≤◌, ◌≡◌, ℤ, pos, negsuc, ltb_ℤ, Bool, ◌==◌, ◌||◌, not, if◌then◌else◌, Outcome, ok, err, ◌>>=◌,
  refuse, arith, ◌⊎◌, inl, inr, Bool-cases, subst, >>=-eq-ok,
}
use certtool.Base.Text.{Text, same, to_upper}
use certtool.Failure.{
  Failure, bad_algorithm, rsa_too_short, ecdsa_without_size, ecdsa_224, bad_key_type,
  signer_unknown,
}
use certtool.Cert.{
  rsa, ecdsa, unknown_kind, PublicKey, SignatureAlgorithm, sha256_with_rsa, ecdsa_with_sha256,
  ecdsa_with_sha384, ecdsa_with_sha512,
}
use certtool.Profile.{KeyType, rsa_algorithm, ecdsa_algorithm}
use certtool.Issue.Args.{PrivateKey, rsa_private, ecdsa_private}

-- What rsa.GenerateKey and ecdsa.GenerateKey return for a size: a key of that size, or an error.
pub record KeySource : Type 0 where
  pub rsa_key : ℕ → Outcome Failure ℕ
  pub ecdsa_key : ℕ → Outcome Failure ℕ

unfoldable pub signature_algorithm : PublicKey → Bool → Outcome Failure SignatureAlgorithm
signature_algorithm key code_signing = elim key.kind [
  | rsa bits ↦ ok sha256_with_rsa
  | ecdsa bits ↦
      if code_signing
      then ok ecdsa_with_sha256
      else if bits == 384
      then ok ecdsa_with_sha384
      else if bits == 521
      then ok ecdsa_with_sha512
      else ok ecdsa_with_sha256
  | unknown_kind ↦ err signer_unknown
]

-- the check of createCertificateAndPrivateKeyPEM
unfoldable pub check_algorithm : Text → Outcome Failure (Unit {0})
unfolding same to_upper
check_algorithm algorithm =
    let name = to_upper algorithm in
    refuse (not (same name rsa_algorithm || same name ecdsa_algorithm)) (bad_algorithm algorithm)

unfoldable pub generate_rsa : KeySource → ℤ → Outcome Failure PrivateKey
generate_rsa source (pos n) =
    if ltb_ℤ (pos n) (pos 2048)
    then err rsa_too_short
    else (do key ← source.rsa_key n; ok (rsa_private n key))
generate_rsa source (negsuc n) = err rsa_too_short

unfoldable pub generate_ecdsa : KeySource → ℤ → Outcome Failure PrivateKey
generate_ecdsa source (pos n) =
    if n == 256 || n == 384 || n == 521
    then (do key ← source.ecdsa_key n; ok (ecdsa_private n key))
    else if n == 0
    then err ecdsa_without_size
    else if n == 224
    then err ecdsa_224
    else err bad_key_type
generate_ecdsa source (negsuc n) = err bad_key_type

unfoldable pub generate_private_key_from_type : KeySource → KeyType → Outcome Failure PrivateKey
unfolding generate_rsa generate_ecdsa same to_upper
generate_private_key_from_type source key_type =
    let name = to_upper key_type.algorithm in
    if same name rsa_algorithm
    then generate_rsa source key_type.key_length
    else if same name ecdsa_algorithm
    then generate_ecdsa source key_type.key_length
    else err bad_key_type

-- RSA keys of at least 2048 bits, and the three NIST curves that TLS clients know.
unfoldable pub IsStrong : PrivateKey → Type 0
IsStrong (rsa_private bits key) = 2048 ≤ bits
IsStrong (ecdsa_private bits key) = (bits ≡ 256) ⊎ ((bits ≡ 384) ⊎ (bits ≡ 521))
IsStrong _ = ⊥

rsa-IsStrong :
    (source : KeySource) (n : ℤ) (key : PrivateKey) → generate_rsa source n ≡ ok key → IsStrong key
unfolding generate_rsa IsStrong
rsa-IsStrong source (pos n) key h = elim (Bool-cases (ltb_ℤ (pos n) (pos 2048))) [
  | inl e ↦ ground arith
  | inr e ↦
      let (k, p, q) = >>=-eq-ok (source.rsa_key n) (λ k. ok (rsa_private n k)) (rw e at h) in
      let same_key : rsa_private n k ≡ key = cc in subst IsStrong same_key (ground arith)
]
rsa-IsStrong source (negsuc n) key h = cc

ecdsa-IsStrong :
    (source : KeySource) (n : ℤ) (key : PrivateKey)
    → generate_ecdsa source n ≡ ok key
    → IsStrong key
unfolding generate_ecdsa IsStrong
ecdsa-IsStrong source (pos n) key h = elim (Bool-cases (n == 256 || n == 384 || n == 521)) [
  | inl e ↦
      let (k, p, q) = >>=-eq-ok (source.ecdsa_key n) (λ k. ok (ecdsa_private n k)) (rw e at h) in
      let same_key : ecdsa_private n k ≡ key = cc in subst IsStrong same_key (ground arith)
  | inr e ↦ ground arith
]
ecdsa-IsStrong source (negsuc n) key h = cc

-- A key that `generatePrivateKeyFromType` returns is an RSA key of at least 2048 bits or an ECDSA
-- key on P-256, P-384 or P-521, whatever the name and length of the type that was asked for.
pub generate_private_key_from_type-IsStrong :
    (source : KeySource) (key_type : KeyType) (key : PrivateKey)
    → generate_private_key_from_type source key_type ≡ ok key
    → IsStrong key
unfolding generate_private_key_from_type
generate_private_key_from_type-IsStrong source key_type key h =
    elim (Bool-cases (same (to_upper key_type.algorithm) rsa_algorithm)) [
      | inl e ↦ rsa-IsStrong source key_type.key_length key (rw e at h)
      | inr e ↦ elim (Bool-cases (same (to_upper key_type.algorithm) ecdsa_algorithm)) [
        | inl f ↦ ecdsa-IsStrong source key_type.key_length key (rw f at (rw e at h))
        | inr f ↦ elim (fails (rw f at (rw e at h))) [ ]
      ]
    ]
  where
    fails : err bad_key_type ≡ ok key → ⊥
    fails k = cc
