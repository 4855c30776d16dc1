-- ===== src/Generate/Existing.antt =====
-- Whether existing files can be reused: `checkReusedKeyPair` and `reuseKeyPair` of
-- pkg/certtool/spec.go.
pub mod Kept
pub mod Fits
use certtool.Base.{
  ℕ, ltb_ℤ, Bool, true, false, ◌&&◌, ◌||◌, not, xor, ◌==◌, if◌then◌else◌, Option, none, some, List,
  [], ◌∷◌, is_empty, Outcome, ok, err, refuse, map_err, ◌>>=◌, ◌>>◌,
}
use certtool.Base.Text.{Text, same}
use certtool.Failure.{
  Failure, existing_unreadable, existing_cannot_sign, existing_other_key, existing_other_name,
  existing_other_ca, existing_expired, existing_without_email, existing_not_self_signed,
  existing_not_signed, existing_unchecked,
}
use certtool.Cert.{KeyKind, rsa, ecdsa, unknown_kind, PublicKey, Certificate, email_protection}
use certtool.Profile.{PfxFormat}
use certtool.Spec.{SpecFields}
use certtool.Issue.Args.{PrivateKey, Signer, KeyPair, Issuer, Args, signer_of}
use certtool.Issue.Pem.{read_key_pair}
use certtool.Issue.Check.{has_usage}
use certtool.Issue.Create.{Crypto, known}
use certtool.Generate.Reuse.{wanted, compare_constraints}

-- crypto.PublicKey's Equal
unfoldable pub same_kind : KeyKind → KeyKind → Bool
same_kind (rsa m) (rsa n) = m == n
same_kind (ecdsa m) (ecdsa n) = m == n
same_kind unknown_kind unknown_kind = true
same_kind _ _ = false

unfoldable pub same_key : PublicKey → PublicKey → Bool
unfolding same_kind
same_key k l = same_kind k.kind l.kind && k.identity == l.identity

-- CheckSignature with the certificate's own key, and CheckSignatureFrom
pub record Signatures : Type 0 where
  pub self_signed : Certificate → Bool
  pub signed_by : Certificate → Certificate → Bool

-- the checks of what the certificate says of itself, in their order
unfoldable pub check_fields :
    Crypto → SpecFields → Args → Certificate → Signer → Outcome Failure (Unit {0})
unfolding same_key same has_usage
check_fields crypto f args cert signer = do
  refuse (not (same_key cert.public_key signer.public)) existing_other_key
  refuse (not (same cert.subject.common_name f.common_name)) existing_other_name
  refuse (xor cert.is_ca f.certificate_authority) existing_other_ca
  refuse (ltb_ℤ cert.not_after crypto.now) existing_expired
  refuse
      (args.email_protection
        && (not (is_empty cert.ext_key_usage)
            && not (has_usage cert.ext_key_usage email_protection)))
      existing_without_email

unfoldable pub pair_certificate : Crypto → Option KeyPair → Outcome Failure (Option Certificate)
pair_certificate crypto none = ok none
pair_certificate crypto (some kp) = do
  (cert, key) ← read_key_pair crypto.encoding kp.public_certificate kp.private_key
  ok (some cert)

unfoldable pub parent_certificate : Crypto → Args → Outcome Failure (Option Certificate)
unfolding pair_certificate
parent_certificate crypto args = elim args.issuer [
  | some i ↦ ok i.certificate
  | none ↦ pair_certificate crypto args.parent_key_pair
]

unfoldable pub check_signature :
    Signatures → Certificate → Option Certificate → Outcome Failure (Unit {0})
check_signature signatures cert none =
    refuse (not (signatures.self_signed cert)) existing_not_self_signed
check_signature signatures cert (some parent) =
    refuse (not (signatures.signed_by cert parent)) existing_not_signed

unfoldable pub check_constraints :
    SpecFields → Args → Certificate → Option Certificate → Outcome Failure (Unit {0})
unfolding wanted compare_constraints
check_constraints f args cert parent = if not f.certificate_authority then ok tt else (do
  want ← map_err existing_unchecked (wanted parent args)
  compare_constraints cert want args.max_path_len)

-- what does not read a file: the certificate and the key, if they fit
unfoldable pub check_reused :
    Crypto → Signatures → SpecFields → Args → KeyPair → Outcome Failure (Certificate × PrivateKey)
unfolding check_fields parent_certificate check_signature check_constraints known signer_of
check_reused crypto signatures f args kp = do
  (cert, key) ←
      map_err existing_unreadable
        (read_key_pair crypto.encoding kp.public_certificate kp.private_key)
  signer ← known existing_cannot_sign (signer_of key)
  check_fields crypto f args cert signer
  parent ← parent_certificate crypto args
  check_signature signatures cert parent
  check_constraints f args cert parent
  ok (cert, key)
