-- ===== src/Generate/Existing/Fits.antt =====
-- What a reused certificate is known to be: `checkReusedKeyPair` of pkg/certtool/spec.go.
use certtool.Base.{
  ◌≡◌, refl, ap, ◌⊎◌, inl, inr, ltb_ℤ, Option-cases, true, false, ◌||◌, not, Option, none, some,
  is_empty, ok, map_err, map_err-eq-ok, >>=-eq-ok, arith, subst,
}
use certtool.Base.Text.{same_iff}
use certtool.Failure.{Failure, existing_unreadable, existing_cannot_sign}
use certtool.Cert.{Certificate, PublicKey, KeyKind, rsa, ecdsa, unknown_kind, email_protection}
use certtool.Generate.Existing.Kept.{KeepsConstraints, check_constraints-KeepsConstraints}
use certtool.Spec.{SpecFields}
use certtool.Issue.Args.{PrivateKey, Signer, KeyPair, Issuer, Args, signer_of}
use certtool.Issue.Pem.{read_key_pair}
use certtool.Issue.Check.{has_usage}
use certtool.Issue.Create.{Crypto, known}
use certtool.Generate.Reuse.{}
use certtool.Generate.Existing.{
  Signatures, same_kind, same_key, check_fields, pair_certificate, parent_certificate,
  check_signature, check_constraints, check_reused,
}

-- The certificate is the one of its key, has the name and role of the spec and has not expired, and
-- has email protection among its extended usages, or none, where it is asked for.
pub record Fits (crypto : Crypto) (f : SpecFields) (args : Args) (cert : Certificate)
    (key : PrivateKey) : Type 0 where
  pub owner : (s : Signer) × (signer_of key ≡ some s) × (cert.public_key ≡ s.public)
  pub named : cert.subject.common_name ≡ f.common_name
  pub role : cert.is_ca ≡ f.certificate_authority
  pub alive : ltb_ℤ cert.not_after crypto.now ≡ false
  pub email :
      (not args.email_protection
        || (is_empty cert.ext_key_usage || has_usage cert.ext_key_usage email_protection))
      ≡ true

-- The certificate of the parent in the hierarchy: the issuer's, or the one in the parent's files.
pub data IsParent (crypto : Crypto) (args : Args) : Option Certificate → Type 0 where
  of_issuer : {i : Issuer} → args.issuer ≡ some i → IsParent crypto args i.certificate
  of_files :
      {kp : KeyPair} {cert : Certificate} {key : PrivateKey}
      → args.issuer ≡ none
      → args.parent_key_pair ≡ some kp
      → read_key_pair crypto.encoding kp.public_certificate kp.private_key ≡ ok (cert, key)
      → IsParent crypto args (some cert)
  no_parent : args.issuer ≡ none → args.parent_key_pair ≡ none → IsParent crypto args none

-- Its parent's signature holds, or its own where it has no parent.
pub SignedInPlace : Signatures → Certificate → Option Certificate → Type 0
SignedInPlace signatures cert none = signatures.self_signed cert ≡ true
SignedInPlace signatures cert (some parent) = signatures.signed_by cert parent ≡ true

same_kind-eq : (k l : KeyKind) → same_kind k l ≡ true → k ≡ l
unfolding same_kind
same_kind-eq (rsa m) (rsa n) h = ground arith
same_kind-eq (ecdsa m) (ecdsa n) h = ground arith
same_kind-eq unknown_kind unknown_kind h = refl
same_kind-eq (rsa m) (ecdsa n) h = cc
same_kind-eq (rsa m) unknown_kind h = cc
same_kind-eq (ecdsa m) (rsa n) h = cc
same_kind-eq (ecdsa m) unknown_kind h = cc
same_kind-eq unknown_kind (rsa n) h = cc
same_kind-eq unknown_kind (ecdsa n) h = cc

same_key-eq : (k l : PublicKey) → same_key k l ≡ true → k ≡ l
unfolding same_key
same_key-eq k l h =
    let kinds = same_kind-eq k.kind l.kind (ground arith) in
    let keys : k.identity ≡ l.identity = ground arith in cc

fields_fit :
    (crypto : Crypto) (f : SpecFields) (args : Args) (cert : Certificate) (key : PrivateKey)
    (signer : Signer)
    → signer_of key ≡ some signer
    → check_fields crypto f args cert signer ≡ ok tt
    → Fits crypto f args cert key
unfolding check_fields
fields_fit crypto f args cert key signer e h = record {
  owner = (signer, e, same_key-eq _ _ (ground arith));
  named = (same_iff _ _).0 (ground arith);
  role = ground arith;
  alive = ground arith;
  email = ground arith;
}

known-some {ℓ} : {A : Type ℓ} (x : Failure) (o : Option A) (a : A) → known x o ≡ ok a → o ≡ some a
unfolding known
known-some x none a h = cc
known-some x (some b) a h = let e : b ≡ a = cc in ap some e

parent_certificate-IsParent :
    (crypto : Crypto) (args : Args) (parent : Option Certificate)
    → parent_certificate crypto args ≡ ok parent
    → IsParent crypto args parent
unfolding parent_certificate pair_certificate
parent_certificate-IsParent crypto args parent h = elim (Option-cases args.issuer) [
  | inr (i, e) ↦
      let same_parent : i.certificate ≡ parent = cc (rw e at h) in
      subst (IsParent crypto args) same_parent (of_issuer e)
  | inl e ↦ elim (Option-cases args.parent_key_pair) [
    | inl f ↦
        let same_parent : none ≡ parent = cc (rw (e, f) at h) in
        subst (IsParent crypto args) same_parent (no_parent e f)
    | inr (kp, f) ↦
        let ((cert, key), p, q) =
          >>=-eq-ok (read_key_pair crypto.encoding kp.public_certificate kp.private_key) _
            (rw (e, f) at h) in
        let same_parent : some cert ≡ parent = cc in
        subst (IsParent crypto args) same_parent (of_files e f p)
  ]
]

check_signature-SignedInPlace :
    (signatures : Signatures) (cert : Certificate) (parent : Option Certificate)
    → check_signature signatures cert parent ≡ ok tt
    → SignedInPlace signatures cert parent
unfolding check_signature SignedInPlace
check_signature-SignedInPlace signatures cert none h = ground arith
check_signature-SignedInPlace signatures cert (some parent) h = ground arith

pub Reusable : Crypto → Signatures → SpecFields → Args → KeyPair → Certificate × PrivateKey → Type 0
Reusable crypto signatures f args kp (cert, key) =
    (read_key_pair crypto.encoding kp.public_certificate kp.private_key ≡ ok (cert, key))
    × Fits crypto f args cert key
    × (parent : Option Certificate) × IsParent crypto args parent
    × SignedInPlace signatures cert parent
    × ((f.certificate_authority ≡ false) ⊎ KeepsConstraints args cert parent)

-- Files that exist are only reused for a certificate that fits the spec: it belongs to the key, has
-- the spec's name and role, has not expired, allows email protection where it is asked for, and is
-- signed by its parent in the hierarchy, by itself where it has none. A CA's constraints read as
-- those that it would be generated with, inherited ones included, and its path length is the same.
pub check_reused-Reusable :
    (crypto : Crypto) (signatures : Signatures) (f : SpecFields) (args : Args) (kp : KeyPair)
    (pair : Certificate × PrivateKey)
    → check_reused crypto signatures f args kp ≡ ok pair
    → Reusable crypto signatures f args kp pair
unfolding check_reused Reusable
check_reused-Reusable crypto signatures f args kp pair h =
    let ((c, k), p, h1) =
      >>=-eq-ok
        (map_err existing_unreadable
          (read_key_pair crypto.encoding kp.public_certificate kp.private_key))
        _ h in
    let (signer, q, h2) = >>=-eq-ok (known existing_cannot_sign (signer_of k)) _ h1 in
    let (u, r, h3) = >>=-eq-ok (check_fields crypto f args c signer) _ h2 in
    let (parent, s, h4) = >>=-eq-ok (parent_certificate crypto args) _ h3 in
    let (v, t, h5) = >>=-eq-ok (check_signature signatures c parent) _ h4 in
    let (w, x, h6) = >>=-eq-ok (check_constraints f args c parent) _ h5 in
    let same_pair : (c, k) ≡ pair = cc in
    subst (Reusable crypto signatures f args kp) same_pair (
      map_err-eq-ok existing_unreadable _ p,
      fields_fit crypto f args c k signer (known-some _ _ signer q) r,
      parent,
      parent_certificate-IsParent crypto args parent s,
      check_signature-SignedInPlace signatures c parent t,
      check_constraints-KeepsConstraints f args c parent x,
    )
