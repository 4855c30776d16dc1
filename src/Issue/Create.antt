-- ===== src/Issue/Create.antt =====
-- `GenerateKeyPair`, `createCertificateAndPrivateKeyPEM` and `CreateSelfSignedCertificate` of
-- pkg/certtool/certtool.go, and `toPFX` of pkg/certtool/pkcs12.go.
pub mod Within
pub mod Root
use certtool.Base.{
  ℕ, ℤ, ltb_ℤ, Bool, true, false, ◌&&◌, ◌||◌, not, if◌then◌else◌, Option, none, some, List, [],
  is_empty, Outcome, ok, err, ◌>>=◌, ◌>>◌, refuse,
}
use certtool.Base.Text.{Text}
use certtool.Failure.{
  Failure, two_issuers, issuer_incomplete, certificate_without_key, key_without_certificate,
  parent_key_cannot_sign, bad_key_type,
}
use certtool.Host.Valid.{Address}
use certtool.Profile.{TargetProfile, get_profile, PfxFormat, pfx_format}
use certtool.Cert.{PublicKey, Certificate}
use certtool.Issue.Args.{
  PrivateKey, Signer, KeyPair, Issuer, Args, get_key_type, fill_defaults, public_key, signer_of,
}
use certtool.Issue.Keys.{
  KeySource, signature_algorithm, check_algorithm, generate_private_key_from_type,
}
use certtool.Issue.Pem.{Block, Encoding, certificate_pem_type, read_key_pair, pem_block_for_key}
use certtool.Issue.Template.{ca_usage, new_certificate_template}
use certtool.Issue.Check.{check_issuer}

-- The libraries and the clock that a certificate is made with.
pub record Crypto : Type 0 where
  pub keys : KeySource
  pub encoding : Encoding
  pub parse_address : Text → Option Address
  pub now : ℤ
  pub serial : ℕ
  -- x509.CreateCertificate of a template, a parent, a public key and a signer
  pub create_certificate : Certificate → Certificate → PublicKey → Signer → Outcome Failure Text
  -- pkcs12.LegacyDES.Encode and pkcs12.Modern.Encode of a key, a certificate and a password
  pub legacy_pfx : PrivateKey → Certificate → Text → Outcome Failure Text
  pub modern_pfx : PrivateKey → Certificate → Text → Outcome Failure Text

-- A certificate and the key that signs in its name.
abbrev pub Parent : Type 0
Parent = Certificate × Signer

-- What x509.CreateCertificate is called with.
pub record Request : Type 0 where
  pub template : Certificate
  pub parent : Certificate
  pub key : PublicKey
  pub signer : Signer

unfoldable pub known {ℓ} : {A : Type ℓ} → Failure → Option A → Outcome Failure A
known failure none = err failure
known failure (some a) = ok a

unfoldable pub pair_of {ℓ κ} : {A : Type ℓ} {B : Type κ} → Option A → Option B → Option (A × B)
pair_of (some a) (some b) = some (a, b)
pair_of _ _ = none

unfoldable pub issuer_parent : Option Issuer → Outcome Failure (Option Parent)
unfolding known pair_of
issuer_parent none = ok none
issuer_parent (some i) = do
  parent ← known issuer_incomplete (pair_of i.certificate i.signer)
  ok (some parent)

module _ (crypto : Crypto) where
  unfoldable pub read_parent : KeyPair → Outcome Failure (Option Parent)
  unfolding known signer_of
  read_parent pair = do
    (cert, key) ← read_key_pair crypto.encoding pair.public_certificate pair.private_key
    signer ← known parent_key_cannot_sign (signer_of key)
    ok (some (cert, signer))

  -- the switch on args.ParentKeyPair
  unfoldable pub pair_parent : Option KeyPair → Outcome Failure (Option Parent)
  unfolding read_parent
  pair_parent none = ok none
  pair_parent (some pair) =
      let has_public_certificate = not (is_empty pair.public_certificate) in
      let has_private_key = not (is_empty pair.private_key) in
      if has_public_certificate && not has_private_key
      then err certificate_without_key
      else if not has_public_certificate && has_private_key
      then err key_without_certificate
      else if has_public_certificate && has_private_key
      then read_parent pair
      else ok none

  -- at most one of the two is set
  unfoldable pub find_parent : Args → Outcome Failure (Option Parent)
  unfolding issuer_parent pair_parent
  find_parent args = elim args.issuer [
    | none ↦ pair_parent args.parent_key_pair
    | some i ↦ elim args.parent_key_pair [
      | none ↦ issuer_parent (some i)
      | some pair ↦ err two_issuers
    ]
  ]

  -- a certificate is valid while its issuer is
  unfoldable pub limit_validity : Certificate → Certificate → Certificate
  limit_validity parent t =
      if ltb_ℤ parent.not_after t.not_after then record t { not_after = parent.not_after } else t

  -- the parent, or the certificate itself, and the template that it signs
  unfoldable pub under_parent : Signer → Certificate → Option Parent → Outcome Failure Request
  unfolding limit_validity
  under_parent own t none = ok (record { template = t; parent = t; key = own.public; signer = own })
  under_parent own t (some (parent, signer)) = do
    checked ← check_issuer parent t crypto.now
    ok (record {
      template = limit_validity parent checked;
      parent = parent;
      key = own.public;
      signer = signer;
    })

  -- the template gets the algorithm of the signer's key
  unfoldable pub with_algorithm : Bool → Request → Outcome Failure Request
  with_algorithm code_signing r = do
    algorithm ← signature_algorithm r.signer.public code_signing
    ok (record r { template = record r.template { signature_algorithm = algorithm } })

  -- createCertificateAndPrivateKeyPEM, up to x509.CreateCertificate
  unfoldable pub prepare : Args → PrivateKey → Outcome Failure Request
  unfolding find_parent under_parent with_algorithm public_key signer_of known
  prepare args private_key = do
    key ← known bad_key_type (public_key private_key)
    t ← new_certificate_template crypto.parse_address crypto.now crypto.serial args key
    parent ← find_parent args
    own ← known bad_key_type (signer_of private_key)
    r ← under_parent own t parent
    with_algorithm args.code_signing r

  unfoldable pub to_pfx : Certificate → PrivateKey → Text → Bool → Outcome Failure Text
  to_pfx cert key password legacy =
      if legacy then crypto.legacy_pfx key cert password else crypto.modern_pfx key cert password

  -- the last part of createCertificateAndPrivateKeyPEM
  unfoldable pub bundle : Args → PrivateKey → Text → PfxFormat → Outcome Failure Text
  unfolding to_pfx
  bundle args key cert format =
      if format.output
      then (do
        parsed ← crypto.encoding.parse_certificate cert
        to_pfx parsed key args.pfx_password format.legacy)
      else ok []

  unfoldable pub check_target : Args → Outcome Failure (Unit {0})
  check_target args = if args.code_signing then (do _ ← get_profile args.target; ok tt) else ok tt

  unfoldable pub create_certificate_and_private_key_pem : Args → Outcome Failure KeyPair
  unfolding check_target check_algorithm prepare bundle
  create_certificate_and_private_key_pem args = do
    check_target args
    let key_type = get_key_type args.key_type
    check_algorithm key_type.algorithm
    private_key ← generate_private_key_from_type crypto.keys key_type
    r ← prepare args private_key
    cert ← crypto.create_certificate r.template r.parent r.key r.signer
    block ← pem_block_for_key crypto.encoding private_key
    format ← pfx_format args.code_signing args.target args.pfx
    pfx ← bundle args private_key cert format
    ok (record {
      public_certificate =
          crypto.encoding.encode_pem (record { kind = certificate_pem_type; bytes = cert });
      private_key = crypto.encoding.encode_pem block;
      pfx = pfx;
    })

  unfoldable pub generate_key_pair : Args → Outcome Failure KeyPair
  unfolding create_certificate_and_private_key_pem fill_defaults
  generate_key_pair args = create_certificate_and_private_key_pem (fill_defaults args)

  -- a root made for a key on a token has no limit on its use
  unfoldable pub unlimited : Bool → Certificate → Certificate
  unlimited ca t =
      if ca
      then record t { key_usage = ca_usage; ext_key_usage = []; dns_names = []; ip_addresses = [] }
      else t

  -- the template that is signed with its own key
  unfoldable pub self_signed_template : Args → Signer → Outcome Failure Certificate
  unfolding unlimited fill_defaults
  self_signed_template args signer =
      let args = fill_defaults args in
      do
        t ←
            new_certificate_template crypto.parse_address crypto.now crypto.serial args
              signer.public
        let u = unlimited args.ca t
        algorithm ← signature_algorithm signer.public args.code_signing
        ok (record u { signature_algorithm = algorithm })

  unfoldable pub create_self_signed_certificate : Args → Signer → Outcome Failure Certificate
  unfolding self_signed_template
  create_self_signed_certificate args signer = do
    t ← self_signed_template args signer
    der ← crypto.create_certificate t t signer.public signer
    crypto.encoding.parse_certificate der
