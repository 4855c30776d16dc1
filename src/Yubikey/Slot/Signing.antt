-- ===== src/Yubikey/Slot/Signing.antt =====
-- Signing with a root that was generated in a slot: `Issuer` behind `GenerateRoot` of
-- pkg/yubikey/yubikey_piv.go.
use certtool.Base.{
  ℕ, ℤ, ltb_ℤ, ◌≡◌, refl, ap, ◌∙◌, Bool, true, false, Option, none, some, ok, err, if_false,
  if◌then◌else◌,
}
use certtool.Base.Text.{Text}
use certtool.Cert.{PublicKey, Certificate, is_set}
use certtool.Issue.Args.{Args, Signer}
use certtool.Issue.Create.{Crypto}
use certtool.Issue.Template.{ca_usage}
use certtool.Yubikey.Policy.{TouchPolicy}
use certtool.Yubikey.Token.{not_found, other_error, Card, Token}
use certtool.Yubikey.Slot.{
  Holding, Slots, Piv, read_certificate, signer, usable, try_again, stored_certificate, issuer,
  generate_root,
}
use certtool.Yubikey.Slot.Root.{generate_root-ok}

-- x509: a certificate that is made from a template and read back has its key usage and, where the
-- template's basic constraints are valid and so encoded, is a CA's as the template says.
pub record KeepsTemplate (crypto : Crypto) : Type 0 where
  pub kept :
      (t parent c : Certificate) (key : PublicKey) (s : Signer) (der : Text)
      → crypto.create_certificate t parent key s ≡ ok der
      → crypto.encoding.parse_certificate der ≡ ok c
      → t.basic_constraints_valid ≡ true
      → (c.is_ca ≡ t.is_ca) × (c.key_usage ≡ t.key_usage)

read_certificate_lem :
    (piv : Piv) (slot : ℕ) (slots : Slots) (c : Certificate)
    → (slots slot).certificate ≡ some c
    → piv.certificate_fails slot ≡ false
    → read_certificate piv slot slots ≡ ok c
unfolding read_certificate
read_certificate_lem piv slot slots c held readable =
    ap
      (λ (o : Option Certificate). elim o [
        | none ↦ (if piv.certificate_fails slot then err other_error else err not_found)
        | some d ↦ (if piv.certificate_fails slot then err other_error else ok d)
      ])
      held
    ∙ if_false (piv.certificate_fails slot) (err other_error) (ok c) readable

issuer_lem :
    (piv : Piv) (slot : ℕ) (now : ℤ) (slots : Slots) (c : Certificate)
    → (slots slot).certificate ≡ some c
    → piv.certificate_fails slot ≡ false
    → piv.private_key slot c.public_key false ≡ ok true
    → c.is_ca ≡ true
    → c.key_usage ≡ ca_usage
    → ltb_ℤ now c.not_before ≡ false
    → ltb_ℤ c.not_after now ≡ false
    → issuer piv slot now slots
      ≡ ok (record { certificate = some c; signer = some (record { public = c.public_key }) })
unfolding issuer stored_certificate signer usable try_again is_set
issuer_lem piv slot now slots c held readable signs ca usage started running =
    rw (read_certificate_lem piv slot slots c held readable)
      (rw (ca, usage, running, started, signs) refl)

-- A root that was generated in a slot can sign: as long as the certificate is valid and the card lets it be
-- read and its key be used, `Issuer` returns the same certificate with the key that it names.
pub issuer-generate_root :
    (piv : Piv) (slot : ℕ) (crypto : Crypto) (decode_hex : Text → Option Text) (default_key : Text)
    (card : Card) (token : Token) (args : Args) (touch : TouchPolicy) (overwrite : Bool)
    (slots after : Slots) (cert : Certificate) (now : ℤ)
    → KeepsTemplate crypto
    → generate_root piv slot crypto decode_hex default_key card token args touch overwrite slots
      ≡ (ok cert, after)
    → piv.certificate_fails slot ≡ false
    → piv.private_key slot cert.public_key false ≡ ok true
    → ltb_ℤ now cert.not_before ≡ false
    → ltb_ℤ cert.not_after now ≡ false
    → issuer piv slot now after
      ≡ ok (record { certificate = some cert; signer = some (record { public = cert.public_key }) })
issuer-generate_root piv slot crypto decode_hex default_key card token args touch overwrite slots
      after cert now keeps h readable signs started running =
    let r =
      generate_root-ok piv slot crypto decode_hex default_key card token args touch overwrite slots
        after cert h in
    let root = r.self_signed in
    let (ca, usage) =
      keeps.kept root.template root.template cert r.key (record { public = r.key }) root.der
        root.signed root.parsed root.encoded in
    issuer_lem piv slot now after cert (ap (λ (g : Holding). g.certificate) r.stored) readable signs
      (ca ∙ root.is_root) (usage ∙ root.usage) started running
