-- ===== src/Yubikey/Slot/Checked.antt =====
-- What the steps of `GenerateRoot` of pkg/yubikey/yubikey_piv.go ensure when they succeed: its checks,
-- and the certificate that the new key signs.
use certtool.Base.{
  ℕ, ◌≡◌, ◌⊎◌, inl, inr, refl, sym, ap, ◌∙◌, Bool, true, false, not, ◌||◌, Option, none, some,
  Outcome, ok, err, arith, >>=-eq-ok, map_err-eq-ok, if_false, Bool-cases, if◌then◌else◌,
}
use certtool.Base.Text.{Text}
use certtool.Failure.{root_not_signed}
use certtool.Cert.{PublicKey, Certificate}
use certtool.Issue.Args.{Signer, Args, get_key_type}
use certtool.Issue.Template.{ca_usage}
use certtool.Issue.Create.{Crypto, self_signed_template, create_self_signed_certificate}
use certtool.Issue.Create.Root.{self_signed_template-is_ca}
use certtool.Yubikey.Policy.{
  TouchPolicy, Algorithm, ec256, ec384, rsa2048, rsa4096, Version, version_at_least, touches,
  piv_algorithm, check_firmware,
}
use certtool.Yubikey.Token.{
  CardError, not_found, auth_error, other_error, Card, Token, management_key,
}
use certtool.Yubikey.Slot.{
  Slots, Piv, read_certificate, try_again, usable, signer, check_empty, check_root, prepare_root,
  sign_root,
}

-- The firmware knows the algorithm.
pub AlgorithmFits : Version → Algorithm → Type 0
AlgorithmFits v rsa4096 = version_at_least v 5 7 ≡ true
AlgorithmFits v ec384 = version_at_least v 4 0 ≡ true
AlgorithmFits v _ = Unit {0}

-- The slot is read and holds no certificate.
pub IsEmptySlot : Piv → ℕ → Slots → Type 0
IsEmptySlot piv slot slots =
    ((slots slot).certificate ≡ none) × (piv.certificate_fails slot ≡ false)

-- What is checked before a key is generated in the slot.
pub record Prepared (piv : Piv) (slot : ℕ) (decode_hex : Text → Option Text) (default_key : Text)
    (card : Card) (token : Token) (args : Args) (touch : TouchPolicy) (overwrite : Bool)
    (slots : Slots) (algorithm : Algorithm) : Type 0 where
  pub wanted : piv_algorithm (get_key_type args.key_type) ≡ ok algorithm
  pub known : AlgorithmFits piv.version algorithm
  pub touchable : (not (touches touch) || version_at_least piv.version 4 0) ≡ true
  pub free : (overwrite ≡ true) ⊎ IsEmptySlot piv slot slots
  pub managed : (key : Text) × ((management_key decode_hex default_key card token).result ≡ ok key)

-- A certificate that `key`, which can sign, made of the template of a CA.
pub record SelfSigned (piv : Piv) (slot : ℕ) (crypto : Crypto) (args : Args) (cert : Certificate)
    (key : PublicKey) : Type 0 where
  pub signs : piv.private_key slot key true ≡ ok true
  pub template : Certificate
  pub made_of :
      self_signed_template crypto (record args { ca = true }) (record { public = key })
      ≡ ok template
  pub is_root : template.is_ca ≡ true
  pub encoded : template.basic_constraints_valid ≡ true
  pub usage : template.key_usage ≡ ca_usage
  pub der : Text
  pub signed : crypto.create_certificate template template key (record { public = key }) ≡ ok der
  pub parsed : crypto.encoding.parse_certificate der ≡ ok cert

firmware_fits :
    (v : Version) (algorithm : Algorithm) (touch : TouchPolicy)
    → check_firmware v algorithm touch ≡ ok tt
    → AlgorithmFits v algorithm × ((not (touches touch) || version_at_least v 4 0) ≡ true)
unfolding check_firmware AlgorithmFits
firmware_fits v ec256 touch h = (tt, ground arith)
firmware_fits v ec384 touch h = (ground arith, ground arith)
firmware_fits v rsa2048 touch h = (tt, ground arith)
firmware_fits v rsa4096 touch h = (ground arith, ground arith)

check_empty-ok :
    (piv : Piv) (slot : ℕ) (r : Outcome CardError Certificate)
    → check_empty piv slot r ≡ ok tt
    → r ≡ err not_found
unfolding check_empty
check_empty-ok piv slot (ok c) h = cc
check_empty-ok piv slot (err not_found) h = refl
check_empty-ok piv slot (err (auth_error blocked)) h = cc
check_empty-ok piv slot (err other_error) h = cc

abbrev reading : Option Certificate → Bool → Outcome CardError Certificate
reading held fails = elim held [
  | none ↦ (if fails then err other_error else err not_found)
  | some c ↦ (if fails then err other_error else ok c)
]

nothing_read :
    (held : Option Certificate) (fails : Bool)
    → reading held fails ≡ err not_found
    → (held ≡ none) × (fails ≡ false)
nothing_read none true h = cc
nothing_read none false h = (refl, refl)
nothing_read (some c) true h = cc
nothing_read (some c) false h = cc

not_found-IsEmptySlot :
    (piv : Piv) (slot : ℕ) (slots : Slots)
    → read_certificate piv slot slots ≡ err not_found
    → IsEmptySlot piv slot slots
unfolding read_certificate IsEmptySlot
not_found-IsEmptySlot piv slot slots h =
    nothing_read (slots slot).certificate (piv.certificate_fails slot) h

usable-ok :
    (r : Outcome CardError Bool) (key : PublicKey) (s : Signer)
    → usable (try_again r true r) key ≡ ok s
    → (r ≡ ok true) × (s ≡ record { public = key })
unfolding usable try_again
usable-ok (err e) key s h = cc
usable-ok (ok true) key s h = (refl, cc)
usable-ok (ok false) key s h = cc

module _ (piv : Piv) (slot : ℕ) (crypto : Crypto) (decode_hex : Text → Option Text)
    (default_key : Text) (card : Card) (token : Token) (args : Args) where
  pub prepare_root-Prepared :
      (touch : TouchPolicy) (overwrite : Bool) (slots : Slots) (algorithm : Algorithm)
      → prepare_root piv slot crypto decode_hex default_key card token args touch overwrite slots
        ≡ ok algorithm
      → Prepared piv slot decode_hex default_key card token args touch overwrite slots algorithm
  unfolding prepare_root check_root
  prepare_root-Prepared touch overwrite slots algorithm h =
      let (a, p, h1) =
        >>=-eq-ok
          (check_root piv slot crypto decode_hex default_key card token args touch overwrite slots)
          _ h in
      let (k, m, h2) = >>=-eq-ok ((management_key decode_hex default_key card token).result) _ h1 in
      let (b, q, h3) = >>=-eq-ok (piv_algorithm (get_key_type args.key_type)) _ p in
      let (u, r, h4) = >>=-eq-ok (check_firmware piv.version b touch) _ h3 in
      let (v, s, h5) =
        >>=-eq-ok
          (if overwrite then ok tt else check_empty piv slot (read_certificate piv slot slots)) _
          h4 in
      let same_algorithm : b ≡ algorithm = cc in
      let (fits, touched) =
        firmware_fits piv.version algorithm touch
          (ap (λ x. check_firmware piv.version x touch) (sym same_algorithm) ∙ r) in
      record {
        wanted = q ∙ ap ok same_algorithm;
        known = fits;
        touchable = touched;
        free = elim (Bool-cases overwrite) [
          | inl e ↦ inl e
          | inr e ↦ inr (
              not_found-IsEmptySlot piv slot slots (
                check_empty-ok piv slot (read_certificate piv slot slots)
                  (sym (if_false overwrite _ _ e) ∙ s)))
        ];
        managed = (k, m);
      }

  pub sign_root-SelfSigned :
      (key : PublicKey) (cert : Certificate)
      → sign_root piv slot crypto decode_hex default_key card token args key ≡ ok cert
      → SelfSigned piv slot crypto args cert key
  unfolding sign_root signer create_self_signed_certificate
  sign_root-SelfSigned key cert h =
      let own = record args { ca = true } in
      let (s, p, h1) = >>=-eq-ok (signer piv slot key true) _ h in
      let (signs, e) = usable-ok (piv.private_key slot key true) key s p in
      let h2 : create_self_signed_certificate crypto own (record { public = key }) ≡ ok cert =
        ap (create_self_signed_certificate crypto own) (sym e)
        ∙ map_err-eq-ok root_not_signed (create_self_signed_certificate crypto own s) h1 in
      let (t, made, h3) =
        >>=-eq-ok (self_signed_template crypto own (record { public = key })) _ h2 in
      let (der, signed, parsed) =
        >>=-eq-ok (crypto.create_certificate t t key (record { public = key })) _ h3 in
      let (ca, usage, encoded) =
        self_signed_template-is_ca crypto own (record { public = key }) t refl made in
      record {
        signs = signs;
        template = t;
        made_of = made;
        is_root = ca;
        encoded = encoded;
        usage = usage;
        der = der;
        signed = signed;
        parsed = parsed;
      }
