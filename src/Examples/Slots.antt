-- ===== src/Examples/Slots.antt =====
-- Roots in the slots of a YubiKey at concrete inputs.
use certtool.Base.{
  ℕ, pos, ◌≡◌, refl, Bool, true, false, if◌then◌else◌, ◌==◌, none, some, [], ◌∷◌, Outcome, ok, err,
  arith,
}
use certtool.Base.Text.{Text, codes}
use certtool.Failure.{Failure, library_failure}
use certtool.Cert.{Certificate}
use certtool.Issue.Args.{Args}
use certtool.Issue.Create.{Crypto}
use certtool.Yubikey.Policy.{always}
use certtool.Yubikey.Token.{not_found, Card, no_source, Token}
use certtool.Yubikey.Slot.{
  Slots, Piv, read_certificate, issuer, prepare_root, sign_root, generate_root,
}
use certtool.Yubikey.Slot.Root.{IsGenerated, generate_root-ok, generate_root-occupied}
use certtool.Yubikey.Slot.Signing.{KeepsTemplate, issuer-generate_root}
use certtool.Examples.Samples.{plain_ca, ca_key, plain_args, sample_crypto, sample_encoding}

abbrev bit : Bool → ℕ
bit b = if b then 1 else 0

-- a certificate is written as whether it is a CA's and its key usage
abbrev write_flags : Certificate → Text
write_flags t =
    bit t.is_ca
    ∷ bit t.key_usage.digital_signature
    ∷ bit t.key_usage.key_encipherment
    ∷ bit t.key_usage.cert_sign
    ∷ bit t.key_usage.crl_sign
    ∷ bit t.key_usage.other_bits
    ∷ []

abbrev read_flags : Text → Outcome Failure Certificate
read_flags (a ∷ b ∷ c ∷ d ∷ e ∷ f ∷ []) = ok (record plain_ca {
  is_ca = a == 1;
  key_usage = record {
    digital_signature = b == 1;
    key_encipherment = c == 1;
    cert_sign = d == 1;
    crl_sign = e == 1;
    other_bits = f == 1;
  };
})
read_flags s = err library_failure

abbrev flag_crypto : Crypto
flag_crypto = record sample_crypto {
  encoding = record sample_encoding { parse_certificate = read_flags };
  create_certificate = λ t. λ p. λ k. λ s. ok (write_flags t);
}

bit_lem : (b : Bool) → (bit b == 1) ≡ b
bit_lem true = refl
bit_lem false = refl

read_flags-write_flags :
    (t c : Certificate)
    → read_flags (write_flags t) ≡ ok c
    → (c.is_ca ≡ t.is_ca) × (c.key_usage ≡ t.key_usage)
read_flags-write_flags t c h = ground arith

flags_kept : KeepsTemplate flag_crypto
flags_kept = record { kept = λ t parent c key s der made read valid. read_flags-write_flags t c cc }

abbrev empty_slots : Slots
empty_slots s = record { key = none; certificate = none }

abbrev full_slots : Slots
full_slots s = record { key = none; certificate = some plain_ca }

abbrev good_piv : Piv
good_piv = record {
  version = record { major = 5; minor = 7 };
  certificate_fails = λ s. false;
  generate_key = λ s. λ a. λ t. ok ca_key;
  generation_left = λ h. h;
  set_fails = λ s. false;
  storage_left = λ h. h;
  private_key = λ s. λ k. λ a. ok true;
  key_info = λ s. none;
}

abbrev silent_card : Card
silent_card = record {
  metadata = λ pin. ok none;
  sign = λ pin. λ digest. ok digest;
  exchange = λ pin. λ peer. ok peer;
}

abbrev token : Token
token = record {
  pin = codes "123456";
  configured_key = codes "0011223344556677";
  pin_rejected = false;
  management_key_source = no_source;
  default_management_key = false;
}

abbrev root_args : Args
root_args = record plain_args { issuer = none; hostnames = [] }

abbrev outcome : Outcome Failure Certificate × Slots
outcome =
    generate_root good_piv 0x9c flag_crypto (λ s. some s) [] silent_card token root_args always
      false empty_slots

abbrev root : Certificate
root = record plain_ca { ext_key_usage = plain_ca.ext_key_usage }

generates : outcome ≡ (ok root, outcome.1)
unfolding generate_root sign_root prepare_root certtool.Issue.Template.new_certificate_template
    certtool.Issue.Keys.signature_algorithm
generates = refl

generate_root-ok_example :
    IsGenerated good_piv 0x9c flag_crypto
      (λ s. some s)
      []
      silent_card
      token
      root_args
      always
      false
      empty_slots
      outcome.1
      root
generate_root-ok_example =
    generate_root-ok good_piv 0x9c flag_crypto (λ s. some s) [] silent_card token root_args always
      false empty_slots outcome.1 root generates

occupied : read_certificate good_piv 0x9c full_slots ≡ ok plain_ca
unfolding read_certificate
occupied = refl

refuses : ¬ (read_certificate good_piv 0x9c full_slots ≡ err not_found)
refuses h = cc (occupied, h)

generate_root-occupied_example :
    (e : Failure) × (generate_root good_piv 0x9c flag_crypto
        (λ s. some s)
        []
        silent_card
        token
        root_args
        always
        false
        full_slots
      ≡ (err e, full_slots))
generate_root-occupied_example =
    generate_root-occupied good_piv 0x9c flag_crypto (λ s. some s) [] silent_card token root_args
      always full_slots refuses

issuer-generate_root_example :
    issuer good_piv 0x9c (pos 200) outcome.1
    ≡ ok (record { certificate = some root; signer = some (record { public = ca_key }) })
issuer-generate_root_example =
    issuer-generate_root good_piv 0x9c flag_crypto (λ s. some s) [] silent_card token root_args
      always false empty_slots outcome.1 root (pos 200) flags_kept generates refl refl refl refl
