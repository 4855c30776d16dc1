-- ===== src/Yubikey/Slot/Root.antt =====
-- What generating a root certificate does to the slots: `GenerateRoot` of
-- pkg/yubikey/yubikey_piv.go.
use certtool.Base.{
  ℕ, ◌≡◌, refl, ap, ◌∙◌, Bool, true, false, ◌==◌, Option, some, Outcome, ok, err, ◌>>=◌, >>=-fails,
  arith, if_true, if_false,
}
use certtool.Base.Text.{Text}
use certtool.Failure.{Failure, slot_occupied, slot_unreadable}
use certtool.Cert.{PublicKey, Certificate}
use certtool.Issue.Args.{Args, get_key_type}
use certtool.Issue.Create.{Crypto}
use certtool.Yubikey.Policy.{TouchPolicy, Algorithm, piv_algorithm, check_firmware}
use certtool.Yubikey.Token.{
  CardError, not_found, auth_error, other_error, Card, Token, management_key,
}
use certtool.Yubikey.Slot.{
  Holding, Slots, put_slot, Piv, read_certificate, check_empty, check_root, prepare_root, sign_root,
  store_root, with_key, use_key, make_root, generate_root,
}
use certtool.Yubikey.Slot.Checked.{
  Prepared, SelfSigned, prepare_root-Prepared, sign_root-SelfSigned,
}

put_slot-other :
    (slot : ℕ) (h : Holding) (slots : Slots) (s : ℕ)
    → (s == slot) ≡ false
    → put_slot slot h slots s ≡ slots s
unfolding put_slot
put_slot-other slot h slots s e = if_false (s == slot) h (slots s) e

check_empty-fails :
    (piv : Piv) (slot : ℕ) (r : Outcome CardError Certificate)
    → ¬ (r ≡ err not_found)
    → (e : Failure) × (check_empty piv slot r ≡ err e)
unfolding check_empty
check_empty-fails piv slot (ok c) h = (slot_occupied, refl)
check_empty-fails piv slot (err not_found) h = elim (h refl) [ ]
check_empty-fails piv slot (err (auth_error blocked)) h = (slot_unreadable, refl)
check_empty-fails piv slot (err other_error) h = (slot_unreadable, refl)

put_slot-same : (slot : ℕ) (h : Holding) (slots : Slots) → put_slot slot h slots slot ≡ h
unfolding put_slot
put_slot-same slot h slots = if_true (slot == slot) h (slots slot) (ground arith)

module _ (piv : Piv) (slot : ℕ) (crypto : Crypto) (decode_hex : Text → Option Text)
    (default_key : Text) (card : Card) (token : Token) (args : Args) (touch : TouchPolicy) where
  module _ (s : ℕ) (other : (s == slot) ≡ false) where
    store_root-other :
        (h : Holding) (r : Outcome Failure Certificate) (slots : Slots)
        → (store_root piv slot crypto decode_hex default_key card token h r slots).1 s ≡ slots s
    unfolding store_root put_slot
    store_root-other h (err e) slots = refl
    store_root-other h (ok cert) slots = ground arith

    make_root-other :
        (slots : Slots) (r : Outcome Failure Algorithm)
        → (make_root piv slot crypto decode_hex default_key card token args touch slots r).1 s
          ≡ slots s
    unfolding make_root use_key
    make_root-other slots (err e) = refl
    make_root-other slots (ok algorithm) =
        elim (piv.generate_key slot algorithm touch)
          as (λ r.
            (use_key piv slot crypto decode_hex default_key card token args touch slots r).1 s
            ≡ slots s) [
              | err e ↦ put_slot-other slot _ slots s other
              | ok key ↦
                  let h =
                    with_key piv slot crypto decode_hex default_key card token key touch slots in
                  store_root-other h
                    (sign_root piv slot crypto decode_hex default_key card token args key)
                    (put_slot slot h slots)
                  ∙ put_slot-other slot h slots s other
            ]

    -- Whatever it returns, generating a root certificate leaves every other slot as it was.
    pub generate_root-other :
        (overwrite : Bool) (slots : Slots)
        → (generate_root piv slot crypto decode_hex default_key card token args touch overwrite
              slots).1
            s
          ≡ slots s
    unfolding generate_root
    generate_root-other overwrite slots = make_root-other slots _

  store_root-ok :
      (h : Holding) (r : Outcome Failure Certificate) (slots after : Slots) (cert : Certificate)
      → store_root piv slot crypto decode_hex default_key card token h r slots ≡ (ok cert, after)
      → (r ≡ ok cert) × (after ≡ put_slot slot (record h { certificate = some cert }) slots)
  unfolding store_root
  store_root-ok h (err e) slots after cert both = cc
  store_root-ok h (ok c) slots after cert both = ground arith

  abbrev Sealed : Certificate → PublicKey → Holding → Type 0
  Sealed cert key h =
      (sign_root piv slot crypto decode_hex default_key card token args key ≡ ok cert)
      × (h ≡ record {
        key = some (record { public = key; pin_always = true; touch = touch });
        certificate = some cert;
      })

  use_key-ok :
      (slots after : Slots) (r : Outcome CardError PublicKey) (cert : Certificate)
      → use_key piv slot crypto decode_hex default_key card token args touch slots r
        ≡ (ok cert, after)
      → (key : PublicKey) × (r ≡ ok key) × Sealed cert key (after slot)
  unfolding use_key with_key
  use_key-ok slots after (err e) cert both = cc
  use_key-ok slots after (ok key) cert both =
      let h = with_key piv slot crypto decode_hex default_key card token key touch slots in
      let (signed, stored) =
        store_root-ok h (sign_root piv slot crypto decode_hex default_key card token args key)
          (put_slot slot h slots) after cert both in
      (
        key,
        refl,
        (
          signed,
          ap (λ f. f slot) stored
              ∙ put_slot-same slot (record h { certificate = some cert }) (put_slot slot h slots),
        ),
      )

  make_root-ok :
      (slots after : Slots) (r : Outcome Failure Algorithm) (cert : Certificate)
      → make_root piv slot crypto decode_hex default_key card token args touch slots r
        ≡ (ok cert, after)
      → (algorithm : Algorithm) × (key : PublicKey) × (r ≡ ok algorithm)
        × (piv.generate_key slot algorithm touch ≡ ok key)
        × Sealed cert key (after slot)
  unfolding make_root
  make_root-ok slots after (err e) cert both = cc
  make_root-ok slots after (ok algorithm) cert both =
      let (key, generated, sealed) =
        use_key-ok slots after (piv.generate_key slot algorithm touch) cert both in
      (algorithm, key, refl, generated, sealed)

  -- What a root certificate that was generated in the slot is.
  pub record IsGenerated (overwrite : Bool) (slots after : Slots) (cert : Certificate)
      : Type 0 where
    pub algorithm : Algorithm
    pub key : PublicKey
    pub prepared :
        Prepared piv slot decode_hex default_key card token args touch overwrite slots algorithm
    pub generated : piv.generate_key slot algorithm touch ≡ ok key
    pub self_signed : SelfSigned piv slot crypto args cert key
    pub stored : after slot ≡ record {
      key = some (record { public = key; pin_always = true; touch = touch });
      certificate = some cert;
    }

  -- When generating a root certificate succeeds, the firmware has the algorithm of the key type and, if
  -- touch is asked for, touch policies; the slot was empty or may be overwritten; the management key was
  -- known; the card generated a key with this algorithm and touch policy that can sign. The returned
  -- certificate is read from what x509 made with this key, as parent and as subject, from the template of
  -- a CA, which may sign certificates and CRLs. The slot holds the key, which needs the PIN for every
  -- signature, and the certificate.
  pub generate_root-ok :
      (overwrite : Bool) (slots after : Slots) (cert : Certificate)
      → generate_root piv slot crypto decode_hex default_key card token args touch overwrite slots
        ≡ (ok cert, after)
      → IsGenerated overwrite slots after cert
  unfolding generate_root
  generate_root-ok overwrite slots after cert both =
      let (algorithm, key, prepared, generated, (signed, stored)) =
        make_root-ok slots after
          (prepare_root piv slot crypto decode_hex default_key card token args touch overwrite
            slots)
          cert both in
      record {
        algorithm = algorithm;
        key = key;
        prepared =
            prepare_root-Prepared piv slot crypto decode_hex default_key card token args touch
              overwrite slots algorithm prepared;
        generated = generated;
        self_signed =
            sign_root-SelfSigned piv slot crypto decode_hex default_key card token args key cert
              signed;
        stored = stored;
      }

  check_root-occupied :
      (slots : Slots)
      → ¬ (read_certificate piv slot slots ≡ err not_found)
      → (e : Failure) × (check_root piv slot crypto decode_hex default_key card token args touch
            false slots
          ≡ err e)
  unfolding check_root
  check_root-occupied slots h =
      >>=-fails (piv_algorithm (get_key_type args.key_type)) _ (λ algorithm.
        >>=-fails (check_firmware piv.version algorithm touch) _ (λ done.
          let (e, refused) = check_empty-fails piv slot (read_certificate piv slot slots) h in
          (e, ap (λ r. r >>= (λ emptied. ok algorithm)) refused)))

  prepare_root-occupied :
      (slots : Slots)
      → ¬ (read_certificate piv slot slots ≡ err not_found)
      → (e : Failure) × (prepare_root piv slot crypto decode_hex default_key card token args touch
            false slots
          ≡ err e)
  unfolding prepare_root
  prepare_root-occupied slots h =
      let (e, refused) = check_root-occupied slots h in
      (
        e,
        ap
            (λ r. r >>= (λ algorithm.
              (management_key decode_hex default_key card token).result >>= λ key. ok algorithm))
            refused,
      )

  -- A slot that is not known to be empty, since it holds a certificate or cannot be read, is refused
  -- without leave to overwrite it: nothing on the card is changed then, neither key nor certificate.
  pub generate_root-occupied :
      (slots : Slots)
      → ¬ (read_certificate piv slot slots ≡ err not_found)
      → (e : Failure) × (generate_root piv slot crypto decode_hex default_key card token args touch
            false slots
          ≡ (err e, slots))
  unfolding generate_root make_root
  generate_root-occupied slots h =
      let (e, refused) = prepare_root-occupied slots h in
      (e, ap (make_root piv slot crypto decode_hex default_key card token args touch slots) refused)
