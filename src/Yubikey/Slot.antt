-- ===== src/Yubikey/Slot.antt =====
-- The slots of a YubiKey: `GenerateRoot`, `Issuer`, `signer`, `AgeIdentities` and `slotPublicKey` of
-- pkg/yubikey/yubikey_piv.go.
pub mod Checked
pub mod Root
pub mod Signing
pub mod Identities
use certtool.Base.{
  ℕ, ℤ, ltb_ℤ, Bool, true, false, ◌&&◌, ◌||◌, not, leb, ◌==◌, if◌then◌else◌, Option, none, some,
  List, [], ◌∷◌, is_empty, Outcome, ok, err, ◌>>=◌, ◌>>◌, refuse, map_err,
}
use certtool.Base.Text.{Text}
use certtool.Failure.{
  Failure, slot_occupied, slot_unreadable, key_not_generated, key_unusable, key_cannot_sign,
  root_not_signed, root_not_stored, slot_empty, certificate_unreadable, issuer_not_ca,
  issuer_cannot_sign, issuer_expired, issuer_not_yet_valid, no_age_key,
}
use certtool.Profile.{KeyType}
use certtool.Cert.{rsa, ecdsa, unknown_kind, is_set, PublicKey, Certificate}
use certtool.Issue.Args.{Signer, Issuer, Args, get_key_type}
use certtool.Issue.Create.{Crypto, create_self_signed_certificate}
use certtool.Yubikey.Policy.{TouchPolicy, Algorithm, Version, piv_algorithm, check_firmware}
use certtool.Yubikey.Token.{CardError, not_found, other_error, Card, Token, management_key}

-- A key in a slot: whether each use of it needs the PIN, and a touch.
pub record SlotKey : Type 0 where
  pub public : PublicKey
  pub pin_always : Bool
  pub touch : TouchPolicy

-- What a slot holds.
pub record Holding : Type 0 where
  pub key : Option SlotKey
  pub certificate : Option Certificate

abbrev pub Slots : Type 0
Slots = ℕ → Holding

unfoldable pub put_slot : ℕ → Holding → Slots → Slots
put_slot slot h slots s = if s == slot then h else slots s

-- What the card answers. A generation or a storage that fails may leave anything in its slot.
pub record Piv : Type 0 where
  pub version : Version
  pub certificate_fails : ℕ → Bool
  pub generate_key : ℕ → Algorithm → TouchPolicy → Outcome CardError PublicKey
  pub generation_left : Holding → Holding
  pub set_fails : ℕ → Bool
  pub storage_left : Holding → Holding
  -- PrivateKey for a slot and a public key, with a PIN policy or none: whether the key can sign
  pub private_key : ℕ → PublicKey → Bool → Outcome CardError Bool
  pub key_info : ℕ → Option PublicKey

-- Certificate
unfoldable pub read_certificate : Piv → ℕ → Slots → Outcome CardError Certificate
read_certificate piv slot slots = elim (slots slot).certificate [
  | none ↦ (if piv.certificate_fails slot then err other_error else err not_found)
  | some c ↦ (if piv.certificate_fails slot then err other_error else ok c)
]

unfoldable pub usable : Outcome CardError Bool → PublicKey → Outcome Failure Signer
usable (err e) key = err key_unusable
usable (ok signs) key = if signs then ok (record { public = key }) else err key_cannot_sign

-- A key without a known PIN policy is tried again with the PIN before each signature.
unfoldable pub try_again :
    Outcome CardError Bool → Bool → Outcome CardError Bool → Outcome CardError Bool
try_again (ok signs) always again = ok signs
try_again (err e) always again = if not always then again else err e

unfoldable pub signer : Piv → ℕ → PublicKey → Bool → Outcome Failure Signer
unfolding usable try_again
signer piv slot key always =
    usable (try_again (piv.private_key slot key always) always (piv.private_key slot key true)) key

module _ (piv : Piv) (slot : ℕ) where
  unfoldable pub stored_certificate : Outcome CardError Certificate → Outcome Failure Certificate
  stored_certificate (ok c) = ok c
  stored_certificate (err not_found) = err slot_empty
  stored_certificate (err e) = err certificate_unreadable

  unfoldable pub issuer : ℤ → Slots → Outcome Failure Issuer
  unfolding stored_certificate read_certificate signer is_set
  issuer now slots = do
    c ← stored_certificate (read_certificate piv slot slots)
    refuse (not c.is_ca) issuer_not_ca
    refuse (is_set c.key_usage && not c.key_usage.cert_sign) issuer_cannot_sign
    refuse (ltb_ℤ c.not_after now) issuer_expired
    refuse (ltb_ℤ now c.not_before) issuer_not_yet_valid
    s ← signer piv slot c.public_key false
    ok (record { certificate = some c; signer = some s })

  -- whether the slot may be used
  unfoldable pub check_empty : Outcome CardError Certificate → Outcome Failure (Unit {0})
  check_empty (ok c) = err slot_occupied
  check_empty (err not_found) = ok tt
  check_empty (err e) = err slot_unreadable

  module _ (crypto : Crypto) (decode_hex : Text → Option Text) (default_key : Text) (card : Card)
      (token : Token) where
    -- the checks, the one on the slot last
    unfoldable pub check_root : Args → TouchPolicy → Bool → Slots → Outcome Failure Algorithm
    unfolding check_empty read_certificate get_key_type piv_algorithm check_firmware
    check_root args touch overwrite slots = do
      algorithm ← piv_algorithm (get_key_type args.key_type)
      check_firmware piv.version algorithm touch
      if overwrite then ok tt else check_empty (read_certificate piv slot slots)
      ok algorithm

    -- everything in front of the first change
    unfoldable pub prepare_root : Args → TouchPolicy → Bool → Slots → Outcome Failure Algorithm
    unfolding check_root management_key
    prepare_root args touch overwrite slots = do
      algorithm ← check_root args touch overwrite slots
      _ ← (management_key decode_hex default_key card token).result
      ok algorithm

    -- the token that the key is generated with: the management key is asked for when all checks passed
    unfoldable pub token_for_root : Args → TouchPolicy → Bool → Slots → Token
    unfolding check_root management_key
    token_for_root args touch overwrite slots = elim (check_root args touch overwrite slots) [
      | ok algorithm ↦ (management_key decode_hex default_key card token).token
      | err e ↦ token
    ]

    -- the root certificate of the new key
    unfoldable pub sign_root : Args → PublicKey → Outcome Failure Certificate
    unfolding signer create_self_signed_certificate
    sign_root args key = do
      s ← signer piv slot key true
      map_err root_not_signed (create_self_signed_certificate crypto (record args { ca = true }) s)

    unfoldable pub store_root :
        Holding → Outcome Failure Certificate → Slots → Outcome Failure Certificate × Slots
    unfolding put_slot
    store_root holding (err e) slots = (err e, slots)
    store_root holding (ok cert) slots =
        if piv.set_fails slot
        then (err root_not_stored, put_slot slot (piv.storage_left holding) slots)
        else (ok cert, put_slot slot (record holding { certificate = some cert }) slots)

    -- what is left of the slot, with the new key
    unfoldable pub with_key : PublicKey → TouchPolicy → Slots → Holding
    with_key key touch slots = record (slots slot) {
      key = some (record { public = key; pin_always = true; touch = touch });
    }

    unfoldable pub use_key :
        Args
        → TouchPolicy
        → Slots
        → Outcome CardError PublicKey
        → Outcome Failure Certificate × Slots
    unfolding put_slot with_key sign_root store_root
    use_key args touch slots (err e) =
        (err key_not_generated, put_slot slot (piv.generation_left (slots slot)) slots)
    use_key args touch slots (ok key) =
        let holding = with_key key touch slots in
        store_root holding (sign_root args key) (put_slot slot holding slots)

    unfoldable pub make_root :
        Args → TouchPolicy → Slots → Outcome Failure Algorithm → Outcome Failure Certificate × Slots
    unfolding use_key
    make_root args touch slots (err e) = (err e, slots)
    make_root args touch slots (ok algorithm) =
        use_key args touch slots (piv.generate_key slot algorithm touch)

    unfoldable pub generate_root :
        Args → TouchPolicy → Bool → Slots → Outcome Failure Certificate × Slots
    unfolding prepare_root make_root
    generate_root args touch overwrite slots =
        make_root args touch slots (prepare_root args touch overwrite slots)
