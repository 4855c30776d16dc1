-- ===== src/Yubikey/Token.antt =====
-- The PIN and the management key of an open YubiKey: `Token`, `getPIN`, `notePINFailure`,
-- `managementKey`, `FactoryDefaults`, and the calls that use the PIN, of
-- pkg/yubikey/yubikey_piv.go.
pub mod Attempts
use certtool.Base.{
  ℕ, ◌≡◌, refl, Bool, true, false, ◌&&◌, ◌||◌, not, ltb, ◌==◌, if◌then◌else◌, Option, none, some,
  List, [], ◌∷◌, ◌++◌, is_empty, length, Outcome, ok, err, ◌>>=◌, ◌>>◌,
}
use certtool.Base.Text.{Text, codes, same, trim_space}
use certtool.Failure.{
  Failure, pin_rejected_before, pin_missing, pin_length, card_failure, key_mismatch,
  management_key_not_hex, management_key_length,
}
use certtool.Cert.{PublicKey}

abbrev pub min_pin_length : ℕ
min_pin_length = 6

abbrev pub max_pin_length : ℕ
max_pin_length = 8

-- An error of the card: piv.ErrNotFound, one that wraps piv.AuthErr, or another; the flag of the
-- second says that the message is about the management key.
pub data CardError : Type 0 where
  not_found : CardError
  auth_error : Bool → CardError
  other_error : CardError

-- What the card does with a PIN: the metadata may hold a management key.
pub record Card : Type 0 where
  pub metadata : Text → Outcome CardError (Option Text)
  pub sign : Text → Text → Outcome CardError Text
  pub exchange : Text → Text → Outcome CardError Text

pub data KeySource : Type 0 where
  no_source configured pin_protected factory_default : KeySource

pub record Token : Type 0 where
  pub pin : Text
  pub configured_key : Text
  pub pin_rejected : Bool
  pub management_key_source : KeySource
  pub default_management_key : Bool

-- A result, the token afterwards, and whether the card refused the PIN.
pub record Use (A : Type 0) : Type 0 where
  pub result : Outcome Failure A
  pub token : Token
  pub refused : Bool

abbrev pub plain_use : {A : Type 0} → Outcome Failure A → Token → Use A
plain_use r t = record { result = r; token = t; refused = false }

unfoldable pub get_pin : Token → Outcome Failure Text × Token
get_pin t =
    if t.pin_rejected
    then (err pin_rejected_before, t)
    else if is_empty t.pin
    then (err pin_missing, t)
    else if ltb (length t.pin) min_pin_length || ltb max_pin_length (length t.pin)
    then (err pin_length, record t { pin_rejected = true })
    else (ok t.pin, t)

-- errors.As(err, &authErr) && !isManagementKeyError(err)
unfoldable pub refuses_pin : CardError → Bool
refuses_pin (auth_error about_management_key) = not about_management_key
refuses_pin _ = false

unfoldable pub note_pin_failure : CardError → Token → Token
unfolding refuses_pin
note_pin_failure e t = if refuses_pin e then record t { pin_rejected = true } else t

-- the answer of the card to a call that got the PIN
unfoldable pub answered : {A : Type 0} → Token → Outcome CardError A → Use A
unfolding note_pin_failure
answered t (ok a) = plain_use (ok a) t
answered t (err e) = record {
  result = err card_failure;
  token = note_pin_failure e t;
  refused = refuses_pin e;
}

-- a call that asks for the PIN first
unfoldable pub with_pin :
    {A : Type 0} → (Text → Outcome CardError A) → Outcome Failure Text × Token → Use A
unfolding answered
with_pin call (err e, t) = plain_use (err e) t
with_pin call (ok pin, t) = answered t (call pin)

-- `verify` says that a signature is one of the expected key.
unfoldable pub check_signature_of : (Text → Bool) → Outcome Failure Text → Outcome Failure Text
check_signature_of verify (err e) = err e
check_signature_of verify (ok signature) =
    if verify signature then ok signature else err key_mismatch

unfoldable pub verified : (Text → Bool) → Use Text → Use Text
unfolding check_signature_of
verified verify u = record u { result = check_signature_of verify u.result }

-- tokenSigner.Sign
unfoldable pub sign : Card → (Text → Bool) → Text → Token → Use Text
unfolding get_pin with_pin verified
sign card verify digest t = verified verify (with_pin (λ pin. card.sign pin digest) (get_pin t))

-- slotKeyExchanger.ECDH
unfoldable pub exchange : Card → Text → Token → Use Text
unfolding get_pin with_pin
exchange card peer t = with_pin (λ pin. card.exchange pin peer) (get_pin t)

-- hex.DecodeString is the argument `decode_hex`, piv.DefaultManagementKey is `default_key`.
module _ (decode_hex : Text → Option Text) (default_key : Text) where
  unfoldable pub use_configured : Token → Option Text → Use Text
  unfolding same
  use_configured t none = plain_use (err management_key_not_hex) t
  use_configured t (some key) =
      if length key == 16 || (length key == 24 || length key == 32)
      then plain_use (ok key) (record t { default_management_key = same key default_key })
      else plain_use (err management_key_length) t

  -- the switch on what Metadata returned
  unfoldable pub use_metadata : Token → Outcome CardError (Option Text) → Use Text
  unfolding answered
  use_metadata t (ok (some key)) =
      plain_use (ok key) (record t { management_key_source = pin_protected })
  use_metadata t (ok none) =
      plain_use (ok default_key)
        (record t { management_key_source = factory_default; default_management_key = true })
  use_metadata t (err not_found) =
      plain_use (ok default_key)
        (record t { management_key_source = factory_default; default_management_key = true })
  use_metadata t (err e) = answered t (err e)

  unfoldable pub use_stored : Card → Outcome Failure Text × Token → Use Text
  unfolding use_metadata
  use_stored card (err e, t) = plain_use (err e) t
  use_stored card (ok pin, t) = use_metadata t (card.metadata pin)

  unfoldable pub management_key : Card → Token → Use Text
  unfolding use_configured use_stored get_pin trim_space
  management_key card t =
      if not (is_empty t.configured_key)
      then use_configured (record t { management_key_source = configured })
          (decode_hex (trim_space t.configured_key))
      else use_stored card (get_pin t)

-- `default_pin` is piv.DefaultPIN.
unfoldable pub factory_defaults : Text → Token → List Text
unfolding same
factory_defaults default_pin t =
    (if same t.pin default_pin then codes "PIN" ∷ [] else [])
    ++ (if t.default_management_key then codes "management key" ∷ [] else [])
