-- ===== src/Yubikey/Slot/Identities.antt =====
-- The P-256 keys in the slots: `AgeIdentities` and `slotPublicKey` of pkg/yubikey/yubikey_piv.go.
use certtool.Base.{
  ℕ, Bool, false, ◌&&◌, ◌==◌, if◌then◌else◌, Option, none, some, List, [], ◌∷◌, is_empty, Outcome,
  ok, err, ◌>>=◌, ◌>>◌, refuse,
}
use certtool.Failure.{Failure, no_age_key}
use certtool.Cert.{rsa, ecdsa, unknown_kind, PublicKey}
use certtool.Yubikey.Slot.{Slots, Piv, read_certificate}

-- the key of a slot, by its metadata or else by its certificate
unfoldable pub slot_public_key : Piv → Slots → ℕ → Option PublicKey
unfolding read_certificate
slot_public_key piv slots slot = elim (piv.key_info slot) [
  | some key ↦ some key
  | none ↦ elim (read_certificate piv slot slots) [ ok c ↦ some c.public_key | err e ↦ none ]
]

unfoldable pub is_p256 : Option PublicKey → Bool
is_p256 none = false
is_p256 (some key) = elim key.kind [
  | rsa bits ↦ false
  | ecdsa bits ↦ bits == 256
  | unknown_kind ↦ false
]

abbrev pub age_slots : List ℕ
age_slots =
    0x82 ∷ 0x83 ∷ 0x84 ∷ 0x85 ∷ 0x86 ∷ 0x87 ∷ 0x88 ∷ 0x89 ∷ 0x8a ∷ 0x8b ∷ 0x8c ∷ 0x8d ∷ 0x8e ∷ 0x8f
    ∷ 0x90 ∷ 0x91 ∷ 0x92 ∷ 0x93 ∷ 0x94 ∷ 0x95 ∷ 0x9d ∷ []

-- An identity for each slot that holds a P-256 key. What NewP256Identity makes of a slot's key is the
-- argument `new_identity`, with what ecdsa.PublicKey.ECDH says of the key.
module _ {Identity : Type 0} (has_ecdh : PublicKey → Bool)
    (new_identity : ℕ → PublicKey → Outcome Failure Identity) (piv : Piv) (slots : Slots) where
  unfoldable pub slot_identity :
      ℕ → Option PublicKey → Outcome Failure (List Identity) → Outcome Failure (List Identity)
  unfolding is_p256
  slot_identity slot none rest = rest
  slot_identity slot (some key) rest =
      if is_p256 (some key) && has_ecdh key
      then (do i ← new_identity slot key; is ← rest; ok (i ∷ is))
      else rest

  unfoldable pub collect_identities : List ℕ → Outcome Failure (List Identity)
  unfolding slot_identity slot_public_key
  collect_identities [] = ok []
  collect_identities (slot ∷ ss) =
      slot_identity slot (slot_public_key piv slots slot) (collect_identities ss)

  unfoldable pub age_identities : Outcome Failure (List Identity)
  unfolding collect_identities
  age_identities = do is ← collect_identities age_slots; refuse (is_empty is) no_age_key; ok is
