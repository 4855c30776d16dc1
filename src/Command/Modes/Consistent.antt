-- ===== src/Command/Modes/Consistent.antt =====
-- The combinations of options that are accepted.
use certtool.Base.{
  negsuc, ltb_ℤ, Bool, true, false, ◌&&◌, ◌||◌, not, Outcome, ok, err, ◌>>◌, ◌≡◌, ◌↔◌, refl, arith,
}
use certtool.Command.Modes.{
  Flags, given, tree, parent, constrains, decrypts, root_flags, yubikey_flags, validate_tree,
  validate_constraints, validate_yubikey, validate_encryption, validate_parent, validate_modes,
}

abbrev implies : Bool → Bool → Bool
implies a b = not a || b

-- One signer at most is chosen, and a parent is given whole.
unfoldable pub OneSigner : Flags → Type 0
OneSigner f =
    (f.yubikey && f.yubikey_generate_root ≡ false)
    × (f.yubikey && parent f ≡ false)
    × (f.yubikey_generate_root && parent f ≡ false)
    × (given f.parent_public_certificate ≡ given f.parent_private_key)

-- A root on a YubiKey is made alone, and its key is not written to a file.
unfoldable pub RootAlone : Flags → Type 0
RootAlone f =
    (f.yubikey_generate_root
        && (tree f || given f.export_spec || f.code_signing || given f.encrypt_to || decrypts f)
      ≡ false)

-- Each option has something to apply to.
unfoldable pub Applies : Flags → Type 0
Applies f =
    (implies f.overwrite (tree f) ≡ true)
    × (implies (constrains f) (not (tree f) && (f.ca || f.yubikey_generate_root)) ≡ true)
    × (implies (root_flags f) f.yubikey_generate_root ≡ true)
    × (implies (yubikey_flags f) (f.yubikey || f.yubikey_generate_root || f.age_yubikey) ≡ true)
    × (implies (decrypts f) (given f.parent_private_key || tree f) ≡ true)
    × (implies (given f.export_spec) (not (given f.encrypt_to) && not (decrypts f)) ≡ true)

-- A limit of the path length is not below -1.
unfoldable pub Consistent : Flags → Type 0
unfolding OneSigner RootAlone Applies
Consistent f =
    OneSigner f
    × RootAlone f
    × Applies f
    × (given f.chain && given f.spec ≡ false)
    × (constrains f && ltb_ℤ f.max_path_len (negsuc 0) ≡ false)

combine_iff :
    (f : Flags)
    → ((validate_tree f ≡ ok tt)
        × (validate_constraints f ≡ ok tt)
        × (validate_yubikey f ≡ ok tt)
        × (validate_encryption f ≡ ok tt)
        × (validate_parent f ≡ ok tt))
      ↔ Consistent f
unfolding Consistent OneSigner RootAlone Applies validate_tree validate_constraints validate_yubikey
    validate_encryption validate_parent
combine_iff f = (
  λ (a, b, c, d, e). (
    (ground arith, ground arith, ground arith, ground arith),
    ground arith,
    (ground arith, ground arith, ground arith, ground arith, ground arith, ground arith),
    ground arith,
    ground arith,
  ),
  λ ((a, b, c, d), g, (h, i, j, k, l, m), n, o).
      (ground arith, ground arith, ground arith, ground arith, ground arith),
)

-- Two checks pass together exactly when each does.
module _ {ℓ} {E : Type ℓ} where
  both_iff :
      (first second : Outcome E (Unit {0}))
      → (first >> second ≡ ok tt) ↔ ((first ≡ ok tt) × (second ≡ ok tt))
  both_iff (ok u) second = (λ h. (refl, h), λ (p, q). q)
  both_iff (err e) second = (λ h. cc, λ (p, q). cc)

-- `validateModes` accepts the options exactly when at most one signer is chosen and a parent comes
-- with its key, a root on a YubiKey is made alone, each option has something to apply to, not both a
-- chain and a spec are given, and the limit of the path length of a CA is at least -1.
pub validate_modes_iff : (f : Flags) → (validate_modes f ≡ ok tt) ↔ Consistent f
unfolding validate_modes
validate_modes_iff f = (
  λ h.
      let (a, r) = (both_iff (validate_tree f) _).0 h in
      let (b, s) = (both_iff (validate_constraints f) _).0 r in
      let (c, t) = (both_iff (validate_yubikey f) _).0 s in
      let (d, e) = (both_iff (validate_encryption f) (validate_parent f)).0 t in
      (combine_iff f).0 (a, b, c, d, e),
  λ h.
      let (a, b, c, d, e) = (combine_iff f).1 h in
      (both_iff (validate_tree f) _).1 (
        a,
        (both_iff (validate_constraints f) _).1 (
          b,
          (both_iff (validate_yubikey f) _).1
              (c, (both_iff (validate_encryption f) (validate_parent f)).1 (d, e)),
        ),
      ),
)
