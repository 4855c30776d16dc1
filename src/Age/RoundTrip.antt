-- ===== src/Age/RoundTrip.antt =====
-- What is encrypted to a P-256 key is decrypted with it: `Wrap` and `Unwrap` of
-- pkg/certtool/encrypt.go.
use certtool.Base.{
  ◌≡◌, refl, ap, ◌∙◌, subst, true, none, some, List, [], ◌∷◌, ◌++◌, length, All, ◌⊎◌, inl, inr, ok,
  err, ◌>>=◌, >>=-eq-ok,
}
use certtool.Base.Text.{Text, same_refl}
use certtool.Age.{
  Primitives, Stanza, Identity, piv_p256, incorrect_identity, stanza_args, new_recipient,
  new_identity, wrapping_key, wrap, unwrap_piv, unwrap_one, settle, unwrap,
}

-- What the primitives are documented to do.
pub record PrimitiveLaws (p : Primitives) : Type 0 where
  pub decode-encode : (t : Text) → p.decode64 (p.encode64 t) ≡ some t
  pub short : (t : Text) → length (p.short_hash t) ≡ 4
  pub point : (secret : Text) → p.is_point (p.public_of secret) ≡ true
  pub compressed : (secret : Text) → length (p.public_of secret) ≡ 33
  pub agree : (a b : Text) → p.ecdh a (p.public_of b) ≡ p.ecdh b (p.public_of a)
  pub open-seal : (key plain : Text) → p.open_sealed key (p.seal key plain) ≡ some plain

-- the identity of a secret key
unfoldable pub identity_of : Primitives → Text → Identity
identity_of p secret = record { exchange = p.ecdh secret; compressed = p.public_of secret }

new_identity-identity_of :
    (p : Primitives) (secret : Text)
    → PrimitiveLaws p
    → new_identity p true (p.public_of secret) (p.ecdh secret) ≡ ok (identity_of p secret)
unfolding new_identity identity_of
new_identity-identity_of p secret laws = rw (laws.point secret) refl

-- A stanza that is not for an identity: of another type, or refused as another's.
unfoldable pub IsOther : Primitives → Identity → Stanza → Type 0
IsOther p i s = (unwrap_one p i s ≡ none) ⊎ (unwrap_one p i s ≡ some (err incorrect_identity))

unwrap-other :
    (p : Primitives) (i : Identity) (others rest : List Stanza)
    → All (IsOther p i) others
    → unwrap p i (others ++ rest) ≡ unwrap p i rest
unfolding IsOther unwrap
unwrap-other p i [] rest h = refl
unwrap-other p i (s ∷ others) rest (h, hs) = elim h [
  | inl e ↦ ap (λ r. settle p r (unwrap p i (others ++ rest))) e ∙ unwrap-other p i others rest hs
  | inr e ↦ ap (λ r. settle p r (unwrap p i (others ++ rest))) e ∙ unwrap-other p i others rest hs
]

module _ (p : Primitives) (laws : PrimitiveLaws p) (secret esk file_key : Text) where
  abbrev own : Text → Stanza
  own body = record {
    kind = piv_p256;
    args = p.encode64 (p.short_hash (p.public_of secret)) ∷ p.encode64 (p.public_of esk) ∷ [];
    body = body;
  }

  own_args :
      (body : Text)
      → stanza_args p (own body) ≡ ok (p.short_hash (p.public_of secret), p.public_of esk)
  unfolding stanza_args
  own_args body =
      rw
        (
          laws.decode-encode (p.short_hash (p.public_of secret)),
          laws.short,
          laws.decode-encode (p.public_of esk),
        )
        refl

  own_recipient : new_recipient p (p.public_of esk) ≡ ok (p.public_of esk)
  unfolding new_recipient
  own_recipient = rw (laws.compressed, laws.point) refl

  own_stanza :
      (shared key : Text)
      → p.ecdh esk (p.public_of secret) ≡ ok shared
      → wrapping_key p shared (p.public_of esk) (p.public_of secret) ≡ ok key
      → unwrap_piv p (identity_of p secret) (own (p.seal key file_key)) ≡ ok file_key
  unfolding unwrap_piv identity_of
  own_stanza shared key h k =
      rw
        (
          own_args (p.seal key file_key),
          same_refl (p.short_hash (p.public_of secret)),
          own_recipient,
          laws.agree secret esk,
          h,
          k,
          laws.open-seal key file_key,
        )
        refl

  -- What is wrapped for a P-256 key is unwrapped by the identity of that key, whatever stanzas for other
  -- identities come first; nothing in front of it may be a stanza that the identity takes for its own.
  pub unwrap-wrap :
      (others stanzas : List Stanza)
      → All (IsOther p (identity_of p secret)) others
      → wrap p esk (p.public_of secret) file_key ≡ ok stanzas
      → unwrap p (identity_of p secret) (others ++ stanzas) ≡ ok file_key
  unfolding wrap unwrap unwrap_one settle identity_of
  unwrap-wrap others stanzas h e =
      let sealed = λ (key : Text). own (p.seal key file_key) ∷ [] in
      let recipient = p.public_of secret in
      let derive = λ (shared : Text). wrapping_key p shared (p.public_of esk) recipient in
      let (shared, hs, e₁) =
        >>=-eq-ok (p.ecdh esk recipient) (λ s. derive s >>= (λ key. ok (sealed key))) e in
      let (key, hk, e₂) = >>=-eq-ok (derive shared) (λ key. ok (sealed key)) e₁ in
      let i = identity_of p secret in
      unwrap-other p i others stanzas h
      ∙ subst (λ ss. unwrap p i ss ≡ ok file_key) {x = sealed key} {y = stanzas} (cc)
          (ap (λ r. settle p (some r) (err incorrect_identity)) (own_stanza shared key hs hk))
