-- ===== src/Yubikey/Token/Attempts.antt =====
-- How often a wrong PIN is sent to a YubiKey: `pinRejected` of pkg/yubikey/yubikey_piv.go.
use certtool.Base.{
  ℕ, ◌+◌, ◌≤◌, ◌≡◌, refl, sym, ◌∙◌, Bool, true, false, ◌||◌, not, ltb, if◌then◌else◌, Option, none,
  some, is_empty, length, Outcome, ok, err, arith, Bool-cases, inl, inr, ◌⊎◌, subst, ◌==◌, if_true,
  if_false,
}
use certtool.Base.Text.{Text, trim_space}
use certtool.Failure.{Failure, pin_rejected_before, pin_missing, pin_length}
use certtool.Yubikey.Token.{
  CardError, not_found, auth_error, other_error, Card, Token, Use, plain_use, get_pin,
  note_pin_failure, answered, with_pin, verified, sign, exchange, use_configured, use_metadata,
  use_stored, management_key, configured,
}

-- What a use may do to a token: a PIN that was rejected is not sent, and stays rejected; one that the
-- card refuses is rejected from then on.
Careful : {A : Type 0} → Token → Use A → Type 0
Careful t u =
    (t.pin_rejected ≡ true → (u.refused ≡ false) × (u.token.pin_rejected ≡ true))
    × (u.refused ≡ true → u.token.pin_rejected ≡ true)

module _ {A : Type 0} where
  answered-Careful :
      (t : Token) (r : Outcome CardError A) → t.pin_rejected ≡ false → Careful t (answered t r)
  unfolding Careful answered note_pin_failure
  answered-Careful t (ok a) h = (λ e. cc, λ e. cc)
  answered-Careful t (err e) h = (λ r. cc, λ r. ground arith)

  plain-Careful :
      (t t' : Token) (r : Outcome Failure A)
      → (t.pin_rejected ≡ true → t'.pin_rejected ≡ true)
      → Careful t (plain_use r t')
  unfolding Careful
  plain-Careful t t' r h = (λ e. (refl, h e), λ e. cc)

-- Either the PIN is sent, which was not rejected, or it is not, and a rejected one stays so.
get_pin_cases :
    (t : Token)
    → ((pin : Text) × (get_pin t ≡ (ok pin, t)) × (t.pin_rejected ≡ false))
      ⊎ ((e : Failure) × (t' : Token) × (get_pin t ≡ (err e, t'))
          × (t.pin_rejected ≡ true → t'.pin_rejected ≡ true))
unfolding get_pin
get_pin_cases t = elim (Bool-cases t.pin_rejected) [
  | inl e ↦ inr (pin_rejected_before, t, if_true _ _ _ e, λ r. r)
  | inr e ↦ elim (Bool-cases (is_empty t.pin)) [
    | inl f ↦ inr (pin_missing, t, if_false _ _ _ e ∙ if_true _ _ _ f, λ r. r)
    | inr f ↦ elim (Bool-cases (ltb (length t.pin) 6 || ltb 8 (length t.pin))) [
      | inl g ↦ inr (
        pin_length,
        record t { pin_rejected = true },
        if_false _ _ _ e ∙ if_false _ _ _ f ∙ if_true _ _ _ g,
        λ r. refl,
      )
      | inr g ↦ inl (t.pin, if_false _ _ _ e ∙ if_false _ _ _ f ∙ if_false _ _ _ g, e)
    ]
  ]
]

with_pin-Careful :
    {A : Type 0} (t : Token) (call : Text → Outcome CardError A)
    → Careful t (with_pin call (get_pin t))
unfolding with_pin
with_pin-Careful t call = elim (get_pin_cases t) [
  | inl (pin, e, h) ↦
      subst (λ r. Careful t (with_pin call r)) (sym e) (answered-Careful t (call pin) h)
  | inr (x, t', e, h) ↦
      subst (λ r. Careful t (with_pin call r)) (sym e) (plain-Careful t t' (err x) h)
]

sign-Careful :
    (card : Card) (verify : Text → Bool) (digest : Text) (t : Token)
    → Careful t (sign card verify digest t)
unfolding Careful sign verified
sign-Careful card verify digest t = with_pin-Careful t (λ pin. card.sign pin digest)

exchange-Careful : (card : Card) (peer : Text) (t : Token) → Careful t (exchange card peer t)
unfolding exchange
exchange-Careful card peer t = with_pin-Careful t (λ pin. card.exchange pin peer)

module _ (decode_hex : Text → Option Text) (default_key : Text) where
  metadata-Careful :
      (t : Token) (r : Outcome CardError (Option Text))
      → t.pin_rejected ≡ false
      → Careful t (use_metadata decode_hex default_key t r)
  unfolding use_metadata
  metadata-Careful t (ok (some key)) h = plain-Careful t _ (ok key) (λ e. e)
  metadata-Careful t (ok none) h = plain-Careful t _ (ok default_key) (λ e. e)
  metadata-Careful t (err not_found) h = plain-Careful t _ (ok default_key) (λ e. e)
  metadata-Careful t (err (auth_error b)) h = answered-Careful t (err (auth_error b)) h
  metadata-Careful t (err other_error) h = answered-Careful t (err other_error) h

  stored-Careful :
      (card : Card) (t : Token) → Careful t (use_stored decode_hex default_key card (get_pin t))
  unfolding use_stored
  stored-Careful card t = elim (get_pin_cases t) [
    | inl (pin, e, h) ↦
        subst (λ r. Careful t (use_stored decode_hex default_key card r)) (sym e)
          (metadata-Careful t (card.metadata pin) h)
    | inr (x, t', e, h) ↦
        subst (λ r. Careful t (use_stored decode_hex default_key card r)) (sym e)
          (plain-Careful t t' (err x) h)
  ]

  configured-Careful :
      (t t' : Token) (key : Option Text)
      → (t.pin_rejected ≡ true → t'.pin_rejected ≡ true)
      → Careful t (use_configured decode_hex default_key t' key)
  unfolding use_configured
  configured-Careful t t' none h = plain-Careful t t' _ h
  configured-Careful t t' (some key) h =
      elim (Bool-cases (length key == 16 || (length key == 24 || length key == 32))) [
        | inl e ↦ subst (Careful t) (sym (if_true _ _ _ e)) (plain-Careful t _ (ok key) h)
        | inr e ↦ subst (Careful t) (sym (if_false _ _ _ e)) (plain-Careful t t' _ h)
      ]

  management_key-Careful :
      (card : Card) (t : Token) → Careful t (management_key decode_hex default_key card t)
  unfolding management_key
  management_key-Careful card t = elim (Bool-cases (not (is_empty t.configured_key))) [
    | inl e ↦
        subst (Careful t) (sym (if_true _ _ (use_stored decode_hex default_key card (get_pin t)) e))
          (configured-Careful t (record t { management_key_source = configured })
            (decode_hex (trim_space t.configured_key)) (λ r. r))
    | inr e ↦
        subst (Careful t)
          (sym (
            if_false _
              (use_configured decode_hex default_key
                (record t { management_key_source = configured })
                (decode_hex (trim_space t.configured_key)))
              _ e))
          (stored-Careful card t)
  ]

  abbrev pub count : {A : Type 0} → Use A → ℕ
  count u = if u.refused then 1 else 0

  -- The uses of a token since it was opened, with the number of times that the card refused its PIN. A
  -- card may answer each use as it likes.
  pub data Reaches (start : Token) : Token → ℕ → Type 0 where
    opened : Reaches start start 0
    signs :
        {t : Token} {n : ℕ}
        → Reaches start t n
        → (card : Card) (verify : Text → Bool) (digest : Text)
        → Reaches start (sign card verify digest t).token (n + count (sign card verify digest t))
    exchanges :
        {t : Token} {n : ℕ}
        → Reaches start t n
        → (card : Card) (peer : Text)
        → Reaches start (exchange card peer t).token (n + count (exchange card peer t))
    manages :
        {t : Token} {n : ℕ}
        → Reaches start t n
        → (card : Card)
        → Reaches start
            (management_key decode_hex default_key card t).token
            (n + count (management_key decode_hex default_key card t))

  -- Refused at most once, and only if it is known to be rejected.
  Spent : Token → ℕ → Type 0
  Spent t n = (n ≡ 0) ⊎ ((n ≡ 1) × (t.pin_rejected ≡ true))

  spend :
      {A : Type 0} (t : Token) (n : ℕ) (u : Use A)
      → Careful t u
      → Spent t n
      → Spent u.token (n + count u)
  unfolding Spent Careful
  spend t n u (before, after) (inl e) = elim (Bool-cases u.refused) [
    | inl r ↦ inr (ground arith, after r)
    | inr r ↦ inl (ground arith)
  ]
  spend t n u (before, after) (inr (e, h)) = let (r, k) = before h in inr (ground arith, k)

  spent : (start t : Token) (n : ℕ) → Reaches start t n → Spent t n
  unfolding Spent
  spent start _ _ opened = inl refl
  spent start _ _ (signs {t = t} {n = n} r card verify digest) =
      spend t n _ (sign-Careful card verify digest t) (spent start t n r)
  spent start _ _ (exchanges {t = t} {n = n} r card peer) =
      spend t n _ (exchange-Careful card peer t) (spent start t n r)
  spent start _ _ (manages {t = t} {n = n} r card) =
      spend t n _ (management_key-Careful card t) (spent start t n r)

  -- However a token is used after it was opened, and whatever the card answers, the card refuses its
  -- PIN at most once.
  pub refused_at_most_once : (start t : Token) (n : ℕ) → Reaches start t n → n ≤ 1
  unfolding Spent
  refused_at_most_once start t n r = elim (spent start t n r) [
    | inl e ↦ omega arith
    | inr (e, h) ↦ omega arith
  ]
