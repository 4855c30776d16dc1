-- ===== src/Yubikey/Select/Unique.antt =====
-- The YubiKey that `Open` of pkg/yubikey/yubikey_piv.go chooses is the only one that fits.
use certtool.Base.{
  ℕ, ◌≡◌, refl, sym, ap, ◌∙◌, subst, Bool, true, false, ◌&&◌, ◌||◌, ltb, ◌==◌, if◌then◌else◌, List,
  [], ◌∷◌, is_empty, map, All, Outcome, ok, err, >>=-eq-ok, arith, Bool-cases, inl, inr, if_true,
  if_false,
}
use certtool.Base.Text.{Text}
use certtool.Failure.{Failure, card_unreadable}
use certtool.Yubikey.Policy.{piv_slot}
use certtool.Yubikey.Select.{
  is_yubikey, Found, wants, note_serial, find_cards, one_match, choose, open_token,
}

module _ (card_serial : Text → Outcome Failure ℕ) (wanted_serial : ℕ) where
  Read : Found → Type 0
  Read found =
      All (λ m. (card_serial m.1 ≡ ok m.0) × (wants card_serial wanted_serial m.0 ≡ true))
        found.matches

  abbrev readable_match : Outcome Failure ℕ → Bool
  readable_match (ok serial) = wants card_serial wanted_serial serial
  readable_match (err e) = false

  -- a YubiKey whose serial number is read and wanted
  abbrev pub is_candidate : Text → Bool
  is_candidate card = is_yubikey card && readable_match (card_serial card)

  abbrev pub candidates : List Text → List Text
  candidates [] = []
  candidates (card ∷ cards) =
      if is_candidate card then card ∷ candidates cards else candidates cards

  noted :
      (card : Text) (r : Outcome Failure ℕ) (found : Found)
      → map (λ m. m.1) (note_serial card_serial wanted_serial card r found).matches ≡ (
          if readable_match r
          then card ∷ map (λ m. m.1) found.matches
          else map (λ m. m.1) found.matches)
  unfolding note_serial
  noted card (err e) found = refl
  noted card (ok serial) found = elim (Bool-cases (wants card_serial wanted_serial serial)) [
    | inl e ↦ rw e refl
    | inr e ↦ rw e refl
  ]

  matches-candidates :
      (cards : List Text)
      → map (λ m. m.1) (find_cards card_serial wanted_serial cards).matches ≡ candidates cards
  unfolding find_cards
  matches-candidates [] = refl
  matches-candidates (card ∷ cards) = elim (Bool-cases (is_yubikey card)) [
    | inl e ↦ rw e (
        noted card (card_serial card) (find_cards card_serial wanted_serial cards)
        ∙ ap (λ (l : List Text). if readable_match (card_serial card) then card ∷ l else l)
            (matches-candidates cards))
    | inr e ↦ rw e (matches-candidates cards)
  ]

  noted-Read :
      (card : Text) (r : Outcome Failure ℕ) (found : Found)
      → card_serial card ≡ r
      → Read found
      → Read (note_serial card_serial wanted_serial card r found)
  unfolding note_serial Read
  noted-Read card (err e) found s h = h
  noted-Read card (ok serial) found s h =
      elim (Bool-cases (wants card_serial wanted_serial serial)) [
        | inl e ↦ rw e ((s, e), h)
        | inr e ↦ rw e h
      ]

  find_cards-Read : (cards : List Text) → Read (find_cards card_serial wanted_serial cards)
  unfolding find_cards Read
  find_cards-Read [] = tt
  find_cards-Read (card ∷ cards) = elim (Bool-cases (is_yubikey card)) [
    | inl e ↦ rw e (
        noted-Read card (card_serial card) (find_cards card_serial wanted_serial cards) refl
          (find_cards-Read cards))
    | inr e ↦ rw e (find_cards-Read cards)
  ]

  the_match :
      (ms : List (ℕ × Text)) (serials : List ℕ) (m : ℕ × Text)
      → one_match card_serial wanted_serial ms serials ≡ ok m
      → ms ≡ m ∷ []
  unfolding one_match
  the_match [] serials m h = absurd (ground arith)
  the_match (n ∷ []) serials m h = let e : n ≡ m = cc in ap (λ (x : ℕ × Text). x ∷ []) e
  the_match (n ∷ o ∷ ms) serials m h = cc

  only_match :
      (found : Found) (m : ℕ × Text)
      → choose card_serial wanted_serial found ≡ ok m
      → found.matches ≡ m ∷ []
  unfolding choose
  only_match found m h =
      elim (Bool-cases (ltb 0 found.unreadable && (wanted_serial == 0 || is_empty found.matches))) [
        | inl e ↦ absurd (refused (sym (if_true _ _ _ e) ∙ h))
        | inr e ↦ the_match found.matches found.serials m (sym (if_false _ _ _ e) ∙ h)
      ]
    where
      refused : err card_unreadable ≡ ok m → ⊥
      refused k = cc

  -- The YubiKey that is opened is the only connected one whose serial number can be read and is the
  -- one asked for, or is any where none is asked for; its serial number is the one reported.
  pub open_token_unique :
      (open_card : Text → Outcome Failure (Unit {0})) (slot_text : Text) (cards : List Text)
      (serial : ℕ) (card : Text) (slot : ℕ)
      → open_token card_serial wanted_serial open_card slot_text cards ≡ ok (serial, card, slot)
      → (candidates cards ≡ card ∷ [])
        × (card_serial card ≡ ok serial)
        × (wants card_serial wanted_serial serial ≡ true)
  unfolding open_token Read
  open_token_unique open_card slot_text cards serial card slot h =
      let (s, p, h1) = >>=-eq-ok (piv_slot slot_text) _ h in
      let ((n, c), q, h2) =
        >>=-eq-ok (choose card_serial wanted_serial (find_cards card_serial wanted_serial cards)) _
          h1 in
      let (u, o, h3) = >>=-eq-ok (open_card c) _ h2 in
      let same_serial : n ≡ serial = ground arith in
      let same_card : c ≡ card = ground arith in
      let e = only_match (find_cards card_serial wanted_serial cards) (n, c) q in
      let (read, wanted) = (subst (All _) e (find_cards-Read cards)).0 in
      (
        sym (matches-candidates cards)
            ∙ ap (map (λ (m : ℕ × Text). m.1)) e
            ∙ ap (λ (x : Text). x ∷ []) same_card,
        ap card_serial (sym same_card) ∙ read ∙ ap ok same_serial,
        ap (wants card_serial wanted_serial) (sym same_serial) ∙ wanted,
      )
