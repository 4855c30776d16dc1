-- ===== src/Yubikey/Select.antt =====
-- Which YubiKey is opened: `Open` of pkg/yubikey/yubikey_piv.go.
pub mod Unique
use certtool.Base.{
  ℕ, zero, suc, ◌≡◌, refl, sym, ap, ◌∙◌, subst, Bool, true, false, ◌&&◌, ◌||◌, not, ltb, ◌==◌,
  if◌then◌else◌, List, [], ◌∷◌, is_empty, length, any, map, Outcome, ok, err, >>=-eq-ok, ◌>>=◌,
  ◌>>◌, refuse, refuse-eq-ok, arith, Bool-cases, inl, inr, is_ok,
}
use certtool.Base.Text.{Text, codes, to_lower, has_prefix}
use certtool.Failure.{
  Failure, card_unreadable, serial_not_connected, no_yubikey, several_yubikeys, card_not_opened,
}
use certtool.Yubikey.Policy.{piv_slot}

-- strings.Contains
unfoldable pub contains_text : Text → Text → Bool
unfolding has_prefix
contains_text [] p = has_prefix [] p
contains_text (c ∷ s) p = has_prefix (c ∷ s) p || contains_text s p

unfoldable pub is_yubikey : Text → Bool
unfolding contains_text to_lower
is_yubikey card = contains_text (to_lower card) (codes "yubikey")

-- What the loop over the readers collects; `others` counts the readers of other cards.
pub record Found : Type 0 where
  pub matches : List (ℕ × Text)
  pub others : ℕ
  pub serials : List ℕ
  pub unreadable : ℕ

abbrev nothing_found : Found
nothing_found = record { matches = []; others = 0; serials = []; unreadable = 0 }

-- piv.Cards and opening a card are the arguments `cards`, `card_serial` and `open_card`.
module _ (card_serial : Text → Outcome Failure ℕ) (wanted_serial : ℕ) where
  -- cfg.Serial == 0 || cfg.Serial == serial
  unfoldable pub wants : ℕ → Bool
  wants serial = wanted_serial == 0 || wanted_serial == serial

  unfoldable pub note_serial : Text → Outcome Failure ℕ → Found → Found
  unfolding wants
  note_serial card (err e) found = record found { unreadable = suc found.unreadable }
  note_serial card (ok serial) found =
      let seen = record found { serials = serial ∷ found.serials } in
      if wants serial then record seen { matches = (serial, card) ∷ found.matches } else seen

  -- the loop, from the last reader to the first
  unfoldable pub find_cards : List Text → Found
  unfolding note_serial is_yubikey
  find_cards [] = nothing_found
  find_cards (card ∷ cards) =
      let found = find_cards cards in
      if not (is_yubikey card)
      then record found { others = suc found.others }
      else note_serial card (card_serial card) found

  unfoldable pub one_match : List (ℕ × Text) → List ℕ → Outcome Failure (ℕ × Text)
  one_match [] serials =
      if not (wanted_serial == 0) && not (is_empty serials)
      then err serial_not_connected
      else err no_yubikey
  one_match (m ∷ []) serials = ok m
  one_match (m ∷ n ∷ ms) serials = err several_yubikeys

  -- the switch: the one match, or why there is none
  unfoldable pub choose : Found → Outcome Failure (ℕ × Text)
  unfolding one_match
  choose found =
      if ltb 0 found.unreadable && (wanted_serial == 0 || is_empty found.matches)
      then err card_unreadable
      else one_match found.matches found.serials

  unfoldable pub open_token :
      (Text → Outcome Failure (Unit {0})) → Text → List Text → Outcome Failure (ℕ × Text × ℕ)
  unfolding find_cards choose piv_slot
  open_token open_card slot_text cards = do
    slot ← piv_slot slot_text
    (serial, card) ← choose (find_cards cards)
    open_card card
    ok (serial, card, slot)
