-- ===== src/Examples/Tokens.antt =====
-- YubiKeys at concrete inputs.
use certtool.Base.{
  ℕ, ◌≡◌, refl, ◌≤◌, ◌+◌, true, false, Option, none, List, [], ◌∷◌, Outcome, ok, err,
}
use certtool.Base.Text.{Text, codes}
use certtool.Failure.{Failure, card_failure}
use certtool.Yubikey.Token.{auth_error, Card, no_source, Token, sign}
use certtool.Yubikey.Token.Attempts.{count, Reaches, opened, signs, refused_at_most_once}
use certtool.Yubikey.Select.{wants, open_token}
use certtool.Yubikey.Select.Unique.{candidates, open_token_unique}

-- a card that refuses every PIN
abbrev refusing : Card
refusing = record {
  metadata = λ pin. err (auth_error false);
  sign = λ pin. λ digest. err (auth_error false);
  exchange = λ pin. λ peer. err (auth_error false);
}

abbrev fresh_token : Token
fresh_token = record {
  pin = codes "123456";
  configured_key = [];
  pin_rejected = false;
  management_key_source = no_source;
  default_management_key = false;
}

abbrev once : Token
once = (sign refusing (λ s. true) [] fresh_token).token

abbrev twice : Token
twice = (sign refusing (λ s. true) [] once).token

abbrev no_hex : Text → Option Text
no_hex s = none

abbrev attempts : ℕ
attempts =
    0
    + count no_hex [] (sign refusing (λ s. true) [] fresh_token)
    + count no_hex [] (sign refusing (λ s. true) [] once)

used_twice : Reaches no_hex [] fresh_token twice attempts
used_twice = signs (signs opened refusing (λ s. true) []) refusing (λ s. true) []

refused_once : attempts ≡ 1
unfolding sign
refused_once = refl

refused_at_most_once_example : attempts ≤ 1
refused_at_most_once_example = refused_at_most_once no_hex [] fresh_token twice attempts used_twice

-- two YubiKeys and another reader
abbrev serial_of : Text → Outcome Failure ℕ
serial_of card = elim card [ [] ↦ err card_failure | c ∷ s ↦ ok c ]

abbrev readers : List Text
readers = codes "A Yubikey" ∷ codes "Other" ∷ codes "B YubiKey" ∷ []

opens_second :
    open_token serial_of b'B' (λ c. ok tt) (codes "9C") readers ≡ ok (b'B', codes "B YubiKey", 0x9c)
unfolding open_token
opens_second = refl

open_token_example :
    (candidates serial_of b'B' readers ≡ codes "B YubiKey" ∷ [])
    × (serial_of (codes "B YubiKey") ≡ ok b'B')
    × (wants serial_of b'B' b'B' ≡ true)
open_token_example =
    open_token_unique serial_of b'B' (λ c. ok tt) (codes "9C") readers b'B' (codes "B YubiKey") 0x9c
      opens_second
