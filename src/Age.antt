-- ===== src/Age.antt =====
-- P-256 keys as age recipients and identities: `pivP256Recipient`, `p256Identity`, `stanzaArgs` and
-- `ParseAgeRecipient` of pkg/certtool/encrypt.go.
pub mod RoundTrip
use certtool.Base.{
  ℕ, ◌≡◌, Bool, true, false, ◌&&◌, ◌||◌, not, ◌==◌, if◌then◌else◌, Option, none, some, List, [],
  ◌∷◌, ◌++◌, length, Outcome, ok, err, ◌>>=◌, ◌>>◌, refuse, map_err,
}
use certtool.Base.Text.{Text, codes, same, has_prefix, trim_space}

-- The errors of this part; age.ErrIncorrectIdentity is told apart.
pub data AgeError : Type 0 where
  incorrect_identity : AgeError
  invalid_stanza invalid_tag invalid_stanza_key : AgeError
  not_compressed invalid_point : AgeError
  key_exchange_failed derivation_failed file_key_unreadable : AgeError
  not_p256 : AgeError
  bad_recipient : Text → AgeError
  needs_plugin : Text → Text → AgeError

-- The primitives. Public keys are their compressed encodings, and a secret key is known by a text.
pub record Primitives : Type 0 where
  pub public_of : Text → Text
  pub is_point : Text → Bool
  pub ecdh : Text → Text → Outcome AgeError Text
  -- the SHA-256 of a text, its first four bytes
  pub short_hash : Text → Text
  -- hkdf.Key of a shared secret and a salt, with the label of age-plugin-yubikey
  pub derive : Text → Text → Outcome AgeError Text
  pub seal : Text → Text → Text
  pub open_sealed : Text → Text → Option Text
  pub encode64 : Text → Text
  pub decode64 : Text → Option Text
  -- tag.Recipient.Tag, and hpke on the body of a stanza
  pub recipient_tag : Text → Text → Outcome AgeError Text
  pub open_tagged : (Text → Outcome AgeError Text) → Text → Text → Outcome AgeError Text

abbrev pub piv_p256 : Text
piv_p256 = codes "piv-p256"

abbrev pub p256_tag : Text
p256_tag = codes "p256tag"

-- age.Stanza
pub record Stanza : Type 0 where
  pub kind : Text
  pub args : List Text
  pub body : Text

-- p256Identity: a key that is used for ECDH alone, and its compressed public key
pub record Identity : Type 0 where
  pub exchange : Text → Outcome AgeError Text
  pub compressed : Text

-- the error is wrapped, so age.ErrIncorrectIdentity is still found in it
abbrev about_file_key : AgeError → AgeError
about_file_key incorrect_identity = incorrect_identity
about_file_key e = file_key_unreadable

abbrev or_error : {A : Type 0} → AgeError → Option A → Outcome AgeError A
or_error e none = err e
or_error e (some a) = ok a

-- the two arguments of a stanza
unfoldable pub decode_args : (Text → Option Text) → List Text → Outcome AgeError (Text × Text)
decode_args decode64 (tag ∷ key ∷ []) = do
  t ← or_error invalid_tag (decode64 tag)
  refuse (not (length t == 4)) invalid_tag
  k ← or_error invalid_stanza_key (decode64 key)
  ok (t, k)
decode_args decode64 args = err invalid_stanza

module _ (p : Primitives) where
  unfoldable pub stanza_args : Stanza → Outcome AgeError (Text × Text)
  unfolding decode_args
  stanza_args s = decode_args p.decode64 s.args

  -- newPIVP256Recipient
  unfoldable pub new_recipient : Text → Outcome AgeError Text
  new_recipient compressed = do
    refuse (not (length compressed == 33)) not_compressed
    refuse (not (p.is_point compressed)) invalid_point
    ok compressed

  -- pivP256Key: the salt is the ephemeral key and the recipient's
  unfoldable pub wrapping_key : Text → Text → Text → Outcome AgeError Text
  wrapping_key secret epk recipient = p.derive secret (epk ++ recipient)

  -- pivP256Recipient.Wrap, with the ephemeral secret key that was drawn
  unfoldable pub wrap : Text → Text → Text → Outcome AgeError (List Stanza)
  unfolding wrapping_key
  wrap esk recipient file_key = do
    secret ← p.ecdh esk recipient
    let epk = p.public_of esk
    key ← wrapping_key secret epk recipient
    ok (
        record {
          kind = piv_p256;
          args = p.encode64 (p.short_hash recipient) ∷ p.encode64 epk ∷ [];
          body = p.seal key file_key;
        }
        ∷ [])

  -- NewP256Identity of a key that computes ECDH: whether it is on P-256, and its public key
  unfoldable pub new_identity :
      Bool → Text → (Text → Outcome AgeError Text) → Outcome AgeError Identity
  new_identity on_p256 compressed exchange = do
    refuse (not on_p256) not_p256
    refuse (not (p.is_point compressed)) invalid_point
    ok (record { exchange = exchange; compressed = compressed })

  unfoldable pub unwrap_piv : Identity → Stanza → Outcome AgeError Text
  unfolding stanza_args new_recipient wrapping_key same
  unwrap_piv i s = do
    (tag, epk) ← stanza_args s
    refuse (not (same tag (p.short_hash i.compressed))) incorrect_identity
    peer ← map_err (λ e. invalid_stanza_key) (new_recipient epk)
    secret ← i.exchange peer
    key ← wrapping_key secret epk i.compressed
    or_error file_key_unreadable (p.open_sealed key s.body)

  unfoldable pub unwrap_tagged : Identity → Stanza → Outcome AgeError Text
  unfolding stanza_args same
  unwrap_tagged i s = do
    (tag, enc) ← stanza_args s
    want ← p.recipient_tag i.compressed enc
    refuse (not (same tag want)) incorrect_identity
    map_err about_file_key (p.open_tagged i.exchange enc s.body)

  -- what one stanza gives; nothing for a stanza of another type
  unfoldable pub unwrap_one : Identity → Stanza → Option (Outcome AgeError Text)
  unfolding unwrap_piv unwrap_tagged same
  unwrap_one i s =
      if same s.kind piv_p256
      then some (unwrap_piv i s)
      else if same s.kind p256_tag
      then some (unwrap_tagged i s)
      else none

  -- whether the loop goes on
  unfoldable pub settle :
      Option (Outcome AgeError Text) → Outcome AgeError Text → Outcome AgeError Text
  settle none rest = rest
  settle (some (ok file_key)) rest = ok file_key
  settle (some (err incorrect_identity)) rest = rest
  settle (some (err e)) rest = err e

  -- p256Identity.Unwrap
  unfoldable pub unwrap : Identity → List Stanza → Outcome AgeError Text
  unfolding unwrap_one settle
  unwrap i [] = err incorrect_identity
  unwrap i (s ∷ ss) = settle (unwrap_one i s) (unwrap i ss)

-- The parsers of the age library, by the prefix of a recipient; the last tells a plugin's name.
pub record Parsers (R : Type 0) : Type 0 where
  pub tagged : Text → Outcome AgeError R
  pub hybrid : Text → Outcome AgeError R
  pub plugin_key : Text → Option Text
  pub piv : Text → Outcome AgeError R
  pub x25519 : Text → Outcome AgeError R
  pub plugin_name : Text → Option Text

module _ {R : Type 0} (parsers : Parsers R) where
  unfoldable pub other_recipient : Text → Outcome AgeError R → Option Text → Outcome AgeError R
  other_recipient s (ok r) name = ok r
  other_recipient s (err e) (some name) = err (needs_plugin s name)
  other_recipient s (err e) none = err (bad_recipient s)

  unfoldable pub parse_age_recipient : Text → Outcome AgeError R
  unfolding other_recipient has_prefix trim_space
  parse_age_recipient text =
      let s = trim_space text in
      if has_prefix s (codes "age1tag1") || has_prefix s (codes "age1tagpq1")
      then parsers.tagged s
      else if has_prefix s (codes "age1pq1")
      then parsers.hybrid s
      else if has_prefix s (codes "age1yubikey1")
      then (do key ← or_error (bad_recipient s) (parsers.plugin_key s); parsers.piv key)
      else other_recipient s (parsers.x25519 s) (parsers.plugin_name s)
