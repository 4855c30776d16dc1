-- ===== src/Examples/Recipients.antt =====
-- Files encrypted to a P-256 key at concrete inputs.
use certtool.Base.{
  ℕ, ◌+◌, ◌≡◌, refl, ap, true, if◌then◌else◌, ◌==◌, Option, none, some, List, [], ◌∷◌, ◌++◌, All,
  inl, inr, ok, err, arith,
}
use certtool.Base.Text.{Text, codes}
use certtool.Age.{
  AgeError, file_key_unreadable, incorrect_identity, Primitives, Stanza, Identity, piv_p256, wrap,
  unwrap,
}
use certtool.Age.RoundTrip.{PrimitiveLaws, identity_of, IsOther, unwrap-wrap}

-- a toy group: the first code of a text counts
abbrev first : Text → ℕ
first [] = 0
first (c ∷ s) = c

abbrev zeros : Text
zeros =
    0 ∷ 0 ∷ 0 ∷ 0 ∷ 0 ∷ 0 ∷ 0 ∷ 0 ∷ 0 ∷ 0 ∷ 0 ∷ 0 ∷ 0 ∷ 0 ∷ 0 ∷ 0 ∷ 0 ∷ 0 ∷ 0 ∷ 0 ∷ 0 ∷ 0 ∷ 0 ∷ 0
    ∷ 0 ∷ 0 ∷ 0 ∷ 0 ∷ 0 ∷ 0 ∷ 0 ∷ 0 ∷ []

abbrev unseal : Text → Text → Option Text
unseal key [] = none
unseal key (c ∷ s) = if c == first key then some s else none

abbrev toy : Primitives
toy = record {
  public_of = λ secret. first secret ∷ zeros;
  is_point = λ t. true;
  ecdh = λ secret. λ peer. ok ((first secret + first peer) ∷ []);
  short_hash = λ t. first t ∷ 0 ∷ 0 ∷ 0 ∷ [];
  derive = λ secret. λ salt. ok (secret ++ salt);
  seal = λ key. λ plain. first key ∷ plain;
  open_sealed = unseal;
  encode64 = λ t. t;
  decode64 = λ t. some t;
  recipient_tag = λ key. λ enc. err file_key_unreadable;
  open_tagged = λ exchange. λ enc. λ body. err file_key_unreadable;
}

toy_laws : PrimitiveLaws toy
toy_laws = record {
  decode-encode = λ t. refl;
  short = λ t. refl;
  point = λ secret. refl;
  compressed = λ secret. refl;
  agree = λ a b. ap (λ (n : ℕ). ok (n ∷ [])) (omega arith);
  open-seal = λ key plain. ground arith;
}

-- one for another key, and one of a type that is not known
abbrev foreign : List Stanza
foreign =
    record { kind = piv_p256; args = (8 ∷ 0 ∷ 0 ∷ 0 ∷ []) ∷ (5 ∷ zeros) ∷ []; body = codes "x" }
    ∷ record { kind = codes "X25519"; args = []; body = [] }
    ∷ []

foreign_first : All (IsOther toy (identity_of toy (7 ∷ []))) foreign
unfolding IsOther certtool.Age.unwrap_one identity_of
foreign_first = (inr refl, (inl refl, tt))

abbrev stanzas : List Stanza
stanzas =
    record {
      kind = piv_p256;
      args = (7 ∷ 0 ∷ 0 ∷ 0 ∷ []) ∷ (9 ∷ zeros) ∷ [];
      body = 16 ∷ codes "file key";
    }
    ∷ []

wraps : wrap toy (9 ∷ []) (7 ∷ zeros) (codes "file key") ≡ ok stanzas
unfolding wrap
wraps = refl

unwrap-wrap_example :
    unwrap toy (identity_of toy (7 ∷ [])) (foreign ++ stanzas) ≡ ok (codes "file key")
unwrap-wrap_example =
    unwrap-wrap toy toy_laws (7 ∷ []) (9 ∷ []) (codes "file key") foreign stanzas foreign_first
      wraps
