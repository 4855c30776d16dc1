-- ===== src/Spec/Depth.antt =====
-- `caDepth` and `signsEmail` of pkg/certtool/spec.go: what a CA must allow below it.
use Prim.Native.Nat.{max}
use certtool.Base.{
  ℕ, suc, ◌+◌, ◌≤◌, ◌≡◌, refl, ◌∙◌, ◌↔◌, ◌⊎◌, inl, inr, Bool, true, false, ◌||◌, not, if◌then◌else◌,
  is_empty, arith, or_true,
}
use certtool.Spec.{SpecFields, CertificateSpec, spec, Specs, no_specs, add_spec, fields_of}

unfoldable mutual
  pub ca_depth : CertificateSpec → ℕ
  ca_depth (spec f children) = depth_in children

  -- the loop: `depth` is the maximum over the children that are CAs
  pub depth_in : Specs → ℕ
  depth_in no_specs = 0
  depth_in (add_spec child rest) =
      let own = 1 + ca_depth child in
      let others = depth_in rest in
      if (fields_of child).certificate_authority then max own others else others

unfoldable mutual
  pub signs_email : CertificateSpec → Bool
  signs_email (spec f children) = email_in children

  pub email_in : Specs → Bool
  email_in no_specs = false
  email_in (add_spec child rest) =
      not (is_empty (fields_of child).email_addresses) || signs_email child || email_in rest

-- A chain of `n` CAs, each signed by the one before, below a spec.
mutual
  pub data CaChain : CertificateSpec → ℕ → Type 0 where
    stop : {s : CertificateSpec} → CaChain s 0
    down : {f : SpecFields} {cs : Specs} {n : ℕ} → ChainIn cs n → CaChain (spec f cs) n

  pub data ChainIn : Specs → ℕ → Type 0 where
    through :
        {c : CertificateSpec} {cs : Specs} {n : ℕ}
        → (fields_of c).certificate_authority ≡ true
        → CaChain c n
        → ChainIn (add_spec c cs) (suc n)
    skip : {c : CertificateSpec} {cs : Specs} {n : ℕ} → ChainIn cs n → ChainIn (add_spec c cs) n

mutual
  unfolding ca_depth

  chain_bound : (s : CertificateSpec) (n : ℕ) → CaChain s n → n ≤ ca_depth s
  chain_bound (spec f cs) n stop = omega arith
  chain_bound (spec f cs) n (down d) = in_bound cs n d

  in_bound : (cs : Specs) (n : ℕ) → ChainIn cs n → n ≤ depth_in cs
  in_bound no_specs n d = elim d [ ]
  in_bound (add_spec c cs) _ (through {n = m} ca d) = ground (arith, chain_bound c m d)
  in_bound (add_spec c cs) n (skip d) = ground (arith, in_bound cs n d)

-- The loop's result is the first child's chain, or the others'.
pick :
    (b : Bool) (own others : ℕ)
    → ((b ≡ true) × ((if b then max (1 + own) others else others) ≡ suc own))
      ⊎ ((if b then max (1 + own) others else others) ≡ others)
pick b own others = ground arith

mutual
  unfolding ca_depth

  deepest : (s : CertificateSpec) → CaChain s (ca_depth s)
  deepest (spec f cs) = elim (deepest_in cs) [ inl e ↦ rw e stop | inr d ↦ down d ]

  deepest_in : (cs : Specs) → (depth_in cs ≡ 0) ⊎ ChainIn cs (depth_in cs)
  deepest_in no_specs = inl refl
  deepest_in (add_spec c cs) =
      elim (pick (fields_of c).certificate_authority (ca_depth c) (depth_in cs)) [
        | inl (ca, e) ↦ inr (rw e (through ca (deepest c)))
        | inr e ↦ elim (deepest_in cs) [ inl z ↦ inl (e ∙ z) | inr d ↦ inr (rw e (skip d)) ]
      ]

-- `caDepth` is the length of the longest chain of CAs below a spec: there is one of that length, and
-- none is longer.
ca_depth_longest :
    (s : CertificateSpec) → CaChain s (ca_depth s) × ((n : ℕ) → CaChain s n → n ≤ ca_depth s)
ca_depth_longest s = (deepest s, chain_bound s)

-- A certificate with e-mail addresses below a spec.
mutual
  pub data EmailBelow : CertificateSpec → Type 0 where
    below : {f : SpecFields} {cs : Specs} → EmailIn cs → EmailBelow (spec f cs)

  pub data EmailIn : Specs → Type 0 where
    here :
        {c : CertificateSpec} {cs : Specs}
        → is_empty (fields_of c).email_addresses ≡ false
        → EmailIn (add_spec c cs)
    under : {c : CertificateSpec} {cs : Specs} → EmailBelow c → EmailIn (add_spec c cs)
    later : {c : CertificateSpec} {cs : Specs} → EmailIn cs → EmailIn (add_spec c cs)

mutual
  unfolding signs_email

  email_found : (s : CertificateSpec) → signs_email s ≡ true → EmailBelow s
  email_found (spec f cs) h = below (email_found_in cs h)

  email_found_in : (cs : Specs) → email_in cs ≡ true → EmailIn cs
  email_found_in no_specs h = cc
  email_found_in (add_spec c cs) h =
      elim (or_true (not (is_empty (fields_of c).email_addresses) || signs_email c) (email_in cs)
        h) [
          | inl own ↦
              elim (or_true (not (is_empty (fields_of c).email_addresses)) (signs_email c) own) [
                | inl e ↦ here (ground arith)
                | inr e ↦ under (email_found c e)
              ]
          | inr rest ↦ later (email_found_in cs rest)
        ]

mutual
  unfolding signs_email

  email_seen : (s : CertificateSpec) → EmailBelow s → signs_email s ≡ true
  email_seen (spec f cs) (below e) = email_seen_in cs e

  email_seen_in : (cs : Specs) → EmailIn cs → email_in cs ≡ true
  email_seen_in no_specs e = elim e [ ]
  email_seen_in (add_spec c cs) (here e) = ground arith
  email_seen_in (add_spec c cs) (under e) = ground (arith, email_seen c e)
  email_seen_in (add_spec c cs) (later e) = ground (arith, email_seen_in cs e)

-- `signsEmail` holds exactly when some spec below has e-mail addresses.
signs_email_iff : (s : CertificateSpec) → (signs_email s ≡ true) ↔ EmailBelow s
signs_email_iff s = (email_found s, email_seen s)
