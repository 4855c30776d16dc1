-- ===== src/Chain/Validity.antt =====
-- A spec that `ChainToSpec` of pkg/certtool/spec.go returns is one that `UnmarshalSpec` accepts.
use certtool.Base.{
  ℕ, zero, suc, ◌+◌, ◌≡◌, refl, sym, subst, ℤ, Bool, true, false, ◌&&◌, not, if◌then◌else◌, Option,
  List, [], ◌∷◌, ◌++◌, length, is_empty, ok, >>=-eq-ok, arith, ltb, pos, negsuc, Bool-cases, inl,
  inr,
}
use certtool.Base.Text.{Text, codes, trim_space}
use certtool.Base.Decimal.{itoa}
use certtool.Host.Valid.{Address}
use certtool.Profile.{pfx_format}
use certtool.Spec.{
  SpecFields, CertificateSpec, spec, Specs, no_specs, add_spec, has_specs, plain_fields,
}
use certtool.Spec.Validate.{
  validate_filename, spec_pfx, parse_ip_ranges, validate_hostnames, below_no_limit,
  has_ca_constraints, validate_emails, validate_names, validate_purpose, validate_spec,
  validate_children, validate_all, check_specs,
}
use certtool.Chain.{
  ca_name, lineage_name, next_lineage, row, member, build_chain_layer, prefix_all,
  apply_name_prefix, check_unique_names, check_widths, or_text, chain_specs, chain_to_spec,
}

abbrev made : Text → Bool → SpecFields
made cn ca = record (plain_fields cn) { certificate_authority = ca }

-- A tree of named specs with nothing set but the name and whether they are CAs, which those with
-- children are.
mutual
  data Made : CertificateSpec → Type 0 where
    one :
        {cn : Text} {ca : Bool} {cs : Specs}
        → is_empty cn ≡ false
        → (has_specs cs && not ca) ≡ false
        → AllMade cs
        → Made (spec (made cn ca) cs)

  data AllMade : Specs → Type 0 where
    none_made : AllMade no_specs
    more_made : {s : CertificateSpec} {ss : Specs} → Made s → AllMade ss → AllMade (add_spec s ss)

module _ (parse_address : Text → Option Address) where
  names_made :
      (cn : Text) (ca : Bool) (cs : Specs)
      → is_empty cn ≡ false
      → (has_specs cs && not ca) ≡ false
      → validate_names parse_address (made cn ca) cs ≡ ok tt
  unfolding validate_names validate_filename spec_pfx validate_hostnames pfx_format
  names_made cn ca cs e h = rw (e, h) refl

  purpose_made : (cn : Text) (ca : Bool) → validate_purpose parse_address (made cn ca) ≡ ok tt
  unfolding validate_purpose validate_emails below_no_limit has_ca_constraints parse_ip_ranges
  purpose_made cn true = refl
  purpose_made cn false = refl

  mutual
    unfolding validate_spec

    Made-valid : (s : CertificateSpec) → Made s → validate_spec parse_address s ≡ ok tt
    Made-valid (spec f cs) (one {cn = cn} {ca = ca} e h below) =
        rw (names_made cn ca cs e h, purpose_made cn ca) (children_valid cn ca cs below)

    children_valid :
        (cn : Text) (ca : Bool) (cs : Specs)
        → AllMade cs
        → validate_children parse_address (made cn ca) cs ≡ ok tt
    children_valid cn ca no_specs none_made = refl
    children_valid cn ca (add_spec (spec g cs) ss)
          (more_made (one {cn = n} {ca = b} e h below) rest) =
        rw (Made-valid (spec (made n b) cs) (one e h below)) (children_valid cn ca ss rest)

  all_valid : (ss : Specs) → AllMade ss → validate_all parse_address ss ≡ ok tt
  unfolding validate_all
  all_valid no_specs none_made = refl
  all_valid (add_spec s ss) (more_made m rest) = rw (Made-valid s m) (all_valid ss rest)

append-named : (s t : Text) → is_empty s ≡ false → is_empty (s ++ t) ≡ false
append-named [] t h = cc
append-named (c ∷ s) t h = refl

lineage_name-named :
    (base : Text) (lineage : List ℕ)
    → is_empty base ≡ false
    → is_empty (lineage_name base lineage) ≡ false
unfolding lineage_name
lineage_name-named base [] h = h
lineage_name-named base (n ∷ l) h = append-named base _ h

ca_name-named :
    (organization : Text) (layer layers : ℕ)
    → is_empty organization ≡ false
    → is_empty (ca_name organization layer layers) ≡ false
unfolding ca_name
ca_name-named organization layer layers h = ground (
  arith,
  append-named organization (codes " Root CA") h,
  append-named organization
      (codes " Intermediate"
        ++ ((if ltb 3 layers then codes " " ++ itoa layer else []) ++ codes " CA"))
      h,
)

row-Made : (f : ℕ → CertificateSpec) (n i : ℕ) → ((j : ℕ) → Made (f j)) → AllMade (row f n i)
unfolding row
row-Made f zero i h = none_made
row-Made f (suc n) i h = more_made (h i) (row-Made f n (i + 1) h)

module _ (leaf_cn organization : Text) (layers : ℕ) (leaf_named : is_empty leaf_cn ≡ false)
    (named : is_empty organization ≡ false) where
  member-Made :
      (below : List ℕ) (layer : ℕ) (lineage : List ℕ) (cs : Specs)
      → AllMade cs
      → Made (member leaf_cn organization layers below layer lineage cs)
  unfolding member
  member-Made [] layer lineage cs h =
      one {cn = lineage_name leaf_cn lineage} {ca = false}
        (lineage_name-named leaf_cn lineage leaf_named) refl none_made
  member-Made (w ∷ ws) layer lineage cs h =
      one {cn = lineage_name (ca_name organization layer layers) lineage} {ca = true}
        (lineage_name-named _ lineage (ca_name-named organization layer layers named))
        (ground arith) h

  build_made :
      (ws : List ℕ) (layer : ℕ) (parent : List ℕ)
      → AllMade (build_chain_layer leaf_cn organization layers ws layer parent)
  unfolding build_chain_layer
  build_made [] layer parent = none_made
  build_made (w ∷ ws) layer parent = row-Made _ w 0 (λ i.
      let lineage = next_lineage parent w i in
      member-Made ws layer lineage
        (build_chain_layer leaf_cn organization layers ws (layer + 1) lineage)
        (build_made ws (layer + 1) lineage))

mutual
  unfolding prefix_all

  prefix_made :
      (prefix : Text) (ss : Specs)
      → is_empty prefix ≡ false
      → AllMade ss
      → AllMade (prefix_all prefix ss)
  prefix_made prefix no_specs h none_made = none_made
  prefix_made prefix (add_spec (spec f cs) ss) h
        (more_made (one {cn = cn} {ca = ca} e g below) rest) =
      more_made
        (one {cn = prefix ++ (codes " " ++ cn)} {ca = ca} (append-named prefix _ h)
          (has_prefixed prefix cs ca g) (prefix_made prefix cs h below))
        (prefix_made prefix ss h rest)

  has_prefixed :
      (prefix : Text) (ss : Specs) (ca : Bool)
      → (has_specs ss && not ca) ≡ false
      → (has_specs (prefix_all prefix ss) && not ca) ≡ false
  has_prefixed prefix no_specs ca h = h
  has_prefixed prefix (add_spec s ss) ca h = h

or_text-named : (s default : Text) → is_empty default ≡ false → is_empty (or_text s default) ≡ false
or_text-named [] default h = h
or_text-named (c ∷ s) default h = refl

chain_specs_made :
    (counts : List ℕ) (common_name organization name_prefix : Text)
    → AllMade (chain_specs counts common_name organization name_prefix)
unfolding chain_specs apply_name_prefix
chain_specs_made counts common_name organization name_prefix =
    elim (Bool-cases (is_empty (trim_space name_prefix))) [
      | inl e ↦ rw e all_made
      | inr e ↦ rw e (prefix_made (trim_space name_prefix) _ e all_made)
    ]
  where
    named : is_empty (or_text organization (codes "Certtool")) ≡ false
    named = or_text-named organization (codes "Certtool") refl

    all_made : AllMade (
        build_chain_layer
          (or_text common_name (or_text organization (codes "Certtool")))
          (or_text organization (codes "Certtool"))
          (length counts)
          counts
          0
          [])
    all_made = build_made _ _ (length counts) (or_text-named common_name _ named) named counts 0 []

has_specs-apply_name_prefix :
    (ss : Specs) (prefix : Text) → has_specs (apply_name_prefix ss prefix) ≡ has_specs ss
unfolding apply_name_prefix prefix_all
has_specs-apply_name_prefix no_specs prefix = ground arith
has_specs-apply_name_prefix (add_spec (spec f cs) ss) prefix = ground arith

-- The first layer has a CA or a leaf, since its width is at least one.
chain_specs-has_specs :
    (w : ℤ) (ws : List ℤ) (counts : List ℕ) (common_name organization name_prefix : Text)
    → check_widths 1 (w ∷ ws) ≡ ok counts
    → has_specs (chain_specs counts common_name organization name_prefix) ≡ true
unfolding check_widths chain_specs build_chain_layer row
chain_specs-has_specs (pos zero) ws counts common_name organization name_prefix h = cc
chain_specs-has_specs (negsuc w) ws counts common_name organization name_prefix h = cc
chain_specs-has_specs (pos (suc w)) ws counts common_name organization name_prefix h =
    let (rest, p, q) = >>=-eq-ok (check_widths 2 ws) _ h in
    let e : suc w ∷ rest ≡ counts = cc in
    rw (sym e) (has_specs-apply_name_prefix _ (trim_space name_prefix))

-- `UnmarshalSpec` accepts what `ChainToSpec` returns, when it is written out and read back: a
-- generated hierarchy is not empty and valid, whatever `mail.ParseAddress` says.
pub chain_to_spec-valid :
    (parse_address : Text → Option Address) (widths : List ℤ)
    (common_name organization name_prefix : Text) (specs : Specs)
    → chain_to_spec widths common_name organization name_prefix ≡ ok specs
    → check_specs parse_address specs ≡ ok specs
unfolding chain_to_spec check_specs
chain_to_spec-valid parse_address [] common_name organization name_prefix specs h = cc
chain_to_spec-valid parse_address (w ∷ ws) common_name organization name_prefix specs h =
    let (counts, p, q) = >>=-eq-ok (check_widths 1 (w ∷ ws)) _ h in
    let built = chain_specs counts common_name organization name_prefix in
    let (seen, checked, same_specs) = >>=-eq-ok (check_unique_names [] built) (λ _. ok built) q in
    let e : built ≡ specs = cc in
    let some_spec = chain_specs-has_specs w ws counts common_name organization name_prefix p in
    let valid =
      all_valid parse_address built
        (chain_specs_made counts common_name organization name_prefix) in
    subst (λ s. check_specs parse_address s ≡ ok s) e (rw (some_spec, valid) refl)
