-- ===== src/Chain/Shape.antt =====
-- The layers of what `ChainToSpec` of pkg/certtool/spec.go returns.
use certtool.Base.{
  ℕ, zero, suc, ◌+◌, ◌≡◌, refl, ap, sym, ◌∙◌, subst, ℤ, pos, negsuc, Bool, true, false, not,
  if◌then◌else◌, List, [], ◌∷◌, map, length, is_empty, ok, >>=-eq-ok, arith,
}
use certtool.Base.Text.{Text, codes, trim_space}
use certtool.Spec.{CertificateSpec, spec, Specs, no_specs, add_spec, fields_of, children_of}
use certtool.Chain.{
  next_lineage, row, member, build_chain_layer, prefix_all, apply_name_prefix, check_unique_names,
  check_widths, or_text, chain_specs, chain_to_spec,
}

abbrev pub count_specs : Specs → ℕ
count_specs no_specs = 0
count_specs (add_spec s ss) = suc (count_specs ss)

abbrev pub AllSpecs : (CertificateSpec → Type 0) → Specs → Type 0
AllSpecs P no_specs = Unit
AllSpecs P (add_spec s ss) = P s × AllSpecs P ss

-- As many specs as the first width says, all of them CAs if a layer follows and else leaves, and the
-- rest of the widths below each.
abbrev pub Layered : List ℕ → Specs → Type 0
Layered [] specs = specs ≡ no_specs
Layered (w ∷ ws) specs =
    (count_specs specs ≡ w)
    × AllSpecs
        (λ s.
          ((fields_of s).certificate_authority ≡ not (is_empty ws)) × Layered ws (children_of s))
        specs

AllSpecs-row :
    (P : CertificateSpec → Type 0) (f : ℕ → CertificateSpec) (n i : ℕ)
    → ((j : ℕ) → P (f j))
    → AllSpecs P (row f n i)
unfolding row
AllSpecs-row P f zero i h = tt
AllSpecs-row P f (suc n) i h = (h i, AllSpecs-row P f n (i + 1) h)

count-row : (f : ℕ → CertificateSpec) (n i : ℕ) → count_specs (row f n i) ≡ n
unfolding row
count-row f zero i = refl
count-row f (suc n) i = omega (arith, count-row f n (i + 1))

member-Layered :
    (leaf_cn organization : Text) (layers : ℕ) (below : List ℕ) (layer : ℕ) (lineage : List ℕ)
    (cs : Specs)
    → Layered below cs
    → ((fields_of (member leaf_cn organization layers below layer lineage cs)).certificate_authority
        ≡ not (is_empty below))
      × Layered below (children_of (member leaf_cn organization layers below layer lineage cs))
unfolding member
member-Layered leaf_cn organization layers [] layer lineage cs h = (refl, refl)
member-Layered leaf_cn organization layers (w ∷ ws) layer lineage cs h = (refl, h)

build-Layered :
    (leaf_cn organization : Text) (layers : ℕ) (ws : List ℕ) (layer : ℕ) (parent : List ℕ)
    → Layered ws (build_chain_layer leaf_cn organization layers ws layer parent)
unfolding build_chain_layer
build-Layered leaf_cn organization layers [] layer parent = refl
build-Layered leaf_cn organization layers (w ∷ ws) layer parent = (
  count-row _ w 0,
  AllSpecs-row _ _ w 0 (λ i.
      let lineage = next_lineage parent w i in
      member-Layered leaf_cn organization layers ws layer lineage
        (build_chain_layer leaf_cn organization layers ws (layer + 1) lineage)
        (build-Layered leaf_cn organization layers ws (layer + 1) lineage)),
)

count-prefix_all :
    (prefix : Text) (ss : Specs) → count_specs (prefix_all prefix ss) ≡ count_specs ss
unfolding prefix_all
count-prefix_all prefix no_specs = refl
count-prefix_all prefix (add_spec s ss) = ap suc (count-prefix_all prefix ss)

prefix_all-AllSpecs :
    (prefix : Text) (ws : List ℕ)
    → ((cs : Specs) → Layered ws cs → Layered ws (prefix_all prefix cs))
    → (ss : Specs)
    → AllSpecs
        (λ s.
          ((fields_of s).certificate_authority ≡ not (is_empty ws)) × Layered ws (children_of s))
        ss
    → AllSpecs
        (λ s.
          ((fields_of s).certificate_authority ≡ not (is_empty ws)) × Layered ws (children_of s))
        (prefix_all prefix ss)
unfolding prefix_all
prefix_all-AllSpecs prefix ws below no_specs h = tt
prefix_all-AllSpecs prefix ws below (add_spec (spec f cs) ss) ((e, l), h) =
    ((e, below cs l), prefix_all-AllSpecs prefix ws below ss h)

prefix_all-Layered :
    (prefix : Text) (ws : List ℕ) (ss : Specs) → Layered ws ss → Layered ws (prefix_all prefix ss)
unfolding prefix_all
prefix_all-Layered prefix [] ss e = rw e refl
prefix_all-Layered prefix (w ∷ ws) ss (n, h) = (
  count-prefix_all prefix ss ∙ n,
  prefix_all-AllSpecs prefix ws (prefix_all-Layered prefix ws) ss h,
)

chain_specs-Layered :
    (counts : List ℕ) (common_name organization name_prefix : Text)
    → Layered counts (chain_specs counts common_name organization name_prefix)
unfolding chain_specs apply_name_prefix
chain_specs-Layered counts common_name organization name_prefix =
    prefixed (is_empty (trim_space name_prefix))
  where
    leaf_cn : Text
    leaf_cn = or_text common_name (or_text organization (codes "Certtool"))

    built : Specs
    built =
        build_chain_layer leaf_cn (or_text organization (codes "Certtool")) (length counts) counts 0
          []

    shape : Layered counts built
    shape =
        build-Layered leaf_cn (or_text organization (codes "Certtool")) (length counts) counts 0 []

    prefixed :
        (b : Bool) → Layered counts (if b then built else prefix_all (trim_space name_prefix) built)
    prefixed true = shape
    prefixed false = prefix_all-Layered (trim_space name_prefix) counts built shape

-- The widths that pass are those given.
check_widths_ok :
    (i : ℕ) (ws : List ℤ) (counts : List ℕ) → check_widths i ws ≡ ok counts → map pos counts ≡ ws
unfolding check_widths
check_widths_ok i [] counts h = let e : [] ≡ counts = cc in rw (sym e) refl
check_widths_ok i (pos zero ∷ ws) counts h = cc
check_widths_ok i (pos (suc w) ∷ ws) counts h =
    let (rest, p, q) = >>=-eq-ok (check_widths (i + 1) ws) _ h in
    let e : suc w ∷ rest ≡ counts = cc in
    rw (sym e) (ap (λ l. pos (suc w) ∷ l) (check_widths_ok (i + 1) ws rest p))
check_widths_ok i (negsuc w ∷ ws) counts h = cc

-- `ChainToSpec` returns the hierarchy that the widths describe: on each layer its width of specs
-- under every spec of the layer before, CAs on all layers but the last, whose specs have no
-- children.
pub chain_to_spec-Layered :
    (widths : List ℤ) (common_name organization name_prefix : Text) (specs : Specs)
    → chain_to_spec widths common_name organization name_prefix ≡ ok specs
    → (counts : List ℕ) × (map pos counts ≡ widths) × Layered counts specs
unfolding chain_to_spec
chain_to_spec-Layered [] common_name organization name_prefix specs h = cc
chain_to_spec-Layered (w ∷ ws) common_name organization name_prefix specs h =
    let (counts, p, q) = >>=-eq-ok (check_widths 1 (w ∷ ws)) _ h in
    let built = chain_specs counts common_name organization name_prefix in
    let (seen, checked, same_specs) = >>=-eq-ok (check_unique_names [] built) (λ _. ok built) q in
    let e : built ≡ specs = cc in
    (
      counts,
      check_widths_ok 1 (w ∷ ws) counts p,
      subst (Layered counts) e (chain_specs-Layered counts common_name organization name_prefix),
    )
