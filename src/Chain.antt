-- ===== src/Chain.antt =====
-- `ChainToSpec` of pkg/certtool/spec.go: a hierarchy from the widths of its layers.
pub mod Shape
pub mod Unique
pub mod Passwords
pub mod Validity
use certtool.Base.{
  ℕ, zero, suc, ◌+◌, ℤ, pos, negsuc, ltb_ℤ, Bool, true, false, ◌==◌, ltb, if◌then◌else◌, List, [],
  ◌∷◌, ◌++◌, map, length, is_empty, Outcome, ok, err, ◌>>=◌, ◌>>◌,
}
use certtool.Base.Text.{Text, codes, trim_space, join, mem_text}
use certtool.Base.Decimal.{itoa}
use certtool.Failure.{Failure, no_widths, width_too_small, repeated_name}
use certtool.Spec.{SpecFields, CertificateSpec, spec, Specs, no_specs, add_spec, plain_fields}

-- layers-2 > 1 for the tier number
unfoldable pub ca_name : Text → ℕ → ℕ → Text
unfolding itoa
ca_name organization layer layers =
    if layer == 0
    then organization ++ codes " Root CA"
    else organization
      ++ (codes " Intermediate"
          ++ ((if ltb 3 layers then codes " " ++ itoa layer else []) ++ codes " CA"))

unfoldable pub next_lineage : List ℕ → ℕ → ℕ → List ℕ
next_lineage parent count index = if count == 1 then parent else parent ++ (index + 1) ∷ []

unfoldable pub lineage_name : Text → List ℕ → Text
unfolding itoa join
lineage_name base lineage =
    if is_empty lineage then base else base ++ (codes " " ++ join (codes ".") (map itoa lineage))

-- specs[i], specs[i+1], …: `count` of them
unfoldable pub row : (ℕ → CertificateSpec) → ℕ → ℕ → Specs
row member zero i = no_specs
row member (suc count) i = add_spec (member i) (row member count (i + 1))

module _ (leaf_cn organization : Text) (layers : ℕ) where
  -- the certificate of one lineage: a leaf if no layer is below it
  unfoldable pub member : List ℕ → ℕ → List ℕ → Specs → CertificateSpec
  unfolding lineage_name ca_name
  member [] layer lineage children = spec (plain_fields (lineage_name leaf_cn lineage)) no_specs
  member (w ∷ below) layer lineage children =
      let own = plain_fields (lineage_name (ca_name organization layer layers) lineage) in
      spec (record own { certificate_authority = true }) children

  -- `widths` are those from `layer` on.
  unfoldable pub build_chain_layer : List ℕ → ℕ → List ℕ → Specs
  unfolding row member next_lineage
  build_chain_layer [] layer parent = no_specs
  build_chain_layer (count ∷ below) layer parent =
      row
        (λ i.
          member below layer (next_lineage parent count i)
            (build_chain_layer below (layer + 1) (next_lineage parent count i)))
        count 0

unfoldable mutual
  pub prefix_in : Text → CertificateSpec → CertificateSpec
  prefix_in prefix (spec f children) =
      spec (record f { common_name = prefix ++ (codes " " ++ f.common_name) })
        (prefix_all prefix children)

  pub prefix_all : Text → Specs → Specs
  prefix_all prefix no_specs = no_specs
  prefix_all prefix (add_spec s ss) = add_spec (prefix_in prefix s) (prefix_all prefix ss)

unfoldable pub apply_name_prefix : Specs → Text → Specs
unfolding prefix_in
apply_name_prefix specs prefix = if is_empty prefix then specs else prefix_all prefix specs

-- `seen` comes back with the names of the tree.
unfoldable mutual
  pub check_unique : List Text → CertificateSpec → Outcome Failure (List Text)
  check_unique seen (spec f children) =
      let below = check_unique_names (f.common_name ∷ seen) children in
      if mem_text f.common_name seen then err (repeated_name f.common_name) else below

  pub check_unique_names : List Text → Specs → Outcome Failure (List Text)
  check_unique_names seen no_specs = ok seen
  check_unique_names seen (add_spec s ss) =
      check_unique seen s >>= λ seen. check_unique_names seen ss

-- the loop over the widths, which counts layers from 1; what passes is not negative
unfoldable pub check_widths : ℕ → List ℤ → Outcome Failure (List ℕ)
check_widths i [] = ok []
check_widths i (pos zero ∷ ws) = err (width_too_small i)
check_widths i (pos (suc w) ∷ ws) = do counts ← check_widths (i + 1) ws; ok (suc w ∷ counts)
check_widths i (negsuc w ∷ ws) = err (width_too_small i)

abbrev pub or_text : Text → Text → Text
or_text [] default = default
or_text (c ∷ s) default = c ∷ s

-- the hierarchy, before the check of its names
unfoldable pub chain_specs : List ℕ → Text → Text → Text → Specs
unfolding build_chain_layer apply_name_prefix
chain_specs counts common_name organization name_prefix =
    let organization = or_text organization (codes "Certtool") in
    let leaf_cn = or_text common_name organization in
    apply_name_prefix (build_chain_layer leaf_cn organization (length counts) counts 0 [])
      (trim_space name_prefix)

unfoldable pub chain_to_spec : List ℤ → Text → Text → Text → Outcome Failure Specs
unfolding chain_specs check_widths check_unique
chain_to_spec [] common_name organization name_prefix = err no_widths
chain_to_spec (w ∷ ws) common_name organization name_prefix = do
  counts ← check_widths 1 (w ∷ ws)
  let specs = chain_specs counts common_name organization name_prefix
  _ ← check_unique_names [] specs
  ok specs
