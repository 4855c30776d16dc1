-- ===== src/Chain/Passwords.antt =====
-- The hierarchies of `ChainToSpec` of pkg/certtool/spec.go hold no .pfx passwords.
use certtool.Base.{
  ℕ, zero, suc, ◌+◌, ◌≡◌, refl, ℤ, Bool, List, [], ◌∷◌, ◌++◌, length, ok, >>=-eq-ok, subst, true,
  false, if◌then◌else◌,
}
use certtool.Base.Text.{Text, codes, trim_space}
use certtool.Spec.{CertificateSpec, spec, Specs, no_specs, add_spec}
use certtool.Spec.Passwords.{names_of, names_in, holds_password, specs_with_pfx_password}
use certtool.Chain.{
  row, member, build_chain_layer, next_lineage, prefix_in, prefix_all, apply_name_prefix,
  check_unique_names, check_widths, chain_specs, chain_to_spec,
}

abbrev Clear : Specs → Type 0
Clear ss = names_in holds_password ss ≡ []

row-Clear :
    (one : ℕ → CertificateSpec) (count i : ℕ)
    → ((i : ℕ) → names_of holds_password (one i) ≡ [])
    → Clear (row one count i)
unfolding row names_of
row-Clear one zero i h = refl
row-Clear one (suc count) i h = rw (h i) (row-Clear one count (i + 1) h)

module _ (leaf_cn organization : Text) (layers : ℕ) where
  member-Clear :
      (below : List ℕ) (layer : ℕ) (lineage : List ℕ) (children : Specs)
      → Clear children
      → names_of holds_password (member leaf_cn organization layers below layer lineage children)
        ≡ []
  unfolding member names_of
  member-Clear [] layer lineage children h = refl
  member-Clear (w ∷ below) layer lineage children h = h

  build_chain_layer-Clear :
      (widths : List ℕ) (layer : ℕ) (lineage : List ℕ)
      → Clear (build_chain_layer leaf_cn organization layers widths layer lineage)
  unfolding build_chain_layer names_of
  build_chain_layer-Clear [] layer lineage = refl
  build_chain_layer-Clear (count ∷ below) layer lineage = row-Clear _ count 0 (λ i.
      member-Clear below layer (next_lineage lineage count i) _
        (build_chain_layer-Clear below (layer + 1) (next_lineage lineage count i)))

nothing_joined : {A : Type 0} (xs ys : List A) → xs ++ ys ≡ [] → (xs ≡ []) × (ys ≡ [])
nothing_joined [] ys h = (refl, h)
nothing_joined (x ∷ xs) ys h = cc

renamed :
    (b : Bool) (x y : Text) → (if b then x ∷ [] else []) ≡ [] → (if b then y ∷ [] else []) ≡ []
renamed true x y h = cc
renamed false x y h = refl

mutual
  unfolding names_of prefix_in

  prefix_in-Clear :
      (prefix : Text) (s : CertificateSpec)
      → names_of holds_password s ≡ []
      → names_of holds_password (prefix_in prefix s) ≡ []
  prefix_in-Clear prefix (spec f children) h =
      let (p, q) =
        nothing_joined (if holds_password f then f.common_name ∷ [] else [])
          (names_in holds_password children) h in
      rw (renamed (holds_password f) f.common_name (prefix ++ (codes " " ++ f.common_name)) p)
        (prefix_all-Clear prefix children q)

  prefix_all-Clear : (prefix : Text) (ss : Specs) → Clear ss → Clear (prefix_all prefix ss)
  prefix_all-Clear prefix no_specs h = refl
  prefix_all-Clear prefix (add_spec s ss) h =
      let (p, q) = nothing_joined (names_of holds_password s) (names_in holds_password ss) h in
      rw (prefix_in-Clear prefix s p) (prefix_all-Clear prefix ss q)

apply_name_prefix-Clear :
    (ss : Specs) (prefix : Text) → Clear ss → Clear (apply_name_prefix ss prefix)
unfolding apply_name_prefix
apply_name_prefix-Clear ss [] h = h
apply_name_prefix-Clear ss (c ∷ prefix) h = prefix_all-Clear (c ∷ prefix) ss h

pub chain_to_spec-no_passwords :
    (widths : List ℤ) (common_name organization name_prefix : Text) (ss : Specs)
    → chain_to_spec widths common_name organization name_prefix ≡ ok ss
    → specs_with_pfx_password ss ≡ []
unfolding chain_to_spec chain_specs specs_with_pfx_password
chain_to_spec-no_passwords [] common_name organization name_prefix ss h = cc
chain_to_spec-no_passwords (w ∷ ws) common_name organization name_prefix ss h =
    let (counts, c, h1) = >>=-eq-ok (check_widths 1 (w ∷ ws)) _ h in
    let specs = chain_specs counts common_name organization name_prefix in
    let (seen, s, h2) = >>=-eq-ok (check_unique_names [] specs) _ h1 in
    subst (λ r. names_in holds_password r ≡ []) {x = specs} {y = ss} (cc)
      (apply_name_prefix-Clear _ (trim_space name_prefix)
        (build_chain_layer-Clear _ _ (length counts) counts 0 []))
