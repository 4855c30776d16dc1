-- ===== src/Scenario/Write/Safe.antt =====
-- What a spec that `ScenarioSpec` returns has.
use mathlib.Core.List.{map-append}
use certtool.Base.{
  ◌≡◌, refl, Bool, sym, ap, ◌∙◌, subst, true, false, ◌&&◌, ◌||◌, some, List, [], ◌∷◌, ◌++◌,
  is_empty, map, All, All-mono, All-append, ok, refuse, arith, refuse-eq-ok, >>=-eq-ok, map_err,
  map_err-eq-ok, not, Option-cases, inl, inr,
}
use certtool.Base.Text.{Text, mem_text, Distinct, not_among}
use certtool.Failure.{no_scenario, no_organization, no_certificates, invalid_scenario_spec}
use certtool.Host.Valid.{validate_hostname}
use certtool.Profile.{PfxFormat, lookup_text}
use certtool.Spec.{
  SpecFields, CertificateSpec, spec, Specs, no_specs, add_spec, has_specs, tree_fields, all_fields,
}
use certtool.Spec.Validate.{spec_pfx, validate_hostnames, validate_all, check_specs}
use certtool.Spec.Validate.Accepts.{hostnames_iff, AllValid, validate_all-AllValid}
use certtool.Generate.Filenames.{Filenames, Grows, Grows-trans, Grows-fresh, Grows-none}
use certtool.Scenario.{ScenarioInfo, ScenarioOptions, lookup_scenario}
use certtool.Scenario.Header.{scenario_header, check_scenario_text}
use certtool.Scenario.Write.Inputs.{
  HasInputs, check_inputs-HasInputs, option_texts, IsUncontrolled,
  check_scenario_text-IsUncontrolled,
}
use certtool.Scenario.Write.{
  Templates, render_scenario, render_all, check_inputs, check_pfx_spec, check_scenario_pfx,
  claim_name, check_spec_filenames, check_scenario_filenames, accept_spec, scenario_spec,
}

-- If it writes a .pfx, its password comes from the environment.
unfoldable pub PfxProtected : SpecFields → Type 0
PfxProtected f =
    (format : PfxFormat) × (spec_pfx f ≡ ok format)
    × ((not format.output || not (is_empty f.pfx_password_env)) ≡ true)

abbrev filenames : List SpecFields → List Text
filenames = map (λ (f : SpecFields). f.filename)

format_protected :
    (f : SpecFields) (format : PfxFormat)
    → spec_pfx f ≡ ok format
    → (format.output && is_empty f.pfx_password_env) ≡ false
    → PfxProtected f
unfolding PfxProtected
format_protected f format e h = (format, e, ground arith)

mutual
  unfolding check_pfx_spec check_scenario_pfx tree_fields all_fields

  tree_fields-PfxProtected :
      (s : CertificateSpec) → check_pfx_spec s ≡ ok tt → All PfxProtected (tree_fields s)
  tree_fields-PfxProtected (spec f children) h =
      let (format, e, h1) = >>=-eq-ok (spec_pfx f) _ h in
      let (u, p, h2) = >>=-eq-ok (refuse (format.output && is_empty f.pfx_password_env) _) _ h1 in
      (format_protected f format e (refuse-eq-ok _ _ p), all_fields-PfxProtected children h2)

  all_fields-PfxProtected :
      (ss : Specs) → check_scenario_pfx ss ≡ ok tt → All PfxProtected (all_fields ss)
  all_fields-PfxProtected no_specs h = tt
  all_fields-PfxProtected (add_spec s ss) h =
      let (u, p, q) = >>=-eq-ok (check_pfx_spec s) (λ _. check_scenario_pfx ss) h in
      All-append PfxProtected (tree_fields s) (all_fields ss) (tree_fields-PfxProtected s p)
        (all_fields-PfxProtected ss q)

claimed-Grows :
    (f : SpecFields) (seen seen' : Filenames)
    → claim_name f seen (lookup_text f.filename seen) ≡ ok seen'
    → Grows seen (f.filename ∷ []) seen'
unfolding claim_name
claimed-Grows f seen seen' h = elim (Option-cases (lookup_text f.filename seen)) [
  | inl e ↦
      let added : (f.filename, f.common_name) ∷ seen ≡ seen' = cc (rw e at h) in
      subst (Grows seen (f.filename ∷ [])) added (Grows-fresh seen f.filename f.common_name e)
  | inr (other, e) ↦ cc (rw e at h)
]

mutual
  unfolding check_spec_filenames check_scenario_filenames tree_fields all_fields

  spec-Grows :
      (s : CertificateSpec) (seen seen' : Filenames)
      → check_spec_filenames s seen ≡ ok seen'
      → Grows seen (filenames (tree_fields s)) seen'
  spec-Grows (spec f children) seen seen' h =
      let (between, p, q) = >>=-eq-ok (claim_name f seen (lookup_text f.filename seen)) _ h in
      Grows-trans seen between seen' (f.filename ∷ []) (filenames (all_fields children))
        (claimed-Grows f seen between p) (specs-Grows children between seen' q)

  specs-Grows :
      (ss : Specs) (seen seen' : Filenames)
      → check_scenario_filenames ss seen ≡ ok seen'
      → Grows seen (filenames (all_fields ss)) seen'
  specs-Grows no_specs seen seen' h =
      let kept : seen ≡ seen' = cc in subst (Grows seen []) kept (Grows-none seen)
  specs-Grows (add_spec s ss) seen seen' h =
      let (between, p, q) = >>=-eq-ok (check_spec_filenames s seen) _ h in
      subst (λ names. Grows seen names seen') (sym (map-append _ (tree_fields s) (all_fields ss)))
        (Grows-trans seen between seen' (filenames (tree_fields s)) (filenames (all_fields ss))
          (spec-Grows s seen between p) (specs-Grows ss between seen' q))

not_eq_false : (b : Bool) → not b ≡ false → b ≡ true
not_eq_false true h = refl
not_eq_false false h = cc

not_seen :
    (n name : Text) (seen : List Text) → mem_text n (name ∷ seen) ≡ false → mem_text n seen ≡ false
unfolding mem_text
not_seen n name seen h = ground arith

module _ (t : Templates) where
  -- What the scenarios of a spec are: known, given once, and with the inputs that they need.
  unfoldable pub Renders : ScenarioOptions → List Text → Type 0
  Renders o names =
      Distinct names
      × All
          (λ name.
            (info : ScenarioInfo) × (lookup_scenario t.infos name ≡ some info) × HasInputs info o)
          names

  rendered :
      (o : ScenarioOptions) (seen names : List Text) (body : Text)
      → render_all t o seen names ≡ ok body
      → All (λ n. mem_text n seen ≡ false) names × Renders o names
  unfolding render_all Renders
  rendered o seen [] body h = (tt, (tt, tt))
  rendered o seen (name ∷ names) body h = elim (Option-cases (lookup_scenario t.infos name)) [
    | inl e ↦ cc (rw e at h)
    | inr (info, e) ↦
        let (u, p, h1) = >>=-eq-ok (refuse (mem_text name seen) _) _ (rw e at h) in
        let (v, q, h2) = >>=-eq-ok (check_inputs info o) _ h1 in
        let (entries, r, h3) = >>=-eq-ok (render_scenario t info o) _ h2 in
        let (more, later, h4) = >>=-eq-ok (render_all t o (name ∷ seen) names) _ h3 in
        let (apart, (distinct, known)) = rendered o (name ∷ seen) names more later in
        (
          (refuse-eq-ok _ _ p, All-mono (λ n k. not_seen n name seen k) names apart),
          (
            (not_among name seen names apart, distinct),
            ((info, e, check_inputs-HasInputs info o q), known),
          ),
        )
  ]

  -- What the text of a scenario's spec has.
  pub record IsSafeSpec (names : List Text) (o : ScenarioOptions) (text : Text) : Type 0 where
    pub body : Text
    pub headed : text ≡ scenario_header names o ++ body
    pub asked : is_empty names ≡ false
    pub renders : Renders o names
    pub organized : is_empty o.organization ≡ false
    pub hosts : All (λ h. validate_hostname h ≡ ok tt) o.hostnames
    pub uncontrolled : All IsUncontrolled (option_texts o)
    pub specs : Specs
    pub read : t.read_specs text ≡ ok specs
    pub non_empty : has_specs specs ≡ true
    pub valid : AllValid t.parse_address specs
    pub pfx_protected : All PfxProtected (all_fields specs)
    pub distinct : Distinct (filenames (all_fields specs))

  -- what the checks of the text leave
  Accepted : Text → Text → Type 0
  Accepted text result =
      (text ≡ result)
      × (specs : Specs) × (t.read_specs text ≡ ok specs)
      × (has_specs specs ≡ true)
      × AllValid t.parse_address specs
      × All PfxProtected (all_fields specs)
      × Distinct (filenames (all_fields specs))

  accepted : (text result : Text) → accept_spec t text ≡ ok result → Accepted text result
  unfolding accept_spec check_specs Accepted
  accepted text result h =
      let (parsed, p, h1) = >>=-eq-ok (map_err invalid_scenario_spec (t.read_specs text)) _ h in
      let (specs, q, h2) =
        >>=-eq-ok (map_err invalid_scenario_spec (check_specs t.parse_address parsed)) _ h1 in
      let (u, r, h3) = >>=-eq-ok (check_scenario_pfx specs) _ h2 in
      let (names, s, h4) = >>=-eq-ok (check_scenario_filenames specs []) _ h3 in
      let q' = map_err-eq-ok invalid_scenario_spec (check_specs t.parse_address parsed) q in
      let (v, not_none, h5) = >>=-eq-ok (refuse (not (has_specs parsed)) no_certificates) _ q' in
      let some_spec : has_specs parsed ≡ true =
        not_eq_false _ (refuse-eq-ok (not (has_specs parsed)) no_certificates not_none) in
      let (w, valid, h6) = >>=-eq-ok (validate_all t.parse_address parsed) _ h5 in
      let same_specs : parsed ≡ specs = cc in
      (
        (cc),
        specs,
        map_err-eq-ok invalid_scenario_spec (t.read_specs text) p ∙ ap ok same_specs,
        subst (λ ss. has_specs ss ≡ true) same_specs some_spec,
        validate_all-AllValid t.parse_address specs
            (subst (λ ss. validate_all t.parse_address ss ≡ ok tt) same_specs valid),
        all_fields-PfxProtected specs r,
        (specs-Grows specs [] names s).distinct,
      )

  -- `ScenarioSpec` returns only specs that certtool accepts. The text starts with the header of the
  -- options, none of which holds a control character, with an organization and valid hostnames. At
  -- least one scenario is asked for, each is known and given once, the hostnames and the clients that
  -- it requires are given, and a root on a token only where it can be used. Read back, the text is a tree of valid specs and not empty, in which each .pfx has its
  -- password from the environment and no two certificates have the same file name.
  pub scenario_spec-IsSafeSpec :
      (names : List Text) (o : ScenarioOptions) (text : Text)
      → scenario_spec t names o ≡ ok text
      → IsSafeSpec names o text
  unfolding scenario_spec Accepted
  scenario_spec-IsSafeSpec names o text h =
      let (u1, p1, h1) = >>=-eq-ok (refuse (is_empty names) no_scenario) _ h in
      let (u2, p2, h2) = >>=-eq-ok (refuse (is_empty o.organization) no_organization) _ h1 in
      let (u3, p3, h3) = >>=-eq-ok (check_scenario_text o) _ h2 in
      let (u4, p4, h4) = >>=-eq-ok (validate_hostnames o.hostnames) _ h3 in
      let (body, p5, h5) = >>=-eq-ok (render_all t o [] names) _ h4 in
      let (e, specs, read, non_empty, valid, protected, distinct) =
        accepted (scenario_header names o ++ body) text h5 in
      record {
        body = body;
        headed = sym e;
        asked = refuse-eq-ok (is_empty names) no_scenario p1;
        organized = refuse-eq-ok (is_empty o.organization) no_organization p2;
        hosts = (hostnames_iff o.hostnames).0 p4;
        renders = (rendered o [] names body p5).1;
        uncontrolled = check_scenario_text-IsUncontrolled o p3;
        specs = specs;
        read = subst (λ x. t.read_specs x ≡ ok specs) e read;
        non_empty = non_empty;
        valid = valid;
        pfx_protected = protected;
        distinct = distinct;
      }
