-- ===== src/Command/Run/Exports.antt =====
-- What the command writes with --export-spec: `Run` of internal/certtool/certtool.go.
use certtool.Base.{
  ◌≡◌, refl, subst, ℤ, ok-injective, sym, ◌∙◌, true, false, not, if◌then◌else◌, Option, List, [],
  ◌∷◌, is_empty, ok, >>=-eq-ok, map_err-eq-ok, map_err, Bool-cases, inl, inr, arith, if_true,
  if_false,
}
use certtool.Base.Text.{Text}
use certtool.Spec.{Specs}
use certtool.Spec.Passwords.{specs_with_pfx_password, replace_pfx_passwords}
use certtool.Spec.Passwords.Replace.{replace_pfx_passwords_lem}
use certtool.Issue.Args.{Issuer}
use certtool.Files.Store.{Store}
use certtool.Files.Private.{KeyEncryption}
use certtool.Generate.Arguments.{Environment}
use certtool.Command.Modes.{
  Flags, given, validate_modes, validate_tree, validate_constraints, validate_yubikey,
}
use certtool.Command.Single.{args_to_spec, flag_fields, pfx_password_variable}
use certtool.Chain.{chain_to_spec}
use certtool.Chain.Passwords.{chain_to_spec-no_passwords}
use certtool.Command.{parse_chain, split_hostnames}
use certtool.Command.Run.{
  bad_flag, bad_modes, failed, needed_key, needed_issuer, Program, Job, export_specs, exported,
  specs_job, run_spec, run_export_spec, run_generate_root, run_chain, dispatch, signing_job, job,
}

exported-no_passwords : (specs : Specs) → specs_with_pfx_password (exported specs) ≡ []
unfolding exported
exported-no_passwords specs = with_names (specs_with_pfx_password specs) refl
  where
    with_names :
        (names : List Text)
        → specs_with_pfx_password specs ≡ names
        → specs_with_pfx_password (
            if not (is_empty names)
            then replace_pfx_passwords pfx_password_variable specs
            else specs)
          ≡ []
    with_names [] e = e
    with_names (n ∷ ns) e = (replace_pfx_passwords_lem pfx_password_variable specs refl).0

flags_lem :
    (duration_string : ℤ → Text) (env : Environment) (f : Flags) (specs : Specs)
    → args_to_spec duration_string env f ≡ ok specs
    → specs_with_pfx_password specs ≡ []
unfolding args_to_spec flag_fields specs_with_pfx_password certtool.Spec.Passwords.names_of
flags_lem duration_string env f specs h =
    let (hostnames, t, h1) = >>=-eq-ok (split_hostnames f.hostnames) _ h in
    subst (λ ss. specs_with_pfx_password ss ≡ []) (ok-injective _ specs h1) refl

not_root :
    (f : Flags)
    → validate_modes f ≡ ok tt
    → given f.export_spec ≡ true
    → f.yubikey_generate_root ≡ false
unfolding validate_modes validate_yubikey
not_root f h exports =
    let (u, p, h1) = >>=-eq-ok (validate_tree f) _ h in
    let (v, q, h2) = >>=-eq-ok (validate_constraints f) _ h1 in
    let (w, r, h3) = >>=-eq-ok (validate_yubikey f) _ h2 in ground arith

abbrev pub OnlyExports : Job → Type 0
OnlyExports j = (specs : Specs) × (j ≡ export_specs specs) × (specs_with_pfx_password specs ≡ [])

module _ (p : Program) (f : Flags) (exports : given f.export_spec ≡ true) where
  spec-only :
      (issuer : Option Issuer) (enc : KeyEncryption) (store : Store) (j : Job)
      → run_spec p f issuer enc store ≡ ok j
      → OnlyExports j
  unfolding run_spec specs_job
  spec-only issuer enc store j h =
      let (specs, r, h1) = >>=-eq-ok (map_err failed (p.read_spec f.spec store)) _ h in
      (
        exported specs,
        sym (ok-injective _ j h1) ∙ if_true (given f.export_spec) _ _ exports,
        exported-no_passwords specs,
      )

  chain-only :
      (issuer : Option Issuer) (enc : KeyEncryption) (j : Job)
      → run_chain p f issuer enc ≡ ok j
      → OnlyExports j
  unfolding run_chain specs_job
  chain-only issuer enc j h =
      let (widths, r, h1) = >>=-eq-ok (map_err bad_flag (parse_chain f.chain)) _ h in
      let chained = chain_to_spec widths f.common_name f.organization f.name_prefix in
      let (specs, s, h2) = >>=-eq-ok (map_err failed chained) _ h1 in
      (
        specs,
        sym (ok-injective _ j h2) ∙ if_true (given f.export_spec) _ _ exports,
        chain_to_spec-no_passwords widths f.common_name f.organization f.name_prefix specs
            (map_err-eq-ok failed chained s),
      )

  flags-only : (j : Job) → run_export_spec p f ≡ ok j → OnlyExports j
  unfolding run_export_spec
  flags-only j h =
      let written = args_to_spec p.system.duration_string p.environment f in
      let (specs, s, h1) = >>=-eq-ok (map_err bad_flag written) _ h in
      (
        specs,
        sym (ok-injective _ j h1),
        flags_lem p.system.duration_string p.environment f specs (map_err-eq-ok bad_flag written s),
      )

  dispatch-only :
      (issuer : Option Issuer) (enc : KeyEncryption) (store : Store) (j : Job)
      → dispatch p f issuer enc store ≡ ok j
      → OnlyExports j
  unfolding dispatch
  dispatch-only issuer enc store j h = elim (Bool-cases (given f.spec)) [
    | inl e ↦ spec-only issuer enc store j (sym (if_true (given f.spec) _ _ e) ∙ h)
    | inr e ↦ elim (Bool-cases (given f.chain)) [
      | inl g ↦
          chain-only issuer enc j
            (sym (if_false (given f.spec) _ _ e ∙ if_true (given f.chain) _ _ g) ∙ h)
      | inr g ↦ flags-only j (
          sym (
            if_false (given f.spec) _ _ e
            ∙ if_false (given f.chain) _ _ g
            ∙ if_true (given f.export_spec) _ _ exports)
          ∙ h)
    ]
  ]

  -- With --export-spec the command makes no key and no certificate: all that it has left to do, if nothing
  -- fails, is to write a spec, and no spec in it holds a .pfx password, be it read from a file, made from the
  -- widths of a chain, or made from the options of a single certificate.
  pub job-OnlyExports : (store : Store) (j : Job) → job p f store ≡ ok j → OnlyExports j
  unfolding job signing_job
  job-OnlyExports store j h =
      let (u, m, h1) = >>=-eq-ok (map_err bad_modes (validate_modes f)) _ h in
      let root = not_root f (map_err-eq-ok bad_modes (validate_modes f) m) exports in
      let h2 =
        sym (
          if_false f.yubikey_generate_root (run_generate_root p f store) (signing_job p f store)
            root)
        ∙ h1 in
      let (key, k, h3) = >>=-eq-ok (needed_key p f) _ h2 in
      let (issuer, i, h4) = >>=-eq-ok (needed_issuer p f key) _ h3 in
      let (enc, n, h5) = >>=-eq-ok _ (λ enc. dispatch p f issuer enc store) h4 in
      dispatch-only issuer enc store j h5
