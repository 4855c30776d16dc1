-- ===== src/Command/Single/Agrees.antt =====
-- A leaf certificate from the options and the one from the spec that they export: `argsToSpec` and
-- `certificateArgs` of internal/certtool/certtool.go.
use certtool.Base.{
  ◌≡◌, refl, ok-injective, sym, ap, ◌∙◌, ℤ, pos, negsuc, eq_ℤ, ltb_ℤ, Bool, true, false, ◌&&◌, ◌||◌,
  not, if◌then◌else◌, Option, none, some, List, [], ◌∷◌, is_empty, Outcome, ok, err, ◌>>=◌, ◌>>◌,
  >>=-eq-ok, map_err-eq-ok, refuse, map_err, arith, if_true, if_false, Bool-cases, inl, inr,
}
use certtool.Base.Text.{Text, codes}
use certtool.Spec.{SpecFields, spec, no_specs, add_spec}
use certtool.Spec.Validate.{parse_ip_ranges}
use certtool.Issue.Args.{Args, default_to, fill_defaults}
use certtool.Files.Store.{Store}
use certtool.Files.Private.{KeyEncryption, Disk}
use certtool.Generate.Arguments.{
  Environment, spec_key_type, spec_to_args, with_password, with_constraints, place_args,
}
use certtool.Command.{FlagError, bad_validity, bad_permitted_ranges, split_strings, split_hostnames}
use certtool.Command.KeyTypes.{string_to_key_type}
use certtool.Command.Modes.{Flags}
use certtool.Command.Single.{
  pfx_password_variable, pfx_password, spec_key_name, flag_fields, args_to_spec, key_option,
  length_option, read_parent_pair, certificate_args,
}

-- the key type that the spec names is the one of the options
key_lem : (f : Flags) → f.key_type ≡ [] → key_option f ≡ ok (spec_key_type (spec_key_name f))
unfolding key_option spec_key_name spec_key_type string_to_key_type certtool.Net.HostPort.cut
    certtool.Base.Text.trim_left
key_lem f no_key = elim (Bool-cases f.code_signing) [
  | inl e ↦ rw (no_key, e) refl
  | inr e ↦ rw (no_key, e) refl
]

variable_lem :
    (env : Environment) (x : SpecFields) (a : Args) (password : Text)
    → env.getenv pfx_password_variable ≡ password
    → x.pfx_password_env ≡ (if not (is_empty password) then pfx_password_variable else [])
    → a.pfx_password ≡ []
    → with_password env x a ≡ ok (record a { pfx_password = password })
unfolding with_password
variable_lem env x a [] h e no_own = rw e (ap (λ q. ok (record a { pfx_password = q })) no_own)
variable_lem env x a (c ∷ s) h e no_own = rw (e, h) refl

-- a password of the environment is found there again
password_lem :
    (env : Environment) (f : Flags) (x : SpecFields) (a : Args)
    → f.pfx_password ≡ []
    → a.pfx_password ≡ []
    → x.pfx_password_env
      ≡ (if not (is_empty (pfx_password env f)) then pfx_password_variable else [])
    → with_password env x a ≡ ok (record a { pfx_password = pfx_password env f })
unfolding pfx_password
password_lem env f x a no_flag no_own e =
    variable_lem env x a (pfx_password env f)
      (sym (
        if_false (not (is_empty f.pfx_password)) f.pfx_password (env.getenv pfx_password_variable)
          (ap (λ p. not (is_empty p)) no_flag)))
      e no_own

-- the common name that the spec has is the default's
names_lem :
    (a : Args)
    → fill_defaults (record a { common_name = default_to a.organization a.common_name })
      ≡ fill_defaults a
unfolding fill_defaults default_to
names_lem a = ground arith

-- what a leaf's arguments need of the options
pub record IsPlainLeaf (f : Flags) : Type 0 where
  pub leaf : f.ca ≡ false
  pub no_limit : f.max_path_len ≡ negsuc 0
  pub no_domains : f.permitted_dns_domains ≡ []
  pub no_ranges : f.permitted_ip_ranges ≡ []
  pub no_key : f.key_type ≡ []
  pub no_parent : f.parent_public_certificate ≡ []
  pub no_password : f.pfx_password ≡ []

module _ (duration_string : ℤ → Text) (env : Environment) (f : Flags) (plain : IsPlainLeaf f)
    (printed : is_empty (duration_string f.validity) ≡ false)
    (read_back : env.parse_duration (duration_string f.validity) ≡ some f.validity) where
  abbrev spec_args : (hostnames : List Text) → Args
  spec_args hostnames = record (spec_to_args env (flag_fields duration_string env f hostnames)) {
    parent_key_pair = none;
    issuer = none;
    pfx_password = pfx_password env f;
  }

  place_lem :
      (hostnames : List Text)
      → place_args env (spec (flag_fields duration_string env f hostnames) no_specs) none none
        ≡ ok (spec_args hostnames)
  unfolding place_args with_constraints flag_fields spec_to_args
  place_lem hostnames =
      let x = flag_fields duration_string env f hostnames in
      let named = record (spec_to_args env x) { parent_key_pair = none; issuer = none } in
      ap (λ m. m >>= (λ b. with_constraints env (spec x no_specs) b))
        (password_lem env f x named plain.no_password refl refl)
      ∙ if_true (not f.ca) (ok (spec_args hostnames)) _ (ap not plain.leaf)

  parent_lem :
      (disk : Disk) (enc : Option KeyEncryption) (store : Store)
      → read_parent_pair env disk f enc store ≡ ok none
  unfolding read_parent_pair
  parent_lem disk enc store = rw plain.no_parent refl

  ranges_lem :
      map_err bad_permitted_ranges (parse_ip_ranges (split_strings f.permitted_ip_ranges)) ≡ ok []
  unfolding parse_ip_ranges split_strings
  ranges_lem = rw plain.no_ranges refl

  abbrev direct : List Text → Args
  direct hostnames = record {
    ca = f.ca;
    max_path_len = length_option f.max_path_len;
    permitted_dns_domains = split_strings f.permitted_dns_domains;
    permitted_ip_ranges = [];
    common_name = f.common_name;
    country = f.country;
    organization = f.organization;
    organizational_unit = f.organizational_unit;
    locality = f.locality;
    province = f.province;
    hostnames = hostnames;
    validity = f.validity;
    parent_key_pair = none;
    issuer = none;
    key_type = spec_key_type (spec_key_name f);
    code_signing = f.code_signing;
    target = f.target;
    pfx_password = pfx_password env f;
    pfx = [];
    email_addresses = [];
    email_protection = false;
  }

  direct_lem :
      (hostnames : List Text)
      → spec_args hostnames
        ≡ record (direct hostnames) { common_name = default_to f.organization f.common_name }
  unfolding flag_fields spec_to_args length_option split_strings
  direct_lem hostnames = rw (plain.no_limit, plain.no_domains, printed, read_back) refl

  abbrev short : Outcome FlagError Args
  short = do
    refuse (ltb_ℤ f.validity (pos 1)) bad_validity
    hostnames ← split_hostnames f.hostnames
    ok (direct hostnames)

  short_lem :
      (disk : Disk) (enc : Option KeyEncryption) (store : Store)
      → certificate_args env disk f enc store ≡ short
  unfolding certificate_args
  short_lem disk enc store = rw (key_lem f plain.no_key, parent_lem disk enc store, ranges_lem) refl

  args_lem :
      (a : Args)
      → short ≡ ok a
      → (hostnames : List Text) × (split_hostnames f.hostnames ≡ ok hostnames)
        × (direct hostnames ≡ a)
  args_lem a h =
      let (u, v, h1) = >>=-eq-ok (refuse (ltb_ℤ f.validity (pos 1)) bad_validity) _ h in
      let (hostnames, s, h2) = >>=-eq-ok (split_hostnames f.hostnames) (λ hs. ok (direct hs)) h1 in
      (hostnames, s, ok-injective (direct hostnames) a h2)

  -- A leaf without a key type, a parent or a password among its options gets the same certificate from the
  -- spec that they export as directly: generation makes the same arguments of the spec, with the defaults
  -- filled in, as long as the validity that was printed is read back and the environment is the same.
  pub certificate_args-exported :
      (disk : Disk) (enc : Option KeyEncryption) (store : Store) (a : Args)
      → certificate_args env disk f enc store ≡ ok a
      → (x : SpecFields) × (b : Args) × (args_to_spec duration_string env f
          ≡ ok (add_spec (spec x no_specs) no_specs))
        × (place_args env (spec x no_specs) none none ≡ ok b)
        × (fill_defaults b ≡ fill_defaults a)
  unfolding args_to_spec
  certificate_args-exported disk enc store a h =
      let (hostnames, s, same_args) = args_lem a (sym (short_lem disk enc store) ∙ h) in
      (
        flag_fields duration_string env f hostnames,
        spec_args hostnames,
        ap
            (λ m. m >>= (λ hs.
              ok (add_spec (spec (flag_fields duration_string env f hs) no_specs) no_specs)))
            s,
        place_lem hostnames,
        ap fill_defaults (direct_lem hostnames)
            ∙ names_lem (direct hostnames)
            ∙ ap fill_defaults same_args,
      )
