-- ===== src/Command/Scenario/Modes.antt =====
-- The options that `runScenario` of internal/certtool/scenario.go goes on with, and `validateModes`
-- of internal/certtool/certtool.go, which checks them next.
use certtool.Base.{
  ℕ, eq_ℤ, Bool, true, false, ◌&&◌, ◌||◌, not, List, [], ◌∷◌, All, ok, >>=-eq-ok, ◌≡◌, ◌↔◌, arith,
  Bool-cases, inl, inr,
}
use certtool.Base.Text.{Text, same}
use certtool.Scenario.{ScenarioInfo}
use certtool.Command.Modes.{Flags, default_flags, given, yubikey_flags, validate_modes}
use certtool.Command.Modes.Consistent.{
  Consistent, OneSigner, RootAlone, Applies, validate_modes_iff,
}
use certtool.Command.Scenario.{
  UnusedFlag, unused_flags, check_known, check_unused, validate_scenario,
}
use certtool.Command.Scenario.Run.{System, spec_flags}

-- a flag that applies to no scenario is not set
unused_clear :
    (export : Bool) (us : List UnusedFlag)
    → check_unused export us ≡ ok tt
    → All (λ (u : UnusedFlag). (u.set && not u.generates) ≡ false) us
unfolding check_unused
unused_clear export [] h = tt
unused_clear export (u ∷ us) h = elim (Bool-cases (u.set && not u.generates)) [
  | inl e ↦ cc (rw e at h)
  | inr e ↦ elim (Bool-cases (u.set && export)) [
    | inl f ↦ cc (rw f at (rw e at h))
    | inr f ↦ (e, unused_clear export us (rw f at (rw e at h)))
  ]
]

-- What `validateScenario` leaves unset.
record Clear (f : Flags) : Type 0 where
  no_ca : f.ca ≡ false
  no_limit : eq_ℤ f.max_path_len default_flags.max_path_len ≡ true
  no_domains : given f.permitted_dns_domains ≡ false
  no_ranges : given f.permitted_ip_ranges ≡ false
  no_certificate : given f.parent_public_certificate ≡ false
  no_key : given f.parent_private_key ≡ false
  no_code_signing : f.code_signing ≡ false
  no_chain : given f.chain ≡ false
  no_root : f.yubikey_generate_root ≡ false
  no_touch : same f.yubikey_touch_policy default_flags.yubikey_touch_policy ≡ true
  no_overwrite : f.yubikey_overwrite ≡ false

validated-Clear :
    (infos : List ScenarioInfo) (f : Flags) (scenarios : List Text)
    → validate_scenario infos f scenarios ≡ ok tt
    → Clear f
unfolding validate_scenario unused_flags
validated-Clear infos f scenarios h =
    let (u, p, h1) = >>=-eq-ok (check_known scenarios) _ h in
    let (v, q, h2) = >>=-eq-ok (check_unused (given f.export_spec) (unused_flags f)) _ h1 in
    let (a1, (a2, (ca, (limit, (domains, (ranges, (a7, (certificate, (key, (code, more)))))))))) =
      unused_clear _ (unused_flags f) q in
    let (
      b1,
      (
        b2,
        (b3, (chain, (b5, (b6, (b7, (root, (b9, (b10, (b11, (b12, (touch, (over, rest)))))))))))),
      ),
    ) =
      more in
    record {
      no_ca = ground arith;
      no_limit = ground arith;
      no_domains = ground arith;
      no_ranges = ground arith;
      no_certificate = ground arith;
      no_key = ground arith;
      no_code_signing = ground arith;
      no_chain = ground arith;
      no_root = ground arith;
      no_touch = ground arith;
      no_overwrite = ground arith;
    }

module _ (s : System) (f : Flags) (c : ℕ) (path : Text) (clear : Clear f) where
  modes_need :
      Consistent (spec_flags s f (c ∷ path))
      → (not (yubikey_flags f) || f.yubikey || f.age_yubikey) ≡ true
  unfolding Consistent OneSigner RootAlone Applies spec_flags
  modes_need (a, b, (h, i, j, k, l, m), n, o) = ground (arith, clear.no_root)

  modes_fit :
      given f.export_spec ≡ false
      → (not (yubikey_flags f) || f.yubikey || f.age_yubikey) ≡ true
      → Consistent (spec_flags s f (c ∷ path))
  unfolding Consistent OneSigner RootAlone Applies spec_flags
  modes_fit e p = (
    (
      ground (arith, clear.no_root),
      ground (arith, clear.no_certificate, clear.no_key),
      ground (arith, clear.no_root),
      ground (arith, clear.no_certificate, clear.no_key),
    ),
    ground (arith, clear.no_root),
    (
      ground arith,
      ground (arith, clear.no_limit, clear.no_domains, clear.no_ranges),
      ground (arith, clear.no_overwrite, clear.no_touch),
      ground arith,
      ground arith,
      ground arith,
    ),
    ground (arith, clear.no_chain),
    ground (arith, clear.no_limit, clear.no_domains, clear.no_ranges),
  )

-- Where `validateScenario` accepts the options and the spec is not exported, the options that
-- generate from the spec pass `validateModes` exactly if a YubiKey is used, to sign or to decrypt,
-- or none of the options that describe a YubiKey is given.
pub scenario_modes_iff :
    (infos : List ScenarioInfo) (s : System) (f : Flags) (scenarios : List Text) (c : ℕ)
    (path : Text)
    → validate_scenario infos f scenarios ≡ ok tt
    → given f.export_spec ≡ false
    → (validate_modes (spec_flags s f (c ∷ path)) ≡ ok tt)
      ↔ ((not (yubikey_flags f) || f.yubikey || f.age_yubikey) ≡ true)
scenario_modes_iff infos s f scenarios c path h e =
    let clear = validated-Clear infos f scenarios h in
    let (sound, complete) = validate_modes_iff (spec_flags s f (c ∷ path)) in
    (λ p. modes_need s f c path clear (sound p), λ p. complete (modes_fit s f c path clear e p))
