-- ===== src/Scenario/Write/Inputs.antt =====
-- What the guards of `ScenarioSpec` and `checkScenarioText` of pkg/certtool/scenario.go leave of the
-- options.
use certtool.Base.{
  ◌≡◌, true, false, ◌&&◌, ◌||◌, not, List, [], ◌∷◌, ◌++◌, is_empty, All, All-append, ok, refuse,
  arith, refuse-eq-ok, >>=-eq-ok, Bool-cases, inl, inr,
}
use certtool.Base.Text.{Text}
use certtool.Scenario.{ScenarioInfo, ScenarioOptions, required}
use certtool.Scenario.Header.{
  has_control_character, check_values, check_text_fields, text_fields, check_scenario_text,
}
use certtool.Scenario.Write.{check_inputs}

-- The options have what the scenario's description requires, and no root that it cannot use.
pub record HasInputs (info : ScenarioInfo) (o : ScenarioOptions) : Type 0 where
  pub hostnames : (not (required info.hostnames) || not (is_empty o.hostnames)) ≡ true
  pub clients : (not (required info.clients) || not (is_empty o.clients)) ≡ true
  pub own_root : (info.self_signed && o.external_root) ≡ false

pub check_inputs-HasInputs :
    (info : ScenarioInfo) (o : ScenarioOptions) → check_inputs info o ≡ ok tt → HasInputs info o
unfolding check_inputs
check_inputs-HasInputs info o h =
    let (u, p, h1) = >>=-eq-ok (refuse (required info.hostnames && is_empty o.hostnames) _) _ h in
    let (v, q, h2) = >>=-eq-ok (refuse (required info.clients && is_empty o.clients) _) _ h1 in
    let no_hosts = refuse-eq-ok (required info.hostnames && is_empty o.hostnames) _ p in
    let no_clients = refuse-eq-ok (required info.clients && is_empty o.clients) _ q in
    record {
      hostnames = ground arith;
      clients = ground arith;
      own_root = refuse-eq-ok (info.self_signed && o.external_root) _ h2;
    }

-- Every text of the options.
abbrev pub option_texts : ScenarioOptions → List Text
option_texts o =
    o.organization
    ∷ o.organizational_unit
    ∷ o.country
    ∷ o.locality
    ∷ o.province
    ∷ o.target
    ∷ o.key_type
    ∷ o.validity
    ∷ o.spec_path
    ∷ o.output_dir
    ∷ o.pfx_password_env
    ∷ (o.hostnames ++ o.clients)

pub IsUncontrolled : Text → Type 0
IsUncontrolled s = has_control_character s ≡ false

values-IsUncontrolled :
    (field : Text) (vs : List Text) → check_values field vs ≡ ok tt → All IsUncontrolled vs
unfolding check_values IsUncontrolled
values-IsUncontrolled field [] h = tt
values-IsUncontrolled field (v ∷ vs) h = elim (Bool-cases (has_control_character v)) [
  | inl e ↦ cc (rw e at h)
  | inr e ↦ (e, values-IsUncontrolled field vs (rw e at h))
]

fields-IsUncontrolled :
    (fs : List (Text × List Text))
    → check_text_fields fs ≡ ok tt
    → All (λ (f : Text × List Text). All IsUncontrolled f.1) fs
unfolding check_text_fields
fields-IsUncontrolled [] h = tt
fields-IsUncontrolled ((field, values) ∷ fs) h =
    let (u, p, q) = >>=-eq-ok (check_values field values) (λ _. check_text_fields fs) h in
    (values-IsUncontrolled field values p, fields-IsUncontrolled fs q)

pub check_scenario_text-IsUncontrolled :
    (o : ScenarioOptions) → check_scenario_text o ≡ ok tt → All IsUncontrolled (option_texts o)
unfolding check_scenario_text text_fields
check_scenario_text-IsUncontrolled o h =
    let (
      (org, _),
      (
        (unit, _),
        (
          (country, _),
          (
            (locality, _),
            (
              (province, _),
              (
                hostnames,
                (
                  clients,
                  (
                    (target, _),
                    ((key, _), ((validity, _), ((spec, _), ((dir, _), ((env, _), _))))),
                  ),
                ),
              ),
            ),
          ),
        ),
      ),
    ) =
      fields-IsUncontrolled (text_fields o) h in
    (
      org,
      (
        unit,
        (
          country,
          (
            locality,
            (
              province,
              (
                target,
                (
                  key,
                  (
                    validity,
                    (
                      spec,
                      (
                        dir,
                        (env, All-append IsUncontrolled o.hostnames o.clients hostnames clients),
                      ),
                    ),
                  ),
                ),
              ),
            ),
          ),
        ),
      ),
    )
