-- ===== src/Scenario.antt =====
-- The scenarios' inputs and descriptions: `ScenarioInput`, `ScenarioInfo`, `ScenarioOptions` and its
-- methods, and `LookupScenario` of pkg/certtool/scenario.go.
pub mod Quote
pub mod Header
pub mod Write
pub mod Constraints
use certtool.Base.{
  ◌≡◌, refl, Bool, true, false, if◌then◌else◌, Option, none, some, List, [], ◌∷◌, ◌++◌, is_empty,
}
use certtool.Base.Text.{Text, codes, same}

pub data ScenarioInput : Type 0 where
  input_unused input_optional input_required : ScenarioInput

abbrev pub required : ScenarioInput → Bool
required input_required = true
required _ = false

-- ScenarioInput.UnmarshalYAML
unfoldable pub unmarshal_input : Text → Option ScenarioInput
unfolding same
unmarshal_input value =
    if same value (codes "required")
    then some input_required
    else if same value (codes "optional")
    then some input_optional
    else if same value (codes "unused")
    then some input_unused
    else if is_empty value
    then some input_unused
    else none

-- The texts that help with the inputs are left out.
pub record ScenarioInfo : Type 0 where
  pub name : Text
  pub summary : Text
  pub hostnames : ScenarioInput
  pub clients : ScenarioInput
  pub target : Bool
  pub self_signed : Bool

pub record ScenarioOptions : Type 0 where
  pub organization : Text
  pub organizational_unit : Text
  pub country : Text
  pub locality : Text
  pub province : Text
  pub hostnames : List Text
  pub clients : List Text
  pub key_type : Text
  pub validity : Text
  pub target : Text
  pub pfx_password_env : Text
  pub external_root : Bool
  pub spec_path : Text
  pub output_dir : Text
  pub generate : Bool

abbrev pub or_else : Text → Text → Text
or_else [] d = d
or_else (c ∷ s) d = c ∷ s

unfoldable pub key_type_or : ScenarioOptions → Text → Text
key_type_or o = or_else o.key_type

unfoldable pub validity_or : ScenarioOptions → Text → Text
validity_or o = or_else o.validity

unfoldable pub root_cert : ScenarioOptions → Text → Text
root_cert o file =
    if o.external_root then codes "the YubiKey root's certificate" else file ++ codes ".crt"

-- The order in which the scenarios are listed.
unfoldable pub scenario_order : List Text
scenario_order =
    codes "web"
    ∷ codes "local-dev"
    ∷ codes "mtls"
    ∷ codes "microservices"
    ∷ codes "database"
    ∷ codes "active-directory"
    ∷ codes "kubernetes"
    ∷ codes "vpn"
    ∷ codes "eap-tls"
    ∷ codes "iot"
    ∷ codes "kafka"
    ∷ codes "docker"
    ∷ codes "git"
    ∷ codes "ssh"
    ∷ codes "ftps"
    ∷ codes "ios"
    ∷ codes "android"
    ∷ codes "android-signing"
    ∷ codes "code-sign"
    ∷ codes "proxy"
    ∷ []

-- `infos` describes every scenario
unfoldable pub lookup_scenario : List ScenarioInfo → Text → Option ScenarioInfo
unfolding same
lookup_scenario [] name = none
lookup_scenario (info ∷ infos) name =
    if same info.name name then some info else lookup_scenario infos name
