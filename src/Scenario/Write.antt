-- ===== src/Scenario/Write.antt =====
-- `loadScenarios`, `renderScenario`, `ScenarioSpec`, `checkScenarioPFX` and `checkScenarioFilenames`
-- of pkg/certtool/scenario.go.
pub mod Inputs
pub mod Safe
use certtool.Base.{
  ◌≡◌, refl, Bool, true, false, ◌&&◌, not, if◌then◌else◌, Option, none, some, List, [], ◌∷◌, ◌++◌,
  is_empty, Outcome, ok, err, ◌>>=◌, ◌>>◌, refuse, map_err,
}
use certtool.Base.Text.{Text, codes, same, mem_text, trim_space}
use certtool.Failure.{
  Failure, no_scenario, no_organization, unknown_scenario, scenario_twice, needs_hostnames,
  needs_clients, needs_self_signed, scenario_not_rendered, invalid_scenario_spec,
  pfx_without_password, scenario_files_collide, scenario_without_template, scenario_not_described,
  scenario_without_summary, scenario_not_a_list,
}
use certtool.Host.Valid.{Address}
use certtool.Profile.{PfxFormat, lookup_text}
use certtool.Spec.{SpecFields, CertificateSpec, spec, Specs, no_specs, add_spec, fields_of}
use certtool.Spec.Validate.{spec_pfx, validate_hostnames, check_specs}
use certtool.Generate.Filenames.{Filenames}
use certtool.Scenario.{
  ScenarioInput, input_unused, input_optional, input_required, ScenarioInfo, ScenarioOptions,
  required, lookup_scenario, scenario_order,
}
use certtool.Scenario.Header.{check_scenario_text, scenario_header}

-- How a template's text is read: the comment at its top, and the YAML in it. The summary is what
-- `dec.Decode` leaves in it.
pub record Metadata : Type 0 where
  pub find_comment : Text → Option Text
  pub decode : Text → Text → Outcome Failure ScenarioInfo

abbrev needed : {A : Type 0} → Option A → Failure → Outcome Failure A
needed none e = err e
needed (some a) e = ok a

module _ (metadata : Metadata) where
  -- one round of the loop over the names; `sources` are the templates by their files' names
  unfoldable pub load_one : List (Text × Text) → Text → Outcome Failure ScenarioInfo
  load_one sources name = do
    source ←
        needed (lookup_text (name ++ codes ".yaml.tmpl") sources) (scenario_without_template name)
    comment ← needed (metadata.find_comment source) (scenario_not_described name)
    info ← metadata.decode name comment
    refuse (is_empty info.summary) (scenario_without_summary name)
    ok (record info { name = name })

  unfoldable pub load_all : List (Text × Text) → List Text → Outcome Failure (List ScenarioInfo)
  unfolding load_one
  load_all sources [] = ok []
  load_all sources (name ∷ names) = do
    info ← load_one sources name
    infos ← load_all sources names
    ok (info ∷ infos)

  unfoldable pub load_scenarios : List (Text × Text) → Outcome Failure (List ScenarioInfo)
  unfolding load_all scenario_order
  load_scenarios sources = load_all sources scenario_order

-- An entry of the list that a template writes, by the comment above it and the rest.
pub record Entry : Type 0 where
  pub head_comment : Text
  pub rest : Text

-- yaml.Node: a document that holds a list, or anything else
pub data Document : Type 0 where
  sequence : List Entry → Document
  other_document : Document

-- The error of a template: one about the inputs, from a function of the program, or another.
pub data TemplateError : Type 0 where
  about_inputs : Failure → TemplateError
  in_template : Failure → TemplateError

-- text/template and yaml.v3, and what the templates describe.
pub record Templates : Type 0 where
  pub infos : List ScenarioInfo
  pub execute : Text → ScenarioOptions → Outcome TemplateError Text
  pub parse : Text → Outcome Failure Document
  pub encode : Document → Outcome Failure Text
  pub read_specs : Text → Outcome Failure Specs
  pub parse_address : Text → Option Address

unfoldable pub template_failure : TemplateError → Failure
template_failure (about_inputs e) = e
template_failure (in_template e) = scenario_not_rendered e

-- the comment above the first entry, with the scenario's summary
unfoldable pub add_summary : ScenarioInfo → Entry → Entry
unfolding trim_space
add_summary info first = record first {
  head_comment = trim_space (
      codes "Scenario "
      ++ (info.name ++ (codes ": " ++ (info.summary ++ (10 ∷ 10 ∷ first.head_comment)))));
}

unfoldable pub with_summary : ScenarioInfo → Document → Outcome Failure Document
unfolding add_summary
with_summary info (sequence (first ∷ more)) = ok (sequence (add_summary info first ∷ more))
with_summary info (sequence []) = err (scenario_not_a_list info.name)
with_summary info other_document = err (scenario_not_a_list info.name)

-- what a scenario's description asks of the options
unfoldable pub check_inputs : ScenarioInfo → ScenarioOptions → Outcome Failure (Unit {0})
check_inputs info o = do
  refuse (required info.hostnames && is_empty o.hostnames) (needs_hostnames info.name)
  refuse (required info.clients && is_empty o.clients) (needs_clients info.name)
  refuse (info.self_signed && o.external_root) (needs_self_signed info.name)

module _ (t : Templates) where
  unfoldable pub render_scenario : ScenarioInfo → ScenarioOptions → Outcome Failure Text
  unfolding with_summary
  render_scenario info o = do
    out ← map_err template_failure (t.execute (info.name ++ codes ".yaml.tmpl") o)
    doc ← map_err scenario_not_rendered (t.parse out)
    described ← with_summary info doc
    t.encode described

  -- the loop over the names, behind those that were seen
  unfoldable pub render_all : ScenarioOptions → List Text → List Text → Outcome Failure Text
  unfolding lookup_scenario mem_text check_inputs render_scenario
  render_all o seen [] = ok []
  render_all o seen (name ∷ names) = do
    info ← needed (lookup_scenario t.infos name) (unknown_scenario name)
    refuse (mem_text name seen) (scenario_twice name)
    check_inputs info o
    entries ← render_scenario info o
    body ← render_all o (name ∷ seen) names
    ok (entries ++ body)

-- checkScenarioPFX
unfoldable mutual
  pub check_pfx_spec : CertificateSpec → Outcome Failure (Unit {0})
  check_pfx_spec (spec f children) = do
    format ← spec_pfx f
    refuse (format.output && is_empty f.pfx_password_env) (pfx_without_password f.common_name)
    check_scenario_pfx children

  pub check_scenario_pfx : Specs → Outcome Failure (Unit {0})
  check_scenario_pfx no_specs = ok tt
  check_scenario_pfx (add_spec s ss) = check_pfx_spec s >> check_scenario_pfx ss

-- one entry, by who has its file's name
unfoldable pub claim_name : SpecFields → Filenames → Option Text → Outcome Failure Filenames
claim_name f seen none = ok ((f.filename, f.common_name) ∷ seen)
claim_name f seen (some other) = err (scenario_files_collide other f.common_name f.filename)

-- checkScenarioFilenames: the map comes back
unfoldable mutual
  pub check_spec_filenames : CertificateSpec → Filenames → Outcome Failure Filenames
  check_spec_filenames (spec f children) seen = do
    seen' ← claim_name f seen (lookup_text f.filename seen)
    check_scenario_filenames children seen'

  pub check_scenario_filenames : Specs → Filenames → Outcome Failure Filenames
  check_scenario_filenames no_specs seen = ok seen
  check_scenario_filenames (add_spec s ss) seen = do
    seen' ← check_spec_filenames s seen
    check_scenario_filenames ss seen'

module _ (t : Templates) where
  -- the second half of ScenarioSpec: `certtool` would accept the spec
  unfoldable pub accept_spec : Text → Outcome Failure Text
  unfolding check_scenario_pfx check_scenario_filenames
  accept_spec text = do
    parsed ← map_err invalid_scenario_spec (t.read_specs text)
    specs ← map_err invalid_scenario_spec (check_specs t.parse_address parsed)
    check_scenario_pfx specs
    _ ← check_scenario_filenames specs []
    ok text

  unfoldable pub scenario_spec : List Text → ScenarioOptions → Outcome Failure Text
  unfolding check_scenario_text render_all scenario_header accept_spec
  scenario_spec names o = do
    refuse (is_empty names) no_scenario
    refuse (is_empty o.organization) no_organization
    check_scenario_text o
    validate_hostnames o.hostnames
    body ← render_all t o [] names
    accept_spec (scenario_header names o ++ body)
