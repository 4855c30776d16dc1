-- ===== src/Scenario/Header.antt =====
-- `HasControlCharacter`, `checkScenarioText` and `scenarioHeader` of pkg/certtool/scenario.go.
pub mod Command
pub mod Flat
pub mod Comment
use certtool.Base.{
  ℕ, ◌≡◌, refl, Bool, true, false, ◌&&◌, ◌||◌, not, ltb, leb, ◌==◌, if◌then◌else◌, List, [], ◌∷◌,
  ◌++◌, is_empty, any, map, Outcome, ok, err, ◌>>◌,
}
use certtool.Base.Text.{Text, codes, join}
use certtool.Failure.{Failure, control_character}
use certtool.Scenario.{ScenarioOptions, or_else}
use certtool.Scenario.Quote.{shell_quote}

-- unicode.IsControl on the runes of a text in UTF-8: below 0x20, and from 0x7f to 0x9f. The byte 0xc2
-- starts a rune wherever it stands.
unfoldable pub has_control_character : Text → Bool
has_control_character [] = false
has_control_character (c ∷ []) = ltb c 32 || c == 127
has_control_character (c ∷ d ∷ s) =
    ltb c 32 || c == 127 || (c == 0xc2 && leb 0x80 d && leb d 0x9f) || has_control_character (d ∷ s)

-- the loop over the values of one field
unfoldable pub check_values : Text → List Text → Outcome Failure (Unit {0})
check_values field [] = ok tt
check_values field (v ∷ vs) =
    if has_control_character v then err (control_character field v) else check_values field vs

unfoldable pub check_text_fields : List (Text × List Text) → Outcome Failure (Unit {0})
unfolding check_values
check_text_fields [] = ok tt
check_text_fields ((field, values) ∷ fields) = check_values field values >> check_text_fields fields

unfoldable pub text_fields : ScenarioOptions → List (Text × List Text)
text_fields o =
    (codes "organization", o.organization ∷ [])
    ∷ (codes "organizational unit", o.organizational_unit ∷ [])
    ∷ (codes "country", o.country ∷ [])
    ∷ (codes "locality", o.locality ∷ [])
    ∷ (codes "province", o.province ∷ [])
    ∷ (codes "hostname", o.hostnames)
    ∷ (codes "client", o.clients)
    ∷ (codes "target", o.target ∷ [])
    ∷ (codes "key type", o.key_type ∷ [])
    ∷ (codes "validity", o.validity ∷ [])
    ∷ (codes "spec path", o.spec_path ∷ [])
    ∷ (codes "output directory", o.output_dir ∷ [])
    ∷ (codes "pfx password environment variable", o.pfx_password_env ∷ [])
    ∷ []

unfoldable pub check_scenario_text : ScenarioOptions → Outcome Failure (Unit {0})
unfolding check_text_fields text_fields
check_scenario_text o = check_text_fields (text_fields o)

abbrev pub header_path : ScenarioOptions → Text
header_path o = or_else o.spec_path (codes "certs.yaml")

abbrev pub header_dir : ScenarioOptions → Text
header_dir o = or_else o.output_dir (codes "certs")

-- a flag that is given where its value is not empty
unfoldable pub flag : Text → Text → List Text
flag name value = if is_empty value then [] else (codes "--" ++ name) ∷ shell_quote value ∷ []

unfoldable pub flags : List (Text × Text) → List Text
flags [] = []
flags ((name, value) ∷ fs) = flag name value ++ flags fs

unfoldable pub subject_flags : ScenarioOptions → List (Text × Text)
subject_flags o =
    (codes "organization", o.organization)
    ∷ (codes "organizational-unit", o.organizational_unit)
    ∷ (codes "country", o.country)
    ∷ (codes "locality", o.locality)
    ∷ (codes "province", o.province)
    ∷ (codes "hostnames", join (codes ",") o.hostnames)
    ∷ (codes "clients", join (codes ",") o.clients)
    ∷ (codes "target", o.target)
    ∷ (codes "key-type", o.key_type)
    ∷ (codes "validity", o.validity)
    ∷ []

abbrev pub yubikey_words : ScenarioOptions → List Text
yubikey_words o = if o.external_root then codes "--yubikey" ∷ [] else []

abbrev pub last_flag : ScenarioOptions → Text × Text
last_flag o =
    if o.generate then (codes "output-dir", header_dir o) else (codes "export-spec", header_path o)

-- the words of the command that wrote the spec, quoted
unfoldable pub made : List Text → ScenarioOptions → List Text
made names o =
    codes "certtool"
    ∷ codes "--scenario"
    ∷ join (codes ",") names
    ∷ (flags (subject_flags o) ++ (yubikey_words o ++ flag (last_flag o).0 (last_flag o).1))

-- the command that generates the certificates
unfoldable pub run_command : ScenarioOptions → Text
run_command o =
    (if o.external_root then codes "certtool --yubikey --spec " else codes "certtool --spec ")
    ++ (shell_quote (header_path o) ++ (codes " --output-dir " ++ shell_quote (header_dir o)))

abbrev pub next_text : Bool → Text
next_text true =
    codes "which also generated the certificates. To change them, edit this file, then run:"
next_text false = codes "Review it, then generate the certificates with:"

unfoldable pub header_lines : List Text → ScenarioOptions → List Text
header_lines names o =
    (codes "certtool spec for --scenario " ++ (join (codes ",") names ++ codes ", written by:"))
    ∷ (codes "  " ++ join (codes " ") (made names o))
    ∷ next_text o.generate
    ∷ (codes "  " ++ run_command o)
    ∷ codes "Running it again reuses the certificates already in the output directory,"
    ∷ codes
        "so you can add entries later. Format: https://github.com/cloudfra/certtool/blob/main/docs/spec.md"
    ∷ []

-- the lines as comments
unfoldable pub comments : List Text → Text
comments [] = []
comments (l ∷ ls) = codes "# " ++ (l ++ 10 ∷ comments ls)

unfoldable pub scenario_header : List Text → ScenarioOptions → Text
scenario_header names o = comments (header_lines names o) ++ 10 ∷ []
