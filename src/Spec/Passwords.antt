-- ===== src/Spec/Passwords.antt =====
-- The .pfx passwords of a tree: `SpecsWithPFXPassword`, `SpecsWithLegacyPFX`,
-- `SpecsWithUnprotectedPFX` and `ReplacePFXPasswords` of pkg/certtool/spec.go.
pub mod Replace
use certtool.Base.{
  Bool, true, false, ◌&&◌, not, if◌then◌else◌, List, [], ◌∷◌, ◌++◌, is_empty, Outcome, ok, err,
}
use certtool.Base.Text.{Text}
use certtool.Failure.{Failure}
use certtool.Profile.{PfxFormat}
use certtool.Spec.{SpecFields, CertificateSpec, spec, Specs, no_specs, add_spec}
use certtool.Spec.Validate.{spec_pfx}

-- The three functions differ in their test; they return the names in the order of the file.
unfoldable mutual
  pub names_of : (SpecFields → Bool) → CertificateSpec → List Text
  names_of test (spec f children) =
      (if test f then f.common_name ∷ [] else []) ++ names_in test children

  pub names_in : (SpecFields → Bool) → Specs → List Text
  names_in test no_specs = []
  names_in test (add_spec s ss) = names_of test s ++ names_in test ss

abbrev pub holds_password : SpecFields → Bool
holds_password f = not (is_empty f.pfx_password)

abbrev is_legacy : Outcome Failure PfxFormat → Bool
is_legacy (ok format) = format.legacy
is_legacy (err e) = false

abbrev is_output : Outcome Failure PfxFormat → Bool
is_output (ok format) = format.output
is_output (err e) = false

abbrev pub writes_legacy : SpecFields → Bool
writes_legacy f = is_legacy (spec_pfx f)

abbrev pub writes_unprotected : SpecFields → Bool
writes_unprotected f =
    is_output (spec_pfx f) && (is_empty f.pfx_password && is_empty f.pfx_password_env)

unfoldable pub specs_with_pfx_password : Specs → List Text
unfolding names_of
specs_with_pfx_password = names_in holds_password

unfoldable pub specs_with_legacy_pfx : Specs → List Text
unfolding names_of
specs_with_legacy_pfx = names_in writes_legacy

unfoldable pub specs_with_unprotected_pfx : Specs → List Text
unfolding names_of
specs_with_unprotected_pfx = names_in writes_unprotected

unfoldable pub replace_fields : Text → SpecFields → SpecFields
replace_fields env f =
    if not (is_empty f.pfx_password)
    then record f { pfx_password = []; pfx_password_env = env }
    else f

unfoldable mutual
  pub replace_in : Text → CertificateSpec → CertificateSpec
  replace_in env (spec f children) =
      spec (replace_fields env f) (replace_pfx_passwords env children)

  pub replace_pfx_passwords : Text → Specs → Specs
  replace_pfx_passwords env no_specs = no_specs
  replace_pfx_passwords env (add_spec s ss) =
      add_spec (replace_in env s) (replace_pfx_passwords env ss)
