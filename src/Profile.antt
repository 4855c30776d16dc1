-- ===== src/Profile.antt =====
-- Platform profiles: `GetProfile` of pkg/certtool/profiles.go, and `pfxFormat` and `KeyType` of
-- pkg/certtool/certtool.go.
use certtool.Base.{
  ℕ, ℤ, pos, ◌≡◌, refl, Bool, true, false, if◌then◌else◌, Option, none, some, List, [], ◌∷◌,
  is_empty, Outcome, ok, err, ◌>>=◌,
}
use certtool.Base.Text.{Text, codes, same, to_lower, trim_space}
use certtool.Failure.{Failure, unknown_target, unknown_pfx_format}

abbrev pub rsa_algorithm : Text
rsa_algorithm = codes "RSA"

abbrev pub ecdsa_algorithm : Text
ecdsa_algorithm = codes "ECDSA"

pub record KeyType : Type 0 where
  pub algorithm : Text
  pub key_length : ℤ

pub record TargetProfile : Type 0 where
  pub key_type : KeyType
  pub output_pfx : Bool
  pub legacy_pfx : Bool

-- a map of the source, as a list of its entries
unfoldable pub lookup_text {ℓ} : {A : Type ℓ} → Text → List (Text × A) → Option A
unfolding same
lookup_text k [] = none
lookup_text k ((j, v) ∷ m) = if same j k then some v else lookup_text k m

abbrev pub windows7_target : Text
windows7_target = codes "windows7"

abbrev pub windows10_target : Text
windows10_target = codes "windows10"

abbrev pub windows11_target : Text
windows11_target = codes "windows11"

abbrev pub linux_target : Text
linux_target = codes "linux"

abbrev pub android_target : Text
android_target = codes "android"

abbrev pub profile_of : Text → ℕ → Bool → Bool → TargetProfile
profile_of algorithm length output legacy = record {
  key_type = record { algorithm = algorithm; key_length = pos length };
  output_pfx = output;
  legacy_pfx = legacy;
}

abbrev pub target_profiles : List (Text × TargetProfile)
target_profiles =
    (windows7_target, profile_of rsa_algorithm 2048 true true)
    ∷ (windows10_target, profile_of ecdsa_algorithm 256 true false)
    ∷ (windows11_target, profile_of ecdsa_algorithm 256 true false)
    ∷ (linux_target, profile_of ecdsa_algorithm 256 false false)
    ∷ (android_target, profile_of rsa_algorithm 4096 true false)
    ∷ []

abbrev pub profile_aliases : List (Text × Text)
profile_aliases =
    (codes "win7", windows7_target)
    ∷ (codes "windows8", windows7_target)
    ∷ (codes "win8", windows7_target)
    ∷ (codes "windows8.1", windows7_target)
    ∷ (codes "win8.1", windows7_target)
    ∷ (codes "win10", windows10_target)
    ∷ (codes "win11", windows11_target)
    ∷ []

abbrev or_else : Text → Option Text → Text
or_else t none = t
or_else t (some u) = u

abbrev pub or_unknown : Text → Option TargetProfile → Outcome Failure TargetProfile
or_unknown target none = err (unknown_target target)
or_unknown target (some profile) = ok profile

-- strings.ToLower(strings.TrimSpace(target)), with an alias replaced
unfoldable pub normalized : Text → Text
unfolding lookup_text
normalized target =
    let name = to_lower (trim_space target) in or_else name (lookup_text name profile_aliases)

unfoldable pub get_profile : Text → Outcome Failure TargetProfile
unfolding normalized lookup_text
get_profile target = or_unknown target (lookup_text (normalized target) target_profiles)

abbrev pub pfx_modern : Text
pfx_modern = codes "modern"

abbrev pub pfx_legacy : Text
pfx_legacy = codes "legacy"

-- Whether a .pfx is made, and whether it is legacy.
pub record PfxFormat : Type 0 where
  pub output : Bool
  pub legacy : Bool

-- `pfxFormat`, of the three arguments that it reads.
unfoldable pub pfx_format : Bool → Text → Text → Outcome Failure PfxFormat
unfolding same
pfx_format code_signing target pfx =
    if code_signing
    then (do
      profile ← get_profile target
      ok (record { output = profile.output_pfx; legacy = profile.legacy_pfx }))
    else if is_empty pfx
    then ok (record { output = false; legacy = false })
    else if same pfx pfx_modern
    then ok (record { output = true; legacy = false })
    else if same pfx pfx_legacy
    then ok (record { output = true; legacy = true })
    else err (unknown_pfx_format pfx)

aliased : get_profile (codes " Win8.1 ") ≡ get_profile (codes "windows7")
unfolding get_profile to_lower trim_space
aliased = refl
