-- ===== src/Generate/Names.antt =====
-- The names of files: `slugify` and `specFilename` of pkg/certtool/spec.go.
pub mod Slug
use mathlib.Core.List.{reverse}
use certtool.Base.{
  ℕ, Bool, true, false, ◌&&◌, ◌||◌, leb, ◌==◌, if◌then◌else◌, List, [], ◌∷◌, ◌++◌, map, is_empty,
}
use certtool.Base.Text.{Text, codes, to_lower, join}
use certtool.Spec.{SpecFields}

-- [a-z0-9]
unfoldable pub slug_byte : ℕ → Bool
slug_byte c = (leb b'a' c && leb c b'z') || (leb b'0' c && leb c b'9')

-- slugPattern.ReplaceAllString(s, "-"): the flag says that the last byte was replaced
unfoldable pub hyphenate : Bool → Text → Text
unfolding slug_byte
hyphenate in_run [] = []
hyphenate in_run (c ∷ s) =
    let kept = c ∷ hyphenate false s in
    let run = hyphenate true s in if slug_byte c then kept else if in_run then run else b'-' ∷ run

unfoldable pub trim_hyphens_left : Text → Text
trim_hyphens_left [] = []
trim_hyphens_left (c ∷ s) = let rest = trim_hyphens_left s in if c == b'-' then rest else c ∷ s

-- strings.Trim(s, "-")
unfoldable pub trim_hyphens : Text → Text
unfolding trim_hyphens_left
trim_hyphens s = reverse (trim_hyphens_left (reverse (trim_hyphens_left s)))

unfoldable pub slugify : Text → Text
unfolding to_lower hyphenate trim_hyphens
slugify s = trim_hyphens (hyphenate false (to_lower s))

unfoldable pub spec_filename : List Text → SpecFields → Text
unfolding slugify join
spec_filename ancestors f =
    if is_empty f.filename
    then join (codes "-") (map slugify (ancestors ++ f.common_name ∷ []))
    else f.filename
