-- ===== src/Generate/Names/Slug.antt =====
-- The file of a certificate is in the output directory: `specFilename` of pkg/certtool/spec.go.
use mathlib.Core.List.{reverse, reverse-cons}
use certtool.Base.{
  ◌≡◌, refl, ap, ◌∙◌, Bool, true, false, ◌||◌, List, [], ◌∷◌, ◌++◌, map, is_empty, ok, arith,
  Bool-cases, inl, inr, if_true, if_false,
}
use certtool.Base.Text.{Text, codes, to_lower, join, contains_byte}
use certtool.Spec.{SpecFields}
use certtool.Spec.Validate.{validate_filename}
use certtool.Spec.Validate.Filenames.{validate_filename_iff}
use certtool.Generate.Names.{
  slug_byte, hyphenate, trim_hyphens_left, trim_hyphens, slugify, spec_filename,
}

-- a slash is in two texts if it is in one
slash-append :
    (s t : Text) → contains_byte b'/' (s ++ t) ≡ (contains_byte b'/' s || contains_byte b'/' t)
unfolding contains_byte
slash-append [] t = refl
slash-append (c ∷ s) t = ground (arith, slash-append s t)

slash-hyphenate : (b : Bool) (s : Text) → contains_byte b'/' (hyphenate b s) ≡ false
unfolding contains_byte hyphenate slug_byte
slash-hyphenate b [] = refl
slash-hyphenate b (c ∷ s) = ground (arith, slash-hyphenate false s, slash-hyphenate true s)

slash-trim_left :
    (s : Text) → contains_byte b'/' s ≡ false → contains_byte b'/' (trim_hyphens_left s) ≡ false
unfolding contains_byte trim_hyphens_left
slash-trim_left [] h = refl
slash-trim_left (c ∷ s) h = ground (arith, slash-trim_left s)

slash-reverse : (s : Text) → contains_byte b'/' (reverse s) ≡ contains_byte b'/' s
unfolding contains_byte
slash-reverse [] = refl
slash-reverse (c ∷ s) =
    ap (contains_byte b'/') (reverse-cons c s)
    ∙ slash-append (reverse s) (c ∷ [])
    ∙ swapped (slash-reverse s)
  where
    swapped :
        contains_byte b'/' (reverse s) ≡ contains_byte b'/' s
        → (contains_byte b'/' (reverse s) || contains_byte b'/' (c ∷ []))
          ≡ contains_byte b'/' (c ∷ s)
    swapped h = ground arith

slash-slugify : (s : Text) → contains_byte b'/' (slugify s) ≡ false
unfolding slugify trim_hyphens
slash-slugify s =
    let body = trim_hyphens_left (hyphenate false (to_lower s)) in
    slash-reverse (trim_hyphens_left (reverse body))
    ∙ slash-trim_left (reverse body)
        (slash-reverse body ∙ slash-trim_left _ (slash-hyphenate false (to_lower s)))

slash-join : (names : List Text) → contains_byte b'/' (join (codes "-") (map slugify names)) ≡ false
unfolding join contains_byte
slash-join [] = refl
slash-join (n ∷ []) = slash-slugify n
slash-join (n ∷ m ∷ ns) =
    slash-append (slugify n) _ ∙ ground (arith, slash-slugify n, slash-join (m ∷ ns))

-- The name of a certificate's files holds no slash, whatever its spec and those above it are called:
-- a file name that was given is checked, and one made from common names cannot. So every file is
-- written into the output directory itself.
spec_filename-no_slash :
    (ancestors : List Text) (f : SpecFields)
    → validate_filename f ≡ ok tt
    → contains_byte b'/' (spec_filename ancestors f) ≡ false
unfolding spec_filename contains_byte
spec_filename-no_slash ancestors f h = elim (Bool-cases (is_empty f.filename)) [
  | inl e ↦
      ap (contains_byte b'/') (if_true (is_empty f.filename) _ _ e)
      ∙ slash-join (ancestors ++ f.common_name ∷ [])
  | inr e ↦
      ap (contains_byte b'/') (if_false (is_empty f.filename) _ _ e)
      ∙ elim ((validate_filename_iff f).0 h) [
        | inl none_given ↦ ap (contains_byte b'/') none_given
        | inr v ↦ v.no_slash
      ]
]
