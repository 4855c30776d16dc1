-- ===== src/Spec/Validate/Filenames.antt =====
-- File names: `validateFilename` and `validateFilenames` of pkg/certtool/spec.go.
use mathlib.Core.Bool.{false≢true}
use certtool.Base.{
  ◌≡◌, ◌≢◌, ◌↔◌, ◌⊎◌, inl, inr, refl, sym, ap, ◌∙◌, Bool-cases, true, false, [], ◌∷◌, is_empty, ok,
  arith, All, All-append, All-split, >>=-eq-ok,
}
use certtool.Base.Text.{Text, codes, same, same_iff, contains_byte}
use certtool.Spec.{
  SpecFields, CertificateSpec, spec, Specs, no_specs, add_spec, tree_fields, all_fields,
}
use certtool.Spec.Validate.{validate_filename, validate_tree_filenames, validate_filenames}

-- One component of a path, and not the parent directory.
pub record IsFileName (name : Text) : Type 0 where
  pub no_slash : contains_byte b'/' name ≡ false
  pub no_backslash : contains_byte b'\\' name ≡ false
  pub not_parent : name ≢ codes ".."

filename_tests :
    (f : SpecFields)
    → (validate_filename f ≡ ok tt) ↔ (
        (is_empty f.filename ≡ true)
        ⊎ ((contains_byte b'/' f.filename ≡ false)
            × (contains_byte b'\\' f.filename ≡ false)
            × (same f.filename (codes "..") ≡ false)))
unfolding validate_filename
filename_tests f = (λ h. ground arith, λ h. ground arith)

-- `validateFilename` accepts exactly a filename that is not set, and one that is a single path
-- component other than "..", so that no file is written outside the output directory.
pub validate_filename_iff :
    (f : SpecFields) → (validate_filename f ≡ ok tt) ↔ ((f.filename ≡ []) ⊎ IsFileName f.filename)
validate_filename_iff f = (
  λ h. elim ((filename_tests f).0 h) [
    | inl e ↦ inl (empty_text f.filename e)
    | inr (a, b, c) ↦ inr (record {
      no_slash = a;
      no_backslash = b;
      not_parent = λ e. false≢true (sym c ∙ (same_iff f.filename (codes "..")).1 e);
    })
  ],
  λ v. (filename_tests f).1 (elim v [
    | inl e ↦ inl (ap is_empty e)
    | inr i ↦ inr (i.no_slash, i.no_backslash, not_same f.filename i.not_parent)
  ]),
)
  where
    empty_text : (s : Text) → is_empty s ≡ true → s ≡ []
    empty_text [] e = refl
    empty_text (c ∷ s) e = cc

    not_same : (s : Text) → s ≢ codes ".." → same s (codes "..") ≡ false
    not_same s n = elim (Bool-cases (same s (codes ".."))) [
      | inl e ↦ absurd (n ((same_iff s (codes "..")).0 e))
      | inr e ↦ e
    ]

-- A file name that is not set, or can be used.
pub HasFileName : SpecFields → Type 0
HasFileName f = (f.filename ≡ []) ⊎ IsFileName f.filename

mutual
  unfolding validate_tree_filenames validate_filenames tree_fields all_fields HasFileName

  tree_filenames_sound :
      (s : CertificateSpec) → validate_tree_filenames s ≡ ok tt → All HasFileName (tree_fields s)
  tree_filenames_sound (spec f children) h =
      let (u, p, q) = >>=-eq-ok (validate_filename f) (λ _. validate_filenames children) h in
      ((validate_filename_iff f).0 p, filenames_sound children q)

  filenames_sound : (ss : Specs) → validate_filenames ss ≡ ok tt → All HasFileName (all_fields ss)
  filenames_sound no_specs h = tt
  filenames_sound (add_spec s ss) h =
      let (u, p, q) = >>=-eq-ok (validate_tree_filenames s) (λ _. validate_filenames ss) h in
      All-append HasFileName (tree_fields s) (all_fields ss) (tree_filenames_sound s p)
        (filenames_sound ss q)

mutual
  unfolding validate_tree_filenames validate_filenames tree_fields all_fields HasFileName

  tree_filenames_complete :
      (s : CertificateSpec) → All HasFileName (tree_fields s) → validate_tree_filenames s ≡ ok tt
  tree_filenames_complete (spec f children) (p, q) =
      rw ((validate_filename_iff f).1 p) (filenames_complete children q)

  filenames_complete :
      (ss : Specs) → All HasFileName (all_fields ss) → validate_filenames ss ≡ ok tt
  filenames_complete no_specs h = refl
  filenames_complete (add_spec s ss) h =
      let (p, q) = All-split HasFileName (tree_fields s) (all_fields ss) h in
      rw (tree_filenames_complete s p) (filenames_complete ss q)

-- `validateFilenames` accepts exactly the trees in which the file name of every spec, at whatever depth,
-- is not set or is one component of a path: without / and \ and not "..".
pub validate_filenames_iff :
    (ss : Specs) → (validate_filenames ss ≡ ok tt) ↔ All HasFileName (all_fields ss)
validate_filenames_iff ss = (filenames_sound ss, filenames_complete ss)
