-- ===== src/Generate/Tree.antt =====
-- The walk over the tree: `GenerateFromSpecWithOptions` and `generateSpec` of pkg/certtool/spec.go.
pub mod Collisions
use certtool.Base.{
  ℕ, Bool, true, false, ◌&&◌, ◌||◌, not, if◌then◌else◌, Option, none, some, is_some, is_none, List,
  [], ◌∷◌, ◌++◌, is_empty, Outcome, ok, err, refuse, map_err,
}
use certtool.Base.Text.{Text, codes}
use certtool.Failure.{
  Failure, filename_collision, existing_without_key, existing_without_certificate,
  existing_unreadable, ssh_key_failed,
}
use certtool.Cert.{Certificate}
use certtool.Profile.{PfxFormat, lookup_text}
use certtool.Spec.{SpecFields, CertificateSpec, spec, Specs, no_specs, add_spec}
use certtool.Spec.Validate.{spec_pfx, validate_filenames}
use certtool.Issue.Args.{PrivateKey, KeyPair, Issuer, Args}
use certtool.Issue.Create.{Crypto, to_pfx, generate_key_pair}
use certtool.Files.Store.{Store, file_exists, Step, ◌>>=◌, ◌>>◌, look, pure}
use certtool.Files.Safe.{Faults, write_public}
use certtool.Files.Private.{
  KeyEncryption, Disk, existing_private_file, read_private_file, read_key_pair_from_file,
  write_key_pair, write_pfx, remove_other_form,
}
use certtool.Generate.Names.{spec_filename}
use certtool.Generate.Ssh.{ssh_line}
use certtool.Generate.Filenames.{Filenames}
use certtool.Generate.Arguments.{Environment, place_args}
use certtool.Generate.Existing.{Signatures, check_reused}
use certtool.Generate.One.{GenerationOutput, Generator, generate_one}

unfoldable pub check_collision : Text → Text → Option Text → Outcome Failure (Unit {0})
check_collision basename cn none = ok tt
check_collision basename cn (some other) = err (filename_collision other cn basename)

module _ (g : Generator) where
  unfoldable mutual
    pub generate_spec :
        CertificateSpec
        → Option KeyPair
        → Option Issuer
        → List Text
        → Filenames
        → Step (List GenerationOutput × Filenames)
    generate_spec (spec f children) parent issuer ancestors filenames =
        let basename = spec_filename ancestors f in
        do
          pure (check_collision basename f.common_name (lookup_text basename filenames))
          output ← generate_one g (spec f children) parent issuer basename
          (below, names) ←
              generate_all children (some output.key_pair) none (ancestors ++ f.common_name ∷ [])
                ((basename, f.common_name) ∷ filenames)
          pure (ok (output ∷ below, names))

    -- the loops over the specs and over the children
    pub generate_all :
        Specs
        → Option KeyPair
        → Option Issuer
        → List Text
        → Filenames
        → Step (List GenerationOutput × Filenames)
    generate_all no_specs parent issuer ancestors filenames = pure (ok ([], filenames))
    generate_all (add_spec s ss) parent issuer ancestors filenames = do
      (outputs, names) ← generate_spec s parent issuer ancestors filenames
      (others, all_names) ← generate_all ss parent issuer ancestors names
      pure (ok (outputs ++ others, all_names))

  -- `made_dir` is the outcome of os.MkdirAll.
  unfoldable pub generate_from_spec :
      Outcome Failure (Unit {0}) → Specs → Option Issuer → Step (List GenerationOutput)
  unfolding generate_spec
  generate_from_spec made_dir specs issuer = do
    pure (validate_filenames specs)
    pure made_dir
    (outputs, names) ← generate_all specs none issuer [] []
    pure (ok outputs)
