-- ===== src/Generate/One.antt =====
-- One certificate of a spec: the first part of `generateSpec`, `reuseKeyPair` and the reading of files
-- in `checkReusedKeyPair` of pkg/certtool/spec.go.
use certtool.Base.{
  Bool, true, false, not, if◌then◌else◌, Option, none, some, List, [], ◌∷◌, ◌++◌, is_empty, Outcome,
  ok, err, map_err,
}
use certtool.Base.Text.{Text, codes}
use certtool.Failure.{
  Failure, existing_without_key, existing_without_certificate, existing_unreadable,
}
use certtool.Cert.{Certificate}
use certtool.Profile.{PfxFormat}
use certtool.Spec.{SpecFields, CertificateSpec, spec}
use certtool.Spec.Validate.{spec_pfx}
use certtool.Issue.Args.{PrivateKey, KeyPair, Issuer, Args}
use certtool.Issue.Create.{Crypto, to_pfx, generate_key_pair}
use certtool.Files.Store.{file_exists, Step, ◌>>=◌, ◌>>◌, look, pure}
use certtool.Files.Safe.{write_public}
use certtool.Files.Private.{
  KeyEncryption, Disk, existing_private_file, read_private_file, read_key_pair_from_file,
  write_key_pair, write_pfx, remove_other_form,
}
use certtool.Generate.Ssh.{ssh_line}
use certtool.Generate.Arguments.{Environment, place_args}
use certtool.Generate.Existing.{Signatures, check_reused}

pub record GenerationOutput : Type 0 where
  pub common_name : Text
  pub key_pair : KeyPair
  pub cert_path : Text
  pub key_path : Text
  pub pfx_path : Text
  pub ssh_public_key_path : Text
  pub reused : Bool

-- The directory, what the options say, and what is outside of the program. `authorized_key` is the key
-- of a certificate in the OpenSSH format.
pub record Generator : Type 0 where
  pub output_dir : Text
  pub overwrite : Bool
  pub encryption : Option KeyEncryption
  pub crypto : Crypto
  pub signatures : Signatures
  pub environment : Environment
  pub disk : Disk
  pub authorized_key : Text → Outcome Failure Text

-- filepath.Join(outputDir, basename+suffix), of a directory that is clean
unfoldable pub path_in : Text → Text → Text → Text
path_in dir basename suffix = dir ++ b'/' ∷ (basename ++ suffix)

module _ (g : Generator) where
  -- the .pfx of a reused pair: the file that exists, or one made again
  unfoldable pub reused_pfx :
      Args → Text → Certificate × PrivateKey → Bool → Option Text → Step Text
  reused_pfx args pfx_path pair legacy (some existing) =
      look (λ store.
        map_err existing_unreadable (read_private_file g.disk g.encryption existing store))
  reused_pfx args pfx_path (cert, key) legacy none =
      pure (to_pfx g.crypto cert key args.pfx_password legacy)

  unfoldable pub with_reused_pfx :
      Args → KeyPair → Text → Certificate × PrivateKey → PfxFormat → Step KeyPair
  unfolding reused_pfx
  with_reused_pfx args kp pfx_path pair format = if not format.output then pure (ok kp) else (do
    existing ← look (existing_private_file pfx_path)
    pfx ← reused_pfx args pfx_path pair format.legacy existing
    pure (ok (record kp { pfx = pfx })))

  unfoldable pub check_reused_key_pair : SpecFields → Args → KeyPair → Text → Step KeyPair
  unfolding check_reused with_reused_pfx
  check_reused_key_pair f args kp pfx_path = do
    pair ← pure (check_reused g.crypto g.signatures f args kp)
    format ← pure (spec_pfx f)
    with_reused_pfx args kp pfx_path pair format

  -- which of the two files exist
  unfoldable pub reuse_existing :
      SpecFields → Args → Text → Text → Text → Bool → Option Text → Step (Option KeyPair × Text)
  unfolding check_reused_key_pair
  reuse_existing f args cert_path key_path pfx_path false none = pure (ok (none, key_path))
  reuse_existing f args cert_path key_path pfx_path true none = pure (err existing_without_key)
  reuse_existing f args cert_path key_path pfx_path false (some existing) =
      pure (err existing_without_certificate)
  reuse_existing f args cert_path key_path pfx_path true (some existing) = do
    kp ← look (λ store.
        map_err existing_unreadable
          (read_key_pair_from_file g.disk g.encryption cert_path existing store).0)
    checked ← check_reused_key_pair f args kp pfx_path
    pure (ok (some checked, existing))

  unfoldable pub reuse_key_pair :
      SpecFields → Args → Text → Text → Text → Step (Option KeyPair × Text)
  unfolding reuse_existing
  reuse_key_pair f args cert_path key_path pfx_path = do
    existing ← look (existing_private_file key_path)
    has_cert ← look (λ store. ok (file_exists store cert_path))
    reuse_existing f args cert_path key_path pfx_path has_cert existing

  -- the pair that exists, if it is not to be overwritten
  unfoldable pub find_reused : SpecFields → Args → Text → Text → Text → Step (Option KeyPair × Text)
  unfolding reuse_key_pair
  find_reused f args cert_path key_path pfx_path =
      if g.overwrite
      then pure (ok (none, key_path))
      else reuse_key_pair f args cert_path key_path pfx_path

  unfoldable pub remove_stale : Text → Text → Step (Unit {0})
  remove_stale key_path pfx_path =
      if g.overwrite
      then remove_other_form g.disk key_path g.encryption
        >> remove_other_form g.disk pfx_path g.encryption
      else pure (ok tt)

  -- the pair, the path of its key and whether it is reused
  unfoldable pub make_pair :
      Args → Text → Text → Option KeyPair × Text → Step (KeyPair × Text × Bool)
  unfolding remove_stale
  make_pair args cert_path pfx_path (some kp, key_path) = pure (ok (kp, key_path, true))
  make_pair args cert_path pfx_path (none, key_path) = do
    kp ← pure (generate_key_pair g.crypto args)
    remove_stale key_path pfx_path
    written ← write_key_pair g.disk g.encryption kp cert_path key_path
    pure (ok (kp, written, false))

  unfoldable pub keep_pfx : KeyPair → Bool → Text → Option Text → Step Text
  keep_pfx kp reused pfx_path none = write_pfx g.disk g.encryption kp pfx_path
  keep_pfx kp reused pfx_path (some existing) =
      if not reused then write_pfx g.disk g.encryption kp pfx_path else pure (ok existing)

  -- the path of the .pfx, if there is one
  unfoldable pub pfx_step : KeyPair → Bool → Text → Step Text
  unfolding keep_pfx
  pfx_step kp reused pfx_path = if is_empty kp.pfx then pure (ok []) else (do
    existing ← look (existing_private_file pfx_path)
    keep_pfx kp reused pfx_path existing)

  -- the first e-mail address, or else the common name
  unfoldable pub ssh_comment_of : SpecFields → List Text → Text
  ssh_comment_of f [] = f.common_name
  ssh_comment_of f (address ∷ rest) = address

  unfoldable pub ssh_step : SpecFields → KeyPair → Text → Step Text
  unfolding ssh_comment_of ssh_line
  ssh_step f kp key_path =
      let path = key_path ++ codes ".pub" in
      if not f.ssh_public_key then pure (ok []) else (do
        key ← pure (g.authorized_key kp.public_certificate)
        write_public (g.disk.faults path) path (ssh_line key (ssh_comment_of f f.email_addresses))
        pure (ok path))

  -- the first part of generateSpec: one certificate, once its base name is known to be free
  unfoldable pub generate_one :
      CertificateSpec → Option KeyPair → Option Issuer → Text → Step GenerationOutput
  unfolding place_args find_reused make_pair pfx_step ssh_step path_in
  generate_one (spec f children) parent issuer basename =
      let cert_path = path_in g.output_dir basename (codes ".crt") in
      let pfx_path = path_in g.output_dir basename (codes ".pfx") in
      do
        args ← pure (place_args g.environment (spec f children) parent issuer)
        found ← find_reused f args cert_path (path_in g.output_dir basename (codes ".key")) pfx_path
        (kp, key_path, reused) ← make_pair args cert_path pfx_path found
        pfx ← pfx_step kp reused pfx_path
        ssh ← ssh_step f kp key_path
        pure (
            ok (record {
              common_name = f.common_name;
              key_pair = kp;
              cert_path = cert_path;
              key_path = key_path;
              pfx_path = pfx;
              ssh_public_key_path = ssh;
              reused = reused;
            }))
