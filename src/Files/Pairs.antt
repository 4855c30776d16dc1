-- ===== src/Files/Pairs.antt =====
-- Plain key pairs in files: `ReadKeyPairFromFile`, `GenerateAndWriteKeyPair`, `WriteKeyPair`,
-- `WriteCertificate` and `WritePFX` of pkg/certtool/certtool.go.
use certtool.Base.{if◌then◌else◌, none, is_empty, Outcome, ok, err, ◌≡◌, refl, Bool-cases, inl, inr}
use certtool.Base.Text.{Text}
use certtool.Failure.{Failure, no_pfx_data, no_certificate_path, no_key_path}
use certtool.Issue.Args.{Args, KeyPair}
use certtool.Issue.Create.{Crypto, generate_key_pair}
use certtool.Files.Store.{Store, Step, next, ◌>>=◌, ◌>>◌, pure}
use certtool.Files.Safe.{write_private, write_public}
use certtool.Files.Private.{
  Disk, encrypts, private_path, sealed, write_private_file, write_pfx, read_key_pair_from_file,
}

module _ (disk : Disk) where
  -- without the means to decrypt
  unfoldable pub read_plain_key_pair : Text → Text → Step KeyPair
  unfolding read_key_pair_from_file
  read_plain_key_pair = read_key_pair_from_file disk none

  unfoldable pub write_plain_key_pair : KeyPair → Text → Text → Step (Unit {0})
  unfolding write_public write_private
  write_plain_key_pair kp cert_file key_file = do
    write_public (disk.faults cert_file) cert_file kp.public_certificate
    write_private (disk.faults key_file) key_file kp.private_key

  -- `pem` is the certificate's PEM encoding.
  unfoldable pub write_certificate : Text → Text → Step (Unit {0})
  unfolding write_public
  write_certificate pem cert_file = write_public (disk.faults cert_file) cert_file pem

  unfoldable pub write_plain_pfx : KeyPair → Text → Step (Unit {0})
  unfolding write_private
  write_plain_pfx kp pfx_file =
      if is_empty kp.pfx
      then pure (err no_pfx_data)
      else write_private (disk.faults pfx_file) pfx_file kp.pfx

  unfoldable pub generate_and_write_key_pair : Crypto → Args → Text → Text → Step KeyPair
  unfolding generate_key_pair write_plain_key_pair
  generate_and_write_key_pair crypto args cert_file key_file =
      if is_empty cert_file
      then pure (err no_certificate_path)
      else if is_empty key_file
      then pure (err no_key_path)
      else (do
        kp ← pure (generate_key_pair crypto args)
        write_plain_key_pair kp cert_file key_file
        pure (ok kp))

  -- Without recipients a .pfx is written as it is: `WritePFX` and `KeyEncryption.WritePFX` leave the same.
  write_plain_pfx-write_pfx :
      (kp : KeyPair) (pfx_file : Text) (store : Store)
      → (write_plain_pfx kp pfx_file store).1 ≡ (write_pfx disk none kp pfx_file store).1
  unfolding write_plain_pfx write_pfx write_private_file sealed private_path encrypts next
  write_plain_pfx-write_pfx kp pfx_file store = elim (Bool-cases (is_empty kp.pfx)) [
    | inl e ↦ rw e refl
    | inr e ↦ rw e (kept (write_private (disk.faults pfx_file) pfx_file kp.pfx store))
  ]
    where
      kept :
          (r : Outcome Failure (Unit {0}) × Store)
          → r.1 ≡ (next {A = Unit {0}} {B = Text} r (λ u. λ s. (ok pfx_file, s))).1
      kept (ok u, s) = refl
      kept (err x, s) = refl
