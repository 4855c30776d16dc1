-- ===== src/Examples/Generating.antt =====
-- Files and generated hierarchies at concrete inputs.
use certtool.Base.{
  ℕ, drop, ◌≡◌, refl, sym, ap, ◌∙◌, ◌⊎◌, inl, Bool, true, false, ◌||◌, ◌==◌, if◌then◌else◌, Option,
  none, some, List, [], ◌∷◌, ◌++◌, map, Outcome, ok, err, is_ok, pos,
}
use certtool.Base.Text.{Text, codes, same, contains_byte, Distinct}
use certtool.Failure.{Failure}
use certtool.Spec.{SpecFields, CertificateSpec, spec, Specs, no_specs, add_spec, plain_fields}
use certtool.Spec.Validate.{validate_filename}
use certtool.Issue.Args.{Args, KeyPair, PrivateKey, ecdsa_private}
use certtool.Issue.Pem.{Block, is_age_encrypted, age_header}
use certtool.Issue.Create.{Crypto}
use certtool.Files.Store.{File, Store, Step}
use certtool.Files.Safe.{Faults, write}
use certtool.Files.Safe.Atomic.{write-atomic}
use certtool.Files.Private.{
  KeyEncryption, Disk, encrypted_suffix, existing_private_file, write_private_file,
  read_private_file, remove_other_form,
}
use certtool.Files.Private.Forms.{Opens, write_private_file-read, remove_other_form-existing}
use certtool.Generate.Names.{spec_filename}
use certtool.Generate.Existing.{Signatures, check_reused}
use certtool.Generate.Existing.Fits.{Reusable, check_reused-Reusable}
use certtool.Generate.One.{GenerationOutput, Generator}
use certtool.Generate.Tree.{generate_from_spec}
use certtool.Generate.Tree.Collisions.{generate_from_spec-Distinct}
use certtool.Issue.Pem.{certificate_pem_type}
use certtool.Examples.Pem.{plain_encoding, encode_block}
use certtool.Examples.Samples.{plain_ca, plain_args, sample_crypto}

-- the disk is full after two bytes
abbrev full : Faults
full = record {
  directory = false;
  create_fails = false;
  write_fails = true;
  written = 2;
  chmod_fails = false;
  sync_fails = false;
  close_fails = false;
  rename_fails = false;
  remove_fails = false;
  temporary = codes ".t";
}

abbrev fine : Faults
fine = record full { write_fails = false }

abbrev empty_store : Store
empty_store p = none

abbrev key_path : Text
key_path = codes "k"

apart : same key_path full.temporary ≡ false
unfolding same
apart = refl

write-atomic_example :
    let (result, after) = write full key_path (codes "abc") true empty_store in
    (after key_path ≡ (
      if is_ok result
      then some (record { contents = codes "abc"; is_private = true })
      else empty_store key_path))
    × ((p : Text)
        → same p key_path ≡ false
        → same p full.temporary ≡ false
        → after p ≡ empty_store p)
    × (empty_store full.temporary ≡ none
        → (is_ok result ≡ true) ⊎ (full.remove_fails ≡ false)
        → after full.temporary ≡ none)
write-atomic_example = write-atomic full key_path (codes "abc") true empty_store apart

-- encryption that puts the header in front, for one recipient
abbrev header_disk : Disk
header_disk = record {
  faults = λ p. fine;
  remove_fails = λ p. false;
  encrypt = λ contents. λ recipients. ok (age_header ++ contents);
  decrypt = λ bytes. λ identities. ok (behind 34 bytes);
}
  where
    behind : ℕ → Text → Text
    behind n s = drop n s

abbrev some_encryption : Option KeyEncryption
some_encryption = some (record { recipients = codes "age1" ∷ []; identities = codes "AGE" ∷ [] })

has_age_header : (s : Text) → is_age_encrypted (age_header ++ s) ≡ true
unfolding is_age_encrypted
has_age_header s = refl

header-Opens : Opens header_disk some_encryption
unfolding certtool.Files.Private.identities_of certtool.Files.Private.encrypts
header-Opens = record {
  has_identity = refl;
  sealed_is_age = λ contents bytes on e.
      let f : age_header ++ contents ≡ bytes = cc in rw (sym f) (has_age_header contents);
  opens = λ contents bytes on e. let f : age_header ++ contents ≡ bytes = cc in rw (sym f) refl;
}

abbrev written : Store
written = (write_private_file header_disk some_encryption key_path (codes "secret") empty_store).1

writes :
    write_private_file header_disk some_encryption key_path (codes "secret") empty_store
    ≡ (ok (codes "k.age"), written)
unfolding write_private_file certtool.Files.Store.next certtool.Files.Safe.write_private write
writes = refl

target_apart : same (codes "k.age") fine.temporary ≡ false
unfolding same
target_apart = refl

not_sealed : is_age_encrypted (codes "secret") ≡ false
unfolding is_age_encrypted
not_sealed = refl

read_example :
    read_private_file header_disk some_encryption (codes "k.age") written ≡ ok (codes "secret")
unfolding certtool.Files.Private.private_path
read_example =
    write_private_file-read header_disk some_encryption key_path (codes "secret") header-Opens
      empty_store written (codes "k.age") not_sealed target_apart writes

removes : remove_other_form header_disk key_path some_encryption empty_store ≡ (ok tt, empty_store)
unfolding remove_other_form certtool.Files.Store.file_exists
removes = refl

existing_example : existing_private_file key_path written ≡ ok (some (codes "k.age"))
unfolding certtool.Files.Private.private_path
existing_example =
    remove_other_form-existing header_disk some_encryption key_path (codes "secret") empty_store
      empty_store written (codes "k.age") target_apart apart target_apart removes writes

slugs : spec_filename (codes "Root" ∷ []) (plain_fields (codes "A/B c")) ≡ codes "root-a-b-c"
unfolding spec_filename
slugs = refl

abbrev pem_crypto : Crypto
pem_crypto = record sample_crypto { encoding = plain_encoding }

abbrev trusting : Signatures
trusting = record { self_signed = λ c. true; signed_by = λ c. λ p. true }

-- the files of plain_ca and its key
abbrev ca_pair : KeyPair
ca_pair = record {
  public_certificate = encode_block (record { kind = certificate_pem_type; bytes = [] });
  private_key = encode_block (record { kind = codes "EC PRIVATE KEY"; bytes = 384 ∷ 1 ∷ [] });
  pfx = [];
}

abbrev ca_fields : SpecFields
ca_fields = record (plain_fields (codes "ca")) { certificate_authority = true }

abbrev ca_args : Args
ca_args = record plain_args { ca = true; issuer = none }

reuses :
    check_reused pem_crypto trusting ca_fields ca_args ca_pair ≡ ok (plain_ca, ecdsa_private 384 1)
unfolding check_reused certtool.Issue.Pem.read_key_pair
reuses = refl

check_reused_example :
    Reusable pem_crypto trusting ca_fields ca_args ca_pair (plain_ca, ecdsa_private 384 1)
check_reused_example =
    check_reused-Reusable pem_crypto trusting ca_fields ca_args ca_pair
      (plain_ca, ecdsa_private 384 1) reuses

-- two signers of code for Linux, in an empty directory, without encryption
abbrev generator : Generator
generator = record {
  output_dir = codes "out";
  overwrite = false;
  encryption = none;
  crypto = sample_crypto;
  signatures = trusting;
  environment = record { parse_duration = λ s. none; getenv = λ s. [] };
  disk = header_disk;
  authorized_key = λ c. ok [];
}

abbrev signer_of_code : Text → CertificateSpec
signer_of_code name =
    spec (record (plain_fields name) { code_signing = true; target = codes "linux" }) no_specs

abbrev two_signers : Specs
two_signers = add_spec (signer_of_code (codes "a")) (add_spec (signer_of_code (codes "b")) no_specs)

abbrev generated : Outcome Failure (List GenerationOutput) × Store
generated = generate_from_spec generator (ok tt) two_signers none empty_store

abbrev list_or_empty : {A : Type 0} → Outcome Failure (List A) → List A
list_or_empty (ok xs) = xs
list_or_empty (err e) = []

generates : generated ≡ (ok (list_or_empty generated.0), generated.1)
unfolding generate_from_spec certtool.Files.Store.next certtool.Spec.Validate.validate_filenames
    validate_filename certtool.Generate.Tree.check_collision certtool.Profile.lookup_text
    certtool.Generate.One.generate_one existing_private_file certtool.Issue.Create.generate_key_pair
    certtool.Profile.get_profile certtool.Base.Text.trim_space certtool.Issue.Args.get_key_type
    certtool.Issue.Keys.generate_private_key_from_type
    certtool.Issue.Template.new_certificate_template certtool.Issue.Keys.signature_algorithm
    certtool.Issue.Pem.pem_block_for_key certtool.Profile.pfx_format
    certtool.Files.Private.write_key_pair write write_private_file certtool.Files.Safe.write_public
    certtool.Files.Safe.write_private spec_filename certtool.Files.Store.put
generates = refl

generate_from_spec_example :
    Distinct (map (λ (o : GenerationOutput). o.cert_path) (list_or_empty generated.0))
generate_from_spec_example =
    generate_from_spec-Distinct generator (ok tt) two_signers none empty_store generated.1
      (list_or_empty generated.0) generates
