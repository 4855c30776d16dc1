-- ===== src/Files/Private/Forms.antt =====
-- A private file has one form: what pkg/certtool/encrypt.go writes, it finds and reads.
use certtool.Base.{
  ◌≡◌, refl, sym, ap, ◌∙◌, Bool, true, false, not, ◌||◌, Option, none, some, [], ◌∷◌, ◌++◌,
  is_empty, Outcome, ok, is_ok, arith, Bool-cases, inl, inr, if_true, if_false, is_some, ℕ,
}
use certtool.Base.Text.{Text, same, same_comm}
use certtool.Failure.{Failure}
use certtool.Issue.Pem.{is_age_encrypted}
use certtool.Files.Store.{File, Store, put, put_same, file_exists, next-eq-ok}
use certtool.Files.Safe.{write, write_private}
use certtool.Files.Safe.Atomic.{write-atomic}
use certtool.Files.Private.{
  KeyEncryption, Disk, encrypted_suffix, encrypts, recipients_of, identities_of, private_path,
  read_file, one_form, existing_private_file, sealed, write_private_file, opened, contents_of,
  open_read, read_private_file, remove, remove_other_form,
}

-- If files are encrypted: there is an identity, and what age's documentation says of recipients and
-- of identities that belong to them. If they are not, nothing.
pub record Opens (disk : Disk) (e : Option KeyEncryption) : Type 0 where
  pub has_identity : (not (encrypts e) || not (is_empty (identities_of e))) ≡ true
  pub sealed_is_age :
      (contents bytes : Text)
      → encrypts e ≡ true
      → disk.encrypt contents (recipients_of e) ≡ ok bytes
      → is_age_encrypted bytes ≡ true
  pub opens :
      (contents bytes : Text)
      → encrypts e ≡ true
      → disk.encrypt contents (recipients_of e) ≡ ok bytes
      → disk.decrypt bytes (identities_of e) ≡ ok contents

reads_file :
    (p : Text) (store : Store) {f : File} → store p ≡ some f → read_file p store ≡ ok f.contents
unfolding read_file
reads_file p store h = ap contents_of h

same_longer : (s t : Text) (c : ℕ) → same s (s ++ c ∷ t) ≡ false
unfolding same
same_longer [] t c = refl
same_longer (d ∷ s) t c = ground (arith, same_longer s t c)

only_sealed :
    (path : Text) (a b : Bool)
    → a ≡ false
    → b ≡ true
    → one_form path a b ≡ ok (some (path ++ encrypted_suffix))
unfolding one_form
only_sealed path a b e f = rw (e, f) refl

only_plain : (path : Text) (a b : Bool) → a ≡ true → b ≡ false → one_form path a b ≡ ok (some path)
unfolding one_form
only_plain path a b e f = rw (e, f) refl

removed :
    (disk : Disk) (p : Text) (store between : Store)
    → remove disk p store ≡ (ok tt, between)
    → file_exists between p ≡ false
unfolding remove file_exists
removed disk p store between r = elim (Bool-cases (file_exists store p)) [
  | inl f ↦ elim (Bool-cases (disk.remove_fails p)) [
    | inl g ↦ cc (rw (f, g) at r)
    | inr g ↦
        let gone : put p none store ≡ between =
          ap (λ (q : Outcome Failure (Unit {0}) × Store). q.1) (rw (f, g) at r) in
        rw (sym gone) (rw (put_same p none store) refl)
  ]
  | inr f ↦
      let same_store : store ≡ between =
        ap (λ (q : Outcome Failure (Unit {0}) × Store). q.1) (rw f at r) in
      rw (sym same_store) f
]

module _ (disk : Disk) (e : Option KeyEncryption) (path contents : Text) where
  abbrev target : Text
  target = private_path e path

  written :
      (bytes : Text) (s0 s1 : Store) {u : Unit {0}}
      → same target (disk.faults target).temporary ≡ false
      → write (disk.faults target) target bytes true s0 ≡ (ok u, s1)
      → (s1 target ≡ some (record { contents = bytes; is_private = true }))
        × ((q : Text)
            → same q target ≡ false
            → same q (disk.faults target).temporary ≡ false
            → s1 q ≡ s0 q)
  written bytes s0 s1 apart b =
      let (d, x, _) = write-atomic (disk.faults target) target bytes true s0 apart in
      let after : (write (disk.faults target) target bytes true s0).1 ≡ s1 =
        ap (λ (r : Outcome Failure (Unit {0}) × Store). r.1) b in
      let fine : is_ok (write (disk.faults target) target bytes true s0).0 ≡ true =
        ap (λ (r : Outcome Failure (Unit {0}) × Store). is_ok r.0) b in
      (
        ap (λ (s : Store). s target) (sym after) ∙ d ∙ if_true _ _ _ fine,
        λ q n m. ap (λ (s : Store). s q) (sym after) ∙ x q n m,
      )

  -- A successful write has sealed the contents and stored them.
  stored :
      (store after : Store) (p : Text)
      → same target (disk.faults target).temporary ≡ false
      → write_private_file disk e path contents store ≡ (ok p, after)
      → (bytes : Text) × (sealed disk e contents ≡ ok bytes)
        × (target ≡ p)
        × (after p ≡ some (record { contents = bytes; is_private = true }))
        × ((q : Text)
            → same q target ≡ false
            → same q (disk.faults target).temporary ≡ false
            → after q ≡ store q)
  unfolding write_private_file write_private
  stored store after p apart h =
      let (bytes, s0, a, h1) = next-eq-ok (sealed disk e contents, store) _ h in
      let (u, s1, b, h2) = next-eq-ok (write (disk.faults target) target bytes true s0) _ h1 in
      let sealed_bytes : sealed disk e contents ≡ ok bytes =
        ap (λ (r : Outcome Failure Text × Store). r.0) a in
      let same_store : store ≡ s0 = ap (λ (r : Outcome Failure Text × Store). r.1) a in
      let same_end : s1 ≡ after = ap (λ (r : Outcome Failure Text × Store). r.1) h2 in
      let named : ok target ≡ ok p = ap (λ (r : Outcome Failure Text × Store). r.0) h2 in
      let same_target : target ≡ p = cc in
      let (d, x) = written bytes s0 s1 apart b in
      (
        bytes,
        sealed_bytes,
        same_target,
        ap after (sym same_target) ∙ ap (λ (s : Store). s target) (sym same_end) ∙ d,
        λ q n m.
            ap (λ (s : Store). s q) (sym same_end)
            ∙ x q n m
            ∙ ap (λ (s : Store). s q) (sym same_store),
      )

  unseals :
      Opens disk e
      → (bytes : Text) → is_age_encrypted contents ≡ false
      → sealed disk e contents ≡ ok bytes
      → opened disk e bytes ≡ ok contents
  unfolding opened sealed
  unseals laws bytes plain b = elim (Bool-cases (encrypts e)) [
    | inl f ↦
        let c : disk.encrypt contents (recipients_of e) ≡ ok bytes = sym (if_true _ _ _ f) ∙ b in
        ground (
          arith,
          laws.sealed_is_age contents bytes f c,
          laws.has_identity,
          laws.opens contents bytes f c,
        )
    | inr f ↦ let c : ok contents ≡ ok bytes = sym (if_false _ _ _ f) ∙ b in ground arith
  ]

  -- A private file that was written is read back as it was, if what is written is not itself encrypted
  -- with age and the write's temporary file has another name: where nothing is encrypted under no
  -- other condition, and otherwise if there are identities, which open what is encrypted to the
  -- recipients.
  pub write_private_file-read :
      Opens disk e
      → (store after : Store) (p : Text) → is_age_encrypted contents ≡ false
      → same target (disk.faults target).temporary ≡ false
      → write_private_file disk e path contents store ≡ (ok p, after)
      → read_private_file disk e p after ≡ ok contents
  unfolding read_private_file
  write_private_file-read laws store after p plain apart h =
      let (bytes, b, t, held, _) = stored store after p apart h in
      let found : read_file p after ≡ ok bytes = reads_file p after held in
      ap (open_read disk e) found ∙ unseals laws bytes plain b

  -- Regenerating leaves one form of a private file: after the other form is removed and the file is
  -- written, `existingPrivateFile` finds the file at the path that the write returned, where the
  -- write's temporary file has neither form's name.
  pub remove_other_form-existing :
      (store between after : Store) (p : Text)
      → same target (disk.faults target).temporary ≡ false
      → same path (disk.faults target).temporary ≡ false
      → same (path ++ encrypted_suffix) (disk.faults target).temporary ≡ false
      → remove_other_form disk path e store ≡ (ok tt, between)
      → write_private_file disk e path contents between ≡ (ok p, after)
      → existing_private_file path after ≡ ok (some p)
  unfolding existing_private_file remove_other_form private_path file_exists
  remove_other_form-existing store between after p apart apart_plain apart_sealed r h =
      let (bytes, b, t, held, kept) = stored between after p apart h in
      elim (Bool-cases (encrypts e)) [
        | inl f ↦
            let to : target ≡ path ++ encrypted_suffix = if_true _ _ _ f in
            let gone : remove disk path store ≡ (ok tt, between) =
              ap (λ (q : Text). remove disk q store) (sym (if_true _ _ _ f)) ∙ r in
            let other : file_exists after path ≡ false =
              ap is_some (kept path (ap (same path) to ∙ same_longer path _ _) apart_plain)
              ∙ removed disk path store between gone in
            only_sealed path (file_exists after path) _ other
              (ap (file_exists after) (sym to ∙ t) ∙ ap is_some held)
            ∙ ap (λ q. ok (some q)) (sym to ∙ t)
        | inr f ↦
            let to : target ≡ path = if_false _ _ _ f in
            let gone : remove disk (path ++ encrypted_suffix) store ≡ (ok tt, between) =
              ap (λ (q : Text). remove disk q store) (sym (if_false _ _ _ f)) ∙ r in
            let other : file_exists after (path ++ encrypted_suffix) ≡ false =
              ap is_some (
                kept (path ++ encrypted_suffix)
                  (ap (same (path ++ encrypted_suffix)) to
                    ∙ same_comm _ path
                    ∙ same_longer path _ _)
                  apart_sealed)
              ∙ removed disk (path ++ encrypted_suffix) store between gone in
            only_plain path (file_exists after path) _
              (ap (file_exists after) (sym to ∙ t) ∙ ap is_some held) other
            ∙ ap (λ q. ok (some q)) (sym to ∙ t)
      ]
