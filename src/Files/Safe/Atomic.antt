-- ===== src/Files/Safe/Atomic.antt =====
-- A file that internal/safefile/safefile.go writes is never seen half written.
use certtool.Base.{◌≡◌, ◌⊎◌, inl, inr, Bool, true, false, if◌then◌else◌, none, some, is_ok, arith}
use certtool.Base.Text.{Text, same, same_refl, same_comm}
use certtool.Files.Store.{Store, put}
use certtool.Files.Safe.{Faults, fill, remove_temp, rename, fill_and_rename, write}

module _ (faults : Faults) (path bytes : Text) (private : Bool) (store : Store) where
  destination :
      same path faults.temporary ≡ false
      → (write faults path bytes private store).1 path ≡ (
          if is_ok (write faults path bytes private store).0
          then some (record { contents = bytes; is_private = private })
          else store path)
  unfolding write fill fill_and_rename rename remove_temp put
  destination h = ground (arith, same_refl path)

  elsewhere :
      (p : Text)
      → same p path ≡ false
      → same p faults.temporary ≡ false
      → (write faults path bytes private store).1 p ≡ store p
  unfolding write fill fill_and_rename rename remove_temp put
  elsewhere p h g = ground arith

  temporary_gone :
      same path faults.temporary ≡ false
      → store faults.temporary ≡ none
      → (is_ok (write faults path bytes private store).0 ≡ true) ⊎ (faults.remove_fails ≡ false)
      → (write faults path bytes private store).1 faults.temporary ≡ none
  unfolding write fill fill_and_rename rename remove_temp put
  temporary_gone h e (inl o) =
      ground (arith, same_refl faults.temporary, same_comm path faults.temporary)
  temporary_gone h e (inr o) =
      ground (arith, same_refl faults.temporary, same_comm path faults.temporary)

-- Whichever call fails, the destination holds the new contents with the mode asked for if `write`
-- succeeds and what it held before if not; no other file but the temporary one changes, and that is
-- gone, unless it could not be removed after a failure.
pub write-atomic :
    (faults : Faults) (path bytes : Text) (private : Bool) (store : Store)
    → same path faults.temporary ≡ false
    → let (result, after) = write faults path bytes private store in
      (after path ≡ (
        if is_ok result
        then some (record { contents = bytes; is_private = private })
        else store path))
      × ((p : Text) → same p path ≡ false → same p faults.temporary ≡ false → after p ≡ store p)
      × (store faults.temporary ≡ none
          → (is_ok result ≡ true) ⊎ (faults.remove_fails ≡ false)
          → after faults.temporary ≡ none)
write-atomic faults path bytes private store h = (
  destination faults path bytes private store h,
  elsewhere faults path bytes private store,
  temporary_gone faults path bytes private store h,
)
