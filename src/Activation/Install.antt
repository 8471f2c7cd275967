-- ===== src/Activation/Install.antt =====
-- `install_into_managed_store` of src/indexing/static_publisher.rs. A release directory is one entry of
-- the disk; `Path::parent` of the target is a parameter.
use Prim.Native.String.{◌++◌}
use ltsearch.Common.{
  String, Bool, true, false, Option-cases, Option, none, some, Result, ok, err, is_err, ◌≡◌, ◌≢◌,
  refl, sym, arith, ◌⊎◌, inl, inr, str_eq, str_eq-ne, str_eq_refl, if◌then◌else◌,
}
use ltsearch.Disk.{Disk, Faults, create_dir_all, exists, rename_entry, remove_entry, copy_entry}
use ltsearch.Activation.{StaticActivateError, io}

unfoldable pub static_release_dir_key : String → String
static_release_dir_key release_id = "static/releases/" ++ release_id

-- `Path::join`, for a relative second path.
abbrev pub join_path : String → String → String
join_path path name = path ++ ("/" ++ name)

module _ {N : Type 0} where
  abbrev io_failed : String → Disk N → Result StaticActivateError (Unit {0}) × Disk N
  io_failed message d = (err (io message), d)

  abbrev finished : Bool × Disk N → Result StaticActivateError (Unit {0}) × Disk N
  finished (true, d) = (ok tt, d)
  finished (false, d) = io_failed "failed to rename staging" d

  abbrev then_do :
      String
      → (Disk N → Result StaticActivateError (Unit {0}) × Disk N)
      → Bool × Disk N
      → Result StaticActivateError (Unit {0}) × Disk N
  then_do message next (true, d) = next d
  then_do message next (false, d) = io_failed message d

module _ {N : Type 0} (f : Faults N) (source target staging : String) where
  -- The rename of the copy into place.
  unfoldable pub publish_staging : Disk N → Result StaticActivateError (Unit {0}) × Disk N
  unfolding rename_entry
  publish_staging d = finished (rename_entry f staging target d)

  unfoldable pub copy_into_staging : Disk N → Result StaticActivateError (Unit {0}) × Disk N
  unfolding copy_entry publish_staging
  copy_into_staging d = then_do "failed to copy" publish_staging (copy_entry f source staging d)

  unfoldable pub clear_staging : Disk N → Bool × Disk N
  unfolding remove_entry
  clear_staging d = if exists staging d then remove_entry f staging d else (true, d)

  -- The fallback, where the rename failed.
  unfoldable pub install_copy : Disk N → Result StaticActivateError (Unit {0}) × Disk N
  unfolding clear_staging copy_into_staging
  install_copy d = then_do "failed to clear stale staging" copy_into_staging (clear_staging d)

  unfoldable pub after_rename : Bool × Disk N → Result StaticActivateError (Unit {0}) × Disk N
  unfolding install_copy
  after_rename (true, d) = (ok tt, d)
  after_rename (false, d) = install_copy d

  unfoldable pub install_missing : String → Disk N → Result StaticActivateError (Unit {0}) × Disk N
  unfolding rename_entry after_rename
  install_missing parent d =
      if f.fails (create_dir_all parent)
      then io_failed "failed to create parent" d
      else after_rename (rename_entry f source target d)

module _ {N : Type 0} (f : Faults N) (parent_of : String → Option String)
    (root release_id source : String) where
  abbrev pub target_of : String
  target_of = join_path root (static_release_dir_key release_id)

  abbrev pub staging_of : String → String
  staging_of parent = join_path parent ("." ++ (release_id ++ "-staging"))

  abbrev below : Option String → Disk N → Result StaticActivateError (Unit {0}) × Disk N
  below none d = io_failed "no parent directory" d
  below (some parent) d = install_missing f source target_of (staging_of parent) parent d

  unfoldable pub install_into_managed_store :
      Disk N → Result StaticActivateError (Unit {0}) × Disk N
  unfolding static_release_dir_key install_missing
  install_into_managed_store d =
      if exists target_of d then (ok tt, d) else below (parent_of target_of) d

module _ {N : Type 0} (f : Faults N) (source target staging : String) where
  -- Three paths apart, the target not inside the staging directory.
  abbrev pub IsApart : Type 0
  IsApart =
      (target ≢ source)
      × (staging ≢ target)
      × (staging ≢ source)
      × (f.within staging target ≡ false)
      × (f.within staging source ≡ false)

  -- What an installation of `n` leaves where the target was free.
  abbrev pub IsInstalled : N → Result StaticActivateError (Unit {0}) × Disk N → Type 0
  IsInstalled n (r, d) =
      ((r ≡ ok tt) × (d target ≡ some n))
      ⊎ ((is_err r ≡ true) × (d target ≡ none) × (d source ≡ some n))

  abbrev Tests : Type 0
  Tests =
      (str_eq target source ≡ false)
      × (str_eq source target ≡ false)
      × (str_eq staging target ≡ false)
      × (str_eq target staging ≡ false)
      × (str_eq staging source ≡ false)
      × (str_eq source staging ≡ false)
      × (str_eq target target ≡ true)
      × (str_eq staging staging ≡ true)
      × (f.within staging target ≡ false)
      × (f.within staging source ≡ false)

  copy_into_staging-IsInstalled :
      (d : Disk N) (n : N)
      → Tests
      → d source ≡ some n
      → d target ≡ none
      → IsInstalled n (copy_into_staging f source target staging d)
  unfolding copy_into_staging publish_staging copy_entry rename_entry
  copy_into_staging-IsInstalled d n t s free = ground arith

  -- Clearing the staging directory touches neither the source nor the target.
  clear_staging-apart :
      (d : Disk N) (n : N)
      → Tests
      → d source ≡ some n
      → d target ≡ none
      → ((clear_staging f source target staging d).1 source ≡ some n)
        × ((clear_staging f source target staging d).1 target ≡ none)
  unfolding clear_staging remove_entry
  clear_staging-apart d n t s free = ground arith

  then_copy-IsInstalled :
      (p : Bool × Disk N) (n : N)
      → Tests
      → p.1 source ≡ some n
      → p.1 target ≡ none
      → IsInstalled n
          (then_do "failed to clear stale staging" (copy_into_staging f source target staging) p)
  then_copy-IsInstalled (true, d) n t s free = copy_into_staging-IsInstalled d n t s free
  then_copy-IsInstalled (false, d) n t s free = inr (refl, free, s)

  install_copy-IsInstalled :
      (d : Disk N) (n : N)
      → Tests
      → d source ≡ some n
      → d target ≡ none
      → IsInstalled n (install_copy f source target staging d)
  unfolding install_copy
  install_copy-IsInstalled d n t s free =
      let (kept, empty) = clear_staging-apart d n t s free in
      then_copy-IsInstalled (clear_staging f source target staging d) n t kept empty

  install_missing-IsInstalled :
      (parent : String) (d : Disk N) (n : N)
      → Tests
      → d source ≡ some n
      → d target ≡ none
      → IsInstalled n (install_missing f source target staging parent d)
  unfolding install_missing rename_entry after_rename
  install_missing-IsInstalled parent d n t s free =
      ground (arith, install_copy-IsInstalled d n t s free)

  tests : IsApart → Tests
  tests (a, b, c, within_target, within_source) = (
    str_eq-ne target source a,
    str_eq-ne source target (λ e. a (sym e)),
    str_eq-ne staging target b,
    str_eq-ne target staging (λ e. b (sym e)),
    str_eq-ne staging source c,
    str_eq-ne source staging (λ e. c (sym e)),
    str_eq_refl target,
    str_eq_refl staging,
    within_target,
    within_source,
  )

module _ {N : Type 0} (f : Faults N) (parent_of : String → Option String)
    (root release_id source : String) where
  abbrev pub install : Disk N → Result StaticActivateError (Unit {0}) × Disk N
  install = install_into_managed_store f parent_of root release_id source

  abbrev pub target : String
  target = target_of f parent_of root release_id source

  -- A release that is installed already stays as it is, and the disk with it. Otherwise, where the built
  -- directory is there and the three paths are apart, whatever calls fail: after a success the managed
  -- store holds the whole of it, and after an error the store holds nothing at the release's path and the
  -- built directory is still there.
  pub install_into_managed_store-IsInstalled :
      (parent : String) (d : Disk N) (n : N)
      → parent_of target ≡ some parent
      → IsApart f source target (staging_of f parent_of root release_id source parent)
      → d source ≡ some n
      → ((exists target d ≡ true) × (install d ≡ (ok tt, d)))
        ⊎ ((exists target d ≡ false)
            × IsInstalled f source target
                (staging_of f parent_of root release_id source parent)
                n
                (install d))
  unfolding install_into_managed_store
  install_into_managed_store-IsInstalled parent d n above apart s =
      let above_installed =
        install_missing-IsInstalled f source target
          (staging_of f parent_of root release_id source parent) parent d n
          (tests f source target (staging_of f parent_of root release_id source parent) apart) s in
      elim (Option-cases (d target)) [
        | inr (m, there) ↦ inl (ground (arith, there), ground (arith, there))
        | inl free ↦ inr (ground (arith, free), ground (arith, free, above, above_installed free))
      ]
