-- ===== src/Staged/Replace.antt =====
-- The replacement of a directory: what was there is never lost.
use ltsearch.Common.{
  String, Bool, true, false, Bool-cases, Option-cases, Option, none, some, Result, ok, is_err, ◌≡◌,
  ◌≢◌, refl, sym, ap, arith, ◌⊎◌, inl, inr, str_eq, str_eq-ne, if◌then◌else◌, str_eq_refl,
}
use ltsearch.Errors.{IndexError}
use ltsearch.Disk.{Disk, Faults, rename, remove, put, rename_entry, remove_entry}
use ltsearch.Staged.{
  remove_if_exists, restore, publish_staged, after_aside, replace_dir, commit_replace_dir,
}

module _ {N : Type 0} (f : Faults N) (root destination backup : String) where
  -- Three paths side by side.
  abbrev pub IsApart : Type 0
  IsApart =
      (destination ≢ root)
      × (destination ≢ backup)
      × (backup ≢ root)
      × (f.within root destination ≡ false)
      × (f.within root backup ≡ false)
      × (f.within backup destination ≡ false)

  -- What a replacement of `old` by `new` leaves at the two paths.
  abbrev pub IsReplaced : Option N → N → Result IndexError (Unit {0}) × Disk N → Type 0
  IsReplaced old new (r, d) =
      ((r ≡ ok tt) × (d destination ≡ some new) × (d backup ≡ none))
      ⊎ ((is_err r ≡ true) × (d destination ≡ old))
      ⊎ ((is_err r ≡ true) × (d destination ≡ some new) × (f.fails (remove backup) ≡ true))
      ⊎ ((is_err r ≡ true)
          × (d backup ≡ old)
          × (f.fails (rename backup destination) ≡ true)
          × (f.fails (rename root destination) ≡ true))

  abbrev Tests : Type 0
  Tests =
      (str_eq destination root ≡ false)
      × (str_eq destination backup ≡ false)
      × (str_eq backup root ≡ false)
      × (str_eq root destination ≡ false)
      × (str_eq backup destination ≡ false)
      × (str_eq root backup ≡ false)
      × (str_eq destination destination ≡ true)
      × (str_eq backup backup ≡ true)
      × (str_eq root root ≡ true)

  publish_staged-IsReplaced :
      (had : Bool) (d : Disk N) (old : Option N) (new : N)
      → Tests
      → IsApart
      → d root ≡ some new
      → d destination ≡ none
      → d backup ≡ old
      → (if had then Unit {0} else (old ≡ none))
      → IsReplaced old new (publish_staged f had root destination backup d)
  unfolding publish_staged restore remove_if_exists rename_entry remove_entry
  publish_staged-IsReplaced true d old new t a r g b h = ground arith
  publish_staged-IsReplaced false d old new t a r g b h = ground arith

  renamed :
      (d : Disk N) (n : N)
      → f.fails (rename destination backup) ≡ false
      → d destination ≡ some n
      → rename_entry f destination backup d ≡ (true, put backup (some n) (put destination none d))
  unfolding rename_entry
  renamed d n free there = rw (free, there) refl

  set_aside :
      (d : Disk N) (n : N)
      → f.fails (rename destination backup) ≡ false
      → d destination ≡ some n
      → replace_dir f root destination backup d
        ≡ publish_staged f true root destination backup
            (put backup (some n) (put destination none d))
  unfolding replace_dir after_aside
  set_aside d n free there =
      rw (there, replace_dir) (ap (after_aside f root destination backup) (renamed d n free there))

  stuck-IsReplaced :
      (d : Disk N) (n new : N)
      → Tests
      → IsApart
      → d destination ≡ some n
      → f.fails (rename destination backup) ≡ true
      → IsReplaced (some n) new (replace_dir f root destination backup d)
  unfolding replace_dir rename_entry remove_if_exists remove_entry
  stuck-IsReplaced d n new t a there stuck = ground arith

  put_aside-IsReplaced :
      (d : Disk N) (n new : N)
      → Tests
      → IsApart
      → d root ≡ some new
      → IsReplaced (some n) new (
          publish_staged f true root destination backup
            (put backup (some n) (put destination none d)))
  put_aside-IsReplaced d n new t a r =
      publish_staged-IsReplaced true (put backup (some n) (put destination none d)) (some n) new t a
        (ground arith) (ground arith) (ground arith) tt

  replace_dir-IsReplaced :
      (d : Disk N) (new : N)
      → Tests
      → IsApart
      → d root ≡ some new
      → d backup ≡ none
      → IsReplaced (d destination) new (replace_dir f root destination backup d)
  unfolding replace_dir
  replace_dir-IsReplaced d new t a r b = elim (Option-cases (d destination)) [
    | inl absent ↦
        rw (absent, replace_dir) (publish_staged-IsReplaced false d none new t a r absent b refl)
    | inr (n, there) ↦ elim (Bool-cases (f.fails (rename destination backup))) [
      | inl stuck ↦ rw (there) (stuck-IsReplaced d n new t a there stuck)
      | inr free ↦ rw (set_aside d n free there, there) (put_aside-IsReplaced d n new t a r)
    ]
  ]

  -- A directory is replaced whole or not at all. Where the staged directory, the destination and the
  -- backup are three paths apart, the staged directory is there and the backup's path is free: after a
  -- success the destination holds what was staged and the backup is gone; after an error the destination
  -- holds what it held, or what was staged and only the backup could not be removed, or the backup holds
  -- what it held, and neither the staged directory nor the backup could be moved into place.
  pub commit_replace_dir-IsReplaced :
      (d : Disk N) (new : N)
      → IsApart
      → d root ≡ some new
      → d backup ≡ none
      → IsReplaced (d destination) new (commit_replace_dir f root destination (ok backup) d)
  unfolding commit_replace_dir
  commit_replace_dir-IsReplaced d new a r b =
      replace_dir-IsReplaced d new
        (
          str_eq-ne destination root a.0,
          str_eq-ne destination backup a.1,
          str_eq-ne backup root a.2,
          str_eq-ne root destination (λ e. a.0 (sym e)),
          str_eq-ne backup destination (λ e. a.1 (sym e)),
          str_eq-ne root backup (λ e. a.2 (sym e)),
          str_eq_refl destination,
          str_eq_refl backup,
          str_eq_refl root,
        )
        a r b
