-- ===== src/Staged.antt =====
-- src/storage/staged_publish.rs: artifacts that are written aside and then renamed into place.
pub mod Replace
pub mod Moves
mod Tests
use Prim.Native.String.{◌++◌ as joined}
use ltsearch.Common.{
  String, Bool, true, false, Option, none, some, List, [], ◌∷◌, ◌++◌, Result, ok, err,
  if◌then◌else◌,
}
use ltsearch.Errors.{IndexError}
use ltsearch.Disk.{Disk, Faults, FsCall, create_dir_all, exists, put, rename_entry, remove_entry}

-- A step on the disk that may fail; what it did before it failed stays done.
abbrev pub Fs : Type 0 → Type 0 → Type 0
Fs N A = Disk N → Result IndexError A × Disk N

abbrev pub operation : String → IndexError
operation message = IndexError.operation message

abbrev display : IndexError → String
display (IndexError.validation e) = "index validation failed"
display (IndexError.operation message) = joined "index operation failed: " message

unfoldable pub append_cleanup_failure : IndexError → Result IndexError (Unit {0}) → IndexError
append_cleanup_failure error (ok u) = error
append_cleanup_failure error (err e) =
    operation (joined (display error) (joined "; cleanup failed: " (display e)))

abbrev join_errors : List String → String
join_errors [] = ""
join_errors (e ∷ []) = e
join_errors (e ∷ f ∷ es) = joined e (joined "; " (join_errors (f ∷ es)))

abbrev failures : List (Result IndexError (Unit {0})) → List String
failures [] = []
failures (ok u ∷ rs) = failures rs
failures (err e ∷ rs) = display e ∷ failures rs

abbrev all_cleaned : List String → Result IndexError (Unit {0})
all_cleaned [] = ok tt
all_cleaned (e ∷ es) = err (operation (join_errors (e ∷ es)))

unfoldable pub combine_cleanup_results :
    List (Result IndexError (Unit {0})) → Result IndexError (Unit {0})
combine_cleanup_results results = all_cleaned (failures results)

module _ {N : Type 0} where
  -- What follows a success, and what an error.
  abbrev pub after_move :
      Fs N (Unit {0})
      → (IndexError → Fs N (Unit {0}))
      → Result IndexError (Unit {0}) × Disk N
      → Result IndexError (Unit {0}) × Disk N
  after_move next clean (ok u, d) = next d
  after_move next clean (err e, d) = clean e d

  -- The error of a call that failed.
  abbrev pub or_error : String → Bool × Disk N → Result IndexError (Unit {0}) × Disk N
  or_error message (true, d) = (ok tt, d)
  or_error message (false, d) = (err (operation message), d)

module _ {N : Type 0} (f : Faults N) where
  -- `remove_dir_all_if_exists` and `remove_path_if_exists`
  unfoldable pub remove_if_exists : String → Fs N (Unit {0})
  unfolding remove_entry
  remove_if_exists path d =
      if exists path d then or_error "failed to remove" (remove_entry f path d) else (ok tt, d)

  -- `StagedDir::create`, for a name with the process and the time
  unfoldable pub create : N → String → Fs N (Unit {0})
  create empty root d =
      if f.fails (create_dir_all root)
      then (err (operation "failed to create staging directory"), d)
      else (ok tt, if exists root d then d else put root (some empty) d)

  -- `StagedDir::abort`
  unfoldable pub abort : String → Fs N (Unit {0})
  unfolding remove_if_exists
  abort root = remove_if_exists root

  -- The directories above the destination hold no entry of ours; that they cannot be made stands for a
  -- destination without a parent too.
  unfoldable pub move_into_place : String → String → Fs N (Unit {0})
  unfolding rename_entry
  move_into_place source destination d =
      if f.fails (create_dir_all destination)
      then (err (operation "failed to create directory"), d)
      else or_error "failed to publish staged artifact" (rename_entry f source destination d)

  -- The cleanup of what was moved, in order.
  unfoldable pub remove_all : List String → Disk N → List (Result IndexError (Unit {0})) × Disk N
  unfolding remove_if_exists
  remove_all [] d = ([], d)
  remove_all (p ∷ ps) d =
      let (r, d1) = remove_if_exists p d in let (rs, d2) = remove_all ps d1 in (r ∷ rs, d2)

  unfoldable pub give_up : String → List String → IndexError → Fs N (Unit {0})
  unfolding remove_all append_cleanup_failure combine_cleanup_results
  give_up root moved error d =
      let (results, d1) = remove_all (moved ++ (root ∷ [])) d in
      (err (append_cleanup_failure error (combine_cleanup_results results)), d1)

  -- The loop of `commit` over the moves that are left.
  unfoldable pub commit_from : String → List String → List (String × String) → Fs N (Unit {0})
  unfolding move_into_place give_up remove_if_exists
  commit_from root moved [] d = remove_if_exists root d
  commit_from root moved ((source, destination) ∷ moves) d =
      after_move (commit_from root (moved ++ (destination ∷ [])) moves) (give_up root moved)
        (move_into_place source destination d)

  unfoldable pub commit : String → List (String × String) → Fs N (Unit {0})
  unfolding commit_from
  commit root moves d = commit_from root [] moves d

  -- The staged directory could not be moved: what was there is put back.
  unfoldable pub restore : Bool → String → String → String → Fs N (Unit {0})
  unfolding rename_entry remove_if_exists append_cleanup_failure combine_cleanup_results
  restore true root destination backup d =
      let (r, d1) =
        or_error "failed to restore previous directory" (rename_entry f backup destination d) in
      let (r1, d2) = remove_if_exists root d1 in
      (
        err (
            append_cleanup_failure (operation "failed to publish staged artifact")
              (combine_cleanup_results (r ∷ r1 ∷ []))),
        d2,
      )
  restore false root destination backup d =
      let (r1, d1) = remove_if_exists root d in
      (
        err (
            append_cleanup_failure (operation "failed to publish staged artifact")
              (combine_cleanup_results (r1 ∷ []))),
        d1,
      )

  unfoldable pub publish_staged : Bool → String → String → String → Fs N (Unit {0})
  unfolding rename_entry remove_if_exists restore
  publish_staged had_previous root destination backup d =
      let (moved, d1) = rename_entry f root destination d in
      elim moved [
        | true ↦ if had_previous then remove_if_exists backup d1 else (ok tt, d1)
        | false ↦ restore had_previous root destination backup d1
      ]

  -- The previous directory was moved aside, or could not be.
  unfoldable pub after_aside :
      String → String → String → Bool × Disk N → Result IndexError (Unit {0}) × Disk N
  unfolding publish_staged remove_if_exists append_cleanup_failure
  after_aside root destination backup (true, d) = publish_staged true root destination backup d
  after_aside root destination backup (false, d) =
      let (r, d1) = remove_if_exists root d in
      (err (append_cleanup_failure (operation "failed to move previous directory aside") r), d1)

  -- After the backup's path is known.
  unfoldable pub replace_dir : String → String → String → Fs N (Unit {0})
  unfolding rename_entry after_aside publish_staged
  replace_dir root destination backup d = elim (exists destination d) [
    | false ↦ publish_staged false root destination backup d
    | true ↦ after_aside root destination backup (rename_entry f destination backup d)
  ]

  -- `commit_replace_dir`, with the path of the backup, or the error where the destination has no parent
  -- or no name or the clock stands before the epoch.
  unfoldable pub commit_replace_dir : String → String → Result IndexError String → Fs N (Unit {0})
  unfolding replace_dir
  commit_replace_dir root destination (ok backup) d = replace_dir root destination backup d
  commit_replace_dir root destination (err e) d = (err e, d)
