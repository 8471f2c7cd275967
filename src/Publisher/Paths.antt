-- ===== src/Publisher/Paths.antt =====
-- The path checks of src/indexing/publisher.rs: storage keys, `s3://` locations, and sources that
-- must lie below the artifact root. The disk is `std::fs`; `Path::components` is written out.
use ltsearch.Common.{
  ℕ, zero, suc, String, Bool, true, false, not, Option, none, some, List, [], ◌∷◌, ◌++◌, ok, err,
  Result, str_eq, if◌then◌else◌, ◌&&◌, ◌||◌,
}
use mathlib.Core.List.{reverse}
use ltsearch.Common.Outcome.{guard, map_err, ok_or, ◌>>=◌, ◌>>◌}
use ltsearch.Common.Text.{is_empty, strip_prefix, split_once}
use ltsearch.Common.Segments.{segments}
use ltsearch.Errors.{PublishError, invalid_value}
use ltsearch.Sqlite.{Bytes}
use ltsearch.Storage.{FilePath}

pub record Disk : Type 0 where
  pub root : FilePath
  pub canonicalize : FilePath → Result String FilePath
  pub read_file : FilePath → Result String Bytes
  -- `fs::metadata(p).is_dir()`, through symbolic links
  pub is_dir : FilePath → Result String Bool
  -- `fs::symlink_metadata(p).file_type().is_symlink()`
  pub is_symlink : FilePath → Result String Bool
  pub read_dir : FilePath → Result String (List FilePath)

abbrev failed : String → String → PublishError
failed context source = PublishError.operation context

-- `Path::starts_with`
pub starts_with : FilePath → FilePath → Bool
starts_with path [] = true
starts_with [] (r ∷ root) = false
starts_with (p ∷ path) (r ∷ root) = str_eq p r && starts_with path root

-- Every component is `Component::Normal`. Empty segments and inner `.` are no components.
all_normal : List String → Bool
all_normal [] = true
all_normal (s ∷ rest) = not (str_eq s "..") && all_normal rest

relative_and_normal : List String → Bool
relative_and_normal [] = true
relative_and_normal (s ∷ rest) = not (is_empty s) && not (str_eq s ".") && all_normal (s ∷ rest)

unfoldable pub validate_relative_storage_key : String → Result PublishError (Unit {0})
unfolding relative_and_normal all_normal
validate_relative_storage_key key = do
  guard (not (is_empty key)) (PublishError.validation (invalid_value "artifact_key"))
  guard (relative_and_normal (segments b'/' key))
      (PublishError.validation (invalid_value "artifact_key"))

abbrev s3_error : PublishError
s3_error = PublishError.validation (invalid_value "s3_path")

key_of_parts : Option (String × String) → Result PublishError String
key_of_parts none = err s3_error
key_of_parts (some (bucket, key)) =
    if is_empty bucket || is_empty key
    then err s3_error
    else do validate_relative_storage_key key; ok key

unfoldable pub s3_key : String → Result PublishError String
unfolding key_of_parts
s3_key value = do
  suffix ← ok_or (strip_prefix "s3://" value) s3_error
  key_of_parts (split_once b'/' suffix)

-- The source of an artifact: its canonical path, which must lie below the canonical root.
unfoldable pub artifact_source_path : Disk → String → Result PublishError FilePath
artifact_source_path disk key = do
  validate_relative_storage_key key
  root ← map_err (failed "failed to canonicalize artifact root") (disk.canonicalize disk.root)
  canonical ←
      map_err (failed "failed to canonicalize artifact source")
        (disk.canonicalize (disk.root ++ segments b'/' key))
  guard (starts_with canonical root)
      (PublishError.operation "artifact source escapes artifact root")
  ok canonical

-- `current.is_dir()` is false where the disk cannot tell.
children : Disk → FilePath → Result String Bool → Result PublishError (List FilePath)
children disk current (ok true) =
    map_err (failed "failed to read artifact directory") (disk.read_dir current)
children disk current (ok false) = ok []
children disk current (err e) = ok []

link_target : Disk → FilePath → FilePath → Result PublishError (List FilePath)
link_target disk root current = do
  canonical ← map_err (failed "failed to canonicalize artifact source") (disk.canonicalize current)
  guard (starts_with canonical root)
      (PublishError.operation "artifact source escapes artifact root")
  ok []

-- One turn of the walk: what is pushed on the stack for the path taken from it.
unfoldable pub visit : Disk → FilePath → FilePath → Result PublishError (List FilePath)
unfolding children link_target starts_with
visit disk root current = do
  link ← map_err (failed "failed to inspect artifact source") (disk.is_symlink current)
  if link then link_target disk root current else children disk current (disk.is_dir current)

-- `while let Some(current) = stack.pop()`, with fuel; `none` means that the fuel ran out. The head of
-- the list is the top of the stack, so the entries of a directory are pushed in reverse.
unfoldable pub walk : ℕ → Disk → FilePath → List FilePath → Option (Result PublishError (Unit {0}))
walk fuel disk root [] = some (ok tt)
walk zero disk root (current ∷ stack) = none
walk (suc fuel) disk root (current ∷ stack) = elim (visit disk root current) [
  | err e ↦ some (err e)
  | ok entries ↦ walk fuel disk root (reverse entries ++ stack)
]

unfoldable pub validate_directory_tree_within_root :
    ℕ → Disk → FilePath → Option (Result PublishError (Unit {0}))
unfolding walk
validate_directory_tree_within_root fuel disk directory = elim (disk.is_dir directory) [
  | err e ↦ some (err (PublishError.operation "failed to inspect artifact source"))
  | ok false ↦ some (err (PublishError.operation "publish source is not a directory"))
  | ok true ↦ elim (disk.canonicalize disk.root) [
    | err e ↦ some (err (PublishError.operation "failed to canonicalize artifact root"))
    | ok root ↦ walk fuel disk root (directory ∷ [])
  ]
]
