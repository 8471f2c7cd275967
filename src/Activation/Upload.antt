-- ===== src/Activation/Upload.antt =====
-- src/bin/static_activate.rs: a built release is verified, uploaded object by object with the manifest
-- last, and activated. Other processes may act on the storage before each upload and between the read
-- and the swap of the pointer. `storage.upload_file` reads its source from the local disk, which does
-- not change.
pub mod Stored
pub mod Steps
pub mod Complete
mod Tests
pub mod Answers
pub mod Resume
use Prim.Native.String.{◌++◌ as joined}
use ltsearch.Common.{
  ℕ, String, Bool, true, false, Option, none, some, List, [], ◌∷◌, ◌++◌, length, Result, ok, err,
  ◌≡◌, ◌≢◌, str_eq, ◌==◌, if◌then◌else◌,
}
use ltsearch.Common.Outcome.{guard, map_err, ok_or, ◌>>=◌, ◌>>◌}
use ltsearch.Common.Text.{contains_text}
use ltsearch.Common.Words.{same_bytes}
use ltsearch.Errors.{PublishError}
use ltsearch.Sqlite.{Bytes}
use ltsearch.Storage.{FilePath, VersionedObject, create_only, PublishStorage}
use ltsearch.Stores.{static_release_manifest_key}
use ltsearch.Turbo.Release.{ReleaseManifest, OutputFile, sha256_hex}
use ltsearch.Activation.Install.{static_release_dir_key}
use ltsearch.Activation.Verify.{release_output_files, release_manifest_file}

abbrev create_only_conflict_phrase : String
create_only_conflict_phrase = "refusing to overwrite existing version artifact"

unfoldable pub is_create_only_conflict : PublishError → Bool
unfolding contains_text
is_create_only_conflict (PublishError.validation e) = false
is_create_only_conflict (PublishError.operation message) =
    contains_text create_only_conflict_phrase message

-- `format!("{dir_key}/{name}")`
unfoldable pub object_key : ReleaseManifest → String → String
unfolding static_release_dir_key
object_key m name = joined (static_release_dir_key m.release_id) (joined "/" name)

abbrev pub source_of : FilePath → String → FilePath
source_of release_dir name = release_dir ++ (name ∷ [])

-- `manifest.outputs.iter().find(|output| output.name == name)`
unfoldable pub find_output : String → List OutputFile → Option OutputFile
find_output name [] = none
find_output name (o ∷ outputs) =
    let later = find_output name outputs in if str_eq o.name name then some o else later

abbrev pub Run : Type 0 → Type 0
Run S = S → Result String (Unit {0}) × S

module _ {S : Type 0} where
  abbrev pub and_step : Run S → Result String (Unit {0}) × S → Result String (Unit {0}) × S
  and_step next (ok u, s) = next s
  and_step next (err e, s) = (err e, s)

  abbrev pub resume :
      (S → Result String (Unit {0}))
      → Result PublishError (Unit {0}) × S
      → Result String (Unit {0}) × S
  resume check (ok u, s) = (ok tt, s)
  resume check (err e, s) =
      if is_create_only_conflict e then (check s, s) else (err "failed to upload", s)

module _ (sha256 : List ℕ → List ℕ) (hex_encode : List ℕ → String) {S : Type 0}
    (store : PublishStorage S) (others : S → S) (local : FilePath → Option Bytes)
    (release_dir : FilePath) (m : ReleaseManifest) where
  unfoldable pub verify_remote_object : String → S → Result String (Unit {0})
  unfolding find_output object_key sha256_hex
  verify_remote_object name s = do
    expected ← ok_or (find_output name m.outputs) "manifest has no output entry"
    read ← map_err (λ e. "failed to read pre-existing object") (store.read (object_key m name) s)
    stored ← ok_or read "pre-existing object vanished"
    guard (length stored.bytes == expected.size_bytes) "size mismatch"
    guard (str_eq (sha256_hex sha256 hex_encode stored.bytes) expected.sha256) "sha256 mismatch"

  unfoldable pub upload_object : String → Run S
  unfolding verify_remote_object is_create_only_conflict
  upload_object name s =
      resume (verify_remote_object name)
        (store.upload_file (object_key m name) (source_of release_dir name) create_only (others s))

  unfoldable pub upload_objects : List String → Run S
  unfolding upload_object
  upload_objects [] s = (ok tt, s)
  upload_objects (name ∷ names) s = and_step (upload_objects names) (upload_object name s)

  unfoldable pub same_manifest : Bytes → S → Result String (Unit {0})
  unfolding static_release_manifest_key
  same_manifest bytes s = do
    read ←
        map_err (λ e. "failed to read stored manifest")
          (store.read (static_release_manifest_key m.release_id) s)
    stored ← ok_or read "manifest reported present then vanished"
    guard (same_bytes stored.bytes bytes) "already installed with a DIFFERENT manifest"

  unfoldable pub upload_manifest : Option Bytes → Run S
  unfolding same_manifest is_create_only_conflict
  upload_manifest none s = (err "failed to read local manifest", s)
  upload_manifest (some bytes) s = resume (same_manifest bytes) (
      store.upload_file (static_release_manifest_key m.release_id)
        (source_of release_dir release_manifest_file) create_only (others s))

  abbrev upload_all : Option (List String) → Run S
  upload_all none s = (err "no static release file set", s)
  upload_all (some names) s =
      and_step (upload_manifest (local (source_of release_dir release_manifest_file)))
        (upload_objects names s)

  unfoldable pub upload_release : Run S
  unfolding upload_objects upload_manifest release_output_files
  upload_release = upload_all (release_output_files m.turbo_version)
