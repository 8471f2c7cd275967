-- ===== src/Stores.antt =====
-- The read side of the two pointers: src/storage/manifest_store.rs, static_head.rs and
-- static_release_store.rs, and their SQLite versions in src/local/sqlite/. The file system is a
-- parameter: what a read of the path below the root returns.
pub mod Active
mod Tests
use Prim.Native.Char.{code}
use Prim.Native.String as Text
use Prim.Native.String.{◌++◌}
use ltsearch.Common.{
  ℕ, String, Bool, true, false, not, Option, none, some, ok, err, Result, str_eq, ltb, leb, ◌==◌,
  ◌&&◌, ◌||◌, if◌then◌else◌,
}
use ltsearch.Common.Outcome.{guard, map_err, ok_or, ◌>>=◌, ◌>>◌}
use ltsearch.Common.Signed.{ℤ}
use ltsearch.Common.Text.{byte_len}
use ltsearch.Sqlite.{Bytes, Db}
use ltsearch.Manifest.{IndexManifest, is_plausible_epoch_millis, validate_manifest}
use ltsearch.Head.{ManifestHead, HeadError, Json, from_json, index_head_key, static_head_key}
use ltsearch.LocalPublish.{FileError, not_found, other_error}

pub record ActiveManifest : Type 0 where
  pub head : ManifestHead
  pub manifest : IndexManifest

pub data ManifestStoreError : Type 0 where
  missing_head : String → ManifestStoreError
  missing_manifest : String → ManifestStoreError
  invalid_head : String → ManifestStoreError
  invalid_manifest : String → String → ManifestStoreError
  io : String → FileError → ManifestStoreError

abbrev head_message : HeadError → String
head_message (HeadError.parse message) = message
head_message HeadError.version_must_be_positive = "version_id must be positive"
head_message HeadError.implausible_updated_at = "updated_at must be a plausible epoch millis value"
head_message (HeadError.manifest_path_mismatch expected) = "manifest_path must match version_id"

abbrev read_error : String → Bool → FileError → ManifestStoreError
read_error path is_head not_found = if is_head then missing_head path else missing_manifest path
read_error path is_head other_error = io path other_error

module _ (json : Json) where
  unfoldable pub head_of_bytes : Bytes → Result ManifestStoreError ManifestHead
  unfolding from_json
  head_of_bytes bytes = map_err (λ e. invalid_head (head_message e)) (from_json json bytes)

  -- `SqliteManifestStore::load_head`; `fails` where the statement fails
  unfoldable pub sqlite_load_head : Bool → Db → Result ManifestStoreError ManifestHead
  unfolding head_of_bytes
  sqlite_load_head fails db = do
    guard (not fails) (invalid_head "failed to read active head")
    bytes ← ok_or db.active_head (missing_head index_head_key)
    head_of_bytes bytes

  module _ (read : String → Result FileError Bytes) where
    unfoldable pub read_to_string : String → Bool → Result ManifestStoreError Bytes
    read_to_string path is_head = map_err (read_error path is_head) (read path)

    -- `LocalManifestStore::load_head`
    unfoldable pub local_load_head : Result ManifestStoreError ManifestHead
    unfolding read_to_string head_of_bytes
    local_load_head = do contents ← read_to_string index_head_key true; head_of_bytes contents

    -- `load_active_manifest` of both stores, after `load_head`
    unfoldable pub load_active_manifest :
        Result ManifestStoreError ManifestHead → Result ManifestStoreError ActiveManifest
    unfolding read_to_string validate_manifest
    load_active_manifest load_head = do
      head ← load_head
      contents ← read_to_string head.manifest_path false
      manifest ← map_err (invalid_manifest head.manifest_path) (json.parse_manifest contents)
      map_err (λ e. invalid_manifest head.manifest_path "invalid") (validate_manifest manifest)
      guard (manifest.version_id == head.version_id)
          (invalid_manifest head.manifest_path "manifest version_id must match _head version_id")
      ok (record { head = head; manifest = manifest })

-- `load_active_version`
abbrev pub load_active_version :
    Result ManifestStoreError ManifestHead → Result ManifestStoreError ℕ
load_active_version (ok head) = ok head.version_id
load_active_version (err e) = err e

pub record StaticReleaseHead : Type 0 where
  pub release_id : String
  pub manifest_path : String
  pub updated_at : ℤ

pub data StaticHeadError : Type 0 where
  parse : String → StaticHeadError
  invalid_release_id : StaticHeadError
  implausible_updated_at : StaticHeadError
  manifest_path_mismatch : String → StaticHeadError

pub data StaticReleaseStoreError : Type 0 where
  invalid : String → StaticReleaseStoreError
  io : String → FileError → StaticReleaseStoreError

unfoldable pub static_release_manifest_key : String → String
static_release_manifest_key release_id =
    "static/releases/" ++ (release_id ++ "/release_manifest.json")

-- `StaticReleaseHead::new`
unfoldable pub new_static_head : String → ℤ → StaticReleaseHead
unfolding static_release_manifest_key
new_static_head release_id updated_at = record {
  release_id = release_id;
  manifest_path = static_release_manifest_key release_id;
  updated_at = updated_at;
}

unfoldable pub all_hex : String → Bool
all_hex Text.[] = true
all_hex (Text.◌∷◌ c s) =
    let n = code c in (leb 48 n && leb n 57 || leb 97 n && leb n 102) && all_hex s

unfoldable pub is_release_id : String → Bool
unfolding all_hex byte_len
is_release_id release_id = byte_len release_id == 64 && all_hex release_id

unfoldable pub validate_static_head : StaticReleaseHead → Result StaticHeadError (Unit {0})
unfolding is_release_id is_plausible_epoch_millis static_release_manifest_key
validate_static_head h = do
  guard (is_release_id h.release_id) invalid_release_id
  guard (is_plausible_epoch_millis h.updated_at) StaticHeadError.implausible_updated_at
  guard (str_eq h.manifest_path (static_release_manifest_key h.release_id))
      (StaticHeadError.manifest_path_mismatch (static_release_manifest_key h.release_id))

abbrev static_head_message : StaticHeadError → String
static_head_message (StaticHeadError.parse message) = message
static_head_message invalid_release_id = "release_id must be exactly 64 lowercase hex characters"
static_head_message StaticHeadError.implausible_updated_at =
    "updated_at must be a plausible epoch millis value"
static_head_message (StaticHeadError.manifest_path_mismatch expected) =
    "manifest_path must match release_id"

module _ (parse_static : Bytes → Result String StaticReleaseHead) where
  unfoldable pub static_from_json : Bytes → Result StaticHeadError StaticReleaseHead
  unfolding validate_static_head
  static_from_json bytes = do
    head ← map_err StaticHeadError.parse (parse_static bytes)
    validate_static_head head
    ok head

  unfoldable pub static_of_bytes : Bytes → Result StaticReleaseStoreError (Option StaticReleaseHead)
  unfolding static_from_json
  static_of_bytes bytes = do
    head ← map_err (λ e. invalid (static_head_message e)) (static_from_json bytes)
    ok (some head)

  abbrev after_read :
      Result FileError Bytes → Result StaticReleaseStoreError (Option StaticReleaseHead)
  after_read (ok bytes) = static_of_bytes bytes
  after_read (err not_found) = ok none
  after_read (err other_error) = err (StaticReleaseStoreError.io static_head_key other_error)

  -- `LocalStaticReleaseStore::load_active_release`
  unfoldable pub local_load_active_release :
      (String → Result FileError Bytes) → Result StaticReleaseStoreError (Option StaticReleaseHead)
  unfolding static_of_bytes
  local_load_active_release read = after_read (read static_head_key)

  abbrev of_row : Option Bytes → Result StaticReleaseStoreError (Option StaticReleaseHead)
  of_row none = ok none
  of_row (some bytes) = static_of_bytes bytes

  -- `SqliteStaticReleaseStore::load_active_release`
  unfoldable pub sqlite_load_active_release :
      Bool → Db → Result StaticReleaseStoreError (Option StaticReleaseHead)
  unfolding static_of_bytes
  sqlite_load_active_release fails db =
      guard (not fails) (invalid "failed to read static release head")
      >> of_row db.static_release_head
