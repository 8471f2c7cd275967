-- ===== src/Publisher.antt =====
-- src/indexing/publisher.rs: publishing a version and rolling back to one, over the storage contract.
-- `Others` is what other processes do to the storage before each of the publisher's calls.
pub mod Paths
pub mod Advance
mod Tests
use ltsearch.Common.{
  ℕ, zero, suc, ◌+◌, String, Bool, true, false, not, Option, none, some, List, [], ◌∷◌, ◌++◌, map,
  ok, err, Result, ltb, leb, ◌==◌, str_eq, if◌then◌else◌, ◌&&◌, ◌||◌,
}
use ltsearch.Common.Outcome
use ltsearch.Common.Outcome.{guard, map_err, ok_or}
use ltsearch.Common.Signed.{ℤ}
use ltsearch.Common.Text.{is_empty, strip_prefix, split_once}
use ltsearch.Errors.{ValidationError, PublishError, invalid_value, must_be_positive, mismatch}
use ltsearch.Sqlite.{Bytes}
use ltsearch.Manifest.{
  IndexManifest, ShardManifest, validate_manifest, same_manifest, is_plausible_epoch_millis,
}
use ltsearch.Head.{
  ManifestHead, HeadError, Json, index_head_key, version_manifest_key, new_head, from_json,
}
use ltsearch.Storage.{FilePath, VersionedObject, create_only, PublishStorage, etag_of_object}
use Paths.{Disk, s3_key, artifact_source_path, validate_directory_tree_within_root}
use ltsearch.Storage.Calls.{Task, lift, after, ◌>>=◌, ◌>>◌}

pub record PublishRequest : Type 0 where
  pub manifest : IndexManifest
  pub expected_current_version : Option ℕ
  pub updated_at : ℤ

pub record RollbackRequest : Type 0 where
  pub target_version_id : ℕ
  pub expected_current_version : Option ℕ
  pub updated_at : ℤ

pub record PublishResult : Type 0 where
  pub activated_version_id : ℕ
  pub previous_version_id : Option ℕ

pub record Others (S : Type 0) : Type 0 where
  pub before_read : S → S
  pub before_upload : ℕ → S → S
  pub before_swap : S → S
  pub before_observe : S → S

-- A version that may be missing, against one that is asked for.
abbrev pub same_version : Option ℕ → Option ℕ → Bool
same_version none none = true
same_version none (some b) = false
same_version (some a) none = false
same_version (some a) (some b) = a == b

abbrev pub version_of : Option ManifestHead → Option ℕ
version_of none = none
version_of (some h) = some h.version_id

unfoldable pub validate_publish_version : ℕ → Result PublishError (Unit {0})
validate_publish_version v =
    guard (not (v == 0)) (PublishError.validation (must_be_positive "version_id"))

unfoldable pub validate_updated_at : ℤ → Result PublishError (Unit {0})
unfolding is_plausible_epoch_millis
validate_updated_at t =
    guard (is_plausible_epoch_millis t) (PublishError.validation (invalid_value "updated_at"))

abbrev pub head_error : HeadError → PublishError
head_error (HeadError.parse message) =
    PublishError.operation "failed to parse current manifest head"
head_error HeadError.version_must_be_positive = PublishError.validation (invalid_value "version_id")
head_error HeadError.implausible_updated_at = PublishError.validation (invalid_value "updated_at")
head_error (HeadError.manifest_path_mismatch expected) =
    PublishError.validation (mismatch "manifest_path" "version_manifest_key(version_id)")

unfoldable pub parse_head : Json → Bytes → Result PublishError ManifestHead
parse_head json bytes = map_err head_error (from_json json bytes)

-- `object.as_ref().map(parse_head).transpose()?`
unfoldable pub parse_current :
    Json → Option VersionedObject → Result PublishError (Option ManifestHead)
unfolding parse_head
parse_current json none = ok none
parse_current json (some o) = Outcome.◌>>=◌ (parse_head json o.bytes) (λ h. ok (some h))

-- `validate_manifest_file_matches_request`; `IndexManifest`'s equality is derived.
unfoldable pub validate_manifest_file :
    Json → Disk → FilePath → IndexManifest → Result PublishError (Unit {0})
validate_manifest_file json disk path expected =
    Outcome.◌>>=◌
      (map_err (λ _. PublishError.operation "failed to read manifest source") (disk.read_file path))
      λ bytes.
        Outcome.◌>>=◌
          (map_err (λ _. PublishError.operation "failed to parse manifest source")
            (json.parse_manifest bytes))
          λ manifest.
            guard (same_manifest manifest expected)
              (PublishError.operation "manifest source does not match publish request manifest")

pub record DirectoryUpload : Type 0 where
  pub key : String
  pub source : FilePath

-- A walk without an end does not return; here it is an error of its own.
abbrev ended : Option (Result PublishError (Unit {0})) → Result PublishError (Unit {0})
ended none = err (PublishError.operation "the walk has not ended")
ended (some r) = r

unfoldable pub prepare_shard : ℕ → Disk → ShardManifest → Result PublishError (List DirectoryUpload)
prepare_shard fuel disk shard = Outcome.◌>>=◌ (s3_key shard.lance_path) λ lance_key.
    Outcome.◌>>=◌ (s3_key shard.tantivy_path) λ tantivy_key.
      Outcome.◌>>=◌ (artifact_source_path disk lance_key) λ lance_source.
        Outcome.◌>>=◌ (artifact_source_path disk tantivy_key) λ tantivy_source.
          Outcome.◌>>=◌ (ended (validate_directory_tree_within_root fuel disk lance_source)) λ _.
            Outcome.◌>>=◌ (ended (validate_directory_tree_within_root fuel disk tantivy_source))
              λ _. ok (
                (record { key = lance_key; source = lance_source })
                ∷ (record { key = tantivy_key; source = tantivy_source })
                ∷ [])

pub prepare_uploads : ℕ → Disk → List ShardManifest → Result PublishError (List DirectoryUpload)
unfolding prepare_shard
prepare_uploads fuel disk [] = ok []
prepare_uploads fuel disk (shard ∷ shards) =
    Outcome.◌>>=◌ (prepare_shard fuel disk shard)
      λ first. Outcome.◌>>=◌ (prepare_uploads fuel disk shards) λ rest. ok (first ++ rest)

-- `Some(v)`: the active version must be `v`. `None`: any, or none.
abbrev pub as_expected : Option ℕ → Option ManifestHead → Bool
as_expected none current = true
as_expected (some v) current = same_version (version_of current) (some v)

abbrev pub newer_than : ℕ → Option ManifestHead → Bool
newer_than v none = true
newer_than v (some h) = ltb h.version_id v

module _ {S : Type 0} (storage : PublishStorage S) (json : Json) (disk : Disk) (fuel : ℕ) where
  pub read_head : Task S (Option VersionedObject)
  read_head s = (storage.read index_head_key s, s)

  pub observed_head_version : Task S (Option ℕ)
  unfolding read_head
  observed_head_version = do
    object ← read_head
    current ← lift (parse_current json object)
    lift (ok (version_of current))

  -- `for upload in &directory_uploads { upload_directory(…, CreateOnly).await?; }`
  pub upload_all : (ℕ → S → S) → ℕ → List DirectoryUpload → Task S ℕ
  upload_all others n [] = lift (ok n)
  upload_all others n (u ∷ rest) = do
    after (others n) (storage.upload_directory u.key u.source create_only)
    upload_all others (suc n) rest

  -- A refused swap means that another process won.
  pub conclude_swap : Others S → PublishResult → String → Bool → Task S PublishResult
  unfolding observed_head_version
  conclude_swap others result conflict true = lift (ok result)
  conclude_swap others result conflict false = do
    observed ← after others.before_observe observed_head_version
    lift (err (PublishError.operation conflict))

  pub swap_head :
      Others S → Option VersionedObject → Bytes → PublishResult → String → Task S PublishResult
  unfolding conclude_swap
  swap_head others object bytes result conflict = do
    swapped ←
        after others.before_swap
          (storage.compare_and_swap index_head_key (etag_of_object object) bytes)
    conclude_swap others result conflict swapped

  unfoldable pub publish : Others S → PublishRequest → Task S PublishResult
  unfolding read_head upload_all swap_head
  publish others request = do
    lift (map_err PublishError.validation (validate_manifest request.manifest))
    lift (validate_updated_at request.updated_at)
    object ← after others.before_read read_head
    current ← lift (parse_current json object)
    let version = request.manifest.version_id
    lift (validate_publish_version version)
    lift (
        guard (as_expected request.expected_current_version current)
          (PublishError.operation "publish conflict: expected current version"))
    lift (
        guard (newer_than version current) (
          PublishError.operation
            "publish conflict: version_id must be greater than active version"))
    let manifest_key = version_manifest_key version
    source ← lift (artifact_source_path disk manifest_key)
    lift (validate_manifest_file json disk source request.manifest)
    uploads ← lift (prepare_uploads fuel disk request.manifest.shards)
    n ← upload_all others.before_upload 0 uploads
    after (others.before_upload n) (storage.upload_file manifest_key source create_only)
    swap_head others object (json.print_head (new_head version request.updated_at))
        (record { activated_version_id = version; previous_version_id = version_of current })
        "publish conflict: active version changed during _head update"

  -- `validate_stored_manifest`
  pub validate_stored_manifest : Bytes → ℕ → Result PublishError (Unit {0})
  validate_stored_manifest bytes expected =
      Outcome.◌>>=◌
        (map_err (λ _. PublishError.operation "failed to parse stored manifest")
          (json.parse_manifest bytes))
        λ manifest.
          Outcome.◌>>=◌ (map_err PublishError.validation (validate_manifest manifest)) λ _.
            guard (manifest.version_id == expected)
              (PublishError.operation "stored manifest does not match rollback target version")

  unfoldable pub rollback : Others S → RollbackRequest → Task S PublishResult
  unfolding read_head swap_head validate_stored_manifest
  rollback others request = do
    lift (validate_publish_version request.target_version_id)
    lift (validate_updated_at request.updated_at)
    object ← after others.before_read read_head
    current ← lift (parse_current json object)
    lift (
        guard (same_version (version_of current) request.expected_current_version)
          (PublishError.operation "rollback conflict: expected current version"))
    let target = version_manifest_key request.target_version_id
    found ← after (others.before_upload 0) (λ s. (storage.read target s, s))
    stored ← lift (ok_or found (PublishError.operation "rollback target manifest missing"))
    lift (validate_stored_manifest stored.bytes request.target_version_id)
    swap_head others object
        (json.print_head (new_head request.target_version_id request.updated_at))
        (record {
          activated_version_id = request.target_version_id;
          previous_version_id = version_of current;
        })
        "rollback conflict: active version changed during _head update"
