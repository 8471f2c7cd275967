-- ===== src/Manifest.antt =====
-- src/models/index.rs: index manifests and their validation.
use ltsearch.Common.{
  ℕ, ◌+◌, ◌%◌, ◌^◌, String, Bool, not, Option, none, some, List, [], ◌∷◌, length, err, Result, ◌==◌,
  ◌||◌, ◌&&◌, true, false, str_eq,
}
use ltsearch.Common.Outcome.{guard, each, ok_or, ◌>>=◌, ◌>>◌}
use ltsearch.Common.Signed.{ℤ, at_least, same_signed}
use ltsearch.Common.Text.{is_empty, strip_prefix, split_once}
use ltsearch.Errors.{ValidationError, invalid_value, must_be_positive, mismatch}

abbrev pub min_plausible_epoch_millis : ℕ
min_plausible_epoch_millis = 1_000_000_000_000

unfoldable pub is_plausible_epoch_millis : ℤ → Bool
is_plausible_epoch_millis value = at_least min_plausible_epoch_millis value

pub record ShardManifest : Type 0 where
  pub shard_id : ℕ
  pub document_count : ℕ
  pub lance_path : String
  pub tantivy_path : String

pub record IndexManifest : Type 0 where
  pub version_id : ℕ
  pub created_at : ℤ
  pub embedding_dim : ℕ
  pub document_count : ℕ
  pub num_shards : ℕ
  pub shards : List ShardManifest

-- `sum()` on `usize`, which wraps around in a release build.
unfoldable pub total_documents : List ShardManifest → ℕ
total_documents [] = 0
total_documents (s ∷ rest) = (s.document_count + total_documents rest) % 2 ^ 64

-- The bucket and the key after `s3://`, where both are there.
abbrev bucket_and_key : String → Option (String × String) → Result ValidationError (Unit {0})
bucket_and_key field none = err (invalid_value field)
bucket_and_key field (some (bucket, key)) =
    guard (not (is_empty bucket || is_empty key)) (invalid_value field)

unfoldable pub validate_s3_uri : String → String → Result ValidationError (Unit {0})
validate_s3_uri value field = do
  suffix ← ok_or (strip_prefix "s3://" value) (invalid_value field)
  bucket_and_key field (split_once b'/' suffix)

abbrev pub validate_shard : ShardManifest → Result ValidationError (Unit {0})
validate_shard s = do
  validate_s3_uri s.lance_path "lance_path"
  validate_s3_uri s.tantivy_path "tantivy_path"

unfoldable pub validate_manifest : IndexManifest → Result ValidationError (Unit {0})
unfolding is_plausible_epoch_millis
validate_manifest m = do
  guard (not (m.num_shards == 0)) (must_be_positive "num_shards")
  guard (not (m.embedding_dim == 0)) (must_be_positive "embedding_dim")
  guard (is_plausible_epoch_millis m.created_at) (invalid_value "created_at")
  guard (length m.shards == m.num_shards) (mismatch "shards" "len(shards) == num_shards")
  guard (total_documents m.shards == m.document_count)
      (mismatch "document_count" "sum(shard.document_count)")
  each validate_shard m.shards

-- The derived equality of manifests.
abbrev same_shard : ShardManifest → ShardManifest → Bool
same_shard a b =
    a.shard_id == b.shard_id
    && a.document_count == b.document_count
    && str_eq a.lance_path b.lance_path
    && str_eq a.tantivy_path b.tantivy_path

same_shards : List ShardManifest → List ShardManifest → Bool
same_shards [] [] = true
same_shards (a ∷ as') (b ∷ bs) = same_shard a b && same_shards as' bs
same_shards _ _ = false

unfoldable pub same_manifest : IndexManifest → IndexManifest → Bool
unfolding same_shards
same_manifest a b =
    a.version_id == b.version_id
    && same_signed a.created_at b.created_at
    && a.embedding_dim == b.embedding_dim
    && a.document_count == b.document_count
    && a.num_shards == b.num_shards
    && same_shards a.shards b.shards
