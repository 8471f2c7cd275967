-- ===== src/Turbo/Loader.antt =====
-- src/index/mmap_index.rs: the codec of an index from its asset files, and `load` whole. SHA-256 and
-- the disk are parameters.
pub mod Paired
pub mod Sample
mod Tests
use ltsearch.Common.{
  ℕ, Bool, String, Option, none, some, List, [], ◌∷◌, Result, ok, err, ◌==◌, if◌then◌else◌,
}
use ltsearch.Common.Outcome.{guard, map_err, ◌>>=◌, ◌>>◌}
use ltsearch.Common.Words.{same_bytes, zeros}
use ltsearch.Turbo.Codec.{TurboQuantConfig, turbo_quant_prod_v1, normalize_and_store}
use ltsearch.Turbo.Fingerprint.{Asset, fingerprint}
use ltsearch.Turbo.Header.{
  TurboHeader, KnownRecordLayout, v2_dim_512, v3_dim_512, v4_dim_512, codec_fingerprint,
}
use ltsearch.Turbo.Record.{holds_codes_of, idx_len, signs_len}
use ltsearch.Turbo.Assets.{
  CentroidTable, ProjectionMatrix, Rotation, QjlMatrix, LloydMaxCodebook, centroids_from_bytes,
  projection_from_bytes, rotation_from_bytes, qjl_from_bytes, codebook_from_bytes,
}
use ltsearch.Turbo.ProdCodec.{TurboQuantProdV1, from_assets}
use ltsearch.Turbo.MmapIndex.{
  MmapIndex, MmapIndexError, asset, asset_dimension_mismatch, unsupported_legacy_asset,
  unsupported_code_layout, codec_fingerprint_mismatch, load_image,
}

pub data IndexCodec : Type 0 where
  legacy : CentroidTable → ProjectionMatrix → IndexCodec
  prod : TurboQuantProdV1 → IndexCodec

-- The configuration that the assets of a v4 image name.
abbrev pub config_of_assets :
    TurboHeader → Rotation → LloydMaxCodebook → QjlMatrix → TurboQuantConfig
config_of_assets h rotation codebook qjl = record {
  codec_id = turbo_quant_prod_v1;
  dim = h.dim;
  mse_bits = codebook.bits;
  qjl_dim = qjl.qjl_dim;
  mse_seed = rotation.seed;
  qjl_seed = qjl.seed;
  generator_version = rotation.generator_version;
  norm_policy = normalize_and_store;
}

-- `as_bytes` of the names of the three assets of a v4 image
abbrev pub rotation_file : List ℕ
rotation_file =
    b'r' ∷ b'o' ∷ b't' ∷ b'a' ∷ b't' ∷ b'i' ∷ b'o' ∷ b'n' ∷ b'.' ∷ b'b' ∷ b'i' ∷ b'n' ∷ []

abbrev pub codebook_file : List ℕ
codebook_file =
    b'c' ∷ b'o' ∷ b'd' ∷ b'e' ∷ b'b' ∷ b'o' ∷ b'o' ∷ b'k' ∷ b'.' ∷ b'b' ∷ b'i' ∷ b'n' ∷ []

abbrev pub qjl_file : List ℕ
qjl_file = b'q' ∷ b'j' ∷ b'l' ∷ b'.' ∷ b'b' ∷ b'i' ∷ b'n' ∷ []

abbrev pub asset_files : List ℕ → List ℕ → List ℕ → List Asset
asset_files rotation codebook qjl =
    (rotation_file, rotation) ∷ (codebook_file, codebook) ∷ (qjl_file, qjl) ∷ []

-- The match on the header's fingerprint.
abbrev same_fingerprint :
    Option (List ℕ) → List ℕ → TurboQuantProdV1 → Result MmapIndexError IndexCodec
same_fingerprint none actual c = err (codec_fingerprint_mismatch (zeros 8) actual)
same_fingerprint (some expected) actual c =
    if same_bytes expected actual
    then ok (prod c)
    else err (codec_fingerprint_mismatch expected actual)

module _ (sha256 : List ℕ → List ℕ) (mmap_file : String → Result MmapIndexError (List ℕ)) where
  unfoldable pub load_legacy_codec : TurboHeader → Result MmapIndexError IndexCodec
  unfolding centroids_from_bytes projection_from_bytes
  load_legacy_codec h = do
    centroids_mmap ← mmap_file "centroids.bin"
    projection_mmap ← mmap_file "projection.bin"
    centroids ← map_err (asset "centroids.bin") (centroids_from_bytes centroids_mmap)
    guard (centroids.dim == h.dim) (asset_dimension_mismatch "centroids.bin" h.dim centroids.dim)
    guard (centroids.centroids_per_dim == 4)
        (unsupported_legacy_asset "centroids.bin" "centroids_per_dim" 4 centroids.centroids_per_dim)
    projection ← map_err (asset "projection.bin") (projection_from_bytes projection_mmap)
    guard (projection.input_dim == h.dim)
        (asset_dimension_mismatch "projection.bin" h.dim projection.input_dim)
    guard (projection.output_dim == h.dim)
        (asset_dimension_mismatch "projection.bin" h.dim projection.output_dim)
    ok (legacy centroids projection)

  unfoldable pub load_prod_codec : TurboHeader → Result MmapIndexError IndexCodec
  unfolding rotation_from_bytes codebook_from_bytes qjl_from_bytes from_assets holds_codes_of
      fingerprint codec_fingerprint
  load_prod_codec h = do
    rotation_mmap ← mmap_file "rotation.bin"
    codebook_mmap ← mmap_file "codebook.bin"
    qjl_mmap ← mmap_file "qjl.bin"
    rotation ← map_err (asset "rotation.bin") (rotation_from_bytes rotation_mmap)
    codebook ← map_err (asset "codebook.bin") (codebook_from_bytes codebook_mmap)
    qjl ← map_err (asset "qjl.bin") (qjl_from_bytes qjl_mmap)
    assembled ←
        map_err MmapIndexError.codec
          (from_assets (config_of_assets h rotation codebook qjl) rotation codebook qjl)
    guard (holds_codes_of assembled.config)
        (unsupported_code_layout (idx_len assembled.config) (signs_len assembled.config))
    same_fingerprint (codec_fingerprint h)
        (fingerprint sha256 (config_of_assets h rotation codebook qjl)
          (asset_files rotation_mmap codebook_mmap qjl_mmap))
        assembled

  unfoldable pub load_codec : KnownRecordLayout → TurboHeader → Result MmapIndexError IndexCodec
  unfolding load_legacy_codec load_prod_codec
  load_codec v2_dim_512 h = load_legacy_codec h
  load_codec v3_dim_512 h = load_legacy_codec h
  load_codec v4_dim_512 h = load_prod_codec h

  unfoldable pub load : (String → Bool) → Result MmapIndexError (MmapIndex IndexCodec)
  unfolding load_image load_codec
  load is_aligned = load_image mmap_file is_aligned load_codec
