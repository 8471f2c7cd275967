-- ===== src/Activation/Verify.antt =====
-- `verify_release_dir` of src/indexing/static_publisher.rs, with the file lists of
-- src/index/static_release.rs. The directory is what a read of a file in it returns; it does not change
-- while it is verified. A panic is `none`.
pub mod Codecs
pub mod Checked
pub mod Accepted
pub mod Exact
pub mod Same
use ltsearch.Common.{
  ℕ, String, Bool, true, false, not, Option, none, some, List, [], ◌∷◌, map, length, Result, ok,
  err, str_eq, ◌==◌, ◌&&◌, if◌then◌else◌,
}
use ltsearch.Common.Outcome.{guard, map_err, ok_or, each, ◌>>=◌, ◌>>◌}
use ltsearch.Common.Text.{is_empty}
use ltsearch.BuildWorker.{sort_keys}
use ltsearch.Turbo.Codec.{
  TurboQuantConfig, CodecMetadata, legacy_v1, to_v3_codec_metadata, from_v4_codec_metadata,
  same_codec, same_policy,
}
use ltsearch.Turbo.Header.{TurboHeader}
use ltsearch.Turbo.MmapIndex.{MmapIndex, MmapIndexError}
use ltsearch.Turbo.Loader.{IndexCodec, legacy, prod, load}
use ltsearch.Turbo.Accessors.{check_utf8}
use ltsearch.Turbo.Release.{
  ReleaseManifest, ManifestCodec, v3, v4, OutputFile, codec_dim, codec_turbo_version, sha256_hex,
  derive_release_id,
}
use ltsearch.Activation.{StaticActivateError, verify}

abbrev pub release_manifest_file : String
release_manifest_file = "release_manifest.json"

abbrev pub v3_release_output_files : List String
v3_release_output_files =
    "centroids.bin" ∷ "projection.bin" ∷ "turbo_static.bin" ∷ "turbo_static_docid.bin"
    ∷ "turbo_static_meta.bin" ∷ "turbo_static_meta_ext.bin" ∷ "turbo_static_meta_json.bin"
    ∷ "turbo_static_text.bin" ∷ "turbo_static_title.bin" ∷ []

abbrev pub v4_release_output_files : List String
v4_release_output_files =
    "codebook.bin" ∷ "qjl.bin" ∷ "rotation.bin" ∷ "turbo_static.bin" ∷ "turbo_static_docid.bin"
    ∷ "turbo_static_meta.bin" ∷ "turbo_static_meta_ext.bin" ∷ "turbo_static_meta_json.bin"
    ∷ "turbo_static_text.bin" ∷ "turbo_static_title.bin" ∷ []

unfoldable pub release_output_files : ℕ → Option (List String)
release_output_files turbo_version =
    if turbo_version == 3
    then some v3_release_output_files
    else if turbo_version == 4
    then some v4_release_output_files
    else none

-- The derived equalities.
abbrev same_count : Option ℕ → Option ℕ → Bool
same_count none none = true
same_count (some a) (some b) = a == b
same_count _ _ = false

unfoldable pub same_metadata : CodecMetadata → CodecMetadata → Bool
same_metadata a b =
    a.dim == b.dim
    && same_count a.centroids_per_dim b.centroids_per_dim
    && a.centroids_seed == b.centroids_seed
    && a.projection_seed == b.projection_seed

unfoldable pub same_config : TurboQuantConfig → TurboQuantConfig → Bool
same_config a b =
    same_codec a.codec_id b.codec_id
    && a.dim == b.dim
    && a.mse_bits == b.mse_bits
    && a.qjl_dim == b.qjl_dim
    && a.mse_seed == b.mse_seed
    && a.qjl_seed == b.qjl_seed
    && a.generator_version == b.generator_version
    && same_policy a.norm_policy b.norm_policy

unfoldable pub same_names : List String → List String → Bool
same_names [] [] = true
same_names (a ∷ names) (b ∷ others) = str_eq a b && same_names names others
same_names _ _ = false

-- The configuration that a v4 section stands for.
unfoldable pub v4_config_of : ManifestCodec → Result StaticActivateError (Option TurboQuantConfig)
unfolding to_v3_codec_metadata from_v4_codec_metadata same_metadata
v4_config_of (v3 codec) = do
  legacy_section ←
      map_err (λ e. verify "invalid legacy codec config") (to_v3_codec_metadata legacy_v1)
  guard (same_metadata codec legacy_section) (verify "v3 codec section is not the legacy codec")
  ok none
v4_config_of (v4 codec) = do
  config ← map_err (λ e. verify "invalid codec section") (from_v4_codec_metadata codec)
  ok (some config)

abbrev pub names_of : List OutputFile → List String
names_of outputs = map (λ (o : OutputFile). o.name) outputs

-- A wrong order and a wrong set are told apart.
abbrev names_error : List String → List String → StaticActivateError
names_error actual expected =
    if same_names (sort_keys actual) expected
    then verify "outputs not name-ascending"
    else verify "outputs must list exactly the artifact files"

abbrev expected_is : Option String → String → Bool
expected_is none actual = true
expected_is (some expected) actual = str_eq actual expected

abbrev dim_is : Option ℕ → ℕ → Bool
dim_is none actual = true
dim_is (some expected) actual = actual == expected

-- Step 2: the versions and the codec section.
unfoldable pub check_versions :
    ReleaseManifest → Result StaticActivateError (List String × Option TurboQuantConfig)
unfolding release_output_files codec_turbo_version v4_config_of
check_versions m = do
  guard (m.manifest_schema_version == 1) (verify "manifest_schema_version")
  expected_files ← ok_or (release_output_files m.turbo_version) (verify "turbo_version")
  guard (codec_turbo_version m.codec == m.turbo_version) (verify "codec section")
  v4_config ← v4_config_of m.codec
  ok (expected_files, v4_config)

-- Step 5: where the release comes from.
unfoldable pub check_provenance : ReleaseManifest → Result StaticActivateError (Unit {0})
check_provenance m = do
  guard (str_eq m.source.kind "lance") (verify "source.kind")
  guard (not (is_empty m.source.dataset_path)) (verify "source.dataset_path is empty")
  guard (not (m.source.table_version == 0)) (verify "source.table_version must be > 0")
  guard (m.source.table_row_count == m.input_fingerprint.doc_count)
      (verify "source.table_row_count")

-- Step 6: the embedding profile, against the codec and against what the caller expects.
unfoldable pub check_profile :
    Option String → Option ℕ → ReleaseManifest → Result StaticActivateError (Unit {0})
unfolding codec_dim
check_profile expect_model_id expect_dim m = do
  guard (m.embedding_profile.dim == 512) (verify "embedding_profile.dim")
  guard (codec_dim m.codec == 512) (verify "codec.dim")
  guard (not (is_empty m.embedding_profile.model_id)) (verify "embedding_profile.model_id is empty")
  guard (expected_is expect_model_id m.embedding_profile.model_id)
      (verify "embedding_profile.model_id != expected")
  guard (dim_is expect_dim m.embedding_profile.dim) (verify "embedding_profile.dim != expected")

-- Step 7: the codec of the image, against that of the manifest.
unfoldable pub check_codec :
    Option TurboQuantConfig → IndexCodec → Result StaticActivateError (Unit {0})
unfolding same_config
check_codec none codec = ok tt
check_codec (some expected) (prod codec) =
    guard (same_config codec.config expected) (verify "manifest codec != the loaded assets' codec")
check_codec (some expected) (legacy centroids projection) =
    err (verify "manifest records a v4 codec but the image loaded with the legacy codec")

module _ (sha256 : List ℕ → List ℕ) (hex_encode : List ℕ → String)
    (read : String → Option (List ℕ)) where
  -- Step 3b: an output's size and hash.
  unfoldable pub check_output : OutputFile → Result StaticActivateError (Unit {0})
  unfolding sha256_hex
  check_output o = do
    bytes ← ok_or (read o.name) (verify "failed to read output")
    guard (length bytes == o.size_bytes) (verify "size mismatch")
    guard (str_eq (sha256_hex sha256 hex_encode bytes) o.sha256) (verify "sha256 mismatch")

  -- Steps 3 and 4.
  unfoldable pub check_outputs :
      List String → ReleaseManifest → Result StaticActivateError (Unit {0})
  unfolding same_names check_output derive_release_id
  check_outputs expected_files m = do
    guard (same_names (names_of m.outputs) expected_files)
        (names_error (names_of m.outputs) expected_files)
    each check_output m.outputs
    guard
        (str_eq
          (derive_release_id sha256 hex_encode m.turbo_version m.embedding_profile m.codec
            m.input_fingerprint.content_digest m.outputs)
          m.release_id)
        (verify "release_id mismatch")

  abbrev pub mmap_file : String → Result MmapIndexError (List ℕ)
  mmap_file name = ok_or (read name) (MmapIndexError.io name)

  unfoldable pub check_image :
      (String → Bool)
      → ReleaseManifest
      → Option TurboQuantConfig
      → Result StaticActivateError (MmapIndex IndexCodec)
  unfolding load check_codec
  check_image is_aligned m v4_config = do
    index ← map_err (λ e. verify "MmapIndex::load failed") (load sha256 mmap_file is_aligned)
    guard (index.header.version == m.turbo_version) (verify "loaded image version")
    check_codec v4_config index.codec
    guard (index.header.record_count == m.source.table_row_count) (verify "loaded record_count")
    ok index

  -- Everything but the texts.
  unfoldable pub check_release :
      (List ℕ → Result String ReleaseManifest)
      → (String → Bool)
      → Option String
      → Option ℕ
      → Result StaticActivateError (ReleaseManifest × MmapIndex IndexCodec)
  unfolding check_versions check_outputs check_provenance check_profile check_image
  check_release parse_manifest is_aligned expect_model_id expect_dim = do
    manifest_bytes ← ok_or (read release_manifest_file) (verify "failed to read release manifest")
    m ← map_err (λ e. verify "failed to parse release manifest") (parse_manifest manifest_bytes)
    expected ← check_versions m
    check_outputs expected.0 m
    check_provenance m
    check_profile expect_model_id expect_dim m
    index ← check_image is_aligned m expected.1
    ok (m, index)

  abbrev after_texts :
      ReleaseManifest
      → Option (Result MmapIndexError (Unit {0}))
      → Option (Result StaticActivateError ReleaseManifest)
  after_texts m none = none
  after_texts m (some (err e)) = some (err (verify "MmapIndex::check_utf8 failed"))
  after_texts m (some (ok u)) = some (ok m)

  abbrev checked_texts :
      (List ℕ → Option String)
      → Result StaticActivateError (ReleaseManifest × MmapIndex IndexCodec)
      → Option (Result StaticActivateError ReleaseManifest)
  checked_texts from_utf8 (err e) = some (err e)
  checked_texts from_utf8 (ok (m, index)) = after_texts m (check_utf8 from_utf8 index)

  unfoldable pub verify_release_dir :
      (List ℕ → Option String)
      → (List ℕ → Result String ReleaseManifest)
      → (String → Bool)
      → Option String
      → Option ℕ
      → Option (Result StaticActivateError ReleaseManifest)
  unfolding check_release check_utf8
  verify_release_dir from_utf8 parse_manifest is_aligned expect_model_id expect_dim =
      checked_texts from_utf8 (check_release parse_manifest is_aligned expect_model_id expect_dim)
