-- ===== src/Activation/Sample.antt =====
-- Test data: a v4 release of no documents. Every hash is the same.
use ltsearch.Common.{
  ℕ, String, true, none, some, Option, List, [], ◌∷◌, ◌++◌, map, length, Result, ok, ◌≡◌, refl,
  arith, str_eq, ◌==◌, if◌then◌else◌,
}
use ltsearch.Common.Outcome.{each}
use ltsearch.Common.Words.{zeros, le_bytes}
use ltsearch.Search.{legal}
use ltsearch.Turbo.Codec.{V4CodecMetadata, TurboQuantConfig, prod_v1, from_v4_codec_metadata}
use ltsearch.Turbo.Header.{turbo_magic, from_bytes, from_header, expected_file_size}
use ltsearch.Turbo.Assets.{rotation_to_bytes, qjl_to_bytes, codebook_to_bytes}
use ltsearch.Turbo.Loader.{IndexCodec, load}
use ltsearch.Turbo.MmapIndex.{MmapIndex}
use ltsearch.Turbo.Loader.Sample.{
  rotation, qjl, codebook, rotation_read, codebook_read, qjl_read, no_hash, all_aligned, image,
}
use ltsearch.Turbo.Accessors.{check_utf8}
use ltsearch.Turbo.Release.{ReleaseManifest, v4, OutputFile, sha256_hex, derive_release_id}
use ltsearch.Activation.Verify.{
  release_manifest_file, v4_release_output_files, release_output_files, check_versions,
  check_output, check_outputs, check_provenance, check_profile, check_image, check_codec, mmap_file,
  check_release, verify_release_dir, v4_config_of, same_names, same_config,
}

abbrev pub digest : String
digest = "0000000000000000000000000000000000000000000000000000000000000000"

abbrev pub one_hex : List ℕ → String
one_hex bytes = digest

abbrev image_bytes : List ℕ
image_bytes = turbo_magic ++ le_bytes 4 4 ++ le_bytes 4 512 ++ zeros 8 ++ le_bytes 4 2 ++ zeros 8

-- The bytes of an output.
abbrev pub output_of : String → List ℕ
output_of name =
    if str_eq name "turbo_static.bin"
    then image_bytes
    else if str_eq name "rotation.bin"
    then rotation_to_bytes rotation
    else if str_eq name "codebook.bin"
    then codebook_to_bytes codebook
    else if str_eq name "qjl.bin"
    then qjl_to_bytes qjl
    else []

abbrev pub release_file : String → Option (List ℕ)
release_file name = some (output_of name)

abbrev pub output : String → OutputFile
output name = record { name = name; sha256 = digest; size_bytes = length (output_of name) }

abbrev section : V4CodecMetadata
section = record {
  codec_id = "turbo_quant_prod_v1";
  dim = 512;
  mse_bits = prod_v1.mse_bits;
  qjl_dim = prod_v1.qjl_dim;
  rotation_seed = prod_v1.mse_seed;
  qjl_seed = prod_v1.qjl_seed;
  generator_version = prod_v1.generator_version;
  norm_policy = "normalize_and_store";
}

abbrev pub manifest : ReleaseManifest
manifest = record {
  manifest_schema_version = 1;
  turbo_version = 4;
  release_id = digest;
  source = record {
    kind = "lance";
    dataset_path = "/data/corpus.lance";
    table_version = 1;
    table_row_count = 0;
    corpus_type = legal;
  };
  embedding_profile = record { model_id = "model"; dim = 512 };
  input_fingerprint = record { doc_count = 0; content_digest = digest };
  codec = v4 section;
  outputs = map output v4_release_output_files;
}

abbrev pub parse_manifest : List ℕ → Result String ReleaseManifest
parse_manifest bytes = ok manifest

abbrev pub from_utf8 : List ℕ → Option String
from_utf8 bytes = some ""

same_size : (n : ℕ) → (n == n) ≡ true
same_size n = ground arith

output_fits :
    (read : String → Option (List ℕ)) (name : String)
    → read name ≡ some (output_of name)
    → check_output no_hash one_hex read (output name) ≡ ok tt
unfolding check_output sha256_hex
output_fits read name e = rw (e, same_size (length (output_of name))) refl

versions_fit : check_versions manifest ≡ ok (v4_release_output_files, some prod_v1)
unfolding check_versions v4_config_of from_v4_codec_metadata release_output_files
versions_fit = refl

each_fits :
    (names : List String)
    → each (check_output no_hash one_hex release_file) (map output names) ≡ ok tt
unfolding each
each_fits [] = refl
each_fits (name ∷ names) = rw (output_fits release_file name refl) (each_fits names)

outputs_fit : check_outputs no_hash one_hex release_file v4_release_output_files manifest ≡ ok tt
unfolding check_outputs same_names derive_release_id sha256_hex
outputs_fit = rw (each_fits v4_release_output_files) refl

release_loaded : load no_hash (mmap_file no_hash one_hex release_file) all_aligned ≡ ok image
unfolding load from_bytes from_header expected_file_size
release_loaded = rw (rotation_read, codebook_read, qjl_read) refl

image_fits : check_image no_hash one_hex release_file all_aligned manifest (some prod_v1) ≡ ok image
unfolding check_image check_codec same_config
image_fits = rw release_loaded refl

checked :
    (read : String → Option (List ℕ)) (parse : List ℕ → Result String ReleaseManifest)
    (m : ReleaseManifest) (bytes : List ℕ) (files : List String) (config : Option TurboQuantConfig)
    (index : MmapIndex IndexCodec)
    → read release_manifest_file ≡ some bytes
    → parse bytes ≡ ok m
    → check_versions m ≡ ok (files, config)
    → check_outputs no_hash one_hex read files m ≡ ok tt
    → check_provenance m ≡ ok tt
    → check_profile none none m ≡ ok tt
    → check_image no_hash one_hex read all_aligned m config ≡ ok index
    → check_release no_hash one_hex read parse all_aligned none none ≡ ok (m, index)
unfolding check_release
checked read parse m bytes files config index r p v o s q i = rw (r, p, v, o, s, q, i) refl

provenance_fits : check_provenance manifest ≡ ok tt
unfolding check_provenance
provenance_fits = refl

profile_fits : check_profile none none manifest ≡ ok tt
unfolding check_profile
profile_fits = refl

release_checked :
    check_release no_hash one_hex release_file parse_manifest all_aligned none none
    ≡ ok (manifest, image)
release_checked =
    checked release_file parse_manifest manifest [] v4_release_output_files (some prod_v1) image
      refl refl versions_fit outputs_fit provenance_fits profile_fits image_fits

pub release_verified :
    verify_release_dir no_hash one_hex release_file from_utf8 parse_manifest all_aligned none none
    ≡ some (ok manifest)
unfolding verify_release_dir check_utf8
release_verified = rw release_checked refl
