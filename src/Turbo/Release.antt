-- ===== src/Turbo/Release.antt =====
-- src/index/release_manifest.rs: the manifest of a static release, and the identifier that is derived
-- from its contents. SHA-256 and `hex::encode` are parameters.
pub mod Framing
pub mod Identity
pub mod Rows
mod Tests
use ltsearch.Common.{
  ℕ, String, Bool, true, false, Option, none, some, List, [], ◌∷◌, ◌++◌, length, if◌then◌else◌, map,
}
use ltsearch.Common.Utf8.{as_bytes}
use ltsearch.Common.Words.{le_bytes}
use ltsearch.Search.{CorpusType}
use ltsearch.Query.Ranker.{str_less}
use ltsearch.Turbo.Codec.{CodecMetadata, V4CodecMetadata}

pub record ReleaseSource : Type 0 where
  pub kind : String
  pub dataset_path : String
  pub table_version : ℕ
  pub table_row_count : ℕ
  pub corpus_type : CorpusType

pub record EmbeddingProfile : Type 0 where
  pub model_id : String
  pub dim : ℕ

pub record InputFingerprint : Type 0 where
  pub doc_count : ℕ
  pub content_digest : String

pub data ManifestCodec : Type 0 where
  v4 : V4CodecMetadata → ManifestCodec
  v3 : CodecMetadata → ManifestCodec

pub record OutputFile : Type 0 where
  pub name : String
  pub sha256 : String
  pub size_bytes : ℕ

pub record ReleaseManifest : Type 0 where
  pub manifest_schema_version : ℕ
  pub turbo_version : ℕ
  pub release_id : String
  pub source : ReleaseSource
  pub embedding_profile : EmbeddingProfile
  pub input_fingerprint : InputFingerprint
  pub codec : ManifestCodec
  pub outputs : List OutputFile

-- Floats are their 32 bits.
pub record CanonicalRow : Type 0 where
  pub doc_id : String
  pub embedding : List ℕ
  pub text : String
  pub canonical_meta_json : List ℕ

unfoldable pub codec_dim : ManifestCodec → ℕ
codec_dim (v3 codec) = codec.dim
codec_dim (v4 codec) = codec.dim

unfoldable pub codec_turbo_version : ManifestCodec → ℕ
codec_turbo_version (v3 codec) = 3
codec_turbo_version (v4 codec) = 4

-- What is fed to the hasher: a field's length and the field, before what follows.
unfoldable pub len_prefixed : List ℕ → List ℕ → List ℕ
len_prefixed bytes rest = le_bytes 8 (length bytes) ++ (bytes ++ rest)

-- A `u32` that an overflow has left without a value has no bytes.
abbrev pub u32_bytes : Option ℕ → List ℕ
u32_bytes none = []
u32_bytes (some n) = le_bytes 4 n

unfoldable pub codec_bytes : ManifestCodec → List ℕ → List ℕ
unfolding len_prefixed as_bytes
codec_bytes (v3 codec) rest =
    le_bytes 4 codec.dim
    ++ (u32_bytes codec.centroids_per_dim
        ++ (le_bytes 8 codec.centroids_seed ++ (le_bytes 8 codec.projection_seed ++ rest)))
codec_bytes (v4 codec) rest = len_prefixed (as_bytes codec.codec_id) (
    le_bytes 4 codec.dim
    ++ (le_bytes 1 codec.mse_bits
        ++ (le_bytes 4 codec.qjl_dim
            ++ (le_bytes 8 codec.rotation_seed
                ++ (le_bytes 8 codec.qjl_seed
                    ++ (le_bytes 4 codec.generator_version
                        ++ len_prefixed (as_bytes codec.norm_policy) rest))))))

unfoldable pub insert_output : OutputFile → List OutputFile → List OutputFile
unfolding str_less
insert_output o [] = o ∷ []
insert_output o (p ∷ ps) =
    let later = p ∷ insert_output o ps in if str_less p.name o.name then later else o ∷ p ∷ ps

-- `sorted.sort_by(|a, b| a.name.cmp(&b.name))`
unfoldable pub sort_outputs : List OutputFile → List OutputFile
unfolding insert_output
sort_outputs [] = []
sort_outputs (o ∷ os) = insert_output o (sort_outputs os)

unfoldable pub output_bytes : List OutputFile → List ℕ
unfolding len_prefixed as_bytes
output_bytes [] = []
output_bytes (o ∷ os) =
    len_prefixed (as_bytes o.name)
      (as_bytes o.sha256 ++ (le_bytes 8 o.size_bytes ++ output_bytes os))

unfoldable pub release_bytes :
    ℕ → EmbeddingProfile → ManifestCodec → String → List OutputFile → List ℕ
unfolding len_prefixed as_bytes codec_bytes sort_outputs output_bytes
release_bytes turbo_version profile codec content_digest outputs =
    le_bytes 4 turbo_version
    ++ len_prefixed (as_bytes profile.model_id) (
        le_bytes 4 profile.dim
        ++ codec_bytes codec
            (len_prefixed (as_bytes content_digest) (output_bytes (sort_outputs outputs))))

abbrev pub float_bytes : List ℕ → List ℕ → List ℕ
float_bytes [] rest = rest
float_bytes (x ∷ xs) rest = le_bytes 4 x ++ float_bytes xs rest

unfoldable pub row_bytes : List CanonicalRow → List ℕ
unfolding len_prefixed as_bytes
row_bytes [] = []
row_bytes (r ∷ rs) = len_prefixed (as_bytes r.doc_id) (
    le_bytes 8 (length r.embedding)
    ++ float_bytes r.embedding
        (len_prefixed (as_bytes r.text) (len_prefixed r.canonical_meta_json (row_bytes rs))))

module _ (sha256 : List ℕ → List ℕ) (hex_encode : List ℕ → String) where
  unfoldable pub sha256_hex : List ℕ → String
  sha256_hex bytes = hex_encode (sha256 bytes)

  unfoldable pub content_digest : List CanonicalRow → String
  unfolding row_bytes
  content_digest rows = hex_encode (sha256 (row_bytes rows))

  unfoldable pub derive_release_id :
      ℕ → EmbeddingProfile → ManifestCodec → String → List OutputFile → String
  unfolding release_bytes
  derive_release_id turbo_version profile codec digest outputs =
      hex_encode (sha256 (release_bytes turbo_version profile codec digest outputs))
