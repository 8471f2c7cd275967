-- ===== src/Turbo/Release/Tests.antt =====
-- A release and the same release from elsewhere.
use Prim.Native.String as Text
use ltsearch.Common.{ℕ, String, List, [], ◌∷◌, ◌≡◌, refl, ◌⊎◌, All, arith}
use ltsearch.Common.Utf8.{as_bytes}
use ltsearch.Search.{legal}
use ltsearch.Turbo.Release.{
  ReleaseManifest, OutputFile, v4, CanonicalRow, codec_turbo_version, derive_release_id,
}
use ltsearch.Turbo.Release.Identity.{
  IsWritten, SameContents, release_id_of, Collision, derive_release_id-SameContents,
}
use ltsearch.Turbo.Release.Rows.{RowFits, content_digest-same}

-- Stand-ins for SHA-256 and hexadecimal, of which only the length of what is hashed is left.
abbrev sha256 : List ℕ → List ℕ
sha256 bytes = bytes

abbrev hex_encode : List ℕ → String
hex_encode [] = ""
hex_encode (b ∷ bs) = Text.◌∷◌ "0" (hex_encode bs)

abbrev digest : String
digest = "0123456789abcdef0123456789abcdef0123456789abcdef0123456789abcdef"

abbrev records_file : OutputFile
records_file = record { name = "records.turbo"; sha256 = digest; size_bytes = 4_096 }

abbrev meta_file : OutputFile
meta_file = record { name = "meta.bin"; sha256 = digest; size_bytes = 48 }

abbrev release : String → List OutputFile → ReleaseManifest
release path outputs = record {
  manifest_schema_version = 1;
  turbo_version = 4;
  release_id = "";
  source = record {
    kind = "lance";
    dataset_path = path;
    table_version = 9;
    table_row_count = 2;
    corpus_type = legal;
  };
  embedding_profile = record { model_id = "jina-embeddings-v2"; dim = 512 };
  input_fingerprint = record { doc_count = 2; content_digest = digest };
  codec = v4 (record {
    codec_id = "turbo_quant_prod_v1";
    dim = 512;
    mse_bits = 2;
    qjl_dim = 512;
    rotation_seed = 163;
    qjl_seed = 165;
    generator_version = 1;
    norm_policy = "normalize_and_store";
  });
  outputs = outputs;
}

abbrev here : ReleaseManifest
here = release "/data/corpus.lance" (records_file ∷ meta_file ∷ [])

abbrev there : ReleaseManifest
there = release "/mnt/corpus.lance" (meta_file ∷ records_file ∷ [])

here-IsWritten : IsWritten here
unfolding as_bytes codec_turbo_version
here-IsWritten = ground arith

there-IsWritten : IsWritten there
unfolding as_bytes codec_turbo_version
there-IsWritten = ground arith

same_id : release_id_of sha256 hex_encode here ≡ release_id_of sha256 hex_encode there
unfolding derive_release_id
same_id = refl

derive_release_id-SameContents_example : SameContents here there ⊎ Collision sha256 hex_encode
derive_release_id-SameContents_example =
    derive_release_id-SameContents sha256 hex_encode here there here-IsWritten there-IsWritten
      same_id

abbrev rows : List CanonicalRow
rows =
    record { doc_id = "a"; embedding = 1 ∷ 2 ∷ []; text = "law"; canonical_meta_json = [] }
    ∷ record { doc_id = "b"; embedding = 3 ∷ []; text = ""; canonical_meta_json = b'{' ∷ b'}' ∷ [] }
    ∷ []

rows-RowFits : All RowFits rows
unfolding as_bytes
rows-RowFits = ground arith

content_digest-same_example : (rows ≡ rows) ⊎ Collision sha256 hex_encode
content_digest-same_example =
    content_digest-same sha256 hex_encode rows rows rows-RowFits rows-RowFits refl
