-- ===== src/Turbo/Loader/Sample.antt =====
-- Test data: a v4 codec of full size, whose matrices are zero, and an image without records.
use ltsearch.Common.{
  ℕ, zero, suc, ◌≡◌, refl, ap, arith, String, some, Bool, true, List, [], ◌++◌, ◌∷◌, Result, ok,
  err, length, str_eq, if◌then◌else◌,
}
use ltsearch.Common.Words.{zeros, le_bytes}
use ltsearch.Turbo.Codec.{prod_v1, turbo_quant_prod_v1}
use ltsearch.Turbo.Header.{
  TurboHeader, turbo_magic, v4_dim_512, from_bytes, from_header, expected_file_size,
}
use ltsearch.Turbo.Assets.{
  Rotation, QjlMatrix, LloydMaxCodebook, rotation_to_bytes, rotation_from_bytes, qjl_to_bytes,
  qjl_from_bytes, codebook_to_bytes, codebook_from_bytes, is_ascending, all_finite,
}
use ltsearch.Turbo.Assets.RoundTrip.{
  AreWords, rotation_from_bytes-rotation_to_bytes, qjl_from_bytes-qjl_to_bytes, length-write_values,
}
use ltsearch.Turbo.ProdCodec.{TurboQuantProdV1, d512_b2_centroids}
use ltsearch.Turbo.MmapIndex.{MmapIndex, MmapIndexError, io}
use ltsearch.Turbo.Loader.{prod, load_prod_codec, load, IndexCodec}

pub zero_words : ℕ → List ℕ
zero_words zero = []
zero_words (suc n) = 0 ∷ zero_words n

length-zero_words : (n : ℕ) → length (zero_words n) ≡ n
unfolding zero_words
length-zero_words zero = refl
length-zero_words (suc n) = ap suc (length-zero_words n)

zero_words-AreWords : (n : ℕ) → AreWords (zero_words n)
unfolding zero_words
zero_words-AreWords zero = tt
zero_words-AreWords (suc n) = (omega arith, zero_words-AreWords n)

abbrev pub rotation : Rotation
rotation = record { dim = 512; seed = 163; generator_version = 1; matrix = zero_words 262_144 }

abbrev pub qjl : QjlMatrix
qjl = record {
  dim = 512;
  qjl_dim = 512;
  seed = 165;
  generator_version = 1;
  values = zero_words 262_144;
}

abbrev pub codebook : LloydMaxCodebook
codebook = record { dim = 512; bits = 2; centroids = d512_b2_centroids }

pub rotation_read : rotation_from_bytes (rotation_to_bytes rotation) ≡ ok rotation
rotation_read =
    rotation_from_bytes-rotation_to_bytes rotation (omega arith) (omega arith) (omega arith)
      (omega arith) (zero_words-AreWords 262_144) (length-zero_words 262_144)

pub qjl_read : qjl_from_bytes (qjl_to_bytes qjl) ≡ ok qjl
qjl_read =
    qjl_from_bytes-qjl_to_bytes qjl (omega arith) (omega arith) (omega arith) (omega arith)
      (omega arith) (omega arith) (zero_words-AreWords 262_144) (length-zero_words 262_144)

pub codebook_ascending : is_ascending d512_b2_centroids ≡ true
unfolding is_ascending
codebook_ascending = refl

pub codebook_finite : all_finite d512_b2_centroids ≡ true
unfolding all_finite
codebook_finite = refl

pub codebook_read : codebook_from_bytes (codebook_to_bytes codebook) ≡ ok codebook
unfolding codebook_from_bytes codebook_to_bytes
codebook_read = refl

abbrev pub asset_file : String → Result MmapIndexError (List ℕ)
asset_file name =
    if str_eq name "rotation.bin"
    then ok (rotation_to_bytes rotation)
    else if str_eq name "codebook.bin"
    then ok (codebook_to_bytes codebook)
    else if str_eq name "qjl.bin"
    then ok (qjl_to_bytes qjl)
    else err (io name)

abbrev pub no_hash : List ℕ → List ℕ
no_hash bytes = zeros 32

abbrev pub header : TurboHeader
header = record {
  version = 4;
  dim = 512;
  record_count = 0;
  codec = some (record { codec_id = turbo_quant_prod_v1; fingerprint = zeros 8 });
}

abbrev pub loaded : TurboQuantProdV1
loaded = record { config = prod_v1; rotation = rotation; codebook = codebook; qjl = qjl }

codec_loaded : load_prod_codec no_hash asset_file header ≡ ok (prod loaded)
unfolding load_prod_codec
codec_loaded = rw (rotation_read, codebook_read, qjl_read) refl

abbrev pub image_file : String → Result MmapIndexError (List ℕ)
image_file name =
    if str_eq name "turbo_static.bin"
    then ok (turbo_magic ++ le_bytes 4 4 ++ le_bytes 4 512 ++ zeros 8 ++ le_bytes 4 2 ++ zeros 8)
    else elim (asset_file name) [ err e ↦ ok [] | ok bytes ↦ ok bytes ]

abbrev pub all_aligned : String → Bool
all_aligned name = true

abbrev pub image : MmapIndex IndexCodec
image = record {
  header = header;
  layout = v4_dim_512;
  bin_mmap = turbo_magic ++ le_bytes 4 4 ++ le_bytes 4 512 ++ zeros 8 ++ le_bytes 4 2 ++ zeros 8;
  meta_mmap = [];
  text_mmap = [];
  title_mmap = [];
  sidecars = some (record { meta_ext_mmap = []; docid_mmap = []; meta_json_mmap = [] });
  codec = prod loaded;
}

pub image_loaded : load no_hash image_file all_aligned ≡ ok image
unfolding load from_bytes from_header expected_file_size
image_loaded = rw (rotation_read, codebook_read, qjl_read) refl

pub rotation_size : length (rotation_to_bytes rotation) ≡ 1_048_596
unfolding rotation_to_bytes
rotation_size = omega (arith, length-write_values (zero_words 262_144), length-zero_words 262_144)

pub qjl_size : length (qjl_to_bytes qjl) ≡ 1_048_600
unfolding qjl_to_bytes
qjl_size = omega (arith, length-write_values (zero_words 262_144), length-zero_words 262_144)

pub codebook_size : length (codebook_to_bytes codebook) ≡ 28
unfolding codebook_to_bytes
codebook_size = refl
