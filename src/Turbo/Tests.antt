-- ===== src/Turbo/Tests.antt =====
-- The theorems of Turbo at concrete values.

use ltsearch.Common.{
  ℕ, ◌≡◌, refl, arith, String, Bool, true, List, [], ◌∷◌, ◌++◌, Option, none, some, Result, ok, err,
  inr, str_eq, if◌then◌else◌,
}
use ltsearch.Common.Words.{le_bytes, le_bytes-IsBytes, zeros}
use ltsearch.Turbo.Codec.{prod_v1, V4CodecMetadata, to_v4_codec_metadata, turbo_quant_prod_v1}
use ltsearch.Turbo.Fingerprint.{Asset}
use ltsearch.Turbo.Header.{
  TurboHeader, to_bytes, from_bytes, expected_file_size, from_header, turbo_magic, v3_dim_512,
  v4_dim_512, KnownRecordLayout,
}
use ltsearch.Turbo.Header.Rules.{IsHeader, from_bytes-to_bytes, from_bytes-IsHeader}
use ltsearch.Turbo.Record.{
  EncodedTurboProd, TurboProdRecord512, TurboRecordRef, new, new_ref, as_bytes,
}
use ltsearch.Turbo.Record.Fields.{ReadsAs, new-ReadsAs}
use ltsearch.Turbo.MmapIndex.{MmapIndex, MmapIndexError, io, load_image}
use ltsearch.Turbo.Accessors.{text, title, original_doc_id, metadata_json, record_at, check_utf8}
use ltsearch.Turbo.Accessors.Bounds.{Returns, load_image-Returns}
use ltsearch.Turbo.Accessors.Utf8.{IsReadable, check_utf8-IsReadable}

-- The configuration of a v4 release.
abbrev prod_section : V4CodecMetadata
prod_section = record {
  codec_id = "turbo_quant_prod_v1";
  dim = 512;
  mse_bits = 2;
  qjl_dim = 512;
  rotation_seed = 163;
  qjl_seed = 165;
  generator_version = 1;
  norm_policy = "normalize_and_store";
}

-- The inverse is not empty at the configuration of a release.
prod_section_written : to_v4_codec_metadata prod_v1 ≡ ok prod_section
unfolding to_v4_codec_metadata
prod_section_written = refl

abbrev first_asset : Asset
first_asset = (b'q' ∷ [], 1 ∷ [])

abbrev second_asset : Asset
second_asset = (b'c' ∷ [], 2 ∷ [])

abbrev as_is_hash : List ℕ → List ℕ
as_is_hash bytes = bytes

abbrev v4_header : TurboHeader
v4_header = record {
  version = 4;
  dim = 512;
  record_count = 3;
  codec =
      some (record {
        codec_id = turbo_quant_prod_v1;
        fingerprint = 1 ∷ 2 ∷ 3 ∷ 4 ∷ 5 ∷ 6 ∷ 7 ∷ 8 ∷ [];
      });
}

v4_header-IsHeader : IsHeader v4_header
v4_header-IsHeader = (
  omega arith,
  omega arith,
  omega arith,
  inr (
    refl,
    (
      record { codec_id = turbo_quant_prod_v1; fingerprint = le_bytes 8 578_437_695_752_307_201 },
      refl,
      refl,
      le_bytes-IsBytes 8 578_437_695_752_307_201,
    ),
  ),
)

from_bytes-to_bytes_example : from_bytes (to_bytes v4_header ++ zeros 4) ≡ ok v4_header
from_bytes-to_bytes_example = from_bytes-to_bytes v4_header (zeros 4) v4_header-IsHeader

abbrev v3_header : TurboHeader
v3_header = record { version = 3; dim = 512; record_count = 1; codec = none }

abbrev v3_bytes : List ℕ
v3_bytes = turbo_magic ++ le_bytes 4 3 ++ le_bytes 4 512 ++ le_bytes 8 1 ++ zeros 12

v3_bytes_read : from_bytes v3_bytes ≡ ok v3_header
unfolding from_bytes
v3_bytes_read = refl

v3_layout : from_header v3_header ≡ ok v3_dim_512
unfolding from_header
v3_layout = refl

from_bytes-IsHeader_example : IsHeader v3_header
from_bytes-IsHeader_example =
    from_bytes-IsHeader v3_bytes v3_header (le_bytes-IsBytes 32 79228171958997303347133698388)
      v3_bytes_read

abbrev code : EncodedTurboProd
code = record { idx = zeros 128; signs = zeros 64; gamma = 5; norm = 6 }

abbrev code_record : TurboProdRecord512
code_record = record { doc_id = 9; idx = zeros 128; signs = zeros 64; gamma = 5; norm = 6 }

code_record_made : new 9 code ≡ some code_record
unfolding new
code_record_made = refl

new-ReadsAs_example :
    (ref : TurboRecordRef) × (new_ref (as_bytes code_record ++ []) v4_dim_512 ≡ some ref)
    × ReadsAs ref code_record
    × (code_record.doc_id ≡ 9)
    × (code_record.idx ≡ code.idx)
    × (code_record.signs ≡ code.signs)
new-ReadsAs_example =
    new-ReadsAs 9 code code_record [] (omega arith) (omega arith) (omega arith) code_record_made

abbrev image_file : String → Result MmapIndexError (List ℕ)
image_file name =
    if str_eq name "turbo_static.bin"
    then ok (v3_bytes ++ zeros 208)
    else if str_eq name "turbo_static_meta.bin"
    then ok (zeros 24 ++ le_bytes 4 1 ++ zeros 12)
    else if str_eq name "turbo_static_text.bin"
    then ok (65 ∷ [])
    else if str_eq name "turbo_static_title.bin"
    then ok []
    else if str_eq name "turbo_static_meta_ext.bin"
    then ok (zeros 16 ++ le_bytes 4 2 ++ zeros 4)
    else if str_eq name "turbo_static_docid.bin"
    then ok (66 ∷ 67 ∷ [])
    else if str_eq name "turbo_static_meta_json.bin"
    then ok []
    else err (io name)

abbrev ascii : List ℕ → Option String
ascii bytes = some "text"

abbrev all_aligned : String → Bool
all_aligned name = true

abbrev no_codec : KnownRecordLayout → TurboHeader → Result MmapIndexError (Unit {0})
no_codec layout h = ok tt

abbrev image : MmapIndex (Unit {0})
image = record {
  header = v3_header;
  layout = v3_dim_512;
  bin_mmap = v3_bytes ++ zeros 208;
  meta_mmap = zeros 24 ++ le_bytes 4 1 ++ zeros 12;
  text_mmap = 65 ∷ [];
  title_mmap = [];
  sidecars = some (record {
    meta_ext_mmap = zeros 16 ++ le_bytes 4 2 ++ zeros 4;
    docid_mmap = 66 ∷ 67 ∷ [];
    meta_json_mmap = [];
  });
  codec = tt;
}

image_loaded : load_image image_file all_aligned no_codec ≡ ok image
unfolding load_image from_bytes from_header expected_file_size
image_loaded = refl

load_image-Returns_example :
    Returns (record_at ascii image 0)
    × Returns (text ascii image 0)
    × Returns (title ascii image 0)
    × Returns (original_doc_id ascii image 0)
    × Returns (metadata_json ascii image 0)
load_image-Returns_example =
    load_image-Returns image_file all_aligned no_codec ascii image 0 image_loaded (omega arith)

image_checked : check_utf8 ascii image ≡ some (ok tt)
unfolding check_utf8
image_checked = refl

check_utf8-IsReadable_example : IsReadable ascii image 0
check_utf8-IsReadable_example = check_utf8-IsReadable ascii image 0 image_checked (omega arith)
