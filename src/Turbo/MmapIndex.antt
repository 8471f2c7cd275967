-- ===== src/Turbo/MmapIndex.antt =====
-- src/index/mmap_index.rs, with src/index/meta.rs and src/index/meta_ext.rs: what a static index checks
-- of its files when it is loaded. The disk and the address at which a file is mapped are parameters.
pub mod Checks
use ltsearch.Common.{
  ℕ, zero, suc, ◌+◌, ◌*◌, ◌/◌, ◌%◌, String, Bool, true, false, not, Option, none, some, List, [],
  ◌∷◌, ◌++◌, Result, ok, err, ltb, leb, ◌==◌, ◌&&◌, length, take, if◌then◌else◌,
}
use ltsearch.Common.Outcome.{guard, map_err, ◌>>=◌, ◌>>◌}
use ltsearch.Common.Words.{from_le, slice, drop, checked_slice, u64_end}
use ltsearch.Turbo.Header.{
  TurboHeader, TurboHeaderError, KnownRecordLayout, v2_dim_512, v3_dim_512, v4_dim_512, from_bytes,
  from_header, expected_file_size, record_size, header_size,
}
use ltsearch.Turbo.Record.{TurboRecordRef, new_ref}
use ltsearch.Turbo.Assets.{AssetError}
use ltsearch.Turbo.ProdCodec.{TurboProdError}

abbrev pub meta_record_size : ℕ
meta_record_size = 40

abbrev pub meta_ext_record_size : ℕ
meta_ext_record_size = 24

pub record MetaRecord : Type 0 where
  pub doc_id : ℕ
  pub text_offset : ℕ
  pub title_offset : ℕ
  pub text_len : ℕ
  pub title_len : ℕ
  pub corpus_type : ℕ

pub record MetaExtRecord : Type 0 where
  pub docid_offset : ℕ
  pub meta_json_offset : ℕ
  pub docid_len : ℕ
  pub meta_json_len : ℕ

-- The bytes of a record as its type (`repr(C)`, little-endian).
unfoldable pub meta_record : List ℕ → MetaRecord
meta_record bytes = record {
  doc_id = from_le (slice 0 8 bytes);
  text_offset = from_le (slice 8 16 bytes);
  title_offset = from_le (slice 16 24 bytes);
  text_len = from_le (slice 24 28 bytes);
  title_len = from_le (slice 28 32 bytes);
  corpus_type = from_le (slice 32 33 bytes);
}

unfoldable pub meta_ext_record : List ℕ → MetaExtRecord
meta_ext_record bytes = record {
  docid_offset = from_le (slice 0 8 bytes);
  meta_json_offset = from_le (slice 8 16 bytes);
  docid_len = from_le (slice 16 20 bytes);
  meta_json_len = from_le (slice 20 24 bytes);
}

pub data MmapIndexError : Type 0 where
  io : String → MmapIndexError
  header : TurboHeaderError → MmapIndexError
  asset : String → AssetError → MmapIndexError
  file_size_mismatch : String → ℕ → ℕ → MmapIndexError
  meta_count_mismatch : ℕ → ℕ → MmapIndexError
  meta_blob_out_of_bounds : ℕ → String → MmapIndexError
  meta_blob_invalid_utf8 : ℕ → String → MmapIndexError
  meta_ext_count_mismatch : ℕ → ℕ → MmapIndexError
  meta_ext_blob_out_of_bounds : ℕ → String → MmapIndexError
  meta_ext_blob_invalid_utf8 : ℕ → String → MmapIndexError
  asset_dimension_mismatch : String → ℕ → ℕ → MmapIndexError
  unsupported_legacy_asset : String → String → ℕ → ℕ → MmapIndexError
  misaligned_records : String → MmapIndexError
  codec : TurboProdError → MmapIndexError
  unsupported_code_layout : ℕ → ℕ → MmapIndexError
  codec_fingerprint_mismatch : List ℕ → List ℕ → MmapIndexError

-- `range_in_blob`, with a `usize` of 64 bits: both conversions succeed, the sum is checked.
unfoldable pub range_in_blob : ℕ → ℕ → ℕ → Bool
range_in_blob blob_len offset len = ltb (offset + len) u64_end && leb (offset + len) blob_len

-- The record at `i` behind a checked file.
unfoldable pub meta_at : List ℕ → ℕ → MetaRecord
unfolding meta_record
meta_at file i = meta_record (take meta_record_size (drop (i * meta_record_size) file))

unfoldable pub meta_ext_at : List ℕ → ℕ → MetaExtRecord
unfolding meta_ext_record
meta_ext_at file i =
    meta_ext_record (take meta_ext_record_size (drop (i * meta_ext_record_size) file))

unfoldable pub check_meta : ℕ → ℕ → ℕ → MetaRecord → Result MmapIndexError (Unit {0})
unfolding range_in_blob
check_meta text_blob_len title_blob_len i m = do
  guard (range_in_blob text_blob_len m.text_offset m.text_len) (meta_blob_out_of_bounds i "text")
  guard (range_in_blob title_blob_len m.title_offset m.title_len)
      (meta_blob_out_of_bounds i "title")

unfoldable pub check_meta_ext : ℕ → ℕ → ℕ → MetaExtRecord → Result MmapIndexError (Unit {0})
unfolding range_in_blob
check_meta_ext docid_blob_len meta_json_blob_len i m = do
  guard (range_in_blob docid_blob_len m.docid_offset m.docid_len)
      (meta_ext_blob_out_of_bounds i "docid")
  guard (range_in_blob meta_json_blob_len m.meta_json_offset m.meta_json_len)
      (meta_ext_blob_out_of_bounds i "meta_json")

-- `for i in start..start + left { check(i)?; }`
unfoldable pub for_range :
    (ℕ → Result MmapIndexError (Unit {0})) → ℕ → ℕ → Result MmapIndexError (Unit {0})
for_range check start zero = ok tt
for_range check start (suc left) = check start >> for_range check (suc start) left

-- The three sidecars of a v3 or v4 image.
pub record Sidecars : Type 0 where
  pub meta_ext_mmap : List ℕ
  pub docid_mmap : List ℕ
  pub meta_json_mmap : List ℕ

-- The three options of the source are all there or all missing.
pub record MmapIndex (C : Type 0) : Type 0 where
  pub header : TurboHeader
  pub layout : KnownRecordLayout
  pub bin_mmap : List ℕ
  pub meta_mmap : List ℕ
  pub text_mmap : List ℕ
  pub title_mmap : List ℕ
  pub sidecars : Option Sidecars
  pub codec : C

abbrev has_doc_sidecars : KnownRecordLayout → Bool
has_doc_sidecars v2_dim_512 = false
has_doc_sidecars v3_dim_512 = true
has_doc_sidecars v4_dim_512 = true

-- `mmap_file` of a file in the index's directory; whether the mapping of a file starts at an aligned
-- address; the codec of the assets that stand beside the records,
-- for the header's layout, is loaded by `Turbo.Loader`.
module _ {C : Type 0} (mmap_file : String → Result MmapIndexError (List ℕ))
    (is_aligned : String → Bool)
    (load_codec : KnownRecordLayout → TurboHeader → Result MmapIndexError C) where
  unfoldable ensure_aligned : String → Result MmapIndexError (Unit {0})
  ensure_aligned file = guard (is_aligned file) (misaligned_records file)

  -- The record count that a file of records of one size holds, if it is the expected one.
  abbrev check_count : (ℕ → ℕ → MmapIndexError) → ℕ → ℕ → ℕ → Result MmapIndexError (Unit {0})
  check_count mismatch size expected len = do
    guard (len % size == 0) (mismatch expected (len / size))
    guard (len / size == expected) (mismatch expected (len / size))

  unfoldable load_sidecars : TurboHeader → Result MmapIndexError Sidecars
  unfolding ensure_aligned check_meta_ext for_range meta_ext_at
  load_sidecars h = do
    meta_ext_mmap ← mmap_file "turbo_static_meta_ext.bin"
    docid_mmap ← mmap_file "turbo_static_docid.bin"
    meta_json_mmap ← mmap_file "turbo_static_meta_json.bin"
    check_count meta_ext_count_mismatch meta_ext_record_size h.record_count (length meta_ext_mmap)
    ensure_aligned "turbo_static_meta_ext.bin"
    for_range
        (λ i.
          check_meta_ext (length docid_mmap) (length meta_json_mmap) i
            (meta_ext_at meta_ext_mmap i))
        0 (length meta_ext_mmap / meta_ext_record_size)
    ok (record {
      meta_ext_mmap = meta_ext_mmap;
      docid_mmap = docid_mmap;
      meta_json_mmap = meta_json_mmap;
    })

  unfoldable load_sidecars_of :
      KnownRecordLayout → TurboHeader → Result MmapIndexError (Option Sidecars)
  unfolding load_sidecars
  load_sidecars_of layout h =
      let loaded = do s ← load_sidecars h; ok (some s)
      in if has_doc_sidecars layout then loaded else ok none

  unfoldable pub load_image : Result MmapIndexError (MmapIndex C)
  unfolding load_sidecars_of ensure_aligned check_meta for_range meta_at
  load_image = do
    bin_mmap ← mmap_file "turbo_static.bin"
    guard (not (ltb (length bin_mmap) header_size))
        (file_size_mismatch "turbo_static.bin" header_size (length bin_mmap))
    h ← map_err header (from_bytes (take header_size bin_mmap))
    layout ← map_err header (from_header h)
    meta_mmap ← mmap_file "turbo_static_meta.bin"
    text_mmap ← mmap_file "turbo_static_text.bin"
    title_mmap ← mmap_file "turbo_static_title.bin"
    expected_bin_size ← map_err header (expected_file_size h)
    guard (length bin_mmap == expected_bin_size)
        (file_size_mismatch "turbo_static.bin" expected_bin_size (length bin_mmap))
    ensure_aligned "turbo_static.bin"
    check_count meta_count_mismatch meta_record_size h.record_count (length meta_mmap)
    ensure_aligned "turbo_static_meta.bin"
    for_range (λ i. check_meta (length text_mmap) (length title_mmap) i (meta_at meta_mmap i)) 0
        (length meta_mmap / meta_record_size)
    sidecars ← load_sidecars_of layout h
    assets ← load_codec layout h
    ok (record {
      header = h;
      layout = layout;
      bin_mmap = bin_mmap;
      meta_mmap = meta_mmap;
      text_mmap = text_mmap;
      title_mmap = title_mmap;
      sidecars = sidecars;
      codec = assets;
    })
