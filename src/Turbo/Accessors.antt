-- ===== src/Turbo/Accessors.antt =====
-- src/index/mmap_index.rs, with src/index/meta.rs and src/index/meta_ext.rs: the accessors of a loaded
-- index. The UTF-8 check is a parameter. A panic, or a read outside of the mapped bytes, is `none`.
pub mod Bounds
pub mod Utf8
use ltsearch.Common.{
  ℕ, zero, suc, ◌+◌, ◌*◌, ◌/◌, ◌%◌, String, Bool, true, false, not, Option, none, some, List, [],
  ◌∷◌, ◌++◌, Result, ok, err, ltb, leb, ◌==◌, ◌&&◌, length, take, if◌then◌else◌,
}
use ltsearch.Common.Outcome.{guard, map_err, ◌>>=◌, ◌>>◌}
use ltsearch.Common.Words.{from_le, slice, drop, checked_slice, u64_end}
use ltsearch.Turbo.Header.{
  TurboHeader, TurboHeaderError, KnownRecordLayout, v2_dim_512, v3_dim_512, v4_dim_512, from_bytes,
  from_header, expected_file_size, record_size, header_size,
}
use ltsearch.Turbo.Record.{TurboRecordRef, new_ref}
use ltsearch.Turbo.Assets.{AssetError}
use ltsearch.Turbo.ProdCodec.{TurboProdError}
use ltsearch.Turbo.MmapIndex.{
  meta_record_size, meta_ext_record_size, MetaRecord, MetaExtRecord, meta_record, meta_ext_record,
  MmapIndexError, meta_blob_invalid_utf8, meta_ext_blob_invalid_utf8, Sidecars, MmapIndex,
}

-- `f()?;` of an accessor that may panic
abbrev and_then :
    {A : Type 0}
    → Option (Result MmapIndexError A)
    → Option (Result MmapIndexError (Unit {0}))
    → Option (Result MmapIndexError (Unit {0}))
and_then none next = none
and_then (some (err e)) next = some (err e)
and_then (some (ok a)) next = next

-- The accessors. `some` is a return, `none` a panic or a read out of bounds.
module _ {C : Type 0} (from_utf8 : List ℕ → Option String) (index : MmapIndex C) where
  unfoldable pub meta : ℕ → Option MetaRecord
  unfolding meta_record
  meta i =
      let bytes =
        checked_slice (i * meta_record_size) (i * meta_record_size + meta_record_size)
          index.meta_mmap in
      if ltb i index.header.record_count
      then elim bytes [ none ↦ none | some b ↦ some (meta_record b) ]
      else none

  -- `str::from_utf8(&blob[start..start + len])`
  abbrev utf8_at : ℕ → ℕ → List ℕ → MmapIndexError → Option (Result MmapIndexError String)
  utf8_at start len blob failure = elim (checked_slice start (start + len) blob) [
    | none ↦ none
    | some b ↦ elim (from_utf8 b) [ none ↦ some (err failure) | some t ↦ some (ok t) ]
  ]

  unfoldable pub text : ℕ → Option (Result MmapIndexError String)
  unfolding meta
  text i = elim (meta i) [
    | none ↦ none
    | some m ↦ utf8_at m.text_offset m.text_len index.text_mmap (meta_blob_invalid_utf8 i "text")
  ]

  abbrev shown :
      Option (Result MmapIndexError String) → Option (Result MmapIndexError (Option String))
  shown none = none
  shown (some (err e)) = some (err e)
  shown (some (ok t)) = some (ok (some t))

  unfoldable pub title : ℕ → Option (Result MmapIndexError (Option String))
  unfolding meta
  title i = elim (meta i) [
    | none ↦ none
    | some m ↦
        let stored = shown (
          utf8_at m.title_offset m.title_len index.title_mmap (meta_blob_invalid_utf8 i "title")) in
        if m.title_len == 0 then some (ok none) else stored
  ]

  -- The inner option is that of the source: no sidecars, or an index out of range.
  unfoldable pub meta_ext_record_of : ℕ → Option (Option (Sidecars × MetaExtRecord))
  unfolding meta_ext_record
  meta_ext_record_of i = elim (index.sidecars) [
    | none ↦ some none
    | some s ↦
        let bytes =
          checked_slice (i * meta_ext_record_size) (i * meta_ext_record_size + meta_ext_record_size)
            s.meta_ext_mmap in
        if leb index.header.record_count i
        then some none
        else elim bytes [ none ↦ none | some b ↦ some (some (s, meta_ext_record b)) ]
  ]

  unfoldable pub original_doc_id : ℕ → Option (Result MmapIndexError (Option String))
  unfolding meta_ext_record_of
  original_doc_id i = elim (meta_ext_record_of i) [
    | none ↦ none
    | some none ↦ some (ok none)
    | some (some (s, m)) ↦
        shown
          (utf8_at m.docid_offset m.docid_len s.docid_mmap (meta_ext_blob_invalid_utf8 i "docid"))
  ]

  unfoldable pub metadata_json : ℕ → Option (Result MmapIndexError (Option String))
  unfolding meta_ext_record_of
  metadata_json i = elim (meta_ext_record_of i) [
    | none ↦ none
    | some none ↦ some (ok none)
    | some (some (s, m)) ↦ shown (
        utf8_at m.meta_json_offset m.meta_json_len s.meta_json_mmap
          (meta_ext_blob_invalid_utf8 i "meta_json"))
  ]

  unfoldable pub record_at : ℕ → Option TurboRecordRef
  unfolding new_ref record_size
  record_at i =
      let start = i * record_size index.layout in
      let bytes =
        checked_slice start (start + record_size index.layout) (drop header_size index.bin_mmap) in
      if ltb i index.header.record_count
      then elim bytes [ none ↦ none | some b ↦ new_ref b index.layout ]
      else none

  unfoldable pub check_from : ℕ → ℕ → Option (Result MmapIndexError (Unit {0}))
  unfolding text title original_doc_id metadata_json
  check_from i zero = some (ok tt)
  check_from i (suc left) = and_then (text i) (
      and_then (title i)
        (and_then (original_doc_id i) (and_then (metadata_json i) (check_from (suc i) left))))

  unfoldable pub check_utf8 : Option (Result MmapIndexError (Unit {0}))
  unfolding check_from
  check_utf8 = check_from 0 index.header.record_count
