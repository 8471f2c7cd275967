-- ===== src/Turbo/Accessors/Bounds.antt =====
-- Every access to a loaded index is within the files.
use ltsearch.Common.{
  ℕ, ◌*◌, ◌<◌, ◌≡◌, refl, inl, inr, arith, String, Bool, true, List, Option, none, some, Result, ok,
  err, length, take, length-take, Option-cases, ltb, Bool-cases, ◌==◌,
}
use ltsearch.Common.Words.{checked_slice-chunk, drop, length-drop}
use ltsearch.Turbo.Header.{TurboHeader, KnownRecordLayout, record_size}
use ltsearch.Turbo.Record.{new_ref}
use ltsearch.Turbo.MmapIndex.{
  MmapIndex, MmapIndexError, Sidecars, load_image, meta_at, meta_ext_at, meta_blob_invalid_utf8,
  meta_ext_blob_invalid_utf8,
}
use ltsearch.Turbo.Accessors.{
  meta, text, title, original_doc_id, metadata_json, record_at, meta_ext_record_of, utf8_at, shown,
}
use ltsearch.Turbo.MmapIndex.Checks.{
  Fits, SizeFits, MetasFit, SidecarsOk, SidecarsFit, load_image-IsLoaded,
}

-- The access returns: it is no panic, and no read outside of the files.
abbrev pub Returns : {A : Type 0} → Option A → Type 0
Returns {A} o = (a : A) × (o ≡ some a)

record_size-eq : (layout : KnownRecordLayout) → record_size layout ≡ 208
unfolding record_size
record_size-eq layout = ground arith

new_ref-eq :
    (bytes : List ℕ) (layout : KnownRecordLayout)
    → length bytes ≡ 208
    → new_ref bytes layout ≡ some (record { region = bytes; layout = layout })
unfolding new_ref
new_ref-eq bytes layout size = ground (arith, size, record_size-eq layout)

module _ {C : Type 0} (from_utf8 : List ℕ → Option String) (index : MmapIndex C) where
  meta-eq :
      (i : ℕ)
      → MetasFit index
      → i < index.header.record_count
      → meta from_utf8 index i ≡ some (meta_at index.meta_mmap i)
  unfolding meta meta_at
  meta-eq i (size, fits) inside =
      ground (
        arith,
        inside,
        checked_slice-chunk (i * 40) 40 index.meta_mmap (omega (arith, size, inside)),
      )

  utf8_at-Returns :
      (start len : ℕ) (blob : List ℕ) (failure : MmapIndexError)
      → Fits start len blob
      → Returns (utf8_at from_utf8 index start len blob failure)
  utf8_at-Returns start len blob failure fits =
      elim (Option-cases (from_utf8 (take len (drop start blob)))) [
        | inl bad ↦ (err failure, ground (arith, bad, checked_slice-chunk start len blob fits))
        | inr (t, good) ↦ (ok t, ground (arith, good, checked_slice-chunk start len blob fits))
      ]

  shown-Returns :
      (o : Option (Result MmapIndexError String)) → Returns o → Returns (shown from_utf8 index o)
  shown-Returns o (ok t, e) = (ok (some t), ground (arith, e))
  shown-Returns o (err f, e) = (err f, ground (arith, e))

  module _ (i : ℕ) (inside : i < index.header.record_count) where
    text-Returns : MetasFit index → Returns (text from_utf8 index i)
    unfolding text
    text-Returns metas =
        let m = meta_at index.meta_mmap i in
        rw (meta-eq i metas inside, text)
          (utf8_at-Returns m.text_offset m.text_len index.text_mmap
            (meta_blob_invalid_utf8 i "text") (metas.1 i inside).0)

    title-Returns : MetasFit index → Returns (title from_utf8 index i)
    unfolding title
    title-Returns metas =
        let m = meta_at index.meta_mmap i in
        let stored =
          shown-Returns
            (utf8_at from_utf8 index m.title_offset m.title_len index.title_mmap
              (meta_blob_invalid_utf8 i "title"))
            (utf8_at-Returns m.title_offset m.title_len index.title_mmap
              (meta_blob_invalid_utf8 i "title") (metas.1 i inside).1) in
        rw (meta-eq i metas inside, title)
          (elim (Bool-cases (m.title_len == 0)) [
            | inl no_title ↦ (ok none, rw no_title refl)
            | inr kept ↦ rw kept stored
          ])

    meta_ext-eq :
        (s : Sidecars)
        → index.sidecars ≡ some s
        → SidecarsFit index.header s
        → meta_ext_record_of from_utf8 index i ≡ some (some (s, meta_ext_at s.meta_ext_mmap i))
    unfolding meta_ext_record_of meta_ext_at
    meta_ext-eq s there (size, fits) = ground (
      arith,
      inside,
      there,
      checked_slice-chunk (i * 24) 24 s.meta_ext_mmap (omega (arith, size, inside)),
    )

    original_doc_id-Returns : SidecarsOk index → Returns (original_doc_id from_utf8 index i)
    unfolding original_doc_id meta_ext_record_of
    original_doc_id-Returns (inl missing) = (ok none, ground (arith, missing))
    original_doc_id-Returns (inr (s, there, fit)) =
        let m = meta_ext_at s.meta_ext_mmap i in
        rw (meta_ext-eq s there fit, original_doc_id)
          (shown-Returns
            (utf8_at from_utf8 index m.docid_offset m.docid_len s.docid_mmap
              (meta_ext_blob_invalid_utf8 i "docid"))
            (utf8_at-Returns m.docid_offset m.docid_len s.docid_mmap
              (meta_ext_blob_invalid_utf8 i "docid") (fit.1 i inside).0))

    metadata_json-Returns : SidecarsOk index → Returns (metadata_json from_utf8 index i)
    unfolding metadata_json meta_ext_record_of
    metadata_json-Returns (inl missing) = (ok none, ground (arith, missing))
    metadata_json-Returns (inr (s, there, fit)) =
        let m = meta_ext_at s.meta_ext_mmap i in
        rw (meta_ext-eq s there fit, metadata_json)
          (shown-Returns
            (utf8_at from_utf8 index m.meta_json_offset m.meta_json_len s.meta_json_mmap
              (meta_ext_blob_invalid_utf8 i "meta_json"))
            (utf8_at-Returns m.meta_json_offset m.meta_json_len s.meta_json_mmap
              (meta_ext_blob_invalid_utf8 i "meta_json") (fit.1 i inside).1))

    record_at-eq :
        SizeFits index
        → record_at from_utf8 index i
          ≡ some (record {
            region = take 208 (drop (i * 208) (drop 32 index.bin_mmap));
            layout = index.layout;
          })
    unfolding record_at
    record_at-eq (known, size) =
        let bytes = drop 32 index.bin_mmap in
        rw (record_size-eq index.layout, record_at)
          (rw
            (
              checked_slice-chunk (i * 208) 208 bytes
                  (omega (arith, size, inside, length-drop 32 index.bin_mmap)),
              below,
            )
            (new_ref-eq (take 208 (drop (i * 208) bytes)) index.layout (
              omega (
                arith,
                size,
                inside,
                length-drop 32 index.bin_mmap,
                length-take 208 (drop (i * 208) bytes),
                length-drop (i * 208) bytes,
              ))))
      where
        below : ltb i index.header.record_count ≡ true
        below = ground (arith, inside)

-- No access to a loaded index panics or reads outside of its files, whatever codec it was loaded
-- with: below the record count, the record, the text, the title, the document's name and the metadata
-- are all returned.
pub load_image-Returns :
    {C : Type 0} (mmap_file : String → Result MmapIndexError (List ℕ)) (is_aligned : String → Bool)
    (load_codec : KnownRecordLayout → TurboHeader → Result MmapIndexError C)
    (from_utf8 : List ℕ → Option String) (index : MmapIndex C) (i : ℕ)
    → load_image mmap_file is_aligned load_codec ≡ ok index
    → i < index.header.record_count
    → Returns (record_at from_utf8 index i)
      × Returns (text from_utf8 index i)
      × Returns (title from_utf8 index i)
      × Returns (original_doc_id from_utf8 index i)
      × Returns (metadata_json from_utf8 index i)
load_image-Returns mmap_file is_aligned load_codec from_utf8 index i e inside =
    let (size, (metas, sidecars)) = load_image-IsLoaded mmap_file is_aligned load_codec index e in
    (
      (
        record {
          region = take 208 (drop (i * 208) (drop 32 index.bin_mmap));
          layout = index.layout;
        },
        record_at-eq from_utf8 index i inside size,
      ),
      text-Returns from_utf8 index i inside metas,
      title-Returns from_utf8 index i inside metas,
      original_doc_id-Returns from_utf8 index i inside sidecars,
      metadata_json-Returns from_utf8 index i inside sidecars,
    )
