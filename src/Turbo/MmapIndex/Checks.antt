-- ===== src/Turbo/MmapIndex/Checks.antt =====
-- What the checks of `load` leave of the files.
use ltsearch.Common.{
  ℕ, zero, suc, ◌+◌, ◌*◌, ◌/◌, ◌%◌, ◌≤◌, ◌<◌, ◌≡◌, ◌⊎◌, inl, inr, arith, String, Bool, List, Option,
  none, some, Result, ok, length,
}
use ltsearch.Turbo.Header.{TurboHeader, KnownRecordLayout, from_header, expected_file_size}
use ltsearch.Turbo.Header.Rules.{expected_file_size-exact}
use ltsearch.Turbo.MmapIndex.{
  MmapIndex, MmapIndexError, MetaRecord, MetaExtRecord, Sidecars, load_image, load_sidecars,
  load_sidecars_of, for_range, check_meta, check_meta_ext, range_in_blob, meta_at, meta_ext_at,
}

for_range-ok :
    (check : ℕ → Result MmapIndexError (Unit {0})) (start left i : ℕ)
    → for_range check start left ≡ ok tt
    → start ≤ i
    → i < start + left
    → check i ≡ ok tt
unfolding for_range
for_range-ok check start zero i e low high = absurd (omega (arith, low, high))
for_range-ok check start (suc left) i e low high =
    ground (arith, e, low, high, for_range-ok check (suc start) left i)

-- The ranges of a record lie within their blobs.
abbrev pub Fits : ℕ → ℕ → List ℕ → Type 0
Fits offset len blob = offset + len ≤ length blob

abbrev pub SidecarsFit : TurboHeader → Sidecars → Type 0
SidecarsFit h s =
    (length s.meta_ext_mmap ≡ 24 * h.record_count)
    × ((i : ℕ)
        → i < h.record_count
        → Fits (meta_ext_at s.meta_ext_mmap i).docid_offset
            (meta_ext_at s.meta_ext_mmap i).docid_len s.docid_mmap
          × Fits (meta_ext_at s.meta_ext_mmap i).meta_json_offset
              (meta_ext_at s.meta_ext_mmap i).meta_json_len s.meta_json_mmap)

check_meta_ext-ok :
    (a b i : ℕ) (m : MetaExtRecord)
    → check_meta_ext a b i m ≡ ok tt
    → (m.docid_offset + m.docid_len ≤ a) × (m.meta_json_offset + m.meta_json_len ≤ b)
unfolding check_meta_ext range_in_blob
check_meta_ext-ok a b i m e = ground (arith, e)

check_meta-ok :
    (a b i : ℕ) (m : MetaRecord)
    → check_meta a b i m ≡ ok tt
    → (m.text_offset + m.text_len ≤ a) × (m.title_offset + m.title_len ≤ b)
unfolding check_meta range_in_blob
check_meta-ok a b i m e = ground (arith, e)

module _ {C : Type 0} (index : MmapIndex C) where
  abbrev pub SizeFits : Type 0
  SizeFits =
      (from_header index.header ≡ ok index.layout)
      × (length index.bin_mmap ≡ 32 + 208 * index.header.record_count)

  abbrev pub MetasFit : Type 0
  MetasFit =
      (length index.meta_mmap ≡ 40 * index.header.record_count)
      × ((i : ℕ)
          → i < index.header.record_count
          → Fits (meta_at index.meta_mmap i).text_offset (meta_at index.meta_mmap i).text_len
              index.text_mmap
            × Fits (meta_at index.meta_mmap i).title_offset (meta_at index.meta_mmap i).title_len
                index.title_mmap)

  abbrev pub SidecarsOk : Type 0
  SidecarsOk =
      (index.sidecars ≡ none)
      ⊎ ((s : Sidecars) × (index.sidecars ≡ some s) × SidecarsFit index.header s)

module _ {C : Type 0} (mmap_file : String → Result MmapIndexError (List ℕ))
    (is_aligned : String → Bool)
    (load_codec : KnownRecordLayout → TurboHeader → Result MmapIndexError C) where
  load_sidecars-checks :
      (h : TurboHeader) (s : Sidecars)
      → load_sidecars mmap_file is_aligned load_codec h ≡ ok s
      → (length s.meta_ext_mmap % 24 ≡ 0)
        × (length s.meta_ext_mmap / 24 ≡ h.record_count)
        × (for_range
              (λ i.
                check_meta_ext
                  (length s.docid_mmap)
                  (length s.meta_json_mmap)
                  i
                  (meta_ext_at s.meta_ext_mmap i))
              0
              h.record_count
            ≡ ok tt)
  unfolding load_sidecars
  load_sidecars-checks h s e = ground (arith, e)

  load_sidecars-SidecarsFit :
      (h : TurboHeader) (s : Sidecars)
      → load_sidecars mmap_file is_aligned load_codec h ≡ ok s
      → SidecarsFit h s
  load_sidecars-SidecarsFit h s e =
      let (whole, count, checks) = load_sidecars-checks h s e in
      (
        omega (arith, whole, count),
        λ i inside.
            check_meta_ext-ok (length s.docid_mmap) (length s.meta_json_mmap) i
              (meta_ext_at s.meta_ext_mmap i)
              (for_range-ok
                (λ i.
                  check_meta_ext (length s.docid_mmap) (length s.meta_json_mmap) i
                    (meta_ext_at s.meta_ext_mmap i))
                0 h.record_count i checks (omega arith) (omega (arith, inside))),
      )

  -- What `load` has found, of the parts of the index that it returns.
  load_image-layout :
      (index : MmapIndex C)
      → load_image mmap_file is_aligned load_codec ≡ ok index
      → from_header index.header ≡ ok index.layout
  unfolding load_image
  load_image-layout index e = ground (arith, e)

  load_image-size :
      (index : MmapIndex C)
      → load_image mmap_file is_aligned load_codec ≡ ok index
      → expected_file_size index.header ≡ ok (length index.bin_mmap)
  unfolding load_image
  load_image-size index e = ground (arith, e)

  load_image-counts :
      (index : MmapIndex C)
      → load_image mmap_file is_aligned load_codec ≡ ok index
      → (length index.meta_mmap % 40 ≡ 0)
        × (length index.meta_mmap / 40 ≡ index.header.record_count)
  unfolding load_image
  load_image-counts index e = ground (arith, e)

  load_image-metas :
      (index : MmapIndex C)
      → load_image mmap_file is_aligned load_codec ≡ ok index
      → for_range
          (λ i.
            check_meta
              (length index.text_mmap)
              (length index.title_mmap)
              i
              (meta_at index.meta_mmap i))
          0
          (length index.meta_mmap / 40)
        ≡ ok tt
  unfolding load_image
  load_image-metas index e = ground (arith, e)

  load_sidecars_of-ok :
      (layout : KnownRecordLayout) (h : TurboHeader) (o : Option Sidecars)
      → load_sidecars_of mmap_file is_aligned load_codec layout h ≡ ok o
      → (o ≡ none)
        ⊎ ((s : Sidecars) × (o ≡ some s) × (load_sidecars mmap_file is_aligned load_codec h ≡ ok s))
  unfolding load_sidecars_of
  load_sidecars_of-ok layout h o e = ground (arith, e)

  load_image-sidecars :
      (index : MmapIndex C)
      → load_image mmap_file is_aligned load_codec ≡ ok index
      → load_sidecars_of mmap_file is_aligned load_codec index.layout index.header
        ≡ ok index.sidecars
  unfolding load_image
  load_image-sidecars index e = ground (arith, e)

  load_image-SizeFits :
      (index : MmapIndex C) → load_image mmap_file is_aligned load_codec ≡ ok index → SizeFits index
  load_image-SizeFits index e =
      let known = load_image-layout index e in
      (
        known,
        ground (
          arith,
          load_image-size index e,
          expected_file_size-exact index.header index.layout known,
        ),
      )

  load_image-MetasFit :
      (index : MmapIndex C) → load_image mmap_file is_aligned load_codec ≡ ok index → MetasFit index
  load_image-MetasFit index e =
      let (whole, count) = load_image-counts index e in
      (
        omega (arith, whole, count),
        λ i inside.
            check_meta-ok (length index.text_mmap) (length index.title_mmap) i
              (meta_at index.meta_mmap i)
              (for_range-ok
                (λ i.
                  check_meta (length index.text_mmap) (length index.title_mmap) i
                    (meta_at index.meta_mmap i))
                0 (length index.meta_mmap / 40) i (load_image-metas index e) (omega arith)
                (omega (arith, inside, count))),
      )

  load_image-SidecarsOk :
      (index : MmapIndex C)
      → load_image mmap_file is_aligned load_codec ≡ ok index
      → SidecarsOk index
  load_image-SidecarsOk index e =
      elim (load_sidecars_of-ok index.layout index.header index.sidecars
        (load_image-sidecars index e)) [
          | inl missing ↦ inl missing
          | inr (s, there, checked) ↦
              inr (s, there, load_sidecars-SidecarsFit index.header s checked)
        ]

  -- A loaded index has files of the sizes that its header announces, and every record points into
  -- its blobs.
  pub load_image-IsLoaded :
      (index : MmapIndex C)
      → load_image mmap_file is_aligned load_codec ≡ ok index
      → SizeFits index × (MetasFit index × SidecarsOk index)
  load_image-IsLoaded index e =
      (load_image-SizeFits index e, (load_image-MetasFit index e, load_image-SidecarsOk index e))

  pub load_image-codec :
      (index : MmapIndex C)
      → load_image mmap_file is_aligned load_codec ≡ ok index
      → load_codec index.layout index.header ≡ ok index.codec
  unfolding load_image
  load_image-codec index e = ground (arith, e)
