-- ===== src/Turbo/Record.antt =====
-- src/index/record.rs: the records of 208 bytes. An `f32` is its 32 bits, as a number: the program
-- stores and loads the bits of the two factors and never looks at them here.
pub mod Fields
use ltsearch.Common.{
  ℕ, ◌+◌, ◌-◌, ◌*◌, ◌/◌, Bool, true, false, Option, none, some, List, [], ◌∷◌, ◌++◌, leb, ◌==◌,
  ◌&&◌, length, if◌then◌else◌,
}
use ltsearch.Common.Words.{le_bytes, from_le, slice, checked_slice}
use ltsearch.Turbo.Codec.{TurboQuantConfig}
use ltsearch.Turbo.Header.{KnownRecordLayout, v2_dim_512, v3_dim_512, v4_dim_512, record_size}

pub record TurboRecord512 : Type 0 where
  pub doc_id : ℕ
  pub idx : List ℕ
  pub qjl : List ℕ
  pub gamma : ℕ
  pub reserved : List ℕ

pub record TurboProdRecord512 : Type 0 where
  pub doc_id : ℕ
  pub idx : List ℕ
  pub signs : List ℕ
  pub gamma : ℕ
  pub norm : ℕ

-- src/index/turbo_prod.rs: one encoded document, and the lengths of a codec's codes. The rows of the
-- QJL matrix of a codec are the `qjl_dim` of its configuration.
pub record EncodedTurboProd : Type 0 where
  pub idx : List ℕ
  pub signs : List ℕ
  pub gamma : ℕ
  pub norm : ℕ

-- `usize::div_ceil`
abbrev div_ceil : ℕ → ℕ → ℕ
div_ceil a b = (a + (b - 1)) / b

unfoldable pub idx_len : TurboQuantConfig → ℕ
idx_len config = div_ceil config.dim 4

unfoldable pub signs_len : TurboQuantConfig → ℕ
signs_len config = div_ceil config.qjl_dim 8

unfoldable pub holds_codes_of : TurboQuantConfig → Bool
unfolding idx_len signs_len
holds_codes_of config = idx_len config == 128 && signs_len config == 64

unfoldable pub new : ℕ → EncodedTurboProd → Option TurboProdRecord512
new id encoded =
    if length encoded.idx == 128 && length encoded.signs == 64
    then some (record {
      doc_id = id;
      idx = encoded.idx;
      signs = encoded.signs;
      gamma = encoded.gamma;
      norm = encoded.norm;
    })
    else none

-- The fields in the order of their declaration, without padding (`repr(C)`, little-endian).
unfoldable pub as_bytes : TurboProdRecord512 → List ℕ
as_bytes r =
    le_bytes 8 r.doc_id ++ (r.idx ++ (r.signs ++ (le_bytes 4 r.gamma ++ le_bytes 4 r.norm)))

-- `TurboRecord512` has its reserved bytes where the other has the norm.
unfoldable pub legacy_bytes : TurboRecord512 → List ℕ
legacy_bytes r = le_bytes 8 r.doc_id ++ (r.idx ++ (r.qjl ++ (le_bytes 4 r.gamma ++ r.reserved)))

pub record FieldRanges : Type 0 where
  pub doc_id : ℕ
  pub idx : ℕ × ℕ
  pub qjl : ℕ × ℕ
  pub gamma : ℕ
  pub norm : Option ℕ

-- `offset_of!` of each field.
unfoldable pub field_ranges : KnownRecordLayout → FieldRanges
field_ranges v4_dim_512 = record {
  doc_id = 0;
  idx = (8, 8 + 128);
  qjl = (136, 136 + 64);
  gamma = 200;
  norm = some 204;
}
field_ranges _ = record {
  doc_id = 0;
  idx = (8, 8 + 128);
  qjl = (136, 136 + 64);
  gamma = 200;
  norm = none;
}

pub record TurboRecordRef : Type 0 where
  pub region : List ℕ
  pub layout : KnownRecordLayout

-- `None` is a panic, here and in the reads below.
unfoldable pub new_ref : List ℕ → KnownRecordLayout → Option TurboRecordRef
unfolding record_size
new_ref bytes layout =
    if leb (record_size layout) (length bytes)
    then some (record { region = bytes; layout = layout })
    else none

-- `from_le_bytes(self.data[start..start + size].try_into().unwrap())`
abbrev word_at : ℕ → ℕ → List ℕ → Option ℕ
word_at start size bytes = elim (checked_slice start (start + size) bytes) [
  | none ↦ none
  | some word ↦ some (from_le word)
]

unfoldable pub doc_id : TurboRecordRef → Option ℕ
unfolding field_ranges
doc_id r = word_at (field_ranges r.layout).doc_id 8 r.region

unfoldable pub idx : TurboRecordRef → Option (List ℕ)
unfolding field_ranges
idx r = let (start, end) = (field_ranges r.layout).idx in checked_slice start end r.region

unfoldable pub qjl : TurboRecordRef → Option (List ℕ)
unfolding field_ranges
qjl r = let (start, end) = (field_ranges r.layout).qjl in checked_slice start end r.region

unfoldable pub gamma : TurboRecordRef → Option ℕ
unfolding field_ranges
gamma r = word_at (field_ranges r.layout).gamma 4 r.region

-- `some none` where the layout stores no norm.
unfoldable pub norm : TurboRecordRef → Option (Option ℕ)
unfolding field_ranges
norm r = elim ((field_ranges r.layout).norm) [
  | none ↦ some none
  | some start ↦ elim (word_at start 4 r.region) [ none ↦ none | some v ↦ some (some v) ]
]
