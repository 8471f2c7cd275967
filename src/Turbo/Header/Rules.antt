-- ===== src/Turbo/Header/Rules.antt =====
-- The header and its bytes, and the size of the file that it announces.
use ltsearch.Common.{
  ℕ, ◌+◌, ◌*◌, ◌^◌, ◌-◌, ◌≤◌, ◌<◌, ◌≡◌, refl, ap, ◌∙◌, sym, inl, inr, ◌⊎◌, ok, err, arith, List,
  ◌++◌, Option, none, some, length, length-append, append-nil, subst,
}
use ltsearch.Common.Words.{
  u32_end, u64_end, from_le, slice, from_le-le_bytes, IsBytes, take-append, from_le-lt,
  length-slice, slice-IsBytes,
}
use ltsearch.Turbo.Codec.{TurboCodecId, turbo_quant_prod_v1, legacy_3_bit_v1, code, from_code}
use ltsearch.Turbo.Header.{
  TurboHeader, HeaderCodec, to_bytes, from_bytes, from_header, expected_file_size, record_size,
  record_count_overflow, read_fields, KnownRecordLayout,
}

-- What the constructors make of arguments of their Rust types: a codec stands in v4 headers alone.
abbrev pub IsHeader : TurboHeader → Type 0
IsHeader h =
    (0 < h.dim)
    × (h.dim < u32_end)
    × (h.record_count < u64_end)
    × ((((h.version ≡ 2) ⊎ (h.version ≡ 3)) × (h.codec ≡ none))
        ⊎ ((h.version ≡ 4)
            × ((c : HeaderCodec) × (h.codec ≡ some c)
                × (length c.fingerprint ≡ 8)
                × IsBytes c.fingerprint)))

-- For a header of a known layout, the size of the file is that of the header and the records, without
-- wrapping, or an overflow is reported, exactly if it does not fit 64 bits.
pub expected_file_size-exact :
    (h : TurboHeader) (layout : KnownRecordLayout)
    → from_header h ≡ ok layout
    → ((expected_file_size h ≡ ok (32 + 208 * h.record_count))
        × (32 + 208 * h.record_count < u64_end))
      ⊎ ((expected_file_size h ≡ err (record_count_overflow h.record_count))
          × (u64_end ≤ 32 + 208 * h.record_count))
unfolding expected_file_size record_size
expected_file_size-exact h layout e = ground (arith, e)

from_code-code : (c : TurboCodecId) → from_code (code c) ≡ some c
unfolding from_code code
from_code-code turbo_quant_prod_v1 = refl
from_code-code legacy_3_bit_v1 = refl

old_round_trip :
    (version dim count : ℕ) (rest : List ℕ)
    → (version ≡ 2) ⊎ (version ≡ 3)
    → 0 < dim
    → dim < u32_end
    → count < u64_end
    → let h : TurboHeader = record {
      version = version;
      dim = dim;
      record_count = count;
      codec = none;
    } in
      from_bytes (to_bytes h ++ rest) ≡ ok h
unfolding from_bytes to_bytes read_fields
old_round_trip version dim count rest v d0 d c = ground (
  arith,
  from_le-le_bytes 4 version (omega arith),
  from_le-le_bytes 4 dim (omega arith),
  from_le-le_bytes 8 count (omega arith),
)

small_code : (c : TurboCodecId) → code c < 256 ^ 4
unfolding code
small_code c = ground arith

v4_round_trip :
    (dim count : ℕ) (c : HeaderCodec) (rest : List ℕ)
    → length c.fingerprint ≡ 8
    → 0 < dim
    → dim < u32_end
    → count < u64_end
    → let h : TurboHeader = record {
      version = 4;
      dim = dim;
      record_count = count;
      codec = some c;
    } in
      from_bytes (to_bytes h ++ rest) ≡ ok h
unfolding from_bytes to_bytes read_fields
v4_round_trip dim count c rest size d0 d n = rw size (
    ground (
      arith,
      from_le-le_bytes 4 dim (omega arith),
      from_le-le_bytes 8 count (omega arith),
      from_le-le_bytes 4 (code c.codec_id) (small_code c.codec_id),
      from_code-code c.codec_id,
      append-nil c.fingerprint,
      take-append 8 c.fingerprint rest size,
      length-append c.fingerprint rest,
    ))

-- A header is read back from its bytes, whatever follows them in the file, if it is one that the
-- constructors make.
pub from_bytes-to_bytes :
    (h : TurboHeader) (rest : List ℕ) → IsHeader h → from_bytes (to_bytes h ++ rest) ≡ ok h
from_bytes-to_bytes h rest (d0, d, n, inl (v, none_there)) =
    ground (arith, old_round_trip h.version h.dim h.record_count rest v d0 d n, none_there)
from_bytes-to_bytes h rest (d0, d, n, inr (v, (c, there, size, fits))) =
    ground (arith, v4_round_trip h.dim h.record_count c rest size d0 d n, there, v)

word-lt :
    (start end : ℕ) (buf : List ℕ)
    → IsBytes buf
    → end ≤ length buf
    → from_le (slice start end buf) < 256 ^ (end - start)
word-lt start end buf h fits =
    rw (length-slice start end buf fits) at
      (from_le-lt (slice start end buf) (slice-IsBytes start end buf h))

-- The codec of a header that was read: none in the older versions, else with eight bytes.
abbrev IsReadCodec : List ℕ → ℕ → Option HeaderCodec → Type 0
IsReadCodec buf version codec =
    (((version ≡ 2) ⊎ (version ≡ 3)) × (codec ≡ none))
    ⊎ ((version ≡ 4) × ((c : HeaderCodec) × (codec ≡ some c) × (c.fingerprint ≡ slice 24 32 buf)))

read_fields-ok :
    (buf : List ℕ) (version dim count : ℕ) (h : TurboHeader)
    → read_fields buf version dim count ≡ ok h
    → (h.version ≡ version)
      × (h.dim ≡ dim)
      × (0 < dim)
      × (h.record_count ≡ count)
      × IsReadCodec buf version h.codec
unfolding read_fields from_code
read_fields-ok buf version dim count h e = ground (arith, e)

from_bytes-fields :
    (buf : List ℕ) (h : TurboHeader)
    → from_bytes buf ≡ ok h
    → (32 ≤ length buf)
      × (read_fields buf
            (from_le (slice 4 8 buf))
            (from_le (slice 8 12 buf))
            (from_le (slice 12 20 buf))
          ≡ ok h)
unfolding from_bytes
from_bytes-fields buf h e = ground (arith, e)

-- Whatever is read from a file of bytes is a header that the constructors make: every field in the
-- range of its type, and a codec of eight fingerprint bytes in the headers of version 4 alone.
pub from_bytes-IsHeader :
    (buf : List ℕ) (h : TurboHeader) → IsBytes buf → from_bytes buf ≡ ok h → IsHeader h
from_bytes-IsHeader buf h bytes e =
    let (long, fields) = from_bytes-fields buf h e in
    let (v, d, d0, n, codec) =
      read_fields-ok buf (from_le (slice 4 8 buf)) (from_le (slice 8 12 buf))
        (from_le (slice 12 20 buf)) h fields in
    (
      omega (arith, d, d0),
      omega (arith, d, word-lt 8 12 buf bytes (omega (arith, long))),
      omega (arith, n, word-lt 12 20 buf bytes (omega (arith, long))),
      elim codec [
        | inl (old, e) ↦ inl (ground (arith, old, v), e)
        | inr (new_version, (c, there, e)) ↦ inr (
          v ∙ new_version,
          (
            c,
            there,
            ap length e ∙ length-slice 24 32 buf long,
            subst IsBytes (sym e) (slice-IsBytes 24 32 buf bytes),
          ),
        )
      ],
    )
