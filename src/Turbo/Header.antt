-- ===== src/Turbo/Header.antt =====
-- src/index/header.rs: the 32-byte header of `turbo_static.bin`, the layouts of the records behind
-- it, and the size of the file. A version is a number, as in the source.
pub mod Rules
use ltsearch.Common.{
  ℕ, ◌+◌, ◌*◌, Bool, true, false, not, Option, none, some, List, [], ◌∷◌, Result, ok, err, ltb,
  ◌==◌, ◌||◌, length, if◌then◌else◌,
}
use ltsearch.Common.Outcome.{guard, ok_or, ◌>>=◌, ◌>>◌}
use ltsearch.Common.Words.{le_bytes, from_le, slice, write_at, zeros, same_bytes, checked}
use ltsearch.Turbo.Codec.{TurboCodecId, legacy_3_bit_v1, turbo_quant_prod_v1, code, from_code}

-- b"TQNT"
abbrev pub turbo_magic : List ℕ
turbo_magic = b'T' ∷ b'Q' ∷ b'N' ∷ b'T' ∷ []

abbrev pub turbo_version_v2 : ℕ
turbo_version_v2 = 2

abbrev pub turbo_version_v3 : ℕ
turbo_version_v3 = 3

abbrev pub turbo_version_v4 : ℕ
turbo_version_v4 = 4

abbrev pub header_size : ℕ
header_size = 32

pub record HeaderCodec : Type 0 where
  pub codec_id : TurboCodecId
  pub fingerprint : List ℕ

pub record TurboHeader : Type 0 where
  pub version : ℕ
  pub dim : ℕ
  pub record_count : ℕ
  pub codec : Option HeaderCodec

pub data TurboHeaderError : Type 0 where
  invalid_size : ℕ → ℕ → TurboHeaderError
  invalid_magic : List ℕ → TurboHeaderError
  invalid_dim : TurboHeaderError
  unsupported_version : ℕ → TurboHeaderError
  unsupported_layout : ℕ → ℕ → TurboHeaderError
  record_count_overflow : ℕ → TurboHeaderError
  unknown_codec : ℕ → TurboHeaderError
  unsupported_codec : ℕ → TurboCodecId → TurboHeaderError

pub data KnownRecordLayout : Type 0 where
  v2_dim_512 v3_dim_512 v4_dim_512 : KnownRecordLayout

-- `None` is the panic of the assertion.
unfoldable pub new : ℕ → ℕ → Option TurboHeader
new dim count =
    if ltb 0 dim
    then some (record { version = turbo_version_v2; dim = dim; record_count = count; codec = none })
    else none

unfoldable pub new_v3 : ℕ → ℕ → Option TurboHeader
new_v3 dim count =
    if ltb 0 dim
    then some (record { version = turbo_version_v3; dim = dim; record_count = count; codec = none })
    else none

unfoldable pub new_v4 : ℕ → ℕ → HeaderCodec → Option TurboHeader
new_v4 dim count codec =
    if ltb 0 dim
    then some
        (record { version = turbo_version_v4; dim = dim; record_count = count; codec = some codec })
    else none

unfoldable pub codec_id : TurboHeader → Option TurboCodecId
codec_id h = elim (h.codec) [ none ↦ none | some c ↦ some c.codec_id ]

unfoldable pub codec_fingerprint : TurboHeader → Option (List ℕ)
codec_fingerprint h = elim (h.codec) [ none ↦ none | some c ↦ some c.fingerprint ]

-- The match on the codec of a v4 header.
abbrev layout_of_codec : Option TurboCodecId → Result TurboHeaderError KnownRecordLayout
layout_of_codec (some turbo_quant_prod_v1) = ok v4_dim_512
layout_of_codec (some legacy_3_bit_v1) = err (unsupported_codec turbo_version_v4 legacy_3_bit_v1)
layout_of_codec none = err (unknown_codec 0)

unfoldable pub from_header : TurboHeader → Result TurboHeaderError KnownRecordLayout
unfolding codec_id
from_header h =
    if not (h.dim == 512)
    then err (unsupported_layout h.version h.dim)
    else if h.version == turbo_version_v2
    then ok v2_dim_512
    else if h.version == turbo_version_v3
    then ok v3_dim_512
    else if h.version == turbo_version_v4
    then layout_of_codec (codec_id h)
    else err (unsupported_layout h.version h.dim)

-- `size_of` of the two record types, which the source asserts.
unfoldable pub record_size : KnownRecordLayout → ℕ
record_size v2_dim_512 = 208
record_size v3_dim_512 = 208
record_size v4_dim_512 = 208

-- `checked_mul`, then `checked_add`
abbrev checked_size : ℕ → ℕ → Option ℕ
checked_size count size = elim (checked (count * size)) [
  | none ↦ none
  | some records ↦ checked (records + header_size)
]

unfoldable pub expected_file_size : TurboHeader → Result TurboHeaderError ℕ
unfolding from_header record_size
expected_file_size h = do
  layout ← from_header h
  ok_or (checked_size h.record_count (record_size layout)) (record_count_overflow h.record_count)

abbrev write_codec : Option HeaderCodec → List ℕ → List ℕ
write_codec none buf = buf
write_codec (some c) buf =
    write_at 24 c.fingerprint (write_at 20 (le_bytes 4 (code c.codec_id)) buf)

unfoldable pub to_bytes : TurboHeader → List ℕ
unfolding code
to_bytes h = write_codec h.codec (
    write_at 12 (le_bytes 8 h.record_count) (
      write_at 8 (le_bytes 4 h.dim)
        (write_at 4 (le_bytes 4 h.version) (write_at 0 turbo_magic (zeros header_size)))))

abbrev read_codec : List ℕ → ℕ → Result TurboHeaderError (Option HeaderCodec)
unfolding from_code
read_codec buf code_read = do
  id ← ok_or (from_code code_read) (unknown_codec code_read)
  ok (some (record { codec_id = id; fingerprint = slice 24 32 buf }))

-- What follows the check of the magic bytes.
unfoldable read_fields : List ℕ → ℕ → ℕ → ℕ → Result TurboHeaderError TurboHeader
unfolding from_code
read_fields buf version dim count = do
  guard (version == turbo_version_v2 || version == turbo_version_v3 || version == turbo_version_v4)
      (unsupported_version version)
  guard (not (dim == 0)) invalid_dim
  codec ←
      if version == turbo_version_v4 then read_codec buf (from_le (slice 20 24 buf)) else ok none
  ok (record { version = version; dim = dim; record_count = count; codec = codec })

unfoldable pub from_bytes : List ℕ → Result TurboHeaderError TurboHeader
unfolding read_fields
from_bytes buf = do
  guard (not (ltb (length buf) header_size)) (invalid_size header_size (length buf))
  guard (same_bytes (slice 0 4 buf) turbo_magic) (invalid_magic (slice 0 4 buf))
  read_fields buf (from_le (slice 4 8 buf)) (from_le (slice 8 12 buf)) (from_le (slice 12 20 buf))
