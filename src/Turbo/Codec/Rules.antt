-- ===== src/Turbo/Codec/Rules.antt =====
-- What a valid codec configuration is, and the way to the manifest and back.
use ltsearch.Common.{
  ℕ, ◌≤◌, ◌<◌, ◌≡◌, refl, ap, ◌∙◌, sym, ◌⊎◌, ◌↔◌, ok, arith, List, some, String, str_eq_iff,
}
use ltsearch.Common.Words.{u32_end, u64_end, from_le, slice, from_le-le_bytes}
use ltsearch.Turbo.Codec.{
  TurboQuantConfig, TurboCodecId, NormPolicy, legacy_3_bit_v1, turbo_quant_prod_v1, as_is,
  normalize_and_store, validate, norm_policy_of, supports_dim, name, from_name, policy_name,
  policy_from_name, to_v4_codec_metadata, from_v4_codec_metadata, V4CodecMetadata, canonical_bytes,
  code, policy_code,
}

-- The parameters that each codec can be built and read with.
abbrev pub IsSupported : TurboQuantConfig → Type 0
IsSupported c =
    (c.dim ≡ 512)
    × (1 ≤ c.mse_bits)
    × (c.mse_bits ≤ 4)
    × (1 ≤ c.qjl_dim)
    × (((c.codec_id ≡ turbo_quant_prod_v1) × (c.norm_policy ≡ normalize_and_store))
        ⊎ ((c.codec_id ≡ legacy_3_bit_v1)
            × (c.norm_policy ≡ as_is)
            × (c.mse_bits ≡ 2)
            × (c.qjl_dim ≡ 512)))

-- A configuration is valid exactly if it has 512 dimensions, one to four index bits and a sign bit,
-- and the norm policy of its codec; the legacy codec with two index bits and 512 sign bits.
pub validate-exact : (c : TurboQuantConfig) → (validate c ≡ ok tt) ↔ IsSupported c
unfolding validate supports_dim norm_policy_of
validate-exact c = ground arith

from_name-name : (c : TurboCodecId) → from_name (name c) ≡ some c
unfolding from_name name
from_name-name legacy_3_bit_v1 = refl
from_name-name turbo_quant_prod_v1 = refl

policy_from_name-policy_name : (p : NormPolicy) → policy_from_name (policy_name p) ≡ some p
unfolding policy_from_name policy_name
policy_from_name-policy_name as_is = refl
policy_from_name-policy_name normalize_and_store = refl

name-from_name : (t : String) (c : TurboCodecId) → from_name t ≡ some c → name c ≡ t
unfolding from_name name
name-from_name t legacy_3_bit_v1 h =
    ground (arith, h, str_eq_iff "legacy_3bit_v1" t, str_eq_iff "turbo_quant_prod_v1" t)
name-from_name t turbo_quant_prod_v1 h =
    ground (arith, h, str_eq_iff "legacy_3bit_v1" t, str_eq_iff "turbo_quant_prod_v1" t)

policy_name-from_name :
    (t : String) (p : NormPolicy) → policy_from_name t ≡ some p → policy_name p ≡ t
unfolding policy_from_name policy_name
policy_name-from_name t as_is h =
    ground (arith, h, str_eq_iff "as_is" t, str_eq_iff "normalize_and_store" t)
policy_name-from_name t normalize_and_store h =
    ground (arith, h, str_eq_iff "as_is" t, str_eq_iff "normalize_and_store" t)

-- A codec section and a configuration stand for each other: one is read as the other exactly if
-- the other is written as the first.
v4_metadata-inverse :
    (section : V4CodecMetadata) (c : TurboQuantConfig)
    → (from_v4_codec_metadata section ≡ ok c) ↔ (to_v4_codec_metadata c ≡ ok section)
unfolding to_v4_codec_metadata from_v4_codec_metadata
v4_metadata-inverse section c = ground (
  arith,
  from_name-name c.codec_id,
  policy_from_name-policy_name c.norm_policy,
  name-from_name section.codec_id c.codec_id,
  policy_name-from_name section.norm_policy c.norm_policy,
)

-- Every field fits its Rust type.
abbrev pub IsTyped : TurboQuantConfig → Type 0
IsTyped c =
    (c.dim < u32_end)
    × (c.mse_bits < 256)
    × (c.qjl_dim < u32_end)
    × (c.mse_seed < u64_end)
    × (c.qjl_seed < u64_end)
    × (c.generator_version < u32_end)

-- The number in the bytes from `start` to `end`.
abbrev word : ℕ → ℕ → List ℕ → ℕ
word start end bytes = from_le (slice start end bytes)

module _ (c : TurboQuantConfig) (fits : IsTyped c) where
  dim-canonical_bytes : word 4 8 (canonical_bytes c) ≡ c.dim
  unfolding canonical_bytes
  dim-canonical_bytes = from_le-le_bytes 4 c.dim (omega arith)

  qjl_dim-canonical_bytes : word 9 13 (canonical_bytes c) ≡ c.qjl_dim
  unfolding canonical_bytes
  qjl_dim-canonical_bytes = from_le-le_bytes 4 c.qjl_dim (omega arith)

  mse_seed-canonical_bytes : word 13 21 (canonical_bytes c) ≡ c.mse_seed
  unfolding canonical_bytes
  mse_seed-canonical_bytes = from_le-le_bytes 8 c.mse_seed (omega arith)

  qjl_seed-canonical_bytes : word 21 29 (canonical_bytes c) ≡ c.qjl_seed
  unfolding canonical_bytes
  qjl_seed-canonical_bytes = from_le-le_bytes 8 c.qjl_seed (omega arith)

  generator_version-canonical_bytes : word 29 33 (canonical_bytes c) ≡ c.generator_version
  unfolding canonical_bytes
  generator_version-canonical_bytes = from_le-le_bytes 4 c.generator_version (omega arith)

  code-canonical_bytes : word 0 4 (canonical_bytes c) ≡ code c.codec_id
  unfolding canonical_bytes code
  code-canonical_bytes = from_le-le_bytes 4 (code c.codec_id) (ground arith)

  mse_bits-canonical_bytes : word 8 9 (canonical_bytes c) ≡ c.mse_bits
  unfolding canonical_bytes
  mse_bits-canonical_bytes = omega arith

  policy_code-canonical_bytes : word 33 34 (canonical_bytes c) ≡ policy_code c.norm_policy
  unfolding canonical_bytes
  policy_code-canonical_bytes = omega arith

code-injective : (a b : TurboCodecId) → code a ≡ code b → a ≡ b
unfolding code
code-injective a b h = ground arith

policy_code-injective : (a b : NormPolicy) → policy_code a ≡ policy_code b → a ≡ b
unfolding policy_code
policy_code-injective a b h = ground arith

same_word :
    (c d : TurboQuantConfig) (start end : ℕ) {m n : ℕ}
    → word start end (canonical_bytes c) ≡ m
    → word start end (canonical_bytes d) ≡ n
    → canonical_bytes c ≡ canonical_bytes d
    → m ≡ n
same_word c d start end hc hd e = sym hc ∙ ap (word start end) e ∙ hd

-- Different configurations have different bytes for the fingerprint, if every field fits its Rust
-- type.
canonical_bytes-injective :
    (c d : TurboQuantConfig) → IsTyped c → IsTyped d → canonical_bytes c ≡ canonical_bytes d → c ≡ d
canonical_bytes-injective c d hc hd e = ground (
  arith,
  same_word c d 4 8 (dim-canonical_bytes c hc) (dim-canonical_bytes d hd) e,
  same_word c d 8 9 (mse_bits-canonical_bytes c hc) (mse_bits-canonical_bytes d hd) e,
  same_word c d 9 13 (qjl_dim-canonical_bytes c hc) (qjl_dim-canonical_bytes d hd) e,
  same_word c d 13 21 (mse_seed-canonical_bytes c hc) (mse_seed-canonical_bytes d hd) e,
  same_word c d 21 29 (qjl_seed-canonical_bytes c hc) (qjl_seed-canonical_bytes d hd) e,
  same_word c d 29 33 (generator_version-canonical_bytes c hc)
      (generator_version-canonical_bytes d hd) e,
  code-injective c.codec_id d.codec_id
      (same_word c d 0 4 (code-canonical_bytes c hc) (code-canonical_bytes d hd) e),
  policy_code-injective c.norm_policy d.norm_policy
      (same_word c d 33 34 (policy_code-canonical_bytes c hc) (policy_code-canonical_bytes d hd) e),
)
