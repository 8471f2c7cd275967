-- ===== src/Turbo/Codec.antt =====
-- src/index/codec_config.rs: codecs, their parameters, and the codec section of a release manifest
-- (src/index/release_manifest.rs). SHA-256 is a parameter of `fingerprint`.
pub mod Rules
use ltsearch.Common.{
  ℕ, zero, suc, ◌+◌, ◌*◌, ◌^◌, String, Bool, true, false, not, Option, none, some, List, [], ◌∷◌,
  ◌++◌, Result, ok, err, ltb, leb, ◌==◌, ◌&&◌, ◌||◌, str_eq, length, take, if◌then◌else◌,
}
use ltsearch.Common.Outcome.{guard, ok_or, ◌>>=◌, ◌>>◌}
use ltsearch.Common.Words.{le_bytes, write_at, zeros}

pub data TurboCodecId : Type 0 where
  legacy_3_bit_v1 turbo_quant_prod_v1 : TurboCodecId

pub data NormPolicy : Type 0 where
  as_is normalize_and_store : NormPolicy

-- The derived equalities.
abbrev pub same_codec : TurboCodecId → TurboCodecId → Bool
same_codec legacy_3_bit_v1 legacy_3_bit_v1 = true
same_codec turbo_quant_prod_v1 turbo_quant_prod_v1 = true
same_codec _ _ = false

abbrev pub same_policy : NormPolicy → NormPolicy → Bool
same_policy as_is as_is = true
same_policy normalize_and_store normalize_and_store = true
same_policy _ _ = false

unfoldable pub code : TurboCodecId → ℕ
code legacy_3_bit_v1 = 1
code turbo_quant_prod_v1 = 2

unfoldable pub from_code : ℕ → Option TurboCodecId
from_code n =
    if n == 1 then some legacy_3_bit_v1 else if n == 2 then some turbo_quant_prod_v1 else none

unfoldable pub name : TurboCodecId → String
name legacy_3_bit_v1 = "legacy_3bit_v1"
name turbo_quant_prod_v1 = "turbo_quant_prod_v1"

-- `ALL.into_iter().find(…)`
unfoldable pub from_name : String → Option TurboCodecId
unfolding name
from_name text =
    if str_eq (name legacy_3_bit_v1) text
    then some legacy_3_bit_v1
    else if str_eq (name turbo_quant_prod_v1) text
    then some turbo_quant_prod_v1
    else none

unfoldable pub supports_dim : TurboCodecId → ℕ → Bool
supports_dim codec dim = dim == 512

unfoldable pub norm_policy_of : TurboCodecId → NormPolicy
norm_policy_of legacy_3_bit_v1 = as_is
norm_policy_of turbo_quant_prod_v1 = normalize_and_store

unfoldable pub policy_code : NormPolicy → ℕ
policy_code as_is = 0
policy_code normalize_and_store = 1

unfoldable pub policy_name : NormPolicy → String
policy_name as_is = "as_is"
policy_name normalize_and_store = "normalize_and_store"

unfoldable pub policy_from_name : String → Option NormPolicy
unfolding policy_name
policy_from_name text =
    if str_eq (policy_name as_is) text
    then some as_is
    else if str_eq (policy_name normalize_and_store) text
    then some normalize_and_store
    else none

pub record TurboQuantConfig : Type 0 where
  pub codec_id : TurboCodecId
  pub dim : ℕ
  pub mse_bits : ℕ
  pub qjl_dim : ℕ
  pub mse_seed : ℕ
  pub qjl_seed : ℕ
  pub generator_version : ℕ
  pub norm_policy : NormPolicy

pub data TurboQuantConfigError : Type 0 where
  zero_dim : TurboQuantConfigError
  unsupported_mse_bits : ℕ → TurboQuantConfigError
  zero_qjl_dim : TurboQuantConfigError
  unsupported_dim : TurboCodecId → ℕ → TurboQuantConfigError
  unsupported_norm_policy : TurboCodecId → NormPolicy → TurboQuantConfigError
  unsupported_legacy_layout : ℕ → ℕ → TurboQuantConfigError
  not_a_v3_codec : TurboCodecId → TurboQuantConfigError
  not_a_v4_codec : TurboCodecId → TurboQuantConfigError
  unknown_codec_name : String → TurboQuantConfigError
  unknown_norm_policy_name : String → TurboQuantConfigError

abbrev pub gaussian_generator_version : ℕ
gaussian_generator_version = 1

abbrev pub legacy_v1 : TurboQuantConfig
legacy_v1 = record {
  codec_id = legacy_3_bit_v1;
  dim = 512;
  mse_bits = 2;
  qjl_dim = 512;
  mse_seed = 7;
  qjl_seed = 11;
  generator_version = 0;
  norm_policy = as_is;
}

abbrev pub prod_v1 : TurboQuantConfig
prod_v1 = record {
  codec_id = turbo_quant_prod_v1;
  dim = 512;
  mse_bits = 2;
  qjl_dim = 512;
  mse_seed = 163;
  qjl_seed = 165;
  generator_version = gaussian_generator_version;
  norm_policy = normalize_and_store;
}

-- `None` is the panic of the source.
unfoldable pub centroids_per_dim : TurboQuantConfig → Option ℕ
centroids_per_dim c = if ltb c.mse_bits 32 then some (2 ^ c.mse_bits) else none

unfoldable pub validate : TurboQuantConfig → Result TurboQuantConfigError (Unit {0})
unfolding supports_dim norm_policy_of
validate c = do
  guard (not (c.dim == 0)) zero_dim
  guard (leb 1 c.mse_bits && leb c.mse_bits 4) (unsupported_mse_bits c.mse_bits)
  guard (not (c.qjl_dim == 0)) zero_qjl_dim
  guard (supports_dim c.codec_id c.dim) (unsupported_dim c.codec_id c.dim)
  guard (same_policy c.norm_policy (norm_policy_of c.codec_id))
      (unsupported_norm_policy c.codec_id c.norm_policy)
  guard
      (not (
        same_codec c.codec_id legacy_3_bit_v1
        && (not (c.mse_bits == 2) || not (c.qjl_dim == c.dim))))
      (unsupported_legacy_layout c.mse_bits c.qjl_dim)

-- src/index/release_manifest.rs: the codec sections of the v3 and the v4 manifest.
pub record CodecMetadata : Type 0 where
  pub dim : ℕ
  pub centroids_per_dim : Option ℕ
  pub centroids_seed : ℕ
  pub projection_seed : ℕ

pub record V4CodecMetadata : Type 0 where
  pub codec_id : String
  pub dim : ℕ
  pub mse_bits : ℕ
  pub qjl_dim : ℕ
  pub rotation_seed : ℕ
  pub qjl_seed : ℕ
  pub generator_version : ℕ
  pub norm_policy : String

unfoldable pub to_v3_codec_metadata : TurboQuantConfig → Result TurboQuantConfigError CodecMetadata
unfolding validate centroids_per_dim
to_v3_codec_metadata c = do
  validate c
  guard (same_codec c.codec_id legacy_3_bit_v1) (not_a_v3_codec c.codec_id)
  ok (record {
    dim = c.dim;
    centroids_per_dim = centroids_per_dim c;
    centroids_seed = c.mse_seed;
    projection_seed = c.qjl_seed;
  })

unfoldable pub to_v4_codec_metadata :
    TurboQuantConfig → Result TurboQuantConfigError V4CodecMetadata
unfolding validate name policy_name
to_v4_codec_metadata c = do
  validate c
  guard (same_codec c.codec_id turbo_quant_prod_v1) (not_a_v4_codec c.codec_id)
  ok (record {
    codec_id = name c.codec_id;
    dim = c.dim;
    mse_bits = c.mse_bits;
    qjl_dim = c.qjl_dim;
    rotation_seed = c.mse_seed;
    qjl_seed = c.qjl_seed;
    generator_version = c.generator_version;
    norm_policy = policy_name c.norm_policy;
  })

abbrev config_of : V4CodecMetadata → TurboCodecId → NormPolicy → TurboQuantConfig
config_of section id policy = record {
  codec_id = id;
  dim = section.dim;
  mse_bits = section.mse_bits;
  qjl_dim = section.qjl_dim;
  mse_seed = section.rotation_seed;
  qjl_seed = section.qjl_seed;
  generator_version = section.generator_version;
  norm_policy = policy;
}

unfoldable pub from_v4_codec_metadata :
    V4CodecMetadata → Result TurboQuantConfigError TurboQuantConfig
unfolding from_name policy_from_name validate
from_v4_codec_metadata section = do
  codec ← ok_or (from_name section.codec_id) (unknown_codec_name section.codec_id)
  policy ←
      ok_or (policy_from_name section.norm_policy) (unknown_norm_policy_name section.norm_policy)
  guard (same_codec codec turbo_quant_prod_v1) (not_a_v4_codec codec)
  validate (config_of section codec policy)
  ok (config_of section codec policy)

unfoldable pub canonical_bytes : TurboQuantConfig → List ℕ
unfolding code policy_code
canonical_bytes c = write_at 33 (policy_code c.norm_policy ∷ []) (
    write_at 29 (le_bytes 4 c.generator_version) (
      write_at 21 (le_bytes 8 c.qjl_seed) (
        write_at 13 (le_bytes 8 c.mse_seed) (
          write_at 9 (le_bytes 4 c.qjl_dim) (
            write_at 8 (c.mse_bits ∷ []) (
              write_at 4 (le_bytes 4 c.dim)
                (write_at 0 (le_bytes 4 (code c.codec_id)) (zeros 34))))))))
