-- ===== src/Turbo/ProdCodec.antt =====
-- src/index/turbo_prod.rs: the codec of a v4 release, assembled from its stored assets.
use ltsearch.Common.{
  ℕ, Bool, List, [], ◌∷◌, String, Option, none, some, Result, ok, ◌==◌, ◌&&◌, if◌then◌else◌,
}
use ltsearch.Common.Outcome.{guard, map_err, ok_or, ◌>>=◌, ◌>>◌}
use ltsearch.Common.Words.{same_bytes}
use ltsearch.Turbo.Codec.{
  TurboQuantConfig, TurboQuantConfigError, TurboCodecId, turbo_quant_prod_v1, same_codec, validate,
}
use ltsearch.Turbo.Assets.{Rotation, QjlMatrix, LloydMaxCodebook}

pub data TurboProdError : Type 0 where
  config : TurboQuantConfigError → TurboProdError
  not_turbo_quant_prod : TurboCodecId → TurboProdError
  unsupported_mse_bits : ℕ → TurboProdError
  no_committed_codebook : ℕ → ℕ → TurboProdError
  unsupported_generator_version : ℕ → TurboProdError
  asset_mismatch : String → String → ℕ → ℕ → TurboProdError
  not_the_committed_codebook : TurboProdError
  dimension_mismatch : ℕ → ℕ → TurboProdError
  non_finite_input : TurboProdError
  norm_overflow : TurboProdError

pub record TurboQuantProdV1 : Type 0 where
  pub config : TurboQuantConfig
  pub rotation : Rotation
  pub codebook : LloydMaxCodebook
  pub qjl : QjlMatrix

abbrev pub idx_bits : ℕ
idx_bits = 2

unfoldable pub check_config : TurboQuantConfig → Result TurboProdError (Unit {0})
unfolding validate
check_config c = do
  map_err config (validate c)
  guard (same_codec c.codec_id turbo_quant_prod_v1) (not_turbo_quant_prod c.codec_id)
  guard (c.mse_bits == idx_bits) (unsupported_mse_bits c.mse_bits)

-- The bits of -0.06669391, -0.02000666, 0.02000666 and 0.06669391.
abbrev pub d512_b2_centroids : List ℕ
d512_b2_centroids = 3_179_845_329 ∷ 3_164_857_602 ∷ 1_017_373_954 ∷ 1_032_361_681 ∷ []

-- `LloydMaxCodebook::committed`
unfoldable pub committed : ℕ → ℕ → Option LloydMaxCodebook
committed dim bits =
    if dim == 512 && bits == 2
    then some (record { dim = dim; bits = bits; centroids = d512_b2_centroids })
    else none

unfoldable pub committed_codebook : TurboQuantConfig → Result TurboProdError LloydMaxCodebook
unfolding committed
committed_codebook c = ok_or (committed c.dim c.mse_bits) (no_committed_codebook c.dim c.mse_bits)

-- The derived equality, with the committed codebook on the right: its values are no zeros, so equal
-- floats have equal bits.
abbrev same_codebook : LloydMaxCodebook → LloydMaxCodebook → Bool
same_codebook a b = a.dim == b.dim && a.bits == b.bits && same_bytes a.centroids b.centroids

-- `if expected != actual { return Err(…) }`
abbrev matches : String → String → ℕ → ℕ → Result TurboProdError (Unit {0})
matches asset field expected actual =
    guard (expected == actual) (asset_mismatch asset field expected actual)

unfoldable pub from_assets :
    TurboQuantConfig
    → Rotation
    → LloydMaxCodebook
    → QjlMatrix
    → Result TurboProdError TurboQuantProdV1
unfolding check_config committed_codebook
from_assets c rotation codebook qjl = do
  check_config c
  matches "rotation" "dim" c.dim rotation.dim
  matches "rotation" "seed" c.mse_seed rotation.seed
  matches "rotation" "generator_version" c.generator_version rotation.generator_version
  matches "codebook" "dim" c.dim codebook.dim
  matches "codebook" "bits" c.mse_bits codebook.bits
  matches "qjl" "dim" c.dim qjl.dim
  matches "qjl" "qjl_dim" c.qjl_dim qjl.qjl_dim
  matches "qjl" "seed" c.qjl_seed qjl.seed
  matches "qjl" "generator_version" c.generator_version qjl.generator_version
  expected ← committed_codebook c
  guard (same_codebook codebook expected) not_the_committed_codebook
  ok (record { config = c; rotation = rotation; codebook = codebook; qjl = qjl })
