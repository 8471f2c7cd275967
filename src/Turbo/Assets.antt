-- ===== src/Turbo/Assets.antt =====
-- The asset files of the codecs: src/index/assets.rs, rotation.rs, qjl.rs and codebook.rs, but for the
-- arithmetic. An `f32` is its 32 bits, as a number.
pub mod RoundTrip
use ltsearch.Common.{
  ℕ, ◌+◌, ◌*◌, ◌/◌, ◌%◌, ◌^◌, Bool, true, false, not, List, [], ◌∷◌, ◌++◌, Result, ok, err, ltb,
  leb, ◌==◌, ◌&&◌, ◌||◌, length, take, if◌then◌else◌,
}
use ltsearch.Common.Outcome.{guard, ◌>>=◌, ◌>>◌}
use ltsearch.Common.Words.{le_bytes, from_le, slice, drop, same_bytes}

pub data AssetError : Type 0 where
  invalid_size : ℕ → ℕ → AssetError
  invalid_layout : ℕ → ℕ → AssetError
  dimension_mismatch : ℕ → ℕ → AssetError
  invalid_dim : AssetError
  invalid_magic : List ℕ → List ℕ → AssetError
  unsupported_codebook_bits : ℕ → AssetError
  centroids_not_ascending : AssetError

pub record CentroidTable : Type 0 where
  pub dim : ℕ
  pub centroids_per_dim : ℕ
  pub values : List ℕ

pub record ProjectionMatrix : Type 0 where
  pub input_dim : ℕ
  pub output_dim : ℕ
  pub values : List ℕ

pub record Rotation : Type 0 where
  pub dim : ℕ
  pub seed : ℕ
  pub generator_version : ℕ
  pub matrix : List ℕ

pub record QjlMatrix : Type 0 where
  pub dim : ℕ
  pub qjl_dim : ℕ
  pub seed : ℕ
  pub generator_version : ℕ
  pub values : List ℕ

-- The thresholds are a function of the centroids, and left out.
pub record LloydMaxCodebook : Type 0 where
  pub dim : ℕ
  pub bits : ℕ
  pub centroids : List ℕ

-- `chunks_exact(4)`, each as a word
unfoldable pub words : List ℕ → List ℕ
words (a ∷ b ∷ c ∷ d ∷ rest) = from_le (a ∷ b ∷ c ∷ d ∷ []) ∷ words rest
words _ = []

unfoldable pub write_values : List ℕ → List ℕ
write_values [] = []
write_values (v ∷ values) = le_bytes 4 v ++ write_values values

unfoldable pub parse_values : List ℕ → ℕ → ℕ → Result AssetError (List ℕ)
unfolding words
parse_values bytes first_dim second_dim = do
  guard (not (first_dim == 0 || second_dim == 0)) invalid_dim
  guard (length bytes % 4 == 0) (invalid_layout (first_dim * second_dim) (length bytes / 4))
  guard (length bytes / 4 == first_dim * second_dim)
      (invalid_layout (first_dim * second_dim) (length bytes / 4))
  ok (words bytes)

abbrev pub asset_header_size : ℕ
asset_header_size = 8

-- The two checks of the size before the header of a legacy asset is read.
abbrev check_legacy_size : List ℕ → Result AssetError (Unit {0})
check_legacy_size bytes = do
  guard (not (ltb (length bytes) asset_header_size)) (invalid_size asset_header_size (length bytes))
  guard (not (length bytes == asset_header_size))
      (invalid_size (asset_header_size + 4) (length bytes))

unfoldable pub centroids_from_bytes : List ℕ → Result AssetError CentroidTable
unfolding parse_values
centroids_from_bytes bytes = do
  check_legacy_size bytes
  values ←
      parse_values (drop asset_header_size bytes) (from_le (slice 0 4 bytes))
        (from_le (slice 4 8 bytes))
  ok (record {
    dim = from_le (slice 0 4 bytes);
    centroids_per_dim = from_le (slice 4 8 bytes);
    values = values;
  })

unfoldable pub centroids_to_bytes : CentroidTable → List ℕ
unfolding write_values
centroids_to_bytes t = le_bytes 4 t.dim ++ (le_bytes 4 t.centroids_per_dim ++ write_values t.values)

unfoldable pub projection_from_bytes : List ℕ → Result AssetError ProjectionMatrix
unfolding parse_values
projection_from_bytes bytes = do
  check_legacy_size bytes
  values ←
      parse_values (drop asset_header_size bytes) (from_le (slice 4 8 bytes))
        (from_le (slice 0 4 bytes))
  ok (record {
    input_dim = from_le (slice 0 4 bytes);
    output_dim = from_le (slice 4 8 bytes);
    values = values;
  })

unfoldable pub projection_to_bytes : ProjectionMatrix → List ℕ
unfolding write_values
projection_to_bytes m = le_bytes 4 m.input_dim ++ (le_bytes 4 m.output_dim ++ write_values m.values)

-- `split_first_chunk`, and the check of the magic bytes.
abbrev check_magic : List ℕ → ℕ → List ℕ → Result AssetError (Unit {0})
check_magic magic size bytes = do
  guard (leb size (length bytes)) (invalid_size size (length bytes))
  guard (same_bytes (slice 0 4 bytes) magic) (invalid_magic magic (slice 0 4 bytes))

-- b"TQRT"
abbrev pub rotation_magic : List ℕ
rotation_magic = b'T' ∷ b'Q' ∷ b'R' ∷ b'T' ∷ []

unfoldable pub rotation_from_bytes : List ℕ → Result AssetError Rotation
unfolding parse_values
rotation_from_bytes bytes = do
  check_magic rotation_magic 20 bytes
  matrix ← parse_values (drop 20 bytes) (from_le (slice 4 8 bytes)) (from_le (slice 4 8 bytes))
  ok (record {
    dim = from_le (slice 4 8 bytes);
    seed = from_le (slice 8 16 bytes);
    generator_version = from_le (slice 16 20 bytes);
    matrix = matrix;
  })

unfoldable pub rotation_to_bytes : Rotation → List ℕ
unfolding write_values
rotation_to_bytes r =
    rotation_magic
    ++ (le_bytes 4 r.dim
        ++ (le_bytes 8 r.seed ++ (le_bytes 4 r.generator_version ++ write_values r.matrix)))

-- b"TQJL"
abbrev pub qjl_magic : List ℕ
qjl_magic = b'T' ∷ b'Q' ∷ b'J' ∷ b'L' ∷ []

unfoldable pub qjl_from_bytes : List ℕ → Result AssetError QjlMatrix
unfolding parse_values
qjl_from_bytes bytes = do
  check_magic qjl_magic 24 bytes
  values ← parse_values (drop 24 bytes) (from_le (slice 8 12 bytes)) (from_le (slice 4 8 bytes))
  ok (record {
    dim = from_le (slice 4 8 bytes);
    qjl_dim = from_le (slice 8 12 bytes);
    seed = from_le (slice 12 20 bytes);
    generator_version = from_le (slice 20 24 bytes);
    values = values;
  })

unfoldable pub qjl_to_bytes : QjlMatrix → List ℕ
unfolding write_values
qjl_to_bytes q =
    qjl_magic
    ++ (le_bytes 4 q.dim
        ++ (le_bytes 4 q.qjl_dim
            ++ (le_bytes 8 q.seed ++ (le_bytes 4 q.generator_version ++ write_values q.values))))

-- `f32::is_finite`: the exponent is not all ones.
abbrev is_finite : ℕ → Bool
is_finite bits = not (bits / 8_388_608 % 256 == 255)

-- `<` on two finite `f32`: the sign is the highest bit, and the two zeros are equal.
abbrev float_less : ℕ → ℕ → Bool
float_less a b =
    let magnitude_a = a % 2_147_483_648 in
    let magnitude_b = b % 2_147_483_648 in
    if leb 2_147_483_648 a
    then (if leb 2_147_483_648 b
        then ltb magnitude_b magnitude_a
        else not (magnitude_a == 0 && magnitude_b == 0))
    else if leb 2_147_483_648 b
    then false
    else ltb magnitude_a magnitude_b

-- Finite and strictly ascending. A value that is not finite fails the second test of the source, so
-- the order of such values does not matter.
unfoldable pub all_finite : List ℕ → Bool
all_finite [] = true
all_finite (c ∷ rest) = is_finite c && all_finite rest

unfoldable pub is_ascending : List ℕ → Bool
is_ascending [] = true
is_ascending (a ∷ []) = true
is_ascending (a ∷ b ∷ rest) = float_less a b && is_ascending (b ∷ rest)

-- b"TQCB"
abbrev pub codebook_magic : List ℕ
codebook_magic = b'T' ∷ b'Q' ∷ b'C' ∷ b'B' ∷ []

unfoldable pub codebook_from_bytes : List ℕ → Result AssetError LloydMaxCodebook
unfolding parse_values all_finite is_ascending
codebook_from_bytes bytes =
    let dim = from_le (slice 4 8 bytes) in
    let bits = from_le (slice 8 12 bytes) in
    do
      check_magic codebook_magic 12 bytes
      guard (not (dim == 0)) invalid_dim
      guard (leb 1 bits && leb bits 4) (unsupported_codebook_bits bits)
      centroids ← parse_values (drop 12 bytes) (2 ^ bits) 1
      guard (is_ascending centroids && all_finite centroids) centroids_not_ascending
      ok (record { dim = dim; bits = bits; centroids = centroids })

unfoldable pub codebook_to_bytes : LloydMaxCodebook → List ℕ
unfolding write_values
codebook_to_bytes c =
    codebook_magic ++ (le_bytes 4 c.dim ++ (le_bytes 4 c.bits ++ write_values c.centroids))
