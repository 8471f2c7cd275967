-- ===== src/Turbo/Assets/RoundTrip.antt =====
-- The assets are read back from their files.
use ltsearch.Common.{
  ℕ, zero, suc, ◌*◌, ◌^◌, ◌≤◌, ◌<◌, ◌≡◌, refl, arith, List, [], ◌∷◌, ok, All, length, true,
}
use native.Mathlib.Nat.{mul-pos}
use ltsearch.Common.Words.{u32_end, u64_end, from_le-le_bytes}
use ltsearch.Turbo.Assets.{
  words, write_values, parse_values, Rotation, rotation_to_bytes, rotation_from_bytes, QjlMatrix,
  qjl_to_bytes, qjl_from_bytes, LloydMaxCodebook, codebook_to_bytes, codebook_from_bytes,
  is_ascending, all_finite, CentroidTable, centroids_to_bytes, centroids_from_bytes,
  ProjectionMatrix, projection_to_bytes, projection_from_bytes,
}

-- The words of a matrix or a table of 32-bit values.
abbrev pub AreWords : List ℕ → Type 0
AreWords values = All (λ v. v < u32_end) values

words-write_values : (values : List ℕ) → AreWords values → words (write_values values) ≡ values
unfolding words write_values
words-write_values [] h = refl
words-write_values (v ∷ values) (fits, h) =
    ground (arith, from_le-le_bytes 4 v (omega (arith, fits)), words-write_values values h)

pub length-write_values : (values : List ℕ) → length (write_values values) ≡ 4 * length values
unfolding write_values
length-write_values [] = refl
length-write_values (v ∷ values) = omega (arith, length-write_values values)

parse_values-write_values :
    (values : List ℕ) (a b : ℕ)
    → AreWords values
    → 0 < a
    → 0 < b
    → length values ≡ a * b
    → parse_values (write_values values) a b ≡ ok values
unfolding parse_values
parse_values-write_values values a b fits pa pb size =
    ground (arith, length-write_values values, words-write_values values fits, size)

-- A rotation is read back from its file, if its numbers fit their types.
pub rotation_from_bytes-rotation_to_bytes :
    (r : Rotation)
    → 0 < r.dim
    → r.dim < u32_end
    → r.seed < u64_end
    → r.generator_version < u32_end
    → AreWords r.matrix
    → length r.matrix ≡ r.dim * r.dim
    → rotation_from_bytes (rotation_to_bytes r) ≡ ok r
unfolding rotation_from_bytes rotation_to_bytes
rotation_from_bytes-rotation_to_bytes r d0 d s g fits size = ground (
  arith,
  from_le-le_bytes 4 r.dim (omega (arith, d)),
  from_le-le_bytes 8 r.seed (omega (arith, s)),
  from_le-le_bytes 4 r.generator_version (omega (arith, g)),
  parse_values-write_values r.matrix r.dim r.dim fits d0 d0 size,
)

-- A QJL matrix is read back from its file, if its numbers fit their types.
pub qjl_from_bytes-qjl_to_bytes :
    (q : QjlMatrix)
    → 0 < q.dim
    → q.dim < u32_end
    → 0 < q.qjl_dim
    → q.qjl_dim < u32_end
    → q.seed < u64_end
    → q.generator_version < u32_end
    → AreWords q.values
    → length q.values ≡ q.qjl_dim * q.dim
    → qjl_from_bytes (qjl_to_bytes q) ≡ ok q
unfolding qjl_from_bytes qjl_to_bytes
qjl_from_bytes-qjl_to_bytes q d0 d m0 m s g fits size = ground (
  arith,
  from_le-le_bytes 4 q.dim (omega (arith, d)),
  from_le-le_bytes 4 q.qjl_dim (omega (arith, m)),
  from_le-le_bytes 8 q.seed (omega (arith, s)),
  from_le-le_bytes 4 q.generator_version (omega (arith, g)),
  parse_values-write_values q.values q.qjl_dim q.dim fits m0 d0 size,
)

power_positive : (n : ℕ) → 0 < 2 ^ n
power_positive zero = omega arith
power_positive (suc n) = omega (arith, power_positive n)

-- A codebook of one to four bits, finite and ascending, whose numbers fit, is read back from its file.
codebook_from_bytes-codebook_to_bytes :
    (c : LloydMaxCodebook)
    → 0 < c.dim
    → c.dim < u32_end
    → 1 ≤ c.bits
    → c.bits ≤ 4
    → AreWords c.centroids
    → length c.centroids ≡ 2 ^ c.bits
    → is_ascending c.centroids ≡ true
    → all_finite c.centroids ≡ true
    → codebook_from_bytes (codebook_to_bytes c) ≡ ok c
unfolding codebook_from_bytes codebook_to_bytes
codebook_from_bytes-codebook_to_bytes c d0 d b1 b4 fits size ascending finite = ground (
  arith,
  from_le-le_bytes 4 c.dim (omega (arith, d)),
  from_le-le_bytes 4 c.bits (omega (arith, b4)),
  parse_values-write_values c.centroids (2 ^ c.bits) 1 fits (power_positive c.bits) (omega arith)
      (omega (arith, size)),
)

-- A table of centroids and a projection matrix are read back from their files, if their numbers fit.
centroids_from_bytes-centroids_to_bytes :
    (t : CentroidTable)
    → 0 < t.dim
    → t.dim < u32_end
    → 0 < t.centroids_per_dim
    → t.centroids_per_dim < u32_end
    → AreWords t.values
    → length t.values ≡ t.dim * t.centroids_per_dim
    → centroids_from_bytes (centroids_to_bytes t) ≡ ok t
unfolding centroids_from_bytes centroids_to_bytes
centroids_from_bytes-centroids_to_bytes t d0 d c0 c fits size = ground (
  arith,
  from_le-le_bytes 4 t.dim (omega (arith, d)),
  from_le-le_bytes 4 t.centroids_per_dim (omega (arith, c)),
  parse_values-write_values t.values t.dim t.centroids_per_dim fits d0 c0 size,
  length-write_values t.values,
  size,
  mul-pos d0 c0,
)

projection_from_bytes-projection_to_bytes :
    (m : ProjectionMatrix)
    → 0 < m.input_dim
    → m.input_dim < u32_end
    → 0 < m.output_dim
    → m.output_dim < u32_end
    → AreWords m.values
    → length m.values ≡ m.output_dim * m.input_dim
    → projection_from_bytes (projection_to_bytes m) ≡ ok m
unfolding projection_from_bytes projection_to_bytes
projection_from_bytes-projection_to_bytes m i0 i o0 o fits size = ground (
  arith,
  from_le-le_bytes 4 m.input_dim (omega (arith, i)),
  from_le-le_bytes 4 m.output_dim (omega (arith, o)),
  parse_values-write_values m.values m.output_dim m.input_dim fits o0 i0 size,
  length-write_values m.values,
  size,
  mul-pos o0 i0,
)
