-- ===== src/Turbo/Release/Identity.antt =====
-- What the identifier of a release stands for: its contents, with the outputs in the order of names.
use ltsearch.Common.{
  ℕ, ◌<◌, String, some, List, [], ◌∷◌, length, ◌≡◌, refl, sym, ap, ◌∙◌, arith, ◌⊎◌, inl, inr, All,
  Bool-cases,
}
use ltsearch.Common.Utf8.{as_bytes, as_bytes-injective}
use ltsearch.Common.Words.{u64_end, u32_end}
use ltsearch.Query.Ranker.{str_less}
use ltsearch.Turbo.Codec.{CodecMetadata, V4CodecMetadata}
use ltsearch.Turbo.Release.{
  ManifestCodec, v3, v4, OutputFile, ReleaseManifest, codec_turbo_version, len_prefixed,
  codec_bytes, insert_output, sort_outputs, output_bytes, release_bytes, derive_release_id,
}
use ltsearch.Turbo.Release.Framing.{append_split, word_split, Fits, text_split, bytes_cases}

-- The fields fit their Rust types, and no width has overflowed.
abbrev pub CodecFits : ManifestCodec → Type 0
CodecFits (v3 c) =
    (c.dim < u32_end)
    × ((n : ℕ) × (c.centroids_per_dim ≡ some n) × (n < u32_end))
    × (c.centroids_seed < u64_end)
    × (c.projection_seed < u64_end)
CodecFits (v4 c) =
    Fits c.codec_id
    × (c.dim < u32_end)
    × (c.mse_bits < 256)
    × (c.qjl_dim < u32_end)
    × (c.rotation_seed < u64_end)
    × (c.qjl_seed < u64_end)
    × (c.generator_version < u32_end)
    × Fits c.norm_policy

-- A digest in hexadecimal has 64 characters, each one byte.
abbrev pub OutputFits : OutputFile → Type 0
OutputFits o = Fits o.name × (length (as_bytes o.sha256) ≡ 64) × (o.size_bytes < u64_end)

v3_split :
    (c d : CodecMetadata) (s t : List ℕ)
    → CodecFits (v3 c)
    → CodecFits (v3 d)
    → codec_bytes (v3 c) s ≡ codec_bytes (v3 d) t
    → (v3 c ≡ v3 d) × (s ≡ t)
unfolding codec_bytes
v3_split c d s t (c0, (m, cm, c1), c2, c3) (d0, (n, dn, d1), d2, d3) e =
    let (e0, r0) = word_split 4 c.dim d.dim _ _ (omega arith) (omega arith) e in
    let (e1, r1) = word_split 4 m n _ _ (omega arith) (omega arith) (rw (cm, dn) at r0) in
    let (e2, r2) =
      word_split 8 c.centroids_seed d.centroids_seed _ _ (omega arith) (omega arith) r1 in
    let (e3, r3) =
      word_split 8 c.projection_seed d.projection_seed s t (omega arith) (omega arith) r2 in
    (ap v3 (ground (arith, e0, cm, dn, e1, e2, e3)), r3)

v4_split :
    (c d : V4CodecMetadata) (s t : List ℕ)
    → CodecFits (v4 c)
    → CodecFits (v4 d)
    → codec_bytes (v4 c) s ≡ codec_bytes (v4 d) t
    → (v4 c ≡ v4 d) × (s ≡ t)
unfolding codec_bytes
v4_split c d s t (c0, c1, c2, c3, c4, c5, c6, c7) (d0, d1, d2, d3, d4, d5, d6, d7) e =
    let (e0, r0) = text_split c.codec_id d.codec_id _ _ c0 d0 e in
    let (e1, r1) = word_split 4 c.dim d.dim _ _ (omega arith) (omega arith) r0 in
    let (e2, r2) = word_split 1 c.mse_bits d.mse_bits _ _ (omega arith) (omega arith) r1 in
    let (e3, r3) = word_split 4 c.qjl_dim d.qjl_dim _ _ (omega arith) (omega arith) r2 in
    let (e4, r4) =
      word_split 8 c.rotation_seed d.rotation_seed _ _ (omega arith) (omega arith) r3 in
    let (e5, r5) = word_split 8 c.qjl_seed d.qjl_seed _ _ (omega arith) (omega arith) r4 in
    let (e6, r6) =
      word_split 4 c.generator_version d.generator_version _ _ (omega arith) (omega arith) r5 in
    let (e7, r7) = text_split c.norm_policy d.norm_policy s t c7 d7 r6 in
    (ap v4 (ground (arith, e0, e1, e2, e3, e4, e5, e6, e7)), r7)

codec_split :
    (c d : ManifestCodec) (s t : List ℕ)
    → CodecFits c
    → CodecFits d
    → codec_turbo_version c ≡ codec_turbo_version d
    → codec_bytes c s ≡ codec_bytes d t
    → (c ≡ d) × (s ≡ t)
unfolding codec_turbo_version
codec_split (v3 c) (v3 d) s t hc hd same e = v3_split c d s t hc hd e
codec_split (v4 c) (v4 d) s t hc hd same e = v4_split c d s t hc hd e
codec_split (v3 c) (v4 d) s t hc hd same e = absurd (omega (arith, same))
codec_split (v4 c) (v3 d) s t hc hd same e = absurd (omega (arith, same))

pub len_prefixed-some : (a s : List ℕ) → ¬ (len_prefixed a s ≡ [])
unfolding len_prefixed
len_prefixed-some a s e = ground (arith, e)

output_bytes-injective :
    (os ps : List OutputFile)
    → All OutputFits os
    → All OutputFits ps
    → output_bytes os ≡ output_bytes ps
    → os ≡ ps
unfolding output_bytes
output_bytes-injective [] [] ho hp e = refl
output_bytes-injective [] (p ∷ ps) ho hp e = absurd (len_prefixed-some (as_bytes p.name) _ (sym e))
output_bytes-injective (o ∷ os) [] ho hp e = absurd (len_prefixed-some (as_bytes o.name) _ e)
output_bytes-injective (o ∷ os) (p ∷ ps) ((o0, o1, o2), ho) ((p0, p1, p2), hp) e =
    let (e0, r0) = text_split o.name p.name _ _ o0 p0 e in
    let (e1, r1) = append_split (as_bytes o.sha256) (as_bytes p.sha256) _ _ (o1 ∙ sym p1) r0 in
    let (e2, r2) = word_split 8 o.size_bytes p.size_bytes _ _ (omega arith) (omega arith) r1 in
    let same : o ≡ p = ground (arith, e0, as_bytes-injective o.sha256 p.sha256 e1, e2) in
    ap (λ q. q ∷ os) same ∙ ap (λ qs. p ∷ qs) (output_bytes-injective os ps ho hp r2)

insert_output-All :
    (o : OutputFile) (os : List OutputFile)
    → OutputFits o
    → All OutputFits os
    → All OutputFits (insert_output o os)
unfolding insert_output
insert_output-All o [] h hs = (h, tt)
insert_output-All o (p ∷ ps) h hs = elim (Bool-cases (str_less p.name o.name)) [
  | inl first ↦ rw (first, insert_output) (hs.0, insert_output-All o ps h hs.1)
  | inr later ↦ rw (later, insert_output) (h, hs)
]

sort_outputs-All : (os : List OutputFile) → All OutputFits os → All OutputFits (sort_outputs os)
unfolding sort_outputs
sort_outputs-All [] h = tt
sort_outputs-All (o ∷ os) h = insert_output-All o (sort_outputs os) h.0 (sort_outputs-All os h.1)

-- A manifest that the builder can write: the fields fit their types, and the codec section is that of
-- the version.
abbrev pub IsWritten : ReleaseManifest → Type 0
IsWritten m =
    (m.turbo_version < u32_end)
    × (m.turbo_version ≡ codec_turbo_version m.codec)
    × Fits m.embedding_profile.model_id
    × (m.embedding_profile.dim < u32_end)
    × CodecFits m.codec
    × Fits m.input_fingerprint.content_digest
    × All OutputFits m.outputs

-- Everything but the source, the schema version, the number of documents and the order of the outputs.
abbrev pub SameContents : ReleaseManifest → ReleaseManifest → Type 0
SameContents m n =
    (m.turbo_version ≡ n.turbo_version)
    × (m.embedding_profile ≡ n.embedding_profile)
    × (m.codec ≡ n.codec)
    × (m.input_fingerprint.content_digest ≡ n.input_fingerprint.content_digest)
    × (sort_outputs m.outputs ≡ sort_outputs n.outputs)

abbrev pub hashed : ReleaseManifest → List ℕ
hashed m =
    release_bytes m.turbo_version m.embedding_profile m.codec m.input_fingerprint.content_digest
      m.outputs

hashed-SameContents :
    (m n : ReleaseManifest) → IsWritten m → IsWritten n → hashed m ≡ hashed n → SameContents m n
unfolding release_bytes
hashed-SameContents m n (m0, m1, m2, m3, m4, m5, m6) (n0, n1, n2, n3, n4, n5, n6) e =
    let (e0, r0) = word_split 4 m.turbo_version n.turbo_version _ _ (omega arith) (omega arith) e in
    let (e1, r1) =
      text_split m.embedding_profile.model_id n.embedding_profile.model_id _ _ m2 n2 r0 in
    let (e2, r2) =
      word_split 4 m.embedding_profile.dim n.embedding_profile.dim _ _ (omega arith) (omega arith)
        r1 in
    let (e3, r3) = codec_split m.codec n.codec _ _ m4 n4 (sym m1 ∙ e0 ∙ n1) r2 in
    let (e4, r4) =
      text_split m.input_fingerprint.content_digest n.input_fingerprint.content_digest _ _ m5 n5
        r3 in
    (
      e0,
      ground (arith, e1, e2),
      e3,
      e4,
      output_bytes-injective (sort_outputs m.outputs) (sort_outputs n.outputs)
          (sort_outputs-All m.outputs m6) (sort_outputs-All n.outputs n6) r4,
    )

module _ (sha256 : List ℕ → List ℕ) (hex_encode : List ℕ → String) where
  abbrev pub release_id_of : ReleaseManifest → String
  release_id_of m =
      derive_release_id sha256 hex_encode m.turbo_version m.embedding_profile m.codec
        m.input_fingerprint.content_digest m.outputs

  abbrev pub Collision : Type 0
  Collision =
      (x : List ℕ) × (y : List ℕ) × ¬ (x ≡ y) × (hex_encode (sha256 x) ≡ hex_encode (sha256 y))

  -- Two releases with the same identifier have the same contents, or two texts have the same digest;
  -- provided that the fields of both manifests fit their types, the hashes of their files have 64
  -- bytes and each codec section is that of its version.
  pub derive_release_id-SameContents :
      (m n : ReleaseManifest)
      → IsWritten m
      → IsWritten n
      → release_id_of m ≡ release_id_of n
      → SameContents m n ⊎ Collision
  unfolding derive_release_id
  derive_release_id-SameContents m n hm hn e = elim (bytes_cases (hashed m) (hashed n)) [
    | inl same ↦ inl (hashed-SameContents m n hm hn same)
    | inr other ↦ inr (hashed m, hashed n, other, e)
  ]
