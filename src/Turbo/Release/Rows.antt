-- ===== src/Turbo/Release/Rows.antt =====
-- What the content digest of a release stands for: its rows, each with all of its fields.
use ltsearch.Common.{
  ℕ, ◌<◌, String, List, [], ◌∷◌, length, ◌≡◌, refl, sym, ap, ◌∙◌, arith, ◌⊎◌, inl, inr, All,
}
use ltsearch.Common.Utf8.{as_bytes}
use ltsearch.Common.Words.{u64_end, u32_end}
use ltsearch.Turbo.Release.{CanonicalRow, float_bytes, row_bytes, content_digest}
use ltsearch.Turbo.Release.Framing.{word_split, Fits, text_split, len_prefixed_split, bytes_cases}
use ltsearch.Turbo.Release.Identity.{Collision, len_prefixed-some}

-- The lengths are `u64`s, and the numbers are 32 bits each.
abbrev pub RowFits : CanonicalRow → Type 0
RowFits r =
    Fits r.doc_id
    × (length r.embedding < u64_end)
    × All (λ x. x < u32_end) r.embedding
    × Fits r.text
    × (length r.canonical_meta_json < u64_end)

floats_split :
    (xs ys s t : List ℕ)
    → All (λ x. x < u32_end) xs
    → All (λ x. x < u32_end) ys
    → length xs ≡ length ys
    → float_bytes xs s ≡ float_bytes ys t
    → (xs ≡ ys) × (s ≡ t)
floats_split [] [] s t hx hy h e = (refl, e)
floats_split [] (y ∷ ys) s t hx hy h e = absurd (omega (arith, h))
floats_split (x ∷ xs) [] s t hx hy h e = absurd (omega (arith, h))
floats_split (x ∷ xs) (y ∷ ys) s t (x0, hx) (y0, hy) h e =
    let (e0, r0) =
      word_split 4 x y (float_bytes xs s) (float_bytes ys t) (omega arith) (omega arith) e in
    let (e1, r1) = floats_split xs ys s t hx hy (omega (arith, h)) r0 in
    (ap (λ z. z ∷ xs) e0 ∙ ap (λ zs. y ∷ zs) e1, r1)

row_bytes-injective :
    (rs qs : List CanonicalRow)
    → All RowFits rs
    → All RowFits qs
    → row_bytes rs ≡ row_bytes qs
    → rs ≡ qs
unfolding row_bytes
row_bytes-injective [] [] hr hq e = refl
row_bytes-injective [] (q ∷ qs) hr hq e = absurd (len_prefixed-some (as_bytes q.doc_id) _ (sym e))
row_bytes-injective (r ∷ rs) [] hr hq e = absurd (len_prefixed-some (as_bytes r.doc_id) _ e)
row_bytes-injective (r ∷ rs) (q ∷ qs) ((a0, a1, a2, a3, a4), hr) ((b0, b1, b2, b3, b4), hq) e =
    let (e0, r0) = text_split r.doc_id q.doc_id _ _ a0 b0 e in
    let (e1, r1) =
      word_split 8 (length r.embedding) (length q.embedding) _ _ (omega arith) (omega arith) r0 in
    let (e2, r2) = floats_split r.embedding q.embedding _ _ a2 b2 e1 r1 in
    let (e3, r3) = text_split r.text q.text _ _ a3 b3 r2 in
    let (e4, r4) = len_prefixed_split r.canonical_meta_json q.canonical_meta_json _ _ a4 b4 r3 in
    let same : r ≡ q = ground (arith, e0, e2, e3, e4) in
    ap (λ p. p ∷ rs) same ∙ ap (λ ps. q ∷ ps) (row_bytes-injective rs qs hr hq r4)

module _ (sha256 : List ℕ → List ℕ) (hex_encode : List ℕ → String) where
  -- Rows with the same content digest are the same rows, or two texts have the same digest; provided
  -- that the lengths of the fields are `u64`s and the numbers 32 bits each.
  pub content_digest-same :
      (rows others : List CanonicalRow)
      → All RowFits rows
      → All RowFits others
      → content_digest sha256 hex_encode rows ≡ content_digest sha256 hex_encode others
      → (rows ≡ others) ⊎ Collision sha256 hex_encode
  unfolding content_digest
  content_digest-same rows others hr hq e = elim (bytes_cases (row_bytes rows) (row_bytes others)) [
    | inl same ↦ inl (row_bytes-injective rows others hr hq same)
    | inr other ↦ inr (row_bytes rows, row_bytes others, other, e)
  ]
