-- ===== src/Turbo/Release/Framing.antt =====
-- Bytes that are put together can be taken apart: words, and fields after their length.
use ltsearch.Common.{
  ℕ, ◌^◌, ◌<◌, String, List, [], ◌∷◌, ◌++◌, length, ◌≡◌, refl, sym, ap, ◌∙◌, arith, ◌⊎◌, inl, inr,
}
use ltsearch.Common.Utf8.{as_bytes, as_bytes-injective}
use ltsearch.Common.Words.{le_bytes, from_le, u64_end, from_le-le_bytes, length-le_bytes}
use ltsearch.Turbo.Release.{len_prefixed}

pub append_split :
    (xs ys s t : List ℕ) → length xs ≡ length ys → xs ++ s ≡ ys ++ t → (xs ≡ ys) × (s ≡ t)
append_split [] [] s t h e = (refl, e)
append_split [] (y ∷ ys) s t h e = absurd (omega (arith, h))
append_split (x ∷ xs) [] s t h e = absurd (omega (arith, h))
append_split (x ∷ xs) (y ∷ ys) s t h e =
    let head : x ≡ y = ground (arith, e) in
    let (same, rest) = append_split xs ys s t (omega (arith, h)) (ground (arith, e)) in
    (ap (λ z. z ∷ xs) head ∙ ap (λ zs. y ∷ zs) same, rest)

pub word_split :
    (n v w : ℕ) (s t : List ℕ)
    → v < 256 ^ n
    → w < 256 ^ n
    → le_bytes n v ++ s ≡ le_bytes n w ++ t
    → (v ≡ w) × (s ≡ t)
word_split n v w s t hv hw e =
    let (same, rest) =
      append_split (le_bytes n v) (le_bytes n w) s t
        (length-le_bytes n v ∙ sym (length-le_bytes n w)) e in
    (sym (from_le-le_bytes n v hv) ∙ ap from_le same ∙ from_le-le_bytes n w hw, rest)

pub len_prefixed_split :
    (a b s t : List ℕ)
    → length a < u64_end
    → length b < u64_end
    → len_prefixed a s ≡ len_prefixed b t
    → (a ≡ b) × (s ≡ t)
unfolding len_prefixed
len_prefixed_split a b s t ha hb e =
    let (same, rest) =
      word_split 8 (length a) (length b) (a ++ s) (b ++ t) (omega arith) (omega arith) e in
    append_split a b s t same rest

-- The length of a text is a `u64`.
abbrev pub Fits : String → Type 0
Fits s = length (as_bytes s) < u64_end

pub text_split :
    (a b : String) (s t : List ℕ)
    → Fits a
    → Fits b
    → len_prefixed (as_bytes a) s ≡ len_prefixed (as_bytes b) t
    → (a ≡ b) × (s ≡ t)
text_split a b s t ha hb e =
    let (same, rest) = len_prefixed_split (as_bytes a) (as_bytes b) s t ha hb e in
    (as_bytes-injective a b same, rest)

pub bytes_cases : (xs ys : List ℕ) → ((xs ≡ ys) ⊎ ¬ (xs ≡ ys))
bytes_cases [] [] = inl refl
bytes_cases [] (y ∷ ys) = inr (λ e. ground (arith, e))
bytes_cases (x ∷ xs) [] = inr (λ e. ground (arith, e))
bytes_cases (x ∷ xs) (y ∷ ys) = elim (bytes_cases xs ys) [
  | inl rest ↦ ground (arith, rest)
  | inr other ↦ inr (λ e. other (ground (arith, e)))
]
