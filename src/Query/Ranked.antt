-- ===== src/Query/Ranked.antt =====
-- src/query/ranker.rs: the order of the fused list.
use Prim.Native.Char.{Char, code}
use Prim.Native.String as Text
use text.Mathlib.TextEquality.{Char-path}
use ltsearch.Common.{
  String, true, false, List, [], ◌∷◌, ◌≡◌, ◌≢◌, refl, sym, ap, ◌∙◌, ◌⊎◌, inl, inr, Distinct,
  Bool-cases, str_eq, str_eq_iff, arith,
}
use ltsearch.Search.{SearchResult}
use ltsearch.Query.Ranker.{Scores, str_less, fuse}
use ltsearch.Query.Sorted.{InOrder, doc_ids}
use ltsearch.Query.Fused.{fuse-Distinct, fuse-InOrder}

code_apart : (c d : Char) (s t : String) → Text.◌∷◌ c s ≢ Text.◌∷◌ d t → s ≡ t → code c ≢ code d
code_apart c d s t apart same e =
    apart (ap (λ b. Text.◌∷◌ b s) (Char-path c d e) ∙ ap (λ u. Text.◌∷◌ d u) same)

-- Of two different texts one is less.
str_less_total : (a b : String) → a ≢ b → str_less a b ≡ false → str_less b a ≡ true
unfolding str_less
str_less_total Text.[] Text.[] apart h = absurd (apart refl)
str_less_total Text.[] (Text.◌∷◌ d t) apart h = absurd (ground (arith, h))
str_less_total (Text.◌∷◌ c s) Text.[] apart h = refl
str_less_total (Text.◌∷◌ c s) (Text.◌∷◌ d t) apart h = elim (Bool-cases (str_eq s t)) [
  | inl same ↦ ground (arith, h, code_apart c d s t apart ((str_eq_iff s t).0 same))
  | inr other ↦
      let rest = str_less_total s t (λ e. cc (other, (str_eq_iff s t).1 e)) in
      elim (Bool-cases (str_less s t)) [
        | inl less ↦ ground (arith, h, less)
        | inr more ↦ ground (arith, h, more, rest more)
      ]
]

module _ {F V : Type 0} (scores : Scores F) where
  -- The score of `x` is not less; and it is greater, or the identifier of `x` is less.
  abbrev pub Precedes : SearchResult F V → SearchResult F V → Type 0
  Precedes x y =
      (scores.less x.score y.score ≡ false)
      × ((scores.less y.score x.score ≡ true) ⊎ (str_less x.doc_id y.doc_id ≡ true))

  -- Each result precedes the next.
  abbrev pub IsDescending : List (SearchResult F V) → Type 0
  IsDescending [] = Unit
  IsDescending (x ∷ []) = Unit
  IsDescending (x ∷ y ∷ ys) = Precedes x y × IsDescending (y ∷ ys)

  -- Of different documents, each of which precedes the next.
  abbrev pub IsRanked : List (SearchResult F V) → Type 0
  IsRanked xs = Distinct (doc_ids scores xs) × IsDescending xs

  InOrder-IsDescending :
      (xs : List (SearchResult F V))
      → Distinct (doc_ids scores xs)
      → InOrder scores xs
      → IsDescending xs
  InOrder-IsDescending [] d o = tt
  InOrder-IsDescending (x ∷ []) d o = tt
  InOrder-IsDescending (x ∷ y ∷ ys) (out, d) (first, o) =
      let apart = λ (e : y.doc_id ≡ x.doc_id). out (inl (sym e)) in
      (
        ground (arith, first, str_less_total y.doc_id x.doc_id apart),
        InOrder-IsDescending (y ∷ ys) d o,
      )

  pub InOrder-IsRanked :
      (xs : List (SearchResult F V))
      → Distinct (doc_ids scores xs)
      → InOrder scores xs
      → IsRanked xs
  InOrder-IsRanked xs d o = (d, InOrder-IsDescending xs d o)

  -- Provided that `less` is asymmetric: the fused results are of different documents, and of two that
  -- stand side by side the second has no greater score than the first, and where it has no smaller
  -- score either, the first has the smaller identifier.
  pub fuse-IsRanked :
      ((a b : F) → scores.less a b ≡ true → scores.less b a ≡ false)
      → (vector_results keyword_results : List (SearchResult F V))
      → IsRanked (fuse scores vector_results keyword_results)
  fuse-IsRanked asymmetric vs ks =
      InOrder-IsRanked _ (fuse-Distinct scores vs ks) (fuse-InOrder scores asymmetric vs ks)
