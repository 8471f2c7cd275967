-- ===== src/Query/Ranker.antt =====
-- src/query/ranker.rs: reciprocal rank fusion of the vector and the keyword results.
use Prim.Native.Char.{code}
use Prim.Native.String as Text
use ltsearch.Common.{
  ℕ, suc, String, Bool, true, false, Option, none, some, List, [], ◌∷◌, map, str_eq, ltb, ◌==◌,
  ◌&&◌, ◌||◌, if◌then◌else◌,
}
use ltsearch.Search.{SearchResult, hybrid, Citation}

-- `f32` arithmetic of the ranker: 0.0, `+`, `1.0 / (rrf_k + rank as f32)` and `<`.
pub record Scores (F : Type 0) : Type 0 where
  pub zero_score : F
  pub add : F → F → F
  pub compute_rrf_score : ℕ → F
  pub less : F → F → Bool

-- `str::cmp`, less; the bytes of UTF-8 are in the order of the code points.
unfoldable pub str_less : String → String → Bool
str_less Text.[] Text.[] = false
str_less Text.[] (Text.◌∷◌ d t) = true
str_less (Text.◌∷◌ c s) Text.[] = false
str_less (Text.◌∷◌ c s) (Text.◌∷◌ d t) = ltb (code c) (code d) || code c == code d && str_less s t

module _ {V : Type 0} where
  -- `existing_map.entry(key).or_insert(value)`
  or_insert : String → V → List (String × V) → List (String × V)
  or_insert key value [] = (key, value) ∷ []
  or_insert key value ((k, v) ∷ rest) =
      let later = or_insert key value rest in if str_eq k key then (k, v) ∷ rest else (k, v) ∷ later

  insert_all : List (String × V) → List (String × V) → List (String × V)
  unfolding or_insert
  insert_all existing [] = existing
  insert_all existing ((k, v) ∷ incoming) = insert_all (or_insert k v existing) incoming

  pub merge_metadata :
      Option (List (String × V)) → Option (List (String × V)) → Option (List (String × V))
  unfolding insert_all
  merge_metadata (some existing) (some incoming) = some (insert_all existing incoming)
  merge_metadata none (some incoming) = some incoming
  merge_metadata existing none = existing

abbrev citation_or : Option Citation → Option Citation → Option Citation
citation_or none incoming = incoming
citation_or (some c) incoming = some c

module _ {F V : Type 0} (scores : Scores F) where
  unfoldable pub merge_result_payload : SearchResult F V → SearchResult F V → SearchResult F V
  unfolding merge_metadata
  merge_result_payload existing incoming = record existing {
    metadata = merge_metadata existing.metadata incoming.metadata;
    citation = citation_or existing.citation incoming.citation;
  }

  -- The two maps are one list, of the score and the result of each document.
  -- `*rrf_scores.entry(id).or_insert(0.0) += …`, and the entry of `doc_map`; `merge` says what a result
  -- does to the one that is there.
  unfoldable pub add_result :
      (SearchResult F V → SearchResult F V → SearchResult F V)
      → F
      → SearchResult F V
      → List (F × SearchResult F V)
      → List (F × SearchResult F V)
  add_result merge s r [] = (scores.add scores.zero_score s, r) ∷ []
  add_result merge s r ((total, existing) ∷ rest) =
      let later = add_result merge s r rest in
      if str_eq existing.doc_id r.doc_id
      then (scores.add total s, merge existing r) ∷ rest
      else (total, existing) ∷ later

  -- `for (index, result) in results.into_iter().enumerate()`, from the rank on
  unfoldable pub add_all :
      (SearchResult F V → SearchResult F V → SearchResult F V)
      → ℕ
      → List (SearchResult F V)
      → List (F × SearchResult F V)
      → List (F × SearchResult F V)
  unfolding add_result
  add_all merge rank [] fusion = fusion
  add_all merge rank (r ∷ rest) fusion =
      add_all merge (suc rank) rest (add_result merge (scores.compute_rrf_score rank) r fusion)

  abbrev pub fused_result : F × SearchResult F V → SearchResult F V
  fused_result (total, r) = record r { score = total; source = hybrid }

  -- Descending score, then ascending document: `left` stands before `right`.
  abbrev pub before : SearchResult F V → SearchResult F V → Bool
  before left right =
      if scores.less right.score left.score
      then true
      else if scores.less left.score right.score
      then false
      else str_less left.doc_id right.doc_id

  unfoldable pub insert_sorted :
      SearchResult F V → List (SearchResult F V) → List (SearchResult F V)
  insert_sorted r [] = r ∷ []
  insert_sorted r (x ∷ xs) =
      let later = insert_sorted r xs in if before x r then x ∷ later else r ∷ x ∷ xs

  -- `sort_by`, which is stable
  unfoldable pub sort : List (SearchResult F V) → List (SearchResult F V)
  unfolding insert_sorted
  sort [] = []
  sort (r ∷ rs) = insert_sorted r (sort rs)

  -- The hash maps are lists of their entries; their order does not matter, since it is sorted.
  unfoldable pub fuse : List (SearchResult F V) → List (SearchResult F V) → List (SearchResult F V)
  unfolding add_all merge_result_payload sort
  fuse vector_results keyword_results =
      let with_vector = add_all (λ existing incoming. existing) 1 vector_results [] in
      sort (map fused_result (add_all merge_result_payload 1 keyword_results with_vector))
