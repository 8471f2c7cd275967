-- ===== src/Query/Retrieval.antt =====
-- src/query/retrieval_common.rs: what the retrievers share.
pub mod Best
mod Tests
use Prim.Native.String as Text
use Prim.Native.String.{◌++◌ as joined}
use Prim.Native.Char.{code}
use ltsearch.Common.{
  ℕ, String, Bool, true, false, not, Option, none, some, List, [], ◌∷◌, length, take, leb, ltb,
  ◌==◌, ◌||◌, ◌&&◌, if◌then◌else◌, str_eq, Result, ok, err,
}
use ltsearch.Common.Outcome.{guard, ok_or, ◌>>=◌, ◌>>◌}
use ltsearch.Common.Text.{strip_prefix, split_once}
use ltsearch.Errors.{ValidationError, SearchError}
use ltsearch.Search.{SearchResult, top_k_max}
use ltsearch.Query.Ranker.{Scores, sort}

unfoldable pub validate_top_k : ℕ → Result SearchError (Unit {0})
validate_top_k top_k =
    if top_k == 0 || ltb top_k_max top_k
    then err (SearchError.validation (ValidationError.range_out_of_range "top_k" 1 top_k_max))
    else ok tt

module _ {F : Type 0} where
  abbrev any_not_finite : (F → Bool) → List F → Bool
  any_not_finite is_finite [] = false
  any_not_finite is_finite (x ∷ xs) = not (is_finite x) || any_not_finite is_finite xs

  unfoldable pub validate_query_embedding : (F → Bool) → List F → Result SearchError (Unit {0})
  validate_query_embedding is_finite [] =
      err (SearchError.validation (ValidationError.required "query_embedding"))
  validate_query_embedding is_finite (x ∷ xs) =
      if any_not_finite is_finite (x ∷ xs)
      then err (SearchError.validation (ValidationError.invalid_value "query_embedding"))
      else ok tt

  unfoldable pub validate_embedding_dim : List F → ℕ → Result SearchError (Unit {0})
  validate_embedding_dim query_embedding expected_dim =
      if length query_embedding == expected_dim
      then ok tt
      else err (SearchError.validation (ValidationError.invalid_value "query_embedding"))

-- `less` of `scores` is the order of `total_cmp`, and `at_least` is `>=`.
module _ {F V : Type 0} (at_least : F → F → Bool) where
  -- A round of the loop over the results, on the map of the best ones.
  unfoldable pub keep_best : SearchResult F V → List (SearchResult F V) → List (SearchResult F V)
  keep_best result [] = result ∷ []
  keep_best result (existing ∷ rest) =
      let later = keep_best result rest in
      if str_eq existing.doc_id result.doc_id
      then (if at_least existing.score result.score then existing else result) ∷ rest
      else existing ∷ later

  unfoldable pub best_of :
      List (SearchResult F V) → List (SearchResult F V) → List (SearchResult F V)
  unfolding keep_best
  best_of [] deduped = deduped
  best_of (r ∷ rs) deduped = best_of rs (keep_best r deduped)

  -- The hash map is a list of its values; their order does not matter, since they are sorted.
  unfoldable pub dedupe_best_by_doc_id :
      Scores F → List (SearchResult F V) → ℕ → List (SearchResult F V)
  unfolding best_of sort
  dedupe_best_by_doc_id scores results top_k = take top_k (sort scores (best_of results []))

-- A path's components, by `/`: some component is `..`.
abbrev is_parent : String → Bool
is_parent s = str_eq s ".."

unfoldable pub parent_from : String → String → Bool
parent_from component Text.[] = is_parent component
parent_from component (Text.◌∷◌ c s) =
    let later = parent_from (joined component (Text.◌∷◌ c Text.[])) s in
    let rest = parent_from Text.[] s in if code c == 47 then is_parent component || rest else later

abbrev has_root : String → Bool
has_root Text.[] = false
has_root (Text.◌∷◌ c s) = code c == 47

-- `Path::starts_with` on the components of canonical paths
unfoldable pub starts_with : List String → List String → Bool
starts_with path [] = true
starts_with [] (b ∷ base) = false
starts_with (p ∷ path) (b ∷ base) = str_eq p b && starts_with path base

-- `canonicalize` gives the components of a canonical path, or fails; the path that it is given is
-- `artifact_root.join(key)` or the root itself.
module _ (canonicalize : String → Option (List String)) (path_join : String → String → String) where
  unfoldable pub resolve_artifact_path : String → String → Result SearchError (List String)
  unfolding strip_prefix split_once parent_from starts_with
  resolve_artifact_path artifact_root artifact_path = do
    value ←
        ok_or (strip_prefix "s3://" artifact_path) (SearchError.execution "invalid artifact path")
    parts ← ok_or (split_once 47 value) (SearchError.execution "invalid artifact path")
    guard (not (has_root parts.1 || parent_from Text.[] parts.1))
        (SearchError.execution "invalid artifact path")
    root ←
        ok_or (canonicalize artifact_root)
          (SearchError.execution "failed to canonicalize artifact root")
    resolved ←
        ok_or (canonicalize (path_join artifact_root parts.1))
          (SearchError.execution "failed to canonicalize artifact path")
    guard (starts_with resolved root)
        (SearchError.execution "resolved artifact path escapes artifact root")
    ok resolved
