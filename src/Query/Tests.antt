-- ===== src/Query/Tests.antt =====
-- Searches over small retrievers. Scores are numbers, and a value of the metadata is a text.
use ltsearch.Common.{
  ℕ, List, ◌↔◌, In, false, ◌+◌, ◌/◌, String, true, false, none, some, [], ◌∷◌, ok, err, ◌≡◌, refl,
  ltb, ◌==◌, arith,
}
use ltsearch.Search.{
  Values, string_equals, hybrid, SearchRequest, SearchResult, SearchResponse, keyword,
  dynamic_chunk, validate_request, validate_result, validate_response,
}
use ltsearch.Query.Filter.{matches_metadata, apply_filters}
use ltsearch.Query.Ranker.{Scores, fuse}
use ltsearch.Query.Fusion.{tally}
use ltsearch.Query.Ranked.{IsRanked, fuse-IsRanked}
use ltsearch.Query.Fused.{contributed, fuse-exact}
use ltsearch.Query.Router.{Parts, GroupedSearchResults, returned, search}
use ltsearch.Query.Window.{Returns, search-Returns}
use ltsearch.Query.Answer.{IsAnswer, search-IsAnswer}

abbrev values : Values ℕ ℕ String
values = record {
  is_finite = λ x. true;
  in_unit_interval = λ x. true;
  is_finite_number = λ x. true;
  same_number = λ x y. x == y;
  as_str = λ v. some v;
  as_bool = λ v. none;
  as_f64 = λ v. none;
}

abbrev scores : Scores ℕ
scores = record {
  zero_score = 0;
  add = λ a b. a + b;
  compute_rrf_score = λ rank. 6_000 / (60 + rank);
  less = ltb;
}

abbrev hit : String → String → SearchResult ℕ String
hit id lang = record {
  doc_id = id;
  score = 1;
  text = "";
  metadata = some (("lang", lang) ∷ []);
  source = keyword;
  chunk_source = dynamic_chunk;
  corpus_type = none;
  citation = none;
}

-- The embedding service is down, so only the keyword search answers.
abbrev parts : Parts ℕ String String ℕ String
parts = record {
  load_active_manifest = ok 7;
  version_of = λ v. v;
  generate = λ n query. err "down";
  static_search = λ active embedding k. returned (ok []);
  keyword_search = λ active query k. returned (ok []);
  vector_search = λ active embedding k. returned (ok []);
  keyword_search_here = λ active query k. ok (hit "a" "zh" ∷ hit "b" "en" ∷ []);
  static_release_id = none;
  latency_ms = 3;
}

abbrev request : SearchRequest ℕ ℕ
request = record {
  query = "law";
  top_k = 5;
  filters = some (("lang", string_equals "zh") ∷ []);
  include_metadata = false;
  corpus_weights = none;
}

search-Returns_example : Returns (search values scores parts request)
search-Returns_example = search-Returns values scores parts request

abbrev answer : SearchResponse ℕ String
answer = record {
  static_chunks = [];
  static_count = 0;
  dynamic_chunks = record (hit "a" "zh") { metadata = none } ∷ [];
  dynamic_count = 1;
  latency_ms = 3;
  index_version = 7;
  static_release_id = none;
}

answers : search values scores parts request ≡ some (ok answer)
unfolding search validate_request validate_result apply_filters matches_metadata validate_response
answers = refl

search-IsAnswer_example : IsAnswer values scores parts request answer
search-IsAnswer_example = search-IsAnswer values scores parts request answer answers

-- One of the two results passes the filters, so the window grows to its limit.
abbrev both_found : GroupedSearchResults ℕ String
both_found = record { static_chunks = []; dynamic_chunks = hit "a" "zh" ∷ hit "b" "en" ∷ [] }

abbrev vector_hits : List (SearchResult ℕ String)
vector_hits = hit "a" "zh" ∷ hit "b" "en" ∷ []

abbrev keyword_hits : List (SearchResult ℕ String)
keyword_hits = hit "b" "en" ∷ []

-- The document `b` is second by vector and first by keyword.
fuse-exact_example : (contributed scores "b" vector_hits keyword_hits ≡ some 194) ↔ (
    (r : SearchResult ℕ String) × In r (fuse scores vector_hits keyword_hits)
    × (r.doc_id ≡ "b")
    × (r.score ≡ 194)
    × (r.source ≡ hybrid))
fuse-exact_example = fuse-exact scores vector_hits keyword_hits "b" 194

contributed-b : contributed scores "b" vector_hits keyword_hits ≡ some 194
unfolding tally
contributed-b = refl

ltb-asym : (a b : ℕ) → ltb a b ≡ true → ltb b a ≡ false
ltb-asym a b h = ground arith

fuse-IsRanked_example : IsRanked scores (fuse scores vector_hits keyword_hits)
fuse-IsRanked_example = fuse-IsRanked scores ltb-asym vector_hits keyword_hits
