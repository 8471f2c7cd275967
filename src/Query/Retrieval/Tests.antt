-- ===== src/Query/Retrieval/Tests.antt =====
-- Hits of two documents, and paths below a root.

use ltsearch.Common.{
  ℕ, String, Bool, true, false, Option, none, some, List, [], ◌∷◌, ◌≡◌, refl, leb, ltb, ◌+◌, ◌/◌,
  arith, is_err, ok,
}
use ltsearch.Search.{SearchResult, keyword, dynamic_chunk}
use ltsearch.Query.Ranker.{Scores}
use ltsearch.Query.Retrieval.{dedupe_best_by_doc_id, resolve_artifact_path}
use ltsearch.Query.Retrieval.Best.{IsTop, dedupe_best_by_doc_id-IsTop}

abbrev at_least : ℕ → ℕ → Bool
at_least a b = leb b a

abbrev scores : Scores ℕ
scores = record {
  zero_score = 0;
  add = λ a b. a + b;
  compute_rrf_score = λ rank. 6_000 / (60 + rank);
  less = ltb;
}

abbrev hit : String → ℕ → SearchResult ℕ String
hit id score = record {
  doc_id = id;
  score = score;
  text = "";
  metadata = none;
  source = keyword;
  chunk_source = dynamic_chunk;
  corpus_type = none;
  citation = none;
}

abbrev hits : List (SearchResult ℕ String)
hits = hit "a" 2 ∷ hit "b" 4 ∷ hit "a" 5 ∷ hit "c" 1 ∷ []

dedupe_test : dedupe_best_by_doc_id at_least scores hits 2 ≡ hit "a" 5 ∷ hit "b" 4 ∷ []
unfolding dedupe_best_by_doc_id
dedupe_test = refl

at_least_refl : (a : ℕ) → at_least a a ≡ true
at_least_refl a = ground arith

at_least_total : (a b : ℕ) → at_least a b ≡ false → at_least b a ≡ true
at_least_total a b h = ground arith

at_least_trans : (a b c : ℕ) → at_least a b ≡ true → at_least b c ≡ true → at_least a c ≡ true
at_least_trans a b c h k = ground arith

less-asym : (a b : ℕ) → ltb a b ≡ true → ltb b a ≡ false
less-asym a b h = ground arith

dedupe_best_by_doc_id-IsTop_example :
    IsTop at_least scores hits 2 (dedupe_best_by_doc_id at_least scores hits 2)
dedupe_best_by_doc_id-IsTop_example =
    dedupe_best_by_doc_id-IsTop at_least scores at_least_refl at_least_total at_least_trans
      less-asym hits 2

abbrev no_links : String → Option (List String)
no_links path = some (path ∷ [])

abbrev below_data : String → String → String
below_data root key = root

inside_test :
    resolve_artifact_path no_links below_data "data" "s3://bucket/v1/x..y" ≡ ok ("data" ∷ [])
unfolding resolve_artifact_path
inside_test = refl

outside_test :
    is_err (resolve_artifact_path no_links below_data "data" "s3://bucket/v1/../x") ≡ true
unfolding resolve_artifact_path
outside_test = refl
