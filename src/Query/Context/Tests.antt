-- ===== src/Query/Context/Tests.antt =====
-- A context with two laws and a note.
use ltsearch.Common.{ℕ, String, none, some, List, [], ◌∷◌, ◌≡◌, refl}
use ltsearch.Search.{SearchResult, keyword, dynamic_chunk, legal}
use ltsearch.Query.Context.{is_cjk, static_chunk_block, build_context_bounded}
use ltsearch.Query.Context.Budget.{Fits, build_context_bounded-Fits}

abbrev found : String → String → SearchResult ℕ String
found id text = record {
  doc_id = id;
  score = 1;
  text = text;
  metadata = none;
  source = keyword;
  chunk_source = dynamic_chunk;
  corpus_type = some legal;
  citation = none;
}

abbrev laws : List (SearchResult ℕ String)
laws = found "a" "第一条" ∷ found "b" "第二条" ∷ []

abbrev notes : List (SearchResult ℕ String)
notes = found "c" "a note" ∷ []

-- The note is dropped last: the second law goes first.
bounded_test :
    build_context_bounded laws notes "q" 30
    ≡ some "=== 参考资料 ===\n\n[法规 #1]\n第一条\n\n[用户数据 #1]\na note\n\n=== 问题 ===\nq"
unfolding build_context_bounded is_cjk static_chunk_block
bounded_test = refl

build_context_bounded-Fits_example :
    Fits laws notes "q" 30 (build_context_bounded laws notes "q" 30)
build_context_bounded-Fits_example = build_context_bounded-Fits laws notes "q" 30
