-- ===== src/Query/Context/Budget.antt =====
-- The context and its budget: what is kept, and what the estimate of the kept context is.
use ltsearch.Common.{
  ℕ, ◌+◌, ◌≤◌, ◌<◌, String, Option, some, List, [], length, take, ◌≡◌, refl, sym, ap, arith, ◌⊎◌,
}
use ltsearch.Search.{SearchResult}
use ltsearch.Query.Context.{
  estimate_tokens, static_chunk_block, dynamic_chunk_block, build_context, costs, sum, kept_context,
  build_context_bounded,
}
use ltsearch.Query.Context.Estimate.{length-costs, costs-take, estimate_tokens-build_context}
use ltsearch.Query.Context.Loop.{Found, sum-take_all, shrink-Found}

module _ {F V : Type 0} where
  -- The context is that of the first results of each group. Its estimate is at most the maximum,
  -- unless no result is kept; and every result is kept, unless the costs of all exceed the maximum.
  abbrev pub Fits :
      List (SearchResult F V) → List (SearchResult F V) → String → ℕ → Option String → Type 0
  Fits ss ds query max_tokens context =
      (ks : ℕ) × (kd : ℕ) × (context ≡ some (build_context (take ks ss) (take kd ds) query))
      × ((estimate_tokens (build_context (take ks ss) (take kd ds) query) ≤ max_tokens)
          ⊎ ((ks ≡ 0) × (kd ≡ 0)))
      × (((ks ≡ length ss) × (kd ≡ length ds))
          ⊎ (max_tokens
              < estimate_tokens (build_context {F = F} {V = V} [] [] query)
                + sum (costs static_chunk_block 0 ss)
                + sum (costs dynamic_chunk_block 0 ds)))

  kept_context-Fits :
      (ss ds : List (SearchResult F V)) (query : String) (max_tokens : ℕ) (found : Option (ℕ × ℕ))
      → Found
          (estimate_tokens (build_context {F = F} {V = V} [] [] query))
          max_tokens
          (costs static_chunk_block 0 ss)
          (costs dynamic_chunk_block 0 ds)
          (length (costs static_chunk_block 0 ss))
          (length (costs dynamic_chunk_block 0 ds))
          found
      → Fits ss ds query max_tokens (kept_context ss ds query found)
  unfolding kept_context
  kept_context-Fits ss ds query max_tokens found (a, b, e, ha, hb, fits, all) = (
    a,
    b,
    rw e refl,
    ground (
      arith,
      estimate_tokens-build_context (take a ss) (take b ds) query,
      ap sum (costs-take static_chunk_block 0 a ss),
      ap sum (costs-take dynamic_chunk_block 0 b ds),
    ),
    ground (
      arith,
      length-costs static_chunk_block 0 ss,
      length-costs dynamic_chunk_block 0 ds,
      sum-take_all (costs static_chunk_block 0 ss),
      sum-take_all (costs dynamic_chunk_block 0 ds),
    ),
  )

  -- A bounded context is returned: the loop ends. It holds the first results of each group, in their
  -- order. Its estimate is at most the maximum, unless no result is kept. Every result is kept, unless
  -- the costs of all the results and of the empty context exceed the maximum.
  pub build_context_bounded-Fits :
      (ss ds : List (SearchResult F V)) (query : String) (max_tokens : ℕ)
      → Fits ss ds query max_tokens (build_context_bounded ss ds query max_tokens)
  unfolding build_context_bounded
  build_context_bounded-Fits ss ds query max_tokens = kept_context-Fits ss ds query max_tokens _ (
      rw
        (
          sym (length-costs static_chunk_block 0 ss),
          sym (length-costs dynamic_chunk_block 0 ds),
          sym (sum-take_all (costs static_chunk_block 0 ss)),
          sym (sum-take_all (costs dynamic_chunk_block 0 ds)),
        )
        (shrink-Found (estimate_tokens (build_context {F = F} {V = V} [] [] query)) max_tokens
          (costs static_chunk_block 0 ss) (costs dynamic_chunk_block 0 ds)
          (length (costs static_chunk_block 0 ss) + length (costs dynamic_chunk_block 0 ds))
          (length (costs static_chunk_block 0 ss)) (length (costs dynamic_chunk_block 0 ds))
          (omega arith) (omega arith) (omega arith)))
