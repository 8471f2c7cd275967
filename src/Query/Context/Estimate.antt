-- ===== src/Query/Context/Estimate.antt =====
-- The estimate of a text that is put together: at most the sum of the estimates of its parts.
use Prim.Native.String as Text
use Prim.Native.String.{◌++◌ as joined}
use text.Mathlib.TextLemmas.{nil-append, cons-append}
use ltsearch.Common.{
  ℕ, zero, suc, ◌+◌, ◌≤◌, String, List, [], ◌∷◌, length, take, ◌≡◌, refl, ap, arith,
}
use ltsearch.Search.{SearchResult}
use ltsearch.Query.Context.{
  cjk_count, other_count, estimate_tokens, static_chunk_block, dynamic_chunk_block, push_blocks,
  build_context, costs, sum,
}

zero_plus : (n : ℕ) → n ≡ 0 + n
zero_plus n = omega arith

cjk_count-joined : (s t : String) → cjk_count (joined s t) ≡ cjk_count s + cjk_count t
unfolding cjk_count
cjk_count-joined Text.[] t = rw (nil-append t) (zero_plus (cjk_count t))
cjk_count-joined (Text.◌∷◌ c s) t = rw (cons-append c s t) (ground (arith, cjk_count-joined s t))

other_count-joined : (s t : String) → other_count (joined s t) ≡ other_count s + other_count t
unfolding other_count
other_count-joined Text.[] t = rw (nil-append t) (zero_plus (other_count t))
other_count-joined (Text.◌∷◌ c s) t =
    rw (cons-append c s t) (ground (arith, other_count-joined s t))

-- A text put into the middle of another adds at most its own estimate.
estimate_tokens-insert :
    (s m t : String)
    → estimate_tokens (joined s (joined m t)) ≤ estimate_tokens m + estimate_tokens (joined s t)
unfolding estimate_tokens
estimate_tokens-insert s m t = omega (
  arith,
  cjk_count-joined s (joined m t),
  cjk_count-joined m t,
  cjk_count-joined s t,
  other_count-joined s (joined m t),
  other_count-joined m t,
  other_count-joined s t,
)

module _ {F V : Type 0} where
  pub length-costs :
      (block : ℕ → SearchResult F V → String) (index : ℕ) (rs : List (SearchResult F V))
      → length (costs block index rs) ≡ length rs
  unfolding costs
  length-costs block index [] = refl
  length-costs block index (r ∷ rs) = ap suc (length-costs block (suc index) rs)

  pub costs-take :
      (block : ℕ → SearchResult F V → String) (index k : ℕ) (rs : List (SearchResult F V))
      → costs block index (take k rs) ≡ take k (costs block index rs)
  unfolding costs
  costs-take block index zero rs = refl
  costs-take block index (suc k) [] = refl
  costs-take block index (suc k) (r ∷ rs) =
      ap (λ cs. estimate_tokens (block index r) ∷ cs) (costs-take block (suc index) k rs)

  -- The blocks of a group add at most their costs.
  estimate_tokens-push_blocks :
      (block : ℕ → SearchResult F V → String) (index : ℕ) (rs : List (SearchResult F V))
      → (before after : String)
      → estimate_tokens (joined before (push_blocks block index rs after))
        ≤ sum (costs block index rs) + estimate_tokens (joined before after)
  unfolding push_blocks costs
  estimate_tokens-push_blocks block index [] before after = omega arith
  estimate_tokens-push_blocks block index (r ∷ rs) before after = omega (
    arith,
    estimate_tokens-insert before (block index r) (push_blocks block (suc index) rs after),
    estimate_tokens-push_blocks block (suc index) rs before after,
  )

  -- The estimate of a context is at most that of an empty one with the costs of its chunks.
  pub estimate_tokens-build_context :
      (ss ds : List (SearchResult F V)) (query : String)
      → estimate_tokens (build_context ss ds query)
        ≤ estimate_tokens (build_context {F = F} {V = V} [] [] query)
          + sum (costs static_chunk_block 0 ss)
          + sum (costs dynamic_chunk_block 0 ds)
  unfolding build_context push_blocks
  estimate_tokens-build_context ss ds query = omega (
    arith,
    estimate_tokens-push_blocks static_chunk_block 0 ss "=== 参考资料 ===\n\n"
        (push_blocks dynamic_chunk_block 0 ds (joined "=== 问题 ===\n" query)),
    estimate_tokens-push_blocks dynamic_chunk_block 0 ds "=== 参考资料 ===\n\n"
        (joined "=== 问题 ===\n" query),
  )
