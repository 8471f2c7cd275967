-- ===== src/Query/Context.antt =====
-- src/query/context_builder.rs: the context for a language model, and its budget of tokens.
pub mod Estimate
pub mod Loop
pub mod Budget
mod Tests
use Prim.Native.Char.{code}
use Prim.Native.String as Text
use Prim.Native.String.{◌++◌ as joined}
use ltsearch.Common.{
  ℕ, zero, suc, ◌+◌, ◌-◌, ◌/◌, String, Bool, true, false, not, Option, none, some, List, [], ◌∷◌,
  map, length, take, leb, ltb, ◌==◌, ◌&&◌, ◌||◌, if◌then◌else◌,
}
use ltsearch.Common.Text.{decimal}
use ltsearch.Search.{SearchResult, CorpusType, legal, contract, rfc, Citation, CorpusWeights}

abbrev between : ℕ → ℕ → ℕ → Bool
between first last n = leb first n && leb n last

unfoldable pub is_cjk : ℕ → Bool
is_cjk c =
    between 12_288 12_351 c
    || between 13_312 19_903 c
    || between 19_968 40_959 c
    || between 63_744 64_255 c
    || between 65_280 65_519 c
    || between 131_072 195_103 c
    || between 196_608 201_551 c

-- The two counts of the fold over the characters.
unfoldable pub cjk_count : String → ℕ
cjk_count Text.[] = 0
cjk_count (Text.◌∷◌ c s) = let rest = cjk_count s in if is_cjk (code c) then suc rest else rest

unfoldable pub other_count : String → ℕ
other_count Text.[] = 0
other_count (Text.◌∷◌ c s) = let rest = other_count s in if is_cjk (code c) then rest else suc rest

unfoldable pub estimate_tokens : String → ℕ
unfolding cjk_count other_count
estimate_tokens text = cjk_count text + (other_count text + 3) / 4

abbrev pub corpus_type_label : Option CorpusType → String
corpus_type_label (some legal) = "法规"
corpus_type_label (some contract) = "合同"
corpus_type_label (some rfc) = "RFC"
corpus_type_label _ = "法规/合同"

abbrev title_of : Option Citation → Option String
title_of none = none
title_of (some c) = c.title

abbrev title_line : Option String → String
title_line none = ""
title_line (some title) = joined " " title

module _ {F V : Type 0} where
  unfoldable pub chunk_block : String → ℕ → SearchResult F V → String
  unfolding decimal
  chunk_block label index r = joined "[" (
      joined label (
        joined " #" (
          joined (decimal (index + 1)) (
            joined "]"
              (joined (title_line (title_of r.citation)) (joined "\n" (joined r.text "\n\n")))))))

  abbrev pub static_chunk_block : ℕ → SearchResult F V → String
  unfolding chunk_block
  static_chunk_block index r = chunk_block (corpus_type_label r.corpus_type) index r

  abbrev pub dynamic_chunk_block : ℕ → SearchResult F V → String
  unfolding chunk_block
  dynamic_chunk_block index r = chunk_block "用户数据" index r

  -- The blocks of a group from `index` on, one after the other, before what follows them.
  unfoldable pub push_blocks :
      (ℕ → SearchResult F V → String) → ℕ → List (SearchResult F V) → String → String
  push_blocks block index [] after = after
  push_blocks block index (r ∷ rs) after =
      joined (block index r) (push_blocks block (suc index) rs after)

  unfoldable pub build_context : List (SearchResult F V) → List (SearchResult F V) → String → String
  unfolding push_blocks
  build_context static_chunks dynamic_chunks query = joined "=== 参考资料 ===\n\n" (
      push_blocks static_chunk_block 0 static_chunks
        (push_blocks dynamic_chunk_block 0 dynamic_chunks (joined "=== 问题 ===\n" query)))

  unfoldable pub costs : (ℕ → SearchResult F V → String) → ℕ → List (SearchResult F V) → List ℕ
  unfolding estimate_tokens
  costs block index [] = []
  costs block index (r ∷ rs) = estimate_tokens (block index r) ∷ costs block (suc index) rs

-- `above` is the test `> 0.7` of a weight.
module _ {F : Type 0} (above : F → Bool) where
  unfoldable pub weight_instruction : Option (CorpusWeights F) → String
  weight_instruction none = "综合两类来源回答，不偏向任何一方。"
  weight_instruction (some w) =
      if above w.static_bias
      then "如法规/合同与用户数据冲突，以法规/合同为准。"
      else if above w.dynamic_bias
      then "优先参考用户数据，不足时补充引用法规/合同。"
      else "综合两类来源回答，不偏向任何一方。"

  unfoldable pub build_system_prompt : Option (CorpusWeights F) → String
  unfolding weight_instruction
  build_system_prompt weights =
      joined
        "你是一个专业的文档检索助手。\n\n参考资料分为两类：\n- [法规/合同/RFC]：来自共享权威文档库（法律法规、合同模板、RFC等）\n- [用户数据]：来自用户的私有文档\n\n"
        (joined (weight_instruction weights) "\n\n回答时只引用与问题直接相关的内容，忽略无关片段。\n引用时注明来源类型。")

-- `costs[i]`, in range, and `iter().sum()`.
abbrev pub cost_at : ℕ → List ℕ → ℕ
cost_at i [] = 0
cost_at zero (c ∷ cs) = c
cost_at (suc i) (c ∷ cs) = cost_at i cs

abbrev pub sum : List ℕ → ℕ
sum [] = 0
sum (c ∷ cs) = c + sum cs

abbrev pub drop_static : ℕ → ℕ → ℕ → ℕ → Bool
drop_static kept_static kept_dynamic static_total dynamic_total =
    if kept_dynamic == 0
    then true
    else if kept_static == 0
    then false
    else if not (static_total == dynamic_total)
    then ltb dynamic_total static_total
    else ltb kept_dynamic kept_static

-- The loop condition, and the loop: each round drops a chunk, so fuel for the number of chunks is
-- enough.
abbrev pub over : ℕ → ℕ → ℕ → ℕ → ℕ → ℕ → Bool
over fixed max_tokens kept_static kept_dynamic static_total dynamic_total =
    ltb max_tokens (fixed + static_total + dynamic_total)
    && (ltb 0 kept_static || ltb 0 kept_dynamic)

unfoldable pub shrink :
    (fixed max_tokens : ℕ) (static_costs dynamic_costs : List ℕ)
    → ℕ
    → (kept_static kept_dynamic static_total dynamic_total : ℕ) → Option (ℕ × ℕ)
shrink fixed max_tokens ss ds zero ks kd st dt =
    if over fixed max_tokens ks kd st dt then none else some (ks, kd)
shrink fixed max_tokens ss ds (suc fuel) ks kd st dt =
    let d = drop_static ks kd st dt in
    let rest =
      shrink fixed max_tokens ss ds fuel (if d then ks - 1 else ks) (if d then kd else kd - 1)
        (if d then st - cost_at (ks - 1) ss else st) (if d then dt else dt - cost_at (kd - 1) ds) in
    if over fixed max_tokens ks kd st dt then rest else some (ks, kd)

module _ {F V : Type 0} where
  unfoldable pub kept_context :
      List (SearchResult F V) → List (SearchResult F V) → String → Option (ℕ × ℕ) → Option String
  unfolding build_context
  kept_context ss ds query none = none
  kept_context ss ds query (some (ks, kd)) = some (build_context (take ks ss) (take kd ds) query)

  -- `none` stands for a loop that has not ended.
  unfoldable pub build_context_bounded :
      List (SearchResult F V) → List (SearchResult F V) → String → ℕ → Option String
  unfolding kept_context shrink costs estimate_tokens
  build_context_bounded ss ds query max_tokens =
      let static_costs = costs static_chunk_block 0 ss in
      let dynamic_costs = costs dynamic_chunk_block 0 ds in
      kept_context ss ds query (
        shrink (estimate_tokens (build_context {F = F} {V = V} [] [] query)) max_tokens static_costs
          dynamic_costs (length ss + length ds) (length ss) (length ds) (sum static_costs)
          (sum dynamic_costs))
