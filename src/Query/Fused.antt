-- ===== src/Query/Fused.antt =====
-- The fused list: which documents it holds, with which scores, and in which order.
use ltsearch.Common.{
  String, true, false, Option, none, some, List, [], ◌∷◌, map, ◌≡◌, ◌↔◌, refl, ap, sym, ◌∙◌, subst,
  In, In-map, In-unmap, Distinct,
}
use ltsearch.Search.{SearchResult, hybrid}
use ltsearch.Query.Ranker.{Scores, merge_result_payload, add_all, fused_result, fuse}
use ltsearch.Query.Fusion.{
  tally, score_in, Keeps, ids, score_in-add_all, add_all-Distinct, In-score_in, score_in-In,
}
use ltsearch.Query.Sorted.{InOrder, doc_ids, sort-In, In-sort, sort-InOrder, sort-Distinct}

module _ {F V : Type 0} (scores : Scores F) where
  abbrev fusion : List (SearchResult F V) → List (SearchResult F V) → List (F × SearchResult F V)
  fusion vector_results keyword_results =
      add_all scores (merge_result_payload scores) 1 keyword_results
        (add_all scores (λ existing incoming. existing) 1 vector_results [])

  merge-Keeps : Keeps scores (merge_result_payload {F = F} {V = V} scores)
  unfolding merge_result_payload
  merge-Keeps a b = refl

  first-Keeps : Keeps {F = F} {V = V} scores (λ existing incoming. existing)
  first-Keeps a b = refl

  -- What the two lists contribute to a document: its ranks in the first, then those in the second.
  abbrev pub contributed : String → List (SearchResult F V) → List (SearchResult F V) → Option F
  contributed id vector_results keyword_results =
      tally scores id 1 keyword_results (tally scores id 1 vector_results none)

  fusion-score :
      (id : String) (vs ks : List (SearchResult F V))
      → score_in scores id (fusion vs ks) ≡ contributed id vs ks
  unfolding score_in
  fusion-score id vs ks =
      score_in-add_all scores (merge_result_payload scores) merge-Keeps 1 id ks _
      ∙ ap (tally scores id 1 ks)
          (score_in-add_all scores (λ existing incoming. existing) first-Keeps 1 id vs [])

  fusion-Distinct : (vs ks : List (SearchResult F V)) → Distinct (ids scores (fusion vs ks))
  fusion-Distinct vs ks =
      add_all-Distinct scores (merge_result_payload scores) merge-Keeps 1 ks _
        (add_all-Distinct scores (λ existing incoming. existing) first-Keeps 1 vs [] tt)

  doc_ids-fused :
      (entries : List (F × SearchResult F V))
      → doc_ids scores (map (fused_result scores) entries) ≡ ids scores entries
  doc_ids-fused [] = refl
  doc_ids-fused (p ∷ entries) = ap (λ l. p.1.doc_id ∷ l) (doc_ids-fused entries)

  -- Every fused result is a hybrid one whose score is what the two lists contribute to its document,
  -- and every document to which they contribute is among the results.
  pub fuse-exact :
      (vector_results keyword_results : List (SearchResult F V)) (id : String) (score : F)
      → (contributed id vector_results keyword_results ≡ some score) ↔ (
          (r : SearchResult F V) × In r (fuse scores vector_results keyword_results)
          × (r.doc_id ≡ id)
          × (r.score ≡ score)
          × (r.source ≡ hybrid))
  unfolding fuse
  fuse-exact vs ks id score = (there, back)
    where
      there :
          contributed id vs ks ≡ some score
          → (r : SearchResult F V) × In r (fuse scores vs ks)
            × (r.doc_id ≡ id)
            × (r.score ≡ score)
            × (r.source ≡ hybrid)
      there h =
          let (r, m, e) = score_in-In scores id score (fusion vs ks) (fusion-score id vs ks ∙ h) in
          (
            fused_result scores (score, r),
            In-sort scores _ _ (In-map (score, r) (fused_result scores) (fusion vs ks) m),
            e,
            refl,
            refl,
          )

      back :
          ((r : SearchResult F V) × In r (fuse scores vs ks)
            × (r.doc_id ≡ id)
            × (r.score ≡ score)
            × (r.source ≡ hybrid))
          → contributed id vs ks ≡ some score
      back (r, m, e, s, _) =
          let (p, n, q) =
            In-unmap r (fused_result scores) (fusion vs ks)
              (sort-In scores r (map (fused_result scores) (fusion vs ks)) m) in
          subst (λ i. contributed i vs ks ≡ some score)
            (sym (ap (λ (x : SearchResult F V). x.doc_id) q) ∙ e)
            (sym (fusion-score p.1.doc_id vs ks)
              ∙ In-score_in scores p (fusion vs ks) (fusion-Distinct vs ks) n
              ∙ ap some (sym (ap (λ (x : SearchResult F V). x.score) q) ∙ s))

  pub fuse-Distinct :
      (vs ks : List (SearchResult F V)) → Distinct (doc_ids scores (fuse scores vs ks))
  unfolding fuse
  fuse-Distinct vs ks =
      sort-Distinct scores (map (fused_result scores) (fusion vs ks))
        (subst Distinct (sym (doc_ids-fused (fusion vs ks))) (fusion-Distinct vs ks))

  pub fuse-InOrder :
      ((a b : F) → scores.less a b ≡ true → scores.less b a ≡ false)
      → (vs ks : List (SearchResult F V)) → InOrder scores (fuse scores vs ks)
  unfolding fuse
  fuse-InOrder asymmetric vs ks =
      sort-InOrder scores asymmetric (map (fused_result scores) (fusion vs ks))
