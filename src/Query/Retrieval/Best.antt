-- ===== src/Query/Retrieval/Best.antt =====
-- What the retrievers return of their hits: for each document one of its best results, in order.
use ltsearch.Common.{
  ℕ, String, Bool, true, false, List, [], ◌∷◌, take, str_eq, str_eq_iff, Bool-cases, ◌≡◌, refl, sym,
  ◌∙◌, ap, subst, inl, inr, ◌⊎◌, In, In-map, In-unmap, Distinct, arith,
}
use ltsearch.Search.{SearchResult}
use ltsearch.Query.Ranker.{Scores, sort}
use ltsearch.Query.Sorted.{doc_ids, sort-In, In-sort, sort-InOrder, sort-Distinct}
use ltsearch.Query.Ranked.{IsRanked, InOrder-IsRanked}
use ltsearch.Query.Retrieval.{keep_best, best_of, dedupe_best_by_doc_id}

module _ {F V : Type 0} (at_least : F → F → Bool) where
  -- A result of the same document, with at least its score, is in the list.
  abbrev pub IsCovered : SearchResult F V → List (SearchResult F V) → Type 0
  IsCovered x kept =
      (y : SearchResult F V) × In y kept × (y.doc_id ≡ x.doc_id) × (at_least y.score x.score ≡ true)

  keep_best-In :
      (r y : SearchResult F V) (xs : List (SearchResult F V))
      → In y (keep_best at_least r xs)
      → (y ≡ r) ⊎ In y xs
  unfolding keep_best
  keep_best-In r y [] m = m
  keep_best-In r y (x ∷ xs) m = elim (Bool-cases (str_eq x.doc_id r.doc_id)) [
    | inr other ↦ elim (rw (other, keep_best) at m) [
      | inl e ↦ inr (inl e)
      | inr n ↦ elim (keep_best-In r y xs n) [ inl e ↦ inl e | inr k ↦ inr (inr k) ]
    ]
    | inl same ↦ elim (Bool-cases (at_least x.score r.score)) [
      | inl kept ↦ inr (rw (same, kept, keep_best) at m)
      | inr better ↦ elim (rw (same, better, keep_best) at m) [
        | inl e ↦ inl e
        | inr n ↦ inr (inr n)
      ]
    ]
  ]

  keep_best-ids :
      (scores : Scores F) (r : SearchResult F V) (id : String) (xs : List (SearchResult F V))
      → In id (doc_ids scores (keep_best at_least r xs))
      → (id ≡ r.doc_id) ⊎ In id (doc_ids scores xs)
  keep_best-ids scores r id xs m =
      let (y, n, e) =
        In-unmap id (λ (q : SearchResult F V). q.doc_id) (keep_best at_least r xs) m in
      elim (keep_best-In r y xs n) [
        | inl same ↦ inl (e ∙ ap (λ (q : SearchResult F V). q.doc_id) same)
        | inr k ↦ inr (
            subst (λ i. In i (doc_ids scores xs)) (sym e)
              (In-map y (λ (q : SearchResult F V). q.doc_id) xs k))
      ]

  keep_best-Distinct :
      (scores : Scores F) (r : SearchResult F V) (xs : List (SearchResult F V))
      → Distinct (doc_ids scores xs)
      → Distinct (doc_ids scores (keep_best at_least r xs))
  unfolding keep_best
  keep_best-Distinct scores r [] d = (λ m. m, tt)
  keep_best-Distinct scores r (x ∷ xs) (out, d) = elim (Bool-cases (str_eq x.doc_id r.doc_id)) [
    | inr other ↦
        rw (other, keep_best)
          (
            λ m. elim (keep_best-ids scores r x.doc_id xs m) [
              | inl e ↦ absurd (ground (arith, sym other ∙ (str_eq_iff x.doc_id r.doc_id).1 e))
              | inr n ↦ out n
            ],
            keep_best-Distinct scores r xs d,
          )
    | inl same ↦ elim (Bool-cases (at_least x.score r.score)) [
      | inl kept ↦ rw (same, kept, keep_best) (out, d)
      | inr better ↦
          rw (same, better, keep_best)
            (
              λ m. out (
                  subst (λ i. In i (doc_ids scores xs))
                    (sym ((str_eq_iff x.doc_id r.doc_id).0 same)) m),
              d,
            )
    ]
  ]

  module _ (reflexive : (a : F) → at_least a a ≡ true)
      (total : (a b : F) → at_least a b ≡ false → at_least b a ≡ true)
      (transitive : (a b c : F)
        → at_least a b ≡ true
        → at_least b c ≡ true
        → at_least a c ≡ true) where
    keep_best-covers_new :
        (r : SearchResult F V) (xs : List (SearchResult F V))
        → IsCovered r (keep_best at_least r xs)
    unfolding keep_best
    keep_best-covers_new r [] = (r, inl refl, refl, reflexive r.score)
    keep_best-covers_new r (x ∷ xs) = elim (Bool-cases (str_eq x.doc_id r.doc_id)) [
      | inr other ↦
          let (y, m, e, best) = keep_best-covers_new r xs in
          rw (other, keep_best) (y, inr m, e, best)
      | inl same ↦ elim (Bool-cases (at_least x.score r.score)) [
        | inl kept ↦
            rw (same, kept, keep_best) (x, inl refl, (str_eq_iff x.doc_id r.doc_id).0 same, kept)
        | inr better ↦ rw (same, better, keep_best) (r, inl refl, refl, reflexive r.score)
      ]
    ]

    keep_best-covers_old :
        (x r : SearchResult F V) (xs : List (SearchResult F V))
        → IsCovered x xs
        → IsCovered x (keep_best at_least r xs)
    unfolding keep_best
    keep_best-covers_old x r [] (y, m, e, best) = absurd m
    keep_best-covers_old x r (z ∷ xs) (y, m, e, best) =
        elim (Bool-cases (str_eq z.doc_id r.doc_id)) [
          | inr other ↦ elim m [
            | inl here ↦ rw (other, keep_best) (y, inl here, e, best)
            | inr n ↦
                let (w, k, f, most) = keep_best-covers_old x r xs (y, n, e, best) in
                rw (other, keep_best) (w, inr k, f, most)
          ]
          | inl same ↦ elim (Bool-cases (at_least z.score r.score)) [
            | inl kept ↦ rw (same, kept, keep_best) (y, m, e, best)
            | inr better ↦
                rw (same, better, keep_best)
                  (elim m [
                    | inr n ↦ (y, inr n, e, best)
                    | inl here ↦ (
                      r,
                      inl refl,
                      sym ((str_eq_iff z.doc_id r.doc_id).0 same)
                          ∙ sym (ap (λ (q : SearchResult F V). q.doc_id) here)
                          ∙ e,
                      transitive r.score z.score x.score (total z.score r.score better) (
                          subst (λ (q : SearchResult F V). at_least q.score x.score ≡ true) here
                            best),
                    )
                  ])
          ]
        ]

    best_of-covers :
        (x : SearchResult F V) (rs kept : List (SearchResult F V))
        → In x rs ⊎ IsCovered x kept
        → IsCovered x (best_of at_least rs kept)
    unfolding best_of
    best_of-covers x [] kept (inl m) = absurd m
    best_of-covers x [] kept (inr c) = c
    best_of-covers x (r ∷ rs) kept (inl (inr m)) =
        best_of-covers x rs (keep_best at_least r kept) (inl m)
    best_of-covers x (r ∷ rs) kept (inr c) =
        best_of-covers x rs (keep_best at_least r kept) (inr (keep_best-covers_old x r kept c))
    best_of-covers x (r ∷ rs) kept (inl (inl e)) = best_of-covers x rs (keep_best at_least r kept) (
        inr (
          subst (λ q. IsCovered q (keep_best at_least r kept)) (sym e)
            (keep_best-covers_new r kept)))

  best_of-In :
      (y : SearchResult F V) (rs kept : List (SearchResult F V))
      → In y (best_of at_least rs kept)
      → In y rs ⊎ In y kept
  unfolding best_of
  best_of-In y [] kept m = inr m
  best_of-In y (r ∷ rs) kept m = elim (best_of-In y rs (keep_best at_least r kept) m) [
    | inl n ↦ inl (inr n)
    | inr n ↦ elim (keep_best-In r y kept n) [ inl e ↦ inl (inl e) | inr k ↦ inr k ]
  ]

  best_of-Distinct :
      (scores : Scores F) (rs kept : List (SearchResult F V))
      → Distinct (doc_ids scores kept)
      → Distinct (doc_ids scores (best_of at_least rs kept))
  unfolding best_of
  best_of-Distinct scores [] kept d = d
  best_of-Distinct scores (r ∷ rs) kept d =
      best_of-Distinct scores rs (keep_best at_least r kept) (keep_best-Distinct scores r kept d)

  abbrev pub IsRanking : Scores F → List (SearchResult F V) → List (SearchResult F V) → Type 0
  IsRanking scores results ranking =
      ((y : SearchResult F V) → In y ranking → In y results)
      × IsRanked scores ranking
      × ((x : SearchResult F V) → In x results → IsCovered x ranking)

  abbrev pub IsTop : Scores F → List (SearchResult F V) → ℕ → List (SearchResult F V) → Type 0
  IsTop scores results top_k top =
      (ranking : List (SearchResult F V)) × IsRanking scores results ranking
      × (top ≡ take top_k ranking)

  -- Provided that `>=` is reflexive, total and transitive and that `less` is asymmetric: what is
  -- returned is the first `top_k` results of a ranking, whose members are results, are of different
  -- documents and stand by descending score, then by ascending document, and that has for each result one
  -- of the same document with at least its score.
  pub dedupe_best_by_doc_id-IsTop :
      (scores : Scores F)
      → ((a : F) → at_least a a ≡ true)
      → ((a b : F) → at_least a b ≡ false → at_least b a ≡ true)
      → ((a b c : F) → at_least a b ≡ true → at_least b c ≡ true → at_least a c ≡ true)
      → ((a b : F) → scores.less a b ≡ true → scores.less b a ≡ false)
      → (results : List (SearchResult F V)) (top_k : ℕ)
      → IsTop scores results top_k (dedupe_best_by_doc_id at_least scores results top_k)
  unfolding dedupe_best_by_doc_id
  dedupe_best_by_doc_id-IsTop scores reflexive total transitive asymmetric results top_k =
      let kept = best_of at_least results [] in
      (
        sort scores kept,
        (
          λ y m. elim (best_of-In y results [] (sort-In scores y kept m)) [
            | inl n ↦ n
            | inr n ↦ absurd n
          ],
          InOrder-IsRanked scores (sort scores kept)
              (sort-Distinct scores kept (best_of-Distinct scores results [] tt))
              (sort-InOrder scores asymmetric kept),
          λ x m.
              let (y, n, e, best) =
                best_of-covers reflexive total transitive x results [] (inl m) in
              (y, In-sort scores y kept n, e, best),
        ),
        refl,
      )
