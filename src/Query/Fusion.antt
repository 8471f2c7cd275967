-- ===== src/Query/Fusion.antt =====
-- What the fusion of two result lists is: each document of either list once, with the sum of what its
-- ranks contribute.
use ltsearch.Common.{
  ℕ, suc, String, Option, none, some, List, [], ◌∷◌, map, ◌≡◌, refl, ap, sym, ◌∙◌, subst, inl, inr,
  ◌⊎◌, In, In-map, Distinct, str_eq, str_eq_iff, str_eq_refl, str_eq-ne, Bool-cases, if◌then◌else◌,
  arith,
}
use ltsearch.Search.{SearchResult}
use ltsearch.Query.Ranker.{Scores, add_result, add_all}

abbrev or_else : {F : Type 0} → F → Option F → F
or_else zero_score none = zero_score
or_else zero_score (some total) = total

module _ {F V : Type 0} (scores : Scores F) where
  -- The sum of what the ranks of a document in a list contribute, after what is there already; `none`
  -- where there is nothing and the document is not in the list.
  unfoldable pub tally : String → ℕ → List (SearchResult F V) → Option F → Option F
  tally id rank [] total = total
  tally id rank (r ∷ rest) total = tally id (suc rank) rest (
      if str_eq r.doc_id id
      then some (scores.add (or_else scores.zero_score total) (scores.compute_rrf_score rank))
      else total)

  -- The score that a fusion holds for a document.
  unfoldable pub score_in : String → List (F × SearchResult F V) → Option F
  score_in id [] = none
  score_in id ((total, r) ∷ rest) =
      let later = score_in id rest in if str_eq r.doc_id id then some total else later

  abbrev pub Keeps : (SearchResult F V → SearchResult F V → SearchResult F V) → Type 0
  Keeps merge = (a b : SearchResult F V) → (merge a b).doc_id ≡ a.doc_id

  score_in-add_result :
      (merge : SearchResult F V → SearchResult F V → SearchResult F V)
      → Keeps merge
      → (s : F) (r : SearchResult F V) (id : String) (fusion : List (F × SearchResult F V))
      → score_in id (add_result scores merge s r fusion) ≡ (
          if str_eq r.doc_id id
          then some (scores.add (or_else scores.zero_score (score_in id fusion)) s)
          else score_in id fusion)
  unfolding score_in add_result
  score_in-add_result merge keeps s r id [] = refl
  score_in-add_result merge keeps s r id ((total, x) ∷ rest) =
      elim (Bool-cases (str_eq x.doc_id r.doc_id)) [
        | inl same ↦
            rw (same, keeps x r, (str_eq_iff x.doc_id r.doc_id).0 same, score_in, add_result)
              (ground arith)
        | inr other ↦ ground (
          arith,
          other,
          score_in-add_result merge keeps s r id rest,
          str_eq_iff x.doc_id id,
          str_eq_iff r.doc_id id,
          str_eq_iff x.doc_id r.doc_id,
        )
      ]

  pub score_in-add_all :
      (merge : SearchResult F V → SearchResult F V → SearchResult F V)
      → Keeps merge
      → (rank : ℕ) (id : String) (rs : List (SearchResult F V))
        (fusion : List (F × SearchResult F V))
      → score_in id (add_all scores merge rank rs fusion) ≡ tally id rank rs (score_in id fusion)
  unfolding add_all tally
  score_in-add_all merge keeps rank id [] fusion = refl
  score_in-add_all merge keeps rank id (r ∷ rs) fusion =
      score_in-add_all merge keeps (suc rank) id rs
        (add_result scores merge (scores.compute_rrf_score rank) r fusion)
      ∙ ap (tally id (suc rank) rs)
          (score_in-add_result merge keeps (scores.compute_rrf_score rank) r id fusion)

  abbrev pub ids : List (F × SearchResult F V) → List String
  ids fusion = map (λ p. p.1.doc_id) fusion

  ids-add_result :
      (merge : SearchResult F V → SearchResult F V → SearchResult F V)
      → Keeps merge
      → (s : F) (r : SearchResult F V) (id : String) (fusion : List (F × SearchResult F V))
      → In id (ids (add_result scores merge s r fusion))
      → In id (ids fusion) ⊎ (id ≡ r.doc_id)
  unfolding add_result
  ids-add_result merge keeps s r id [] (inl e) = inr e
  ids-add_result merge keeps s r id [] (inr m) = absurd m
  ids-add_result merge keeps s r id ((total, x) ∷ rest) m =
      elim (Bool-cases (str_eq x.doc_id r.doc_id)) [
        | inl same ↦ elim (rw (same, add_result) at m) [
          | inl e ↦ inl (inl (e ∙ keeps x r))
          | inr n ↦ inl (inr n)
        ]
        | inr other ↦ elim (rw (other, add_result) at m) [
          | inl e ↦ inl (inl e)
          | inr n ↦ elim (ids-add_result merge keeps s r id rest n) [
            | inl k ↦ inl (inr k)
            | inr e ↦ inr e
          ]
        ]
      ]

  add_result-Distinct :
      (merge : SearchResult F V → SearchResult F V → SearchResult F V)
      → Keeps merge
      → (s : F) (r : SearchResult F V) (fusion : List (F × SearchResult F V))
      → Distinct (ids fusion)
      → Distinct (ids (add_result scores merge s r fusion))
  unfolding add_result
  add_result-Distinct merge keeps s r [] d = (λ m. m, tt)
  add_result-Distinct merge keeps s r ((total, x) ∷ rest) (out, d) =
      elim (Bool-cases (str_eq x.doc_id r.doc_id)) [
        | inl same ↦
            rw (same, add_result) (λ m. out (subst (λ k. In k (ids rest)) (keeps x r) m), d)
        | inr other ↦
            rw (other, add_result)
              (
                λ m. elim (ids-add_result merge keeps s r x.doc_id rest m) [
                  | inl n ↦ out n
                  | inr e ↦ absurd (ground (arith, other, str_eq_iff x.doc_id r.doc_id, e))
                ],
                add_result-Distinct merge keeps s r rest d,
              )
      ]

  pub add_all-Distinct :
      (merge : SearchResult F V → SearchResult F V → SearchResult F V)
      → Keeps merge
      → (rank : ℕ) (rs : List (SearchResult F V)) (fusion : List (F × SearchResult F V))
      → Distinct (ids fusion)
      → Distinct (ids (add_all scores merge rank rs fusion))
  unfolding add_all
  add_all-Distinct merge keeps rank [] fusion d = d
  add_all-Distinct merge keeps rank (r ∷ rs) fusion d =
      add_all-Distinct merge keeps (suc rank) rs _
        (add_result-Distinct merge keeps (scores.compute_rrf_score rank) r fusion d)

  pub In-score_in :
      (p : F × SearchResult F V) (fusion : List (F × SearchResult F V))
      → Distinct (ids fusion)
      → In p fusion
      → score_in p.1.doc_id fusion ≡ some p.0
  unfolding score_in
  In-score_in p [] d m = absurd m
  In-score_in p ((total, x) ∷ rest) (out, d) (inl e) =
      rw
        (
          ap (λ (q : F × SearchResult F V). q.1) e,
          ap (λ (q : F × SearchResult F V). q.0) e,
          str_eq_refl x.doc_id,
          score_in,
        )
        refl
  In-score_in p ((total, x) ∷ rest) (out, d) (inr m) =
      rw
        (
          str_eq-ne x.doc_id p.1.doc_id
              (λ e. out (subst (λ k. In k (ids rest)) (sym e) (In-map p (λ q. q.1.doc_id) rest m))),
          score_in,
        )
        (In-score_in p rest d m)

  pub score_in-In :
      (id : String) (s : F) (fusion : List (F × SearchResult F V))
      → score_in id fusion ≡ some s
      → (r : SearchResult F V) × In (s, r) fusion × (r.doc_id ≡ id)
  unfolding score_in
  score_in-In id s [] h = absurd (ground (arith, h))
  score_in-In id s ((total, x) ∷ rest) h = elim (Bool-cases (str_eq x.doc_id id)) [
    | inl here ↦
        (x, inl (ground (arith, rw (here, score_in) at h)), (str_eq_iff x.doc_id id).0 here)
    | inr later ↦ let (r, m, e) = score_in-In id s rest (rw (later, score_in) at h) in (r, inr m, e)
  ]
