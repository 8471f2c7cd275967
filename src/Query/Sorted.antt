-- ===== src/Query/Sorted.antt =====
-- The sort of the fused results: the same results, in order.

use Prim.Native.String as Text
use ltsearch.Common.{
  String, true, false, List, [], ◌∷◌, map, ◌≡◌, refl, ap, sym, subst, inl, inr, ◌⊎◌, In, In-map,
  In-unmap, ◌∙◌, Distinct, Bool-cases, arith,
}
use ltsearch.Search.{SearchResult}
use ltsearch.Query.Ranker.{Scores, str_less, before, insert_sorted, sort}

pub str_less-asym : (a b : String) → str_less a b ≡ true → str_less b a ≡ false
unfolding str_less
str_less-asym Text.[] Text.[] h = ground (arith, h)
str_less-asym Text.[] (Text.◌∷◌ d t) h = refl
str_less-asym (Text.◌∷◌ c s) Text.[] h = ground (arith, h)
str_less-asym (Text.◌∷◌ c s) (Text.◌∷◌ d t) h = elim (Bool-cases (str_less s t)) [
  | inl less ↦ ground (arith, h, str_less-asym s t less)
  | inr more ↦ ground (arith, h, more)
]

module _ {F V : Type 0} (scores : Scores F) where
  insert_sorted-In :
      (r x : SearchResult F V) (xs : List (SearchResult F V))
      → In x (insert_sorted scores r xs)
      → (x ≡ r) ⊎ In x xs
  unfolding insert_sorted
  insert_sorted-In r x [] m = m
  insert_sorted-In r x (y ∷ ys) m = elim (Bool-cases (before scores y r)) [
    | inl first ↦ elim (rw (first, insert_sorted) at m) [
      | inl e ↦ inr (inl e)
      | inr n ↦ elim (insert_sorted-In r x ys n) [ inl e ↦ inl e | inr k ↦ inr (inr k) ]
    ]
    | inr later ↦ rw (later, insert_sorted) at m
  ]

  In-insert_sorted :
      (r x : SearchResult F V) (xs : List (SearchResult F V))
      → (x ≡ r) ⊎ In x xs
      → In x (insert_sorted scores r xs)
  unfolding insert_sorted
  In-insert_sorted r x [] m = m
  In-insert_sorted r x (y ∷ ys) m = elim (Bool-cases (before scores y r)) [
    | inl first ↦
        rw (first, insert_sorted)
          (elim m [
            | inl e ↦ inr (In-insert_sorted r x ys (inl e))
            | inr (inl e) ↦ inl e
            | inr (inr n) ↦ inr (In-insert_sorted r x ys (inr n))
          ])
    | inr later ↦ rw (later, insert_sorted) m
  ]

  pub sort-In :
      (x : SearchResult F V) (xs : List (SearchResult F V)) → In x (sort scores xs) → In x xs
  unfolding sort
  sort-In x [] m = m
  sort-In x (y ∷ ys) m = elim (insert_sorted-In y x (sort scores ys) m) [
    | inl e ↦ inl e
    | inr n ↦ inr (sort-In x ys n)
  ]

  pub In-sort :
      (x : SearchResult F V) (xs : List (SearchResult F V)) → In x xs → In x (sort scores xs)
  unfolding sort
  In-sort x [] m = absurd m
  In-sort x (y ∷ ys) (inl e) = In-insert_sorted y x (sort scores ys) (inl e)
  In-sort x (y ∷ ys) (inr m) = In-insert_sorted y x (sort scores ys) (inr (In-sort x ys m))

  -- No result stands directly before one that it should follow.
  abbrev pub InOrder : List (SearchResult F V) → Type 0
  InOrder [] = Unit
  InOrder (x ∷ []) = Unit
  InOrder (x ∷ y ∷ ys) = (before scores y x ≡ false) × InOrder (y ∷ ys)

  module _ (asymmetric : (a b : F) → scores.less a b ≡ true → scores.less b a ≡ false) where
    before-asym : (a b : SearchResult F V) → before scores a b ≡ true → before scores b a ≡ false
    before-asym a b h = ground (
      arith,
      h,
      asymmetric a.score b.score,
      asymmetric b.score a.score,
      str_less-asym a.doc_id b.doc_id,
    )

    insert_sorted-InOrder :
        (r : SearchResult F V) (xs : List (SearchResult F V))
        → InOrder xs
        → InOrder (insert_sorted scores r xs)
    unfolding insert_sorted
    insert_sorted-InOrder r [] h = tt
    insert_sorted-InOrder r (x ∷ []) h = elim (Bool-cases (before scores x r)) [
      | inl first ↦ rw (first, insert_sorted) (before-asym x r first, tt)
      | inr later ↦ rw (later, insert_sorted) (later, tt)
    ]
    insert_sorted-InOrder r (x ∷ y ∷ ys) (first, h) =
        let rest = insert_sorted-InOrder r (y ∷ ys) h in
        elim (Bool-cases (before scores x r)) [
          | inr later ↦ rw (later, insert_sorted) (later, (first, h))
          | inl before_r ↦ elim (Bool-cases (before scores y r)) [
            | inl also ↦
                rw (before_r, also, insert_sorted) (first, rw (also, insert_sorted) at rest)
            | inr here ↦
                rw (before_r, here, insert_sorted)
                  (before-asym x r before_r, rw (here, insert_sorted) at rest)
          ]
        ]

    pub sort-InOrder : (xs : List (SearchResult F V)) → InOrder (sort scores xs)
    unfolding sort
    sort-InOrder [] = tt
    sort-InOrder (x ∷ xs) = insert_sorted-InOrder x (sort scores xs) (sort-InOrder xs)

  abbrev pub doc_ids : List (SearchResult F V) → List String
  doc_ids xs = map (λ (r : SearchResult F V). r.doc_id) xs

  insert_sorted-Distinct :
      (r : SearchResult F V) (xs : List (SearchResult F V))
      → ¬ In r.doc_id (doc_ids xs)
      → Distinct (doc_ids xs)
      → Distinct (doc_ids (insert_sorted scores r xs))
  unfolding insert_sorted
  insert_sorted-Distinct r [] out d = (out, tt)
  insert_sorted-Distinct r (x ∷ xs) out (apart, d) = elim (Bool-cases (before scores x r)) [
    | inr later ↦ rw (later, insert_sorted) (out, (apart, d))
    | inl first ↦
        rw (first, insert_sorted)
          (
            λ m.
                let (y, n, e) =
                  In-unmap x.doc_id (λ (q : SearchResult F V). q.doc_id) (insert_sorted scores r xs)
                    m in
                elim (insert_sorted-In r y xs n) [
                  | inl same ↦ out (inl (sym (e ∙ ap (λ (q : SearchResult F V). q.doc_id) same)))
                  | inr k ↦ apart (
                      subst (λ i. In i (doc_ids xs)) (sym e)
                        (In-map y (λ (q : SearchResult F V). q.doc_id) xs k))
                ],
            insert_sorted-Distinct r xs (λ m. out (inr m)) d,
          )
  ]

  -- Results of different documents stay so.
  pub sort-Distinct :
      (xs : List (SearchResult F V)) → Distinct (doc_ids xs) → Distinct (doc_ids (sort scores xs))
  unfolding sort
  sort-Distinct [] d = tt
  sort-Distinct (x ∷ xs) (out, d) =
      insert_sorted-Distinct x (sort scores xs)
        (λ m.
          let (y, n, e) =
            In-unmap x.doc_id (λ (q : SearchResult F V). q.doc_id) (sort scores xs) m in
          out (
            subst (λ i. In i (doc_ids xs)) (sym e)
              (In-map y (λ (q : SearchResult F V). q.doc_id) xs (sort-In y xs n))))
        (sort-Distinct xs d)
