-- ===== src/Query/Chunks.antt =====
-- The chunks of an answer: which results they show, and how many.
use ltsearch.Common.{
  ℕ, ◌≤◌, String, Bool, true, false, Option, none, some, List, [], ◌∷◌, length, take, map, ◌≡◌,
  refl, ap, sym, subst, inl, inr, arith, In, length-take, length-map, In-keep, In-unmap, In-take,
  ◌&&◌, if◌then◌else◌,
}
use ltsearch.Search.{Values, FilterValue, SearchRequest, SearchResult}
use ltsearch.Query.Filter.{
  get, matches_filter_value, matches_all, matches_metadata, is_some_of, apply_filters,
  without_metadata,
}
use ltsearch.Query.Ranker.{Scores}
use ltsearch.Query.Router.{Parts, retrieval_window, prepared}

module _ {F G V : Type 0} (values : Values F G V) where
  -- The result has every field that the filters name, with a value that the filter accepts.
  abbrev pub Satisfies : SearchResult F V → List (String × FilterValue G) → Type 0
  Satisfies r filters =
      (field : String) (expected : FilterValue G)
      → In (field, expected) filters
      → (metadata : List (String × V)) × (r.metadata ≡ some metadata)
        × (actual : V) × (get field metadata ≡ some actual)
        × (matches_filter_value values actual expected ≡ true)

  abbrev pub Passes : SearchResult F V → Option (List (String × FilterValue G)) → Type 0
  Passes r none = Unit
  Passes r (some filters) = Satisfies r filters

  is_some_of-true :
      {A B : Type 0} (same : A → B → Bool) (o : Option A) (b : B)
      → is_some_of same o b ≡ true
      → (a : A) × (o ≡ some a) × (same a b ≡ true)
  is_some_of-true same none b h = absurd (ground (arith, h))
  is_some_of-true same (some a) b h = (a, refl, h)

  and-both : (a b : Bool) → a && b ≡ true → (a ≡ true) × (b ≡ true)
  and-both a b h = ground arith

  matches_all-In :
      (metadata : List (String × V)) (filters : List (String × FilterValue G)) (field : String)
      (expected : FilterValue G)
      → matches_all values metadata filters ≡ true
      → In (field, expected) filters
      → (actual : V) × (get field metadata ≡ some actual)
        × (matches_filter_value values actual expected ≡ true)
  unfolding matches_all
  matches_all-In metadata [] field expected h m = absurd m
  matches_all-In metadata ((f, x) ∷ rest) field expected h (inl e) =
      is_some_of-true (matches_filter_value values) (get field metadata) expected (
        subst
          (λ (p : String × FilterValue G).
            is_some_of (matches_filter_value values) (get p.0 metadata) p.1 ≡ true)
          (sym e) (and-both _ _ h).0)
  matches_all-In metadata ((f, x) ∷ rest) field expected h (inr m) =
      matches_all-In metadata rest field expected (and-both _ _ h).1 m

  matches_metadata-Satisfies :
      (r : SearchResult F V) (found : Option (List (String × V)))
      (filters : List (String × FilterValue G))
      → r.metadata ≡ found
      → matches_metadata values found filters ≡ true
      → Satisfies r filters
  unfolding matches_metadata
  matches_metadata-Satisfies r none filters e h field expected m = absurd (ground (arith, h))
  matches_metadata-Satisfies r (some metadata) filters e h field expected m =
      let (actual, there, accepted) = matches_all-In metadata filters field expected h m in
      (metadata, e, actual, there, accepted)

  -- What passes the filters was retrieved, and satisfies them.
  apply_filters-In :
      (found : List (SearchResult F V)) (filters : Option (List (String × FilterValue G)))
      (r : SearchResult F V)
      → In r (apply_filters values found filters)
      → In r found × Passes r filters
  unfolding apply_filters
  apply_filters-In found none r m = (m, tt)
  apply_filters-In found (some []) r m = (m, λ field expected n. absurd n)
  apply_filters-In found (some (f ∷ filters)) r m =
      let (n, h) = In-keep r (λ x. matches_metadata values x.metadata (f ∷ filters)) found m in
      (n, matches_metadata-Satisfies r r.metadata (f ∷ filters) refl h)

  -- What is shown of a retrieved result.
  abbrev pub shown_of : SearchRequest F G → SearchResult F V → SearchResult F V
  shown_of request r = if request.include_metadata then r else without_metadata r

  prepared-map :
      (request : SearchRequest F G) (b : Bool) (cut : List (SearchResult F V))
      → (if b then cut else map without_metadata cut)
        ≡ map (λ r. if b then r else without_metadata r) cut
  prepared-map request true [] = refl
  prepared-map request true (x ∷ xs) = ap (λ ys. x ∷ ys) (prepared-map request true xs)
  prepared-map request false cut = refl

module _ {M X E F G V : Type 0} (values : Values F G V) (scores : Scores F)
    (parts : Parts M X E F V) where
  -- A chunk of the answer is a retrieved result that passes the filters, as it is shown.
  pub record IsChunk (request : SearchRequest F G) (found : List (SearchResult F V))
      (r : SearchResult F V) : Type 0 where
    pub origin : SearchResult F V
    pub retrieved : In origin found
    pub passes : Passes values origin request.filters
    pub shown : r ≡ shown_of values request origin

  pub prepared-IsChunk :
      (request : SearchRequest F G) (found : List (SearchResult F V)) (r : SearchResult F V)
      → In r (prepared values scores parts request found)
      → IsChunk request found r
  unfolding prepared
  prepared-IsChunk request found r m =
      let (o, n, e) =
        In-unmap r (shown_of values request)
          (take (retrieval_window request.top_k) (apply_filters values found request.filters))
          (subst (In r) (prepared-map values request request.include_metadata _) m) in
      let (there, passes) = apply_filters-In values found request.filters o (In-take o _ _ n) in
      record { origin = o; retrieved = there; passes = passes; shown = e }

  pub prepared-length :
      (request : SearchRequest F G) (found : List (SearchResult F V))
      → length (prepared values scores parts request found) ≤ retrieval_window request.top_k
  unfolding prepared
  prepared-length request found =
      shown_length request.include_metadata _ _
        (take_le (retrieval_window request.top_k) (apply_filters values found request.filters))
    where
      take_le : (n : ℕ) (xs : List (SearchResult F V)) → length (take n xs) ≤ n
      take_le n xs = omega (arith, length-take n xs)

      shown_length :
          (b : Bool) (cut : List (SearchResult F V)) (n : ℕ)
          → length cut ≤ n
          → length (if b then cut else map without_metadata cut) ≤ n
      shown_length true cut n h = h
      shown_length false cut n h = omega (arith, h, length-map without_metadata cut)
