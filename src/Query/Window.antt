-- ===== src/Query/Window.antt =====
-- The search for enough filtered results: it ends, and with what.
use ltsearch.Common.{
  ℕ, zero, suc, ◌*◌, ◌≤◌, true, false, Option, none, some, length, ok, err, Result, ◌≡◌, refl, ap,
  ◌⊎◌, inl, inr, arith, Bool-cases, min, max, leb, subst, ◌∙◌,
}
use ltsearch.Common.Outcome.{Result-cases}
use ltsearch.Errors.{ValidationError, SearchError}
use ltsearch.Search.{Values, SearchRequest}
use ltsearch.Query.Filter.{apply_filters}
use ltsearch.Query.Ranker.{Scores}
use ltsearch.Query.Router.{
  Parts, GroupedSearchResults, retrieval_window, retrieve, next_top_k, is_last, filtering_loop,
  search_single_pass, respond, respond_to, search_active, search_checked,
  search_with_iterative_filtering, retrieved, search, query_requires_iterative_filtering,
}

-- The code returns.
abbrev pub Returns : {A : Type 0} → Option A → Type 0
Returns {A} o = (a : A) × (o ≡ some a)

-- The window after so many doublings.
doubled : ℕ → ℕ → ℕ
doubled zero k = k
doubled (suc n) k = doubled n (k * 2)

doubled-le : (n k : ℕ) → k ≤ doubled n k
unfolding doubled
doubled-le zero k = omega arith
doubled-le (suc n) k = omega (arith, doubled-le n (k * 2))

doubled-capped : (n k : ℕ) → 100 ≤ doubled (suc n) k → 100 ≤ doubled n (min (k * 2) 100)
unfolding doubled
doubled-capped n k h = elim (Bool-cases (leb (k * 2) 100)) [
  | inl small ↦ subst (λ m. 100 ≤ doubled n m) (ground (arith, small)) h
  | inr big ↦ subst (λ m. 100 ≤ doubled n m) (ground (arith, big)) (doubled-le n 100)
]

module _ {M X E F G V : Type 0} (values : Values F G V) (scores : Scores F)
    (parts : Parts M X E F V) where
  last_round :
      (request : SearchRequest F G) (k : ℕ) (results : GroupedSearchResults F V)
      → 100 ≤ k
      → is_last values scores parts request k results ≡ true
  last_round request k results h = ground arith

  -- A round returns, if the rest of the loop does where there is one.
  one_round :
      (n : ℕ) (request : SearchRequest F G) (active : M) (embedding : Result E X) (k : ℕ)
      → ((results : GroupedSearchResults F V)
          → is_last values scores parts request k results ≡ false
          → Returns (
              filtering_loop values scores parts n request active embedding
                (next_top_k values scores parts k)))
      → Returns (filtering_loop values scores parts (suc n) request active embedding k)
  unfolding filtering_loop
  one_round n request active embedding k others =
      elim (Result-cases
        (retrieve values scores parts active request.query embedding (retrieval_window k))) [
          | inr (e, failed) ↦ (err e, rw (failed, filtering_loop) refl)
          | inl (results, found) ↦
              elim (Bool-cases (is_last values scores parts request k results)) [
                | inl last ↦ (ok results, rw (found, last, filtering_loop) refl)
                | inr more ↦ rw (found, more, filtering_loop) (others results more)
              ]
        ]

  -- Fuel is enough when so many doublings take the window to its limit.
  filtering_loop-Returns :
      (n : ℕ) (request : SearchRequest F G) (active : M) (embedding : Result E X) (k : ℕ)
      → 100 ≤ doubled n k
      → Returns (filtering_loop values scores parts (suc n) request active embedding k)
  unfolding doubled
  filtering_loop-Returns zero request active embedding k h =
      one_round zero request active embedding k
        (λ results more. absurd (ground (arith, more, last_round request k results h)))
  filtering_loop-Returns (suc n) request active embedding k h =
      one_round (suc n) request active embedding k
        (λ results more. filtering_loop-Returns n request active embedding _ (doubled-capped n k h))

  start_enough : (k : ℕ) → 1 ≤ k → 100 ≤ doubled 7 k
  unfolding doubled
  start_enough k h = omega (arith, h)

  retrieved-Returns :
      (request : SearchRequest F G) (active : M) (embedding : Result E X)
      → Returns (retrieved values scores parts request active embedding)
  unfolding retrieved search_with_iterative_filtering
  retrieved-Returns request active embedding =
      elim (Bool-cases (query_requires_iterative_filtering values scores parts request)) [
        | inl needed ↦ rw needed (
            filtering_loop-Returns 7 request active embedding (max request.top_k 1)
              (start_enough (max request.top_k 1) (omega arith)))
        | inr direct ↦
            rw direct (search_single_pass values scores parts request active embedding, refl)
      ]

  respond_to-Returns :
      (request : SearchRequest F G) (active : M)
      (o : Option (Result SearchError (GroupedSearchResults F V)))
      → Returns o
      → Returns (respond_to values scores parts request active o)
  unfolding respond_to
  respond_to-Returns request active none (r, e) = cc
  respond_to-Returns request active (some (err e)) h = (err e, refl)
  respond_to-Returns request active (some (ok results)) h =
      (respond values scores parts request active results, refl)

  search_active-Returns :
      (request : SearchRequest F G) (loaded : Result SearchError M)
      → Returns (search_active values scores parts request loaded)
  unfolding search_active
  search_active-Returns request (err e) = (err e, refl)
  search_active-Returns request (ok active) =
      respond_to-Returns request active _ (retrieved-Returns request active _)

  search_checked-Returns :
      (request : SearchRequest F G) (checked : Result ValidationError (Unit {0}))
      → Returns (search_checked values scores parts request checked)
  unfolding search_checked
  search_checked-Returns request (err e) = (err (SearchError.validation e), refl)
  search_checked-Returns request (ok u) = search_active-Returns request _

  -- Every search returns: its loop for filtered results ends, whatever the retrievers answer.
  pub search-Returns : (request : SearchRequest F G) → Returns (search values scores parts request)
  unfolding search
  search-Returns request = search_checked-Returns request _

  last_cases :
      (request : SearchRequest F G) (k : ℕ) (results : GroupedSearchResults F V)
      → 1 ≤ k
      → k ≤ 100
      → is_last values scores parts request k results ≡ true
      → (request.top_k ≤ length (apply_filters values results.dynamic_chunks request.filters))
        ⊎ (k ≡ 100)
  last_cases request k results low high last = ground arith

  some_ok :
      (a b : GroupedSearchResults F V)
      → ◌≡◌ {A = Option (Result SearchError (GroupedSearchResults F V))} (some (ok a)) (some (ok b))
      → a ≡ b
  some_ok a b e = ground arith

  concluded :
      (request : SearchRequest F G) (active : M) (embedding : Result E X) (k : ℕ)
      (found results : GroupedSearchResults F V)
      → retrieve values scores parts active request.query embedding (retrieval_window k) ≡ ok found
      → found ≡ results
      → (request.top_k ≤ length (apply_filters values found.dynamic_chunks request.filters))
        ⊎ (k ≡ 100)
      → (request.top_k ≤ length (apply_filters values results.dynamic_chunks request.filters))
        ⊎ (retrieve values scores parts active request.query embedding 100 ≡ ok results)
  unfolding retrieval_window
  concluded request active embedding k found results got same (inl enough) = inl (
      subst
        (λ (r : GroupedSearchResults F V).
          request.top_k ≤ length (apply_filters values r.dynamic_chunks request.filters))
        same enough)
  concluded request active embedding k found results got same (inr widest) = inr (
      subst
        (λ j.
          retrieve values scores parts active request.query embedding (retrieval_window j)
          ≡ ok found)
        widest got
      ∙ ap ok same)

  -- The loop ends with enough results that pass the filters, or with those of the widest window.
  filtering_loop-enough :
      (fuel : ℕ) (request : SearchRequest F G) (active : M) (embedding : Result E X) (k : ℕ)
      {results : GroupedSearchResults F V}
      → 1 ≤ k
      → k ≤ 100
      → filtering_loop values scores parts fuel request active embedding k ≡ some (ok results)
      → (request.top_k ≤ length (apply_filters values results.dynamic_chunks request.filters))
        ⊎ (retrieve values scores parts active request.query embedding 100 ≡ ok results)
  unfolding filtering_loop retrieval_window
  filtering_loop-enough zero request active embedding k low high h = cc
  filtering_loop-enough (suc fuel) request active embedding k {results} low high h =
      elim (Result-cases
        (retrieve values scores parts active request.query embedding (retrieval_window k))) [
          | inr (e, failed) ↦ absurd (ground (arith, rw (failed, filtering_loop) at h))
          | inl (found, got) ↦ elim (Bool-cases (is_last values scores parts request k found)) [
            | inl last ↦
                concluded request active embedding k found results got
                  (some_ok found results (rw (got, last, filtering_loop) at h))
                  (last_cases request k found low high last)
            | inr more ↦
                filtering_loop-enough fuel request active embedding
                  (next_top_k values scores parts k) (omega arith) (omega arith)
                  (rw (got, more, filtering_loop) at h)
          ]
        ]
