-- ===== src/Query/Router.antt =====
-- src/query/router.rs: `QueryRouter::search`. The retrievers, the embedding service and the manifest
-- store are parameters; a warning that is written to the sink is left out.
use ltsearch.Common.{
  ℕ, zero, suc, ◌*◌, String, Bool, true, false, Option, none, some, List, [], ◌∷◌, length, take, ok,
  err, Result, leb, ◌==◌, ◌||◌, if◌then◌else◌, min, max,
}
use ltsearch.Common.Outcome.{each, map_err, ◌>>=◌, ◌>>◌}
use ltsearch.Errors.{ValidationError, SearchError}
use ltsearch.Search.{
  Values, SearchRequest, SearchResult, SearchResponse, validate_request, validate_result,
  validate_response,
}
use ltsearch.Query.Filter.{apply_filters, strip_metadata}
use ltsearch.Query.Ranker.{Scores, fuse}

abbrev pub search_window_max : ℕ
search_window_max = 100

-- `top_k.max(1).saturating_mul(3).min(SEARCH_WINDOW_MAX)`
unfoldable pub retrieval_window : ℕ → ℕ
retrieval_window top_k = min (max top_k 1 * 3) search_window_max

-- A retriever in a thread of its own: it returns, or it panics.
pub data Joined (A : Type 0) : Type 0 where
  returned : A → Joined A
  panicked : String → Joined A

abbrev pub join : {A : Type 0} → Joined A → Result SearchError A
join (returned a) = ok a
join (panicked message) = err (SearchError.execution message)

pub record GroupedSearchResults (F V : Type 0) : Type 0 where
  pub static_chunks : List (SearchResult F V)
  pub dynamic_chunks : List (SearchResult F V)

-- What the router is made of: `M` is the active manifest, `X` an embedding, `E` the error of the
-- embedding service.
pub record Parts (M X E F V : Type 0) : Type 0 where
  pub load_active_manifest : Result String M
  pub version_of : M → ℕ
  -- the answer to the call with the given number
  pub generate : ℕ → String → Result E X
  pub static_search : M → X → ℕ → Joined (Result SearchError (List (SearchResult F V)))
  pub keyword_search : M → String → ℕ → Joined (Result SearchError (List (SearchResult F V)))
  pub vector_search : M → X → ℕ → Joined (Result SearchError (List (SearchResult F V)))
  -- the keyword search without a thread: a panic goes through
  pub keyword_search_here : M → String → ℕ → Result SearchError (List (SearchResult F V))
  pub static_release_id : Option String
  pub latency_ms : ℕ

-- `for _ in 0..ATTEMPTS`, with the error of the last call
unfoldable pub attempts : {E X : Type 0} → (ℕ → Result E X) → ℕ → ℕ → Result E X
attempts call n zero = call n
attempts call n (suc left) =
    let later = attempts call (suc n) left in elim (call n) [ ok x ↦ ok x | err e ↦ later ]

-- `EMBEDDING_GENERATION_MAX_ATTEMPTS` is 2.
unfoldable pub generate_embedding_with_retry :
    {M X E F V : Type 0} → Parts M X E F V → String → Result E X
unfolding attempts
generate_embedding_with_retry parts query = attempts (λ n. parts.generate n query) 0 1

module _ {M X E F G V : Type 0} (values : Values F G V) (scores : Scores F)
    (parts : Parts M X E F V) where
  unfoldable pub validate_results : List (SearchResult F V) → Result SearchError (Unit {0})
  validate_results results = map_err SearchError.validation (each (validate_result values) results)

  unfoldable pub search_grouped : M → String → X → ℕ → Result SearchError (GroupedSearchResults F V)
  unfolding validate_results
  search_grouped active query embedding top_k = do
    from_static ← join (parts.static_search active embedding top_k)
    from_keyword ← join (parts.keyword_search active query top_k)
    from_vector ← join (parts.vector_search active embedding top_k)
    static_results ← from_static
    keyword_results ← from_keyword
    vector_results ← from_vector
    validate_results static_results
    validate_results keyword_results
    validate_results vector_results
    ok (record {
      static_chunks = static_results;
      dynamic_chunks = fuse scores vector_results keyword_results;
    })

  unfoldable pub search_keyword_only : M → String → ℕ → Result SearchError (List (SearchResult F V))
  unfolding validate_results
  search_keyword_only active query top_k = do
    results ← parts.keyword_search_here active query top_k
    validate_results results
    ok results

  -- One retrieval: with the embedding, or by keyword only where there is none.
  unfoldable pub retrieve :
      M → String → Result E X → ℕ → Result SearchError (GroupedSearchResults F V)
  unfolding search_grouped search_keyword_only
  retrieve active query (ok embedding) window = search_grouped active query embedding window
  retrieve active query (err e) window = do
    results ← search_keyword_only active query window
    ok (record { static_chunks = []; dynamic_chunks = results })

  unfoldable pub search_single_pass :
      SearchRequest F G → M → Result E X → Result SearchError (GroupedSearchResults F V)
  unfolding retrieve retrieval_window
  search_single_pass request active embedding =
      retrieve active request.query embedding (retrieval_window request.top_k)

  abbrev pub next_top_k : ℕ → ℕ
  next_top_k top_k = min (top_k * 2) search_window_max

  -- The results are returned when enough of them pass the filters, or the window cannot grow.
  abbrev pub is_last : SearchRequest F G → ℕ → GroupedSearchResults F V → Bool
  is_last request top_k results =
      leb request.top_k (length (apply_filters values results.dynamic_chunks request.filters))
      || leb search_window_max top_k
      || next_top_k top_k == top_k

  -- The loop, with fuel; `none` means that the fuel ran out.
  unfoldable pub filtering_loop :
      ℕ
      → SearchRequest F G
      → M
      → Result E X
      → ℕ
      → Option (Result SearchError (GroupedSearchResults F V))
  unfolding retrieve retrieval_window
  filtering_loop zero request active embedding top_k = none
  filtering_loop (suc fuel) request active embedding top_k =
      let later = filtering_loop fuel request active embedding (next_top_k top_k) in
      elim (retrieve active request.query embedding (retrieval_window top_k)) [
        | err e ↦ some (err e)
        | ok results ↦ if is_last request top_k results then some (ok results) else later
      ]

  -- The window starts at `top_k` and at least doubles, so eight rounds reach its limit.
  unfoldable pub search_with_iterative_filtering :
      SearchRequest F G → M → Result E X → Option (Result SearchError (GroupedSearchResults F V))
  unfolding filtering_loop
  search_with_iterative_filtering request active embedding =
      filtering_loop 8 request active embedding (max request.top_k 1)

  abbrev pub query_requires_iterative_filtering : SearchRequest F G → Bool
  query_requires_iterative_filtering request = elim request.filters [
    | none ↦ false
    | some [] ↦ false
    | some (f ∷ fs) ↦ true
  ]

  unfoldable pub retrieved :
      SearchRequest F G → M → Result E X → Option (Result SearchError (GroupedSearchResults F V))
  unfolding search_with_iterative_filtering
  retrieved request active embedding =
      if query_requires_iterative_filtering request
      then search_with_iterative_filtering request active embedding
      else some (search_single_pass request active embedding)

  -- The chunks of one path as they are returned.
  unfoldable pub prepared : SearchRequest F G → List (SearchResult F V) → List (SearchResult F V)
  prepared request chunks =
      let cut =
        take (retrieval_window request.top_k) (apply_filters values chunks request.filters) in
      if request.include_metadata then cut else strip_metadata cut

  abbrev pub response_of :
      M → List (SearchResult F V) → List (SearchResult F V) → SearchResponse F V
  response_of active static_chunks dynamic_chunks = record {
    static_chunks = static_chunks;
    static_count = length static_chunks;
    dynamic_chunks = dynamic_chunks;
    dynamic_count = length dynamic_chunks;
    latency_ms = parts.latency_ms;
    index_version = parts.version_of active;
    static_release_id = parts.static_release_id;
  }

  unfoldable pub respond :
      SearchRequest F G → M → GroupedSearchResults F V → Result SearchError (SearchResponse F V)
  unfolding prepared retrieval_window
  respond request active results = do
    let response =
        response_of active (prepared request results.static_chunks)
          (prepared request results.dynamic_chunks)
    map_err SearchError.validation
        (validate_response values response (retrieval_window request.top_k))
    ok response

  unfoldable pub respond_to :
      SearchRequest F G
      → M
      → Option (Result SearchError (GroupedSearchResults F V))
      → Option (Result SearchError (SearchResponse F V))
  unfolding respond
  respond_to request active none = none
  respond_to request active (some (err e)) = some (err e)
  respond_to request active (some (ok results)) = some (respond request active results)

  unfoldable pub search_active :
      SearchRequest F G → Result SearchError M → Option (Result SearchError (SearchResponse F V))
  unfolding respond_to retrieved generate_embedding_with_retry
  search_active request (err e) = some (err e)
  search_active request (ok active) =
      respond_to request active
        (retrieved request active (generate_embedding_with_retry parts request.query))

  unfoldable pub search_checked :
      SearchRequest F G
      → Result ValidationError (Unit {0})
      → Option (Result SearchError (SearchResponse F V))
  unfolding search_active
  search_checked request (err e) = some (err (SearchError.validation e))
  search_checked request (ok u) =
      search_active request (map_err SearchError.execution parts.load_active_manifest)

  unfoldable pub search : SearchRequest F G → Option (Result SearchError (SearchResponse F V))
  unfolding search_checked
  search request = search_checked request (validate_request values request)
