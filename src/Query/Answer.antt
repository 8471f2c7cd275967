-- ===== src/Query/Answer.antt =====
-- What a search that succeeds has answered.
use ltsearch.Common.{
  ℕ, ◌*◌, ◌≤◌, String, Option, none, some, List, [], ◌∷◌, length, ok, err, Result, ◌≡◌, refl, ap,
  sym, ◌∙◌, subst, inl, inr, arith, min, All, In,
}
use mathlib.Core.Option.{some-injective}
use ltsearch.Common.Outcome.{map_err, each, ◌>>◌, Result-cases}
use ltsearch.Errors.{ValidationError, SearchError}
use ltsearch.Search.{
  Values, SearchRequest, SearchResult, SearchResponse, validate_request, validate_result,
  validate_response,
}
use ltsearch.Query.Ranker.{Scores}
use ltsearch.Query.Router.{
  Parts, GroupedSearchResults, retrieval_window, retrieved, prepared, response_of,
  generate_embedding_with_retry, respond, respond_to, search_active, search_checked, search,
}
use ltsearch.Query.Chunks.{IsChunk, prepared-IsChunk, prepared-length}

ok-injective : {E A : Type 0} {a b : A} → ◌≡◌ {A = Result E A} (ok a) (ok b) → a ≡ b
ok-injective e = ground arith

module _ {M X E F G V : Type 0} (values : Values F G V) (scores : Scores F)
    (parts : Parts M X E F V) where
  -- The answer to a request, over what was loaded and retrieved for it.
  pub record IsAnswer (request : SearchRequest F G) (response : SearchResponse F V) : Type 0 where
    pub active : M
    pub results : GroupedSearchResults F V
    pub loaded : parts.load_active_manifest ≡ ok active
    pub obtained :
        retrieved values scores parts request active
          (generate_embedding_with_retry parts request.query)
        ≡ some (ok results)
    pub asked : (1 ≤ request.top_k) × (request.top_k ≤ 100)
    pub version : response.index_version ≡ parts.version_of active
    pub counted :
        (response.static_count ≡ length response.static_chunks)
        × (response.dynamic_count ≡ length response.dynamic_chunks)
    pub bounded :
        (length response.static_chunks ≤ min (3 * request.top_k) 100)
        × (length response.dynamic_chunks ≤ min (3 * request.top_k) 100)
    pub static_found :
        (r : SearchResult F V)
        → In r response.static_chunks
        → IsChunk values scores parts request results.static_chunks r
    pub dynamic_found :
        (r : SearchResult F V)
        → In r response.dynamic_chunks
        → IsChunk values scores parts request results.dynamic_chunks r
    pub static_valid : All (λ r. validate_result values r ≡ ok tt) response.static_chunks
    pub dynamic_valid : All (λ r. validate_result values r ≡ ok tt) response.dynamic_chunks

  -- Of two checks in a row that succeed, both do.
  both_ok : (m n : Result ValidationError (Unit {0})) → m >> n ≡ ok tt → (m ≡ ok tt) × (n ≡ ok tt)
  both_ok (ok u) n h = (refl, h)
  both_ok (err e) n h = cc

  each-All :
      {A : Type 0} (check : A → Result ValidationError (Unit {0})) (xs : List A)
      → each check xs ≡ ok tt
      → All (λ a. check a ≡ ok tt) xs
  unfolding each
  each-All check [] h = tt
  each-All check (x ∷ xs) h =
      let (first, others) = both_ok (check x) (each check xs) h in (first, each-All check xs others)

  response-checked :
      (response : SearchResponse F V) (n : ℕ)
      → validate_response values response n ≡ ok tt
      → each (validate_result values) response.static_chunks
          >> each (validate_result values) response.dynamic_chunks
        ≡ ok tt
  unfolding validate_response
  response-checked response n h = ground (arith, h)

  response-valid :
      (response : SearchResponse F V) (n : ℕ)
      → validate_response values response n ≡ ok tt
      → All (λ r. validate_result values r ≡ ok tt) response.static_chunks
        × All (λ r. validate_result values r ≡ ok tt) response.dynamic_chunks
  response-valid response n h =
      let (statics, dynamics) =
        both_ok (each (validate_result values) response.static_chunks)
          (each (validate_result values) response.dynamic_chunks) (response-checked response n h) in
      (each-All _ _ statics, each-All _ _ dynamics)

  request-asked :
      (request : SearchRequest F G)
      → validate_request values request ≡ ok tt
      → (1 ≤ request.top_k) × (request.top_k ≤ 100)
  unfolding validate_request
  request-asked request h = ground (arith, h)

  respond-ok :
      (request : SearchRequest F G) (active : M) (results : GroupedSearchResults F V)
      {response : SearchResponse F V}
      → respond values scores parts request active results ≡ ok response
      → (response
          ≡ response_of values scores parts active
              (prepared values scores parts request results.static_chunks)
              (prepared values scores parts request results.dynamic_chunks))
        × (validate_response values response (retrieval_window request.top_k) ≡ ok tt)
  unfolding respond
  respond-ok request active results {response} h =
      elim (Result-cases (
        validate_response values
          (response_of values scores parts active
            (prepared values scores parts request results.static_chunks)
            (prepared values scores parts request results.dynamic_chunks))
          (retrieval_window request.top_k))) [
            | inl (tt, valid) ↦
                let same = ok-injective (rw valid at h) in
                (
                  sym same,
                  subst (λ r. validate_response values r (retrieval_window request.top_k) ≡ ok tt)
                      same valid,
                )
            | inr (e, invalid) ↦ absurd (ground (arith, rw invalid at h))
          ]

  retrieval_window-le : (k : ℕ) → 1 ≤ k → retrieval_window k ≤ min (3 * k) 100
  unfolding retrieval_window
  retrieval_window-le k h = omega (arith, h)

  respond-IsAnswer :
      (request : SearchRequest F G) (active : M) (results : GroupedSearchResults F V)
      (response : SearchResponse F V)
      → parts.load_active_manifest ≡ ok active
      → retrieved values scores parts request active
          (generate_embedding_with_retry parts request.query)
        ≡ some (ok results)
      → validate_request values request ≡ ok tt
      → respond values scores parts request active results ≡ ok response
      → IsAnswer request response
  respond-IsAnswer request active results response loaded obtained checked h =
      let (same, valid) = respond-ok request active results h in
      let (statics, dynamics) = response-valid response _ valid in
      let asked = request-asked request checked in
      let static_same = ap (λ (r : SearchResponse F V). r.static_chunks) same in
      let dynamic_same = ap (λ (r : SearchResponse F V). r.dynamic_chunks) same in
      record {
        active = active;
        results = results;
        loaded = loaded;
        obtained = obtained;
        asked = asked;
        version = ap (λ (r : SearchResponse F V). r.index_version) same;
        counted = (
          ap (λ (r : SearchResponse F V). r.static_count) same ∙ sym (ap length static_same),
          ap (λ (r : SearchResponse F V). r.dynamic_count) same ∙ sym (ap length dynamic_same),
        );
        bounded = (
          bound request response.static_chunks results.static_chunks static_same asked.0,
          bound request response.dynamic_chunks results.dynamic_chunks dynamic_same asked.0,
        );
        static_found = λ r m.
            prepared-IsChunk values scores parts request results.static_chunks r
              (subst (In r) static_same m);
        dynamic_found = λ r m.
            prepared-IsChunk values scores parts request results.dynamic_chunks r
              (subst (In r) dynamic_same m);
        static_valid = statics;
        dynamic_valid = dynamics;
      }
    where
      bound :
          (request : SearchRequest F G) (chunks found : List (SearchResult F V))
          → chunks ≡ prepared values scores parts request found
          → 1 ≤ request.top_k
          → length chunks ≤ min (3 * request.top_k) 100
      bound request chunks found e low = omega (
        arith,
        ap length e,
        prepared-length values scores parts request found,
        retrieval_window-le request.top_k low,
      )

  respond_to-ok :
      (request : SearchRequest F G) (active : M)
      (o : Option (Result SearchError (GroupedSearchResults F V))) {response : SearchResponse F V}
      → respond_to values scores parts request active o ≡ some (ok response)
      → (results : GroupedSearchResults F V) × (o ≡ some (ok results))
        × (respond values scores parts request active results ≡ ok response)
  unfolding respond_to
  respond_to-ok request active none h = absurd (ground (arith, h))
  respond_to-ok request active (some (err e)) h = absurd (ground (arith, h))
  respond_to-ok request active (some (ok results)) h = (results, refl, some-injective _ _ h)

  search_active-IsAnswer :
      (request : SearchRequest F G) (loaded : Result String M) (response : SearchResponse F V)
      → parts.load_active_manifest ≡ loaded
      → validate_request values request ≡ ok tt
      → search_active values scores parts request (map_err SearchError.execution loaded)
        ≡ some (ok response)
      → IsAnswer request response
  unfolding search_active
  search_active-IsAnswer request (err e) response l checked h = absurd (ground (arith, h))
  search_active-IsAnswer request (ok active) response l checked h =
      let (results, obtained, responded) = respond_to-ok request active _ h in
      respond-IsAnswer request active results response l obtained checked responded

  search_checked-IsAnswer :
      (request : SearchRequest F G) (checked : Result ValidationError (Unit {0}))
      (response : SearchResponse F V)
      → validate_request values request ≡ checked
      → search_checked values scores parts request checked ≡ some (ok response)
      → IsAnswer request response
  unfolding search_checked
  search_checked-IsAnswer request (err e) response c h = absurd (ground (arith, h))
  search_checked-IsAnswer request (ok tt) response c h =
      search_active-IsAnswer request parts.load_active_manifest response refl c h

  -- A search that succeeds answers with the loaded version and, in each group, with at most three times
  -- the requested number of chunks and at most 100. Each chunk is a retrieved result that satisfies
  -- every filter of the request, shown with its metadata only if the request asks for it.
  pub search-IsAnswer :
      (request : SearchRequest F G) (response : SearchResponse F V)
      → search values scores parts request ≡ some (ok response)
      → IsAnswer request response
  unfolding search
  search-IsAnswer request response h = search_checked-IsAnswer request _ response refl h
