-- ===== src/Queue/Statements.antt =====
-- The statements of src/local/sqlite/queue.rs on `build_jobs` keep it well formed: the upsert, the
-- reclaiming of leases, the claim with new tokens, the release for a retry.
use ltsearch.Common.{
  ℕ, ◌<◌, String, false, Option, none, some, List, [], ◌∷◌, map, All, ◌≡◌, ◌≢◌, refl, arith, str_eq,
  str_eq_iff, str_eq-ne, Bool-cases, inl, inr,
}
use ltsearch.Sqlite.{Job}
use ltsearch.Queue.{Settings, upsert_job, reclaim, claim, has_token, release, is_expired, is_due}
use ltsearch.Queue.Rows.{NoJob, DistinctIds, TokenFree, OwnTokenFree, DistinctTokens}
use ltsearch.Queue.Tables.{
  RowFits, IsValid, FreshTokens, DistinctIds-map, All-map, DistinctTokens-map, Clears,
  KeepsOrClears,
}

NoJob-upsert :
    (id other body : String) (js : List Job)
    → id ≢ other
    → NoJob other js
    → NoJob other (upsert_job id body js)
unfolding upsert_job
NoJob-upsert id other body [] ne h = (ne, tt)
NoJob-upsert id other body (j ∷ js) ne h = ground (arith, NoJob-upsert id other body js ne h.1)

DistinctIds-upsert :
    (id body : String) (js : List Job) → DistinctIds js → DistinctIds (upsert_job id body js)
unfolding upsert_job
DistinctIds-upsert id body [] h = (tt, tt)
DistinctIds-upsert id body (j ∷ js) h = elim (Bool-cases (str_eq j.batch_id id)) [
  | inl hit ↦ rw hit h
  | inr miss ↦ rw miss (
    NoJob-upsert id j.batch_id body js (ground (arith, str_eq_iff j.batch_id id)) h.0,
    DistinctIds-upsert id body js h.1,
  )
]

TokenFree-upsert :
    (t id body : String) (js : List Job) → TokenFree t js → TokenFree t (upsert_job id body js)
unfolding upsert_job has_token
TokenFree-upsert t id body [] h = (refl, tt)
TokenFree-upsert t id body (j ∷ js) h = elim (Bool-cases (str_eq j.batch_id id)) [
  | inl hit ↦ rw hit (h.0, h.1)
  | inr miss ↦ rw miss (h.0, TokenFree-upsert t id body js h.1)
]

OwnTokenFree-upsert :
    (o : Option String) (id body : String) (js : List Job)
    → OwnTokenFree o js
    → OwnTokenFree o (upsert_job id body js)
OwnTokenFree-upsert none id body js h = tt
OwnTokenFree-upsert (some t) id body js h = TokenFree-upsert t id body js h

DistinctTokens-upsert :
    (id body : String) (js : List Job) → DistinctTokens js → DistinctTokens (upsert_job id body js)
unfolding upsert_job
DistinctTokens-upsert id body [] h = (tt, tt)
DistinctTokens-upsert id body (j ∷ js) h = elim (Bool-cases (str_eq j.batch_id id)) [
  | inl hit ↦ rw hit h
  | inr miss ↦
      rw miss
        (OwnTokenFree-upsert j.claim_token id body js h.0, DistinctTokens-upsert id body js h.1)
]

RowFits-upsert :
    (cfg : Settings) (id body : String) (js : List Job)
    → 0 < cfg.max_attempts
    → All (RowFits cfg) js
    → All (RowFits cfg) (upsert_job id body js)
unfolding upsert_job
RowFits-upsert cfg id body [] pos h = ((refl, pos), tt)
RowFits-upsert cfg id body (j ∷ js) pos h = elim (Bool-cases (str_eq j.batch_id id)) [
  | inl hit ↦ rw hit ((refl, pos), h.1)
  | inr miss ↦ rw miss (h.0, RowFits-upsert cfg id body js pos h.1)
]

module _ (cfg : Settings) where
  pub upsert-IsValid :
      (id body : String) (js : List Job)
      → 0 < cfg.max_attempts
      → IsValid cfg js
      → IsValid cfg (upsert_job id body js)
  upsert-IsValid id body js pos v = record {
    ids = DistinctIds-upsert id body js v.ids;
    tokens = DistinctTokens-upsert id body js v.tokens;
    rows = RowFits-upsert cfg id body js pos v.rows;
  }

  -- A map that keeps keys, keeps or clears tokens and keeps each row's own condition.
  map-IsValid :
      (f : Job → Job)
      → ((j : Job) → (f j).batch_id ≡ j.batch_id)
      → Clears f
      → KeepsOrClears f
      → ((j : Job) → RowFits cfg j → RowFits cfg (f j))
      → (js : List Job) → IsValid cfg js
      → IsValid cfg (map f js)
  map-IsValid f same clears own fits js v = record {
    ids = DistinctIds-map f same js v.ids;
    tokens = DistinctTokens-map f clears own js v.tokens;
    rows = All-map _ f fits js v.rows;
  }

  pub reclaim-IsValid :
      (now : ℕ) (js : List Job) → IsValid cfg js → IsValid cfg (map (reclaim cfg now) js)
  unfolding reclaim has_token
  reclaim-IsValid now =
      map-IsValid (reclaim cfg now) (λ j. ground arith) (λ t j h. ground arith)
        (λ j js h. elim (Bool-cases (is_expired cfg now j)) [ inl e ↦ rw e tt | inr e ↦ rw e h ])
        (λ j h. elim (Bool-cases (is_expired cfg now j)) [
          | inl e ↦ rw e (refl, h.1)
          | inr e ↦ rw e h
        ])

  pub release-IsValid :
      (now k : ℕ) (t : String) (js : List Job)
      → k < cfg.max_attempts
      → IsValid cfg js
      → IsValid cfg (map (release cfg now k t) js)
  unfolding release has_token
  release-IsValid now k t js fits =
      map-IsValid (release cfg now k t) (λ j. ground arith) (λ t j h. ground arith)
        (λ j js h. elim (Bool-cases (has_token t j)) [ inl e ↦ rw e tt | inr e ↦ rw e h ])
        (λ j h. elim (Bool-cases (has_token t j)) [ inl e ↦ rw e (refl, fits) | inr e ↦ rw e h ]) js

module _ (token : String → String) (now : ℕ) where
  -- A token that was in the table already is not drawn again.
  pub TokenFree-claim_old :
      (t : String) (js : List Job)
      → ((id : String) → token id ≢ t)
      → TokenFree t js
      → TokenFree t (map (claim token now) js)
  unfolding claim has_token
  TokenFree-claim_old t [] ne h = tt
  TokenFree-claim_old t (j ∷ js) ne h = elim (Bool-cases (is_due now j)) [
    | inl e ↦ rw e (str_eq-ne (token j.batch_id) t (ne j.batch_id), TokenFree-claim_old t js ne h.1)
    | inr e ↦ rw e (h.0, TokenFree-claim_old t js ne h.1)
  ]

module _ (token : String → String) (apart : (a b : String) → token a ≡ token b → a ≡ b)
    (now : ℕ) where
  -- Another batch's new token is not the token of `id`.
  TokenFree-claim :
      (id : String) (js : List Job)
      → NoJob id js
      → TokenFree (token id) js
      → TokenFree (token id) (map (claim token now) js)
  unfolding claim has_token
  TokenFree-claim id [] ne h = tt
  TokenFree-claim id (j ∷ js) ne h = elim (Bool-cases (is_due now j)) [
    | inl e ↦ rw e (
      str_eq-ne (token j.batch_id) (token id) (λ p. ne.0 (apart j.batch_id id p)),
      TokenFree-claim id js ne.1 h.1,
    )
    | inr e ↦ rw e (h.0, TokenFree-claim id js ne.1 h.1)
  ]

  OwnTokenFree-claim :
      (j : Job) (o : Option String) (js : List Job)
      → o ≡ j.claim_token
      → ((id : String) → has_token (token id) j ≡ false)
      → OwnTokenFree o js
      → OwnTokenFree o (map (claim token now) js)
  unfolding has_token
  OwnTokenFree-claim j none js e unused h = tt
  OwnTokenFree-claim j (some t) js e unused h =
      TokenFree-claim_old token now t js
        (λ id p. ground (arith, unused id, str_eq_iff t (token id))) h

  DistinctTokens-claim :
      (js : List Job)
      → DistinctIds js
      → ((id : String) → TokenFree (token id) js)
      → DistinctTokens js
      → DistinctTokens (map (claim token now) js)
  unfolding claim
  DistinctTokens-claim [] ids unused h = tt
  DistinctTokens-claim (j ∷ js) ids unused h =
      (own, DistinctTokens-claim js ids.1 (λ id. (unused id).1) h.1)
    where
      own : OwnTokenFree (claim token now j).claim_token (map (claim token now) js)
      own = elim (Bool-cases (is_due now j)) [
        | inl e ↦ rw (e, claim) (TokenFree-claim j.batch_id js ids.0 (unused j.batch_id).1)
        | inr e ↦
            rw (e, claim) (OwnTokenFree-claim j j.claim_token js refl (λ id. (unused id).0) h.0)
      ]

pub claim-IsValid :
    (cfg : Settings) (token : String → String) (now : ℕ) (js : List Job)
    → FreshTokens token js
    → IsValid cfg js
    → IsValid cfg (map (claim token now) js)
unfolding claim
claim-IsValid cfg token now js fresh v = record {
  ids = DistinctIds-map (claim token now) (λ j. ground arith) js v.ids;
  tokens = DistinctTokens-claim token fresh.apart now js v.ids fresh.unused v.tokens;
  rows = All-map _ (claim token now) fits js v.rows;
}
  where
    fits : (j : Job) → RowFits cfg j → RowFits cfg (claim token now j)
    fits j h = elim (Bool-cases (is_due now j)) [
      | inl e ↦ rw (e, claim) (((now, refl), (token j.batch_id, refl)), h.1)
      | inr e ↦ rw (e, claim) h
    ]
