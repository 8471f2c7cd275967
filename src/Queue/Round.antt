-- ===== src/Queue/Round.antt =====
-- One round of a worker that fails: the batch is delivered to it, and given back by its receipt.
use ltsearch.Common.{
  ℕ, ◌+◌, ◌*◌, ◌≤◌, ◌<◌, ◌^◌, String, Bool, true, false, not, none, some, List, [], ◌∷◌, map, keep,
  ◌≡◌, ◌≢◌, refl, ap, sym, subst, ◌∙◌, ◌⊎◌, inl, inr, arith, str_eq, str_eq_iff, str_eq_refl,
  Bool-cases,
}
use ltsearch.Sqlite.{Job, ready, claimed, Db}
use ltsearch.Queue.{Settings, has_token, is_held, first_held, reclaim, claim, is_spent, release}
use ltsearch.Queue.Rows.{find_job, find_dead, find_job-map, find_job-batch_id, DistinctIds, NoJob}
use ltsearch.Queue.Tables.{IsValid, FreshTokens, All-keep}
use ltsearch.Queue.Atomicity.{received, nacked, nacked_row, dead_row}
use ltsearch.Queue.Custody.{find_dead-upsert}
use ltsearch.Queue.Delivery.{find_job-NoJob, find_job-received}
use ltsearch.Queue.Receipts.{first_held_unique}
use ltsearch.Queue.Statements.{claim-IsValid, reclaim-IsValid}

-- One round of a worker that fails: it receives, and gives the batch back with its receipt.
unfoldable pub failing_round : Settings → (String → String) → ℕ → String → String → Db → Db
failing_round cfg token now id error db =
    nacked cfg now (record { receipt = token id; body = "" }) error (received cfg token now db).1

first_held-found :
    (t id : String) (js : List Job) {k : Job}
    → find_job id js ≡ some k
    → is_held t k ≡ true
    → (j : Job) × (first_held t js ≡ some j)
unfolding find_job first_held
first_held-found t id [] e h = cc
first_held-found t id (x ∷ xs) {k} e h = elim (Bool-cases (is_held t x)) [
  | inl hit ↦ (x, rw hit refl)
  | inr miss ↦
      let apart : str_eq x.batch_id id ≡ false = elim (Bool-cases (str_eq x.batch_id id)) [
        | inl same ↦ ground arith
        | inr other ↦ other
      ] in
      let (j, f) = first_held-found t id xs (rw apart at e) h in (j, rw miss f)
]

find_job-dropped :
    (p : Job → Bool) (id : String) (js : List Job) {k : Job}
    → DistinctIds js
    → find_job id js ≡ some k
    → p k ≡ false
    → find_job id (keep p js) ≡ none
unfolding find_job
find_job-dropped p id [] ids e h = cc
find_job-dropped p id (x ∷ xs) {k} ids e h = elim (Bool-cases (str_eq x.batch_id id)) [
  | inl same ↦
      let key = (str_eq_iff x.batch_id id).0 same in
      let gone =
        find_job-NoJob id (keep p xs)
          (All-keep (λ r. r.batch_id ≢ id) p xs (subst (λ s. NoJob s xs) key ids.0)) in
      ground (arith, gone)
  | inr other ↦ ground (arith, find_job-dropped p id xs {k = k} ids.1)
]

abbrev pub returned : Settings → ℕ → Job → Job
returned cfg now j = record j {
  state = ready;
  attempts = j.attempts + 1;
  available_at = now + cfg.base_backoff_ms * (j.attempts + 1);
  claimed_at = none;
  claim_token = none;
}

pub spent_at :
    (cfg : Settings) (k : ℕ)
    → cfg.max_attempts < 2 ^ 32
    → k + 1 ≡ cfg.max_attempts
    → is_spent cfg (k + 1) ≡ true
unfolding is_spent
spent_at cfg k bound h = ground arith

pub unspent_below :
    (cfg : Settings) (k : ℕ)
    → cfg.max_attempts < 2 ^ 32
    → k + 1 < cfg.max_attempts
    → is_spent cfg (k + 1) ≡ false
unfolding is_spent
unspent_below cfg k bound h = ground arith

-- What a failing round leaves of the batch: one attempt more and a back-off, or a dead letter.
abbrev pub Failed : Settings → ℕ → String → String → Job → Db → Type 0
Failed cfg now id error j db =
    ((is_spent cfg (j.attempts + 1) ≡ false)
      × (find_job id db.build_jobs ≡ some (returned cfg now j)))
    ⊎ ((is_spent cfg (j.attempts + 1) ≡ true)
        × (find_job id db.build_jobs ≡ none)
        × (find_dead id db.dead_jobs ≡ some (dead_row now error j)))

nacked_row-Failed :
    (cfg : Settings) (now : ℕ) (t id error : String) (k : Job) (db : Db)
    → DistinctIds db.build_jobs
    → find_job id db.build_jobs ≡ some k
    → has_token t k ≡ true
    → Failed cfg now id error k (nacked_row cfg now t error (some k) db)
unfolding release
nacked_row-Failed cfg now t id error k db ids e has =
    elim (Bool-cases (is_spent cfg (k.attempts + 1))) [
      | inl spent ↦ rw spent (
          inr (
            refl,
            find_job-dropped (λ r. not (has_token t r)) id db.build_jobs ids e (rw has refl),
            find_dead-upsert id (dead_row now error k) db.dead_jobs
                ∙ rw ((str_eq_iff k.batch_id id).1 (find_job-batch_id id db.build_jobs e)) refl,
          ))
      | inr more ↦ rw more (
          inl (
            refl,
            rw
                (
                  find_job-map (release cfg now (k.attempts + 1) t) (λ r. ground arith) id
                      db.build_jobs,
                  e,
                )
                (rw has refl),
          ))
    ]

-- A batch that is ready, with its time come.
pub record IsReady (id : String) (now : ℕ) (j : Job) (db : Db) : Type 0 where
  pub there : find_job id db.build_jobs ≡ some j
  pub idle : j.state ≡ ready
  pub no_claim : j.claimed_at ≡ none
  pub due : j.available_at ≤ now

abbrev claimed_now : (String → String) → ℕ → Job → Job
claimed_now token now j = record j {
  state = claimed;
  claimed_at = some now;
  claim_token = some (token j.batch_id);
}

claim-IsReady :
    (cfg : Settings) (token : String → String) (id : String) (now : ℕ) (j : Job) (db : Db)
    → IsReady id now j db
    → find_job id (received cfg token now db).1.build_jobs ≡ some (claimed_now token now j)
claim-IsReady cfg token id now j db r =
    find_job-received cfg token now id db r.there
    ∙ (unfold reclaim claim in ground (arith, r.idle, r.no_claim, r.due))

pub received-IsValid :
    (cfg : Settings) (token : String → String) (now : ℕ) (db : Db)
    → FreshTokens token (map (reclaim cfg now) db.build_jobs)
    → IsValid cfg db.build_jobs
    → IsValid cfg (received cfg token now db).1.build_jobs
received-IsValid cfg token now db fresh v =
    claim-IsValid cfg token now _ fresh (reclaim-IsValid cfg now db.build_jobs v)

pub failing_round-Failed :
    (cfg : Settings) (token : String → String) (now : ℕ) (id error : String) (j : Job) (db : Db)
    → FreshTokens token (map (reclaim cfg now) db.build_jobs)
    → IsValid cfg db.build_jobs
    → IsReady id now j db
    → Failed cfg now id error j (failing_round cfg token now id error db)
unfolding failing_round
failing_round-Failed cfg token now id error j db fresh v r =
    rw (first ∙ ap some (sym same))
      (nacked_row-Failed cfg now (token id) id error k after valid.ids there has)
  where
    after : Db
    after = (received cfg token now db).1

    valid : IsValid cfg after.build_jobs
    valid = received-IsValid cfg token now db fresh v

    k : Job
    k = claimed_now token now j

    there : find_job id after.build_jobs ≡ some k
    there = claim-IsReady cfg token id now j db r

    has : has_token (token id) k ≡ true
    has =
        unfold has_token in rw (find_job-batch_id id db.build_jobs r.there) (str_eq_refl (token id))

    found : (g : Job) × (first_held (token id) after.build_jobs ≡ some g)
    found = first_held-found (token id) id after.build_jobs there (
        unfold is_held has_token in
        rw (find_job-batch_id id db.build_jobs r.there, str_eq_refl (token id)) refl)

    first : first_held (token id) after.build_jobs ≡ some found.0
    first = found.1

    same : k ≡ found.0
    same = first_held_unique (token id) id after.build_jobs valid.tokens first there has
