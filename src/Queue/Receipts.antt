-- ===== src/Queue/Receipts.antt =====
-- Receipts: a claim token names at most one row, and a token that no row has names nothing.
use ltsearch.Common.{
  ℕ, String, true, false, not, Option, none, some, List, [], ◌∷◌, keep, ◌≡◌, refl, ap, inl, inr,
  arith, str_eq, str_eq_iff, Bool-cases,
}
use ltsearch.Sqlite.{Job, Db}
use ltsearch.Queue.{has_token, is_held, first_held, Settings, BuildJob}
use ltsearch.Queue.Rows.{find_job, TokenFree, OwnTokenFree, DistinctTokens}
use ltsearch.Queue.Atomicity.{acked, nacked}

-- The holder of a token leaves it to no other row.
pub holder_alone :
    (t : String) (o : Option String) (j : Job) (js : List Job)
    → o ≡ j.claim_token
    → has_token t j ≡ true
    → OwnTokenFree o js
    → TokenFree t js
unfolding has_token
holder_alone t none j js e h free = ground arith
holder_alone t (some u) j js e h free =
    let same : u ≡ t = ground (arith, str_eq_iff u t) in rw same at free

pub find_job-TokenFree :
    (t id : String) (js : List Job) {j : Job}
    → TokenFree t js
    → find_job id js ≡ some j
    → has_token t j ≡ false
unfolding find_job
find_job-TokenFree t id [] free e = cc
find_job-TokenFree t id (k ∷ js) {j} free e = elim (Bool-cases (str_eq k.batch_id id)) [
  | inl hit ↦ ground (arith, free.0)
  | inr miss ↦ find_job-TokenFree t id js free.1 (rw miss at e)
]

pub first_held-TokenFree : (t : String) (js : List Job) → TokenFree t js → first_held t js ≡ none
unfolding first_held
first_held-TokenFree t [] free = refl
first_held-TokenFree t (j ∷ js) free = ground (arith, first_held-TokenFree t js free.1)

keep-TokenFree :
    (t : String) (js : List Job) → TokenFree t js → keep (λ j. not (is_held t j)) js ≡ js
unfolding is_held
keep-TokenFree t [] free = refl
keep-TokenFree t (j ∷ js) free = ground (arith, keep-TokenFree t js free.1)

-- The row that a receipt finds is the only one with its token.
pub first_held_unique :
    (t id : String) (js : List Job) {j k : Job}
    → DistinctTokens js
    → first_held t js ≡ some j
    → find_job id js ≡ some k
    → has_token t k ≡ true
    → k ≡ j
unfolding first_held find_job
first_held_unique t id [] apart held found has = cc
first_held_unique t id (x ∷ xs) {j} {k} apart held found has = elim (Bool-cases (has_token t x)) [
  | inl has_x ↦
      let free = holder_alone t x.claim_token x xs refl has_x apart.0 in
      ground (arith, first_held-TokenFree t xs free, find_job-TokenFree t id xs {j = k} free)
  | inr no_x ↦ ground (arith, first_held_unique t id xs {j = j} {k = k} apart.1)
]

-- A receipt that no row has any more: acknowledging it, or failing it, does nothing.
pub acked-TokenFree :
    (job : BuildJob) (db : Db) → TokenFree job.receipt db.build_jobs → acked job db ≡ db
acked-TokenFree job db free =
    ap (λ js. record db { build_jobs = js }) (keep-TokenFree job.receipt db.build_jobs free)

pub nacked-TokenFree :
    (cfg : Settings) (now : ℕ) (job : BuildJob) (error : String) (db : Db)
    → TokenFree job.receipt db.build_jobs
    → nacked cfg now job error db ≡ db
nacked-TokenFree cfg now job error db free =
    rw (first_held-TokenFree job.receipt db.build_jobs free)
