-- ===== src/Queue.antt =====
-- src/local/sqlite/queue.rs and src/local/sqlite/wal.rs: the durable build queue and the write-ahead
-- log of the local profile, over the tables of `Sqlite`. Times are epoch milliseconds, so natural
-- numbers: the comparison `claimed_at <= now - lease_ms` on `i64` is `claimed_at + lease_ms ≤ now`.
pub mod Rows
pub mod Atomicity
pub mod Tables
pub mod Statements
pub mod Invariant
pub mod Receipts
pub mod Custody
pub mod Delivery
pub mod Exclusive
pub mod Round
pub mod Retry
mod Tests
use ltsearch.Common.{
  ℕ, ◌+◌, ◌*◌, ◌%◌, ◌^◌, String, Bool, true, false, not, ◌&&◌, Option, none, some, List, [], ◌∷◌,
  ◌++◌, map, keep, ok, err, str_eq, leb, ◌==◌, if◌then◌else◌,
}
use ltsearch.Errors.{IngestError}
use ltsearch.Sqlite.{
  JobState, ready, claimed, Job, DeadJob, Bytes, Db, Sql, statement, transaction, ◌>>=◌, ◌>>◌,
}

-- `QueueBatch` of src/write/api.rs, which travels as JSON in a job's `body`.
pub record QueueBatch : Type 0 where
  pub batch_id : String
  pub wal_key : String
  pub accepted_count : ℕ
  pub wal_event_ids : List String

-- `BuildJob` of src/contracts.rs
pub record BuildJob : Type 0 where
  pub receipt : String
  pub body : String

-- The settings of `SqliteBuildJobSource`.
pub record Settings : Type 0 where
  pub lease_ms : ℕ
  pub max_attempts : ℕ
  pub base_backoff_ms : ℕ

abbrev pub default_settings : Settings
default_settings = record { lease_ms = 300_000; max_attempts = 3; base_backoff_ms = 1_000 }

abbrev pub is_claimed : JobState → Bool
is_claimed ready = false
is_claimed claimed = true

-- `insert_build_job`: an upsert by the primary key, which leaves an old `claim_token` in place.
unfoldable pub upsert_job : String → String → List Job → List Job
upsert_job id body [] =
    record {
      batch_id = id;
      body = body;
      state = ready;
      attempts = 0;
      available_at = 0;
      claimed_at = none;
      claim_token = none;
    }
    ∷ []
upsert_job id body (j ∷ js) =
    if str_eq j.batch_id id
    then record j { body = body; state = ready; attempts = 0; available_at = 0; claimed_at = none }
      ∷ js
    else j ∷ upsert_job id body js

unfoldable pub insert_build_job : String → String → Db → Db
unfolding upsert_job
insert_build_job id body db = record db { build_jobs = upsert_job id body db.build_jobs }

-- `append_wal_segment`: read, concatenate, upsert.
unfoldable pub append_segment : String → Bytes → List (String × Bytes) → List (String × Bytes)
append_segment key bytes [] = (key, bytes) ∷ []
append_segment key bytes ((k, old) ∷ rest) =
    if str_eq k key then (k, old ++ bytes) ∷ rest else (k, old) ∷ append_segment key bytes rest

unfoldable pub append_wal_segment : String → Bytes → Db → Db
unfolding append_segment
append_wal_segment key bytes db = record db {
  wal_segments = append_segment key bytes db.wal_segments;
}

-- `SqliteWalStorage::append`
pub record AppendFaults : Type 0 where
  pub begin : Bool
  pub append : Bool
  pub commit : Bool

unfoldable pub wal_append : AppendFaults → String → Bytes → Sql IngestError (Unit {0})
unfolding append_wal_segment
wal_append f key bytes =
    transaction f.begin (IngestError.operation "failed to open WAL append tx") f.commit
      (λ _. IngestError.operation "failed to commit WAL append")
      (statement f.append (IngestError.operation "failed to append WAL")
        (λ db. (tt, append_wal_segment key bytes db)))

-- What `wal.as_any().downcast_ref()` finds: the WAL of some SQLite handle, or another backend.
pub data WalHandle : Type 0 where
  sqlite : ℕ → WalHandle
  other_backend : WalHandle

abbrev pub shares_db : WalHandle → ℕ → Bool
shares_db (sqlite handle) own = handle == own
shares_db other_backend own = false

pub record EnqueueFaults : Type 0 where
  pub begin : Bool
  pub append : Bool
  pub insert : Bool
  pub commit : Bool

-- `SqliteBuildQueue`: the handle of its database, and the JSON printer of a batch (serde_json).
module _ (own : ℕ) (to_json : QueueBatch → String) where
  unfoldable pub enqueue : Bool → QueueBatch → Sql IngestError (Unit {0})
  unfolding insert_build_job
  enqueue fails batch =
      statement fails (IngestError.operation "failed to enqueue build job")
        (λ db. (tt, insert_build_job batch.batch_id (to_json batch) db))

  -- Both writes on the queue's connection, in one transaction.
  enqueue_body : EnqueueFaults → String → Bytes → QueueBatch → Sql IngestError (Unit {0})
  unfolding append_wal_segment insert_build_job
  enqueue_body f key bytes batch = do
    statement f.append (IngestError.operation "failed to append WAL (atomic)")
        (λ db. (tt, append_wal_segment key bytes db))
    statement f.insert (IngestError.operation "failed to enqueue build job (atomic)")
        (λ db. (tt, insert_build_job batch.batch_id (to_json batch) db))

  unfoldable pub append_and_enqueue :
      EnqueueFaults → WalHandle → String → Bytes → QueueBatch → Sql IngestError (Unit {0})
  unfolding enqueue_body
  append_and_enqueue f wal key bytes batch db =
      if shares_db wal own
      then transaction f.begin (IngestError.operation "failed to open atomic write tx") f.commit
          (λ _. IngestError.operation "failed to commit atomic write")
          (enqueue_body f key bytes batch) db
      else (err (IngestError.operation "misconfigured local write path"), db)

-- The lease of a claim has run out.
unfoldable pub is_expired : Settings → ℕ → Job → Bool
is_expired cfg now j = elim j.claimed_at [
  | none ↦ false
  | some at ↦ is_claimed j.state && leb (at + cfg.lease_ms) now
]

-- `UPDATE build_jobs SET state = 'ready', … WHERE state = 'claimed' AND claimed_at <= …`
unfoldable pub reclaim : Settings → ℕ → Job → Job
unfolding is_expired
reclaim cfg now j =
    if is_expired cfg now j
    then record j { state = ready; claimed_at = none; claim_token = none }
    else j

unfoldable pub is_due : ℕ → Job → Bool
is_due now j = not (is_claimed j.state) && leb j.available_at now

-- `UPDATE build_jobs SET state = 'claimed', … RETURNING claim_token, body`; `token` gives the random
-- text that SQLite draws for a row.
unfoldable pub claim : (String → String) → ℕ → Job → Job
unfolding is_due
claim token now j =
    if is_due now j
    then record j { state = claimed; claimed_at = some now; claim_token = some (token j.batch_id) }
    else j

unfoldable pub deliveries : (String → String) → ℕ → List Job → List BuildJob
unfolding is_due
deliveries token now [] = []
deliveries token now (j ∷ js) =
    let rest = deliveries token now js in
    if is_due now j then (record { receipt = token j.batch_id; body = j.body }) ∷ rest else rest

pub record ReceiveFaults : Type 0 where
  pub begin : Bool
  pub reclaim : Bool
  pub claim : Bool
  pub commit : Bool

unfoldable pub receive :
    Settings → ReceiveFaults → (String → String) → ℕ → Sql String (List BuildJob)
unfolding reclaim claim deliveries
receive cfg f token now =
    transaction f.begin "failed to open receive tx" f.commit (λ _. "failed to commit receive tx")
      (do
        statement f.reclaim "failed to reclaim expired leases"
            (λ db. (tt, record db { build_jobs = map (reclaim cfg now) db.build_jobs }))
        statement f.claim "failed to claim build jobs" (λ db. (
          deliveries token now db.build_jobs,
          record db { build_jobs = map (claim token now) db.build_jobs },
        )))

-- `claim_token = ?1`, false of NULL
unfoldable pub has_token : String → Job → Bool
has_token t j = elim j.claim_token [ none ↦ false | some u ↦ str_eq u t ]

-- `claim_token = ?1 AND state = 'claimed'`
unfoldable pub is_held : String → Job → Bool
unfolding has_token
is_held t j = has_token t j && is_claimed j.state

unfoldable pub ack : Bool → BuildJob → Sql String (Unit {0})
unfolding is_held
ack fails job =
    statement fails "failed to ack claim"
      (λ db. (tt, record db { build_jobs = keep (λ j. not (is_held job.receipt j)) db.build_jobs }))

-- `query_row(…).optional()`
unfoldable pub first_held : String → List Job → Option Job
unfolding is_held
first_held t [] = none
first_held t (j ∷ js) = if is_held t j then some j else first_held t js

unfoldable pub upsert_dead : DeadJob → List DeadJob → List DeadJob
upsert_dead d [] = d ∷ []
upsert_dead d (e ∷ es) = if str_eq e.batch_id d.batch_id then d ∷ es else e ∷ upsert_dead d es

-- The retry of `nack`: released, with a back-off that grows with the attempts.
unfoldable pub release : Settings → ℕ → ℕ → String → Job → Job
unfolding has_token
release cfg now new_attempts t j =
    if has_token t j
    then record j {
      state = ready;
      attempts = new_attempts;
      available_at = now + cfg.base_backoff_ms * new_attempts;
      claimed_at = none;
      claim_token = none;
    }
    else j

pub record NackFaults : Type 0 where
  pub begin : Bool
  pub read : Bool
  pub insert_dead : Bool
  pub remove : Bool
  pub requeue : Bool
  pub commit : Bool

-- `new_attempts as u32 >= max_attempts`
unfoldable pub is_spent : Settings → ℕ → Bool
is_spent cfg new_attempts = leb cfg.max_attempts (new_attempts % 2 ^ 32)

bury : NackFaults → ℕ → String → String → Job → Sql String (Unit {0})
unfolding upsert_dead has_token
bury f now t error j = do
  statement f.insert_dead "failed to dead-letter job" (λ db. (
    tt,
    record db {
      dead_jobs =
          upsert_dead
            (record {
              batch_id = j.batch_id;
              body = j.body;
              attempts = j.attempts + 1;
              last_error = error;
              died_at = now;
            })
            db.dead_jobs;
    },
  ))
  statement f.remove "failed to remove dead job"
      (λ db. (tt, record db { build_jobs = keep (λ k. not (has_token t k)) db.build_jobs }))

requeue : Settings → NackFaults → ℕ → String → Job → Sql String (Unit {0})
unfolding release
requeue cfg f now t j =
    statement f.requeue "failed to requeue job" (λ db.
      (tt, record db { build_jobs = map (release cfg now (j.attempts + 1) t) db.build_jobs }))

-- A receipt that no claimed row holds is out of date: nothing is done.
settle_claim : Settings → NackFaults → ℕ → String → String → Option Job → Sql String (Unit {0})
unfolding bury requeue is_spent
settle_claim cfg f now t error none db = (ok tt, db)
settle_claim cfg f now t error (some j) db =
    if is_spent cfg (j.attempts + 1) then bury f now t error j db else requeue cfg f now t j db

unfoldable pub nack : Settings → NackFaults → ℕ → BuildJob → String → Sql String (Unit {0})
unfolding settle_claim first_held
nack cfg f now job error =
    transaction f.begin "failed to open nack tx" f.commit (λ _. "failed to commit nack tx")
      (do
        found ←
            statement f.read "failed to read claim for nack"
              (λ db. (first_held job.receipt db.build_jobs, db))
        settle_claim cfg f now job.receipt error found)
