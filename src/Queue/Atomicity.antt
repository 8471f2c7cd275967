-- ===== src/Queue/Atomicity.antt =====
-- Every operation of the queue and the log against its effect when nothing fails: whatever statement
-- fails, the tables are as before.
use ltsearch.Common.{
  ℕ, ◌+◌, String, Bool, true, false, not, ◌&&◌, ◌||◌, ◌⊎◌, Option, none, some, List, map, keep, ◌≡◌,
  refl, inl, inr, arith, ok, is_err, if◌then◌else◌,
}
use ltsearch.Sqlite.{Job, DeadJob, Bytes, Db, Atomic}
use ltsearch.Queue.{
  QueueBatch, BuildJob, Settings, WalHandle, AppendFaults, EnqueueFaults, ReceiveFaults, NackFaults,
  append_wal_segment, wal_append, insert_build_job, enqueue, append_and_enqueue, reclaim, claim,
  deliveries, receive, is_held, has_token, ack, first_held, release, is_spent, upsert_dead, nack,
  shares_db,
}

-- `receive` when nothing fails: expired leases first, then the claims.
abbrev pub received : Settings → (String → String) → ℕ → Db → List BuildJob × Db
received cfg token now db =
    let jobs = map (reclaim cfg now) db.build_jobs in
    (deliveries token now jobs, record db { build_jobs = map (claim token now) jobs })

abbrev pub acked : BuildJob → Db → Db
acked job db = record db { build_jobs = keep (λ j. not (is_held job.receipt j)) db.build_jobs }

-- The row that `nack` puts into `dead_jobs`.
abbrev pub dead_row : ℕ → String → Job → DeadJob
dead_row now error j = record {
  batch_id = j.batch_id;
  body = j.body;
  attempts = j.attempts + 1;
  last_error = error;
  died_at = now;
}

-- `nack` when nothing fails, for the row that its receipt holds.
abbrev pub nacked_row : Settings → ℕ → String → String → Option Job → Db → Db
nacked_row cfg now t error none db = db
nacked_row cfg now t error (some j) db =
    if is_spent cfg (j.attempts + 1)
    then record db {
      build_jobs = keep (λ k. not (has_token t k)) db.build_jobs;
      dead_jobs = upsert_dead (dead_row now error j) db.dead_jobs;
    }
    else record db { build_jobs = map (release cfg now (j.attempts + 1) t) db.build_jobs }

abbrev pub nacked : Settings → ℕ → BuildJob → String → Db → Db
nacked cfg now job error db =
    nacked_row cfg now job.receipt error (first_held job.receipt db.build_jobs) db

pub receive-Atomic :
    (cfg : Settings) (f : ReceiveFaults) (token : String → String) (now : ℕ) (db : Db)
    → Atomic db (received cfg token now db) (receive cfg f token now db)
unfolding receive
receive-Atomic cfg f token now db = ground arith

pub ack-Atomic :
    (fails : Bool) (job : BuildJob) (db : Db) → Atomic db (tt, acked job db) (ack fails job db)
unfolding ack
ack-Atomic true job db = inr (refl, refl)
ack-Atomic false job db = inl (refl, refl)

pub nack-Atomic :
    (cfg : Settings) (f : NackFaults) (now : ℕ) (job : BuildJob) (error : String) (db : Db)
    → Atomic db (tt, nacked cfg now job error db) (nack cfg f now job error db)
unfolding nack
nack-Atomic cfg f now job error db = ground arith

pub wal_append-Atomic :
    (f : AppendFaults) (key : String) (bytes : Bytes) (db : Db)
    → Atomic db (tt, append_wal_segment key bytes db) (wal_append f key bytes db)
unfolding wal_append
wal_append-Atomic f key bytes db = ground arith

module _ (own : ℕ) (to_json : QueueBatch → String) where
  pub enqueue-Atomic :
      (fails : Bool) (batch : QueueBatch) (db : Db)
      → Atomic db
          (tt, insert_build_job batch.batch_id (to_json batch) db)
          (enqueue own to_json fails batch db)
  unfolding enqueue
  enqueue-Atomic true batch db = inr (refl, refl)
  enqueue-Atomic false batch db = inl (refl, refl)

  pub append_and_enqueue-Atomic :
      (f : EnqueueFaults) (wal : WalHandle) (key : String) (bytes : Bytes) (batch : QueueBatch)
      (db : Db)
      → Atomic db
          (tt, insert_build_job batch.batch_id (to_json batch) (append_wal_segment key bytes db))
          (append_and_enqueue own to_json f wal key bytes batch db)
  unfolding append_and_enqueue
  append_and_enqueue-Atomic f wal key bytes batch db = ground arith

  -- The events reach the log and the job reaches the queue together, exactly if the log handle is of
  -- the queue's own database and no statement fails. In every other case neither does, and the caller
  -- gets an error.
  pub append_and_enqueue-exact :
      (f : EnqueueFaults) (wal : WalHandle) (key : String) (bytes : Bytes) (batch : QueueBatch)
      (db : Db)
      → ((shares_db wal own && not (f.begin || f.append || f.insert || f.commit) ≡ true)
          × (append_and_enqueue own to_json f wal key bytes batch db ≡ (
            ok tt,
            insert_build_job batch.batch_id (to_json batch) (append_wal_segment key bytes db),
          )))
        ⊎ ((shares_db wal own && not (f.begin || f.append || f.insert || f.commit) ≡ false)
            × (is_err (append_and_enqueue own to_json f wal key bytes batch db).0 ≡ true)
            × ((append_and_enqueue own to_json f wal key bytes batch db).1 ≡ db))
  unfolding append_and_enqueue
  append_and_enqueue-exact f wal key bytes batch db = ground arith
