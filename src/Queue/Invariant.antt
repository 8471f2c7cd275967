-- ===== src/Queue/Invariant.antt =====
-- Every operation of src/local/sqlite/queue.rs and src/local/sqlite/wal.rs as a step of the database,
-- with every way in which a statement may fail, and the invariant of the queue over the steps.
use ltsearch.Common.{
  ℕ, ◌+◌, ◌<◌, ◌^◌, String, Bool, false, Option, none, some, List, [], ◌∷◌, map, All, ◌≡◌, refl,
  arith, Bool-cases, inl, inr, Result,
}
use ltsearch.Sqlite.{Job, Bytes, Db, empty_db, Atomic}
use ltsearch.Queue.{
  QueueBatch, BuildJob, Settings, WalHandle, AppendFaults, EnqueueFaults, ReceiveFaults, NackFaults,
  wal_append, enqueue, append_and_enqueue, reclaim, receive, is_held, ack, first_held, is_spent,
  nack, append_wal_segment, insert_build_job,
}
use ltsearch.Queue.Atomicity.{
  received, acked, nacked, nacked_row, receive-Atomic, ack-Atomic, nack-Atomic, wal_append-Atomic,
  enqueue-Atomic, append_and_enqueue-Atomic,
}
use ltsearch.Queue.Tables.{IsValid, FreshTokens, keep-IsValid, RowFits}
use ltsearch.Queue.Statements.{upsert-IsValid, reclaim-IsValid, claim-IsValid, release-IsValid}

-- A step is a call of one operation, by whatever role, with whatever faults. `receive` draws tokens
-- that are new among the rows as the claim meets them.
module _ (cfg : Settings) (own : ℕ) (to_json : QueueBatch → String) where
  pub data Step (db : Db) : Db → Type 0 where
    appends :
        (f : AppendFaults) (key : String) (bytes : Bytes) → Step db (wal_append f key bytes db).1
    enqueues : (fails : Bool) (batch : QueueBatch) → Step db (enqueue own to_json fails batch db).1
    writes :
        (f : EnqueueFaults) (wal : WalHandle) (key : String) (bytes : Bytes) (batch : QueueBatch)
        → Step db (append_and_enqueue own to_json f wal key bytes batch db).1
    receives :
        (f : ReceiveFaults) (token : String → String) (now : ℕ)
        → FreshTokens token (map (reclaim cfg now) db.build_jobs)
        → Step db (receive cfg f token now db).1
    acks : (fails : Bool) (job : BuildJob) → Step db (ack fails job db).1
    nacks :
        (f : NackFaults) (now : ℕ) (job : BuildJob) (error : String)
        → Step db (nack cfg f now job error db).1

  pub data Reach (db : Db) : Db → Type 0 where
    here : Reach db db
    next : {mid last : Db} → Reach db mid → Step mid last → Reach db last

first_held-attempts :
    (cfg : Settings) (t : String) (js : List Job) {j : Job}
    → All (RowFits cfg) js
    → first_held t js ≡ some j
    → j.attempts < cfg.max_attempts
unfolding first_held
first_held-attempts cfg t [] h e = cc
first_held-attempts cfg t (k ∷ js) {j} h e = elim (Bool-cases (is_held t k)) [
  | inl hit ↦ ground (arith, h.0.1)
  | inr miss ↦ first_held-attempts cfg t js h.1 (rw miss at e)
]

-- A `u32` limit is not met by wrapping: a job that is not spent has attempts left.
not_spent :
    (cfg : Settings) (k : ℕ)
    → cfg.max_attempts < 2 ^ 32
    → k < cfg.max_attempts
    → is_spent cfg (k + 1) ≡ false
    → k + 1 < cfg.max_attempts
unfolding is_spent
not_spent cfg k bound h e = ground arith

-- Where an operation is atomic, what holds before it and after its effect holds after it.
pub Atomic-keeps :
    {E A : Type 0} (P : Db → Type 0) (before : Db) (effect : A × Db) (r : Result E A × Db)
    → Atomic before effect r
    → P before
    → P effect.1
    → P r.1
Atomic-keeps P before effect r (inl (_, e)) h k = rw e k
Atomic-keeps P before effect r (inr (_, e)) h k = rw e h

module _ (cfg : Settings) (bound : cfg.max_attempts < 2 ^ 32) where
  abbrev pub Valid : Db → Type 0
  Valid db = IsValid cfg db.build_jobs

  nacked_row-IsValid :
      (now : ℕ) (t error : String) (found : Option Job) (db : Db)
      → ((j : Job) → found ≡ some j → j.attempts < cfg.max_attempts)
      → Valid db
      → Valid (nacked_row cfg now t error found db)
  nacked_row-IsValid now t error none db low v = v
  nacked_row-IsValid now t error (some j) db low v =
      elim (Bool-cases (is_spent cfg (j.attempts + 1))) [
        | inl spent ↦ rw spent (keep-IsValid cfg _ db.build_jobs v)
        | inr more ↦
            rw more (
              release-IsValid cfg now (j.attempts + 1) t db.build_jobs (below j (low j refl) more)
                v)
      ]
    where
      below :
          (j : Job)
          → j.attempts < cfg.max_attempts
          → is_spent cfg (j.attempts + 1) ≡ false
          → j.attempts + 1 < cfg.max_attempts
      below j h e = not_spent cfg j.attempts bound h e

  pub nacked-IsValid :
      (now : ℕ) (job : BuildJob) (error : String) (db : Db)
      → Valid db
      → Valid (nacked cfg now job error db)
  nacked-IsValid now job error db v =
      nacked_row-IsValid now job.receipt error (first_held job.receipt db.build_jobs) db
        (λ j e. first_held-attempts cfg job.receipt db.build_jobs v.rows e) v

  module _ (pos : 0 < cfg.max_attempts) (own : ℕ) (to_json : QueueBatch → String) where
    -- Keys and tokens stay distinct, claims complete and attempts below the limit, whatever is called
    -- and whatever fails, if the limit is a positive `u32`.
    pub Step-IsValid :
        {before after : Db} → Step cfg own to_json before after → Valid before → Valid after
    unfolding append_wal_segment insert_build_job
    Step-IsValid {before} (appends f key bytes) v =
        Atomic-keeps Valid before (tt, append_wal_segment key bytes before) _
          (wal_append-Atomic f key bytes before) v v
    Step-IsValid {before} (enqueues fails batch) v =
        Atomic-keeps Valid before (tt, insert_build_job batch.batch_id (to_json batch) before) _
          (enqueue-Atomic own to_json fails batch before) v
          (upsert-IsValid cfg batch.batch_id (to_json batch) before.build_jobs pos v)
    Step-IsValid {before} (writes f wal key bytes batch) v =
        Atomic-keeps Valid before
          (
            tt,
            insert_build_job batch.batch_id (to_json batch) (append_wal_segment key bytes before),
          )
          _ (append_and_enqueue-Atomic own to_json f wal key bytes batch before) v
          (upsert-IsValid cfg batch.batch_id (to_json batch) before.build_jobs pos v)
    Step-IsValid {before} (receives f token now fresh) v =
        Atomic-keeps Valid before (received cfg token now before) _
          (receive-Atomic cfg f token now before) v
          (claim-IsValid cfg token now _ fresh (reclaim-IsValid cfg now before.build_jobs v))
    Step-IsValid {before} (acks fails job) v =
        Atomic-keeps Valid before (tt, acked job before) _ (ack-Atomic fails job before) v
          (keep-IsValid cfg _ before.build_jobs v)
    Step-IsValid {before} (nacks f now job error) v =
        Atomic-keeps Valid before (tt, nacked cfg now job error before) _
          (nack-Atomic cfg f now job error before) v (nacked-IsValid now job error before v)

    -- So it holds in every database that the roles can reach from the empty one.
    pub Reach-IsValid : {db : Db} → Reach cfg own to_json empty_db db → Valid db
    Reach-IsValid here = record { ids = tt; tokens = tt; rows = tt }
    Reach-IsValid (next r s) = Step-IsValid s (Reach-IsValid r)
