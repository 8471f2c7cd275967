-- ===== src/Queue/Custody.antt =====
-- No batch is lost: once a batch is in the queue it stays in `build_jobs` or `dead_jobs`, through
-- crashes, expired leases, retries and every failing statement, until its own receipt is acknowledged.
use mathlib.Core.Option
use ltsearch.Common.{
  ℕ, ◌+◌, String, Bool, true, false, not, Option, none, some, List, [], ◌∷◌, map, keep, ◌≡◌, refl,
  ap, ◌⊎◌, inl, inr, arith, str_eq, str_eq_iff, if◌then◌else◌, Bool-cases, Option-cases, ◌||◌,
}
use ltsearch.Sqlite.{Job, DeadJob, Db}
use ltsearch.Queue.{
  QueueBatch, BuildJob, Settings, ack, has_token, is_held, first_held, upsert_dead, reclaim, claim,
  release, is_spent, append_wal_segment, insert_build_job,
}
use ltsearch.Queue.Rows.{
  find_job, find_dead, DistinctTokens, find_job-map, find_job-keep, find_job-upsert_self,
  find_job-upsert_ne, find_job-batch_id,
}
use ltsearch.Queue.Tables.{IsValid}
use ltsearch.Queue.Receipts.{first_held_unique}
use ltsearch.Queue.Atomicity.{
  received, acked, nacked, nacked_row, dead_row, receive-Atomic, nack-Atomic, wal_append-Atomic,
  enqueue-Atomic, append_and_enqueue-Atomic,
}
use ltsearch.Queue.Invariant.{Step, appends, enqueues, writes, receives, acks, nacks, Atomic-keeps}

abbrev pub is_some {ℓ} : {A : Type ℓ} → Option A → Bool
is_some none = false
is_some (some a) = true

-- The queue or the dead letters have the batch.
abbrev pub IsKept : String → Db → Type 0
IsKept id db = (is_some (find_job id db.build_jobs) || is_some (find_dead id db.dead_jobs)) ≡ true

pub find_dead-upsert :
    (id : String) (d : DeadJob) (ds : List DeadJob)
    → find_dead id (upsert_dead d ds) ≡ (if str_eq d.batch_id id then some d else find_dead id ds)
unfolding find_dead upsert_dead
find_dead-upsert id d [] = refl
find_dead-upsert id d (e ∷ es) = ground (
  arith,
  find_dead-upsert id d es,
  str_eq_iff e.batch_id d.batch_id,
  str_eq_iff e.batch_id id,
  str_eq_iff d.batch_id id,
)

is_some-map {ℓ} : {A : Type ℓ} (f : A → A) (o : Option A) → is_some (Option.map f o) ≡ is_some o
is_some-map f none = refl
is_some-map f (some a) = refl

-- A map over the rows that keeps their keys keeps every batch.
map-IsKept :
    (f : Job → Job) (same : (j : Job) → (f j).batch_id ≡ j.batch_id) (id : String) (db : Db)
    → IsKept id db
    → IsKept id (record db { build_jobs = map f db.build_jobs })
map-IsKept f same id db kept =
    rw (find_job-map f same id db.build_jobs, is_some-map f (find_job id db.build_jobs)) kept

insert-IsKept :
    (id other body : String) (db : Db) → IsKept id db → IsKept id (insert_build_job other body db)
unfolding insert_build_job
insert-IsKept id other body db kept = elim (Bool-cases (str_eq other id)) [
  | inl same ↦ ground (
    arith,
    find_job-upsert_self id body db.build_jobs,
    find_job-upsert_self other body db.build_jobs,
    str_eq_iff other id,
  )
  | inr apart ↦
      rw (find_job-upsert_ne other id body db.build_jobs (λ e. ground (arith, str_eq_iff other id)))
        kept
]

received-IsKept :
    (cfg : Settings) (token : String → String) (now : ℕ) (id : String) (db : Db)
    → IsKept id db
    → IsKept id (received cfg token now db).1
unfolding reclaim claim
received-IsKept cfg token now id db kept =
    map-IsKept (claim token now) (λ j. ground arith) id
      (record db { build_jobs = map (reclaim cfg now) db.build_jobs })
      (map-IsKept (reclaim cfg now) (λ j. ground arith) id db kept)

-- An acknowledgement takes away the batch whose row holds its receipt, and no other.
acked-IsKept :
    (job : BuildJob) (id : String) (db : Db)
    → IsKept id db
    → IsKept id (acked job db)
      ⊎ ((j : Job) × (find_job id db.build_jobs ≡ some j) × (is_held job.receipt j ≡ true))
acked-IsKept job id db kept = elim (Option-cases (find_job id db.build_jobs)) [
  | inl e ↦ inl (ground (arith, kept))
  | inr (j, e) ↦ elim (Bool-cases (is_held job.receipt j)) [
    | inl held ↦ inr (j, e, held)
    | inr free ↦ inl (
        rw (find_job-keep (λ k. not (is_held job.receipt k)) id db.build_jobs e (rw free refl))
          refl)
  ]
]

buried-IsKept :
    (now : ℕ) (t error id : String) (j : Job) (db : Db)
    → DistinctTokens db.build_jobs
    → first_held t db.build_jobs ≡ some j
    → IsKept id db
    → IsKept id (record db {
      build_jobs = keep (λ k. not (has_token t k)) db.build_jobs;
      dead_jobs = upsert_dead (dead_row now error j) db.dead_jobs;
    })
buried-IsKept now t error id j db apart held kept =
    elim (Option-cases (find_job id db.build_jobs)) [
      | inl e ↦ ground (arith, find_dead-upsert id (dead_row now error j) db.dead_jobs)
      | inr (k, e) ↦ elim (Bool-cases (has_token t k)) [
        | inl has ↦ ground (
          arith,
          find_dead-upsert id (dead_row now error j) db.dead_jobs,
          ap (λ (r : Job). r.batch_id) (first_held_unique t id db.build_jobs apart held e has),
          find_job-batch_id id db.build_jobs e,
          str_eq_iff j.batch_id id,
        )
        | inr free ↦
            rw (find_job-keep (λ r. not (has_token t r)) id db.build_jobs e (rw free refl)) refl
      ]
    ]

nacked_row-IsKept :
    (cfg : Settings) (now : ℕ) (t error id : String) (found : Option Job) (db : Db)
    → DistinctTokens db.build_jobs
    → first_held t db.build_jobs ≡ found
    → IsKept id db
    → IsKept id (nacked_row cfg now t error found db)
unfolding release
nacked_row-IsKept cfg now t error id none db apart e kept = kept
nacked_row-IsKept cfg now t error id (some j) db apart e kept =
    elim (Bool-cases (is_spent cfg (j.attempts + 1))) [
      | inl spent ↦ rw spent (buried-IsKept now t error id j db apart e kept)
      | inr more ↦
          rw more (map-IsKept (release cfg now (j.attempts + 1) t) (λ k. ground arith) id db kept)
    ]

-- The receipt that a step acknowledges, where its DELETE does not fail.
abbrev pub acked_by :
    {cfg : Settings} {own : ℕ} {to_json : QueueBatch → String} {before after : Db}
    → Step cfg own to_json before after
    → Option BuildJob
acked_by (appends f key bytes) = none
acked_by (enqueues fails batch) = none
acked_by (writes f wal key bytes batch) = none
acked_by (receives f token now fresh) = none
acked_by (acks true job) = none
acked_by (acks false job) = some job
acked_by (nacks f now job error) = none

-- In a valid table, whatever is called and whatever fails, a batch in the queue or among the dead letters
-- stays there, but for one case: the step is an acknowledgement of the receipt that the batch's claimed row
-- holds.
pub Step-IsKept :
    (cfg : Settings) (own : ℕ) (to_json : QueueBatch → String) (id : String) {before after : Db}
    → IsValid cfg before.build_jobs
    → (step : Step cfg own to_json before after) → IsKept id before
    → IsKept id after
      ⊎ ((job : BuildJob) × (j : Job) × (acked_by step ≡ some job)
          × (find_job id before.build_jobs ≡ some j)
          × (is_held job.receipt j ≡ true)
          × (after ≡ acked job before))
unfolding append_wal_segment insert_build_job
Step-IsKept cfg own to_json id {before} v (appends f key bytes) kept = inl (
    Atomic-keeps (IsKept id) before (tt, append_wal_segment key bytes before) _
      (wal_append-Atomic f key bytes before) kept kept)
Step-IsKept cfg own to_json id {before} v (enqueues fails batch) kept = inl (
    Atomic-keeps (IsKept id) before (tt, insert_build_job batch.batch_id (to_json batch) before) _
      (enqueue-Atomic own to_json fails batch before) kept
      (insert-IsKept id batch.batch_id (to_json batch) before kept))
Step-IsKept cfg own to_json id {before} v (writes f wal key bytes batch) kept = inl (
    Atomic-keeps (IsKept id) before
      (tt, insert_build_job batch.batch_id (to_json batch) (append_wal_segment key bytes before)) _
      (append_and_enqueue-Atomic own to_json f wal key bytes batch before) kept
      (insert-IsKept id batch.batch_id (to_json batch) (append_wal_segment key bytes before) kept))
Step-IsKept cfg own to_json id {before} v (receives f token now fresh) kept = inl (
    Atomic-keeps (IsKept id) before (received cfg token now before) _
      (receive-Atomic cfg f token now before) kept (received-IsKept cfg token now id before kept))
Step-IsKept cfg own to_json id {before} v (acks true job) kept = inl (unfold ack in kept)
Step-IsKept cfg own to_json id {before} v (acks false job) kept =
    elim (acked-IsKept job id before kept) [
      | inl k ↦ inl (unfold ack in k)
      | inr (j, e, held) ↦ inr (job, j, refl, e, held, unfold ack in refl)
    ]
Step-IsKept cfg own to_json id {before} v (nacks f now job error) kept = inl (
    Atomic-keeps (IsKept id) before (tt, nacked cfg now job error before) _
      (nack-Atomic cfg f now job error before) kept
      (nacked_row-IsKept cfg now job.receipt error id _ before v.tokens refl kept))
