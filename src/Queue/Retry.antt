-- ===== src/Queue/Retry.antt =====
-- Retries end: a batch whose processing always fails is delivered `max_attempts` times, each time
-- after a longer back-off, and then lies among the dead letters with its last error.
use ltsearch.Common.{
  ℕ, zero, suc, ◌+◌, ◌≤◌, ◌<◌, ◌^◌, String, false, not, Option, none, some, List, [], ◌∷◌, map, All,
  ◌≡◌, ◌≢◌, refl, subst, inl, inr, arith, str_eq, Bool-cases,
}
use ltsearch.Sqlite.{Job, DeadJob, ready, Db}
use ltsearch.Queue.{Settings, has_token, reclaim, is_spent, release}
use ltsearch.Queue.Rows.{find_job, find_dead, TokenFree}
use mathlib.Core.Option.{some-injective}
use ltsearch.Queue.Tables.{IsValid, StateFits, RowFits, FreshTokens, All-map, All-keep}
use ltsearch.Queue.Atomicity.{received, nacked_row, dead_row}
use ltsearch.Queue.Delivery.{reclaim-Clears}
use ltsearch.Queue.Invariant.{nacked-IsValid}
use ltsearch.Queue.Statements.{TokenFree-claim_old}
use ltsearch.Queue.Round.{
  failing_round, failing_round-Failed, received-IsValid, spent_at, unspent_below, Failed, returned,
  IsReady,
}

-- The worker waits until the batch is due, then for the round's delay, and fails.
fail_when_due : Settings → (String → String) → ℕ → String → String → Db → Option Job → Db
unfolding failing_round
fail_when_due cfg token delay id error db none = db
fail_when_due cfg token delay id error db (some j) =
    failing_round cfg token (j.available_at + delay) id error db

-- `rounds` failing rounds, the round `n + 1` being the first one.
pub failing_rounds : Settings → (ℕ → String → String) → (ℕ → ℕ) → String → String → ℕ → ℕ → Db → Db
unfolding fail_when_due
failing_rounds cfg tokens delay id error zero n db = db
failing_rounds cfg tokens delay id error (suc rounds) n db =
    failing_rounds cfg tokens delay id error rounds (suc n)
      (fail_when_due cfg (tokens n) (delay n) id error db (find_job id db.build_jobs))

-- Tokens of different rounds, or of different batches, differ, and none of the rounds to come is in
-- the table.
pub record FreshRounds (tokens : ℕ → String → String) (n : ℕ) (js : List Job) : Type 0 where
  pub apart : (m k : ℕ) (a b : String) → tokens m a ≡ tokens k b → (m ≡ k) × (a ≡ b)
  pub unused : (m : ℕ) → n ≤ m → (id : String) → TokenFree (tokens m id) js

nacked_row-TokenFree :
    (cfg : Settings) (now : ℕ) (t u error : String) (found : Option Job) (db : Db)
    → TokenFree u db.build_jobs
    → TokenFree u (nacked_row cfg now t error found db).build_jobs
nacked_row-TokenFree cfg now t u error none db free = free
nacked_row-TokenFree cfg now t u error (some j) db free =
    elim (Bool-cases (is_spent cfg (j.attempts + 1))) [
      | inl spent ↦ rw spent (All-keep _ (λ k. not (has_token t k)) db.build_jobs free)
      | inr more ↦ rw more (
          All-map (λ r. has_token u r ≡ false) (release cfg now (j.attempts + 1) t)
            (λ r h. unfold release has_token in ground arith) db.build_jobs free)
    ]

failing_round-TokenFree :
    (cfg : Settings) (token : String → String) (now : ℕ) (id error u : String) (db : Db)
    → ((x : String) → token x ≢ u)
    → TokenFree u db.build_jobs
    → TokenFree u (failing_round cfg token now id error db).build_jobs
unfolding failing_round
failing_round-TokenFree cfg token now id error u db new free =
    nacked_row-TokenFree cfg now (token id) u error _ (received cfg token now db).1 (
      TokenFree-claim_old token now u (map (reclaim cfg now) db.build_jobs) new
        (All-map _ (reclaim cfg now) (reclaim-Clears cfg now u) db.build_jobs free))

find_job-All {κ} :
    (P : Job → Type κ) (id : String) (js : List Job) {j : Job}
    → All P js
    → find_job id js ≡ some j
    → P j
unfolding find_job
find_job-All P id [] ps e = cc
find_job-All P id (x ∷ xs) {j} ps e = elim (Bool-cases (str_eq x.batch_id id)) [
  | inl same ↦ subst P (some-injective x j (rw same at e)) ps.0
  | inr other ↦ find_job-All P id xs ps.1 (rw other at e)
]

-- What the last round leaves: no row, and a dead letter with the batch's body, every attempt counted
-- and the last error.
abbrev pub IsBuried : Settings → String → String → Job → Db → Type 0
IsBuried cfg id error j db =
    (find_job id db.build_jobs ≡ none)
    × ((d : DeadJob) × (find_dead id db.dead_jobs ≡ some d)
        × (d.attempts ≡ cfg.max_attempts)
        × (d.body ≡ j.body)
        × (d.last_error ≡ error))

module _ (cfg : Settings) (bound : cfg.max_attempts < 2 ^ 32) (tokens : ℕ → String → String)
    (delay : ℕ → ℕ) (id error : String) where
  round_fresh :
      (n now : ℕ) (js : List Job)
      → FreshRounds tokens n js
      → FreshTokens (tokens n) (map (reclaim cfg now) js)
  round_fresh n now js fresh = record {
    apart = λ a b e. (fresh.apart n n a b e).1;
    unused = λ x.
        All-map _ (reclaim cfg now) (reclaim-Clears cfg now (tokens n x)) js
          (fresh.unused n (omega arith) x);
  }

  later_fresh :
      (n now : ℕ) (db : Db)
      → FreshRounds tokens n db.build_jobs
      → FreshRounds tokens (suc n) (failing_round cfg (tokens n) now id error db).build_jobs
  later_fresh n now db fresh = record {
    apart = fresh.apart;
    unused = λ m above x.
        failing_round-TokenFree cfg (tokens n) now id error (tokens m x) db
          (λ y e. omega (arith, (fresh.apart n m y x e).0)) (fresh.unused m (omega arith) x);
  }

  ready_when_due :
      (d : ℕ) (j : Job) (db : Db)
      → IsValid cfg db.build_jobs
      → find_job id db.build_jobs ≡ some j
      → j.state ≡ ready
      → IsReady id (j.available_at + d) j db
  ready_when_due d j db v there idle = record {
    there = there;
    idle = idle;
    no_claim =
        subst (λ s. StateFits s j) idle
          (find_job-All (RowFits cfg) id db.build_jobs v.rows there).0;
    due = omega arith;
  }

  -- In a valid table, with a limit that is a positive `u32` and tokens that are new in each round: a ready
  -- batch with `rounds + 1` attempts left is out of the queue and among the dead letters after
  -- `rounds + 1` failing rounds, whatever the delays, with all its attempts counted.
  pub failing_rounds-IsBuried :
      (rounds n : ℕ) (j : Job) (db : Db)
      → IsValid cfg db.build_jobs
      → FreshRounds tokens n db.build_jobs
      → find_job id db.build_jobs ≡ some j
      → j.state ≡ ready
      → j.attempts + suc rounds ≡ cfg.max_attempts
      → IsBuried cfg id error j (failing_rounds cfg tokens delay id error (suc rounds) n db)
  unfolding failing_rounds
  failing_rounds-IsBuried zero n j db v fresh there idle left = rw there (elim round [
    | inl (more, _) ↦ cc (more, spent_at cfg j.attempts bound (omega arith))
    | inr (_, gone, dead) ↦ (gone, (dead_row now error j, dead, omega arith, refl, refl))
  ])
    where
      now : ℕ
      now = j.available_at + delay n

      round : Failed cfg now id error j (failing_round cfg (tokens n) now id error db)
      round =
          failing_round-Failed cfg (tokens n) now id error j db
            (round_fresh n now db.build_jobs fresh) v (ready_when_due (delay n) j db v there idle)
  failing_rounds-IsBuried (suc rounds) n j db v fresh there idle left =
      rw (there, failing_rounds)
        (elim round [
          | inl (_, back) ↦
              failing_rounds-IsBuried rounds (suc n) (returned cfg now j)
                (failing_round cfg (tokens n) now id error db) valid (later_fresh n now db fresh)
                back refl (omega arith)
          | inr (spent, _, _) ↦ cc (spent, unspent_below cfg j.attempts bound (omega arith))
        ])
    where
      now : ℕ
      now = j.available_at + delay n

      round : Failed cfg now id error j (failing_round cfg (tokens n) now id error db)
      round =
          failing_round-Failed cfg (tokens n) now id error j db
            (round_fresh n now db.build_jobs fresh) v (ready_when_due (delay n) j db v there idle)

      valid : IsValid cfg (failing_round cfg (tokens n) now id error db).build_jobs
      valid =
          nacked-IsValid cfg bound now (record { receipt = tokens n id; body = "" }) error
            (received cfg (tokens n) now db).1
            (received-IsValid cfg (tokens n) now db (round_fresh n now db.build_jobs fresh) v)
