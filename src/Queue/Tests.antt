-- ===== src/Queue/Tests.antt =====
-- Runs of the build queue at concrete inputs.
use Prim.Native.Char.{code}
use Prim.Native.String.{◌∷◌ as str_cons}
use ltsearch.Common.{
  ◌↔◌, ℕ, zero, suc, String, true, false, none, some, [], ◌∷◌, map, ◌≡◌, ◌≢◌, refl, ap, inl, arith,
  ◌⊎◌, is_err, In, ok, ◌&&◌, str_eq_iff,
}
use ltsearch.Sqlite.{Job, ready, claimed, Db, empty_db}
use ltsearch.Queue.{
  QueueBatch, BuildJob, default_settings, EnqueueFaults, ReceiveFaults, NackFaults, sqlite, enqueue,
  append_and_enqueue, receive, ack, nack, shares_db, has_token, is_held, reclaim, is_due,
  is_expired, claim, deliveries, insert_build_job, append_wal_segment,
}
use ltsearch.Queue.Rows.{find_job, find_dead}
use ltsearch.Queue.Tables.{IsValid, FreshTokens}
use ltsearch.Queue.Atomicity.{received, acked, append_and_enqueue-exact}
use ltsearch.Queue.Invariant.{Reach, here, next, enqueues, receives, acks, Reach-IsValid}
use ltsearch.Queue.Custody.{IsKept, Step-IsKept}
use ltsearch.Queue.Delivery.{delivery, IsAvailable, receive-exact, late_signals_void}
use ltsearch.Queue.Exclusive.{Meanwhile, nothing, aside, receive-exclusive}
use ltsearch.Queue.Retry.{FreshRounds, failing_rounds, IsBuried, failing_rounds-IsBuried}

abbrev to_json : QueueBatch → String
to_json b = b.batch_id

abbrev first_batch : QueueBatch
first_batch = record {
  batch_id = "b1";
  wal_key = "wal/1";
  accepted_count = 1;
  wal_event_ids = "e1" ∷ [];
}

abbrev waiting_job : Job
waiting_job = record {
  batch_id = "b1";
  body = "b1";
  state = ready;
  attempts = 0;
  available_at = 0;
  claimed_at = none;
  claim_token = none;
}

abbrev held_job : Job
held_job = record waiting_job { state = claimed; claimed_at = some 10; claim_token = some "old" }

abbrev waiting : Db
waiting = record empty_db { build_jobs = waiting_job ∷ [] }

abbrev held : Db
held = record empty_db { build_jobs = held_job ∷ [] }

-- The tokens of round n: n times `a`, then `b` and the batch.
abbrev round_token : ℕ → String → String
round_token zero id = str_cons "b" id
round_token (suc n) id = str_cons "a" (round_token n id)

waiting-IsValid : IsValid default_settings waiting.build_jobs
waiting-IsValid = record { ids = (tt, tt); tokens = (tt, tt); rows = ((refl, omega arith), tt) }

held-IsValid : IsValid default_settings held.build_jobs
held-IsValid = record {
  ids = (tt, tt);
  tokens = (tt, tt);
  rows = ((((10, refl), ("old", refl)), omega arith), tt);
}

abbrev lead : String → ℕ
lead String.[] = 0
lead (String.◌∷◌ c s) = code c

abbrev rest : String → String
rest String.[] = ""
rest (String.◌∷◌ c s) = s

round_token-injective :
    (m k : ℕ) (a b : String) → round_token m a ≡ round_token k b → (m ≡ k) × (a ≡ b)
round_token-injective zero zero a b e = (refl, ap rest e)
round_token-injective zero (suc k) a b e = absurd (omega (arith, ap lead e))
round_token-injective (suc m) zero a b e = absurd (omega (arith, ap lead e))
round_token-injective (suc m) (suc k) a b e =
    let (same, also) = round_token-injective m k a b (ap rest e) in (ap suc same, also)

round_token-apart : (n : ℕ) (a b : String) → round_token n a ≡ round_token n b → a ≡ b
round_token-apart n a b e = (round_token-injective n n a b e).1

abbrev nack_faults : NackFaults
nack_faults = record {
  begin = false;
  read = false;
  insert_dead = false;
  remove = false;
  requeue = false;
  commit = false;
}

abbrev no_faults : ReceiveFaults
no_faults = record { begin = false; reclaim = false; claim = false; commit = false }

waiting-fresh : FreshTokens (round_token 0) (map (reclaim default_settings 5) waiting.build_jobs)
unfolding reclaim has_token
waiting-fresh = record { apart = round_token-apart 0; unused = λ id. (refl, tt) }

enqueued-fresh :
    FreshTokens
      (round_token 0)
      (map (reclaim default_settings 5) (enqueue 7 to_json false first_batch empty_db).1.build_jobs)
unfolding reclaim has_token enqueue
enqueued-fresh = record { apart = round_token-apart 0; unused = λ id. (refl, tt) }

waiting-Reach :
    Reach default_settings 7 to_json empty_db (enqueue 7 to_json false first_batch empty_db).1
waiting-Reach = next here (enqueues false first_batch)

-- An enqueue that succeeds, then a `receive` whose commit fails.
Reach-IsValid_example :
    IsValid default_settings
      (receive default_settings
        (record no_faults { commit = true })
        (round_token 0)
        5
        (enqueue 7 to_json false first_batch empty_db).1).1.build_jobs
Reach-IsValid_example = Reach-IsValid default_settings (omega arith) (omega arith) 7 to_json (
    next waiting-Reach
      (receives (record no_faults { commit = true }) (round_token 0) 5 enqueued-fresh))

Step-IsKept_example :
    IsKept "b1" (acked (delivery (λ _. "new") held_job) held)
    ⊎ ((job : BuildJob) × (j : Job) × (some (delivery (λ _. "new") held_job) ≡ some job)
        × (find_job "b1" held.build_jobs ≡ some j)
        × (is_held job.receipt j ≡ true)
        × (acked (delivery (λ _. "new") held_job) held ≡ acked job held))
unfolding ack find_job find_dead
Step-IsKept_example =
    Step-IsKept default_settings 7 to_json "b1" held-IsValid
      (acks false (delivery (λ _. "new") held_job)) refl

-- A second batch is due at time 6 only.
abbrev later_job : Job
later_job = record waiting_job { batch_id = "b2"; available_at = 6 }

abbrev two_waiting : Db
two_waiting = record empty_db { build_jobs = waiting_job ∷ later_job ∷ [] }

b2-ne-b1 : ◌≢◌ {A = String} "b2" "b1"
b2-ne-b1 = ground (arith, str_eq_iff "b2" "b1")

two_waiting-IsValid : IsValid default_settings two_waiting.build_jobs
two_waiting-IsValid = record {
  ids = ((b2-ne-b1, tt), (tt, tt));
  tokens = (tt, (tt, tt));
  rows = ((refl, omega arith), ((refl, omega arith), tt));
}

-- The first batch went out at time 5, and another job was acknowledged; the job that the `receive` at
-- time 6 hands out is not it.
abbrev out_at_5 : Db
out_at_5 = (received default_settings (round_token 0) 5 two_waiting).1

abbrev another_job : BuildJob
another_job = record { receipt = "another"; body = "b9" }

abbrev acknowledged : Db
acknowledged = (ack false another_job out_at_5).1

another-ne : ◌≢◌ {A = String} "another" (round_token 0 "b1")
another-ne = ground (arith, str_eq_iff "another" (round_token 0 "b1"))

sent-Meanwhile :
    Meanwhile default_settings 7 to_json "b1" (round_token 0 "b1") 300_005 out_at_5 acknowledged
sent-Meanwhile = aside nothing (acks false another_job) another-ne

receive-exclusive_example : round_token 1 "b2" ≢ round_token 1 "b1"
unfolding receive ack is_held has_token reclaim claim is_due is_expired deliveries
receive-exclusive_example =
    receive-exclusive default_settings 7 to_json no_faults no_faults (round_token 0) (round_token 1)
      5 6 two_waiting waiting_job two_waiting-IsValid (round_token-apart 1) (inl refl)
      (omega arith, inl refl) refl sent-Meanwhile (omega arith) refl
      (delivery (round_token 1) later_job) (inl refl)

-- At time 400000 the lease of the claimed batch has run out, so it goes out again.
receive-exact_example :
    In (delivery (round_token 0) held_job) (delivery (round_token 0) held_job ∷ []) ↔ (
      (j : Job) × In j held.build_jobs
      × IsAvailable default_settings 400_000 j
      × (delivery (round_token 0) held_job ≡ delivery (round_token 0) j))
unfolding receive reclaim is_expired is_due claim deliveries
receive-exact_example =
    receive-exact default_settings no_faults (round_token 0) 400_000 held
      (delivery (round_token 0) held_job) refl

late_signals_void_example :
    let after = (received default_settings (round_token 0) 400_000 held).1 in
    ((ack false (delivery (λ _. "old") held_job) after).1 ≡ after)
    × ((nack default_settings nack_faults 400_001 (delivery (λ _. "old") held_job) "late" after).1
        ≡ after)
unfolding is_expired
late_signals_void_example =
    late_signals_void default_settings (round_token 0) 400_000 400_001 held held_job
      (delivery (λ _. "old") held_job) false nack_faults "late" held-IsValid (inl refl) refl refl
      (λ id e. absurd (omega (arith, ap lead e)))

-- The insert fails after the append.
abbrev insert_fails : EnqueueFaults
insert_fails = record { begin = false; append = false; insert = true; commit = false }

append_and_enqueue-exact_example :
    let run =
      append_and_enqueue 7 to_json insert_fails (sqlite 7) "wal/1" (1 ∷ []) first_batch empty_db in
    ((shares_db (sqlite 7) 7 && false ≡ true)
      × (run ≡ (ok tt, insert_build_job "b1" "b1" (append_wal_segment "wal/1" (1 ∷ []) empty_db))))
    ⊎ ((shares_db (sqlite 7) 7 && false ≡ false) × (is_err run.0 ≡ true) × (run.1 ≡ empty_db))
append_and_enqueue-exact_example =
    append_and_enqueue-exact 7 to_json insert_fails (sqlite 7) "wal/1" (1 ∷ []) first_batch empty_db

waiting-FreshRounds : FreshRounds round_token 0 waiting.build_jobs
unfolding has_token
waiting-FreshRounds = record { apart = round_token-injective; unused = λ m h id. (refl, tt) }

failing_rounds-IsBuried_example :
    IsBuried default_settings "b1" "boom" waiting_job
      (failing_rounds default_settings round_token (λ n. n) "b1" "boom" 3 0 waiting)
unfolding find_job
failing_rounds-IsBuried_example =
    failing_rounds-IsBuried default_settings (omega arith) round_token (λ n. n) "b1" "boom" 2 0
      waiting_job waiting waiting-IsValid waiting-FreshRounds refl refl refl
