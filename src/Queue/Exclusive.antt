-- ===== src/Queue/Exclusive.antt =====
-- src/local/sqlite/queue.rs: a batch that was handed out, while its lease runs.
use ltsearch.Common.{
  ℕ, ◌+◌, ◌<◌, String, true, not, Option, none, some, ok, List, [], ◌∷◌, map, In, All, All-In, ◌≡◌,
  ◌≢◌, refl, ap, sym, ◌∙◌, subst, inl, inr, arith, str_eq, str_eq_iff, str_eq-ne, Bool-cases,
}
use ltsearch.Sqlite.{Job, claimed, Db}
use ltsearch.Queue.{
  QueueBatch, BuildJob, Settings, ReceiveFaults, receive, has_token, is_expired, reclaim, is_due,
  claim, release, is_spent, upsert_job, insert_build_job, append_wal_segment,
}
use ltsearch.Queue.Rows.{find_job, DistinctIds}
use ltsearch.Queue.Tables.{IsValid, All-map, All-keep}
use ltsearch.Queue.Atomicity.{
  received, acked, nacked, nacked_row, receive-Atomic, ack-Atomic, nack-Atomic, wal_append-Atomic,
  enqueue-Atomic, append_and_enqueue-Atomic,
}
use ltsearch.Queue.Invariant.{Step, appends, enqueues, writes, receives, acks, nacks, Atomic-keeps}
use ltsearch.Queue.Delivery.{IsAvailable, available_due, In-find_job, receive-exact}

module _ (cfg : Settings) (own : ℕ) (to_json : QueueBatch → String) (id t : String)
    (until : ℕ) where
  -- A step that does not concern the batch: nobody signals its receipt or enqueues the batch again, and the
  -- `receive`s are before the given time.
  abbrev pub IsAside : {before after : Db} → Step cfg own to_json before after → Type 0
  IsAside (appends f key bytes) = Unit
  IsAside (enqueues fails batch) = batch.batch_id ≢ id
  IsAside (writes f wal key bytes batch) = batch.batch_id ≢ id
  IsAside (receives f token at fresh) = at < until
  IsAside (acks fails job) = job.receipt ≢ t
  IsAside (nacks f at job error) = job.receipt ≢ t

  -- Any number of such steps.
  pub data Meanwhile (db : Db) : Db → Type 0 where
    nothing : Meanwhile db db
    aside :
        {mid last : Db}
        → Meanwhile db mid
        → (step : Step cfg own to_json mid last) → IsAside step
        → Meanwhile db last

module _ (cfg : Settings) (id t : String) (now : ℕ) where
  -- The row, where it is the batch's, is claimed at the time with the token.
  abbrev IsOut : Job → Type 0
  IsOut r =
      r.batch_id ≡ id → (r.state ≡ claimed) × (r.claimed_at ≡ some now) × (r.claim_token ≡ some t)

  abbrev AreOut : Db → Type 0
  AreOut db = All IsOut db.build_jobs

  -- Within the lease a `receive` leaves the row as it is.
  row-received :
      (token : String → String) (at : ℕ) (r : Job)
      → at < now + cfg.lease_ms
      → (r.state ≡ claimed) × (r.claimed_at ≡ some now) × (r.claim_token ≡ some t)
      → claim token at (reclaim cfg at r) ≡ r
  unfolding claim reclaim is_due is_expired
  row-received token at r soon (state, since, token_is) = ground (arith, soon, state, since)

  same_id :
      (token : String → String) (at : ℕ) (r : Job)
      → (claim token at (reclaim cfg at r)).batch_id ≡ r.batch_id
  unfolding claim reclaim
  same_id token at r = ground arith

  IsOut-received :
      (token : String → String) (at : ℕ) (r : Job)
      → at < now + cfg.lease_ms
      → IsOut r
      → IsOut (claim token at (reclaim cfg at r))
  IsOut-received token at r soon out e =
      let kept = out (sym (same_id token at r) ∙ e) in
      let same = row-received token at r soon kept in
      subst
        (λ (q : Job). (q.state ≡ claimed) × (q.claimed_at ≡ some now) × (q.claim_token ≡ some t))
        (sym same) kept

  received-AreOut :
      (token : String → String) (at : ℕ) (js : List Job)
      → at < now + cfg.lease_ms
      → All IsOut js
      → All IsOut (map (claim token at) (map (reclaim cfg at) js))
  received-AreOut token at [] soon out = tt
  received-AreOut token at (r ∷ js) soon (h, out) =
      (IsOut-received token at r soon h, received-AreOut token at js soon out)

  upsert-AreOut :
      (other body : String) (js : List Job)
      → other ≢ id
      → All IsOut js
      → All IsOut (upsert_job other body js)
  unfolding upsert_job
  upsert-AreOut other body [] apart out = (λ e. absurd (apart e), tt)
  upsert-AreOut other body (r ∷ js) apart (h, out) = elim (Bool-cases (str_eq r.batch_id other)) [
    | inl same ↦
        rw (same, upsert_job)
          (λ e. absurd (apart (sym ((str_eq_iff r.batch_id other).0 same) ∙ e)), out)
    | inr differs ↦ rw (differs, upsert_job) (h, upsert-AreOut other body js apart out)
  ]

  release_other :
      (receipt : String) (attempts at : ℕ) (r : Job)
      → receipt ≢ t
      → r.claim_token ≡ some t
      → release cfg at attempts receipt r ≡ r
  unfolding release has_token
  release_other receipt attempts at r apart is =
      rw (is, str_eq-ne t receipt (λ e. apart (sym e))) refl

  release_id :
      (receipt : String) (attempts at : ℕ) (r : Job)
      → (release cfg at attempts receipt r).batch_id ≡ r.batch_id
  unfolding release
  release_id receipt attempts at r = ground arith

  IsOut-release :
      (receipt : String) (attempts at : ℕ) (r : Job)
      → receipt ≢ t
      → IsOut r
      → IsOut (release cfg at attempts receipt r)
  IsOut-release receipt attempts at r apart out e =
      let kept = out (sym (release_id receipt attempts at r) ∙ e) in
      subst
        (λ (q : Job). (q.state ≡ claimed) × (q.claimed_at ≡ some now) × (q.claim_token ≡ some t))
        (sym (release_other receipt attempts at r apart kept.2)) kept

  nacked_row-AreOut :
      (at : ℕ) (receipt error : String) (found : Option Job) (db : Db)
      → receipt ≢ t
      → AreOut db
      → AreOut (nacked_row cfg at receipt error found db)
  nacked_row-AreOut at receipt error none db apart out = out
  nacked_row-AreOut at receipt error (some j) db apart out =
      elim (Bool-cases (is_spent cfg (j.attempts + 1))) [
        | inl spent ↦ rw spent (All-keep IsOut (λ k. not (has_token receipt k)) db.build_jobs out)
        | inr more ↦ rw more (
            All-map IsOut (release cfg at (j.attempts + 1) receipt)
              (λ r. IsOut-release receipt (j.attempts + 1) at r apart) db.build_jobs out)
      ]

  module _ (own : ℕ) (to_json : QueueBatch → String) where
    Step-AreOut :
        {before after : Db} (step : Step cfg own to_json before after)
        → IsAside cfg own to_json id t (now + cfg.lease_ms) step
        → AreOut before
        → AreOut after
    unfolding append_wal_segment insert_build_job
    Step-AreOut {before} (appends f key bytes) quiet out =
        Atomic-keeps AreOut before (tt, append_wal_segment key bytes before) _
          (wal_append-Atomic f key bytes before) out out
    Step-AreOut {before} (enqueues fails batch) quiet out =
        Atomic-keeps AreOut before (tt, insert_build_job batch.batch_id (to_json batch) before) _
          (enqueue-Atomic own to_json fails batch before) out
          (upsert-AreOut batch.batch_id (to_json batch) before.build_jobs quiet out)
    Step-AreOut {before} (writes f wal key bytes batch) quiet out =
        Atomic-keeps AreOut before
          (
            tt,
            insert_build_job batch.batch_id (to_json batch) (append_wal_segment key bytes before),
          )
          _ (append_and_enqueue-Atomic own to_json f wal key bytes batch before) out
          (upsert-AreOut batch.batch_id (to_json batch) before.build_jobs quiet out)
    Step-AreOut {before} (receives f token at fresh) quiet out =
        Atomic-keeps AreOut before (received cfg token at before) _
          (receive-Atomic cfg f token at before) out
          (received-AreOut token at before.build_jobs quiet out)
    Step-AreOut {before} (acks fails job) quiet out =
        Atomic-keeps AreOut before (tt, acked job before) _ (ack-Atomic fails job before) out
          (All-keep IsOut _ before.build_jobs out)
    Step-AreOut {before} (nacks f at job error) quiet out =
        Atomic-keeps AreOut before (tt, nacked cfg at job error before) _
          (nack-Atomic cfg f at job error before) out
          (nacked_row-AreOut at job.receipt error _ before quiet out)

    Meanwhile-AreOut :
        {before after : Db}
        → Meanwhile cfg own to_json id t (now + cfg.lease_ms) before after
        → AreOut before
        → AreOut after
    Meanwhile-AreOut nothing out = out
    Meanwhile-AreOut (aside before step quiet) out =
        Step-AreOut step quiet (Meanwhile-AreOut before out)

claimed_row :
    (cfg : Settings) (token : String → String) (now : ℕ) (r : Job)
    → is_due now (reclaim cfg now r) ≡ true
    → let q = claim token now (reclaim cfg now r) in
      (q.state ≡ claimed) × (q.claimed_at ≡ some now) × (q.claim_token ≡ some (token r.batch_id))
unfolding claim reclaim
claimed_row cfg token now r due = ground (arith, due)

same_row :
    (x j : Job) (js : List Job)
    → DistinctIds js
    → In x js
    → In j js
    → x.batch_id ≡ j.batch_id
    → x ≡ j
same_row x j js ids m n e =
    cc (In-find_job x js ids m, ap (λ i. find_job i js) e, In-find_job j js ids n)

first-AreOut :
    (cfg : Settings) (token : String → String) (now : ℕ) (j : Job) (js : List Job)
    → DistinctIds js
    → In j js
    → IsAvailable cfg now j
    → (rows : List Job) → ((x : Job) → In x rows → In x js)
    → All
        (IsOut cfg j.batch_id (token j.batch_id) now)
        (map (claim token now) (map (reclaim cfg now) rows))
first-AreOut cfg token now j js ids m there [] within = tt
first-AreOut cfg token now j js ids m there (x ∷ rows) within = (
  λ e.
      let same : x ≡ j =
        same_row x j js ids (within x (inl refl)) m
          (sym (same_id cfg j.batch_id (token j.batch_id) now token now x) ∙ e) in
      subst
        (λ (r : Job).
          ((claim token now (reclaim cfg now r)).state ≡ claimed)
          × ((claim token now (reclaim cfg now r)).claimed_at ≡ some now)
          × ((claim token now (reclaim cfg now r)).claim_token ≡ some (token j.batch_id)))
        (sym same) (claimed_row cfg token now j (available_due cfg now j there)),
  first-AreOut cfg token now j js ids m there rows (λ y n. within y (inr n)),
)

received_after :
    (cfg : Settings) (f : ReceiveFaults) (token : String → String) (now : ℕ) (db : Db)
    {jobs : List BuildJob} {after : Db}
    → receive cfg f token now db ≡ (ok jobs, after)
    → (received cfg token now db).1 ≡ after
received_after cfg f token now db h = elim (receive-Atomic cfg f token now db) [
  | inl (_, e) ↦ sym e ∙ ap (λ p. p.1) h
  | inr (failed, _) ↦ absurd (ground (arith, h, failed))
]

not_available :
    (cfg : Settings) (now later : ℕ) (x : Job)
    → later < now + cfg.lease_ms
    → (x.state ≡ claimed) × (x.claimed_at ≡ some now)
    → IsAvailable cfg later x
    → ⊥
not_available cfg now later x soon (state, since) (_, inl is) = ground (arith, state, is)
not_available cfg now later x soon (state, since) (_, inr (at, _, is, over)) =
    ground (arith, since, is, over, soon)

-- Exclusive delivery: a batch that one `receive` hands out is handed out by no other before its lease has
-- run out, whatever happens meanwhile, but for a signal with its receipt or another enqueueing of the
-- batch; if the table was valid and the second `receive` draws different tokens for different batches.
pub receive-exclusive :
    (cfg : Settings) (own : ℕ) (to_json : QueueBatch → String) (f g : ReceiveFaults)
    (token token' : String → String) (now later : ℕ) (db : Db) (j : Job)
    {first second : List BuildJob} {after mid last : Db}
    → IsValid cfg db.build_jobs
    → ((a b : String) → token' a ≡ token' b → a ≡ b)
    → In j db.build_jobs
    → IsAvailable cfg now j
    → receive cfg f token now db ≡ (ok first, after)
    → Meanwhile cfg own to_json j.batch_id (token j.batch_id) (now + cfg.lease_ms) after mid
    → later < now + cfg.lease_ms
    → receive cfg g token' later mid ≡ (ok second, last)
    → (job : BuildJob) → In job second
    → job.receipt ≢ token' j.batch_id
receive-exclusive cfg own to_json f g token token' now later db j {after = after} {mid = mid} v
      apart m there won meanwhile soon again job n e =
    let (x, in_mid, available, made) = (receive-exact cfg g token' later mid job again).0 n in
    let same : x.batch_id ≡ j.batch_id =
      apart x.batch_id j.batch_id (sym (ap (λ (b : BuildJob). b.receipt) made) ∙ e) in
    let out : All (IsOut cfg j.batch_id (token j.batch_id) now) after.build_jobs =
      subst (λ (d : Db). All (IsOut cfg j.batch_id (token j.batch_id) now) d.build_jobs)
        (received_after cfg f token now db won)
        (first-AreOut cfg token now j db.build_jobs v.ids m there db.build_jobs (λ y k. k)) in
    let (state, since, _) =
      All-In (IsOut cfg j.batch_id (token j.batch_id) now) mid.build_jobs
        (Meanwhile-AreOut cfg j.batch_id (token j.batch_id) now own to_json meanwhile out) in_mid
        same in
    not_available cfg now later x soon (state, since) available
