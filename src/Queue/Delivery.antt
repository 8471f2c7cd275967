-- ===== src/Queue/Delivery.antt =====
-- Who gets a job, and when: a claimed job is delivered to nobody else while its lease runs, and a
-- receipt is void once the lease has run out and the job was taken back.
use ltsearch.Common.{
  ℕ, ◌+◌, ◌≤◌, ◌⊎◌, ◌↔◌, leb, leb→le, Option-cases, String, Bool, true, false, none, some, ok, List,
  [], ◌∷◌, map, All-In, In, In-map, In-unmap, subst, ◌≡◌, ◌≢◌, refl, ap, sym, ◌∙◌, inl, inr, arith,
  str_eq_iff, str_eq_refl, str_eq-ne, Bool-cases,
}
use ltsearch.Sqlite.{JobState, ready, claimed, Job, Db}
use ltsearch.Queue.{
  BuildJob, Settings, ReceiveFaults, receive, NackFaults, has_token, is_expired, reclaim, is_due,
  claim, deliveries, ack, nack,
}
use ltsearch.Queue.Rows.{find_job, NoJob, DistinctIds, TokenFree, DistinctTokens, find_job-map}
use ltsearch.Queue.Tables.{IsValid, All-map, Clears}
use ltsearch.Queue.Statements.{TokenFree-claim_old}
use ltsearch.Queue.Receipts.{holder_alone, acked-TokenFree, nacked-TokenFree}
use ltsearch.Queue.Atomicity.{received, receive-Atomic, ack-Atomic, nack-Atomic}

state-cases : (s : JobState) → (s ≡ ready) ⊎ (s ≡ claimed)
state-cases ready = inl refl
state-cases claimed = inr refl

-- What `receive` hands out for a row.
abbrev pub delivery : (String → String) → Job → BuildJob
delivery token j = record { receipt = token j.batch_id; body = j.body }

pub find_job-NoJob : (id : String) (js : List Job) → NoJob id js → find_job id js ≡ none
unfolding find_job
find_job-NoJob id [] h = refl
find_job-NoJob id (j ∷ js) h = rw (str_eq-ne j.batch_id id (λ e. h.0 e)) (find_job-NoJob id js h.1)

pub In-find_job :
    (x : Job) (js : List Job) → DistinctIds js → In x js → find_job x.batch_id js ≡ some x
unfolding find_job
In-find_job x [] ids m = absurd m
In-find_job x (j ∷ js) ids (inl e) =
    ground (arith, str_eq_iff j.batch_id x.batch_id, ap (λ (r : Job). r.batch_id) e, e)
In-find_job x (j ∷ js) ids (inr m) =
    rw
      (str_eq-ne j.batch_id x.batch_id
        (λ e. All-In (λ (r : Job). r.batch_id ≢ j.batch_id) js ids.0 m (sym e)))
      (In-find_job x js ids.1 m)

-- A due row of the list, of which the job is the delivery.
abbrev pub Stems : (String → String) → ℕ → List Job → BuildJob → Type 0
Stems token now js job = (j : Job) × In j js × (is_due now j ≡ true) × (job ≡ delivery token j)

first_or_later :
    (token : String → String) (now : ℕ) (j : Job) (js : List Job) (job : BuildJob)
    (later : List BuildJob)
    → is_due now j ≡ true
    → (In job later → Stems token now js job)
    → In job (delivery token j ∷ later)
    → Stems token now (j ∷ js) job
first_or_later token now j js job later due rest (inl e) = (j, inl refl, due, e)
first_or_later token now j js job later due rest (inr m) =
    let (k, n, d, e) = rest m in (k, inr n, d, e)

deliveries_sound :
    (token : String → String) (now : ℕ) (js : List Job) (job : BuildJob)
    → In job (deliveries token now js)
    → Stems token now js job
unfolding deliveries
deliveries_sound token now [] job h = absurd h
deliveries_sound token now (j ∷ js) job h = elim (Bool-cases (is_due now j)) [
  | inl due ↦
      first_or_later token now j js job (deliveries token now js) due
        (deliveries_sound token now js job) (rw due at h)
  | inr early ↦
      let (k, m, d, e) = deliveries_sound token now js job (rw early at h) in (k, inr m, d, e)
]

deliveries_complete :
    (token : String → String) (now : ℕ) (js : List Job) (j : Job)
    → In j js
    → is_due now j ≡ true
    → In (delivery token j) (deliveries token now js)
unfolding deliveries
deliveries_complete token now [] j m due = absurd m
deliveries_complete token now (k ∷ js) j (inl e) due =
    rw (subst (λ r. is_due now r ≡ true) e due) (inl (ap (delivery token) e))
deliveries_complete token now (k ∷ js) j (inr m) due = elim (Bool-cases (is_due now k)) [
  | inl d ↦ rw d (inr (deliveries_complete token now js j m due))
  | inr d ↦ rw d (deliveries_complete token now js j m due)
]

delivery-reclaim :
    (cfg : Settings) (token : String → String) (now : ℕ) (j : Job)
    → delivery token (reclaim cfg now j) ≡ delivery token j
unfolding reclaim
delivery-reclaim cfg token now j = ground arith

-- `receive` hands out exactly the rows that are due once the expired leases are taken back: each job
-- that it returns stems from such a row, and each such row is among the jobs.
pub received-exact :
    (cfg : Settings) (token : String → String) (now : ℕ) (db : Db)
    → ((job : BuildJob)
        → In job (received cfg token now db).0
        → (j : Job) × In j db.build_jobs
          × (is_due now (reclaim cfg now j) ≡ true)
          × (job ≡ delivery token j))
      × ((j : Job)
          → In j db.build_jobs
          → is_due now (reclaim cfg now j) ≡ true
          → In (delivery token j) (received cfg token now db).0)
received-exact cfg token now db = (sound, complete)
  where
    sound :
        (job : BuildJob)
        → In job (received cfg token now db).0
        → (j : Job) × In j db.build_jobs
          × (is_due now (reclaim cfg now j) ≡ true)
          × (job ≡ delivery token j)
    sound job m =
        let (k, n, due, e) =
          deliveries_sound token now (map (reclaim cfg now) db.build_jobs) job m in
        let (j, in_db, r) = In-unmap k (reclaim cfg now) db.build_jobs n in
        (j, in_db, rw r at due, e ∙ ap (delivery token) r ∙ delivery-reclaim cfg token now j)

    complete :
        (j : Job)
        → In j db.build_jobs
        → is_due now (reclaim cfg now j) ≡ true
        → In (delivery token j) (received cfg token now db).0
    complete j m due = rw (delivery-reclaim cfg token now j) at (
        deliveries_complete token now (map (reclaim cfg now) db.build_jobs) (reclaim cfg now j)
          (In-map j (reclaim cfg now) db.build_jobs m) due)

-- A row whose time has come, and which is ready or whose lease has run out.
abbrev pub IsAvailable : Settings → ℕ → Job → Type 0
IsAvailable cfg now j =
    (j.available_at ≤ now)
    × ((j.state ≡ ready)
        ⊎ ((at : ℕ) × (j.state ≡ claimed) × (j.claimed_at ≡ some at) × (at + cfg.lease_ms ≤ now)))

pub available_due :
    (cfg : Settings) (now : ℕ) (j : Job)
    → IsAvailable cfg now j
    → is_due now (reclaim cfg now j) ≡ true
unfolding reclaim is_expired is_due
available_due cfg now j (time, inl is) = ground (arith, time, is)
available_due cfg now j (time, inr (at, is, since, over)) = ground (arith, time, is, since, over)

due-IsAvailable :
    (cfg : Settings) (now : ℕ) (j : Job)
    → is_due now (reclaim cfg now j) ≡ true
    → IsAvailable cfg now j
unfolding reclaim is_expired is_due
due-IsAvailable cfg now j due = elim (Option-cases j.claimed_at) [
  | inl free ↦ ground (arith, due, free)
  | inr (at, since) ↦ elim (Bool-cases (leb (at + cfg.lease_ms) now)) [
    | inl over ↦ elim (state-cases j.state) [
      | inl is ↦ (ground (arith, due, since, over, is), inl is)
      | inr is ↦ (
        ground (arith, due, since, over, is),
        inr (at, is, since, leb→le (at + cfg.lease_ms) now over),
      )
    ]
    | inr runs ↦ elim (state-cases j.state) [
      | inl is ↦ (ground (arith, due, since, runs, is), inl is)
      | inr is ↦ absurd (ground (arith, due, since, runs, is))
    ]
  ]
]

-- The jobs that a `receive` returns when it succeeds are exactly those of the rows whose time has come and
-- which are ready or whose lease has run out, each with the row's body and the token drawn for it.
pub receive-exact :
    (cfg : Settings) (f : ReceiveFaults) (token : String → String) (now : ℕ) (db : Db)
    (job : BuildJob) {jobs : List BuildJob} {after : Db}
    → receive cfg f token now db ≡ (ok jobs, after)
    → In job jobs
      ↔ ((j : Job) × In j db.build_jobs × IsAvailable cfg now j × (job ≡ delivery token j))
receive-exact cfg f token now db job {jobs} h = elim (receive-Atomic cfg f token now db) [
  | inl (won, _) ↦
      let same : jobs ≡ (received cfg token now db).0 = ground (arith, h, won) in
      (
        λ m.
            let (j, n, due, e) = (received-exact cfg token now db).0 job (subst (In job) same m) in
            (j, n, due-IsAvailable cfg now j due, e),
        λ (j, n, there, e).
            subst (λ b. In b jobs) (sym e)
              (subst (In (delivery token j)) (sym same)
                ((received-exact cfg token now db).1 j n (available_due cfg now j there))),
      )
  | inr (failed, _) ↦ absurd (ground (arith, h, failed))
]

-- The row of a batch over one `receive`.
pub find_job-received :
    (cfg : Settings) (token : String → String) (now : ℕ) (id : String) (db : Db) {j : Job}
    → find_job id db.build_jobs ≡ some j
    → find_job id (received cfg token now db).1.build_jobs
      ≡ some (claim token now (reclaim cfg now j))
unfolding claim reclaim
find_job-received cfg token now id db {j} e =
    rw
      (
        find_job-map (claim token now) (λ r. ground arith) id (map (reclaim cfg now) db.build_jobs),
        find_job-map (reclaim cfg now) (λ r. ground arith) id db.build_jobs,
        e,
      )
      refl

pub reclaim-Clears : (cfg : Settings) (now : ℕ) → Clears (reclaim cfg now)
unfolding reclaim has_token
reclaim-Clears cfg now t j h = ground arith

-- Taking back an expired claim leaves its token to no row.
reclaim_frees :
    (cfg : Settings) (now : ℕ) (t : String) (js : List Job) (j : Job)
    → DistinctTokens js
    → In j js
    → has_token t j ≡ true
    → is_expired cfg now j ≡ true
    → TokenFree t (map (reclaim cfg now) js)
reclaim_frees cfg now t [] j apart m has expired = absurd m
reclaim_frees cfg now t (x ∷ xs) j apart (inl e) has expired = (
  unfold reclaim has_token in rw (subst (λ r. is_expired cfg now r ≡ true) e expired) refl,
  All-map _ (reclaim cfg now) (reclaim-Clears cfg now t) xs
      (holder_alone t x.claim_token x xs refl (subst (λ r. has_token t r ≡ true) e has) apart.0),
)
reclaim_frees cfg now t (x ∷ xs) j apart (inr m) has expired =
    (reclaim-Clears cfg now t x other, reclaim_frees cfg now t xs j apart.1 m has expired)
  where
    other : has_token t x ≡ false
    other = elim (Bool-cases (has_token t x)) [
      | inl both ↦
          let alone =
            All-In (λ (r : Job). has_token t r ≡ false) xs
              (holder_alone t x.claim_token x xs refl both apart.0) m in
          cc alone
      | inr free ↦ free
    ]

-- A void receipt: once the lease of a claim has run out and a `receive` has taken the row back, what
-- the old holder still sends, an acknowledgement or a failure, changes nothing, also if the batch was
-- handed out again in the meantime. The table is valid, and no token that is drawn is the old one.
pub late_signals_void :
    (cfg : Settings) (token : String → String) (now later : ℕ) (db : Db) (j : Job) (old : BuildJob)
    (fails : Bool) (f : NackFaults) (error : String)
    → IsValid cfg db.build_jobs
    → In j db.build_jobs
    → j.claim_token ≡ some old.receipt
    → is_expired cfg now j ≡ true
    → ((id : String) → token id ≢ old.receipt)
    → let after = (received cfg token now db).1 in
      ((ack fails old after).1 ≡ after) × ((nack cfg f later old error after).1 ≡ after)
late_signals_void cfg token now later db j old fails f error v m held expired new = (
  elim (ack-Atomic fails old after) [
    | inl (_, e) ↦ e ∙ acked-TokenFree old after free
    | inr (_, e) ↦ e
  ],
  elim (nack-Atomic cfg f later old error after) [
    | inl (_, e) ↦ e ∙ nacked-TokenFree cfg later old error after free
    | inr (_, e) ↦ e
  ],
)
  where
    after : Db
    after = (received cfg token now db).1

    free : TokenFree old.receipt after.build_jobs
    free = TokenFree-claim_old token now old.receipt (map (reclaim cfg now) db.build_jobs) new (
        reclaim_frees cfg now old.receipt db.build_jobs j v.tokens m
          (unfold has_token in rw held (str_eq_refl old.receipt)) expired)
