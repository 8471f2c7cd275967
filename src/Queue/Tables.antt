-- ===== src/Queue/Tables.antt =====
-- What makes `build_jobs` well formed, and the statements that keep it so: an UPDATE is a map over
-- the rows, a DELETE keeps the rows that it does not name.
use ltsearch.Common.{
  ℕ, ◌<◌, String, Bool, false, Option, none, some, List, [], ◌∷◌, map, keep, All, ◌≡◌, Bool-cases,
  inl, inr,
}
use ltsearch.Sqlite.{Job, JobState, ready, claimed}
use ltsearch.Queue.{Settings, has_token}
use ltsearch.Queue.Rows.{NoJob, DistinctIds, TokenFree, OwnTokenFree, DistinctTokens}

-- A claimed row has its lease and its token; a released one has no lease. Attempts stay below the
-- limit at which a job is buried.
abbrev pub StateFits : JobState → Job → Type 0
StateFits ready j = j.claimed_at ≡ none
StateFits claimed j =
    ((at : ℕ) × (j.claimed_at ≡ some at)) × ((t : String) × (j.claim_token ≡ some t))

abbrev pub RowFits : Settings → Job → Type 0
RowFits cfg j = StateFits j.state j × (j.attempts < cfg.max_attempts)

pub record IsValid (cfg : Settings) (js : List Job) : Type 0 where
  pub ids : DistinctIds js
  pub tokens : DistinctTokens js
  pub rows : All (RowFits cfg) js

-- The random texts of one `receive`: no two batches get the same, and no row has one of them yet.
pub record FreshTokens (token : String → String) (js : List Job) : Type 0 where
  pub apart : (a b : String) → token a ≡ token b → a ≡ b
  pub unused : (id : String) → TokenFree (token id) js

-- Maps that keep the key keep the keys distinct.
pub NoJob-map :
    (f : Job → Job) (same : (j : Job) → (f j).batch_id ≡ j.batch_id) (id : String) (js : List Job)
    → NoJob id js
    → NoJob id (map f js)
NoJob-map f same id [] h = tt
NoJob-map f same id (j ∷ js) h = (rw (same j) h.0, NoJob-map f same id js h.1)

pub DistinctIds-map :
    (f : Job → Job) (same : (j : Job) → (f j).batch_id ≡ j.batch_id) (js : List Job)
    → DistinctIds js
    → DistinctIds (map f js)
DistinctIds-map f same [] h = tt
DistinctIds-map f same (j ∷ js) h =
    (rw (same j) (NoJob-map f same j.batch_id js h.0), DistinctIds-map f same js h.1)

pub All-map {κ} :
    (P : Job → Type κ) (f : Job → Job) (fits : (j : Job) → P j → P (f j)) (js : List Job)
    → All P js
    → All P (map f js)
All-map P f fits [] h = tt
All-map P f fits (j ∷ js) h = (fits j h.0, All-map P f fits js h.1)

pub All-keep {κ} :
    (P : Job → Type κ) (p : Job → Bool) (js : List Job) → All P js → All P (keep p js)
All-keep P p [] h = tt
All-keep P p (j ∷ js) h = elim (Bool-cases (p j)) [
  | inl e ↦ rw e (h.0, All-keep P p js h.1)
  | inr e ↦ rw e (All-keep P p js h.1)
]

DistinctIds-keep : (p : Job → Bool) (js : List Job) → DistinctIds js → DistinctIds (keep p js)
DistinctIds-keep p [] h = tt
DistinctIds-keep p (j ∷ js) h = elim (Bool-cases (p j)) [
  | inl e ↦ rw e (All-keep _ p js h.0, DistinctIds-keep p js h.1)
  | inr e ↦ rw e (DistinctIds-keep p js h.1)
]

OwnTokenFree-keep :
    (p : Job → Bool) (o : Option String) (js : List Job)
    → OwnTokenFree o js
    → OwnTokenFree o (keep p js)
OwnTokenFree-keep p none js h = tt
OwnTokenFree-keep p (some t) js h = All-keep _ p js h

DistinctTokens-keep :
    (p : Job → Bool) (js : List Job) → DistinctTokens js → DistinctTokens (keep p js)
DistinctTokens-keep p [] h = tt
DistinctTokens-keep p (j ∷ js) h = elim (Bool-cases (p j)) [
  | inl e ↦ rw e (OwnTokenFree-keep p j.claim_token js h.0, DistinctTokens-keep p js h.1)
  | inr e ↦ rw e (DistinctTokens-keep p js h.1)
]

pub keep-IsValid :
    (cfg : Settings) (p : Job → Bool) (js : List Job) → IsValid cfg js → IsValid cfg (keep p js)
keep-IsValid cfg p js v = record {
  ids = DistinctIds-keep p js v.ids;
  tokens = DistinctTokens-keep p js v.tokens;
  rows = All-keep _ p js v.rows;
}

-- Maps that keep or clear a token keep the tokens distinct.
abbrev pub Clears : (Job → Job) → Type 0
Clears f = (t : String) (j : Job) → has_token t j ≡ false → has_token t (f j) ≡ false

abbrev pub KeepsOrClears : (Job → Job) → Type 0
KeepsOrClears f =
    (j : Job) (js : List Job) → OwnTokenFree j.claim_token js → OwnTokenFree (f j).claim_token js

OwnTokenFree-map :
    (f : Job → Job)
    → Clears f
    → (o : Option String) (js : List Job) → OwnTokenFree o js
    → OwnTokenFree o (map f js)
OwnTokenFree-map f c none js h = tt
OwnTokenFree-map f c (some t) js h = All-map _ f (c t) js h

pub DistinctTokens-map :
    (f : Job → Job)
    → Clears f
    → KeepsOrClears f
    → (js : List Job) → DistinctTokens js
    → DistinctTokens (map f js)
DistinctTokens-map f c k [] h = tt
DistinctTokens-map f c k (j ∷ js) h =
    (k j (map f js) (OwnTokenFree-map f c j.claim_token js h.0), DistinctTokens-map f c k js h.1)
