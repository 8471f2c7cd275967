-- ===== src/Queue/Rows.antt =====
-- The rows of `build_jobs` by primary key and by claim token: what each statement of the queue does
-- to the row of one batch.
use mathlib.Core.Option
use ltsearch.Common.{
  String, Bool, true, false, Option, none, some, List, [], ◌∷◌, map, keep, All, ◌≡◌, refl, ◌≢◌,
  arith, str_eq, str_eq_iff, if◌then◌else◌,
}
use ltsearch.Sqlite.{Job, ready, DeadJob}
use ltsearch.Queue.{upsert_job, has_token}

unfoldable pub find_job : String → List Job → Option Job
find_job id [] = none
find_job id (j ∷ js) = if str_eq j.batch_id id then some j else find_job id js

unfoldable pub find_dead : String → List DeadJob → Option DeadJob
find_dead id [] = none
find_dead id (d ∷ ds) = if str_eq d.batch_id id then some d else find_dead id ds

-- No row has the key.
abbrev pub NoJob : String → List Job → Type 0
NoJob id = All (λ j. j.batch_id ≢ id)

abbrev pub DistinctIds : List Job → Type 0
DistinctIds [] = Unit
DistinctIds (j ∷ js) = NoJob j.batch_id js × DistinctIds js

-- No row has the token.
abbrev pub TokenFree : String → List Job → Type 0
TokenFree t = All (λ j. has_token t j ≡ false)

abbrev pub OwnTokenFree : Option String → List Job → Type 0
OwnTokenFree none js = Unit
OwnTokenFree (some t) js = TokenFree t js

abbrev pub DistinctTokens : List Job → Type 0
DistinctTokens [] = Unit
DistinctTokens (j ∷ js) = OwnTokenFree j.claim_token js × DistinctTokens js

abbrev pub fresh_job : String → String → Job
fresh_job id body = record {
  batch_id = id;
  body = body;
  state = ready;
  attempts = 0;
  available_at = 0;
  claimed_at = none;
  claim_token = none;
}

abbrev pub reset_job : String → Job → Job
reset_job body j = record j {
  body = body;
  state = ready;
  attempts = 0;
  available_at = 0;
  claimed_at = none;
}

abbrev pub or_fresh : String → String → Option Job → Job
or_fresh id body none = fresh_job id body
or_fresh id body (some j) = reset_job body j

pub find_job-map :
    (f : Job → Job) (same : (j : Job) → (f j).batch_id ≡ j.batch_id) (id : String) (js : List Job)
    → find_job id (map f js) ≡ Option.map f (find_job id js)
unfolding find_job
find_job-map f same id [] = refl
find_job-map f same id (j ∷ js) = ground (arith, same j, find_job-map f same id js)

pub find_job-batch_id :
    (id : String) (js : List Job) {j : Job} → find_job id js ≡ some j → j.batch_id ≡ id
unfolding find_job
find_job-batch_id id [] e = cc
find_job-batch_id id (k ∷ js) {j} e =
    ground (arith, find_job-batch_id id js {j = j}, str_eq_iff k.batch_id id)

pub find_job-keep :
    (p : Job → Bool) (id : String) (js : List Job) {j : Job}
    → find_job id js ≡ some j
    → p j ≡ true
    → find_job id (keep p js) ≡ some j
unfolding find_job
find_job-keep p id [] e h = cc
find_job-keep p id (k ∷ js) {j} e h = ground (arith, find_job-keep p id js {j = j})

pub find_job-upsert_self :
    (id body : String) (js : List Job)
    → find_job id (upsert_job id body js) ≡ some (or_fresh id body (find_job id js))
unfolding find_job upsert_job
find_job-upsert_self id body [] = ground (arith, str_eq_iff id id)
find_job-upsert_self id body (k ∷ js) =
    ground (arith, find_job-upsert_self id body js, str_eq_iff k.batch_id id)

pub find_job-upsert_ne :
    (id other body : String) (js : List Job)
    → id ≢ other
    → find_job other (upsert_job id body js) ≡ find_job other js
unfolding find_job upsert_job
find_job-upsert_ne id other body [] h = ground (arith, str_eq_iff id other)
find_job-upsert_ne id other body (k ∷ js) h = ground (
  arith,
  find_job-upsert_ne id other body js,
  str_eq_iff k.batch_id id,
  str_eq_iff k.batch_id other,
)
