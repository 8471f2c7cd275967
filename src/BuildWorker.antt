-- ===== src/BuildWorker.antt =====
-- src/build_worker.rs: the worker that takes build jobs from a source, gives each the next version, runs
-- its build and signals the outcome. `run_build`, the listing of the log and the parsing of a message
-- are parameters.
pub mod Keys
pub mod Versions
pub mod Signals
pub mod Builds
mod Tests
use Prim.Native.String.{◌++◌ as joined}
use ltsearch.Common.{
  ℕ, suc, ◌+◌, ◌%◌, ◌^◌, String, Bool, true, false, Option, none, some, List, [], ◌∷◌, ◌++◌, ok,
  err, Result, ◌&&◌, str_eq, if◌then◌else◌,
}
use ltsearch.Common.Outcome.{map_err, ◌>>=◌}
use ltsearch.Errors.{PublishError}
use ltsearch.Head.{ManifestHead, Json, index_head_key, from_json}
use ltsearch.Storage.{PublishStorage, VersionedObject}
use ltsearch.Queue.{BuildJob}
use ltsearch.Query.Ranker.{str_less}

pub record QueueBuildMessage : Type 0 where
  pub batch_id : String
  pub wal_key : String

pub record SnapshotBuildRequest : Type 0 where
  pub batch_id : String
  pub wal_keys : List String
  pub version_id : ℕ
  pub embedding_dim : ℕ

-- `listed.iter().any(|key| key == message_wal_key)`
unfoldable pub contains : String → List String → Bool
contains key [] = false
contains key (k ∷ keys) = if str_eq k key then true else contains key keys

unfoldable pub insert_key : String → List String → List String
insert_key key [] = key ∷ []
insert_key key (k ∷ keys) =
    let later = insert_key key keys in if str_less k key then k ∷ later else key ∷ k ∷ keys

-- `sort()`
unfoldable pub sort_keys : List String → List String
unfolding insert_key
sort_keys [] = []
sort_keys (k ∷ keys) = insert_key k (sort_keys keys)

unfoldable pub skip_same : String → List String → List String
skip_same key [] = key ∷ []
skip_same key (k ∷ keys) =
    let same = skip_same key keys in
    let other = skip_same k keys in if str_eq key k then same else key ∷ other

-- `dedup()`: of equal neighbours the first stays.
unfoldable pub dedup : List String → List String
unfolding skip_same
dedup [] = []
dedup (k ∷ keys) = skip_same k keys

-- `if !contains { listed.push(key) }`
abbrev pub with_message : String → List String → List String
with_message key listed = if contains key listed then listed else listed ++ key ∷ []

unfoldable pub snapshot_wal_keys : List String → String → List String
unfolding contains sort_keys dedup
snapshot_wal_keys listed message_wal_key = dedup (sort_keys (with_message message_wal_key listed))

-- The next version, a `u64`, and the version that must still be active when it is published.
unfoldable pub version_after : Option ManifestHead → ℕ × Option ℕ
version_after none = (1, none)
version_after (some head) = ((head.version_id + 1) % 2 ^ 64, some head.version_id)

unfoldable pub after_object : Json → Option VersionedObject → Result String (ℕ × Option ℕ)
unfolding version_after
after_object json none = ok (version_after none)
after_object json (some object) =
    map_err (λ _. "failed to parse index head") (from_json json object.bytes) >>= λ head.
    ok (version_after (some head))

module _ {S : Type 0} (storage : PublishStorage S) (json : Json) where
  unfoldable pub next_version_id : S → Result String (ℕ × Option ℕ)
  unfolding after_object
  next_version_id s =
      map_err (λ _. "failed to read index head") (storage.read index_head_key s)
      >>= after_object json

-- `BuildLambdaError`
pub record BuildLambdaError : Type 0 where
  pub error_type : String
  pub message : String

-- What the worker calls: the parser of messages, the setting of the environment, the listing of the
-- log, `run_build`, `str::contains`, and the texts of errors.
pub record Services (S : Type 0) : Type 0 where
  pub parse_message : String → Result String QueueBuildMessage
  pub embedding_dim : Result String ℕ
  pub list_wal_keys : S → Result String (List String)
  pub run_build : SnapshotBuildRequest → Option ℕ → S → Result BuildLambdaError ℕ × S
  pub has_text : String → String → Bool

module _ {S : Type 0} (storage : PublishStorage S) (json : Json) (services : Services S) where
  abbrev pub is_publish_cas_conflict : BuildLambdaError → Bool
  is_publish_cas_conflict e =
      str_eq e.error_type "publish_error" && services.has_text "publish conflict" e.message

  abbrev pub build_request : QueueBuildMessage → List String → ℕ → ℕ → SnapshotBuildRequest
  build_request message wal_keys version_id dim = record {
    batch_id = message.batch_id;
    wal_keys = wal_keys;
    version_id = version_id;
    embedding_dim = dim;
  }

  -- `format!("{}: {}", error.error_type, error.message)`
  abbrev pub failure_text : BuildLambdaError → String
  failure_text e = joined e.error_type (joined ": " e.message)

  -- The second build after a conflict: its outcome is final.
  abbrev retry_from :
      QueueBuildMessage → List String → ℕ → Result String (ℕ × Option ℕ) → S → Result String ℕ × S
  retry_from message wal_keys dim (err e) s = (err e, s)
  retry_from message wal_keys dim (ok (version, expected)) s =
      let (r, s') = services.run_build (build_request message wal_keys version dim) expected s in
      (map_err failure_text r, s')

  -- What follows the first build.
  abbrev after_build :
      QueueBuildMessage → List String → ℕ → Result BuildLambdaError ℕ × S → Result String ℕ × S
  after_build message wal_keys dim (ok version, s) = (ok version, s)
  after_build message wal_keys dim (err e, s) =
      let again = retry_from message wal_keys dim (next_version_id storage json s) s in
      if is_publish_cas_conflict e then again else (err (failure_text e), s)

  abbrev build_from :
      QueueBuildMessage → List String → ℕ → Result String (ℕ × Option ℕ) → S → Result String ℕ × S
  build_from message wal_keys dim (err e) s = (err e, s)
  build_from message wal_keys dim (ok (version, expected)) s =
      after_build message wal_keys dim
        (services.run_build (build_request message wal_keys version dim) expected s)

  abbrev snapshot_of : S → QueueBuildMessage → ℕ → Result String (List String) → Result String ℕ × S
  snapshot_of s message dim (err e) = (err e, s)
  snapshot_of s message dim (ok listed) =
      build_from message (snapshot_wal_keys listed message.wal_key) dim
        (next_version_id storage json s) s

  abbrev with_dim : S → QueueBuildMessage → Result String ℕ → Result String ℕ × S
  with_dim s message (err e) = (err e, s)
  with_dim s message (ok dim) = snapshot_of s message dim (services.list_wal_keys s)

  abbrev parsed : S → Result String QueueBuildMessage → Result String ℕ × S
  parsed s (err e) = (err e, s)
  parsed s (ok message) = with_dim s message services.embedding_dim

  unfoldable pub process_queue_message : String → S → Result String ℕ × S
  process_queue_message body s = parsed s (services.parse_message body)

-- `BuildJobSource`, over a state of its own.
pub record BuildJobSource (T : Type 0) : Type 0 where
  pub receive : T → Result String (List BuildJob) × T
  pub ack : BuildJob → T → Result String (Unit {0}) × T
  pub nack : BuildJob → String → T → Result String (Unit {0}) × T

abbrev pub settled_more : Result String (Unit {0}) → ℕ
settled_more (ok u) = 1
settled_more (err e) = 0

-- The default `nack` of the trait, which is `ack`, for a source that has none of its own.
abbrev pub with_default_nack : {T : Type 0} → BuildJobSource T → BuildJobSource T
with_default_nack source = record source { nack = λ job error. source.ack job }

module _ {S T : Type 0} (source : BuildJobSource T)
    (process : String → S → Result String ℕ × S) where
  -- The signal for one outcome.
  abbrev pub signal : BuildJob → Result String ℕ → T → Result String (Unit {0}) × T
  signal job (ok version) t = source.ack job t
  signal job (err e) t = source.nack job e t

  -- `for job in jobs { … }`, with the number of signals that went through
  unfoldable pub run_jobs : List BuildJob → S × T → ℕ × (S × T)
  run_jobs [] (s, t) = (0, (s, t))
  run_jobs (job ∷ jobs) (s, t) =
      let (outcome, s') = process job.body s in
      let (sent, t') = signal job outcome t in
      let (n, states) = run_jobs jobs (s', t') in (settled_more sent + n, states)

  abbrev received_jobs : S → Result String (List BuildJob) × T → ℕ × (S × T)
  received_jobs s (err e, t) = (0, (s, t))
  received_jobs s (ok jobs, t) = run_jobs jobs (s, t)

  unfoldable pub run_build_job_loop_once : S × T → ℕ × (S × T)
  unfolding run_jobs
  run_build_job_loop_once (s, t) = received_jobs s (source.receive t)
