-- ===== src/BuildWorker/Builds.antt =====
-- A message that was processed: the build behind its version.
use ltsearch.Common.{
  ℕ, String, Option, List, ok, err, Result, ◌≡◌, refl, ◌∙◌, inl, inr, Bool-cases, arith,
}
use ltsearch.Common.Outcome.{map_err}
use ltsearch.Head.{Json}
use ltsearch.Storage.{PublishStorage}
use ltsearch.BuildWorker.{
  QueueBuildMessage, BuildLambdaError, Services, next_version_id, snapshot_wal_keys, build_request,
  failure_text, is_publish_cas_conflict, process_queue_message, parsed, with_dim, snapshot_of,
  build_from, after_build, retry_from,
}

module _ {S : Type 0} (storage : PublishStorage S) (json : Json) (services : Services S) where
  -- A build that returned the version `result` and left the state `last`: the version that it asked for
  -- and the one that it expected were taken from the pointer in the state in which it started.
  pub record IsBuild (message : QueueBuildMessage) (wal_keys : List String) (dim : ℕ) (result : ℕ)
      (last : S) : Type 0 where
    pub at : S
    pub version : ℕ
    pub expected : Option ℕ
    pub taken : next_version_id storage json at ≡ ok (version, expected)
    pub built :
        services.run_build
          (build_request storage json services message wal_keys version dim)
          expected
          at
        ≡ (ok result, last)

  outcome_kept :
      (p : Result BuildLambdaError ℕ × S) {result : ℕ} {last : S}
      → ◌≡◌ {A = Result String ℕ × S}
          (map_err (failure_text storage json services) p.0, p.1)
          (ok result, last)
      → p ≡ (ok result, last)
  outcome_kept (ok v, s) h = ground (arith, h)
  outcome_kept (err e, s) h = absurd (ground (arith, h))

  built_version :
      (v result : ℕ) (t last : S)
      → ◌≡◌ {A = Result String ℕ × S} (ok v, t) (ok result, last)
      → ◌≡◌ {A = Result BuildLambdaError ℕ × S} (ok v, t) (ok result, last)
  built_version v result t last h = ground (arith, h)

  retry_from-IsBuild :
      (message : QueueBuildMessage) (wal_keys : List String) (dim : ℕ) (s : S)
      (next : Result String (ℕ × Option ℕ)) {result : ℕ} {last : S}
      → next_version_id storage json s ≡ next
      → retry_from storage json services message wal_keys dim next s ≡ (ok result, last)
      → IsBuild message wal_keys dim result last
  retry_from-IsBuild message wal_keys dim s (err e) n h = absurd (ground (arith, h))
  retry_from-IsBuild message wal_keys dim s (ok (version, expected)) n h = record {
    at = s;
    version = version;
    expected = expected;
    taken = n;
    built =
        outcome_kept
          (services.run_build (build_request storage json services message wal_keys version dim)
            expected s)
          h;
  }

  after_build-IsBuild :
      (message : QueueBuildMessage) (wal_keys : List String) (dim version : ℕ) (expected : Option ℕ)
      (s : S) (first : Result BuildLambdaError ℕ × S) {result : ℕ} {last : S}
      → next_version_id storage json s ≡ ok (version, expected)
      → services.run_build
          (build_request storage json services message wal_keys version dim)
          expected
          s
        ≡ first
      → after_build storage json services message wal_keys dim first ≡ (ok result, last)
      → IsBuild message wal_keys dim result last
  after_build-IsBuild message wal_keys dim version expected s (ok v, t) {result} {last} n b h =
      record {
        at = s;
        version = version;
        expected = expected;
        taken = n;
        built = b ∙ built_version v result t last h;
      }
  after_build-IsBuild message wal_keys dim version expected s (err e, t) n b h =
      elim (Bool-cases (is_publish_cas_conflict storage json services e)) [
        | inl conflict ↦
            retry_from-IsBuild message wal_keys dim t (next_version_id storage json t) refl
              (rw conflict at h)
        | inr other ↦ absurd (ground (arith, rw other at h))
      ]

  build_from-IsBuild :
      (message : QueueBuildMessage) (wal_keys : List String) (dim : ℕ) (s : S)
      (next : Result String (ℕ × Option ℕ)) {result : ℕ} {last : S}
      → next_version_id storage json s ≡ next
      → build_from storage json services message wal_keys dim next s ≡ (ok result, last)
      → IsBuild message wal_keys dim result last
  build_from-IsBuild message wal_keys dim s (err e) n h = absurd (ground (arith, h))
  build_from-IsBuild message wal_keys dim s (ok (version, expected)) n h =
      after_build-IsBuild message wal_keys dim version expected s _ n refl h

  -- The version of a processed message: that of a build of this message.
  pub record IsProcessed (body : String) (s : S) (result : ℕ) (last : S) : Type 0 where
    pub message : QueueBuildMessage
    pub listed : List String
    pub dim : ℕ
    pub of_body : services.parse_message body ≡ ok message
    pub of_log : services.list_wal_keys s ≡ ok listed
    pub build : IsBuild message (snapshot_wal_keys listed message.wal_key) dim result last

  snapshot_of-IsProcessed :
      (body : String) (s : S) (message : QueueBuildMessage) (dim : ℕ)
      (listing : Result String (List String)) {result : ℕ} {last : S}
      → services.parse_message body ≡ ok message
      → services.list_wal_keys s ≡ listing
      → snapshot_of storage json services s message dim listing ≡ (ok result, last)
      → IsProcessed body s result last
  snapshot_of-IsProcessed body s message dim (err e) p l h = absurd (ground (arith, h))
  snapshot_of-IsProcessed body s message dim (ok listed) p l h = record {
    message = message;
    listed = listed;
    dim = dim;
    of_body = p;
    of_log = l;
    build = build_from-IsBuild message (snapshot_wal_keys listed message.wal_key) dim s _ refl h;
  }

  with_dim-IsProcessed :
      (body : String) (s : S) (message : QueueBuildMessage) (dim : Result String ℕ) {result : ℕ}
      {last : S}
      → services.parse_message body ≡ ok message
      → with_dim storage json services s message dim ≡ (ok result, last)
      → IsProcessed body s result last
  with_dim-IsProcessed body s message (err e) p h = absurd (ground (arith, h))
  with_dim-IsProcessed body s message (ok dim) p h =
      snapshot_of-IsProcessed body s message dim _ p refl h

  parsed-IsProcessed :
      (body : String) (s : S) (message : Result String QueueBuildMessage) {result : ℕ} {last : S}
      → services.parse_message body ≡ message
      → parsed storage json services s message ≡ (ok result, last)
      → IsProcessed body s result last
  parsed-IsProcessed body s (err e) p h = absurd (ground (arith, h))
  parsed-IsProcessed body s (ok message) p h = with_dim-IsProcessed body s message _ p h

  -- A message that is processed with a version is so by a build of that message over the listed log, and
  -- the version that the build asked for, and the one that it expected to be active, were taken from the
  -- pointer in the very state in which the build started; also if it is the second build, after a conflict.
  pub process_queue_message-IsProcessed :
      (body : String) (s : S) {result : ℕ} {last : S}
      → process_queue_message storage json services body s ≡ (ok result, last)
      → IsProcessed body s result last
  unfolding process_queue_message
  process_queue_message-IsProcessed body s h = parsed-IsProcessed body s _ refl h
