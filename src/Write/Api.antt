-- ===== src/Write/Api.antt =====
-- src/write/api.rs: the write API over a log and a queue. The clock's time and the random part of a
-- batch's name are arguments.
use Prim.Native.String.{◌++◌ as joined}
use ltsearch.Common.{
  ℕ, suc, ◌+◌, String, Bool, true, false, not, Option, none, some, List, [], ◌∷◌, ◌++◌, map, Result,
  ok, err, length, leb,
}
use ltsearch.Common.Outcome.{guard, map_err, ok_or, each, ◌>>=◌, ◌>>◌}
use ltsearch.Common.Signed.{ℤ, at_least}
use ltsearch.Common.Text.{is_empty, byte_len, padded}
use ltsearch.Errors.{IngestError, validation, required, length_out_of_range, invalid_value}
use ltsearch.Sqlite.{Bytes}
use ltsearch.Queue.{QueueBatch}
use ltsearch.Write.{Document, WalRecord, upsert, delete, Values, validate_document, validate_record}
use ltsearch.Write.Wal.{segment_key}

pub record IngestResponse : Type 0 where
  pub accepted_count : ℕ
  pub wal_event_ids : List String
  pub batch_id : String
  pub wal_key : String

pub record DeleteResponse : Type 0 where
  pub accepted_count : ℕ
  pub wal_event_ids : List String
  pub batch_id : String
  pub wal_key : String

unfoldable pub event_id : String → ℕ → String
unfolding padded
event_id batch_id index = joined batch_id (joined "-" (padded 6 (index + 1)))

unfoldable pub validate_timestamp : ℤ → Result IngestError (Unit {0})
validate_timestamp timestamp =
    guard (at_least 1_000_000_000_000 timestamp) (validation (invalid_value "timestamp"))

unfoldable pub validate_doc_id : String → Result IngestError (Unit {0})
unfolding byte_len
validate_doc_id doc_id = do
  guard (not (is_empty doc_id)) (validation (required "doc_id"))
  guard (leb (byte_len doc_id) 256) (validation (length_out_of_range "doc_id" 1 256))

unfoldable pub next_batch_id : String → String
next_batch_id uuid = joined "batch-" uuid

abbrev pub is_nil : {A : Type 0} → List A → Bool
is_nil [] = true
is_nil (x ∷ xs) = false

module _ {F M : Type 0} where
  -- The records of the documents from `index` on (`enumerate`).
  unfoldable pub upsert_records : String → ℤ → ℕ → List (Document F M) → List (WalRecord F M)
  unfolding event_id
  upsert_records batch_id timestamp index [] = []
  upsert_records batch_id timestamp index (d ∷ documents) =
      record {
        event_id = event_id batch_id index;
        doc_id = d.doc_id;
        op = upsert;
        document = some d;
        timestamp = timestamp;
      }
      ∷ upsert_records batch_id timestamp (suc index) documents

  unfoldable pub delete_records : String → ℤ → ℕ → List String → List (WalRecord F M)
  unfolding event_id
  delete_records batch_id timestamp index [] = []
  delete_records batch_id timestamp index (id ∷ doc_ids) =
      record {
        event_id = event_id batch_id index;
        doc_id = id;
        op = delete;
        document = none;
        timestamp = timestamp;
      }
      ∷ delete_records batch_id timestamp (suc index) doc_ids

  abbrev pub event_ids : List (WalRecord F M) → List String
  event_ids records = map (λ (r : WalRecord F M). r.event_id) records

-- A call of the log or the queue: its result, and the state that it leaves.
abbrev pub Call : Type 0 → Type 0 → Type 0
Call S A = S → Result IngestError A × S

module _ {S A B : Type 0} where
  -- `?` on the result of a call, and `?` on a value before one.
  abbrev pub and_call : Result IngestError A → (A → Call S B) → Call S B
  and_call (err e) next s = (err e, s)
  and_call (ok a) next s = next a s

  abbrev pub after_call : Call S A → (A → Call S B) → Call S B
  after_call first next s = let (r, after) = first s in and_call r next after

-- The default `BuildQueue::append_and_enqueue`: the log first, then the queue.
unfoldable pub append_then_enqueue :
    {S : Type 0}
    → (String → Bytes → Call S (Unit {0}))
    → (QueueBatch → Call S (Unit {0}))
    → String
    → Bytes
    → QueueBatch
    → Call S (Unit {0})
append_then_enqueue append_bytes enqueue key bytes batch =
    after_call (append_bytes key bytes) (λ _ s.
      let (r, after) = enqueue batch s in
      (map_err (λ _. IngestError.operation "wal_persisted=true") r, after))

-- serde_json on a record.
module _ {F M : Type 0} (values : Values F M) (to_json : WalRecord F M → Option Bytes) where
  unfoldable pub serialize_records : List (WalRecord F M) → Result IngestError Bytes
  unfolding validate_record
  serialize_records [] = ok []
  serialize_records (r ∷ records) = do
    map_err validation (validate_record values r)
    line ← ok_or (to_json r) (IngestError.operation "record")
    rest ← serialize_records records
    ok (line ++ 10 ∷ rest)

module _ {F M : Type 0} where
  abbrev pub batch_of : String → String → List (WalRecord F M) → QueueBatch
  batch_of batch_id wal_key records = record {
    batch_id = batch_id;
    wal_key = wal_key;
    accepted_count = length records;
    wal_event_ids = event_ids records;
  }

module _ {F M : Type 0} (values : Values F M) where
  -- The checks of `ingest` before its first call, and the key.
  unfoldable pub check_ingest : ℤ → String → List (Document F M) → Result IngestError String
  unfolding validate_document validate_timestamp segment_key each
  check_ingest now batch_id documents = do
    guard (not (is_nil documents)) (validation (required "documents"))
    map_err validation (each (validate_document values) documents)
    validate_timestamp now
    segment_key now batch_id

unfoldable pub check_delete : ℤ → String → List String → Result IngestError String
unfolding validate_doc_id validate_timestamp segment_key each
check_delete now batch_id doc_ids = do
  guard (not (is_nil doc_ids)) (validation (required "doc_ids"))
  each validate_doc_id doc_ids
  validate_timestamp now
  segment_key now batch_id

-- The queue's `append_and_enqueue`.
module _ {F M S : Type 0} (values : Values F M) (to_json : WalRecord F M → Option Bytes)
    (append_and_enqueue : String → Bytes → QueueBatch → Call S (Unit {0})) where
  unfoldable pub write_records : String → String → List (WalRecord F M) → Call S (Unit {0})
  unfolding serialize_records
  write_records batch_id wal_key records =
      and_call (serialize_records values to_json records)
        (λ bytes. append_and_enqueue wal_key bytes (batch_of batch_id wal_key records))

  unfoldable pub ingest : ℤ → String → List (Document F M) → Call S IngestResponse
  unfolding check_ingest write_records upsert_records next_batch_id
  ingest now uuid documents =
      let batch_id = next_batch_id uuid in
      let records = upsert_records batch_id now 0 documents in
      and_call (check_ingest values now batch_id documents) (λ wal_key.
        after_call (write_records batch_id wal_key records) (λ _ s. (
          ok (record {
            accepted_count = length records;
            wal_event_ids = event_ids records;
            batch_id = batch_id;
            wal_key = wal_key;
          }),
          s,
        )))

  unfoldable pub delete_documents : ℤ → String → List String → Call S DeleteResponse
  unfolding check_delete write_records delete_records next_batch_id
  delete_documents now uuid doc_ids =
      let batch_id = next_batch_id uuid in
      let records = delete_records batch_id now 0 doc_ids in
      and_call (check_delete now batch_id doc_ids) (λ wal_key.
        after_call (write_records batch_id wal_key records) (λ _ s. (
          ok (record {
            accepted_count = length records;
            wal_event_ids = event_ids records;
            batch_id = batch_id;
            wal_key = wal_key;
          }),
          s,
        )))
