-- ===== src/Write/Accepted.antt =====
-- What a write that was accepted has done, in the local profile: the API over the SQLite queue.

use text.Mathlib.TextLemmas.{append_cancel_left}
use ltsearch.Common.{
  ℕ, suc, ◌+◌, ◌<◌, ◌≡◌, ◌⊎◌, refl, sym, ap, subst, ◌∙◌, String, Bool, true, false, Option, none,
  some, List, [], ◌∷◌, map, Result, ok, is_err, In, All, Distinct, arith, inl, inr, length,
  length-map,
}
use ltsearch.Common.Outcome.{Result-cases, each}
use ltsearch.Common.Signed.{ℤ}
use ltsearch.Common.Text.{padded-injective}
use ltsearch.Errors.{IngestError}
use ltsearch.Sqlite.{Bytes, Db}
use ltsearch.Queue.{
  QueueBatch, WalHandle, EnqueueFaults, append_and_enqueue, append_wal_segment, insert_build_job,
}
use ltsearch.Queue.Atomicity.{append_and_enqueue-Atomic}
use ltsearch.Write.{Document, WalRecord, Values, validate_document}
use ltsearch.Write.Api.{
  IngestResponse, event_id, next_batch_id, upsert_records, event_ids, serialize_records, batch_of,
  write_records, check_ingest, ingest,
}
use ltsearch.Write.Log.{find_segment, wal_read, read}
use ltsearch.Write.Log.RoundTrip.{
  IsJson, read_records-serialize_records, find_segment-append_segment,
}

event_id-injective : (b : String) (m n : ℕ) → event_id b m ≡ event_id b n → m ≡ n
unfolding event_id
event_id-injective b m n e = omega (
  arith,
  padded-injective 6 (m + 1) (n + 1) (append_cancel_left "-" _ _ (append_cancel_left b _ _ e)),
)

each-ok :
    {E A : Type 0} (check : A → Result E (Unit {0})) (xs : List A)
    → each check xs ≡ ok tt
    → All (λ x. check x ≡ ok tt) xs
unfolding each
each-ok check [] h = tt
each-ok check (x ∷ xs) h = elim (Result-cases (check x)) [
  | inr (e, bad) ↦ absurd (ground (arith, h, bad))
  | inl (tt, good) ↦ (good, each-ok check xs (ground (arith, h, good)))
]

module _ {F M : Type 0} (batch_id : String) (timestamp : ℤ) where
  upsert_records-later :
      (index n : ℕ) (documents : List (Document F M))
      → n < index
      → ¬ In (event_id batch_id n) (event_ids (upsert_records batch_id timestamp index documents))
  unfolding upsert_records
  upsert_records-later index n [] before m = m
  upsert_records-later index n (d ∷ documents) before (inl e) =
      omega (arith, before, event_id-injective batch_id n index e)
  upsert_records-later index n (d ∷ documents) before (inr m) =
      upsert_records-later (suc index) n documents (omega (arith, before)) m

  -- No two events of a batch have the same identity.
  pub upsert_records-Distinct :
      (index : ℕ) (documents : List (Document F M))
      → Distinct (event_ids (upsert_records batch_id timestamp index documents))
  unfolding upsert_records
  upsert_records-Distinct index [] = tt
  upsert_records-Distinct index (d ∷ documents) = (
    upsert_records-later (suc index) index documents (omega arith),
    upsert_records-Distinct (suc index) documents,
  )

  -- One record for each document, in their order.
  pub upsert_records-documents :
      (index : ℕ) (documents : List (Document F M))
      → map (λ (r : WalRecord F M). r.document) (upsert_records batch_id timestamp index documents)
        ≡ map some documents
  unfolding upsert_records
  upsert_records-documents index [] = refl
  upsert_records-documents index (d ∷ documents) =
      ap (λ t. some d ∷ t) (upsert_records-documents (suc index) documents)

same_value : {A : Type 0} {a b : A} (r : Result IngestError A) → r ≡ ok a → r ≡ ok b → a ≡ b
same_value r h k = ground (arith, h, k)

not_failed : {A : Type 0} {a : A} {r : Result IngestError A} → r ≡ ok a → is_err r ≡ true → ⊥
not_failed h k = ground (arith, h, k)

module _ {F M : Type 0} (values : Values F M) (to_json : WalRecord F M → Option Bytes) (own : ℕ)
    (print : QueueBatch → String) (f : EnqueueFaults) (wal : WalHandle) (now : ℤ) (uuid : String)
    (documents : List (Document F M)) where
  abbrev pub batch_id : String
  batch_id = next_batch_id uuid

  abbrev pub records : List (WalRecord F M)
  records = upsert_records batch_id now 0 documents

  abbrev pub ingested : Db → Result IngestError IngestResponse × Db
  ingested db = ingest values to_json (append_and_enqueue own print f wal) now uuid documents db

  -- The records of the documents and the job of the batch are in the tables, and the response names
  -- them.
  abbrev pub IsIngested : Db → IngestResponse → Db → Type 0
  IsIngested db response after =
      (bytes : Bytes) × (serialize_records values to_json records ≡ ok bytes)
      × (after
          ≡ insert_build_job response.batch_id
              (print (batch_of response.batch_id response.wal_key records))
              (append_wal_segment response.wal_key bytes db))
      × (response.batch_id ≡ batch_id)
      × (response.wal_event_ids ≡ event_ids records)
      × (response.accepted_count ≡ length documents)
      × All (λ d. validate_document values d ≡ ok tt) documents

  check_ingest-ok :
      (key : String)
      → check_ingest values now batch_id documents ≡ ok key
      → All (λ d. validate_document values d ≡ ok tt) documents
  unfolding check_ingest
  check_ingest-ok key e = elim (Result-cases (each (validate_document values) documents)) [
    | inr (f, bad) ↦ absurd (ground (arith, e, bad))
    | inl (tt, good) ↦ each-ok (validate_document values) documents good
  ]

  length-records : length records ≡ length documents
  length-records =
      sym (length-map (λ (r : WalRecord F M). r.document) records)
      ∙ ap length (upsert_records-documents batch_id now 0 documents)
      ∙ length-map some documents

  -- An ingest is accepted with everything in the tables, and its documents are valid, or it fails and
  -- leaves the tables as they are.
  pub ingest-exact :
      (db : Db)
      → ((response : IngestResponse) × ((ingested db).0 ≡ ok response)
          × IsIngested db response (ingested db).1)
        ⊎ ((is_err (ingested db).0 ≡ true) × ((ingested db).1 ≡ db))
  unfolding ingest write_records
  ingest-exact db = elim (Result-cases (check_ingest values now batch_id documents)) [
    | inr (e, bad) ↦ inr (ground (arith, bad))
    | inl (key, good) ↦ elim (Result-cases (serialize_records values to_json records)) [
      | inr (e, bad) ↦ inr (ground (arith, good, bad))
      | inl (bytes, printed) ↦
          elim (append_and_enqueue-Atomic own print f wal key bytes (batch_of batch_id key records)
            db) [
              | inl (done, after) ↦ inl (
                record {
                  accepted_count = length records;
                  wal_event_ids = event_ids records;
                  batch_id = batch_id;
                  wal_key = key;
                },
                ground (arith, good, printed, done),
                (
                  bytes,
                  printed,
                  ground (arith, good, printed, done, after),
                  refl,
                  refl,
                  length-records,
                  check_ingest-ok key good,
                ),
              )
              | inr (failed, same) ↦ inr (ground (arith, good, printed, failed, same))
            ]
    ]
  ]

  module _ (from_json : Bytes → Option (WalRecord F M)) (is_utf8 : Bytes → Bool)
      (json : IsJson values to_json from_json is_utf8 records) where
    read-stored :
        (key id body : String) (bytes : Bytes) (db : Db)
        → serialize_records values to_json records ≡ ok bytes
        → find_segment key db.wal_segments ≡ none
        → let after = insert_build_job id body (append_wal_segment key bytes db) in
          read values to_json from_json is_utf8 (wal_read false) key after ≡ (ok records, after)
    unfolding read wal_read insert_build_job append_wal_segment
    read-stored key id body bytes db printed fresh =
        rw
          (
            find_segment-append_segment key bytes db.wal_segments fresh,
            read_records-serialize_records values to_json from_json is_utf8 records bytes json
                printed,
          )
          refl

    -- A reader of the log finds the records, which are of the documents, each with an event of its
    -- own.
    abbrev pub IsReadBack : IngestResponse → Db → Type 0
    IsReadBack response after =
        (found : List (WalRecord F M)) × (read values to_json from_json is_utf8 (wal_read false)
            response.wal_key after
          ≡ (ok found, after))
        × (map (λ (r : WalRecord F M). r.document) found ≡ map some documents)
        × (event_ids found ≡ response.wal_event_ids)
        × Distinct response.wal_event_ids

    read-ingested :
        (db after : Db) (response : IngestResponse)
        → IsIngested db response after
        → find_segment response.wal_key db.wal_segments ≡ none
        → IsReadBack response after
    read-ingested db after response (bytes, printed, stored, id, ids, count, valid) fresh =
        let body = print (batch_of response.batch_id response.wal_key records) in
        (
          records,
          subst
              (λ a.
                read values to_json from_json is_utf8 (wal_read false) response.wal_key a
                ≡ (ok records, a))
              (sym stored)
              (read-stored response.wal_key response.batch_id body bytes db printed fresh),
          upsert_records-documents batch_id now 0 documents,
          sym ids,
          subst Distinct (sym ids) (upsert_records-Distinct batch_id now 0 documents),
        )

    -- If an ingest succeeds under a key that no segment had, a reader of the log finds one record for
    -- each document, in their order, with the events that the response names, which are distinct; as
    -- long as each record of the batch, which is valid, is printed as a line of UTF-8 that is read back as
    -- the record, and the read does not fail.
    pub ingest-IsReadBack :
        (db after : Db) (response : IngestResponse)
        → ingested db ≡ (ok response, after)
        → find_segment response.wal_key db.wal_segments ≡ none
        → IsReadBack response after
    ingest-IsReadBack db after response e fresh = elim (ingest-exact db) [
      | inr (failed, same) ↦ absurd (not_failed (ap (λ p. p.0) e) failed)
      | inl (named, done, what) ↦
          read-ingested db after response
            (subst (λ a. IsIngested db response a) (ap (λ p. p.1) e)
              (subst (λ r. IsIngested db r (ingested db).1)
                (same_value (ingested db).0 done (ap (λ p. p.0) e)) what))
            fresh
    ]
