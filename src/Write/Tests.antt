-- ===== src/Write/Tests.antt =====
-- The theorems of Write at concrete values.
use ltsearch.Common.{
  ℕ, ◌+◌, ◌≡◌, ◌⊎◌, refl, arith, String, Bool, true, false, List, [], ◌∷◌, Option, none, some, ok,
  is_err, str_eq, ◌==◌, ◌++◌, not, if◌then◌else◌, inl, inr, sym, subst,
}
use ltsearch.Common.Outcome.{each}
use ltsearch.Common.Signed.{pos}
use ltsearch.Common.Text.{padded}
use ltsearch.Sqlite.{Db, empty_db, Bytes, ready}
use ltsearch.Queue.{QueueBatch, sqlite, EnqueueFaults, append_and_enqueue}
use ltsearch.Write.{Document, WalRecord, upsert, Values}
use ltsearch.Write.Wal.{civil_from_days}
use ltsearch.Write.Calendar.{IsDateOf, civil_from_days-exact}
use ltsearch.Write.Api.{IngestResponse, ingest, upsert_records, event_id, next_batch_id}
use ltsearch.Write.Log.{find_segment}
use ltsearch.Write.Log.RoundTrip.{IsJson, IsPlain}
use ltsearch.Write.Accepted.{
  records, IsIngested, IsReadBack, ingested, ingest-exact, ingest-IsReadBack,
}

-- July 14th of 2026, 20,648 days after the epoch.
civil_from_days-exact_example :
    (y : ℕ) × ((civil_from_days (pos 20_648)).year ≡ pos y)
    × IsDateOf
        (719_163 + 20_648)
        y
        (civil_from_days (pos 20_648)).month
        (civil_from_days (pos 20_648)).day
civil_from_days-exact_example = civil_from_days-exact 20_648

a_day_of_2026 : civil_from_days (pos 20_648) ≡ record { year = pos 2_026; month = 7; day = 14 }
unfolding civil_from_days
a_day_of_2026 = refl

abbrev values : Values ℕ ℕ
values = record { is_finite = λ x. not (x == 9); metadata_json = λ m. some [] }

abbrev document : Document ℕ ℕ
document = record {
  doc_id = "d";
  text = "t";
  embedding = none;
  metadata = 0;
  timestamp = pos 1_700_000_000_000;
}

abbrev second : Document ℕ ℕ
second = record document { doc_id = "e"; embedding = some (1 ∷ []) }

abbrev documents : List (Document ℕ ℕ)
documents = document ∷ second ∷ []

abbrev written : WalRecord ℕ ℕ
written = record {
  event_id = "batch-7-000001";
  doc_id = "d";
  op = upsert;
  document = some document;
  timestamp = pos 1_700_000_000_000;
}

abbrev no_faults : EnqueueFaults
no_faults = record { begin = false; append = false; insert = false; commit = false }

abbrev print : QueueBatch → String
print batch = batch.batch_id

abbrev written_second : WalRecord ℕ ℕ
written_second = record written {
  event_id = "batch-7-000002";
  doc_id = "e";
  document = some second;
}

-- A printer that tells records apart by their event alone, so what it prints of others is not read back.
abbrev to_json : WalRecord ℕ ℕ → Option Bytes
to_json r = some (if str_eq r.event_id "batch-7-000001" then 65 ∷ [] else 66 ∷ [])

abbrev from_json : Bytes → Option (WalRecord ℕ ℕ)
from_json [] = none
from_json (b ∷ line) = some (if b == 65 then written else written_second)

abbrev is_utf8 : Bytes → Bool
is_utf8 bytes = true

line-eq : (a b : Bytes) → ◌≡◌ {A = Option Bytes} (some a) (some b) → a ≡ b
line-eq a b e = cc

abbrev ReadsBack : WalRecord ℕ ℕ → Bytes → Type 0
ReadsBack r line =
    IsPlain line
    × (from_json line ≡ some r)
    × ((rest : Bytes) → is_utf8 rest ≡ true → is_utf8 (line ++ 10 ∷ rest) ≡ true)

first_line : ReadsBack written (65 ∷ [])
first_line = ((omega arith, tt), refl, λ rest h. refl)

second_line : ReadsBack written_second (66 ∷ [])
second_line = ((omega arith, tt), refl, λ rest h. refl)

to_json-IsJson : IsJson values to_json from_json is_utf8 (written ∷ written_second ∷ [])
to_json-IsJson = (
  refl,
  λ r line m valid e. elim m [
    | inl same ↦
        subst (λ q. ReadsBack q line) (sym same)
          (subst (ReadsBack written) (line-eq _ _ (subst (λ q. to_json q ≡ some line) same e))
            first_line)
    | inr (inl same) ↦
        subst (λ q. ReadsBack q line) (sym same)
          (subst (ReadsBack written_second)
            (line-eq _ _ (subst (λ q. to_json q ≡ some line) same e)) second_line)
    | inr (inr nothing) ↦ absurd nothing
  ],
)

batch-IsJson :
    IsJson values to_json from_json is_utf8
      (records values to_json 1 print no_faults (sqlite 1) (pos 1_700_000_000_000) "7" documents)
unfolding upsert_records event_id next_batch_id padded
batch-IsJson = to_json-IsJson

abbrev response : IngestResponse
response = record {
  accepted_count = 2;
  wal_event_ids = "batch-7-000001" ∷ "batch-7-000002" ∷ [];
  batch_id = "batch-7";
  wal_key = "wal/2023/11/14/batch-7.jsonl";
}

abbrev db_after : Db
db_after = record empty_db {
  wal_segments = ("wal/2023/11/14/batch-7.jsonl", 65 ∷ 10 ∷ 66 ∷ 10 ∷ []) ∷ [];
  build_jobs =
      record {
        batch_id = "batch-7";
        body = "batch-7";
        state = ready;
        attempts = 0;
        available_at = 0;
        claimed_at = none;
        claim_token = none;
      }
      ∷ [];
}

ingest_done :
    ingested values to_json 1 print no_faults
      (sqlite 1)
      (pos 1_700_000_000_000)
      "7"
      documents
      empty_db
    ≡ (ok response, db_after)
unfolding ingest append_and_enqueue each
ingest_done = refl

ingest-exact_example :
    ((r : IngestResponse) × ((ingested values to_json 1 print no_faults
          (sqlite 1)
          (pos 1_700_000_000_000)
          "7"
          documents
          empty_db).0
        ≡ ok r)
      × IsIngested values to_json 1 print no_faults
          (sqlite 1)
          (pos 1_700_000_000_000)
          "7"
          documents
          empty_db
          r
          (ingested values to_json 1 print no_faults
            (sqlite 1)
            (pos 1_700_000_000_000)
            "7"
            documents
            empty_db).1)
    ⊎ ((is_err
            (ingested values to_json 1 print no_faults
              (sqlite 1)
              (pos 1_700_000_000_000)
              "7"
              documents
              empty_db).0
          ≡ true)
        × ((ingested values to_json 1 print no_faults
              (sqlite 1)
              (pos 1_700_000_000_000)
              "7"
              documents
              empty_db).1
            ≡ empty_db))
ingest-exact_example =
    ingest-exact values to_json 1 print no_faults (sqlite 1) (pos 1_700_000_000_000) "7" documents
      empty_db

no_segment : find_segment response.wal_key empty_db.wal_segments ≡ none
unfolding find_segment
no_segment = refl

ingest-IsReadBack_example :
    IsReadBack values to_json 1 print no_faults
      (sqlite 1)
      (pos 1_700_000_000_000)
      "7"
      documents
      from_json
      is_utf8
      batch-IsJson
      response
      db_after
ingest-IsReadBack_example =
    ingest-IsReadBack values to_json 1 print no_faults (sqlite 1) (pos 1_700_000_000_000) "7"
      documents from_json is_utf8 batch-IsJson empty_db db_after response ingest_done no_segment
