-- ===== src/Write/Log.antt =====
-- Reading and appending in src/write/wal.rs, over src/local/sqlite/wal.rs. A text is its UTF-8 bytes;
-- the parser and the printer of a record are serde_json's.
pub mod RoundTrip
use ltsearch.Common.{
  ℕ, String, Bool, true, false, not, Option, none, some, List, [], ◌∷◌, ◌++◌, map, Result, ok, err,
  str_eq, ◌==◌, ◌&&◌, if◌then◌else◌,
}
use ltsearch.Common.Outcome.{guard, map_err, ok_or, ◌>>=◌, ◌>>◌}
use ltsearch.Errors.{IngestError, validation}
use ltsearch.Sqlite.{Bytes, Db, Sql, statement, ◌>>=◌ as and_sql}
use ltsearch.Write.{WalRecord, Values, validate_record}
use ltsearch.Write.Api.{Call, and_call, after_call}

abbrev pub starts_line : Bytes → Bool
starts_line [] = false
starts_line (b ∷ bs) = b == 10

cons_line : ℕ → List Bytes → List Bytes
cons_line b [] = (b ∷ []) ∷ []
cons_line b (line ∷ lines) = (b ∷ line) ∷ lines

-- `str::lines`: a line ends at a line feed, with a carriage return before it or without.
unfoldable pub lines : Bytes → List Bytes
unfolding cons_line
lines [] = []
lines (b ∷ bs) =
    let rest = lines bs in
    if b == 10 then [] ∷ rest else if (b == 13) && starts_line bs then rest else cons_line b rest

-- `SELECT data FROM wal_segments WHERE segment_key = ?1`
unfoldable pub find_segment : String → List (String × Bytes) → Option Bytes
find_segment key [] = none
find_segment key ((k, bytes) ∷ rest) =
    let later = find_segment key rest in if str_eq k key then some bytes else later

-- `SqliteWalStorage::read`
unfoldable pub wal_read : Bool → String → Sql IngestError Bytes
unfolding find_segment
wal_read true key db = (err (IngestError.operation "failed to read WAL"), db)
wal_read false key db = (
  ok_or (find_segment key db.wal_segments)
      (IngestError.operation "failed to read WAL: segment not found"),
  db,
)

-- The keys of the segments; `ORDER BY` is the reader's.
abbrev pub segment_keys : Db → List String
segment_keys db = map (λ (s : String × Bytes). s.0) db.wal_segments

module _ {F M : Type 0} (values : Values F M) (to_json : WalRecord F M → Option Bytes)
    (from_json : Bytes → Option (WalRecord F M)) (is_utf8 : Bytes → Bool) where
  -- The closure on every line, and `collect`.
  unfoldable pub read_lines : List Bytes → Result IngestError (List (WalRecord F M))
  unfolding validate_record
  read_lines [] = ok []
  read_lines (line ∷ rest) = do
    r ← ok_or (from_json line) (IngestError.operation "line")
    map_err validation (validate_record values r)
    records ← read_lines rest
    ok (r ∷ records)

  unfoldable pub read_records : Bytes → Result IngestError (List (WalRecord F M))
  unfolding lines read_lines
  read_records bytes = do
    guard (is_utf8 bytes) (IngestError.operation "invalid utf-8")
    read_lines (lines bytes)

  -- `WriteAheadLog::read` and `append`, over the storage's operations.
  unfoldable pub read :
      {S : Type 0} → (String → Call S Bytes) → String → Call S (List (WalRecord F M))
  unfolding read_records
  read storage_read key = after_call (storage_read key) (λ bytes s. (read_records bytes, s))

  unfoldable pub append :
      {S : Type 0}
      → (String → Bytes → Call S (Unit {0}))
      → String
      → WalRecord F M
      → Call S (Unit {0})
  unfolding validate_record
  append storage_append key r =
      let line = do
        map_err validation (validate_record values r)
        json ← ok_or (to_json r) (IngestError.operation "record")
        ok (json ++ 10 ∷ [])
      in and_call line (λ bytes. storage_append key bytes)
