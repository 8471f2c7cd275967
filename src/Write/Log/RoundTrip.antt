-- ===== src/Write/Log/RoundTrip.antt =====
-- What was written to the log is read back from it.
use ltsearch.Common.{
  ℕ, ◌≤◌, ◌≡◌, refl, ap, ◌∙◌, String, Bool, true, Option, none, some, List, [], ◌∷◌, ◌++◌, ok, All,
  In, arith, str_eq, str_eq_refl, inl, inr, Option-cases, Bool-cases,
}
use ltsearch.Common.Outcome.{Result-cases}
use ltsearch.Sqlite.{Bytes}
use ltsearch.Queue.{append_segment}
use ltsearch.Write.{WalRecord, Values, validate_record}
use ltsearch.Write.Api.{serialize_records}
use ltsearch.Write.Log.{lines, cons_line, find_segment, read_lines, read_records}

-- No control character stands in a line: serde_json escapes them.
abbrev pub IsPlain : Bytes → Type 0
IsPlain line = All (λ b. 32 ≤ b) line

lines-cons : (b : ℕ) (bs : Bytes) → 32 ≤ b → lines (b ∷ bs) ≡ cons_line b (lines bs)
unfolding lines
lines-cons b bs h = ground (arith, h)

lines-line : (line rest : Bytes) → IsPlain line → lines (line ++ 10 ∷ rest) ≡ line ∷ lines rest
unfolding lines cons_line
lines-line [] rest h = refl
lines-line (b ∷ line) rest (plain, h) =
    lines-cons b (line ++ 10 ∷ rest) plain ∙ ap (cons_line b) (lines-line line rest h)

-- What serde_json and the UTF-8 check do for the records of one batch: a valid record that is printed is
-- a line of UTF-8 of its own, which is read back as the record. It is asked of these records alone, since
-- serde_json does not read every float back as it was: it prints those that are not finite as `null`.
abbrev pub IsJson :
    {F M : Type 0}
    → Values F M
    → (WalRecord F M → Option Bytes)
    → (Bytes → Option (WalRecord F M))
    → (Bytes → Bool)
    → List (WalRecord F M)
    → Type 0
IsJson {F} {M} values to_json from_json is_utf8 records =
    (is_utf8 [] ≡ true)
    × ((r : WalRecord F M) (line : Bytes)
        → In r records
        → validate_record values r ≡ ok tt
        → to_json r ≡ some line
        → IsPlain line
          × (from_json line ≡ some r)
          × ((rest : Bytes) → is_utf8 rest ≡ true → is_utf8 (line ++ 10 ∷ rest) ≡ true))

IsJson-later :
    {F M : Type 0} (values : Values F M) (to_json : WalRecord F M → Option Bytes)
    (from_json : Bytes → Option (WalRecord F M)) (is_utf8 : Bytes → Bool) (r : WalRecord F M)
    (records : List (WalRecord F M))
    → IsJson values to_json from_json is_utf8 (r ∷ records)
    → IsJson values to_json from_json is_utf8 records
IsJson-later values to_json from_json is_utf8 r records (empty, json) =
    (empty, λ q line m. json q line (inr m))

module _ {F M : Type 0} (values : Values F M) (to_json : WalRecord F M → Option Bytes)
    (from_json : Bytes → Option (WalRecord F M)) (is_utf8 : Bytes → Bool) where
  abbrev Json : List (WalRecord F M) → Type 0
  Json records = IsJson values to_json from_json is_utf8 records

  later : (r : WalRecord F M) (records : List (WalRecord F M)) → Json (r ∷ records) → Json records
  later r records json = IsJson-later values to_json from_json is_utf8 r records json

  -- The first record of what was serialized, and the rest.
  serialize_records-cons :
      (r : WalRecord F M) (records : List (WalRecord F M)) (bytes : Bytes)
      → serialize_records values to_json (r ∷ records) ≡ ok bytes
      → (line : Bytes) × (rest : Bytes) × (validate_record values r ≡ ok tt)
        × (to_json r ≡ some line)
        × (serialize_records values to_json records ≡ ok rest)
        × (bytes ≡ line ++ 10 ∷ rest)
  unfolding serialize_records
  serialize_records-cons r records bytes e = elim (Result-cases (validate_record values r)) [
    | inr (f, bad) ↦ absurd (ground (arith, e, bad))
    | inl (u, valid) ↦ elim (Option-cases (to_json r)) [
      | inl missing ↦ absurd (ground (arith, e, valid, missing))
      | inr (line, printed) ↦ elim (Result-cases (serialize_records values to_json records)) [
        | inr (f, bad) ↦ absurd (ground (arith, e, valid, printed, bad))
        | inl (rest, more) ↦
            (line, rest, valid, printed, more, ground (arith, e, valid, printed, more))
      ]
    ]
  ]

  read_lines-cons :
      (r : WalRecord F M) (records : List (WalRecord F M)) (line : Bytes) (rest : List Bytes)
      → from_json line ≡ some r
      → validate_record values r ≡ ok tt
      → read_lines values to_json from_json is_utf8 rest ≡ ok records
      → read_lines values to_json from_json is_utf8 (line ∷ rest) ≡ ok (r ∷ records)
  unfolding read_lines
  read_lines-cons r records line rest parsed valid more = ground (arith, parsed, valid, more)

  read_lines-serialize_records :
      (records : List (WalRecord F M)) (bytes : Bytes)
      → Json records
      → serialize_records values to_json records ≡ ok bytes
      → read_lines values to_json from_json is_utf8 (lines bytes) ≡ ok records
  unfolding read_lines serialize_records lines
  read_lines-serialize_records [] bytes json e = ground (arith, e)
  read_lines-serialize_records (r ∷ records) bytes json e =
      let (line, rest, valid, printed, more, whole) = serialize_records-cons r records bytes e in
      let (plain, parsed, text) = json.1 r line (inl refl) valid printed in
      rw (whole, lines-line line rest plain)
        (read_lines-cons r records line (lines rest) parsed valid
          (read_lines-serialize_records records rest (later r records json) more))

  serialize_records-utf8 :
      (records : List (WalRecord F M)) (bytes : Bytes)
      → Json records
      → serialize_records values to_json records ≡ ok bytes
      → is_utf8 bytes ≡ true
  unfolding serialize_records
  serialize_records-utf8 [] bytes json e = ground (arith, e, json.0)
  serialize_records-utf8 (r ∷ records) bytes json e =
      let (line, rest, valid, printed, more, whole) = serialize_records-cons r records bytes e in
      let (plain, parsed, text) = json.1 r line (inl refl) valid printed in
      rw whole (text rest (serialize_records-utf8 records rest (later r records json) more))

  -- The bytes of a segment that holds one batch are read as the records of the batch.
  pub read_records-serialize_records :
      (records : List (WalRecord F M)) (bytes : Bytes)
      → Json records
      → serialize_records values to_json records ≡ ok bytes
      → read_records values to_json from_json is_utf8 bytes ≡ ok records
  unfolding read_records
  read_records-serialize_records records bytes json e =
      rw (serialize_records-utf8 records bytes json e)
        (read_lines-serialize_records records bytes json e)

pub find_segment-append_segment :
    (key : String) (bytes : Bytes) (segments : List (String × Bytes))
    → find_segment key segments ≡ none
    → find_segment key (append_segment key bytes segments) ≡ some bytes
unfolding find_segment append_segment
find_segment-append_segment key bytes [] h = rw (str_eq_refl key) refl
find_segment-append_segment key bytes ((k, old) ∷ rest) h = elim (Bool-cases (str_eq k key)) [
  | inl same ↦ absurd (ground (arith, h, same))
  | inr other ↦ ground (arith, h, other, find_segment-append_segment key bytes rest)
]
