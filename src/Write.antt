-- ===== src/Write.antt =====
-- src/write/ and src/models/write.rs, with `Document` of src/models/index.rs: the documents that a
-- client writes and the records of the write-ahead log. A float and the metadata of a document are of
-- types of their own, with what the program asks of them: `is_finite`, and the metadata as JSON.
pub mod Wal
pub mod Api
pub mod Calendar
pub mod Log
pub mod Accepted
mod Tests
use ltsearch.Common.{
  ℕ, ◌+◌, String, Bool, true, false, not, Option, none, some, List, [], ◌∷◌, Result, ok, err,
  length, leb, ltb, ◌==◌, ◌&&◌, ◌||◌, str_eq, if◌then◌else◌,
}
use ltsearch.Common.Outcome.{guard, ok_or, ◌>>=◌, ◌>>◌}
use ltsearch.Common.Signed.{ℤ}
use ltsearch.Common.Text.{is_empty, byte_len}
use ltsearch.Errors.{
  ValidationError, required, length_out_of_range, invalid_value, mismatch, too_large,
}
use ltsearch.Sqlite.{Bytes}
use ltsearch.Manifest.{is_plausible_epoch_millis}

abbrev pub document_text_max_bytes : ℕ
document_text_max_bytes = 100_000

abbrev pub document_metadata_max_bytes : ℕ
document_metadata_max_bytes = 10_000

pub record Document (F M : Type 0) : Type 0 where
  pub doc_id : String
  pub text : String
  pub embedding : Option (List F)
  pub metadata : M
  pub timestamp : ℤ

pub data WalOperation : Type 0 where
  upsert delete : WalOperation

pub record WalRecord (F M : Type 0) : Type 0 where
  pub event_id : String
  pub doc_id : String
  pub op : WalOperation
  pub document : Option (Document F M)
  pub timestamp : ℤ

-- `f32::is_finite`, and `serde_json::to_vec` of the metadata, which may fail.
pub record Values (F M : Type 0) : Type 0 where
  pub is_finite : F → Bool
  pub metadata_json : M → Option Bytes

module _ {F M : Type 0} (values : Values F M) where
  -- `!embedding.iter().any(|value| !value.is_finite())`
  abbrev all_finite : List F → Bool
  all_finite [] = true
  all_finite (x ∷ xs) = values.is_finite x && all_finite xs

  abbrev finite_embedding : Option (List F) → Bool
  finite_embedding none = true
  finite_embedding (some xs) = all_finite xs

  unfoldable pub validate_document : Document F M → Result ValidationError (Unit {0})
  unfolding byte_len is_plausible_epoch_millis
  validate_document d = do
    guard (not (is_empty d.doc_id)) (required "doc_id")
    guard (leb (byte_len d.doc_id) 256) (length_out_of_range "doc_id" 1 256)
    guard (not (is_empty d.text)) (required "text")
    guard (leb (byte_len d.text) document_text_max_bytes) (too_large "text" document_text_max_bytes)
    guard (finite_embedding d.embedding) (invalid_value "embedding")
    json ← ok_or (values.metadata_json d.metadata) (invalid_value "metadata")
    guard (leb (length json) document_metadata_max_bytes)
        (too_large "metadata" document_metadata_max_bytes)
    guard (is_plausible_epoch_millis d.timestamp) (invalid_value "timestamp")

  unfoldable pub validate_for_embedding_dim : Document F M → ℕ → Result ValidationError (Unit {0})
  unfolding validate_document
  validate_for_embedding_dim d dim = do
    validate_document d
    elim d.embedding [
      | none ↦ ok tt
      | some xs ↦ guard (length xs == dim) (invalid_value "embedding")
    ]

  -- The match on the operation and the document.
  abbrev validate_operation :
      WalOperation → Option (Document F M) → String → Result ValidationError (Unit {0})
  unfolding validate_document
  validate_operation upsert none id = err (required "document")
  validate_operation delete (some d) id = err (invalid_value "document")
  validate_operation delete none id = ok tt
  validate_operation upsert (some d) id =
      if str_eq d.doc_id id then validate_document d else err (mismatch "doc_id" "document.doc_id")

  -- `WalRecord::validate`
  unfoldable pub validate_record : WalRecord F M → Result ValidationError (Unit {0})
  unfolding validate_document is_plausible_epoch_millis
  validate_record r = do
    guard (not (is_empty r.event_id)) (required "event_id")
    guard (not (is_empty r.doc_id)) (required "doc_id")
    guard (is_plausible_epoch_millis r.timestamp) (invalid_value "timestamp")
    validate_operation r.op r.document r.doc_id
