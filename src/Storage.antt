-- ===== src/Storage.antt =====
-- The `PublishStorage` contract of src/indexing/publisher.rs: uploads, versioned reads and the
-- compare-and-swap, over a state that other processes change between two calls.
pub mod Calls
use ltsearch.Common.{
  String, Bool, true, false, Option, none, some, ok, Result, ◌≡◌, ◌≢◌, ◌⊎◌, is_err,
}
use ltsearch.Errors.{PublishError}
use ltsearch.Sqlite.{Bytes}
use ltsearch.Head.{index_head_key, static_head_key}
use mathlib.Core.List.{List}
use Calls.{Task}

-- A path of the local file system, by its components.
abbrev pub FilePath : Type 0
FilePath = List String

pub record VersionedObject : Type 0 where
  pub bytes : Bytes
  pub etag : String

pub data UploadMode : Type 0 where
  create_only overwrite : UploadMode

pub record PublishStorage (S : Type 0) : Type 0 where
  pub upload_directory : String → FilePath → UploadMode → Task S (Unit {0})
  pub upload_file : String → FilePath → UploadMode → Task S (Unit {0})
  pub read : String → S → Result PublishError (Option VersionedObject)
  pub compare_and_swap : String → Option String → Bytes → Task S Bool

abbrev pub etag_of_object : Option VersionedObject → Option String
etag_of_object none = none
etag_of_object (some o) = some o.etag

-- What the contract promises of a backend. Uploads never touch the pointer, and a swap that reports
-- success found the expected tag and wrote the new value.
pub record StorageLaws {S : Type 0} (storage : PublishStorage S) : Type 0 where
  pub upload_directory_keeps_head :
      (key : String) (source : FilePath) (mode : UploadMode) (s : S)
      → storage.read index_head_key (storage.upload_directory key source mode s).1
        ≡ storage.read index_head_key s
  pub upload_file_keeps_head :
      (key : String) (source : FilePath) (mode : UploadMode) (s : S)
      → storage.read index_head_key (storage.upload_file key source mode s).1
        ≡ storage.read index_head_key s
  pub swapped :
      (expected : Option String) (value : Bytes) (s : S)
      → (storage.compare_and_swap index_head_key expected value s).0 ≡ ok true
      → ((o : Option VersionedObject) × (storage.read index_head_key s ≡ ok o)
          × (etag_of_object o ≡ expected))
        × ((tag : String) × (storage.read index_head_key
                (storage.compare_and_swap index_head_key expected value s).1
              ≡ ok (some (record { bytes = value; etag = tag }))))
  pub refused :
      (expected : Option String) (value : Bytes) (s : S)
      → (storage.compare_and_swap index_head_key expected value s).0 ≡ ok false
      → (storage.compare_and_swap index_head_key expected value s).1 ≡ s

abbrev pub IsPointer : String → Type 0
IsPointer key = (key ≡ index_head_key) ⊎ (key ≡ static_head_key)

-- An upload that has done nothing and says so.
abbrev pub IsRejected : {S : Type 0} → Result PublishError (Unit {0}) × S → S → Type 0
IsRejected run s = (is_err run.0 ≡ true) × (run.1 ≡ s)

-- The contract as the trait documents it. A create-only upload never touches an object that exists, and
-- is an upload like any other where none does. A swap of a pointer writes if the current tag is the
-- expected one, and otherwise says `false`; it is an error, which writes nothing, only where the backend
-- fails.
pub record StorageContract {S : Type 0} (storage : PublishStorage S) (Exists : String → S → Type 0)
    (fails : Bool) : Type 0 where
  pub laws : StorageLaws storage
  pub readable_exists :
      (key : String) (s : S) (o : VersionedObject) → storage.read key s ≡ ok (some o) → Exists key s
  pub create_only_directory :
      (key : String) (source : FilePath) (s : S)
      → Exists key s
      → IsRejected (storage.upload_directory key source create_only s) s
  pub create_only_file :
      (key : String) (source : FilePath) (s : S)
      → Exists key s
      → IsRejected (storage.upload_file key source create_only s) s
  pub fresh_directory :
      (key : String) (source : FilePath) (s : S)
      → ¬ Exists key s
      → storage.upload_directory key source create_only s
        ≡ storage.upload_directory key source overwrite s
  pub fresh_file :
      (key : String) (source : FilePath) (s : S)
      → ¬ Exists key s
      → storage.upload_file key source create_only s ≡ storage.upload_file key source overwrite s
  pub swaps :
      (key : String) (expected : Option String) (value : Bytes) (s : S)
      → IsPointer key
      → let run = storage.compare_and_swap key expected value s in
        ((run.0 ≡ ok true)
          × ((o : Option VersionedObject) × (storage.read key s ≡ ok o)
              × (etag_of_object o ≡ expected))
          × ((tag : String) × (storage.read key run.1
                ≡ ok (some (record { bytes = value; etag = tag })))))
        ⊎ ((run ≡ (ok false, s))
            × ((o : Option VersionedObject)
                → storage.read key s ≡ ok o
                → etag_of_object o ≢ expected))
        ⊎ ((is_err run.0 ≡ true) × (run.1 ≡ s) × (fails ≡ true))
