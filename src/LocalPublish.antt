-- ===== src/LocalPublish.antt =====
-- The publish storage of a local deployment: src/local/sqlite/head.rs, which keeps the two pointers in
-- SQLite, and src/local/fs_publish.rs, which keeps all other keys as files. `std::fs` is a parameter.
pub mod Etag
pub mod Laws
pub mod Contract
mod Tests
use ltsearch.Common.{
  ℕ, String, Bool, true, false, not, Option, none, some, ok, err, Result, str_eq, if◌then◌else◌,
  ◌&&◌, ◌||◌,
}
use ltsearch.Common.Outcome
use ltsearch.Common.Outcome.{guard, map_err}
use ltsearch.Errors.{PublishError}
use ltsearch.Sqlite.{Bytes, Db, Sql, statement, transaction, ◌>>=◌, ◌>>◌}
use ltsearch.Head.{index_head_key, static_head_key}
use ltsearch.Storage.{
  FilePath, VersionedObject, UploadMode, create_only, overwrite, PublishStorage, etag_of_object,
}
use ltsearch.Storage.Calls.{Task, lift}
use ltsearch.Storage.Calls as Calls
use Etag.{etag_of}

-- `std::io::Error`, by the one kind that the code tells apart.
pub data FileError : Type 0 where
  not_found : FileError
  other_error : FileError

-- The files below the root, by key: `Path::exists`, `copy_tree`, `fs::read`, `fs::create_dir_all` of the
-- parent and `fs::write`.
pub record Files (F : Type 0) : Type 0 where
  pub exists : String → F → Bool
  pub copy_tree : FilePath → String → F → Result FileError (Unit {0}) × F
  pub read : String → F → Result FileError Bytes
  pub create_parent : String → F → Result FileError (Unit {0}) × F
  pub write : String → Bytes → F → Result FileError (Unit {0}) × F

-- `a.as_deref() == b`
abbrev pub same_etag : Option String → Option String → Bool
same_etag none none = true
same_etag none (some b) = false
same_etag (some a) none = false
same_etag (some a) (some b) = str_eq a b

-- The statements that fail.
pub record HeadFaults : Type 0 where
  pub begin : Bool
  pub read : Bool
  pub write : Bool
  pub commit : Bool

-- The two tables of one row.
pub data HeadTable : Type 0 where
  active_head static_release_head : HeadTable

unfoldable pub head_table : String → Option HeadTable
head_table key =
    if str_eq key index_head_key
    then some active_head
    else if str_eq key static_head_key
    then some static_release_head
    else none

abbrev pub row : HeadTable → Db → Option Bytes
row active_head db = db.active_head
row static_release_head db = db.static_release_head

abbrev pub set_row : HeadTable → Bytes → Db → Db
set_row active_head bytes db = record db { active_head = some bytes }
set_row static_release_head bytes db = record db { static_release_head = some bytes }

abbrev sql_error : String → PublishError
sql_error context = PublishError.operation context

unfoldable pub head_row_read : HeadFaults → HeadTable → Sql PublishError (Option Bytes)
head_row_read f table db =
    statement f.read (sql_error "failed to read head") (λ db'. (row table db', db')) db

abbrev pub etag_of_bytes : Option Bytes → Option String
etag_of_bytes none = none
etag_of_bytes (some bytes) = some (etag_of bytes)

-- The early return drops the transaction, which has written nothing.
cas_write : HeadFaults → HeadTable → Bytes → Bool → Sql PublishError Bool
cas_write f table value true db =
    statement f.write (sql_error "failed to write head CAS")
      (λ db'. (true, set_row table value db')) db
cas_write f table value false db = (ok false, db)

cas_body : HeadFaults → HeadTable → Option String → Bytes → Sql PublishError Bool
unfolding head_row_read cas_write
cas_body f table expected value = do
  current ← head_row_read f table
  cas_write f table value (same_etag (etag_of_bytes current) expected)

unfoldable pub head_row_cas : HeadFaults → HeadTable → Option String → Bytes → Sql PublishError Bool
unfolding cas_body
head_row_cas f table expected value =
    transaction f.begin (sql_error "failed to open head CAS tx") f.commit
      (λ _. sql_error "failed to commit head CAS") (cas_body f table expected value)

-- A pointer key never reaches the files.
unfoldable pub reject_head_key : String → Result PublishError (Unit {0})
reject_head_key key =
    guard (not (str_eq key index_head_key || str_eq key static_head_key))
      (PublishError.operation "retired: the pointer lives in SQLite")

module _ {F : Type 0} (files : Files F) where
  copy : String → FilePath → Task F (Unit {0})
  copy key source fs =
      let (r, fs') = files.copy_tree source key fs in
      (map_err (λ _. PublishError.operation "failed to upload") r, fs')

  create_copy : String → FilePath → Bool → Task F (Unit {0})
  create_copy key source true = lift (err (PublishError.operation "already exists"))
  create_copy key source false = copy key source

  place : String → FilePath → UploadMode → Task F (Unit {0})
  unfolding create_copy copy
  place key source create_only fs = create_copy key source (files.exists key fs) fs
  place key source overwrite fs = copy key source fs

  -- `upload_directory` and `upload_file`, which differ in their messages.
  pub fs_upload : String → FilePath → UploadMode → Task F (Unit {0})
  unfolding reject_head_key place
  fs_upload key source mode = Calls.◌>>=◌ (lift (reject_head_key key)) (λ _. place key source mode)

  found : Result FileError Bytes → Result PublishError (Option Bytes)
  found (ok bytes) = ok (some bytes)
  found (err not_found) = ok none
  found (err other_error) = err (PublishError.operation "failed to read")

  unfoldable pub versioned : Option Bytes → Option VersionedObject
  versioned none = none
  versioned (some bytes) = some (record { bytes = bytes; etag = etag_of bytes })

  pub fs_read : String → F → Result PublishError (Option VersionedObject)
  unfolding found versioned reject_head_key
  fs_read key fs =
      Outcome.◌>>=◌ (reject_head_key key)
        λ _. Outcome.◌>>=◌ (found (files.read key fs)) λ bytes. ok (versioned bytes)

  io_error : {A : Type 0} → Result FileError A × F → Result PublishError A × F
  io_error (r, fs) = (map_err (λ _. PublishError.operation "failed to CAS-write") r, fs)

  fs_replace : String → Bytes → Bool → Task F Bool
  unfolding io_error
  fs_replace key value false = lift (ok false)
  fs_replace key value true =
      Calls.◌>>=◌ (λ fs. io_error (files.create_parent key fs))
        λ _. Calls.◌>>=◌ (λ fs. io_error (files.write key value fs)) λ _. lift (ok true)

  -- The lock makes the whole call one step.
  pub fs_compare_and_swap : String → Option String → Bytes → Task F Bool
  unfolding reject_head_key found fs_replace
  fs_compare_and_swap key expected value = Calls.◌>>=◌ (lift (reject_head_key key)) λ _.
      Calls.◌>>=◌ (λ fs. (found (files.read key fs), fs))
        λ current. fs_replace key value (same_etag (etag_of_bytes current) expected)

  -- `LocalPublishStorage`: the database and the files.
  on_files : {A : Type 0} → Task F A → Db × F → Result PublishError A × (Db × F)
  on_files m (db, fs) = let (r, fs') = m fs in (r, (db, fs'))

  unfoldable pub on_db :
      {A : Type 0} → Sql PublishError A → Db × F → Result PublishError A × (Db × F)
  on_db m (db, fs) = let (r, db') = m db in (r, (db', fs))

  unfoldable pub read_at :
      HeadFaults → String → Option HeadTable → Db × F → Result PublishError (Option VersionedObject)
  unfolding head_row_read versioned fs_read
  read_at f key none (db, fs) = fs_read key fs
  read_at f key (some table) (db, fs) =
      Outcome.◌>>=◌ (head_row_read f table db).0 λ bytes. ok (versioned bytes)

  unfoldable pub swap_at :
      HeadFaults
      → String
      → Option String
      → Bytes
      → Option HeadTable
      → Db × F
      → Result PublishError Bool × (Db × F)
  unfolding fs_compare_and_swap head_row_cas on_files on_db
  swap_at f key expected value none = on_files (fs_compare_and_swap key expected value)
  swap_at f key expected value (some table) = on_db (head_row_cas f table expected value)

  unfoldable pub local_storage : HeadFaults → PublishStorage (Db × F)
  unfolding on_files fs_upload head_table read_at swap_at
  local_storage f = record {
    upload_directory = λ key source mode. on_files (fs_upload key source mode);
    upload_file = λ key source mode. on_files (fs_upload key source mode);
    read = λ key s. read_at f key (head_table key) s;
    compare_and_swap = λ key expected value. swap_at f key expected value (head_table key);
  }
