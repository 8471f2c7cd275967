-- ===== src/LocalPublish/Laws.antt =====
-- src/local/sqlite/head.rs: the swap of a pointer row, and the laws on which the publisher relies.
use ltsearch.Common.{
  String, Bool, true, false, Option, none, some, ok, ◌≡◌, refl, ap, ◌⊎◌, inl, inr, arith,
  str_eq_iff, Bool-cases, str_eq_refl, ◌||◌, is_err, sym, ◌∙◌, ◌≢◌,
}
use ltsearch.Sqlite.{Bytes, Db}
use ltsearch.Head.{index_head_key, static_head_key}
use ltsearch.Storage.{StorageLaws, FilePath, UploadMode, VersionedObject, etag_of_object}
use ltsearch.Storage.Calls
use ltsearch.LocalPublish.Etag.{etag_of}
use ltsearch.LocalPublish.{
  Files, HeadFaults, HeadTable, active_head, static_release_head, same_etag, etag_of_bytes, row,
  set_row, cas_write, cas_body, head_row_cas, head_row_read, head_table, read_at, swap_at, on_files,
  on_db, local_storage, versioned, fs_upload, fs_read, fs_compare_and_swap, reject_head_key,
}

same_etag-eq : (a b : Option String) → same_etag a b ≡ true → a ≡ b
same_etag-eq none none h = refl
same_etag-eq none (some b) h = cc
same_etag-eq (some a) none h = cc
same_etag-eq (some a) (some b) h = ap some ((str_eq_iff a b).0 h)

same_etag_refl : (a : Option String) → same_etag a a ≡ true
same_etag_refl none = refl
same_etag_refl (some a) = str_eq_refl a

same_etag-ne : (a b : Option String) → same_etag a b ≡ false → a ≢ b
same_etag-ne a b h e = cc (h, e, same_etag_refl a)

abbrev pub any_fault : HeadFaults → Bool
any_fault f = f.begin || f.read || f.write || f.commit

-- A swap of a pointer row: it reports success, found the expected tag and has written the value; or it
-- reports a refusal, found another tag and has written nothing; or a statement failed, it reports an
-- error and has written nothing.
pub head_row_cas-exact :
    (f : HeadFaults) (table : HeadTable) (expected : Option String) (value : Bytes) (db : Db)
    → let run = head_row_cas f table expected value db in
      ((run ≡ (ok true, set_row table value db))
        × (f.read ≡ false)
        × (etag_of_bytes (row table db) ≡ expected))
      ⊎ ((run ≡ (ok false, db)) × (etag_of_bytes (row table db) ≢ expected))
      ⊎ ((is_err run.0 ≡ true) × (run.1 ≡ db) × (any_fault f ≡ true))
unfolding head_row_cas cas_body cas_write head_row_read
head_row_cas-exact f table expected value db =
    elim (Bool-cases (same_etag (etag_of_bytes (row table db)) expected)) [
      | inl hit ↦ ground (arith, hit, same_etag-eq (etag_of_bytes (row table db)) expected hit)
      | inr miss ↦ ground (arith, miss, same_etag-ne (etag_of_bytes (row table db)) expected miss)
    ]

pub row-set :
    (table : HeadTable) (bytes : Bytes) (db : Db) → row table (set_row table bytes db) ≡ some bytes
row-set active_head bytes db = refl
row-set static_release_head bytes db = refl

head_row_cas-true :
    (f : HeadFaults) (table : HeadTable) (expected : Option String) (value : Bytes) (db : Db)
    → (head_row_cas f table expected value db).0 ≡ ok true
    → (etag_of_bytes (row table db) ≡ expected)
      × ((head_row_cas f table expected value db).1 ≡ set_row table value db)
head_row_cas-true f table expected value db h =
    elim (head_row_cas-exact f table expected value db) [
      | inl (run, _, same) ↦ (same, ap (λ p. p.1) run)
      | inr (inl (run, _)) ↦ ground (arith, run, h)
      | inr (inr (failed, _, _)) ↦ ground (arith, failed, h)
    ]

row-other :
    (table other : HeadTable) (bytes : Bytes) (db : Db)
    → table ≢ other
    → row other (set_row table bytes db) ≡ row other db
row-other active_head active_head bytes db apart = absurd (apart refl)
row-other active_head static_release_head bytes db apart = refl
row-other static_release_head active_head bytes db apart = refl
row-other static_release_head static_release_head bytes db apart = absurd (apart refl)

-- A swap of one pointer row keeps the other.
other_row-kept :
    (f : HeadFaults) (table other : HeadTable) (expected : Option String) (value : Bytes) (db : Db)
    → table ≢ other
    → row other (head_row_cas f table expected value db).1 ≡ row other db
other_row-kept f table other expected value db apart =
    elim (head_row_cas-exact f table expected value db) [
      | inl (run, _, _) ↦ ap (λ p. row other p.1) run ∙ row-other table other value db apart
      | inr (inl (run, _)) ↦ ap (λ p. row other p.1) run
      | inr (inr (_, same, _)) ↦ ap (row other) same
    ]

-- Of two processes that swap the same pointer with the tag that they both read, at most one wins: once
-- the first has won, with bytes of another tag, the second does not, whatever fails in its run.
head_row_cas-one_winner :
    (f g : HeadFaults) (table : HeadTable) (expected : Option String) (value value' : Bytes)
    (db : Db)
    → (head_row_cas f table expected value db).0 ≡ ok true
    → some (etag_of value) ≢ expected
    → (head_row_cas g table expected value' (head_row_cas f table expected value db).1).0 ≢ ok true
head_row_cas-one_winner f g table expected value value' db won new again =
    let (_, now) = head_row_cas-true f table expected value db won in
    let (found, _) = head_row_cas-true g table expected value' _ again in
    new (sym (ap etag_of_bytes (ap (row table) now ∙ row-set table value db)) ∙ found)

module _ {F : Type 0} (files : Files F) (f : HeadFaults) where
  pub read_row :
      (key : String) (table : HeadTable) (db : Db) (fs : F)
      → f.read ≡ false
      → read_at files f key (some table) (db, fs) ≡ ok (versioned files (row table db))
  unfolding read_at head_row_read
  read_row key table db fs h = rw h refl

  pub etag-versioned : (o : Option Bytes) → etag_of_object (versioned files o) ≡ etag_of_bytes o
  unfolding versioned
  etag-versioned none = refl
  etag-versioned (some bytes) = refl

  swapped_row :
      (expected : Option String) (value : Bytes) (db : Db) (fs : F)
      → (head_row_cas f active_head expected value db).0 ≡ ok true
      → ((o : Option VersionedObject) × (read_at files f index_head_key (some active_head) (db, fs)
            ≡ ok o)
          × (etag_of_object o ≡ expected))
        × ((tag : String) × (read_at files f index_head_key
                (some active_head)
                ((head_row_cas f active_head expected value db).1, fs)
              ≡ ok (some (record { bytes = value; etag = tag }))))
  unfolding versioned
  swapped_row expected value db fs h = elim (head_row_cas-exact f active_head expected value db) [
    | inl (run, reads, same) ↦ (
      (
        versioned files db.active_head,
        read_row index_head_key active_head db fs reads,
        etag-versioned db.active_head ∙ same,
      ),
      (etag_of value, rw run (read_row index_head_key active_head _ fs reads)),
    )
    | inr (inl (run, _)) ↦ ground (arith, run, h)
    | inr (inr (failed, _, _)) ↦ ground (arith, failed, h)
  ]

  refused_row :
      (expected : Option String) (value : Bytes) (db : Db)
      → (head_row_cas f active_head expected value db).0 ≡ ok false
      → (head_row_cas f active_head expected value db).1 ≡ db
  refused_row expected value db h = elim (head_row_cas-exact f active_head expected value db) [
    | inl (run, _, _) ↦ ground (arith, run, h)
    | inr (inl (run, _)) ↦ ap (λ p. p.1) run
    | inr (inr (_, same, _)) ↦ same
  ]

  -- The local storage keeps what a publish storage promises, whatever the files are and whatever
  -- statements fail.
  pub local-StorageLaws : StorageLaws (local_storage files f)
  unfolding local_storage head_table on_files on_db swap_at read_at
  local-StorageLaws = record {
    upload_directory_keeps_head = λ key source mode s. refl;
    upload_file_keeps_head = λ key source mode s. refl;
    swapped = λ expected value s h. swapped_row expected value s.0 s.1 h;
    refused = λ expected value s h. ap (λ d. (d, s.1)) (refused_row expected value s.0 h);
  }

  head_table-static :
      (key : String) → head_table key ≡ some static_release_head → key ≡ static_head_key
  unfolding head_table
  head_table-static key e = ground (arith, e, str_eq_iff key static_head_key)

  head_table-index : (key : String) → head_table key ≡ some active_head → key ≡ index_head_key
  unfolding head_table
  head_table-index key e = ground (arith, e, str_eq_iff key index_head_key)

  read_at-row :
      (key : String) (table : HeadTable) (a b : Db) (fs gs : F)
      → row table a ≡ row table b
      → read_at files f key (some table) (a, fs) ≡ read_at files f key (some table) (b, gs)
  unfolding read_at head_row_read
  read_at-row key table a b fs gs e = ground (arith, e)

  swap-kept :
      (pointer key : String) (table : HeadTable) (o : Option HeadTable) (expected : Option String)
      (value : Bytes) (db : Db) (fs : F)
      → o ≢ some table
      → read_at files f pointer (some table) (swap_at files f key expected value o (db, fs)).1
        ≡ read_at files f pointer (some table) (db, fs)
  unfolding swap_at on_files on_db
  swap-kept pointer key table none expected value db fs apart =
      read_at-row pointer table db db _ fs refl
  swap-kept pointer key table (some other) expected value db fs apart =
      read_at-row pointer table _ db fs fs
        (other_row-kept f other table expected value db (λ e. apart (ap some e)))

  head_table-same :
      (a b : String) (table : HeadTable)
      → head_table a ≡ some table
      → head_table b ≡ some table
      → a ≡ b
  head_table-same a b active_head p q = head_table-index a p ∙ sym (head_table-index b q)
  head_table-same a b static_release_head p q = head_table-static a p ∙ sym (head_table-static b q)

  -- A pointer changes through swaps of its own key only: a swap of any other key, the other pointer's
  -- too, leaves what a read of the pointer returns.
  pointer-kept :
      (pointer key : String) (table : HeadTable) (expected : Option String) (value : Bytes)
      (s : Db × F)
      → head_table pointer ≡ some table
      → key ≢ pointer
      → (local_storage files f).read pointer
          ((local_storage files f).compare_and_swap key expected value s).1
        ≡ (local_storage files f).read pointer s
  unfolding local_storage
  pointer-kept pointer key table expected value (db, fs) is_pointer apart = rw is_pointer (
      swap-kept pointer key table (head_table key) expected value db fs
        (λ e. apart (head_table-same key pointer table e is_pointer)))

module _ {F : Type 0} (files : Files F) where
  -- A pointer key never reaches the files: every operation of the file storage on it is an error that
  -- leaves the files as they are.
  head_key-retired :
      (key : String) (table : HeadTable) (source : FilePath) (mode : UploadMode)
      (expected : Option String) (value : Bytes) (fs : F)
      → head_table key ≡ some table
      → ((is_err (fs_upload files key source mode fs).0 ≡ true)
          × ((fs_upload files key source mode fs).1 ≡ fs))
        × (is_err (fs_read files key fs) ≡ true)
        × ((is_err (fs_compare_and_swap files key expected value fs).0 ≡ true)
            × ((fs_compare_and_swap files key expected value fs).1 ≡ fs))
  unfolding fs_upload fs_read fs_compare_and_swap reject_head_key head_table Calls.◌>>=◌
  head_key-retired key table source mode expected value fs h = ground (arith, h)
