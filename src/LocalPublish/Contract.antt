-- ===== src/LocalPublish/Contract.antt =====
-- src/local/sqlite/head.rs over src/local/fs_publish.rs, against the documented contract of a publish
-- storage: create-only uploads and the swaps of both pointers.
use ltsearch.Common.{
  String, true, false, Option, none, some, ok, err, Result, ◌≡◌, refl, ap, sym, ◌∙◌, ◌⊎◌, inl,
  Bool-cases, inr, ◌≢◌, is_err, arith,
}
use ltsearch.Common.Outcome
use ltsearch.Sqlite.{Bytes, Db}
use ltsearch.Errors.{PublishError}
use ltsearch.Storage.{
  FilePath, create_only, overwrite, VersionedObject, etag_of_object, IsPointer, IsRejected,
  StorageContract,
}
use ltsearch.Storage.Calls
use ltsearch.LocalPublish.Etag.{etag_of}
use ltsearch.LocalPublish.{
  Files, FileError, not_found, other_error, HeadFaults, HeadTable, active_head, static_release_head,
  etag_of_bytes, row, set_row, head_row_cas, head_row_read, head_table, read_at, swap_at, on_files,
  on_db, local_storage, versioned, fs_upload, fs_read, place, create_copy, found, reject_head_key,
}
use ltsearch.LocalPublish.Laws.{
  any_fault, head_row_cas-exact, row-set, read_row, etag-versioned, local-StorageLaws,
}

pointer_table : (key : String) → IsPointer key → (table : HeadTable) × (head_table key ≡ some table)
unfolding head_table
pointer_table key (inl e) = (active_head, rw e refl)
pointer_table key (inr e) = (static_release_head, rw e refl)

ok-injective : {E A : Type 0} {a b : A} → ◌≡◌ {A = Result E A} (ok a) (ok b) → a ≡ b
ok-injective e = ground arith

module _ {F : Type 0} (files : Files F) (f : HeadFaults) where
  -- A swap of a pointer row, by what reads of the pointer return.
  IsSwap : String → HeadTable → Option String → Bytes → Db → F → Type 0
  IsSwap key table expected value db fs =
      let run = on_db files (head_row_cas f table expected value) (db, fs) in
      ((run.0 ≡ ok true)
        × ((o : Option VersionedObject) × (read_at files f key (some table) (db, fs) ≡ ok o)
            × (etag_of_object o ≡ expected))
        × ((tag : String) × (read_at files f key (some table) run.1
              ≡ ok (some (record { bytes = value; etag = tag })))))
      ⊎ ((run ≡ (ok false, (db, fs)))
          × ((o : Option VersionedObject)
              → read_at files f key (some table) (db, fs) ≡ ok o
              → etag_of_object o ≢ expected))
      ⊎ ((is_err run.0 ≡ true) × (run.1 ≡ (db, fs)) × (any_fault f ≡ true))

  read_tag :
      (key : String) (table : HeadTable) (db : Db) (fs : F) (o : Option VersionedObject)
      → read_at files f key (some table) (db, fs) ≡ ok o
      → etag_of_object o ≡ etag_of_bytes (row table db)
  unfolding read_at head_row_read
  read_tag key table db fs o h = elim (Bool-cases f.read) [
    | inl fails ↦ ground (arith, fails, h)
    | inr works ↦
        ap etag_of_object (ok-injective (sym h ∙ read_row files f key table db fs works))
        ∙ etag-versioned files f (row table db)
  ]

  head_row-IsSwap :
      (key : String) (table : HeadTable) (expected : Option String) (value : Bytes) (db : Db)
      (fs : F)
      → IsSwap key table expected value db fs
  unfolding on_db versioned IsSwap
  head_row-IsSwap key table expected value db fs =
      elim (head_row_cas-exact f table expected value db) [
        | inl (run, reads, same) ↦ inl (
          ap (λ p. p.0) run,
          (
            versioned files (row table db),
            read_row files f key table db fs reads,
            etag-versioned files f (row table db) ∙ same,
          ),
          (
            etag_of value,
            ap (λ p. read_at files f key (some table) (p.1, fs)) run
                ∙ read_row files f key table (set_row table value db) fs reads
                ∙ ap (λ o. ok (versioned files o)) (row-set table value db),
          ),
        )
        | inr (inl (run, other)) ↦ inr (
            inl (
              ap (λ p. (p.0, (p.1, fs))) run,
              λ o there same. other (sym (read_tag key table db fs o there) ∙ same),
            ))
        | inr (inr (failed, kept, faulty)) ↦ inr (inr (failed, ap (λ d. (d, fs)) kept, faulty))
      ]

  -- What `std::fs` says of one path: a file that can be read exists.
  abbrev pub ReadsExisting : Type 0
  ReadsExisting =
      (key : String) (fs : F) (bytes : Bytes)
      → files.read key fs ≡ ok bytes
      → files.exists key fs ≡ true

  not_pointer : (key : String) → reject_head_key key ≡ ok tt → head_table key ≡ none
  unfolding reject_head_key head_table
  not_pointer key passes = ground (arith, passes)

  exists-IsRejected :
      (key : String) (source : FilePath) (fs : F)
      → reject_head_key key ≡ ok tt
      → files.exists key fs ≡ true
      → IsRejected (fs_upload files key source create_only fs) fs
  unfolding fs_upload Calls.◌>>=◌ place create_copy
  exists-IsRejected key source fs passes there = rw (passes, there) (refl, refl)

  retired-IsRejected :
      (key : String) (source : FilePath) (fs : F) (e : PublishError)
      → reject_head_key key ≡ err e
      → IsRejected (fs_upload files key source create_only fs) fs
  unfolding fs_upload Calls.◌>>=◌
  retired-IsRejected key source fs e rejected = rw rejected (refl, refl)

  found-some :
      (r : Result FileError Bytes) (o : VersionedObject)
      → Outcome.◌>>=◌ (found files r) (λ bytes. ok (versioned files bytes)) ≡ ok (some o)
      → (bytes : Bytes) × (r ≡ ok bytes)
  unfolding found versioned
  found-some (ok bytes) o h = (bytes, refl)
  found-some (err not_found) o h = absurd (ground (arith, h))
  found-some (err other_error) o h = absurd (ground (arith, h))

  read-exists :
      ReadsExisting
      → (key : String) (db : Db) (fs : F) (o : VersionedObject) → reject_head_key key ≡ ok tt
      → read_at files f key none (db, fs) ≡ ok (some o)
      → files.exists key fs ≡ true
  unfolding read_at fs_read
  read-exists exists key db fs o passes h =
      let (bytes, there) = found-some (files.read key fs) o (rw passes at h) in
      exists key fs bytes there

  -- A file or a directory is there, or the object can be read.
  abbrev pub Stands : String → Db × F → Type 0
  Stands key s =
      (files.exists key s.1 ≡ true)
      ⊎ ((o : VersionedObject) × (read_at files f key (head_table key) s ≡ ok (some o)))

  upload-IsRejected :
      ReadsExisting
      → (key : String) (source : FilePath) (s : Db × F) → Stands key s
      → IsRejected (fs_upload files key source create_only s.1) s.1
  upload-IsRejected exists key source s stands = elim (Outcome.Result-cases (reject_head_key key)) [
    | inr (e, rejected) ↦ retired-IsRejected key source s.1 e rejected
    | inl (_, passes) ↦ exists-IsRejected key source s.1 passes (elim stands [
      | inl there ↦ there
      | inr (o, h) ↦ read-exists exists key s.0 s.1 o passes (rw (not_pointer key passes) at h)
    ])
  ]

  fresh_upload :
      (key : String) (source : FilePath) (s : Db × F)
      → ¬ Stands key s
      → fs_upload files key source create_only s.1 ≡ fs_upload files key source overwrite s.1
  unfolding fs_upload place create_copy Calls.◌>>=◌
  fresh_upload key source s free = elim (Bool-cases (files.exists key s.1)) [
    | inl there ↦ absurd (free (inl there))
    | inr absent ↦ elim (Outcome.Result-cases (reject_head_key key)) [
      | inl (_, passes) ↦ rw (passes, absent) refl
      | inr (e, rejected) ↦ rw rejected refl
    ]
  ]

  -- Provided that a file that can be read exists: the local storage keeps the documented contract of a
  -- publish storage, whatever the files are and whatever statements fail. A create-only upload to a key
  -- where a path or a readable object stands is an error that changes nothing, and to any other key it is
  -- the upload without that condition; a swap of either pointer says that it wrote, with the expected tag
  -- there before and the new value after, or says `false`, with another tag there and nothing changed, or
  -- is an error that changes nothing, since a statement failed; and uploads leave the pointer of the index
  -- as it is.
  pub local-StorageContract :
      ReadsExisting → StorageContract (local_storage files f) Stands (any_fault f)
  unfolding local_storage on_files swap_at IsSwap
  local-StorageContract exists = record {
    laws = local-StorageLaws files f;
    readable_exists = λ key s o h. inr (o, h);
    create_only_directory = λ key source s stands.
        let (failed, kept) = upload-IsRejected exists key source s stands in
        (failed, ap (λ fs. (s.0, fs)) kept);
    create_only_file = λ key source s stands.
        let (failed, kept) = upload-IsRejected exists key source s stands in
        (failed, ap (λ fs. (s.0, fs)) kept);
    fresh_directory =
        λ key source s free. ap (λ p. (p.0, (s.0, p.1))) (fresh_upload key source s free);
    fresh_file = λ key source s free. ap (λ p. (p.0, (s.0, p.1))) (fresh_upload key source s free);
    swaps = λ key expected value s is_pointer.
        let (table, e) = pointer_table key is_pointer in
        rw e (head_row-IsSwap key table expected value s.0 s.1);
  }
