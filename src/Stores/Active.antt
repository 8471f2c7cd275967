-- ===== src/Stores/Active.antt =====
-- What an active manifest is, and that this is what the stores load.
use ltsearch.Common.{
  String, Bool, true, false, some, ok, Result, ◌≡◌, ◌↔◌, refl, arith, sym, ◌∙◌, not,
}
use ltsearch.Common.Outcome.{guard, map_err, ok_or, >>=-eq-ok, ok_or-eq-ok}
use ltsearch.Sqlite.{Bytes, Db}
use ltsearch.Manifest.{validate_manifest}
use ltsearch.Head.{Json, ManifestHead, validate_head, from_json}
use ltsearch.LocalPublish.{FileError}
use ltsearch.Stores.{
  ActiveManifest, ManifestStoreError, head_of_bytes, read_to_string, sqlite_load_head,
  local_load_head, load_active_manifest,
}

module _ (json : Json) (read : String → Result FileError Bytes) where
  -- The head is a valid document of the bytes; the file at its path, which is that of its version, is a
  -- valid manifest of the version.
  abbrev pub IsActive : Bytes → ActiveManifest → Type 0
  IsActive bytes active =
      (json.parse_head bytes ≡ ok active.head)
      × (validate_head active.head ≡ ok tt)
      × ((contents : Bytes) × (read active.head.manifest_path ≡ ok contents)
          × (json.parse_manifest contents ≡ ok active.manifest))
      × (validate_manifest active.manifest ≡ ok tt)
      × (active.manifest.version_id ≡ active.head.version_id)

  head_of_bytes-exact :
      (bytes : Bytes) (head : ManifestHead)
      → (head_of_bytes json bytes ≡ ok head)
        ↔ ((json.parse_head bytes ≡ ok head) × (validate_head head ≡ ok tt))
  unfolding head_of_bytes from_json
  head_of_bytes-exact bytes head = ground arith

  load_active_manifest-ok :
      (loaded : Result ManifestStoreError ManifestHead) (active : ActiveManifest)
      → load_active_manifest json read loaded ≡ ok active
      → (loaded ≡ ok active.head)
        × ((contents : Bytes) × (read active.head.manifest_path ≡ ok contents)
            × (json.parse_manifest contents ≡ ok active.manifest))
        × (validate_manifest active.manifest ≡ ok tt)
        × (active.manifest.version_id ≡ active.head.version_id)
  unfolding load_active_manifest read_to_string
  load_active_manifest-ok loaded active e = >>=-eq-ok loaded _ e λ head loads e1.
      >>=-eq-ok (read_to_string json read head.manifest_path false) _ e1 λ contents reads e2.
        >>=-eq-ok
          (map_err (ManifestStoreError.invalid_manifest head.manifest_path)
            (json.parse_manifest contents))
          _ e2
          λ manifest parses e3.
            let same_head : head ≡ active.head = ground (arith, e3) in
            (
              ground (arith, loads, same_head),
              (contents, ground (arith, reads, same_head), ground (arith, parses, e3)),
              ground (arith, e3),
              ground (arith, e3),
            )

  ok_load_active_manifest :
      (loaded : Result ManifestStoreError ManifestHead) (active : ActiveManifest)
      → loaded ≡ ok active.head
      → (contents : Bytes) → read active.head.manifest_path ≡ ok contents
      → json.parse_manifest contents ≡ ok active.manifest
      → validate_manifest active.manifest ≡ ok tt
      → active.manifest.version_id ≡ active.head.version_id
      → load_active_manifest json read loaded ≡ ok active
  unfolding load_active_manifest read_to_string
  ok_load_active_manifest loaded active loads contents reads parses valid same =
      rw (loads, reads, parses, valid) (ground (arith, same))

  sqlite_load_head-ok :
      (fails : Bool) (db : Db) (head : ManifestHead)
      → sqlite_load_head json fails db ≡ ok head
      → (fails ≡ false)
        × ((bytes : Bytes) × (db.active_head ≡ some bytes) × (head_of_bytes json bytes ≡ ok head))
  unfolding sqlite_load_head
  sqlite_load_head-ok fails db head e =
      >>=-eq-ok (guard (not fails) (ManifestStoreError.invalid_head "failed to read active head")) _
        e
        λ u works e1.
          >>=-eq-ok (ok_or db.active_head (ManifestStoreError.missing_head "index/_head")) _ e1
            λ bytes row e2. (ground (arith, works), (bytes, ok_or-eq-ok db.active_head _ row, e2))

  local_load_head-ok :
      (head : ManifestHead)
      → local_load_head json read ≡ ok head
      → (bytes : Bytes) × (read "index/_head" ≡ ok bytes) × (head_of_bytes json bytes ≡ ok head)
  unfolding local_load_head read_to_string
  local_load_head-ok head e =
      >>=-eq-ok (read_to_string json read "index/_head" true) _ e
        λ bytes reads e1. (bytes, ground (arith, reads), e1)

  assembled :
      (loaded : Result ManifestStoreError ManifestHead) (bytes : Bytes) (active : ActiveManifest)
      → head_of_bytes json bytes ≡ loaded
      → IsActive bytes active
      → load_active_manifest json read loaded ≡ ok active
  assembled loaded bytes active e (parses, valid, (contents, reads, holds), good, same) =
      ok_load_active_manifest loaded active
        (sym e ∙ (head_of_bytes-exact bytes active.head).1 (parses, valid)) contents reads holds
        good same

  taken_apart :
      (loaded : Result ManifestStoreError ManifestHead) (bytes : Bytes) (active : ActiveManifest)
      → head_of_bytes json bytes ≡ ok active.head
      → load_active_manifest json read loaded ≡ ok active
      → IsActive bytes active
  taken_apart loaded bytes active e loads =
      let (parses, valid) = (head_of_bytes-exact bytes active.head).0 e in
      let (_, holds, good, same) = load_active_manifest-ok loaded active loads in
      (parses, valid, holds, good, same)

  -- Both stores load an active manifest exactly if their pointer, the row or the file, holds bytes of
  -- which it is the active manifest; for SQLite, if the statement does not fail.
  pub load_active_manifest-exact :
      (fails : Bool) (db : Db) (active : ActiveManifest)
      → ((load_active_manifest json read (sqlite_load_head json fails db) ≡ ok active) ↔ (
          (fails ≡ false)
          × ((bytes : Bytes) × (db.active_head ≡ some bytes) × IsActive bytes active)))
        × ((load_active_manifest json read (local_load_head json read) ≡ ok active)
            ↔ ((bytes : Bytes) × (read "index/_head" ≡ ok bytes) × IsActive bytes active))
  unfolding sqlite_load_head local_load_head read_to_string
  load_active_manifest-exact fails db active = (
    (
      λ e.
          let loads = (load_active_manifest-ok (sqlite_load_head json fails db) active e).0 in
          let (works, (bytes, row, good)) = sqlite_load_head-ok fails db active.head loads in
          (works, (bytes, row, taken_apart _ bytes active good e)),
      λ (works, (bytes, row, is)). assembled _ bytes active (rw (works, row) refl) is,
    ),
    (
      λ e.
          let loads = (load_active_manifest-ok (local_load_head json read) active e).0 in
          let (bytes, reads, good) = local_load_head-ok active.head loads in
          (bytes, reads, taken_apart _ bytes active good e),
      λ (bytes, reads, is). assembled _ bytes active (rw (reads) refl) is,
    ),
  )
