-- ===== src/LocalPublish/Tests.antt =====
-- Runs of the local storage over a list of files.
use ltsearch.Common.{
  String, Bool, true, false, Bool-cases, inl, inr, ◌≡◌, refl, arith, List, [], ◌∷◌, ok, err, Result,
  str_eq, if◌then◌else◌,
}
use ltsearch.Sqlite.{Bytes}
use ltsearch.Storage.{StorageContract}
use ltsearch.LocalPublish.{Files, FileError, not_found, HeadFaults, local_storage}
use ltsearch.LocalPublish.Laws.{any_fault}
use ltsearch.LocalPublish.Contract.{Stands, local-StorageContract}

abbrev Entries : Type 0
Entries = List (String × Bytes)

read_entry : String → Entries → Result FileError Bytes
read_entry key [] = err not_found
read_entry key ((k, bytes) ∷ rest) =
    let later = read_entry key rest in if str_eq k key then ok bytes else later

exists_entry : String → Entries → Bool
exists_entry key [] = false
exists_entry key ((k, bytes) ∷ rest) =
    let later = exists_entry key rest in if str_eq k key then true else later

reads-existing :
    (key : String) (fs : Entries) (bytes : Bytes)
    → read_entry key fs ≡ ok bytes
    → exists_entry key fs ≡ true
unfolding read_entry exists_entry
reads-existing key [] bytes h = absurd (ground (arith, h))
reads-existing key ((k, stored) ∷ rest) bytes h = elim (Bool-cases (str_eq k key)) [
  | inl same ↦ rw same refl
  | inr other ↦ rw other (reads-existing key rest bytes (rw other at h))
]

abbrev files : Files Entries
files = record {
  exists = exists_entry;
  copy_tree = λ source key fs. (ok tt, (key, []) ∷ fs);
  read = read_entry;
  create_parent = λ key fs. (ok tt, fs);
  write = λ key bytes fs. (ok tt, (key, bytes) ∷ fs);
}

abbrev works : HeadFaults
works = record { begin = false; read = false; write = false; commit = false }

local-StorageContract_example :
    StorageContract (local_storage files works) (Stands files works) (any_fault works)
local-StorageContract_example = local-StorageContract files works reads-existing
