-- ===== src/Activation/Bucket.antt =====
-- Test data: a bucket, and what an interrupted run has left in it.
use ltsearch.Common.{
  String, true, Option, none, some, [], ◌∷◌, Result, ok, err, str_eq, if◌then◌else◌,
}
use ltsearch.Errors.{PublishError}
use ltsearch.Sqlite.{Bytes}
use ltsearch.Head.{static_head_key}
use ltsearch.Storage.{FilePath, VersionedObject, PublishStorage}
use ltsearch.Disk.{Disk, put}
use ltsearch.Activation.Sample.{release_file}

-- A bucket: the bytes of each key.
abbrev pub object_of : Option Bytes → Option VersionedObject
object_of none = none
object_of (some bytes) = some (record { bytes = bytes; etag = "tag" })

abbrev pub uploading :
    String → Option Bytes → Option Bytes → Disk Bytes → Result PublishError (Unit {0}) × Disk Bytes
uploading key none there d = (err (PublishError.operation "failed to read"), d)
uploading key (some bytes) none d = (ok tt, put key (some bytes) d)
uploading key (some bytes) (some old) d =
    (err (PublishError.operation "refusing to overwrite existing version artifact"), d)

abbrev pub local : FilePath → Option Bytes
local (directory ∷ name ∷ []) = release_file name
local _ = none

-- Uploads of a directory are not asked for.
abbrev pub bucket : PublishStorage (Disk Bytes)
bucket = record {
  upload_directory = λ key source mode d. (err (PublishError.operation "not a file"), d);
  upload_file = λ key source mode d. uploading key (local source) (d key) d;
  read = λ key d. ok (object_of (d key));
  compare_and_swap = λ key expected value d. (ok true, put key (some value) d);
}

-- An earlier run has left one file, and another process sets the pointer again and again.
abbrev pub begun : Disk Bytes
begun key =
    if str_eq key
      "static/releases/0000000000000000000000000000000000000000000000000000000000000000/turbo_static_docid.bin"
    then some []
    else none

abbrev pub others : Disk Bytes → Disk Bytes
others d = put static_head_key (some (1_600_000_000_000 ∷ [])) d
