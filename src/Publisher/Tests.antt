-- ===== src/Publisher/Tests.antt =====
-- Runs of a publish and of a rollback over a small storage, beside another process.
use ltsearch.Common.{
  ℕ, zero, suc, String, Bool, true, false, Option, none, some, [], ◌∷◌, ok, err, Result, str_eq,
  str_eq_iff, Bool-cases, if◌then◌else◌, ◌≡◌, refl, ap, ◌⊎◌, inl, inr, arith,
}
use ltsearch.Common.Signed.{ℤ, pos, negsuc}
use ltsearch.Errors.{PublishError}
use ltsearch.Sqlite.{Bytes}
use ltsearch.Common.Outcome.{each}
use ltsearch.Common.Text.{strip_prefix, split_once, decimal, decimal_before}
use ltsearch.Common.Segments.{segments}
use ltsearch.Manifest.{
  ShardManifest, IndexManifest, validate_manifest, validate_s3_uri, total_documents,
  is_plausible_epoch_millis, same_manifest,
}
use ltsearch.Head.{
  ManifestHead, Json, index_head_key, new_head, version_manifest_key, validate_head, from_json,
}
use ltsearch.Storage.{VersionedObject, PublishStorage, StorageLaws, etag_of_object}
use ltsearch.Storage.Calls.{◌>>=◌}
use ltsearch.Publisher.{
  PublishRequest, RollbackRequest, PublishResult, Disk, Others, version_of, publish, rollback,
  observed_head_version, validate_updated_at, validate_publish_version, parse_current, parse_head,
  read_head, upload_all, swap_head, conclude_swap, prepare_uploads, prepare_shard,
  validate_manifest_file, validate_stored_manifest,
}
use ltsearch.Publisher.Paths.{
  s3_key, artifact_source_path, validate_relative_storage_key, validate_directory_tree_within_root,
  walk, visit,
}
use ltsearch.BuildWorker.{
  next_version_id, version_after, after_object, Services, SnapshotBuildRequest, BuildLambdaError,
  process_queue_message,
}
use ltsearch.BuildWorker.Builds.{IsProcessed, process_queue_message-IsProcessed}
use ltsearch.Publisher.Advance.{
  Occurring, Older, IsExpected, IsStored, Moved, publish-ok, rollback-ok, publish-observed,
}

abbrev print : ManifestHead → Bytes
print h = elim h.updated_at [
  | pos t ↦ h.version_id ∷ 0 ∷ t ∷ []
  | negsuc t ↦ h.version_id ∷ 1 ∷ t ∷ []
]

abbrev parse : Bytes → Result String ManifestHead
parse (v ∷ zero ∷ t ∷ []) = ok (new_head v (pos t))
parse (v ∷ suc n ∷ t ∷ []) = ok (new_head v (negsuc t))
parse _ = err "not a head"

abbrev shard : ShardManifest
shard = record {
  shard_id = 0;
  document_count = 4;
  lance_path = "s3://b/lance";
  tantivy_path = "s3://b/tantivy";
}

abbrev manifest_of : ℕ → IndexManifest
manifest_of v = record {
  version_id = v;
  created_at = pos 1_700_000_000_000;
  embedding_dim = 8;
  document_count = 4;
  num_shards = 1;
  shards = shard ∷ [];
}

-- A manifest file holds its version.
abbrev parse_manifest : Bytes → Result String IndexManifest
parse_manifest [] = err "not a manifest"
parse_manifest (v ∷ rest) = ok (manifest_of v)

parse-print : (v : ℕ) (t : ℤ) → parse (print (new_head v t)) ≡ ok (new_head v t)
unfolding new_head
parse-print v (pos t) = refl
parse-print v (negsuc t) = refl

abbrev json : Json
json = record {
  print_head = print;
  parse_head = parse;
  parse_manifest = parse_manifest;
  parse_print_head = parse-print;
}

-- One directory of artifacts, with the manifest of version 2 as every file.
abbrev disk : Disk
disk = record {
  root = "artifacts" ∷ [];
  canonicalize = λ p. ok p;
  read_file = λ p. ok (2 ∷ []);
  is_dir = λ p. ok true;
  is_symlink = λ p. ok false;
  read_dir = λ p. ok [];
}

abbrev same_tag : Option String → Option String → Bool
same_tag none none = true
same_tag none (some b) = false
same_tag (some a) none = false
same_tag (some a) (some b) = str_eq a b

-- The state is the pointer; every manifest of a stored version is that of version 1.
abbrev swap_pointer :
    Option String
    → Bytes
    → Option VersionedObject
    → Result PublishError Bool × Option VersionedObject
swap_pointer expected value s =
    if same_tag (etag_of_object s) expected
    then (ok true, some (record { bytes = value; etag = "new" }))
    else (ok false, s)

abbrev storage : PublishStorage (Option VersionedObject)
storage = record {
  upload_directory = λ key source mode s. (ok tt, s);
  upload_file = λ key source mode s. (ok tt, s);
  read = λ key s.
      if str_eq key index_head_key then ok s else ok (some (record { bytes = 1 ∷ []; etag = "m" }));
  compare_and_swap = λ key expected value s. swap_pointer expected value s;
}

same_tag-eq : (a b : Option String) → same_tag a b ≡ true → a ≡ b
same_tag-eq none none h = refl
same_tag-eq none (some b) h = cc
same_tag-eq (some a) none h = cc
same_tag-eq (some a) (some b) h = ap some ((str_eq_iff a b).0 h)

swap_pointer-ok :
    (expected : Option String) (value : Bytes) (s : Option VersionedObject)
    → (swap_pointer expected value s).0 ≡ ok true
    → (etag_of_object s ≡ expected)
      × ((swap_pointer expected value s).1 ≡ some (record { bytes = value; etag = "new" }))
swap_pointer-ok expected value s h = elim (Bool-cases (same_tag (etag_of_object s) expected)) [
  | inl hit ↦ (same_tag-eq _ _ hit, rw hit refl)
  | inr miss ↦ ground (arith, miss)
]

swap_pointer-refused :
    (expected : Option String) (value : Bytes) (s : Option VersionedObject)
    → (swap_pointer expected value s).0 ≡ ok false
    → (swap_pointer expected value s).1 ≡ s
swap_pointer-refused expected value s h = elim (Bool-cases (same_tag (etag_of_object s) expected)) [
  | inl hit ↦ ground (arith, hit)
  | inr miss ↦ rw miss refl
]

storage-laws : StorageLaws storage
storage-laws = record {
  upload_directory_keeps_head = λ key source mode s. refl;
  upload_file_keeps_head = λ key source mode s. refl;
  swapped = λ expected value s h.
      let (same, written) = swap_pointer-ok expected value s h in
      ((s, refl, same), ("new", ap ok written));
  refused = swap_pointer-refused;
}

abbrev first : VersionedObject
first = record { bytes = print (new_head 1 (pos 1_700_000_000_000)); etag = "first" }

abbrev second : VersionedObject
second = record { bytes = print (new_head 2 (pos 1_700_000_000_001)); etag = "new" }

-- Before the pointer is read another process writes it.
abbrev others : VersionedObject → Others (Option VersionedObject)
others o = record {
  before_read = λ s. some o;
  before_upload = λ n s. s;
  before_swap = λ s. s;
  before_observe = λ s. s;
}

abbrev Known : VersionedObject → Result PublishError (Option VersionedObject) → Type 0
Known o r = (r ≡ ok none) ⊎ (r ≡ ok (some o))

same_bytes :
    (o a b : VersionedObject)
    → Known o (ok (some a))
    → Known o (ok (some b))
    → a.etag ≡ b.etag
    → a.bytes ≡ b.bytes
same_bytes o a b p q e = ground arith

occurring : (o : VersionedObject) → Occurring storage (others o) (Known o)
occurring o = record {
  by_read = λ s q. inr refl;
  by_upload = λ n s q. q;
  by_swap = λ s q. q;
  one_tag = same_bytes o;
}

abbrev request : PublishRequest
request = record {
  manifest = manifest_of 2;
  expected_current_version = some 1;
  updated_at = pos 1_700_000_000_001;
}

abbrev published : PublishResult
published = record { activated_version_id = 2; previous_version_id = some 1 }

publishes : publish storage json disk 9 (others first) request none ≡ (ok published, some second)
unfolding publish ◌>>=◌ validate_manifest validate_s3_uri total_documents strip_prefix split_once
    segments each is_plausible_epoch_millis validate_updated_at validate_publish_version
    parse_current parse_head read_head upload_all swap_head conclude_swap prepare_uploads
    prepare_shard s3_key artifact_source_path validate_relative_storage_key
    validate_directory_tree_within_root walk visit version_manifest_key decimal decimal_before
    validate_manifest_file same_manifest new_head validate_head from_json
publishes = refl

publish-ok_example :
    (m : Moved storage json disk 9 2 second.bytes published (some second)) × Older m.old 2
    × IsExpected (some 1) m.old
publish-ok_example =
    publish-ok storage json disk 9 storage-laws (others first) (Known first) (occurring first)
      request none (inl refl) publishes

publish-observed_example :
    observed_head_version storage json disk 9 (some second) ≡ (ok (some 2), some second)
publish-observed_example =
    publish-observed storage json disk 9 storage-laws (others first) request none publishes

abbrev back : RollbackRequest
back = record {
  target_version_id = 1;
  expected_current_version = some 2;
  updated_at = pos 1_700_000_000_002;
}

abbrev restored : VersionedObject
restored = record { bytes = print (new_head 1 (pos 1_700_000_000_002)); etag = "new" }

abbrev rolled_back : PublishResult
rolled_back = record { activated_version_id = 1; previous_version_id = some 2 }

rolls_back :
    rollback storage json disk 9 (others second) back none ≡ (ok rolled_back, some restored)
unfolding rollback ◌>>=◌ validate_manifest validate_s3_uri total_documents strip_prefix split_once
    each is_plausible_epoch_millis validate_updated_at validate_publish_version parse_current
    parse_head read_head swap_head conclude_swap validate_stored_manifest version_manifest_key
    decimal decimal_before new_head validate_head from_json
rolls_back = refl

rollback-ok_example :
    (m : Moved storage json disk 9 1 restored.bytes rolled_back (some restored)) × (version_of m.old
      ≡ some 2)
    × (o : VersionedObject) × (storage.read (version_manifest_key 1) (some second) ≡ ok (some o))
    × IsStored storage json disk 9 o.bytes 1
rollback-ok_example =
    rollback-ok storage json disk 9 storage-laws (others second) (Known second) (occurring second)
      back none (inl refl) rolls_back

-- The first build meets a conflict, since another process publishes the first version meanwhile.
abbrev build_once :
    SnapshotBuildRequest
    → Option ℕ
    → Option VersionedObject
    → Result BuildLambdaError ℕ × Option VersionedObject
build_once r none s =
    (err (record { error_type = "publish_error"; message = "publish conflict" }), some first)
build_once r (some v) s = (ok r.version_id, s)

abbrev services : Services (Option VersionedObject)
services = record {
  parse_message = λ body. ok (record { batch_id = body; wal_key = "wal/1" });
  embedding_dim = ok 8;
  list_wal_keys = λ s. ok [];
  run_build = build_once;
  has_text = λ text message. str_eq text message;
}

processes : process_queue_message storage json services "b1" none ≡ (ok 2, some first)
unfolding process_queue_message next_version_id version_after after_object from_json validate_head
    new_head version_manifest_key decimal decimal_before is_plausible_epoch_millis
processes = refl

process_queue_message-IsProcessed_example :
    IsProcessed storage json services "b1" none 2 (some first)
process_queue_message-IsProcessed_example =
    process_queue_message-IsProcessed storage json services "b1" none processes
