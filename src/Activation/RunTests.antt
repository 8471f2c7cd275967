-- ===== src/Activation/RunTests.antt =====
-- A release is uploaded to a bucket that holds one of its files already, and activated.
use ltsearch.Common.{
  String, false, Bool-cases, Option, none, some, [], ◌∷◌, Result, ok, err, ◌≡◌, ◌≢◌, refl, sym, ap,
  ◌∙◌, arith, str_eq, str_eq-ne, str_eq_iff, inl, inr, str_eq_refl,
}
use ltsearch.Common.Signed.{ℤ, pos, negsuc}
use ltsearch.Errors.{PublishError}
use ltsearch.Sqlite.{Bytes, Db, empty_db}
use ltsearch.Head.{static_head_key}
use ltsearch.Storage.{VersionedObject}
use ltsearch.LocalPublish.{Files, HeadFaults, not_found, local_storage}
use ltsearch.Manifest.{is_plausible_epoch_millis}
use ltsearch.Stores.{
  new_static_head, static_release_manifest_key, static_from_json, validate_static_head,
  is_release_id,
}
use ltsearch.Disk.{Disk}
use ltsearch.Turbo.Release.{ReleaseManifest}
use ltsearch.Turbo.Loader.Sample.{no_hash, all_aligned}
use ltsearch.Activation.Sample.{
  digest, one_hex, manifest, parse_manifest, from_utf8, release_verified,
}
use ltsearch.Activation.Bucket.{object_of, uploading, local, bucket, begun, others}
use ltsearch.Activation.Pointer.{
  StaticJson, activate_static_pointer, plan, previous_release_id, swap_planned, swapped,
}
use ltsearch.Activation.Pointer.Local.{IsActivated, activate_static_pointer-IsActivated}
use ltsearch.Common.Text.{contains_text}
use ltsearch.Turbo.Release.{sha256_hex}
use ltsearch.Activation.Install.{static_release_dir_key}
use ltsearch.Activation.Verify.{release_output_files}
use ltsearch.Activation.Upload.{
  upload_release, upload_objects, upload_object, upload_manifest, verify_remote_object, object_key,
  find_output, is_create_only_conflict, same_manifest,
}
use ltsearch.Activation.Upload.Stored.{ObjectLaws}
use ltsearch.Activation.Run.{
  Setting, CliArgs, verified_release, run, after_verify, after_upload, activate, summarized,
}
use ltsearch.Activation.Run.Served.{IsServed, run-IsServed}

abbrev now : ℤ
now = pos 1_700_000_000_000

-- A pointer is printed as its time.
abbrev json : StaticJson
json = record {
  print = λ h. elim h.updated_at [ pos t ↦ t ∷ [] | negsuc t ↦ [] ];
  parse = λ bytes. elim bytes [
    | [] ↦ err "not a head"
    | t ∷ rest ↦ ok (new_static_head digest (pos t))
  ];
}

abbrev works : HeadFaults
works = record { begin = false; read = false; write = false; commit = false }

abbrev no_files : Files (Unit {0})
no_files = record {
  exists = λ key fs. false;
  copy_tree = λ source key fs. (ok tt, fs);
  read = λ key fs. err not_found;
  create_parent = λ key fs. (ok tt, fs);
  write = λ key bytes fs. (ok tt, fs);
}

-- Another process activates the same release a little earlier.
abbrev earlier : Db × Unit {0} → Db × Unit {0}
earlier (db, fs) = (record db { static_release_head = some (1_600_000_000_000 ∷ []) }, fs)

activate_static_pointer-IsActivated_example :
    IsActivated json no_files works digest now empty_db (earlier (empty_db, tt)) (
      activate_static_pointer json (local_storage no_files works) earlier digest now (empty_db, tt))
unfolding new_static_head
activate_static_pointer-IsActivated_example =
    activate_static_pointer-IsActivated json no_files works digest now earlier empty_db tt refl

some-eq :
    (a b : Option VersionedObject)
    → ◌≡◌ {A = Result PublishError (Option VersionedObject)} (ok a) (ok b)
    → a ≡ b
some-eq a b e = cc

-- An upload that stores something stores it at a key that was free.
stored_apart :
    (key other : String) (content there : Option Bytes) (o : VersionedObject) (d : Disk Bytes)
    → d key ≡ there
    → object_of (d other) ≡ some o
    → object_of ((uploading key content there d).1 other) ≡ some o
stored_apart key other none there o d is e = e
stored_apart key other (some bytes) (some old) o d is e = e
stored_apart key other (some bytes) none o d is e = elim (Bool-cases (str_eq other key)) [
  | inl same ↦ absurd (ground (arith, is, e, ap d ((str_eq_iff other key).0 same)))
  | inr apart ↦ rw apart e
]

uploaded_there :
    (key : String) (content there : Option Bytes) (bytes : Bytes) (d : Disk Bytes)
    → content ≡ some bytes
    → (uploading key content there d).0 ≡ ok tt
    → (o : VersionedObject) × (◌≡◌ {A = Result PublishError (Option VersionedObject)}
        (ok (object_of ((uploading key content there d).1 key)))
        (ok (some o)))
      × (o.bytes ≡ bytes)
uploaded_there key none there bytes d is e = absurd (ground (arith, is))
uploaded_there key (some b) (some old) bytes d is e = absurd (ground (arith, e))
uploaded_there key (some b) none bytes d is e =
    (record { bytes = b; etag = "tag" }, rw (str_eq_refl key) refl, ground (arith, is))

bucket-ObjectLaws : ObjectLaws bucket local
bucket-ObjectLaws = record {
  uploaded = λ key source bytes d is e. uploaded_there key (local source) (d key) bytes d is e;
  kept = λ key other source o d e.
      ap ok (stored_apart key other (local source) (d key) o d refl (some-eq _ _ e));
  kept_by_swap =
      λ key other expected value o d apart e. rw (str_eq-ne other key (λ f. apart (sym f))) e;
  swapped = λ key expected value d e.
      (record { bytes = value; etag = "tag" }, rw (str_eq_refl key) refl, refl);
}

abbrev setting : Setting
setting = record {
  sha256 = no_hash;
  hex_encode = one_hex;
  local = local;
  from_utf8 = from_utf8;
  parse_manifest = parse_manifest;
  is_aligned = all_aligned;
  json = json;
  current_time_millis = now;
}

abbrev args : CliArgs
args = record { release_dir = "release" ∷ []; expect_model_id = none; expect_dim = none }

others_keep :
    (key : String) (o : VersionedObject) (d : Disk Bytes)
    → key ≢ static_head_key
    → bucket.read key d ≡ ok (some o)
    → bucket.read key (others d) ≡ ok (some o)
others_keep key o d apart e = rw (str_eq-ne key static_head_key apart) e

verified : verified_release setting args ≡ some (ok manifest)
unfolding verified_release
verified = release_verified

uploaded_test :
    (upload_release no_hash one_hex bucket others local ("release" ∷ []) manifest begun).0 ≡ ok tt
unfolding upload_release upload_objects upload_object upload_manifest verify_remote_object
    object_key find_output static_release_dir_key static_release_manifest_key
    is_create_only_conflict contains_text same_manifest release_output_files sha256_hex
uploaded_test = refl

abbrev message : String
message =
    "activated static release 0000000000000000000000000000000000000000000000000000000000000000 (previous 0000000000000000000000000000000000000000000000000000000000000000)"

after_verify_test :
    (after_verify setting bucket others args (some (ok manifest)) begun).0 ≡ some (ok message)
unfolding after_verify after_upload activate summarized activate_static_pointer plan
    previous_release_id swap_planned swapped static_from_json validate_static_head new_static_head
    is_release_id is_plausible_epoch_millis upload_release upload_objects upload_object
    upload_manifest verify_remote_object object_key find_output static_release_dir_key
    static_release_manifest_key is_create_only_conflict contains_text same_manifest
    release_output_files sha256_hex
after_verify_test = refl

run_ends : (run setting bucket others args begun).0 ≡ some (ok message)
unfolding run
run_ends =
    ap (λ v. (after_verify setting bucket others args v begun).0) verified ∙ after_verify_test

run-IsServed_example :
    (m : ReleaseManifest) × (verified_release setting args ≡ some (ok m))
    × IsServed setting bucket others args m (run setting bucket others args begun).1
run-IsServed_example =
    run-IsServed setting bucket others args bucket-ObjectLaws others_keep begun run_ends
