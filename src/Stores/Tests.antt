-- ===== src/Stores/Tests.antt =====
-- A deployment with version 2 active, in SQLite and as files.
use ltsearch.Common.{
  is_err, true, none, ℕ, zero, suc, String, false, some, [], ◌∷◌, ok, err, Result, ◌≡◌, ◌↔◌, refl,
  str_eq, if◌then◌else◌,
}
use ltsearch.Common.Signed.{ℤ, pos, negsuc}
use ltsearch.Common.Text.{decimal, strip_prefix, split_once}
use ltsearch.Common.Outcome.{each}
use ltsearch.Sqlite.{Bytes, Db, empty_db}
use ltsearch.Manifest.{IndexManifest, ShardManifest, total_documents, validate_s3_uri}
use ltsearch.Head.{ManifestHead, Json, new_head, version_manifest_key}
use ltsearch.LocalPublish.{FileError, not_found}
use ltsearch.Stores.{
  StaticReleaseHead, new_static_head, sqlite_load_active_release, local_load_active_release,
  ActiveManifest, sqlite_load_head, local_load_head, load_active_manifest,
}
use ltsearch.Stores.Active.{IsActive, load_active_manifest-exact}

abbrev print : ManifestHead → Bytes
print h = elim h.updated_at [
  | pos t ↦ h.version_id ∷ 0 ∷ t ∷ []
  | negsuc t ↦ h.version_id ∷ 1 ∷ t ∷ []
]

abbrev parse : Bytes → Result String ManifestHead
parse (v ∷ zero ∷ t ∷ []) = ok (new_head v (pos t))
parse (v ∷ suc n ∷ t ∷ []) = ok (new_head v (negsuc t))
parse _ = err "not a head"

abbrev shard : ShardManifest
shard = record {
  shard_id = 0;
  document_count = 4;
  lance_path = "s3://b/lance";
  tantivy_path = "s3://b/tantivy";
}

abbrev manifest_of : ℕ → IndexManifest
manifest_of v = record {
  version_id = v;
  created_at = pos 1_700_000_000_000;
  embedding_dim = 8;
  document_count = 4;
  num_shards = 1;
  shards = shard ∷ [];
}

-- A manifest file holds its version.
abbrev parse_manifest : Bytes → Result String IndexManifest
parse_manifest [] = err "not a manifest"
parse_manifest (v ∷ rest) = ok (manifest_of v)

parse-print : (v : ℕ) (t : ℤ) → parse (print (new_head v t)) ≡ ok (new_head v t)
unfolding new_head
parse-print v (pos t) = refl
parse-print v (negsuc t) = refl

abbrev json : Json
json = record {
  print_head = print;
  parse_head = parse;
  parse_manifest = parse_manifest;
  parse_print_head = parse-print;
}

abbrev pointer : Bytes
pointer = print (new_head 2 (pos 1_700_000_000_000))

abbrev files : String → Result FileError Bytes
files key =
    if str_eq key "index/_head"
    then ok pointer
    else if str_eq key "index/versions/2/manifest.json"
    then ok (2 ∷ [])
    else err not_found

abbrev db : Db
db = record empty_db { active_head = some pointer }

abbrev active : ActiveManifest
active = record { head = new_head 2 (pos 1_700_000_000_000); manifest = manifest_of 2 }

loads_test : load_active_manifest json files (sqlite_load_head json false db) ≡ ok active
unfolding load_active_manifest sqlite_load_head new_head version_manifest_key decimal
    total_documents each validate_s3_uri strip_prefix split_once
loads_test = refl

load_active_manifest-exact_example :
    ((load_active_manifest json files (sqlite_load_head json false db) ≡ ok active) ↔ (
      (false ≡ false)
      × ((bytes : Bytes) × (db.active_head ≡ some bytes) × IsActive json files bytes active)))
    × ((load_active_manifest json files (local_load_head json files) ≡ ok active)
        ↔ ((bytes : Bytes) × (files "index/_head" ≡ ok bytes) × IsActive json files bytes active))
load_active_manifest-exact_example = load_active_manifest-exact json files false db active

abbrev release_id : String
release_id = "0123456789abcdef0123456789abcdef0123456789abcdef0123456789abcdef"

-- One byte says whether the pointer is that of the release or of a name that is no identifier.
abbrev parse_static : Bytes → Result String StaticReleaseHead
parse_static [] = err "not a head"
parse_static (zero ∷ rest) = ok (new_static_head "law" (pos 1_700_000_000_000))
parse_static (suc n ∷ rest) = ok (new_static_head release_id (pos 1_700_000_000_000))

active_release_test :
    sqlite_load_active_release parse_static false
      (record empty_db { static_release_head = some (1 ∷ []) })
    ≡ ok (some (new_static_head release_id (pos 1_700_000_000_000)))
unfolding sqlite_load_active_release new_static_head
active_release_test = refl

no_release_test : local_load_active_release parse_static (λ key. err not_found) ≡ ok none
unfolding local_load_active_release
no_release_test = refl

bad_release_test : is_err (local_load_active_release parse_static (λ key. ok (0 ∷ []))) ≡ true
unfolding local_load_active_release new_static_head
bad_release_test = refl
