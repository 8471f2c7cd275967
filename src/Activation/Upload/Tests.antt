-- ===== src/Activation/Upload/Tests.antt =====
-- An upload over one file that is in the bucket already.
use ltsearch.Common.{
  String, true, Bool-cases, Option, none, some, [], ◌∷◌, Result, ok, err, ◌≡◌, ◌≢◌, refl, sym, ◌∙◌,
  subst, All, arith, str_eq, str_eq-ne, str_eq_iff, str_eq_refl, ◌⊎◌, inl, inr,
}
use ltsearch.Common.Text.{contains_text}
use ltsearch.Errors.{PublishError}
use ltsearch.Sqlite.{Bytes}
use ltsearch.Head.{static_head_key}
use ltsearch.Storage.{FilePath, VersionedObject}
use ltsearch.Stores.{static_release_manifest_key}
use ltsearch.Disk.{Disk}
use ltsearch.Turbo.Release.{sha256_hex}
use ltsearch.Turbo.Loader.Sample.{no_hash}
use ltsearch.Activation.Sample.{one_hex, manifest, output_of, output}
use ltsearch.Activation.Bucket.{object_of, uploading, local, bucket, begun, others}
use ltsearch.Activation.Install.{static_release_dir_key}
use ltsearch.Activation.Verify.{v4_release_output_files, release_output_files}
use ltsearch.Activation.Upload.{object_key, find_output, is_create_only_conflict, upload_release}
use ltsearch.Activation.Upload.Stored.{IsFound}
use ltsearch.Activation.Upload.Answers.{AnswerLaws, object_key-injective}
use ltsearch.Activation.Upload.Resume.{IsOf, upload_release_resumes}

some-eq :
    (a b : Option VersionedObject)
    → ◌≡◌ {A = Result PublishError (Option VersionedObject)} (ok a) (ok b)
    → a ≡ b
some-eq a b e = cc

abbrev reads : Option Bytes → Result PublishError (Option VersionedObject)
reads there = ok (object_of there)

answered_by :
    (key : String) (content there : Option Bytes) (bytes : Bytes) (d : Disk Bytes)
    → d key ≡ there
    → content ≡ some bytes
    → ((uploading key content there d).0 ≡ ok tt)
      ⊎ ((e : PublishError) × (o : VersionedObject) × ((uploading key content there d).0 ≡ err e)
          × (is_create_only_conflict e ≡ true)
          × (reads ((uploading key content there d).1 key) ≡ ok (some o)))
unfolding is_create_only_conflict contains_text
answered_by key none there bytes d is e = absurd (ground (arith, e))
answered_by key (some b) none bytes d is e = inl refl
answered_by key (some b) (some old) bytes d is e =
    inr (_, record { bytes = old; etag = "tag" }, refl, refl, rw is refl)

apart_by :
    (key other : String) (content there : Option Bytes) (d : Disk Bytes)
    → other ≢ key
    → reads ((uploading key content there d).1 other) ≡ reads (d other)
apart_by key other none there d apart = refl
apart_by key other (some b) (some old) d apart = refl
apart_by key other (some b) none d apart = rw (str_eq-ne other key apart) refl

new_or_old_by :
    (key : String) (content there : Option Bytes) (bytes : Bytes) (o : VersionedObject)
    (d : Disk Bytes)
    → content ≡ some bytes
    → reads ((uploading key content there d).1 key) ≡ ok (some o)
    → (o.bytes ≡ bytes) ⊎ (reads (d key) ≡ ok (some o))
new_or_old_by key none there bytes o d is e = inr e
new_or_old_by key (some b) (some old) bytes o d is e = inr e
new_or_old_by key (some b) none bytes o d is e = inl (ground (arith, e, is, str_eq_refl key))

bucket-AnswerLaws : AnswerLaws bucket local
bucket-AnswerLaws = record {
  answered = λ key source bytes d is. answered_by key (local source) (d key) bytes d refl is;
  apart = λ key other source d apart. apart_by key other (local source) (d key) d apart;
  new_or_old = λ key source bytes o d is e. new_or_old_by key (local source) (d key) bytes o d is e;
}

abbrev files_of_release : FilePath
files_of_release = "release" ∷ []

abbrev local_file : String → Option Bytes
local_file name = local ("release" ∷ name ∷ [])

local_at :
    (name : String)
    → find_output name manifest.outputs ≡ some (output name)
    → IsFound no_hash one_hex local_file manifest.outputs name
unfolding sha256_hex
local_at name found = (output name, output_of name, found, refl, (refl, refl))

local_files : All (IsFound no_hash one_hex local_file manifest.outputs) v4_release_output_files
unfolding find_output
local_files = (
  local_at "codebook.bin" refl,
  (
    local_at "qjl.bin" refl,
    (
      local_at "rotation.bin" refl,
      (
        local_at "turbo_static.bin" refl,
        (
          local_at "turbo_static_docid.bin" refl,
          (
            local_at "turbo_static_meta.bin" refl,
            (
              local_at "turbo_static_meta_ext.bin" refl,
              (
                local_at "turbo_static_meta_json.bin" refl,
                (
                  local_at "turbo_static_text.bin" refl,
                  (local_at "turbo_static_title.bin" refl, tt),
                ),
              ),
            ),
          ),
        ),
      ),
    ),
  ),
)

others_store :
    (key : String) (o : VersionedObject) (d : Disk Bytes)
    → key ≢ static_head_key
    → bucket.read key (others d) ≡ ok (some o)
    → bucket.read key d ≡ ok (some o)
others_store key o d apart e = ground (arith, e, str_eq-ne key static_head_key apart)

abbrev docid_key : String
docid_key =
    "static/releases/0000000000000000000000000000000000000000000000000000000000000000/turbo_static_docid.bin"

docid_key-eq : object_key manifest "turbo_static_docid.bin" ≡ docid_key
unfolding object_key static_release_dir_key
docid_key-eq = refl

docid-IsOf :
    IsOf no_hash one_hex bucket manifest others local files_of_release "turbo_static_docid.bin" []
unfolding find_output sha256_hex
docid-IsOf = (output "turbo_static_docid.bin", refl, (refl, refl))

nothing_else :
    (key : String) (o : VersionedObject)
    → bucket.read key begun ≡ ok (some o)
    → (key ≡ docid_key) × (o.bytes ≡ [])
nothing_else key o e = elim (Bool-cases (str_eq key docid_key)) [
  | inl same ↦ ((str_eq_iff key docid_key).0 same, ground (arith, e, same))
  | inr differs ↦ absurd (ground (arith, e, differs))
]

objects :
    (name : String) (o : VersionedObject)
    → bucket.read (object_key manifest name) begun ≡ ok (some o)
    → IsOf no_hash one_hex bucket manifest others local files_of_release name o.bytes
objects name o e =
    let (key, empty) = nothing_else (object_key manifest name) o e in
    let same : name ≡ "turbo_static_docid.bin" =
      object_key-injective manifest name "turbo_static_docid.bin" (key ∙ sym docid_key-eq) in
    subst (λ n. IsOf no_hash one_hex bucket manifest others local files_of_release n o.bytes)
      (sym same)
      (subst
        (IsOf no_hash one_hex bucket manifest others local files_of_release
          "turbo_static_docid.bin")
        (sym empty) docid-IsOf)

no_manifest :
    (o : VersionedObject)
    → bucket.read (static_release_manifest_key manifest.release_id) begun ≡ ok (some o)
    → local_file "release_manifest.json" ≡ some o.bytes
unfolding static_release_manifest_key
no_manifest o e = absurd (ground (arith, e))

upload_release_resumes_example :
    (upload_release no_hash one_hex bucket others local ("release" ∷ []) manifest begun).0 ≡ ok tt
unfolding release_output_files
upload_release_resumes_example =
    upload_release_resumes no_hash one_hex bucket manifest others local ("release" ∷ [])
      bucket-AnswerLaws others_store v4_release_output_files [] begun refl local_files refl objects
      no_manifest
