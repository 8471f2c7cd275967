-- ===== src/Activation/Upload/Resume.antt =====
-- An upload over what an interrupted one has left ends with the whole release.

use ltsearch.Common.{
  ℕ, String, Bool-cases, Option, some, List, [], ◌∷◌, Result, ok, ◌≡◌, ◌≢◌, refl, sym, ap, ◌∙◌,
  subst, All, arith, str_eq, str_eq_iff, str_eq_refl, inl, inr,
}
use ltsearch.Errors.{PublishError}
use ltsearch.Sqlite.{Bytes}
use ltsearch.Head.{static_head_key}
use ltsearch.Storage.{FilePath, VersionedObject, create_only, PublishStorage}
use ltsearch.Stores.{static_release_manifest_key}
use ltsearch.Turbo.Release.{ReleaseManifest, OutputFile}
use ltsearch.Activation.Verify.{release_output_files, release_manifest_file}
use ltsearch.Activation.Upload.{
  object_key, source_of, find_output, verify_remote_object, upload_object, upload_objects,
  same_manifest, upload_manifest, upload_release, upload_all,
}
use ltsearch.Activation.Upload.Steps.{resume-state}
use ltsearch.Activation.Upload.Stored.{Fits, IsFound, object_key-ne, manifest_key-ne}
use ltsearch.Activation.Upload.Answers.{
  AnswerLaws, object_key-injective, manifest-ne-object, same_bytes_refl, none_is_manifest-All,
  files_apart, some-eq, resume_done, resume_checked, and_step_ok,
}

module _ (sha256 : List ℕ → List ℕ) (hex_encode : List ℕ → String) {S : Type 0}
    (store : PublishStorage S) (m : ReleaseManifest) (others : S → S)
    (local : FilePath → Option Bytes) (release_dir : FilePath) where
  -- The bytes are those of the output of that name.
  abbrev pub IsOf : String → Bytes → Type 0
  IsOf name bytes =
      (o : OutputFile) × (find_output name m.outputs ≡ some o) × Fits sha256 hex_encode o bytes

  abbrev manifest_bytes : Option Bytes
  manifest_bytes = local (source_of release_dir release_manifest_file)

  abbrev HoldsObjects : S → Type 0
  HoldsObjects s =
      (name : String) (o : VersionedObject)
      → store.read (object_key m name) s ≡ ok (some o)
      → IsOf name o.bytes

  abbrev HoldsManifest : S → Type 0
  HoldsManifest s =
      (o : VersionedObject)
      → store.read (static_release_manifest_key m.release_id) s ≡ ok (some o)
      → manifest_bytes ≡ some o.bytes

  abbrev IsLocal : String → Type 0
  IsLocal name = IsFound sha256 hex_encode (λ n. local (source_of release_dir n)) m.outputs name

  module _ (laws : AnswerLaws store local)
      (others_store : (key : String) (o : VersionedObject) (s : S)
        → key ≢ static_head_key
        → store.read key (others s) ≡ ok (some o)
        → store.read key s ≡ ok (some o)) where
    abbrev uploads : String → FilePath → S → Result PublishError (Unit {0}) × S
    uploads key source s = store.upload_file key source create_only (others s)

    -- What is at a release's key after an upload of another key.
    other_kept :
        (key other : String) (source : FilePath) (o : VersionedObject) (s : S)
        → other ≢ key
        → other ≢ static_head_key
        → store.read other (uploads key source s).1 ≡ ok (some o)
        → store.read other s ≡ ok (some o)
    other_kept key other source o s apart below e =
        others_store other o s below (sym (laws.apart key other source (others s) apart) ∙ e)

    uploads-HoldsObjects :
        (name : String) (s : S)
        → IsLocal name
        → HoldsObjects s
        → HoldsObjects (uploads (object_key m name) (source_of release_dir name) s).1
    uploads-HoldsObjects name s (out, bytes, found, there, fits) holds other o e =
        elim (Bool-cases (str_eq other name)) [
          | inr differ ↦ holds other o (
              other_kept (object_key m name) (object_key m other) (source_of release_dir name) o s
                (λ same. cc (
                  differ,
                  ap (str_eq other) (object_key-injective m other name same),
                  str_eq_refl other,
                ))
                (object_key-ne m other) e)
          | inl same ↦
              let is : other ≡ name = (str_eq_iff other name).0 same in
              elim (laws.new_or_old (object_key m name) (source_of release_dir name) bytes o
                (others s) there
                (subst
                  (λ n.
                    store.read (object_key m n)
                      (uploads (object_key m name) (source_of release_dir name) s).1
                    ≡ ok (some o))
                  is e)) [
                    | inl new ↦ (
                      out,
                      ap (λ n. find_output n m.outputs) is ∙ found,
                      subst (Fits sha256 hex_encode out) (sym new) fits,
                    )
                    | inr old ↦ holds other o (
                        others_store (object_key m other) o s (object_key-ne m other)
                          (ap (λ n. store.read (object_key m n) (others s)) is ∙ old))
                  ]
        ]

    uploads-HoldsManifest :
        (name : String) (s : S)
        → name ≢ release_manifest_file
        → HoldsManifest s
        → HoldsManifest (uploads (object_key m name) (source_of release_dir name) s).1
    uploads-HoldsManifest name s apart holds o e = holds o (
        other_kept (object_key m name) (static_release_manifest_key m.release_id)
          (source_of release_dir name) o s (manifest-ne-object m name apart)
          (manifest_key-ne m.release_id) e)

    -- The check of an object that is there passes.
    remote_ok :
        (name : String) (o : VersionedObject) (s : S)
        → store.read (object_key m name) s ≡ ok (some o)
        → IsOf name o.bytes
        → verify_remote_object sha256 hex_encode store others local release_dir m name s ≡ ok tt
    unfolding verify_remote_object
    remote_ok name o s there (out, found, (size, hash)) =
        rw (found, there, size, hash, str_eq_refl out.sha256) (ground arith)

    manifest_ok :
        (bytes : Bytes) (o : VersionedObject) (s : S)
        → store.read (static_release_manifest_key m.release_id) s ≡ ok (some o)
        → o.bytes ≡ bytes
        → same_manifest sha256 hex_encode store others local release_dir m bytes s ≡ ok tt
    unfolding same_manifest
    manifest_ok bytes o s there same = rw (there, same, same_bytes_refl bytes) refl

    abbrev object_step : String → S → Result String (Unit {0}) × S
    object_step = upload_object sha256 hex_encode store others local release_dir m

    abbrev steps : List String → S → Result String (Unit {0}) × S
    steps = upload_objects sha256 hex_encode store others local release_dir m

    object_ok :
        (name : String) (s : S) → IsLocal name → HoldsObjects s → (object_step name s).0 ≡ ok tt
    unfolding upload_object
    object_ok name s (out, bytes, found, there, fits) holds =
        let key : String = object_key m name in
        let p : Result PublishError (Unit {0}) × S = uploads key (source_of release_dir name) s in
        elim (laws.answered key (source_of release_dir name) bytes (others s) there) [
          | inl done ↦ resume_done _ p done
          | inr (e, o, refused, conflict, held) ↦ resume_checked _ p e refused conflict (
              remote_ok name o p.1 held
                (uploads-HoldsObjects name s (out, bytes, found, there, fits) holds name o held))
        ]

    step_state :
        (name : String) (s : S)
        → (object_step name s).1 ≡ (uploads (object_key m name) (source_of release_dir name) s).1
    unfolding upload_object
    step_state name s = resume-state _ (uploads (object_key m name) (source_of release_dir name) s)

    abbrev Ends : (S → Result String (Unit {0}) × S) → S → Type 0
    Ends run s = ((run s).0 ≡ ok tt) × HoldsManifest (run s).1

    steps-Ends :
        (names : List String) (s : S)
        → All IsLocal names
        → All (λ name. name ≢ release_manifest_file) names
        → HoldsObjects s
        → HoldsManifest s
        → Ends (steps names) s
    unfolding upload_objects
    steps-Ends [] s local_files apart objects manifest = (refl, manifest)
    steps-Ends (name ∷ names) s (here, local_files) (differs, apart) objects manifest =
        let p : Result PublishError (Unit {0}) × S =
          uploads (object_key m name) (source_of release_dir name) s in
        let t : S = (object_step name s).1 in
        let same : t ≡ p.1 = step_state name s in
        let rest =
          steps-Ends names t local_files apart
            (subst HoldsObjects (sym same) (uploads-HoldsObjects name s here objects))
            (subst HoldsManifest (sym same) (uploads-HoldsManifest name s differs manifest)) in
        subst (λ (q : Result String (Unit {0}) × S). (q.0 ≡ ok tt) × HoldsManifest q.1)
          (sym (and_step_ok (steps names) (object_step name s) (object_ok name s here objects)))
          rest

    abbrev manifest_step : Option Bytes → S → Result String (Unit {0}) × S
    manifest_step = upload_manifest sha256 hex_encode store others local release_dir m

    manifest_step_ok :
        (bytes : Bytes) (s : S)
        → manifest_bytes ≡ some bytes
        → HoldsManifest s
        → (manifest_step (some bytes) s).0 ≡ ok tt
    unfolding upload_manifest
    manifest_step_ok bytes s there holds =
        let key : String = static_release_manifest_key m.release_id in
        let source : FilePath = source_of release_dir release_manifest_file in
        let p : Result PublishError (Unit {0}) × S = uploads key source s in
        elim (laws.answered key source bytes (others s) there) [
          | inl done ↦ resume_done _ p done
          | inr (e, o, refused, conflict, held) ↦ resume_checked _ p e refused conflict (
              manifest_ok bytes o p.1 held
                (elim (laws.new_or_old key source bytes o (others s) there held) [
                  | inl new ↦ new
                  | inr old ↦ some-eq o.bytes bytes (
                      sym (holds o (others_store key o s (manifest_key-ne m.release_id) old))
                      ∙ there)
                ]))
        ]

    -- An upload can be taken up again: over a storage that answers, where the local files are those of the
    -- manifest, every object of the release that is in the store already is the release's, and other
    -- processes store nothing but the pointer, the upload succeeds, however much of the release an earlier
    -- run has left.
    pub upload_release_resumes :
        (files : List String) (bytes : Bytes) (s : S)
        → release_output_files m.turbo_version ≡ some files
        → All IsLocal files
        → manifest_bytes ≡ some bytes
        → ((name : String) (o : VersionedObject)
            → store.read (object_key m name) s ≡ ok (some o)
            → IsOf name o.bytes)
        → ((o : VersionedObject)
            → store.read (static_release_manifest_key m.release_id) s ≡ ok (some o)
            → manifest_bytes ≡ some o.bytes)
        → (upload_release sha256 hex_encode store others local release_dir m s).0 ≡ ok tt
    unfolding upload_release
    upload_release_resumes files bytes s listed local_files there objects manifest =
        let (done, holds) =
          steps-Ends files s local_files
            (none_is_manifest-All files (files_apart m.turbo_version files listed)) objects
            manifest in
        subst (λ o. (upload_all sha256 hex_encode store others local release_dir m o s).0 ≡ ok tt)
          (sym listed)
          (ap (λ q. q.0) (and_step_ok (manifest_step manifest_bytes) (steps files s) done)
            ∙ subst (λ o. (manifest_step o (steps files s).1).0 ≡ ok tt) (sym there)
                (manifest_step_ok bytes (steps files s).1 there holds))
