-- ===== src/Activation/Upload/Complete.antt =====
-- An upload that succeeds has stored the whole release.
use ltsearch.Common.{
  ℕ, String, Option, none, some, List, [], ◌∷◌, Result, ok, err, ◌≡◌, ◌≢◌, refl, sym, ap, ◌∙◌,
  subst, All, arith, str_eq_iff, inl, inr,
}
use ltsearch.Common.Outcome.{map_err, ok_or, ok_or-eq-ok, guard-eq-ok, >>=-eq-ok}
use ltsearch.Errors.{PublishError}
use ltsearch.Sqlite.{Bytes}
use ltsearch.Head.{static_head_key}
use ltsearch.Storage.{FilePath, VersionedObject, create_only, PublishStorage}
use ltsearch.Stores.{static_release_manifest_key}
use ltsearch.Turbo.Release.{ReleaseManifest, OutputFile, sha256_hex}
use ltsearch.Turbo.Loader.Paired.{same_bytes-eq}
use ltsearch.Activation.Verify.{release_output_files, release_manifest_file}
use ltsearch.Activation.Upload.{
  object_key, source_of, find_output, and_step, verify_remote_object, upload_object, upload_objects,
  same_manifest, upload_manifest, upload_release, upload_all,
}
use ltsearch.Activation.Upload.Steps.{resume-cases, resume-state, and_step-cases}
use ltsearch.Activation.Upload.Stored.{ObjectLaws, Fits, IsFound, object_key-ne, manifest_key-ne}

module _ (sha256 : List ℕ → List ℕ) (hex_encode : List ℕ → String) {S : Type 0}
    (store : PublishStorage S) (m : ReleaseManifest) where
  -- The object of an output's name is in the store, with the size and the hash of the output.
  abbrev pub IsStored : S → String → Type 0
  IsStored s name =
      (o : OutputFile) × (object : VersionedObject) × (find_output name m.outputs ≡ some o)
      × (store.read (object_key m name) s ≡ ok (some object))
      × Fits sha256 hex_encode o object.bytes

  -- The manifest's object is in the store, with the bytes of the local manifest.
  abbrev pub IsMarked : Option Bytes → S → Type 0
  IsMarked manifest s =
      (object : VersionedObject) × (store.read (static_release_manifest_key m.release_id) s
        ≡ ok (some object))
      × (manifest ≡ some object.bytes)

  abbrev pub Later : S → S → Type 0
  Later s t =
      (key : String) (o : VersionedObject)
      → key ≢ static_head_key
      → store.read key s ≡ ok (some o)
      → store.read key t ≡ ok (some o)

  and_step-Later :
      (next : S → Result String (Unit {0}) × S) (s : S) (p : Result String (Unit {0}) × S)
      → Later s p.1
      → ((t : S) → Later t (next t).1)
      → Later s (and_step next p).1
  and_step-Later next s (ok u, t) first rest =
      λ key o apart there. rest t key o apart (first key o apart there)
  and_step-Later next s (err f, t) first rest = first

  pub IsStored-Later :
      (s t : S) (names : List String) → Later s t → All (IsStored s) names → All (IsStored t) names
  IsStored-Later s t [] later all = tt
  IsStored-Later s t (name ∷ names) later ((o, object, found, stored, fits), all) = (
    (o, object, found, later (object_key m name) object (object_key-ne m name) stored, fits),
    IsStored-Later s t names later all,
  )

  pub IsMarked-Later :
      (s t : S) (manifest : Option Bytes) → Later s t → IsMarked manifest s → IsMarked manifest t
  IsMarked-Later s t manifest later (object, stored, same) =
      (object, later _ object (manifest_key-ne m.release_id) stored, same)

  module _ (others : S → S) (local : FilePath → Option Bytes) (release_dir : FilePath) where
    remote-IsStored :
        (name : String) (s : S)
        → verify_remote_object sha256 hex_encode store others local release_dir m name s ≡ ok tt
        → IsStored s name
    unfolding verify_remote_object
    remote-IsStored name s e =
        >>=-eq-ok (ok_or (find_output name m.outputs) "manifest has no output entry") _ e
          λ o found e1.
            >>=-eq-ok
              (map_err (λ e. "failed to read pre-existing object")
                (store.read (object_key m name) s))
              _ e1
              λ read there e2.
                >>=-eq-ok (ok_or read "pre-existing object vanished") _ e2 λ object is e3. (
                  o,
                  object,
                  ok_or-eq-ok (find_output name m.outputs) _ found,
                  ground (arith, there, ok_or-eq-ok read _ is),
                  (
                    ground (arith, e3),
                    ground (
                      arith,
                      e3,
                      str_eq_iff (sha256_hex sha256 hex_encode object.bytes) o.sha256,
                    ),
                  ),
                )

    remote-IsMarked :
        (bytes : Bytes) (s : S)
        → same_manifest sha256 hex_encode store others local release_dir m bytes s ≡ ok tt
        → IsMarked (some bytes) s
    unfolding same_manifest
    remote-IsMarked bytes s e =
        >>=-eq-ok
          (map_err (λ e. "failed to read stored manifest")
            (store.read (static_release_manifest_key m.release_id) s))
          _ e
          λ read there e1.
            >>=-eq-ok (ok_or read "manifest reported present then vanished") _ e1 λ object is e2. (
              object,
              ground (arith, there, ok_or-eq-ok read _ is),
              ap some (sym (same_bytes-eq object.bytes bytes (guard-eq-ok _ _ e2))),
            )

    module _ (laws : ObjectLaws store local)
        (others_keep : (key : String) (o : VersionedObject) (s : S)
          → key ≢ static_head_key
          → store.read key s ≡ ok (some o)
          → store.read key (others s) ≡ ok (some o)) where
      abbrev object_step : String → S → Result String (Unit {0}) × S
      object_step = upload_object sha256 hex_encode store others local release_dir m

      abbrev steps : List String → S → Result String (Unit {0}) × S
      steps = upload_objects sha256 hex_encode store others local release_dir m

      abbrev uploads : String → FilePath → S → Result PublishError (Unit {0}) × S
      uploads key source s = store.upload_file key source create_only (others s)

      uploads-Later : (key : String) (source : FilePath) (s : S) → Later s (uploads key source s).1
      uploads-Later key source s other o apart there =
          laws.kept key other source o (others s) (others_keep other o s apart there)

      object-Later : (name : String) (s : S) → Later s (object_step name s).1
      unfolding upload_object
      object-Later name s other o apart there =
          ap (store.read other)
            (resume-state _ (uploads (object_key m name) (source_of release_dir name) s))
          ∙ uploads-Later (object_key m name) (source_of release_dir name) s other o apart there

      object-IsStored :
          (name : String) (s : S)
          → IsFound sha256 hex_encode (λ n. local (source_of release_dir n)) m.outputs name
          → (object_step name s).0 ≡ ok tt
          → IsStored (object_step name s).1 name
      unfolding upload_object
      object-IsStored name s (o, bytes, found, there, fits) e =
          let p : Result PublishError (Unit {0}) × S =
            uploads (object_key m name) (source_of release_dir name) s in
          subst (λ t. IsStored t name) (sym (resume-state _ p))
            (elim (resume-cases _ p e) [
              | inl done ↦
                  let (object, stored, same) =
                    laws.uploaded (object_key m name) (source_of release_dir name) bytes (others s)
                      there done in
                  (o, object, found, stored, subst (Fits sha256 hex_encode o) (sym same) fits)
              | inr checked ↦ remote-IsStored name p.1 checked
            ])

      steps-Later : (names : List String) (s : S) → Later s (steps names s).1
      unfolding upload_objects
      steps-Later [] s = λ other o apart there. there
      steps-Later (name ∷ names) s =
          and_step-Later (steps names) s (object_step name s) (object-Later name s)
            (λ t. steps-Later names t)

      steps-IsStored :
          (names : List String) (s : S)
          → All (IsFound sha256 hex_encode (λ n. local (source_of release_dir n)) m.outputs) names
          → (steps names s).0 ≡ ok tt
          → All (IsStored (steps names s).1) names
      unfolding upload_objects
      steps-IsStored [] s all e = tt
      steps-IsStored (name ∷ names) s (found, all) e =
          let (done, rest, same) = and_step-cases (steps names) (object_step name s) e in
          let t : S = (object_step name s).1 in
          subst (λ p. All (IsStored p.1) (name ∷ names)) (sym same)
            (
              (IsStored-Later t (steps names t).1 (name ∷ []) (steps-Later names t)
                  (object-IsStored name s found done, tt)).0,
              steps-IsStored names t all rest,
            )

      abbrev manifest_step : Option Bytes → S → Result String (Unit {0}) × S
      manifest_step = upload_manifest sha256 hex_encode store others local release_dir m

      manifest-Later : (manifest : Option Bytes) (s : S) → Later s (manifest_step manifest s).1
      unfolding upload_manifest
      manifest-Later none s = λ other o apart there. there
      manifest-Later (some bytes) s = λ other o apart there.
          ap (store.read other) (
            resume-state _ (
              uploads (static_release_manifest_key m.release_id)
                (source_of release_dir release_manifest_file) s))
          ∙ uploads-Later (static_release_manifest_key m.release_id)
              (source_of release_dir release_manifest_file) s other o apart there

      manifest-IsMarked :
          (manifest : Option Bytes) (s : S)
          → local (source_of release_dir release_manifest_file) ≡ manifest
          → (manifest_step manifest s).0 ≡ ok tt
          → IsMarked manifest (manifest_step manifest s).1
      unfolding upload_manifest
      manifest-IsMarked none s is e = absurd (ground (arith, e))
      manifest-IsMarked (some bytes) s is e =
          let key : String = static_release_manifest_key m.release_id in
          let p : Result PublishError (Unit {0}) × S =
            uploads key (source_of release_dir release_manifest_file) s in
          subst (λ t. IsMarked (some bytes) t) (sym (resume-state _ p))
            (elim (resume-cases _ p e) [
              | inl done ↦
                  let (object, stored, same) =
                    laws.uploaded key (source_of release_dir release_manifest_file) bytes (others s)
                      is done in
                  (object, stored, ap some (sym same))
              | inr checked ↦ remote-IsMarked bytes p.1 checked
            ])

      abbrev pub upload : S → Result String (Unit {0}) × S
      upload = upload_release sha256 hex_encode store others local release_dir m

      -- An upload that succeeds has stored the whole release: the object of every file, with the size
      -- and the hash that the manifest names, and the manifest. That is so where the local files are
      -- those of the manifest, the storage never overwrites an object and other processes keep them; what
      -- was in the store before an interrupted run, or was put there by somebody else, is checked.
      pub upload_release-IsStored :
          (files : List String) (s : S)
          → release_output_files m.turbo_version ≡ some files
          → All (IsFound sha256 hex_encode (λ n. local (source_of release_dir n)) m.outputs) files
          → (upload s).0 ≡ ok tt
          → All (IsStored (upload s).1) files
            × IsMarked (local (source_of release_dir release_manifest_file)) (upload s).1
      unfolding upload_release
      upload_release-IsStored files s listed found e =
          let manifest : Option Bytes = local (source_of release_dir release_manifest_file) in
          let (done, marked, same) = and_step-cases (manifest_step manifest) (steps files s) (
            subst
              (λ o. (upload_all sha256 hex_encode store others local release_dir m o s).0 ≡ ok tt)
              listed e) in
          let t : S = (steps files s).1 in
          rw listed (
            subst (λ p. All (IsStored p.1) files × IsMarked manifest p.1) (sym same)
              (
                IsStored-Later t (manifest_step manifest t).1 files (manifest-Later manifest t)
                    (steps-IsStored files s found done),
                manifest-IsMarked manifest t refl marked,
              ))
