-- ===== src/Activation/Run/Served.antt =====
-- A release that was activated is all there.
use ltsearch.Common.{
  String, Option, none, some, List, Result, ok, err, ◌≡◌, ◌≢◌, refl, sym, subst, All, arith,
}
use ltsearch.Head.{static_head_key}
use ltsearch.Storage.{VersionedObject, PublishStorage}
use ltsearch.Turbo.Release.{ReleaseManifest}
use ltsearch.Activation.{StaticActivateError}
use ltsearch.Activation.Verify.{release_output_files, release_manifest_file}
use ltsearch.Activation.Pointer.{StaticActivationResult, activate_static_pointer}
use ltsearch.Activation.Upload.{source_of}
use ltsearch.Activation.Upload.Stored.{ObjectLaws}
use ltsearch.Activation.Upload.Complete.{
  IsStored, IsMarked, IsStored-Later, IsMarked-Later, upload_release-IsStored, upload,
}
use ltsearch.Activation.Run.{
  Setting, CliArgs, verified_release, summarized, activate, after_upload, after_verify, run,
}
use ltsearch.Activation.Run.Pointed.{verified-IsFound, IsPointed, activated-IsPointed}

module _ {S : Type 0} (setting : Setting) (store : PublishStorage S) (others : S → S)
    (args : CliArgs) where
  summarized-ok :
      (p : Result StaticActivateError StaticActivationResult × S) {text : String}
      → (summarized setting store others args p).0 ≡ some (ok text)
      → (r : StaticActivationResult) × (p.0 ≡ ok r)
        × ((summarized setting store others args p).1 ≡ p.1)
  unfolding summarized
  summarized-ok (ok r, s) e = (r, refl, refl)
  summarized-ok (err f, s) e = absurd (ground (arith, e))

  after_upload-ok :
      (m : ReleaseManifest) (p : Result String (Unit {0}) × S) {text : String}
      → (after_upload setting store others args m p).0 ≡ some (ok text)
      → (p.0 ≡ ok tt)
        × (after_upload setting store others args m p ≡ activate setting store others args m p.1)
  unfolding after_upload
  after_upload-ok m (ok u, s) e = (refl, refl)
  after_upload-ok m (err f, s) e = absurd (ground (arith, e))

  -- What a run that succeeds leaves.
  abbrev pub IsServed : ReleaseManifest → S → Type 0
  IsServed m s =
      ((files : List String) × (release_output_files m.turbo_version ≡ some files)
        × All (IsStored setting.sha256 setting.hex_encode store m s) files)
      × IsMarked setting.sha256 setting.hex_encode store m
          (setting.local (source_of args.release_dir release_manifest_file)) s
      × IsPointed store setting.json m.release_id setting.current_time_millis s

  module _ (laws : ObjectLaws store setting.local)
      (others_keep : (key : String) (o : VersionedObject) (s : S)
        → key ≢ static_head_key
        → store.read key s ≡ ok (some o)
        → store.read key (others s) ≡ ok (some o)) where
    activate-IsServed :
        (m : ReleaseManifest) (s : S) {text : String}
        → verified_release setting args ≡ some (ok m)
        → (upload setting.sha256 setting.hex_encode store m others setting.local args.release_dir
            laws others_keep s).0
          ≡ ok tt
        → (activate setting store others args m
            (upload setting.sha256 setting.hex_encode store m others setting.local args.release_dir
              laws others_keep s).1).0
          ≡ some (ok text)
        → IsServed m
            (activate setting store others args m
              (upload setting.sha256 setting.hex_encode store m others setting.local
                args.release_dir laws others_keep s).1).1
    unfolding activate
    activate-IsServed m s verified done e =
        let (files, listed, found) = verified-IsFound setting args m verified in
        let (stored, marked) =
          upload_release-IsStored setting.sha256 setting.hex_encode store m others setting.local
            args.release_dir laws others_keep files s listed found done in
        let t : S =
          (upload setting.sha256 setting.hex_encode store m others setting.local args.release_dir
            laws others_keep s).1 in
        let p : Result StaticActivateError StaticActivationResult × S =
          activate_static_pointer setting.json store others m.release_id setting.current_time_millis
            t in
        let (r, activated, same) = summarized-ok p e in
        let (pointed, stays) =
          activated-IsPointed store setting.json setting.local laws others others_keep
            setting.sha256 setting.hex_encode m m.release_id setting.current_time_millis t
            activated in
        subst (IsServed m) (sym same) (
          (
            files,
            listed,
            IsStored-Later setting.sha256 setting.hex_encode store m t p.1 files stays stored,
          ),
          IsMarked-Later setting.sha256 setting.hex_encode store m t p.1 _ stays marked,
          pointed,
        )

    verified-IsServed :
        (v : Option (Result StaticActivateError ReleaseManifest)) (s : S) {text : String}
        → verified_release setting args ≡ v
        → (after_verify setting store others args v s).0 ≡ some (ok text)
        → (m : ReleaseManifest) × (v ≡ some (ok m))
          × IsServed m (after_verify setting store others args v s).1
    unfolding after_verify
    verified-IsServed none s is e = absurd (ground (arith, e))
    verified-IsServed (some (err f)) s is e = absurd (ground (arith, e))
    verified-IsServed (some (ok m)) s {text} is e =
        let q : Result String (Unit {0}) × S =
          upload setting.sha256 setting.hex_encode store m others setting.local args.release_dir
            laws others_keep s in
        let (done, same) = after_upload-ok m q e in
        (
          m,
          refl,
          subst (λ (p : Option (Result String String) × S). IsServed m p.1) (sym same)
              (activate-IsServed m s is done
                (subst (λ (p : Option (Result String String) × S). p.0 ≡ some (ok text)) same e)),
        )

    -- A run that succeeds leaves a release that can be served: the built directory verified; the object
    -- of each of its files is in the bucket, with the size and the hash that the manifest names; the
    -- manifest's object is that of the directory; and the pointer names the release. That is so for a
    -- storage that keeps its promises, with other processes before each upload and before the swap, as
    -- long as they change no object but the pointer.
    pub run-IsServed :
        (s : S) {text : String}
        → (run setting store others args s).0 ≡ some (ok text)
        → (m : ReleaseManifest) × (verified_release setting args ≡ some (ok m))
          × IsServed m (run setting store others args s).1
    unfolding run
    run-IsServed s e = verified-IsServed (verified_release setting args) s refl e
