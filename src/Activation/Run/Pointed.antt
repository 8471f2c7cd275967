-- ===== src/Activation/Run/Pointed.antt =====
-- What the last step of a run leaves.
use ltsearch.Common.{
  ℕ, String, Bool, true, false, Option, some, List, Result, ok, err, ◌≡◌, ◌≢◌, refl, sym, subst,
  All, arith,
}
use ltsearch.Common.Signed.{ℤ}
use ltsearch.Errors.{PublishError}
use ltsearch.Sqlite.{Bytes}
use ltsearch.Head.{static_head_key}
use ltsearch.Storage.{FilePath, VersionedObject, PublishStorage}
use ltsearch.Stores.{new_static_head}
use ltsearch.Turbo.Release.{ReleaseManifest}
use ltsearch.Activation.{StaticActivateError}
use ltsearch.Activation.Verify.{release_output_files}
use ltsearch.Activation.Verify.Checked.{verify_release_dir-IsVerified}
use ltsearch.Activation.Pointer.{
  StaticActivationResult, StaticJson, plan, swapped, swap_planned, activate_static_pointer,
}
use ltsearch.Activation.Upload.{source_of}
use ltsearch.Activation.Upload.Stored.{ObjectLaws, IsFound, outputs-IsFound}
use ltsearch.Activation.Upload.Complete.{Later}
use ltsearch.Activation.Run.{Setting, CliArgs, verified_release}

pub verified-IsFound :
    (setting : Setting) (args : CliArgs) (m : ReleaseManifest)
    → verified_release setting args ≡ some (ok m)
    → (files : List String) × (release_output_files m.turbo_version ≡ some files)
      × All
          (IsFound setting.sha256 setting.hex_encode
            (λ n. setting.local (source_of args.release_dir n))
            m.outputs)
          files
unfolding verified_release
verified-IsFound setting args m e =
    let read : String → Option (List ℕ) = λ n. setting.local (source_of args.release_dir n) in
    let (_, ((files, listed, fits), _, _, _), _) =
      verify_release_dir-IsVerified setting.sha256 setting.hex_encode read setting.parse_manifest
        setting.is_aligned args.expect_model_id args.expect_dim setting.from_utf8 m e in
    (
      files,
      listed,
      subst (All (IsFound setting.sha256 setting.hex_encode read m.outputs)) fits.0
          (outputs-IsFound setting.sha256 setting.hex_encode read m.outputs fits.1),
    )

module _ {S : Type 0} (store : PublishStorage S) (json : StaticJson) where
  -- The pointer names the release.
  abbrev pub IsPointed : String → ℤ → S → Type 0
  IsPointed id at s =
      (object : VersionedObject) × (store.read static_head_key s ≡ ok (some object))
      × (object.bytes ≡ json.print (new_static_head id at))

  plan-bytes :
      (id : String) (at : ℤ) (read : Result PublishError (Option VersionedObject))
      (expected previous : Option String) (bytes : Bytes)
      → plan json id at read ≡ ok (expected, previous, bytes)
      → bytes ≡ json.print (new_static_head id at)
  unfolding plan
  plan-bytes id at read expected previous bytes e = ground (arith, e)

  swapped-true :
      (id : String) (previous : Option String) (p : Result PublishError Bool × S)
      {r : StaticActivationResult}
      → (swapped id previous p).0 ≡ ok r
      → (p.0 ≡ ok true) × ((swapped id previous p).1 ≡ p.1)
  unfolding swapped
  swapped-true id previous (ok true, s) e = (refl, refl)
  swapped-true id previous (ok false, s) e = absurd (ground (arith, e))
  swapped-true id previous (err f, s) e = absurd (ground (arith, e))

  module _ (local : FilePath → Option Bytes) (laws : ObjectLaws store local) (others : S → S)
      (others_keep : (key : String) (o : VersionedObject) (s : S)
        → key ≢ static_head_key
        → store.read key s ≡ ok (some o)
        → store.read key (others s) ≡ ok (some o))
      (sha256 : List ℕ → List ℕ) (hex_encode : List ℕ → String) (m : ReleaseManifest) where
    -- The objects that are there stay.
    abbrev Stays : S → S → Type 0
    Stays = Later sha256 hex_encode store m

    swap-IsPointed :
        (id : String) (at : ℤ) (previous : Option String) (expected : Option String) (s : S)
        {r : StaticActivationResult}
        → (swap_planned store id (ok (expected, previous, json.print (new_static_head id at))) s).0
          ≡ ok r
        → IsPointed id at
            (swap_planned store id
              (ok (expected, previous, json.print (new_static_head id at)))
              s).1
          × Stays s
              (swap_planned store id
                (ok (expected, previous, json.print (new_static_head id at)))
                s).1
    unfolding swap_planned
    swap-IsPointed id at previous expected s e =
        let bytes : Bytes = json.print (new_static_head id at) in
        let (won, same) =
          swapped-true id previous (store.compare_and_swap static_head_key expected bytes s) e in
        (
          subst (IsPointed id at) (sym same) (laws.swapped static_head_key expected bytes s won),
          subst (Stays s) (sym same) (λ key o apart there.
              laws.kept_by_swap static_head_key key expected bytes o s (λ f. apart (sym f)) there),
        )

    planned-IsPointed :
        (id : String) (at : ℤ) (read : Result PublishError (Option VersionedObject))
        (p : Result StaticActivateError (Option String × Option String × Bytes)) (s : S)
        {r : StaticActivationResult}
        → plan json id at read ≡ p
        → (swap_planned store id p s).0 ≡ ok r
        → IsPointed id at (swap_planned store id p s).1 × Stays s (swap_planned store id p s).1
    unfolding swap_planned
    planned-IsPointed id at read (err f) s is e = absurd (ground (arith, e))
    planned-IsPointed id at read (ok (expected, previous, bytes)) s {r} is e =
        let same : bytes ≡ json.print (new_static_head id at) =
          plan-bytes id at read expected previous bytes is in
        subst
          (λ b.
            (swap_planned store id (ok (expected, previous, b)) s).0 ≡ ok r
            → IsPointed id at (swap_planned store id (ok (expected, previous, b)) s).1
              × Stays s (swap_planned store id (ok (expected, previous, b)) s).1)
          (sym same) (swap-IsPointed id at previous expected s) e

    pub activated-IsPointed :
        (id : String) (at : ℤ) (s : S) {r : StaticActivationResult}
        → (activate_static_pointer json store others id at s).0 ≡ ok r
        → IsPointed id at (activate_static_pointer json store others id at s).1
          × Stays s (activate_static_pointer json store others id at s).1
    unfolding activate_static_pointer
    activated-IsPointed id at s e =
        let (pointed, stays) =
          planned-IsPointed id at (store.read static_head_key s)
            (plan json id at (store.read static_head_key s)) (others s) refl e in
        (pointed, λ key o apart there. stays key o apart (others_keep key o s apart there))
