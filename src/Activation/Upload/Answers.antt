-- ===== src/Activation/Upload/Answers.antt =====
-- A storage that answers, and the keys of a release.
use Prim.Native.String.{◌++◌ as joined}
use text.Mathlib.TextLemmas.{append_assoc, append_cancel_left}
use ltsearch.Common.{
  ℕ, String, Bool, true, not, ◌&&◌, Bool-cases, Option, some, List, [], ◌∷◌, Result, ok, err, ◌≡◌,
  ◌≢◌, refl, sym, ◌∙◌, subst, All, arith, str_eq, str_eq_iff, ◌==◌, ◌⊎◌, inl, inr,
}
use ltsearch.Common.Words.{same_bytes}
use ltsearch.Errors.{PublishError}
use ltsearch.Sqlite.{Bytes}
use ltsearch.Storage.{FilePath, VersionedObject, create_only, PublishStorage}
use ltsearch.Stores.{static_release_manifest_key}
use ltsearch.Turbo.Release.{ReleaseManifest}
use ltsearch.Activation.Install.{static_release_dir_key}
use ltsearch.Activation.Verify.{
  release_output_files, v3_release_output_files, v4_release_output_files, release_manifest_file,
}
use ltsearch.Activation.Upload.{object_key, and_step, resume, is_create_only_conflict}

-- A storage that answers: an upload of a file that is there is done, or is refused since there is an
-- object already; it changes no other object, and leaves the file's bytes or what was there.
pub record AnswerLaws {S : Type 0} (store : PublishStorage S) (local : FilePath → Option Bytes)
    : Type 0 where
  pub answered :
      (key : String) (source : FilePath) (bytes : Bytes) (s : S)
      → local source ≡ some bytes
      → ((store.upload_file key source create_only s).0 ≡ ok tt)
        ⊎ ((e : PublishError) × (o : VersionedObject) × ((store.upload_file key source create_only
                s).0
              ≡ err e)
            × (is_create_only_conflict e ≡ true)
            × (store.read key (store.upload_file key source create_only s).1 ≡ ok (some o)))
  pub apart :
      (key other : String) (source : FilePath) (s : S)
      → other ≢ key
      → store.read other (store.upload_file key source create_only s).1 ≡ store.read other s
  pub new_or_old :
      (key : String) (source : FilePath) (bytes : Bytes) (o : VersionedObject) (s : S)
      → local source ≡ some bytes
      → store.read key (store.upload_file key source create_only s).1 ≡ ok (some o)
      → (o.bytes ≡ bytes) ⊎ (store.read key s ≡ ok (some o))

pub object_key-injective :
    (m : ReleaseManifest) (a b : String) → object_key m a ≡ object_key m b → a ≡ b
unfolding object_key
object_key-injective m a b e =
    append_cancel_left "/" a b (append_cancel_left (static_release_dir_key m.release_id) _ _ e)

pub manifest-ne-object :
    (m : ReleaseManifest) (name : String)
    → name ≢ release_manifest_file
    → static_release_manifest_key m.release_id ≢ object_key m name
unfolding object_key static_release_manifest_key static_release_dir_key
manifest-ne-object m name apart e =
    let tail : joined m.release_id "/release_manifest.json"
        ≡ joined m.release_id (joined "/" name) =
      append_cancel_left "static/releases/" _ _
        (e ∙ append_assoc "static/releases/" m.release_id (joined "/" name)) in
    let last : joined "/" "release_manifest.json" ≡ joined "/" name =
      append_cancel_left m.release_id _ _ tail in
    apart (sym (append_cancel_left "/" "release_manifest.json" name last))

pub same_bytes_refl : (bytes : List ℕ) → same_bytes bytes bytes ≡ true
same_bytes_refl [] = refl
same_bytes_refl (b ∷ bytes) = ground (arith, same_bytes_refl bytes)

abbrev none_is_manifest : List String → Bool
none_is_manifest [] = true
none_is_manifest (name ∷ names) = not (str_eq name release_manifest_file) && none_is_manifest names

pub none_is_manifest-All :
    (names : List String)
    → none_is_manifest names ≡ true
    → All (λ name. name ≢ release_manifest_file) names
none_is_manifest-All [] e = tt
none_is_manifest-All (name ∷ names) e = (
  λ same. ground (arith, e, (str_eq_iff name release_manifest_file).1 same),
  none_is_manifest-All names (ground (arith, e)),
)

-- No file of a release is named like the manifest.
pub files_apart :
    (version : ℕ) (files : List String)
    → release_output_files version ≡ some files
    → none_is_manifest files ≡ true
unfolding release_output_files
files_apart version files e = elim (Bool-cases (version == 3)) [
  | inl three ↦
      subst (λ l. none_is_manifest l ≡ true) {x = v3_release_output_files} {y = files}
        (ground (arith, e, three)) refl
  | inr other ↦ elim (Bool-cases (version == 4)) [
    | inl four ↦
        subst (λ l. none_is_manifest l ≡ true) {x = v4_release_output_files} {y = files}
          (ground (arith, e, other, four)) refl
    | inr none_of ↦ absurd (ground (arith, e, other, none_of))
  ]
]

pub some-eq : (a b : Bytes) → ◌≡◌ {A = Option Bytes} (some a) (some b) → a ≡ b
some-eq a b e = cc

pub resume_done :
    {S : Type 0} (check : S → Result String (Unit {0})) (p : Result PublishError (Unit {0}) × S)
    → p.0 ≡ ok tt
    → (resume check p).0 ≡ ok tt
resume_done check (ok u, s) e = refl
resume_done check (err f, s) e = absurd (ground (arith, e))

err-eq : (a b : PublishError) → ◌≡◌ {A = Result PublishError (Unit {0})} (err a) (err b) → a ≡ b
err-eq a b e = cc

pub resume_checked :
    {S : Type 0} (check : S → Result String (Unit {0})) (p : Result PublishError (Unit {0}) × S)
    (f : PublishError)
    → p.0 ≡ err f
    → is_create_only_conflict f ≡ true
    → check p.1 ≡ ok tt
    → (resume check p).0 ≡ ok tt
resume_checked check (ok u, s) f e c good = refl
resume_checked check (err g, s) f e c good =
    subst (λ h. (resume check (err h, s)).0 ≡ ok tt) (sym (err-eq g f e)) (rw (c, good) refl)

pub and_step_ok :
    {S : Type 0} (next : S → Result String (Unit {0}) × S) (p : Result String (Unit {0}) × S)
    → p.0 ≡ ok tt
    → and_step next p ≡ next p.1
and_step_ok next (ok u, s) e = refl
and_step_ok next (err f, s) e = absurd (ground (arith, e))
