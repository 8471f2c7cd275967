-- ===== src/Activation/Upload/Stored.antt =====
-- What an upload that succeeds has stored, over a storage whose objects are never overwritten.
use Prim.Native.String.{◌++◌ as joined}
use text.Mathlib.Text.{starts_with}
use text.Mathlib.TextLemmas.{append_assoc}
use text.Mathlib.TextPositions.{starts_with-append}
use ltsearch.Common.{
  ℕ, String, true, Bool-cases, Option, some, List, [], ◌∷◌, length, ok, ◌≡◌, ◌≢◌, refl, sym, ap,
  ◌∙◌, All, arith, str_eq, str_eq_iff, str_eq_refl, inl, inr,
}
use ltsearch.Sqlite.{Bytes}
use ltsearch.Head.{static_head_key}
use ltsearch.Storage.{FilePath, VersionedObject, create_only, PublishStorage}
use ltsearch.Stores.{static_release_manifest_key}
use ltsearch.Turbo.Release.{ReleaseManifest, OutputFile, sha256_hex}
use ltsearch.Activation.Install.{static_release_dir_key}
use ltsearch.Activation.Verify.{names_of}
use ltsearch.Activation.Verify.Checked.{IsOnDisk}
use ltsearch.Activation.Upload.{object_key, find_output}

abbrev prefix : String
prefix = "static/releases/"

-- A key below the releases is not the pointer's.
below-ne : (rest : String) → joined prefix rest ≢ static_head_key
below-ne rest e = cc (sym (starts_with-append prefix rest), ap (λ k. starts_with k prefix) e)

pub object_key-ne : (m : ReleaseManifest) (name : String) → object_key m name ≢ static_head_key
unfolding object_key static_release_dir_key
object_key-ne m name e =
    below-ne (joined m.release_id (joined "/" name))
      (sym (append_assoc prefix m.release_id (joined "/" name)) ∙ e)

pub manifest_key-ne : (id : String) → static_release_manifest_key id ≢ static_head_key
unfolding static_release_manifest_key
manifest_key-ne id e = below-ne (joined id "/release_manifest.json") e

-- What an object store promises of its immutable objects: an upload that reports success has stored the
-- source's bytes, an upload in create-only mode overwrites nothing, a swap changes the object of its key
-- alone, and a swap that reports success has stored the new value.
pub record ObjectLaws {S : Type 0} (store : PublishStorage S) (local : FilePath → Option Bytes)
    : Type 0 where
  pub uploaded :
      (key : String) (source : FilePath) (bytes : Bytes) (s : S)
      → local source ≡ some bytes
      → (store.upload_file key source create_only s).0 ≡ ok tt
      → (o : VersionedObject) × (store.read key (store.upload_file key source create_only s).1
          ≡ ok (some o))
        × (o.bytes ≡ bytes)
  pub kept :
      (key other : String) (source : FilePath) (o : VersionedObject) (s : S)
      → store.read other s ≡ ok (some o)
      → store.read other (store.upload_file key source create_only s).1 ≡ ok (some o)
  pub kept_by_swap :
      (key other : String) (expected : Option String) (value : Bytes) (o : VersionedObject) (s : S)
      → key ≢ other
      → store.read other s ≡ ok (some o)
      → store.read other (store.compare_and_swap key expected value s).1 ≡ ok (some o)
  pub swapped :
      (key : String) (expected : Option String) (value : Bytes) (s : S)
      → (store.compare_and_swap key expected value s).0 ≡ ok true
      → (o : VersionedObject) × (store.read key (store.compare_and_swap key expected value s).1
          ≡ ok (some o))
        × (o.bytes ≡ value)

module _ (sha256 : List ℕ → List ℕ) (hex_encode : List ℕ → String) where
  -- The bytes are those of the output.
  abbrev pub Fits : OutputFile → Bytes → Type 0
  Fits o bytes = (length bytes ≡ o.size_bytes) × (sha256_hex sha256 hex_encode bytes ≡ o.sha256)

  module _ (read : String → Option (List ℕ)) where
    abbrev pub IsFound : List OutputFile → String → Type 0
    IsFound os name =
        (o : OutputFile) × (bytes : Bytes) × (find_output name os ≡ some o)
        × (read name ≡ some bytes)
        × Fits o bytes

    find_output-IsFound :
        (o : OutputFile) (os : List OutputFile) (names : List String)
        → IsOnDisk sha256 hex_encode read o
        → All (IsFound os) names
        → All (IsFound (o ∷ os)) names
    unfolding find_output
    find_output-IsFound o os [] h all = tt
    find_output-IsFound o os (name ∷ names) (b, r, size, hash) ((p, c, found, there, fits), rest) =
        (
          elim (Bool-cases (str_eq o.name name)) [
            | inl same ↦ (
              o,
              b,
              ground (arith, same),
              ap read (sym ((str_eq_iff o.name name).0 same)) ∙ r,
              (size, hash),
            )
            | inr other ↦ (p, c, ground (arith, other, found), there, fits)
          ],
          find_output-IsFound o os names (b, r, size, hash) rest,
        )

    -- Every name of the outputs is found, with the output's bytes on the disk.
    pub outputs-IsFound :
        (os : List OutputFile)
        → All (IsOnDisk sha256 hex_encode read) os
        → All (IsFound os) (names_of os)
    unfolding find_output
    outputs-IsFound [] all = tt
    outputs-IsFound (o ∷ os) ((b, r, size, hash), rest) = (
      (o, b, rw (str_eq_refl o.name) refl, r, (size, hash)),
      find_output-IsFound o os (names_of os) (b, r, size, hash) (outputs-IsFound os rest),
    )
