-- ===== src/Head.antt =====
-- src/storage/head.rs and src/storage/s3_paths.rs: the `_head` document, the one pointer to the
-- active index version. JSON printing and parsing is serde_json's.
use Prim.Native.String.{◌++◌}
use text.Mathlib.TextLemmas.{append_cancel_left, append_cancel_right}
use ltsearch.Common.{ℕ, String, not, ok, Result, ◌==◌, str_eq, str_eq_refl, ◌≡◌, ◌≢◌, true, refl}
use ltsearch.Common.Outcome.{guard, map_err, ◌>>=◌, ◌>>◌}
use ltsearch.Common.Signed.{ℤ}
use ltsearch.Common.Text.{decimal, decimal-injective}
use ltsearch.Sqlite.{Bytes}
use ltsearch.Manifest.{IndexManifest, is_plausible_epoch_millis}

abbrev pub index_head_key : String
index_head_key = "index/_head"

abbrev pub static_head_key : String
static_head_key = "static/_head"

unfoldable pub version_manifest_key : ℕ → String
version_manifest_key version_id = "index/versions/" ++ (decimal version_id ++ "/manifest.json")

pub record ManifestHead : Type 0 where
  pub version_id : ℕ
  pub manifest_path : String
  pub updated_at : ℤ

pub data HeadError : Type 0 where
  parse : String → HeadError
  version_must_be_positive : HeadError
  implausible_updated_at : HeadError
  manifest_path_mismatch : String → HeadError

-- `ManifestHead::new`
unfoldable pub new_head : ℕ → ℤ → ManifestHead
new_head version_id updated_at = record {
  version_id = version_id;
  manifest_path = version_manifest_key version_id;
  updated_at = updated_at;
}

-- serde_json on the two documents: a new head that it prints it reads back.
pub record Json : Type 0 where
  pub print_head : ManifestHead → Bytes
  pub parse_head : Bytes → Result String ManifestHead
  pub parse_manifest : Bytes → Result String IndexManifest
  pub parse_print_head :
      (version_id : ℕ) (updated_at : ℤ)
      → parse_head (print_head (new_head version_id updated_at))
        ≡ ok (new_head version_id updated_at)

unfoldable pub validate_head : ManifestHead → Result HeadError (Unit {0})
unfolding is_plausible_epoch_millis
validate_head h = do
  guard (not (h.version_id == 0)) version_must_be_positive
  guard (is_plausible_epoch_millis h.updated_at) implausible_updated_at
  guard (str_eq h.manifest_path (version_manifest_key h.version_id))
      (manifest_path_mismatch (version_manifest_key h.version_id))

unfoldable pub from_json : Json → Bytes → Result HeadError ManifestHead
unfolding validate_head
from_json json bytes = do head ← map_err parse (json.parse_head bytes); validate_head head; ok head

version_manifest_key-injective : (m n : ℕ) → version_manifest_key m ≡ version_manifest_key n → m ≡ n
unfolding version_manifest_key
version_manifest_key-injective m n e = decimal-injective m n (
    append_cancel_right (decimal m) (decimal n) "/manifest.json"
      (append_cancel_left "index/versions/" _ _ e))

-- Different versions have different manifests.
version_manifest_key-apart : (m n : ℕ) → m ≢ n → version_manifest_key m ≢ version_manifest_key n
version_manifest_key-apart m n apart e = apart (version_manifest_key-injective m n e)

-- A new head of a version that is positive, at a plausible time, is read back.
pub new_head-readable :
    (json : Json) (version_id : ℕ) (updated_at : ℤ)
    → not (version_id == 0) ≡ true
    → is_plausible_epoch_millis updated_at ≡ true
    → from_json json (json.print_head (new_head version_id updated_at))
      ≡ ok (new_head version_id updated_at)
unfolding from_json validate_head new_head
new_head-readable json version_id updated_at positive plausible =
    rw
      (
        json.parse_print_head version_id updated_at,
        positive,
        plausible,
        str_eq_refl (version_manifest_key version_id),
      )
      refl
