-- ===== src/Activation/Run.antt =====
-- `run` of src/bin/static_activate.rs, from the bucket's storage on. A panic is `none`.
pub mod Pointed
pub mod Served
use Prim.Native.String.{◌++◌}
use ltsearch.Common.{ℕ, String, Bool, Option, none, some, List, Result, ok, err}
use ltsearch.Common.Signed.{ℤ}
use ltsearch.Sqlite.{Bytes}
use ltsearch.Storage.{FilePath, PublishStorage}
use ltsearch.Turbo.Release.{ReleaseManifest}
use ltsearch.Activation.{StaticActivateError}
use ltsearch.Activation.Verify.{verify_release_dir}
use ltsearch.Activation.Upload.{source_of, upload_release}
use ltsearch.Activation.Pointer.{StaticActivationResult, StaticJson, activate_static_pointer}

abbrev or_none : Option String → String
or_none none = "<none>"
or_none (some id) = id

abbrev summary : StaticActivationResult → String
summary r =
    "activated static release "
    ++ (r.release_id ++ (" (previous " ++ (or_none r.previous_release_id ++ ")")))

-- What the command works with: the hash and its text, the local files, the parsers of `str` and of the
-- manifest, the alignment of the mapped files, the pointer's JSON, and the time.
pub record Setting : Type 0 where
  pub sha256 : List ℕ → List ℕ
  pub hex_encode : List ℕ → String
  pub local : FilePath → Option Bytes
  pub from_utf8 : List ℕ → Option String
  pub parse_manifest : List ℕ → Result String ReleaseManifest
  pub is_aligned : String → Bool
  pub json : StaticJson
  pub current_time_millis : ℤ

pub record CliArgs : Type 0 where
  pub release_dir : FilePath
  pub expect_model_id : Option String
  pub expect_dim : Option ℕ

unfoldable pub verified_release :
    Setting → CliArgs → Option (Result StaticActivateError ReleaseManifest)
unfolding verify_release_dir
verified_release setting args =
    verify_release_dir setting.sha256 setting.hex_encode
      (λ name. setting.local (source_of args.release_dir name)) setting.from_utf8
      setting.parse_manifest setting.is_aligned args.expect_model_id args.expect_dim

module _ {S : Type 0} (setting : Setting) (store : PublishStorage S) (others : S → S)
    (args : CliArgs) where
  unfoldable pub summarized :
      Result StaticActivateError StaticActivationResult × S → Option (Result String String) × S
  summarized (ok r, s) = (some (ok (summary r)), s)
  summarized (err e, s) = (some (err "failed to activate"), s)

  unfoldable pub activate : ReleaseManifest → S → Option (Result String String) × S
  unfolding summarized activate_static_pointer
  activate m s =
      summarized (
        activate_static_pointer setting.json store others m.release_id setting.current_time_millis
          s)

  unfoldable pub after_upload :
      ReleaseManifest → Result String (Unit {0}) × S → Option (Result String String) × S
  unfolding activate
  after_upload m (ok u, s) = activate m s
  after_upload m (err e, s) = (some (err e), s)

  unfoldable pub after_verify :
      Option (Result StaticActivateError ReleaseManifest) → S → Option (Result String String) × S
  unfolding after_upload upload_release
  after_verify none s = (none, s)
  after_verify (some (err e)) s = (some (err "release verification failed"), s)
  after_verify (some (ok m)) s = after_upload m (
      upload_release setting.sha256 setting.hex_encode store others setting.local args.release_dir m
        s)

  unfoldable pub run : S → Option (Result String String) × S
  unfolding verified_release after_verify
  run s = after_verify (verified_release setting args) s
