-- ===== src/Activation/Pointer.antt =====
-- `activate_static_pointer` of src/indexing/static_publisher.rs, over any publish storage. Other
-- processes may act on the storage between the read and the swap.
pub mod Local
use ltsearch.Common.{String, Bool, true, false, Option, none, some, Result, ok, err}
use ltsearch.Common.Outcome.{map_err, ◌>>=◌, ◌>>◌}
use ltsearch.Common.Signed.{ℤ}
use ltsearch.Errors.{PublishError}
use ltsearch.Sqlite.{Bytes}
use ltsearch.Head.{static_head_key}
use ltsearch.Storage.{VersionedObject, PublishStorage, etag_of_object}
use ltsearch.Stores.{StaticReleaseHead, new_static_head, validate_static_head, static_from_json}
use ltsearch.Activation.{StaticActivateError, verify, lost_cas, storage}

pub record StaticActivationResult : Type 0 where
  pub release_id : String
  pub previous_release_id : Option String

-- What serde_json does with the pointer: the pretty printer, and the parser.
pub record StaticJson : Type 0 where
  pub print : StaticReleaseHead → Bytes
  pub parse : Bytes → Result String StaticReleaseHead

module _ (json : StaticJson) where
  unfoldable pub previous_release_id :
      Option VersionedObject → Result StaticActivateError (Option String)
  unfolding static_from_json
  previous_release_id none = ok none
  previous_release_id (some object) = do
    head ←
        map_err (λ e. verify "existing static/_head is malformed")
          (static_from_json json.parse object.bytes)
    ok (some head.release_id)

  -- The expected tag, the previous release and the bytes to write.
  unfoldable pub plan :
      String
      → ℤ
      → Result PublishError (Option VersionedObject)
      → Result StaticActivateError (Option String × Option String × Bytes)
  unfolding previous_release_id new_static_head validate_static_head
  plan release_id updated_at read = do
    current ← map_err storage read
    previous ← previous_release_id current
    map_err (λ e. verify "new static/_head is invalid")
        (validate_static_head (new_static_head release_id updated_at))
    ok (etag_of_object current, previous, json.print (new_static_head release_id updated_at))

module _ {S : Type 0} where
  unfoldable pub swapped :
      String
      → Option String
      → Result PublishError Bool × S
      → Result StaticActivateError StaticActivationResult × S
  swapped id previous (err e, s) = (err (storage e), s)
  swapped id previous (ok false, s) = (err (lost_cas id), s)
  swapped id previous (ok true, s) =
      (ok (record { release_id = id; previous_release_id = previous }), s)

  unfoldable pub swap_planned :
      PublishStorage S
      → String
      → Result StaticActivateError (Option String × Option String × Bytes)
      → S
      → Result StaticActivateError StaticActivationResult × S
  unfolding swapped
  swap_planned store id (err e) s = (err e, s)
  swap_planned store id (ok (expected, previous, bytes)) s =
      swapped id previous (store.compare_and_swap static_head_key expected bytes s)

  -- `others` is what other processes do between the read and the swap.
  unfoldable pub activate_static_pointer :
      StaticJson
      → PublishStorage S
      → (S → S)
      → String
      → ℤ
      → S
      → Result StaticActivateError StaticActivationResult × S
  unfolding plan swap_planned
  activate_static_pointer json store others release_id updated_at s =
      swap_planned store release_id (plan json release_id updated_at (store.read static_head_key s))
        (others s)
