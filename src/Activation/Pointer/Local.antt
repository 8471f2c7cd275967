-- ===== src/Activation/Pointer/Local.antt =====
-- The activation of a release over the local storage.
use ltsearch.Common.{
  String, true, false, Bool-cases, Option, none, some, Result, ok, err, is_err, ◌≡◌, ◌≢◌, refl, ap,
  ◌∙◌, arith, ◌⊎◌, inl, inr,
}
use ltsearch.Common.Outcome.{Result-cases}
use ltsearch.Common.Signed.{ℤ}
use ltsearch.Errors.{PublishError}
use ltsearch.Sqlite.{Bytes, Db}
use ltsearch.Head.{static_head_key}
use ltsearch.Storage.{VersionedObject, etag_of_object}
use ltsearch.Stores.{
  StaticReleaseHead, StaticReleaseStoreError, new_static_head, validate_static_head,
  static_from_json, static_of_bytes, sqlite_load_active_release,
}
use ltsearch.LocalPublish.{
  Files, HeadFaults, static_release_head, etag_of_bytes, set_row, head_row_cas, local_storage,
  read_at, swap_at, on_db, versioned, head_table, head_row_read,
}
use ltsearch.LocalPublish.Laws.{any_fault, head_row_cas-exact}
use ltsearch.Activation.{StaticActivateError, lost_cas}
use ltsearch.Activation.Pointer.{
  StaticActivationResult, StaticJson, previous_release_id, plan, swapped, swap_planned,
  activate_static_pointer,
}

abbrev pub id_of : Option StaticReleaseHead → Option String
id_of none = none
id_of (some h) = some h.release_id

module _ (json : StaticJson) where
  abbrev pub active : Db → Result StaticReleaseStoreError (Option StaticReleaseHead)
  active db = sqlite_load_active_release json.parse false db

  module _ {F : Type 0} (files : Files F) (f : HeadFaults) (release_id : String)
      (updated_at : ℤ) where
    abbrev pub new_head : StaticReleaseHead
    new_head = new_static_head release_id updated_at

    abbrev Swap : Type 0
    Swap = Option String × Option String × Bytes

    -- The previous release is the one that the store loads.
    previous-eq :
        (db : Db) (h : Option StaticReleaseHead)
        → active db ≡ ok h
        → previous_release_id json (versioned files db.static_release_head) ≡ ok (id_of h)
    unfolding previous_release_id versioned sqlite_load_active_release static_of_bytes
    previous-eq db h e = ground (arith, e)

    read-eq :
        (db : Db) (fs : F)
        → f.read ≡ false
        → (local_storage files f).read static_head_key (db, fs)
          ≡ ok (versioned files db.static_release_head)
    unfolding local_storage head_table read_at head_row_read
    read-eq db fs e = rw e refl

    read-failed :
        (db : Db) (fs : F)
        → f.read ≡ true
        → is_err ((local_storage files f).read static_head_key (db, fs)) ≡ true
    unfolding local_storage head_table read_at head_row_read
    read-failed db fs e = rw e refl

    swap-eq :
        (expected : Option String) (bytes : Bytes) (db : Db) (fs : F)
        → (local_storage files f).compare_and_swap static_head_key expected bytes (db, fs) ≡ (
          (head_row_cas f static_release_head expected bytes db).0,
          ((head_row_cas f static_release_head expected bytes db).1, fs),
        )
    unfolding local_storage head_table swap_at on_db
    swap-eq expected bytes db fs = refl

    etag-versioned : (o : Option Bytes) → etag_of_object (versioned files o) ≡ etag_of_bytes o
    unfolding versioned
    etag-versioned none = refl
    etag-versioned (some bytes) = refl

    -- The plan, where the pointer can be read and the new one is valid.
    plan-eq :
        (db : Db) (h : Option StaticReleaseHead) {u : Unit {0}}
        → active db ≡ ok h
        → validate_static_head new_head ≡ ok u
        → plan json release_id updated_at (ok (versioned files db.static_release_head))
          ≡ ok (etag_of_bytes db.static_release_head, id_of h, json.print new_head)
    unfolding plan
    plan-eq db h e v = rw (previous-eq db h e, v, etag-versioned db.static_release_head) refl

    plan-malformed :
        (db : Db)
        → is_err (active db) ≡ true
        → is_err (plan json release_id updated_at (ok (versioned files db.static_release_head)))
          ≡ true
    unfolding plan previous_release_id versioned sqlite_load_active_release static_of_bytes
    plan-malformed db e = ground (arith, e)

    plan-invalid :
        (r : Result PublishError (Option VersionedObject))
        → is_err (validate_static_head new_head) ≡ true
        → is_err (plan json release_id updated_at r) ≡ true
    unfolding plan
    plan-invalid r e = ground (arith, e)

    plan-unread :
        (r : Result PublishError (Option VersionedObject))
        → is_err r ≡ true
        → is_err (plan json release_id updated_at r) ≡ true
    unfolding plan
    plan-unread (err e) h = refl
    plan-unread (ok o) h = absurd (ground (arith, h))

    -- An activation that stops before its swap.
    stopped :
        (p : Result StaticActivateError Swap) (s : Db × F)
        → is_err p ≡ true
        → (is_err (swap_planned (local_storage files f) release_id p s).0 ≡ true)
          × ((swap_planned (local_storage files f) release_id p s).1 ≡ s)
    unfolding swap_planned
    stopped (err e) s h = (refl, refl)
    stopped (ok p) s h = absurd (ground (arith, h))

    abbrev result_of : Option StaticReleaseHead → StaticActivationResult
    result_of h = record { release_id = release_id; previous_release_id = id_of h }

    -- What the swap of a plan does.
    swap-outcome :
        (expected : Option String) (h : Option StaticReleaseHead) (bytes : Bytes) (db : Db) (fs : F)
        → let run =
            swap_planned
              (local_storage files f)
              release_id
              (ok (expected, id_of h, bytes))
              (db, fs) in
          ((run ≡ (ok (result_of h), (set_row static_release_head bytes db, fs)))
            × (etag_of_bytes db.static_release_head ≡ expected))
          ⊎ ((run ≡ (err (lost_cas release_id), (db, fs)))
              × (etag_of_bytes db.static_release_head ≢ expected))
          ⊎ ((is_err run.0 ≡ true) × (run.1 ≡ (db, fs)) × (any_fault f ≡ true))
    unfolding swap_planned swapped
    swap-outcome expected h bytes db fs =
        elim (head_row_cas-exact f static_release_head expected bytes db) [
          | inl (run, _, same) ↦ inl (rw (swap-eq expected bytes db fs, run) refl, same)
          | inr (inl (run, other)) ↦ inr (inl (rw (swap-eq expected bytes db fs, run) refl, other))
          | inr (inr (failed, kept, fault)) ↦
              inr (inr (ground (arith, swap-eq expected bytes db fs, failed, kept, fault)))
        ]

    -- The row's bytes are those of the new pointer, which the store then loads.
    loaded :
        (db : Db) {u : Unit {0}}
        → json.parse (json.print new_head) ≡ ok new_head
        → validate_static_head new_head ≡ ok u
        → active (set_row static_release_head (json.print new_head) db) ≡ ok (some new_head)
    unfolding sqlite_load_active_release static_of_bytes static_from_json
    loaded db parsed v = rw (parsed, v) refl

    -- What an activation may do, where `db` is the database that it read and `mid` is what other
    -- processes had made of it when it swapped.
    abbrev pub IsActivated :
        Db → Db × F → Result StaticActivateError StaticActivationResult × (Db × F) → Type 0
    IsActivated db mid run =
        ((h : Option StaticReleaseHead) × (active db ≡ ok h)
          × (run.0 ≡ ok (result_of h))
          × (etag_of_bytes mid.0.static_release_head ≡ etag_of_bytes db.static_release_head)
          × (run.1 ≡ (set_row static_release_head (json.print new_head) mid.0, mid.1))
          × (active run.1.0 ≡ ok (some new_head)))
        ⊎ ((run ≡ (err (lost_cas release_id), mid))
            × (etag_of_bytes mid.0.static_release_head ≢ etag_of_bytes db.static_release_head))
        ⊎ ((is_err run.0 ≡ true)
            × (run.1 ≡ mid)
            × ((any_fault f ≡ true)
                ⊎ (is_err (active db) ≡ true)
                ⊎ (is_err (validate_static_head new_head) ≡ true)))

    swapped-IsActivated :
        (db : Db) (mid : Db × F) (h : Option StaticReleaseHead) {u : Unit {0}}
        → json.parse (json.print new_head) ≡ ok new_head
        → active db ≡ ok h
        → validate_static_head new_head ≡ ok u
        → IsActivated db mid (
            swap_planned
              (local_storage files f)
              release_id
              (ok (etag_of_bytes db.static_release_head, id_of h, json.print new_head))
              mid)
    swapped-IsActivated db (now, fs) h parsed e v =
        elim (swap-outcome (etag_of_bytes db.static_release_head) h (json.print new_head) now fs) [
          | inl (run, same) ↦ inl (
            h,
            e,
            ap (λ r. r.0) run,
            same,
            ap (λ r. r.1) run,
            ap (λ r. active r.1.0) run ∙ loaded now parsed v,
          )
          | inr (inl lost) ↦ inr (inl lost)
          | inr (inr (failed, kept, fault)) ↦ inr (inr (failed, kept, inl fault))
        ]

    read-IsActivated :
        (db : Db) (mid : Db × F)
        → json.parse (json.print new_head) ≡ ok new_head
        → IsActivated db mid (
            swap_planned
              (local_storage files f)
              release_id
              (plan json release_id updated_at (ok (versioned files db.static_release_head)))
              mid)
    read-IsActivated db mid parsed = elim (Result-cases (validate_static_head new_head)) [
      | inr (e, invalid) ↦
          let bad : is_err (validate_static_head new_head) ≡ true = ap is_err invalid in
          let (failed, kept) = stopped _ mid (plan-invalid _ bad) in
          inr (inr (failed, kept, inr (inr bad)))
      | inl (u, v) ↦ elim (Result-cases (active db)) [
        | inr (e, malformed) ↦
            let bad : is_err (active db) ≡ true = ap is_err malformed in
            let (failed, kept) = stopped _ mid (plan-malformed db bad) in
            inr (inr (failed, kept, inr (inl bad)))
        | inl (h, e) ↦ rw (plan-eq db h e v) (swapped-IsActivated db mid h parsed e v)
      ]
    ]

    -- An activation, with other processes between its read and its swap, and a parser that reads the new
    -- pointer as it was printed, does one of three things. It
    -- succeeds: the previous release is the one that the store loaded at its read, the pointer had the
    -- same tag at the swap, the pointer's row holds the new head, all else is as the others left it, and
    -- the store loads the new head. Or it reports that it lost: the pointer's tag had changed, and it
    -- wrote nothing. Or it reports an error and wrote nothing, since a statement failed, the previous
    -- pointer is malformed or the new one is invalid.
    pub activate_static_pointer-IsActivated :
        (others : Db × F → Db × F) (db : Db) (fs : F)
        → json.parse (json.print new_head) ≡ ok new_head
        → IsActivated db (others (db, fs)) (
            activate_static_pointer json
              (local_storage files f)
              others
              release_id
              updated_at
              (db, fs))
    unfolding activate_static_pointer
    activate_static_pointer-IsActivated others db fs parsed = elim (Bool-cases f.read) [
      | inl fails ↦
          let (failed, kept) =
            stopped
              (plan json release_id updated_at
                ((local_storage files f).read static_head_key (db, fs)))
              (others (db, fs)) (plan-unread _ (read-failed db fs fails)) in
          inr (inr (failed, kept, inl (ground (arith, fails))))
      | inr works ↦ rw (read-eq db fs works) (read-IsActivated db (others (db, fs)) parsed)
    ]
