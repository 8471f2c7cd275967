-- ===== src/BuildWorker/Versions.antt =====
-- The version that the worker asks for is one that the publisher accepts.
use ltsearch.Common.{
  ℕ, ◌+◌, ◌^◌, ◌<◌, true, not, Option, none, some, ok, ◌≡◌, refl, sym, ◌∙◌, subst, String, Result,
  ◌==◌, inl, inr, arith,
}
use ltsearch.Common.Outcome.{Result-cases}
use ltsearch.Head.{ManifestHead, Json, index_head_key, from_json}
use ltsearch.Storage.{PublishStorage, VersionedObject}
use ltsearch.Publisher.{parse_current, parse_head}
use ltsearch.Publisher.Advance.{Older, IsExpected}
use ltsearch.BuildWorker.{version_after, after_object, next_version_id}

-- There is a next version below 2^64.
abbrev pub HasNext : Option ManifestHead → Type 0
HasNext none = Unit
HasNext (some head) = head.version_id + 1 < 2 ^ 64

ok_pair : (a b : ℕ × Option ℕ) → ◌≡◌ {A = Result String (ℕ × Option ℕ)} (ok a) (ok b) → a ≡ b
ok_pair a b e = ground arith

module _ {S : Type 0} (storage : PublishStorage S) (json : Json) where
  version_after-fits :
      (current : Option ManifestHead)
      → HasNext current
      → Older current (version_after current).0
        × IsExpected (version_after current).1 current
        × (not ((version_after current).0 == 0) ≡ true)
  unfolding version_after
  version_after-fits none h = (tt, tt, refl)
  version_after-fits (some head) h = ground arith

  after_object-current :
      (object : Option VersionedObject) (current : Option ManifestHead)
      → parse_current json object ≡ ok current
      → after_object json object ≡ ok (version_after current)
  unfolding after_object parse_current parse_head
  after_object-current none current h = ground (arith, h)
  after_object-current (some object) current h = elim (Result-cases (from_json json object.bytes)) [
    | inl (head, parsed) ↦ rw parsed (ground (arith, rw parsed at h))
    | inr (e, failed) ↦ absurd (ground (arith, rw failed at h))
  ]

  -- As long as the pointer is as it was read, the version that the worker takes is positive and greater
  -- than the active one, and the version that it expects is the active one, if that is below 2^64 - 1.
  next_version_id-fits :
      (s : S) (object : Option VersionedObject) (current : Option ManifestHead) {version : ℕ}
      {expected : Option ℕ}
      → storage.read index_head_key s ≡ ok object
      → parse_current json object ≡ ok current
      → HasNext current
      → next_version_id storage json s ≡ ok (version, expected)
      → Older current version × IsExpected expected current × (not (version == 0) ≡ true)
  unfolding next_version_id
  next_version_id-fits s object current {version} {expected} there parsed next h =
      let taken : next_version_id storage json s ≡ ok (version_after current) =
        rw there (after_object-current object current parsed) in
      let same : version_after current ≡ (version, expected) = ok_pair _ _ (sym taken ∙ h) in
      subst
        (λ (p : ℕ × Option ℕ). Older current p.0 × IsExpected p.1 current × (not (p.0 == 0) ≡ true))
        same (version_after-fits current next)
