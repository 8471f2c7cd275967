-- ===== src/Publisher/Advance.antt =====
-- What a publish or a rollback that succeeds has done to the pointer, whatever other processes did to
-- the storage between its calls.
use ltsearch.Common.{
  ℕ, suc, String, Bool, true, false, Option, none, some, List, [], ◌∷◌, ok, Result, ◌≡◌, refl, ap,
  sym, subst, ◌==◌, ltb→lt, ◌<◌, ◌∙◌, arith,
}
use mathlib.Core.Option.{some-injective}
use ltsearch.Common.Outcome
use ltsearch.Common.Outcome.{guard-eq-ok, ok_or-eq-ok, map_err, map_err-eq-ok}
use ltsearch.Manifest.{IndexManifest, validate_manifest}
use ltsearch.Common.Signed.{ℤ}
use ltsearch.Errors.{PublishError}
use ltsearch.Sqlite.{Bytes}
use ltsearch.Head.{
  ManifestHead, Json, index_head_key, version_manifest_key, new_head, new_head-readable,
}
use ltsearch.Storage.{VersionedObject, create_only, PublishStorage, StorageLaws, etag_of_object}
use ltsearch.Storage.Calls.{after, ◌>>=◌, >>=-eq-ok, >>=-leaves}
use ltsearch.Publisher.{
  PublishRequest, RollbackRequest, PublishResult, Disk, Others, version_of, same_version,
  parse_current, parse_head, newer_than, as_expected, DirectoryUpload, upload_all, conclude_swap,
  swap_head, publish, rollback, validate_stored_manifest, observed_head_version, read_head,
  validate_publish_version, validate_updated_at,
}

-- The pointer values that occur while others act on the storage: their actions lead from such values
-- to such values, and no two of them have one tag and different bytes.
pub record Occurring {S : Type 0} (storage : PublishStorage S) (others : Others S)
    (Q : Result PublishError (Option VersionedObject) → Type 0) : Type 0 where
  pub by_read :
      (s : S)
      → Q (storage.read index_head_key s)
      → Q (storage.read index_head_key (others.before_read s))
  pub by_upload :
      (n : ℕ) (s : S)
      → Q (storage.read index_head_key s)
      → Q (storage.read index_head_key (others.before_upload n s))
  pub by_swap :
      (s : S)
      → Q (storage.read index_head_key s)
      → Q (storage.read index_head_key (others.before_swap s))
  pub one_tag :
      (a b : VersionedObject)
      → Q (ok (some a))
      → Q (ok (some b))
      → a.etag ≡ b.etag
      → a.bytes ≡ b.bytes

same_version-eq : (a b : Option ℕ) → same_version a b ≡ true → a ≡ b
same_version-eq none none h = refl
same_version-eq none (some b) h = cc
same_version-eq (some a) none h = cc
same_version-eq (some a) (some b) h = ground arith

equal_ids : (a b : ℕ) → (a == b) ≡ true → a ≡ b
equal_ids a b h = ground arith

-- The pointer was absent or named an older version.
abbrev pub Older : Option ManifestHead → ℕ → Type 0
Older none version = Unit
Older (some h) version = h.version_id < version

-- Where the request names a version, it is the one that the pointer named.
abbrev pub IsExpected : Option ℕ → Option ManifestHead → Type 0
IsExpected none old = Unit
IsExpected (some v) old = version_of old ≡ some v

newer_than-Older :
    (version : ℕ) (old : Option ManifestHead) → newer_than version old ≡ true → Older old version
newer_than-Older version none h = tt
newer_than-Older version (some old) h = ltb→lt old.version_id version h

as_expected-IsExpected :
    (expected : Option ℕ) (old : Option ManifestHead)
    → as_expected expected old ≡ true
    → IsExpected expected old
as_expected-IsExpected none old h = tt
as_expected-IsExpected (some v) old h = same_version-eq (version_of old) (some v) h

module _ {S : Type 0} (storage : PublishStorage S) (json : Json) (disk : Disk) (fuel : ℕ) where
  -- A swap of the pointer that took place in the state `at` and led to `last`.
  pub record SwappedAt (expected : Option String) (value : Bytes) (at last : S) : Type 0 where
    pub found : Option VersionedObject
    pub found_there : storage.read index_head_key at ≡ ok found
    pub tag_matches : etag_of_object found ≡ expected
    pub tag : String
    pub written :
        storage.read index_head_key last ≡ ok (some (record { bytes = value; etag = tag }))
    pub leads : last ≡ (storage.compare_and_swap index_head_key expected value at).1

  conclude_swap-ok :
      (others : Others S) (result : PublishResult) (conflict : String) (b : Bool) (s : S)
      {r : PublishResult} {last : S}
      → conclude_swap storage json disk fuel others result conflict b s ≡ (ok r, last)
      → (b ≡ true) × (r ≡ result) × (last ≡ s)
  unfolding conclude_swap
  conclude_swap-ok others result conflict true s h = ground arith
  conclude_swap-ok others result conflict false s h =
      let (observed, _, e) = >>=-eq-ok _ _ s h in ground (arith, e)

  swap_head-ok :
      StorageLaws storage
      → (others : Others S) (object : Option VersionedObject) (value : Bytes)
        (result : PublishResult) (conflict : String) (s : S) {r : PublishResult} {last : S}
      → swap_head storage json disk fuel others object value result conflict s ≡ (ok r, last)
      → (r ≡ result) × SwappedAt (etag_of_object object) value (others.before_swap s) last
  unfolding swap_head
  swap_head-ok laws others object value result conflict s {r} {last} h =
      let (b, swapped, rest) = >>=-eq-ok _ _ s h in
      let (won, same, stays) = conclude_swap-ok others result conflict b _ rest in
      let (was, is) =
        laws.swapped (etag_of_object object) value (others.before_swap s) (swapped ∙ ap ok won) in
      (
        same,
        record {
          found = was.0;
          found_there = was.1;
          tag_matches = was.2;
          tag = is.0;
          written =
              subst
                (λ t.
                  storage.read index_head_key t ≡ ok (some (record { bytes = value; etag = is.0 })))
                (sym stays) is.1;
          leads = stays;
        },
      )

  -- The pointer as it was read parses as the pointer that the swap found.
  parse_current-same :
      {others : Others S} {Q : Result PublishError (Option VersionedObject) → Type 0}
      → Occurring storage others Q
      → (a b : Option VersionedObject) → Q (ok a)
      → Q (ok b)
      → etag_of_object a ≡ etag_of_object b
      → parse_current json a ≡ parse_current json b
  unfolding parse_current
  parse_current-same occ none none qa qb e = refl
  parse_current-same occ none (some b) qa qb e = cc
  parse_current-same occ (some a) none qa qb e = cc
  parse_current-same occ (some a) (some b) qa qb e =
      let same = occ.one_tag a b qa qb (some-injective a.etag b.etag e) in rw same

  -- What a success says of the pointer: just before the swap the storage held the version that the
  -- result names as the previous one, and now it holds the new head.
  pub record Moved (target : ℕ) (value : Bytes) (r : PublishResult) (last : S) : Type 0 where
    pub at : S
    pub before : Option VersionedObject
    pub old : Option ManifestHead
    pub before_there : storage.read index_head_key at ≡ ok before
    pub before_parses : parse_current json before ≡ ok old
    pub previous : r.previous_version_id ≡ version_of old
    pub activated : r.activated_version_id ≡ target
    pub swap : SwappedAt (etag_of_object before) value at last

  moved :
      {others : Others S} {Q : Result PublishError (Option VersionedObject) → Type 0}
      → Occurring storage others Q
      → (target : ℕ) (value : Bytes) (object : Option VersionedObject)
        (current : Option ManifestHead) (r : PublishResult) (at last : S)
      → Q (ok object)
      → Q (storage.read index_head_key at)
      → parse_current json object ≡ ok current
      → r ≡ (record { activated_version_id = target; previous_version_id = version_of current })
      → SwappedAt (etag_of_object object) value at last
      → Moved target value r last
  moved {Q = Q} occ target value object current r at last seen there parsed result swap = record {
    at = at;
    before = swap.found;
    old = current;
    before_there = swap.found_there;
    before_parses =
        parse_current-same occ swap.found object (subst Q swap.found_there there) seen
          swap.tag_matches
        ∙ parsed;
    previous = ap (λ (q : PublishResult). q.previous_version_id) result;
    activated = ap (λ (q : PublishResult). q.activated_version_id) result;
    swap = subst (λ e. SwappedAt e value at last) (sym swap.tag_matches) swap;
  }

  -- Uploads leave the pointer to the others.
  upload_all-occurs :
      {others : Others S} {Q : Result PublishError (Option VersionedObject) → Type 0}
      → StorageLaws storage
      → Occurring storage others Q
      → (n : ℕ) (uploads : List DirectoryUpload) (s : S) → Q (storage.read index_head_key s)
      → Q (
          storage.read index_head_key
            (upload_all storage json disk fuel others.before_upload n uploads s).1)
  unfolding upload_all
  upload_all-occurs laws occ n [] s q = q
  upload_all-occurs {others} {Q} laws occ n (u ∷ rest) s q =
      let now =
        subst Q
          (sym (
            laws.upload_directory_keeps_head u.key u.source create_only (others.before_upload n s)))
          (occ.by_upload n s q) in
      >>=-leaves
        (after (others.before_upload n) (storage.upload_directory u.key u.source create_only)) _ s
        (λ t. Q (storage.read index_head_key t)) now
        (λ a. upload_all-occurs laws occ (suc n) rest _ now)

  -- Over a storage that keeps its laws, and where no two pointer values that occur have one tag and
  -- different bytes: a publish that succeeds, whatever happens between its calls, takes the pointer from the version
  -- that stood there at the moment of the swap to the request's, which is greater; if the request
  -- names an expected version, that is the one that stood there.
  pub publish-ok :
      StorageLaws storage
      → (others : Others S) (Q : Result PublishError (Option VersionedObject) → Type 0)
      → Occurring storage others Q
      → (request : PublishRequest) (s : S) {r : PublishResult} {last : S}
      → Q (storage.read index_head_key s)
      → publish storage json disk fuel others request s ≡ (ok r, last)
      → (m : Moved request.manifest.version_id
          (json.print_head (new_head request.manifest.version_id request.updated_at))
          r
          last)
        × Older m.old request.manifest.version_id
        × IsExpected request.expected_current_version m.old
  unfolding publish moved
  publish-ok laws others Q occ request s {r} {last} start h =
      let seen = occ.by_read s start in
      let (_, _, h1) = >>=-eq-ok _ _ s h in
      let (_, _, h2) = >>=-eq-ok _ _ _ h1 in
      let (object, read, h3) = >>=-eq-ok _ _ _ h2 in
      let (current, parsed, h4) = >>=-eq-ok _ _ _ h3 in
      let (_, _, h5) = >>=-eq-ok _ _ _ h4 in
      let (_, expected, h6) = >>=-eq-ok _ _ _ h5 in
      let (_, newer, h7) = >>=-eq-ok _ _ _ h6 in
      let (_, _, h8) = >>=-eq-ok _ _ _ h7 in
      let (_, _, h9) = >>=-eq-ok _ _ _ h8 in
      let (_, _, h10) = >>=-eq-ok _ _ _ h9 in
      let (_, _, h11) = >>=-eq-ok _ _ _ h10 in
      let (_, _, h12) = >>=-eq-ok _ _ _ h11 in
      let (same, swap) =
        swap_head-ok laws others object
          (json.print_head (new_head request.manifest.version_id request.updated_at)) _ _ _ h12 in
      (
        moved occ request.manifest.version_id _ object current r _ last (subst Q read seen)
            (occ.by_swap _ (
              subst Q (sym (laws.upload_file_keeps_head _ _ _ _))
                (occ.by_upload _ _ (upload_all-occurs laws occ 0 _ _ seen))))
            parsed same swap,
        newer_than-Older _ current (guard-eq-ok _ _ newer),
        as_expected-IsExpected _ current (guard-eq-ok _ _ expected),
      )

  -- The bytes are read as a manifest that is valid and names the version.
  abbrev pub IsStored : Bytes → ℕ → Type 0
  IsStored bytes version =
      (manifest : IndexManifest) × (json.parse_manifest bytes ≡ ok manifest)
      × (validate_manifest manifest ≡ ok tt)
      × (manifest.version_id ≡ version)

  validated-IsStored :
      (bytes : Bytes) (version : ℕ)
      → validate_stored_manifest storage json disk fuel bytes version ≡ ok tt
      → IsStored bytes version
  unfolding validate_stored_manifest
  validated-IsStored bytes version h =
      Outcome.>>=-eq-ok
        (map_err (λ _. PublishError.operation "failed to parse stored manifest")
          (json.parse_manifest bytes))
        _ h
        λ manifest parsed h1.
          Outcome.>>=-eq-ok (map_err PublishError.validation (validate_manifest manifest)) _ h1
            λ _ valid named. (
              manifest,
              map_err-eq-ok _ (json.parse_manifest bytes) parsed,
              map_err-eq-ok _ (validate_manifest manifest) valid,
              equal_ids manifest.version_id version
                  (guard-eq-ok (manifest.version_id == version) _ named),
            )

  -- Over a storage that keeps its laws, and where no two pointer values that occur have one tag and
  -- different bytes: a rollback that succeeds takes the pointer from the version that the request names as current,
  -- which stood there at the moment of the swap, to the target, whose stored object was read and is
  -- parsed as a manifest that is valid and names that version.
  pub rollback-ok :
      StorageLaws storage
      → (others : Others S) (Q : Result PublishError (Option VersionedObject) → Type 0)
      → Occurring storage others Q
      → (request : RollbackRequest) (s : S) {r : PublishResult} {last : S}
      → Q (storage.read index_head_key s)
      → rollback storage json disk fuel others request s ≡ (ok r, last)
      → (m : Moved request.target_version_id
          (json.print_head (new_head request.target_version_id request.updated_at))
          r
          last)
        × (version_of m.old ≡ request.expected_current_version)
        × (o : VersionedObject) × (storage.read
              (version_manifest_key request.target_version_id)
              (others.before_upload 0 (others.before_read s))
            ≡ ok (some o))
        × IsStored o.bytes request.target_version_id
  unfolding rollback moved
  rollback-ok laws others Q occ request s {r} {last} start h =
      let seen = occ.by_read s start in
      let (_, _, h1) = >>=-eq-ok _ _ s h in
      let (_, _, h2) = >>=-eq-ok _ _ _ h1 in
      let (object, read, h3) = >>=-eq-ok _ _ _ h2 in
      let (current, parsed, h4) = >>=-eq-ok _ _ _ h3 in
      let (_, expected, h5) = >>=-eq-ok _ _ _ h4 in
      let (found, there, h6) = >>=-eq-ok _ _ _ h5 in
      let (stored, some_stored, h7) = >>=-eq-ok _ _ _ h6 in
      let (_, valid, h8) = >>=-eq-ok _ _ _ h7 in
      let (same, swap) =
        swap_head-ok laws others object
          (json.print_head (new_head request.target_version_id request.updated_at)) _ _ _ h8 in
      (
        moved occ request.target_version_id _ object current r _ last (subst Q read seen)
            (occ.by_swap _ (occ.by_upload 0 _ seen)) parsed same swap,
        same_version-eq _ _ (guard-eq-ok _ _ expected),
        stored,
        there ∙ ap ok (ok_or-eq-ok found _ some_stored),
        validated-IsStored stored.bytes request.target_version_id valid,
      )

  -- A pointer that holds a new head is observed to name its version.
  observed-written :
      (v : ℕ) (t : ℤ) (tag : String) (s : S)
      → (validate_publish_version v ≡ ok tt)
      → (validate_updated_at t ≡ ok tt)
      → (storage.read index_head_key s
          ≡ ok (some (record { bytes = json.print_head (new_head v t); etag = tag })))
      → observed_head_version storage json disk fuel s ≡ (ok (some v), s)
  unfolding observed_head_version parse_current read_head ◌>>=◌ parse_head validate_publish_version
      validate_updated_at new_head
  observed-written v t tag s positive plausible written =
      rw
        (written, new_head-readable json v t (guard-eq-ok _ _ positive) (guard-eq-ok _ _ plausible))
        refl

  -- Over a storage that keeps its laws: after a publish that succeeds the version that its result names as active is what a reader of the
  -- pointer observes.
  pub publish-observed :
      StorageLaws storage
      → (others : Others S) (request : PublishRequest) (s : S) {r : PublishResult} {last : S}
      → publish storage json disk fuel others request s ≡ (ok r, last)
      → observed_head_version storage json disk fuel last ≡ (ok (some r.activated_version_id), last)
  unfolding publish
  publish-observed laws others request s {r} {last} h =
      let (_, _, h1) = >>=-eq-ok _ _ s h in
      let (_, plausible, h2) = >>=-eq-ok _ _ _ h1 in
      let (object, _, h3) = >>=-eq-ok _ _ _ h2 in
      let (current, _, h4) = >>=-eq-ok _ _ _ h3 in
      let (_, positive, h5) = >>=-eq-ok _ _ _ h4 in
      let (_, _, h6) = >>=-eq-ok _ _ _ h5 in
      let (_, _, h7) = >>=-eq-ok _ _ _ h6 in
      let (_, _, h8) = >>=-eq-ok _ _ _ h7 in
      let (_, _, h9) = >>=-eq-ok _ _ _ h8 in
      let (_, _, h10) = >>=-eq-ok _ _ _ h9 in
      let (_, _, h11) = >>=-eq-ok _ _ _ h10 in
      let (_, _, h12) = >>=-eq-ok _ _ _ h11 in
      let (same, swap) =
        swap_head-ok laws others object
          (json.print_head (new_head request.manifest.version_id request.updated_at)) _ _ _ h12 in
      subst
        (λ (q : PublishResult).
          observed_head_version storage json disk fuel last
          ≡ (ok (some q.activated_version_id), last))
        (sym same)
        (observed-written request.manifest.version_id request.updated_at swap.tag last positive
          plausible swap.written)
