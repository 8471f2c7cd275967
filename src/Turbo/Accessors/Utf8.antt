-- ===== src/Turbo/Accessors/Utf8.antt =====
-- What the check of a whole index leaves to a reader.
use ltsearch.Common.{
  ℕ, zero, suc, ◌+◌, ◌≤◌, ◌<◌, ◌≡◌, ◌⊎◌, inl, inr, subst, arith, String, List, Option, none, some,
  Result, ok, err,
}
use ltsearch.Turbo.MmapIndex.{MmapIndex, MmapIndexError}
use ltsearch.Turbo.Accessors.{
  text, title, original_doc_id, metadata_json, check_utf8, check_from, and_then,
}

-- The access returns a value, not an error.
abbrev pub Succeeds : {A : Type 0} → Option (Result MmapIndexError A) → Type 0
Succeeds {A} o = (a : A) × (o ≡ some (ok a))

-- The texts of a record are all readable.
abbrev pub IsReadable : {C : Type 0} → (List ℕ → Option String) → MmapIndex C → ℕ → Type 0
IsReadable from_utf8 index i =
    Succeeds (text from_utf8 index i)
    × (Succeeds (title from_utf8 index i)
        × (Succeeds (original_doc_id from_utf8 index i)
            × Succeeds (metadata_json from_utf8 index i)))

and_then-ok :
    {A : Type 0} (o : Option (Result MmapIndexError A))
    (next : Option (Result MmapIndexError (Unit {0})))
    → and_then o next ≡ some (ok tt)
    → Succeeds o × (next ≡ some (ok tt))
and_then-ok none next e = absurd (ground (arith, e))
and_then-ok (some (err f)) next e = absurd (ground (arith, e))
and_then-ok (some (ok a)) next e = ((a, ground arith), e)

first_or_later : (a b : ℕ) → a ≤ b → (a ≡ b) ⊎ (suc a ≤ b)
first_or_later a b h = ground (arith, h)

module _ {C : Type 0} (from_utf8 : List ℕ → Option String) (index : MmapIndex C) where
  check_from-step :
      (start left : ℕ)
      → check_from from_utf8 index start (suc left) ≡ some (ok tt)
      → IsReadable from_utf8 index start
        × (check_from from_utf8 index (suc start) left ≡ some (ok tt))
  unfolding check_from
  check_from-step start left e =
      let rest = check_from from_utf8 index (suc start) left in
      let after_id = and_then (metadata_json from_utf8 index start) rest in
      let after_title = and_then (original_doc_id from_utf8 index start) after_id in
      let after_text = and_then (title from_utf8 index start) after_title in
      let (t, e) = and_then-ok (text from_utf8 index start) after_text e in
      let (h, e) = and_then-ok (title from_utf8 index start) after_title e in
      let (d, e) = and_then-ok (original_doc_id from_utf8 index start) after_id e in
      let (m, e) = and_then-ok (metadata_json from_utf8 index start) rest e in ((t, (h, (d, m))), e)

  check_from-IsReadable :
      (start left i : ℕ)
      → check_from from_utf8 index start left ≡ some (ok tt)
      → start ≤ i
      → i < start + left
      → IsReadable from_utf8 index i
  unfolding check_from
  check_from-IsReadable start zero i e low high = absurd (omega (arith, low, high))
  check_from-IsReadable start (suc left) i e low high =
      let (here, rest) = check_from-step start left e in
      elim (first_or_later start i low) [
        | inl same ↦ subst (IsReadable from_utf8 index) same here
        | inr later ↦ check_from-IsReadable (suc start) left i rest later (omega (arith, high))
      ]

  -- After a check that succeeds, every access below the record count returns a readable text.
  pub check_utf8-IsReadable :
      (i : ℕ)
      → check_utf8 from_utf8 index ≡ some (ok tt)
      → i < index.header.record_count
      → IsReadable from_utf8 index i
  unfolding check_utf8
  check_utf8-IsReadable i e inside =
      check_from-IsReadable 0 index.header.record_count i e (omega arith) (omega (arith, inside))
