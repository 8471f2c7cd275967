-- ===== src/Turbo/Record/Fields.antt =====
-- Reading the fields of a record where its type keeps them.
use ltsearch.Common.{
  ℕ, ◌+◌, ◌≤◌, ◌<◌, ◌≡◌, refl, ap, ◌∙◌, ◌↔◌, arith, List, ◌++◌, Option, none, some, true, length,
  take, length-append, append_assoc,
}
use ltsearch.Common.Words.{
  u32_end, u64_end, from_le, slice, le_bytes, from_le-le_bytes, take-append, checked_slice-eq,
  drop-append, drop-drop, drop,
}
use ltsearch.Turbo.Codec.{TurboQuantConfig}
use ltsearch.Turbo.Header.{v4_dim_512}
use ltsearch.Turbo.Record.{
  TurboProdRecord512, EncodedTurboProd, holds_codes_of, idx_len, signs_len, new, as_bytes, new_ref,
  TurboRecordRef, word_at, doc_id, idx, qjl, gamma, norm,
}

-- A record holds the codes of the configurations of 509 to 512 dimensions and 505 to 512 sign bits.
pub holds_codes_of-exact :
    (c : TurboQuantConfig)
    → (holds_codes_of c ≡ true)
      ↔ ((509 ≤ c.dim) × (c.dim ≤ 512) × (505 ≤ c.qjl_dim) × (c.qjl_dim ≤ 512))
unfolding holds_codes_of idx_len signs_len
holds_codes_of-exact c = ground arith

-- The fields of the record that was stored, as the reference to its bytes reads them.
abbrev pub ReadsAs : TurboRecordRef → TurboProdRecord512 → Type 0
ReadsAs ref r =
    (doc_id ref ≡ some r.doc_id)
    × (idx ref ≡ some r.idx)
    × (qjl ref ≡ some r.signs)
    × (gamma ref ≡ some r.gamma)
    × (norm ref ≡ some (some r.norm))

-- Every field fits the type of the record.
abbrev pub IsRecord : TurboProdRecord512 → Type 0
IsRecord r =
    (r.doc_id < u64_end)
    × (length r.idx ≡ 128)
    × (length r.signs ≡ 64)
    × (r.gamma < u32_end)
    × (r.norm < u32_end)

word_at-eq :
    (start size : ℕ) (bytes : List ℕ) (v : ℕ)
    → start + size ≤ length bytes
    → from_le (slice start (start + size) bytes) ≡ v
    → word_at start size bytes ≡ some v
word_at-eq start size bytes v fits e =
    rw (checked_slice-eq start (start + size) bytes (omega arith) fits, word_at) (ap some e)

abbrev some_norm : Option ℕ → Option (Option ℕ)
some_norm o = elim o [ none ↦ none | some v ↦ some (some v) ]

module _ (r : TurboProdRecord512) (fits : IsRecord r) where
  length-as_bytes : length (as_bytes r) ≡ 208
  unfolding as_bytes
  length-as_bytes = omega (
    arith,
    length-append r.idx (r.signs ++ (le_bytes 4 r.gamma ++ le_bytes 4 r.norm)),
    length-append r.signs (le_bytes 4 r.gamma ++ le_bytes 4 r.norm),
  )

  module _ (rest : List ℕ) where
    abbrev ref : TurboRecordRef
    ref = record { region = as_bytes r ++ rest; layout = v4_dim_512 }

    long_enough : 208 ≤ length (as_bytes r ++ rest)
    long_enough = omega (arith, length-as_bytes, length-append (as_bytes r) rest)

    -- What follows the identity, the index code and the sign bits.
    abbrev factors : List ℕ
    factors = (le_bytes 4 r.gamma ++ le_bytes 4 r.norm) ++ rest

    after_id : drop 8 (as_bytes r ++ rest) ≡ r.idx ++ (r.signs ++ factors)
    unfolding as_bytes
    after_id =
        append_assoc r.idx (r.signs ++ (le_bytes 4 r.gamma ++ le_bytes 4 r.norm)) rest
        ∙ ap (λ t. r.idx ++ t) (append_assoc r.signs (le_bytes 4 r.gamma ++ le_bytes 4 r.norm) rest)

    after_idx : drop 136 (as_bytes r ++ rest) ≡ r.signs ++ factors
    after_idx =
        drop-drop 8 128 (as_bytes r ++ rest)
        ∙ ap (drop 128) after_id
        ∙ drop-append 128 r.idx (r.signs ++ factors) (omega arith)

    after_signs : drop 200 (as_bytes r ++ rest) ≡ factors
    after_signs =
        drop-drop 136 64 (as_bytes r ++ rest)
        ∙ ap (drop 64) after_idx
        ∙ drop-append 64 r.signs factors (omega arith)

    after_gamma : drop 204 (as_bytes r ++ rest) ≡ le_bytes 4 r.norm ++ rest
    after_gamma = drop-drop 200 4 (as_bytes r ++ rest) ∙ ap (drop 4) after_signs

    -- The region up to the identity, for the read at its start.
    id_first : take 8 (as_bytes r ++ rest) ≡ le_bytes 8 r.doc_id
    unfolding as_bytes
    id_first = refl

    pub reads_as : ReadsAs ref r
    unfolding doc_id idx qjl gamma norm as_bytes
    reads_as = (
      word_at-eq 0 8 (as_bytes r ++ rest) r.doc_id (omega (arith, long_enough))
          (ap from_le id_first ∙ from_le-le_bytes 8 r.doc_id (omega arith)),
      checked_slice-eq 8 136 (as_bytes r ++ rest) (omega arith) (omega (arith, long_enough))
          ∙ ap (λ t. some (take 128 t)) after_id
          ∙ ap some (take-append 128 r.idx (r.signs ++ factors) (omega arith)),
      checked_slice-eq 136 200 (as_bytes r ++ rest) (omega arith) (omega (arith, long_enough))
          ∙ ap (λ t. some (take 64 t)) after_idx
          ∙ ap some (take-append 64 r.signs factors (omega arith)),
      word_at-eq 200 4 (as_bytes r ++ rest) r.gamma (omega (arith, long_enough))
          (ap (λ t. from_le (take 4 t)) after_signs ∙ from_le-le_bytes 4 r.gamma (omega arith)),
      ap some_norm (
          word_at-eq 204 4 (as_bytes r ++ rest) r.norm (omega (arith, long_enough))
            (ap (λ t. from_le (take 4 t)) after_gamma ∙ from_le-le_bytes 4 r.norm (omega arith))),
    )

-- A record that is made of a code whose numbers fit their types is read back field by field from its
-- bytes, whatever follows them, with the identity and the codes that it was made of.
pub new-ReadsAs :
    (id : ℕ) (e : EncodedTurboProd) (r : TurboProdRecord512) (rest : List ℕ)
    → id < u64_end
    → e.gamma < u32_end
    → e.norm < u32_end
    → new id e ≡ some r
    → (ref : TurboRecordRef) × (new_ref (as_bytes r ++ rest) v4_dim_512 ≡ some ref)
      × ReadsAs ref r
      × (r.doc_id ≡ id)
      × (r.idx ≡ e.idx)
      × (r.signs ≡ e.signs)
unfolding new new_ref
new-ReadsAs id e r rest hid hg hn made =
    let (size, (i, (s, (di, (g, n))))) = parts in
    let fits : IsRecord r =
      (omega (arith, di), size.0, size.1, omega (arith, g), omega (arith, n)) in
    (
      record { region = as_bytes r ++ rest; layout = v4_dim_512 },
      ground (arith, long_enough r fits rest),
      reads_as r fits rest,
      di,
      i,
      s,
    )
  where
    parts :
        ((length r.idx ≡ 128) × (length r.signs ≡ 64))
        × ((r.idx ≡ e.idx)
            × ((r.signs ≡ e.signs) × ((r.doc_id ≡ id) × ((r.gamma ≡ e.gamma) × (r.norm ≡ e.norm)))))
    parts = ground (arith, made)
