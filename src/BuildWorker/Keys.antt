-- ===== src/BuildWorker/Keys.antt =====
-- The keys of a snapshot: those that are listed and the message's own, in order, each once.
use Prim.Native.Char.{code}
use Prim.Native.String as Text
use text.Mathlib.TextEquality.{Char-path}
use ltsearch.Common.{
  String, true, false, List, [], ◌∷◌, ◌++◌, ◌≡◌, ◌↔◌, refl, ap, ◌∙◌, sym, subst, inl, inr, ◌⊎◌, In,
  Bool-cases, arith, str_eq, str_eq_iff,
}
use ltsearch.Query.Ranker.{str_less}
use ltsearch.Query.Sorted.{str_less-asym}
use ltsearch.BuildWorker.{
  contains, insert_key, sort_keys, skip_same, dedup, with_message, snapshot_wal_keys,
}

contains-In : (key : String) (keys : List String) → contains key keys ≡ true → In key keys
unfolding contains
contains-In key [] h = absurd (ground (arith, h))
contains-In key (k ∷ keys) h = elim (Bool-cases (str_eq k key)) [
  | inl here ↦ inl (sym ((str_eq_iff k key).0 here))
  | inr later ↦ inr (contains-In key keys (rw (later, contains) at h))
]

insert_key-In :
    (key x : String) (keys : List String) → In x (insert_key key keys) ↔ ((x ≡ key) ⊎ In x keys)
unfolding insert_key
insert_key-In key x [] = (λ m. m, λ m. m)
insert_key-In key x (k ∷ keys) = elim (Bool-cases (str_less k key)) [
  | inl first ↦ rw (first, insert_key) (ground (arith, insert_key-In key x keys))
  | inr later ↦ rw (later, insert_key) (λ m. m, λ m. m)
]

sort_keys-In : (x : String) (keys : List String) → In x (sort_keys keys) ↔ In x keys
unfolding sort_keys
sort_keys-In x [] = (λ m. m, λ m. m)
sort_keys-In x (k ∷ keys) = ground (arith, insert_key-In k x (sort_keys keys), sort_keys-In x keys)

skip_same-In :
    (x key : String) (keys : List String) → In x (skip_same key keys) ↔ ((x ≡ key) ⊎ In x keys)
unfolding skip_same
skip_same-In x key [] = (λ m. m, λ m. m)
skip_same-In x key (k ∷ keys) = elim (Bool-cases (str_eq key k)) [
  | inl same ↦
      rw (same, skip_same) (ground (arith, skip_same-In x key keys, (str_eq_iff key k).0 same))
  | inr other ↦ rw (other, skip_same) (ground (arith, skip_same-In x k keys))
]

dedup-In : (x : String) (keys : List String) → In x (dedup keys) ↔ In x keys
unfolding dedup
dedup-In x [] = (λ m. m, λ m. m)
dedup-In x (k ∷ keys) = skip_same-In x k keys

In-append_one :
    (x key : String) (keys : List String) → In x (keys ++ key ∷ []) ↔ ((x ≡ key) ⊎ In x keys)
In-append_one x key [] = (λ m. m, λ m. m)
In-append_one x key (k ∷ keys) = ground (arith, In-append_one x key keys)

with_message-In :
    (x key : String) (listed : List String)
    → In x (with_message key listed) ↔ ((x ≡ key) ⊎ In x listed)
with_message-In x key listed = elim (Bool-cases (contains key listed)) [
  | inl there ↦ rw there (
    λ m. inr m,
    λ m. elim m [
      | inl e ↦ subst (λ k. In k listed) (sym e) (contains-In key listed there)
      | inr n ↦ n
    ],
  )
  | inr missing ↦ rw missing (In-append_one x key listed)
]

-- Keys in strictly ascending order, so none stands twice.
abbrev pub Ascending : List String → Type 0
Ascending [] = Unit
Ascending (x ∷ []) = Unit
Ascending (x ∷ y ∷ ys) = (str_less x y ≡ true) × Ascending (y ∷ ys)

abbrev Sorted : List String → Type 0
Sorted [] = Unit
Sorted (x ∷ []) = Unit
Sorted (x ∷ y ∷ ys) = (str_less y x ≡ false) × Sorted (y ∷ ys)

str_less_total : (a b : String) → str_less a b ≡ false → str_less b a ≡ false → a ≡ b
unfolding str_less
str_less_total Text.[] Text.[] h k = refl
str_less_total Text.[] (Text.◌∷◌ d t) h k = absurd (ground (arith, h))
str_less_total (Text.◌∷◌ c s) Text.[] h k = absurd (ground (arith, k))
str_less_total (Text.◌∷◌ c s) (Text.◌∷◌ d t) h k =
    let same : code c ≡ code d = ground (arith, h, k) in
    ap (λ e. Text.◌∷◌ e s) (Char-path c d same)
    ∙ ap (λ u. Text.◌∷◌ d u)
        (str_less_total s t (ground (arith, h, same)) (ground (arith, k, same)))

insert_key-Sorted : (key : String) (keys : List String) → Sorted keys → Sorted (insert_key key keys)
unfolding insert_key
insert_key-Sorted key [] h = tt
insert_key-Sorted key (x ∷ []) h = elim (Bool-cases (str_less x key)) [
  | inl first ↦ rw (first, insert_key) (str_less-asym x key first, tt)
  | inr later ↦ rw (later, insert_key) (later, tt)
]
insert_key-Sorted key (x ∷ y ∷ ys) (first, h) =
    let rest = insert_key-Sorted key (y ∷ ys) h in
    elim (Bool-cases (str_less x key)) [
      | inr later ↦ rw (later, insert_key) (later, (first, h))
      | inl before_key ↦ elim (Bool-cases (str_less y key)) [
        | inl also ↦ rw (before_key, also, insert_key) (first, rw (also, insert_key) at rest)
        | inr here ↦
            rw (before_key, here, insert_key)
              (str_less-asym x key before_key, rw (here, insert_key) at rest)
      ]
    ]

sort_keys-Sorted : (keys : List String) → Sorted (sort_keys keys)
unfolding sort_keys
sort_keys-Sorted [] = tt
sort_keys-Sorted (k ∷ keys) = insert_key-Sorted k (sort_keys keys) (sort_keys-Sorted keys)

-- What is kept begins with the key, or with an equal one.
skip_same-head :
    (k key : String) (keys : List String)
    → str_less k key ≡ true
    → Ascending (skip_same key keys)
    → Ascending (k ∷ skip_same key keys)
unfolding skip_same
skip_same-head k key [] h a = (h, tt)
skip_same-head k key (x ∷ keys) h a = elim (Bool-cases (str_eq key x)) [
  | inl same ↦ rw (same, skip_same) (skip_same-head k key keys h (rw (same, skip_same) at a))
  | inr other ↦ rw (other, skip_same) (h, rw (other, skip_same) at a)
]

skip_same-Ascending :
    (key : String) (keys : List String) → Sorted (key ∷ keys) → Ascending (skip_same key keys)
unfolding skip_same
skip_same-Ascending key [] h = tt
skip_same-Ascending key (k ∷ keys) (first, h) = elim (Bool-cases (str_eq key k)) [
  | inl same ↦
      rw (same, skip_same)
        (skip_same-Ascending key keys
          (subst (λ x. Sorted (x ∷ keys)) (sym ((str_eq_iff key k).0 same)) h))
  | inr other ↦
      rw (other, skip_same)
        (skip_same-head key k keys (strictly key k first other) (skip_same-Ascending k keys h))
]
  where
    strictly : (a b : String) → str_less b a ≡ false → str_eq a b ≡ false → str_less a b ≡ true
    strictly a b back apart = elim (Bool-cases (str_less a b)) [
      | inl less ↦ less
      | inr more ↦ absurd (ground (arith, apart, str_eq_iff a b, str_less_total a b more back))
    ]

dedup-Ascending : (keys : List String) → Sorted keys → Ascending (dedup keys)
unfolding dedup
dedup-Ascending [] h = tt
dedup-Ascending (k ∷ keys) h = skip_same-Ascending k keys h

-- A snapshot takes the listed keys and the message's own, no others, in strictly ascending order, so that
-- each stands once.
pub snapshot_wal_keys-exact :
    (listed : List String) (message_wal_key : String)
    → Ascending (snapshot_wal_keys listed message_wal_key)
      × ((x : String)
          → In x (snapshot_wal_keys listed message_wal_key) ↔ ((x ≡ message_wal_key) ⊎ In x listed))
unfolding snapshot_wal_keys
snapshot_wal_keys-exact listed key = (
  dedup-Ascending (sort_keys (with_message key listed))
      (sort_keys-Sorted (with_message key listed)),
  λ x. (
    λ m. (with_message-In x key listed).0 (
        (sort_keys-In x (with_message key listed)).0
          ((dedup-In x (sort_keys (with_message key listed))).0 m)),
    λ m.
        (dedup-In x (sort_keys (with_message key listed))).1
          ((sort_keys-In x (with_message key listed)).1 ((with_message-In x key listed).1 m)),
  ),
)
