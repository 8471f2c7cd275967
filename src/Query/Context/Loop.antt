-- ===== src/Query/Context/Loop.antt =====
-- The loop of the budget: it ends, with counts whose costs fit.
use ltsearch.Common.{
  ℕ, zero, suc, ◌+◌, ◌-◌, ◌≤◌, ◌<◌, true, false, Option, some, List, [], ◌∷◌, length, take, ◌≡◌,
  refl, sym, ap, arith, inl, inr, ◌⊎◌, Bool-cases, subst,
}
use ltsearch.Query.Context.{cost_at, sum, drop_static, over, shrink}

pred_suc : (n : ℕ) → suc n - 1 ≡ n
pred_suc n = omega arith

sum-take :
    (k : ℕ) (cs : List ℕ) → k < length cs → sum (take (suc k) cs) ≡ sum (take k cs) + cost_at k cs
sum-take k [] h = absurd (omega arith)
sum-take zero (c ∷ cs) h = omega arith
sum-take (suc k) (c ∷ cs) h = omega (arith, sum-take k cs (omega arith))

pub sum-take_all : (cs : List ℕ) → sum (take (length cs) cs) ≡ sum cs
sum-take_all [] = refl
sum-take_all (c ∷ cs) = ap (λ n. c + n) (sum-take_all cs)

sum-take_last :
    (k : ℕ) (cs : List ℕ) → k < length cs → sum (take (suc k) cs) - cost_at k cs ≡ sum (take k cs)
sum-take_last k cs h = omega (arith, sum-take k cs h)

-- Without its last chunk a group costs what is kept.
sum-drop :
    (k : ℕ) (cs : List ℕ)
    → k ≤ length cs
    → 0 < k
    → sum (take k cs) - cost_at (k - 1) cs ≡ sum (take (k - 1) cs)
sum-drop zero cs h p = absurd (omega arith)
sum-drop (suc k) cs h p = rw (pred_suc k) (sum-take_last k cs (omega arith))

-- What the loop is to find: counts that are not raised, with costs that fit unless nothing is kept,
-- and that are lowered only where the costs did not fit.
abbrev pub Found : (fixed max_tokens : ℕ) (ss ds : List ℕ) (ks kd : ℕ) → Option (ℕ × ℕ) → Type 0
Found fixed max_tokens ss ds ks kd found =
    (a : ℕ) × (b : ℕ) × (found ≡ some (a, b))
    × (a ≤ ks)
    × (b ≤ kd)
    × ((fixed + sum (take a ss) + sum (take b ds) ≤ max_tokens) ⊎ ((a ≡ 0) × (b ≡ 0)))
    × (((a ≡ ks) × (b ≡ kd)) ⊎ (max_tokens < fixed + sum (take ks ss) + sum (take kd ds)))

drop_static-some :
    (ks kd st dt : ℕ)
    → 0 < ks + kd
    → ((drop_static ks kd st dt ≡ true) × (0 < ks)) ⊎ ((drop_static ks kd st dt ≡ false) × (0 < kd))
drop_static-some ks kd st dt h = ground arith

over-true :
    (fixed max_tokens ks kd st dt : ℕ)
    → over fixed max_tokens ks kd st dt ≡ true
    → (max_tokens < fixed + st + dt) × (0 < ks + kd)
over-true fixed max_tokens ks kd st dt h = ground arith

over-false :
    (fixed max_tokens ks kd st dt : ℕ)
    → over fixed max_tokens ks kd st dt ≡ false
    → (fixed + st + dt ≤ max_tokens) ⊎ ((ks ≡ 0) × (kd ≡ 0))
over-false fixed max_tokens ks kd st dt h = ground arith

-- A round that leaves less leaves what it finds.
Found-less :
    (fixed max_tokens : ℕ) (ss ds : List ℕ) (ks kd ks_1 kd_1 : ℕ) (found : Option (ℕ × ℕ))
    → ks_1 ≤ ks
    → kd_1 ≤ kd
    → max_tokens < fixed + sum (take ks ss) + sum (take kd ds)
    → Found fixed max_tokens ss ds ks_1 kd_1 found
    → Found fixed max_tokens ss ds ks kd found
Found-less fixed max_tokens ss ds ks kd ks_1 kd_1 found hs hd big (a, b, e, ha, hb, fits, _) =
    (a, b, e, omega arith, omega arith, fits, inr big)

shrink-calm :
    (fixed max_tokens : ℕ) (ss ds : List ℕ) (fuel ks kd st dt : ℕ)
    → over fixed max_tokens ks kd st dt ≡ false
    → shrink fixed max_tokens ss ds fuel ks kd st dt ≡ some (ks, kd)
unfolding shrink
shrink-calm fixed max_tokens ss ds zero ks kd st dt e = rw e refl
shrink-calm fixed max_tokens ss ds (suc fuel) ks kd st dt e = rw e refl

-- One round of the loop.
shrink-round :
    (fixed max_tokens : ℕ) (ss ds : List ℕ) (fuel ks kd : ℕ)
    → over fixed max_tokens ks kd (sum (take ks ss)) (sum (take kd ds)) ≡ true
    → ks ≤ length ss
    → kd ≤ length ds
    → (ks_1 : ℕ) × (kd_1 : ℕ) × (ks_1 ≤ ks)
      × (kd_1 ≤ kd)
      × (ks_1 + kd_1 < ks + kd)
      × (shrink fixed max_tokens ss ds (suc fuel) ks kd (sum (take ks ss)) (sum (take kd ds))
          ≡ shrink fixed max_tokens ss ds fuel ks_1 kd_1 (sum (take ks_1 ss)) (sum (take kd_1 ds)))
unfolding shrink
shrink-round fixed max_tokens ss ds fuel ks kd more hs hd =
    elim (drop_static-some ks kd (sum (take ks ss)) (sum (take kd ds))
      (over-true fixed max_tokens ks kd (sum (take ks ss)) (sum (take kd ds)) more).1) [
        | inl (d, p) ↦ (
          ks - 1,
          kd,
          omega arith,
          omega arith,
          omega arith,
          rw (more, d, sum-drop ks ss hs p) refl,
        )
        | inr (d, p) ↦ (
          ks,
          kd - 1,
          omega arith,
          omega arith,
          omega arith,
          rw (more, d, sum-drop kd ds hd p) refl,
        )
      ]

Found-calm :
    (fixed max_tokens : ℕ) (ss ds : List ℕ) (fuel ks kd : ℕ)
    → over fixed max_tokens ks kd (sum (take ks ss)) (sum (take kd ds)) ≡ false
    → Found fixed max_tokens ss ds ks kd
        (shrink fixed max_tokens ss ds fuel ks kd (sum (take ks ss)) (sum (take kd ds)))
Found-calm fixed max_tokens ss ds fuel ks kd calm = (
  ks,
  kd,
  shrink-calm fixed max_tokens ss ds fuel ks kd (sum (take ks ss)) (sum (take kd ds)) calm,
  omega arith,
  omega arith,
  over-false fixed max_tokens ks kd (sum (take ks ss)) (sum (take kd ds)) calm,
  inl (refl, refl),
)

-- The loop finds what it is to find: with fuel for the chunks, that it ends.
pub shrink-Found :
    (fixed max_tokens : ℕ) (ss ds : List ℕ) (fuel ks kd : ℕ)
    → ks + kd ≤ fuel
    → ks ≤ length ss
    → kd ≤ length ds
    → Found fixed max_tokens ss ds ks kd
        (shrink fixed max_tokens ss ds fuel ks kd (sum (take ks ss)) (sum (take kd ds)))
shrink-Found fixed max_tokens ss ds zero ks kd h hs hd =
    elim (Bool-cases (over fixed max_tokens ks kd (sum (take ks ss)) (sum (take kd ds)))) [
      | inr calm ↦ Found-calm fixed max_tokens ss ds zero ks kd calm
      | inl more ↦ absurd (
          omega
            (arith, over-true fixed max_tokens ks kd (sum (take ks ss)) (sum (take kd ds)) more))
    ]
shrink-Found fixed max_tokens ss ds (suc fuel) ks kd h hs hd =
    elim (Bool-cases (over fixed max_tokens ks kd (sum (take ks ss)) (sum (take kd ds)))) [
      | inr calm ↦ Found-calm fixed max_tokens ss ds (suc fuel) ks kd calm
      | inl more ↦
          let (ks_1, kd_1, ls, ld, less, step) =
            shrink-round fixed max_tokens ss ds fuel ks kd more hs hd in
          Found-less fixed max_tokens ss ds ks kd ks_1 kd_1 _ ls ld
            (over-true fixed max_tokens ks kd (sum (take ks ss)) (sum (take kd ds)) more).0
            (subst (λ o. Found fixed max_tokens ss ds ks_1 kd_1 o) (sym step)
              (shrink-Found fixed max_tokens ss ds fuel ks_1 kd_1 (omega arith) (omega arith)
                (omega arith)))
    ]
