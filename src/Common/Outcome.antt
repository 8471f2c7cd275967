-- ===== src/Common/Outcome.antt =====
-- Rust's `Result`, with `?` as the bind of a `do` block.
use mathlib.Core.Path.{◌≡◌, refl}
use mathlib.Core.Logic.{◌⊎◌, inl, inr}
use mathlib.Core.Bool.{Bool, true, false}
use mathlib.Core.List.{List, [], ◌∷◌}
use mathlib.Core.Option.{Option, none, some}
use native.Mathlib.Omega.{arith}

pub data Result {ℓ κ} (E : Type ℓ) (A : Type κ) : Type (ℓ ⊔ κ) where
  ok : A → Result E A
  err : E → Result E A

-- The early return of `?` with the error.
infixl 5 ◌>>=◌ ◌>>◌
abbrev pub ◌>>=◌ {ε ℓ κ} :
    {A : Type ℓ} {E : Type ε} {B : Type κ} → Result E A → (A → Result E B) → Result E B
err failure >>= next = err failure
ok value >>= next = next value

abbrev pub ◌>>◌ {ε ℓ κ} :
    {A : Type ℓ} {E : Type ε} {B : Type κ} → Result E A → Result E B → Result E B
first >> second = first >>= λ _. second

abbrev pub is_err {ε ℓ} : {E : Type ε} {A : Type ℓ} → Result E A → Bool
is_err (ok a) = false
is_err (err e) = true

-- `if !test { return Err(e) }`
abbrev pub guard {ε} : {E : Type ε} → Bool → E → Result E (Unit {0})
guard true e = ok tt
guard false e = err e

-- `Result::map_err`
abbrev pub map_err {ε κ ℓ} :
    {E : Type ε} {F : Type κ} {A : Type ℓ} → (E → F) → Result E A → Result F A
map_err f (ok a) = ok a
map_err f (err e) = err (f e)

-- `Option::ok_or`
abbrev pub ok_or {ε ℓ} : {E : Type ε} {A : Type ℓ} → Option A → E → Result E A
ok_or none e = err e
ok_or (some a) e = ok a

pub Result-cases {ε ℓ} :
    {E : Type ε} {A : Type ℓ} (r : Result E A) → ((a : A) × (r ≡ ok a)) ⊎ ((e : E) × (r ≡ err e))
Result-cases (ok a) = inl (a, refl)
Result-cases (err e) = inr (e, refl)

-- `for x in xs { check(x)?; }`
unfoldable pub each {ε ℓ} :
    {E : Type ε} {A : Type ℓ} → (A → Result E (Unit {0})) → List A → Result E (Unit {0})
each check [] = ok tt
each check (x ∷ xs) = check x >> each check xs

pub guard-eq-ok {ε} : {E : Type ε} (b : Bool) (e : E) {u : Unit {0}} → guard b e ≡ ok u → b ≡ true
guard-eq-ok true e h = refl
guard-eq-ok false e h = cc

pub ok_or-eq-ok {ε ℓ} :
    {E : Type ε} {A : Type ℓ} (o : Option A) (e : E) {a : A} → ok_or o e ≡ ok a → o ≡ some a
ok_or-eq-ok none e h = cc
ok_or-eq-ok (some a) e h = ground arith

pub map_err-eq-ok {ε κ ℓ} :
    {E : Type ε} {F : Type κ} {A : Type ℓ} (f : E → F) (r : Result E A) {a : A}
    → map_err f r ≡ ok a
    → r ≡ ok a
map_err-eq-ok f (ok a) h = ground (arith, h)
map_err-eq-ok f (err e) h = absurd (ground (arith, h))

-- A chain that succeeds went through a value, from which the rest of a proof goes on.
pub >>=-eq-ok {ε ℓ κ ρ} :
    {A : Type ℓ} {E : Type ε} {B : Type κ} {P : Type ρ} (r : Result E A) (f : A → Result E B)
    {b : B}
    → (r >>= f) ≡ ok b
    → ((a : A) → r ≡ ok a → f a ≡ ok b → P)
    → P
>>=-eq-ok (ok a) f h k = k a refl h
>>=-eq-ok (err e) f h k = absurd (ground (arith, h))
