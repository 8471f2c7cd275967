-- ===== src/Common/Words.antt =====
-- Machine words as bytes: `to_le_bytes`, `from_le_bytes`, slices of a buffer, `copy_from_slice`.
use Prim.Native.Nat.{ℕ, zero, suc, ◌+◌, ◌-◌, ◌*◌, ◌/◌, ◌%◌, ◌^◌, ◌≤◌, ◌<◌}
use mathlib.Core.Path.{◌≡◌, refl, ap, sym, ◌∙◌}
use mathlib.Core.Bool.{Bool, true, false, ◌&&◌}
use mathlib.Core.Option.{Option, none, some}
use mathlib.Core.List.{List, [], ◌∷◌, ◌++◌}
use native.Mathlib.Nat.{div-add-mod}
use native.Mathlib.Omega.{arith}
use ltsearch.Common.Tests.{◌==◌, ltb, leb, if◌then◌else◌}
use ltsearch.Common.Lists.{length, take, All, All-take, length-take}

abbrev pub u32_end : ℕ
u32_end = 4_294_967_296

abbrev pub u64_end : ℕ
u64_end = 18_446_744_073_709_551_616

-- `value.to_le_bytes()` for a word of the given number of bytes
abbrev pub le_bytes : ℕ → ℕ → List ℕ
le_bytes zero v = []
le_bytes (suc n) v = v % 256 ∷ le_bytes n (v / 256)

-- `from_le_bytes`
abbrev pub from_le : List ℕ → ℕ
from_le [] = 0
from_le (b ∷ bs) = b + 256 * from_le bs

abbrev pub drop {ℓ} : {A : Type ℓ} → ℕ → List A → List A
drop zero xs = xs
drop (suc n) [] = []
drop (suc n) (x ∷ xs) = drop n xs

-- `&buf[start..end]`, in range
abbrev pub slice {ℓ} : {A : Type ℓ} → ℕ → ℕ → List A → List A
slice start end buf = take (end - start) (drop start buf)

-- `&buf[start..end]`; `None` is the panic on a range that is not within the buffer.
abbrev pub checked_slice {ℓ} : {A : Type ℓ} → ℕ → ℕ → List A → Option (List A)
checked_slice start end buf =
    if leb start end && leb end (length buf) then some (slice start end buf) else none

-- `buf[start..].copy_from_slice(bytes)`, in range
abbrev pub write_at {ℓ} : {A : Type ℓ} → ℕ → List A → List A → List A
write_at start bytes buf = take start buf ++ bytes ++ drop (start + length bytes) buf

-- `vec![0u8; n]`
abbrev pub zeros : ℕ → List ℕ
zeros zero = []
zeros (suc n) = 0 ∷ zeros n

abbrev pub same_bytes : List ℕ → List ℕ → Bool
same_bytes [] [] = true
same_bytes (a ∷ as') (b ∷ bs) = (a == b) && same_bytes as' bs
same_bytes _ _ = false

-- `checked_mul` and `checked_add` on `u64`
abbrev pub checked : ℕ → Option ℕ
checked n = if ltb n u64_end then some n else none

-- Every member is a byte.
abbrev pub IsBytes : List ℕ → Type 0
IsBytes bs = All (λ b. b < 256) bs

next_sum : (m n : ℕ) → suc m + n ≡ suc (m + n)
next_sum m n = omega arith

drop-nil {ℓ} : {A : Type ℓ} (n : ℕ) → drop {A = A} n [] ≡ []
drop-nil zero = refl
drop-nil (suc n) = refl

power_step : (n : ℕ) → 256 ^ suc n ≡ 256 * 256 ^ n
power_step n = omega arith

-- A word is read back from its bytes.
pub from_le-le_bytes : (n v : ℕ) → v < 256 ^ n → from_le (le_bytes n v) ≡ v
from_le-le_bytes zero v h = omega arith
from_le-le_bytes (suc n) v h = omega (
  arith,
  power_step n,
  div-add-mod v 256,
  from_le-le_bytes n (v / 256) (omega (arith, power_step n)),
)

pub length-le_bytes : (n v : ℕ) → length (le_bytes n v) ≡ n
length-le_bytes zero v = refl
length-le_bytes (suc n) v = ap suc (length-le_bytes n (v / 256))

pub le_bytes-IsBytes : (n v : ℕ) → IsBytes (le_bytes n v)
le_bytes-IsBytes zero v = tt
le_bytes-IsBytes (suc n) v = (omega arith, le_bytes-IsBytes n (v / 256))

-- Bytes stand for a number of that many bytes.
pub from_le-lt : (bs : List ℕ) → IsBytes bs → from_le bs < 256 ^ length bs
from_le-lt [] h = omega arith
from_le-lt (b ∷ bs) h = omega (arith, h.0, power_step (length bs), from_le-lt bs h.1)

-- The bytes of the number that bytes stand for.
pub le_bytes-from_le : (bs : List ℕ) → IsBytes bs → le_bytes (length bs) (from_le bs) ≡ bs
le_bytes-from_le [] h = refl
le_bytes-from_le (b ∷ bs) h = ground (arith, h.0, le_bytes-from_le bs h.1, low, high)
  where
    low : (b + 256 * from_le bs) % 256 ≡ b
    low = omega (arith, h.0)

    high : (b + 256 * from_le bs) / 256 ≡ from_le bs
    high = omega (arith, h.0)

module _ {ℓ} {A : Type ℓ} where
  -- The front of a list in two parts is the first part.
  pub take-append : (n : ℕ) (xs ys : List A) → length xs ≡ n → take n (xs ++ ys) ≡ xs
  take-append zero [] ys h = refl
  take-append zero (x ∷ xs) ys h = absurd (omega (arith, h))
  take-append (suc n) [] ys h = absurd (omega (arith, h))
  take-append (suc n) (x ∷ xs) ys h = ap (λ t. x ∷ t) (take-append n xs ys (omega (arith, h)))

  pub All-drop {κ} : (P : A → Type κ) (n : ℕ) (xs : List A) → All P xs → All P (drop n xs)
  All-drop P zero xs h = h
  All-drop P (suc n) [] h = tt
  All-drop P (suc n) (x ∷ xs) h = All-drop P n xs h.1

  pub length-drop : (n : ℕ) (xs : List A) → length (drop n xs) ≡ length xs - n
  length-drop zero xs = omega arith
  length-drop (suc n) [] = omega arith
  length-drop (suc n) (x ∷ xs) = omega (arith, length-drop n xs)

-- A slice that lies within the buffer has the length of its range.
pub length-slice :
    (start end : ℕ) (buf : List ℕ) → end ≤ length buf → length (slice start end buf) ≡ end - start
length-slice start end buf h =
    omega (arith, length-take (end - start) (drop start buf), length-drop start buf)

pub slice-IsBytes : (start end : ℕ) (buf : List ℕ) → IsBytes buf → IsBytes (slice start end buf)
slice-IsBytes start end buf h =
    All-take (λ b. b < 256) (end - start) (drop start buf) (All-drop (λ b. b < 256) start buf h)

module _ {ℓ} {A : Type ℓ} where
  -- What follows the first part of a list in two parts.
  pub drop-append : (n : ℕ) (xs ys : List A) → length xs ≡ n → drop n (xs ++ ys) ≡ ys
  drop-append zero [] ys h = refl
  drop-append zero (x ∷ xs) ys h = absurd (omega (arith, h))
  drop-append (suc n) [] ys h = absurd (omega (arith, h))
  drop-append (suc n) (x ∷ xs) ys h = drop-append n xs ys (omega (arith, h))

  pub drop-drop : (m n : ℕ) (xs : List A) → drop (m + n) xs ≡ drop n (drop m xs)
  drop-drop zero n xs = ap (λ k. drop k xs) (omega arith)
  drop-drop (suc m) n [] = drop-nil (suc m + n) ∙ sym (drop-nil n)
  drop-drop (suc m) n (x ∷ xs) = ap (λ k. drop k (x ∷ xs)) (next_sum m n) ∙ drop-drop m n xs

module _ {A : Type 0} where
  -- A range that lies within the buffer is no panic.
  pub checked_slice-eq :
      (start end : ℕ) (buf : List A)
      → start ≤ end
      → end ≤ length buf
      → checked_slice start end buf ≡ some (slice start end buf)
  checked_slice-eq start end buf h fits = ground arith

  pub checked_slice-chunk :
      (start size : ℕ) (buf : List A)
      → start + size ≤ length buf
      → checked_slice start (start + size) buf ≡ some (take size (drop start buf))
  checked_slice-chunk start size buf fits =
      checked_slice-eq start (start + size) buf (omega arith) fits
      ∙ ap (λ n. some (take n (drop start buf))) (omega arith)
