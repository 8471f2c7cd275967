-- ===== src/Common/Text.antt =====
-- Texts character by character: the calls of `str` that the program makes, and decimal numbers.
use Prim.Native.Nat.{ℕ, zero, suc, ◌+◌, ◌*◌, ◌/◌, ◌%◌, ◌-◌, ◌<◌}
use Prim.Native.Char.{Char, code}
use Prim.Native.String.{String, [], ◌∷◌}
use mathlib.Core.Path.{◌≡◌, refl, sym, ◌∙◌, ap}
use mathlib.Core.Bool.{Bool, true, false}
use mathlib.Core.Logic.{inl, inr}
use mathlib.Core.Option.{Option, none, some}
use native.Mathlib.Omega.{arith}
use ltsearch.Common.Tests.{ltb, ◌==◌, if◌then◌else◌, Bool-cases, ltb→lt}

-- `str::is_empty`
abbrev pub is_empty : String → Bool
is_empty [] = true
is_empty (c ∷ s) = false

-- `s.strip_prefix(p)`, the prefix first
unfoldable pub strip_prefix : String → String → Option String
strip_prefix [] s = some s
strip_prefix (c ∷ p) [] = none
strip_prefix (c ∷ p) (d ∷ s) =
    let rest = strip_prefix p s in if code c == code d then rest else none

abbrev is_some : Option String → Bool
is_some none = false
is_some (some s) = true

cons_first : Char → Option (String × String) → Option (String × String)
cons_first c none = none
cons_first c (some (a, b)) = some (c ∷ a, b)

-- `s.split_once(ch)`, for the character with the given code
unfoldable pub split_once : ℕ → String → Option (String × String)
unfolding cons_first
split_once ch [] = none
split_once ch (c ∷ s) =
    let rest = cons_first c (split_once ch s) in if code c == ch then some ([], s) else rest

-- `s.contains(ch)`
unfoldable pub contains_char : ℕ → String → Bool
contains_char ch [] = false
contains_char ch (c ∷ s) = if code c == ch then true else contains_char ch s

-- `s.contains(pattern)`
unfoldable pub contains_text : String → String → Bool
unfolding strip_prefix
contains_text pattern [] = is_some (strip_prefix pattern [])
contains_text pattern (c ∷ s) =
    let later = contains_text pattern s in
    if is_some (strip_prefix pattern (c ∷ s)) then true else later

-- The bytes of a character in UTF-8.
abbrev utf8_width : ℕ → ℕ
utf8_width n = if ltb n 128 then 1 else if ltb n 2_048 then 2 else if ltb n 65_536 then 3 else 4

-- `s.len()`
unfoldable pub byte_len : String → ℕ
byte_len [] = 0
byte_len (c ∷ s) = utf8_width (code c) + byte_len s

-- `char::from_digit`
abbrev pub digit : ℕ → Char
digit zero = "0"
digit (suc zero) = "1"
digit (suc (suc zero)) = "2"
digit (suc (suc (suc zero))) = "3"
digit (suc (suc (suc (suc zero)))) = "4"
digit (suc (suc (suc (suc (suc zero))))) = "5"
digit (suc (suc (suc (suc (suc (suc zero)))))) = "6"
digit (suc (suc (suc (suc (suc (suc (suc zero))))))) = "7"
digit (suc (suc (suc (suc (suc (suc (suc (suc zero)))))))) = "8"
digit n = "9"

-- The digits of a number before a text, with fuel.
unfoldable pub decimal_before : ℕ → ℕ → String → String
decimal_before zero n acc = acc
decimal_before (suc fuel) n acc =
    let more = decimal_before fuel (n / 10) (digit (n % 10) ∷ acc) in
    if ltb n 10 then digit n ∷ acc else more

-- `format!("{n}")`
unfoldable pub decimal : ℕ → String
unfolding decimal_before
decimal n = decimal_before (suc n) n ""

-- The number that a text of digits stands for, after the digits of `a`.
read_after : ℕ → String → ℕ
read_after a [] = a
read_after a (c ∷ s) = read_after (a * 10 + (code c - 48)) s

code-digit : (n : ℕ) → n < 10 → code (digit n) - 48 ≡ n
code-digit zero h = refl
code-digit (suc zero) h = refl
code-digit (suc (suc zero)) h = refl
code-digit (suc (suc (suc zero))) h = refl
code-digit (suc (suc (suc (suc zero)))) h = refl
code-digit (suc (suc (suc (suc (suc zero))))) h = refl
code-digit (suc (suc (suc (suc (suc (suc zero)))))) h = refl
code-digit (suc (suc (suc (suc (suc (suc (suc zero))))))) h = refl
code-digit (suc (suc (suc (suc (suc (suc (suc (suc zero)))))))) h = refl
code-digit (suc (suc (suc (suc (suc (suc (suc (suc (suc zero))))))))) h = refl
code-digit (suc (suc (suc (suc (suc (suc (suc (suc (suc (suc n)))))))))) h = absurd (omega arith)

read-decimal_before :
    (fuel n : ℕ) (acc : String)
    → n < fuel
    → read_after 0 (decimal_before fuel n acc) ≡ read_after n acc
unfolding read_after decimal_before
read-decimal_before zero n acc h = elim h [ ]
read-decimal_before (suc fuel) n acc h = elim (Bool-cases (ltb n 10)) [
  | inl small ↦
      rw small (ap (λ k. read_after k acc) (omega (arith, code-digit n (ltb→lt n 10 small))))
  | inr big ↦ rw big (
      read-decimal_before fuel (n / 10) (digit (n % 10) ∷ acc) (ground arith)
      ∙ ap (λ k. read_after k acc) (omega (arith, code-digit (n % 10) (omega arith))))
]

-- Different numbers are printed differently.
pub decimal-injective : (m n : ℕ) → decimal m ≡ decimal n → m ≡ n
unfolding decimal read_after
decimal-injective m n e =
    sym (read-decimal_before (suc m) m "" (omega arith))
    ∙ ap (read_after 0) e
    ∙ read-decimal_before (suc n) n "" (omega arith)

unfoldable zeros_before : ℕ → String → String
zeros_before zero s = s
zeros_before (suc n) s = "0" ∷ zeros_before n s

unfoldable char_count : String → ℕ
char_count [] = 0
char_count (c ∷ s) = suc (char_count s)

-- `format!("{n:0width$}")`
unfoldable pub padded : ℕ → ℕ → String
unfolding decimal zeros_before char_count
padded width n = zeros_before (width - char_count (decimal n)) (decimal n)

read-zeros_before : (k : ℕ) (s : String) → read_after 0 (zeros_before k s) ≡ read_after 0 s
unfolding read_after zeros_before
read-zeros_before zero s = refl
read-zeros_before (suc k) s = read-zeros_before k s

read-decimal : (n : ℕ) → read_after 0 (decimal n) ≡ n
unfolding decimal read_after
read-decimal n = read-decimal_before (suc n) n "" (omega arith)

-- Different numbers are printed differently, whatever the width.
pub padded-injective : (width m n : ℕ) → padded width m ≡ padded width n → m ≡ n
unfolding padded
padded-injective width m n e =
    sym (read-decimal m)
    ∙ sym (read-zeros_before (width - char_count (decimal m)) (decimal m))
    ∙ ap (read_after 0) e
    ∙ read-zeros_before (width - char_count (decimal n)) (decimal n)
    ∙ read-decimal n
