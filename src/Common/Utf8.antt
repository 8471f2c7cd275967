-- ===== src/Common/Utf8.antt =====
-- Texts as bytes: UTF-8.
use Prim.Native.Nat.{ℕ, ◌+◌, ◌/◌, ◌%◌}
use Prim.Native.Char.{code}
use Prim.Native.String as Text
use Prim.Native.String.{String}
use mathlib.Core.Path.{◌≡◌, refl, ap, sym, ◌∙◌}
use mathlib.Core.List.{List, [], ◌∷◌}
use native.Mathlib.Omega.{arith}
use text.Mathlib.TextEquality.{Char-path}
use ltsearch.Common.Tests.{ltb, if◌then◌else◌}

-- The bytes of a character before others.
unfoldable pub char_bytes : ℕ → List ℕ → List ℕ
char_bytes n rest =
    if ltb n 128
    then n ∷ rest
    else if ltb n 2_048
    then (192 + n / 64) ∷ (128 + n % 64) ∷ rest
    else if ltb n 65_536
    then (224 + n / 4_096) ∷ (128 + (n / 64) % 64) ∷ (128 + n % 64) ∷ rest
    else (240 + n / 262_144)
      ∷ (128 + (n / 4_096) % 64)
      ∷ (128 + (n / 64) % 64)
      ∷ (128 + n % 64)
      ∷ rest

-- `s.as_bytes()`
unfoldable pub as_bytes : String → List ℕ
unfolding char_bytes
as_bytes Text.[] = []
as_bytes (Text.◌∷◌ c s) = char_bytes (code c) (as_bytes s)

char_bytes-injective :
    (m n : ℕ) (s t : List ℕ) → char_bytes m s ≡ char_bytes n t → (m ≡ n) × (s ≡ t)
unfolding char_bytes
char_bytes-injective m n s t e = ground (arith, e)

char_bytes-some : (n : ℕ) (s : List ℕ) → ¬ (char_bytes n s ≡ [])
unfolding char_bytes
char_bytes-some n s e = ground (arith, e)

-- Different texts have different bytes.
pub as_bytes-injective : (s t : String) → as_bytes s ≡ as_bytes t → s ≡ t
unfolding as_bytes
as_bytes-injective Text.[] Text.[] e = refl
as_bytes-injective Text.[] (Text.◌∷◌ d t) e = absurd (char_bytes-some (code d) (as_bytes t) (sym e))
as_bytes-injective (Text.◌∷◌ c s) Text.[] e = absurd (char_bytes-some (code c) (as_bytes s) e)
as_bytes-injective (Text.◌∷◌ c s) (Text.◌∷◌ d t) e =
    let (same, rest) = char_bytes-injective (code c) (code d) (as_bytes s) (as_bytes t) e in
    ap (λ b. Text.◌∷◌ b s) (Char-path c d same)
    ∙ ap (λ u. Text.◌∷◌ d u) (as_bytes-injective s t rest)
