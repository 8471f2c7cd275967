-- ===== src/Common/Segments.antt =====
-- Splitting a text at every occurrence of one character: `str::split`.
use Prim.Native.Nat.{ℕ}
use Prim.Native.Char.{Char, code}
use Prim.Native.String.{String, ◌∷◌ as str_cons}
use mathlib.Core.List.{List, [], ◌∷◌}
use ltsearch.Common.Tests.{◌==◌, if◌then◌else◌}

cons_head : Char → List String → List String
cons_head c [] = str_cons c "" ∷ []
cons_head c (x ∷ xs) = str_cons c x ∷ xs

unfoldable pub segments : ℕ → String → List String
unfolding cons_head
segments ch String.[] = "" ∷ []
segments ch (String.◌∷◌ c s) =
    let rest = segments ch s in if code c == ch then "" ∷ rest else cons_head c rest
