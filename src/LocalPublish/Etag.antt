-- ===== src/LocalPublish/Etag.antt =====
-- `etag_of` of src/local/fs_publish.rs: the FNV-1a hash of 64 bits, in hexadecimal.
use Prim.Native.Char.{Char}
use Prim.Native.String.{◌∷◌ as str_cons}
use ltsearch.Common.{
  ℕ, zero, suc, ◌+◌, ◌-◌, ◌*◌, ◌/◌, ◌%◌, ◌^◌, String, [], ◌∷◌, ◌≡◌, refl, ltb, if◌then◌else◌,
}
use ltsearch.Common.Text.{digit}
use ltsearch.Sqlite.{Bytes}

-- Exclusive or of the lowest `width` bits.
pub xor : ℕ → ℕ → ℕ → ℕ
xor zero a b = 0
xor (suc width) a b = (a + b) % 2 + 2 * xor width (a / 2) (b / 2)

abbrev offset_basis : ℕ
offset_basis = 14_695_981_039_346_656_037

abbrev prime : ℕ
prime = 1_099_511_628_211

pub fnv : ℕ → Bytes → ℕ
unfolding xor
fnv hash [] = hash
fnv hash (byte ∷ bytes) = fnv (xor 64 hash byte * prime % 2 ^ 64) bytes

-- The digits from ten on.
abbrev letter : ℕ → Char
letter zero = "a"
letter (suc zero) = "b"
letter (suc (suc zero)) = "c"
letter (suc (suc (suc zero))) = "d"
letter (suc (suc (suc (suc zero)))) = "e"
letter n = "f"

abbrev hex_digit : ℕ → Char
hex_digit n = if ltb n 10 then digit n else letter (n - 10)

-- `{:016x}` on a number below 2^64: `width` digits, the last one first.
pub hex_before : ℕ → ℕ → String → String
hex_before zero n acc = acc
hex_before (suc width) n acc = hex_before width (n / 16) (str_cons (hex_digit (n % 16)) acc)

unfoldable pub etag_of : Bytes → String
unfolding fnv hex_before
etag_of bytes = hex_before 16 (fnv offset_basis bytes) ""

-- The published vectors of FNV-1a.
etag_of-nothing : etag_of [] ≡ "cbf29ce484222325"
unfolding etag_of
etag_of-nothing = refl

etag_of-a : etag_of (97 ∷ []) ≡ "af63dc4c8601ec8c"
unfolding etag_of
etag_of-a = refl
