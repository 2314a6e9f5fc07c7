-- ===== src/Prelude/Bytes.antt =====
-- Byte strings as lists of numbers, and encoding/binary's big-endian unsigned integers.
use Prim.Native.Nat.{ℕ, ◌+◌, ◌*◌, ◌/◌, ◌%◌, ◌≤◌, ◌<◌}
use mathlib.Core.Path.{◌≡◌, refl}
use mathlib.Core.List.{List, [], ◌∷◌, ◌++◌}
use native.Mathlib.Omega.{arith}
use sgate.Prelude.Lists.{length, get_or, drop}

abbrev pub Bytes : Type 0
Bytes = List ℕ

-- byte(n): the low eight bits.
abbrev pub byte : ℕ → ℕ
byte n = n % 256

-- PutUint32 of uint32(n), PutUint64 of uint64(n): each byte is a shift, cut to eight bits.
unfoldable pub put_uint32 : ℕ → Bytes
put_uint32 n = byte (n / 16777216) ∷ byte (n / 65536) ∷ byte (n / 256) ∷ byte n ∷ []

unfoldable pub put_uint64 : ℕ → Bytes
put_uint64 n =
    byte (n / 72057594037927936)
    ∷ byte (n / 281474976710656)
    ∷ byte (n / 1099511627776)
    ∷ byte (n / 4294967296)
    ∷ byte (n / 16777216)
    ∷ byte (n / 65536)
    ∷ byte (n / 256)
    ∷ byte n
    ∷ []

-- Uint32 of the first four bytes.
unfoldable pub uint32 : Bytes → ℕ
uint32 bs = get_or bs 0 0 * 16777216 + get_or bs 1 0 * 65536 + get_or bs 2 0 * 256 + get_or bs 3 0

pub uint32-put_uint32 : (n : ℕ) (rest : Bytes) → n < 4294967296 → uint32 (put_uint32 n ++ rest) ≡ n
unfolding uint32 put_uint32
uint32-put_uint32 n rest h = omega arith

pub length-put_uint32 : (n : ℕ) → length (put_uint32 n) ≡ 4
unfolding put_uint32
length-put_uint32 n = refl

pub uint64_bytes :
    (n : ℕ)
    → n < 18446744073709551616
    → byte (n / 72057594037927936) * 72057594037927936
        + byte (n / 281474976710656) * 281474976710656
        + byte (n / 1099511627776) * 1099511627776
        + byte (n / 4294967296) * 4294967296
        + byte (n / 16777216) * 16777216
        + byte (n / 65536) * 65536
        + byte (n / 256) * 256
        + byte n
      ≡ n
uint64_bytes n h = omega arith

pub drop-put_uint32 : (n : ℕ) (rest : Bytes) → drop 4 (put_uint32 n ++ rest) ≡ rest
unfolding put_uint32
drop-put_uint32 n rest = refl

pub length-put_uint32_append :
    (n : ℕ) (rest : Bytes) → length (put_uint32 n ++ rest) ≡ length rest + 4
unfolding put_uint32
length-put_uint32_append n rest = omega arith

pub uint32-append : (xs ys : Bytes) → 4 ≤ length xs → uint32 (xs ++ ys) ≡ uint32 xs
unfolding uint32
uint32-append [] ys h = elim h [ ]
uint32-append (a ∷ []) ys h = absurd (omega arith)
uint32-append (a ∷ b ∷ []) ys h = absurd (omega arith)
uint32-append (a ∷ b ∷ c ∷ []) ys h = absurd (omega arith)
uint32-append (a ∷ b ∷ c ∷ d ∷ xs) ys h = refl
