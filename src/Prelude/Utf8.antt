-- ===== src/Prelude/Utf8.antt =====
-- The width of characters in UTF-8, and cutting a text at a byte position.
pub mod Coding
use arapuca.Prelude.Tests.{ltb, leb, if◌then◌else◌}
use arapuca.Prelude.Texts.{Str}
use native.Mathlib.Omega.{arith}
use mathlib.Core.Bool.{true}
use mathlib.Core.Path.{◌≡◌, refl}
use mathlib.Core.List.{[], ◌∷◌}
use mathlib.Core.Option
use mathlib.Core.Option.{Option, none, some}
use Prim.Native.Nat.{ℕ, zero, suc, ◌+◌, ◌-◌}

-- `char::len_utf8`.
unfoldable pub char_len : ℕ → ℕ
char_len c = if ltb c 0x80 then 1 else if ltb c 0x800 then 2 else if ltb c 0x1_0000 then 3 else 4

-- `str::len`: the number of bytes.
abbrev pub str_len : Str → ℕ
str_len [] = 0
str_len (c ∷ s) = char_len c + str_len s

-- The first `n` bytes, if a character ends there: otherwise the slice panics.
unfoldable pub take_bytes : ℕ → Str → Option Str
take_bytes zero s = some []
take_bytes (suc n) [] = none
take_bytes (suc n) (c ∷ s) =
    if leb (char_len c) (suc n)
    then Option.map (λ t. c ∷ t) (take_bytes (suc n - char_len c) s)
    else none

one_fits : (n : ℕ) → leb 1 (suc n) ≡ true
one_fits n = ground arith

suc-1 : (n : ℕ) → suc n - 1 ≡ n
suc-1 n = omega arith

-- A character of one byte.
pub take_bytes-ascii :
    (n c : ℕ) (s : Str)
    → char_len c ≡ 1
    → take_bytes (suc n) (c ∷ s) ≡ Option.map (λ t. c ∷ t) (take_bytes n s)
unfolding take_bytes
take_bytes-ascii n c s e = rw (e, one_fits n, suc-1 n) refl
