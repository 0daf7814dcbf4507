-- ===== src/Prelude/Signed.antt =====
-- Signed numbers: what `{}` prints of an `i32`, and what `str::parse` reads.
use Prim.Native.Nat.{ℕ, zero, suc, ◌-◌, ◌^◌, ◌≤◌, ◌<◌}
use mathlib.Core.Path.{◌≡◌, refl}
use mathlib.Core.Logic.{◌≢◌}
use mathlib.Core.Bool.{true, false}
use mathlib.Core.Option.{Option, none, some}
use mathlib.Core.List.{[], ◌∷◌}
use native.Mathlib.Omega.{arith}
use arapuca.Prelude.Tests.{◌==◌, leb, if◌then◌else◌}
use arapuca.Prelude.Texts.{Str}
use arapuca.Prelude.Decimal.{
  to_string, read_digits, fitting, parse_unsigned, parse_unsigned-to_string, to_string-front,
  read_digits-to_string, digit-ne,
}

-- A whole number: `n`, or minus `n + 1`.
pub data ℤ : Type 0 where
  pos negsuc : ℕ → ℤ

unfoldable pub print_signed : ℤ → Str
print_signed (pos n) = to_string n
print_signed (negsuc n) = b'-' ∷ to_string (suc n)

unfoldable pub negated : Option ℕ → Option ℤ
negated none = none
negated (some zero) = some (pos 0)
negated (some (suc n)) = some (negsuc n)

unfoldable pub counted : Option ℕ → Option ℤ
counted none = none
counted (some n) = some (pos n)

-- What stands behind a minus sign.
unfoldable pub magnitude : ℕ → Str → Option ℕ
magnitude max [] = none
magnitude max (c ∷ s) = fitting max (read_digits 0 (c ∷ s))

unfoldable pub parse_i32 : Str → Option ℤ
parse_i32 [] = none
parse_i32 (c ∷ s) =
    if c == b'-'
    then negated (magnitude (2 ^ 31) s)
    else counted (parse_unsigned (2 ^ 31 - 1) (c ∷ s))

abbrev pub IsI32 : ℤ → Type 0
IsI32 (pos n) = n < 2 ^ 31
IsI32 (negsuc n) = suc n ≤ 2 ^ 31

magnitude-to_string : (max n : ℕ) → n ≤ max → magnitude max (to_string n) ≡ some n
unfolding magnitude fitting
magnitude-to_string max n h =
    let (c, s, digit, e) = to_string-front n in
    let low : leb n max ≡ true = ground arith in
    rw e (rw (rw e at (read_digits-to_string n)) (rw low refl))

pub parse_i32-print_signed : (n : ℤ) → IsI32 n → parse_i32 (print_signed n) ≡ some n
unfolding parse_i32 print_signed negated counted
parse_i32-print_signed (negsuc n) h = rw (magnitude-to_string (2 ^ 31) (suc n) h) refl
parse_i32-print_signed (pos n) h =
    let (c, s, digit, e) = to_string-front n in
    let other : (c == b'-') ≡ false = ne_test c b'-' (digit-ne c b'-' digit refl) in
    rw e (rw other (rw (rw e at (parse_unsigned-to_string (2 ^ 31 - 1) n (omega arith))) refl))
  where
    ne_test : (a b : ℕ) → a ≢ b → (a == b) ≡ false
    ne_test a b k = ground arith
