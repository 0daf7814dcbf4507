-- ===== src/Prelude/Decimal.antt =====
-- Decimal numbers: what `{}` prints, and what `str::parse` reads.
use Prim.Native.Nat.{ℕ, zero, suc, ◌+◌, ◌-◌, ◌*◌, ◌/◌, ◌%◌, ◌≤◌}
use mathlib.Core.Path.{◌≡◌, refl, ap, ◌∙◌}
use mathlib.Core.Logic.{◌≢◌, inl, inr}
use mathlib.Core.Bool.{true, false}
use mathlib.Core.Option.{Option, none, some}
use mathlib.Core.List.{[], ◌∷◌, ◌++◌}
use native.Mathlib.Omega.{arith}
use arapuca.Prelude.Tests.{ltb, leb, ◌==◌, if◌then◌else◌, Bool-cases, lt-cases}
use arapuca.Prelude.Lists.{All, All-append}
use arapuca.Prelude.Texts.{Str, is_ascii_digit}

-- The digits of a number, the last one split off until one is left.
unfoldable pub print_digits : ℕ → ℕ → Str
print_digits zero n = (b'0' + n % 10) ∷ []
print_digits (suc k) n = elim (ltb n 10) [
  | true ↦ (b'0' + n) ∷ []
  | false ↦ print_digits k (n / 10) ++ (b'0' + n % 10) ∷ []
]

-- `to_string` of an unsigned number. A number has at most as many digits as its value says.
unfoldable pub to_string : ℕ → Str
to_string n = print_digits n n

unfoldable pub read_digits : ℕ → Str → Option ℕ
read_digits n [] = some n
read_digits n (c ∷ s) = if is_ascii_digit c then read_digits (n * 10 + (c - b'0')) s else none

-- A number that does not fit is an error.
unfoldable pub fitting : ℕ → Option ℕ → Option ℕ
fitting max none = none
fitting max (some n) = if leb n max then some n else none

-- `parse` of an unsigned number up to `max`, which accepts a leading "+".
unfoldable pub parse_unsigned : ℕ → Str → Option ℕ
parse_unsigned max [] = none
parse_unsigned max (c ∷ []) = fitting max (read_digits 0 (c ∷ []))
parse_unsigned max (c ∷ d ∷ s) =
    if c == b'+'
    then fitting max (read_digits 0 (d ∷ s))
    else fitting max (read_digits 0 (c ∷ d ∷ s))

unfoldable pub IsDigit : ℕ → Type 0
IsDigit c = is_ascii_digit c ≡ true

add-IsDigit : (d : ℕ) → d ≤ 9 → IsDigit (b'0' + d)
unfolding IsDigit
add-IsDigit d h = ground arith

print_small : (k n : ℕ) → n ≤ 9 → print_digits (suc k) n ≡ (b'0' + n) ∷ []
unfolding print_digits
print_small k n h = let e : ltb n 10 ≡ true = ground arith in rw (e, print_digits) refl

print_large :
    (k n : ℕ) → 10 ≤ n → print_digits (suc k) n ≡ print_digits k (n / 10) ++ (b'0' + n % 10) ∷ []
unfolding print_digits
print_large k n h = let e : ltb n 10 ≡ false = ground arith in rw (e, print_digits) refl

print_digits-IsDigit : (k n : ℕ) → All IsDigit (print_digits k n)
unfolding print_digits
print_digits-IsDigit zero n = (add-IsDigit (n % 10) (omega arith), tt)
print_digits-IsDigit (suc k) n = elim (lt-cases n 10) [
  | inl h ↦ rw (print_small k n (omega arith)) (add-IsDigit n (omega arith), tt)
  | inr q ↦ rw (print_large k n q) (
      All-append IsDigit (print_digits k (n / 10)) ((b'0' + n % 10) ∷ [])
        (print_digits-IsDigit k (n / 10)) (add-IsDigit (n % 10) (omega arith), tt))
]

pub to_string-IsDigit : (n : ℕ) → All IsDigit (to_string n)
unfolding to_string
to_string-IsDigit n = print_digits-IsDigit n n

read_digits-append :
    (a : ℕ) (xs ys : Str) (n : ℕ)
    → read_digits a xs ≡ some n
    → read_digits a (xs ++ ys) ≡ read_digits n ys
unfolding read_digits
read_digits-append a [] ys n h = cc
read_digits-append a (c ∷ xs) ys n h = elim (Bool-cases (is_ascii_digit c)) [
  | inl e ↦ rw e (read_digits-append (a * 10 + (c - b'0')) xs ys n (rw e at h))
  | inr e ↦ absurd (cc (rw e at h))
]

read_digit : (a d : ℕ) → d ≤ 9 → read_digits a ((b'0' + d) ∷ []) ≡ some (a * 10 + d)
unfolding read_digits IsDigit
read_digit a d h = rw (add-IsDigit d h) (ap some (omega arith))

read_digits-print_digits : (k n : ℕ) → n ≤ k → read_digits 0 (print_digits k n) ≡ some n
unfolding print_digits
read_digits-print_digits zero n h = read_digit 0 (n % 10) (omega arith) ∙ ap some (omega arith)
read_digits-print_digits (suc k) n h = elim (lt-cases n 10) [
  | inl q ↦
      rw (print_small k n (omega arith)) (read_digit 0 n (omega arith) ∙ ap some (omega arith))
  | inr q ↦ rw (print_large k n q) (
      read_digits-append 0 (print_digits k (n / 10)) ((b'0' + n % 10) ∷ []) (n / 10)
        (read_digits-print_digits k (n / 10) (omega arith))
      ∙ read_digit (n / 10) (n % 10) (omega arith)
      ∙ ap some (omega arith))
]

pub read_digits-to_string : (n : ℕ) → read_digits 0 (to_string n) ≡ some n
unfolding to_string
read_digits-to_string n = read_digits-print_digits n n (omega arith)

print_digits-ne-nil : (k n : ℕ) → print_digits k n ≢ []
unfolding print_digits
print_digits-ne-nil zero n = cc
print_digits-ne-nil (suc k) n = elim (lt-cases n 10) [
  | inl q ↦ rw (print_small k n (omega arith)) cc
  | inr q ↦ rw (print_large k n q) (ends (print_digits k (n / 10)) (b'0' + n % 10))
]
  where
    ends : (xs : Str) (c : ℕ) → xs ++ c ∷ [] ≢ []
    ends [] c = cc
    ends (x ∷ xs) c = cc

-- A number is printed with a digit in front.
pub to_string-front : (n : ℕ) → (c : ℕ) × (s : Str) × IsDigit c × (to_string n ≡ c ∷ s)
unfolding to_string
to_string-front n =
    front (print_digits n n) refl (print_digits-IsDigit n n) (print_digits-ne-nil n n)
  where
    front :
        (xs : Str)
        → print_digits n n ≡ xs
        → All IsDigit xs
        → xs ≢ []
        → (c : ℕ) × (s : Str) × IsDigit c × (print_digits n n ≡ c ∷ s)
    front [] e h k = absurd (k refl)
    front (c ∷ s) e (h, _) k = (c, s, h, e)

pub digit-ne : (c d : ℕ) → IsDigit c → is_ascii_digit d ≡ false → c ≢ d
unfolding IsDigit
digit-ne c d h k e = cc

pub parse_unsigned-to_string : (max n : ℕ) → n ≤ max → parse_unsigned max (to_string n) ≡ some n
unfolding parse_unsigned fitting
parse_unsigned-to_string max n h =
    let (c, s, digit, e) = to_string-front n in
    rw e (shape s c (digit-ne c b'+' digit refl) (rw e at (read_digits-to_string n)))
  where
    fits : {o : Option ℕ} → o ≡ some n → fitting max o ≡ some n
    fits e = rw e (ground arith)

    shape :
        (s : Str) (c : ℕ)
        → c ≢ b'+'
        → read_digits 0 (c ∷ s) ≡ some n
        → parse_unsigned max (c ∷ s) ≡ some n
    shape [] c k e = fits e
    shape (d ∷ s) c k e = let other : (c == b'+') ≡ false = ground arith in rw other (fits e)
