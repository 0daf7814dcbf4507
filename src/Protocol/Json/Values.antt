-- ===== src/Protocol/Json/Values.antt =====
-- The numbers and the Booleans that the parser of src/vm/protocol.rs reads, and the values that it
-- skips. A skipped value may hold others, so that the code calls itself; the calls are counted.
pub mod Shrinks
pub mod Enough
use Prim.Native.String.{String}
use mathlib.Core.List.{tail}
use arapuca.Prelude.{
  ℕ, zero, suc, ◌+◌, ◌-◌, ◌*◌, ◌^◌, List, [], ◌∷◌, ◌++◌, Bool, true, false, ◌&&◌, ◌||◌, Option,
  none, some, Result, ok, err, ◌>>=◌, ◌>>◌, leb, ◌==◌, if◌then◌else◌, Str, codes, is_ascii_digit,
  length, strip_prefix,
}
use arapuca.Prelude.Decimal.{read_digits, fitting}
use arapuca.Protocol.Io.{invalid_data}
use arapuca.Protocol.Json.{
  Failure, error, out_of_rounds, skip_ws, expect_byte, parse_string, at_bracket,
}

-- The digits in front, and what is left.
unfoldable pub span_digits : Str → Str × Str
span_digits [] = ([], [])
span_digits (c ∷ s) =
    let (digits, rest) = span_digits s in
    if is_ascii_digit c then (c ∷ digits, rest) else ([], c ∷ s)

unfoldable pub number_in : ℕ → String → Str → Str → Result Failure (ℕ × Str)
number_in max too_large [] rest = err (error invalid_data "expected number")
number_in max too_large (c ∷ digits) rest = elim (fitting max (read_digits 0 (c ∷ digits))) [
  | none ↦ err (error invalid_data too_large)
  | some n ↦ ok (n, rest)
]

abbrev pub max_u64 : ℕ
max_u64 = 2 ^ 64 - 1

unfoldable pub parse_u64 : Str → Result Failure (ℕ × Str)
parse_u64 s = let (digits, rest) = span_digits s in number_in max_u64 "invalid number" digits rest

-- `u16::try_from`.
unfoldable pub narrowed : ℕ × Str → Result Failure (ℕ × Str)
narrowed (n, rest) =
    if leb n (2 ^ 16 - 1) then ok (n, rest) else err (error invalid_data "number exceeds u16 range")

unfoldable pub parse_u16 : Str → Result Failure (ℕ × Str)
parse_u16 s = do v ← parse_u64 s; narrowed v

unfoldable pub bool_of : Option Str → Option Str → Result Failure (Bool × Str)
bool_of (some rest) other = ok (true, rest)
bool_of none (some rest) = ok (false, rest)
bool_of none none = err (error invalid_data "expected boolean")

unfoldable pub parse_bool : Str → Result Failure (Bool × Str)
parse_bool s = bool_of (strip_prefix (codes "true") s) (strip_prefix (codes "false") s)

-- What is left behind a value that is read and dropped.
abbrev pub behind {ℓ} : {A : Type ℓ} → Result Failure (A × Str) → Result Failure Str
behind (err e) = err e
behind (ok (a, rest)) = ok rest

-- Where the parser goes on behind an element of an array or an object.
pub data Next : Type 0 where
  more closed : Str → Next
  neither : Next

unfoldable pub next_of : ℕ → Str → Next
next_of close [] = neither
next_of close (c ∷ s) = if c == b',' then more s else if c == close then closed s else neither

unfoldable pub null_of : Option Str → Result Failure Str
null_of none = err (error invalid_data "expected value")
null_of (some rest) = ok rest

-- A value with no others inside it.
unfoldable pub skip_scalar : Str → Result Failure Str
skip_scalar [] = err (error invalid_data "expected value")
skip_scalar (c ∷ s) =
    if c == b'"'
    then behind (parse_string (c ∷ s))
    else if c == b't' || c == b'f'
    then behind (parse_bool (c ∷ s))
    else if is_ascii_digit c
    then behind (parse_u64 (c ∷ s))
    else null_of (strip_prefix (codes "null") (c ∷ s))

-- What a value begins with.
pub data Opening : Type 0 where
  array object : Str → Opening
  scalar : Opening

unfoldable pub opening : Str → Opening
opening [] = scalar
opening (c ∷ s) =
    if c == b'[' then array (skip_ws s) else if c == b'{' then object (skip_ws s) else scalar

-- Whether the next character closes the array or the object, and what is behind it.
unfoldable pub closes : ℕ → Str → Option Str
closes close [] = none
closes close (c ∷ s) = if c == close then some s else none

-- `"key" :` in front of a value of an object.
unfoldable pub skip_key : Str → Result Failure Str
skip_key s = do
  (key, rest) ← parse_string (skip_ws s)
  rest' ← expect_byte b':' (skip_ws rest)
  ok (skip_ws rest')

-- What `skip_value` is at: a value, or the loop over the elements of an array or the fields of an
-- object.
pub data Task : Type 0 where
  value items fields : Task

-- The rounds that are left, of whatever task.
abbrev pub Rest : Type 0
Rest = Task → Str → Result Failure Str

-- The loop over the elements or fields, if there is a first one.
unfoldable pub unless_closed : Rest → Task → Str → Option Str → Result Failure Str
unless_closed run loop inner (some rest) = ok rest
unless_closed run loop inner none = run loop inner

unfoldable pub skip_opened : Rest → Str → Opening → Result Failure Str
skip_opened run s scalar = skip_scalar s
skip_opened run s (array inner) = unless_closed run items inner (closes b']' inner)
skip_opened run s (object inner) = unless_closed run fields inner (closes b'}' inner)

unfoldable pub go_on : Rest → Task → String → Next → Result Failure Str
go_on run loop msg (more s) = run loop s
go_on run loop msg (closed s) = ok s
go_on run loop msg neither = err (error invalid_data msg)

unfoldable pub skip_step : Rest → Task → Str → Result Failure Str
skip_step run value s = skip_opened run s (opening s)
skip_step run items s = do
  rest ← run value (skip_ws s)
  go_on run items "expected ',' or ']'" (next_of b']' (skip_ws rest))
skip_step run fields s = do
  inner ← skip_key s
  rest ← run value inner
  go_on run fields "expected ',' or '}'" (next_of b'}' (skip_ws rest))

unfoldable pub skip : ℕ → Rest
skip zero task s = err out_of_rounds
skip (suc k) task s = skip_step (λ t r. skip k t r) task s

-- Two rounds for each character.
unfoldable pub skip_value : Str → Result Failure Str
skip_value s = skip (2 * length s + 2) value s
