-- ===== src/Protocol/Json/Values/Enough.antt =====
-- The values that the parser of src/vm/protocol.rs skips: the rounds that the model counts are enough.
use arapuca.Prelude.{
  ℕ, zero, suc, ◌+◌, ◌*◌, ◌≤◌, ◌<◌, ◌≡◌, refl, [], ◌∷◌, Bool, true, false, Option, none, some,
  Result, ok, err, ◌>>=◌, ◌==◌, ◌||◌, if◌then◌else◌, Str, codes, length, Bool-cases, Option-cases,
  inl, inr, arith, is_ascii_digit, strip_prefix,
}
use Prim.Native.String.{String}
use arapuca.Prelude.Decimal.{read_digits, fitting}
use arapuca.Protocol.Json.{
  Failure, skip_ws, expect_byte, parse_string, parse_chars, is_ascii_whitespace, text,
}
use arapuca.Protocol.Json.Values.{
  span_digits, number_in, parse_u64, bool_of, parse_bool, behind, next_of, Next, more, closed,
  neither, null_of, skip_scalar, Opening, array, object, scalar, opening, closes, skip_key, Task,
  value, items, fields, Rest, unless_closed, skip_opened, go_on, skip_step, skip, skip_value,
  max_u64,
}
use arapuca.Protocol.Json.Values.Shrinks.{Leaves, parse_chars-Leaves}

pub Leaves-le : (m n : ℕ) (r : Result Failure Str) → m ≤ n → Leaves m r → Leaves n r
Leaves-le m n (ok rest) h k = omega arith
Leaves-le m n (err e) h k = k

pub Leaves->>= :
    (n m : ℕ) (r : Result Failure Str) (f : Str → Result Failure Str)
    → Leaves n r
    → ((rest : Str) → length rest < n → Leaves m (f rest))
    → Leaves m (r >>= f)
Leaves->>= n m (ok rest) f h k = k rest h
Leaves->>= n m (err e) f h k = h

pub skip_ws-length : (s : Str) → length (skip_ws s) ≤ length s
unfolding skip_ws
skip_ws-length [] = omega arith
skip_ws-length (c ∷ s) = elim (Bool-cases (is_ascii_whitespace c)) [
  | inl e ↦ rw e (omega (arith, skip_ws-length s))
  | inr e ↦ rw e (omega arith)
]

pub expect_byte-Leaves : (b : ℕ) (s : Str) → Leaves (length s) (expect_byte b s)
unfolding expect_byte
expect_byte-Leaves b [] = cc
expect_byte-Leaves b (c ∷ s) = elim (Bool-cases (c == b)) [
  | inl e ↦ rw (e, Leaves) (omega arith)
  | inr e ↦ rw (e, Leaves) cc
]

pub parse_string-Leaves : (s : Str) → Leaves (length s) (behind (parse_string s))
unfolding parse_string
parse_string-Leaves s = opened (expect_byte b'"' s) (expect_byte-Leaves b'"' s)
  where
    opened :
        (r : Result Failure Str)
        → Leaves (length s) r
        → Leaves (length s) (behind (r >>= λ rest. parse_chars text [] rest))
    opened (ok rest) h =
        Leaves-le (length rest) (length s) (behind (parse_chars text [] rest)) (omega arith)
          (parse_chars-Leaves text [] rest)
    opened (err e) h = h

span_digits-length : (s : Str) → length (span_digits s).0 + length (span_digits s).1 ≡ length s
unfolding span_digits
span_digits-length [] = refl
span_digits-length (c ∷ s) = elim (Bool-cases (is_ascii_digit c)) [
  | inl e ↦ rw e (omega (arith, span_digits-length s))
  | inr e ↦ rw e (omega arith)
]

number_in-Leaves :
    (max : ℕ) (msg : String) (digits rest : Str)
    → Leaves (length digits + length rest) (behind (number_in max msg digits rest))
unfolding number_in
number_in-Leaves max msg [] rest = cc
number_in-Leaves max msg (c ∷ digits) rest =
    elim (Option-cases (fitting max (read_digits 0 (c ∷ digits)))) [
      | inl e ↦ rw (e, number_in) cc
      | inr (n, e) ↦ rw (e, number_in) (omega arith)
    ]

pub parse_u64-Leaves : (s : Str) → Leaves (length s) (behind (parse_u64 s))
unfolding parse_u64
parse_u64-Leaves s =
    Leaves-le (length (span_digits s).0 + length (span_digits s).1) (length s) _
      (omega (arith, span_digits-length s))
      (number_in-Leaves max_u64 "invalid number" (span_digits s).0 (span_digits s).1)

strip_prefix-length :
    (p s rest : Str) → strip_prefix p s ≡ some rest → length s ≡ length p + length rest
strip_prefix-length [] s rest h = let same : s ≡ rest = cc in rw same (omega arith)
strip_prefix-length (x ∷ p) [] rest h = cc
strip_prefix-length (x ∷ p) (c ∷ s) rest h = elim (Bool-cases (x == c)) [
  | inl e ↦ omega (arith, strip_prefix-length p s rest (rw e at h))
  | inr e ↦ absurd (cc (rw e at h))
]

pub parse_bool-Leaves : (s : Str) → Leaves (length s) (behind (parse_bool s))
unfolding parse_bool bool_of
parse_bool-Leaves s = elim (Option-cases (strip_prefix (codes "true") s)) [
  | inr (rest, e) ↦ rw (e, bool_of) (omega (arith, strip_prefix-length (codes "true") s rest e))
  | inl e ↦ elim (Option-cases (strip_prefix (codes "false") s)) [
    | inr (rest, e') ↦
        rw (e, e', bool_of) (omega (arith, strip_prefix-length (codes "false") s rest e'))
    | inl e' ↦ rw (e, e', bool_of) cc
  ]
]

null-Leaves : (s : Str) → Leaves (length s) (null_of (strip_prefix (codes "null") s))
unfolding null_of
null-Leaves s = elim (Option-cases (strip_prefix (codes "null") s)) [
  | inr (rest, e) ↦ rw (e, null_of) (omega (arith, strip_prefix-length (codes "null") s rest e))
  | inl e ↦ rw (e, null_of) cc
]

pub if-Leaves :
    (n : ℕ) (b : Bool) (x y : Result Failure Str)
    → Leaves n x
    → Leaves n y
    → Leaves n (if b then x else y)
if-Leaves n true x y h k = h
if-Leaves n false x y h k = k

skip_scalar-Leaves : (s : Str) → Leaves (length s) (skip_scalar s)
unfolding skip_scalar
skip_scalar-Leaves [] = cc
skip_scalar-Leaves (c ∷ s) =
    let n = length (c ∷ s) in
    let digit =
      if is_ascii_digit c
      then behind (parse_u64 (c ∷ s))
      else null_of (strip_prefix (codes "null") (c ∷ s)) in
    let other = if c == b't' || c == b'f' then behind (parse_bool (c ∷ s)) else digit in
    if-Leaves n (c == b'"') (behind (parse_string (c ∷ s))) other (parse_string-Leaves (c ∷ s)) (
      if-Leaves n (c == b't' || c == b'f') (behind (parse_bool (c ∷ s))) digit
        (parse_bool-Leaves (c ∷ s))
        (if-Leaves n (is_ascii_digit c) (behind (parse_u64 (c ∷ s))) _ (parse_u64-Leaves (c ∷ s))
          (null-Leaves (c ∷ s))))

pub Leaves-pair :
    {A : Type 0} (n m : ℕ) (r : Result Failure (A × Str)) (f : A × Str → Result Failure Str)
    → Leaves n (behind r)
    → ((a : A) (rest : Str) → length rest < n → Leaves m (f (a, rest)))
    → Leaves m (r >>= f)
Leaves-pair n m (ok (a, rest)) f h k = k a rest h
Leaves-pair n m (err e) f h k = h

pub skip_key-Leaves : (s : Str) → Leaves (length s) (skip_key s)
unfolding skip_key
skip_key-Leaves s =
    Leaves-pair (length (skip_ws s)) (length s) (parse_string (skip_ws s)) _
      (parse_string-Leaves (skip_ws s))
      (λ key rest h.
        Leaves->>= (length (skip_ws rest)) (length s) (expect_byte b':' (skip_ws rest)) _
          (expect_byte-Leaves b':' (skip_ws rest))
          (λ rest' h'. omega (arith, skip_ws-length s, skip_ws-length rest, skip_ws-length rest')))

-- What an opening leaves, and what comes behind an element.
abbrev Inside : ℕ → Opening → Type 0
Inside n scalar = Unit
Inside n (array inner) = length inner < n
Inside n (object inner) = length inner < n

opening-Inside : (s : Str) → Inside (length s) (opening s)
unfolding opening
opening-Inside [] = tt
opening-Inside (c ∷ s) = elim (Bool-cases (c == b'[')) [
  | inl e ↦ rw (e, Inside) (omega (arith, skip_ws-length s))
  | inr e ↦ elim (Bool-cases (c == b'{')) [
    | inl e' ↦ rw (e, e', Inside) (omega (arith, skip_ws-length s))
    | inr e' ↦ rw (e, e', Inside) tt
  ]
]

abbrev After : ℕ → Next → Type 0
After n neither = Unit
After n (more rest) = length rest < n
After n (closed rest) = length rest < n

next_of-After : (close : ℕ) (s : Str) → After (length s) (next_of close s)
unfolding next_of
next_of-After close [] = tt
next_of-After close (c ∷ s) = elim (Bool-cases (c == b',')) [
  | inl e ↦ rw (e, After) (omega arith)
  | inr e ↦ elim (Bool-cases (c == close)) [
    | inl e' ↦ rw (e, e', After) (omega arith)
    | inr e' ↦ rw (e, e', After) tt
  ]
]

closes-length : (close : ℕ) (s rest : Str) → closes close s ≡ some rest → length rest < length s
unfolding closes
closes-length close [] rest h = cc
closes-length close (c ∷ s) rest h = elim (Bool-cases (c == close)) [
  | inl e ↦ let same : s ≡ rest = cc (rw e at h) in rw same (omega arith)
  | inr e ↦ absurd (cc (rw e at h))
]

-- The rounds that a task needs.
abbrev needed : Task → Str → ℕ
needed value s = 2 * length s + 1
needed items s = 2 * length s + 2
needed fields s = 2 * length s + 2

-- Rounds that are enough for the tasks that need at most `k`.
abbrev AreEnough : ℕ → Rest → Type 0
AreEnough k run = (task : Task) (s : Str) → needed task s ≤ k → Leaves (length s) (run task s)

module _ (k : ℕ) (run : Rest) (enough : AreEnough k run) where
  unless_closed-Leaves :
      (loop : Task) (inner : Str) (close : Option Str) (n : ℕ)
      → needed loop inner ≤ k
      → length inner < n
      → ((rest : Str) → close ≡ some rest → length rest < length inner)
      → Leaves n (unless_closed run loop inner close)
  unfolding unless_closed
  unless_closed-Leaves loop inner none n h q c =
      Leaves-le (length inner) n (run loop inner) (omega arith) (enough loop inner h)
  unless_closed-Leaves loop inner (some rest) n h q c = omega (arith, c rest refl)

  skip_opened-Leaves :
      (s : Str) (o : Opening)
      → Inside (length s) o
      → needed value s ≤ suc k
      → Leaves (length s) (skip_opened run s o)
  unfolding skip_opened
  skip_opened-Leaves s scalar e h = skip_scalar-Leaves s
  skip_opened-Leaves s (array inner) e h =
      unless_closed-Leaves items inner (closes b']' inner) (length s) (omega arith) e
        (closes-length b']' inner)
  skip_opened-Leaves s (object inner) e h =
      unless_closed-Leaves fields inner (closes b'}' inner) (length s) (omega arith) e
        (closes-length b'}' inner)

  go_on-Leaves :
      (loop : Task) (msg : String) (n m : ℕ) (next : Next)
      → After n next
      → n ≤ m
      → ((s : Str) → length s < n → needed loop s ≤ k)
      → Leaves m (go_on run loop msg next)
  unfolding go_on
  go_on-Leaves loop msg n m neither h q c = cc
  go_on-Leaves loop msg n m (closed rest) h q c = omega arith
  go_on-Leaves loop msg n m (more rest) h q c =
      Leaves-le (length rest) m (run loop rest) (omega arith) (enough loop rest (c rest h))

  -- A value and what comes behind it.
  element :
      (loop : Task) (msg : String) (close : ℕ) (s : Str) (m : ℕ)
      → needed value s ≤ k
      → length s ≤ m
      → ((rest : Str) → length rest < length s → needed loop rest ≤ k)
      → Leaves m (run value s >>= λ rest. go_on run loop msg (next_of close (skip_ws rest)))
  element loop msg close s m h q c =
      Leaves->>= (length s) m (run value s) _ (enough value s h) (λ rest short.
        go_on-Leaves loop msg (length (skip_ws rest)) m (next_of close (skip_ws rest))
          (next_of-After close (skip_ws rest)) (omega (arith, skip_ws-length rest))
          (λ rest' shorter. c rest' (omega (arith, skip_ws-length rest))))

  -- One more round is enough for what needs one more.
  skip_step-Leaves :
      (task : Task) (s : Str) → needed task s ≤ suc k → Leaves (length s) (skip_step run task s)
  unfolding skip_step
  skip_step-Leaves value s h = skip_opened-Leaves s (opening s) (opening-Inside s) h
  skip_step-Leaves items s h =
      element items "expected ',' or ']'" b']' (skip_ws s) (length s)
        (omega (arith, skip_ws-length s)) (omega (arith, skip_ws-length s))
        (λ rest short. omega (arith, skip_ws-length s))
  skip_step-Leaves fields s h =
      Leaves->>= (length s) (length s) (skip_key s) _ (skip_key-Leaves s) (λ inner short.
        element fields "expected ',' or '}'" b'}' inner (length s) (omega arith) (omega arith)
          (λ rest shorter. omega arith))

-- The rounds that the model counts are enough for every text: skipping a value ends by itself, and
-- it leaves less than it was given or fails as the code does.
pub skip-enough : (k : ℕ) → AreEnough k (skip k)
unfolding skip
skip-enough zero value s h = absurd (omega arith)
skip-enough zero items s h = absurd (omega arith)
skip-enough zero fields s h = absurd (omega arith)
skip-enough (suc k) task s h = skip_step-Leaves k (skip k) (skip-enough k) task s h

pub skip_value-Leaves : (s : Str) → Leaves (length s) (skip_value s)
unfolding skip_value
skip_value-Leaves s = skip-enough (2 * length s + 2) value s (omega arith)
