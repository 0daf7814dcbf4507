-- ===== src/Protocol/Request/Enough.antt =====
-- `from_json` of src/vm/protocol.rs ends: the rounds that the model counts are enough for every text.
use mathlib.Core.List.{tail}
use mathlib.Core.Path.{subst}
use arapuca.Prelude.{
  ℕ, zero, suc, ◌+◌, ◌≤◌, ◌<◌, ◌≡◌, ◌≢◌, refl, List, [], ◌∷◌, ◌++◌, Bool, true, false, Option, none,
  some, Result, ok, err, ◌>>=◌, ◌>>◌, ◌==◌, if◌then◌else◌, Str, codes, length, beq, arith,
  Bool-cases, Option-cases, inl, inr, ok_or,
}
use arapuca.Protocol.Json.{
  Failure, error, out_of_rounds, skip_ws, expect_byte, parse_string, parse_string_array,
  parse_elements, peek, at_bracket, max_array_elements,
}
use arapuca.Protocol.Json.Values.{behind, parse_bool, parse_u16, parse_u64, narrowed, skip_value}
use arapuca.Protocol.Json.Values.Shrinks.{IsReal, Leaves}
use arapuca.Protocol.Json.Values.Enough.{
  Leaves-le, skip_ws-length, expect_byte-Leaves, parse_string-Leaves, parse_bool-Leaves,
  parse_u64-Leaves, skip_value-Leaves,
}
use arapuca.Protocol.Request.{
  Fields, no_fields, set_once, passed_over, read_field, separator, one_field, field_loop,
  read_fields, request_of, from_json,
}

-- A pair's rest in a chain.
behind->>= :
    {A B : Type 0} (n m : ℕ) (r : Result Failure (A × Str)) (f : A × Str → Result Failure (B × Str))
    → Leaves n (behind r)
    → ((a : A) (rest : Str) → length rest < n → Leaves m (behind (f (a, rest))))
    → Leaves m (behind (r >>= f))
behind->>= n m (ok (a, rest)) f h k = k a rest h
behind->>= n m (err e) f h k = h

narrowed-Leaves : (n v : ℕ) (rest : Str) → length rest < n → Leaves n (behind (narrowed (v, rest)))
unfolding narrowed
narrowed-Leaves n v rest h = elim (Bool-cases (arapuca.Prelude.leb v 65535)) [
  | inl e ↦ rw (e, behind) h
  | inr e ↦ rw (e, behind) cc
]

parse_u16-Leaves : (s : Str) → Leaves (length s) (behind (parse_u16 s))
unfolding parse_u16
parse_u16-Leaves s =
    behind->>= (length s) (length s) (parse_u64 s) _ (parse_u64-Leaves s)
      (λ v rest h. narrowed-Leaves (length s) v rest h)

tail-length : (s : Str) → length (tail s) ≤ length s
tail-length [] = omega arith
tail-length (c ∷ s) = omega arith

parse_elements-Leaves :
    (room : ℕ) (arr : List Str) (s : Str) → Leaves (length s) (behind (parse_elements room arr s))
unfolding parse_elements
parse_elements-Leaves zero arr s = cc
parse_elements-Leaves (suc room) arr s =
    behind->>= (length (skip_ws s)) (length s) (parse_string (skip_ws s)) _
      (parse_string-Leaves (skip_ws s))
      (λ e rest h.
        behind_element (λ arr s. parse_elements-Leaves room arr s) e (skip_ws rest)
          (omega (arith, skip_ws-length s, skip_ws-length rest)))
  where
    behind_element :
        ((arr : List Str) (s : Str) → Leaves (length s) (behind (parse_elements room arr s)))
        → (e t : Str) → length t < length s
        → Leaves (length s) (
            behind (elim (peek t) [
              | none ↦ err (error arapuca.Protocol.Io.unexpected_eof "unterminated array")
              | some c ↦
                  if c == b','
                  then parse_elements room (arr ++ e ∷ []) (tail t)
                  else if c == b']'
                  then ok (arr ++ e ∷ [], tail t)
                  else err (error arapuca.Protocol.Io.invalid_data "expected ',' or ']'")
            ]))
    behind_element more e [] h = cc
    behind_element more e (c ∷ t) h = elim (Bool-cases (c == b',')) [
      | inl q ↦
          rw (q, behind)
            (Leaves-le (length t) (length s) (behind (parse_elements room (arr ++ e ∷ []) t))
              (omega arith) (more (arr ++ e ∷ []) t))
      | inr q ↦ elim (Bool-cases (c == b']')) [
        | inl q' ↦ rw (q, q', behind) (omega arith)
        | inr q' ↦ rw (q, q', behind) cc
      ]
    ]

parse_string_array-Leaves : (s : Str) → Leaves (length s) (behind (parse_string_array s))
unfolding parse_string_array
parse_string_array-Leaves s = opened (expect_byte b'[' s) (expect_byte-Leaves b'[' s)
  where
    inner :
        (t : Str)
        → length t < length s
        → Leaves (length s) (
            behind
              (if at_bracket t then ok ([], tail t) else parse_elements max_array_elements [] t))
    inner t h = elim (Bool-cases (at_bracket t)) [
      | inl e ↦ rw (e, behind) (omega (arith, tail-length t))
      | inr e ↦
          rw (e, behind)
            (Leaves-le (length t) (length s) (behind (parse_elements max_array_elements [] t))
              (omega arith) (parse_elements-Leaves max_array_elements [] t))
    ]

    opened :
        (r : Result Failure Str)
        → Leaves (length s) r
        → Leaves (length s) (
            behind (
              r >>= λ s'.
              if at_bracket (skip_ws s')
              then ok ([], tail (skip_ws s'))
              else parse_elements max_array_elements [] (skip_ws s')))
    opened (ok rest) h = inner (skip_ws rest) (omega (arith, skip_ws-length rest))
    opened (err e) h = h

-- A field that is read takes at least a character of its value.
set_once-Leaves :
    {A : Type 0} (n : ℕ) (o : Option A) (r : Result Failure (A × Str)) (put : A → Fields)
    → Leaves n (behind r)
    → Leaves n (behind (set_once o r put))
unfolding set_once
set_once-Leaves n (some a) r put h = cc
set_once-Leaves n none (ok (a, rest)) put h = h
set_once-Leaves n none (err e) put h = h

passed_over-Leaves :
    (n : ℕ) (f : Fields) (r : Result Failure Str) → Leaves n r → Leaves n (behind (passed_over f r))
passed_over-Leaves n f (ok rest) h = h
passed_over-Leaves n f (err e) h = h

if_field :
    (n : ℕ) (b : Bool) (x y : Result Failure (Fields × Str))
    → Leaves n (behind x)
    → Leaves n (behind y)
    → Leaves n (behind (if b then x else y))
if_field n true x y h k = h
if_field n false x y h k = k

read_field-Leaves : (f : Fields) (key s : Str) → Leaves (length s) (behind (read_field f key s))
unfolding read_field
read_field-Leaves f key s =
    let n = length s in
    let other = passed_over f (skip_value s) in
    let read_cols = set_once f.cols (parse_u16 s) (λ v. record f { cols = some v }) in
    let or_cols : Result Failure (Fields × Str) =
      if beq key (codes "cols") then read_cols else other in
    let read_rows = set_once f.rows (parse_u16 s) (λ v. record f { rows = some v }) in
    let or_rows : Result Failure (Fields × Str) =
      if beq key (codes "rows") then read_rows else or_cols in
    let read_tty = set_once f.tty (parse_bool s) (λ v. record f { tty = some v }) in
    let or_tty : Result Failure (Fields × Str) =
      if beq key (codes "tty") then read_tty else or_rows in
    let read_user = set_once f.user (parse_string s) (λ v. record f { user = some v }) in
    let or_user : Result Failure (Fields × Str) =
      if beq key (codes "user") then read_user else or_tty in
    let read_env = set_once f.env (parse_string_array s) (λ v. record f { env = some v }) in
    let or_env : Result Failure (Fields × Str) =
      if beq key (codes "env") then read_env else or_user in
    let read_args = set_once f.args (parse_string_array s) (λ v. record f { args = some v }) in
    let or_args : Result Failure (Fields × Str) =
      if beq key (codes "args") then read_args else or_env in
    let read_cmd = set_once f.cmd (parse_string s) (λ v. record f { cmd = some v }) in
    let or_cmd : Result Failure (Fields × Str) =
      if beq key (codes "cmd") then read_cmd else or_args in
    if_field n (beq key (codes "cmd")) read_cmd or_args
      (set_once-Leaves n f.cmd (parse_string s) _ (parse_string-Leaves s))
      (if_field n (beq key (codes "args")) read_args or_env
        (set_once-Leaves n f.args (parse_string_array s) _ (parse_string_array-Leaves s))
        (if_field n (beq key (codes "env")) read_env or_user
          (set_once-Leaves n f.env (parse_string_array s) _ (parse_string_array-Leaves s))
          (if_field n (beq key (codes "user")) read_user or_tty
            (set_once-Leaves n f.user (parse_string s) _ (parse_string-Leaves s))
            (if_field n (beq key (codes "tty")) read_tty or_rows
              (set_once-Leaves n f.tty (parse_bool s) _ (parse_bool-Leaves s))
              (if_field n (beq key (codes "rows")) read_rows or_cols
                (set_once-Leaves n f.rows (parse_u16 s) _ (parse_u16-Leaves s))
                (if_field n (beq key (codes "cols")) read_cols other
                  (set_once-Leaves n f.cols (parse_u16 s) _ (parse_u16-Leaves s))
                  (passed_over-Leaves n f (skip_value s) (skip_value-Leaves s))))))))

separator-Leaves : (first : Bool) (s : Str) → Leaves (suc (length s)) (separator first s)
unfolding separator
separator-Leaves true s = omega arith
separator-Leaves false s =
    Leaves-le (length s) (suc (length s)) (expect_byte b',' s) (omega arith)
      (expect_byte-Leaves b',' s)

text->>= :
    {A : Type 0} (n m : ℕ) (r : Result Failure Str) (f : Str → Result Failure (A × Str))
    → Leaves n r
    → ((rest : Str) → length rest < n → Leaves m (behind (f rest)))
    → Leaves m (behind (r >>= f))
text->>= n m (ok rest) f h k = k rest h
text->>= n m (err e) f h k = h

one_field-Leaves :
    (first : Bool) (f : Fields) (s : Str) → Leaves (length s) (behind (one_field first f s))
unfolding one_field
one_field-Leaves first f s =
    text->>= (suc (length s)) (length s) (separator first s) _ (separator-Leaves first s) (λ t h.
      behind->>= (length (skip_ws t)) (length s) (parse_string (skip_ws t)) _
        (parse_string-Leaves (skip_ws t))
        (λ key rest k.
          text->>= (length (skip_ws rest)) (length s) (expect_byte b':' (skip_ws rest)) _
            (expect_byte-Leaves b':' (skip_ws rest))
            (λ v q.
              Leaves-le (length (skip_ws v)) (length s) (behind (read_field f key (skip_ws v)))
                (omega (arith, skip_ws-length t, skip_ws-length rest, skip_ws-length v))
                (read_field-Leaves f key (skip_ws v)))))

field_loop-IsReal :
    (k : ℕ) (run : Bool → Fields → Str → Result Failure Fields)
    → ((b : Bool) (f : Fields) (s : Str) → length s < k → IsReal (run b f s))
    → (b : Bool) (f : Fields) (s : Str) (c : Option Str) → length s ≤ k
    → IsReal (field_loop run b f s c)
unfolding field_loop
field_loop-IsReal k run real b f s (some rest) h = tt
field_loop-IsReal k run real b f s none h = goes (one_field b f s) (one_field-Leaves b f s)
  where
    goes :
        (r : Result Failure (Fields × Str))
        → Leaves (length s) (behind r)
        → IsReal (r >>= λ v. run false v.0 v.1)
    goes (ok (f', rest)) q = real false f' rest (omega arith)
    goes (err e) q = q

read_fields-IsReal :
    (k : ℕ) (b : Bool) (f : Fields) (s : Str) → length s < k → IsReal (read_fields k b f s)
unfolding read_fields
read_fields-IsReal zero b f s h = absurd (omega arith)
read_fields-IsReal (suc k) b f s h =
    field_loop-IsReal k (λ b g t. read_fields k b g t) (λ b g t q. read_fields-IsReal k b g t q) b f
      (skip_ws s) _ (omega (arith, skip_ws-length s))

request_of-IsReal : (f : Fields) → IsReal (request_of f)
unfolding request_of
request_of-IsReal f = elim (Option-cases f.cmd) [
  | inl e ↦ rw (e, IsReal) cc
  | inr (cmd, e) ↦ rw (e, IsReal) tt
]

IsReal->>= :
    {A B : Type 0} (r : Result Failure A) (f : A → Result Failure B)
    → IsReal r
    → ((a : A) → IsReal (f a))
    → IsReal (r >>= f)
IsReal->>= (ok a) f h k = k a
IsReal->>= (err e) f h k = h

from_json-IsReal : (json : Str) → IsReal (from_json json)
unfolding from_json
from_json-IsReal json =
    opened (expect_byte b'{' (skip_ws json)) (expect_byte-Leaves b'{' (skip_ws json))
  where
    opened :
        (r : Result Failure Str)
        → Leaves (length (skip_ws json)) r
        → IsReal (r >>= λ s. read_fields (length s + 1) true no_fields s >>= λ f. request_of f)
    opened (ok s) h =
        IsReal->>= (read_fields (length s + 1) true no_fields s) _
          (read_fields-IsReal (length s + 1) true no_fields s (omega arith))
          (λ f. request_of-IsReal f)
    opened (err e) h = h

-- `from_json` ends on every text, with a request, with an error or with a panic: the rounds over the
-- fields, and those over a value that is skipped, never run out.
pub from_json-ends : (json : Str) → from_json json ≢ err out_of_rounds
from_json-ends json e = subst (λ r. IsReal r) e (from_json-IsReal json) refl
