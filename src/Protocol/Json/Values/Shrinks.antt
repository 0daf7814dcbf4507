-- ===== src/Protocol/Json/Values/Shrinks.antt =====
-- What the parser of src/vm/protocol.rs leaves is shorter than what it was given, and the rounds that
-- the model counts are enough.
use arapuca.Prelude.{
  ℕ, zero, suc, ◌<◌, ◌≢◌, [], ◌∷◌, ◌++◌, Option, none, some, Result, ok, err, ltb, ◌==◌,
  if◌then◌else◌, Str, length, Bool-cases, Option-cases, inl, inr, arith,
}
use arapuca.Prelude.Utf8.{str_len, take_bytes}
use arapuca.Protocol.Io.{invalid_data}
use arapuca.Protocol.Json.{
  Failure, error, out_of_rounds, parse_chars, Mode, text, escape, passing, Round, finished, failed,
  goes_on, round, simple_escape, after_escape, after_unicode, read_unicode, named_char,
  from_str_radix16, is_char,
}
use arapuca.Protocol.Json.Values.{behind}

-- A result that the code can give.
abbrev pub IsReal {ℓ} : {A : Type ℓ} → Result Failure A → Type 0
IsReal (ok a) = Unit
IsReal (err e) = e ≢ out_of_rounds

-- A result that leaves fewer than `n` characters.
abbrev pub Leaves : ℕ → Result Failure Str → Type 0
Leaves n (ok rest) = length rest < n
Leaves n (err e) = e ≢ out_of_rounds

abbrev IsRealRound : Round → Type 0
IsRealRound finished = Unit
IsRealRound (failed e) = e ≢ out_of_rounds
IsRealRound (goes_on mode acc) = Unit

named_char-IsReal : (hex : Str) → IsReal (named_char hex)
unfolding named_char
named_char-IsReal hex = elim (Option-cases (from_str_radix16 hex)) [
  | inl e ↦ rw (e, named_char) cc
  | inr (code, e) ↦ rw (e, named_char) (judged code)
]
  where
    judged :
        (code : ℕ)
        → IsReal {A = ℕ × ℕ} (
            if is_char code
            then ok (code, length hex)
            else err (error invalid_data "invalid unicode codepoint"))
    judged code = elim (Bool-cases (is_char code)) [ inl e ↦ rw e tt | inr e ↦ rw e cc ]

read_unicode-IsReal : (s : Str) → IsReal (read_unicode s)
unfolding read_unicode
read_unicode-IsReal s = elim (Bool-cases (ltb (str_len s) 4)) [
  | inl e ↦ rw (e, read_unicode) cc
  | inr e ↦
      rw (e, read_unicode)
        (elim (Option-cases (take_bytes 4 s)) [
          | inl e' ↦ rw (e', IsReal) cc
          | inr (hex, e') ↦ rw (e', IsReal) (named_char-IsReal hex)
        ])
]

after_unicode-IsReal :
    (acc : Str) (r : Result Failure (ℕ × ℕ)) → IsReal r → IsRealRound (after_unicode acc r)
unfolding after_unicode
after_unicode-IsReal acc (ok (code, n)) h = tt
after_unicode-IsReal acc (err e) h = h

after_escape-IsReal :
    (acc : Str) (c : ℕ) (s : Str) (o : Option ℕ) → IsRealRound (after_escape acc c s o)
unfolding after_escape
after_escape-IsReal acc c s (some d) = tt
after_escape-IsReal acc c s none = elim (Bool-cases (c == b'u')) [
  | inl e ↦ rw e (after_unicode-IsReal acc (read_unicode s) (read_unicode-IsReal s))
  | inr e ↦ rw e cc
]

quoted_round :
    (acc : Str) (c : ℕ)
    → IsRealRound (
        if c == b'"'
        then finished
        else if c == b'\\'
        then goes_on escape acc
        else goes_on text (acc ++ c ∷ []))
quoted_round acc c = elim (Bool-cases (c == b'"')) [
  | inl e ↦ rw e tt
  | inr e ↦ rw e (elim (Bool-cases (c == b'\\')) [ inl e' ↦ rw e' tt | inr e' ↦ rw e' tt ])
]

round-IsReal : (mode : Mode) (acc : Str) (c : ℕ) (s : Str) → IsRealRound (round mode acc c s)
unfolding round
round-IsReal text acc c s = quoted_round acc c
round-IsReal escape acc c s = after_escape-IsReal acc c s (simple_escape c)
round-IsReal (passing zero) acc c s = quoted_round acc c
round-IsReal (passing (suc zero)) acc c s = tt
round-IsReal (passing (suc (suc n))) acc c s = tt

-- Shorter by one is shorter.
pub Leaves-suc : (n : ℕ) (r : Result Failure Str) → Leaves n r → Leaves (suc n) r
Leaves-suc n (ok rest) h = omega arith
Leaves-suc n (err e) h = h

round_step :
    (r : Round) (acc s : Str)
    → IsRealRound r
    → ((mode : Mode) (acc : Str) → Leaves (length s) (behind (parse_chars mode acc s)))
    → Leaves (suc (length s)) (
        behind (elim r [
          | finished ↦ ok (acc, s)
          | failed e ↦ err e
          | goes_on mode' acc' ↦ parse_chars mode' acc' s
        ]))
round_step finished acc s h go = omega arith
round_step (failed e) acc s h go = h
round_step (goes_on mode acc') acc s h go =
    Leaves-suc (length s) (behind (parse_chars mode acc' s)) (go mode acc')

-- The string's characters end before the rest, which lacks the closing quote at least.
pub parse_chars-Leaves :
    (mode : Mode) (acc s : Str) → Leaves (length s) (behind (parse_chars mode acc s))
unfolding parse_chars
parse_chars-Leaves text acc [] = cc
parse_chars-Leaves escape acc [] = cc
parse_chars-Leaves (passing n) acc [] = cc
parse_chars-Leaves text acc (c ∷ s) =
    round_step (round text acc c s) acc s (round-IsReal text acc c s)
      (λ mode acc. parse_chars-Leaves mode acc s)
parse_chars-Leaves escape acc (c ∷ s) =
    round_step (round escape acc c s) acc s (round-IsReal escape acc c s)
      (λ mode acc. parse_chars-Leaves mode acc s)
parse_chars-Leaves (passing n) acc (c ∷ s) =
    round_step (round (passing n) acc c s) acc s (round-IsReal (passing n) acc c s)
      (λ mode acc. parse_chars-Leaves mode acc s)
