-- ===== src/Protocol/Json/Panics.antt =====
-- Where the JSON parser of src/vm/protocol.rs panics.
use arapuca.Prelude.{
  ℕ, zero, suc, ◌+◌, ◌-◌, ◌≤◌, ◌<◌, ◌≡◌, refl, ◌∙◌, [], ◌∷◌, ◌++◌, true, false, none, err, ltb, leb,
  Str, arith,
}
use arapuca.Prelude.Utf8.{char_len, str_len, take_bytes}
use arapuca.Protocol.Json.{
  Failure, panic, read_unicode, text, escape, round, failed, simple_escape, after_escape,
  after_unicode, parse_chars, encode_chars, parse_string, expect_byte,
}
use arapuca.Protocol.Json.Strings.{parse_chars-encode_chars}

read_unicode-panic :
    (s : Str) → ltb (str_len s) 4 ≡ false → take_bytes 4 s ≡ none → read_unicode s ≡ err panic
unfolding read_unicode
read_unicode-panic s long cut = rw (long, cut) refl

round-failed :
    (acc s : Str) (e : Failure) → read_unicode s ≡ err e → round escape acc b'u' s ≡ failed e
unfolding round after_escape after_unicode simple_escape
round-failed acc s e h = rw h refl

parse_chars-failed :
    (acc s : Str) (e : Failure)
    → round escape acc b'u' s ≡ failed e
    → parse_chars escape acc (b'u' ∷ s) ≡ err e
unfolding parse_chars
parse_chars-failed acc s e h = rw (h, parse_chars) refl

-- The fourth byte is inside a character.
take_bytes-cut :
    (n : ℕ) (front : Str) (c : ℕ) (back : Str)
    → str_len front < n
    → n < str_len front + char_len c
    → take_bytes n (front ++ c ∷ back) ≡ none
unfolding take_bytes
take_bytes-cut zero front c back h k = absurd (omega arith)
take_bytes-cut (suc n) [] c back h k =
    let wide : leb (char_len c) (suc n) ≡ false = ground arith in rw wide refl
take_bytes-cut (suc n) (d ∷ front) c back h k =
    let fits : leb (char_len d) (suc n) ≡ true = ground arith in
    rw (fits, take_bytes-cut (suc n - char_len d) front c back (omega arith) (omega arith)) refl

long_enough :
    (front : Str) (c : ℕ) (back : Str)
    → 4 < str_len front + char_len c
    → ltb (str_len (front ++ c ∷ back)) 4 ≡ false
long_enough front c back h = let size = str_len-front front c back in ground (arith, size)
  where
    str_len-front :
        (front : Str) (c : ℕ) (back : Str)
        → str_len front + char_len c ≤ str_len (front ++ c ∷ back)
    str_len-front [] c back = omega arith
    str_len-front (d ∷ front) c back = omega (arith, str_len-front front c back)

panics_at :
    (acc s : Str)
    → ltb (str_len s) 4 ≡ false
    → take_bytes 4 s ≡ none
    → parse_chars text acc (b'\\' ∷ b'u' ∷ s) ≡ err panic
unfolding parse_chars round
panics_at acc s long cut =
    parse_chars-failed acc s panic (round-failed acc s panic (read_unicode-panic s long cut))

-- A JSON string makes the parser panic if, behind any text as the writer prints it, a `\u` escape is
-- followed by characters of less than four bytes and then a character that reaches past the fourth
-- byte.
pub parse_string_panics :
    (printed front : Str) (c : ℕ) (back : Str)
    → str_len front < 4
    → 4 < str_len front + char_len c
    → parse_string (b'"' ∷ (encode_chars printed ++ b'\\' ∷ b'u' ∷ (front ++ c ∷ back))) ≡ err panic
unfolding parse_string expect_byte
parse_string_panics printed front c back h k =
    parse_chars-encode_chars printed [] (b'\\' ∷ b'u' ∷ (front ++ c ∷ back))
    ∙ panics_at printed (front ++ c ∷ back) (long_enough front c back k)
        (take_bytes-cut 4 front c back h k)
