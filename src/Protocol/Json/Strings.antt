-- ===== src/Protocol/Json/Strings.antt =====
-- Reading the JSON strings and arrays of strings of src/vm/protocol.rs that its writer prints.
pub mod Escapes
use mathlib.Core.List.{tail}
use mathlib.Core.Path.{subst}
use arapuca.Prelude.{
  ℕ, zero, suc, ◌+◌, ◌*◌, ◌/◌, ◌%◌, ◌≤◌, ◌<◌, ◌≡◌, ◌≢◌, refl, sym, ap, ◌∙◌, inl, inr, List, [], ◌∷◌,
  ◌++◌, append_assoc, append-nil, arith, Bool, true, false, Option, none, some, Result, ok, err,
  ltb, ◌==◌, if◌then◌else◌, Str, codes, length, Bool-cases, ◌⊎◌, inr, eq-cases, lt-cases,
}
use mathlib.Core.Option
use arapuca.Prelude.Utf8.{char_len, str_len, take_bytes, take_bytes-ascii}
use arapuca.Protocol.Json.{
  hex_digit, hex_value, radix_digits, from_str_radix16, read_unicode, named_char, is_char,
  after_unicode, unicode_escape, encode_char, encode_chars, json_encode_string, encode_more,
  json_encode_string_array, Mode, text, escape, passing, passing, round, goes_on, finished,
  simple_escape, parse_chars, parse_string, skip_ws, expect_byte, max_array_elements,
  parse_elements, parse_string_array, at_bracket, after_escape,
}
use arapuca.Protocol.Json.Strings.Escapes.{read_unicode-unicode_escape}

-- One character of the loop.
parse_chars-goes_on :
    (mode mode' : Mode) (acc acc' s : Str) (c : ℕ)
    → round mode acc c s ≡ goes_on mode' acc'
    → parse_chars mode acc (c ∷ s) ≡ parse_chars mode' acc' s
unfolding parse_chars
parse_chars-goes_on text mode' acc acc' s c e = rw (e, parse_chars) refl
parse_chars-goes_on escape mode' acc acc' s c e = rw (e, parse_chars) refl
parse_chars-goes_on (passing n) mode' acc acc' s c e = rw (e, parse_chars) refl

parse_chars-finished :
    (acc s : Str) (c : ℕ)
    → round text acc c s ≡ finished
    → parse_chars text acc (c ∷ s) ≡ ok (acc, s)
unfolding parse_chars
parse_chars-finished acc s c e = rw (e, parse_chars) refl

round-backslash : (acc s : Str) → round text acc b'\\' s ≡ goes_on escape acc
unfolding round
round-backslash acc s = refl

round-quote : (acc s : Str) → round text acc b'"' s ≡ finished
unfolding round
round-quote acc s = refl

round-plain :
    (acc s : Str) (c : ℕ) → c ≢ b'"' → c ≢ b'\\' → round text acc c s ≡ goes_on text (acc ++ c ∷ [])
unfolding round
round-plain acc s c q b = ground arith

round-simple :
    (acc s : Str) (c d : ℕ)
    → simple_escape c ≡ some d
    → round escape acc c s ≡ goes_on text (acc ++ d ∷ [])
unfolding round after_escape
round-simple acc s c d e = rw e refl

round-unicode :
    (acc s : Str) (c n : ℕ)
    → read_unicode s ≡ ok (c, n)
    → round escape acc b'u' s ≡ goes_on (passing n) (acc ++ c ∷ [])
unfolding round after_escape after_unicode simple_escape
round-unicode acc s c n e = rw e refl

passing_suc :
    (n c : ℕ) (acc s : Str)
    → parse_chars (passing (suc (suc n))) acc (c ∷ s) ≡ parse_chars (passing (suc n)) acc s
unfolding round
passing_suc n c acc s =
    parse_chars-goes_on (passing (suc (suc n))) (passing (suc n)) acc acc s c refl

passing_one : (c : ℕ) (acc s : Str) → parse_chars (passing 1) acc (c ∷ s) ≡ parse_chars text acc s
unfolding round
passing_one c acc s = parse_chars-goes_on (passing 1) text acc acc s c refl

escape_starts : (acc s : Str) → parse_chars text acc (b'\\' ∷ s) ≡ parse_chars escape acc s
escape_starts acc s = parse_chars-goes_on text escape acc acc s b'\\' (round-backslash acc s)

parse_chars-simple :
    (acc rest : Str) (c d : ℕ)
    → simple_escape c ≡ some d
    → parse_chars text acc (b'\\' ∷ c ∷ rest) ≡ parse_chars text (acc ++ d ∷ []) rest
parse_chars-simple acc rest c d e =
    escape_starts acc (c ∷ rest)
    ∙ parse_chars-goes_on escape text acc (acc ++ d ∷ []) rest c (round-simple acc rest c d e)

parse_chars-unicode_escape :
    (c : ℕ) (acc rest : Str)
    → c < 0x20
    → parse_chars text acc (unicode_escape c ++ rest) ≡ parse_chars text (acc ++ c ∷ []) rest
parse_chars-unicode_escape c acc rest h =
    let h0 = hex_digit (c / 4096 % 16) in
    let h1 = hex_digit (c / 256 % 16) in
    let h2 = hex_digit (c / 16 % 16) in
    let h3 = hex_digit (c % 16) in
    let acc' = acc ++ c ∷ [] in
    escape_starts acc (b'u' ∷ h0 ∷ h1 ∷ h2 ∷ h3 ∷ rest)
    ∙ parse_chars-goes_on escape (passing 4) acc acc' (h0 ∷ h1 ∷ h2 ∷ h3 ∷ rest) b'u'
        (round-unicode acc (h0 ∷ h1 ∷ h2 ∷ h3 ∷ rest) c 4 (read_unicode-unicode_escape c rest h))
    ∙ passing_suc 2 h0 acc' (h1 ∷ h2 ∷ h3 ∷ rest)
    ∙ passing_suc 1 h1 acc' (h2 ∷ h3 ∷ rest)
    ∙ passing_suc 0 h2 acc' (h3 ∷ rest)
    ∙ passing_one h3 acc' rest

-- What the writer prints for a character.
abbrev Printed : ℕ → Str → Type 0
Printed c out =
    ((d : ℕ) × (simple_escape d ≡ some c) × (out ≡ b'\\' ∷ d ∷ []))
    ⊎ ((c < 0x20) × (out ≡ unicode_escape c))
    ⊎ ((c ≢ b'"') × (c ≢ b'\\') × (out ≡ c ∷ []))

Printed-simple :
    (c d : ℕ)
    → simple_escape d ≡ some c
    → encode_char c ≡ b'\\' ∷ d ∷ []
    → (x : ℕ) → x ≡ c
    → Printed x (encode_char x)
Printed-simple c d e p x q = subst (λ y. Printed y (encode_char y)) (sym q) (inl (d, e, p))

encode_char-small :
    (c : ℕ) → c ≢ b'\n' → c ≢ b'\r' → c ≢ b'\t' → c < 0x20 → encode_char c ≡ unicode_escape c
unfolding encode_char
encode_char-small c n r t h = ground arith

encode_char-plain : (c : ℕ) → c ≢ b'"' → c ≢ b'\\' → 0x20 ≤ c → encode_char c ≡ c ∷ []
unfolding encode_char
encode_char-plain c q b h = ground arith

encode_char-Printed : (c : ℕ) → Printed c (encode_char c)
unfolding simple_escape encode_char
encode_char-Printed c = elim (eq-cases c b'"') [
  | inl e ↦ Printed-simple b'"' b'"' refl refl c e
  | inr q ↦ elim (eq-cases c b'\\') [
    | inl e ↦ Printed-simple b'\\' b'\\' refl refl c e
    | inr b ↦ elim (eq-cases c b'\n') [
      | inl e ↦ Printed-simple b'\n' b'n' refl refl c e
      | inr n ↦ elim (eq-cases c b'\r') [
        | inl e ↦ Printed-simple b'\r' b'r' refl refl c e
        | inr r ↦ elim (eq-cases c b'\t') [
          | inl e ↦ Printed-simple b'\t' b't' refl refl c e
          | inr t ↦ elim (lt-cases c 0x20) [
            | inl h ↦ inr (inl (h, encode_char-small c n r t h))
            | inr h ↦ inr (inr (q, b, encode_char-plain c q b h))
          ]
        ]
      ]
    ]
  ]
]

parse_chars-encode_char :
    (c : ℕ) (acc rest : Str)
    → parse_chars text acc (encode_char c ++ rest) ≡ parse_chars text (acc ++ c ∷ []) rest
parse_chars-encode_char c acc rest = elim (encode_char-Printed c) [
  | inl (d, e, p) ↦ rw p (parse_chars-simple acc rest d c e)
  | inr (inl (h, p)) ↦ rw p (parse_chars-unicode_escape c acc rest h)
  | inr (inr (q, b, p)) ↦
      rw p (parse_chars-goes_on text text acc (acc ++ c ∷ []) rest c (round-plain acc rest c q b))
]

pub parse_chars-encode_chars :
    (s acc rest : Str)
    → parse_chars text acc (encode_chars s ++ rest) ≡ parse_chars text (acc ++ s) rest
unfolding encode_chars
parse_chars-encode_chars [] acc rest = rw (append-nil acc) refl
parse_chars-encode_chars (c ∷ s) acc rest =
    ap (parse_chars text acc) (append_assoc (encode_char c) (encode_chars s) rest)
    ∙ parse_chars-encode_char c acc (encode_chars s ++ rest)
    ∙ parse_chars-encode_chars s (acc ++ c ∷ []) rest
    ∙ ap (λ t. parse_chars text t rest) (append_assoc acc (c ∷ []) s)

-- Reading a JSON string that `json_encode_string` has written gives the string back and stops
-- behind it, whatever follows.
pub parse_string-json_encode_string :
    (s rest : Str) → parse_string (json_encode_string s ++ rest) ≡ ok (s, rest)
unfolding parse_string json_encode_string expect_byte
parse_string-json_encode_string s rest =
    ap (parse_chars text []) (append_assoc (encode_chars s) (b'"' ∷ []) rest)
    ∙ parse_chars-encode_chars s [] (b'"' ∷ rest)
    ∙ parse_chars-finished s rest b'"' (round-quote s rest)

pub skip_ws-json_encode_string :
    (s rest : Str) → skip_ws (json_encode_string s ++ rest) ≡ json_encode_string s ++ rest
unfolding skip_ws json_encode_string
skip_ws-json_encode_string s rest = refl

parse_elements-comma :
    (room : ℕ) (arr : List Str) (s e rest : Str)
    → parse_string (skip_ws s) ≡ ok (e, b',' ∷ rest)
    → parse_elements (suc room) arr s ≡ parse_elements room (arr ++ e ∷ []) rest
unfolding parse_elements skip_ws
parse_elements-comma room arr s e rest p = rw (p, parse_elements) refl

parse_elements-bracket :
    (room : ℕ) (arr : List Str) (s e rest : Str)
    → parse_string (skip_ws s) ≡ ok (e, b']' ∷ rest)
    → parse_elements (suc room) arr s ≡ ok (arr ++ e ∷ [], rest)
unfolding parse_elements skip_ws
parse_elements-bracket room arr s e rest p = rw (p, parse_elements) refl

parse_string-skipped :
    (s rest : Str) → parse_string (skip_ws (json_encode_string s ++ rest)) ≡ ok (s, rest)
parse_string-skipped s rest =
    ap parse_string (skip_ws-json_encode_string s rest) ∙ parse_string-json_encode_string s rest

elements_read :
    (room : ℕ) (arr : List Str) (s : Str) (more : List Str) (rest : Str)
    → length more < room
    → parse_elements room arr (json_encode_string s ++ (encode_more more ++ rest))
      ≡ ok (arr ++ s ∷ more, rest)
unfolding encode_more
elements_read zero arr s more rest h = absurd (omega arith)
elements_read (suc room) arr s [] rest h =
    parse_elements-bracket room arr (json_encode_string s ++ b']' ∷ rest) s rest
      (parse_string-skipped s (b']' ∷ rest))
elements_read (suc room) arr s (t ∷ more) rest h =
    let tail_text = json_encode_string t ++ encode_more more ++ rest in
    parse_elements-comma room arr (json_encode_string s ++ b',' ∷ tail_text) s tail_text
      (parse_string-skipped s (b',' ∷ tail_text))
    ∙ ap (parse_elements room (arr ++ s ∷ []))
        (append_assoc (json_encode_string t) (encode_more more) rest)
    ∙ elements_read room (arr ++ s ∷ []) t more rest (omega arith)
    ∙ ap (λ xs. ok (xs, rest)) (append_assoc arr (s ∷ []) (t ∷ more))

parse_string_array-first :
    (s : Str) (rest : Str)
    → parse_string_array (b'[' ∷ (json_encode_string s ++ rest))
      ≡ parse_elements max_array_elements [] (json_encode_string s ++ rest)
unfolding parse_string_array expect_byte skip_ws json_encode_string
parse_string_array-first s rest = refl

-- Reading an array that `json_encode_string_array` has written gives its elements back and stops
-- behind the array, whatever follows, for every array of at most 4096 strings.
pub parse_string_array-json_encode_string_array :
    (arr : List Str) (rest : Str)
    → length arr ≤ 4096
    → parse_string_array (json_encode_string_array arr ++ rest) ≡ ok (arr, rest)
unfolding json_encode_string_array parse_string_array skip_ws expect_byte
parse_string_array-json_encode_string_array [] rest h = refl
parse_string_array-json_encode_string_array (s ∷ arr) rest h =
    ap (λ t. parse_string_array (b'[' ∷ t))
      (append_assoc (json_encode_string s) (encode_more arr) rest)
    ∙ parse_string_array-first s (encode_more arr ++ rest)
    ∙ elements_read max_array_elements [] s arr rest (omega arith)
