-- ===== src/Protocol/Tests.antt =====
-- Runs of src/vm/protocol.rs, and instances of its theorems.
use arapuca.Prelude.{
  ℕ, zero, suc, ◌≡◌, ◌↔◌, refl, [], ◌∷◌, ◌++◌, true, ok, err, Bytes, Str, codes, All, arith,
}
use arapuca.Prelude.Utf8.{char_len}
use arapuca.Protocol.Io.{read_exact}
use arapuca.Protocol.Frame.{write_frame, read_frame, max_payload}
use arapuca.Protocol.Frame.RoundTrip.{
  write_frame_iff, read_frame-encode, read_frame_sound, IsFrame, IsReadFrom, IsByte, encode,
}
use arapuca.Protocol.Nonce.{nonce_eq, nonce_eq_iff, write_nonce, read_nonce, read_nonce-write_nonce}
use arapuca.Protocol.Json.{
  panic, encode_chars, json_encode_string, json_encode_string_array, parse_string,
  parse_string_array,
}
use arapuca.Protocol.Json.Strings.{
  parse_string-json_encode_string, parse_string_array-json_encode_string_array,
}
use arapuca.Protocol.Json.Panics.{parse_string_panics}

abbrev hello : Bytes
hello = codes "hello"

abbrev hello_frame : Bytes
hello_frame = 1 ∷ 0 ∷ 0 ∷ 0 ∷ 5 ∷ hello

hello_written : write_frame [] 1 hello ≡ ok hello_frame
unfolding write_frame max_payload
hello_written = refl

write_frame_iff_example :
    (write_frame [] 1 hello ≡ ok hello_frame)
    ↔ (IsFrame (1, hello) × (hello_frame ≡ [] ++ encode (1, hello)))
write_frame_iff_example = write_frame_iff [] hello_frame 1 hello

hello-IsFrame : IsFrame (1, hello)
unfolding max_payload
hello-IsFrame = (omega arith, omega arith)

read_frame-encode_example :
    read_frame (encode (1, hello) ++ codes "more") ≡ ok ((1, hello), codes "more")
read_frame-encode_example = read_frame-encode 1 hello (codes "more") hello-IsFrame

hello_bytes : All IsByte hello_frame
hello_bytes = ground arith

read_frame_sound_example : IsReadFrom hello_frame ((1, hello), [])
unfolding read_frame read_exact max_payload
read_frame_sound_example = read_frame_sound hello_frame ((1, hello), []) hello_bytes refl

-- Zeros, `n` of them.
abbrev zeros : ℕ → Bytes
zeros zero = []
zeros (suc n) = 0 ∷ zeros n

nonce_eq_iff_example : (nonce_eq (zeros 32) (7 ∷ zeros 31) ≡ true) ↔ (zeros 32 ≡ 7 ∷ zeros 31)
nonce_eq_iff_example = nonce_eq_iff (zeros 32) (7 ∷ zeros 31) refl refl

zeros_read_back : read_nonce (write_nonce [] (zeros 32) ++ hello) ≡ ok (zeros 32, hello)
zeros_read_back = read_nonce-write_nonce (zeros 32) hello refl

-- A quote, a bell and a character of three bytes.
abbrev odd_text : Str
odd_text = 0x22 ∷ 0x07 ∷ 0x20ac ∷ []

parse_string-json_encode_string_example :
    parse_string (json_encode_string odd_text ++ codes ",") ≡ ok (odd_text, codes ",")
parse_string-json_encode_string_example = parse_string-json_encode_string odd_text (codes ",")

parse_string_array-json_encode_string_array_example :
    parse_string_array (json_encode_string_array (odd_text ∷ hello ∷ []) ++ codes "}")
    ≡ ok (odd_text ∷ hello ∷ [], codes "}")
parse_string_array-json_encode_string_array_example =
    parse_string_array-json_encode_string_array (odd_text ∷ hello ∷ []) (codes "}") (omega arith)

-- "12" and then characters of three bytes.
abbrev cut_text : Str
cut_text = b'1' ∷ b'2' ∷ 0x20ac ∷ 0x20ac ∷ []

parse_string_panics_example :
    parse_string (b'"' ∷ (encode_chars (codes "a\"") ++ b'\\' ∷ b'u' ∷ cut_text)) ≡ err panic
unfolding char_len
parse_string_panics_example =
    parse_string_panics (codes "a\"") (codes "12") 0x20ac (0x20ac ∷ []) (omega arith) (omega arith)
