-- ===== src/Protocol/Request/Values.antt =====
-- The values of a request's fields, read by `from_json` of src/vm/protocol.rs where `to_json` writes them.
use arapuca.Prelude.{
  ℕ, ◌^◌, ◌≤◌, ◌<◌, ◌≡◌, refl, List, [], ◌∷◌, ◌++◌, true, false, none, some, ok, Str, codes, length,
  arith, is_ascii_digit,
}
use arapuca.Prelude.Decimal.{to_string, IsDigit, to_string-front}
use arapuca.Protocol.Json.{
  skip_ws, json_encode_string, json_encode_string_array, is_ascii_whitespace,
}
use arapuca.Protocol.Json.Strings.{
  parse_string-json_encode_string, parse_string_array-json_encode_string_array,
}
use arapuca.Protocol.Json.Values.{parse_bool, bool_of}
use arapuca.Protocol.Request.{Fields, set_once, read_field}
use arapuca.Protocol.Request.Rounds.{parse_u16-to_string}

-- The values of a request's fields, read where they are written.
module _ (f : Fields) where
  pub read_cmd :
      (v rest : Str)
      → f.cmd ≡ none
      → read_field f (codes "cmd") (json_encode_string v ++ rest)
        ≡ ok (record f { cmd = some v }, rest)
  unfolding read_field set_once
  read_cmd v rest h = rw (h, parse_string-json_encode_string v rest) refl

  pub read_user :
      (v rest : Str)
      → f.user ≡ none
      → read_field f (codes "user") (json_encode_string v ++ rest)
        ≡ ok (record f { user = some v }, rest)
  unfolding read_field set_once
  read_user v rest h = rw (h, parse_string-json_encode_string v rest) refl

  pub read_args :
      (v : List Str) (rest : Str)
      → f.args ≡ none
      → length v ≤ 4096
      → read_field f (codes "args") (json_encode_string_array v ++ rest)
        ≡ ok (record f { args = some v }, rest)
  unfolding read_field set_once
  read_args v rest h k = rw (h, parse_string_array-json_encode_string_array v rest k) refl

  pub read_env :
      (v : List Str) (rest : Str)
      → f.env ≡ none
      → length v ≤ 4096
      → read_field f (codes "env") (json_encode_string_array v ++ rest)
        ≡ ok (record f { env = some v }, rest)
  unfolding read_field set_once
  read_env v rest h k = rw (h, parse_string_array-json_encode_string_array v rest k) refl

  pub read_tty :
      (rest : Str)
      → f.tty ≡ none
      → read_field f (codes "tty") (codes "true" ++ rest) ≡ ok (record f { tty = some true }, rest)
  unfolding read_field set_once parse_bool bool_of
  read_tty rest h = rw h refl

  pub read_rows :
      (n : ℕ) (rest : Str)
      → f.rows ≡ none
      → n < 2 ^ 16
      → read_field f (codes "rows") (to_string n ++ b',' ∷ rest)
        ≡ ok (record f { rows = some n }, b',' ∷ rest)
  unfolding read_field set_once
  read_rows n rest h k = rw (h, parse_u16-to_string n b',' rest k refl) refl

  pub read_cols :
      (n : ℕ) (rest : Str)
      → f.cols ≡ none
      → n < 2 ^ 16
      → read_field f (codes "cols") (to_string n ++ b'}' ∷ rest)
        ≡ ok (record f { cols = some n }, b'}' ∷ rest)
  unfolding read_field set_once
  read_cols n rest h k = rw (h, parse_u16-to_string n b'}' rest k refl) refl

-- A value is not white space.
pub skip_ws-array :
    (v : List Str) (rest : Str)
    → skip_ws (json_encode_string_array v ++ rest) ≡ json_encode_string_array v ++ rest
unfolding skip_ws json_encode_string_array
skip_ws-array [] rest = refl
skip_ws-array (s ∷ v) rest = refl

digit_is_solid : (c : ℕ) → is_ascii_digit c ≡ true → is_ascii_whitespace c ≡ false
digit_is_solid c h = ground arith

pub skip_ws-to_string : (n : ℕ) (rest : Str) → skip_ws (to_string n ++ rest) ≡ to_string n ++ rest
unfolding skip_ws IsDigit
skip_ws-to_string n rest =
    let (c, s, digit, e) = to_string-front n in rw (e, digit_is_solid c digit) refl
