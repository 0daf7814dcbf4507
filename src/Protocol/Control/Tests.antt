-- ===== src/Protocol/Control/Tests.antt =====
-- Runs of the requests and the control messages of src/vm/protocol.rs, and instances of their theorems.
use arapuca.Prelude.{
  ℕ, ◌≡◌, ◌≢◌, refl, List, [], ◌∷◌, ◌++◌, Bool, true, false, Result, ok, err, Bytes, Str, codes,
  All, arith,
}
use arapuca.Prelude.Utf8.Coding.{
  as_bytes, char_bytes, from_utf8, decode, feed, first_byte, next_byte, last_of, go_on_from,
}
use arapuca.Prelude.Decimal.{to_string, print_digits, read_digits, fitting}
use arapuca.Prelude.Signed.{negsuc, parse_i32, negated, magnitude}
use arapuca.Protocol.Frame.{channel_control, write_frame, max_payload}
use arapuca.Protocol.Frame.RoundTrip.{encode}
use arapuca.Protocol.Json.{
  out_of_rounds, json_encode_string, encode_chars, encode_char, json_encode_string_array,
  encode_more, skip_ws,
}
use arapuca.Protocol.Json.Values.{
  skip_value, skip, skip_step, skip_opened, unless_closed, go_on, next_of, skip_scalar, opening,
  closes, parse_u64, span_digits, number_in,
}
use arapuca.Protocol.Request.{ExecRequest, tty_json, to_json, from_json}
use arapuca.Protocol.Request.Enough.{from_json-ends}
use arapuca.Protocol.Control.{
  exec, status, line_of, serialize, write_control, read_control, parse, parse_line, behind_prefix,
  parse_status, trim_end_newlines, kept,
}
use arapuca.Protocol.Control.Characters.{is_ascii-IsText}
use arapuca.Protocol.Control.RoundTrip.{read_control-write_control}

abbrev run_ls : ExecRequest
run_ls = record {
  cmd = codes "ls";
  args = codes "a\"b" ∷ [];
  env = [];
  user = codes "root";
  tty = true;
  rows = 24;
  cols = 80;
}

printed :
    to_json run_ls
    ≡ codes
        "{\"cmd\":\"ls\",\"args\":[\"a\\\"b\"],\"env\":[],\"user\":\"root\",\"tty\":true,\"rows\":24,\"cols\":80}"
unfolding to_json tty_json json_encode_string encode_chars encode_char json_encode_string_array
    encode_more to_string print_digits
printed = refl

nested_is_skipped : skip_value (codes "[1,[2, 3 ],[]],x") ≡ ok (codes ",x")
unfolding skip_value skip skip_step skip_opened unless_closed go_on next_of skip_scalar opening
    closes skip_ws parse_u64 span_digits number_in fitting read_digits
nested_is_skipped = refl

euro : from_utf8 (0xe2 ∷ 0x82 ∷ 0xac ∷ []) ≡ arapuca.Prelude.some (0x20ac ∷ [])
unfolding from_utf8 decode feed first_byte next_byte last_of go_on_from
euro = refl

surrogate_is_refused : from_utf8 (0xed ∷ 0xa0 ∷ 0x80 ∷ []) ≡ arapuca.Prelude.none
unfolding from_utf8 decode feed first_byte next_byte last_of go_on_from
surrogate_is_refused = refl

failed_status : parse (codes "STATUS -1\n") ≡ ok (status (negsuc 0))
unfolding parse parse_line behind_prefix parse_status trim_end_newlines kept from_utf8 decode feed
    first_byte go_on_from parse_i32 negated magnitude fitting read_digits
failed_status = refl

from_json-ends_example : from_json (codes "{\"x\":[[1],{\"y\":null}]}") ≢ err out_of_rounds
from_json-ends_example = from_json-ends (codes "{\"x\":[[1],{\"y\":null}]}")

sent : write_control [] (exec run_ls) ≡ ok (encode (channel_control, serialize (exec run_ls)))
unfolding write_control write_frame max_payload serialize line_of as_bytes char_bytes to_json
    tty_json json_encode_string encode_chars encode_char json_encode_string_array encode_more
    to_string print_digits
sent = refl

read_control-write_control_example :
    (sent : Bytes) × (encode (channel_control, serialize (exec run_ls)) ≡ sent)
    × (read_control (sent ++ 7 ∷ []) ≡ ok (exec run_ls, 7 ∷ []))
read_control-write_control_example =
    read_control-write_control (exec run_ls) [] (encode (channel_control, serialize (exec run_ls)))
      (7 ∷ [])
      (
        (
          is_ascii-IsText (codes "ls") refl,
          (is_ascii-IsText (codes "a\"b") refl, tt),
          tt,
          is_ascii-IsText (codes "root") refl,
        ),
        omega arith,
        omega arith,
        omega arith,
        omega arith,
      )
      sent
