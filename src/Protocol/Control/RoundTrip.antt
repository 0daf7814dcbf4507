-- ===== src/Protocol/Control/RoundTrip.antt =====
-- The control messages of src/vm/protocol.rs, written to a stream and read back.
use arapuca.Prelude.{
  ℕ, ◌+◌, ◌^◌, ◌-◌, ◌≤◌, ◌<◌, ◌≡◌, ◌≢◌, refl, ◌∙◌, [], ◌∷◌, ◌++◌, false, some, ok, ltb, ◌==◌, Bytes,
  Str, codes, All, All-append, arith, length,
}
use arapuca.Prelude.Utf8.{str_len, char_len}
use arapuca.Prelude.Utf8.Coding.RoundTrip.{IsScalar, from_utf8-as_bytes, as_bytes-length}
use arapuca.Prelude.Decimal.{
  to_string, parse_unsigned-to_string, IsDigit, digit-ne, to_string-IsDigit,
}
use arapuca.Prelude.Signed.{ℤ, IsI32, print_signed, parse_i32-print_signed}
use arapuca.Protocol.Frame.{channel_control, max_payload}
use arapuca.Protocol.Frame.RoundTrip.{encode, IsFrame, write_frame_iff, read_frame-encode}
use arapuca.Protocol.Request.{ExecRequest, to_json}
use arapuca.Protocol.Request.RoundTrip.{shown, from_json-to_json}
use arapuca.Protocol.Control.{
  ControlMessage, hello, exec, status, shutdown, ping, pong, resize, line_of, serialize,
  max_exec_payload, split_at_space, parse_exec, parse_status, parse_resize, behind_prefix,
  parse_line, parse, write_control, of_stream, read_control,
}
use arapuca.Protocol.Control.Characters.{IsText, is_ascii-IsText}
use arapuca.Protocol.Control.Lines.{IsSendable, trim_end_newlines-EndsWell, line_of-IsLine}

-- The message as it arrives: a request as `from_json` reads it.
abbrev pub received : ControlMessage → ControlMessage
received (hello version) = hello version
received (exec req) = exec (shown req)
received (status exit_code) = status exit_code
received shutdown = shutdown
received ping = ping
received pong = pong
received (resize rows cols) = resize rows cols

split_at_space-digits :
    (digits s : Str) → All IsDigit digits → split_at_space (digits ++ b' ' ∷ s) ≡ some (digits, s)
unfolding split_at_space
split_at_space-digits [] s h = refl
split_at_space-digits (c ∷ digits) s (hc, h) =
    let other : (c == b' ') ≡ false = not_same c b' ' (digit-ne c b' ' hc refl) in
    rw (other, split_at_space-digits digits s h) refl
  where
    not_same : (a b : ℕ) → a ≢ b → (a == b) ≡ false
    not_same a b k = ground arith

parse_resize-line :
    (rows cols : ℕ)
    → rows < 2 ^ 16
    → cols < 2 ^ 16
    → parse_resize (to_string rows ++ b' ' ∷ to_string cols) ≡ ok (resize rows cols)
unfolding parse_resize
parse_resize-line rows cols h k =
    rw
      (
        split_at_space-digits (to_string rows) (to_string cols) (to_string-IsDigit rows),
        parse_unsigned-to_string (2 ^ 16 - 1) rows (omega arith),
        parse_unsigned-to_string (2 ^ 16 - 1) cols (omega arith),
      )
      refl

parse_exec-to_json :
    (req : ExecRequest)
    → length req.args ≤ 4096
    → length req.env ≤ 4096
    → req.rows < 2 ^ 16
    → req.cols < 2 ^ 16
    → str_len (to_json req) ≤ max_exec_payload
    → parse_exec (to_json req) ≡ ok (exec (shown req))
unfolding parse_exec
parse_exec-to_json req args env rows cols q =
    let fits : ltb max_exec_payload (str_len (to_json req)) ≡ false = ground arith in
    rw (fits, from_json-to_json req args env rows cols) refl

parse_status-print_signed : (n : ℤ) → IsI32 n → parse_status (print_signed n) ≡ ok (status n)
unfolding parse_status
parse_status-print_signed n h = rw (parse_i32-print_signed n h) refl

str_len-append : (s t : Str) → str_len (s ++ t) ≡ str_len s + str_len t
str_len-append [] t = omega arith
str_len-append (c ∷ s) t = omega (arith, str_len-append s t)

-- What a line says, if the JSON of a request is not too long.
parse_line-line_of :
    (msg : ControlMessage)
    → IsSendable msg
    → str_len (line_of msg) ≤ max_exec_payload
    → parse_line (line_of msg) ≡ ok (received msg)
unfolding parse_line line_of behind_prefix
parse_line-line_of (hello version) h q = refl
parse_line-line_of (exec req) (_, args, env, rows, cols) q =
    parse_exec-to_json req args env rows cols
      (omega (arith, str_len-append (codes "EXEC ") (to_json req)))
parse_line-line_of (status n) h q = parse_status-print_signed n h
parse_line-line_of shutdown h q = refl
parse_line-line_of ping h q = refl
parse_line-line_of pong h q = refl
parse_line-line_of (resize rows cols) (h, k) q = parse_resize-line rows cols h k

newline-IsText : IsText (b'\n' ∷ [])
newline-IsText = is_ascii-IsText (b'\n' ∷ []) refl

parse-serialize :
    (msg : ControlMessage)
    → IsSendable msg
    → str_len (line_of msg) ≤ max_exec_payload
    → parse (serialize msg) ≡ ok (received msg)
unfolding parse serialize
parse-serialize msg h q =
    let (text, ends) = line_of-IsLine msg h in
    rw
      (
        from_utf8-as_bytes (line_of msg ++ b'\n' ∷ [])
            (All-append IsScalar (line_of msg) (b'\n' ∷ []) text newline-IsText),
        trim_end_newlines-EndsWell (line_of msg) ends,
      )
      (parse_line-line_of msg h q)

serialize-length : (msg : ControlMessage) → length (serialize msg) ≡ str_len (line_of msg) + 1
unfolding serialize char_len
serialize-length msg =
    as_bytes-length (line_of msg ++ b'\n' ∷ []) ∙ str_len-append (line_of msg) (b'\n' ∷ [])

read_control-encode :
    (payload rest : Bytes) (msg : ControlMessage)
    → IsFrame (channel_control, payload)
    → parse payload ≡ ok msg
    → read_control (encode (channel_control, payload) ++ rest) ≡ ok (msg, rest)
unfolding read_control of_stream
read_control-encode payload rest msg frame h =
    rw (read_frame-encode channel_control payload rest frame) (rw h refl)

-- A control message that the writer accepts is read back from what it appended to the stream, and
-- what follows it is left. The texts of the message are Unicode; a version does not end in a newline,
-- an exit code fits into an `i32`, a size of the terminal into 16 bits, and the lists of a request
-- have at most 4096 elements. The size of a terminal is read as 0 if a request has no terminal or a
-- part of its size is 0.
pub read_control-write_control :
    (msg : ControlMessage) (w w' rest : Bytes)
    → IsSendable msg
    → write_control w msg ≡ ok w'
    → (sent : Bytes) × (w' ≡ w ++ sent) × (read_control (sent ++ rest) ≡ ok (received msg, rest))
unfolding write_control max_payload
read_control-write_control msg w w' rest h e =
    let (frame, same) = (write_frame_iff w w' channel_control (serialize msg)).0 e in
    (
      encode (channel_control, serialize msg),
      same,
      read_control-encode (serialize msg) rest (received msg) frame
          (parse-serialize msg h (omega (arith, serialize-length msg, frame.1))),
    )
