-- ===== src/Protocol/Control.antt =====
-- The control messages of src/vm/protocol.rs: one line of text each, in a frame of its channel.
pub mod Characters
pub mod Lines
pub mod RoundTrip
mod Tests
use Prim.Native.String.{String}
use arapuca.Prelude.{
  ℕ, ◌+◌, ◌-◌, ◌*◌, ◌^◌, List, [], ◌∷◌, ◌++◌, Bool, true, false, not, Option, none, some, Result,
  ok, err, ◌>>=◌, ◌>>◌, reject, ok_or, ltb, ◌==◌, if◌then◌else◌, Bytes, Str, codes, beq,
  strip_prefix,
}
use arapuca.Prelude.Utf8.{str_len}
use arapuca.Prelude.Utf8.Coding.{as_bytes, from_utf8}
use arapuca.Prelude.Decimal.{to_string, parse_unsigned}
use arapuca.Prelude.Signed.{ℤ, print_signed, parse_i32}
use arapuca.Protocol.Io.{IoError, io_error, invalid_data}
use arapuca.Protocol.Frame.{channel_control, write_frame, read_frame}
use arapuca.Protocol.Json.{Failure, error}
use arapuca.Protocol.Request.{ExecRequest, to_json, from_json}

pub data ControlMessage : Type 0 where
  hello : (version : Str) → ControlMessage
  exec : ExecRequest → ControlMessage
  status : (exit_code : ℤ) → ControlMessage
  shutdown ping pong : ControlMessage
  resize : (rows cols : ℕ) → ControlMessage

abbrev pub max_exec_payload : ℕ
max_exec_payload = 64 * 1024

-- The line of a message, without the newline.
unfoldable pub line_of : ControlMessage → Str
line_of (hello version) = codes "HELLO " ++ version
line_of (exec req) = codes "EXEC " ++ to_json req
line_of (status exit_code) = codes "STATUS " ++ print_signed exit_code
line_of shutdown = codes "SHUTDOWN"
line_of ping = codes "PING"
line_of pong = codes "PONG"
line_of (resize rows cols) = codes "RESIZE " ++ (to_string rows ++ b' ' ∷ to_string cols)

unfoldable pub serialize : ControlMessage → Bytes
serialize msg = as_bytes (line_of msg ++ b'\n' ∷ [])

-- `trim_end_matches('\n')`.
unfoldable pub kept : ℕ → Str → Str
kept c [] = if c == b'\n' then [] else c ∷ []
kept c (d ∷ s) = c ∷ d ∷ s

unfoldable pub trim_end_newlines : Str → Str
trim_end_newlines [] = []
trim_end_newlines (c ∷ s) = kept c (trim_end_newlines s)

-- `str::split_once(' ')`.
unfoldable pub split_at_space : Str → Option (Str × Str)
split_at_space [] = none
split_at_space (c ∷ s) =
    let rest = split_at_space s in
    if c == b' '
    then some ([], s)
    else elim rest [ none ↦ none | some (before, after) ↦ some (c ∷ before, after) ]

unfoldable pub parse_exec : Str → Result Failure ControlMessage
parse_exec json = do
  reject (ltb max_exec_payload (str_len json))
      (error invalid_data "EXEC payload exceeds 64 KiB limit")
  req ← from_json json
  ok (exec req)

unfoldable pub parse_status : Str → Result Failure ControlMessage
parse_status code_str = do
  exit_code ← ok_or (parse_i32 code_str) (error invalid_data "invalid STATUS exit code")
  ok (status exit_code)

unfoldable pub parse_resize : Str → Result Failure ControlMessage
parse_resize dims = do
  (rows_str, cols_str) ←
      ok_or (split_at_space dims) (error invalid_data "RESIZE requires <rows> <cols>")
  rows ← ok_or (parse_unsigned (2 ^ 16 - 1) rows_str) (error invalid_data "invalid RESIZE rows")
  cols ← ok_or (parse_unsigned (2 ^ 16 - 1) cols_str) (error invalid_data "invalid RESIZE cols")
  ok (resize rows cols)

-- A branch of `if let Some(rest) = text.strip_prefix(…)`.
unfoldable pub behind_prefix :
    Option Str
    → (Str → Result Failure ControlMessage)
    → Result Failure ControlMessage
    → Result Failure ControlMessage
behind_prefix none found otherwise = otherwise
behind_prefix (some rest) found otherwise = found rest

unfoldable pub parse_line : Str → Result Failure ControlMessage
parse_line text =
    behind_prefix (strip_prefix (codes "HELLO ") text) (λ version. ok (hello version))
      (behind_prefix (strip_prefix (codes "EXEC ") text) parse_exec (
        behind_prefix (strip_prefix (codes "STATUS ") text) parse_status (
          if beq text (codes "SHUTDOWN")
          then ok shutdown
          else if beq text (codes "PING")
          then ok ping
          else if beq text (codes "PONG")
          then ok pong
          else behind_prefix (strip_prefix (codes "RESIZE ") text) parse_resize
              (err (error invalid_data "unknown control message")))))

unfoldable pub parse : Bytes → Result Failure ControlMessage
parse payload = do
  text ← ok_or (from_utf8 payload) (error invalid_data "invalid UTF-8 in control message")
  parse_line (trim_end_newlines text)

-- Appends the message's frame to what was written.
unfoldable pub write_control : Bytes → ControlMessage → Result IoError Bytes
write_control w msg = write_frame w channel_control (serialize msg)

-- An error of the stream as one of the parser's.
unfoldable pub of_stream {ℓ} : {A : Type ℓ} → Result IoError A → Result Failure A
of_stream (ok a) = ok a
of_stream (err (io_error kind msg)) = err (error kind msg)

-- The message and what is left of the stream.
unfoldable pub read_control : Bytes → Result Failure (ControlMessage × Bytes)
read_control r = do
  ((channel, payload), rest) ← of_stream (read_frame r)
  reject (not (channel == channel_control)) (error invalid_data "expected control channel")
  msg ← parse payload
  ok (msg, rest)
