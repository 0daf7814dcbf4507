-- ===== src/Connect/Request.antt =====
-- `parse_connect_request` of src/bridge.rs. The stream is the list of the bytes that are left of it,
-- the header's text the list of its characters.
pub mod Names
pub mod Sound
mod Tests
use Prim.Native.String.{String}
use arapuca.Prelude.{
  ℕ, zero, suc, ◌+◌, List, [], ◌∷◌, ◌++◌, Bool, true, false, not, ◌&&◌, ◌||◌, Option, none, some,
  Result, ok, err, ◌>>=◌, ◌>>◌, reject, ok_or, leb, ◌==◌, if◌then◌else◌, Bytes, Str, codes, beq,
  all, map, is_ascii_alphanumeric,
}
use arapuca.Prelude.Cut.{max_u16, rsplit_once}
use arapuca.Prelude.Decimal.{parse_unsigned}
use arapuca.Prelude.Trim.{split_whitespace}
use arapuca.Prelude.Utf8.Coding.{from_utf8}
use arapuca.Protocol.Io.{IoError, io_error, invalid_data, eof}
use arapuca.Connect.{ends_with}

abbrev pub max_connect_request : ℕ
max_connect_request = 2048

abbrev pub header_end : Bytes
header_end = b'\r' ∷ b'\n' ∷ b'\r' ∷ b'\n' ∷ []

abbrev malformed : String → IoError
malformed msg = io_error invalid_data msg

-- The loop that reads byte by byte: the header with its end, and what is left of the stream.
unfoldable pub read_header : ℕ → Bytes → Bytes → Result IoError (Bytes × Bytes)
read_header zero buf s = err (malformed "CONNECT request too large or missing terminator")
read_header (suc k) buf [] = err eof
read_header (suc k) buf (b ∷ s) =
    let more = read_header k (buf ++ b ∷ []) s in
    if ends_with header_end (buf ++ b ∷ []) then ok (buf ++ b ∷ [], s) else more

abbrev pub longer_line : ℕ → Option Str → Option Str
longer_line c none = none
longer_line c (some s) = some (c ∷ s)

-- The text up to the first newline, if there is one.
unfoldable pub ended_line : Str → Option Str
ended_line [] = none
ended_line (c ∷ s) = let rest = longer_line c (ended_line s) in if c == b'\n' then some [] else rest

-- A line without the carriage return at its end.
unfoldable pub strip_return : Str → Str
strip_return [] = []
strip_return (c ∷ []) = if c == b'\r' then [] else c ∷ []
strip_return (c ∷ d ∷ s) = c ∷ strip_return (d ∷ s)

-- The first of `str::lines`.
unfoldable pub first_line : Str → Str
first_line s = elim (ended_line s) [ none ↦ s | some line ↦ strip_return line ]

abbrev pub to_ascii_lowercase : ℕ → ℕ
to_ascii_lowercase c = if leb b'A' c && leb c b'Z' then c + 32 else c

abbrev pub eq_ignore_ascii_case : Str → Str → Bool
eq_ignore_ascii_case s t = beq (map to_ascii_lowercase s) (map to_ascii_lowercase t)

abbrev pub is_host_char : ℕ → Bool
is_host_char c = is_ascii_alphanumeric c || c == b'-' || c == b'.'

-- `strip_suffix('.').unwrap_or(host)`.
unfoldable pub strip_dot : Str → Str
strip_dot [] = []
strip_dot (c ∷ []) = if c == b'.' then [] else c ∷ []
strip_dot (c ∷ d ∷ s) = c ∷ strip_dot (d ∷ s)

unfoldable pub begins_with_dot : Str → Bool
begins_with_dot [] = false
begins_with_dot (c ∷ s) = c == b'.'

-- `contains("..")`.
unfoldable pub has_two_dots : Str → Bool
has_two_dots [] = false
has_two_dots (c ∷ s) = (c == b'.' && begins_with_dot s) || has_two_dots s

-- The checks of the host, which is returned in lower case.
unfoldable pub check_host : Str → Result IoError Str
check_host host = do
  reject (not (all is_host_char host)) (malformed "invalid hostname characters")
  reject
      (beq (strip_dot host) [] || begins_with_dot (strip_dot host) || has_two_dots (strip_dot host))
      (malformed "invalid hostname")
  ok (map to_ascii_lowercase (strip_dot host))

unfoldable pub parse_target : Str → Result IoError (Str × ℕ)
parse_target target = do
  (host, port_str) ← ok_or (rsplit_once b':' target) (malformed "CONNECT target missing port")
  reject (beq host []) (malformed "CONNECT target has empty host")
  port ← ok_or (parse_unsigned max_u16 port_str) (malformed "invalid CONNECT port")
  reject (port == 0) (malformed "CONNECT port must be 1-65535")
  name ← check_host host
  ok (name, port)

unfoldable pub parse_parts : List Str → Result IoError (Str × ℕ)
parse_parts (method ∷ target ∷ version ∷ []) = do
  reject (not (eq_ignore_ascii_case method (codes "CONNECT"))) (malformed "expected CONNECT method")
  reject (not (beq version (codes "HTTP/1.0")) && not (beq version (codes "HTTP/1.1")))
      (malformed "unsupported HTTP version")
  parse_target target
parse_parts _ = err (malformed "malformed CONNECT request line")

unfoldable pub parse_head : Bytes → Result IoError (Str × ℕ)
parse_head buf = do
  header ← ok_or (from_utf8 buf) (malformed "CONNECT request not valid UTF-8")
  parse_parts (split_whitespace (first_line header))

-- The target's host and port, and what is left of the stream.
unfoldable pub parse_connect_request : Bytes → Result IoError ((Str × ℕ) × Bytes)
parse_connect_request stream = do
  (buf, rest) ← read_header max_connect_request [] stream
  target ← parse_head buf
  ok (target, rest)
