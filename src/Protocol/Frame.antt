-- ===== src/Protocol/Frame.antt =====
-- The frames of src/vm/protocol.rs: one byte of channel, four of length, most significant first, and the payload.
pub mod RoundTrip
use arapuca.Prelude.{
  ℕ, ◌+◌, ◌*◌, ◌/◌, ◌%◌, ◌^◌, List, [], ◌∷◌, ◌++◌, Bool, true, false, Result, ok, err, ◌>>=◌, ◌>>◌,
  reject, ltb, ◌==◌, if◌then◌else◌, Bytes, length,
}
use arapuca.Protocol.Io.{IoError, io_error, invalid_input, invalid_data, read_exact}

abbrev pub channel_control : ℕ
channel_control = 3

abbrev pub frame_header_size : ℕ
frame_header_size = 5

abbrev pub max_control_payload : ℕ
max_control_payload = 64 * 1024

abbrev pub max_data_payload : ℕ
max_data_payload = 1024 * 1024

-- The largest payload of a channel.
unfoldable pub max_payload : ℕ → ℕ
max_payload channel = if channel == channel_control then max_control_payload else max_data_payload

-- `u32::to_be_bytes` and `u32::from_be_bytes`.
abbrev pub to_be_bytes : ℕ → Bytes
to_be_bytes n = (n / 2 ^ 24 % 256) ∷ (n / 2 ^ 16 % 256) ∷ (n / 2 ^ 8 % 256) ∷ (n % 256) ∷ []

abbrev pub from_be_bytes : ℕ → ℕ → ℕ → ℕ → ℕ
from_be_bytes a b c d = a * 2 ^ 24 + b * 2 ^ 16 + c * 2 ^ 8 + d

-- Appends the frame to what was written.
unfoldable pub write_frame : Bytes → (channel : ℕ) → Bytes → Result IoError Bytes
write_frame w channel payload = do
  reject (ltb channel_control channel) (io_error invalid_input "invalid channel")
  reject (ltb (max_payload channel) (length payload)) (io_error invalid_input "payload too large")
  let len = length payload % 2 ^ 32
  ok (w ++ (channel ∷ to_be_bytes len ++ payload))

abbrev pub Frame : Type 0
Frame = ℕ × Bytes

-- The header's five bytes: the channel and the announced length.
abbrev pub parse_header : Bytes → Result IoError (ℕ × ℕ)
parse_header (channel ∷ a ∷ b ∷ c ∷ d ∷ []) = do
  reject (ltb channel_control channel) (io_error invalid_data "invalid channel")
  let len = from_be_bytes a b c d
  reject (ltb (max_payload channel) len) (io_error invalid_data "frame too large")
  ok (channel, len)
parse_header _ = err (io_error invalid_data "invalid channel")

-- The frame and what is left of the stream.
unfoldable pub read_frame : Bytes → Result IoError (Frame × Bytes)
read_frame r = do
  (header, r') ← read_exact frame_header_size r
  (channel, len) ← parse_header header
  (payload, rest) ← read_exact len r'
  ok ((channel, payload), rest)
