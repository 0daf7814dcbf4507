-- ===== src/Prelude/Utf8/Coding.antt =====
-- UTF-8: the bytes of a text (`str::as_bytes`), and the text of bytes (`str::from_utf8`).
pub mod RoundTrip
use Prim.Native.Nat.{ℕ, zero, suc, ◌+◌, ◌-◌, ◌*◌, ◌/◌, ◌%◌, ◌≤◌, ◌<◌}
use mathlib.Core.Path.{◌≡◌, refl, ap, ◌∙◌}
use mathlib.Core.Logic.{inl, inr}
use mathlib.Core.Bool.{Bool, true, false, ◌&&◌, ◌||◌}
use mathlib.Core.Option.{Option, none, some}
use mathlib.Core.List.{List, [], ◌∷◌, ◌++◌, append_assoc}
use native.Mathlib.Omega.{arith}
use arapuca.Prelude.Tests.{ltb, leb, ◌==◌, if◌then◌else◌, lt-cases}
use arapuca.Prelude.Lists.{All, length, length-append}
use arapuca.Prelude.Texts.{Bytes, Str}
use arapuca.Prelude.Utf8.{char_len, str_len}

-- A Unicode scalar value, which is what a `char` is.
abbrev pub is_scalar : ℕ → Bool
is_scalar c = ltb c 0xd800 || (leb 0xe000 c && ltb c 0x11_0000)

unfoldable pub char_bytes : ℕ → Bytes
char_bytes c =
    if ltb c 0x80
    then c ∷ []
    else if ltb c 0x800
    then (0xc0 + c / 64) ∷ (0x80 + c % 64) ∷ []
    else if ltb c 0x1_0000
    then (0xe0 + c / 4096) ∷ (0x80 + c / 64 % 64) ∷ (0x80 + c % 64) ∷ []
    else (0xf0 + c / 26_2144) ∷ (0x80 + c / 4096 % 64) ∷ (0x80 + c / 64 % 64) ∷ (0x80 + c % 64) ∷ []

unfoldable pub as_bytes : Str → Bytes
as_bytes [] = []
as_bytes (c ∷ s) = char_bytes c ++ as_bytes s

-- Where the decoder stands: the bytes that a character still needs, the value so far, and the least
-- value that needs as many bytes.
pub record Decoder : Type 0 where
  pub pending : ℕ
  pub value : ℕ
  pub least : ℕ

abbrev pub waiting : ℕ → ℕ → ℕ → Decoder
waiting pending value least = record { pending = pending; value = value; least = least }

abbrev pub idle : Decoder
idle = waiting 0 0 0

pub data Found : Type 0 where
  character : ℕ → Found
  partial : Decoder → Found
  malformed : Found

unfoldable pub first_byte : ℕ → Found
first_byte b =
    if ltb b 0x80
    then character b
    else if leb 0xc2 b && leb b 0xdf
    then partial (waiting 1 (b - 0xc0) 0x80)
    else if leb 0xe0 b && leb b 0xef
    then partial (waiting 2 (b - 0xe0) 0x800)
    else if leb 0xf0 b && leb b 0xf4
    then partial (waiting 3 (b - 0xf0) 0x1_0000)
    else malformed

unfoldable pub last_of : ℕ → ℕ → Found
last_of least c = if leb least c && is_scalar c then character c else malformed

unfoldable pub next_byte : ℕ → ℕ → ℕ → ℕ → Found
next_byte pending value least b =
    if leb 0x80 b && leb b 0xbf
    then (if pending == 1
        then last_of least (value * 64 + (b - 0x80))
        else partial (waiting (pending - 1) (value * 64 + (b - 0x80)) least))
    else malformed

unfoldable pub feed : Decoder → ℕ → Found
feed d b = if d.pending == 0 then first_byte b else next_byte d.pending d.value d.least b

abbrev pub put_front : ℕ → Option Str → Option Str
put_front c none = none
put_front c (some s) = some (c ∷ s)

unfoldable pub go_on_from : Found → (Decoder → Option Str) → Option Str
go_on_from (character c) rest = put_front c (rest idle)
go_on_from (partial d) rest = rest d
go_on_from malformed rest = none

unfoldable pub decode : Decoder → Bytes → Option Str
decode d [] = if d.pending == 0 then some [] else none
decode d (b ∷ s) = go_on_from (feed d b) (λ d'. decode d' s)

unfoldable pub from_utf8 : Bytes → Option Str
from_utf8 s = decode idle s
