-- ===== src/Prelude/Utf8/Coding/RoundTrip.antt =====
-- The bytes of a text are read back as the text.
use Prim.Native.Nat.{ℕ, suc, ◌+◌, ◌-◌, ◌*◌, ◌/◌, ◌%◌, ◌≤◌, ◌<◌}
use mathlib.Core.Path.{◌≡◌, refl, ap, ◌∙◌}
use mathlib.Core.Logic.{inl, inr}
use mathlib.Core.Bool.{true, false, ◌&&◌}
use mathlib.Core.Option.{some}
use mathlib.Core.List.{[], ◌∷◌, ◌++◌}
use native.Mathlib.Omega.{arith}
use arapuca.Prelude.Tests.{ltb, leb, ◌==◌, lt-cases}
use arapuca.Prelude.Lists.{All, length, length-append}
use arapuca.Prelude.Texts.{Bytes, Str}
use arapuca.Prelude.Utf8.{char_len, str_len}
use arapuca.Prelude.Utf8.Coding.{
  is_scalar, char_bytes, as_bytes, Decoder, waiting, idle, character, partial, first_byte, last_of,
  next_byte, feed, put_front, go_on_from, decode, from_utf8,
}

decode-partial :
    (d d' : Decoder) (b : ℕ) (s : Bytes) → feed d b ≡ partial d' → decode d (b ∷ s) ≡ decode d' s
unfolding decode go_on_from
decode-partial d d' b s e = rw e refl

decode-character :
    (d : Decoder) (b c : ℕ) (s : Bytes)
    → feed d b ≡ character c
    → decode d (b ∷ s) ≡ put_front c (decode idle s)
unfolding decode go_on_from
decode-character d b c s e = rw e refl

-- One character of each width.
decode-one : (c : ℕ) (s : Bytes) → c < 0x80 → decode idle (c ∷ s) ≡ put_front c (decode idle s)
unfolding feed first_byte
decode-one c s h = decode-character idle c c s (ground arith)

minus : (a x : ℕ) → a + x - a ≡ x
minus a x = omega arith

first_of_two : (x : ℕ) → 2 ≤ x → x < 32 → feed idle (0xc0 + x) ≡ partial (waiting 1 x 0x80)
unfolding feed first_byte
first_of_two x h k =
    let a : ltb (0xc0 + x) 0x80 ≡ false = ground arith in
    let b : (leb 0xc2 (0xc0 + x) && leb (0xc0 + x) 0xdf) ≡ true = ground arith in
    rw (a, b, minus 0xc0 x) refl

first_of_three : (x : ℕ) → x < 16 → feed idle (0xe0 + x) ≡ partial (waiting 2 x 0x800)
unfolding feed first_byte
first_of_three x h =
    let a : ltb (0xe0 + x) 0x80 ≡ false = ground arith in
    let b : (leb 0xc2 (0xe0 + x) && leb (0xe0 + x) 0xdf) ≡ false = ground arith in
    let c : (leb 0xe0 (0xe0 + x) && leb (0xe0 + x) 0xef) ≡ true = ground arith in
    rw (a, b, c, minus 0xe0 x) refl

first_of_four : (x : ℕ) → x < 5 → feed idle (0xf0 + x) ≡ partial (waiting 3 x 0x1_0000)
unfolding feed first_byte
first_of_four x h =
    let a : ltb (0xf0 + x) 0x80 ≡ false = ground arith in
    let b : (leb 0xc2 (0xf0 + x) && leb (0xf0 + x) 0xdf) ≡ false = ground arith in
    let c : (leb 0xe0 (0xf0 + x) && leb (0xf0 + x) 0xef) ≡ false = ground arith in
    let d : (leb 0xf0 (0xf0 + x) && leb (0xf0 + x) 0xf4) ≡ true = ground arith in
    rw (a, b, c, d, minus 0xf0 x) refl

-- A byte in the middle of a character.
middle :
    (p v l y : ℕ)
    → y < 64
    → feed (waiting (suc (suc p)) v l) (0x80 + y) ≡ partial (waiting (suc p) (v * 64 + y) l)
unfolding feed next_byte
middle p v l y h =
    let a : (leb 0x80 (0x80 + y) && leb (0x80 + y) 0xbf) ≡ true = ground arith in
    let b : (suc (suc p) == 0) ≡ false = ground arith in
    let c : (suc (suc p) == 1) ≡ false = ground arith in
    let d : suc (suc p) - 1 ≡ suc p = omega arith in rw (b, a, c, d, minus 0x80 y) refl

-- The last byte of a character.
last :
    (v l y c : ℕ)
    → y < 64
    → v * 64 + y ≡ c
    → l ≤ c
    → is_scalar c ≡ true
    → feed (waiting 1 v l) (0x80 + y) ≡ character c
unfolding feed next_byte last_of
last v l y c h e q k =
    let a : (leb 0x80 (0x80 + y) && leb (0x80 + y) 0xbf) ≡ true = ground arith in
    let b : leb l c ≡ true = ground arith in rw (a, minus 0x80 y, e, b, k) refl

two_bytes :
    (c : ℕ) (s : Bytes)
    → 0x80 ≤ c
    → c < 0x800
    → decode idle ((0xc0 + c / 64) ∷ (0x80 + c % 64) ∷ s) ≡ put_front c (decode idle s)
two_bytes c s h k =
    decode-partial idle (waiting 1 (c / 64) 0x80) _ _
      (first_of_two (c / 64) (omega arith) (omega arith))
    ∙ decode-character _ _ c s
        (last (c / 64) 0x80 (c % 64) c (omega arith) (omega arith) h (ground arith))

three_bytes :
    (c : ℕ) (s : Bytes)
    → 0x800 ≤ c
    → c < 0x1_0000
    → is_scalar c ≡ true
    → decode idle ((0xe0 + c / 4096) ∷ (0x80 + c / 64 % 64) ∷ (0x80 + c % 64) ∷ s)
      ≡ put_front c (decode idle s)
three_bytes c s h k scalar =
    decode-partial idle (waiting 2 (c / 4096) 0x800) _ _ (first_of_three (c / 4096) (omega arith))
    ∙ decode-partial _ (waiting 1 (c / 4096 * 64 + c / 64 % 64) 0x800) _ _
        (middle 0 (c / 4096) 0x800 (c / 64 % 64) (omega arith))
    ∙ decode-character _ _ c s
        (last (c / 4096 * 64 + c / 64 % 64) 0x800 (c % 64) c (omega arith) (omega arith) h scalar)

scalar_below : (c : ℕ) → is_scalar c ≡ true → c < 0x11_0000
scalar_below c h = ground arith

four_bytes :
    (c : ℕ) (s : Bytes)
    → 0x1_0000 ≤ c
    → is_scalar c ≡ true
    → decode idle
        ((0xf0 + c / 26_2144) ∷ (0x80 + c / 4096 % 64) ∷ (0x80 + c / 64 % 64) ∷ (0x80 + c % 64) ∷ s)
      ≡ put_front c (decode idle s)
four_bytes c s h scalar =
    let below = scalar_below c scalar in
    decode-partial idle (waiting 3 (c / 26_2144) 0x1_0000) _ _
      (first_of_four (c / 26_2144) (omega arith))
    ∙ decode-partial _ (waiting 2 (c / 26_2144 * 64 + c / 4096 % 64) 0x1_0000) _ _
        (middle 1 (c / 26_2144) 0x1_0000 (c / 4096 % 64) (omega arith))
    ∙ decode-partial _ (waiting 1 ((c / 26_2144 * 64 + c / 4096 % 64) * 64 + c / 64 % 64) 0x1_0000)
        _ _ (middle 0 (c / 26_2144 * 64 + c / 4096 % 64) 0x1_0000 (c / 64 % 64) (omega arith))
    ∙ decode-character _ _ c s (
        last ((c / 26_2144 * 64 + c / 4096 % 64) * 64 + c / 64 % 64) 0x1_0000 (c % 64) c
          (omega arith) (omega arith) h scalar)

-- A text of scalar values.
unfoldable pub IsScalar : ℕ → Type 0
IsScalar c = is_scalar c ≡ true

decode-char_bytes :
    (c : ℕ) (s : Bytes) → IsScalar c → decode idle (char_bytes c ++ s) ≡ put_front c (decode idle s)
unfolding char_bytes IsScalar
decode-char_bytes c s h = elim (lt-cases c 0x80) [
  | inl k ↦ let a : ltb c 0x80 ≡ true = ground arith in rw a (decode-one c s k)
  | inr k ↦
      let a : ltb c 0x80 ≡ false = ground arith in
      elim (lt-cases c 0x800) [
        | inl q ↦ let b : ltb c 0x800 ≡ true = ground arith in rw (a, b) (two_bytes c s k q)
        | inr q ↦
            let b : ltb c 0x800 ≡ false = ground arith in
            elim (lt-cases c 0x1_0000) [
              | inl r ↦
                  let d : ltb c 0x1_0000 ≡ true = ground arith in
                  rw (a, b, d) (three_bytes c s q r h)
              | inr r ↦
                  let d : ltb c 0x1_0000 ≡ false = ground arith in rw (a, b, d) (four_bytes c s r h)
            ]
      ]
]

pub from_utf8-as_bytes : (s : Str) → All IsScalar s → from_utf8 (as_bytes s) ≡ some s
unfolding from_utf8 decode as_bytes
from_utf8-as_bytes s h = decoded s h
  where
    decoded : (s : Str) → All IsScalar s → decode idle (as_bytes s) ≡ some s
    decoded [] h = refl
    decoded (c ∷ s) (hc, h) = decode-char_bytes c (as_bytes s) hc ∙ ap (put_front c) (decoded s h)

char_bytes-length : (c : ℕ) → length (char_bytes c) ≡ char_len c
unfolding char_bytes char_len
char_bytes-length c = ground arith

pub as_bytes-length : (s : Str) → length (as_bytes s) ≡ str_len s
unfolding as_bytes
as_bytes-length [] = refl
as_bytes-length (c ∷ s) =
    length-append (char_bytes c) (as_bytes s)
    ∙ omega (arith, char_bytes-length c, as_bytes-length s)
