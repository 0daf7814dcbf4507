-- ===== src/Protocol/Frame/RoundTrip.antt =====
-- Writing and reading the frames of src/vm/protocol.rs.
use arapuca.Prelude.{
  ℕ, ◌/◌, ◌%◌, ◌^◌, ◌≤◌, ◌<◌, ◌≡◌, refl, sym, ap, >>=-eq-ok, ◌∙◌, inl, inr, ◌↔◌, [], ◌∷◌, ◌++◌,
  arith, false, ok, ltb, Bytes, length, All, Bool-cases,
}
use mathlib.Core.Path.{ap₂, subst}
use arapuca.Protocol.Io.{read_exact, read_exact-append, read_exact_sound}
use arapuca.Protocol.Frame.{
  Frame, channel_control, max_payload, to_be_bytes, from_be_bytes, frame_header_size, write_frame,
  parse_header, read_frame,
}

-- What a frame may be: a known channel, and a payload within the channel's limit.
abbrev pub IsFrame : Frame → Type 0
IsFrame (channel, payload) = (channel ≤ channel_control) × (length payload ≤ max_payload channel)

abbrev pub encode : Frame → Bytes
encode (channel, payload) = channel ∷ to_be_bytes (length payload) ++ payload

max_payload-lt : (channel : ℕ) → max_payload channel < 2 ^ 32
unfolding max_payload
max_payload-lt channel = ground arith

not_above : (n m : ℕ) → n ≤ m → ltb m n ≡ false
not_above n m h = ground arith

above : (n m : ℕ) → ltb m n ≡ false → n ≤ m
above n m h = ground arith

write_frame-IsFrame :
    (w w' : Bytes) (channel : ℕ) (payload : Bytes)
    → write_frame w channel payload ≡ ok w'
    → IsFrame (channel, payload)
unfolding write_frame
write_frame-IsFrame w w' channel payload h = elim (Bool-cases (ltb channel_control channel)) [
  | inl a ↦ absurd (cc (rw a at h))
  | inr a ↦ elim (Bool-cases (ltb (max_payload channel) (length payload))) [
    | inl b ↦ absurd (cc (rw (a, b) at h))
    | inr b ↦ (above channel channel_control a, above (length payload) (max_payload channel) b)
  ]
]

len_mod : (n m : ℕ) → n ≤ m → m < 2 ^ 32 → n % 2 ^ 32 ≡ n
len_mod n m h k = omega arith

write_frame-ok :
    (w : Bytes) (channel : ℕ) (payload : Bytes)
    → IsFrame (channel, payload)
    → write_frame w channel payload ≡ ok (w ++ encode (channel, payload))
unfolding write_frame
write_frame-ok w channel payload (known, fits) =
    let a : ltb channel_control channel ≡ false = ground arith in
    let b : ltb (max_payload channel) (length payload) ≡ false =
      not_above (length payload) (max_payload channel) fits in
    rw (a, b, len_mod (length payload) (max_payload channel) fits (max_payload-lt channel))

-- A frame is written exactly if its channel is known and its payload is within the channel's limit;
-- then the output grows by the channel, the length in four bytes and the payload.
pub write_frame_iff :
    (w w' : Bytes) (channel : ℕ) (payload : Bytes)
    → (write_frame w channel payload ≡ ok w')
      ↔ (IsFrame (channel, payload) × (w' ≡ w ++ encode (channel, payload)))
write_frame_iff w w' channel payload = (
  λ h.
      let fits = write_frame-IsFrame w w' channel payload h in
      (fits, cc (write_frame-ok w channel payload fits)),
  λ (fits, e). write_frame-ok w channel payload fits ∙ ap ok (sym e),
)

from_to_be_bytes :
    (n : ℕ)
    → n < 2 ^ 32
    → from_be_bytes (n / 2 ^ 24 % 256) (n / 2 ^ 16 % 256) (n / 2 ^ 8 % 256) (n % 256) ≡ n
from_to_be_bytes n h = omega arith

parse_header_lem :
    (channel n : ℕ)
    → channel ≤ channel_control
    → n ≤ max_payload channel
    → parse_header (channel ∷ to_be_bytes n) ≡ ok (channel, n)
parse_header_lem channel n known fits =
    let same = from_to_be_bytes n (lt n (max_payload channel) fits (max_payload-lt channel)) in
    let a : ltb channel_control channel ≡ false = ground arith in
    rw (same, a, not_above n (max_payload channel) fits)
  where
    lt : (n m : ℕ) → n ≤ m → m < 2 ^ 32 → n < 2 ^ 32
    lt n m h k = omega arith

-- A frame within the limits is read back from its encoding, and what follows it is left.
pub read_frame-encode :
    (channel : ℕ) (payload rest : Bytes)
    → IsFrame (channel, payload)
    → read_frame (encode (channel, payload) ++ rest) ≡ ok ((channel, payload), rest)
unfolding read_frame
read_frame-encode channel payload rest (known, fits) = rw (
  read_exact-append (channel ∷ to_be_bytes (length payload)) (payload ++ rest) frame_header_size
      refl,
  parse_header_lem channel (length payload) known fits,
  read_exact-append payload rest (length payload) refl,
)

abbrev pub IsByte : ℕ → Type 0
IsByte b = b < 256

to_from_be_bytes :
    (a b c d : ℕ)
    → a < 256
    → b < 256
    → c < 256
    → d < 256
    → a ∷ b ∷ c ∷ d ∷ [] ≡ to_be_bytes (from_be_bytes a b c d)
to_from_be_bytes a b c d ha hb hc hd =
    ap₂ ◌∷◌ (omega arith)
      (ap₂ ◌∷◌ (omega arith) (ap₂ ◌∷◌ (omega arith) (ap₂ ◌∷◌ (omega arith) refl)))

parse_header_sound :
    (header : Bytes) (channel len : ℕ)
    → All IsByte header
    → parse_header header ≡ ok (channel, len)
    → (channel ≤ channel_control)
      × (len ≤ max_payload channel)
      × (header ≡ channel ∷ to_be_bytes len)
parse_header_sound [] channel len h e = cc
parse_header_sound (ch ∷ []) channel len h e = cc
parse_header_sound (ch ∷ a ∷ []) channel len h e = cc
parse_header_sound (ch ∷ a ∷ b ∷ []) channel len h e = cc
parse_header_sound (ch ∷ a ∷ b ∷ c ∷ []) channel len h e = cc
parse_header_sound (ch ∷ a ∷ b ∷ c ∷ d ∷ x ∷ s) channel len h e = cc
parse_header_sound (ch ∷ a ∷ b ∷ c ∷ d ∷ []) channel len h e =
    elim (Bool-cases (ltb channel_control ch)) [
      | inl p ↦ absurd (cc (rw p at e))
      | inr p ↦ elim (Bool-cases (ltb (max_payload ch) (from_be_bytes a b c d))) [
        | inl q ↦ absurd (cc (rw (p, q) at e))
        | inr q ↦
            let same : ok (ch, from_be_bytes a b c d) ≡ ok (channel, len) = rw (p, q) at e in
            let e_ch : ch ≡ channel = cc same in
            let e_len : from_be_bytes a b c d ≡ len = cc same in
            let known = above ch channel_control p in
            let fits = above (from_be_bytes a b c d) (max_payload ch) q in
            (
              rw (← e_ch) known,
              rw (← e_ch, ← e_len) fits,
              rw (← e_ch, ← e_len)
                  (ap (◌∷◌ ch) (to_from_be_bytes a b c d h.1.0 h.1.1.0 h.1.1.1.0 h.1.1.1.1.0)),
            )
      ]
    ]

All-append_left : (xs ys : Bytes) → All IsByte (xs ++ ys) → All IsByte xs
All-append_left [] ys h = tt
All-append_left (x ∷ xs) ys h = (h.0, All-append_left xs ys h.1)

-- The frame `r.0` was read from `s`, and `r.1` is left.
abbrev pub IsReadFrom : Bytes → Frame × Bytes → Type 0
IsReadFrom s r = IsFrame r.0 × (s ≡ encode r.0 ++ r.1)

assemble :
    (s header r' p r : Bytes) (ch len : ℕ)
    → All IsByte s
    → s ≡ header ++ r'
    → parse_header header ≡ ok (ch, len)
    → length p ≡ len
    → r' ≡ p ++ r
    → IsReadFrom s ((ch, p), r)
assemble s header r' p r ch len bytes split1 e2 n split2 =
    let (known, fits, e_header) =
      parse_header_sound header ch len (All-append_left header r' (rw split1 at bytes)) e2 in
    (
      (known, rw n fits),
      rw n (split1 ∙ ap (λ t. header ++ t) split2 ∙ ap (λ t. t ++ (p ++ r)) e_header),
    )

-- Whatever bytes arrive, a frame that is read has a known channel and a payload within the
-- channel's limit, and the bytes are the encoding of that frame followed by what is left.
pub read_frame_sound :
    (s : Bytes) (r : Frame × Bytes) → All IsByte s → read_frame s ≡ ok r → IsReadFrom s r
unfolding read_frame
read_frame_sound s r bytes h =
    let ((header, r'), e1, h1) = >>=-eq-ok (read_exact frame_header_size s) _ h in
    let ((ch, len), e2, h2) = >>=-eq-ok (parse_header header) _ h1 in
    let ((p, rest), e3, h3) = >>=-eq-ok (read_exact len r') _ h2 in
    let (_, split1) = read_exact_sound frame_header_size s header r' e1 in
    let (n, split2) = read_exact_sound len r' p rest e3 in
    let same : ◌≡◌ {A = Frame × Bytes} ((ch, p), rest) r = cc h3 in
    subst (IsReadFrom s) same (assemble s header r' p rest ch len bytes split1 e2 n split2)
