-- ===== src/Dns/Nxdomain.antt =====
-- The negative answers of src/dns.rs.
use Prim.Native.Nat.{bit_and, bit_or}
use arapuca.Prelude.{
  ℕ, zero, suc, ◌+◌, ◌-◌, ◌*◌, ◌/◌, ◌%◌, ◌≤◌, ◌<◌, ◌≡◌, refl, sym, ap, ◌∙◌, List, [], ◌∷◌, ◌++◌,
  append_assoc, false, ◌||◌, Result, ok, err, ltb, ◌==◌, ==_iff, holds_below_sound, if◌then◌else◌,
  Bytes, length, take, drop, length-append, take-append, drop-append, arith, All,
}
use arapuca.Prelude.Bits.{masked_byte}
use arapuca.Dns.{max_label_len, Stop, refused, out_of_rounds}
use arapuca.Dns.RoundTrip.{IsLabel, encode_labels, packet, labels_le}

-- The walk past the name of the question: what is left behind it.
unfoldable pub skip_labels : (rounds : ℕ) → Bytes → Result Stop Bytes
skip_labels zero buf = err out_of_rounds
skip_labels (suc rounds) [] = err refused
skip_labels (suc rounds) (len ∷ buf) =
    let more = skip_labels rounds (drop len buf) in
    if len == 0
    then ok buf
    else if ltb max_label_len len || ltb (length buf) len
    then err refused
    else more

-- Response, authoritative and NXDOMAIN, with the opcode and the recursion bit of the query.
unfoldable pub nxdomain_flags : ℕ → ℕ
nxdomain_flags flags =
    let opcode = bit_and flags 0x7800 in
    let rd = bit_and flags 0x0100 in
    bit_or (bit_or (bit_or (bit_or 0x8000 opcode) 0x0400) rd) 0x0003

abbrev pub new_header : (id flags : ℕ) → Bytes
new_header id flags =
    id / 256 % 256 ∷ id % 256 ∷ flags / 256 % 256 ∷ flags % 256 ∷ 0 ∷ 1 ∷ 0 ∷ 0 ∷ 0 ∷ 0 ∷ 0 ∷ 0 ∷ []

-- The new header and the question, which ends four bytes behind its name.
unfoldable pub negative_answer : (id flags : ℕ) → (question : Bytes) → Result Stop Bytes → Bytes
negative_answer id flags question (err e) = []
negative_answer id flags question (ok rest) =
    if ltb (length rest) 4
    then []
    else new_header id flags ++ take (length question - length rest + 4) question

unfoldable pub build_nxdomain : Bytes → (id : ℕ) → Bytes
build_nxdomain (i0 ∷ i1 ∷ f0 ∷ f1 ∷ q0 ∷ q1 ∷ h6 ∷ h7 ∷ h8 ∷ h9 ∷ h10 ∷ h11 ∷ buf) id =
    negative_answer id (nxdomain_flags (f0 * 256 + f1)) buf (skip_labels (suc (length buf)) buf)
build_nxdomain _ id = []

skip_one :
    (rounds len : ℕ) (buf rest : Bytes)
    → (len == 0) ≡ false
    → (ltb max_label_len len || ltb (length buf) len) ≡ false
    → skip_labels rounds (drop len buf) ≡ ok rest
    → skip_labels (suc rounds) (len ∷ buf) ≡ ok rest
unfolding skip_labels
skip_one rounds len buf rest a b e = rw (a, b) e

fits_in :
    (l more : Bytes)
    → IsLabel l
    → (ltb max_label_len (length l) || ltb (length (l ++ more)) (length l)) ≡ false
fits_in l more (_, short, _) = ground (arith, length-append l more)

nonzero : (k : ℕ) → 1 ≤ k → (k == 0) ≡ false
nonzero k h = ground arith

skip_labels-encode_labels :
    (ls : List Bytes) (rounds : ℕ) (rest : Bytes)
    → length ls < rounds
    → All IsLabel ls
    → skip_labels rounds (encode_labels ls ++ rest) ≡ ok rest
unfolding skip_labels
skip_labels-encode_labels ls zero rest h good = absurd (omega arith)
skip_labels-encode_labels [] (suc rounds) rest h good = refl
skip_labels-encode_labels (l ∷ ls) (suc rounds) rest h (g, gs) =
    let more = encode_labels ls ++ rest in
    ap (λ t. skip_labels (suc rounds) (length l ∷ t)) (append_assoc l (encode_labels ls) rest)
    ∙ skip_one rounds (length l) (l ++ more) rest (nonzero (length l) g.0) (fits_in l more g) (
        ap (skip_labels rounds) (drop-append l more)
        ∙ skip_labels-encode_labels ls rounds rest (omega arith) gs)

-- The first byte of the flags: a response (128) with authority (4), and the opcode and the recursion
-- bit of the query's first byte of flags.
abbrev pub answer_flags : ℕ → ℕ
answer_flags f0 = 128 + f0 / 8 % 16 * 8 + 4 + f0 % 2

-- The masks reach into the first byte only.
opcode_of : (f0 f1 : ℕ) → f1 < 256 → bit_and (f0 * 256 + f1) 0x7800 ≡ bit_and f0 0x78 * 256
opcode_of f0 f1 h = masked_byte f0 f1 0x78 h

recursion_of : (f0 f1 : ℕ) → f1 < 256 → bit_and (f0 * 256 + f1) 0x0100 ≡ bit_and f0 1 * 256
recursion_of f0 f1 h = masked_byte f0 f1 1 h

flags_of : (f0 : ℕ) → ℕ
flags_of f0 =
    bit_or (bit_or (bit_or (bit_or 0x8000 (bit_and f0 0x78 * 256)) 0x0400) (bit_and f0 1 * 256))
      0x0003

flags_of_lem : (f0 : ℕ) → f0 < 256 → flags_of f0 ≡ answer_flags f0 * 256 + 3
unfolding flags_of
flags_of_lem f0 h =
    (==_iff (flags_of f0) (answer_flags f0 * 256 + 3)).0
      (holds_below_sound (λ x. flags_of x == answer_flags x * 256 + 3) 256 f0 refl h)

nxdomain_flags_lem :
    (f0 f1 : ℕ) → f0 < 256 → f1 < 256 → nxdomain_flags (f0 * 256 + f1) ≡ answer_flags f0 * 256 + 3
unfolding nxdomain_flags flags_of
nxdomain_flags_lem f0 f1 h k = rw (opcode_of f0 f1 k, recursion_of f0 f1 k) (flags_of_lem f0 h)

-- The header as bytes.
abbrev pub answer_header : (j0 j1 f0 : ℕ) → Bytes
answer_header j0 j1 f0 = j0 ∷ j1 ∷ answer_flags f0 ∷ 3 ∷ 0 ∷ 1 ∷ 0 ∷ 0 ∷ 0 ∷ 0 ∷ 0 ∷ 0 ∷ []

new_header_lem :
    (j0 j1 f0 f1 : ℕ)
    → j0 < 256
    → j1 < 256
    → f0 < 256
    → f1 < 256
    → new_header (j0 * 256 + j1) (nxdomain_flags (f0 * 256 + f1)) ≡ answer_header j0 j1 f0
new_header_lem j0 j1 f0 f1 h0 h1 k0 k1 =
    let a : (j0 * 256 + j1) / 256 % 256 ≡ j0 = omega arith in
    let b : (j0 * 256 + j1) % 256 ≡ j1 = omega arith in
    let c : (answer_flags f0 * 256 + 3) / 256 % 256 ≡ answer_flags f0 = omega arith in
    let d : (answer_flags f0 * 256 + 3) % 256 ≡ 3 = omega arith in
    rw (nxdomain_flags_lem f0 f1 k0 k1) (rw (a, b, c, d) refl)

module _ (i0 i1 f0 f1 q0 q1 h6 h7 h8 h9 h10 h11 t0 t1 c0 c1 : ℕ) (ls : List Bytes)
    (rest : Bytes) where
  answer_question :
      (id : ℕ)
      → All IsLabel ls
      → build_nxdomain (packet i0 i1 f0 f1 q0 q1 h6 h7 h8 h9 h10 h11 t0 t1 c0 c1 ls rest) id
        ≡ new_header id (nxdomain_flags (f0 * 256 + f1))
          ++ (encode_labels ls ++ (t0 ∷ t1 ∷ c0 ∷ c1 ∷ []))
  unfolding build_nxdomain negative_answer
  answer_question id good =
      let name = encode_labels ls in
      let behind = t0 ∷ t1 ∷ c0 ∷ c1 ∷ rest in
      let question = name ++ (t0 ∷ t1 ∷ c0 ∷ c1 ∷ []) in
      let flags = nxdomain_flags (f0 * 256 + f1) in
      let walked =
        skip_labels-encode_labels ls (suc (length (name ++ behind))) behind
          (omega (arith, labels_le ls behind)) good in
      let long : ltb (length behind) 4 ≡ false = ground arith in
      let whole : name ++ behind ≡ question ++ rest =
        sym (append_assoc name (t0 ∷ t1 ∷ c0 ∷ c1 ∷ []) rest) in
      let size : length (name ++ behind) - length behind + 4 ≡ length question =
        omega (arith, length-append name behind, length-append name (t0 ∷ t1 ∷ c0 ∷ c1 ∷ [])) in
      rw (walked, long, size, whole, take-append question rest) refl

  -- The answer, under an identifier of the bytes `j0` and `j1`, to a packet of bytes whose first
  -- name has labels of 1 to 63 accepted bytes: the identifier; a byte of flags with the response
  -- and the authority bit set and the opcode and the recursion bit of the packet; a byte with the
  -- code 3 of a name that does not exist; the counts of one question and no records; and then the
  -- first question as it came. What follows that question is left out.
  pub build_nxdomain-packet :
      (j0 j1 : ℕ)
      → j0 < 256
      → j1 < 256
      → f0 < 256
      → f1 < 256
      → All IsLabel ls
      → build_nxdomain
          (packet i0 i1 f0 f1 q0 q1 h6 h7 h8 h9 h10 h11 t0 t1 c0 c1 ls rest)
          (j0 * 256 + j1)
        ≡ answer_header j0 j1 f0 ++ (encode_labels ls ++ (t0 ∷ t1 ∷ c0 ∷ c1 ∷ []))
  build_nxdomain-packet j0 j1 h0 h1 k0 k1 good =
      answer_question (j0 * 256 + j1) good
      ∙ ap (λ t. t ++ (encode_labels ls ++ (t0 ∷ t1 ∷ c0 ∷ c1 ∷ [])))
          (new_header_lem j0 j1 f0 f1 h0 h1 k0 k1)
