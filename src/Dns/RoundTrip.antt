-- ===== src/Dns/RoundTrip.antt =====
-- Queries that src/dns.rs reads back.
use Prim.Native.Nat.{bit_and}
use arapuca.Prelude.{
  ℕ, zero, suc, ◌+◌, ◌*◌, ◌≤◌, ◌<◌, ◌≡◌, refl, ap, ◌∙◌, List, [], ◌∷◌, ◌++◌, append_assoc, Bool,
  true, false, some, ok, ◌==◌, Bytes, length, take, drop, all, length-append, take-append,
  drop-append, arith, All,
}
use arapuca.Dns.{
  max_name_len, max_label_len, is_label_byte, longer, label_accepted, read_labels, name_of, finish,
  parse_query,
}

-- A label: 1 to 63 letters, digits, "-" or "_".
abbrev pub IsLabel : Bytes → Type 0
IsLabel l = (1 ≤ length l) × (length l ≤ max_label_len) × (all is_label_byte l ≡ true)

abbrev pub encode_labels : List Bytes → Bytes
encode_labels [] = 0 ∷ []
encode_labels (l ∷ ls) = length l ∷ (l ++ encode_labels ls)

-- The length of the whole name behind one of `n` bytes.
abbrev pub whole : (first : Bool) → ℕ → List Bytes → ℕ
whole first n [] = n
whole first n (l ∷ ls) = whole false (longer first n (length l)) ls

whole_above : (ls : List Bytes) (first : Bool) (n : ℕ) → n ≤ whole first n ls
unfolding longer
whole_above [] first n = omega arith
whole_above (l ∷ ls) true n = omega (arith, whole_above ls false (n + length l))
whole_above (l ∷ ls) false n = omega (arith, whole_above ls false (n + 1 + length l))

accepted :
    (l : Bytes) (ls : List Bytes) (first : Bool) (n : ℕ) (rest : Bytes)
    → IsLabel l
    → whole first n (l ∷ ls) ≤ max_name_len
    → label_accepted first n (length l) (l ++ rest) ≡ true
unfolding label_accepted
accepted l ls first n rest (_, short, good) fits =
    rw (take-append l rest, good)
      (ground (arith, length-append l rest, whole_above ls false (longer first n (length l))))

read_labels_one :
    (rounds : ℕ) (first : Bool) (n len : ℕ) (buf : Bytes) (ls : List Bytes) (rest : Bytes)
    → (len == 0) ≡ false
    → label_accepted first n len buf ≡ true
    → read_labels rounds false (longer first n len) (drop len buf) ≡ ok (ls, rest)
    → read_labels (suc rounds) first n (len ∷ buf) ≡ ok (take len buf ∷ ls, rest)
unfolding read_labels
read_labels_one rounds first n len buf ls rest a b e = rw (a, b, e) refl

read_labels-encode_labels :
    (ls : List Bytes) (rounds : ℕ) (first : Bool) (n : ℕ) (rest : Bytes)
    → length ls < rounds
    → All IsLabel ls
    → whole first n ls ≤ max_name_len
    → read_labels rounds first n (encode_labels ls ++ rest) ≡ ok (ls, rest)
unfolding read_labels
read_labels-encode_labels ls zero first n rest h good fits = absurd (omega arith)
read_labels-encode_labels [] (suc rounds) first n rest h good fits = refl
read_labels-encode_labels (l ∷ ls) (suc rounds) first n rest h (g, gs) fits =
    let more = encode_labels ls ++ rest in
    let some_bytes : (length l == 0) ≡ false = nonzero (length l) g.0 in
    let inner =
      ap (read_labels rounds false (longer first n (length l))) (drop-append l more)
      ∙ read_labels-encode_labels ls rounds false (longer first n (length l)) rest (omega arith) gs
          fits in
    ap (λ t. read_labels (suc rounds) first n (length l ∷ t))
      (append_assoc l (encode_labels ls) rest)
    ∙ read_labels_one rounds first n (length l) (l ++ more) ls rest some_bytes
        (accepted l ls first n more g fits) inner
    ∙ ap (λ t. ok (t ∷ ls, rest)) (take-append l more)
  where
    nonzero : (k : ℕ) → 1 ≤ k → (k == 0) ≡ false
    nonzero k h = ground arith

pub labels_le : (ls : List Bytes) (rest : Bytes) → length ls ≤ length (encode_labels ls ++ rest)
labels_le [] rest = omega arith
labels_le (l ∷ ls) rest = omega (
  arith,
  labels_le ls rest,
  length-append (l ++ encode_labels ls) rest,
  length-append l (encode_labels ls),
  length-append (encode_labels ls) rest,
)

module _ (i0 i1 f0 f1 q0 q1 h6 h7 h8 h9 h10 h11 t0 t1 c0 c1 : ℕ) (ls : List Bytes)
    (rest : Bytes) where
  -- The packet of a query for a name.
  abbrev pub packet : Bytes
  packet =
      i0
      ∷ i1
      ∷ f0
      ∷ f1
      ∷ q0
      ∷ q1
      ∷ h6
      ∷ h7
      ∷ h8
      ∷ h9
      ∷ h10
      ∷ h11
      ∷ (encode_labels ls ++ (t0 ∷ t1 ∷ c0 ∷ c1 ∷ rest))

  -- A packet without the response flag, with at least one question, whose first name has labels of
  -- 1 to 63 accepted bytes and is of at most 253 bytes with its dots, is read as the query for that
  -- name, type and class, whatever follows.
  pub parse_query-packet :
      bit_and (f0 * 256 + f1) 0x8000 ≡ 0
      → (q0 * 256 + q1 == 0) ≡ false
      → All IsLabel ls
      → whole true 0 ls ≤ max_name_len
      → parse_query packet
        ≡ some (record {
          id = i0 * 256 + i1;
          domain = name_of ls;
          qtype = t0 * 256 + t1;
          qclass = c0 * 256 + c1;
        })
  unfolding parse_query finish
  parse_query-packet query asked good fits =
      let behind = t0 ∷ t1 ∷ c0 ∷ c1 ∷ rest in
      let enough = labels_le ls behind in
      rw
        (
          query,
          asked,
          read_labels-encode_labels ls (suc (length (encode_labels ls ++ behind))) true 0 behind
              (omega arith) good fits,
        )
        refl
