-- ===== src/Dns/Accepted.antt =====
-- The names that src/dns.rs accepts.
use mathlib.Core.Path.{subst}
use arapuca.Prelude.{
  ℕ, zero, suc, ◌≤◌, ◌≡◌, ◌≢◌, sym, ap, ◌∙◌, inl, inr, List, [], ◌∷◌, ◌++◌, append_assoc, Bool,
  true, false, Result, ok, ◌==◌, ==_iff, Bytes, length, take, drop, all, arith, All, Bool-cases,
  Result-cases, take-append-drop, length-take_le,
}
use arapuca.Dns.{
  max_name_len, max_label_len, is_label_byte, longer, label_accepted, Stop, read_labels,
}
use arapuca.Dns.RoundTrip.{IsLabel, encode_labels, whole}

-- A name of these labels at the start of the bytes, behind `n` bytes of name.
pub record IsName (first : Bool) (n : ℕ) (buf : Bytes) (ls : List Bytes) (rest : Bytes)
    : Type 0 where
  pub labels : All IsLabel ls
  pub fits : whole first n ls ≤ max_name_len
  pub spelled : buf ≡ encode_labels ls ++ rest

-- What the test of a label says.
label_accepted-IsLabel :
    (first : Bool) (n len : ℕ) (buf : Bytes)
    → len ≢ 0
    → label_accepted first n len buf ≡ true
    → IsLabel (take len buf) × (len ≡ length (take len buf)) × (longer first n len ≤ max_name_len)
unfolding label_accepted
label_accepted-IsLabel first n len buf some_bytes h =
    let fits : len ≤ length buf = ground arith in
    let size = length-take_le len buf fits in
    let short : len ≤ max_label_len = ground arith in
    let good : all is_label_byte (take len buf) ≡ true = ground arith in
    let room : longer first n len ≤ max_name_len = ground arith in
    ((omega (arith, size), omega (arith, size), good), sym size, room)

IsName-[] :
    (first : Bool) (n len : ℕ) (buf rest : Bytes) (ls : List Bytes)
    → n ≤ max_name_len
    → len ≡ 0
    → ◌≡◌ {A = Result Stop (List Bytes × Bytes)} (ok ([], buf)) (ok (ls, rest))
    → IsName first n (len ∷ buf) ls rest
IsName-[] first n len buf rest ls k e h =
    let no_more : [] ≡ ls = cc h in
    let left : buf ≡ rest = cc h in
    subst (λ l. IsName first n (len ∷ buf) l rest) no_more
      (subst (λ r. IsName first n (len ∷ buf) [] r) left
        (record { labels = tt; fits = k; spelled = ap (λ t. t ∷ buf) e }))

IsName-∷ :
    (first : Bool) (n len : ℕ) (buf rest rest' : Bytes) (ls ls' : List Bytes)
    → len ≢ 0
    → label_accepted first n len buf ≡ true
    → IsName false (longer first n len) (drop len buf) ls' rest'
    → ◌≡◌ {A = Result Stop (List Bytes × Bytes)} (ok (take len buf ∷ ls', rest')) (ok (ls, rest))
    → IsName first n (len ∷ buf) ls rest
IsName-∷ first n len buf rest rest' ls ls' some_bytes a more h =
    let (good, size, room) = label_accepted-IsLabel first n len buf some_bytes a in
    let all_labels : take len buf ∷ ls' ≡ ls = cc h in
    let left : rest' ≡ rest = cc h in
    subst (λ l. IsName first n (len ∷ buf) l rest) all_labels
      (subst (λ r. IsName first n (len ∷ buf) (take len buf ∷ ls') r) left
        (record {
          labels = (good, more.labels);
          fits = subst (λ m. whole false (longer first n m) ls' ≤ max_name_len) size more.fits;
          spelled =
              ap (λ t. len ∷ t)
                (sym (take-append-drop len buf)
                  ∙ ap (λ t. take len buf ++ t) more.spelled
                  ∙ sym (append_assoc (take len buf) (encode_labels ls') rest'))
              ∙ ap (λ m. m ∷ (take len buf ++ encode_labels ls' ++ rest')) size;
        }))

-- If the loop accepts, the bytes begin with the encoding of labels of 1 to 63 accepted bytes, the
-- name is of at most 253 bytes with its dots, and what is left follows.
pub read_labels_sound :
    (rounds : ℕ) (first : Bool) (n : ℕ) (buf : Bytes) (ls : List Bytes) (rest : Bytes)
    → n ≤ max_name_len
    → read_labels rounds first n buf ≡ ok (ls, rest)
    → IsName first n buf ls rest
unfolding read_labels
read_labels_sound zero first n buf ls rest k h = absurd (cc h)
read_labels_sound (suc rounds) first n [] ls rest k h = absurd (cc h)
read_labels_sound (suc rounds) first n (len ∷ buf) ls rest k h = elim (Bool-cases (len == 0)) [
  | inl e ↦ IsName-[] first n len buf rest ls k ((==_iff len 0).0 e) (rw e at h)
  | inr e ↦ elim (Bool-cases (label_accepted first n len buf)) [
    | inl a ↦
        let some_bytes : len ≢ 0 = λ z. cc (sym e ∙ (==_iff len 0).1 z) in
        let (good, size, room) = label_accepted-IsLabel first n len buf some_bytes a in
        elim (Result-cases (read_labels rounds false (longer first n len) (drop len buf))) [
          | inl (why, q) ↦ absurd (cc (rw (e, a, q) at h))
          | inr ((ls', rest'), q) ↦
              IsName-∷ first n len buf rest rest' ls ls' some_bytes a
                (read_labels_sound rounds false (longer first n len) (drop len buf) ls' rest' room
                  q)
                (rw (e, a, q) at h)
        ]
    | inr a ↦ absurd (cc (rw (e, a) at h))
  ]
]
