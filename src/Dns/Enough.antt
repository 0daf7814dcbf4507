-- ===== src/Dns/Enough.antt =====
-- The rounds of the two loops of src/dns.rs over the labels of a name.
use arapuca.Prelude.{
  ℕ, zero, suc, ◌≤◌, ◌<◌, ◌≢◌, inl, inr, List, [], ◌∷◌, Bool, false, Result, ok, err, ◌==◌, ◌||◌,
  ltb, Bytes, length, take, drop, arith, Bool-cases,
}
use arapuca.Dns.{max_label_len, longer, label_accepted, Stop, out_of_rounds, read_labels}
use arapuca.Dns.Nxdomain.{skip_labels}

drop_le : (n : ℕ) (buf : Bytes) → length (drop n buf) ≤ length buf
drop_le zero buf = omega arith
drop_le (suc n) [] = omega arith
drop_le (suc n) (b ∷ buf) = omega (arith, drop_le n buf)

with_label :
    (l : Bytes) (more : Result Stop (List Bytes × Bytes))
    → more ≢ err out_of_rounds
    → ◌≢◌ {A = Result Stop (List Bytes × Bytes)}
        (elim more [ err e ↦ err e | ok x ↦ ok (l ∷ x.0, x.1) ])
        (err out_of_rounds)
with_label l (ok x) h e = cc e
with_label l (err why) h e = h e

read_labels-ends :
    (rounds : ℕ) (first : Bool) (n : ℕ) (buf : Bytes)
    → length buf < rounds
    → read_labels rounds first n buf ≢ err out_of_rounds
unfolding read_labels
read_labels-ends zero first n buf h e = absurd (omega arith)
read_labels-ends (suc rounds) first n [] h e = cc e
read_labels-ends (suc rounds) first n (len ∷ buf) h e = elim (Bool-cases (len == 0)) [
  | inl z ↦ cc (rw z at e)
  | inr z ↦ elim (Bool-cases (label_accepted first n len buf)) [
    | inl a ↦
        with_label (take len buf) (read_labels rounds false (longer first n len) (drop len buf))
          (read_labels-ends rounds false (longer first n len) (drop len buf)
            (omega (arith, drop_le len buf)))
          (rw (z, a) at e)
    | inr a ↦ cc (rw (z, a) at e)
  ]
]

skip_labels-ends :
    (rounds : ℕ) (buf : Bytes) → length buf < rounds → skip_labels rounds buf ≢ err out_of_rounds
unfolding skip_labels
skip_labels-ends zero buf h e = absurd (omega arith)
skip_labels-ends (suc rounds) [] h e = cc e
skip_labels-ends (suc rounds) (len ∷ buf) h e = elim (Bool-cases (len == 0)) [
  | inl z ↦ cc (rw z at e)
  | inr z ↦ elim (Bool-cases (ltb max_label_len len || ltb (length buf) len)) [
    | inl a ↦ cc (rw (z, a) at e)
    | inr a ↦
        skip_labels-ends rounds (drop len buf) (omega (arith, drop_le len buf)) (rw (z, a) at e)
  ]
]

-- The loop that reads the labels of a name and the loop that walks past them end by themselves on
-- every buffer, within more rounds than it has bytes: they never run out of rounds.
pub label_loops-end :
    (rounds : ℕ) (first : Bool) (n : ℕ) (buf : Bytes)
    → length buf < rounds
    → (read_labels rounds first n buf ≢ err out_of_rounds)
      × (skip_labels rounds buf ≢ err out_of_rounds)
label_loops-end rounds first n buf h =
    (read_labels-ends rounds first n buf h, skip_labels-ends rounds buf h)
