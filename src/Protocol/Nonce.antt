-- ===== src/Protocol/Nonce.antt =====
-- The nonces of src/vm/protocol.rs that authenticate the host and the guest to each other: a nonce
-- is the list of its 32 bytes.
use Prim.Native.Nat.{bit_or, bit_xor}
use arapuca.Prelude.{
  ℕ, ◌≡◌, ◌↔◌, refl, sym, ap, ◌∙◌, [], ◌∷◌, ◌++◌, Bool, true, Result, ok, arith, Bytes, length,
  ◌==◌, ==_iff,
}
use arapuca.Prelude.Bits.{bit_or_is_zero, bit_xor_is_zero, bit_xor-same}
use arapuca.Protocol.Io.{read_exact, IoError, read_exact-append}

abbrev pub nonce_size : ℕ
nonce_size = 32

-- The output behind the nonce.
unfoldable pub write_nonce : Bytes → Bytes → Bytes
write_nonce w nonce = w ++ nonce

unfoldable pub read_nonce : Bytes → Result IoError (Bytes × Bytes)
read_nonce r = read_exact nonce_size r

-- The loop of `nonce_eq`. A byte `|` or `^` a byte is a byte, and nothing wraps around.
unfoldable pub nonce_diff : ℕ → Bytes → Bytes → ℕ
nonce_diff diff (x ∷ a) (y ∷ b) = nonce_diff (bit_or diff (bit_xor x y)) a b
nonce_diff diff [] b = diff
nonce_diff diff (x ∷ a) [] = diff

unfoldable pub nonce_eq : Bytes → Bytes → Bool
nonce_eq a b = nonce_diff 0 a b == 0

nonce_diff-zero :
    (diff : ℕ) (a b : Bytes) → length a ≡ length b → nonce_diff diff a b ≡ 0 → (diff ≡ 0) × (a ≡ b)
unfolding nonce_diff
nonce_diff-zero diff [] [] l h = (h, refl)
nonce_diff-zero diff [] (y ∷ b) l h = absurd (omega arith)
nonce_diff-zero diff (x ∷ a) [] l h = absurd (omega arith)
nonce_diff-zero diff (x ∷ a) (y ∷ b) l h =
    let (d, rest) = nonce_diff-zero (bit_or diff (bit_xor x y)) a b (omega arith) h in
    let (e, same) = bit_or_is_zero diff (bit_xor x y) d in
    (e, rw (bit_xor_is_zero x y same, rest) refl)

nonce_diff-same : (a : Bytes) → nonce_diff 0 a a ≡ 0
unfolding nonce_diff
nonce_diff-same [] = refl
nonce_diff-same (x ∷ a) = ap (λ d. nonce_diff (bit_or 0 d) a a) (bit_xor-same x) ∙ nonce_diff-same a

-- Two nonces of 32 bytes pass the comparison exactly if they are equal.
pub nonce_eq_iff :
    (a b : Bytes) → length a ≡ nonce_size → length b ≡ nonce_size → (nonce_eq a b ≡ true) ↔ (a ≡ b)
unfolding nonce_eq
nonce_eq_iff a b la lb = (
  λ h. (nonce_diff-zero 0 a b (omega arith) ((==_iff _ 0).0 h)).1,
  λ e. rw e ((==_iff _ 0).1 (nonce_diff-same b)),
)

-- A nonce of 32 bytes that was written at the end of the output is read back, and what follows it
-- is left.
pub read_nonce-write_nonce :
    (nonce rest : Bytes)
    → length nonce ≡ nonce_size
    → read_nonce (write_nonce [] nonce ++ rest) ≡ ok (nonce, rest)
unfolding read_nonce write_nonce
read_nonce-write_nonce nonce rest h = read_exact-append nonce rest nonce_size (sym h)
