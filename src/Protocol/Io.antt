-- ===== src/Protocol/Io.antt =====
-- Byte streams for src/vm/protocol.rs. A reader is the list of the bytes that are left until the
-- end of the stream; a writer is the list of the bytes written so far. Both are the standard
-- library's readers and writers over memory: a read fails only at the end, a write never.
use Prim.Native.String.{String}
use arapuca.Prelude.{
  ℕ, ◌≡◌, ◌++◌, arith, Result, ok, err, leb, if◌then◌else◌, Bytes, length, take, drop,
  length-append, take-append, drop-append, Bool-cases, inl, inr, leb→le, sym, take-append-drop,
  length-take_le,
}

pub data ErrorKind : Type 0 where
  invalid_input invalid_data unexpected_eof : ErrorKind

-- An `io::Error` with the constant text of its message.
pub data IoError : Type 0 where
  io_error : ErrorKind → String → IoError

abbrev pub eof : IoError
eof = io_error ErrorKind.unexpected_eof "failed to fill whole buffer"

-- `read_exact` of `n` bytes.
unfoldable pub read_exact : ℕ → Bytes → Result IoError (Bytes × Bytes)
read_exact n s = if leb n (length s) then ok (take n s, drop n s) else err eof

pub read_exact-append : (p s : Bytes) (n : ℕ) → n ≡ length p → read_exact n (p ++ s) ≡ ok (p, s)
unfolding read_exact
read_exact-append p s n e =
    rw (e, take-append p s, drop-append p s) (ground (arith, length-append p s))

pub read_exact_sound :
    (n : ℕ) (s p r : Bytes) → read_exact n s ≡ ok (p, r) → (length p ≡ n) × (s ≡ p ++ r)
unfolding read_exact
read_exact_sound n s p r h = elim (Bool-cases (leb n (length s))) [
  | inl e ↦
      let same : ok (take n s, drop n s) ≡ ok (p, r) = rw e at h in
      let e_p : take n s ≡ p = cc same in
      let e_r : drop n s ≡ r = cc same in
      (
        rw (← e_p) (length-take_le n s (leb→le n (length s) e)),
        rw (← e_p, ← e_r) (sym (take-append-drop n s)),
      )
  | inr e ↦ absurd (cc (rw e at h))
]
