-- ===== src/Dns.antt =====
-- The DNS sink of src/dns.rs: the parser of queries. The buffer is the list of its bytes, the
-- position the bytes that are left.
pub mod RoundTrip
pub mod Accepted
pub mod Enough
pub mod Nxdomain
mod Tests
use Prim.Native.Nat.{bit_and}
use arapuca.Prelude.{
  ℕ, zero, suc, ◌+◌, ◌*◌, List, [], ◌∷◌, Bool, true, false, not, ◌&&◌, ◌||◌, Option, none, some,
  Result, ok, err, ltb, ◌==◌, if◌then◌else◌, Bytes, codes, length, take, drop, all, join,
  is_ascii_alphanumeric,
}

pub record DnsQuery : Type 0 where
  pub id : ℕ
  pub domain : Bytes
  pub qtype : ℕ
  pub qclass : ℕ

abbrev pub max_name_len : ℕ
max_name_len = 253

abbrev pub max_label_len : ℕ
max_label_len = 63

abbrev pub is_label_byte : ℕ → Bool
is_label_byte b = is_ascii_alphanumeric b || (b == b'-' || b == b'_')

-- The length of the name with one label more.
unfoldable pub longer : (first : Bool) → (name_len label_len : ℕ) → ℕ
longer first name_len label_len = (if first then name_len else name_len + 1) + label_len

-- Whether a label of `len` bytes in front of `buf` is accepted.
unfoldable pub label_accepted : (first : Bool) → (name_len len : ℕ) → Bytes → Bool
label_accepted first name_len len buf =
    not (ltb max_label_len len)
    && not (ltb (length buf) len)
    && all is_label_byte (take len buf)
    && not (ltb max_name_len (longer first name_len len))

-- Why a loop over labels stops early: the code returns, or the model has counted too few rounds.
pub data Stop : Type 0 where
  refused out_of_rounds : Stop

-- The loop over the labels, and what is left behind the name.
unfoldable pub read_labels :
    (rounds : ℕ) → (first : Bool) → (name_len : ℕ) → Bytes → Result Stop (List Bytes × Bytes)
read_labels zero first name_len buf = err out_of_rounds
read_labels (suc rounds) first name_len [] = err refused
read_labels (suc rounds) first name_len (len ∷ buf) =
    let more = read_labels rounds false (longer first name_len len) (drop len buf) in
    if len == 0
    then ok ([], buf)
    else if label_accepted first name_len len buf
    then elim more [ err e ↦ err e | ok x ↦ ok (take len buf ∷ x.0, x.1) ]
    else err refused

abbrev pub name_of : List Bytes → Bytes
name_of [] = codes "."
name_of (l ∷ ls) = join b'.' (l ∷ ls)

-- Behind the name: QTYPE and QCLASS.
unfoldable pub finish : ℕ → Result Stop (List Bytes × Bytes) → Option DnsQuery
finish id (err e) = none
finish id (ok (labels, t0 ∷ t1 ∷ c0 ∷ c1 ∷ buf)) =
    some
      (record { id = id; domain = name_of labels; qtype = t0 * 256 + t1; qclass = c0 * 256 + c1 })
finish id (ok (labels, _)) = none

-- The header's twelve bytes come first.
unfoldable pub parse_query : Bytes → Option DnsQuery
parse_query (i0 ∷ i1 ∷ f0 ∷ f1 ∷ q0 ∷ q1 ∷ h6 ∷ h7 ∷ h8 ∷ h9 ∷ h10 ∷ h11 ∷ buf) =
    if not (bit_and (f0 * 256 + f1) 0x8000 == 0)
    then none
    else if q0 * 256 + q1 == 0
    then none
    else finish (i0 * 256 + i1) (read_labels (suc (length buf)) true 0 buf)
parse_query _ = none
