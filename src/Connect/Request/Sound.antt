-- ===== src/Connect/Request/Sound.antt =====
-- What `parse_connect_request` of src/bridge.rs lets through.
use mathlib.Core.Path.{subst}
use arapuca.Prelude.{
  ℕ, zero, suc, ◌≤◌, ◌≡◌, sym, ap, ◌∙◌, inl, inr, List, [], ◌∷◌, ◌++◌, true, false, not, ◌&&◌,
  Option, none, some, Result, ok, ok_or, leb, leb→le, ◌==◌, Bytes, Str, codes, beq, length, arith,
  Bool-cases, >>=-eq-ok, reject-eq-ok, append_assoc,
}
use arapuca.Prelude.Cut.{max_u16, rsplit_once}
use arapuca.Prelude.Decimal.{parse_unsigned, fitting, read_digits}
use arapuca.Prelude.Trim.{split_whitespace}
use arapuca.Prelude.Utf8.Coding.{from_utf8}
use arapuca.Protocol.Io.{IoError}
use arapuca.Connect.{ends_with}
use arapuca.Connect.Hosts.{ends_with_sound}
use arapuca.Connect.Request.Names.{IsHostName, check_host_sound}
use arapuca.Connect.Request.{
  max_connect_request, header_end, read_header, first_line, check_host, parse_target, parse_parts,
  parse_head, eq_ignore_ascii_case, parse_connect_request,
}

fitting_le : (max n : ℕ) (o : Option ℕ) → fitting max o ≡ some n → n ≤ max
unfolding fitting
fitting_le max n none h = cc
fitting_le max n (some m) h = elim (Bool-cases (leb m max)) [
  | inl e ↦ let same : m ≡ n = cc (rw e at h) in rw (← same) (leb→le m max e)
  | inr e ↦ absurd (cc (rw e at h))
]

parse_unsigned_le : (max n : ℕ) (s : Str) → parse_unsigned max s ≡ some n → n ≤ max
unfolding parse_unsigned
parse_unsigned_le max n [] h = cc
parse_unsigned_le max n (c ∷ []) h = fitting_le max n (read_digits 0 (c ∷ [])) h
parse_unsigned_le max n (c ∷ d ∷ s) h = elim (Bool-cases (c == b'+')) [
  | inl e ↦ fitting_le max n (read_digits 0 (d ∷ s)) (rw e at h)
  | inr e ↦ fitting_le max n (read_digits 0 (c ∷ d ∷ s)) (rw e at h)
]

ok_or-eq-ok : {A : Type 0} (o : Option A) (e : IoError) (a : A) → ok_or o e ≡ ok a → o ≡ some a
ok_or-eq-ok none e a h = cc
ok_or-eq-ok (some x) e a h = cc

-- What a target is.
abbrev IsHostAndPort : Str × ℕ → Type 0
IsHostAndPort (host, port) = IsHostName host × (1 ≤ port) × (port ≤ max_u16)

not_zero : (n : ℕ) → (n == 0) ≡ false → 1 ≤ n
not_zero zero h = cc
not_zero (suc n) h = omega arith

parse_target_sound :
    (target host : Str) (port : ℕ)
    → parse_target target ≡ ok (host, port)
    → IsHostAndPort (host, port)
unfolding parse_target
parse_target_sound target host port h =
    let ((name, digits), _, h1) = >>=-eq-ok (ok_or (rsplit_once b':' target) _) _ h in
    let (_, h2) = reject-eq-ok (beq name []) _ _ h1 in
    let (n, read, h3) = >>=-eq-ok (ok_or (parse_unsigned max_u16 digits) _) _ h2 in
    let (some_port, h4) = reject-eq-ok (n == 0) _ _ h3 in
    let (checked, good, done) = >>=-eq-ok (check_host name) _ h4 in
    settled checked n (check_host_sound name checked good) (not_zero n some_port)
      (parse_unsigned_le max_u16 n digits (ok_or-eq-ok (parse_unsigned max_u16 digits) _ n read))
      done
  where
    settled :
        (checked : Str) (n : ℕ)
        → IsHostName checked
        → 1 ≤ n
        → n ≤ max_u16
        → ◌≡◌ {A = Result IoError (Str × ℕ)} (ok (checked, n)) (ok (host, port))
        → IsHostAndPort (host, port)
    settled checked n good low high e =
        let same : checked ≡ host = cc e in
        let same' : n ≡ port = cc e in
        (subst (λ t. IsHostName t) same good, rw (← same') low, rw (← same') high)

parse_parts_sound :
    (parts : List Str) (host : Str) (port : ℕ)
    → parse_parts parts ≡ ok (host, port)
    → IsHostAndPort (host, port)
unfolding parse_parts
parse_parts_sound [] host port h = cc
parse_parts_sound (a ∷ []) host port h = cc
parse_parts_sound (a ∷ b ∷ []) host port h = cc
parse_parts_sound (a ∷ b ∷ c ∷ d ∷ s) host port h = cc
parse_parts_sound (method ∷ target ∷ version ∷ []) host port h =
    let (_, h1) = reject-eq-ok (not (eq_ignore_ascii_case method (codes "CONNECT"))) _ _ h in
    let (_, h2) =
      reject-eq-ok (not (beq version (codes "HTTP/1.0")) && not (beq version (codes "HTTP/1.1"))) _
        (parse_target target) h1 in
    parse_target_sound target host port h2

parse_head_sound :
    (buf : Bytes) (host : Str) (port : ℕ)
    → parse_head buf ≡ ok (host, port)
    → IsHostAndPort (host, port)
unfolding parse_head
parse_head_sound buf host port h =
    let (header, _, h1) = >>=-eq-ok (ok_or (from_utf8 buf) _) _ h in
    parse_parts_sound (split_whitespace (first_line header)) host port h1

-- What the loop has read when it ends.
read_header_sound :
    (k : ℕ) (buf s got rest : Bytes)
    → read_header k buf s ≡ ok (got, rest)
    → (head : Bytes) × (got ≡ buf ++ head)
      × (s ≡ head ++ rest)
      × (length head ≤ k)
      × (ends_with header_end got ≡ true)
unfolding read_header
read_header_sound zero buf s got rest h = cc
read_header_sound (suc k) buf [] got rest h = cc
read_header_sound (suc k) buf (b ∷ s) got rest h =
    elim (Bool-cases (ends_with header_end (buf ++ b ∷ []))) [
      | inl e ↦
          let done : ok (buf ++ b ∷ [], s) ≡ ok (got, rest) = rw e at h in
          let same : buf ++ b ∷ [] ≡ got = cc done in
          let same' : s ≡ rest = cc done in (b ∷ [], sym same, cc same', omega arith, rw (← same) e)
      | inr e ↦
          let (head, whole, left, short, ends) =
            read_header_sound k (buf ++ b ∷ []) s got rest (rw e at h) in
          (b ∷ head, whole ∙ append_assoc buf (b ∷ []) head, ap (◌∷◌ b) left, omega arith, ends)
    ]

-- Whatever bytes arrive, a request that is accepted names a host in lower case, of letters, digits,
-- dashes and dots, not empty, with no dot in front and no two dots in a row, and a port between 1 and
-- 65535; and the parser has taken from the stream a header of at most 2048 bytes that ends in an
-- empty line, and nothing of what follows it.
pub parse_connect_request_sound :
    (stream rest : Bytes) (host : Str) (port : ℕ)
    → parse_connect_request stream ≡ ok ((host, port), rest)
    → IsHostName host
      × (1 ≤ port)
      × (port ≤ max_u16)
      × ((front : Bytes) × (stream ≡ (front ++ header_end) ++ rest)
          × (length (front ++ header_end) ≤ max_connect_request))
unfolding parse_connect_request
parse_connect_request_sound stream rest host port h =
    let ((buf, left), e, h1) = >>=-eq-ok (read_header max_connect_request [] stream) _ h in
    let (target, e', done) = >>=-eq-ok (parse_head buf) _ h1 in
    let same : target ≡ (host, port) = cc done in
    let same_rest : left ≡ rest = cc done in
    let (head, whole, taken, short, ends) =
      read_header_sound max_connect_request [] stream buf left e in
    let (front, cut) = ends_with_sound header_end buf ends in
    let (name, low, high) = parse_head_sound buf host port (rw (← same) e') in
    let shape : head ≡ front ++ header_end = sym whole ∙ cut in
    (name, low, high, (front, rw (← shape, ← same_rest) taken, rw (← shape) short))
