-- ===== src/Connect/Request/Names.antt =====
-- What the checks of the host in `parse_connect_request` of src/bridge.rs let through.
use mathlib.Core.Path.{subst}
use arapuca.Prelude.{
  ℕ, ◌≡◌, ◌≢◌, refl, sym, ap, ◌∙◌, inl, inr, [], ◌∷◌, ◌++◌, Bool, true, false, not, ◌&&◌, ◌||◌, ok,
  leb, ◌==◌, Str, beq, all, map, All, arith, Bool-cases, reject-eq-ok,
}
use arapuca.Connect.Request.{
  to_ascii_lowercase, is_host_char, strip_dot, begins_with_dot, has_two_dots, check_host,
}

-- A lower-case letter, a digit, a dash or a dot.
abbrev is_lower_host_char : ℕ → Bool
is_lower_host_char c =
    (leb b'a' c && leb c b'z') || (leb b'0' c && leb c b'9') || c == b'-' || c == b'.'

-- A host name as the proxy compares and resolves it.
abbrev pub IsHostName : Str → Type 0
IsHostName host =
    (host ≢ [])
    × All (λ c. is_lower_host_char c ≡ true) host
    × ((rest : Str) → host ≢ b'.' ∷ rest)
    × ((front rest : Str) → host ≢ front ++ b'.' ∷ b'.' ∷ rest)

both : (a b : Bool) → (a && b) ≡ true → (a ≡ true) × (b ≡ true)
both true b h = (refl, h)
both false b h = cc

neither : (a b : Bool) → (a || b) ≡ false → (a ≡ false) × (b ≡ false)
neither false b h = (refl, h)
neither true b h = cc

or_true : (a b : Bool) → b ≡ true → (a || b) ≡ true
or_true true b h = refl
or_true false b h = h

lower-host_char : (c : ℕ) → is_host_char c ≡ true → is_lower_host_char (to_ascii_lowercase c) ≡ true
lower-host_char c h = elim (Bool-cases (leb b'A' c && leb c b'Z')) [
  | inl e ↦ rw e (ground arith)
  | inr e ↦ rw e (ground arith)
]

lower-dot : (c : ℕ) → (to_ascii_lowercase c == b'.') ≡ (c == b'.')
lower-dot c = elim (Bool-cases (leb b'A' c && leb c b'Z')) [
  | inl e ↦ rw e (ground arith)
  | inr e ↦ rw e refl
]

strip_dot-host_chars : (s : Str) → all is_host_char s ≡ true → all is_host_char (strip_dot s) ≡ true
unfolding strip_dot
strip_dot-host_chars [] h = refl
strip_dot-host_chars (c ∷ []) h = elim (Bool-cases (c == b'.')) [
  | inl e ↦ rw e refl
  | inr e ↦ rw e h
]
strip_dot-host_chars (c ∷ d ∷ s) h =
    let (hc, hs) = both (is_host_char c) (all is_host_char (d ∷ s)) h in
    rw (hc, strip_dot-host_chars (d ∷ s) hs) refl

lower-all :
    (s : Str)
    → all is_host_char s ≡ true
    → All (λ c. is_lower_host_char c ≡ true) (map to_ascii_lowercase s)
lower-all [] h = tt
lower-all (c ∷ s) h = (lower-host_char c (ground arith), lower-all s (ground arith))

begins_with_dot-lower : (s : Str) → begins_with_dot (map to_ascii_lowercase s) ≡ begins_with_dot s
unfolding begins_with_dot
begins_with_dot-lower [] = refl
begins_with_dot-lower (c ∷ s) = lower-dot c

has_two_dots-lower : (s : Str) → has_two_dots (map to_ascii_lowercase s) ≡ has_two_dots s
unfolding has_two_dots
has_two_dots-lower [] = refl
has_two_dots-lower (c ∷ s) = rw (lower-dot c, begins_with_dot-lower s, has_two_dots-lower s) refl

has_two_dots-append : (front rest : Str) → has_two_dots (front ++ b'.' ∷ b'.' ∷ rest) ≡ true
unfolding has_two_dots begins_with_dot
has_two_dots-append [] rest = refl
has_two_dots-append (c ∷ front) rest =
    or_true (c == b'.' && begins_with_dot (front ++ b'.' ∷ b'.' ∷ rest)) _
      (has_two_dots-append front rest)

not-true : (b : Bool) → not b ≡ false → b ≡ true
not-true true h = refl
not-true false h = cc

map-ne-nil : (s : Str) → beq s [] ≡ false → map to_ascii_lowercase s ≢ []
map-ne-nil [] h = cc
map-ne-nil (c ∷ s) h = cc

lowered-IsHostName :
    (s : Str)
    → all is_host_char s ≡ true
    → beq s [] ≡ false
    → begins_with_dot s ≡ false
    → has_two_dots s ≡ false
    → IsHostName (map to_ascii_lowercase s)
unfolding begins_with_dot
lowered-IsHostName s chars filled front two = (
  map-ne-nil s filled,
  lower-all s chars,
  λ rest e. cc (sym (begins_with_dot-lower s) ∙ ap begins_with_dot e, front),
  λ a b e. cc (sym (has_two_dots-lower s) ∙ ap has_two_dots e ∙ has_two_dots-append a b, two),
)

pub check_host_sound : (host name : Str) → check_host host ≡ ok name → IsHostName name
unfolding check_host
check_host_sound host name h =
    let stripped = strip_dot host in
    let (chars, h') = reject-eq-ok (not (all is_host_char host)) _ _ h in
    let (fine, done) =
      reject-eq-ok (beq stripped [] || begins_with_dot stripped || has_two_dots stripped) _
        (ok (map to_ascii_lowercase stripped)) h' in
    let (fine', two) =
      neither (beq stripped [] || begins_with_dot stripped) (has_two_dots stripped) fine in
    let (filled, front) = neither (beq stripped []) (begins_with_dot stripped) fine' in
    let same : map to_ascii_lowercase stripped ≡ name = cc done in
    subst (λ t. IsHostName t) same
      (lowered-IsHostName stripped
        (strip_dot-host_chars host (not-true (all is_host_char host) chars)) filled front two)
