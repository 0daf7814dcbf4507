-- ===== src/Env/ConnectProxy.antt =====
-- `connect_proxy_env` and `parse_connect_proxy_env` of src/env.rs. Hosts are lists of characters.
use arapuca.Prelude.{
  ℕ, ◌≡◌, ◌≢◌, refl, ◌≤◌, List, [], ◌∷◌, ◌++◌, false, ◌||◌, Option, none, some, Result, ok, ◌>>=◌,
  ◌>>◌, reject, ok_or, ◌==◌, if◌then◌else◌, Str, codes, beq, beq_ne, contains, is_ascii_digit,
  split, join, map, All, All-append, Lacks, arith, split-join,
}
use arapuca.Prelude.Decimal.{
  to_string, parse_unsigned, to_string-IsDigit, IsDigit, digit-ne, parse_unsigned-to_string,
}
use arapuca.Prelude.Trim.{trim, is_whitespace, IsSolid, trim-IsSolid}
use arapuca.Error.{Error, validation}
use arapuca.Connect.{AllowedHost}
use arapuca.Env.{Variable}
use arapuca.Prelude.Cut.{max_u16, rsplit_once, rsplit_once-Lacks}

abbrev pub entry : AllowedHost → Str
entry h = h.host ++ b':' ∷ to_string h.port

-- The loop over the hosts.
unfoldable pub entries : List AllowedHost → Result Error (List Str)
entries [] = ok []
entries (h ∷ hosts) = do
  reject (contains b',' h.host || contains b':' h.host)
      (validation "allowed host must not contain ',' or ':'")
  parts ← entries hosts
  ok (entry h ∷ parts)

unfoldable pub connect_proxy_env : List AllowedHost → Result Error (Option Variable)
connect_proxy_env [] = ok none
connect_proxy_env (h ∷ hosts) = do
  parts ← entries (h ∷ hosts)
  ok (some (codes "ARAPUCA_CONNECT_PROXY", join b',' parts))

-- An entry that is not empty.
unfoldable pub parse_entry : Str → Result Error AllowedHost
parse_entry pair = do
  (host, port_str) ←
      ok_or (rsplit_once b':' pair)
        (validation "invalid ARAPUCA_CONNECT_PROXY entry (expected host:port)")
  port ←
      ok_or (parse_unsigned max_u16 port_str)
        (validation "invalid port in ARAPUCA_CONNECT_PROXY entry")
  reject (port == 0) (validation "port must be 1-65535 in ARAPUCA_CONNECT_PROXY entry")
  ok (record { host = host; port = port })

-- The loop over the entries; the hosts of `rest` follow.
unfoldable pub parse_entries : List Str → Result Error (List AllowedHost)
parse_entries [] = ok []
parse_entries (pair ∷ pairs) =
    let rest = parse_entries pairs in
    if beq (trim pair) []
    then rest
    else do h ← parse_entry (trim pair); hosts ← rest; ok (h ∷ hosts)

abbrev pub unless_empty : List AllowedHost → Option (List AllowedHost)
unless_empty [] = none
unless_empty (h ∷ hosts) = some (h ∷ hosts)

unfoldable pub parse_connect_proxy_env : Option Str → Result Error (Option (List AllowedHost))
parse_connect_proxy_env none = ok none
parse_connect_proxy_env (some val) = do
  hosts ← parse_entries (split b',' val)
  ok (unless_empty hosts)

-- A rule that the variable can carry: a host without a separator or white space, and a port.
abbrev pub IsCarried : AllowedHost → Type 0
IsCarried h =
    All (λ c. (c ≢ b',') × (c ≢ b':') × IsSolid c) h.host × (1 ≤ h.port) × (h.port ≤ max_u16)

digit-IsSolid : (c : ℕ) → IsDigit c → IsSolid c
unfolding IsDigit IsSolid is_whitespace
digit-IsSolid c h = ground arith

colon-IsSolid : IsSolid b':'
unfolding IsSolid is_whitespace
colon-IsSolid = refl

digits-Lacks : (sep : ℕ) (s : Str) → is_ascii_digit sep ≡ false → All IsDigit s → Lacks sep s
digits-Lacks sep [] h k = tt
digits-Lacks sep (c ∷ s) h (d, k) = (digit-ne c sep d h, digits-Lacks sep s h k)

digits_are-IsSolid : (s : Str) → All IsDigit s → All IsSolid s
digits_are-IsSolid [] k = tt
digits_are-IsSolid (c ∷ s) (d, k) = (digit-IsSolid c d, digits_are-IsSolid s k)

All-map {ℓ κ μ} :
    {A : Type ℓ} (P : A → Type κ) (Q : A → Type μ) (xs : List A)
    → ((x : A) → P x → Q x)
    → All P xs
    → All Q xs
All-map P Q [] f h = tt
All-map P Q (x ∷ xs) f (hx, h) = (f x hx, All-map P Q xs f h)

Lacks-contains : (c : ℕ) (s : Str) → Lacks c s → contains c s ≡ false
Lacks-contains c [] h = refl
Lacks-contains c (x ∷ s) (hx, h) = ground (arith, Lacks-contains c s h)

module _ (h : AllowedHost) (carried : IsCarried h) where
  entry-IsSolid : All IsSolid (entry h)
  entry-IsSolid =
      All-append IsSolid h.host _ (All-map _ IsSolid h.host (λ c k. k.2) carried.0)
        (colon-IsSolid, digits_are-IsSolid (to_string h.port) (to_string-IsDigit h.port))

  entry-Lacks : Lacks b',' (entry h)
  entry-Lacks =
      All-append (λ c. c ≢ b',') h.host _ (All-map _ _ h.host (λ c k. k.0) carried.0)
        (cc, digits-Lacks b',' (to_string h.port) refl (to_string-IsDigit h.port))

  entries_step :
      (hosts : List AllowedHost) (parts : List Str)
      → entries hosts ≡ ok parts
      → entries (h ∷ hosts) ≡ ok (entry h ∷ parts)
  unfolding entries
  entries_step hosts parts e =
      let no_comma = Lacks-contains b',' h.host (All-map _ _ h.host (λ c k. k.0) carried.0) in
      let no_colon = Lacks-contains b':' h.host (All-map _ _ h.host (λ c k. k.1) carried.0) in
      rw (no_comma, no_colon) (rw e refl)

  parse_entry-entry : parse_entry (entry h) ≡ ok h
  unfolding parse_entry
  parse_entry-entry =
      let no_colon = digits-Lacks b':' (to_string h.port) refl (to_string-IsDigit h.port) in
      let some_port : (h.port == 0) ≡ false = ground arith in
      rw
        (
          rsplit_once-Lacks b':' h.host (to_string h.port) no_colon,
          parse_unsigned-to_string max_u16 h.port carried.2,
          some_port,
        )
        refl

  entry-ne-nil : entry h ≢ []
  entry-ne-nil = ends h.host
    where
      ends : (xs : Str) → xs ++ b':' ∷ to_string h.port ≢ []
      ends [] = cc
      ends (x ∷ xs) = cc

  parse_entries_step :
      (pairs : List Str) (hosts : List AllowedHost)
      → parse_entries pairs ≡ ok hosts
      → parse_entries (entry h ∷ pairs) ≡ ok (h ∷ hosts)
  unfolding parse_entries
  parse_entries_step pairs hosts e =
      rw (trim-IsSolid (entry h) entry-IsSolid)
        (rw (beq_ne (entry h) [] entry-ne-nil) (rw parse_entry-entry (rw e refl)))

-- The loops over a list that can be carried.
entries_carried :
    (hosts : List AllowedHost)
    → All IsCarried hosts
    → (entries hosts ≡ ok (map entry hosts))
      × (parse_entries (map entry hosts) ≡ ok hosts)
      × All (Lacks b',') (map entry hosts)
unfolding entries parse_entries
entries_carried [] c = (refl, refl, tt)
entries_carried (h ∷ hosts) (c, cs) =
    let (written, read, lacks) = entries_carried hosts cs in
    (
      entries_step h c hosts (map entry hosts) written,
      parse_entries_step h c (map entry hosts) hosts read,
      (entry-Lacks h c, lacks),
    )

-- A list of rules goes through its environment variable unchanged, if it is not empty, each port is
-- between 1 and 65535, and no host holds a comma, a colon or white space.
pub parse_connect_proxy_env-connect_proxy_env :
    (h : AllowedHost) (hosts : List AllowedHost)
    → All IsCarried (h ∷ hosts)
    → (value : Str) × (connect_proxy_env (h ∷ hosts)
        ≡ ok (some (codes "ARAPUCA_CONNECT_PROXY", value)))
      × (parse_connect_proxy_env (some value) ≡ ok (some (h ∷ hosts)))
unfolding connect_proxy_env parse_connect_proxy_env
parse_connect_proxy_env-connect_proxy_env h hosts c =
    let (written, read, lacks) = entries_carried (h ∷ hosts) c in
    (
      join b',' (map entry (h ∷ hosts)),
      rw written refl,
      rw (split-join b',' (entry h) (map entry hosts) lacks) (rw read refl),
    )
