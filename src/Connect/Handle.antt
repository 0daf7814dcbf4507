-- ===== src/Connect/Handle.antt =====
-- `handle_connect` of src/bridge.rs: what the proxy does with one request. Resolving a name and
-- connecting are the network's; writing the answer succeeds.
use arapuca.Prelude.{
  ℕ, ◌≡◌, refl, inl, inr, List, [], ◌∷◌, Bool, true, Option, none, some, Result, ok, ◌>>=◌,
  if◌then◌else◌, Bytes, Str, any, any_sound, Bool-cases, >>=-eq-ok,
}
use mathlib.Core.List.{Memᴰ}
use arapuca.Protocol.Io.{IoError}
use arapuca.Connect.{AllowedHost, IpAddr, matches, is_safe_resolved_ip}
use arapuca.Connect.Hosts.{Covers, matches_iff}
use arapuca.Connect.Request.{parse_connect_request, strip_dot}

-- The resolver of names, and whether a connection succeeds.
pub record Network : Type 0 where
  pub to_socket_addrs : Str → ℕ → Option (List IpAddr)
  pub connect : IpAddr → ℕ → Bool

-- What becomes of a request: the relay to an address, or what the client is told.
pub data Answer : Type 0 where
  relayed : IpAddr → ℕ → Answer
  not_allowed unresolved all_unsafe unreachable : Answer

unfoldable pub find_safe : List IpAddr → Option IpAddr
find_safe [] = none
find_safe (ip ∷ ips) = if is_safe_resolved_ip ip then some ip else find_safe ips

unfoldable pub connect_to : Network → ℕ → Option IpAddr → Answer
connect_to net port none = all_unsafe
connect_to net port (some ip) = if net.connect ip port then relayed ip port else unreachable

unfoldable pub dial : Network → Option (List IpAddr) → ℕ → Answer
dial net none port = unresolved
dial net (some ips) port = connect_to net port (find_safe ips)

unfoldable pub is_allowed : List AllowedHost → Str → ℕ → Bool
is_allowed allowlist host port = any (λ a. matches a (strip_dot host) port) allowlist

unfoldable pub answer_to : Network → List AllowedHost → Str × ℕ → Answer
answer_to net allowlist (host, port) =
    if is_allowed allowlist host port
    then dial net (net.to_socket_addrs host port) port
    else not_allowed

unfoldable pub handle_connect : Network → List AllowedHost → Bytes → Result IoError (Answer × Bytes)
handle_connect net allowlist stream = do
  (target, rest) ← parse_connect_request stream
  ok (answer_to net allowlist target, rest)

find_safe_sound :
    (ips : List IpAddr) (ip : IpAddr)
    → find_safe ips ≡ some ip
    → Memᴰ ip ips × (is_safe_resolved_ip ip ≡ true)
unfolding find_safe
find_safe_sound [] ip h = cc
find_safe_sound (x ∷ ips) ip h = elim (Bool-cases (is_safe_resolved_ip x)) [
  | inl e ↦ let same : x ≡ ip = cc (rw e at h) in rw (← same) (Memᴰ.head refl, e)
  | inr e ↦ let (m, safe) = find_safe_sound ips ip (rw e at h) in (Memᴰ.tail m, safe)
]

-- An address that the proxy may relay to: a resolved one that is safe.
abbrev pub IsTarget : Network → Str → ℕ → IpAddr → Type 0
IsTarget net host port ip =
    (ips : List IpAddr) × (net.to_socket_addrs host port ≡ some ips)
    × Memᴰ ip ips
    × (is_safe_resolved_ip ip ≡ true)
    × (net.connect ip port ≡ true)

connect_to-relayed :
    (net : Network) (port port' : ℕ) (o : Option IpAddr) (ip : IpAddr)
    → connect_to net port o ≡ relayed ip port'
    → (o ≡ some ip) × (port ≡ port') × (net.connect ip port ≡ true)
unfolding connect_to
connect_to-relayed net port port' none ip h = cc
connect_to-relayed net port port' (some x) ip h = elim (Bool-cases (net.connect x port)) [
  | inl e ↦
      let same : relayed x port ≡ relayed ip port' = rw e at h in (cc same, cc same, cc (same, e))
  | inr e ↦ absurd (cc (rw e at h))
]

dial-relayed :
    (net : Network) (host : Str) (port port' : ℕ) (o : Option (List IpAddr)) (ip : IpAddr)
    → net.to_socket_addrs host port ≡ o
    → dial net o port ≡ relayed ip port'
    → (port ≡ port') × IsTarget net host port ip
unfolding dial
dial-relayed net host port port' none ip e h = cc
dial-relayed net host port port' (some ips) ip e h =
    let (found, same, up) = connect_to-relayed net port port' (find_safe ips) ip h in
    let (m, safe) = find_safe_sound ips ip found in (same, (ips, e, m, safe, up))

-- The rule that lets a host and a port through.
abbrev pub IsAllowed : List AllowedHost → Str → ℕ → Type 0
IsAllowed allowlist host port =
    (rule : AllowedHost) × Memᴰ rule allowlist × (rule.port ≡ port) × Covers rule.host host

answer_to-relayed :
    (net : Network) (allowlist : List AllowedHost) (host : Str) (port port' : ℕ) (ip : IpAddr)
    → answer_to net allowlist (host, port) ≡ relayed ip port'
    → (port ≡ port') × IsAllowed allowlist (strip_dot host) port × IsTarget net host port ip
unfolding answer_to is_allowed
answer_to-relayed net allowlist host port port' ip h =
    elim (Bool-cases (any (λ a. matches a (strip_dot host) port) allowlist)) [
      | inl e ↦
          let (same, target) =
            dial-relayed net host port port' (net.to_socket_addrs host port) ip refl (rw e at h) in
          let (rule, m, lets) = any_sound (λ a. matches a (strip_dot host) port) allowlist e in
          let (q, c) = (matches_iff rule (strip_dot host) port).0 lets in
          (same, (rule, m, q, c), target)
      | inr e ↦ absurd (cc (rw e at h))
    ]

-- The proxy relays to an address only if a rule of the allowlist covers the host that the client
-- asked for and names its port, and the address is one that the host resolves to, that is safe, and
-- that the connection was made to. The port is the one that the client asked for.
pub handle_connect-IsAllowed :
    (net : Network) (allowlist : List AllowedHost) (stream rest : Bytes) (ip : IpAddr) (port : ℕ)
    → handle_connect net allowlist stream ≡ ok (relayed ip port, rest)
    → (host : Str) × (parse_connect_request stream ≡ ok ((host, port), rest))
      × IsAllowed allowlist (strip_dot host) port
      × IsTarget net host port ip
unfolding handle_connect
handle_connect-IsAllowed net allowlist stream rest ip port h =
    let (((host, asked), left), e, done) = >>=-eq-ok (parse_connect_request stream) _ h in
    let (same, allowed, target) = answer_to-relayed net allowlist host asked port ip (cc done) in
    let left_same : left ≡ rest = cc done in
    (host, rw (← same, ← left_same) e, rw (← same) allowed, rw (← same) target)
