-- ===== src/Connect/Request/Tests.antt =====
-- Runs of the CONNECT proxy of src/bridge.rs, and instances of the theorems on its requests.
use arapuca.Prelude.{
  ◌≡◌, ◌≤◌, refl, List, [], ◌∷◌, ◌++◌, true, some, ok, err, Bytes, Str, codes, length,
}
use arapuca.Prelude.Cut.{rsplit_once, max_u16}
use arapuca.Prelude.Decimal.{parse_unsigned, fitting, read_digits}
use arapuca.Prelude.Trim.{is_whitespace, split_spaces, split_whitespace}
use arapuca.Prelude.Utf8.Coding.{from_utf8, decode, feed, first_byte, go_on_from}
use arapuca.Protocol.Io.{eof}
use arapuca.Connect.{
  AllowedHost, v4, ipv4, ends_with, host_matches, matches, is_safe_resolved_ip, is_safe_ipv4,
}
use arapuca.Connect.Request.{
  max_connect_request, header_end, read_header, ended_line, strip_return, first_line, strip_dot,
  begins_with_dot, has_two_dots, check_host, parse_target, parse_parts, parse_head,
  parse_connect_request,
}
use arapuca.Connect.Request.Names.{IsHostName}
use arapuca.Connect.Request.Sound.{parse_connect_request_sound}
use arapuca.Connect.Handle.{
  Network, relayed, find_safe, connect_to, dial, is_allowed, answer_to, handle_connect, IsAllowed,
  IsTarget, handle_connect-IsAllowed,
}

abbrev request : Bytes
request = codes "CONNECT API.a:443 HTTP/1.1\r\nHost: x\r\n\r\n"

accepted : parse_connect_request (request ++ 22 ∷ []) ≡ ok ((codes "api.a", 443), 22 ∷ [])
unfolding parse_connect_request read_header ends_with parse_head from_utf8 decode feed first_byte
    go_on_from first_line ended_line strip_return split_whitespace split_spaces is_whitespace
    parse_parts parse_target rsplit_once parse_unsigned fitting read_digits check_host strip_dot
    begins_with_dot has_two_dots
accepted = refl

cut_short : parse_connect_request (codes "CONNECT a:1 HTTP/1.1\r\n") ≡ err eof
unfolding parse_connect_request read_header ends_with
cut_short = refl

-- The test for two dots comes behind the removal of one at the end.
two_dots_at_the_end : check_host (codes "a..") ≡ ok (codes "a.")
unfolding check_host strip_dot begins_with_dot has_two_dots
two_dots_at_the_end = refl

parse_connect_request_sound_example :
    IsHostName (codes "api.a")
    × (1 ≤ 443)
    × (443 ≤ max_u16)
    × ((front : Bytes) × (request ++ 22 ∷ [] ≡ (front ++ header_end) ++ 22 ∷ [])
        × (length (front ++ header_end) ≤ max_connect_request))
parse_connect_request_sound_example =
    parse_connect_request_sound (request ++ 22 ∷ []) (22 ∷ []) (codes "api.a") 443 accepted

-- A network that resolves every name to a private address and a public one.
abbrev network : Network
network = record {
  to_socket_addrs = λ host port. some (v4 (ipv4 10 0 0 1) ∷ v4 (ipv4 8 8 8 8) ∷ []);
  connect = λ ip port. true;
}

abbrev rules : List AllowedHost
rules = record { host = codes ".a"; port = 443 } ∷ []

relay :
    handle_connect network rules (request ++ 22 ∷ [])
    ≡ ok (relayed (v4 (ipv4 8 8 8 8)) 443, 22 ∷ [])
unfolding handle_connect answer_to is_allowed matches host_matches ends_with dial connect_to
    find_safe is_safe_resolved_ip is_safe_ipv4 parse_connect_request read_header parse_head
    from_utf8 decode feed first_byte go_on_from first_line ended_line strip_return split_whitespace
    split_spaces is_whitespace parse_parts parse_target rsplit_once parse_unsigned fitting
    read_digits check_host strip_dot begins_with_dot has_two_dots
relay = refl

handle_connect-IsAllowed_example :
    (host : Str) × (parse_connect_request (request ++ 22 ∷ []) ≡ ok ((host, 443), 22 ∷ []))
    × IsAllowed rules (strip_dot host) 443
    × IsTarget network host 443 (v4 (ipv4 8 8 8 8))
handle_connect-IsAllowed_example =
    handle_connect-IsAllowed network rules (request ++ 22 ∷ []) (22 ∷ []) (v4 (ipv4 8 8 8 8)) 443
      relay
