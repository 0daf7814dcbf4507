-- ===== src/Connect/Tests.antt =====
-- Runs of the CONNECT proxy's checks of src/bridge.rs, and instances of their theorems.
use arapuca.Prelude.{◌≡◌, ◌↔◌, refl, true, false, not, any, codes, arith}
use arapuca.Connect.{
  Ipv6Addr, v6, ipv4, AllowedHost, is_safe_ipv4, is_safe_resolved_ip, judged_or, to_ipv4,
  nat64_embedded_ipv4, is_nat64_local, sixto4_embedded_ipv4, teredo_embedded_ipv4, is_safe_native,
  host_matches, ends_with, matches,
}
use arapuca.Connect.Blocks.{in_block, number, blocked, is_safe_ipv4_lem}
use arapuca.Connect.Embedded.{sixto4, embed, with_tail, is_safe_resolved_ip-embed}
use arapuca.Connect.Native.{is_in, refused_networks, is_safe_resolved_ip-native}
use arapuca.Connect.Hosts.{Covers, matches_iff}

metadata_refused : is_safe_ipv4 (ipv4 169 254 169 254) ≡ false
unfolding is_safe_ipv4
metadata_refused = refl

public_accepted : is_safe_ipv4 (ipv4 93 184 216 34) ≡ true
unfolding is_safe_ipv4
public_accepted = refl

link_local_refused : is_safe_resolved_ip (v6 (with_tail 0xfe80 0 0 0 0 0 0 1)) ≡ false
unfolding is_safe_resolved_ip judged_or to_ipv4 nat64_embedded_ipv4 is_nat64_local
    sixto4_embedded_ipv4 teredo_embedded_ipv4 is_safe_native
link_local_refused = refl

is_safe_ipv4_lem_example :
    is_safe_ipv4 (ipv4 100 127 0 1) ≡ not (any (in_block (number 100 127 0 1)) blocked)
is_safe_ipv4_lem_example =
    is_safe_ipv4_lem 100 127 0 1 (omega arith) (omega arith) (omega arith) (omega arith)

is_safe_resolved_ip-embed_example :
    is_safe_resolved_ip (v6 (embed (sixto4 7 1 2 3 4) 10 0 0 1)) ≡ is_safe_ipv4 (ipv4 10 0 0 1)
is_safe_resolved_ip-embed_example =
    is_safe_resolved_ip-embed 10 0 0 1 (omega arith) (omega arith) (omega arith) (omega arith)
      (sixto4 7 1 2 3 4)

abbrev google : AllowedHost
google = record { host = codes ".googleapis.com"; port = 443 }

lookalike_refused : matches google (codes "evilgoogleapis.com") 443 ≡ false
unfolding matches host_matches ends_with
lookalike_refused = refl

matches_iff_example :
    (matches google (codes "storage.googleapis.com") 443 ≡ true)
    ↔ ((google.port ≡ 443) × Covers google.host (codes "storage.googleapis.com"))
matches_iff_example = matches_iff google (codes "storage.googleapis.com") 443

-- 2606:4700::1111
abbrev cloudflare : Ipv6Addr
cloudflare = with_tail 0x2606 0x4700 0 0 0 0 0 0x1111

-- fd00::1
abbrev unique_local : Ipv6Addr
unique_local = with_tail 0xfd00 0 0 0 0 0 0 1

is_safe_resolved_ip-native_example :
    is_safe_resolved_ip (v6 cloudflare) ≡ not (any (is_in cloudflare) refused_networks)
is_safe_resolved_ip-native_example = is_safe_resolved_ip-native cloudflare refl (omega arith)

unique_local_refused : not (any (is_in unique_local) refused_networks) ≡ false
unique_local_refused = refl
