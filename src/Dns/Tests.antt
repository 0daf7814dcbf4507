-- ===== src/Dns/Tests.antt =====
-- Runs of the DNS parser of src/dns.rs, and an instance of its theorem.
use arapuca.Prelude.{
  ◌++◌, ◌+◌, ◌*◌, ◌≡◌, refl, true, List, [], ◌∷◌, ◌≢◌, err, Bytes, none, some, codes, arith, All,
}
use arapuca.Dns.{out_of_rounds, longer, label_accepted, read_labels, finish, parse_query, name_of}
use arapuca.Dns.Accepted.{read_labels_sound, IsName}
use arapuca.Dns.Enough.{label_loops-end}
use arapuca.Dns.Nxdomain.{
  build_nxdomain, skip_labels, nxdomain_flags, answer_header, build_nxdomain-packet,
}
use arapuca.Dns.RoundTrip.{encode_labels, IsLabel, packet, parse_query-packet}

abbrev example_org : List Bytes
example_org = codes "example" ∷ codes "org" ∷ []

-- A recursive query of type AAAA in the class of the internet.
abbrev query_packet : Bytes
query_packet = packet 1 2 1 0 0 1 0 0 0 0 0 0 0 28 0 1 example_org []

pointer_refused :
    parse_query (0 ∷ 0 ∷ 0 ∷ 0 ∷ 0 ∷ 1 ∷ 0 ∷ 0 ∷ 0 ∷ 0 ∷ 0 ∷ 0 ∷ 0xc0 ∷ 12 ∷ []) ≡ none
unfolding parse_query finish read_labels label_accepted longer
pointer_refused = refl

example_org_labels : All IsLabel example_org
example_org_labels = ((omega arith, omega arith, refl), ((omega arith, omega arith, refl), tt))

parse_query-packet_example :
    parse_query query_packet
    ≡ some (record { id = 258; domain = name_of example_org; qtype = 28; qclass = 1 })
unfolding longer
parse_query-packet_example =
    parse_query-packet 1 2 1 0 0 1 0 0 0 0 0 0 0 28 0 1 example_org [] refl refl example_org_labels
      (omega arith)

-- "a" and the end of the name, with two bytes behind it.
abbrev short_name : Bytes
short_name = 1 ∷ b'a' ∷ 0 ∷ 9 ∷ 9 ∷ []

label_loops-end_example :
    (read_labels 6 true 0 short_name ≢ err out_of_rounds)
    × (skip_labels 6 short_name ≢ err out_of_rounds)
label_loops-end_example = label_loops-end 6 true 0 short_name (omega arith)

read_labels_sound_example : IsName true 0 short_name (codes "a" ∷ []) (9 ∷ 9 ∷ [])
unfolding read_labels label_accepted longer
read_labels_sound_example =
    read_labels_sound 6 true 0 short_name (codes "a" ∷ []) (9 ∷ 9 ∷ []) (omega arith) refl

recursion_kept : nxdomain_flags 0x0100 ≡ 0x8503
unfolding nxdomain_flags
recursion_kept = refl

build_nxdomain-packet_example :
    build_nxdomain query_packet (1 * 256 + 2)
    ≡ answer_header 1 2 1 ++ (encode_labels example_org ++ (0 ∷ 28 ∷ 0 ∷ 1 ∷ []))
build_nxdomain-packet_example =
    build_nxdomain-packet 1 2 1 0 0 1 0 0 0 0 0 0 0 28 0 1 example_org [] 1 2 (omega arith)
      (omega arith) (omega arith) (omega arith) example_org_labels

header_of_query : answer_header 1 2 1 ≡ 1 ∷ 2 ∷ 0x85 ∷ 3 ∷ 0 ∷ 1 ∷ 0 ∷ 0 ∷ 0 ∷ 0 ∷ 0 ∷ 0 ∷ []
header_of_query = refl
