-- ===== src/Tests/Programs.antt =====
-- The programs and the parsers on the packets of `Data`.
use defrizer.Common.{◌≡◌, refl, [], ptr_add, ◌∷◌, some, pos}
use defrizer.Endian.{
  little, big, bpf_runtime_htons, bpf_htons, bpf_ntohs, bpf_constant_htons, bpf_swab16,
  builtin_bswap,
}
use defrizer.Uapi.{linux, linux-IsLayout}
use defrizer.Memory.{load8, load16}
use defrizer.Memory.Laws.{At-start}
use defrizer.Spec.Layers.{classify, ethernet, ipv4, ipv6, tcp_length, tcp_is_whole, octet, be16}
use defrizer.Spec.Policy.{sock_spec, event_policy}
use defrizer.Parse.{
  parse_ethhdr, vlan_loop, proto_is_vlan, collect_vlan, parse_ethhdr_vlan, parse_iphdr,
  parse_ip6hdr, parse_tcphdr, parse_udphdr,
}
use defrizer.Parse.Refine.{
  Reads, behind, parse_iphdr-Reads, parse_ip6hdr-Reads, parse_tcphdr_lem, parse_udphdr_lem,
}
use defrizer.Parse.Link.{ReadsLink, link_ids, parse_ethhdr_vlan-Reads}
use defrizer.Program.Sock.{xdp_sock_prog, sock_ip, sock_tcp, parse_ip}
use defrizer.Program.Sock.Refine.{xdp_sock_prog_refines}
use defrizer.Program.Action.{action_code}
use defrizer.Program.Event.{perf_event_test}
use defrizer.Program.Event.Refine.{perf_event_test_refines}
use defrizer.Tests.Data.{
  tagged_segment, tagged_segment-IsPlaced, ip_packet, ip6_packet, udp_packet, tcp_packet,
  ip_packet-IsPlaced, ip6_packet-IsPlaced, udp_packet-IsPlaced, tcp_packet-IsPlaced, counting,
  recording,
}

xdp_sock_prog_refines_example :
    xdp_sock_prog counting linux little tagged_segment 0
    ≡ some (sock_spec counting linux tagged_segment 0)
xdp_sock_prog_refines_example =
    xdp_sock_prog_refines counting little tagged_segment 0 linux-IsLayout tagged_segment-IsPlaced

perf_event_test_refines_example :
    perf_event_test recording linux big tagged_segment 0
    ≡ some (event_policy recording linux big 0 (classify linux tagged_segment.frame))
perf_event_test_refines_example =
    perf_event_test_refines recording big tagged_segment 0 linux-IsLayout tagged_segment-IsPlaced

-- The segment is redirected once, on both byte orders.
segment_redirected :
    (xdp_sock_prog counting linux little tagged_segment 0 ≡ some (pos 4, 1))
    × (xdp_sock_prog counting linux big tagged_segment 0 ≡ some (pos 4, 1))
unfolding xdp_sock_prog sock_ip sock_tcp parse_ip parse_ethhdr parse_ethhdr_vlan vlan_loop
    proto_is_vlan collect_vlan parse_iphdr parse_tcphdr load8 load16 ptr_add bpf_htons bpf_ntohs
    bpf_constant_htons bpf_runtime_htons bpf_swab16 builtin_bswap action_code
segment_redirected = (refl, refl)

parse_ethhdr_vlan-Reads_example :
    ReadsLink little tagged_segment 4096
      (ethernet linux tagged_segment.frame)
      (link_ids linux tagged_segment.frame (some (record { id = 0 ∷ 0 ∷ [] })))
      (parse_ethhdr_vlan linux little tagged_segment 4096 (some (record { id = 0 ∷ 0 ∷ [] })))
parse_ethhdr_vlan-Reads_example =
    parse_ethhdr_vlan-Reads little linux-IsLayout tagged_segment-IsPlaced (At-start tagged_segment)
      (some (record { id = 0 ∷ 0 ∷ [] }))

-- The tag's identifier 5 is collected.
tag_collected :
    parse_ethhdr_vlan linux little tagged_segment 4096 (some (record { id = 0 ∷ 0 ∷ [] }))
    ≡ some
        (record { ret = pos 8; cursor = 4114; hdr = some 4096 }, some (record { id = 5 ∷ 0 ∷ [] }))
unfolding parse_ethhdr_vlan vlan_loop proto_is_vlan collect_vlan load8 load16 ptr_add bpf_htons
    bpf_ntohs bpf_constant_htons bpf_runtime_htons bpf_swab16 builtin_bswap
tag_collected = refl

parse_iphdr-Reads_example :
    Reads (λ p. p) ip_packet 4096 (ipv4 linux ip_packet.frame) (parse_iphdr linux ip_packet 4096)
parse_iphdr-Reads_example = parse_iphdr-Reads linux-IsLayout ip_packet-IsPlaced (At-start ip_packet)

parse_ip6hdr-Reads_example :
    Reads
      (λ p. p)
      ip6_packet
      4096
      (ipv6 linux ip6_packet.frame)
      (parse_ip6hdr linux ip6_packet 4096)
parse_ip6hdr-Reads_example =
    parse_ip6hdr-Reads linux-IsLayout ip6_packet-IsPlaced (At-start ip6_packet)

parse_tcphdr_example : parse_tcphdr linux tcp_packet 4096 ≡ some (behind 4096 20 20)
unfolding tcp_is_whole tcp_length octet
parse_tcphdr_example = parse_tcphdr_lem linux-IsLayout tcp_packet-IsPlaced (At-start tcp_packet)

parse_udphdr_example :
    parse_udphdr linux little udp_packet 4096
    ≡ some (record { ret = pos 4; cursor = 4104; hdr = some 4096 })
unfolding be16 octet ptr_add
parse_udphdr_example =
    parse_udphdr_lem linux-IsLayout udp_packet-IsPlaced (At-start udp_packet) little
