-- ===== src/Backend/Packet/Tests.antt =====
-- Tests of packets, and the theorem about frames at one of them.
use bypass_io.Prelude.{ℕ, ◌≡◌, ◌↔◌, refl, List, [], ◌∷◌, ◌++◌, some, none, arith}
use bypass_io.Backend.Packet.{be16, byte_at, UdpHeader, udp, udp_payload}
use bypass_io.Backend.Packet.Frames.{Framed, udp-Framed, udp_payload_lem}

abbrev eth_head : List ℕ
eth_head = 1 ∷ 0 ∷ 94 ∷ 0 ∷ 0 ∷ 1 ∷ 2 ∷ 0 ∷ 0 ∷ 0 ∷ 0 ∷ 1 ∷ 8 ∷ 0 ∷ []

abbrev ip_head : List ℕ
ip_head =
    0x45 ∷ 0 ∷ 0 ∷ 30 ∷ 0 ∷ 0 ∷ 0 ∷ 0 ∷ 64 ∷ 17 ∷ 0 ∷ 0 ∷ 192 ∷ 0 ∷ 2 ∷ 10 ∷ 239 ∷ 1 ∷ 2 ∷ 3 ∷ []

-- From port 5000 to port 6000, 10 bytes with the header.
abbrev udp_bytes : List ℕ
udp_bytes = 19 ∷ 136 ∷ 23 ∷ 112 ∷ 0 ∷ 10 ∷ 0 ∷ 0 ∷ []

abbrev frame : List ℕ
frame = eth_head ++ (ip_head ++ (udp_bytes ++ (7 ∷ 8 ∷ [])))

frame-Framed : Framed frame (7 ∷ 8 ∷ [])
frame-Framed = record {
  eth = eth_head;
  ip = ip_head;
  udp_head = udp_bytes;
  split = refl;
  eth_length = refl;
  ether_type = refl;
  version = refl;
  ip_length = refl;
  ip_long = omega arith;
  protocol = refl;
  udp_length = refl;
}

abbrev ports : UdpHeader
ports = record { src_port = 5000; dst_port = 6000; len = 10 }

udp-Framed_example : (udp_payload frame ≡ some (7 ∷ 8 ∷ [])) × (udp frame ≡ some ports)
unfolding frame-Framed
udp-Framed_example = udp-Framed frame (7 ∷ 8 ∷ []) frame-Framed

-- `packet_rejects_truncated_headers`
truncated : udp_payload (1 ∷ 2 ∷ 3 ∷ []) ≡ none
unfolding udp_payload bypass_io.Backend.Packet.ipv4 bypass_io.Backend.Packet.ethernet
    bypass_io.Backend.Packet.parse_ethernet bypass_io.Backend.Packet.prefix
truncated = refl

udp_payload_lem_example : (udp_payload frame ≡ some (7 ∷ 8 ∷ [])) ↔ Framed frame (7 ∷ 8 ∷ [])
udp_payload_lem_example = udp_payload_lem frame (7 ∷ 8 ∷ [])
