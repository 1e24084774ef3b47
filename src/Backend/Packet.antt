-- ===== src/Backend/Packet.antt =====
-- Packets of bypass-io/src/backend/dpdk.rs: the headers that are read from the bytes of a
-- frame. An index into a slice of a header is inside it, as the slice was taken with
-- the header's length.
pub mod Frames
mod Tests
use bypass_io.Prelude.{
  ℕ, zero, suc, ◌+◌, ◌*◌, ◌/◌, ◌%◌, ◌==◌, Bool, true, false, not, List, [], ◌∷◌, Option, none, some,
  Result, ok, err, ◌>>◌, guard, length, get_elem?, take, drop, if◌then◌else◌, leb, ltb, checked_add,
  ◌&&◌,
}

abbrev pub bind_option {ℓ κ} : {A : Type ℓ} {B : Type κ} → Option A → (A → Option B) → Option B
bind_option none next = none
bind_option (some a) next = next a

-- `data.get(..n)` and `data.get(n..)`
unfoldable pub prefix : ℕ → List ℕ → Option (List ℕ)
prefix n data_of = if leb n (length data_of) then some (take n data_of) else none

unfoldable pub suffix : ℕ → List ℕ → Option (List ℕ)
suffix n data_of = if leb n (length data_of) then some (drop n data_of) else none

-- `header[i]`
abbrev pub byte_at : List ℕ → ℕ → ℕ
byte_at [] i = 0
byte_at (b ∷ bs) zero = b
byte_at (b ∷ bs) (suc i) = byte_at bs i

-- `u16::from_be_bytes`
abbrev pub be16 : ℕ → ℕ → ℕ
be16 high low = high * 256 + low

abbrev pub ethernet_header_len : ℕ
ethernet_header_len = 14

abbrev pub ipv4_min_header_len : ℕ
ipv4_min_header_len = 20

abbrev pub udp_header_len : ℕ
udp_header_len = 8

abbrev pub ip_proto_udp : ℕ
ip_proto_udp = 17

pub data EtherType : Type 0 where
  ipv4_type : EtherType
  ipv6_type : EtherType
  arp_type : EtherType
  other_type : ℕ → EtherType

-- `EtherType::from`
unfoldable pub ether_type_from : ℕ → EtherType
ether_type_from value =
    if value == 0x0800
    then ipv4_type
    else if value == 0x86dd
    then ipv6_type
    else if value == 0x0806
    then arp_type
    else other_type value

pub record EthernetHeader : Type 0 where
  pub dst : List ℕ
  pub src : List ℕ
  pub ether_type : EtherType

-- `EthernetHeader::parse`
unfoldable pub parse_ethernet : List ℕ → Option EthernetHeader
parse_ethernet data_of = bind_option (prefix ethernet_header_len data_of) λ header. some (record {
  dst = take 6 header;
  src = take 6 (drop 6 header);
  ether_type = ether_type_from (be16 (byte_at header 12) (byte_at header 13));
})

pub record Ipv4Addr : Type 0 where
  pub a : ℕ
  pub b : ℕ
  pub c : ℕ
  pub d : ℕ

pub record Ipv4Header : Type 0 where
  pub header_len : ℕ
  pub protocol : ℕ
  pub src : Ipv4Addr
  pub dst : Ipv4Addr

abbrev pub addr_at : List ℕ → ℕ → Ipv4Addr
addr_at header i = record {
  a = byte_at header i;
  b = byte_at header (i + 1);
  c = byte_at header (i + 2);
  d = byte_at header (i + 3);
}

-- `Ipv4Header::parse`; the length is a byte.
unfoldable pub parse_ipv4 : List ℕ → Option Ipv4Header
parse_ipv4 data_of = bind_option (get_elem? data_of 0) λ first.
    if not (first / 16 == 4)
    then none
    else bind_option (if ltb (first % 16 * 4) 256 then some (first % 16 * 4) else none)
        λ header_len.
          if ltb header_len ipv4_min_header_len
          then none
          else bind_option (prefix header_len data_of) λ header. some (record {
            header_len = header_len;
            protocol = byte_at header 9;
            src = addr_at header 12;
            dst = addr_at header 16;
          })

pub record UdpHeader : Type 0 where
  pub src_port : ℕ
  pub dst_port : ℕ
  pub len : ℕ

-- `UdpHeader::parse`
unfoldable pub parse_udp : List ℕ → Option UdpHeader
parse_udp data_of = bind_option (prefix udp_header_len data_of) λ header. some (record {
  src_port = be16 (byte_at header 0) (byte_at header 1);
  dst_port = be16 (byte_at header 2) (byte_at header 3);
  len = be16 (byte_at header 4) (byte_at header 5);
})

abbrev pub is_ipv4 : EtherType → Bool
is_ipv4 ipv4_type = true
is_ipv4 _ = false

-- `Packet::ethernet`, of a packet with these bytes.
unfoldable pub ethernet : List ℕ → Option EthernetHeader
ethernet bytes = parse_ethernet bytes

-- `Packet::ipv4`
unfoldable pub ipv4 : List ℕ → Option Ipv4Header
ipv4 bytes = bind_option (ethernet bytes) λ e.
    if is_ipv4 e.ether_type then bind_option (suffix ethernet_header_len bytes) parse_ipv4 else none

-- `Packet::udp`
unfoldable pub udp : List ℕ → Option UdpHeader
udp bytes = bind_option (ipv4 bytes) λ ip.
    if ip.protocol == ip_proto_udp
    then bind_option (checked_add ethernet_header_len ip.header_len)
        (λ offset. bind_option (suffix offset bytes) parse_udp)
    else none

-- `Packet::udp_payload`
unfoldable pub udp_payload : List ℕ → Option (List ℕ)
udp_payload bytes = bind_option (ipv4 bytes) λ ip.
    if ip.protocol == ip_proto_udp
    then bind_option (checked_add ethernet_header_len ip.header_len)
        (λ start. bind_option (checked_add start udp_header_len) (λ offset. suffix offset bytes))
    else none
