-- ===== src/Backend/Packet/Frames.antt =====
-- Which frames bypass-io/src/backend/dpdk.rs reads as UDP datagrams, and what it finds in them.
use bypass_io.Prelude.{
  ℕ, zero, suc, ◌+◌, ◌-◌, ◌*◌, ◌/◌, ◌%◌, ◌<◌, ◌≤◌, ◌≡◌, ◌↔◌, refl, sym, ap, ◌∙◌, true, List, [],
  ◌∷◌, ◌++◌, Option, none, some, arith, length, length-append, length-take, length-drop, take, drop,
  take-append-drop, drop-drop, take-append_of_length, drop-append_of_length, append_assoc,
  get_elem?,
}
use bypass_io.Backend.Packet.{
  prefix, suffix, byte_at, be16, ether_type_from, parse_ethernet, parse_ipv4, parse_udp, ethernet,
  ipv4, udp, udp_payload, is_ipv4, bind_option, addr_at, EthernetHeader, Ipv4Header,
}

-- The frame is an Ethernet header of type IPv4, an IPv4 header as long as it says, of protocol UDP, a
-- UDP header, and the payload.
pub record Framed (bytes payload : List ℕ) : Type 0 where
  pub eth : List ℕ
  pub ip : List ℕ
  pub udp_head : List ℕ
  pub split : bytes ≡ eth ++ (ip ++ (udp_head ++ payload))
  pub eth_length : length eth ≡ 14
  pub ether_type : be16 (byte_at eth 12) (byte_at eth 13) ≡ 0x0800
  pub version : byte_at ip 0 / 16 ≡ 4
  pub ip_length : length ip ≡ byte_at ip 0 % 16 * 4
  pub ip_long : 20 ≤ length ip
  pub protocol : byte_at ip 9 ≡ 17
  pub udp_length : length udp_head ≡ 8

prefix-append : (n : ℕ) (xs ys : List ℕ) → length xs ≡ n → prefix n (xs ++ ys) ≡ some xs
unfolding prefix
prefix-append n xs ys e = ground (arith, take-append_of_length n xs ys e, length-append xs ys)

suffix-append : (n : ℕ) (xs ys : List ℕ) → length xs ≡ n → suffix n (xs ++ ys) ≡ some ys
unfolding suffix
suffix-append n xs ys e = ground (arith, drop-append_of_length n xs ys e, length-append xs ys)

first-append : (xs ys : List ℕ) → 0 < length xs → get_elem? (xs ++ ys) 0 ≡ some (byte_at xs 0)
first-append [] ys h = absurd (omega arith)
first-append (x ∷ xs) ys h = refl

ipv4-Framed :
    (bytes payload : List ℕ) (f : Framed bytes payload)
    → ipv4 bytes
      ≡ some (record {
        header_len = length f.ip;
        protocol = 17;
        src = addr_at f.ip 12;
        dst = addr_at f.ip 16;
      })
unfolding ipv4 ethernet parse_ethernet parse_ipv4 ether_type_from
ipv4-Framed bytes payload f = ground (
  arith, eth_is, rest_is, header_is, first_is, f.ether_type, f.version, f.ip_length, f.ip_long,
  f.protocol,
)
  where
    eth_is : prefix 14 bytes ≡ some f.eth
    eth_is = ap (prefix 14) f.split ∙ prefix-append 14 f.eth _ f.eth_length

    rest_is : suffix 14 bytes ≡ some (f.ip ++ (f.udp_head ++ payload))
    rest_is = ap (suffix 14) f.split ∙ suffix-append 14 f.eth _ f.eth_length

    first_is : get_elem? (f.ip ++ (f.udp_head ++ payload)) 0 ≡ some (byte_at f.ip 0)
    first_is = first-append f.ip (f.udp_head ++ payload) (omega (arith, f.ip_long))

    header_is : prefix (byte_at f.ip 0 % 16 * 4) (f.ip ++ (f.udp_head ++ payload)) ≡ some f.ip
    header_is = prefix-append (byte_at f.ip 0 % 16 * 4) f.ip (f.udp_head ++ payload) f.ip_length

-- The bytes behind the first two headers, and behind all three.
behind_ip :
    (bytes payload : List ℕ) (f : Framed bytes payload)
    → suffix (14 + length f.ip) bytes ≡ some (f.udp_head ++ payload)
behind_ip bytes payload f =
    ap (suffix (14 + length f.ip)) (f.split ∙ sym (append_assoc f.eth f.ip (f.udp_head ++ payload)))
    ∙ suffix-append (14 + length f.ip) (f.eth ++ f.ip) (f.udp_head ++ payload)
        (omega (arith, length-append f.eth f.ip, f.eth_length))

behind_udp :
    (bytes payload : List ℕ) (f : Framed bytes payload)
    → suffix (14 + length f.ip + 8) bytes ≡ some payload
behind_udp bytes payload f =
    ap (suffix (14 + length f.ip + 8)) (f.split ∙ regroup)
    ∙ suffix-append (14 + length f.ip + 8) ((f.eth ++ f.ip) ++ f.udp_head) payload (
        omega (
          arith,
          length-append f.eth f.ip,
          length-append (f.eth ++ f.ip) f.udp_head,
          f.eth_length,
          f.udp_length,
        ))
  where
    regroup :
        f.eth ++ (f.ip ++ (f.udp_head ++ payload)) ≡ ((f.eth ++ f.ip) ++ f.udp_head) ++ payload
    regroup =
        sym (append_assoc f.eth f.ip (f.udp_head ++ payload))
        ∙ sym (append_assoc (f.eth ++ f.ip) f.udp_head payload)

ip_short : (bytes payload : List ℕ) (f : Framed bytes payload) → length f.ip < 64
ip_short bytes payload f = omega (arith, f.ip_length)

-- A frame of three headers and a payload is read as such: the ports and the length are those of the
-- UDP header, and the payload is all that is behind it.
pub udp-Framed :
    (bytes payload : List ℕ) (f : Framed bytes payload)
    → (udp_payload bytes ≡ some payload)
      × (udp bytes
          ≡ some (record {
            src_port = be16 (byte_at f.udp_head 0) (byte_at f.udp_head 1);
            dst_port = be16 (byte_at f.udp_head 2) (byte_at f.udp_head 3);
            len = be16 (byte_at f.udp_head 4) (byte_at f.udp_head 5);
          }))
unfolding udp udp_payload parse_udp
udp-Framed bytes payload f = (
  ground (arith, ipv4-Framed bytes payload f, behind_udp bytes payload f, ip_short bytes payload f),
  ground (
    arith,
    ipv4-Framed bytes payload f,
    behind_ip bytes payload f,
    ip_short bytes payload f,
    prefix-append 8 f.udp_head payload f.udp_length,
  ),
)

bind_option-eq-some {ℓ κ} :
    {A : Type ℓ} {B : Type κ} (first : Option A) (next : A → Option B) {b : B}
    → bind_option first next ≡ some b
    → (a : A) × (first ≡ some a) × (next a ≡ some b)
bind_option-eq-some none next e = cc
bind_option-eq-some (some a) next e = (a, refl, e)

prefix-eq-some :
    (n : ℕ) (xs h : List ℕ)
    → prefix n xs ≡ some h
    → (n ≤ length xs) × (h ≡ take n xs) × (length h ≡ n)
unfolding prefix
prefix-eq-some n xs h e =
    let fits : n ≤ length xs = ground (arith, e) in
    let taken : take n xs ≡ h = ground (arith, e) in
    (fits, sym taken, ground (arith, length-take n xs, taken, fits))

suffix-eq-some : (n : ℕ) (xs h : List ℕ) → suffix n xs ≡ some h → (n ≤ length xs) × (h ≡ drop n xs)
unfolding suffix
suffix-eq-some n xs h e = (ground (arith, e), sym (ground (arith, e)))

first-byte : (xs : List ℕ) (b : ℕ) → get_elem? xs 0 ≡ some b → b ≡ byte_at xs 0
first-byte [] b e = cc
first-byte (x ∷ xs) b e = cc

first-take : (n : ℕ) (xs : List ℕ) → 0 < n → byte_at (take n xs) 0 ≡ byte_at xs 0
first-take zero xs h = absurd (omega arith)
first-take (suc n) [] h = refl
first-take (suc n) (x ∷ xs) h = refl

ether_type_from-eq-ipv4 : (v : ℕ) → is_ipv4 (ether_type_from v) ≡ true → v ≡ 0x0800
unfolding ether_type_from
ether_type_from-eq-ipv4 v e = ground arith

ethernet-eq-some :
    (bytes : List ℕ) (head : EthernetHeader)
    → ethernet bytes ≡ some head
    → is_ipv4 head.ether_type ≡ true
    → (14 ≤ length bytes)
      × (be16 (byte_at (take 14 bytes) 12) (byte_at (take 14 bytes) 13) ≡ 0x0800)
unfolding ethernet parse_ethernet
ethernet-eq-some bytes head e typed =
    let (eth, eth_is, made) = bind_option-eq-some (prefix 14 bytes) _ e in
    let found = prefix-eq-some 14 bytes eth eth_is in
    (
      found.0,
      ether_type_from-eq-ipv4 _ (
          ap (λ l. is_ipv4 (ether_type_from (be16 (byte_at l 12) (byte_at l 13)))) (sym found.1)
          ∙ ground (arith, made, typed)),
    )

-- What an IPv4 header says of the bytes that it was read from.
record Ipv4Read (xs : List ℕ) (h : Ipv4Header) : Type 0 where
  fits : h.header_len ≤ length xs
  version : byte_at (take h.header_len xs) 0 / 16 ≡ 4
  sized : h.header_len ≡ byte_at (take h.header_len xs) 0 % 16 * 4
  long : 20 ≤ h.header_len
  protocol : h.protocol ≡ byte_at (take h.header_len xs) 9

parse_ipv4_cases :
    (xs : List ℕ) (h : Ipv4Header) (first : ℕ) (header : Option (List ℕ))
    → get_elem? xs 0 ≡ some first
    → prefix (first % 16 * 4) xs ≡ header
    → parse_ipv4 xs ≡ some h
    → (ip : List ℕ) × (header ≡ some ip)
      × (first / 16 ≡ 4)
      × (20 ≤ first % 16 * 4)
      × (h.header_len ≡ first % 16 * 4)
      × (h.protocol ≡ byte_at ip 9)
unfolding parse_ipv4
parse_ipv4_cases xs h first none at cut e = absurd (ground (arith, at, cut, e))
parse_ipv4_cases xs h first (some ip) at cut e = (
  ip,
  refl,
  ground (arith, at, cut, e),
  ground (arith, at, cut, e),
  ground (arith, at, cut, e),
  ground (arith, at, cut, e),
)

parse_ipv4-eq-some : (xs : List ℕ) (h : Ipv4Header) → parse_ipv4 xs ≡ some h → Ipv4Read xs h
unfolding parse_ipv4
parse_ipv4-eq-some xs h e =
    let (first, at, e1) = bind_option-eq-some (get_elem? xs 0) _ e in
    let same = first-byte xs first at in
    let (ip, cut, version, long, counted, proto) =
      parse_ipv4_cases xs h first (prefix (first % 16 * 4) xs) at refl e in
    let found = prefix-eq-some (first % 16 * 4) xs ip cut in
    let taken : ip ≡ take h.header_len xs = found.1 ∙ ap (λ n. take n xs) (sym counted) in
    let head : byte_at (take h.header_len xs) 0 ≡ first =
      first-take h.header_len xs (omega (arith, counted, long)) ∙ sym same in
    record {
      fits = omega (arith, found.0, counted);
      version = ap (λ b. b / 16) head ∙ version;
      sized = counted ∙ ap (λ b. b % 16 * 4) (sym head);
      long = omega (arith, counted, long);
      protocol = proto ∙ ap (λ l. byte_at l 9) taken;
    }

Framed-of_payload :
    (bytes payload : List ℕ) → udp_payload bytes ≡ some payload → Framed bytes payload
unfolding udp_payload ipv4
Framed-of_payload bytes payload e =
    let (h, outer, e1) = bind_option-eq-some (ipv4 bytes) _ e in
    let (head, ether, e2) = bind_option-eq-some (ethernet bytes) _ outer in
    let typed : is_ipv4 head.ether_type ≡ true = ground (arith, e2) in
    let inner : bind_option (suffix 14 bytes) parse_ipv4 ≡ some h = ground (arith, e2) in
    let link = ethernet-eq-some bytes head ether typed in
    let (rest, rest_is, parsed) = bind_option-eq-some (suffix 14 bytes) parse_ipv4 inner in
    let behind = suffix-eq-some 14 bytes rest rest_is in
    let ip = parse_ipv4-eq-some rest h parsed in
    let proto : h.protocol ≡ 17 = ground (arith, e1) in
    let ending : suffix (14 + h.header_len + 8) bytes ≡ some payload = ground (arith, e1) in
    let last = suffix-eq-some (14 + h.header_len + 8) bytes payload ending in
    let ending_is : drop 8 (drop h.header_len rest) ≡ payload =
      ap (λ l. drop 8 (drop h.header_len l)) behind.1
      ∙ ap (drop 8) (drop-drop h.header_len 14 bytes)
      ∙ drop-drop 8 (14 + h.header_len) bytes
      ∙ sym last.1 in
    let rest_length : length rest ≡ length bytes - 14 = ap length behind.1 ∙ length-drop 14 bytes in
    record {
      eth = take 14 bytes;
      ip = take h.header_len rest;
      udp_head = take 8 (drop h.header_len rest);
      split =
          sym (take-append-drop 14 bytes)
          ∙ ap (λ l. take 14 bytes ++ l)
              (sym behind.1
                ∙ sym (take-append-drop h.header_len rest)
                ∙ ap (λ l. take h.header_len rest ++ l)
                    (sym (take-append-drop 8 (drop h.header_len rest))
                      ∙ ap (λ l. take 8 (drop h.header_len rest) ++ l) ending_is));
      eth_length = omega (arith, length-take 14 bytes, link.0);
      ether_type = link.1;
      version = ip.version;
      ip_length = omega (arith, length-take h.header_len rest, ip.fits, ip.sized);
      ip_long = omega (arith, length-take h.header_len rest, ip.fits, ip.long);
      protocol = sym ip.protocol ∙ proto;
      udp_length = omega (
        arith,
        length-take 8 (drop h.header_len rest),
        length-drop h.header_len rest,
        rest_length,
        last.0,
      );
    }

-- A packet has a UDP payload exactly when its bytes are an Ethernet header of type IPv4, an IPv4
-- header of protocol UDP that is as long as it says, a UDP header, and then the payload, which is all
-- that is left of the frame.
pub udp_payload_lem :
    (bytes payload : List ℕ) → (udp_payload bytes ≡ some payload) ↔ Framed bytes payload
udp_payload_lem bytes payload =
    (Framed-of_payload bytes payload, λ f. (udp-Framed bytes payload f).0)
