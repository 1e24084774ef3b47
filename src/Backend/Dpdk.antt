-- ===== src/Backend/Dpdk.antt =====
-- The DPDK backend of bypass-io/src/backend/dpdk.rs, up to the calls of its runtime, which is a record
-- of functions as the trait is. Texts of errors are left out; which addresses are multicast is a
-- parameter, of the standard library.
pub mod Requests
mod Tests
use bypass_io.Prelude.{
  ℕ, ◌==◌, Bool, true, false, not, ◌||◌, List, [], ◌∷◌, Result, ok, err, ◌>>=◌, ◌>>◌, guard,
  if◌then◌else◌, ltb,
}
use bypass_io.Backend.Buffers.{DeviceTarget, fd, nvme_ns, net_port, HugeBuf}
use bypass_io.Backend.Packet.{Ipv4Addr}

pub data QueueKind : Type 0 where
  rx : QueueKind
  tx : QueueKind

pub data DpdkError : Type 0 where
  runtime_unavailable : DpdkError
  invalid_config : DpdkError
  invalid_target : DpdkError
  port_mismatch : (requested configured : ℕ) → DpdkError
  invalid_queue : (queue configured : ℕ) (kind : QueueKind) → DpdkError
  empty_packet_batch : DpdkError
  invalid_multicast_group : (group_ip : Ipv4Addr) (port : ℕ) → DpdkError
  operation_failed : DpdkError
  packet_too_large : (len max : ℕ) → DpdkError

pub record DpdkPortConfig : Type 0 where
  pub port_id : ℕ
  pub rx_queues : ℕ
  pub tx_queues : ℕ
  pub rx_desc : ℕ
  pub tx_desc : ℕ
  pub promiscuous : Bool

-- `DpdkPortConfig::new`
unfoldable pub new_port : ℕ → ℕ → ℕ → ℕ → ℕ → Bool → Result DpdkError DpdkPortConfig
new_port port_id rx_queues tx_queues rx_desc tx_desc promiscuous = do
  guard (not (rx_queues == 0)) invalid_config
  guard (not (tx_queues == 0)) invalid_config
  guard (not (rx_desc == 0)) invalid_config
  guard (not (tx_desc == 0)) invalid_config
  ok (record {
    port_id = port_id;
    rx_queues = rx_queues;
    tx_queues = tx_queues;
    rx_desc = rx_desc;
    tx_desc = tx_desc;
    promiscuous = promiscuous;
  })

-- A `String` is its bytes, and `socket_id` the bits of an `i32`.
pub record DpdkConfig : Type 0 where
  pub eal_args : List (List ℕ)
  pub port : DpdkPortConfig
  pub mbufs : ℕ
  pub mbuf_cache : ℕ
  pub data_room_size : ℕ
  pub socket_id : ℕ

abbrev is_empty_list : {A : Type 0} → List A → Bool
is_empty_list [] = true
is_empty_list (x ∷ xs) = false

any_empty : List (List ℕ) → Bool
any_empty [] = false
any_empty (a ∷ args) = is_empty_list a || any_empty args

-- `DpdkConfig::new`
unfoldable pub new_config :
    List (List ℕ) → DpdkPortConfig → ℕ → ℕ → ℕ → ℕ → Result DpdkError DpdkConfig
unfolding any_empty
new_config eal_args port mbufs mbuf_cache data_room_size socket_id = do
  guard (not (is_empty_list eal_args)) invalid_config
  guard (not (any_empty eal_args)) invalid_config
  guard (not (mbufs == 0)) invalid_config
  guard (not (data_room_size == 0)) invalid_config
  ok (record {
    eal_args = eal_args;
    port = port;
    mbufs = mbufs;
    mbuf_cache = mbuf_cache;
    data_room_size = data_room_size;
    socket_id = socket_id;
  })

pub record MulticastGroup : Type 0 where
  pub group_ip : Ipv4Addr
  pub port : ℕ

-- `MulticastGroup::validate`
unfoldable pub validate : (Ipv4Addr → Bool) → MulticastGroup → Result DpdkError (Unit {0})
validate is_multicast g =
    guard (is_multicast g.group_ip) (invalid_multicast_group g.group_ip g.port)
    >> guard (not (g.port == 0)) (invalid_multicast_group g.group_ip g.port)

-- The calls of `trait DpdkRuntime` that the requests make; a packet is its bytes, and what a read
-- leaves in a buffer is left out.
pub record DpdkRuntime : Type 0 where
  pub rx_burst_at : (port_id queue max_packets : ℕ) → Result DpdkError (List (List ℕ))
  pub tx_burst_at : (port_id queue : ℕ) → List (List ℕ) → Result DpdkError ℕ
  pub join_multicast_at : (port_id : ℕ) → MulticastGroup → (queue : ℕ) → Result DpdkError (Unit {0})
  pub read_packet : (port_id queue : ℕ) → HugeBuf → Result DpdkError ℕ
  pub write_packet : (port_id queue : ℕ) → HugeBuf → Result DpdkError ℕ
  pub read_packets : (port_id queue : ℕ) → List HugeBuf → Result DpdkError ℕ
  pub write_packets : (port_id queue : ℕ) → List HugeBuf → Result DpdkError ℕ
  pub poll_port : (port_id : ℕ) → ℕ

unfoldable pub check_rx_queue : DpdkConfig → ℕ → Result DpdkError (Unit {0})
check_rx_queue c queue =
    guard (ltb queue c.port.rx_queues) (invalid_queue queue c.port.rx_queues rx)

unfoldable pub check_tx_queue : DpdkConfig → ℕ → Result DpdkError (Unit {0})
check_tx_queue c queue =
    guard (ltb queue c.port.tx_queues) (invalid_queue queue c.port.tx_queues tx)

unfoldable pub ensure_target : DpdkConfig → DeviceTarget → Result DpdkError (Unit {0})
ensure_target c (net_port port) = guard (port == c.port.port_id) (port_mismatch port c.port.port_id)
ensure_target c (fd n) = err invalid_target
ensure_target c (nvme_ns nsid) = err invalid_target

module _ (runtime : DpdkRuntime) (c : DpdkConfig) where
  unfoldable pub rx_burst : ℕ → ℕ → Result DpdkError (List (List ℕ))
  rx_burst queue max_packets = do
    check_rx_queue c queue
    (if max_packets == 0 then ok [] else runtime.rx_burst_at c.port.port_id queue max_packets)

  unfoldable pub tx_burst : ℕ → List (List ℕ) → Result DpdkError ℕ
  tx_burst queue packets = do
    check_tx_queue c queue
    guard (not (is_empty_list packets)) empty_packet_batch
    runtime.tx_burst_at c.port.port_id queue packets

  unfoldable pub join_multicast :
      (Ipv4Addr → Bool) → MulticastGroup → ℕ → Result DpdkError (Unit {0})
  join_multicast is_multicast group queue = do
    check_rx_queue c queue
    validate is_multicast group
    runtime.join_multicast_at c.port.port_id group queue

  -- The requests of `IoBackend`; the offset plays no part.
  unfoldable pub read : DeviceTarget → HugeBuf → Result DpdkError ℕ
  read target buf = ensure_target c target >> runtime.read_packet c.port.port_id 0 buf

  unfoldable pub write : DeviceTarget → HugeBuf → Result DpdkError ℕ
  write target buf = ensure_target c target >> runtime.write_packet c.port.port_id 0 buf

  unfoldable pub readv : DeviceTarget → List HugeBuf → Result DpdkError ℕ
  readv target bufs =
      ensure_target c target
      >> (if is_empty_list bufs then ok 0 else runtime.read_packets c.port.port_id 0 bufs)

  unfoldable pub writev : DeviceTarget → List HugeBuf → Result DpdkError ℕ
  writev target bufs =
      ensure_target c target
      >> (if is_empty_list bufs then ok 0 else runtime.write_packets c.port.port_id 0 bufs)

  unfoldable pub flush : DeviceTarget → Result DpdkError (Unit {0})
  flush target = ensure_target c target

  unfoldable pub poll_completions : ℕ
  poll_completions = runtime.poll_port c.port.port_id
