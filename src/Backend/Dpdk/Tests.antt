-- ===== src/Backend/Dpdk/Tests.antt =====
-- Tests of the DPDK backend, and the theorems about it at a port with two queues in each direction.
use bypass_io.Prelude.{
  ◌<◌, ◌≤◌, ◌≡◌, ◌≢◌, ◌⊎◌, refl, Bool, true, false, [], ◌∷◌, ok, err, ltb, not, ◌&&◌,
}
use bypass_io.Backend.Packet.{Ipv4Addr}
use bypass_io.Backend.Dpdk.{
  invalid_config, invalid_queue, rx, invalid_multicast_group, DpdkConfig, DpdkPortConfig,
  DpdkRuntime, MulticastGroup, new_port, new_config, join_multicast,
}
use bypass_io.Backend.Dpdk.Requests.{join_multicast_checked}

abbrev port : DpdkPortConfig
port = record {
  port_id = 3;
  rx_queues = 2;
  tx_queues = 2;
  rx_desc = 512;
  tx_desc = 512;
  promiscuous = true;
}

abbrev config : DpdkConfig
config = record {
  eal_args = (b'x' ∷ []) ∷ [];
  port = port;
  mbufs = 1024;
  mbuf_cache = 64;
  data_room_size = 2048;
  socket_id = 0;
}

-- The address begins with four bits 1110.
abbrev is_class_d : Ipv4Addr → Bool
is_class_d addr = not (ltb addr.a 224) && ltb addr.a 240

abbrev group : MulticastGroup
group = record { group_ip = record { a = 239; b = 1; c = 2; d = 3 }; port = 6000 }

-- `config_rejects_zero_queue_counts`
no_queues : new_port 3 0 1 512 512 true ≡ err invalid_config
unfolding new_port
no_queues = refl

-- The configuration of the tests is accepted.
config_accepted : new_config ((b'x' ∷ []) ∷ []) port 1024 64 2048 0 ≡ ok config
unfolding new_config
config_accepted = refl

join_multicast_checked_example :
    ((1 < 2)
      × (is_class_d group.group_ip ≡ true)
      × (group.port ≢ 0)
      × ((runtime : DpdkRuntime)
          → join_multicast runtime config is_class_d group 1 ≡ runtime.join_multicast_at 3 group 1))
    ⊎ ((2 ≤ 1)
        × ((runtime : DpdkRuntime)
            → join_multicast runtime config is_class_d group 1 ≡ err (invalid_queue 1 2 rx)))
    ⊎ ((1 < 2)
        × ((is_class_d group.group_ip ≡ false) ⊎ (group.port ≡ 0))
        × ((runtime : DpdkRuntime)
            → join_multicast runtime config is_class_d group 1
              ≡ err (invalid_multicast_group group.group_ip 6000)))
join_multicast_checked_example = join_multicast_checked is_class_d config group 1
