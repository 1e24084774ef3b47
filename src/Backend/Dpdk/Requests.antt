-- ===== src/Backend/Dpdk/Requests.antt =====
-- What reaches the runtime of the DPDK backend of bypass-io/src/backend/dpdk.rs.
use bypass_io.Prelude.{
  ℕ, ◌<◌, ◌≤◌, ◌≡◌, ◌≢◌, refl, ◌⊎◌, inl, inr, Bool, true, false, err, arith, ltb, ◌==◌, Bool-cases,
}
use bypass_io.Backend.Packet.{Ipv4Addr}
use bypass_io.Backend.Dpdk.{
  rx, invalid_queue, invalid_multicast_group, DpdkConfig, DpdkRuntime, MulticastGroup, validate,
  check_rx_queue, join_multicast,
}

-- Joining a multicast group is one call of the runtime, on the configured port, when the queue is one
-- of the configured receive queues, the address is multicast and the port of the group is not 0.
-- When the queue is none of them it is an error that names the queue and their number, and when the
-- queue is but the group is not as said an error that names the group, whatever the runtime does.
pub join_multicast_checked :
    (is_multicast : Ipv4Addr → Bool) (c : DpdkConfig) (group : MulticastGroup) (queue : ℕ)
    → ((queue < c.port.rx_queues)
        × (is_multicast group.group_ip ≡ true)
        × (group.port ≢ 0)
        × ((runtime : DpdkRuntime)
            → join_multicast runtime c is_multicast group queue
              ≡ runtime.join_multicast_at c.port.port_id group queue))
      ⊎ ((c.port.rx_queues ≤ queue)
          × ((runtime : DpdkRuntime)
              → join_multicast runtime c is_multicast group queue
                ≡ err (invalid_queue queue c.port.rx_queues rx)))
      ⊎ ((queue < c.port.rx_queues)
          × ((is_multicast group.group_ip ≡ false) ⊎ (group.port ≡ 0))
          × ((runtime : DpdkRuntime)
              → join_multicast runtime c is_multicast group queue
                ≡ err (invalid_multicast_group group.group_ip group.port)))
unfolding join_multicast check_rx_queue validate
join_multicast_checked is_multicast c group queue = elim (Bool-cases (ltb queue c.port.rx_queues)) [
  | inr out ↦ inr (inl (ground (arith, out), λ runtime. rw out refl))
  | inl inside ↦ elim (Bool-cases (is_multicast group.group_ip)) [
    | inr other ↦ inr (inr (ground (arith, inside), inl other, λ runtime. rw (inside, other) refl))
    | inl multicast ↦ elim (Bool-cases (group.port == 0)) [
      | inl zero_port ↦ inr (
          inr (
            ground (arith, inside),
            inr (ground (arith, zero_port)),
            λ runtime. rw (inside, multicast, zero_port) refl,
          ))
      | inr some_port ↦ inl (
        ground (arith, inside),
        multicast,
        λ e. absurd (ground (arith, some_port, e)),
        λ runtime. rw (inside, multicast, some_port) refl,
      )
    ]
  ]
]
