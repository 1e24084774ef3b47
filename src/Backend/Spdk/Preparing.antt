-- ===== src/Backend/Spdk/Preparing.antt =====
-- What a request to the SPDK backend of bypass-io/src/backend/spdk.rs is given before it reaches the
-- runtime: its namespace, its queue pair, its range of sectors and the memory of its buffer.
use bypass_io.Prelude.{
  ℕ, ap, ◌∙◌, false, ◌≡◌, ◌≢◌, ◌⊎◌, inl, inr, refl, true, List, [], ◌∷◌, Bool-cases, subst, some,
  ok, arith, ◌==◌, >>=-eq-ok,
}
use bypass_io.Prelude.Predicates.{All}
use bypass_io.Backend.Buffers.{
  DeviceTarget, nvme_ns, HugeBufBacking, spdk_dma, huge_page, locked_fallback, pageable_fallback,
  HugeBuf,
}
use bypass_io.Backend.Spdk.{
  NvmeNamespace, NvmeLbaRange, IoQueuePair, SpdkBufferSegment, SpdkBackend, nsid_of, qpair,
  first_qpair, is_pageable, find_namespace, namespace, prepare_io, lba_range, from_pooled,
}
use bypass_io.Backend.Spdk.Ranges.{IsNamespace, Covers, lba_range_lem}

-- The buffers' memory may be read and written by the device.
pub record IsDma (buf : HugeBuf) (s : SpdkBufferSegment) : Type 0 where
  pub same_memory : s.addr ≡ buf.virt
  pub same_length : s.len ≡ buf.len
  pub same_backing : s.backing ≡ buf.backing
  pub resident : s.backing ≢ pageable_fallback
  pub locked : buf.locked ≡ true
  pub visible : (a : ℕ) × (buf.phys ≡ some a)

pub from_pooled-IsDma :
    (buf : HugeBuf) (s : SpdkBufferSegment) → from_pooled buf ≡ ok s → IsDma buf s
unfolding from_pooled
from_pooled-IsDma buf s e = record {
  same_memory = ground (arith, e);
  same_length = ground (arith, e);
  same_backing = ground (arith, e);
  resident = ground (arith, e);
  locked = ground (arith, e);
  visible = ground (arith, e);
}

is_pageable-neg : (x : HugeBufBacking) → x ≢ pageable_fallback → is_pageable x ≡ false
is_pageable-neg spdk_dma h = refl
is_pageable-neg huge_page h = refl
is_pageable-neg locked_fallback h = refl
is_pageable-neg pageable_fallback h = absurd (h refl)

pub IsDma-from_pooled :
    (buf : HugeBuf) (s : SpdkBufferSegment) → IsDma buf s → from_pooled buf ≡ ok s
unfolding from_pooled
IsDma-from_pooled buf s h =
    let resident : is_pageable buf.backing ≡ false =
      is_pageable-neg buf.backing (λ e. h.resident (h.same_backing ∙ e)) in
    rw (resident, h.locked, h.visible.1) (cc (h.same_memory, h.same_length, h.same_backing))

-- The first of the namespaces with its id.
abbrev pub FirstNamed : List NvmeNamespace → NvmeNamespace → Type 0
FirstNamed [] ns = ⊥
FirstNamed (x ∷ nss) ns = (x ≡ ns) ⊎ ((x.nsid ≢ ns.nsid) × FirstNamed nss ns)

find_namespace-FirstNamed :
    (nss : List NvmeNamespace) (nsid : ℕ) (ns : NvmeNamespace)
    → All IsNamespace nss
    → find_namespace nss nsid ≡ some ns
    → (ns.nsid ≡ nsid) × IsNamespace ns × FirstNamed nss ns
unfolding find_namespace
find_namespace-FirstNamed [] nsid ns h e = cc
find_namespace-FirstNamed (x ∷ nss) nsid ns h e = elim (Bool-cases (x.nsid == nsid)) [
  | inl same ↦
      let here : x ≡ ns = ground (arith, same, e) in
      (ground (arith, same, e), subst IsNamespace here h.0, inl here)
  | inr other ↦
      let rest = find_namespace-FirstNamed nss nsid ns h.1 (ground (arith, other, e)) in
      (rest.0, rest.1, inr (λ same. absurd (ground (arith, other, same, rest.0)), rest.2))
]

FirstNamed-find_namespace :
    (nss : List NvmeNamespace) (ns : NvmeNamespace)
    → FirstNamed nss ns
    → find_namespace nss ns.nsid ≡ some ns
unfolding find_namespace
FirstNamed-find_namespace [] ns h = absurd h
FirstNamed-find_namespace (x ∷ nss) ns (inl same) =
    let named : (x.nsid == ns.nsid) ≡ true = ground (arith, ap (λ n. n.nsid) same) in
    rw named (ap some same)
FirstNamed-find_namespace (x ∷ nss) ns (inr (other, h)) =
    let named : (x.nsid == ns.nsid) ≡ false = ground (arith, other) in
    rw named (FirstNamed-find_namespace nss ns h)

-- What a request that reaches the runtime has: the target's namespace, which is the first of the
-- backend's with its id, a range of it that is just the bytes of the request, and the first queue
-- pair.
pub record Permitted (b : SpdkBackend) (target : DeviceTarget) (len offset : ℕ) (ns : NvmeNamespace)
    (q : IoQueuePair) (r : NvmeLbaRange) : Type 0 where
  pub named : target ≡ nvme_ns ns.nsid
  pub known : FirstNamed b.namespaces ns
  pub covers : Covers ns offset len r
  pub paired : (others : List IoQueuePair) × (b.qpairs ≡ q ∷ others)

qpair-first :
    (b : SpdkBackend) (q : IoQueuePair)
    → qpair b ≡ ok q
    → (others : List IoQueuePair) × (b.qpairs ≡ q ∷ others)
unfolding qpair
qpair-first b q e = first_cases b.qpairs (ground (arith, e))
  where
    first_cases :
        (qs : List IoQueuePair)
        → first_qpair qs ≡ some q
        → (others : List IoQueuePair) × (qs ≡ q ∷ others)
    first_cases [] e = cc
    first_cases (x ∷ qs) e = (qs, ground (arith, e))

pub prepare_io-Permitted :
    (b : SpdkBackend) (target : DeviceTarget) (len offset : ℕ) (ns : NvmeNamespace)
    (q : IoQueuePair) (r : NvmeLbaRange)
    → All IsNamespace b.namespaces
    → prepare_io b target len offset ≡ ok (ns, q, r)
    → Permitted b target len offset ns q r
unfolding prepare_io namespace
prepare_io-Permitted b target len offset ns q r h e =
    let (nsid, is_target, e1) = >>=-eq-ok (nsid_of target) _ e in
    let (found, at, e2) = >>=-eq-ok (namespace b nsid) _ e1 in
    let (range, ranged, e3) = >>=-eq-ok (lba_range found offset len) _ e2 in
    let (pair, taken, e4) = >>=-eq-ok (qpair b) _ e3 in
    let (id, well, first) =
      find_namespace-FirstNamed b.namespaces nsid found h (ground (arith, at)) in
    let same : found ≡ ns = ground (arith, e4) in
    let same_range : range ≡ r = ground (arith, e4) in
    let same_pair : pair ≡ q = ground (arith, e4) in
    record {
      named = ground (arith, is_target, id, same);
      known = subst (FirstNamed b.namespaces) same first;
      covers = subst (Covers ns offset len) same_range (
          subst (λ n. Covers n offset len range) same
            ((lba_range_lem found offset len range well).0 ranged));
      paired = qpair-first b q (taken ∙ ap ok same_pair);
    }

FirstNamed-All :
    (nss : List NvmeNamespace) (ns : NvmeNamespace)
    → All IsNamespace nss
    → FirstNamed nss ns
    → IsNamespace ns
FirstNamed-All [] ns h first = absurd first
FirstNamed-All (x ∷ nss) ns h (inl same) = subst IsNamespace same h.0
FirstNamed-All (x ∷ nss) ns h (inr (other, first)) = FirstNamed-All nss ns h.1 first

pub Permitted-prepare_io :
    (b : SpdkBackend) (target : DeviceTarget) (len offset : ℕ) (ns : NvmeNamespace)
    (q : IoQueuePair) (r : NvmeLbaRange)
    → All IsNamespace b.namespaces
    → Permitted b target len offset ns q r
    → prepare_io b target len offset ≡ ok (ns, q, r)
unfolding prepare_io namespace qpair
Permitted-prepare_io b target len offset ns q r h p =
    let well = FirstNamed-All b.namespaces ns h p.known in
    ground (
      arith,
      p.named,
      FirstNamed-find_namespace b.namespaces ns p.known,
      (lba_range_lem ns offset len r well).1 p.covers,
      p.paired.1,
    )
