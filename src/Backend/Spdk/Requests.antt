-- ===== src/Backend/Spdk/Requests.antt =====
-- The requests of the SPDK backend of bypass-io/src/backend/spdk.rs: what reaches the runtime.
use bypass_io.Prelude.{
  ℕ, ◌^◌, ◌<◌, ap, ◌≡◌, ◌⊎◌, inl, inr, refl, List, subst, Result, ok, err, arith, ◌>>=◌,
}
use bypass_io.Prelude.Predicates.{All}
use bypass_io.Backend.Buffers.{DeviceTarget, HugeBuf}
use bypass_io.Backend.Spdk.{
  SpdkError, NvmeNamespace, NvmeLbaRange, IoQueuePair, SpdkBufferSegment, SpdkRuntime, SpdkBackend,
  prepare_io, from_pooled, spdk_segments, total_pooled_len, read, write, readv, writev,
}
use bypass_io.Backend.Spdk.Ranges.{IsNamespace}
use bypass_io.Backend.Spdk.Preparing.{
  IsDma, from_pooled-IsDma, Permitted, prepare_io-Permitted, Permitted-prepare_io,
}
use bypass_io.Backend.Spdk.Vectors.{
  total_len, AllDma, spdk_segments-AllDma, AllDma-spdk_segments, total_pooled_len-eq-ok,
  total_pooled_len-ok,
}

-- Some error, whatever the runtime does.
abbrev pub Refused : (SpdkRuntime → Result SpdkError ℕ) → Type 0
Refused request = (e : SpdkError) × ((runtime : SpdkRuntime) → request runtime ≡ err e)

read_cases :
    (b : SpdkBackend) (target : DeviceTarget) (buf : HugeBuf) (offset : ℕ)
    (prepared : Result SpdkError (NvmeNamespace × IoQueuePair × NvmeLbaRange))
    (segment : Result SpdkError SpdkBufferSegment)
    → prepare_io b target buf.len offset ≡ prepared
    → from_pooled buf ≡ segment
    → All IsNamespace b.namespaces
    → (Refused (λ runtime. read runtime b target buf offset)
        × Refused (λ runtime. write runtime b target buf offset))
      ⊎ ((ns : NvmeNamespace) × (q : IoQueuePair) × (s : SpdkBufferSegment) × (r : NvmeLbaRange)
          × Permitted b target buf.len offset ns q r
          × IsDma buf s
          × ((runtime : SpdkRuntime) → read runtime b target buf offset ≡ runtime.read_at ns q s r)
          × ((runtime : SpdkRuntime)
              → write runtime b target buf offset ≡ runtime.write_at ns q s r))
unfolding read write
read_cases b target buf offset (err e) segment p d h =
    inl ((e, λ runtime. rw p refl), (e, λ runtime. rw p refl))
read_cases b target buf offset (ok (ns, q, r)) (err e) p d h =
    inl ((e, λ runtime. rw (p, d) refl), (e, λ runtime. rw (p, d) refl))
read_cases b target buf offset (ok (ns, q, r)) (ok s) p d h = inr (
  ns,
  q,
  s,
  r,
  prepare_io-Permitted b target buf.len offset ns q r h p,
  from_pooled-IsDma buf s d,
  λ runtime. rw (p, d) refl,
  λ runtime. rw (p, d) refl,
)

-- A read or a write either is refused with an error, whatever the runtime does, or is one call of the
-- runtime: for a known namespace of the target, sectors that are just the bytes of the request and
-- inside the namespace, and memory of the buffer that the device may access.
pub read-Permitted :
    (b : SpdkBackend) (target : DeviceTarget) (buf : HugeBuf) (offset : ℕ)
    → All IsNamespace b.namespaces
    → (Refused (λ runtime. read runtime b target buf offset)
        × Refused (λ runtime. write runtime b target buf offset))
      ⊎ ((ns : NvmeNamespace) × (q : IoQueuePair) × (s : SpdkBufferSegment) × (r : NvmeLbaRange)
          × Permitted b target buf.len offset ns q r
          × IsDma buf s
          × ((runtime : SpdkRuntime) → read runtime b target buf offset ≡ runtime.read_at ns q s r)
          × ((runtime : SpdkRuntime)
              → write runtime b target buf offset ≡ runtime.write_at ns q s r))
read-Permitted b target buf offset h =
    read_cases b target buf offset (prepare_io b target buf.len offset) (from_pooled buf) refl refl
      h

-- A request for these buffers that may reach the runtime, and with what.
pub record Admitted (b : SpdkBackend) (target : DeviceTarget) (bufs : List HugeBuf) (offset : ℕ)
    : Type 0 where
  pub ns : NvmeNamespace
  pub q : IoQueuePair
  pub ss : List SpdkBufferSegment
  pub r : NvmeLbaRange
  pub counted : total_len bufs < 2 ^ 64
  pub permitted : Permitted b target (total_len bufs) offset ns q r
  pub dma : AllDma bufs ss

-- The two requests, whatever the runtime does: as `a` says when they may reach it, else an error.
abbrev pub Answered : SpdkBackend → DeviceTarget → List HugeBuf → ℕ → Type 0
Answered b target bufs offset =
    ((¬ Admitted b target bufs offset)
      × Refused (λ runtime. readv runtime b target bufs offset)
      × Refused (λ runtime. writev runtime b target bufs offset))
    ⊎ ((a : Admitted b target bufs offset) × ((runtime : SpdkRuntime)
          → readv runtime b target bufs offset ≡ runtime.readv_at a.ns a.q a.ss a.r)
        × ((runtime : SpdkRuntime)
            → writev runtime b target bufs offset ≡ runtime.writev_at a.ns a.q a.ss a.r))

readv_cases :
    (b : SpdkBackend) (target : DeviceTarget) (bufs : List HugeBuf) (offset : ℕ)
    (total : Result SpdkError ℕ)
    (prepared : Result SpdkError (NvmeNamespace × IoQueuePair × NvmeLbaRange))
    (segments : Result SpdkError (List SpdkBufferSegment))
    → total_pooled_len bufs ≡ total
    → (total >>= (λ len. prepare_io b target len offset)) ≡ prepared
    → spdk_segments bufs ≡ segments
    → All IsNamespace b.namespaces
    → Answered b target bufs offset
unfolding readv writev
readv_cases b target bufs offset (err e) prepared segments t p d h = inl (
  λ a. absurd (ground (arith, t, total_pooled_len-ok bufs a.counted)),
  (e, λ runtime. rw t refl),
  (e, λ runtime. rw t refl),
)
readv_cases b target bufs offset (ok len) (err e) segments t p d h = inl (
  λ a. absurd (
      ground (
        arith,
        p,
        ap (λ l. prepare_io b target l offset) (total_pooled_len-eq-ok bufs len t).0,
        Permitted-prepare_io b target (total_len bufs) offset a.ns a.q a.r h a.permitted,
      )),
  (e, λ runtime. rw (t, p) refl),
  (e, λ runtime. rw (t, p) refl),
)
readv_cases b target bufs offset (ok len) (ok (ns, q, r)) (err e) t p d h = inl (
  λ a. absurd (ground (arith, d, AllDma-spdk_segments bufs a.ss a.dma)),
  (e, λ runtime. rw (t, p, d) refl),
  (e, λ runtime. rw (t, p, d) refl),
)
readv_cases b target bufs offset (ok len) (ok (ns, q, r)) (ok ss) t p d h =
    let summed = total_pooled_len-eq-ok bufs len t in
    inr (
      record {
        ns = ns;
        q = q;
        ss = ss;
        r = r;
        counted = omega (arith, summed);
        permitted =
            subst (λ l. Permitted b target l offset ns q r) summed.0
              (prepare_io-Permitted b target len offset ns q r h p);
        dma = spdk_segments-AllDma bufs ss d;
      },
      λ runtime. rw (t, p, d) refl,
      λ runtime. rw (t, p, d) refl,
    )

-- When all namespaces of the backend have a sector size and a capacity that is a word: a read into
-- or a write from several buffers is one call of the runtime when the target's namespace is known,
-- there is a queue pair, the bytes of all buffers together are counted by a word and are whole
-- sectors inside the namespace that one command takes, and the device may access the memory of each
-- buffer: the call is for that namespace, with its first queue pair, just those sectors and just
-- that memory. In all other cases it is refused with an error, whatever the runtime does.
pub readv-Permitted :
    (b : SpdkBackend) (target : DeviceTarget) (bufs : List HugeBuf) (offset : ℕ)
    → All IsNamespace b.namespaces
    → ((¬ Admitted b target bufs offset)
        × Refused (λ runtime. readv runtime b target bufs offset)
        × Refused (λ runtime. writev runtime b target bufs offset))
      ⊎ ((a : Admitted b target bufs offset) × ((runtime : SpdkRuntime)
            → readv runtime b target bufs offset ≡ runtime.readv_at a.ns a.q a.ss a.r)
          × ((runtime : SpdkRuntime)
              → writev runtime b target bufs offset ≡ runtime.writev_at a.ns a.q a.ss a.r))
readv-Permitted b target bufs offset h =
    readv_cases b target bufs offset (total_pooled_len bufs)
      (total_pooled_len bufs >>= (λ len. prepare_io b target len offset)) (spdk_segments bufs) refl
      refl refl h
