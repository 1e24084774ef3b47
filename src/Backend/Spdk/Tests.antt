-- ===== src/Backend/Spdk/Tests.antt =====
-- Tests of the SPDK backend, and the theorems about it at a namespace of eight sectors.
use bypass_io.Prelude.{◌≡◌, ◌⊎◌, ◌↔◌, refl, true, [], ◌∷◌, some, ok, err, arith}
use bypass_io.Backend.Buffers.{nvme_ns, huge_page, HugeBuf}
use bypass_io.Backend.Spdk.{
  NvmeNamespace, NvmeLbaRange, SpdkRuntime, SpdkBackend, unaligned_io, lba_range, readv, writev,
}
use bypass_io.Backend.Spdk.Ranges.{IsNamespace, Covers, lba_range_lem}
use bypass_io.Backend.Spdk.Requests.{Admitted, Refused, readv-Permitted}

abbrev eight : NvmeNamespace
eight = record { nsid = 1; sector_size = 512; capacity_sectors = 8; max_io_size = 4096 }

abbrev two_sectors : NvmeLbaRange
two_sectors = record { lba = 1; lba_count = 2 }

abbrev buffer : HugeBuf
buffer = record { virt = 4096; phys = some 8192; len = 512; backing = huge_page; locked = true }

abbrev backend : SpdkBackend
backend = record { namespaces = eight ∷ []; qpairs = record { id = 0 } ∷ [] }

eight-IsNamespace : IsNamespace eight
eight-IsNamespace = record { sectors = omega arith; counted = omega arith }

-- `namespace_rejects_unaligned_io`
unaligned : lba_range eight 1 512 ≡ err (unaligned_io 1 512 512)
unfolding lba_range
unaligned = refl

lba_range_lem_example :
    (lba_range eight 512 1024 ≡ ok two_sectors) ↔ Covers eight 512 1024 two_sectors
lba_range_lem_example = lba_range_lem eight 512 1024 two_sectors eight-IsNamespace

readv-Permitted_example :
    ((¬ Admitted backend (nvme_ns 1) (buffer ∷ buffer ∷ []) 512)
      × Refused (λ runtime. readv runtime backend (nvme_ns 1) (buffer ∷ buffer ∷ []) 512)
      × Refused (λ runtime. writev runtime backend (nvme_ns 1) (buffer ∷ buffer ∷ []) 512))
    ⊎ ((a : Admitted backend (nvme_ns 1) (buffer ∷ buffer ∷ []) 512) × ((runtime : SpdkRuntime)
          → readv runtime backend (nvme_ns 1) (buffer ∷ buffer ∷ []) 512
            ≡ runtime.readv_at a.ns a.q a.ss a.r)
        × ((runtime : SpdkRuntime)
            → writev runtime backend (nvme_ns 1) (buffer ∷ buffer ∷ []) 512
              ≡ runtime.writev_at a.ns a.q a.ss a.r))
readv-Permitted_example =
    readv-Permitted backend (nvme_ns 1) (buffer ∷ buffer ∷ []) 512 (eight-IsNamespace, tt)
