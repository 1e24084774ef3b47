-- ===== src/Backend/Spdk/Ranges.antt =====
-- `NvmeNamespace::lba_range` of bypass-io/src/backend/spdk.rs.
use native.Mathlib.Nat.{div-add-mod', mul-mod_left, mul-div_cancel}
use bypass_io.Prelude.{
  ℕ, ◌+◌, ◌*◌, ◌/◌, ◌%◌, ◌^◌, ◌<◌, ◌≤◌, ◌≡◌, ◌↔◌, sym, ap, ◌∙◌, true, ok, arith, ◌==◌,
}
use bypass_io.Backend.Spdk.{NvmeNamespace, NvmeLbaRange, lba_range}

-- A namespace whose sectors have a size and whose capacity is a word.
pub record IsNamespace (ns : NvmeNamespace) : Type 0 where
  pub sectors : 0 < ns.sector_size
  pub counted : ns.capacity_sectors < 2 ^ 64

-- The bytes from `offset` on, `len` many, are these sectors, and the namespace takes them.
pub record Covers (ns : NvmeNamespace) (offset len : ℕ) (r : NvmeLbaRange) : Type 0 where
  pub starts : r.lba * ns.sector_size ≡ offset
  pub spans : r.lba_count * ns.sector_size ≡ len
  pub some_bytes : 0 < len
  pub small : len ≤ ns.max_io_size
  pub inside : r.lba + r.lba_count ≤ ns.capacity_sectors

whole : (a s : ℕ) → (a % s == 0) ≡ true → a / s * s ≡ a
whole a s e = ground (arith, div-add-mod' a s)

multiple : (q s a : ℕ) → 0 < s → q * s ≡ a → (a % s ≡ 0) × (a / s ≡ q)
multiple q s a h e =
    (ap (λ x. x % s) (sym e) ∙ mul-mod_left q s, ap (λ x. x / s) (sym e) ∙ mul-div_cancel q h)

covers :
    (ns : NvmeNamespace) (offset len : ℕ) (r : NvmeLbaRange)
    → IsNamespace ns
    → lba_range ns offset len ≡ ok r
    → Covers ns offset len r
unfolding lba_range
covers ns offset len r h e = record {
  starts = ground (arith, whole offset ns.sector_size, e);
  spans = ground (arith, whole len ns.sector_size, e);
  some_bytes = ground (arith, e);
  small = ground (arith, e);
  inside = ground (arith, e);
}

accepted :
    (ns : NvmeNamespace) (offset len : ℕ) (r : NvmeLbaRange)
    → IsNamespace ns
    → Covers ns offset len r
    → lba_range ns offset len ≡ ok r
unfolding lba_range
accepted ns offset len r h c =
    let at = multiple r.lba ns.sector_size offset h.sectors c.starts in
    let count = multiple r.lba_count ns.sector_size len h.sectors c.spans in
    ground (arith, at, count)

-- A request for the bytes from `offset` on, `len` many, of a namespace is given a range of sectors
-- exactly when the range is those bytes: both ends are on sectors, there is at least one byte and no
-- more than one command takes, and the range ends inside the namespace.
pub lba_range_lem :
    (ns : NvmeNamespace) (offset len : ℕ) (r : NvmeLbaRange)
    → IsNamespace ns
    → (lba_range ns offset len ≡ ok r) ↔ Covers ns offset len r
lba_range_lem ns offset len r h = (covers ns offset len r h, accepted ns offset len r h)
