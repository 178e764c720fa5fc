-- ===== src/Nvme/Dma.antt =====
-- DMA addresses: dma_buf_pool_virt_to_phys of targets/dma_buf.c, and nvme_get_iova,
-- nvme_do_vfio_map, nvme_map_dma and nvme_unmap_dma of targets/nvme/ublk.nvme_vfio.cpp.
pub mod Iova
use s3blk.Base.{
  ℕ, ◌+◌, ◌-◌, ◌*◌, ◌/◌, ◌%◌, ◌^◌, Bool, true, false, not, ◌&&◌, ◌||◌, ltb, leb, ◌==◌,
  if◌then◌else◌, u64, low_bits, clear_low, has_bit, Option, none, some, List, ◌∷◌, get_or,
}
use s3blk.Nvme.Types.{DmaBufPool, DmaMapping, TgtData, IoasCall, map_call, unmap_call, page_size}
use s3blk.Nvme.Pool.{page_align}

-- DMA_BUF_PHYS_ERROR
abbrev pub phys_error : ℕ
phys_error = 2 ^ 64 - 1

-- The part of dma_buf_pool_virt_to_phys behind the check of the cache.
abbrev phys_of_entry : ℕ → ℕ → ℕ
phys_of_entry entry va =
    if has_bit entry 63
    then u64 (u64 (low_bits entry 55 * page_size) + low_bits va 12)
    else phys_error

unfoldable pub virt_to_phys : DmaBufPool → ℕ → ℕ
virt_to_phys pool va = elim pool.pagemap_cache [
  | none ↦ phys_error
  | some cache ↦
      if ltb va pool.base || leb (u64 (pool.base + pool.size)) va
      then phys_error
      else phys_of_entry (get_or cache ((va - pool.base) / page_size) 0) va
]

-- nvme_use_iommu
abbrev pub use_iommu : TgtData → Bool
use_iommu d = not d.use_noiommu && not d.force_noiommu

-- nvme_sgl_supported
abbrev pub sgl_supported : TgtData → Bool
sgl_supported d = not (low_bits d.sgls 2 == 0)

-- nvme_get_iova
unfoldable pub get_iova : TgtData → ℕ → ℕ → ℕ × TgtData
unfolding virt_to_phys
get_iova d vaddr size =
    if use_iommu d
    then (d.next_iova, record d { next_iova = u64 (d.next_iova + page_align size) })
    else (let phys = virt_to_phys d.dma_pool vaddr in
        if phys == phys_error then (0, d) else (phys, d))

-- Whether IOMMU_IOAS_MAP succeeds is up to the kernel, given the calls before it.
module _ (map_ok : List IoasCall → IoasCall → Bool) where
  -- nvme_do_vfio_map; `true` is its 0.
  unfoldable pub do_vfio_map : TgtData → ℕ → ℕ → ℕ → Bool × TgtData
  do_vfio_map d vaddr iova size =
      let call = map_call vaddr iova (page_align size) in
      if not (use_iommu d)
      then (true, d)
      else if map_ok d.ioas call
      then (true, record d { ioas = call ∷ d.ioas })
      else (false, d)

  -- nvme_map_dma: the iova or 0, `*mapping`, and the target's data.
  unfoldable pub map_dma : TgtData → ℕ → ℕ → DmaMapping → ℕ × DmaMapping × TgtData
  unfolding get_iova do_vfio_map
  map_dma d vaddr size mapping =
      let (iova, d1) = get_iova d vaddr size in
      let (mapped, d2) = do_vfio_map d1 vaddr iova size in
      if iova == 0
      then (0, mapping, d1)
      else if mapped
      then (iova, record { vaddr = vaddr; iova = iova; size = size }, d2)
      else (0, mapping, d2)

-- The mapping that nvme_unmap_dma leaves.
abbrev pub no_mapping : DmaMapping
no_mapping = record { vaddr = 0; iova = 0; size = 0 }

-- nvme_unmap_dma
unfoldable pub unmap_dma : TgtData → DmaMapping → DmaMapping × TgtData
unmap_dma d m =
    if m.iova == 0
    then (m, d)
    else if use_iommu d
    then (no_mapping, record d { ioas = unmap_call m.iova m.size ∷ d.ioas })
    else (no_mapping, d)
