-- ===== src/Nvme/Prp.antt =====
-- nvme_setup_prps of targets/nvme/ublk.nvme_vfio.cpp.
pub mod Covers
use s3blk.Base.{
  ℕ, zero, suc, ◌+◌, ◌-◌, ◌*◌, ◌/◌, ◌%◌, ◌^◌, ◌&&◌, Bool, not, ltb, leb, ◌==◌, if◌then◌else◌, u64,
  low_bits, clear_low, List, [], ◌∷◌,
}
use s3blk.Base.Int.{ℤ, pos, einval}
use s3blk.Nvme.Types.{TgtData, Dptr, prps, page_size}
use s3blk.Nvme.Dma.{virt_to_phys, use_iommu, phys_error}

-- What nvme_setup_prps returns and writes: the two entries of the command, and the entries of the
-- PRP list from its start on.
pub record PrpResult : Type 0 where
  pub ret : ℤ
  pub dptr : Dptr
  pub entries : List ℕ

-- PAGE_SIZE / sizeof(__le64)
abbrev pub max_prps : ℕ
max_prps = 512

-- The loop that fills the list, with `k` entries free: the entries, and what `left` ends at.
unfoldable pub prp_entries : ℕ → ℕ → ℕ → List ℕ × ℕ
prp_entries zero prp_addr left = ([], left)
prp_entries (suc k) prp_addr left =
    let (entries, rest) =
      prp_entries k (u64 (prp_addr + page_size))
        (if ltb page_size left then left - page_size else 0) in
    if left == 0 then ([], 0) else (prp_addr ∷ entries, rest)

-- The bytes of the first page; `first_page_len > remaining` cuts it off.
abbrev pub first_page_len : ℕ → ℕ → ℕ
first_page_len iova len = let n = page_size - low_bits iova 12 in if ltb len n then len else n

-- The second entry when the rest fits one page.
abbrev pub second_page : TgtData → ℕ → ℕ → ℕ → ℕ
second_page d io_buf iova first =
    if use_iommu d
    then u64 (iova + first)
    else virt_to_phys d.dma_pool (clear_low (u64 (io_buf + first)) 12)

-- nvme_setup_prps, with the iova of the PRP list's page.
unfoldable pub setup_prps : TgtData → ℕ → ℕ → ℕ → ℕ → PrpResult
setup_prps d list_iova io_buf iova len =
    let first = first_page_len iova len in
    let remaining = len - first in
    let second = second_page d io_buf iova first in
    let (entries, left) = prp_entries max_prps (u64 (iova + first)) remaining in
    if remaining == 0
    then (record { ret = pos 0; dptr = prps iova 0; entries = [] })
    else if leb remaining page_size
    then (if not (use_iommu d) && second == phys_error
        then (record { ret = einval; dptr = prps iova 0; entries = [] })
        else (record { ret = pos 0; dptr = prps iova second; entries = [] }))
    else if ltb 0 left
    then (record { ret = einval; dptr = prps iova list_iova; entries = entries })
    else (record { ret = pos 0; dptr = prps iova list_iova; entries = entries })
