-- ===== src/Nvme/Sgl.antt =====
-- nvme_setup_sgl of targets/nvme/ublk.nvme_vfio.cpp.
pub mod Segments
use s3blk.Base.{
  ℕ, ◌+◌, ◌-◌, ◌*◌, ◌/◌, ◌%◌, ◌^◌, Bool, not, ltb, ◌==◌, ◌&&◌, if◌then◌else◌, u32, u64, List, [],
  ◌∷◌,
}
use s3blk.Base.Int.{ℤ, pos, efault}
use s3blk.Nvme.Types.{TgtData, Dptr, sgl, SglDesc}
use s3blk.Nvme.Dma.{virt_to_phys, use_iommu, phys_error}

-- What nvme_setup_sgl returns and writes: the descriptor in the command, which keeps the zeroes
-- it had on failure, and the descriptors in the page of the PRP list.
pub record SglResult : Type 0 where
  pub ret : ℤ
  pub desc : SglDesc
  pub list : List SglDesc

-- `(NVME_SGL_FMT_DATA_DESC << 4) | NVME_SGL_FMT_ADDRESS`
abbrev pub data_block : ℕ
data_block = 0x00

-- `(NVME_SGL_FMT_LAST_SEG_DESC << 4) | NVME_SGL_FMT_ADDRESS`
abbrev pub last_segment : ℕ
last_segment = 0x30

-- 2 * sizeof(struct nvme_sgl_desc)
abbrev pub two_descs : ℕ
two_descs = 32

abbrev zero_desc : SglDesc
zero_desc = record { addr = 0; len = 0; kind = 0 }

-- `need_two_segments`: without an IOMMU, the buffer crosses a hugepage boundary.
abbrev pub need_two_segments : TgtData → ℕ → ℕ → Bool
need_two_segments d buf_start len =
    not (use_iommu d)
    && ltb 0 d.hugepage_size
    && not (buf_start / d.hugepage_size == u64 (buf_start + len - 1) / d.hugepage_size)

-- The address behind the hugepage that the buffer starts in.
abbrev pub hp_boundary : TgtData → ℕ → ℕ
hp_boundary d buf_start = u64 ((buf_start / d.hugepage_size + 1) * d.hugepage_size)

-- nvme_setup_sgl, with the iova of the PRP list's page.
unfoldable pub setup_sgl : TgtData → ℕ → ℕ → ℕ → ℕ → SglResult
setup_sgl d list_iova io_buf iova len =
    let seg1_len = hp_boundary d io_buf - io_buf in
    let seg2_phys = virt_to_phys d.dma_pool (hp_boundary d io_buf) in
    if not (need_two_segments d io_buf len)
    then (record {
      ret = pos 0;
      desc = record { addr = iova; len = u32 len; kind = data_block };
      list = [];
    })
    else if seg2_phys == phys_error
    then (record { ret = efault; desc = zero_desc; list = [] })
    else (record {
      ret = pos 0;
      desc = record { addr = list_iova; len = two_descs; kind = last_segment };
      list =
          record { addr = iova; len = u32 seg1_len; kind = data_block }
          ∷ record { addr = seg2_phys; len = u32 (len - seg1_len); kind = data_block }
          ∷ [];
    })
