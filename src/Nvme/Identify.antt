-- ===== src/Nvme/Identify.antt =====
-- nvme_identify_controller and nvme_identify_namespace of targets/nvme/ublk.nvme_vfio.cpp, and the
-- parameters of the block device that they lead to.
pub mod Limits
use s3blk.Base.{
  ℕ, ◌+◌, ◌-◌, ◌*◌, ◌/◌, ◌^◌, Bool, true, false, not, ltb, ◌==◌, if◌then◌else◌, List, u32, u64,
  ◌<<◌, ◌>>◌, low_bits, has_bit,
}
use s3blk.Base.Int.{ℤ, pos, is_neg, enomem}
use s3blk.Nvme.Types.{TgtData, Queue, Completion, IoasCall, identify, page_size}
use s3blk.Nvme.Pool.{pool_get_identify_buf}
use s3blk.Nvme.Dma.{map_dma, unmap_dma, no_mapping, sgl_supported}
use s3blk.Nvme.Admin.{submit_admin_cmd}

-- `struct nvme_id_ctrl` and `struct nvme_id_ns`, the fields that are read. `ds` gives the size
-- shift of each LBA format.
pub record IdCtrl : Type 0 where
  pub vwc : ℕ
  pub mdts : ℕ
  pub sgls : ℕ

pub record IdNs : Type 0 where
  pub nsze : ℕ
  pub flbas : ℕ
  pub ds : ℕ → ℕ

-- `struct ublk_params`, the fields that are set. The segment parameters count only with
-- UBLK_PARAM_TYPE_SEGMENT.
pub record UblkParams : Type 0 where
  pub has_segment : Bool
  pub attrs : ℕ
  pub logical_bs_shift : ℕ
  pub physical_bs_shift : ℕ
  pub io_opt_shift : ℕ
  pub io_min_shift : ℕ
  pub dev_sectors : ℕ
  pub max_sectors : ℕ
  pub virt_boundary_mask : ℕ
  pub seg_boundary_mask : ℕ
  pub max_segment_size : ℕ
  pub max_segments : ℕ
  pub discard_granularity : ℕ
  pub max_discard_sectors : ℕ
  pub max_discard_segments : ℕ

-- The transfer limit: `max_io_buf_bytes`, and what MDTS allows if that is less. The product is one
-- of 32 bits.
unfoldable pub max_bytes : TgtData → ℕ
max_bytes d =
    let mdts_bytes = u32 (u32 (1 << d.mdts) * page_size) in
    if d.mdts == 0
    then d.max_io_buf_bytes
    else if ltb mdts_bytes d.max_io_buf_bytes
    then mdts_bytes
    else d.max_io_buf_bytes

-- The target's data with what the namespace says.
unfoldable pub with_namespace : TgtData → IdNs → TgtData
with_namespace d ns =
    let shift = ns.ds (low_bits ns.flbas 4) in
    record d { nsid = 1; lba_shift = shift; dev_size = u64 (ns.nsze << shift) }

-- The parameters, on a structure that was zero.
unfoldable pub params_of : TgtData → UblkParams
params_of d = record {
  has_segment = not (sgl_supported d);
  attrs = if has_bit d.vwc 0 then 12 else 0;
  logical_bs_shift = d.lba_shift;
  physical_bs_shift = d.lba_shift;
  io_opt_shift = d.lba_shift;
  io_min_shift = d.lba_shift;
  dev_sectors = d.dev_size >> 9;
  max_sectors = max_bytes d >> 9;
  virt_boundary_mask = if sgl_supported d then 0 else page_size - 1;
  seg_boundary_mask = if sgl_supported d then 0 else page_size - 1;
  max_segment_size = if sgl_supported d then 0 else 32 << 20;
  max_segments = if sgl_supported d then 0 else 127;
  discard_granularity = 2 ^ d.lba_shift;
  max_discard_sectors = (2 ^ 32 - 1) >> 9;
  max_discard_segments = 1;
}

module _ (map_ok : List IoasCall → IoasCall → Bool) (device : Queue → ℕ → Completion) where
  -- nvme_identify_controller; `ctrl` is what the controller writes to the identify page.
  unfoldable pub identify_controller : TgtData → Queue → IdCtrl → ℤ × TgtData × Queue
  identify_controller d admin ctrl =
      let (iova, m, d1) = map_dma map_ok d (pool_get_identify_buf d) page_size no_mapping in
      let (ret, admin1) = submit_admin_cmd device admin (identify 0 iova 1) in
      let stored : TgtData = record d1 { vwc = ctrl.vwc; mdts = ctrl.mdts; sgls = ctrl.sgls } in
      if iova == 0
      then (enomem, d1, admin)
      else if is_neg ret
      then (ret, (unmap_dma d1 m).1, admin1)
      else (pos 0, (unmap_dma stored m).1, admin1)

  -- nvme_identify_namespace; `ns` is what the controller writes, and `params` what was there.
  unfoldable pub identify_namespace :
      TgtData → Queue → IdNs → UblkParams → ℤ × TgtData × Queue × UblkParams
  identify_namespace d admin ns params =
      let (iova, m, d1) = map_dma map_ok d (pool_get_identify_buf d) page_size no_mapping in
      let (ret, admin1) = submit_admin_cmd device admin (identify 1 iova 0) in
      let stored = with_namespace d1 ns in
      if iova == 0
      then (enomem, d1, admin, params)
      else if is_neg ret
      then (ret, (unmap_dma d1 m).1, admin1, params)
      else (pos 0, (unmap_dma stored m).1, admin1, params_of stored)
