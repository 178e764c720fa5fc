-- ===== src/Nvme/Init.antt =====
-- The parts of nvme_vfio_init_tgt, nvme_vfio_init_queue, nvme_vfio_deinit_queue and
-- nvme_vfio_cleanup of targets/nvme/ublk.nvme_vfio.cpp that are no system calls.
pub mod Checked
use s3blk.Base.{
  ℕ, zero, suc, ◌+◌, ◌-◌, ◌*◌, ◌^◌, Bool, true, false, not, ◌&&◌, ◌||◌, ltb, ◌==◌, if◌then◌else◌,
  List, [], ◌∷◌, none, u64, low_bits, ◌>>◌, bit_and,
}
use s3blk.Base.Int.{ℤ, pos, minus, is_neg, einval}
use s3blk.Nvme.Types.{TgtData, Queue, Completion, IoasCall, DmaMapping, DmaBufPool, page_size}
use s3blk.Nvme.Pool.{pool_get_prp}
use s3blk.Nvme.Dma.{map_dma, unmap_dma, no_mapping}
use s3blk.Nvme.Setup.{queue_deinit, zero_completion}
use s3blk.Nvme.Admin.{create_io_queue, delete_io_queue}

-- `struct ublksrv_ctrl_dev_info`, as the target reads it.
pub record DevInfo : Type 0 where
  pub nr_hw_queues : ℕ
  pub queue_depth : ℕ
  pub max_io_buf_bytes : ℕ
  pub auto_buf_reg : Bool
  pub support_zero_copy : Bool
  pub user_copy : Bool

-- The checks at the start of nvme_vfio_init_tgt; `hps` is the hugepage size.
unfoldable pub check_info : ℕ → DevInfo → ℤ
check_info hps info =
    let queues_bad = ltb info.nr_hw_queues 1 || ltb 64 info.nr_hw_queues in
    let depth_bad = ltb info.queue_depth 1 || ltb 4096 info.queue_depth in
    let buf = info.max_io_buf_bytes in
    let buf_bad =
      ltb buf page_size
      || (ltb (2 ^ 21) buf || (ltb hps buf || not (bit_and buf (buf - 1) == 0))) in
    if hps == 0
    then einval
    else if info.auto_buf_reg || info.support_zero_copy
    then einval
    else if queues_bad || depth_bad
    then einval
    else if buf_bad
    then einval
    else pos 0

-- The target's data after the fields are filled in, on memory from calloc; `noiommu` is what
-- nvme_vfio_setup finds, and `cap` is the capability register.
unfoldable pub new_data : ℕ → DevInfo → Bool → Bool → ℕ → TgtData
new_data hps info force_noiommu noiommu cap = record {
  nsid = 0;
  lba_shift = 0;
  dev_size = 0;
  user_copy = info.user_copy;
  use_noiommu = noiommu;
  force_noiommu = force_noiommu;
  nr_io_queues = info.nr_hw_queues;
  queue_depth = info.queue_depth;
  max_io_buf_bytes = info.max_io_buf_bytes;
  db_stride = 2 ^ low_bits (cap >> 32) 4 * 4;
  vwc = 0;
  mdts = 0;
  sgls = 0;
  next_iova = 0x100000000;
  dma_pool = record { base = 0; size = 0; pagemap_cache = none };
  queue_region_off = 0;
  prp_region_off = 0;
  io_buf_region_off = 0;
  identify_buf_off = 0;
  queue_alloc_off = 0;
  extra_hugepages = 0;
  hugepage_size = hps;
  ioas = [];
}

-- A queue structure from calloc.
abbrev pub zero_queue : Queue
zero_queue = record {
  qid = 0;
  qsize = 0;
  sq_buffer = 0;
  cq_buffer = 0;
  sq_slots = [];
  cq_slots = λ slot. zero_completion;
  sq_iova = 0;
  cq_iova = 0;
  sq_mapping = no_mapping;
  cq_mapping = no_mapping;
  sq_tail = 0;
  last_sq_tail = 0;
  cq_head = 0;
  cq_phase = 0;
  sq_doorbell = 0;
  cq_doorbell = 0;
  sq_rung = 0;
  cq_rung = 0;
}

module _ (map_ok : List IoasCall → IoasCall → Bool) where
  -- The loop that creates the io queues, with `n` of them to come and `i` there: the result, the
  -- queues it has created, the target's data and the admin queue.
  unfoldable pub create_io_queues :
      (Queue → ℕ → Completion) → TgtData → Queue → ℕ → ℕ → ℤ × List Queue × TgtData × Queue
  create_io_queues device d admin i zero = (pos 0, [], d, admin)
  create_io_queues device d admin i (suc n) =
      let (ret, q, d1, admin1) =
        create_io_queue map_ok device d admin zero_queue (i + 1) (d.queue_depth + 1) in
      let (ret', qs, d2, admin2) = create_io_queues device d1 admin1 (i + 1) n in
      if is_neg ret then (minus 1, [], d1, admin1) else (ret', q ∷ qs, d2, admin2)

  -- nvme_vfio_init_queue from `tag` on, for `n` tags: the mappings of their PRP pages.
  unfoldable pub map_prps : TgtData → ℕ → ℕ → ℕ → ℤ × List DmaMapping × TgtData
  map_prps d q_id tag zero = (pos 0, [], d)
  map_prps d q_id tag (suc n) =
      let (iova, m, d1) = map_dma map_ok d (pool_get_prp d q_id tag) page_size no_mapping in
      let (ret, ms, d2) = map_prps d1 q_id (tag + 1) n in
      if iova == 0 then (minus 1, m ∷ [], d1) else (ret, m ∷ ms, d2)

  unfoldable pub init_queue : TgtData → ℕ → ℤ × List DmaMapping × TgtData
  init_queue d q_id = map_prps d q_id 0 d.queue_depth

-- nvme_vfio_deinit_queue for the PRP pages; nvme_unmap_dma leaves an unset mapping alone.
unfoldable pub deinit_queue : TgtData → List DmaMapping → TgtData
deinit_queue d [] = d
deinit_queue d (m ∷ ms) = deinit_queue (unmap_dma d m).1 ms

-- The loop of nvme_vfio_cleanup over the io queues, from number `i` on, and the admin queue.
unfoldable pub delete_io_queues :
    (Queue → ℕ → Completion) → TgtData → Queue → ℕ → List Queue → TgtData × Queue
delete_io_queues device d admin i [] = (d, admin)
delete_io_queues device d admin i (q ∷ qs) =
    let admin1 = (delete_io_queue device admin (i + 1)).1 in
    delete_io_queues device (queue_deinit d q).1 admin1 (i + 1) qs

unfoldable pub release_queues : (Queue → ℕ → Completion) → TgtData → Queue → List Queue → TgtData
release_queues device d admin qs =
    let (d1, admin1) = delete_io_queues device d admin 0 qs in (queue_deinit d1 admin1).1
