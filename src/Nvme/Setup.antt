-- ===== src/Nvme/Setup.antt =====
-- nvme_queue_init and nvme_queue_deinit of targets/nvme/ublk.nvme_vfio.cpp.
pub mod Fits
use s3blk.Base.{
  ℕ, ◌+◌, ◌-◌, ◌*◌, ◌/◌, ◌%◌, ◌^◌, Bool, true, false, ◌||◌, ◌==◌, if◌then◌else◌, Option, none, some,
  List, replicate,
}
use s3blk.Base.Int.{ℤ, pos, minus, enomem}
use s3blk.Nvme.Types.{Queue, Completion, TgtData, IoasCall, zeroed}
use s3blk.Nvme.Pool.{sq_bytes, cq_bytes, pool_alloc_queue_buf}
use s3blk.Nvme.Dma.{map_dma, unmap_dma}

abbrev pub zero_completion : Completion
zero_completion = record { command_id = 0; status = 0 }

-- nvme_unmap_dma of both rings.
abbrev pub unmap_pair : TgtData → Queue → Queue × TgtData
unmap_pair d q =
    let (sq_unmapped, d1) = unmap_dma d q.sq_mapping in
    let (cq_unmapped, d2) = unmap_dma d1 q.cq_mapping in
    (record q { sq_mapping = sq_unmapped; cq_mapping = cq_unmapped }, d2)

-- The last part of nvme_queue_init. Doorbell addresses count from the start of BAR0.
abbrev pub reset_queue : Queue → ℕ → ℕ → ℕ → Queue
reset_queue q qid depth db_stride = record q {
  qid = qid;
  qsize = depth;
  sq_tail = 0;
  last_sq_tail = 0;
  cq_head = 0;
  cq_phase = 1;
  sq_doorbell = 0x1000 + 2 * qid * db_stride;
  cq_doorbell = 0x1000 + (2 * qid + 1) * db_stride;
}

module _ (map_ok : List IoasCall → IoasCall → Bool) where
  -- The part of nvme_queue_init behind the two allocations: both rings are mapped, and either
  -- both are unmapped again or the positions are reset.
  unfoldable pub queue_start : TgtData → Queue → ℕ → ℕ → ℤ × Queue × TgtData
  queue_start d q qid depth =
      let (sq_iova, sq_mapping, d1) = map_dma map_ok d q.sq_buffer (sq_bytes depth) q.sq_mapping in
      let (cq_iova, cq_mapping, d2) = map_dma map_ok d1 q.cq_buffer (cq_bytes depth) q.cq_mapping in
      let q1 = record q {
        sq_iova = sq_iova;
        cq_iova = cq_iova;
        sq_mapping = sq_mapping;
        cq_mapping = cq_mapping;
      } in
      if sq_iova == 0 || cq_iova == 0
      then (let (q2, d3) = unmap_pair d2 q1 in (enomem, q2, d3))
      else (pos 0, reset_queue q1 qid depth d.db_stride, d2)

  -- nvme_queue_init
  unfoldable pub queue_init : TgtData → Queue → ℕ → ℕ → ℤ × Queue × TgtData
  queue_init d q qid depth =
      let (sq, d1) = pool_alloc_queue_buf d (sq_bytes depth) in
      let (cq, d2) = pool_alloc_queue_buf d1 (cq_bytes depth) in
      elim sq [
        | none ↦ (enomem, record q { sq_buffer = 0 }, d1)
        | some sq_buffer ↦
            let q1 = record q { sq_buffer = sq_buffer; sq_slots = replicate depth zeroed } in
            elim cq [
              | none ↦ (enomem, record q1 { cq_buffer = 0 }, d2)
              | some cq_buffer ↦
                  queue_start d2
                    (record q1 { cq_buffer = cq_buffer; cq_slots = λ slot. zero_completion }) qid
                    depth
            ]
      ]

-- nvme_queue_deinit
unfoldable pub queue_deinit : TgtData → Queue → Queue × TgtData
queue_deinit d q =
    let (q1, d1) = unmap_pair d q in
    (record q1 { sq_buffer = 0; cq_buffer = 0; sq_iova = 0; cq_iova = 0 }, d1)
