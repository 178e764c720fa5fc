-- ===== src/Nvme/Ring.antt =====
-- The queue rings of targets/nvme/ublk.nvme_vfio.cpp: nvme_sq_flush, nvme_sq_submit_cmd, the copy
-- of a command into its slot, nvme_cqe_pending and nvme_update_cq_head.
pub mod Modular
pub mod Doorbell
pub mod Window
pub mod Controller
use s3blk.Base.{
  ℕ, ◌+◌, ◌-◌, ◌%◌, ◌^◌, Bool, ◌==◌, ◌||◌, not, leb, if◌then◌else◌, set, u16, u32, low_bits,
}
use s3blk.Nvme.Types.{Command, Completion, Queue}

-- nvme_sq_flush
unfoldable pub sq_flush : Queue → Queue
sq_flush q =
    if sq_tail == last_sq_tail then q else (record q { sq_rung = sq_tail; last_sq_tail = sq_tail })
  where
    open q use {sq_tail, last_sq_tail}

-- `x + 1`, and back to 0 at `n`.
abbrev pub advance : ℕ → ℕ → ℕ
advance n x = if u16 (x + 1) == n then 0 else u16 (x + 1)

-- The commands that are in the ring and not yet announced by the doorbell.
abbrev pub pending : Queue → ℕ
pending q = (q.sq_tail + q.qsize - q.last_sq_tail) % q.qsize

-- nvme_sq_submit_cmd
unfoldable pub sq_submit_cmd : Queue → Queue
unfolding sq_flush
sq_submit_cmd q =
    let q' = record q { sq_tail = advance q.qsize q.sq_tail } in
    if leb 32 (u16 (pending q')) || advance q.qsize q'.sq_tail == q.last_sq_tail
    then sq_flush q'
    else q'

-- The end of nvme_queue_rw_io, nvme_queue_flush_io and nvme_queue_discard_io: the command goes to
-- the slot at the tail and is submitted.
unfoldable pub sq_push : Queue → Command → Queue
sq_push q cmd = sq_submit_cmd (record q { sq_slots = set q.sq_slots q.sq_tail cmd })

-- nvme_cqe_pending
unfoldable pub cqe_pending : Queue → Bool
cqe_pending q = low_bits (q.cq_slots q.cq_head).status 1 == q.cq_phase

-- nvme_update_cq_head; `cq_phase ^= 1` on a phase that is 0 or 1.
unfoldable pub update_cq_head : Queue → Queue
update_cq_head q =
    let tmp = u32 (q.cq_head + 1) in
    if tmp == q.qsize
    then (record q { cq_head = 0; cq_phase = (q.cq_phase + 1) % 2 })
    else (record q { cq_head = u16 tmp })
