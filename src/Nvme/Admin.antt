-- ===== src/Nvme/Admin.antt =====
-- The admin commands of targets/nvme/ublk.nvme_vfio.cpp: nvme_validate_params,
-- nvme_wait_admin_completion, nvme_submit_admin_cmd, nvme_create_admin_queue,
-- nvme_create_io_queue and nvme_delete_io_queue.
pub mod Wait
use s3blk.Base.{
  ℕ, zero, suc, ◌+◌, ◌-◌, ◌*◌, ◌%◌, ◌^◌, Bool, ltb, ◌==◌, if◌then◌else◌, List, set, u16, u32,
  low_bits, ◌>>◌,
}
use s3blk.Base.Int.{ℤ, pos, minus, is_neg, eio, einval, etimedout}
use s3blk.Nvme.Types.{
  Queue, Completion, TgtData, IoasCall, AdminCommand, create_cq, create_sq, delete_queue,
  admin_command, admin_q_size,
}
use s3blk.Nvme.Setup.{queue_init, queue_deinit}

-- nvme_validate_params
unfoldable pub validate_params : TgtData → ℕ → ℤ
validate_params d cap =
    let mqes = low_bits cap 16 + 1 in
    if ltb 65535 d.nr_io_queues then einval else if ltb mqes d.queue_depth then einval else pos 0

-- One completion is taken off the admin queue.
abbrev pub take_completion : Queue → Queue
take_completion q =
    let head = u16 ((q.cq_head + 1) % q.qsize) in
    record q {
      cq_head = head;
      cq_phase = if head == 0 then 1 - q.cq_phase else q.cq_phase;
      cq_rung = head;
    }

-- The loop of nvme_wait_admin_completion with `k` rounds left; `see k` is the slot at the head as
-- it is read in that round.
unfoldable pub wait_loop : ℕ → (ℕ → Completion) → Queue → ℤ × Queue
wait_loop zero see q = (etimedout, q)
wait_loop (suc k) see q =
    let rest = wait_loop k see q in
    let c = see k in
    if low_bits c.status 1 == q.cq_phase
    then (if c.status >> 1 == 0 then pos 0 else eio, take_completion q)
    else rest

-- nvme_wait_admin_completion
abbrev pub wait_admin_completion : (ℕ → Completion) → Queue → ℤ × Queue
wait_admin_completion see q = wait_loop 5000 see q

-- nvme_submit_admin_cmd; `device` is what the controller shows at the head in each round, given
-- the queue with the command announced.
unfoldable pub submit_admin_cmd : (Queue → ℕ → Completion) → Queue → AdminCommand → ℤ × Queue
submit_admin_cmd device q cmd =
    let tail = u16 ((q.sq_tail + 1) % q.qsize) in
    let q1 : Queue = record q {
      sq_slots = set q.sq_slots q.sq_tail (admin_command cmd);
      sq_tail = tail;
      sq_rung = tail;
    } in
    wait_admin_completion (device q1) q1

-- The registers AQA, ASQ and ACQ.
pub record AdminRegs : Type 0 where
  pub aqa : ℕ
  pub asq : ℕ
  pub acq : ℕ

module _ (map_ok : List IoasCall → IoasCall → Bool) where
  -- nvme_create_admin_queue
  unfoldable pub create_admin_queue : TgtData → Queue → AdminRegs → ℤ × Queue × TgtData × AdminRegs
  create_admin_queue d q regs =
      let (ret, q1, d1) = queue_init map_ok d q 0 admin_q_size in
      if is_neg ret then (ret, q1, d1, regs) else (
        pos 0,
        q1,
        d1,
        record {
          aqa = (admin_q_size - 1) * 2 ^ 16 + (admin_q_size - 1);
          asq = q1.sq_iova;
          acq = q1.cq_iova;
        },
      )

  -- nvme_create_io_queue: the result, the io queue, the target and the admin queue.
  unfoldable pub create_io_queue :
      (Queue → ℕ → Completion) → TgtData → Queue → Queue → ℕ → ℕ → ℤ × Queue × TgtData × Queue
  create_io_queue device d admin ioq qid qsize =
      let (ret, q1, d1) = queue_init map_ok d ioq qid qsize in
      let (failed_q, failed_d) = queue_deinit d1 q1 in
      let (ret_cq, admin1) =
        submit_admin_cmd device admin (create_cq q1.cq_iova (u16 qid) (u16 (qsize - 1)) 1) in
      let (ret_sq, admin2) =
        submit_admin_cmd device admin1
          (create_sq q1.sq_iova (u16 qid) (u16 (qsize - 1)) 1 (u16 qid)) in
      if is_neg ret
      then (ret, q1, d1, admin)
      else if is_neg ret_cq
      then (minus 1, failed_q, failed_d, admin1)
      else if is_neg ret_sq
      then (minus 1, failed_q, failed_d, admin2)
      else (pos 0, q1, d1, admin2)

-- NVME_ADMIN_DELETE_SQ and NVME_ADMIN_DELETE_CQ
abbrev pub admin_delete_sq : ℕ
admin_delete_sq = 0

abbrev pub admin_delete_cq : ℕ
admin_delete_cq = 4

-- nvme_delete_io_queue
unfoldable pub delete_io_queue : (Queue → ℕ → Completion) → Queue → ℕ → ℤ × Queue
delete_io_queue device admin qid =
    let (ret_sq, admin1) = submit_admin_cmd device admin (delete_queue admin_delete_sq (u16 qid)) in
    let (ret_cq, admin2) =
      submit_admin_cmd device admin1 (delete_queue admin_delete_cq (u16 qid)) in
    (pos 0, admin2)
