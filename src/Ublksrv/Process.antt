-- ===== src/Ublksrv/Process.antt =====
-- The loop of a queue: ublksrv_submit_fetch_commands, ublksrv_queue_is_done and ublksrv_process_io
-- of lib/ublksrv.c. The contexts of include/ublksrv_aio.h that it wakes are not modelled.
pub mod Idle
use s3blk.Base.{
  ℕ, zero, suc, ◌+◌, Bool, true, false, not, ◌&&◌, ◌||◌, ltb, ◌==◌, if◌then◌else◌, List, [], ◌∷◌,
  length, none, some, Option, low_bits, ◌>>◌, sub32,
}
use s3blk.Base.Int.{ℤ, pos, negsuc, minus, is_neg, is_errno}
use s3blk.Ublk.{user_data_to_tag, user_data_to_op, is_target_io, is_internal_io}
use s3blk.Ublksrv.Types.{
  UblkIo, Sqe, tgt_sqe, Cqe, Kernel, Ring, Queue, set_at, is_res, op_eventfd, op_epollfd, prep_nr,
  commit_nr, fetch_nr,
}
use s3blk.Ublksrv.Ring.{
  submit, alloc_sqe, put, queue_event, handled_event, kill_eventfd, prep_epoll_sqe,
}
use s3blk.Ublksrv.Command.{
  queue_io_cmd, complete_io, only_free, inc_tgt_io_inflight, dec_tgt_io_inflight,
}
use s3blk.Ublksrv.Batch.{
  batch_start_fetch, batch_submit_commit, queue_fetch, advance_fetch, tags_of_cqe,
}
use s3blk.Ublksrv.Calls.{Callback, TgtOps, upcall_opt, apply_opt}
use s3blk.Ublksrv.Events.{reap_events}

-- ublksrv_submit_fetch_commands, with its loop.
unfoldable pub queue_io_cmds : Kernel → Queue → ℕ → Queue
queue_io_cmds k q zero = q
queue_io_cmds k q (suc n) = (queue_io_cmd k (queue_io_cmds k q n) n).1

unfoldable pub submit_fetch_commands : Kernel → Queue → Queue
submit_fetch_commands k q =
    if q.batch_io
    then (queue_event k (batch_start_fetch k q)).1
    else (queue_event k (queue_io_cmds k q q.q_depth)).1

-- ublksrv_queue_is_done
unfoldable pub queue_is_done : Queue → Bool
queue_is_done q = q.stopping && (q.ring.ready == 0 && q.cmd_inflight == 0)

-- `if (ublksrv_queue_batch_io(q)) ublksrv_batch_submit_commit(q)`
unfoldable pub commit_pending : Kernel → Queue → Queue
commit_pending k q = if q.batch_io then batch_submit_commit k q else q

-- What io_uring_submit_and_wait_timeout leads to: its result and the completions to be seen.
pub record Wake : Type 0 where
  pub ret : ℤ
  pub cqes : List Cqe

module _ {T : Type 0} where
  -- ublksrv_queue_idle_enter and ublksrv_queue_idle_exit; the pages of the buffers are given back
  -- to the system besides.
  unfoldable pub idle_enter : Kernel → TgtOps T → T × Queue → T × Queue
  idle_enter k ops (t, q) =
      let q' : Queue = record q { idle = true } in
      if q.idle then (t, q) else upcall_opt k (apply_opt ops.idle_fn true) (t, q')

  unfoldable pub idle_exit : Kernel → TgtOps T → T × Queue → T × Queue
  idle_exit k ops (t, q) =
      let q' : Queue = record q { idle = false } in
      if q.idle then upcall_opt k (apply_opt ops.idle_fn false) (t, q') else (t, q)

  -- The end of ublksrv_process_io.
  unfoldable pub after_events : Kernel → TgtOps T → T × Queue → ℤ → ℕ → T × Queue
  after_events k ops w ret reaped =
      let quiet = is_errno 62 ret && (reaped == 0 && w.1.ring.ready == 0) in
      if w.1.stopping
      then (w.0, kill_eventfd w.1)
      else if quiet
      then idle_enter k ops w
      else idle_exit k ops w

  -- ublksrv_process_io
  unfoldable pub process_io : Kernel → TgtOps T → T × Queue → Wake → ℤ × T × Queue
  process_io k ops (t, q) wake =
      let q' = commit_pending k q in
      let waited : Queue = record q' { ring = submit k q'.ring } in
      let reaped = length wake.cqes in
      let w = reap_events k ops (t, waited) wake.cqes in
      let w' = upcall_opt k (apply_opt ops.handle_io_background w.1.ring.ready) w in
      let after = after_events k ops w' wake.ret reaped in
      if queue_is_done q then (minus 19, t, q) else (pos reaped, after.0, after.1)
