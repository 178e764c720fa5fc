-- ===== src/Ublksrv/Events.antt =====
-- What a completion does to the queue and to the target: ublksrv_handle_cqe of lib/ublksrv.c and
-- ublksrv_batch_handle_cqe of lib/ublksrv_batch.c.
use s3blk.Base.{
  ℕ, Bool, true, false, not, ◌&&◌, ◌||◌, ◌==◌, if◌then◌else◌, List, [], ◌∷◌, none, some, Option,
  low_bits, ◌>>◌, sub32,
}
use s3blk.Base.Int.{is_neg, is_errno}
use s3blk.Ublk.{user_data_to_tag, user_data_to_op, is_target_io, is_internal_io}
use s3blk.Ublksrv.Types.{
  UblkIo, Cqe, Kernel, Queue, set_at, is_res, op_eventfd, op_epollfd, prep_nr, commit_nr, fetch_nr,
}
use s3blk.Ublksrv.Ring.{submit, prep_epoll_sqe}
use s3blk.Ublksrv.Command.{queue_io_cmd, only_free}
use s3blk.Ublksrv.Batch.{queue_fetch, advance_fetch, tags_of_cqe}
use s3blk.Ublksrv.Calls.{TgtOps, upcall, upcall_opt, apply_opt}

abbrev pub one_less : Queue → Queue
one_less q = record q { cmd_inflight = sub32 q.cmd_inflight 1 }

-- The queue when the completion of an io command is seen, and the next one is not to be fetched.
unfoldable pub arrived : Queue → ℕ → Bool → Queue
arrived q tag fetch =
    let stopped : Queue = record (one_less q) {
      stopping = true;
      ios = set_at q.ios tag (record (q.ios tag) { need_fetch_rq = false });
    } in
    if fetch then one_less q else stopped

-- `io->flags |= UBLKSRV_NEED_GET_DATA | UBLKSRV_IO_FREE`
abbrev pub wants_data : UblkIo → UblkIo
wants_data io = record io { need_get_data = true; io_free = true }

module _ {T : Type 0} where
  -- The loop of ublkdrv_process_epollfd.
  unfoldable pub epoll_callbacks : Kernel → TgtOps T → T × Queue → List (ℕ × ℕ) → T × Queue
  epoll_callbacks k ops w [] = w
  epoll_callbacks k ops w ((fd, events) ∷ es) =
      epoll_callbacks k ops (upcall k (ops.epoll_cb fd events) w) es

  -- ublkdrv_process_epollfd
  unfoldable pub process_epollfd : Kernel → TgtOps T → T × Queue → Cqe → T × Queue
  process_epollfd k ops w cqe =
      let (t, q) = epoll_callbacks k ops w (k.epoll_wait w.1.ring) in
      let q' = (prep_epoll_sqe k q).1 in
      if cqe.more then (t, q) else (t, record q' { ring = submit k q'.ring })

  -- ublksrv_handle_tgt_cqe
  unfoldable pub handle_tgt_cqe : Kernel → TgtOps T → T × Queue → Cqe → T × Queue
  handle_tgt_cqe k ops w cqe =
      let op = low_bits (cqe.user_data >> 16) 8 in
      if not (is_internal_io cqe.user_data)
      then upcall_opt k (apply_opt ops.tgt_io_done cqe) w
      else if op == op_eventfd
      then upcall_opt k ops.handle_event w
      else if op == op_epollfd
      then process_epollfd k ops w cqe
      else w

  -- The target is handed one io after the other.
  unfoldable pub hand_out : Kernel → TgtOps T → T × Queue → List ℕ → T × Queue
  hand_out k ops w [] = w
  hand_out k ops w (tag ∷ tags) = hand_out k ops (upcall k (ops.handle_io_async tag) w) tags

  -- ublksrv_batch_handle_fetch_cqe
  unfoldable pub handle_fetch_cqe : Kernel → TgtOps T → T × Queue → Cqe → T × Queue
  handle_fetch_cqe k ops w cqe =
      let (t, q) = hand_out k ops w (tags_of_cqe w.1 cqe) in
      if is_neg cqe.res then w else (t, advance_fetch q cqe)

  -- ublksrv_batch_handle_cqe with ublksrv_batch_handle_commit_cqe, which only logs; none if the
  -- completion is not of a batch command.
  unfoldable pub batch_handle_cqe : Kernel → TgtOps T → T × Queue → Cqe → ℕ → Option (T × Queue)
  batch_handle_cqe k ops w cqe op =
      let enobufs = is_errno 105 cqe.res in
      let stopped : Queue = record (one_less w.1) { stopping = true } in
      let (t, q) = handle_fetch_cqe k ops w cqe in
      let rearmed = queue_fetch k (one_less q) (user_data_to_tag cqe.user_data) in
      if op == fetch_nr
      then (if is_neg cqe.res && not enobufs
          then some (w.0, stopped)
          else if not cqe.more || enobufs
          then some (t, rearmed)
          else some (t, q))
      else if op == prep_nr || op == commit_nr
      then some (w.0, one_less w.1)
      else none

  -- The part of ublksrv_handle_cqe that is about the io command of a tag.
  unfoldable pub handle_cmd_cqe : Kernel → TgtOps T → T × Queue → Cqe → T × Queue
  handle_cmd_cqe k ops (t, q) cqe =
      let tag = user_data_to_tag cqe.user_data in
      let q' = arrived q tag (not (is_errno 19 cqe.res) && not q.stopping) in
      let wanting : Queue = record q' { ios = set_at q'.ios tag (wants_data (q'.ios tag)) } in
      let freed : Queue = record q' { ios = set_at q'.ios tag (only_free (q'.ios tag)) } in
      if is_res 0 cqe.res
      then upcall k (ops.handle_io_async tag) (t, q')
      else if is_res 1 cqe.res
      then (t, (queue_io_cmd k wanting tag).1)
      else (t, freed)

  -- ublksrv_handle_cqe
  unfoldable pub handle_cqe : Kernel → TgtOps T → T × Queue → Cqe → T × Queue
  handle_cqe k ops w cqe =
      let cmd = handle_cmd_cqe k ops w cqe in
      let batch = batch_handle_cqe k ops w cqe (user_data_to_op cqe.user_data) in
      if is_target_io cqe.user_data
      then handle_tgt_cqe k ops w cqe
      else if w.1.batch_io
      then elim batch [ none ↦ cmd | some w' ↦ w' ]
      else cmd

  -- ublksrv_reap_events_uring; it returns the length of the list.
  unfoldable pub reap_events : Kernel → TgtOps T → T × Queue → List Cqe → T × Queue
  reap_events k ops w [] = w
  reap_events k ops w (cqe ∷ cqes) = reap_events k ops (handle_cqe k ops w cqe) cqes
