-- ===== src/Checks/Library.antt =====
-- A queue of the library with a target that ends its ios when its own entries complete.
use s3blk.Base.{
  ℕ, ◌+◌, ◌≤◌, ◌≡◌, inl, inr, refl, arith, Bool, true, false, List, [], ◌∷◌, none, some,
  if◌then◌else◌, Bool-cases, length,
}
use s3blk.Base.Int.{pos}
use s3blk.Ublk.{build_user_data, user_data_to_tag, is_target_io}
use s3blk.Ublksrv.Types.{Batch, BatchElem, Kernel, Queue, Cqe, set_at}
use s3blk.Ublksrv.Ring.{submit, alloc_sqe, queue_event_on}
use s3blk.Ublksrv.Calls.{TgtOps, Callback, complete, apply_opt}
use s3blk.Ublksrv.Command.{queue_io_cmd}
use s3blk.Ublksrv.Events.{reap_events}
use s3blk.Ublksrv.Process.{submit_fetch_commands, queue_io_cmds, Wake, process_io, queue_is_done}
use s3blk.Ublksrv.Init.{
  DevInfo, System, queue_init_flags, all_ok, calculate_depths, setup_eventfd, bufs_ok, io_buf,
  queue_before_start, fresh_io, fresh_queue,
}
use s3blk.Ublksrv.Owner.{issued_tags}
use s3blk.Ublksrv.Owner.Moves.{IsOwned, IsOwned-same, Moves}
use s3blk.Ublksrv.Owner.Target.{IsTarget, IsFairOpt}
use s3blk.Ublksrv.Owner.Events.{Deliverable, Delivers}
use s3blk.Ublksrv.Owner.Process.{process_io-Moves}
use s3blk.Ublksrv.Owner.Start.{queue_init_flags-IsOwned, owners_after, no_ios, upto}
use s3blk.Ublksrv.Owner.Drain.{reap_events-queue_is_done, abort_cqes}

abbrev kernel : Kernel
kernel = record { sq_entries = 2; takes = λ r. r.ready; epoll_wait = λ r. [] }

abbrev device : DevInfo
device = record {
  queue_depth = 2;
  cmd_ioctl_encode = true;
  user_copy = false;
  support_zero_copy = false;
  auto_buf_reg = false;
  batch_io = false;
  need_poll = false;
  need_eventfd = false;
  tgt_ring_depth = 2;
  extra_ios = 0;
  cq_depth = 0;
  has_handle_event = false;
}

abbrev no_elem : BatchElem
no_elem = record { tag = 0; buf_index = 0; result = pos 0; buf_addr = 0 }

abbrev no_batch : Batch
no_batch = record {
  fetch_bufs = λ i. record { fetch_buf = λ j. 0; fetch_buf_size = 0; fetch_buf_off = 0 };
  commit_bufs = λ i. record { buf = λ j. no_elem; done = 0; count = 0 };
  commit_buf_elem_size = 8;
  cur_commit_buf = 0;
  prep_done = false;
  cmd_flags = 0;
}

abbrev system : System
system = record {
  map_ok = true;
  alloc_buf = λ i. some (4096 + i);
  ring_ok = true;
  batch_ok = true;
  init_queue_ok = true;
  eventfd = pos 7;
  page_sz = 4096;
  batch = no_batch;
}

-- The state of the target tells which ios it has.
abbrev take_io : ℕ → Callback (ℕ → Bool)
take_io tag s q = (set_at s tag true, [])

abbrev end_io : Cqe → Callback (ℕ → Bool)
end_io cqe s q =
    let tag = user_data_to_tag cqe.user_data in
    if s tag then (set_at s tag false, complete tag cqe.res ∷ []) else (s, [])

abbrev ops : TgtOps (ℕ → Bool)
ops = record {
  handle_io_async = take_io;
  tgt_io_done = some end_io;
  handle_event = none;
  handle_io_background = none;
  idle_fn = none;
  epoll_cb = λ fd events s q. (s, []);
}

abbrev holds : (ℕ → Bool) → ℕ → Bool
holds s = s

end_io_plays : (cqe : Cqe) → IsFairOpt holds (apply_opt ops.tgt_io_done cqe)
end_io_plays cqe s q = elim (Bool-cases (s (user_data_to_tag cqe.user_data))) [
  | inl e ↦ rw e (e, λ t. refl)
  | inr e ↦ rw e (λ t. refl)
]

ops_fair : IsTarget ops holds
ops_fair = record {
  takes_io = λ tag s q away t. refl;
  fair_done = end_io_plays;
  fair_event = tt;
  fair_background = λ n. tt;
  fair_idle = λ b. tt;
  fair_epoll = λ fd events s q t. refl;
}

abbrev queue : Queue
queue = submit_fetch_commands kernel (queue_before_start device system 0)

queue_is_started : queue_init_flags kernel device system 0 ≡ some queue
unfolding queue_init_flags all_ok calculate_depths setup_eventfd bufs_ok io_buf
queue_is_started = refl

depths_fit : (calculate_depths device).0 ≤ kernel.sq_entries
unfolding calculate_depths
depths_fit = omega arith

queue_init_flags-IsOwned_example :
    IsOwned 2 no_ios (owners_after 2) queue
    × (issued_tags queue.ring.sqes ≡ upto 2)
    × (queue.cmd_inflight ≡ 2)
queue_init_flags-IsOwned_example =
    queue_init_flags-IsOwned kernel device system 0 queue (omega arith) refl depths_fit
      queue_is_started

-- The driver hands out the io of tag 1.
abbrev fetched_1 : Cqe
fetched_1 = record { res = pos 0; user_data = build_user_data 1 0x20 0 0; more = false }

queue_owned : IsOwned 2 no_ios (owners_after 2) queue
queue_owned =
    (queue_init_flags-IsOwned kernel device system 0 queue (omega arith) refl depths_fit
      queue_is_started).0

fetched_1-Deliverable : Deliverable 2 no_ios queue fetched_1
unfolding user_data_to_tag build_user_data is_target_io submit_fetch_commands queue_io_cmds
    queue_io_cmd queue_before_start fresh_queue fresh_io alloc_sqe queue_event_on setup_eventfd
fetched_1-Deliverable = inr (refl, omega arith, refl, refl)

abbrev wake : Wake
wake = record { ret = pos 1; cqes = fetched_1 ∷ [] }

abbrev waited : Queue
waited = record queue { ring = submit kernel queue.ring }

waited-Delivers : Delivers kernel ops holds ops_fair 2 (no_ios, waited) wake.cqes
waited-Delivers = (fetched_1-Deliverable, tt)

process_io-Moves_example :
    Moves 2
      (owners_after 2)
      queue
      (process_io kernel ops (no_ios, queue) wake).1
      (process_io kernel ops (no_ios, queue) wake).2
process_io-Moves_example =
    process_io-Moves kernel ops holds ops_fair no_ios queue wake queue_owned waited-Delivers

waited_owned : IsOwned 2 no_ios (owners_after 2) waited
waited_owned =
    IsOwned-same
      (record { same_batch = refl; same_ios = refl; same_inflight = refl; same_tags = refl })
      queue_owned

waited_ready : waited.ring.ready ≡ 0
unfolding submit_fetch_commands queue_io_cmds queue_io_cmd queue_before_start fresh_queue fresh_io
    alloc_sqe queue_event_on setup_eventfd
waited_ready = refl

queue_inflight : queue.cmd_inflight ≡ 2
queue_inflight =
    (queue_init_flags-IsOwned kernel device system 0 queue (omega arith) refl depths_fit
      queue_is_started).2

reap_events-queue_is_done_example :
    (ts : List ℕ) × Delivers kernel ops holds ops_fair 2 (no_ios, waited) (abort_cqes ts)
    × (length ts ≡ 2)
    × (queue_is_done (reap_events kernel ops (no_ios, waited) (abort_cqes ts)).1 ≡ true)
reap_events-queue_is_done_example =
    reap_events-queue_is_done kernel ops holds ops_fair 2 (no_ios, waited) waited_owned waited_ready
      (inr (omega (arith, queue_inflight))) queue_inflight
