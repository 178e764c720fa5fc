-- ===== src/Ublksrv/Ring.antt =====
-- The io_uring of a queue: ublksrv_alloc_sqe of include/ublksrv_priv.h, and the entries of the
-- event fds in lib/ublksrv.c.
use s3blk.Base.{ℕ, ◌+◌, ◌-◌, Bool, ltb, if◌then◌else◌, Option, none, some, [], ◌∷◌, ◌++◌}
use s3blk.Base.Int.{ℤ, pos, negsuc, einval}
use s3blk.Ublksrv.Types.{
  Sqe, poll_add, poll_multishot, Ring, Kernel, Queue, is_res, build_internal_data, op_eventfd,
  op_epollfd,
}

-- io_uring_submit, which takes over what the kernel decides.
abbrev pub submit : Kernel → Ring → Ring
submit k r = record r { ready = r.ready - k.takes r }

-- io_uring_get_sqe finds an entry.
abbrev pub has_space : Kernel → Ring → Bool
has_space k r = ltb r.ready k.sq_entries

-- ublksrv_alloc_sqe: the ring, and whether an entry is found on it.
unfoldable pub alloc_sqe : Kernel → Ring → Bool × Ring
alloc_sqe k r = let r' : Ring = if has_space k r then r else submit k r in (has_space k r', r')

-- The entry that was found is filled in.
abbrev pub put : Ring → Sqe → Ring
put r sqe = record r { sqes = r.sqes ++ sqe ∷ []; ready = r.ready + 1 }

-- __ublksrv_queue_event, for a queue with or without an event fd.
unfoldable pub queue_event_on : Kernel → Queue → Option ℕ → ℤ × Queue
queue_event_on k q none = (pos 0, q)
queue_event_on k q (some fd) =
    let polled : Queue = record q {
      ring = put q.ring (poll_add fd (build_internal_data op_eventfd));
    } in
    if q.stopping
    then (einval, q)
    else if has_space k q.ring
    then (pos 0, polled)
    else (negsuc 0, q)

abbrev pub queue_event : Kernel → Queue → ℤ × Queue
queue_event k q = queue_event_on k q q.efd

-- ublksrv_queue_handled_event, whose read empties the event fd. Its submit waits for nothing.
unfoldable pub handled_event_on : Kernel → Queue → Option ℕ → Queue
handled_event_on k q none = q
handled_event_on k q (some fd) =
    let q' : Queue = record q { efd_value = 0 } in
    let (ret, queued) = queue_event_on k q' (some fd) in
    if is_res 0 ret then (record queued { ring = submit k queued.ring }) else queued

abbrev pub handled_event : Kernel → Queue → Queue
handled_event k q = handled_event_on k q q.efd

-- ublksrv_queue_send_event and ublksrv_kill_eventfd add to the event fd.
unfoldable pub send_event : Queue → Queue
send_event q = elim q.efd [ none ↦ q | some fd ↦ record q { efd_value = q.efd_value + 1 } ]

unfoldable pub kill_eventfd : Queue → Queue
kill_eventfd q = if q.stopping then send_event q else q

-- ublksrv_prep_epoll_sqe
unfoldable pub prep_epoll_sqe : Kernel → Queue → ℤ × Queue
prep_epoll_sqe k q =
    let (found, r) = alloc_sqe k q.ring in
    let polled : Queue = record q {
      ring = put r (poll_multishot q.epollfd (build_internal_data op_epollfd));
    } in
    if found then (pos 0, polled) else (negsuc 0, record q { ring = r })
