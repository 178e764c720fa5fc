-- ===== src/Nbd/Recv/Job.antt =====
-- The receiving coroutine __nbd_handle_recv of targets/nbd/ublk.nbd.cpp, with
-- __nbd_resume_read_req, nbd_handle_recv_bg and nbd_handle_io_bg.
pub mod Handed
pub mod Moves
pub mod Ends
pub mod Background
pub mod NoHang
use s3blk.Base.{
  ℕ, zero, suc, ◌+◌, ◌*◌, Bool, true, false, not, ◌&&◌, ltb, ◌==◌, if◌then◌else◌, [], ◌∷◌, length,
}
use s3blk.Base.Int.{ℤ, pos, negsuc, is_neg, is_errno}
use s3blk.Ublk.{io_bytes}
use s3blk.Nbd.Send.{Env, IoData, QueueData, set_io, resume_io, handle_send_bg, submit_chain}
use s3blk.Nbd.Recv.{
  Reply, Action, failed, aborted, read_data, resumed, do_recv, handle_recv_reply, reply_size,
}

-- What comes from the server: what recv returns, in each round of each call of nbd_do_recv, and
-- the reply that stands in the queue's buffer once such a call has brought it.
pub record Net : Type 0 where
  pub rd : ℕ → ℕ → ℕ → ℤ
  pub reply : ℕ → Reply

-- Where the coroutine is: at the test of its loop, at the labels `read_reply`, `handle_recv`,
-- `read_io` and `handle_read_io`, suspended, or at its end, with the result that broke the loop
-- or 0. `gave_up` is a failed assertion.
pub data Point : Type 0 where
  at_loop : Point
  read_reply : Point
  handle_recv : ℤ → Point
  read_io : ℕ → Point
  handle_read_io : ℕ → ℤ → Point
  waits_reply : Point
  waits_data : ℕ → Point
  ended : ℤ → Point
  gave_up : Point

-- The test `ret == n` of a result that was a count.
abbrev pub is_count : ℤ → ℕ → Bool
is_count (pos m) n = m == n
is_count (negsuc m) n = false

-- `q_data->recv_started = 0`
abbrev pub stop : QueueData → QueueData
stop q = record q { recv_started = false }

-- `done` of the receiver, and __nbd_resume_read_req.
abbrev pub with_done : QueueData → ℕ → ℕ → QueueData
with_done q tag done =
    let io : IoData = record (q.io_data tag) { done = done } in
    record q { io_data = set_io q.io_data tag io }

abbrev pub resume_read_req : Env → QueueData → ℕ → ℤ → QueueData
resume_read_req env q tag res = resume_io env (with_done q tag (q.io_data env.depth).done) tag res

-- After nbd_do_recv for `len` bytes: all bytes are there, or an error, or the entry is on the ring.
unfoldable pub received : Env → ℕ → Point → Point → ℤ × QueueData → Point × QueueData
received env len whole waits (ret, q) =
    if is_count ret len
    then (whole, with_done q env.depth len)
    else if is_neg ret
    then (ended ret, stop q)
    else (waits, q)

-- After nbd_handle_recv_reply.
unfoldable pub after_reply : Env → QueueData → Action → Point × QueueData
after_reply env q (failed e) = (ended e, stop q)
after_reply env q aborted = (gave_up, q)
after_reply env q (read_data tag) = (read_io tag, q)
after_reply env q (resumed tag res) = (at_loop, resume_io env q tag res)

-- From one point to the next; `c` counts the calls of nbd_do_recv.
unfoldable pub step : Env → Net → ℕ → Point → QueueData → Point × QueueData
step env net c at_loop q = if q.in_flight_ios == 0 then (ended (pos 0), stop q) else (read_reply, q)
step env net c read_reply q =
    received env reply_size (handle_recv (pos 0)) waits_reply (do_recv env (net.rd c) q reply_size)
step env net c (handle_recv res) q = after_reply env q (handle_recv_reply env q (net.reply c) res)
step env net c (read_io tag) q =
    let len = io_bytes (env.iods tag) in
    received env len (handle_read_io tag (pos 0)) (waits_data tag) (do_recv env (net.rd c) q len)
step env net c (handle_read_io tag res) q = (at_loop, resume_read_req env q tag res)
step env net c waits_reply q = (waits_reply, q)
step env net c (waits_data tag) q = (waits_data tag, q)
step env net c (ended res) q = (ended res, q)
step env net c gave_up q = (gave_up, q)

abbrev pub is_running : Point → Bool
is_running at_loop = true
is_running read_reply = true
is_running (handle_recv res) = true
is_running (read_io tag) = true
is_running (handle_read_io tag res) = true
is_running waits_reply = false
is_running (waits_data tag) = false
is_running (ended res) = false
is_running gave_up = false

-- The call of nbd_do_recv at a point, which has number `c` if it is the next.
abbrev pub calls_after : Point → ℕ → ℕ
calls_after at_loop c = c
calls_after read_reply c = suc c
calls_after (handle_recv res) c = c
calls_after (read_io tag) c = suc c
calls_after (handle_read_io tag res) c = c
calls_after waits_reply c = c
calls_after (waits_data tag) c = c
calls_after (ended res) c = c
calls_after gave_up c = c

-- The receiver: its coroutine, the queue, and the calls of nbd_do_recv it has made.
pub record Receiver : Type 0 where
  pub point : Point
  pub queue : QueueData
  pub calls : ℕ

abbrev pub advance : Env → Net → Receiver → Receiver
advance env net r =
    let c = calls_after r.point r.calls in
    let (p, q) = step env net c r.point r.queue in record { point = p; queue = q; calls = c }

-- __nbd_handle_recv until it waits or ends, for at most the given number of steps.
unfoldable pub run : ℕ → Env → Net → Receiver → Receiver
run zero env net r = r
run (suc n) env net r =
    let rest = run n env net (advance env net r) in if is_running r.point then rest else r

-- Five steps for each io in flight, and one to end.
abbrev pub enough : QueueData → ℕ
enough q = suc (suc (5 * q.in_flight_ios))

-- The coroutine from its start to its first suspension.
unfoldable pub start_recv_job : Env → Net → Receiver → Receiver
start_recv_job env net r =
    let q : QueueData = record r.queue { recv_started = true } in
    run (enough q) env net (record r { point = at_loop; queue = q })

-- Where the coroutine goes on when it is resumed with the result `res`.
abbrev pub woken : Point → ℤ → Point
woken waits_reply res = if is_errno 11 res then read_reply else handle_recv res
woken (waits_data tag) res = if is_errno 11 res then read_io tag else handle_read_io tag res
woken at_loop res = at_loop
woken read_reply res = read_reply
woken (handle_recv r) res = handle_recv r
woken (read_io tag) res = read_io tag
woken (handle_read_io tag r) res = handle_read_io tag r
woken (ended r) res = ended r
woken gave_up res = gave_up

unfoldable pub resume_recv_job : Env → Net → Receiver → ℤ → Receiver
resume_recv_job env net r res =
    run (enough r.queue) env net (record r { point = woken r.point res })

-- nbd_handle_recv_bg
unfoldable pub handle_recv_bg : Env → Net → Receiver → Receiver
handle_recv_bg env net r =
    let q = r.queue in
    let r1 =
      if not (q.in_flight_ios == 0) && not q.recv_started then start_recv_job env net r else r in
    let r2 = resume_recv_job env net r1 r1.queue.recv_cqe.res in
    if r1.queue.need_handle_recv
    then (record r2 { queue = record r2.queue { need_handle_recv = false } })
    else r1

-- nbd_handle_io_bg
unfoldable pub handle_io_bg : Env → Net → Receiver → Receiver
handle_io_bg env net r =
    let r1 = handle_recv_bg env net (record r { queue = handle_send_bg env r.queue }) in
    let q = r1.queue in
    let again = handle_send_bg env q in
    let idle = q.in_flight_ios == 0 && ltb 0 (length q.next_chain) in
    record r1 { queue = submit_chain (if idle then again else q) }
