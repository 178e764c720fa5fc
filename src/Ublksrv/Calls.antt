-- ===== src/Ublksrv/Calls.antt =====
-- What a target can ask of the queue, and how the queue calls its target.
use s3blk.Base.{ℕ, ◌-◌, Bool, if◌then◌else◌, List, [], ◌∷◌, length, ltb, none, some, Option}
use s3blk.Base.Int.{ℤ}
use s3blk.Ublksrv.Types.{tgt_sqe, Cqe, Kernel, Queue, Ring}
use s3blk.Ublksrv.Ring.{has_space, submit, put, handled_event}
use s3blk.Ublksrv.Command.{complete_io, inc_tgt_io_inflight, dec_tgt_io_inflight}

-- The calls of the library that a target makes: to complete an io, to put entries of its
-- own on the ring, given by their user_data, to count its ios, and to go on with events.
pub data Call : Type 0 where
  complete : ℕ → ℤ → Call
  queue_sqes : List ℕ → Call
  inc_inflight : Call
  dec_inflight : Call
  events_handled : Call

-- As long as io_uring_get_sqe finds an entry.
unfoldable pub put_all : Kernel → Ring → List ℕ → Ring
put_all k r [] = r
put_all k r (u ∷ us) =
    let rest = put_all k (put r (tgt_sqe u)) us in if has_space k r then rest else r

-- ublk_queue_alloc_sqes, with the entries filled in. It submits unless there is room for all.
unfoldable pub queue_all : Kernel → Ring → List ℕ → Ring
queue_all k r us = put_all k (if ltb (k.sq_entries - r.ready) (length us) then submit k r else r) us

unfoldable pub run_call : Kernel → Queue → Call → Queue
run_call k q (complete tag res) = (complete_io k q tag res).1
run_call k q (queue_sqes us) = record q { ring = queue_all k q.ring us }
run_call k q inc_inflight = inc_tgt_io_inflight q
run_call k q dec_inflight = dec_tgt_io_inflight q
run_call k q events_handled = handled_event k q

unfoldable pub run_calls : Kernel → Queue → List Call → Queue
run_calls k q [] = q
run_calls k q (c ∷ cs) = run_calls k (run_call k q c) cs

-- What a target with state `T` does when it is called: its new state, and its calls.
abbrev pub Callback : Type 0 → Type 0
Callback T = T → Queue → T × List Call

-- `struct ublksrv_tgt_type` as the queue uses it; none is a null pointer. An epoll callback is
-- told by its fd and gets the events.
pub record TgtOps (T : Type 0) : Type 0 where
  pub handle_io_async : ℕ → Callback T
  pub tgt_io_done : Option (Cqe → Callback T)
  pub handle_event : Option (Callback T)
  pub handle_io_background : Option (ℕ → Callback T)
  pub idle_fn : Option (Bool → Callback T)
  pub epoll_cb : ℕ → ℕ → Callback T

module _ {T : Type 0} where
  -- The target is called, and its calls take effect.
  unfoldable pub upcall : Kernel → Callback T → T × Queue → T × Queue
  upcall k f (t, q) = let (t', calls) = f t q in (t', run_calls k q calls)

  abbrev pub upcall_opt : Kernel → Option (Callback T) → T × Queue → T × Queue
  upcall_opt k none w = w
  upcall_opt k (some f) w = upcall k f w

  -- A callback that takes an argument, where there is one.
  abbrev pub apply_opt : {A : Type 0} → Option (A → Callback T) → A → Option (Callback T)
  apply_opt none a = none
  apply_opt (some f) a = some (f a)
