-- ===== src/Nbd/Send.antt =====
-- The sending side of targets/nbd/ublk.nbd.cpp: nbd_queue_req, the coroutine
-- __nbd_handle_io_async, nbd_send_chain_busy, nbd_handle_io_async, nbd_send_req_done,
-- nbd_tgt_io_done, nbd_handle_send_bg and the end of nbd_handle_io_bg.
use s3blk.Base.{
  ℕ, ◌+◌, Bool, true, false, not, ◌&&◌, ltb, leb, ◌==◌, if◌then◌else◌, List, [], ◌∷◌, ◌++◌, length,
  set, get_or, Option, none, some, u16, u32, sub16, sub32,
}
use s3blk.Base.Int.{ℤ, pos, is_neg, pos_part, eio, enomem, is_errno, int_of_u32}
use s3blk.Ublk.{IoDesc, get_op, op_write, io_bytes, build_user_data}
use s3blk.Nbd.Wire.{Request, req_to_nbd_cmd_type, build_req}

-- `struct nbd_io_data`
pub record IoData : Type 0 where
  pub cmd_cookie : ℕ
  pub done : ℕ

-- `struct io_uring_cqe`; `notif` is IORING_CQE_F_NOTIF.
pub record Cqe : Type 0 where
  pub res : ℤ
  pub user_data : ℕ
  pub notif : Bool

-- What is put on the io_uring: sendmsg of a request and `payload` bytes of data behind it, or recv
-- of `len` bytes to offset `done` of a buffer. `link` is IOSQE_IO_LINK.
pub data Sqe : Type 0 where
  send : Request → ℕ → ℕ → Bool → Bool → Sqe
  recv : ℕ → ℕ → ℕ → Sqe

-- `struct nbd_queue_data`, but for the unused `use_unix_sock`, with the per-tag data of the queue's
-- ios (tag `depth` is the one of the receiver), the entries put on the ring so far, the latest
-- last, and the results that were reported. `last_send_sqe` is a position among the entries.
pub record QueueData : Type 0 where
  pub in_flight_ios : ℕ
  pub recv_started : Bool
  pub use_send_zc : Bool
  pub need_handle_recv : Bool
  pub chain_active : Bool
  pub chained_send_ios : ℕ
  pub next_chain : List ℕ
  pub last_send_sqe : Option ℕ
  pub recv_cqe : Cqe
  pub io_data : ℕ → IoData
  pub sqes : List Sqe
  pub completed : List (ℕ × ℤ)

-- The queue and what the outside decides: its number and depth, the descriptors of its tags, and
-- whether a free entry is found on the ring.
pub record Env : Type 0 where
  pub q_id : ℕ
  pub depth : ℕ
  pub iods : ℕ → IoDesc
  pub sqe_free : List Sqe → Bool

abbrev pub set_io : (ℕ → IoData) → ℕ → IoData → ℕ → IoData
set_io f tag d t = if t == tag then d else f t

-- nbd_queue_req for the request of `tag`.
unfoldable pub queue_req : Env → QueueData → ℕ → Request → ℤ × QueueData
queue_req env q tag req =
    let iod = env.iods tag in
    let op = get_op iod in
    let user_data = build_user_data tag op (if op == op_write then iod.nr_sectors else 0) 1 in
    let payload = if op == op_write then io_bytes iod else 0 in
    if not (env.sqe_free q.sqes) then (enomem, q) else (
      pos 1,
      record q {
        sqes = q.sqes ++ send req payload user_data q.use_send_zc true ∷ [];
        last_send_sqe = some (length q.sqes);
        chained_send_ios = u32 (q.chained_send_ios + 1);
      },
    )

-- The end of the coroutine, from the label `fail` on.
unfoldable pub finish_io : QueueData → ℕ → ℤ → QueueData
finish_io q tag ret =
    let result =
      if is_neg ret then ret else int_of_u32 (u32 (pos_part ret + (q.io_data tag).done)) in
    record q {
      completed = q.completed ++ (tag, result) ∷ [];
      in_flight_ios = sub16 q.in_flight_ios 1;
    }

-- From the label `again` to the next suspension, or to the end if no entry is free.
unfoldable pub try_send : Env → QueueData → ℕ → Request → QueueData
try_send env q tag req =
    let (ret, q') = queue_req env q tag req in if is_neg ret then finish_io q' tag ret else q'

-- The request that is sent for a tag. It is built once, and a retry sends it again.
abbrev pub req_of : Env → QueueData → ℕ → ℕ → Request
req_of env q tag kind = build_req env.q_id tag (q.io_data tag).cmd_cookie (env.iods tag) kind

-- __nbd_handle_io_async from its start to its first suspension.
unfoldable pub start_io : Env → QueueData → ℕ → QueueData
start_io env q tag = elim (req_to_nbd_cmd_type (env.iods tag)) [
  | none ↦ finish_io q tag eio
  | some kind ↦
      let cookie = u32 ((q.io_data tag).cmd_cookie + 1) in
      let q' : QueueData = record q {
        io_data = set_io q.io_data tag (record { cmd_cookie = cookie; done = 0 });
        in_flight_ios = u16 (q.in_flight_ios + 1);
      } in
      try_send env q' tag (req_of env q' tag kind)
]

-- The rest of __nbd_handle_io_async, when it is resumed with the result `res`; it
-- is suspended only for the known operations.
unfoldable pub resume_io : Env → QueueData → ℕ → ℤ → QueueData
resume_io env q tag res = elim (req_to_nbd_cmd_type (env.iods tag)) [
  | none ↦ q
  | some kind ↦
      if is_errno 11 res then try_send env q tag (req_of env q tag kind) else finish_io q tag res
]

-- nbd_send_chain_busy
abbrev pub send_chain_busy : QueueData → Bool
send_chain_busy q = ltb 0 q.chained_send_ios && q.chain_active

-- nbd_handle_io_async
unfoldable pub handle_io_async : Env → QueueData → ℕ → QueueData
handle_io_async env q tag =
    if send_chain_busy q
    then (record q { next_chain = q.next_chain ++ tag ∷ [] })
    else start_io env q tag

-- nbd_send_req_done; what is left out only logs.
unfoldable pub send_req_done : QueueData → Cqe → QueueData
send_req_done q cqe =
    let left = sub32 q.chained_send_ios 1 in
    if cqe.notif then q else (record q {
      chained_send_ios = left;
      chain_active = if left == 0 then false else q.chain_active;
    })

-- nbd_tgt_io_done for the io of `tag`; the receiver's tag is `depth`.
unfoldable pub tgt_io_done : Env → QueueData → ℕ → Cqe → QueueData
tgt_io_done env q tag cqe =
    if leb env.depth tag
    then (record q { recv_cqe = cqe; need_handle_recv = true })
    else send_req_done q cqe

-- The loop of nbd_handle_send_bg.
unfoldable pub start_all : Env → QueueData → List ℕ → QueueData
start_all env q [] = q
start_all env q (tag ∷ tags) = start_all env (start_io env q tag) tags

abbrev pub unlink : Sqe → Sqe
unlink (send req payload user_data zc link) = send req payload user_data zc false
unlink (recv len at user_data) = recv len at user_data

-- `last_send_sqe->flags &= ~IOSQE_IO_LINK`
abbrev pub end_chain : QueueData → QueueData
end_chain q = elim q.last_send_sqe [
  | none ↦ q
  | some i ↦ record q {
    sqes = set q.sqes i (unlink (get_or q.sqes i (recv 0 0 0)));
    last_send_sqe = none;
  }
]

-- nbd_handle_send_bg
unfoldable pub handle_send_bg : Env → QueueData → QueueData
handle_send_bg env q =
    let started : QueueData = record (start_all env q q.next_chain) { next_chain = [] } in
    end_chain (if not (send_chain_busy q) then started else q)

-- The end of nbd_handle_io_bg.
abbrev pub submit_chain : QueueData → QueueData
submit_chain q = if ltb 0 q.chained_send_ios then (record q { chain_active = true }) else q
