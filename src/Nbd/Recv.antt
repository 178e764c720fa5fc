-- ===== src/Nbd/Recv.antt =====
-- The receiving side of targets/nbd/ublk.nbd.cpp: nbd_start_recv, nbd_do_recv and
-- nbd_handle_recv_reply.
pub mod Match
pub mod Job
use s3blk.Base.{
  ℕ, zero, suc, ◌+◌, ◌-◌, ◌^◌, ◌≤◌, Bool, true, false, not, ltb, leb, ◌==◌, if◌then◌else◌, List, [],
  ◌∷◌, ◌++◌, u32,
}
use s3blk.Base.Int.{ℤ, pos, is_neg, pos_part, eio, einval, enomem, eproto, int_of_u32}
use s3blk.Ublk.{
  get_op, op_read, op_write, io_bytes, build_user_data, unique_tag_to_hwq, unique_tag_to_tag,
}
use s3blk.Nbd.Wire.{handle_to_cookie, handle_to_tag}
use s3blk.Nbd.Send.{Env, IoData, QueueData, Sqe, recv, set_io}

-- NBD_OP_READ_REPLY
abbrev pub op_read_reply : ℕ
op_read_reply = 0x81

-- nbd_start_recv for `len` bytes of which `done` are there.
unfoldable pub start_recv : Env → QueueData → ℕ → Bool → ℕ → ℤ × QueueData
start_recv env q len reply done =
    let op = if reply then op_read_reply else op_read in
    let io : IoData = record (q.io_data env.depth) { done = done } in
    if not (env.sqe_free q.sqes) then (enomem, q) else (
      pos 0,
      record q {
        io_data = set_io q.io_data env.depth io;
        sqes = q.sqes ++ recv len done (build_user_data env.depth op 0 1) ∷ [];
      },
    )

-- The loop of nbd_do_recv with `k` rounds left: how many bytes are there at its end. `rd k n` is
-- what recv returns in that round when it is asked for `n` bytes.
unfoldable pub recv_loop : ℕ → (ℕ → ℕ → ℤ) → ℕ → ℕ → ℕ
recv_loop zero rd len done = done
recv_loop (suc k) rd len done =
    let done' = done + pos_part (rd k (len - done)) in
    let rest = recv_loop k rd len done' in
    if ltb done len then (if done' == 0 then 0 else rest) else done

-- nbd_do_recv
unfoldable pub do_recv : Env → (ℕ → ℕ → ℤ) → QueueData → ℕ → ℤ × QueueData
do_recv env rd q len =
    let done = recv_loop (if ltb len 512 then 16 else 32) rd len 0 in
    if done == len then (pos done, q) else start_recv env q len (ltb len 512) done

-- `struct nbd_reply`, as the host sees its fields.
pub record Reply : Type 0 where
  pub magic : ℕ
  pub error : ℕ
  pub handle : ℕ

abbrev pub reply_magic : ℕ
reply_magic = 0x67446698

abbrev pub reply_size : ℕ
reply_size = 16

-- What nbd_handle_recv_reply comes to: an error, a failed assertion, the read io whose data
-- follows, or the io that is resumed with a result.
pub data Action : Type 0 where
  failed : ℤ → Action
  aborted : Action
  read_data : ℕ → Action
  resumed : ℕ → ℤ → Action

-- `fake_cqe.res`
abbrev pub reply_result : Env → ℕ → ℕ → ℤ
reply_result env tag error =
    if not (error == 0)
    then eio
    else if get_op (env.iods tag) == op_write
    then int_of_u32 (io_bytes (env.iods tag))
    else pos 0

-- nbd_handle_recv_reply for a completion with the result `res`; the receiver's io has `done`.
unfoldable pub handle_recv_reply : Env → QueueData → Reply → ℤ → Action
handle_recv_reply env q reply res =
    let unique = handle_to_tag reply.handle in
    let tag = unique_tag_to_tag unique in
    if is_neg res
    then failed res
    else if not (reply.magic == reply_magic)
    then failed eproto
    else if not (u32 (pos_part res + (q.io_data env.depth).done) == reply_size)
    then aborted
    else if leb env.depth tag
    then failed einval
    else if not (unique_tag_to_hwq unique == env.q_id)
    then failed einval
    else if not ((q.io_data tag).cmd_cookie == handle_to_cookie reply.handle)
    then failed einval
    else if get_op (env.iods tag) == op_read
    then read_data tag
    else resumed tag (reply_result env tag reply.error)
