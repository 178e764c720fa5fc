-- ===== src/Ublksrv/Command.antt =====
-- The commands to the driver: ublksrv_queue_io_cmd and ublksrv_complete_io of lib/ublksrv.c, with
-- ublksrv_mark_io_done, ublksrv_queue_use_buf and ublksrv_batch_add_complete of
-- include/ublksrv_priv.h.
use s3blk.Base.{
  ℕ, ◌+◌, Bool, true, false, not, ◌&&◌, ◌||◌, ◌==◌, if◌then◌else◌, none, some, u16, u32, sub32,
  low_bits,
}
use s3blk.Base.Int.{ℤ, pos, negsuc}
use s3blk.Ublk.{build_user_data}
use s3blk.Ublksrv.Types.{
  UblkIo, IoCmd, io_cmd, BatchElem, CommitBuf, Batch, Kernel, Queue, set_at, fetch_req,
  commit_and_fetch_req, need_get_data_req, iowr,
}
use s3blk.Ublksrv.Ring.{alloc_sqe, put}

-- ublksrv_mark_io_done
unfoldable pub mark_io_done : UblkIo → ℤ → UblkIo
mark_io_done io res = record io { need_commit_rq_comp = true; io_free = true; result = res }

-- ublksrv_queue_use_buf
unfoldable pub queue_use_buf : Queue → Bool
queue_use_buf q = not (q.user_copy || q.zero_copy)

-- Something is to be fetched or committed.
abbrev pub has_need : UblkIo → Bool
has_need io = io.need_fetch_rq || (io.need_get_data || io.need_commit_rq_comp)

-- The command that the flags ask for.
unfoldable pub cmd_op_of : UblkIo → ℕ
cmd_op_of io =
    if io.need_get_data
    then need_get_data_req
    else if io.need_commit_rq_comp
    then commit_and_fetch_req
    else if io.need_fetch_rq
    then fetch_req
    else 0

-- The command of `tag`, as it is put on the ring.
unfoldable pub cmd_of : Queue → UblkIo → ℕ → IoCmd
cmd_of q io tag =
    let cmd_op = if q.ioctl_op then iowr (cmd_op_of io) else cmd_op_of io in
    record {
      cmd_op = cmd_op;
      q_id = u16 q.q_id;
      tag = u16 tag;
      result = if cmd_op_of io == commit_and_fetch_req then some io.result else none;
      addr = if queue_use_buf q then io.buf_addr else 0;
      auto_buf = if q.auto_zc then some (u16 tag) else none;
      user_data = build_user_data tag (low_bits cmd_op 8) 0 0;
    }

-- `io->flags = 0`
abbrev pub no_flags : UblkIo → UblkIo
no_flags io = record io {
  need_fetch_rq = false;
  need_commit_rq_comp = false;
  io_free = false;
  need_get_data = false;
}

-- ublksrv_queue_io_cmd
unfoldable pub queue_io_cmd : Kernel → Queue → ℕ → ℤ × Queue
queue_io_cmd k q tag =
    let io = q.ios tag in
    let (found, r) = alloc_sqe k q.ring in
    let issued : Queue = record q {
      ring = put r (io_cmd (cmd_of q io tag));
      ios = set_at q.ios tag (no_flags io);
      cmd_inflight = u32 (q.cmd_inflight + 1);
    } in
    if not (io.io_free && has_need io)
    then (pos 0, q)
    else if found
    then (pos 1, issued)
    else (negsuc 0, record q { ring = r })

-- The buffer that takes results now, and what ublksrv_batch_add_complete writes to it.
abbrev pub current : Queue → CommitBuf
current q = q.batch.commit_bufs q.batch.cur_commit_buf

unfoldable pub new_elem : Queue → ℕ → ℤ → BatchElem
new_elem q tag res =
    let old = (current q).buf (current q).done in
    record {
      tag = u16 tag;
      buf_index = if q.auto_zc then u16 tag else old.buf_index;
      result = res;
      buf_addr = if not q.auto_zc && queue_use_buf q then (q.ios tag).buf_addr else old.buf_addr;
    }

abbrev pub with_elem : CommitBuf → BatchElem → CommitBuf
with_elem cb elem = record cb { buf = set_at cb.buf cb.done elem; done = u16 (cb.done + 1) }

-- ublksrv_batch_add_complete
unfoldable pub batch_add_complete : Queue → ℕ → ℤ → Queue
batch_add_complete q tag res =
    let b = q.batch in
    let cb = with_elem (current q) (new_elem q tag res) in
    let b' : Batch = record b { commit_bufs = set_at b.commit_bufs b.cur_commit_buf cb } in
    record q { batch = b' }

-- `io->flags = UBLKSRV_IO_FREE`
abbrev pub only_free : UblkIo → UblkIo
only_free io = record (no_flags io) { io_free = true }

-- ublksrv_complete_io
unfoldable pub complete_io : Kernel → Queue → ℕ → ℤ → ℤ × Queue
complete_io k q tag res =
    let added = batch_add_complete q tag res in
    let marked : Queue = record q { ios = set_at q.ios tag (mark_io_done (q.ios tag) res) } in
    if q.batch_io
    then (pos 1, record added { ios = set_at added.ios tag (only_free (added.ios tag)) })
    else queue_io_cmd k marked tag

-- ublksrv_queue_inc_tgt_io_inflight and ublksrv_queue_dec_tgt_io_inflight
unfoldable pub inc_tgt_io_inflight : Queue → Queue
inc_tgt_io_inflight q = record q { tgt_io_inflight = u32 (q.tgt_io_inflight + 1) }

unfoldable pub dec_tgt_io_inflight : Queue → Queue
dec_tgt_io_inflight q = record q { tgt_io_inflight = sub32 q.tgt_io_inflight 1 }
