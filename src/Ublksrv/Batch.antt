-- ===== src/Ublksrv/Batch.antt =====
-- lib/ublksrv_batch.c: preparing, fetching and committing many ios by one command. The memory of
-- the buffers is there already. What a command's buffer holds is read when it is issued.
pub mod Commit
pub mod Fetch
use s3blk.Base.{
  ℕ, zero, suc, ◌+◌, ◌-◌, ◌*◌, ◌/◌, ◌%◌, Bool, true, false, not, ◌&&◌, ◌||◌, ◌==◌, leb,
  if◌then◌else◌, List, [], ◌∷◌, ◌++◌, map, u16, u32, sub32, low_bits, some, none, Option,
}
use s3blk.Base.Int.{ℤ, pos, negsuc, is_neg, is_errno, pos_part}
use s3blk.Ublk.{build_user_data, user_data_to_tag}
use s3blk.Ublksrv.Types.{
  UblkIo, BatchElem, BatchIo, batch_cmd, CommitBuf, FetchBuf, Batch, Cqe, Kernel, Ring, Queue,
  set_at, prep_nr, commit_nr, fetch_nr, iowr, has_buf_addr,
}
use s3blk.Ublksrv.Ring.{alloc_sqe, put}
use s3blk.Ublksrv.Command.{queue_use_buf}

-- ublk_batch_elem_buf_size
unfoldable pub elem_buf_size : Queue → ℕ
elem_buf_size q = if q.zero_copy || (q.user_copy || q.auto_zc) then 8 else 16

-- `round_up(n, to)`
abbrev pub round_up : ℕ → ℕ → ℕ
round_up n to = (n + (to - 1)) / to * to

-- ublk_batch_commit_buf_size
unfoldable pub commit_buf_size : ℕ → Queue → ℕ
commit_buf_size page_sz q = round_up (elem_buf_size q * q.q_depth) page_sz

-- The state that ublksrv_batch_alloc_bufs sets up, when it gets its memory and its buffer ring.
unfoldable pub batch_alloc_bufs : ℕ → Queue → Queue
batch_alloc_bufs page_sz q =
    let b = q.batch in
    let elem_size = elem_buf_size q in
    let empty = λ (cb : CommitBuf). (record cb {
      done = 0;
      count = u16 (commit_buf_size page_sz q / elem_size);
    }) in
    let fetch = b.fetch_bufs 0 in
    let fetch' : FetchBuf = record fetch {
      fetch_buf_size = round_up (q.q_depth * 2) page_sz;
      fetch_buf_off = 0;
    } in
    let b' : Batch = record b {
      fetch_bufs = set_at b.fetch_bufs 0 fetch';
      commit_bufs =
          set_at (set_at b.commit_bufs 0 (empty (b.commit_bufs 0))) 1 (empty (b.commit_bufs 1));
      commit_buf_elem_size = elem_size;
      cur_commit_buf = 0;
      prep_done = false;
      cmd_flags = if queue_use_buf q then has_buf_addr else 0;
    } in
    record q { batch = b' }

-- The first `n` elements of a buffer.
unfoldable pub elems_of : (ℕ → BatchElem) → ℕ → List BatchElem
elems_of buf zero = []
elems_of buf (suc n) = elems_of buf n ++ buf n ∷ []

-- The command that ublksrv_batch_io_cmd issues, on the memory of commit buffer `at`.
unfoldable pub batch_io_of : Queue → ℕ → ℕ → ℕ → ℕ → BatchIo
batch_io_of q nr at buf_idx nr_elem =
    let b = q.batch in
    record {
      cmd_op = iowr nr;
      q_id = u16 q.q_id;
      flags = b.cmd_flags;
      nr_elem = nr_elem;
      elem_bytes = b.commit_buf_elem_size;
      len = b.commit_buf_elem_size * nr_elem;
      elems = elems_of (b.commit_bufs at).buf nr_elem;
      multishot = false;
      user_data = build_user_data buf_idx nr nr_elem 0;
    }

-- ublksrv_batch_io_cmd; whether an entry was found.
unfoldable pub batch_io_cmd : Kernel → Queue → ℕ → ℕ → ℕ → ℕ → Bool × Queue
batch_io_cmd k q nr at buf_idx nr_elem =
    let (found, r) = alloc_sqe k q.ring in
    let issued : Queue = record q {
      ring = put r (batch_cmd (batch_io_of q nr at buf_idx nr_elem));
      cmd_inflight = u32 (q.cmd_inflight + 1);
    } in
    if found then (true, issued) else (false, record q { ring = r })

-- What ublksrv_batch_queue_prep_io_cmds writes at position `i`.
abbrev pub prep_elem : Queue → BatchElem → ℕ → BatchElem
prep_elem q old i = record {
  tag = u16 i;
  buf_index = if q.auto_zc then u16 i else old.buf_index;
  result = pos 0;
  buf_addr = if not q.auto_zc && queue_use_buf q then (q.ios i).buf_addr else old.buf_addr;
}

-- Its loop.
unfoldable pub fill_prep : Queue → (ℕ → BatchElem) → ℕ → ℕ → BatchElem
fill_prep q buf zero = buf
fill_prep q buf (suc n) = set_at (fill_prep q buf n) n (prep_elem q (buf n) n)

-- ublksrv_batch_queue_prep_io_cmds
unfoldable pub queue_prep_io_cmds : Kernel → Queue → Bool × Queue
queue_prep_io_cmds k q =
    let b = q.batch in
    let nr_elem = u16 q.q_depth in
    let cb = b.commit_bufs 0 in
    let cb' : CommitBuf = record cb { buf = fill_prep q cb.buf nr_elem } in
    let b' : Batch = record b { commit_bufs = set_at b.commit_bufs 0 cb' } in
    let filled : Queue = record q { batch = b' } in batch_io_cmd k filled prep_nr 0 0 nr_elem

-- ublksrv_batch_queue_fetch
unfoldable pub queue_fetch : Kernel → Queue → ℕ → Queue
queue_fetch k q buf_idx =
    let b = q.batch in
    let fb = b.fetch_bufs buf_idx in
    let nr_elem = u16 (fb.fetch_buf_size / 2) in
    let (found, r) = alloc_sqe k q.ring in
    let cmd : BatchIo = record {
      cmd_op = iowr fetch_nr;
      q_id = u16 q.q_id;
      flags = 0;
      nr_elem = nr_elem;
      elem_bytes = 2;
      len = 0;
      elems = [];
      multishot = true;
      user_data = build_user_data buf_idx fetch_nr nr_elem 0;
    } in
    let fb' : FetchBuf = record fb { fetch_buf_off = 0 } in
    let b' : Batch = record b { fetch_bufs = set_at b.fetch_bufs buf_idx fb' } in
    let issued : Queue = record q {
      ring = put r (batch_cmd cmd);
      cmd_inflight = u32 (q.cmd_inflight + 1);
      batch = b';
    } in
    if found then issued else (record q { ring = r })

-- ublksrv_batch_start_fetch
unfoldable pub batch_start_fetch : Kernel → Queue → Queue
batch_start_fetch k q =
    let fetched = queue_fetch k (queue_prep_io_cmds k q).1 0 in
    let b : Batch = record fetched.batch { prep_done = true } in record fetched { batch = b }

-- ublksrv_batch_submit_commit
unfoldable pub batch_submit_commit : Kernel → Queue → Queue
batch_submit_commit k q =
    let b = q.batch in
    let nr_elem = (b.commit_bufs b.cur_commit_buf).done in
    let (found, issued) = batch_io_cmd k q commit_nr b.cur_commit_buf b.cur_commit_buf nr_elem in
    let other = 1 - b.cur_commit_buf in
    let empty : CommitBuf = record (issued.batch.commit_bufs other) { done = 0 } in
    let b' : Batch = record issued.batch {
      cur_commit_buf = other;
      commit_bufs = set_at issued.batch.commit_bufs other empty;
    } in
    if nr_elem == 0 then q else if found then (record issued { batch = b' }) else issued

-- The 2-byte tag at offset `i`.
abbrev pub tag_at : (ℕ → ℕ) → ℕ → ℕ
tag_at buf i = u16 (buf i + 256 * buf (i + 1))

-- The tags that the loop of ublksrv_batch_handle_fetch_cqe hands to the target, in its order: it
-- makes `n` rounds from the offset `i`.
unfoldable pub fetched_tags : ℕ → (ℕ → ℕ) → ℕ → ℕ → List ℕ
fetched_tags q_depth buf i zero = []
fetched_tags q_depth buf i (suc n) =
    let rest = fetched_tags q_depth buf (i + 2) n in
    if leb q_depth (tag_at buf i) then rest else tag_at buf i ∷ rest

-- The rounds of `for (i = start; i < start + res; i += 2)`.
abbrev pub rounds : ℤ → ℕ
rounds res = (pos_part res + 1) / 2

-- `fb->fetch_buf_off = end`
unfoldable pub advance_fetch : Queue → Cqe → Queue
advance_fetch q cqe =
    let buf_idx = user_data_to_tag cqe.user_data in
    let b = q.batch in
    let fb = b.fetch_bufs buf_idx in
    let fb' : FetchBuf = record fb { fetch_buf_off = u32 (fb.fetch_buf_off + pos_part cqe.res) } in
    let b' : Batch = record b { fetch_bufs = set_at b.fetch_bufs buf_idx fb' } in
    record q { batch = b' }

-- What ublksrv_batch_handle_fetch_cqe hands to the target. The buffer is far smaller than 2^32
-- bytes, so `start + res` does not wrap.
unfoldable pub tags_of_cqe : Queue → Cqe → List ℕ
tags_of_cqe q cqe =
    let fb = q.batch.fetch_bufs (user_data_to_tag cqe.user_data) in
    fetched_tags q.q_depth fb.fetch_buf fb.fetch_buf_off (rounds cqe.res)
