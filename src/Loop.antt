-- ===== src/Loop.antt =====
-- The io path of targets/ublk.loop.cpp, and ublksrv_tgt_process_cqe of
-- targets/include/ublksrv_tgt.h. The ring always has a free entry here: ublk_queue_alloc_sqes
-- submits when it has not, and the target does not look at its result.
pub mod Entries
pub mod Complete
use s3blk.Base.{
  ℕ, zero, suc, ◌+◌, ◌^◌, ◌≤◌, Bool, true, false, not, ◌&&◌, ◌||◌, ltb, ◌==◌, if◌then◌else◌, List,
  [], ◌∷◌, u64, ◌<<◌, has_bit, bit_or,
}
use s3blk.Base.Int.{ℤ, pos, is_neg, is_errno, einval}
use s3blk.Ublk.{
  IoDesc, get_op, get_flags, io_bytes, op_read, op_write, op_flush, op_discard, op_write_zeroes,
  f_fua, f_nounmap, build_user_data, user_data_to_op, ublk_pos,
}

-- `struct loop_tgt_data`
pub record LoopTgtData : Type 0 where
  pub user_copy : Bool
  pub auto_zc : Bool
  pub zero_copy : Bool
  pub block_device : Bool
  pub offset : ℕ

-- The memory of a read or a write: the library's buffer of the tag, an address of the request, or
-- a buffer that is registered under the tag.
pub data Buf : Type 0 where
  io_buf : ℕ → Buf
  at_addr : ℕ → Buf
  registered : ℕ → Buf

-- What an entry does: io on file 0 (the ublk char device) or 1 (the backing file), for a length at
-- a position; fsync and fallocate of the backing file; or a buffer command of the driver.
pub data Work : Type 0 where
  read_file : ℕ → Buf → ℕ → ℕ → Work
  write_file : ℕ → Buf → ℕ → ℕ → Work
  fsync_file : Work
  fallocate_file : ℕ → ℕ → ℕ → Work
  buf_register : ℕ → Work
  buf_unregister : ℕ → Work

-- `struct io_uring_sqe`: `link` is IOSQE_IO_LINK, `skip_success` is IOSQE_CQE_SKIP_SUCCESS, `dsync`
-- is RWF_DSYNC.
pub record Sqe : Type 0 where
  pub work : Work
  pub link : Bool
  pub skip_success : Bool
  pub dsync : Bool
  pub user_data : ℕ

-- FALLOC_FL_KEEP_SIZE, FALLOC_FL_PUNCH_HOLE and FALLOC_FL_ZERO_RANGE of Linux.
abbrev pub keep_size : ℕ
keep_size = 1

abbrev pub punch_hole : ℕ
punch_hole = 2

abbrev pub zero_range : ℕ
zero_range = 16

-- loop_fallocate_mode
unfoldable pub fallocate_mode : IoDesc → ℕ
fallocate_mode iod =
    if get_op iod == op_discard
    then bit_or keep_size punch_hole
    else if get_op iod == op_write_zeroes
    then (if has_bit (get_flags iod) f_nounmap
        then bit_or keep_size zero_range
        else bit_or keep_size punch_hole)
    else bit_or keep_size zero_range

-- lo_rw_handle_fua
abbrev pub lo_rw_handle_fua : IoDesc → Bool
lo_rw_handle_fua iod = get_op iod == op_write && has_bit iod.op_flags f_fua

-- `(iod->start_sector + offset) << 9`
abbrev pub file_pos : LoopTgtData → IoDesc → ℕ
file_pos d iod = u64 (u64 (iod.start_sector + d.offset) << 9)

-- UBLK_USER_COPY_READ and UBLK_USER_COPY_WRITE
abbrev pub user_copy_read : ℕ
user_copy_read = 0x80

abbrev pub user_copy_write : ℕ
user_copy_write = 0x81

-- lo_rw_user_copy
unfoldable pub lo_rw_user_copy : ℕ → LoopTgtData → IoDesc → ℕ → ℕ × List Sqe
lo_rw_user_copy q_id d iod tag =
    let at = ublk_pos q_id tag 0 in
    let from_file : Sqe = record {
      work = read_file 1 (io_buf tag) (io_bytes iod) (file_pos d iod);
      link = true;
      skip_success = false;
      dsync = false;
      user_data = build_user_data tag (get_op iod) 0 1;
    } in
    let to_ublk : Sqe = record {
      work = write_file 0 (io_buf tag) (io_bytes iod) at;
      link = false;
      skip_success = false;
      dsync = false;
      user_data = build_user_data tag user_copy_write 0 1;
    } in
    let from_ublk : Sqe = record {
      work = read_file 0 (io_buf tag) (io_bytes iod) at;
      link = true;
      skip_success = false;
      dsync = false;
      user_data = build_user_data tag user_copy_read 0 1;
    } in
    let to_file : Sqe = record {
      work = write_file 1 (io_buf tag) (io_bytes iod) (file_pos d iod);
      link = false;
      skip_success = false;
      dsync = lo_rw_handle_fua iod;
      user_data = build_user_data tag (get_op iod) 0 1;
    } in
    (2, if get_op iod == op_read then from_file ∷ to_ublk ∷ [] else from_ublk ∷ to_file ∷ [])

-- io_uring_prep_rw with the operation that ublk_to_uring_fs_op picks.
abbrev pub rw_work : IoDesc → Buf → ℕ → Work
rw_work iod buf at =
    if get_op iod == op_read
    then read_file 1 buf (io_bytes iod) at
    else write_file 1 buf (io_bytes iod) at

-- lo_rw
unfoldable pub lo_rw : LoopTgtData → IoDesc → ℕ → ℕ × List Sqe
lo_rw d iod tag =
    let sqe : Sqe = record {
      work = rw_work iod (if d.auto_zc then registered tag else at_addr iod.addr) (file_pos d iod);
      link = false;
      skip_success = false;
      dsync = lo_rw_handle_fua iod;
      user_data = build_user_data tag (get_op iod) 0 1;
    } in
    (1, sqe ∷ [])

-- The numbers of UBLK_U_IO_REGISTER_IO_BUF and UBLK_U_IO_UNREGISTER_IO_BUF.
abbrev pub register_nr : ℕ
register_nr = 0x23

abbrev pub unregister_nr : ℕ
unregister_nr = 0x24

-- lo_rw_zero_copy
unfoldable pub lo_rw_zero_copy : LoopTgtData → IoDesc → ℕ → ℕ × List Sqe
lo_rw_zero_copy d iod tag =
    let register : Sqe = record {
      work = buf_register tag;
      link = true;
      skip_success = true;
      dsync = false;
      user_data = build_user_data tag register_nr 0 1;
    } in
    let io : Sqe = record {
      work = rw_work iod (registered tag) (file_pos d iod);
      link = true;
      skip_success = false;
      dsync = false;
      user_data = build_user_data tag (get_op iod) 0 1;
    } in
    let unregister : Sqe = record {
      work = buf_unregister tag;
      link = false;
      skip_success = false;
      dsync = false;
      user_data = build_user_data tag unregister_nr 0 1;
    } in
    (2, register ∷ io ∷ unregister ∷ [])

-- loop_queue_tgt_rw
unfoldable pub queue_tgt_rw : ℕ → LoopTgtData → IoDesc → ℕ → ℕ × List Sqe
queue_tgt_rw q_id d iod tag =
    if d.auto_zc
    then lo_rw d iod tag
    else if d.zero_copy
    then lo_rw_zero_copy d iod tag
    else if d.user_copy
    then lo_rw_user_copy q_id d iod tag
    else lo_rw d iod tag

-- loop_handle_flush
unfoldable pub handle_flush : IoDesc → ℕ → ℕ × List Sqe
handle_flush iod tag =
    let sqe : Sqe = record {
      work = fsync_file;
      link = false;
      skip_success = false;
      dsync = false;
      user_data = build_user_data tag (get_op iod) 0 1;
    } in
    (1, sqe ∷ [])

-- loop_handle_discard
unfoldable pub handle_discard : LoopTgtData → IoDesc → ℕ → ℕ × List Sqe
handle_discard d iod tag =
    let sqe : Sqe = record {
      work = fallocate_file (fallocate_mode iod) (file_pos d iod) (io_bytes iod);
      link = false;
      skip_success = false;
      dsync = false;
      user_data = build_user_data tag (get_op iod) 0 1;
    } in
    (1, sqe ∷ [])

-- loop_queue_tgt_io: the number of completions to wait for, or -EINVAL, with the entries.
unfoldable pub queue_tgt_io : ℕ → LoopTgtData → IoDesc → ℕ → ℤ × List Sqe
queue_tgt_io q_id d iod tag =
    let op = get_op iod in
    let flush = handle_flush iod tag in
    let discard = handle_discard d iod tag in
    let io = queue_tgt_rw q_id d iod tag in
    if op == op_flush
    then (pos flush.0, flush.1)
    else if op == op_write_zeroes || op == op_discard
    then (pos discard.0, discard.1)
    else if op == op_read || op == op_write
    then (pos io.0, io.1)
    else (einval, [])

-- `struct io_uring_cqe`
pub record Cqe : Type 0 where
  pub res : ℤ
  pub user_data : ℕ

-- is_ublk_io_cmd; UBLK_IO_FETCH_REQ is 0x20.
abbrev pub is_ublk_io_cmd : ℕ → Bool
is_ublk_io_cmd op = ltb op 0x20

-- ublksrv_tgt_process_cqe: the result so far, after the completion.
unfoldable pub process_cqe : Cqe → ℤ → ℤ
process_cqe cqe io_res = if is_ublk_io_cmd (user_data_to_op cqe.user_data) then cqe.res else io_res

-- Where the coroutine __loop_handle_io_async is: it waits for `left` completions with a result so
-- far, starts again, has reported a result, or has ended without one. `undefined` is a coroutine
-- that was resumed although it did not wait, of which C++ says nothing.
pub data Job : Type 0 where
  waiting : ℕ → ℤ → Job
  again : Job
  reported : ℤ → Job
  ended : Job
  undefined : Job

-- Its state once `left` completions are missing.
abbrev pub await : ℕ → ℤ → Job
await zero io_res = if is_errno 11 io_res then again else reported io_res
await (suc n) io_res = waiting (suc n) io_res

-- The coroutine is resumed with a completion, by ublksrv_tgt_io_done.
unfoldable pub resume : Job → Cqe → Job
resume (waiting zero io_res) cqe = undefined
resume (waiting (suc n) io_res) cqe =
    let r = process_cqe cqe io_res in
    await n (if is_neg cqe.res && not (is_neg r) then cqe.res else r)
resume again cqe = undefined
resume (reported r) cqe = undefined
resume ended cqe = undefined
resume undefined cqe = undefined

-- __loop_handle_io_async from `again` to its first suspension, with the entries that it queued.
unfoldable pub start_io : ℕ → LoopTgtData → IoDesc → ℕ → Job × List Sqe
start_io q_id d iod tag = let (ret, sqes) = queue_tgt_io q_id d iod tag in (started ret, sqes)
  where
    started : ℤ → Job
    started (pos zero) = ended
    started (pos (suc n)) = waiting (suc n) (pos 0)
    started ret = ended

-- loop_handle_io_async; `blkdiscard` is what the ioctl returns for a position and a length.
unfoldable pub handle_io_async : (ℕ → ℕ → ℤ) → ℕ → LoopTgtData → IoDesc → ℕ → Job × List Sqe
handle_io_async blkdiscard q_id d iod tag =
    if d.block_device && get_op iod == op_discard
    then (reported (blkdiscard (file_pos d iod) (io_bytes iod)), [])
    else start_io q_id d iod tag
