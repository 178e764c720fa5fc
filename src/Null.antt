-- ===== src/Null.antt =====
-- The io path of targets/ublk.null.cpp, with ublksrv_tgt_io_done of targets/include/ublksrv_tgt.h,
-- as callbacks of the library's queue.
pub mod Contract
pub mod InStep
use s3blk.Base.{
  ℕ, zero, suc, Bool, true, false, not, ◌&&◌, if◌then◌else◌, List, [], ◌∷◌, map, some, none,
}
use s3blk.Base.Int.{ℤ, pos, int_of_u32}
use s3blk.Ublk.{IoDesc, get_op, io_bytes, build_user_data, user_data_to_tag}
use s3blk.Loop.{Job, waiting, again, reported, ended, undefined, resume, register_nr, unregister_nr}
use s3blk.Loop
use s3blk.Ublksrv.Types.{Cqe, Queue, set_at}
use s3blk.Ublksrv.Calls.{Call, complete, queue_sqes, Callback, TgtOps}

-- What an entry does: nothing, with the registered buffer of a tag and a given result, or a buffer
-- command of the driver.
pub data Work : Type 0 where
  nop : ℕ → ℕ → Work
  buf_register : ℕ → Work
  buf_unregister : ℕ → Work

-- `struct io_uring_sqe`: `link` is IOSQE_IO_LINK, `skip_success` is IOSQE_CQE_SKIP_SUCCESS.
pub record Sqe : Type 0 where
  pub work : Work
  pub link : Bool
  pub skip_success : Bool
  pub user_data : ℕ

-- null_submit_io: the number of completions to wait for, and the entries.
unfoldable pub submit_io : Bool → Bool → IoDesc → ℕ → ℕ × List Sqe
submit_io auto_zc zero_copy iod tag =
    let op = get_op iod in
    let nop_sqe : Sqe = record {
      work = nop tag (io_bytes iod);
      link = not auto_zc;
      skip_success = false;
      user_data = build_user_data tag op 0 1;
    } in
    let register : Sqe = record {
      work = buf_register tag;
      link = true;
      skip_success = true;
      user_data = build_user_data tag register_nr 0 1;
    } in
    let unregister : Sqe = record {
      work = buf_unregister tag;
      link = false;
      skip_success = false;
      user_data = build_user_data tag unregister_nr 0 1;
    } in
    if auto_zc
    then (1, nop_sqe ∷ [])
    else if not zero_copy
    then (0, [])
    else (2, register ∷ nop_sqe ∷ unregister ∷ [])

abbrev pub user_datas : List Sqe → List ℕ
user_datas [] = []
user_datas (s ∷ r) = s.user_data ∷ user_datas r

-- The state of the target: the coroutine of each tag.
abbrev pub Jobs : Type 0
Jobs = ℕ → Job

-- The coroutine waits for `n` completions, or has its result if there is none to wait for.
unfoldable pub wait_for : Jobs → ℕ → ℕ → Jobs × List Call
wait_for s tag zero = (set_at s tag (reported (pos 0)), complete tag (pos 0) ∷ [])
wait_for s tag (suc n) = (set_at s tag (waiting (suc n) (pos 0)), [])

-- __null_handle_io_async from `again` to its first suspension.
unfoldable pub start_io : IoDesc → ℕ → Callback Jobs
start_io iod tag s q =
    let (n, sqes) = submit_io q.auto_zc q.zero_copy iod tag in
    let (s', calls) = wait_for s tag n in (s', queue_sqes (user_datas sqes) ∷ calls)

-- null_handle_io_async
unfoldable pub handle_io_async : (ℕ → IoDesc) → ℕ → Callback Jobs
handle_io_async iods tag s q =
    let iod = iods tag in
    if q.zero_copy then start_io iod tag s q else (s, complete tag (int_of_u32 (io_bytes iod)) ∷ [])

-- Where the coroutine is after a completion. Its loop is that of the loop target.
unfoldable pub go_on : IoDesc → ℕ → Job → Callback Jobs
go_on iod tag again s q = start_io iod tag s q
go_on iod tag (reported r) s q = (set_at s tag (reported r), complete tag r ∷ [])
go_on iod tag (waiting n r) s q = (set_at s tag (waiting n r), [])
go_on iod tag ended s q = (set_at s tag ended, [])
go_on iod tag undefined s q = (set_at s tag undefined, [])

-- The completion as the coroutine sees it.
abbrev pub to_loop : Cqe → Loop.Cqe
to_loop cqe = record { res = cqe.res; user_data = cqe.user_data }

-- null_tgt_io_done
unfoldable pub resume_job : IoDesc → ℕ → Job → Cqe → Callback Jobs
resume_job iod tag j cqe s q = go_on iod tag (resume j (to_loop cqe)) s q

unfoldable pub tgt_io_done : (ℕ → IoDesc) → Cqe → Callback Jobs
tgt_io_done iods cqe s q =
    let tag = user_data_to_tag cqe.user_data in resume_job (iods tag) tag (s tag) cqe s q

-- null_tgt_type, as the queue uses it.
abbrev pub null_tgt_type : (ℕ → IoDesc) → TgtOps Jobs
null_tgt_type iods = record {
  handle_io_async = handle_io_async iods;
  tgt_io_done = some (tgt_io_done iods);
  handle_event = none;
  handle_io_background = none;
  idle_fn = none;
  epoll_cb = λ fd events s q. (s, []);
}
