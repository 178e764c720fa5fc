-- ===== src/Ublksrv/Init.antt =====
-- Setting a queue up: ublksrv_calculate_depths, ublksrv_setup_eventfd and
-- ublksrv_queue_init_flags of lib/ublksrv.c.
use s3blk.Base.{
  ℕ, zero, suc, ◌+◌, ◌*◌, Bool, true, false, not, ◌&&◌, ◌||◌, ltb, leb, ◌==◌, if◌then◌else◌, [],
  Option, none, some,
}
use s3blk.Base.Int.{ℤ, pos, negsuc, einval, is_neg}
use s3blk.Ublksrv.Types.{UblkIo, Batch, Kernel, Queue}
use s3blk.Ublksrv.Batch.{batch_alloc_bufs}
use s3blk.Ublksrv.Process.{submit_fetch_commands}

-- What the device and its target ask for: of `flags` and `ublksrv_flags` the ones that are read
-- here, of `struct ublksrv_tgt_info` the numbers, and whether the target has a handle_event.
pub record DevInfo : Type 0 where
  pub queue_depth : ℕ
  pub cmd_ioctl_encode : Bool
  pub user_copy : Bool
  pub support_zero_copy : Bool
  pub auto_buf_reg : Bool
  pub batch_io : Bool
  pub need_poll : Bool
  pub need_eventfd : Bool
  pub tgt_ring_depth : ℕ
  pub extra_ios : ℕ
  pub cq_depth : ℕ
  pub has_handle_event : Bool

-- What the system and the target answer: to the mmap of the io descriptors, to the allocation of
-- the buffer of each io, to the set-up of the ring with its files and buffers, to the allocation
-- of the batch buffers, to the target's init_queue, and to eventfd. `page_sz` is getpagesize, and
-- `batch` is what the memory of the batch state holds.
pub record System : Type 0 where
  pub map_ok : Bool
  pub alloc_buf : ℕ → Option ℕ
  pub ring_ok : Bool
  pub batch_ok : Bool
  pub init_queue_ok : Bool
  pub eventfd : ℤ
  pub page_sz : ℕ
  pub batch : Batch

-- ublksrv_calculate_depths: the depths of the ring and of its completions, and the number of ios.
unfoldable pub calculate_depths : DevInfo → ℕ × ℕ × ℕ
calculate_depths dev =
    let tgt_depth = dev.tgt_ring_depth + (if dev.need_eventfd then 1 else 0) in
    let depth = if ltb tgt_depth dev.queue_depth then dev.queue_depth else tgt_depth in
    (depth, if dev.cq_depth == 0 then depth else dev.cq_depth, dev.queue_depth + dev.extra_ios)

-- ublksrv_setup_eventfd: its result, and `efd`.
unfoldable pub setup_eventfd : DevInfo → ℤ → ℤ × Option ℕ
setup_eventfd dev (pos fd) =
    if not dev.need_eventfd
    then (pos 0, none)
    else if dev.tgt_ring_depth == 0 || not dev.has_handle_event
    then (einval, none)
    else (pos 0, some fd)
setup_eventfd dev (negsuc e) =
    if not dev.need_eventfd
    then (pos 0, none)
    else if dev.tgt_ring_depth == 0 || not dev.has_handle_event
    then (einval, none)
    else (negsuc e, none)

-- The buffer of io `i`: 0 where none is allocated, and none where the allocation fails.
unfoldable pub io_buf : DevInfo → System → ℕ → Option ℕ
io_buf dev sys i =
    if leb dev.queue_depth i || dev.support_zero_copy then some 0 else sys.alloc_buf i

-- The loop gets a buffer for each of the first `n` ios.
unfoldable pub bufs_ok : DevInfo → System → ℕ → Bool
bufs_ok dev sys zero = true
bufs_ok dev sys (suc n) =
    bufs_ok dev sys n && elim (io_buf dev sys n) [ none ↦ false | some a ↦ true ]

abbrev pub or_null : Option ℕ → ℕ
or_null none = 0
or_null (some a) = a

-- An io before its command is issued.
unfoldable pub fresh_io : DevInfo → System → ℕ → UblkIo
fresh_io dev sys i = record {
  buf_addr = or_null (io_buf dev sys i);
  need_fetch_rq = true;
  need_commit_rq_comp = false;
  io_free = true;
  need_get_data = false;
  result = pos 0;
}

-- The queue before its commands are issued.
unfoldable pub fresh_queue : DevInfo → System → ℕ → Option ℕ → Queue
fresh_queue dev sys q_id efd = record {
  q_id = q_id;
  q_depth = dev.queue_depth;
  stopping = false;
  idle = false;
  ioctl_op = dev.cmd_ioctl_encode;
  user_copy = dev.user_copy;
  zero_copy = dev.support_zero_copy;
  auto_zc = dev.auto_buf_reg;
  poll = dev.need_poll;
  batch_io = dev.batch_io;
  cmd_inflight = 0;
  tgt_io_inflight = 0;
  efd = efd;
  efd_value = 0;
  epollfd = 0;
  ring = record { sqes = []; ready = 0 };
  ios = fresh_io dev sys;
  batch = sys.batch;
}

-- Nothing on the way through ublksrv_queue_init_flags fails.
unfoldable pub all_ok : DevInfo → System → Bool
all_ok dev sys =
    let (ring_depth, cq_depth, nr_ios) = calculate_depths dev in
    let (ret, efd) = setup_eventfd dev sys.eventfd in
    leb nr_ios (dev.queue_depth * 3)
    && sys.map_ok
    && bufs_ok dev sys nr_ios
    && sys.ring_ok
    && (not dev.batch_io || sys.batch_ok)
    && sys.init_queue_ok
    && not (is_neg ret)

-- The queue whose commands ublksrv_queue_init_flags issues.
unfoldable pub queue_before_start : DevInfo → System → ℕ → Queue
queue_before_start dev sys q_id =
    let q = fresh_queue dev sys q_id (setup_eventfd dev sys.eventfd).1 in
    if dev.batch_io then batch_alloc_bufs sys.page_sz q else q

-- ublksrv_queue_init_flags, for a target whose init_queue issues nothing. None stands for NULL.
unfoldable pub queue_init_flags : Kernel → DevInfo → System → ℕ → Option Queue
queue_init_flags k dev sys q_id =
    let started = submit_fetch_commands k (queue_before_start dev sys q_id) in
    if all_ok dev sys then some started else none
