-- ===== src/Ublksrv/Types.antt =====
-- The data of include/ublksrv_priv.h: `struct ublk_io`, `struct _ublksrv_queue` and what goes
-- through its io_uring.
use s3blk.Base.{ℕ, ◌+◌, Bool, List, Option, if◌then◌else◌, ◌==◌, u32, ◌<<◌, bit_or}
use s3blk.Base.Int.{ℤ, pos, negsuc}

-- `struct ublk_io`, its `flags` by their names.
pub record UblkIo : Type 0 where
  pub buf_addr : ℕ
  pub need_fetch_rq : Bool
  pub need_commit_rq_comp : Bool
  pub io_free : Bool
  pub need_get_data : Bool
  pub result : ℤ

-- `struct ublksrv_io_cmd` in its sqe. `result` is none where the code does not write it, and
-- `auto_buf` is the index of the `ublk_auto_buf_reg`, where there is one.
pub record IoCmd : Type 0 where
  pub cmd_op : ℕ
  pub q_id : ℕ
  pub tag : ℕ
  pub result : Option ℤ
  pub addr : ℕ
  pub auto_buf : Option ℕ
  pub user_data : ℕ

-- `struct ublk_batch_elem`
pub record BatchElem : Type 0 where
  pub tag : ℕ
  pub buf_index : ℕ
  pub result : ℤ
  pub buf_addr : ℕ

-- `struct ublk_batch_io` in its sqe. `elems` is what the buffer it points to holds when it is
-- issued; a fetch has none, selects its buffer from a group and is multishot.
pub record BatchIo : Type 0 where
  pub cmd_op : ℕ
  pub q_id : ℕ
  pub flags : ℕ
  pub nr_elem : ℕ
  pub elem_bytes : ℕ
  pub len : ℕ
  pub elems : List BatchElem
  pub multishot : Bool
  pub user_data : ℕ

-- `struct io_uring_sqe`: a command to the driver, a poll of an event fd, once or multishot, or an
-- entry of the target.
pub data Sqe : Type 0 where
  io_cmd : IoCmd → Sqe
  batch_cmd : BatchIo → Sqe
  poll_add : ℕ → ℕ → Sqe
  poll_multishot : ℕ → ℕ → Sqe
  tgt_sqe : ℕ → Sqe

-- `struct io_uring_cqe`; `more` is IORING_CQE_F_MORE.
pub record Cqe : Type 0 where
  pub res : ℤ
  pub user_data : ℕ
  pub more : Bool

-- `struct io_uring`: all that was put on it, the latest last, and how many of them are not
-- submitted.
pub record Ring : Type 0 where
  pub sqes : List Sqe
  pub ready : ℕ

-- What the kernel decides: the size of the ring, how many entries a submit takes over, and which
-- callbacks, by fd and events, an epoll_wait reports.
pub record Kernel : Type 0 where
  pub sq_entries : ℕ
  pub takes : Ring → ℕ
  pub epoll_wait : Ring → List (ℕ × ℕ)

-- `struct batch_commit_buf`, its memory as a sequence of elements.
pub record CommitBuf : Type 0 where
  pub buf : ℕ → BatchElem
  pub done : ℕ
  pub count : ℕ

-- `struct batch_fetch_buf`, its memory as bytes.
pub record FetchBuf : Type 0 where
  pub fetch_buf : ℕ → ℕ
  pub fetch_buf_size : ℕ
  pub fetch_buf_off : ℕ

-- `struct ublksrv_queue_batch`. There is one fetch buffer, and two commit buffers.
pub record Batch : Type 0 where
  pub fetch_bufs : ℕ → FetchBuf
  pub commit_bufs : ℕ → CommitBuf
  pub commit_buf_elem_size : ℕ
  pub cur_commit_buf : ℕ
  pub prep_done : Bool
  pub cmd_flags : ℕ

-- `struct _ublksrv_queue`, the bits of `state` by their names. `efd` is none for -1, and
-- `efd_value` is what the event fd counts.
pub record Queue : Type 0 where
  pub q_id : ℕ
  pub q_depth : ℕ
  pub stopping : Bool
  pub idle : Bool
  pub ioctl_op : Bool
  pub user_copy : Bool
  pub zero_copy : Bool
  pub auto_zc : Bool
  pub poll : Bool
  pub batch_io : Bool
  pub cmd_inflight : ℕ
  pub tgt_io_inflight : ℕ
  pub efd : Option ℕ
  pub efd_value : ℕ
  pub epollfd : ℕ
  pub ring : Ring
  pub ios : ℕ → UblkIo
  pub batch : Batch

-- A write to one element of an array.
abbrev pub set_at : {A : Type 0} → (ℕ → A) → ℕ → A → ℕ → A
set_at f i a j = if j == i then a else f j

-- UBLK_IO_FETCH_REQ, UBLK_IO_COMMIT_AND_FETCH_REQ and UBLK_IO_NEED_GET_DATA.
abbrev pub fetch_req : ℕ
fetch_req = 0x20

abbrev pub commit_and_fetch_req : ℕ
commit_and_fetch_req = 0x21

abbrev pub need_get_data_req : ℕ
need_get_data_req = 0x22

-- The numbers of UBLK_U_IO_PREP_IO_CMDS, UBLK_U_IO_COMMIT_IO_CMDS and UBLK_U_IO_FETCH_IO_CMDS.
abbrev pub prep_nr : ℕ
prep_nr = 0x25

abbrev pub commit_nr : ℕ
commit_nr = 0x26

abbrev pub fetch_nr : ℕ
fetch_nr = 0x27

-- `_IOWR('u', nr, T)` for a `T` of 16 bytes, which both command structs are.
abbrev pub iowr : ℕ → ℕ
iowr nr = 0xc0107500 + nr

-- UBLK_BATCH_F_HAS_BUF_ADDR
abbrev pub has_buf_addr : ℕ
has_buf_addr = 2

-- UBLK_IO_OP_EVENTFD and UBLK_IO_OP_EPOLLFD.
abbrev pub op_eventfd : ℕ
op_eventfd = 0xe0

abbrev pub op_epollfd : ℕ
op_epollfd = 0xe1

-- The tests on UBLK_IO_RES_OK and UBLK_IO_RES_NEED_GET_DATA.
abbrev pub is_res : ℕ → ℤ → Bool
is_res n (pos m) = m == n
is_res n (negsuc m) = Bool.false

-- build_internal_data
unfoldable pub build_internal_data : ℕ → ℕ
build_internal_data op = bit_or (u32 (op << 16)) (3 << 62)
