-- ===== src/Checks.antt =====
-- Small concrete states on which the library's theorems and definitions are evaluated.
pub mod Rings
pub mod Admin
pub mod Forward
pub mod Files
pub mod Polls
pub mod Buffers
pub mod Requests
pub mod Library
pub mod Batches
pub mod Devices
pub mod Workers
pub mod Replies
pub mod Controls
pub mod Objects
pub mod Adding
use s3blk.Base.{ℕ, zero, suc, Bool, true, false, List, [], replicate, some, none, ◌^◌}
use s3blk.Base.Int.{ℤ, pos}
use s3blk.Ublk.{IoDesc}
use s3blk.Nvme.Types.{Queue, DmaMapping, TgtData, DmaBufPool, Completion, IoasCall, zeroed}
use s3blk.Nvme.Dma.{no_mapping}
use s3blk.Nvme.Poll.Phase.{phase}
use s3blk.Nvme.State.{Env, State, IoPriv, untouched}

-- A queue of four entries, as nvme_queue_init leaves it.
abbrev pub small_queue : Queue
small_queue = record {
  qid = 1;
  qsize = 4;
  sq_buffer = 0x10000;
  cq_buffer = 0x11000;
  sq_slots = replicate 4 zeroed;
  cq_slots = λ slot. record { command_id = 0; status = 0 };
  sq_iova = 0x1000;
  cq_iova = 0x2000;
  sq_mapping = no_mapping;
  cq_mapping = no_mapping;
  sq_tail = 0;
  last_sq_tail = 0;
  cq_head = 0;
  cq_phase = 1;
  sq_doorbell = 0x1008;
  cq_doorbell = 0x100c;
  sq_rung = 0;
  cq_rung = 0;
}

-- One io queue with three tags, 2 MiB hugepages, and an IOMMU.
abbrev pub small_target : TgtData
small_target = record {
  nsid = 1;
  lba_shift = 12;
  dev_size = 2 ^ 30;
  user_copy = true;
  use_noiommu = false;
  force_noiommu = false;
  nr_io_queues = 1;
  queue_depth = 3;
  max_io_buf_bytes = 0x80000;
  db_stride = 4;
  vwc = 1;
  mdts = 0;
  sgls = 0;
  next_iova = 0x10000;
  dma_pool = record { base = 2 ^ 40; size = 0x400000; pagemap_cache = none };
  queue_region_off = 0x4000;
  prp_region_off = 0x4000;
  io_buf_region_off = 0x7000;
  identify_buf_off = 0x187000;
  queue_alloc_off = 0;
  extra_hugepages = 0;
  hugepage_size = 0x200000;
  ioas = [];
}

abbrev pub all_mapped : List IoasCall → IoasCall → Bool
all_mapped calls call = true

-- Tag 0 writes 8 sectors from sector 16 with bit 21 of the flags set, and every other tag asks
-- for an operation that the target does not know.
abbrev pub write_request : IoDesc
write_request = record { op_flags = 0x200001; nr_sectors = 8; start_sector = 16; addr = 0 }

abbrev pub odd_request : IoDesc
odd_request = record { op_flags = 77; nr_sectors = 8; start_sector = 16; addr = 0 }

abbrev pub requests : ℕ → IoDesc
requests zero = write_request
requests (suc t) = odd_request

-- Every copy moves all its bytes, and every mapping succeeds.
abbrev pub small_env : Env
small_env = record {
  map_ok = all_mapped;
  pread = λ buf len at. pos len;
  pwrite = λ buf len at. pos len;
  iods = requests;
}

abbrev pub small_state : State
small_state = record {
  tgt = small_target;
  nvmeq = small_queue;
  priv = λ tag. record { data_mapping = no_mapping; prp_mapping = no_mapping; page = untouched };
  inflight = 1;
  completed = [];
}

-- The controller completes tag 0 again and again, without an error.
abbrev pub good_posts : ℕ → Completion
good_posts i = record { command_id = 0; status = phase 4 i }
