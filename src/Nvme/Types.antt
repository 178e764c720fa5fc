-- ===== src/Nvme/Types.antt =====
-- The structures of targets/nvme/nvme.h and of targets/nvme/ublk.nvme_vfio.cpp. All values are
-- those of a little-endian host, where htole16, htole32 and htole64 change nothing.
use s3blk.Base.{ℕ, Bool, List, Option}

-- `struct nvme_sgl_desc`; its reserved bytes are always written as zero.
pub record SglDesc : Type 0 where
  pub addr : ℕ
  pub len : ℕ
  pub kind : ℕ

-- The 16 bytes at `prp1` of a command: two PRP entries, or an SGL descriptor laid over them.
pub data Dptr : Type 0 where
  prps : ℕ → ℕ → Dptr
  sgl : SglDesc → Dptr

-- `struct nvme_rw_command`, the fields that the target sets; the others are zero.
pub record RwCommand : Type 0 where
  pub opcode : ℕ
  pub flags : ℕ
  pub cid : ℕ
  pub nsid : ℕ
  pub dptr : Dptr
  pub slba : ℕ
  pub nlb : ℕ
  pub control : ℕ

-- `struct nvme_common_command`, likewise.
pub record CommonCommand : Type 0 where
  pub opcode : ℕ
  pub cid : ℕ
  pub nsid : ℕ
  pub prp1 : ℕ
  pub cdw10 : ℕ
  pub cdw11 : ℕ

-- `struct nvme_create_cq` (prp1, cqid, qsize, cq_flags), `struct nvme_create_sq` (prp1, sqid,
-- qsize, sq_flags, cqid), `struct nvme_delete_queue` (opcode, qid) and `struct nvme_identify`
-- (nsid, prp1, cns), likewise.
pub data AdminCommand : Type 0 where
  create_cq : ℕ → ℕ → ℕ → ℕ → AdminCommand
  create_sq : ℕ → ℕ → ℕ → ℕ → ℕ → AdminCommand
  delete_queue : ℕ → ℕ → AdminCommand
  identify : ℕ → ℕ → ℕ → AdminCommand

-- One 64-byte entry of a submission queue.
pub data Command : Type 0 where
  rw_command : RwCommand → Command
  common_command : CommonCommand → Command
  admin_command : AdminCommand → Command
  zeroed : Command

-- `struct nvme_completion`, the fields that the target reads. Bit 0 of `status` is the phase.
pub record Completion : Type 0 where
  pub command_id : ℕ
  pub status : ℕ

-- `struct nvme_dma_mapping`.
pub record DmaMapping : Type 0 where
  pub vaddr : ℕ
  pub iova : ℕ
  pub size : ℕ

-- `struct nvme_queue`. `sq_slots` and `cq_slots` are the memory at `sq_buffer` and `cq_buffer`
-- (the second is written by the controller); `sq_rung` and `cq_rung` are what the doorbell
-- registers at `sq_doorbell` and `cq_doorbell` were last set to.
pub record Queue : Type 0 where
  pub qid : ℕ
  pub qsize : ℕ
  pub sq_buffer : ℕ
  pub cq_buffer : ℕ
  pub sq_slots : List Command
  pub cq_slots : ℕ → Completion
  pub sq_iova : ℕ
  pub cq_iova : ℕ
  pub sq_mapping : DmaMapping
  pub cq_mapping : DmaMapping
  pub sq_tail : ℕ
  pub last_sq_tail : ℕ
  pub cq_head : ℕ
  pub cq_phase : ℕ
  pub sq_doorbell : ℕ
  pub cq_doorbell : ℕ
  pub sq_rung : ℕ
  pub cq_rung : ℕ

-- `struct dma_buf_pool` of targets/include/dma_buf.h; no cache is the null pointer.
pub record DmaBufPool : Type 0 where
  pub base : ℕ
  pub size : ℕ
  pub pagemap_cache : Option (List ℕ)

-- An ioctl on the IO address space of the device: IOMMU_IOAS_MAP of an address, an iova and a
-- length, and IOMMU_IOAS_UNMAP of an iova and a length.
pub data IoasCall : Type 0 where
  map_call : ℕ → ℕ → ℕ → IoasCall
  unmap_call : ℕ → ℕ → IoasCall

-- `struct nvme_vfio_tgt_data`, without the file descriptors, the BAR0 mapping and the queues.
-- `ioas` holds the ioctls made so far, the latest first; a map that failed is not in it.
pub record TgtData : Type 0 where
  pub nsid : ℕ
  pub lba_shift : ℕ
  pub dev_size : ℕ
  pub user_copy : Bool
  pub use_noiommu : Bool
  pub force_noiommu : Bool
  pub nr_io_queues : ℕ
  pub queue_depth : ℕ
  pub max_io_buf_bytes : ℕ
  pub db_stride : ℕ
  pub vwc : ℕ
  pub mdts : ℕ
  pub sgls : ℕ
  pub next_iova : ℕ
  pub dma_pool : DmaBufPool
  pub queue_region_off : ℕ
  pub prp_region_off : ℕ
  pub io_buf_region_off : ℕ
  pub identify_buf_off : ℕ
  pub queue_alloc_off : ℕ
  pub extra_hugepages : ℕ
  pub hugepage_size : ℕ
  pub ioas : List IoasCall

abbrev pub page_size : ℕ
page_size = 4096

abbrev pub admin_q_size : ℕ
admin_q_size = 64
