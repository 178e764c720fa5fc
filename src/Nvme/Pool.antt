-- ===== src/Nvme/Pool.antt =====
-- The hugepage pool of targets/nvme/ublk.nvme_vfio.cpp and its regions: the queue buffers, then a
-- page for the PRP list of each tag, then the io buffer of each tag, then a page for identify.
pub mod Layout
use s3blk.Base.{
  ℕ, ◌+◌, ◌-◌, ◌*◌, ◌/◌, ◌%◌, ◌^◌, Bool, ltb, leb, ◌==◌, if◌then◌else◌, u64, clear_low, Option,
  none, some,
}
use s3blk.Base.Int.{ℤ, pos, minus, is_neg, enomem}
use s3blk.Nvme.Types.{DmaBufPool, TgtData, page_size, admin_q_size}

-- `(x + PAGE_SIZE - 1) & ~(PAGE_SIZE - 1)` in a `size_t`.
abbrev pub page_align : ℕ → ℕ
page_align x = clear_low (u64 (x + page_size - 1)) 12

-- What the system answers while the pool is set up: the free hugepages before and after the
-- adjustment, the result of writing nr_hugepages, and the mmap of dma_buf_pool_init (an address,
-- or a negative errno).
pub record HugepageEnv : Type 0 where
  pub free_before : ℕ
  pub adjusted : ℤ
  pub free_after : ℕ
  pub mmap : ℕ → ℤ

-- nvme_ensure_hugepages: its result, and `*extra_allocated`.
unfoldable pub ensure_hugepages : HugepageEnv → ℕ → ℕ → ℤ × ℕ
ensure_hugepages env needed_bytes hugepage_size =
    let needed_pages = u64 (needed_bytes + hugepage_size - 1) / hugepage_size in
    if leb needed_pages env.free_before
    then (pos 0, 0)
    else if is_neg env.adjusted
    then (env.adjusted, 0)
    else if ltb env.free_after needed_pages
    then (enomem, 0)
    else (pos 0, needed_pages - env.free_before)

-- dma_buf_pool_init
unfoldable pub dma_buf_pool_init : HugepageEnv → DmaBufPool → ℕ → ℤ × DmaBufPool
dma_buf_pool_init env pool size = elim (env.mmap size) [
  | pos base ↦ (pos 0, record { base = base; size = size; pagemap_cache = none })
  | ℤ.negsuc e ↦ (ℤ.negsuc e, record pool { base = 0 })
]

-- The bytes of the submission and completion rings of one queue pair of `depth` slots.
abbrev pub sq_bytes : ℕ → ℕ
sq_bytes depth = page_align (depth * 64)

abbrev pub cq_bytes : ℕ → ℕ
cq_bytes depth = page_align (depth * 16)

abbrev pub pair_bytes : ℕ → ℕ
pair_bytes depth = sq_bytes depth + cq_bytes depth

-- The offsets that nvme_dmabuf_pool_init computes, and `total_size` before it is rounded up. The
-- products of `int`s are stated as they are: `Layout.no_overflow` bounds them.
abbrev pub layout : TgtData → TgtData
layout d =
    let queue_region =
      u64 (pair_bytes admin_q_size + d.nr_io_queues * pair_bytes (d.queue_depth + 1)) in
    let prp_region = d.nr_io_queues * d.queue_depth * page_size in
    let io_buf_region = u64 (d.nr_io_queues * d.queue_depth * d.max_io_buf_bytes) in
    record d {
      queue_region_off = queue_region;
      prp_region_off = queue_region;
      io_buf_region_off = u64 (queue_region + prp_region);
      identify_buf_off = u64 (queue_region + prp_region + io_buf_region);
    }

-- `(total_size + hps - 1) & ~(hps - 1)` for a power of two `hps`.
abbrev pub round_up : ℕ → ℕ → ℕ
round_up x hps = u64 (x + hps - 1) / hps * hps

abbrev pub total_size : TgtData → ℕ
total_size d = round_up (u64 ((layout d).identify_buf_off + page_size)) d.hugepage_size

-- nvme_dmabuf_pool_init. On failure the offsets stay set, and nvme_adjust_hugepages gives the
-- extra pages back.
unfoldable pub dmabuf_pool_init : HugepageEnv → TgtData → ℤ × TgtData
unfolding ensure_hugepages dma_buf_pool_init
dmabuf_pool_init env d =
    let (ret, extra) = ensure_hugepages env (total_size d) d.hugepage_size in
    let d' = record (layout d) { extra_hugepages = extra } in
    if is_neg ret
    then (ret, d')
    else (let (ret', pool) = dma_buf_pool_init env d.dma_pool (total_size d) in
        if is_neg ret'
        then (ret', record d' { dma_pool = pool })
        else (pos 0, record d' { dma_pool = pool; queue_alloc_off = 0 }))

-- nvme_pool_alloc_queue_buf; `none` is the null pointer.
unfoldable pub pool_alloc_queue_buf : TgtData → ℕ → Option ℕ × TgtData
pool_alloc_queue_buf d size =
    let aligned_size = page_align size in
    if ltb d.queue_region_off (u64 (d.queue_alloc_off + aligned_size)) then (none, d) else (
      some (d.dma_pool.base + d.queue_alloc_off),
      record d { queue_alloc_off = u64 (d.queue_alloc_off + aligned_size) },
    )

-- nvme_pool_get_prp
unfoldable pub pool_get_prp : TgtData → ℕ → ℕ → ℕ
pool_get_prp d qid tag =
    d.dma_pool.base + (d.prp_region_off + (qid * d.queue_depth + tag) * page_size)

-- nvme_pool_get_io_buf
unfoldable pub pool_get_io_buf : TgtData → ℕ → ℕ → ℕ
pool_get_io_buf d qid tag =
    d.dma_pool.base + (d.io_buf_region_off + (qid * d.queue_depth + tag) * d.max_io_buf_bytes)

-- nvme_pool_get_identify_buf
unfoldable pub pool_get_identify_buf : TgtData → ℕ
pool_get_identify_buf d = d.dma_pool.base + d.identify_buf_off
