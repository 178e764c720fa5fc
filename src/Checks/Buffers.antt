-- ===== src/Checks/Buffers.antt =====
-- Runs of the buffer pool, the IO address space, and the data pointers.
use s3blk.Base.{
  ℕ, ◌+◌, ◌*◌, ◌^◌, ◌%◌, ◌<◌, ◌≤◌, ◌≡◌, ◌≢◌, ◌⊎◌, arith, refl, true, some, [], ◌∷◌, length,
}
use s3blk.Base.Int.{pos}
use s3blk.Nvme.Types.{TgtData, unmap_call, map_call, page_size, admin_q_size}
use s3blk.Nvme.Pool.{
  layout, total_size, pool_get_prp, pool_get_io_buf, pool_get_identify_buf, sq_bytes, cq_bytes,
  pair_bytes,
}
use s3blk.Nvme.Pool.Layout.{IsChecked, no_overflow, pool_regions}
use s3blk.Nvme.Dma.{map_dma, unmap_dma, no_mapping, virt_to_phys}
use s3blk.Nvme.Dma.Iova.{IsIovaSafe, map_dma-IsIovaSafe, unmap_dma-map_dma}
use s3blk.Nvme.Setup.{queue_init}
use s3blk.Nvme.Setup.Fits.{queue_init_lem}
use s3blk.Nvme.Ring.Doorbell.{IsRing}
use s3blk.Nvme.Prp.{setup_prps}
use s3blk.Nvme.Prp.Covers.{chunks, Covers, setup_prps-Covers}
use s3blk.Nvme.Sgl.{setup_sgl, hp_boundary}
use s3blk.Nvme.Sgl.Segments.{segments, block, Within, setup_sgl-segments}
use s3blk.Checks.{small_target, small_queue, all_mapped}

small-IsChecked : IsChecked small_target
small-IsChecked = omega arith

no_overflow_example :
    (1 * 3 * page_size < 2 ^ 31)
    × ((layout small_target).queue_region_off ≡ pair_bytes admin_q_size + 1 * pair_bytes (3 + 1))
    × ((layout small_target).io_buf_region_off
        ≡ (layout small_target).prp_region_off + 1 * 3 * page_size)
    × ((layout small_target).identify_buf_off
        ≡ (layout small_target).io_buf_region_off + 1 * 3 * 0x80000)
    × ((layout small_target).identify_buf_off + page_size ≤ total_size small_target)
no_overflow_example = no_overflow small_target small-IsChecked

abbrev last_tag : ℕ
last_tag = 2

pool_regions_example :
    let l = layout small_target in
    (l.dma_pool.base + l.queue_region_off ≤ pool_get_prp l 0 last_tag)
    × (pool_get_prp l 0 last_tag + page_size ≤ l.dma_pool.base + l.io_buf_region_off)
    × (l.dma_pool.base + l.io_buf_region_off ≤ pool_get_io_buf l 0 last_tag)
    × (pool_get_io_buf l 0 last_tag + 0x80000 ≤ pool_get_identify_buf l)
    × (pool_get_identify_buf l + page_size ≤ l.dma_pool.base + total_size small_target)
pool_regions_example =
    pool_regions small_target 0 last_tag small-IsChecked (omega arith) (omega arith)

small-IsIovaSafe : IsIovaSafe small_target
small-IsIovaSafe = record { positive = omega arith; below = tt; disjoint = tt }

map_dma-IsIovaSafe_example : IsIovaSafe (map_dma all_mapped small_target 0x7000 0x2000 no_mapping).2
map_dma-IsIovaSafe_example =
    map_dma-IsIovaSafe all_mapped small_target 0x7000 0x2000 no_mapping (omega arith) (omega arith)
      small-IsIovaSafe

small_mapped : (map_dma all_mapped small_target 0x7000 0x2000 no_mapping).0 ≢ 0
unfolding map_dma
small_mapped = ground arith

unmap_dma-map_dma_example :
    let (iova, m', d') = map_dma all_mapped small_target 0x7000 0x2000 no_mapping in
    let (m'', d'') = unmap_dma d' m' in
    (m'' ≡ no_mapping) × (d''.ioas ≡ unmap_call iova 0x2000 ∷ map_call 0x7000 iova 0x2000 ∷ [])
unmap_dma-map_dma_example =
    unmap_dma-map_dma all_mapped small_target 0x7000 0x2000 no_mapping refl (omega arith) refl
      small_mapped

queue_init_lem_example :
    let (ret, q', d') = queue_init all_mapped small_target small_queue 1 4 in
    (d'.queue_alloc_off ≡ 0 + sq_bytes 4 + cq_bytes 4)
    × (d'.queue_region_off ≡ 0x4000)
    × (ret ≡ pos 0
        → IsRing q'
          × (length q'.sq_slots ≡ q'.qsize)
          × (q'.sq_buffer ≡ 2 ^ 40 + 0)
          × (q'.cq_buffer ≡ q'.sq_buffer + sq_bytes 4)
          × (q'.sq_iova ≢ 0)
          × (q'.cq_iova ≢ 0))
queue_init_lem_example =
    queue_init_lem all_mapped small_target small_queue 1 4 (omega arith) (omega arith) (omega arith)
      refl (omega arith)

setup_prps-Covers_example :
    let r = setup_prps small_target 0x9000 0x7200 0x10200 0x5000 in
    (r.ret ≡ pos 0) × Covers 0x10200 0x5000 (chunks r.dptr 0x9000 r.entries 0x5000)
setup_prps-Covers_example =
    setup_prps-Covers small_target 0x9000 0x7200 0x10200 0x5000 refl (omega arith) (omega arith)
      (omega arith)

-- Without an IOMMU, with "hugepages" of two pages, and the pagemap of a pool of four pages.
abbrev raw_target : TgtData
raw_target = record small_target {
  use_noiommu = true;
  hugepage_size = 0x2000;
  dma_pool = record {
    base = 2 ^ 40;
    size = 0x4000;
    pagemap_cache = some ((2 ^ 63 + 4) ∷ (2 ^ 63 + 5) ∷ (2 ^ 63 + 8) ∷ (2 ^ 63 + 9) ∷ []);
  };
}

crossing_ok : (setup_sgl raw_target 0x9000 (2 ^ 40 + 0x1000) 0x5000 0x2000).ret ≡ pos 0
unfolding setup_sgl virt_to_phys
crossing_ok = refl

setup_sgl-segments_example :
    let r = setup_sgl raw_target 0x9000 (2 ^ 40 + 0x1000) 0x5000 0x2000 in
    let b = hp_boundary raw_target (2 ^ 40 + 0x1000) in
    ((segments 0x9000 r ≡ block 0x5000 0x2000 ∷ []) × Within 0x2000 (2 ^ 40 + 0x1000) 0x2000)
    ⊎ ((n : ℕ) × (m : ℕ) × (segments 0x9000 r
          ≡ block 0x5000 n ∷ block (virt_to_phys raw_target.dma_pool b) m ∷ [])
        × (n + m ≡ 0x2000)
        × ((2 ^ 40 + 0x1000) + n ≡ b)
        × (b % 0x2000 ≡ 0)
        × Within 0x2000 (2 ^ 40 + 0x1000) n
        × Within 0x2000 b m)
setup_sgl-segments_example =
    setup_sgl-segments raw_target 0x9000 (2 ^ 40 + 0x1000) 0x5000 0x2000 (omega arith) (omega arith)
      (omega arith) (omega arith) (omega arith) refl crossing_ok
