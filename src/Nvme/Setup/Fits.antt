-- ===== src/Nvme/Setup/Fits.antt =====
-- What a queue pair takes from the queue region, and in which state it starts.
use s3blk.Base.{
  ℕ, ◌+◌, ◌%◌, ◌^◌, ◌<◌, ◌≤◌, ◌≡◌, ◌≢◌, arith, Bool, List, length, length-replicate, replicate,
  some, refl, Bool-cases, ◌==◌, ◌||◌, inl, inr, ◌∙◌,
}
use s3blk.Base.Int.{pos}
use s3blk.Nvme.Types.{TgtData, Queue, IoasCall, zeroed, DmaMapping}
use s3blk.Nvme.Pool.{sq_bytes, cq_bytes, pool_alloc_queue_buf}
use s3blk.Nvme.Dma.{map_dma, unmap_dma}
use s3blk.Nvme.Setup.{queue_start, queue_init, zero_completion, reset_queue}
use s3blk.Nvme.Ring.Doorbell.{IsRing}

-- Nothing but the log of ioctls and the iova counter changes.
abbrev pub SameRegions : TgtData → TgtData → Type 0
SameRegions d d' =
    (d'.queue_alloc_off ≡ d.queue_alloc_off)
    × (d'.queue_region_off ≡ d.queue_region_off)
    × (d'.dma_pool ≡ d.dma_pool)
    × (d'.nr_io_queues ≡ d.nr_io_queues)
    × (d'.queue_depth ≡ d.queue_depth)

module _ (map_ok : List IoasCall → IoasCall → Bool) where
  map_dma_regions :
      (d : TgtData) (vaddr size : ℕ) (m : DmaMapping)
      → SameRegions d (map_dma map_ok d vaddr size m).2
  unfolding map_dma
  map_dma_regions d vaddr size m = ground arith

unmap_dma_regions : (d : TgtData) (m : DmaMapping) → SameRegions d (unmap_dma d m).1
unfolding unmap_dma
unmap_dma_regions d m = ground arith

SameRegions-trans : (d e f : TgtData) → SameRegions d e → SameRegions e f → SameRegions d f
SameRegions-trans d e f h k = (k.0 ∙ h.0, k.1 ∙ h.1, k.2 ∙ h.2, k.3 ∙ h.3, k.4 ∙ h.4)

module _ (map_ok : List IoasCall → IoasCall → Bool) (d : TgtData) (q : Queue) (qid depth : ℕ) where
  abbrev sq_map : ℕ × DmaMapping × TgtData
  sq_map = map_dma map_ok d q.sq_buffer (sq_bytes depth) q.sq_mapping

  abbrev cq_map : ℕ × DmaMapping × TgtData
  cq_map = map_dma map_ok sq_map.2 q.cq_buffer (cq_bytes depth) q.cq_mapping

  abbrev sq_unmap : TgtData
  sq_unmap = (unmap_dma cq_map.2 sq_map.1).1

  abbrev cq_unmap : TgtData
  cq_unmap = (unmap_dma sq_unmap cq_map.1).1

  pub queue_start_regions : SameRegions d (queue_start map_ok d q qid depth).2
  unfolding queue_start
  queue_start_regions = elim (Bool-cases (sq_map.0 == 0 || cq_map.0 == 0)) [
    | inl bad ↦
        rw (bad, queue_start)
          (SameRegions-trans d cq_map.2 cq_unmap mapped (
            SameRegions-trans cq_map.2 sq_unmap cq_unmap (unmap_dma_regions cq_map.2 sq_map.1)
              (unmap_dma_regions sq_unmap cq_map.1)))
    | inr good ↦ rw (good, queue_start) mapped
  ]
    where
      mapped : SameRegions d cq_map.2
      mapped =
          SameRegions-trans d sq_map.2 cq_map.2 (map_dma_regions map_ok d _ _ _)
            (map_dma_regions map_ok _ _ _ _)

  -- A queue pair that was started has both rings mapped, zeroed memory as it was given, and its
  -- positions at the start; `sq_rung` was 0 since the structure was allocated.
  pub queue_start_ok :
      (queue_start map_ok d q qid depth).0 ≡ pos 0
      → let p = (queue_start map_ok d q qid depth).1 in
        (p
          ≡ reset_queue
              (record q {
                sq_iova = sq_map.0;
                cq_iova = cq_map.0;
                sq_mapping = sq_map.1;
                cq_mapping = cq_map.1;
              })
              qid
              depth
              d.db_stride)
        × (sq_map.0 ≢ 0)
        × (cq_map.0 ≢ 0)
  unfolding queue_start
  queue_start_ok e = elim (Bool-cases (sq_map.0 == 0 || cq_map.0 == 0)) [
    | inl bad ↦ cc (rw (bad, queue_start) at e)
    | inr good ↦ rw (good, queue_start) (refl, ground arith, ground arith)
  ]

-- While the region has room, the next `n` bytes are handed out.
pool_alloc_some :
    (d : TgtData) (n : ℕ)
    → n ≤ 2 ^ 20
    → n % 4096 ≡ 0
    → d.queue_alloc_off + n ≤ d.queue_region_off
    → d.queue_region_off < 2 ^ 63
    → pool_alloc_queue_buf d n ≡ (
      some (d.dma_pool.base + d.queue_alloc_off),
      record d { queue_alloc_off = d.queue_alloc_off + n },
    )
unfolding pool_alloc_queue_buf
pool_alloc_some d n hn ha hr hs = ground arith

ring_bytes :
    (depth : ℕ)
    → depth ≤ 4097
    → (sq_bytes depth ≤ 2 ^ 20)
      × (sq_bytes depth % 4096 ≡ 0)
      × (cq_bytes depth ≤ 2 ^ 20)
      × (cq_bytes depth % 4096 ≡ 0)
ring_bytes depth h = omega arith

-- The queue structure and the target's data when both rings have their memory.
abbrev pub allocated_queue : TgtData → Queue → ℕ → Queue
allocated_queue d q depth = record q {
  sq_buffer = d.dma_pool.base + d.queue_alloc_off;
  cq_buffer = d.dma_pool.base + (d.queue_alloc_off + sq_bytes depth);
  sq_slots = replicate depth zeroed;
  cq_slots = λ slot. zero_completion;
}

abbrev pub allocated_data : TgtData → ℕ → TgtData
allocated_data d depth = record d {
  queue_alloc_off = d.queue_alloc_off + sq_bytes depth + cq_bytes depth;
}

module _ (map_ok : List IoasCall → IoasCall → Bool) (d : TgtData) (q : Queue) (qid depth : ℕ)
    (small : depth ≤ 4097)
    (room : d.queue_alloc_off + sq_bytes depth + cq_bytes depth ≤ d.queue_region_off)
    (region : d.queue_region_off < 2 ^ 63) where
  pub queue_init_start :
      queue_init map_ok d q qid depth
      ≡ queue_start map_ok (allocated_data d depth) (allocated_queue d q depth) qid depth
  unfolding queue_init
  queue_init_start =
      let b = ring_bytes depth small in
      let first = pool_alloc_some d (sq_bytes depth) b.0 b.1 (omega arith) region in
      let d1 = record d { queue_alloc_off = d.queue_alloc_off + sq_bytes depth } in
      let second = pool_alloc_some d1 (cq_bytes depth) b.2 b.3 room region in
      rw (first, queue_init) (rw first (rw (second, queue_init) (rw (first, second) refl)))

  -- For 2 to 4097 entries, with room in a queue region below 2^63 and a submission doorbell that
  -- was not rung, nvme_queue_init takes exactly the bytes of both rings, and
  -- whatever it returns the region's bounds stay; if it succeeds the two rings stand at the first
  -- free bytes, one behind the other, both are mapped, and the ring is ready for commands.
  pub queue_init_lem :
      q.sq_rung ≡ 0
      → 2 ≤ depth
      → let (ret, q', d') = queue_init map_ok d q qid depth in
        (d'.queue_alloc_off ≡ d.queue_alloc_off + sq_bytes depth + cq_bytes depth)
        × (d'.queue_region_off ≡ d.queue_region_off)
        × (ret ≡ pos 0
            → IsRing q'
              × (length q'.sq_slots ≡ q'.qsize)
              × (q'.sq_buffer ≡ d.dma_pool.base + d.queue_alloc_off)
              × (q'.cq_buffer ≡ q'.sq_buffer + sq_bytes depth)
              × (q'.sq_iova ≢ 0)
              × (q'.cq_iova ≢ 0))
  queue_init_lem clear two =
      let same =
        queue_start_regions map_ok (allocated_data d depth) (allocated_queue d q depth) qid depth in
      rw queue_init_start (same.0, same.1, λ e. ready (queue_start_ok map_ok _ _ qid depth e))
    where
      ready :
          let (ret, q', d') =
            queue_start map_ok (allocated_data d depth) (allocated_queue d q depth) qid depth in
          let m = sq_map map_ok (allocated_data d depth) (allocated_queue d q depth) qid depth in
          let n = cq_map map_ok (allocated_data d depth) (allocated_queue d q depth) qid depth in
          (q'
              ≡ reset_queue
                  (record (allocated_queue d q depth) {
                    sq_iova = m.0;
                    cq_iova = n.0;
                    sq_mapping = m.1;
                    cq_mapping = n.1;
                  })
                  qid
                  depth
                  d.db_stride)
            × (m.0 ≢ 0)
            × (n.0 ≢ 0)
          → IsRing q'
            × (length q'.sq_slots ≡ q'.qsize)
            × (q'.sq_buffer ≡ d.dma_pool.base + d.queue_alloc_off)
            × (q'.cq_buffer ≡ q'.sq_buffer + sq_bytes depth)
            × (q'.sq_iova ≢ 0)
            × (q'.cq_iova ≢ 0)
      ready (e, m, n) = rw e (
        record {
          small = omega arith;
          room = two;
          tail_in = omega arith;
          last_in = omega arith;
          rung = clear;
        },
        length-replicate depth zeroed,
        refl,
        omega arith,
        m,
        n,
      )
