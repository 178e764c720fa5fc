-- ===== src/Nvme/Pool/Layout.antt =====
-- The regions of the pool are disjoint and inside it.
use native.Mathlib.Nat.{mod-lt, mod-eq_of_lt, div-add-mod', mul-le-mul, mul-le-mul_right}
use s3blk.Base.{u64, ℕ, ◌+◌, ◌-◌, ◌*◌, ◌^◌, ◌<◌, ◌≤◌, ◌≡◌, ◌≢◌, ◌⊎◌, arith, inl, inr, ap}
use s3blk.Nvme.Types.{TgtData, page_size, admin_q_size}
use s3blk.Nvme.Pool.{
  layout, total_size, round_up, pair_bytes, pool_get_prp, pool_get_io_buf, pool_get_identify_buf,
}

-- What nvme_vfio_init_tgt checks before it sets the pool up; the hugepage size bound is that of a
-- 64-bit address space.
pub record IsChecked (d : TgtData) : Type 0 where
  pub queues : d.nr_io_queues ≤ 64
  pub depth_pos : 1 ≤ d.queue_depth
  pub depth : d.queue_depth ≤ 4096
  pub buf_min : page_size ≤ d.max_io_buf_bytes
  pub buf_max : d.max_io_buf_bytes ≤ 2 ^ 21
  pub huge : d.max_io_buf_bytes ≤ d.hugepage_size
  pub huge_max : d.hugepage_size ≤ 2 ^ 40

pair_bytes_bound : (n : ℕ) → n ≤ 4097 → (pair_bytes n ≤ 2 ^ 19) × (n * 80 ≤ pair_bytes n)
pair_bytes_bound n h = omega arith

product_bound : (q n b m k c : ℕ) → q ≤ m → n ≤ k → b ≤ c → q * n * b ≤ m * k * c
product_bound q n b m k c hq hn hb = mul-le-mul (mul-le-mul hq hn) hb

le-round_up : (x hps : ℕ) → 0 < hps → x + hps < 2 ^ 64 → x ≤ round_up x hps
le-round_up x hps pos_hps small = omega (
  arith,
  mod-eq_of_lt {n = x + hps - 1} {m = 2 ^ 64} (omega arith),
  div-add-mod' (x + hps - 1) hps,
  mod-lt (x + hps - 1) {m = hps} pos_hps,
)

-- The sums of the layout, for queue, PRP and io buffer regions of `x`, `y` and `z` bytes.
region_sums :
    (x y z hps : ℕ)
    → x ≤ 2 ^ 25
    → y ≤ 2 ^ 30
    → z ≤ 2 ^ 39
    → 0 < hps
    → hps ≤ 2 ^ 40
    → let r = u64 (8192 + x) in
      (y < 2 ^ 31)
      × (r ≡ 8192 + x)
      × (u64 (r + y) ≡ r + y)
      × (u64 (r + y + u64 z) ≡ u64 (r + y) + z)
      × (u64 (r + y + u64 z) + page_size ≤ round_up (u64 (u64 (r + y + u64 z) + page_size)) hps)
region_sums x y z hps hx hy hz lo hi = (
  omega arith,
  omega arith,
  omega arith,
  omega arith,
  omega (
    arith,
    le-round_up (u64 (u64 (u64 (u64 (8192 + x) + y) + u64 z) + page_size)) hps lo (omega arith),
  ),
)

-- With checked parameters nothing in the size computation overflows: the `int` product
-- nr_queues * depth * PAGE_SIZE stays below 2^31, and the `size_t` sums below 2^64.
pub no_overflow :
    (d : TgtData)
    → IsChecked d
    → (d.nr_io_queues * d.queue_depth * page_size < 2 ^ 31)
      × ((layout d).queue_region_off
          ≡ pair_bytes admin_q_size + d.nr_io_queues * pair_bytes (d.queue_depth + 1))
      × ((layout d).io_buf_region_off
          ≡ (layout d).prp_region_off + d.nr_io_queues * d.queue_depth * page_size)
      × ((layout d).identify_buf_off
          ≡ (layout d).io_buf_region_off + d.nr_io_queues * d.queue_depth * d.max_io_buf_bytes)
      × ((layout d).identify_buf_off + page_size ≤ total_size d)
no_overflow d c =
    region_sums (nr_io_queues * pair_bytes (queue_depth + 1))
      (nr_io_queues * queue_depth * page_size) (nr_io_queues * queue_depth * max_io_buf_bytes)
      hugepage_size (mul-le-mul c.queues (pair_bytes_bound (queue_depth + 1) (omega arith)).0)
      (product_bound nr_io_queues queue_depth page_size 64 4096 page_size c.queues c.depth
        (omega arith))
      (product_bound nr_io_queues queue_depth max_io_buf_bytes 64 4096 (2 ^ 21) c.queues c.depth
        c.buf_max)
      (omega arith) c.huge_max
  where
    open d use {nr_io_queues, queue_depth, max_io_buf_bytes, hugepage_size}

-- The place of queue `q`, tag `t` in an array with `depth` entries for each queue.
slot_below : (q t nr depth : ℕ) → q < nr → t < depth → q * depth + t < nr * depth
slot_below q t nr depth hq ht = grind arith

compare_cases : (a b : ℕ) → (a < b) ⊎ ((b < a) ⊎ (a ≡ b))
compare_cases a b = omega arith

slot_distinct :
    (depth q t q' t' : ℕ)
    → t < depth
    → t' < depth
    → (q ≢ q') ⊎ (t ≢ t')
    → q * depth + t ≢ q' * depth + t'
slot_distinct depth q t q' t' h h' ne e = elim (compare_cases q q') [
  | inl lt ↦ omega (arith, mul-le-mul_right depth lt)
  | inr (inl gt) ↦ omega (arith, mul-le-mul_right depth gt)
  | inr (inr same) ↦ ground (arith, ap (λ (k : ℕ). k * depth) same)
]

-- Two ranges of `n` bytes do not overlap.
abbrev pub Apart : ℕ → ℕ → ℕ → Type 0
Apart n a b = (a + n ≤ b) ⊎ (b + n ≤ a)

slots-Apart : (a b i j n : ℕ) → i ≢ j → Apart n (a + (b + i * n)) (a + (b + j * n))
slots-Apart a b i j n ne = elim (compare_cases i j) [
  | inl lt ↦ inl (omega (arith, mul-le-mul_right n lt))
  | inr (inl gt) ↦ inr (omega (arith, mul-le-mul_right n gt))
  | inr (inr same) ↦ absurd (ne same)
]

-- The PRP pages of different requests do not overlap, and neither do their io buffers.
pub pool_slots-Apart :
    (d : TgtData) (q t q' t' : ℕ)
    → t < d.queue_depth
    → t' < d.queue_depth
    → (q ≢ q') ⊎ (t ≢ t')
    → Apart page_size (pool_get_prp d q t) (pool_get_prp d q' t')
      × Apart d.max_io_buf_bytes (pool_get_io_buf d q t) (pool_get_io_buf d q' t')
unfolding pool_get_prp pool_get_io_buf
pool_slots-Apart d q t q' t' h h' ne = (
  slots-Apart base prp_region_off (q * queue_depth + t) (q' * queue_depth + t') page_size
      (slot_distinct queue_depth q t q' t' h h' ne),
  slots-Apart base io_buf_region_off (q * queue_depth + t) (q' * queue_depth + t') max_io_buf_bytes
      (slot_distinct queue_depth q t q' t' h h' ne),
)
  where
    open d use {queue_depth, prp_region_off, io_buf_region_off, max_io_buf_bytes, dma_pool.{base}}

-- In the layout of checked parameters the PRP pages of valid requests lie behind the queue
-- buffers, the io buffers behind the PRP region, the identify page behind those, and all of it
-- inside the pool.
pub pool_regions :
    (d : TgtData) (q t : ℕ)
    → IsChecked d
    → q < d.nr_io_queues
    → t < d.queue_depth
    → let l = layout d in
      (l.dma_pool.base + l.queue_region_off ≤ pool_get_prp l q t)
      × (pool_get_prp l q t + page_size ≤ l.dma_pool.base + l.io_buf_region_off)
      × (l.dma_pool.base + l.io_buf_region_off ≤ pool_get_io_buf l q t)
      × (pool_get_io_buf l q t + d.max_io_buf_bytes ≤ pool_get_identify_buf l)
      × (pool_get_identify_buf l + page_size ≤ l.dma_pool.base + total_size d)
unfolding pool_get_prp pool_get_io_buf pool_get_identify_buf
pool_regions d q t c hq ht =
    let below = slot_below q t nr_io_queues queue_depth hq ht in
    let prp = mul-le-mul_right page_size below in
    let buf = mul-le-mul_right max_io_buf_bytes below in omega (arith, no_overflow d c, prp, buf)
  where
    open d use {nr_io_queues, queue_depth, max_io_buf_bytes}
