-- ===== src/Ublksrv/Batch/Fetch.antt =====
-- What the kernel writes to the fetch buffer is handed to the target, each valid tag once.
use s3blk.Base.{
  ℕ, ◌+◌, ◌*◌, ◌^◌, ◌<◌, ◌≡◌, refl, ap, ◌∙◌, arith, List, [], ◌∷◌, if◌then◌else◌, leb, length, u32,
}
use s3blk.Base.Int.{ℤ, pos, pos_part}
use s3blk.Ublk.{user_data_to_tag}
use s3blk.Ublksrv.Types.{Cqe, Queue, FetchBuf}
use s3blk.Ublksrv.Owner.Count.{set_at_self}
use s3blk.Ublksrv.Batch.{tag_at, rounds, fetched_tags, tags_of_cqe, advance_fetch}

-- The kernel has written these tags to the bytes from `i` on.
abbrev pub Written : (ℕ → ℕ) → ℕ → List ℕ → Type 0
Written buf i [] = Unit {0}
Written buf i (t ∷ ts) = (tag_at buf i ≡ t) × Written buf (i + 2) ts

-- The ones that are tags of a queue of that depth.
abbrev pub valid_tags : ℕ → List ℕ → List ℕ
valid_tags depth [] = []
valid_tags depth (t ∷ ts) = if leb depth t then valid_tags depth ts else t ∷ valid_tags depth ts

fetched_tags-valid_tags :
    (depth : ℕ) (buf : ℕ → ℕ) (i : ℕ) (ts : List ℕ)
    → Written buf i ts
    → fetched_tags depth buf i (length ts) ≡ valid_tags depth ts
unfolding fetched_tags
fetched_tags-valid_tags depth buf i [] w = refl
fetched_tags-valid_tags depth buf i (t ∷ ts) w =
    rw (w.0, fetched_tags-valid_tags depth buf (i + 2) ts w.1) refl

-- A completion of a fetch that stands for tags the kernel has written behind what was read, below
-- offset 2^32, hands out the ones that are tags of the queue, in their order, and moves on behind
-- them.
pub tags_of_cqe-valid_tags :
    (q : Queue) (cqe : Cqe) (ts : List ℕ)
    → let i = user_data_to_tag cqe.user_data in
      let fb = q.batch.fetch_bufs i in
      cqe.res ≡ pos (2 * length ts)
      → fb.fetch_buf_off + 2 * length ts < 2 ^ 32
      → Written fb.fetch_buf fb.fetch_buf_off ts
      → (tags_of_cqe q cqe ≡ valid_tags q.q_depth ts)
        × (((advance_fetch q cqe).batch.fetch_bufs i).fetch_buf_off
            ≡ fb.fetch_buf_off + 2 * length ts)
unfolding tags_of_cqe advance_fetch
tags_of_cqe-valid_tags q cqe ts e room w =
    let i = user_data_to_tag cqe.user_data in
    let fb = q.batch.fetch_bufs i in
    let n : rounds cqe.res ≡ length ts = ap rounds e ∙ half (length ts) in
    let fb' : FetchBuf = record fb { fetch_buf_off = u32 (fb.fetch_buf_off + pos_part cqe.res) } in
    let off : fb'.fetch_buf_off ≡ fb.fetch_buf_off + 2 * length ts =
      ap (λ (r : ℤ). u32 (fb.fetch_buf_off + pos_part r)) e ∙ omega (arith, room) in
    (
      rw n (fetched_tags-valid_tags q.q_depth fb.fetch_buf fb.fetch_buf_off ts w),
      ap (λ (b : FetchBuf). b.fetch_buf_off) (set_at_self q.batch.fetch_bufs i fb') ∙ off,
    )
  where
    half : (n : ℕ) → rounds (pos (2 * n)) ≡ n
    half n = omega arith
