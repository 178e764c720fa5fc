-- ===== src/Nvme/Ring/Doorbell.antt =====
-- When the submission doorbell is rung.
use s3blk.Base.{◌⊎◌, ◌+◌, ◌<◌, ◌≤◌, ◌≡◌, ◌^◌, arith}
use s3blk.Nvme.Types.{Queue}
use s3blk.Nvme.Ring.{sq_flush, sq_submit_cmd, pending, advance}
use s3blk.Nvme.Ring.Modular.{gap_lem, gap-lt, gap-advance, advance_lem}

-- What holds of a submission ring between two calls: the positions are on the ring, and the
-- doorbell holds the last announced tail.
pub record IsRing (q : Queue) : Type 0 where
  pub small : q.qsize < 2 ^ 16
  pub room : 2 ≤ q.qsize
  pub tail_in : q.sq_tail < q.qsize
  pub last_in : q.last_sq_tail < q.qsize
  pub rung : q.sq_rung ≡ q.last_sq_tail

-- Few commands wait for the doorbell, and never so many that the ring is full.
pub record IsBatched (q : Queue) : Type 0 where
  pub few : pending q < 32
  pub not_full : pending q + 1 < q.qsize

-- nvme_sq_flush announces every submitted command, and keeps the ring's invariant.
pub sq_flush-pending :
    (q : Queue)
    → IsRing q
    → IsRing (sq_flush q) × (pending (sq_flush q) ≡ 0) × ((sq_flush q).sq_rung ≡ q.sq_tail)
unfolding sq_flush
sq_flush-pending q r = ground (arith, gap_lem q.qsize q.sq_tail q.sq_tail)

-- One submission to a ring with both invariants keeps them: either the command waits, the doorbell is untouched and there
-- is still room for another, or everything submitted is announced.
pub sq_submit_cmd-IsBatched :
    (q : Queue)
    → IsRing q
    → IsBatched q
    → let s = sq_submit_cmd q in
      IsRing s
      × IsBatched s
      × (s.sq_tail ≡ advance q.qsize q.sq_tail)
      × (((pending s ≡ pending q + 1) × (s.sq_rung ≡ q.sq_rung))
          ⊎ ((pending s ≡ 0) × (s.sq_rung ≡ s.sq_tail)))
unfolding sq_submit_cmd
sq_submit_cmd-IsBatched q r b = grind (
  arith,
  advance_lem q.qsize q.sq_tail r.tail_in r.small,
  gap-advance q.qsize q.last_sq_tail q.sq_tail r.last_in r.tail_in r.small,
  gap-lt q.qsize q.last_sq_tail (advance q.qsize q.sq_tail),
  gap-advance q.qsize q.last_sq_tail (advance q.qsize q.sq_tail),
  gap_lem q.qsize (advance q.qsize q.sq_tail) (advance q.qsize q.sq_tail),
)
