-- ===== src/Checks/Polls.antt =====
-- Runs of the completion ring.
use s3blk.Base.{◌+◌, ◌-◌, ◌≤◌, ◌≡◌, arith, refl, [], ◌++◌, some}
use s3blk.Nvme.Ring.{sq_flush}
use s3blk.Nvme.State.{State}
use s3blk.Nvme.Poll.{handle_io_background}
use s3blk.Nvme.Poll.Protocol.{IsSynced, post_slot, post_slot-IsSynced}
use s3blk.Nvme.Poll.Drain.{results, IsDrained, handle_io_background-IsDrained}
use s3blk.Nvme.Poll.Interleave.{System, Step, Reach, Reach-reported}
use s3blk.Checks.{small_queue, small_state, small_env, good_posts}

first-IsSynced : IsSynced small_queue good_posts 0 0
first-IsSynced = record {
  size_pos = omega arith;
  small = omega arith;
  ordered = omega arith;
  room = omega arith;
  at_head = refl;
  at_phase = refl;
  fresh = λ i lo hi. absurd (omega arith);
  marked = λ i lo hi. absurd (omega arith);
  stale = λ i lo hi e. omega arith;
}

abbrev posted_state : State
posted_state = record small_state { nvmeq = post_slot small_queue 0 (good_posts 0) }

posted-IsSynced : IsSynced posted_state.nvmeq good_posts 0 1
posted-IsSynced = post_slot-IsSynced small_queue good_posts 0 0 first-IsSynced (omega arith) refl

handle_io_background-IsDrained_example :
    (s' : State) × (handle_io_background 3 small_env 0 posted_state ≡ some s')
    × IsDrained small_env 0 good_posts
        (record posted_state { nvmeq = sq_flush posted_state.nvmeq })
        s'
        0
        1
        1
handle_io_background-IsDrained_example =
    handle_io_background-IsDrained small_env 0 good_posts 1 3 posted_state 0 1 (omega arith)
      (omega arith) posted-IsSynced

abbrev at_start : System
at_start = record { thread = small_state; posted = 0; taken = 0 }

abbrev delivered : System
delivered = record { thread = posted_state; posted = 1; taken = 0 }

abbrev polled : System
polled = record delivered { thread = handle_io_background-IsDrained_example.0; taken = 1 }

there : Reach small_env 0 good_posts at_start polled
there = Reach.next (Reach.next Reach.here (Step.deliver at_start (omega arith) refl)) (
    Step.poll delivered handle_io_background-IsDrained_example.0 3 (omega arith)
      handle_io_background-IsDrained_example.1)

Reach-reported_example :
    (polled.taken ≤ polled.posted)
    × (polled.posted ≤ polled.taken + polled.thread.nvmeq.qsize)
    × (polled.thread.completed ≡ [] ++ results small_env 0 good_posts at_start.thread.tgt 0 (1 - 0))
Reach-reported_example = Reach-reported small_env 0 good_posts at_start first-IsSynced there
