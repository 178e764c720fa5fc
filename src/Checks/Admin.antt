-- ===== src/Checks/Admin.antt =====
-- Runs of the admin queue.
use s3blk.Base.{ℕ, ◌<◌, ◌≡◌, ◌≢◌, ◌⊎◌, ◌==◌, if◌then◌else◌, ◌>>◌, low_bits, arith}
use s3blk.Base.Int.{pos, eio, etimedout}
use s3blk.Nvme.Types.{Completion}
use s3blk.Nvme.Admin.{wait_loop}
use s3blk.Nvme.Admin.Wait.{stepped, wait_loop_result}
use s3blk.Checks.{small_queue}

-- The controller answers in the third round, without an error.
abbrev answer : ℕ → Completion
answer k = record { command_id = 0; status = if k == 2 then 1 else 0 }

wait_loop_result_example :
    ((i : ℕ) × (i < 5)
      × (low_bits (answer i).status 1 ≡ 1)
      × ((j : ℕ) → i < j → j < 5 → low_bits (answer j).status 1 ≢ 1)
      × (wait_loop 5 answer small_queue
          ≡ (if (answer i).status >> 1 == 0 then pos 0 else eio, stepped small_queue)))
    ⊎ (((i : ℕ) → i < 5 → low_bits (answer i).status 1 ≢ 1)
        × (wait_loop 5 answer small_queue ≡ (etimedout, small_queue)))
wait_loop_result_example =
    wait_loop_result 5 answer small_queue (omega arith) (omega arith) (omega arith)
