-- ===== src/Checks/Devices.antt =====
-- The null target, and the setup of a small NVMe controller.
use s3blk.Base.{
  ℕ, ◌+◌, ◌*◌, ◌^◌, ◌≤◌, ◌≡◌, ◌⊎◌, refl, arith, true, false, [], ◌∷◌, length, ◌<<◌, ◌==◌,
  if◌then◌else◌,
}
use s3blk.Base.Int.{pos, minus}
use s3blk.Nvme.Types.{Completion, TgtData, page_size}
use s3blk.Nvme.Pool.{pair_bytes}
use s3blk.Nvme.Admin.{AdminRegs, create_admin_queue}
use s3blk.Nvme.Init.{DevInfo, check_info, create_io_queues}
use s3blk.Nvme.Init.Checked.{create_io_queues-AllRings, AllRings}
use s3blk.Nvme.Control.{
  Seen, init_controller, write_cc, write_admin, disabled, cc_enabled, is_ready,
}
use s3blk.Nvme.Control.Order.{init_controller_order}
use s3blk.Nvme.Identify.{params_of}
use s3blk.Nvme.Identify.Limits.{params_of_limits}
use s3blk.Loop.{ended}
use s3blk.Ublksrv.Types.{Queue, Cqe}
use s3blk.Null.InStep.{World, taken}
use s3blk.Checks.Batches.{queue}
use s3blk.Checks.{small_queue, small_target, all_mapped, requests}

-- A queue with zero copy: the driver hands over tag 0, and its first completion comes.
abbrev zero_copy_queue : Queue
zero_copy_queue = record queue { zero_copy = true; auto_zc = false }

abbrev no_jobs : World
no_jobs = record { jobs = λ t. ended; coming = λ t. 0 }

abbrev one_taken : World
one_taken = taken requests zero_copy_queue no_jobs 0

abbrev done_cqe : Cqe
done_cqe = record { res = pos 4096; user_data = 0; more = false }

-- Two queues of 128 ios with buffers of 512 KiB.
abbrev device : DevInfo
device = record {
  nr_hw_queues = 2;
  queue_depth = 128;
  max_io_buf_bytes = 0x80000;
  auto_buf_reg = false;
  support_zero_copy = false;
  user_copy = true;
}

device_checked : check_info 0x200000 device ≡ pos 0
unfolding check_info
device_checked = refl

-- The controller answers at once, without an error.
abbrev answer : ℕ → Completion
answer k = record { command_id = 0; status = 1 }

create_io_queues-AllRings_example :
    let (ret, qs, d', admin') =
      create_io_queues all_mapped (λ q. answer) small_target small_queue 0 1 in
    (ret ≡ minus 1)
    ⊎ ((ret ≡ pos 0)
        × (length qs ≡ 1)
        × AllRings qs
        × (d'.queue_alloc_off ≡ 0 + 1 * pair_bytes (3 + 1)))
create_io_queues-AllRings_example =
    create_io_queues-AllRings all_mapped (λ q. answer) 1 0 small_target small_queue (omega arith)
      (omega arith) (omega arith) (omega arith)

-- A controller that stops after two polls and is ready after three.
abbrev no_regs : AdminRegs
no_regs = record { aqa = 0; asq = 0; acq = 0 }

abbrev seen : Seen
seen = record {
  cc = 0x460001;
  disabling = λ left. if left == 4999 then 0 else 1;
  enabling = λ left. if left == 4998 then 1 else 0;
}

init_controller_order_example :
    let (ret, admin', d', writes) =
      init_controller all_mapped small_target small_queue no_regs seen in
    let off = write_cc (disabled 0x460001) in
    ((ret ≡ minus 1) × (writes ≡ off ∷ []))
    ⊎ (((i : ℕ) × (i ≤ 5000) × (is_ready (seen.disabling i) ≡ false))
        × (writes
            ≡ off
              ∷ write_admin (create_admin_queue all_mapped small_target small_queue no_regs).3
              ∷ write_cc cc_enabled
              ∷ [])
        × ((ret ≡ minus 1)
            ⊎ ((ret ≡ pos 0) × ((i : ℕ) × (i ≤ 5000) × (is_ready (seen.enabling i) ≡ true)))))
init_controller_order_example =
    init_controller_order all_mapped small_target small_queue no_regs seen

-- The controller takes at most 128 KiB in a command.
abbrev limited_target : TgtData
limited_target = record small_target { mdts = 5 }

params_of_limits_example :
    let p = params_of limited_target in
    (p.max_sectors << 9 ≤ 0x80000)
    × ((limited_target.mdts ≡ 0) ⊎ (p.max_sectors << 9 ≤ 2 ^ 5 * page_size))
    × (8 ≤ p.max_sectors)
params_of_limits_example = params_of_limits limited_target (omega arith) (omega arith)
