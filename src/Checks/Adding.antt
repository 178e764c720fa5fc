-- ===== src/Checks/Adding.antt =====
-- A device with zero copy on a kernel that does not support it, and a recovery.
use s3blk.Base.{ℕ, zero, suc, ◌^◌, ◌≤◌, ◌≡◌, true, false, refl}
use s3blk.Base.Int.{ℤ, pos, minus}
use s3blk.Tgt.Recover.{Recovery, cmd_dev_user_recover, read_and_start, start_recovery_loop, rounds}
use s3blk.Tgt.Recover.Outcome.{IsReady, cmd_dev_user_recover-IsReady}
use s3blk.Tgt.{Driver, default_flags, cmd_dev_add}
use s3blk.Tgt.Balance.{Balanced, cmd_dev_add-Balanced}

abbrev old_kernel : Driver
old_kernel = record {
  init_ok = true;
  init_again_ok = true;
  features_ret = pos 0;
  features = 2 ^ 15;
  add_ret = pos 0;
  start_ret = pos 0;
  del_ret = pos 0;
}

cmd_dev_add-Balanced_example : Balanced true false (cmd_dev_add old_kernel false 1 0)
unfolding default_flags
cmd_dev_add-Balanced_example = cmd_dev_add-Balanced old_kernel 1 0 refl refl

-- The driver is busy once.
abbrev busy_once : ℕ → ℤ
busy_once zero = minus 16
busy_once (suc i) = pos 0

abbrev recovery : Recovery
recovery = record {
  init_ok = true;
  info_ret = pos 0;
  start_ret = busy_once;
  has_data = true;
  dev_info_ret = pos 0;
  dev_id = 3;
  base_info_ret = pos 0;
  daemon_ret = pos 0;
}

recovered :
    cmd_dev_user_recover recovery 3
    ≡ record { ret = pos 0; tries = 2; daemon = true; controls = 0; failures = 1 }
unfolding cmd_dev_user_recover read_and_start start_recovery_loop
recovered = refl

cmd_dev_user_recover-IsReady_example :
    let run = cmd_dev_user_recover recovery 3 in
    (run.tries ≤ rounds)
    × (run.controls ≡ 0)
    × (run.failures ≡ 1)
    × (run.daemon ≡ true → IsReady recovery 3 run)
cmd_dev_user_recover-IsReady_example = cmd_dev_user_recover-IsReady recovery 3
