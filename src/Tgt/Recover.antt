-- ===== src/Tgt/Recover.antt =====
-- targets/ublksrv_tgt.cpp: how the recovery of a device is begun, __cmd_dev_user_recover.
pub mod Outcome
use s3blk.Base.{
  ℕ, zero, suc, ◌+◌, Bool, true, false, not, ◌&&◌, ◌==◌, if◌then◌else◌, List, [], ◌∷◌, Option, none,
  some,
}
use s3blk.Base.Int.{ℤ, pos, minus, is_neg, is_errno}
use s3blk.Tgt.{enotsup}

-- What the calls return: ublksrv_ctrl_recover_init, ublksrv_ctrl_get_info,
-- ublksrv_ctrl_start_recovery in each round, ublksrv_tgt_get_dev_data, the two reads of it with
-- the device id that it has, and ublksrv_start_daemon.
pub record Recovery : Type 0 where
  pub init_ok : Bool
  pub info_ret : ℤ
  pub start_ret : ℕ → ℤ
  pub has_data : Bool
  pub dev_info_ret : ℤ
  pub dev_id : ℕ
  pub base_info_ret : ℤ
  pub daemon_ret : ℤ

-- A run: its result, how often the recovery was asked for, whether the daemon was started, the
-- control devices that are open, and how often it was announced that there is no device.
pub record Run : Type 0 where
  pub ret : ℤ
  pub tries : ℕ
  pub daemon : Bool
  pub controls : ℕ
  pub failures : ℕ

-- Half a minute with a try every 100 milliseconds
abbrev pub rounds : ℕ
rounds = 300

-- The loop: the error for which it gives up, and the number of tries. -EBUSY is tried again.
unfoldable pub start_recovery_loop : (ℕ → ℤ) → ℕ → ℕ → Option ℤ × ℕ
start_recovery_loop start_ret i zero = (none, 0)
start_recovery_loop start_ret i (suc n) =
    let (refused, tries) = start_recovery_loop start_ret (suc i) n in
    if is_neg (start_ret i) && not (is_errno 16 (start_ret i))
    then (some (start_ret i), 1)
    else if not (is_neg (start_ret i))
    then (none, 1)
    else (refused, suc tries)

-- From `fail` on: the control device is closed, and the event of a missing device is sent.
abbrev pub fail : ℤ → ℕ → Bool → Run
fail ret tries daemon = record {
  ret = ret;
  tries = tries;
  daemon = daemon;
  controls = 0;
  failures = 1;
}

-- After the loop.
unfoldable pub read_and_start : Recovery → ℕ → ℕ → Run
read_and_start r number tries =
    if not r.has_data
    then fail (minus 1) tries false
    else if is_neg r.dev_info_ret
    then fail r.dev_info_ret tries false
    else if not (r.dev_id == number)
    then fail r.dev_info_ret tries false
    else if is_neg r.base_info_ret
    then fail r.base_info_ret tries false
    else fail r.daemon_ret tries true

-- __cmd_dev_user_recover; `number` is the device id as an unsigned word.
unfoldable pub cmd_dev_user_recover : Recovery → ℕ → Run
cmd_dev_user_recover r number =
    let (refused, tries) = start_recovery_loop r.start_ret 0 rounds in
    if not r.init_ok
    then fail enotsup 0 false
    else if is_neg r.info_ret
    then fail r.info_ret 0 false
    else elim refused [ some ret ↦ fail ret tries false | none ↦ read_and_start r number tries ]
