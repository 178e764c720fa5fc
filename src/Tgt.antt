-- ===== src/Tgt.antt =====
-- targets/ublksrv_tgt.cpp: how a device is added, ublksrv_cmd_dev_add, with the calls of the
-- library and of the daemon's start as entries of a log.
pub mod Balance
pub mod Recover
use s3blk.Base.{
  ℕ, suc, ◌+◌, ◌-◌, ◌^◌, Bool, true, false, not, ◌&&◌, ◌||◌, ◌==◌, if◌then◌else◌, List, [], ◌∷◌,
  ◌++◌, Option, none, some, bit_or, has_bit,
}
use s3blk.Base.Int.{ℤ, pos, negsuc, minus, is_neg, einval}

-- The calls that ublksrv_cmd_dev_add makes: ublksrv_ctrl_init, with the flags and whether it gives
-- a control device, ublksrv_ctrl_get_features, ublksrv_ctrl_add_dev with its result,
-- ublksrv_start_daemon and ublksrv_ctrl_del_dev with theirs, ublksrv_ctrl_deinit, and
-- ublksrv_tgt_send_dev_event for a device that was not made.
pub data Action : Type 0 where
  ctrl_init : ℕ → Bool → Action
  get_features : Action
  add_dev : ℤ → Action
  start_daemon : ℤ → Action
  del_dev : ℤ → Action
  ctrl_deinit : Action
  send_no_device : Action

-- What these calls return; ublksrv_ctrl_init may be called twice.
pub record Driver : Type 0 where
  pub init_ok : Bool
  pub init_again_ok : Bool
  pub features_ret : ℤ
  pub features : ℕ
  pub add_ret : ℤ
  pub start_ret : ℤ
  pub del_ret : ℤ

-- The bit numbers of UBLK_F_SUPPORT_ZERO_COPY, UBLK_F_AUTO_BUF_REG and UBLK_F_BATCH_IO.
abbrev pub f_zero_copy : ℕ
f_zero_copy = 0

abbrev pub f_auto_buf_reg : ℕ
f_auto_buf_reg = 11

abbrev pub f_batch_io : ℕ
f_batch_io = 15

-- -EOPNOTSUPP and -ENOTSUP
abbrev pub enotsup : ℤ
enotsup = minus 95

-- `ret` as a truth value
abbrev pub is_nonzero : ℤ → Bool
is_nonzero (pos n) = not (n == 0)
is_nonzero (negsuc n) = true

-- The flags to start with: UBLK_F_AUTO_BUF_REG is tried with zero copy.
unfoldable pub default_flags : ℕ → ℕ
default_flags flags = if has_bit flags f_zero_copy then bit_or flags (2 ^ f_auto_buf_reg) else flags

-- `flags & ~UBLK_F_AUTO_BUF_REG`
unfoldable pub without_auto_buf_reg : ℕ → ℕ
without_auto_buf_reg flags =
    if has_bit flags f_auto_buf_reg then flags - 2 ^ f_auto_buf_reg else flags

-- From ublksrv_ctrl_add_dev on, with the control device.
unfoldable pub add_and_start : Driver → List Action → ℤ × List Action
add_and_start drv log =
    let added = add_dev drv.add_ret in
    let started = start_daemon drv.start_ret in
    if is_neg drv.add_ret
    then (drv.add_ret, log ++ added ∷ ctrl_deinit ∷ send_no_device ∷ [])
    else if is_neg drv.start_ret
    then (
      drv.start_ret,
      log ++ added ∷ started ∷ del_dev drv.del_ret ∷ ctrl_deinit ∷ send_no_device ∷ [],
    )
    else (pos 0, log ++ added ∷ started ∷ ctrl_deinit ∷ [])

-- The part for zero copy and batch mode. `none` is the use of a control device that is not there.
unfoldable pub check_features : Driver → ℕ → List Action → Option (ℤ × List Action)
check_features drv flags log =
    let asked = log ++ get_features ∷ [] in
    let zero_copy = has_bit flags f_zero_copy in
    let batch_io = has_bit flags f_batch_io in
    let init_again = ctrl_init (without_auto_buf_reg flags) drv.init_again_ok in
    let retry = log ++ get_features ∷ ctrl_deinit ∷ init_again ∷ [] in
    if is_nonzero drv.features_ret
    then some (drv.features_ret, asked)
    else if zero_copy && not (has_bit drv.features f_zero_copy)
    then some (enotsup, asked)
    else if batch_io && not (has_bit drv.features f_batch_io)
    then some (enotsup, asked)
    else if not (zero_copy && not (has_bit drv.features f_auto_buf_reg))
    then some (add_and_start drv asked)
    else if drv.init_again_ok
    then some (add_and_start drv retry)
    else none

-- ublksrv_cmd_dev_add from the check of the target's type on, whose flags are `tgt_flags`.
unfoldable pub cmd_dev_add : Driver → Bool → ℕ → ℕ → Option (ℤ × List Action)
cmd_dev_add drv wrong_type data_flags tgt_flags =
    let flags = default_flags (bit_or data_flags tgt_flags) in
    let log = ctrl_init flags drv.init_ok ∷ [] in
    if wrong_type
    then some (einval, [])
    else if not drv.init_ok
    then some (enotsup, log ++ send_no_device ∷ [])
    else if has_bit flags f_zero_copy || has_bit flags f_batch_io
    then check_features drv flags log
    else some (add_and_start drv log)
