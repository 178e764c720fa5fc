-- ===== src/Ublksrv/Ctrl/Exchange.antt =====
-- What lib/ublksrv_cmd.c asks the driver in turn, and where the CPU sets of the queues are, with
-- ublksrv_get_queue_affinity of include/ublksrv_priv.h.
use s3blk.Base.{ℕ, ◌+◌, ◌*◌, ◌^◌, ◌%◌, not, ◌&&◌, ◌==◌, if◌then◌else◌, List, [], ◌∷◌, ◌++◌}
use s3blk.Base.Int.{ℤ, is_neg, einval}
use s3blk.Ublksrv.Ctrl.{
  CtrlInfo, CtrlCmd, path_max, cmd_get_dev_info, cmd_add_dev, cmd_get_dev_info2, ioctl_nr,
  ctrl_cmd_op, is_unprivileged, info_cmd,
}

-- __ublksrv_ctrl_cmd: the driver's result, which may depend on the commands before, and those
-- commands with this one.
module _ (driver : List CtrlCmd → CtrlCmd → ℤ) where
  abbrev pub send : CtrlCmd → List CtrlCmd → ℤ × List CtrlCmd
  send c sent = (driver sent c, sent ++ c ∷ [])

  -- ublksrv_ctrl_add_dev
  unfoldable pub add_dev : CtrlInfo → List CtrlCmd → ℤ × List CtrlCmd
  add_dev info sent =
      let (ret, sent1) = send (info_cmd info (ioctl_nr 3 cmd_add_dev)) sent in
      if is_neg ret then send (info_cmd info cmd_add_dev) sent1 else (ret, sent1)

  -- __ublksrv_ctrl_get_info_no_trans
  unfoldable pub get_info_no_trans : CtrlInfo → ℕ → List CtrlCmd → ℤ × List CtrlCmd
  get_info_no_trans info op sent =
      if is_unprivileged info && (op % 2 ^ 8 == cmd_get_dev_info)
      then (einval, sent)
      else send (info_cmd info op) sent

  -- __ublksrv_ctrl_get_info
  unfoldable pub get_info_of : CtrlInfo → ℕ → List CtrlCmd → ℤ × List CtrlCmd
  get_info_of info op sent =
      let (ret, sent1) = get_info_no_trans info (ctrl_cmd_op op) sent in
      if is_neg ret then get_info_no_trans info op sent1 else (ret, sent1)

  -- ublksrv_ctrl_get_info
  unfoldable pub get_info : CtrlInfo → List CtrlCmd → ℤ × List CtrlCmd
  get_info info sent =
      let (ret, sent1) = get_info_of info cmd_get_dev_info2 sent in
      if not (is_neg ret)
      then (ret, sent1)
      else if is_unprivileged info
      then (ret, sent1)
      else get_info_of info cmd_get_dev_info sent1

-- The offset of a queue's CPU set in `queues_cpuset`: where ublksrv_ctrl_get_affinity has the
-- driver put it, behind the path, and where ublksrv_get_queue_affinity looks for it.
abbrev pub affinity_stored : CtrlInfo → ℕ → ℕ → ℕ
affinity_stored info cpuset_size i =
    let path_len = if is_unprivileged info then path_max else 0 in
    i * (cpuset_size + path_len) + path_len

abbrev pub get_queue_affinity : CtrlInfo → ℕ → ℕ → ℕ
get_queue_affinity info cpuset_size i =
    if is_unprivileged info then i * cpuset_size + path_max else i * cpuset_size
