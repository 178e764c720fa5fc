-- ===== src/Ublksrv/Ctrl.antt =====
-- The control commands of lib/ublksrv_cmd.c, with ublk_is_unprivileged of
-- include/ublksrv_priv.h. The ring holds 32 entries and each command
-- is waited for, so that an entry is always free.
pub mod Exchange
pub mod Encoded
pub mod Info
use s3blk.Base.{
  ℕ, zero, suc, ◌+◌, ◌*◌, ◌^◌, ◌%◌, ◌/◌, Bool, true, false, not, ◌&&◌, ◌||◌, ltb, leb, ◌==◌,
  if◌then◌else◌, List, [], ◌∷◌, ◌++◌, Option, none, some, u16, has_bit, low_bits, ◌>>◌,
}
use s3blk.Base.Int.{ℤ, pos, is_neg, einval}

-- The fields of `struct ublksrv_ctrl_dev_info` that the commands depend on. The buffer that
-- describes a command's memory is named by what the code puts there; `cpuset_of` also says whether
-- the path of the device is written in front.
pub record CtrlInfo : Type 0 where
  pub dev_id : ℕ
  pub nr_hw_queues : ℕ
  pub flags : ℕ
  pub ublksrv_pid : ℕ

pub data Buf : Type 0 where
  no_buf : Buf
  dev_info : Buf
  params : Buf
  features : Buf
  dev_path : Buf
  path_and_info : Buf
  path_and_params : Buf
  cpuset_of : ℕ → Bool → Buf

-- `struct ublksrv_ctrl_cmd_data`; the flags CTRL_CMD_HAS_DATA, CTRL_CMD_HAS_BUF and
-- CTRL_CMD_NO_TRANS are Booleans.
pub record CmdData : Type 0 where
  pub cmd_op : ℕ
  pub has_data : Bool
  pub has_buf : Bool
  pub no_trans : Bool
  pub arg : ℕ
  pub dev_path_len : ℕ
  pub addr : Buf
  pub len : ℕ

abbrev pub plain : ℕ → CmdData
plain op = record {
  cmd_op = op;
  has_data = false;
  has_buf = false;
  no_trans = false;
  arg = 0;
  dev_path_len = 0;
  addr = no_buf;
  len = 0;
}

-- `struct ublksrv_ctrl_cmd` with the command's number, in an entry that was zero.
pub record CtrlCmd : Type 0 where
  pub op : ℕ
  pub dev_id : ℕ
  pub addr : Buf
  pub len : ℕ
  pub arg : ℕ
  pub dev_path_len : ℕ

-- UBLKC_PATH_MAX, and the size of `struct ublksrv_ctrl_dev_info`.
abbrev pub path_max : ℕ
path_max = 32

abbrev pub info_size : ℕ
info_size = 64

-- UBLK_CMD_GET_DEV_INFO, UBLK_CMD_ADD_DEV and UBLK_CMD_GET_DEV_INFO2.
abbrev pub cmd_get_dev_info : ℕ
cmd_get_dev_info = 0x02

abbrev pub cmd_add_dev : ℕ
cmd_add_dev = 0x04

abbrev pub cmd_get_dev_info2 : ℕ
cmd_get_dev_info2 = 0x12

-- _IOR('u', nr, struct ublksrv_ctrl_cmd) for `dir` 2, and _IOWR for 3.
abbrev pub ioctl_nr : ℕ → ℕ → ℕ
ioctl_nr dir nr = dir * 2 ^ 30 + 32 * 2 ^ 16 + 0x75 * 2 ^ 8 + nr

-- UBLK_U_CMD_GET_FEATURES and UBLK_U_CMD_DEL_DEV_ASYNC.
abbrev pub u_cmd_get_features : ℕ
u_cmd_get_features = ioctl_nr 2 0x13

abbrev pub u_cmd_del_dev_async : ℕ
u_cmd_del_dev_async = ioctl_nr 2 0x14

-- `ctrl_cmd_op`, whose other entries are 0.
abbrev pub ctrl_cmd_op : ℕ → ℕ
ctrl_cmd_op op =
    if (op == 0x01) || ((op == 0x02) || ((op == 0x09) || (op == 0x12)))
    then ioctl_nr 2 op
    else if (leb 0x04 op && leb op 0x08) || ((op == 0x10) || (op == 0x11))
    then ioctl_nr 3 op
    else 0

-- legacy_op_to_ioctl; `none` is a failed assertion. The range implies the other assertions.
unfoldable pub legacy_op_to_ioctl : ℕ → Option ℕ
legacy_op_to_ioctl op = if leb 0x01 op && leb op 0x12 then some (ctrl_cmd_op op) else none

-- ublk_is_unprivileged
abbrev pub is_unprivileged : CtrlInfo → Bool
is_unprivileged info = has_bit info.flags 5

-- ublk_un_privileged_prep_data
abbrev pub un_privileged_prep_data : CtrlInfo → CmdData → CmdData
un_privileged_prep_data info d =
    if is_unprivileged info
    then (record d {
      has_buf = true;
      has_data = true;
      len = path_max;
      dev_path_len = path_max;
      addr = dev_path;
    })
    else d

-- ublksrv_ctrl_init_cmd
unfoldable pub ctrl_init_cmd : CtrlInfo → CmdData → Option CtrlCmd
ctrl_init_cmd info d =
    let encoded = not d.no_trans && has_bit info.flags 6 in
    elim (if encoded then legacy_op_to_ioctl d.cmd_op else some d.cmd_op) [
      | none ↦ none
      | some op ↦ some (record {
        op = op;
        dev_id = info.dev_id;
        addr = if d.has_buf then d.addr else no_buf;
        len = if d.has_buf then u16 d.len else 0;
        arg = if d.has_data then d.arg else 0;
        dev_path_len = if d.has_data then d.dev_path_len else 0;
      })
    ]

-- The commands that a device is controlled by once it is there, and the one for the features.
pub data Request : Type 0 where
  get_affinity : ℕ → Request
  start_dev : ℕ → Request
  del_dev : Request
  del_dev_async : Request
  stop_dev : Request
  set_params : Request
  get_params : Request
  start_recovery : Request
  end_recovery : ℕ → Request
  get_features : Request

-- ublksrv_ctrl_get_features
abbrev pub features_data : CmdData
features_data = record (plain u_cmd_get_features) { has_buf = true; addr = features; len = 8 }

-- `struct ublk_params` and cpu_set_t have the given sizes.
module _ (params_size cpuset_size : ℕ) where
  abbrev params_data : CtrlInfo → ℕ → CmdData
  params_data info op =
      if is_unprivileged info
      then (record (plain op) {
        has_buf = true;
        has_data = true;
        len = path_max + params_size;
        dev_path_len = path_max;
        addr = path_and_params;
      })
      else (record (plain op) { has_buf = true; addr = params; len = params_size })

  -- What the functions of these names hand to __ublksrv_ctrl_cmd, ublksrv_ctrl_get_affinity for
  -- one queue.
  abbrev get_affinity_data : CtrlInfo → ℕ → CmdData
  get_affinity_data info i =
      let path_len = if is_unprivileged info then path_max else 0 in
      record (plain 0x01) {
        has_buf = true;
        has_data = true;
        arg = i;
        dev_path_len = path_len;
        len = cpuset_size + path_len;
        addr = cpuset_of i (not (path_len == 0));
      }

  abbrev start_dev_data : CtrlInfo → ℕ → CmdData
  start_dev_data info pid =
      record (un_privileged_prep_data info (record (plain 0x06) { has_data = true })) { arg = pid }

  abbrev del_dev_data : CtrlInfo → CmdData
  del_dev_data info = un_privileged_prep_data info (plain 0x05)

  abbrev del_dev_async_data : CtrlInfo → CmdData
  del_dev_async_data info =
      un_privileged_prep_data info (record (plain u_cmd_del_dev_async) { no_trans = true })

  abbrev stop_dev_data : CtrlInfo → CmdData
  stop_dev_data info = un_privileged_prep_data info (plain 0x07)

  abbrev set_params_data : CtrlInfo → CmdData
  set_params_data info = params_data info 0x08

  abbrev get_params_data : CtrlInfo → CmdData
  get_params_data info = params_data info 0x09

  abbrev start_recovery_data : CtrlInfo → CmdData
  start_recovery_data info = un_privileged_prep_data info (plain 0x10)

  abbrev end_recovery_data : CtrlInfo → ℕ → CmdData
  end_recovery_data info pid =
      record (un_privileged_prep_data info (record (plain 0x11) { has_data = true })) { arg = pid }

  unfoldable pub data_of : CtrlInfo → Request → CmdData
  data_of info (get_affinity i) = get_affinity_data info i
  data_of info (start_dev pid) = start_dev_data info pid
  data_of info del_dev = del_dev_data info
  data_of info del_dev_async = del_dev_async_data info
  data_of info stop_dev = stop_dev_data info
  data_of info set_params = set_params_data info
  data_of info get_params = get_params_data info
  data_of info start_recovery = start_recovery_data info
  data_of info (end_recovery pid) = end_recovery_data info pid
  data_of info get_features = features_data

-- `dev_info` after it: the functions that take a process id store it.
abbrev pub info_after : CtrlInfo → Request → CtrlInfo
info_after info (start_dev pid) = record info { ublksrv_pid = pid }
info_after info (end_recovery pid) = record info { ublksrv_pid = pid }
info_after info (get_affinity i) = info
info_after info del_dev = info
info_after info del_dev_async = info
info_after info stop_dev = info
info_after info set_params = info
info_after info get_params = info
info_after info start_recovery = info
info_after info get_features = info

-- The command to send with CTRL_CMD_NO_TRANS and a buffer.
abbrev pub info_cmd : CtrlInfo → ℕ → CtrlCmd
info_cmd info op =
    if op % 2 ^ 8 == cmd_get_dev_info2
    then (record {
      op = op;
      dev_id = info.dev_id;
      addr = path_and_info;
      len = path_max + info_size;
      arg = 0;
      dev_path_len = path_max;
    })
    else (record {
      op = op;
      dev_id = info.dev_id;
      addr = dev_info;
      len = info_size;
      arg = 0;
      dev_path_len = 0;
    })
