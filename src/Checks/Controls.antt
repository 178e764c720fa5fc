-- ===== src/Checks/Controls.antt =====
-- Control commands for a device with ioctl encodings that is not privileged.
use s3blk.Base.{◌≡◌, true, false, if◌then◌else◌, List, [], ◌∷◌, some, none, has_bit, ◌&&◌, ◌⊎◌}
use s3blk.Base.Int.{ℤ, einval}
use s3blk.Ublksrv.Ctrl.{
  CtrlInfo, CtrlCmd, ctrl_init_cmd, data_of, start_dev, is_unprivileged, info_cmd, ioctl_nr,
  cmd_get_dev_info, cmd_get_dev_info2,
}
use s3blk.Ublksrv.Ctrl.Exchange.{get_info}
use s3blk.Ublksrv.Ctrl.Encoded.{IsAsked, is_features, ctrl_init_cmd-data_of}
use s3blk.Ublksrv.Ctrl.Info.{first_accepted, get_info-first_accepted}

abbrev device : CtrlInfo
device = record { dev_id = 3; nr_hw_queues = 2; flags = 0x60; ublksrv_pid = 0 }

abbrev refuses : List CtrlCmd → CtrlCmd → ℤ
refuses sent c = einval

ctrl_init_cmd-data_of_example :
    let sent = ctrl_init_cmd device (data_of 120 128 device (start_dev 77)) in
    let stuck = has_bit device.flags 6 && is_features (start_dev 77) in
    ((stuck ≡ true) × (sent ≡ none))
    ⊎ ((stuck ≡ false) × ((c : CtrlCmd) × (sent ≡ some c) × IsAsked device (start_dev 77) c))
ctrl_init_cmd-data_of_example = ctrl_init_cmd-data_of 120 128 device (start_dev 77)

get_info-first_accepted_example :
    let simple =
      info_cmd device (ioctl_nr 2 cmd_get_dev_info) ∷ info_cmd device cmd_get_dev_info ∷ [] in
    get_info refuses device []
    ≡ first_accepted refuses
        (info_cmd device (ioctl_nr 2 cmd_get_dev_info2))
        (info_cmd device cmd_get_dev_info2 ∷ (if is_unprivileged device then [] else simple))
        []
get_info-first_accepted_example = get_info-first_accepted refuses device []
