-- ===== src/Ublksrv/Ctrl/Info.antt =====
-- How the information about a device is asked for.
use s3blk.Base.{◌≡◌, arith, if◌then◌else◌, List, [], ◌∷◌}
use s3blk.Base.Int.{ℤ, is_neg}
use s3blk.Ublksrv.Ctrl.{
  CtrlInfo, CtrlCmd, cmd_get_dev_info, cmd_get_dev_info2, ioctl_nr, is_unprivileged, info_cmd,
}
use s3blk.Ublksrv.Ctrl.Exchange.{send, get_info_no_trans, get_info_of, get_info}

module _ (driver : List CtrlCmd → CtrlCmd → ℤ) where
  -- The reference: command after command until one succeeds; the last error if none does.
  unfoldable pub first_accepted : CtrlCmd → List CtrlCmd → List CtrlCmd → ℤ × List CtrlCmd
  first_accepted c [] sent = send driver c sent
  first_accepted c (c' ∷ cs) sent =
      let (ret, sent1) = send driver c sent in
      let rest = first_accepted c' cs sent1 in if is_neg ret then rest else (ret, sent1)

  -- ublksrv_ctrl_get_info asks with the command that takes a path, first as an ioctl and then by
  -- its old number, and then, unless the device is unprivileged, with the command that takes none,
  -- in the same way; it stops at the first that the driver accepts.
  pub get_info-first_accepted :
      (info : CtrlInfo) (sent : List CtrlCmd)
      → let cmd = info_cmd info in
        let simple = cmd (ioctl_nr 2 cmd_get_dev_info) ∷ cmd cmd_get_dev_info ∷ [] in
        get_info driver info sent
        ≡ first_accepted
            (cmd (ioctl_nr 2 cmd_get_dev_info2))
            (cmd cmd_get_dev_info2 ∷ (if is_unprivileged info then [] else simple))
            sent
  unfolding get_info get_info_of get_info_no_trans first_accepted
  get_info-first_accepted info sent = ground arith
