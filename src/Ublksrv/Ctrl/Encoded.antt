-- ===== src/Ublksrv/Ctrl/Encoded.antt =====
-- What the driver gets for a request.
use s3blk.Base.{
  ℕ, ◌+◌, ◌*◌, ◌^◌, ◌%◌, ◌≡◌, ◌⊎◌, inl, inr, refl, arith, Bool, true, false, not, ◌&&◌, leb,
  if◌then◌else◌, Bool-cases, none, some, u16, has_bit,
}
use s3blk.Ublksrv.Ctrl.{
  CtrlInfo, Buf, no_buf, dev_info, params, features, dev_path, path_and_info, path_and_params,
  cpuset_of, CmdData, CtrlCmd, path_max, ctrl_cmd_op, legacy_op_to_ioctl, is_unprivileged,
  ctrl_init_cmd, Request, get_affinity, start_dev, del_dev, del_dev_async, stop_dev, set_params,
  features_data, get_params, start_recovery, end_recovery, get_features, data_of,
}
use s3blk.Ublksrv.Ctrl.Exchange.{affinity_stored, get_queue_affinity}

-- The number of a request's command.
abbrev pub number : Request → ℕ
number (get_affinity i) = 0x01
number (start_dev pid) = 0x06
number del_dev = 0x05
number del_dev_async = 0x14
number stop_dev = 0x07
number set_params = 0x08
number get_params = 0x09
number start_recovery = 0x10
number (end_recovery pid) = 0x11
number get_features = 0x13

-- Whether the path of the device stands in the buffer.
abbrev pub has_path : Buf → Bool
has_path dev_path = true
has_path path_and_info = true
has_path path_and_params = true
has_path (cpuset_of i path) = path
has_path no_buf = false
has_path dev_info = false
has_path params = false
has_path features = false

abbrev made : CtrlInfo → CmdData → CtrlCmd
made info d = record {
  op = if not d.no_trans && has_bit info.flags 6 then ctrl_cmd_op d.cmd_op else d.cmd_op;
  dev_id = info.dev_id;
  addr = if d.has_buf then d.addr else no_buf;
  len = if d.has_buf then u16 d.len else 0;
  arg = if d.has_data then d.arg else 0;
  dev_path_len = if d.has_data then d.dev_path_len else 0;
}

ctrl_init_cmd-made :
    (info : CtrlInfo) (d : CmdData)
    → (d.no_trans ≡ true) ⊎ ((leb 0x01 d.cmd_op && leb d.cmd_op 0x12) ≡ true)
    → ctrl_init_cmd info d ≡ some (made info d)
unfolding ctrl_init_cmd legacy_op_to_ioctl
ctrl_init_cmd-made info d (inl e) = rw e refl
ctrl_init_cmd-made info d (inr e) = elim (Bool-cases (not d.no_trans && has_bit info.flags 6)) [
  | inl f ↦ rw (f, e, ctrl_init_cmd) refl
  | inr f ↦ rw (f, ctrl_init_cmd) refl
]

-- The request that is no device's.
abbrev pub is_features : Request → Bool
is_features get_features = true
is_features (get_affinity i) = false
is_features (start_dev pid) = false
is_features del_dev = false
is_features del_dev_async = false
is_features stop_dev = false
is_features set_params = false
is_features get_params = false
is_features start_recovery = false
is_features (end_recovery pid) = false

-- The command that the driver gets for a request.
abbrev pub IsAsked : CtrlInfo → Request → CtrlCmd → Type 0
IsAsked info r c =
    (c.dev_id ≡ info.dev_id)
    × (c.op % 2 ^ 8 ≡ number r)
    × (is_unprivileged info && not (is_features r) ≡ true
        → (c.dev_path_len ≡ path_max) × (has_path c.addr ≡ true))

data_of-IsAsked :
    (params_size cpuset_size : ℕ) (info : CtrlInfo) (r : Request)
    → is_features r ≡ false
    → IsAsked info r (made info (data_of params_size cpuset_size info r))
unfolding data_of
data_of-IsAsked ps cs info (get_affinity i) h = (refl, ground arith, ground arith)
data_of-IsAsked ps cs info (start_dev pid) h = (refl, ground arith, ground arith)
data_of-IsAsked ps cs info del_dev h = (refl, ground arith, ground arith)
data_of-IsAsked ps cs info del_dev_async h = (refl, ground arith, ground arith)
data_of-IsAsked ps cs info stop_dev h = (refl, ground arith, ground arith)
data_of-IsAsked ps cs info set_params h = (refl, ground arith, ground arith)
data_of-IsAsked ps cs info get_params h = (refl, ground arith, ground arith)
data_of-IsAsked ps cs info start_recovery h = (refl, ground arith, ground arith)
data_of-IsAsked ps cs info (end_recovery pid) h = (refl, ground arith, ground arith)
data_of-IsAsked ps cs info get_features h = absurd (cc)

-- A request of a device has a number that legacy_op_to_ioctl knows, or is not translated.
data_of-known :
    (params_size cpuset_size : ℕ) (info : CtrlInfo) (r : Request)
    → is_features r ≡ false
    → let d = data_of params_size cpuset_size info r in
      (d.no_trans ≡ true) ⊎ ((leb 0x01 d.cmd_op && leb d.cmd_op 0x12) ≡ true)
unfolding data_of
data_of-known ps cs info (get_affinity i) h = ground arith
data_of-known ps cs info (start_dev pid) h = ground arith
data_of-known ps cs info del_dev h = ground arith
data_of-known ps cs info del_dev_async h = ground arith
data_of-known ps cs info stop_dev h = ground arith
data_of-known ps cs info set_params h = ground arith
data_of-known ps cs info get_params h = ground arith
data_of-known ps cs info start_recovery h = ground arith
data_of-known ps cs info (end_recovery pid) h = ground arith
data_of-known ps cs info get_features h = absurd (cc)

features_stuck :
    (info : CtrlInfo) → has_bit info.flags 6 ≡ true → ctrl_init_cmd info features_data ≡ none
unfolding legacy_op_to_ioctl ctrl_init_cmd
features_stuck info e = rw (e, ctrl_init_cmd) refl

features_made :
    (info : CtrlInfo)
    → has_bit info.flags 6 ≡ false
    → ctrl_init_cmd info features_data ≡ some (made info features_data)
unfolding ctrl_init_cmd
features_made info e = rw (e, ctrl_init_cmd) refl

features-IsAsked :
    (info : CtrlInfo)
    → has_bit info.flags 6 ≡ false
    → IsAsked info get_features (made info features_data)
features-IsAsked info e = (refl, rw e refl, λ h. absurd (ground (arith, h)))

is_features_lem : (r : Request) → is_features r ≡ true → r ≡ get_features
is_features_lem get_features h = refl
is_features_lem (get_affinity i) h = absurd (cc)
is_features_lem (start_dev pid) h = absurd (cc)
is_features_lem del_dev h = absurd (cc)
is_features_lem del_dev_async h = absurd (cc)
is_features_lem stop_dev h = absurd (cc)
is_features_lem set_params h = absurd (cc)
is_features_lem get_params h = absurd (cc)
is_features_lem start_recovery h = absurd (cc)
is_features_lem (end_recovery pid) h = absurd (cc)

-- If UBLK_F_CMD_IOCTL_ENCODE is set, ublksrv_ctrl_get_features fails an assertion. In every other
-- case, whatever the flags, a request becomes a command: it is for the device and has the request's
-- number, and that of an unprivileged device, unless it asks for the features, has the device's
-- path in its buffer, with the path's length.
pub ctrl_init_cmd-data_of :
    (params_size cpuset_size : ℕ) (info : CtrlInfo) (r : Request)
    → let sent = ctrl_init_cmd info (data_of params_size cpuset_size info r) in
      let stuck = has_bit info.flags 6 && is_features r in
      ((stuck ≡ true) × (sent ≡ none))
      ⊎ ((stuck ≡ false) × ((c : CtrlCmd) × (sent ≡ some c) × IsAsked info r c))
unfolding data_of
ctrl_init_cmd-data_of params_size cpuset_size info r = elim (Bool-cases (is_features r)) [
  | inr other ↦
      let d = data_of params_size cpuset_size info r in
      let known = data_of-known params_size cpuset_size info r other in
      inr (
        ground (arith, other),
        (
          made info d,
          ctrl_init_cmd-made info d known,
          data_of-IsAsked params_size cpuset_size info r other,
        ),
      )
  | inl this ↦ rw (is_features_lem r this) (elim (Bool-cases (has_bit info.flags 6)) [
    | inl e ↦ inl (rw e refl, features_stuck info e)
    | inr e ↦
        inr (rw e refl, (made info features_data, features_made info e, features-IsAsked info e))
  ])
]

-- A queue's CPU set is looked for where the driver was told to put it exactly if the device is
-- privileged or the queue is the first.
pub get_queue_affinity-affinity_stored :
    (info : CtrlInfo) (cpuset_size i : ℕ)
    → ((get_queue_affinity info cpuset_size i ≡ affinity_stored info cpuset_size i)
        → (is_unprivileged info ≡ false) ⊎ (i ≡ 0))
      × ((is_unprivileged info ≡ false) ⊎ (i ≡ 0)
          → get_queue_affinity info cpuset_size i ≡ affinity_stored info cpuset_size i)
get_queue_affinity-affinity_stored info cpuset_size i = elim (Bool-cases (is_unprivileged info)) [
  | inr e ↦ rw e ((λ h. inl refl), (λ h. omega arith))
  | inl e ↦ rw e (
    (λ h. inr (first i cpuset_size h)),
    (λ h. elim h [ inl f ↦ absurd (cc) | inr f ↦ rw f (omega arith) ]),
  )
]
  where
    first : (i c : ℕ) → i * c + path_max ≡ i * (c + path_max) + path_max → i ≡ 0
    first i c h = omega (arith, h)
