-- ===== src/Tgt/Balance.antt =====
-- What is left behind when ublksrv_cmd_dev_add returns.
use s3blk.Base.{
  ℕ, suc, ◌-◌, Bool, true, false, not, ◌&&◌, ◌||◌, if◌then◌else◌, ◌==◌, List, [], ◌∷◌, ◌++◌, Option,
  some, ◌≡◌, refl, Bool-cases, inl, inr, has_bit, bit_or,
}
use s3blk.Base.Int.{ℤ, is_neg}
use s3blk.Tgt.{
  Action, ctrl_init, get_features, add_dev, start_daemon, del_dev, ctrl_deinit, send_no_device,
  Driver, f_zero_copy, f_auto_buf_reg, f_batch_io, is_nonzero, default_flags, add_and_start,
  check_features, cmd_dev_add,
}

-- Control devices that are open, devices that are there, failures that were announced, and how
-- often what was not there was closed or deleted.
pub record Left : Type 0 where
  pub controls : ℕ
  pub devices : ℕ
  pub failures : ℕ
  pub misuses : ℕ

abbrev after : Left → Action → Left
after l (ctrl_init flags ok) = if ok then (record l { controls = suc l.controls }) else l
after l get_features = l
after l (add_dev ret) = if is_neg ret then l else (record l { devices = suc l.devices })
after l (start_daemon ret) = l
after l (del_dev ret) =
    if l.devices == 0
    then (record l { misuses = suc l.misuses })
    else if is_neg ret
    then l
    else (record l { devices = l.devices - 1 })
after l ctrl_deinit =
    if l.controls == 0
    then (record l { misuses = suc l.misuses })
    else (record l { controls = l.controls - 1 })
after l send_no_device = record l { failures = suc l.failures }

abbrev pub left : Left → List Action → Left
left l [] = l
left l (a ∷ log) = left (after l a) log

abbrev pub nothing : Left
nothing = record { controls = 0; devices = 0; failures = 0; misuses = 0 }

-- The kernel does not say what it supports, or does not support what is asked for.
abbrev pub is_refused : Driver → ℕ → Bool
is_refused drv flags =
    is_neg drv.features_ret
    || ((has_bit flags f_zero_copy && not (has_bit drv.features f_zero_copy))
        || (has_bit flags f_batch_io && not (has_bit drv.features f_batch_io)))

-- It is asked, and that is the case.
abbrev pub unsupported : Driver → ℕ → Bool
unsupported drv flags =
    (has_bit flags f_zero_copy || has_bit flags f_batch_io) && is_refused drv flags

-- The driver adds the device, its daemon does not start, and the driver does not delete the device.
abbrev pub is_stranded : Driver → Bool
is_stranded drv = not (is_neg drv.add_ret) && (is_neg drv.start_ret && is_neg drv.del_ret)

-- How a run ends that was given up for lack of support (`early`), or whose device was stranded, or
-- any other: a device is there exactly if the result is no error or the device was stranded; a
-- control device is left open exactly if the run was given up; the failure of any run that was not
-- given up is announced once; and nothing is closed or deleted that is not there.
abbrev pub IsLeft : Bool → Bool → ℤ → Left → Type 0
IsLeft early stranded ret l =
    (l.devices ≡ (if is_neg ret && not stranded then 0 else 1))
    × (l.controls ≡ (if early then 1 else 0))
    × (l.failures ≡ (if is_neg ret && not early then 1 else 0))
    × (l.misuses ≡ 0)

pub data Balanced : Bool → Bool → Option (ℤ × List Action) → Type 0 where
  balanced :
      (early stranded : Bool) (ret : ℤ) (log : List Action)
      → IsLeft early stranded ret (left nothing log)
      → Balanced early stranded (some (ret, log))

left-append : (l : Left) (log log' : List Action) → left l (log ++ log') ≡ left (left l log) log'
left-append l [] log' = refl
left-append l (a ∷ log) log' = left-append (after l a) log log'

abbrev one_control : Left
one_control = record { controls = 1; devices = 0; failures = 0; misuses = 0 }

ended-Balanced :
    (stranded : Bool) (ret : ℤ) (log more : List Action)
    → left nothing log ≡ one_control
    → IsLeft false stranded ret (left one_control more)
    → Balanced false stranded (some (ret, log ++ more))
ended-Balanced stranded ret log more h e =
    balanced false stranded ret (log ++ more) (rw (left-append nothing log more, h) e)

add_and_start-Balanced :
    (drv : Driver) (log : List Action)
    → left nothing log ≡ one_control
    → Balanced false (is_stranded drv) (some (add_and_start drv log))
unfolding add_and_start
add_and_start-Balanced drv log h = elim (Bool-cases (is_neg drv.add_ret)) [
  | inl e ↦ simp e (ended-Balanced false _ log _ h (simp e (refl, refl, refl, refl)))
  | inr e ↦ elim (Bool-cases (is_neg drv.start_ret)) [
    | inr e' ↦ simp (e, e') (ended-Balanced false _ log _ h (simp e (refl, refl, refl, refl)))
    | inl e' ↦ elim (Bool-cases (is_neg drv.del_ret)) [
      | inl k ↦
          simp (e, e', k) (ended-Balanced true _ log _ h (simp (e, e', k) (refl, refl, refl, refl)))
      | inr k ↦
          simp (e, e', k)
            (ended-Balanced false _ log _ h (simp (e, e', k) (refl, refl, refl, refl)))
    ]
  ]
]

check_features-Balanced :
    (drv : Driver) (flags : ℕ)
    → is_nonzero drv.features_ret ≡ is_neg drv.features_ret
    → drv.init_again_ok ≡ true
    → let refused = is_refused drv flags in
      Balanced refused
        (not refused && is_stranded drv)
        (check_features drv flags (ctrl_init flags true ∷ []))
unfolding check_features
check_features-Balanced drv flags hf hi =
    let zc = has_bit flags f_zero_copy && not (has_bit drv.features f_zero_copy) in
    let batch = has_bit flags f_batch_io && not (has_bit drv.features f_batch_io) in
    elim (Bool-cases (is_neg drv.features_ret)) [
      | inl e ↦ simp (hf, e) (balanced true false _ _ (simp e (refl, refl, refl, refl)))
      | inr e ↦ elim (Bool-cases zc) [
        | inl e1 ↦ simp (hf, e, e1) (balanced true false _ _ (refl, refl, refl, refl))
        | inr e1 ↦ elim (Bool-cases batch) [
          | inl e2 ↦ simp (hf, e, e1, e2) (balanced true false _ _ (refl, refl, refl, refl))
          | inr e2 ↦
              elim (Bool-cases
                (has_bit flags f_zero_copy && not (has_bit drv.features f_auto_buf_reg))) [
                  | inl e3 ↦ simp (hf, e, e1, e2, e3, hi) (add_and_start-Balanced drv _ refl)
                  | inr e3 ↦ simp (hf, e, e1, e2, e3) (add_and_start-Balanced drv _ refl)
                ]
        ]
      ]
    ]

-- If the driver answers UBLK_CMD_GET_FEATURES with 0 or an error, and a control device can be
-- opened again after it was closed, then adding a device of the right type comes to an end with
-- the device there exactly if no error is returned, or if the daemon does not start and the driver
-- refuses to delete the device; no control device is open, nothing is closed or deleted that is not
-- there, and an error is announced once. But if the kernel does not say what it supports, or does
-- not support the zero copy or the batch mode asked for, a control device stays open and nothing is
-- announced.
pub cmd_dev_add-Balanced :
    (drv : Driver) (data_flags tgt_flags : ℕ)
    → is_nonzero drv.features_ret ≡ is_neg drv.features_ret
    → drv.init_again_ok ≡ true
    → let flags = default_flags (bit_or data_flags tgt_flags) in
      let early = drv.init_ok && unsupported drv flags in
      Balanced early
        (drv.init_ok && (not early && is_stranded drv))
        (cmd_dev_add drv false data_flags tgt_flags)
unfolding cmd_dev_add
cmd_dev_add-Balanced drv data_flags tgt_flags hf hi =
    let flags = default_flags (bit_or data_flags tgt_flags) in
    elim (Bool-cases drv.init_ok) [
      | inr e ↦ simp e (balanced false false _ _ (refl, refl, refl, refl))
      | inl e ↦ elim (Bool-cases (has_bit flags f_zero_copy || has_bit flags f_batch_io)) [
        | inl e1 ↦ simp (e, e1) (check_features-Balanced drv flags hf hi)
        | inr e1 ↦ simp (e, e1) (add_and_start-Balanced drv _ refl)
      ]
    ]
