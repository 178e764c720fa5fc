-- ===== src/Nvme/Control.antt =====
-- nvme_init_controller and nvme_shutdown_controller of targets/nvme/ublk.nvme_vfio.cpp. A register
-- that is polled is a function of the rounds that are left.
pub mod Order
use s3blk.Base.{
  ℕ, zero, suc, ◌+◌, ◌-◌, ◌*◌, ◌/◌, ◌^◌, Bool, true, false, not, ◌==◌, if◌then◌else◌, List, [], ◌∷◌,
  ◌++◌, has_bit, low_bits, ◌>>◌, u32, bit_or,
}
use s3blk.Base.Int.{ℤ, pos, minus, is_neg}
use s3blk.Nvme.Types.{TgtData, Queue, IoasCall}
use s3blk.Nvme.Admin.{AdminRegs, create_admin_queue}

-- A write to a register: CC, or AQA, ASQ and ACQ together.
pub data RegWrite : Type 0 where
  write_cc : ℕ → RegWrite
  write_admin : AdminRegs → RegWrite

-- `cc & ~NVME_CC_ENABLE`
abbrev pub disabled : ℕ → ℕ
disabled cc = if has_bit cc 0 then cc - 1 else cc

-- NVME_CC_ENABLE | NVME_CC_CSS_NVM | NVME_CC_MPS_4K | NVME_CC_IOSQES | NVME_CC_IOCQES
abbrev pub cc_enabled : ℕ
cc_enabled = 0x460001

-- `csts & NVME_CSTS_RDY`
abbrev pub is_ready : ℕ → Bool
is_ready csts = has_bit csts 0

abbrev pub agrees : Bool → Bool → Bool
agrees true b = b
agrees false b = not b

-- `do { … } while (timeout-- > 0)` with `timeout` rounds left, and the test `timeout <= 0` behind
-- it: the wait for CSTS.RDY to be `want`. What is seen with no round left does not count.
unfoldable pub wait_ready : Bool → ℕ → (ℕ → ℕ) → Bool
wait_ready want zero csts = false
wait_ready want (suc timeout) csts =
    let rest = wait_ready want timeout csts in
    if agrees want (is_ready (csts (suc timeout))) then true else rest

-- What the controller shows: CC at first, and CSTS while it is disabled and while it is enabled.
pub record Seen : Type 0 where
  pub cc : ℕ
  pub disabling : ℕ → ℕ
  pub enabling : ℕ → ℕ

-- nvme_init_controller: its result, the admin queue, the target's data and the writes to registers
-- in their order.
unfoldable pub init_controller :
    (List IoasCall → IoasCall → Bool)
    → TgtData
    → Queue
    → AdminRegs
    → Seen
    → ℤ × Queue × TgtData × List RegWrite
init_controller map_ok d admin regs seen =
    let off = write_cc (disabled seen.cc) in
    let (ret, admin1, d1, regs1) = create_admin_queue map_ok d admin regs in
    let on = write_admin regs1 ∷ write_cc cc_enabled ∷ [] in
    if not (wait_ready false 5000 seen.disabling)
    then (minus 1, admin, d, off ∷ [])
    else if is_neg ret
    then (minus 1, admin1, d1, off ∷ [])
    else if wait_ready true 5000 seen.enabling
    then (pos 0, admin1, d1, off ∷ on)
    else (minus 1, admin1, d1, off ∷ on)

-- nvme_shutdown_controller with BAR0 mapped: its writes to registers. Its two waits only pass time.
unfoldable pub shutdown_controller : ℕ → List RegWrite
shutdown_controller cc =
    let asked = bit_or cc (2 ^ 14) in write_cc asked ∷ write_cc (disabled asked) ∷ []
