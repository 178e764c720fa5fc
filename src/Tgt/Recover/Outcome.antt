-- ===== src/Tgt/Recover/Outcome.antt =====
-- How the start of a recovery ends.
use s3blk.Base.{ℕ, zero, suc, ◌+◌, ◌≤◌, ◌<◌, Bool, true, false, not, ◌&&◌, none, ◌≡◌, subst, arith}
use s3blk.Base.Int.{ℤ, is_neg, is_errno}
use s3blk.Tgt.Recover.{
  Recovery, Run, rounds, start_recovery_loop, read_and_start, cmd_dev_user_recover,
}

loop_tries :
    (start_ret : ℕ → ℤ) (i n : ℕ)
    → let (refused, tries) = start_recovery_loop start_ret i n in tries ≤ n
unfolding start_recovery_loop
loop_tries start_ret i zero = ground arith
loop_tries start_ret i (suc n) = ground (arith, loop_tries start_ret (suc i) n)

-- An error other than -EBUSY.
abbrev pub is_refusal : ℤ → Bool
is_refusal ret = is_neg ret && not (is_errno 16 ret)

loop_refusals :
    (start_ret : ℕ → ℤ) (i n : ℕ)
    → let (refused, tries) = start_recovery_loop start_ret i n in
      refused ≡ none → (k : ℕ) → k < tries → is_refusal (start_ret (i + k)) ≡ false
unfolding start_recovery_loop
loop_refusals start_ret i zero e k h = absurd (omega arith)
loop_refusals start_ret i (suc n) e zero h = ground arith
loop_refusals start_ret i (suc n) e (suc k) h =
    let (refused, tries) = start_recovery_loop start_ret (suc i) n in
    let next : suc i + k ≡ i + suc k = omega arith in
    let later : refused ≡ none → k < tries → is_refusal (start_ret (i + suc k)) ≡ false = λ e' h'.
      subst (λ j. is_refusal (start_ret j) ≡ false) next
        (loop_refusals start_ret (suc i) n e' k h') in
    ground (arith, later)

-- What has gone well when the daemon is started.
abbrev pub IsReady : Recovery → ℕ → Run → Type 0
IsReady r number run =
    (r.init_ok ≡ true)
    × (is_neg r.info_ret ≡ false)
    × ((i : ℕ) → i < run.tries → is_refusal (r.start_ret i) ≡ false)
    × (r.has_data ≡ true)
    × (is_neg r.dev_info_ret ≡ false)
    × (r.dev_id ≡ number)
    × (is_neg r.base_info_ret ≡ false)

-- A recovery is asked for at most 300 times. However it goes, no control device stays open, and it
-- is announced once that there is no device, even if the daemon was started; and the daemon is
-- started only if everything before has gone well, with no error from the driver but -EBUSY and
-- with the stored data that of the device.
pub cmd_dev_user_recover-IsReady :
    (r : Recovery) (number : ℕ)
    → let run = cmd_dev_user_recover r number in
      (run.tries ≤ rounds)
      × (run.controls ≡ 0)
      × (run.failures ≡ 1)
      × (run.daemon ≡ true → IsReady r number run)
unfolding cmd_dev_user_recover read_and_start
cmd_dev_user_recover-IsReady r number =
    ground (arith, loop_tries r.start_ret 0 rounds, loop_refusals r.start_ret 0 rounds)
