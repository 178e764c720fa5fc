-- ===== src/Loop/Complete.antt =====
-- How the completions of a request's entries become its result.
use s3blk.Base.{
  ◌==◌, ◌||◌, ◌+◌, ℕ, suc, ◌≡◌, ◌≢◌, inl, inr, refl, ap, ◌∙◌, arith, Bool, true, false, not, ◌&&◌,
  if◌then◌else◌, Bool-cases, List, [], ◌∷◌, ◌++◌, length,
}
use s3blk.Base.Int.{ℤ, pos, is_neg, is_errno, einval}
use s3blk.Ublk.{
  IoDesc, get_op, user_data_to_op, op_read, op_write, op_flush, op_discard, op_write_zeroes,
}
use s3blk.Loop.{
  LoopTgtData, Cqe, is_ublk_io_cmd, process_cqe, Job, waiting, again, reported, ended, await,
  resume, queue_tgt_io, start_io, Sqe, queue_tgt_rw, lo_rw, lo_rw_zero_copy, lo_rw_user_copy,
  handle_flush, handle_discard,
}

-- The coroutine with the completions that come, in their order.
abbrev pub run : Job → List Cqe → Job
run j [] = j
run j (c ∷ r) = run (resume j c) r

-- The result so far, after one more completion.
abbrev pub merge : Cqe → ℤ → ℤ
merge cqe io_res =
    let r = process_cqe cqe io_res in if is_neg cqe.res && not (is_neg r) then cqe.res else r

resume-waiting : (n : ℕ) (r : ℤ) (c : Cqe) → resume (waiting (suc n) r) c ≡ await n (merge c r)
unfolding resume
resume-waiting n r c = refl

abbrev pub is_own : Cqe → Bool
is_own c = is_ublk_io_cmd (user_data_to_op c.user_data)

merge-own : (c : Cqe) (r : ℤ) → is_own c ≡ true → merge c r ≡ c.res
unfolding process_cqe
merge-own c r h =
    rw (h, process_cqe) (elim (Bool-cases (is_neg c.res)) [ inl e ↦ rw e refl | inr e ↦ rw e refl ])

merge-helper :
    (c : Cqe) (r : ℤ)
    → is_own c ≡ false
    → merge c r ≡ (if is_neg c.res && not (is_neg r) then c.res else r)
unfolding process_cqe
merge-helper c r h = rw (h, process_cqe) refl

-- Completions of helper entries alone: the copy to or from the ublk device, or the end of a
-- buffer's registration.
abbrev pub AllHelpers : List Cqe → Type 0
AllHelpers [] = Unit
AllHelpers (c ∷ r) = (is_own c ≡ false) × AllHelpers r

-- The result of an io whose own completion says `own`, before those of the given helper entries:
-- the first error among them all, or else its own.
abbrev pub first_error : ℤ → List Cqe → ℤ
first_error own [] = own
first_error own (c ∷ r) =
    if is_neg own then own else if is_neg c.res then c.res else first_error own r

-- `k` more than the completions of a list.
abbrev and_more : List Cqe → ℕ → ℕ
and_more [] k = k
and_more (c ∷ r) k = suc (and_more r k)

first_error-error : (r : ℤ) (l : List Cqe) → is_neg r ≡ true → first_error r l ≡ r
first_error-error r [] h = refl
first_error-error r (c ∷ l) h = rw h refl

run-behind :
    (r : ℤ) (l : List Cqe)
    → AllHelpers l
    → run (await (and_more l 0) r) l ≡ await 0 (first_error r l)
run-behind r [] h = refl
run-behind r (c ∷ l) (hc, hl) =
    rw (resume-waiting (and_more l 0) r c, merge-helper c r hc)
      (elim (Bool-cases (is_neg r)) [
        | inl e ↦
            let kept : (is_neg c.res && not (is_neg r)) ≡ false = ground (arith, e) in
            rw (kept, e) (run-behind r l hl ∙ ap (await 0) (first_error-error r l e))
        | inr e ↦ rw e (elim (Bool-cases (is_neg c.res)) [
          | inl n ↦ rw n (run-behind c.res l hl ∙ ap (await 0) (first_error-error c.res l n))
          | inr n ↦ rw n (run-behind r l hl)
        ])
      ])

await-and_more :
    (l : List Cqe) (k : ℕ) (r : ℤ) → await (and_more l (suc k)) r ≡ waiting (and_more l (suc k)) r
await-and_more [] k r = refl
await-and_more (c ∷ l) k r = refl

and_more-length : (l : List Cqe) (k : ℕ) → and_more l k ≡ length l + k
and_more-length [] k = omega arith
and_more-length (c ∷ l) k = omega (arith, and_more-length l k)

run-before :
    (k : ℕ) (r : ℤ) (l more : List Cqe)
    → AllHelpers l
    → (r' : ℤ) × (run (waiting (and_more l (suc k)) r) (l ++ more) ≡ run (waiting (suc k) r') more)
run-before k r [] more h = (r, refl)
run-before k r (c ∷ l) more (hc, hl) =
    let on = resume-waiting (and_more l (suc k)) r c ∙ await-and_more l k (merge c r) in
    let rest = run-before k (merge c r) l more hl in
    (rest.0, ap (λ j. run j (l ++ more)) on ∙ rest.1)

-- What is left to do after the completions of helper entries, from a result so far on.
run-own :
    (r : ℤ) (own : Cqe) (behind : List Cqe)
    → is_own own ≡ true
    → AllHelpers behind
    → run (waiting (suc (and_more behind 0)) r) (own ∷ behind)
      ≡ await 0 (first_error own.res behind)
run-own r own behind ho hb =
    rw (resume-waiting (and_more behind 0) r own, merge-own own r ho) (run-behind own.res behind hb)

-- The entries that post a completion when they succeed.
abbrev pub posting : List Sqe → ℕ
posting [] = 0
posting (s ∷ r) = if s.skip_success then posting r else suc (posting r)

abbrev pub is_served : ℕ → Bool
is_served op =
    (op == op_flush)
    || ((op == op_write_zeroes || op == op_discard) || (op == op_read || op == op_write))

start_io-posting :
    (q_id : ℕ) (d : LoopTgtData) (iod : IoDesc) (tag : ℕ)
    → is_served (get_op iod) ≡ true
    → let (job, sqes) = start_io q_id d iod tag in job ≡ waiting (posting sqes) (pos 0)
unfolding start_io queue_tgt_io queue_tgt_rw lo_rw lo_rw_zero_copy lo_rw_user_copy handle_flush
    handle_discard
start_io-posting q_id d iod tag h = ground arith

-- If an operation that the target knows gets as many completions as its entries post when they
-- succeed, its own among those of the helper entries, then the coroutine ends with the last of
-- them, and not before: with its own error, or else the first error of a helper that comes behind,
-- or else its own result. It starts again if that is -EAGAIN, and reports anything else.
pub start_io-first_error :
    (q_id : ℕ) (d : LoopTgtData) (iod : IoDesc) (tag : ℕ) (before : List Cqe) (own : Cqe)
    (behind : List Cqe)
    → is_served (get_op iod) ≡ true
    → AllHelpers before
    → is_own own ≡ true
    → AllHelpers behind
    → let (job, sqes) = start_io q_id d iod tag in
      length before + suc (length behind) ≡ posting sqes
      → let result = first_error own.res behind in
        run job (before ++ own ∷ behind) ≡ (if is_errno 11 result then again else reported result)
start_io-first_error q_id d iod tag before own behind hs hb ho ha hn =
    let n : posting (start_io q_id d iod tag).1 ≡ and_more before (suc (and_more behind 0)) =
      omega
        (arith, hn, and_more-length before (suc (and_more behind 0)), and_more-length behind 0) in
    let first = run-before (and_more behind 0) (pos 0) before (own ∷ behind) hb in
    rw (start_io-posting q_id d iod tag hs, n) (first.1 ∙ run-own first.0 own behind ho ha)

unknown_op :
    (q_id : ℕ) (d : LoopTgtData) (iod : IoDesc) (tag : ℕ)
    → get_op iod ≢ op_read
    → get_op iod ≢ op_write
    → get_op iod ≢ op_flush
    → get_op iod ≢ op_discard
    → get_op iod ≢ op_write_zeroes
    → queue_tgt_io q_id d iod tag ≡ (einval, [])
unfolding queue_tgt_io
unknown_op q_id d iod tag r w f c z = ground arith

-- An operation that the target does not know queues nothing, and its job ends without a result.
pub start_io-unknown :
    (q_id : ℕ) (d : LoopTgtData) (iod : IoDesc) (tag : ℕ)
    → get_op iod ≢ op_read
    → get_op iod ≢ op_write
    → get_op iod ≢ op_flush
    → get_op iod ≢ op_discard
    → get_op iod ≢ op_write_zeroes
    → start_io q_id d iod tag ≡ (ended, [])
unfolding start_io
start_io-unknown q_id d iod tag r w f c z = rw (unknown_op q_id d iod tag r w f c z, start_io) refl
