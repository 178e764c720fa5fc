-- ===== src/Nbd/Recv/Job/Ends.antt =====
-- The receiving coroutine stops, and what it has done then.
use s3blk.Base.{
  ℕ, zero, suc, ◌^◌, ◌<◌, ◌≤◌, ◌≡◌, inl, inr, refl, ◌∙◌, arith, Bool, true, false, Bool-cases,
}
use s3blk.Base.Int.{ℤ, is_errno}
use s3blk.Nbd.Send.{Env, QueueData}
use s3blk.Nbd.Recv.Job.{
  Net, Point, at_loop, read_reply, handle_recv, read_io, handle_read_io, waits_reply, waits_data,
  ended, gave_up, Receiver, advance, run, enough, is_running, calls_after, start_recv_job,
  resume_recv_job, woken,
}
use s3blk.Nbd.Recv.Job.Moves.{Known, Fits, measure, ledger, Still, step-Moved}

-- How the coroutine stands when it no longer runs.
abbrev pub Stopped : QueueData → Receiver → Type 0
Stopped q r =
    (is_running r.point ≡ false)
    × Fits r.point r.queue
    × (ledger r.queue ≡ ledger q)
    × (r.queue.in_flight_ios ≤ q.in_flight_ios)
    × Still q r.queue

run_still :
    (n : ℕ) (env : Env) (net : Net) (r : Receiver)
    → is_running r.point ≡ false
    → run n env net r ≡ r
unfolding run
run_still zero env net r h = refl
run_still (suc n) env net r h = rw h refl

run-Stopped :
    (n : ℕ) (env : Env) (net : Net) (r : Receiver)
    → Known env
    → r.queue.in_flight_ios < 2 ^ 16
    → Fits r.point r.queue
    → measure r.point r.queue < n
    → Stopped r.queue (run n env net r)
unfolding run
run-Stopped zero env net r known small fits h = absurd (omega (arith, h))
run-Stopped (suc n) env net r known small fits h = elim (Bool-cases (is_running r.point)) [
  | inr e ↦ rw e (e, fits, refl, omega arith, (refl, refl, refl))
  | inl e ↦
      let next = advance env net r in
      let m = step-Moved env net (calls_after r.point r.calls) r.point r.queue known small e fits in
      elim (Bool-cases (is_running next.point)) [
        | inl on ↦
            let s =
              run-Stopped n env net next known (omega (arith, m.3, small)) m.0
                (omega (arith, m.1 on, h)) in
            rw e (
              s.0,
              s.1,
              s.2 ∙ m.2,
              omega (arith, s.3, m.3),
              (s.4.0 ∙ m.4.0, s.4.1 ∙ m.4.1, s.4.2 ∙ m.4.2),
            )
        | inr off ↦ rw (e, run_still n env net next off) (off, m.0, m.2, m.3, m.4)
      ]
]

-- If every io is one that NBD knows and fewer than 2^16 are in flight, the receiving coroutine
-- stops after it is started: it waits with an entry of its own as the last on the ring and ios in
-- flight, or ends for an error, or ends because no io is in flight, or an assertion has failed. It
-- has completed as many ios as there are fewer in flight.
pub start_recv_job-Stopped :
    (env : Env) (net : Net) (r : Receiver)
    → Known env
    → r.queue.in_flight_ios < 2 ^ 16
    → Stopped r.queue (start_recv_job env net r)
unfolding start_recv_job
start_recv_job-Stopped env net r known small =
    let q : QueueData = record r.queue { recv_started = true } in
    run-Stopped (enough q) env net (record r { point = at_loop; queue = q }) known small refl
      (omega arith)

-- Whether the coroutine is suspended.
abbrev pub is_waiting : Point → Bool
is_waiting waits_reply = true
is_waiting (waits_data tag) = true
is_waiting at_loop = false
is_waiting read_reply = false
is_waiting (handle_recv res) = false
is_waiting (read_io tag) = false
is_waiting (handle_read_io tag res) = false
is_waiting (ended res) = false
is_waiting gave_up = false

woken-Fits :
    (p : Point) (q : QueueData) (res : ℤ)
    → is_waiting p ≡ true
    → q.recv_started ≡ true
    → 0 < q.in_flight_ios
    → Fits (woken p res) q × (measure (woken p res) q < enough q)
woken-Fits waits_reply q res w started busy = elim (Bool-cases (is_errno 11 res)) [
  | inl e ↦ rw e ((started, busy), omega arith)
  | inr e ↦ rw e ((started, busy), omega arith)
]
woken-Fits (waits_data tag) q res w started busy = elim (Bool-cases (is_errno 11 res)) [
  | inl e ↦ rw e ((started, busy), omega arith)
  | inr e ↦ simp e ((started, busy, refl), omega arith)
]
woken-Fits at_loop q res w started busy = absurd (cc)
woken-Fits read_reply q res w started busy = absurd (cc)
woken-Fits (handle_recv r) q res w started busy = absurd (cc)
woken-Fits (read_io tag) q res w started busy = absurd (cc)
woken-Fits (handle_read_io tag r) q res w started busy = absurd (cc)
woken-Fits (ended r) q res w started busy = absurd (cc)
woken-Fits gave_up q res w started busy = absurd (cc)

-- So it does when it is resumed while ios are in flight.
pub resume_recv_job-Stopped :
    (env : Env) (net : Net) (r : Receiver) (res : ℤ)
    → Known env
    → is_waiting r.point ≡ true
    → r.queue.recv_started ≡ true
    → 0 < r.queue.in_flight_ios
    → r.queue.in_flight_ios < 2 ^ 16
    → Stopped r.queue (resume_recv_job env net r res)
unfolding resume_recv_job
resume_recv_job-Stopped env net r res known w started busy small =
    let f = woken-Fits r.point r.queue res w started busy in
    run-Stopped (enough r.queue) env net (record r { point = woken r.point res }) known small f.0
      f.1
