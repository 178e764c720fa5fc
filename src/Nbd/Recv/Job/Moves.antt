-- ===== src/Nbd/Recv/Job/Moves.antt =====
-- One step of the receiving coroutine.
use s3blk.Base.{
  ℕ, ◌+◌, ◌-◌, ◌*◌, ◌^◌, ◌<◌, ◌≤◌, ◌≡◌, ◌⊎◌, inl, inr, refl, sym, ap₂, ◌∙◌, subst, arith, Bool,
  true, false, ltb, ◌==◌, if◌then◌else◌, Bool-cases, List, [], ◌∷◌, ◌++◌, length, length-append,
  some, sub16,
}
use s3blk.Base.Int.{ℤ, pos, enomem, is_neg, is_errno}
use s3blk.Ublk.{io_bytes}
use s3blk.Nbd.Wire.{req_to_nbd_cmd_type}
use s3blk.Nbd.Send.{Env, QueueData, Sqe, recv, finish_io, resume_io}
use s3blk.Nbd.Recv.{
  Action, failed, aborted, read_data, resumed, do_recv, start_recv, recv_loop, reply_size,
}
use s3blk.Nbd.Recv.Job.Handed.{Good, fails, aborts, reads, resumes, handle_recv_reply-Good}
use s3blk.Nbd.Recv.Job.{
  Net, Point, at_loop, read_reply, handle_recv, read_io, handle_read_io, waits_reply, waits_data,
  ended, gave_up, stop, with_done, received, after_reply, step, is_running,
}

-- Every io is one that NBD knows.
abbrev pub Known : Env → Type 0
Known env = (t : ℕ) → (kind : ℕ) × (req_to_nbd_cmd_type (env.iods t) ≡ some kind)

-- The receiver's entry is the last on the ring.
abbrev pub HasRecv : QueueData → Type 0
HasRecv q = (l : List Sqe) × (len : ℕ) × (at : ℕ) × (u : ℕ) × (q.sqes ≡ l ++ recv len at u ∷ [])

-- What holds of the queue at each point. While the coroutine waits, ios are in flight and its
-- entry is on the ring; it ends for an error, or because no io is in flight.
abbrev pub Fits : Point → QueueData → Type 0
Fits at_loop q = q.recv_started ≡ true
Fits read_reply q = (q.recv_started ≡ true) × (0 < q.in_flight_ios)
Fits (handle_recv res) q = (q.recv_started ≡ true) × (0 < q.in_flight_ios)
Fits (read_io tag) q = (q.recv_started ≡ true) × (0 < q.in_flight_ios)
Fits (handle_read_io tag res) q =
    (q.recv_started ≡ true) × (0 < q.in_flight_ios) × (is_errno 11 res ≡ false)
Fits waits_reply q = (q.recv_started ≡ true) × (0 < q.in_flight_ios) × HasRecv q
Fits (waits_data tag) q = (q.recv_started ≡ true) × (0 < q.in_flight_ios) × HasRecv q
Fits (ended res) q =
    (q.recv_started ≡ false) × ((is_neg res ≡ true) ⊎ ((res ≡ pos 0) × (q.in_flight_ios ≡ 0)))
Fits gave_up q = q.recv_started ≡ true

-- How many steps a running coroutine makes at most.
abbrev pub measure : Point → QueueData → ℕ
measure at_loop q = 5 * q.in_flight_ios + 1
measure read_reply q = 5 * q.in_flight_ios
measure (handle_recv res) q = 5 * q.in_flight_ios - 1
measure (read_io tag) q = 5 * q.in_flight_ios - 2
measure (handle_read_io tag res) q = 5 * q.in_flight_ios - 3
measure waits_reply q = 0
measure (waits_data tag) q = 0
measure (ended res) q = 0
measure gave_up q = 0

-- The ios that were completed, and those that are in flight.
abbrev pub ledger : QueueData → ℕ
ledger q = length q.completed + q.in_flight_ios

-- What the receiver leaves alone: the flag of its completion, and what is to be sent.
abbrev pub Still : QueueData → QueueData → Type 0
Still q q' =
    (q'.need_handle_recv ≡ q.need_handle_recv)
    × (q'.chained_send_ios ≡ q.chained_send_ios)
    × (q'.next_chain ≡ q.next_chain)

abbrev pub Moved : Point → QueueData → Point × QueueData → Type 0
Moved p q (p', q') =
    Fits p' q'
    × (is_running p' ≡ true → measure p' q' < measure p q)
    × (ledger q' ≡ ledger q)
    × (q'.in_flight_ios ≤ q.in_flight_ios)
    × Still q q'

-- The receive calls leave the ios alone.
abbrev Same : QueueData → QueueData → Type 0
Same q q' =
    (q'.in_flight_ios ≡ q.in_flight_ios)
    × (q'.completed ≡ q.completed)
    × (q'.recv_started ≡ q.recv_started)
    × Still q q'

abbrev Received : Point → Point → QueueData → Point × QueueData → Type 0
Received whole waits q (p, q') =
    ((p ≡ whole) × Same q q')
    ⊎ (((p ≡ waits) × Same q q' × HasRecv q') ⊎ ((p ≡ ended enomem) × (q' ≡ stop q)))

start_recv-received :
    (env : Env) (q : QueueData) (len asked done : ℕ) (reply : Bool) (whole waits : Point)
    → Received whole waits q (received env len whole waits (start_recv env q asked reply done))
unfolding start_recv received
start_recv-received env q len asked done reply whole waits =
    elim (Bool-cases (env.sqe_free q.sqes)) [
      | inr full ↦ simp full (inr (inr (refl, refl)))
      | inl free ↦ elim (Bool-cases (0 == len)) [
        | inl e ↦ simp (free, e) (inl (refl, (refl, refl, refl, (refl, refl, refl))))
        | inr e ↦
            simp (free, e)
              (inr (inl (refl, (refl, refl, refl, (refl, refl, refl)), (q.sqes, _, _, _, refl))))
      ]
    ]

do_recv-received :
    (env : Env) (rd : ℕ → ℕ → ℤ) (q : QueueData) (len : ℕ) (whole waits : Point)
    → Received whole waits q (received env len whole waits (do_recv env rd q len))
unfolding do_recv received
do_recv-received env rd q len whole waits =
    let done = recv_loop (if ltb len 512 then 16 else 32) rd len 0 in
    elim (Bool-cases (done == len)) [
      | inl e ↦ simp e (inl (refl, (refl, refl, refl, (refl, refl, refl))))
      | inr e ↦ simp e (start_recv-received env q len len done (ltb len 512) whole waits)
    ]

-- An io that is resumed ends.
resume_io-finish_io :
    (env : Env) (q : QueueData) (tag : ℕ) (res : ℤ)
    → Known env
    → is_errno 11 res ≡ false
    → resume_io env q tag res ≡ finish_io q tag res
unfolding resume_io
resume_io-finish_io env q tag res known e = rw ((known tag).1, e, resume_io) refl

Step_at_loop :
    (env : Env) (net : Net) (c : ℕ) (q : QueueData)
    → Fits at_loop q
    → Moved at_loop q (step env net c at_loop q)
unfolding step
Step_at_loop env net c q fits = elim (Bool-cases (q.in_flight_ios == 0)) [
  | inl e ↦
      let idle : q.in_flight_ios ≡ 0 = ground arith in
      simp e ((refl, inr (refl, idle)), (λ h. cc), refl, omega arith, (refl, refl, refl))
  | inr e ↦
      let some : 0 < q.in_flight_ios = ground arith in
      simp e ((fits, some), (λ h. omega arith), refl, omega arith, (refl, refl, refl))
]

-- A call of nbd_do_recv goes on to the point that has all bytes, waits, or ends.
Received-Moved :
    (p whole waits : Point) (q : QueueData) (r : Point × QueueData)
    → q.recv_started ≡ true
    → (Same q r.1 → Fits whole r.1 × (measure whole r.1 < measure p q))
    → (Same q r.1 → HasRecv r.1 → Fits waits r.1)
    → is_running waits ≡ false
    → Received whole waits q r
    → Moved p q r
Received-Moved p whole waits q (p', q') started on wait still (inl (e, same)) =
    let s = on same in
    rw e (s.0, (λ h. s.1), ap₂ (λ a b. length a + b) same.1 same.0, omega (arith, same.0), same.3)
Received-Moved p whole waits q (p', q') started on wait still (inr (inl (e, same, has))) = rw e (
  wait same has,
  (λ h. absurd (cc)),
  ap₂ (λ a b. length a + b) same.1 same.0,
  omega (arith, same.0),
  same.3,
)
Received-Moved p whole waits q (p', q') started on wait still (inr (inr (e, same))) =
    rw (e, same) ((refl, inl refl), (λ h. absurd (cc)), refl, omega arith, (refl, refl, refl))

-- An io that ends takes itself off the count.
finish_io-Moved :
    (p : Point) (q q1 : QueueData) (tag : ℕ) (res : ℤ)
    → Same q q1
    → q.recv_started ≡ true
    → 0 < q.in_flight_ios
    → q.in_flight_ios < 2 ^ 16
    → 5 * q.in_flight_ios < measure p q + 4
    → Moved p q (at_loop, finish_io q1 tag res)
unfolding finish_io
finish_io-Moved p q q1 tag res same started busy small less =
    let f = q.in_flight_ios in
    let one_less : sub16 q1.in_flight_ios 1 ≡ f - 1 = rw same.0 (omega (arith, busy, small)) in
    let grown : length (finish_io q1 tag res).completed ≡ length q.completed + 1 =
      length-append q1.completed _ ∙ rw same.1 (omega arith) in
    (
      same.2 ∙ started,
      (λ h. rw one_less (omega (arith, busy, less))),
      rw one_less (omega (arith, grown, busy)),
      rw one_less (omega arith),
      same.3,
    )

after_reply-Moved :
    (env : Env) (q : QueueData) (res : ℤ) (a : Action)
    → Known env
    → q.in_flight_ios < 2 ^ 16
    → Fits (handle_recv res) q
    → Good a
    → Moved (handle_recv res) q (after_reply env q a)
unfolding after_reply
after_reply-Moved env q res (failed e) known small fits (fails _ bad) =
    ((refl, inl bad), (λ h. absurd (cc)), refl, omega arith, (refl, refl, refl))
after_reply-Moved env q res aborted known small fits aborts =
    (fits.0, (λ h. absurd (cc)), refl, omega arith, (refl, refl, refl))
after_reply-Moved env q res (read_data tag) known small fits (reads _) =
    (fits, (λ h. omega (arith, fits.1)), refl, omega arith, (refl, refl, refl))
after_reply-Moved env q res (resumed tag r) known small fits (resumes _ _ ok) =
    subst (λ q'. Moved (handle_recv res) q (at_loop, q'))
      (sym (resume_io-finish_io env q tag r known ok))
      (finish_io-Moved (handle_recv res) q q tag r (refl, refl, refl, (refl, refl, refl)) fits.0
        fits.1 small (omega (arith, fits.1)))

-- A step of a running coroutine keeps what holds at its point, comes nearer to the end, and takes
-- as many ios off the count of those in flight as it completes.
pub step-Moved :
    (env : Env) (net : Net) (c : ℕ) (p : Point) (q : QueueData)
    → Known env
    → q.in_flight_ios < 2 ^ 16
    → is_running p ≡ true
    → Fits p q
    → Moved p q (step env net c p q)
unfolding step
step-Moved env net c at_loop q known small run fits = Step_at_loop env net c q fits
step-Moved env net c read_reply q known small run fits =
    let on = handle_recv (pos 0) in
    Received-Moved read_reply on waits_reply q (step env net c read_reply q) fits.0
      (λ same. ((same.2 ∙ fits.0, omega (arith, same.0, fits.1)), omega (arith, same.0, fits.1)))
      (λ same has. (same.2 ∙ fits.0, omega (arith, same.0, fits.1), has)) refl
      (do_recv-received env (net.rd c) q reply_size on waits_reply)
step-Moved env net c (handle_recv res) q known small run fits =
    after_reply-Moved env q res _ known small fits (handle_recv_reply-Good env q (net.reply c) res)
step-Moved env net c (read_io tag) q known small run fits =
    let on = handle_read_io tag (pos 0) in
    Received-Moved (read_io tag) on (waits_data tag) q (step env net c (read_io tag) q) fits.0
      (λ same.
        ((same.2 ∙ fits.0, omega (arith, same.0, fits.1), refl), omega (arith, same.0, fits.1)))
      (λ same has. (same.2 ∙ fits.0, omega (arith, same.0, fits.1), has)) refl
      (do_recv-received env (net.rd c) q (io_bytes (env.iods tag)) on (waits_data tag))
step-Moved env net c (handle_read_io tag res) q known small run fits =
    let q1 = with_done q tag (q.io_data env.depth).done in
    subst (λ q'. Moved (handle_read_io tag res) q (at_loop, q'))
      (sym (resume_io-finish_io env q1 tag res known fits.2))
      (finish_io-Moved (handle_read_io tag res) q q1 tag res (refl, refl, refl, (refl, refl, refl))
        fits.0 fits.1 small (omega (arith, fits.1)))
step-Moved env net c waits_reply q known small run fits = absurd (cc)
step-Moved env net c (waits_data tag) q known small run fits = absurd (cc)
step-Moved env net c (ended res) q known small run fits = absurd (cc)
step-Moved env net c gave_up q known small run fits = absurd (cc)
