-- ===== src/Nbd/Recv/Job/Background.antt =====
-- What nbd_handle_recv_bg leaves behind.
use s3blk.Base.{
  ◌^◌, ◌<◌, ◌≡◌, ◌≢◌, ◌⊎◌, inl, inr, refl, sym, ◌∙◌, subst, arith, Bool, true, false, not, ◌&&◌,
  ◌==◌, Bool-cases,
}
use s3blk.Base.Int.{ℤ, is_neg}
use s3blk.Nbd.Send.{Env, QueueData}
use s3blk.Nbd.Recv.Job.{
  Net, Point, at_loop, read_reply, handle_recv, read_io, handle_read_io, waits_reply, waits_data,
  ended, gave_up, Receiver, is_running, start_recv_job, resume_recv_job, handle_recv_bg,
}
use s3blk.Nbd.Recv.Job.Moves.{Known, Fits, ledger}
use s3blk.Nbd.Recv.Job.Ends.{is_waiting, start_recv_job-Stopped, resume_recv_job-Stopped}

-- The receiver between two callbacks: `recv_started` tells whether it waits, it waits only while
-- ios are in flight, and a completion for it has come only if it waits.
abbrev pub IsResting : Point → QueueData → Type 0
IsResting p q =
    (is_running p ≡ false)
    × (p ≢ gave_up)
    × (q.recv_started ≡ is_waiting p)
    × (is_waiting p ≡ true → 0 < q.in_flight_ios)
    × (q.need_handle_recv ≡ true → is_waiting p ≡ true)

-- It waits, or no io is in flight, or it has ended for an error.
abbrev pub IsServed : Point → QueueData → Type 0
IsServed p q =
    (is_waiting p ≡ true) ⊎ ((q.in_flight_ios ≡ 0) ⊎ ((e : ℤ) × (p ≡ ended e) × (is_neg e ≡ true)))

-- As many ios have been completed as there are fewer in flight, and what is sent or to be sent
-- stays.
abbrev pub Keeps : QueueData → QueueData → Type 0
Keeps q0 q =
    (ledger q ≡ ledger q0)
    × (q.chained_send_ios ≡ q0.chained_send_ios)
    × (q.next_chain ≡ q0.next_chain)

abbrev Handled : QueueData → Point → QueueData → Type 0
Handled q0 p q =
    (p ≡ gave_up) ⊎ (IsResting p q × IsServed p q × (q.need_handle_recv ≡ false) × Keeps q0 q)

-- A receiver that has stopped rests.
stopped-Handled :
    (p : Point) (q q0 : QueueData)
    → is_running p ≡ false
    → Fits p q
    → Keeps q0 q
    → q.need_handle_recv ≡ false
    → Handled q0 p q
stopped-Handled at_loop q q0 s f l idle_flag = absurd (cc)
stopped-Handled read_reply q q0 s f l idle_flag = absurd (cc)
stopped-Handled (handle_recv res) q q0 s f l idle_flag = absurd (cc)
stopped-Handled (read_io tag) q q0 s f l idle_flag = absurd (cc)
stopped-Handled (handle_read_io tag res) q q0 s f l idle_flag = absurd (cc)
stopped-Handled waits_reply q q0 s f l idle_flag =
    inr ((refl, (λ h. cc), f.0, (λ h. f.1), (λ h. refl)), inl refl, idle_flag, l)
stopped-Handled (waits_data tag) q q0 s f l idle_flag =
    inr ((refl, (λ h. cc), f.0, (λ h. f.1), (λ h. refl)), inl refl, idle_flag, l)
stopped-Handled (ended res) q q0 s f l idle_flag = elim f.1 [
  | inl bad ↦
      inr ((refl, (λ h. cc), f.0, (λ h. cc), (λ h. cc)), inr (inr (res, refl, bad)), idle_flag, l)
  | inr (e, idle) ↦ inr ((refl, (λ h. cc), f.0, (λ h. cc), (λ h. cc)), inr (inl idle), idle_flag, l)
]
stopped-Handled gave_up q q0 s f l idle_flag = inl refl

-- Nothing was to be done.
kept-Handled :
    (p : Point) (q : QueueData)
    → IsResting p q
    → (q.in_flight_ios ≡ 0) ⊎ (q.recv_started ≡ true)
    → q.need_handle_recv ≡ false
    → Handled q p q
kept-Handled p q rest (inl idle) idle_flag =
    inr (rest, inr (inl idle), idle_flag, (refl, refl, refl))
kept-Handled p q rest (inr started) idle_flag =
    inr (rest, inl (sym rest.2 ∙ started), idle_flag, (refl, refl, refl))

abbrev starts : QueueData → Bool
starts q = not (q.in_flight_ios == 0) && not q.recv_started

starts-false : (q : QueueData) → starts q ≡ false → (q.in_flight_ios ≡ 0) ⊎ (q.recv_started ≡ true)
starts-false q h = ground arith

-- The branches of nbd_handle_recv_bg.
bg_nothing :
    (env : Env) (net : Net) (r : Receiver)
    → starts r.queue ≡ false
    → r.queue.need_handle_recv ≡ false
    → handle_recv_bg env net r ≡ r
unfolding handle_recv_bg
bg_nothing env net r e f = simp (e, f) refl

bg_start :
    (env : Env) (net : Net) (r : Receiver)
    → starts r.queue ≡ true
    → (start_recv_job env net r).queue.need_handle_recv ≡ false
    → handle_recv_bg env net r ≡ start_recv_job env net r
unfolding handle_recv_bg
bg_start env net r e f = simp (e, f) refl

bg_resume :
    (env : Env) (net : Net) (r : Receiver)
    → starts r.queue ≡ false
    → r.queue.need_handle_recv ≡ true
    → let after = resume_recv_job env net r r.queue.recv_cqe.res in
      handle_recv_bg env net r
      ≡ record after { queue = record after.queue { need_handle_recv = false } }
unfolding handle_recv_bg
bg_resume env net r e f = simp (e, f) refl

-- A flag that is cleared is nothing that `Fits` reads.
cleared-Fits :
    (p : Point) (q : QueueData) → Fits p q → Fits p (record q { need_handle_recv = false })
cleared-Fits at_loop q f = f
cleared-Fits read_reply q f = f
cleared-Fits (handle_recv res) q f = f
cleared-Fits (read_io tag) q f = f
cleared-Fits (handle_read_io tag res) q f = f
cleared-Fits waits_reply q f = f
cleared-Fits (waits_data tag) q f = f
cleared-Fits (ended res) q f = f
cleared-Fits gave_up q f = f

abbrev HandledBy : QueueData → Receiver → Type 0
HandledBy q0 r = Handled q0 r.point r.queue

-- If every io is one that NBD knows and fewer than 2^16 are in flight, then after
-- nbd_handle_recv_bg, unless an assertion has failed, a receiver that rested rests again, with
-- the completion that had come for it dealt with; it waits, or no io is in flight, or it has ended
-- for an error; as many ios have been completed as there are fewer in flight, and the ios that
-- are sent and that wait to be sent are the same.
pub handle_recv_bg-IsResting :
    (env : Env) (net : Net) (r : Receiver)
    → Known env
    → r.queue.in_flight_ios < 2 ^ 16
    → IsResting r.point r.queue
    → let r' = handle_recv_bg env net r in
      (r'.point ≡ gave_up)
      ⊎ (IsResting r'.point r'.queue
          × IsServed r'.point r'.queue
          × (r'.queue.need_handle_recv ≡ false)
          × Keeps r.queue r'.queue)
handle_recv_bg-IsResting env net r known small rest = elim (Bool-cases r.queue.need_handle_recv) [
  | inl need ↦
      let w : is_waiting r.point ≡ true = rest.4 need in
      let started : r.queue.recv_started ≡ true = rest.2 ∙ w in
      let s =
        resume_recv_job-Stopped env net r r.queue.recv_cqe.res known w started (rest.3 w) small in
      let after = resume_recv_job env net r r.queue.recv_cqe.res in
      let cleared : QueueData = record after.queue { need_handle_recv = false } in
      let eq = bg_resume env net r (ground arith) need in
      subst (HandledBy r.queue) (sym eq) (
        stopped-Handled after.point cleared r.queue s.0 (cleared-Fits after.point after.queue s.1)
          (s.2, s.4.1, s.4.2) refl)
  | inr need ↦ elim (Bool-cases (starts r.queue)) [
    | inl go ↦
        let s = start_recv_job-Stopped env net r known small in
        let after = start_recv_job env net r in
        let still : after.queue.need_handle_recv ≡ false = s.4.0 ∙ need in
        subst (HandledBy r.queue) (sym (bg_start env net r go still))
          (stopped-Handled after.point after.queue r.queue s.0 s.1 (s.2, s.4.1, s.4.2) still)
    | inr no_go ↦
        subst (HandledBy r.queue) (sym (bg_nothing env net r no_go need))
          (kept-Handled r.point r.queue rest (starts-false r.queue no_go) need)
  ]
]
