-- ===== src/Nbd/Recv/Job/NoHang.antt =====
-- nbd_handle_io_bg leaves no io in flight that nothing will wake.
use s3blk.Base.{
  ℕ, ◌+◌, ◌^◌, ◌<◌, ◌≤◌, ◌≡◌, ◌⊎◌, inl, inr, refl, sym, ◌∙◌, arith, false, ltb, ◌&&◌, ◌==◌,
  if◌then◌else◌, Bool-cases, List, [], ◌∷◌, length, Option-cases,
}
use s3blk.Nbd.Wire.{Request}
use s3blk.Nbd.Send.{
  Env, QueueData, queue_req, finish_io, try_send, start_io, start_all, end_chain, send_chain_busy,
  handle_send_bg, submit_chain,
}
use s3blk.Nbd.Recv.Job.{Net, Point, gave_up, Receiver, handle_recv_bg, handle_io_bg}
use s3blk.Nbd.Recv.Job.Moves.{Known}
use s3blk.Nbd.Recv.Job.Background.{IsResting, IsServed, handle_recv_bg-IsResting}

-- Of the ios that are started, `k` are on their way, and the others have ended.
abbrev Sent : ℕ → QueueData → QueueData → Type 0
Sent n q q' =
    (k : ℕ) × (k ≤ n)
    × (q'.in_flight_ios ≡ q.in_flight_ios + k)
    × (q'.chained_send_ios ≡ q.chained_send_ios + k)
    × (q'.recv_started ≡ q.recv_started)
    × (q'.need_handle_recv ≡ q.need_handle_recv)

try_send-Sent :
    (env : Env) (q q1 : QueueData) (tag : ℕ) (req : Request)
    → q1.in_flight_ios ≡ q.in_flight_ios + 1
    → q1.chained_send_ios ≡ q.chained_send_ios
    → q1.recv_started ≡ q.recv_started
    → q1.need_handle_recv ≡ q.need_handle_recv
    → q.in_flight_ios + 1 < 2 ^ 16
    → q.chained_send_ios + 1 < 2 ^ 32
    → Sent 1 q (try_send env q1 tag req)
unfolding try_send queue_req finish_io
try_send-Sent env q q1 tag req f c s n small small' = elim (Bool-cases (env.sqe_free q1.sqes)) [
  | inl free ↦ simp free (1, omega arith, f, rw c (omega (arith, small')), s, n)
  | inr full ↦ simp full (0, omega arith, rw f (omega (arith, small)), rw c (omega arith), s, n)
]

start_io-Sent :
    (env : Env) (q : QueueData) (tag : ℕ)
    → Known env
    → q.in_flight_ios + 1 < 2 ^ 16
    → q.chained_send_ios + 1 < 2 ^ 32
    → Sent 1 q (start_io env q tag)
unfolding start_io
start_io-Sent env q tag known small small' =
    rw ((known tag).1, start_io)
      (try_send-Sent env q _ tag _ (omega (arith, small)) refl refl refl small small')

start_all-Sent :
    (env : Env) (q : QueueData) (tags : List ℕ)
    → Known env
    → q.in_flight_ios + length tags < 2 ^ 16
    → q.chained_send_ios + length tags < 2 ^ 32
    → Sent (length tags) q (start_all env q tags)
unfolding start_all
start_all-Sent env q [] known small small' = (0, omega arith, omega arith, omega arith, refl, refl)
start_all-Sent env q (t ∷ ts) known small small' =
    let one = start_io-Sent env q t known (omega (arith, small)) (omega (arith, small')) in
    let next = start_io env q t in
    let rest =
      start_all-Sent env next ts known (omega (arith, one.1, one.2, small))
        (omega (arith, one.1, one.3, small')) in
    (
      one.0 + rest.0,
      omega (arith, one.1, rest.1),
      omega (arith, one.2, rest.2),
      omega (arith, one.3, rest.3),
      rest.4 ∙ one.4,
      rest.5 ∙ one.5,
    )

-- The counts and flags of two queues are the same.
abbrev SameCounts : QueueData → QueueData → Type 0
SameCounts q q' =
    (q'.in_flight_ios ≡ q.in_flight_ios)
    × (q'.chained_send_ios ≡ q.chained_send_ios)
    × (q'.recv_started ≡ q.recv_started)
    × (q'.need_handle_recv ≡ q.need_handle_recv)
    × (q'.next_chain ≡ q.next_chain)

end_chain-SameCounts : (q : QueueData) → SameCounts q (end_chain q)
end_chain-SameCounts q = elim (Option-cases q.last_send_sqe) [
  | inl e ↦ rw e (refl, refl, refl, refl, refl)
  | inr (i, e) ↦ rw e (refl, refl, refl, refl, refl)
]

submit_chain-SameCounts : (q : QueueData) → SameCounts q (submit_chain q)
submit_chain-SameCounts q = elim (Bool-cases (ltb 0 q.chained_send_ios)) [
  | inl e ↦ simp e (refl, refl, refl, refl, refl)
  | inr e ↦ simp e (refl, refl, refl, refl, refl)
]

-- A flush starts all ios that wait, or none.
abbrev Flushed : QueueData → QueueData → Type 0
Flushed q q' = Sent (length q.next_chain) q q' × (length q'.next_chain ≤ length q.next_chain)

same-Flushed : (q q1 q' : QueueData) → Flushed q q1 → SameCounts q1 q' → Flushed q q'
same-Flushed q q1 q' (s, l) c = ((s.0, s.1, c.0 ∙ s.2, c.1 ∙ s.3, c.2 ∙ s.4, c.3 ∙ s.5), rw c.4 l)

handle_send_bg-Flushed :
    (env : Env) (q : QueueData)
    → Known env
    → q.in_flight_ios + length q.next_chain < 2 ^ 16
    → q.chained_send_ios + length q.next_chain < 2 ^ 32
    → Flushed q (handle_send_bg env q)
unfolding handle_send_bg
handle_send_bg-Flushed env q known small small' = elim (Bool-cases (send_chain_busy q)) [
  | inl e ↦
      let all : Flushed q q =
        ((0, omega arith, omega arith, omega arith, refl, refl), omega arith) in
      simp e (same-Flushed q q (end_chain q) all (end_chain-SameCounts q))
  | inr e ↦
      let s = start_all-Sent env q q.next_chain known small small' in
      let started : QueueData = record (start_all env q q.next_chain) { next_chain = [] } in
      let all : Flushed q started = (s, omega arith) in
      simp e (same-Flushed q started (end_chain started) all (end_chain-SameCounts started))
]

-- Every io in flight has something to come: the receiver waits, or sends are to complete; or the
-- receiver has ended for an error.
abbrev pub IsAwaited : Point → QueueData → Type 0
IsAwaited p q = IsServed p q ⊎ (0 < q.chained_send_ios)

abbrev Settled : Point → QueueData → Type 0
Settled p q = IsResting p q × IsAwaited p q × (q.need_handle_recv ≡ false)

same-Settled : (p : Point) (q q' : QueueData) → SameCounts q q' → Settled p q → Settled p q'
same-Settled p q q' (f, c, s, n, l) (rest, awaited, flag) = (
  (rest.0, rest.1, s ∙ rest.2, (λ w. omega (arith, f, rest.3 w)), (λ h. absurd (cc))),
  elim awaited [
    | inl (inl w) ↦ inl (inl w)
    | inl (inr (inl idle)) ↦ inl (inr (inl (f ∙ idle)))
    | inl (inr (inr bad)) ↦ inl (inr (inr bad))
    | inr sent ↦ inr (omega (arith, c, sent))
  ],
  n ∙ flag,
)

-- The ios that are started while none is in flight are on their way.
Flushed-Settled :
    (p : Point) (q q' : QueueData)
    → IsResting p q
    → q.in_flight_ios ≡ 0
    → q.need_handle_recv ≡ false
    → Flushed q q'
    → Settled p q'
Flushed-Settled p q q' rest idle flag (s, l) = (
  (rest.0, rest.1, s.4 ∙ rest.2, (λ w. omega (arith, idle, rest.3 w)), (λ h. absurd (cc))),
  elim (Bool-cases (s.0 == 0)) [
    | inl e ↦
        let none_left : q'.in_flight_ios ≡ 0 = ground (arith, s.2, idle) in
        inl (inr (inl none_left))
    | inr e ↦ let sent : 0 < q'.chained_send_ios = ground (arith, s.3) in inr sent
  ],
  s.5 ∙ flag,
)

-- The end of nbd_handle_io_bg.
abbrev second_flush : Env → QueueData → QueueData
second_flush env q =
    let again = handle_send_bg env q in
    let idle = q.in_flight_ios == 0 && ltb 0 (length q.next_chain) in
    submit_chain (if idle then again else q)

second_flush-Settled :
    (env : Env) (p : Point) (q : QueueData)
    → Known env
    → IsResting p q
    → IsServed p q
    → q.need_handle_recv ≡ false
    → length q.next_chain < 2 ^ 16
    → q.chained_send_ios + length q.next_chain < 2 ^ 32
    → Settled p (second_flush env q)
second_flush-Settled env p q known rest served flag small small' =
    elim (Bool-cases (q.in_flight_ios == 0 && ltb 0 (length q.next_chain))) [
      | inl e ↦
          let idle : q.in_flight_ios ≡ 0 = ground arith in
          let s = handle_send_bg-Flushed env q known (omega (arith, idle, small)) small' in
          let q' = handle_send_bg env q in
          rw e (
            same-Settled p q' (submit_chain q') (submit_chain-SameCounts q')
              (Flushed-Settled p q q' rest idle flag s))
      | inr e ↦
          rw e
            (same-Settled p q (submit_chain q) (submit_chain-SameCounts q) (rest, inl served, flag))
    ]

-- If every io is one that NBD knows, and those in flight and those that wait to be sent are fewer
-- than 2^16 together (and fewer than 2^32 are sent), then a receiver that rested rests again after
-- nbd_handle_io_bg, unless an assertion has failed; its completion is dealt with, and if ios are
-- in flight, then the receiver waits or sends are to complete, or it has ended for an error.
pub handle_io_bg-IsAwaited :
    (env : Env) (net : Net) (r : Receiver)
    → Known env
    → IsResting r.point r.queue
    → r.queue.in_flight_ios + length r.queue.next_chain < 2 ^ 16
    → r.queue.chained_send_ios + 2 ^ 17 < 2 ^ 32
    → let r' = handle_io_bg env net r in
      (r'.point ≡ gave_up)
      ⊎ (IsResting r'.point r'.queue
          × IsAwaited r'.point r'.queue
          × (r'.queue.need_handle_recv ≡ false))
unfolding handle_io_bg
handle_io_bg-IsAwaited env net r known rest small small' =
    let q = r.queue in
    let q0 = handle_send_bg env q in
    let s = handle_send_bg-Flushed env q known small (omega (arith, small, small')) in
    let r0 : Receiver = record r { queue = q0 } in
    let rest0 : IsResting r.point q0 = (
      rest.0,
      rest.1,
      s.0.4 ∙ rest.2,
      (λ w. omega (arith, s.0.2, rest.3 w)),
      (λ h. rest.4 (sym s.0.5 ∙ h)),
    ) in
    elim (handle_recv_bg-IsResting env net r0 known (omega (arith, s.0.1, s.0.2, small)) rest0) [
      | inl bad ↦ inl bad
      | inr (rest1, served, flag, keeps) ↦
          let waiting_few : length (handle_recv_bg env net r0).queue.next_chain < 2 ^ 16 =
            rw keeps.2 (omega (arith, s.1, small)) in
          let sent_few : (handle_recv_bg env net r0).queue.chained_send_ios
                + length (handle_recv_bg env net r0).queue.next_chain
              < 2 ^ 32 =
            rw (keeps.2, keeps.1) (omega (arith, s.0.1, s.0.3, s.1, small, small')) in
          inr (second_flush-Settled env _ _ known rest1 served flag waiting_few sent_few)
    ]
