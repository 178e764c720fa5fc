-- ===== src/Ublksrv/Process/Idle.antt =====
-- When a queue is idle, and when its target is told.
use s3blk.Base.{
  ℕ, ◌≡◌, ◌⊎◌, inl, inr, refl, ap, ◌∙◌, arith, List, [], ◌∷◌, Bool, true, false, not, ◌&&◌,
  Bool-cases, if◌then◌else◌, ◌==◌, Option, none, some,
}
use s3blk.Base.Int.{ℤ, is_errno}
use s3blk.Ublksrv.Types.{set_at, Queue, Kernel}
use s3blk.Ublksrv.Ring.{handled_event_on, queue_event_on}
use s3blk.Ublksrv.Command.{
  complete_io, mark_io_done, queue_io_cmd, batch_add_complete, inc_tgt_io_inflight,
  dec_tgt_io_inflight,
}
use s3blk.Ublksrv.Calls.{
  Call, complete, queue_sqes, inc_inflight, dec_inflight, events_handled, run_call, run_calls,
  Callback, TgtOps, upcall, upcall_opt, apply_opt,
}
use s3blk.Ublksrv.Process.{idle_enter, idle_exit, after_events}

queue_io_cmd_idle : (k : Kernel) (q : Queue) (t : ℕ) → (queue_io_cmd k q t).1.idle ≡ q.idle
unfolding queue_io_cmd
queue_io_cmd_idle k q t = ground arith

complete_io_idle :
    (k : Kernel) (q : Queue) (t : ℕ) (res : ℤ) → (complete_io k q t res).1.idle ≡ q.idle
unfolding complete_io batch_add_complete
complete_io_idle k q t res =
    let marked : Queue = record q { ios = set_at q.ios t (mark_io_done (q.ios t) res) } in
    ground (arith, queue_io_cmd_idle k marked t)

handled_event_idle :
    (k : Kernel) (q : Queue) (efd : Option ℕ) → (handled_event_on k q efd).idle ≡ q.idle
unfolding handled_event_on queue_event_on
handled_event_idle k q none = refl
handled_event_idle k q (some fd) = ground arith

run_call_idle : (k : Kernel) (q : Queue) (c : Call) → (run_call k q c).idle ≡ q.idle
unfolding run_call inc_tgt_io_inflight dec_tgt_io_inflight
run_call_idle k q (complete t res) = complete_io_idle k q t res
run_call_idle k q (queue_sqes u) = ground arith
run_call_idle k q inc_inflight = refl
run_call_idle k q dec_inflight = refl
run_call_idle k q events_handled = handled_event_idle k q q.efd

run_calls_idle : (k : Kernel) (q : Queue) (cs : List Call) → (run_calls k q cs).idle ≡ q.idle
unfolding run_calls
run_calls_idle k q [] = refl
run_calls_idle k q (c ∷ cs) = run_calls_idle k (run_call k q c) cs ∙ run_call_idle k q c

module _ {T : Type 0} (k : Kernel) where
  upcall_opt_idle : (f : Option (Callback T)) (w : T × Queue) → (upcall_opt k f w).1.idle ≡ w.1.idle
  unfolding upcall
  upcall_opt_idle none w = refl
  upcall_opt_idle (some f) w = run_calls_idle k w.1 (f w.0 w.1).1

  module _ (ops : TgtOps T) (w : T × Queue) where
    abbrev pub told : Bool → T × Queue
    told enter = upcall_opt k (apply_opt ops.idle_fn enter) (w.0, record w.1 { idle = enter })

    -- A round in which the wait timed out, nothing was reaped and nothing is to be submitted.
    abbrev pub is_quiet : ℤ → ℕ → Bool
    is_quiet ret reaped = is_errno 62 ret && (reaped == 0 && w.1.ring.ready == 0)

    after_events_cases :
        (ret : ℤ) (reaped : ℕ)
        → w.1.stopping ≡ false
        → after_events k ops w ret reaped ≡ (
            if is_quiet ret reaped
            then (if w.1.idle then w else told true)
            else (if w.1.idle then told false else w))
    unfolding after_events idle_enter idle_exit
    after_events_cases ret reaped runs = simp (runs) refl

    told_idle : (enter : Bool) → (told enter).1.idle ≡ enter
    told_idle enter =
        upcall_opt_idle (apply_opt ops.idle_fn enter) (w.0, record w.1 { idle = enter })

    by_quiet :
        (v : T × Queue) (b : Bool)
        → v ≡ (
            if b then (if w.1.idle then w else told true) else (if w.1.idle then told false else w))
        → (v.1.idle ≡ b) × (((w.1.idle ≡ b) × (v ≡ w)) ⊎ ((w.1.idle ≡ not b) × (v ≡ told b)))
    by_quiet v true c = elim (Bool-cases w.1.idle) [
      | inl i ↦
          let e : v ≡ w = c ∙ simp i refl in (ap (λ (x : T × Queue). x.1.idle) e ∙ i, inl (i, e))
      | inr i ↦
          let e : v ≡ told true = c ∙ simp i refl in
          (ap (λ (x : T × Queue). x.1.idle) e ∙ told_idle true, inr (i, e))
    ]
    by_quiet v false c = elim (Bool-cases w.1.idle) [
      | inl i ↦
          let e : v ≡ told false = c ∙ simp i refl in
          (ap (λ (x : T × Queue). x.1.idle) e ∙ told_idle false, inr (i, e))
      | inr i ↦
          let e : v ≡ w = c ∙ simp i refl in (ap (λ (x : T × Queue). x.1.idle) e ∙ i, inl (i, e))
    ]

    -- Unless the queue stops, it is idle after a round exactly if the wait timed out, nothing was
    -- reaped and nothing is to be submitted; the target is told exactly when that changes, and how,
    -- and otherwise nothing happens.
    pub after_events_idle :
        (ret : ℤ) (reaped : ℕ)
        → w.1.stopping ≡ false
        → ((after_events k ops w ret reaped).1.idle ≡ is_quiet ret reaped)
          × (((w.1.idle ≡ is_quiet ret reaped) × (after_events k ops w ret reaped ≡ w))
              ⊎ ((w.1.idle ≡ not (is_quiet ret reaped))
                  × (after_events k ops w ret reaped ≡ told (is_quiet ret reaped))))
    after_events_idle ret reaped runs =
        by_quiet (after_events k ops w ret reaped) (is_quiet ret reaped)
          (after_events_cases ret reaped runs)
