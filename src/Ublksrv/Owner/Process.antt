-- ===== src/Ublksrv/Owner/Process.antt =====
-- The loop of a queue keeps the contract, from its start on.
use s3blk.Base.{
  ℕ, ◌≡◌, inl, inr, refl, arith, Bool, true, false, ◌&&◌, Bool-cases, if◌then◌else◌, ◌==◌, length,
}
use s3blk.Base.Int.{ℤ, is_errno}
use s3blk.Ublksrv.Types.{Queue, Kernel}
use s3blk.Ublksrv.Ring.{submit, kill_eventfd}
use s3blk.Ublksrv.Calls.{TgtOps, upcall_opt, apply_opt}
use s3blk.Ublksrv.Events.{reap_events}
use s3blk.Ublksrv.Process.{
  queue_is_done, idle_enter, idle_exit, after_events, process_io, commit_pending, Wake,
}
use s3blk.Ublksrv.Owner.{Owner}
use s3blk.Ublksrv.Owner.Moves.{IsOwned, Moves, Moves-trans, SameCommands, Moves-same}
use s3blk.Ublksrv.Owner.Calls.{kill_eventfd_same, with_ring, same_ring, same_self}
use s3blk.Ublksrv.Owner.Target.{IsTarget, upcall_opt-Moves}
use s3blk.Ublksrv.Owner.Events.{Delivers, reap_events-Moves}

same_idle : (q : Queue) (b : Bool) → SameCommands q (record q { idle = b })
same_idle q b = record {
  same_batch = refl;
  same_ios = refl;
  same_inflight = refl;
  same_tags = refl;
}

commit_pending_single : (k : Kernel) (q : Queue) → q.batch_io ≡ false → commit_pending k q ≡ q
unfolding commit_pending
commit_pending_single k q e = ground arith

-- The move of a queue with its target.
abbrev MovesTo : {T : Type 0} → (T → ℕ → Bool) → ℕ → (ℕ → Owner) → Queue → T × Queue → Type 0
MovesTo holds n o q w = Moves n o q (holds w.0) w.1

moves_if :
    {T : Type 0} {n : ℕ} {o : ℕ → Owner} (holds : T → ℕ → Bool) (q : Queue) (b : Bool)
    (v w : T × Queue)
    → MovesTo holds n o q v
    → MovesTo holds n o q w
    → MovesTo holds n o q (if b then v else w)
moves_if holds q true v w m m' = m
moves_if holds q false v w m m' = m'

module _ {T : Type 0} (k : Kernel) (ops : TgtOps T) (holds : T → ℕ → Bool)
    (c : IsTarget ops holds) where
  module _ {n : ℕ} {o : ℕ → Owner} (w : T × Queue) (owned : IsOwned n (holds w.0) o w.1) where
    stays : MovesTo holds n o w.1 w
    stays = Moves-same (same_self w.1) owned

    abbrev idle_called : Bool → T × Queue
    idle_called enter =
        upcall_opt k (apply_opt ops.idle_fn enter) (w.0, record w.1 { idle = enter })

    idle_moves : (enter : Bool) → MovesTo holds n o w.1 (idle_called enter)
    idle_moves enter =
        let m = Moves-same (same_idle w.1 enter) owned in
        Moves-trans w.1 m (
          upcall_opt-Moves k holds (apply_opt ops.idle_fn enter) (w.0, record w.1 { idle = enter })
            (c.fair_idle enter) m.3)

    idle_enter-Moves : MovesTo holds n o w.1 (idle_enter k ops w)
    unfolding idle_enter
    idle_enter-Moves = moves_if holds w.1 w.1.idle w (idle_called true) stays (idle_moves true)

    idle_exit-Moves : MovesTo holds n o w.1 (idle_exit k ops w)
    unfolding idle_exit
    idle_exit-Moves = moves_if holds w.1 w.1.idle (idle_called false) w (idle_moves false) stays

    after_events-Moves :
        (ret : ℤ) (reaped : ℕ) → MovesTo holds n o w.1 (after_events k ops w ret reaped)
    unfolding after_events
    after_events-Moves ret reaped =
        moves_if holds w.1 w.1.stopping (w.0, kill_eventfd w.1) _
          (Moves-same (kill_eventfd_same w.1) owned)
          (moves_if holds w.1 (is_errno 62 ret && (reaped == 0 && w.1.ring.ready == 0))
            (idle_enter k ops w) (idle_exit k ops w) idle_enter-Moves idle_exit-Moves)

  -- One round of ublksrv_process_io, for a queue that agrees with the owners of its tags, a target
  -- that keeps its contract, and completions that the kernel can deliver one after the other: the
  -- owners move by steps of the contract, the queue agrees with them again, and the commands put on
  -- the ring are those that the steps issue, in their order.
  pub process_io-Moves :
      {n : ℕ} {o : ℕ → Owner} (s : T) (q : Queue) (wake : Wake)
      → IsOwned n (holds s) o q
      → Delivers k ops holds c n (s, with_ring q (submit k q.ring)) wake.cqes
      → Moves n o q (holds (process_io k ops (s, q) wake).1) (process_io k ops (s, q) wake).2
  unfolding process_io
  process_io-Moves s q wake owned d =
      let waited = with_ring q (submit k q.ring) in
      let m0 = Moves-same (same_ring q (submit k q.ring) refl) owned in
      let m1 = reap_events-Moves k ops holds c wake.cqes (s, waited) m0.3 d in
      let w = reap_events k ops (s, waited) wake.cqes in
      let f = apply_opt ops.handle_io_background w.1.ring.ready in
      let m2 = upcall_opt-Moves k holds f w (c.fair_background w.1.ring.ready) m1.3 in
      let w' = upcall_opt k f w in
      let m3 = after_events-Moves w' m2.3 wake.ret (length wake.cqes) in
      let m = Moves-trans q m0 (Moves-trans waited m1 (Moves-trans w.1 m2 m3)) in
      elim (Bool-cases (queue_is_done q)) [
        | inl e ↦ simp (e) (stays (s, q) owned)
        | inr e ↦ rw (e, commit_pending_single k q owned.single) m
      ]
