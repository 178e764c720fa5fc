-- ===== src/Ublksrv/Owner/Events.antt =====
-- What the completions that the kernel can deliver do is a move.
use s3blk.Base.{
  ℕ, ◌<◌, ◌≡◌, ◌⊎◌, inl, inr, refl, List, [], ◌∷◌, Bool, true, false, Bool-cases, ◌==◌, low_bits,
  ◌>>◌,
}
use s3blk.Ublk.{user_data_to_tag, is_target_io, is_internal_io}
use s3blk.Ublksrv.Types.{Cqe, Queue, Kernel, op_eventfd, op_epollfd}
use s3blk.Ublksrv.Ring.{submit, prep_epoll_sqe}
use s3blk.Ublksrv.Calls.{TgtOps, upcall, apply_opt}
use s3blk.Ublksrv.Events.{epoll_callbacks, process_epollfd, handle_tgt_cqe, handle_cqe, reap_events}
use s3blk.Ublksrv.Owner.{Owner}
use s3blk.Ublksrv.Owner.Moves.{IsOwned, Moves, Moves-trans, Moves-same}
use s3blk.Ublksrv.Owner.Calls.{prep_epoll_sqe_same, same_self, same_ring, SameCommands-trans}
use s3blk.Ublksrv.Owner.Target.{IsTarget, upcall-Moves, upcall_opt-Moves}
use s3blk.Ublksrv.Owner.Arrived.{handle_cmd_cqe-Moves}

-- The kernel can deliver this: a completion of an entry of the target, or of the command of a tag
-- that neither the target nor the queue has.
abbrev pub Deliverable : ℕ → (ℕ → Bool) → Queue → Cqe → Type 0
Deliverable n h q cqe =
    let tag = user_data_to_tag cqe.user_data in
    (is_target_io cqe.user_data ≡ true)
    ⊎ ((is_target_io cqe.user_data ≡ false)
        × (tag < n)
        × (h tag ≡ false)
        × ((q.ios tag).io_free ≡ false))

module _ {T : Type 0} (k : Kernel) (ops : TgtOps T) (holds : T → ℕ → Bool)
    (c : IsTarget ops holds) where
  epoll_callbacks-Moves :
      (es : List (ℕ × ℕ))
      → {n : ℕ} {o : ℕ → Owner} → (w : T × Queue) → IsOwned n (holds w.0) o w.1
      → Moves n o w.1 (holds (epoll_callbacks k ops w es).0) (epoll_callbacks k ops w es).1
  unfolding epoll_callbacks
  epoll_callbacks-Moves [] w owned = Moves-same (same_self w.1) owned
  epoll_callbacks-Moves ((fd, events) ∷ es) w owned =
      let m = upcall-Moves k holds (ops.epoll_cb fd events) w (c.fair_epoll fd events) owned in
      Moves-trans w.1 m (epoll_callbacks-Moves es (upcall k (ops.epoll_cb fd events) w) m.3)

  module _ {n : ℕ} {o : ℕ → Owner} (w : T × Queue) (cqe : Cqe)
      (owned : IsOwned n (holds w.0) o w.1) where
    process_epollfd-Moves :
        Moves n o w.1 (holds (process_epollfd k ops w cqe).0) (process_epollfd k ops w cqe).1
    unfolding process_epollfd
    process_epollfd-Moves =
        let es = k.epoll_wait w.1.ring in
        let m = epoll_callbacks-Moves es w owned in
        let q = (epoll_callbacks k ops w es).1 in
        let q' = (prep_epoll_sqe k q).1 in
        let s =
          SameCommands-trans (prep_epoll_sqe_same k q) (same_ring q' (submit k q'.ring) refl) in
        elim (Bool-cases cqe.more) [
          | inl e ↦ rw e m
          | inr e ↦ rw e (Moves-trans w.1 m (Moves-same s m.3))
        ]

    handle_tgt_cqe-Moves :
        Moves n o w.1 (holds (handle_tgt_cqe k ops w cqe).0) (handle_tgt_cqe k ops w cqe).1
    unfolding handle_tgt_cqe
    handle_tgt_cqe-Moves = elim (Bool-cases (is_internal_io cqe.user_data)) [
      | inr e ↦
          rw e (upcall_opt-Moves k holds (apply_opt ops.tgt_io_done cqe) w (c.fair_done cqe) owned)
      | inl e ↦ elim (Bool-cases (low_bits (cqe.user_data >> 16) 8 == op_eventfd)) [
        | inl e' ↦ rw (e, e') (upcall_opt-Moves k holds ops.handle_event w c.fair_event owned)
        | inr e' ↦ elim (Bool-cases (low_bits (cqe.user_data >> 16) 8 == op_epollfd)) [
          | inl e'' ↦ rw (e, e', e'') process_epollfd-Moves
          | inr e'' ↦ rw (e, e', e'') (Moves-same (same_self w.1) owned)
        ]
      ]
    ]

    -- Any completion that the kernel can deliver makes the queue move.
    pub handle_cqe-Moves :
        Deliverable n (holds w.0) w.1 cqe
        → Moves n o w.1 (holds (handle_cqe k ops w cqe).0) (handle_cqe k ops w cqe).1
    unfolding handle_cqe
    handle_cqe-Moves (inl e) = rw e handle_tgt_cqe-Moves
    handle_cqe-Moves (inr (e, lt, away, busy)) =
        simp (e, owned.single) (handle_cmd_cqe-Moves k ops holds w.0 w.1 cqe c owned lt away busy)

  -- The completions come one after the other, each when it can.
  abbrev pub Delivers : ℕ → T × Queue → List Cqe → Type 0
  Delivers n w [] = Unit {0}
  Delivers n w (cqe ∷ cqes) =
      Deliverable n (holds w.0) w.1 cqe × Delivers n (handle_cqe k ops w cqe) cqes

  pub reap_events-Moves :
      (cqes : List Cqe)
      → {n : ℕ} {o : ℕ → Owner} → (w : T × Queue) → IsOwned n (holds w.0) o w.1
      → Delivers n w cqes
      → Moves n o w.1 (holds (reap_events k ops w cqes).0) (reap_events k ops w cqes).1
  unfolding reap_events
  reap_events-Moves [] w owned d = Moves-same (same_self w.1) owned
  reap_events-Moves (cqe ∷ cqes) w owned d =
      let m = handle_cqe-Moves w cqe owned d.0 in
      Moves-trans w.1 m (reap_events-Moves cqes (handle_cqe k ops w cqe) m.3 d.1)
