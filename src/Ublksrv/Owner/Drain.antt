-- ===== src/Ublksrv/Owner/Drain.antt =====
-- A queue that stops comes to its end when the driver gives its commands back.
use s3blk.Base.{
  ℕ, zero, suc, ◌^◌, ◌<◌, ◌≡◌, ◌⊎◌, inl, inr, refl, sym, ap, ◌∙◌, arith, List, [], ◌∷◌, Bool, true,
  false, Bool-cases, length, subst,
}
use s3blk.Base.Int.{minus}
use s3blk.Ublk.{build_user_data}
use s3blk.Ublk.Tags.{user_data-build_user_data}
use s3blk.Ublksrv.Types.{set_at, Cqe, Queue, Kernel, Ring, commit_and_fetch_req}
use s3blk.Ublksrv.Calls.{TgtOps}
use s3blk.Ublksrv.Command.{only_free}
use s3blk.Ublksrv.Events.{handle_cmd_cqe, handle_cqe, reap_events, arrived}
use s3blk.Ublksrv.Process.{queue_is_done}
use s3blk.Ublksrv.Owner.{Owner, driver, target, held, parked, is_driver, FlagsOf}
use s3blk.Ublksrv.Owner.Count.{count, one_if, count-set_at, count_bound, set_at_same}
use s3blk.Ublksrv.Owner.Moves.{IsOwned}
use s3blk.Ublksrv.Owner.Target.{IsTarget}
use s3blk.Ublksrv.Owner.Arrived.{taken, arrived_ios, arrived_inflight}
use s3blk.Ublksrv.Owner.Events.{Deliverable, Delivers}

-- The driver gives the command of `tag` back with UBLK_IO_RES_ABORT.
abbrev pub abort_cqe : ℕ → Cqe
abort_cqe tag = record {
  res = minus 19;
  user_data = build_user_data tag commit_and_fetch_req 0 0;
  more = false;
}

abbrev pub abort_cqes : List ℕ → List Cqe
abort_cqes [] = []
abort_cqes (t ∷ r) = abort_cqe t ∷ abort_cqes r

-- The queue after that.
abbrev aborted_queue : Queue → ℕ → Queue
aborted_queue q tag =
    let q' = arrived q tag false in record q' { ios = set_at q'.ios tag (only_free (q'.ios tag)) }

find_driver :
    (o : ℕ → Owner) (n m : ℕ) → count is_driver o n ≡ suc m → (t : ℕ) × (t < n) × (o t ≡ driver)
unfolding count
find_driver o zero m e = absurd (omega arith)
find_driver o (suc n) m e = elim (Bool-cases (is_driver (o n))) [
  | inl d ↦ (n, omega arith, is_driver_eq (o n) d)
  | inr d ↦
      let e' : count is_driver o n ≡ suc m = omega (arith, e, rest d) in
      let r = find_driver o n m e' in (r.0, omega (arith, r.1), r.2)
]
  where
    rest : is_driver (o n) ≡ false → one_if (is_driver (o n)) ≡ 0
    rest d = rw d refl

    is_driver_eq : (a : Owner) → is_driver a ≡ true → a ≡ driver
    is_driver_eq driver d = refl
    is_driver_eq target d = cc
    is_driver_eq held d = cc
    is_driver_eq parked d = cc

module _ {T : Type 0} (k : Kernel) (ops : TgtOps T) where
  handle_cqe-abort :
      (w : T × Queue) (tag : ℕ)
      → tag < 2 ^ 16
      → w.1.batch_io ≡ false
      → handle_cqe k ops w (abort_cqe tag) ≡ (w.0, aborted_queue w.1 tag)
  unfolding handle_cqe handle_cmd_cqe
  handle_cqe-abort w tag small single =
      let u =
        user_data-build_user_data tag commit_and_fetch_req 0 0 small (omega arith) (omega arith)
          (omega arith) in
      rw (u.4, single, u.0) refl

-- What an abort leaves: one command less, no owner but that of `tag` changed, nothing on the ring.
record Aborted (n : ℕ) (h : ℕ → Bool) (o : ℕ → Owner) (q q' : Queue) (tag : ℕ) : Type 0 where
  owned : IsOwned n h (set_at o tag parked) q'
  fewer : q.cmd_inflight ≡ suc q'.cmd_inflight
  stops : q'.stopping ≡ true
  still : q'.ring ≡ q.ring

arrived_stopping : (q : Queue) (tag : ℕ) → (arrived q tag false).stopping ≡ true
unfolding arrived
arrived_stopping q tag = refl

arrived_ring : (q : Queue) (tag : ℕ) → (arrived q tag false).ring ≡ q.ring
unfolding arrived
arrived_ring q tag = refl

abort_step :
    {n : ℕ} {h : ℕ → Bool} {o : ℕ → Owner} (q : Queue) (tag : ℕ)
    → IsOwned n h o q
    → tag < n
    → o tag ≡ driver
    → Aborted n h o q (aborted_queue q tag) tag
abort_step {n} {h} {o} q tag w lt e =
    let q' = arrived q tag false in
    let io = only_free (q'.ios tag) in
    let away : h tag ≡ false = w.holding tag ∙ rw e refl in
    let was : one_if (is_driver (o tag)) ≡ 1 = rw e refl in
    let left = count-set_at is_driver o n tag parked lt in
    let few = count_bound is_driver o n in
    let less = arrived_inflight q tag false in
    record {
      owned =
          taken q tag false parked io (aborted_queue q tag) w lt e refl (refl, refl) refl refl
            (arrived_ios q tag false io) (set_at_same h tag away);
      fewer = omega (arith, was, left, few, less, w.inflight, w.small);
      stops = arrived_stopping q tag;
      still = arrived_ring q tag;
    }

module _ {T : Type 0} (k : Kernel) (ops : TgtOps T) (holds : T → ℕ → Bool)
    (c : IsTarget ops holds) where
  abort_cqe-Deliverable :
      {n : ℕ} {o : ℕ → Owner} (w : T × Queue) (tag : ℕ)
      → IsOwned n (holds w.0) o w.1
      → tag < n
      → o tag ≡ driver
      → Deliverable n (holds w.0) w.1 (abort_cqe tag)
  abort_cqe-Deliverable {o = o} w tag owned lt e =
      let u =
        user_data-build_user_data tag commit_and_fetch_req 0 0 (omega (arith, lt, owned.small))
          (omega arith) (omega arith) (omega arith) in
      let f = subst (λ a. FlagsOf a (w.1.ios tag)) e (owned.flags tag lt) in
      let away : holds w.0 tag ≡ false = owned.holding tag ∙ rw e refl in
      inr (u.4, rw u.0 lt, rw u.0 away, rw u.0 (f.0))

  reap_abort :
      (w : T × Queue) (t : ℕ) (ts : List ℕ) {v : T × Queue}
      → handle_cqe k ops w (abort_cqe t) ≡ v
      → reap_events k ops w (abort_cqes (t ∷ ts)) ≡ reap_events k ops v (abort_cqes ts)
  unfolding reap_events
  reap_abort w t ts e = ap (λ (v : T × Queue). reap_events k ops v (abort_cqes ts)) e

  -- From a queue that agrees with the owners of its tags, has nothing left to submit, and stops or
  -- has commands with the driver, the driver can give back one command after the other with
  -- UBLK_IO_RES_ABORT, as many as the queue counts, and then the queue is done.
  pub reap_events-queue_is_done :
      (m : ℕ)
      → {n : ℕ} {o : ℕ → Owner} → (w : T × Queue) → IsOwned n (holds w.0) o w.1
      → w.1.ring.ready ≡ 0
      → (w.1.stopping ≡ true) ⊎ (0 < w.1.cmd_inflight)
      → w.1.cmd_inflight ≡ m
      → (ts : List ℕ) × Delivers k ops holds c n w (abort_cqes ts)
        × (length ts ≡ m)
        × (queue_is_done (reap_events k ops w (abort_cqes ts)).1 ≡ true)
  unfolding reap_events queue_is_done
  reap_events-queue_is_done zero w owned ready (inr some_left) e = absurd (omega arith)
  reap_events-queue_is_done zero w owned ready (inl stops) e =
      ([], tt, refl, rw (stops, ready, e) refl)
  reap_events-queue_is_done (suc m) {n} {o} w owned ready s e =
      let found = find_driver o n m (sym owned.inflight ∙ e) in
      let t = found.0 in
      let a = abort_step w.1 t owned found.1 found.2 in
      let q' = aborted_queue w.1 t in
      let d = abort_cqe-Deliverable w t owned found.1 found.2 in
      let ready' : q'.ring.ready ≡ 0 = ap (λ (r : Ring). r.ready) a.still ∙ ready in
      let r =
        reap_events-queue_is_done m (w.0, q') a.owned ready' (inl a.stops)
          (omega (arith, a.fewer, e)) in
      let same = handle_cqe-abort k ops w t (omega (arith, found.1, owned.small)) owned.single in
      (
        t ∷ r.0,
        (d, rw same r.1),
        omega (arith, r.2),
        ap (λ (v : T × Queue). queue_is_done v.1) (reap_abort w t r.0 same) ∙ r.3,
      )
