-- ===== src/Ublksrv/Owner/Arrived.antt =====
-- The completion of an io command is a move.
use s3blk.Base.{
  ℕ, ◌+◌, ◌<◌, ◌≡◌, inl, inr, refl, sym, ◌∙◌, arith, Bool, true, false, not, ◌&&◌, Bool-cases,
  sub32, subst,
}
use s3blk.Base.Int.{is_errno}
use s3blk.Ublk.{user_data_to_tag}
use s3blk.Ublksrv.Types.{set_at, Cqe, Queue, Kernel, UblkIo, is_res}
use s3blk.Ublksrv.Command.{only_free}
use s3blk.Ublksrv.Calls.{TgtOps, upcall}
use s3blk.Ublksrv.Events.{arrived, wants_data, handle_cmd_cqe}
use s3blk.Ublksrv.Owner.{
  Owner, driver, target, held, parked, is_driver, is_target, fetched, aborted, data_wanted, FlagsOf,
}
use s3blk.Ublksrv.Owner.Count.{one_if, set_at_self, set_at_same, count-set_at, count_bound}
use s3blk.Ublksrv.Owner.Moves.{IsOwned, Moves, Moves-same, set_owner, step_then}
use s3blk.Ublksrv.Owner.Commands.{queue_io_cmd-Moves}
use s3blk.Ublksrv.Owner.Calls.{run_calls-Moves, same_self}
use s3blk.Ublksrv.Owner.Target.{IsTarget}

is_driver_inv :
    (a : Owner) (io : UblkIo) → FlagsOf a io → io.io_free ≡ false → is_target a ≡ false → a ≡ driver
is_driver_inv driver io f e e' = refl
is_driver_inv target io f e e' = cc
is_driver_inv held io f e e' = cc
is_driver_inv parked io f e e' = cc

-- The flags that a tag with the driver has when its completion arrives.
arrived_flags :
    (q : Queue) (tag : ℕ) (fetch : Bool)
    → FlagsOf driver (q.ios tag)
    → FlagsOf driver ((arrived q tag fetch).ios tag)
unfolding arrived
arrived_flags q tag true f = f
arrived_flags q tag false f = ground arith

pub arrived_ios :
    (q : Queue) (tag : ℕ) (fetch : Bool) (io : UblkIo) (x : ℕ)
    → set_at (arrived q tag fetch).ios tag io x ≡ set_at q.ios tag io x
unfolding arrived
arrived_ios q tag true io x = refl
arrived_ios q tag false io x = ground arith

pub arrived_sqes :
    (q : Queue) (tag : ℕ) (fetch : Bool) → (arrived q tag fetch).ring.sqes ≡ q.ring.sqes
unfolding arrived
arrived_sqes q tag fetch = ground arith

pub arrived_inflight :
    (q : Queue) (tag : ℕ) (fetch : Bool)
    → (arrived q tag fetch).cmd_inflight ≡ sub32 q.cmd_inflight 1
unfolding arrived
arrived_inflight q tag fetch = ground arith

arrived_batch : (q : Queue) (tag : ℕ) (fetch : Bool) → (arrived q tag fetch).batch_io ≡ q.batch_io
unfolding arrived
arrived_batch q tag fetch = ground arith

wants_data_flags : (io : UblkIo) → FlagsOf held (wants_data io)
wants_data_flags io = ground arith

arrived_ios_self :
    (q : Queue) (tag : ℕ) (fetch : Bool) (x : ℕ)
    → (arrived q tag fetch).ios x ≡ set_at q.ios tag ((arrived q tag fetch).ios tag) x
unfolding arrived
arrived_ios_self q tag true x = set_at_same q.ios tag refl x
arrived_ios_self q tag false x = ground arith

module _ {n : ℕ} {h : ℕ → Bool} {o : ℕ → Owner} (q : Queue) (tag : ℕ) (fetch : Bool) where
  -- A tag goes from the driver to `a`, which is not the driver.
  pub taken :
      {h' : ℕ → Bool} (a : Owner) (io : UblkIo) (q' : Queue)
      → IsOwned n h o q
      → tag < n
      → o tag ≡ driver
      → is_driver a ≡ false
      → FlagsOf a io
      → q'.batch_io ≡ (arrived q tag fetch).batch_io
      → q'.cmd_inflight ≡ (arrived q tag fetch).cmd_inflight
      → ((x : ℕ) → q'.ios x ≡ set_at q.ios tag io x)
      → ((x : ℕ) → h' x ≡ set_at h tag (is_target a) x)
      → IsOwned n h' (set_at o tag a) q'
  taken a io q' w lt e away fits b c i e' =
      let was : one_if (is_driver (o tag)) ≡ 1 = rw e refl in
      let now : one_if (is_driver a) ≡ 0 = rw away refl in
      let some_left = count-set_at is_driver o n tag parked lt in
      let few = count_bound is_driver o n in
      let less : q'.cmd_inflight ≡ sub32 q.cmd_inflight 1 = c ∙ arrived_inflight q tag fetch in
      let balance : q'.cmd_inflight + one_if (is_driver (o tag))
          ≡ q.cmd_inflight + one_if (is_driver a) =
        omega (arith, was, now, some_left, few, less, w.inflight, w.small) in
      set_owner tag a io w lt fits (b ∙ arrived_batch q tag fetch) i balance e'

module _ {T : Type 0} (k : Kernel) (ops : TgtOps T) (holds : T → ℕ → Bool) {n : ℕ}
    {o : ℕ → Owner} where
  pub handle_cmd_cqe-Moves :
      (s : T) (q : Queue) (cqe : Cqe)
      → IsTarget ops holds
      → IsOwned n (holds s) o q
      → user_data_to_tag cqe.user_data < n
      → holds s (user_data_to_tag cqe.user_data) ≡ false
      → (q.ios (user_data_to_tag cqe.user_data)).io_free ≡ false
      → Moves n o q (holds (handle_cmd_cqe k ops (s, q) cqe).0) (handle_cmd_cqe k ops (s, q) cqe).1
  unfolding handle_cmd_cqe upcall
  handle_cmd_cqe-Moves s q cqe c w lt away busy =
      let tag = user_data_to_tag cqe.user_data in
      let fetch = not (is_errno 19 cqe.res) && not q.stopping in
      let q' = arrived q tag fetch in
      let e : o tag ≡ driver =
        is_driver_inv (o tag) (q.ios tag) (w.flags tag lt) busy (sym (w.holding tag) ∙ away) in
      let clear : FlagsOf driver (q'.ios tag) =
        arrived_flags q tag fetch (subst (λ a. FlagsOf a (q.ios tag)) e (w.flags tag lt)) in
      elim (Bool-cases (is_res 0 cqe.res)) [
        | inl ok ↦ rw ok (
            step_then q q' tag target (fetched o tag e) (arrived_sqes q tag fetch) (
              upcall_io-Moves s q' tag c away (
                taken q tag fetch target (q'.ios tag) q' w lt e refl clear refl refl
                  (arrived_ios_self q tag fetch) (λ x. refl))))
        | inr e0 ↦ elim (Bool-cases (is_res 1 cqe.res)) [
          | inl get ↦
              let io = wants_data (q'.ios tag) in
              let wanting : Queue = record q' { ios = set_at q'.ios tag io } in
              let moved : IsOwned n (holds s) (set_at o tag held) wanting =
                taken q tag fetch held io wanting w lt e refl (wants_data_flags (q'.ios tag)) refl
                  refl (arrived_ios q tag fetch io) (set_at_same (holds s) tag away) in
              rw (e0, get)
                (step_then q wanting tag held (data_wanted o tag e) (arrived_sqes q tag fetch)
                  (queue_io_cmd-Moves k wanting tag moved lt (set_at_self o tag held)))
          | inr gone ↦
              let io = only_free (q'.ios tag) in
              let freed : Queue = record q' { ios = set_at q'.ios tag io } in
              let moved : IsOwned n (holds s) (set_at o tag parked) freed =
                taken q tag fetch parked io freed w lt e refl (refl, refl) refl refl
                  (arrived_ios q tag fetch io) (set_at_same (holds s) tag away) in
              rw (e0, gone)
                (step_then q freed tag parked (aborted o tag e) (arrived_sqes q tag fetch)
                  (Moves-same (same_self freed) moved))
        ]
      ]
    where
      upcall_io-Moves :
          {o' : ℕ → Owner} (s : T) (q' : Queue) (tag : ℕ)
          → IsTarget ops holds
          → holds s tag ≡ false
          → IsOwned n (set_at (holds s) tag true) o' q'
          → Moves n o' q'
              (holds (upcall k (ops.handle_io_async tag) (s, q')).0)
              (upcall k (ops.handle_io_async tag) (s, q')).1
      upcall_io-Moves s q' tag c away w =
          run_calls-Moves k (ops.handle_io_async tag s q').1 q' w (c.takes_io tag s q' away)
