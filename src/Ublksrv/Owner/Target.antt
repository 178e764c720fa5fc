-- ===== src/Ublksrv/Owner/Target.antt =====
-- What the queue relies on of a target, and that its callbacks are moves then.
use s3blk.Base.{ℕ, ◌≡◌, refl, [], Bool, true, false, Option, none, some}
use s3blk.Ublksrv.Types.{set_at, Cqe, Queue, Kernel}
use s3blk.Ublksrv.Calls.{Callback, TgtOps, upcall, upcall_opt, apply_opt, run_calls}
use s3blk.Ublksrv.Owner.{Owner, Plays}
use s3blk.Ublksrv.Owner.Moves.{IsOwned, Moves}
use s3blk.Ublksrv.Owner.Calls.{run_calls-Moves}

module _ {T : Type 0} where
  -- A callback completes some of the ios that the target has.
  abbrev pub IsFair : (T → ℕ → Bool) → Callback T → Type 0
  IsFair holds f = (s : T) (q : Queue) → Plays (holds s) (f s q).1 (holds (f s q).0)

  abbrev pub IsFairOpt : (T → ℕ → Bool) → Option (Callback T) → Type 0
  IsFairOpt holds none = Unit {0}
  IsFairOpt holds (some f) = IsFair holds f

  -- The contract of a target, whose state tells which ios it has: it takes the io it is handed,
  -- and all its callbacks complete ios that it has, each once.
  pub record IsTarget (ops : TgtOps T) (holds : T → ℕ → Bool) : Type 0 where
    pub takes_io :
        (tag : ℕ) (s : T) (q : Queue)
        → holds s tag ≡ false
        → Plays
            (set_at (holds s) tag true)
            (ops.handle_io_async tag s q).1
            (holds (ops.handle_io_async tag s q).0)
    pub fair_done : (cqe : Cqe) → IsFairOpt holds (apply_opt ops.tgt_io_done cqe)
    pub fair_event : IsFairOpt holds ops.handle_event
    pub fair_background : (n : ℕ) → IsFairOpt holds (apply_opt ops.handle_io_background n)
    pub fair_idle : (enter : Bool) → IsFairOpt holds (apply_opt ops.idle_fn enter)
    pub fair_epoll : (fd events : ℕ) → IsFair holds (ops.epoll_cb fd events)

  module _ (k : Kernel) (holds : T → ℕ → Bool) {n : ℕ} {o : ℕ → Owner} where
    pub upcall-Moves :
        (f : Callback T) (w : T × Queue)
        → IsFair holds f
        → IsOwned n (holds w.0) o w.1
        → Moves n o w.1 (holds (upcall k f w).0) (upcall k f w).1
    unfolding upcall
    upcall-Moves f (s, q) fair owned = run_calls-Moves k (f s q).1 q owned (fair s q)

    pub upcall_opt-Moves :
        (f : Option (Callback T)) (w : T × Queue)
        → IsFairOpt holds f
        → IsOwned n (holds w.0) o w.1
        → Moves n o w.1 (holds (upcall_opt k f w).0) (upcall_opt k f w).1
    unfolding run_calls
    upcall_opt-Moves none w fair owned = run_calls-Moves k [] w.1 owned (λ t. refl)
    upcall_opt-Moves (some f) w fair owned = upcall-Moves f w fair owned
