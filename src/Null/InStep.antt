-- ===== src/Null/InStep.antt =====
-- The coroutines of the null target and the completions of their entries.
use s3blk.Base.{
  ℕ, zero, suc, ◌+◌, ◌-◌, ◌<◌, ◌≡◌, Bool, true, false, if◌then◌else◌, ◌==◌, List, [], ◌∷◌, Option,
  some, none,
}
use s3blk.Ublk.{IoDesc, user_data_to_tag}
use s3blk.Loop.{Job, waiting, again, reported, ended, undefined}
use s3blk.Ublksrv.Types.{Cqe, Queue, set_at}
use s3blk.Ublksrv.Calls.{Call, queue_sqes}
use s3blk.Null.{Sqe, Jobs, submit_io, handle_io_async, tgt_io_done}
use s3blk.Null.Contract.{waits}

-- The entries that post a completion when they succeed.
abbrev pub posting : List Sqe → ℕ
posting [] = 0
posting (s ∷ r) = if s.skip_success then posting r else suc (posting r)

-- Whether entries are put on the ring.
abbrev pub queues : List Call → Bool
queues [] = false
queues (queue_sqes uds ∷ r) = true
queues (c ∷ r) = queues r

-- The target with the completions that are still to come for the entries of each tag.
pub record World : Type 0 where
  pub jobs : Jobs
  pub coming : ℕ → ℕ

module _ (iods : ℕ → IoDesc) (q : Queue) where
  -- The completions that the entries for a tag post, if they are put on the ring.
  abbrev pub posted : ℕ → List Call → ℕ
  posted tag calls =
      if queues calls then posting (submit_io q.auto_zc q.zero_copy (iods tag) tag).1 else 0

  -- The driver hands over an io that the target does not have, or one of the completions comes.
  abbrev pub taken : World → ℕ → World
  taken w tag =
      let (jobs, calls) = handle_io_async iods tag w.jobs q in
      record { jobs = jobs; coming = set_at w.coming tag (w.coming tag + posted tag calls) }

  abbrev pub came : World → Cqe → World
  came w cqe =
      let tag = user_data_to_tag cqe.user_data in
      let (jobs, calls) = tgt_io_done iods cqe w.jobs q in
      record { jobs = jobs; coming = set_at w.coming tag (w.coming tag - 1 + posted tag calls) }

  pub data Reach : World → Type 0 where
    start : Reach (record { jobs = λ t. ended; coming = λ t. 0 })
    take : (w : World) (tag : ℕ) → Reach w → waits w.jobs tag ≡ false → Reach (taken w tag)
    done :
        (w : World) (cqe : Cqe)
        → Reach w
        → 0 < w.coming (user_data_to_tag cqe.user_data)
        → Reach (came w cqe)

-- How many completions a coroutine goes on to wait for; none is right if it is undefined.
abbrev pub missing : Job → Option ℕ
missing (waiting zero r) = none
missing (waiting (suc n) r) = some (suc n)
missing again = none
missing (reported r) = some 0
missing ended = some 0
missing undefined = none

abbrev pub Sound : World → Type 0
Sound w = (t : ℕ) → missing (w.jobs t) ≡ some (w.coming t)

-- One coroutine changes.
abbrev ChangesTo : Jobs → Jobs → ℕ → ℕ → Type 0
ChangesTo s s' tag k = (missing (s' tag) ≡ some k) × ((x : ℕ) → (x == tag) ≡ false → s' x ≡ s x)
