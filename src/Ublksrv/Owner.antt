-- ===== src/Ublksrv/Owner.antt =====
-- The contract of the queue: at any time every tag is with one party, and moves between them by
-- few steps. The detailed queue is compared with this in the children.
pub mod Count
pub mod Moves
pub mod Commands
pub mod Calls
pub mod Target
pub mod Arrived
pub mod Events
pub mod Process
pub mod Start
pub mod Drain
use s3blk.Base.{ℕ, ◌≡◌, List, [], ◌∷◌, ◌++◌, Bool, true, false, ◌<◌, if◌then◌else◌, ◌==◌}
use s3blk.Base.Int.{ℤ}
use s3blk.Ublksrv.Types.{
  set_at, Sqe, io_cmd, batch_cmd, poll_add, poll_multishot, tgt_sqe, Queue, UblkIo,
}
use s3blk.Ublksrv.Calls.{
  Call, complete, queue_sqes, inc_inflight, dec_inflight, events_handled, Callback,
}
use s3blk.Ublksrv.Command.{has_need}

-- A tag is with the driver, which has a command for it; with the target, which has an io of it;
-- held by the queue, which has something to tell the driver; or parked, for good.
pub data Owner : Type 0 where
  driver : Owner
  target : Owner
  held : Owner
  parked : Owner

abbrev pub is_driver : Owner → Bool
is_driver driver = true
is_driver target = false
is_driver held = false
is_driver parked = false

abbrev pub is_target : Owner → Bool
is_target driver = false
is_target target = true
is_target held = false
is_target parked = false

-- One step, with the tags for which a command is issued: an io comes, the driver gives a command
-- back for good, it asks for the buffer of a write, the target has a result, and a command goes to
-- the driver.
pub data Step : (ℕ → Owner) → List ℕ → (ℕ → Owner) → Type 0 where
  fetched : (o : ℕ → Owner) (t : ℕ) → o t ≡ driver → Step o [] (set_at o t target)
  aborted : (o : ℕ → Owner) (t : ℕ) → o t ≡ driver → Step o [] (set_at o t parked)
  data_wanted : (o : ℕ → Owner) (t : ℕ) → o t ≡ driver → Step o [] (set_at o t held)
  result : (o : ℕ → Owner) (t : ℕ) → o t ≡ target → Step o [] (set_at o t held)
  issued : (o : ℕ → Owner) (t : ℕ) → o t ≡ held → Step o (t ∷ []) (set_at o t driver)

pub data Steps : (ℕ → Owner) → List ℕ → (ℕ → Owner) → Type 0 where
  stay : (o : ℕ → Owner) → Steps o [] o
  go :
      {o o' o'' : ℕ → Owner} {l l' : List ℕ} → Step o l o' → Steps o' l' o'' → Steps o (l ++ l') o''

-- The tags of the io commands among the entries of the ring.
abbrev pub issued_tags : List Sqe → List ℕ
issued_tags [] = []
issued_tags (io_cmd c ∷ r) = c.tag ∷ issued_tags r
issued_tags (batch_cmd c ∷ r) = issued_tags r
issued_tags (poll_add fd u ∷ r) = issued_tags r
issued_tags (poll_multishot fd u ∷ r) = issued_tags r
issued_tags (tgt_sqe u ∷ r) = issued_tags r

-- What the flags of an io say about its owner.
abbrev pub FlagsOf : Owner → UblkIo → Type 0
FlagsOf driver io = (io.io_free ≡ false) × (has_need io ≡ false)
FlagsOf target io = (io.io_free ≡ false) × (has_need io ≡ false)
FlagsOf held io = (io.io_free ≡ true) × (has_need io ≡ true)
FlagsOf parked io = (io.io_free ≡ true) × (has_need io ≡ false)

-- `h` tells which ios a target has. Its calls complete ios it has, each once, and leave `h'`.
abbrev pub Plays : (ℕ → Bool) → List Call → (ℕ → Bool) → Type 0
Plays h [] h' = (t : ℕ) → h' t ≡ h t
Plays h (complete t res ∷ cs) h' = (h t ≡ true) × Plays (set_at h t false) cs h'
Plays h (queue_sqes u ∷ cs) h' = Plays h cs h'
Plays h (inc_inflight ∷ cs) h' = Plays h cs h'
Plays h (dec_inflight ∷ cs) h' = Plays h cs h'
Plays h (events_handled ∷ cs) h' = Plays h cs h'
