-- ===== src/Checks/Rings.antt =====
-- Runs of the submission ring and of the encodings.
use s3blk.Base.{ℕ, ◌<◌, ◌≤◌, ◌≡◌, arith, refl, false, true, [], ◌∷◌, ◌++◌}
use s3blk.Ublk.{
  build_user_data, user_data_to_tag, user_data_to_op, user_data_to_tgt_data, is_target_io,
  is_internal_io,
}
use s3blk.Ublk.Tags.{user_data-build_user_data}
use s3blk.Nvme.Types.{zeroed}
use s3blk.Nvme.Ring.{sq_push, pending}
use s3blk.Nvme.Ring.Doorbell.{IsRing, IsBatched}
use s3blk.Nvme.Ring.Controller.{System, Step, Reach, Inv, unfetched, unfetched_count, Reach-order}
use s3blk.Checks.{small_queue}

abbrev this_tag : ℕ
this_tag = 5

abbrev set_bit : ℕ
set_bit = 1

small-IsRing : IsRing small_queue
small-IsRing = omega arith

small-IsBatched : IsBatched small_queue
small-IsBatched = omega arith

abbrev at_start : System
at_start = record { host = small_queue; head = 0; sent = []; fetched = [] }

at_start-Inv : Inv at_start
at_start-Inv = record {
  ring = small-IsRing;
  batched = small-IsBatched;
  slots = refl;
  head_in = omega arith;
  between = refl;
  order = refl;
}

abbrev submitted : System
submitted = record at_start { host = sq_push small_queue zeroed; sent = zeroed ∷ [] }

Reach-order_example :
    (submitted.sent ≡ submitted.fetched ++ unfetched submitted)
    × (pending submitted.host ≤ unfetched_count submitted)
    × (pending submitted.host < 32)
Reach-order_example =
    Reach-order at_start-Inv (Reach.next Reach.here (Step.submit at_start zeroed (omega arith)))

user_data-build_user_data_example :
    let d = build_user_data 5 1 9 set_bit in
    (user_data_to_tag d ≡ 5)
    × (user_data_to_op d ≡ 1)
    × (user_data_to_tgt_data d ≡ 9)
    × (is_internal_io d ≡ false)
    × (is_target_io d ≡ true)
user_data-build_user_data_example =
    user_data-build_user_data 5 1 9 set_bit (omega arith) (omega arith) (omega arith) (omega arith)
