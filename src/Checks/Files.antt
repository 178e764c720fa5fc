-- ===== src/Checks/Files.antt =====
-- Runs of the loop target.
use s3blk.Base.{inr, ℕ, ◌≡◌, refl, true, false, [], ◌∷◌}
use s3blk.Base.Int.{pos, eio}
use s3blk.Loop.{
  LoopTgtData, Cqe, reported, start_io, queue_tgt_io, queue_tgt_rw, lo_rw_user_copy, file_pos,
  user_copy_write,
}
use s3blk.Loop.Entries.{file, moves, before, is_chain, request_data, queue_tgt_rw-moves}
use s3blk.Loop.Complete.{run, start_io-first_error}
use s3blk.Ublk.{IoDesc, io_bytes, build_user_data, user_data_to_op}

abbrev user_copy_file : LoopTgtData
user_copy_file = record {
  user_copy = true;
  auto_zc = false;
  zero_copy = false;
  block_device = false;
  offset = 8;
}

abbrev request : ℕ → IoDesc
request op_flags = record { op_flags = op_flags; nr_sectors = 8; start_sector = 16; addr = 0 }

queue_tgt_rw-moves_example :
    let sqes = (queue_tgt_rw 0 user_copy_file (request 0x2001) 3).1 in
    let here = file (file_pos user_copy_file (request 0x2001)) in
    let there = request_data 0 user_copy_file (request 0x2001) 3 in
    (is_chain sqes ≡ true)
    × (moves (before user_copy_file 3) sqes
        ≡ record { from = there; to = here; len = io_bytes (request 0x2001); dsync = true } ∷ [])
queue_tgt_rw-moves_example = queue_tgt_rw-moves 0 user_copy_file (request 0x2001) 3 (inr refl)

abbrev own_cqe : Cqe
own_cqe = record { res = pos 4096; user_data = build_user_data 3 0 0 1 }

abbrev copy_cqe : Cqe
copy_cqe = record { res = eio; user_data = build_user_data 3 user_copy_write 0 1 }

start_io-first_error_example :
    let (job, sqes) = start_io 0 user_copy_file (request 0) 3 in
    run job (own_cqe ∷ copy_cqe ∷ []) ≡ reported eio
unfolding build_user_data user_data_to_op start_io queue_tgt_io queue_tgt_rw lo_rw_user_copy
start_io-first_error_example =
    start_io-first_error 0 user_copy_file (request 0) 3 [] own_cqe (copy_cqe ∷ []) refl tt refl
      (refl, tt) refl
