-- ===== src/Checks/Batches.antt =====
-- A queue in batch mode.
use s3blk.Base.{
  ℕ, ◌<◌, ◌≡◌, refl, arith, true, false, [], ◌∷◌, ◌++◌, none, length, if◌then◌else◌, ◌==◌,
}
use s3blk.Base.Int.{ℤ, pos}
use s3blk.Ublk.{build_user_data, user_data_to_tag}
use s3blk.Ublksrv.Types.{
  batch_cmd, BatchIo, BatchElem, Batch, Kernel, Queue, UblkIo, Cqe, set_at, fetch_nr,
}
use s3blk.Ublksrv.Ring.{alloc_sqe}
use s3blk.Ublksrv.Command.{current, complete_io, batch_add_complete}
use s3blk.Ublksrv.Batch.{elems_of, batch_submit_commit, tags_of_cqe, advance_fetch}
use s3blk.Ublksrv.Batch.Commit.{
  IsBatched, complete_io-IsBatched, batch_submit_commit-IsBatched, results, handed_over,
}
use s3blk.Ublksrv.Batch.Fetch.{Written, tags_of_cqe-valid_tags}
use s3blk.Ublksrv.Owner.{Owner, driver, target, held}
use s3blk.Ublksrv.Owner.Count.{count}

abbrev kernel : Kernel
kernel = record { sq_entries = 2; takes = λ r. r.ready; epoll_wait = λ r. [] }

abbrev no_elem : BatchElem
no_elem = record { tag = 0; buf_index = 0; result = pos 0; buf_addr = 0 }

-- The tags 1 and 0, little-endian, then zeroes.
abbrev bytes : ℕ → ℕ
bytes i = if i == 0 then 1 else 0

abbrev batch : Batch
batch = record {
  fetch_bufs = λ i. record { fetch_buf = bytes; fetch_buf_size = 4096; fetch_buf_off = 0 };
  commit_bufs = λ i. record { buf = λ j. no_elem; done = 0; count = 512 };
  commit_buf_elem_size = 8;
  cur_commit_buf = 0;
  prep_done = true;
  cmd_flags = 0;
}

abbrev io : UblkIo
io = record {
  buf_addr = 0;
  need_fetch_rq = true;
  need_commit_rq_comp = false;
  io_free = true;
  need_get_data = false;
  result = pos 0;
}

abbrev pub queue : Queue
queue = record {
  q_id = 0;
  q_depth = 2;
  stopping = false;
  idle = false;
  ioctl_op = true;
  user_copy = true;
  zero_copy = false;
  auto_zc = false;
  poll = false;
  batch_io = true;
  cmd_inflight = 1;
  tgt_io_inflight = 0;
  efd = none;
  efd_value = 0;
  epollfd = 0;
  ring = record { sqes = []; ready = 0 };
  ios = λ t. io;
  batch = batch;
}

-- Tag 1 is with the target.
abbrev owners : ℕ → Owner
owners = set_at (λ t. driver) 1 target

queue-IsBatched : IsBatched 2 owners [] queue
unfolding elems_of count
queue-IsBatched = record {
  small = omega arith;
  batched = refl;
  two_bufs = omega arith;
  collected = refl;
  filled = refl;
}

abbrev collecting : Queue
collecting = (complete_io kernel queue 1 (pos 512)).1

one_collected : 0 < (current collecting).done
unfolding complete_io batch_add_complete
one_collected = omega arith

entry_found : (alloc_sqe kernel collecting.ring).0 ≡ true
unfolding alloc_sqe complete_io batch_add_complete
entry_found = refl

batch_submit_commit-IsBatched_example :
    IsBatched 2 (handed_over (set_at owners 1 held)) [] (batch_submit_commit kernel collecting)
    × ((c : BatchIo) × ((batch_submit_commit kernel collecting).ring.sqes
          ≡ collecting.ring.sqes ++ batch_cmd c ∷ [])
        × (results c.elems ≡ (1, pos 512) ∷ [])
        × (c.nr_elem ≡ length {A = ℕ × ℤ} ((1, pos 512) ∷ [])))
batch_submit_commit-IsBatched_example =
    batch_submit_commit-IsBatched kernel collecting
      (complete_io-IsBatched kernel queue 1 (pos 512) queue-IsBatched (omega arith) refl).0
      one_collected entry_found

-- The kernel has written two tags.
abbrev two_tags : Cqe
two_tags = record { res = pos 4; user_data = build_user_data 0 fetch_nr 2048 0; more = true }

two-Written : Written bytes 0 (1 ∷ 0 ∷ [])
two-Written = (refl, (refl, tt))

tags_of_cqe-valid_tags_example :
    (tags_of_cqe queue two_tags ≡ 1 ∷ 0 ∷ [])
    × (((advance_fetch queue two_tags).batch.fetch_bufs
          (user_data_to_tag two_tags.user_data)).fetch_buf_off
        ≡ 4)
tags_of_cqe-valid_tags_example =
    tags_of_cqe-valid_tags queue two_tags (1 ∷ 0 ∷ []) refl (omega arith) two-Written
