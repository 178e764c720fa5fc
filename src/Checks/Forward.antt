-- ===== src/Checks/Forward.antt =====
-- Runs of the nbd target.
use s3blk.Base.{ℕ, ◌/◌, ◌≡◌, ◌⊎◌, inr, arith, refl, true, false, [], ◌∷◌, none}
use s3blk.Base.Int.{ℤ, pos}
use s3blk.Ublk.{IoDesc}
use s3blk.Nbd.Wire.{cmd_handle, req_to_nbd_cmd_type, cmd_write}
use s3blk.Nbd.Send.{Env, QueueData, handle_io_async, handle_send_bg, submit_chain}
use s3blk.Nbd.Chain.{arrive, flush, submit, IsServed, tally, count}
use s3blk.Nbd.Chain.Tally.{Run, AllSmall, Run-tally}
use s3blk.Nbd.Recv.{handle_recv_reply, Reply, reply_magic, read_data, resumed, reply_result}
use s3blk.Nbd.Recv.Match.{handle_recv_reply-cmd_handle}

-- Every tag writes 8 sectors, with force unit access.
abbrev pub write_request : IoDesc
write_request = record { op_flags = 0x2001; nr_sectors = 8; start_sector = 16; addr = 0x7000 }

abbrev pub nbd_env : Env
nbd_env = record { q_id = 1; depth = 4; iods = λ tag. write_request; sqe_free = λ l. true }

-- The receiver has the 16 bytes of a reply.
abbrev pub idle_queue : QueueData
idle_queue = record {
  in_flight_ios = 0;
  recv_started = false;
  use_send_zc = false;
  need_handle_recv = false;
  chain_active = false;
  chained_send_ios = 0;
  next_chain = [];
  last_send_sqe = none;
  recv_cqe = record { res = pos 0; user_data = 0; notif = false };
  io_data = λ tag. record { cmd_cookie = 7; done = 16 };
  sqes = [];
  completed = [];
}

abbrev pub this_tag : ℕ
this_tag = 2

nbd_env-IsServed : IsServed nbd_env
unfolding req_to_nbd_cmd_type
nbd_env-IsServed = record {
  free = λ l. refl;
  kind = λ t. cmd_write;
  known = λ t. refl;
  sectors = λ t. omega arith;
}

abbrev arrived : QueueData
arrived = handle_io_async nbd_env idle_queue this_tag

first-Run : Run nbd_env idle_queue (this_tag ∷ []) (submit_chain (handle_send_bg nbd_env arrived))
first-Run =
    Run.next
      (Run.next (Run.next Run.here (arrive idle_queue this_tag (omega arith))) (flush arrived))
      (submit (handle_send_bg nbd_env arrived))

Run-tally_example :
    let q = submit_chain (handle_send_bg nbd_env arrived) in
    (tally this_tag q ≡ count this_tag (this_tag ∷ [])) × AllSmall q.next_chain
Run-tally_example = Run-tally nbd_env-IsServed this_tag refl refl first-Run

abbrev busy_queue : QueueData
busy_queue = record idle_queue { chain_active = true; chained_send_ios = 1 }

abbrev pub good_reply : Reply
good_reply = record { magic = reply_magic; error = 0; handle = cmd_handle 1 this_tag 7 }

handle_recv_reply-cmd_handle_example :
    handle_recv_reply nbd_env idle_queue good_reply (pos 0)
    ≡ resumed this_tag (reply_result nbd_env this_tag 0)
handle_recv_reply-cmd_handle_example =
    handle_recv_reply-cmd_handle nbd_env idle_queue this_tag 0 (pos 0) (omega arith) (omega arith)
      (omega arith) (omega arith) refl refl

matched :
    (handle_recv_reply nbd_env idle_queue good_reply (pos 0) ≡ read_data this_tag)
    ⊎ ((r : ℤ) × (handle_recv_reply nbd_env idle_queue good_reply (pos 0) ≡ resumed this_tag r))
matched = inr (
  reply_result nbd_env this_tag 0,
  handle_recv_reply-cmd_handle nbd_env idle_queue this_tag 0 (pos 0) (omega arith) (omega arith)
      (omega arith) (omega arith) refl refl,
)

-- recv returns half of what it is asked for.
abbrev halves : ℕ → ℕ → ℤ
halves k n = pos (n / 2)
