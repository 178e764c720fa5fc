-- ===== src/Checks/Replies.antt =====
-- The receiver of the nbd target on a small queue.
use s3blk.Base.{◌≡◌, ◌⊎◌, arith, refl, true, false, [], ◌∷◌}
use s3blk.Base.Int.{pos}
use s3blk.Ublk.{unique_tag, unique_tag_to_hwq, unique_tag_to_tag}
use s3blk.Nbd.Wire.{req_to_nbd_cmd_type, cmd_write, cmd_handle, handle_to_cookie, handle_to_tag}
use s3blk.Nbd.Send.{QueueData, resume_io, finish_io}
use s3blk.Nbd.Recv.{handle_recv_reply, do_recv, recv_loop, start_recv}
use s3blk.Nbd.Recv.Job.{
  Net, Receiver, ended, gave_up, run, step, received, after_reply, start_recv_job, handle_io_bg,
}
use s3blk.Nbd.Recv.Job.Moves.{Known}
use s3blk.Nbd.Recv.Job.Ends.{Stopped, start_recv_job-Stopped}
use s3blk.Nbd.Recv.Job.Background.{IsResting}
use s3blk.Nbd.Recv.Job.NoHang.{IsAwaited, handle_io_bg-IsAwaited}
use s3blk.Checks.Forward.{nbd_env, idle_queue, this_tag, good_reply}

-- All bytes are there at once, and they are the reply to the write with tag 2.
abbrev net : Net
net = record { rd = λ call round asked. pos asked; reply = λ call. good_reply }

-- The write has been sent.
abbrev sent_queue : QueueData
sent_queue = record idle_queue {
  in_flight_ios = 1;
  chained_send_ios = 1;
  chain_active = true;
  io_data = λ tag. record { cmd_cookie = 7; done = 0 };
}

abbrev receiver : Receiver
receiver = record { point = ended (pos 0); queue = sent_queue; calls = 0 }

known : Known nbd_env
unfolding req_to_nbd_cmd_type
known t = (cmd_write, refl)

resting : IsResting receiver.point receiver.queue
resting = (refl, (λ h. cc), refl, (λ h. cc), (λ h. cc))

start_recv_job-Stopped_example : Stopped sent_queue (start_recv_job nbd_env net receiver)
start_recv_job-Stopped_example = start_recv_job-Stopped nbd_env net receiver known (omega arith)

handle_io_bg-IsAwaited_example :
    let r' = handle_io_bg nbd_env net receiver in
    (r'.point ≡ gave_up)
    ⊎ (IsResting r'.point r'.queue
        × IsAwaited r'.point r'.queue
        × (r'.queue.need_handle_recv ≡ false))
handle_io_bg-IsAwaited_example =
    handle_io_bg-IsAwaited nbd_env net receiver known resting (omega arith) (omega arith)

-- The reply completes the write with all its bytes.
completed_write : (start_recv_job nbd_env net receiver).queue.completed ≡ (this_tag, pos 4096) ∷ []
unfolding start_recv_job run step received after_reply handle_recv_reply do_recv recv_loop
    start_recv resume_io req_to_nbd_cmd_type finish_io cmd_handle handle_to_cookie handle_to_tag
    unique_tag unique_tag_to_hwq unique_tag_to_tag
completed_write = refl
