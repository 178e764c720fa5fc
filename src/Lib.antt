-- ===== src/Lib.antt =====
-- Verification of s3blk, a userspace block driver on top of ublk.
--
-- The ublk driver hands each io of a block device to a userspace target: a descriptor
-- (include/ublk_cmd.h) for each tag of each queue. A target turns it into work of its own and
-- reports a result for the tag.
--
-- Files, and the code that each models:
--   Base, Bits: shared names, words, lists over the native numbers, integers for C results, and
--     the sums behind `|` of disjoint bit fields.
--   Ublk: the encodings of include/ublk_cmd.h, include/ublksrv.h, include/ublksrv_priv.h,
--     targets/include/ublksrv_tgt.h and include/ublksrv_aio.h.
--   Nvme: targets/nvme/ublk.nvme_vfio.cpp with targets/nvme/nvme.h and targets/dma_buf.c.
--     Types: its structures. Pool: the hugepage pool (nvme_dmabuf_pool_init and the nvme_pool_
--     functions). Dma: iovas and mappings (nvme_get_iova, nvme_map_dma, nvme_unmap_dma). Ring: the
--     submission and completion rings (nvme_sq_flush, nvme_sq_submit_cmd, nvme_cqe_pending,
--     nvme_update_cq_head), with the controller's side in Ring/Controller. Setup:
--     nvme_queue_init and nvme_queue_deinit. Admin: admin commands and the queues they create.
--     Prp, Sgl: nvme_setup_prps and nvme_setup_sgl.
--     State, Io: the io path from nvme_vfio_handle_io_async to the ring. Poll: the way back,
--     nvme_poll_cq and nvme_vfio_handle_io_background, with the phase protocol in Poll/Protocol
--     and the interleavings with the controller in Poll/Interleave. Init, Control, Identify: the
--     set-up in nvme_vfio_init_tgt and its release, with nvme_init_controller,
--     nvme_shutdown_controller and the two identify commands.
--   Nbd: targets/nbd/ublk.nbd.cpp. Wire: handles and requests. Send: the sending side, with the
--     coroutine __nbd_handle_io_async as a function for each of its stretches between two
--     suspensions; Chain: its steps in any order. Recv: nbd_do_recv and nbd_handle_recv_reply;
--     Recv/Job: the receiving coroutine __nbd_handle_recv, from point to point, and nbd_handle_io_bg.
--   Loop: the io path of targets/ublk.loop.cpp; Entries has the data that the entries of a request
--     move, Complete how completions become a result.
--   Ublksrv: the queue of the library between the driver and the targets, lib/ublksrv.c and
--     lib/ublksrv_batch.c with include/ublksrv_priv.h. Types: its structures. Ring: the io_uring and
--     the event fds. Command: ublksrv_queue_io_cmd and ublksrv_complete_io. Batch: batch mode.
--     Calls: what a target asks of the queue (`Call`) and how it is called (`TgtOps`). Events:
--     ublksrv_handle_cqe and ublksrv_batch_handle_cqe. Process: ublksrv_process_io. Init:
--     ublksrv_queue_init_flags. Owner: the contract, in which every tag is with the driver, the
--     target or the queue, and its comparison with the detailed queue. Aio: the contexts of
--     lib/ublksrv_aio.c and include/ublksrv_aio.h, with the wake-ups of lib/ublksrv.c; the lists with
--     their pointers are in Aio/Linked. Ctrl: the control commands of
--     lib/ublksrv_cmd.c; Ctrl/Exchange: the driver as a function that answers them.
--   Null: the io path of targets/ublk.null.cpp, as callbacks of the library's queue (`TgtOps`);
--     Contract: its ios; InStep: its coroutines and the completions of their entries.
--   Sheep: targets/sheepdog. Types: object ids and one exchange with the cluster, which is a function
--     of the requests before and the request; Inodes: how the inode of a vdi is read, written and
--     read again; Io: reads, writes and discards; Served, Answered, Written: what they send and return.
--   Tgt: how targets/ublksrv_tgt.cpp adds a device, ublksrv_cmd_dev_add, as a log of its calls;
--     Balance says what it leaves behind. Recover: __cmd_dev_user_recover, whose loop has the 300
--     rounds of its time limit.
--   Checks: concrete states and runs.
--
-- How state is modelled: a structure that the code changes through a pointer is a record that the
-- definition takes and returns. Memory that the device or the kernel reads or writes is a field
-- (`sq_slots`, `cq_slots`), a doorbell register is the value last written to it (`sq_rung`,
-- `cq_rung`), and ioctls on the IO address space are a log (`ioas`). What the kernel decides is a
-- function in the environment: whether a range is mapped, what pread and pwrite return, how many
-- hugepages there are.
--
-- Loops: nvme_wait_admin_completion and the waits for the controller have the 5000 rounds of the
-- source, nbd_do_recv its 16 or 32.
-- nvme_poll_cq and nvme_vfio_handle_io_background loop until the ring is empty. Their models take
-- fuel, and Poll/Drain gives the amount that is enough: the number of waiting completions and two.
-- The outer loop of ublksrv_aio_complete_worker has as many rounds as there are requests, and each
-- takes at least one. The receiving coroutine of the nbd target has five steps for each io in
-- flight and two more. The loops of targets/sheepdog/sheep.c end when
-- the cluster lets them; there `none` says that the fuel ran out.
--
-- Not modelled: the file descriptors and sysfs files of the VFIO setup, the BAR0 register file
-- but for the doorbells, CC and the registers of the admin queue, memory barriers and the spin
-- lock around the iova counter, log output;
-- of the library under lib/ an init_queue of a target that puts entries on the ring (as those of the
-- iscsi and nfs targets do), the release of a queue and the set-up of the control ring, the
-- json configuration, the connection to a sheepdog cluster,
-- the setup of the nbd connection, of the loop file and of the null target,
-- the command line, the threads and the daemon of targets/ublksrv_tgt.cpp and targets/ublk.cpp,
-- and the targets that wrap external protocol libraries (targets/ublk.iscsi.cpp, targets/ublk.nfs.cpp).
pub mod Base
pub mod Bits
pub mod Ublk
pub mod Nvme
pub mod Nbd
pub mod Loop
pub mod Ublksrv
pub mod Null
pub mod Sheep
pub mod Tgt
pub mod Checks
