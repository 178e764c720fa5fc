-- ===== src/Nvme/Poll.antt =====
-- nvme_poll_cq and nvme_vfio_handle_io_background of targets/nvme/ublk.nvme_vfio.cpp.
pub mod Phase
pub mod Protocol
pub mod Drain
pub mod Interleave
use s3blk.Base.{
  ℕ, zero, suc, ◌+◌, ◌-◌, ◌*◌, ◌/◌, ◌%◌, ◌^◌, Bool, true, false, not, ◌&&◌, ltb, ◌==◌,
  if◌then◌else◌, u16, u32, u64, has_bit, ◌<<◌, ◌>>◌, List, [], ◌∷◌, ◌++◌, ◌||◌, sub32, Option, none,
  some,
}
use s3blk.Base.Int.{ℤ, pos, minus, is_neg, pos_part, eio, enomem, einval, int_of_u32, size_of_int}
use s3blk.Ublk.{
  IoDesc, op_read, op_write, op_flush, op_discard, f_fua, get_op, get_flags, io_bytes, ublk_pos,
}
use s3blk.Nvme.Types.{
  SglDesc, Dptr, prps, sgl, RwCommand, CommonCommand, Command, rw_command, common_command,
  Completion, DmaMapping, Queue, IoasCall, TgtData, page_size,
}
use s3blk.Nvme.Ring.{sq_flush, sq_push, cqe_pending, update_cq_head}
use s3blk.Nvme.Pool.{pool_get_io_buf}
use s3blk.Nvme.Dma.{map_dma, sgl_supported}
use s3blk.Nvme.Prp.{PrpResult, setup_prps}
use s3blk.Nvme.Sgl.{SglResult, setup_sgl}
use s3blk.Nvme.State.{
  DsmRange, ListPage, untouched, prp_list, sgl_list, dsm_range, IoPriv, Env, State, set_priv,
  user_copy_sync, complete_io,
}

-- The result of a completion, inside the loop of nvme_poll_cq.
unfoldable pub completion_result : Env → ℕ → TgtData → ℕ → ℕ → ℤ
completion_result env q_id d tag status =
    let iod = env.iods tag in
    let result = int_of_u32 (io_bytes iod) in
    let copied =
      user_copy_sync env q_id tag (pool_get_io_buf d q_id tag) (size_of_int result) true in
    if not (status == 0)
    then eio
    else if get_op iod == op_discard
    then pos 0
    else if (d.user_copy && get_op iod == op_read) && is_neg copied
    then copied
    else result

-- One round of the loop of nvme_poll_cq.
unfoldable pub poll_one : Env → ℕ → State → State
poll_one env q_id s =
    let cqe = s.nvmeq.cq_slots s.nvmeq.cq_head in
    let tag = cqe.command_id in
    let s1 = complete_io s tag (completion_result env q_id s.tgt tag (cqe.status >> 1)) in
    record s1 { inflight = sub32 s.inflight 1; nvmeq = update_cq_head s.nvmeq }

-- The loop of nvme_poll_cq with fuel; `none` means that the fuel ran out.
unfoldable pub poll_loop : ℕ → Env → ℕ → State → Option State
poll_loop zero env q_id s = none
poll_loop (suc f) env q_id s =
    let rest = poll_loop f env q_id (poll_one env q_id s) in
    if cqe_pending s.nvmeq then rest else some s

-- nvme_poll_cq: whether it found a completion. The doorbell is rung if it did.
unfoldable pub poll_cq : ℕ → Env → ℕ → State → Option (Bool × State)
poll_cq f env q_id s = elim (poll_loop f env q_id s) [
  | none ↦ none
  | some s' ↦
      if cqe_pending s.nvmeq
      then some (true, record s' { nvmeq = record s'.nvmeq { cq_rung = s'.nvmeq.cq_head } })
      else some (false, s')
]

-- nvme_vfio_handle_io_background: the doorbell, then nvme_poll_cq until it finds nothing. Fuel
-- bounds the rounds and, in each, the completions.
unfoldable pub poll_rounds : ℕ → ℕ → Env → ℕ → State → Option State
poll_rounds zero f env q_id s = none
poll_rounds (suc g) f env q_id s = elim (poll_cq f env q_id s) [
  | none ↦ none
  | some r ↦ let rest = poll_rounds g f env q_id r.1 in if r.0 then rest else some r.1
]

unfoldable pub handle_io_background : ℕ → Env → ℕ → State → Option State
handle_io_background f env q_id s = poll_rounds f f env q_id (record s { nvmeq = sq_flush s.nvmeq })
