-- ===== src/Checks/Requests.antt =====
-- Runs of the io path.
use s3blk.Base.{ℕ, ◌+◌, ◌*◌, ◌^◌, ◌≡◌, ◌⊎◌, arith, refl, true, [], ◌∷◌, ◌++◌, u16, u32}
use s3blk.Base.Int.{pos, is_neg}
use s3blk.Nvme.Types.{prps, Command}
use s3blk.Nvme.Ring.{sq_push}
use s3blk.Nvme.Io.{queue_io, rw_cmd}
use s3blk.Nvme.Io.Branches.{cid_of, queue_io-branches}
use s3blk.Nvme.Io.Commands.{rw_cmd-range}
use s3blk.Checks.{small_env, small_state, small_target, write_request}

abbrev first_tag : ℕ
first_tag = 0

queue_io-branches_example :
    let (ret, s') = queue_io small_env 0 small_state first_tag in
    ((is_neg ret ≡ true)
      × (s'.nvmeq ≡ small_state.nvmeq)
      × (s'.inflight ≡ 1)
      × (s'.completed ≡ [] ++ (first_tag, ret) ∷ []))
    ⊎ ((ret ≡ pos 0)
        × (s'.inflight ≡ u32 (1 + 1))
        × (s'.completed ≡ [])
        × ((c : Command) × (s'.nvmeq ≡ sq_push small_state.nvmeq c) × (cid_of c ≡ u16 first_tag)))
queue_io-branches_example = queue_io-branches small_env 0 small_state first_tag

rw_cmd-range_example :
    let c = rw_cmd small_target write_request 0 (prps 0 0) in
    (c.slba * 2 ^ 12 ≡ 16 * 512) × ((c.nlb + 1) * 2 ^ 12 ≡ 8 * 512)
rw_cmd-range_example =
    rw_cmd-range small_target write_request 0 (prps 0 0) 2 1 (omega arith) refl refl (omega arith)
      (omega arith)
