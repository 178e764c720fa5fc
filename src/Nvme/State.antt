-- ===== src/Nvme/State.antt =====
-- What one queue's thread of targets/nvme/ublk.nvme_vfio.cpp works on (struct nvme_io_priv and the
-- outside world), nvme_user_copy_sync and the completion of an io.
use s3blk.Base.{ℕ, Bool, not, ◌==◌, if◌then◌else◌, List, [], ◌∷◌, ◌++◌}
use s3blk.Base.Int.{ℤ, pos, is_neg, pos_part, eio}
use s3blk.Ublk.{IoDesc, ublk_pos}
use s3blk.Nvme.Types.{SglDesc, DmaMapping, Queue, IoasCall, TgtData}

-- `struct nvme_dsm_range`; `cattr` is always written as zero.
pub record DsmRange : Type 0 where
  pub nlb : ℕ
  pub slba : ℕ

-- What the page of a tag's PRP list was last filled with, from its start on.
pub data ListPage : Type 0 where
  untouched : ListPage
  prp_list : List ℕ → ListPage
  sgl_list : List SglDesc → ListPage
  dsm_range : DsmRange → ListPage

-- `struct nvme_io_priv`
pub record IoPriv : Type 0 where
  pub data_mapping : DmaMapping
  pub prp_mapping : DmaMapping
  pub page : ListPage

-- What the outside decides: whether the kernel maps a range, what pread and pwrite on the ublk
-- char device return (a byte count, or a negative errno) for a buffer, a length and a position,
-- and the descriptors that the driver shares, one for each tag.
pub record Env : Type 0 where
  pub map_ok : List IoasCall → IoasCall → Bool
  pub pread : ℕ → ℕ → ℕ → ℤ
  pub pwrite : ℕ → ℕ → ℕ → ℤ
  pub iods : ℕ → IoDesc

-- The state that one queue's thread works on. `completed` are the calls of ublksrv_complete_io so
-- far, the latest last; `inflight` is the library's count of target ios.
pub record State : Type 0 where
  pub tgt : TgtData
  pub nvmeq : Queue
  pub priv : ℕ → IoPriv
  pub inflight : ℕ
  pub completed : List (ℕ × ℤ)

abbrev pub set_priv : (ℕ → IoPriv) → ℕ → IoPriv → ℕ → IoPriv
set_priv f tag p t = if t == tag then p else f t

-- nvme_user_copy_sync
unfoldable pub user_copy_sync : Env → ℕ → ℕ → ℕ → ℕ → Bool → ℤ
user_copy_sync env q_id tag io_buf len to_ublk =
    let pos_in_dev = ublk_pos q_id tag 0 in
    let ret =
      if to_ublk then env.pwrite io_buf len pos_in_dev else env.pread io_buf len pos_in_dev in
    if is_neg ret then ret else if not (pos_part ret == len) then eio else pos 0

-- ublksrv_complete_io, as far as the target sees it: the result is recorded for the driver.
abbrev pub complete_io : State → ℕ → ℤ → State
complete_io s tag result = record s { completed = s.completed ++ (tag, result) ∷ [] }
