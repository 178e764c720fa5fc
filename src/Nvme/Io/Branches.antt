-- ===== src/Nvme/Io/Branches.antt =====
-- What nvme_vfio_queue_io does on each of its branches.
use s3blk.Base.{
  ℕ, ◌+◌, ◌≡◌, ◌⊎◌, inl, inr, refl, ap, arith, Bool, true, false, ◌&&◌, ◌||◌, ◌==◌, Bool-cases, [],
  ◌∷◌, ◌++◌, u16, u32,
}
use s3blk.Base.Int.{ℤ, pos, is_neg}
use s3blk.Ublk.{IoDesc, op_read, op_write, op_flush, op_discard, get_op, io_bytes}
use s3blk.Nvme.Types.{
  Command, rw_command, common_command, admin_command, zeroed, Dptr, TgtData, DmaMapping,
}
use s3blk.Nvme.Ring.{sq_push}
use s3blk.Nvme.Pool.{pool_get_io_buf}
use s3blk.Nvme.State.{Env, State, IoPriv, user_copy_sync}
use s3blk.Nvme.Io.{
  data_iova, data_pointers, Pointers, rw_cmd, queue_rw_io, queue_flush_io, queue_discard_io,
  dispatch, queue_io,
}

-- The tag that a command's completion will carry.
abbrev pub cid_of : Command → ℕ
cid_of (rw_command c) = c.cid
cid_of (common_command c) = c.cid
cid_of (admin_command c) = 0
cid_of zeroed = 0

-- A request was refused: nothing reached the ring, the counts and the reports are as before.
abbrev pub Refused : State → ℤ × State → Type 0
Refused s r =
    (is_neg r.0 ≡ true)
    × (r.1.nvmeq ≡ s.nvmeq)
    × (r.1.inflight ≡ s.inflight)
    × (r.1.completed ≡ s.completed)

-- A request was accepted: one command with its tag went to the ring.
abbrev pub Accepted : State → ℕ → ℤ × State → Type 0
Accepted s tag r =
    (r.0 ≡ pos 0)
    × (r.1.inflight ≡ s.inflight)
    × (r.1.completed ≡ s.completed)
    × ((c : Command) × (r.1.nvmeq ≡ sq_push s.nvmeq c) × (cid_of c ≡ u16 tag))

rw_cmd_cid : (d : TgtData) (iod : IoDesc) (tag : ℕ) (p : Dptr) → (rw_cmd d iod tag p).cid ≡ u16 tag
unfolding rw_cmd
rw_cmd_cid d iod tag p = refl

and-right : (a b : Bool) → a && b ≡ true → b ≡ true
and-right a b h = ground arith

module _ (env : Env) (q_id : ℕ) (s : State) (tag : ℕ) where
  abbrev mapped : ℕ × DmaMapping × TgtData
  mapped = data_iova env s.tgt (s.priv tag) (pool_get_io_buf s.tgt q_id tag)

  abbrev priv1 : IoPriv
  priv1 = record (s.priv tag) { data_mapping = mapped.1 }

  abbrev copied : ℤ
  copied =
      user_copy_sync env q_id tag (pool_get_io_buf s.tgt q_id tag) (io_bytes (env.iods tag)) false

  abbrev pointers : Pointers
  pointers =
      data_pointers mapped.2 priv1 (pool_get_io_buf s.tgt q_id tag) mapped.0
        (io_bytes (env.iods tag))

  abbrev copy_fails : Bool
  copy_fails = (mapped.2.user_copy && get_op (env.iods tag) == op_write) && is_neg copied

  queue_rw_io_cases :
      Refused s (queue_rw_io env q_id s tag) ⊎ Accepted s tag (queue_rw_io env q_id s tag)
  unfolding queue_rw_io
  queue_rw_io_cases = elim (Bool-cases (mapped.0 == 0)) [
    | inl unmapped ↦ inl (rw (unmapped, queue_rw_io) (refl, refl, refl, refl))
    | inr ok ↦ elim (Bool-cases copy_fails) [
      | inl failed ↦ inl (rw (ok, queue_rw_io, failed) (and-right _ _ failed, refl, refl, refl))
      | inr copied_ok ↦ elim (Bool-cases (is_neg pointers.ret)) [
        | inl long ↦ inl (rw (ok, queue_rw_io, copied_ok, long) (refl, refl, refl, refl))
        | inr fits ↦ inr (
            rw (ok, queue_rw_io, copied_ok, fits)
              (
                refl,
                refl,
                refl,
                (
                  rw_command (rw_cmd mapped.2 (env.iods tag) tag pointers.dptr),
                  refl,
                  rw_cmd_cid mapped.2 (env.iods tag) tag pointers.dptr,
                ),
              ))
      ]
    ]
  ]

  abbrev op_is : ℕ → Bool
  op_is op = get_op (env.iods tag) == op

  flush-Accepted : Accepted s tag (queue_flush_io s tag)
  unfolding queue_flush_io
  flush-Accepted = (refl, refl, refl, (_, refl, refl))

  discard-Accepted : Accepted s tag (queue_discard_io env s tag)
  unfolding queue_discard_io
  discard-Accepted = (refl, refl, refl, (_, refl, refl))

  dispatch_cases : Refused s (dispatch env q_id s tag) ⊎ Accepted s tag (dispatch env q_id s tag)
  unfolding dispatch
  dispatch_cases = elim (Bool-cases (op_is op_read || op_is op_write)) [
    | inl rw_op ↦ rw (rw_op, dispatch) queue_rw_io_cases
    | inr not_rw ↦ elim (Bool-cases (op_is op_flush)) [
      | inl flush ↦ rw (not_rw, dispatch, flush) (inr flush-Accepted)
      | inr not_flush ↦ elim (Bool-cases (op_is op_discard)) [
        | inl discard ↦ rw (not_rw, dispatch, not_flush, discard) (inr discard-Accepted)
        | inr other ↦ inl (rw (not_rw, dispatch, not_flush, other) (refl, refl, refl, refl))
      ]
    ]
  ]

  -- Every request is either refused, and then its error is reported at once and the ring and the
  -- count of ios stay, or accepted, and then exactly one command with its tag is pushed, the
  -- count goes up by one and nothing is reported yet.
  pub queue_io-branches :
      let (ret, s') = queue_io env q_id s tag in
      ((is_neg ret ≡ true)
        × (s'.nvmeq ≡ s.nvmeq)
        × (s'.inflight ≡ s.inflight)
        × (s'.completed ≡ s.completed ++ (tag, ret) ∷ []))
      ⊎ ((ret ≡ pos 0)
          × (s'.inflight ≡ u32 (s.inflight + 1))
          × (s'.completed ≡ s.completed)
          × ((c : Command) × (s'.nvmeq ≡ sq_push s.nvmeq c) × (cid_of c ≡ u16 tag)))
  unfolding queue_io
  queue_io-branches = elim dispatch_cases [
    | inl r ↦ inl (
        rw (r.0, queue_io)
          (r.0, r.1, r.2, ap (λ l. l ++ (tag, (dispatch env q_id s tag).0) ∷ []) r.3))
    | inr r ↦ inr (rw (r.0, queue_io) (refl, ap (λ n. u32 (n + 1)) r.1, r.2, r.3))
  ]
