-- ===== src/Ublksrv/Owner/Commands.antt =====
-- Issuing a command and completing an io are moves.
use s3blk.Base.{
  ℕ, u16, u32, ◌+◌, ◌^◌, ◌<◌, ◌≡◌, inl, inr, refl, sym, ap, ◌∙◌, arith, [], ◌∷◌, ◌++◌, Bool, true,
  false, Bool-cases, subst, if◌then◌else◌,
}
use s3blk.Base.Int.{ℤ, pos, negsuc}
use s3blk.Ublksrv.Types.{set_at, io_cmd, Queue, UblkIo, Kernel}
use s3blk.Ublksrv.Ring.{alloc_sqe, put}
use s3blk.Ublksrv.Command.{queue_io_cmd, complete_io, mark_io_done, cmd_of, no_flags}
use s3blk.Ublksrv.Owner.{
  Owner, driver, target, held, parked, is_driver, is_target, issued, result, stay, go, issued_tags,
  FlagsOf,
}
use s3blk.Ublksrv.Owner.Count.{one_if, count_bound, set_at_self, set_at_same}
use s3blk.Ublksrv.Owner.Moves.{
  IsOwned, Moves, issued_tags-append, SameCommands, Moves-same, alloc_sqe_sqes, set_owner,
  step_then,
}

module _ (k : Kernel) (q : Queue) (t : ℕ) where
  abbrev pub with_command : Queue
  with_command = record q {
    ring = put (alloc_sqe k q.ring).1 (io_cmd (cmd_of q (q.ios t) t));
    ios = set_at q.ios t (no_flags (q.ios t));
    cmd_inflight = u32 (q.cmd_inflight + 1);
  }

  abbrev pub without_command : Queue
  without_command = record q { ring = (alloc_sqe k q.ring).1 }

  -- Its result, where the flags ask for a command.
  pub queue_io_cmd_branches :
      FlagsOf held (q.ios t)
      → queue_io_cmd k q t
        ≡ (if (alloc_sqe k q.ring).0 then (pos 1, with_command) else (negsuc 0, without_command))
  unfolding queue_io_cmd
  queue_io_cmd_branches f = rw (f.0, f.1) refl

  without_command_same : SameCommands q without_command
  without_command_same = record {
    same_batch = refl;
    same_ios = refl;
    same_inflight = refl;
    same_tags = ap issued_tags (alloc_sqe_sqes k q.ring);
  }

  pub with_command_tags :
      t < 2 ^ 16 → issued_tags with_command.ring.sqes ≡ issued_tags q.ring.sqes ++ t ∷ []
  unfolding cmd_of
  with_command_tags small =
      let e : u16 t ≡ t = omega arith in
      issued_tags-append (alloc_sqe k q.ring).1.sqes (io_cmd (cmd_of q (q.ios t) t) ∷ [])
      ∙ rw (alloc_sqe_sqes k q.ring, e) refl

module _ (k : Kernel) {n : ℕ} {h : ℕ → Bool} {o : ℕ → Owner} where
  pub with_command_owned :
      (q : Queue) (t : ℕ)
      → IsOwned n h o q
      → t < n
      → o t ≡ held
      → IsOwned n h (set_at o t driver) (with_command k q t)
  with_command_owned q t w lt e =
      let few = count_bound is_driver o n in
      let not_driver : one_if (is_driver (o t)) ≡ 0 = rw e refl in
      let not_target : h t ≡ false = w.holding t ∙ rw e refl in
      let c : u32 (q.cmd_inflight + 1) + one_if (is_driver (o t)) ≡ q.cmd_inflight + 1 =
        omega (arith, few, not_driver, w.inflight, w.small) in
      set_owner t driver (no_flags (q.ios t)) w lt (refl, refl) refl (λ x. refl) c
        (set_at_same h t not_target)

  -- A tag that the queue holds goes to the driver, if there is an entry for the command.
  pub queue_io_cmd-Moves :
      (q : Queue) (t : ℕ)
      → IsOwned n h o q
      → t < n
      → o t ≡ held
      → Moves n o q h (queue_io_cmd k q t).1
  queue_io_cmd-Moves q t w lt e =
      let f = subst (λ a. FlagsOf a (q.ios t)) e (w.flags t lt) in
      elim (Bool-cases (alloc_sqe k q.ring).0) [
        | inl found ↦
            rw (queue_io_cmd_branches k q t f, found)
              (
                set_at o t driver,
                t ∷ [],
                go (issued o t e) (stay (set_at o t driver)),
                with_command_owned q t w lt e,
                with_command_tags k q t (omega (arith, lt, w.small)),
              )
        | inr full ↦
            rw (queue_io_cmd_branches k q t f, full) (Moves-same (without_command_same k q t) w)
      ]

mark_io_done_flags : (io : UblkIo) (res : ℤ) → FlagsOf held (mark_io_done io res)
unfolding mark_io_done
mark_io_done_flags io res = ground arith

pub is_target_inv : (a : Owner) → is_target a ≡ true → a ≡ target
is_target_inv driver e = cc
is_target_inv target e = refl
is_target_inv held e = cc
is_target_inv parked e = cc

complete_io-unbatched :
    (k : Kernel) (q : Queue) (t : ℕ) (res : ℤ)
    → q.batch_io ≡ false
    → complete_io k q t res
      ≡ queue_io_cmd k (record q { ios = set_at q.ios t (mark_io_done (q.ios t) res) }) t
unfolding complete_io
complete_io-unbatched k q t res e = rw e refl

module _ (k : Kernel) {n : ℕ} {h : ℕ → Bool} {o : ℕ → Owner} where
  -- The target gives up a tag that it has, and a command with its result goes out.
  pub complete_io-Moves :
      (q : Queue) (t : ℕ) (res : ℤ)
      → IsOwned n h o q
      → h t ≡ true
      → Moves n o q (set_at h t false) (complete_io k q t res).1
  complete_io-Moves q t res w has =
      let e : o t ≡ target = is_target_inv (o t) (sym (w.holding t) ∙ has) in
      let io = mark_io_done (q.ios t) res in
      let marked : Queue = record q { ios = set_at q.ios t io } in
      let moved : IsOwned n (set_at h t false) (set_at o t held) marked =
        set_owner t held io w (w.inside t has) (mark_io_done_flags (q.ios t) res) refl (λ x. refl)
          (rw e refl) (λ x. refl) in
      rw (complete_io-unbatched k q t res w.single) (
        step_then q marked t held (result o t e) refl
          (queue_io_cmd-Moves k marked t moved (w.inside t has) (set_at_self o t held)))
