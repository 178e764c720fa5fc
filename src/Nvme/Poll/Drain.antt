-- ===== src/Nvme/Poll/Drain.antt =====
-- What nvme_poll_cq and nvme_vfio_handle_io_background do to a ring that is synced with the
-- controller: the waiting completions become results, in their order, and nothing is left.
use s3blk.Base.{
  ℕ, zero, suc, ◌+◌, ◌^◌, ◌>>◌, ◌<◌, ◌≤◌, ◌≡◌, refl, sym, subst, ◌∙◌, arith, true, List, [], ◌∷◌,
  ◌++◌, append_assoc, append-nil, some, sub32, ltb,
}
use s3blk.Base.Int.{ℤ}
use s3blk.Nvme.Types.{Completion, TgtData}
use s3blk.Nvme.Ring.{update_cq_head, sq_flush}
use s3blk.Nvme.State.{Env, State}
use s3blk.Nvme.Poll.{
  completion_result, poll_one, poll_loop, poll_cq, poll_rounds, handle_io_background,
}
use s3blk.Nvme.Poll.Protocol.{
  IsSynced, IsSynced-frame, sq_flush-IsSynced, cqe_pending-waiting, cqe_pending-empty,
  update_cq_head-IsSynced,
}

module _ (env : Env) (q_id : ℕ) (post : ℕ → Completion) where
  -- The result of one completion, for its tag.
  abbrev pub result : TgtData → Completion → ℕ × ℤ
  result d c = (c.command_id, completion_result env q_id d c.command_id (c.status >> 1))

  -- The results of `k` completions from number `i` on.
  abbrev pub results : TgtData → ℕ → ℕ → List (ℕ × ℤ)
  results d i zero = []
  results d i (suc k) = result d (post i) ∷ results d (suc i) k

  -- `s'` is `s` with `k` waiting completions handled, from number `taken` on.
  pub record IsDrained (s s' : State) (taken k posted : ℕ) : Type 0 where
    pub synced : IsSynced s'.nvmeq post posted posted
    pub in_order : s'.completed ≡ s.completed ++ results s.tgt taken k
    pub same_tgt : s'.tgt ≡ s.tgt
    pub same_sq : (s'.nvmeq.sq_tail ≡ s.nvmeq.sq_tail) × (s'.nvmeq.sq_rung ≡ s.nvmeq.sq_rung)
    pub counted : s.inflight < 2 ^ 32 → k ≤ s.inflight → s'.inflight + k ≡ s.inflight

  ltb-suc : (k : ℕ) → ltb 0 (suc k) ≡ true
  ltb-suc k = ground arith

  poll_one_parts :
      (s : State) (taken posted : ℕ)
      → IsSynced s.nvmeq post taken posted
      → taken < posted
      → let s' = poll_one env q_id s in
        IsSynced s'.nvmeq post (suc taken) posted
        × (s'.completed ≡ s.completed ++ result s.tgt (post taken) ∷ [])
        × (s'.tgt ≡ s.tgt)
        × (s'.inflight ≡ sub32 s.inflight 1)
        × (s'.nvmeq.sq_tail ≡ s.nvmeq.sq_tail)
        × (s'.nvmeq.sq_rung ≡ s.nvmeq.sq_rung)
  unfolding poll_one update_cq_head
  poll_one_parts s taken posted v h = (
    update_cq_head-IsSynced s.nvmeq post taken posted v h,
    rw (cqe_pending-waiting s.nvmeq post taken posted v h).1 refl,
    refl,
    refl,
    ground arith,
    ground arith,
  )

  -- Fuel beyond the number of waiting completions is enough for the loop.
  pub poll_loop-IsDrained :
      (k f : ℕ) (s : State) (taken posted : ℕ)
      → k < f
      → taken + k ≡ posted
      → IsSynced s.nvmeq post taken posted
      → (s' : State) × (poll_loop f env q_id s ≡ some s') × IsDrained s s' taken k posted
  unfolding poll_loop
  poll_loop-IsDrained k zero s taken posted h e v = absurd (omega (arith, h))
  poll_loop-IsDrained zero (suc f) s taken posted h e v =
      (s, rw (cqe_pending-empty s.nvmeq post taken posted v (omega (arith, e))) refl, nothing)
    where
      nothing : IsDrained s s taken 0 posted
      nothing = record {
        synced = subst (λ i. IsSynced s.nvmeq post i posted) (omega (arith, e)) v;
        in_order = sym (append-nil s.completed);
        same_tgt = refl;
        same_sq = (refl, refl);
        counted = λ lo hi. omega arith;
      }
  poll_loop-IsDrained (suc k) (suc f) s taken posted h e v =
      let p = poll_one_parts s taken posted v (omega (arith, e)) in
      let (s', run, r) =
        poll_loop-IsDrained k f (poll_one env q_id s) (suc taken) posted (omega (arith, h))
          (omega (arith, e)) p.0 in
      (
        s',
        rw (cqe_pending-waiting s.nvmeq post taken posted v (omega (arith, e))).0 run,
        record {
          synced = r.synced;
          in_order =
              r.in_order
              ∙ (rw (p.1, p.2) (append_assoc s.completed (result s.tgt (post taken) ∷ []) _));
          same_tgt = r.same_tgt ∙ p.2;
          same_sq = (r.same_sq.0 ∙ p.4, r.same_sq.1 ∙ p.5);
          counted =
              λ lo hi. omega (arith, p.3, r.counted (omega (arith, p.3)) (omega (arith, p.3)));
        },
      )

  -- One call of nvme_poll_cq: whether anything waited, and the ring drained of it.
  poll_cq-IsDrained :
      (k f : ℕ) (s : State) (taken posted : ℕ)
      → k < f
      → taken + k ≡ posted
      → IsSynced s.nvmeq post taken posted
      → (s' : State) × (poll_cq f env q_id s ≡ some (ltb 0 k, s'))
        × IsDrained s s' taken k posted
        × (0 < k → s'.nvmeq.cq_rung ≡ s'.nvmeq.cq_head)
  unfolding poll_cq
  poll_cq-IsDrained zero f s taken posted h e v =
      let (s', run, r) = poll_loop-IsDrained zero f s taken posted h e v in
      (
        s',
        rw (run, poll_cq, cqe_pending-empty s.nvmeq post taken posted v (omega (arith, e))) refl,
        r,
        λ lt. absurd (omega (arith, lt)),
      )
  poll_cq-IsDrained (suc k) f s taken posted h e v =
      let (s', run, r) = poll_loop-IsDrained (suc k) f s taken posted h e v in
      (
        record s' { nvmeq = record s'.nvmeq { cq_rung = s'.nvmeq.cq_head } },
        rw
            (
              run,
              poll_cq,
              (cqe_pending-waiting s.nvmeq post taken posted v (omega (arith, e))).0,
              ltb-suc k,
            )
            refl,
        rung s' r,
        λ lt. refl,
      )
    where
      rung :
          (s' : State)
          → IsDrained s s' taken (suc k) posted
          → IsDrained s
              (record s' { nvmeq = record s'.nvmeq { cq_rung = s'.nvmeq.cq_head } })
              taken
              (suc k)
              posted
      rung s' r = record {
        synced = IsSynced-frame s'.nvmeq _ post posted posted refl refl refl refl r.synced;
        in_order = r.in_order;
        same_tgt = r.same_tgt;
        same_sq = r.same_sq;
        counted = r.counted;
      }

  -- A round that finds nothing is the last one.
  poll_rounds-idle :
      (g f : ℕ) (s : State) (posted : ℕ)
      → 0 < g
      → 0 < f
      → IsSynced s.nvmeq post posted posted
      → (s' : State) × (poll_rounds g f env q_id s ≡ some s') × IsDrained s s' posted 0 posted
  unfolding poll_rounds
  poll_rounds-idle zero f s posted hg hf v = absurd (omega (arith, hg))
  poll_rounds-idle (suc g) f s posted hg hf v =
      let (s', run, r, rung) = poll_cq-IsDrained zero f s posted posted hf (omega arith) v in
      (s', rw (run, poll_rounds) refl, r)

  IsDrained-idle :
      (s t u : State) (taken k posted : ℕ)
      → IsDrained s t taken k posted
      → IsDrained t u posted 0 posted
      → IsDrained s u taken k posted
  IsDrained-idle s t u taken k posted r w = record {
    synced = w.synced;
    in_order = w.in_order ∙ append-nil t.completed ∙ r.in_order;
    same_tgt = w.same_tgt ∙ r.same_tgt;
    same_sq = (w.same_sq.0 ∙ r.same_sq.0, w.same_sq.1 ∙ r.same_sq.1);
    counted = λ lo hi.
        omega (arith, r.counted lo hi, w.counted (omega (arith, r.counted lo hi)) (omega arith));
  }

  poll_rounds-IsDrained :
      (k g f : ℕ) (s : State) (taken posted : ℕ)
      → 1 < g
      → k < f
      → taken + k ≡ posted
      → IsSynced s.nvmeq post taken posted
      → (s' : State) × (poll_rounds g f env q_id s ≡ some s') × IsDrained s s' taken k posted
  unfolding poll_rounds
  poll_rounds-IsDrained k zero f s taken posted hg h e v = absurd (omega (arith, hg))
  poll_rounds-IsDrained zero (suc g) f s taken posted hg h e v =
      let (s', run, r, rung) = poll_cq-IsDrained zero f s taken posted h e v in
      (s', rw (run, poll_rounds) refl, r)
  poll_rounds-IsDrained (suc k) (suc g) f s taken posted hg h e v =
      let (t, run, r, rung) = poll_cq-IsDrained (suc k) f s taken posted h e v in
      let (u, rest, w) =
        poll_rounds-idle g f t posted (omega (arith, hg)) (omega (arith, h)) r.synced in
      (u, rw (run, poll_rounds, ltb-suc k) rest, IsDrained-idle s t u taken (suc k) posted r w)

  -- On a synced ring with `k` waiting completions, and with fuel above `k + 1`,
  -- nvme_vfio_handle_io_background returns: the waiting completions are reported in order, none is
  -- left, the count of ios in flight drops by `k` if it was a 32-bit value of at least `k`, and the
  -- submission side is as nvme_sq_flush leaves it.
  pub handle_io_background-IsDrained :
      (k f : ℕ) (s : State) (taken posted : ℕ)
      → k + 1 < f
      → taken + k ≡ posted
      → IsSynced s.nvmeq post taken posted
      → (s' : State) × (handle_io_background f env q_id s ≡ some s')
        × IsDrained (record s { nvmeq = sq_flush s.nvmeq }) s' taken k posted
  unfolding handle_io_background
  handle_io_background-IsDrained k f s taken posted h e v =
      poll_rounds-IsDrained k f f (record s { nvmeq = sq_flush s.nvmeq }) taken posted (omega arith)
        (omega arith) e (sq_flush-IsSynced s.nvmeq post taken posted v)
