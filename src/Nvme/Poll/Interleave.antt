-- ===== src/Nvme/Poll/Interleave.antt =====
-- The completion ring while the controller posts and the queue's thread polls, in any order.
use s3blk.Base.{
  ℕ, zero, suc, ◌+◌, ◌-◌, ◌%◌, ◌<◌, ◌≤◌, ◌≡◌, refl, sym, subst, ap, ◌∙◌, arith, ◌∷◌, ◌++◌, some,
  low_bits, append-nil, append_assoc,
}
use s3blk.Nvme.Types.{Completion, TgtData}
use s3blk.Nvme.Ring.{sq_flush}
use s3blk.Nvme.State.{Env, State}
use s3blk.Nvme.Poll.{handle_io_background}
use s3blk.Nvme.Poll.Phase.{phase}
use s3blk.Nvme.Poll.Protocol.{IsSynced, post_slot, post_slot-IsSynced}
use s3blk.Nvme.Poll.Drain.{result, results, IsDrained, handle_io_background-IsDrained}

-- The thread's state, and how many completions were posted and taken so far.
pub record System : Type 0 where
  pub thread : State
  pub posted : ℕ
  pub taken : ℕ

-- The controller posts completion number `i` with the phase of its round, into a free slot only.
pub data Step (env : Env) (q_id : ℕ) (post : ℕ → Completion) : System → System → Type 0 where
  deliver :
      (s : System)
      → s.posted < s.taken + s.thread.nvmeq.qsize
      → low_bits (post s.posted).status 1 ≡ phase s.thread.nvmeq.qsize s.posted
      → Step env q_id post s (record s {
        thread = record s.thread {
          nvmeq = post_slot s.thread.nvmeq (s.posted % s.thread.nvmeq.qsize) (post s.posted);
        };
        posted = suc s.posted;
      })
  poll :
      (s : System) (t : State) (f : ℕ)
      → s.posted + 1 < s.taken + f
      → handle_io_background f env q_id s.thread ≡ some t
      → Step env q_id post s (record s { thread = t; taken = s.posted })

pub data Reach (env : Env) (q_id : ℕ) (post : ℕ → Completion) (s : System) : System → Type 0 where
  here : Reach env q_id post s s
  next : {t u : System} → Reach env q_id post s t → Step env q_id post t u → Reach env q_id post s u

module _ (env : Env) (q_id : ℕ) (post : ℕ → Completion) where
  none_between : (i : ℕ) → i - i ≡ 0
  none_between i = omega arith

  zero_left : (k : ℕ) → 0 + k ≡ k
  zero_left k = omega arith

  zero_right : (i : ℕ) → i + 0 ≡ i
  zero_right i = omega arith

  suc_left : (j k : ℕ) → suc j + k ≡ suc (j + k)
  suc_left j k = omega arith

  suc_right : (i j : ℕ) → i + suc j ≡ suc i + j
  suc_right i j = omega arith

  results-split :
      (d : TgtData) (i j k : ℕ)
      → results env q_id post d i (j + k)
        ≡ results env q_id post d i j ++ results env q_id post d (i + j) k
  results-split d i zero k = rw (zero_left k, zero_right i) refl
  results-split d i (suc j) k =
      rw (suc_left j k, suc_right i j)
        (ap (λ l. result env q_id post d (post i) ∷ l) (results-split d (suc i) j k))

  results-glue :
      (d : TgtData) (a b c : ℕ)
      → a ≤ b
      → b ≤ c
      → results env q_id post d a (b - a) ++ results env q_id post d b (c - b)
        ≡ results env q_id post d a (c - a)
  results-glue d a b c h k = rw apart (
      sym (
        subst
          (λ x.
            results env q_id post d a ((b - a) + (c - b))
            ≡ results env q_id post d a (b - a) ++ results env q_id post d x (c - b))
          joined (results-split d a (b - a) (c - b))))
    where
      apart : c - a ≡ (b - a) + (c - b)
      apart = omega arith

      joined : a + (b - a) ≡ b
      joined = omega arith

  pub record Inv (start s : System) : Type 0 where
    pub synced : IsSynced s.thread.nvmeq post s.taken s.posted
    pub same_tgt : s.thread.tgt ≡ start.thread.tgt
    pub since : start.taken ≤ s.taken
    pub reported :
        s.thread.completed
        ≡ start.thread.completed
          ++ results env q_id post start.thread.tgt start.taken (s.taken - start.taken)

  poll-Inv :
      (start s : System) (t : State)
      → Inv start s
      → IsDrained env q_id post
          (record s.thread { nvmeq = sq_flush s.thread.nvmeq })
          t
          s.taken
          (s.posted - s.taken)
          s.posted
      → Inv start (record s { thread = t; taken = s.posted })
  poll-Inv start s t v r = record {
    synced = r.synced;
    same_tgt = r.same_tgt ∙ v.same_tgt;
    since = omega (arith, v.since, v.synced.ordered);
    reported =
        r.in_order
        ∙ (rw (v.same_tgt, v.reported)
            (append_assoc start.thread.completed _ _
              ∙ ap (λ l. start.thread.completed ++ l)
                  (results-glue start.thread.tgt start.taken s.taken s.posted v.since
                    v.synced.ordered)));
  }

  Step-Inv : (start : System) {s t : System} → Step env q_id post s t → Inv start s → Inv start t
  Step-Inv start (deliver s room mark) v = record {
    synced = post_slot-IsSynced s.thread.nvmeq post s.taken s.posted v.synced room mark;
    same_tgt = v.same_tgt;
    since = v.since;
    reported = v.reported;
  }
  Step-Inv start (poll s t f enough run) v =
      let (t', run', r) =
        handle_io_background-IsDrained env q_id post (s.posted - s.taken) f s.thread s.taken
          s.posted (omega (arith, v.synced.ordered)) (omega (arith, v.synced.ordered)) v.synced in
      poll-Inv start s t v (
        subst
          (λ x.
            IsDrained env q_id post (record s.thread { nvmeq = sq_flush s.thread.nvmeq }) x s.taken
              (s.posted - s.taken) s.posted)
          (cc (run, run')) r)

  Reach-Inv :
      (start : System) {s : System} → Reach env q_id post start s → Inv start start → Inv start s
  Reach-Inv start here v = v
  Reach-Inv start (next r st) v = Step-Inv start st (Reach-Inv start r v)

  -- From a synced ring on, however posts and polls interleave, the results reported since the
  -- start are those of the posted completions, in the order of posting and each once, up to the
  -- last poll, and no more than a ring of completions waits.
  pub Reach-reported :
      (start : System) {s : System}
      → IsSynced start.thread.nvmeq post start.taken start.posted
      → Reach env q_id post start s
      → (s.taken ≤ s.posted)
        × (s.posted ≤ s.taken + s.thread.nvmeq.qsize)
        × (s.thread.completed
            ≡ start.thread.completed
              ++ results env q_id post start.thread.tgt start.taken (s.taken - start.taken))
  Reach-reported start v r =
      let w = Reach-Inv start r first in (w.synced.ordered, w.synced.room, w.reported)
    where
      first : Inv start start
      first = record {
        synced = v;
        same_tgt = refl;
        since = omega arith;
        reported = rw (none_between start.taken) (sym (append-nil start.thread.completed));
      }
