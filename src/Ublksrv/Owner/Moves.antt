-- ===== src/Ublksrv/Owner/Moves.antt =====
-- The queue that belongs to owners of its tags, and its moves by steps of the contract.
use s3blk.Base.{
  ℕ, ◌+◌, ◌^◌, ◌<◌, ◌≡◌, inl, inr, refl, sym, ap, ◌∙◌, arith, List, [], ◌∷◌, ◌++◌, append_assoc,
  append-nil, Bool, true, false, Bool-cases, subst, ==_iff, ◌==◌,
}
use s3blk.Ublksrv.Types.{
  set_at, Sqe, io_cmd, batch_cmd, poll_add, poll_multishot, tgt_sqe, Queue, UblkIo, Kernel, Ring,
}
use s3blk.Ublksrv.Ring.{alloc_sqe}
use s3blk.Ublksrv.Owner.{Owner, is_driver, is_target, Step, Steps, stay, go, issued_tags, FlagsOf}
use s3blk.Ublksrv.Owner.Count.{count, one_if, count-set_at}

-- The queue, of depth `n` and not in batch mode, has the flags that the owners of its tags ask for
-- and counts what is with the driver, and `h` tells which tags are with the target.
pub record IsOwned (n : ℕ) (h : ℕ → Bool) (o : ℕ → Owner) (q : Queue) : Type 0 where
  pub small : n < 2 ^ 16
  pub single : q.batch_io ≡ false
  pub flags : (t : ℕ) → t < n → FlagsOf (o t) (q.ios t)
  pub inflight : q.cmd_inflight ≡ count is_driver o n
  pub holding : (t : ℕ) → h t ≡ is_target (o t)
  pub inside : (t : ℕ) → h t ≡ true → t < n

-- The queue got to `q'` by steps of the contract, which issue the commands that were put on the
-- ring, and the target has `h'` now.
abbrev pub Moves : ℕ → (ℕ → Owner) → Queue → (ℕ → Bool) → Queue → Type 0
Moves n o q h' q' =
    (o' : ℕ → Owner) × (l : List ℕ) × Steps o l o'
    × IsOwned n h' o' q'
    × (issued_tags q'.ring.sqes ≡ issued_tags q.ring.sqes ++ l)

Steps-trans :
    {o o' o'' : ℕ → Owner} {l l' : List ℕ} → Steps o l o' → Steps o' l' o'' → Steps o (l ++ l') o''
Steps-trans (stay o) s = s
Steps-trans {o'' = o''} {l' = l'} (go {o = o} {l = a} {l' = b} x r) s =
    subst (λ m. Steps o m o'') (sym (append_assoc a b l')) (go x (Steps-trans r s))

pub Moves-trans :
    {n : ℕ} {o : ℕ → Owner} (q : Queue) {q' q'' : Queue} {h' h'' : ℕ → Bool}
    → (m : Moves n o q h' q') → Moves n m.0 q' h'' q''
    → Moves n o q h'' q''
Moves-trans q m m' = (
  m'.0,
  m.1 ++ m'.1,
  Steps-trans m.2 m'.2,
  m'.3,
  rw (m'.4, m.4) (append_assoc (issued_tags q.ring.sqes) m.1 m'.1),
)

pub issued_tags-append : (l m : List Sqe) → issued_tags (l ++ m) ≡ issued_tags l ++ issued_tags m
issued_tags-append [] m = refl
issued_tags-append (io_cmd c ∷ r) m = ap (λ (x : List ℕ). c.tag ∷ x) (issued_tags-append r m)
issued_tags-append (batch_cmd c ∷ r) m = issued_tags-append r m
issued_tags-append (poll_add fd u ∷ r) m = issued_tags-append r m
issued_tags-append (poll_multishot fd u ∷ r) m = issued_tags-append r m
issued_tags-append (tgt_sqe u ∷ r) m = issued_tags-append r m

-- What the owners do not see.
pub record SameCommands (q q' : Queue) : Type 0 where
  pub same_batch : q'.batch_io ≡ q.batch_io
  pub same_ios : q'.ios ≡ q.ios
  pub same_inflight : q'.cmd_inflight ≡ q.cmd_inflight
  pub same_tags : issued_tags q'.ring.sqes ≡ issued_tags q.ring.sqes

pub IsOwned-same :
    {n : ℕ} {h : ℕ → Bool} {o : ℕ → Owner} {q q' : Queue}
    → SameCommands q q'
    → IsOwned n h o q
    → IsOwned n h o q'
IsOwned-same {o = o} s w = record {
  small = w.small;
  single = s.same_batch ∙ w.single;
  flags = λ t lt. rw s.same_ios (w.flags t lt);
  inflight = s.same_inflight ∙ w.inflight;
  holding = w.holding;
  inside = w.inside;
}

pub Moves-same :
    {n : ℕ} {h : ℕ → Bool} {o : ℕ → Owner} {q q' : Queue}
    → SameCommands q q'
    → IsOwned n h o q
    → Moves n o q h q'
Moves-same {o = o} {q = q} s w =
    (o, [], stay o, IsOwned-same s w, s.same_tags ∙ sym (append-nil (issued_tags q.ring.sqes)))

pub alloc_sqe_sqes : (k : Kernel) (r : Ring) → (alloc_sqe k r).1.sqes ≡ r.sqes
unfolding alloc_sqe
alloc_sqe_sqes k r = ground arith

-- The flags of one io change with its owner, and the count goes with them.
pub set_owner :
    {n : ℕ} {h h' : ℕ → Bool} {o : ℕ → Owner} {q q' : Queue} (t : ℕ) (a : Owner) (io : UblkIo)
    → IsOwned n h o q
    → t < n
    → FlagsOf a io
    → q'.batch_io ≡ q.batch_io
    → ((x : ℕ) → q'.ios x ≡ set_at q.ios t io x)
    → q'.cmd_inflight + one_if (is_driver (o t)) ≡ q.cmd_inflight + one_if (is_driver a)
    → ((x : ℕ) → h' x ≡ set_at h t (is_target a) x)
    → IsOwned n h' (set_at o t a) q'
set_owner {n} {h} {h'} {o} {q} {q'} t a io w lt fits b i c e = record {
  small = w.small;
  single = b ∙ w.single;
  flags = λ x below. elim (Bool-cases (x == t)) [
    | inl p ↦ rw (i x, p) fits
    | inr p ↦ rw (i x, p) (w.flags x below)
  ];
  inflight = omega (arith, count-set_at is_driver o n t a lt, c, w.inflight);
  holding = λ x. elim (Bool-cases (x == t)) [
    | inl p ↦ rw (e x, p) refl
    | inr p ↦ rw (e x, p) (w.holding x)
  ];
  inside = λ x hx. elim (Bool-cases (x == t)) [
    | inl p ↦ subst (λ y. y < n) (sym ((==_iff x t).0 p)) lt
    | inr p ↦ let same : h' x ≡ h x = e x ∙ rw p refl in w.inside x (sym same ∙ hx)
  ];
}

-- One step of one tag, where the entries of the ring stay, and what comes after.
pub step_then :
    {n : ℕ} {o : ℕ → Owner} {h' : ℕ → Bool} {q'' : Queue} (q q' : Queue) (t : ℕ) (a : Owner)
    → Step o [] (set_at o t a)
    → q'.ring.sqes ≡ q.ring.sqes
    → Moves n (set_at o t a) q' h' q''
    → Moves n o q h' q''
step_then q q' t a s e m =
    (m.0, m.1, go s m.2, m.3, m.4 ∙ ap (λ (x : List Sqe). issued_tags x ++ m.1) e)
