-- ===== src/Ublksrv/Owner/Calls.antt =====
-- The calls of a target that keeps its contract are moves of the queue.
use s3blk.Base.{
  ℕ, u32, sub32, ltb, length, ◌-◌, ◌+◌, ◌≡◌, inl, inr, refl, sym, ap, ◌∙◌, arith, List, [], ◌∷◌,
  append-nil, Bool, true, false, Bool-cases, Option, none, some, if◌then◌else◌,
}
use s3blk.Base.Int.{ℤ, pos, negsuc, einval}
use s3blk.Ublksrv.Types.{
  Sqe, poll_add, poll_multishot, tgt_sqe, build_internal_data, op_eventfd, op_epollfd, is_res,
  Queue, Kernel, Ring,
}
use s3blk.Ublksrv.Ring.{
  has_space, submit, alloc_sqe, put, handled_event_on, queue_event_on, kill_eventfd, send_event,
  prep_epoll_sqe,
}
use s3blk.Ublksrv.Command.{complete_io, inc_tgt_io_inflight, dec_tgt_io_inflight}
use s3blk.Ublksrv.Calls.{
  Call, complete, queue_sqes, inc_inflight, dec_inflight, events_handled, run_call, run_calls,
  put_all, queue_all,
}
use s3blk.Ublksrv.Owner.{Owner, Plays, issued_tags, stay}
use s3blk.Ublksrv.Owner.Moves.{
  IsOwned, Moves, Moves-trans, SameCommands, Moves-same, issued_tags-append, alloc_sqe_sqes,
}
use s3blk.Ublksrv.Owner.Commands.{complete_io-Moves}

-- An entry that is no io command does not count.
put_tags :
    (r : Ring) (sqe : Sqe)
    → issued_tags (sqe ∷ []) ≡ []
    → issued_tags (put r sqe).sqes ≡ issued_tags r.sqes
put_tags r sqe e = issued_tags-append r.sqes (sqe ∷ []) ∙ rw e (append-nil (issued_tags r.sqes))

abbrev pub with_ring : Queue → Ring → Queue
with_ring q r = record q { ring = r }

pub same_ring :
    (q : Queue) (r : Ring)
    → issued_tags r.sqes ≡ issued_tags q.ring.sqes
    → SameCommands q (with_ring q r)
same_ring q r e = record { same_batch = refl; same_ios = refl; same_inflight = refl; same_tags = e }

alloc_same : (k : Kernel) (q : Queue) → SameCommands q (with_ring q (alloc_sqe k q.ring).1)
alloc_same k q = same_ring q (alloc_sqe k q.ring).1 (ap issued_tags (alloc_sqe_sqes k q.ring))

alloc_put_same :
    (k : Kernel) (q : Queue) (sqe : Sqe)
    → issued_tags (sqe ∷ []) ≡ []
    → SameCommands q (with_ring q (put (alloc_sqe k q.ring).1 sqe))
alloc_put_same k q sqe e =
    same_ring q (put (alloc_sqe k q.ring).1 sqe)
      (put_tags (alloc_sqe k q.ring).1 sqe e ∙ ap issued_tags (alloc_sqe_sqes k q.ring))

pub SameCommands-trans :
    {q q' q'' : Queue} → SameCommands q q' → SameCommands q' q'' → SameCommands q q''
SameCommands-trans s s' = record {
  same_batch = s'.same_batch ∙ s.same_batch;
  same_ios = s'.same_ios ∙ s.same_ios;
  same_inflight = s'.same_inflight ∙ s.same_inflight;
  same_tags = s'.same_tags ∙ s.same_tags;
}

pub same_self : (q : Queue) → SameCommands q q
same_self q = same_ring q q.ring refl

same_if :
    {q a c : Queue} (b : Bool)
    → SameCommands q a
    → SameCommands q c
    → SameCommands q (if b then a else c)
same_if true s s' = s
same_if false s s' = s'

same_efd : (q : Queue) → SameCommands q (record q { efd_value = 0 })
same_efd q = record { same_batch = refl; same_ios = refl; same_inflight = refl; same_tags = refl }

same_if₁ :
    {q : Queue} (b : Bool) (x y : ℤ × Queue)
    → SameCommands q x.1
    → SameCommands q y.1
    → SameCommands q (if b then x else y).1
same_if₁ true x y s s' = s
same_if₁ false x y s s' = s'

pub queue_event_same :
    (k : Kernel) (q : Queue) (efd : Option ℕ) → SameCommands q (queue_event_on k q efd).1
unfolding queue_event_on
queue_event_same k q none = same_self q
queue_event_same k q (some fd) =
    let sqe = poll_add fd (build_internal_data op_eventfd) in
    let polled = same_ring q (put q.ring sqe) (put_tags q.ring sqe refl) in
    same_if₁ q.stopping (einval, q) _ (same_self q)
      (same_if₁ (has_space k q.ring) (pos 0, with_ring q (put q.ring sqe)) (negsuc 0, q) polled
        (same_self q))

pub handled_event_same :
    (k : Kernel) (q : Queue) (efd : Option ℕ) → SameCommands q (handled_event_on k q efd)
unfolding handled_event_on
handled_event_same k q none = same_self q
handled_event_same k q (some fd) =
    let read : Queue = record q { efd_value = 0 } in
    let queued = (queue_event_on k read (some fd)).1 in
    let s : SameCommands q queued =
      SameCommands-trans (same_efd q) (queue_event_same k read (some fd)) in
    same_if (is_res 0 (queue_event_on k read (some fd)).0)
      (SameCommands-trans s (same_ring queued (submit k queued.ring) refl)) s

pub kill_eventfd_same : (q : Queue) → SameCommands q (kill_eventfd q)
unfolding kill_eventfd send_event
kill_eventfd_same q = record {
  same_batch = ground arith;
  same_ios = ground arith;
  same_inflight = ground arith;
  same_tags = ground arith;
}

pub prep_epoll_sqe_same : (k : Kernel) (q : Queue) → SameCommands q (prep_epoll_sqe k q).1
unfolding prep_epoll_sqe
prep_epoll_sqe_same k q = elim (Bool-cases (alloc_sqe k q.ring).0) [
  | inl e ↦
      simp e (alloc_put_same k q (poll_multishot q.epollfd (build_internal_data op_epollfd)) refl)
  | inr e ↦ simp e (alloc_same k q)
]

put_all_tags :
    (k : Kernel) (r : Ring) (us : List ℕ) → issued_tags (put_all k r us).sqes ≡ issued_tags r.sqes
unfolding put_all
put_all_tags k r [] = refl
put_all_tags k r (u ∷ us) = elim (Bool-cases (has_space k r)) [
  | inl e ↦ simp e (put_all_tags k (put r (tgt_sqe u)) us ∙ put_tags r (tgt_sqe u) refl)
  | inr e ↦ simp e refl
]

queue_all_tags :
    (k : Kernel) (r : Ring) (us : List ℕ) → issued_tags (queue_all k r us).sqes ≡ issued_tags r.sqes
unfolding queue_all
queue_all_tags k r us = elim (Bool-cases (ltb (k.sq_entries - r.ready) (length us))) [
  | inl e ↦ simp e (put_all_tags k (submit k r) us)
  | inr e ↦ simp e (put_all_tags k r us)
]

-- The calls other than a completion.
queue_sqes_same :
    (k : Kernel) (q : Queue) (us : List ℕ) → SameCommands q (run_call k q (queue_sqes us))
unfolding run_call
queue_sqes_same k q us = same_ring q (queue_all k q.ring us) (queue_all_tags k q.ring us)

-- A target that makes no more calls has what is left.
Moves-end :
    {n : ℕ} {h h' : ℕ → Bool} {o : ℕ → Owner} (q : Queue)
    → IsOwned n h o q
    → ((t : ℕ) → h' t ≡ h t)
    → Moves n o q h' q
Moves-end {h = h} {h' = h'} {o = o} q w e = (
  o,
  [],
  stay o,
  record {
    small = w.small;
    single = w.single;
    flags = w.flags;
    inflight = w.inflight;
    holding = λ t. e t ∙ w.holding t;
    inside = λ t has. w.inside t (sym (e t) ∙ has);
  },
  sym (append-nil (issued_tags q.ring.sqes)),
)

same_less : (q : Queue) (c : ℕ) → SameCommands q (record q { tgt_io_inflight = c })
same_less q c = record {
  same_batch = refl;
  same_ios = refl;
  same_inflight = refl;
  same_tags = refl;
}

pub run_calls-Moves :
    (k : Kernel) (cs : List Call)
    → {n : ℕ} {h h' : ℕ → Bool} {o : ℕ → Owner} (q : Queue) → IsOwned n h o q
    → Plays h cs h'
    → Moves n o q h' (run_calls k q cs)
unfolding run_calls run_call inc_tgt_io_inflight dec_tgt_io_inflight
run_calls-Moves k [] q w p = Moves-end q w p
run_calls-Moves k (complete t res ∷ cs) q w p =
    let m = complete_io-Moves k q t res w p.0 in
    Moves-trans q m (run_calls-Moves k cs (complete_io k q t res).1 m.3 p.1)
run_calls-Moves k (queue_sqes u ∷ cs) q w p =
    let m = Moves-same (queue_sqes_same k q u) w in
    Moves-trans q m (run_calls-Moves k cs (run_call k q (queue_sqes u)) m.3 p)
run_calls-Moves k (inc_inflight ∷ cs) q w p =
    let m = Moves-same (same_less q (u32 (q.tgt_io_inflight + 1))) w in
    Moves-trans q m (run_calls-Moves k cs (inc_tgt_io_inflight q) m.3 p)
run_calls-Moves k (dec_inflight ∷ cs) q w p =
    let m = Moves-same (same_less q (sub32 q.tgt_io_inflight 1)) w in
    Moves-trans q m (run_calls-Moves k cs (dec_tgt_io_inflight q) m.3 p)
run_calls-Moves k (events_handled ∷ cs) q w p =
    let m = Moves-same (handled_event_same k q q.efd) w in
    Moves-trans q m (run_calls-Moves k cs (handled_event_on k q q.efd) m.3 p)
