-- ===== src/Nvme/Poll/Protocol.antt =====
-- The completion ring shared with the controller. The controller posts completion number `i` to
-- slot `i % qsize` with the phase of its round, and never more than `qsize` ahead of the host.
use s3blk.Base.{
  ℕ, suc, ◌+◌, ◌%◌, ◌^◌, ◌<◌, ◌≤◌, ◌≡◌, ◌≢◌, ◌⊎◌, inl, inr, refl, sym, arith, true, false, ◌==◌,
  if◌then◌else◌, low_bits,
}
use s3blk.Nvme.Types.{Queue, Completion}
use s3blk.Nvme.Ring.{cqe_pending, update_cq_head, sq_flush}
use s3blk.Nvme.Poll.Phase.{phase, next_slot, slot_round, slots_distinct}

-- The controller writes a slot.
abbrev pub post_slot : Queue → ℕ → Completion → Queue
post_slot q slot c = record q { cq_slots = λ k. if k == slot then c else q.cq_slots k }

-- The host has taken `taken` of the `posted` completions, which `post` lists.
pub record IsSynced (q : Queue) (post : ℕ → Completion) (taken posted : ℕ) : Type 0 where
  pub size_pos : 0 < q.qsize
  pub small : q.qsize < 2 ^ 16
  pub ordered : taken ≤ posted
  pub room : posted ≤ taken + q.qsize
  pub at_head : q.cq_head ≡ taken % q.qsize
  pub at_phase : q.cq_phase ≡ phase q.qsize taken
  pub fresh : (i : ℕ) → taken ≤ i → i < posted → q.cq_slots (i % q.qsize) ≡ post i
  pub marked : (i : ℕ) → taken ≤ i → i < posted → low_bits (post i).status 1 ≡ phase q.qsize i
  pub stale :
      (i : ℕ)
      → posted ≤ i
      → i < taken + q.qsize
      → low_bits (q.cq_slots (i % q.qsize)).status 1 ≢ phase q.qsize i

==-true : (a b : ℕ) → a ≡ b → (a == b) ≡ true
==-true a b h = ground arith

==-false : (a b : ℕ) → a ≢ b → (a == b) ≡ false
==-false a b h = ground arith

split : (a b : ℕ) → a ≤ b → (a < b) ⊎ (a ≡ b)
split a b h = omega arith

module _ (q : Queue) (post : ℕ → Completion) (taken posted : ℕ)
    (v : IsSynced q post taken posted) where
  -- The phase test is true exactly if a completion waits, and then the slot at the head holds the
  -- oldest one that was not taken.
  pub cqe_pending-IsSynced :
      ((cqe_pending q ≡ true) × (taken < posted) × (q.cq_slots q.cq_head ≡ post taken))
      ⊎ ((cqe_pending q ≡ false) × (taken ≡ posted))
  unfolding cqe_pending
  cqe_pending-IsSynced = elim (split taken posted v.ordered) [
    | inl lt ↦ inl (
        let at_slot = v.fresh taken (omega arith) lt in
        (
          ==-true _ _ (rw (v.at_head, at_slot, v.at_phase) (v.marked taken (omega arith) lt)),
          lt,
          rw v.at_head at_slot,
        ))
    | inr eq ↦ inr (
      ==-false _ _ (
          rw (v.at_head, v.at_phase)
            (v.stale taken (omega (arith, eq)) (omega (arith, v.size_pos)))),
      eq,
    )
  ]

  update_cq_head_parts :
      let q' = update_cq_head q in
      (q'.qsize ≡ q.qsize)
      × (q'.cq_slots ≡ q.cq_slots)
      × (q'.cq_head ≡ suc taken % q.qsize)
      × (q'.cq_phase ≡ phase q.qsize (suc taken))
  unfolding update_cq_head
  update_cq_head_parts =
      ground (arith, next_slot q.qsize taken v.size_pos, v.at_head, v.at_phase, v.small)

  -- The slot of the taken completion carries the old phase on the next round.
  last_stale :
      taken < posted
      → low_bits (q.cq_slots ((taken + q.qsize) % q.qsize)).status 1
        ≢ phase q.qsize (taken + q.qsize)
  last_stale h =
      let r = slot_round q.qsize taken v.size_pos in
      rw (r.0, r.1, v.fresh taken (omega arith) h, v.marked taken (omega arith) h)
        (λ e. omega (arith, e))

  pub update_cq_head-IsSynced : taken < posted → IsSynced (update_cq_head q) post (suc taken) posted
  update_cq_head-IsSynced h =
      let f = update_cq_head_parts in
      record {
        size_pos = rw f.0 v.size_pos;
        small = rw f.0 v.small;
        ordered = h;
        room = rw f.0 (omega (arith, v.room));
        at_head = rw f.0 f.2;
        at_phase = rw f.0 f.3;
        fresh = λ i lo hi. rw (f.0, f.1) (v.fresh i (omega arith) hi);
        marked = λ i lo hi. rw f.0 (v.marked i (omega arith) hi);
        stale = λ i lo hi.
            rw (f.0, f.1)
              (elim (split i (taken + q.qsize) (omega (arith, hi, f.0))) [
                | inl lt ↦ v.stale i lo lt
                | inr eq ↦ rw eq (last_stale h)
              ]);
      }

  pub post_slot-IsSynced :
      posted < taken + q.qsize
      → low_bits (post posted).status 1 ≡ phase q.qsize posted
      → IsSynced (post_slot q (posted % q.qsize) (post posted)) post taken (suc posted)
  post_slot-IsSynced h m = record {
    size_pos = v.size_pos;
    small = v.small;
    ordered = omega (arith, v.ordered);
    room = h;
    at_head = v.at_head;
    at_phase = v.at_phase;
    fresh = λ i lo hi. elim (split i posted (omega arith)) [
      | inl lt ↦
          rw (==-false _ _ (slots_distinct q.qsize i posted lt (omega arith))) (v.fresh i lo lt)
      | inr eq ↦ rw (eq, ==-true _ _ refl) refl
    ];
    marked = λ i lo hi. elim (split i posted (omega arith)) [
      | inl lt ↦ v.marked i lo lt
      | inr eq ↦ rw eq m
    ];
    stale = λ i lo hi.
        rw
          (==-false _ _
            (λ e. slots_distinct q.qsize posted i lo (omega (arith, v.ordered)) (sym e)))
          (v.stale i (omega arith) hi);
  }

module _ (q : Queue) (post : ℕ → Completion) (taken posted : ℕ)
    (v : IsSynced q post taken posted) where
  pub cqe_pending-waiting :
      taken < posted → (cqe_pending q ≡ true) × (q.cq_slots q.cq_head ≡ post taken)
  cqe_pending-waiting h = elim (cqe_pending-IsSynced q post taken posted v) [
    | inl w ↦ (w.0, w.2)
    | inr w ↦ absurd (omega (arith, w.1))
  ]

  pub cqe_pending-empty : taken ≡ posted → cqe_pending q ≡ false
  cqe_pending-empty h = elim (cqe_pending-IsSynced q post taken posted v) [
    | inl w ↦ absurd (omega (arith, w.1))
    | inr w ↦ w.0
  ]

-- The protocol reads only the completion side of the queue.
pub IsSynced-frame :
    (q q' : Queue) (post : ℕ → Completion) (taken posted : ℕ)
    → q'.qsize ≡ q.qsize
    → q'.cq_slots ≡ q.cq_slots
    → q'.cq_head ≡ q.cq_head
    → q'.cq_phase ≡ q.cq_phase
    → IsSynced q post taken posted
    → IsSynced q' post taken posted
IsSynced-frame q q' post taken posted e f g h v = record {
  size_pos = rw e v.size_pos;
  small = rw e v.small;
  ordered = v.ordered;
  room = rw e v.room;
  at_head = rw (e, g) v.at_head;
  at_phase = rw (e, h) v.at_phase;
  fresh = rw (e, f) v.fresh;
  marked = rw e v.marked;
  stale = rw (e, f) v.stale;
}

sq_flush_cq :
    (q : Queue)
    → ((sq_flush q).qsize ≡ q.qsize)
      × ((sq_flush q).cq_slots ≡ q.cq_slots)
      × ((sq_flush q).cq_head ≡ q.cq_head)
      × ((sq_flush q).cq_phase ≡ q.cq_phase)
unfolding sq_flush
sq_flush_cq q = ground arith

pub sq_flush-IsSynced :
    (q : Queue) (post : ℕ → Completion) (taken posted : ℕ)
    → IsSynced q post taken posted
    → IsSynced (sq_flush q) post taken posted
sq_flush-IsSynced q post taken posted v =
    let f = sq_flush_cq q in IsSynced-frame q (sq_flush q) post taken posted f.0 f.1 f.2 f.3 v
