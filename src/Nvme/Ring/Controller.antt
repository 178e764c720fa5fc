-- ===== src/Nvme/Ring/Controller.antt =====
-- The submission ring shared with the controller: the host submits and announces, the controller
-- fetches whatever the doorbell announces, one entry at a time, as the NVMe specification has it.
use s3blk.Base.{
  ℕ, suc, ◌+◌, ◌<◌, ◌≤◌, ◌≡◌, ◌≢◌, ◌⊎◌, refl, ap, sym, ◌∙◌, arith, List, [], ◌∷◌, ◌++◌, length,
  get_or, set, length-set, append_assoc,
}
use s3blk.Nvme.Types.{Queue, Command, zeroed}
use s3blk.Nvme.Ring.{sq_flush, sq_submit_cmd, sq_push, pending, advance}
use s3blk.Nvme.Ring.Modular.{gap, gap_lem, gap-advance, gap-advance_left, advance-lt}
use s3blk.Nvme.Ring.Doorbell.{IsRing, IsBatched, sq_flush-pending, sq_submit_cmd-IsBatched}
use s3blk.Nvme.Ring.Window.{window, window-set}

-- The host's queue, the controller's head, and the histories of both sides.
pub record System : Type 0 where
  pub host : Queue
  pub head : ℕ
  pub sent : List Command
  pub fetched : List Command

abbrev pub unfetched_count : System → ℕ
unfetched_count s = gap s.host.qsize s.head s.host.sq_tail

abbrev pub unfetched : System → List Command
unfetched s = window zeroed s.host.sq_slots s.host.qsize s.head (unfetched_count s)

-- The host submits only while a slot besides the last is free: there are fewer tags than slots.
pub data Step : System → System → Type 0 where
  submit :
      (s : System) (c : Command)
      → unfetched_count s + 1 < s.host.qsize
      → Step s (record s { host = sq_push s.host c; sent = s.sent ++ c ∷ [] })
  announce : (s : System) → Step s (record s { host = sq_flush s.host })
  fetch :
      (s : System)
      → s.head ≢ s.host.sq_rung
      → Step s (record s {
        head = advance s.host.qsize s.head;
        fetched = s.fetched ++ get_or s.host.sq_slots s.head zeroed ∷ [];
      })

pub data Reach (s : System) : System → Type 0 where
  here : Reach s s
  next : {t u : System} → Reach s t → Step t u → Reach s u

pub record Inv (s : System) : Type 0 where
  pub ring : IsRing s.host
  pub batched : IsBatched s.host
  pub slots : length s.host.sq_slots ≡ s.host.qsize
  pub head_in : s.head < s.host.qsize
  -- The doorbell lies between the controller's head and the tail.
  pub between : unfetched_count s ≡ gap s.host.qsize s.head s.host.last_sq_tail + pending s.host
  pub order : s.sent ≡ s.fetched ++ unfetched s

sq_submit_cmd_frame :
    (q : Queue) → ((sq_submit_cmd q).qsize ≡ q.qsize) × ((sq_submit_cmd q).sq_slots ≡ q.sq_slots)
unfolding sq_submit_cmd
sq_submit_cmd_frame q = ground arith

sq_flush_frame :
    (q : Queue)
    → ((sq_flush q).qsize ≡ q.qsize)
      × ((sq_flush q).sq_slots ≡ q.sq_slots)
      × ((sq_flush q).sq_tail ≡ q.sq_tail)
      × ((sq_flush q).last_sq_tail ≡ q.sq_tail)
unfolding sq_flush
sq_flush_frame q = ground arith

-- What a pushed command does to the parts that the invariant speaks of.
sq_push_parts :
    (q : Queue) (c : Command)
    → IsRing q
    → IsBatched q
    → let p = sq_push q c in
      IsRing p
      × IsBatched p
      × (p.qsize ≡ q.qsize)
      × (p.sq_slots ≡ set q.sq_slots q.sq_tail c)
      × (p.sq_tail ≡ advance q.qsize q.sq_tail)
      × (((pending p ≡ pending q + 1) × (p.last_sq_tail ≡ q.last_sq_tail))
          ⊎ ((pending p ≡ 0) × (p.last_sq_tail ≡ p.sq_tail)))
unfolding sq_push
sq_push_parts q c r b = ground (
  arith,
  sq_submit_cmd_frame (record q { sq_slots = set q.sq_slots q.sq_tail c }),
  sq_submit_cmd-IsBatched (record q { sq_slots = set q.sq_slots q.sq_tail c })
      (record {
        small = r.small;
        room = r.room;
        tail_in = r.tail_in;
        last_in = r.last_in;
        rung = r.rung;
      })
      (record { few = b.few; not_full = b.not_full }),
)

module _ (s : System) (v : Inv s) where
  open s use {host, head}
  open host use {qsize, sq_tail, last_sq_tail, sq_slots}

  -- The tail moves one step further from the controller's head.
  tail_ahead :
      unfetched_count s + 1 < qsize
      → gap qsize head (advance qsize sq_tail) ≡ suc (unfetched_count s)
  tail_ahead room =
      omega (arith, gap-advance qsize head sq_tail v.head_in v.ring.tail_in v.ring.small)

  submit-unfetched :
      (c : Command) (p : Queue)
      → unfetched_count s + 1 < qsize
      → p.qsize ≡ qsize
      → p.sq_slots ≡ set sq_slots sq_tail c
      → p.sq_tail ≡ advance qsize sq_tail
      → unfetched (record s { host = p }) ≡ unfetched s ++ c ∷ []
  submit-unfetched c p room en es et =
      rw (en, es, et, tail_ahead room)
        (window-set zeroed sq_slots qsize head sq_tail (unfetched_count s) c v.slots v.ring.small
          v.head_in v.ring.tail_in refl)

  submit-Inv :
      (c : Command)
      → unfetched_count s + 1 < qsize
      → Inv (record s { host = sq_push host c; sent = s.sent ++ c ∷ [] })
  submit-Inv c room =
      let p : Queue = sq_push host c in
      let f = sq_push_parts host c v.ring v.batched in
      record {
        ring = f.0;
        batched = f.1;
        slots = rw (f.2, f.3) (length-set sq_slots sq_tail c ∙ v.slots);
        head_in = rw f.2 v.head_in;
        between = rw f.2 (ground (arith, tail_ahead room, v.between));
        order =
            rw (submit-unfetched c p room f.2 f.3 f.4, ← append_assoc)
              (ap (λ l. l ++ c ∷ []) v.order);
      }

  announce-Inv : Inv (record s { host = sq_flush host })
  announce-Inv =
      let f = sq_flush_frame host in
      let g = sq_flush-pending host v.ring in
      record {
        ring = g.0;
        batched = record {
          few = omega (arith, g.1);
          not_full =
              rw (f.0, f.2, f.3)
                (omega (
                  arith,
                  v.ring.room,
                  gap_lem qsize sq_tail sq_tail v.ring.tail_in v.ring.tail_in,
                ));
        };
        slots = rw (f.0, f.1) v.slots;
        head_in = rw f.0 v.head_in;
        between =
            rw (f.0, f.2, f.3)
              (omega (arith, gap_lem qsize sq_tail sq_tail v.ring.tail_in v.ring.tail_in));
        order = rw (f.0, f.1, f.2) v.order;
      }

  fetch-Inv :
      head ≢ host.sq_rung
      → Inv (record s {
        head = advance qsize head;
        fetched = s.fetched ++ get_or sq_slots head zeroed ∷ [];
      })
  fetch-Inv h =
      let nearer_last : suc (gap qsize (advance qsize head) last_sq_tail)
          ≡ gap qsize head last_sq_tail =
        gap-advance_left qsize head last_sq_tail v.head_in v.ring.last_in v.ring.small
          (λ e. h (e ∙ sym v.ring.rung)) in
      let nearer_tail : suc (gap qsize (advance qsize head) sq_tail) ≡ unfetched_count s =
        gap-advance_left qsize head sq_tail v.head_in v.ring.tail_in v.ring.small (λ e. omega (
          arith,
          e,
          v.between,
          nearer_last,
          gap_lem qsize head sq_tail v.head_in v.ring.tail_in,
        )) in
      record {
        ring = v.ring;
        batched = v.batched;
        slots = v.slots;
        head_in = advance-lt qsize head v.head_in v.ring.small;
        between = omega (arith, v.between, nearer_last, nearer_tail);
        order =
            v.order
            ∙ (rw (← nearer_tail)
                (sym (append_assoc s.fetched (get_or sq_slots head zeroed ∷ []) _)));
      }

-- Every step keeps the invariant.
pub Step-Inv : {s t : System} → Step s t → Inv s → Inv t
Step-Inv (submit s c room) v = submit-Inv s v c room
Step-Inv (announce s) v = announce-Inv s v
Step-Inv (fetch s h) v = fetch-Inv s v h

pub Reach-Inv : {s t : System} → Inv s → Reach s t → Inv t
Reach-Inv v here = v
Reach-Inv v (next r st) = Step-Inv st (Reach-Inv v r)

-- From a state with the invariant on, whatever the interleaving, the controller has fetched the submitted commands in order, each
-- once and unaltered, and the rest stands in the ring behind its head; the doorbell is never past
-- the tail, and fewer than 32 commands wait for it.
pub Reach-order :
    {s t : System}
    → Inv s
    → Reach s t
    → (t.sent ≡ t.fetched ++ unfetched t)
      × (pending t.host ≤ unfetched_count t)
      × (pending t.host < 32)
Reach-order v r = let w = Reach-Inv v r in (w.order, omega (arith, w.between), w.batched.few)
