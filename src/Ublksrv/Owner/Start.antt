-- ===== src/Ublksrv/Owner/Start.antt =====
-- A new queue has a command for each of its tags with the driver.
use s3blk.Base.{
  ℕ, zero, suc, ◌+◌, ◌^◌, ◌<◌, ◌≤◌, ◌≡◌, inl, inr, refl, sym, ap, ◌∙◌, arith, List, [], ◌∷◌, ◌++◌,
  Bool, true, false, if◌then◌else◌, Option, none, some, lt→ltb, subst,
}
use s3blk.Base.Int.{pos}
use s3blk.Ublksrv.Types.{set_at, Queue, Kernel, Ring}
use s3blk.Ublksrv.Ring.{alloc_sqe, queue_event_on}
use s3blk.Ublksrv.Command.{queue_io_cmd}
use s3blk.Ublksrv.Init.{
  DevInfo, System, calculate_depths, fresh_io, setup_eventfd, all_ok, queue_before_start,
  fresh_queue, queue_init_flags,
}
use s3blk.Ublksrv.Process.{queue_io_cmds, submit_fetch_commands}
use s3blk.Ublksrv.Owner.{Owner, driver, held, is_driver, issued_tags, FlagsOf}
use s3blk.Ublksrv.Owner.Count.{dec_eq, count}
use s3blk.Ublksrv.Owner.Moves.{IsOwned, IsOwned-same}
use s3blk.Ublksrv.Owner.Commands.{
  queue_io_cmd_branches, with_command, with_command_owned, with_command_tags,
}
use s3blk.Ublksrv.Owner.Calls.{queue_event_same}

-- The first `m` tags are with the driver, the others still with the queue.
abbrev pub owners_after : ℕ → ℕ → Owner
owners_after zero = λ t. held
owners_after (suc m) = set_at (owners_after m) m driver

abbrev pub no_ios : ℕ → Bool
no_ios t = false

-- 0, 1, …, n - 1
abbrev pub upto : ℕ → List ℕ
upto zero = []
upto (suc n) = upto n ++ n ∷ []

alloc_found : (k : Kernel) (r : Ring) → r.ready < k.sq_entries → alloc_sqe k r ≡ (true, r)
unfolding alloc_sqe
alloc_found k r h = rw (lt→ltb r.ready k.sq_entries h, lt→ltb r.ready k.sq_entries h) refl

above_held : (m t : ℕ) → m ≤ t → owners_after m t ≡ held
above_held zero t h = refl
above_held (suc m) t h = let ih = above_held m t (omega arith) in ground arith

count_none : (n : ℕ) → count is_driver (owners_after 0) n ≡ 0
unfolding count
count_none zero = refl
count_none (suc n) = let ih = count_none n in omega arith

-- Where the queue is after the commands of the first `m` tags.
pub record Started (k : Kernel) (n m : ℕ) (q : Queue) : Type 0 where
  pub owned : IsOwned n no_ios (owners_after m) q
  pub tags : issued_tags q.ring.sqes ≡ upto m
  pub ready : q.ring.ready ≡ m

queue_io_cmd_found :
    (k : Kernel) (q : Queue) (t : ℕ)
    → FlagsOf held (q.ios t)
    → q.ring.ready < k.sq_entries
    → queue_io_cmd k q t ≡ (pos 1, with_command k q t)
queue_io_cmd_found k q t f h = queue_io_cmd_branches k q t f ∙ rw (alloc_found k q.ring h) refl

Started-next :
    (k : Kernel) (q : Queue) (n m : ℕ)
    → Started k n m q
    → n ≤ k.sq_entries
    → m < n
    → Started k n (suc m) (queue_io_cmd k q m).1
Started-next k q n m s room lt =
    let e : owners_after m m ≡ held = above_held m m (omega arith) in
    let f = subst (λ a. FlagsOf a (q.ios m)) e (s.owned.flags m lt) in
    let free : q.ring.ready < k.sq_entries = omega (arith, s.ready, room, lt) in
    let found = alloc_found k q.ring free in
    let t = with_command_tags k q m (omega (arith, lt, s.owned.small)) in
    rw (queue_io_cmd_found k q m f free) (record {
      owned = with_command_owned k q m s.owned lt e;
      tags = t ∙ ap (λ (l : List ℕ). l ++ m ∷ []) s.tags;
      ready = ap (λ (r : Bool × Ring). r.1.ready + 1) found ∙ omega (arith, s.ready);
    })

queue_io_cmds-Started :
    (k : Kernel) (q : Queue) (n m : ℕ)
    → Started k n 0 q
    → n ≤ k.sq_entries
    → m ≤ n
    → Started k n m (queue_io_cmds k q m)
unfolding queue_io_cmds
queue_io_cmds-Started k q n zero s room le = s
queue_io_cmds-Started k q n (suc m) s room le =
    Started-next k (queue_io_cmds k q m) n m (queue_io_cmds-Started k q n m s room (omega arith))
      room (omega arith)

fresh_queue-Started :
    (k : Kernel) (dev : DevInfo) (sys : System) (q_id : ℕ) (efd : Option ℕ)
    → dev.queue_depth < 2 ^ 16
    → dev.batch_io ≡ false
    → Started k dev.queue_depth 0 (fresh_queue dev sys q_id efd)
unfolding fresh_queue fresh_io
fresh_queue-Started k dev sys q_id efd small single = record {
  owned = record {
    small = small;
    single = single;
    flags = λ t lt. (refl, refl);
    inflight = sym (count_none dev.queue_depth);
    holding = λ t. refl;
    inside = λ t h. cc;
  };
  tags = refl;
  ready = refl;
}

below_driver : (m t : ℕ) → t < m → owners_after m t ≡ driver
below_driver zero t h = absurd (omega arith)
below_driver (suc m) t h = elim (dec_eq t m) [
  | inl e ↦ ground arith
  | inr e ↦ let ih = below_driver m t (omega arith) in ground arith
]

all_driver : (n m : ℕ) → n ≤ m → count is_driver (owners_after m) n ≡ n
unfolding count
all_driver zero m h = refl
all_driver (suc n) m h =
    let ih = all_driver n m (omega arith) in
    let e : owners_after m n ≡ driver = below_driver m n (omega arith) in rw (e, ih) (omega arith)

only_if : {A : Type 0} (b : Bool) {x a : A} → (if b then some x else none) ≡ some a → a ≡ x
only_if true e = cc
only_if false e = cc

submit_fetch_commands_single :
    (k : Kernel) (q : Queue)
    → q.batch_io ≡ false
    → submit_fetch_commands k q
      ≡ (queue_event_on k (queue_io_cmds k q q.q_depth) (queue_io_cmds k q q.q_depth).efd).1
unfolding submit_fetch_commands
submit_fetch_commands_single k q e = ground arith

queue_before_start_single :
    (dev : DevInfo) (sys : System) (q_id : ℕ)
    → dev.batch_io ≡ false
    → queue_before_start dev sys q_id ≡ fresh_queue dev sys q_id (setup_eventfd dev sys.eventfd).1
unfolding queue_before_start
queue_before_start_single dev sys q_id e = ground arith

started_single :
    (k : Kernel) (dev : DevInfo) (sys : System) (q_id : ℕ) (efd : Option ℕ)
    → dev.batch_io ≡ false
    → submit_fetch_commands k (fresh_queue dev sys q_id efd)
      ≡ (queue_event_on k
          (queue_io_cmds k (fresh_queue dev sys q_id efd) dev.queue_depth)
          (queue_io_cmds k (fresh_queue dev sys q_id efd) dev.queue_depth).efd).1
unfolding fresh_queue
started_single k dev sys q_id efd e =
    submit_fetch_commands_single k (fresh_queue dev sys q_id efd) e

depth_fits : (dev : DevInfo) → dev.queue_depth ≤ (calculate_depths dev).0
unfolding calculate_depths
depth_fits dev = ground arith

-- A queue without batch mode and of depth below 2^16 that is set up, on a ring with at least the
-- entries asked for, has one command for each of its tags with the driver, issued in the order of
-- the tags, and counts them.
pub queue_init_flags-IsOwned :
    (k : Kernel) (dev : DevInfo) (sys : System) (q_id : ℕ) (q : Queue)
    → dev.queue_depth < 2 ^ 16
    → dev.batch_io ≡ false
    → (calculate_depths dev).0 ≤ k.sq_entries
    → queue_init_flags k dev sys q_id ≡ some q
    → IsOwned dev.queue_depth no_ios (owners_after dev.queue_depth) q
      × (issued_tags q.ring.sqes ≡ upto dev.queue_depth)
      × (q.cmd_inflight ≡ dev.queue_depth)
unfolding queue_init_flags
queue_init_flags-IsOwned k dev sys q_id q small single asked e =
    let n = dev.queue_depth in
    let fresh = fresh_queue dev sys q_id (setup_eventfd dev sys.eventfd).1 in
    let s = fresh_queue-Started k dev sys q_id (setup_eventfd dev sys.eventfd).1 small single in
    let issued = queue_io_cmds k fresh n in
    let s' =
      queue_io_cmds-Started k fresh n n s (omega (arith, depth_fits dev, asked)) (omega arith) in
    let same = queue_event_same k issued issued.efd in
    let event = (queue_event_on k issued issued.efd).1 in
    let e' : q ≡ event =
      only_if (all_ok dev sys) e
      ∙ ap (submit_fetch_commands k) (queue_before_start_single dev sys q_id single)
      ∙ started_single k dev sys q_id (setup_eventfd dev sys.eventfd).1 single in
    rw e' (
      IsOwned-same same s'.owned,
      same.same_tags ∙ s'.tags,
      same.same_inflight ∙ s'.owned.inflight ∙ all_driver n n (omega arith),
    )
