-- ===== src/Ublksrv/Batch/Commit.antt =====
-- Results are collected and committed in order, each once, and the buffer has room for them.
use s3blk.Base.{
  ℕ, zero, suc, ◌+◌, ◌-◌, ◌*◌, ◌/◌, ◌^◌, ◌<◌, ◌≤◌, ◌≡◌, ◌≢◌, ◌⊎◌, inl, inr, refl, sym, ap, subst,
  ◌∙◌, arith, List, [], ◌∷◌, ◌++◌, Bool, true, false, if◌then◌else◌, ◌==◌, u16, u32, length,
  length-append,
}
use s3blk.Base.Int.{ℤ}
use s3blk.Ublksrv.Types.{
  set_at, Sqe, batch_cmd, BatchElem, BatchIo, CommitBuf, Batch, Queue, Kernel, commit_nr,
}
use s3blk.Ublksrv.Ring.{alloc_sqe, put}
use s3blk.Ublksrv.Command.{complete_io, batch_add_complete, current, new_elem, with_elem}
use s3blk.Ublksrv.Batch.{
  elems_of, batch_io_of, batch_io_cmd, batch_submit_commit, batch_alloc_bufs, commit_buf_size,
  elem_buf_size,
}
use s3blk.Ublksrv.Owner.{Owner, driver, target, held, parked}
use s3blk.Ublksrv.Owner.Count.{count, one_if, count-set_at, count_bound, set_at_self, set_at_ne}
use s3blk.Ublksrv.Owner.Moves.{alloc_sqe_sqes}

abbrev pub is_held : Owner → Bool
is_held driver = false
is_held target = false
is_held held = true
is_held parked = false

-- The tags and results of elements.
abbrev pub results : List BatchElem → List (ℕ × ℤ)
results [] = []
results (e ∷ r) = (e.tag, e.result) ∷ results r

-- In batch mode, the current buffer holds the results `l` of just the tags that the queue holds.
pub record IsBatched (n : ℕ) (o : ℕ → Owner) (l : List (ℕ × ℤ)) (q : Queue) : Type 0 where
  pub small : n < 2 ^ 16
  pub batched : q.batch_io ≡ true
  pub two_bufs : q.batch.cur_commit_buf < 2
  pub collected : results (elems_of (current q).buf (current q).done) ≡ l
  pub filled : (current q).done ≡ count is_held o n

results-append : (l m : List BatchElem) → results (l ++ m) ≡ results l ++ results m
results-append [] m = refl
results-append (e ∷ l) m = ap (λ (r : List (ℕ × ℤ)). (e.tag, e.result) ∷ r) (results-append l m)

-- A write behind the first elements does not change them.
elems_of-set_above :
    (buf : ℕ → BatchElem) (n i : ℕ) (e : BatchElem)
    → n ≤ i
    → elems_of (set_at buf i e) n ≡ elems_of buf n
unfolding elems_of
elems_of-set_above buf zero i e h = refl
elems_of-set_above buf (suc n) i e h =
    let ne : n ≢ i = λ eq. omega (arith, eq, h) in
    rw (elems_of-set_above buf n i e (omega arith), set_at_ne buf {i = i} {j = n} e ne) refl

elems_of-set_next :
    (buf : ℕ → BatchElem) (n : ℕ) (e : BatchElem)
    → elems_of (set_at buf n e) (suc n) ≡ elems_of buf n ++ e ∷ []
unfolding elems_of
elems_of-set_next buf n e =
    rw (elems_of-set_above buf n n e (omega arith), set_at_self buf n e) refl

batch_add_complete-current :
    (q : Queue) (t : ℕ) (res : ℤ)
    → current (batch_add_complete q t res) ≡ with_elem (current q) (new_elem q t res)
unfolding batch_add_complete
batch_add_complete-current q t res =
    set_at_self q.batch.commit_bufs q.batch.cur_commit_buf
      (with_elem (current q) (new_elem q t res))

add_two_bufs :
    (q : Queue) (t : ℕ) (res : ℤ)
    → q.batch.cur_commit_buf < 2
    → (batch_add_complete q t res).batch.cur_commit_buf < 2
unfolding batch_add_complete
add_two_bufs q t res h = h

new_elem_result :
    (q : Queue) (t : ℕ) (res : ℤ) → results (new_elem q t res ∷ []) ≡ (u16 t, res) ∷ []
unfolding new_elem
new_elem_result q t res = refl

complete_io_batched :
    (k : Kernel) (q : Queue) (t : ℕ) (res : ℤ)
    → q.batch_io ≡ true
    → (complete_io k q t res).1.batch ≡ (batch_add_complete q t res).batch
unfolding complete_io
complete_io_batched k q t res e = ground arith

complete_io_batch_io :
    (k : Kernel) (q : Queue) (t : ℕ) (res : ℤ)
    → q.batch_io ≡ true
    → (complete_io k q t res).1.batch_io ≡ true
unfolding complete_io batch_add_complete
complete_io_batch_io k q t res e = ground arith

-- In batch mode, completing an io that the target has collects its result behind the others, at a
-- position of the buffer below the queue depth.
pub complete_io-IsBatched :
    {n : ℕ} {o : ℕ → Owner} {l : List (ℕ × ℤ)} (k : Kernel) (q : Queue) (t : ℕ) (res : ℤ)
    → IsBatched n o l q
    → t < n
    → o t ≡ target
    → IsBatched n (set_at o t held) (l ++ (t, res) ∷ []) (complete_io k q t res).1
      × ((current q).done < n)
complete_io-IsBatched {n} {o} {l} k q t res w lt e =
    let was : one_if (is_held (o t)) ≡ 0 = rw e refl in
    let more = count-set_at is_held o n t held lt in
    let few = count_bound is_held (set_at o t held) n in
    let room : (current q).done < n = omega (arith, was, more, few, w.filled) in
    let q' = (complete_io k q t res).1 in
    let new : current q' ≡ with_elem (current q) (new_elem q t res) =
      ap (λ (b : Batch). b.commit_bufs b.cur_commit_buf) (complete_io_batched k q t res w.batched)
      ∙ batch_add_complete-current q t res in
    let d : u16 ((current q).done + 1) ≡ suc (current q).done = omega (arith, room, w.small) in
    let same : u16 t ≡ t = omega (arith, lt, w.small) in
    (
      record {
        small = w.small;
        batched = complete_io_batch_io k q t res w.batched;
        two_bufs =
            subst (λ (b : Batch). b.cur_commit_buf < 2)
              (sym (complete_io_batched k q t res w.batched)) (add_two_bufs q t res w.two_bufs);
        collected =
            rw (new, d, elems_of-set_next (current q).buf (current q).done (new_elem q t res))
              (results-append (elems_of (current q).buf (current q).done) (new_elem q t res ∷ [])
                ∙ rw (w.collected, new_elem_result q t res, same) refl);
        filled = rw new (omega (arith, d, was, more, w.filled));
      },
      room,
    )

length-results : (l : List BatchElem) → length (results l) ≡ length l
length-results [] = refl
length-results (e ∷ l) = ap suc (length-results l)

length-elems_of : (buf : ℕ → BatchElem) (n : ℕ) → length (elems_of buf n) ≡ n
unfolding elems_of
length-elems_of buf zero = refl
length-elems_of buf (suc n) =
    omega (arith, length-append (elems_of buf n) (buf n ∷ []), length-elems_of buf n)

-- What the queue holds goes to the driver.
abbrev pub handed_over : (ℕ → Owner) → ℕ → Owner
handed_over o t = if is_held (o t) then driver else o t

count-handed_over : (o : ℕ → Owner) (n : ℕ) → count is_held (handed_over o) n ≡ 0
unfolding count
count-handed_over o zero = refl
count-handed_over o (suc n) =
    let ih = count-handed_over o n in
    let none_held : is_held (handed_over o n) ≡ false = not_held (o n) in
    rw (none_held, ih) (omega arith)
  where
    not_held : (a : Owner) → is_held (if is_held a then driver else a) ≡ false
    not_held driver = refl
    not_held target = refl
    not_held held = refl
    not_held parked = refl

-- A commit that finds an entry.
abbrev committed : Kernel → Queue → Queue
committed k q =
    let other = 1 - q.batch.cur_commit_buf in
    let empty : CommitBuf = record (q.batch.commit_bufs other) { done = 0 } in
    let b : Batch = record q.batch {
      cur_commit_buf = other;
      commit_bufs = set_at q.batch.commit_bufs other empty;
    } in
    record q {
      ring = put (alloc_sqe k q.ring).1 (
          batch_cmd (
            batch_io_of q commit_nr q.batch.cur_commit_buf q.batch.cur_commit_buf
              (current q).done));
      cmd_inflight = u32 (q.cmd_inflight + 1);
      batch = b;
    }

batch_submit_commit_found :
    (k : Kernel) (q : Queue)
    → 0 < (current q).done
    → (alloc_sqe k q.ring).0 ≡ true
    → batch_submit_commit k q ≡ committed k q
unfolding batch_submit_commit batch_io_cmd
batch_submit_commit_found k q some e =
    let e' : ((current q).done == 0) ≡ false = ground arith in rw (e', e) refl

-- A commit that finds an entry hands the results collected in the current buffer, of which there
-- is at least one, to the driver in one command, in the order of completion and each once, and the
-- tags go to the driver; the other buffer starts empty.
pub batch_submit_commit-IsBatched :
    {n : ℕ} {o : ℕ → Owner} {l : List (ℕ × ℤ)} (k : Kernel) (q : Queue)
    → IsBatched n o l q
    → 0 < (current q).done
    → (alloc_sqe k q.ring).0 ≡ true
    → IsBatched n (handed_over o) [] (batch_submit_commit k q)
      × ((c : BatchIo) × ((batch_submit_commit k q).ring.sqes ≡ q.ring.sqes ++ batch_cmd c ∷ [])
          × (results c.elems ≡ l)
          × (c.nr_elem ≡ length l))
unfolding batch_io_of elems_of
batch_submit_commit-IsBatched {n} {o} {l} k q w some found =
    let nr = (current q).done in
    let c = batch_io_of q commit_nr q.batch.cur_commit_buf q.batch.cur_commit_buf nr in
    let other = 1 - q.batch.cur_commit_buf in
    let empty : CommitBuf = record (q.batch.commit_bufs other) { done = 0 } in
    let new : current (committed k q) ≡ empty = set_at_self q.batch.commit_bufs other empty in
    let elems = elems_of (current q).buf nr in
    let len : nr ≡ length l = omega (
      arith,
      ap (length {0}) w.collected,
      length-results elems,
      length-elems_of (current q).buf nr,
    ) in
    rw (batch_submit_commit_found k q some found) (
      record {
        small = w.small;
        batched = w.batched;
        two_bufs = omega arith;
        collected = rw new refl;
        filled = rw (new, count-handed_over o n) refl;
      },
      (c, ap (λ (r : List Sqe). r ++ batch_cmd c ∷ []) (alloc_sqe_sqes k q.ring), w.collected, len),
    )

buf_room_8 : (d : ℕ) → d ≤ 4096 → d ≤ u16 ((8 * d + (4096 - 1)) / 4096 * 4096 / 8)
buf_room_8 d h = omega arith

buf_room_16 : (d : ℕ) → d ≤ 4096 → d ≤ u16 ((16 * d + (4096 - 1)) / 4096 * 4096 / 16)
buf_room_16 d h = omega arith

elem_buf_size_two : (q : Queue) → (elem_buf_size q ≡ 8) ⊎ (elem_buf_size q ≡ 16)
unfolding elem_buf_size
elem_buf_size_two q = ground arith

buf_room :
    (q : Queue) → q.q_depth ≤ 4096 → q.q_depth ≤ u16 (commit_buf_size 4096 q / elem_buf_size q)
unfolding commit_buf_size
buf_room q h = elim (elem_buf_size_two q) [
  | inl e ↦ rw e (buf_room_8 q.q_depth h)
  | inr e ↦ rw e (buf_room_16 q.q_depth h)
]

-- With pages of 4 KiB, both commit buffers of a queue that is not deeper than
-- UBLK_MAX_QUEUE_DEPTH have room for a result of each tag.
pub batch_alloc_bufs_room :
    (q : Queue)
    → q.q_depth ≤ 4096
    → (q.q_depth ≤ ((batch_alloc_bufs 4096 q).batch.commit_bufs 0).count)
      × (q.q_depth ≤ ((batch_alloc_bufs 4096 q).batch.commit_bufs 1).count)
unfolding batch_alloc_bufs
batch_alloc_bufs_room q h = (buf_room q h, buf_room q h)
