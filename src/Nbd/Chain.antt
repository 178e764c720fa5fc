-- ===== src/Nbd/Chain.antt =====
-- The chain of linked sends that the kernel works on, and the ios that wait for it to end.
pub mod Tally
use s3blk.Base.{
  ℕ, zero, suc, ◌+◌, ◌^◌, ◌<◌, ◌≤◌, ◌≡◌, ◌≢◌, ◌⊎◌, inl, inr, refl, sym, ap, ap₂, ◌∙◌, arith, Bool,
  true, false, not, ◌&&◌, ltb, ◌==◌, if◌then◌else◌, Bool-cases, Option-cases, List, [], ◌∷◌, ◌++◌,
  length, set, get_or, length-set, append-nil, append_assoc, Option, none, some, u16, u32, sub32,
}
use s3blk.Base.Int.{ℤ, pos, is_neg}
use s3blk.Ublk.{IoDesc, get_op, op_write, build_user_data, user_data_to_tag}
use s3blk.Ublk.Tags.{user_data-build_user_data}
use s3blk.Nbd.Wire.{Request, req_to_nbd_cmd_type}
use s3blk.Nbd.Send.{
  Env, QueueData, Sqe, send, recv, Cqe, queue_req, finish_io, try_send, start_io, send_chain_busy,
  handle_io_async, send_req_done, start_all, unlink, end_chain, handle_send_bg, submit_chain,
}

-- What the library's thread does with the queue, in any order; an io ends as soon as the receiver
-- has its reply. The receiver's own entries are left out.
pub data Step (env : Env) : QueueData → QueueData → Type 0 where
  arrive : (q : QueueData) (tag : ℕ) → tag < 2 ^ 16 → Step env q (handle_io_async env q tag)
  sent : (q : QueueData) (cqe : Cqe) → 0 < q.chained_send_ios → Step env q (send_req_done q cqe)
  finish : (q : QueueData) (tag : ℕ) (res : ℤ) → Step env q (finish_io q tag res)
  flush : (q : QueueData) → Step env q (handle_send_bg env q)
  submit : (q : QueueData) → Step env q (submit_chain q)

-- The tags whose requests were put on the ring.
abbrev pub sent_tags : List Sqe → List ℕ
sent_tags [] = []
sent_tags (send req payload user_data zc link ∷ r) = user_data_to_tag user_data ∷ sent_tags r
sent_tags (recv len at user_data ∷ r) = sent_tags r

abbrev pub count : ℕ → List ℕ → ℕ
count t [] = 0
count t (x ∷ r) = (if t == x then 1 else 0) + count t r

-- How often an io of tag `t` was sent or waits to be sent.
abbrev pub tally : ℕ → QueueData → ℕ
tally t q = count t (sent_tags q.sqes) + count t q.next_chain

-- Every io is one that NBD knows, of less than 32 MiB, and the ring has room.
pub record IsServed (env : Env) : Type 0 where
  pub free : (l : List Sqe) → env.sqe_free l ≡ true
  pub kind : ℕ → ℕ
  pub known : (t : ℕ) → req_to_nbd_cmd_type (env.iods t) ≡ some (kind t)
  pub sectors : (t : ℕ) → (env.iods t).nr_sectors < 2 ^ 16

sent_tags-append : (l m : List Sqe) → sent_tags (l ++ m) ≡ sent_tags l ++ sent_tags m
sent_tags-append [] m = refl
sent_tags-append (send a b c d e ∷ r) m = ap (λ l. user_data_to_tag c ∷ l) (sent_tags-append r m)
sent_tags-append (recv a b c ∷ r) m = sent_tags-append r m

pub count-append : (t : ℕ) (l m : List ℕ) → count t (l ++ m) ≡ count t l + count t m
count-append t [] m = omega arith
count-append t (x ∷ r) m = omega (arith, count-append t r m)

sent_tags-unlink :
    (l : List Sqe) (i : ℕ) (d : Sqe) → sent_tags (set l i (unlink (get_or l i d))) ≡ sent_tags l
sent_tags-unlink [] i d = refl
sent_tags-unlink (send a b c e f ∷ r) zero d = refl
sent_tags-unlink (recv a b c ∷ r) zero d = refl
sent_tags-unlink (send a b c e f ∷ r) (suc i) d =
    ap (λ l. user_data_to_tag c ∷ l) (sent_tags-unlink r i d)
sent_tags-unlink (recv a b c ∷ r) (suc i) d = sent_tags-unlink r i d

pub end_chain_frame :
    (q : QueueData)
    → (sent_tags (end_chain q).sqes ≡ sent_tags q.sqes)
      × (length (end_chain q).sqes ≡ length q.sqes)
      × ((end_chain q).next_chain ≡ q.next_chain)
end_chain_frame q = elim (Option-cases q.last_send_sqe) [
  | inl e ↦ rw e (refl, refl, refl)
  | inr (i, e) ↦ rw e (sent_tags-unlink q.sqes i (recv 0 0 0), length-set q.sqes i _, refl)
]

pub finish_io_frame :
    (q : QueueData) (tag : ℕ) (res : ℤ)
    → ((finish_io q tag res).sqes ≡ q.sqes) × ((finish_io q tag res).next_chain ≡ q.next_chain)
unfolding finish_io
finish_io_frame q tag res = (refl, refl)

pub send_req_done_frame :
    (q : QueueData) (cqe : Cqe)
    → ((send_req_done q cqe).sqes ≡ q.sqes) × ((send_req_done q cqe).next_chain ≡ q.next_chain)
unfolding send_req_done
send_req_done_frame q cqe = ground arith

pub submit_chain_frame :
    (q : QueueData)
    → ((submit_chain q).sqes ≡ q.sqes) × ((submit_chain q).next_chain ≡ q.next_chain)
submit_chain_frame q = ground arith

handle_send_bg-busy :
    (env : Env) (q : QueueData) → send_chain_busy q ≡ true → handle_send_bg env q ≡ end_chain q
unfolding handle_send_bg
handle_send_bg-busy env q busy = rw busy refl

-- While the kernel has a chain, nothing that the thread does puts another entry on the ring.
pub Step-closed :
    {env : Env} {q q' : QueueData}
    → Step env q q'
    → send_chain_busy q ≡ true
    → length q'.sqes ≡ length q.sqes
unfolding handle_io_async
Step-closed (arrive q tag small) busy = rw (busy, handle_io_async) refl
Step-closed (sent q cqe some_left) busy = ap length (send_req_done_frame q cqe).0
Step-closed (finish q tag res) busy = ap length (finish_io_frame q tag res).0
Step-closed {env} (flush q) busy = rw (handle_send_bg-busy env q busy) (end_chain_frame q).1
Step-closed (submit q) busy = ap length (submit_chain_frame q).0

module _ (env : Env) (served : IsServed env) where
  tag_read :
      (q : QueueData) (tag : ℕ)
      → tag < 2 ^ 16
      → let op = get_op (env.iods tag) in
        user_data_to_tag
          (build_user_data tag op (if op == op_write then (env.iods tag).nr_sectors else 0) 1)
        ≡ tag
  tag_read q tag small =
      (user_data-build_user_data tag (get_op (env.iods tag)) _ 1 small (omega arith)
        (ground (arith, served.sectors tag)) (omega arith)).0

  queue_req_tags :
      (q : QueueData) (tag : ℕ) (req : Request)
      → tag < 2 ^ 16
      → let r = queue_req env q tag req in
        (r.0 ≡ pos 1)
        × (sent_tags r.1.sqes ≡ sent_tags q.sqes ++ tag ∷ [])
        × (r.1.next_chain ≡ q.next_chain)
  unfolding queue_req
  queue_req_tags q tag req small =
      rw (served.free q.sqes, queue_req)
        (
          refl,
          sent_tags-append q.sqes _ ∙ ap (λ x. sent_tags q.sqes ++ x ∷ []) (tag_read q tag small),
          refl,
        )

  try_send_tags :
      (q : QueueData) (tag : ℕ) (req : Request)
      → tag < 2 ^ 16
      → (sent_tags (try_send env q tag req).sqes ≡ sent_tags q.sqes ++ tag ∷ [])
        × ((try_send env q tag req).next_chain ≡ q.next_chain)
  unfolding try_send
  try_send_tags q tag req small =
      let r = queue_req_tags q tag req small in rw (r.0, try_send) (r.1, r.2)

  pub start_io_tags :
      (q : QueueData) (tag : ℕ)
      → tag < 2 ^ 16
      → (sent_tags (start_io env q tag).sqes ≡ sent_tags q.sqes ++ tag ∷ [])
        × ((start_io env q tag).next_chain ≡ q.next_chain)
  unfolding start_io
  start_io_tags q tag small = rw (served.known tag, start_io) (try_send_tags _ tag _ small)
