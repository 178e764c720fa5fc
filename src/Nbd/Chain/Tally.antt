-- ===== src/Nbd/Chain/Tally.antt =====
-- No io is lost between its arrival and the ring.
use s3blk.Base.{
  ℕ, ◌+◌, ◌^◌, ◌<◌, ◌≡◌, inl, inr, refl, sym, ◌∙◌, arith, Bool-cases, List, [], ◌∷◌, ◌++◌,
  append-nil, append_assoc,
}
use s3blk.Nbd.Send.{
  Env, QueueData, finish_io, start_io, send_chain_busy, handle_io_async, send_req_done, start_all,
  end_chain, handle_send_bg, submit_chain,
}
use s3blk.Nbd.Chain.{
  Step, arrive, sent, finish, flush, submit, sent_tags, count, tally, IsServed, count-append,
  end_chain_frame, finish_io_frame, send_req_done_frame, submit_chain_frame, start_io_tags,
}

-- Every waiting tag is a 16-bit value.
abbrev pub AllSmall : List ℕ → Type 0
AllSmall [] = Unit {0}
AllSmall (t ∷ r) = (t < 2 ^ 16) × AllSmall r

Tags-append : (l : List ℕ) (t : ℕ) → AllSmall l → t < 2 ^ 16 → AllSmall (l ++ t ∷ [])
Tags-append [] t h k = (k, tt)
Tags-append (x ∷ l) t h k = (h.0, Tags-append l t h.1 k)

-- The io that a step brings.
abbrev pub arrivals : {env : Env} {q q' : QueueData} → Step env q q' → List ℕ
arrivals (arrive q tag small) = tag ∷ []
arrivals (sent q cqe some_left) = []
arrivals (finish q tag res) = []
arrivals (flush q) = []
arrivals (submit q) = []

module _ (env : Env) (served : IsServed env) where
  start_all_tags :
      (q : QueueData) (l : List ℕ)
      → AllSmall l
      → sent_tags (start_all env q l).sqes ≡ sent_tags q.sqes ++ l
  unfolding start_all
  start_all_tags q [] h = sym (append-nil (sent_tags q.sqes))
  start_all_tags q (t ∷ l) h =
      start_all_tags (start_io env q t) l h.1
      ∙ (rw ((start_io_tags env served q t h.0).0) (append_assoc (sent_tags q.sqes) (t ∷ []) l))

  tally_add :
      (t : ℕ) (q q' : QueueData) (l : List ℕ)
      → sent_tags q'.sqes ≡ sent_tags q.sqes ++ l
      → q'.next_chain ≡ q.next_chain
      → tally t q' ≡ count t l + tally t q
  tally_add t q q' l e f = rw (e, f) (omega (arith, count-append t (sent_tags q.sqes) l))

  arrive-tally :
      (t : ℕ) (q : QueueData) (tag : ℕ)
      → tag < 2 ^ 16
      → AllSmall q.next_chain
      → (tally t (handle_io_async env q tag) ≡ count t (tag ∷ []) + tally t q)
        × AllSmall (handle_io_async env q tag).next_chain
  unfolding handle_io_async
  arrive-tally t q tag small h = elim (Bool-cases (send_chain_busy q)) [
    | inl busy ↦
        rw (busy, handle_io_async)
          (
            omega (arith, count-append t q.next_chain (tag ∷ [])),
            Tags-append q.next_chain tag h small,
          )
    | inr idle ↦
        let f = start_io_tags env served q tag small in
        rw (idle, handle_io_async) (tally_add t q (start_io env q tag) (tag ∷ []) f.0 f.1, rw f.1 h)
  ]

  end_chain-tally :
      (t : ℕ) (q : QueueData)
      → AllSmall q.next_chain
      → (tally t (end_chain q) ≡ tally t q) × AllSmall (end_chain q).next_chain
  end_chain-tally t q h = let f = end_chain_frame q in rw (f.0, f.2) (refl, h)

  abbrev all_started : QueueData → QueueData
  all_started q = record (start_all env q q.next_chain) { next_chain = [] }

  all_started-tally :
      (t : ℕ) (q : QueueData) → AllSmall q.next_chain → tally t (all_started q) ≡ tally t q
  all_started-tally t q h =
      rw (start_all_tags q q.next_chain h)
        (omega (arith, count-append t (sent_tags q.sqes) q.next_chain))

  handle_send_bg-tally :
      (t : ℕ) (q : QueueData)
      → AllSmall q.next_chain
      → (tally t (handle_send_bg env q) ≡ tally t q) × AllSmall (handle_send_bg env q).next_chain
  unfolding handle_send_bg
  handle_send_bg-tally t q h = elim (Bool-cases (send_chain_busy q)) [
    | inl busy ↦ rw (busy, handle_send_bg) (end_chain-tally t q h)
    | inr idle ↦
        let f = end_chain-tally t (all_started q) tt in
        rw (idle, handle_send_bg) (f.0 ∙ all_started-tally t q h, f.1)
  ]

  same-tally :
      (t : ℕ) (q q' : QueueData)
      → q'.sqes ≡ q.sqes
      → q'.next_chain ≡ q.next_chain
      → AllSmall q.next_chain
      → (tally t q' ≡ 0 + tally t q) × AllSmall q'.next_chain
  same-tally t q q' e f h = rw (e, f) (omega arith, h)

  Step-tally :
      (t : ℕ) {q q' : QueueData} (st : Step env q q')
      → AllSmall q.next_chain
      → (tally t q' ≡ count t (arrivals st) + tally t q) × AllSmall q'.next_chain
  Step-tally t (arrive q tag small) h = arrive-tally t q tag small h
  Step-tally t (sent q cqe some_left) h =
      let f = send_req_done_frame q cqe in same-tally t q (send_req_done q cqe) f.0 f.1 h
  Step-tally t (finish q tag res) h =
      let f = finish_io_frame q tag res in same-tally t q (finish_io q tag res) f.0 f.1 h
  Step-tally t (flush q) h = let b = handle_send_bg-tally t q h in (omega (arith, b.0), b.1)
  Step-tally t (submit q) h =
      let f = submit_chain_frame q in same-tally t q (submit_chain q) f.0 f.1 h

-- A run of the thread, with the ios that came, the latest first.
pub data Run (env : Env) (q : QueueData) : List ℕ → QueueData → Type 0 where
  here : Run env q [] q
  next :
      {r s : QueueData} {l : List ℕ}
      → Run env q l r
      → (st : Step env r s) → Run env q (arrivals st ++ l) s

-- If every io is one that NBD knows, of less than 2^16 sectors, and the ring has room: in every run
-- from an empty queue on, each io that came was sent once or waits once in the next chain.
pub Run-tally :
    {env : Env} (served : IsServed env) (t : ℕ) {q q' : QueueData} {l : List ℕ}
    → q.sqes ≡ []
    → q.next_chain ≡ []
    → Run env q l q'
    → (tally t q' ≡ count t l) × AllSmall q'.next_chain
Run-tally served t e f here = rw (e, f) (refl, tt)
Run-tally {env} served t e f (next {l = l} r st) =
    let b = Run-tally served t e f r in
    let s = Step-tally env served t st b.1 in
    (omega (arith, s.0, b.0, count-append t (arrivals st) l), s.1)
