-- ===== src/Ublksrv/Aio.antt =====
-- lib/ublksrv_aio.c with the lists of include/ublksrv_aio.h, and ublksrv_submit_aio_batch of
-- lib/ublksrv.c: ios that a target hands to a thread of its own. Each use of a list stands under
-- its lock, so that a step here is what happens between two such uses.
pub mod Deliver
pub mod Wake
pub mod Linked
use s3blk.Base.{
  ℕ, zero, suc, ◌+◌, Bool, true, false, not, ◌&&◌, ◌||◌, ltb, ◌==◌, if◌then◌else◌, List, [], ◌∷◌,
  ◌++◌, length,
}
use s3blk.Base.Int.{ℤ, pos, negsuc, is_neg}
use s3blk.Ublk.{IoDesc, aio_qid, aio_tag}
use s3blk.Ublksrv.Types.{set_at}
use s3blk.Ublksrv.Calls.{Call, complete, events_handled}

-- `struct ublksrv_aio` without its payload and its link; `res` is its union as an output.
pub record Aio : Type 0 where
  pub io : IoDesc
  pub res : ℤ
  pub id : ℕ

-- `struct ublksrv_aio_ctx`: the list of each direction, and the counter of its eventfd.
-- `signalled` holds the queues whose threads ublksrv_queue_send_event has been called for. Left out
-- are `dead`, `dev` and `ctx_data`, which these functions do not decide on.
pub record AioCtx : Type 0 where
  pub submit : List Aio
  pub complete : ℕ → List Aio
  pub queue_wide : Bool
  pub efd : ℕ
  pub signalled : List ℕ

-- A completed request that fn reports with `ret`.
abbrev pub with_ret : ℤ → Aio → Aio
with_ret ret req = if is_neg ret then record req { res = ret } else req

abbrev pub is_zero : ℤ → Bool
is_zero (pos n) = n == 0
is_zero (negsuc n) = false

-- The inner loop of ublksrv_aio_submit_worker: how many requests it hands to `fn`, and those that
-- it puts in `done`.
unfoldable pub submit_all : (Aio → ℤ × Aio) → Bool → List Aio → ℕ × List Aio
submit_all fn has_done [] = (0, [])
submit_all fn has_done (req ∷ sl) =
    let (ret, req1) = fn req in
    let (total, done) = submit_all fn has_done sl in
    if not (is_zero ret) && has_done
    then (suc total, with_ret ret req1 ∷ done)
    else (suc total, done)

-- ublksrv_aio_submit_worker; `arrivals` are the requests that other threads add in each of its
-- rounds, until it looks whether there are more.
unfoldable pub submit_worker :
    (Aio → ℤ × Aio) → Bool → AioCtx → List (List Aio) → ℕ × List Aio × AioCtx
submit_worker fn has_done ctx [] =
    let (total, done) = submit_all fn has_done ctx.submit in
    (total, done, record ctx { submit = []; efd = 0 })
submit_worker fn has_done ctx ([] ∷ arrivals) =
    let (total, done) = submit_all fn has_done ctx.submit in
    (total, done, record ctx { submit = []; efd = 0 })
submit_worker fn has_done ctx ((new ∷ more) ∷ arrivals) =
    let (total, done) = submit_all fn has_done ctx.submit in
    let (total', done', ctx') =
      submit_worker fn has_done (record ctx { submit = new ∷ more; efd = 0 }) arrivals in
    (total + total', done ++ done', ctx')

-- move_to_queue_complete_list
unfoldable pub move_to_queue_complete_list : AioCtx → ℕ → List Aio → AioCtx
move_to_queue_complete_list ctx q_id list = record ctx {
  complete = set_at ctx.complete q_id (ctx.complete q_id ++ list);
}

abbrev pub send_event : AioCtx → ℕ → AioCtx
send_event ctx q_id = record ctx { signalled = ctx.signalled ++ q_id ∷ [] }

-- The inner loop of ublksrv_aio_complete_worker: the requests of a queue, and the others.
unfoldable pub sort_out : ℕ → List Aio → List Aio × List Aio
sort_out q_id [] = ([], [])
sort_out q_id (req ∷ reqs) =
    let (this, others) = sort_out q_id reqs in
    if aio_qid req.id == q_id then (req ∷ this, others) else (this, req ∷ others)

-- Its outer loop, with fuel.
unfoldable pub complete_loop : ℕ → AioCtx → List Aio → AioCtx
complete_loop zero ctx completed = ctx
complete_loop (suc n) ctx [] = ctx
complete_loop (suc n) ctx (req ∷ reqs) =
    let q_id = aio_qid req.id in
    let (this, others) = sort_out q_id (req ∷ reqs) in
    complete_loop n (send_event (move_to_queue_complete_list ctx q_id this) q_id) others

-- ublksrv_aio_complete_worker. Each round takes at least one request, so that as many rounds as
-- there are requests are enough.
unfoldable pub complete_worker : AioCtx → List Aio → AioCtx
complete_worker ctx [] = ctx
complete_worker ctx (req ∷ reqs) =
    let q_id = aio_qid req.id in
    if ctx.queue_wide
    then send_event (move_to_queue_complete_list ctx q_id (req ∷ reqs)) q_id
    else complete_loop (suc (length reqs)) ctx (req ∷ reqs)

abbrev pub complete_all : List Aio → List Call
complete_all [] = []
complete_all (req ∷ reqs) = complete (aio_tag req.id) req.res ∷ complete_all reqs

-- ublksrv_aio_handle_event: the calls of the library, and the context.
unfoldable pub aio_handle_event : AioCtx → ℕ → List Call × AioCtx
aio_handle_event ctx q_id = (
  events_handled ∷ complete_all (ctx.complete q_id),
  record ctx { complete = set_at ctx.complete q_id [] },
)

-- Whether a context is among those that a queue remembers.
abbrev pub remembers : List ℕ → ℕ → Bool
remembers [] c = false
remembers (x ∷ ctxs) c = x == c || remembers ctxs c

-- The contexts by number, and the `ctxs` of the queue.
abbrev pub Ctxs : Type 0
Ctxs = (ℕ → AioCtx) × List ℕ

-- ublksrv_aio_add_ctx_for_submit; UBLKSRV_NR_CTX_BATCH is 4.
unfoldable pub aio_add_ctx_for_submit : List ℕ → ℕ → Bool × List ℕ
aio_add_ctx_for_submit ctxs c =
    if remembers ctxs c
    then (true, ctxs)
    else if ltb (length ctxs) 3
    then (true, ctxs ++ c ∷ [])
    else (false, ctxs)

-- A write of 1 to the eventfd of a context; the counter is far from its limit.
unfoldable pub write_efd : (ℕ → AioCtx) → ℕ → ℕ → AioCtx
write_efd all c = set_at all c (record (all c) { efd = (all c).efd + 1 })

-- ublksrv_aio_submit_req
unfoldable pub aio_submit_req : Ctxs → ℕ → Aio → Ctxs
aio_submit_req (all, ctxs) c req =
    let added = set_at all c (record (all c) { submit = (all c).submit ++ req ∷ [] }) in
    let (remembered, ctxs') = aio_add_ctx_for_submit ctxs c in
    if remembered then (added, ctxs') else (write_efd added c, ctxs')

-- ublksrv_submit_aio_batch
unfoldable pub submit_aio_batch : (ℕ → AioCtx) → List ℕ → ℕ → AioCtx
submit_aio_batch all [] = all
submit_aio_batch all (c ∷ ctxs) = submit_aio_batch (write_efd all c) ctxs
