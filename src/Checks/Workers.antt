-- ===== src/Checks/Workers.antt =====
-- An aio context that serves two queues.
use s3blk.Base.{
  ℕ, arith, ◌==◌, if◌then◌else◌, ◌<◌, ◌≡◌, ◌≢◌, refl, true, false, List, [], ◌∷◌, length,
}
use s3blk.Base.Int.{ℤ, pos}
use s3blk.Ublksrv.Calls.{events_handled}
use s3blk.Ublksrv.Aio.{
  Aio, AioCtx, submit_all, submit_worker, complete_worker, complete_all, aio_handle_event,
  submit_aio_batch,
}
use s3blk.Ublksrv.Aio.Deliver.{
  of_queue, taken, complete_worker-aio_handle_event, submit_worker-submit_all,
}
use s3blk.Ublksrv.Aio.Wake.{of_ctx, submit_reqs, submit_aio_batch-submit_reqs}
use s3blk.Ublksrv.Aio.Linked.{AioList, aio_list_splice}
use s3blk.Ublksrv.Aio.Linked.Refines.{IsList, aio_list_splice-IsList}
use s3blk.Checks.{write_request}

-- Requests for tag 1 of queue 0, for tag 2 of queue 1 and for tag 3 of queue 0.
abbrev request : ℕ → Aio
request n = record { io = write_request; res = pos 512; id = n }

abbrev requests : List Aio
requests = request 1 ∷ request 0x2002 ∷ request 3 ∷ []

abbrev context : AioCtx
context = record {
  submit = request 1 ∷ [];
  complete = λ q. [];
  queue_wide = false;
  efd = 0;
  signalled = [];
}

complete_worker-aio_handle_event_example :
    (aio_handle_event (complete_worker context requests) 1).0
    ≡ events_handled ∷ complete_all (of_queue 1 requests)
complete_worker-aio_handle_event_example = complete_worker-aio_handle_event context requests 1 refl

-- Every request is done at once.
abbrev done_at_once : Aio → ℤ × Aio
done_at_once req = (pos 1, req)

submit_worker-submit_all_example :
    let (total, done, ctx') =
      submit_worker done_at_once true context ((request 0x2002 ∷ []) ∷ [] ∷ []) in
    let all = taken (request 1 ∷ []) ((request 0x2002 ∷ []) ∷ [] ∷ []) in
    (total ≡ length all) × (done ≡ (submit_all done_at_once true all).1) × (ctx'.submit ≡ [])
submit_worker-submit_all_example =
    submit_worker-submit_all done_at_once true context ((request 0x2002 ∷ []) ∷ [] ∷ [])

-- More contexts than the queue remembers.
abbrev calls : List (ℕ × Aio)
calls = (0, request 1) ∷ (1, request 3) ∷ (2, request 1) ∷ (3, request 3) ∷ (4, request 1) ∷ []

calls_some : of_ctx 4 calls ≢ []
calls_some h = cc

submit_aio_batch-submit_reqs_example :
    let (all', ctxs) = submit_reqs ((λ c. context), []) calls in
    0 < (submit_aio_batch all' ctxs 4).efd
submit_aio_batch-submit_reqs_example =
    submit_aio_batch-submit_reqs (λ c. context) calls 4 calls_some

-- Requests 1 and 2 stand in the list, and 3 is added by splicing.
abbrev links : ℕ → ℕ
links n = if n == 1 then 2 else 0

abbrev two : AioList
two = record { head = 1; tail = 2 }

abbrev one : AioList
one = record { head = 3; tail = 3 }

aio_list_splice-IsList_example :
    let (next', n', head') = aio_list_splice links one two in
    IsList next' head' (1 ∷ 2 ∷ 3 ∷ []) × IsList next' n' []
aio_list_splice-IsList_example =
    aio_list_splice-IsList links one two (1 ∷ 2 ∷ []) (3 ∷ []) (omega arith) (omega arith)
      (omega arith)
