-- ===== src/Ublksrv/Aio/Deliver.antt =====
-- What the threads of an aio context hand to the queues.
use s3blk.Base.{
  ℕ, zero, suc, ◌≤◌, ◌≡◌, inl, inr, refl, sym, ap, ◌∙◌, arith, Bool, true, false, Bool-cases, not,
  ◌&&◌, ◌==◌, ==_iff, subst, if◌then◌else◌, List, [], ◌∷◌, ◌++◌, length, length-append,
}
use s3blk.Base.Int.{ℤ}
use s3blk.Ublk.{aio_qid}
use s3blk.Ublksrv.Calls.{events_handled}
use s3blk.Ublksrv.Owner.Count.{dec_eq}
use s3blk.Ublksrv.Aio.{
  Aio, AioCtx, submit_all, submit_worker, move_to_queue_complete_list, sort_out, complete_loop,
  complete_worker, send_event, complete_all, aio_handle_event, is_zero,
}

-- The requests of a queue, in their order.
abbrev pub of_queue : ℕ → List Aio → List Aio
of_queue q_id [] = []
of_queue q_id (req ∷ reqs) =
    let rest = of_queue q_id reqs in if aio_qid req.id == q_id then req ∷ rest else rest

sort_out_this : (a : ℕ) (reqs : List Aio) → (sort_out a reqs).0 ≡ of_queue a reqs
unfolding sort_out
sort_out_this a [] = refl
sort_out_this a (req ∷ reqs) = elim (Bool-cases (aio_qid req.id == a)) [
  | inl e ↦ rw e (ap (λ l. req ∷ l) (sort_out_this a reqs))
  | inr e ↦ rw e (sort_out_this a reqs)
]

-- No request of the queue is left, and those of another queue all are.
sort_out_others :
    (a q : ℕ) (reqs : List Aio)
    → of_queue q (sort_out a reqs).1 ≡ (if q == a then [] else of_queue q reqs)
unfolding sort_out
sort_out_others a q [] = elim (Bool-cases (q == a)) [ inl e ↦ rw e refl | inr e ↦ rw e refl ]
sort_out_others a q (req ∷ reqs) = elim (dec_eq (aio_qid req.id) a) [
  | inl e ↦ elim (Bool-cases (q == a)) [
    | inl f ↦ simp ((==_iff (aio_qid req.id) a).1 e, f) (sort_out_others a q reqs ∙ rw f refl)
    | inr f ↦
        let other : (aio_qid req.id == q) ≡ false = ground arith in
        simp ((==_iff (aio_qid req.id) a).1 e, f, other) (sort_out_others a q reqs ∙ rw f refl)
  ]
  | inr e ↦
      let no : (aio_qid req.id == a) ≡ false = ground arith in
      elim (Bool-cases (aio_qid req.id == q)) [
        | inl f ↦
            let apart : (q == a) ≡ false = ground arith in
            rw (no, f, apart) (ap (λ l. req ∷ l) (sort_out_others a q reqs ∙ rw apart refl))
        | inr f ↦ rw (no, f) (sort_out_others a q reqs)
      ]
]

length-sort_out : (a : ℕ) (reqs : List Aio) → length (sort_out a reqs).1 ≤ length reqs
unfolding sort_out
length-sort_out a [] = omega arith
length-sort_out a (req ∷ reqs) =
    let ih = length-sort_out a reqs in
    elim (Bool-cases (aio_qid req.id == a)) [
      | inl e ↦ rw e (omega (arith, ih))
      | inr e ↦ rw e (omega (arith, ih))
    ]

app_app : (xs ys zs : List Aio) → (xs ++ ys) ++ zs ≡ xs ++ ys ++ zs
app_app [] ys zs = refl
app_app (x ∷ xs) ys zs = ap (λ l. x ∷ l) (app_app xs ys zs)

app_nil : (xs : List Aio) → xs ++ [] ≡ xs
app_nil [] = refl
app_nil (x ∷ xs) = ap (λ l. x ∷ l) (app_nil xs)

length-sort_out_head :
    (req : Aio) (reqs : List Aio) → length (sort_out (aio_qid req.id) (req ∷ reqs)).1 ≤ length reqs
unfolding sort_out
length-sort_out_head req reqs =
    rw ((==_iff (aio_qid req.id) (aio_qid req.id)).1 refl) (length-sort_out (aio_qid req.id) reqs)

-- One round of the outer loop keeps what each queue is to get.
abbrev Keeps : AioCtx → ℕ → List Aio → ℕ → Type 0
Keeps ctx a xs q =
    (move_to_queue_complete_list ctx a (sort_out a xs).0).complete q ++ of_queue q (sort_out a xs).1
    ≡ ctx.complete q ++ of_queue q xs

round-Keeps_self : (ctx : AioCtx) (a : ℕ) (xs : List Aio) → Keeps ctx a xs a
unfolding move_to_queue_complete_list
round-Keeps_self ctx a xs =
    let here : (a == a) ≡ true = (==_iff a a).1 refl in
    let none_left : of_queue a (sort_out a xs).1 ≡ [] = sort_out_others a a xs ∙ rw here refl in
    rw (here, none_left, sort_out_this a xs) (app_nil (ctx.complete a ++ of_queue a xs))

round-Keeps : (ctx : AioCtx) (a q : ℕ) (xs : List Aio) → Keeps ctx a xs q
unfolding move_to_queue_complete_list
round-Keeps ctx a q xs = elim (dec_eq q a) [
  | inl e ↦ subst (Keeps ctx a xs) (sym e) (round-Keeps_self ctx a xs)
  | inr e ↦
      let apart : (q == a) ≡ false = ground arith in
      let all_left : of_queue q (sort_out a xs).1 ≡ of_queue q xs =
        sort_out_others a q xs ∙ rw apart refl in
      rw (apart, all_left) refl
]

complete_loop_complete :
    (n : ℕ) (ctx : AioCtx) (xs : List Aio) (q : ℕ)
    → length xs ≤ n
    → (complete_loop n ctx xs).complete q ≡ ctx.complete q ++ of_queue q xs
unfolding complete_loop
complete_loop_complete zero ctx [] q h = sym (app_nil (ctx.complete q))
complete_loop_complete zero ctx (req ∷ reqs) q h = absurd (omega (arith, h))
complete_loop_complete (suc n) ctx [] q h = sym (app_nil (ctx.complete q))
complete_loop_complete (suc n) ctx (req ∷ reqs) q h =
    let a = aio_qid req.id in
    let sorted = sort_out a (req ∷ reqs) in
    let next = send_event (move_to_queue_complete_list ctx a sorted.0) a in
    let less = length-sort_out_head req reqs in
    complete_loop_complete n next sorted.1 q (omega (arith, less, h))
    ∙ round-Keeps ctx a q (req ∷ reqs)

-- Unless the context is one for a single queue, ublksrv_aio_complete_worker puts every completed
-- request into the list of the queue that its id names, behind those that are there and in their
-- order; and the next ublksrv_aio_handle_event of a queue completes exactly the requests of its
-- list, each for the tag of its id and with its result.
pub complete_worker-aio_handle_event :
    (ctx : AioCtx) (completed : List Aio) (q : ℕ)
    → ctx.queue_wide ≡ false
    → (aio_handle_event (complete_worker ctx completed) q).0
      ≡ events_handled ∷ complete_all (ctx.complete q ++ of_queue q completed)
unfolding complete_worker aio_handle_event
complete_worker-aio_handle_event ctx [] q h =
    ap (λ l. events_handled ∷ complete_all l) (sym (app_nil (ctx.complete q)))
complete_worker-aio_handle_event ctx (req ∷ reqs) q h =
    let whole : complete_worker ctx (req ∷ reqs)
        ≡ complete_loop (suc (length reqs)) ctx (req ∷ reqs) =
      simp h refl in
    let lists = complete_loop_complete (suc (length reqs)) ctx (req ∷ reqs) q (omega arith) in
    ap (λ l. events_handled ∷ complete_all l) (ap (λ c. c.complete q) whole ∙ lists)

-- All that a run of the submitting thread takes from the list.
abbrev pub taken : List Aio → List (List Aio) → List Aio
taken now [] = now
taken now ([] ∷ arrivals) = now
taken now ((new ∷ more) ∷ arrivals) = now ++ taken (new ∷ more) arrivals

submit_all-app :
    (fn : Aio → ℤ × Aio) (has_done : Bool) (xs ys : List Aio)
    → (submit_all fn has_done (xs ++ ys)).1
      ≡ (submit_all fn has_done xs).1 ++ (submit_all fn has_done ys).1
unfolding submit_all
submit_all-app fn has_done [] ys = refl
submit_all-app fn has_done (x ∷ xs) ys =
    let ih = submit_all-app fn has_done xs ys in
    elim (Bool-cases (not (is_zero (fn x).0) && has_done)) [
      | inl e ↦ rw (e, ih) refl
      | inr e ↦ rw (e, ih) refl
    ]

submit_all-length :
    (fn : Aio → ℤ × Aio) (has_done : Bool) (xs : List Aio)
    → (submit_all fn has_done xs).0 ≡ length xs
unfolding submit_all
submit_all-length fn has_done [] = refl
submit_all-length fn has_done (x ∷ xs) =
    let ih = submit_all-length fn has_done xs in
    elim (Bool-cases (not (is_zero (fn x).0) && has_done)) [
      | inl e ↦ rw e (ap suc ih)
      | inr e ↦ rw e (ap suc ih)
    ]

-- However the requests arrive while ublksrv_aio_submit_worker runs, it returns the number of all
-- of them, its completed ones are those of one pass over all of them in the order of the list, and
-- it leaves none in the list.
pub submit_worker-submit_all :
    (fn : Aio → ℤ × Aio) (has_done : Bool) (ctx : AioCtx) (arrivals : List (List Aio))
    → let (total, done, ctx') = submit_worker fn has_done ctx arrivals in
      let all = taken ctx.submit arrivals in
      (total ≡ length all) × (done ≡ (submit_all fn has_done all).1) × (ctx'.submit ≡ [])
unfolding submit_worker
submit_worker-submit_all fn has_done ctx [] = (submit_all-length fn has_done ctx.submit, refl, refl)
submit_worker-submit_all fn has_done ctx ([] ∷ arrivals) =
    (submit_all-length fn has_done ctx.submit, refl, refl)
submit_worker-submit_all fn has_done ctx ((new ∷ more) ∷ arrivals) =
    let later = record ctx { submit = new ∷ more; efd = 0 } in
    let ih = submit_worker-submit_all fn has_done later arrivals in
    let rest = taken (new ∷ more) arrivals in
    (
      omega (arith, ih.0, submit_all-length fn has_done ctx.submit, length-append ctx.submit rest),
      rw (ih.1, submit_all-app fn has_done ctx.submit rest) refl,
      ih.2,
    )
