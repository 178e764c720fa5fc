-- ===== src/Ublksrv/Aio/Wake.antt =====
-- That no aio context sleeps on the requests it is given.
use s3blk.Base.{
  ℕ, ◌+◌, ◌≤◌, ◌<◌, ◌≡◌, ◌≢◌, ◌⊎◌, inl, inr, refl, ap, arith, Bool, true, false, Bool-cases, ◌||◌,
  ◌==◌, ltb, ==_iff, if◌then◌else◌, List, [], ◌∷◌, ◌++◌, length,
}
use s3blk.Ublksrv.Types.{set_at}
use s3blk.Ublksrv.Owner.Count.{set_at_self, set_at_ne, dec_eq}
use s3blk.Ublksrv.Aio.{
  Aio, AioCtx, Ctxs, remembers, aio_add_ctx_for_submit, write_efd, aio_submit_req, submit_aio_batch,
}

-- A context is woken, or will be by the queue.
abbrev Woken : Ctxs → ℕ → Type 0
Woken (all, ctxs) c = (0 < (all c).efd) ⊎ (remembers ctxs c ≡ true)

remembers_last : (ctxs : List ℕ) (c : ℕ) → remembers (ctxs ++ c ∷ []) c ≡ true
remembers_last [] c = rw ((==_iff c c).1 refl) refl
remembers_last (x ∷ ctxs) c = rw (remembers_last ctxs c) (or_true (x == c))
  where
    or_true : (b : Bool) → (b || true) ≡ true
    or_true true = refl
    or_true false = refl

remembers_more :
    (ctxs : List ℕ) (x c : ℕ) → remembers ctxs c ≡ true → remembers (ctxs ++ x ∷ []) c ≡ true
remembers_more [] x c h = absurd (cc)
remembers_more (y ∷ ctxs) x c h = elim (Bool-cases (y == c)) [
  | inl e ↦ rw e refl
  | inr e ↦
      let rest : remembers ctxs c ≡ true = rw e at h in rw (e, remembers_more ctxs x c rest) refl
]

write_efd_self : (all : ℕ → AioCtx) (c : ℕ) → (write_efd all c c).efd ≡ (all c).efd + 1
unfolding write_efd
write_efd_self all c =
    ap (λ x. x.efd) (set_at_self all c (record (all c) { efd = (all c).efd + 1 }))

write_efd_ne : (all : ℕ → AioCtx) (x c : ℕ) → c ≢ x → write_efd all x c ≡ all c
unfolding write_efd
write_efd_ne all x c h = set_at_ne all {i = x} {j = c} (record (all x) { efd = (all x).efd + 1 }) h

write_efd_le : (all : ℕ → AioCtx) (x c : ℕ) → (all c).efd ≤ (write_efd all x c).efd
write_efd_le all x c = elim (dec_eq c x) [
  | inl e ↦ rw e (omega (arith, write_efd_self all x))
  | inr e ↦ rw (write_efd_ne all x c e) (omega arith)
]

submit_aio_batch_le :
    (ctxs : List ℕ) (all : ℕ → AioCtx) (c : ℕ) → (all c).efd ≤ (submit_aio_batch all ctxs c).efd
unfolding submit_aio_batch
submit_aio_batch_le [] all c = omega arith
submit_aio_batch_le (x ∷ ctxs) all c =
    omega (arith, write_efd_le all x c, submit_aio_batch_le ctxs (write_efd all x) c)

submit_aio_batch_remembered :
    (ctxs : List ℕ) (all : ℕ → AioCtx) (c : ℕ)
    → remembers ctxs c ≡ true
    → 0 < (submit_aio_batch all ctxs c).efd
unfolding submit_aio_batch
submit_aio_batch_remembered [] all c h = absurd (cc)
submit_aio_batch_remembered (x ∷ ctxs) all c h = elim (Bool-cases (x == c)) [
  | inl e ↦
      let same : x ≡ c = (==_iff x c).0 e in
      rw same (omega (arith, write_efd_self all c, submit_aio_batch_le ctxs (write_efd all c) c))
  | inr e ↦
      let rest : remembers ctxs c ≡ true = rw e at h in
      submit_aio_batch_remembered ctxs (write_efd all x) c rest
]

-- The requests of a context among those that are submitted, in their order.
abbrev pub of_ctx : ℕ → List (ℕ × Aio) → List Aio
of_ctx c [] = []
of_ctx c ((x, req) ∷ reqs) = let rest = of_ctx c reqs in if x == c then req ∷ rest else rest

-- What a thread submits in one round of its queue.
abbrev pub submit_reqs : Ctxs → List (ℕ × Aio) → Ctxs
submit_reqs s [] = s
submit_reqs s ((c, req) ∷ reqs) = submit_reqs (aio_submit_req s c req) reqs

aio_submit_req-Woken :
    (all : ℕ → AioCtx) (ctxs : List ℕ) (c : ℕ) (req : Aio)
    → Woken (aio_submit_req (all, ctxs) c req) c
unfolding aio_submit_req aio_add_ctx_for_submit
aio_submit_req-Woken all ctxs c req = elim (Bool-cases (remembers ctxs c)) [
  | inl e ↦ simp e (inr refl)
  | inr e ↦ elim (Bool-cases (ltb (length ctxs) 3)) [
    | inl f ↦ simp (e, f) (inr (remembers_last ctxs c))
    | inr f ↦
        simp (e, f)
          (inl (
            omega (
              arith,
              write_efd_self (set_at all c (record (all c) { submit = (all c).submit ++ req ∷ [] }))
                  c,
            )))
  ]
]

added_efd :
    (all : ℕ → AioCtx) (x c : ℕ) (l : List Aio)
    → (set_at all x (record (all x) { submit = l }) c).efd ≡ (all c).efd
added_efd all x c l = elim (dec_eq c x) [
  | inl e ↦ rw (e, set_at_self all x (record (all x) { submit = l })) refl
  | inr e ↦ rw (set_at_ne all {i = x} {j = c} (record (all x) { submit = l }) e) refl
]

aio_submit_req-Woken_still :
    (all : ℕ → AioCtx) (ctxs : List ℕ) (x c : ℕ) (req : Aio)
    → Woken (all, ctxs) c
    → Woken (aio_submit_req (all, ctxs) x req) c
unfolding aio_submit_req aio_add_ctx_for_submit
aio_submit_req-Woken_still all ctxs x c req w =
    let l = (all x).submit ++ req ∷ [] in
    let added = set_at all x (record (all x) { submit = l }) in
    elim (Bool-cases (remembers ctxs x)) [
      | inl e ↦ elim w [
        | inl h ↦ simp e (inl (omega (arith, h, added_efd all x c l)))
        | inr h ↦ simp e (inr h)
      ]
      | inr e ↦ elim (Bool-cases (ltb (length ctxs) 3)) [
        | inl f ↦ elim w [
          | inl h ↦ simp (e, f) (inl (omega (arith, h, added_efd all x c l)))
          | inr h ↦ simp (e, f) (inr (remembers_more ctxs x c h))
        ]
        | inr f ↦ elim w [
          | inl h ↦
              simp (e, f) (inl (omega (arith, h, added_efd all x c l, write_efd_le added x c)))
          | inr h ↦ simp (e, f) (inr h)
        ]
      ]
    ]

submit_reqs-Woken_still :
    (all : ℕ → AioCtx) (ctxs : List ℕ) (reqs : List (ℕ × Aio)) (c : ℕ)
    → Woken (all, ctxs) c
    → Woken (submit_reqs (all, ctxs) reqs) c
submit_reqs-Woken_still all ctxs [] c w = w
submit_reqs-Woken_still all ctxs ((x, req) ∷ reqs) c w =
    let next = aio_submit_req (all, ctxs) x req in
    submit_reqs-Woken_still next.0 next.1 reqs c (aio_submit_req-Woken_still all ctxs x c req w)

submit_reqs-Woken :
    (all : ℕ → AioCtx) (ctxs : List ℕ) (reqs : List (ℕ × Aio)) (c : ℕ)
    → of_ctx c reqs ≢ []
    → Woken (submit_reqs (all, ctxs) reqs) c
submit_reqs-Woken all ctxs [] c h = absurd (h refl)
submit_reqs-Woken all ctxs ((x, req) ∷ reqs) c h =
    let next = aio_submit_req (all, ctxs) x req in
    elim (Bool-cases (x == c)) [
      | inl e ↦
          let same : x ≡ c = (==_iff x c).0 e in
          let woken : Woken next c = rw same (aio_submit_req-Woken all ctxs c req) in
          submit_reqs-Woken_still next.0 next.1 reqs c woken
      | inr e ↦
          let rest : of_ctx c reqs ≢ [] = rw e at h in submit_reqs-Woken next.0 next.1 reqs c rest
    ]

-- However many contexts a round of the queue's thread submits requests to, and even if there are
-- more of them than the queue can remember, the eventfd of each of them is written by the end of
-- ublksrv_submit_aio_batch, if the round's first request comes after ublksrv_reset_aio_batch.
pub submit_aio_batch-submit_reqs :
    (all : ℕ → AioCtx) (reqs : List (ℕ × Aio)) (c : ℕ)
    → of_ctx c reqs ≢ []
    → let (all', ctxs) = submit_reqs (all, []) reqs in 0 < (submit_aio_batch all' ctxs c).efd
submit_aio_batch-submit_reqs all reqs c h =
    let s = submit_reqs (all, []) reqs in
    elim (submit_reqs-Woken all [] reqs c h) [
      | inl w ↦ omega (arith, w, submit_aio_batch_le s.1 s.0 c)
      | inr w ↦ submit_aio_batch_remembered s.1 s.0 c w
    ]
