-- ===== src/Null/Contract.antt =====
-- The null target keeps the contract of the library's queue.
use s3blk.Base.{
  ℕ, zero, suc, ◌≡◌, inl, inr, refl, sym, ap, ◌∙◌, [], ◌∷◌, Bool, true, false, Bool-cases, ◌==◌,
  ==_iff,
}
use s3blk.Base.Int.{ℤ, pos, is_errno}
use s3blk.Ublk.{IoDesc, user_data_to_tag}
use s3blk.Loop.{Job, waiting, again, reported, ended, undefined, resume, await}
use s3blk.Ublksrv.Types.{Cqe, Queue, set_at}
use s3blk.Ublksrv.Calls.{complete}
use s3blk.Ublksrv.Owner.{Plays}
use s3blk.Ublksrv.Owner.Count.{set_at_self}
use s3blk.Ublksrv.Owner.Target.{IsTarget}
use s3blk.Null.{
  Jobs, submit_io, wait_for, start_io, handle_io_async, go_on, resume_job, tgt_io_done,
  null_tgt_type,
}

-- A target has the ios whose coroutines wait.
abbrev pub is_waiting : Job → Bool
is_waiting (waiting zero r) = false
is_waiting (waiting (suc n) r) = true
is_waiting again = false
is_waiting (reported r) = false
is_waiting ended = false
is_waiting undefined = false

abbrev pub waits : Jobs → ℕ → Bool
waits s t = is_waiting (s t)

-- The coroutine of `tag` runs, so that its io is with the target.
abbrev Runs : Jobs → ℕ → (ℕ → Bool) → Type 0
Runs s tag h = (x : ℕ) → h x ≡ set_at (waits s) tag true x

module _ (s : Jobs) (tag : ℕ) (h : ℕ → Bool) (runs : Runs s tag h) where
  has_tag : h tag ≡ true
  has_tag = runs tag ∙ set_at_self (waits s) tag true

  reports : (r : ℤ) → Plays h (complete tag r ∷ []) (waits (set_at s tag (reported r)))
  reports r = (
    has_tag,
    λ x. elim (Bool-cases (x == tag)) [
      | inl e ↦ rw e refl
      | inr e ↦ let below : h x ≡ waits s x = runs x ∙ rw e refl in rw (e, below) refl
    ],
  )

  waits_on : (n : ℕ) (r : ℤ) → Plays h [] (waits (set_at s tag (waiting (suc n) r)))
  waits_on n r x = elim (Bool-cases (x == tag)) [
    | inl e ↦ let above : h x ≡ true = runs x ∙ rw e refl in rw (e, above) refl
    | inr e ↦ let below : h x ≡ waits s x = runs x ∙ rw e refl in rw (e, below) refl
  ]

  wait_for-Plays : (n : ℕ) → Plays h (wait_for s tag n).1 (waits (wait_for s tag n).0)
  unfolding wait_for
  wait_for-Plays zero = reports (pos 0)
  wait_for-Plays (suc n) = waits_on n (pos 0)

  start_io-Plays :
      (iod : IoDesc) (q : Queue) → Plays h (start_io iod tag s q).1 (waits (start_io iod tag s q).0)
  unfolding start_io
  start_io-Plays iod q = wait_for-Plays (submit_io q.auto_zc q.zero_copy iod tag).0

  -- A coroutine that waited goes on.
  go_on-Plays :
      (iod : IoDesc) (q : Queue) (n : ℕ) (r : ℤ)
      → Plays h (go_on iod tag (await n r) s q).1 (waits (go_on iod tag (await n r) s q).0)
  unfolding go_on
  go_on-Plays iod q (suc n) r = waits_on n r
  go_on-Plays iod q zero r = elim (Bool-cases (is_errno 11 r)) [
    | inl e ↦ rw e (start_io-Plays iod q)
    | inr e ↦ rw e (reports r)
  ]

same-Runs : (s : Jobs) (tag : ℕ) → waits s tag ≡ true → Runs s tag (waits s)
same-Runs s tag e x = elim (Bool-cases (x == tag)) [
  | inl p ↦ rw p (ap (waits s) ((==_iff x tag).0 p) ∙ e)
  | inr p ↦ rw p refl
]

-- A coroutine that did not wait is undefined when it is resumed, and completes nothing.
gone-Plays :
    (s : Jobs) (tag : ℕ) → waits s tag ≡ false → Plays (waits s) [] (waits (set_at s tag undefined))
gone-Plays s tag e x = elim (Bool-cases (x == tag)) [
  | inl p ↦ rw p (sym (ap (waits s) ((==_iff x tag).0 p) ∙ e))
  | inr p ↦ rw p refl
]

resume_job-Plays :
    (iod : IoDesc) (tag : ℕ) (j : Job) (cqe : Cqe) (s : Jobs) (q : Queue)
    → s tag ≡ j
    → Plays (waits s) (resume_job iod tag j cqe s q).1 (waits (resume_job iod tag j cqe s q).0)
unfolding resume_job resume go_on
resume_job-Plays iod tag (waiting zero r) cqe s q e = gone-Plays s tag (ap is_waiting e)
resume_job-Plays iod tag (waiting (suc n) r) cqe s q e =
    go_on-Plays s tag (waits s) (same-Runs s tag (ap is_waiting e)) iod q n _
resume_job-Plays iod tag again cqe s q e = gone-Plays s tag (ap is_waiting e)
resume_job-Plays iod tag (reported r) cqe s q e = gone-Plays s tag (ap is_waiting e)
resume_job-Plays iod tag ended cqe s q e = gone-Plays s tag (ap is_waiting e)
resume_job-Plays iod tag undefined cqe s q e = gone-Plays s tag (ap is_waiting e)

handle_io_async-Plays :
    (iods : ℕ → IoDesc) (tag : ℕ) (s : Jobs) (q : Queue)
    → waits s tag ≡ false
    → Plays
        (set_at (waits s) tag true)
        (handle_io_async iods tag s q).1
        (waits (handle_io_async iods tag s q).0)
unfolding handle_io_async
handle_io_async-Plays iods tag s q away = elim (Bool-cases q.zero_copy) [
  | inl e ↦ simp e (start_io-Plays s tag (set_at (waits s) tag true) (λ x. refl) (iods tag) q)
  | inr e ↦ simp e (
    set_at_self (waits s) tag true,
    λ x. elim (Bool-cases (x == tag)) [
      | inl p ↦ rw p (ap (waits s) ((==_iff x tag).0 p) ∙ away)
      | inr p ↦ rw p refl
    ],
  )
]

-- Whatever the copy mode, the null target completes only ios it has, each once, and it has those
-- whose coroutines wait. Nothing more is said of a coroutine that is resumed without waiting.
pub null_tgt_type-IsTarget : (iods : ℕ → IoDesc) → IsTarget (null_tgt_type iods) waits
unfolding tgt_io_done
null_tgt_type-IsTarget iods = record {
  takes_io = handle_io_async-Plays iods;
  fair_done = λ cqe s q.
      resume_job-Plays (iods (user_data_to_tag cqe.user_data)) (user_data_to_tag cqe.user_data)
        (s (user_data_to_tag cqe.user_data)) cqe s q refl;
  fair_event = tt;
  fair_background = λ n. tt;
  fair_idle = λ b. tt;
  fair_epoll = λ fd events s q x. refl;
}
