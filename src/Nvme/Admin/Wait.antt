-- ===== src/Nvme/Admin/Wait.antt =====
-- What waiting for an admin command comes to, and what a failed queue creation leaves.
use s3blk.Base.{
  ℕ, zero, suc, ◌+◌, ◌-◌, ◌%◌, ◌^◌, ◌<◌, ◌≡◌, ◌≢◌, ◌⊎◌, inl, inr, refl, arith, Bool, true, false,
  ◌==◌, if◌then◌else◌, Bool-cases, List, low_bits, ◌>>◌, u16,
}
use native.Mathlib.Nat.{mod-eq_of_lt, mod_self}
use s3blk.Base.Int.{ℤ, pos, minus, is_neg, eio, etimedout}
use s3blk.Nvme.Types.{Queue, Completion, TgtData, IoasCall, create_cq, create_sq}
use s3blk.Nvme.Ring.{update_cq_head}
use s3blk.Nvme.Setup.{queue_init, queue_deinit}
use s3blk.Nvme.Admin.{take_completion, wait_loop, submit_admin_cmd, create_io_queue}

below_suc : (i k : ℕ) → i < suc k → (i < k) ⊎ (i ≡ k)
below_suc i k h = omega arith

step_mod :
    (x n : ℕ) → x < n → ((x + 1 < n) × ((x + 1) % n ≡ x + 1)) ⊎ ((x + 1 ≡ n) × ((x + 1) % n ≡ 0))
step_mod x n h = elim (below_suc (x + 1) n (omega (arith, h))) [
  | inl lt ↦ inl (lt, mod-eq_of_lt lt)
  | inr eq ↦ inr (eq, rw eq (mod_self n))
]

-- The admin queue steps over a completion exactly as nvme_update_cq_head does, and rings the
-- doorbell with the new head.
pub take_completion-update_cq_head :
    (q : Queue)
    → 0 < q.qsize
    → q.qsize < 2 ^ 16
    → q.cq_head < q.qsize
    → q.cq_phase < 2
    → let t = take_completion q in
      let u = update_cq_head q in
      (t.cq_head ≡ u.cq_head) × (t.cq_phase ≡ u.cq_phase) × (t.cq_rung ≡ u.cq_head)
unfolding update_cq_head
take_completion-update_cq_head q pos_size small head_in phase_bit =
    grind (arith, step_mod q.cq_head q.qsize head_in)

-- The queue after one completion: the head goes on by one or, at the end of the ring, to 0, where
-- the phase that is expected changes; the doorbell is told the new head.
abbrev pub stepped : Queue → Queue
stepped q =
    let wraps = q.cq_head + 1 == q.qsize in
    let head = if wraps then 0 else q.cq_head + 1 in
    record q {
      cq_head = head;
      cq_phase = if wraps then (if q.cq_phase == 0 then 1 else 0) else q.cq_phase;
      cq_rung = head;
    }

take_completion-stepped :
    (q : Queue)
    → q.qsize < 2 ^ 16
    → q.cq_head < q.qsize
    → q.cq_phase < 2
    → take_completion q ≡ stepped q
take_completion-stepped q small head_in phase_bit = elim (step_mod q.cq_head q.qsize head_in) [
  | inl r ↦
      let at : (q.cq_head + 1 == q.qsize) ≡ false = ground (arith, r.0) in
      let head : u16 ((q.cq_head + 1) % q.qsize) ≡ q.cq_head + 1 = omega (arith, r.0, r.1) in
      let still : (q.cq_head + 1 == 0) ≡ false = ground arith in rw (head, at, still) refl
  | inr r ↦
      let at : (q.cq_head + 1 == q.qsize) ≡ true = ground (arith, r.0) in
      let head : u16 ((q.cq_head + 1) % q.qsize) ≡ 0 = omega (arith, r.1) in
      let flip : 1 - q.cq_phase ≡ (if q.cq_phase == 0 then 1 else 0) = ground arith in
      rw (head, at, flip) refl
]

-- For a queue of 1 to 65535 entries, its head inside and its phase a bit: either one of the
-- rounds, the first are those with the highest numbers, is the first to show a completion of the
-- current phase, and the result is 0 or -EIO by its status, with the head one further, at the end
-- of the ring back at 0 with the other phase, and the doorbell told; or none does, and it is
-- -ETIMEDOUT with the queue unchanged.
pub wait_loop_result :
    (k : ℕ) (see : ℕ → Completion) (q : Queue)
    → q.qsize < 2 ^ 16
    → q.cq_head < q.qsize
    → q.cq_phase < 2
    → ((i : ℕ) × (i < k)
        × (low_bits (see i).status 1 ≡ q.cq_phase)
        × ((j : ℕ) → i < j → j < k → low_bits (see j).status 1 ≢ q.cq_phase)
        × (wait_loop k see q ≡ (if (see i).status >> 1 == 0 then pos 0 else eio, stepped q)))
      ⊎ (((i : ℕ) → i < k → low_bits (see i).status 1 ≢ q.cq_phase)
          × (wait_loop k see q ≡ (etimedout, q)))
unfolding wait_loop
wait_loop_result zero see q small hin bit = inr (λ i h. absurd (omega (arith, h)), refl)
wait_loop_result (suc k) see q small hin bit =
    elim (Bool-cases (low_bits (see k).status 1 == q.cq_phase)) [
      | inl here ↦ inl (
        k,
        omega arith,
        ground (arith, here),
        λ j lo hi. absurd (omega (arith, lo, hi)),
        rw (here, wait_loop, take_completion-stepped q small hin bit) refl,
      )
      | inr later ↦ elim (wait_loop_result k see q small hin bit) [
        | inl r ↦ inl (
          r.0,
          omega (arith, r.1),
          r.2,
          λ j lo hi. elim (below_suc j k hi) [
            | inl lt ↦ r.3 j lo lt
            | inr eq ↦ rw eq (λ e. ground (arith, e, later))
          ],
          rw (later, wait_loop) r.4,
        )
        | inr r ↦ inr (
          λ i h. elim (below_suc i k h) [
            | inl lt ↦ r.0 i lt
            | inr eq ↦ rw eq (λ e. ground (arith, e, later))
          ],
          rw (later, wait_loop) r.1,
        )
      ]
    ]

queue_deinit_cleared :
    (d : TgtData) (q : Queue)
    → let q' = (queue_deinit d q).0 in
      (q'.sq_buffer ≡ 0) × (q'.cq_buffer ≡ 0) × (q'.sq_iova ≡ 0) × (q'.cq_iova ≡ 0)
unfolding queue_deinit
queue_deinit_cleared d q = (refl, refl, refl, refl)

module _ (map_ok : List IoasCall → IoasCall → Bool) (device : Queue → ℕ → Completion) (d : TgtData)
    (admin ioq : Queue) (qid qsize : ℕ) where
  abbrev init : ℤ × Queue × TgtData
  init = queue_init map_ok d ioq qid qsize

  abbrev cq_made : ℤ × Queue
  cq_made = submit_admin_cmd device admin (create_cq init.1.cq_iova (u16 qid) (u16 (qsize - 1)) 1)

  abbrev sq_made : ℤ × Queue
  sq_made =
      submit_admin_cmd device cq_made.1
        (create_sq init.1.sq_iova (u16 qid) (u16 (qsize - 1)) 1 (u16 qid))

  -- A queue whose creation the controller refuses has lost its ring buffers and its mappings, and
  -- one that is created is the one that nvme_queue_init set up.
  pub create_io_queue_branches :
      let (ret, q', d', admin') = create_io_queue map_ok device d admin ioq qid qsize in
      let (ret_init, q1, d1) = queue_init map_ok d ioq qid qsize in
      ((ret ≡ pos 0) × (q' ≡ q1) × (d' ≡ d1) × (is_neg ret_init ≡ false))
      ⊎ (((is_neg ret_init ≡ true) × (ret ≡ ret_init) × (q' ≡ q1) × (admin' ≡ admin))
          ⊎ ((ret ≡ minus 1)
              × (q'.sq_buffer ≡ 0)
              × (q'.cq_buffer ≡ 0)
              × (q'.sq_iova ≡ 0)
              × (q'.cq_iova ≡ 0)))
  unfolding create_io_queue
  create_io_queue_branches = elim (Bool-cases (is_neg init.0)) [
    | inl bad ↦ inr (inl (rw (bad, create_io_queue) (refl, refl, refl, refl)))
    | inr ready ↦ elim (Bool-cases (is_neg cq_made.0)) [
      | inl refused ↦
          inr (inr (rw (ready, create_io_queue, refused) (refl, gone.0, gone.1, gone.2, gone.3)))
      | inr accepted ↦ elim (Bool-cases (is_neg sq_made.0)) [
        | inl refused ↦ inr (
            inr (
              rw (ready, create_io_queue, accepted, refused)
                (refl, gone.0, gone.1, gone.2, gone.3)))
        | inr made ↦ inl (rw (ready, create_io_queue, accepted, made) (refl, refl, refl, refl))
      ]
    ]
  ]
    where
      gone :
          let q' = (queue_deinit init.2 init.1).0 in
          (q'.sq_buffer ≡ 0) × (q'.cq_buffer ≡ 0) × (q'.sq_iova ≡ 0) × (q'.cq_iova ≡ 0)
      gone = queue_deinit_cleared init.2 init.1
