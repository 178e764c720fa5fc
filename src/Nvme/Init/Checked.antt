-- ===== src/Nvme/Init/Checked.antt =====
-- What the checks of nvme_vfio_init_tgt are good for, and that all queues have room.
use s3blk.Base.{
  ℕ, zero, suc, ◌+◌, ◌*◌, ◌^◌, ◌<◌, ◌≤◌, ◌≡◌, ◌≢◌, ◌⊎◌, subst, inl, inr, refl, sym, ap, ◌∙◌, arith,
  Bool, true, false, List, [], ◌∷◌, length, Bool-cases,
}
use s3blk.Base.Int.{ℤ, pos, minus, is_neg}
use s3blk.Nvme.Types.{TgtData, Queue, Completion, IoasCall}
use s3blk.Nvme.Pool.{pair_bytes}
use s3blk.Nvme.Pool.Layout.{IsChecked}
use s3blk.Nvme.Ring.Doorbell.{IsRing}
use s3blk.Nvme.Setup.{queue_init, queue_start}
use s3blk.Nvme.Setup.Fits.{
  queue_init_lem, queue_init_start, queue_start_regions, allocated_data, allocated_queue,
}
use s3blk.Nvme.Admin.{create_io_queue}
use s3blk.Nvme.Admin.Wait.{create_io_queue_branches}
use s3blk.Nvme.Init.{DevInfo, check_info, new_data, create_io_queues, zero_queue}

-- With hugepages of at most 2^40 bytes, a device that passes the checks of nvme_vfio_init_tgt
-- gives the target parameters with the bounds that the layout of the pool is safe for: at most 64
-- queues, of 1 to 4096 ios each, with buffers of a page to 2 MiB, none larger than a hugepage.
pub check_info-IsChecked :
    (hps : ℕ) (info : DevInfo) (force_noiommu noiommu : Bool) (cap : ℕ)
    → hps ≤ 2 ^ 40
    → check_info hps info ≡ pos 0
    → IsChecked (new_data hps info force_noiommu noiommu cap)
unfolding check_info new_data
check_info-IsChecked hps info force_noiommu noiommu cap h e = record {
  queues = ground arith;
  depth_pos = ground arith;
  depth = ground arith;
  buf_min = ground arith;
  buf_max = ground arith;
  huge = ground arith;
  huge_max = h;
}

queue_start_zero :
    (map_ok : List IoasCall → IoasCall → Bool) (d : TgtData) (q : Queue) (qid depth : ℕ)
    → is_neg (queue_start map_ok d q qid depth).0 ≡ false
    → (queue_start map_ok d q qid depth).0 ≡ pos 0
unfolding queue_start
queue_start_zero map_ok d q qid depth h = ground arith

-- All these queues are ready for commands.
abbrev pub AllRings : List Queue → Type 0
AllRings [] = Unit {0}
AllRings (q ∷ qs) = IsRing q × AllRings qs

module _ (map_ok : List IoasCall → IoasCall → Bool) (device : Queue → ℕ → Completion) where
  -- A queue that is created is ready, and takes the bytes of both its rings from the region.
  abbrev Made : TgtData → Queue → TgtData → Type 0
  Made d q d' =
      IsRing q
      × (d'.queue_alloc_off ≡ d.queue_alloc_off + pair_bytes (d.queue_depth + 1))
      × (d'.queue_region_off ≡ d.queue_region_off)
      × (d'.queue_depth ≡ d.queue_depth)

  module _ (d : TgtData) (admin : Queue) (qid : ℕ) (some_depth : 1 ≤ d.queue_depth)
      (small : d.queue_depth ≤ 4096)
      (room : d.queue_alloc_off + pair_bytes (d.queue_depth + 1) ≤ d.queue_region_off)
      (region : d.queue_region_off < 2 ^ 63) where
    abbrev init : ℤ × Queue × TgtData
    init = queue_init map_ok d zero_queue qid (d.queue_depth + 1)

    abbrev made : ℤ × Queue × TgtData × Queue
    made = create_io_queue map_ok device d admin zero_queue qid (d.queue_depth + 1)

    started :
        init
        ≡ queue_start map_ok
            (allocated_data d (d.queue_depth + 1))
            (allocated_queue d zero_queue (d.queue_depth + 1))
            qid
            (d.queue_depth + 1)
    started =
        queue_init_start map_ok d zero_queue qid (d.queue_depth + 1) (omega arith) (omega arith)
          region

    init_zero : is_neg init.0 ≡ false → init.0 ≡ pos 0
    init_zero e =
        let run =
          queue_start map_ok (allocated_data d (d.queue_depth + 1))
            (allocated_queue d zero_queue (d.queue_depth + 1)) qid (d.queue_depth + 1) in
        let fine : is_neg run.0 ≡ false =
          ap (λ (r : ℤ × Queue × TgtData). is_neg r.0) (sym started) ∙ e in
        ap (λ (r : ℤ × Queue × TgtData). r.0) started
        ∙ queue_start_zero map_ok (allocated_data d (d.queue_depth + 1))
            (allocated_queue d zero_queue (d.queue_depth + 1)) qid (d.queue_depth + 1) fine

    init-Made : is_neg init.0 ≡ false → Made d init.1 init.2
    init-Made e =
        let l =
          queue_init_lem map_ok d zero_queue qid (d.queue_depth + 1) (omega arith) (omega arith)
            region refl (omega arith) in
        let same =
          queue_start_regions map_ok (allocated_data d (d.queue_depth + 1))
            (allocated_queue d zero_queue (d.queue_depth + 1)) qid (d.queue_depth + 1) in
        (
          (l.2 (init_zero e)).0,
          omega (arith, l.0),
          l.1,
          ap (λ (r : ℤ × Queue × TgtData). r.2.queue_depth) started ∙ same.4,
        )

    create-Made : is_neg made.0 ≡ false → Made d made.1 made.2
    create-Made e =
        elim (create_io_queue_branches map_ok device d admin zero_queue qid (d.queue_depth + 1)) [
          | inl (z, q, d', fine) ↦ rw (q, d') (init-Made fine)
          | inr (inl (bad, same, q, a)) ↦ absurd (cc)
          | inr (inr (bad, sq, cq, si, ci)) ↦ absurd (cc)
        ]

  create_io_queues_failed :
      (n i : ℕ) (d : TgtData) (admin : Queue)
      → is_neg (create_io_queue map_ok device d admin zero_queue (i + 1) (d.queue_depth + 1)).0
        ≡ true
      → (create_io_queues map_ok device d admin i (suc n)).0 ≡ minus 1
  unfolding create_io_queues
  create_io_queues_failed n i d admin e = rw e refl

  -- The rest of the loop, after a queue that was created.
  abbrev next_queues : ℕ → ℕ → TgtData → Queue → ℤ × List Queue × TgtData × Queue
  next_queues n i d admin =
      let step = create_io_queue map_ok device d admin zero_queue (i + 1) (d.queue_depth + 1) in
      create_io_queues map_ok device step.2 step.3 (i + 1) n

  create_io_queues_next :
      (n i : ℕ) (d : TgtData) (admin : Queue)
      → is_neg (create_io_queue map_ok device d admin zero_queue (i + 1) (d.queue_depth + 1)).0
        ≡ false
      → create_io_queues map_ok device d admin i (suc n) ≡ (
        (next_queues n i d admin).0,
        (create_io_queue map_ok device d admin zero_queue (i + 1) (d.queue_depth + 1)).1
            ∷ (next_queues n i d admin).1,
        (next_queues n i d admin).2,
        (next_queues n i d admin).3,
      )
  unfolding create_io_queues
  create_io_queues_next n i d admin e = rw e refl

  abbrev Outcome : TgtData → ℕ → ℤ × List Queue × TgtData × Queue → Type 0
  Outcome d n (ret, qs, d', admin') =
      (length qs ≡ n)
      × AllRings qs
      × (d'.queue_alloc_off ≡ d.queue_alloc_off + n * pair_bytes (d.queue_depth + 1))

  create_io_queues_made :
      (n i : ℕ) (d : TgtData) (admin : Queue)
      → 1 ≤ d.queue_depth
      → d.queue_depth ≤ 4096
      → d.queue_alloc_off + n * pair_bytes (d.queue_depth + 1) ≤ d.queue_region_off
      → d.queue_region_off < 2 ^ 63
      → let (ret, qs, d', admin') = create_io_queues map_ok device d admin i n in
        ret ≡ pos 0
        → (length qs ≡ n)
          × AllRings qs
          × (d'.queue_alloc_off ≡ d.queue_alloc_off + n * pair_bytes (d.queue_depth + 1))
  unfolding create_io_queues
  create_io_queues_made zero i d admin lo hi room region e = (refl, tt, omega arith)
  create_io_queues_made (suc n) i d admin lo hi room region e =
      let step = create_io_queue map_ok device d admin zero_queue (i + 1) (d.queue_depth + 1) in
      elim (Bool-cases (is_neg step.0)) [
        | inl bad ↦ absurd (minus_pos (sym (create_io_queues_failed n i d admin bad) ∙ e))
        | inr fine ↦
            let next = create_io_queues_next n i d admin fine in
            let q =
              create-Made d admin (i + 1) lo hi (more n (pair_bytes (d.queue_depth + 1)) room)
                region fine in
            let ended : (next_queues n i d admin).0 ≡ pos 0 =
              ap (λ (r : ℤ × List Queue × TgtData × Queue). r.0) (sym next) ∙ e in
            let ih =
              create_io_queues_made n (i + 1) step.2 step.3 (rw q.3 lo) (rw q.3 hi)
                (rw (q.3, q.2, q.1) (omega (arith, room))) (rw q.2 region) ended in
            let bytes : (next_queues n i d admin).2.queue_alloc_off
                ≡ d.queue_alloc_off + suc n * pair_bytes (d.queue_depth + 1) =
              ih.2
              ∙ rw (q.3, q.1) (add_pair d.queue_alloc_off n (pair_bytes (d.queue_depth + 1))) in
            subst (Outcome d (suc n)) (sym next) (ap suc ih.0, (q.0, ih.1), bytes)
      ]
    where
      add_pair : (a n b : ℕ) → a + b + n * b ≡ a + suc n * b
      add_pair a n b = omega arith

      minus_pos : minus 1 ≢ pos 0
      minus_pos h = cc

      more :
          (n b : ℕ)
          → d.queue_alloc_off + suc n * b ≤ d.queue_region_off
          → d.queue_alloc_off + b ≤ d.queue_region_off
      more n b h = omega arith

  create_io_queues_result :
      (n i : ℕ) (d : TgtData) (admin : Queue)
      → ((create_io_queues map_ok device d admin i n).0 ≡ minus 1)
        ⊎ ((create_io_queues map_ok device d admin i n).0 ≡ pos 0)
  unfolding create_io_queues
  create_io_queues_result zero i d admin = inr refl
  create_io_queues_result (suc n) i d admin =
      let step = create_io_queue map_ok device d admin zero_queue (i + 1) (d.queue_depth + 1) in
      elim (Bool-cases (is_neg step.0)) [
        | inl bad ↦ inl (create_io_queues_failed n i d admin bad)
        | inr fine ↦ rw fine (create_io_queues_result n (i + 1) step.2 step.3)
      ]

  -- For depths of 1 to 4096 and with room for `n` more queue pairs in a queue region below 2^63,
  -- the loop that creates `n` io queues either returns -1, or returns 0 and has created all of
  -- them, each a ring that is ready for commands, and has taken exactly the bytes of their rings
  -- from the region.
  pub create_io_queues-AllRings :
      (n i : ℕ) (d : TgtData) (admin : Queue)
      → 1 ≤ d.queue_depth
      → d.queue_depth ≤ 4096
      → d.queue_alloc_off + n * pair_bytes (d.queue_depth + 1) ≤ d.queue_region_off
      → d.queue_region_off < 2 ^ 63
      → let (ret, qs, d', admin') = create_io_queues map_ok device d admin i n in
        (ret ≡ minus 1)
        ⊎ ((ret ≡ pos 0)
            × (length qs ≡ n)
            × AllRings qs
            × (d'.queue_alloc_off ≡ d.queue_alloc_off + n * pair_bytes (d.queue_depth + 1)))
  create_io_queues-AllRings n i d admin lo hi room region =
      elim (create_io_queues_result n i d admin) [
        | inl bad ↦ inl bad
        | inr fine ↦
            let made_all = create_io_queues_made n i d admin lo hi room region fine in
            inr (fine, made_all.0, made_all.1, made_all.2)
      ]
