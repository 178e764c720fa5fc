-- ===== src/Nvme/Control/Order.antt =====
-- The waits for the controller, and the order in which its registers are programmed.
use s3blk.Base.{
  ℕ, zero, suc, ◌<◌, ◌≤◌, ◌≡◌, ◌⊎◌, inl, inr, refl, arith, Bool, true, false, List, [], ◌∷◌,
  Bool-cases,
}
use s3blk.Base.Int.{pos, minus, is_neg}
use s3blk.Nvme.Types.{TgtData, Queue, IoasCall}
use s3blk.Nvme.Admin.{AdminRegs, create_admin_queue}
use s3blk.Nvme.Control.{
  write_cc, write_admin, disabled, cc_enabled, is_ready, agrees, wait_ready, Seen, init_controller,
}

-- A wait succeeds only if CSTS.RDY was as wanted in one of its counted rounds.
wait_ready_seen :
    (want : Bool) (n : ℕ) (csts : ℕ → ℕ)
    → wait_ready want n csts ≡ true
    → (i : ℕ) × (0 < i) × (i ≤ n) × (agrees want (is_ready (csts i)) ≡ true)
unfolding wait_ready
wait_ready_seen want zero csts e = absurd (cc)
wait_ready_seen want (suc n) csts e = elim (Bool-cases (agrees want (is_ready (csts (suc n))))) [
  | inl y ↦ (suc n, omega arith, omega arith, y)
  | inr no_ready ↦
      let e' : wait_ready want n csts ≡ true = rw no_ready at e in
      let r = wait_ready_seen want n csts e' in (r.0, r.1, omega (arith, r.2), r.3)
]

-- Whatever happens, nvme_init_controller first disables the controller; it programs the admin
-- queue only after it has seen the controller not ready, and only then enables it; and if it
-- returns 0, it has seen the controller ready after that.
pub init_controller_order :
    (map_ok : List IoasCall → IoasCall → Bool) (d : TgtData) (admin : Queue) (regs : AdminRegs)
    (seen : Seen)
    → let (ret, admin', d', writes) = init_controller map_ok d admin regs seen in
      let off = write_cc (disabled seen.cc) in
      ((ret ≡ minus 1) × (writes ≡ off ∷ []))
      ⊎ (((i : ℕ) × (i ≤ 5000) × (is_ready (seen.disabling i) ≡ false))
          × (writes
              ≡ off
                ∷ write_admin (create_admin_queue map_ok d admin regs).3
                ∷ write_cc cc_enabled
                ∷ [])
          × ((ret ≡ minus 1)
              ⊎ ((ret ≡ pos 0) × ((i : ℕ) × (i ≤ 5000) × (is_ready (seen.enabling i) ≡ true)))))
unfolding init_controller
init_controller_order map_ok d admin regs seen =
    elim (Bool-cases (wait_ready false 5000 seen.disabling)) [
      | inr e ↦ simp e (inl (refl, refl))
      | inl e ↦ elim (Bool-cases (is_neg (create_admin_queue map_ok d admin regs).0)) [
        | inl f ↦ simp (e, f) (inl (refl, refl))
        | inr f ↦
            let s = wait_ready_seen false 5000 seen.disabling e in
            let off : is_ready (seen.disabling s.0) ≡ false =
              not_true (is_ready (seen.disabling s.0)) s.3 in
            elim (Bool-cases (wait_ready true 5000 seen.enabling)) [
              | inl g ↦
                  let r = wait_ready_seen true 5000 seen.enabling g in
                  simp (e, f, g) (inr ((s.0, s.2, off), refl, inr (refl, (r.0, r.2, r.3))))
              | inr g ↦ simp (e, f, g) (inr ((s.0, s.2, off), refl, inl refl))
            ]
      ]
    ]
  where
    not_true : (b : Bool) → agrees false b ≡ true → b ≡ false
    not_true true h = cc
    not_true false h = refl
