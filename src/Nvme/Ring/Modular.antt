-- ===== src/Nvme/Ring/Modular.antt =====
-- Positions on a ring of `n` slots: the distance from one to another, and one step ahead.
use native.Mathlib.Nat.{mod-eq_of_lt, mod-eq-sub-mod}
use native.Mathlib.Decide.{dec_lt, ℕ_discrete}
use s3blk.Base.{ℕ, ◌+◌, ◌-◌, ◌%◌, ◌<◌, ◌≤◌, ◌≡◌, ◌≢◌, ◌⊎◌, arith, ◌^◌, suc, inl, inr}
use s3blk.Nvme.Ring.{advance}

-- How many steps lead from `a` to `b`.
abbrev pub gap : ℕ → ℕ → ℕ → ℕ
gap n a b = (b + n - a) % n

pub gap_lem :
    (n a b : ℕ)
    → a < n
    → b < n
    → ((a ≤ b) × (gap n a b ≡ b - a)) ⊎ ((b < a) × (gap n a b ≡ b + n - a))
gap_lem n a b ha hb = elim (dec_lt b a) [
  | yes p ↦ grind (arith, mod-eq_of_lt {n = b + n - a} {m = n} (omega arith))
  | no p ↦ grind (
    arith,
    mod-eq-sub-mod {n = b + n - a} {m = n} (omega arith),
    mod-eq_of_lt {n = b + n - a - n} {m = n} (omega arith),
  )
]

pub gap-lt : (n a b : ℕ) → a < n → b < n → gap n a b < n
gap-lt n a b ha hb = omega (arith, gap_lem n a b ha hb)

pub advance-lt : (n x : ℕ) → x < n → n < 2 ^ 16 → advance n x < n
advance-lt n x h small = ground arith

pub advance_lem :
    (n x : ℕ)
    → x < n
    → n < 2 ^ 16
    → ((suc x < n) × (advance n x ≡ suc x)) ⊎ ((suc x ≡ n) × (advance n x ≡ 0))
advance_lem n x h small = ground arith

-- One step ahead of `b` is one step further from `a`, unless it is `a` itself.
pub gap-advance :
    (n a b : ℕ)
    → a < n
    → b < n
    → n < 2 ^ 16
    → (advance n b ≢ a) × (gap n a (advance n b) ≡ suc (gap n a b))
      ⊎ (advance n b ≡ a) × (suc (gap n a b) ≡ n) × (gap n a (advance n b) ≡ 0)
gap-advance n a b ha hb small = cases (advance n b) (advance_lem n b hb small)
  where
    cases :
        (c : ℕ)
        → ((suc b < n) × (c ≡ suc b)) ⊎ ((suc b ≡ n) × (c ≡ 0))
        → (c ≢ a) × (gap n a c ≡ suc (gap n a b))
          ⊎ (c ≡ a) × (suc (gap n a b) ≡ n) × (gap n a c ≡ 0)
    cases c h = elim (ℕ_discrete c a) [
      | yes e ↦
          inr (e, omega (arith, gap_lem n a b ha hb), omega (arith, gap_lem n a c ha (omega arith)))
      | no ne ↦ inl (ne, omega (arith, gap_lem n a b ha hb, gap_lem n a c ha (omega arith)))
    ]

-- One step ahead of `a` is one step nearer to any other position.
pub gap-advance_left :
    (n a b : ℕ) → a < n → b < n → n < 2 ^ 16 → a ≢ b → suc (gap n (advance n a) b) ≡ gap n a b
gap-advance_left n a b ha hb small ne = nearer (advance n a) (advance_lem n a ha small)
  where
    nearer :
        (c : ℕ)
        → ((suc a < n) × (c ≡ suc a)) ⊎ ((suc a ≡ n) × (c ≡ 0))
        → suc (gap n c b) ≡ gap n a b
    nearer c h = omega (arith, gap_lem n a b ha hb, gap_lem n c b (omega arith) hb)
