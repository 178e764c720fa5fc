-- ===== src/Nvme/Poll/Phase.antt =====
-- The completion ring of `n` slots, with the slots counted for ever: completion number `i` goes
-- to slot `i % n`, with a phase that starts at 1 and flips each time round.
use s3blk.Base.{ℕ, suc, ◌+◌, ◌/◌, ◌%◌, ◌<◌, ◌≡◌, ◌≢◌, ◌⊎◌, arith}

abbrev pub phase : ℕ → ℕ → ℕ
phase n i = (i / n + 1) % 2

-- One more than `i`, seen from the slot and the round of `i`.
pub next_slot :
    (n i : ℕ)
    → 0 < n
    → ((suc (i % n) < n) × (suc i % n ≡ suc (i % n)) × (suc i / n ≡ i / n))
      ⊎ ((suc (i % n) ≡ n) × (suc i % n ≡ 0) × (suc i / n ≡ suc (i / n)))
next_slot n i h = grind arith

pub slot_round : (n i : ℕ) → 0 < n → ((i + n) % n ≡ i % n) × ((i + n) / n ≡ suc (i / n))
slot_round n i h = (grind arith, grind arith)

pub slots_distinct : (n i j : ℕ) → i < j → j < i + n → i % n ≢ j % n
slots_distinct n i j lo hi = grind arith
