-- ===== src/Nvme/Ring/Window.antt =====
-- The entries between two positions of a ring, and what a write behind them does.
use s3blk.Base.{
  ℕ, zero, suc, ◌^◌, ◌<◌, ◌≡◌, ◌≢◌, ◌⊎◌, refl, ap, ap₂, arith, List, [], ◌∷◌, ◌++◌, length, get_or,
  set,
}
use s3blk.Nvme.Ring.{advance}
use s3blk.Nvme.Ring.Modular.{gap, gap_lem, advance_lem}

module _ {A : Type 0} (d : A) where
  -- `k` entries from slot `h` on.
  abbrev pub window : List A → ℕ → ℕ → ℕ → List A
  window xs n h zero = []
  window xs n h (suc k) = get_or xs h d ∷ window xs n (advance n h) k

  get_or-set_self : (xs : List A) (i : ℕ) (v : A) → i < length xs → get_or (set xs i v) i d ≡ v
  get_or-set_self [] i v h = absurd (omega arith)
  get_or-set_self (x ∷ xs) zero v h = refl
  get_or-set_self (x ∷ xs) (suc i) v h = get_or-set_self xs i v (omega arith)

  get_or-set_ne : (xs : List A) (i j : ℕ) (v : A) → i ≢ j → get_or (set xs i v) j d ≡ get_or xs j d
  get_or-set_ne [] i j v ne = refl
  get_or-set_ne (x ∷ xs) zero zero v ne = absurd (ne refl)
  get_or-set_ne (x ∷ xs) zero (suc j) v ne = refl
  get_or-set_ne (x ∷ xs) (suc i) zero v ne = refl
  get_or-set_ne (x ∷ xs) (suc i) (suc j) v ne = get_or-set_ne xs i j v (λ e. ne (ap suc e))

  -- A write at the end of a window appends to it.
  pub window-set :
      (xs : List A) (n h t k : ℕ) (c : A)
      → length xs ≡ n
      → n < 2 ^ 16
      → h < n
      → t < n
      → gap n h t ≡ k
      → window (set xs t c) n h (suc k) ≡ window xs n h k ++ c ∷ []
  window-set xs n h t zero c len small hh ht g =
      let e : h ≡ t = omega (arith, gap_lem n h t hh ht) in
      ap₂ ◌∷◌ (rw e (get_or-set_self xs t c (omega arith))) refl
  window-set xs n h t (suc k) c len small hh ht g =
      ap₂ ◌∷◌ (get_or-set_ne xs t h c (omega (arith, gap_lem n h t hh ht))) (
        window-set xs n (advance n h) t k c len small (omega (arith, advance_lem n h hh small)) ht
          (step (advance n h) (advance_lem n h hh small)))
    where
      step : (a : ℕ) → ((suc h < n) × (a ≡ suc h)) ⊎ ((suc h ≡ n) × (a ≡ 0)) → gap n a t ≡ k
      step a e = omega (arith, gap_lem n h t hh ht, gap_lem n a t (omega arith) ht)
