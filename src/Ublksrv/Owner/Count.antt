-- ===== src/Ublksrv/Owner/Count.antt =====
-- How many of the first tags have a property, and what a change of one tag does to that.
use s3blk.Base.{
  ℕ, zero, suc, ◌+◌, ◌<◌, ◌≤◌, ◌≡◌, ◌≢◌, ◌⊎◌, inl, inr, refl, sym, ==_iff, Bool-cases, Bool, true,
  false, arith, ◌==◌,
}
use s3blk.Ublksrv.Types.{set_at}

abbrev pub one_if : Bool → ℕ
one_if true = 1
one_if false = 0

pub dec_eq : (m n : ℕ) → (m ≡ n) ⊎ (m ≢ n)
dec_eq m n = elim (Bool-cases (m == n)) [
  | inl e ↦ inl (ground arith)
  | inr e ↦ inr (λ h. ground arith)
]

module _ {A : Type 0} where
  pub set_at_self : (o : ℕ → A) (t : ℕ) (a : A) → set_at o t a t ≡ a
  set_at_self o t a = rw (((==_iff t t).1 refl)) refl

  pub set_at_ne : (o : ℕ → A) {i j : ℕ} (a : A) → j ≢ i → set_at o i a j ≡ o j
  set_at_ne o {i} {j} a h = elim (Bool-cases (j == i)) [
    | inl e ↦ absurd (h ((==_iff j i).0 e))
    | inr e ↦ rw e refl
  ]

  pub set_at_same : (o : ℕ → A) (t : ℕ) {a : A} → o t ≡ a → (x : ℕ) → o x ≡ set_at o t a x
  set_at_same o t {a} h x = elim (dec_eq x t) [
    | inl e ↦ rw (e, set_at_self o t a) h
    | inr e ↦ sym (set_at_ne o a e)
  ]

  unfoldable pub count : (A → Bool) → (ℕ → A) → ℕ → ℕ
  count p o zero = 0
  count p o (suc n) = one_if (p (o n)) + count p o n

  count-set_above :
      (p : A → Bool) (o : ℕ → A) (n t : ℕ) (a : A) → n ≤ t → count p (set_at o t a) n ≡ count p o n
  unfolding count
  count-set_above p o zero t a h = omega arith
  count-set_above p o (suc n) t a h =
      let ih = count-set_above p o n t a (omega arith) in ground arith

  -- Its left side is the count after the change, with the old value still counted.
  pub count-set_at :
      (p : A → Bool) (o : ℕ → A) (n t : ℕ) (a : A)
      → t < n
      → count p (set_at o t a) n + one_if (p (o t)) ≡ count p o n + one_if (p a)
  unfolding count
  count-set_at p o zero t a h = absurd (omega arith)
  count-set_at p o (suc n) t a h = elim (dec_eq n t) [
    | inl e ↦
        let same = set_at_self o t a in
        let below = count-set_above p o n t a (omega arith) in
        rw (e, same, sym e, below) (omega arith)
    | inr e ↦
        let other = set_at_ne o {i = t} {j = n} a e in
        rw other (omega (arith, count-set_at p o n t a (omega arith)))
  ]

  pub count_bound : (p : A → Bool) (o : ℕ → A) (n : ℕ) → count p o n ≤ n
  unfolding count
  count_bound p o zero = omega arith
  count_bound p o (suc n) = let ih = count_bound p o n in ground arith
