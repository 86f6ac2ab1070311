-- ===== src/Files/LockTable/Family.antt =====
-- Functions from numbers: changed at one place, and summed below a bound.
use arch_agent.Base.{
  Bool-cases, arith, if◌then◌else◌, inl, inr, nat_eq, refl, suc, zero, ℕ, ◌+◌, ◌<◌, ◌≡◌, ◌≤◌,
}

abbrev pub put {ℓ} : {A : Type ℓ} → ℕ → A → (ℕ → A) → ℕ → A
put i a f j = if nat_eq j i then a else f j

module _ {ℓ} {A : Type ℓ} where
  pub sum_below : (A → ℕ) → ℕ → (ℕ → A) → ℕ
  sum_below w zero f = 0
  sum_below w (suc n) f = w (f n) + sum_below w n f

  sum_below-outside :
      (w : A → ℕ) (n i : ℕ) (a : A) (f : ℕ → A)
      → n ≤ i
      → sum_below w n (put i a f) ≡ sum_below w n f
  unfolding sum_below
  sum_below-outside w zero i a f h = refl
  sum_below-outside w (suc n) i a f h = ground (arith, sum_below-outside w n i a f)

  -- Changing one place below the bound changes the sum by what that place weighs.
  pub sum_below-put :
      (w : A → ℕ) (n i : ℕ) (a : A) (f : ℕ → A)
      → i < n
      → sum_below w n (put i a f) + w (f i) ≡ sum_below w n f + w a
  unfolding sum_below
  sum_below-put w zero i a f h = absurd (omega arith)
  sum_below-put w (suc n) i a f h = elim (Bool-cases (nat_eq n i)) [
    | inl q ↦ ground (arith, sum_below-outside w n i a f)
    | inr q ↦ ground (arith, sum_below-put w n i a f)
  ]

  pub sum_below-zero :
      (w : A → ℕ) (n : ℕ) (f : ℕ → A) → ((i : ℕ) → w (f i) ≡ 0) → sum_below w n f ≡ 0
  unfolding sum_below
  sum_below-zero w zero f h = refl
  sum_below-zero w (suc n) f h = omega (arith, h n, sum_below-zero w n f h)

  -- One place weighs no more than all.
  pub sum_below-le : (w : A → ℕ) (n i : ℕ) (f : ℕ → A) → i < n → w (f i) ≤ sum_below w n f
  unfolding sum_below
  sum_below-le w zero i f h = absurd (omega arith)
  sum_below-le w (suc n) i f h = elim (Bool-cases (nat_eq n i)) [
    | inl q ↦ ground arith
    | inr q ↦ ground (arith, sum_below-le w n i f)
  ]

  pub sum_below_mono :
      (w v : A → ℕ) (n : ℕ) (f : ℕ → A) → ((a : A) → w a ≤ v a) → sum_below w n f ≤ sum_below v n f
  unfolding sum_below
  sum_below_mono w v zero f h = omega arith
  sum_below_mono w v (suc n) f h = omega (arith, h (f n), sum_below_mono w v n f h)
