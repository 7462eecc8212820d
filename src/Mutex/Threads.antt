-- ===== src/Mutex/Threads.antt =====
-- Values indexed by thread: a change of one, and the sum of a weight over the first n.
use cppgenerics.Prelude.{
  ℕ, zero, suc, ◌+◌, ◌≤◌, ◌<◌, ◌≡◌, ◌≢◌, refl, if◌then◌else◌, ◌==◌, arith, Bool-cases, inl, inr,
}

abbrev pub update {ℓ} : {A : Type ℓ} → (ℕ → A) → ℕ → A → ℕ → A
update f i a j = if i == j then a else f j

module _ {ℓ} {A : Type ℓ} (weight : A → ℕ) where
  pub sum : ℕ → (ℕ → A) → ℕ
  sum zero f = 0
  sum (suc n) f = weight (f n) + sum n f

  -- A change beyond the first n does not count.
  sum-update_beyond : (n : ℕ) (f : ℕ → A) (i : ℕ) (a : A) → n ≤ i → sum n (update f i a) ≡ sum n f
  unfolding sum
  sum-update_beyond zero f i a out = refl
  sum-update_beyond (suc n) f i a out = ground (arith, sum-update_beyond n f i a)

  -- A change below n replaces one weight.
  pub sum-update :
      (n : ℕ) (f : ℕ → A) (i : ℕ) (a : A)
      → i < n
      → sum n (update f i a) + weight (f i) ≡ sum n f + weight a
  unfolding sum
  sum-update zero f i a below = absurd (omega arith)
  sum-update (suc n) f i a below = elim (Bool-cases (i == n)) [
    | inl last ↦ ground (arith, sum-update_beyond n f i a)
    | inr before ↦ ground (arith, sum-update n f i a)
  ]

  pub sum-zero : (n : ℕ) (f : ℕ → A) → ((i : ℕ) → i < n → weight (f i) ≡ 0) → sum n f ≡ 0
  unfolding sum
  sum-zero zero f none_has = refl
  sum-zero (suc n) f none_has =
      omega (arith, none_has n (omega arith), sum-zero n f (λ i h. none_has i (omega arith)))

  -- One weight is at most the sum, and two threads' weights together are.
  pub weight-le_sum : (n : ℕ) (f : ℕ → A) (i : ℕ) → i < n → weight (f i) ≤ sum n f
  unfolding sum
  weight-le_sum zero f i below = absurd (omega arith)
  weight-le_sum (suc n) f i below = elim (Bool-cases (i == n)) [
    | inl last ↦ ground arith
    | inr before ↦ ground (arith, weight-le_sum n f i)
  ]

  pub two_weights-le_sum :
      (n : ℕ) (f : ℕ → A) (i j : ℕ) → i < n → j < n → i ≢ j → weight (f i) + weight (f j) ≤ sum n f
  unfolding sum
  two_weights-le_sum zero f i j below below' differ = absurd (omega arith)
  two_weights-le_sum (suc n) f i j below below' differ = elim (Bool-cases (i == n)) [
    | inl last ↦ ground (arith, weight-le_sum n f j)
    | inr before ↦ elim (Bool-cases (j == n)) [
      | inl last ↦ ground (arith, weight-le_sum n f i)
      | inr before' ↦ ground (arith, two_weights-le_sum n f i j)
    ]
  ]

  -- A positive sum has a thread with a positive weight.
  pub sum-positive : (n : ℕ) (f : ℕ → A) → 0 < sum n f → (i : ℕ) × (i < n) × (0 < weight (f i))
  unfolding sum
  sum-positive zero f pos = absurd (omega arith)
  sum-positive (suc n) f pos = elim (Bool-cases (weight (f n) == 0)) [
    | inr here ↦ (n, omega arith, ground arith)
    | inl none_here ↦ let (i, below, w) = sum-positive n f (ground arith) in (i, omega arith, w)
  ]

pub sum-le {ℓ} :
    {A : Type ℓ} (v w : A → ℕ) (n : ℕ) (f : ℕ → A) → ((a : A) → v a ≤ w a) → sum v n f ≤ sum w n f
unfolding sum
sum-le v w zero f below = omega arith
sum-le v w (suc n) f below = omega (arith, below (f n), sum-le v w n f below)
