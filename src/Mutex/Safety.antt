-- ===== src/Mutex/Safety.antt =====
-- What holds of IPC::Mutex in every reachable state.
use cppgenerics.Prelude.{ℕ, ◌<◌, ◌≡◌, ◌⊎◌, inl, inr, refl, ap, ◌==◌, arith, Bool-cases}
use cppgenerics.Mutex.Threads.{sum, weight-le_sum, two_weights-le_sum, sum-positive}
use cppgenerics.Mutex.{
  Pc, idle, trying, waiting, asleep, holding, waking, System, state_locked, state_unlocked, Reach,
}
use cppgenerics.Mutex.Invariant.{holds, sleeps, active, Reach-Inv}

-- In every state that n threads can reach, two threads in the critical section are the same one.
pub mutual_exclusion :
    {n : ℕ} {s : System}
    → Reach n s
    → (i j : ℕ) → i < n
    → j < n
    → s.pc i ≡ holding
    → s.pc j ≡ holding
    → i ≡ j
mutual_exclusion {n} {s} r i j hi hj ei ej = elim (Bool-cases (i == j)) [
  | inl same ↦ ground arith
  | inr differ ↦ absurd (
      omega (
        arith,
        Reach-Inv r,
        two_weights-le_sum holds n s.pc i j hi hj (ground arith),
        ap holds ei,
        ap holds ej,
      ))
]

-- While a thread holds the mutex the word is locked, so the compare-and-swap of its unlock
-- succeeds, and the throw in the noexcept unlock is not reached.
pub unlock_succeeds :
    {n : ℕ} {s : System} → Reach n s → (i : ℕ) → i < n → s.pc i ≡ holding → s.word ≡ state_locked
unlock_succeeds {n} {s} r i h e =
    omega (arith, Reach-Inv r, weight-le_sum holds n s.pc i h, ap holds e)

-- A thread on its way through lock or unlock, none of them asleep.
abbrev pub Contends : Pc → Type 0
Contends p = (p ≡ trying) ⊎ ((p ≡ waiting) ⊎ (p ≡ waking))

contender : (p : Pc) → 0 < active p → holds p ≡ 0 → Contends p
contender trying a h = inl refl
contender waiting a h = inr (inl refl)
contender waking a h = inr (inr refl)
contender idle a h = absurd (omega arith)
contender asleep a h = absurd (omega arith)
contender holding a h = absurd (omega arith)

-- In every state that n threads can reach: when the word is unlocked and a thread sleeps, some
-- thread is about to try for the mutex or to wake a sleeper.
pub no_lost_wakeup :
    {n : ℕ} {s : System}
    → Reach n s
    → s.word ≡ state_unlocked
    → (i : ℕ) → i < n
    → s.pc i ≡ asleep
    → (j : ℕ) × (j < n) × Contends (s.pc j)
no_lost_wakeup {n} {s} r free i h e =
    let inv = Reach-Inv r in
    let some_sleeps : 0 < sum sleeps n s.pc =
      omega (arith, weight-le_sum sleeps n s.pc i h, ap sleeps e) in
    let (j, below, a) = sum-positive active n s.pc (inv.awake some_sleeps) in
    (j, below, contender (s.pc j) a (omega (arith, inv.held, weight-le_sum holds n s.pc j below)))
