-- ===== src/Mutex/Invariant.antt =====
-- What every step of the mutex's threads keeps.
use cppgenerics.Prelude.{ℕ, ◌+◌, ◌≤◌, ◌<◌, ◌≡◌, ◌≢◌, refl, sym, ap, ◌∙◌, arith}
use cppgenerics.Mutex.Threads.{update, sum, sum-update, sum-zero, sum-le}
use cppgenerics.Mutex.{
  Pc, idle, trying, waiting, asleep, holding, waking, System, initial, Step, call_lock, swap_wins,
  swap_fails, sleep, again, wake_up, interrupted, unlock, wake_one, wake_none, Reach, start, later,
}

abbrev pub holds : Pc → ℕ
holds holding = 1
holds _ = 0

abbrev pub sleeps : Pc → ℕ
sleeps asleep = 1
sleeps _ = 0

-- Threads that will still take the mutex, release it or wake another.
abbrev pub active : Pc → ℕ
active idle = 0
active asleep = 0
active _ = 1

-- The word is locked exactly while one thread holds the mutex; and while a thread sleeps, some
-- thread is active.
pub record Inv (n : ℕ) (s : System) : Type 0 where
  pub held : s.word + sum holds n s.pc ≡ 1
  pub awake : 0 < sum sleeps n s.pc → 0 < sum active n s.pc

initial-Inv : (n : ℕ) → Inv n initial
initial-Inv n = record {
  held = omega (arith, sum-zero holds n (λ _. idle) (λ i h. refl));
  awake = λ h. absurd (omega (arith, sum-zero sleeps n (λ _. idle) (λ i h. refl)));
}

holds-le-active : (p : Pc) → holds p ≤ active p
holds-le-active idle = omega arith
holds-le-active p = omega arith

awake_sleeps : (p : Pc) → p ≢ asleep → sleeps p ≡ 0
awake_sleeps asleep ne = absurd (ne refl)
awake_sleeps p ne = refl

-- The three sums when thread i goes from p to q.
record Change (n : ℕ) (pc : ℕ → Pc) (i : ℕ) (p q : Pc) : Type 0 where
  holders : sum holds n (update pc i q) + holds p ≡ sum holds n pc + holds q
  sleepers : sum sleeps n (update pc i q) + sleeps p ≡ sum sleeps n pc + sleeps q
  actives : sum active n (update pc i q) + active p ≡ sum active n pc + active q
  cover : sum holds n (update pc i q) ≤ sum active n (update pc i q)

change : {n : ℕ} (pc : ℕ → Pc) (i : ℕ) → i < n → (p q : Pc) → pc i ≡ p → Change n pc i p q
change {n} pc i below p q e = record {
  holders = weigh holds;
  sleepers = weigh sleeps;
  actives = weigh active;
  cover = sum-le holds active n (update pc i q) holds-le-active;
}
  where
    weigh : (w : Pc → ℕ) → sum w n (update pc i q) + w p ≡ sum w n pc + w q
    weigh w = ap (λ r. sum w n (update pc i q) + w r) (sym e) ∙ sum-update w n pc i q below

pub Step-Inv : {n : ℕ} {s t : System} → Step n s t → Inv n s → Inv n t
Step-Inv {s} (call_lock i h e) inv = let c = change s.pc i h idle trying e in omega arith
Step-Inv {s} (swap_wins i h e w) inv = let c = change s.pc i h trying holding e in omega arith
Step-Inv {s} (swap_fails i h e w) inv = let c = change s.pc i h trying waiting e in omega arith
Step-Inv {s} (sleep i h e w) inv = let c = change s.pc i h waiting asleep e in omega arith
Step-Inv {s} (again i h e w) inv = let c = change s.pc i h waiting trying e in omega arith
Step-Inv {s} (wake_up i h e) inv = let c = change s.pc i h asleep trying e in omega arith
Step-Inv {s} (interrupted i h e) inv = let c = change s.pc i h asleep idle e in omega arith
Step-Inv {s} (unlock i h e w) inv = let c = change s.pc i h holding waking e in omega arith
Step-Inv {s} (wake_one i j h h' e e') inv =
    let other : update s.pc j trying i ≡ waking = ground arith in
    let c = change s.pc j h' asleep trying e' in
    let d = change (update s.pc j trying) i h waking idle other in omega arith
Step-Inv {n} {s} (wake_none i h e quiet) inv =
    let c = change s.pc i h waking idle e in
    omega (arith, sum-zero sleeps n s.pc (λ j below. awake_sleeps (s.pc j) (quiet j below)))

pub Reach-Inv : {n : ℕ} {s : System} → Reach n s → Inv n s
Reach-Inv {n} start = initial-Inv n
Reach-Inv (later r st) = Step-Inv st (Reach-Inv r)
