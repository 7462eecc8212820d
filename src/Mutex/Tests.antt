-- ===== src/Mutex/Tests.antt =====
-- Two threads on one mutex: one sleeps while the other releases.
use cppgenerics.Prelude.{ℕ, ◌<◌, ◌≡◌, refl, arith}
use cppgenerics.Mutex.{
  idle, trying, waiting, asleep, holding, waking, System, moved, state_locked, state_unlocked,
  call_lock, swap_wins, swap_fails, sleep, unlock, Reach, start, later,
}
use cppgenerics.Mutex.Threads.{update}
use cppgenerics.Mutex.Safety.{mutual_exclusion, Contends, no_lost_wakeup}

-- Thread 0 holds the mutex and thread 1 is in lock.
abbrev contended : System
contended =
    moved (record { word = state_locked; pc = update (update (λ _. idle) 0 trying) 0 holding }) 1
      trying

contended-Reach : Reach 2 contended
contended-Reach =
    later
      (later (later start (call_lock 0 (omega arith) refl)) (swap_wins 0 (omega arith) refl refl))
      (call_lock 1 (omega arith) refl)

abbrev sleeping : System
sleeping = moved (moved contended 1 waiting) 1 asleep

sleeping-Reach : Reach 2 sleeping
sleeping-Reach =
    later (later contended-Reach (swap_fails 1 (omega arith) refl (omega arith)))
      (sleep 1 (omega arith) refl refl)

abbrev released : System
released = record { word = state_unlocked; pc = update sleeping.pc 0 waking }

released-Reach : Reach 2 released
released-Reach = later sleeping-Reach (unlock 0 (omega arith) refl refl)

mutual_exclusion_example : ◌≡◌ {A = ℕ} 0 0
mutual_exclusion_example = mutual_exclusion sleeping-Reach 0 0 (omega arith) (omega arith) refl refl

no_lost_wakeup_example : (j : ℕ) × (j < 2) × Contends (released.pc j)
no_lost_wakeup_example = no_lost_wakeup released-Reach refl 1 (omega arith) refl
