-- ===== src/Mutex.antt =====
-- IPC::Mutex of include/cppgenerics/IPC_Mutex.h and src/IPC_Mutex.cpp: `n` threads, of one or more
-- processes, that share one futex word and call lock and unlock in turn, in every interleaving.
-- The kernel's FUTEX_WAIT compares the word and sleeps in one step; FUTEX_WAKE wakes one sleeper.
mod Tests
pub mod Threads
pub mod Invariant
pub mod Safety
use cppgenerics.Prelude.{ℕ, ◌<◌, ◌≡◌, ◌≢◌, Bool, true, false}
use cppgenerics.Mutex.Threads.{update}

-- L_FUTEX_STATE_LOCKED, L_FUTEX_STATE_UNLOCKED and L_FUTEX_STATE_INITIAL.
abbrev pub state_locked : ℕ
state_locked = 0

abbrev pub state_unlocked : ℕ
state_unlocked = 1

abbrev pub state_initial : ℕ
state_initial = 1

-- Where a thread stands: outside; before the compare-and-swap of lock; before its FUTEX_WAIT;
-- asleep in it; in the critical section; and in unlock behind the compare-and-swap, before its
-- FUTEX_WAKE.
pub data Pc : Type 0 where
  idle : Pc
  trying : Pc
  waiting : Pc
  asleep : Pc
  holding : Pc
  waking : Pc

pub record System : Type 0 where
  pub word : ℕ
  pub pc : ℕ → Pc

-- The constructor Mutex(ptr, true), with every thread outside.
abbrev pub initial : System
initial = record { word = state_initial; pc = λ _. idle }

abbrev pub moved : System → ℕ → Pc → System
moved s i p = record s { pc = update s.pc i p }

-- The steps of thread i. A sleeper may also wake on its own, as futex allows; then it tries again.
-- `interrupted` is a FUTEX_WAIT that fails with EINTR, for which lock throws.
pub data Step (n : ℕ) (s : System) : System → Type 0 where
  call_lock : (i : ℕ) → i < n → s.pc i ≡ idle → Step n s (moved s i trying)
  swap_wins :
      (i : ℕ)
      → i < n
      → s.pc i ≡ trying
      → s.word ≡ state_unlocked
      → Step n s (record { word = state_locked; pc = update s.pc i holding })
  swap_fails :
      (i : ℕ) → i < n → s.pc i ≡ trying → s.word ≢ state_unlocked → Step n s (moved s i waiting)
  sleep : (i : ℕ) → i < n → s.pc i ≡ waiting → s.word ≡ state_locked → Step n s (moved s i asleep)
  again : (i : ℕ) → i < n → s.pc i ≡ waiting → s.word ≢ state_locked → Step n s (moved s i trying)
  wake_up : (i : ℕ) → i < n → s.pc i ≡ asleep → Step n s (moved s i trying)
  interrupted : (i : ℕ) → i < n → s.pc i ≡ asleep → Step n s (moved s i idle)
  unlock :
      (i : ℕ)
      → i < n
      → s.pc i ≡ holding
      → s.word ≡ state_locked
      → Step n s (record { word = state_unlocked; pc = update s.pc i waking })
  wake_one :
      (i j : ℕ)
      → i < n
      → j < n
      → s.pc i ≡ waking
      → s.pc j ≡ asleep
      → Step n s (record s { pc = update (update s.pc j trying) i idle })
  wake_none :
      (i : ℕ)
      → i < n
      → s.pc i ≡ waking
      → ((j : ℕ) → j < n → s.pc j ≢ asleep)
      → Step n s (moved s i idle)

pub data Reach (n : ℕ) : System → Type 0 where
  start : Reach n initial
  later : {s t : System} → Reach n s → Step n s t → Reach n t
