-- ===== src/SignalHandler/Threads.antt =====
-- SignalHandler in several threads, in every interleaving: the steps of the constructor, addSignal,
-- rmSignal and the destructor (src/SignalHandler.cpp), each on the thread's view of the state. Each
-- thread uses SignalHandlers that it constructed. A signal can arrive between any two steps.
use cppgenerics.Prelude.{ℕ, ◌≡◌, ◌⊎◌, Bool, true, false, Option, none, some, List, []}
use cppgenerics.Mutex.Threads.{update}
use cppgenerics.SignalHandler.{
  SignalDescriptor, Action, Signals, init, listed, record_signal, install, join, block,
  erase_signal, forget, leave,
}

-- Where a thread stands: with no SignalHandler; outside of its operations; in addSignal, before it
-- has the mutex, with it, behind the search, the containers and sigaction; before the release in a
-- return or a throw; in rmSignal, behind the block of the signal, with the mutex, behind the erase,
-- the release and the erase of the handler; and behind an undefined operation.
pub data Pc : Type 0 where
  outside : Pc
  idle : Pc
  waiting : SignalDescriptor → Pc
  adding : SignalDescriptor → Pc
  checked : SignalDescriptor → Pc
  recorded : SignalDescriptor → Pc
  installed : SignalDescriptor → Pc
  returning : Pc
  blocking : ℕ → Pc
  removing : ℕ → Pc
  erased : ℕ → Pc
  released : ℕ → Pc
  forgotten : ℕ → Pc
  faulty : Pc

-- sg_signals, the installed actions, and the owner of sg_signalsMtx.
pub record GlobalState : Type 0 where
  pub signals : List SignalDescriptor
  pub actions : ℕ → Option Action
  pub owner : Option ℕ

-- tl_handlers, tl_ss and the signal mask of a thread.
pub record Thread : Type 0 where
  pub pc : Pc
  pub handlers : ℕ → Option ℕ
  pub set : ℕ → Bool
  pub blocked : ℕ → Bool

pub record System : Type 0 where
  pub shared : GlobalState
  pub threads : ℕ → Thread

-- A thread before its first SignalHandler, and the program before main.
abbrev pub new_thread : Thread
new_thread = record { pc = outside; handlers = λ n. none; set = λ n. false; blocked = λ n. false }

abbrev pub initial : System
initial = record {
  shared = record { signals = []; actions = λ n. none; owner = none };
  threads = λ i. new_thread;
}

-- What thread i works on.
abbrev pub view : System → ℕ → Signals
view s i = record {
  signals = s.shared.signals;
  handlers = (s.threads i).handlers;
  set = (s.threads i).set;
  blocked = (s.threads i).blocked;
  actions = s.shared.actions;
}

abbrev pub own : Pc → Signals → Thread
own p v = record { pc = p; handlers = v.handlers; set = v.set; blocked = v.blocked }

-- Thread i has made a change and goes to p.
abbrev pub put : System → ℕ → Pc → Signals → System
put s i p v = record {
  shared = record { signals = v.signals; actions = v.actions; owner = s.shared.owner };
  threads = update s.threads i (own p v);
}

abbrev pub moved : System → ℕ → Pc → System
moved s i p = put s i p (view s i)

abbrev pub owned_by : Option ℕ → System → System
owned_by o s = record { shared = record s.shared { owner = o }; threads = s.threads }

-- The steps of thread i; `sigaction` is `true` for the signals that it accepts. The destructor of a
-- thread with handlers is undefined as a whole, since its loop erases the element it stands at.
pub data Step (sigaction : ℕ → Bool) (s : System) : System → Type 0 where
  construct :
      (i : ℕ)
      → ((s.threads i).pc ≡ outside) ⊎ ((s.threads i).pc ≡ idle)
      → Step sigaction s (put s i idle (init (view s i)))
  call_add :
      (i : ℕ) (d : SignalDescriptor)
      → (s.threads i).pc ≡ idle
      → Step sigaction s (moved s i (waiting d))
  add_locks :
      (i : ℕ) (d : SignalDescriptor)
      → (s.threads i).pc ≡ waiting d
      → s.shared.owner ≡ none
      → Step sigaction s (owned_by (some i) (moved s i (adding d)))
  add_finds :
      (i : ℕ) (d : SignalDescriptor)
      → (s.threads i).pc ≡ adding d
      → listed d.sig_num s.shared.signals ≡ true
      → Step sigaction s (moved s i returning)
  add_checks :
      (i : ℕ) (d : SignalDescriptor)
      → (s.threads i).pc ≡ adding d
      → listed d.sig_num s.shared.signals ≡ false
      → Step sigaction s (moved s i (checked d))
  add_records :
      (i : ℕ) (d : SignalDescriptor)
      → (s.threads i).pc ≡ checked d
      → Step sigaction s (put s i (recorded d) (record_signal d (view s i)))
  add_refused :
      (i : ℕ) (d : SignalDescriptor)
      → (s.threads i).pc ≡ recorded d
      → sigaction d.sig_num ≡ false
      → Step sigaction s (moved s i returning)
  add_installs :
      (i : ℕ) (d : SignalDescriptor)
      → (s.threads i).pc ≡ recorded d
      → sigaction d.sig_num ≡ true
      → Step sigaction s (put s i (installed d) (install d (view s i)))
  add_joins :
      (i : ℕ) (d : SignalDescriptor)
      → (s.threads i).pc ≡ installed d
      → Step sigaction s (put s i returning (join d (view s i)))
  add_unlocks :
      (i : ℕ) → (s.threads i).pc ≡ returning → Step sigaction s (owned_by none (moved s i idle))
  rm_blocks :
      (i n : ℕ)
      → (s.threads i).pc ≡ idle
      → Step sigaction s (put s i (blocking n) (block n (view s i)))
  rm_locks :
      (i n : ℕ)
      → (s.threads i).pc ≡ blocking n
      → s.shared.owner ≡ none
      → Step sigaction s (owned_by (some i) (moved s i (removing n)))
  rm_misses :
      (i n : ℕ)
      → (s.threads i).pc ≡ removing n
      → listed n s.shared.signals ≡ false
      → Step sigaction s (moved s i faulty)
  rm_erases :
      (i n : ℕ)
      → (s.threads i).pc ≡ removing n
      → listed n s.shared.signals ≡ true
      → Step sigaction s (put s i (erased n) (erase_signal n (view s i)))
  rm_unlocks :
      (i n : ℕ)
      → (s.threads i).pc ≡ erased n
      → Step sigaction s (owned_by none (moved s i (released n)))
  rm_forgets :
      (i n : ℕ)
      → (s.threads i).pc ≡ released n
      → Step sigaction s (put s i (forgotten n) (forget n (view s i)))
  rm_leaves :
      (i n : ℕ)
      → (s.threads i).pc ≡ forgotten n
      → Step sigaction s (put s i idle (leave n (view s i)))
  destroy :
      (i : ℕ)
      → (s.threads i).pc ≡ idle
      → ((n : ℕ) → (s.threads i).handlers n ≡ none)
      → Step sigaction s (put s i outside (init (view s i)))
  destroy_with_handlers :
      (i n h : ℕ)
      → (s.threads i).pc ≡ idle
      → (s.threads i).handlers n ≡ some h
      → Step sigaction s (moved s i faulty)

pub data Reach (sigaction : ℕ → Bool) : System → Type 0 where
  start : Reach sigaction initial
  later : {s t : System} → Reach sigaction s → Step sigaction s t → Reach sigaction t
