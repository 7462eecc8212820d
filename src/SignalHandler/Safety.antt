-- ===== src/SignalHandler/Safety.antt =====
-- What holds of the threads with SignalHandlers in the states that they can reach.
use cppgenerics.Prelude.{
  ℕ, ◌≡◌, ◌≢◌, inl, refl, not, Bool, true, false, Option, none, some, arith, eq_self,
}
use cppgenerics.SignalHandler.{
  SignalDescriptor, Action, init, record_signal, install, join, add_signal, listed, sig_handler,
}
use cppgenerics.SignalHandler.Threads.{
  outside, idle, System, initial, view, put, construct, Reach, start, later,
}
use cppgenerics.SignalHandler.Invariant.{is_some, constructed, IsDistinct}
use cppgenerics.SignalHandler.Kept.{Reach-Inv}
use cppgenerics.SignalHandler.Turn.{add_signal-Reach}

some_of {ℓ} : {A : Type ℓ} (o : Option A) → is_some o ≡ true → (a : A) × (o ≡ some a)
some_of (some a) h = (a, refl)
some_of none h = absurd (ground arith)

-- In every state that threads reach by the steps of SignalHandler, between any two steps: a signal
-- that is not blocked in a thread that has a SignalHandler, and did nothing undefined, has an
-- installed action, and c_sigHandler finds a handler for it in that thread's map.
pub sig_handler-found :
    {sigaction : ℕ → Bool} {s : System}
    → Reach sigaction s
    → (i n : ℕ) → constructed (s.threads i).pc ≡ true
    → (s.threads i).blocked n ≡ false
    → ((h : ℕ) × (sig_handler n (view s i) ≡ some h))
      × ((a : Action) × (s.shared.actions n ≡ some a))
unfolding sig_handler
sig_handler-found {s} r i n live free =
    let f = (Reach-Inv r).fine i in
    (
      some_of ((s.threads i).handlers n) (f.handled n live free),
      some_of (s.shared.actions n) (f.acted n live free),
    )

-- In every state that threads reach by the steps of SignalHandler, no two descriptors of the global
-- table have one number.
pub signals-IsDistinct :
    {sigaction : ℕ → Bool} {s : System} → Reach sigaction s → IsDistinct s.shared.signals
signals-IsDistinct r = (Reach-Inv r).distinct

-- A signal may arrive in thread j, which has no SignalHandler and no handler for it.
abbrev pub Unhandled : System → ℕ → ℕ → Type 0
Unhandled s j n =
    ((s.threads j).pc ≡ outside)
    × ((s.threads j).blocked n ≡ false)
    × ((a : Action) × (s.shared.actions n ≡ some a))
    × (sig_handler n (view s j) ≡ none)

-- For a signal that sigaction accepts and two threads, a state is reached in which the first has
-- constructed a SignalHandler and added the signal, and in the second, which constructed none, the
-- signal is not blocked, its action is c_sigHandler, and that finds no handler.
pub sig_handler-missing :
    (sigaction : ℕ → Bool) (d : SignalDescriptor) (i j : ℕ)
    → sigaction d.sig_num ≡ true
    → i ≢ j
    → (s : System) × Reach sigaction s
      × (sig_handler d.sig_num (view s i) ≡ some d.handler)
      × Unhandled s j d.sig_num
unfolding sig_handler add_signal record_signal install join listed init
sig_handler-missing sigaction d i j accepted differ =
    let v = init (view initial i) in
    let t = join d (install d (record_signal d v)) in
    let built : Reach sigaction (put initial i idle v) = later start (construct i (inl refl)) in
    (
      put initial i idle t,
      add_signal-Reach initial i d v refl built (rw accepted refl),
      rw (eq_self i, eq_self d.sig_num) refl,
      (
        ground arith,
        ground arith,
        (
          record { nodefer = not d.is_deffered; masks_itself = d.is_deffered },
          rw (eq_self d.sig_num) refl,
        ),
        ground arith,
      ),
    )
