-- ===== src/SignalHandler/Tests.antt =====
-- A thread without signals that adds signal 10.
use cppgenerics.Prelude.{ℕ, ◌≡◌, inl, refl, Bool, true, false, none, some, [], arith}
use cppgenerics.SignalHandler.{
  SignalDescriptor, Action, Signals, ok, init, listed, record_signal, install, join, add_signal,
  sig_handler,
}
use cppgenerics.SignalHandler.Invariant.{IsDistinct}
use cppgenerics.SignalHandler.Threads
use cppgenerics.SignalHandler.Threads.{Reach}
use cppgenerics.SignalHandler.Turn.{add_signal-Reach}
use cppgenerics.SignalHandler.Safety.{
  sig_handler-found, signals-IsDistinct, sig_handler-missing, Unhandled,
}

abbrev usr1 : SignalDescriptor
usr1 = record { sig_num = 10; is_deffered = true; handler = 7 }

abbrev quiet : Signals
quiet = record {
  signals = [];
  handlers = λ n. none;
  set = λ n. false;
  blocked = λ n. true;
  actions = λ n. none;
}

new_signal : listed 10 [] ≡ false
unfolding listed
new_signal = refl

-- Signal 10 in a thread that has constructed a SignalHandler.
abbrev all_accepted : ℕ → Bool
all_accepted n = true

abbrev with_usr1 : Signals
with_usr1 = join usr1 (install usr1 (record_signal usr1 quiet))

adds_usr1 : add_signal all_accepted usr1 quiet ≡ ok with_usr1
unfolding add_signal listed
adds_usr1 = refl

one_handler : Reach all_accepted (Threads.put Threads.initial 0 Threads.idle quiet)
unfolding init
one_handler = Reach.later Reach.start (Threads.construct 0 (inl refl))

abbrev after_add : Threads.System
after_add = Threads.put Threads.initial 0 Threads.idle with_usr1

after_add-Reach : Reach all_accepted after_add
after_add-Reach = add_signal-Reach Threads.initial 0 usr1 quiet refl one_handler adds_usr1

sig_handler-found_example :
    ((h : ℕ) × (sig_handler 10 (Threads.view after_add 0) ≡ some h))
    × ((a : Action) × (after_add.shared.actions 10 ≡ some a))
unfolding join install record_signal
sig_handler-found_example = sig_handler-found after_add-Reach 0 10 refl refl

signals-IsDistinct_example : IsDistinct after_add.shared.signals
signals-IsDistinct_example = signals-IsDistinct after_add-Reach

sig_handler-missing_example :
    (s : Threads.System) × Reach all_accepted s
    × (sig_handler 10 (Threads.view s 0) ≡ some 7)
    × Unhandled s 1 10
sig_handler-missing_example = sig_handler-missing all_accepted usr1 0 1 refl (omega arith)
