-- ===== src/SignalHandler.antt =====
-- Signals::SignalHandler of include/cppgenerics/SignalHandler.h and src/SignalHandler.cpp, as one
-- thread sees it: the global signal table, the thread's map of handlers, its set tl_ss, the signals that are
-- blocked in it and the actions that the process has installed. pthread_sigmask succeeds, as it
-- does for the arguments used; sigaction is a parameter, `true` if it returns 0. The numbers stand for
-- the signals that a process may block and handle, so not for SIGKILL and SIGSTOP.

mod Tests
pub mod Add
pub mod Threads
pub mod Invariant
pub mod Steps
pub mod Kept
pub mod Turn
pub mod Safety
use cppgenerics.Prelude.{
  ℕ, Bool, true, false, not, ◌||◌, ◌&&◌, Option, none, some, List, [], ◌∷◌, ◌++◌, ◌==◌,
  if◌then◌else◌, write,
}

-- `handler` names the function.
pub record SignalDescriptor : Type 0 where
  pub sig_num : ℕ
  pub is_deffered : Bool
  pub handler : ℕ

-- What sigaction is given: SA_NODEFER or not, and whether the mask has the signal itself.
pub record Action : Type 0 where
  pub nodefer : Bool
  pub masks_itself : Bool

pub record Signals : Type 0 where
  pub signals : List SignalDescriptor
  pub handlers : ℕ → Option ℕ
  pub set : ℕ → Bool
  pub blocked : ℕ → Bool
  pub actions : ℕ → Option Action

-- An exception leaves the state as it is then; `undefined` is vector::erase of end().
pub data Outcome : Type 0 where
  ok : Signals → Outcome
  logic_error : Signals → Outcome
  sys_error : Signals → Outcome
  undefined : Outcome

-- _init: all signals (but SIGKILL and SIGSTOP, which the model leaves out) are blocked and the set is emptied.
unfoldable pub init : Signals → Signals
init s = record s { blocked = (λ n. true); set = (λ n. false) }

-- std::find_if of a signal's number in the table.
unfoldable pub listed : ℕ → List SignalDescriptor → Bool
listed n [] = false
listed n (d ∷ ds) = (d.sig_num == n) || listed n ds

-- The erase of the first descriptor with the number.
unfoldable pub erase_first : ℕ → List SignalDescriptor → List SignalDescriptor
erase_first n [] = []
erase_first n (d ∷ ds) = if d.sig_num == n then ds else d ∷ erase_first n ds

-- pthread_sigmask(SIG_UNBLOCK) of a set.
abbrev pub unblock : (ℕ → Bool) → (ℕ → Bool) → ℕ → Bool
unblock unblocked blocked n = blocked n && not (unblocked n)

-- addSignal: the two containers.
unfoldable pub record_signal : SignalDescriptor → Signals → Signals
record_signal d s = record s {
  handlers = write s.handlers d.sig_num (some d.handler);
  signals = s.signals ++ (d ∷ []);
}

-- addSignal: sigaction, where it succeeds.
unfoldable pub install : SignalDescriptor → Signals → Signals
install d s =
    let act : Action = record { nodefer = not d.is_deffered; masks_itself = d.is_deffered } in
    record s { actions = write s.actions d.sig_num (some act) }

-- addSignal: sigaddset, and the set is unblocked.
unfoldable pub join : SignalDescriptor → Signals → Signals
join d s =
    let added = write s.set d.sig_num true in
    record s { set = added; blocked = unblock added s.blocked }

-- addSignal.
unfoldable pub add_signal : (ℕ → Bool) → SignalDescriptor → Signals → Outcome
unfolding listed record_signal install join
add_signal sigaction d s =
    if listed d.sig_num s.signals
    then logic_error s
    else if sigaction d.sig_num
    then ok (join d (install d (record_signal d s)))
    else sys_error (record_signal d s)

-- rmSignal: the signal is blocked; its descriptor is erased; its handler is erased; and what stays
-- in the set is unblocked.
unfoldable pub block : ℕ → Signals → Signals
block n s = record s { blocked = write s.blocked n true }

unfoldable pub erase_signal : ℕ → Signals → Signals
unfolding erase_first
erase_signal n s = record s { signals = erase_first n s.signals }

unfoldable pub forget : ℕ → Signals → Signals
forget n s = record s { handlers = write s.handlers n none }

unfoldable pub leave : ℕ → Signals → Signals
leave n s =
    let removed = write s.set n false in
    record s { set = removed; blocked = unblock removed s.blocked }

-- rmSignal.
unfoldable pub rm_signal : ℕ → Signals → Outcome
unfolding listed block erase_signal forget leave
rm_signal n s =
    let masked = block n s in
    if listed n masked.signals then ok (leave n (forget n (erase_signal n masked))) else undefined

-- c_sigHandler: the handler that a signal calls. `none` is the empty std::function, which throws.
unfoldable pub sig_handler : ℕ → Signals → Option ℕ
sig_handler n s = s.handlers n
