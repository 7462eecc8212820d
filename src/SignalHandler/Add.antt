-- ===== src/SignalHandler/Add.antt =====
-- addSignal, rmSignal and the signal table.
use cppgenerics.Prelude.{
  ℕ, ◌≡◌, ◌≢◌, refl, Bool, true, false, ◌||◌, none, some, List, [], ◌∷◌, ◌++◌, ◌==◌, arith, eq_self,
  ap, subst,
}
use cppgenerics.SignalHandler.{
  init, SignalDescriptor, Signals, ok, logic_error, sys_error, listed, erase_first, record_signal,
  install, join, block, erase_signal, forget, leave, add_signal, rm_signal, sig_handler,
}

pub listed-append :
    (n : ℕ) (ds es : List SignalDescriptor) → listed n (ds ++ es) ≡ (listed n ds || listed n es)
unfolding listed
listed-append n [] es = refl
listed-append n (d ∷ ds) es = ground (arith, listed-append n ds es)

erase_first-append :
    (n : ℕ) (ds : List SignalDescriptor) (d : SignalDescriptor)
    → listed n ds ≡ false
    → d.sig_num ≡ n
    → erase_first n (ds ++ (d ∷ [])) ≡ ds
unfolding listed erase_first
erase_first-append n [] d new e = ground arith
erase_first-append n (x ∷ ds) d new e =
    let differs : (x.sig_num == n) ≡ false = ground arith in
    rw differs (ap (λ xs. x ∷ xs) (erase_first-append n ds d (ground arith) e))

-- addSignal succeeds and adds the signal.
abbrev pub Added : (ℕ → Bool) → SignalDescriptor → Signals → Type 0
Added sigaction d s =
    (t : Signals) × (add_signal sigaction d s ≡ ok t)
    × (listed d.sig_num t.signals ≡ true)
    × (sig_handler d.sig_num t ≡ some d.handler)
    × (t.blocked d.sig_num ≡ false)
    × ((n : ℕ) → s.blocked n ≡ false → t.blocked n ≡ false)
    × ((n : ℕ) → n ≢ d.sig_num → sig_handler n t ≡ sig_handler n s)

-- addSignal and then rmSignal succeed and remove the signal.
abbrev pub Restored : (ℕ → Bool) → SignalDescriptor → Signals → Type 0
Restored sigaction d s =
    (t u : Signals) × (add_signal sigaction d s ≡ ok t)
    × (rm_signal d.sig_num t ≡ ok u)
    × (u.signals ≡ s.signals)
    × (sig_handler d.sig_num u ≡ none)
    × (u.blocked d.sig_num ≡ true)
    × (u.set d.sig_num ≡ false)

-- When the table does not have the signal and sigaction accepts it, addSignal ends well: the signal
-- is in the table, calls the handler of the descriptor, is in the set and is not blocked, every
-- other signal that was not blocked still is not, and the handlers of the others are the same.
add_signal-Added :
    (sigaction : ℕ → Bool) (d : SignalDescriptor) (s : Signals)
    → listed d.sig_num s.signals ≡ false
    → sigaction d.sig_num ≡ true
    → Added sigaction d s
unfolding add_signal record_signal install join sig_handler listed
add_signal-Added sigaction d s new accepted = (
  join d (install d (record_signal d s)),
  rw (new, accepted) refl,
  rw (listed-append d.sig_num s.signals (d ∷ []), new, eq_self d.sig_num) refl,
  rw (eq_self d.sig_num),
  ground (arith, eq_self d.sig_num),
  λ n free. rw free refl,
  λ n other. ground arith,
)

-- When the table does not have the signal and sigaction accepts it, addSignal and then rmSignal end
-- well and give back the table, with no handler for the signal, the signal blocked and out of the
-- set.
rm_signal-Restored :
    (sigaction : ℕ → Bool) (d : SignalDescriptor) (s : Signals)
    → listed d.sig_num s.signals ≡ false
    → sigaction d.sig_num ≡ true
    → Restored sigaction d s
unfolding add_signal rm_signal record_signal install join sig_handler listed
rm_signal-Restored sigaction d s new accepted =
    let n : ℕ = d.sig_num in
    let t : Signals = join d (install d (record_signal d s)) in
    (
      t,
      leave n (forget n (erase_signal n (block n t))),
      rw (new, accepted) refl,
      rw (listed-append n s.signals (d ∷ []), new, eq_self n) refl,
      erase_first-append n s.signals d new refl,
      rw (eq_self n) refl,
      rw (eq_self n) refl,
      rw (eq_self n) refl,
    )

-- Where sigaction refuses a new signal, addSignal throws, and the signal stays in the table: the
-- next addSignal of it is refused as a duplicate, whatever sigaction does.
add_signal-refused :
    (sigaction later : ℕ → Bool) (d : SignalDescriptor) (s : Signals)
    → listed d.sig_num s.signals ≡ false
    → sigaction d.sig_num ≡ false
    → (t : Signals) × (add_signal sigaction d s ≡ sys_error t)
      × (add_signal later d t ≡ logic_error t)
unfolding add_signal record_signal listed
add_signal-refused sigaction later d s new refused = (
  record_signal d s,
  rw (new, refused) refl,
  rw (listed-append d.sig_num s.signals (d ∷ []), new, eq_self d.sig_num) refl,
)

add_signal-ok :
    (sigaction : ℕ → Bool) (d : SignalDescriptor) (s : Signals) {t : Signals}
    → add_signal sigaction d s ≡ ok t
    → join d (install d (record_signal d s)) ≡ t
unfolding add_signal
add_signal-ok sigaction d s h = ground arith

add_signal-lists :
    (sigaction : ℕ → Bool) (d : SignalDescriptor) (s : Signals) {t : Signals}
    → add_signal sigaction d s ≡ ok t
    → listed d.sig_num t.signals ≡ true
unfolding record_signal install join listed
add_signal-lists sigaction d s h =
    subst (λ (t : Signals). listed d.sig_num t.signals ≡ true) (add_signal-ok sigaction d s h)
      (rw (listed-append d.sig_num s.signals (d ∷ []), eq_self d.sig_num) (ground arith))

-- A second SignalHandler in a thread that has added a signal: its constructor blocks the signal,
-- takes it out of the set and leaves it in the table, so the next addSignal of the signal throws and
-- no addSignal of another one unblocks it.
init-silences :
    (sigaction later : ℕ → Bool) (d : SignalDescriptor) (s : Signals) {t : Signals}
    → add_signal sigaction d s ≡ ok t
    → ((init t).blocked d.sig_num ≡ true)
      × (add_signal later d (init t) ≡ logic_error (init t))
      × ((e : SignalDescriptor) (u : Signals)
          → e.sig_num ≢ d.sig_num
          → add_signal later e (init t) ≡ ok u
          → u.blocked d.sig_num ≡ true)
unfolding add_signal record_signal install join listed init
init-silences sigaction later d s {t} added =
    let known : listed d.sig_num t.signals ≡ true = add_signal-lists sigaction d s added in
    (
      refl,
      rw known refl,
      λ e u other h.
          subst (λ (x : Signals). x.blocked d.sig_num ≡ true) (add_signal-ok later e (init t) h)
            (ground arith),
    )
