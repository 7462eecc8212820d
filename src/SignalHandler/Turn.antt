-- ===== src/SignalHandler/Turn.antt =====
-- addSignal and rmSignal of one thread with no step of another between theirs.
use cppgenerics.Prelude.{
  ℕ, ◌≡◌, refl, sym, Bool, true, false, Option, none, some, arith, subst, eq_self, ap,
}
use mathlib.Core.Path.{fun_ext}
use cppgenerics.Mutex.Threads.{update}
use cppgenerics.SignalHandler.{
  SignalDescriptor, Signals, ok, listed, record_signal, install, join, block, erase_signal, forget,
  leave, add_signal, rm_signal,
}
use cppgenerics.SignalHandler.Threads.{
  Pc, idle, waiting, adding, checked, recorded, installed, returning, blocking, removing, erased,
  released, forgotten, System, Thread, view, own, put, owned_by, Step, call_add, add_locks,
  add_checks, add_records, add_installs, add_joins, add_unlocks, rm_blocks, rm_locks, rm_erases,
  rm_unlocks, rm_forgets, rm_leaves, Reach, later,
}

update_twice : (f : ℕ → Thread) (i : ℕ) (a b : Thread) → update (update f i a) i b ≡ update f i b
update_twice f i a b = fun_ext λ j. ground arith

-- What thread i has put is what it sees and where it stands.
view-put : (s : System) (i : ℕ) (p : Pc) (v : Signals) → view (put s i p v) i ≡ v
view-put s i p v = rw (eq_self i) refl

pc-put : (s : System) (i : ℕ) (p : Pc) (v : Signals) → ((put s i p v).threads i).pc ≡ p
pc-put s i p v = rw (eq_self i) refl

put_twice : (s : System) (i : ℕ) (p q : Pc) (v w : Signals) → put (put s i p v) i q w ≡ put s i q w
put_twice s i p q v w = rw (update_twice s.threads i (own p v) (own q w)) refl

-- Thread i goes from p to q by a step that does f and gives the mutex the owner o.
goes_on :
    {sigaction : ℕ → Bool} (s : System) (i : ℕ) (p q : Pc) (f : Signals → Signals) (o : Option ℕ)
    (v : Signals)
    → (((put s i p v).threads i).pc ≡ p
        → Step sigaction
            (put s i p v)
            (owned_by o (put (put s i p v) i q (f (view (put s i p v) i)))))
    → Reach sigaction (put s i p v)
    → Reach sigaction (put (owned_by o s) i q (f v))
goes_on {sigaction} s i p q f o v step r =
    let u = put s i p v in
    subst (λ x. Reach sigaction (owned_by o x)) (put_twice s i p q v (f v))
      (subst (λ x. Reach sigaction (owned_by o (put u i q (f x)))) (view-put s i p v)
        (later r (step (pc-put s i p v))))

unowned : (s : System) → s.shared.owner ≡ none → owned_by none s ≡ s
unowned s free = ap (λ o. owned_by o s) (sym free)

-- With the mutex, from the search of addSignal to its return.
adds :
    {sigaction : ℕ → Bool} (m : System) (i : ℕ) (d : SignalDescriptor) (v : Signals)
    → listed d.sig_num v.signals ≡ false
    → sigaction d.sig_num ≡ true
    → Reach sigaction (put m i (adding d) v)
    → Reach sigaction (put (owned_by none m) i idle (join d (install d (record_signal d v))))
adds {sigaction} m i d v new accepted r =
    let w = record_signal d v in
    let o = m.shared.owner in
    let r1 : Reach sigaction (put m i (checked d) v) =
      goes_on m i (adding d) (checked d) (λ x. x) o v (λ at. add_checks i d at new) r in
    let r2 : Reach sigaction (put m i (recorded d) w) =
      goes_on m i (checked d) (recorded d) (record_signal d) o v (λ at. add_records i d at) r1 in
    let r3 : Reach sigaction (put m i (installed d) (install d w)) =
      goes_on m i (recorded d) (installed d) (install d) o w (λ at. add_installs i d at accepted)
        r2 in
    let r4 : Reach sigaction (put m i returning (join d (install d w))) =
      goes_on m i (installed d) returning (join d) o (install d w) (λ at. add_joins i d at) r3 in
    goes_on m i returning idle (λ x. x) none (join d (install d w)) (λ at. add_unlocks i at) r4

-- When the mutex is free and a thread with a SignalHandler stands outside of its operations, and
-- add_signal ends well from what it sees, the steps of its addSignal lead to the state that
-- add_signal gives.
pub add_signal-Reach :
    {sigaction : ℕ → Bool} (s : System) (i : ℕ) (d : SignalDescriptor) (v : Signals) {t : Signals}
    → s.shared.owner ≡ none
    → Reach sigaction (put s i idle v)
    → add_signal sigaction d v ≡ ok t
    → Reach sigaction (put s i idle t)
unfolding add_signal
add_signal-Reach {sigaction} s i d v {t} free r e =
    let new : listed d.sig_num v.signals ≡ false = ground arith in
    let accepted : sigaction d.sig_num ≡ true = ground arith in
    let same : join d (install d (record_signal d v)) ≡ t = ground arith in
    let r1 : Reach sigaction (put s i (waiting d) v) =
      goes_on s i idle (waiting d) (λ x. x) s.shared.owner v (λ at. call_add i d at) r in
    let r2 : Reach sigaction (put (owned_by (some i) s) i (adding d) v) =
      goes_on s i (waiting d) (adding d) (λ x. x) (some i) v (λ at. add_locks i d at free) r1 in
    subst (λ x. Reach sigaction (put x i idle t)) (unowned s free)
      (subst (λ x. Reach sigaction (put (owned_by none s) i idle x)) same
        (adds (owned_by (some i) s) i d v new accepted r2))

-- The same of rmSignal and rm_signal.
pub rm_signal-Reach :
    {sigaction : ℕ → Bool} (s : System) (i n : ℕ) (v : Signals) {t : Signals}
    → s.shared.owner ≡ none
    → Reach sigaction (put s i idle v)
    → rm_signal n v ≡ ok t
    → Reach sigaction (put s i idle t)
unfolding rm_signal
rm_signal-Reach {sigaction} s i n v {t} free r e =
    let m = owned_by (some i) s in
    let b = block n v in
    let c = erase_signal n b in
    let found : listed n b.signals ≡ true = ground arith in
    let same : leave n (forget n c) ≡ t = ground arith in
    let r1 : Reach sigaction (put s i (blocking n) b) =
      goes_on s i idle (blocking n) (block n) s.shared.owner v (λ at. rm_blocks i n at) r in
    let r2 : Reach sigaction (put m i (removing n) b) =
      goes_on s i (blocking n) (removing n) (λ x. x) (some i) b (λ at. rm_locks i n at free) r1 in
    let r3 : Reach sigaction (put m i (erased n) c) =
      goes_on m i (removing n) (erased n) (erase_signal n) (some i) b (λ at. rm_erases i n at found)
        r2 in
    let r4 : Reach sigaction (put (owned_by none s) i (released n) c) =
      goes_on m i (erased n) (released n) (λ x. x) none c (λ at. rm_unlocks i n at) r3 in
    let r5 : Reach sigaction (put (owned_by none s) i (forgotten n) (forget n c)) =
      goes_on (owned_by none s) i (released n) (forgotten n) (forget n) none c
        (λ at. rm_forgets i n at) r4 in
    let r6 : Reach sigaction (put (owned_by none s) i idle (leave n (forget n c))) =
      goes_on (owned_by none s) i (forgotten n) idle (leave n) none (forget n c)
        (λ at. rm_leaves i n at) r5 in
    subst (λ x. Reach sigaction (put x i idle t)) (unowned s free)
      (subst (λ x. Reach sigaction (put (owned_by none s) i idle x)) same r6)
