-- ===== src/SignalHandler/Kept.antt =====
-- The invariant of the threads with SignalHandlers, step by step.
use cppgenerics.Prelude.{
  ℕ, ◌≡◌, ◌⊎◌, inl, inr, refl, Bool, true, false, Option, none, some, ◌==◌, arith, subst,
  Bool-cases, eq_self,
}
use cppgenerics.Mutex.Threads.{update}
use cppgenerics.SignalHandler.{
  init, listed, record_signal, install, join, block, erase_signal, forget, leave,
}
use cppgenerics.SignalHandler.Threads.{
  Pc, outside, idle, waiting, adding, checked, recorded, installed, returning, blocking, removing,
  erased, released, forgotten, faulty, GlobalState, Thread, System, initial, view, own, put, moved,
  owned_by, Step, construct, call_add, add_locks, add_finds, add_checks, add_records, add_refused,
  add_installs, add_joins, add_unlocks, rm_blocks, rm_locks, rm_misses, rm_erases, rm_unlocks,
  rm_forgets, rm_leaves, destroy, destroy_with_handlers, Reach, start, later,
}
use cppgenerics.SignalHandler.Invariant.{
  is_some, constructed, forgets, records, installs, blocks, locks, checks, Fine, IsDistinct, Inv,
  update-Fine, other-Fine, goes, ends,
}
use cppgenerics.SignalHandler.Steps.{
  constructs-Fine, records-Fine, installs-Fine, joins-Fine, blocks-Fine, forgets-Fine, leaves-Fine,
  append-IsDistinct, erase_first-IsDistinct,
}

-- A step of thread i from p, which changes the shared state to c and the thread to t.
module _ {s : System} (inv : Inv s) (i : ℕ) {p : Pc} (at : (s.threads i).pc ≡ p) where
  mine : Fine s.shared i (record (s.threads i) { pc = p })
  mine = subst (λ q. Fine s.shared i (record (s.threads i) { pc = q })) at (inv.fine i)

  -- The others see the same.
  alone :
      (t : Thread)
      → Fine s.shared i t
      → Inv (record { shared = s.shared; threads = update s.threads i t })
  alone t f = record {
    fine = update-Fine s.shared s.shared s.threads i t (λ j differ g. g) inv.fine f;
    distinct = inv.distinct;
  }

  -- The mutex is free, or it is thread i's: the others are without it.
  without :
      ((s.shared.owner ≡ none) ⊎ (s.shared.owner ≡ some i))
      → (j : ℕ) → (i == j) ≡ false
      → locks (s.threads j).pc ≡ false
  without o j differ = elim (Bool-cases (locks (s.threads j).pc)) [
    | inl has ↦ ground (arith, (inv.fine j).owned has)
    | inr free ↦ free
  ]

  apart :
      (c : GlobalState) (t : Thread)
      → ((s.shared.owner ≡ none) ⊎ (s.shared.owner ≡ some i))
      → ((n : ℕ) → is_some (s.shared.actions n) ≡ true → is_some (c.actions n) ≡ true)
      → IsDistinct c.signals
      → Fine c i t
      → Inv (record { shared = c; threads = update s.threads i t })
  apart c t o grow d f = record {
    fine =
        update-Fine s.shared c s.threads i t
          (λ j differ. other-Fine s.shared c j (s.threads j) grow (without o j differ)) inv.fine f;
    distinct = d;
  }

  -- It goes to q; the table and the actions stay; the mutex may go from or to thread i.
  takes :
      (o : Option ℕ) (q : Pc)
      → ((s.shared.owner ≡ none) ⊎ (s.shared.owner ≡ some i))
      → constructed p ≡ true
      → ((n : ℕ) → (forgets p n ≡ false) × (records q n ≡ false) × (installs q n ≡ false))
      → ((n : ℕ) → blocks q n ≡ true → blocks p n ≡ true)
      → (locks q ≡ true → o ≡ some i)
      → ((n : ℕ) → checks q n ≡ true → listed n s.shared.signals ≡ false)
      → Inv (owned_by o (moved s i q))
  takes o q own live quiet masks mutex search =
      apart (record s.shared { owner = o }) (record (s.threads i) { pc = q }) own (λ n h. h)
        inv.distinct
        (goes (s.threads i) p mine (record s.shared { owner = o }) q refl live quiet masks mutex
          search)

pub Step-Inv : {sigaction : ℕ → Bool} {s t : System} → Step sigaction s t → Inv s → Inv t
unfolding record_signal install erase_signal init join block forget leave
Step-Inv {s} (construct i at) inv = record {
  fine =
      update-Fine s.shared s.shared s.threads i (own idle (init (view s i))) (λ j differ g. g)
        inv.fine (constructs-Fine s.shared i (view s i));
  distinct = inv.distinct;
}
Step-Inv {s} (call_add i d at) inv =
    alone inv i at (record (s.threads i) { pc = waiting d })
      (goes (s.threads i) idle (mine inv i at) s.shared (waiting d) refl refl
        (λ n. (refl, refl, refl)) (λ n h. cc) (λ h. cc) (λ n h. cc))
Step-Inv {s} (add_locks i d at free) inv =
    takes inv i at (some i) (adding d) (inl free) refl (λ n. (refl, refl, refl)) (λ n h. cc)
      (λ h. refl) (λ n h. cc)
Step-Inv {s} (add_finds i d at dup) inv =
    let o = (mine inv i at).owned refl in
    takes inv i at s.shared.owner returning (inr o) refl (λ n. (refl, refl, refl)) (λ n h. cc)
      (λ h. o) (λ n h. cc)
Step-Inv {s} (add_checks i d at new) inv =
    let o = (mine inv i at).owned refl in
    takes inv i at s.shared.owner (checked d) (inr o) refl (λ n. (refl, refl, refl)) (λ n h. cc)
      (λ h. o) (λ n h. ground arith)
Step-Inv {s} (add_records i d at) inv =
    let v = record_signal d (view s i) in
    let f = mine inv i at in
    apart inv i at (put s i (recorded d) v).shared (own (recorded d) v) (inr (f.owned refl))
      (λ n h. h)
      (append-IsDistinct s.shared.signals d (f.unlisted d.sig_num (eq_self d.sig_num)) inv.distinct)
      (records-Fine s i d f)
Step-Inv {s} (add_refused i d at refused) inv =
    let o = (mine inv i at).owned refl in
    takes inv i at s.shared.owner returning (inr o) refl (λ n. (refl, refl, refl)) (λ n h. cc)
      (λ h. o) (λ n h. cc)
Step-Inv {s} (add_installs i d at accepted) inv =
    let v = install d (view s i) in
    let f = mine inv i at in
    apart inv i at (put s i (installed d) v).shared (own (installed d) v) (inr (f.owned refl))
      (λ n h. ground arith) inv.distinct (installs-Fine s i d f)
Step-Inv {s} (add_joins i d at) inv =
    alone inv i at (own returning (join d (view s i))) (joins-Fine s i d (mine inv i at))
Step-Inv {s} (add_unlocks i at) inv =
    takes inv i at none idle (inr ((mine inv i at).owned refl)) refl (λ n. (refl, refl, refl))
      (λ n h. cc) (λ h. cc) (λ n h. cc)
Step-Inv {s} (rm_blocks i n at) inv =
    alone inv i at (own (blocking n) (block n (view s i))) (blocks-Fine s i n (mine inv i at))
Step-Inv {s} (rm_locks i n at free) inv =
    takes inv i at (some i) (removing n) (inl free) refl (λ n. (refl, refl, refl)) (λ n h. h)
      (λ h. refl) (λ n h. cc)
Step-Inv {s} (rm_misses i n at new) inv =
    alone inv i at (own faulty (view s i)) (ends s.shared i (view s i) faulty (inr refl))
Step-Inv {s} (rm_erases i n at found) inv =
    let c = (put s i (erased n) (erase_signal n (view s i))).shared in
    let f = mine inv i at in
    apart inv i at c (record (s.threads i) { pc = erased n }) (inr (f.owned refl)) (λ m h. h)
      (erase_first-IsDistinct n s.shared.signals inv.distinct)
      (goes (s.threads i) (removing n) f c (erased n) refl refl (λ n. (refl, refl, refl)) (λ n h. h)
        (λ h. f.owned refl) (λ n h. cc))
Step-Inv {s} (rm_unlocks i n at) inv =
    takes inv i at none (released n) (inr ((mine inv i at).owned refl)) refl
      (λ n. (refl, refl, refl)) (λ n h. h) (λ h. cc) (λ n h. cc)
Step-Inv {s} (rm_forgets i n at) inv =
    alone inv i at (own (forgotten n) (forget n (view s i))) (forgets-Fine s i n (mine inv i at))
Step-Inv {s} (rm_leaves i n at) inv =
    alone inv i at (own idle (leave n (view s i))) (leaves-Fine s i n (mine inv i at))
Step-Inv {s} (destroy i at clear) inv =
    let v = init (view s i) in alone inv i at (own outside v) (ends s.shared i v outside (inl refl))
Step-Inv {s} (destroy_with_handlers i n h at has) inv =
    alone inv i at (own faulty (view s i)) (ends s.shared i (view s i) faulty (inr refl))

initial-Inv : Inv initial
initial-Inv = record {
  fine = λ i. ends initial.shared i (view initial i) outside (inl refl);
  distinct = refl;
}

pub Reach-Inv : {sigaction : ℕ → Bool} {s : System} → Reach sigaction s → Inv s
Reach-Inv start = initial-Inv
Reach-Inv (later r st) = Step-Inv st (Reach-Inv r)
