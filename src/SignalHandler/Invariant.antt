-- ===== src/SignalHandler/Invariant.antt =====
-- What every step of the threads with SignalHandlers keeps.
use cppgenerics.Prelude.{
  ℕ, ◌≡◌, ◌⊎◌, inl, inr, Bool, true, false, Option, none, some, List, [], ◌∷◌, ◌==◌, arith, subst,
  Bool-cases,
}
use cppgenerics.Mutex.Threads.{update}
use cppgenerics.SignalHandler.{SignalDescriptor, Signals, listed}
use cppgenerics.SignalHandler.Threads.{
  Pc, outside, adding, checked, recorded, installed, returning, blocking, removing, erased,
  released, forgotten, faulty, GlobalState, Thread, System, own,
}

abbrev pub is_some {ℓ} : {A : Type ℓ} → Option A → Bool
is_some none = false
is_some (some a) = true

-- A thread that has a SignalHandler and did nothing undefined.
abbrev pub constructed : Pc → Bool
constructed outside = false
constructed faulty = false
constructed _ = true

-- A thread that has sg_signalsMtx.
abbrev pub locks : Pc → Bool
locks (adding d) = true
locks (checked d) = true
locks (recorded d) = true
locks (installed d) = true
locks returning = true
locks (removing n) = true
locks (erased n) = true
locks _ = false

abbrev pub forgets : Pc → ℕ → Bool
forgets (forgotten k) n = k == n
forgets _ n = false

-- The signal whose handler addSignal has written, and the one rmSignal has blocked.
abbrev pub records : Pc → ℕ → Bool
records (recorded d) n = d.sig_num == n
records (installed d) n = d.sig_num == n
records _ n = false

abbrev pub installs : Pc → ℕ → Bool
installs (installed d) n = d.sig_num == n
installs _ n = false

abbrev pub blocks : Pc → ℕ → Bool
blocks (blocking k) n = k == n
blocks (removing k) n = k == n
blocks (erased k) n = k == n
blocks (released k) n = k == n
blocks _ n = false

abbrev pub checks : Pc → ℕ → Bool
checks (checked d) n = d.sig_num == n
checks _ n = false

-- What thread i keeps.
pub record Fine (c : GlobalState) (i : ℕ) (t : Thread) : Type 0 where
  pub handled :
      (n : ℕ) → constructed t.pc ≡ true → t.blocked n ≡ false → is_some (t.handlers n) ≡ true
  pub acted : (n : ℕ) → constructed t.pc ≡ true → t.blocked n ≡ false → is_some (c.actions n) ≡ true
  pub kept :
      (n : ℕ)
      → constructed t.pc ≡ true
      → t.set n ≡ true
      → forgets t.pc n ≡ false
      → is_some (t.handlers n) ≡ true
  pub kept_action :
      (n : ℕ) → constructed t.pc ≡ true → t.set n ≡ true → is_some (c.actions n) ≡ true
  pub written : (n : ℕ) → records t.pc n ≡ true → is_some (t.handlers n) ≡ true
  pub given : (n : ℕ) → installs t.pc n ≡ true → is_some (c.actions n) ≡ true
  pub masked : (n : ℕ) → blocks t.pc n ≡ true → t.blocked n ≡ true
  pub owned : locks t.pc ≡ true → c.owner ≡ some i
  pub unlisted : (n : ℕ) → checks t.pc n ≡ true → listed n c.signals ≡ false

-- No two descriptors have one number.
abbrev pub IsDistinct : List SignalDescriptor → Type 0
IsDistinct [] = true ≡ true
IsDistinct (d ∷ ds) = (listed d.sig_num ds ≡ false) × IsDistinct ds

pub record Inv (s : System) : Type 0 where
  pub fine : (i : ℕ) → Fine s.shared i (s.threads i)
  pub distinct : IsDistinct s.shared.signals

-- A step of thread i in a table of threads.
pub update-Fine :
    (c c' : GlobalState) (f : ℕ → Thread) (i : ℕ) (t : Thread)
    → ((j : ℕ) → (i == j) ≡ false → Fine c j (f j) → Fine c' j (f j))
    → ((j : ℕ) → Fine c j (f j))
    → Fine c' i t
    → (j : ℕ) → Fine c' j (update f i t j)
update-Fine c c' f i t others all mine j = elim (Bool-cases (i == j)) [
  | inl same ↦ rw same (subst (λ k. Fine c' k t) (ground arith) mine)
  | inr differ ↦ rw differ (others j differ (all j))
]

-- A thread without the mutex keeps what it has when the table changes and actions are added.
pub other-Fine :
    (c c' : GlobalState) (j : ℕ) (t : Thread)
    → ((n : ℕ) → is_some (c.actions n) ≡ true → is_some (c'.actions n) ≡ true)
    → locks t.pc ≡ false
    → Fine c j t
    → Fine c' j t
other-Fine c c' j t grow free f = record {
  handled = f.handled;
  acted = λ n p b. grow n (f.acted n p b);
  kept = f.kept;
  kept_action = λ n p b. grow n (f.kept_action n p b);
  written = f.written;
  given = λ n p. grow n (f.given n p);
  masked = f.masked;
  owned = λ l. absurd (cc);
  unlisted = λ n p. unlocked t.pc n p free (listed n c'.signals);
}
  where
    unlocked : (p : Pc) (n : ℕ) → checks p n ≡ true → locks p ≡ false → (b : Bool) → b ≡ false
    unlocked (checked d) n h l b = cc
    unlocked p n h l b = cc

-- The step of thread i is from p.
module _ {c : GlobalState} {i : ℕ} (t : Thread) (p : Pc) (f : Fine c i (record t { pc = p })) where
  -- It goes to q, and its containers, its set and its mask stay.
  pub goes :
      (c' : GlobalState) (q : Pc)
      → c'.actions ≡ c.actions
      → constructed p ≡ true
      → ((n : ℕ) → (forgets p n ≡ false) × (records q n ≡ false) × (installs q n ≡ false))
      → ((n : ℕ) → blocks q n ≡ true → blocks p n ≡ true)
      → (locks q ≡ true → c'.owner ≡ some i)
      → ((n : ℕ) → checks q n ≡ true → listed n c'.signals ≡ false)
      → Fine c' i (record t { pc = q })
  goes c' q same live quiet masks mutex search = record {
    handled = λ n l b. f.handled n live b;
    acted = λ n l b. rw same (f.acted n live b);
    kept = λ n l b h. f.kept n live b (quiet n).0;
    kept_action = λ n l b. rw same (f.kept_action n live b);
    written = λ n h. let no_record = (quiet n).1 in cc;
    given = λ n h. let no_install = (quiet n).2 in cc;
    masked = λ n h. f.masked n (masks n h);
    owned = mutex;
    unlisted = search;
  }

-- A thread with no SignalHandler any more, or that did something undefined.
pub ends :
    (c : GlobalState) (i : ℕ) (v : Signals) (q : Pc)
    → (q ≡ outside) ⊎ (q ≡ faulty)
    → Fine c i (own q v)
ends c i v q over = record {
  handled = λ n h b. ground arith;
  acted = λ n h b. ground arith;
  kept = λ n h b g. ground arith;
  kept_action = λ n h b. ground arith;
  written = λ n h. ground arith;
  given = λ n h. ground arith;
  masked = λ n h. ground arith;
  owned = λ h. ground arith;
  unlisted = λ n h. ground arith;
}
