-- ===== src/SignalHandler/Steps.antt =====
-- What each step changes of the thread that makes it, and of the signal table.
use cppgenerics.Prelude.{
  ℕ, ◌≡◌, inl, inr, refl, false, List, [], ◌∷◌, ◌++◌, ◌==◌, arith, Bool-cases,
}
use cppgenerics.SignalHandler.{
  SignalDescriptor, Signals, init, listed, erase_first, record_signal, install, join, block, forget,
  leave,
}
use cppgenerics.SignalHandler.Add.{listed-append}
use cppgenerics.SignalHandler.Threads.{
  idle, checked, recorded, installed, returning, blocking, released, forgotten, GlobalState, System,
  view, own, put,
}
use cppgenerics.SignalHandler.Invariant.{Fine, IsDistinct}

pub constructs-Fine : (c : GlobalState) (i : ℕ) (v : Signals) → Fine c i (own idle (init v))
unfolding init
constructs-Fine c i v = record {
  handled = λ n p b. cc;
  acted = λ n p b. cc;
  kept = λ n p b q. cc;
  kept_action = λ n p b. cc;
  written = λ n p. cc;
  given = λ n p. cc;
  masked = λ n p. cc;
  owned = λ p. cc;
  unlisted = λ n p. cc;
}

module _ (s : System) (i : ℕ) (d : SignalDescriptor) where
  pub records-Fine :
      Fine s.shared i (record (s.threads i) { pc = checked d })
      → Fine
          (put s i (recorded d) (record_signal d (view s i))).shared
          i
          (own (recorded d) (record_signal d (view s i)))
  unfolding record_signal
  records-Fine f = record {
    handled = λ n p b. ground (arith, f.handled n refl b);
    acted = λ n p b. f.acted n refl b;
    kept = λ n p b q. ground (arith, f.kept n refl b);
    kept_action = λ n p b. f.kept_action n refl b;
    written = λ n p. ground arith;
    given = λ n p. cc;
    masked = λ n p. cc;
    owned = λ p. f.owned refl;
    unlisted = λ n p. cc;
  }

  pub installs-Fine :
      Fine s.shared i (record (s.threads i) { pc = recorded d })
      → Fine
          (put s i (installed d) (install d (view s i))).shared
          i
          (own (installed d) (install d (view s i)))
  unfolding install
  installs-Fine f = record {
    handled = λ n p b. f.handled n refl b;
    acted = λ n p b. ground (arith, f.acted n refl b);
    kept = λ n p b q. f.kept n refl b refl;
    kept_action = λ n p b. ground (arith, f.kept_action n refl b);
    written = λ n p. f.written n p;
    given = λ n p. ground arith;
    masked = λ n p. cc;
    owned = λ p. f.owned refl;
    unlisted = λ n p. cc;
  }

  pub joins-Fine :
      Fine s.shared i (record (s.threads i) { pc = installed d })
      → Fine (put s i returning (join d (view s i))).shared i (own returning (join d (view s i)))
  unfolding join
  joins-Fine f = record {
    handled = λ n p b. ground (arith, f.handled n refl, f.kept n refl, f.written n);
    acted = λ n p b. ground (arith, f.acted n refl, f.kept_action n refl, f.given n);
    kept = λ n p b q. ground (arith, f.kept n refl, f.written n);
    kept_action = λ n p b. ground (arith, f.kept_action n refl, f.given n);
    written = λ n p. cc;
    given = λ n p. cc;
    masked = λ n p. cc;
    owned = f.owned;
    unlisted = λ n p. cc;
  }

module _ (s : System) (i k : ℕ) where
  pub blocks-Fine :
      Fine s.shared i (record (s.threads i) { pc = idle })
      → Fine s.shared i (own (blocking k) (block k (view s i)))
  unfolding block
  blocks-Fine f = record {
    handled = λ n p b. ground (arith, f.handled n refl);
    acted = λ n p b. ground (arith, f.acted n refl);
    kept = λ n p b q. f.kept n refl b refl;
    kept_action = λ n p b. f.kept_action n refl b;
    written = λ n p. cc;
    given = λ n p. cc;
    masked = λ n p. ground arith;
    owned = λ p. cc;
    unlisted = λ n p. cc;
  }

  pub forgets-Fine :
      Fine s.shared i (record (s.threads i) { pc = released k })
      → Fine s.shared i (own (forgotten k) (forget k (view s i)))
  unfolding forget
  forgets-Fine f = record {
    handled = λ n p b. ground (arith, f.handled n refl b, f.masked n);
    acted = λ n p b. f.acted n refl b;
    kept = λ n p b q. ground (arith, f.kept n refl b);
    kept_action = λ n p b. f.kept_action n refl b;
    written = λ n p. cc;
    given = λ n p. cc;
    masked = λ n p. cc;
    owned = λ p. cc;
    unlisted = λ n p. cc;
  }

  pub leaves-Fine :
      Fine s.shared i (record (s.threads i) { pc = forgotten k })
      → Fine s.shared i (own idle (leave k (view s i)))
  unfolding leave
  leaves-Fine f = record {
    handled = λ n p b. ground (arith, f.handled n refl, f.kept n refl);
    acted = λ n p b. ground (arith, f.acted n refl, f.kept_action n refl);
    kept = λ n p b q. ground (arith, f.kept n refl);
    kept_action = λ n p b. ground (arith, f.kept_action n refl);
    written = λ n p. cc;
    given = λ n p. cc;
    masked = λ n p. cc;
    owned = λ p. cc;
    unlisted = λ n p. cc;
  }

pub append-IsDistinct :
    (ds : List SignalDescriptor) (d : SignalDescriptor)
    → listed d.sig_num ds ≡ false
    → IsDistinct ds
    → IsDistinct (ds ++ (d ∷ []))
unfolding listed
append-IsDistinct [] d new h = (refl, refl)
append-IsDistinct (x ∷ ds) d new h = (
  rw (listed-append x.sig_num ds (d ∷ [])) (ground (arith, h.0)),
  append-IsDistinct ds d (ground arith) h.1,
)

listed-erase_first :
    (m n : ℕ) (ds : List SignalDescriptor)
    → listed m ds ≡ false
    → listed m (erase_first n ds) ≡ false
unfolding listed erase_first
listed-erase_first m n [] h = refl
listed-erase_first m n (d ∷ ds) h = ground (arith, listed-erase_first m n ds)

pub erase_first-IsDistinct :
    (n : ℕ) (ds : List SignalDescriptor) → IsDistinct ds → IsDistinct (erase_first n ds)
unfolding erase_first
erase_first-IsDistinct n [] h = refl
erase_first-IsDistinct n (d ∷ ds) h = elim (Bool-cases (d.sig_num == n)) [
  | inl found ↦ rw found h.1
  | inr other ↦ rw other (listed-erase_first d.sig_num n ds h.0, erase_first-IsDistinct n ds h.1)
]
