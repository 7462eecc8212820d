-- ===== src/Syscalls/Module.antt =====
-- initModule, with the file descriptor that openAutoClose closes at the end of the scope. `Call` is
-- one of the system calls that matter for the descriptor; the trace has them in their order.
use cppgenerics.Prelude.{
  ℕ, suc, ◌≡◌, refl, ap, List, [], ◌∷◌, ◌++◌, Option, none, some, ℤ, pos, negsuc, if◌then◌else◌,
  ◌==◌, arith, ◌⊎◌, inl, inr,
}
use cppgenerics.Syscalls.{Error, Reader, Run, ok, throw, out_of_fuel, read_exact}
use cppgenerics.Syscalls.Wrappers.{Result, returns, throws, open_file, get_file_stat}

pub data Call : Type 0 where
  opened : ℕ → Call
  closed : ℕ → Call
  init_called : Call

-- What initModule gives: how it ends, `none` if readExact does not, and its calls.
abbrev pub Trace : Type 0
Trace = Option Result × List Call

-- The end of the scope of openAutoClose's descriptor: the deleter closes it.
abbrev pub auto_close : ℕ → Trace → Trace
auto_close fd (none, calls) = (none, calls)
auto_close fd (some r, calls) = (some r, calls ++ (closed fd ∷ []))

-- The part behind readExact: `::close(*fd)` and the test of init_module's result.
unfoldable pub init_image : ℕ → ℤ → Trace
init_image fd answer = elim answer [
  | pos n ↦ (some (if n == 0 then returns 0 else throws), closed fd ∷ init_called ∷ [])
  | negsuc n ↦ (some throws, closed fd ∷ init_called ∷ [])
]

-- The part behind getFileStat; readExact reads st_size bytes.
unfoldable pub load_image : {S : Type 0} → ℕ → ℤ → Run S → Trace
unfolding init_image
load_image fd answer (ok _ _ _) = init_image fd answer
load_image fd answer (throw _ _ _) = (some throws, [])
load_image fd answer out_of_fuel = (none, [])

-- The part behind openAutoClose.
unfoldable pub load_opened : {S : Type 0} → ℕ → Reader S → S → (ℕ → ℕ) → ℕ → ℤ → ℕ → ℤ → Trace
unfolding load_image
load_opened fuel sys s m fd stat size answer = elim (get_file_stat stat) [
  | returns _ ↦ load_image fd answer (read_exact fuel sys s m size)
  | throws ↦ (some throws, [])
]

-- initModule, for the answers of ::open, ::stat and init_module, and st_size.
unfoldable pub init_module : {S : Type 0} → ℕ → Reader S → S → (ℕ → ℕ) → ℤ → ℤ → ℕ → ℤ → Trace
unfolding load_opened
init_module fuel sys s m fd stat size answer = elim (open_file fd) [
  | returns n ↦
      (let (r, calls) = auto_close n (load_opened fuel sys s m n stat size answer) in
        (r, opened n ∷ calls))
  | throws ↦ (some throws, [])
]

-- The result for init_module's answer.
abbrev pub if_zero : ℤ → Result
if_zero (pos n) = if n == 0 then returns 0 else throws
if_zero (negsuc n) = throws

-- How often a trace closes a descriptor.
unfoldable pub closes : ℕ → List Call → ℕ
closes fd [] = 0
closes fd (opened n ∷ calls) = closes fd calls
closes fd (closed n ∷ calls) = if n == fd then suc (closes fd calls) else closes fd calls
closes fd (init_called ∷ calls) = closes fd calls

-- Where readExact returns, initModule closes its descriptor twice, once before init_module is
-- called and once at the end; it throws exactly if init_module's result is not 0.
init_module-closes :
    {S : Type 0} (fuel : ℕ) (sys : Reader S) (s t : S) (m m' : ℕ → ℕ) (fd size iters : ℕ)
    (answer : ℤ)
    → read_exact fuel sys s m size ≡ ok iters m' t
    → (closes fd (init_module fuel sys s m (pos fd) (pos 0) size answer).1 ≡ 2)
      × ((init_module fuel sys s m (pos fd) (pos 0) size answer).0 ≡ some (if_zero answer))
unfolding init_module open_file get_file_stat load_opened load_image init_image closes
init_module-closes fuel sys s t m m' fd size iters (pos n) e =
    rw (e, load_image) (ground arith, refl)
init_module-closes fuel sys s t m m' fd size iters (negsuc n) e =
    rw (e, load_image) (ground arith, refl)

-- The ways for ::stat or readExact to fail.
abbrev pub Fails : {S : Type 0} → ℕ → Reader S → S → (ℕ → ℕ) → ℕ → ℤ → Type 0
Fails {S} fuel sys s m size stat =
    (get_file_stat stat ≡ throws)
    ⊎ ((e : Error) × (t : S) × (m' : ℕ → ℕ) × (read_exact fuel sys s m size ≡ throw e m' t))

load_opened-throws :
    {S : Type 0} (fuel : ℕ) (sys : Reader S) (s : S) (m : ℕ → ℕ) (fd size : ℕ) (stat answer : ℤ)
    → Fails fuel sys s m size stat
    → (r : Result) → get_file_stat stat ≡ r
    → load_opened fuel sys s m fd stat size answer ≡ (some throws, [])
unfolding load_opened load_image
load_opened-throws fuel sys s m fd size stat answer f throws e = rw (e, load_opened)
load_opened-throws fuel sys s m fd size stat answer (inl bad) (returns n) e = ground arith
load_opened-throws fuel sys s m fd size stat answer (inr (x, t, m', bad)) (returns n) e =
    rw (e, bad, load_opened)

-- Where ::open gives a descriptor and ::stat or readExact fails, initModule throws, does not call
-- init_module and closes the descriptor once.
init_module-throws :
    {S : Type 0} (fuel : ℕ) (sys : Reader S) (s : S) (m : ℕ → ℕ) (fd size : ℕ) (stat answer : ℤ)
    → Fails fuel sys s m size stat
    → init_module fuel sys s m (pos fd) stat size answer ≡ (some throws, opened fd ∷ closed fd ∷ [])
unfolding init_module open_file
init_module-throws fuel sys s m fd size stat answer f =
    let e : load_opened fuel sys s m fd stat size answer ≡ (some throws, []) =
      load_opened-throws fuel sys s m fd size stat answer f (get_file_stat stat) refl in
    ap (λ x. ((auto_close fd x).0, opened fd ∷ (auto_close fd x).1)) e
