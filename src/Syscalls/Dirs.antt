-- ===== src/Syscalls/Dirs.antt =====
-- mkdir_p. A path is the bytes of a C string; the file tree, dirname and ::mkdir are parameters.
use cppgenerics.Prelude.{
  ℕ, zero, suc, ◌<◌, ◌≡◌, refl, Bool, true, false, List, arith, inl, inr, Bool-cases, ap, subst,
  sym,
}

-- Whether a path is a directory in a state; dirname; and ::mkdir, `true` if it returns 0.
pub record Files (S : Type 0) : Type 0 where
  pub is_dir : S → List ℕ → Bool
  pub dirname : List ℕ → List ℕ
  pub mkdir : S → List ℕ → Bool × S

-- How mkdir_p ends. The source's recursion has no bound; here it runs on fuel.
pub data Dirs (S : Type 0) : Type 0 where
  made : S → Dirs S
  sys_error : S → Dirs S
  out_of_fuel : Dirs S

-- The part behind the recursive call.
unfoldable pub make_last : {S : Type 0} → Files S → List ℕ → Dirs S → Dirs S
make_last fs path (made s) =
    let (success, t) = fs.mkdir s path in elim success [ true ↦ made t | false ↦ sys_error t ]
make_last fs path (sys_error s) = sys_error s
make_last fs path out_of_fuel = out_of_fuel

-- mkdir_p.
unfoldable pub mkdir_p : {S : Type 0} → ℕ → Files S → S → List ℕ → Dirs S
unfolding make_last
mkdir_p zero fs s path = out_of_fuel
mkdir_p (suc fuel) fs s path = elim (fs.is_dir s path) [
  | true ↦ made s
  | false ↦ make_last fs path (mkdir_p fuel fs s (fs.dirname path))
]

-- The path behind `n` calls of dirname.
abbrev pub ancestor : {S : Type 0} → Files S → ℕ → List ℕ → List ℕ
ancestor fs zero path = path
ancestor fs (suc n) path = ancestor fs n (fs.dirname path)

-- What a successful ::mkdir does: its path is a directory, and the others stay.
abbrev pub IsMkdir : {S : Type 0} → Files S → Type 0
IsMkdir {S} fs =
    (s t : S) (path : List ℕ)
    → fs.mkdir s path ≡ (true, t)
    → (fs.is_dir t path ≡ true) × ((q : List ℕ) → fs.is_dir s q ≡ true → fs.is_dir t q ≡ true)

-- What mkdir_p has done when it ends.
abbrev pub MkdirP : {S : Type 0} → Files S → S → ℕ → List ℕ → Dirs S → Type 0
MkdirP fs s n path (made t) =
    (fs.is_dir t path ≡ true) × ((q : List ℕ) → fs.is_dir s q ≡ true → fs.is_dir t q ≡ true)
MkdirP {S} fs s n path (sys_error t) =
    (i : ℕ) × (u : S) × i < n
    × (fs.is_dir s (ancestor fs i path) ≡ false)
    × (fs.mkdir u (ancestor fs i path) ≡ (false, t))
MkdirP fs s n path out_of_fuel = ⊥

make_last-MkdirP :
    {S : Type 0} (fs : Files S)
    → IsMkdir fs
    → (s : S) (n : ℕ) (path : List ℕ) → fs.is_dir s path ≡ false
    → (r : Dirs S) → MkdirP fs s n (fs.dirname path) r
    → MkdirP fs s (suc n) path (make_last fs path r)
unfolding make_last
make_last-MkdirP {S} fs is_mkdir s n path new (made u) (above, kept) = last (fs.mkdir u path) refl
  where
    last :
        (a : Bool × S) → fs.mkdir u path ≡ a → MkdirP fs s (suc n) path (make_last fs path (made u))
    last (true, t) e =
        let (there, stay) = is_mkdir u t path e in
        let success : make_last fs path (made u) ≡ made t =
          rw (e, make_last) (ap (λ x. made x.1) e) in
        subst (MkdirP fs s (suc n) path) (sym success) (there, λ q h. stay q (kept q h))
    last (false, t) e =
        let failed : make_last fs path (made u) ≡ sys_error t =
          rw (e, make_last) (ap (λ x. sys_error x.1) e) in
        subst (MkdirP fs s (suc n) path) (sym failed) (0, u, omega arith, new, e)
make_last-MkdirP fs is_mkdir s n path new (sys_error t) (i, u, less, bad, e) =
    (suc i, u, omega arith, bad, e)
make_last-MkdirP fs is_mkdir s n path new out_of_fuel x = elim x [ ]

-- If some ancestor of the path is a directory, the `n`-th one, and a successful ::mkdir makes a directory and keeps the
-- others, mkdir_p ends, with fuel above n. It returns with the path a directory and with all
-- directories kept, or throws since ::mkdir failed at an ancestor below the n-th one that was no directory.
pub mkdir_p-MkdirP :
    {S : Type 0} (fs : Files S)
    → IsMkdir fs
    → (fuel n : ℕ) (s : S) (path : List ℕ) → n < fuel
    → fs.is_dir s (ancestor fs n path) ≡ true
    → MkdirP fs s n path (mkdir_p fuel fs s path)
unfolding mkdir_p
mkdir_p-MkdirP fs is_mkdir zero n s path less root = absurd (omega arith)
mkdir_p-MkdirP fs is_mkdir (suc fuel) zero s path less root = rw (root, mkdir_p) (root, λ q h. h)
mkdir_p-MkdirP fs is_mkdir (suc fuel) (suc n) s path less root =
    elim (Bool-cases (fs.is_dir s path)) [
      | inl old ↦ rw (old, mkdir_p) (old, λ q h. h)
      | inr new ↦
          rw (new, mkdir_p)
            (make_last-MkdirP fs is_mkdir s n path new (mkdir_p fuel fs s (fs.dirname path))
              (mkdir_p-MkdirP fs is_mkdir fuel n s (fs.dirname path) (omega arith) root))
    ]

-- If no ancestor of the path is a directory, mkdir_p does not end: no fuel is enough.
pub mkdir_p-diverges :
    {S : Type 0} (fs : Files S) (s : S) (path : List ℕ)
    → ((n : ℕ) → fs.is_dir s (ancestor fs n path) ≡ false)
    → (fuel : ℕ) → mkdir_p fuel fs s path ≡ out_of_fuel
unfolding mkdir_p make_last
mkdir_p-diverges fs s path none_is zero = refl
mkdir_p-diverges fs s path none_is (suc fuel) =
    rw (none_is 0, mkdir_p)
      (ap (make_last fs path) (mkdir_p-diverges fs s (fs.dirname path) (λ n. none_is (suc n)) fuel))
