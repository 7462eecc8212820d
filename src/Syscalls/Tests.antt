-- ===== src/Syscalls/Tests.antt =====
-- Concrete kernels: a file that is read two bytes at a time, a pipe that takes three, small trees.
use cppgenerics.Prelude.{
  ℕ, ◌+◌, ◌-◌, ◌≤◌, ◌<◌, ◌≡◌, refl, Bool, true, false, some, List, [], ◌∷◌, subst, same_refl,
  length, take, leb, if◌then◌else◌, same, arith, inl, inr, ◌&&◌, Bool-cases, ap, ◌*◌, ◌/◌,
}
use cppgenerics.Syscalls.{
  Reader, Writer, bytes, wrote, read_exact, write_exact, read_exact_nt, ok, store,
}
use cppgenerics.Syscalls.Read.{IsReader, ReadFrom, read_exact-ReadExact}
use cppgenerics.Syscalls.ReadNt.{SameEnd, read_exact_nt-SameEnd}
use cppgenerics.Syscalls.Write.{IsWriter, WriteFrom, write_exact-WriteFrom}
use cppgenerics.Syscalls.Wrappers.{failure, throws, get_file_stat}
use cppgenerics.Syscalls.Dirs.{Files, mkdir_p, IsMkdir, MkdirP, mkdir_p-MkdirP}
use cppgenerics.Syscalls.Clock.{to_timespec, Doubles}

-- A file of `s` bytes 7, read at most two at a time.
abbrev pairs : Reader ℕ
pairs s n =
    if leb 2 s && leb 2 n
    then (bytes (7 ∷ 7 ∷ []), s - 2)
    else if leb 1 s && leb 1 n
    then (bytes (7 ∷ []), s - 1)
    else (bytes [], s)

pairs-IsReader : IsReader pairs
pairs-IsReader s t n xs e = ground arith

read_exact-ReadExact_example : ReadFrom pairs 5 9 (λ _. 0) 0 0 (read_exact 6 pairs 9 (λ _. 0) 5)
read_exact-ReadExact_example =
    read_exact-ReadExact pairs pairs-IsReader 6 9 (λ _. 0) 5 (omega arith)

read_exact_nt-SameEnd_example :
    SameEnd 5
      (some 0)
      (read_exact 6 pairs 4 (λ _. 0) 5)
      (read_exact_nt 6 pairs 4 (λ _. 0) (some 0) 5)
read_exact_nt-SameEnd_example = read_exact_nt-SameEnd pairs pairs-IsReader 6 4 (λ _. 0) (some 0) 5

-- A pipe that takes up to three bytes; the state counts them.
abbrev threes : Writer ℕ
threes s xs = (wrote (length (take 3 xs)), s + length (take 3 xs))

taken : (xs : List ℕ) → 0 < length xs → (0 < length (take 3 xs)) × length (take 3 xs) ≤ length xs
taken [] more = absurd (omega arith)
taken (x ∷ []) more = (omega arith, omega arith)
taken (x ∷ y ∷ []) more = (omega arith, omega arith)
taken (x ∷ y ∷ z ∷ xs) more = (omega arith, omega arith)

threes-IsWriter : IsWriter threes
threes-IsWriter s t xs n e more = ground (arith, taken xs more)

write_exact-WriteFrom_example :
    WriteFrom threes
      (1 ∷ 2 ∷ 3 ∷ 4 ∷ [])
      (λ _. 0)
      0
      0
      0
      (write_exact 5 threes 0 (λ _. 0) (1 ∷ 2 ∷ 3 ∷ 4 ∷ []))
write_exact-WriteFrom_example =
    write_exact-WriteFrom threes threes-IsWriter 5 0 (λ _. 0) (1 ∷ 2 ∷ 3 ∷ 4 ∷ []) (omega arith)

abbrev image : ℕ → ℕ
image = store (store (λ _. 0) 0 (7 ∷ 7 ∷ [])) 2 (7 ∷ 7 ∷ [])

whole_image : read_exact 9 pairs 9 (λ _. 0) 4 ≡ ok 2 image 5
unfolding read_exact
whole_image = refl

stat_failed : get_file_stat failure ≡ throws
unfolding get_file_stat
stat_failed = refl

-- The tree's state is the list of its directories, with the root []; the parent of a path is all but its
-- first element, and every path may be made.
abbrev in_list : List ℕ → List (List ℕ) → Bool
in_list p [] = false
in_list p (q ∷ qs) = if same p q then true else in_list p qs

abbrev parent : List ℕ → List ℕ
parent [] = []
parent (x ∷ xs) = xs

abbrev tree : Files (List (List ℕ))
tree = record { is_dir = λ s p. in_list p s; dirname = parent; mkdir = λ s p. (true, p ∷ s) }

tree-IsMkdir : IsMkdir tree
tree-IsMkdir s t p e =
    let t_e : p ∷ s ≡ t = ap (λ x. x.1) e in
    subst (λ x. (in_list p x ≡ true) × ((q : List ℕ) → in_list q s ≡ true → in_list q x ≡ true)) t_e
      (
        rw (same_refl p),
        λ q h. elim (Bool-cases (same q p)) [ inl same_q ↦ rw same_q | inr other ↦ rw other h ],
      )

mkdir_p-MkdirP_example :
    MkdirP tree ([] ∷ []) 2 (1 ∷ 2 ∷ []) (mkdir_p 3 tree ([] ∷ []) (1 ∷ 2 ∷ []))
mkdir_p-MkdirP_example =
    mkdir_p-MkdirP tree tree-IsMkdir 3 2 ([] ∷ []) (1 ∷ 2 ∷ []) (omega arith) refl

-- Doubles without rounding.
abbrev plain : Doubles ℕ
plain = record {
  of = λ n. n;
  add = λ m n. m + n;
  mul = λ m n. m * n;
  div = λ m n. m / n;
  trunc = λ n. n;
  trunc-of = λ n h. refl;
  add-of = λ m n h. refl;
  mul-of = λ m n h. refl;
  trunc-div = λ m n h p q. refl;
}

-- Two seconds and a half.
asked : to_timespec plain 2500000000 ≡ record { tv_sec = 2; tv_nsec = 500000000 }
unfolding to_timespec
asked = refl
