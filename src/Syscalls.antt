-- ===== src/Syscalls.antt =====
-- System of include/cppgenerics/Syscalls.h and src/Syscalls.cpp. The kernel is a parameter: a
-- system call is a function of the arguments and of a state that gives its answer and the state
-- after it. `store` is the memory from the buffer's start on.

mod Tests
pub mod Read
pub mod ReadNt
pub mod Write
pub mod WriteNt
pub mod Wrappers
pub mod Module
pub mod Dirs
pub mod Sched
pub mod Clock
use cppgenerics.Prelude.{
  ℕ, zero, suc, ◌+◌, ◌-◌, Bool, true, false, Option, none, some, List, [], ◌∷◌, length, write, ltb,
  ℤ, pos, negsuc,
}

pub data Error : Type 0 where
  logic_error sys_error : Error

-- What ::read gives: -1, or a number of bytes and the bytes, none at the end of the file.
pub data ReadAnswer : Type 0 where
  read_failed : ReadAnswer
  bytes : List ℕ → ReadAnswer

abbrev pub Reader : Type 0 → Type 0
Reader S = S → ℕ → ReadAnswer × S

-- What ::write gives for the bytes it is passed: -1, or how many it has taken.
pub data WriteAnswer : Type 0 where
  write_failed : WriteAnswer
  wrote : ℕ → WriteAnswer

abbrev pub Writer : Type 0 → Type 0
Writer S = S → List ℕ → WriteAnswer × S

-- The memory at the buffer after bytes are stored from an offset on.
abbrev pub store : (ℕ → ℕ) → ℕ → List ℕ → ℕ → ℕ
store m at [] = m
store m at (x ∷ xs) = store (write m at x) (at + 1) xs

abbrev pub drop : ℕ → List ℕ → List ℕ
drop zero xs = xs
drop (suc n) [] = []
drop (suc n) (x ∷ xs) = drop n xs

-- How a loop ends: it returns the number of its rounds, or throws, with the memory as it is then.
-- The source's loops have no bound; here they run on fuel.
pub data Run (S : Type 0) : Type 0 where
  ok : ℕ → (ℕ → ℕ) → S → Run S
  throw : Error → (ℕ → ℕ) → S → Run S
  out_of_fuel : Run S

-- read: `none` is the exception.
unfoldable pub read : {S : Type 0} → Reader S → S → ℕ → Option (List ℕ) × S
read sys s count =
    let (answer, t) = sys s count in
    elim answer [ read_failed ↦ (none, t) | bytes xs ↦ (some xs, t) ]

-- The loop of readExact. soFar is at most count, and iters at most soFar, so neither wraps.
unfoldable pub read_loop : {S : Type 0} → ℕ → Reader S → ℕ → S → (ℕ → ℕ) → ℕ → ℕ → Run S
unfolding read
read_loop zero sys count s m so_far iters = out_of_fuel
read_loop (suc fuel) sys count s m so_far iters = elim (ltb so_far count) [
  | false ↦ ok iters m s
  | true ↦
      (let (rd, t) = read sys s (count - so_far) in
        elim rd [
          | none ↦ throw sys_error m t
          | some xs ↦ elim xs [
            | [] ↦ throw logic_error m t
            | y ∷ ys ↦
                read_loop fuel sys count t (store m so_far (y ∷ ys)) (so_far + length (y ∷ ys))
                  (iters + 1)
          ]
        ])
]

-- readExact.
unfoldable pub read_exact : {S : Type 0} → ℕ → Reader S → S → (ℕ → ℕ) → ℕ → Run S
unfolding read_loop
read_exact fuel sys s m count = read_loop fuel sys count s m 0 0

-- write: `none` is the exception.
unfoldable pub write_some : {S : Type 0} → Writer S → S → List ℕ → Option ℕ × S
write_some sys s xs =
    let (answer, t) = sys s xs in elim answer [ write_failed ↦ (none, t) | wrote n ↦ (some n, t) ]

-- The loop of writeExact over the `count` bytes of `xs`.
unfoldable pub write_loop : {S : Type 0} → ℕ → Writer S → List ℕ → (ℕ → ℕ) → S → ℕ → ℕ → Run S
unfolding write_some
write_loop zero sys xs m s so_far iters = out_of_fuel
write_loop (suc fuel) sys xs m s so_far iters = elim (ltb so_far (length xs)) [
  | false ↦ ok iters m s
  | true ↦
      (let (wr, t) = write_some sys s (drop so_far xs) in
        elim wr [
          | none ↦ throw sys_error m t
          | some n ↦ write_loop fuel sys xs m t (so_far + n) (iters + 1)
        ])
]

-- writeExact.
unfoldable pub write_exact : {S : Type 0} → ℕ → Writer S → S → (ℕ → ℕ) → List ℕ → Run S
unfolding write_loop
write_exact fuel sys s m xs = write_loop fuel sys xs m s 0 0

-- How readExact_nt ends: its result, the memory, and what bytesSuccRead points to (`none` for the
-- null pointer).
pub data NtRun (S : Type 0) : Type 0 where
  returned : ℤ → (ℕ → ℕ) → Option ℕ → S → NtRun S
  nt_out_of_fuel : NtRun S

-- `if (p != nullptr) { *p = n; }`
abbrev pub assign : Option ℕ → ℕ → Option ℕ
assign none n = none
assign (some old) n = some n

-- The loop of readExact_nt.
unfoldable pub read_loop_nt :
    {S : Type 0} → ℕ → Reader S → ℕ → S → (ℕ → ℕ) → Option ℕ → ℕ → ℕ → NtRun S
read_loop_nt zero sys count s m succ_read so_far iters = nt_out_of_fuel
read_loop_nt (suc fuel) sys count s m succ_read so_far iters = elim (ltb so_far count) [
  | false ↦ returned (pos iters) m succ_read s
  | true ↦
      (let (answer, t) = sys s (count - so_far) in
        elim answer [
          | read_failed ↦ returned (negsuc 0) m succ_read t
          | bytes xs ↦ elim xs [
            | [] ↦ returned (pos 0) m succ_read t
            | y ∷ ys ↦
                read_loop_nt fuel sys count t (store m so_far (y ∷ ys))
                  (assign succ_read (so_far + length (y ∷ ys))) (so_far + length (y ∷ ys))
                  (iters + 1)
          ]
        ])
]

-- readExact_nt.
unfoldable pub read_exact_nt : {S : Type 0} → ℕ → Reader S → S → (ℕ → ℕ) → Option ℕ → ℕ → NtRun S
unfolding read_loop_nt
read_exact_nt fuel sys s m succ_read count = read_loop_nt fuel sys count s m succ_read 0 0

-- The loop of writeExact_nt over the `count` bytes of `xs`.
unfoldable pub write_loop_nt :
    {S : Type 0} → ℕ → Writer S → List ℕ → (ℕ → ℕ) → S → Option ℕ → ℕ → ℕ → NtRun S
write_loop_nt zero sys xs m s succ_written so_far iters = nt_out_of_fuel
write_loop_nt (suc fuel) sys xs m s succ_written so_far iters = elim (ltb so_far (length xs)) [
  | false ↦ returned (pos iters) m succ_written s
  | true ↦
      (let (answer, t) = sys s (drop so_far xs) in
        elim answer [
          | write_failed ↦ returned (negsuc 0) m succ_written t
          | wrote n ↦
              write_loop_nt fuel sys xs m t (assign succ_written (so_far + n)) (so_far + n)
                (iters + 1)
        ])
]

-- writeExact_nt.
unfoldable pub write_exact_nt :
    {S : Type 0} → ℕ → Writer S → S → (ℕ → ℕ) → Option ℕ → List ℕ → NtRun S
unfolding write_loop_nt
write_exact_nt fuel sys s m succ_written xs = write_loop_nt fuel sys xs m s succ_written 0 0
