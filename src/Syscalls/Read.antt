-- ===== src/Syscalls/Read.antt =====
-- readExact fills the buffer with what the calls of ::read give.
use cppgenerics.Prelude.{
  ℕ, zero, suc, ◌+◌, ◌-◌, ◌≤◌, ◌<◌, ◌≡◌, refl, true, false, List, [], ◌∷◌, ◌++◌, length,
  length-append, ltb, write, arith, subst, inl, inr, Bool-cases, ap, sym, ◌∙◌,
}
use cppgenerics.Syscalls.{
  Error, logic_error, sys_error, ReadAnswer, read_failed, bytes, Reader, store, Run, ok, throw,
  out_of_fuel, read, read_loop, read_exact,
}

-- `rounds` calls of ::read, each for what is left of `count` and each with some bytes, take the
-- state from `s` to `t` and give the bytes `xs`; `so_far` bytes come before.
pub data Reads {S : Type 0} (sys : Reader S) (count : ℕ) : S → ℕ → ℕ → List ℕ → S → Type 0 where
  no_reads : {s : S} {so_far : ℕ} → Reads sys count s so_far 0 [] s
  one_read :
      {s t u : S} {so_far rounds y : ℕ} {ys zs : List ℕ}
      → sys s (count - so_far) ≡ (bytes (y ∷ ys), t)
      → Reads sys count t (so_far + length (y ∷ ys)) rounds zs u
      → Reads sys count s so_far (suc rounds) ((y ∷ ys) ++ zs) u

-- ::read gives at most as many bytes as it is asked for.
abbrev pub IsReader : {S : Type 0} → Reader S → Type 0
IsReader {S} sys = (s t : S) (n : ℕ) (xs : List ℕ) → sys s n ≡ (bytes xs, t) → length xs ≤ n

pub store-append :
    (m : ℕ → ℕ) (at : ℕ) (xs ys : List ℕ)
    → store m at (xs ++ ys) ≡ store (store m at xs) (at + length xs) ys
store-append m at [] ys = ap (λ p. store m p ys) (omega arith)
store-append m at (x ∷ xs) ys =
    store-append (write m at x) (at + 1) xs ys
    ∙ ap (λ p. store (store (write m at x) (at + 1) xs) p ys) (omega arith)

-- The answer of ::read that makes readExact throw.
abbrev pub fault : Error → ReadAnswer
fault logic_error = bytes []
fault sys_error = read_failed

-- What readExact from the position `so_far` on has done when it ends.
abbrev pub ReadFrom : {S : Type 0} → Reader S → ℕ → S → (ℕ → ℕ) → ℕ → ℕ → Run S → Type 0
ReadFrom {S} sys count s m so_far iters (ok j m' t) =
    (rounds : ℕ) × (xs : List ℕ) × Reads sys count s so_far rounds xs t
    × (so_far + length xs ≡ count)
    × (m' ≡ store m so_far xs)
    × (j ≡ iters + rounds)
    × rounds ≤ length xs
ReadFrom {S} sys count s m so_far iters (throw e m' t) =
    (rounds : ℕ) × (xs : List ℕ) × (u : S) × Reads sys count s so_far rounds xs u
    × so_far + length xs < count
    × (m' ≡ store m so_far xs)
    × (sys u (count - (so_far + length xs)) ≡ (fault e, t))
ReadFrom sys count s m so_far iters out_of_fuel = ⊥

ReadFrom-step :
    {S : Type 0} (sys : Reader S) (count : ℕ) (s t : S) (m : ℕ → ℕ) (so_far iters y : ℕ)
    (ys : List ℕ)
    → sys s (count - so_far) ≡ (bytes (y ∷ ys), t)
    → (r : Run S)
    → ReadFrom sys count t (store m so_far (y ∷ ys)) (so_far + length (y ∷ ys)) (iters + 1) r
    → ReadFrom sys count s m so_far iters r
ReadFrom-step sys count s t m so_far iters y ys e (ok j m' u)
      (rounds, xs, reads, total, mem, j_eq, few) =
    (
      suc rounds,
      (y ∷ ys) ++ xs,
      one_read e reads,
      omega (arith, length-append (y ∷ ys) xs),
      mem ∙ sym (store-append m so_far (y ∷ ys) xs),
      omega arith,
      omega (arith, length-append (y ∷ ys) xs),
    )
ReadFrom-step sys count s t m so_far iters y ys e (throw x m' u)
      (rounds, xs, v, reads, short, mem, last) =
    let len : so_far + length (y ∷ ys) + length xs ≡ so_far + length ((y ∷ ys) ++ xs) =
      omega (arith, length-append (y ∷ ys) xs) in
    (
      suc rounds,
      (y ∷ ys) ++ xs,
      v,
      one_read e reads,
      omega (arith, len),
      mem ∙ sym (store-append m so_far (y ∷ ys) xs),
      ap (λ n. sys v (count - n)) (sym len) ∙ last,
    )
ReadFrom-step sys count s t m so_far iters y ys e out_of_fuel x = elim x [ ]

-- What one round of the loop gives for an answer of ::read.
abbrev pub after_read : {S : Type 0} → ℕ → Reader S → ℕ → (ℕ → ℕ) → ℕ → ℕ → ReadAnswer × S → Run S
after_read fuel sys count m so_far iters (read_failed, t) = throw sys_error m t
after_read fuel sys count m so_far iters (bytes [], t) = throw logic_error m t
after_read fuel sys count m so_far iters (bytes (y ∷ ys), t) =
    read_loop fuel sys count t (store m so_far (y ∷ ys)) (so_far + length (y ∷ ys)) (iters + 1)

pub read_loop-after_read :
    {S : Type 0} (fuel : ℕ) (sys : Reader S) (count : ℕ) (s : S) (m : ℕ → ℕ) (so_far iters : ℕ)
    → ltb so_far count ≡ true
    → (a : ReadAnswer × S) → sys s (count - so_far) ≡ a
    → read_loop (suc fuel) sys count s m so_far iters ≡ after_read fuel sys count m so_far iters a
unfolding read_loop read
read_loop-after_read fuel sys count s m so_far iters go (read_failed, t) e = ground arith
read_loop-after_read fuel sys count s m so_far iters go (bytes [], t) e = ground arith
read_loop-after_read fuel sys count s m so_far iters go (bytes (y ∷ ys), t) e = ground arith

pub read_loop-stop :
    {S : Type 0} (fuel : ℕ) (sys : Reader S) (count : ℕ) (s : S) (m : ℕ → ℕ) (so_far iters : ℕ)
    → ltb so_far count ≡ false
    → read_loop (suc fuel) sys count s m so_far iters ≡ ok iters m s
unfolding read_loop
read_loop-stop fuel sys count s m so_far iters stop = rw (stop, read_loop)

read_round :
    {S : Type 0} (sys : Reader S)
    → IsReader sys
    → (fuel count : ℕ) (s : S) (m : ℕ → ℕ) (so_far iters : ℕ) → ltb so_far count ≡ true
    → ((t : S) (m' : ℕ → ℕ) (a i : ℕ)
        → a ≤ count
        → count < a + fuel
        → ReadFrom sys count t m' a i (read_loop fuel sys count t m' a i))
    → count < so_far + suc fuel
    → (a : ReadAnswer × S) → sys s (count - so_far) ≡ a
    → ReadFrom sys count s m so_far iters (after_read fuel sys count m so_far iters a)
read_round sys reader fuel count s m so_far iters go rest enough (read_failed, t) e =
    (0, [], s, no_reads, ground arith, refl, ap (λ n. sys s (count - n)) (omega arith) ∙ e)
read_round sys reader fuel count s m so_far iters go rest enough (bytes [], t) e =
    (0, [], s, no_reads, ground arith, refl, ap (λ n. sys s (count - n)) (omega arith) ∙ e)
read_round sys reader fuel count s m so_far iters go rest enough (bytes (y ∷ ys), t) e =
    let fits : length (y ∷ ys) ≤ count - so_far = reader s t (count - so_far) (y ∷ ys) e in
    let less : so_far < count = ground arith in
    ReadFrom-step sys count s t m so_far iters y ys e
      (read_loop fuel sys count t (store m so_far (y ∷ ys)) (so_far + length (y ∷ ys)) (iters + 1))
      (rest t (store m so_far (y ∷ ys)) (so_far + length (y ∷ ys)) (iters + 1) (omega arith)
        (omega arith))

read_loop-ReadFrom :
    {S : Type 0} (sys : Reader S)
    → IsReader sys
    → (fuel count : ℕ) (s : S) (m : ℕ → ℕ) (so_far iters : ℕ) → so_far ≤ count
    → count < so_far + fuel
    → ReadFrom sys count s m so_far iters (read_loop fuel sys count s m so_far iters)
read_loop-ReadFrom sys reader zero count s m so_far iters le enough = absurd (omega arith)
read_loop-ReadFrom {S} sys reader (suc fuel) count s m so_far iters le enough =
    elim (Bool-cases (ltb so_far count)) [
      | inr stop ↦
          subst (ReadFrom sys count s m so_far iters)
            (sym (read_loop-stop fuel sys count s m so_far iters stop))
            (0, [], no_reads, ground arith, refl, omega arith, omega arith)
      | inl go ↦
          subst (ReadFrom sys count s m so_far iters)
            (sym (
              read_loop-after_read fuel sys count s m so_far iters go (sys s (count - so_far))
                refl))
            (read_round sys reader fuel count s m so_far iters go
              (λ t m' a i. read_loop-ReadFrom sys reader fuel count t m' a i) enough
              (sys s (count - so_far)) refl)
    ]

-- What a call of readExact on a buffer with the memory `m` has done when it ends. If it returns, the
-- buffer's first `count` bytes are those that the calls of ::read gave, and the result is the number
-- of the calls, at most `count`. If it throws, the calls gave less than `count` bytes, these
-- are stored, and one more call gave the end of the file (logic_error) or failed (sys_error).
abbrev pub ReadExact : {S : Type 0} → Reader S → S → (ℕ → ℕ) → ℕ → Run S → Type 0
ReadExact sys s m count r = ReadFrom sys count s m 0 0 r

-- For every ::read that gives at most as many bytes as it is asked for, readExact ends, with fuel
-- above `count`. It returns when the calls of ::read have given exactly `count` bytes, which stand
-- in the buffer in their order, and returns the number of the calls, at most `count`; it throws
-- a logic_error if a call gives the end of the file before, or a sys_error if one fails, with the bytes so
-- far stored.
pub read_exact-ReadExact :
    {S : Type 0} (sys : Reader S)
    → IsReader sys
    → (fuel : ℕ) (s : S) (m : ℕ → ℕ) (count : ℕ) → count < fuel
    → ReadExact sys s m count (read_exact fuel sys s m count)
unfolding read_exact
read_exact-ReadExact sys reader fuel s m count enough =
    read_loop-ReadFrom sys reader fuel count s m 0 0 (omega arith) (omega arith)
