-- ===== src/Syscalls/Write.antt =====
-- writeExact passes all bytes to ::write, if each call takes some.
use cppgenerics.Prelude.{
  ℕ, zero, suc, ◌+◌, ◌≤◌, ◌<◌, ◌≡◌, refl, true, false, List, length, ltb, arith, inl, inr,
  Bool-cases, sym, subst, ◌∙◌, [], ◌∷◌,
}
use cppgenerics.Syscalls.{
  sys_error, WriteAnswer, write_failed, wrote, Writer, drop, Run, ok, throw, out_of_fuel,
  write_some, write_loop, write_exact,
}

-- `rounds` calls of ::write, each for all bytes of `xs` that are left, take the state from `s` to
-- `t` and the position from `so_far` to `end`.
pub data Writes {S : Type 0} (sys : Writer S) (xs : List ℕ) : S → ℕ → ℕ → ℕ → S → Type 0 where
  no_writes : {s : S} {so_far : ℕ} → Writes sys xs s so_far 0 so_far s
  one_write :
      {s t u : S} {so_far rounds end n : ℕ}
      → sys s (drop so_far xs) ≡ (wrote n, t)
      → Writes sys xs t (so_far + n) rounds end u
      → Writes sys xs s so_far (suc rounds) end u

-- ::write takes some of the bytes of a non-empty list, and at most all, or fails.
abbrev pub IsWriter : {S : Type 0} → Writer S → Type 0
IsWriter {S} sys =
    (s t : S) (xs : List ℕ) (n : ℕ)
    → sys s xs ≡ (wrote n, t)
    → 0 < length xs
    → (0 < n) × n ≤ length xs

-- What writeExact from the position `so_far` on has done when it ends.
abbrev pub WriteFrom : {S : Type 0} → Writer S → List ℕ → (ℕ → ℕ) → S → ℕ → ℕ → Run S → Type 0
WriteFrom {S} sys xs m s so_far iters (ok j m' t) =
    (rounds : ℕ) × Writes sys xs s so_far rounds (length xs) t
    × (m' ≡ m)
    × (j ≡ iters + rounds)
    × so_far + rounds ≤ length xs
WriteFrom {S} sys xs m s so_far iters (throw e m' t) =
    (rounds end : ℕ) × (u : S) × Writes sys xs s so_far rounds end u
    × end < length xs
    × (m' ≡ m)
    × (e ≡ sys_error)
    × (sys u (drop end xs) ≡ (write_failed, t))
WriteFrom sys xs m s so_far iters out_of_fuel = ⊥

WriteFrom-step :
    {S : Type 0} (sys : Writer S) (xs : List ℕ) (m : ℕ → ℕ) (s t : S) (so_far iters n : ℕ)
    → sys s (drop so_far xs) ≡ (wrote n, t)
    → 0 < n
    → (r : Run S) → WriteFrom sys xs m t (so_far + n) (iters + 1) r
    → WriteFrom sys xs m s so_far iters r
WriteFrom-step sys xs m s t so_far iters n e some_n (ok j m' u) (rounds, writes, mem, j_eq, few) =
    (suc rounds, one_write e writes, mem, omega arith, omega arith)
WriteFrom-step sys xs m s t so_far iters n e some_n (throw x m' u)
      (rounds, end, v, writes, short, mem, why, last) =
    (suc rounds, end, v, one_write e writes, short, mem, why, last)
WriteFrom-step sys xs m s t so_far iters n e some_n out_of_fuel x = elim x [ ]

-- What one round of the loop gives for an answer of ::write.
abbrev pub after_write :
    {S : Type 0} → ℕ → Writer S → List ℕ → (ℕ → ℕ) → ℕ → ℕ → WriteAnswer × S → Run S
after_write fuel sys xs m so_far iters (write_failed, t) = throw sys_error m t
after_write fuel sys xs m so_far iters (wrote n, t) =
    write_loop fuel sys xs m t (so_far + n) (iters + 1)

pub write_loop-after_write :
    {S : Type 0} (fuel : ℕ) (sys : Writer S) (xs : List ℕ) (m : ℕ → ℕ) (s : S) (so_far iters : ℕ)
    → ltb so_far (length xs) ≡ true
    → (a : WriteAnswer × S) → sys s (drop so_far xs) ≡ a
    → write_loop (suc fuel) sys xs m s so_far iters ≡ after_write fuel sys xs m so_far iters a
unfolding write_loop write_some
write_loop-after_write fuel sys xs m s so_far iters go (write_failed, t) e = ground arith
write_loop-after_write fuel sys xs m s so_far iters go (wrote n, t) e = ground arith

pub write_loop-stop :
    {S : Type 0} (fuel : ℕ) (sys : Writer S) (xs : List ℕ) (m : ℕ → ℕ) (s : S) (so_far iters : ℕ)
    → ltb so_far (length xs) ≡ false
    → write_loop (suc fuel) sys xs m s so_far iters ≡ ok iters m s
unfolding write_loop
write_loop-stop fuel sys xs m s so_far iters stop = rw (stop, write_loop)

pub length-drop : (n : ℕ) (xs : List ℕ) → n ≤ length xs → n + length (drop n xs) ≡ length xs
length-drop zero xs le = omega arith
length-drop (suc n) [] le = absurd (omega arith)
length-drop (suc n) (x ∷ xs) le = omega (arith, length-drop n xs (omega arith))

write_round :
    {S : Type 0} (sys : Writer S)
    → IsWriter sys
    → (fuel : ℕ) (xs : List ℕ) (m : ℕ → ℕ) (s : S) (so_far iters : ℕ) → so_far < length xs
    → length xs < so_far + suc fuel
    → ((t : S) (a i : ℕ)
        → a ≤ length xs
        → length xs < a + fuel
        → WriteFrom sys xs m t a i (write_loop fuel sys xs m t a i))
    → (a : WriteAnswer × S) → sys s (drop so_far xs) ≡ a
    → WriteFrom sys xs m s so_far iters (after_write fuel sys xs m so_far iters a)
write_round sys writer fuel xs m s so_far iters less enough rest (write_failed, t) e =
    (0, so_far, s, no_writes, less, refl, refl, e)
write_round sys writer fuel xs m s so_far iters less enough rest (wrote n, t) e =
    let left : so_far + length (drop so_far xs) ≡ length xs = length-drop so_far xs (omega arith) in
    let (more, fits) = writer s t (drop so_far xs) n e (omega arith) in
    WriteFrom-step sys xs m s t so_far iters n e more
      (write_loop fuel sys xs m t (so_far + n) (iters + 1))
      (rest t (so_far + n) (iters + 1) (omega arith) (omega arith))

write_loop-WriteFrom :
    {S : Type 0} (sys : Writer S)
    → IsWriter sys
    → (fuel : ℕ) (xs : List ℕ) (m : ℕ → ℕ) (s : S) (so_far iters : ℕ) → so_far ≤ length xs
    → length xs < so_far + fuel
    → WriteFrom sys xs m s so_far iters (write_loop fuel sys xs m s so_far iters)
write_loop-WriteFrom sys writer zero xs m s so_far iters le enough = absurd (omega arith)
write_loop-WriteFrom sys writer (suc fuel) xs m s so_far iters le enough =
    elim (Bool-cases (ltb so_far (length xs))) [
      | inr stop ↦
          let at_end : so_far ≡ length xs = ground arith in
          subst (WriteFrom sys xs m s so_far iters)
            (sym (write_loop-stop fuel sys xs m s so_far iters stop))
            (
              0,
              subst (λ end. Writes sys xs s so_far 0 end s) at_end no_writes,
              refl,
              omega arith,
              omega arith,
            )
      | inl go ↦
          subst (WriteFrom sys xs m s so_far iters)
            (sym (
              write_loop-after_write fuel sys xs m s so_far iters go (sys s (drop so_far xs)) refl))
            (write_round sys writer fuel xs m s so_far iters (ground arith) enough
              (λ t a i. write_loop-WriteFrom sys writer fuel xs m t a i) (sys s (drop so_far xs))
              refl)
    ]

-- For every ::write that takes some of the bytes it is passed or fails, writeExact ends, with fuel
-- above the number of the bytes. It returns when calls of ::write have taken all bytes, each called with
-- what the calls before it left, and returns the number of the calls, at most that of the bytes; it
-- throws a sys_error if a call fails before. The buffer does not change.
pub write_exact-WriteFrom :
    {S : Type 0} (sys : Writer S)
    → IsWriter sys
    → (fuel : ℕ) (s : S) (m : ℕ → ℕ) (xs : List ℕ) → length xs < fuel
    → WriteFrom sys xs m s 0 0 (write_exact fuel sys s m xs)
unfolding write_exact
write_exact-WriteFrom sys writer fuel s m xs enough =
    write_loop-WriteFrom sys writer fuel xs m s 0 0 (omega arith) (omega arith)

write_loop-stuck :
    {S : Type 0} (sys : Writer S) (xs : List ℕ) (m : ℕ → ℕ)
    → ((s : S) (ys : List ℕ) → (t : S) × (sys s ys ≡ (wrote 0, t)))
    → 0 < length xs
    → (fuel : ℕ) (s : S) (iters : ℕ) → write_loop fuel sys xs m s 0 iters ≡ out_of_fuel
unfolding write_loop
write_loop-stuck sys xs m zeros more zero s iters = refl
write_loop-stuck sys xs m zeros more (suc fuel) s iters =
    let (t, e) = zeros s xs in
    write_loop-after_write fuel sys xs m s 0 iters (ground arith) (wrote 0, t) e
    ∙ write_loop-stuck sys xs m zeros more fuel t (iters + 1)

-- If every call of ::write takes no byte, writeExact of a non-empty list does not end: no fuel is
-- enough.
pub write_exact-stuck :
    {S : Type 0} (sys : Writer S) (s : S) (m : ℕ → ℕ) (xs : List ℕ)
    → ((s : S) (ys : List ℕ) → (t : S) × (sys s ys ≡ (wrote 0, t)))
    → 0 < length xs
    → (fuel : ℕ) → write_exact fuel sys s m xs ≡ out_of_fuel
unfolding write_exact
write_exact-stuck sys s m xs zeros more fuel = write_loop-stuck sys xs m zeros more fuel s 0
