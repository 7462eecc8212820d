-- ===== src/Syscalls/WriteNt.antt =====
-- writeExact_nt beside writeExact.
use cppgenerics.Prelude.{
  ℕ, zero, suc, ◌+◌, ◌≤◌, ◌<◌, ◌≡◌, refl, true, false, Option, List, length, ltb, arith, inl, inr,
  Bool-cases, ◌∙◌, subst, pos, negsuc,
}
use cppgenerics.Syscalls.{
  WriteAnswer, write_failed, wrote, Writer, drop, write_loop, write_exact, NtRun, returned, assign,
  write_loop_nt, write_exact_nt,
}
use cppgenerics.Syscalls.Write.{
  IsWriter, after_write, write_loop-after_write, write_loop-stop, length-drop,
}
use cppgenerics.Syscalls.ReadNt.{SameEnd, SameEnd-subst, assign-assign}

abbrev after_write_nt :
    {S : Type 0} → ℕ → Writer S → List ℕ → (ℕ → ℕ) → Option ℕ → ℕ → ℕ → WriteAnswer × S → NtRun S
after_write_nt fuel sys xs m d so_far iters (write_failed, t) = returned (negsuc 0) m d t
after_write_nt fuel sys xs m d so_far iters (wrote n, t) =
    write_loop_nt fuel sys xs m t (assign d (so_far + n)) (so_far + n) (iters + 1)

module _ {S : Type 0} (sys : Writer S) (xs : List ℕ) (m : ℕ → ℕ) where
  write_loop_nt-stop :
      (fuel : ℕ) (s : S) (d : Option ℕ) (so_far iters : ℕ)
      → ltb so_far (length xs) ≡ false
      → write_loop_nt (suc fuel) sys xs m s d so_far iters ≡ returned (pos iters) m d s
  unfolding write_loop_nt
  write_loop_nt-stop fuel s d so_far iters stop = rw (stop, write_loop_nt)

  write_loop_nt-after_write_nt :
      (fuel : ℕ) (s : S) (d : Option ℕ) (so_far iters : ℕ)
      → ltb so_far (length xs) ≡ true
      → (a : WriteAnswer × S) → sys s (drop so_far xs) ≡ a
      → write_loop_nt (suc fuel) sys xs m s d so_far iters
        ≡ after_write_nt fuel sys xs m d so_far iters a
  unfolding write_loop_nt
  write_loop_nt-after_write_nt fuel s d so_far iters go (write_failed, t) e = ground arith
  write_loop_nt-after_write_nt fuel s d so_far iters go (wrote n, t) e = ground arith

  module _ (writer : IsWriter sys) (p : Option ℕ) where
    -- The two loops at the same point, with `d` what bytesSuccWritten points to.
    abbrev Agree : ℕ → Type 0
    Agree fuel =
        (s : S) (d : Option ℕ) (so_far iters : ℕ)
        → so_far ≤ length xs
        → ((x : ℕ) → assign d x ≡ assign p x)
        → (0 < so_far → d ≡ assign p so_far)
        → SameEnd (length xs) p (write_loop fuel sys xs m s so_far iters)
            (write_loop_nt fuel sys xs m s d so_far iters)

    round_same :
        (fuel : ℕ)
        → Agree fuel
        → (s : S) (d : Option ℕ) (so_far iters : ℕ) → so_far < length xs
        → ((x : ℕ) → assign d x ≡ assign p x)
        → (a : WriteAnswer × S) → sys s (drop so_far xs) ≡ a
        → SameEnd
            (length xs)
            p
            (after_write fuel sys xs m so_far iters a)
            (after_write_nt fuel sys xs m d so_far iters a)
    round_same fuel rest s d so_far iters less same (write_failed, t) e = (d, refl)
    round_same fuel rest s d so_far iters less same (wrote n, t) e =
        let left = length-drop so_far xs (omega arith) in
        let (more, fits) = writer s t (drop so_far xs) n e (omega (arith, left)) in
        rest t (assign d (so_far + n)) (so_far + n) (iters + 1) (omega (arith, left))
          (λ x. assign-assign d (so_far + n) x ∙ same x) (λ h. same (so_far + n))

    loops-Agree : (fuel : ℕ) → Agree fuel
    unfolding write_loop write_loop_nt
    loops-Agree zero s d so_far iters le same last = refl
    loops-Agree (suc fuel) s d so_far iters le same last =
        elim (Bool-cases (ltb so_far (length xs))) [
          | inr stop ↦
              let at_end : so_far ≡ length xs = ground arith in
              SameEnd-subst (length xs) p (write_loop-stop fuel sys xs m s so_far iters stop)
                (write_loop_nt-stop fuel s d so_far iters stop)
                (d, refl, λ h. subst (λ c. 0 < c → d ≡ assign p c) at_end last h)
          | inl go ↦
              SameEnd-subst (length xs) p
                (write_loop-after_write fuel sys xs m s so_far iters go (sys s (drop so_far xs))
                  refl)
                (write_loop_nt-after_write_nt fuel s d so_far iters go (sys s (drop so_far xs))
                  refl)
                (round_same fuel (loops-Agree fuel) s d so_far iters (ground arith) same
                  (sys s (drop so_far xs)) refl)
        ]

-- For every ::write that takes some of the bytes that it is passed, and no more, writeExact_nt leaves
-- the state that writeExact leaves, and ends whenever that does. Where writeExact returns, it returns
-- the same number, and has stored the number of bytes at bytesSuccWritten if that is not the null
-- pointer and there are bytes. It returns -1 where writeExact throws.
write_exact_nt-SameEnd :
    {S : Type 0} (sys : Writer S)
    → IsWriter sys
    → (fuel : ℕ) (s : S) (m : ℕ → ℕ) (p : Option ℕ) (xs : List ℕ)
    → SameEnd (length xs) p (write_exact fuel sys s m xs) (write_exact_nt fuel sys s m p xs)
unfolding write_exact write_exact_nt
write_exact_nt-SameEnd sys writer fuel s m p xs =
    loops-Agree sys xs m writer p fuel s p 0 0 (omega arith) (λ x. refl) (λ h. absurd (omega arith))
