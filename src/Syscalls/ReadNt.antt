-- ===== src/Syscalls/ReadNt.antt =====
-- readExact_nt does what readExact does, with other results.
use cppgenerics.Prelude.{
  ℕ, zero, suc, ◌+◌, ◌-◌, ◌≤◌, ◌<◌, ◌≡◌, refl, true, false, Option, none, some, [], ◌∷◌, length,
  ltb, arith, inl, inr, Bool-cases, sym, ◌∙◌, subst, pos, negsuc,
}
use cppgenerics.Syscalls.{
  logic_error, sys_error, ReadAnswer, read_failed, bytes, Reader, store, Run, ok, throw,
  out_of_fuel, read_loop, read_exact, NtRun, returned, nt_out_of_fuel, assign, read_loop_nt,
  read_exact_nt,
}
use cppgenerics.Syscalls.Read.{IsReader, after_read, read_loop-after_read, read_loop-stop}

-- How readExact_nt ends where readExact ends like the first argument, for a pointer bytesSuccRead to
-- `p`: where readExact returns, so does readExact_nt, and has stored `count` if that is not 0;
-- at the end of the file it returns 0, and -1 where ::read fails.
abbrev pub SameEnd : {S : Type 0} → ℕ → Option ℕ → Run S → NtRun S → Type 0
SameEnd count p (ok j m t) r =
    (d : Option ℕ) × (r ≡ returned (pos j) m d t) × (0 < count → d ≡ assign p count)
SameEnd count p (throw logic_error m t) r = (d : Option ℕ) × (r ≡ returned (pos 0) m d t)
SameEnd count p (throw sys_error m t) r = (d : Option ℕ) × (r ≡ returned (negsuc 0) m d t)
SameEnd count p out_of_fuel r = r ≡ nt_out_of_fuel

abbrev after_read_nt :
    {S : Type 0} → ℕ → Reader S → ℕ → (ℕ → ℕ) → Option ℕ → ℕ → ℕ → ReadAnswer × S → NtRun S
after_read_nt fuel sys count m d so_far iters (read_failed, t) = returned (negsuc 0) m d t
after_read_nt fuel sys count m d so_far iters (bytes [], t) = returned (pos 0) m d t
after_read_nt fuel sys count m d so_far iters (bytes (y ∷ ys), t) =
    read_loop_nt fuel sys count t (store m so_far (y ∷ ys)) (assign d (so_far + length (y ∷ ys)))
      (so_far + length (y ∷ ys)) (iters + 1)

read_loop_nt-after_read_nt :
    {S : Type 0} (fuel : ℕ) (sys : Reader S) (count : ℕ) (s : S) (m : ℕ → ℕ) (d : Option ℕ)
    (so_far iters : ℕ)
    → ltb so_far count ≡ true
    → (a : ReadAnswer × S) → sys s (count - so_far) ≡ a
    → read_loop_nt (suc fuel) sys count s m d so_far iters
      ≡ after_read_nt fuel sys count m d so_far iters a
unfolding read_loop_nt
read_loop_nt-after_read_nt fuel sys count s m d so_far iters go (read_failed, t) e = ground arith
read_loop_nt-after_read_nt fuel sys count s m d so_far iters go (bytes [], t) e = ground arith
read_loop_nt-after_read_nt fuel sys count s m d so_far iters go (bytes (y ∷ ys), t) e = ground arith

read_loop_nt-stop :
    {S : Type 0} (fuel : ℕ) (sys : Reader S) (count : ℕ) (s : S) (m : ℕ → ℕ) (d : Option ℕ)
    (so_far iters : ℕ)
    → ltb so_far count ≡ false
    → read_loop_nt (suc fuel) sys count s m d so_far iters ≡ returned (pos iters) m d s
unfolding read_loop_nt
read_loop_nt-stop fuel sys count s m d so_far iters stop = rw (stop, read_loop_nt)

pub assign-assign : (p : Option ℕ) (a b : ℕ) → assign (assign p a) b ≡ assign p b
assign-assign none a b = refl
assign-assign (some x) a b = refl

pub SameEnd-subst :
    {S : Type 0} (count : ℕ) (p : Option ℕ) {r r' : Run S} {n n' : NtRun S}
    → r ≡ r'
    → n ≡ n'
    → SameEnd count p r' n'
    → SameEnd count p r n
SameEnd-subst count p {r} {r'} {n} {n'} e f same =
    subst (λ x. SameEnd count p x n) (sym e) (subst (SameEnd count p r') (sym f) same)

module _ {S : Type 0} (sys : Reader S) (reader : IsReader sys) (count : ℕ) (p : Option ℕ) where
  -- The two loops at the same point, with `d` what bytesSuccRead points to.
  abbrev Agree : ℕ → Type 0
  Agree fuel =
      (s : S) (m : ℕ → ℕ) (d : Option ℕ) (so_far iters : ℕ)
      → so_far ≤ count
      → ((x : ℕ) → assign d x ≡ assign p x)
      → (0 < so_far → d ≡ assign p so_far)
      → SameEnd count p (read_loop fuel sys count s m so_far iters)
          (read_loop_nt fuel sys count s m d so_far iters)

  round_same :
      (fuel : ℕ)
      → Agree fuel
      → (s : S) (m : ℕ → ℕ) (d : Option ℕ) (so_far iters : ℕ) → so_far ≤ count
      → ((x : ℕ) → assign d x ≡ assign p x)
      → (a : ReadAnswer × S) → sys s (count - so_far) ≡ a
      → SameEnd count p
          (after_read fuel sys count m so_far iters a)
          (after_read_nt fuel sys count m d so_far iters a)
  round_same fuel rest s m d so_far iters le same (read_failed, t) e = (d, refl)
  round_same fuel rest s m d so_far iters le same (bytes [], t) e = (d, refl)
  round_same fuel rest s m d so_far iters le same (bytes (y ∷ ys), t) e =
      let fits : length (y ∷ ys) ≤ count - so_far = reader s t (count - so_far) (y ∷ ys) e in
      let next : ℕ = so_far + length (y ∷ ys) in
      rest t (store m so_far (y ∷ ys)) (assign d next) next (iters + 1) (omega arith)
        (λ x. assign-assign d next x ∙ same x) (λ _. same next)

  loops-Agree : (fuel : ℕ) → Agree fuel
  unfolding read_loop read_loop_nt
  loops-Agree zero s m d so_far iters le same last = refl
  loops-Agree (suc fuel) s m d so_far iters le same last = elim (Bool-cases (ltb so_far count)) [
    | inr stop ↦
        let at_end : so_far ≡ count = ground arith in
        SameEnd-subst count p (read_loop-stop fuel sys count s m so_far iters stop)
          (read_loop_nt-stop fuel sys count s m d so_far iters stop)
          (d, refl, λ h. subst (λ c. 0 < c → d ≡ assign p c) at_end last h)
    | inl go ↦
        SameEnd-subst count p
          (read_loop-after_read fuel sys count s m so_far iters go (sys s (count - so_far)) refl)
          (read_loop_nt-after_read_nt fuel sys count s m d so_far iters go (sys s (count - so_far))
            refl)
          (round_same fuel (loops-Agree fuel) s m d so_far iters le same (sys s (count - so_far))
            refl)
  ]

-- For every ::read that gives at most as many bytes as it is asked for, readExact_nt leaves the memory
-- and the state that readExact leaves, and ends whenever that does. Where
-- readExact returns, it returns the same number, and has stored `count` at bytesSuccRead if that is
-- not the null pointer and `count` is not 0. It returns 0 where readExact throws at the end of the
-- file, and -1 where readExact throws for a failed ::read.
pub read_exact_nt-SameEnd :
    {S : Type 0} (sys : Reader S)
    → IsReader sys
    → (fuel : ℕ) (s : S) (m : ℕ → ℕ) (p : Option ℕ) (count : ℕ)
    → SameEnd count p (read_exact fuel sys s m count) (read_exact_nt fuel sys s m p count)
unfolding read_exact read_exact_nt
read_exact_nt-SameEnd sys reader fuel s m p count =
    loops-Agree sys reader count p fuel s m p 0 0 (omega arith) (λ x. refl)
      (λ h. absurd (omega arith))
