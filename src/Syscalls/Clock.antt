-- ===== src/Syscalls/Clock.antt =====
-- nanoSleep, getCurUsecs and timeStr of src/Syscalls.cpp. The code computes with doubles: their
-- operations are a parameter, with what IEEE 754 says of whole numbers below 2^53.
use cppgenerics.Prelude.{
  ℕ, ◌+◌, ◌*◌, ◌/◌, ◌%◌, ◌^◌, ◌<◌, ◌≡◌, ap, ◌∙◌, Option, none, some, List, [], ◌∷◌, ℤ, pos, negsuc,
  arith, if◌then◌else◌, ◌==◌, ◌↔◌,
}
use cppgenerics.Syscalls.Wrappers.{Result, returns, throws, time, failure}

-- A whole number as a double, the operations, and the conversion to an integer type, which
-- truncates.
pub record Doubles (D : Type 0) : Type 0 where
  pub of : ℕ → D
  pub add : D → D → D
  pub mul : D → D → D
  pub div : D → D → D
  pub trunc : D → ℕ
  pub trunc-of : (n : ℕ) → n < 2 ^ 53 → trunc (of n) ≡ n
  pub add-of : (m n : ℕ) → m + n < 2 ^ 53 → add (of m) (of n) ≡ of (m + n)
  pub mul-of : (m n : ℕ) → m * n < 2 ^ 53 → mul (of m) (of n) ≡ of (m * n)
  pub trunc-div : (m n : ℕ) → m < 2 ^ 53 → 0 < n → n < 2 ^ 53 → trunc (div (of m) (of n)) ≡ m / n

abbrev pub giga : ℕ
giga = 1000000000

abbrev pub mega : ℕ
mega = 1000000

pub record Timespec : Type 0 where
  pub tv_sec : ℕ
  pub tv_nsec : ℕ

module _ {D : Type 0} (d : Doubles D) where
  -- The timespec that nanoSleep makes of a uint64_t.
  unfoldable pub to_timespec : ℕ → Timespec
  to_timespec nanosecs = record {
    tv_sec = d.trunc (d.div (d.of nanosecs) (d.of giga));
    tv_nsec = nanosecs % giga;
  }

  -- nanoSleep, on a system call that sleeps and gives 0 or -1.
  unfoldable pub nano_sleep : (Timespec → ℤ) → ℕ → Result
  unfolding to_timespec
  nano_sleep nanosleep nanosecs = elim (nanosleep (to_timespec nanosecs)) [
    | pos n ↦ returns 0
    | negsuc n ↦ if n == 0 then throws else returns 0
  ]

  -- getCurUsecs, from what gettimeofday gives: -1, or the time.
  unfoldable pub get_cur_usecs : Option (ℕ × ℕ) → Result
  get_cur_usecs none = throws
  get_cur_usecs (some (tv_sec, tv_usec)) =
      returns (d.trunc (d.add (d.mul (d.of tv_sec) (d.of mega)) (d.of tv_usec)))

  to_timespec-exact :
      (n : ℕ)
      → n < 2 ^ 53
      → ((to_timespec n).tv_sec * giga + (to_timespec n).tv_nsec ≡ n)
        × ((to_timespec n).tv_nsec < giga)
  unfolding to_timespec
  to_timespec-exact n small =
      let e = d.trunc-div n giga small (omega arith) (omega arith) in
      (rw e (omega arith), omega arith)

  -- Below 2^53 nanoseconds, 104 days, nanoSleep asks for just these, with less than a second in
  -- tv_nsec, as the system call demands, and throws exactly when the system call gives -1.
  nano_sleep-exact :
      (nanosleep : Timespec → ℤ) (n : ℕ)
      → n < 2 ^ 53
      → (t : Timespec) × (t.tv_sec * giga + t.tv_nsec ≡ n)
        × (t.tv_nsec < giga)
        × ((nano_sleep nanosleep n ≡ throws) ↔ (nanosleep t ≡ failure))
  unfolding nano_sleep
  nano_sleep-exact nanosleep n small =
      let (whole, below) = to_timespec-exact n small in (to_timespec n, whole, below, ground arith)

  -- getCurUsecs gives the microseconds of the time, while these are below 2^53.
  get_cur_usecs-exact :
      (sec usec : ℕ)
      → sec * mega + usec < 2 ^ 53
      → get_cur_usecs (some (sec, usec)) ≡ returns (sec * mega + usec)
  unfolding get_cur_usecs
  get_cur_usecs-exact sec usec small =
      ap (λ x. returns (d.trunc (d.add x (d.of usec)))) (d.mul-of sec mega (omega arith))
      ∙ ap (λ x. returns (d.trunc x)) (d.add-of (sec * mega) usec small)
      ∙ ap returns (d.trunc-of (sec * mega + usec) small)

-- The erase of the last byte, the newline that asctime writes; of an empty text it is undefined.
unfoldable pub chop : List ℕ → Option (List ℕ)
chop [] = none
chop (x ∷ []) = some []
chop (x ∷ y ∷ ys) = elim (chop (y ∷ ys)) [ none ↦ none | some zs ↦ some (x ∷ zs) ]

-- timeStr, from what ::time returns, with asctime(localtime(·)).
unfoldable pub time_str : (ℕ → List ℕ) → ℤ → Option (Option (List ℕ))
unfolding chop
time_str text now = elim (time now) [
  | throws ↦ some none
  | returns t ↦ elim (chop (text t)) [ none ↦ none | some zs ↦ some (some zs) ]
]
