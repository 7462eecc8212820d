-- ===== src/BitBuffer/Find.antt =====
-- BitBuffer::find of src/BitBuffer.cpp: the first free region, or none.
use cppgenerics.Prelude.{
  ℕ, zero, suc, ◌+◌, ◌-◌, ◌^◌, ◌≤◌, ◌<◌, ◌≡◌, ◌≢◌, ◌⊎◌, inl, inr, refl, ◌∙◌, Bool, true, false,
  if◌then◌else◌, ◌==◌, ltb, arith, Bool-cases, ℤ, pos, negsuc, to_int,
}
use cppgenerics.BitBuffer.{
  Access, ok, logic_error, undefined, BitBuffer, get, check_number, find_loop, find, ◌>>=◌,
}
use cppgenerics.BitBuffer.GetSet.{high-undefined}

-- A view of the buffer: `free` gives what get returns at each index of the buffer.
abbrev pub Reads : BitBuffer → (ℕ → Bool) → Type 0
Reads b free = (i : ℕ) → i < b.num_elements → get b i ≡ ok (free i)

-- `num` free elements from `s` on, inside a buffer of `n`.
pub record IsRegion (n : ℕ) (free : ℕ → Bool) (s num : ℕ) : Type 0 where
  pub inside : s + num ≤ n
  pub all_free : (i : ℕ) → s ≤ i → i < s + num → free i ≡ true

-- Some element of those from `s` on is taken.
abbrev Blocked : (ℕ → Bool) → ℕ → ℕ → Type 0
Blocked free s num = (i : ℕ) × (s ≤ i) × (i < s + num) × (free i ≡ false)

-- What the loop knows at `cur`: the last `found` elements are free, and no region begins earlier.
record Scanned (free : ℕ → Bool) (num found after cur : ℕ) : Type 0 where
  fits : found ≤ num
  behind : found ≤ cur
  after_run : found ≢ 0 → after ≡ cur
  at_start : cur ≡ 0 → after ≡ 0
  run : (i : ℕ) → cur ≤ i + found → i < cur → free i ≡ true
  blocked : (s : ℕ) → s + found < cur → Blocked free s num

-- How the loop ends, at some index.
abbrev Ended : BitBuffer → (ℕ → Bool) → ℕ → Access (ℕ × ℕ) → Type 0
Ended b free num (ok (found, after)) =
    (cur : ℕ) × Scanned free num found after cur
    × (cur ≤ b.num_elements)
    × ((found ≡ num) ⊎ (cur ≡ b.num_elements))
Ended b free num logic_error = ⊥
Ended b free num undefined = ⊥

module _ (b : BitBuffer) (free : ℕ → Bool) (num : ℕ) (reads : Reads b free) where
  Scanned-free :
      (found after cur : ℕ)
      → Scanned free num found after cur
      → found < num
      → free cur ≡ true
      → Scanned free num (found + 1) (cur + 1) (cur + 1)
  Scanned-free found after cur s more here = record {
    fits = omega arith;
    behind = omega (arith, s.behind);
    after_run = λ _. refl;
    at_start = λ e. absurd (omega arith);
    run = λ i lo hi. elim (Bool-cases (i == cur)) [
      | inl last ↦ ground arith
      | inr before ↦ s.run i (omega arith) (ground arith)
    ];
    blocked = λ t h. s.blocked t (omega arith);
  }

  Scanned-taken :
      (found after cur : ℕ)
      → Scanned free num found after cur
      → found < num
      → free cur ≡ false
      → Scanned free num 0 after (cur + 1)
  Scanned-taken found after cur s more here = record {
    fits = omega arith;
    behind = omega arith;
    after_run = λ ne. absurd (ne refl);
    at_start = λ e. absurd (omega arith);
    run = λ i lo hi. absurd (omega arith);
    blocked = λ t h. elim (Bool-cases (ltb (t + found) cur)) [
      | inl early ↦ s.blocked t (ground arith)
      | inr late ↦ (cur, ground arith, ground arith, here)
    ];
  }

  find_loop-Ended :
      (rounds found after cur : ℕ)
      → cur + rounds ≡ b.num_elements
      → Scanned free num found after cur
      → Ended b free num (find_loop b num rounds found after cur)
  unfolding find_loop
  find_loop-Ended zero found after cur e s = (cur, s, omega arith, inr (omega arith))
  find_loop-Ended (suc rounds) found after cur e s = elim (Bool-cases (ltb found num)) [
    | inr done ↦ rw done (cur, s, omega arith, inl (ground (arith, s.fits)))
    | inl more ↦
        rw (more, reads cur (omega arith))
          (elim (Bool-cases (free cur)) [
            | inl here ↦ rw here (
                find_loop-Ended rounds (found + 1) (cur + 1) (cur + 1) (omega arith)
                  (Scanned-free found after cur s (ground arith) here))
            | inr here ↦ rw here (
                find_loop-Ended rounds 0 after (cur + 1) (omega arith)
                  (Scanned-taken found after cur s (ground arith) here))
          ])
  ]

-- What find promises: the least start of a free region, or -1 if there is none.
abbrev pub FirstRegion : BitBuffer → (ℕ → Bool) → ℕ → Access ℤ → Type 0
FirstRegion b free num (ok (pos s)) =
    IsRegion b.num_elements free s num × ((t : ℕ) → IsRegion b.num_elements free t num → s ≤ t)
FirstRegion b free num (ok (negsuc k)) = (k ≡ 0) × ((t : ℕ) → ¬ IsRegion b.num_elements free t num)
FirstRegion b free num logic_error = ⊥
FirstRegion b free num undefined = ⊥

not-Blocked : (n : ℕ) (free : ℕ → Bool) (t num : ℕ) → IsRegion n free t num → ¬ Blocked free t num
not-Blocked n free t num r (i, lo, hi, taken) = ground (arith, r.all_free i)

module _ (b : BitBuffer) (free : ℕ → Bool) (num found after cur : ℕ)
    (small : b.num_elements < 2 ^ 31) (s : Scanned free num found after cur)
    (le : cur ≤ b.num_elements) where
  -- A complete run ends at `cur`.
  end : found ≡ num → after ≡ cur
  end full = elim (Bool-cases (found == 0)) [
    | inr some_found ↦ s.after_run (ground arith)
    | inl none_found ↦ elim (Bool-cases (cur == 0)) [
      | inl first ↦ s.at_start (ground arith) ∙ ground arith
      | inr later ↦ let (i, lo, hi, taken) = s.blocked 0 (ground arith) in absurd (ground arith)
    ]
  ]

  result : found ≡ num → to_int (after + 2 ^ 64 - num) ≡ pos (cur - num)
  result full = ground (arith, end full, s.behind)

  complete :
      found ≡ num
      → IsRegion b.num_elements free (cur - num) num
        × ((t : ℕ) → IsRegion b.num_elements free t num → cur - num ≤ t)
  complete full = (
    record {
      inside = omega (arith, s.behind);
      all_free = λ i lo hi. s.run i (omega (arith, s.behind)) (omega (arith, s.behind));
    },
    λ t r. elim (Bool-cases (ltb t (cur - num))) [
      | inr after ↦ ground arith
      | inl before ↦ absurd (not-Blocked b.num_elements free t num r (s.blocked t (ground arith)))
    ],
  )

  none_left : found ≢ num → cur ≡ b.num_elements → (t : ℕ) → ¬ IsRegion b.num_elements free t num
  none_left short at_end t r =
      not-Blocked b.num_elements free t num r (s.blocked t (ground (arith, s.fits, r.inside)))

conclude :
    (b : BitBuffer) (free : ℕ → Bool) (num : ℕ) (r : Access (ℕ × ℕ))
    → b.num_elements < 2 ^ 31
    → Ended b free num r
    → FirstRegion b free num (
        r >>= λ (found, after).
        ok (if found == num then to_int (after + 2 ^ 64 - num) else negsuc 0))
conclude b free num (ok (found, after)) small (cur, s, le, why) = elim (Bool-cases (found == num)) [
  | inl full ↦
      let e : found ≡ num = ground arith in
      rw (full, result b free num found after cur small s le e)
        (complete b free num found after cur small s le e)
  | inr short ↦
      rw short (refl, none_left b free num found after cur small s le (ground arith) (ground arith))
]
conclude b free num logic_error small ended = ended
conclude b free num undefined small ended = ended

-- Of a buffer that can be read and has fewer than 2 ^ 31 elements, find returns the index of the
-- first region of `num` free elements, and -1 exactly if there is none.
pub find-FirstRegion :
    (b : BitBuffer) (free : ℕ → Bool) (num : ℕ)
    → Reads b free
    → b.num_elements < 2 ^ 31
    → num ≤ b.num_elements
    → FirstRegion b free num (find b num)
unfolding find check_number
find-FirstRegion b free num reads small enough =
    let checked : ltb b.num_elements num ≡ false = ground arith in
    rw checked (
      conclude b free num (find_loop b num b.num_elements 0 0 0) small (
        find_loop-Ended b free num reads b.num_elements 0 0 0 (omega arith) (record {
          fits = omega arith;
          behind = omega arith;
          after_run = λ ne. absurd (ne refl);
          at_start = λ _. refl;
          run = λ i lo hi. absurd (omega arith);
          blocked = λ t h. absurd (omega arith);
        })))

-- A request of more elements than the buffer has is refused.
pub find-logic_error : (b : BitBuffer) (num : ℕ) → b.num_elements < num → find b num ≡ logic_error
unfolding find check_number
find-logic_error b num h = ground arith

find_loop-undefined :
    (b : BitBuffer) (num k cur rounds after : ℕ)
    → cur + k ≡ 32
    → cur + rounds ≡ b.num_elements
    → 32 < b.num_elements
    → 32 < num
    → ((i : ℕ) → i < 32 → get b i ≡ ok true)
    → get b 32 ≡ undefined
    → find_loop b num rounds cur after cur ≡ undefined
unfolding find_loop
find_loop-undefined b num k cur zero after e f large wide free bad = absurd (omega arith)
find_loop-undefined b num zero cur (suc rounds) after e f large wide free bad =
    let last : cur ≡ 32 = omega arith in
    let more : ltb 32 num ≡ true = ground arith in rw last (rw more (rw bad))
find_loop-undefined b num (suc k) cur (suc rounds) after e f large wide free bad =
    let more : ltb cur num ≡ true = ground arith in
    rw more (
      rw (free cur (omega arith)) (
        find_loop-undefined b num k (cur + 1) rounds (cur + 1) (omega arith) (omega arith) large
          wide free bad))

-- A request of more than 32 elements that meets 32 free ones at the start is undefined: the loop
-- reads bit 32.
pub find-undefined :
    (b : BitBuffer) (num : ℕ)
    → b.num_elements < 2 ^ 64
    → 32 < num
    → num ≤ b.num_elements
    → ((i : ℕ) → i < 32 → get b i ≡ ok true)
    → find b num ≡ undefined
unfolding find check_number
find-undefined b num size wide enough free =
    let checked : ltb b.num_elements num ≡ false = ground arith in
    let bad : get b 32 ≡ undefined =
      (high-undefined b 32 true (omega arith) size (omega arith)).0 in
    rw checked (
      rw (
        find_loop-undefined b num 32 0 b.num_elements 0 (omega arith) (omega arith) (omega arith)
          wide free bad))
