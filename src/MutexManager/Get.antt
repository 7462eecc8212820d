-- ===== src/MutexManager/Get.antt =====
-- getMutex gives one mutex for each id.
use cppgenerics.Prelude.{
  ℕ, zero, suc, ◌+◌, ◌≤◌, ◌<◌, ◌≡◌, ◌≢◌, refl, Bool, true, false, Option, none, some, List, [], ◌∷◌,
  take, same_refl, arith, eq_self, ◌⊎◌, inl, inr, Bool-cases, sym, subst, ap,
}
use cppgenerics.Buffers.Descriptors.{c_str}
use cppgenerics.MutexManager.{
  Table, descriptor_max_len, matches, is_free, find_loop, find_descriptor, find_free_descriptor,
  init_descriptor, new_mutex, Got, mutex, logic_error, make_mutex, get_found, get_mutex,
}

-- The first index from `lo` on and below `hi` whose id passes the test, or none if there is none.
abbrev pub FirstOf : (List ℕ → Bool) → Table → ℕ → ℕ → Option ℕ → Type 0
FirstOf test b lo hi none = (j : ℕ) → lo ≤ j → j < hi → test (b j).id ≡ false
FirstOf test b lo hi (some i) =
    (test (b i).id ≡ true) × lo ≤ i × i < hi × ((j : ℕ) → lo ≤ j → j < i → test (b j).id ≡ false)

FirstOf-later :
    (test : List ℕ → Bool) (b : Table) (lo hi : ℕ)
    → test (b lo).id ≡ false
    → (r : Option ℕ) → FirstOf test b (lo + 1) hi r
    → FirstOf test b lo hi r
FirstOf-later test b lo hi e none h = λ j from below. elim (Bool-cases (test (b j).id)) [
  | inr no_match ↦ no_match
  | inl match ↦
      let other : lo ≢ j = λ same_j. cc (e, match, ap (λ x. test (b x).id) same_j) in
      h j (omega arith) below
]
FirstOf-later test b lo hi e (some i) (yes_i, from, below, before) = (
  yes_i,
  omega arith,
  below,
  λ j lo_j j_i. elim (Bool-cases (test (b j).id)) [
    | inr no_match ↦ no_match
    | inl match ↦
        let other : lo ≢ j = λ same_j. cc (e, match, ap (λ x. test (b x).id) same_j) in
        before j (omega arith) j_i
  ],
)

pub find_loop-FirstOf :
    (test : List ℕ → Bool) (b : Table) (n lo : ℕ)
    → FirstOf test b lo (lo + n) (find_loop test b n lo)
unfolding find_loop
find_loop-FirstOf test b zero lo = λ j from below. absurd (omega arith)
find_loop-FirstOf test b (suc n) lo =
    let hi : lo + 1 + n ≡ lo + suc n = omega arith in
    let rest : FirstOf test b (lo + 1) (lo + suc n) (find_loop test b n (lo + 1)) =
      subst (λ x. FirstOf test b (lo + 1) x (find_loop test b n (lo + 1))) hi
        (find_loop-FirstOf test b n (lo + 1)) in
    elim (Bool-cases (test (b lo).id)) [
      | inl match ↦
          let e : find_loop test b (suc n) lo ≡ some lo = rw (match, find_loop) in
          subst (FirstOf test b lo (lo + suc n)) (sym e)
            (match, omega arith, omega arith, λ j from below. absurd (omega arith))
      | inr differs ↦
          let e : find_loop test b (suc n) lo ≡ find_loop test b n (lo + 1) =
            rw (differs, find_loop) in
          subst (FirstOf test b lo (lo + suc n)) (sym e)
            (FirstOf-later test b lo (lo + suc n) differs (find_loop test b n (lo + 1)) rest)
    ]

find_all-FirstOf :
    (test : List ℕ → Bool) (b : Table) (n : ℕ) → FirstOf test b 0 n (find_loop test b n 0)
find_all-FirstOf test b n =
    let whole : 0 + n ≡ n = omega arith in
    subst (λ hi. FirstOf test b 0 hi (find_loop test b n 0)) whole (find_loop-FirstOf test b n 0)

FirstOf-unique :
    (test : List ℕ → Bool) (b : Table) (hi i : ℕ)
    → FirstOf test b 0 hi (some i)
    → (r : Option ℕ) → FirstOf test b 0 hi r
    → r ≡ some i
FirstOf-unique test b hi i (match, from, below, before) none h = cc (match, h i (omega arith) below)
FirstOf-unique test b hi i (match, from, below, before) (some k)
      (match_k, from_k, below_k, before_k) =
    ground (arith, before k, before_k i)

-- What getMutex of an id does. The descriptor is the first with the id, and nothing changes; or
-- there is none with the id, and the first free one gets the id and the word 1 and no other changes;
-- or there is no free one either, and it throws and nothing changes.
abbrev pub GetMutex : ℕ → List ℕ → Table → Got → Type 0
GetMutex capacity id b (mutex i b') =
    (FirstOf (matches id) b 0 capacity (some i) × (b' ≡ b))
    ⊎ (FirstOf (matches id) b 0 capacity none
        × FirstOf is_free b 0 capacity (some i)
        × ((b' i).ftx ≡ 1)
        × ((b' i).id ≡ take descriptor_max_len (c_str id))
        × ((j : ℕ) → j ≢ i → b' j ≡ b j))
GetMutex capacity id b (logic_error b') =
    FirstOf (matches id) b 0 capacity none × FirstOf is_free b 0 capacity none × (b' ≡ b)

make_mutex-GetMutex :
    (capacity : ℕ) (id : List ℕ) (b : Table)
    → FirstOf (matches id) b 0 capacity none
    → (r : Option ℕ) → FirstOf is_free b 0 capacity r
    → GetMutex capacity id b (make_mutex id b r)
unfolding make_mutex init_descriptor new_mutex
make_mutex-GetMutex capacity id b new none full = (new, full, refl)
make_mutex-GetMutex capacity id b new (some i) first =
    inr (new, first, rw (eq_self i), rw (eq_self i), λ j ne. ground arith)

get_found-GetMutex :
    (capacity : ℕ) (id : List ℕ) (b : Table) (r : Option ℕ)
    → FirstOf (matches id) b 0 capacity r
    → GetMutex capacity id b (get_found capacity id b r)
unfolding get_found find_free_descriptor
get_found-GetMutex capacity id b none new =
    make_mutex-GetMutex capacity id b new (find_free_descriptor capacity b)
      (find_all-FirstOf is_free b capacity)
get_found-GetMutex capacity id b (some i) first = inl (first, refl)

-- getMutex gives the first descriptor that has the id and changes nothing; if none has it, it gives
-- the first free one, which gets the first 50 bytes of the id before its first NUL and the word 1, and changes no other; if none is free
-- either, it throws and changes nothing.
pub get_mutex-GetMutex :
    (capacity : ℕ) (id : List ℕ) (b : Table) → GetMutex capacity id b (get_mutex capacity id b)
unfolding get_mutex find_descriptor
get_mutex-GetMutex capacity id b =
    get_found-GetMutex capacity id b (find_descriptor capacity id b)
      (find_all-FirstOf (matches id) b capacity)

take-take : (n : ℕ) (xs : List ℕ) → take n (take n xs) ≡ take n xs
take-take zero xs = refl
take-take (suc n) [] = refl
take-take (suc n) (x ∷ xs) = ap (λ ys. x ∷ ys) (take-take n xs)

matches-stored : (id : List ℕ) → matches id (take descriptor_max_len (c_str id)) ≡ true
unfolding matches
matches-stored id =
    rw (take-take descriptor_max_len (c_str id)) (same_refl (take descriptor_max_len (c_str id)))

again :
    (capacity : ℕ) (id : List ℕ) (b : Table) (i : ℕ)
    → FirstOf (matches id) b 0 capacity (some i)
    → get_mutex capacity id b ≡ mutex i b
unfolding get_mutex get_found find_descriptor
again capacity id b i first =
    rw
      (FirstOf-unique (matches id) b capacity i first (find_descriptor capacity id b)
        (find_all-FirstOf (matches id) b capacity))
      refl

found_again :
    (capacity : ℕ) (id : List ℕ) (b b' : Table) (i : ℕ)
    → GetMutex capacity id b (mutex i b')
    → FirstOf (matches id) b' 0 capacity (some i)
found_again capacity id b b' i (inl (first, same_b)) =
    subst (λ x. FirstOf (matches id) x 0 capacity (some i)) (sym same_b) first
found_again capacity id b b' i (inr (new, (free, from, below, before), one, named, others)) = (
  rw named (matches-stored id),
  from,
  below,
  λ j lo j_i. rw (others j (omega arith)) (new j lo (omega arith)),
)

-- When getMutex of an id has given a mutex, the next getMutex of the id gives the same one and
-- changes nothing.
get_mutex-again :
    (capacity : ℕ) (id : List ℕ) (b b' : Table) (i : ℕ)
    → get_mutex capacity id b ≡ mutex i b'
    → get_mutex capacity id b' ≡ mutex i b'
get_mutex-again capacity id b b' i e = again capacity id b' i (
    found_again capacity id b b' i
      (subst (GetMutex capacity id b) e (get_mutex-GetMutex capacity id b)))

-- If some descriptor is free, getMutex of the empty id gives the first free one as a mutex that
-- exists, and changes nothing.
get_mutex-empty :
    (capacity : ℕ) (b : Table) (i : ℕ)
    → FirstOf is_free b 0 capacity (some i)
    → get_mutex capacity [] b ≡ mutex i b
unfolding is_free matches
get_mutex-empty capacity b i (free, from, below, before) =
    again capacity [] b i
      (empty_id (b i).id free, from, below, λ j lo j_i. named_id (b j).id (before j lo j_i))
  where
    empty_id : (xs : List ℕ) → is_free xs ≡ true → matches [] xs ≡ true
    empty_id [] e = refl
    empty_id (x ∷ xs) e = cc

    named_id : (xs : List ℕ) → is_free xs ≡ false → matches [] xs ≡ false
    named_id [] e = cc
    named_id (x ∷ xs) e = refl
