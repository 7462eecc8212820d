-- ===== src/MutexManager/Names.antt =====
-- The abstract view of the table of mutexes: a list of names.
use cppgenerics.Prelude.{
  ℕ, zero, suc, ◌+◌, ◌≤◌, ◌≡◌, refl, sym, ap, subst, ◌∙◌, Bool, true, false, Option, none, some,
  List, [], ◌∷◌, ◌++◌, take, same, length, ltb, ◌==◌, if◌then◌else◌, arith,
}
use cppgenerics.Buffers.Descriptors.{c_str}
use cppgenerics.MutexManager.{
  Table, descriptor_max_len, matches, is_free, find_loop, find_descriptor, find_free_descriptor,
  init_descriptor, new_mutex, Got, mutex, logic_error, make_mutex, get_found, get_mutex,
}

-- The first position from `i` on whose name passes the test.
abbrev pub position : (List ℕ → Bool) → List (List ℕ) → ℕ → Option ℕ
position test [] i = none
position test (n ∷ ns) i = let rest = position test ns (i + 1) in if test n then some i else rest

-- A mutex is the position of its name. A new name stands behind the others, if there is room.
abbrev pub new_name : ℕ → List ℕ → List (List ℕ) → Option ℕ × List (List ℕ)
new_name capacity id ns =
    if ltb (length ns) capacity
    then (some (length ns), ns ++ (take descriptor_max_len (c_str id) ∷ []))
    else (none, ns)

abbrev pub name : ℕ → List ℕ → List (List ℕ) → Option ℕ × List (List ℕ)
name capacity id ns = elim (position (matches id) ns 0) [
  | some i ↦ (some i, ns)
  | none ↦ new_name capacity id ns
]

abbrev pub names : ℕ → List (List ℕ) → List (List ℕ) → List (Option ℕ)
names capacity [] ns = []
names capacity (id ∷ ids) ns =
    let (given, ns') = name capacity id ns in given ∷ names capacity ids ns'

-- What a sequence of calls of getMutex gives; an exception is `none`.
abbrev pub given : Got → Option ℕ
given (mutex i b) = some i
given (logic_error b) = none

abbrev pub left : Got → Table
left (mutex i b) = b
left (logic_error b) = b

unfoldable pub get_mutexes : ℕ → List (List ℕ) → Table → List (Option ℕ)
unfolding get_mutex
get_mutexes capacity [] b = []
get_mutexes capacity (id ∷ ids) b =
    given (get_mutex capacity id b) ∷ get_mutexes capacity ids (left (get_mutex capacity id b))

-- The descriptors from `lo` on have these names, which are not empty, and the others are free.
abbrev pub Holds : Table → ℕ → List (List ℕ) → Type 0
Holds b lo [] = (j : ℕ) → lo ≤ j → (b j).id ≡ []
Holds b lo (n ∷ ns) = ((b lo).id ≡ n) × (is_free n ≡ false) × Holds b (lo + 1) ns

-- The ids are not empty C strings.
abbrev pub AreNames : List (List ℕ) → Type 0
AreNames [] = Unit {0}
AreNames (id ∷ ids) = (is_free (c_str id) ≡ false) × AreNames ids

loop_step :
    (test : List ℕ → Bool) (b : Table) (n lo : ℕ) (v : Bool)
    → test (b lo).id ≡ v
    → find_loop test b (suc n) lo ≡ (if v then some lo else find_loop test b n (lo + 1))
unfolding find_loop
loop_step test b n lo true e = rw (e, find_loop)
loop_step test b n lo false e = rw (e, find_loop)

find_loop-position :
    (test : List ℕ → Bool) (b : Table) (n lo : ℕ) (ns : List (List ℕ))
    → test [] ≡ false
    → Holds b lo ns
    → length ns ≤ n
    → find_loop test b n lo ≡ position test ns lo
unfolding find_loop
find_loop-position test b zero lo [] t h le = refl
find_loop-position test b zero lo (x ∷ ns) t h le = absurd (omega arith)
find_loop-position test b (suc n) lo [] t h le =
    loop_step test b n lo false (ap test (h lo (omega arith)) ∙ t)
    ∙ (find_loop-position test b n (lo + 1) [] t (λ j from. h j (omega arith)) (omega arith))
find_loop-position test b (suc n) lo (x ∷ ns) t (named, used, rest) le =
    let later = find_loop-position test b n (lo + 1) ns t rest (omega arith) in
    loop_step test b n lo (test x) (ap test named) ∙ ap (λ r. if test x then some lo else r) later

find_loop-free :
    (b : Table) (n lo : ℕ) (ns : List (List ℕ))
    → Holds b lo ns
    → length ns ≤ n
    → find_loop is_free b n lo ≡ (if ltb (length ns) n then some (lo + length ns) else none)
unfolding find_loop is_free
find_loop-free b zero lo [] h le = ground arith
find_loop-free b zero lo (x ∷ ns) h le = absurd (omega arith)
find_loop-free b (suc n) lo [] h le =
    loop_step is_free b n lo true (ap is_free (h lo (omega arith))) ∙ ground arith
find_loop-free b (suc n) lo (x ∷ ns) (named, used, rest) le =
    let later = find_loop-free b n (lo + 1) ns rest (omega arith) in
    loop_step is_free b n lo false (ap is_free named ∙ used) ∙ later ∙ ground arith

Holds-later :
    (b b' : Table) (lo : ℕ) (ns : List (List ℕ))
    → ((j : ℕ) → lo ≤ j → (b' j).id ≡ (b j).id)
    → Holds b lo ns
    → Holds b' lo ns
Holds-later b b' lo [] same_ids h = λ j from. same_ids j from ∙ h j from
Holds-later b b' lo (n ∷ ns) same_ids (named, used, rest) = (
  same_ids lo (omega arith) ∙ named,
  used,
  Holds-later b b' (lo + 1) ns (λ j from. same_ids j (omega arith)) rest,
)

-- The table with one more name.
Holds-added :
    (b b' : Table) (lo k : ℕ) (ns : List (List ℕ)) (n : List ℕ)
    → is_free n ≡ false
    → k ≡ lo + length ns
    → (b' k).id ≡ n
    → ((j : ℕ) → (j == k) ≡ false → (b' j).id ≡ (b j).id)
    → Holds b lo ns
    → Holds b' lo (ns ++ (n ∷ []))
Holds-added b b' lo k [] n used at named others h =
    let first : k ≡ lo = omega arith in
    (
      subst (λ i. (b' i).id ≡ n) first named,
      used,
      λ j from. others j (ground arith) ∙ h j (omega arith),
    )
Holds-added b b' lo k (x ∷ ns) n used at named others (named_x, used_x, rest) = (
  others lo (ground arith) ∙ named_x,
  used_x,
  Holds-added b b' (lo + 1) k ns n used (omega arith) named others rest,
)

length-added : (ns : List (List ℕ)) (n : List ℕ) → length (ns ++ (n ∷ [])) ≡ length ns + 1
length-added [] n = refl
length-added (x ∷ ns) n = omega (arith, length-added ns n)

stored_used : (id : List ℕ) → is_free id ≡ false → is_free (take descriptor_max_len id) ≡ false
unfolding is_free
stored_used [] used = used
stored_used (x ∷ xs) used = refl

not_same : (xs : List ℕ) → is_free xs ≡ false → same (take descriptor_max_len xs) [] ≡ false
unfolding is_free
not_same [] used = cc
not_same (x ∷ xs) used = refl

not_empty : (id : List ℕ) → is_free (c_str id) ≡ false → matches id [] ≡ false
unfolding matches
not_empty id used = not_same (c_str id) used

module _ (capacity : ℕ) (id : List ℕ) (used : is_free (c_str id) ≡ false) (ns : List (List ℕ))
    (b : Table) (h : Holds b 0 ns) (room : length ns ≤ capacity) where
  -- The same answer, and again a list of names.
  abbrev Simulates : Got → Option ℕ × List (List ℕ) → Type 0
  Simulates got (answer, ns') =
      (given got ≡ answer) × Holds (left got) 0 ns' × length ns' ≤ capacity

  make_mutex-Simulates :
      (v : Bool)
      → ltb (length ns) capacity ≡ v
      → Simulates (make_mutex id b (if v then some (0 + length ns) else none)) (
          if v
          then (some (length ns), ns ++ (take descriptor_max_len (c_str id) ∷ []))
          else (none, ns))
  unfolding make_mutex init_descriptor new_mutex
  make_mutex-Simulates true more = (
    ap some (omega arith),
    Holds-added b (left (make_mutex id b (some (0 + length ns)))) 0 (0 + length ns) ns
        (take descriptor_max_len (c_str id)) (stored_used (c_str id) used) refl (ground arith)
        (λ j ne. ground arith) h,
    ground (arith, length-added ns (take descriptor_max_len (c_str id)), more),
  )
  make_mutex-Simulates false full = (refl, h, room)

  get_found-Simulates :
      (r : Option ℕ)
      → Simulates
          (get_found capacity id b r)
          (elim r [ some i ↦ (some i, ns) | none ↦ new_name capacity id ns ])
  unfolding get_found find_free_descriptor
  get_found-Simulates (some i) = (refl, h, room)
  get_found-Simulates none =
      subst (λ r. Simulates (make_mutex id b r) (new_name capacity id ns))
        (sym (find_loop-free b capacity 0 ns h room))
        (make_mutex-Simulates (ltb (length ns) capacity) refl)

  get_mutex-Simulates : Simulates (get_mutex capacity id b) (name capacity id ns)
  unfolding get_mutex find_descriptor
  get_mutex-Simulates =
      subst (λ r. Simulates (get_found capacity id b r) (name capacity id ns))
        (sym (find_loop-position (matches id) b capacity 0 ns (not_empty id used) h room))
        (get_found-Simulates (position (matches id) ns 0))

-- From a table whose used descriptors come first, and hold these names, getMutex of any ids that are
-- not empty C strings
-- gives what a list of names gives: the position of the first name that equals the id in 50 bytes,
-- or else the end of the list, where the id then stands, or an exception where the capacity is
-- reached.
pub get_mutexes-names :
    (capacity : ℕ) (ids ns : List (List ℕ)) (b : Table)
    → AreNames ids
    → Holds b 0 ns
    → length ns ≤ capacity
    → get_mutexes capacity ids b ≡ names capacity ids ns
unfolding get_mutexes
get_mutexes-names capacity [] ns b used h room = refl
get_mutexes-names capacity (id ∷ ids) ns b (used_id, used) h room =
    let (same_answer, holds, fits) = get_mutex-Simulates capacity id used_id ns b h room in
    ap (λ x. x ∷ get_mutexes capacity ids (left (get_mutex capacity id b))) same_answer
    ∙ ap (λ xs. (name capacity id ns).0 ∷ xs)
        (get_mutexes-names capacity ids (name capacity id ns).1 (left (get_mutex capacity id b))
          used holds fits)
