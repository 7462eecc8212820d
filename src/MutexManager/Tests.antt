-- ===== src/MutexManager/Tests.antt =====
-- A table of three descriptors, the first in use.
use cppgenerics.Prelude.{ℕ, zero, suc, ◌+◌, ◌≤◌, ◌≡◌, refl, none, some, List, [], ◌∷◌, write, arith}
use cppgenerics.MutexManager.{Table, get_mutex, mutex, is_free}
use cppgenerics.MutexManager.Get.{FirstOf, GetMutex, get_mutex-GetMutex}
use cppgenerics.MutexManager.Names.{Holds, names, get_mutexes, get_mutexes-names}

abbrev one_used : Table
one_used zero = record { ftx = 1; id = 65 ∷ [] }
one_used (suc i) = record { ftx = 0; id = [] }

abbrev two_used : Table
two_used =
    write (write one_used 1 (record { ftx = 0; id = 66 ∷ [] })) 1 (record { ftx = 1; id = 66 ∷ [] })

made : get_mutex 3 (66 ∷ []) one_used ≡ mutex 1 two_used
unfolding get_mutex
made = refl

first_free : FirstOf is_free one_used 0 3 (some 1)
unfolding is_free
first_free = (refl, omega arith, omega arith, λ j from below. ground arith)

get_mutex-GetMutex_example : GetMutex 3 (66 ∷ []) one_used (get_mutex 3 (66 ∷ []) one_used)
get_mutex-GetMutex_example = get_mutex-GetMutex 3 (66 ∷ []) one_used

one_used-Holds : Holds one_used 0 ((65 ∷ []) ∷ [])
unfolding is_free
one_used-Holds = (refl, refl, empty_later)
  where
    empty_later : (j : ℕ) → 0 + 1 ≤ j → (one_used j).id ≡ []
    empty_later zero from = absurd (omega arith)
    empty_later (suc j) from = refl

abbrev ids : List (List ℕ)
ids = (66 ∷ []) ∷ (65 ∷ []) ∷ (66 ∷ []) ∷ (67 ∷ []) ∷ (68 ∷ []) ∷ []

get_mutexes-names_example : get_mutexes 3 ids one_used ≡ names 3 ids ((65 ∷ []) ∷ [])
unfolding is_free
get_mutexes-names_example =
    get_mutexes-names 3 ids ((65 ∷ []) ∷ []) one_used (refl, (refl, (refl, (refl, (refl, tt)))))
      one_used-Holds (omega arith)

answers : get_mutexes 3 ids one_used ≡ some 1 ∷ some 0 ∷ some 1 ∷ some 2 ∷ none ∷ []
unfolding get_mutexes
answers = refl
