-- ===== src/Buffers/Registry/Tests.antt =====
-- Three descriptors under reservations, a release and searches.
use cppgenerics.Prelude.{◌≡◌, refl, none, some, List, [], ◌∷◌, arith}
use cppgenerics.Buffers.Descriptors.{
  Shared, zeroed, init_descriptors, get_free_descriptor, get_descriptor, put_free_descriptor, found,
  missing,
}
use cppgenerics.Buffers.Init.{new_control, init_descriptors-IsLinked}
use cppgenerics.Buffers.Registry.{
  Op, reserve, release, search, reserved, released, answer, Registry, step, run, run_spec,
}
use cppgenerics.Buffers.Registry.Refine.{Holds, run_refines, step_refines}
use cppgenerics.Buffers.Registry.Lost.{NeverReserved, run-put_free_descriptor}

abbrev three : Shared
three = record { control = new_control 7; main_storage = init_descriptors 3 (λ _. zeroed) }

abbrev all_free : Registry
all_free = record { free = 0 ∷ 1 ∷ 2 ∷ []; full = [] }

three-Holds : Holds 3 three all_free
three-Holds = record {
  linked = init_descriptors-IsLinked 3 7 (λ _. zeroed) (omega arith);
  stored = tt;
}

abbrev calls : List Op
calls =
    reserve (65 ∷ []) 8
    ∷ reserve (66 ∷ []) 8
    ∷ release 0
    ∷ search (65 ∷ [])
    ∷ reserve (67 ∷ []) 8
    ∷ search (66 ∷ [])
    ∷ []

replies :
    run 4 calls three
    ≡ reserved (some 0)
      ∷ reserved (some 1)
      ∷ released
      ∷ answer missing
      ∷ reserved (some 2)
      ∷ answer (found 1)
      ∷ []
unfolding run get_free_descriptor get_descriptor init_descriptors put_free_descriptor
replies = refl

run_refines_example : run 4 calls three ≡ run_spec calls all_free
run_refines_example =
    run_refines 3 4 (omega arith) calls three all_free three-Holds
      (tt, (tt, ((refl, refl), (tt, (tt, (tt, tt))))))

-- The first two descriptors are in use.
abbrev two : Shared
two = (step 4 (reserve (66 ∷ []) 8) (step 4 (reserve (65 ∷ []) 8) three).1).1

abbrev later_calls : List Op
later_calls = reserve (67 ∷ []) 8 ∷ reserve (68 ∷ []) 8 ∷ search (66 ∷ []) ∷ []

two-Holds : Holds 3 two (record { free = 2 ∷ []; full = (1, 66 ∷ []) ∷ (0, 65 ∷ []) ∷ [] })
two-Holds =
    (step_refines 3 4 (omega arith) (reserve (66 ∷ []) 8) _ _
      (step_refines 3 4 (omega arith) (reserve (65 ∷ []) 8) three all_free three-Holds tt).1 tt).1

run-put_free_descriptor_example : NeverReserved 0 (run 4 later_calls (put_free_descriptor 0 two))
run-put_free_descriptor_example =
    run-put_free_descriptor 3 4 0 2 later_calls two [] ((1, 66 ∷ []) ∷ (0, 65 ∷ []) ∷ [])
      (omega arith) two-Holds (refl, refl) (tt, (tt, (tt, tt)))

-- The second of them finds no free descriptor, though 0 is not in use.
replies_later :
    run 4 later_calls (put_free_descriptor 0 two)
    ≡ reserved (some 2) ∷ reserved none ∷ answer (found 1) ∷ []
unfolding run get_free_descriptor get_descriptor init_descriptors put_free_descriptor
replies_later = refl
