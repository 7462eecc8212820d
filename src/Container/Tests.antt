-- ===== src/Container/Tests.antt =====
-- Runs of a container of two-byte elements.
use cppgenerics.Prelude.{◌/◌, ◌≡◌, true, some, [], ◌∷◌, arith}
use cppgenerics.Buffers.Manager.{Buffer, ok}
use cppgenerics.Buffers.Tests.{os, fresh, made}
use cppgenerics.Container.{new_container, visit, begin, end}
use cppgenerics.Container.Elements.{elements, AreWithin, visit-elements}
use cppgenerics.Container.Sized.{visit-new_container}

abbrev four : Buffer
four = record { size = 9; ptr = 100; sptr = 104; descriptor = 0; is_creator = true }

visit-elements_example :
    (visit 5 2 (begin four) (end 2 four) ≡ some (elements 2 104 0 (9 / 2)))
    × AreWithin four 2 (elements 2 104 0 (9 / 2))
visit-elements_example = visit-elements 5 2 four (omega arith) (omega arith)

visit-new_container_example :
    (new_container 4 os 2 (65 ∷ []) 8 fresh ≡ ok (some made.0) made.1)
    × (visit 9 2 (begin made.0) (end 2 made.0) ≡ some (elements 2 (made.0).sptr 0 8))
visit-new_container_example =
    visit-new_container 3 4 9 2 8 0 4096 os (65 ∷ []) (1 ∷ 2 ∷ []) [] fresh made.1 made.0
      (omega arith) (omega arith) (omega arith) made.2 made.3
