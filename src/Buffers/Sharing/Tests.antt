-- ===== src/Buffers/Sharing/Tests.antt =====
-- In a fresh table two buffers are made: the second is opened again, and the first is copied and
-- both of its objects destroyed.
use cppgenerics.Prelude.{some, ◌≡◌, refl, true, [], ◌∷◌, List, arith}
use cppgenerics.Buffers.Descriptors.{matches}
use cppgenerics.Buffers.Manager.{Buffer, find_atch, erase_atch}
use cppgenerics.Buffers.Tests.{os, later, fresh, drawn, drawn_later, three-IsLinked, no_refs}
use cppgenerics.Buffers.Sharing.{Use, created, opened, copied, destroyed, run, Users, run_spec}
use cppgenerics.Buffers.Sharing.Agreement.{Agrees, Keeps}
use cppgenerics.Buffers.Sharing.Counted.{run-Agrees}

abbrev first : Buffer
first = record { size = 16; ptr = 4096; sptr = 4100; descriptor = 0; is_creator = true }

abbrev none_there : Users
none_there = record {
  registry = record { free = 0 ∷ 1 ∷ 2 ∷ []; full = [] };
  users = λ _. 0;
  attached = [];
}

none_there-Agrees : Agrees 3 fresh none_there
none_there-Agrees = record {
  holds = record { linked = three-IsLinked; stored = tt };
  counted = no_refs;
  bounded = λ a. omega arith;
  attached = refl;
  in_use = λ a. refl;
}

abbrev ops : List Use
ops =
    created os (65 ∷ []) 16 4096
    ∷ created later (66 ∷ []) 8 8192
    ∷ opened os (66 ∷ []) 0
    ∷ copied first
    ∷ destroyed first
    ∷ destroyed first
    ∷ []

attached_there : find_atch 1 ((1, 8192) ∷ (0, 4096) ∷ []) ≡ some 8192
unfolding find_atch
attached_there = refl

run-Agrees_example : Keeps 3 (run 4 ops) fresh (run_spec ops none_there)
unfolding matches erase_atch
run-Agrees_example = run-Agrees 3 4 (omega arith) ops fresh none_there none_there-Agrees (
  (refl, omega arith, omega arith, omega arith, (100, 5, drawn, refl, refl)),
  (
    (refl, omega arith, omega arith, omega arith, (200, 5, drawn_later, refl, refl)),
    (
      (omega arith, omega arith, (8192, attached_there)),
      (
        (omega arith, omega arith),
        ((omega arith, λ h. (refl, refl)), ((omega arith, λ h. (refl, refl)), tt)),
      ),
    ),
  ),
)
