-- ===== src/KeyFile/Tests.antt =====
-- Runs of the start-up through a key file.
use cppgenerics.Prelude.{
  ℕ, zero, suc, ◌+◌, ◌<◌, ◌≡◌, refl, true, false, Option, none, some, List, [], ◌∷◌, write, arith,
}
use cppgenerics.Buffers.Linked.{IsLinked}
use cppgenerics.Buffers.Init.{up}
use cppgenerics.Buffers.Manager.{size_t}
use cppgenerics.KeyFile.{World, int_bytes, ok, logic_error, with_key_file}
use cppgenerics.KeyFile.Session.{Ends, IsReleased, with_key_file-IsReleased}
use cppgenerics.KeyFile.Calls.{willing, is_used}
use cppgenerics.KeyFile.Manager.{Segment, blank, init}
use cppgenerics.KeyFile.Mutex.{init_using_file}
use cppgenerics.KeyFile.Start.{start_all, segment, started, fresh}
use cppgenerics.Buffers.Registry.{Op, reserve, release, search, run, run_spec}
use cppgenerics.KeyFile.Stop.{orderly, killed, end_all, start_all-end_all}
use cppgenerics.KeyFile.Raced.{raced, raced-two_mutexes}
use cppgenerics.KeyFile.Answers.{empty, start_all-run_refines}
use cppgenerics.KeyFile.Pair.{shared, unused, init_using_file-init_using_file}

abbrev draw : ℕ → ℕ
draw i = 40000 + i

-- Key 40000 is in use.
abbrev segments : ℕ → Option Segment
segments = write (λ k. none) 40000 (some blank)

with_key_file-IsReleased_example : Ends {A = ℕ} IsReleased (
    with_key_file
      (record (willing draw) { can_lock = false })
      (λ w. logic_error w)
      (fresh segments))
with_key_file-IsReleased_example =
    with_key_file-IsReleased (record (willing draw) { can_lock = false }) (λ w. logic_error w)
      (fresh segments) (refl, refl)

abbrev Two : Type 0
Two =
    (start_all 1 4 5 (willing draw) (fresh segments)
      ≡ ok 40001 (started 4 40001 (size_t (1 + 1)) segments))
    × IsLinked 4 (segment 4 40001 (size_t (1 + 1))).shared (up 0 4) []

only_first : (m : ℕ) → m < 1 → is_used (segments (draw m)) ≡ true
only_first zero h = refl
only_first (suc m) h = absurd (omega arith)

init_using_file-init_using_file_example :
    (init_using_file (willing draw) (unused (λ k. none)) ≡ ok 40000 (shared 40000 1 (λ k. none)))
    × (init_using_file (willing (λ i. i)) (shared 40000 0 (λ k. none))
        ≡ ok 40000 (shared 40000 0 (λ k. none)))
init_using_file-init_using_file_example =
    init_using_file-init_using_file draw (λ i. i) (λ k. none) 0 (omega arith) refl

-- A key file with one byte is junk.
junk :
    init 4 5 (willing draw) (record (fresh segments) { content = 7 ∷ [] })
    ≡ logic_error (record (fresh segments) { content = 7 ∷ [] })
unfolding init
junk = refl

abbrev ops : List Op
ops = reserve (65 ∷ []) 8 ∷ reserve (66 ∷ []) 8 ∷ release 0 ∷ search (66 ∷ []) ∷ []

start_all-run_refines_example :
    (start_all 1 4 5 (willing draw) (fresh segments)
      ≡ ok 40001 (started 4 40001 (size_t (1 + 1)) segments))
    × (run 5 ops (segment 4 40001 (size_t (1 + 1))).shared ≡ run_spec ops (empty 4))
start_all-run_refines_example =
    start_all-run_refines 4 5 1 1 5 draw segments ops (omega arith) (omega arith) (omega arith)
      (omega arith) refl only_first (omega arith) (tt, (tt, ((refl, refl), (tt, tt))))

-- Of two processes the first is killed.
start_all-end_all_example :
    (start_all 1 4 5 (willing draw) (fresh segments) ≡ ok 40001 (started 4 40001 (1 + 1) segments))
    × (end_all 4 40001 (killed ∷ orderly [] (λ a. 0) ∷ []) (started 4 40001 (1 + 1) segments)
        ≡ fresh segments)
start_all-end_all_example =
    start_all-end_all 4 5 1 1 draw segments (killed ∷ []) [] (λ a. 0) (omega arith) (omega arith)
      (omega arith) (omega arith) refl only_first refl (omega arith)

raced-two_mutexes_example :
    (w : World ℕ) × (raced (willing draw) (willing (λ i. 50000)) (unused (λ k. none))
      ≡ ok (40000, 50000) w)
    × (w.content ≡ int_bytes 50000)
    × (w.segments 40000 ≡ some 1)
    × (w.segments 50000 ≡ some 1)
raced-two_mutexes_example = raced-two_mutexes draw (λ i. 50000) (λ k. none) (omega arith) refl refl
