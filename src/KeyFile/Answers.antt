-- ===== src/KeyFile/Answers.antt =====
-- The calls of processes on the segment that they have started with.
use cppgenerics.Prelude.{ℕ, ◌+◌, ◌<◌, ◌^◌, ◌≡◌, true, Option, none, List, []}
use cppgenerics.Buffers.Manager.{size_t}
use cppgenerics.Buffers.Init.{up}
use cppgenerics.Buffers.Registry.{Op, Registry, run, run_spec, AreLegal}
use cppgenerics.Buffers.Registry.Refine.{run_refines}
use cppgenerics.KeyFile.{ok}
use cppgenerics.KeyFile.Calls.{willing, is_used}
use cppgenerics.KeyFile.Manager.{Segment}
use cppgenerics.KeyFile.Start.{start_all, segment, started, fresh, start_all-IsLinked}

-- Nothing is reserved.
abbrev pub empty : ℕ → Registry
empty capacity = record { free = up 0 capacity; full = [] }

-- Where init can draw an absent key within its fuel, processes that start one after the other on an
-- empty key file, all system calls succeeding, end up with one segment; any operations on it that
-- release no index but those in use and not taken last are answered as the empty registry answers
-- them, with fuel for the searches above the capacity.
pub start_all-run_refines :
    (capacity fuel j n searches : ℕ) (draw : ℕ → ℕ) (segments : ℕ → Option Segment) (ops : List Op)
    → 0 < capacity
    → j < fuel
    → 0 < draw j
    → draw j < 2 ^ 32
    → segments (draw j) ≡ none
    → ((m : ℕ) → m < j → is_used (segments (draw m)) ≡ true)
    → capacity < searches
    → AreLegal ops (empty capacity)
    → (start_all n capacity fuel (willing draw) (fresh segments)
        ≡ ok (draw j) (started capacity (draw j) (size_t (n + 1)) segments))
      × (run searches ops (segment capacity (draw j) (size_t (n + 1))).shared
          ≡ run_spec ops (empty capacity))
start_all-run_refines capacity fuel j n searches draw segments ops some_room reached pos bound
      absent used enough legal =
    let (same, linked) =
      start_all-IsLinked capacity fuel j n draw segments some_room reached pos bound absent used in
    (
      same,
      run_refines capacity searches enough ops (segment capacity (draw j) (size_t (n + 1))).shared
          (empty capacity) (record { linked = linked; stored = tt }) legal,
    )
