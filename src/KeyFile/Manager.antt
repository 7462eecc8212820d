-- ===== src/KeyFile/Manager.antt =====
-- The start-up of BufferManager in src/IPC_BufferManager.cpp: a segment holds the futex word of m_mtx, the
-- control block and the descriptors. The result is the key of the segment that m_control points to.
-- The count is raised between lock and unlock of m_mtx, hence in one step.
use cppgenerics.Prelude.{ℕ, zero, suc, ◌+◌, none, some, List, if◌then◌else◌, ◌==◌, length, write}
use cppgenerics.Buffers.Descriptors.{Shared, zeroed, init_descriptors}
use cppgenerics.Buffers.Manager.{size_t}
use cppgenerics.Buffers.Init.{new_control}
use cppgenerics.KeyFile.{
  Host, ok, logic_error, hangs, M, ◌>>=◌, ◌>>◌, pure, require, with_key_file, read_key, write_key,
  create_segment, find_segment, int_bytes, bytes_int,
}

pub record Segment : Type 0 where
  pub futex : ℕ
  pub shared : Shared

-- What a new segment holds: every byte 0.
abbrev pub blank : Segment
blank = record {
  futex = 0;
  shared = record {
    control = record { shm_key = 0; ref_count = 0; next_free_idx = some 0; next_full_idx = some 0 };
    main_storage = λ i. zeroed;
  };
}

abbrev pub modify : ℕ → (Segment → Segment) → M Segment (Unit {0})
modify key f w = elim (w.segments key) [
  | none ↦ ok tt w
  | some seg ↦ ok tt (record w { segments = write w.segments key (some (f seg)) })
]

-- BufferManager::allocShmKey from the i-th draw on: a key that no segment has.
unfoldable pub absent_key : ℕ → Host → ℕ → M Segment ℕ
absent_key zero host i w = hangs
absent_key (suc fuel) host i w =
    let rest = absent_key fuel host (suc i) w in
    elim (w.segments (host.draw i)) [ none ↦ ok (host.draw i) w | some seg ↦ rest ]

-- What initPointers writes in a new segment.
unfoldable pub write_control : ℕ → Segment → Segment
write_control key seg = record {
  futex = 1;
  shared = record seg.shared { control = new_control key };
}

-- `++(m_control->ref_count)`.
unfoldable pub count_one : Segment → Segment
count_one seg = record seg {
  shared = record seg.shared {
    control = record seg.shared.control { ref_count = size_t (seg.shared.control.ref_count + 1) };
  };
}

-- initDescriptors on the descriptors of a segment.
unfoldable pub chain : ℕ → Segment → Segment
chain capacity seg = record seg {
  shared = record seg.shared { main_storage = init_descriptors capacity seg.shared.main_storage };
}

unfoldable pub create_control : ℕ → Host → M Segment ℕ
unfolding absent_key create_segment write_control
create_control fuel host = do
  key ← absent_key fuel host 0
  create_segment key blank
  require host.can_attach
  modify key (write_control key)
  pure key

unfoldable pub join_control : Host → ℕ → M Segment ℕ
unfolding find_segment count_one
join_control host key = do
  seg ← find_segment key
  require host.can_attach
  modify key count_one
  pure key

-- BufferManager::initPointers.
unfoldable pub init_pointers : ℕ → Host → ℕ → M Segment ℕ
unfolding create_control join_control
init_pointers fuel host shm_key =
    if shm_key == 0 then create_control fuel host else join_control host shm_key

unfoldable pub init_new : ℕ → ℕ → Host → M Segment ℕ
unfolding init_pointers chain write_key int_bytes
init_new capacity fuel host = do
  key ← init_pointers fuel host 0
  modify key (chain capacity)
  write_key host (int_bytes key)
  pure key

unfoldable pub control_from : ℕ → ℕ → Host → List ℕ → M Segment ℕ
unfolding init_new init_pointers bytes_int
control_from capacity fuel host bytes =
    if length bytes == 0
    then init_new capacity fuel host
    else if length bytes == 4
    then init_pointers fuel host (bytes_int bytes)
    else λ w. logic_error w

-- BufferManager::init.
unfoldable pub init : ℕ → ℕ → Host → M Segment ℕ
unfolding with_key_file read_key control_from
init capacity fuel host = with_key_file host (read_key host >>= control_from capacity fuel host)
