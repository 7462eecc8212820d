-- ===== src/Buffers/Descriptors.antt =====
-- The shared memory of IPC::BufferManager and its two index lists: BufferDescriptor and
-- BufferManager_Control of IPC_Buffer.h; initDescriptors, getDescriptor, getFreeDescriptor and
-- putFreeDescriptor of IPC_BufferManager.cpp. A `list_idx_t` is `none` for -1 and `some i` for i,
-- since the code stores no other negative index. m_mainStorage is a function of the index.
use cppgenerics.Prelude.{
  ℕ, zero, suc, ◌+◌, ◌-◌, Bool, Option, none, some, List, [], ◌∷◌, if◌then◌else◌, ◌==◌, write, take,
  same,
}

abbrev pub Idx : Type 0
Idx = Option ℕ

abbrev pub descriptor_max_len : ℕ
descriptor_max_len = 50

-- `id` holds the bytes before the terminating NUL.
pub record BufferDescriptor : Type 0 where
  pub shm_key : ℕ
  pub bytes : ℕ
  pub ref_count : ℕ
  pub next_idx : Idx
  pub prev_idx : Idx
  pub id : List ℕ

pub record Control : Type 0 where
  pub shm_key : ℕ
  pub ref_count : ℕ
  pub next_free_idx : Idx
  pub next_full_idx : Idx

-- A descriptor but for its two indices.
abbrev pub content : BufferDescriptor → BufferDescriptor
content d = record d { next_idx = none; prev_idx = none }

abbrev pub Storage : Type 0
Storage = ℕ → BufferDescriptor

pub record Shared : Type 0 where
  pub control : Control
  pub main_storage : Storage

-- What memset leaves: every byte 0, the two indices too.
abbrev pub zeroed : BufferDescriptor
zeroed = record {
  shm_key = 0;
  bytes = 0;
  ref_count = 0;
  next_idx = some 0;
  prev_idx = some 0;
  id = [];
}

-- `if (i != -1) m_mainStorage[i].nextIdx = v;`
abbrev pub set_next : Idx → Idx → Storage → Storage
set_next none v m = m
set_next (some i) v m = write m i (record (m i) { next_idx = v })

-- `if (i != -1) m_mainStorage[i].prevIdx = v;`
abbrev pub set_prev : Idx → Idx → Storage → Storage
set_prev none v m = m
set_prev (some i) v m = write m i (record (m i) { prev_idx = v })

-- The two guarded writes under "Removing from prev list"; the second reads the descriptor again.
unfoldable pub unlink : ℕ → Storage → Storage
unlink i m =
    let m1 = set_next (m i).prev_idx (m i).next_idx m in set_prev (m1 i).next_idx (m1 i).prev_idx m1

-- BufferManager::initDescriptors, over the descriptors of a fresh segment.
unfoldable pub chained : ℕ → BufferDescriptor → BufferDescriptor
chained i d = record d {
  next_idx = some (i + 1);
  prev_idx = (if i == 0 then none else some (i - 1));
}

unfoldable pub init_loop : ℕ → Storage → Storage
unfolding chained
init_loop zero m = m
init_loop (suc n) m = let before = init_loop n m in write before n (chained n (before n))

unfoldable pub init_descriptors : ℕ → Storage → Storage
unfolding init_loop
init_descriptors capacity m = set_next (some (capacity - 1)) none (init_loop capacity m)

-- The part under "Switching ret": `i` is put before the first full descriptor.
unfoldable pub push_full : ℕ → Idx → Storage → Storage
push_full i none m = set_next (some i) none m
push_full i (some p) m =
    set_next (some i) (some p) (set_prev (some i) none (set_prev (some p) (some i) m))

-- BufferManager::getFreeDescriptor, from the index of the first free descriptor.
unfoldable pub take_free : ℕ → Shared → Shared
unfolding unlink push_full
take_free i s =
    let m = unlink i s.main_storage in
    let prev_full = s.control.next_full_idx in
    let c = record s.control { next_full_idx = some i; next_free_idx = (m i).next_idx } in
    record { control = c; main_storage = push_full i prev_full m }

unfoldable pub get_free_descriptor : Shared → Idx × Shared
unfolding take_free
get_free_descriptor s = elim s.control.next_free_idx [
  | none ↦ (none, s)
  | some i ↦ (some i, take_free i s)
]

-- The end of putFreeDescriptor. nextFreeIdx is assigned in the branch for -1 alone.
unfoldable pub first_free : ℕ → Idx → Idx
first_free i none = some i
first_free i (some p) = some p

-- Its writes to the descriptors: `i` points to the first free one, which points back.
unfoldable pub push_free : ℕ → Idx → Storage → Storage
push_free i none m = set_prev (some i) none (set_next (some i) none m)
push_free i (some p) m =
    set_prev (some i) none (set_next (some i) (some p) (set_prev (some p) (some i) m))

-- BufferManager::putFreeDescriptor.
unfoldable pub put_free_descriptor : ℕ → Shared → Shared
unfolding unlink first_free push_free
put_free_descriptor i s = record {
  control = record s.control { next_free_idx = first_free i s.control.next_free_idx };
  main_storage = push_free i s.control.next_free_idx (write (unlink i s.main_storage) i zeroed);
}

-- What a C string gives of a std::string: the bytes before the first NUL.
abbrev pub c_str : List ℕ → List ℕ
c_str [] = []
c_str (x ∷ xs) = if x == 0 then [] else x ∷ c_str xs

-- `!strncmp(id.c_str(), stored, IPC_BUFFER_DESCRIPTOR_MAX_LEN)`.
unfoldable pub matches : List ℕ → List ℕ → Bool
matches id stored = same (take descriptor_max_len (c_str id)) (take descriptor_max_len stored)

-- How the walk of getDescriptor ends. The source's loop has no bound: here it runs on fuel.
pub data Search : Type 0 where
  found : ℕ → Search
  missing : Search
  out_of_fuel : Search

unfoldable pub search_from : ℕ → List ℕ → Storage → ℕ → Search
unfolding matches
search_from zero id m i = out_of_fuel
search_from (suc fuel) id m i =
    let rest : Search = elim (m i).next_idx [ none ↦ missing | some j ↦ search_from fuel id m j ] in
    if matches id (m i).id then found i else rest

-- BufferManager::getDescriptor.
unfoldable pub get_descriptor : ℕ → List ℕ → Shared → Search
unfolding search_from
get_descriptor fuel id s = elim s.control.next_full_idx [
  | none ↦ missing
  | some i ↦ search_from fuel id s.main_storage i
]
