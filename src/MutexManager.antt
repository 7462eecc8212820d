-- ===== src/MutexManager.antt =====
-- IPC::MutexManager of include/cppgenerics/IPC_MutexManager.h and src/IPC_MutexManager.cpp: the table
-- of named mutexes in a shared buffer. A descriptor is its word and the bytes of its id before the
-- terminating NUL. An id is the bytes of a std::string, of which c_str gives those before the first
-- NUL.

mod Tests
pub mod Get
pub mod Names
use cppgenerics.Prelude.{
  ℕ, zero, suc, ◌+◌, ◌*◌, Bool, true, false, Option, none, some, List, [], ◌∷◌, take, same, write,
}
use cppgenerics.Buffers.Descriptors.{c_str}
use cppgenerics.Buffers.Manager.{Os, M, Slot, size_t}
use cppgenerics.Buffers.Manager.Held.{hold}

abbrev pub descriptor_max_len : ℕ
descriptor_max_len = 50

pub record MutexDescriptor : Type 0 where
  pub ftx : ℕ
  pub id : List ℕ

abbrev pub Table : Type 0
Table = ℕ → MutexDescriptor

-- `!strncmp(id.c_str(), b[i].m_id, IPC_MUTEXMANAGER_DESCRIPTOR_MAX_LEN)`.
unfoldable pub matches : List ℕ → List ℕ → Bool
matches id stored = same (take descriptor_max_len (c_str id)) (take descriptor_max_len stored)

-- `!b[i].m_id[0]`.
unfoldable pub is_free : List ℕ → Bool
is_free [] = true
is_free (x ∷ xs) = false

-- The loops of findDescriptor and findFreeDescriptor over the ids: the first of the `n` descriptors
-- from `i` on that passes the test.
unfoldable pub find_loop : (List ℕ → Bool) → Table → ℕ → ℕ → Option ℕ
find_loop test b zero i = none
find_loop test b (suc n) i =
    let rest = find_loop test b n (i + 1) in elim (test (b i).id) [ true ↦ some i | false ↦ rest ]

-- MutexManager::init: m_buf, for a descriptor of `size_of` bytes. m_bufId is a parameter.
unfoldable pub init : ℕ → Os → List ℕ → ℕ → ℕ → M Slot
unfolding hold
init fuel os buf_id size_of capacity = hold fuel os buf_id (size_t (size_of * capacity))

unfoldable pub find_descriptor : ℕ → List ℕ → Table → Option ℕ
unfolding find_loop matches
find_descriptor capacity id b = find_loop (matches id) b capacity 0

unfoldable pub find_free_descriptor : ℕ → Table → Option ℕ
unfolding find_loop is_free
find_free_descriptor capacity b = find_loop is_free b capacity 0

-- initDescriptor: strncpy of the id, and Mutex(&ptr->m_ftx, true) sets the word to 1.
unfoldable pub init_descriptor : ℕ → List ℕ → Table → Table
init_descriptor i id b = write b i (record (b i) { id = take descriptor_max_len (c_str id) })

-- The constructor of Mutex with isNew.
unfoldable pub new_mutex : ℕ → Table → Table
new_mutex i b = write b i (record (b i) { ftx = 1 })

-- What getMutex gives: the index of the mutex's word, or the exception.
pub data Got : Type 0 where
  mutex : ℕ → Table → Got
  logic_error : Table → Got

-- The part of getMutex for an id that is not found.
unfoldable pub make_mutex : List ℕ → Table → Option ℕ → Got
unfolding init_descriptor new_mutex
make_mutex id b none = logic_error b
make_mutex id b (some i) = mutex i (new_mutex i (init_descriptor i id b))

unfoldable pub get_found : ℕ → List ℕ → Table → Option ℕ → Got
unfolding make_mutex find_free_descriptor
get_found capacity id b none = make_mutex id b (find_free_descriptor capacity b)
get_found capacity id b (some i) = mutex i b

-- getMutex.
unfoldable pub get_mutex : ℕ → List ℕ → Table → Got
unfolding get_found find_descriptor
get_mutex capacity id b = get_found capacity id b (find_descriptor capacity id b)
