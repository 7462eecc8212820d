-- ===== src/KeyFile.antt =====
-- How processes find one shared segment through a file with its key: FileLock of src/FileLock.cpp,
-- FileMutex of src/IPC_FileMutex.cpp and the start-up of BufferManager in src/IPC_BufferManager.cpp.
-- The key file's bytes, the lock on it and the segments by key are the state; whether a system call
-- succeeds is a parameter. An int is four bytes, the least significant first.
pub mod Session
pub mod Mutex
pub mod Manager
pub mod Calls
pub mod Start
pub mod Answers
pub mod Pair
pub mod Stop
pub mod Raced
mod Tests
use cppgenerics.Prelude.{
  ℕ, zero, suc, ◌+◌, ◌*◌, ◌/◌, ◌%◌, ◌^◌, Bool, true, false, Option, none, some, List, [], ◌∷◌, ◌++◌,
  if◌then◌else◌, ◌==◌, length, take, write,
}

-- Whether ::open, fcntl(F_SETLKW), ::read, ::write and shmat succeed, and the i-th draw of getRandom.
pub record Host : Type 0 where
  pub can_open : Bool
  pub can_lock : Bool
  pub can_read : Bool
  pub can_write : Bool
  pub can_attach : Bool
  pub draw : ℕ → ℕ

-- `is_open` and `is_locked` are about this process's descriptor of the key file.
pub record World (Seg : Type 0) : Type 0 where
  pub content : List ℕ
  pub is_open : Bool
  pub is_locked : Bool
  pub segments : ℕ → Option Seg

-- An exception leaves the state as it is then. `hangs` is a search for a key that has not ended
-- within its fuel.
pub data Run (Seg A : Type 0) : Type 0 where
  ok : A → World Seg → Run Seg A
  sys_error : World Seg → Run Seg A
  logic_error : World Seg → Run Seg A
  hangs : Run Seg A

abbrev pub M : Type 0 → Type 0 → Type 0
M Seg A = World Seg → Run Seg A

infixl 5 ◌>>=◌ ◌>>◌
abbrev pub ◌>>=◌ : {Seg A B : Type 0} → M Seg A → (A → M Seg B) → M Seg B
◌>>=◌ c f w = elim (c w) [
  | ok a w' ↦ f a w'
  | sys_error w' ↦ sys_error w'
  | logic_error w' ↦ logic_error w'
  | hangs ↦ hangs
]

abbrev pub ◌>>◌ : {Seg B : Type 0} → M Seg (Unit {0}) → M Seg B → M Seg B
c >> k = c >>= λ _. k

abbrev pub pure : {Seg A : Type 0} → A → M Seg A
pure a w = ok a w

abbrev pub require : {Seg : Type 0} → Bool → M Seg (Unit {0})
require true w = ok tt w
require false w = sys_error w

-- A destructor that runs at the end of its scope, also for an exception.
abbrev pub finally : {Seg A : Type 0} → (World Seg → World Seg) → M Seg A → M Seg A
finally d c w = elim (c w) [
  | ok a w' ↦ ok a (d w')
  | sys_error w' ↦ sys_error (d w')
  | logic_error w' ↦ logic_error (d w')
  | hangs ↦ hangs
]

-- openAutoClose, and the deleter of its descriptor.
unfoldable pub open_auto_close : {Seg : Type 0} → Host → M Seg (Unit {0})
open_auto_close host = do require host.can_open; λ w. ok tt (record w { is_open = true })

unfoldable pub close : {Seg : Type 0} → World Seg → World Seg
close w = record w { is_open = false }

-- FileLock::lock.
unfoldable pub lock : {Seg : Type 0} → Host → M Seg (Unit {0})
lock host = do require host.can_lock; λ w. ok tt (record w { is_locked = true })

-- FileLock::unlock, which std::lock_guard calls; ~FileLock then finds m_locker false.
unfoldable pub unlock : {Seg : Type 0} → World Seg → World Seg
unlock w = record w { is_locked = false }

-- The beginning that initUsingFile and BufferManager::init share, around the rest of their body.
unfoldable pub with_key_file : {Seg A : Type 0} → Host → M Seg A → M Seg A
unfolding open_auto_close close lock unlock
with_key_file host body = open_auto_close host >> finally close (lock host >> finally unlock body)

-- System::read of an int from the start of the key file: the bytes, at most four.
unfoldable pub read_key : {Seg : Type 0} → Host → M Seg (List ℕ)
read_key host = do require host.can_read; λ w. ok (take 4 w.content) w

-- What memory or a file holds when bytes are stored from its start on.
unfoldable pub overwrite : List ℕ → List ℕ → List ℕ
overwrite [] old = old
overwrite (b ∷ bs) [] = b ∷ bs
overwrite (b ∷ bs) (o ∷ old) = b ∷ overwrite bs old

-- System::write of an int where the descriptor stands when System::read has read nothing: at the
-- start.
unfoldable pub write_key : {Seg : Type 0} → Host → List ℕ → M Seg (Unit {0})
unfolding overwrite
write_key host bytes = do
  require host.can_write
  λ w. ok tt (record w { content = overwrite bytes w.content })

-- shmget of a new segment, with IPC_CREAT|IPC_EXCL.
unfoldable pub create_segment : {Seg : Type 0} → ℕ → Seg → M Seg (Unit {0})
create_segment key seg w = elim (w.segments key) [
  | none ↦ ok tt (record w { segments = write w.segments key (some seg) })
  | some old ↦ sys_error w
]

-- shmget of a segment that exists.
unfoldable pub find_segment : {Seg : Type 0} → ℕ → M Seg Seg
find_segment key w = elim (w.segments key) [ none ↦ sys_error w | some seg ↦ ok seg w ]

-- The bytes of an int, and an int from its bytes.
unfoldable pub int_bytes : ℕ → List ℕ
int_bytes k = (k % 256) ∷ (k / 256 % 256) ∷ (k / 65536 % 256) ∷ (k / 16777216 % 256) ∷ []

unfoldable pub bytes_int : List ℕ → ℕ
bytes_int [] = 0
bytes_int (b ∷ bs) = b + 256 * bytes_int bs
