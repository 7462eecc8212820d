-- ===== src/KeyFile/Mutex.antt =====
-- FileMutex of src/IPC_FileMutex.cpp: a segment holds one futex word. The result of
-- `init_using_file` is the key of the segment whose word m_mtx uses.
use cppgenerics.Prelude.{ℕ, Bool, true, false, Option, none, some, List, [], ◌∷◌, write}
use cppgenerics.KeyFile.{
  Host, ok, M, ◌>>=◌, ◌>>◌, pure, require, with_key_file, read_key, write_key, create_segment,
  find_segment, int_bytes, bytes_int, overwrite,
}

-- FileMutex::initFutexStorage. What a new segment holds is all 0.
unfoldable pub init_futex_storage : Host → ℕ → Bool → M ℕ (Unit {0})
unfolding create_segment find_segment
init_futex_storage host key true = create_segment key 0 >> require host.can_attach
init_futex_storage host key false = find_segment key >>= λ _. require host.can_attach

-- Mutex::Mutex over the word of a segment.
unfoldable pub new_mutex : ℕ → Bool → M ℕ (Unit {0})
new_mutex key true w = ok tt (record w { segments = write w.segments key (some 1) })
new_mutex key false w = ok tt w

unfoldable pub create_mutex : Host → M ℕ ℕ
unfolding init_futex_storage new_mutex write_key int_bytes
create_mutex host = do
  init_futex_storage host (host.draw 0) true
  new_mutex (host.draw 0) true
  write_key host (int_bytes (host.draw 0))
  pure (host.draw 0)

unfoldable pub join_mutex : Host → ℕ → M ℕ ℕ
unfolding init_futex_storage new_mutex
join_mutex host key = do init_futex_storage host key false; new_mutex key false; pure key

unfoldable pub mutex_from : Host → List ℕ → M ℕ ℕ
unfolding create_mutex join_mutex bytes_int overwrite
mutex_from host [] = create_mutex host
mutex_from host (b ∷ bytes) =
    join_mutex host (bytes_int (overwrite (b ∷ bytes) (255 ∷ 255 ∷ 255 ∷ 255 ∷ [])))

-- FileMutex::initUsingFile; m_sharedMemKey is -1 before it.
unfoldable pub init_using_file : Host → M ℕ ℕ
unfolding with_key_file read_key mutex_from
init_using_file host = with_key_file host (read_key host >>= mutex_from host)

-- FileMutex::~FileMutex: which segments the process still has attached. `none` is the key -1, of an
-- object that initUsingFile has left by an exception.
unfoldable pub detach_mutex : Option ℕ → (ℕ → Bool) → ℕ → Bool
detach_mutex none attached = attached
detach_mutex (some key) attached = write attached key false
