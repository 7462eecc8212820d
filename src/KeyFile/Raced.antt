-- ===== src/KeyFile/Raced.antt =====
-- Two threads of one process that make a FileMutex of one file at the same time. fcntl locks belong to
-- the process: FileLock::lock succeeds in both threads at once.
use cppgenerics.Prelude.{ℕ, ◌≡◌, ◌≢◌, refl, ap, ◌∙◌, true, some, none, Option, write, arith}
use cppgenerics.KeyFile.{
  Host, World, ok, M, ◌>>=◌, ◌>>◌, pure, require, read_key, write_key, create_segment, int_bytes,
  overwrite,
}
use cppgenerics.KeyFile.Calls.{willing, write_twice, bind_ok, with_segment, create_segment_lem}
use cppgenerics.KeyFile.Mutex.{init_futex_storage, new_mutex, create_mutex, mutex_from}
use cppgenerics.KeyFile.Pair.{unused}

-- The bodies of two initUsingFile, under the lock that both have: both read before either writes.
unfoldable pub raced : Host → Host → M ℕ (ℕ × ℕ)
unfolding read_key mutex_from
raced one other = do
  bytes ← read_key one
  bytes' ← read_key other
  key ← mutex_from one bytes
  key' ← mutex_from other bytes'
  pure (key, key')

-- The world behind a new mutex.
abbrev pub with_mutex : ℕ → World ℕ → World ℕ
with_mutex key w = record w {
  content = overwrite (int_bytes key) w.content;
  segments = write w.segments key (some 1);
}

create_mutex_lem :
    (draw : ℕ → ℕ) (w : World ℕ)
    → w.segments (draw 0) ≡ none
    → create_mutex (willing draw) w ≡ ok (draw 0) (with_mutex (draw 0) w)
unfolding create_mutex init_futex_storage new_mutex write_key
create_mutex_lem draw w absent =
    let made = with_segment w (draw 0) 0 in
    bind_ok (init_futex_storage (willing draw) (draw 0) true)
      (λ u.
        new_mutex (draw 0) true >> (write_key (willing draw) (int_bytes (draw 0)) >> pure (draw 0)))
      w made tt
      (bind_ok (create_segment (draw 0) 0) (λ u. require true) w made tt
        (create_segment_lem w (draw 0) 0 absent))
    ∙ ap (λ s. ok (draw 0) (record (with_mutex (draw 0) w) { segments = s }))
        (write_twice w.segments (draw 0) (some 0) (some 1))

-- On an empty key file, where all system calls succeed and the two threads draw different keys that
-- no segment has: where both threads read before either writes, each makes a mutex of its own, both
-- unlocked, and the file has the key of the second alone.
pub raced-two_mutexes :
    (draw draw' : ℕ → ℕ) (segments : ℕ → Option ℕ)
    → draw 0 ≢ draw' 0
    → segments (draw 0) ≡ none
    → segments (draw' 0) ≡ none
    → (w : World ℕ) × (raced (willing draw) (willing draw') (unused segments)
        ≡ ok (draw 0, draw' 0) w)
      × (w.content ≡ int_bytes (draw' 0))
      × (w.segments (draw 0) ≡ some 1)
      × (w.segments (draw' 0) ≡ some 1)
unfolding raced read_key mutex_from int_bytes overwrite
raced-two_mutexes draw draw' segments differ absent absent' =
    let first = with_mutex (draw 0) (unused segments) in
    let last = with_mutex (draw' 0) first in
    (
      last,
      bind_ok (create_mutex (willing draw))
            (λ key. create_mutex (willing draw') >>= λ key'. pure (key, key')) (unused segments)
            first (draw 0) (create_mutex_lem draw (unused segments) absent)
          ∙ bind_ok (create_mutex (willing draw')) (λ key'. pure (draw 0, key')) first last
              (draw' 0) (create_mutex_lem draw' first (ground (arith, absent'))),
      refl,
      ground arith,
      ground arith,
    )
