-- ===== src/KeyFile/Pair.antt =====
-- Two processes with a FileMutex of one file.
use cppgenerics.Prelude.{
  ℕ, ◌<◌, ◌^◌, ◌≡◌, ◌∙◌, ap, true, false, Option, none, some, List, [], write,
}
use cppgenerics.KeyFile.{
  World, ok, ◌>>=◌, ◌>>◌, pure, require, close, unlock, read_key, write_key, create_segment,
  find_segment, int_bytes, overwrite,
}
use cppgenerics.KeyFile.Calls.{
  willing, write_twice, bind_ok, with_segment, create_segment_lem, find_segment_lem, session_lem,
}
use cppgenerics.KeyFile.Mutex.{
  init_futex_storage, new_mutex, create_mutex, join_mutex, mutex_from, init_using_file,
}
use cppgenerics.KeyFile.Start.{bytes_int-int_bytes}

-- The key file and the segments when a mutex with this futex word exists.
abbrev pub shared : ℕ → ℕ → (ℕ → Option ℕ) → World ℕ
shared key word segments = record {
  content = int_bytes key;
  is_open = false;
  is_locked = false;
  segments = write segments key (some word);
}

abbrev pub unused : (ℕ → Option ℕ) → World ℕ
unused segments = record { content = []; is_open = false; is_locked = false; segments = segments }

module _ (draw : ℕ → ℕ) (segments : ℕ → Option ℕ) where
  abbrev opened : List ℕ → (ℕ → Option ℕ) → World ℕ
  opened bytes s = record { content = bytes; is_open = true; is_locked = true; segments = s }

  first :
      segments (draw 0) ≡ none
      → init_using_file (willing draw) (unused segments) ≡ ok (draw 0) (shared (draw 0) 1 segments)
  unfolding init_using_file read_key mutex_from create_mutex init_futex_storage new_mutex close
      unlock write_key
  first absent =
      let world = record (opened (int_bytes (draw 0)) segments) {
        segments = write (write segments (draw 0) (some 0)) (draw 0) (some 1);
      } in
      session_lem draw (unused segments) (read_key (willing draw) >>= mutex_from (willing draw))
        world (draw 0)
        (bind_ok (init_futex_storage (willing draw) (draw 0) true)
          (λ u.
            new_mutex (draw 0) true
            >> (write_key (willing draw) (int_bytes (draw 0)) >> pure (draw 0)))
          (opened [] segments) (with_segment (opened [] segments) (draw 0) 0) tt
          (bind_ok (create_segment (draw 0) 0) (λ u. require true) (opened [] segments)
            (with_segment (opened [] segments) (draw 0) 0) tt
            (create_segment_lem (opened [] segments) (draw 0) 0 absent)))
      ∙ ap (λ s. ok (draw 0) (record (shared (draw 0) 1 segments) { segments = s }))
          (write_twice segments (draw 0) (some 0) (some 1))

  join_mutex_lem :
      (key word : ℕ) (w : World ℕ)
      → join_mutex (willing draw) key (with_segment w key word) ≡ ok key (with_segment w key word)
  unfolding join_mutex init_futex_storage new_mutex
  join_mutex_lem key word w =
      bind_ok (init_futex_storage (willing draw) key false) (λ u. new_mutex key false >> pure key)
        (with_segment w key word) (with_segment w key word) tt
        (bind_ok (find_segment key) (λ u. require true) (with_segment w key word)
          (with_segment w key word) word (find_segment_lem w key word))

  second :
      (key word : ℕ)
      → key < 2 ^ 32
      → init_using_file (willing draw) (shared key word segments)
        ≡ ok key (shared key word segments)
  unfolding init_using_file read_key mutex_from close unlock overwrite
  second key word bound =
      let joined = opened (int_bytes key) (write segments key (some word)) in
      session_lem draw (shared key word segments)
        (read_key (willing draw) >>= mutex_from (willing draw)) joined key
        (ap (λ k. join_mutex (willing draw) k joined) (bytes_int-int_bytes key bound)
          ∙ join_mutex_lem key word (opened (int_bytes key) segments))

-- On an empty key file, where all system calls succeed and the key that is drawn belongs to no
-- segment, initUsingFile makes a mutex that is unlocked and writes its key; a later initUsingFile
-- finds the same futex word, which it leaves as it is then, locked or not.
pub init_using_file-init_using_file :
    (draw later_draw : ℕ → ℕ) (segments : ℕ → Option ℕ) (word : ℕ)
    → draw 0 < 2 ^ 32
    → segments (draw 0) ≡ none
    → (init_using_file (willing draw) (unused segments) ≡ ok (draw 0) (shared (draw 0) 1 segments))
      × (init_using_file (willing later_draw) (shared (draw 0) word segments)
          ≡ ok (draw 0) (shared (draw 0) word segments))
init_using_file-init_using_file draw later_draw segments word bound absent =
    (first draw segments absent, second later_draw segments (draw 0) word bound)
