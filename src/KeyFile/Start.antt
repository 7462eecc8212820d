-- ===== src/KeyFile/Start.antt =====
-- Processes that start one after the other over one key file.
use cppgenerics.Prelude.{
  ℕ, zero, suc, ◌+◌, ◌<◌, ◌^◌, ◌≡◌, ◌∙◌, ap, true, false, Option, none, some, List, [], write,
  arith,
}
use cppgenerics.Buffers.Descriptors.{zeroed, init_descriptors}
use cppgenerics.Buffers.Linked.{IsLinked}
use cppgenerics.Buffers.Init.{new_control, up, init_descriptors-IsLinked}
use cppgenerics.Buffers.Manager.{size_t}
use cppgenerics.KeyFile.{
  Host, World, ok, M, ◌>>=◌, ◌>>◌, pure, close, unlock, read_key, write_key, int_bytes, bytes_int,
}
use cppgenerics.KeyFile.Calls.{
  willing, is_used, absent_key_lem, bind_ok, with_segment, modify_lem, create_control_lem,
  join_control_lem, session_lem,
}
use cppgenerics.KeyFile.Manager.{
  Segment, blank, modify, absent_key, write_control, count_one, chain, join_control, init_pointers,
  init_new, control_from, init,
}

-- An int is read back from its bytes.
pub bytes_int-int_bytes : (k : ℕ) → k < 2 ^ 32 → bytes_int (int_bytes k) ≡ k
unfolding bytes_int int_bytes
bytes_int-int_bytes k h = omega arith

-- n + 1 processes start, one after the other, of which none ends.
unfoldable pub start_all : ℕ → ℕ → ℕ → Host → M Segment ℕ
start_all zero capacity fuel host = init capacity fuel host
start_all (suc n) capacity fuel host =
    start_all n capacity fuel host >>= λ key. init capacity fuel host

-- The shared segment when n processes use it.
abbrev pub segment : ℕ → ℕ → ℕ → Segment
segment capacity key n = record {
  futex = 1;
  shared = record {
    control = record (new_control key) { ref_count = n };
    main_storage = init_descriptors capacity (λ i. zeroed);
  };
}

abbrev pub started : ℕ → ℕ → ℕ → (ℕ → Option Segment) → World Segment
started capacity key n segments = record {
  content = int_bytes key;
  is_open = false;
  is_locked = false;
  segments = write segments key (some (segment capacity key n));
}

abbrev pub fresh : (ℕ → Option Segment) → World Segment
fresh segments = record { content = []; is_open = false; is_locked = false; segments = segments }

pub init_pointers_join :
    (fuel : ℕ) (host : Host) (key : ℕ)
    → 0 < key
    → init_pointers fuel host key ≡ join_control host key
unfolding init_pointers
init_pointers_join fuel host key h = ground arith

module _ (capacity fuel key : ℕ) (draw : ℕ → ℕ) (segments : ℕ → Option Segment) where
  abbrev opened : List ℕ → (ℕ → Option Segment) → World Segment
  opened bytes s = record { content = bytes; is_open = true; is_locked = true; segments = s }

  module _ (absent : segments key ≡ none)
      (drawn : absent_key fuel (willing draw) 0 (opened [] segments)
        ≡ ok key (opened [] segments)) where
    abbrev written : World Segment
    written = with_segment (opened [] segments) key (write_control key blank)

    abbrev chained : World Segment
    chained = with_segment (opened [] segments) key (chain capacity (write_control key blank))

    init_new_lem :
        init_new capacity fuel (willing draw) (opened [] segments)
        ≡ ok key (record chained { content = int_bytes key })
    unfolding init_new init_pointers write_key
    init_new_lem =
        bind_ok (init_pointers fuel (willing draw) 0)
          (λ k. modify k (chain capacity) >> (write_key (willing draw) (int_bytes k) >> pure k))
          (opened [] segments) written key
          (create_control_lem draw (opened [] segments) key fuel drawn absent)
        ∙ bind_ok (modify key (chain capacity))
            (λ _. write_key (willing draw) (int_bytes key) >> pure key) written chained tt
            (modify_lem (opened [] segments) key (write_control key blank) (chain capacity))

    first :
        init capacity fuel (willing draw) (fresh segments)
        ≡ ok key (started capacity key 1 segments)
    unfolding init read_key control_from close unlock write_control chain
    first =
        session_lem draw (fresh segments)
          (read_key (willing draw) >>= control_from capacity fuel (willing draw))
          (record chained { content = int_bytes key }) key init_new_lem

  next :
      (n : ℕ)
      → 0 < key
      → key < 2 ^ 32
      → init capacity fuel (willing draw) (started capacity key n segments)
        ≡ ok key (started capacity key (size_t (n + 1)) segments)
  unfolding init read_key control_from close unlock count_one
  next n pos bound =
      session_lem draw (started capacity key n segments)
        (read_key (willing draw) >>= control_from capacity fuel (willing draw))
        (opened (int_bytes key) (write segments key (some (segment capacity key (size_t (n + 1))))))
        key
        (ap
            (λ k.
              init_pointers fuel (willing draw) k
                (opened (int_bytes key) (write segments key (some (segment capacity key n)))))
            (bytes_int-int_bytes key bound)
          ∙ ap
              (λ c. c (opened (int_bytes key) (write segments key (some (segment capacity key n)))))
              (init_pointers_join fuel (willing draw) key pos)
          ∙ join_control_lem draw (opened (int_bytes key) segments) key (segment capacity key n))

  module _ (pos : 0 < key) (bound : key < 2 ^ 32) (absent : segments key ≡ none)
      (drawn : absent_key fuel (willing draw) 0 (opened [] segments)
        ≡ ok key (opened [] segments)) where
    all :
        (n : ℕ)
        → start_all n capacity fuel (willing draw) (fresh segments)
          ≡ ok key (started capacity key (size_t (n + 1)) segments)
    unfolding start_all
    all zero = first absent drawn
    all (suc n) =
        bind_ok (start_all n capacity fuel (willing draw)) (λ k. init capacity fuel (willing draw))
          (fresh segments) (started capacity key (size_t (n + 1)) segments) key (all n)
        ∙ next (size_t (n + 1)) pos bound
        ∙ ap (λ c. ok key (started capacity key c segments)) (omega arith)

-- Where init can draw an absent key within its fuel, processes that start one after the other on an
-- empty key file, all system calls succeeding, agree on that key, written to the file; their segment
-- counts them all, and its descriptors are well linked and free.
pub start_all-IsLinked :
    (capacity fuel j n : ℕ) (draw : ℕ → ℕ) (segments : ℕ → Option Segment)
    → 0 < capacity
    → j < fuel
    → 0 < draw j
    → draw j < 2 ^ 32
    → segments (draw j) ≡ none
    → ((m : ℕ) → m < j → is_used (segments (draw m)) ≡ true)
    → (start_all n capacity fuel (willing draw) (fresh segments)
        ≡ ok (draw j) (started capacity (draw j) (size_t (n + 1)) segments))
      × IsLinked capacity (segment capacity (draw j) (size_t (n + 1))).shared (up 0 capacity) []
start_all-IsLinked capacity fuel j n draw segments some_room reached pos bound absent used =
    let linked = init_descriptors-IsLinked capacity (draw j) (λ i. zeroed) some_room in
    (
      all capacity fuel (draw j) draw segments pos bound absent
          (absent_key_lem fuel j 0 j (willing draw)
            (opened capacity fuel (draw j) draw segments [] segments) reached (omega arith) absent
            used)
          n,
      record {
        free_chain = linked.free_chain;
        full_chain = linked.full_chain;
        lost = linked.lost;
        before_free = linked.before_free;
        before_full = linked.before_full;
        before_free_lost = linked.before_free_lost;
        before_full_lost = linked.before_full_lost;
        lost_distinct = linked.lost_distinct;
        lost_free = linked.lost_free;
        lost_full = linked.lost_full;
        free_distinct = linked.free_distinct;
        full_distinct = linked.full_distinct;
        apart = linked.apart;
        covers = linked.covers;
        count = linked.count;
      },
    )
