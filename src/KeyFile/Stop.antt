-- ===== src/KeyFile/Stop.antt =====
-- The end of processes that use the segment of a key file: ~BufferManager of
-- src/IPC_BufferManager.cpp on the segment, the key file and the segments by key. An unlinked file
-- is one that the next open finds empty. The segments of the buffers are not looked at here.
use cppgenerics.Prelude.{
  ℕ, suc, ◌+◌, ◌-◌, ◌<◌, ◌^◌, ◌≡◌, refl, ◌∙◌, ap, ◌||◌, Bool, true, false, Option, none, some, List,
  [], ◌∷◌, ◌++◌, ◌==◌, if◌then◌else◌, length, length-append, write, arith, eq_self,
}
use mathlib.Core.Path.{fun_ext}
use cppgenerics.Buffers.Manager.{size_t, dec, destroy_manager}
use cppgenerics.KeyFile.{Host, World, ok, sys_error, M, ◌>>=◌, ◌>>◌, pure, require, find_segment}
use cppgenerics.KeyFile.Calls.{willing, is_used, write_twice}
use cppgenerics.KeyFile.Manager.{Segment, modify, count_one, join_control, init_pointers}
use cppgenerics.KeyFile.Start.{
  init_pointers_join, start_all, segment, started, fresh, start_all-IsLinked,
}

-- How a process ends, outside of m_mtx: its destructor runs, with what it has attached then, or it
-- is killed.
pub data Exit : Type 0 where
  orderly : List (ℕ × ℕ) → (ℕ → ℕ) → Exit
  killed : Exit

-- ~BufferManager of a process: `attached` is the number of processes that have the segment.
unfoldable pub stop_segment :
    ℕ → ℕ → ℕ → List (ℕ × ℕ) → (ℕ → ℕ) → Segment → World Segment → World Segment
unfolding destroy_manager
stop_segment capacity attached key atchs words seg w =
    let (last, m) =
      destroy_manager capacity attached
        (record { shared = seg.shared; local_atchs = atchs; words = words }) in
    if last
    then record w { content = []; segments = write w.segments key none }
    else record w { segments = write w.segments key (some (record seg { shared = m.shared })) }

unfoldable pub stop : ℕ → ℕ → ℕ → List (ℕ × ℕ) → (ℕ → ℕ) → World Segment → World Segment
unfolding stop_segment
stop capacity attached key atchs words w = elim (w.segments key) [
  | none ↦ w
  | some seg ↦ stop_segment capacity attached key atchs words seg w
]

-- The ends of all the processes that have the segment, one after the other.
unfoldable pub end_all : ℕ → ℕ → List Exit → World Segment → World Segment
unfolding stop
end_all capacity key [] w = w
end_all capacity key (killed ∷ es) w = end_all capacity key es w
end_all capacity key (orderly atchs words ∷ es) w =
    end_all capacity key es (stop capacity (suc (length es)) key atchs words w)

or_true_lem : (b : Bool) → (b || true) ≡ true
or_true_lem true = refl
or_true_lem false = refl

stop-at :
    (capacity attached key : ℕ) (atchs : List (ℕ × ℕ)) (words : ℕ → ℕ) (w : World Segment)
    (seg : Segment)
    → w.segments key ≡ some seg
    → stop capacity attached key atchs words w
      ≡ stop_segment capacity attached key atchs words seg w
unfolding stop
stop-at capacity attached key atchs words w seg e = rw (e, stop)

module _ (capacity key : ℕ) (segments : ℕ → Option Segment) (atchs : List (ℕ × ℕ))
    (words : ℕ → ℕ) where
  at_key :
      (attached c : ℕ)
      → stop capacity attached key atchs words (started capacity key c segments)
        ≡ stop_segment capacity attached key atchs words
            (segment capacity key c)
            (started capacity key c segments)
  at_key attached c =
      stop-at capacity attached key atchs words (started capacity key c segments)
        (segment capacity key c) (ground (arith, eq_self key))

  -- Another process has the segment.
  stop-counts :
      (attached c : ℕ)
      → 1 < attached
      → 1 < c
      → c < 2 ^ 64
      → stop capacity attached key atchs words (started capacity key c segments)
        ≡ started capacity key (c - 1) segments
  unfolding stop_segment destroy_manager
  stop-counts attached c many more bound =
      let left : dec c ≡ c - 1 = omega arith in
      let others : ((c - 1) == 0) ≡ false = ground arith in
      let shared : (attached == 1) ≡ false = ground arith in
      at_key attached c
      ∙ rw (left, others, shared)
          (ap (λ f. record (started capacity key c segments) { segments = f })
            (write_twice segments key (some (segment capacity key c))
              (some (segment capacity key (c - 1)))))

  -- The last process that has the segment.
  stop-removes :
      (c : ℕ)
      → segments key ≡ none
      → stop capacity 1 key atchs words (started capacity key c segments) ≡ fresh segments
  unfolding stop_segment destroy_manager
  stop-removes c absent =
      let last : (dec c == 0 || true) ≡ true = or_true_lem (dec c == 0) in
      at_key 1 c ∙ rw last (ap fresh (fun_ext λ k. ground (arith, absent)))

module _ (capacity key : ℕ) (segments : ℕ → Option Segment) (atchs : List (ℕ × ℕ)) (words : ℕ → ℕ)
    (absent : segments key ≡ none) where
  end_all-fresh :
      (es : List Exit) (c : ℕ)
      → length es < c
      → c < 2 ^ 64
      → end_all capacity key (es ++ (orderly atchs words ∷ [])) (started capacity key c segments)
        ≡ fresh segments
  unfolding end_all
  end_all-fresh [] c some_left bound = stop-removes capacity key segments atchs words c absent
  end_all-fresh (killed ∷ es) c some_left bound = end_all-fresh es c (omega arith) bound
  end_all-fresh (orderly a w ∷ es) c some_left bound =
      let rest = es ++ (orderly atchs words ∷ []) in
      ap (end_all capacity key rest) (
        stop-counts capacity key segments a w (suc (length rest)) c
          (omega (arith, length-append es (orderly atchs words ∷ []))) (omega arith) bound)
      ∙ end_all-fresh es (c - 1) (omega arith) (omega arith)

-- Where init can draw an absent key within its fuel and all system calls succeed: n + 1 processes,
-- fewer than 2^64, that start one after the other on an empty key file share one segment; and when
-- they all have ended, some by their destructors and others killed, but the last by its destructor,
-- the key file is empty and the segments are those from before.
pub start_all-end_all :
    (capacity fuel j n : ℕ) (draw : ℕ → ℕ) (segments : ℕ → Option Segment) (es : List Exit)
    (atchs : List (ℕ × ℕ)) (words : ℕ → ℕ)
    → 0 < capacity
    → j < fuel
    → 0 < draw j
    → draw j < 2 ^ 32
    → segments (draw j) ≡ none
    → ((m : ℕ) → m < j → is_used (segments (draw m)) ≡ true)
    → length es ≡ n
    → n + 1 < 2 ^ 64
    → (start_all n capacity fuel (willing draw) (fresh segments)
        ≡ ok (draw j) (started capacity (draw j) (n + 1) segments))
      × (end_all capacity
            (draw j)
            (es ++ (orderly atchs words ∷ []))
            (started capacity (draw j) (n + 1) segments)
          ≡ fresh segments)
start_all-end_all capacity fuel j n draw segments es atchs words some_room reached pos bound absent
      used all few =
    let (runs, linked) =
      start_all-IsLinked capacity fuel j n draw segments some_room reached pos bound absent used in
    let size : size_t (n + 1) ≡ n + 1 = omega arith in
    (
      runs ∙ ap (λ c. ok (draw j) (started capacity (draw j) c segments)) size,
      end_all-fresh capacity (draw j) segments atchs words absent es (n + 1) (omega arith) few,
    )

bind_error :
    {A B : Type 0} (c : M Segment A) (f : A → M Segment B) (w v : World Segment)
    → c w ≡ sys_error v
    → (c >>= f) w ≡ sys_error v
bind_error c f w v e = rw (e, ◌>>=◌)

find_segment-absent :
    (key : ℕ) (w : World Segment) → w.segments key ≡ none → find_segment key w ≡ sys_error w
unfolding find_segment
find_segment-absent key w e = rw (e, find_segment)

join_control-absent :
    (host : Host) (key : ℕ) (w : World Segment)
    → w.segments key ≡ none
    → join_control host key w ≡ sys_error w
unfolding join_control
join_control-absent host key w e =
    bind_error (find_segment key)
      (λ _. require host.can_attach >> (modify key count_one >> pure key)) w w
      (find_segment-absent key w e)

-- The destructor does not lock the key file. A process that has read the key of the segment from it
-- before the last other process ended fails in shmget behind that, and its start throws, though the
-- key file is empty then.
init_pointers-stopped :
    (capacity fuel key c : ℕ) (host : Host) (segments : ℕ → Option Segment) (atchs : List (ℕ × ℕ))
    (words : ℕ → ℕ)
    → 0 < key
    → segments key ≡ none
    → init_pointers fuel host key
        (stop capacity 1 key atchs words (started capacity key c segments))
      ≡ sys_error (fresh segments)
init_pointers-stopped capacity fuel key c host segments atchs words pos absent =
    ap (init_pointers fuel host key) (stop-removes capacity key segments atchs words c absent)
    ∙ ap (λ c. c (fresh segments)) (init_pointers_join fuel host key pos)
    ∙ join_control-absent host key (fresh segments) absent
