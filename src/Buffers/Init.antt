-- ===== src/Buffers/Init.antt =====
-- initDescriptors and the control block of a new segment make a table with every index free.
use cppgenerics.Prelude.{
  ℕ, zero, suc, ◌+◌, ◌-◌, ◌<◌, ◌≡◌, refl, sym, ◌∙◌, ◌&&◌, none, some, List, [], ◌∷◌, if◌then◌else◌,
  ◌==◌, ltb, leb, length, has, Distinct, arith,
}
use cppgenerics.Buffers.Descriptors.{Idx, Control, Storage, chained, init_loop, init_descriptors}
use cppgenerics.Buffers.Chain.{Chain}
use cppgenerics.Buffers.Linked.{IsLinked}

-- The part of initPointers that writes a new control block.
abbrev pub new_control : ℕ → Control
new_control key = record {
  shm_key = key;
  ref_count = 1;
  next_free_idx = some 0;
  next_full_idx = none;
}

-- `i, i + 1, …`, `n` of them.
abbrev pub up : ℕ → ℕ → List ℕ
up i zero = []
up i (suc n) = i ∷ up (suc i) n

has-up : (a i n : ℕ) → has a (up i n) ≡ (leb i a && ltb a (i + n))
has-up a i zero = ground arith
has-up a i (suc n) = ground (arith, has-up a (suc i) n)

Distinct-up : (i n : ℕ) → Distinct (up i n)
Distinct-up i zero = tt
Distinct-up i (suc n) = (ground (arith, has-up i (suc i) n), Distinct-up (suc i) n)

length-up : (i n : ℕ) → length (up i n) ≡ n
length-up i zero = refl
length-up i (suc n) = omega (arith, length-up (suc i) n)

init_loop_lem :
    (n : ℕ) (m : Storage) (a : ℕ) → init_loop n m a ≡ (if ltb a n then chained a (m a) else m a)
unfolding init_loop
init_loop_lem zero m a = ground arith
init_loop_lem (suc n) m a = ground (arith, init_loop_lem n m a, init_loop_lem n m n)

module _ (k : ℕ) (m : Storage) where
  abbrev made : Storage
  made = init_descriptors (suc k) m

  made_links :
      (a : ℕ)
      → a < suc k
      → ((made a).next_idx ≡ (if a == k then none else some (a + 1)))
        × ((made a).prev_idx ≡ (if a == 0 then none else some (a - 1)))
  unfolding init_descriptors chained
  made_links a h = ground (arith, init_loop_lem (suc k) m a, init_loop_lem (suc k) m k)

  Chain-up :
      (n i : ℕ) (p h : Idx)
      → i + n ≡ suc k
      → p ≡ (if i == 0 then none else some (i - 1))
      → h ≡ (if n == 0 then none else some i)
      → Chain made p h (up i n)
  Chain-up zero i p h e ep eh = eh
  Chain-up (suc n) i p h e ep eh =
      let (next, prev) = made_links i (omega arith) in
      (
        ground arith,
        prev ∙ sym ep,
        Chain-up n (suc i) (some i) (made i).next_idx (omega arith) (ground arith) (ground arith),
      )

-- For a capacity above 0, the control block and the descriptors that init leaves for a new segment
-- are a well-linked table, all of it free in the order of the indices.
pub init_descriptors-IsLinked :
    (capacity key : ℕ) (m : Storage)
    → 0 < capacity
    → IsLinked capacity
        (record { control = new_control key; main_storage = init_descriptors capacity m })
        (up 0 capacity)
        []
init_descriptors-IsLinked zero key m h = absurd (omega arith)
init_descriptors-IsLinked (suc k) key m h = record {
  free_chain = Chain-up k m (suc k) 0 none (some 0) (omega arith) refl (ground arith);
  full_chain = refl;
  lost = [];
  before_free = none;
  before_full = none;
  before_free_lost = tt;
  before_full_lost = tt;
  lost_distinct = tt;
  lost_free = λ a i. cc;
  lost_full = λ a i. cc;
  free_distinct = Distinct-up 0 (suc k);
  full_distinct = tt;
  apart = λ a i. refl;
  covers = λ a. ground (arith, has-up a 0 (suc k));
  count = omega (arith, length-up 0 (suc k));
}
