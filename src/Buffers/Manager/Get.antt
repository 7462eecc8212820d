-- ===== src/Buffers/Manager/Get.antt =====
-- getBuffer on a new id: the whole call, its result and its errors.
use cppgenerics.Prelude.{
  ℕ, zero, suc, ◌+◌, ◌^◌, ◌<◌, ◌≡◌, refl, sym, ap, ◌∙◌, subst, true, false, none, some, List, [],
  ◌∷◌, ◌⊎◌, inl, inr, ◌==◌, take, has, same_refl, arith,
}
use cppgenerics.Buffers.Descriptors.{
  Idx, Storage, Shared, content, descriptor_max_len, c_str, matches, take_free, get_free_descriptor,
  found, missing, get_descriptor,
}
use cppgenerics.Buffers.Chain.{Chain}
use cppgenerics.Buffers.Linked.{IsLinked}
use cppgenerics.Buffers.Take.{take_free-IsLinked}
use cppgenerics.Buffers.Walk.{first_match, get_descriptor-first_match}
use cppgenerics.Buffers.HeadRelease.{take_free-content}
use cppgenerics.Buffers.Manager.{
  Os, Manager, Buffer, ok, throw, sys_error, logic_error, storage, size_t, futex_bytes, find_atch,
  erase_atch, alloc_shm_key, create_with, fill_buffer, create_buffer, get_buffer,
}
use cppgenerics.Buffers.Manager.Kept.{IsLinked-frame}
use cppgenerics.Buffers.Manager.Create.{
  prepared, created, buffer, fill_buffer-throw, fill_buffer-ok,
}

-- No full descriptor has the id.
abbrev pub Unknown : List ℕ → Shared → List ℕ → Type 0
Unknown id s full = (a : ℕ) → has a full ≡ true → matches id (s.main_storage a).id ≡ false

first_match-missing :
    (id : List ℕ) (m : Storage) (xs : List ℕ)
    → ((a : ℕ) → has a xs ≡ true → matches id (m a).id ≡ false)
    → first_match id m xs ≡ missing
unfolding first_match
first_match-missing id m [] none_of = refl
first_match-missing id m (x ∷ xs) none_of =
    rw (none_of x (ground arith)) (first_match-missing id m xs (λ a i. none_of a (ground arith)))

get_descriptor-missing :
    (capacity fuel : ℕ) (id : List ℕ) (s : Shared) (free full : List ℕ)
    → IsLinked capacity s free full
    → capacity < fuel
    → Unknown id s full
    → get_descriptor fuel id s ≡ missing
get_descriptor-missing capacity fuel id s free full inv enough unknown =
    get_descriptor-first_match fuel id s inv.before_full full inv.full_chain
      (omega (arith, inv.count))
    ∙ first_match-missing id s.main_storage full unknown

take-take : (n : ℕ) (xs : List ℕ) → take n (take n xs) ≡ take n xs
take-take zero xs = refl
take-take (suc n) [] = refl
take-take (suc n) (x ∷ xs) = ap (λ ys. x ∷ ys) (take-take n xs)

pub matches-stored : (id : List ℕ) → matches id (take descriptor_max_len (c_str id)) ≡ true
unfolding matches
matches-stored id = rw (take-take 50 (c_str id)) (same_refl (take 50 (c_str id)))

-- The first full descriptor, with an id stored as getBuffer does, is what a search finds.
stored-found :
    (capacity fuel : ℕ) (id : List ℕ) (s : Shared) (x : ℕ) (free full : List ℕ)
    → IsLinked capacity s free (x ∷ full)
    → capacity < fuel
    → (s.main_storage x).id ≡ take descriptor_max_len (c_str id)
    → get_descriptor fuel id s ≡ found x
unfolding first_match
stored-found capacity fuel id s x free full inv enough e =
    get_descriptor-first_match fuel id s inv.before_full (x ∷ full) inv.full_chain
      (omega (arith, inv.count))
    ∙ first_hit
  where
    hit : matches id (s.main_storage x).id ≡ true
    hit = rw e (matches-stored id)

    first_hit : first_match id s.main_storage (x ∷ full) ≡ found x
    first_hit = rw hit refl

-- What holds when getBuffer has made a buffer on descriptor `x`.
pub record Created (capacity : ℕ) (m : Manager) (x : ℕ) (free full : List ℕ) (id : List ℕ)
    (bytes ptr : ℕ) (b : Buffer) (m' : Manager) : Type 0 where
  pub linked : IsLinked capacity m'.shared free (x ∷ full)
  pub refs : (storage m' x).ref_count ≡ 1
  pub stored : (storage m' x).id ≡ take descriptor_max_len (c_str id)
  pub size : b.size ≡ bytes
  pub of : b.descriptor ≡ x
  pub unlocked : m'.words b.ptr ≡ 1
  pub attached : find_atch x m'.local_atchs ≡ some ptr
  pub atchs : m'.local_atchs ≡ (x, ptr) ∷ erase_atch x m.local_atchs
  pub others : (a : ℕ) → (x == a) ≡ false → content (storage m' a) ≡ content (storage m a)

module _ (capacity fuel : ℕ) (os : Os) (id : List ℕ) (bytes : ℕ) (m : Manager) (x key : ℕ)
    (free full : List ℕ) (inv : IsLinked capacity m.shared (x ∷ free) full)
    (enough : capacity < fuel) (unknown : Unknown id m.shared full) (pos : 0 < bytes)
    (drawn : alloc_shm_key fuel os 0 ≡ some key) where
  abbrev taken : Manager
  taken = record m { shared = take_free x m.shared }

  absent : get_descriptor fuel id m.shared ≡ missing
  absent = get_descriptor-missing capacity fuel id m.shared (x ∷ free) full inv enough unknown

  free_first : get_free_descriptor m.shared ≡ (some x, take_free x m.shared)
  unfolding get_free_descriptor
  free_first = rw (inv.free_chain.0, get_free_descriptor)

  linked : IsLinked capacity taken.shared free (x ∷ full)
  linked = take_free-IsLinked capacity m.shared x free full inv

  create_buffer-fill : create_buffer fuel os id bytes m ≡ fill_buffer os id bytes (some key) x taken
  unfolding create_buffer create_with
  create_buffer-fill =
      let some_bytes : (bytes == 0) ≡ false = ground arith in
      rw some_bytes (
        ap (λ k. create_with os id bytes k (get_free_descriptor m.shared) m) drawn
        ∙ ap (λ p. create_with os id bytes (some key) p m) free_first)

  get_buffer-fill : get_buffer fuel os id bytes m ≡ fill_buffer os id bytes (some key) x taken
  unfolding get_buffer
  get_buffer-fill = rw (absent, get_buffer) create_buffer-fill

  -- In a well-linked table with a first free descriptor, with fuel above the capacity, for an id
  -- that no full descriptor has, a size above 0, and a key that allocShmKey finds: if the size and
  -- the futex word fit in a size_t and shmget and shmat succeed, getBuffer takes the first free
  -- descriptor, with one reference and the requested size, and an unlocked mutex, and leaves all
  -- other descriptors' contents.
  pub get_buffer-Created :
      (shm ptr : ℕ)
      → bytes + futex_bytes < 2 ^ 64
      → os.shmget key (size_t (bytes + futex_bytes)) true ≡ some shm
      → os.shmat shm ≡ some ptr
      → (b : Buffer) × (m' : Manager) × (get_buffer fuel os id bytes m ≡ ok b m')
        × Created capacity m x free full id bytes ptr b m'
  unfolding find_atch
  get_buffer-Created shm ptr fits given mapped = (
    buffer os id bytes key x taken ptr,
    created os id bytes key x taken ptr,
    get_buffer-fill ∙ fill_buffer-ok os id bytes key x taken shm ptr given mapped,
    record {
      linked =
          IsLinked-frame capacity taken.shared (created os id bytes key x taken ptr).shared free
            (x ∷ full) refl refl (λ a. ground arith) linked;
      refs = ground arith;
      stored = ground arith;
      size = ground arith;
      of = refl;
      unlocked = ground arith;
      attached = ground arith;
      atchs = refl;
      others = λ a ne. ground (arith, take_free-content x m.shared a);
    },
  )

  -- In a well-linked table with a first free descriptor, with fuel above the capacity, for an id
  -- that no full descriptor has, a size above 0, and a key that allocShmKey finds: if shmget
  -- refuses the new segment, getBuffer throws and leaves the descriptor in the full list without a
  -- reference, and the next search by the id finds it.
  get_buffer-shmget_fails :
      os.shmget key (size_t (bytes + futex_bytes)) true ≡ none
      → (m' : Manager) × (get_buffer fuel os id bytes m ≡ throw sys_error m')
        × IsLinked capacity m'.shared free (x ∷ full)
        × ((storage m' x).ref_count ≡ 0)
        × (get_descriptor fuel id m'.shared ≡ found x)
  get_buffer-shmget_fails refused =
      let m' : Manager = prepared os id bytes key x taken in
      let kept : IsLinked capacity m'.shared free (x ∷ full) =
        IsLinked-frame capacity taken.shared m'.shared free (x ∷ full) refl refl (λ a. ground arith)
          linked in
      (
        m',
        get_buffer-fill ∙ fill_buffer-throw os id bytes key x taken refused,
        kept,
        ground arith,
        stored-found capacity fuel id m'.shared x free full kept enough (ground arith),
      )

create_with-none :
    (fuel : ℕ) (os : Os) (id : List ℕ) (bytes : ℕ) (m : Manager)
    → m.shared.control.next_free_idx ≡ none
    → create_with os id bytes (alloc_shm_key fuel os 0) (get_free_descriptor m.shared) m
      ≡ throw logic_error m
unfolding create_with get_free_descriptor
create_with-none fuel os id bytes m e =
    ap (λ p. create_with os id bytes (alloc_shm_key fuel os 0) p m) none_free
  where
    none_free : get_free_descriptor m.shared ≡ (none, m.shared)
    none_free = ground arith

-- In a well-linked table, with fuel above the capacity, getBuffer of an id that no full descriptor
-- has throws and changes nothing if the size is 0 or no descriptor is free.
get_buffer-refuses :
    (capacity fuel : ℕ) (os : Os) (id : List ℕ) (bytes : ℕ) (m : Manager) (free full : List ℕ)
    → IsLinked capacity m.shared free full
    → capacity < fuel
    → Unknown id m.shared full
    → (bytes ≡ 0) ⊎ (free ≡ [])
    → get_buffer fuel os id bytes m ≡ throw logic_error m
unfolding get_buffer create_buffer
get_buffer-refuses capacity fuel os id bytes m free full inv enough unknown why =
    rw (get_descriptor-missing capacity fuel id m.shared free full inv enough unknown, get_buffer)
      (elim why [
        | inl zero_bytes ↦ rw zero_bytes refl
        | inr none_free ↦ ground (
          arith,
          create_with-none fuel os id bytes m (first inv.before_free none_free inv.free_chain),
        )
      ])
  where
    first :
        (p : Idx)
        → free ≡ []
        → Chain m.shared.main_storage p m.shared.control.next_free_idx free
        → m.shared.control.next_free_idx ≡ none
    first p e c = subst (λ k. Chain m.shared.main_storage p m.shared.control.next_free_idx k) e c

-- After getBuffer has created a buffer for an id, with fuel above the capacity, getDescriptor of
-- the id finds the descriptor of that buffer.
pub Created-found :
    (capacity fuel : ℕ) (m : Manager) (x : ℕ) (free full : List ℕ) (id : List ℕ) (bytes ptr : ℕ)
    (b : Buffer) (m' : Manager)
    → Created capacity m x free full id bytes ptr b m'
    → capacity < fuel
    → get_descriptor fuel id m'.shared ≡ found b.descriptor
Created-found capacity fuel m x free full id bytes ptr b m' c enough =
    stored-found capacity fuel id m'.shared x free full c.linked enough c.stored
    ∙ ap found (sym c.of)
