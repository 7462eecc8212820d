-- ===== src/Buffers/HeadRelease.antt =====
-- putFreeDescriptor on the first full descriptor leaves nextFullIdx as it is. What getDescriptor
-- and getFreeDescriptor of IPC_BufferManager.cpp do from there.
use cppgenerics.Prelude.{
  ℕ, zero, suc, ◌<◌, ◌≡◌, refl, sym, ap, ◌∙◌, subst, true, false, none, some, List, [], ◌∷◌, length,
  take, same, write, has, arith,
}
use cppgenerics.Buffers.Descriptors.{
  Idx, Storage, Shared, content, zeroed, set_next, set_prev, unlink, push_full, take_free,
  get_free_descriptor, put_free_descriptor, c_str, matches, missing, out_of_fuel, search_from,
  get_descriptor,
}
use cppgenerics.Buffers.Chain.{Chain, Chain-frame, set_prev-out}
use cppgenerics.Buffers.Linked.{IsLinked, Blank, set_next-lost}
use cppgenerics.Buffers.Release.{Chain-push_free, unlink-content, put_free_descriptor-content}
use cppgenerics.Buffers.Walk.{first_match, get_descriptor-first_match}

-- An id that is not the empty C string matches no erased descriptor.
abbrev pub Named : List ℕ → Type 0
Named id = 0 < length (c_str id)

not_blank : (xs : List ℕ) → 0 < length xs → same (take 50 xs) [] ≡ false
not_blank [] h = absurd (omega arith)
not_blank (x ∷ xs) h = refl

matches-nil : (id : List ℕ) → Named id → matches id [] ≡ false
unfolding matches
matches-nil id h = not_blank (c_str id) h

first_match-blank :
    (id : List ℕ) (m : Storage) (xs : List ℕ)
    → Named id
    → ((a : ℕ) → has a xs ≡ true → (m a).id ≡ [])
    → first_match id m xs ≡ missing
unfolding first_match
first_match-blank id m [] named blank = refl
first_match-blank id m (x ∷ xs) named blank =
    rw (blank x (ground arith), matches-nil id named)
      (first_match-blank id m xs named (λ a i. blank a (ground arith)))

module _ (capacity : ℕ) (s : Shared) (free : List ℕ) (d : ℕ) (zs : List ℕ)
    (inv : IsLinked capacity s free (d ∷ zs)) where
  open inv use {
    lost, before_free, before_full, before_full_lost, free_chain, full_chain, free_distinct,
    full_distinct, apart, lost_free, lost_full, count,
  }

  abbrev m : Storage
  m = s.main_storage

  abbrev n : Idx
  n = (m d).next_idx

  -- The write to the descriptor before `d`, which is lost.
  abbrev g : Storage
  g = set_next before_full n m

  g-out : (a : ℕ) → has a lost ≡ false → g a ≡ m a
  g-out a out = set_next-lost before_full n lost m a before_full_lost out

  unlinked : unlink d m ≡ set_prev n before_full g
  unfolding unlink
  unlinked =
      let here : set_next (m d).prev_idx n m d ≡ m d =
        rw full_chain.1 (g-out d (ground (arith, lost_full d))) in
      rw here (rw full_chain.1)

  g-full : Chain g (some d) n zs
  g-full = Chain-frame m g (some d) n zs (λ a i. ground (arith, g-out a, lost_full a)) full_chain.2

  u-out : (a : ℕ) → has a zs ≡ false → has a lost ≡ false → unlink d m a ≡ m a
  u-out a out kept =
      rw unlinked (set_prev-out g (some d) n before_full zs a g-full out ∙ g-out a kept)

  d_free : has d free ≡ false
  d_free = ground (arith, apart d)

  free_kept : Chain (write (unlink d m) d zeroed) before_free s.control.next_free_idx free
  free_kept =
      Chain-frame m (write (unlink d m) d zeroed) before_free s.control.next_free_idx free
        (λ a i. ground (arith, d_free, u-out a, apart a, lost_free a)) free_chain

  abbrev released : Shared
  released = put_free_descriptor d s

  -- The full list of the control block leads from `d` into the free list now.
  full_is_free : Chain released.main_storage none released.control.next_full_idx (d ∷ free)
  unfolding put_free_descriptor
  full_is_free =
      subst (λ k. Chain released.main_storage none k (d ∷ free)) (sym full_chain.0)
        (Chain-push_free (write (unlink d m) d zeroed) d before_free s.control.next_free_idx free
          free_kept free_distinct d_free)

  released-Blank : Blank s free → Blank released (d ∷ free)
  released-Blank blank a i =
      ap (λ e. e.id) (put_free_descriptor-content d s a) ∙ ground (arith, blank a)

  -- In a well-linked table whose first full descriptor is `d` and whose free descriptors have empty
  -- ids, with fuel above the capacity, after putFreeDescriptor of `d` getDescriptor of any id that
  -- is not empty finds nothing: the full descriptors behind `d` are lost.
  pub get_descriptor-put_head :
      (fuel : ℕ) (id : List ℕ)
      → Blank s free
      → Named id
      → capacity < fuel
      → get_descriptor fuel id (put_free_descriptor d s) ≡ missing
  get_descriptor-put_head fuel id blank named enough =
      get_descriptor-first_match fuel id released none (d ∷ free) full_is_free
        (omega (arith, count))
      ∙ first_match-blank id released.main_storage (d ∷ free) named (released-Blank blank)

search_from-loop :
    (fuel : ℕ) (id : List ℕ) (m : Storage) (d : ℕ)
    → (m d).next_idx ≡ some d
    → matches id (m d).id ≡ false
    → search_from fuel id m d ≡ out_of_fuel
unfolding search_from
search_from-loop zero id m d self miss = refl
search_from-loop (suc fuel) id m d self miss =
    rw self (rw (miss, search_from-loop fuel id m d self miss))

-- A first full descriptor that is its own successor and does not match holds the walk for ever.
get_descriptor-loop :
    (fuel : ℕ) (id : List ℕ) (s : Shared) (d : ℕ)
    → s.control.next_full_idx ≡ some d
    → (s.main_storage d).next_idx ≡ some d
    → matches id (s.main_storage d).id ≡ false
    → get_descriptor fuel id s ≡ out_of_fuel
unfolding get_descriptor
get_descriptor-loop fuel id s d first self miss =
    rw (first, get_descriptor) (search_from-loop fuel id s.main_storage d self miss)

push_full_self : (x : ℕ) (h : Idx) (m : Storage) → (push_full x h m x).next_idx ≡ h
unfolding push_full
push_full_self x none m = ground arith
push_full_self x (some p) m = ground arith

pub push_full-content :
    (i : ℕ) (h : Idx) (m : Storage) (a : ℕ) → content (push_full i h m a) ≡ content (m a)
unfolding push_full
push_full-content i none m a = ground arith
push_full-content i (some p) m a = ground arith

-- Taking changes the links alone.
pub take_free-content :
    (i : ℕ) (s : Shared) (a : ℕ)
    → content ((take_free i s).main_storage a) ≡ content (s.main_storage a)
unfolding take_free
take_free-content i s a =
    push_full-content i s.control.next_full_idx (unlink i s.main_storage) a
    ∙ unlink-content i s.main_storage a

put_free_descriptor-id : (d : ℕ) (s : Shared) → ((put_free_descriptor d s).main_storage d).id ≡ []
put_free_descriptor-id d s = ap (λ e. e.id) (put_free_descriptor-content d s d) ∙ ground arith

-- If `d` is the first full descriptor and no descriptor is free, then after putFreeDescriptor of `d` and getFreeDescriptor a
-- search by any id that is not empty does not end, whatever the fuel and the rest of the table.
pub get_descriptor-take_put_head :
    (s : Shared) (d : ℕ) (fuel : ℕ) (id : List ℕ)
    → s.control.next_full_idx ≡ some d
    → s.control.next_free_idx ≡ none
    → Named id
    → get_descriptor fuel id (get_free_descriptor (put_free_descriptor d s)).1 ≡ out_of_fuel
unfolding get_free_descriptor put_free_descriptor
get_descriptor-take_put_head s d fuel id first none_free named =
    let r : Shared = put_free_descriptor d s in
    let next : r.control.next_free_idx ≡ some d = rw none_free refl in
    let taken : (get_free_descriptor r).1 ≡ take_free d r = rw next refl in
    rw taken (
      get_descriptor-loop fuel id (take_free d r) d refl
        (push_full_self d s.control.next_full_idx (unlink d r.main_storage) ∙ first)
        (rw (ap (λ e. e.id) (take_free-content d r d) ∙ put_free_descriptor-id d s)
          (matches-nil id named)))
