-- ===== src/Buffers/Take.antt =====
-- getFreeDescriptor moves the first free descriptor to the front of the full list.
use cppgenerics.Prelude.{
  ℕ, ◌∙◌, ◌≡◌, refl, sym, subst, ap, false, none, some, List, [], ◌∷◌, has, Distinct, arith,
}
use cppgenerics.Buffers.Descriptors.{
  Idx, Storage, Shared, set_next, set_prev, unlink, push_full, take_free,
}
use cppgenerics.Buffers.Chain.{Chain, Chain-frame, Chain-set_prev, set_prev-out}
use cppgenerics.Buffers.Linked.{IsLost, IsLinked, set_next-lost}

-- What the descriptor that becomes the first full one points back to, where `p` stood there: the
-- code clears it only if there was a full descriptor.
abbrev before_pushed : Idx → Idx → Idx
before_pushed none p = p
before_pushed (some h) p = none

before_pushed-IsLost : (h p : Idx) (lost : List ℕ) → IsLost p lost → IsLost (before_pushed h p) lost
before_pushed-IsLost none p lost there = there
before_pushed-IsLost (some h) p lost there = tt

-- `push_full` puts `x` in front of a list that does not hold it, and changes no link of
-- another list.
Chain-push_full :
    (m : Storage) (x : ℕ) (p q h : Idx) (xs : List ℕ)
    → (m x).prev_idx ≡ q
    → Chain m p h xs
    → Distinct xs
    → has x xs ≡ false
    → Chain (push_full x h m) (before_pushed h q) (some x) (x ∷ xs)
unfolding push_full
Chain-push_full m x p q h [] first c d out =
    subst (λ k. Chain (push_full x k m) (before_pushed k q) (some x) (x ∷ [])) (sym c)
      (ground arith)
Chain-push_full m x p q h (y ∷ ys) first c d out =
    subst (λ k. Chain (push_full x k m) (before_pushed k q) (some x) (x ∷ y ∷ ys)) (sym c.0)
      (refl, ground arith, subst (λ k. Chain g (some x) k (y ∷ ys)) (sym next) kept)
  where
    w : Storage
    w = set_prev (some y) (some x) m

    g : Storage
    g = push_full x (some y) m

    next : (g x).next_idx ≡ some y
    next = ground arith

    moved : Chain w (some x) (some y) (y ∷ ys)
    moved = Chain-set_prev m p (some y) (some x) (y ∷ ys) (ground arith) d

    kept : Chain g (some x) (some y) (y ∷ ys)
    kept = Chain-frame w g (some x) (some y) (y ∷ ys) (λ a i. ground arith) moved

push_full-out :
    (m : Storage) (x : ℕ) (p h : Idx) (xs : List ℕ) (a : ℕ)
    → Chain m p h xs
    → has a (x ∷ xs) ≡ false
    → push_full x h m a ≡ m a
unfolding push_full
push_full-out m x p h [] a c out = rw c (ground arith)
push_full-out m x p h (y ∷ ys) a c out = rw c.0 (ground arith)

module _ (capacity : ℕ) (s : Shared) (x : ℕ) (free full : List ℕ)
    (inv : IsLinked capacity s (x ∷ free) full) where
  open inv use {
    lost, before_free, before_full, free_chain, full_chain, before_free_lost, before_full_lost,
    free_distinct, full_distinct, lost_distinct, apart, lost_free, lost_full, covers, count,
  }

  abbrev m : Storage
  m = s.main_storage

  abbrev n : Idx
  n = (m x).next_idx

  -- The write to the descriptor before `x`, which is lost.
  abbrev g : Storage
  g = set_next before_free n m

  g-out : (a : ℕ) → has a lost ≡ false → g a ≡ m a
  g-out a out = set_next-lost before_free n lost m a before_free_lost out

  x-lost : has x lost ≡ false
  x-lost = ground (arith, lost_free x)

  -- The removal from the free list writes a lost descriptor and the next free one.
  unlinked : unlink x m ≡ set_prev n before_free g
  unfolding unlink
  unlinked =
      let here : set_next (m x).prev_idx n m x ≡ m x = rw free_chain.1 (g-out x x-lost) in
      rw here (rw free_chain.1)

  g-free : Chain g (some x) n free
  g-free =
      Chain-frame m g (some x) n free (λ a i. ground (arith, g-out a, lost_free a)) free_chain.2

  u-out : (a : ℕ) → has a free ≡ false → has a lost ≡ false → unlink x m a ≡ m a
  u-out a out kept =
      rw unlinked (set_prev-out g (some x) n before_free free a g-free out ∙ g-out a kept)

  x-out : has x full ≡ false
  x-out = apart x (ground arith)

  u-free : Chain (unlink x m) before_free n free
  u-free = rw unlinked (Chain-set_prev g (some x) n before_free free g-free free_distinct.1)

  u-full : Chain (unlink x m) before_full s.control.next_full_idx full
  u-full =
      Chain-frame m (unlink x m) before_full s.control.next_full_idx full
        (λ a i. ground (arith, u-out a, apart a, lost_full a)) full_chain

  abbrev before : Idx
  before = before_pushed s.control.next_full_idx before_free

  take_full : Chain (take_free x s).main_storage before (some x) (x ∷ full)
  unfolding take_free
  take_full =
      Chain-push_full (unlink x m) x before_full before_free s.control.next_full_idx full
        (ap (λ d. d.prev_idx) (u-out x free_distinct.0 x-lost) ∙ free_chain.1) u-full full_distinct
        x-out

  take_rest : Chain (take_free x s).main_storage before_free n free
  unfolding take_free
  take_rest =
      Chain-frame (unlink x m) (take_free x s).main_storage before_free n free
        (λ a i. ground (
          arith,
          push_full-out (unlink x m) x before_full s.control.next_full_idx full a u-full,
          apart a,
        ))
        u-free

  -- In a well-linked table with `x` first among the free, the taking part of getFreeDescriptor
  -- leaves a well-linked table: the free list without `x`, and `x` before the full list.
  pub take_free-IsLinked : IsLinked capacity (take_free x s) free (x ∷ full)
  unfolding take_free
  take_free-IsLinked = record {
    lost = lost;
    before_free = before_free;
    before_full = before;
    free_chain =
        subst (λ k. Chain (take_free x s).main_storage before_free k free)
          (ap (λ d. d.next_idx) (sym (u-out x free_distinct.0 x-lost))) take_rest;
    full_chain = take_full;
    before_free_lost = before_free_lost;
    before_full_lost =
        before_pushed-IsLost s.control.next_full_idx before_free lost before_free_lost;
    free_distinct = free_distinct.1;
    full_distinct = (x-out, full_distinct);
    lost_distinct = lost_distinct;
    apart = λ a i. ground (arith, apart a);
    lost_free = λ a i. ground (arith, lost_free a);
    lost_full = λ a i. ground (arith, lost_full a, lost_free a);
    covers = λ a. ground (arith, covers a);
    count = omega arith;
  }
