-- ===== src/Buffers/Chain.antt =====
-- Doubly linked lists by index in the storage, and what a guarded write does to one.
use cppgenerics.Prelude.{
  ℕ, ◌≡◌, refl, sym, subst, true, false, none, some, List, [], ◌∷◌, ◌++◌, has, Distinct, arith, ◌≢◌,
}
use cppgenerics.Buffers.Descriptors.{Idx, BufferDescriptor, Storage, set_next, set_prev}

-- From `h`, with `p` before it, the next indices lead through `xs` to `t`, and the previous
-- indices lead back; `l` is the last index that was passed.
abbrev pub Links : Storage → Idx → Idx → List ℕ → Idx → Idx → Type 0
Links m p h [] l t = (h ≡ t) × (l ≡ p)
Links m p h (x ∷ xs) l t =
    (h ≡ some x) × ((m x).prev_idx ≡ p) × Links m (some x) (m x).next_idx xs l t

-- The whole list from `h`, with nothing before it.
abbrev pub Chain : Storage → Idx → Idx → List ℕ → Type 0
Chain m p h [] = h ≡ none
Chain m p h (x ∷ xs) = (h ≡ some x) × ((m x).prev_idx ≡ p) × Chain m (some x) (m x).next_idx xs

-- Only the links count.
abbrev pub SameLinks : BufferDescriptor → BufferDescriptor → Type 0
SameLinks d e = (d.next_idx ≡ e.next_idx) × (d.prev_idx ≡ e.prev_idx)

pub Chain-frame :
    (m g : Storage) (p h : Idx) (xs : List ℕ)
    → ((a : ℕ) → has a xs ≡ true → SameLinks (g a) (m a))
    → Chain m p h xs
    → Chain g p h xs
Chain-frame m g p h [] keep c = c
Chain-frame m g p h (x ∷ xs) keep c =
    let tail : Chain g (some x) (m x).next_idx xs =
      Chain-frame m g (some x) (m x).next_idx xs (λ a i. keep a (ground arith)) c.2 in
    ground (arith, keep x)

pub Links-frame :
    (m g : Storage) (p h : Idx) (xs : List ℕ) (l t : Idx)
    → ((a : ℕ) → has a xs ≡ true → SameLinks (g a) (m a))
    → Links m p h xs l t
    → Links g p h xs l t
Links-frame m g p h [] l t keep c = c
Links-frame m g p h (x ∷ xs) l t keep c =
    let tail : Links g (some x) (m x).next_idx xs l t =
      Links-frame m g (some x) (m x).next_idx xs l t (λ a i. keep a (ground arith)) c.2 in
    ground (arith, keep x)

-- A list is a path to the head of its rest.
pub Chain-split :
    (m : Storage) (p h : Idx) (xs ys : List ℕ)
    → Chain m p h (xs ++ ys)
    → (l : Idx) × (t : Idx) × Links m p h xs l t × Chain m l t ys
Chain-split m p h [] ys c = (p, h, (refl, refl), c)
Chain-split m p h (x ∷ xs) ys c =
    let (l, t, front, back) = Chain-split m (some x) (m x).next_idx xs ys c.2 in
    (l, t, (c.0, c.1, front), back)

pub Chain-join :
    (m : Storage) (p h : Idx) (xs ys : List ℕ) (l t : Idx)
    → Links m p h xs l t
    → Chain m l t ys
    → Chain m p h (xs ++ ys)
Chain-join m p h [] ys l t front back = ground arith
Chain-join m p h (x ∷ xs) ys l t front back =
    (front.0, front.1, Chain-join m (some x) (m x).next_idx xs ys l t front.2 back)

-- The head of a list is none of the indices outside it.
pub head_in :
    (m : Storage) (p h : Idx) (xs : List ℕ) (a : ℕ) → Chain m p h xs → has a xs ≡ false → h ≢ some a
head_in m p h [] a c out = ground arith
head_in m p h (x ∷ xs) a c out = ground arith

-- Writes outside a list keep it.
pub Chain-set_next_out :
    (m : Storage) (p h : Idx) (xs : List ℕ) (a : ℕ) (v : Idx)
    → Chain m p h xs
    → has a xs ≡ false
    → Chain (set_next (some a) v m) p h xs
Chain-set_next_out m p h xs a v c out =
    Chain-frame m (set_next (some a) v m) p h xs (λ b i. ground arith) c

pub Chain-set_prev_out :
    (m : Storage) (p h : Idx) (xs : List ℕ) (a : ℕ) (v : Idx)
    → Chain m p h xs
    → has a xs ≡ false
    → Chain (set_prev (some a) v m) p h xs
Chain-set_prev_out m p h xs a v c out =
    Chain-frame m (set_prev (some a) v m) p h xs (λ b i. ground arith) c

-- A guarded write of the head's previous index gives the list another predecessor.
pub Chain-set_prev :
    (m : Storage) (p h q : Idx) (xs : List ℕ)
    → Chain m p h xs
    → Distinct xs
    → Chain (set_prev h q m) q h xs
Chain-set_prev m p h q [] c d = c
Chain-set_prev m p h q (x ∷ xs) c d =
    let tail : Chain (set_prev (some x) q m) (some x) (m x).next_idx xs =
      Chain-set_prev_out m (some x) (m x).next_idx xs x q c.2 d.0 in
    let next : (set_prev (some x) q m x).next_idx ≡ (m x).next_idx = ground arith in
    subst (λ k. Chain (set_prev k q m) q k (x ∷ xs)) (sym c.0)
      (refl, ground arith, subst (λ k. Chain (set_prev (some x) q m) (some x) k xs) (sym next) tail)

-- It changes no index outside the list.
pub set_prev-out :
    (m : Storage) (p h q : Idx) (xs : List ℕ) (a : ℕ)
    → Chain m p h xs
    → has a xs ≡ false
    → set_prev h q m a ≡ m a
set_prev-out m p h q [] a c out = rw c
set_prev-out m p h q (x ∷ xs) a c out = rw c.0 (ground arith)
