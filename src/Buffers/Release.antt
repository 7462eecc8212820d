-- ===== src/Buffers/Release.antt =====
-- putFreeDescriptor takes a descriptor that is not the first full one from the full list; an empty
-- free list takes it.
use cppgenerics.Prelude.{
  ℕ, ltb, ap, ◌≡◌, refl, sym, subst, ◌∙◌, false, ◌||◌, none, some, List, [], ◌∷◌, ◌++◌,
  if◌then◌else◌, ◌==◌, write, has, Distinct, Apart, arith, has-append, Distinct-append,
  append-Distinct, length-append,
}
use cppgenerics.Buffers.Descriptors.{
  Idx, Storage, Shared, content, zeroed, set_next, set_prev, unlink, first_free, push_free,
  put_free_descriptor,
}
use cppgenerics.Buffers.Chain.{
  Chain, Links, Chain-frame, Links-frame, Chain-split, Chain-join, Chain-set_prev,
  Chain-set_next_out, set_prev-out,
}
use cppgenerics.Buffers.Linked.{IsLinked, free_with}
use cppgenerics.Buffers.Lost.{
  before_with, lost_with, before_with-IsLost, has-free_with, length-free_with, free_with-Distinct,
  lost_with-Distinct, lost_with-Apart, free_with-has, lost_with-has, lost_with-IsLost,
}

pub Chain-push_free :
    (m : Storage) (x : ℕ) (p h : Idx) (xs : List ℕ)
    → Chain m p h xs
    → Distinct xs
    → has x xs ≡ false
    → Chain (push_free x h m) none (some x) (x ∷ xs)
unfolding push_free
Chain-push_free m x p h [] c d out =
    subst (λ k. Chain (push_free x k m) none (some x) (x ∷ [])) (sym c) (ground arith)
Chain-push_free m x p h (y ∷ ys) c d out =
    subst (λ k. Chain (push_free x k m) none (some x) (x ∷ y ∷ ys)) (sym c.0)
      (refl, ground arith, subst (λ k. Chain g (some x) k (y ∷ ys)) (sym next) kept)
  where
    w : Storage
    w = set_prev (some y) (some x) m

    g : Storage
    g = push_free x (some y) m

    next : (g x).next_idx ≡ some y
    next = ground arith

    moved : Chain w (some x) (some y) (y ∷ ys)
    moved = Chain-set_prev m p (some y) (some x) (y ∷ ys) (ground arith) d

    kept : Chain g (some x) (some y) (y ∷ ys)
    kept = Chain-frame w g (some x) (some y) (y ∷ ys) (λ a i. ground arith) moved

-- The list from nextFreeIdx: the code leaves it as it was, unless it was empty.
Chain-first_free :
    (m : Storage) (x : ℕ) (p h : Idx) (xs : List ℕ)
    → Chain m p h xs
    → Distinct xs
    → has x xs ≡ false
    → Chain (push_free x h m) (before_with x xs) (first_free x h) (free_with x xs)
unfolding first_free
Chain-first_free m x p h [] c d out =
    subst (λ k. Chain (push_free x h m) none k (x ∷ [])) (ap (first_free x) (sym c))
      (Chain-push_free m x p h [] c d out)
Chain-first_free m x p h (y ∷ ys) c d out =
    subst (λ k. Chain (push_free x h m) (some x) k (y ∷ ys)) (ap (first_free x) (sym c.0))
      (let whole = Chain-push_free m x p h (y ∷ ys) c d out in (refl, whole.2.1, whole.2.2))

push_free-out :
    (m : Storage) (x : ℕ) (p h : Idx) (xs : List ℕ) (a : ℕ)
    → Chain m p h xs
    → has a (x ∷ xs) ≡ false
    → push_free x h m a ≡ m a
unfolding push_free
push_free-out m x p h [] a c out = rw c (ground arith)
push_free-out m x p h (y ∷ ys) a c out = rw c.0 (ground arith)

set_next-content : (h v : Idx) (m : Storage) (a : ℕ) → content (set_next h v m a) ≡ content (m a)
set_next-content none v m a = refl
set_next-content (some i) v m a = ground arith

set_prev-content : (h v : Idx) (m : Storage) (a : ℕ) → content (set_prev h v m a) ≡ content (m a)
set_prev-content none v m a = refl
set_prev-content (some i) v m a = ground arith

pub unlink-content : (i : ℕ) (m : Storage) (a : ℕ) → content (unlink i m a) ≡ content (m a)
unfolding unlink
unlink-content i m a =
    set_prev-content _ _ (set_next (m i).prev_idx (m i).next_idx m) a
    ∙ set_next-content (m i).prev_idx (m i).next_idx m a

pub push_free-content :
    (i : ℕ) (h : Idx) (m : Storage) (a : ℕ) → content (push_free i h m a) ≡ content (m a)
unfolding push_free
push_free-content i none m a = ground arith
push_free-content i (some p) m a = ground arith

-- Releasing erases one descriptor and leaves the contents of all others.
pub put_free_descriptor-content :
    (i : ℕ) (s : Shared) (a : ℕ)
    → content ((put_free_descriptor i s).main_storage a)
      ≡ (if i == a then content zeroed else content (s.main_storage a))
unfolding put_free_descriptor
put_free_descriptor-content i s a =
    push_free-content i s.control.next_free_idx (write (unlink i s.main_storage) i zeroed) a
    ∙ ground (arith, unlink-content i s.main_storage a)

module _ (capacity : ℕ) (s : Shared) (free ys : List ℕ) (e d : ℕ) (zs : List ℕ)
    (inv : IsLinked capacity s free (ys ++ (e ∷ d ∷ zs))) where
  open inv use {
    lost, before_free, before_full, free_chain, full_chain, free_distinct, full_distinct,
    lost_distinct, before_full_lost, apart, lost_free, lost_full, covers, count,
  }

  abbrev m : Storage
  m = s.main_storage

  abbrev hf : Idx
  hf = s.control.next_full_idx

  abbrev nz : Idx
  nz = (m d).next_idx

  -- What the list says of its elements.
  record Around : Type 0 where
    l : Idx
    front : Links m before_full hf ys l (some e)
    prev_e : (m e).prev_idx ≡ l
    prev_d : (m d).prev_idx ≡ some e
    back : Chain m (some d) nz zs
    ys_distinct : Distinct ys
    zs_distinct : Distinct zs
    e_ne_d : (e == d) ≡ false
    e_zs : has e zs ≡ false
    d_zs : has d zs ≡ false
    ys_apart : Apart ys (e ∷ d ∷ zs)
    free_apart : Apart free (ys ++ (e ∷ d ∷ zs))

  around : Around
  around =
      let (l, t, front, back) = Chain-split m before_full hf ys (e ∷ d ∷ zs) full_chain in
      let (dys, dback, ap_ys) = Distinct-append ys (e ∷ d ∷ zs) full_distinct in
      record {
        l = l;
        front = subst (λ k. Links m before_full hf ys l k) back.0 front;
        prev_e = back.1;
        prev_d = back.2.1;
        back = back.2.2;
        ys_distinct = dys;
        zs_distinct = dback.1.1;
        e_ne_d = ground (arith, dback.0);
        e_zs = ground (arith, dback.0);
        d_zs = dback.1.0;
        ys_apart = ap_ys;
        free_apart = apart;
      }

  open around use {
    l, front, prev_e, prev_d, back, zs_distinct, e_ne_d, e_zs, d_zs, ys_distinct, ys_apart,
    free_apart,
  }

  abbrev g : Storage
  g = set_next (some e) nz m

  unlinked : unlink d m ≡ set_prev nz (some e) g
  unfolding unlink
  unlinked = let here : g d ≡ m d = ground (arith, e_ne_d) in rw prev_d (rw here (rw prev_d))

  g_back : Chain g (some d) nz zs
  g_back = Chain-set_next_out m (some d) nz zs e nz back e_zs

  u-out : (a : ℕ) → has a (e ∷ zs) ≡ false → unlink d m a ≡ m a
  u-out a out =
      rw unlinked (set_prev-out g (some d) nz (some e) zs a g_back (ground arith) ∙ ground arith)

  u_e : ((unlink d m e).next_idx ≡ nz) × ((unlink d m e).prev_idx ≡ l)
  u_e =
      let at : unlink d m e ≡ g e =
        rw unlinked (set_prev-out g (some d) nz (some e) zs e g_back e_zs) in
      ground (arith, prev_e)

  u_back : Chain (unlink d m) (some e) nz zs
  u_back = rw unlinked (Chain-set_prev g (some d) nz (some e) zs g_back zs_distinct)

  u_full : Chain (unlink d m) before_full hf (ys ++ (e ∷ zs))
  u_full =
      Chain-join (unlink d m) before_full hf ys (e ∷ zs) l (some e)
        (Links-frame m (unlink d m) before_full hf ys l (some e)
          (λ a i. ground (arith, u-out a, ys_apart a)) front)
        (refl, u_e.1, subst (λ k. Chain (unlink d m) (some e) k zs) (sym u_e.0) u_back)

  d_full : has d (ys ++ (e ∷ zs)) ≡ false
  d_full = ground (arith, has-append d ys (e ∷ zs), ys_apart d, d_zs, e_ne_d)

  d_free : has d free ≡ false
  d_free = ground (arith, has-append d ys (e ∷ d ∷ zs), apart d)

  -- An index of the full list that remains is not free.
  full_of_rest : (a : ℕ) → has a (ys ++ (e ∷ d ∷ zs)) ≡ (d == a) || has a (ys ++ (e ∷ zs))
  full_of_rest a = ground (arith, has-append a ys (e ∷ d ∷ zs), has-append a ys (e ∷ zs))

  abbrev w : Storage
  w = write (unlink d m) d zeroed

  abbrev h : Idx
  h = s.control.next_free_idx

  w_full : Chain w before_full hf (ys ++ (e ∷ zs))
  w_full =
      Chain-frame (unlink d m) w before_full hf (ys ++ (e ∷ zs)) (λ a i. ground (arith, d_full))
        u_full

  w_free : Chain w before_free h free
  w_free =
      Chain-frame m w before_free h free
        (λ a i. ground (arith, d_free, u-out a, apart a, has-append a ys (e ∷ d ∷ zs))) free_chain

  rest-Distinct : Distinct (ys ++ (e ∷ zs))
  rest-Distinct =
      append-Distinct ys (e ∷ zs) ys_distinct (e_zs, zs_distinct)
        (λ a i. ground (arith, ys_apart a))

  p_full : Chain (push_free d h w) before_full hf (ys ++ (e ∷ zs))
  p_full =
      Chain-frame w (push_free d h w) before_full hf (ys ++ (e ∷ zs))
        (λ a i.
          ground
            (arith, push_free-out w d before_free h free a w_free, apart a, full_of_rest a, d_full))
        w_full

  d_lost : has d lost ≡ false
  d_lost = ground (arith, lost_full d, has-append d ys (e ∷ d ∷ zs))

  covered :
      (a : ℕ)
      → (has a (free_with d free) || has a (ys ++ (e ∷ zs)) || has a (lost_with d free lost))
        ≡ ltb a capacity
  covered a = ground (arith, has-free_with a d free lost, covers a, full_of_rest a)

  -- In a well-linked table with `d` full behind some `e`, putFreeDescriptor of `d` leaves a
  -- well-linked table: the full list without `d`, and for the free list `d` alone if it was empty,
  -- and else the free list as it was, so that `d` is in neither list then.
  pub put_free_descriptor-IsLinked :
      IsLinked capacity (put_free_descriptor d s) (free_with d free) (ys ++ (e ∷ zs))
  unfolding put_free_descriptor
  put_free_descriptor-IsLinked = record {
    lost = lost_with d free lost;
    before_free = before_with d free;
    before_full = before_full;
    free_chain = Chain-first_free w d before_free h free w_free free_distinct d_free;
    full_chain = p_full;
    before_free_lost = before_with-IsLost d free lost;
    before_full_lost = lost_with-IsLost before_full d free lost before_full_lost;
    free_distinct = free_with-Distinct d free free_distinct;
    full_distinct = rest-Distinct;
    lost_distinct = lost_with-Distinct d free lost lost_distinct d_lost;
    apart = λ a i. ground (arith, apart a, full_of_rest a, d_full, free_with-has a d free i);
    lost_free = lost_with-Apart d free lost lost_free d_free d_lost;
    lost_full =
        λ a i. ground (arith, lost_full a, full_of_rest a, d_full, lost_with-has a d free lost i);
    covers = covered;
    count = omega (
      arith,
      length-append ys (e ∷ d ∷ zs),
      length-append ys (e ∷ zs),
      length-free_with d free lost,
    );
  }
