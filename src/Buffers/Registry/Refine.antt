-- ===== src/Buffers/Registry/Refine.antt =====
-- The descriptor table refines the registry of its indices and ids.
use cppgenerics.Prelude.{
  ℕ, Distinct, not, ◌&&◌, ◌<◌, ◌≡◌, refl, sym, ap, ◌∙◌, subst, true, false, none, some, List, [],
  ◌∷◌, ◌++◌, ◌==◌, has, arith, Bool-cases, inl, inr, write, take,
}
use cppgenerics.Buffers.Descriptors.{
  Idx, Shared, Storage, descriptor_max_len, c_str, take_free, get_free_descriptor,
  put_free_descriptor, get_descriptor,
}
use cppgenerics.Buffers.Manager.{filled}
use cppgenerics.Buffers.Linked.{IsLinked, free_with}
use cppgenerics.Buffers.Take.{take_free-IsLinked}
use cppgenerics.Buffers.Release.{put_free_descriptor-IsLinked, put_free_descriptor-content}
use cppgenerics.Buffers.HeadRelease.{take_free-content}
use cppgenerics.Buffers.Walk.{first_match, get_descriptor-first_match}
use cppgenerics.Buffers.Manager.Kept.{IsLinked-frame}
use cppgenerics.Buffers.Registry.{
  Op, reserve, release, search, Reply, reserved, answer, reserve_in, step, run, Entry, Registry,
  keys, remove, lookup, step_spec, run_spec, Behind, IsLegal, AreLegal,
}

-- The ids of the entries stand in the storage.
abbrev pub Stored : Storage → List Entry → Type 0
Stored m [] = Unit {0}
Stored m ((i, id) ∷ es) = ((m i).id ≡ id) × Stored m es

-- The table holds the registry.
pub record Holds (capacity : ℕ) (s : Shared) (r : Registry) : Type 0 where
  pub linked : IsLinked capacity s r.free (keys r.full)
  pub stored : Stored s.main_storage r.full

pub Stored-frame :
    (m g : Storage) (es : List Entry)
    → ((a : ℕ) → has a (keys es) ≡ true → (g a).id ≡ (m a).id)
    → Stored m es
    → Stored g es
Stored-frame m g [] keep h = tt
Stored-frame m g ((i, id) ∷ es) keep h =
    (keep i (ground arith) ∙ h.0, Stored-frame m g es (λ a k. keep a (ground arith)) h.1)

Stored-remove : (m : Storage) (i : ℕ) (es : List Entry) → Stored m es → Stored m (remove i es)
Stored-remove m i [] h = tt
Stored-remove m i ((j, id) ∷ es) h = elim (Bool-cases (j == i)) [
  | inl same ↦ rw same h.1
  | inr other ↦ rw other (h.0, Stored-remove m i es h.1)
]

first_match-lookup :
    (id : List ℕ) (m : Storage) (es : List Entry)
    → Stored m es
    → first_match id m (keys es) ≡ lookup id es
unfolding first_match
first_match-lookup id m [] h = refl
first_match-lookup id m ((i, stored) ∷ es) h = rw (h.0, first_match-lookup id m es h.1)

-- Without the entry of an index, the other indices are there as before.
pub keys-remove :
    (a i : ℕ) (es : List Entry)
    → Distinct (keys es)
    → has a (keys (remove i es)) ≡ (has a (keys es) && not (i == a))
keys-remove a i [] d = ground arith
keys-remove a i ((j, id) ∷ es) d = elim (Bool-cases (j == i)) [
  | inl same ↦ rw same (ground (arith, d.0))
  | inr other ↦ rw other (ground (arith, keys-remove a i es d.1))
]

-- An entry behind the first one has another just before it.
split_at :
    (d i : ℕ) (id : List ℕ) (es : List Entry)
    → (i == d) ≡ false
    → has d (keys es) ≡ true
    → (ys : List ℕ) × (e : ℕ) × (zs : List ℕ) × (i ∷ keys es ≡ ys ++ (e ∷ d ∷ zs))
      × (keys (remove d ((i, id) ∷ es)) ≡ ys ++ (e ∷ zs))
split_at d i id [] differs there = cc
split_at d i id ((j, jd) ∷ es) differs there = elim (Bool-cases (j == d)) [
  | inl here ↦ ([], i, keys es, ground arith, rw differs (rw here))
  | inr later ↦
      (let (ys, e, zs, whole, rest) = split_at d j jd es later (ground arith) in
        (i ∷ ys, e, zs, ap (λ l. i ∷ l) whole, rw differs (ap (λ l. i ∷ l) rest)))
]

module _ (capacity fuel : ℕ) (enough : capacity < fuel) where
  pub search_refines :
      (id : List ℕ) (s : Shared) (r : Registry)
      → Holds capacity s r
      → get_descriptor fuel id s ≡ lookup id r.full
  search_refines id s r h =
      get_descriptor-first_match fuel id s h.linked.before_full (keys r.full) h.linked.full_chain
        (omega (arith, h.linked.count))
      ∙ first_match-lookup id s.main_storage r.full h.stored

  pub release_refines :
      (i : ℕ) (s : Shared) (free : List ℕ) (full : List Entry)
      → Holds capacity s (record { free = free; full = full })
      → Behind i full
      → Holds capacity
          (put_free_descriptor i s)
          (record { free = free_with i free; full = remove i full })
  release_refines i s free [] h legal = elim legal [ ]
  release_refines i s free ((j, jd) ∷ es) h legal =
      let (ys, e, zs, whole, rest) = split_at i j jd es legal.0 legal.1 in
      let after : IsLinked capacity (put_free_descriptor i s) (free_with i free) (ys ++ (e ∷ zs)) =
        put_free_descriptor-IsLinked capacity s free ys e i zs
          (subst (IsLinked capacity s free) whole h.linked) in
      let linked : IsLinked capacity (put_free_descriptor i s) (free_with i free)
          (keys (remove i ((j, jd) ∷ es))) =
        subst (IsLinked capacity (put_free_descriptor i s) (free_with i free)) (sym rest) after in
      record {
        linked = linked;
        stored =
            Stored-frame s.main_storage (put_free_descriptor i s).main_storage
              (remove i ((j, jd) ∷ es))
              (λ a k.
                ap (λ d. d.id) (put_free_descriptor-content i s a)
                ∙ ground (arith, keys-remove a i ((j, jd) ∷ es) h.linked.full_distinct))
              (Stored-remove s.main_storage i ((j, jd) ∷ es) h.stored);
      }

  -- The table behind a reservation of `x`.
  abbrev filled_at : List ℕ → ℕ → ℕ → Shared → Shared
  filled_at id bytes x s = record (take_free x s) {
    main_storage =
        write (take_free x s).main_storage x (filled id bytes ((take_free x s).main_storage x));
  }

  filled_at-Holds :
      (id : List ℕ) (bytes x : ℕ) (s : Shared) (free : List ℕ) (full : List Entry)
      → Holds capacity s (record { free = x ∷ free; full = full })
      → Holds capacity
          (filled_at id bytes x s)
          (record { free = free; full = (x, take descriptor_max_len (c_str id)) ∷ full })
  filled_at-Holds id bytes x s free full h =
      let taken : IsLinked capacity (take_free x s) free (x ∷ keys full) =
        take_free-IsLinked capacity s x free (keys full) h.linked in
      record {
        linked =
            IsLinked-frame capacity (take_free x s) (filled_at id bytes x s) free (x ∷ keys full)
              refl refl (λ a. ground arith) taken;
        stored = (
          ground arith,
          Stored-frame s.main_storage (filled_at id bytes x s).main_storage full
              (λ a k.
                ground (arith, taken.full_distinct.0, ap (λ d. d.id) (take_free-content x s a)))
              h.stored,
        );
      }

  -- An operation answers as the registry does, and leaves the table holding what the registry is then.
  abbrev Simulates : Op → Reply × Shared → Registry → Type 0
  Simulates op p r = (p.0 ≡ (step_spec op r).0) × Holds capacity p.1 (step_spec op r).1

  -- What reserve makes of the result of getFreeDescriptor.
  abbrev reserve_from : List ℕ → ℕ → Idx × Shared → Reply × Shared
  reserve_from id bytes p = (reserved (reserve_in id bytes p).0, (reserve_in id bytes p).1)

  reserve_refines :
      (id : List ℕ) (bytes : ℕ) (s : Shared) (free : List ℕ) (full : List Entry)
      → Holds capacity s (record { free = free; full = full })
      → Simulates
          (reserve id bytes)
          (step fuel (reserve id bytes) s)
          (record { free = free; full = full })
  unfolding step reserve_in get_free_descriptor
  reserve_refines id bytes s [] full h =
      let e : get_free_descriptor s ≡ (none, s) = ground (arith, h.linked.free_chain) in
      subst (λ p. Simulates (reserve id bytes) p (record { free = []; full = full }))
        (ap (reserve_from id bytes) (sym e)) (refl, h)
  reserve_refines id bytes s (x ∷ free) full h =
      let e : get_free_descriptor s ≡ (some x, take_free x s) =
        rw (h.linked.free_chain.0, get_free_descriptor) in
      subst (λ p. Simulates (reserve id bytes) p (record { free = x ∷ free; full = full }))
        (ap (reserve_from id bytes) (sym e)) (refl, filled_at-Holds id bytes x s free full h)

  pub step_refines :
      (op : Op) (s : Shared) (r : Registry)
      → Holds capacity s r
      → IsLegal op r
      → Simulates op (step fuel op s) r
  unfolding step
  step_refines (reserve id bytes) s r h legal = reserve_refines id bytes s r.free r.full h
  step_refines (release i) s r h legal = (refl, release_refines i s r.free r.full h legal)
  step_refines (search id) s r h legal = (ap answer (search_refines id s r h), h)

  -- From a table that holds a registry, with fuel above the capacity, any operations that release no
  -- index but those in use and not taken last get from the table the replies that the registry
  -- gives: the links never show.
  pub run_refines :
      (ops : List Op) (s : Shared) (r : Registry)
      → Holds capacity s r
      → AreLegal ops r
      → run fuel ops s ≡ run_spec ops r
  unfolding run
  run_refines [] s r h legal = refl
  run_refines (op ∷ ops) s r h legal =
      let (same, next) = step_refines op s r h legal.0 in
      ap (λ x. x ∷ run fuel ops (step fuel op s).1) same
      ∙ ap (λ xs. (step_spec op r).0 ∷ xs)
          (run_refines ops (step fuel op s).1 (step_spec op r).1 next legal.1)
