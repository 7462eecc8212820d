-- ===== src/Buffers/Sharing/Counted.antt =====
-- The reference counts are the numbers of objects.
use cppgenerics.Prelude.{
  ℕ, ◌+◌, ◌-◌, ◌<◌, ◌≡◌, ◌^◌, refl, ap, ◌∙◌, true, false, List, [], ◌∷◌, ◌==◌, write, arith,
  Bool-cases, inl, inr,
}
use cppgenerics.Buffers.Descriptors.{Search, found, missing, out_of_fuel, get_descriptor}
use cppgenerics.Buffers.Release.{put_free_descriptor-content}
use cppgenerics.Buffers.Linked.{free_with}
use cppgenerics.Buffers.Manager.{
  Os, Buffer, Manager, ok, >>=-ok, pure, storage, size_t, dec, find_atch, erase_atch, get_buffer,
  buffer_free, detach_if, detach_descriptor, copy_buffer, destroy_buffer,
}
use cppgenerics.Buffers.Manager.Refs.{with_refs, with_refs-IsLinked, mapped, get_buffer-found}
use cppgenerics.Buffers.Registry.{keys, remove, lookup, Behind}
use cppgenerics.Buffers.Registry.Refine.{
  Holds, Stored-frame, search_refines, keys-remove, release_refines,
}
use cppgenerics.Buffers.Sharing.{
  Use, created, opened, copied, destroyed, step, run, Users, with_one, IsKnown, step_spec, run_spec,
  IsLegal, AreLegal,
}
use cppgenerics.Buffers.Sharing.Agreement.{Agrees, Keeps}
use cppgenerics.Buffers.Sharing.Created.{made_any-Keeps}

-- Another number of objects, and the same in the table.
recount :
    (capacity d n : ℕ) (m : Manager) (u : Users)
    → Agrees capacity m u
    → 0 < u.users d
    → 0 < n
    → n < 2 ^ 64
    → Agrees capacity (with_refs d n m) (record u { users = write u.users d n })
recount capacity d n m u agrees some_user pos bound = record {
  holds = record {
    linked =
        with_refs-IsLinked capacity d n m u.registry.free (keys u.registry.full)
          agrees.holds.linked;
    stored =
        Stored-frame (storage m) (storage (with_refs d n m)) u.registry.full (λ a k. ground arith)
          agrees.holds.stored;
  };
  counted = λ a. ground (arith, agrees.counted a);
  bounded = λ a. ground (arith, agrees.bounded a);
  attached = agrees.attached;
  in_use = λ a. ground (arith, agrees.in_use a);
}

-- The table behind the destruction of the last object of a descriptor.
abbrev emptied : ℕ → Manager → Manager
emptied d m = detach_descriptor d (with_refs d 0 m)

empty :
    (capacity fuel d : ℕ) (m : Manager) (u : Users)
    → capacity < fuel
    → Agrees capacity m u
    → Behind d u.registry.full
    → Agrees capacity (emptied d m) (record {
      registry = record { free = free_with d u.registry.free; full = remove d u.registry.full };
      users = write u.users d 0;
      attached = erase_atch d u.attached;
    })
unfolding detach_descriptor
empty capacity fuel d m u enough agrees legal =
    let l : Manager = with_refs d 0 m in
    let before : Holds capacity l.shared u.registry = record {
      linked =
          with_refs-IsLinked capacity d 0 m u.registry.free (keys u.registry.full)
            agrees.holds.linked;
      stored =
          Stored-frame (storage m) (storage l) u.registry.full (λ a k. ground arith)
            agrees.holds.stored;
    } in
    let after =
      release_refines capacity fuel enough d l.shared u.registry.free u.registry.full before
        legal in
    let erased = put_free_descriptor-content d l.shared in
    record {
      holds = after;
      counted = λ a. ap (λ e. e.ref_count) (erased a) ∙ ground (arith, agrees.counted a);
      bounded = λ a. ground (arith, agrees.bounded a);
      attached = ap (erase_atch d) agrees.attached;
      in_use = λ a.
          keys-remove a d u.registry.full agrees.holds.linked.full_distinct
          ∙ ground (arith, agrees.in_use a);
    }

step-copied :
    (fuel : ℕ) (b : Buffer) (m : Manager)
    → step fuel (copied b) m
      ≡ ok tt (with_refs b.descriptor (size_t ((storage m b.descriptor).ref_count + 1)) m)
unfolding step copy_buffer
step-copied fuel b m = refl

step-destroyed_more :
    (fuel : ℕ) (b : Buffer) (m : Manager) (n : ℕ)
    → (storage m b.descriptor).ref_count ≡ n
    → 1 < n
    → n < 2 ^ 64
    → step fuel (destroyed b) m ≡ ok tt (with_refs b.descriptor (n - 1) m)
unfolding step destroy_buffer buffer_free
step-destroyed_more fuel b m n refs many bound =
    let down : Manager = with_refs b.descriptor (dec (storage m b.descriptor).ref_count) m in
    let more : ((storage down b.descriptor).ref_count == 0) ≡ false = ground arith in
    let left : dec (storage m b.descriptor).ref_count ≡ n - 1 = omega arith in
    ap (λ t. detach_if t b.descriptor down) more ∙ ap (λ k. ok tt (with_refs b.descriptor k m)) left

step-destroyed_last :
    (fuel : ℕ) (b : Buffer) (m : Manager)
    → (storage m b.descriptor).ref_count ≡ 1
    → step fuel (destroyed b) m ≡ ok tt (emptied b.descriptor m)
unfolding step destroy_buffer buffer_free
step-destroyed_last fuel b m refs =
    let down : Manager = with_refs b.descriptor (dec (storage m b.descriptor).ref_count) m in
    let zero_left : ((storage down b.descriptor).ref_count == 0) ≡ true = ground arith in
    let left : dec (storage m b.descriptor).ref_count ≡ 0 = omega arith in
    ap (λ t. detach_if t b.descriptor down) zero_left
    ∙ ap (λ k. ok tt (detach_descriptor b.descriptor (with_refs b.descriptor k m))) left

module _ (capacity fuel : ℕ) (enough : capacity < fuel) where
  copied-Keeps :
      (b : Buffer) (m : Manager) (u : Users)
      → Agrees capacity m u
      → IsLegal fuel (copied b) u
      → Keeps capacity (step fuel (copied b)) m (step_spec (copied b) u)
  copied-Keeps b m u agrees legal =
      let n : ℕ = u.users b.descriptor + 1 in
      let refs = agrees.counted b.descriptor in
      let up : size_t ((storage m b.descriptor).ref_count + 1) ≡ n = omega (arith, legal) in
      (
        with_refs b.descriptor n m,
        step-copied fuel b m ∙ ap (λ k. ok tt (with_refs b.descriptor k m)) up,
        recount capacity b.descriptor n m u agrees legal.0 (omega arith) legal.1,
      )

  destroyed-Keeps :
      (b : Buffer) (m : Manager) (u : Users)
      → Agrees capacity m u
      → IsLegal fuel (destroyed b) u
      → Keeps capacity (step fuel (destroyed b)) m (step_spec (destroyed b) u)
  destroyed-Keeps b m u agrees legal =
      let d : ℕ = b.descriptor in
      let refs = agrees.counted d in
      elim (Bool-cases (u.users d == 1)) [
        | inl last ↦
            (let one : u.users d ≡ 1 = ground arith in
              (
                emptied d m,
                step-destroyed_last fuel b m (refs ∙ one),
                rw last (empty capacity fuel d m u enough agrees (legal.1 one)),
              ))
        | inr more ↦
            (let many : 1 < u.users d = ground (arith, legal.0) in
              (
                with_refs d (u.users d - 1) m,
                step-destroyed_more fuel b m (u.users d) refs many (agrees.bounded d),
                rw more (
                    recount capacity d (u.users d - 1) m u agrees legal.0 (omega arith)
                      (omega (arith, agrees.bounded d))),
              ))
      ]

  opened-Keeps :
      (os : Os) (id : List ℕ) (bytes : ℕ) (m : Manager) (u : Users) (r : Search)
      → get_descriptor fuel id m.shared ≡ r
      → Agrees capacity m u
      → IsKnown r u
      → Keeps capacity (step fuel (opened os id bytes)) m (with_one r u)
  unfolding step
  opened-Keeps os id bytes m u missing e agrees legal = absurd legal
  opened-Keeps os id bytes m u out_of_fuel e agrees legal = absurd legal
  opened-Keeps os id bytes m u (found i) e agrees (some_user, bound, (ptr, here)) =
      let n : ℕ = u.users i + 1 in
      let refs = agrees.counted i in
      let up : size_t ((storage m i).ref_count + 1) ≡ n = omega arith in
      let m' : Manager = with_refs i (size_t ((storage m i).ref_count + 1)) m in
      (
        with_refs i n m,
        >>=-ok (get_buffer fuel os id bytes) (λ _. pure tt) m m' (mapped i ptr m')
              (get_buffer-found fuel os id bytes m i ptr e
                (ap (find_atch i) agrees.attached ∙ here))
            ∙ ap (λ k. ok tt (with_refs i k m)) up,
        recount capacity i n m u agrees some_user (omega arith) bound,
      )

  step-Keeps :
      (op : Use) (m : Manager) (u : Users)
      → Agrees capacity m u
      → IsLegal fuel op u
      → Keeps capacity (step fuel op) m (step_spec op u)
  step-Keeps (created os id bytes ptr) m u agrees legal =
      made_any-Keeps capacity fuel enough os id bytes ptr m u.registry.free u.registry.full u.users
        u.attached agrees legal
  step-Keeps (opened os id bytes) m u agrees legal =
      opened-Keeps os id bytes m u (lookup id u.registry.full)
        (search_refines capacity fuel enough id m.shared u.registry agrees.holds) agrees legal
  step-Keeps (copied b) m u agrees legal = copied-Keeps b m u agrees legal
  step-Keeps (destroyed b) m u agrees legal = destroyed-Keeps b m u agrees legal

  -- From a table in which each count is the number of Buffer objects of its descriptor, and just the
  -- descriptors with an object are in use, with fuel above the capacity: any calls of getBuffer, with
  -- new ids where the size is not 0 and fits, a descriptor is free, and a key is drawn for which the
  -- system creates and attaches a segment, and with ids whose descriptor is in use and attached, and
  -- copies and destructions of existing objects, of which none overflows a count and none destroys the
  -- last object of the descriptor taken last, end well and lead to such a table, for the numbers of
  -- objects that there are then.
  pub run-Agrees :
      (ops : List Use) (m : Manager) (u : Users)
      → Agrees capacity m u
      → AreLegal fuel ops u
      → Keeps capacity (run fuel ops) m (run_spec ops u)
  unfolding run
  run-Agrees [] m u agrees legal = (m, refl, agrees)
  run-Agrees (op ∷ ops) m u agrees legal =
      let (m', done, next) = step-Keeps op m u agrees legal.0 in
      let (m'', rest, final) = run-Agrees ops m' (step_spec op u) next legal.1 in
      (m'', >>=-ok (step fuel op) (λ _. run fuel ops) m m' tt done ∙ rest, final)
