-- ===== src/BitBuffer/Copies/Owned.antt =====
-- Copies, moves and assignments of a buffer that owns its storage, over a heap.
use cppgenerics.Prelude.{
  ℕ, ◌+◌, ◌<◌, ◌≡◌, ◌≢◌, refl, true, none, some, ◌==◌, if◌then◌else◌, write, arith,
}
use cppgenerics.BitBuffer.Copies.{
  Heap, Object, ok, fault, M, pure, ◌>>=◌, ◌>>◌, first_units, new_block, load, delete, free_my_mem,
  create_other, copy, move, assign, assign_self, write_units,
}

-- An object that owns a live block.
pub record Owns (h : Heap) (o : Object) (p : ℕ) (units : ℕ → ℕ) : Type 0 where
  pub owner : o.owns ≡ true
  pub points : o.storage ≡ some p
  pub live : h.block p ≡ some units
  pub below : p < h.next

-- A copy is written, destroyed, and the original read.
abbrev pub write_copy : Object → (ℕ → ℕ) → M (ℕ → ℕ)
write_copy o units = do c ← copy o; write_units c units; free_my_mem c; load o.storage

-- The original of a copy is written, destroyed, and the copy read.
abbrev pub write_original : Object → (ℕ → ℕ) → M (ℕ → ℕ)
write_original o units = do c ← copy o; write_units o units; free_my_mem o; load c.storage

-- An object is moved from and destroyed, and the new one read and destroyed.
abbrev pub move_all : Object → M (ℕ → ℕ)
move_all o = do
  (new, left) ← move o
  free_my_mem left
  units ← load new.storage
  free_my_mem new
  pure units

module _ (h : Heap) (o : Object) (p : ℕ) (units : ℕ → ℕ) (own : Owns h o p units) where
  open own use {owner, points, live, below}

  -- The units of a copy.
  abbrev copied : ℕ → ℕ
  copied = first_units o.num_units units

  abbrev copied_heap : Heap
  copied_heap = record { next = h.next + 1; block = write h.block h.next (some copied) }

  copy-ok : copy o h ≡ ok (record o { storage = some h.next }) copied_heap
  unfolding copy create_other new_block load
  copy-ok = ground (arith, owner, points, live)

  -- The heap behind both, when `q` has been written and deleted.
  abbrev end_heap : ℕ → (ℕ → ℕ) → Heap
  end_heap q units' = record copied_heap {
    block = write (write copied_heap.block q (some units')) q none;
  }

  write_copy-ok : (units' : ℕ → ℕ) → write_copy o units' h ≡ ok units (end_heap h.next units')
  unfolding write_units free_my_mem delete load
  write_copy-ok units' = rw (copy-ok, ◌>>=◌) (ground (arith, owner, points, live, below))

  write_original-ok : (units' : ℕ → ℕ) → write_original o units' h ≡ ok copied (end_heap p units')
  unfolding write_units free_my_mem delete load
  write_original-ok units' = rw (copy-ok, ◌>>=◌) (ground (arith, owner, points, live, below))

  -- A buffer owns a live block. After a copy, when the copy is written with any units and destroyed, the
  -- original still has its units, its block and all others are as they were, and the copy's block is dead; when instead
  -- the original is written and destroyed, the copy still has the original's units, as many as the original's
  -- number of units says, and the original's block is dead.
  pub copy_independent :
      (units' : ℕ → ℕ)
      → (h1 h2 : Heap) × (write_copy o units' h ≡ ok units h1)
        × ((q : ℕ) → q < h.next → h1.block q ≡ h.block q)
        × (h1.block h.next ≡ none)
        × ((kept : ℕ → ℕ) × (write_original o units' h ≡ ok kept h2)
            × ((i : ℕ) → i < o.num_units → kept i ≡ units i))
        × (h2.block p ≡ none)
  unfolding first_units
  copy_independent units' = (
    end_heap h.next units',
    end_heap p units',
    write_copy-ok units',
    λ q lt. ground arith,
    ground arith,
    (copied, write_original-ok units', λ i lt. ground arith),
    ground arith,
  )

  -- A buffer owns a live block. When it is moved from and destroyed, the new one still has the units, and
  -- when that is destroyed too, the block is dead, once, and all others are as they were.
  move_deletes_once :
      (h' : Heap) × (move_all o h ≡ ok units h')
      × ((q : ℕ) → h'.block q ≡ (if p == q then none else h.block q))
  unfolding move create_other free_my_mem delete load
  move_deletes_once =
      (record h { block = write h.block p none }, ground (arith, owner, points, live), λ q. refl)

  -- The assignment of a buffer that owns a live block to itself is a fault: its block is deleted, and then read.
  assign_self-fault : assign_self o h ≡ fault
  unfolding assign_self assign free_my_mem delete create_other load
  assign_self-fault = ground (arith, owner, points, live)

  -- The assignment to another buffer that owns a block of its own.
  pub assign-ok :
      (b : Object) (r : ℕ) (old : ℕ → ℕ)
      → Owns h b r old
      → r ≢ p
      → (c : Object) × (h' : Heap) × (assign b o h ≡ ok c h')
        × (c.storage ≡ some h.next)
        × (h'.block h.next ≡ some copied)
        × (h'.block r ≡ none)
        × (h'.block p ≡ some units)
  unfolding assign free_my_mem delete create_other load new_block
  assign-ok b r old other ne = (
    record o { storage = some h.next },
    record { next = h.next + 1; block = write (write h.block r none) h.next (some copied) },
    ground (arith, owner, points, live, other.owner, other.points, other.live),
    refl,
    ground arith,
    ground (arith, other.below),
    ground (arith, live, below),
  )
