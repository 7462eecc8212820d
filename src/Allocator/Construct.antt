-- ===== src/Allocator/Construct.antt =====
-- The constructor of IPC::Allocator (include/cppgenerics/IPC_Allocator.h) over BufferManager: the two
-- buffers, and the model in the second. What the operating system answers may differ between the
-- two calls of getBuffer.
use cppgenerics.Prelude.{
  ℕ, ◌*◌, ◌/◌, ◌^◌, ◌≤◌, ◌<◌, ◌≡◌, ap, ◌∙◌, subst, sym, none, some, List, ◌∷◌, arith, false, ◌==◌,
}
use cppgenerics.BitBuffer.{BitBuffer, Access, unit_bytes, get_size_bytes, new_bit_buffer}
use cppgenerics.BitBuffer
use cppgenerics.Buffers.Manager.{
  Os, Buffer, Manager, Slot, ok, faults, M, ◌>>=◌, >>=-ok, pure, storage, get_buffer,
}
use cppgenerics.Buffers.Manager.Get.{Created}
use cppgenerics.Buffers.Manager.Held.{hold, hold-get_buffer}
use cppgenerics.Allocator.{Allocator, allocate, attach}
use cppgenerics.Allocator.Regions.{small}
use cppgenerics.Allocator.Attach.{attach-allocate}

-- The buffers that the constructor holds, and the rest of it.
pub record Constructed : Type 0 where
  pub storage_buffer : Slot
  pub model_buffer : Slot
  pub allocator : Access Allocator

-- The constructor behind the storage buffer. `units` is what the model buffer holds and `bytes` what
-- the storage buffer holds.
unfoldable pub with_storage_buffer :
    ℕ → Os → List ℕ → List ℕ → ℕ → (ℕ → ℕ) → (ℕ → ℕ) → Slot → M Constructed
unfolding hold attach
with_storage_buffer fuel os storage_key model_key elem_size units bytes none = λ _. faults
with_storage_buffer fuel os storage_key model_key elem_size units bytes (some b) = do
  model_buffer ← hold fuel os model_key (get_size_bytes (b.size / elem_size))
  pure (record {
    storage_buffer = some b;
    model_buffer = model_buffer;
    allocator = attach storage_key model_key elem_size b.size units bytes;
  })

-- Allocator::Allocator(storageKey, modelKey, maxBytes).
unfoldable pub construct : ℕ → Os → Os → List ℕ → List ℕ → ℕ → ℕ → (ℕ → ℕ) → (ℕ → ℕ) → M Constructed
unfolding hold with_storage_buffer
construct fuel os later storage_key model_key elem_size max_bytes units bytes = do
  storage_buffer ← hold fuel os storage_key max_bytes
  with_storage_buffer fuel later storage_key model_key elem_size units bytes storage_buffer

-- The bytes of the units over which init goes are those that getSizeBytes gives.
num_units-get_size_bytes :
    (n : ℕ) (units : ℕ → ℕ)
    → n < 2 ^ 63
    → (new_bit_buffer n units).num_units * unit_bytes ≡ get_size_bytes n
unfolding new_bit_buffer get_size_bytes
num_units-get_size_bytes n units small_enough = ground arith

-- Where getBuffer makes a new buffer for each of the two keys, for a storage of `max_bytes` and at most
-- 31 elements, at least one: the constructor ends well and holds just these buffers, one reference
-- each; the units that its init writes fill the model buffer exactly; and for every number of
-- elements up to all, the next allocate gives the start of the storage.
pub construct-allocate :
    (capacity fuel elem_size max_bytes num x y ptr ptr' : ℕ) (os later : Os)
    (storage_key model_key free full : List ℕ) (units bytes : ℕ → ℕ) (m m' m'' : Manager)
    (b mb : Buffer)
    → get_buffer fuel os storage_key max_bytes m ≡ ok b m'
    → Created capacity m x (y ∷ free) full storage_key max_bytes ptr b m'
    → get_buffer fuel later model_key (get_size_bytes (max_bytes / elem_size)) m' ≡ ok mb m''
    → Created capacity m' y free
        (x ∷ full)
        model_key
        (get_size_bytes (max_bytes / elem_size))
        ptr'
        mb
        m''
    → max_bytes / elem_size ≤ small
    → num ≤ max_bytes / elem_size
    → (a a' : Allocator) × (construct fuel os later storage_key model_key elem_size max_bytes units
          bytes m
        ≡ ok
            (record { storage_buffer = some b; model_buffer = some mb; allocator = BitBuffer.ok a })
            m'')
      × ((storage m'' b.descriptor).ref_count ≡ 1)
      × ((storage m'' mb.descriptor).ref_count ≡ 1)
      × ((new_bit_buffer (max_bytes / elem_size) units).num_units * unit_bytes ≡ mb.size)
      × (allocate a num ≡ BitBuffer.ok (some 0, a'))
unfolding construct with_storage_buffer
construct-allocate capacity fuel elem_size max_bytes num x y ptr ptr' os later storage_key model_key
      free full units bytes m m' m'' b mb got made got' made' few fits =
    let refs : (storage m' b.descriptor).ref_count ≡ 1 =
      ap (λ i. (storage m' i).ref_count) made.of ∙ made.refs in
    let refs' : (storage m'' mb.descriptor).ref_count ≡ 1 =
      ap (λ i. (storage m'' i).ref_count) made'.of ∙ made'.refs in
    let (a, a', attached, given) =
      attach-allocate storage_key model_key elem_size max_bytes num units bytes few fits in
    let held =
      hold-get_buffer fuel os storage_key max_bytes m m' b got (omega arith) (omega arith) in
    let size : get_size_bytes (b.size / elem_size) ≡ get_size_bytes (max_bytes / elem_size) =
      ap (λ n. get_size_bytes (n / elem_size)) made.size in
    let held' : hold fuel later model_key (get_size_bytes (b.size / elem_size)) m'
        ≡ ok (some mb) m'' =
      ap (λ n. hold fuel later model_key n m') size
      ∙ hold-get_buffer fuel later model_key (get_size_bytes (max_bytes / elem_size)) m' m'' mb got'
          (omega arith) (omega arith) in
    let apart : (y == b.descriptor) ≡ false =
      subst (λ i. (y == i) ≡ false) (sym made.of) (ground (arith, made'.linked.full_distinct.0)) in
    let refs_kept : (storage m'' b.descriptor).ref_count ≡ 1 =
      ap (λ d. d.ref_count) (made'.others b.descriptor apart) ∙ refs in
    (
      a,
      a',
      >>=-ok (hold fuel os storage_key max_bytes)
            (with_storage_buffer fuel later storage_key model_key elem_size units bytes) m m'
            (some b) held
          ∙ >>=-ok (hold fuel later model_key (get_size_bytes (b.size / elem_size)))
              (λ s. pure (record {
                storage_buffer = some b;
                model_buffer = s;
                allocator = attach storage_key model_key elem_size b.size units bytes;
              }))
              m' m'' (some mb) held'
          ∙ ap
              (λ r.
                ok (record { storage_buffer = some b; model_buffer = some mb; allocator = r }) m'')
              (ap (λ n. attach storage_key model_key elem_size n units bytes) made.size ∙ attached),
      refs_kept,
      refs',
      num_units-get_size_bytes (max_bytes / elem_size) units (omega arith) ∙ sym made'.size,
      given,
    )
