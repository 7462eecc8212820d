-- ===== src/Buffers/Manager/Refs.antt =====
-- The reference counts of the buffers: mapping, copying, releasing.
use cppgenerics.Prelude.{
  ℕ, suc, ◌+◌, ◌-◌, ◌^◌, ◌<◌, ◌≡◌, refl, ap, ◌∙◌, true, false, some, List, [], ◌∷◌, ◌++◌, ◌==◌,
  write, arith,
}
use cppgenerics.Buffers.Descriptors.{content, found, get_descriptor}
use cppgenerics.Buffers.Linked.{IsLinked, free_with}
use cppgenerics.Buffers.Release.{put_free_descriptor-IsLinked, put_free_descriptor-content}
use cppgenerics.Buffers.Manager.{
  Os, Manager, Buffer, ok, storage, with_storage, size_t, dec, futex_bytes, find_atch, erase_atch,
  map_buffer, get_buffer, buffer_free, detach_if, detach_descriptor, copy_buffer, destroy_buffer,
  local_ptr, >>=-ok, ◌>>=◌,
}
use cppgenerics.Buffers.Manager.Kept.{IsLinked-frame}

-- The state with the reference count of one descriptor replaced.
abbrev pub with_refs : ℕ → ℕ → Manager → Manager
with_refs i n m = with_storage m (write (storage m) i (record (storage m i) { ref_count = n }))

pub with_refs-IsLinked :
    (capacity i n : ℕ) (m : Manager) (free full : List ℕ)
    → IsLinked capacity m.shared free full
    → IsLinked capacity (with_refs i n m).shared free full
with_refs-IsLinked capacity i n m free full =
    IsLinked-frame capacity m.shared (with_refs i n m).shared free full refl refl
      (λ a. ground arith)

-- The buffer that maps descriptor `i` at `ptr`.
abbrev pub mapped : ℕ → ℕ → Manager → Buffer
mapped i ptr m = record {
  size = size_t ((storage m i).bytes + 2 ^ 64 - futex_bytes);
  ptr = ptr;
  sptr = ptr + futex_bytes;
  descriptor = i;
  is_creator = false;
}

-- getBuffer of a known id whose segment is attached in this process.
pub get_buffer-found :
    (fuel : ℕ) (os : Os) (id : List ℕ) (bytes : ℕ) (m : Manager) (i ptr : ℕ)
    → get_descriptor fuel id m.shared ≡ found i
    → find_atch i m.local_atchs ≡ some ptr
    → let m' = with_refs i (size_t ((storage m i).ref_count + 1)) m in
      get_buffer fuel os id bytes m ≡ ok (mapped i ptr m') m'
unfolding get_buffer map_buffer
get_buffer-found fuel os id bytes m i ptr known here =
    let attached : local_ptr os i (find_atch i m.local_atchs) m ≡ ok ptr m =
      rw here (unfold local_ptr in refl) in
    rw (known, get_buffer) (>>=-ok (local_ptr os i (find_atch i m.local_atchs)) _ m m ptr attached)

-- In a well-linked table, when getDescriptor finds the id at a descriptor that is attached in this
-- process and whose count plus one fits in a size_t, getBuffer gives the attached address and the
-- descriptor and adds one reference. The lists and the futex words stay.
pub get_buffer-mapped :
    (capacity fuel : ℕ) (os : Os) (id : List ℕ) (bytes : ℕ) (m : Manager) (i ptr : ℕ)
    (free full : List ℕ)
    → IsLinked capacity m.shared free full
    → get_descriptor fuel id m.shared ≡ found i
    → find_atch i m.local_atchs ≡ some ptr
    → (storage m i).ref_count + 1 < 2 ^ 64
    → (b : Buffer) × (m' : Manager) × (get_buffer fuel os id bytes m ≡ ok b m')
      × IsLinked capacity m'.shared free full
      × ((storage m' i).ref_count ≡ (storage m i).ref_count + 1)
      × (b.descriptor ≡ i)
      × (b.ptr ≡ ptr)
      × (b.is_creator ≡ false)
      × (m'.words ≡ m.words)
unfolding get_buffer map_buffer
get_buffer-mapped capacity fuel os id bytes m i ptr free full inv known here fits =
    let m' : Manager = with_refs i (size_t ((storage m i).ref_count + 1)) m in
    (
      mapped i ptr m',
      m',
      get_buffer-found fuel os id bytes m i ptr known here,
      with_refs-IsLinked capacity i _ m free full inv,
      ground arith,
      refl,
      refl,
      refl,
      refl,
    )

-- In a well-linked table, bufferFree of a descriptor with two references or more takes one
-- reference; the lists and the attachments stay.
buffer_free-shared :
    (capacity : ℕ) (b : Buffer) (m : Manager) (n : ℕ) (free full : List ℕ)
    → IsLinked capacity m.shared free full
    → (storage m b.descriptor).ref_count ≡ suc (suc n)
    → suc (suc n) < 2 ^ 64
    → (m' : Manager) × (buffer_free b m ≡ ok tt m')
      × IsLinked capacity m'.shared free full
      × ((storage m' b.descriptor).ref_count ≡ suc n)
      × (m'.local_atchs ≡ m.local_atchs)
unfolding buffer_free
buffer_free-shared capacity b m n free full inv refs fits =
    let m' : Manager = with_refs b.descriptor (dec (storage m b.descriptor).ref_count) m in
    let more : ((storage m' b.descriptor).ref_count == 0) ≡ false = ground arith in
    (
      m',
      ap (λ t. detach_if t b.descriptor m') more,
      with_refs-IsLinked capacity b.descriptor _ m free full inv,
      ground arith,
      refl,
    )

-- In a well-linked table, when a descriptor that is full behind some other has one reference,
-- bufferFree takes it from the full list, with an empty id, erases its attachment, and leaves all
-- other descriptors' contents; the free list is the descriptor alone if it was empty, and else as
-- it was.
pub buffer_free-last :
    (capacity : ℕ) (b : Buffer) (m : Manager) (free ys : List ℕ) (e : ℕ) (zs : List ℕ)
    → IsLinked capacity m.shared free (ys ++ (e ∷ b.descriptor ∷ zs))
    → (storage m b.descriptor).ref_count ≡ 1
    → (m' : Manager) × (buffer_free b m ≡ ok tt m')
      × IsLinked capacity m'.shared (free_with b.descriptor free) (ys ++ (e ∷ zs))
      × ((storage m' b.descriptor).id ≡ [])
      × (m'.local_atchs ≡ erase_atch b.descriptor m.local_atchs)
      × ((a : ℕ) → (b.descriptor == a) ≡ false → content (storage m' a) ≡ content (storage m a))
unfolding buffer_free detach_descriptor
buffer_free-last capacity b m free ys e zs inv refs =
    let left : Manager = with_refs b.descriptor (dec (storage m b.descriptor).ref_count) m in
    let m' : Manager = detach_descriptor b.descriptor left in
    let zero_left : ((storage left b.descriptor).ref_count == 0) ≡ true = ground arith in
    let kept : IsLinked capacity left.shared free (ys ++ (e ∷ b.descriptor ∷ zs)) =
      with_refs-IsLinked capacity b.descriptor _ m free (ys ++ (e ∷ b.descriptor ∷ zs)) inv in
    let erased = put_free_descriptor-content b.descriptor left.shared in
    (
      m',
      ap (λ t. detach_if t b.descriptor left) zero_left,
      put_free_descriptor-IsLinked capacity left.shared free ys e b.descriptor zs kept,
      ap (λ d. d.id) (erased b.descriptor) ∙ ground arith,
      refl,
      λ a ne. erased a ∙ ground arith,
    )

-- When a descriptor has a reference and its count plus one fits in a size_t, a copy of its Buffer
-- and the destruction of the copy leave every descriptor, the control block and the attachments as
-- they were.
destroy_buffer-copy_buffer :
    (b : Buffer) (m : Manager)
    → 0 < (storage m b.descriptor).ref_count
    → (storage m b.descriptor).ref_count + 1 < 2 ^ 64
    → (m' : Manager) × ((copy_buffer (some b) >>= destroy_buffer) m ≡ ok tt m')
      × ((a : ℕ) → storage m' a ≡ storage m a)
      × (m'.shared.control ≡ m.shared.control)
      × (m'.local_atchs ≡ m.local_atchs)
unfolding copy_buffer destroy_buffer buffer_free
destroy_buffer-copy_buffer b m held fits =
    let up : Manager = with_refs b.descriptor (size_t ((storage m b.descriptor).ref_count + 1)) m in
    let m' : Manager = with_refs b.descriptor (dec (storage up b.descriptor).ref_count) up in
    let more : ((storage m' b.descriptor).ref_count == 0) ≡ false = ground arith in
    (m', ap (λ t. detach_if t b.descriptor m') more, λ a. ground arith, refl, refl)
