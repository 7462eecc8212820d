-- ===== src/Buffers/Manager/Held.antt =====
-- A Buffer member that is assigned the result of getBuffer.
use cppgenerics.Prelude.{ℕ, ◌+◌, ◌^◌, ◌<◌, ◌≡◌, ap, ◌∙◌, false, none, some, List, ◌==◌, arith}
use cppgenerics.Buffers.Descriptors.{BufferDescriptor}
use cppgenerics.Buffers.Manager.{
  Os, Buffer, Manager, ok, M, ◌>>=◌, ◌>>◌, >>=-ok, pure, size_t, dec, storage, with_storage,
  get_buffer, Slot, copy_buffer, assign_buffer, destroy_buffer, buffer_free, detach_if,
}
use cppgenerics.Buffers.Manager.Refs.{with_refs}

-- A Buffer member that is assigned what getBuffer returns, as in Container's and MutexManager's
-- initialisation: the temporary is copied and destroyed.
unfoldable pub hold : ℕ → Os → List ℕ → ℕ → M Slot
unfolding get_buffer assign_buffer destroy_buffer
hold fuel os id bytes = do
  temporary ← get_buffer fuel os id bytes
  held ← assign_buffer none (some temporary)
  destroy_buffer (some temporary)
  pure held

-- A write of what stands there.
with_storage_same :
    (m : Manager) (g : ℕ → BufferDescriptor) → ((a : ℕ) → g a ≡ storage m a) → with_storage m g ≡ m
with_storage_same m g e i = with_storage m (λ a. e a i)

-- A reference more, and the destruction of a Buffer.
destroyed :
    (b : Buffer) (m : Manager)
    → 0 < (storage m b.descriptor).ref_count
    → (storage m b.descriptor).ref_count + 1 < 2 ^ 64
    → destroy_buffer
        (some b)
        (with_refs b.descriptor (size_t ((storage m b.descriptor).ref_count + 1)) m)
      ≡ ok tt m
unfolding destroy_buffer buffer_free
destroyed b m held fits =
    let up : Manager = with_refs b.descriptor (size_t ((storage m b.descriptor).ref_count + 1)) m in
    let down : Manager = with_refs b.descriptor (dec (storage up b.descriptor).ref_count) up in
    let more : ((storage down b.descriptor).ref_count == 0) ≡ false = ground arith in
    ap (λ t. detach_if t b.descriptor down) more
    ∙ ap (ok tt) (with_storage_same m (storage down) (λ a. ground arith))

-- Where getBuffer returns a buffer that has a reference, its count plus one in a size_t, a member that
-- is assigned the result ends up with this buffer and the state that getBuffer leaves.
pub hold-get_buffer :
    (fuel : ℕ) (os : Os) (id : List ℕ) (bytes : ℕ) (m m' : Manager) (b : Buffer)
    → get_buffer fuel os id bytes m ≡ ok b m'
    → 0 < (storage m' b.descriptor).ref_count
    → (storage m' b.descriptor).ref_count + 1 < 2 ^ 64
    → hold fuel os id bytes m ≡ ok (some b) m'
unfolding hold assign_buffer copy_buffer
hold-get_buffer fuel os id bytes m m' b got held fits =
    let up : Manager =
      with_refs b.descriptor (size_t ((storage m' b.descriptor).ref_count + 1)) m' in
    >>=-ok (get_buffer fuel os id bytes) _ m m' b got
    ∙ >>=-ok (destroy_buffer (some b)) (λ _. pure (some b)) up m' tt (destroyed b m' held fits)
