-- ===== src/Buffers/Sharing.antt =====
-- The Buffer objects of a process that use the descriptors: calls of getBuffer, copies and
-- destructions of Buffers, in one sequence. The abstract view counts the objects of each
-- descriptor.
mod Tests
pub mod Agreement
pub mod Created
pub mod Counted
use cppgenerics.Prelude.{
  ℕ, ◌+◌, ◌-◌, ◌<◌, ◌≡◌, ◌^◌, some, List, [], ◌∷◌, ◌==◌, if◌then◌else◌, write, true, length,
}
use cppgenerics.Buffers.Descriptors.{Search, found, missing, out_of_fuel}
use cppgenerics.Buffers.Linked.{free_with}
use cppgenerics.Buffers.Manager.{
  Os, Buffer, M, size_t, futex_bytes, alloc_shm_key, find_atch, erase_atch, get_buffer, ◌>>=◌, ◌>>◌,
  pure, copy_buffer, destroy_buffer,
}
use cppgenerics.Buffers.Registry.{Registry, remove, lookup, reserve_spec, Behind}

-- `created` is a call of getBuffer that makes a buffer, which is attached at the address; `opened` is one
-- for an id that has a descriptor.
pub data Use : Type 0 where
  created : Os → List ℕ → ℕ → ℕ → Use
  opened : Os → List ℕ → ℕ → Use
  copied : Buffer → Use
  destroyed : Buffer → Use

-- getBuffer, the copy constructor, and the destructor.
unfoldable pub step : ℕ → Use → M (Unit {0})
unfolding get_buffer copy_buffer destroy_buffer
step fuel (created os id bytes ptr) = get_buffer fuel os id bytes >>= λ _. pure tt
step fuel (opened os id bytes) = get_buffer fuel os id bytes >>= λ _. pure tt
step fuel (copied b) = copy_buffer (some b) >>= λ _. pure tt
step fuel (destroyed b) = destroy_buffer (some b)

unfoldable pub run : ℕ → List Use → M (Unit {0})
unfolding step
run fuel [] = pure tt
run fuel (op ∷ ops) = step fuel op >> run fuel ops

-- How many objects there are for each descriptor, which descriptors are in use, and what is attached.
pub record Users : Type 0 where
  pub registry : Registry
  pub users : ℕ → ℕ
  pub attached : List (ℕ × ℕ)

abbrev pub without : ℕ → Users → Users
without d u =
    if u.users d == 1
    then record {
      registry = record { free = free_with d u.registry.free; full = remove d u.registry.full };
      users = write u.users d 0;
      attached = erase_atch d u.attached;
    }
    else record u { users = write u.users d (u.users d - 1) }

abbrev pub with_one : Search → Users → Users
with_one (found i) u = record u { users = write u.users i (u.users i + 1) }
with_one _ u = u

abbrev pub with_new : List ℕ → ℕ → List ℕ → Users → Users
with_new id ptr [] u = u
with_new id ptr (x ∷ free) u = record {
  registry = (reserve_spec id (x ∷ free) u.registry.full).1;
  users = write u.users x 1;
  attached = (x, ptr) ∷ erase_atch x u.attached;
}

abbrev pub step_spec : Use → Users → Users
step_spec (created os id bytes ptr) u = with_new id ptr u.registry.free u
step_spec (opened os id bytes) u = with_one (lookup id u.registry.full) u
step_spec (copied b) u = record u { users = write u.users b.descriptor (u.users b.descriptor + 1) }
step_spec (destroyed b) u = without b.descriptor u

abbrev pub run_spec : List Use → Users → Users
run_spec [] u = u
run_spec (op ∷ ops) u = run_spec ops (step_spec op u)

-- The id has a descriptor that is attached.
abbrev pub IsKnown : Search → Users → Type 0
IsKnown (found i) u =
    (0 < u.users i) × (u.users i + 1 < 2 ^ 64) × ((ptr : ℕ) × (find_atch i u.attached ≡ some ptr))
IsKnown _ u = ⊥

-- The id has no descriptor, one is free, and the size and the system allow a segment.
abbrev pub IsNew : ℕ → Os → List ℕ → ℕ → ℕ → Users → Type 0
IsNew fuel os id bytes ptr u =
    (lookup id u.registry.full ≡ missing)
    × (0 < length u.registry.free)
    × (0 < bytes)
    × (bytes + futex_bytes < 2 ^ 64)
    × ((key : ℕ) × (shm : ℕ) × (alloc_shm_key fuel os 0 ≡ some key)
        × (os.shmget key (size_t (bytes + futex_bytes)) true ≡ some shm)
        × (os.shmat shm ≡ some ptr))

-- The object exists; a copy does not overflow the count; and the last object of a descriptor is not
-- destroyed while the descriptor is the one taken last.
abbrev pub IsLegal : ℕ → Use → Users → Type 0
IsLegal fuel (created os id bytes ptr) u = IsNew fuel os id bytes ptr u
IsLegal fuel (opened os id bytes) u = IsKnown (lookup id u.registry.full) u
IsLegal fuel (copied b) u = (0 < u.users b.descriptor) × (u.users b.descriptor + 1 < 2 ^ 64)
IsLegal fuel (destroyed b) u =
    (0 < u.users b.descriptor) × (u.users b.descriptor ≡ 1 → Behind b.descriptor u.registry.full)

abbrev pub AreLegal : ℕ → List Use → Users → Type 0
AreLegal fuel [] u = Unit {0}
AreLegal fuel (op ∷ ops) u = IsLegal fuel op u × AreLegal fuel ops (step_spec op u)
