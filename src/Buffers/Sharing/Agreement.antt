-- ===== src/Buffers/Sharing/Agreement.antt =====
-- What the table and the numbers of Buffer objects have in common.
use cppgenerics.Prelude.{ℕ, ◌<◌, ◌≡◌, ◌^◌, ltb, has}
use cppgenerics.Buffers.Manager.{Manager, ok, M, storage}
use cppgenerics.Buffers.Registry.{keys}
use cppgenerics.Buffers.Registry.Refine.{Holds}
use cppgenerics.Buffers.Sharing.{Users}

-- The count of each descriptor is the number of its objects, and just the descriptors with an object
-- are in use.
pub record Agrees (capacity : ℕ) (m : Manager) (u : Users) : Type 0 where
  pub holds : Holds capacity m.shared u.registry
  pub counted : (a : ℕ) → (storage m a).ref_count ≡ u.users a
  pub bounded : (a : ℕ) → u.users a < 2 ^ 64
  pub attached : m.local_atchs ≡ u.attached
  pub in_use : (a : ℕ) → has a (keys u.registry.full) ≡ ltb 0 (u.users a)

-- A step ends well and keeps the counts.
abbrev pub Keeps : ℕ → M (Unit {0}) → Manager → Users → Type 0
Keeps capacity c m u = (m' : Manager) × (c m ≡ ok tt m') × Agrees capacity m' u
