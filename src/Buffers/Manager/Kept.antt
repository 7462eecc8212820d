-- ===== src/Buffers/Manager/Kept.antt =====
-- Changes of the descriptors' contents keep the table well-formed.
use cppgenerics.Prelude.{ℕ, ◌≡◌, List}
use cppgenerics.Buffers.Descriptors.{Shared}
use cppgenerics.Buffers.Chain.{SameLinks, Chain-frame}
use cppgenerics.Buffers.Linked.{IsLinked}

-- The lists are read from two indices of the control block and the links alone.
pub IsLinked-frame :
    (capacity : ℕ) (s t : Shared) (free full : List ℕ)
    → t.control.next_free_idx ≡ s.control.next_free_idx
    → t.control.next_full_idx ≡ s.control.next_full_idx
    → ((a : ℕ) → SameLinks (t.main_storage a) (s.main_storage a))
    → IsLinked capacity s free full
    → IsLinked capacity t free full
IsLinked-frame capacity s t free full e f same inv = record {
  free_chain = rw e (
      Chain-frame s.main_storage t.main_storage inv.before_free _ free (λ a i. same a)
        inv.free_chain);
  full_chain = rw f (
      Chain-frame s.main_storage t.main_storage inv.before_full _ full (λ a i. same a)
        inv.full_chain);
  lost = inv.lost;
  before_free = inv.before_free;
  before_full = inv.before_full;
  before_free_lost = inv.before_free_lost;
  before_full_lost = inv.before_full_lost;
  lost_distinct = inv.lost_distinct;
  lost_free = inv.lost_free;
  lost_full = inv.lost_full;
  free_distinct = inv.free_distinct;
  full_distinct = inv.full_distinct;
  apart = inv.apart;
  covers = inv.covers;
  count = inv.count;
}
