-- ===== src/Buffers/Registry.antt =====
-- What the descriptor table promises to getBuffer, bufferFree and the searches, with no links: the
-- free indices, and the indices in use with their ids, the last one taken first. A released index
-- is free again only if no other was. `Table` has the
-- code's operations, `Registry` the promised ones.
mod Tests
pub mod Refine
pub mod Lost
use cppgenerics.Prelude.{
  ℕ, ◌≡◌, Bool, true, false, not, ◌&&◌, Option, none, some, List, [], ◌∷◌, ◌==◌, if◌then◌else◌, has,
  take, write,
}
use cppgenerics.Buffers.Descriptors.{
  Idx, Shared, Search, found, missing, descriptor_max_len, c_str, matches, get_free_descriptor,
  put_free_descriptor, get_descriptor,
}
use cppgenerics.Buffers.Linked.{free_with}
use cppgenerics.Buffers.Manager.{filled}

-- An operation on the table: reserve takes a free descriptor for an id and a size.
pub data Op : Type 0 where
  reserve : List ℕ → ℕ → Op
  release : ℕ → Op
  search : List ℕ → Op

pub data Reply : Type 0 where
  reserved : Option ℕ → Reply
  released : Reply
  answer : Search → Reply

-- The part of getBuffer that takes and fills a descriptor.
unfoldable pub reserve_in : List ℕ → ℕ → Idx × Shared → Idx × Shared
reserve_in id bytes (none, s) = (none, s)
reserve_in id bytes (some i, s) = (
  some i,
  record s { main_storage = write s.main_storage i (filled id bytes (s.main_storage i)) },
)

unfoldable pub step : ℕ → Op → Shared → Reply × Shared
unfolding reserve_in
step fuel (reserve id bytes) s =
    let (i, t) = reserve_in id bytes (get_free_descriptor s) in (reserved i, t)
step fuel (release i) s = (released, put_free_descriptor i s)
step fuel (search id) s = (answer (get_descriptor fuel id s), s)

unfoldable pub run : ℕ → List Op → Shared → List Reply
unfolding step
run fuel [] s = []
run fuel (op ∷ ops) s = let (reply, t) = step fuel op s in reply ∷ run fuel ops t

abbrev pub Entry : Type 0
Entry = ℕ × List ℕ

pub record Registry : Type 0 where
  pub free : List ℕ
  pub full : List Entry

abbrev pub keys : List Entry → List ℕ
keys [] = []
keys ((i, id) ∷ es) = i ∷ keys es

-- Without the first entry of the index.
abbrev pub remove : ℕ → List Entry → List Entry
remove i [] = []
remove i ((j, id) ∷ es) = if j == i then es else (j, id) ∷ remove i es

abbrev pub lookup : List ℕ → List Entry → Search
lookup id [] = missing
lookup id ((i, stored) ∷ es) = if matches id stored then found i else lookup id es

abbrev pub reserve_spec : List ℕ → List ℕ → List Entry → Reply × Registry
reserve_spec id [] full = (reserved none, record { free = []; full = full })
reserve_spec id (x ∷ free) full = (
  reserved (some x),
  record { free = free; full = (x, take descriptor_max_len (c_str id)) ∷ full },
)

abbrev pub step_spec : Op → Registry → Reply × Registry
step_spec (reserve id bytes) r = reserve_spec id r.free r.full
step_spec (release i) r = (released, record { free = free_with i r.free; full = remove i r.full })
step_spec (search id) r = (answer (lookup id r.full), r)

abbrev pub run_spec : List Op → Registry → List Reply
run_spec [] r = []
run_spec (op ∷ ops) r = (step_spec op r).0 ∷ run_spec ops (step_spec op r).1

-- A release of an index in use that is not the one taken last.
abbrev pub Behind : ℕ → List Entry → Type 0
Behind i [] = ⊥
Behind i ((j, id) ∷ es) = ((j == i) ≡ false) × (has i (keys es) ≡ true)

abbrev pub IsLegal : Op → Registry → Type 0
IsLegal (release i) r = Behind i r.full
IsLegal _ r = Unit {0}

abbrev pub AreLegal : List Op → Registry → Type 0
AreLegal [] r = Unit {0}
AreLegal (op ∷ ops) r = IsLegal op r × AreLegal ops (step_spec op r).1
