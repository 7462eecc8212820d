-- ===== src/Buffers/Walk.antt =====
-- getDescriptor walks the whole list and ends.
use cppgenerics.Prelude.{
  ℕ, zero, suc, ◌<◌, ◌≡◌, true, false, some, List, [], ◌∷◌, if◌then◌else◌, length, has, arith,
  Bool-cases, inl, inr,
}
use cppgenerics.Buffers.Descriptors.{
  Idx, Storage, Shared, matches, Search, found, missing, out_of_fuel, search_from, get_descriptor,
}
use cppgenerics.Buffers.Chain.{Chain}
use cppgenerics.Buffers.Linked.{IsLinked}

-- The first of `xs` whose id matches.
unfoldable pub first_match : List ℕ → Storage → List ℕ → Search
first_match id m [] = missing
first_match id m (x ∷ xs) = if matches id (m x).id then found x else first_match id m xs

search_from-first_match :
    (fuel : ℕ) (id : List ℕ) (m : Storage) (p : Idx) (x : ℕ) (xs : List ℕ)
    → Chain m p (some x) (x ∷ xs)
    → length (x ∷ xs) < fuel
    → search_from fuel id m x ≡ first_match id m (x ∷ xs)
unfolding search_from first_match
search_from-first_match zero id m p x xs c enough = absurd (omega arith)
search_from-first_match (suc fuel) id m p x [] c enough = rw c.2
search_from-first_match (suc fuel) id m p x (y ∷ ys) c enough =
    rw c.2.0 (rw (search_from-first_match fuel id m (some x) y ys (ground arith) (omega arith)))

-- Over any list that starts at the control block's index, with fuel above its length.
pub get_descriptor-first_match :
    (fuel : ℕ) (id : List ℕ) (s : Shared) (p : Idx) (xs : List ℕ)
    → Chain s.main_storage p s.control.next_full_idx xs
    → length xs < fuel
    → get_descriptor fuel id s ≡ first_match id s.main_storage xs
unfolding get_descriptor first_match
get_descriptor-first_match fuel id s p [] c enough = rw (c, get_descriptor)
get_descriptor-first_match fuel id s p (x ∷ xs) c enough =
    rw (c.0, get_descriptor)
      (search_from-first_match fuel id s.main_storage p x xs (ground arith) enough)

-- What a search may answer about the full list.
abbrev pub Answers : List ℕ → Storage → List ℕ → Search → Type 0
Answers id m xs (found i) = (has i xs ≡ true) × (matches id (m i).id ≡ true)
Answers id m xs missing = (a : ℕ) → has a xs ≡ true → matches id (m a).id ≡ false
Answers id m xs out_of_fuel = ⊥

first_match-Answers :
    (id : List ℕ) (m : Storage) (xs : List ℕ) → Answers id m xs (first_match id m xs)
unfolding first_match
first_match-Answers id m [] = λ a i. cc
first_match-Answers id m (x ∷ xs) = elim (Bool-cases (matches id (m x).id)) [
  | inl hit ↦ rw hit (ground arith)
  | inr miss ↦ rw miss (later miss (first_match id m xs) (first_match-Answers id m xs))
]
  where
    later : matches id (m x).id ≡ false → (r : Search) → Answers id m xs r → Answers id m (x ∷ xs) r
    later miss (found i) h = ground arith
    later miss missing h = λ a i. ground (arith, h a)
    later miss out_of_fuel h = h

-- In a well-formed table, with fuel above the capacity, getDescriptor ends; an index that it
-- returns is full and matches the id, and if it returns none then no full descriptor matches.
pub get_descriptor-Answers :
    (capacity fuel : ℕ) (id : List ℕ) (s : Shared) (free full : List ℕ)
    → IsLinked capacity s free full
    → capacity < fuel
    → Answers id s.main_storage full (get_descriptor fuel id s)
get_descriptor-Answers capacity fuel id s free full inv enough =
    rw
      (get_descriptor-first_match fuel id s inv.before_full full inv.full_chain
        (omega (arith, inv.count)))
      (first_match-Answers id s.main_storage full)
