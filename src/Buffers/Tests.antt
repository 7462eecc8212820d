-- ===== src/Buffers/Tests.antt =====
-- A table of three descriptors, runs of the operations on it, and the theorems at it.
use cppgenerics.Prelude.{
  ℕ, ◌+◌, ◌≡◌, refl, ap, ◌∙◌, true, false, none, some, [], ◌∷◌, ◌==◌, subst, has, arith,
}
use cppgenerics.Buffers.Descriptors.{
  Shared, content, zeroed, init_descriptors, take_free, get_free_descriptor, put_free_descriptor,
  found, missing, out_of_fuel, get_descriptor, matches,
}
use cppgenerics.Buffers.Linked.{IsLinked, Blank}
use cppgenerics.Buffers.Init.{new_control, init_descriptors-IsLinked}
use cppgenerics.Buffers.Take.{take_free-IsLinked}
use cppgenerics.Buffers.Release.{put_free_descriptor-IsLinked}
use cppgenerics.Buffers.Walk.{Answers, get_descriptor-Answers}
use cppgenerics.Buffers.HeadRelease.{get_descriptor-put_head, get_descriptor-take_put_head}
use cppgenerics.Buffers.Manager.{
  Os, Manager, Buffer, ok, storage, get_buffer, buffer_free, alloc_shm_key, erase_atch,
}
use cppgenerics.Buffers.Manager.Get.{Created, get_buffer-Created, Created-found}
use cppgenerics.Buffers.Manager.Refs.{
  with_refs, with_refs-IsLinked, get_buffer-mapped, buffer_free-last,
}

abbrev pub three : Shared
three = record { control = new_control 7; main_storage = init_descriptors 3 (λ _. zeroed) }

abbrev one_taken : Shared
one_taken = take_free 0 three

abbrev two_taken : Shared
two_taken = take_free 1 one_taken

pub three-IsLinked : IsLinked 3 three (0 ∷ 1 ∷ 2 ∷ []) []
three-IsLinked = init_descriptors-IsLinked 3 7 (λ _. zeroed) (omega arith)

take_free-IsLinked_example : IsLinked 3 (take_free 0 three) (1 ∷ 2 ∷ []) (0 ∷ [])
take_free-IsLinked_example = take_free-IsLinked 3 three 0 (1 ∷ 2 ∷ []) [] three-IsLinked

two_taken-IsLinked : IsLinked 3 two_taken (2 ∷ []) (1 ∷ 0 ∷ [])
two_taken-IsLinked =
    take_free-IsLinked 3 one_taken 1 (2 ∷ []) (0 ∷ [])
      (take_free-IsLinked 3 three 0 (1 ∷ 2 ∷ []) [] three-IsLinked)

put_free_descriptor-IsLinked_example :
    IsLinked 3 (put_free_descriptor 0 two_taken) (2 ∷ []) (1 ∷ [])
put_free_descriptor-IsLinked_example =
    put_free_descriptor-IsLinked 3 two_taken (2 ∷ []) [] 1 0 [] two_taken-IsLinked

get_descriptor-Answers_example :
    Answers (65 ∷ []) two_taken.main_storage (1 ∷ 0 ∷ []) (get_descriptor 4 (65 ∷ []) two_taken)
get_descriptor-Answers_example =
    get_descriptor-Answers 3 4 (65 ∷ []) two_taken (2 ∷ []) (1 ∷ 0 ∷ []) two_taken-IsLinked
      (omega arith)

last_free-Blank : (two_taken.main_storage 2).id ≡ []
unfolding init_descriptors take_free
last_free-Blank = refl

two_taken-Blank : Blank two_taken (2 ∷ [])
two_taken-Blank a i = let e : a ≡ 2 = ground arith in rw e last_free-Blank

get_descriptor-put_head_example :
    get_descriptor 4 (65 ∷ []) (put_free_descriptor 1 two_taken) ≡ missing
get_descriptor-put_head_example =
    get_descriptor-put_head 3 two_taken (2 ∷ []) 1 (0 ∷ []) two_taken-IsLinked 4 (65 ∷ [])
      two_taken-Blank (omega arith) (omega arith)

abbrev all_taken : Shared
all_taken = take_free 2 two_taken

all_full : (all_taken.control.next_full_idx ≡ some 2) × (all_taken.control.next_free_idx ≡ none)
unfolding take_free init_descriptors
all_full = (refl, refl)

get_descriptor-take_put_head_example :
    get_descriptor 100 (65 ∷ []) (get_free_descriptor (put_free_descriptor 2 all_taken)).1
    ≡ out_of_fuel
get_descriptor-take_put_head_example =
    get_descriptor-take_put_head all_taken 2 100 (65 ∷ []) all_full.0 all_full.1 (omega arith)

abbrev pub os : Os
os = record {
  shmget = λ _ _ _. some 5;
  shmat = λ _. some 4096;
  draw = λ i. 100 + i;
  is_absent = λ _. true;
}

-- shmget refuses every segment.
abbrev refusing : Os
refusing = record os { shmget = λ _ _ _. none }

abbrev pub fresh : Manager
fresh = record { shared = three; local_atchs = []; words = λ _. 0 }

pub drawn : alloc_shm_key 4 os 0 ≡ some 100
unfolding alloc_shm_key
drawn = refl

drawn_refusing : alloc_shm_key 4 refusing 0 ≡ some 100
unfolding alloc_shm_key
drawn_refusing = refl

pub made :
    (b : Buffer) × (m' : Manager) × (get_buffer 4 os (65 ∷ []) 16 fresh ≡ ok b m')
    × Created 3 fresh 0 (1 ∷ 2 ∷ []) [] (65 ∷ []) 16 4096 b m'
made =
    get_buffer-Created 3 4 os (65 ∷ []) 16 fresh 0 100 (1 ∷ 2 ∷ []) [] three-IsLinked (omega arith)
      (λ a i. cc) (omega arith) drawn 5 4096 (omega arith) refl refl

get_buffer-Created_example :
    (b : Buffer) × (m' : Manager) × (get_buffer 4 os (65 ∷ []) 16 fresh ≡ ok b m')
    × Created 3 fresh 0 (1 ∷ 2 ∷ []) [] (65 ∷ []) 16 4096 b m'
get_buffer-Created_example =
    get_buffer-Created 3 4 os (65 ∷ []) 16 fresh 0 100 (1 ∷ 2 ∷ []) [] three-IsLinked (omega arith)
      (λ a i. cc) (omega arith) drawn 5 4096 (omega arith) refl refl

pub no_refs : (a : ℕ) → (three.main_storage a).ref_count ≡ 0
unfolding init_descriptors
no_refs a = ground arith

-- A second buffer, of the name "B", behind the first.
abbrev pub later : Os
later = record os { shmat = λ _. some 8192; draw = λ i. 200 + i }

pub drawn_later : alloc_shm_key 4 later 0 ≡ some 200
unfolding alloc_shm_key
drawn_later = refl

other_name :
    (a : ℕ) → has a (0 ∷ []) ≡ true → matches (66 ∷ []) ((made.1).shared.main_storage a).id ≡ false
unfolding matches
other_name a h =
    let first : 0 ≡ a = ground arith in
    subst (λ i. matches (66 ∷ []) ((made.1).shared.main_storage i).id ≡ false) first
      (rw (made.3).stored refl)

pub made_later :
    (b : Buffer) × (m : Manager) × (get_buffer 4 later (66 ∷ []) 8 made.1 ≡ ok b m)
    × Created 3 made.1 1 (2 ∷ []) (0 ∷ []) (66 ∷ []) 8 8192 b m
made_later =
    get_buffer-Created 3 4 later (66 ∷ []) 8 made.1 1 200 (2 ∷ []) (0 ∷ []) (made.3).linked
      (omega arith) other_name (omega arith) drawn_later 5 8192 (omega arith) refl refl

made_found : get_descriptor 4 (65 ∷ []) (made.1).shared ≡ found 0
made_found =
    Created-found 3 4 fresh 0 (1 ∷ 2 ∷ []) [] (65 ∷ []) 16 4096 made.0 made.1 made.3 (omega arith)
    ∙ ap found (made.3).of

get_buffer-mapped_example :
    (b : Buffer) × (m' : Manager) × (get_buffer 4 os (65 ∷ []) 0 made.1 ≡ ok b m')
    × IsLinked 3 m'.shared (1 ∷ 2 ∷ []) (0 ∷ [])
    × ((storage m' 0).ref_count ≡ (storage made.1 0).ref_count + 1)
    × (b.descriptor ≡ 0)
    × (b.ptr ≡ 4096)
    × (b.is_creator ≡ false)
    × (m'.words ≡ (made.1).words)
get_buffer-mapped_example =
    get_buffer-mapped 3 4 os (65 ∷ []) 0 made.1 0 4096 (1 ∷ 2 ∷ []) (0 ∷ []) (made.3).linked
      made_found (made.3).attached (omega (arith, (made.3).refs))

abbrev b0 : Buffer
b0 = record { size = 16; ptr = 4096; sptr = 4100; descriptor = 0; is_creator = true }

-- Two buffers are out, on the descriptors 1 and 0.
abbrev both : Manager
both = record { shared = two_taken; local_atchs = (0, 4096) ∷ []; words = λ _. 0 }

buffer_free-last_example :
    (m' : Manager) × (buffer_free b0 (with_refs 0 1 both) ≡ ok tt m')
    × IsLinked 3 m'.shared (2 ∷ []) (1 ∷ [])
    × ((storage m' 0).id ≡ [])
    × (m'.local_atchs ≡ erase_atch 0 ((0, 4096) ∷ []))
    × ((a : ℕ)
        → (0 == a) ≡ false
        → content (storage m' a) ≡ content (storage (with_refs 0 1 both) a))
buffer_free-last_example =
    buffer_free-last 3 b0 (with_refs 0 1 both) (2 ∷ []) [] 1 []
      (with_refs-IsLinked 3 0 1 both (2 ∷ []) (1 ∷ 0 ∷ []) two_taken-IsLinked) refl
