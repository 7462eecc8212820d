-- ===== src/Buffers/Manager.antt =====
-- IPC::BufferManager and IPC::Buffer of src/IPC_BufferManager.cpp over the descriptor table. Each
-- operation runs between m_mtx's lock and unlock, so it is a function of the state. System V shared
-- memory and random numbers are the parameter `Os`; `words` holds the futex words at the addresses
-- where this process has attached segments.
pub mod Kept
pub mod Create
pub mod Get
pub mod Refs
pub mod Held
use cppgenerics.Prelude.{
  ℕ, zero, suc, ◌+◌, ◌-◌, ◌%◌, ◌^◌, ◌≡◌, Bool, true, false, not, ◌||◌, Option, none, some, List, [],
  ◌∷◌, if◌then◌else◌, ◌==◌, write, take,
}
use cppgenerics.Buffers.Descriptors.{
  Idx, BufferDescriptor, Control, Storage, Shared, descriptor_max_len, c_str, init_descriptors,
  get_free_descriptor, put_free_descriptor, Search, found, missing, out_of_fuel, get_descriptor,
}

-- sizeof(futex_id_t), and a size_t.
abbrev pub futex_bytes : ℕ
futex_bytes = 4

abbrev pub size_t : ℕ → ℕ
size_t n = n % 2 ^ 64

-- `--x` of a size_t.
abbrev pub dec : ℕ → ℕ
dec n = size_t (n + 2 ^ 64 - 1)

-- shmget (none for a negative result) of a key, a size and the flags for a new segment; shmat
-- (none for (void*)-1) of an identifier; the draws of getRandom; and whether shmget of a key fails
-- with ENOENT.
pub record Os : Type 0 where
  pub shmget : ℕ → ℕ → Bool → Option ℕ
  pub shmat : ℕ → Option ℕ
  pub draw : ℕ → ℕ
  pub is_absent : ℕ → Bool

pub record Manager : Type 0 where
  pub shared : Shared
  pub local_atchs : List (ℕ × ℕ)
  pub words : ℕ → ℕ

pub record Buffer : Type 0 where
  pub size : ℕ
  pub ptr : ℕ
  pub sptr : ℕ
  pub descriptor : ℕ
  pub is_creator : Bool

pub data Error : Type 0 where
  logic_error sys_error : Error

-- An exception leaves the state as it is then. `hangs` is a loop that does not end within its
-- fuel, `faults` an access through a null pointer.
pub data Run (A : Type 0) : Type 0 where
  ok : A → Manager → Run A
  throw : Error → Manager → Run A
  hangs : Run A
  faults : Run A

abbrev pub M : Type 0 → Type 0
M A = Manager → Run A

abbrev pub pure : {A : Type 0} → A → M A
pure a m = ok a m

infixl 5 ◌>>=◌ ◌>>◌
abbrev pub ◌>>=◌ : {A B : Type 0} → M A → (A → M B) → M B
◌>>=◌ c f m = elim (c m) [
  | ok a m' ↦ f a m'
  | throw e m' ↦ throw e m'
  | hangs ↦ hangs
  | faults ↦ faults
]

abbrev pub ◌>>◌ : {B : Type 0} → M (Unit {0}) → M B → M B
c >> k = c >>= λ _. k

pub >>=-ok :
    {A B : Type 0} (c : M A) (f : A → M B) (m m' : Manager) (a : A)
    → c m ≡ ok a m'
    → (c >>= f) m ≡ f a m'
>>=-ok c f m m' a e = rw (e, ◌>>=◌)

pub >>=-throw :
    {A B : Type 0} (c : M A) (f : A → M B) (m m' : Manager) (x : Error)
    → c m ≡ throw x m'
    → (c >>= f) m ≡ throw x m'
>>=-throw c f m m' x e = rw (e, ◌>>=◌)

abbrev pub storage : Manager → Storage
storage m = m.shared.main_storage

abbrev pub with_storage : Manager → Storage → Manager
with_storage m g = record m { shared = record m.shared { main_storage = g } }

abbrev pub modify : ℕ → (BufferDescriptor → BufferDescriptor) → M (Unit {0})
modify i f m = ok tt (with_storage m (write (storage m) i (f (storage m i))))

-- The std::map m_localAtchs.
unfoldable pub find_atch : ℕ → List (ℕ × ℕ) → Option ℕ
find_atch i [] = none
find_atch i ((j, a) ∷ rest) = if j == i then some a else find_atch i rest

unfoldable pub erase_atch : ℕ → List (ℕ × ℕ) → List (ℕ × ℕ)
erase_atch i [] = []
erase_atch i ((j, a) ∷ rest) = if j == i then erase_atch i rest else (j, a) ∷ erase_atch i rest

-- BufferManager::allocShmKey from the i-th draw on; `none` if no draw within the fuel is free.
unfoldable pub alloc_shm_key : ℕ → Os → ℕ → Option ℕ
alloc_shm_key zero os i = none
alloc_shm_key (suc fuel) os i =
    let rest = alloc_shm_key fuel os (suc i) in
    if os.is_absent (os.draw i) then some (os.draw i) else rest

-- BufferManager::attachDescriptor.
unfoldable pub attach_descriptor : Os → ℕ → Bool → M ℕ
unfolding erase_atch
attach_descriptor os i is_new m =
    elim (os.shmget (storage m i).shm_key (storage m i).bytes is_new) [
      | none ↦ throw sys_error m
      | some shm_id ↦ elim (os.shmat shm_id) [
        | none ↦ throw sys_error m
        | some addr ↦ ok addr (record m { local_atchs = (i, addr) ∷ erase_atch i m.local_atchs })
      ]
    ]

-- BufferManager::detachDescriptor; the results of its system calls are ignored.
unfoldable pub detach_descriptor : ℕ → Manager → Manager
unfolding erase_atch
detach_descriptor i m = record m {
  shared = put_free_descriptor i m.shared;
  local_atchs = erase_atch i m.local_atchs;
}

-- Buffer::Buffer(void*, bool, BufferDescriptor*), with Mutex::Mutex: a new mutex is set to 1.
unfoldable pub new_buffer : ℕ → Bool → ℕ → M Buffer
new_buffer ptr is_mtx_new i m =
    ok
      (record {
        size = size_t ((storage m i).bytes + 2 ^ 64 - futex_bytes);
        ptr = ptr;
        sptr = ptr + futex_bytes;
        descriptor = i;
        is_creator = is_mtx_new;
      })
      (if is_mtx_new then record m { words = write m.words ptr 1 } else m)

-- BufferManager::RefCountInc_ts, RefCountDec_ts and RefCountVal_ts.
unfoldable pub ref_count_inc : ℕ → M ℕ
ref_count_inc i m =
    let m' = with_storage m (
      write (storage m) i
        (record (storage m i) { ref_count = size_t ((storage m i).ref_count + 1) })) in
    ok (storage m' i).ref_count m'

unfoldable pub ref_count_dec : ℕ → M ℕ
ref_count_dec i m =
    let m' =
      with_storage m
        (write (storage m) i (record (storage m i) { ref_count = dec (storage m i).ref_count })) in
    ok (storage m' i).ref_count m'

unfoldable pub ref_count_val : ℕ → M ℕ
ref_count_val i m = ok (storage m i).ref_count m

-- What bufferFree does under its test.
unfoldable pub detach_if : Bool → ℕ → M (Unit {0})
detach_if true i m = ok tt (detach_descriptor i m)
detach_if false i m = ok tt m

-- BufferManager::bufferFree.
unfoldable pub buffer_free : Buffer → M (Unit {0})
unfolding ref_count_dec detach_if
buffer_free b = do left ← ref_count_dec b.descriptor; detach_if (left == 0) b.descriptor

-- The descriptor that getBuffer fills before it attaches.
abbrev pub filled : List ℕ → ℕ → BufferDescriptor → BufferDescriptor
filled id bytes d = record d {
  bytes = size_t (bytes + futex_bytes);
  ref_count = 0;
  id = take descriptor_max_len (c_str id);
}

-- The part of getBuffer behind the free descriptor `i`, with what allocShmKey gives.
unfoldable pub fill_buffer : Os → List ℕ → ℕ → Option ℕ → ℕ → M Buffer
unfolding ref_count_inc new_buffer
fill_buffer os id bytes none i = λ _. hangs
fill_buffer os id bytes (some key) i = do
  modify i (filled id bytes)
  modify i (λ d. record d { shm_key = key })
  ptr ← attach_descriptor os i true
  _ ← ref_count_inc i
  new_buffer ptr true i

-- The test of getFreeDescriptor's result.
unfoldable pub create_with : Os → List ℕ → ℕ → Option ℕ → Idx × Shared → M Buffer
create_with os id bytes key (none, s) = λ m. throw logic_error (record m { shared = s })
create_with os id bytes key (some i, s) =
    λ m. fill_buffer os id bytes key i (record m { shared = s })

-- getBuffer, on an id that no full descriptor has.
unfoldable pub create_buffer : ℕ → Os → List ℕ → ℕ → M Buffer
create_buffer fuel os id bytes m =
    if bytes == 0
    then throw logic_error m
    else create_with os id bytes (alloc_shm_key fuel os 0) (get_free_descriptor m.shared) m

-- The address of a known descriptor's segment, from the entry of m_localAtchs if there is one.
unfoldable pub local_ptr : Os → ℕ → Option ℕ → M ℕ
local_ptr os i none = attach_descriptor os i false
local_ptr os i (some addr) = pure addr

-- getBuffer, on the full descriptor that has the id.
unfoldable pub map_buffer : Os → ℕ → M Buffer
unfolding ref_count_inc new_buffer local_ptr
map_buffer os i m =
    (do
      ptr ← local_ptr os i (find_atch i m.local_atchs)
      _ ← ref_count_inc i
      new_buffer ptr false i)
      m

unfoldable pub get_buffer : ℕ → Os → List ℕ → ℕ → M Buffer
get_buffer fuel os id bytes m = elim (get_descriptor fuel id m.shared) [
  | found i ↦ map_buffer os i m
  | missing ↦ create_buffer fuel os id bytes m
  | out_of_fuel ↦ hangs
]

-- A variable of type Buffer: `none` is the default constructor's, with null pointers.
abbrev pub Slot : Type 0
Slot = Option Buffer

-- The copy and the move constructor, which do the same: BufferInit and RefCountInc_ts.
unfoldable pub copy_buffer : Slot → M Slot
unfolding ref_count_inc
copy_buffer none = λ _. faults
copy_buffer (some o) = do _ ← ref_count_inc o.descriptor; pure (some o)

-- Buffer::operator=, on the variable's value before and the value assigned.
unfoldable pub assign_buffer : Slot → Slot → M Slot
unfolding buffer_free copy_buffer
assign_buffer none o = copy_buffer o
assign_buffer (some b) o = do buffer_free b; copy_buffer o

-- Buffer::~Buffer.
unfoldable pub destroy_buffer : Slot → M (Unit {0})
unfolding buffer_free
destroy_buffer none = λ _. faults
destroy_buffer (some b) = buffer_free b

-- The loop of ~BufferManager over the descriptors below n, in the order of the indices.
unfoldable pub explode : ℕ → Manager → Manager
unfolding detach_descriptor
explode zero m = m
explode (suc n) m =
    let before = explode n m in
    elim ((storage before n).id) [ [] ↦ before | x ∷ xs ↦ detach_descriptor n before ]

-- ~BufferManager: the state that it leaves in the segment, and whether it removes the segment.
-- `attached` is what get_SysNumAttached returns.
unfoldable pub destroy_manager : ℕ → ℕ → Manager → Bool × Manager
unfolding explode
destroy_manager capacity attached m =
    let left = dec m.shared.control.ref_count in
    let m' = record m {
      shared = record m.shared { control = record m.shared.control { ref_count = left } };
    } in
    if left == 0 || attached == 1 then (true, explode capacity m') else (false, m')
