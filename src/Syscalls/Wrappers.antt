-- ===== src/Syscalls/Wrappers.antt =====
-- The wrappers of src/Syscalls.cpp that call one system function and test its result. Each is a
-- function of what the system function returns; a result of type void is the number 0.
use cppgenerics.Prelude.{
  ℕ, ◌^◌, ◌-◌, ◌≡◌, ◌↔◌, Bool, false, ◌&&◌, ltb, Option, none, some, List, [], ◌∷◌, ◌==◌,
  if◌then◌else◌, ℤ, pos, negsuc, arith, ◌⊎◌,
}

pub data Result : Type 0 where
  returns : ℕ → Result
  throws : Result

unfoldable pub open_file : ℤ → Result
open_file (pos n) = returns n
open_file (negsuc n) = throws

unfoldable pub close : ℤ → Result
close (pos n) = returns 0
close (negsuc n) = throws

unfoldable pub lseek : ℤ → Result
lseek (pos n) = returns n
lseek (negsuc n) = throws

unfoldable pub pread : ℤ → Result
pread (pos n) = returns n
pread (negsuc n) = throws

unfoldable pub socket : ℤ → Result
socket (pos n) = returns n
socket (negsuc n) = throws

unfoldable pub bind : ℤ → Result
bind (pos n) = returns 0
bind (negsuc n) = throws

unfoldable pub recvmsg : ℤ → Result
recvmsg (pos n) = returns n
recvmsg (negsuc n) = throws

unfoldable pub sched_getscheduler : ℤ → Result
sched_getscheduler (pos n) = returns n
sched_getscheduler (negsuc n) = throws

unfoldable pub sched_setscheduler : ℤ → Result
sched_setscheduler (pos n) = returns 0
sched_setscheduler (negsuc n) = throws

unfoldable pub setpriority : ℤ → Result
setpriority (pos n) = returns 0
setpriority (negsuc n) = throws

-- The test is `err != 0`.
unfoldable pub get_file_stat : ℤ → Result
get_file_stat (pos n) = if n == 0 then returns 0 else throws
get_file_stat (negsuc n) = throws

-- The test is `out == -1`; another negative result is its 64-bit pattern.
unfoldable pub time : ℤ → Result
time (pos n) = returns n
time (negsuc n) = if n == 0 then throws else returns (2 ^ 64 - 1 - n)

-- The test is `out != 0`.
unfoldable pub delete_module : ℤ → Result
delete_module (pos n) = if n == 0 then returns 0 else throws
delete_module (negsuc n) = throws

-- The loop of deleteModule and deleteModule_nt over the name's bytes: 45 is '-' and 95 is '_'.
unfoldable pub module_name : List ℕ → List ℕ
module_name [] = []
module_name (x ∷ xs) = (if x == 45 then 95 else x) ∷ module_name xs

-- The test is `! ret`.
unfoldable pub mount : ℤ → Result
mount (pos n) = if n == 0 then throws else returns 0
mount (negsuc n) = returns 0

-- The test is `! ret`. The window size that is returned is left out.
unfoldable pub get_terminal_size : ℤ → Result
get_terminal_size (pos n) = if n == 0 then throws else returns 0
get_terminal_size (negsuc n) = returns 0

-- isDirExist, with whether the mode that ::stat stores is a directory's.
unfoldable pub is_dir_exist : ℤ → Bool → Bool
unfolding get_file_stat
is_dir_exist ret is_dir = elim (get_file_stat ret) [ returns _ ↦ is_dir | throws ↦ false ]

-- isFileExist: `!access(...)`.
unfoldable pub is_file_exist : ℤ → Bool
is_file_exist (pos n) = n == 0
is_file_exist (negsuc n) = false

-- getpriority, from errno and the result of the system function, which may be negative; `none` is
-- the exception.
unfoldable pub getpriority : ℕ → ℤ → Option ℤ
getpriority errno ret = if errno == 0 then some ret else none

-- deleteModule_nt.
unfoldable pub delete_module_nt : (List ℕ → ℤ) → List ℕ → ℤ
unfolding module_name
delete_module_nt sys name = sys (module_name name)

-- getBufferRAI and getBufferRAI_nt: the memory behind the new buffer's address. `new` throws a
-- bad_alloc where there is no memory, so neither meets a null pointer.
unfoldable pub get_buffer_rai : ℕ → Bool → (ℕ → ℕ) → ℕ → ℕ
get_buffer_rai size is_zero memory j = if is_zero && ltb j size then 0 else memory j

-- getRandom: a random number seeds the generator, from which the distribution draws.
unfoldable pub get_random : (ℕ → ℤ → ℤ → ℤ) → ℕ → ℤ → ℤ → ℤ
get_random distribution seed min max = distribution seed min max

-- gettid, from what the system call gives.
unfoldable pub gettid : ℕ → ℕ
gettid tid = tid

-- dirname_ and basename_, on ::dirname and ::basename, which give a text and what the bytes that they
-- were passed are then. The bytes are those of the caller's string: the second part of the result.
unfoldable pub dirname_ : (List ℕ → List ℕ × List ℕ) → List ℕ → List ℕ × List ℕ
dirname_ sys path = sys path

unfoldable pub basename_ : (List ℕ → List ℕ × List ℕ) → List ℕ → List ℕ × List ℕ
basename_ sys path = sys path

-- What a system function returns on failure is -1, and on success a number; some return 0 alone.
abbrev pub failure : ℤ
failure = negsuc 0

abbrev pub IsAnswer : ℤ → Type 0
IsAnswer r = (r ≡ failure) ⊎ ((n : ℕ) × (r ≡ pos n))

abbrev pub IsStatus : ℤ → Type 0
IsStatus r = (r ≡ failure) ⊎ (r ≡ pos 0)

abbrev pub Reports : (ℤ → Result) → ℤ → Type 0
Reports wrapper r = (wrapper r ≡ throws) ↔ (r ≡ failure)

-- The wrappers that return the system function's number.
abbrev pub AnswersReported : ℤ → Type 0
AnswersReported r =
    Reports open_file r
    × Reports lseek r
    × Reports pread r
    × Reports socket r
    × Reports recvmsg r
    × Reports sched_getscheduler r
    × Reports time r

-- The wrappers of type void.
abbrev pub StatusesReported : ℤ → Type 0
StatusesReported r =
    Reports close r
    × Reports bind r
    × Reports sched_setscheduler r
    × Reports setpriority r
    × Reports get_file_stat r
    × Reports delete_module r

-- open, lseek, pread, socket, recvmsg, sched_getscheduler and time throw exactly when the system
-- function returns -1, where it returns -1 or a number from 0 on; close, bind, sched_setscheduler,
-- setpriority, getFileStat and deleteModule throw exactly when it returns -1, where it returns -1
-- or 0.
pub failures_reported :
    (r status : ℤ) → IsAnswer r → IsStatus status → AnswersReported r × StatusesReported status
unfolding open_file lseek pread socket recvmsg sched_getscheduler time close bind sched_setscheduler
    setpriority get_file_stat delete_module
failures_reported r status h k = (ground arith, ground arith)

-- mount and getTerminalSize throw exactly when the system function succeeds, where that returns 0 or
-- -1.
inverted_tests :
    (r : ℤ)
    → IsStatus r
    → ((mount r ≡ throws) ↔ (r ≡ pos 0)) × ((get_terminal_size r ≡ throws) ↔ (r ≡ pos 0))
unfolding mount get_terminal_size
inverted_tests r h = ground arith
