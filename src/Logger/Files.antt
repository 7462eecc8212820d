-- ===== src/Logger/Files.antt =====
-- Where the messages of LOGINFILE go.
use cppgenerics.Prelude.{
  ℕ, ◌≡◌, ◌≢◌, ◌⊎◌, inl, inr, refl, Bool, true, false, Option, none, some, List, [], ◌∷◌,
  if◌then◌else◌, same, same_refl, eq_of_same, arith, eq_self, ◌&&◌, not, Bool-cases, ap,
}
use cppgenerics.Logger.{
  Target, stdout, stderr, file_stream, Logger, new_logger, set_log_stdout, set_log_stderr,
  switch_file, set_log_file, to_stdout, to_file, sink, Use, log_stdout, log_stderr, log_in_file,
  select, sinks, behind,
}

-- Every file can be opened.
abbrev pub Opens : (List ℕ → Bool) → Type 0
Opens opens = (name : List ℕ) → opens name ≡ true

-- The file stream is closed and has never been open, or it is open on a file, and m_filename is empty
-- or that file's name.
abbrev pub Knows : Target → List ℕ → Option (List ℕ) → Type 0
Knows target filename none = (target ≢ file_stream) × (filename ≡ [])
Knows target filename (some name) = (name ≢ []) × ((filename ≡ []) ⊎ (filename ≡ name))

abbrev pub IsTracked : Logger → Type 0
IsTracked l = Knows l.target l.filename l.opened

set_log_file-IsTracked :
    (opens : List ℕ → Bool) (name : List ℕ) (t : Target) (filename : List ℕ)
    (opened : Option (List ℕ))
    → Opens opens
    → Knows t filename opened
    → IsTracked
        (set_log_file opens name (record { target = t; filename = filename; opened = opened }))
unfolding set_log_file
set_log_file-IsTracked opens [] t filename opened all k = k
set_log_file-IsTracked opens (c ∷ cs) t filename none all k = rw (all (c ∷ cs)) (cc, inl k.1)
set_log_file-IsTracked opens (c ∷ cs) t filename (some old) all k =
    elim (Bool-cases (same filename (c ∷ cs))) [
      | inl same_name ↦ rw (same_name, switch_file) k
      | inr other ↦ rw (other, switch_file, all (c ∷ cs)) (cc, inr refl)
    ]

redirected :
    (t t' : Target) (filename : List ℕ) (opened : Option (List ℕ))
    → t' ≢ file_stream
    → Knows t filename opened
    → Knows t' filename opened
redirected t t' filename none other k = (other, k.1)
redirected t t' filename (some name) other k = k

select-IsTracked :
    (opens : List ℕ → Bool) (u : Use) (l : Logger)
    → Opens opens
    → IsTracked l
    → IsTracked (select opens u l)
unfolding select set_log_stdout set_log_stderr
select-IsTracked opens log_stdout l all k =
    redirected l.target stdout l.filename l.opened (λ e. cc) k
select-IsTracked opens log_stderr l all k =
    redirected l.target stderr l.filename l.opened (λ e. cc) k
select-IsTracked opens (log_in_file name) l all k =
    set_log_file-IsTracked opens name l.target l.filename l.opened all k

behind-IsTracked :
    (opens : List ℕ → Bool) (us : List Use) (l : Logger)
    → Opens opens
    → IsTracked l
    → IsTracked (behind opens us l)
unfolding behind
behind-IsTracked opens [] l all k = k
behind-IsTracked opens (u ∷ us) l all k =
    behind-IsTracked opens us (select opens u l) all (select-IsTracked opens u l all k)

abbrev pub is_file : Target → Bool
is_file stdout = false
is_file stderr = false
is_file file_stream = true

-- The name is remembered, and the messages go to another stream.
abbrev pub misses : Target → List ℕ → List ℕ → Bool
misses t filename name = same filename name && not (is_file t)

file_sink :
    (opens : List ℕ → Bool) (name : List ℕ) (t : Target) (filename : List ℕ)
    (opened : Option (List ℕ))
    → Opens opens
    → name ≢ []
    → Knows t filename opened
    → let l : Logger = record { target = t; filename = filename; opened = opened } in
      sink (set_log_file opens name l) ≡ (if misses t filename name then sink l else to_file name)
unfolding set_log_file sink
file_sink opens [] t filename opened all named k = absurd (named refl)
file_sink opens (c ∷ cs) t filename none all named k = ground (arith, all (c ∷ cs), k.1)
file_sink opens (c ∷ cs) t filename (some old) all named k =
    elim (Bool-cases (same filename (c ∷ cs))) [
      | inl same_name ↦
          let remembered : filename ≡ c ∷ cs = eq_of_same filename (c ∷ cs) same_name in
          let current : old ≡ c ∷ cs = elim k.1 [ inl empty ↦ cc | inr its ↦ cc ] in
          still t current same_name
      | inr other ↦ ground (arith, all (c ∷ cs), other)
    ]
  where
    still :
        (t : Target)
        → old ≡ c ∷ cs
        → same filename (c ∷ cs) ≡ true
        → sink (
            switch_file opens
              (c ∷ cs)
              (record { target = t; filename = filename; opened = some old }))
          ≡ (if misses t filename (c ∷ cs)
              then sink (record { target = t; filename = filename; opened = some old })
              else to_file (c ∷ cs))
    still stdout e f = rw (f, switch_file) refl
    still stderr e f = rw (f, switch_file) refl
    still file_stream e f = rw (f, switch_file) (ap to_file e)

-- Where every file can be opened, after any uses of the logger a message of LOGINFILE with a name that
-- is not empty goes to the file of the name; but where m_filename is the name and the last message went to a
-- standard stream, it goes to that stream.
pub log_in_file-sink :
    (opens : List ℕ → Bool) (us : List Use) (name : List ℕ)
    → Opens opens
    → name ≢ []
    → let l : Logger = behind opens us new_logger in
      sink (select opens (log_in_file name) l)
      ≡ (if misses l.target l.filename name then sink l else to_file name)
unfolding select
log_in_file-sink opens us name all named =
    let l : Logger = behind opens us new_logger in
    file_sink opens name l.target l.filename l.opened all named
      (behind-IsTracked opens us new_logger all ((λ e. cc), refl))

-- Where the file of a name that is not empty can be opened: of three messages of LOGINFILE with the name, with one
-- of LOGSTDOUT between each two, the first two go to the file, and the third one goes to std::cout.
third_message :
    (opens : List ℕ → Bool) (name : List ℕ)
    → name ≢ []
    → opens name ≡ true
    → sinks opens
        (log_in_file name ∷ log_stdout ∷ log_in_file name ∷ log_stdout ∷ log_in_file name ∷ [])
        new_logger
      ≡ to_file name ∷ to_stdout ∷ to_file name ∷ to_stdout ∷ to_stdout ∷ []
unfolding sinks
third_message opens [] named can = absurd (named refl)
third_message opens (c ∷ cs) named can = ground (arith, can, same_refl cs, eq_self c)
