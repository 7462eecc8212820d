-- ===== src/Logger.antt =====
-- Logger of include/cppgenerics/Logger.h and src/Logger.cpp: where a message goes. A stream buffer is
-- that of std::cout, of std::cerr or of the member m_fileStream. Each macro runs under the mutex.
-- fstream::open is a parameter, `true` if it opens the file of the name.

mod Tests
pub mod Files
use cppgenerics.Prelude.{
  ℕ, ◌≡◌, Bool, true, false, Option, none, some, List, [], ◌∷◌, ◌++◌, if◌then◌else◌, same,
}

pub data Target : Type 0 where
  stdout stderr file_stream : Target

-- `target` is m_ostream's buffer, `filename` is m_filename, and `opened` the file of m_fileStream.
pub record Logger : Type 0 where
  pub target : Target
  pub filename : List ℕ
  pub opened : Option (List ℕ)

abbrev pub new_logger : Logger
new_logger = record { target = stdout; filename = []; opened = none }

unfoldable pub set_log_stdout : Logger → Logger
set_log_stdout l = record l { target = stdout }

unfoldable pub set_log_stderr : Logger → Logger
set_log_stderr l = record l { target = stderr }

-- The end of setLogFile. An open that fails leaves the stream closed.
unfoldable pub open_file : (List ℕ → Bool) → List ℕ → Logger → Logger
open_file opens name l = record l {
  opened = if opens name then some name else none;
  target = file_stream;
}

-- The part of setLogFile for a stream that is open.
unfoldable pub switch_file : (List ℕ → Bool) → List ℕ → Logger → Logger
unfolding open_file
switch_file opens name l =
    if same l.filename name then l else open_file opens name (record l { filename = name })

-- setLogFile.
unfoldable pub set_log_file : (List ℕ → Bool) → List ℕ → Logger → Logger
unfolding switch_file open_file
set_log_file opens [] l = l
set_log_file opens (c ∷ cs) l = elim l.opened [
  | none ↦ open_file opens (c ∷ cs) l
  | some old ↦ switch_file opens (c ∷ cs) l
]

-- Logger::~Logger.
unfoldable pub close_logger : Logger → Logger
close_logger l = record l { opened = none }

-- What a message reaches: one of the two streams, or a file; a closed file stream loses it.
pub data Sink : Type 0 where
  to_stdout to_stderr lost : Sink
  to_file : List ℕ → Sink

unfoldable pub sink : Logger → Sink
sink l = elim l.target [
  | stdout ↦ to_stdout
  | stderr ↦ to_stderr
  | file_stream ↦ elim l.opened [ none ↦ lost | some name ↦ to_file name ]
]

-- A use of the logger: LOGSTDOUT and the macros over it, setLogSTDERR and log, and LOGINFILE.
pub data Use : Type 0 where
  log_stdout log_stderr : Use
  log_in_file : List ℕ → Use

unfoldable pub select : (List ℕ → Bool) → Use → Logger → Logger
unfolding set_log_stdout set_log_stderr set_log_file
select opens log_stdout l = set_log_stdout l
select opens log_stderr l = set_log_stderr l
select opens (log_in_file name) l = set_log_file opens name l

-- Where the messages of a sequence of uses go.
unfoldable pub sinks : (List ℕ → Bool) → List Use → Logger → List Sink
unfolding select sink
sinks opens [] l = []
sinks opens (u ∷ us) l = let l' = select opens u l in sink l' ∷ sinks opens us l'

-- The logger behind a sequence of uses.
unfoldable pub behind : (List ℕ → Bool) → List Use → Logger → Logger
unfolding select
behind opens [] l = l
behind opens (u ∷ us) l = behind opens us (select opens u l)
