-- ===== src/Logger/Tests.antt =====
-- A logger that writes to one file.
use cppgenerics.Prelude.{ℕ, ◌≡◌, refl, true, List, [], ◌∷◌, if◌then◌else◌}
use cppgenerics.Logger.{
  Logger, new_logger, to_file, sink, log_stdout, log_in_file, select, sinks, behind,
}
use cppgenerics.Logger.Files.{misses, log_in_file-sink}

abbrev log_a : List ℕ
log_a = 97 ∷ []

two_files :
    sinks
      (λ _. true)
      (log_in_file log_a ∷ log_in_file (98 ∷ []) ∷ log_in_file log_a ∷ [])
      new_logger
    ≡ to_file log_a ∷ to_file (98 ∷ []) ∷ to_file log_a ∷ []
unfolding sinks
two_files = refl

log_in_file-sink_example :
    let l : Logger = behind (λ _. true) (log_in_file log_a ∷ log_stdout ∷ []) new_logger in
    sink (select (λ _. true) (log_in_file log_a) l)
    ≡ (if misses l.target l.filename log_a then sink l else to_file log_a)
log_in_file-sink_example =
    log_in_file-sink (λ _. true) (log_in_file log_a ∷ log_stdout ∷ []) log_a (λ name. refl)
      (λ e. cc)
