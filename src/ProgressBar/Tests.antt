-- ===== src/ProgressBar/Tests.antt =====
-- Runs of a progress bar.
use cppgenerics.Prelude.{
  ℕ, ◌+◌, ◌/◌, ◌%◌, ◌≤◌, ◌≡◌, refl, true, [], ◌∷◌, if◌then◌else◌, ltb, length, arith,
}
use cppgenerics.ProgressBar.{
  Format, new_progress_bar, line, title, session, Screen, show, is_plain, repeat, notify_all,
  start_output, stop_output, notify, redraw, draw, erase, is_drawn, put, back,
}
use cppgenerics.ProgressBar.Screens.{screen}
use cppgenerics.ProgressBar.Shown.{IsMonotone, sum}
use cppgenerics.ProgressBar.Session.{show-session}

-- The results for a total of 100, up to three digits.
abbrev hundred : Format
hundred = record {
  bars = λ c t. c / 2;
  percent = λ c t. c;
  to_string = λ n.
      if ltb n 10
      then (48 + n % 10) ∷ []
      else if ltb n 100
      then (48 + n / 10 % 10) ∷ (48 + n % 10) ∷ []
      else (48 + n / 100 % 10) ∷ (48 + n / 10 % 10) ∷ (48 + n % 10) ∷ [];
}

text_plain : (n : ℕ) → is_plain (hundred.to_string n) ≡ true
unfolding is_plain
text_plain n = ground arith

hundred-IsMonotone : IsMonotone hundred
hundred-IsMonotone = record {
  bars_grow = λ a b t h. omega arith;
  text_grows = λ a b t h. ground arith;
  text_plain = text_plain;
}

abbrev Lines : Type 0
Lines =
    (e : ℕ) × (e ≤ 100)
    × (e / 2 ≡ 50)
    × (show (session hundred (7 ∷ 50 ∷ []) (new_progress_bar (65 ∷ []) 100 0)).1 (screen [] [] [])
        ≡ screen (line hundred e 100 ∷ title (65 ∷ []) ∷ []) [] [])

show-session_example : Lines
unfolding is_plain sum
show-session_example =
    show-session hundred hundred-IsMonotone (65 ∷ []) 100 0 (7 ∷ 50 ∷ []) refl (omega arith)
      (omega arith)

-- A count beyond the total: what is drawn for the total leaves marks of the longer line.
abbrev last_line : Screen → ℕ
last_line s = elim s.above [ [] ↦ 0 | cells ∷ rest ↦ length cells ]

beyond_total :
    last_line (show (session hundred (150 ∷ []) (new_progress_bar [] 100 0)).1 (screen [] [] []))
    ≡ 79
unfolding session start_output notify_all notify stop_output redraw draw erase line repeat is_drawn
    show put back title
beyond_total = refl
