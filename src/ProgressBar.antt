-- ===== src/ProgressBar.antt =====
-- ProgressBar (include/cppgenerics/ProgressBar.h, src/ProgressBar.cpp): the characters that it writes,
-- and a terminal that shows them. The floating-point results are parameters, with what is used of
-- them in IsMonotone; a size_t wraps. m_prevBars is `none` for -1.
pub mod Shown
pub mod Session
mod Tests
pub mod Screens
use cppgenerics.Prelude.{
  ℕ, zero, suc, ◌+◌, ◌%◌, ◌^◌, ◌≤◌, Bool, true, false, Option, none, some, List, [], ◌∷◌, ◌++◌,
  if◌then◌else◌, ◌==◌, length,
}

-- Of current and total: the conversions of percent / m_perBarPercent to int and of percent to
-- size_t; and std::to_string.
pub record Format : Type 0 where
  pub bars : ℕ → ℕ → ℕ
  pub percent : ℕ → ℕ → ℕ
  pub to_string : ℕ → List ℕ

pub record ProgressBar : Type 0 where
  pub caption : List ℕ
  pub total : ℕ
  pub current : ℕ
  pub is_output : Bool
  pub prev_bars : Option ℕ
  pub prev_num_percent_len : ℕ

abbrev pub backspace : ℕ
backspace = 8

abbrev pub newline : ℕ
newline = 10

-- m_barMark, and the percent sign.
abbrev pub bar_mark : ℕ
bar_mark = 61

abbrev pub percent_sign : ℕ
percent_sign = 37

unfoldable pub repeat : ℕ → ℕ → List ℕ
repeat zero c = []
repeat (suc n) c = c ∷ repeat n c

-- ProgressBar::ProgressBar.
abbrev pub new_progress_bar : List ℕ → ℕ → ℕ → ProgressBar
new_progress_bar caption total initial = record {
  caption = caption;
  total = total;
  current = initial;
  is_output = false;
  prev_bars = none;
  prev_num_percent_len = 2;
}

-- The bars, the percentage and its sign.
unfoldable pub line : Format → ℕ → ℕ → List ℕ
unfolding repeat
line f current total =
    repeat (f.bars current total) bar_mark
    ++ (f.to_string (f.percent current total) ++ (percent_sign ∷ []))

-- The backspaces over what stands there.
unfoldable pub erase : Option ℕ → ℕ → List ℕ
unfolding repeat
erase none len = repeat len backspace
erase (some bars) len = repeat len backspace ++ repeat bars backspace

-- redraw behind its tests.
unfoldable pub draw : Format → ProgressBar → ProgressBar × List ℕ
unfolding erase line
draw f b = (
  record b {
    prev_bars = some (f.bars b.current b.total);
    prev_num_percent_len = length (f.to_string (f.percent b.current b.total)) + 1;
  },
  erase b.prev_bars b.prev_num_percent_len ++ line f b.current b.total,
)

unfoldable pub is_drawn : ℕ → Option ℕ → Bool
is_drawn bars none = false
is_drawn bars (some prev) = bars == prev

-- ProgressBar::redraw: the state after it and what it writes.
unfoldable pub redraw : Format → ProgressBar → ProgressBar × List ℕ
unfolding draw is_drawn
redraw f b =
    if b.is_output
    then (if is_drawn (f.bars b.current b.total) b.prev_bars then (b, []) else draw f b)
    else (b, [])

-- ProgressBar::notify.
unfoldable pub notify : Format → ℕ → ProgressBar → ProgressBar × List ℕ
unfolding redraw
notify f units b = redraw f (record b { current = (b.current + units) % 2 ^ 64 })

-- "\t >>>> ", the caption and " <<<< ".
unfoldable pub title : List ℕ → List ℕ
title caption =
    (9 ∷ 32 ∷ 62 ∷ 62 ∷ 62 ∷ 62 ∷ 32 ∷ []) ++ (caption ++ (32 ∷ 60 ∷ 60 ∷ 60 ∷ 60 ∷ 32 ∷ []))

-- ProgressBar::startOutput.
unfoldable pub start_output : Format → ProgressBar → ProgressBar × List ℕ
unfolding redraw title
start_output f b =
    if b.is_output
    then (b, [])
    else (let (b', out) = redraw f (record b { is_output = true }) in
        (b', title b.caption ++ ((newline ∷ []) ++ out)))

-- ProgressBar::stopOutput.
unfoldable pub stop_output : Format → ProgressBar → ProgressBar × List ℕ
unfolding redraw
stop_output f b =
    if b.is_output
    then (let (b', out) = redraw f (record b { current = b.total }) in
        (record b' { is_output = false }, out ++ (newline ∷ [])))
    else (b, [])

-- Calls of notify, one after the other.
unfoldable pub notify_all : Format → List ℕ → ProgressBar → ProgressBar × List ℕ
unfolding notify
notify_all f [] b = (b, [])
notify_all f (u ∷ us) b =
    let (b1, out) = notify f u b in let (b2, outs) = notify_all f us b1 in (b2, out ++ outs)

-- startOutput, calls of notify and stopOutput.
unfoldable pub session : Format → List ℕ → ProgressBar → ProgressBar × List ℕ
unfolding start_output notify_all stop_output
session f us b =
    let (b1, started) = start_output f b in
    let (b2, notified) = notify_all f us b1 in
    let (b3, stopped) = stop_output f b2 in (b3, started ++ (notified ++ stopped))

-- A terminal: the finished lines, the last first, and the cells of the last line, those left of the
-- cursor backwards. A backspace moves the cursor and erases nothing, and does nothing in the first
-- column; a character takes the place of the one under the cursor.
pub record Screen : Type 0 where
  pub above : List (List ℕ)
  pub left : List ℕ
  pub right : List ℕ

abbrev pub rev_append : List ℕ → List ℕ → List ℕ
rev_append [] ys = ys
rev_append (x ∷ xs) ys = rev_append xs (x ∷ ys)

unfoldable pub back : Screen → Screen
back s = elim s.left [ [] ↦ s | x ∷ xs ↦ record s { left = xs; right = x ∷ s.right } ]

abbrev pub behind_cursor : List ℕ → List ℕ
behind_cursor [] = []
behind_cursor (x ∷ xs) = xs

unfoldable pub put : ℕ → Screen → Screen
unfolding back
put c s =
    if c == backspace
    then back s
    else if c == newline
    then record { above = rev_append s.left s.right ∷ s.above; left = []; right = [] }
    else record s { left = c ∷ s.left; right = behind_cursor s.right }

unfoldable pub show : List ℕ → Screen → Screen
unfolding put
show [] s = s
show (c ∷ cs) s = show cs (put c s)

-- Neither a backspace nor a newline.
unfoldable pub is_plain : List ℕ → Bool
is_plain [] = true
is_plain (c ∷ cs) = if c == backspace then false else if c == newline then false else is_plain cs
