-- ===== src/ProgressBar/Session.antt =====
-- The terminal behind a progress bar from its start to its stop.
use cppgenerics.Prelude.{
  ℕ, ◌+◌, ◌^◌, ◌≤◌, ◌<◌, ◌≡◌, refl, sym, ap, subst, ◌∙◌, true, false, none, List, [], ◌∷◌, ◌++◌,
  arith,
}
use cppgenerics.ProgressBar.{
  Format, ProgressBar, new_progress_bar, backspace, newline, repeat, line, erase, draw, redraw,
  title, stop_output, notify_all, session, rev_append, show, is_plain,
}
use cppgenerics.ProgressBar.Screens.{
  show-++, screen, show-home, show-plain, is_plain-++, show-newline,
}
use cppgenerics.ProgressBar.Shown.{
  IsMonotone, IsShown, line_plain, redraw-Redrawn, notify_all-Redrawn, sum,
}

title_plain : (caption : List ℕ) → is_plain caption ≡ true → is_plain (title caption) ≡ true
unfolding title is_plain
title_plain caption plain = is_plain-++ caption (32 ∷ 60 ∷ 60 ∷ 60 ∷ 60 ∷ 32 ∷ []) plain refl

module _ (f : Format) (mono : IsMonotone f) where
  -- The first drawing, in an empty line.
  first :
      (c t : ℕ) (a : List (List ℕ))
      → show (erase none 2 ++ line f c t) (screen a [] [])
        ≡ screen a (rev_append (line f c t) []) []
  unfolding erase
  first c t a =
      show-++ (repeat 2 backspace) (line f c t) (screen a [] [])
      ∙ ap (show (line f c t)) (show-home 2 a [] [] (omega arith))
      ∙ show-plain (line f c t) a [] [] (line_plain f mono c t) (omega arith)

  module _ (caption : List ℕ) (total initial : ℕ) where
    abbrev waiting : ProgressBar
    waiting = new_progress_bar caption total initial

    abbrev going : ProgressBar
    going = record waiting { is_output = true }

    abbrev header_above : List (List ℕ)
    header_above = title caption ∷ []

    show-started :
        is_plain caption ≡ true
        → show (title caption ++ ((newline ∷ []) ++ (draw f going).1)) (screen [] [] [])
          ≡ screen header_above (rev_append (line f initial total) []) []
    unfolding draw
    show-started plain =
        show-++ (title caption) ((newline ∷ []) ++ (draw f going).1) (screen [] [] [])
        ∙ ap (show ((newline ∷ []) ++ (draw f going).1))
            (show-plain (title caption) [] [] [] (title_plain caption plain) (omega arith))
        ∙ show-++ (newline ∷ []) (draw f going).1 (screen [] (rev_append (title caption) []) [])
        ∙ ap (show (draw f going).1) (show-newline [] (title caption))
        ∙ first initial total header_above

  -- stopOutput of a bar that shows a count up to its total.
  abbrev Stopped : ℕ → ℕ → List (List ℕ) → ProgressBar × List ℕ → Type 0
  Stopped total d a (b, out) =
      (e : ℕ) × (f.bars e total ≡ f.bars total total)
      × (e ≤ total)
      × (show out (screen a (rev_append (line f d total) []) [])
          ≡ screen (line f e total ∷ a) [] [])
      × (b.is_output ≡ false)

  stop_output_on :
      (b : ProgressBar)
      → b.is_output ≡ true
      → stop_output f b ≡ (
          let (b', out) = redraw f (record b { current = b.total }) in
          (record b' { is_output = false }, out ++ (newline ∷ [])))
  unfolding stop_output
  stop_output_on b on = rw on

  stop_output-Stopped :
      (b : ProgressBar) (d : ℕ) (a : List (List ℕ))
      → IsShown f b d
      → d ≤ b.total
      → Stopped b.total d a (stop_output f b)
  stop_output-Stopped b d a shown within =
      let full = record b { current = b.total } in
      let (e, is_shown, on_screen, total, current) =
        redraw-Redrawn f mono full d a shown.output shown.bars shown.len within in
      subst (Stopped b.total d a) (sym (stop_output_on b shown.output)) (
        e,
        cc,
        omega (arith, is_shown.below, current),
        show-++ (redraw f full).1 (newline ∷ []) (screen a (rev_append (line f d b.total) []) [])
            ∙ ap (show (newline ∷ [])) on_screen
            ∙ show-newline a (line f e b.total),
        refl,
      )

  -- A bar runs from startOutput over calls of notify to stopOutput in an empty terminal, where the
  -- count stays below its total and floating-point results grow with the count. The terminal then
  -- shows the caption's line and one line of the bar, with the bars of the total and the
  -- percentage of the count that had them first drawn; no mark of an earlier line stays.
  pub show-session :
      (caption : List ℕ) (total initial : ℕ) (us : List ℕ)
      → is_plain caption ≡ true
      → initial + sum us ≤ total
      → total < 2 ^ 64
      → (e : ℕ) × (e ≤ total)
        × (f.bars e total ≡ f.bars total total)
        × (show (session f us (new_progress_bar caption total initial)).1 (screen [] [] [])
            ≡ screen (line f e total ∷ title caption ∷ []) [] [])
  unfolding session draw
  show-session caption total initial us plain within fits =
      let above = title caption ∷ [] in
      let b = (draw f (going caption total initial)).0 in
      let opening = title caption ++ ((newline ∷ []) ++ (draw f (going caption total initial)).1) in
      let (d, shown, on_screen, same_total, current) =
        notify_all-Redrawn f mono us b initial above
          (record { output = refl; bars = refl; len = refl; below = omega arith; same_bars = refl })
          (omega arith) in
      let notified = notify_all f us b in
      let stopped = stop_output f notified.0 in
      let (e, bars, below, on_screen', off) =
        subst (λ t. Stopped t d above stopped) same_total
          (stop_output-Stopped notified.0 d above shown
            (omega (arith, shown.below, current, same_total))) in
      (
        e,
        below,
        bars,
        show-++ opening (notified.1 ++ stopped.1) (screen [] [] [])
            ∙ ap (show (notified.1 ++ stopped.1)) (show-started caption total initial plain)
            ∙ show-++ notified.1 stopped.1 (screen above (rev_append (line f initial total) []) [])
            ∙ ap (show stopped.1) on_screen
            ∙ on_screen',
      )
