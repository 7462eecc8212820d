-- ===== src/ProgressBar/Shown.antt =====
-- The terminal behind redraw and notify.
use cppgenerics.Prelude.{
  ℕ, ◌+◌, ◌%◌, ◌^◌, ◌≤◌, ◌<◌, ◌≡◌, refl, sym, ap, subst, ◌∙◌, Bool, true, false, Bool-cases, inl,
  inr, Option, some, List, [], ◌∷◌, ◌++◌, if◌then◌else◌, ◌==◌, length, arith,
}
use cppgenerics.ProgressBar.{
  Format, ProgressBar, backspace, bar_mark, percent_sign, repeat, line, erase, draw, is_drawn,
  redraw, notify, notify_all, rev_append, show, is_plain,
}
use cppgenerics.ProgressBar.Screens.{
  show-++, repeat_add, length-repeat, length-++, length-rev_append, screen, show-home, show-plain,
  is_plain-++, is_plain-repeat,
}

-- Bars and percentages grow with the count, a larger percentage has no shorter text, and texts have
-- neither backspaces nor newlines.
pub record IsMonotone (f : Format) : Type 0 where
  pub bars_grow : (a b t : ℕ) → a ≤ b → f.bars a t ≤ f.bars b t
  pub text_grows :
      (a b t : ℕ)
      → a ≤ b
      → length (f.to_string (f.percent a t)) ≤ length (f.to_string (f.percent b t))
  pub text_plain : (n : ℕ) → is_plain (f.to_string n) ≡ true

-- The bar has drawn the line of the count `d` and would draw the same number of bars now.
pub record IsShown (f : Format) (b : ProgressBar) (d : ℕ) : Type 0 where
  pub output : b.is_output ≡ true
  pub bars : b.prev_bars ≡ some (f.bars d b.total)
  pub len : b.prev_num_percent_len ≡ length (f.to_string (f.percent d b.total)) + 1
  pub below : d ≤ b.current
  pub same_bars : f.bars d b.total ≡ f.bars b.current b.total

length-line :
    (f : Format) (c t : ℕ)
    → length (line f c t) ≡ f.bars c t + (length (f.to_string (f.percent c t)) + 1)
unfolding line
length-line f c t =
    length-++ (repeat (f.bars c t) bar_mark) (f.to_string (f.percent c t) ++ (percent_sign ∷ []))
    ∙ omega (
      arith,
      length-repeat (f.bars c t) bar_mark,
      length-++ (f.to_string (f.percent c t)) (percent_sign ∷ []),
    )

kept : {A : Type 0} (o d : Bool) (x y : A) → d ≡ true → (if o then (if d then x else y) else x) ≡ x
kept true true x y h = refl
kept true false x y h = grind arith
kept false d x y h = refl

changed :
    {A : Type 0} (o d : Bool) (x y : A)
    → o ≡ true
    → d ≡ false
    → (if o then (if d then x else y) else x) ≡ y
changed o d x y on not_drawn = rw (on, not_drawn)

unfoldable pub sum : List ℕ → ℕ
sum [] = 0
sum (u ∷ us) = u + sum us

module _ (f : Format) (mono : IsMonotone f) where
  pub line_plain : (c t : ℕ) → is_plain (line f c t) ≡ true
  unfolding line is_plain
  line_plain c t =
      is_plain-++ (repeat (f.bars c t) bar_mark)
        (f.to_string (f.percent c t) ++ (percent_sign ∷ [])) (is_plain-repeat (f.bars c t))
        (is_plain-++ (f.to_string (f.percent c t)) (percent_sign ∷ [])
          (mono.text_plain (f.percent c t)) refl)

  -- The line of a count takes the place of that of a smaller one.
  over :
      (d c t : ℕ) (a : List (List ℕ))
      → d ≤ c
      → show
          (erase (some (f.bars d t)) (length (f.to_string (f.percent d t)) + 1) ++ line f c t)
          (screen a (rev_append (line f d t) []) [])
        ≡ screen a (rev_append (line f c t) []) []
  unfolding erase
  over d c t a h =
      let len = length (f.to_string (f.percent d t)) + 1 in
      show-++ (repeat len backspace ++ repeat (f.bars d t) backspace) (line f c t)
        (screen a (rev_append (line f d t) []) [])
      ∙ ap (λ e. show (line f c t) (show e (screen a (rev_append (line f d t) []) [])))
          (repeat_add len (f.bars d t) backspace)
      ∙ ap (show (line f c t)) (
          show-home (len + f.bars d t) a (rev_append (line f d t) []) []
            (omega (arith, length-rev_append (line f d t) [], length-line f d t)))
      ∙ show-plain (line f c t) a [] (rev_append (rev_append (line f d t) []) []) (line_plain c t) (
          omega (
            arith,
            length-rev_append (rev_append (line f d t) []) [],
            length-rev_append (line f d t) [],
            length-line f d t,
            length-line f c t,
            mono.bars_grow d c t h,
            mono.text_grows d c t h,
          ))

  redraw_same :
      (b : ProgressBar)
      → is_drawn (f.bars b.current b.total) b.prev_bars ≡ true
      → redraw f b ≡ (b, [])
  unfolding redraw
  redraw_same b same =
      kept b.is_output (is_drawn (f.bars b.current b.total) b.prev_bars) (b, []) (draw f b) same

  pub redraw_new :
      (b : ProgressBar)
      → b.is_output ≡ true
      → is_drawn (f.bars b.current b.total) b.prev_bars ≡ false
      → redraw f b ≡ draw f b
  unfolding redraw
  redraw_new b output new =
      changed b.is_output (is_drawn (f.bars b.current b.total) b.prev_bars) (b, []) (draw f b)
        output new

  is_drawn_at :
      (bars prev : ℕ) (o : Option ℕ) (v : Bool)
      → o ≡ some prev
      → (bars == prev) ≡ v
      → is_drawn bars o ≡ v
  unfolding is_drawn
  is_drawn_at bars prev o v e h = ap (is_drawn bars) e ∙ h

  -- A bar of this total and count, and what is written over the line of the count `d`.
  abbrev pub Redrawn : ℕ → ℕ → ℕ → List (List ℕ) → ProgressBar × List ℕ → Type 0
  Redrawn total d count a (b, out) =
      (e : ℕ) × IsShown f b e
      × (show out (screen a (rev_append (line f d total) []) [])
          ≡ screen a (rev_append (line f e total) []) [])
      × (b.total ≡ total)
      × (b.current ≡ count)

  draw-Redrawn :
      (b : ProgressBar) (d : ℕ) (a : List (List ℕ))
      → b.is_output ≡ true
      → b.prev_bars ≡ some (f.bars d b.total)
      → b.prev_num_percent_len ≡ length (f.to_string (f.percent d b.total)) + 1
      → d ≤ b.current
      → Redrawn b.total d b.current a (draw f b)
  unfolding draw
  draw-Redrawn b d a output bars len below = (
    b.current,
    record { output = output; bars = refl; len = refl; below = omega arith; same_bars = refl },
    rw (bars, len) (over d b.current b.total a below),
    refl,
    refl,
  )

  pub redraw-Redrawn :
      (b : ProgressBar) (d : ℕ) (a : List (List ℕ))
      → b.is_output ≡ true
      → b.prev_bars ≡ some (f.bars d b.total)
      → b.prev_num_percent_len ≡ length (f.to_string (f.percent d b.total)) + 1
      → d ≤ b.current
      → Redrawn b.total d b.current a (redraw f b)
  unfolding show
  redraw-Redrawn b d a output bars len below =
      elim (Bool-cases (f.bars b.current b.total == f.bars d b.total)) [
        | inl same ↦
            subst (Redrawn b.total d b.current a)
              (sym (
                redraw_same b (
                  is_drawn_at (f.bars b.current b.total) (f.bars d b.total) b.prev_bars true bars
                    same)))
              (
                d,
                record {
                  output = output;
                  bars = bars;
                  len = len;
                  below = below;
                  same_bars = ground arith;
                },
                refl,
                refl,
                refl,
              )
        | inr new ↦
            subst (Redrawn b.total d b.current a)
              (sym (
                redraw_new b output (
                  is_drawn_at (f.bars b.current b.total) (f.bars d b.total) b.prev_bars false bars
                    new)))
              (draw-Redrawn b d a output bars len below)
      ]

  notify-Redrawn :
      (b : ProgressBar) (d u : ℕ) (a : List (List ℕ))
      → IsShown f b d
      → b.current + u < 2 ^ 64
      → Redrawn b.total d (b.current + u) a (notify f u b)
  unfolding notify
  notify-Redrawn b d u a shown fits =
      let (e, is_shown, on_screen, total, current) =
        redraw-Redrawn (record b { current = (b.current + u) % 2 ^ 64 }) d a shown.output shown.bars
          shown.len (omega (arith, shown.below)) in
      (e, is_shown, on_screen, total, omega (arith, current))

  pub notify_all-Redrawn :
      (us : List ℕ) (b : ProgressBar) (d : ℕ) (a : List (List ℕ))
      → IsShown f b d
      → b.current + sum us < 2 ^ 64
      → Redrawn b.total d (b.current + sum us) a (notify_all f us b)
  unfolding notify_all show sum
  notify_all-Redrawn [] b d a shown fits = (d, shown, refl, refl, omega arith)
  notify_all-Redrawn (u ∷ us) b d a shown fits =
      let (e, is_shown, on_screen, total, current) = notify-Redrawn b d u a shown (omega arith) in
      let (e', is_shown', on_screen', total', current') =
        notify_all-Redrawn us (notify f u b).0 e a is_shown (omega (arith, current, fits)) in
      (
        e',
        is_shown',
        show-++ (notify f u b).1 (notify_all f us (notify f u b).0).1
              (screen a (rev_append (line f d b.total) []) [])
            ∙ ap (show (notify_all f us (notify f u b).0).1) on_screen
            ∙ subst
                (λ t.
                  show (notify_all f us (notify f u b).0).1
                    (screen a (rev_append (line f e t) []) [])
                  ≡ screen a (rev_append (line f e' t) []) [])
                total on_screen',
        total' ∙ total,
        omega (arith, current, current'),
      )
