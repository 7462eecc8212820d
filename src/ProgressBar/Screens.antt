-- ===== src/ProgressBar/Screens.antt =====
-- The terminal behind backspaces, plain text and a newline.
use cppgenerics.Prelude.{
  ℕ, zero, suc, ◌+◌, ◌≤◌, ◌≡◌, refl, ap, ◌∙◌, true, false, List, [], ◌∷◌, ◌++◌, ◌==◌, length, arith,
}
use cppgenerics.ProgressBar.{
  backspace, newline, bar_mark, repeat, Screen, rev_append, behind_cursor, back, put, show,
  is_plain,
}

pub show-++ : (xs ys : List ℕ) (s : Screen) → show (xs ++ ys) s ≡ show ys (show xs s)
unfolding show
show-++ [] ys s = refl
show-++ (x ∷ xs) ys s = show-++ xs ys (put x s)

repeat_at : (m n c : ℕ) → m ≡ n → repeat m c ≡ repeat n c
repeat_at m n c e = ap (λ k. repeat k c) e

pub repeat_add : (m n c : ℕ) → repeat m c ++ repeat n c ≡ repeat (m + n) c
unfolding repeat
repeat_add zero n c = repeat_at n (0 + n) c (omega arith)
repeat_add (suc m) n c =
    ap (λ xs. c ∷ xs) (repeat_add m n c) ∙ repeat_at (suc (m + n)) (suc m + n) c (omega arith)

pub length-repeat : (n c : ℕ) → length (repeat n c) ≡ n
unfolding repeat
length-repeat zero c = refl
length-repeat (suc n) c = omega (arith, length-repeat n c)

pub length-++ : (xs ys : List ℕ) → length (xs ++ ys) ≡ length xs + length ys
length-++ [] ys = omega arith
length-++ (x ∷ xs) ys = omega (arith, length-++ xs ys)

pub length-rev_append : (xs ys : List ℕ) → length (rev_append xs ys) ≡ length xs + length ys
length-rev_append [] ys = omega arith
length-rev_append (x ∷ xs) ys = omega (arith, length-rev_append xs (x ∷ ys))

abbrev pub screen : List (List ℕ) → List ℕ → List ℕ → Screen
screen a l r = record { above = a; left = l; right = r }

-- Backspaces as many as the cells left of the cursor, or more, take it to the first column.
pub show-home :
    (n : ℕ) (a : List (List ℕ)) (l r : List ℕ)
    → length l ≤ n
    → show (repeat n backspace) (screen a l r) ≡ screen a [] (rev_append l r)
unfolding show repeat put back
show-home zero a [] r h = refl
show-home zero a (x ∷ l) r h = absurd (omega arith)
show-home (suc n) a [] r h = show-home n a [] r (omega arith)
show-home (suc n) a (x ∷ l) r h = show-home n a l (x ∷ r) (omega arith)

put_plain :
    (c : ℕ) (s : Screen)
    → (c == backspace) ≡ false
    → (c == newline) ≡ false
    → put c s ≡ record s { left = c ∷ s.left; right = behind_cursor s.right }
unfolding put
put_plain c s not_back not_newline = rw (not_back, not_newline)

length-behind_cursor : (xs : List ℕ) (n : ℕ) → length xs ≤ suc n → length (behind_cursor xs) ≤ n
length-behind_cursor [] n h = omega arith
length-behind_cursor (x ∷ xs) n h = omega arith

plain_cons :
    (c : ℕ) (cs : List ℕ)
    → is_plain (c ∷ cs) ≡ true
    → ((c == backspace) ≡ false) × ((c == newline) ≡ false) × (is_plain cs ≡ true)
unfolding is_plain
plain_cons c cs p = (ground arith, ground arith, ground arith)

-- A text at least as long as what stands from the cursor on takes its place.
pub show-plain :
    (cs : List ℕ) (a : List (List ℕ)) (l r : List ℕ)
    → is_plain cs ≡ true
    → length r ≤ length cs
    → show cs (screen a l r) ≡ screen a (rev_append cs l) []
unfolding show is_plain
show-plain [] a l [] p h = refl
show-plain [] a l (x ∷ r) p h = absurd (omega arith)
show-plain (c ∷ cs) a l r p h =
    let (not_back, not_newline, plain) = plain_cons c cs p in
    ap (show cs) (put_plain c (screen a l r) not_back not_newline)
    ∙ show-plain cs a (c ∷ l) (behind_cursor r) plain
        (length-behind_cursor r (length cs) (omega arith))

pub rev_append_twice :
    (xs ys zs : List ℕ) → rev_append (rev_append xs ys) zs ≡ rev_append ys (xs ++ zs)
rev_append_twice [] ys zs = refl
rev_append_twice (x ∷ xs) ys zs = rev_append_twice xs (x ∷ ys) zs

pub is_plain-++ :
    (xs ys : List ℕ) → is_plain xs ≡ true → is_plain ys ≡ true → is_plain (xs ++ ys) ≡ true
unfolding is_plain
is_plain-++ [] ys p q = q
is_plain-++ (x ∷ xs) ys p q =
    let (not_back, not_newline, plain) = plain_cons x xs p in
    rw (not_back, not_newline) (is_plain-++ xs ys plain q)

pub is_plain-repeat : (n : ℕ) → is_plain (repeat n bar_mark) ≡ true
unfolding is_plain repeat
is_plain-repeat zero = refl
is_plain-repeat (suc n) = is_plain-repeat n

++-[] : (xs : List ℕ) → xs ++ [] ≡ xs
++-[] [] = refl
++-[] (x ∷ xs) = ap (λ ys. x ∷ ys) (++-[] xs)

-- A newline ends the line.
pub show-newline :
    (a : List (List ℕ)) (cs : List ℕ)
    → show (newline ∷ []) (screen a (rev_append cs []) []) ≡ screen (cs ∷ a) [] []
unfolding show put
show-newline a cs = ap (λ l. screen (l ∷ a) [] []) (rev_append_twice cs [] [] ∙ ++-[] cs)
