-- ===== src/KeyFile/Calls.antt =====
-- The calls of the start-up when every system call succeeds.
use cppgenerics.Prelude.{
  ℕ, zero, suc, ◌+◌, ◌<◌, ◌≡◌, refl, ◌∙◌, ap, subst, Bool, true, false, Option, none, some, write,
  arith,
}
use cppgenerics.KeyFile.{
  Host, World, ok, M, ◌>>=◌, ◌>>◌, pure, require, finally, open_auto_close, close, lock, unlock,
  with_key_file, create_segment, find_segment,
}
use cppgenerics.KeyFile.Manager.{
  Segment, blank, modify, absent_key, write_control, count_one, create_control, join_control,
}

-- Every system call succeeds.
abbrev pub willing : (ℕ → ℕ) → Host
willing draw = record {
  can_open = true;
  can_lock = true;
  can_read = true;
  can_write = true;
  can_attach = true;
  draw = draw;
}

write_twice_at :
    {A : Type 0} (f : ℕ → A) (k : ℕ) (a b : A) (j : ℕ) → write (write f k a) k b j ≡ write f k b j
write_twice_at f k a b j = ground arith

pub write_twice : {A : Type 0} (f : ℕ → A) (k : ℕ) (a b : A) → write (write f k a) k b ≡ write f k b
write_twice f k a b i j = write_twice_at f k a b j i

write_same : {A : Type 0} (f : ℕ → A) (k : ℕ) (a : A) → write f k a k ≡ a
write_same f k a = ground arith

abbrev pub is_used : Option Segment → Bool
is_used none = false
is_used (some seg) = true

used_elim :
    {A : Type 0} (o : Option Segment) (x y : A)
    → is_used o ≡ true
    → (elim o [ none ↦ x | some seg ↦ y ]) ≡ y
used_elim none x y e = grind arith
used_elim (some seg) x y e = refl

-- The first absent key is drawn, if the fuel reaches it.
pub absent_key_lem :
    (fuel j i n : ℕ) (host : Host) (w : World Segment)
    → j < fuel
    → n ≡ i + j
    → w.segments (host.draw n) ≡ none
    → ((m : ℕ) → m < n → is_used (w.segments (host.draw m)) ≡ true)
    → absent_key fuel host i w ≡ ok (host.draw n) w
unfolding absent_key
absent_key_lem zero j i n host w h e absent used = absurd (omega arith)
absent_key_lem (suc fuel) zero i n host w h e absent used =
    subst
      (λ a. w.segments (host.draw a) ≡ none → absent_key (suc fuel) host i w ≡ ok (host.draw a) w)
      {x = i} (omega arith) (λ none_there. rw (none_there, absent_key)) absent
absent_key_lem (suc fuel) (suc j) i n host w h e absent used =
    used_elim (w.segments (host.draw i)) (ok (host.draw i) w) (absent_key fuel host (suc i) w)
      (used i (omega arith))
    ∙ absent_key_lem fuel j (suc i) n host w (omega arith) (omega arith) absent used

pub bind_ok :
    {Seg A B : Type 0} (c : M Seg A) (f : A → M Seg B) (w v : World Seg) (a : A)
    → c w ≡ ok a v
    → (c >>= f) w ≡ f a v
bind_ok c f w v a e = rw (e, ◌>>=◌)

pub finally_ok :
    {Seg A : Type 0} (d : World Seg → World Seg) (c : M Seg A) (w v : World Seg) (a : A)
    → c w ≡ ok a v
    → finally d c w ≡ ok a (d v)
finally_ok d c w v a e = rw (e, finally)

-- The segment of a key, in a world with it.
abbrev pub with_segment : {Seg : Type 0} → World Seg → ℕ → Seg → World Seg
with_segment w key seg = record w { segments = write w.segments key (some seg) }

modify_at :
    (w : World Segment) (key : ℕ) (seg : Segment) (f : Segment → Segment)
    → w.segments key ≡ some seg
    → modify key f w ≡ ok tt (with_segment w key (f seg))
modify_at w key seg f e = rw (e, modify)

pub modify_lem :
    (w : World Segment) (key : ℕ) (seg : Segment) (f : Segment → Segment)
    → modify key f (with_segment w key seg) ≡ ok tt (with_segment w key (f seg))
modify_lem w key seg f =
    modify_at (with_segment w key seg) key seg f (write_same w.segments key (some seg))
    ∙ ap (λ s. ok tt (record w { segments = s }))
        (write_twice w.segments key (some seg) (some (f seg)))

pub create_segment_lem :
    {Seg : Type 0} (w : World Seg) (key : ℕ) (seg : Seg)
    → w.segments key ≡ none
    → create_segment key seg w ≡ ok tt (with_segment w key seg)
unfolding create_segment
create_segment_lem w key seg e = rw (e, create_segment)

pub find_segment_lem :
    {Seg : Type 0} (w : World Seg) (key : ℕ) (seg : Seg)
    → find_segment key (with_segment w key seg) ≡ ok seg (with_segment w key seg)
unfolding find_segment
find_segment_lem w key seg = rw (write_same w.segments key (some seg), find_segment)

pub session_lem :
    {Seg A : Type 0} (draw : ℕ → ℕ) (w : World Seg) (body : M Seg A) (v : World Seg) (a : A)
    → body (record w { is_open = true; is_locked = true }) ≡ ok a v
    → with_key_file (willing draw) body w ≡ ok a (close (unlock v))
unfolding with_key_file open_auto_close lock
session_lem draw w body v a e =
    finally_ok close (lock (willing draw) >> finally unlock body) (record w { is_open = true })
      (unlock v) a (finally_ok unlock body (record w { is_open = true; is_locked = true }) v a e)

module _ (draw : ℕ → ℕ) (w : World Segment) (key : ℕ) where
  pub create_control_lem :
      (fuel : ℕ)
      → absent_key fuel (willing draw) 0 w ≡ ok key w
      → w.segments key ≡ none
      → create_control fuel (willing draw) w ≡ ok key (with_segment w key (write_control key blank))
  unfolding create_control
  create_control_lem fuel drawn absent =
      let written = modify key (write_control key) >> pure key in
      bind_ok (absent_key fuel (willing draw) 0)
        (λ k. create_segment k blank >> (require true >> (modify k (write_control k) >> pure k))) w
        w key drawn
      ∙ bind_ok (create_segment key blank) (λ _. require true >> written) w
          (with_segment w key blank) tt (create_segment_lem w key blank absent)
      ∙ bind_ok (modify key (write_control key)) (λ _. pure key) (with_segment w key blank)
          (with_segment w key (write_control key blank)) tt
          (modify_lem w key blank (write_control key))

  pub join_control_lem :
      (seg : Segment)
      → join_control (willing draw) key (with_segment w key seg)
        ≡ ok key (with_segment w key (count_one seg))
  unfolding join_control
  join_control_lem seg =
      let counted = modify key count_one >> pure key in
      bind_ok (find_segment key) (λ _. require true >> counted) (with_segment w key seg)
        (with_segment w key seg) seg (find_segment_lem w key seg)
      ∙ bind_ok (modify key count_one) (λ _. pure key) (with_segment w key seg)
          (with_segment w key (count_one seg)) tt (modify_lem w key seg count_one)
