-- ===== src/NetLink/Tests.antt =====
-- Two callbacks for new links, on the interfaces "a" and "b".
use cppgenerics.Prelude.{
  ℕ, ◌+◌, ◌≡◌, refl, Bool, false, ◌&&◌, none, some, List, [], ◌∷◌, ◌==◌, leb, if◌then◌else◌, ℤ, pos,
  negsuc, sub_ℕ, inl, inr, arith,
}
use cppgenerics.NetLink.{parse_rtattr}
use cppgenerics.NetLink.Attributes.{
  Headers, RtaMacros, align, parse_loop, parse_message, Within, parse_loop-ends,
}
use cppgenerics.NetLink.Stale.{IsStale, parse_message-IsStale}
use cppgenerics.NetLink.{InterfaceEventCb, process_event, rtm_newlink}
use cppgenerics.NetLink.{Limits, closed, stopped, listen}
use cppgenerics.NetLink.Loop.{
  Notice, event, add, remove, as_events, registered, calls_of, listen-calls_of,
}

abbrev link_a : InterfaceEventCb
link_a = record { event = 16; iface_name = 97 ∷ []; callback = 1; cb_arg = 0 }

abbrev link_b : InterfaceEventCb
link_b = record { event = 16; iface_name = 98 ∷ []; callback = 2; cb_arg = 0 }

b_called : process_event 16 (98 ∷ []) (link_a ∷ link_b ∷ []) ≡ (2, 0) ∷ []
unfolding process_event
b_called = refl

abbrev limits : Limits
limits = record { ifla_max = 60; ifa_max = 10 }

abbrev notices : List Notice
notices =
    add link_b
    ∷ event rtm_newlink ((1, 0 ∷ []) ∷ []) (98 ∷ []) ((4, []) ∷ []) [] ((rtm_newlink, []) ∷ [])
    ∷ remove link_b
    ∷ event rtm_newlink [] (98 ∷ []) [] [] []
    ∷ []

abbrev link_a_added : List Notice
link_a_added = add link_a ∷ []

listen-calls_of_example :
    listen limits (as_events notices (closed ∷ [])) (registered link_a_added)
    ≡ (calls_of link_a_added notices, stopped)
listen-calls_of_example = listen-calls_of limits link_a_added notices [] (omega arith) (
  tt,
  (
    (inr (inr (inl refl)), (omega arith, tt), inl (omega arith)),
    (tt, ((inr (inr (inl refl)), tt, inl (omega arith)), tt)),
  ),
)

-- The removal of the callback on "b" takes the one on "a" too.
notice_calls : calls_of link_a_added notices ≡ (2, 0) ∷ []
notice_calls = refl

none_left : registered (add link_a ∷ add link_b ∷ remove link_b ∷ []) ≡ []
none_left = refl

-- A buffer with an attribute of type 1 at 32, the end of the message at 40, and an attribute of type
-- 3 of an earlier message there.
abbrev buffer : Headers
buffer = record { rta_type = λ p. if p == 40 then 3 else 1; rta_len = λ p. 8 }

fits : Headers → ℕ → ℤ → Bool
fits b p (pos n) = leb 4 n && (leb 4 (b.rta_len p) && leb (b.rta_len p) n)
fits b p (negsuc n) = false

advance : Headers → ℕ → ℤ → ℕ × ℤ
advance b p (pos n) = (p + align (b.rta_len p), sub_ℕ n (align (b.rta_len p)))
advance b p (negsuc n) = (p, negsuc n)

abbrev macros : (b : Headers) → RtaMacros b
unfolding fits advance
macros b = record {
  ok = fits b;
  next = advance b;
  ok_rest = λ p n. refl;
  ok_over = λ p n. refl;
  next_lem = λ p n. refl;
}

parse_loop-ends_example :
    (attrs : List (ℕ × ℕ)) × (parse_loop buffer (macros buffer) 10 9 32 (pos 8) (λ i. none)
      ≡ some (parse_rtattr 10 attrs (λ i. none)))
    × Within buffer 32 40 attrs
parse_loop-ends_example = parse_loop-ends buffer (macros buffer) 10 9 32 8 (λ i. none) (omega arith)

parse_message-IsStale_example :
    IsStale buffer (macros buffer) 10 40 32 (parse_message buffer (macros buffer) 10 0 32 40)
parse_message-IsStale_example =
    parse_message-IsStale buffer (macros buffer) 10 0 32 40 40 (32 ∷ []) (refl, omega arith, refl)
      refl (omega arith) (omega arith) (omega arith)
