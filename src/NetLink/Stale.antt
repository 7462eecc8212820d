-- ===== src/NetLink/Stale.antt =====
-- parseRtattr with the length of the whole message: what lies behind the message in the buffer.
use cppgenerics.Prelude.{
  ℕ, zero, suc, ◌+◌, ◌-◌, ◌≤◌, ◌<◌, ◌≡◌, true, ◌&&◌, Option, none, some, List, [], ◌∷◌, ◌==◌, leb,
  if◌then◌else◌, write, pos, sub_ℕ, arith, subst, sym, Bool-cases, inl, inr,
}
use cppgenerics.NetLink.{parse_rtattr}
use cppgenerics.NetLink.Attributes.{
  Headers, RtaMacros, align, parse_loop, parse_message, Within, Within-lower, parse_loop-Parsed,
}

-- The attributes of a message: each begins where the one before ends, aligned, and the last ends at
-- `stop`.
abbrev pub Laid : Headers → ℕ → List ℕ → ℕ → Type 0
Laid b p [] stop = p ≡ stop
Laid b p (q ∷ qs) stop = (q ≡ p) × (4 ≤ b.rta_len p) × Laid b (p + align (b.rta_len p)) qs stop

Laid-le : (b : Headers) (p : ℕ) (qs : List ℕ) (stop : ℕ) → Laid b p qs stop → p ≤ stop
Laid-le b p [] stop e = omega arith
Laid-le b p (q ∷ qs) stop (e, four, l) =
    omega (arith, Laid-le b (p + align (b.rta_len p)) qs stop l)

-- An entry at or behind `low` is replaced by another such.
parse_rtattr-behind :
    (b : Headers) (max low stop t : ℕ) (attrs : List (ℕ × ℕ)) (tb : ℕ → Option ℕ) (q : ℕ)
    → Within b low stop attrs
    → tb t ≡ some q
    → low ≤ q
    → (r : ℕ) × (parse_rtattr max attrs tb t ≡ some r) × (low ≤ r)
unfolding parse_rtattr
parse_rtattr-behind b max low stop t [] tb q w e le = (q, e, le)
parse_rtattr-behind b max low stop t ((type, p) ∷ rest) tb q (same, four, above, below, w) e le =
    let taken = if leb type max then write tb type (some p) else tb in
    elim (Bool-cases (leb type max && (type == t))) [
      | inl new ↦ parse_rtattr-behind b max low stop t rest taken p w (ground arith) above
      | inr old ↦ parse_rtattr-behind b max low stop t rest taken q w (ground arith) le
    ]

module _ (b : Headers) (rta : RtaMacros b) (max stop extra : ℕ) where
  -- The table has an entry at or behind the end for the type of the attribute found there.
  abbrev pub IsStale : Option (ℕ → Option ℕ) → Type 0
  IsStale result =
      (tb : ℕ → Option ℕ) × (q : ℕ) × (result ≡ some tb)
      × (tb (b.rta_type stop) ≡ some q)
      × (stop ≤ q)

  module _ (four : 4 ≤ b.rta_len stop) (fits : b.rta_len stop ≤ extra)
      (type : b.rta_type stop ≤ max) where
    loop-IsStale_end :
        (f n : ℕ) (tb : ℕ → Option ℕ)
        → n ≡ extra
        → n < suc f
        → IsStale (parse_loop b rta max (suc f) stop (pos n) tb)
    unfolding parse_loop
    loop-IsStale_end f n tb size lt =
        let l : ℕ = b.rta_len stop in
        let found : rta.ok stop (pos n) ≡ true = ground (arith, rta.ok_rest stop n) in
        let small : leb (b.rta_type stop) max ≡ true = ground arith in
        let taken = write tb (b.rta_type stop) (some stop) in
        let (attrs, done, w) =
          parse_loop-Parsed b rta max f (stop + align l) (stop + n) (sub_ℕ n (align l)) taken
            (ground arith) (λ h. ground arith) in
        let (q, entry, behind) =
          parse_rtattr-behind b max stop (stop + n) (b.rta_type stop) attrs taken stop
            (Within-lower b stop (stop + align l) (stop + n) attrs (omega arith) w) (ground arith)
            (omega arith) in
        (
          parse_rtattr max attrs taken,
          q,
          rw (found, rta.next_lem stop n, small) done,
          entry,
          behind,
        )

    loop-IsStale :
        (qs : List ℕ) (fuel p n : ℕ) (tb : ℕ → Option ℕ)
        → Laid b p qs stop
        → n + p ≡ stop + extra
        → n < fuel
        → IsStale (parse_loop b rta max fuel p (pos n) tb)
    unfolding parse_loop
    loop-IsStale qs zero p n tb laid size lt = absurd (omega arith)
    loop-IsStale [] (suc f) p n tb laid size lt =
        subst (λ x. IsStale (parse_loop b rta max (suc f) x (pos n) tb)) (sym laid)
          (loop-IsStale_end f n tb (omega arith) lt)
    loop-IsStale (q ∷ qs) (suc f) p n tb (e, least, laid) size lt =
        let l : ℕ = b.rta_len p in
        let room = Laid-le b (p + align l) qs stop laid in
        let found : rta.ok p (pos n) ≡ true = ground (arith, rta.ok_rest p n) in
        let less : leb (align l) n ≡ true = ground arith in
        let taken = if leb (b.rta_type p) max then write tb (b.rta_type p) (some p) else tb in
        rw (found, rta.next_lem p n, less)
          (loop-IsStale qs f (p + align l) (n - align l) taken laid (omega arith) (omega arith))

-- A message at `base` whose attributes begin `header` bytes behind and end at `stop`, with the
-- length of all that in nlmsg_len; behind it, in what the buffer holds of earlier messages, an
-- attribute of a length from 4 to `header` and a type up to `max`. Then the table that parseRtattr
-- fills has for that type an attribute that does not lie in the message.
pub parse_message-IsStale :
    (b : Headers) (rta : RtaMacros b) (max base header stop nlmsg_len : ℕ) (qs : List ℕ)
    → Laid b (base + header) qs stop
    → nlmsg_len + base ≡ stop
    → 4 ≤ b.rta_len stop
    → b.rta_len stop ≤ header
    → b.rta_type stop ≤ max
    → IsStale b rta max stop header (parse_message b rta max base header nlmsg_len)
unfolding parse_message
parse_message-IsStale b rta max base header stop nlmsg_len qs laid size four fits type =
    loop-IsStale b rta max stop header four fits type qs (suc nlmsg_len) (base + header) nlmsg_len
      (λ i. none) laid (omega arith) (omega arith)
