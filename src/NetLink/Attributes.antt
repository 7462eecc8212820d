-- ===== src/NetLink/Attributes.antt =====
-- parseRtattr of src/NetLinkListener.cpp over the bytes of the receive buffer. An attribute is the
-- offset of its header. The macros RTA_OK and RTA_NEXT of linux/rtnetlink.h are parameters.
use cppgenerics.Prelude.{
  ℕ, zero, suc, ◌+◌, ◌*◌, ◌/◌, ◌≤◌, ◌<◌, ◌≡◌, inl, inr, refl, Bool, true, false, ◌&&◌, Option, none,
  some, List, [], ◌∷◌, leb, if◌then◌else◌, write, ℤ, pos, negsuc, sub_ℕ, pos_part, arith,
  Bool-cases,
}
use cppgenerics.NetLink.{parse_rtattr}

-- rta_type and rta_len of the header at an offset.
pub record Headers : Type 0 where
  pub rta_type : ℕ → ℕ
  pub rta_len : ℕ → ℕ

-- RTA_ALIGN: a multiple of four.
abbrev pub align : ℕ → ℕ
align n = (n + 3) / 4 * 4

-- The macros, with what linux/rtnetlink.h defines: RTA_OK wants a header of four bytes in the rest
-- and in the attribute's length, and that length in the rest; RTA_NEXT takes the aligned length off
-- the rest, an int, and adds it to the address.
pub record RtaMacros (b : Headers) : Type 0 where
  pub ok : ℕ → ℤ → Bool
  pub next : ℕ → ℤ → ℕ × ℤ
  pub ok_rest : (p n : ℕ) → ok p (pos n) ≡ (leb 4 n && (leb 4 (b.rta_len p) && leb (b.rta_len p) n))
  pub ok_over : (p n : ℕ) → ok p (negsuc n) ≡ false
  pub next_lem :
      (p n : ℕ) → next p (pos n) ≡ (p + align (b.rta_len p), sub_ℕ n (align (b.rta_len p)))

module _ (b : Headers) (rta : RtaMacros b) (max : ℕ) where
  -- The loop of parseRtattr on fuel, from the attribute at p with a rest of `len` bytes; `none` when
  -- the fuel runs out.
  unfoldable pub parse_loop : ℕ → ℕ → ℤ → (ℕ → Option ℕ) → Option (ℕ → Option ℕ)
  parse_loop zero p len tb = none
  parse_loop (suc f) p len tb =
      let type : ℕ = b.rta_type p in
      let taken = if leb type max then write tb type (some p) else tb in
      let (p', len') = rta.next p len in
      let rest = parse_loop f p' len' taken in if rta.ok p len then rest else some tb

  -- The calls of parseRtattr in m_ifaceEventProcessor_f for a message at `base`, whose attributes
  -- begin `header` bytes behind: the length given is nlmsg_len, that of the whole message.
  unfoldable pub parse_message : ℕ → ℕ → ℕ → Option (ℕ → Option ℕ)
  unfolding parse_loop
  parse_message base header nlmsg_len =
      parse_loop (suc nlmsg_len) (base + header) (pos nlmsg_len) (λ i. none)

-- The attributes lie between `from` and `stop` with their headers, and carry their types.
abbrev pub Within : Headers → ℕ → ℕ → List (ℕ × ℕ) → Type 0
Within b from stop [] = Unit {0}
Within b from stop ((type, p) ∷ rest) =
    (type ≡ b.rta_type p)
    × (4 ≤ b.rta_len p)
    × (from ≤ p)
    × (p + b.rta_len p ≤ stop)
    × Within b from stop rest

pub Within-lower :
    (b : Headers) (low from stop : ℕ) (attrs : List (ℕ × ℕ))
    → low ≤ from
    → Within b from stop attrs
    → Within b low stop attrs
Within-lower b low from stop [] le w = tt
Within-lower b low from stop ((type, p) ∷ rest) le (e, four, above, below, w) =
    (e, four, omega arith, below, Within-lower b low from stop rest le w)

-- What RTA_OK says.
pub ok-fits :
    (b : Headers) (rta : RtaMacros b) (p n : ℕ)
    → rta.ok p (pos n) ≡ true
    → (4 ≤ b.rta_len p) × (b.rta_len p ≤ n)
ok-fits b rta p n h = ground (arith, rta.ok_rest p n)

module _ (b : Headers) (rta : RtaMacros b) (max : ℕ) where
  -- A list of attributes up to `stop` that stands for the loop.
  abbrev pub Parsed : ℕ → ℕ → ℤ → (ℕ → Option ℕ) → ℕ → Type 0
  Parsed fuel p len tb stop =
      (attrs : List (ℕ × ℕ)) × (parse_loop b rta max fuel p len tb
        ≡ some (parse_rtattr max attrs tb))
      × Within b p stop attrs

  parse_loop-over :
      (f p stop : ℕ) (len : ℤ) (tb : ℕ → Option ℕ)
      → rta.ok p len ≡ false
      → Parsed (suc f) p len tb stop
  unfolding parse_loop parse_rtattr
  parse_loop-over f p stop len tb over = ([], rw over refl, tt)

  pub parse_loop-Parsed :
      (fuel p stop : ℕ) (len : ℤ) (tb : ℕ → Option ℕ)
      → pos_part len < fuel
      → (0 < pos_part len → p + pos_part len ≤ stop)
      → Parsed fuel p len tb stop
  unfolding parse_loop parse_rtattr
  parse_loop-Parsed zero p stop len tb lt le = absurd (omega arith)
  parse_loop-Parsed (suc f) p stop (negsuc n) tb lt le =
      parse_loop-over f p stop (negsuc n) tb (rta.ok_over p n)
  parse_loop-Parsed (suc f) p stop (pos n) tb lt le = elim (Bool-cases (rta.ok p (pos n))) [
    | inr over ↦ parse_loop-over f p stop (pos n) tb over
    | inl fits ↦
        let l : ℕ = b.rta_len p in
        let (least, most) = ok-fits b rta p n fits in
        let taken = if leb (b.rta_type p) max then write tb (b.rta_type p) (some p) else tb in
        let (attrs, e, w) =
          parse_loop-Parsed f (p + align l) stop (sub_ℕ n (align l)) taken (ground arith)
            (λ h. ground (arith, le)) in
        (
          (b.rta_type p, p) ∷ attrs,
          rw (fits, rta.next_lem p n) e,
          (
            refl,
            least,
            omega arith,
            omega (arith, le (omega arith)),
            Within-lower b p (p + align l) stop attrs (omega arith) w,
          ),
        )
  ]

  -- For every content of the buffer, fuel above the length is enough: the loop ends, and gives the
  -- table that parse_rtattr gives for a list of attributes that all lie, with their lengths, in the
  -- `n` bytes from p.
  pub parse_loop-ends :
      (fuel p n : ℕ) (tb : ℕ → Option ℕ)
      → n < fuel
      → (attrs : List (ℕ × ℕ)) × (parse_loop b rta max fuel p (pos n) tb
          ≡ some (parse_rtattr max attrs tb))
        × Within b p (p + n) attrs
  parse_loop-ends fuel p n tb lt = parse_loop-Parsed fuel p (p + n) (pos n) tb lt (λ h. omega arith)
