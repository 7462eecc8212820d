-- ===== src/NetLink/Events.antt =====
-- Which callbacks an event calls after additions and removals.
use cppgenerics.Prelude.{
  ℕ, ◌≡◌, ◌≢◌, ◌≤◌, refl, false, ◌&&◌, Option, none, some, List, [], ◌∷◌, ◌++◌, ◌==◌, leb,
  if◌then◌else◌, same, same_refl, write, arith, ap, ◌∙◌, inl, inr, Bool-cases, ◌⊎◌,
}
use cppgenerics.NetLink.{
  InterfaceEventCb, equal, add_interface_event, remove_interface_event, process_event, rtm_newlink,
  rtm_dellink, rtm_newaddr, rtm_deladdr, ifla_ifname, parse_rtattr, switch, handle_message, Limits,
  prints_garbage, ifa_local,
}

-- After addInterfaceEvent an event calls what it called before, and then the new callback if its
-- event and name are those of the event.
process_event-add :
    (ev : ℕ) (name : List ℕ) (c : InterfaceEventCb) (cs : List InterfaceEventCb)
    → process_event ev name (add_interface_event c cs)
      ≡ process_event ev name cs
        ++ (if c.event == ev && same c.iface_name name then (c.callback, c.cb_arg) ∷ [] else [])
unfolding process_event add_interface_event
process_event-add ev name c [] = refl
process_event-add ev name c (x ∷ xs) = elim (Bool-cases (x.event == ev && same x.iface_name name)) [
  | inl called ↦ rw called (ap (λ r. (x.callback, x.cb_arg) ∷ r) (process_event-add ev name c xs))
  | inr other ↦ rw other (process_event-add ev name c xs)
]

-- After removeInterfaceEvent of a callback, its event calls nothing any more, on whatever interface,
-- and every other event calls what it called before.
process_event-remove :
    (ev : ℕ) (name : List ℕ) (c : InterfaceEventCb) (cs : List InterfaceEventCb)
    → process_event ev name (remove_interface_event c cs)
      ≡ (if ev == c.event then [] else process_event ev name cs)
unfolding process_event remove_interface_event equal
process_event-remove ev name c [] = ground arith
process_event-remove ev name c (x ∷ xs) =
    let rest = process_event-remove ev name c xs in ground (arith, same_refl x.iface_name, rest)

-- No attribute has the type.
abbrev pub Lacks : ℕ → List (ℕ × List ℕ) → Type 0
Lacks n [] = Unit {0}
Lacks n ((type, payload) ∷ rest) = (type ≢ n) × Lacks n rest

parse_rtattr-Lacks :
    (max n : ℕ) (attrs : List (ℕ × List ℕ)) (tb : ℕ → Option (List ℕ))
    → Lacks n attrs
    → parse_rtattr max attrs tb n ≡ tb n
unfolding parse_rtattr
parse_rtattr-Lacks max n [] tb lacks = refl
parse_rtattr-Lacks max n ((type, payload) ∷ rest) tb (differs, lacks) =
    parse_rtattr-Lacks max n rest (if leb type max then write tb type (some payload) else tb) lacks
    ∙ ground arith

parse_rtattr-last :
    (max n : ℕ) (before : List (ℕ × List ℕ)) (name : List ℕ) (after : List (ℕ × List ℕ))
    (tb : ℕ → Option (List ℕ))
    → n ≤ max
    → Lacks n after
    → parse_rtattr max (before ++ ((n, name) ∷ after)) tb n ≡ some name
unfolding parse_rtattr
parse_rtattr-last max n [] name after tb le lacks =
    parse_rtattr-Lacks max n after (if leb n max then write tb n (some name) else tb) lacks
    ∙ ground arith
parse_rtattr-last max n ((type, payload) ∷ before) name after tb le lacks =
    parse_rtattr-last max n before name after
      (if leb type max then write tb type (some payload) else tb) le lacks

-- A type of message that reports an event of an interface.
abbrev pub IsEvent : ℕ → Type 0
IsEvent type =
    (type ≡ rtm_deladdr) ⊎ (type ≡ rtm_dellink) ⊎ (type ≡ rtm_newlink) ⊎ (type ≡ rtm_newaddr)

-- A message of a new address has the attribute IFA_LOCAL.
abbrev pub IsAddressed : ℕ → ℕ → List (ℕ × List ℕ) → Type 0
IsAddressed ifa_max type addrs =
    (type ≢ rtm_newaddr)
    ⊎ ((a : List ℕ) × (parse_rtattr ifa_max addrs (λ i. none) ifa_local ≡ some a))

prints_garbage-IsAddressed :
    (ifa_max type : ℕ) (addrs : List (ℕ × List ℕ))
    → IsAddressed ifa_max type addrs
    → prints_garbage ifa_max type addrs ≡ false
unfolding prints_garbage
prints_garbage-IsAddressed ifa_max type addrs (inl other) = ground arith
prints_garbage-IsAddressed ifa_max type addrs (inr (a, e)) = rw e (ground arith)

-- A message of an event with an attribute IFLA_IFNAME calls the callbacks of the event for the name
-- in the last such attribute; IFLA_MAX is at least IFLA_IFNAME, and the message of a new address has
-- an attribute IFA_LOCAL.
pub handle_message-named :
    (max : Limits) (type : ℕ) (before : List (ℕ × List ℕ)) (name : List ℕ)
    (after addrs : List (ℕ × List ℕ)) (cs : List InterfaceEventCb)
    → ifla_ifname ≤ max.ifla_max
    → Lacks ifla_ifname after
    → IsEvent type
    → IsAddressed max.ifa_max type addrs
    → handle_message max type (before ++ ((ifla_ifname, name) ∷ after)) addrs cs
      ≡ some (process_event type name cs)
unfolding handle_message switch
handle_message-named max type before name after addrs cs le lacks event address =
    let e : parse_rtattr max.ifla_max (before ++ ((ifla_ifname, name) ∷ after)) (λ i. none)
          ifla_ifname
        ≡ some name =
      parse_rtattr-last max.ifla_max ifla_ifname before name after (λ i. none) le lacks in
    rw (e, prints_garbage-IsAddressed max.ifa_max type addrs address) (ground arith)
