-- ===== src/NetLink/Loop.antt =====
-- The loop over a sequence of datagrams of events, with additions and removals between them.
use cppgenerics.Prelude.{
  ℕ, Bool, true, false, not, ◌&&◌, ◌==◌, same, same_refl, if◌then◌else◌, arith, Bool-cases, inl,
  inr, sym, ◌≡◌, ◌≤◌, refl, ap, ◌∙◌, some, List, [], ◌∷◌, ◌++◌,
}
use cppgenerics.NetLink.{
  InterfaceEventCb, Call, add_interface_event, remove_interface_event, process_event, ifla_ifname,
  Limits, Event, received, closed, added, removed, stopped, before_rest, listen,
}
use cppgenerics.NetLink.Events.{Lacks, IsEvent, IsAddressed, handle_message-named}

-- A datagram whose first message reports an event of an interface with a name, or a change of the
-- callbacks.
pub data Notice : Type 0 where
  event :
      ℕ
      → List (ℕ × List ℕ)
      → List ℕ
      → List (ℕ × List ℕ)
      → List (ℕ × List ℕ)
      → List (ℕ × List (ℕ × List ℕ))
      → Notice
  add remove : InterfaceEventCb → Notice

abbrev pub as_event : Notice → Event
as_event (event type before name after addrs more) =
    received type (before ++ ((ifla_ifname, name) ∷ after)) addrs more
as_event (add c) = added c
as_event (remove c) = removed c

abbrev pub as_events : List Notice → List Event → List Event
as_events [] later = later
as_events (n ∷ ns) later = as_event n ∷ as_events ns later

-- The name is in the last attribute of its type, and a new address has its attribute.
abbrev pub IsNamed : Limits → Notice → Type 0
IsNamed max (event type before name after addrs more) =
    IsEvent type × Lacks ifla_ifname after × IsAddressed max.ifa_max type addrs
IsNamed max (add c) = Unit {0}
IsNamed max (remove c) = Unit {0}

abbrev pub AreNamed : Limits → List Notice → Type 0
AreNamed max [] = Unit {0}
AreNamed max (n ∷ ns) = IsNamed max n × AreNamed max ns

-- A removal withdraws every callback for its event, whatever the interface.
abbrev withdraws : Notice → InterfaceEventCb → Bool
withdraws (remove r) c = c.event == r.event
withdraws _ c = false

abbrev survives : InterfaceEventCb → List Notice → Bool
survives c [] = true
survives c (n ∷ ns) = not (withdraws n c) && survives c ns

-- The callbacks after a history: those added, in their order, that nothing withdrew since.
abbrev pub registered : List Notice → List InterfaceEventCb
registered [] = []
registered (add c ∷ ns) = if survives c ns then c ∷ registered ns else registered ns
registered (_ ∷ ns) = registered ns

abbrev wants : ℕ → List ℕ → InterfaceEventCb → Bool
wants type name c = (c.event == type) && same c.iface_name name

-- The callbacks for the event and the name, each with its argument.
abbrev pub chosen : ℕ → List ℕ → List InterfaceEventCb → List Call
chosen type name [] = []
chosen type name (c ∷ cs) =
    (if wants type name c then (c.callback, c.cb_arg) ∷ [] else []) ++ chosen type name cs

-- The calls for the notices, behind a history.
abbrev pub calls_of : List Notice → List Notice → List Call
calls_of past [] = []
calls_of past (event type before name after addrs more ∷ ns) =
    chosen type name (registered past)
    ++ calls_of (past ++ (event type before name after addrs more ∷ [])) ns
calls_of past (add c ∷ ns) = calls_of (past ++ (add c ∷ [])) ns
calls_of past (remove c ∷ ns) = calls_of (past ++ (remove c ∷ [])) ns

survives-append :
    (c : InterfaceEventCb) (ns : List Notice) (n : Notice)
    → survives c (ns ++ (n ∷ [])) ≡ (survives c ns && not (withdraws n c))
survives-append c [] n = ground arith
survives-append c (x ∷ ns) n = ground (arith, survives-append c ns n)

process_event-chosen :
    (type : ℕ) (name : List ℕ) (cs : List InterfaceEventCb)
    → process_event type name cs ≡ chosen type name cs
unfolding process_event
process_event-chosen type name [] = refl
process_event-chosen type name (c ∷ cs) = elim (Bool-cases (wants type name c)) [
  | inl wanted ↦
      rw wanted (ap (λ l. (c.callback, c.cb_arg) ∷ l) (process_event-chosen type name cs))
  | inr other ↦ rw other (process_event-chosen type name cs)
]

registered-add :
    (past : List Notice) (c : InterfaceEventCb)
    → registered (past ++ (add c ∷ [])) ≡ add_interface_event c (registered past)
unfolding add_interface_event
registered-add [] c = refl
registered-add (event type before name after addrs more ∷ ns) c = registered-add ns c
registered-add (remove r ∷ ns) c = registered-add ns c
registered-add (add x ∷ ns) c =
    let same_end : survives x (ns ++ (add c ∷ [])) ≡ survives x ns =
      survives-append x ns (add c) ∙ ground arith in
    elim (Bool-cases (survives x ns)) [
      | inl stays ↦ rw (same_end, stays) (ap (λ l. x ∷ l) (registered-add ns c))
      | inr gone ↦ rw (same_end, gone) (registered-add ns c)
    ]

registered-remove :
    (past : List Notice) (r : InterfaceEventCb)
    → registered (past ++ (remove r ∷ [])) ≡ remove_interface_event r (registered past)
unfolding remove_interface_event
registered-remove [] r = refl
registered-remove (event type before name after addrs more ∷ ns) r = registered-remove ns r
registered-remove (remove x ∷ ns) r = registered-remove ns r
registered-remove (add x ∷ ns) r =
    let end = survives-append x ns (remove r) in
    elim (Bool-cases (survives x ns)) [
      | inl stays ↦ elim (Bool-cases (withdraws (remove r) x)) [
        | inl drops ↦ rw (end, stays, drops, same_refl x.iface_name) (registered-remove ns r)
        | inr keeps ↦ rw (end, stays, keeps) (ap (λ l. x ∷ l) (registered-remove ns r))
      ]
      | inr gone ↦ rw (end, gone) (registered-remove ns r)
    ]

registered-event :
    (past : List Notice) (type : ℕ) (before after addrs : List (ℕ × List ℕ)) (name : List ℕ)
    (more : List (ℕ × List (ℕ × List ℕ)))
    → registered (past ++ (event type before name after addrs more ∷ [])) ≡ registered past
registered-event [] type before after addrs name more = refl
registered-event (event t b n a d m ∷ ns) type before after addrs name more =
    registered-event ns type before after addrs name more
registered-event (remove x ∷ ns) type before after addrs name more =
    registered-event ns type before after addrs name more
registered-event (add x ∷ ns) type before after addrs name more =
    let e : Notice = event type before name after addrs more in
    let same_end : survives x (ns ++ (e ∷ [])) ≡ survives x ns =
      survives-append x ns e ∙ ground arith in
    elim (Bool-cases (survives x ns)) [
      | inl stays ↦
          rw (same_end, stays)
            (ap (λ l. x ∷ l) (registered-event ns type before after addrs name more))
      | inr gone ↦ rw (same_end, gone) (registered-event ns type before after addrs name more)
    ]

-- Where each datagram's first message reports an event of an interface with its name, and a new
-- address has its attribute IFA_LOCAL, the loop calls for each, in their order, the callbacks for
-- the event and the name that were added before it and of whose event none was removed since, in
-- the order of their additions. It ignores the datagram's other messages, and ends when recvmsg
-- returns 0.
pub listen-calls_of :
    (max : Limits) (past ns : List Notice) (later : List Event)
    → ifla_ifname ≤ max.ifla_max
    → AreNamed max ns
    → listen max (as_events ns (closed ∷ later)) (registered past) ≡ (calls_of past ns, stopped)
unfolding listen before_rest
listen-calls_of max past [] later le named = refl
listen-calls_of max past (add c ∷ ns) later le (u, named) =
    ap (listen max (as_events ns (closed ∷ later))) (sym (registered-add past c))
    ∙ listen-calls_of max (past ++ (add c ∷ [])) ns later le named
listen-calls_of max past (remove c ∷ ns) later le (u, named) =
    ap (listen max (as_events ns (closed ∷ later))) (sym (registered-remove past c))
    ∙ listen-calls_of max (past ++ (remove c ∷ [])) ns later le named
listen-calls_of max past (event type before name after addrs more ∷ ns) later le
      ((is_event, lacks, address), named) =
    let cs = registered past in
    let e : Notice = event type before name after addrs more in
    ap (λ o. before_rest o (listen max (as_events ns (closed ∷ later)) cs))
      (handle_message-named max type before name after addrs cs le lacks is_event address)
    ∙ ap (λ l. before_rest (some l) (listen max (as_events ns (closed ∷ later)) cs))
        (process_event-chosen type name cs)
    ∙ ap
        (λ k.
          before_rest (some (chosen type name cs)) (listen max (as_events ns (closed ∷ later)) k))
        (sym (registered-event past type before after addrs name more))
    ∙ ap (before_rest (some (chosen type name cs)))
        (listen-calls_of max (past ++ (e ∷ [])) ns later le named)
