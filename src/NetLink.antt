-- ===== src/NetLink.antt =====
-- System::NetLinkListener of include/cppgenerics/NetLinkListener.h and src/NetLinkListener.cpp: the
-- list of callbacks, and what one netlink message does. A message is its type, the attributes that
-- the macros RTA_OK and RTA_NEXT walk over, and the name that the attribute IFLA_IFNAME holds.

mod Tests
pub mod Events
pub mod Attributes
pub mod Stale
pub mod Life
pub mod Loop
use cppgenerics.Prelude.{
  ℕ, Bool, true, false, ◌&&◌, ◌||◌, Option, none, some, List, [], ◌∷◌, ◌++◌, ◌==◌, leb,
  if◌then◌else◌, same, write,
}

-- The message types of linux/rtnetlink.h.
abbrev pub rtm_newlink : ℕ
rtm_newlink = 16

abbrev pub rtm_dellink : ℕ
rtm_dellink = 17

abbrev pub rtm_newaddr : ℕ
rtm_newaddr = 20

abbrev pub rtm_deladdr : ℕ
rtm_deladdr = 21

abbrev pub rtm_newroute : ℕ
rtm_newroute = 24

abbrev pub rtm_delroute : ℕ
rtm_delroute = 25

abbrev pub ifla_ifname : ℕ
ifla_ifname = 3

abbrev pub ifa_local : ℕ
ifa_local = 2

-- IFLA_MAX and IFA_MAX, which depend on the kernel's headers, are parameters where they are used. `callback` names
-- the function.
pub record InterfaceEventCb : Type 0 where
  pub event : ℕ
  pub iface_name : List ℕ
  pub callback : ℕ
  pub cb_arg : ℕ

abbrev pub Call : Type 0
Call = ℕ × ℕ

-- InterfaceEventCB_t::operator==, which compares ifaceName with itself.
unfoldable pub equal : InterfaceEventCb → InterfaceEventCb → Bool
equal c o = c.event == o.event && same c.iface_name c.iface_name

unfoldable pub add_interface_event :
    InterfaceEventCb → List InterfaceEventCb → List InterfaceEventCb
add_interface_event c cs = cs ++ (c ∷ [])

-- removeInterfaceEvent: std::list::remove, with the operator above.
unfoldable pub remove_interface_event :
    InterfaceEventCb → List InterfaceEventCb → List InterfaceEventCb
unfolding equal
remove_interface_event c [] = []
remove_interface_event c (x ∷ xs) =
    let rest = remove_interface_event c xs in if equal x c then rest else x ∷ rest

-- processEvent: the calls that it makes, in their order.
unfoldable pub process_event : ℕ → List ℕ → List InterfaceEventCb → List Call
process_event ev name [] = []
process_event ev name (c ∷ cs) =
    let rest = process_event ev name cs in
    if c.event == ev && same c.iface_name name then (c.callback, c.cb_arg) ∷ rest else rest

-- parseRtattr: tb has for each type up to `max` the last attribute of the type: where the message is
-- read, its payload, and in Attributes its address.
unfoldable pub parse_rtattr {ℓ} : {A : Type ℓ} → ℕ → List (ℕ × A) → (ℕ → Option A) → ℕ → Option A
parse_rtattr max [] tb = tb
parse_rtattr max ((type, payload) ∷ rest) tb =
    parse_rtattr max rest (if leb type max then write tb type (some payload) else tb)

-- The switch of m_ifaceEventProcessor_f.
unfoldable pub switch : ℕ → List ℕ → List InterfaceEventCb → List Call
unfolding process_event
switch type name cs =
    if type == rtm_deladdr || type == rtm_dellink || type == rtm_newlink || type == rtm_newaddr
    then process_event type name cs
    else []

-- IFLA_MAX and IFA_MAX.
pub record Limits : Type 0 where
  pub ifla_max : ℕ
  pub ifa_max : ℕ

-- The case RTM_NEWADDR prints addrBuff, which the code fills if there is an attribute IFA_LOCAL and
-- else has not initialised.
unfoldable pub prints_garbage : ℕ → ℕ → List (ℕ × List ℕ) → Bool
unfolding parse_rtattr
prints_garbage ifa_max type addrs =
    type == rtm_newaddr && elim (parse_rtattr ifa_max addrs (λ i. none) ifa_local) [
      | none ↦ true
      | some address ↦ false
    ]

-- The body of the loop of m_ifaceEventProcessor_f: the calls for one message, from the attributes
-- behind an ifinfomsg and those behind an ifaddrmsg. `none` is undefined: without the attribute
-- IFLA_IFNAME the code reads ifName, which it has not initialised.
unfoldable pub handle_message :
    Limits → ℕ → List (ℕ × List ℕ) → List (ℕ × List ℕ) → List InterfaceEventCb → Option (List Call)
unfolding parse_rtattr switch prints_garbage
handle_message max type attrs addrs cs =
    if type == rtm_newroute || type == rtm_delroute
    then some []
    else elim (parse_rtattr max.ifla_max attrs (λ i. none) ifla_ifname) [
      | none ↦ none
      | some name ↦
          if prints_garbage max.ifa_max type addrs then none else some (switch type name cs)
    ]

-- What the thread of m_ifaceEventProcessor_f meets, in its order: what recvmsg returns, a datagram
-- with a first message and others, 0 or a failure; and between these the calls by other threads of
-- addInterfaceEvent and removeInterfaceEvent, which the mutex keeps out of processEvent.
pub data Event : Type 0 where
  received : ℕ → List (ℕ × List ℕ) → List (ℕ × List ℕ) → List (ℕ × List (ℕ × List ℕ)) → Event
  closed failed : Event
  added removed : InterfaceEventCb → Event

-- `terminated` is an exception that leaves the thread's function.
pub data Ending : Type 0 where
  waiting stopped terminated undefined : Ending

-- The calls for a message before those of the rest of the loop.
unfoldable pub before_rest : Option (List Call) → List Call × Ending → List Call × Ending
before_rest none rest = ([], undefined)
before_rest (some now) (calls, ending) = (now ++ calls, ending)

-- The loop of m_ifaceEventProcessor_f: the calls that it makes, and how it ends. It looks at the
-- first message of a datagram.
unfoldable pub listen : Limits → List Event → List InterfaceEventCb → List Call × Ending
unfolding handle_message before_rest add_interface_event remove_interface_event
listen max [] cs = ([], waiting)
listen max (closed ∷ es) cs = ([], stopped)
listen max (failed ∷ es) cs = ([], terminated)
listen max (added c ∷ es) cs = listen max es (add_interface_event c cs)
listen max (removed c ∷ es) cs = listen max es (remove_interface_event c cs)
listen max (received type attrs addrs more ∷ es) cs =
    before_rest (handle_message max type attrs addrs cs) (listen max es cs)
