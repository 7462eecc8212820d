-- ===== src/NetLink/Life.antt =====
-- The thread of NetLinkListener and its object: getInstance's construction and startProcessor, the
-- setting up of the socket in m_ifaceEventProcessor_f, its loop, and the destructor
-- (src/NetLinkListener.cpp). The thread writes m_netlinkSocket, and the destructor reads it, with no
-- lock. An exception that leaves the thread's function terminates the program.
use cppgenerics.Prelude.{
  ℕ, ◌≡◌, ◌≢◌, refl, Bool, true, false, Option, none, some, write, arith, eq_self,
}

pub data Listener : Type 0 where
  unstarted starting opened waiting stopped terminated : Listener

-- `closing` is in the destructor, between close and the return of join.
pub data Owner : Type 0 where
  constructed running closing joined : Owner

-- m_netlinkSocket is `none` for -1.
pub record Life : Type 0 where
  pub owner : Owner
  pub listener : Listener
  pub netlink_socket : Option ℕ
  pub is_open : ℕ → Bool

abbrev pub initial : (ℕ → Bool) → Life
initial is_open = record {
  owner = constructed;
  listener = unstarted;
  netlink_socket = none;
  is_open = is_open;
}

-- ::close of m_netlinkSocket, whose failure for -1 is not looked at.
abbrev pub close_socket : Option ℕ → (ℕ → Bool) → ℕ → Bool
close_socket none is_open = is_open
close_socket (some fd) is_open = write is_open fd false

-- `empty` says whether recvmsg may return 0.
pub data Step (empty : Bool) (s : Life) : Life → Type 0 where
  start_processor :
      s.owner ≡ constructed → Step empty s (record s { owner = running; listener = starting })
  socket_fails : s.listener ≡ starting → Step empty s (record s { listener = terminated })
  opens :
      (fd : ℕ)
      → s.listener ≡ starting
      → s.is_open fd ≡ false
      → Step empty s (record s {
        listener = opened;
        netlink_socket = some fd;
        is_open = write s.is_open fd true;
      })
  bind_fails : s.listener ≡ opened → Step empty s (record s { listener = terminated })
  binds :
      (fd : ℕ)
      → s.listener ≡ opened
      → s.netlink_socket ≡ some fd
      → s.is_open fd ≡ true
      → Step empty s (record s { listener = waiting })
  receives :
      (fd : ℕ)
      → s.listener ≡ waiting
      → s.netlink_socket ≡ some fd
      → s.is_open fd ≡ true
      → Step empty s s
  receives_nothing :
      empty ≡ true → s.listener ≡ waiting → Step empty s (record s { listener = stopped })
  receive_fails : s.listener ≡ waiting → Step empty s (record s { listener = terminated })
  closes :
      s.owner ≡ running
      → s.listener ≢ terminated
      → Step empty s
          (record s { owner = closing; is_open = close_socket s.netlink_socket s.is_open })
  joins : s.owner ≡ closing → s.listener ≡ stopped → Step empty s (record s { owner = joined })

pub data Reach (empty : Bool) (is_open : ℕ → Bool) : Life → Type 0 where
  start : Reach empty is_open (initial is_open)
  later : {s t : Life} → Reach empty is_open s → Step empty s t → Reach empty is_open t

-- Neither has the thread stopped nor the destructor returned.
record Endless (s : Life) : Type 0 where
  not_stopped : s.listener ≢ stopped
  not_joined : s.owner ≢ joined

Step-Endless : {s t : Life} → Step false s t → Endless s → Endless t
Step-Endless (start_processor e) h = ground arith
Step-Endless (socket_fails e) h = ground arith
Step-Endless (opens fd e f) h = ground arith
Step-Endless (bind_fails e) h = ground arith
Step-Endless (binds fd e f g) h = ground arith
Step-Endless (receives fd e f g) h = h
Step-Endless (receives_nothing e f) h = ground arith
Step-Endless (receive_fails e) h = ground arith
Step-Endless (closes e f) h = ground arith
Step-Endless (joins e f) h = ground arith

Reach-Endless : {is_open : ℕ → Bool} {s : Life} → Reach false is_open s → Endless s
Reach-Endless start = ground arith
Reach-Endless (later r st) = Step-Endless st (Reach-Endless r)

-- Where recvmsg of the netlink socket never returns 0, the destructor returns in no state that is
-- reached, whenever it is called. And it may be called before the thread has opened its socket:
-- then a state is reached in which it waits in join while the thread waits on a socket that is open.
destroy-Endless :
    (is_open : ℕ → Bool) (fd : ℕ)
    → is_open fd ≡ false
    → ((s : Life) → Reach false is_open s → s.owner ≢ joined)
      × ((s : Life) × Reach false is_open s
          × (s.owner ≡ closing)
          × (s.listener ≡ waiting)
          × (s.netlink_socket ≡ some fd)
          × (s.is_open fd ≡ true))
destroy-Endless is_open fd unused = (
  λ s r. (Reach-Endless r).not_joined,
  (
    record {
      owner = closing;
      listener = waiting;
      netlink_socket = some fd;
      is_open = write is_open fd true;
    },
    later
        (later (later (later start (start_processor refl)) (closes refl (ground arith)))
          (opens fd refl unused))
        (binds fd refl refl (rw (eq_self fd) refl)),
    refl,
    refl,
    refl,
    rw (eq_self fd) refl,
  ),
)
