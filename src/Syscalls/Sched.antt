-- ===== src/Syscalls/Sched.antt =====
-- resched. The kernel's scheduling calls, for the calling thread, are parameters.
use cppgenerics.Prelude.{
  ℕ, ◌≡◌, ap, Bool, true, false, Option, none, some, ℤ, pos, if◌then◌else◌, inl, inr, Bool-cases,
}

-- sched_getscheduler and getpriority (`none` for a failure), and sched_setscheduler with a policy and a
-- sched_priority, `true` if it returns 0.
pub record Scheduler (S : Type 0) : Type 0 where
  pub get_policy : S → Option ℕ
  pub get_nice : S → Option ℤ
  pub set_policy : S → ℕ → ℤ → Bool × S

-- SCHED_IDLE of linux/sched.h.
abbrev pub sched_idle : ℕ
sched_idle = 5

-- The part of resched behind the two queries: the state that it leaves. A failure ends in the handler, which yields.
unfoldable pub yield_idle : {S : Type 0} → Scheduler S → S → ℕ → ℤ → S
yield_idle k s policy nice =
    let (idled, t) = k.set_policy s sched_idle (pos 0) in
    elim idled [ true ↦ (k.set_policy t policy nice).1 | false ↦ t ]

-- resched.
unfoldable pub resched : {S : Type 0} → Scheduler S → S → S
unfolding yield_idle
resched k s = elim (k.get_policy s) [
  | none ↦ s
  | some policy ↦ elim (k.get_nice s) [ none ↦ s | some nice ↦ yield_idle k s policy nice ]
]

-- What sched_setscheduler does: it sets the policy where it accepts the policy and the priority, and
-- else fails and changes nothing.
abbrev pub IsScheduler : {S : Type 0} → Scheduler S → (ℕ → ℤ → Bool) → Type 0
IsScheduler {S} k accepts =
    (s : S) (policy : ℕ) (priority : ℤ)
    → ((accepts policy priority ≡ true)
        → (t : S) × (k.set_policy s policy priority ≡ (true, t)) × (k.get_policy t ≡ some policy))
      × ((accepts policy priority ≡ false) → k.set_policy s policy priority ≡ (false, s))

-- After resched of a thread with a policy and a nice value, where SCHED_IDLE with priority 0 is
-- accepted, the thread has its policy again if the kernel accepts the nice value as the
-- sched_priority of that policy, and is left with SCHED_IDLE if not.
resched-policy :
    {S : Type 0} (k : Scheduler S) (accepts : ℕ → ℤ → Bool)
    → IsScheduler k accepts
    → (s : S) (policy : ℕ) (nice : ℤ) → accepts sched_idle (pos 0) ≡ true
    → k.get_policy s ≡ some policy
    → k.get_nice s ≡ some nice
    → k.get_policy (resched k s) ≡ some (if accepts policy nice then policy else sched_idle)
unfolding resched yield_idle
resched-policy k accepts scheduler s policy nice idle_ok p n =
    let (t, set_idle, is_idle) = (scheduler s sched_idle (pos 0)).0 idle_ok in
    let end : resched k s ≡ (k.set_policy t policy nice).1 =
      rw (p, resched, n, yield_idle, set_idle)
        (ap (λ x. (k.set_policy x.1 policy nice).1) set_idle) in
    rw end (elim (Bool-cases (accepts policy nice)) [
      | inl accepted ↦
          let (u, back, is_policy) = (scheduler t policy nice).0 accepted in
          rw (accepted, back) is_policy
      | inr refused ↦ rw (refused, (scheduler t policy nice).1 refused) is_idle
    ])
