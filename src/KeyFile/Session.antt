-- ===== src/KeyFile/Session.antt =====
-- The lock and the descriptor of the key file over the body of initUsingFile and init.
use cppgenerics.Prelude.{◌≡◌, refl, Bool, true, false}
use cppgenerics.KeyFile.{
  Host, World, Run, ok, sys_error, logic_error, hangs, M, ◌>>◌, require, finally, open_auto_close,
  close, lock, unlock, with_key_file,
}

-- P holds of the state in which a run ends, if it ends.
abbrev pub Ends : {Seg A : Type 0} → (World Seg → Type 0) → Run Seg A → Type 0
Ends P (ok a w) = P w
Ends P (sys_error w) = P w
Ends P (logic_error w) = P w
Ends P hangs = Unit {0}

finally-Ends :
    {Seg A : Type 0} (P Q : World Seg → Type 0) (d : World Seg → World Seg)
    → ((w : World Seg) → Q w → P (d w))
    → (r : Run Seg A) → Ends Q r
    → (w : World Seg) → Ends P (finally d (λ v. r) w)
finally-Ends P Q d keeps (ok a w') q w = keeps w' q
finally-Ends P Q d keeps (sys_error w') q w = keeps w' q
finally-Ends P Q d keeps (logic_error w') q w = keeps w' q
finally-Ends P Q d keeps hangs q w = tt

any-Ends : {Seg A : Type 0} (r : Run Seg A) → Ends (λ w. Unit {0}) r
any-Ends (ok a w) = tt
any-Ends (sys_error w) = tt
any-Ends (logic_error w) = tt
any-Ends hangs = tt

abbrev pub IsFree : {Seg : Type 0} → World Seg → Type 0
IsFree w = w.is_locked ≡ false

-- Neither the lock nor the descriptor is held.
abbrev pub IsReleased : {Seg : Type 0} → World Seg → Type 0
IsReleased w = (w.is_open ≡ false) × (w.is_locked ≡ false)

abbrev locking : {Seg : Type 0} → Bool → M Seg (Unit {0})
locking can_lock = require can_lock >> λ w. ok tt (record w { is_locked = true })

abbrev opening : {Seg : Type 0} → Bool → M Seg (Unit {0})
opening can_open = require can_open >> λ w. ok tt (record w { is_open = true })

locking-Ends :
    {Seg A : Type 0} (can_lock : Bool) (body : M Seg A) (w : World Seg)
    → IsFree w
    → Ends IsFree ((locking can_lock >> finally unlock body) w)
unfolding unlock
locking-Ends false body w free = free
locking-Ends true body w free =
    let locked = record w { is_locked = true } in
    finally-Ends IsFree (λ v. Unit {0}) unlock (λ v u. refl) (body locked) (any-Ends (body locked))
      locked

opening-Ends :
    {Seg A : Type 0} (can_open : Bool) (body : M Seg A) (w : World Seg)
    → IsReleased w
    → ((v : World Seg) → IsFree v → Ends IsFree (body v))
    → Ends IsReleased ((opening can_open >> finally close body) w)
unfolding close
opening-Ends false body w released frees = released
opening-Ends true body w (closed, free) frees =
    let opened = record w { is_open = true } in
    finally-Ends IsReleased IsFree close (λ v q. (refl, q)) (body opened) (frees opened free) opened

-- Whatever the rest of the body does, returns or throws, and whichever system call fails, a process
-- that has neither open nor locked the key file has neither afterwards.
pub with_key_file-IsReleased :
    {Seg A : Type 0} (host : Host) (body : M Seg A) (w : World Seg)
    → IsReleased w
    → Ends IsReleased (with_key_file host body w)
unfolding with_key_file open_auto_close lock
with_key_file-IsReleased host body w released =
    opening-Ends host.can_open (lock host >> finally unlock body) w released
      (locking-Ends host.can_lock body)
