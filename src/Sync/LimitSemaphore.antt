-- ===== src/Sync/LimitSemaphore.antt =====
-- stdLimitSemaphore.cpp and stdLimitSemaphore.h.
pub mod Wake
pub mod System
use tiny_state.Prelude.{
  ℕ, zero, suc, Bool, true, false, not, Option, none, some, List, [], ◌∷◌, if◌then◌else◌, length,
}
use tiny_state.Prelude.Int.{ℤ, pos, pos_part, ◌+ℤ◌, ◌-ℤ◌, ltb_ℤ, leb_ℤ, eqb_ℤ}
use tiny_state.Queue.{max_integer64}
use tiny_state.WaitQueue.{WaitQueue, new, w_ins, w_has, w_del}
use tiny_state.WaitQueue.Order.{flat}
use tiny_state.Sync.{Outcome}

-- `wait` is null once the destructor has begun.
pub record LimitSemaphore : Type 0 where
  pub count : ℤ
  pub v_limit : ℤ
  pub enable_priority : Bool
  pub wait : Option WaitQueue

unfoldable pub create : ℤ → LimitSemaphore
create lim = record {
  count = pos 0;
  v_limit = lim;
  enable_priority = false;
  wait = some (new true);
}

-- the entry into the wait queue, for a caller that is not there yet
unfoldable pub enqueue : Bool → ℤ → ℕ → WaitQueue → WaitQueue
enqueue enabled priority me w =
    if w_has me w then w else if enabled then w_ins priority me w else w_ins max_integer64 me w

unfoldable pub get_at : Option WaitQueue → ℤ → ℕ → LimitSemaphore → Outcome × LimitSemaphore
unfolding enqueue
get_at none priority me s = (Outcome.failed, s)
get_at (some w) priority me s =
    if ltb_ℤ s.count s.v_limit
    then (Outcome.acquired, record s { count = s.count +ℤ pos 1 })
    else (Outcome.stays, record s { wait = some (enqueue s.enable_priority priority me w) })

-- `get()`; `priority` is what `me->priority(thNULL)` answers
unfoldable pub get : ℤ → ℕ → LimitSemaphore → Outcome × LimitSemaphore
unfolding get_at
get priority me s = get_at s.wait priority me s

-- the predicate of the exception that `get` throws
unfoldable pub is_ready : ℕ → LimitSemaphore → Bool
is_ready caller s = elim s.wait [ none ↦ true | some w ↦ not (w_has caller w) ]

-- `none` is a panic. Otherwise the caller to wake up, if any.
unfoldable pub release_at : Option WaitQueue → LimitSemaphore → Option (Option ℕ × LimitSemaphore)
release_at none s = some (none, s)
release_at (some w) s =
    let s' = record s { count = s.count -ℤ pos 1 } in
    if leb_ℤ s.count (pos 0)
    then none
    else if leb_ℤ s.v_limit s'.count
    then some (none, s')
    else some ((w_del w).0, record s' { wait = some (w_del w).1 })

-- `release()`
unfoldable pub release : LimitSemaphore → Option (Option ℕ × LimitSemaphore)
unfolding release_at
release s = release_at s.wait s

-- `insNeq(v)`, `insNeq()` and `limit()`
unfoldable pub set_ins_neq_at : Option WaitQueue → ℤ → LimitSemaphore → LimitSemaphore
set_ins_neq_at none v s = s
set_ins_neq_at (some w) v s = record s {
  wait = some (record w { ins_neq = not (eqb_ℤ v (pos 0)) });
}

unfoldable pub set_ins_neq : ℤ → LimitSemaphore → LimitSemaphore
unfolding set_ins_neq_at
set_ins_neq v s = set_ins_neq_at s.wait v s

unfoldable pub get_ins_neq : LimitSemaphore → Bool
get_ins_neq s = elim s.wait [ none ↦ true | some w ↦ w.ins_neq ]

unfoldable pub get_limit : LimitSemaphore → ℤ
get_limit s = s.v_limit

abbrev pub woken_also : Option ℕ → WaitQueue → List ℕ × WaitQueue → List ℕ × WaitQueue
woken_also none v rest = ([], v)
woken_also (some x) v rest = (x ∷ rest.0, rest.1)

-- the loops that take waiters off the queue and wake them, for a number of rounds at most
unfoldable pub wake_up_to : ℕ → WaitQueue → List ℕ × WaitQueue
wake_up_to zero w = ([], w)
wake_up_to (suc n) w =
    let rest = wake_up_to n (w_del w).1 in woken_also (w_del w).0 (w_del w).1 rest

unfoldable pub wake_for_limit :
    Option WaitQueue → ℤ → LimitSemaphore → Option (List ℕ × LimitSemaphore)
unfolding wake_up_to
wake_for_limit none lim s = none
wake_for_limit (some w) lim s =
    let (xs, v) = wake_up_to (pos_part (lim -ℤ s.v_limit)) w in
    some (xs, record s { v_limit = lim; wait = some v })

-- `limit(lim)`. `none` is the null pointer that the loop follows after the destructor.
unfoldable pub set_limit : ℤ → LimitSemaphore → Option (List ℕ × LimitSemaphore)
unfolding wake_for_limit
set_limit lim s =
    if ltb_ℤ lim (pos 1)
    then some ([], s)
    else if eqb_ℤ s.v_limit lim
    then some ([], s)
    else if ltb_ℤ lim s.v_limit
    then some ([], record s { v_limit = lim })
    else wake_for_limit s.wait lim s

unfoldable pub wake_all : Option WaitQueue → List ℕ
unfolding wake_up_to
wake_all none = []
wake_all (some w) = (wake_up_to (suc (length (flat w.bucket))) w).0

-- the destructor: the queue is detached, then every waiter is woken
unfoldable pub destroy : LimitSemaphore → List ℕ × LimitSemaphore
unfolding wake_all
destroy s = (wake_all s.wait, record s { wait = none })
