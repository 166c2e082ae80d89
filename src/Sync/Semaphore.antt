-- ===== src/Sync/Semaphore.antt =====
-- stdSemaphore.cpp and stdSemaphore.h.
pub mod System
use tiny_state.Prelude.{
  ℕ, zero, suc, Bool, true, false, not, Option, none, some, List, [], ◌∷◌, if◌then◌else◌, length,
}
use tiny_state.Prelude.Int.{ℤ, pos, negsuc, ◌+ℤ◌, ◌-ℤ◌, ltb_ℤ, eqb_ℤ}
use tiny_state.Queue.{Queue, max_integer64, empty, ins, del}
use tiny_state.Sync.{Outcome}
use tiny_state.Sync.Drain.{drain_all, is_queued}

-- `wait` is null once the destructor has begun.
pub record Semaphore : Type 0 where
  pub count : ℤ
  pub enable_priority : Bool
  pub wait : Option (Queue ℕ)

unfoldable pub create : ℤ → Semaphore
create n = record {
  count = n;
  enable_priority = false;
  wait = some (record empty { ins_neq = true });
}

-- the entry into the wait queue, for a caller that is not there yet
unfoldable pub enqueue : Bool → ℤ → ℕ → Queue ℕ → Queue ℕ
enqueue enabled priority me q =
    if is_queued me q then q else if enabled then ins priority me q else ins max_integer64 me q

unfoldable pub get_at : Option (Queue ℕ) → ℤ → ℕ → Semaphore → Outcome × Semaphore
unfolding enqueue
get_at none priority me s = (Outcome.failed, s)
get_at (some q) priority me s =
    if ltb_ℤ (pos 0) s.count
    then (Outcome.acquired, record s { count = s.count -ℤ pos 1 })
    else (Outcome.stays, record s { wait = some (enqueue s.enable_priority priority me q) })

-- `get()`; `priority` is what `me->priority(thNULL)` answers
unfoldable pub get : ℤ → ℕ → Semaphore → Outcome × Semaphore
unfolding get_at
get priority me s = get_at s.wait priority me s

-- The predicate of the exception that `get` throws. `none` is the null pointer that it follows
-- after the destructor.
unfoldable pub is_ready : ℕ → Semaphore → Option Bool
is_ready caller s = elim s.wait [ none ↦ none | some q ↦ some (not (is_queued caller q)) ]

unfoldable pub release_at : Option (Queue ℕ) → Semaphore → Option ℕ × Semaphore
release_at none s = (none, s)
release_at (some q) s = ((del q).0, record s { count = s.count +ℤ pos 1; wait = some (del q).1 })

-- `release()`, with the caller to wake up, if any
unfoldable pub release : Semaphore → Option ℕ × Semaphore
unfolding release_at
release s = release_at s.wait s

-- `insNeq(v)`, `insNeq()` and `waitCount()`
unfoldable pub set_ins_neq_at : Option (Queue ℕ) → ℤ → Semaphore → Semaphore
set_ins_neq_at none v s = s
set_ins_neq_at (some q) v s = record s {
  wait = some (record q { ins_neq = not (eqb_ℤ v (pos 0)) });
}

unfoldable pub set_ins_neq : ℤ → Semaphore → Semaphore
unfolding set_ins_neq_at
set_ins_neq v s = set_ins_neq_at s.wait v s

unfoldable pub get_ins_neq : Semaphore → Bool
get_ins_neq s = elim s.wait [ none ↦ true | some q ↦ q.ins_neq ]

unfoldable pub wait_count : Semaphore → ℤ
wait_count s = elim s.wait [ none ↦ negsuc 0 | some q ↦ q.count ]

unfoldable pub wake_all : Option (Queue ℕ) → List ℕ
wake_all none = []
wake_all (some q) = drain_all q

-- the destructor: the queue is detached, then every waiter is woken
unfoldable pub destroy : Semaphore → List ℕ × Semaphore
unfolding wake_all
destroy s = (wake_all s.wait, record s { wait = none })
