-- ===== src/Sync/Mutex.antt =====
-- stdMutex.cpp and stdMutex.h: a lock for readers and writers.
pub mod System
use tiny_state.Prelude.{
  ℕ, zero, suc, Bool, true, false, not, Option, none, some, List, [], ◌∷◌, if◌then◌else◌, length,
}
use tiny_state.Prelude.Int.{ℤ, pos, negsuc, ◌+ℤ◌, ◌-ℤ◌, ltb_ℤ, leb_ℤ, eqb_ℤ}
use tiny_state.Queue.{Queue, max_integer64, empty, ins}
use tiny_state.Sync.{Outcome}
use tiny_state.Sync.Drain.{drain_all, is_queued}

-- `count` is the number of readers, or -1 with a writer. `wait` is null once the destructor has
-- begun.
pub record Mutex : Type 0 where
  pub count : ℤ
  pub wait : Option (Queue ℕ)

unfoldable pub create : Mutex
create = record { count = pos 0; wait = some empty }

unfoldable pub enqueue : ℕ → Queue ℕ → Queue ℕ
enqueue me q = if is_queued me q then q else ins max_integer64 me q

unfoldable pub read_lock_at : Option (Queue ℕ) → ℕ → Mutex → Outcome × Mutex
unfolding enqueue
read_lock_at none me m = (Outcome.failed, m)
read_lock_at (some q) me m =
    if leb_ℤ (pos 0) m.count
    then (Outcome.acquired, record m { count = m.count +ℤ pos 1 })
    else (Outcome.stays, record m { wait = some (enqueue me q) })

-- `read_lock()`
unfoldable pub read_lock : ℕ → Mutex → Outcome × Mutex
unfolding read_lock_at
read_lock me m = read_lock_at m.wait me m

unfoldable pub write_lock_at : Option (Queue ℕ) → ℕ → Mutex → Outcome × Mutex
unfolding enqueue
write_lock_at none me m = (Outcome.failed, m)
write_lock_at (some q) me m =
    if eqb_ℤ m.count (pos 0)
    then (Outcome.acquired, record m { count = negsuc 0 })
    else (Outcome.stays, record m { wait = some (enqueue me q) })

-- `write_lock()`
unfoldable pub write_lock : ℕ → Mutex → Outcome × Mutex
unfolding write_lock_at
write_lock me m = write_lock_at m.wait me m

-- The lock is free: a new queue takes the place of the old one, whose waiters are all woken.
unfoldable pub free : Queue ℕ → Mutex → List ℕ × Mutex
free q m = (drain_all q, record m { count = pos 0; wait = some empty })

unfoldable pub release_at : Option (Queue ℕ) → Mutex → List ℕ × Mutex
unfolding free
release_at none m = ([], m)
release_at (some q) m =
    let fewer = m.count -ℤ pos 1 in
    if eqb_ℤ m.count (pos 0)
    then ([], m)
    else if ltb_ℤ m.count (pos 0)
    then free q m
    else if eqb_ℤ fewer (pos 0)
    then free q m
    else ([], record m { count = fewer })

-- `release()`, with the callers to wake up
unfoldable pub release : Mutex → List ℕ × Mutex
unfolding release_at
release m = release_at m.wait m

-- The predicate of the exceptions. `none` is the null pointer that it follows after the destructor.
unfoldable pub is_ready : ℕ → Mutex → Option Bool
is_ready caller m = elim m.wait [ none ↦ none | some q ↦ some (not (is_queued caller q)) ]

-- `wait_count()` and `flag_count()`
unfoldable pub wait_count : Mutex → ℤ
wait_count m = elim m.wait [ none ↦ pos 0 | some q ↦ q.count ]

unfoldable pub flag_count : Mutex → ℤ
flag_count m = m.count

unfoldable pub wake_all : Option (Queue ℕ) → List ℕ
wake_all none = []
wake_all (some q) = drain_all q

-- the destructor
unfoldable pub destroy : Mutex → List ℕ × Mutex
unfolding wake_all
destroy m = (wake_all m.wait, record m { wait = none })
