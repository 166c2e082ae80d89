-- ===== src/Sync/Mutex/System.antt =====
-- stdMutex: the readers and writers among each other.
pub mod Exclusion
use tiny_state.Prelude.{
  ℕ, zero, suc, ◌≡◌, ◌≢◌, ◌⊎◌, inl, inr, refl, sym, ap, subst, Bool, true, false, some, List, [],
  ◌∷◌, ◌++◌, arith, if◌then◌else◌, length, Bool-cases, ◌==◌,
}
use tiny_state.Prelude.Int.{
  ℤ, pos, negsuc, ltb_ℤ, leb_ℤ, pos_part, eqb_ℤ_iff, eqb_ℤ, pos-+ℤ_one, pos_suc-ℤ_one, ◌+ℤ◌, ◌-ℤ◌,
}
use tiny_state.Queue.{Queue, empty, max_integer64}
use tiny_state.Queue.Valid.{IsValid, ins-IsValid}
use tiny_state.Queue.Move.{empty-IsValid}
use tiny_state.WaitQueue.{idx_erase}
use tiny_state.Sync.{Outcome}
use tiny_state.Sync.Drain.{is_queued}
use tiny_state.Sync.Mutex.{
  Mutex, create, enqueue, read_lock, read_lock_at, write_lock, write_lock_at, release, release_at,
  free,
}

-- `readers` and `writers` hold the lock, once for each call that returned; `woken` lists the callers
-- that were taken off the queue and have not asked again.
pub record System : Type 0 where
  pub lock : Mutex
  pub readers : List ℕ
  pub writers : List ℕ
  pub woken : List ℕ

pub data Event : Type 0 where
  -- a caller calls `read_lock` or `write_lock`, for the first time or again
  asks_read asks_write : ℕ → Event
  -- a holder calls `release`
  gives_read gives_write : ℕ → Event

unfoldable pub asked_read : ℕ → System → Outcome × Mutex → System
asked_read me y (Outcome.acquired, m) = record y {
  lock = m;
  readers = me ∷ y.readers;
  woken = idx_erase me y.woken;
}
asked_read me y (Outcome.stays, m) = record y { lock = m; woken = idx_erase me y.woken }
asked_read me y (Outcome.failed, m) = record y { lock = m }

unfoldable pub asked_write : ℕ → System → Outcome × Mutex → System
asked_write me y (Outcome.acquired, m) = record y {
  lock = m;
  writers = me ∷ y.writers;
  woken = idx_erase me y.woken;
}
asked_write me y (Outcome.stays, m) = record y { lock = m; woken = idx_erase me y.woken }
asked_write me y (Outcome.failed, m) = record y { lock = m }

abbrev pub holds : ℕ → List ℕ → Bool
holds me [] = false
holds me (x ∷ xs) = if x == me then true else holds me xs

-- who does not hold the lock does not release it
unfoldable pub step : Event → System → System
unfolding asked_read asked_write read_lock write_lock release
step (asks_read me) y = asked_read me y (read_lock me y.lock)
step (asks_write me) y = asked_write me y (write_lock me y.lock)
step (gives_read me) y =
    let r = release y.lock in
    if holds me y.readers
    then record y { lock = r.1; readers = idx_erase me y.readers; woken = r.0 ++ y.woken }
    else y
step (gives_write me) y =
    let r = release y.lock in
    if holds me y.writers
    then record y { lock = r.1; writers = idx_erase me y.writers; woken = r.0 ++ y.woken }
    else y

unfoldable pub run : List Event → System → System
unfolding step
run [] y = y
run (e ∷ es) y = run es (step e y)

unfoldable pub start : System
unfolding create
start = record { lock = create; readers = []; writers = []; woken = [] }

-- what `count` says of the holders
abbrev pub Exclusive : ℤ → List ℕ → List ℕ → Type 0
Exclusive (pos n) readers writers = (length readers ≡ n) × (writers ≡ [])
Exclusive (negsuc n) readers writers = (n ≡ 0) × (readers ≡ []) × (length writers ≡ 1)

pub record Excluding (y : System) : Type 0 where
  pub queue : Queue ℕ
  pub alive : y.lock.wait ≡ some queue
  pub valid : IsValid queue
  pub exclusive : Exclusive y.lock.count y.readers y.writers
  -- nobody waits for a lock that is free
  pub no_lost_wakeup : (queue.chain ≡ []) ⊎ (y.lock.count ≢ pos 0)
