-- ===== src/Sync/LimitSemaphore/System.antt =====
-- stdLimitSemaphore: the semaphore among its callers.
pub mod Keeps
use tiny_state.Prelude.{
  ℕ, zero, suc, ◌+◌, ◌-◌, ◌≤◌, ◌<◌, ◌≡◌, ◌≢◌, ◌⊎◌, inl, inr, refl, sym, ap, subst, ◌∙◌, Bool, true,
  false, not, Option, none, some, List, [], ◌∷◌, ◌++◌, map, arith, if◌then◌else◌, length,
  length-append, All, Bool-cases, Option-cases, ◌||◌, ◌==◌,
}
use tiny_state.Prelude.Int.{
  ℤ, pos, pos_part, ◌≤ℤ◌, ◌<ℤ◌, ltb_ℤ, leb_ℤ, eqb_ℤ, eqb_ℤ_iff, ◌+ℤ◌, ◌-ℤ◌, -ℤ_parts, pos-+ℤ_one,
  pos_suc-ℤ_one, lt_of_ltb, le_of_not_ltb, le_of_leb, lt_of_not_leb,
}
use tiny_state.WaitQueue.{WaitQueue, new, idx_erase, w_has, w_del}
use tiny_state.WaitQueue.Order.{flat, IsWell}
use tiny_state.WaitQueue.Agrees.{names}
use tiny_state.Sync.{Outcome}
use tiny_state.Sync.Callers.{also}
use tiny_state.Sync.LimitSemaphore.{
  LimitSemaphore, create, enqueue, get, get_at, release, release_at, wake_up_to, wake_for_limit,
  set_limit, set_ins_neq, set_ins_neq_at,
}
use tiny_state.Sync.LimitSemaphore.Wake.{
  Deletes, w_del-Deletes, enqueue-IsWell, Woke, wake_up_to-Woke,
}

-- `held` counts the callers that acquired and have not released; `woken` lists those that were
-- taken off the queue and have not asked again; `peak` is the highest limit so far.
pub record System : Type 0 where
  pub sem : LimitSemaphore
  pub held : ℕ
  pub woken : List ℕ
  pub peak : ℤ

pub data Event : Type 0 where
  -- a caller of some priority calls `get`, for the first time or again
  asks : ℤ → ℕ → Event
  -- a holder calls `release`
  gives : Event
  resizes : ℤ → Event
  sets_ties : ℤ → Event
  prioritises : Bool → Event

unfoldable pub asked : ℕ → System → Outcome × LimitSemaphore → System
unfolding idx_erase
asked me y (Outcome.acquired, s) = record y {
  sem = s;
  held = suc y.held;
  woken = idx_erase me y.woken;
}
asked me y (Outcome.stays, s) = record y { sem = s; woken = idx_erase me y.woken }
asked me y (Outcome.failed, s) = record y { sem = s }

unfoldable pub given : ℕ → System → Option (Option ℕ × LimitSemaphore) → Option System
given h y none = none
given h y (some (o, s)) = some (record y { sem = s; held = h; woken = also o y.woken })

-- Without a holder nobody releases.
unfoldable pub give : ℕ → System → Option System
unfolding given release
give zero y = some y
give (suc h) y = given h y (release y.sem)

abbrev pub max_ℤ : ℤ → ℤ → ℤ
max_ℤ a b = if ltb_ℤ a b then b else a

unfoldable pub resized : System → Option (List ℕ × LimitSemaphore) → Option System
resized y none = none
resized y (some (xs, s)) =
    some (record y { sem = s; woken = xs ++ y.woken; peak = max_ℤ y.peak s.v_limit })

unfoldable pub step : Event → System → Option System
unfolding asked get give resized set_limit set_ins_neq
step (asks k me) y = some (asked me y (get k me y.sem))
step gives y = give y.held y
step (resizes lim) y = resized y (set_limit lim y.sem)
step (sets_ties v) y = some (record y { sem = set_ins_neq v y.sem })
step (prioritises b) y = let s = y.sem in some (record y { sem = record s { enable_priority = b } })

unfoldable pub next : (System → Option System) → Option System → Option System
next f none = none
next f (some y) = f y

unfoldable pub run : List Event → System → Option System
unfolding step next
run [] y = some y
run (e ∷ es) y = next (run es) (step e y)

unfoldable pub start : ℤ → System
unfolding create
start lim = record { sem = create lim; held = 0; woken = []; peak = lim }

pub record WithinLimit (y : System) : Type 0 where
  pub queue : WaitQueue
  pub alive : y.sem.wait ≡ some queue
  pub well : IsWell queue.bucket
  -- `count` is the number of holders
  pub counted : y.sem.count ≡ pos y.held
  -- While somebody waits, every free place has a woken caller on its way to it.
  pub no_lost_wakeup : (flat queue.bucket ≡ []) ⊎ (y.sem.v_limit ≤ℤ pos (y.held + length y.woken))
  -- there are never more holders than the highest limit
  pub bounded : pos y.held ≤ℤ y.peak
  pub peaked : y.sem.v_limit ≤ℤ y.peak
