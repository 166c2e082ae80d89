-- ===== src/Sync/Semaphore/System.antt =====
-- stdSemaphore: the semaphore among its callers.
pub mod Balance
use tiny_state.Prelude.{
  ℕ, suc, ◌+◌, ◌-◌, ◌≤◌, ◌<◌, ◌≡◌, ◌⊎◌, inl, inr, refl, sym, ap, subst, ◌∙◌, Bool, true, false, not,
  Option, some, List, [], ◌∷◌, arith, if◌then◌else◌, length, Bool-cases,
}
use tiny_state.Prelude.Int.{
  ℤ, pos, ◌≤ℤ◌, ◌<ℤ◌, ltb_ℤ, eqb_ℤ, eq_of_parts, pos-+ℤ_one, ◌+ℤ◌, ◌-ℤ◌, int_laws, lt_of_ltb,
  le_of_not_ltb,
}
use tiny_state.Queue.{Queue, Cell, empty, ins, max_integer64}
use tiny_state.Queue.Valid.{IsValid, ins-IsValid}
use tiny_state.Queue.Remove.{del-IsValid, del_lem, del_result, shorter}
use tiny_state.Queue.Move.{empty-IsValid}
use tiny_state.WaitQueue.{idx_erase}
use tiny_state.Sync.{Outcome}
use tiny_state.Sync.Drain.{is_queued}
use tiny_state.Sync.Callers.{also, length-idx_erase}
use tiny_state.Sync.Semaphore.{
  Semaphore, create, enqueue, get, get_at, release, release_at, set_ins_neq, set_ins_neq_at,
}

-- `taken` counts the calls of `get` that returned, `given` the calls of `release`; `woken` lists the
-- callers that were taken off the queue and have not asked again.
pub record System : Type 0 where
  pub sem : Semaphore
  pub taken : ℕ
  pub given : ℕ
  pub woken : List ℕ

pub data Event : Type 0 where
  -- a caller of some priority calls `get`, for the first time or again
  asks : ℤ → ℕ → Event
  -- anybody calls `release`
  gives : Event
  sets_ties : ℤ → Event
  prioritises : Bool → Event

unfoldable pub asked : ℕ → System → Outcome × Semaphore → System
unfolding idx_erase
asked me y (Outcome.acquired, s) = record y {
  sem = s;
  taken = suc y.taken;
  woken = idx_erase me y.woken;
}
asked me y (Outcome.stays, s) = record y { sem = s; woken = idx_erase me y.woken }
asked me y (Outcome.failed, s) = record y { sem = s }

unfoldable pub gave : System → Option ℕ × Semaphore → System
gave y (o, s) = record y { sem = s; given = suc y.given; woken = also o y.woken }

unfoldable pub step : Event → System → System
unfolding asked gave get release set_ins_neq
step (asks k me) y = asked me y (get k me y.sem)
step gives y = gave y (release y.sem)
step (sets_ties v) y = record y { sem = set_ins_neq v y.sem }
step (prioritises b) y = let s = y.sem in record y { sem = record s { enable_priority = b } }

unfoldable pub run : List Event → System → System
unfolding step
run [] y = y
run (e ∷ es) y = run es (step e y)

unfoldable pub start : ℕ → System
unfolding create
start n = record { sem = create (pos n); taken = 0; given = 0; woken = [] }

pub record Balanced (n : ℕ) (y : System) : Type 0 where
  pub queue : Queue ℕ
  pub alive : y.sem.wait ≡ some queue
  pub valid : IsValid queue
  pub units : ℕ
  pub counted : y.sem.count ≡ pos units
  -- no unit is lost or made up
  pub balanced : units + y.taken ≡ n + y.given
  -- While somebody waits, every free unit has a woken caller on its way to it.
  pub no_lost_wakeup : (queue.chain ≡ []) ⊎ (units ≤ length y.woken)
