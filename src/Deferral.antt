-- ===== src/Deferral.antt =====
-- src/classes/ts2/c++/tsGC.cpp: the machine that takes the events of calls that are nested too deep, and
-- delivers them from its own stack, on the heap of HalfOrder. What a delivery puts in anew is an action
-- of its own.
pub mod Delivery
use tiny_state.Prelude.{ℕ, Bool, true, false, Option, none, some, List, [], ◌∷◌, if◌then◌else◌}
use tiny_state.Prelude.Int.{ℤ, pos, ◌-ℤ◌, ltb_ℤ, leb_ℤ, eqb_ℤ}
use tiny_state.HalfOrder.{Tree, leaf, ins, del, count}

-- the states of the machine; in `rests` it is in `ACT_START` again, by way of the states of its base
-- class, and waits for an event
pub data Stage : Type 0 where
  rests starts_over waits_return delivers_next : Stage

module _ (E : Type 0) where
  -- a machine, and the event to call it with, a `TSE_RETURN` for none
  abbrev pub Job : Type 0
  Job = ℕ × Option E

  pub record Gc : Type 0 where
    pub que : Tree Job
    pub budget_us : ℤ
    pub stage : Stage
    -- what was ever put in, and what was delivered, the last first
    pub asked : List (ℤ × Job)
    pub log : List (ℤ × Job)

-- a visit to `ACT_EXE`: the nesting of the thread, the limit of the application and that of the thread,
-- and the two times
pub record Visit : Type 0 where
  pub depth : ℤ
  pub evh_depth : ℤ
  pub own_limit : ℤ
  pub enter_time : ℤ
  pub now : ℤ

-- the limit that counts
abbrev pub limit : Visit → ℤ
limit v = if leb_ℤ v.evh_depth (pos 0) then v.own_limit else v.evh_depth

abbrev pub next_stage : Visit → ℤ → Stage
next_stage v budget = if ltb_ℤ budget (v.now -ℤ v.enter_time) then starts_over else delivers_next

module _ {E : Type 0} where
  -- `INI_START`, with the default budget
  unfoldable pub start : Gc E
  start = record { que = leaf; budget_us = pos 100000; stage = starts_over; asked = []; log = [] }

  abbrev pub put : ℤ → Job E → Option (Tree (Job E)) → Gc E → Option (Gc E)
  put k x none g = none
  put k x (some t) g = some record g { que = t; asked = (k, x) ∷ g.asked }

  -- `exe(caller,ev)`, up to its wake-up
  unfoldable pub exe : ℤ → Job E → Gc E → Option (Gc E)
  unfolding ins
  exe k x g = put k x (ins k x g.que) g

  unfoldable pub wakeup : Stage → Gc E → Gc E
  wakeup rests g = record g { stage = starts_over }
  wakeup starts_over g = g
  wakeup waits_return g = g
  wakeup delivers_next g = g

  -- `ACT_START`
  unfoldable pub act_start : Stage → Gc E → Gc E
  unfolding count
  act_start starts_over g =
      if eqb_ℤ (count g.que) (pos 0)
      then record g { stage = rests }
      else record g { stage = waits_return }
  act_start rests g = g
  act_start waits_return g = g
  act_start delivers_next g = g

  -- `ACT_RET`
  unfoldable pub act_ret : Stage → Gc E → Gc E
  act_ret waits_return g = record g { stage = delivers_next }
  act_ret rests g = g
  act_ret starts_over g = g
  act_ret delivers_next g = g

  abbrev pub delivered : Visit → Option (Option (ℤ × Job E) × Tree (Job E)) → Gc E → Option (Gc E)
  delivered v none g = none
  delivered v (some (none, t)) g = some record g { que = t; stage = starts_over }
  delivered v (some (some (k, x), t)) g =
      some record g { que = t; stage = next_stage v g.budget_us; log = (k, x) ∷ g.log }

  -- `ACT_EXE`; none is a panic
  unfoldable pub act_exe : Stage → Visit → Gc E → Option (Gc E)
  unfolding del
  act_exe delivers_next v g = if leb_ℤ (limit v) v.depth then none else delivered v (del g.que) g
  act_exe rests v g = some g
  act_exe starts_over v g = some g
  act_exe waits_return v g = some g

pub data Action (E : Type 0) : Type 0 where
  exes : ℤ → Job E → Action E
  sets_interval : ℤ → Action E
  wakes starts returns : Action E
  visits : Visit → Action E

module _ {E : Type 0} where
  -- an action that does not fit the state changes nothing
  unfoldable pub step : Action E → Gc E → Option (Gc E)
  unfolding exe wakeup act_start act_ret act_exe
  step (exes k x) g = exe k x g
  step (sets_interval i) g = some record g { budget_us = i }
  step wakes g = some (wakeup g.stage g)
  step starts g = some (act_start g.stage g)
  step returns g = some (act_ret g.stage g)
  step (visits v) g = act_exe g.stage v g

  abbrev pub then_run : Option (Gc E) → (Gc E → Option (Gc E)) → Option (Gc E)
  then_run none f = none
  then_run (some g) f = f g

  unfoldable pub run : List (Action E) → Gc E → Option (Gc E)
  unfolding step
  run [] g = some g
  run (a ∷ as') g = then_run (step a g) (λ h. run as' h)

  -- wake-ups, returns of the timer and visits, one of each in turn
  abbrev pub rounds : List Visit → List (Action E)
  rounds [] = []
  rounds (v ∷ vs) = wakes ∷ starts ∷ returns ∷ visits v ∷ rounds vs
