-- ===== src/Machine.antt =====
-- tinyState.cpp: the private state of a state machine and what happens to it under its lock `lm`.
-- A state is the address of its `TS_TRANS`, without the bit `rDO`; 0 is the state before the first.
pub mod Once
pub mod Dispatch
pub mod Base
use tiny_state.Prelude.{ℕ, Bool, true, false, not, ◌&&◌, Option, none, some, ◌==◌, if◌then◌else◌}
use tiny_state.Prelude.Int.{ℤ, pos}
use tiny_state.Queue.{Queue, max_integer64, ins, del}

-- The kernel reads the type only. `seq`, `msg_ptr` and `msg_obj` are left out.
pub record Event : Type 0 where
  pub type : ℕ
  pub source : ℕ
  pub msg : ℤ

-- the types of stdEvent.h that the kernel itself sends or knows
abbrev pub tse_init : ℕ
tse_init = 0

abbrev pub tse_invoke : ℕ
tse_invoke = 1

abbrev pub tse_state : ℕ
tse_state = 5

abbrev pub tse_destroy : ℕ
tse_destroy = 6

abbrev pub tse_wakeup : ℕ
tse_wakeup = 15

abbrev pub tse_priority : ℕ
tse_priority = 20

-- the first character of a state's name, and the states that the kernel names
pub record Table : Type 0 where
  pub c_ini : ℕ → Bool
  pub c_zom : ℕ → Bool
  pub c_thr : ℕ → Bool
  pub zom : ℕ
  pub err_start : ℕ

-- `worker` says that `thrInfo` is not null, and `attached` that `application` and `parent` have not
-- been dropped. A mask is the function of its bits.
pub record Machine : Type 0 where
  pub me : ℕ
  pub state : ℕ
  pub state_lock : Bool
  pub invoke_state_flag : Bool
  pub enter_zom : Bool
  pub destroy_flag : Bool
  pub ref_destroy_flag : Bool
  pub destroy_stop : Bool
  pub mtx_lock_flag : Bool
  pub thr_queueing_flag : Bool
  pub filter_lock : Bool
  pub worker : Bool
  pub attached : Bool
  pub mask : ℕ → Bool
  pub occur : ℕ → Bool
  pub que : Option (Queue Event)

abbrev pub set_bit : ℕ → (ℕ → Bool) → ℕ → Bool
set_bit t f u = if u == t then true else f u

abbrev pub clear_bit : ℕ → (ℕ → Bool) → ℕ → Bool
clear_bit t f u = if u == t then false else f u

module _ (c : Table) where
  -- a worker that waits in a thread state is signalled
  abbrev pub signals : Machine → Bool
  signals m = m.worker && c.c_thr m.state

  -- Through a null queue the store is undefined; the invariants rule it out.
  unfoldable pub ins_event_at : Option (Queue Event) → Event → Machine → Bool × Machine
  ins_event_at none ev m = (false, m)
  ins_event_at (some q) ev m =
      if not (m.mask ev.type)
      then (signals m, record m { que = some (ins max_integer64 ev q) })
      else if not (m.occur ev.type)
      then (
        signals m,
        record m { occur = set_bit ev.type m.occur; que = some (ins max_integer64 ev q) },
      )
      else (false, m)

  -- `_insEvent`, with whether the worker is signalled
  unfoldable pub ins_event : Event → Machine → Bool × Machine
  unfolding ins_event_at
  ins_event ev m = ins_event_at m.que ev m

unfoldable pub deleted : Option Event × Queue Event → Machine → Option Event × Machine
deleted (none, q) m = (none, record m { que = some q })
deleted (some ev, q) m = (some ev, record m { occur = clear_bit ev.type m.occur; que = some q })

unfoldable pub del_event_at : Option (Queue Event) → Machine → Option Event × Machine
unfolding deleted
del_event_at none m = (none, m)
del_event_at (some q) m = deleted (del q) m

-- `_delEvent`
unfoldable pub del_event : Machine → Option Event × Machine
unfolding del_event_at
del_event m = del_event_at m.que m

-- how `eventHandler` goes on after its first steps
pub data Entry : Type 0 where
  ignored queued entered : Entry

module _ (c : Table) where
  -- `invoke_check`
  unfoldable pub invoke_check : ℕ → Machine → Machine
  invoke_check s m = if s == 0 then m else if m.state == s then m else record m {
    enter_zom = if not (c.c_zom m.state) && c.c_zom s then true else m.enter_zom;
    state = s;
    invoke_state_flag = true;
  }

  -- With the lock held by the machine's own dispatch the event only waits. A worker of the pool gives
  -- its claim back.
  unfoldable pub admitted : Bool → Machine → Entry × Machine
  admitted w m =
      if m.state_lock
      then (queued, if w then record m { thr_queueing_flag = false } else m)
      else (entered, record m { state_lock = true; worker = w })

  -- `eventHandler` up to `thrInfo = _thrInfo`
  unfoldable pub enter : Bool → Event → Machine → Entry × Machine
  unfolding ins_event admitted
  enter w ev m = if c.c_zom m.state then (ignored, m) else admitted w (ins_event c ev m).1

  -- the end of `eventHandler` under the lock
  unfoldable pub leave : Machine → Machine
  leave m = record m {
    mtx_lock_flag = false;
    worker = false;
    state_lock = false;
    attached = if m.state == c.zom then false else m.attached;
  }

  -- `is_destroyed`
  unfoldable pub is_destroyed : Machine → Bool
  is_destroyed m =
      if c.c_zom m.state then true else if m.destroy_flag then true else m.ref_destroy_flag

  -- `destroy` up to the event that it sends, with whether it sends one; `none` is a panic
  unfoldable pub destroy : Machine → Option (Bool × Machine)
  destroy m =
      if m.destroy_stop
      then none
      else if c.c_zom m.state
      then some (false, m)
      else if m.destroy_flag
      then some (false, m)
      else some (true, record m { destroy_flag = true })

abbrev pub invoke_event : Machine → Event
invoke_event m = record { type = tse_invoke; source = m.me; msg = pos 0 }

-- `refEvent`, when the last handle goes
unfoldable pub ref_event : Machine → Machine
ref_event m = record m { ref_destroy_flag = true }

-- the bits that `inherit` sets in `onlyOneEvent_mask`
abbrev pub only_one : ℕ → Bool
only_one t =
    if t == tse_wakeup
    then true
    else if t == tse_state
    then true
    else if t == tse_destroy
    then true
    else t == tse_priority
