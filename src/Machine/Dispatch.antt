-- ===== src/Machine/Dispatch.antt =====
-- tinyState.cpp: `eventHandler`, for any class derived from tinyState.
pub mod Inside
pub mod Rounds
pub mod Rest
pub mod Life
pub mod Descent
pub mod Ends
pub mod Total
use tiny_state.Prelude.{
  ℕ, zero, suc, ◌≡◌, ◌⊎◌, Bool, true, false, Option, none, some, List, [], ◌∷◌, ◌==◌, if◌then◌else◌,
}
use tiny_state.Prelude.Int.{ℤ, pos, eqb_ℤ}
use tiny_state.Queue.{Queue}
use tiny_state.Machine.{
  Event, Table, Machine, Entry, ignored, queued, entered, tse_state, tse_destroy, del_event,
  invoke_check, enter, leave, destroy, ref_event, invoke_event,
}

-- what a state function returns or throws
pub data Reply : Type 0 where
  -- `rDO|target`, or `target` alone
  returns : Bool → ℕ → Reply
  -- `sException` of type `EX_STAY`, and of another type
  throws_stay throws_error : Reply

-- `state`, the local variable: its bit `rDO`, and the rest
pub record Request : Type 0 where
  pub redo : Bool
  pub target : ℕ

-- what reaches a machine while its state function runs, with `lm` released: from the function
-- itself, from other machines, and from the pool
pub data Arrival : Type 0 where
  posts : Event → Arrival
  offers : Event → Arrival
  destroys : Arrival
  loses_handle : Event → Arrival

module _ (c : Table) where
  unfoldable pub request : Reply → Request
  request (returns b s) = record { redo = b; target = s }
  request throws_stay = record { redo = false; target = 0 }
  request throws_error = record { redo = true; target = c.err_start }

  -- `state == ZOM`
  abbrev pub is_zom : Request → Bool
  is_zom r = if r.redo then false else r.target == c.zom

  unfoldable pub sent : Option (Bool × Machine) → Machine → Machine
  unfolding enter
  sent none m = m
  sent (some (false, n)) m = m
  sent (some (true, n)) m = (enter c false (invoke_event n) n).1

  unfoldable pub arrive : Arrival → Machine → Machine
  unfolding enter destroy ref_event sent
  arrive (posts ev) m = (enter c false ev m).1
  arrive (offers ev) m = (enter c true ev m).1
  arrive destroys m = sent (destroy c m) m
  arrive (loses_handle ev) m = (enter c false ev (ref_event m)).1

  unfoldable pub arrive_all : List Arrival → Machine → Machine
  unfolding arrive
  arrive_all [] m = m
  arrive_all (a ∷ as') m = arrive_all as' (arrive a m)

-- `this->que = thNULL` in `ZOM_TINYSTATE_LAST2`, after `invoke_state` there
unfoldable pub closed : Machine → Machine
closed m = record m { invoke_state_flag = false; que = none }

module _ {ℓ} where
  -- A derived class: `U` is its own state. A state function sees the machine, and says what reached
  -- the machine while it ran and whether it was `ZOM_TINYSTATE_LAST2`.
  pub record Ran (U : Type ℓ) : Type ℓ where
    pub reply : Reply
    pub arrived : List Arrival
    pub closes : Bool
    pub user : U

  pub record Class (U : Type ℓ) : Type ℓ where
    pub func : ℕ → Option (Event → Machine → U → Ran U)
    pub filter : Event → Machine → U → Option Event × List Arrival × U

  -- the variables of `eventHandler` that live across its loops
  pub record Config (U : Type ℓ) : Type ℓ where
    pub machine : Machine
    pub user : U
    pub do_ins : Bool

module _ {ℓ} {U : Type ℓ} (c : Table) (k : Class U) where
  unfoldable pub after : Ran U → Machine → Machine
  unfolding arrive_all closed
  after r m = if r.closes then closed (arrive_all c r.arrived m) else arrive_all c r.arrived m

  unfoldable pub call : (Event → Machine → U → Ran U) → Event → Config U → Request × Config U
  unfolding request after
  call f ev g =
      let r = f ev g.machine g.user in
      (request c r.reply, record g { machine = after r g.machine; user = r.user })

  -- a thread state without a worker: the pool is asked, once
  unfoldable pub hand_over : Config U → Request × Config U
  hand_over g =
      let m = g.machine in
      (
        record { redo = false; target = 0 },
        if m.thr_queueing_flag
            then g
            else record g { machine = record m { thr_queueing_flag = true }; do_ins = true },
      )

  abbrev pub mtx_set : Bool → Machine → Machine
  mtx_set b m = record m { thr_queueing_flag = false; mtx_lock_flag = b }

  unfoldable pub evaluate_at :
      Option (Event → Machine → U → Ran U) → Event → Config U → Request × Config U
  unfolding call hand_over
  evaluate_at none ev g = (record { redo = true; target = c.err_start }, g)
  evaluate_at (some f) ev g =
      let m = g.machine in
      if c.c_thr m.state
      then (if m.worker then call f ev (record g { machine = mtx_set false m }) else hand_over g)
      else call f ev (record g { machine = mtx_set true m })

  -- one round of the innermost loop up to its tests
  unfoldable pub evaluate : Event → Config U → Request × Config U
  unfolding evaluate_at
  evaluate ev g = evaluate_at (k.func g.machine.state) ev g

  unfoldable pub move_to : ℕ → Config U → Config U
  move_to s g = record g { machine = invoke_check c s g.machine }

  unfoldable pub go_on :
      (Config U → Option (Request × Config U)) → Request × Config U → Option (Request × Config U)
  unfolding move_to
  go_on again (r, g) = if r.redo then again (move_to r.target g) else some (r, g)

  -- the innermost loop, for one event; fuel bounds its rounds
  unfoldable pub chain : ℕ → Event → Config U → Option (Request × Config U)
  unfolding evaluate go_on
  chain zero ev g = none
  chain (suc n) ev g = go_on (chain n ev) (evaluate ev g)

  abbrev pub is_idle : Option (Queue Event) → Bool
  is_idle none = true
  is_idle (some q) = eqb_ℤ q.count (pos 0)

  -- the test after the middle loop
  unfoldable pub pause : (Config U → Option (Config U)) → Config U → Option (Config U)
  pause again g = if is_idle g.machine.que then some g else again g

  unfoldable pub settle :
      (Config U → Option (Config U)) → Option (Request × Config U) → Option (Config U)
  unfolding pause move_to
  settle again none = none
  settle again (some (r, g)) =
      if is_zom c r then pause again (move_to r.target g) else again (move_to r.target g)

  unfoldable pub filtered : Event → Config U → Option Event × Config U
  unfolding arrive_all
  filtered ev g =
      if g.machine.filter_lock
      then (let (o, as', u) = k.filter ev g.machine g.user in
          (o, record g { machine = arrive_all c as' g.machine; user = u }))
      else (some ev, g)

  unfoldable pub serve :
      ℕ → (Config U → Option (Config U)) → Option Event × Config U → Option (Config U)
  unfolding settle chain pause
  serve n again (none, g) = pause again g
  serve n again (some ev, g) = settle again (chain n ev g)

  unfoldable pub fetched :
      ℕ → (Config U → Option (Config U)) → Option Event × Machine → Config U → Option (Config U)
  unfolding serve filtered
  fetched n again (none, m) g = pause again (record g { machine = m })
  fetched n again (some ev, m) g = serve n again (filtered ev (record g { machine = m }))

  -- the two outer loops; fuel bounds the events and the rounds for each
  unfoldable pub loop : ℕ → Config U → Option (Config U)
  unfolding fetched
  loop zero g = none
  loop (suc n) g = fetched n (loop n) (del_event g.machine) g

  -- what `eventHandler` leaves: `sent_types` are the types of the events to the listeners, and
  -- `do_ins` says that the machine goes to the pool
  pub record Handled : Type ℓ where
    pub machine : Machine
    pub user : U
    pub do_ins : Bool
    pub sent_types : List ℕ

  -- `invoke_state`
  unfoldable pub invoke_state : Machine → List ℕ × Machine
  invoke_state m =
      if m.invoke_state_flag
      then (
        if m.enter_zom then tse_state ∷ tse_destroy ∷ [] else tse_state ∷ [],
        record m { invoke_state_flag = false },
      )
      else ([], m)

  unfoldable pub finished : Option (Config U) → Option Handled
  unfolding invoke_state
  finished none = none
  finished (some g) =
      let (ts, m) = invoke_state (leave c g.machine) in
      some (record { machine = m; user = g.user; do_ins = g.do_ins; sent_types = ts })

  unfoldable pub handled : ℕ → Entry × Machine → U → Option Handled
  unfolding finished loop
  handled n (entered, m) u = finished (loop n (record { machine = m; user = u; do_ins = false }))
  handled n (queued, m) u = some (record { machine = m; user = u; do_ins = false; sent_types = [] })
  handled n (ignored, m) u =
      some (record { machine = m; user = u; do_ins = false; sent_types = [] })

  -- `eventHandler(ev, _thrInfo)`
  unfoldable pub event_handler : ℕ → Bool → Event → Machine → U → Option Handled
  unfolding handled
  event_handler n w ev m u = handled n (enter c w ev m) u
