-- ===== src/Machine/Dispatch/Life.antt =====
-- tinyState.cpp: a machine from `inherit` on, under calls from outside.
use tiny_state.Prelude.{
  ℕ, inl, inr, refl, Bool, true, false, Option, none, some, List, [], ◌∷◌, if◌then◌else◌, ◌==◌,
  Bool-cases,
}
use tiny_state.Prelude.Int.{pos}
use tiny_state.Queue.{empty}
use tiny_state.Queue.Move.{empty-IsValid}
use tiny_state.Machine.{Event, Table, Machine, tse_init, destroy, ref_event, invoke_event, only_one}
use tiny_state.Machine.Dispatch.{Class, Handled, event_handler}
use tiny_state.Machine.Dispatch.Inside.{OnSome}
use tiny_state.Machine.Dispatch.Rounds.{IsDerived}
use tiny_state.Machine.Dispatch.Rest.{AtRest, event_handler-AtRest}

-- what `inherit` sets up before it sends `TSE_INIT`; the allocation clears the rest
unfoldable pub born : ℕ → ℕ → Bool → Machine
unfolding empty
born me ini_start filters = record {
  me = me;
  state = ini_start;
  state_lock = false;
  invoke_state_flag = false;
  enter_zom = false;
  destroy_flag = false;
  ref_destroy_flag = false;
  destroy_stop = false;
  mtx_lock_flag = false;
  thr_queueing_flag = false;
  filter_lock = filters;
  worker = false;
  attached = true;
  mask = only_one;
  occur = λ t. false;
  que = some empty;
}

-- a call of a machine that nobody runs: an event, from a worker of the pool or not, `destroy`,
-- `destroyStop`, or the drop of a handle, which sends an event if it was the last
pub data Call : Type 0 where
  handles : Bool → Event → Call
  destroys stops_destroy : Call
  drops : ℕ → Call

-- `getref() == 1`
abbrev pub is_last : ℕ → Bool
is_last refs = refs == 1

module _ {ℓ} {U : Type ℓ} (c : Table) (k : Class U) where
  unfoldable pub kept : Option (Handled c k) → Option (Machine × U)
  kept none = none
  kept (some h) = some (h.machine, h.user)

  unfoldable pub destroyed : ℕ → Option (Bool × Machine) → Machine → U → Option (Machine × U)
  unfolding kept event_handler
  destroyed n none m u = none
  destroyed n (some (false, m')) m u = some (m', u)
  destroyed n (some (true, m')) m u = kept (event_handler c k n false (invoke_event m') m' u)

  -- fuel bounds the rounds of each dispatch; `none` is a panic, or fuel that ran out
  unfoldable pub apply : ℕ → Call → Machine × U → Option (Machine × U)
  unfolding destroyed destroy ref_event
  apply n (handles w ev) (m, u) = kept (event_handler c k n w ev m u)
  apply n destroys (m, u) = destroyed n (destroy c m) m u
  apply n stops_destroy (m, u) = some (record m { destroy_stop = true }, u)
  apply n (drops refs) (m, u) =
      if is_last refs
      then kept (event_handler c k n false (invoke_event m) (ref_event m) u)
      else some (m, u)

  unfoldable pub and_then :
      (Machine × U → Option (Machine × U)) → Option (Machine × U) → Option (Machine × U)
  and_then f none = none
  and_then f (some y) = f y

  unfoldable pub run : ℕ → List Call → Machine × U → Option (Machine × U)
  unfolding apply and_then
  run n [] y = some y
  run n (x ∷ xs) y = and_then (run n xs) (apply n x y)

  abbrev pub init_event : Machine → Event
  init_event m = record { type = tse_init; source = m.me; msg = pos 0 }

  -- `inherit`, and a history of calls
  unfoldable pub live : ℕ → List Call → Machine → U → Option (Machine × U)
  unfolding run
  live n xs m u = run n (handles false (init_event m) ∷ xs) (m, u)

module _ {ℓ} {U : Type ℓ} (c : Table) (k : Class U) (derived : IsDerived c k) where
  abbrev pub Rests : Machine × U → Type 0
  Rests y = AtRest c y.0

  kept-AtRest :
      (o : Option (Handled c k)) → OnSome (λ h. AtRest c h.machine) o → OnSome Rests (kept c k o)
  unfolding kept
  kept-AtRest none h = tt
  kept-AtRest (some x) h = h

  pub flagged :
      (m : Machine) (d r s : Bool)
      → AtRest c m
      → AtRest c (record m { destroy_flag = d; ref_destroy_flag = r; destroy_stop = s })
  flagged m d r s h = record {
    unlocked = h.unlocked;
    mtx_free = h.mtx_free;
    no_worker = h.no_worker;
    told = h.told;
    consistent = h.consistent;
    drained = h.drained;
  }

  destroyed-AtRest :
      (n : ℕ) (o : Option (Bool × Machine)) (m : Machine) (u : U)
      → OnSome (λ r. AtRest c r.1) o
      → OnSome Rests (destroyed c k n o m u)
  unfolding destroyed
  destroyed-AtRest n none m u h = tt
  destroyed-AtRest n (some (false, m')) m u h = h
  destroyed-AtRest n (some (true, m')) m u h =
      kept-AtRest (event_handler c k n false (invoke_event m') m' u)
        (event_handler-AtRest c k derived n false (invoke_event m') m' u h)

  destroy-AtRest : (m : Machine) → AtRest c m → OnSome (λ r. AtRest c r.1) (destroy c m)
  unfolding destroy
  destroy-AtRest m h = elim (Bool-cases m.destroy_stop) [
    | inl e ↦ rw e tt
    | inr e ↦ elim (Bool-cases (c.c_zom m.state)) [
      | inl f ↦ rw (e, f) (flagged m m.destroy_flag m.ref_destroy_flag false h)
      | inr f ↦ elim (Bool-cases m.destroy_flag) [
        | inl g ↦ rw (e, f, g) (flagged m true m.ref_destroy_flag false h)
        | inr g ↦ rw (e, f, g) (flagged m true m.ref_destroy_flag false h)
      ]
    ]
  ]

  pub apply-AtRest :
      (n : ℕ) (x : Call) (y : Machine × U) → AtRest c y.0 → OnSome Rests (apply c k n x y)
  unfolding apply ref_event
  apply-AtRest n (handles w ev) (m, u) h =
      kept-AtRest (event_handler c k n w ev m u) (event_handler-AtRest c k derived n w ev m u h)
  apply-AtRest n destroys (m, u) h = destroyed-AtRest n (destroy c m) m u (destroy-AtRest m h)
  apply-AtRest n stops_destroy (m, u) h = flagged m m.destroy_flag m.ref_destroy_flag true h
  apply-AtRest n (drops refs) (m, u) h = elim (Bool-cases (is_last refs)) [
    | inl e ↦ rw e (
        kept-AtRest (event_handler c k n false (invoke_event m) (ref_event m) u) (
          event_handler-AtRest c k derived n false (invoke_event m) (ref_event m) u
            (flagged m m.destroy_flag true m.destroy_stop h)))
    | inr e ↦ rw e h
  ]

  run-AtRest :
      (n : ℕ) (xs : List Call) (y : Machine × U) → AtRest c y.0 → OnSome Rests (run c k n xs y)
  unfolding run and_then
  run-AtRest n [] y h = h
  run-AtRest n (x ∷ xs) y h = go (apply c k n x y) (apply-AtRest n x y h) (run-AtRest n xs)
    where
      go :
          (o : Option (Machine × U))
          → OnSome Rests o
          → ((z : Machine × U) → AtRest c z.0 → OnSome Rests (run c k n xs z))
          → OnSome Rests (and_then c k (run c k n xs) o)
      go none h f = tt
      go (some z) h f = f z h

  pub born-AtRest : (me ini : ℕ) (filters : Bool) → AtRest c (born me ini filters)
  unfolding born empty
  born-AtRest me ini filters = record {
    unlocked = refl;
    mtx_free = refl;
    no_worker = refl;
    told = refl;
    consistent = record { valid = empty-IsValid false; once = λ t h. refl; unused = λ t h. refl };
    drained = inr (empty, refl, refl);
  }

  -- The life of a machine of any derived class, from `inherit` on and under every history of events,
  -- of `destroy` and of dropped handles, with whatever reaches it while its state functions run:
  -- whenever a call has returned, no lock, worker or unreported change of state is left behind, the
  -- bits of the only-one events agree with the queue, and no event is left in it; it is gone only
  -- in the state `ZOM`.
  pub live-AtRest :
      (n : ℕ) (xs : List Call) (me ini : ℕ) (filters : Bool) (u : U)
      → OnSome Rests (live c k n xs (born me ini filters) u)
  unfolding live born
  live-AtRest n xs me ini filters u =
      run-AtRest n (handles false (init_event c k (born me ini filters)) ∷ xs)
        (born me ini filters, u) (born-AtRest me ini filters)
