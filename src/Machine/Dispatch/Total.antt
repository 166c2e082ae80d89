-- ===== src/Machine/Dispatch/Total.antt =====
-- tinyState.cpp: that every call of a machine returns.
use tiny_state.Prelude.{
  ℕ, suc, ◌≤◌, ◌≡◌, Bool, true, false, Option, none, some, Bool-cases, inl, inr,
}
use tiny_state.Machine.{Event, Table, Machine, destroy, ref_event, invoke_event}
use tiny_state.Machine.Dispatch.{Class, Handled, event_handler}
use tiny_state.Machine.Dispatch.Inside.{OnSome}
use tiny_state.Machine.Dispatch.Rounds.{IsDerived}
use tiny_state.Machine.Dispatch.Rest.{AtRest, event_handler-AtRest}
use tiny_state.Machine.Dispatch.Descent.{Yields, Descending}
use tiny_state.Machine.Dispatch.Ends.{event_handler-Returns}
use tiny_state.Machine.Dispatch.Life.{
  Call, handles, destroys, stops_destroy, drops, is_last, kept, destroyed, apply, Rests, flagged,
}

module _ {ℓ} {U : Type ℓ} (c : Table) (k : Class U) (derived : IsDerived c k) (rank : ℕ → ℕ)
    (d : Descending c k rank) (n : ℕ) where
  kept-Rests :
      (o : Option (Handled c k))
      → OnSome (λ h. AtRest c h.machine) o
      → Yields (λ h. Unit) o
      → Yields (Rests c k derived) (kept c k o)
  unfolding kept
  kept-Rests none h y = y
  kept-Rests (some x) h y = h

  handled-Rests :
      (w : Bool) (ev : Event) (m : Machine) (u : U)
      → AtRest c m
      → rank m.state ≤ n
      → Yields (Rests c k derived) (kept c k (event_handler c k (suc (suc n)) w ev m u))
  handled-Rests w ev m u r l =
      kept-Rests (event_handler c k (suc (suc n)) w ev m u)
        (event_handler-AtRest c k derived (suc (suc n)) w ev m u r)
        (event_handler-Returns c k derived rank d n w ev m u r l)

  -- For a class whose state functions and filter send nothing to their own machine and go on at once
  -- only to states of lower rank, every call of a machine at rest, of whose state the rank is at most
  -- n, returns and leaves it at rest, with n + 2 as fuel; `destroy` on the condition that
  -- `destroyStop` has not been called.
  pub apply-Rests :
      (x : Call) (m : Machine) (u : U)
      → AtRest c m
      → rank m.state ≤ n
      → m.destroy_stop ≡ false
      → Yields (Rests c k derived) (apply c k (suc (suc n)) x (m, u))
  unfolding apply destroyed destroy ref_event
  apply-Rests (handles w ev) m u r l e = handled-Rests w ev m u r l
  apply-Rests destroys m u r l e = elim (Bool-cases (c.c_zom m.state)) [
    | inl f ↦ rw (e, f) (flagged c k derived m m.destroy_flag m.ref_destroy_flag false r)
    | inr f ↦ elim (Bool-cases m.destroy_flag) [
      | inl g ↦ rw (e, f, g) (flagged c k derived m true m.ref_destroy_flag false r)
      | inr g ↦
          rw (e, f, g)
            (handled-Rests false (invoke_event m)
              (record m { destroy_flag = true; destroy_stop = false }) u
              (flagged c k derived m true m.ref_destroy_flag false r) l)
    ]
  ]
  apply-Rests stops_destroy m u r l e =
      flagged c k derived m m.destroy_flag m.ref_destroy_flag true r
  apply-Rests (drops refs) m u r l e = elim (Bool-cases (is_last refs)) [
    | inl f ↦ rw f (
        handled-Rests false (invoke_event m) (ref_event m) u
          (flagged c k derived m m.destroy_flag true m.destroy_stop r) l)
    | inr f ↦ rw f r
  ]
