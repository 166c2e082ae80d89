-- ===== src/Machine/Dispatch/Inside.antt =====
-- tinyState.cpp: what holds while a dispatch has the lock, whatever reaches the machine.
use tiny_state.Prelude.{
  ◌≡◌, ◌≢◌, inl, inr, refl, sym, subst, ◌∙◌, Bool, true, false, Option, none, some, List, [], ◌∷◌,
  if◌then◌else◌, Bool-cases,
}
use tiny_state.Queue.{Queue, del}
use tiny_state.Machine.{
  Event, Table, Machine, Entry, queued, entered, del_event, del_event_at, deleted, enter, admitted,
  destroy, ref_event, invoke_event, ins_event, ins_event_at,
}
use tiny_state.Machine.Once.{Consistent, ins_event-Consistent, del_event-Consistent}
use tiny_state.Machine.Dispatch.{
  Arrival, posts, offers, destroys, loses_handle, sent, arrive, arrive_all,
}

abbrev pub OnSome {ℓ κ} : {A : Type ℓ} → (A → Type κ) → Option A → Type κ
OnSome P none = Unit
OnSome P (some a) = P a

-- a machine that a dispatch holds the lock of
pub record Inside (m : Machine) : Type 0 where
  pub locked : m.state_lock ≡ true
  pub consistent : Consistent m.mask m.occur m.que
  pub alive : m.que ≢ none

del_event_at_fields :
    (o : Option (Queue Event)) (m : Machine)
    → m.que ≡ o
    → let n = (del_event_at o m).1 in (n.state_lock ≡ m.state_lock) × (m.que ≢ none → n.que ≢ none)
unfolding del_event_at deleted
del_event_at_fields none m e = (refl, λ h. h)
del_event_at_fields (some q) m e = deleted_fields (del q)
  where
    deleted_fields :
        (r : Option Event × Queue Event)
        → ((deleted r m).1.state_lock ≡ m.state_lock) × (m.que ≢ none → (deleted r m).1.que ≢ none)
    deleted_fields (none, q') = (refl, λ h f. cc f)
    deleted_fields (some ev, q') = (refl, λ h f. cc f)

pub del_event-Inside : (m : Machine) → Inside m → Inside (del_event m).1
unfolding del_event
del_event-Inside m h =
    let kept = del_event_at_fields m.que m refl in
    record {
      locked = kept.0 ∙ h.locked;
      consistent = del_event-Consistent m h.consistent;
      alive = kept.1 h.alive;
    }

module _ (c : Table) where
  pub ins_event_at_fields :
      (o : Option (Queue Event)) (ev : Event) (m : Machine)
      → let n = (ins_event_at c o ev m).1 in
        (m.que ≡ o) → (n.state_lock ≡ m.state_lock) × (m.que ≢ none → n.que ≢ none)
  unfolding ins_event_at
  ins_event_at_fields none ev m e = (refl, λ h. h)
  ins_event_at_fields (some q) ev m e = elim (Bool-cases (m.mask ev.type)) [
    | inl masked ↦ elim (Bool-cases (m.occur ev.type)) [
      | inl there ↦ rw (masked, there) (refl, λ h. h)
      | inr fresh ↦ rw (masked, fresh) (refl, λ h f. cc f)
    ]
    | inr free ↦ rw free (refl, λ h f. cc f)
  ]

  ins_event-Inside : (ev : Event) (m : Machine) → Inside m → Inside (ins_event c ev m).1
  unfolding ins_event
  ins_event-Inside ev m h =
      let kept = ins_event_at_fields m.que ev m refl in
      record {
        locked = kept.0 ∙ h.locked;
        consistent = ins_event-Consistent c ev m h.consistent;
        alive = kept.1 h.alive;
      }

  admitted-Inside : (w : Bool) (m : Machine) → Inside m → Inside (admitted c w m).1
  unfolding admitted
  admitted-Inside w m h =
      subst
        (λ b.
          Inside
            (if◌then◌else◌ {A = Entry × Machine} b
              (queued, if w then record m { thr_queueing_flag = false } else m)
              (entered, record m { state_lock = true; worker = w })).1)
        (sym h.locked) (unclaimed w)
    where
      unclaimed : (b : Bool) → Inside (if b then record m { thr_queueing_flag = false } else m)
      unclaimed true = record { locked = h.locked; consistent = h.consistent; alive = h.alive }
      unclaimed false = h

  enter-Inside : (w : Bool) (ev : Event) (m : Machine) → Inside m → Inside (enter c w ev m).1
  unfolding enter
  enter-Inside w ev m h = elim (Bool-cases (c.c_zom m.state)) [
    | inl e ↦ rw e h
    | inr e ↦ rw e (admitted-Inside w (ins_event c ev m).1 (ins_event-Inside ev m h))
  ]

  destroy-Inside : (m : Machine) → Inside m → OnSome (λ r. Inside r.1) (destroy c m)
  unfolding destroy
  destroy-Inside m h = elim (Bool-cases m.destroy_stop) [
    | inl e ↦ rw e tt
    | inr e ↦ elim (Bool-cases (c.c_zom m.state)) [
      | inl f ↦ rw (e, f) (record { locked = h.locked; consistent = h.consistent; alive = h.alive })
      | inr f ↦ elim (Bool-cases m.destroy_flag) [
        | inl g ↦
            rw (e, f, g) (record { locked = h.locked; consistent = h.consistent; alive = h.alive })
        | inr g ↦
            rw (e, f, g) (record { locked = h.locked; consistent = h.consistent; alive = h.alive })
      ]
    ]
  ]

  sent-Inside :
      (o : Option (Bool × Machine)) (m : Machine)
      → OnSome (λ r. Inside r.1) o
      → Inside m
      → Inside (sent c o m)
  unfolding sent
  sent-Inside none m h k = k
  sent-Inside (some (false, n)) m h k = k
  sent-Inside (some (true, n)) m h k = enter-Inside false (invoke_event n) n h

  arrive-Inside : (a : Arrival) (m : Machine) → Inside m → Inside (arrive c a m)
  unfolding arrive ref_event
  arrive-Inside (posts ev) m h = enter-Inside false ev m h
  arrive-Inside (offers ev) m h = enter-Inside true ev m h
  arrive-Inside (loses_handle ev) m h =
      enter-Inside false ev (ref_event m)
        (record { locked = h.locked; consistent = h.consistent; alive = h.alive })
  arrive-Inside destroys m h = sent-Inside (destroy c m) m (destroy-Inside m h) h

  pub arrive_all-Inside :
      (as' : List Arrival) (m : Machine) → Inside m → Inside (arrive_all c as' m)
  unfolding arrive_all
  arrive_all-Inside [] m h = h
  arrive_all-Inside (a ∷ as') m h = arrive_all-Inside as' (arrive c a m) (arrive-Inside a m h)
