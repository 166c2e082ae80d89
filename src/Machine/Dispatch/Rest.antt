-- ===== src/Machine/Dispatch/Rest.antt =====
-- tinyState.cpp: what holds of a machine whenever nobody runs it.
use tiny_state.Prelude.{
  ℕ, ◌≡◌, ◌≢◌, ◌⊎◌, inl, inr, refl, sym, ap, subst, ◌∙◌, Bool, true, false, Option, none, some,
  List, [], ◌∷◌, if◌then◌else◌, Bool-cases, arith, length,
}
use tiny_state.Prelude.Int.{pos, pos_part, eqb_ℤ_iff}
use tiny_state.Queue.{Cell, Queue}
use tiny_state.Queue.Valid.{IsValid}
use tiny_state.Machine.{Event, Table, Machine, queued, entered, enter, admitted, leave, ins_event}
use tiny_state.Machine.Once.{Consistent, Mirrors, ins_event-Consistent}
use tiny_state.Machine.Dispatch.{
  Class, Config, is_idle, invoke_state, finished, handled, event_handler,
}
use tiny_state.Machine.Dispatch.Inside.{OnSome, Inside, ins_event_at_fields}
use tiny_state.Machine.Dispatch.Rounds.{IsDerived, Done, loop-Done}

-- Nobody runs the machine. It holds none of its locks and no worker, every change of its state has been told to
-- the listeners, its masks mirror its queue, and no event is left: the queue is empty, or it is gone
-- and the state is `ZOM`.
pub record AtRest (c : Table) (m : Machine) : Type 0 where
  pub unlocked : m.state_lock ≡ false
  pub mtx_free : m.mtx_lock_flag ≡ false
  pub no_worker : m.worker ≡ false
  pub told : m.invoke_state_flag ≡ false
  pub consistent : Consistent m.mask m.occur m.que
  pub drained :
      ((m.que ≡ none) × (m.state ≡ c.zom)) ⊎ ((q : Queue Event) × (m.que ≡ some q) × (q.chain ≡ []))

module _ {ℓ} {U : Type ℓ} (c : Table) (k : Class U) (derived : IsDerived c k) where
  empty_of_idle :
      (m : Machine) (o : Option (Queue Event))
      → m.que ≡ o
      → Inside m
      → is_idle c k o ≡ true
      → (q : Queue Event) × (m.que ≡ some q) × (q.chain ≡ [])
  empty_of_idle m none e h i = absurd (h.alive e)
  empty_of_idle m (some q) e h i =
      let mirrors : Mirrors m.mask m.occur q = subst (Consistent m.mask m.occur) e h.consistent in
      (q, e, nil_of_count q mirrors.valid ((eqb_ℤ_iff q.count (pos 0)).0 i))
    where
      nil_of_length : (cs : List (Cell Event)) → pos (length cs) ≡ pos 0 → cs ≡ []
      nil_of_length [] n = refl
      nil_of_length (x ∷ cs) n = absurd (omega (arith, ap pos_part n))

      nil_of_count : (q : Queue Event) → IsValid q → q.count ≡ pos 0 → q.chain ≡ []
      nil_of_count q v n = nil_of_length q.chain (sym v.counted ∙ n)

  left-AtRest :
      (m : Machine)
      → Consistent m.mask m.occur m.que
      → ((m.que ≡ none) × (m.state ≡ c.zom))
        ⊎ ((q : Queue Event) × (m.que ≡ some q) × (q.chain ≡ []))
      → AtRest c (invoke_state c k (leave c m)).1
  unfolding invoke_state leave
  left-AtRest m h d = elim (Bool-cases m.invoke_state_flag) [
    | inl e ↦ rw e (record {
      unlocked = refl;
      mtx_free = refl;
      no_worker = refl;
      told = refl;
      consistent = h;
      drained = d;
    })
    | inr e ↦ rw e (record {
      unlocked = refl;
      mtx_free = refl;
      no_worker = refl;
      told = refl;
      consistent = h;
      drained = d;
    })
  ]

  finished-AtRest :
      (o : Option (Config U))
      → OnSome (Done c k derived) o
      → OnSome (λ h. AtRest c h.machine) (finished c k o)
  unfolding finished
  finished-AtRest none d = tt
  finished-AtRest (some g) (inl (h, i)) =
      left-AtRest g.machine h.consistent (inr (empty_of_idle g.machine g.machine.que refl h i))
  finished-AtRest (some g) (inr (l, d, z)) =
      left-AtRest g.machine (subst (Consistent g.machine.mask g.machine.occur) (sym d) tt)
        (inl (d, z))

  locked-Inside :
      (w : Bool) (m : Machine)
      → Consistent m.mask m.occur m.que
      → m.que ≢ none
      → Inside (record m { state_lock = true; worker = w })
  locked-Inside w m h a = record { locked = refl; consistent = h; alive = a }

  entered-AtRest :
      (n : ℕ) (w : Bool) (m : Machine) (u : U)
      → m.state_lock ≡ false
      → Consistent m.mask m.occur m.que
      → m.que ≢ none
      → OnSome (λ h. AtRest c h.machine) (handled c k n (admitted c w m) u)
  unfolding handled admitted
  entered-AtRest n w m u l h a =
      subst
        (λ b.
          OnSome (λ x. AtRest c x.machine)
            (handled c k n
              (if b
                then (queued, if w then record m { thr_queueing_flag = false } else m)
                else (entered, record m { state_lock = true; worker = w }))
              u))
        (sym l) (finished-AtRest _ (loop-Done c k derived n _ (locked-Inside w m h a)))

  pub event_handler-AtRest :
      (n : ℕ) (w : Bool) (ev : Event) (m : Machine) (u : U)
      → AtRest c m
      → OnSome (λ h. AtRest c h.machine) (event_handler c k n w ev m u)
  unfolding event_handler enter handled ins_event
  event_handler-AtRest n w ev m u r = elim (Bool-cases (c.c_zom m.state)) [
    | inl e ↦ rw e r
    | inr e ↦
        let kept = ins_event_at_fields c m.que ev m refl in
        rw e (
          entered-AtRest n w (ins_event c ev m).1 u (kept.0 ∙ r.unlocked)
            (ins_event-Consistent c ev m r.consistent) (kept.1 (alive_at_rest m r e)))
  ]
    where
      alive_at_rest : (m : Machine) → AtRest c m → c.c_zom m.state ≡ false → m.que ≢ none
      alive_at_rest m r e f = elim r.drained [
        | inl (d, z) ↦ cc (ap c.c_zom z, derived.zom_class, e)
        | inr (q, d, x) ↦ cc (d, f)
      ]
