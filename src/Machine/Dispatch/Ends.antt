-- ===== src/Machine/Dispatch/Ends.antt =====
-- tinyState.cpp: that `eventHandler` returns.
use tiny_state.Prelude.{
  ℕ, suc, ◌<◌, ◌≤◌, ◌≡◌, inl, inr, refl, sym, ap, subst, ◌∙◌, Bool, true, false, Option, none, some,
  List, [], ◌∷◌, ◌++◌, if◌then◌else◌, Bool-cases, arith, length, length-map, map,
}
use tiny_state.Prelude.Int.{pos, ◌-ℤ◌, pos_suc-ℤ_one}
use tiny_state.Queue.{Cell, Queue, ins, max_integer64, del, del_at}
use tiny_state.Queue.Valid.{IsValid, ins-IsValid}
use tiny_state.Queue.Remove.{del_lem, del_result}
use tiny_state.Queue.Order.{entry, ins_fifo}
use tiny_state.Machine.{
  Event, Table, Machine, queued, entered, del_event, del_event_at, deleted, enter, admitted,
  ins_event, ins_event_at,
}
use tiny_state.Machine.Once.{Consistent, Mirrors}
use tiny_state.Machine.Dispatch.{
  Request, is_zom, arrive_all, Class, Config, move_to, chain, is_idle, pause, settle, filtered,
  serve, fetched, loop, finished, handled, event_handler,
}
use tiny_state.Machine.Dispatch.Inside.{ins_event_at_fields}
use tiny_state.Machine.Dispatch.Rounds.{IsDerived}
use tiny_state.Machine.Dispatch.Rest.{AtRest}
use tiny_state.Machine.Dispatch.Descent.{
  Yields, Descending, Idle, Quiet, que-invoke_check, chain-Yields,
}

module _ {ℓ} {U : Type ℓ} (c : Table) (k : Class U) (derived : IsDerived c k) (rank : ℕ → ℕ)
    (d : Descending c k rank) where
  abbrev pub Returns {κ} : {A : Type κ} → Option A → Type 0
  Returns = Yields (λ a. Unit)

  is_idle-Idle : (o : Option (Queue Event)) → Idle o → is_idle c k o ≡ true
  is_idle-Idle none h = refl
  is_idle-Idle (some q) h = rw h.1 refl

  paused :
      (again : Config U → Option (Config U)) (g : Config U)
      → Idle g.machine.que
      → Returns (pause c k again g)
  unfolding pause
  paused again g h = rw (is_idle-Idle g.machine.que h) tt

  -- a queue with one event at most
  abbrev Short : Option (Queue Event) → Type 0
  Short none = Unit
  Short (some q) = IsValid q × (length q.chain ≤ 1)

  del_result-Short :
      (q : Queue Event) (cs : List (Cell Event)) (m : Machine)
      → q.chain ≡ cs
      → IsValid q
      → length cs ≤ 1
      → let n = (deleted (del_result q cs) m).1 in Idle n.que × (n.state ≡ m.state)
  unfolding deleted
  del_result-Short q [] m e v l = ((e, v.counted ∙ ap (λ cs. pos (length cs)) e), refl)
  del_result-Short q (x ∷ []) m e v l = (
    (refl, ap (λ n. n -ℤ pos 1) (v.counted ∙ ap (λ cs. pos (length cs)) e) ∙ pos_suc-ℤ_one 0),
    refl,
  )
  del_result-Short q (x ∷ y ∷ cs) m e v l = absurd (omega arith)

  del_event_at-Short :
      (o : Option (Queue Event)) (m : Machine)
      → m.que ≡ o
      → Short o
      → let n = (del_event_at o m).1 in Idle n.que × (n.state ≡ m.state)
  unfolding del_event_at
  del_event_at-Short none m e h = (subst Idle (sym e) tt, refl)
  del_event_at-Short (some q) m e h =
      subst (λ r. let n = (deleted r m).1 in Idle n.que × (n.state ≡ m.state)) (sym (del_lem q h.0))
        (del_result-Short q q.chain m refl h.0 h.1)

  settled :
      (again : Config U → Option (Config U)) (o : Option (Request × Config U))
      → ((g : Config U) → Idle g.machine.que → Returns (again g))
      → Yields (Quiet c k derived rank d) o
      → Returns (settle c k again o)
  unfolding settle move_to
  settled again none ok h = h
  settled again (some (r, g)) ok h = elim (Bool-cases (is_zom c r)) [
    | inl e ↦ rw e (
        paused again (move_to c k r.target g)
          (que-invoke_check c k derived rank d r.target g.machine h))
    | inr e ↦
        rw e
          (ok (move_to c k r.target g) (que-invoke_check c k derived rank d r.target g.machine h))
  ]

  filtered_lem :
      (ev : Event) (g : Config U)
      → let h = (filtered c k ev g).1 in
        (h.machine.que ≡ g.machine.que) × (h.machine.state ≡ g.machine.state)
  unfolding filtered arrive_all
  filtered_lem ev g = by_filter g.machine.filter_lock
    where
      by_filter :
          (b : Bool)
          → let h =
              (if◌then◌else◌ {A = Option Event × Config U} b
                (let (o, as', u) = k.filter ev g.machine g.user in
                  (o, record g { machine = arrive_all c as' g.machine; user = u }))
                (some ev, g)).1 in
            (h.machine.que ≡ g.machine.que) × (h.machine.state ≡ g.machine.state)
      by_filter true =
          subst
            (λ as'.
              ((arrive_all c as' g.machine).que ≡ g.machine.que)
              × ((arrive_all c as' g.machine).state ≡ g.machine.state))
            (sym (d.filter_silent ev g.machine g.user)) (refl, refl)
      by_filter false = (refl, refl)

  served :
      (n : ℕ) (again : Config U → Option (Config U)) (r : Option Event × Config U)
      → ((g : Config U) → Idle g.machine.que → Returns (again g))
      → rank r.1.machine.state < n
      → Idle r.1.machine.que
      → Returns (serve c k n again r)
  unfolding serve
  served n again (none, g) ok l h = paused again g h
  served n again (some ev, g) ok l h =
      settled again (chain c k n ev g) ok (chain-Yields c k derived rank d n ev g l h)

  fetched-Returns :
      (n : ℕ) (again : Config U → Option (Config U)) (r : Option Event × Machine) (g : Config U)
      → ((g : Config U) → Idle g.machine.que → Returns (again g))
      → rank r.1.state < n
      → Idle r.1.que
      → Returns (fetched c k n again r g)
  unfolding fetched
  fetched-Returns n again (none, m) g ok l h = paused again (record g { machine = m }) h
  fetched-Returns n again (some ev, m) g ok l h =
      let same = filtered_lem ev (record g { machine = m }) in
      served n again (filtered c k ev (record g { machine = m })) ok
        (subst (λ s. rank s < n) (sym same.1) l) (subst Idle (sym same.0) h)

  del_nil : (q : Queue Event) → q.chain ≡ [] → del q ≡ (none, q)
  unfolding del del_at
  del_nil q e = ap (λ cs. del_at cs q) e

  -- without an event the loops stop at once
  loop_idle : (n : ℕ) (g : Config U) → Idle g.machine.que → Returns (loop c k (suc n) g)
  unfolding loop fetched del_event del_event_at deleted
  loop_idle n g h = go g.machine.que refl h
    where
      go :
          (o : Option (Queue Event))
          → g.machine.que ≡ o
          → Idle o
          → Returns (fetched c k n (loop c k n) (del_event_at o g.machine) g)
      go none e h = paused (loop c k n) g (subst Idle (sym e) tt)
      go (some q) e h =
          subst (λ r. Returns (fetched c k n (loop c k n) (deleted r g.machine) g))
            (sym (del_nil q h.0))
            (paused (loop c k n) (record g { machine = record g.machine { que = some q } }) h)

  loop-Returns :
      (n : ℕ) (g : Config U)
      → rank g.machine.state < suc n
      → Short g.machine.que
      → Returns (loop c k (suc (suc n)) g)
  unfolding loop del_event
  loop-Returns n g l h =
      let taken = del_event_at-Short g.machine.que g.machine refl h in
      fetched-Returns (suc n) (loop c k (suc n)) (del_event g.machine) g (loop_idle n)
        (subst (λ s. rank s < suc n) (sym taken.1) l) taken.0

  ins-Short :
      (ev : Event) (q : Queue Event)
      → IsValid q
      → q.chain ≡ []
      → Short (some (ins max_integer64 ev q))
  ins-Short ev q v e = (
    ins-IsValid max_integer64 ev q v,
    omega (
      arith,
      ap length (ins_fifo ev q v),
      length-map entry (ins max_integer64 ev q).chain,
      ap (λ cs. length (map entry cs ++ (max_integer64, ev) ∷ [])) e,
    ),
  )

  ins_event_at-Short :
      (o : Option (Queue Event)) (ev : Event) (m : Machine)
      → m.que ≡ o
      → Consistent m.mask m.occur o
      → Idle o
      → let n = (ins_event_at c o ev m).1 in Short n.que × (n.state ≡ m.state)
  unfolding ins_event_at
  ins_event_at-Short none ev m e h i = (subst Short (sym e) tt, refl)
  ins_event_at-Short (some q) ev m e h i = elim (Bool-cases (m.mask ev.type)) [
    | inl masked ↦ elim (Bool-cases (m.occur ev.type)) [
      | inl there ↦ rw (masked, there) (subst Short (sym e) (h.valid, rw i.0 (omega arith)), refl)
      | inr fresh ↦ rw (masked, fresh) (ins-Short ev q h.valid i.0, refl)
    ]
    | inr free ↦ rw free (ins-Short ev q h.valid i.0, refl)
  ]

  entered-Returns :
      (n : ℕ) (w : Bool) (m : Machine) (u : U)
      → m.state_lock ≡ false
      → rank m.state < suc n
      → Short m.que
      → Returns (handled c k (suc (suc n)) (admitted c w m) u)
  unfolding handled admitted finished
  entered-Returns n w m u e l h =
      subst
        (λ b. Returns (
          handled c k (suc (suc n))
            (if b
              then (queued, if w then record m { thr_queueing_flag = false } else m)
              else (entered, record m { state_lock = true; worker = w }))
            u))
        (sym e)
        (finishes _ (
          loop-Returns n
            (record {
              machine = record m { state_lock = true; worker = w };
              user = u;
              do_ins = false;
            })
            l h))
    where
      finishes : (o : Option (Config U)) → Returns o → Returns (finished c k o)
      finishes none h = h
      finishes (some x) h = tt

  Idle-AtRest : (m : Machine) → AtRest c m → Idle m.que
  Idle-AtRest m r = elim r.drained [
    | inl (e, z) ↦ subst Idle (sym e) tt
    | inr (q, e, x) ↦
        let mirrors : Mirrors m.mask m.occur q = subst (Consistent m.mask m.occur) e r.consistent in
        subst Idle (sym e) (x, mirrors.valid.counted ∙ ap (λ cs. pos (length cs)) x)
  ]

  -- For a class whose state functions and filter send nothing to their own machine and go on at once
  -- only to states of lower rank, `eventHandler` on a machine at rest returns: the rank of its state
  -- and two rounds more are enough.
  pub event_handler-Returns :
      (n : ℕ) (w : Bool) (ev : Event) (m : Machine) (u : U)
      → AtRest c m
      → rank m.state ≤ n
      → Returns (event_handler c k (suc (suc n)) w ev m u)
  unfolding event_handler enter handled ins_event
  event_handler-Returns n w ev m u r l = elim (Bool-cases (c.c_zom m.state)) [
    | inl e ↦ rw e tt
    | inr e ↦
        let put = ins_event_at-Short m.que ev m refl r.consistent (Idle-AtRest m r) in
        let kept = ins_event_at_fields c m.que ev m refl in
        rw e (
          entered-Returns n w (ins_event c ev m).1 u (kept.0 ∙ r.unlocked)
            (subst (λ s. rank s < suc n) (sym put.1) (omega arith)) put.0)
  ]
