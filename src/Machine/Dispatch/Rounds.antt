-- ===== src/Machine/Dispatch/Rounds.antt =====
-- tinyState.cpp: the loops of `eventHandler` and what they leave.
use tiny_state.Prelude.{
  ℕ, zero, suc, ◌≡◌, ◌≢◌, ◌⊎◌, inl, inr, refl, sym, ap, subst, ◌∙◌, Bool, true, false, Option, none,
  some, ◌==◌, ==_iff, ==_refl, if◌then◌else◌, Bool-cases,
}
use tiny_state.Machine.{Event, Table, Machine, del_event, invoke_check}
use tiny_state.Machine.Dispatch.{
  returns, Request, request, is_zom, arrive_all, closed, Ran, Class, Config, after, call, hand_over,
  mtx_set, evaluate, evaluate_at, move_to, go_on, chain, is_idle, pause, settle, filtered, serve,
  fetched, loop,
}
use tiny_state.Machine.Dispatch.Inside.{OnSome, Inside, del_event-Inside, arrive_all-Inside}

-- What is documented of a derived class: the function that closes the machine is
-- `ZOM_TINYSTATE_LAST2`, which returns `ZOM`.
pub record IsDerived {ℓ} {U : Type ℓ} (c : Table) (k : Class U) : Type ℓ where
  pub zom_real : c.zom ≢ 0
  pub zom_class : c.c_zom c.zom ≡ true
  pub closes_last :
      (s : ℕ) (f : Event → Machine → U → Ran U) (ev : Event) (m : Machine) (u : U)
      → k.func s ≡ some f
      → (f ev m u).closes ≡ true
      → (f ev m u).reply ≡ returns false c.zom

module _ {ℓ} {U : Type ℓ} (c : Table) (k : Class U) (derived : IsDerived c k) where
  -- what one round of the innermost loop leaves: an open machine, or a closed one on its way to `ZOM`
  abbrev pub Rounds : Request × Config U → Type 0
  Rounds (r, g) =
      Inside g.machine
      ⊎ ((r ≡ record { redo = false; target = c.zom })
          × (g.machine.state_lock ≡ true)
          × (g.machine.que ≡ none))

  ended :
      (b : Bool) (r : Request) (m : Machine) (u : U) (d : Bool)
      → (b ≡ true → r ≡ record { redo = false; target = c.zom })
      → Inside m
      → Rounds (r, record { machine = if b then closed m else m; user = u; do_ins = d })
  unfolding closed
  ended true r m u d h i = inr (h refl, i.locked, refl)
  ended false r m u d h i = inl i

  call-Rounds :
      (s : ℕ) (f : Event → Machine → U → Ran U) (ev : Event) (g : Config U)
      → k.func s ≡ some f
      → Inside g.machine
      → Rounds (call c k f ev g)
  unfolding call after request
  call-Rounds s f ev g e h =
      let r = f ev g.machine g.user in
      ended r.closes (request c r.reply) (arrive_all c r.arrived g.machine) r.user g.do_ins
        (λ b. ap (request c) (derived.closes_last s f ev g.machine g.user e b))
        (arrive_all-Inside c r.arrived g.machine h)

  hand_over-Rounds : (g : Config U) → Inside g.machine → Rounds (hand_over c k g)
  unfolding hand_over
  hand_over-Rounds g h = inl (claimed g.machine.thr_queueing_flag)
    where
      claimed :
          (b : Bool)
          → Inside
              (if b then g else record g {
                machine = record g.machine { thr_queueing_flag = true };
                do_ins = true;
              }).machine
      claimed true = h
      claimed false = record { locked = h.locked; consistent = h.consistent; alive = h.alive }

  mtx_set-Inside : (b : Bool) (m : Machine) → Inside m → Inside (mtx_set c k b m)
  mtx_set-Inside b m h = record { locked = h.locked; consistent = h.consistent; alive = h.alive }

  evaluate_at-Rounds :
      (o : Option (Event → Machine → U → Ran U)) (ev : Event) (g : Config U)
      → k.func g.machine.state ≡ o
      → Inside g.machine
      → Rounds (evaluate_at c k o ev g)
  unfolding evaluate_at
  evaluate_at-Rounds none ev g e h = inl h
  evaluate_at-Rounds (some f) ev g e h = by_thread (c.c_thr g.machine.state) g.machine.worker
    where
      with_mtx :
          (b : Bool) → Rounds (call c k f ev (record g { machine = mtx_set c k b g.machine }))
      with_mtx b =
          call-Rounds g.machine.state f ev (record g { machine = mtx_set c k b g.machine }) e
            (mtx_set-Inside b g.machine h)

      by_thread :
          (t w : Bool)
          → Rounds (
              if t
              then (if w
                  then call c k f ev (record g { machine = mtx_set c k false g.machine })
                  else hand_over c k g)
              else call c k f ev (record g { machine = mtx_set c k true g.machine }))
      by_thread true true = with_mtx false
      by_thread true false = hand_over-Rounds g h
      by_thread false w = with_mtx true

  invoke_check-Inside : (s : ℕ) (m : Machine) → Inside m → Inside (invoke_check c s m)
  unfolding invoke_check
  invoke_check-Inside s m h = elim (Bool-cases (s == 0)) [
    | inl e ↦ rw e h
    | inr e ↦ elim (Bool-cases (m.state == s)) [
      | inl f ↦ rw (e, f) h
      | inr f ↦ rw (e, f) (record { locked = h.locked; consistent = h.consistent; alive = h.alive })
    ]
  ]

  go_on-Rounds :
      (again : Config U → Option (Request × Config U)) (r : Request × Config U)
      → ((g : Config U) → Inside g.machine → OnSome Rounds (again g))
      → Rounds r
      → OnSome Rounds (go_on c k again r)
  unfolding go_on move_to
  go_on-Rounds again (r, g) ok (inl i) = elim (Bool-cases r.redo) [
    | inl e ↦ rw e (ok (move_to c k r.target g) (invoke_check-Inside r.target g.machine i))
    | inr e ↦
        subst (λ b. OnSome Rounds (if b then again (move_to c k r.target g) else some (r, g)))
          (sym e) (inl i)
  ]
  go_on-Rounds again (r, g) ok (inr (z, l, d)) =
      let e : r.redo ≡ false = ap (λ (x : Request). x.redo) z in
      subst (λ b. OnSome Rounds (if b then again (move_to c k r.target g) else some (r, g))) (sym e)
        (inr (z, l, d))

  chain-Rounds :
      (n : ℕ) (ev : Event) (g : Config U) → Inside g.machine → OnSome Rounds (chain c k n ev g)
  unfolding chain evaluate
  chain-Rounds zero ev g h = tt
  chain-Rounds (suc n) ev g h =
      go_on-Rounds (chain c k n ev) (evaluate_at c k (k.func g.machine.state) ev g)
        (λ g' i. chain-Rounds n ev g' i) (evaluate_at-Rounds (k.func g.machine.state) ev g refl h)

  -- what the outer loops leave
  abbrev pub Done : Config U → Type 0
  Done g =
      (Inside g.machine × (is_idle c k g.machine.que ≡ true))
      ⊎ ((g.machine.state_lock ≡ true) × (g.machine.que ≡ none) × (g.machine.state ≡ c.zom))

  abbrev pub Goes : (Config U → Option (Config U)) → Type ℓ
  Goes again = (g : Config U) → Inside g.machine → OnSome Done (again g)

  pause-Done :
      (again : Config U → Option (Config U)) (g : Config U)
      → Goes again
      → Inside g.machine
      → OnSome Done (pause c k again g)
  unfolding pause
  pause-Done again g ok h = elim (Bool-cases (is_idle c k g.machine.que)) [
    | inl e ↦ rw e (inl (h, e))
    | inr e ↦ rw e (ok g h)
  ]

  pub invoke_check_fields :
      (s : ℕ) (m : Machine)
      → s ≢ 0
      → let n = invoke_check c s m in
        (n.state_lock ≡ m.state_lock) × (n.que ≡ m.que) × (n.state ≡ s)
  unfolding invoke_check
  invoke_check_fields s m r = elim (Bool-cases (s == 0)) [
    | inl e ↦ absurd (r ((==_iff s 0).0 e))
    | inr e ↦ elim (Bool-cases (m.state == s)) [
      | inl f ↦ rw (e, f) (refl, refl, (==_iff m.state s).0 f)
      | inr f ↦ rw (e, f) (refl, refl, refl)
    ]
  ]

  gone :
      (again : Config U → Option (Config U)) (g : Config U)
      → g.machine.que ≡ none
      → g.machine.state_lock ≡ true
      → g.machine.state ≡ c.zom
      → OnSome Done (pause c k again g)
  unfolding pause
  gone again g d l z =
      subst (λ o. OnSome Done (if is_idle c k o then some g else again g)) (sym d) (inr (l, d, z))

  settle-Done :
      (again : Config U → Option (Config U)) (o : Option (Request × Config U))
      → Goes again
      → OnSome Rounds o
      → OnSome Done (settle c k again o)
  unfolding settle
  settle-Done again none ok h = tt
  settle-Done again (some (r, g)) ok (inl i) = elim (Bool-cases (is_zom c r)) [
    | inl e ↦
        rw e
          (pause-Done again (move_to c k r.target g) ok (invoke_check-Inside r.target g.machine i))
    | inr e ↦ rw e (ok (move_to c k r.target g) (invoke_check-Inside r.target g.machine i))
  ]
  settle-Done again (some (r, g)) ok (inr (z, l, d)) =
      let kept = invoke_check_fields c.zom g.machine derived.zom_real in
      subst (λ x. OnSome Done (settle c k again (some (x, g)))) (sym z)
        (rw (==_refl c.zom) (gone again (move_to c k c.zom g) (kept.1 ∙ d) (kept.0 ∙ l) kept.2))

  filtered-Inside :
      (ev : Event) (g : Config U) → Inside g.machine → Inside (filtered c k ev g).1.machine
  unfolding filtered
  filtered-Inside ev g h = by_filter g.machine.filter_lock
    where
      by_filter :
          (b : Bool)
          → Inside
              (if◌then◌else◌ {A = Option Event × Config U} b
                (let (o, as', u) = k.filter ev g.machine g.user in
                  (o, record g { machine = arrive_all c as' g.machine; user = u }))
                (some ev, g)).1.machine
      by_filter true = arrive_all-Inside c (k.filter ev g.machine g.user).1 g.machine h
      by_filter false = h

  serve-Done :
      (n : ℕ) (again : Config U → Option (Config U)) (r : Option Event × Config U)
      → Goes again
      → Inside r.1.machine
      → OnSome Done (serve c k n again r)
  unfolding serve
  serve-Done n again (none, g) ok h = pause-Done again g ok h
  serve-Done n again (some ev, g) ok h =
      settle-Done again (chain c k n ev g) ok (chain-Rounds n ev g h)

  fetched-Done :
      (n : ℕ) (again : Config U → Option (Config U)) (r : Option Event × Machine) (g : Config U)
      → Goes again
      → Inside r.1
      → OnSome Done (fetched c k n again r g)
  unfolding fetched
  fetched-Done n again (none, m) g ok h = pause-Done again (record g { machine = m }) ok h
  fetched-Done n again (some ev, m) g ok h =
      let g' = record g { machine = m } in
      serve-Done n again (filtered c k ev g') ok (filtered-Inside ev g' h)

  pub loop-Done : (n : ℕ) → Goes (loop c k n)
  unfolding loop
  loop-Done zero g h = tt
  loop-Done (suc n) g h =
      fetched-Done n (loop c k n) (del_event g.machine) g (loop-Done n)
        (del_event-Inside g.machine h)
