-- ===== src/Machine/Dispatch/Descent.antt =====
-- tinyState.cpp: that the innermost loop of `eventHandler` ends.
use tiny_state.Prelude.{
  ℕ, zero, suc, ◌<◌, ◌≡◌, ◌≢◌, inl, inr, refl, sym, subst, ◌∙◌, Bool, true, false, Option, none,
  some, [], ◌==◌, if◌then◌else◌, Bool-cases, arith,
}
use tiny_state.Prelude.Int.{pos}
use tiny_state.Queue.{Queue}
use tiny_state.Machine.{Event, Table, Machine, invoke_check}
use tiny_state.Machine.Dispatch.{
  Request, request, arrive_all, closed, Ran, Class, Config, after, call, hand_over, mtx_set,
  evaluate, evaluate_at, move_to, go_on, chain,
}
use tiny_state.Machine.Dispatch.Rounds.{IsDerived, invoke_check_fields}

abbrev pub Yields {ℓ} : {A : Type ℓ} → (A → Type 0) → Option A → Type 0
Yields P none = ⊥
Yields P (some a) = P a

-- the state that a request goes on to at once has a lower rank
abbrev pub Descends : (ℕ → ℕ) → ℕ → Request → Type 0
Descends rank s r = r.redo ≡ true → (r.target ≢ 0) × (rank r.target < rank s)

-- A class whose state functions and filter send nothing to their own machine, and go on at once only
-- to states of lower rank, `ERR_START` included.
pub record Descending {ℓ} {U : Type ℓ} (c : Table) (k : Class U) (rank : ℕ → ℕ) : Type ℓ where
  pub silent :
      (s : ℕ) (f : Event → Machine → U → Ran U) (ev : Event) (m : Machine) (u : U)
      → k.func s ≡ some f
      → (f ev m u).arrived ≡ []
  pub filter_silent : (ev : Event) (m : Machine) (u : U) → (k.filter ev m u).1 ≡ []
  pub descends :
      (s : ℕ) (f : Event → Machine → U → Ran U) (ev : Event) (m : Machine) (u : U)
      → k.func s ≡ some f
      → Descends rank s (request c (f ev m u).reply)
  pub undefined : (s : ℕ) → k.func s ≡ none → (c.err_start ≢ 0) × (rank c.err_start < rank s)

-- no event waits
abbrev pub Idle : Option (Queue Event) → Type 0
Idle none = Unit
Idle (some q) = (q.chain ≡ []) × (q.count ≡ pos 0)

module _ {ℓ} {U : Type ℓ} (c : Table) (k : Class U) (derived : IsDerived c k) (rank : ℕ → ℕ)
    (d : Descending c k rank) where
  -- what one round leaves
  abbrev Left : ℕ → Request × Config U → Type 0
  Left s (r, g) = Idle g.machine.que × (g.machine.state ≡ s) × Descends rank s r

  after_lem :
      (b : Bool) (m : Machine)
      → Idle m.que
      → let n = if b then closed m else m in Idle n.que × (n.state ≡ m.state)
  unfolding closed
  after_lem true m h = (tt, refl)
  after_lem false m h = (h, refl)

  call-Left :
      (s : ℕ) (f : Event → Machine → U → Ran U) (ev : Event) (g : Config U)
      → k.func s ≡ some f
      → g.machine.state ≡ s
      → Idle g.machine.que
      → Left s (call c k f ev g)
  unfolding call after arrive_all
  call-Left s f ev g e z h =
      let r = f ev g.machine g.user in
      subst
        (λ as'. Left s (
          request c r.reply,
          record g {
            machine =
                if r.closes
                then closed (arrive_all c as' g.machine)
                else arrive_all c as' g.machine;
            user = r.user;
          },
        ))
        (sym (d.silent s f ev g.machine g.user e))
        (let kept = after_lem r.closes g.machine h in
          (kept.0, kept.1 ∙ z, d.descends s f ev g.machine g.user e))

  hand_over-Left :
      (s : ℕ) (g : Config U) → g.machine.state ≡ s → Idle g.machine.que → Left s (hand_over c k g)
  unfolding hand_over
  hand_over-Left s g z h = claimed g.machine.thr_queueing_flag
    where
      claimed :
          (b : Bool)
          → let n =
              (if◌then◌else◌ {A = Config U} b g (record g {
                machine = record g.machine { thr_queueing_flag = true };
                do_ins = true;
              })).machine in
            Idle n.que × (n.state ≡ s) × Descends rank s (record { redo = false; target = 0 })
      claimed true = (h, z, λ e. cc e)
      claimed false = (h, z, λ e. cc e)

  evaluate_at-Left :
      (s : ℕ) (o : Option (Event → Machine → U → Ran U)) (ev : Event) (g : Config U)
      → k.func s ≡ o
      → g.machine.state ≡ s
      → Idle g.machine.que
      → Left s (evaluate_at c k o ev g)
  unfolding evaluate_at
  evaluate_at-Left s none ev g e z h = (h, z, λ b. d.undefined s e)
  evaluate_at-Left s (some f) ev g e z h = by_thread (c.c_thr g.machine.state) g.machine.worker
    where
      with_mtx :
          (b : Bool) → Left s (call c k f ev (record g { machine = mtx_set c k b g.machine }))
      with_mtx b = call-Left s f ev (record g { machine = mtx_set c k b g.machine }) e z h

      by_thread :
          (t w : Bool)
          → Left s (
              if t
              then (if w
                  then call c k f ev (record g { machine = mtx_set c k false g.machine })
                  else hand_over c k g)
              else call c k f ev (record g { machine = mtx_set c k true g.machine }))
      by_thread true true = with_mtx false
      by_thread true false = hand_over-Left s g z h
      by_thread false w = with_mtx true

  pub que-invoke_check : (s : ℕ) (m : Machine) → Idle m.que → Idle (invoke_check c s m).que
  unfolding invoke_check
  que-invoke_check s m h = elim (Bool-cases (s == 0)) [
    | inl e ↦ rw e h
    | inr e ↦ elim (Bool-cases (m.state == s)) [ inl f ↦ rw (e, f) h | inr f ↦ rw (e, f) h ]
  ]

  abbrev pub Quiet : Request × Config U → Type 0
  Quiet r = Idle r.1.machine.que

  go_on-Yields :
      (n s : ℕ) (again : Config U → Option (Request × Config U)) (r : Request × Config U)
      → ((g : Config U) → rank g.machine.state < n → Idle g.machine.que → Yields Quiet (again g))
      → rank s < suc n
      → Left s r
      → Yields Quiet (go_on c k again r)
  unfolding go_on move_to
  go_on-Yields n s again (r, g) ok l (h, z, down) = elim (Bool-cases r.redo) [
    | inl e ↦
        let (real, less) = down e in
        let there = invoke_check_fields c k derived r.target g.machine real in
        rw e (
          ok (move_to c k r.target g) (subst (λ t. rank t < n) (sym there.2) (omega arith))
            (que-invoke_check r.target g.machine h))
    | inr e ↦
        subst (λ b. Yields Quiet (if b then again (move_to c k r.target g) else some (r, g)))
          (sym e) h
  ]

  pub chain-Yields :
      (n : ℕ) (ev : Event) (g : Config U)
      → rank g.machine.state < n
      → Idle g.machine.que
      → Yields Quiet (chain c k n ev g)
  unfolding chain evaluate
  chain-Yields zero ev g l h = absurd (omega arith)
  chain-Yields (suc n) ev g l h =
      go_on-Yields n g.machine.state (chain c k n ev)
        (evaluate_at c k (k.func g.machine.state) ev g) (λ g' l' h'. chain-Yields n ev g' l' h') l
        (evaluate_at-Left g.machine.state (k.func g.machine.state) ev g refl refl h)
