-- ===== src/Deferral/Delivery.antt =====
-- tsGC.cpp: what is put in is delivered, once.
use mathlib.Core.Option.{some-injective}
use tiny_state.Prelude.{
  ℕ, suc, ◌+◌, ◌≡◌, refl, sym, ap, subst, ◌∙◌, inl, inr, Bool, true, false, Option, none, some,
  List, [], ◌∷◌, ◌⊎◌, length, if◌then◌else◌, All, arith, Bool-cases,
}
use tiny_state.Prelude.Int.{ℤ, pos, leb_ℤ, eqb_ℤ}
use tiny_state.HalfOrder.{Tree, leaf, node, del, count}
use tiny_state.HalfOrder.Shape.{bit, size, tally, IsBalanced, IsOrdered}
use tiny_state.HalfOrder.Insert.{ins_lem}
use tiny_state.HalfOrder.Delete.{del_lem}
use tiny_state.Deferral.{
  Stage, rests, starts_over, waits_return, delivers_next, Job, Gc, Visit, limit, start, exe, wakeup,
  act_start, act_ret, next_stage, delivered, act_exe, Action, exes, sets_interval, wakes, starts,
  returns, visits, step, then_run, run, rounds,
}

-- the nesting leaves room for a delivery
abbrev pub HasRoom : Visit → Type 0
HasRoom v = leb_ℤ (limit v) v.depth ≡ false

module _ {E : Type 0} where
  -- how many entries of a list satisfy a test
  abbrev pub tallied : (ℤ → Job E → Bool) → List (ℤ × Job E) → ℕ
  tallied p [] = 0
  tallied p (x ∷ xs) = bit (p x.0 x.1) + tallied p xs

  abbrev pub CanRun : Action E → Type 0
  CanRun (visits v) = HasRoom v
  CanRun (exes k x) = Unit
  CanRun (sets_interval i) = Unit
  CanRun wakes = Unit
  CanRun starts = Unit
  CanRun returns = Unit

  pub record Sound (g : Gc E) : Type 0 where
    pub balanced : IsBalanced g.que
    pub ordered : IsOrdered g.que
    pub contents : (p : ℤ → Job E → Bool) → tallied p g.asked ≡ tallied p g.log + tally p g.que

  abbrev Fine : Option (Gc E) → Type 0
  Fine none = ⊥
  Fine (some g) = Sound g

  staged : (s : Stage) (g : Gc E) → Sound g → Sound (record g { stage = s })
  staged s g k = record { balanced = k.balanced; ordered = k.ordered; contents = k.contents }

  exe-Fine : (k : ℤ) (x : Job E) (g : Gc E) → Sound g → Fine (exe k x g)
  unfolding exe
  exe-Fine k x g s =
      let (t, e, i) = ins_lem k x g.que s.balanced s.ordered in
      rw e (record {
        balanced = i.balanced;
        ordered = i.ordered;
        contents = λ p. omega (arith, s.contents p, i.contents p);
      })

  -- a delivery takes one job, if there is one
  delivered_lem :
      (v : Visit) (q : Tree (Job E)) (g : Gc E)
      → g.que ≡ q
      → Sound g
      → (h : Gc E) × (delivered v (del q) g ≡ some h)
        × Sound h
        × ((size q ≡ 0) ⊎ (size q ≡ suc (size h.que)))
        × (h.asked ≡ g.asked)
  unfolding del
  delivered_lem v leaf g e s = (
    record g { que = leaf; stage = starts_over },
    refl,
    record {
      balanced = tt;
      ordered = tt;
      contents = λ p. s.contents p ∙ ap (λ t. tallied p g.log + tally p t) e;
    },
    inl refl,
    refl,
  )
  delivered_lem v (node j y c l r) g e s =
      let (t, f, d) =
        del_lem j y c l r (subst IsBalanced e s.balanced) (subst IsOrdered e s.ordered) in
      (
        record g { que = t; stage = next_stage v g.budget_us; log = (j, y) ∷ g.log },
        ap (λ o. delivered v o g) f,
        record {
          balanced = d.balanced;
          ordered = d.ordered;
          contents = λ p. omega (arith, s.contents p, ap (tally p) e, d.contents p);
        },
        inr (omega (arith, sized (node j y c l r), d.contents all, sized t)),
        refl,
      )
    where
      all : ℤ → Job E → Bool
      all k x = true

      sized : (u : Tree (Job E)) → size u ≡ tally all u
      sized leaf = refl
      sized (node j' y' c' l' r') = omega (arith, sized l', sized r')

  visit_lem : (s : Stage) (v : Visit) (g : Gc E) → HasRoom v → Sound g → Fine (act_exe s v g)
  unfolding act_exe
  visit_lem rests v g r k = k
  visit_lem starts_over v g r k = k
  visit_lem waits_return v g r k = k
  visit_lem delivers_next v g r k =
      let (h, e, s, z, a) = delivered_lem v g.que g refl k in rw (r, e) s

  started-Sound : (s : Stage) (g : Gc E) → Sound g → Sound (act_start s g)
  unfolding act_start
  started-Sound rests g k = k
  started-Sound waits_return g k = k
  started-Sound delivers_next g k = k
  started-Sound starts_over g k = elim (Bool-cases (eqb_ℤ (count g.que) (pos 0))) [
    | inl e ↦ rw e (staged rests g k)
    | inr e ↦ rw e (staged waits_return g k)
  ]

  woken-Sound : (s : Stage) (g : Gc E) → Sound g → Sound (wakeup s g)
  unfolding wakeup
  woken-Sound rests g k = staged starts_over g k
  woken-Sound starts_over g k = k
  woken-Sound waits_return g k = k
  woken-Sound delivers_next g k = k

  returned-Sound : (s : Stage) (g : Gc E) → Sound g → Sound (act_ret s g)
  unfolding act_ret
  returned-Sound rests g k = k
  returned-Sound starts_over g k = k
  returned-Sound delivers_next g k = k
  returned-Sound waits_return g k = staged delivers_next g k

  step-Fine : (a : Action E) (g : Gc E) → CanRun a → Sound g → Fine (step a g)
  unfolding step
  step-Fine (exes k x) g c s = exe-Fine k x g s
  step-Fine (sets_interval i) g c s = record {
    balanced = s.balanced;
    ordered = s.ordered;
    contents = s.contents;
  }
  step-Fine wakes g c s = woken-Sound g.stage g s
  step-Fine starts g c s = started-Sound g.stage g s
  step-Fine returns g c s = returned-Sound g.stage g s
  step-Fine (visits v) g c s = visit_lem g.stage v g c s

  fine : (o : Option (Gc E)) → Fine o → (g : Gc E) × (o ≡ some g) × Sound g
  fine none f = absurd f
  fine (some g) f = (g, refl, f)

  run-Sound :
      (actions : List (Action E)) (g : Gc E)
      → All CanRun actions
      → Sound g
      → (h : Gc E) × (run actions g ≡ some h) × Sound h
  unfolding run
  run-Sound [] g c s = (g, refl, s)
  run-Sound (a ∷ as') g c s =
      let (h, e, t) = fine (step a g) (step-Fine a g c.0 s) in
      let (i, f, u) = run-Sound as' h c.1 t in (i, ap (λ o. then_run o (λ x. run as' x)) e ∙ f, u)

  -- what a wake-up, `ACT_START` and `ACT_RET` make of a machine with a job
  abbrev prepared : Stage → Gc E → Gc E
  prepared s g = let a = wakeup s g in let b = act_start a.stage a in act_ret b.stage b

  abbrev gc : Tree (Job E) → ℤ → Stage → List (ℤ × Job E) → List (ℤ × Job E) → Gc E
  gc q b s a l = record { que = q; budget_us = b; stage = s; asked = a; log = l }

  prepared_lem :
      (q : Tree (Job E)) (b : ℤ) (s : Stage) (a l : List (ℤ × Job E))
      → eqb_ℤ (count q) (pos 0) ≡ false
      → prepared s (gc q b s a l) ≡ gc q b delivers_next a l
  unfolding wakeup act_start act_ret
  prepared_lem q b rests a l n =
      ap
        (λ c.
          let h = (if c then gc q b rests a l else gc q b waits_return a l) in act_ret h.stage h)
        n
  prepared_lem q b starts_over a l n =
      ap
        (λ c.
          let h = (if c then gc q b rests a l else gc q b waits_return a l) in act_ret h.stage h)
        n
  prepared_lem q b waits_return a l n = refl
  prepared_lem q b delivers_next a l n = refl

  counted :
      (n : ℕ) (t : Tree (Job E)) → IsBalanced t → size t ≡ suc n → eqb_ℤ (count t) (pos 0) ≡ false
  unfolding count
  counted n leaf b e = absurd (omega (arith, e))
  counted n (node j y c l r) b e = rw b.0 (ground arith)

  round_lem :
      (v : Visit) (n : ℕ) (g : Gc E)
      → HasRoom v
      → Sound g
      → size g.que ≡ suc n
      → (h : Gc E) × (act_exe (prepared g.stage g).stage v (prepared g.stage g) ≡ some h)
        × Sound h
        × (n ≡ size h.que)
        × (h.asked ≡ g.asked)
  unfolding act_exe
  round_lem v n g r s z =
      let (h, e, t, d, a) =
        delivered_lem v g.que (record g { stage = delivers_next }) refl
          (staged delivers_next g s) in
      (
        h,
        ap (λ x. act_exe x.stage v x)
              (prepared_lem g.que g.budget_us g.stage g.asked g.log (counted n g.que s.balanced z))
            ∙ ap
                (λ c.
                  if c then none else delivered v (del g.que) (record g { stage = delivers_next }))
                r
            ∙ e,
        t,
        fewer d,
        a,
      )
    where
      fewer : {m : ℕ} → (size g.que ≡ 0) ⊎ (size g.que ≡ suc m) → n ≡ m
      fewer (inl o) = absurd (omega (arith, o, z))
      fewer (inr o) = omega (arith, o, z)

  drain :
      (vs : List Visit) (g : Gc E)
      → All HasRoom vs
      → Sound g
      → length vs ≡ size g.que
      → (h : Gc E) × (run (rounds vs) g ≡ some h) × Sound h × (size h.que ≡ 0) × (h.asked ≡ g.asked)
  unfolding run step
  drain [] g r s z = (g, refl, s, sym z, refl)
  drain (v ∷ vs) g r s z =
      let (h, e, t, d, a) = round_lem v (length vs) g r.0 s (sym z) in
      let (i, f, u, o, b) = drain vs h r.1 t d in
      (i, ap (λ q. then_run q (λ x. run (rounds vs) x)) e ∙ f, u, o, b ∙ a)

  empty_tally : (p : ℤ → Job E → Bool) (t : Tree (Job E)) → size t ≡ 0 → tally p t ≡ 0
  empty_tally p leaf e = refl
  empty_tally p (node j y c l r) e = absurd (omega (arith, e))

  start-Sound : Sound start
  unfolding start
  start-Sound = record { balanced = tt; ordered = tt; contents = λ p. refl }

  -- In any history of calls of exe and interval, wake-ups, returns of the timer and visits to ACT_EXE in
  -- which the nesting leaves room for a delivery, nothing panics, and what was put in is what was
  -- delivered and what still waits, each as often.
  pub run-Delivered :
      (actions : List (Action E))
      → All CanRun actions
      → (g : Gc E) × (run actions start ≡ some g)
        × ((p : ℤ → Job E → Bool) → tallied p g.asked ≡ tallied p g.log + tally p g.que)
  run-Delivered actions c =
      let (g, e, s) = run-Sound actions start c start-Sound in (g, e, s.contents)

  -- After any such history, as many rounds of a wake-up, a return of the timer and a visit with room for
  -- a delivery as jobs still wait end without a panic with every job delivered that was ever put in, as
  -- often as it was, whatever the clock and the budget say.
  pub rounds-drain :
      (actions : List (Action E)) (g : Gc E) (vs : List Visit)
      → All CanRun actions
      → run actions start ≡ some g
      → All HasRoom vs
      → length vs ≡ size g.que
      → (h : Gc E) × (run (rounds vs) g ≡ some h)
        × (h.asked ≡ g.asked)
        × ((p : ℤ → Job E → Bool) → tallied p g.asked ≡ tallied p h.log)
  rounds-drain actions g vs c e r z =
      let (g', e', s) = run-Sound actions start c start-Sound in
      let (h, f, t, o, a) = drain vs g r (subst Sound (some-injective _ _ (sym e' ∙ e)) s) z in
      (h, f, a, λ p. omega (arith, ap (tallied p) a, t.contents p, empty_tally p h.que o))
