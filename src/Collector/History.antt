-- ===== src/Collector/History.antt =====
-- stdObject.cpp: histories of references, of the calls of `relref` that go up the tree and of the
-- collector's thread, from the beginning of the program.
use mathlib.Core.Option.{some-injective}
use tiny_state.Prelude.{
  ℕ, zero, suc, ◌+◌, ◌-◌, ◌*◌, ◌/◌, ◌≡◌, ◌<◌, refl, sym, ap, ap₂, subst, ◌∙◌, inl, inr, Bool, true,
  false, not, ◌&&◌, Option, none, some, List, [], ◌∷◌, ◌==◌, ==_iff, arith, Bool-cases,
}
use tiny_state.Collector.{
  World, bucket, at_rest, is_stable, is_nil, within, Action, step, then_run, run, start,
}
use tiny_state.Collector.Counts.{
  times, deletions, events, Counts, waits, tokens, Counted, Sound, Fine,
}
use tiny_state.Collector.Steps.{step-Fine}
use tiny_state.Collector.Reports.{
  sweeping, Known, by_rest, by_root, by_flag, by_climb, by_sweep, Reported, Passes,
}
use tiny_state.Collector.Sweeps.{step-Passes}

start-Sound : Sound start
unfolding start
start-Sound = record {
  counts = λ x. (refl, refl, refl);
  list_placed = λ b x n. refl;
  event_placed = λ b x n. refl;
}

start-Reported : Reported start
unfolding start at_rest
start-Reported id = by_rest refl

-- a world that a history leads to
abbrev Good : Option World → Type 0
Good o = (w : World) × (o ≡ some w) × Sound w × Reported w

good : (o : Option World) → Fine o → Passes o → Good o
good none s k = absurd s
good (some w) s k = (w, refl, s, k)

run-Good : (actions : List Action) (w : World) → Sound w → Reported w → Good (run actions w)
unfolding run
run-Good [] w s k = (w, refl, s, k)
run-Good (a ∷ as') w s k =
    let (v, e, t, l) = good (step a w) (step-Fine a w s) (step-Passes a w k) in
    let (u, f, t', l') = run-Good as' v t l in (u, ap (then_run (λ x. run as' x)) e ∙ f, t', l')

-- From the beginning, no history of references that are made, copied and given back by those who have
-- them, of calls of relref that go up the tree and of steps of the collector, in whatever order they
-- interleave, ends in a panic; after it the count of an object is the number of references that the
-- program and the queues of refEvent hold, an object with the count 0 waits for its deletion at exactly
-- one place, no other waits, and nobody refers to an object that is deleted.
pub run-Counted :
    (actions : List Action) → (w : World) × (run actions start ≡ some w) × ((x : ℕ) → Counted w x)
run-Counted actions =
    let (w, e, s, k) = run-Good actions start start-Sound start-Reported in (w, e, s.counts)

rest_parts :
    (l : List ℕ) (a b : Bool) (m : List ℕ)
    → (is_nil l && not a && not b && is_nil m) ≡ true
    → (l ≡ []) × (a ≡ false) × (b ≡ false) × (m ≡ [])
rest_parts [] false false [] e = (refl, refl, refl, refl)
rest_parts [] false false (x ∷ m) e = absurd (cc e)
rest_parts [] false true m e = absurd (cc e)
rest_parts [] true b m e = absurd (cc e)
rest_parts (x ∷ l) a b m e = absurd (cc e)

-- the bit of a bucket whose parent is at rest
no_flag : (id : ℕ) (w : World) → 0 < id → at_rest ((id - 1) / 2) w ≡ true → w.flagged id ≡ false
unfolding at_rest
no_flag id w l e =
    let p = (id - 1) / 2 in
    let (_, a, b, _) =
      rest_parts (w.ref_list p) (w.flagged (p * 2 + 1)) (w.flagged (p * 2 + 2)) (w.ref_event p) e in
    elim (Bool-cases (id == (id - 1) / 2 * 2 + 1)) [
      | inl f ↦ ap w.flagged ((==_iff id ((id - 1) / 2 * 2 + 1)).0 f) ∙ a
      | inr f ↦ ap w.flagged (ground (arith, l, f)) ∙ b
    ]

-- with no call of `relref` under way and the collector idle, work anywhere is work at the root
all_rest :
    (w : World)
    → Reported w
    → w.climbing ≡ []
    → w.stack ≡ []
    → is_stable w ≡ true
    → (n id : ℕ) → id < n
    → at_rest id w ≡ true
unfolding is_stable
all_rest w k c t s zero id l = absurd (omega (arith, l))
all_rest w k c t s (suc n) id l = go (λ j m. all_rest w k c t s n j m) (k id)
  where
    root : id ≡ 0 → at_rest id w ≡ true
    root e = ap (λ i. at_rest i w) e ∙ s

    go : ((j : ℕ) → j < n → at_rest j w ≡ true) → Known id w → at_rest id w ≡ true
    go deeper (by_rest e) = e
    go deeper (by_root e) = root e
    go deeper (by_climb e) = absurd (cc (e, ap (within id) c))
    go deeper (by_sweep e) = absurd (cc (e, ap (sweeping id) t))
    go deeper (by_flag e) = elim (Bool-cases (id == 0)) [
      | inl z ↦ root ((==_iff id 0).0 z)
      | inr z ↦
          absurd (
            cc (e, no_flag id w (ground (arith, z)) (deeper ((id - 1) / 2) (ground (arith, z, l)))))
    ]

gone : (o : Option ℕ) (h p t : ℕ) → Counts o h p t → h ≡ 0 → p ≡ 0 → t ≡ 0 → o ≡ none
gone none h p t c a b d = refl
gone (some zero) h p t c a b d = absurd (omega (arith, c.1, b))
gone (some (suc n)) h p t c a b d = absurd (omega (arith, c.0, a, d))

unheld :
    (x : ℕ) (w : World)
    → at_rest (bucket x) w ≡ true
    → w.stack ≡ []
    → Counted w x
    → w.held x ≡ 0
    → w.ref x ≡ none
unfolding at_rest
unheld x w r t c h =
    let (l, _, _, m) =
      rest_parts (w.ref_list (bucket x)) (w.flagged (bucket x * 2 + 1))
        (w.flagged (bucket x * 2 + 2)) (w.ref_event (bucket x)) r in
    gone (w.ref x) (w.held x) (waits x w) (tokens x w) c h
      (ap₂ (λ xs ts. times x xs + deletions x ts) l t) (ap₂ (λ xs ts. times x xs + events x ts) m t)

-- After every history of references, of calls of relref and of steps of the collector: when no call of
-- relref is on its way up the tree, the collector's thread is in no call of gc and is_stable answers
-- yes, there is no work in any bucket, and every object to which the program holds no reference is
-- deleted.
pub stable-collected :
    (actions : List Action) (w : World)
    → run actions start ≡ some w
    → w.climbing ≡ []
    → w.stack ≡ []
    → is_stable w ≡ true
    → ((id : ℕ) → at_rest id w ≡ true) × ((x : ℕ) → w.held x ≡ 0 → w.ref x ≡ none)
stable-collected actions w e c t s =
    let (v, f, sound, reported) = run-Good actions start start-Sound start-Reported in
    let same : v ≡ w = some-injective _ _ (sym f ∙ e) in
    let rests : (id : ℕ) → at_rest id w ≡ true =
      λ id. all_rest w (subst Reported same reported) c t s (suc id) id (omega arith) in
    (rests, λ x h. unheld x w (rests (bucket x)) t ((subst Sound same sound).counts x) h)
