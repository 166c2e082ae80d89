-- ===== src/Collector/Keeps.antt =====
-- stdObject.cpp: every action keeps the counts, and none ends in a panic.
use tiny_state.Prelude.{
  ℕ, zero, suc, ◌+◌, ◌<◌, ◌≡◌, refl, subst, ◌∙◌, true, Option, none, some, update, arith,
}
use tiny_state.Collector.{World, addref_at, created, dropped, is_referred}
use tiny_state.Collector.Counts.{
  Counts, waits, tokens, Sound, Counts-cong, split-Counted, update_same, update_other, Fine,
  relref-Fine,
}

pub addref_at-Sound :
    (o : Option ℕ) (x : ℕ) (w : World)
    → w.ref x ≡ o
    → Sound w
    → is_referred o ≡ true
    → Sound (addref_at o x w)
unfolding addref_at
addref_at-Sound none x w e s f = s
addref_at-Sound (some zero) x w e s f = absurd (cc f)
addref_at-Sound (some (suc r)) x w e s f = record {
  counts =
      split-Counted x v
        (Counts-cong (update_same x (some (suc (suc r))) w.ref)
          (update_same x (suc (w.held x)) w.held) refl refl
          (omega (arith, here.0), here.1 ∙ ground arith))
        (λ y g.
          Counts-cong (update_other x y (some (suc (suc r))) w.ref g)
            (update_other x y (suc (w.held x)) w.held g) refl refl (s.counts y));
  list_placed = s.list_placed;
  event_placed = s.event_placed;
}
  where
    v : World
    v = record w {
      ref = update x (some (suc (suc r))) w.ref;
      held = update x (suc (w.held x)) w.held;
    }

    here : Counts (some (suc r)) (w.held x) (waits x w) (tokens x w)
    here = subst (λ o. Counts o (w.held x) (waits x w) (tokens x w)) e (s.counts x)

pub created-Sound :
    (o : Option ℕ) (x n : ℕ) (w : World) → w.ref x ≡ o → Sound w → Sound (created o x n w)
created-Sound (some r) x n w e s = s
created-Sound none x n w e s = record {
  counts =
      split-Counted x v
        (Counts-cong (update_same x (some 1) w.ref) (update_same x 1 w.held) refl refl
          (omega (arith, here.0, here.2), here.1))
        (λ y g.
          Counts-cong (update_other x y (some 1) w.ref g) (update_other x y 1 w.held g) refl refl
            (s.counts y));
  list_placed = s.list_placed;
  event_placed = s.event_placed;
}
  where
    v : World
    v = record w {
      ref = update x (some 1) w.ref;
      watch = update x n w.watch;
      held = update x 1 w.held;
    }

    here : Counts none (w.held x) (waits x w) (tokens x w)
    here = subst (λ o. Counts o (w.held x) (waits x w) (tokens x w)) e (s.counts x)

-- an object that something refers to
pub owed_by :
    (o : Option ℕ) (h p t : ℕ)
    → Counts o h p t
    → 0 < h + t
    → (n : ℕ) × (o ≡ some (suc n)) × (suc n ≡ h + t) × (p ≡ 0)
owed_by none h p t c l = absurd (omega (arith, c.0, c.2, l))
owed_by (some zero) h p t c l = absurd (omega (arith, c.0, l))
owed_by (some (suc n)) h p t c l = (n, refl, c.0, c.1 ∙ ground arith)

pub dropped-Fine : (h x : ℕ) (w : World) → w.held x ≡ h → Sound w → Fine (dropped h x w)
unfolding dropped
dropped-Fine zero x w e s = s
dropped-Fine (suc h) x w e s =
    let (n, r, q, p) =
      owed_by (w.ref x) (w.held x) (waits x w) (tokens x w) (s.counts x) (omega (arith, e)) in
    relref-Fine x n (record w { held = update x h w.held })
      (record {
        counted = r;
        owed = ground (arith, q, e, update_same x h w.held);
        waits_not = p;
        others = λ y g. Counts-cong refl (update_other x y h w.held g) refl refl (s.counts y);
        list_placed = s.list_placed;
        event_placed = s.event_placed;
      })
