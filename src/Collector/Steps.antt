-- ===== src/Collector/Steps.antt =====
-- stdObject.cpp: every step of the collector keeps the counts, and none ends in a panic.
use tiny_state.Prelude.{
  ℕ, zero, suc, ◌+◌, ◌<◌, ◌*◌, ◌-◌, ◌/◌, ◌≡◌, refl, sym, ap, ◌∙◌, inl, inr, Bool, true, false,
  Option, none, some, List, [], ◌∷◌, ◌++◌, map, ◌==◌, ==_iff, ==_refl, if◌then◌else◌, update, arith,
  Bool-cases,
}
use tiny_state.Collector.{
  Task, sweep, deletes, raises, World, bucket, relref, climb, addref, when_flagged, swept,
  deleted_at, is_stable, collect, Action, creates, copies, drops, disarms, climbs, collects, step,
  is_referred, within, without_one,
}
use tiny_state.Collector.Counts.{
  times, deletions, events, deletions_of, deletions_raised, deletions_flagged, events_deleted,
  events_of, events_flagged, Counts, waits, tokens, Placed, Sound, reported-Sound, updated-Placed,
  Counts-cong, split-Counted, update_same, update_other, Fine, relref-Fine,
}
use tiny_state.Collector.Keeps.{addref_at-Sound, created-Sound, owed_by, dropped-Fine}

-- what the first task of the stack counts
deletion_first :
    (x : ℕ) (ts us : List Task) → us ≡ deletes x ∷ ts → deletions x us ≡ suc (deletions x ts)
deletion_first x ts us e =
    ap (deletions x) e ∙ ap (λ c. if c then suc (deletions x ts) else deletions x ts) (==_refl x)

deletion_after :
    (x y : ℕ) (ts us : List Task)
    → us ≡ deletes x ∷ ts
    → (y == x) ≡ false
    → deletions y us ≡ deletions y ts
deletion_after x y ts us e g =
    ap (deletions y) e ∙ ap (λ c. if c then suc (deletions y ts) else deletions y ts) g

event_first : (x : ℕ) (ts us : List Task) → us ≡ raises x ∷ ts → events x us ≡ suc (events x ts)
event_first x ts us e =
    ap (events x) e ∙ ap (λ c. if c then suc (events x ts) else events x ts) (==_refl x)

event_after :
    (x y : ℕ) (ts us : List Task)
    → us ≡ raises x ∷ ts
    → (y == x) ≡ false
    → events y us ≡ events y ts
event_after x y ts us e g =
    ap (events y) e ∙ ap (λ c. if c then suc (events y ts) else events y ts) g

-- an object that the collector is about to delete
dead_by :
    (o : Option ℕ) (h p t : ℕ) → Counts o h p t → 0 < p → (o ≡ some 0) × (h ≡ 0) × (p ≡ 1) × (t ≡ 0)
dead_by none h p t c l = absurd (omega (arith, c.1, l))
dead_by (some zero) h p t c l = (refl, omega (arith, c.0), c.1, omega (arith, c.0))
dead_by (some (suc n)) h p t c l = absurd (ground (arith, c.1, l))

deleted-Fine :
    (x : ℕ) (ts : List Task) (w : World)
    → w.stack ≡ deletes x ∷ ts
    → Sound w
    → Fine (deleted_at (w.ref x) x (record w { stack = ts }))
unfolding deleted_at
deleted-Fine x ts w k s =
    let (r, h, p, t) =
      dead_by (w.ref x) (w.held x) (waits x w) (tokens x w) (s.counts x)
        (omega (arith, deletion_first x ts w.stack k)) in
    rw r (record {
      counts =
          split-Counted x (record w { stack = ts; ref = update x none w.ref })
            (Counts-cong (update_same x none w.ref) refl refl (same x)
              (h, omega (arith, p, deletion_first x ts w.stack k), t))
            (λ y g.
              Counts-cong (update_other x y none w.ref g) refl
                (ap (λ i. times y (w.ref_list (bucket y)) + i)
                  (sym (deletion_after x y ts w.stack k g)))
                (same y) (s.counts y));
      list_placed = s.list_placed;
      event_placed = s.event_placed;
    })
  where
    same : (y : ℕ) → times y (w.ref_event (bucket y)) + events y ts ≡ tokens y w
    same y = ap (λ us. times y (w.ref_event (bucket y)) + events y us) (sym k)

raised-Fine :
    (x : ℕ) (ts : List Task) (w : World)
    → w.stack ≡ raises x ∷ ts
    → Sound w
    → Fine (relref x (record w { stack = ts }))
raised-Fine x ts w k s =
    let (n, r, q, p) =
      owed_by (w.ref x) (w.held x) (waits x w) (tokens x w) (s.counts x)
        (omega (arith, event_first x ts w.stack k)) in
    relref-Fine x n (record w { stack = ts })
      (record {
        counted = r;
        owed = omega (arith, q, event_first x ts w.stack k);
        waits_not = same x ∙ p;
        others = λ y g.
            Counts-cong refl refl (same y)
              (ap (λ i. times y (w.ref_event (bucket y)) + i)
                (sym (event_after x y ts w.stack k g)))
              (s.counts y);
        list_placed = s.list_placed;
        event_placed = s.event_placed;
      })
  where
    same : (y : ℕ) → times y (w.ref_list (bucket y)) + deletions y ts ≡ waits y w
    same y = ap (λ us. times y (w.ref_list (bucket y)) + deletions y us) (sym k)

-- a bucket that is emptied onto the stack
emptied :
    (id x : ℕ) (l : ℕ → List ℕ) (n : ℕ)
    → Placed l
    → times x (update id [] l (bucket x)) + (times x (l id) + n) ≡ times x (l (bucket x)) + n
emptied id x l n k = elim (Bool-cases (bucket x == id)) [
  | inl e ↦ omega (
    arith,
    ap (λ c. times x (if c then [] else l (bucket x))) e,
    ap (λ b. times x (l b)) ((==_iff (bucket x) id).0 e),
  )
  | inr e ↦ omega (
    arith,
    ap (λ c. times x (if c then [] else l (bucket x))) e,
    k id x (λ q. absurd (cc (e, ap (λ b. b == id) (sym q), ==_refl id))),
  )
]

swept_deletions :
    (x id : ℕ) (xs ys : List ℕ) (b c : Bool) (ts : List Task)
    → deletions x (
        map deletes xs
        ++ (map raises ys ++ (when_flagged b (id * 2 + 1) ++ (when_flagged c (id * 2 + 2) ++ ts))))
      ≡ times x xs + deletions x ts
swept_deletions x id xs ys b c ts =
    let us = when_flagged c (id * 2 + 2) ++ ts in
    deletions_of x xs (map raises ys ++ (when_flagged b (id * 2 + 1) ++ us))
    ∙ ap (λ i. times x xs + i)
        (deletions_raised x ys (when_flagged b (id * 2 + 1) ++ us)
          ∙ deletions_flagged x b (id * 2 + 1) us
          ∙ deletions_flagged x c (id * 2 + 2) ts)

swept_events :
    (x id : ℕ) (xs ys : List ℕ) (b c : Bool) (ts : List Task)
    → events x (
        map deletes xs
        ++ (map raises ys ++ (when_flagged b (id * 2 + 1) ++ (when_flagged c (id * 2 + 2) ++ ts))))
      ≡ times x ys + events x ts
swept_events x id xs ys b c ts =
    let us = when_flagged c (id * 2 + 2) ++ ts in
    events_deleted x xs (map raises ys ++ (when_flagged b (id * 2 + 1) ++ us))
    ∙ events_of x ys (when_flagged b (id * 2 + 1) ++ us)
    ∙ ap (λ i. times x ys + i)
        (events_flagged x b (id * 2 + 1) us ∙ events_flagged x c (id * 2 + 2) ts)

swept-Sound :
    (id : ℕ) (ts : List Task) (w : World)
    → w.stack ≡ sweep id ∷ ts
    → Sound w
    → Sound (swept id ts w)
unfolding swept
swept-Sound id ts w k s = record {
  counts = λ x. Counts-cong refl refl (list_kept x) (event_kept x) (s.counts x);
  list_placed = updated-Placed id [] w.ref_list s.list_placed (λ y n. refl);
  event_placed = updated-Placed id [] w.ref_event s.event_placed (λ y n. refl);
}
  where
    b : Bool
    b = w.flagged (id * 2 + 1)

    c : Bool
    c = w.flagged (id * 2 + 2)

    list_kept : (x : ℕ) → waits x (swept id ts w) ≡ waits x w
    list_kept x =
        ap (λ i. times x (update id [] w.ref_list (bucket x)) + i)
          (swept_deletions x id (w.ref_list id) (w.ref_event id) b c ts)
        ∙ emptied id x w.ref_list (deletions x ts) s.list_placed
        ∙ ap (λ us. times x (w.ref_list (bucket x)) + deletions x us) (sym k)

    event_kept : (x : ℕ) → tokens x (swept id ts w) ≡ tokens x w
    event_kept x =
        ap (λ i. times x (update id [] w.ref_event (bucket x)) + i)
          (swept_events x id (w.ref_list id) (w.ref_event id) b c ts)
        ∙ emptied id x w.ref_event (events x ts) s.event_placed
        ∙ ap (λ us. times x (w.ref_event (bucket x)) + events x us) (sym k)

without-Sound :
    (w : World) (l : List ℕ) (f : ℕ → Bool)
    → Sound w
    → Sound (record w { climbing = l; flagged = f })
without-Sound w l f s = record {
  counts = s.counts;
  list_placed = s.list_placed;
  event_placed = s.event_placed;
}

climb-Sound : (id : ℕ) (w : World) → Sound w → Sound (climb id w)
unfolding climb
climb-Sound id w s = elim (Bool-cases (w.flagged id)) [
  | inl e ↦ rw e (without-Sound w (without_one id w.climbing) w.flagged s)
  | inr e ↦ rw e (
      reported-Sound ((id - 1) / 2) _
        (without-Sound w (without_one id w.climbing) (update id true w.flagged) s))
]

collect-Fine : (ts : List Task) (w : World) → w.stack ≡ ts → Sound w → Fine (collect ts w)
unfolding collect
collect-Fine [] w k s = elim (Bool-cases (is_stable w)) [
  | inl e ↦ rw e s
  | inr e ↦ rw e (record {
    counts = λ x.
        Counts-cong refl refl (ap (λ us. times x (w.ref_list (bucket x)) + deletions x us) (sym k))
          (ap (λ us. times x (w.ref_event (bucket x)) + events x us) (sym k)) (s.counts x);
    list_placed = s.list_placed;
    event_placed = s.event_placed;
  })
]
collect-Fine (sweep id ∷ ts) w k s = swept-Sound id ts w k s
collect-Fine (deletes x ∷ ts) w k s = deleted-Fine x ts w k s
collect-Fine (raises x ∷ ts) w k s = raised-Fine x ts w k s

pub step-Fine : (a : Action) (w : World) → Sound w → Fine (step a w)
unfolding step addref
step-Fine (creates x n) w s = created-Sound (w.ref x) x n w refl s
step-Fine (copies x) w s = elim (Bool-cases (is_referred (w.ref x))) [
  | inl e ↦ rw e (addref_at-Sound (w.ref x) x w refl s e)
  | inr e ↦ rw e s
]
step-Fine (drops x) w s = dropped-Fine (w.held x) x w refl s
step-Fine (disarms x) w s = record {
  counts = s.counts;
  list_placed = s.list_placed;
  event_placed = s.event_placed;
}
step-Fine (climbs id) w s = elim (Bool-cases (within id w.climbing)) [
  | inl e ↦ rw e (climb-Sound id w s)
  | inr e ↦ rw e s
]
step-Fine collects w s = collect-Fine w.stack w refl s
