-- ===== src/Collector/Sweeps.antt =====
-- stdObject.cpp: every action keeps each bucket with work known.
use tiny_state.Prelude.{
  ℕ, zero, suc, ◌+◌, ◌-◌, ◌*◌, ◌/◌, ◌≡◌, refl, sym, ap, ap₂, subst, ◌∙◌, inl, inr, Bool, true,
  false, not, ◌&&◌, ◌||◌, Option, none, some, List, [], ◌∷◌, ◌++◌, map, ◌==◌, ==_iff, ==_refl,
  if◌then◌else◌, update, arith, Bool-cases,
}
use tiny_state.Collector.Counts.{update_other, update_same}
use tiny_state.Collector.{
  Task, sweep, deletes, raises, World, relref, climb, addref_at, addref, when_flagged, swept,
  deleted_at, is_stable, at_rest, collect, Action, creates, copies, drops, disarms, climbs,
  collects, created, dropped, step, is_referred, within, without_one, is_nil,
}
use tiny_state.Collector.Reports.{
  sweeping, Known, by_rest, by_root, by_flag, by_climb, by_sweep, Reported, Known-imp, or_left,
  or_right, same_rest, reported-Reported, recounted, Passes, relref_at-Passes,
}

within-without :
    (j id : ℕ) (l : List ℕ)
    → (j == id) ≡ false
    → within j l ≡ true
    → within j (without_one id l) ≡ true
within-without j id [] n e = e
within-without j id (i ∷ l) n e = elim (Bool-cases (id == i)) [
  | inl f ↦
      rw f (sym (ap (λ c. c || within j l) (ap (λ z. j == z) (sym ((==_iff id i).0 f)) ∙ n)) ∙ e)
  | inr f ↦ rw f (elim (Bool-cases (j == i)) [
    | inl g ↦ or_left (j == i) (within j (without_one id l)) g
    | inr g ↦
        or_right (j == i) (within j (without_one id l))
          (within-without j id l n (sym (ap (λ c. c || within j l) g) ∙ e))
  ])
]

left_child : (j id : ℕ) → (j == (id - 1) / 2) ≡ false → (j * 2 + 1 == id) ≡ false
left_child j id e = ground arith

right_child : (j id : ℕ) → (j == (id - 1) / 2) ≡ false → (j * 2 + 2 == id) ≡ false
right_child j id e = ground arith

climb-Reported : (id : ℕ) (w : World) → Reported w → Reported (climb id w)
unfolding climb
climb-Reported id w k = elim (Bool-cases (w.flagged id)) [
  | inl e ↦ rw e (λ j. elim (Bool-cases (j == id)) [
    | inl f ↦ by_flag (ap w.flagged ((==_iff j id).0 f) ∙ e)
    | inr f ↦
        Known-imp j w u (same_rest j w u refl refl refl refl) (λ r. r)
          (within-without j id w.climbing f) (λ r. r) (k j)
  ])
  | inr e ↦ rw e (
      reported-Reported ((id - 1) / 2) v (λ j n. elim (Bool-cases (j == id)) [
        | inl f ↦ by_flag (ap (λ c. if c then true else w.flagged j) f)
        | inr f ↦
            Known-imp j w v (rests j n) (λ r. update_other id j true w.flagged f ∙ r)
              (within-without j id w.climbing f) (λ r. r) (k j)
      ]))
]
  where
    u : World
    u = record w { climbing = without_one id w.climbing }

    v : World
    v = record u { flagged = update id true w.flagged }

    rests : (j : ℕ) → (j == (id - 1) / 2) ≡ false → at_rest j w ≡ true → at_rest j v ≡ true
    rests j n =
        same_rest j w v refl refl
          (sym (update_other id (j * 2 + 1) true w.flagged (left_child j id n)))
          (sym (update_other id (j * 2 + 2) true w.flagged (right_child j id n)))

sweeping_right : (j : ℕ) (ts us : List Task) → sweeping j us ≡ true → sweeping j (ts ++ us) ≡ true
sweeping_right j [] us e = e
sweeping_right j (sweep i ∷ ts) us e =
    or_right (j == i) (sweeping j (ts ++ us)) (sweeping_right j ts us e)
sweeping_right j (deletes i ∷ ts) us e = sweeping_right j ts us e
sweeping_right j (raises i ∷ ts) us e = sweeping_right j ts us e

sweeping_flagged :
    (j : ℕ) (b : Bool) (us : List Task) → b ≡ true → sweeping j (when_flagged b j ++ us) ≡ true
sweeping_flagged j true us e = or_left (j == j) (sweeping j us) (==_refl j)
sweeping_flagged j false us e = absurd (cc e)

sweeping_child :
    (j i : ℕ) (f : ℕ → Bool) (us : List Task)
    → (j == i) ≡ true
    → f j ≡ true
    → sweeping j (when_flagged (f i) i ++ us) ≡ true
sweeping_child j i f us e r =
    subst (λ k. sweeping j (when_flagged (f k) k ++ us) ≡ true) ((==_iff j i).0 e)
      (sweeping_flagged j (f j) us r)

empty_rests :
    (j : ℕ) (w : World)
    → w.ref_list j ≡ []
    → w.ref_event j ≡ []
    → w.flagged (j * 2 + 1) ≡ false
    → w.flagged (j * 2 + 2) ≡ false
    → at_rest j w ≡ true
unfolding at_rest
empty_rests j w l e f g =
    ap₂
      (λ xs ys.
        is_nil xs && not (w.flagged (j * 2 + 1)) && not (w.flagged (j * 2 + 2)) && is_nil ys)
      l e
    ∙ ap₂ (λ a b. not a && not b && true) f g

-- the bits of the children of a bucket, once they are cleared
abbrev cleared : ℕ → (ℕ → Bool) → ℕ → Bool
cleared id f = update (id * 2 + 1) false (update (id * 2 + 2) false f)

cleared_own :
    (id : ℕ) (f : ℕ → Bool)
    → (cleared id f (id * 2 + 1) ≡ false) × (cleared id f (id * 2 + 2) ≡ false)
cleared_own id f = ground arith

cleared_other :
    (id j : ℕ) (f : ℕ → Bool)
    → (j == id) ≡ false
    → (f (j * 2 + 1) ≡ cleared id f (j * 2 + 1)) × (f (j * 2 + 2) ≡ cleared id f (j * 2 + 2))
cleared_other id j f n = ground arith

swept-Reported :
    (id : ℕ) (ts : List Task) (w : World)
    → w.stack ≡ sweep id ∷ ts
    → Reported w
    → Reported (swept id ts w)
unfolding swept
swept-Reported id ts w e k j = elim (Bool-cases (j == id)) [
  | inl f ↦ by_rest (
      subst (λ i. at_rest i v ≡ true) (sym ((==_iff j id).0 f))
        (empty_rests id v (update_same id [] w.ref_list) (update_same id [] w.ref_event)
          (cleared_own id w.flagged).0 (cleared_own id w.flagged).1))
  | inr f ↦ go f (k j)
]
  where
    v : World
    v = swept id ts w

    children : List Task
    children =
        when_flagged (w.flagged (id * 2 + 1)) (id * 2 + 1)
        ++ (when_flagged (w.flagged (id * 2 + 2)) (id * 2 + 2) ++ ts)

    deeper : sweeping j children ≡ true → Known j v
    deeper s = by_sweep (
        sweeping_right j (map deletes (w.ref_list id)) (map raises (w.ref_event id) ++ children)
          (sweeping_right j (map raises (w.ref_event id)) children s))

    go : (j == id) ≡ false → Known j w → Known j v
    go f (by_rest r) = by_rest (
        same_rest j w v (sym (update_other id j [] w.ref_list f))
          (sym (update_other id j [] w.ref_event f)) (cleared_other id j w.flagged f).0
          (cleared_other id j w.flagged f).1 r)
    go f (by_root r) = by_root r
    go f (by_climb r) = by_climb r
    go f (by_sweep r) = deeper (
        sweeping_right j (when_flagged (w.flagged (id * 2 + 1)) (id * 2 + 1))
          (when_flagged (w.flagged (id * 2 + 2)) (id * 2 + 2) ++ ts)
          (sweeping_right j (when_flagged (w.flagged (id * 2 + 2)) (id * 2 + 2)) ts
            (sym (ap (λ c. c || sweeping j ts) f) ∙ sym (ap (sweeping j) e) ∙ r)))
    go f (by_flag r) = elim (Bool-cases (j == id * 2 + 1)) [
      | inl g ↦ deeper (
          sweeping_child j (id * 2 + 1) w.flagged
            (when_flagged (w.flagged (id * 2 + 2)) (id * 2 + 2) ++ ts) g r)
      | inr g ↦ elim (Bool-cases (j == id * 2 + 2)) [
        | inl h ↦ deeper (
            sweeping_right j (when_flagged (w.flagged (id * 2 + 1)) (id * 2 + 1))
              (when_flagged (w.flagged (id * 2 + 2)) (id * 2 + 2) ++ ts)
              (sweeping_child j (id * 2 + 2) w.flagged ts h r))
        | inr h ↦ by_flag (
            ap (λ c. if c then false else (if j == id * 2 + 2 then false else w.flagged j)) g
            ∙ ap (λ c. if c then false else w.flagged j) h
            ∙ r)
      ]
    ]

-- a task that sweeps nothing is done
popped :
    (ts : List Task) (f : ℕ → Option ℕ) (w : World)
    → ((j : ℕ) → sweeping j w.stack ≡ true → sweeping j ts ≡ true)
    → Reported w
    → Reported (record w { stack = ts; ref = f })
unfolding at_rest
popped ts f w h k j =
    Known-imp j w (record w { stack = ts; ref = f }) (λ r. r) (λ r. r) (λ r. r) (h j) (k j)

deleted_at-Passes :
    (o : Option ℕ) (x : ℕ) (ts : List Task) (w : World)
    → ((j : ℕ) → sweeping j w.stack ≡ true → sweeping j ts ≡ true)
    → Reported w
    → Passes (deleted_at o x (record w { stack = ts }))
unfolding deleted_at
deleted_at-Passes none x ts w h k = tt
deleted_at-Passes (some (suc r)) x ts w h k = tt
deleted_at-Passes (some zero) x ts w h k = popped ts (update x none w.ref) w h k

collect-Passes : (ts : List Task) (w : World) → w.stack ≡ ts → Reported w → Passes (collect ts w)
unfolding collect relref
collect-Passes [] w e k = elim (Bool-cases (is_stable w)) [
  | inl f ↦ rw f k
  | inr f ↦ rw f (popped (sweep 0 ∷ []) w.ref w (λ j s. absurd (cc (s, ap (sweeping j) e))) k)
]
collect-Passes (sweep id ∷ ts) w e k = swept-Reported id ts w e k
collect-Passes (deletes x ∷ ts) w e k =
    deleted_at-Passes (w.ref x) x ts w (λ j s. sym (ap (sweeping j) e) ∙ s) k
collect-Passes (raises x ∷ ts) w e k =
    relref_at-Passes (w.ref x) x (record w { stack = ts })
      (popped ts w.ref w (λ j s. sym (ap (sweeping j) e) ∙ s) k)

created-Reported : (o : Option ℕ) (x n : ℕ) (w : World) → Reported w → Reported (created o x n w)
created-Reported none x n w k =
    recounted (update x (some 1) w.ref) (update x n w.watch) (update x 1 w.held) w k
created-Reported (some r) x n w k = k

addref_at-Reported : (o : Option ℕ) (x : ℕ) (w : World) → Reported w → Reported (addref_at o x w)
unfolding addref_at
addref_at-Reported none x w k = k
addref_at-Reported (some r) x w k =
    recounted (update x (some (suc r)) w.ref) w.watch (update x (suc (w.held x)) w.held) w k

dropped-Passes : (h x : ℕ) (w : World) → Reported w → Passes (dropped h x w)
unfolding dropped relref
dropped-Passes zero x w k = k
dropped-Passes (suc h) x w k =
    relref_at-Passes (w.ref x) x (record w { held = update x h w.held })
      (recounted w.ref w.watch (update x h w.held) w k)

pub step-Passes : (a : Action) (w : World) → Reported w → Passes (step a w)
unfolding step addref
step-Passes (creates x n) w k = created-Reported (w.ref x) x n w k
step-Passes (copies x) w k = elim (Bool-cases (is_referred (w.ref x))) [
  | inl e ↦ rw e (addref_at-Reported (w.ref x) x w k)
  | inr e ↦ rw e k
]
step-Passes (drops x) w k = dropped-Passes (w.held x) x w k
step-Passes (disarms x) w k = recounted w.ref (update x 0 w.watch) w.held w k
step-Passes (climbs id) w k = elim (Bool-cases (within id w.climbing)) [
  | inl e ↦ rw e (climb-Reported id w k)
  | inr e ↦ rw e k
]
step-Passes collects w k = collect-Passes w.stack w refl k
