-- ===== src/Collector/Bounds.antt =====
-- stdObject.cpp: the indexes into the arrays of mutexes, lists and flags.
use tiny_state.Prelude.{
  ℕ, zero, suc, ◌+◌, ◌-◌, ◌*◌, ◌/◌, ◌≡◌, ◌<◌, ◌⊎◌, refl, sym, ap, subst, ◌∙◌, inl, inr, Bool, true,
  false, ◌||◌, Option, none, some, List, [], ◌∷◌, ◌++◌, map, ◌==◌, ==_iff, leb, if◌then◌else◌,
  update, arith, Bool-cases,
}
use tiny_state.Collector.{
  Task, sweep, deletes, raises, World, buckets, bucket, reported, queued, listed, counted_down,
  relref_at, relref, climb, addref_at, addref, when_flagged, swept, deleted_at, is_stable, collect,
  Action, creates, copies, drops, disarms, climbs, collects, created, dropped, step, then_run, run,
  start, is_referred, within, without_one,
}
use tiny_state.Collector.Counts.{update_other}
use tiny_state.Collector.Reports.{sweeping, or_left, or_right}

-- a bucket with a parent
abbrev pub IsChild : ℕ → Type 0
IsChild id = (0 < id) × (id < buckets)

pub record InRange (w : World) : Type 0 where
  pub flags : (id : ℕ) → w.flagged id ≡ true → IsChild id
  pub climbs : (id : ℕ) → within id w.climbing ≡ true → IsChild id
  pub sweeps : (id : ℕ) → sweeping id w.stack ≡ true → id < buckets

split_or : (a b : Bool) → (a || b) ≡ true → (a ≡ true) ⊎ (b ≡ true)
split_or true b e = inl e
split_or false b e = inr e

reported-InRange : (id : ℕ) (w : World) → id < buckets → InRange w → InRange (reported id w)
unfolding reported
reported-InRange id w l r = elim (Bool-cases (id == 0)) [
  | inl e ↦ rw e r
  | inr e ↦ rw e (record {
    flags = r.flags;
    climbs = λ j f. elim (split_or (j == id) (within j w.climbing) f) [
      | inl g ↦ subst IsChild (sym ((==_iff j id).0 g)) (ground (arith, e), l)
      | inr g ↦ r.climbs j g
    ];
    sweeps = r.sweeps;
  })
]

-- what else changes in a world
same-InRange :
    (v w : World)
    → v.flagged ≡ w.flagged
    → v.climbing ≡ w.climbing
    → v.stack ≡ w.stack
    → InRange v
    → InRange w
same-InRange v w f c s r = record {
  flags = λ id e. r.flags id (ap (λ g. g id) f ∙ e);
  climbs = λ id e. r.climbs id (ap (within id) c ∙ e);
  sweeps = λ id e. r.sweeps id (ap (sweeping id) s ∙ e);
}

bucket_below : (x : ℕ) → bucket x < buckets
bucket_below x = omega arith

abbrev pub Kept : Option World → Type 0
Kept none = Unit
Kept (some w) = InRange w

relref_at-Kept : (o : Option ℕ) (x : ℕ) (w : World) → InRange w → Kept (relref_at o x w)
unfolding relref_at queued counted_down listed
relref_at-Kept none x w r = r
relref_at-Kept (some zero) x w r = tt
relref_at-Kept (some (suc n)) x w r = elim (Bool-cases (leb (suc n) (w.watch x))) [
  | inl e ↦
      rw e (reported-InRange (bucket x) _ (bucket_below x) (same-InRange w _ refl refl refl r))
  | inr e ↦ rw e (elim (Bool-cases (n == 0)) [
    | inl f ↦
        rw f (reported-InRange (bucket x) _ (bucket_below x) (same-InRange w _ refl refl refl r))
    | inr f ↦ rw f (same-InRange w _ refl refl refl r)
  ])
]

within_less : (j id : ℕ) (l : List ℕ) → within j (without_one id l) ≡ true → within j l ≡ true
within_less j id [] e = e
within_less j id (i ∷ l) e = elim (Bool-cases (id == i)) [
  | inl f ↦
      or_right (j == i) (within j l)
        (sym (ap (λ c. within j (if c then l else i ∷ without_one id l)) f) ∙ e)
  | inr f ↦
      elim (split_or (j == i) (within j (without_one id l))
        (sym (ap (λ c. within j (if c then l else i ∷ without_one id l)) f) ∙ e)) [
          | inl g ↦ or_left (j == i) (within j l) g
          | inr g ↦ or_right (j == i) (within j l) (within_less j id l g)
        ]
]

climb-InRange : (id : ℕ) (w : World) → IsChild id → InRange w → InRange (climb id w)
unfolding climb
climb-InRange id w c r = elim (Bool-cases (w.flagged id)) [
  | inl e ↦ rw e (record {
    flags = r.flags;
    climbs = λ j f. r.climbs j (within_less j id w.climbing f);
    sweeps = r.sweeps;
  })
  | inr e ↦ rw e (
      reported-InRange ((id - 1) / 2) _ (omega (arith, c.1)) (record {
        flags = λ j f. elim (Bool-cases (j == id)) [
          | inl g ↦ subst IsChild (sym ((==_iff j id).0 g)) c
          | inr g ↦ r.flags j (sym (update_other id j true w.flagged g) ∙ f)
        ];
        climbs = λ j f. r.climbs j (within_less j id w.climbing f);
        sweeps = r.sweeps;
      }))
]

sweeping_deleted :
    (j : ℕ) (xs : List ℕ) (us : List Task) → sweeping j (map deletes xs ++ us) ≡ sweeping j us
sweeping_deleted j [] us = refl
sweeping_deleted j (x ∷ xs) us = sweeping_deleted j xs us

sweeping_raised :
    (j : ℕ) (xs : List ℕ) (us : List Task) → sweeping j (map raises xs ++ us) ≡ sweeping j us
sweeping_raised j [] us = refl
sweeping_raised j (x ∷ xs) us = sweeping_raised j xs us

-- a child whose bit is set is in range
child_below :
    (j i : ℕ) (b : Bool) (us : List Task)
    → (b ≡ true → i < buckets)
    → (sweeping j us ≡ true → j < buckets)
    → sweeping j (when_flagged b i ++ us) ≡ true
    → j < buckets
child_below j i false us h k e = k e
child_below j i true us h k e = elim (split_or (j == i) (sweeping j us) e) [
  | inl f ↦ subst (λ n. n < buckets) (sym ((==_iff j i).0 f)) (h refl)
  | inr f ↦ k f
]

cleared_less :
    (id j : ℕ) (f : ℕ → Bool)
    → update (id * 2 + 1) false (update (id * 2 + 2) false f) j ≡ true
    → f j ≡ true
cleared_less id j f e = elim (Bool-cases (j == id * 2 + 1)) [
  | inl g ↦ absurd (cc (e, ap (λ c. if c then false else update (id * 2 + 2) false f j) g))
  | inr g ↦ elim (Bool-cases (j == id * 2 + 2)) [
    | inl h ↦ absurd (
        cc (
          e,
          ap (λ c. if c then false else update (id * 2 + 2) false f j) g,
          ap (λ c. if c then false else f j) h,
        ))
    | inr h ↦
        sym (
          ap (λ c. if c then false else update (id * 2 + 2) false f j) g
          ∙ ap (λ c. if c then false else f j) h)
        ∙ e
  ]
]

swept-InRange :
    (id : ℕ) (ts : List Task) (w : World)
    → w.stack ≡ sweep id ∷ ts
    → InRange w
    → InRange (swept id ts w)
unfolding swept
swept-InRange id ts w e r = record {
  flags = λ j f. r.flags j (cleared_less id j w.flagged f);
  climbs = r.climbs;
  sweeps = λ j f.
      child_below j (id * 2 + 1) (w.flagged (id * 2 + 1))
        (when_flagged (w.flagged (id * 2 + 2)) (id * 2 + 2) ++ ts) (λ g. (r.flags (id * 2 + 1) g).1)
        (child_below j (id * 2 + 2) (w.flagged (id * 2 + 2)) ts (λ g. (r.flags (id * 2 + 2) g).1)
          (λ g. r.sweeps j (ap (sweeping j) e ∙ or_right (j == id) (sweeping j ts) g)))
        (sym (sweeping_deleted j (w.ref_list id) _ ∙ sweeping_raised j (w.ref_event id) _) ∙ f);
}

popped-InRange :
    (ts : List Task) (f : ℕ → Option ℕ) (w : World)
    → ((j : ℕ) → sweeping j ts ≡ sweeping j w.stack)
    → InRange w
    → InRange (record w { stack = ts; ref = f })
popped-InRange ts f w h r = record {
  flags = r.flags;
  climbs = r.climbs;
  sweeps = λ j e. r.sweeps j (sym (h j) ∙ e);
}

deleted_at-Kept :
    (o : Option ℕ) (x : ℕ) (ts : List Task) (w : World)
    → ((j : ℕ) → sweeping j ts ≡ sweeping j w.stack)
    → InRange w
    → Kept (deleted_at o x (record w { stack = ts }))
unfolding deleted_at
deleted_at-Kept none x ts w h r = tt
deleted_at-Kept (some (suc n)) x ts w h r = tt
deleted_at-Kept (some zero) x ts w h r = popped-InRange ts (update x none w.ref) w h r

collect-Kept : (ts : List Task) (w : World) → w.stack ≡ ts → InRange w → Kept (collect ts w)
unfolding collect relref
collect-Kept [] w e r = elim (Bool-cases (is_stable w)) [
  | inl f ↦ rw f r
  | inr f ↦ rw f (record {
    flags = r.flags;
    climbs = r.climbs;
    sweeps = λ j g. elim (split_or (j == 0) false g) [
      | inl h ↦ ground (arith, h)
      | inr h ↦ absurd (cc h)
    ];
  })
]
collect-Kept (sweep id ∷ ts) w e r = swept-InRange id ts w e r
collect-Kept (deletes x ∷ ts) w e r =
    deleted_at-Kept (w.ref x) x ts w (λ j. sym (ap (sweeping j) e)) r
collect-Kept (raises x ∷ ts) w e r =
    relref_at-Kept (w.ref x) x (record w { stack = ts })
      (popped-InRange ts w.ref w (λ j. sym (ap (sweeping j) e)) r)

created-InRange : (o : Option ℕ) (x n : ℕ) (w : World) → InRange w → InRange (created o x n w)
created-InRange none x n w r = same-InRange w _ refl refl refl r
created-InRange (some n) x m w r = r

addref_at-InRange : (o : Option ℕ) (x : ℕ) (w : World) → InRange w → InRange (addref_at o x w)
unfolding addref_at
addref_at-InRange none x w r = r
addref_at-InRange (some n) x w r = same-InRange w _ refl refl refl r

dropped-Kept : (h x : ℕ) (w : World) → InRange w → Kept (dropped h x w)
unfolding dropped relref
dropped-Kept zero x w r = r
dropped-Kept (suc h) x w r =
    relref_at-Kept (w.ref x) x (record w { held = update x h w.held })
      (same-InRange w _ refl refl refl r)

step-Kept : (a : Action) (w : World) → InRange w → Kept (step a w)
unfolding step addref
step-Kept (creates x n) w r = created-InRange (w.ref x) x n w r
step-Kept (copies x) w r = elim (Bool-cases (is_referred (w.ref x))) [
  | inl e ↦ rw e (addref_at-InRange (w.ref x) x w r)
  | inr e ↦ rw e r
]
step-Kept (drops x) w r = dropped-Kept (w.held x) x w r
step-Kept (disarms x) w r = same-InRange w _ refl refl refl r
step-Kept (climbs id) w r = elim (Bool-cases (within id w.climbing)) [
  | inl e ↦ rw e (climb-InRange id w (r.climbs id e) r)
  | inr e ↦ rw e r
]
step-Kept collects w r = collect-Kept w.stack w refl r

start-InRange : InRange start
unfolding start
start-InRange = record {
  flags = λ id e. absurd (cc e);
  climbs = λ id e. absurd (cc e);
  sweeps = λ id e. absurd (cc e);
}

run-Kept : (actions : List Action) (w : World) → InRange w → Kept (run actions w)
unfolding run
run-Kept [] w r = r
run-Kept (a ∷ as') w r = go (step a w) (step-Kept a w r) (λ v. run-Kept as' v)
  where
    go :
        (o : Option World)
        → Kept o
        → ((v : World) → InRange v → Kept (run as' v))
        → Kept (then_run (λ x. run as' x) o)
    go none k f = tt
    go (some v) k f = f v k

-- After every history the buckets that a call of relref is about to report, and those whose bit is set,
-- have a parent and are below stdObject_REF_MUTEX_NUM, and those that the collector is to sweep are
-- below it: refMtx, refList, refFlags, refEventHead and refEventTail have an element there.
pub run-InRange : (actions : List Action) (w : World) → run actions start ≡ some w → InRange w
run-InRange actions w e = subst Kept e (run-Kept actions start start-InRange)
