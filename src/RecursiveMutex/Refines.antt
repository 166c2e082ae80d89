-- ===== src/RecursiveMutex/Refines.antt =====
-- sThreadMutexRecursive.cpp: histories of calls answer as the specification says.
use tiny_state.Prelude.{
  ℕ, suc, ◌<◌, ◌≡◌, ◌≢◌, ◌⊎◌, refl, sym, ap, ap₂, ◌∙◌, inl, inr, Option, none, some, List, [], ◌∷◌,
  ◌==◌, ==_iff, ==_refl, if◌then◌else◌, arith, Bool-cases,
}
use tiny_state.RecursiveMutex.{
  Pthread, locked, unlocked, Recursive, create, is_locked, asked_with, counter, wait_begin,
  begun_with,
}
use tiny_state.RecursiveMutex.Levels.{
  Holder, nobody, holder, Call, locks, unlocks, trylocks, asks, counts, Reply, says, tells, spec,
  logged, spec_run, not_none, not_zero, apart_zero, apart, Stands, create-Stands, told, step, run,
  Matches, locks-Matches, trylocks-Matches, unlocks-Matches,
}

module _ (p : Pthread) where
  -- a lock that is given back at once
  lent :
      (t : ℕ) (n : p.Mutex) (k : ℕ)
      → p.level n ≡ suc k
      → p.owner n ≡ t
      → (p.level (p.unlock t n).1 ≡ k) × (p.owner (p.unlock t n).1 ≡ t)
  lent t n k l o =
      let (v, e, a, b) = p.unlock_own t k n l o in
      (ap (λ r. p.level r.1) e ∙ a, ap (λ r. p.owner r.1) e ∙ b)

  asked_own :
      (t : ℕ) (s : Recursive p)
      → (p.level s.m ≡ 0) ⊎ (p.owner s.m ≡ t)
      → (n : p.Mutex) × (is_locked p t s
          ≡ ((if s.count == 0 then unlocked else locked), record s { m = n }))
        × (p.level n ≡ p.level s.m)
        × (p.owner n ≡ t)
  unfolding is_locked
  asked_own t s h =
      let (n, e, l, o) = p.trylock_own t s.m h in
      let (a, b) = lent t n (p.level s.m) l o in
      (
        (p.unlock t n).1,
        ap (λ r. asked_with p t r s) e
            ∙ ap
                (λ c. if c then (locked, record s { m = n }) else (
                  (if s.count == 0 then unlocked else locked),
                  record s { m = (p.unlock t n).1 },
                ))
                (apart_zero p.ebusy p.ebusy_error),
        a,
        b,
      )

  asked_other :
      (t : ℕ) (s : Recursive p) → 0 < p.level s.m → p.owner s.m ≢ t → is_locked p t s ≡ (locked, s)
  unfolding is_locked
  asked_other t s l d =
      ap (λ r. asked_with p t r s) (p.trylock_other t s.m l d) ∙ rw (==_refl p.ebusy) refl

  asks-Matches :
      (t : ℕ) (h : Holder) (s : Recursive p)
      → Stands p h s
      → Matches p (spec (asks t) h) (let r = is_locked p t s in some (says r.0, r.1))
  asks-Matches t nobody s k =
      let (n, e, l, o) = asked_own t s (inl k.1) in
      rw e (ap (λ c. says (if c == 0 then unlocked else locked)) (sym k.0), (k.0, l ∙ k.1))
  asks-Matches t (holder u i) s k = elim (Bool-cases (u == t)) [
    | inl g ↦
        let (n, e, l, o) = asked_own t s (inr (k.2 ∙ (==_iff u t).0 g)) in
        rw e
          (ap says (sym (not_none s.count i k.0)), (k.0, l ∙ k.1, o ∙ sym ((==_iff u t).0 g), k.3))
    | inr g ↦ rw (asked_other t s (omega (arith, k.1)) (λ q. apart u t g (sym k.2 ∙ q))) (refl, k)
  ]

  counts-Matches :
      (t : ℕ) (h : Holder) (s : Recursive p)
      → Stands p h s
      → Matches p (spec (counts t) h) (some (told p (counter p t s) s))
  unfolding counter
  counts-Matches t nobody s k =
      let (n, e, l, o) = p.lock_own t s.m (inl k.1) in
      let (a, b) = lent t n (p.level s.m) l o in rw e (ap tells (sym k.0), (k.0, a ∙ k.1))
  counts-Matches t (holder u i) s k = elim (Bool-cases (u == t)) [
    | inl g ↦
        let (n, e, l, o) = p.lock_own t s.m (inr (k.2 ∙ (==_iff u t).0 g)) in
        let (a, b) = lent t n (p.level s.m) l o in
        rw (g, e) (ap tells (sym k.0), (k.0, a ∙ k.1, b ∙ sym ((==_iff u t).0 g), k.3))
    | inr g ↦
        rw (g, p.lock_other t s.m (omega (arith, k.1)) (λ q. apart u t g (sym k.2 ∙ q))) (refl, k)
  ]

  step-Matches :
      (c : Call) (h : Holder) (s : Recursive p) → Stands p h s → Matches p (spec c h) (step p c s)
  unfolding step
  step-Matches (locks t) h s k = locks-Matches p t h s k
  step-Matches (unlocks t) h s k = unlocks-Matches p t h s k
  step-Matches (trylocks t) h s k = trylocks-Matches p t h s k
  step-Matches (asks t) h s k = asks-Matches t h s k
  step-Matches (counts t) h s k = counts-Matches t h s k

  logged-Matches :
      (o : Option (Reply × Holder)) (q : Option (Reply × Recursive p))
      (f : Holder → Option (List Reply × Holder))
      (g : Recursive p → Option (List Reply × Recursive p))
      → ((h : Holder) (s : Recursive p) → Stands p h s → Matches p (f h) (g s))
      → Matches p o q
      → Matches p (logged o f) (logged q g)
  logged-Matches none none f g k m = tt
  logged-Matches none (some x) f g k m = absurd m
  logged-Matches (some x) none f g k m = absurd m
  logged-Matches (some (r, h)) (some (r', s)) f g k m = joined (f h) (g s) m.0 (k h s m.1)
    where
      joined :
          (o : Option (List Reply × Holder)) (q : Option (List Reply × Recursive p))
          → r ≡ r'
          → Matches p o q
          → Matches p
              (elim o [ none ↦ none | some (rs, v) ↦ some (r ∷ rs, v) ])
              (elim q [ none ↦ none | some (rs, v) ↦ some (r' ∷ rs, v) ])
      joined none none e m' = tt
      joined none (some x) e m' = absurd m'
      joined (some x) none e m' = absurd m'
      joined (some (rs, v)) (some (rs', v')) e (a, b) = (ap₂ (λ x xs. x ∷ xs) e a, b)

  run_from :
      (cs : List Call) (h : Holder) (s : Recursive p)
      → Stands p h s
      → Matches p (spec_run cs h) (run p cs s)
  unfolding run
  run_from [] h s k = (refl, k)
  run_from (c ∷ cs) h s k =
      logged-Matches (spec c h) (step p c s) (λ i. spec_run cs i) (λ v. run p cs v)
        (λ i v l. run_from cs i v l) (step-Matches c h s k)

  -- Over any recursive mutex that behaves as pthreads documents: from a new object, every history of
  -- calls of lock, unlock, trylock, is_locked and counter by any threads answers as the specification
  -- says, in which a thread has the mutex a number of times; both panic at the same calls; and at the end
  -- count is that number, which is also the level of the mutex beneath, and id the thread.
  pub run-refines : (calls : List Call) → Matches p (spec_run calls nobody) (run p calls (create p))
  run-refines calls = run_from calls nobody (create p) (create-Stands p)

  -- A thread that has the mutex and waits by waitWrap: the function that waits begins with the mutex
  -- locked once more than the thread had it, so that when it gives one level back, as a wait for a
  -- condition does, the mutex is locked as often as before the call, be that a single time, and every
  -- other thread that locks it blocks.
  pub wait_wrap-holds :
      (t u n : ℕ) (s : Recursive p)
      → Stands p (holder t n) s
      → u ≢ t
      → (v : Recursive p) × (wait_begin p t s ≡ some (suc n, v))
        × (p.level v.m ≡ suc (p.level s.m))
        × (p.level (p.unlock t v.m).1 ≡ p.level s.m)
        × (p.lock u (p.unlock t v.m).1 ≡ none)
  unfolding wait_begin
  wait_wrap-holds t u n s k d =
      let (m', e, l, o) = p.lock_own t s.m (inr k.2) in
      let (a, b) = lent t m' (p.level s.m) l o in
      (
        record s { m = m'; count = 0 },
        ap (λ r. begun_with p r s) e
            ∙ ap (λ c. if c then none else some (s.count, record s { m = m'; count = 0 }))
                (not_zero s.count n k.0)
            ∙ ap (λ c. some (c, record s { m = m'; count = 0 })) k.0,
        l,
        a,
        p.lock_other u (p.unlock t m').1 (omega (arith, a, k.1)) (λ q. d (sym q ∙ b)),
      )
