-- ===== src/RecursiveMutex/Levels.antt =====
-- sThreadMutexRecursive.cpp: the count is the number of levels of the mutex beneath.
use tiny_state.Prelude.{
  ℕ, zero, suc, ◌<◌, ◌≡◌, ◌≢◌, refl, sym, ap, ◌∙◌, inl, inr, false, Option, none, some, List, [],
  ◌∷◌, ◌==◌, ==_iff, if◌then◌else◌, arith, Bool-cases,
}
use tiny_state.RecursiveMutex.{
  Pthread, Answer, locked, unlocked, Recursive, create, lock, unlock, trylock, tried_with,
  is_locked, counter,
}

-- The specification: nobody has the mutex, or a thread has it a number of times.
pub data Holder : Type 0 where
  nobody : Holder
  holder : ℕ → ℕ → Holder

-- a call of a thread, and what it learns
pub data Call : Type 0 where
  locks unlocks trylocks asks counts : ℕ → Call

pub data Reply : Type 0 where
  blocks done refused : Reply
  says : Answer → Reply
  tells : ℕ → Reply

abbrev pub deeper : ℕ → Reply → Holder → Reply × Holder
deeper t r nobody = (done, holder t 0)
deeper t r (holder u n) = if u == t then (done, holder u (suc n)) else (r, holder u n)

abbrev pub shallower : ℕ → ℕ → Holder
shallower u zero = nobody
shallower u (suc n) = holder u n

-- The specification of a call; none is a panic.
abbrev pub spec : Call → Holder → Option (Reply × Holder)
spec (locks t) h = some (deeper t blocks h)
spec (trylocks t) h = some (deeper t refused h)
spec (unlocks t) nobody = none
spec (unlocks t) (holder u n) =
    some (if u == t then (done, shallower u n) else (refused, holder u n))
spec (asks t) nobody = some (says unlocked, nobody)
spec (asks t) (holder u n) = some (says locked, holder u n)
spec (counts t) nobody = some (tells 0, nobody)
spec (counts t) (holder u n) =
    some (if u == t then (tells (suc n), holder u n) else (blocks, holder u n))

abbrev pub logged {ℓ} :
    {S : Type ℓ} → Option (Reply × S) → (S → Option (List Reply × S)) → Option (List Reply × S)
logged none f = none
logged (some (r, s)) f = elim (f s) [ none ↦ none | some (rs, v) ↦ some (r ∷ rs, v) ]

abbrev pub spec_run : List Call → Holder → Option (List Reply × Holder)
spec_run [] h = some ([], h)
spec_run (c ∷ cs) h = logged (spec c h) (λ i. spec_run cs i)

abbrev pub verdict : ℕ → Reply
verdict zero = done
verdict (suc e) = refused

pub not_none : (c i : ℕ) → c ≡ suc i → (if c == 0 then unlocked else locked) ≡ locked
not_none c i e = ground (arith, e)

pub not_zero : (c i : ℕ) → c ≡ suc i → (c == 0) ≡ false
not_zero c i e = ground (arith, e)

pub apart_zero : (e : ℕ) → 0 < e → (0 == e) ≡ false
apart_zero e l = ground (arith, l)

pub apart : (u t : ℕ) → (u == t) ≡ false → u ≢ t
apart u t e = ground arith

module _ (p : Pthread) where
  -- the last field of an object that nobody has is not used
  abbrev pub Stands : Holder → Recursive p → Type 0
  Stands nobody s = (s.count ≡ 0) × (p.level s.m ≡ 0)
  Stands (holder t n) s = (s.count ≡ suc n) × (p.level s.m ≡ suc n) × (p.owner s.m ≡ t) × (s.id ≡ t)

  pub create-Stands : Stands nobody (create p)
  unfolding create
  create-Stands = (refl, p.fresh_free)

  abbrev pub replied : Option (ℕ × Recursive p) → Recursive p → Reply × Recursive p
  replied none s = (blocks, s)
  replied (some (e, v)) s = (verdict e, v)

  abbrev pub told : Option (ℕ × Recursive p) → Recursive p → Reply × Recursive p
  told none s = (blocks, s)
  told (some (n, v)) s = (tells n, v)

  abbrev pub unless_panic : Option (ℕ × Recursive p) → Option (Reply × Recursive p)
  unless_panic none = none
  unless_panic (some (e, v)) = some (verdict e, v)

  -- a call of the object; none is a panic
  unfoldable pub step : Call → Recursive p → Option (Reply × Recursive p)
  unfolding lock unlock trylock is_locked counter
  step (locks t) s = some (replied (lock p t s) s)
  step (unlocks t) s = unless_panic (unlock p t s)
  step (trylocks t) s = some (replied (some (trylock p t s)) s)
  step (asks t) s = (let r = is_locked p t s in some (says r.0, r.1))
  step (counts t) s = some (told (counter p t s) s)

  unfoldable pub run : List Call → Recursive p → Option (List Reply × Recursive p)
  unfolding step
  run [] s = some ([], s)
  run (c ∷ cs) s = logged (step c s) (λ v. run cs v)

  -- both panic, or both answer the same and the object stands for the holder
  abbrev pub Matches : {R : Type 0} → Option (R × Holder) → Option (R × Recursive p) → Type 0
  Matches none none = Unit
  Matches none (some (r, s)) = ⊥
  Matches (some (r, h)) none = ⊥
  Matches (some (r, h)) (some (q, s)) = (r ≡ q) × Stands h s

  -- one level less
  fewer :
      (u i : ℕ) (s : Recursive p)
      → s.count ≡ i
      → p.level s.m ≡ i
      → p.owner s.m ≡ u
      → s.id ≡ u
      → Stands (shallower u i) s
  fewer u zero s c l o d = (c, l)
  fewer u (suc i) s c l o d = (c, l, o, d)

  pub locks-Matches :
      (t : ℕ) (h : Holder) (s : Recursive p)
      → Stands h s
      → Matches (some (deeper t blocks h)) (some (replied (lock p t s) s))
  unfolding lock
  locks-Matches t nobody s k =
      let (n, e, l, o) = p.lock_own t s.m (inl k.1) in
      rw e (refl, (ap suc k.0, l ∙ ap suc k.1, o, refl))
  locks-Matches t (holder u i) s k = elim (Bool-cases (u == t)) [
    | inl g ↦
        let (n, e, l, o) = p.lock_own t s.m (inr (k.2 ∙ (==_iff u t).0 g)) in
        rw (g, e)
          (refl, (ap suc k.0, l ∙ ap suc k.1, o ∙ sym ((==_iff u t).0 g), sym ((==_iff u t).0 g)))
    | inr g ↦
        rw (g, p.lock_other t s.m (omega (arith, k.1)) (λ q. apart u t g (sym k.2 ∙ q))) (refl, k)
  ]

  pub trylocks-Matches :
      (t : ℕ) (h : Holder) (s : Recursive p)
      → Stands h s
      → Matches (some (deeper t refused h)) (some (replied (some (trylock p t s)) s))
  unfolding trylock
  trylocks-Matches t nobody s k =
      let (n, e, l, o) = p.trylock_own t s.m (inl k.1) in
      rw e (refl, (ap suc k.0, l ∙ ap suc k.1, o, refl))
  trylocks-Matches t (holder u i) s k = elim (Bool-cases (u == t)) [
    | inl g ↦
        let (n, e, l, o) = p.trylock_own t s.m (inr (k.2 ∙ (==_iff u t).0 g)) in
        rw (g, e)
          (refl, (ap suc k.0, l ∙ ap suc k.1, o ∙ sym ((==_iff u t).0 g), sym ((==_iff u t).0 g)))
    | inr g ↦
        rw (g, p.trylock_other t s.m (omega (arith, k.1)) (λ q. apart u t g (sym k.2 ∙ q)))
          (busy p.ebusy p.ebusy_error)
  ]
    where
      busy :
          (e : ℕ)
          → 0 < e
          → Matches
              (some (refused, holder u i))
              (some (replied (some (tried_with p t (e, s.m) s)) s))
      busy zero l = absurd (omega (arith, l))
      busy (suc e) l = (refl, k)

  pub unlocks-Matches :
      (t : ℕ) (h : Holder) (s : Recursive p)
      → Stands h s
      → Matches (spec (unlocks t) h) (unless_panic (unlock p t s))
  unfolding unlock
  unlocks-Matches t nobody s k = rw k.0 tt
  unlocks-Matches t (holder u i) s k = elim (Bool-cases (u == t)) [
    | inl g ↦
        let (n, e, l, o) = p.unlock_own t i s.m k.1 (k.2 ∙ (==_iff u t).0 g) in
        rw (g, k.0, e)
          (refl, fewer u i (record s { m = n; count = i }) refl l (o ∙ sym ((==_iff u t).0 g)) k.3)
    | inr g ↦
        let (e, f) = p.unlock_other t s.m (λ q. apart u t g (sym k.2 ∙ q)) in
        rw (g, k.0, f) (refl, (refl, k.1, k.2, k.3))
  ]
