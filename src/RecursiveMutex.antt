-- ===== src/RecursiveMutex.antt =====
-- src/classes/ts2/c++/sThreadMutexRecursive.cpp: the mutex of the application and that of a machine, on
-- a recursive mutex of pthreads, which is a parameter. A thread is its number, and a call is one step.
pub mod Levels
pub mod Refines
use tiny_state.Prelude.{
  ℕ, zero, suc, ◌+◌, ◌-◌, ◌<◌, ◌≡◌, ◌≢◌, ◌⊎◌, Bool, true, false, Option, none, some, ◌==◌,
  if◌then◌else◌,
}

-- A recursive mutex as pthreads documents it: who has it, how often it is locked, and what the three
-- calls answer, 0 or the number of an error; a call that blocks answers none.
pub record Pthread : Type 1 where
  pub Mutex : Type 0
  pub fresh : Mutex
  pub level : Mutex → ℕ
  pub owner : Mutex → ℕ
  pub lock : ℕ → Mutex → Option (ℕ × Mutex)
  pub unlock : ℕ → Mutex → ℕ × Mutex
  pub trylock : ℕ → Mutex → ℕ × Mutex
  pub ebusy : ℕ
  pub ebusy_error : 0 < ebusy
  pub fresh_free : level fresh ≡ 0
  pub lock_own :
      (t : ℕ) (m : Mutex)
      → (level m ≡ 0) ⊎ (owner m ≡ t)
      → (n : Mutex) × (lock t m ≡ some (0, n)) × (level n ≡ suc (level m)) × (owner n ≡ t)
  pub lock_other : (t : ℕ) (m : Mutex) → 0 < level m → owner m ≢ t → lock t m ≡ none
  pub unlock_own :
      (t k : ℕ) (m : Mutex)
      → level m ≡ suc k
      → owner m ≡ t
      → (n : Mutex) × (unlock t m ≡ (0, n)) × (level n ≡ k) × (owner n ≡ t)
  pub unlock_other : (t : ℕ) (m : Mutex) → owner m ≢ t → (e : ℕ) × (unlock t m ≡ (suc e, m))
  pub trylock_own :
      (t : ℕ) (m : Mutex)
      → (level m ≡ 0) ⊎ (owner m ≡ t)
      → (n : Mutex) × (trylock t m ≡ (0, n)) × (level n ≡ suc (level m)) × (owner n ≡ t)
  pub trylock_other : (t : ℕ) (m : Mutex) → 0 < level m → owner m ≢ t → trylock t m ≡ (ebusy, m)

-- what `is_locked` answers: 1, 0 and -1
pub data Answer : Type 0 where
  locked unlocked failed : Answer

module _ (p : Pthread) where
  pub record Recursive : Type 0 where
    pub m : p.Mutex
    pub count : ℕ
    pub id : ℕ

  -- the constructor
  unfoldable pub create : Recursive
  create = record { m = p.fresh; count = 0; id = 0 }

  abbrev pub locked_with : ℕ → Option (ℕ × p.Mutex) → Recursive → Option (ℕ × Recursive)
  locked_with t none s = none
  locked_with t (some (zero, n)) s = some (0, record { m = n; count = suc s.count; id = t })
  locked_with t (some (suc e, n)) s = some (suc e, record s { m = n })

  -- `lock`; none while it blocks
  unfoldable pub lock : ℕ → Recursive → Option (ℕ × Recursive)
  lock t s = locked_with t (p.lock t s.m) s

  abbrev pub unlocked_with : ℕ → ℕ × p.Mutex → Recursive → ℕ × Recursive
  unlocked_with c (zero, n) s = (0, record s { m = n; count = c })
  unlocked_with c (suc e, n) s = (suc e, record s { m = n; count = suc c })

  abbrev pub unlock_at : ℕ → ℕ → Recursive → Option (ℕ × Recursive)
  unlock_at zero t s = none
  unlock_at (suc c) t s = some (unlocked_with c (p.unlock t s.m) s)

  -- `unlock`; none is a panic
  unfoldable pub unlock : ℕ → Recursive → Option (ℕ × Recursive)
  unlock t s = unlock_at s.count t s

  abbrev pub tried_with : ℕ → ℕ × p.Mutex → Recursive → ℕ × Recursive
  tried_with t (zero, n) s = (0, record { m = n; count = suc s.count; id = t })
  tried_with t (suc e, n) s = (suc e, record s { m = n })

  unfoldable pub trylock : ℕ → Recursive → ℕ × Recursive
  trylock t s = tried_with t (p.trylock t s.m) s

  abbrev pub asked_with : ℕ → ℕ × p.Mutex → Recursive → Answer × Recursive
  asked_with t (e, n) s =
      if e == p.ebusy
      then (locked, record s { m = n })
      else if e == 0
      then (if s.count == 0 then unlocked else locked, record s { m = (p.unlock t n).1 })
      else (failed, record s { m = n })

  unfoldable pub is_locked : ℕ → Recursive → Answer × Recursive
  is_locked t s = asked_with t (p.trylock t s.m) s

  abbrev pub counted_with : ℕ → Option (ℕ × p.Mutex) → Recursive → Option (ℕ × Recursive)
  counted_with t none s = none
  counted_with t (some (e, n)) s = some (s.count, record s { m = (p.unlock t n).1 })

  -- `counter`; none while it blocks
  unfoldable pub counter : ℕ → Recursive → Option (ℕ × Recursive)
  counter t s = counted_with t (p.lock t s.m) s

  -- `waitWrap` up to its call of the function, with the count that it keeps; none is a panic, or blocks
  abbrev pub begun_with : Option (ℕ × p.Mutex) → Recursive → Option (ℕ × Recursive)
  begun_with none s = none
  begun_with (some (e, n)) s =
      if s.count == 0 then none else some (s.count, record s { m = n; count = 0 })

  unfoldable pub wait_begin : ℕ → Recursive → Option (ℕ × Recursive)
  wait_begin t s = begun_with (p.lock t s.m) s

  abbrev pub ended_with :
      ℕ → Option (ℕ × Recursive) → (Recursive → ℕ × Recursive) → Option (ℕ × Recursive)
  ended_with t none func = none
  ended_with t (some (c, s)) func =
      let r = func s in some (r.0, record { m = (p.unlock t r.1.m).1; count = c; id = t })

  -- `waitWrap(func)`
  unfoldable pub wait_wrap : ℕ → (Recursive → ℕ × Recursive) → Recursive → Option (ℕ × Recursive)
  unfolding wait_begin
  wait_wrap t func s = ended_with t (wait_begin t s) func
