-- ===== src/Examples/Mutexes.antt =====
-- A recursive mutex in memory, and calls of the mutex of the application on it.
use tiny_state.Prelude.{
  ℕ, zero, suc, ◌<◌, ◌≡◌, ◌≢◌, ◌⊎◌, refl, ap, ◌∙◌, inl, inr, Bool, true, false, ◌||◌, Option, none,
  some, List, [], ◌∷◌, ◌==◌, ==_refl, if◌then◌else◌, arith,
}
use tiny_state.RecursiveMutex.{Pthread, Recursive, create, wait_begin}
use tiny_state.RecursiveMutex.Levels.{
  Call, locks, unlocks, trylocks, asks, counts, nobody, Matches, spec_run, run,
}
use tiny_state.RecursiveMutex.Refines.{run-refines, wait_wrap-holds}

record Memory : Type 0 where
  level : ℕ
  owner : ℕ

abbrev may_lock : ℕ → Memory → Bool
may_lock t m = m.level == 0 || m.owner == t

abbrev memory_lock : ℕ → Memory → Option (ℕ × Memory)
memory_lock t m = if may_lock t m then some (0, record { level = suc m.level; owner = t }) else none

abbrev memory_trylock : ℕ → Memory → ℕ × Memory
memory_trylock t m =
    if may_lock t m then (0, record { level = suc m.level; owner = t }) else (16, m)

abbrev unlock_at : ℕ → ℕ → Memory → ℕ × Memory
unlock_at zero t m = (1, m)
unlock_at (suc n) t m = if m.owner == t then (0, record m { level = n }) else (1, m)

abbrev memory_unlock : ℕ → Memory → ℕ × Memory
memory_unlock t m = unlock_at m.level t m

may : (t : ℕ) (m : Memory) → (m.level ≡ 0) ⊎ (m.owner ≡ t) → may_lock t m ≡ true
may t m (inl e) = ap (λ l. l == 0 || m.owner == t) e
may t m (inr e) = ground (arith, e)

may_not : (t : ℕ) (m : Memory) → 0 < m.level → m.owner ≢ t → may_lock t m ≡ false
may_not t m l d = ground (arith, l, d)

differs : (a b : ℕ) → a ≢ b → (a == b) ≡ false
differs a b d = ground (arith, d)

refused_at : (l t : ℕ) (m : Memory) → m.owner ≢ t → (e : ℕ) × (unlock_at l t m ≡ (suc e, m))
refused_at zero t m d = (0, refl)
refused_at (suc l) t m d =
    (0, ap (λ c. if c then (0, record m { level = l }) else (1, m)) (differs m.owner t d))

abbrev memory : Pthread
memory = record {
  Mutex = Memory;
  fresh = record { level = 0; owner = 0 };
  level = λ m. m.level;
  owner = λ m. m.owner;
  lock = memory_lock;
  unlock = memory_unlock;
  trylock = memory_trylock;
  ebusy = 16;
  ebusy_error = omega arith;
  fresh_free = refl;
  lock_own = λ t m h. (
    record { level = suc m.level; owner = t },
    ap (λ c. if c then some (0, record { level = suc m.level; owner = t }) else none) (may t m h),
    refl,
    refl,
  );
  lock_other = λ t m l d.
      ap (λ c. if c then some (0, record { level = suc m.level; owner = t }) else none)
        (may_not t m l d);
  unlock_own = λ t k m l o. (
    record m { level = k },
    ap (λ n. unlock_at n t m) l
        ∙ ap (λ c. if c then (0, record m { level = k }) else (1, m))
            (ap (λ u. u == t) o ∙ ==_refl t),
    refl,
    o,
  );
  unlock_other = λ t m d. refused_at m.level t m d;
  trylock_own = λ t m h. (
    record { level = suc m.level; owner = t },
    ap (λ c. if c then (0, record { level = suc m.level; owner = t }) else (16, m)) (may t m h),
    refl,
    refl,
  );
  trylock_other = λ t m l d.
      ap (λ c. if c then (0, record { level = suc m.level; owner = t }) else (16, m))
        (may_not t m l d);
}

-- two threads; the second has to wait, and gives back what it does not have
abbrev calls : List Call
calls =
    locks 7
    ∷ locks 7
    ∷ locks 8
    ∷ trylocks 8
    ∷ asks 8
    ∷ unlocks 8
    ∷ counts 7
    ∷ unlocks 7
    ∷ unlocks 7
    ∷ locks 8
    ∷ []

run-refines_example : Matches memory (spec_run calls nobody) (run memory calls (create memory))
run-refines_example = run-refines memory calls

abbrev once : Recursive memory
once = record { m = record { level = 1; owner = 7 }; count = 1; id = 7 }

wait_wrap-holds_example :
    (v : Recursive memory) × (wait_begin memory 7 once ≡ some (1, v))
    × (memory.level v.m ≡ 2)
    × (memory.level (memory_unlock 7 v.m).1 ≡ 1)
    × (memory_lock 8 (memory_unlock 7 v.m).1 ≡ none)
wait_wrap-holds_example =
    wait_wrap-holds memory 7 8 0 once (refl, refl, refl, refl) (λ e. absurd (omega (arith, e)))
