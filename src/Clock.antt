-- ===== src/Clock.antt =====
-- stdInterval.cpp: `now()`, called by any number of threads at once.
use tiny_state.Prelude.{
  ℕ, ◌+◌, ◌*◌, ◌≤◌, ◌<◌, ◌≡◌, inl, inr, Bool, true, false, not, ◌&&◌, List, [], ◌∷◌, All, All-imp,
  leb, ◌==◌, ==_iff, if◌then◌else◌, arith, Bool-cases,
}

-- where a thread stands in `now()`: `ret`, then also `prev`; `floor` is the `lastAccessTime` at which
-- the call began
pub data Phase : Type 0 where
  outside : Phase
  sampled : ℕ → ℕ → Phase
  looping : ℕ → ℕ → ℕ → Phase

-- a call that returned: its `floor`, its `ret` and its result
pub record Reading : Type 0 where
  pub floor : ℕ
  pub ret : ℕ
  pub result : ℕ

pub record Clock : Type 0 where
  pub last_access_time : ℕ
  pub phase : ℕ → Phase
  pub log : List Reading

-- one atomic step of a thread
pub data Action : Type 0 where
  -- it calls `now()`, and `gettimeofday` answers with seconds and microseconds
  calls : ℕ → ℕ → ℕ → Action
  loads : ℕ → Action
  -- it goes round the loop; the weak exchange may fail for no reason
  tries : ℕ → Bool → Action

abbrev pub at_phase : ℕ → Phase → (ℕ → Phase) → ℕ → Phase
at_phase i p f j = if j == i then p else f j

unfoldable pub returned : ℕ → ℕ → ℕ → ℕ → Clock → Clock
returned i f r x s = record s {
  phase = at_phase i outside s.phase;
  log = record { floor = f; ret = r; result = x } ∷ s.log;
}

unfoldable pub called : ℕ → ℕ → Phase → Clock → Clock
called i r outside s = record s { phase = at_phase i (sampled s.last_access_time r) s.phase }
called i r p s = s

unfoldable pub loaded : ℕ → Phase → Clock → Clock
loaded i (sampled f r) s = record s { phase = at_phase i (looping f r s.last_access_time) s.phase }
loaded i p s = s

unfoldable pub tried : ℕ → Bool → Phase → Clock → Clock
unfolding returned
tried i spurious (looping f r p) s =
    if leb r p
    then returned i f r p s
    else if not spurious && (s.last_access_time == p)
    then returned i f r r (record s { last_access_time = r })
    else record s { phase = at_phase i (looping f r s.last_access_time) s.phase }
tried i spurious q s = s

unfoldable pub step : Action → Clock → Clock
unfolding called loaded tried
step (calls i sec usec) s = called i (usec + sec * 1000000) (s.phase i) s
step (loads i) s = loaded i (s.phase i) s
step (tries i spurious) s = tried i spurious (s.phase i) s

unfoldable pub run : List Action → Clock → Clock
unfolding step
run [] s = s
run (a ∷ as') s = run as' (step a s)

-- before the first call
unfoldable pub start : Clock
start = record { last_access_time = 0; phase = λ i. outside; log = [] }

-- what a thread knows
abbrev pub Knows : ℕ → Phase → Type 0
Knows last outside = Unit
Knows last (sampled f r) = f ≤ last
Knows last (looping f r p) = (f ≤ p) × (p ≤ last)

-- A result is neither behind the clock that the call read nor behind `lastAccessTime` as the call
-- began, and `lastAccessTime` is not behind a result.
abbrev pub IsMonotone : ℕ → Reading → Type 0
IsMonotone last x = (x.floor ≤ x.result) × (x.ret ≤ x.result) × (x.result ≤ last)

pub record Sound (s : Clock) : Type 0 where
  pub known : (i : ℕ) → Knows s.last_access_time (s.phase i)
  pub monotone : All (IsMonotone s.last_access_time) s.log

later-Knows : (a b : ℕ) (p : Phase) → a ≤ b → Knows a p → Knows b p
later-Knows a b outside l h = tt
later-Knows a b (sampled f r) l h = omega arith
later-Knows a b (looping f r p) l h = (h.0, omega (arith, h.1))

at_phase-Knows :
    (last i : ℕ) (p : Phase) (f : ℕ → Phase)
    → Knows last p
    → ((j : ℕ) → Knows last (f j))
    → (j : ℕ) → Knows last (at_phase i p f j)
at_phase-Knows last i p f h k j = elim (Bool-cases (j == i)) [ inl e ↦ rw e h | inr e ↦ rw e (k j) ]

later-All : (a b : ℕ) (xs : List Reading) → a ≤ b → All (IsMonotone a) xs → All (IsMonotone b) xs
later-All a b xs l h = All-imp (λ x m. (m.0, m.1, omega (arith, m.2))) xs h

-- a call returns a value, and `lastAccessTime` may move up to it
returned-Sound :
    (i f r x last : ℕ) (s : Clock)
    → Sound s
    → s.last_access_time ≤ last
    → f ≤ x
    → r ≤ x
    → x ≤ last
    → Sound (returned i f r x (record s { last_access_time = last }))
unfolding returned
returned-Sound i f r x last s h l a b c = record {
  known =
      at_phase-Knows last i outside s.phase tt
        (λ j. later-Knows s.last_access_time last (s.phase j) l (h.known j));
  monotone = ((a, b, c), later-All s.last_access_time last s.log l h.monotone);
}

and_true : (a b : Bool) → (a && b) ≡ true → b ≡ true
and_true true b e = e
and_true false b e = absurd (cc e)

tried-Sound :
    (i : ℕ) (spurious : Bool) (q : Phase) (s : Clock)
    → Sound s
    → Knows s.last_access_time q
    → Sound (tried i spurious q s)
unfolding tried
tried-Sound i spurious outside s h k = h
tried-Sound i spurious (sampled f r) s h k = h
tried-Sound i spurious (looping f r p) s h k = elim (Bool-cases (leb r p)) [
  | inl e ↦
      rw e (returned-Sound i f r p s.last_access_time s h (omega arith) k.0 (ground arith) k.1)
  | inr e ↦ elim (Bool-cases (not spurious && (s.last_access_time == p))) [
    | inl g ↦
        let same : s.last_access_time ≡ p =
          (==_iff s.last_access_time p).0 (and_true (not spurious) (s.last_access_time == p) g) in
        let ahead : p < r = ground arith in
        rw (e, g)
          (returned-Sound i f r r r s h (omega (arith, same)) (omega (arith, k.0)) (omega arith)
            (omega arith))
    | inr g ↦
        rw (e, g)
          (record {
            known =
                at_phase-Knows s.last_access_time i (looping f r s.last_access_time) s.phase
                  (omega (arith, k.0, k.1), omega arith) h.known;
            monotone = h.monotone;
          })
  ]
]

called-Sound : (i r : ℕ) (q : Phase) (s : Clock) → Sound s → Sound (called i r q s)
unfolding called
called-Sound i r outside s h = record {
  known =
      at_phase-Knows s.last_access_time i (sampled s.last_access_time r) s.phase (omega arith)
        h.known;
  monotone = h.monotone;
}
called-Sound i r (sampled f r') s h = h
called-Sound i r (looping f r' p) s h = h

loaded-Sound :
    (i : ℕ) (q : Phase) (s : Clock) → Sound s → Knows s.last_access_time q → Sound (loaded i q s)
unfolding loaded
loaded-Sound i outside s h k = h
loaded-Sound i (sampled f r) s h k = record {
  known =
      at_phase-Knows s.last_access_time i (looping f r s.last_access_time) s.phase (k, omega arith)
        h.known;
  monotone = h.monotone;
}
loaded-Sound i (looping f r p) s h k = h

step-Sound : (a : Action) (s : Clock) → Sound s → Sound (step a s)
unfolding step
step-Sound (calls i sec usec) s h = called-Sound i (usec + sec * 1000000) (s.phase i) s h
step-Sound (loads i) s h = loaded-Sound i (s.phase i) s h (h.known i)
step-Sound (tries i spurious) s h = tried-Sound i spurious (s.phase i) s h (h.known i)

run_from : (as' : List Action) (s : Clock) → Sound s → Sound (run as' s)
unfolding run
run_from [] s h = h
run_from (a ∷ as') s h = run_from as' (step a s) (step-Sound a s h)

start-Sound : Sound start
unfolding start
start-Sound = record { known = λ i. tt; monotone = tt }

-- In every interleaving of any number of threads, with whatever the system clock answers: a call of
-- `now()` returns no less than the clock that it read and no less than any call that had returned
-- before it began, since `lastAccessTime` is never behind a result and a result never behind
-- `lastAccessTime` as its call began.
pub run-Sound : (as' : List Action) → Sound (run as' start)
run-Sound as' = run_from as' start start-Sound
