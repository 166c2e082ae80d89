-- ===== src/Sync/Semaphore/System/Balance.antt =====
-- stdSemaphore: each event of a history keeps the balance.
use tiny_state.Prelude.{
  ℕ, suc, ◌-◌, ◌<◌, ◌≡◌, inl, inr, refl, sym, ap, subst, ◌∙◌, Bool, true, false, not, some, List,
  [], ◌∷◌, arith, if◌then◌else◌, Bool-cases,
}
use tiny_state.Prelude.Int.{
  ℤ, pos, ◌≤ℤ◌, ◌<ℤ◌, ltb_ℤ, eqb_ℤ, eq_of_parts, pos-+ℤ_one, ◌+ℤ◌, ◌-ℤ◌, int_laws, lt_of_ltb,
  le_of_not_ltb,
}
use tiny_state.Queue.{Cell, empty, ins, max_integer64}
use tiny_state.Queue.Valid.{IsValid, ins-IsValid}
use tiny_state.Queue.Remove.{del-IsValid, del_lem, del_result, shorter}
use tiny_state.Queue.Move.{empty-IsValid}
use tiny_state.Sync.Drain.{is_queued}
use tiny_state.Sync.Callers.{length-idx_erase}
use tiny_state.Sync.Semaphore.{
  create, enqueue, get, get_at, release, release_at, set_ins_neq, set_ins_neq_at,
}
use tiny_state.Sync.Semaphore.System.{
  System, Event, asks, gives, sets_ties, prioritises, asked, gave, step, run, start, Balanced,
}

pos-ℤ_one : (n : ℕ) → 0 < n → pos n -ℤ pos 1 ≡ pos (n - 1)
pos-ℤ_one n h = eq_of_parts _ _ (omega int_laws)

module _ (n : ℕ) (y : System) (v : Balanced n y) where
  open v use {queue, alive, valid, units, counted, balanced, no_lost_wakeup}

  enqueue-IsValid : (b : Bool) (k : ℤ) (me : ℕ) → IsValid (enqueue b k me queue)
  unfolding enqueue
  enqueue-IsValid b k me = elim (Bool-cases (is_queued me queue)) [
    | inl e ↦ rw e valid
    | inr e ↦ rw e (added b)
  ]
    where
      added : (c : Bool) → IsValid (if c then ins k me queue else ins max_integer64 me queue)
      added true = ins-IsValid k me queue valid
      added false = ins-IsValid max_integer64 me queue valid

  get_at-Balanced : (k : ℤ) (me : ℕ) → Balanced n (asked me y (get_at (some queue) k me y.sem))
  unfolding asked get_at
  get_at-Balanced k me = elim (Bool-cases (ltb_ℤ (pos 0) y.sem.count)) [
    | inl e ↦
        let free : pos 0 <ℤ pos units =
          subst (λ c. pos 0 <ℤ c) counted (lt_of_ltb (pos 0) y.sem.count e) in
        rw e (record {
          queue = queue;
          alive = alive;
          valid = valid;
          units = units - 1;
          counted = ap (λ c. c -ℤ pos 1) counted ∙ pos-ℤ_one units (omega arith);
          balanced = omega arith;
          no_lost_wakeup = elim no_lost_wakeup [
            | inl none_waits ↦ inl none_waits
            | inr covered ↦ inr (omega (arith, length-idx_erase me y.woken))
          ];
        })
    | inr e ↦
        let exhausted : pos units ≤ℤ pos 0 =
          subst (λ c. c ≤ℤ pos 0) counted (le_of_not_ltb (pos 0) y.sem.count e) in
        rw e (record {
          queue = enqueue y.sem.enable_priority k me queue;
          alive = refl;
          valid = enqueue-IsValid y.sem.enable_priority k me;
          units = units;
          counted = counted;
          balanced = balanced;
          no_lost_wakeup = inr (omega arith);
        })
  ]

  handed_on :
      (cs : List (Cell ℕ))
      → queue.chain ≡ cs
      → IsValid (del_result queue cs).1
      → Balanced n (
          gave y (
            (del_result queue cs).0,
            record y.sem { count = y.sem.count +ℤ pos 1; wait = some (del_result queue cs).1 },
          ))
  unfolding gave
  handed_on [] e w = record {
    queue = queue;
    alive = refl;
    valid = valid;
    units = suc units;
    counted = ap (λ c. c +ℤ pos 1) counted ∙ pos-+ℤ_one units;
    balanced = omega arith;
    no_lost_wakeup = inl e;
  }
  handed_on (c ∷ cs) e w = record {
    queue = shorter queue cs;
    alive = refl;
    valid = w;
    units = suc units;
    counted = ap (λ c. c +ℤ pos 1) counted ∙ pos-+ℤ_one units;
    balanced = omega arith;
    no_lost_wakeup = elim no_lost_wakeup [
      | inl empty ↦ absurd (cc)
      | inr covered ↦ inr (omega arith)
    ];
  }

  gave-Balanced : Balanced n (gave y (release_at (some queue) y.sem))
  unfolding release_at
  gave-Balanced =
      let taken = del_lem queue valid in
      subst
        (λ r.
          Balanced n (gave y (r.0, record y.sem { count = y.sem.count +ℤ pos 1; wait = some r.1 })))
        (sym taken)
        (handed_on queue.chain refl (subst (λ r. IsValid r.1) taken (del-IsValid queue valid)))

  sets_ties-Balanced : (b : ℤ) → Balanced n (record y { sem = set_ins_neq_at (some queue) b y.sem })
  unfolding set_ins_neq_at
  sets_ties-Balanced b = record {
    queue = record queue { ins_neq = not (eqb_ℤ b (pos 0)) };
    alive = refl;
    valid = record {
      distinct = valid.distinct;
      allocated = valid.allocated;
      tail_last = valid.tail_last;
      counted = valid.counted;
    };
    units = units;
    counted = counted;
    balanced = balanced;
    no_lost_wakeup = no_lost_wakeup;
  }

  step-Balanced : (e : Event) → Balanced n (step e y)
  unfolding step get release set_ins_neq
  step-Balanced (asks k me) =
      subst (λ w. Balanced n (asked me y (get_at w k me y.sem))) (sym alive) (get_at-Balanced k me)
  step-Balanced gives =
      subst (λ w. Balanced n (gave y (release_at w y.sem))) (sym alive) gave-Balanced
  step-Balanced (sets_ties b) =
      subst (λ w. Balanced n (record y { sem = set_ins_neq_at w b y.sem })) (sym alive)
        (sets_ties-Balanced b)
  step-Balanced (prioritises b) = record {
    queue = queue;
    alive = alive;
    valid = valid;
    units = units;
    counted = counted;
    balanced = balanced;
    no_lost_wakeup = no_lost_wakeup;
  }

run_from : (n : ℕ) (es : List Event) (y : System) → Balanced n y → Balanced n (run es y)
unfolding run
run_from n [] y v = v
run_from n (e ∷ es) y v = run_from n es (step e y) (step-Balanced n y v e)

ties-IsValid : (b : Bool) → IsValid {A = ℕ} (record empty { ins_neq = b })
unfolding empty
ties-IsValid b = empty-IsValid b

start-Balanced : (n : ℕ) → Balanced n (start n)
unfolding start create empty
start-Balanced n = record {
  queue = record empty { ins_neq = true };
  alive = refl;
  valid = ties-IsValid true;
  units = n;
  counted = refl;
  balanced = omega arith;
  no_lost_wakeup = inl refl;
}

-- From a new semaphore of n units, after every history of `get`, of `release` by anybody and of
-- changes of the flags, `count` is n and the calls of `release` less the calls of `get` that
-- returned, the wait queue is valid, and either nobody waits, or every free unit has a caller that
-- was woken for it and has not asked again.
pub run-Balanced : (n : ℕ) (es : List Event) → Balanced n (run es (start n))
run-Balanced n es = run_from n es (start n) (start-Balanced n)
