-- ===== src/Sync/LimitSemaphore/System/Keeps.antt =====
-- stdLimitSemaphore: each event of a history keeps the invariant.
use tiny_state.Prelude.{
  ℕ, zero, suc, ◌+◌, ◌≡◌, ◌⊎◌, inl, inr, refl, sym, ap, subst, ◌∙◌, true, false, not, Option, none,
  some, List, [], ◌∷◌, ◌++◌, arith, length, length-append, Bool-cases,
}
use tiny_state.Prelude.Int.{
  ℤ, pos, pos_part, ◌≤ℤ◌, ◌<ℤ◌, ltb_ℤ, leb_ℤ, eqb_ℤ, ◌-ℤ◌, -ℤ_parts, pos-+ℤ_one, pos_suc-ℤ_one,
  lt_of_ltb, le_of_not_ltb, le_of_leb,
}
use tiny_state.WaitQueue.{WaitQueue, new, w_del}
use tiny_state.WaitQueue.Order.{flat, IsWell}
use tiny_state.WaitQueue.Agrees.{names}
use tiny_state.Sync.Callers.{length-idx_erase}
use tiny_state.Sync.LimitSemaphore.{
  create, enqueue, get, get_at, release, release_at, wake_up_to, wake_for_limit, set_limit,
  set_ins_neq, set_ins_neq_at,
}
use tiny_state.Sync.LimitSemaphore.Wake.{
  Deletes, w_del-Deletes, enqueue-IsWell, Woke, wake_up_to-Woke,
}
use tiny_state.Sync.LimitSemaphore.System.{
  System, Event, asks, gives, resizes, sets_ties, prioritises, asked, given, give, resized, step,
  next, run, start, WithinLimit, max_ℤ,
}

length-names : (es : List (ℤ × ℕ)) → length (names es) ≡ length es
length-names [] = refl
length-names (e ∷ es) = ap suc (length-names es)

nil_of_length : (es : List (ℤ × ℕ)) → length es ≡ 0 → es ≡ []
nil_of_length [] h = refl
nil_of_length (e ∷ es) h = absurd (omega arith)

le_max_left : (a b c : ℤ) → a ≤ℤ b → a ≤ℤ max_ℤ b c
le_max_left a b c h = ground arith

le_max_right : (b c : ℤ) → c ≤ℤ max_ℤ b c
le_max_right b c = ground arith

weaken : (a b : ℤ) → a <ℤ b → a ≤ℤ b
weaken a b h = omega arith

module _ (y : System) (v : WithinLimit y) where
  open v use {queue, alive, well, counted, no_lost_wakeup, bounded, peaked}

  get_at-WithinLimit : (k : ℤ) (me : ℕ) → WithinLimit (asked me y (get_at (some queue) k me y.sem))
  unfolding asked get_at
  get_at-WithinLimit k me = elim (Bool-cases (ltb_ℤ y.sem.count y.sem.v_limit)) [
    | inl e ↦
        let free : pos y.held <ℤ y.sem.v_limit =
          subst (λ c. c <ℤ y.sem.v_limit) counted (lt_of_ltb y.sem.count y.sem.v_limit e) in
        rw e (record {
          queue = queue;
          alive = alive;
          well = well;
          counted = rw counted (pos-+ℤ_one y.held);
          no_lost_wakeup = elim no_lost_wakeup [
            | inl none_waits ↦ inl none_waits
            | inr covered ↦ inr (omega (arith, length-idx_erase me y.woken))
          ];
          bounded = omega arith;
          peaked = peaked;
        })
    | inr e ↦
        let full : y.sem.v_limit ≤ℤ pos y.held =
          subst (λ c. y.sem.v_limit ≤ℤ c) counted (le_of_not_ltb y.sem.count y.sem.v_limit e) in
        rw e (record {
          queue = enqueue y.sem.enable_priority k me queue;
          alive = refl;
          well = enqueue-IsWell y.sem.enable_priority k me queue well;
          counted = counted;
          no_lost_wakeup = inr (omega arith);
          bounded = bounded;
          peaked = peaked;
        })
  ]

  -- a total step: there is a next state, and it satisfies the invariant
  abbrev Advances : Option System → Type 0
  Advances o = (y' : System) × (o ≡ some y') × WithinLimit y'

  -- the place goes to the first waiter, if there is one
  handed_on :
      (h : ℕ) (c : ℤ) (o : Option ℕ) (w : WaitQueue)
      → y.held ≡ suc h
      → c ≡ pos h
      → Deletes queue (o, w)
      → Advances (given h y (some (o, record y.sem { count = c; wait = some w })))
  unfolding given
  handed_on h c none w e less (empty, same) = (
    _,
    refl,
    record {
      queue = w;
      alive = refl;
      well = subst (λ u. IsWell u.bucket) (sym same) well;
      counted = less;
      no_lost_wakeup = inl (ap (λ u. flat u.bucket) same ∙ empty);
      bounded = omega arith;
      peaked = peaked;
    },
  )
  handed_on h c (some x) w e less (first, w_well, _) = (
    _,
    refl,
    record {
      queue = w;
      alive = refl;
      well = w_well;
      counted = less;
      no_lost_wakeup = elim no_lost_wakeup [
        | inl empty ↦ absurd (cc (ap names empty, first))
        | inr covered ↦ inr (omega arith)
      ];
      bounded = omega arith;
      peaked = peaked;
    },
  )

  -- the waiters that are woken cover the new places, unless nobody is left waiting
  still_covered :
      (lim : ℤ) (r : List ℕ × WaitQueue)
      → Woke (pos_part (lim -ℤ y.sem.v_limit)) queue r
      → (flat r.1.bucket ≡ []) ⊎ (lim ≤ℤ pos (y.held + length (r.0 ++ y.woken)))
  still_covered lim r k = elim no_lost_wakeup [
    | inl empty ↦ inl (
        nil_of_length (flat r.1.bucket) (
          omega (
            arith,
            ap length k.in_order,
            ap (λ es. length (names es)) empty,
            length-append r.0 (names (flat r.1.bucket)),
            length-names (flat r.1.bucket),
          )))
    | inr covered ↦ elim k.enough [
      | inl left ↦ inl left
      | inr n ↦ inr (omega (arith, n, -ℤ_parts lim y.sem.v_limit, length-append r.0 y.woken))
    ]
  ]

  raised : (lim : ℤ) → Advances (resized y (wake_for_limit (some queue) lim y.sem))
  unfolding resized wake_for_limit
  raised lim =
      let n = pos_part (lim -ℤ y.sem.v_limit) in
      let r = wake_up_to n queue in
      let k = wake_up_to-Woke n queue well in
      (
        _,
        refl,
        record {
          queue = r.1;
          alive = refl;
          well = k.well;
          counted = counted;
          no_lost_wakeup = still_covered lim r k;
          bounded = le_max_left (pos y.held) y.peak lim bounded;
          peaked = le_max_right y.peak lim;
        },
      )

  unchanged : Advances (resized y (some ([], y.sem)))
  unfolding resized
  unchanged = (
    _,
    refl,
    record {
      queue = queue;
      alive = alive;
      well = well;
      counted = counted;
      no_lost_wakeup = no_lost_wakeup;
      bounded = le_max_left (pos y.held) y.peak y.sem.v_limit bounded;
      peaked = le_max_right y.peak y.sem.v_limit;
    },
  )

  lowered :
      (lim : ℤ)
      → lim ≤ℤ y.sem.v_limit
      → Advances (resized y (some ([], record y.sem { v_limit = lim })))
  unfolding resized
  lowered lim l = (
    _,
    refl,
    record {
      queue = queue;
      alive = alive;
      well = well;
      counted = counted;
      no_lost_wakeup = elim no_lost_wakeup [
        | inl empty ↦ inl empty
        | inr covered ↦ inr (omega arith)
      ];
      bounded = le_max_left (pos y.held) y.peak lim bounded;
      peaked = le_max_right y.peak lim;
    },
  )

  set_limit-Advances : (lim : ℤ) → Advances (resized y (set_limit lim y.sem))
  unfolding set_limit
  set_limit-Advances lim = elim (Bool-cases (ltb_ℤ lim (pos 1))) [
    | inl e ↦ rw e unchanged
    | inr e ↦ elim (Bool-cases (eqb_ℤ y.sem.v_limit lim)) [
      | inl f ↦ rw (e, f) unchanged
      | inr f ↦ elim (Bool-cases (ltb_ℤ lim y.sem.v_limit)) [
        | inl g ↦
            rw (e, f, g) (lowered lim (weaken lim y.sem.v_limit (lt_of_ltb lim y.sem.v_limit g)))
        | inr g ↦
            rw (e, f, g)
              (subst (λ w. Advances (resized y (wake_for_limit w lim y.sem))) (sym alive)
                (raised lim))
      ]
    ]
  ]

  released : (h : ℕ) → y.held ≡ suc h → Advances (given h y (release_at (some queue) y.sem))
  unfolding given release_at
  released h e =
      let count : y.sem.count ≡ pos (suc h) = counted ∙ ap pos e in
      let less : y.sem.count -ℤ pos 1 ≡ pos h = rw count (pos_suc-ℤ_one h) in
      let guarded : leb_ℤ y.sem.count (pos 0) ≡ false =
        subst (λ c. leb_ℤ c (pos 0) ≡ false) (sym count) (ground arith) in
      elim (Bool-cases (leb_ℤ y.sem.v_limit (y.sem.count -ℤ pos 1))) [
        | inl full ↦
            let over : y.sem.v_limit ≤ℤ pos h =
              subst (λ c. y.sem.v_limit ≤ℤ c) less
                (le_of_leb y.sem.v_limit (y.sem.count -ℤ pos 1) full) in
            rw (guarded, full)
              (
                _,
                refl,
                record {
                  queue = queue;
                  alive = alive;
                  well = well;
                  counted = less;
                  no_lost_wakeup = inr (omega arith);
                  bounded = omega arith;
                  peaked = peaked;
                },
              )
        | inr room ↦
            rw (guarded, room)
              (handed_on h (y.sem.count -ℤ pos 1) (w_del queue).0 (w_del queue).1 e less
                (w_del-Deletes queue well))
      ]

  give-Advances : (h : ℕ) → y.held ≡ h → Advances (give h y)
  unfolding give release
  give-Advances zero e = (y, refl, v)
  give-Advances (suc h) e =
      subst (λ w. Advances (given h y (release_at w y.sem))) (sym alive) (released h e)

  sets_ties-WithinLimit : (n : ℤ) → WithinLimit (record y { sem = set_ins_neq n y.sem })
  unfolding set_ins_neq
  sets_ties-WithinLimit n =
      subst (λ w. WithinLimit (record y { sem = set_ins_neq_at w n y.sem })) (sym alive)
        (record {
          queue = record queue { ins_neq = not (eqb_ℤ n (pos 0)) };
          alive = refl;
          well = well;
          counted = counted;
          no_lost_wakeup = no_lost_wakeup;
          bounded = bounded;
          peaked = peaked;
        })

  step-Advances : (e : Event) → Advances (step e y)
  unfolding step get
  step-Advances (asks k me) = (
    _,
    refl,
    subst (λ w. WithinLimit (asked me y (get_at w k me y.sem))) (sym alive)
        (get_at-WithinLimit k me),
  )
  step-Advances gives = give-Advances y.held refl
  step-Advances (resizes lim) = set_limit-Advances lim
  step-Advances (sets_ties n) = (_, refl, sets_ties-WithinLimit n)
  step-Advances (prioritises b) = (
    _,
    refl,
    record {
      queue = queue;
      alive = alive;
      well = well;
      counted = counted;
      no_lost_wakeup = no_lost_wakeup;
      bounded = bounded;
      peaked = peaked;
    },
  )

run_from :
    (es : List Event) (y : System)
    → WithinLimit y
    → (z : System) × (run es y ≡ some z) × WithinLimit z
unfolding run next
run_from [] y v = (y, refl, v)
run_from (e ∷ es) y v =
    let (y', moved, w) = step-Advances y v e in
    let (z, rest, u) = run_from es y' w in (z, ap (next (run es)) moved ∙ rest, u)

start-WithinLimit : (lim : ℤ) → pos 0 ≤ℤ lim → WithinLimit (start lim)
unfolding start create new
start-WithinLimit lim h = record {
  queue = new true;
  alive = refl;
  well = tt;
  counted = refl;
  no_lost_wakeup = inl refl;
  bounded = h;
  peaked = omega arith;
}

-- From a new semaphore with a limit of 0 or more, every history of `get`, of `release` by holders,
-- of changes of the limit and of the flags runs to its end with no panic. Then `count` is the
-- number of holders, never above the highest limit so far, and either nobody waits, or the holders
-- and the callers that were woken and have not asked again fill the limit.
pub run-WithinLimit :
    (lim : ℤ) (es : List Event)
    → pos 0 ≤ℤ lim
    → (z : System) × (run es (start lim) ≡ some z) × WithinLimit z
run-WithinLimit lim es h = run_from es (start lim) (start-WithinLimit lim h)
