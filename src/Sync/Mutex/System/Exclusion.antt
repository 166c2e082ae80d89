-- ===== src/Sync/Mutex/System/Exclusion.antt =====
-- stdMutex: each event of a history keeps readers and writers apart.
use tiny_state.Prelude.{
  ℕ, zero, suc, ◌≡◌, ◌≢◌, inl, inr, refl, sym, ap, subst, true, false, some, List, [], ◌∷◌, ◌++◌,
  arith, length, Bool-cases,
}
use tiny_state.Prelude.Int.{
  ℤ, pos, negsuc, ltb_ℤ, leb_ℤ, pos_part, eqb_ℤ_iff, eqb_ℤ, pos-+ℤ_one, pos_suc-ℤ_one, ◌+ℤ◌, ◌-ℤ◌,
}
use tiny_state.Queue.{empty, max_integer64}
use tiny_state.Queue.Valid.{IsValid, ins-IsValid}
use tiny_state.Queue.Move.{empty-IsValid}
use tiny_state.WaitQueue.{idx_erase}
use tiny_state.Sync.Drain.{is_queued}
use tiny_state.Sync.Mutex.{
  Mutex, create, enqueue, read_lock, read_lock_at, write_lock, write_lock_at, release, release_at,
  free,
}
use tiny_state.Sync.Mutex.System.{
  System, Event, asks_read, asks_write, gives_read, gives_write, asked_read, asked_write, holds,
  step, run, start, Exclusive, Excluding,
}

length_erase_held :
    (me : ℕ) (xs : List ℕ) → holds me xs ≡ true → suc (length (idx_erase me xs)) ≡ length xs
unfolding idx_erase
length_erase_held me [] e = cc
length_erase_held me (x ∷ xs) e = ground (arith, length_erase_held me xs)

differs : (a b : ℤ) → eqb_ℤ a b ≡ false → a ≢ b
differs a b e f = cc ((eqb_ℤ_iff a b).1 f, e)

nil_of_length : (xs : List ℕ) → length xs ≡ 0 → xs ≡ []
nil_of_length [] h = refl
nil_of_length (x ∷ xs) h = absurd (omega arith)

more_readers :
    (me : ℕ) (c : ℤ) (rs ws : List ℕ)
    → leb_ℤ (pos 0) c ≡ true
    → Exclusive c rs ws
    → Exclusive (c +ℤ pos 1) (me ∷ rs) ws × (c +ℤ pos 1 ≢ pos 0)
more_readers me (pos n) rs ws e h =
    subst (λ c. Exclusive c (me ∷ rs) ws × (c ≢ pos 0)) (sym (pos-+ℤ_one n))
      ((ap suc h.0, h.1), λ f. omega (arith, ap pos_part f))
more_readers me (negsuc n) rs ws e h = absurd (ground arith)

first_writer :
    (me : ℕ) (c : ℤ) (rs ws : List ℕ)
    → eqb_ℤ c (pos 0) ≡ true
    → Exclusive c rs ws
    → Exclusive (negsuc 0) rs (me ∷ ws)
first_writer me (pos n) rs ws e h =
    (refl, nil_of_length rs (ground arith), ap (λ xs. suc (length xs)) h.1)
first_writer me (negsuc n) rs ws e h = absurd (ground arith)

fewer_readers :
    (me : ℕ) (c : ℤ) (rs ws : List ℕ)
    → holds me rs ≡ true
    → Exclusive c rs ws
    → (eqb_ℤ c (pos 0) ≡ false)
      × (ltb_ℤ c (pos 0) ≡ false)
      × Exclusive (c -ℤ pos 1) (idx_erase me rs) ws
fewer_readers me (pos zero) rs ws e h = absurd (omega (arith, h.0, length_erase_held me rs e))
fewer_readers me (pos (suc n)) rs ws e h = (
  ground arith,
  ground arith,
  subst (λ c. Exclusive c (idx_erase me rs) ws) (sym (pos_suc-ℤ_one n))
      (omega (arith, h.0, length_erase_held me rs e), h.1),
)
fewer_readers me (negsuc n) rs ws e h =
    absurd (omega (arith, ap length h.1, length_erase_held me rs e))

fewer_writers :
    (me : ℕ) (c : ℤ) (rs ws : List ℕ)
    → holds me ws ≡ true
    → Exclusive c rs ws
    → (eqb_ℤ c (pos 0) ≡ false) × (ltb_ℤ c (pos 0) ≡ true) × Exclusive (pos 0) rs (idx_erase me ws)
fewer_writers me (pos n) rs ws e h =
    absurd (omega (arith, ap length h.1, length_erase_held me ws e))
fewer_writers me (negsuc n) rs ws e h = (
  ground arith,
  ground arith,
  (ap length h.1, nil_of_length (idx_erase me ws) (omega (arith, h.2, length_erase_held me ws e))),
)

module _ (y : System) (v : Excluding y) where
  open v use {queue, alive, valid, exclusive, no_lost_wakeup}

  enqueue-IsValid : (me : ℕ) → IsValid (enqueue me queue)
  unfolding enqueue
  enqueue-IsValid me = elim (Bool-cases (is_queued me queue)) [
    | inl e ↦ rw e valid
    | inr e ↦ rw e (ins-IsValid max_integer64 me queue valid)
  ]

  -- A caller that does not get the lock is queued, and the lock is held.
  stays-Excluding :
      (me : ℕ)
      → y.lock.count ≢ pos 0
      → Excluding (record y {
        lock = record y.lock { wait = some (enqueue me queue) };
        woken = idx_erase me y.woken;
      })
  stays-Excluding me busy = record {
    queue = enqueue me queue;
    alive = refl;
    valid = enqueue-IsValid me;
    exclusive = exclusive;
    no_lost_wakeup = inr busy;
  }

  read_lock_at-Excluding :
      (me : ℕ) → Excluding (asked_read me y (read_lock_at (some queue) me y.lock))
  unfolding asked_read read_lock_at
  read_lock_at-Excluding me = elim (Bool-cases (leb_ℤ (pos 0) y.lock.count)) [
    | inl e ↦
        let more = more_readers me y.lock.count y.readers y.writers e exclusive in
        rw e (record {
          queue = queue;
          alive = alive;
          valid = valid;
          exclusive = more.0;
          no_lost_wakeup = inr more.1;
        })
    | inr e ↦ rw e (stays-Excluding me (not_below y.lock.count e))
  ]
    where
      not_below : (c : ℤ) → leb_ℤ (pos 0) c ≡ false → c ≢ pos 0
      not_below c e f = ground (arith, ap (λ b. leb_ℤ (pos 0) b) f)

  write_lock_at-Excluding :
      (me : ℕ) → Excluding (asked_write me y (write_lock_at (some queue) me y.lock))
  unfolding asked_write write_lock_at
  write_lock_at-Excluding me = elim (Bool-cases (eqb_ℤ y.lock.count (pos 0))) [
    | inl e ↦ rw e (record {
      queue = queue;
      alive = alive;
      valid = valid;
      exclusive = first_writer me y.lock.count y.readers y.writers e exclusive;
      no_lost_wakeup = inr (λ f. cc);
    })
    | inr e ↦ rw e (stays-Excluding me (differs y.lock.count (pos 0) e))
  ]

  -- what a holder leaves, with the lock held by others or free
  abbrev Left : List ℕ → List ℕ → List ℕ × Mutex → Type 0
  Left rs ws r =
      Excluding (record y { lock = r.1; readers = rs; writers = ws; woken = r.0 ++ y.woken })

  free-Left : (rs ws : List ℕ) → Exclusive (pos 0) rs ws → Left rs ws (free queue y.lock)
  unfolding free empty
  free-Left rs ws h = record {
    queue = empty;
    alive = refl;
    valid = empty-IsValid false;
    exclusive = h;
    no_lost_wakeup = inl refl;
  }

  read_released :
      (me : ℕ)
      → holds me y.readers ≡ true
      → Left (idx_erase me y.readers) y.writers (release_at (some queue) y.lock)
  unfolding release_at
  read_released me e =
      let (f, g, h) = fewer_readers me y.lock.count y.readers y.writers e exclusive in
      rw (f, g)
        (elim (Bool-cases (eqb_ℤ (y.lock.count -ℤ pos 1) (pos 0))) [
          | inl z ↦ rw z (
              free-Left (idx_erase me y.readers) y.writers (
                subst (λ c. Exclusive c (idx_erase me y.readers) y.writers)
                  ((eqb_ℤ_iff (y.lock.count -ℤ pos 1) (pos 0)).0 z) h))
          | inr z ↦ rw z (record {
            queue = queue;
            alive = alive;
            valid = valid;
            exclusive = h;
            no_lost_wakeup = inr (differs (y.lock.count -ℤ pos 1) (pos 0) z);
          })
        ])

  write_released :
      (me : ℕ)
      → holds me y.writers ≡ true
      → Left y.readers (idx_erase me y.writers) (release_at (some queue) y.lock)
  unfolding release_at
  write_released me e =
      let (f, g, h) = fewer_writers me y.lock.count y.readers y.writers e exclusive in
      rw (f, g) (free-Left y.readers (idx_erase me y.writers) h)

  step-Excluding : (e : Event) → Excluding (step e y)
  unfolding step read_lock write_lock release
  step-Excluding (asks_read me) =
      subst (λ w. Excluding (asked_read me y (read_lock_at w me y.lock))) (sym alive)
        (read_lock_at-Excluding me)
  step-Excluding (asks_write me) =
      subst (λ w. Excluding (asked_write me y (write_lock_at w me y.lock))) (sym alive)
        (write_lock_at-Excluding me)
  step-Excluding (gives_read me) = elim (Bool-cases (holds me y.readers)) [
    | inl e ↦ rw e (
        subst (λ w. Left (idx_erase me y.readers) y.writers (release_at w y.lock)) (sym alive)
          (read_released me e))
    | inr e ↦ rw e v
  ]
  step-Excluding (gives_write me) = elim (Bool-cases (holds me y.writers)) [
    | inl e ↦ rw e (
        subst (λ w. Left y.readers (idx_erase me y.writers) (release_at w y.lock)) (sym alive)
          (write_released me e))
    | inr e ↦ rw e v
  ]

run_from : (es : List Event) (y : System) → Excluding y → Excluding (run es y)
unfolding run
run_from [] y v = v
run_from (e ∷ es) y v = run_from es (step e y) (step-Excluding y v e)

start-Excluding : Excluding start
unfolding start create empty
start-Excluding = record {
  queue = empty;
  alive = refl;
  valid = empty-IsValid false;
  exclusive = (refl, refl);
  no_lost_wakeup = inl refl;
}

-- From a new lock, after every history of `read_lock` and `write_lock` by anybody and of `release`
-- by holders: with `count` n at 0 or above there are n readers and no writer, and otherwise `count`
-- is -1 and there is one writer and no reader; and nobody waits in the queue of a free lock.
pub run-Excluding : (es : List Event) → Excluding (run es start)
run-Excluding es = run_from es start start-Excluding
