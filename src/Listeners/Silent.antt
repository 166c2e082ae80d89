-- ===== src/Listeners/Silent.antt =====
-- tinyState.cpp: a machine in the state ZOM takes no part in registrations.
use tiny_state.Prelude.{
  ℕ, zero, suc, ◌≡◌, ◌<◌, inl, inr, refl, sym, ap, subst, ◌∙◌, Bool, true, false, Option, none,
  some, List, [], ◌∷◌, ◌==◌, ==_iff, leb, if◌then◌else◌, arith, Bool-cases,
}
use tiny_state.Listeners.{
  World, update, at_table, points_at, search_listen, register, add_listener, listen, listen_at,
  forget_source, forget_listener, cleared, remove, remove_handles, remove_queue, remove_types, die,
  tse_max, invoke_listen, listeners_of,
}
use tiny_state.Listeners.Linked.{Linked}
use tiny_state.Listeners.Gone.{Quiet, remove-Quiet, die-others, die-Quiet}
use tiny_state.Listeners.History.{
  Call, listens, removes, dies, step, run, start, step-Linked, start-Linked,
}

remove-dead : (h : ℕ) (w : World) → (remove h w).dead ≡ w.dead
unfolding remove forget_listener forget_source cleared
remove-dead h w = go (w.handle h).source (w.handle h).listener
  where
    go : (o p : Option ℕ) → (forget_listener p h (forget_source o h (cleared h w))).dead ≡ w.dead
    go none none = refl
    go none (some p) = refl
    go (some o) none = refl
    go (some o) (some p) = refl

remove_handles-dead : (s : ℕ) (hs : List ℕ) (w : World) → (remove_handles s hs w).dead ≡ w.dead
unfolding remove_handles
remove_handles-dead s [] w = refl
remove_handles-dead s (h ∷ hs) w =
    let v = record w { handle_list = update s hs w.handle_list } in
    remove_handles-dead s hs (remove h v) ∙ remove-dead h v

remove_queue-dead : (s t : ℕ) (hs : List ℕ) (w : World) → (remove_queue s t hs w).dead ≡ w.dead
unfolding remove_queue
remove_queue-dead s t [] w = refl
remove_queue-dead s t (h ∷ hs) w =
    let v = record w { event_listener = at_table s t hs w.event_listener } in
    remove_queue-dead s t hs (remove h v) ∙ remove-dead h v

remove_types-dead : (s n : ℕ) (w : World) → (remove_types s n w).dead ≡ w.dead
unfolding remove_types
remove_types-dead s zero w = refl
remove_types-dead s (suc t) w =
    let v = remove_types s t w in
    remove_queue-dead s t (v.event_listener s t) v ∙ remove_types-dead s t w

record Silent (w : World) : Type 0 where
  linked : Linked w
  quiet : (r : ℕ) → w.dead r ≡ true → Quiet r w

distinct : (f : ℕ → Bool) (r s : ℕ) → f r ≡ true → f s ≡ false → (r == s) ≡ false
distinct f r s a b = elim (Bool-cases (r == s)) [
  | inl e ↦ absurd (cc (subst (λ x. f x ≡ true) ((==_iff r s).0 e) a, b))
  | inr e ↦ e
]

register-Quiet :
    (s l t : ℕ) (w : World)
    → w.dead s ≡ false
    → w.dead l ≡ false
    → (r : ℕ) → w.dead r ≡ true
    → Quiet r w
    → Quiet r (register s l t w)
unfolding register
register-Quiet s l t w ds dl r d q = record {
  hears_nobody = rw (distinct w.dead r l d dl) q.hears_nobody;
  unheard = λ u m. rw (distinct w.dead r s d ds) (q.unheard u m);
}

-- the calls that may change what is registered
listen-Quiet :
    (s l t : ℕ) (w : World)
    → ((r : ℕ) → w.dead r ≡ true → Quiet r w)
    → (r : ℕ) → (listen s l t w).1.dead r ≡ true
    → Quiet r (listen s l t w).1
unfolding listen listen_at add_listener
listen-Quiet s l t w q r = go (search_listen s t l w)
  where
    add :
        (b c d : Bool)
        → w.dead s ≡ c
        → w.dead l ≡ d
        → (let v =
              (if◌then◌else◌ {A = Option ℕ × World} b
                (none, w)
                (if◌then◌else◌ {A = Option ℕ × World} c
                  (none, w)
                  (if◌then◌else◌ {A = Option ℕ × World} d
                    (none, w)
                    (some w.fresh, register s l t w)))).1 in
            v.dead r ≡ true → Quiet r v)
    add true c d e f g = q r g
    add false true d e f g = q r g
    add false false true e f g = q r g
    add false false false e f g = register-Quiet s l t w e f r g (q r g)

    go : (o : Option ℕ) → (listen_at o s l t w).1.dead r ≡ true → Quiet r (listen_at o s l t w).1
    go none g = add (leb tse_max t) (w.dead s) (w.dead l) refl refl g
    go (some h) g = q r g

die-dead : (s r : ℕ) (w : World) → (r == s) ≡ false → (die s w).dead r ≡ w.dead r
unfolding die
die-dead s r w n =
    let v = remove_handles s (w.handle_list s) w in
    rw n (ap (λ f. f r) (remove_types-dead s tse_max v ∙ remove_handles-dead s (w.handle_list s) w))

died-Quiet : (s : ℕ) (w : World) → Silent w → (r : ℕ) → (die s w).dead r ≡ true → Quiet r (die s w)
died-Quiet s w k r d = elim (Bool-cases (r == s)) [
  | inl e ↦ subst (λ x. Quiet x (die s w)) (sym ((==_iff r s).0 e)) (die-Quiet s w k.linked)
  | inr e ↦ die-others r s e w (k.quiet r (sym (die-dead s r w e) ∙ d))
]

step-Quiet :
    (c : Call) (w : World) → Silent w → (r : ℕ) → (step c w).dead r ≡ true → Quiet r (step c w)
unfolding step
step-Quiet (listens l s t) w k r d = listen-Quiet s l t w k.quiet r d
step-Quiet (removes h) w k r d =
    remove-Quiet h r w (k.quiet r (subst (λ f. f r ≡ true) (remove-dead h w) d))
step-Quiet (dies s) w k r d = died-Quiet s w k r d

run-Silent : (cs : List Call) (w : World) → Silent w → Silent (run cs w)
unfolding run
run-Silent [] w k = k
run-Silent (c ∷ cs) w k =
    run-Silent cs (step c w)
      (record { linked = step-Linked c w k.linked; quiet = step-Quiet c w k })

start-Silent : Silent start
unfolding start
start-Silent = record { linked = start-Linked; quiet = λ r d. absurd (cc d) }

below_max : (t : ℕ) → leb tse_max t ≡ false → t < tse_max
below_max t e = ground arith

sends_nothing :
    (s t : ℕ) (except : Option ℕ) (w : World) → Quiet s w → invoke_listen s t except w ≡ []
unfolding invoke_listen listeners_of
sends_nothing s t except w q = elim (Bool-cases (t == 0)) [
  | inl a ↦ rw a
  | inr a ↦ elim (Bool-cases (leb tse_max t)) [
    | inl b ↦ rw (a, b)
    | inr b ↦ rw (a, b, q.unheard t (below_max t b))
  ]
]

hears_nothing :
    (s h : ℕ) (w : World) → Silent w → Quiet s w → points_at (w.handle h).listener s ≡ false
hears_nothing s h w k q = sym (k.linked.lists s h) ∙ rw q.hears_nobody

-- After every history of `listen`, of `stdEventHandle::remove` and of deaths of machines with nothing
-- between the cleanup and the store of `ZOM`: a machine that is in the state `ZOM` is the listener of no handle, and `invoke_listen` of no event of it
-- calls a handler.
pub dead-silent :
    (cs : List Call) (s : ℕ)
    → (run cs start).dead s ≡ true
    → ((h : ℕ) → points_at ((run cs start).handle h).listener s ≡ false)
      × ((t : ℕ) (except : Option ℕ) → invoke_listen s t except (run cs start) ≡ [])
dead-silent cs s d =
    let w = run cs start in
    let k = run-Silent cs start start-Silent in
    let q = k.quiet s d in
    ((λ h. hears_nothing s h w k q), (λ t except. sends_nothing s t except w q))
