-- ===== src/Listeners/History.antt =====
-- tinyState.cpp and stdEventHandle.cpp: histories of registrations.
use tiny_state.Prelude.{
  ℕ, ◌≡◌, inl, inr, refl, sym, ap, subst, ◌∙◌, Bool, true, false, ◌&&◌, ◌||◌, ◌==◌, ==_iff, Option,
  none, List, [], ◌∷◌, leb, ltb, if◌then◌else◌, Option-cases, Bool-cases, arith,
}
use tiny_state.Listeners.{
  remove_handles, Handle, World, search_listen, add_listener, listen_at, listen, remove,
  remove_types, cleaned, settled, die, tse_max,
}
use tiny_state.WaitQueue.{member}
use tiny_state.Listeners.Removed.{
  Unset, remove-unset, remove-Unset, cleaned-Unset, listen-Unset, Unset-tables, Unset-lists,
}
use tiny_state.Listeners.Removal.{remove-Linked}
use tiny_state.Listeners.Popped.{Alike-Linked}
use tiny_state.Listeners.Death.{buried, remove_handles-Closing, remove_types-Closing}
use tiny_state.Listeners.Linked.{Linked, register-Linked}

pub data Call : Type 0 where
  -- a machine listens to another for a type of event
  listens : ℕ → ℕ → ℕ → Call
  removes : ℕ → Call
  dies : ℕ → Call

unfoldable pub step : Call → World → World
step (listens l s t) w = (listen s l t w).1
step (removes h) w = remove h w
step (dies s) w = die s w

unfoldable pub run : List Call → World → World
unfolding step
run [] w = w
run (c ∷ cs) w = run cs (step c w)

abbrev pub no_handle : Handle
no_handle = record { source = none; listener = none; type = 0 }

unfoldable pub start : World
start = record {
  dead = λ s. false;
  event_listener = λ s t. [];
  handle_list = λ l. [];
  handle = λ h. no_handle;
  fresh = 0;
}

refused :
    (b : Bool) (w : World) (r : Option ℕ × World)
    → Linked w
    → Linked r.1
    → Linked (if◌then◌else◌ {A = Option ℕ × World} b (none, w) r).1
refused true w r k h = k
refused false w r k h = h

add_listener-Linked : (s l t : ℕ) (w : World) → Linked w → Linked (add_listener s l t w).1
unfolding add_listener
add_listener-Linked s l t w k =
    refused (leb tse_max t) w _ k
      (refused (w.dead s) w _ k (refused (w.dead l) w _ k (register-Linked w k s l t)))

listen-Linked : (s l t : ℕ) (w : World) → Linked w → Linked (listen s l t w).1
unfolding listen listen_at
listen-Linked s l t w k = elim (Option-cases (search_listen s t l w)) [
  | inl e ↦ rw e (add_listener-Linked s l t w k)
  | inr (h, e) ↦ rw e k
]

cleaned-Linked : (s : ℕ) (w : World) → Linked w → Linked (cleaned s w)
unfolding cleaned
cleaned-Linked s w k =
    let j =
      remove_types-Closing s tse_max (remove_handles s (w.handle_list s) w)
        (remove_handles-Closing s (w.handle_list s) w k refl) in
    let v = remove_types s tse_max (remove_handles s (w.handle_list s) w) in
    Alike-Linked _ v (buried s v j.1) j.0

settled-Linked : (s : ℕ) (w : World) → Linked w → Linked (settled s w)
unfolding settled
settled-Linked s w k = record {
  tables = k.tables;
  lists = k.lists;
  paired = k.paired;
  tables_once = k.tables_once;
  lists_once = k.lists_once;
  unborn = k.unborn;
}

pub step-Linked : (c : Call) (w : World) → Linked w → Linked (step c w)
unfolding step die
step-Linked (listens l s t) w k = listen-Linked s l t w k
step-Linked (removes h) w k = remove-Linked h w k
step-Linked (dies s) w k = settled-Linked s (cleaned s w) (cleaned-Linked s w k)

pub start-Linked : Linked start
unfolding start
start-Linked = record {
  tables = λ s t h. refl;
  lists = λ l h. refl;
  paired = λ h. refl;
  tables_once = λ s t. tt;
  lists_once = λ l. tt;
  unborn = λ h m. refl;
}

-- the calls, and the two halves of a death as steps of their own, between which others may come
pub data Move : Type 0 where
  calls : Call → Move
  cleans : ℕ → Move
  settles : ℕ → Move

unfoldable pub move : Move → World → World
unfolding step
move (calls c) w = step c w
move (cleans s) w = cleaned s w
move (settles s) w = settled s w

unfoldable pub moves : List Move → World → World
unfolding move
moves [] w = w
moves (m ∷ ms) w = moves ms (move m w)

move-Linked : (m : Move) (w : World) → Linked w → Linked (move m w)
unfolding move
move-Linked (calls c) w k = step-Linked c w k
move-Linked (cleans s) w k = cleaned-Linked s w k
move-Linked (settles s) w k = settled-Linked s w k

-- whether a step is the removal of a handle that was given out
abbrev removes_now : ℕ → World → Move → Bool
removes_now h w (calls (removes g)) = h == g && ltb h w.fresh
removes_now h w (calls (listens l s t)) = false
removes_now h w (calls (dies s)) = false
removes_now h w (cleans s) = false
removes_now h w (settles s) = false

-- whether a history has removed a handle
unfoldable pub was_removed : ℕ → List Move → World → Bool
was_removed h [] w = false
was_removed h (m ∷ ms) w = removes_now h w m || was_removed h ms (move m w)

move-Unset : (h : ℕ) (m : Move) (w : World) → Unset h w → Unset h (move m w)
unfolding move step die settled
move-Unset h (calls (listens l s t)) w u = listen-Unset h s l t w u
move-Unset h (calls (removes g)) w u = remove-Unset h g w u
move-Unset h (calls (dies s)) w u = cleaned-Unset h s w u
move-Unset h (cleans s) w u = cleaned-Unset h s w u
move-Unset h (settles s) w u = u

moves-Unset : (h : ℕ) (ms : List Move) (w : World) → Unset h w → Unset h (moves ms w)
unfolding moves
moves-Unset h [] w u = u
moves-Unset h (m ∷ ms) w u = moves-Unset h ms (move m w) (move-Unset h m w u)

removed_now : (h : ℕ) (m : Move) (w : World) → removes_now h w m ≡ true → Unset h (move m w)
unfolding move step
removed_now h (calls (removes g)) w e =
    subst (λ x. Unset h (remove x w)) ((==_iff h g).0 (ground arith))
      (remove-unset h w (ground arith))
removed_now h (calls (listens l s t)) w e = absurd (cc e)
removed_now h (calls (dies s)) w e = absurd (cc e)
removed_now h (cleans s) w e = absurd (cc e)
removed_now h (settles s) w e = absurd (cc e)

was_removed-Unset :
    (h : ℕ) (ms : List Move) (w : World) → was_removed h ms w ≡ true → Unset h (moves ms w)
unfolding was_removed moves
was_removed-Unset h [] w e = absurd (cc e)
was_removed-Unset h (m ∷ ms) w e = elim (Bool-cases (removes_now h w m)) [
  | inl f ↦ moves-Unset h ms (move m w) (removed_now h m w f)
  | inr f ↦
      was_removed-Unset h ms (move m w) (sym (ap (λ b. b || was_removed h ms (move m w)) f) ∙ e)
]

moves_from : (ms : List Move) (w : World) → Linked w → Linked (moves ms w)
unfolding moves
moves_from [] w k = k
moves_from (m ∷ ms) w k = moves_from ms (move m w) (move-Linked m w k)

nowhere : (b : Bool) (c : Bool) → (b ≡ true → c ≡ false) → (b && c) ≡ false
nowhere true c k = k refl
nowhere false c k = refl

-- After every history of `listen`, of `stdEventHandle::remove` and of deaths of machines, the
-- cleanup and the store of `ZOM` in one step or with others between them: a handle with a source
-- and a listener is in the queue of that source for its type and in the list of that listener, once
-- in each and nowhere else; and a handle that was removed after it had been given out is in no
-- queue of any machine and in no list.
pub run-Linked :
    (ms : List Move)
    → Linked (moves ms start)
      × ((h s t : ℕ)
          → (was_removed h ms start && member h ((moves ms start).event_listener s t)) ≡ false)
      × ((h l : ℕ) → (was_removed h ms start && member h ((moves ms start).handle_list l)) ≡ false)
run-Linked ms =
    let k = moves_from ms start start-Linked in
    (
      k,
      λ h s t.
          nowhere (was_removed h ms start) _
            (λ e. Unset-tables h s t (moves ms start) k (was_removed-Unset h ms start e)),
      λ h l.
          nowhere (was_removed h ms start) _
            (λ e. Unset-lists h l (moves ms start) k (was_removed-Unset h ms start e)),
    )
