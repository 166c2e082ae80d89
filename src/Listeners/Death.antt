-- ===== src/Listeners/Death.antt =====
-- tinyState.cpp, `ZOM_TINYSTATE_LAST2`: the loops that take the handles out one by one.
use tiny_state.Prelude.{
  ℕ, zero, suc, ◌≡◌, inl, inr, refl, sym, subst, ◌∙◌, Bool, true, false, ◌&&◌, Option, none, some,
  List, [], ◌∷◌, ◌==◌, ==_iff, ==_refl, Bool-cases,
}
use tiny_state.WaitQueue.{member}
use tiny_state.WaitQueue.Agrees.{Once}
use tiny_state.Listeners.{
  World, update, points_at, without, forget_source, forget_listener, cleared, remove,
  remove_handles, remove_queue, remove_types,
}
use tiny_state.Listeners.Linked.{Linked}
use tiny_state.Listeners.Removal.{remove-Linked}
use tiny_state.Listeners.Popped.{
  Alike, Alike-Linked, points_at-some, shorter_list, list-Alike, list-rest, shorter_queue,
  queue-Alike, queue-rest,
}

left_true : (a b : Bool) → (a && b) ≡ true → a ≡ true
left_true true b e = refl
left_true false b e = absurd (cc e)

right_true : (a b : Bool) → (a && b) ≡ true → b ≡ true
right_true true b e = e
right_true false b e = absurd (cc e)

-- a machine whose handles are out of its list
abbrev pub Closing : ℕ → World → Type 0
Closing s w = Linked w × (w.handle_list s ≡ [])

head_there : (h : ℕ) (hs xs : List ℕ) → xs ≡ h ∷ hs → member h xs ≡ true
head_there h hs xs e = rw e (rw (==_refl h))

head-Once : (h : ℕ) (hs xs : List ℕ) → xs ≡ h ∷ hs → Once xs → member h hs ≡ false
head-Once h hs xs e o = (subst Once e o).0

pub remove_handles-Closing :
    (s : ℕ) (hs : List ℕ) (w : World)
    → Linked w
    → w.handle_list s ≡ hs
    → Closing s (remove_handles s hs w)
unfolding remove_handles remove
remove_handles-Closing s [] w k e = (k, e)
remove_handles-Closing s (h ∷ hs) w k e =
    let m = head-Once h hs (w.handle_list s) e (k.lists_once s) in
    let f =
      points_at-some (w.handle h).listener s
        (sym (k.lists s h) ∙ head_there h hs (w.handle_list s) e) in
    let a = list-Alike w h s hs m e (w.handle h).source (w.handle h).listener f in
    remove_handles-Closing s hs (remove h (shorter_list w h s hs m))
      (Alike-Linked _ _ a (remove-Linked h w k))
      (a.same_lists s ∙ list-rest w h s hs m e (w.handle h).source (w.handle h).listener f)

pub still_empty : (h : ℕ) (xs : List ℕ) → xs ≡ [] → without h xs ≡ []
unfolding without
still_empty h [] e = refl
still_empty h (x ∷ xs) e = absurd (cc e)

pub remove-closed : (h s : ℕ) (w : World) → w.handle_list s ≡ [] → (remove h w).handle_list s ≡ []
unfolding remove forget_listener forget_source cleared
remove-closed h s w e = go (w.handle h).source (w.handle h).listener
  where
    emptied : (p : ℕ) → update p (without h (w.handle_list p)) w.handle_list s ≡ []
    emptied p = elim (Bool-cases (s == p)) [
      | inl b ↦
          rw b (
            still_empty h (w.handle_list p)
              (subst (λ x. w.handle_list x ≡ []) ((==_iff s p).0 b) e))
      | inr b ↦ rw b e
    ]

    go :
        (o p : Option ℕ)
        → (forget_listener p h (forget_source o h (cleared h w))).handle_list s ≡ []
    go none none = e
    go (some o) none = e
    go none (some p) = emptied p
    go (some o) (some p) = emptied p

pub remove_queue-Closing :
    (s t : ℕ) (hs : List ℕ) (w : World)
    → Closing s w
    → w.event_listener s t ≡ hs
    → Closing s (remove_queue s t hs w) × ((remove_queue s t hs w).event_listener s t ≡ [])
unfolding remove_queue remove
remove_queue-Closing s t [] w k e = (k, e)
remove_queue-Closing s t (h ∷ hs) w (k, c) e =
    let m = head-Once h hs (w.event_listener s t) e (k.tables_once s t) in
    let there = sym (k.tables s t h) ∙ head_there h hs (w.event_listener s t) e in
    let f =
      points_at-some (w.handle h).source s
        (left_true (points_at (w.handle h).source s) ((w.handle h).type == t) there) in
    let g =
      (==_iff (w.handle h).type t).0
        (right_true (points_at (w.handle h).source s) ((w.handle h).type == t) there) in
    let a = queue-Alike w h s hs m t e g (w.handle h).source (w.handle h).listener f in
    remove_queue-Closing s t hs (remove h (shorter_queue w h s hs m t))
      (Alike-Linked _ _ a (remove-Linked h w k), a.same_lists s ∙ remove-closed h s w c)
      (a.same_tables s t ∙ queue-rest w h s hs m t e g (w.handle h).source (w.handle h).listener f)

pub remove_types-Closing : (s n : ℕ) (w : World) → Closing s w → Closing s (remove_types s n w)
unfolding remove_types
remove_types-Closing s zero w k = k
remove_types-Closing s (suc t) w k =
    let v = remove_types s t w in
    (remove_queue-Closing s t (v.event_listener s t) v (remove_types-Closing s t w k) refl).0

-- the last writes of a death change no registration
pub buried :
    (s : ℕ) (v : World)
    → v.handle_list s ≡ []
    → Alike (record v { handle_list = update s [] v.handle_list }) v
buried s v e = record {
  handles = λ h. refl;
  same_lists = λ l. elim (Bool-cases (l == s)) [
    | inl b ↦ rw b (sym (subst (λ x. v.handle_list x ≡ []) (sym ((==_iff l s).0 b)) e))
    | inr b ↦ rw b
  ];
  same_tables = λ a b. refl;
  same_fresh = refl;
}
