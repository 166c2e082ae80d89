-- ===== src/Listeners/Removal.antt =====
-- stdEventHandle.cpp: `remove` keeps both ends of the registrations together.
use tiny_state.Prelude.{
  ℕ, ◌≡◌, inl, inr, refl, ap, false, ◌&&◌, Option, none, some, List, ◌==◌, ==_iff, ==_refl,
  Bool-cases,
}
use tiny_state.WaitQueue.{member}
use tiny_state.WaitQueue.Agrees.{Once}
use tiny_state.Listeners.{
  Handle, update, at_table, points_at, without, World, forget_source, forget_listener, cleared,
  remove,
}
use tiny_state.Listeners.Linked.{
  Linked, is_null, member-without, without-Once, at_table-elim, update-elim, ==_swap,
}

-- the world without a handle that has both ends
abbrev unlinked : ℕ → ℕ → ℕ → ℕ → World → World
unlinked h s l t w = record w {
  event_listener = at_table s t (without h (w.event_listener s t)) w.event_listener;
  handle_list = update l (without h (w.handle_list l)) w.handle_list;
  handle = update h (record { source = none; listener = none; type = (w.handle h).type }) w.handle;
}

module _ (w : World) (k : Linked w) (g s l : ℕ) (es : (w.handle g).source ≡ some s)
    (el : (w.handle g).listener ≡ some l) where
  abbrev gone : Handle
  gone = record { source = none; listener = none; type = (w.handle g).type }

  abbrev t : ℕ
  t = (w.handle g).type

  abbrev Rest : ℕ → ℕ → List ℕ → Type 0
  Rest s' t' xs =
      (h : ℕ)
      → member h xs ≡ (let x = update g gone w.handle h in points_at x.source s' && (x.type == t'))

  same_place : Rest s t (without g (w.event_listener s t))
  same_place h =
      rw (member-without h g (w.event_listener s t) (k.tables_once s t))
        (elim (Bool-cases (h == g)) [ inl e ↦ rw e | inr e ↦ rw (e, k.tables s t h) ])

  other_place : (s' t' : ℕ) → (s' == s && t' == t) ≡ false → Rest s' t' (w.event_listener s' t')
  other_place s' t' e h = elim (Bool-cases (h == g)) [
    | inl f ↦
        rw (f, (==_iff h g).0 f, k.tables s' t' g, es, ==_swap s s', ==_swap (w.handle g).type t') e
    | inr f ↦ rw (f, k.tables s' t' h)
  ]

  abbrev RestList : ℕ → List ℕ → Type 0
  RestList l' xs = (h : ℕ) → member h xs ≡ points_at (update g gone w.handle h).listener l'

  list_there : RestList l (without g (w.handle_list l))
  list_there h =
      rw (member-without h g (w.handle_list l) (k.lists_once l))
        (elim (Bool-cases (h == g)) [ inl e ↦ rw e | inr e ↦ rw (e, k.lists l h) ])

  list_elsewhere : (l' : ℕ) → (l' == l) ≡ false → RestList l' (w.handle_list l')
  list_elsewhere l' e h = elim (Bool-cases (h == g)) [
    | inl f ↦ rw (f, (==_iff h g).0 f, k.lists l' g, el, ==_swap l l') e
    | inr f ↦ rw (f, k.lists l' h)
  ]

  unlinked-Linked : Linked (unlinked g s l t w)
  unlinked-Linked = record {
    tables =
        at_table-elim Rest s t (without g (w.event_listener s t)) w.event_listener same_place
          other_place;
    lists =
        update-elim RestList l (without g (w.handle_list l)) w.handle_list list_there
          list_elsewhere;
    paired = λ h. elim (Bool-cases (h == g)) [ inl e ↦ rw e | inr e ↦ rw e (k.paired h) ];
    tables_once =
        at_table-elim (λ s' t' xs. Once xs) s t (without g (w.event_listener s t)) w.event_listener
          (without-Once g (w.event_listener s t) (k.tables_once s t))
          (λ s' t' e. k.tables_once s' t');
    lists_once =
        update-elim (λ l' xs. Once xs) l (without g (w.handle_list l)) w.handle_list
          (without-Once g (w.handle_list l) (k.lists_once l)) (λ l' e. k.lists_once l');
    unborn = λ h m. elim (Bool-cases (h == g)) [ inl e ↦ rw e | inr e ↦ rw e (k.unborn h m) ];
  }

-- a handle that was removed before
cleared-Linked :
    (h : ℕ) (w : World)
    → (w.handle h).source ≡ none
    → (w.handle h).listener ≡ none
    → Linked w
    → Linked (cleared h w)
unfolding cleared
cleared-Linked h w e f k = record {
  tables = λ s t g. elim (Bool-cases (g == h)) [
    | inl i ↦ rw (i, (==_iff g h).0 i, k.tables s t h, e)
    | inr i ↦ rw (i, k.tables s t g)
  ];
  lists = λ l g. elim (Bool-cases (g == h)) [
    | inl i ↦ rw (i, (==_iff g h).0 i, k.lists l h, f)
    | inr i ↦ rw (i, k.lists l g)
  ];
  paired = λ g. elim (Bool-cases (g == h)) [ inl i ↦ rw i | inr i ↦ rw i (k.paired g) ];
  tables_once = k.tables_once;
  lists_once = k.lists_once;
  unborn = λ g m. elim (Bool-cases (g == h)) [ inl i ↦ rw i | inr i ↦ rw i (k.unborn g m) ];
}

forgotten :
    (h : ℕ) (w : World) (o p : Option ℕ)
    → (w.handle h).source ≡ o
    → (w.handle h).listener ≡ p
    → Linked w
    → Linked (forget_listener p h (forget_source o h (cleared h w)))
unfolding forget_listener forget_source cleared
forgotten h w none none e f k = cleared-Linked h w e f k
forgotten h w none (some l) e f k = absurd (cc (ap is_null e, ap is_null f, k.paired h))
forgotten h w (some s) none e f k = absurd (cc (ap is_null e, ap is_null f, k.paired h))
forgotten h w (some s) (some l) e f k = rw (==_refl h) (unlinked-Linked w k h s l e f)

pub remove-Linked : (h : ℕ) (w : World) → Linked w → Linked (remove h w)
unfolding remove
remove-Linked h w k = forgotten h w (w.handle h).source (w.handle h).listener refl refl k
