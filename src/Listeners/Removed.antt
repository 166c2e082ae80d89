-- ===== src/Listeners/Removed.antt =====
-- stdEventHandle.cpp: a handle that was removed is never registered again.
use tiny_state.Prelude.{
  ℕ, zero, suc, ◌≡◌, ◌<◌, inl, inr, refl, sym, ◌∙◌, Bool, true, false, Option, none, some, List, [],
  ◌∷◌, ◌==◌, leb, if◌then◌else◌, arith, Bool-cases,
}
use tiny_state.WaitQueue.{member}
use tiny_state.Listeners.{
  World, update, at_table, points_at, search_listen, register, add_listener, listen, listen_at,
  forget_source, forget_listener, cleared, remove, remove_handles, remove_queue, remove_types,
  cleaned, tse_max,
}
use tiny_state.Listeners.Linked.{Linked, is_null}

-- a handle that was given out and points at nothing
abbrev pub Unset : ℕ → World → Type 0
Unset h w = (is_null (w.handle h).source ≡ true) × (h < w.fresh)

-- `remove` changes the handles only in clearing one
remove-handle :
    (P : World → Type 0) (g : ℕ) (w : World)
    → ((o p : Option ℕ) → P (forget_listener p g (forget_source o g (cleared g w))))
    → P (remove g w)
unfolding remove
remove-handle P g w k = k (w.handle g).source (w.handle g).listener

pub remove-unset : (h : ℕ) (w : World) → h < w.fresh → Unset h (remove h w)
unfolding forget_listener forget_source cleared
remove-unset h w l = remove-handle (Unset h) h w go
  where
    go : (o p : Option ℕ) → Unset h (forget_listener p h (forget_source o h (cleared h w)))
    go none none = (ground arith, l)
    go none (some p) = (ground arith, l)
    go (some o) none = (ground arith, l)
    go (some o) (some p) = (ground arith, l)

pub remove-Unset : (h g : ℕ) (w : World) → Unset h w → Unset h (remove g w)
unfolding forget_listener forget_source cleared
remove-Unset h g w (u, l) = remove-handle (Unset h) g w go
  where
    stays :
        is_null
          (update g
            (record { source = none; listener = none; type = (w.handle g).type })
            w.handle
            h).source
        ≡ true
    stays = elim (Bool-cases (h == g)) [ inl e ↦ rw e | inr e ↦ rw e u ]

    go : (o p : Option ℕ) → Unset h (forget_listener p g (forget_source o g (cleared g w)))
    go none none = (stays, l)
    go none (some p) = (stays, l)
    go (some o) none = (stays, l)
    go (some o) (some p) = (stays, l)

remove_handles-Unset :
    (h s : ℕ) (hs : List ℕ) (w : World) → Unset h w → Unset h (remove_handles s hs w)
unfolding remove_handles
remove_handles-Unset h s [] w u = u
remove_handles-Unset h s (g ∷ hs) w u =
    let v = record w { handle_list = update s hs w.handle_list } in
    remove_handles-Unset h s hs (remove g v) (remove-Unset h g v u)

remove_queue-Unset :
    (h s t : ℕ) (hs : List ℕ) (w : World) → Unset h w → Unset h (remove_queue s t hs w)
unfolding remove_queue
remove_queue-Unset h s t [] w u = u
remove_queue-Unset h s t (g ∷ hs) w u =
    let v = record w { event_listener = at_table s t hs w.event_listener } in
    remove_queue-Unset h s t hs (remove g v) (remove-Unset h g v u)

remove_types-Unset : (h s n : ℕ) (w : World) → Unset h w → Unset h (remove_types s n w)
unfolding remove_types
remove_types-Unset h s zero w u = u
remove_types-Unset h s (suc t) w u =
    let v = remove_types s t w in
    remove_queue-Unset h s t (v.event_listener s t) v (remove_types-Unset h s t w u)

pub cleaned-Unset : (h s : ℕ) (w : World) → Unset h w → Unset h (cleaned s w)
unfolding cleaned
cleaned-Unset h s w u =
    remove_types-Unset h s tse_max (remove_handles s (w.handle_list s) w)
      (remove_handles-Unset h s (w.handle_list s) w u)

register-Unset : (h s l t : ℕ) (w : World) → Unset h w → Unset h (register s l t w)
unfolding register
register-Unset h s l t w (u, m) = elim (Bool-cases (h == w.fresh)) [
  | inl e ↦ absurd (ground arith)
  | inr e ↦ (rw e u, omega (arith, m))
]

refused :
    (h : ℕ) (b : Bool) (w : World) (r : Option ℕ × World)
    → Unset h w
    → Unset h r.1
    → Unset h (if◌then◌else◌ {A = Option ℕ × World} b (none, w) r).1
refused h true w r u v = u
refused h false w r u v = v

pub listen-Unset : (h s l t : ℕ) (w : World) → Unset h w → Unset h (listen s l t w).1
unfolding listen listen_at add_listener
listen-Unset h s l t w u = go (search_listen s t l w)
  where
    go : (o : Option ℕ) → Unset h (listen_at o s l t w).1
    go none =
        refused h (leb tse_max t) w _ u
          (refused h (w.dead s) w _ u (refused h (w.dead l) w _ u (register-Unset h s l t w u)))
    go (some g) = u

points_at-null : (o : Option ℕ) (s : ℕ) → is_null o ≡ true → points_at o s ≡ false
points_at-null none s e = refl
points_at-null (some x) s e = absurd (cc e)

pub Unset-tables :
    (h s t : ℕ) (w : World) → Linked w → Unset h w → member h (w.event_listener s t) ≡ false
Unset-tables h s t w k u = rw (k.tables s t h, points_at-null (w.handle h).source s u.0)

pub Unset-lists : (h l : ℕ) (w : World) → Linked w → Unset h w → member h (w.handle_list l) ≡ false
Unset-lists h l w k u =
    rw (k.lists l h, points_at-null (w.handle h).listener l (sym (k.paired h) ∙ u.0))
