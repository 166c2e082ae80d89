-- ===== src/Listeners/Gone.antt =====
-- tinyState.cpp, `ZOM_TINYSTATE_LAST2`: what a dead machine leaves behind.
use tiny_state.Prelude.{
  ℕ, zero, suc, ◌≡◌, ◌<◌, inl, inr, refl, sym, subst, false, Option, none, some, List, [], ◌∷◌,
  ◌==◌, ==_iff, ==_refl, arith, Bool-cases,
}
use tiny_state.Listeners.{
  World, update, at_table, without, forget_source, forget_listener, cleared, remove, remove_handles,
  remove_queue, remove_types, die, tse_max,
}
use tiny_state.Listeners.Linked.{Linked}
use tiny_state.Listeners.Death.{
  Closing, still_empty, remove-closed, remove_handles-Closing, remove_queue-Closing,
  remove_types-Closing,
}

table_stays :
    (h s t o u : ℕ) (f : ℕ → ℕ → List ℕ) → f s t ≡ [] → at_table o u (without h (f o u)) f s t ≡ []
table_stays h s t o u f e = elim (Bool-cases (s == o)) [
  | inl b ↦ elim (Bool-cases (t == u)) [
    | inl c ↦
        rw (b, c)
          (still_empty h (f o u) (
            subst (λ x. f x u ≡ []) ((==_iff s o).0 b)
              (subst (λ y. f s y ≡ []) ((==_iff t u).0 c) e)))
    | inr c ↦ rw (b, c) (subst (λ x. f x t ≡ []) ((==_iff s o).0 b) e)
  ]
  | inr b ↦ rw b e
]

-- an empty queue of handles stays empty
remove-quiet :
    (h s t : ℕ) (w : World) → w.event_listener s t ≡ [] → (remove h w).event_listener s t ≡ []
unfolding remove forget_listener forget_source cleared
remove-quiet h s t w e = go (w.handle h).source (w.handle h).listener
  where
    go :
        (o p : Option ℕ)
        → (forget_listener p h (forget_source o h (cleared h w))).event_listener s t ≡ []
    go none none = e
    go none (some p) = e
    go (some o) none = table_stays h s t o ((cleared h w).handle h).type w.event_listener e
    go (some o) (some p) = table_stays h s t o ((cleared h w).handle h).type w.event_listener e

remove_queue-quiet :
    (s t u : ℕ) (hs : List ℕ) (w : World)
    → (u == t) ≡ false
    → w.event_listener s u ≡ []
    → (remove_queue s t hs w).event_listener s u ≡ []
unfolding remove_queue
remove_queue-quiet s t u [] w n e = e
remove_queue-quiet s t u (h ∷ hs) w n e =
    let v = record w { event_listener = at_table s t hs w.event_listener } in
    remove_queue-quiet s t u hs (remove h v) n (remove-quiet h s u v (rw (==_refl s, n) e))

below : (u t : ℕ) → u < suc t → (u == t) ≡ false → u < t
below u t m e = ground (arith, ==_iff u t)

remove_types-quiet :
    (s n : ℕ) (w : World)
    → Closing s w
    → (u : ℕ) → u < n
    → (remove_types s n w).event_listener s u ≡ []
unfolding remove_types
remove_types-quiet s zero w k u m = absurd (omega (arith, m))
remove_types-quiet s (suc t) w k u m =
    let v = remove_types s t w in
    let hs = v.event_listener s t in
    elim (Bool-cases (u == t)) [
      | inl e ↦
          subst (λ x. (remove_queue s t hs v).event_listener s x ≡ []) (sym ((==_iff u t).0 e))
            (remove_queue-Closing s t hs v (remove_types-Closing s t w k) refl).1
      | inr e ↦ remove_queue-quiet s t u hs v e (remove_types-quiet s t w k u (below u t m e))
    ]

-- a machine that neither listens nor is listened to
pub record Quiet (s : ℕ) (w : World) : Type 0 where
  pub hears_nobody : w.handle_list s ≡ []
  pub unheard : (t : ℕ) → t < tse_max → w.event_listener s t ≡ []

pub remove-Quiet : (h s : ℕ) (w : World) → Quiet s w → Quiet s (remove h w)
remove-Quiet h s w q = record {
  hears_nobody = remove-closed h s w q.hears_nobody;
  unheard = λ t m. remove-quiet h s t w (q.unheard t m);
}

-- the death of another machine
module _ (r s : ℕ) (n : (r == s) ≡ false) where
  remove_handles-Quiet : (hs : List ℕ) (w : World) → Quiet r w → Quiet r (remove_handles s hs w)
  unfolding remove_handles
  remove_handles-Quiet [] w q = q
  remove_handles-Quiet (h ∷ hs) w q =
      let v = record w { handle_list = update s hs w.handle_list } in
      remove_handles-Quiet hs (remove h v)
        (remove-Quiet h r v (record { hears_nobody = rw n q.hears_nobody; unheard = q.unheard }))

  remove_queue-Quiet :
      (t : ℕ) (hs : List ℕ) (w : World) → Quiet r w → Quiet r (remove_queue s t hs w)
  unfolding remove_queue
  remove_queue-Quiet t [] w q = q
  remove_queue-Quiet t (h ∷ hs) w q =
      let v = record w { event_listener = at_table s t hs w.event_listener } in
      remove_queue-Quiet t hs (remove h v) (
        remove-Quiet h r v
          (record { hears_nobody = q.hears_nobody; unheard = λ u m. rw n (q.unheard u m) }))

  remove_types-Quiet : (t : ℕ) (w : World) → Quiet r w → Quiet r (remove_types s t w)
  unfolding remove_types
  remove_types-Quiet zero w q = q
  remove_types-Quiet (suc t) w q =
      let v = remove_types s t w in
      remove_queue-Quiet t (v.event_listener s t) v (remove_types-Quiet t w q)

  pub die-others : (w : World) → Quiet r w → Quiet r (die s w)
  unfolding die
  die-others w q =
      let k =
        remove_types-Quiet tse_max (remove_handles s (w.handle_list s) w)
          (remove_handles-Quiet (w.handle_list s) w q) in
      record { hears_nobody = rw n k.hears_nobody; unheard = k.unheard }

pub die-Quiet : (s : ℕ) (w : World) → Linked w → Quiet s (die s w)
unfolding die
die-Quiet s w k = record {
  hears_nobody = rw (==_refl s);
  unheard =
      remove_types-quiet s tse_max (remove_handles s (w.handle_list s) w)
        (remove_handles-Closing s (w.handle_list s) w k refl);
}
