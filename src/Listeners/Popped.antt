-- ===== src/Listeners/Popped.antt =====
-- tinyState.cpp, `ZOM_TINYSTATE_LAST2`: a handle that is out of its queue before it is removed.
use tiny_state.Prelude.{
  ℕ, ◌≡◌, ◌≤◌, inl, inr, refl, sym, ap, subst, true, false, Option, none, some, List, [], ◌∷◌, ◌==◌,
  ==_iff, ==_refl, if◌then◌else◌, arith, Bool-cases,
}
use tiny_state.WaitQueue.{member}
use tiny_state.Listeners.{
  Handle, World, update, at_table, points_at, without, forget_source, forget_listener, cleared,
}
use tiny_state.Listeners.Linked.{Linked}

-- the same registrations
pub record Alike (v w : World) : Type 0 where
  pub handles : (h : ℕ) → v.handle h ≡ w.handle h
  pub same_lists : (l : ℕ) → v.handle_list l ≡ w.handle_list l
  pub same_tables : (s t : ℕ) → v.event_listener s t ≡ w.event_listener s t
  pub same_fresh : v.fresh ≡ w.fresh

pub Alike-Linked : (v w : World) → Alike v w → Linked w → Linked v
Alike-Linked v w a k = record {
  tables = λ s t h. rw (a.same_tables s t, a.handles h) (k.tables s t h);
  lists = λ l h. rw (a.same_lists l, a.handles h) (k.lists l h);
  paired = λ h. rw (a.handles h) (k.paired h);
  tables_once = λ s t. rw (a.same_tables s t) (k.tables_once s t);
  lists_once = λ l. rw (a.same_lists l) (k.lists_once l);
  unborn = λ h m. rw (a.handles h) (k.unborn h (subst (λ n. n ≤ h) a.same_fresh m));
}

without-absent : (h : ℕ) (xs : List ℕ) → member h xs ≡ false → without h xs ≡ xs
unfolding without
without-absent h [] e = refl
without-absent h (x ∷ xs) e = ground (arith, without-absent h xs, ==_iff x h, ==_iff h x)

without-head : (h : ℕ) (xs : List ℕ) → without h (h ∷ xs) ≡ xs
unfolding without
without-head h xs = rw (==_refl h)

pub points_at-some : (o : Option ℕ) (s : ℕ) → points_at o s ≡ true → o ≡ some s
points_at-some none s e = absurd (cc e)
points_at-some (some x) s e = ap some ((==_iff x s).0 e)

popped_list :
    (h s : ℕ) (hs : List ℕ) (f : ℕ → List ℕ)
    → f s ≡ h ∷ hs
    → member h hs ≡ false
    → (j : ℕ)
    → update s (without h (update s hs f s)) (update s hs f) j ≡ update s (without h (f s)) f j
popped_list h s hs f e m j =
    rw (e, without-head h hs, ==_refl s, without-absent h hs m)
      (elim (Bool-cases (j == s)) [ inl b ↦ rw b | inr b ↦ rw b ])

popped_table :
    (h s t : ℕ) (hs : List ℕ) (f : ℕ → ℕ → List ℕ)
    → f s t ≡ h ∷ hs
    → member h hs ≡ false
    → (i j : ℕ)
    → at_table s t (without h (at_table s t hs f s t)) (at_table s t hs f) i j
      ≡ at_table s t (without h (f s t)) f i j
popped_table h s t hs f e m i j =
    rw (e, without-head h hs, ==_refl s, ==_refl t, without-absent h hs m)
      (elim (Bool-cases (i == s)) [
        | inl b ↦ rw b (elim (Bool-cases (j == t)) [ inl c ↦ rw c | inr c ↦ rw c ])
        | inr b ↦ rw b
      ])

same_name : {p s : ℕ} → ◌≡◌ {A = Option ℕ} (some p) (some s) → s ≡ p
same_name f = cc f

module _ (w : World) (h s : ℕ) (hs : List ℕ) (m : member h hs ≡ false) where
  abbrev pub shorter_list : World
  shorter_list = record w { handle_list = update s hs w.handle_list }

  list_slot :
      w.handle_list s ≡ h ∷ hs
      → (p : ℕ) → ◌≡◌ {A = Option ℕ} (some p) (some s)
      → (j : ℕ)
      → update p (without h (update s hs w.handle_list p)) (update s hs w.handle_list) j
        ≡ update p (without h (w.handle_list p)) w.handle_list j
  list_slot e p f j =
      subst
        (λ p.
          update p (without h (update s hs w.handle_list p)) (update s hs w.handle_list) j
          ≡ update p (without h (w.handle_list p)) w.handle_list j)
        (same_name f) (popped_list h s hs w.handle_list e m j)

  list_left :
      w.handle_list s ≡ h ∷ hs
      → (p : ℕ) → ◌≡◌ {A = Option ℕ} (some p) (some s)
      → update p (without h (w.handle_list p)) w.handle_list s ≡ hs
  list_left e p f =
      subst (λ p. update p (without h (w.handle_list p)) w.handle_list s ≡ hs) (same_name f)
        (rw (==_refl s, e) (without-head h hs))

  pub list-Alike :
      w.handle_list s ≡ h ∷ hs
      → (o p : Option ℕ) → p ≡ some s
      → Alike
          (forget_listener p h (forget_source o h (cleared h shorter_list)))
          (forget_listener p h (forget_source o h (cleared h w)))
  unfolding forget_listener forget_source cleared
  list-Alike e o none f = absurd (cc f)
  list-Alike e none (some p) f = record {
    handles = λ g. refl;
    same_lists = list_slot e p f;
    same_tables = λ a b. refl;
    same_fresh = refl;
  }
  list-Alike e (some o) (some p) f = record {
    handles = λ g. refl;
    same_lists = list_slot e p f;
    same_tables = λ a b. refl;
    same_fresh = refl;
  }

  pub list-rest :
      w.handle_list s ≡ h ∷ hs
      → (o p : Option ℕ) → p ≡ some s
      → (forget_listener p h (forget_source o h (cleared h w))).handle_list s ≡ hs
  unfolding forget_listener forget_source cleared
  list-rest e o none f = absurd (cc f)
  list-rest e none (some p) f = list_left e p f
  list-rest e (some o) (some p) f = list_left e p f

  module _ (t : ℕ) where
    abbrev pub shorter_queue : World
    shorter_queue = record w { event_listener = at_table s t hs w.event_listener }

    abbrev type_left : ℕ
    type_left =
        (update {A = Handle} h (record { source = none; listener = none; type = (w.handle h).type })
          w.handle h).type

    kept_type : (w.handle h).type ≡ t → type_left ≡ t
    kept_type g =
        subst
          (λ b.
            (if◌then◌else◌ {A = Handle} b
              (record { source = none; listener = none; type = (w.handle h).type })
              (w.handle h)).type
            ≡ t)
          (sym (==_refl h)) g

    queue_slot :
        w.event_listener s t ≡ h ∷ hs
        → (w.handle h).type ≡ t
        → (o : ℕ) → ◌≡◌ {A = Option ℕ} (some o) (some s)
        → (a b : ℕ)
        → at_table o type_left
            (without h (at_table s t hs w.event_listener o type_left))
            (at_table s t hs w.event_listener)
            a
            b
          ≡ at_table o type_left (without h (w.event_listener o type_left)) w.event_listener a b
    queue_slot e g o f a b =
        subst
          (λ o.
            at_table o type_left (without h (at_table s t hs w.event_listener o type_left))
              (at_table s t hs w.event_listener) a b
            ≡ at_table o type_left (without h (w.event_listener o type_left)) w.event_listener a b)
          (same_name f)
          (subst
            (λ u.
              at_table s u (without h (at_table s t hs w.event_listener s u))
                (at_table s t hs w.event_listener) a b
              ≡ at_table s u (without h (w.event_listener s u)) w.event_listener a b)
            (sym (kept_type g)) (popped_table h s t hs w.event_listener e m a b))

    queue_left :
        w.event_listener s t ≡ h ∷ hs
        → (w.handle h).type ≡ t
        → (o : ℕ) → ◌≡◌ {A = Option ℕ} (some o) (some s)
        → at_table o type_left (without h (w.event_listener o type_left)) w.event_listener s t ≡ hs
    queue_left e g o f =
        subst
          (λ o.
            at_table o type_left (without h (w.event_listener o type_left)) w.event_listener s t
            ≡ hs)
          (same_name f)
          (subst (λ u. at_table s u (without h (w.event_listener s u)) w.event_listener s t ≡ hs)
            (sym (kept_type g)) (rw (==_refl s, ==_refl t, e) (without-head h hs)))

    pub queue-Alike :
        w.event_listener s t ≡ h ∷ hs
        → (w.handle h).type ≡ t
        → (o p : Option ℕ) → o ≡ some s
        → Alike
            (forget_listener p h (forget_source o h (cleared h shorter_queue)))
            (forget_listener p h (forget_source o h (cleared h w)))
    unfolding forget_listener forget_source cleared
    queue-Alike e g none p f = absurd (cc f)
    queue-Alike e g (some o) none f = record {
      handles = λ x. refl;
      same_lists = λ l. refl;
      same_tables = queue_slot e g o f;
      same_fresh = refl;
    }
    queue-Alike e g (some o) (some p) f = record {
      handles = λ x. refl;
      same_lists = λ l. refl;
      same_tables = queue_slot e g o f;
      same_fresh = refl;
    }

    pub queue-rest :
        w.event_listener s t ≡ h ∷ hs
        → (w.handle h).type ≡ t
        → (o p : Option ℕ) → o ≡ some s
        → (forget_listener p h (forget_source o h (cleared h w))).event_listener s t ≡ hs
    unfolding forget_listener forget_source cleared
    queue-rest e g none p f = absurd (cc f)
    queue-rest e g (some o) none f = queue_left e g o f
    queue-rest e g (some o) (some p) f = queue_left e g o f
