-- ===== src/Listeners/Linked.antt =====
-- tinyState.cpp and stdEventHandle.cpp: both ends of every registration agree.
use tiny_state.Prelude.{
  ℕ, suc, ◌≤◌, ◌≡◌, inl, inr, refl, sym, ap, subst, ◌∙◌, Bool, true, false, ◌&&◌, Option, none,
  some, List, [], ◌∷◌, ◌++◌, ◌==◌, ==_iff, ==_refl, if◌then◌else◌, arith, Bool-cases,
}
use tiny_state.WaitQueue.{member}
use tiny_state.WaitQueue.Agrees.{Once}
use tiny_state.Listeners.{Handle, World, update, at_table, points_at, register, without}

abbrev pub is_null : Option ℕ → Bool
is_null none = true
is_null (some x) = false

-- A handle is in the queue of its source and type and in no other, and in the list of its listener
-- and in no other, once in each; and it has either both or neither.
pub record Linked (w : World) : Type 0 where
  pub tables :
      (s t h : ℕ)
      → member h (w.event_listener s t)
        ≡ (points_at (w.handle h).source s && ((w.handle h).type == t))
  pub lists : (l h : ℕ) → member h (w.handle_list l) ≡ points_at (w.handle h).listener l
  pub paired : (h : ℕ) → is_null (w.handle h).source ≡ is_null (w.handle h).listener
  pub tables_once : (s t : ℕ) → Once (w.event_listener s t)
  pub lists_once : (l : ℕ) → Once (w.handle_list l)
  pub unborn : (h : ℕ) → w.fresh ≤ h → is_null (w.handle h).source ≡ true

member-append :
    (h x : ℕ) (xs : List ℕ) → member h (xs ++ x ∷ []) ≡ (if h == x then true else member h xs)
member-append h x [] = refl
member-append h x (y ∷ ys) = ground (arith, member-append h x ys)

append-Once : (x : ℕ) (xs : List ℕ) → member x xs ≡ false → Once xs → Once (xs ++ x ∷ [])
append-Once x [] n o = (refl, tt)
append-Once x (y ∷ ys) n o =
    ground (arith, append-Once x ys, member-append y x ys, ==_iff x y, ==_iff y x)

pub member-without :
    (h x : ℕ) (xs : List ℕ)
    → Once xs
    → member h (without x xs) ≡ (if h == x then false else member h xs)
unfolding without
member-without h x [] o = ground arith
member-without h x (y ∷ ys) o =
    ground (arith, member-without h x ys, ==_iff y x, ==_iff h y, ==_iff h x, ==_iff x y)

pub without-Once : (x : ℕ) (xs : List ℕ) → Once xs → Once (without x xs)
unfolding without
without-Once x [] o = tt
without-Once x (y ∷ ys) o = ground (arith, without-Once x ys, member-without y x ys)

null_source : (w : World) → Linked w → (s : ℕ) → points_at (w.handle w.fresh).source s ≡ false
null_source w k s = go (w.handle w.fresh).source (k.unborn w.fresh (omega arith))
  where
    go : (o : Option ℕ) → is_null o ≡ true → points_at o s ≡ false
    go none e = refl
    go (some x) e = absurd (cc e)

null_listener : (w : World) → Linked w → (l : ℕ) → points_at (w.handle w.fresh).listener l ≡ false
null_listener w k l =
    go (w.handle w.fresh).listener (sym (k.paired w.fresh) ∙ k.unborn w.fresh (omega arith))
  where
    go : (o : Option ℕ) → is_null o ≡ true → points_at o l ≡ false
    go none e = refl
    go (some x) e = absurd (cc e)

same_of_and : (a b c d : ℕ) → (a == b && c == d) ≡ true → (a ≡ b) × (c ≡ d)
same_of_and a b c d e = ground (arith, ==_iff a b, ==_iff c d)

pub ==_swap : (a b : ℕ) → (a == b) ≡ (b == a)
==_swap a b = ground arith

at_table-same : (s t : ℕ) (xs : List ℕ) (f : ℕ → ℕ → List ℕ) → at_table s t xs f s t ≡ xs
at_table-same s t xs f = rw (==_refl s, ==_refl t)

at_table-other :
    (s t s' t' : ℕ) (xs : List ℕ) (f : ℕ → ℕ → List ℕ)
    → (s' == s && t' == t) ≡ false
    → at_table s t xs f s' t' ≡ f s' t'
at_table-other s t s' t' xs f e = elim (Bool-cases (s' == s)) [
  | inl a ↦ elim (Bool-cases (t' == t)) [
    | inl b ↦ absurd (cc (a, b, e))
    | inr b ↦ rw (a, b) (ap (λ x. f x t') (sym ((==_iff s' s).0 a)))
  ]
  | inr a ↦ rw a
]

-- a queue that changes: every other is as it was
pub at_table-elim :
    (P : ℕ → ℕ → List ℕ → Type 0) (s t : ℕ) (xs : List ℕ) (f : ℕ → ℕ → List ℕ)
    → P s t xs
    → ((s' t' : ℕ) → (s' == s && t' == t) ≡ false → P s' t' (f s' t'))
    → (s' t' : ℕ) → P s' t' (at_table s t xs f s' t')
at_table-elim P s t xs f p q s' t' = elim (Bool-cases (s' == s && t' == t)) [
  | inl e ↦
      let same = same_of_and s' s t' t e in
      subst (λ x. P x t' (at_table s t xs f x t')) (sym same.0)
        (subst (λ y. P s y (at_table s t xs f s y)) (sym same.1)
          (subst (P s t) (sym (at_table-same s t xs f)) p))
  | inr e ↦ subst (P s' t') (sym (at_table-other s t s' t' xs f e)) (q s' t' e)
]

pub update-elim :
    (P : ℕ → List ℕ → Type 0) (l : ℕ) (xs : List ℕ) (f : ℕ → List ℕ)
    → P l xs
    → ((l' : ℕ) → (l' == l) ≡ false → P l' (f l'))
    → (l' : ℕ) → P l' (update l xs f l')
update-elim P l xs f p q l' = elim (Bool-cases (l' == l)) [
  | inl e ↦ rw e (subst (λ x. P x xs) (sym ((==_iff l' l).0 e)) p)
  | inr e ↦ rw e (q l' e)
]

apart : (h f : ℕ) → suc f ≤ h → (h == f) ≡ false
apart h f m = ground arith

module _ (w : World) (k : Linked w) (s l t : ℕ) where
  abbrev added : Handle
  added = record { source = some s; listener = some l; type = t }

  abbrev After : ℕ → ℕ → List ℕ → Type 0
  After s' t' xs =
      (h : ℕ)
      → member h xs
        ≡ (let x = update w.fresh added w.handle h in points_at x.source s' && (x.type == t'))

  absent : (s' t' : ℕ) → member w.fresh (w.event_listener s' t') ≡ false
  absent s' t' = rw (k.tables s' t' w.fresh, null_source w k s')

  new_there : After s t (w.event_listener s t ++ w.fresh ∷ [])
  new_there h =
      rw (member-append h w.fresh (w.event_listener s t)) (elim (Bool-cases (h == w.fresh)) [
        | inl e ↦ rw (e, ==_refl s, ==_refl t)
        | inr e ↦ rw (e, k.tables s t h)
      ])

  new_elsewhere : (s' t' : ℕ) → (s' == s && t' == t) ≡ false → After s' t' (w.event_listener s' t')
  new_elsewhere s' t' e h = elim (Bool-cases (h == w.fresh)) [
    | inl f ↦
        rw (f, ==_swap s s', ==_swap t t', e)
          (subst (λ x. member x (w.event_listener s' t') ≡ false) (sym ((==_iff h w.fresh).0 f))
            (absent s' t'))
    | inr f ↦ rw (f, k.tables s' t' h)
  ]

  abbrev AfterList : ℕ → List ℕ → Type 0
  AfterList l' xs = (h : ℕ) → member h xs ≡ points_at (update w.fresh added w.handle h).listener l'

  listed_there : AfterList l (w.fresh ∷ w.handle_list l)
  listed_there h = elim (Bool-cases (h == w.fresh)) [
    | inl e ↦ rw (e, ==_refl l)
    | inr e ↦ rw (e, k.lists l h)
  ]

  listed_elsewhere : (l' : ℕ) → (l' == l) ≡ false → AfterList l' (w.handle_list l')
  listed_elsewhere l' e h = elim (Bool-cases (h == w.fresh)) [
    | inl f ↦
        rw (f, ==_swap l l', e)
          (subst (λ x. member x (w.handle_list l') ≡ false) (sym ((==_iff h w.fresh).0 f))
            (k.lists l' w.fresh ∙ null_listener w k l'))
    | inr f ↦ rw (f, k.lists l' h)
  ]

  pub register-Linked : Linked (register s l t w)
  unfolding register
  register-Linked = record {
    tables =
        at_table-elim After s t (w.event_listener s t ++ w.fresh ∷ []) w.event_listener new_there
          new_elsewhere;
    lists =
        update-elim AfterList l (w.fresh ∷ w.handle_list l) w.handle_list listed_there
          listed_elsewhere;
    paired = λ h. elim (Bool-cases (h == w.fresh)) [ inl e ↦ rw e | inr e ↦ rw e (k.paired h) ];
    tables_once =
        at_table-elim (λ s' t' xs. Once xs) s t (w.event_listener s t ++ w.fresh ∷ [])
          w.event_listener
          (append-Once w.fresh (w.event_listener s t) (absent s t) (k.tables_once s t))
          (λ s' t' e. k.tables_once s' t');
    lists_once =
        update-elim (λ l' xs. Once xs) l (w.fresh ∷ w.handle_list l) w.handle_list
          (k.lists l w.fresh ∙ null_listener w k l, k.lists_once l) (λ l' e. k.lists_once l');
    unborn = λ h m. rw (apart h w.fresh m) (k.unborn h (omega (arith, m)));
  }
