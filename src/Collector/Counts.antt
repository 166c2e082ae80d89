-- ===== src/Collector/Counts.antt =====
-- stdObject.cpp: the count of an object and the places where it waits.
use tiny_state.Prelude.{
  ℕ, suc, ◌+◌, ◌≡◌, ◌≢◌, refl, sym, ap, ap₂, subst, ◌∙◌, inl, inr, Bool, true, false, Option, none,
  some, List, [], ◌∷◌, ◌++◌, map, ◌==◌, ==_iff, ==_refl, leb, if◌then◌else◌, update, arith,
  Bool-cases,
}
use tiny_state.Collector.{
  Task, sweep, deletes, raises, World, bucket, reported, queued, listed, counted_down, relref_at,
  relref, when_flagged,
}

-- how often an object is in a list, and how often in the loops of the collector
abbrev pub times : ℕ → List ℕ → ℕ
times x [] = 0
times x (y ∷ ys) = let n = times x ys in if x == y then suc n else n

abbrev pub deletions : ℕ → List Task → ℕ
deletions x [] = 0
deletions x (sweep id ∷ ts) = deletions x ts
deletions x (deletes y ∷ ts) = let n = deletions x ts in if x == y then suc n else n
deletions x (raises y ∷ ts) = deletions x ts

abbrev pub events : ℕ → List Task → ℕ
events x [] = 0
events x (sweep id ∷ ts) = events x ts
events x (deletes y ∷ ts) = events x ts
events x (raises y ∷ ts) = let n = events x ts in if x == y then suc n else n

times-append : (x : ℕ) (xs ys : List ℕ) → times x (xs ++ ys) ≡ times x xs + times x ys
times-append x [] ys = omega arith
times-append x (y ∷ xs) ys = ground (arith, times-append x xs ys)

-- the tasks that a list gives
pub deletions_of :
    (x : ℕ) (xs : List ℕ) (ts : List Task)
    → deletions x (map deletes xs ++ ts) ≡ times x xs + deletions x ts
deletions_of x [] ts = omega arith
deletions_of x (y ∷ xs) ts = ground (arith, deletions_of x xs ts)

pub deletions_raised :
    (x : ℕ) (xs : List ℕ) (ts : List Task) → deletions x (map raises xs ++ ts) ≡ deletions x ts
deletions_raised x [] ts = refl
deletions_raised x (y ∷ xs) ts = deletions_raised x xs ts

pub deletions_flagged :
    (x : ℕ) (b : Bool) (id : ℕ) (ts : List Task)
    → deletions x (when_flagged b id ++ ts) ≡ deletions x ts
deletions_flagged x true id ts = refl
deletions_flagged x false id ts = refl

pub events_deleted :
    (x : ℕ) (xs : List ℕ) (ts : List Task) → events x (map deletes xs ++ ts) ≡ events x ts
events_deleted x [] ts = refl
events_deleted x (y ∷ xs) ts = events_deleted x xs ts

pub events_of :
    (x : ℕ) (xs : List ℕ) (ts : List Task)
    → events x (map raises xs ++ ts) ≡ times x xs + events x ts
events_of x [] ts = omega arith
events_of x (y ∷ xs) ts = ground (arith, events_of x xs ts)

pub events_flagged :
    (x : ℕ) (b : Bool) (id : ℕ) (ts : List Task) → events x (when_flagged b id ++ ts) ≡ events x ts
events_flagged x true id ts = refl
events_flagged x false id ts = refl

-- The count of an object is the number of references that the program and the collector hold; at 0 it
-- waits for its deletion, at one place.
abbrev pub Counts : Option ℕ → ℕ → ℕ → ℕ → Type 0
Counts none h p t = (h ≡ 0) × (p ≡ 0) × (t ≡ 0)
Counts (some n) h p t = (n ≡ h + t) × (p ≡ (if n == 0 then 1 else 0))

abbrev pub waits : ℕ → World → ℕ
waits x w = times x (w.ref_list (bucket x)) + deletions x w.stack

abbrev pub tokens : ℕ → World → ℕ
tokens x w = times x (w.ref_event (bucket x)) + events x w.stack

abbrev pub Placed : (ℕ → List ℕ) → Type 0
Placed l = (b x : ℕ) → b ≢ bucket x → times x (l b) ≡ 0

pub record Sound (w : World) : Type 0 where
  pub counts : (x : ℕ) → Counts (w.ref x) (w.held x) (waits x w) (tokens x w)
  pub list_placed : Placed w.ref_list
  pub event_placed : Placed w.ref_event

pub reported-Sound : (id : ℕ) (w : World) → Sound w → Sound (reported id w)
unfolding reported
reported-Sound id w s = elim (Bool-cases (id == 0)) [
  | inl e ↦ rw e s
  | inr e ↦
      rw e
        (record { counts = s.counts; list_placed = s.list_placed; event_placed = s.event_placed })
]

-- a list that goes into one bucket
pub updated-Placed :
    (id : ℕ) (m : List ℕ) (l : ℕ → List ℕ)
    → Placed l
    → ((y : ℕ) → id ≢ bucket y → times y m ≡ 0)
    → Placed (update id m l)
updated-Placed id m l k h b y n = elim (Bool-cases (b == id)) [
  | inl e ↦ ap (λ c. times y (if c then m else l b)) e ∙ h y (λ q. n ((==_iff b id).0 e ∙ q))
  | inr e ↦ ap (λ c. times y (if c then m else l b)) e ∙ k b y n
]

times-other : (x y : ℕ) (l : List ℕ) → x ≢ y → times y (x ∷ l) ≡ times y l
times-other x y l n = ground (arith, n)

-- one more in the list of its bucket
pushed-Placed :
    (x : ℕ) (l : ℕ → List ℕ) → Placed l → Placed (update (bucket x) (x ∷ l (bucket x)) l)
pushed-Placed x l k =
    updated-Placed (bucket x) (x ∷ l (bucket x)) l k
      (λ y n. times-other x y (l (bucket x)) (λ e. n (ap bucket e)) ∙ k (bucket x) y n)

appended-Placed :
    (x : ℕ) (l : ℕ → List ℕ) → Placed l → Placed (update (bucket x) (l (bucket x) ++ x ∷ []) l)
appended-Placed x l k = updated-Placed (bucket x) (l (bucket x) ++ x ∷ []) l k (λ y n.
    times-append y (l (bucket x)) (x ∷ [])
    ∙ ap₂ (λ i j. i + j) (k (bucket x) y n) (times-other x y [] (λ e. n (ap bucket e))))

abbrev one_more : ℕ → ℕ → ℕ → ℕ
one_more x y n = if y == x then suc n else n

-- what an object counts in its bucket once another one was put into a bucket
times-updated :
    (x y : ℕ) (m : List ℕ) (l : ℕ → List ℕ)
    → times y m ≡ one_more x y (times y (l (bucket x)))
    → times y (update (bucket x) m l (bucket y)) ≡ one_more x y (times y (l (bucket y)))
times-updated x y m l h = elim (Bool-cases (bucket y == bucket x)) [
  | inl e ↦
      ap (λ c. times y (if c then m else l (bucket y))) e
      ∙ h
      ∙ ap (λ b. one_more x y (times y (l b))) (sym ((==_iff (bucket y) (bucket x)).0 e))
  | inr e ↦
      ap (λ c. times y (if c then m else l (bucket y))) e
      ∙ sym (ap (λ c. if c then suc (times y (l (bucket y))) else times y (l (bucket y))) (apart e))
]
  where
    apart : (bucket y == bucket x) ≡ false → (y == x) ≡ false
    apart e = elim (Bool-cases (y == x)) [
      | inl f ↦
          absurd
            (cc (e, ap (λ z. z == bucket x) (ap bucket ((==_iff y x).0 f)), ==_refl (bucket x)))
      | inr f ↦ f
    ]

times-pushed :
    (x y : ℕ) (l : ℕ → List ℕ)
    → times y (update (bucket x) (x ∷ l (bucket x)) l (bucket y))
      ≡ one_more x y (times y (l (bucket y)))
times-pushed x y l = times-updated x y (x ∷ l (bucket x)) l refl

times-appended :
    (x y : ℕ) (l : ℕ → List ℕ)
    → times y (update (bucket x) (l (bucket x) ++ x ∷ []) l (bucket y))
      ≡ one_more x y (times y (l (bucket y)))
times-appended x y l =
    times-updated x y (l (bucket x) ++ x ∷ []) l
      (times-append y (l (bucket x)) (x ∷ []) ∙ ground arith)

-- An object that loses a reference of the program or of the collector: it is counted once too often.
pub record Owing (x n : ℕ) (w : World) : Type 0 where
  pub counted : w.ref x ≡ some (suc n)
  pub owed : n ≡ w.held x + tokens x w
  pub waits_not : waits x w ≡ 0
  pub others : (y : ℕ) → (y == x) ≡ false → Counts (w.ref y) (w.held y) (waits y w) (tokens y w)
  pub list_placed : Placed w.ref_list
  pub event_placed : Placed w.ref_event

abbrev pub Counted : World → ℕ → Type 0
Counted w x = Counts (w.ref x) (w.held x) (waits x w) (tokens x w)

pub Counts-cong :
    {r s : Option ℕ} {h i p q t u : ℕ}
    → r ≡ s
    → h ≡ i
    → p ≡ q
    → t ≡ u
    → Counts s i q u
    → Counts r h p t
Counts-cong {r} {s} {h} {i} {p} {q} {t} {u} a b c d k =
    subst (λ r'. Counts r' h p t) (sym a)
      (subst (λ h'. Counts s h' p t) (sym b)
        (subst (λ p'. Counts s i p' t) (sym c) (subst (λ t'. Counts s i q t') (sym d) k)))

pub split-Counted :
    (x : ℕ) (w : World)
    → Counted w x
    → ((y : ℕ) → (y == x) ≡ false → Counted w y)
    → (y : ℕ) → Counted w y
split-Counted x w a b y = elim (Bool-cases (y == x)) [
  | inl e ↦ subst (Counted w) (sym ((==_iff y x).0 e)) a
  | inr e ↦ b y e
]

one_more_same : (x n : ℕ) → one_more x x n ≡ suc n
one_more_same x n = ap (λ c. if c then suc n else n) (==_refl x)

one_more_other : (x y n : ℕ) → (y == x) ≡ false → one_more x y n ≡ n
one_more_other x y n e = ap (λ c. if c then suc n else n) e

pub update_same {ℓ} : {A : Type ℓ} (x : ℕ) (a : A) (f : ℕ → A) → update x a f x ≡ a
update_same x a f = ap (λ c. if c then a else f x) (==_refl x)

pub update_other {ℓ} :
    {A : Type ℓ} (x y : ℕ) (a : A) (f : ℕ → A) → (y == x) ≡ false → update x a f y ≡ f y
update_other x y a f e = ap (λ c. if c then a else f y) e

queued-Sound : (x n : ℕ) (w : World) → Owing x n w → Sound (queued x w)
unfolding queued
queued-Sound x n w o = reported-Sound (bucket x) v (record {
  counts =
      split-Counted x v
        (Counts-cong o.counted refl o.waits_not
          (ap (λ i. i + events x w.stack)
            (times-appended x x w.ref_event ∙ one_more_same x (times x (w.ref_event (bucket x)))))
          (omega (arith, o.owed), ground arith))
        (λ y e.
          Counts-cong refl refl refl
            (ap (λ i. i + events y w.stack)
              (times-appended x y w.ref_event
                ∙ one_more_other x y (times y (w.ref_event (bucket y))) e))
            (o.others y e));
  list_placed = o.list_placed;
  event_placed = appended-Placed x w.ref_event o.event_placed;
})
  where
    v : World
    v = record w {
      watch = update x 0 w.watch;
      ref_event = update (bucket x) (w.ref_event (bucket x) ++ x ∷ []) w.ref_event;
    }

listed-Sound :
    (x : ℕ) (w : World)
    → w.ref x ≡ some 0
    → w.held x + tokens x w ≡ 0
    → waits x w ≡ 0
    → ((y : ℕ) → (y == x) ≡ false → Counted w y)
    → Placed w.ref_list
    → Placed w.ref_event
    → Sound (listed x w)
unfolding listed
listed-Sound x w r h z others pl pe = reported-Sound (bucket x) v (record {
  counts =
      split-Counted x v
        (Counts-cong r refl
          (ap (λ i. i + deletions x w.stack)
            (times-pushed x x w.ref_list ∙ one_more_same x (times x (w.ref_list (bucket x)))))
          refl (omega (arith, h), omega (arith, z)))
        (λ y e.
          Counts-cong refl refl
            (ap (λ i. i + deletions y w.stack)
              (times-pushed x y w.ref_list
                ∙ one_more_other x y (times y (w.ref_list (bucket y))) e))
            refl (others y e));
  list_placed = pushed-Placed x w.ref_list pl;
  event_placed = pe;
})
  where
    v : World
    v = record w { ref_list = update (bucket x) (x ∷ w.ref_list (bucket x)) w.ref_list }

counted_down-Sound : (x n : ℕ) (w : World) → Owing x n w → Sound (counted_down x n w)
unfolding counted_down
counted_down-Sound x n w o = elim (Bool-cases (n == 0)) [
  | inl e ↦ rw e (
      listed-Sound x v (update_same x (some n) w.ref ∙ ap some ((==_iff n 0).0 e))
        (sym o.owed ∙ (==_iff n 0).0 e) o.waits_not others o.list_placed o.event_placed)
  | inr e ↦ rw e (record {
    counts =
        split-Counted x v
          (Counts-cong (update_same x (some n) w.ref) refl o.waits_not refl
            (o.owed, sym (ap (λ c. if c then 1 else 0) e)))
          others;
    list_placed = o.list_placed;
    event_placed = o.event_placed;
  })
]
  where
    v : World
    v = record w { ref = update x (some n) w.ref }

    others : (y : ℕ) → (y == x) ≡ false → Counted v y
    others y e = Counts-cong (update_other x y (some n) w.ref e) refl refl refl (o.others y e)

-- a result that is no panic
abbrev pub Fine : Option World → Type 0
Fine none = ⊥
Fine (some w) = Sound w

pub relref-Fine : (x n : ℕ) (w : World) → Owing x n w → Fine (relref x w)
unfolding relref relref_at
relref-Fine x n w o = elim (Bool-cases (leb (suc n) (w.watch x))) [
  | inl e ↦ rw (o.counted, e) (queued-Sound x n w o)
  | inr e ↦ rw (o.counted, e) (counted_down-Sound x n w o)
]
