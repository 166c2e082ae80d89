-- ===== src/WaitQueue/Order.antt =====
-- stdLimitSemaphore.cpp: the buckets read as the list of waiters that stdQueue keeps.
use mathlib.Core.List.{map-append, append_assoc}
use tiny_state.Prelude.{
  ℕ, ◌≡◌, ◌≢◌, inl, inr, refl, sym, ap, ◌∙◌, Bool, true, false, Option, none, some, List, [], ◌∷◌,
  ◌++◌, map, arith, if◌then◌else◌, All, All-imp, Bool-cases,
}
use tiny_state.Prelude.Int.{ℤ, ◌<ℤ◌, ltb_ℤ, leb_ℤ, eqb_ℤ, eqb_ℤ_iff}
use tiny_state.Queue.{Cell, link_sorted, stops_at}
use tiny_state.Queue.Order.{entry}
use tiny_state.WaitQueue.{Buckets, put, join, pop_front}

abbrev pub row : ℤ → List ℕ → List (ℤ × ℕ)
row j l = map (λ x. (j, x)) l

-- the waiters in the order of service
abbrev pub flat : Buckets → List (ℤ × ℕ)
flat [] = []
flat ((j, l) ∷ m) = row j l ++ flat m

-- Keys strictly ascend, and no bucket is empty.
abbrev pub IsWell : Buckets → Type 0
IsWell [] = Unit
IsWell ((j, l) ∷ m) = (l ≢ []) × All (λ (b : ℤ × List ℕ). j <ℤ b.0) m × IsWell m

abbrev stop : Bool → ℤ → ℤ → Bool
stop ties k j = if ties then ltb_ℤ k j else leb_ℤ k j

-- the place that stdQueue's search finds, on keys and data
unfoldable pub place_entry : Bool → ℤ → ℕ → List (ℤ × ℕ) → List (ℤ × ℕ)
place_entry ties k x [] = (k, x) ∷ []
place_entry ties k x ((j, y) ∷ es) =
    if stop ties k j then (k, x) ∷ (j, y) ∷ es else (j, y) ∷ place_entry ties k x es

stops_at-stop : (ties : Bool) (k : ℤ) (c : Cell ℕ) → stops_at ties k c ≡ stop ties k c.key
unfolding stops_at
stops_at-stop true k c = refl
stops_at-stop false k c = refl

pub entries-link_sorted :
    (ties : Bool) (el : Cell ℕ) (cs : List (Cell ℕ))
    → map entry (link_sorted ties el cs) ≡ place_entry ties el.key el.item (map entry cs)
unfolding link_sorted place_entry
entries-link_sorted ties el [] = refl
entries-link_sorted ties el (c ∷ cs) = elim (Bool-cases (stop ties el.key c.key)) [
  | inl e ↦ rw (stops_at-stop ties el.key c, e)
  | inr e ↦
      rw (stops_at-stop ties el.key c, e) (ap (◌∷◌ (entry c)) (entries-link_sorted ties el cs))
]

-- a whole row is passed, or stopped at
place_entry-pass :
    (ties : Bool) (k j : ℤ) (x : ℕ) (l : List ℕ) (es : List (ℤ × ℕ))
    → stop ties k j ≡ false
    → place_entry ties k x (row j l ++ es) ≡ row j l ++ place_entry ties k x es
unfolding place_entry
place_entry-pass ties k j x [] es e = refl
place_entry-pass ties k j x (y ∷ l) es e =
    rw e (ap (◌∷◌ (j, y)) (place_entry-pass ties k j x l es e))

place_entry-stop :
    (ties : Bool) (k j : ℤ) (x : ℕ) (l : List ℕ) (es : List (ℤ × ℕ))
    → l ≢ []
    → stop ties k j ≡ true
    → place_entry ties k x (row j l ++ es) ≡ (k, x) ∷ row j l ++ es
unfolding place_entry
place_entry-stop ties k j x [] es n e = absurd (n refl)
place_entry-stop ties k j x (y ∷ l) es n e = rw e

place_entry-first :
    (ties : Bool) (k : ℤ) (x : ℕ) (m : Buckets)
    → IsWell m
    → All (λ (b : ℤ × List ℕ). k <ℤ b.0) m
    → place_entry ties k x (flat m) ≡ (k, x) ∷ flat m
unfolding place_entry
place_entry-first ties k x [] w h = refl
place_entry-first ties k x ((j, l) ∷ m) w h =
    place_entry-stop ties k j x l (flat m) w.0 (stop_lt ties)
  where
    stop_lt : (t : Bool) → stop t k j ≡ true
    stop_lt true = ground arith
    stop_lt false = ground arith

same_bucket :
    (ties : Bool) (k : ℤ) (x : ℕ) (l : List ℕ) (m : Buckets)
    → l ≢ []
    → IsWell m
    → All (λ (b : ℤ × List ℕ). k <ℤ b.0) m
    → row k (join ties x l) ++ flat m ≡ place_entry ties k x (row k l ++ flat m)
same_bucket true k x l m n w h =
    ap (λ es. es ++ flat m) (map-append (λ y. (k, y)) l (x ∷ []))
    ∙ append_assoc (row k l) ((k, x) ∷ []) (flat m)
    ∙ ap (◌++◌ (row k l)) (sym (place_entry-first true k x m w h))
    ∙ sym (place_entry-pass true k k x l (flat m) (ground arith))
same_bucket false k x l m n w h = sym (place_entry-stop false k k x l (flat m) n (ground arith))

lt_stop : (ties : Bool) (k j : ℤ) → ltb_ℤ k j ≡ true → stop ties k j ≡ true
lt_stop true k j e = e
lt_stop false k j e = ground arith

gt_stop : (ties : Bool) (k j : ℤ) → ltb_ℤ k j ≡ false → eqb_ℤ k j ≡ false → stop ties k j ≡ false
gt_stop true k j e h = e
gt_stop false k j e h = ground arith

-- A bucket insertion is the linked list's insertion.
pub flat-put :
    (ties : Bool) (k : ℤ) (x : ℕ) (m : Buckets)
    → IsWell m
    → flat (put ties k x m) ≡ place_entry ties k x (flat m)
unfolding put place_entry
flat-put ties k x [] w = refl
flat-put ties k x ((j, l) ∷ m) w = elim (Bool-cases (ltb_ℤ k j)) [
  | inl e ↦ rw e (sym (place_entry-stop ties k j x l (flat m) w.0 (lt_stop ties k j e)))
  | inr e ↦ elim (Bool-cases (eqb_ℤ k j)) [
    | inl h ↦
        let same : k ≡ j = (eqb_ℤ_iff k j).0 h in
        rw (e, h, same) (same_bucket ties j x l m w.0 w.2 w.1)
    | inr h ↦
        rw (e, h)
          (ap (◌++◌ (row j l)) (flat-put ties k x m w.2)
            ∙ sym (place_entry-pass ties k j x l (flat m) (gt_stop ties k j e h)))
  ]
]

put-above :
    (i : ℤ) (ties : Bool) (k : ℤ) (x : ℕ) (m : Buckets)
    → i <ℤ k
    → All (λ (b : ℤ × List ℕ). i <ℤ b.0) m
    → All (λ (b : ℤ × List ℕ). i <ℤ b.0) (put ties k x m)
unfolding put
put-above i ties k x [] h a = (h, tt)
put-above i ties k x ((j, l) ∷ m) h a = elim (Bool-cases (ltb_ℤ k j)) [
  | inl e ↦ rw e (h, a)
  | inr e ↦ elim (Bool-cases (eqb_ℤ k j)) [
    | inl g ↦ rw (e, g) a
    | inr g ↦ rw (e, g) (a.0, put-above i ties k x m h a.1)
  ]
]

join-ne-nil : (ties : Bool) (x : ℕ) (l : List ℕ) → join ties x l ≢ []
join-ne-nil true x [] = λ e. cc
join-ne-nil true x (y ∷ l) = λ e. cc
join-ne-nil false x l = λ e. cc

pub put-IsWell : (ties : Bool) (k : ℤ) (x : ℕ) (m : Buckets) → IsWell m → IsWell (put ties k x m)
unfolding put
put-IsWell ties k x [] w = ((λ e. cc), tt, tt)
put-IsWell ties k x ((j, l) ∷ m) w = elim (Bool-cases (ltb_ℤ k j)) [
  | inl e ↦
      let kj : k <ℤ j = ground arith in
      rw e ((λ e. cc), (kj, All-imp (λ b (h : j <ℤ b.0). omega arith) m w.1), w)
  | inr e ↦ elim (Bool-cases (eqb_ℤ k j)) [
    | inl g ↦ rw (e, g) (join-ne-nil ties x l, w.1, w.2)
    | inr g ↦ rw (e, g) (w.0, put-above j ties k x m (ground arith) w.1, put-IsWell ties k x m w.2)
  ]
]

abbrev pub Pops : Buckets → Option (ℕ × Buckets) → Type 0
Pops m none = flat m ≡ []
Pops m (some (x, m')) = (k : ℤ) × (flat m ≡ (k, x) ∷ flat m') × IsWell m'

-- The first bucket's head is the first waiter.
pub pop_front-Pops : (m : Buckets) → IsWell m → Pops m (pop_front m)
unfolding pop_front
pop_front-Pops [] w = refl
pop_front-Pops ((j, []) ∷ m) w = absurd (w.0 refl)
pop_front-Pops ((j, x ∷ []) ∷ m) w = (j, refl, w.2)
pop_front-Pops ((j, x ∷ y ∷ l) ∷ m) w = (j, refl, ((λ e. cc), w.1, w.2))
