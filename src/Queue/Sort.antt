-- ===== src/Queue/Sort.antt =====
-- stdQueue.h: `sort`, a merge sort on a copy that leaves halves alone which are in order already.
pub mod Result
use mathlib.Core.List.{Perm, perm_middle, append-nil}
use mathlib.Core.List.Perm
use tiny_state.Prelude.{
  ℕ, zero, suc, ◌+◌, ◌-◌, ◌/◌, ◌≤◌, ◌<◌, ◌≡◌, ◌≢◌, ◌⊎◌, inl, inr, refl, sym, ap, subst, ◌∙◌, Bool,
  true, false, not, Option, none, some, List, [], ◌∷◌, ◌++◌, map, arith, leb, if◌then◌else◌, length,
  length-append, All, All-append, All-imp, Bool-cases, Option-cases, take, drop, take-append-drop,
  length-take, length-drop, ◌&&◌,
}
use tiny_state.Prelude.Int.{ℤ, pos, ◌≤ℤ◌, ltb_ℤ, leb_ℤ, eqb_ℤ}
use tiny_state.Queue.{Cell, Queue, copy, set_tail}
use tiny_state.Queue.Valid.{Distinct, IsValid}

module _ {ℓ} {A : Type ℓ} (cmp : A → A → ℤ) where
  -- the loop of `_sort`; elements that compare equal are taken from both sides at once
  unfoldable pub merge : List (Cell A) → List (Cell A) → List (Cell A)
  merge [] bs = bs
  merge (a ∷ as') [] = a ∷ as'
  merge (a ∷ as') (b ∷ bs) =
      let left = merge as' (b ∷ bs) in
      let right = merge (a ∷ as') bs in
      let both = merge as' bs in
      if ltb_ℤ (cmp a.item b.item) (pos 0)
      then a ∷ left
      else if ltb_ℤ (pos 0) (cmp a.item b.item)
      then b ∷ right
      else a ∷ b ∷ both

  -- the scan of `_div` over one half
  unfoldable pub in_order : List (Cell A) → Bool
  in_order [] = true
  in_order (a ∷ []) = true
  in_order (a ∷ b ∷ cs) = leb_ℤ (cmp a.item b.item) (pos 0) && in_order (b ∷ cs)

  unfoldable pub sort_half : List (Cell A) → List (Cell A) → List (Cell A)
  unfolding in_order
  sort_half cs sorted = if in_order cs then cs else sorted

  -- `_sort` and `_div`; the fuel bounds the depth of the recursion
  unfoldable pub sort_chain : ℕ → List (Cell A) → List (Cell A)
  unfolding merge sort_half
  sort_chain zero cs = cs
  sort_chain (suc n) cs =
      let half = length cs / 2 in
      let front = sort_chain n (take half cs) in
      let back = sort_chain n (drop half cs) in
      if leb (length cs) 1
      then cs
      else merge (sort_half (take half cs) front) (sort_half (drop half cs) back)

  -- `sort(cmp)`
  unfoldable pub sort : Queue A → Queue A
  unfolding sort_chain copy set_tail
  sort q = let r = copy q in set_tail (record r { chain = sort_chain (length r.chain) r.chain })

  merge-perm : (as' bs : List (Cell A)) → Perm (merge as' bs) (as' ++ bs)
  unfolding merge
  merge-perm [] bs = Perm.refl bs
  merge-perm (a ∷ as') [] = rw append-nil (Perm.refl (a ∷ as'))
  merge-perm (a ∷ as') (b ∷ bs) = elim (Bool-cases (ltb_ℤ (cmp a.item b.item) (pos 0))) [
    | inl e ↦ rw e (Perm.cons a (merge-perm as' (b ∷ bs)))
    | inr e ↦ elim (Bool-cases (ltb_ℤ (pos 0) (cmp a.item b.item))) [
      | inl h ↦
          rw (e, h)
            (Perm.trans (Perm.cons b (merge-perm (a ∷ as') bs))
              (Perm.symm (perm_middle (a ∷ as') bs)))
      | inr h ↦
          rw (e, h)
            (Perm.cons a
              (Perm.trans (Perm.cons b (merge-perm as' bs)) (Perm.symm (perm_middle as' bs))))
    ]
  ]

  sort_half-perm : (cs ds : List (Cell A)) → Perm ds cs → Perm (sort_half cs ds) cs
  unfolding sort_half
  sort_half-perm cs ds p = elim (Bool-cases (in_order cs)) [
    | inl e ↦ rw e (Perm.refl cs)
    | inr e ↦ rw e p
  ]

  sort_chain-perm : (n : ℕ) (cs : List (Cell A)) → Perm (sort_chain n cs) cs
  unfolding sort_chain
  sort_chain-perm zero cs = Perm.refl cs
  sort_chain-perm (suc n) cs = elim (Bool-cases (leb (length cs) 1)) [
    | inl e ↦ rw e (Perm.refl cs)
    | inr e ↦
        let half = length cs / 2 in
        let front = take half cs in
        let back = drop half cs in
        let parts =
          Perm.append (sort_half-perm front (sort_chain n front) (sort_chain-perm n front))
            (sort_half-perm back (sort_chain n back) (sort_chain-perm n back)) in
        rw e (
          Perm.trans
            (merge-perm (sort_half front (sort_chain n front)) (sort_half back (sort_chain n back)))
            (subst (Perm _) (take-append-drop half cs) parts))
  ]

-- what a comparison function has to be for a sort to make sense
pub record IsPreorder {ℓ} {A : Type ℓ} (cmp : A → A → ℤ) : Type ℓ where
  pub flip : (a b : A) → pos 0 ≤ℤ cmp a b → cmp b a ≤ℤ pos 0
  pub trans : (a b c : A) → cmp a b ≤ℤ pos 0 → cmp b c ≤ℤ pos 0 → cmp a c ≤ℤ pos 0

module _ {ℓ} {A : Type ℓ} (cmp : A → A → ℤ) (order : IsPreorder cmp) where
  open order use {flip, trans}

  abbrev pub First : Cell A → List (Cell A) → Type 0
  First a = All (λ c. cmp a.item c.item ≤ℤ pos 0)

  abbrev pub IsSorted : List (Cell A) → Type 0
  IsSorted [] = Unit
  IsSorted (c ∷ cs) = First c cs × IsSorted cs

  First-trans :
      (a b : Cell A) (cs : List (Cell A)) → cmp a.item b.item ≤ℤ pos 0 → First b cs → First a cs
  First-trans a b cs h f = All-imp (λ c g. trans a.item b.item c.item h g) cs f

  merge-First :
      (x : Cell A) (as' bs : List (Cell A)) → First x as' → First x bs → First x (merge cmp as' bs)
  unfolding merge
  merge-First x [] bs f g = g
  merge-First x (a ∷ as') [] f g = f
  merge-First x (a ∷ as') (b ∷ bs) f g = elim (Bool-cases (ltb_ℤ (cmp a.item b.item) (pos 0))) [
    | inl e ↦ rw e (f.0, merge-First x as' (b ∷ bs) f.1 g)
    | inr e ↦ elim (Bool-cases (ltb_ℤ (pos 0) (cmp a.item b.item))) [
      | inl h ↦ rw (e, h) (g.0, merge-First x (a ∷ as') bs f g.1)
      | inr h ↦ rw (e, h) (f.0, (g.0, merge-First x as' bs f.1 g.1))
    ]
  ]

  merge-IsSorted :
      (as' bs : List (Cell A)) → IsSorted as' → IsSorted bs → IsSorted (merge cmp as' bs)
  unfolding merge
  merge-IsSorted [] bs s t = t
  merge-IsSorted (a ∷ as') [] s t = s
  merge-IsSorted (a ∷ as') (b ∷ bs) s t = elim (Bool-cases (ltb_ℤ (cmp a.item b.item) (pos 0))) [
    | inl e ↦
        let ab : cmp a.item b.item ≤ℤ pos 0 = ground arith in
        rw e (
          merge-First a as' (b ∷ bs) s.0 (ab, First-trans a b bs ab t.0),
          merge-IsSorted as' (b ∷ bs) s.1 t,
        )
    | inr e ↦
        let ba : cmp b.item a.item ≤ℤ pos 0 = flip a.item b.item (ground arith) in
        elim (Bool-cases (ltb_ℤ (pos 0) (cmp a.item b.item))) [
          | inl h ↦
              rw (e, h)
                (
                  merge-First b (a ∷ as') bs (ba, First-trans b a as' ba s.0) t.0,
                  merge-IsSorted (a ∷ as') bs s t.1,
                )
          | inr h ↦
              let ab : cmp a.item b.item ≤ℤ pos 0 = ground arith in
              rw (e, h)
                (
                  (ab, merge-First a as' bs s.0 (First-trans a b bs ab t.0)),
                  (
                    merge-First b as' bs (First-trans b a as' ba s.0) t.0,
                    merge-IsSorted as' bs s.1 t.1,
                  ),
                )
        ]
  ]

  in_order-IsSorted : (cs : List (Cell A)) → in_order cmp cs ≡ true → IsSorted cs
  unfolding in_order
  in_order-IsSorted [] e = tt
  in_order-IsSorted (a ∷ []) e = (tt, tt)
  in_order-IsSorted (a ∷ b ∷ cs) e =
      let rest : IsSorted (b ∷ cs) = in_order-IsSorted (b ∷ cs) (ground arith) in
      let ab : cmp a.item b.item ≤ℤ pos 0 = ground arith in
      ((ab, First-trans a b cs ab rest.0), rest)

  sort_half-IsSorted : (cs ds : List (Cell A)) → IsSorted ds → IsSorted (sort_half cmp cs ds)
  unfolding sort_half
  sort_half-IsSorted cs ds s = elim (Bool-cases (in_order cmp cs)) [
    | inl e ↦ rw e (in_order-IsSorted cs e)
    | inr e ↦ rw e s
  ]

  short-IsSorted : (cs : List (Cell A)) → length cs ≤ 1 → IsSorted cs
  short-IsSorted [] h = tt
  short-IsSorted (a ∷ []) h = (tt, tt)
  short-IsSorted (a ∷ b ∷ cs) h = absurd (omega arith)

  -- the number of elements is enough fuel
  sort_chain-IsSorted :
      (n : ℕ) (cs : List (Cell A)) → length cs ≤ n → IsSorted (sort_chain cmp n cs)
  unfolding sort_chain
  sort_chain-IsSorted zero cs h = short-IsSorted cs (omega arith)
  sort_chain-IsSorted (suc n) cs h = elim (Bool-cases (leb (length cs) 1)) [
    | inl e ↦ rw e (short-IsSorted cs (ground arith))
    | inr e ↦
        let long : 1 < length cs = ground arith in
        let front = take (length cs / 2) cs in
        let back = drop (length cs / 2) cs in
        let f : length front ≤ n = omega (arith, length-take (length cs / 2) cs) in
        let b : length back ≤ n = omega (arith, length-drop (length cs / 2) cs) in
        rw e (
          merge-IsSorted (sort_half cmp front (sort_chain cmp n front))
            (sort_half cmp back (sort_chain cmp n back))
            (sort_half-IsSorted front (sort_chain cmp n front) (sort_chain-IsSorted n front f))
            (sort_half-IsSorted back (sort_chain cmp n back) (sort_chain-IsSorted n back b)))
  ]
