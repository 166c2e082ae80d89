-- ===== src/Queue/Near.antt =====
-- stdQueue.h: `ins(ref, d, cmp)`, which places an element beside one that the queue holds.
use tiny_state.Prelude.{
  ℕ, suc, ◌≡◌, ◌≢◌, ◌⊎◌, inl, inr, refl, sym, ap, ◌∙◌, Option, none, some, List, [], ◌∷◌, arith,
  if◌then◌else◌, length, length-append, Bool-cases, Option-cases, ◌==◌,
}
use tiny_state.Prelude.Int.{ℤ, pos, ltb_ℤ, eqb_ℤ, eqb_ℤ_iff}
use tiny_state.Queue.{Cell, Queue, link_tail}
use tiny_state.Queue.Valid.{IsValid, link_tail-chain}

module _ {ℓ} {A : Type ℓ} where
  -- a new element, whose key the allocation leaves at 0
  abbrev pub keyless : Queue A → A → Cell A
  keyless q x = record { addr = q.fresh; key = pos 0; item = x }

  abbrev pub keep : Cell A → Option (List (Cell A)) → Option (List (Cell A))
  keep c none = none
  keep c (some cs) = some (c ∷ cs)

  -- The loop: behind the first element with a positive answer, or before the first with a negative.
  unfoldable pub place : (A → ℤ) → Cell A → List (Cell A) → Option (List (Cell A))
  place f el [] = none
  place f el (c ∷ cs) =
      let rest = place f el cs in
      if eqb_ℤ (f c.item) (pos 0)
      then keep c rest
      else if ltb_ℤ (pos 0) (f c.item)
      then some (c ∷ el ∷ cs)
      else some (el ∷ c ∷ cs)

  -- the address that the cell at an address links to
  unfoldable pub link_of : ℕ → List (Cell A) → Option ℕ
  link_of t [] = none
  link_of t (c ∷ []) = none
  link_of t (c ∷ d ∷ cs) =
      let rest = link_of t (d ∷ cs) in if c.addr == t then some d.addr else rest

  -- `if ( tail->next ) tail = tail->next`
  unfoldable pub advance_tail : Option ℕ → List (Cell A) → Option ℕ
  unfolding link_of
  advance_tail none cs = none
  advance_tail (some t) cs = elim (link_of t cs) [ none ↦ some t | some n ↦ some n ]

  -- No element answered: the null pointer is asked, for the head or the tail.
  unfoldable pub ins_edge : ℤ → Cell A → Queue A → List (Cell A) → Queue A
  unfolding link_tail
  ins_edge r el q [] =
      if eqb_ℤ r (pos 0)
      then q
      else record q { chain = el ∷ []; tail = some el.addr; fresh = suc q.fresh }
  ins_edge r el q (c ∷ cs) =
      if eqb_ℤ r (pos 0)
      then q
      else if ltb_ℤ (pos 0) r
      then record q { chain = el ∷ c ∷ cs; fresh = suc q.fresh }
      else record q {
        chain = link_tail q.tail el q.chain;
        tail = some el.addr;
        fresh = suc q.fresh;
      }

  unfoldable pub ins_placed : ℤ → Cell A → Queue A → Option (List (Cell A)) → Queue A
  unfolding advance_tail ins_edge
  ins_placed r el q none = ins_edge r el q q.chain
  ins_placed r el q (some cs) = record q {
    chain = cs;
    tail = advance_tail q.tail cs;
    fresh = suc q.fresh;
  }

  -- `ins(ref, d, cmp)`: `f` is `cmp(·, ref)`, and `r` its answer for the null pointer
  unfoldable pub ins_near : (A → ℤ) → ℤ → A → Queue A → Queue A
  unfolding ins_placed place
  ins_near f r x q = ins_placed r (keyless q x) q (place f (keyless q x) q.chain)

  pub length-place :
      (f : A → ℤ) (el : Cell A) (cs ds : List (Cell A))
      → place f el cs ≡ some ds
      → length ds ≡ suc (length cs)
  unfolding place
  length-place f el [] ds e = cc
  length-place f el (c ∷ cs) ds e = elim (Option-cases (place f el cs)) [
    | inl h ↦ ground arith
    | inr (es, h) ↦ ground (arith, length-place f el cs es)
  ]

  -- an insertion happens unless no element and not the null pointer gives an answer
  abbrev pub Answers : (A → ℤ) → ℤ → List (Cell A) → Type 0
  Answers f r [] = r ≢ pos 0
  Answers f r (c ∷ cs) = (f c.item ≢ pos 0) ⊎ Answers f r cs

  ins_edge-miscounts :
      (r : ℤ) (x : A) (q : Queue A) (cs : List (Cell A))
      → IsValid q
      → q.chain ≡ cs
      → r ≢ pos 0
      → (length (ins_edge r (keyless q x) q cs).chain ≡ suc (length q.chain))
        × ((ins_edge r (keyless q x) q cs).count ≡ q.count)
  unfolding ins_edge
  ins_edge-miscounts r x q [] v e n = elim (Bool-cases (eqb_ℤ r (pos 0))) [
    | inl h ↦ absurd (n ((eqb_ℤ_iff r (pos 0)).0 h))
    | inr h ↦ rw h (ap suc (sym (ap length e)), refl)
  ]
  ins_edge-miscounts r x q (c ∷ cs) v e n = elim (Bool-cases (eqb_ℤ r (pos 0))) [
    | inl h ↦ absurd (n ((eqb_ℤ_iff r (pos 0)).0 h))
    | inr h ↦ elim (Bool-cases (ltb_ℤ (pos 0) r)) [
      | inl g ↦ rw (h, g) (ap suc (sym (ap length e)), refl)
      | inr g ↦
          rw (h, g)
            (
              ap length (link_tail-chain q (keyless q x) c cs v e)
                  ∙ omega (arith, length-append q.chain (keyless q x ∷ [])),
              refl,
            )
    ]
  ]

  place-Answers :
      (f : A → ℤ) (r : ℤ) (el : Cell A) (cs : List (Cell A))
      → Answers f r cs
      → place f el cs ≡ none
      → r ≢ pos 0
  unfolding place
  place-Answers f r el [] a e = a
  place-Answers f r el (c ∷ cs) a e = elim (Bool-cases (eqb_ℤ (f c.item) (pos 0))) [
    | inl h ↦ elim a [
      | inl n ↦ absurd (n ((eqb_ℤ_iff (f c.item) (pos 0)).0 h))
      | inr b ↦ place-Answers f r el cs b (ground arith)
    ]
    | inr h ↦ absurd (ground arith)
  ]

  -- On a valid queue, whenever an element or the null pointer answers the comparison, one element
  -- is linked in but `count` stays as it was, so the result is no longer valid.
  pub ins_near-miscounts :
      (f : A → ℤ) (r : ℤ) (x : A) (q : Queue A)
      → IsValid q
      → Answers f r q.chain
      → (length (ins_near f r x q).chain ≡ suc (length q.chain))
        × ((ins_near f r x q).count ≡ q.count)
        × ¬ IsValid (ins_near f r x q)
  unfolding ins_near ins_placed
  ins_near-miscounts f r x q v a = elim (Option-cases (place f (keyless q x) q.chain)) [
    | inl e ↦
        let (grown, same) =
          ins_edge-miscounts r x q q.chain v refl (place-Answers f r (keyless q x) q.chain a e) in
        rw e (grown, same, λ w. short q (ins_edge r (keyless q x) q q.chain) v grown same w)
    | inr (cs, e) ↦
        let grown = length-place f (keyless q x) q.chain cs e in
        rw e (grown, refl, λ w. short q _ v grown refl w)
  ]
    where
      short :
          (p o : Queue A)
          → IsValid p
          → length o.chain ≡ suc (length p.chain)
          → o.count ≡ p.count
          → ¬ IsValid o
      short p o v g s w = ground (arith, w.counted, v.counted)
