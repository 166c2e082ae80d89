-- ===== src/HalfOrder/Sift.antt =====
-- stdHalfOrderQueue.cpp, `del`: the last element sinks from the root to its place.
use tiny_state.Prelude.{
  ◌+◌, ◌≡◌, ◌⊎◌, inl, inr, refl, ap, ◌∙◌, Bool, true, false, arith, Bool-cases, ◌&&◌,
}
use tiny_state.Prelude.Int.{ℤ, pos, ◌≤ℤ◌, ◌<ℤ◌, ltb_ℤ, leb_ℤ, le_of_leb, lt_of_not_leb}
use tiny_state.HalfOrder.{Tree, leaf, node, sifted, sift}
use tiny_state.HalfOrder.Shape.{size, bit, tally, IsBalanced, Above, Kids, IsOrdered}
use tiny_state.HalfOrder.Last.{root_hit}

pub not_under : (j b : ℤ) → b ≤ℤ j → ltb_ℤ j b ≡ false
not_under j b h = ground arith

pub and_true : (a b : Bool) → (a && b) ≡ true → (a ≡ true) × (b ≡ true)
and_true true b e = (refl, e)
and_true false b e = absurd (cc e)

and_false : (a b : Bool) → (a && b) ≡ false → (a ≡ false) ⊎ (b ≡ false)
and_false true b e = inr e
and_false false b e = inl refl

right_least :
    (k i h : ℤ)
    → (leb_ℤ k i && leb_ℤ k h) ≡ false
    → (leb_ℤ i k && leb_ℤ i h) ≡ false
    → (h ≤ℤ k) × (h ≤ℤ i)
right_least k i h q f = elim (and_false (leb_ℤ k i) (leb_ℤ k h) q) [
  | inl a ↦ elim (and_false (leb_ℤ i k) (leb_ℤ i h) f) [
    | inl b ↦ absurd (omega (arith, lt_of_not_leb k i a, lt_of_not_leb i k b))
    | inr b ↦ (
      omega (arith, lt_of_not_leb k i a, lt_of_not_leb i h b),
      omega (arith, lt_of_not_leb i h b),
    )
  ]
  | inr a ↦ elim (and_false (leb_ℤ i k) (leb_ℤ i h) f) [
    | inl b ↦ (
      omega (arith, lt_of_not_leb k h a),
      omega (arith, lt_of_not_leb k h a, lt_of_not_leb i k b),
    )
    | inr b ↦ (omega (arith, lt_of_not_leb k h a), omega (arith, lt_of_not_leb i h b))
  ]
]

module _ {ℓ} {A : Type ℓ} where
  -- a tree whose root has been replaced and put in its place
  pub record Sifted (k : ℤ) (x : A) (t t' : Tree A) : Type ℓ where
    pub balanced : IsBalanced t'
    pub ordered : IsOrdered t'
    pub contents : (p : ℤ → A → Bool) → tally p t' + root_hit p t ≡ bit (p k x) + tally p t
    pub sized : size t' ≡ size t
    pub above : (b : ℤ) → b ≤ℤ k → Kids b t → Above b t'

  abbrev pub Placed : ℤ → A → Tree A → Tree A → Type ℓ
  Placed k x leaf t' = Unit
  Placed k x (node j y c l r) t' = Sifted k x (node j y c l r) t'

  module _ (k : ℤ) (x : A) (j : ℤ) (y : A) (c i : ℤ) (z : A) (d : ℤ) (l' r' : Tree A) (h : ℤ)
      (w : A) (e : ℤ) (l'' r'' : Tree A) where
    abbrev left : Tree A
    left = node i z d l' r'

    abbrev right : Tree A
    right = node h w e l'' r''

    abbrev whole : Tree A
    whole = node j y c left right

    stays :
        IsBalanced whole
        → IsOrdered whole
        → k ≤ℤ i
        → k ≤ℤ h
        → Sifted k x whole (node k x c left right)
    stays v o m n = record {
      balanced = v;
      ordered = (m, n, o.2, o.3);
      contents = λ p. omega arith;
      sized = refl;
      above = λ b f g. f;
    }

    goes_left :
        (sl : Tree A)
        → IsBalanced whole
        → IsOrdered whole
        → Sifted k x left sl
        → i ≤ℤ k
        → i ≤ℤ h
        → Sifted k x whole (node i z c sl right)
    goes_left sl v o a m n = record {
      balanced = (
        v.0 ∙ ap pos (omega (arith, a.sized)),
        omega (arith, a.sized, v.1),
        omega (arith, a.sized, v.2),
        (λ e. absurd (omega (arith, a.sized, e))),
        a.balanced,
        v.5,
      );
      ordered = (a.above i m ((o.2).0, (o.2).1), n, a.ordered, o.3);
      contents = λ p. omega (arith, a.contents p);
      sized = omega (arith, a.sized);
      above = λ b f g. g.0;
    }

    goes_right :
        (sr : Tree A)
        → IsBalanced whole
        → IsOrdered whole
        → Sifted k x right sr
        → h ≤ℤ k
        → h ≤ℤ i
        → Sifted k x whole (node h w c left sr)
    goes_right sr v o a m n = record {
      balanced = (
        v.0 ∙ ap pos (omega (arith, a.sized)),
        omega (arith, a.sized, v.1),
        omega (arith, a.sized, v.2),
        (λ e. absurd (omega (arith, e))),
        v.4,
        a.balanced,
      );
      ordered = (n, a.above h m ((o.3).0, (o.3).1), o.2, a.ordered);
      contents = λ p. omega (arith, a.contents p);
      sized = omega (arith, a.sized);
      above = λ b f g. g.1;
    }

  sifted_lem :
      (k : ℤ) (x : A) (j : ℤ) (y : A) (c : ℤ) (l r sl sr : Tree A)
      → IsBalanced (node j y c l r)
      → IsOrdered (node j y c l r)
      → Placed k x l sl
      → Placed k x r sr
      → Sifted k x (node j y c l r) (sifted k x c l r sl sr)
  unfolding sifted
  sifted_lem k x j y c leaf leaf sl sr v o a b = record {
    balanced = v;
    ordered = (tt, tt, tt, tt);
    contents = λ p. omega arith;
    sized = refl;
    above = λ b f g. f;
  }
  sifted_lem k x j y c leaf (node h w e l'' r'') sl sr v o a b = absurd (omega (arith, v.3 refl))
  sifted_lem k x j y c (node i z d l' r') leaf sl sr v o a b = elim (Bool-cases (leb_ℤ k i)) [
    | inl q ↦ rw q (record {
      balanced = v;
      ordered = (le_of_leb k i q, tt, o.2, tt);
      contents = λ p. omega arith;
      sized = refl;
      above = λ b f g. f;
    })
    | inr q ↦
        let less : i <ℤ k = lt_of_not_leb k i q in
        rw q (record {
          balanced = (
            v.0 ∙ ap pos (omega (arith, a.sized)),
            omega (arith, a.sized, v.1),
            omega arith,
            (λ e. refl),
            a.balanced,
            tt,
          );
          ordered = (a.above i (omega arith) ((o.2).0, (o.2).1), tt, a.ordered, tt);
          contents = λ p. omega (arith, a.contents p);
          sized = omega (arith, a.sized);
          above = λ b f g. g.0;
        })
  ]
  sifted_lem k x j y c (node i z d l' r') (node h w e l'' r'') sl sr v o a b =
      elim (Bool-cases (leb_ℤ k i && leb_ℤ k h)) [
        | inl q ↦
            let both = and_true (leb_ℤ k i) (leb_ℤ k h) q in
            rw q (
              stays k x j y c i z d l' r' h w e l'' r'' v o (le_of_leb k i both.0)
                (le_of_leb k h both.1))
        | inr q ↦ elim (Bool-cases (leb_ℤ i k && leb_ℤ i h)) [
          | inl f ↦
              let both = and_true (leb_ℤ i k) (leb_ℤ i h) f in
              rw (q, f)
                (goes_left k x j y c i z d l' r' h w e l'' r'' sl v o a (le_of_leb i k both.0)
                  (le_of_leb i h both.1))
          | inr f ↦
              let least = right_least k i h q f in
              rw (q, f) (goes_right k x j y c i z d l' r' h w e l'' r'' sr v o b least.0 least.1)
        ]
      ]

  pub sift_lem :
      (k : ℤ) (x : A) (t : Tree A) → IsBalanced t → IsOrdered t → Placed k x t (sift k x t)
  unfolding sift
  sift_lem k x leaf v o = tt
  sift_lem k x (node j y c l r) v o =
      sifted_lem k x j y c l r (sift k x l) (sift k x r) v o (sift_lem k x l v.4 o.2)
        (sift_lem k x r v.5 o.3)
