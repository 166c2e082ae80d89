-- ===== src/HalfOrder/Insert.antt =====
-- stdHalfOrderQueue.cpp: `ins`.
use tiny_state.Prelude.{
  ℕ, suc, ◌+◌, ◌<◌, ◌≤◌, ◌≡◌, inl, inr, refl, ap, ◌∙◌, Bool, true, false, Option, some,
  if◌then◌else◌, arith, Bool-cases,
}
use tiny_state.Prelude.Int.{
  ℤ, pos, ◌+ℤ◌, ◌≤ℤ◌, ◌<ℤ◌, ltb_ℤ, leb_ℤ, pos-+ℤ_one, le_of_leb, lt_of_not_leb,
}
use tiny_state.HalfOrder.{Tree, leaf, node, single, settle, settle_left, settle_right, placed, ins}
use tiny_state.HalfOrder.Shape.{
  size, bit, tally, IsBalanced, Above, Kids, IsOrdered, Above-trans, counts_le, counts_lt,
}

ltb_ℤ-true : (a b : ℤ) → a <ℤ b → ltb_ℤ a b ≡ true
ltb_ℤ-true a b h = ground arith

ltb_ℤ-false : (a b : ℤ) → b ≤ℤ a → ltb_ℤ a b ≡ false
ltb_ℤ-false a b h = ground arith

leb_ℤ-true : (a b : ℤ) → a ≤ℤ b → leb_ℤ a b ≡ true
leb_ℤ-true a b h = ground arith

one_more : (c : ℤ) (n m : ℕ) → c ≡ pos n → suc n ≡ m → c +ℤ pos 1 ≡ pos m
one_more c n m e f = ap (λ b. b +ℤ pos 1) e ∙ pos-+ℤ_one n ∙ ap pos f

module _ {ℓ} {A : Type ℓ} where
  -- A tree with one element more. What bounds the old tree bounds the children of the new root.
  pub record Grown (k : ℤ) (x : A) (t t' : Tree A) : Type ℓ where
    pub balanced : IsBalanced t'
    pub ordered : IsOrdered t'
    pub contents : (p : ℤ → A → Bool) → tally p t' ≡ bit (p k x) + tally p t
    pub sized : size t' ≡ suc (size t)
    pub above : (b : ℤ) → b ≤ℤ k → Above b t → Above b t'
    pub kids : (b : ℤ) → Above b t → Kids b t'

  -- what `settle` makes of a node with two children, of which one may be smaller than the node
  pub record Settled (j : ℤ) (y : A) (c : ℤ) (l r t : Tree A) : Type ℓ where
    pub ordered : IsOrdered t
    pub balanced : IsBalanced (node j y c l r) → IsBalanced t
    pub contents : (p : ℤ → A → Bool) → tally p t ≡ bit (p j y) + tally p l + tally p r
    pub sized : size t ≡ suc (size l + size r)
    pub above : (b : ℤ) → b ≤ℤ j → Above b l → Above b r → Above b t
    pub kids : (b : ℤ) → b ≤ℤ j → Kids b t

  module _ (j : ℤ) (y : A) (c i : ℤ) (z : A) (d : ℤ) (l' r' : Tree A) (h : ℤ) (w : A) (e : ℤ)
      (l'' r'' : Tree A) (ol : IsOrdered (node i z d l' r'))
      (or : IsOrdered (node h w e l'' r'')) where
    abbrev left : Tree A
    left = node i z d l' r'

    abbrev right : Tree A
    right = node h w e l'' r''

    kept : j ≤ℤ i → j ≤ℤ h → Settled j y c left right (node j y c left right)
    kept a b = record {
      ordered = (a, b, ol, or);
      balanced = λ v. v;
      contents = λ p. refl;
      sized = refl;
      above = λ b' v f g. v;
      kids = λ b' v. (omega arith, omega arith);
    }

    swapped_left :
        i ≤ℤ j
        → i ≤ℤ h
        → j ≤ℤ h
        → Kids j left
        → Settled j y c left right (node i z c (node j y d l' r') right)
    swapped_left a b m k = record {
      ordered = (a, b, (k.0, k.1, ol.2, ol.3), or);
      balanced = λ v. v;
      contents = λ p. omega arith;
      sized = refl;
      above = λ b' v f g. f;
      kids = λ b' v. (v, omega arith);
    }

    swapped_right :
        h ≤ℤ j
        → h ≤ℤ i
        → j ≤ℤ i
        → Kids j right
        → Settled j y c left right (node h w c left (node j y e l'' r''))
    swapped_right a b m k = record {
      ordered = (b, a, ol, (k.0, k.1, or.2, or.3));
      balanced = λ v. v;
      contents = λ p. omega arith;
      sized = refl;
      above = λ b' v f g. g;
      kids = λ b' v. (omega arith, v);
    }

    -- with the left child changed, and with the right
    settle-left_changed : j ≤ℤ h → Kids j left → Settled j y c left right (settle j y c left right)
    unfolding settle
    settle-left_changed m k = elim (Bool-cases (leb_ℤ j i)) [
      | inl f ↦ elim (Bool-cases (leb_ℤ j h)) [
        | inl g ↦ rw (f, g) (kept (le_of_leb j i f) m)
        | inr g ↦ absurd (omega (arith, lt_of_not_leb j h g))
      ]
      | inr f ↦
          let less : i <ℤ j = lt_of_not_leb j i f in
          rw (f, ltb_ℤ-true i j less, ltb_ℤ-true i h (omega arith))
            (swapped_left (omega arith) (omega arith) m k)
    ]

    settle-right_changed :
        j ≤ℤ i → Kids j right → Settled j y c left right (settle j y c left right)
    unfolding settle
    settle-right_changed m k = elim (Bool-cases (leb_ℤ j h)) [
      | inl g ↦ rw (leb_ℤ-true j i m, g) (kept m (le_of_leb j h g))
      | inr g ↦
          let less : h <ℤ j = lt_of_not_leb j h g in
          rw (leb_ℤ-true j i m, g, ltb_ℤ-false i j m)
            (swapped_right (omega arith) (omega arith) m k)
    ]

  -- the node after an insertion below it
  settled-Grown :
      (k : ℤ) (x : A) (j : ℤ) (y : A) (c : ℤ) (l r l' r' t : Tree A)
      → IsOrdered (node j y c l r)
      → Settled j y (c +ℤ pos 1) l' r' t
      → IsBalanced (node j y (c +ℤ pos 1) l' r')
      → ((p : ℤ → A → Bool) → tally p l' + tally p r' ≡ bit (p k x) + tally p l + tally p r)
      → size l' + size r' ≡ suc (size l + size r)
      → ((b : ℤ) → b ≤ℤ k → Above b l → Above b r → Above b l' × Above b r')
      → Grown k x (node j y c l r) t
  settled-Grown k x j y c l r l' r' t o s v q n a = record {
    balanced = s.balanced v;
    ordered = s.ordered;
    contents = λ p. omega (arith, s.contents p, q p);
    sized = s.sized ∙ ap suc n;
    above = λ b m f.
        let (g, h) = a b m (Above-trans b j l f o.0) (Above-trans b j r f o.1) in s.above b f g h;
    kids = λ b f. s.kids b f;
  }

  Grown-left :
      (k : ℤ) (x : A) (j : ℤ) (y : A) (c : ℤ) (l : Tree A) (h : ℤ) (w : A) (e : ℤ)
      (l'' r'' l' : Tree A)
      → let r = node h w e l'' r'' in
        IsBalanced (node j y c l r)
        → IsOrdered (node j y c l r)
        → size l ≤ size r
        → Grown k x l l'
        → Grown k x (node j y c l r) (settle j y (c +ℤ pos 1) l' r)
  Grown-left k x j y c l h w e l'' r'' leaf v o m g = absurd (omega (arith, g.sized))
  Grown-left k x j y c l h w e l'' r'' (node i z d ll lr) v o m g =
      let l' = node i z d ll lr in
      let r = node h w e l'' r'' in
      settled-Grown k x j y c l r l' r (settle j y (c +ℤ pos 1) l' r) o
        (settle-left_changed j y (c +ℤ pos 1) i z d ll lr h w e l'' r'' g.ordered o.3 o.1
          (g.kids j o.0))
        (
          one_more c (suc (size l + size r)) (suc (size l' + size r)) v.0 (omega (arith, g.sized)),
          omega (arith, g.sized),
          omega (arith, g.sized, v.2),
          (λ e. omega (arith, g.sized)),
          g.balanced,
          v.5,
        )
        (λ p. omega (arith, g.contents p)) (omega (arith, g.sized)) (λ b f a q. (g.above b f a, q))

  Grown-right :
      (k : ℤ) (x : A) (j : ℤ) (y : A) (c i : ℤ) (z : A) (d : ℤ) (ll lr r r' : Tree A)
      → let l = node i z d ll lr in
        IsBalanced (node j y c l r)
        → IsOrdered (node j y c l r)
        → size r < size l
        → Grown k x r r'
        → Grown k x (node j y c l r) (settle j y (c +ℤ pos 1) l r')
  Grown-right k x j y c i z d ll lr r leaf v o m g = absurd (omega (arith, g.sized))
  Grown-right k x j y c i z d ll lr r (node h w e l'' r'') v o m g =
      let r' = node h w e l'' r'' in
      let l = node i z d ll lr in
      settled-Grown k x j y c l r l r' (settle j y (c +ℤ pos 1) l r') o
        (settle-right_changed j y (c +ℤ pos 1) i z d ll lr h w e l'' r'' o.2 g.ordered o.0
          (g.kids j o.1))
        (
          one_more c (suc (size l + size r)) (suc (size l + size r')) v.0 (omega (arith, g.sized)),
          omega (arith, g.sized, v.1),
          omega (arith, g.sized),
          (λ e. omega (arith)),
          v.4,
          g.balanced,
        )
        (λ p. omega (arith, g.contents p)) (omega (arith, g.sized)) (λ b f a q. (a, g.above b f q))

  single-Grown : (k : ℤ) (x : A) → Grown k x leaf (single k x)
  single-Grown k x = record {
    balanced = (refl, omega arith, omega arith, (λ e. refl), tt, tt);
    ordered = (tt, tt, tt, tt);
    contents = λ p. omega arith;
    sized = refl;
    above = λ b f a. f;
    kids = λ b a. (tt, tt);
  }

  first_child :
      (k : ℤ) (x : A) (j : ℤ) (y : A) (c : ℤ)
      → c ≡ pos 1
      → Grown k x (node j y c leaf leaf) (
          if leb_ℤ j k
          then node j y (c +ℤ pos 1) (single k x) leaf
          else node k x (c +ℤ pos 1) (single j y) leaf)
  first_child k x j y c v = elim (Bool-cases (leb_ℤ j k)) [
    | inl e ↦ rw e (record {
      balanced = (
        one_more c 1 2 v refl,
        omega arith,
        omega arith,
        (λ e. refl),
        (refl, omega arith, omega arith, (λ e. refl), tt, tt),
        tt,
      );
      ordered = (le_of_leb j k e, tt, (tt, tt, tt, tt), tt);
      contents = λ p. omega arith;
      sized = refl;
      above = λ b f a. a;
      kids = λ b a. ((omega (arith, le_of_leb j k e)), tt);
    })
    | inr e ↦
        let less : k <ℤ j = lt_of_not_leb j k e in
        rw e (record {
          balanced = (
            one_more c 1 2 v refl,
            omega arith,
            omega arith,
            (λ e. refl),
            (refl, omega arith, omega arith, (λ e. refl), tt, tt),
            tt,
          );
          ordered = (omega arith, tt, (tt, tt, tt, tt), tt);
          contents = λ p. omega arith;
          sized = refl;
          above = λ b f a. f;
          kids = λ b a. (a, tt);
        })
  ]

  abbrev pub Inserted : ℤ → A → Tree A → Option (Tree A) → Type ℓ
  Inserted k x t o = (t' : Tree A) × (o ≡ some t') × Grown k x t t'

  placed_lem :
      (k : ℤ) (x : A) (j : ℤ) (y : A) (c : ℤ) (l r : Tree A) (ol or : Option (Tree A))
      → IsBalanced (node j y c l r)
      → IsOrdered (node j y c l r)
      → Inserted k x l ol
      → Inserted k x r or
      → Inserted k x (node j y c l r) (placed k x j y (c +ℤ pos 1) l r ol or)
  unfolding placed
  placed_lem k x j y c leaf leaf ol or v o a b = (_, refl, first_child k x j y c v.0)
  placed_lem k x j y c leaf (node h w e l'' r'') ol or v o a b = absurd (omega (arith, v.3 refl))
  placed_lem k x j y c (node i z d l' r') leaf ol or v o a b = (
    _,
    refl,
    Grown-right k x j y c i z d l' r' leaf (single k x) v o (omega arith) (single-Grown k x),
  )
  placed_lem k x j y c (node i z d l' r') (node h w e l'' r'') ol or v o (t, p, g) (t', p', g') =
      elim (Bool-cases (leb_ℤ d e)) [
        | inl q ↦ rw q (
          _,
          ap (λ m. settle_left j y (c +ℤ pos 1) m (node h w e l'' r'')) p,
          Grown-left k x j y c (node i z d l' r') h w e l'' r'' t v o
              (counts_le d e (suc (size l' + size r')) (suc (size l'' + size r'')) (v.4).0 (v.5).0
                q)
              g,
        )
        | inr q ↦ rw q (
          _,
          ap (λ m. settle_right j y (c +ℤ pos 1) (node i z d l' r') m) p',
          Grown-right k x j y c i z d l' r' (node h w e l'' r'') t' v o
              (counts_lt d e (suc (size l' + size r')) (suc (size l'' + size r'')) (v.4).0 (v.5).0
                q)
              g',
        )
      ]

  -- In a balanced and ordered heap, `ins` does not panic and returns a balanced and ordered heap
  -- with the new element and otherwise the same elements.
  pub ins_lem :
      (k : ℤ) (x : A) (t : Tree A) → IsBalanced t → IsOrdered t → Inserted k x t (ins k x t)
  unfolding ins
  ins_lem k x leaf v o = (_, refl, single-Grown k x)
  ins_lem k x (node j y c l r) v o =
      placed_lem k x j y c l r (ins k x l) (ins k x r) v o (ins_lem k x l v.4 o.2)
        (ins_lem k x r v.5 o.3)
