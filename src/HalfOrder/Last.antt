-- ===== src/HalfOrder/Last.antt =====
-- stdHalfOrderQueue.cpp, `del`: the walk to the last node, which is cut off.
use tiny_state.Prelude.{
  ℕ, suc, ◌+◌, ◌<◌, ◌≤◌, ◌≡◌, inl, inr, refl, ap, ◌∙◌, Bool, Option, some, arith, Bool-cases,
}
use tiny_state.Prelude.Int.{ℤ, pos, ◌-ℤ◌, leb_ℤ, pos_suc-ℤ_one}
use tiny_state.HalfOrder.{Tree, leaf, node, close_left, below_left, below_right, cut, take_last}
use tiny_state.HalfOrder.Shape.{
  size, bit, tally, IsBalanced, Above, IsOrdered, counts_le, counts_lt,
}

one_less : (c : ℤ) (n : ℕ) → c ≡ pos (suc n) → c -ℤ pos 1 ≡ pos n
one_less c n e = ap (λ b. b -ℤ pos 1) e ∙ pos_suc-ℤ_one n

module _ {ℓ} {A : Type ℓ} where
  -- the element at the root
  abbrev pub root_hit : (ℤ → A → Bool) → Tree A → ℕ
  root_hit p leaf = 0
  root_hit p (node j y c l r) = bit (p j y)

  -- a tree with one element less, the last
  pub record Shrunk (k : ℤ) (x : A) (t t' : Tree A) : Type ℓ where
    pub balanced : IsBalanced t'
    pub ordered : IsOrdered t'
    pub contents : (p : ℤ → A → Bool) → tally p t ≡ bit (p k x) + tally p t'
    pub sized : size t ≡ suc (size t')
    pub above : (b : ℤ) → Above b t → Above b t'
    pub rooted : (p : ℤ → A → Bool) → 0 < size t' → root_hit p t' ≡ root_hit p t

  abbrev pub Taken : Tree A → Option (ℤ × A × Tree A) → Type ℓ
  Taken leaf o = Unit
  Taken (node j y c l r) o =
      (k : ℤ) × (x : A) × (t' : Tree A) × (o ≡ some (k, x, t')) × Shrunk k x (node j y c l r) t'

  cut_left :
      (k : ℤ) (x : A) (j : ℤ) (y : A) (c : ℤ) (l r l' : Tree A)
      → IsBalanced (node j y c l r)
      → IsOrdered (node j y c l r)
      → size r ≤ size l
      → Shrunk k x l l'
      → Shrunk k x (node j y c l r) (close_left j y (c -ℤ pos 1) l' r)
  cut_left k x j y c l r leaf v o m s = record {
    balanced = (
      one_less c (suc (size r + 0)) (v.0 ∙ ap pos (omega (arith, s.sized))),
      omega (arith, s.sized),
      omega arith,
      (λ e. refl),
      v.5,
      tt,
    );
    ordered = (o.1, tt, o.3, tt);
    contents = λ p. omega (arith, s.contents p);
    sized = omega (arith, s.sized);
    above = λ b a. a;
    rooted = λ p z. refl;
  }
  cut_left k x j y c l r (node i z d l' r') v o m s = record {
    balanced = (
      one_less c (suc (size (node i z d l' r') + size r)) (v.0 ∙ ap pos (omega (arith, s.sized))),
      omega (arith, s.sized, v.1),
      omega (arith, s.sized),
      (λ e. omega (arith, e)),
      s.balanced,
      v.5,
    );
    ordered = (s.above j o.0, o.1, s.ordered, o.3);
    contents = λ p. omega (arith, s.contents p);
    sized = omega (arith, s.sized);
    above = λ b a. a;
    rooted = λ p z. refl;
  }

  cut_right :
      (k : ℤ) (x : A) (j : ℤ) (y : A) (c : ℤ) (l r r' : Tree A)
      → IsBalanced (node j y c l r)
      → IsOrdered (node j y c l r)
      → size l < size r
      → 0 < size l
      → Shrunk k x r r'
      → Shrunk k x (node j y c l r) (node j y (c -ℤ pos 1) l r')
  cut_right k x j y c l r r' v o m z s = record {
    balanced = (
      one_less c (suc (size l + size r')) (v.0 ∙ ap pos (omega (arith, s.sized))),
      omega (arith, s.sized),
      omega (arith, s.sized, v.2),
      (λ e. absurd (omega (arith, e, z))),
      v.4,
      s.balanced,
    );
    ordered = (o.0, s.above j o.1, o.2, s.ordered);
    contents = λ p. omega (arith, s.contents p);
    sized = omega (arith, s.sized);
    above = λ b a. a;
    rooted = λ p z. refl;
  }

  cut_lem :
      (j : ℤ) (y : A) (c : ℤ) (l r : Tree A) (ol or : Option (ℤ × A × Tree A))
      → IsBalanced (node j y c l r)
      → IsOrdered (node j y c l r)
      → Taken l ol
      → Taken r or
      → Taken (node j y c l r) (cut j y (c -ℤ pos 1) l r ol or)
  unfolding cut
  cut_lem j y c leaf leaf ol or v o a b = (
    j,
    y,
    leaf,
    refl,
    record {
      balanced = tt;
      ordered = tt;
      contents = λ p. omega arith;
      sized = refl;
      above = λ b a. tt;
      rooted = λ p z. absurd (omega (arith, z));
    },
  )
  cut_lem j y c leaf (node h w e l'' r'') ol or v o a b = absurd (omega (arith, v.3 refl))
  cut_lem j y c (node i z d l' r') leaf ol or v o (k, x, t, p, s) b = (
    k,
    x,
    close_left j y (c -ℤ pos 1) t leaf,
    ap (λ m. below_left j y (c -ℤ pos 1) m leaf) p,
    cut_left k x j y c (node i z d l' r') leaf t v o (omega arith) s,
  )
  cut_lem j y c (node i z d l' r') (node h w e l'' r'') ol or v o (k, x, t, p, s)
        (k', x', t', p', s') =
      let l = node i z d l' r' in
      let r = node h w e l'' r'' in
      elim (Bool-cases (leb_ℤ e d)) [
        | inl q ↦ rw q (
          k,
          x,
          close_left j y (c -ℤ pos 1) t r,
          ap (λ m. below_left j y (c -ℤ pos 1) m r) p,
          cut_left k x j y c l r t v o (counts_le e d (size r) (size l) (v.5).0 (v.4).0 q) s,
        )
        | inr q ↦ rw q (
          k',
          x',
          node j y (c -ℤ pos 1) l t',
          ap (λ m. below_right j y (c -ℤ pos 1) l m) p',
          cut_right k' x' j y c l r t' v o (counts_lt e d (size r) (size l) (v.5).0 (v.4).0 q)
              (omega arith) s',
        )
      ]

  pub take_last_lem : (t : Tree A) → IsBalanced t → IsOrdered t → Taken t (take_last t)
  unfolding take_last
  take_last_lem leaf v o = tt
  take_last_lem (node j y c l r) v o =
      cut_lem j y c l r (take_last l) (take_last r) v o (take_last_lem l v.4 o.2)
        (take_last_lem r v.5 o.3)
