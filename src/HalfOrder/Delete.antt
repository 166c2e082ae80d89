-- ===== src/HalfOrder/Delete.antt =====
-- stdHalfOrderQueue.cpp: `del`.
use tiny_state.Prelude.{◌+◌, ◌<◌, ◌≡◌, refl, ap, Bool, some, arith}
use tiny_state.Prelude.Int.{ℤ, ltb_ℤ}
use tiny_state.HalfOrder.{Tree, leaf, node, sift, refilled, del}
use tiny_state.HalfOrder.Shape.{size, bit, tally, IsBalanced, Above, IsOrdered, Above-trans}
use tiny_state.HalfOrder.Last.{Shrunk, take_last_lem}
use tiny_state.HalfOrder.Sift.{Placed, sift_lem, not_under}

module _ {ℓ} {A : Type ℓ} where
  abbrev pub under : ℤ → ℤ → A → Bool
  under b k x = ltb_ℤ k b

  least_lem : (b : ℤ) (t : Tree A) → IsOrdered t → Above b t → tally (under b) t ≡ 0
  least_lem b leaf o a = refl
  least_lem b (node j y c l r) o a = rw (not_under j b a) (
      omega (
        arith,
        least_lem b l o.2 (Above-trans b j l a o.0),
        least_lem b r o.3 (Above-trans b j r a o.1),
      ))

  -- what `del` leaves of a tree that it took an element from
  pub record Deleted (j : ℤ) (y : A) (t t' : Tree A) : Type ℓ where
    pub balanced : IsBalanced t'
    pub ordered : IsOrdered t'
    pub contents : (p : ℤ → A → Bool) → tally p t ≡ bit (p j y) + tally p t'
    pub least : tally (under j) t ≡ 0

  refilled_lem :
      (j : ℤ) (y : A) (c : ℤ) (l r : Tree A) (k : ℤ) (x : A) (t : Tree A)
      → IsOrdered (node j y c l r)
      → Shrunk k x (node j y c l r) t
      → 0 < size t
      → Placed k x t (sift k x t)
      → Deleted j y (node j y c l r) (sift k x t)
  refilled_lem j y c l r k x leaf o s z a = absurd (omega arith)
  refilled_lem j y c l r k x (node j' y' c' l' r') o s z a = record {
    balanced = a.balanced;
    ordered = a.ordered;
    contents = λ p. omega (arith, a.contents p, s.contents p, s.rooted p z);
    least = least_lem j (node j y c l r) o (omega arith);
  }

  -- On a balanced and ordered heap with an element, `del` does not panic; it returns the element at
  -- the top, below whose key there is none, and leaves a balanced and ordered heap of the others.
  pub del_lem :
      (j : ℤ) (y : A) (c : ℤ) (l r : Tree A)
      → IsBalanced (node j y c l r)
      → IsOrdered (node j y c l r)
      → (t' : Tree A) × (del (node j y c l r) ≡ some (some (j, y), t'))
        × Deleted j y (node j y c l r) t'
  unfolding del
  del_lem j y c leaf leaf v o = (
    leaf,
    refl,
    record {
      balanced = tt;
      ordered = tt;
      contents = λ p. omega arith;
      least = least_lem j (node j y c leaf leaf) o (omega arith);
    },
  )
  del_lem j y c leaf (node h w e l'' r'') v o = absurd (omega (arith, v.3 refl))
  del_lem j y c (node i z d l' r') r v o =
      let (k, x, t, p, s) = take_last_lem (node j y c (node i z d l' r') r) v o in
      (
        sift k x t,
        ap (refilled j y) p,
        refilled_lem j y c (node i z d l' r') r k x t o s (omega (arith, s.sized))
            (sift_lem k x t s.balanced s.ordered),
      )
