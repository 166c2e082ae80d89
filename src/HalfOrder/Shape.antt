-- ===== src/HalfOrder/Shape.antt =====
-- stdHalfOrderQueue.cpp: order, balance and contents of the heap.
use tiny_state.Prelude.{ℕ, suc, ◌+◌, ◌≤◌, ◌<◌, ◌≡◌, Bool, true, false, arith}
use tiny_state.Prelude.Int.{ℤ, pos, ◌≤ℤ◌, leb_ℤ, le_of_leb, lt_of_not_leb}
use tiny_state.HalfOrder.{Tree, leaf, node}

abbrev pub bit : Bool → ℕ
bit true = 1
bit false = 0

module _ {ℓ} {A : Type ℓ} where
  abbrev pub size : Tree A → ℕ
  size leaf = 0
  size (node j y c l r) = suc (size l + size r)

  -- how many elements satisfy a test
  abbrev pub tally : (ℤ → A → Bool) → Tree A → ℕ
  tally p leaf = 0
  tally p (node j y c l r) = bit (p j y) + tally p l + tally p r

  -- `count` is the size of the subtree, and the halves differ by one at most; the left comes first
  abbrev pub IsBalanced : Tree A → Type 0
  IsBalanced leaf = Unit
  IsBalanced (node j y c l r) =
      (c ≡ pos (suc (size l + size r)))
      × (size l ≤ suc (size r))
      × (size r ≤ suc (size l))
      × (size l ≡ 0 → size r ≡ 0)
      × IsBalanced l
      × IsBalanced r

  abbrev pub Above : ℤ → Tree A → Type 0
  Above b leaf = Unit
  Above b (node j y c l r) = b ≤ℤ j

  -- the same of the children of a node
  abbrev pub Kids : ℤ → Tree A → Type 0
  Kids b leaf = Unit
  Kids b (node j y c l r) = Above b l × Above b r

  abbrev pub IsOrdered : Tree A → Type 0
  IsOrdered leaf = Unit
  IsOrdered (node j y c l r) = Above j l × Above j r × IsOrdered l × IsOrdered r

  pub Above-trans : (a b : ℤ) (t : Tree A) → a ≤ℤ b → Above b t → Above a t
  Above-trans a b leaf h k = tt
  Above-trans a b (node j y c l r) h k = omega arith

-- what a comparison of two counts says of the sizes
pub counts_le : (d e : ℤ) (n m : ℕ) → d ≡ pos n → e ≡ pos m → leb_ℤ d e ≡ true → n ≤ m
counts_le d e n m f g q = omega (arith, le_of_leb (pos n) (pos m) (cc (f, g, q)))

pub counts_lt : (d e : ℤ) (n m : ℕ) → d ≡ pos n → e ≡ pos m → leb_ℤ d e ≡ false → m < n
counts_lt d e n m f g q = omega (arith, lt_of_not_leb (pos n) (pos m) (cc (f, g, q)))
