-- ===== src/StringTree/Best.antt =====
-- stdStringTree.cpp: what the search for the longest beginning of a key is to find.
use tiny_state.Prelude.{
  ℕ, zero, suc, ◌+◌, ◌≡◌, refl, ap, ap₂, ◌∙◌, Bool, true, false, Option, none, some, List, [], ◌∷◌,
  length, take, arith,
}
use tiny_state.StringTree.{arrived, kept_last, matched}
use tiny_state.StringTree.Longest.{longest}

module _ {ℓ} {A : Type ℓ} where
  -- the entry of a beginning of that length, if it is flagged, or else what shorter ones give
  abbrev pub if_flagged : Option A × Bool → ℕ → Option A × ℕ → Option A × ℕ
  if_flagged (some x, true) n r = (some x, n)
  if_flagged (some x, false) n r = r
  if_flagged (none, b) n r = r

  -- The specification: of the beginnings of a key that are shorter than n, the longest flagged one.
  abbrev pub beginning_of : (List ℕ → Option A × Bool) → List ℕ → ℕ → Option A × ℕ
  beginning_of f k zero = (none, 0)
  beginning_of f k (suc n) = if_flagged (f (take n k)) n (beginning_of f k n)

  abbrev pub whole_or : Option A × Bool → ℕ → Option A × ℕ → Option A × ℕ
  whole_or (some x, b) n r = (some x, n)
  whole_or (none, b) n r = r

  -- The specification of the search: the entry of the key, or else of its longest flagged beginning.
  abbrev pub best : (List ℕ → Option A × Bool) → List ℕ → Option A × ℕ
  best f k = whole_or (f k) (length k) (beginning_of f k (length k))

  -- the same from a length on, with what shorter beginnings gave
  down : (List ℕ → Option A × Bool) → ℕ → List ℕ → ℕ → Option A × ℕ → Option A × ℕ
  down f at k zero r = r
  down f at k (suc n) r = if_flagged (f (take n k)) (at + n) (down f at k n r)

  kept_flagged :
      (e : Option A × Bool) (at : ℕ) (r : Option A × ℕ) → kept_last e.0 e.1 at r ≡ if_flagged e at r
  kept_flagged (none, b) at r = refl
  kept_flagged (some x, true) at r = refl
  kept_flagged (some x, false) at r = refl

  arrived_whole :
      (e : Option A × Bool) (at : ℕ) (r : Option A × ℕ) → arrived e.0 at r ≡ whole_or e at r
  arrived_whole (none, b) at r = refl
  arrived_whole (some x, b) at r = refl

  down_cons :
      (f : List ℕ → Option A × Bool) (at c n : ℕ) (k : List ℕ) (r : Option A × ℕ)
      → down (λ j. f (c ∷ j)) (suc at) k n (if_flagged (f []) at r) ≡ down f at (c ∷ k) (suc n) r
  unfolding down
  down_cons f at c zero k r = ap (λ i. if_flagged (f []) i r) (omega arith)
  down_cons f at c (suc n) k r =
      ap₂ (λ i s. if_flagged (f (c ∷ take n k)) i s) (omega arith) (down_cons f at c n k r)

  longest_down :
      (f : List ℕ → Option A × Bool) (at : ℕ) (k : List ℕ) (r : Option A × ℕ)
      → longest f at k r ≡ whole_or (f k) (at + length k) (down f at k (length k) r)
  unfolding longest down
  longest_down f at [] r = arrived_whole (f []) at r ∙ ap (λ i. whole_or (f []) i r) (omega arith)
  longest_down f at (c ∷ k) r =
      ap (longest (λ j. f (c ∷ j)) (suc at) k) (kept_flagged (f []) at r)
      ∙ longest_down (λ j. f (c ∷ j)) (suc at) k (if_flagged (f []) at r)
      ∙ ap₂ (λ i s. whole_or (f (c ∷ k)) i s) (omega arith) (down_cons f at c (length k) k r)

  down_all :
      (f : List ℕ → Option A × Bool) (k : List ℕ) (n : ℕ)
      → down f 0 k n (none, 0) ≡ beginning_of f k n
  unfolding down
  down_all f k zero = refl
  down_all f k (suc n) = ap₂ (λ i s. if_flagged (f (take n k)) i s) (omega arith) (down_all f k n)

  -- a search that finds nothing takes nothing
  abbrev Settled : Option A × ℕ → Type ℓ
  Settled r = matched r ≡ r

  flagged-Settled :
      (e : Option A × Bool) (n : ℕ) (r : Option A × ℕ) → Settled r → Settled (if_flagged e n r)
  flagged-Settled (none, b) n r s = s
  flagged-Settled (some x, true) n r s = refl
  flagged-Settled (some x, false) n r s = s

  whole-Settled :
      (e : Option A × Bool) (n : ℕ) (r : Option A × ℕ) → Settled r → Settled (whole_or e n r)
  whole-Settled (none, b) n r s = s
  whole-Settled (some x, b) n r s = refl

  beginning-Settled :
      (f : List ℕ → Option A × Bool) (k : List ℕ) (n : ℕ) → Settled (beginning_of f k n)
  beginning-Settled f k zero = refl
  beginning-Settled f k (suc n) =
      flagged-Settled (f (take n k)) n (beginning_of f k n) (beginning-Settled f k n)

  pub longest-best :
      (f : List ℕ → Option A × Bool) (k : List ℕ) → matched (longest f 0 k (none, 0)) ≡ best f k
  longest-best f k =
      ap matched (
        longest_down f 0 k (none, 0)
        ∙ ap₂ (λ i s. whole_or (f k) i s) (omega arith) (down_all f k (length k)))
      ∙ whole-Settled (f k) (length k) (beginning_of f k (length k))
          (beginning-Settled f k (length k))
