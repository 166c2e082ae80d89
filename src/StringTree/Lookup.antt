-- ===== src/StringTree/Lookup.antt =====
-- stdStringTree.cpp: the map from keys to objects that a tree stands for, and `search`.
use tiny_state.Prelude.{
  ℕ, ◌≡◌, inl, inr, refl, subst, Bool, true, false, Option, none, some, List, [], ◌∷◌, ◌==◌, ==_iff,
  if◌then◌else◌, arith, Bool-cases,
}
use tiny_state.StringTree.{Nodes, null, node, Tree, is_empty, search_loop, search}
use tiny_state.StringTree.Keys.{
  strip, Parts, parts, prepended, strip_whole, strip_apart, common_apart, strip_other, common_nil,
}

module _ {ℓ} {A : Type ℓ} where
  -- a sibling starts with the character
  abbrev pub starts : ℕ → Nodes A → Bool
  starts c null = false
  starts c (node [] b q l n) = starts c n
  starts c (node (d ∷ s) b q l n) = if c == d then true else starts c n

  -- no string is empty, and no two siblings start alike
  abbrev pub IsWell : Nodes A → Type 0
  IsWell null = Unit
  IsWell (node [] b q l n) = ⊥
  IsWell (node (c ∷ s) b q l n) = (starts c n ≡ false) × IsWell l × IsWell n

  -- the flag of a node says nothing where there is no object
  abbrev pub shown : Option A → Bool → Option A × Bool
  shown none q = (none, false)
  shown (some x) q = (some x, q)

  -- the object and the flag that a key has in a list of siblings
  unfoldable pub entry : List ℕ → Nodes A → Option A × Bool
  unfolding strip
  entry j null = (none, false)
  entry j (node s b q l n) = elim (strip s j) [
    | none ↦ entry j n
    | some r ↦ if is_empty r then (shown b q) else entry r l
  ]

  abbrev pub value : List ℕ → Tree A → Option A × Bool
  value j t = if is_empty j then shown t.obj t.partial_flag else entry j t.list

  pub entry_past :
      (s j : List ℕ) (b : Option A) (q : Bool) (l n : Nodes A)
      → strip s j ≡ none
      → entry j (node s b q l n) ≡ entry j n
  unfolding entry
  entry_past s j b q l n e = rw (e, entry)

  pub entry_under :
      (s j r : List ℕ) (b : Option A) (q : Bool) (l n : Nodes A)
      → strip s j ≡ some r
      → entry j (node s b q l n) ≡ (if is_empty r then (shown b q) else entry r l)
  unfolding entry
  entry_under s j r b q l n e = rw (e, entry)

  pub entry_absent :
      (c : ℕ) (j : List ℕ) (n : Nodes A)
      → IsWell n
      → starts c n ≡ false
      → entry (c ∷ j) n ≡ (none, false)
  unfolding entry
  entry_absent c j null w e = refl
  entry_absent c j (node [] b q l n) w e = absurd w
  entry_absent c j (node (d ∷ s) b q l n) w e =
      ground (arith, entry_absent c j n w.2, ==_iff c d, ==_iff d c)

  under :
      (r : List ℕ) (b : Option A) (q : Bool) (l : Nodes A)
      → search_loop r l ≡ (entry r l).0
      → (if is_empty r then b else search_loop r l)
        ≡ (if◌then◌else◌ {A = Option A × Bool} (is_empty r) (shown b q) (entry r l)).0
  under [] none q l h = refl
  under [] (some x) q l h = refl
  under (c ∷ r) b q l h = h

  found_at :
      (c : ℕ) (s k x s' k' : List ℕ) (b : Option A) (q : Bool) (l n : Nodes A)
      → Parts (c ∷ s) (c ∷ k) (c ∷ x) s' k'
      → IsWell (node (c ∷ s) b q l n)
      → search_loop k' l ≡ (entry k' l).0
      → search_loop (c ∷ k) (node (c ∷ s) b q l n) ≡ (entry (c ∷ k) (node (c ∷ s) b q l n)).0
  unfolding search_loop
  found_at c s k x [] k' b q l n p w hl =
      rw (p.shared, p.is_whole, p.left, entry_under (c ∷ s) (c ∷ k) k' b q l n (strip_whole p))
        (under k' b q l hl)
  found_at c s k x (d ∷ s') k' b q l n p w hl = rw (
    p.shared,
    p.is_whole,
    entry_past (c ∷ s) (c ∷ k) b q l n (strip_apart d p),
    entry_absent c k n w.2 w.0,
  )

  pub search_loop-entry : (k : List ℕ) (n : Nodes A) → IsWell n → search_loop k n ≡ (entry k n).0
  unfolding search_loop entry
  search_loop-entry k null w = refl
  search_loop-entry k (node [] b q l n) w = absurd w
  search_loop-entry [] (node (c ∷ s) b q l n) w =
      rw (common_nil (c ∷ s)) (search_loop-entry [] n w.2)
  search_loop-entry (d ∷ k) (node (c ∷ s) b q l n) w = elim (Bool-cases (c == d)) [
    | inl e ↦
        let (x, s', k', p) = parts s k in
        subst
          (λ d.
            search_loop (d ∷ k) (node (c ∷ s) b q l n) ≡ (entry (d ∷ k) (node (c ∷ s) b q l n)).0)
          ((==_iff c d).0 e)
          (found_at c s k x s' k' b q l n (prepended c s k x s' k' p) w
            (search_loop-entry k' l w.1))
    | inr e ↦
        rw (common_apart c d s k e, entry_past (c ∷ s) (d ∷ k) b q l n (strip_other c d s k e))
          (search_loop-entry (d ∷ k) n w.2)
  ]

  shown_obj : (b : Option A) (q : Bool) → b ≡ (shown b q).0
  shown_obj none q = refl
  shown_obj (some x) q = refl

  pub search-value : (k : List ℕ) (t : Tree A) → IsWell t.list → search k t ≡ (value k t).0
  unfolding search
  search-value [] t w = shown_obj t.obj t.partial_flag
  search-value (c ∷ k) t w = search_loop-entry (c ∷ k) t.list w
