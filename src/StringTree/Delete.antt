-- ===== src/StringTree/Delete.antt =====
-- stdStringTree.cpp: `del`.
use mathlib.Core.List.{append-nil}
use tiny_state.Prelude.{
  ℕ, ◌≡◌, inl, inr, refl, sym, ap, subst, ◌∙◌, Bool, true, false, Option, none, some, List, [], ◌∷◌,
  ◌++◌, ◌==◌, ==_iff, if◌then◌else◌, Bool-cases,
}
use tiny_state.StringTree.{Nodes, null, node, Tree, is_empty, tidied, del_loop, del}
use tiny_state.StringTree.Keys.{
  strip, same, same_iff, Parts, parts, prepended, strip_whole, strip_apart, common_apart,
  strip-append, strip_other,
}
use tiny_state.StringTree.Lookup.{
  shown, starts, IsWell, entry, value, entry_past, entry_under, entry_absent,
}
use tiny_state.StringTree.Insert.{
  same_nil, same_cons_nil, strip_cons_nil, absent_under, nothing, below, replaced, moved, past_both,
  Updated,
}
use tiny_state.StringTree.Placed.{passed}

fewer : (x y : Bool) → (if x then true else y) ≡ false → y ≡ false
fewer true y e = absurd (cc e)
fewer false y e = e

kept :
    {y z : Bool} (x : Bool)
    → (y ≡ false → z ≡ false)
    → (if x then true else y) ≡ false
    → (if x then true else z) ≡ false
kept true h e = e
kept false h e = h e

module _ {ℓ} {A : Type ℓ} where
  -- the entries of a list are those of another
  abbrev Alike : Nodes A → Nodes A → Type ℓ
  Alike n n' = (j : List ℕ) → entry j n' ≡ entry j n

  -- a list that stands for another from which nodes may have gone
  abbrev pub Tidy : Nodes A → Nodes A → Type ℓ
  Tidy n n' = IsWell n' × ((a : ℕ) → starts a n ≡ false → starts a n' ≡ false) × Alike n n'

  -- a node with no object and no children
  hollow :
      (c : ℕ) (s : List ℕ) (q : Bool) (n : Nodes A)
      → IsWell n
      → starts c n ≡ false
      → Alike (node (c ∷ s) none q null n) n
  hollow c s q n w t j = go (strip (c ∷ s) j) refl
    where
      go :
          (r : Option (List ℕ))
          → strip (c ∷ s) j ≡ r
          → entry j n ≡ entry j (node (c ∷ s) none q null n)
      go none f = rw (entry_past (c ∷ s) j none q null n f)
      go (some []) f = rw (absent_under c s j [] n f w t, entry_under (c ∷ s) j [] none q null n f)
      go (some (a ∷ r)) f =
          rw (absent_under c s j (a ∷ r) n f w t, entry_under (c ∷ s) j (a ∷ r) none q null n f)
            (sym (nothing none false (a ∷ r)))

  -- a node with no object and one child
  chained :
      (c d : ℕ) (s r : List ℕ) (q : Bool) (b : Option A) (q' : Bool) (m n : Nodes A)
      → IsWell n
      → starts c n ≡ false
      → Alike (node (c ∷ s) none q (node (d ∷ r) b q' m null) n) (node ((c ∷ s) ++ d ∷ r) b q' m n)
  chained c d s r q b q' m n w t j = go (strip (c ∷ s) j) refl
    where
      go :
          (u : Option (List ℕ))
          → strip (c ∷ s) j ≡ u
          → entry j (node ((c ∷ s) ++ d ∷ r) b q' m n)
            ≡ entry j (node (c ∷ s) none q (node (d ∷ r) b q' m null) n)
      go none f = rw (
        past_both none false (c ∷ s) (d ∷ r) j b q' m n f,
        entry_past (c ∷ s) j none q (node (d ∷ r) b q' m null) n f,
      )
      go (some []) f = rw (
        entry_past ((c ∷ s) ++ d ∷ r) j b q' m n
            (strip-append (c ∷ s) (d ∷ r) j ∙ (rw f (strip_cons_nil d r))),
        absent_under c s j [] n f w t,
        entry_under (c ∷ s) j [] none q (node (d ∷ r) b q' m null) n f,
      )
      go (some (a ∷ u)) f = rw (
        moved none false c s (d ∷ r) j a u b q' m n w t f,
        entry_under (c ∷ s) j (a ∷ u) none q (node (d ∷ r) b q' m null) n f,
      )

  tidied-Tidy :
      (c : ℕ) (s : List ℕ) (b : Option A) (q : Bool) (l n : Nodes A)
      → IsWell (node (c ∷ s) b q l n)
      → Tidy (node (c ∷ s) b q l n) (tidied (c ∷ s) b q l n)
  tidied-Tidy c s (some b) q l n w = (w, (λ a e. e), λ j. refl)
  tidied-Tidy c s none q null n w =
      (w.2, (λ a. fewer (a == c) (starts a n)), hollow c s q n w.2 w.0)
  tidied-Tidy c s none q (node [] b q' m n') n w = absurd w.1
  tidied-Tidy c s none q (node (d ∷ r) b q' m null) n w =
      ((w.0, w.1.1, w.2), (λ a e. e), chained c d s r q b q' m n w.2 w.0)
  tidied-Tidy c s none q (node (d ∷ r) b q' m (node r' b' q'' m' n')) n w =
      (w, (λ a e. e), λ j. refl)

  -- a key without an entry
  unchanged : (k : List ℕ) (n : Nodes A) → entry k n ≡ (none, false) → Updated none false k n n
  unchanged k n e j = elim (Bool-cases (same k j)) [
    | inl f ↦ rw f (subst (λ i. entry i n ≡ (none, false)) (same_iff k j f) e)
    | inr f ↦ rw f
  ]

  -- what a deletion returns and leaves
  abbrev pub Deleted : ℕ → List ℕ → Nodes A → Option A × Nodes A → Type ℓ
  Deleted d k n r =
      (r.0 ≡ (entry (d ∷ k) n).0)
      × IsWell r.1
      × ((a : ℕ) → starts a n ≡ false → starts a r.1 ≡ false)
      × Updated none false (d ∷ k) n r.1

  shown_obj : (b : Option A) (q : Bool) → b ≡ (shown b q).0
  shown_obj none q = refl
  shown_obj (some x) q = refl

  -- the node whose string is a beginning of the key
  abbrev del_below :
      List ℕ
      → List ℕ
      → Option A
      → Bool
      → Nodes A
      → Nodes A
      → Option A × Nodes A
      → Option A × Nodes A
  del_below k s b q l n deep =
      if is_empty k then (b, tidied s none false l n) else (deep.0, tidied s b q deep.1 n)

  del_below-Deleted :
      (c : ℕ) (x k k' : List ℕ) (b : Option A) (q : Bool) (l n : Nodes A) (r : Option A × Nodes A)
      → Parts (c ∷ x) (c ∷ k) (c ∷ x) [] k'
      → IsWell (node (c ∷ x) b q l n)
      → ((e : ℕ) (k'' : List ℕ) → k' ≡ e ∷ k'' → Deleted e k'' l r)
      → Deleted c k (node (c ∷ x) b q l n) (del_below k' (c ∷ x) b q l n r)
  del_below-Deleted c x k [] b q l n r v w h =
      let y = tidied-Tidy c x none false l n w in
      (
        rw (entry_under (c ∷ x) (c ∷ k) [] b q l n (strip_whole v)) (shown_obj b q),
        y.0,
        y.1,
        subst (λ i. Updated none false i (node (c ∷ x) b q l n) (tidied (c ∷ x) none false l n))
            (sym (v.key ∙ append-nil (c ∷ x))) (λ j. y.2 j ∙ replaced none false (c ∷ x) b q l n j),
      )
  del_below-Deleted c x k (e ∷ k') b q l n r v w h =
      let i = h e k' refl in
      let y = tidied-Tidy c x b q r.1 n (w.0, i.1, w.2) in
      (
        rw (entry_under (c ∷ x) (c ∷ k) (e ∷ k') b q l n (strip_whole v)) i.0,
        y.0,
        y.1,
        subst (λ i. Updated none false i (node (c ∷ x) b q l n) (tidied (c ∷ x) b q r.1 n))
            (sym v.key) (λ j. y.2 j ∙ below none false (c ∷ x) (e ∷ k') b q l r.1 n refl i.3 j),
      )

  met :
      (c : ℕ) (s k x s' k' : List ℕ) (b : Option A) (q : Bool) (l n : Nodes A)
      → Parts (c ∷ s) (c ∷ k) (c ∷ x) s' k'
      → IsWell (node (c ∷ s) b q l n)
      → ((e : ℕ) (k'' : List ℕ) → k' ≡ e ∷ k'' → Deleted e k'' l (del_loop k' l))
      → Deleted c k (node (c ∷ s) b q l n) (del_loop (c ∷ k) (node (c ∷ s) b q l n))
  unfolding del_loop
  met c s k x [] k' b q l n v w h =
      let string : c ∷ x ≡ c ∷ s = sym (v.string ∙ append-nil (c ∷ x)) in
      rw (v.shared, v.is_whole, v.left)
        (del_below-Deleted c s k k' b q l n (del_loop k' l)
          (subst (λ i. Parts (c ∷ s) (c ∷ k) i [] k') string v) w h)
  met c s k x (d ∷ s') k' b q l n v w h =
      let e : entry (c ∷ k) (node (c ∷ s) b q l n) ≡ (none, false) =
        entry_past (c ∷ s) (c ∷ k) b q l n (strip_apart d v) ∙ entry_absent c k n w.2 w.0 in
      rw (v.shared, v.is_whole)
        (ap (λ y. y.0) (sym e), w, (λ a f. f), unchanged (c ∷ k) (node (c ∷ s) b q l n) e)

  skipped :
      (c d : ℕ) (s k : List ℕ) (b : Option A) (q : Bool) (l n : Nodes A)
      → (c == d) ≡ false
      → IsWell (node (c ∷ s) b q l n)
      → Deleted d k n (del_loop (d ∷ k) n)
      → Deleted d k (node (c ∷ s) b q l n) (del_loop (d ∷ k) (node (c ∷ s) b q l n))
  unfolding del_loop
  skipped c d s k b q l n v w i = rw (common_apart c d s k v) (
    rw (entry_past (c ∷ s) (d ∷ k) b q l n (strip_other c d s k v)) i.0,
    (i.2 c w.0, w.1, i.1),
    (λ a. kept (a == c) (i.2 a)),
    passed none false c d s k b q l n (del_loop (d ∷ k) n).1 v i.3,
  )

  pub del_loop-Deleted :
      (d : ℕ) (k : List ℕ) (n : Nodes A) → IsWell n → Deleted d k n (del_loop (d ∷ k) n)
  del_loop-Deleted d k null w =
      unfold del_loop in
      (
        ap (λ y. y.0) (sym (nothing none false (d ∷ k))),
        tt,
        (λ a f. f),
        unchanged (d ∷ k) null (nothing none false (d ∷ k)),
      )
  del_loop-Deleted d k (node [] b q l n) w = absurd w
  del_loop-Deleted d k (node (c ∷ s) b q l n) w = elim (Bool-cases (c == d)) [
    | inl e ↦
        let (x, s', k', v) = parts s k in
        subst (λ i. Deleted i k (node (c ∷ s) b q l n) (del_loop (i ∷ k) (node (c ∷ s) b q l n)))
          ((==_iff c d).0 e)
          (met c s k x s' k' b q l n (prepended c s k x s' k' v) w (λ g h r.
            subst (λ i. Deleted g h l (del_loop i l)) (sym r) (del_loop-Deleted g h l w.1)))
    | inr e ↦ skipped c d s k b q l n e w (del_loop-Deleted d k n w.2)
  ]

  -- `del` returns the object of its key, keeps the strings apart, and takes away the entry of the key
  -- and no other.
  pub del_lem :
      (k : List ℕ) (t : Tree A)
      → IsWell t.list
      → ((del k t).0 ≡ (value k t).0)
        × IsWell (del k t).1.list
        × ((j : List ℕ)
            → value j (del k t).1
              ≡ (if◌then◌else◌ {A = Option A × Bool} (same k j) (none, false) (value j t)))
  unfolding del
  del_lem [] t w = (shown_obj t.obj t.partial_flag, w, at_root)
    where
      at_root :
          (j : List ℕ)
          → value j (record t { obj = none; partial_flag = false })
            ≡ (if◌then◌else◌ {A = Option A × Bool} (same [] j) (none, false) (value j t))
      at_root [] = rw (same_nil [])
      at_root (d ∷ j) = rw (same_nil (d ∷ j))
  del_lem (c ∷ k) t w =
      let i = del_loop-Deleted c k t.list w in
      (i.0, i.1, under_root (del_loop (c ∷ k) t.list).1 i.3)
    where
      under_root :
          (n' : Nodes A)
          → Updated none false (c ∷ k) t.list n'
          → (j : List ℕ)
          → value j (record t { list = n' })
            ≡ (if◌then◌else◌ {A = Option A × Bool} (same (c ∷ k) j) (none, false) (value j t))
      under_root n' u [] = rw (same_cons_nil c k)
      under_root n' u (d ∷ j) = u (d ∷ j)
