-- ===== src/StringTree/Placed.antt =====
-- stdStringTree.cpp: where `ins` puts a key, and what it makes of the whole tree.
use mathlib.Core.List.{append-nil}
use tiny_state.Prelude.{
  ℕ, ◌≡◌, inl, inr, refl, sym, subst, ◌∙◌, Bool, false, Option, none, some, List, [], ◌∷◌, ◌++◌,
  ◌==◌, ==_iff, if◌then◌else◌, Bool-cases,
}
use tiny_state.StringTree.{Nodes, null, node, Tree, pushed, ins_below, ins_loop, ins}
use tiny_state.StringTree.Keys.{strip, same, Parts, parts, prepended, common_apart, strip_eq}
use tiny_state.StringTree.Lookup.{shown, IsWell, entry, value, entry_past, entry_under}
use tiny_state.StringTree.Insert.{
  same_nil, same_cons_nil, same_other, ==_flip, same_some, Updated, Inserted, Result, new_entry,
  below, replaced, inner, fork,
}

module _ {ℓ} {A : Type ℓ} (o : Option A) (p : Bool) where
  -- the list of a node, below which the rest of the key is put in
  pushed-Inserted :
      (e : ℕ) (k : List ℕ) (l : Nodes A) (r : Option (Nodes A))
      → IsWell l
      → Result o p e k l r
      → IsWell (pushed (e ∷ k) o p l r) × Updated o p (e ∷ k) l (pushed (e ∷ k) o p l r)
  pushed-Inserted e k l none w h = ((h.0 refl, tt, w), new_entry o p e k l w (h.0 refl))
  pushed-Inserted e k l (some l') w h = let i = h.1 l' refl in (i.0, i.2)

  -- the node whose string is a proper beginning of the key or the whole of it
  ins_below-Inserted :
      (c : ℕ) (x k : List ℕ) (b : Option A) (q : Bool) (l n : Nodes A) (r : Option (Nodes A))
      → IsWell (node (c ∷ x) b q l n)
      → ((e : ℕ) (k' : List ℕ) → k ≡ e ∷ k' → Result o p e k' l r)
      → Inserted o p ((c ∷ x) ++ k) (node (c ∷ x) b q l n) (ins_below k o p (c ∷ x) b q l n r)
  ins_below-Inserted c x [] b q l n r w h = (
    w,
    (λ a. refl),
    subst (λ i. Updated o p i (node (c ∷ x) b q l n) (node (c ∷ x) o p l n))
        (sym (append-nil (c ∷ x))) (replaced o p (c ∷ x) b q l n),
  )
  ins_below-Inserted c x (e ∷ k) b q l n r w h =
      let (v, u) = pushed-Inserted e k l r w.1 (h e k refl) in
      (
        (w.0, v, w.2),
        (λ a. refl),
        below o p (c ∷ x) (e ∷ k) b q l (pushed (e ∷ k) o p l r) n refl u,
      )

  given :
      (d : ℕ) (k : List ℕ) (n n' : Nodes A) → Inserted o p (d ∷ k) n n' → Result o p d k n (some n')
  given d k n n' i =
      ((λ e. absurd (cc e)), (λ n'' e. subst (Inserted o p (d ∷ k) n) (same_some n' n'' e) i))

  -- one node of the loop, whose string starts like the key
  met :
      (c : ℕ) (s k x s' k' : List ℕ) (b : Option A) (q : Bool) (l n : Nodes A)
      → Parts (c ∷ s) (c ∷ k) (c ∷ x) s' k'
      → IsWell (node (c ∷ s) b q l n)
      → ((e : ℕ) (k'' : List ℕ) → k' ≡ e ∷ k'' → Result o p e k'' l (ins_loop k' o p l))
      → (n' : Nodes A) × (ins_loop (c ∷ k) o p (node (c ∷ s) b q l n) ≡ some n')
        × Inserted o p (c ∷ k) (node (c ∷ s) b q l n) n'
  unfolding ins_loop
  met c s k x [] k' b q l n v w h =
      let string : c ∷ x ≡ c ∷ s = sym (v.string ∙ append-nil (c ∷ x)) in
      let u =
        ins_below-Inserted c x k' b q l n (ins_loop k' o p l)
          (subst (λ i. IsWell (node i b q l n)) (sym string) w) h in
      (
        ins_below k' o p (c ∷ s) b q l n (ins_loop k' o p l),
        rw (v.shared, v.is_whole, v.left),
        subst
            (λ i.
              Inserted o p i (node (c ∷ s) b q l n)
                (ins_below k' o p (c ∷ s) b q l n (ins_loop k' o p l)))
            (sym v.key)
            (subst
              (λ j.
                Inserted o p ((c ∷ x) ++ k') (node j b q l n)
                  (ins_below k' o p j b q l n (ins_loop k' o p l)))
              string u),
      )
  met c s k x (d ∷ s') [] b q l n v w h =
      let n' : Nodes A = node (c ∷ x) o p (node (d ∷ s') b q l null) n in
      (
        n',
        rw (v.shared, v.is_whole, v.is_inner, v.front, v.back),
        (
          (w.0, (refl, w.1, tt), w.2),
          (λ a. refl),
          subst (λ i. Updated o p i (node (c ∷ s) b q l n) n') (sym (v.key ∙ append-nil (c ∷ x)))
              (subst (λ j. Updated o p (c ∷ x) (node j b q l n) n') (sym v.string)
                (inner o p c x (d ∷ s') b q l n w.2 w.0)),
        ),
      )
  met c s k x (d ∷ s') (e ∷ k') b q l n v w h =
      let m : Nodes A = node (d ∷ s') b q l (node (e ∷ k') o p null null) in
      let n' : Nodes A = node (c ∷ x) none false m n in
      (
        n',
        rw (v.shared, v.is_whole, v.is_inner, v.front, v.back, v.left),
        (
          (w.0, (rw v.diverge, w.1, (refl, tt, tt)), w.2),
          (λ a. refl),
          subst (λ i. Updated o p i (node (c ∷ s) b q l n) n') (sym v.key)
              (subst (λ j. Updated o p ((c ∷ x) ++ e ∷ k') (node j b q l n) n') (sym v.string)
                (fork o p c d e x s' k' b q l n w.2 w.0 (==_flip d e v.diverge))),
        ),
      )

  -- a node whose string starts differently
  pub passed :
      (c d : ℕ) (s k : List ℕ) (b : Option A) (q : Bool) (l n n' : Nodes A)
      → (c == d) ≡ false
      → Updated o p (d ∷ k) n n'
      → Updated o p (d ∷ k) (node (c ∷ s) b q l n) (node (c ∷ s) b q l n')
  passed c d s k b q l n n' v h j = go (strip (c ∷ s) j) refl
    where
      go :
          (r : Option (List ℕ))
          → strip (c ∷ s) j ≡ r
          → entry j (node (c ∷ s) b q l n') ≡ (
              if◌then◌else◌ {A = Option A × Bool}
                (same (d ∷ k) j)
                (shown o p)
                (entry j (node (c ∷ s) b q l n)))
      go none f = rw (entry_past (c ∷ s) j b q l n f, entry_past (c ∷ s) j b q l n' f) (h j)
      go (some r) f = rw (
        entry_under (c ∷ s) j r b q l n f,
        entry_under (c ∷ s) j r b q l n' f,
        subst (λ i. same (d ∷ k) i ≡ false) (sym (strip_eq (c ∷ s) j r f))
            (same_other d c k (s ++ r) (==_flip c d v)),
      )

  skipped :
      (c d : ℕ) (s k : List ℕ) (b : Option A) (q : Bool) (l n : Nodes A)
      → (c == d) ≡ false
      → IsWell (node (c ∷ s) b q l n)
      → Result o p d k n (ins_loop (d ∷ k) o p n)
      → Result o p d k (node (c ∷ s) b q l n) (ins_loop (d ∷ k) o p (node (c ∷ s) b q l n))
  unfolding ins_loop
  skipped c d s k b q l n v w h = rw (common_apart c d s k v) (go (ins_loop (d ∷ k) o p n) h)
    where
      go :
          (r : Option (Nodes A))
          → Result o p d k n r
          → Result o p d k (node (c ∷ s) b q l n) (elim r as (λ x. Option (Nodes A)) [
            | none ↦ none
            | some n' ↦ some (node (c ∷ s) b q l n')
          ])
      go none h = ((λ e. rw (==_flip c d v) (h.0 refl)), (λ n' e. absurd (cc e)))
      go (some n') h =
          let i = h.1 n' refl in
          given d k (node (c ∷ s) b q l n) (node (c ∷ s) b q l n')
            ((i.1 c ∙ w.0, w.1, i.0), (λ a. rw (i.1 a)), passed c d s k b q l n n' v i.2)

  pub ins_loop-Inserted :
      (d : ℕ) (k : List ℕ) (n : Nodes A) → IsWell n → Result o p d k n (ins_loop (d ∷ k) o p n)
  ins_loop-Inserted d k null w = unfold ins_loop in ((λ e. refl), (λ n' e. absurd (cc e)))
  ins_loop-Inserted d k (node [] b q l n) w = absurd w
  ins_loop-Inserted d k (node (c ∷ s) b q l n) w = elim (Bool-cases (c == d)) [
    | inl e ↦
        let (x, s', k', v) = parts s k in
        let (n', f, i) = met c s k x s' k' b q l n (prepended c s k x s' k' v) w (λ g h r.
          subst (λ i. Result o p g h l (ins_loop i o p l)) (sym r) (ins_loop-Inserted g h l w.1)) in
        subst
          (λ i. Result o p i k (node (c ∷ s) b q l n) (ins_loop (i ∷ k) o p (node (c ∷ s) b q l n)))
          ((==_iff c d).0 e)
          (subst (Result o p c k (node (c ∷ s) b q l n)) (sym f)
            (given c k (node (c ∷ s) b q l n) n' i))
    | inr e ↦ skipped c d s k b q l n e w (ins_loop-Inserted d k n w.2)
  ]

  -- `ins` keeps the strings apart, and changes the entry of its key and no other.
  pub ins_lem :
      (k : List ℕ) (t : Tree A)
      → IsWell t.list
      → IsWell (ins k o p t).list
        × ((j : List ℕ)
            → value j (ins k o p t)
              ≡ (if◌then◌else◌ {A = Option A × Bool} (same k j) (shown o p) (value j t)))
  unfolding ins
  ins_lem [] t w = (w, at_root)
    where
      at_root :
          (j : List ℕ)
          → value j (record t { obj = o; partial_flag = p })
            ≡ (if◌then◌else◌ {A = Option A × Bool} (same [] j) (shown o p) (value j t))
      at_root [] = rw (same_nil [])
      at_root (d ∷ j) = rw (same_nil (d ∷ j))
  ins_lem (c ∷ k) t w =
      let (v, u) =
        pushed-Inserted c k t.list (ins_loop (c ∷ k) o p t.list) w
          (ins_loop-Inserted c k t.list w) in
      (v, λ j. under_root _ u j)
    where
      under_root :
          (n' : Nodes A)
          → Updated o p (c ∷ k) t.list n'
          → (j : List ℕ)
          → value j (record t { list = n' })
            ≡ (if◌then◌else◌ {A = Option A × Bool} (same (c ∷ k) j) (shown o p) (value j t))
      under_root n' u [] = rw (same_cons_nil c k)
      under_root n' u (d ∷ j) = u (d ∷ j)
