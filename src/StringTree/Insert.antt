-- ===== src/StringTree/Insert.antt =====
-- stdStringTree.cpp: `ins`.
use mathlib.Core.List.{append-nil}
use tiny_state.Prelude.{
  ℕ, ◌≡◌, refl, sym, subst, ◌∙◌, Bool, false, Option, none, some, List, [], ◌∷◌, ◌++◌, ◌==◌,
  if◌then◌else◌, arith,
}
use tiny_state.StringTree.{Nodes, null, node, is_empty}
use tiny_state.StringTree.Keys.{strip, same, strip-append, strip_eq, same-append}
use tiny_state.StringTree.Lookup.{
  shown, starts, IsWell, entry, entry_past, entry_under, entry_absent,
}

pub same_nil : (k : List ℕ) → same [] k ≡ is_empty k
unfolding same
same_nil [] = refl
same_nil (c ∷ k) = refl

pub same_cons_nil : (c : ℕ) (k : List ℕ) → same (c ∷ k) [] ≡ false
unfolding same
same_cons_nil c k = refl

pub strip_cons_nil : (c : ℕ) (k : List ℕ) → strip (c ∷ k) [] ≡ none
unfolding strip
strip_cons_nil c k = refl

pub same_other : (c d : ℕ) (k j : List ℕ) → (c == d) ≡ false → same (c ∷ k) (d ∷ j) ≡ false
unfolding same
same_other c d k j e = rw e

pub same_some {ℓ} : {A : Type ℓ} (x y : A) → some x ≡ some y → x ≡ y
same_some x y e = cc e

pub ==_flip : (a b : ℕ) → (a == b) ≡ false → (b == a) ≡ false
==_flip a b e = ground arith

pub other_than_nil : (k : List ℕ) → is_empty k ≡ false → same k [] ≡ false
other_than_nil [] e = absurd (cc e)
other_than_nil (c ∷ k) e = same_cons_nil c k

-- a key of the tree and one that goes through the same string
same_past : (x k j : List ℕ) → strip x j ≡ none → same (x ++ k) j ≡ false
same_past x k j e = rw (same-append x k j, e)

same_under : (x k j r : List ℕ) → strip x j ≡ some r → same (x ++ k) j ≡ same k r
same_under x k j r e = rw (same-append x k j, e)

pub whole_past : (k j : List ℕ) → strip k j ≡ none → same k j ≡ false
whole_past k j e = subst (λ a. same a j ≡ false) (append-nil k) (same_past k [] j e)

pub whole_under : (k j r : List ℕ) → strip k j ≡ some r → same k j ≡ is_empty r
whole_under k j r e =
    subst (λ a. same a j ≡ same [] r) (append-nil k) (same_under k [] j r e) ∙ same_nil r

pub absent_under {ℓ} :
    {A : Type ℓ} (c : ℕ) (k j r : List ℕ) (n : Nodes A)
    → strip (c ∷ k) j ≡ some r
    → IsWell n
    → starts c n ≡ false
    → entry j n ≡ (none, false)
absent_under c k j r n e w a = rw (strip_eq (c ∷ k) j r e) (entry_absent c (k ++ r) n w a)

module _ {ℓ} {A : Type ℓ} (o : Option A) (p : Bool) where
  -- the entries after the insertion of a key
  abbrev pub Updated : List ℕ → Nodes A → Nodes A → Type ℓ
  Updated k n n' =
      (j : List ℕ)
      → entry j n' ≡ (if◌then◌else◌ {A = Option A × Bool} (same k j) (shown o p) (entry j n))

  abbrev pub Inserted : List ℕ → Nodes A → Nodes A → Type ℓ
  Inserted k n n' = IsWell n' × ((c : ℕ) → starts c n' ≡ starts c n) × Updated k n n'

  abbrev pub Result : ℕ → List ℕ → Nodes A → Option (Nodes A) → Type ℓ
  Result c k n r =
      (r ≡ none → starts c n ≡ false) × ((n' : Nodes A) → r ≡ some n' → Inserted (c ∷ k) n n')

  pub nothing : (r : List ℕ) → entry {A = A} r null ≡ (none, false)
  unfolding entry
  nothing r = refl

  pub new_entry :
      (c : ℕ) (k : List ℕ) (l : Nodes A)
      → IsWell l
      → starts c l ≡ false
      → Updated (c ∷ k) l (node (c ∷ k) o p null l)
  new_entry c k l w e j = go (strip (c ∷ k) j) refl
    where
      go :
          (r : Option (List ℕ))
          → strip (c ∷ k) j ≡ r
          → entry j (node (c ∷ k) o p null l)
            ≡ (if◌then◌else◌ {A = Option A × Bool} (same (c ∷ k) j) (shown o p) (entry j l))
      go none f = rw (whole_past (c ∷ k) j f, entry_past (c ∷ k) j o p null l f)
      go (some []) f = rw (whole_under (c ∷ k) j [] f, entry_under (c ∷ k) j [] o p null l f)
      go (some (d ∷ r)) f =
          rw
            (
              whole_under (c ∷ k) j (d ∷ r) f,
              absent_under c k j (d ∷ r) l f w e,
              entry_under (c ∷ k) j (d ∷ r) o p null l f,
            )
            (nothing (d ∷ r))

  -- the entries behind a common beginning, `c ∷ x`, of the key and a string
  pub below :
      (x k : List ℕ) (b : Option A) (q : Bool) (l l' n : Nodes A)
      → is_empty k ≡ false
      → Updated k l l'
      → Updated (x ++ k) (node x b q l n) (node x b q l' n)
  below x k b q l l' n t h j = go (strip x j) refl
    where
      go :
          (r : Option (List ℕ))
          → strip x j ≡ r
          → entry j (node x b q l' n) ≡ (
              if◌then◌else◌ {A = Option A × Bool}
                (same (x ++ k) j)
                (shown o p)
                (entry j (node x b q l n)))
      go none f = rw (same_past x k j f, entry_past x j b q l n f, entry_past x j b q l' n f)
      go (some []) f = rw (
        same_under x k j [] f,
        other_than_nil k t,
        entry_under x j [] b q l n f,
        entry_under x j [] b q l' n f,
      )
      go (some (d ∷ r)) f =
          rw
            (
              same_under x k j (d ∷ r) f,
              entry_under x j (d ∷ r) b q l n f,
              entry_under x j (d ∷ r) b q l' n f,
            )
            (h (d ∷ r))

  -- the object of a node whose whole string is the key
  pub replaced :
      (k : List ℕ) (b : Option A) (q : Bool) (l n : Nodes A)
      → Updated k (node k b q l n) (node k o p l n)
  replaced k b q l n j = go (strip k j) refl
    where
      go :
          (r : Option (List ℕ))
          → strip k j ≡ r
          → entry j (node k o p l n) ≡ (
              if◌then◌else◌ {A = Option A × Bool} (same k j) (shown o p) (entry j (node k b q l n)))
      go none f = rw (whole_past k j f, entry_past k j o p l n f, entry_past k j b q l n f)
      go (some []) f = rw (whole_under k j [] f, entry_under k j [] o p l n f)
      go (some (d ∷ r)) f = rw (
        whole_under k j (d ∷ r) f,
        entry_under k j (d ∷ r) o p l n f,
        entry_under k j (d ∷ r) b q l n f,
      )

  -- what stood below a string that has been cut in two
  pub moved :
      (c : ℕ) (x s j : List ℕ) (a : ℕ) (r : List ℕ) (b : Option A) (q : Bool) (l n : Nodes A)
      → IsWell n
      → starts c n ≡ false
      → strip (c ∷ x) j ≡ some (a ∷ r)
      → entry j (node ((c ∷ x) ++ s) b q l n) ≡ entry (a ∷ r) (node s b q l null)
  moved c x s j a r b q l n w t e = go (strip s (a ∷ r)) refl
    where
      whole_strip : strip ((c ∷ x) ++ s) j ≡ strip s (a ∷ r)
      whole_strip = rw (strip-append (c ∷ x) s j, e)

      go :
          (r' : Option (List ℕ))
          → strip s (a ∷ r) ≡ r'
          → entry j (node ((c ∷ x) ++ s) b q l n) ≡ entry (a ∷ r) (node s b q l null)
      go none f =
          rw
            (
              entry_past ((c ∷ x) ++ s) j b q l n (whole_strip ∙ f),
              entry_past s (a ∷ r) b q l null f,
              absent_under c x j (a ∷ r) n e w t,
            )
            (sym (nothing (a ∷ r)))
      go (some r') f = rw (
        entry_under ((c ∷ x) ++ s) j r' b q l n (whole_strip ∙ f),
        entry_under s (a ∷ r) r' b q l null f,
      )

  pub past_both :
      (x s j : List ℕ) (b : Option A) (q : Bool) (l n : Nodes A)
      → strip x j ≡ none
      → entry j (node (x ++ s) b q l n) ≡ entry j n
  past_both x s j b q l n f = entry_past (x ++ s) j b q l n (rw (strip-append x s j, f))

  -- the key ends inside the string of a node
  pub inner :
      (c : ℕ) (x s : List ℕ) (b : Option A) (q : Bool) (l n : Nodes A)
      → IsWell n
      → starts c n ≡ false
      → Updated (c ∷ x) (node ((c ∷ x) ++ s) b q l n) (node (c ∷ x) o p (node s b q l null) n)
  inner c x s b q l n w t j = go (strip (c ∷ x) j) refl
    where
      go :
          (r : Option (List ℕ))
          → strip (c ∷ x) j ≡ r
          → entry j (node (c ∷ x) o p (node s b q l null) n) ≡ (
              if◌then◌else◌ {A = Option A × Bool}
                (same (c ∷ x) j)
                (shown o p)
                (entry j (node ((c ∷ x) ++ s) b q l n)))
      go none f = rw (
        whole_past (c ∷ x) j f,
        past_both (c ∷ x) s j b q l n f,
        entry_past (c ∷ x) j o p (node s b q l null) n f,
      )
      go (some []) f =
          rw (whole_under (c ∷ x) j [] f, entry_under (c ∷ x) j [] o p (node s b q l null) n f)
      go (some (a ∷ r)) f = rw (
        whole_under (c ∷ x) j (a ∷ r) f,
        moved c x s j a r b q l n w t f,
        entry_under (c ∷ x) j (a ∷ r) o p (node s b q l null) n f,
      )

  -- a sibling put behind the last one
  appended :
      (d e : ℕ) (s k r : List ℕ) (b : Option A) (q : Bool) (l : Nodes A)
      → (e == d) ≡ false
      → entry r (node (d ∷ s) b q l (node (e ∷ k) o p null null)) ≡ (
          if◌then◌else◌ {A = Option A × Bool}
            (same (e ∷ k) r)
            (shown o p)
            (entry r (node (d ∷ s) b q l null)))
  appended d e s k r b q l v = go (strip (d ∷ s) r) refl
    where
      go :
          (u : Option (List ℕ))
          → strip (d ∷ s) r ≡ u
          → entry r (node (d ∷ s) b q l (node (e ∷ k) o p null null)) ≡ (
              if◌then◌else◌ {A = Option A × Bool}
                (same (e ∷ k) r)
                (shown o p)
                (entry r (node (d ∷ s) b q l null)))
      go none f =
          rw
            (
              entry_past (d ∷ s) r b q l null f,
              entry_past (d ∷ s) r b q l (node (e ∷ k) o p null null) f,
            )
            (new_entry e k null tt refl r)
      go (some u) f = rw (
        entry_under (d ∷ s) r u b q l null f,
        entry_under (d ∷ s) r u b q l (node (e ∷ k) o p null null) f,
        subst (λ i. same (e ∷ k) i ≡ false) (sym (strip_eq (d ∷ s) r u f))
            (same_other e d k (s ++ u) v),
      )

  -- the key and the string of a node go on differently
  pub fork :
      (c d e : ℕ) (x s k : List ℕ) (b : Option A) (q : Bool) (l n : Nodes A)
      → IsWell n
      → starts c n ≡ false
      → (e == d) ≡ false
      → Updated
          ((c ∷ x) ++ e ∷ k)
          (node ((c ∷ x) ++ d ∷ s) b q l n)
          (node (c ∷ x) none false (node (d ∷ s) b q l (node (e ∷ k) o p null null)) n)
  fork c d e x s k b q l n w t v j = go (strip (c ∷ x) j) refl
    where
      m : Nodes A
      m = node (d ∷ s) b q l (node (e ∷ k) o p null null)

      go :
          (r : Option (List ℕ))
          → strip (c ∷ x) j ≡ r
          → entry j (node (c ∷ x) none false m n) ≡ (
              if◌then◌else◌ {A = Option A × Bool}
                (same ((c ∷ x) ++ e ∷ k) j)
                (shown o p)
                (entry j (node ((c ∷ x) ++ d ∷ s) b q l n)))
      go none f = rw (
        same_past (c ∷ x) (e ∷ k) j f,
        past_both (c ∷ x) (d ∷ s) j b q l n f,
        entry_past (c ∷ x) j none false m n f,
      )
      go (some []) f = rw (
        same_under (c ∷ x) (e ∷ k) j [] f,
        same_cons_nil e k,
        entry_past ((c ∷ x) ++ d ∷ s) j b q l n
            (strip-append (c ∷ x) (d ∷ s) j ∙ (rw f (strip_cons_nil d s))),
        absent_under c x j [] n f w t,
        entry_under (c ∷ x) j [] none false m n f,
      )
      go (some (a ∷ r)) f =
          rw
            (
              same_under (c ∷ x) (e ∷ k) j (a ∷ r) f,
              moved c x (d ∷ s) j a r b q l n w t f,
              entry_under (c ∷ x) j (a ∷ r) none false m n f,
            )
            (appended d e s k (a ∷ r) b q l v)
