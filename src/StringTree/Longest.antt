-- ===== src/StringTree/Longest.antt =====
-- stdStringTree.cpp: `search(match_len,key)`, the longest beginning of a key that has an object.
use mathlib.Core.List.{append-nil}
use tiny_state.Prelude.{
  ℕ, suc, ◌+◌, ◌≡◌, inl, inr, refl, sym, ap, subst, fun_ext, ◌∙◌, Bool, false, Option, none, some,
  List, [], ◌∷◌, ◌++◌, ◌==◌, ==_iff, if◌then◌else◌, arith, Bool-cases, length,
}
use tiny_state.StringTree.{
  Nodes, null, node, Tree, is_empty, arrived, kept_last, scan, search_prefix, matched,
}
use tiny_state.StringTree.Keys.{
  strip, Parts, parts, prepended, strip_apart, common_apart, strip_self, strip_other, strip_short,
  strip_prefix,
}
use tiny_state.StringTree.Lookup.{
  shown, IsWell, entry, value, entry_past, entry_under, entry_absent,
}

tail_eq : (c : ℕ) (x y : List ℕ) → c ∷ x ≡ c ∷ y → x ≡ y
tail_eq c x y e = cc e

module _ {ℓ} {A : Type ℓ} where
  -- along a key: the object of the whole key, or else that of the longest proper beginning whose
  -- flag is set, and its length
  unfoldable pub longest : (List ℕ → Option A × Bool) → ℕ → List ℕ → Option A × ℕ → Option A × ℕ
  longest f at [] r = arrived (f []).0 at r
  longest f at (c ∷ k) r = longest (λ j. f (c ∷ j)) (suc at) k (kept_last (f []).0 (f []).1 at r)

  -- no beginning of the key has an object
  longest-none :
      (f : List ℕ → Option A × Bool) (at : ℕ) (k : List ℕ) (r : Option A × ℕ)
      → ((y z : List ℕ) → k ≡ y ++ z → (f y).0 ≡ none)
      → longest f at k r ≡ r
  unfolding longest
  longest-none f at [] r h = rw (h [] [] refl)
  longest-none f at (c ∷ k) r h =
      rw (longest, h [] (c ∷ k) refl)
        (longest-none (λ j. f (c ∷ j)) (suc at) k r (λ y z e. h (c ∷ y) z (ap (◌∷◌ c) e)))

  -- no proper beginning of a string has an object
  longest_over :
      (f : List ℕ → Option A × Bool) (at : ℕ) (x k : List ℕ) (r : Option A × ℕ)
      → ((y : List ℕ) (d : ℕ) (z : List ℕ) → x ≡ y ++ d ∷ z → (f y).0 ≡ none)
      → longest f at (x ++ k) r ≡ longest (λ j. f (x ++ j)) (at + length x) k r
  unfolding longest
  longest_over f at [] k r h = ap (λ i. longest f i k r) (omega arith)
  longest_over f at (c ∷ x) k r h =
      rw (longest, h [] c x refl)
        (longest_over (λ j. f (c ∷ j)) (suc at) x k r (λ y d z e. h (c ∷ y) d z (ap (◌∷◌ c) e))
          ∙ ap (λ i. longest (λ j. f (c ∷ x ++ j)) i k r) (omega arith))

  -- the entries below a node, by what follows its string
  abbrev rest_of : Option A → Bool → Nodes A → List ℕ → Option A × Bool
  rest_of b q l j = if is_empty j then shown b q else entry j l

  part_way :
      (c : ℕ) (x y z : List ℕ) (d : ℕ) (b : Option A) (q : Bool) (l n : Nodes A)
      → IsWell (node (c ∷ x) b q l n)
      → x ≡ y ++ d ∷ z
      → (entry (c ∷ y) (node (c ∷ x) b q l n)).0 ≡ none
  part_way c x y z d b q l n w e = rw (
    entry_past (c ∷ x) (c ∷ y) b q l n (rw e (strip_short (c ∷ y) z d)),
    entry_absent c y n w.2 w.0,
  )

  end_of :
      (k : List ℕ) (at : ℕ) (r : Option A × ℕ) (b : Option A) (q : Bool) (l : Nodes A)
      → ((e : ℕ) (k' : List ℕ) (r' : Option A × ℕ)
          → k ≡ e ∷ k'
          → scan at k r' l ≡ longest (λ j. entry (e ∷ j) l) (suc at) k' r')
      → (if is_empty k then arrived b at r else scan at k (kept_last b q at r) l)
        ≡ longest (rest_of b q l) at k r
  unfolding longest
  end_of [] at r none q l h = refl
  end_of [] at r (some x) q l h = refl
  end_of (e ∷ k) at r none q l h = h e k r refl
  end_of (e ∷ k) at r (some x) q l h = h e k (kept_last (some x) q at r) refl

  through :
      (c : ℕ) (x k : List ℕ) (at : ℕ) (r : Option A × ℕ) (b : Option A) (q : Bool) (l n : Nodes A)
      → IsWell (node (c ∷ x) b q l n)
      → longest (λ j. entry (c ∷ j) (node (c ∷ x) b q l n)) (suc at) (x ++ k) r
        ≡ longest (rest_of b q l) (at + length (c ∷ x)) k r
  through c x k at r b q l n w =
      longest_over (λ j. entry (c ∷ j) (node (c ∷ x) b q l n)) (suc at) x k r
        (λ y d z. part_way c x y z d b q l n w)
      ∙ ap (λ f. longest f (suc at + length x) k r)
          (fun_ext λ j. entry_under (c ∷ x) (c ∷ x ++ j) j b q l n (strip_self (c ∷ x) j))
      ∙ ap (λ i. longest (rest_of b q l) i k r) (omega arith)

  found_part :
      (c : ℕ) (s k x s' k' : List ℕ) (at : ℕ) (r : Option A × ℕ) (b : Option A) (q : Bool)
      (l n : Nodes A)
      → Parts (c ∷ s) (c ∷ k) (c ∷ x) s' k'
      → IsWell (node (c ∷ s) b q l n)
      → ((e : ℕ) (k'' : List ℕ) (at' : ℕ) (r' : Option A × ℕ)
          → k' ≡ e ∷ k''
          → scan at' k' r' l ≡ longest (λ j. entry (e ∷ j) l) (suc at') k'' r')
      → scan at (c ∷ k) r (node (c ∷ s) b q l n)
        ≡ longest (λ j. entry (c ∷ j) (node (c ∷ s) b q l n)) (suc at) k r
  unfolding scan
  found_part c s k x [] k' at r b q l n v w h =
      let string : x ≡ s = tail_eq c x s (sym (v.string ∙ append-nil (c ∷ x))) in
      let key : x ++ k' ≡ k = tail_eq c (x ++ k') k (sym v.key) in
      rw (v.shared, v.is_whole, v.left, v.agree)
        (end_of k' (at + length (c ∷ x)) r b q l (λ e k'' r' g. h e k'' (at + length (c ∷ x)) r' g)
          ∙ sym (
              subst
                (λ i.
                  longest (λ j. entry (c ∷ j) (node (c ∷ i) b q l n)) (suc at) k r
                  ≡ longest (rest_of b q l) (at + length (c ∷ x)) k' r)
                string
                (subst
                  (λ i.
                    longest (λ j. entry (c ∷ j) (node (c ∷ x) b q l n)) (suc at) i r
                    ≡ longest (rest_of b q l) (at + length (c ∷ x)) k' r)
                  key
                  (through c x k' at r b q l n
                    (subst (λ i. IsWell (node (c ∷ i) b q l n)) (sym string) w)))))
  found_part c s k x (d ∷ s') k' at r b q l n v w h =
      rw (v.shared, v.is_whole)
        (sym (
          longest-none (λ j. entry (c ∷ j) (node (c ∷ s) b q l n)) (suc at) k r
            (λ y z e.
              ap (λ i. i.0)
                (entry_past (c ∷ s) (c ∷ y) b q l n (
                    strip_prefix (c ∷ s) (c ∷ y) z
                      (subst (λ i. strip (c ∷ s) (c ∷ i) ≡ none) e (strip_apart d v)))
                  ∙ entry_absent c y n w.2 w.0))))

  past_scan :
      (at c d : ℕ) (s k : List ℕ) (r : Option A × ℕ) (b : Option A) (q : Bool) (l n : Nodes A)
      → (c == d) ≡ false
      → scan at (d ∷ k) r (node (c ∷ s) b q l n) ≡ scan at (d ∷ k) r n
  unfolding scan
  past_scan at c d s k r b q l n e = rw (common_apart c d s k e)

  scan_lem :
      (at c : ℕ) (k : List ℕ) (r : Option A × ℕ) (n : Nodes A)
      → IsWell n
      → scan at (c ∷ k) r n ≡ longest (λ j. entry (c ∷ j) n) (suc at) k r
  scan_lem at c k r null w =
      unfold scan entry in
      sym (longest-none (λ j. entry {A = A} (c ∷ j) null) (suc at) k r (λ y z e. refl))
  scan_lem at c k r (node [] b q l n) w = absurd w
  scan_lem at d k r (node (c ∷ s) b q l n) w = elim (Bool-cases (c == d)) [
    | inl e ↦
        let (x, s', k', v) = parts s k in
        subst
          (λ i.
            scan at (i ∷ k) r (node (c ∷ s) b q l n)
            ≡ longest (λ j. entry (i ∷ j) (node (c ∷ s) b q l n)) (suc at) k r)
          ((==_iff c d).0 e)
          (found_part c s k x s' k' at r b q l n (prepended c s k x s' k' v) w (λ g h at' r' f.
            subst (λ i. scan at' i r' l ≡ longest (λ j. entry (g ∷ j) l) (suc at') h r') (sym f)
              (scan_lem at' g h r' l w.1)))
    | inr e ↦
        past_scan at c d s k r b q l n e
        ∙ scan_lem at d k r n w.2
        ∙ ap (λ f. longest f (suc at) k r)
            (fun_ext λ j. sym (entry_past (c ∷ s) (d ∷ j) b q l n (strip_other c d s j e)))
  ]

  at_root : (b : Option A) (q : Bool) → arrived b 0 (none, 0) ≡ arrived (shown b q).0 0 (none, 0)
  at_root none q = refl
  at_root (some x) q = refl

  flag_root :
      (b : Option A) (q : Bool)
      → kept_last b q 0 (none, 0) ≡ kept_last (shown b q).0 (shown b q).1 0 (none, 0)
  flag_root none q = refl
  flag_root (some x) q = refl

  -- `search(match_len,key)` finds the object of the key, or else that of the longest beginning that
  -- was inserted with the flag, and how much of the key it takes; none and 0 where there is neither.
  pub search_prefix_lem :
      (k : List ℕ) (t : Tree A)
      → IsWell t.list
      → search_prefix k t ≡ matched (longest (λ j. value j t) 0 k (none, 0))
  unfolding search_prefix longest
  search_prefix_lem [] t w = ap matched (at_root t.obj t.partial_flag)
  search_prefix_lem (c ∷ k) t w = ap matched (
      scan_lem 0 c k (kept_last t.obj t.partial_flag 0 (none, 0)) t.list w
      ∙ ap (longest (λ j. entry (c ∷ j) t.list) 1 k) (flag_root t.obj t.partial_flag))
