-- ===== src/StringTree/Keys.antt =====
-- stdStringTree.cpp: strings that begin like others.
use mathlib.Core.List.{append-nil}
use tiny_state.Prelude.{
  ℕ, suc, ◌≡◌, inl, inr, refl, sym, ap, subst, Bool, true, false, Option, none, some, List, [], ◌∷◌,
  ◌++◌, ◌==◌, ==_iff, ==_refl, if◌then◌else◌, arith, Bool-cases, length, take, drop,
}
use tiny_state.StringTree.{common, is_empty}

-- what is left of a key behind a string that it starts with
unfoldable pub strip : List ℕ → List ℕ → Option (List ℕ)
strip [] k = some k
strip (c ∷ s) [] = none
strip (c ∷ s) (d ∷ k) = if c == d then strip s k else none

unfoldable pub same : List ℕ → List ℕ → Bool
same [] [] = true
same [] (d ∷ k) = false
same (c ∷ s) [] = false
same (c ∷ s) (d ∷ k) = if c == d then same s k else false

-- two strings that do not go on with the same character
abbrev pub Diverge : List ℕ → List ℕ → Type 0
Diverge [] k = Unit
Diverge (c ∷ s) [] = Unit
Diverge (c ∷ s) (d ∷ k) = (c == d) ≡ false

strip-Diverge : (x s k : List ℕ) (c : ℕ) → Diverge (c ∷ s) k → strip (x ++ c ∷ s) (x ++ k) ≡ none
unfolding strip
strip-Diverge [] s [] c v = refl
strip-Diverge [] s (d ∷ k) c v = rw v
strip-Diverge (d ∷ x) s k c v = rw (==_refl d) (strip-Diverge x s k c v)

pub strip-append :
    (x s j : List ℕ)
    → strip (x ++ s) j
      ≡ elim (strip x j) as (λ o. Option (List ℕ)) [ none ↦ none | some r ↦ strip s r ]
unfolding strip
strip-append [] s j = refl
strip-append (c ∷ x) s [] = refl
strip-append (c ∷ x) s (d ∷ j) = ground (arith, strip-append x s j)

pub same-append :
    (x k j : List ℕ)
    → same (x ++ k) j ≡ elim (strip x j) as (λ o. Bool) [ none ↦ false | some r ↦ same k r ]
unfolding strip same
same-append [] k j = refl
same-append (c ∷ x) k [] = refl
same-append (c ∷ x) k (d ∷ j) = ground (arith, same-append x k j)

pub strip_self : (x k : List ℕ) → strip x (x ++ k) ≡ some k
unfolding strip
strip_self [] k = refl
strip_self (c ∷ x) k = rw (==_refl c) (strip_self x k)

pub strip_eq : (s k r : List ℕ) → strip s k ≡ some r → k ≡ s ++ r
unfolding strip
strip_eq [] k r e = cc e
strip_eq (c ∷ s) [] r e = absurd (cc e)
strip_eq (c ∷ s) (d ∷ k) r e = ground (arith, strip_eq s k r, ==_iff c d)

pub same_iff : (s k : List ℕ) → same s k ≡ true → s ≡ k
unfolding same
same_iff [] [] e = refl
same_iff [] (d ∷ k) e = absurd (cc e)
same_iff (c ∷ s) [] e = absurd (cc e)
same_iff (c ∷ s) (d ∷ k) e = ground (arith, same_iff s k, ==_iff c d)

drop-length : (x k : List ℕ) → drop (length x) (x ++ k) ≡ k
drop-length [] k = refl
drop-length (c ∷ x) k = drop-length x k

take-length : (x k : List ℕ) → take (length x) (x ++ k) ≡ x
take-length [] k = refl
take-length (c ∷ x) k = ap (◌∷◌ c) (take-length x k)

length_zero : (x : List ℕ) → (length x == 0) ≡ is_empty x
length_zero [] = refl
length_zero (c ∷ x) = ground arith

-- the test that a prefix is the whole string
rest_empty : (x s : List ℕ) → (length x == length (x ++ s)) ≡ is_empty s
rest_empty [] [] = refl
rest_empty [] (c ∷ s) = ground arith
rest_empty (c ∷ x) s = ground (arith, rest_empty x s)

common_lem : (x s k : List ℕ) → Diverge s k → common (x ++ s) (x ++ k) ≡ length x
unfolding common
common_lem [] [] k v = refl
common_lem [] (c ∷ s) [] v = refl
common_lem [] (c ∷ s) (d ∷ k) v = rw v
common_lem (c ∷ x) s k v = rw (==_refl c) (ap suc (common_lem x s k v))

-- How the string of a node and a key agree, when the first characters are the same: what the code
-- computes, by the parts x, s' and k' of s = x s' and k = x k'.
pub record Parts (s k x s' k' : List ℕ) : Type 0 where
  pub string : s ≡ x ++ s'
  pub key : k ≡ x ++ k'
  pub diverge : Diverge s' k'
  pub agree : common s k ≡ length x
  pub shared : (common s k == 0) ≡ is_empty x
  pub is_whole : (common s k == length s) ≡ is_empty s'
  pub is_inner : (common s k == length k) ≡ is_empty k'
  pub front : take (common s k) s ≡ x
  pub back : drop (common s k) s ≡ s'
  pub left : drop (common s k) k ≡ k'

Parts-of : (x s k : List ℕ) → Diverge s k → Parts (x ++ s) (x ++ k) x s k
Parts-of x s k v = record {
  string = refl;
  key = refl;
  diverge = v;
  agree = common_lem x s k v;
  shared = rw (common_lem x s k v) (length_zero x);
  is_whole = rw (common_lem x s k v) (rest_empty x s);
  is_inner = rw (common_lem x s k v) (rest_empty x k);
  front = rw (common_lem x s k v) (take-length x s);
  back = rw (common_lem x s k v) (drop-length x s);
  left = rw (common_lem x s k v) (drop-length x k);
}

pub prepended :
    (c : ℕ) (s k x s' k' : List ℕ) → Parts s k x s' k' → Parts (c ∷ s) (c ∷ k) (c ∷ x) s' k'
prepended c s k x s' k' p =
    subst (λ a. Parts (c ∷ a) (c ∷ k) (c ∷ x) s' k') (sym p.string)
      (subst (λ a. Parts (c ∷ x ++ s') (c ∷ a) (c ∷ x) s' k') (sym p.key)
        (Parts-of (c ∷ x) s' k' p.diverge))

pub parts : (s k : List ℕ) → (x : List ℕ) × (s' : List ℕ) × (k' : List ℕ) × Parts s k x s' k'
parts [] k = ([], [], k, Parts-of [] [] k tt)
parts (c ∷ s) [] = ([], c ∷ s, [], Parts-of [] (c ∷ s) [] tt)
parts (c ∷ s) (d ∷ k) = elim (Bool-cases (c == d)) [
  | inl e ↦
      let (x, s', k', p) = parts s k in
      (
        c ∷ x,
        s',
        k',
        subst (λ a. Parts (c ∷ s) (a ∷ k) (c ∷ x) s' k') ((==_iff c d).0 e)
            (prepended c s k x s' k' p),
      )
  | inr e ↦ ([], c ∷ s, d ∷ k, Parts-of [] (c ∷ s) (d ∷ k) e)
]

pub strip_apart : {s k x s' k' : List ℕ} (d : ℕ) → Parts s k x (d ∷ s') k' → strip s k ≡ none
strip_apart {x} {s'} {k'} d p = rw (p.string, p.key) (strip-Diverge x s' k' d p.diverge)

pub strip_whole : {s k x k' : List ℕ} → Parts s k x [] k' → strip s k ≡ some k'
strip_whole {x} {k'} p = rw (p.string, p.key, append-nil x) (strip_self x k')

pub common_apart : (c d : ℕ) (s k : List ℕ) → (c == d) ≡ false → common (c ∷ s) (d ∷ k) ≡ 0
unfolding common
common_apart c d s k e = rw e

pub common_nil : (s : List ℕ) → common s [] ≡ 0
unfolding common
common_nil [] = refl
common_nil (c ∷ s) = refl

pub strip_other : (c d : ℕ) (s k : List ℕ) → (c == d) ≡ false → strip (c ∷ s) (d ∷ k) ≡ none
unfolding strip
strip_other c d s k e = rw e

-- a string does not start with a longer one
pub strip_short : (y z : List ℕ) (d : ℕ) → strip (y ++ d ∷ z) y ≡ none
unfolding strip
strip_short [] z d = refl
strip_short (c ∷ y) z d = rw (==_refl c) (strip_short y z d)

pub strip_prefix : (s y z : List ℕ) → strip s (y ++ z) ≡ none → strip s y ≡ none
unfolding strip
strip_prefix [] y z e = absurd (cc e)
strip_prefix (c ∷ s) [] z e = refl
strip_prefix (c ∷ s) (d ∷ y) z e = ground (arith, strip_prefix s y z)
