-- ===== src/QueueString/Order.antt =====
-- stdQueueString.cpp: the order of strings, and lists that ascend in it.
use tiny_state.Prelude.{
  ℕ, ◌≡◌, inl, inr, refl, sym, ap, subst, ◌∙◌, Bool, true, false, not, ◌&&◌, ◌||◌, List, [], ◌∷◌,
  if◌then◌else◌, arith, Bool-cases,
}
use tiny_state.Text.{same_bytes}
use tiny_state.QueueString.{str_lt}

pub str_lt_irrefl : (s : List ℕ) → str_lt s s ≡ false
unfolding str_lt
str_lt_irrefl [] = refl
str_lt_irrefl (c ∷ s) = ground (arith, str_lt_irrefl s)

pub str_lt_trans : (s t u : List ℕ) → str_lt s t ≡ true → str_lt t u ≡ true → str_lt s u ≡ true
unfolding str_lt
str_lt_trans [] [] u a b = absurd (cc a)
str_lt_trans [] (d ∷ t) [] a b = absurd (cc b)
str_lt_trans [] (d ∷ t) (e ∷ u) a b = refl
str_lt_trans (c ∷ s) [] u a b = absurd (cc a)
str_lt_trans (c ∷ s) (d ∷ t) [] a b = absurd (cc b)
str_lt_trans (c ∷ s) (d ∷ t) (e ∷ u) a b = ground (arith, str_lt_trans s t u)

pub same_by_lt : (s t : List ℕ) → str_lt s t ≡ false → str_lt t s ≡ false → s ≡ t
unfolding str_lt
same_by_lt [] [] a b = refl
same_by_lt [] (d ∷ t) a b = absurd (cc a)
same_by_lt (c ∷ s) [] a b = absurd (cc b)
same_by_lt (c ∷ s) (d ∷ t) a b = ground (arith, same_by_lt s t)

pub same_bytes-lt : (s t : List ℕ) → str_lt s t ≡ true → same_bytes s t ≡ false
unfolding str_lt
same_bytes-lt [] [] a = absurd (cc a)
same_bytes-lt [] (d ∷ t) a = refl
same_bytes-lt (c ∷ s) [] a = refl
same_bytes-lt (c ∷ s) (d ∷ t) a = ground (arith, same_bytes-lt s t)

pub same_bytes_iff : (s t : List ℕ) → same_bytes s t ≡ true → s ≡ t
same_bytes_iff [] [] e = refl
same_bytes_iff [] (d ∷ t) e = absurd (cc e)
same_bytes_iff (c ∷ s) [] e = absurd (cc e)
same_bytes_iff (c ∷ s) (d ∷ t) e = ground (arith, same_bytes_iff s t)

abbrev pub has : List ℕ → List (List ℕ) → Bool
has t [] = false
has t (x ∷ xs) = same_bytes t x || has t xs

-- the head of a list comes after a string
abbrev pub After : List ℕ → List (List ℕ) → Type 0
After x [] = Unit
After x (y ∷ ys) = str_lt x y ≡ true

abbrev pub Ascends : List (List ℕ) → Type 0
Ascends [] = Unit
Ascends (x ∷ xs) = After x xs × Ascends xs

pub has_below :
    (t x : List ℕ) (xs : List (List ℕ))
    → str_lt t x ≡ true
    → After x xs
    → Ascends xs
    → has t (x ∷ xs) ≡ false
has_below t x [] e a s = rw (same_bytes-lt t x e)
has_below t x (y ∷ ys) e a s =
    rw (same_bytes-lt t x e) (has_below t y ys (str_lt_trans t x y e a) s.0 s.1)

-- what `add` and `sub` make of ascending lists
unfoldable pub union : List (List ℕ) → List (List ℕ) → List (List ℕ)
union [] ys = ys
union (x ∷ xs) [] = x ∷ xs
union (x ∷ xs) (y ∷ ys) =
    let first = union xs (y ∷ ys) in
    let second = union (x ∷ xs) ys in
    let both = union xs ys in
    if str_lt x y then x ∷ first else if str_lt y x then y ∷ second else x ∷ both

unfoldable pub difference : List (List ℕ) → List (List ℕ) → List (List ℕ)
difference [] ys = []
difference (x ∷ xs) [] = x ∷ xs
difference (x ∷ xs) (y ∷ ys) =
    let first = difference xs (y ∷ ys) in
    let second = difference (x ∷ xs) ys in
    let both = difference xs ys in
    if str_lt x y then x ∷ first else if str_lt y x then second else both

pub has-union : (t : List ℕ) (xs ys : List (List ℕ)) → has t (union xs ys) ≡ (has t xs || has t ys)
unfolding union
has-union t [] ys = refl
has-union t (x ∷ xs) [] = ground arith
has-union t (x ∷ xs) (y ∷ ys) =
    ground
      (arith, has-union t xs (y ∷ ys), has-union t (x ∷ xs) ys, has-union t xs ys, same_by_lt x y)

has-After : (x : List ℕ) (xs : List (List ℕ)) → After x xs → Ascends xs → has x xs ≡ false
has-After x [] a s = refl
has-After x (y ∷ ys) a s = has_below x y ys a s.0 s.1

-- the head of an ascending list gone, the rest still comes after
After-tail : (z x : List ℕ) (xs : List (List ℕ)) → str_lt z x ≡ true → After x xs → After z xs
After-tail z x [] a b = tt
After-tail z x (y ∷ ys) a b = str_lt_trans z x y a b

After-union : (z : List ℕ) (xs ys : List (List ℕ)) → After z xs → After z ys → After z (union xs ys)
unfolding union
After-union z [] ys a b = b
After-union z (x ∷ xs) [] a b = a
After-union z (x ∷ xs) (y ∷ ys) a b = elim (Bool-cases (str_lt x y)) [
  | inl e ↦ rw e a
  | inr e ↦ rw e (elim (Bool-cases (str_lt y x)) [ inl f ↦ rw f b | inr f ↦ rw f a ])
]

pub Ascends-union : (xs ys : List (List ℕ)) → Ascends xs → Ascends ys → Ascends (union xs ys)
unfolding union
Ascends-union [] ys a b = b
Ascends-union (x ∷ xs) [] a b = a
Ascends-union (x ∷ xs) (y ∷ ys) a b = elim (Bool-cases (str_lt x y)) [
  | inl e ↦ rw e (After-union x xs (y ∷ ys) a.0 e, Ascends-union xs (y ∷ ys) a.1 b)
  | inr e ↦ rw e (elim (Bool-cases (str_lt y x)) [
    | inl f ↦ rw f (After-union y (x ∷ xs) ys f b.0, Ascends-union (x ∷ xs) ys a b.1)
    | inr f ↦ rw f (
      After-union x xs ys a.0 (subst (λ i. After i ys) (sym (same_by_lt x y e f)) b.0),
      Ascends-union xs ys a.1 b.1,
    )
  ])
]

After-difference :
    (z : List ℕ) (xs ys : List (List ℕ)) → After z xs → Ascends xs → After z (difference xs ys)
unfolding difference
After-difference z [] ys a s = tt
After-difference z (x ∷ xs) [] a s = a
After-difference z (x ∷ xs) (y ∷ ys) a s = elim (Bool-cases (str_lt x y)) [
  | inl e ↦ rw e a
  | inr e ↦ rw e (elim (Bool-cases (str_lt y x)) [
    | inl f ↦ rw f (After-difference z (x ∷ xs) ys a s)
    | inr f ↦ rw f (After-difference z xs ys (After-tail z x xs a s.0) s.1)
  ])
]

pub Ascends-difference : (xs ys : List (List ℕ)) → Ascends xs → Ascends (difference xs ys)
unfolding difference
Ascends-difference [] ys s = tt
Ascends-difference (x ∷ xs) [] s = s
Ascends-difference (x ∷ xs) (y ∷ ys) s = elim (Bool-cases (str_lt x y)) [
  | inl e ↦ rw e (After-difference x xs (y ∷ ys) s.0 s.1, Ascends-difference xs (y ∷ ys) s.1)
  | inr e ↦ rw e (elim (Bool-cases (str_lt y x)) [
    | inl f ↦ rw f (Ascends-difference (x ∷ xs) ys s)
    | inr f ↦ rw f (Ascends-difference xs ys s.1)
  ])
]

-- a string of one list that the other cannot hold
excluded :
    (t x : List ℕ) (ys : List (List ℕ))
    → has x ys ≡ false
    → same_bytes t x ≡ true
    → has t ys ≡ false
excluded t x ys e f = subst (λ i. has i ys ≡ false) (sym (same_bytes_iff t x f)) e

-- the three steps, on the answers of `has`
step_first :
    (e x y d : Bool) → d ≡ (x && not y) → (e ≡ true → y ≡ false) → (e || d) ≡ ((e || x) && not y)
step_first true x y d h n = rw (n refl)
step_first false x y d h n = h

step_second : (e x y d : Bool) → d ≡ (x && not y) → (e ≡ true → x ≡ false) → d ≡ (x && not (e || y))
step_second true x y d h n = h ∙ ap (λ i. i && not y) (n refl) ∙ sym (ap (λ i. i && false) (n refl))
step_second false x y d h n = h

step_both :
    (e x y d : Bool) → d ≡ (x && not y) → (e ≡ true → x ≡ false) → d ≡ ((e || x) && not (e || y))
step_both true x y d h n = h ∙ ap (λ i. i && not y) (n refl)
step_both false x y d h n = h

and_kept : (b : Bool) → b ≡ (b && not false)
and_kept true = refl
and_kept false = refl

pub has-difference :
    (t : List ℕ) (xs ys : List (List ℕ))
    → Ascends xs
    → Ascends ys
    → has t (difference xs ys) ≡ (has t xs && not (has t ys))
unfolding difference
has-difference t [] ys a b = refl
has-difference t (x ∷ xs) [] a b = and_kept (same_bytes t x || has t xs)
has-difference t (x ∷ xs) (y ∷ ys) a b = elim (Bool-cases (str_lt x y)) [
  | inl e ↦ rw e (
      step_first (same_bytes t x) (has t xs) (has t (y ∷ ys)) (has t (difference xs (y ∷ ys)))
        (has-difference t xs (y ∷ ys) a.1 b) (excluded t x (y ∷ ys) (has_below x y ys e b.0 b.1)))
  | inr e ↦ rw e (elim (Bool-cases (str_lt y x)) [
    | inl f ↦ rw f (
        step_second (same_bytes t y) (has t (x ∷ xs)) (has t ys) (has t (difference (x ∷ xs) ys))
          (has-difference t (x ∷ xs) ys a b.1) (excluded t y (x ∷ xs) (has_below y x xs f a.0 a.1)))
    | inr f ↦ rw f (
        subst
          (λ i.
            has t (difference xs ys)
            ≡ ((same_bytes t x || has t xs) && not (same_bytes t i || has t ys)))
          (same_by_lt x y e f)
          (step_both (same_bytes t x) (has t xs) (has t ys) (has t (difference xs ys))
            (has-difference t xs ys a.1 b.1) (excluded t x xs (has-After x xs a.0 a.1))))
  ])
]
