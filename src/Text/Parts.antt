-- ===== src/Text/Parts.antt =====
-- stdString.cpp: parts of strings, comparison of beginnings, and buffers.
use tiny_state.Prelude.{
  ℕ, ◌≡◌, refl, true, Option, none, some, List, [], ◌∷◌, length, take, All, arith,
}
use tiny_state.StringTree.Keys.{strip}
use tiny_state.Text.{
  same_bytes, Match, equal, beginning, other, partial_cmp, copyout, copyin, until_nul,
}
use tiny_state.Text.Percent.{IsByte}

-- what `partial_cmp` should answer
abbrev pub match_of : Option (List ℕ) → Match
match_of none = other
match_of (some []) = equal
match_of (some (c ∷ r)) = beginning

same_bytes-strip : (s t : List ℕ) → same_bytes s t ≡ true → strip s t ≡ some []
unfolding strip
same_bytes-strip [] [] e = refl
same_bytes-strip [] (d ∷ t) e = absurd (cc e)
same_bytes-strip (c ∷ s) [] e = absurd (cc e)
same_bytes-strip (c ∷ s) (d ∷ t) e = ground (arith, same_bytes-strip s t)

-- `partial_cmp` answers 0 for the string itself, 1 for a string that it begins, and -1 otherwise.
pub partial_cmp_lem : (s t : List ℕ) → partial_cmp s t ≡ match_of (strip s t)
unfolding partial_cmp strip
partial_cmp_lem [] [] = ground arith
partial_cmp_lem [] (d ∷ t) = ground arith
partial_cmp_lem (c ∷ s) [] = ground arith
partial_cmp_lem (c ∷ s) (d ∷ t) = ground (arith, partial_cmp_lem s t)

-- Bytes that are copied into a buffer and read back: as many as the buffer holds.
pub copyin-copyout :
    (s dest : List ℕ)
    → All IsByte s
    → (copyin (copyout s dest) ≡ take (length dest) s) × (length (copyout s dest) ≡ length dest)
unfolding copyin copyout until_nul
copyin-copyout [] [] k = ground arith
copyin-copyout [] (d ∷ dest) k = ground arith
copyin-copyout (c ∷ s) [] k = ground arith
copyin-copyout (c ∷ s) (d ∷ dest) k = ground (arith, copyin-copyout s dest k.1)
