-- ===== src/Text/Percent.antt =====
-- stdString.cpp: `percent_encode` and `percent_decode`.
use tiny_state.Prelude.{
  ℕ, ◌+◌, ◌*◌, ◌/◌, ◌%◌, ◌≤◌, ◌<◌, ◌≡◌, ◌≢◌, inl, inr, refl, ap, ◌∙◌, true, false, none, some, List,
  [], ◌∷◌, ◌++◌, ◌==◌, ==_iff, length, length-append, All, arith, Bool-cases,
}
use mathlib.Core.List.{append_assoc, append-nil}
use tiny_state.Text.{
  unreserved, digit, encoded_byte, percent_encode, hex, put, decode, until_nul, cut, percent_decode,
}

-- a byte of a string
abbrev pub IsByte : ℕ → Type 0
IsByte c = (0 < c) × (c < 256)

length-encoded_byte : (c : ℕ) → length (encoded_byte c) ≤ 3
unfolding encoded_byte
length-encoded_byte c = ground arith

-- The buffer of `percent_encode`, `length()*3+1` bytes, holds what is written, with the terminator.
pub length-percent_encode : (s : List ℕ) → length (percent_encode s) + 1 ≤ length s * 3 + 1
unfolding percent_encode
length-percent_encode [] = omega arith
length-percent_encode (c ∷ s) = omega (
  arith,
  length-percent_encode s,
  length-encoded_byte c,
  length-append (encoded_byte c) (percent_encode s),
)

hex-digit : (n : ℕ) → n < 16 → hex (digit n) ≡ some n
unfolding hex
hex-digit n h = ground arith

plain : (c : ℕ) → unreserved c ≡ true → ((c == 0) ≡ false) × ((c == b'%') ≡ false)
plain c e = ground arith

whole_byte : (c : ℕ) → c < 256 → c / 16 % 16 * 16 % 256 + c % 16 ≡ c
whole_byte c h = omega arith

-- a byte that goes on is written, and the rest is read
decode-cons :
    (c : ℕ) (m : List ℕ)
    → (c == 0) ≡ false
    → (c == b'%') ≡ false
    → decode (c ∷ m) ≡ put c (decode m)
unfolding decode
decode-cons c [] e f = rw e
decode-cons c (h ∷ []) e f = rw (e, f)
decode-cons c (h ∷ l ∷ m) e f = rw (e, f)

decode-escape :
    (h l a b : ℕ) (m : List ℕ)
    → hex h ≡ some a
    → hex l ≡ some b
    → decode (b'%' ∷ h ∷ l ∷ m) ≡ put (a * 16 % 256 + b) (decode m)
unfolding decode
decode-escape h l a b m e f = ground (arith, e, f)

not_zero : (c : ℕ) → 0 < c → (c == 0) ≡ false
not_zero c h = ground arith

not_percent : (c : ℕ) → c ≢ b'%' → (c == b'%') ≡ false
not_percent c h = elim (Bool-cases (c == b'%')) [
  | inl e ↦ absurd (h ((==_iff c b'%').0 e))
  | inr e ↦ e
]

hex_zero : hex 0 ≡ none
unfolding hex
hex_zero = refl

decode-short : (h a : ℕ) → hex h ≡ some a → decode (b'%' ∷ h ∷ 0 ∷ []) ≡ none
unfolding decode
decode-short h a e = ground (arith, e, hex_zero)

decode-encoded : (c : ℕ) (m : List ℕ) → IsByte c → decode (encoded_byte c ++ m) ≡ put c (decode m)
unfolding encoded_byte
decode-encoded c m k = elim (Bool-cases (unreserved c)) [
  | inl e ↦ rw e (decode-cons c m (plain c e).0 (plain c e).1)
  | inr e ↦ rw e (
      decode-escape (digit (c / 16 % 16)) (digit (c % 16)) (c / 16 % 16) (c % 16) m
        (hex-digit (c / 16 % 16) (omega arith)) (hex-digit (c % 16) (omega arith))
      ∙ ap (λ i. put i (decode m)) (whole_byte c k.1))
]

decode-percent_encode :
    (s m : List ℕ)
    → All IsByte s
    → (r : List ℕ) → decode m ≡ some r
    → decode (percent_encode s ++ m) ≡ some (s ++ r)
unfolding percent_encode
decode-percent_encode [] m k r e = e
decode-percent_encode (c ∷ s) m k r e =
    ap decode (append_assoc (encoded_byte c) (percent_encode s) m)
    ∙ decode-encoded c (percent_encode s ++ m) k.0
    ∙ ap (put c) (decode-percent_encode s m k.1 r e)

until_nul-bytes : (s : List ℕ) → All IsByte s → until_nul s ≡ s
unfolding until_nul
until_nul-bytes [] k = refl
until_nul-bytes (c ∷ s) k = ground (arith, until_nul-bytes s k.1)

-- `percent_decode` gives back every string that `percent_encode` wrote.
pub decode-encode : (s : List ℕ) → All IsByte s → percent_decode (percent_encode s) ≡ some s
unfolding percent_decode
decode-encode s k =
    ap cut (decode-percent_encode s (0 ∷ []) k [] (ends))
    ∙ ap some (ap until_nul (append-nil s) ∙ until_nul-bytes s k)
  where
    ends : decode (0 ∷ []) ≡ some []
    ends = refl

-- a string without percent signs
abbrev pub IsPlain : ℕ → Type 0
IsPlain c = (0 < c) × (c ≢ b'%')

decode-plain : (s m : List ℕ) → All IsPlain s → decode m ≡ none → decode (s ++ m) ≡ none
decode-plain [] m k e = e
decode-plain (c ∷ s) m k e =
    decode-cons c (s ++ m) (not_zero c k.0.0) (not_percent c k.0.1)
    ∙ ap (put c) (decode-plain s m k.1 e)

-- `percent_decode` reads past the terminator of a string that ends with a percent sign, or with one
-- and a hexadecimal digit, and that has no other.
pub percent_decode-overruns :
    (s : List ℕ) (h a : ℕ)
    → All IsPlain s
    → hex h ≡ some a
    → (percent_decode (s ++ b'%' ∷ []) ≡ none) × (percent_decode (s ++ b'%' ∷ h ∷ []) ≡ none)
unfolding percent_decode
percent_decode-overruns s h a k e = (
  ap cut (ap decode (append_assoc s (b'%' ∷ []) (0 ∷ [])) ∙ decode-plain s (b'%' ∷ 0 ∷ []) k refl),
  ap cut (
      ap decode (append_assoc s (b'%' ∷ h ∷ []) (0 ∷ []))
      ∙ decode-plain s (b'%' ∷ h ∷ 0 ∷ []) k (decode-short h a e)),
)
