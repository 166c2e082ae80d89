-- ===== src/Text.antt =====
-- src/classes/ts2/c++/stdString.cpp. A string is the list of its bytes before the terminator.
pub mod Percent
pub mod Parts
use tiny_state.Prelude.{
  ℕ, zero, suc, suc, ◌+◌, ◌-◌, ◌*◌, ◌/◌, ◌%◌, Bool, true, false, ◌&&◌, ◌||◌, Option, none, some,
  List, [], ◌∷◌, ◌++◌, ◌==◌, ltb, leb, if◌then◌else◌, length, take, drop, map,
}

-- `lo <= ch && ch <= hi`; a byte from 128 on is negative as a char, so that it is in no such range
abbrev pub between : ℕ → ℕ → ℕ → Bool
between lo hi c = leb lo c && leb c hi

abbrev pub unreserved : ℕ → Bool
unreserved c =
    between b'0' b'9' c
    || between b'a' b'z' c
    || between b'A' b'Z' c
    || c == b'-'
    || c == b'.'
    || c == b'_'
    || c == b'~'

-- `digit[n]`
abbrev pub digit : ℕ → ℕ
digit n = if ltb n 10 then n + 48 else n + 55

unfoldable pub encoded_byte : ℕ → List ℕ
encoded_byte c = if unreserved c then c ∷ [] else b'%' ∷ digit (c / 16 % 16) ∷ digit (c % 16) ∷ []

-- `percent_encode`
unfoldable pub percent_encode : List ℕ → List ℕ
unfolding encoded_byte
percent_encode [] = []
percent_encode (c ∷ s) = encoded_byte c ++ percent_encode s

unfoldable pub hex : ℕ → Option ℕ
hex c =
    if between b'0' b'9' c
    then some (c - b'0')
    else if between b'a' b'f' c
    then some (c - b'a' + 10)
    else if between b'A' b'F' c
    then some (c - b'A' + 10)
    else none

-- `*p2++ = c`, before what the rest of the loop writes; none is a read past the terminator
abbrev pub put : ℕ → Option (List ℕ) → Option (List ℕ)
put c none = none
put c (some r) = some (c ∷ r)

-- the two characters behind a percent sign
abbrev pub escape : ℕ → ℕ → Option (List ℕ) → Option (List ℕ) → Option (List ℕ)
escape h l after_h after_l = elim (hex h) [
  | none ↦ put h after_h
  | some a ↦ elim (hex l) [ none ↦ put l after_l | some b ↦ put (a * 16 % 256 + b) after_l ]
]

-- the loop of `percent_decode`, on the memory from p1 up to the terminator
unfoldable pub decode : List ℕ → Option (List ℕ)
decode [] = none
decode (c ∷ []) = if c == 0 then some [] else none
decode (c ∷ h ∷ []) =
    let next = decode (h ∷ []) in if c == 0 then some [] else if c == b'%' then none else put c next
decode (c ∷ h ∷ l ∷ m) =
    let next = decode (h ∷ l ∷ m) in
    let escaped = escape h l (decode (l ∷ m)) (decode m) in
    if c == 0 then some [] else if c == b'%' then escaped else put c next

-- the string that a buffer holds
unfoldable pub until_nul : List ℕ → List ℕ
until_nul [] = []
until_nul (c ∷ s) = let rest = until_nul s in if c == 0 then [] else c ∷ rest

abbrev pub cut : Option (List ℕ) → Option (List ℕ)
cut none = none
cut (some r) = some (until_nul r)

-- `percent_decode`
unfoldable pub percent_decode : List ℕ → Option (List ℕ)
unfolding decode until_nul
percent_decode s = cut (decode (s ++ 0 ∷ []))

-- `for ( len = 0 ; str[len] && len < ep ; len ++ )`
abbrev pub length_within : ℕ → List ℕ → ℕ
length_within ep s = if ltb (length s) ep then length s else ep

-- the bytes that `memcpy` copies from an index of a memory on; none is a read past its end
unfoldable pub read : List ℕ → ℕ → ℕ → Option (List ℕ)
read m zero zero = some []
read [] zero (suc n) = none
read (c ∷ m) zero (suc n) = put c (read m zero n)
read [] (suc i) n = none
read (c ∷ m) (suc i) n = read m i n

-- `stdString(str,sp,ep)`, with sp and ep at 0 or above, on the memory up to the terminator
unfoldable pub substring : List ℕ → ℕ → ℕ → Option (List ℕ)
unfolding read
substring s sp ep =
    let len = length_within ep s in
    if leb ep len
    then (if leb ep sp then some [] else read (s ++ 0 ∷ []) sp (ep - sp))
    else if leb len sp
    then some []
    else read (s ++ 0 ∷ []) sp (len - sp)

abbrev pub same_bytes : List ℕ → List ℕ → Bool
same_bytes [] [] = true
same_bytes [] (d ∷ t) = false
same_bytes (c ∷ s) [] = false
same_bytes (c ∷ s) (d ∷ t) = c == d && same_bytes s t

-- what `partial_cmp` answers: 0, 1 and -1
pub data Match : Type 0 where
  equal : Match
  beginning : Match
  other : Match

-- `partial_cmp`
unfoldable pub partial_cmp : List ℕ → List ℕ → Match
partial_cmp s t =
    if ltb (length t) (length s)
    then other
    else if same_bytes s t
    then equal
    else if same_bytes s (take (length s) t)
    then beginning
    else other

-- `copyout` into a buffer that holds some bytes
unfoldable pub copyout : List ℕ → List ℕ → List ℕ
copyout s dest =
    if leb (length dest) (length s)
    then take (length dest) s
    else s ++ 0 ∷ drop (suc (length s)) dest

-- `copyin` from a buffer
unfoldable pub copyin : List ℕ → List ℕ
unfolding until_nul
copyin dest = until_nul dest

unfoldable pub to_lower : List ℕ → List ℕ
to_lower = map (λ c. if between b'A' b'Z' c then c + 32 else c)

unfoldable pub to_upper : List ℕ → List ℕ
to_upper = map (λ c. if between b'a' b'z' c then c - 32 else c)
