-- ===== src/QueueString.antt =====
-- src/classes/ts2/c++/stdQueueString.cpp and src/h/ts2/c++/stdQueueString.h: a stdQueue of strings
-- that may be null, with set operations on sorted queues.
pub mod Order
pub mod Sets
pub mod Faults
use tiny_state.Prelude.{
  ℕ, zero, suc, ◌+◌, ◌-◌, Bool, true, false, ◌&&◌, Option, none, some, List, [], ◌∷◌, ◌==◌, ltb,
  leb, if◌then◌else◌, length, take, drop,
}
use tiny_state.Queue.{Cell, Queue, max_integer64, empty, ins, copy}
use tiny_state.Text.{same_bytes}

-- an element of such a queue
abbrev pub Item : Type 0
Item = Option (List ℕ)

-- `STR_NULL`
abbrev pub text : Item → List ℕ
text none = []
text (some s) = s

-- `strcmp(s,t) < 0`
unfoldable pub str_lt : List ℕ → List ℕ → Bool
str_lt [] [] = false
str_lt [] (d ∷ t) = true
str_lt (c ∷ s) [] = false
str_lt (c ∷ s) (d ∷ t) = if ltb c d then true else (c == d && str_lt s t)

-- the last loops of `add` and of `sub`
unfoldable pub add_rest : List (Cell Item) → Queue Item → Queue Item
add_rest [] q = q
add_rest (x ∷ xs) q = add_rest xs (ins max_integer64 x.item q)

-- the loop of `add`
unfoldable pub add_loop : List (Cell Item) → List (Cell Item) → Queue Item → Queue Item
unfolding add_rest
add_loop [] ys q = add_rest ys q
add_loop (x ∷ xs) [] q = add_rest (x ∷ xs) q
add_loop (x ∷ xs) (y ∷ ys) q =
    let first = add_loop xs (y ∷ ys) (ins max_integer64 x.item q) in
    let second = add_loop (x ∷ xs) ys (ins max_integer64 y.item q) in
    let both = add_loop xs ys (ins max_integer64 x.item q) in
    if str_lt (text x.item) (text y.item)
    then first
    else if str_lt (text y.item) (text x.item)
    then second
    else both

-- `add(a2)`
unfoldable pub add : Queue Item → Queue Item → Queue Item
unfolding add_loop empty
add a b = add_loop a.chain b.chain empty

-- the loop of `sub`
unfoldable pub sub_loop : List (Cell Item) → List (Cell Item) → Queue Item → Queue Item
unfolding add_rest
sub_loop [] ys q = q
sub_loop (x ∷ xs) [] q = add_rest (x ∷ xs) q
sub_loop (x ∷ xs) (y ∷ ys) q =
    let first = sub_loop xs (y ∷ ys) (ins max_integer64 x.item q) in
    let second = sub_loop (x ∷ xs) ys q in
    let both = sub_loop xs ys q in
    if str_lt (text x.item) (text y.item)
    then first
    else if str_lt (text y.item) (text x.item)
    then second
    else both

-- `sub(a2)`
unfoldable pub sub : Queue Item → Queue Item → Queue Item
unfolding sub_loop empty
sub a b = sub_loop a.chain b.chain empty

-- `stdQueueString(str)`: the head and the count of a copy, but its head for the tail
unfoldable pub from_queue : Queue Item → Queue Item
unfolding copy
from_queue q =
    let str = copy q in
    record str { tail = elim str.chain [ [] ↦ none | c ∷ cs ↦ some c.addr ]; ins_neq = false }

-- what `filter` asks of a string, by the first and the last character of a pattern
pub data Flag : Type 0 where
  match_all match_partial match_forward match_behind : Flag

abbrev pub last_is : ℕ → List ℕ → Bool
last_is c [] = false
last_is c (d ∷ []) = c == d
last_is c (d ∷ e ∷ s) = last_is c (e ∷ s)

abbrev pub first_is : ℕ → List ℕ → Bool
first_is c [] = false
first_is c (d ∷ s) = c == d

unfoldable pub flag_of : List ℕ → Flag
flag_of str =
    if first_is b'^' str
    then (if last_is b'$' str then match_all else match_forward)
    else if last_is b'$' str
    then match_behind
    else match_partial

-- `memcmp(&s[i],&t[j],n) == 0`
abbrev pub same_part : List ℕ → ℕ → List ℕ → ℕ → ℕ → Bool
same_part s i t j n = same_bytes (take n (drop i s)) (take n (drop j t))

-- `for ( j = 0 ; j < qlen-slen ; j ++ )`: how often a string is put into the result
unfoldable pub partial_hits : ℕ → ℕ → List ℕ → List ℕ → ℕ
partial_hits zero j s p = 0
partial_hits (suc r) j s p =
    let rest = partial_hits r (suc j) s p in
    if same_part s j p 0 (length p - 1) then suc rest else rest

-- how often a pattern that is not empty puts a string into the result
abbrev pub hits_of : Flag → List ℕ → List ℕ → ℕ
hits_of match_all p s =
    if length s == length p - 2 then (if same_part s 0 p 1 (length p - 2) then 1 else 0) else 0
hits_of match_forward p s =
    if ltb (length s) (length p - 1) then 0 else if same_part s 0 p 1 (length p - 1) then 1 else 0
hits_of match_behind p s =
    if ltb (length s) (length p - 1)
    then 0
    else if same_part s (length s + 1 - length p) p 0 (length p - 1)
    then 1
    else 0
hits_of match_partial p s =
    if ltb (length s) (length p) then 0 else partial_hits (length s - length p) 0 s p

unfoldable pub hits : List ℕ → List ℕ → ℕ
unfolding flag_of partial_hits
hits p s = hits_of (flag_of p) p s

unfoldable pub ins_times : ℕ → Item → Queue Item → Queue Item
ins_times zero x q = q
ins_times (suc n) x q = ins_times n x (ins max_integer64 x q)

-- the loop over the patterns
unfoldable pub try_patterns : List (List ℕ) → Item → Queue Item → Queue Item
unfolding ins_times hits
try_patterns [] x q = q
try_patterns (p ∷ ps) x q = try_patterns ps x (ins_times (hits p (text x)) x q)

-- the loop over the queue
unfoldable pub filter_loop : List (List ℕ) → List (Cell Item) → Queue Item → Queue Item
unfolding try_patterns
filter_loop ps [] q = q
filter_loop ps (x ∷ xs) q = filter_loop ps xs (try_patterns ps x.item q)

-- `filter(flt)`, with patterns that are not empty and strings that are not null
unfoldable pub filter : List (List ℕ) → Queue Item → Queue Item
unfolding filter_loop empty
filter ps q = filter_loop ps q.chain empty
