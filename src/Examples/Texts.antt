-- ===== src/Examples/Texts.antt =====
-- Concrete strings and queues of strings.
use tiny_state.Prelude.{
  ℕ, ◌+◌, ◌<◌, ◌≤◌, ◌≡◌, ◌*◌, ◌||◌, ◌&&◌, not, refl, true, none, some, List, [], ◌∷◌, take, length,
  arith,
}
use tiny_state.Prelude.Int.{pos}
use tiny_state.Queue.{Queue, max_integer64, empty, ins}
use tiny_state.Text.{percent_encode, percent_decode, copyin, copyout, to_lower, hex}
use tiny_state.Text.Percent.{decode-encode, length-percent_encode, percent_decode-overruns}
use tiny_state.Text.Parts.{copyin-copyout}
use tiny_state.QueueString.{
  from_queue, Item, add, sub, filter, add_loop, filter_loop, add_rest, try_patterns, ins_times,
  hits, flag_of, partial_hits, str_lt,
}
use tiny_state.QueueString.Order.{has}
use tiny_state.QueueString.Sets.{texts, IsSetOf, set_operations}
use tiny_state.QueueString.Faults.{filter-misses, from_queue-loses}

-- "a b" and a letter beyond ASCII
abbrev words : List ℕ
words = 97 ∷ 32 ∷ 98 ∷ 195 ∷ []

decode-encode_example : percent_decode (percent_encode words) ≡ some words
decode-encode_example = decode-encode words (omega arith)

length-percent_encode_example : length (percent_encode words) + 1 ≤ length words * 3 + 1
length-percent_encode_example = length-percent_encode words

percent_decode-overruns_example :
    (percent_decode (100 ∷ 37 ∷ []) ≡ none) × (percent_decode (100 ∷ 37 ∷ 52 ∷ []) ≡ none)
unfolding hex
percent_decode-overruns_example = percent_decode-overruns (100 ∷ []) 52 4 (omega arith) refl

copyin-copyout_example :
    (copyin (copyout words (1 ∷ 1 ∷ [])) ≡ take 2 words) × (length (copyout words (1 ∷ 1 ∷ [])) ≡ 2)
copyin-copyout_example = copyin-copyout words (1 ∷ 1 ∷ []) (omega arith)

cases : to_lower (72 ∷ 105 ∷ []) ≡ 104 ∷ 105 ∷ []
unfolding to_lower
cases = refl

-- "a", "c" and "b", "c"
abbrev first : Queue Item
unfolding ins empty
first = ins max_integer64 (some (99 ∷ [])) (ins max_integer64 (some (97 ∷ [])) empty)

abbrev second : Queue Item
unfolding ins empty
second = ins max_integer64 (some (99 ∷ [])) (ins max_integer64 (some (98 ∷ [])) empty)

adds : texts (add first second) ≡ (97 ∷ []) ∷ (98 ∷ []) ∷ (99 ∷ []) ∷ []
unfolding add add_loop add_rest str_lt ins empty
adds = refl

set_operations_example :
    IsSetOf (λ t. has t (texts first) || has t (texts second)) (add first second)
    × IsSetOf (λ t. has t (texts first) && not (has t (texts second))) (sub first second)
unfolding str_lt ins empty
set_operations_example = set_operations first second (refl, (tt, tt)) (refl, (tt, tt))

-- "abc" and "ab"
abbrev listed : Queue Item
unfolding ins empty
listed =
    ins max_integer64 (some (97 ∷ 98 ∷ [])) (ins max_integer64 (some (97 ∷ 98 ∷ 99 ∷ [])) empty)

finds_longer : has (97 ∷ 98 ∷ 99 ∷ []) (texts (filter ((97 ∷ 98 ∷ []) ∷ []) listed)) ≡ true
unfolding filter filter_loop try_patterns ins_times hits flag_of partial_hits ins empty
finds_longer = refl

filter-misses_example : 2 < 3
unfolding flag_of
filter-misses_example = filter-misses (97 ∷ 98 ∷ []) listed (97 ∷ 98 ∷ 99 ∷ []) refl finds_longer

-- "ab" is lost behind "abc" when another string is inserted into a copy
from_queue-loses_example :
    (texts (from_queue listed) ≡ (97 ∷ 98 ∷ 99 ∷ []) ∷ (97 ∷ 98 ∷ []) ∷ [])
    × (texts (ins max_integer64 (some (120 ∷ [])) (from_queue listed))
        ≡ (97 ∷ 98 ∷ 99 ∷ []) ∷ (120 ∷ []) ∷ [])
    × ((ins max_integer64 (some (120 ∷ [])) (from_queue listed)).count ≡ pos 3)
unfolding ins empty
from_queue-loses_example =
    from_queue-loses listed (some (120 ∷ [])) (97 ∷ 98 ∷ 99 ∷ []) ((97 ∷ 98 ∷ []) ∷ []) refl
