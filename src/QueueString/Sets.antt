-- ===== src/QueueString/Sets.antt =====
-- stdQueueString.cpp: `add` and `sub` are union and difference.
use mathlib.Core.List.{append-nil, append_assoc, map-append}
use tiny_state.Prelude.{
  ℕ, ◌≡◌, inl, inr, refl, sym, ap, subst, ◌∙◌, Bool, false, not, ◌&&◌, ◌||◌, List, [], ◌∷◌, ◌++◌,
  map, Bool-cases,
}
use tiny_state.Prelude.Int.{ℤ}
use tiny_state.Queue.{Cell, Queue, max_integer64, empty, ins}
use tiny_state.Queue.Valid.{IsValid, ins-IsValid}
use tiny_state.Queue.Order.{entry, entries, ins_fifo}
use tiny_state.Queue.Move.{empty-IsValid}
use tiny_state.QueueString.{Item, text, str_lt, add_rest, add_loop, add, sub_loop, sub}
use tiny_state.QueueString.Order.{
  has, Ascends, union, difference, has-union, Ascends-union, has-difference, Ascends-difference,
}

abbrev pub texts_of : List (Cell Item) → List (List ℕ)
texts_of = map (λ c. text c.item)

-- the strings of a queue, in order
abbrev pub texts : Queue Item → List (List ℕ)
texts q = texts_of q.chain

-- a valid queue with some strings behind those of another
abbrev Grown : Queue Item → List (List ℕ) → Queue Item → Type 0
Grown q ts r = IsValid r × (texts r ≡ texts q ++ ts)

abbrev entry_text : ℤ × Item → List ℕ
entry_text e = text e.1

text_entries : (cs : List (Cell Item)) → map entry_text (map entry cs) ≡ texts_of cs
text_entries [] = refl
text_entries (c ∷ cs) = ap (◌∷◌ (text c.item)) (text_entries cs)

pub ins-Grown :
    (x : Item) (q : Queue Item) → IsValid q → Grown q (text x ∷ []) (ins max_integer64 x q)
ins-Grown x q v = (
  ins-IsValid max_integer64 x q v,
  sym (text_entries (ins max_integer64 x q).chain)
      ∙ ap (map entry_text) (ins_fifo x q v)
      ∙ map-append entry_text (entries q) ((max_integer64, x) ∷ [])
      ∙ ap (λ ts. ts ++ text x ∷ []) (text_entries q.chain),
)

then-Grown :
    (x : Item) (q r : Queue Item) (ts : List (List ℕ))
    → IsValid q
    → Grown (ins max_integer64 x q) ts r
    → Grown q (text x ∷ ts) r
then-Grown x q r ts v (w, e) =
    (w, e ∙ ap (λ s. s ++ ts) (ins-Grown x q v).1 ∙ append_assoc (texts q) (text x ∷ []) ts)

none-Grown : (q : Queue Item) → IsValid q → Grown q [] q
none-Grown q v = (v, sym (append-nil (texts q)))

add_rest-Grown :
    (xs : List (Cell Item)) (q : Queue Item) → IsValid q → Grown q (texts_of xs) (add_rest xs q)
unfolding add_rest
add_rest-Grown [] q v = none-Grown q v
add_rest-Grown (x ∷ xs) q v =
    then-Grown x.item q (add_rest xs (ins max_integer64 x.item q)) (texts_of xs) v
      (add_rest-Grown xs (ins max_integer64 x.item q) (ins-IsValid max_integer64 x.item q v))

add_loop-Grown :
    (xs ys : List (Cell Item)) (q : Queue Item)
    → IsValid q
    → Grown q (union (texts_of xs) (texts_of ys)) (add_loop xs ys q)
unfolding add_loop union
add_loop-Grown [] ys q v = add_rest-Grown ys q v
add_loop-Grown (x ∷ xs) [] q v = add_rest-Grown (x ∷ xs) q v
add_loop-Grown (x ∷ xs) (y ∷ ys) q v =
    let first = ins max_integer64 x.item q in
    let second = ins max_integer64 y.item q in
    let vx = ins-IsValid max_integer64 x.item q v in
    let vy = ins-IsValid max_integer64 y.item q v in
    elim (Bool-cases (str_lt (text x.item) (text y.item))) [
      | inl e ↦ rw e (
          then-Grown x.item q (add_loop xs (y ∷ ys) first) (union (texts_of xs) (texts_of (y ∷ ys)))
            v (add_loop-Grown xs (y ∷ ys) first vx))
      | inr e ↦ rw e (elim (Bool-cases (str_lt (text y.item) (text x.item))) [
        | inl f ↦ rw f (
            then-Grown y.item q (add_loop (x ∷ xs) ys second)
              (union (texts_of (x ∷ xs)) (texts_of ys)) v (add_loop-Grown (x ∷ xs) ys second vy))
        | inr f ↦ rw f (
            then-Grown x.item q (add_loop xs ys first) (union (texts_of xs) (texts_of ys)) v
              (add_loop-Grown xs ys first vx))
      ])
    ]

sub_loop-Grown :
    (xs ys : List (Cell Item)) (q : Queue Item)
    → IsValid q
    → Grown q (difference (texts_of xs) (texts_of ys)) (sub_loop xs ys q)
unfolding sub_loop difference
sub_loop-Grown [] ys q v = none-Grown q v
sub_loop-Grown (x ∷ xs) [] q v = add_rest-Grown (x ∷ xs) q v
sub_loop-Grown (x ∷ xs) (y ∷ ys) q v =
    let first = ins max_integer64 x.item q in
    let vx = ins-IsValid max_integer64 x.item q v in
    elim (Bool-cases (str_lt (text x.item) (text y.item))) [
      | inl e ↦ rw e (
          then-Grown x.item q (sub_loop xs (y ∷ ys) first)
            (difference (texts_of xs) (texts_of (y ∷ ys))) v (sub_loop-Grown xs (y ∷ ys) first vx))
      | inr e ↦ rw e (elim (Bool-cases (str_lt (text y.item) (text x.item))) [
        | inl f ↦ rw f (sub_loop-Grown (x ∷ xs) ys q v)
        | inr f ↦ rw f (sub_loop-Grown xs ys q v)
      ])
    ]

-- what both operations promise of their result
abbrev pub IsSetOf : (List ℕ → Bool) → Queue Item → Type 0
IsSetOf p r = IsValid r × Ascends (texts r) × ((t : List ℕ) → has t (texts r) ≡ p t)

-- On queues whose strings ascend, each at most once, `add` makes a valid queue of the strings of
-- either and `sub` one of the strings of the first that the second has not, ascending, each once.
pub set_operations :
    (a b : Queue Item)
    → Ascends (texts a)
    → Ascends (texts b)
    → IsSetOf (λ t. has t (texts a) || has t (texts b)) (add a b)
      × IsSetOf (λ t. has t (texts a) && not (has t (texts b))) (sub a b)
unfolding add sub empty
set_operations a b s t =
    let (v, e) = add_loop-Grown a.chain b.chain empty (empty-IsValid false) in
    let (w, f) = sub_loop-Grown a.chain b.chain empty (empty-IsValid false) in
    (
      (
        v,
        subst Ascends (sym e) (Ascends-union (texts a) (texts b) s t),
        λ i. ap (has i) e ∙ has-union i (texts a) (texts b),
      ),
      (
        w,
        subst Ascends (sym f) (Ascends-difference (texts a) (texts b) s),
        λ i. ap (has i) f ∙ has-difference i (texts a) (texts b) s t,
      ),
    )
