-- ===== src/QueueString/Faults.antt =====
-- stdQueueString.cpp: what `filter` leaves out, and what the constructor from a queue breaks.
use tiny_state.Prelude.Int.{ℤ, pos, ◌+ℤ◌, pos-+ℤ_one}
use tiny_state.Queue.Order.{entry}
use tiny_state.Queue.Move.{unkeyed, copy_lem}
use tiny_state.Prelude.{
  map, none, some, ==_refl, length-map, ℕ, zero, suc, ◌-◌, ◌<◌, ◌≡◌, ◌⊎◌, inl, inr, refl, sym, ap,
  subst, ◌∙◌, true, false, ◌||◌, List, [], ◌∷◌, ◌++◌, length, ltb, if◌then◌else◌, arith, Bool-cases,
  leb,
}
use tiny_state.Queue.{
  Cell, Queue, max_integer64, empty, ins, copy, ins_at, ins_linked, link_tail, link_after, new_cell,
}
use tiny_state.QueueString.{
  Item, text, match_partial, flag_of, partial_hits, hits, hits_of, ins_times, filter_loop, filter,
  from_queue,
}
use tiny_state.Queue.Valid.{IsValid, ins-IsValid}
use tiny_state.Queue.Move.{empty-IsValid}
use tiny_state.Text.{same_bytes}
use tiny_state.QueueString.Order.{has, same_bytes_iff}
use tiny_state.QueueString.Sets.{texts_of, texts, ins-Grown}

has-append : (t : List ℕ) (xs ys : List (List ℕ)) → has t (xs ++ ys) ≡ (has t xs || has t ys)
has-append t [] ys = refl
has-append t (x ∷ xs) ys = ground (arith, has-append t xs ys)

-- every string of a queue is longer than the pattern
abbrev Longer : List ℕ → Queue Item → Type 0
Longer p q = IsValid q × ((t : List ℕ) → has t (texts q) ≡ true → length p < length t)

ins_times-Longer :
    (n : ℕ) (x : Item) (p : List ℕ) (q : Queue Item)
    → (n ≡ 0) ⊎ (length p < length (text x))
    → Longer p q
    → Longer p (ins_times n x q)
unfolding ins_times
ins_times-Longer zero x p q h k = k
ins_times-Longer (suc n) x p q (inl e) k = absurd (omega (arith, e))
ins_times-Longer (suc n) x p q (inr l) (v, k) =
    ins_times-Longer n x p (ins max_integer64 x q) (inr l)
      (ins-IsValid max_integer64 x q v, λ t e. go t (has-append t (texts q) (text x ∷ [])) e)
  where
    go :
        (t : List ℕ)
        → has t (texts q ++ text x ∷ []) ≡ (has t (texts q) || has t (text x ∷ []))
        → has t (texts (ins max_integer64 x q)) ≡ true
        → length p < length t
    go t f e = elim (Bool-cases (has t (texts q))) [
      | inl g ↦ k t g
      | inr g ↦ elim (Bool-cases (same_bytes t (text x))) [
        | inl s ↦ subst (λ i. length p < length i) (sym (same_bytes_iff t (text x) s)) l
        | inr s ↦ absurd (cc (e, ap (has t) (ins-Grown x q v).1, f, g, s))
      ]
    ]

partial_hits_none : (n j : ℕ) (s p : List ℕ) → n ≡ 0 → partial_hits n j s p ≡ 0
unfolding partial_hits
partial_hits_none zero j s p e = refl
partial_hits_none (suc n) j s p e = absurd (omega (arith, e))

partial_none : (p s : List ℕ) → flag_of p ≡ match_partial → (hits p s ≡ 0) ⊎ (length p < length s)
unfolding hits
partial_none p s e = elim (Bool-cases (leb (length s) (length p))) [
  | inl f ↦ inl (ap (λ f. hits_of f p s) e ∙ short f)
  | inr f ↦ inr (ground arith)
]
  where
    short : leb (length s) (length p) ≡ true → hits_of match_partial p s ≡ 0
    short f = elim (Bool-cases (ltb (length s) (length p))) [
      | inl g ↦ ap (λ b. if b then 0 else partial_hits (length s - length p) 0 s p) g
      | inr g ↦
          ap (λ b. if b then 0 else partial_hits (length s - length p) 0 s p) g
          ∙ partial_hits_none (length s - length p) 0 s p (ground arith)
    ]

filter_loop-Longer :
    (p : List ℕ) (xs : List (Cell Item)) (q : Queue Item)
    → flag_of p ≡ match_partial
    → Longer p q
    → Longer p (filter_loop (p ∷ []) xs q)
unfolding filter_loop
filter_loop-Longer p [] q e k = k
filter_loop-Longer p (x ∷ xs) q e k =
    filter_loop-Longer p xs (ins_times (hits p (text x.item)) x.item q) e
      (ins_times-Longer (hits p (text x.item)) x.item p q (partial_none p (text x.item) e) k)

-- A pattern with neither ^ at its front nor $ at its end, whose strings filter is to find anywhere in an
-- element, finds nothing in an element of its own length: every string of the result is longer than
-- the pattern, so an element equal to the pattern is never in the result.
pub filter-misses :
    (p : List ℕ) (q : Queue Item) (t : List ℕ)
    → flag_of p ≡ match_partial
    → has t (texts (filter (p ∷ []) q)) ≡ true
    → length p < length t
unfolding filter empty
filter-misses p q t e =
    (filter_loop-Longer p q.chain empty e (empty-IsValid false, λ t f. absurd (cc f))).1 t

-- a copy holds the items of a queue
items_of :
    (cs : List (Cell Item)) → map (λ (e : ℤ × Item). e.1) (map entry cs) ≡ map (λ c. c.item) cs
items_of [] = refl
items_of (c ∷ cs) = ap (◌∷◌ c.item) (items_of cs)

items_unkeyed :
    (cs : List (Cell Item)) → map (λ (e : ℤ × Item). e.1) (unkeyed cs) ≡ map (λ c. c.item) cs
items_unkeyed [] = refl
items_unkeyed (c ∷ cs) = ap (◌∷◌ c.item) (items_unkeyed cs)

texts_items : (cs : List (Cell Item)) → map text (map (λ c. c.item) cs) ≡ texts_of cs
texts_items [] = refl
texts_items (c ∷ cs) = ap (◌∷◌ (text c.item)) (texts_items cs)

copy-texts : (q : Queue Item) → texts (copy q) ≡ texts q
copy-texts q =
    sym (texts_items (copy q).chain)
    ∙ ap (map text) (
        sym (items_of (copy q).chain)
        ∙ ap (map (λ (e : ℤ × Item). e.1)) (copy_lem q).1
        ∙ items_unkeyed q.chain)
    ∙ texts_items q.chain

-- what an insertion at the tail makes of a queue whose tail is its head
headed :
    (x : Item) (r : Queue Item) (d : Cell Item) (ds : List (Cell Item))
    → r.chain ≡ d ∷ ds
    → r.tail ≡ some d.addr
    → (texts (ins max_integer64 x r) ≡ text d.item ∷ text x ∷ [])
      × ((ins max_integer64 x r).count ≡ r.count +ℤ pos 1)
unfolding ins ins_at ins_linked link_tail link_after
headed x r d ds e t =
    rw (e, t)
      (
        ap
            (λ b. texts_of (
              if b
              then d ∷ new_cell r max_integer64 x ∷ []
              else d ∷ link_after d.addr (new_cell r max_integer64 x) ds))
            (==_refl d.addr),
        refl,
      )

abbrev first_text : List ℕ → List (List ℕ) → List ℕ
first_text t [] = t
first_text t (u ∷ us) = u

-- The constructor from a queue holds the strings of the queue; but the first `ins` at MAX_INTEGER64
-- leaves of them only the head, with the new string behind it, while count is that of all of them.
pub from_queue-loses :
    (q : Queue Item) (x : Item) (t : List ℕ) (ts : List (List ℕ))
    → texts q ≡ t ∷ ts
    → (texts (from_queue q) ≡ t ∷ ts)
      × (texts (ins max_integer64 x (from_queue q)) ≡ t ∷ text x ∷ [])
      × ((ins max_integer64 x (from_queue q)).count ≡ pos (suc (suc (length ts))))
unfolding from_queue
from_queue-loses q x t ts e = go (copy q).chain refl
  where
    go :
        (cs : List (Cell Item))
        → (copy q).chain ≡ cs
        → (texts (from_queue q) ≡ t ∷ ts)
          × (texts (ins max_integer64 x (from_queue q)) ≡ t ∷ text x ∷ [])
          × ((ins max_integer64 x (from_queue q)).count ≡ pos (suc (suc (length ts))))
    go [] f = absurd (cc (sym (ap texts_of f) ∙ copy-texts q ∙ e))
    go (d ∷ ds) f =
        let l = sym (ap texts_of f) ∙ copy-texts q ∙ e in
        let k =
          headed x (from_queue q) d ds f
            (ap (λ cs. elim cs [ [] ↦ none | c ∷ cs ↦ some c.addr ]) f) in
        (
          copy-texts q ∙ e,
          k.0 ∙ ap (λ u. u ∷ text x ∷ []) (ap (first_text t) l),
          k.1
              ∙ ap (λ n. n +ℤ pos 1)
                  ((copy_lem q).0.counted
                    ∙ ap pos (
                        sym (length-map (λ c. text c.item) (copy q).chain)
                        ∙ ap length (copy-texts q ∙ e)))
              ∙ pos-+ℤ_one (suc (length ts)),
        )
