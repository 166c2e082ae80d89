-- ===== src/WaitQueue/Agrees.antt =====
-- stdLimitSemaphore.cpp: each operation of the bucket queue does what that of stdQueue does.
use tiny_state.Prelude.{
  ℕ, ◌≡◌, inl, inr, refl, sym, ap, subst, ◌∙◌, Bool, true, false, Option, none, some, List, [], ◌∷◌,
  map, arith, if◌then◌else◌, Bool-cases, ◌||◌, ◌==◌, ==_iff,
}
use tiny_state.Prelude.Int.{ℤ, pos, ◌≤ℤ◌, ◌+ℤ◌, ◌-ℤ◌, eqb_ℤ}
use tiny_state.Queue.{Queue, Cell, max_integer64, new_cell, ins, del, find, check}
use tiny_state.Queue.Valid.{IsValid, ins-IsValid, ins_fields}
use tiny_state.Queue.Remove.{del-IsValid, del_lem, del_result}
use tiny_state.Queue.Order.{entry, entries, Ascending, keeps_ties, chain-ins, ins_by_key}
use tiny_state.WaitQueue.{
  Buckets, WaitQueue, member, idx_insert, idx_erase, put, w_ins, w_has, w_del, w_taken, pop_front,
}
use tiny_state.WaitQueue.Order.{
  flat, IsWell, place_entry, entries-link_sorted, flat-put, put-IsWell, Pops, pop_front-Pops,
}

abbrev pub Once : List ℕ → Type 0
Once [] = Unit
Once (x ∷ xs) = (member x xs ≡ false) × Once xs

abbrev pub names : List (ℤ × ℕ) → List ℕ
names = map (λ e. e.1)

-- The index holds each waiter once.
pub record Agrees (w : WaitQueue) (q : Queue ℕ) : Type 0 where
  pub order : flat w.bucket ≡ entries q
  pub counts : w.count ≡ q.count
  pub ties : w.ins_neq ≡ q.ins_neq
  pub well : IsWell w.bucket
  pub valid : IsValid q
  pub ascending : Ascending q.chain
  pub indexed : (x : ℕ) → member x w.idx ≡ member x (names (entries q))
  pub idx_once : Once w.idx
  pub queued_once : Once (names (entries q))

-- a waiter is looked up by pointer equality
abbrev pub queued : ℕ → Queue ℕ → Option ℕ
queued x q = check (λ y. x == y) q

abbrev pub is_some {ℓ} : {A : Type ℓ} → Option A → Bool
is_some none = false
is_some (some a) = true

find-member :
    (x : ℕ) (cs : List (Cell ℕ)) → is_some (find (λ y. x == y) cs) ≡ member x (names (map entry cs))
unfolding find
find-member x [] = refl
find-member x (c ∷ cs) = elim (Bool-cases (x == c.item)) [
  | inl e ↦ rw e
  | inr e ↦ rw e (find-member x cs)
]

pub w_has_lem :
    {w : WaitQueue} {q : Queue ℕ} (x : ℕ) → Agrees w q → w_has x w ≡ is_some (queued x q)
unfolding w_has check
w_has_lem {w} {q} x a = a.indexed x ∙ sym (find-member x q.chain)

member-place :
    (ties : Bool) (k : ℤ) (x y : ℕ) (es : List (ℤ × ℕ))
    → member y (names (place_entry ties k x es)) ≡ (if y == x then true else member y (names es))
unfolding place_entry
member-place ties k x y [] = refl
member-place ties k x y ((j, z) ∷ es) = ground (arith, member-place ties k x y es)

place-Once :
    (ties : Bool) (k : ℤ) (x : ℕ) (es : List (ℤ × ℕ))
    → member x (names es) ≡ false
    → Once (names es)
    → Once (names (place_entry ties k x es))
unfolding place_entry
place-Once ties k x [] n o = (refl, tt)
place-Once ties k x ((j, z) ∷ es) n o =
    ground (arith, member-place ties k x z es, place-Once ties k x es, ==_iff x z, ==_iff z x)

member-idx_insert :
    (x y : ℕ) (s : List ℕ) → member y (idx_insert x s) ≡ (if y == x then true else member y s)
unfolding idx_insert
member-idx_insert x y s = elim (Bool-cases (member x s)) [
  | inl e ↦
      rw e (elim (Bool-cases (y == x)) [ inl h ↦ rw h (rw ((==_iff y x).0 h) e) | inr h ↦ rw h ])
  | inr e ↦ rw e
]

idx_insert-Once : (x : ℕ) (s : List ℕ) → Once s → Once (idx_insert x s)
unfolding idx_insert
idx_insert-Once x s o = elim (Bool-cases (member x s)) [ inl e ↦ rw e o | inr e ↦ rw e (e, o) ]

member-idx_erase :
    (x y : ℕ) (s : List ℕ)
    → Once s
    → member y (idx_erase x s) ≡ (if y == x then false else member y s)
unfolding idx_erase
member-idx_erase x y [] o = ground arith
member-idx_erase x y (z ∷ s) o =
    ground (arith, member-idx_erase x y s o.1, ==_iff x z, ==_iff y x, ==_iff y z)

idx_erase-Once : (x : ℕ) (s : List ℕ) → Once s → Once (idx_erase x s)
unfolding idx_erase
idx_erase-Once x [] o = tt
idx_erase-Once x (z ∷ s) o = ground (arith, idx_erase-Once x s o.1, member-idx_erase x z s o.1)

or-if : (a b : Bool) → (a || b) ≡ (if b then true else a)
or-if true true = refl
or-if true false = refl
or-if false true = refl
or-if false false = refl

-- `w_ins` of a caller that is not queued is stdQueue's `ins`
pub w_ins-Agrees :
    {w : WaitQueue} {q : Queue ℕ} (k : ℤ) (x : ℕ)
    → Agrees w q
    → w_has x w ≡ false
    → k ≤ℤ max_integer64
    → Agrees (w_ins k x w) (ins k x q)
unfolding w_ins w_has
w_ins-Agrees {w} {q} k x a n m =
    let es = entries q in
    let ties : (w.ins_neq || eqb_ℤ k max_integer64) ≡ keeps_ties q k =
      rw a.ties (or-if q.ins_neq (eqb_ℤ k max_integer64)) in
    let placed : entries (ins k x q) ≡ place_entry (keeps_ties q k) k x es =
      ap (map entry) (chain-ins k x q a.valid a.ascending)
      ∙ entries-link_sorted (keeps_ties q k) (new_cell q k x) q.chain in
    record {
      order =
          ap (λ t. flat (put t k x w.bucket)) ties
          ∙ flat-put (keeps_ties q k) k x w.bucket a.well
          ∙ ap (place_entry (keeps_ties q k) k x) a.order
          ∙ sym placed;
      counts = ap (λ c. c +ℤ pos 1) a.counts ∙ sym (ins_fields k x q).0;
      ties = a.ties ∙ sym (ins_fields k x q).1;
      well = put-IsWell (w.ins_neq || eqb_ℤ k max_integer64) k x w.bucket a.well;
      valid = ins-IsValid k x q a.valid;
      ascending = (ins_by_key k x q a.valid a.ascending m).1;
      indexed = λ y. rw (
        placed,
        member-idx_insert x y w.idx,
        member-place (keeps_ties q k) k x y es,
        a.indexed y,
      );
      idx_once = idx_insert-Once x w.idx a.idx_once;
      queued_once =
          rw placed (place-Once (keeps_ties q k) k x es (sym (a.indexed x) ∙ n) a.queued_once);
    }

-- what both queues give back
abbrev pub SameResult : Option ℕ × WaitQueue → Option ℕ × Queue ℕ → Type 0
SameResult r s = (r.0 ≡ s.0) × Agrees r.1 s.1

erased :
    (x y : ℕ) (s ns : List ℕ)
    → Once s
    → Once (x ∷ ns)
    → member y s ≡ member y (x ∷ ns)
    → member y (idx_erase x s) ≡ member y ns
erased x y s ns o p e = ground (arith, member-idx_erase x y s o, ==_iff y x)

nonempty {ℓ κ} : {A : Type ℓ} {P : Type κ} {x : A} {xs : List A} → [] ≡ x ∷ xs → P
nonempty e = absurd (cc e)

taken-Agrees :
    (w : WaitQueue) (q : Queue ℕ) (o : Option (ℕ × Buckets)) (cs : List (Cell ℕ))
    → Agrees w q
    → Pops w.bucket o
    → q.chain ≡ cs
    → SameResult (w_taken w o) (del_result q cs)
unfolding w_taken
taken-Agrees w q none [] a p e = (refl, a)
taken-Agrees w q none (c ∷ cs) a p e = nonempty (sym p ∙ a.order ∙ ap (map entry) e)
taken-Agrees w q (some (x, m)) [] a p e = nonempty (sym (sym p.1 ∙ a.order ∙ ap (map entry) e))
taken-Agrees w q (some (x, m)) (c ∷ cs) a (k, p, v) e =
    let split : ◌≡◌ {A = List (ℤ × ℕ)} ((k, x) ∷ flat m) (entry c ∷ map entry cs) =
      sym p ∙ a.order ∙ ap (map entry) e in
    let first : x ≡ c.item = ground arith in
    let rest : flat m ≡ map entry cs = cc split in
    let once : Once (c.item ∷ names (map entry cs)) =
      subst (λ ds. Once (names (map entry ds))) e a.queued_once in
    let up : Ascending (c ∷ cs) = subst Ascending e a.ascending in
    (
      ap some first,
      record {
        order = rest;
        counts = ap (λ n. n -ℤ pos 1) a.counts;
        ties = a.ties;
        well = v;
        valid =
            subst (λ r. IsValid r.1) (del_lem q a.valid ∙ ap (del_result q) e)
              (del-IsValid q a.valid);
        ascending = up.2;
        indexed = λ y. rw first (
            erased c.item y w.idx (names (map entry cs)) a.idx_once once
              (a.indexed y ∙ ap (λ ds. member y (names (map entry ds))) e));
        idx_once = idx_erase-Once x w.idx a.idx_once;
        queued_once = once.1;
      },
    )

-- `w_del` is stdQueue's `del()`
pub w_del-Agrees : {w : WaitQueue} {q : Queue ℕ} → Agrees w q → SameResult (w_del w) (del q)
unfolding w_del
w_del-Agrees {w} {q} a =
    rw (del_lem q a.valid)
      (taken-Agrees w q (pop_front w.bucket) q.chain a (pop_front-Pops w.bucket a.well) refl)
