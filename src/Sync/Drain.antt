-- ===== src/Sync/Drain.antt =====
-- stdSemaphore.cpp and stdMutex.cpp: the loop that takes every waiter off a queue and wakes it.
use tiny_state.Prelude.{
  ℕ, zero, suc, ◌≡◌, refl, ap, subst, ◌∙◌, Bool, Option, none, some, List, [], ◌∷◌, arith, length,
  ◌==◌, true, false,
}
use tiny_state.Queue.{Queue, Cell, del, check}
use tiny_state.Queue.Valid.{IsValid}
use tiny_state.Queue.Remove.{del-IsValid, del_lem, del_result, shorter}
use tiny_state.Queue.Sort.Result.{items}

abbrev pub drained_also : Option ℕ → List ℕ → List ℕ
drained_also none rest = []
drained_also (some x) rest = x ∷ rest

-- `for ( ; ; ) { obj = q->del(); if ( obj == thNULL ) break; obj->wakeup(); }`
unfoldable pub drain : ℕ → Queue ℕ → List ℕ
drain zero q = []
drain (suc n) q = let rest = drain n (del q).1 in drained_also (del q).0 rest

-- one round more than the queue holds elements
unfoldable pub drain_all : Queue ℕ → List ℕ
unfolding drain
drain_all q = drain (suc (length q.chain)) q

drain-items :
    (n : ℕ) (q : Queue ℕ) (cs : List (Cell ℕ))
    → IsValid q
    → q.chain ≡ cs
    → length cs ≡ n
    → drain (suc n) q ≡ items cs
unfolding drain
drain-items zero q [] v e h = rw (del_lem q v ∙ ap (del_result q) e)
drain-items zero q (c ∷ cs) v e h = absurd (omega arith)
drain-items (suc n) q [] v e h = absurd (omega arith)
drain-items (suc n) q (c ∷ cs) v e h =
    let taken = del_lem q v ∙ ap (del_result q) e in
    let w = subst (λ r. IsValid r.1) taken (del-IsValid q v) in
    ap (λ (r : Option ℕ × Queue ℕ). drained_also r.0 (drain (suc n) r.1)) taken
    ∙ ap (◌∷◌ c.item) (drain-items n (shorter q cs) cs w refl (omega arith))

-- The loop ends, and wakes every waiter once, the head first.
pub drain_all-items : (q : Queue ℕ) → IsValid q → drain_all q ≡ items q.chain
unfolding drain_all
drain_all-items q v = drain-items (length q.chain) q q.chain v refl refl

-- a waiter is looked up by pointer equality
abbrev pub is_queued : ℕ → Queue ℕ → Bool
is_queued x q = elim (check (λ y. x == y) q) [ none ↦ false | some y ↦ true ]
