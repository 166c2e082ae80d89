-- ===== src/Queue/Run.antt =====
-- stdQueue.h: whole histories of calls on one queue.
use tiny_state.Prelude.{
  ℕ, suc, ◌+◌, ◌≤◌, ◌≡◌, ◌∙◌, subst, inl, inr, Bool, false, none, List, [], ◌∷◌, if◌then◌else◌,
  arith, Bool-cases,
}
use tiny_state.Prelude.Int.{ℤ, pos, ◌+ℤ◌, +ℤ_parts, eq_of_parts}
use tiny_state.Queue.{Cell, Queue, empty, ins, ins_all, del, del_where, reset, set_tail}
use tiny_state.Queue.Near.{ins_near}
use tiny_state.Queue.Placed.{answers, recounted, ins_near-IsValid}
use tiny_state.Queue.Recount.{ins-recounted, ins_all-recounted, del-recounted, del_where-recounted}
use tiny_state.Queue.Valid.{IsValid, ins-IsValid}
use tiny_state.Queue.Remove.{del-IsValid, del_where-IsValid}
use tiny_state.Queue.Move.{
  move, ins_all-IsValid, empty-IsValid, reset-IsValid, set_tail-IsValid, move-IsValid,
}

+ℤ_zero : (a : ℤ) → a +ℤ pos 0 ≡ a
+ℤ_zero a = grind (arith, +ℤ_parts, eq_of_parts)

module _ {ℓ} where
  -- a call that changes the queue, or a store to the public `insNeq`
  pub data Call (A : Type ℓ) : Type ℓ where
    inserts : ℤ → A → Call A
    -- with the elements of another queue
    inserts_all : List (Cell A) → Call A
    -- `ins(ref, d, cmp)`, with what `cmp(·, ref)` answers for an element and for the null pointer
    inserts_near : (A → ℤ) → ℤ → A → Call A
    deletes : Call A
    deletes_where : (A → Bool) → Call A
    moves_out : (A → ℤ) → Call A
    settles : Call A
    resets : Call A
    sets_ties : Bool → Call A

module _ {ℓ} {A : Type ℓ} where
  unfoldable pub step : Call A → Queue A → Queue A
  step (inserts k x) q = ins k x q
  step (inserts_all cs) q = ins_all cs q
  step (inserts_near f r x) q = ins_near f r x q
  step deletes q = (del q).1
  step (deletes_where p) q = (del_where p q).1
  step (moves_out f) q = (move f q none).0
  step settles q = set_tail q
  step resets q = reset q
  step (sets_ties b) q = record q { ins_neq = b }

  unfoldable pub run : List (Call A) → Queue A → Queue A
  unfolding step
  run [] q = q
  run (c ∷ cs) q = run cs (step c q)

  -- a queue whose count is right
  exact : (q : Queue A) → IsValid q → IsValid (recounted 0 q)
  exact q v = record {
    distinct = v.distinct;
    allocated = v.allocated;
    tail_last = v.tail_last;
    counted = +ℤ_zero q.count ∙ v.counted;
  }

  moved : (f : A → ℤ) (n : ℕ) (q : Queue A) → IsValid (recounted n q) → IsValid (move f q none).0
  unfolding move set_tail
  moved f n q v = move-IsValid f (recounted n q) none v

  -- by how many elements `count` is behind after a call, from how many it was before: `ins(ref, d,
  -- cmp)` does not count what it links in, and a call that ends in `set_tail` counts afresh
  unfoldable pub behind_after : Call A → Queue A → ℕ → ℕ
  behind_after (inserts_near f r x) q n = if answers f r q.chain then suc n else n
  behind_after (moves_out f) q n = 0
  behind_after settles q n = 0
  behind_after resets q n = 0
  behind_after (inserts k x) q n = n
  behind_after (inserts_all cs) q n = n
  behind_after deletes q n = n
  behind_after (deletes_where p) q n = n
  behind_after (sets_ties b) q n = n

  unfoldable pub behind : List (Call A) → Queue A → ℕ → ℕ
  unfolding step behind_after
  behind [] q n = n
  behind (c ∷ cs) q n = behind cs (step c q) (behind_after c q n)

  -- the number of calls of `ins(ref, d, cmp)`
  abbrev pub nears : List (Call A) → ℕ
  nears [] = 0
  nears (inserts_near f r x ∷ cs) = suc (nears cs)
  nears (inserts k x ∷ cs) = nears cs
  nears (inserts_all ds ∷ cs) = nears cs
  nears (deletes ∷ cs) = nears cs
  nears (deletes_where p ∷ cs) = nears cs
  nears (moves_out f ∷ cs) = nears cs
  nears (settles ∷ cs) = nears cs
  nears (resets ∷ cs) = nears cs
  nears (sets_ties b ∷ cs) = nears cs

  step-IsValid :
      (c : Call A) (n : ℕ) (q : Queue A)
      → IsValid (recounted n q)
      → IsValid (recounted (behind_after c q n) (step c q))
  unfolding step behind_after
  step-IsValid (inserts k x) n q v =
      subst IsValid (ins-recounted n k x q) (ins-IsValid k x (recounted n q) v)
  step-IsValid (inserts_all cs) n q v =
      subst IsValid (ins_all-recounted n cs q) (ins_all-IsValid cs (recounted n q) v)
  step-IsValid (inserts_near f r x) n q v = ins_near-IsValid n q v f r x
  step-IsValid deletes n q v = subst IsValid (del-recounted n q) (del-IsValid (recounted n q) v)
  step-IsValid (deletes_where p) n q v =
      subst IsValid (del_where-recounted n p q) (del_where-IsValid p (recounted n q) v)
  step-IsValid (moves_out f) n q v = exact (move f q none).0 (moved f n q v)
  step-IsValid settles n q v = exact (set_tail q) (set_tail-IsValid q v.distinct v.allocated)
  step-IsValid resets n q v = exact (reset q) (reset-IsValid q)
  step-IsValid (sets_ties b) n q v = record {
    distinct = v.distinct;
    allocated = v.allocated;
    tail_last = v.tail_last;
    counted = v.counted;
  }

  run_from :
      (cs : List (Call A)) (n : ℕ) (q : Queue A)
      → IsValid (recounted n q)
      → IsValid (recounted (behind cs q n) (run cs q))
  unfolding run behind
  run_from [] n q v = v
  run_from (c ∷ cs) n q v = run_from cs (behind_after c q n) (step c q) (step-IsValid c n q v)

  behind_bound : (cs : List (Call A)) (q : Queue A) (n : ℕ) → behind cs q n ≤ n + nears cs
  unfolding behind behind_after
  behind_bound [] q n = omega arith
  behind_bound (inserts_near f r x ∷ cs) q n = elim (Bool-cases (answers f r q.chain)) [
    | inl e ↦ rw e (omega (arith, behind_bound cs (step (inserts_near f r x) q) (suc n)))
    | inr e ↦ rw e (omega (arith, behind_bound cs (step (inserts_near f r x) q) n))
  ]
  behind_bound (inserts k x ∷ cs) q n = behind_bound cs (step (inserts k x) q) n
  behind_bound (inserts_all ds ∷ cs) q n = behind_bound cs (step (inserts_all ds) q) n
  behind_bound (deletes ∷ cs) q n = behind_bound cs (step deletes q) n
  behind_bound (deletes_where p ∷ cs) q n = behind_bound cs (step (deletes_where p) q) n
  behind_bound (moves_out f ∷ cs) q n = omega (arith, behind_bound cs (step (moves_out f) q) 0)
  behind_bound (settles ∷ cs) q n = omega (arith, behind_bound cs (step settles q) 0)
  behind_bound (resets ∷ cs) q n = omega (arith, behind_bound cs (step resets q) 0)
  behind_bound (sets_ties b ∷ cs) q n = behind_bound cs (step (sets_ties b) q) n

  -- After any history of calls on a new queue, stores to `insNeq` among them, no cell is linked
  -- twice, `tail` is the last element of the chain that `head` reaches, and `count` is short of its
  -- length by the number of elements that `ins(ref, d, cmp)` linked in since `count` was last
  -- computed afresh. That number is at most the number of calls of `ins(ref, d, cmp)`: without them
  -- `count` is the length.
  pub run-IsValid :
      (cs : List (Call A))
      → IsValid (recounted (behind cs empty 0) (run cs empty)) × (behind cs empty 0 ≤ nears cs)
  unfolding empty
  run-IsValid cs = (
    run_from cs 0 empty (exact empty (empty-IsValid false)),
    omega (arith, behind_bound cs empty 0),
  )
