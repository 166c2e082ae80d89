-- ===== src/WaitQueue/Refines.antt =====
-- stdLimitSemaphore.cpp: the bucket queue does what the linked stdQueue did.
use tiny_state.Prelude.{
  ℕ, ◌≡◌, inl, inr, refl, sym, ap₂, ◌∙◌, Bool, Option, none, List, [], ◌∷◌, if◌then◌else◌, All,
  Bool-cases,
}
use tiny_state.Prelude.Int.{ℤ, ◌≤ℤ◌}
use tiny_state.Queue.{Queue, max_integer64, empty, ins, del}
use tiny_state.Queue.Move.{empty-IsValid}
use tiny_state.WaitQueue.{WaitQueue, new, w_ins, w_has, w_del}
use tiny_state.WaitQueue.Agrees.{
  Agrees, queued, is_some, w_has_lem, w_ins-Agrees, SameResult, w_del-Agrees,
}

-- what `get` does to a queue for a caller that has to wait, and a wake-up
pub data Turn : Type 0 where
  waits : ℤ → ℕ → Turn
  serves : Turn

-- the bucket queue, with the callers served so far
unfoldable pub turn : Turn → WaitQueue → Option ℕ × WaitQueue
turn (waits k x) w = if w_has x w then (none, w) else (none, w_ins k x w)
turn serves w = w_del w

-- the linked queue that it replaced
unfoldable pub turn_linked : Turn → Queue ℕ → Option ℕ × Queue ℕ
turn_linked (waits k x) q = if is_some (queued x q) then (none, q) else (none, ins k x q)
turn_linked serves q = del q

unfoldable pub served : List Turn → WaitQueue → List (Option ℕ)
unfolding turn
served [] w = []
served (t ∷ ts) w = let (x, v) = turn t w in x ∷ served ts v

unfoldable pub served_linked : List Turn → Queue ℕ → List (Option ℕ)
unfolding turn_linked
served_linked [] q = []
served_linked (t ∷ ts) q = let (x, r) = turn_linked t q in x ∷ served_linked ts r

-- a key is an `INTEGER64`
abbrev pub InRange : Turn → Type 0
InRange (waits k x) = k ≤ℤ max_integer64
InRange serves = Unit

turn-Agrees :
    {w : WaitQueue} {q : Queue ℕ} (t : Turn)
    → Agrees w q
    → InRange t
    → SameResult (turn t w) (turn_linked t q)
unfolding turn turn_linked
turn-Agrees {w} {q} (waits k x) a m = elim (Bool-cases (w_has x w)) [
  | inl e ↦ rw (e, sym (w_has_lem x a) ∙ e) (refl, a)
  | inr e ↦ rw (e, sym (w_has_lem x a) ∙ e) (refl, w_ins-Agrees k x a e m)
]
turn-Agrees serves a m = w_del-Agrees a

served-eq :
    (ts : List Turn) (w : WaitQueue) (q : Queue ℕ)
    → Agrees w q
    → All InRange ts
    → served ts w ≡ served_linked ts q
unfolding served served_linked
served-eq [] w q a h = refl
served-eq (t ∷ ts) w q a h =
    let (same, rest) = turn-Agrees t a h.0 in
    ap₂ ◌∷◌ same (served-eq ts (turn t w).1 (turn_linked t q).1 rest h.1)

new-Agrees : (ties : Bool) → Agrees (new ties) (record empty { ins_neq = ties })
unfolding new empty
new-Agrees ties = record {
  order = refl;
  counts = refl;
  ties = refl;
  well = tt;
  valid = empty-IsValid ties;
  ascending = tt;
  indexed = λ x. refl;
  idx_once = tt;
  queued_once = tt;
}

-- From empty queues with the same tie rule, the bucket queue serves over any history of waits and
-- wake-ups exactly the callers that the linked queue serves, in the same order.
pub served-refines :
    (ties : Bool) (ts : List Turn)
    → All InRange ts
    → served ts (new ties) ≡ served_linked ts (record empty { ins_neq = ties })
served-refines ties ts h = served-eq ts _ _ (new-Agrees ties) h
