-- ===== src/Examples/Deferrals.antt =====
-- A concrete history of the machine that takes events of calls that are nested too deep.
use tiny_state.Prelude.{ℕ, ◌+◌, ◌≡◌, refl, Bool, Option, none, some, List, [], ◌∷◌, All}
use tiny_state.Prelude.Int.{ℤ, ◌+ℤ◌, pos}
use tiny_state.HalfOrder.Shape.{size, tally}
use tiny_state.HalfOrder.{ins, placed, settle, del, take_last, cut, sift, count}
use tiny_state.Deferral.{
  Job, Gc, Visit, start, Action, exes, wakes, starts, returns, visits, step, exe, wakeup, act_start,
  act_ret, act_exe, run, rounds,
}
use tiny_state.Deferral.Delivery.{CanRun, tallied, run-Delivered, rounds-drain}

-- a delivery at depth 3 that takes longer than the budget
abbrev slow : Visit
slow = record {
  depth = pos 3;
  evh_depth = pos 0;
  own_limit = pos 1500;
  enter_time = pos 0;
  now = pos 200000;
}

-- three jobs, one of which is delivered in between
abbrev actions : List (Action ℕ)
actions =
    exes (pos 5) (1, some 7)
    ∷ exes (pos 5) (2, none)
    ∷ wakes
    ∷ starts
    ∷ returns
    ∷ visits slow
    ∷ exes (pos 4) (3, some 9)
    ∷ []

abbrev reached : Option (Gc ℕ) → Gc ℕ
reached none = start
reached (some g) = g

abbrev final : Gc ℕ
final = reached (run actions start)

two_wait : size final.que ≡ 2
unfolding run step exe wakeup act_start act_ret act_exe start ins placed settle del take_last cut
    sift count ◌+ℤ◌
two_wait = refl

can_run : All CanRun actions
can_run = (tt, (tt, (tt, (tt, (tt, (refl, (tt, tt)))))))

run-Delivered_example :
    (g : Gc ℕ) × (run actions start ≡ some g)
    × ((p : ℤ → Job ℕ → Bool) → tallied p g.asked ≡ tallied p g.log + tally p g.que)
run-Delivered_example = run-Delivered actions can_run

rounds-drain_example :
    (h : Gc ℕ) × (run (rounds (slow ∷ slow ∷ [])) final ≡ some h)
    × (h.asked ≡ final.asked)
    × ((p : ℤ → Job ℕ → Bool) → tallied p final.asked ≡ tallied p h.log)
unfolding run step exe wakeup act_start act_ret act_exe start ins placed settle del take_last cut
    sift count ◌+ℤ◌
rounds-drain_example =
    rounds-drain actions final (slow ∷ slow ∷ []) can_run refl (refl, (refl, tt)) refl
