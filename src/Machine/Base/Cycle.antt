-- ===== src/Machine/Base/Cycle.antt =====
-- tinyState.cpp: the way of an object of the class tinyState itself through its states.
use tiny_state.Prelude.{
  ℕ, suc, ◌≡◌, refl, Bool, true, false, ◌||◌, Option, none, some, if◌then◌else◌,
}
use tiny_state.Machine.{Event, Machine, invoke_check}
use tiny_state.Machine.Dispatch.{
  Request, request, arrive_all, closed, Config, after, call, evaluate, evaluate_at, move_to, go_on,
  chain,
}
use tiny_state.Machine.Base.{
  address, ini_start, act_start, zombie, base_table, base_func, base_at, base,
}

-- fuel for twelve rounds, and n more
abbrev pub rounds : ℕ → ℕ
rounds n = suc (suc (suc (suc (suc (suc (suc (suc (suc (suc (suc (suc n)))))))))))

-- a machine in `INI_START` or `ACT_START`, with its two flags
abbrev pub alive : Bool → Bool → Bool → Machine → Machine
alive new d r m = record m {
  state = if new then address ini_start else address act_start;
  destroy_flag = d;
  ref_destroy_flag = r;
}

abbrev pub Goes : Bool → Machine → Option (Request × Config (Unit {0})) → Type 0
Goes dying m none = ⊥
Goes dying m (some (x, g)) =
    (x ≡ record { redo = false; target = if dying then address zombie else address act_start })
    × (g.machine.que ≡ (if dying then none else m.que))
    × (g.machine.enter_zom ≡ (if dying then true else m.enter_zom))
    × (g.machine.thr_queueing_flag ≡ false)

-- One event takes an object of the class tinyState, new or in `ACT_START`, with the flag of `destroy`
-- or of the last handle set, all the way to `ZOM`, where its queue is dropped; without them it takes
-- it to `ACT_START` and leaves the queue alone. The mark for `TSE_DESTROY` is set on the way to `ZOM`
-- and only there. Twelve rounds are enough.
pub chain-base :
    (n : ℕ) (ev : Event) (m : Machine) (new d r b : Bool)
    → Goes (r || d) m (
        chain base_table base
          (rounds n)
          ev
          (record { machine = alive new d r m; user = tt; do_ins = b }))
unfolding chain evaluate evaluate_at go_on move_to call after arrive_all closed request base_table
    base base_at base_func invoke_check
chain-base n ev m true false false b = (refl, refl, refl, refl)
chain-base n ev m true true false b = (refl, refl, refl, refl)
chain-base n ev m true false true b = (refl, refl, refl, refl)
chain-base n ev m true true true b = (refl, refl, refl, refl)
chain-base n ev m false false false b = (refl, refl, refl, refl)
chain-base n ev m false true false b = (refl, refl, refl, refl)
chain-base n ev m false false true b = (refl, refl, refl, refl)
chain-base n ev m false true true b = (refl, refl, refl, refl)
