-- ===== src/Machine/Base.antt =====
-- tinyState.cpp: the state functions of the class tinyState itself, from `INI_START` to `ZOM`.
pub mod Ranks
pub mod Cycle
use tiny_state.Prelude.{ℕ, Bool, true, false, Option, none, some, List, [], ◌==◌, if◌then◌else◌}
use tiny_state.Machine.{Event, Table, Machine}
use tiny_state.Machine.Dispatch.{Reply, returns, Ran, Class}

pub data Name : Type 0 where
  ini_start ini_tinystate_finish : Name
  act_start act_tinystate_check1 act_tinystate_check2 act_tinystate_start : Name
  fin_start fin_tinystate_start : Name
  zom_start zom_tinystate_last zom_tinystate_last2 zombie err_start : Name

-- Addresses are even, so that `rDO` is free.
abbrev pub address : Name → ℕ
address ini_start = 2
address ini_tinystate_finish = 4
address act_start = 6
address act_tinystate_check1 = 8
address act_tinystate_check2 = 10
address act_tinystate_start = 12
address fin_start = 14
address fin_tinystate_start = 16
address zom_start = 18
address zom_tinystate_last = 20
address zom_tinystate_last2 = 22
address zombie = 24
address err_start = 26

abbrev pub name_of : ℕ → Option Name
name_of s =
    if s == 2
    then some ini_start
    else if s == 4
    then some ini_tinystate_finish
    else if s == 6
    then some act_start
    else if s == 8
    then some act_tinystate_check1
    else if s == 10
    then some act_tinystate_check2
    else if s == 12
    then some act_tinystate_start
    else if s == 14
    then some fin_start
    else if s == 16
    then some fin_tinystate_start
    else if s == 18
    then some zom_start
    else if s == 20
    then some zom_tinystate_last
    else if s == 22
    then some zom_tinystate_last2
    else if s == 24
    then some zombie
    else if s == 26
    then some err_start
    else none

abbrev pub is_ini : Option Name → Bool
is_ini none = true
is_ini (some ini_start) = true
is_ini (some ini_tinystate_finish) = true
is_ini (some s) = false

abbrev pub in_zom : Option Name → Bool
in_zom (some zom_start) = true
in_zom (some zom_tinystate_last) = true
in_zom (some zom_tinystate_last2) = true
in_zom (some zombie) = true
in_zom o = false

unfoldable pub base_table : Table
base_table = record {
  c_ini = λ s. is_ini (name_of s);
  c_zom = λ s. in_zom (name_of s);
  c_thr = λ s. false;
  zom = address zombie;
  err_start = address err_start;
}

-- `return rDO|s`
abbrev pub go_to : Name → Event → Machine → Unit {0} → Ran (Unit {0})
go_to s ev m u = record { reply = returns true (address s); arrived = []; closes = false; user = u }

-- `return s` and `return 0`
abbrev pub stay_in : ℕ → Bool → Ran (Unit {0})
stay_in s b = record { reply = returns false s; arrived = []; closes = b; user = tt }

unfoldable pub base_func : Name → Event → Machine → Unit {0} → Ran (Unit {0})
base_func ini_start = go_to ini_tinystate_finish
base_func ini_tinystate_finish = go_to act_start
base_func act_start = go_to act_tinystate_check1
base_func act_tinystate_check1 =
    λ ev m. if m.ref_destroy_flag then go_to fin_start ev m else go_to act_tinystate_check2 ev m
base_func act_tinystate_check2 =
    λ ev m. if m.destroy_flag then go_to fin_start ev m else go_to act_tinystate_start ev m
base_func act_tinystate_start = λ ev m u. stay_in (address act_start) false
base_func fin_start = go_to fin_tinystate_start
base_func fin_tinystate_start = go_to zom_start
base_func zom_start = go_to zom_tinystate_last
base_func zom_tinystate_last = go_to zom_tinystate_last2
base_func zom_tinystate_last2 = λ ev m u. stay_in (address zombie) true
base_func zombie = λ ev m u. stay_in 0 false
base_func err_start = λ ev m u. stay_in 0 false

unfoldable pub base_at : Option Name → Option (Event → Machine → Unit {0} → Ran (Unit {0}))
unfolding base_func
base_at none = none
base_at (some s) = some (base_func s)

-- no filter of its own
unfoldable pub base : Class (Unit {0})
unfolding base_at
base = record { func = λ s. base_at (name_of s); filter = λ ev m u. (some ev, [], u) }
