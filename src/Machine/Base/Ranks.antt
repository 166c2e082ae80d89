-- ===== src/Machine/Base/Ranks.antt =====
-- tinyState.cpp: the class tinyState itself meets what the theorems on derived classes ask for.
use tiny_state.Prelude.{
  ℕ, ◌<◌, ◌≤◌, ◌≡◌, ◌≢◌, refl, sym, subst, true, false, Option, none, some, [], arith,
}
use mathlib.Core.Option.{some-injective}
use tiny_state.Machine.{Event, Machine}
use tiny_state.Machine.Dispatch.{returns, request, Ran}
use tiny_state.Machine.Dispatch.Rounds.{IsDerived}
use tiny_state.Machine.Dispatch.Descent.{Descends, Descending}
use tiny_state.Machine.Base.{
  Name, ini_start, ini_tinystate_finish, act_start, act_tinystate_check1, act_tinystate_check2,
  act_tinystate_start, fin_start, fin_tinystate_start, zom_start, zom_tinystate_last,
  zom_tinystate_last2, zombie, err_start, name_of, base_table, base_func, base_at, base,
}

-- how many states may still follow at once
abbrev pub rank_at : Option Name → ℕ
rank_at none = 10
rank_at (some ini_start) = 9
rank_at (some ini_tinystate_finish) = 8
rank_at (some act_start) = 7
rank_at (some act_tinystate_check1) = 6
rank_at (some act_tinystate_check2) = 5
rank_at (some fin_start) = 4
rank_at (some fin_tinystate_start) = 3
rank_at (some zom_start) = 2
rank_at (some zom_tinystate_last) = 1
rank_at (some s) = 0

abbrev pub base_rank : ℕ → ℕ
base_rank s = rank_at (name_of s)

pub rank_bound : (o : Option Name) → rank_at o ≤ 10
rank_bound none = omega arith
rank_bound (some s) = ground arith

base_func_closes :
    (s : Name) (ev : Event) (m : Machine) (u : Unit {0})
    → (base_func s ev m u).closes ≡ true
    → (base_func s ev m u).reply ≡ returns false 24
unfolding base_func
base_func_closes ini_start ev m u e = cc e
base_func_closes ini_tinystate_finish ev m u e = cc e
base_func_closes act_start ev m u e = cc e
base_func_closes act_tinystate_check1 ev m u e = ground arith
base_func_closes act_tinystate_check2 ev m u e = ground arith
base_func_closes act_tinystate_start ev m u e = cc e
base_func_closes fin_start ev m u e = cc e
base_func_closes fin_tinystate_start ev m u e = cc e
base_func_closes zom_start ev m u e = cc e
base_func_closes zom_tinystate_last ev m u e = cc e
base_func_closes zom_tinystate_last2 ev m u e = refl
base_func_closes zombie ev m u e = cc e
base_func_closes err_start ev m u e = cc e

base_func_silent :
    (s : Name) (ev : Event) (m : Machine) (u : Unit {0}) → (base_func s ev m u).arrived ≡ []
unfolding base_func
base_func_silent ini_start ev m u = refl
base_func_silent ini_tinystate_finish ev m u = refl
base_func_silent act_start ev m u = refl
base_func_silent act_tinystate_check1 ev m u = ground arith
base_func_silent act_tinystate_check2 ev m u = ground arith
base_func_silent act_tinystate_start ev m u = refl
base_func_silent fin_start ev m u = refl
base_func_silent fin_tinystate_start ev m u = refl
base_func_silent zom_start ev m u = refl
base_func_silent zom_tinystate_last ev m u = refl
base_func_silent zom_tinystate_last2 ev m u = refl
base_func_silent zombie ev m u = refl
base_func_silent err_start ev m u = refl

base_func_descends :
    (s : Name) (ev : Event) (m : Machine) (u : Unit {0})
    → let r = request base_table (base_func s ev m u).reply in
      r.redo ≡ true → (r.target ≢ 0) × (base_rank r.target < rank_at (some s))
unfolding base_func request base_table
base_func_descends ini_start ev m u e = ((λ f. omega arith), omega arith)
base_func_descends ini_tinystate_finish ev m u e = ((λ f. omega arith), omega arith)
base_func_descends act_start ev m u e = ((λ f. omega arith), omega arith)
base_func_descends act_tinystate_check1 ev m u e = ground arith
base_func_descends act_tinystate_check2 ev m u e = ground arith
base_func_descends act_tinystate_start ev m u e = cc e
base_func_descends fin_start ev m u e = ((λ f. omega arith), omega arith)
base_func_descends fin_tinystate_start ev m u e = ((λ f. omega arith), omega arith)
base_func_descends zom_start ev m u e = ((λ f. omega arith), omega arith)
base_func_descends zom_tinystate_last ev m u e = ((λ f. omega arith), omega arith)
base_func_descends zom_tinystate_last2 ev m u e = cc e
base_func_descends zombie ev m u e = cc e
base_func_descends err_start ev m u e = cc e

base_at_lem :
    (P : (Event → Machine → Unit {0} → Ran (Unit {0})) → Type 0) (o : Option Name)
    (f : Event → Machine → Unit {0} → Ran (Unit {0}))
    → ((s : Name) → o ≡ some s → P (base_func s))
    → base_at o ≡ some f
    → P f
unfolding base_at
base_at_lem P none f h e = absurd (cc e)
base_at_lem P (some s) f h e = subst P (some-injective _ _ e) (h s refl)

base_at-none : (o : Option Name) → base_at o ≡ none → (◌≢◌ {A = ℕ} 26 0) × (0 < rank_at o)
unfolding base_at
base_at-none none e = ((λ f. omega arith), omega arith)
base_at-none (some s) e = absurd (cc e)

pub base-IsDerived : IsDerived base_table base
unfolding base base_table
base-IsDerived = record {
  zom_real = λ e. omega arith;
  zom_class = refl;
  closes_last = λ s f ev m u e.
      base_at_lem (λ g. (g ev m u).closes ≡ true → (g ev m u).reply ≡ returns false 24) (name_of s)
        f (λ x h. base_func_closes x ev m u) e;
}

pub base-Descending : Descending base_table base base_rank
unfolding base base_at base_table
base-Descending = record {
  silent = λ s f ev m u e.
      base_at_lem (λ g. (g ev m u).arrived ≡ []) (name_of s) f (λ x h. base_func_silent x ev m u) e;
  filter_silent = λ ev m u. refl;
  descends = λ s f ev m u e.
      base_at_lem (λ g. Descends base_rank s (request base_table (g ev m u).reply)) (name_of s) f
        (λ x h.
          subst
            (λ o.
              let r = request base_table (base_func x ev m u).reply in
              r.redo ≡ true → (r.target ≢ 0) × (base_rank r.target < rank_at o))
            (sym h) (base_func_descends x ev m u))
        e;
  undefined = λ s e. base_at-none (name_of s) e;
}
