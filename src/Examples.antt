-- ===== src/Examples.antt =====
-- Concrete queues, locks and histories.
mod Trees
mod Deferrals
mod Mutexes
mod Collectors
mod Texts
use mathlib.Core.List.{Perm}
use tiny_state.Prelude.{
  ◌&&◌, ◌≤◌, Option, ℕ, ◌≡◌, refl, inl, inr, if◌then◌else◌, true, false, some, List, [], ◌∷◌, ◌++◌,
  map, arith, ◌==◌, All, length,
}
use tiny_state.Prelude.Int.{ℤ, pos, ◌-ℤ◌, ◌≤ℤ◌, int_laws}
use tiny_state.Queue.{Cell, Queue, last_addr, empty, ins, del, del_where, find, copy, max_integer64}
use tiny_state.Queue.Valid.{IsValid}
use tiny_state.Queue.Remove.{without, removed, del_where_lem}
use tiny_state.Queue.Order.{
  Ascending, entry, entries, select, stays_ahead, falls_behind, keeps_ties, ins_by_key, ins_fifo,
}
use tiny_state.Queue.Placed.{recounted, answers}
use tiny_state.Queue.Run.{
  run, inserts, inserts_all, inserts_near, behind, nears, deletes, deletes_where, run-IsValid,
}
use tiny_state.Queue.Move.{unkeyed, move, goes, stays, copy_lem, move_lem}
use tiny_state.Queue.Sort.{sort, IsPreorder, IsSorted}
use tiny_state.Queue.Sort.Result.{items, sort_lem}
use tiny_state.Queue.Near.{ins_near, ins_near-miscounts}
use tiny_state.WaitQueue.{new, WaitQueue}
use tiny_state.WaitQueue.Order.{flat}
use tiny_state.WaitQueue.Refines.{Turn, waits, serves, served, served_linked, served-refines}
use tiny_state.WaitQueue.Agrees.{names}
use tiny_state.Sync.Drain.{drain_all, drain_all-items}
use tiny_state.Sync.LimitSemaphore.{wake_up_to}
use tiny_state.Sync.LimitSemaphore.Wake.{wake_up_to_all}
use tiny_state.Sync.LimitSemaphore.System
use tiny_state.Sync.LimitSemaphore.System.Keeps.{run-WithinLimit}
use tiny_state.Sync.Semaphore.System as Counting
use tiny_state.Sync.Semaphore.System.Balance.{run-Balanced}
use tiny_state.Sync.Mutex.System as Locking
use tiny_state.Sync.Mutex.System.Exclusion.{run-Excluding}
use tiny_state.Machine.{Event}
use tiny_state.Machine.Once.{posts, takes, accessed, accessed-Consistent, Consistent}
use tiny_state.Machine.Dispatch.{chain}
use tiny_state.Machine.Dispatch.Inside.{OnSome}
use tiny_state.Machine.Dispatch.Rest.{AtRest}
use tiny_state.Machine.Dispatch.Descent.{Yields}
use tiny_state.Machine.Dispatch.Life.{
  Call, handles, destroys, live, live-AtRest, born, born-AtRest, apply, Rests,
}
use tiny_state.Machine.Dispatch.Total.{apply-Rests}
use tiny_state.Machine.Base.{base_table, base, name_of}
use tiny_state.Machine.Base.Ranks.{base-IsDerived, base-Descending, base_rank, rank_bound}
use tiny_state.Machine.Base.Cycle.{Goes, rounds, alive, chain-base}
use tiny_state.HalfOrder
use tiny_state.HalfOrder.{Tree, leaf, node, single}
use tiny_state.HalfOrder.Shape.{IsBalanced, IsOrdered}
use tiny_state.HalfOrder.Insert.{Inserted, ins_lem}
use tiny_state.HalfOrder.Delete
use tiny_state.HalfOrder.Delete.{Deleted}
use tiny_state.Clock
use tiny_state.Listeners.Linked.{Linked}
use tiny_state.Listeners.{World, invoke_listen, points_at}
use tiny_state.Listeners.Silent.{dead-silent}
use tiny_state.Listeners.History
use tiny_state.Listeners.History.{
  listens, removes, dies, Move, calls, cleans, settles, moves, was_removed, run-Linked,
}
use tiny_state.WaitQueue.{member}
use tiny_state.Clock.{Action, calls, loads, tries, Sound, run-Sound}

abbrev first_cell : Cell ℕ
first_cell = record { addr = 0; key = pos 3; item = 7 }

abbrev second_cell : Cell ℕ
second_cell = record { addr = 4; key = pos 5; item = 8 }

abbrev two : Queue ℕ
two = record {
  chain = first_cell ∷ second_cell ∷ [];
  tail = some 4;
  count = pos 2;
  ins_neq = true;
  fresh = 5;
}

two-IsValid : IsValid two
unfolding last_addr
two-IsValid = record {
  distinct = (((λ e. omega arith), tt), (tt, tt));
  allocated = (omega arith, (omega arith, tt));
  tail_last = refl;
  counted = refl;
}

two-Ascending : Ascending two.chain
two-Ascending = (omega arith, (omega arith, tt), (omega arith, tt, tt))

-- The theorems at these queues.
-- the element with the data 7 is linked in behind 8 and not counted
abbrev several_calls : List (tiny_state.Queue.Run.Call ℕ)
several_calls =
    inserts (pos 5) 8
    ∷ inserts max_integer64 9
    ∷ inserts_near (λ x. if x == 8 then pos 1 else pos 0) (pos 0) 7
    ∷ inserts_all two.chain
    ∷ deletes
    ∷ deletes_where (λ x. x == 9)
    ∷ []

run-IsValid_example :
    IsValid (recounted (behind several_calls empty 0) (run several_calls empty))
    × (behind several_calls empty 0 ≤ nears several_calls)
run-IsValid_example = run-IsValid several_calls

behind_example : behind several_calls empty 0 ≡ 1
unfolding behind ins empty ins_near answers
behind_example = refl

ins_by_key_example :
    (entries (ins (pos 4) 9 two)
      ≡ map entry (select (stays_ahead (keeps_ties two (pos 4)) (pos 4)) two.chain)
        ++ (pos 4, 9)
          ∷ map entry (select (falls_behind (keeps_ties two (pos 4)) (pos 4)) two.chain))
    × Ascending (ins (pos 4) 9 two).chain
ins_by_key_example = ins_by_key (pos 4) 9 two two-IsValid two-Ascending (omega arith)

ins_fifo_example : entries (ins max_integer64 9 two) ≡ entries two ++ (max_integer64, 9) ∷ []
ins_fifo_example = ins_fifo 9 two two-IsValid

del_where_example :
    del_where (λ x. x == 8) two
    ≡ removed two (without (λ x. x == 8) two.chain) (find (λ x. x == 8) two.chain)
del_where_example = del_where_lem (λ x. x == 8) two two-IsValid

copy_example : IsValid (copy two) × (entries (copy two) ≡ unkeyed two.chain)
copy_example = copy_lem two

abbrev evens_out : ℕ → ℤ
evens_out x = if x == 8 then pos 1 else pos 0

move_example :
    (d' : Queue ℕ) × ((move evens_out two (some two)).1 ≡ some d')
    × IsValid d'
    × (entries d' ≡ entries two ++ unkeyed (goes evens_out two.chain))
    × ((move evens_out two (some two)).0.chain ≡ stays evens_out two.chain)
    × ((move evens_out two (some two)).2 ≡ length (goes evens_out two.chain))
    × IsValid (move evens_out two (some two)).0
    × Perm (goes evens_out two.chain ++ stays evens_out two.chain) two.chain
move_example = move_lem evens_out two two two-IsValid two-IsValid

abbrev by_value : ℕ → ℕ → ℤ
by_value a b = pos b -ℤ pos a

by_value-IsPreorder : IsPreorder by_value
by_value-IsPreorder = record {
  flip = λ a b h. omega (int_laws, h);
  trans = λ a b c h g. omega (int_laws, h, g);
}

sort_example :
    IsValid (sort by_value two)
    × IsSorted by_value by_value-IsPreorder (sort by_value two).chain
    × Perm (items (sort by_value two).chain) (items two.chain)
sort_example = sort_lem by_value by_value-IsPreorder two

ins_near_example :
    (length (ins_near evens_out (pos 0) 9 two).chain ≡ 3)
    × ((ins_near evens_out (pos 0) 9 two).count ≡ pos 2)
    × ¬ IsValid (ins_near evens_out (pos 0) 9 two)
ins_near_example = ins_near-miscounts evens_out (pos 0) 9 two two-IsValid (inr (inl (λ e. cc e)))

abbrev turns : List Turn
turns = waits (pos 5) 1 ∷ waits (pos 2) 2 ∷ waits (pos 5) 3 ∷ serves ∷ serves ∷ []

served_example : served turns (new false) ≡ served_linked turns (record empty { ins_neq = false })
served_example =
    served-refines false turns (omega arith, (omega arith, (omega arith, (tt, (tt, tt)))))

drain_all_example : drain_all two ≡ items two.chain
drain_all_example = drain_all-items two two-IsValid

abbrev three_wait : WaitQueue
three_wait = record {
  bucket = (pos 1, 5 ∷ []) ∷ (pos 2, 6 ∷ 7 ∷ []) ∷ [];
  idx = 5 ∷ 6 ∷ 7 ∷ [];
  count = pos 3;
  ins_neq = true;
}

wake_up_to_all_example : (wake_up_to 4 three_wait).0 ≡ names (flat three_wait.bucket)
wake_up_to_all_example =
    wake_up_to_all three_wait ((λ e. cc e), (omega arith, tt), ((λ e. cc e), tt, tt))

run-WithinLimit_example :
    (z : System.System) × (System.run
        (System.asks (pos 1) 7 ∷ System.asks (pos 1) 8 ∷ System.gives ∷ [])
        (System.start (pos 1))
      ≡ some z)
    × System.WithinLimit z
run-WithinLimit_example =
    run-WithinLimit (pos 1) (System.asks (pos 1) 7 ∷ System.asks (pos 1) 8 ∷ System.gives ∷ [])
      (omega arith)

run-Balanced_example : Counting.Balanced 1 (
    Counting.run
      (Counting.asks (pos 1) 7 ∷ Counting.asks (pos 1) 8 ∷ Counting.gives ∷ [])
      (Counting.start 1))
run-Balanced_example =
    run-Balanced 1 (Counting.asks (pos 1) 7 ∷ Counting.asks (pos 1) 8 ∷ Counting.gives ∷ [])

abbrev lock_history : List Locking.Event
lock_history =
    Locking.asks_read 1
    ∷ Locking.asks_write 2
    ∷ Locking.gives_read 1
    ∷ Locking.asks_write 2
    ∷ Locking.asks_read 3
    ∷ []

run-Excluding_example : Locking.Excluding (Locking.run lock_history Locking.start)
run-Excluding_example = run-Excluding lock_history

abbrev some_event : Event
some_event = record { type = 15; source = 1; msg = pos 0 }

abbrev machine_calls : List Call
machine_calls = handles false some_event ∷ destroys ∷ handles true some_event ∷ []

live-AtRest_example :
    OnSome
      (Rests base_table base base-IsDerived)
      (live base_table base 20 machine_calls (born 1 2 false) tt)
live-AtRest_example = live-AtRest base_table base base-IsDerived 20 machine_calls 1 2 false tt

not_stopped : (born 1 2 false).destroy_stop ≡ false
unfolding born
not_stopped = refl

apply-Rests_example :
    Yields
      (Rests base_table base base-IsDerived)
      (apply base_table base 12 destroys (born 1 2 false, tt))
apply-Rests_example =
    apply-Rests base_table base base-IsDerived base_rank base-Descending 10 destroys
      (born 1 2 false) tt (born-AtRest base_table base base-IsDerived 1 2 false)
      (rank_bound (name_of (born 1 2 false).state)) not_stopped

chain-base_example : Goes true (born 1 2 false) (
    chain base_table base
      (rounds 0)
      some_event
      (record { machine = alive false true false (born 1 2 false); user = tt; do_ins = false }))
chain-base_example = chain-base 0 some_event (born 1 2 false) false true false false

accessed_example :
    let n =
      accessed base_table (posts some_event ∷ posts some_event ∷ takes ∷ []) (born 1 2 false) in
    Consistent n.mask n.occur n.que
accessed_example =
    accessed-Consistent base_table (posts some_event ∷ posts some_event ∷ takes ∷ [])
      (born 1 2 false) (AtRest.consistent (born-AtRest base_table base base-IsDerived 1 2 false))

abbrev small_heap : Tree ℕ
small_heap = node (pos 3) 8 (pos 2) (single (pos 5) 9) leaf

small_heap-IsBalanced : IsBalanced small_heap
small_heap-IsBalanced = (
  refl,
  omega arith,
  omega arith,
  (λ e. refl),
  (refl, omega arith, omega arith, (λ e. refl), tt, tt),
  tt,
)

small_heap-IsOrdered : IsOrdered small_heap
small_heap-IsOrdered = (omega arith, tt, (tt, tt, tt, tt), tt)

heap-ins_example : Inserted (pos 2) 7 small_heap (HalfOrder.ins (pos 2) 7 small_heap)
heap-ins_example = ins_lem (pos 2) 7 small_heap small_heap-IsBalanced small_heap-IsOrdered

heap-del_example :
    (t' : Tree ℕ) × (HalfOrder.del small_heap ≡ some (some (pos 3, 8), t'))
    × Deleted (pos 3) 8 small_heap t'
heap-del_example =
    HalfOrder.Delete.del_lem (pos 3) 8 (pos 2) (single (pos 5) 9) leaf small_heap-IsBalanced
      small_heap-IsOrdered

abbrev two_threads : List Action
two_threads =
    calls 1 1 5
    ∷ calls 2 1 7
    ∷ loads 1
    ∷ loads 2
    ∷ tries 2 false
    ∷ tries 1 false
    ∷ tries 1 false
    ∷ []

run-Sound_example : Sound (Clock.run two_threads Clock.start)
run-Sound_example = run-Sound two_threads

abbrev acquaintance : List History.Call
acquaintance = listens 1 2 3 ∷ listens 4 2 3 ∷ listens 2 1 5 ∷ removes 1 ∷ dies 2 ∷ []

-- a machine registers with another between the cleanup of that machine and its store of `ZOM`
abbrev late_arrival : List Move
late_arrival =
    calls (listens 1 2 3)
    ∷ calls (listens 4 2 3)
    ∷ calls (removes 1)
    ∷ cleans 2
    ∷ calls (listens 5 2 3)
    ∷ settles 2
    ∷ []

abbrev after_arrival : World
after_arrival = moves late_arrival History.start

run-Linked_example :
    Linked after_arrival
    × ((h s t : ℕ)
        → (was_removed h late_arrival History.start && member h (after_arrival.event_listener s t))
          ≡ false)
    × ((h l : ℕ)
        → (was_removed h late_arrival History.start && member h (after_arrival.handle_list l))
          ≡ false)
run-Linked_example = run-Linked late_arrival

was_removed_example : was_removed 1 late_arrival History.start ≡ true
unfolding was_removed moves tiny_state.Listeners.listen History.start
was_removed_example = refl

-- that registration stays at the dead machine
outlives : (after_arrival.event_listener 2 3 ≡ 2 ∷ []) × (after_arrival.dead 2 ≡ true)
unfolding moves tiny_state.Listeners.settled tiny_state.Listeners.listen
    tiny_state.Listeners.cleaned History.start
outlives = (refl, refl)

abbrev acquainted : World
acquainted = History.run acquaintance History.start

acquainted_died : acquainted.dead 2 ≡ true
unfolding History.run tiny_state.Listeners.die
acquainted_died = refl

dead-silent_example :
    ((h : ℕ) → points_at (acquainted.handle h).listener 2 ≡ false)
    × ((t : ℕ) (except : Option ℕ) → invoke_listen 2 t except acquainted ≡ [])
dead-silent_example = dead-silent acquaintance 2 acquainted_died
