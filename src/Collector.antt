-- ===== src/Collector.antt =====
-- src/classes/ts2/c++/stdObject.cpp: the counts of references, the tree of buckets in which the
-- objects without a reference wait, and the thread that deletes them. An object is its address. A
-- count of -1, of an object that is deleted or not there yet, is none.
pub mod Counts
pub mod Keeps
pub mod Steps
pub mod Reports
pub mod Sweeps
pub mod History
pub mod Bounds
use tiny_state.Prelude.{
  ℕ, zero, suc, ◌+◌, ◌-◌, ◌*◌, ◌/◌, ◌%◌, Bool, true, false, not, ◌&&◌, ◌||◌, Option, none, some,
  List, [], ◌∷◌, ◌++◌, map, ◌==◌, leb, if◌then◌else◌, update,
}

-- what is left to do in the calls of `gc` on the stack of the collector's thread
pub data Task : Type 0 where
  -- `gc(id)`
  sweep : ℕ → Task
  -- a round of the loop over `target`
  deletes : ℕ → Task
  -- a round of the loop over `ev`
  raises : ℕ → Task

pub record World : Type 0 where
  pub ref : ℕ → Option ℕ
  -- `refEvent_num` and 1
  pub watch : ℕ → ℕ
  pub ref_list : ℕ → List ℕ
  -- the list from `refEventHead` to `refEventTail`
  pub ref_event : ℕ → List ℕ
  -- of a bucket, its bit in the `refFlags` of its parent
  pub flagged : ℕ → Bool
  -- where the calls of `relref` are that go up the tree
  pub climbing : List ℕ
  pub stack : List Task
  -- the references that the program holds
  pub held : ℕ → ℕ

-- `stdObject_REF_MUTEX_NUM`
abbrev pub buckets : ℕ
buckets = 101

-- `doID`
abbrev pub bucket : ℕ → ℕ
bucket x = x % buckets

-- the end of a critical section that puts work into a bucket: at the root the collector is woken
unfoldable pub reported : ℕ → World → World
reported id w = if id == 0 then w else record w { climbing = id ∷ w.climbing }

-- the critical section of `relref`
unfoldable pub queued : ℕ → World → World
unfolding reported
queued x w = reported (bucket x) record w {
  watch = update x 0 w.watch;
  ref_event = update (bucket x) (w.ref_event (bucket x) ++ x ∷ []) w.ref_event;
}

unfoldable pub listed : ℕ → World → World
unfolding reported
listed x w =
    reported (bucket x)
      record w { ref_list = update (bucket x) (x ∷ w.ref_list (bucket x)) w.ref_list }

unfoldable pub counted_down : ℕ → ℕ → World → World
unfolding listed
counted_down x r w =
    let v = record w { ref = update x (some r) w.ref } in if r == 0 then listed x v else v

unfoldable pub relref_at : Option ℕ → ℕ → World → Option World
unfolding queued counted_down
relref_at none x w = some w
relref_at (some zero) x w = none
relref_at (some (suc r)) x w =
    some (if leb (suc r) (w.watch x) then queued x w else counted_down x r w)

-- `relref`, up to its loop; none is a panic
unfoldable pub relref : ℕ → World → Option World
unfolding relref_at
relref x w = relref_at (w.ref x) x w

abbrev pub within : ℕ → List ℕ → Bool
within i [] = false
within i (j ∷ js) = i == j || within i js

abbrev pub without_one : ℕ → List ℕ → List ℕ
without_one i [] = []
without_one i (j ∷ js) = if i == j then js else j ∷ without_one i js

-- a round of the loop of `relref`
unfoldable pub climb : ℕ → World → World
unfolding reported
climb id w =
    let v = record w { climbing = without_one id w.climbing } in
    if w.flagged id
    then v
    else reported ((id - 1) / 2) (record v { flagged = update id true w.flagged })

-- whether somebody refers to an object: a call of `addref` reaches it by such a reference
abbrev pub is_referred : Option ℕ → Bool
is_referred none = false
is_referred (some zero) = false
is_referred (some (suc r)) = true

unfoldable pub addref_at : Option ℕ → ℕ → World → World
addref_at none x w = w
addref_at (some r) x w = record w {
  ref = update x (some (suc r)) w.ref;
  held = update x (suc (w.held x)) w.held;
}

-- `addref`
unfoldable pub addref : ℕ → World → World
unfolding addref_at
addref x w = addref_at (w.ref x) x w

abbrev pub when_flagged : Bool → ℕ → List Task
when_flagged true id = sweep id ∷ []
when_flagged false id = []

-- the beginning of `gc(id)`
unfoldable pub swept : ℕ → List Task → World → World
swept id ts w = record w {
  ref_list = update id [] w.ref_list;
  ref_event = update id [] w.ref_event;
  flagged = update (id * 2 + 1) false (update (id * 2 + 2) false w.flagged);
  stack =
      map deletes (w.ref_list id)
      ++ (map raises (w.ref_event id)
          ++ (when_flagged (w.flagged (id * 2 + 1)) (id * 2 + 1)
              ++ (when_flagged (w.flagged (id * 2 + 2)) (id * 2 + 2) ++ ts)));
}

unfoldable pub deleted_at : Option ℕ → ℕ → World → Option World
deleted_at (some zero) x w = some record w { ref = update x none w.ref }
deleted_at (some (suc r)) x w = none
deleted_at none x w = none

abbrev pub is_nil : List ℕ → Bool
is_nil [] = true
is_nil (x ∷ xs) = false

-- whether a bucket has no work
unfoldable pub at_rest : ℕ → World → Bool
at_rest id w =
    is_nil (w.ref_list id)
    && not (w.flagged (id * 2 + 1))
    && not (w.flagged (id * 2 + 2))
    && is_nil (w.ref_event id)

-- `is_stable`
unfoldable pub is_stable : World → Bool
unfolding at_rest
is_stable w = at_rest 0 w

-- a step of the collector's thread: of the loop of `gc_thread`, or of `gc`
unfoldable pub collect : List Task → World → Option World
unfolding is_stable swept deleted_at relref
collect [] w = some (if is_stable w then w else record w { stack = sweep 0 ∷ [] })
collect (sweep id ∷ ts) w = some (swept id ts w)
collect (deletes x ∷ ts) w = deleted_at (w.ref x) x (record w { stack = ts })
collect (raises x ∷ ts) w = relref x (record w { stack = ts })

-- what happens in the program, in the order of the critical sections
pub data Action : Type 0 where
  -- an object is made, which `nRefEvent` is called on
  creates : ℕ → ℕ → Action
  copies : ℕ → Action
  drops : ℕ → Action
  -- `nRefEvent(-1)`
  disarms : ℕ → Action
  climbs : ℕ → Action
  collects : Action

abbrev pub created : Option ℕ → ℕ → ℕ → World → World
created none x n w = record w {
  ref = update x (some 1) w.ref;
  watch = update x n w.watch;
  held = update x 1 w.held;
}
created (some r) x n w = w

-- a reference that is held is given back
unfoldable pub dropped : ℕ → ℕ → World → Option World
unfolding relref
dropped zero x w = some w
dropped (suc h) x w = relref x (record w { held = update x h w.held })

-- an action that nobody can take at this point changes nothing
unfoldable pub step : Action → World → Option World
unfolding dropped addref climb collect
step (creates x n) w = some (created (w.ref x) x n w)
step (copies x) w = some (if is_referred (w.ref x) then addref x w else w)
step (drops x) w = dropped (w.held x) x w
step (disarms x) w = some record w { watch = update x 0 w.watch }
step (climbs id) w = some (if within id w.climbing then climb id w else w)
step collects w = collect w.stack w

abbrev pub then_run : (World → Option World) → Option World → Option World
then_run f none = none
then_run f (some w) = f w

unfoldable pub run : List Action → World → Option World
unfolding step
run [] w = some w
run (a ∷ as') w = then_run (λ v. run as' v) (step a w)

-- before the first object
unfoldable pub start : World
start = record {
  ref = λ x. none;
  watch = λ x. 0;
  ref_list = λ id. [];
  ref_event = λ id. [];
  flagged = λ id. false;
  climbing = [];
  stack = [];
  held = λ x. 0;
}
