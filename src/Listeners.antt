-- ===== src/Listeners.antt =====
-- tinyState.cpp and stdEventHandle.cpp: who listens to whom. A machine is the address of a
-- tinyState, a handle that of a stdEventHandle. The queue of the handles of one type, absent or
-- not, is a list, in order; so is the list of the handles that a machine listens by.
pub mod Linked
pub mod Removal
pub mod Popped
pub mod Death
pub mod Gone
pub mod Removed
pub mod History
pub mod Silent
pub use tiny_state.Prelude.{update}
use tiny_state.Prelude.{
  ℕ, zero, suc, Bool, true, false, Option, none, some, List, [], ◌∷◌, ◌++◌, ◌==◌, leb,
  if◌then◌else◌,
}

-- `TSE_MAX`
abbrev pub tse_max : ℕ
tse_max = 21

pub record Handle : Type 0 where
  pub source : Option ℕ
  pub listener : Option ℕ
  pub type : ℕ

-- `dead` is the state `ZOM`.
pub record World : Type 0 where
  pub dead : ℕ → Bool
  pub event_listener : ℕ → ℕ → List ℕ
  pub handle_list : ℕ → List ℕ
  pub handle : ℕ → Handle
  -- the next address that an allocation gives out
  pub fresh : ℕ

abbrev pub at_table : ℕ → ℕ → List ℕ → (ℕ → ℕ → List ℕ) → ℕ → ℕ → List ℕ
at_table s t xs f = update s (update t xs (f s)) f

abbrev pub points_at : Option ℕ → ℕ → Bool
points_at none l = false
points_at (some x) l = x == l

unfoldable pub first_of : ℕ → (ℕ → Handle) → List ℕ → Option ℕ
first_of l f [] = none
first_of l f (h ∷ hs) = if points_at (f h).listener l then some h else first_of l f hs

-- `search_listen`
unfoldable pub search_listen : ℕ → ℕ → ℕ → World → Option ℕ
unfolding first_of
search_listen s t l w =
    if t == 0
    then none
    else if leb tse_max t
    then none
    else first_of l w.handle (w.event_listener s t)

-- the registration in `add_listener`, at both ends
unfoldable pub register : ℕ → ℕ → ℕ → World → World
register s l t w = record w {
  event_listener = at_table s t (w.event_listener s t ++ w.fresh ∷ []) w.event_listener;
  handle_list = update l (w.fresh ∷ w.handle_list l) w.handle_list;
  handle = update w.fresh (record { source = some s; listener = some l; type = t }) w.handle;
  fresh = suc w.fresh;
}

-- `add_listener`
unfoldable pub add_listener : ℕ → ℕ → ℕ → World → Option ℕ × World
unfolding register
add_listener s l t w =
    if leb tse_max t
    then (none, w)
    else if w.dead s
    then (none, w)
    else if w.dead l
    then (none, w)
    else (some w.fresh, register s l t w)

unfoldable pub listen_at : Option ℕ → ℕ → ℕ → ℕ → World → Option ℕ × World
unfolding add_listener
listen_at none s l t w = add_listener s l t w
listen_at (some h) s l t w = (some h, w)

-- `listen`, with a listener that is not null
unfoldable pub listen : ℕ → ℕ → ℕ → World → Option ℕ × World
unfolding listen_at search_listen
listen s l t w = listen_at (search_listen s t l w) s l t w

-- `del(eh, 0)` on a queue of handles
unfoldable pub without : ℕ → List ℕ → List ℕ
without h [] = []
without h (x ∷ xs) = if x == h then xs else x ∷ without h xs

unfoldable pub forget_source : Option ℕ → ℕ → World → World
unfolding without
forget_source none h w = w
forget_source (some s) h w =
    let t = (w.handle h).type in
    record w { event_listener = at_table s t (without h (w.event_listener s t)) w.event_listener }

unfoldable pub forget_listener : Option ℕ → ℕ → World → World
unfolding without
forget_listener none h w = w
forget_listener (some l) h w = record w {
  handle_list = update l (without h (w.handle_list l)) w.handle_list;
}

-- the two pointers of a handle are cleared
unfoldable pub cleared : ℕ → World → World
cleared h w = record w {
  handle = update h (record { source = none; listener = none; type = (w.handle h).type }) w.handle;
}

-- `stdEventHandle::remove`, with `remove_listener` at the source and `remove_handle` at the listener
unfoldable pub remove : ℕ → World → World
unfolding forget_source forget_listener cleared
remove h w =
    forget_listener (w.handle h).listener h (forget_source (w.handle h).source h (cleared h w))

-- the loop that takes the handles of a machine out of its list and removes each
unfoldable pub remove_handles : ℕ → List ℕ → World → World
unfolding remove
remove_handles s [] w = w
remove_handles s (h ∷ hs) w =
    remove_handles s hs (remove h (record w { handle_list = update s hs w.handle_list }))

-- the loop over the queue of one type
unfoldable pub remove_queue : ℕ → ℕ → List ℕ → World → World
unfolding remove
remove_queue s t [] w = w
remove_queue s t (h ∷ hs) w =
    remove_queue s t hs (remove h (record w { event_listener = at_table s t hs w.event_listener }))

-- the queues of the types below a bound
unfoldable pub remove_types : ℕ → ℕ → World → World
unfolding remove_queue
remove_types s zero w = w
remove_types s (suc t) w = let v = remove_types s t w in remove_queue s t (v.event_listener s t) v

-- what `ZOM_TINYSTATE_LAST2` does to the handles of a machine, which is then still on its way to `ZOM`
unfoldable pub cleaned : ℕ → World → World
unfolding remove_types remove_handles
cleaned s w =
    let v = remove_types s tse_max (remove_handles s (w.handle_list s) w) in
    record v { handle_list = update s [] v.handle_list }

-- the later store of `ZOM` to `_state`
unfoldable pub settled : ℕ → World → World
settled s w = record w { dead = update s true w.dead }

-- the two with nothing between them
unfoldable pub die : ℕ → World → World
unfolding cleaned settled
die s w = settled s (cleaned s w)

abbrev same : Option ℕ → Option ℕ → Bool
same none none = true
same none (some y) = false
same (some x) none = false
same (some x) (some y) = x == y

-- the loop over the handles, without those of `except`
unfoldable pub listeners_of : (ℕ → Handle) → Option ℕ → List ℕ → List (Option ℕ)
listeners_of f except [] = []
listeners_of f except (h ∷ hs) =
    let rest = listeners_of f except hs in
    if same (f h).listener except then rest else (f h).listener ∷ rest

-- `invoke_listen(ev, except)` without clearFlag: the listeners with which the handlers are called
unfoldable pub invoke_listen : ℕ → ℕ → Option ℕ → World → List (Option ℕ)
unfolding listeners_of
invoke_listen s t except w =
    if t == 0
    then []
    else if leb tse_max t
    then []
    else listeners_of w.handle except (w.event_listener s t)
