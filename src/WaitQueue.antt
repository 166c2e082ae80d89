-- ===== src/WaitQueue.antt =====
-- stdLimitSemaphore.cpp, class stdLimitSemaphoreWait: the wait queue as a map from priorities to
-- lists, with an index of who is queued. A `std::map` is the list of its pairs in ascending order,
-- an `unordered_set` the list of its members. Waiters are addresses.
pub mod Order
pub mod Agrees
pub mod Refines
use tiny_state.Prelude.{
  ℕ, suc, ◌+◌, ◌≡◌, Bool, true, false, Option, none, some, List, [], ◌∷◌, ◌++◌, ◌||◌, ◌==◌,
  if◌then◌else◌,
}
use tiny_state.Prelude.Int.{ℤ, pos, ◌+ℤ◌, ◌-ℤ◌, ltb_ℤ, eqb_ℤ}
use tiny_state.Queue.{max_integer64}

abbrev pub Buckets : Type 0
Buckets = List (ℤ × List ℕ)

pub record WaitQueue : Type 0 where
  pub bucket : Buckets
  pub idx : List ℕ
  pub count : ℤ
  pub ins_neq : Bool

unfoldable pub new : Bool → WaitQueue
new neq = record { bucket = []; idx = []; count = pos 0; ins_neq = neq }

-- `push_back` or `push_front`
abbrev pub join : Bool → ℕ → List ℕ → List ℕ
join true x l = l ++ x ∷ []
join false x l = x ∷ l

-- `bucket[key]`, which makes an empty list for a new key, and the push on it
unfoldable pub put : Bool → ℤ → ℕ → Buckets → Buckets
put back k x [] = (k, x ∷ []) ∷ []
put back k x ((j, l) ∷ m) =
    if ltb_ℤ k j
    then (k, x ∷ []) ∷ (j, l) ∷ m
    else if eqb_ℤ k j
    then (j, join back x l) ∷ m
    else (j, l) ∷ put back k x m

abbrev pub member : ℕ → List ℕ → Bool
member x [] = false
member x (y ∷ ys) = if x == y then true else member x ys

-- `idx.insert` and `idx.erase`
unfoldable pub idx_insert : ℕ → List ℕ → List ℕ
idx_insert x s = if member x s then s else x ∷ s

unfoldable pub idx_erase : ℕ → List ℕ → List ℕ
idx_erase x [] = []
idx_erase x (y ∷ ys) = if x == y then ys else y ∷ idx_erase x ys

-- `w_ins`
unfoldable pub w_ins : ℤ → ℕ → WaitQueue → WaitQueue
unfolding put idx_insert
w_ins k x w = record w {
  bucket = put (w.ins_neq || eqb_ℤ k max_integer64) k x w.bucket;
  idx = idx_insert x w.idx;
  count = w.count +ℤ pos 1;
}

-- `w_has`
unfoldable pub w_has : ℕ → WaitQueue → Bool
w_has x w = member x w.idx

-- the first bucket less its head; `front` of an empty list is undefined, and `IsWell` rules it out
unfoldable pub pop_front : Buckets → Option (ℕ × Buckets)
pop_front [] = none
pop_front ((j, []) ∷ m) = none
pop_front ((j, x ∷ []) ∷ m) = some (x, m)
pop_front ((j, x ∷ y ∷ l) ∷ m) = some (x, (j, y ∷ l) ∷ m)

unfoldable pub w_taken : WaitQueue → Option (ℕ × Buckets) → Option ℕ × WaitQueue
unfolding idx_erase
w_taken w none = (none, w)
w_taken w (some (x, m)) =
    (some x, record w { bucket = m; idx = idx_erase x w.idx; count = w.count -ℤ pos 1 })

-- `w_del`
unfoldable pub w_del : WaitQueue → Option ℕ × WaitQueue
unfolding pop_front w_taken
w_del w = w_taken w (pop_front w.bucket)
