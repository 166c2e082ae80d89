-- ===== src/Sync/Callers.antt =====
-- What the histories of the synchronisation objects share: the callers that were woken.
use tiny_state.Prelude.{ℕ, suc, ◌≤◌, Option, none, some, List, [], ◌∷◌, arith, length}
use tiny_state.WaitQueue.{idx_erase}

abbrev pub also : Option ℕ → List ℕ → List ℕ
also none xs = xs
also (some x) xs = x ∷ xs

pub length-idx_erase : (x : ℕ) (xs : List ℕ) → length xs ≤ suc (length (idx_erase x xs))
unfolding idx_erase
length-idx_erase x [] = omega arith
length-idx_erase x (y ∷ xs) = ground (arith, length-idx_erase x xs)
