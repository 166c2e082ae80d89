-- ===== src/Examples/Trees.antt =====
-- Concrete radix trees.
use tiny_state.Prelude.{ℕ, ◌≡◌, refl, true, false, some, List, [], ◌∷◌}
use tiny_state.StringTree.{common, empty, ins, del, search, search_prefix}
use tiny_state.StringTree.Best.{best}
use tiny_state.StringTree.History.{
  Call, inserts, deletes, run, contents, nowhere, run-search, run-longest,
}

-- "ab" with the flag, "abcd", "abce", and "ab" again after a deletion of "abcd"
abbrev calls : List (Call ℕ)
calls =
    inserts (97 ∷ 98 ∷ []) (some 1) true
    ∷ inserts (97 ∷ 98 ∷ 99 ∷ 100 ∷ []) (some 2) false
    ∷ inserts (97 ∷ 98 ∷ 99 ∷ 101 ∷ []) (some 3) false
    ∷ deletes (97 ∷ 98 ∷ 99 ∷ 100 ∷ [])
    ∷ []

finds_e : search (97 ∷ 98 ∷ 99 ∷ 101 ∷ []) (run calls empty) ≡ some 3
unfolding run search ins del empty common
finds_e = refl

finds_prefix : search_prefix (97 ∷ 98 ∷ 99 ∷ 102 ∷ []) (run calls empty) ≡ (some 1, 2)
unfolding run search_prefix ins del empty common
finds_prefix = refl

run-search_example :
    (search (97 ∷ 98 ∷ []) (run calls empty) ≡ (contents calls nowhere (97 ∷ 98 ∷ [])).0)
    × ((del (97 ∷ 98 ∷ []) (run calls empty)).0 ≡ (contents calls nowhere (97 ∷ 98 ∷ [])).0)
run-search_example = run-search calls (97 ∷ 98 ∷ [])

run-longest_example :
    search_prefix (97 ∷ 98 ∷ 99 ∷ 102 ∷ []) (run calls empty)
    ≡ best (contents calls nowhere) (97 ∷ 98 ∷ 99 ∷ 102 ∷ [])
run-longest_example = run-longest calls (97 ∷ 98 ∷ 99 ∷ 102 ∷ [])
