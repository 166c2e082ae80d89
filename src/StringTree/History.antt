-- ===== src/StringTree/History.antt =====
-- stdStringTree.cpp: histories of calls on a new tree.
use tiny_state.Prelude.{
  ℕ, ◌≡◌, refl, ap, ◌∙◌, Bool, true, false, Option, none, List, [], ◌∷◌, if◌then◌else◌, arith,
  fun_ext,
}
use tiny_state.StringTree.{Tree, empty, ins, del, search, search_prefix, matched}
use tiny_state.StringTree.Longest.{longest, search_prefix_lem}
use tiny_state.StringTree.Best.{best, longest-best}
use tiny_state.StringTree.Keys.{same}
use tiny_state.StringTree.Lookup.{shown, IsWell, entry, value, search-value}
use tiny_state.StringTree.Placed.{ins_lem}
use tiny_state.StringTree.Delete.{del_lem}

pub data Call {ℓ} (A : Type ℓ) : Type ℓ where
  inserts : List ℕ → Option A → Bool → Call A
  deletes : List ℕ → Call A

-- a map from keys to objects with their flags
abbrev pub Contents {ℓ} : Type ℓ → Type ℓ
Contents A = List ℕ → Option A × Bool

module _ {ℓ} {A : Type ℓ} where
  unfoldable pub step : Call A → Tree A → Tree A
  step (inserts k o p) t = ins k o p t
  step (deletes k) t = (del k t).1

  unfoldable pub run : List (Call A) → Tree A → Tree A
  unfolding step
  run [] t = t
  run (c ∷ cs) t = run cs (step c t)

  -- what a call means to it
  abbrev pub update : Call A → Contents A → Contents A
  update (inserts k o p) f j = if same k j then shown o p else f j
  update (deletes k) f j = if same k j then (none, false) else f j

  unfoldable pub contents : List (Call A) → Contents A → Contents A
  contents [] f = f
  contents (c ∷ cs) f = contents cs (update c f)

  abbrev pub StandsFor : Tree A → Contents A → Type ℓ
  StandsFor t f = IsWell t.list × ((j : List ℕ) → value j t ≡ f j)

  same_else :
      (b : Bool) (x y z : Option A × Bool)
      → y ≡ z
      → (if◌then◌else◌ {A = Option A × Bool} b x y) ≡ (if◌then◌else◌ {A = Option A × Bool} b x z)
  same_else true x y z e = refl
  same_else false x y z e = e

  step-StandsFor :
      (c : Call A) (t : Tree A) (f : Contents A) → StandsFor t f → StandsFor (step c t) (update c f)
  unfolding step
  step-StandsFor (inserts k o p) t f (w, e) =
      let (v, u) = ins_lem o p k t w in
      (v, λ j. u j ∙ same_else (same k j) (shown o p) (value j t) (f j) (e j))
  step-StandsFor (deletes k) t f (w, e) =
      let (r, v, u) = del_lem k t w in
      (v, λ j. u j ∙ same_else (same k j) (none, false) (value j t) (f j) (e j))

  pub run-StandsFor :
      (cs : List (Call A)) (t : Tree A) (f : Contents A)
      → StandsFor t f
      → StandsFor (run cs t) (contents cs f)
  unfolding run contents
  run-StandsFor [] t f h = h
  run-StandsFor (c ∷ cs) t f h = run-StandsFor cs (step c t) (update c f) (step-StandsFor c t f h)

  abbrev pub nowhere : Contents A
  nowhere j = (none, false)

  empty-StandsFor : StandsFor empty nowhere
  unfolding empty entry
  empty-StandsFor = (tt, λ j. ground arith)

  -- After every history of `ins` and `del` on a new tree, `search` and `del` of a key give the object
  -- of the last call for that key: that which was inserted, and none after a deletion or with no call.
  pub run-search :
      (cs : List (Call A)) (k : List ℕ)
      → (search k (run cs empty) ≡ (contents cs nowhere k).0)
        × ((del k (run cs empty)).0 ≡ (contents cs nowhere k).0)
  run-search cs k =
      let (w, e) = run-StandsFor cs empty nowhere empty-StandsFor in
      (
        search-value k (run cs empty) w ∙ ap (λ x. x.0) (e k),
        (del_lem k (run cs empty) w).0 ∙ ap (λ x. x.0) (e k),
      )

  -- After every history of `ins` and `del` on a new tree, `search(match_len,key)` gives the object of
  -- the key with its length, or else the object of the longest proper beginning of the key whose last
  -- call inserted it with the flag, with the length of that, or none and 0 where there is neither.
  pub run-longest :
      (cs : List (Call A)) (k : List ℕ)
      → search_prefix k (run cs empty) ≡ best (contents cs nowhere) k
  run-longest cs k =
      let (w, e) = run-StandsFor cs empty nowhere empty-StandsFor in
      search_prefix_lem k (run cs empty) w
      ∙ ap (λ f. matched (longest f 0 k (none, 0))) (fun_ext e)
      ∙ longest-best (contents cs nowhere) k
