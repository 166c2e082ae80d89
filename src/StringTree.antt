-- ===== src/StringTree.antt =====
-- src/classes/ts2/c++/stdStringTree.cpp and src/h/ts2/c++/stdStringTree.h: a radix tree. A key is
-- the list of its characters before the terminator.
pub mod Keys
pub mod Lookup
pub mod Insert
pub mod Placed
pub mod Delete
pub mod Longest
pub mod Best
pub mod History
use tiny_state.Prelude.{
  ℕ, ◌+◌, Bool, true, false, Option, none, some, List, [], ◌∷◌, ◌++◌, ◌==◌, if◌then◌else◌, length,
  drop, take, suc, zero,
}

-- a list of siblings, linked by next; each has its string, its object and its children
pub data Nodes {ℓ} (A : Type ℓ) : Type ℓ where
  null : Nodes A
  node : List ℕ → Option A → Bool → Nodes A → Nodes A → Nodes A

-- the tree itself, a node whose string is not used
pub record Tree {ℓ} (A : Type ℓ) : Type ℓ where
  pub obj : Option A
  pub partial_flag : Bool
  pub list : Nodes A

-- `clen` of `match`: how far the string of a node and a key agree
unfoldable pub common : List ℕ → List ℕ → ℕ
common [] k = 0
common (c ∷ s) [] = 0
common (c ∷ s) (d ∷ k) = if c == d then suc (common s k) else 0

abbrev pub is_empty : List ℕ → Bool
is_empty [] = true
is_empty (c ∷ k) = false

module _ {ℓ} {A : Type ℓ} where
  unfoldable pub empty : Tree A
  empty = record { obj = none; partial_flag = false; list = null }

  -- the end of `ins`: no node of the list starts like the key
  abbrev pub pushed : List ℕ → Option A → Bool → Nodes A → Option (Nodes A) → Nodes A
  pushed k o p l none = node k o p null l
  pushed k o p l (some l') = l'

  -- `elp->ins(&ix[clen],..)` for a node whose whole string agrees with the key
  abbrev pub ins_below :
      List ℕ
      → Option A
      → Bool
      → List ℕ
      → Option A
      → Bool
      → Nodes A
      → Nodes A
      → Option (Nodes A)
      → Nodes A
  ins_below k o p s b q l n deep =
      if is_empty k then node s o p l n else node s b q (pushed k o p l deep) n

  -- the loop of `ins`
  unfoldable pub ins_loop : List ℕ → Option A → Bool → Nodes A → Option (Nodes A)
  ins_loop k o p null = none
  ins_loop k o p (node s b q l n) =
      let clen = common s k in
      let rest = ins_loop k o p n in
      let deep = ins_loop (drop clen k) o p l in
      if clen == 0
      then elim rest [ none ↦ none | some n' ↦ some (node s b q l n') ]
      else if clen == length s
      then some (ins_below (drop clen k) o p s b q l n deep)
      else if clen == length k
      then some (node (take clen s) o p (node (drop clen s) b q l null) n)
      else some (
          node (take clen s) none false
            (node (drop clen s) b q l (node (drop clen k) o p null null)) n)

  -- `ins(key,obj,partial_flag)`
  unfoldable pub ins : List ℕ → Option A → Bool → Tree A → Tree A
  unfolding ins_loop
  ins k o p t =
      if is_empty k
      then record t { obj = o; partial_flag = p }
      else record t { list = pushed k o p t.list (ins_loop k o p t.list) }

  -- the loop of `search(key,len)`
  unfoldable pub search_loop : List ℕ → Nodes A → Option A
  search_loop k null = none
  search_loop k (node s b q l n) =
      let clen = common s k in
      let rest = search_loop k n in
      let deep = search_loop (drop clen k) l in
      if clen == 0
      then rest
      else if clen == length s
      then (if is_empty (drop clen k) then b else deep)
      else none

  unfoldable pub search : List ℕ → Tree A → Option A
  unfolding search_loop
  search k t = if is_empty k then t.obj else search_loop k t.list

  -- what `del` leaves of a node below which it has deleted
  abbrev pub joined : List ℕ → Bool → Nodes A → Nodes A → Nodes A
  joined s q null n = n
  joined s q (node r c u m null) n = node (s ++ r) c u m n
  joined s q (node r c u m (node r' c' u' m' n')) n =
      node s none q (node r c u m (node r' c' u' m' n')) n

  abbrev pub tidied : List ℕ → Option A → Bool → Nodes A → Nodes A → Nodes A
  tidied s (some b) q l n = node s (some b) q l n
  tidied s none q l n = joined s q l n

  -- the loop of `del(key,len)`
  unfoldable pub del_loop : List ℕ → Nodes A → Option A × Nodes A
  del_loop k null = (none, null)
  del_loop k (node s b q l n) =
      let clen = common s k in
      let rest = del_loop k n in
      let deep = del_loop (drop clen k) l in
      if clen == 0
      then (rest.0, node s b q l rest.1)
      else if clen == length s
      then (if is_empty (drop clen k)
          then (b, tidied s none false l n)
          else (deep.0, tidied s b q deep.1 n))
      else (none, node s b q l n)

  unfoldable pub del : List ℕ → Tree A → Option A × Tree A
  unfolding del_loop
  del k t =
      if is_empty k
      then (t.obj, record t { obj = none; partial_flag = false })
      else (let r = del_loop k t.list in (r.0, record t { list = r.1 }))

  -- `search(key,len,olast,m_ptr)`: the object so far and the number of characters that it takes, at
  -- a node that the whole key reaches, and at a node that a part of it reaches
  abbrev pub arrived : Option A → ℕ → Option A × ℕ → Option A × ℕ
  arrived none at r = r
  arrived (some x) at r = (some x, at)

  abbrev pub kept_last : Option A → Bool → ℕ → Option A × ℕ → Option A × ℕ
  kept_last none q at r = r
  kept_last (some x) q at r = if q then (some x, at) else r

  unfoldable pub scan : ℕ → List ℕ → Option A × ℕ → Nodes A → Option A × ℕ
  scan at k r null = r
  scan at k r (node s b q l n) =
      let clen = common s k in
      let rest = scan at k r n in
      let deep = scan (at + clen) (drop clen k) (kept_last b q (at + clen) r) l in
      if clen == 0
      then rest
      else if clen == length s
      then (if is_empty (drop clen k) then arrived b (at + clen) r else deep)
      else r

  abbrev pub matched : Option A × ℕ → Option A × ℕ
  matched (none, m) = (none, 0)
  matched (some x, m) = (some x, m)

  -- `search(match_len,key)`
  unfoldable pub search_prefix : List ℕ → Tree A → Option A × ℕ
  unfolding scan
  search_prefix k t = matched (
      if is_empty k
      then arrived t.obj 0 (none, 0)
      else scan 0 k (kept_last t.obj t.partial_flag 0 (none, 0)) t.list)

  unfoldable pub count_list : Nodes A → ℕ
  count_list null = 0
  count_list (node s b q l n) = (elim b [ none ↦ 0 | some x ↦ 1 ]) + count_list l + count_list n

  unfoldable pub count : Tree A → ℕ
  unfolding count_list
  count t = (elim t.obj [ none ↦ 0 | some x ↦ 1 ]) + count_list t.list
