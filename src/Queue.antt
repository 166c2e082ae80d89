-- ===== src/Queue.antt =====
-- stdQueue.h: the linked priority queue that the rest of the framework waits on.
-- A chain is the list of the elements that are reached from `head`. Each cell carries the address
-- that the allocation gave it, since `tail` is compared and written through as a pointer.
pub mod Valid
pub mod Remove
pub mod Order
pub mod Move
pub mod Run
pub mod Near
pub mod Placed
pub mod Recount
pub mod Sort
use tiny_state.Prelude.{
  ℕ, suc, ◌^◌, ◌-◌, ◌≡◌, Bool, true, false, Option, none, some, List, [], ◌∷◌, map, ltb, ◌==◌,
  if◌then◌else◌,
}
use tiny_state.Prelude.Int.{ℤ, pos, negsuc, ◌+ℤ◌, ◌-ℤ◌, ltb_ℤ, leb_ℤ, eqb_ℤ}

-- `MAX_INTEGER64`
abbrev pub max_integer64 : ℤ
max_integer64 = pos (2 ^ 63 - 1)

module _ {ℓ} where
  pub record Cell (A : Type ℓ) : Type ℓ where
    pub addr : ℕ
    pub key : ℤ
    pub item : A

  pub record Queue (A : Type ℓ) : Type ℓ where
    pub chain : List (Cell A)
    pub tail : Option ℕ
    pub count : ℤ
    pub ins_neq : Bool
    -- the next address that an allocation gives out
    pub fresh : ℕ

abbrev pub same_addr : Option ℕ → ℕ → Bool
same_addr none a = false
same_addr (some t) a = t == a

module _ {ℓ} {A : Type ℓ} where
  unfoldable pub empty : Queue A
  empty = record { chain = []; tail = none; count = pos 0; ins_neq = false; fresh = 0 }

  -- `thNEW(stdQueueElement, ())` with its key and data
  abbrev pub new_cell : Queue A → ℤ → A → Cell A
  new_cell q k x = record { addr = q.fresh; key = k; item = x }

  -- `tail->next = el`: what hung behind the tail is no longer reached
  unfoldable pub link_after : ℕ → Cell A → List (Cell A) → List (Cell A)
  link_after t el [] = []
  link_after t el (c ∷ cs) = if c.addr == t then c ∷ el ∷ [] else c ∷ link_after t el cs

  -- The store through `tail`. Through a null pointer it is undefined, which `IsValid` rules out.
  unfoldable pub link_tail : Option ℕ → Cell A → List (Cell A) → List (Cell A)
  link_tail none el cs = cs
  link_tail (some t) el cs = link_after t el cs

  -- the test under which the search for the place of a key stops at a cell
  unfoldable pub stops_at : Bool → ℤ → Cell A → Bool
  stops_at true k c = ltb_ℤ k c.key
  stops_at false k c = leb_ℤ k c.key

  unfoldable pub link_sorted : Bool → Cell A → List (Cell A) → List (Cell A)
  unfolding stops_at
  link_sorted neq el [] = el ∷ []
  link_sorted neq el (c ∷ cs) =
      if stops_at neq el.key c then el ∷ c ∷ cs else c ∷ link_sorted neq el cs

  -- `el->next == thNULL`
  unfoldable pub at_end : Bool → ℤ → List (Cell A) → Bool
  unfolding stops_at
  at_end neq k [] = true
  at_end neq k (c ∷ cs) = if stops_at neq k c then false else at_end neq k cs

  unfoldable pub ins_linked : Queue A → Cell A → Queue A
  unfolding link_tail link_after link_sorted at_end
  ins_linked q el =
      if eqb_ℤ el.key max_integer64
      then record q {
        chain = link_tail q.tail el q.chain;
        tail = some el.addr;
        count = q.count +ℤ pos 1;
        fresh = suc q.fresh;
      }
      else record q {
        chain = link_sorted q.ins_neq el q.chain;
        tail = if at_end q.ins_neq el.key q.chain then some el.addr else q.tail;
        count = q.count +ℤ pos 1;
        fresh = suc q.fresh;
      }

  unfoldable pub ins_first : Queue A → Cell A → Queue A
  ins_first q el = record q {
    chain = el ∷ [];
    tail = some el.addr;
    count = q.count +ℤ pos 1;
    fresh = suc q.fresh;
  }

  -- `head.is_notNull()`
  unfoldable pub ins_at : List (Cell A) → Cell A → Queue A → Queue A
  unfolding ins_first ins_linked
  ins_at [] el q = ins_first q el
  ins_at (c ∷ cs) el q = ins_linked q el

  -- `ins(key, data)`
  unfoldable pub ins : ℤ → A → Queue A → Queue A
  unfolding ins_at
  ins k x q = ins_at q.chain (new_cell q k x) q

  -- `ins(q)`
  unfoldable pub ins_all : List (Cell A) → Queue A → Queue A
  unfolding ins
  ins_all [] q = q
  ins_all (c ∷ cs) q = ins_all cs (ins max_integer64 c.item q)

  -- the head's new tail pointer, when the head element is taken off
  abbrev pub tail_without : List (Cell A) → Option ℕ → Option ℕ
  tail_without [] t = none
  tail_without (c ∷ cs) t = t

  unfoldable pub del_at : List (Cell A) → Queue A → Option A × Queue A
  del_at [] q = (none, q)
  del_at (c ∷ cs) q = (
    some c.item,
    record q { chain = cs; tail = tail_without cs q.tail; count = q.count -ℤ pos 1 },
  )

  -- `del()`
  unfoldable pub del : Queue A → Option A × Queue A
  unfolding del_at
  del q = del_at q.chain q

  abbrev pub keep_before :
      Cell A → Option (A × List (Cell A) × Option ℕ) → Option (A × List (Cell A) × Option ℕ)
  keep_before prev none = none
  keep_before prev (some (x, ds, t)) = some (x, prev ∷ ds, t)

  -- The loop of `del(cmp)` over the elements behind the head: the first that matches is unlinked
  -- from its predecessor, to which the tail moves if it was the tail.
  unfoldable pub unlink :
      (A → Bool) → Option ℕ → Cell A → List (Cell A) → Option (A × List (Cell A) × Option ℕ)
  unlink p t prev [] = none
  unlink p t prev (c ∷ cs) =
      let rest = unlink p t c cs in
      if p c.item
      then some (c.item, prev ∷ cs, if same_addr t c.addr then some prev.addr else t)
      else keep_before prev rest

  unfoldable pub take_out : Queue A → Option (A × List (Cell A) × Option ℕ) → Option A × Queue A
  take_out q none = (none, q)
  take_out q (some (x, ds, t)) =
      (some x, record q { chain = ds; tail = t; count = q.count -ℤ pos 1 })

  unfoldable pub del_where_at : (A → Bool) → List (Cell A) → Queue A → Option A × Queue A
  unfolding del unlink take_out
  del_where_at p [] q = (none, q)
  del_where_at p (c ∷ cs) q = if p c.item then del q else take_out q (unlink p q.tail c cs)

  -- `del(cmp)`; `del(data, cmp)` is this at the predicate `cmp(·, data)`
  unfoldable pub del_where : (A → Bool) → Queue A → Option A × Queue A
  unfolding del_where_at
  del_where p q = del_where_at p q.chain q

  unfoldable pub find : (A → Bool) → List (Cell A) → Option A
  find p [] = none
  find p (c ∷ cs) = if p c.item then some c.item else find p cs

  -- `check(func)`; `check(data, cmp)` is this at the predicate `cmp(·, data)`
  unfoldable pub check : (A → Bool) → Queue A → Option A
  unfolding find
  check p q = find p q.chain

  unfoldable pub last_addr : List (Cell A) → Option ℕ
  last_addr [] = none
  last_addr (c ∷ []) = some c.addr
  last_addr (c ∷ d ∷ cs) = last_addr (d ∷ cs)

  unfoldable pub chain_count : List (Cell A) → ℤ
  chain_count [] = pos 0
  chain_count (c ∷ cs) = chain_count cs +ℤ pos 1

  -- `set_tail()`
  unfoldable pub set_tail : Queue A → Queue A
  unfolding last_addr chain_count
  set_tail q = record q { tail = last_addr q.chain; count = chain_count q.chain }

  -- `reset()`
  unfoldable pub reset : Queue A → Queue A
  unfolding set_tail
  reset q = set_tail (record q { chain = [] })

  -- the copying constructor
  unfoldable pub copy : Queue A → Queue A
  unfolding empty ins_all
  copy q = ins_all q.chain (record empty { ins_neq = q.ins_neq })
