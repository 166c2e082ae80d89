-- ===== src/Queue/Sort/Result.antt =====
-- stdQueue.h: what `sort` returns.
use mathlib.Core.Logic.Or
use mathlib.Core.HLevel.{⊥_prop}
use mathlib.Core.List.{Perm, Mem, Nodup, Nodup-cons, Nodup-nil, mem-cons, not-mem-nil, map-map}
use mathlib.Core.List.Perm
use native.Mathlib.Bridge.{le_prop}
use tiny_state.Prelude.{
  ℕ, ◌<◌, ◌≡◌, ◌≢◌, refl, sym, ap, subst, ◌∙◌, List, [], ◌∷◌, map, arith, length, All,
}
use tiny_state.Prelude.Int.{ℤ}
use tiny_state.Queue.{Cell, Queue, max_integer64, copy, set_tail}
use tiny_state.Queue.Valid.{Distinct, IsValid}
use tiny_state.Queue.Order.{entry}
use tiny_state.Queue.Move.{copy_lem, unkeyed, set_tail-IsValid}
use tiny_state.Queue.Sort.{
  sort, sort_chain, sort_chain-perm, sort_chain-IsSorted, IsPreorder, IsSorted,
}

module _ {ℓ} {A : Type ℓ} where
  abbrev pub items : List (Cell A) → List A
  items = map (λ c. c.item)

  abbrev addrs : List (Cell A) → List ℕ
  addrs = map (λ c. c.addr)

  All-mem_ne : (a : ℕ) (cs : List (Cell A)) → All (λ d. d.addr ≢ a) cs → ¬ Mem a (addrs cs)
  All-mem_ne a [] h m = not-mem-nil m
  All-mem_ne a (c ∷ cs) h m = Or.elim ⊥_prop (mem-cons.0 m) (λ e. h.0 (sym e)) (All-mem_ne a cs h.1)

  mem_ne-All : (a : ℕ) (cs : List (Cell A)) → ¬ Mem a (addrs cs) → All (λ d. d.addr ≢ a) cs
  mem_ne-All a [] h = tt
  mem_ne-All a (c ∷ cs) h =
      ((λ e. h (mem-cons.1 (Or.inl (sym e)))), mem_ne-All a cs (λ m. h (mem-cons.1 (Or.inr m))))

  Distinct-Nodup : (cs : List (Cell A)) → Distinct cs → Nodup (addrs cs)
  Distinct-Nodup [] d = Nodup-nil
  Distinct-Nodup (c ∷ cs) d = Nodup-cons.1 (All-mem_ne c.addr cs d.0, Distinct-Nodup cs d.1)

  Nodup-Distinct : (cs : List (Cell A)) → Nodup (addrs cs) → Distinct cs
  Nodup-Distinct [] d = tt
  Nodup-Distinct (c ∷ cs) d =
      (mem_ne-All c.addr cs (Nodup-cons.0 d).0, Nodup-Distinct cs (Nodup-cons.0 d).1)

  perm-Distinct : (cs ds : List (Cell A)) → Perm ds cs → Distinct cs → Distinct ds
  perm-Distinct cs ds p d =
      Nodup-Distinct ds (Perm.nodup (Perm.symm (Perm.map (λ c. c.addr) p)) (Distinct-Nodup cs d))

  mem-below : (n a : ℕ) (cs : List (Cell A)) → All (λ c. c.addr < n) cs → Mem a (addrs cs) → a < n
  mem-below n a [] h m = absurd (not-mem-nil m)
  mem-below n a (c ∷ cs) h m = Or.elim le_prop (mem-cons.0 m) (λ e. rw e h.0) (mem-below n a cs h.1)

  below-mem :
      (n : ℕ) (cs : List (Cell A)) → ((a : ℕ) → Mem a (addrs cs) → a < n) → All (λ c. c.addr < n) cs
  below-mem n [] h = tt
  below-mem n (c ∷ cs) h =
      (h c.addr (mem-cons.1 (Or.inl refl)), below-mem n cs (λ a m. h a (mem-cons.1 (Or.inr m))))

  perm-allocated :
      (n : ℕ) (cs ds : List (Cell A))
      → Perm ds cs
      → All (λ c. c.addr < n) cs
      → All (λ c. c.addr < n) ds
  perm-allocated n cs ds p h =
      below-mem n ds λ a m. mem-below n a cs h ((Perm.mem_iff (Perm.map (λ c. c.addr) p)).0 m)

  items-unkeyed : (cs ds : List (Cell A)) → map entry cs ≡ unkeyed ds → items cs ≡ items ds
  items-unkeyed cs ds e =
      sym (map-map (λ y. y.1) entry cs)
      ∙ ap (map (λ (y : ℤ × A). y.1)) e
      ∙ map-map (λ y. y.1) (λ c. (max_integer64, c.item)) ds

  -- For a comparison that is a total preorder `sort` returns a valid queue with the same elements
  -- in ascending order.
  pub sort_lem :
      (cmp : A → A → ℤ) (order : IsPreorder cmp) (q : Queue A)
      → IsValid (sort cmp q)
        × IsSorted cmp order (sort cmp q).chain
        × Perm (items (sort cmp q).chain) (items q.chain)
  unfolding sort set_tail
  sort_lem cmp order q =
      let r = copy q in
      let v = (copy_lem q).0 in
      let p = sort_chain-perm cmp (length r.chain) r.chain in
      (
        set_tail-IsValid (record r { chain = sort_chain cmp (length r.chain) r.chain })
            (perm-Distinct r.chain _ p v.distinct) (perm-allocated r.fresh r.chain _ p v.allocated),
        sort_chain-IsSorted cmp order (length r.chain) r.chain (omega arith),
        subst (Perm (items (sort_chain cmp (length r.chain) r.chain)))
            (items-unkeyed r.chain q.chain (copy_lem q).1) (Perm.map (λ c. c.item) p),
      )
