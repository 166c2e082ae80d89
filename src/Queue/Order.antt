-- ===== src/Queue/Order.antt =====
-- stdQueue.h: the place that `ins` gives a key, and the order of service that follows.
use mathlib.Core.List.{map-append}
use tiny_state.Prelude.{
  ◌≡◌, inl, inr, refl, sym, ap, ◌∙◌, Bool, true, false, not, List, [], ◌∷◌, ◌++◌, map, arith,
  if◌then◌else◌, All, All-imp, Bool-cases,
}
use tiny_state.Prelude.Int.{ℤ, ◌≤ℤ◌, ltb_ℤ, leb_ℤ, eqb_ℤ, eqb_ℤ_iff}
use tiny_state.Queue.{
  Cell, Queue, max_integer64, new_cell, link_sorted, ins_first, ins_linked, stops_at, ins_at, ins,
}
use tiny_state.Queue.Valid.{IsValid, link_tail-chain, link_sorted-All}

module _ {ℓ} {A : Type ℓ} where
  -- what a client sees: keys and data, the head first
  abbrev pub entry : Cell A → ℤ × A
  entry c = (c.key, c.item)

  abbrev pub entries : Queue A → List (ℤ × A)
  entries q = map entry q.chain

  -- Keys ascend, and none is above `MAX_INTEGER64`.
  abbrev pub Ascending : List (Cell A) → Type 0
  Ascending [] = Unit
  Ascending (c ∷ cs) = (c.key ≤ℤ max_integer64) × All (λ d. c.key ≤ℤ d.key) cs × Ascending cs

  unfoldable pub select : (Cell A → Bool) → List (Cell A) → List (Cell A)
  select p [] = []
  select p (c ∷ cs) = if p c then c ∷ select p cs else select p cs

  -- who stays in front of a new element of key `k`: also its equals, if ties keep arrival order
  abbrev pub stays_ahead : Bool → ℤ → Cell A → Bool
  stays_ahead ties k c = if ties then leb_ℤ c.key k else ltb_ℤ c.key k

  abbrev pub falls_behind : Bool → ℤ → Cell A → Bool
  falls_behind ties k c = not (stays_ahead ties k c)

  stops_at_lem : (ties : Bool) (k : ℤ) (c : Cell A) → stops_at ties k c ≡ falls_behind ties k c
  unfolding stops_at
  stops_at_lem true k c = ground arith
  stops_at_lem false k c = ground arith

  select-All :
      (p : Cell A → Bool) (cs : List (Cell A)) → All (λ c. p c ≡ true) cs → select p cs ≡ cs
  unfolding select
  select-All p [] h = refl
  select-All p (c ∷ cs) h = rw h.0 (ap (◌∷◌ c) (select-All p cs h.1))

  select_none :
      (p : Cell A → Bool) (cs : List (Cell A)) → All (λ c. p c ≡ false) cs → select p cs ≡ []
  unfolding select
  select_none p [] h = refl
  select_none p (c ∷ cs) h = rw h.0 (select_none p cs h.1)

  behind_too :
      (ties : Bool) (k : ℤ) (c d : Cell A)
      → stays_ahead ties k c ≡ false
      → c.key ≤ℤ d.key
      → stays_ahead ties k d ≡ false
  behind_too true k c d h l = ground arith
  behind_too false k c d h l = ground arith

  -- In an ascending chain the new cell splits those that stay ahead from the rest.
  link_sorted_lem :
      (ties : Bool) (el : Cell A) (cs : List (Cell A))
      → Ascending cs
      → link_sorted ties el cs
        ≡ select (stays_ahead ties el.key) cs ++ el ∷ select (falls_behind ties el.key) cs
  unfolding link_sorted select
  link_sorted_lem ties el [] s = refl
  link_sorted_lem ties el (c ∷ cs) s = elim (Bool-cases (stays_ahead ties el.key c)) [
    | inl e ↦ rw (stops_at_lem ties el.key c, e) (ap (◌∷◌ c) (link_sorted_lem ties el cs s.2))
    | inr e ↦
        let later : All (λ d. stays_ahead ties el.key d ≡ false) cs =
          All-imp (λ d l. behind_too ties el.key c d e l) cs s.1 in
        rw (
          stops_at_lem ties el.key c,
          e,
          select_none (stays_ahead ties el.key) cs later,
          select-All (falls_behind ties el.key) cs (All-imp (λ d h. ap not h) cs later),
        )
  ]

  ahead-le : (ties : Bool) (k : ℤ) (c : Cell A) → stays_ahead ties k c ≡ true → c.key ≤ℤ k
  ahead-le true k c h = ground arith
  ahead-le false k c h = ground arith

  behind-le : (ties : Bool) (k : ℤ) (c : Cell A) → stays_ahead ties k c ≡ false → k ≤ℤ c.key
  behind-le true k c h = ground arith
  behind-le false k c h = ground arith

  leb_max : (c : Cell A) → c.key ≤ℤ max_integer64 → stays_ahead true max_integer64 c ≡ true
  leb_max c h = ground arith

  link_sorted-Ascending :
      (ties : Bool) (el : Cell A) (cs : List (Cell A))
      → el.key ≤ℤ max_integer64
      → Ascending cs
      → Ascending (link_sorted ties el cs)
  unfolding link_sorted
  link_sorted-Ascending ties el [] m s = (m, tt, tt)
  link_sorted-Ascending ties el (c ∷ cs) m s = elim (Bool-cases (stays_ahead ties el.key c)) [
    | inl e ↦
        rw (stops_at_lem ties el.key c, e)
          (
            s.0,
            link_sorted-All _ ties el cs (ahead-le ties el.key c e) s.1,
            link_sorted-Ascending ties el cs m s.2,
          )
    | inr e ↦
        let l = behind-le ties el.key c e in
        rw (stops_at_lem ties el.key c, e)
          (m, (l, All-imp (λ d (h : c.key ≤ℤ d.key). omega arith) cs s.1), s)
  ]

  append-link_sorted :
      (el : Cell A) (cs : List (Cell A))
      → Ascending cs
      → el.key ≡ max_integer64
      → cs ++ el ∷ [] ≡ link_sorted true el cs
  unfolding link_sorted
  append-link_sorted el [] s e = refl
  append-link_sorted el (c ∷ cs) s e =
      let ahead : stays_ahead true el.key c ≡ true = rw e (leb_max c s.0) in
      rw (stops_at_lem true el.key c, ahead) (ap (◌∷◌ c) (append-link_sorted el cs s.2 e))

  -- An element at `MAX_INTEGER64` goes behind its equals whatever `insNeq` says.
  abbrev pub keeps_ties : Queue A → ℤ → Bool
  keeps_ties q k = if eqb_ℤ k max_integer64 then true else q.ins_neq

  chain-ins_at :
      (k : ℤ) (x : A) (q : Queue A) (cs : List (Cell A))
      → IsValid q
      → Ascending q.chain
      → q.chain ≡ cs
      → (ins_at cs (new_cell q k x) q).chain ≡ link_sorted (keeps_ties q k) (new_cell q k x) q.chain
  unfolding ins_at ins_first ins_linked link_sorted
  chain-ins_at k x q [] v s e = ap (link_sorted (keeps_ties q k) (new_cell q k x)) (sym e)
  chain-ins_at k x q (c ∷ cs) v s e = elim (Bool-cases (eqb_ℤ k max_integer64)) [
    | inl h ↦
        let el = new_cell q k x in
        rw h (
          link_tail-chain q el c cs v e
          ∙ append-link_sorted el q.chain s ((eqb_ℤ_iff k max_integer64).0 h))
    | inr h ↦ rw h
  ]

  pub chain-ins :
      (k : ℤ) (x : A) (q : Queue A)
      → IsValid q
      → Ascending q.chain
      → (ins k x q).chain ≡ link_sorted (keeps_ties q k) (new_cell q k x) q.chain
  unfolding ins
  chain-ins k x q v s = chain-ins_at k x q q.chain v s refl

  -- On a valid queue in ascending order, `ins` puts the new element behind exactly those that its
  -- key lets stay ahead, changes nothing else, and keeps the order.
  pub ins_by_key :
      (k : ℤ) (x : A) (q : Queue A)
      → IsValid q
      → Ascending q.chain
      → k ≤ℤ max_integer64
      → (entries (ins k x q)
          ≡ map entry (select (stays_ahead (keeps_ties q k) k) q.chain)
            ++ (k, x) ∷ map entry (select (falls_behind (keeps_ties q k) k) q.chain))
        × Ascending (ins k x q).chain
  ins_by_key k x q v s m =
      let ties = keeps_ties q k in
      let el = new_cell q k x in
      (
        ap (map entry) (chain-ins k x q v s ∙ link_sorted_lem ties el q.chain s)
            ∙ map-append entry (select (stays_ahead ties k) q.chain)
                (el ∷ select (falls_behind ties k) q.chain),
        rw (chain-ins k x q v s) (link_sorted-Ascending ties el q.chain m s),
      )

  -- Without keys the queue is first in, first out, whatever its order was.
  pub ins_fifo :
      (x : A) (q : Queue A)
      → IsValid q
      → entries (ins max_integer64 x q) ≡ entries q ++ (max_integer64, x) ∷ []
  unfolding ins ins_at ins_first ins_linked
  ins_fifo x q v = go q.chain refl
    where
      go :
          (cs : List (Cell A))
          → q.chain ≡ cs
          → entries (ins_at cs (new_cell q max_integer64 x) q)
            ≡ entries q ++ (max_integer64, x) ∷ []
      go [] e = rw e
      go (c ∷ cs) e =
          ap (map entry) (link_tail-chain q (new_cell q max_integer64 x) c cs v e)
          ∙ map-append entry q.chain (new_cell q max_integer64 x ∷ [])
