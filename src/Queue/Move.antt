-- ===== src/Queue/Move.antt =====
-- stdQueue.h: `ins(q)`, the copying constructor, `set_tail`, and `move`, which sorts elements out
-- into another queue.
use tiny_state.Prelude.{
  ℕ, suc, ◌<◌, ◌≡◌, ◌≢◌, inl, inr, refl, sym, ap, ◌∙◌, Bool, Option, none, some, List, [], ◌∷◌,
  ◌++◌, map, arith, if◌then◌else◌, length, All, Bool-cases,
}
use mathlib.Core.List.{append-nil, append_assoc, Perm, perm_middle}
use mathlib.Core.List.Perm
use tiny_state.Prelude.Int.{ℤ, pos, ltb_ℤ, pos-+ℤ_one}
use tiny_state.Queue.{
  Cell, Queue, max_integer64, empty, ins, ins_all, copy, chain_count, set_tail, reset, last_addr,
}
use tiny_state.Queue.Valid.{Distinct, IsValid, ins-IsValid}
use tiny_state.Queue.Order.{entries, ins_fifo}

module _ {ℓ} {A : Type ℓ} where
  chain_count-length : (cs : List (Cell A)) → chain_count cs ≡ pos (length cs)
  unfolding chain_count
  chain_count-length [] = refl
  chain_count-length (c ∷ cs) = rw (chain_count-length cs) (pos-+ℤ_one (length cs))

  -- `set_tail` makes any chain of distinct cells valid
  pub set_tail-IsValid :
      (q : Queue A) → Distinct q.chain → All (λ c. c.addr < q.fresh) q.chain → IsValid (set_tail q)
  unfolding set_tail
  set_tail-IsValid q d a = record {
    distinct = d;
    allocated = a;
    tail_last = refl;
    counted = chain_count-length q.chain;
  }

  pub reset-IsValid : (q : Queue A) → IsValid (reset q)
  unfolding reset set_tail
  reset-IsValid q = record { distinct = tt; allocated = tt; tail_last = refl; counted = refl }

  pub empty-IsValid : (neq : Bool) → IsValid {A = A} (record empty { ins_neq = neq })
  unfolding empty last_addr
  empty-IsValid neq = record { distinct = tt; allocated = tt; tail_last = refl; counted = refl }

  pub ins_all-IsValid : (cs : List (Cell A)) (q : Queue A) → IsValid q → IsValid (ins_all cs q)
  unfolding ins_all
  ins_all-IsValid [] q v = v
  ins_all-IsValid (c ∷ cs) q v =
      ins_all-IsValid cs (ins max_integer64 c.item q) (ins-IsValid max_integer64 c.item q v)

  -- the items at the key `MAX_INTEGER64`
  abbrev pub unkeyed : List (Cell A) → List (ℤ × A)
  unkeyed = map (λ c. (max_integer64, c.item))

  entries-ins_all :
      (cs : List (Cell A)) (q : Queue A)
      → IsValid q
      → entries (ins_all cs q) ≡ entries q ++ unkeyed cs
  unfolding ins_all
  entries-ins_all [] q v = sym (append-nil (entries q))
  entries-ins_all (c ∷ cs) q v =
      entries-ins_all cs (ins max_integer64 c.item q) (ins-IsValid max_integer64 c.item q v)
      ∙ ap (λ es. es ++ unkeyed cs) (ins_fifo c.item q v)
      ∙ append_assoc (entries q) ((max_integer64, c.item) ∷ []) (unkeyed cs)

  -- A copy is valid and holds the same data in the same order, but every key becomes
  -- `MAX_INTEGER64`.
  pub copy_lem : (q : Queue A) → IsValid (copy q) × (entries (copy q) ≡ unkeyed q.chain)
  unfolding copy empty
  copy_lem q = (
    ins_all-IsValid q.chain _ (empty-IsValid q.ins_neq),
    entries-ins_all q.chain _ (empty-IsValid q.ins_neq),
  )

  -- the destination may be null
  abbrev pub ins_opt : A → Option (Queue A) → Option (Queue A)
  ins_opt x none = none
  ins_opt x (some d) = some (ins max_integer64 x d)

  abbrev pub ins_all_opt : List (Cell A) → Option (Queue A) → Option (Queue A)
  ins_all_opt cs none = none
  ins_all_opt cs (some d) = some (ins_all cs d)

  -- `move(dest, cmp)`: the loop. A positive result moves the element, a negative one ends the loop.
  unfoldable pub move_loop :
      (A → ℤ) → List (Cell A) → Option (Queue A) → List (Cell A) × Option (Queue A) × ℕ
  unfolding ins
  move_loop f [] dest = ([], dest, 0)
  move_loop f (c ∷ cs) dest =
      let moved = move_loop f cs (ins_opt c.item dest) in
      let kept = move_loop f cs dest in
      if ltb_ℤ (pos 0) (f c.item)
      then (moved.0, moved.1, suc moved.2)
      else if ltb_ℤ (f c.item) (pos 0)
      then (c ∷ cs, dest, 0)
      else (c ∷ kept.0, kept.1, kept.2)

  -- `move(dest, cmp)`; `move(cmp)` is this at `none`
  unfoldable pub move : (A → ℤ) → Queue A → Option (Queue A) → Queue A × Option (Queue A) × ℕ
  unfolding move_loop set_tail
  move f q dest =
      let (rest, dest', n) = move_loop f q.chain dest in
      (set_tail (record q { chain = rest }), dest', n)

  -- which elements go and which stay: those before the first negative result are sorted by sign
  unfoldable pub goes : (A → ℤ) → List (Cell A) → List (Cell A)
  goes f [] = []
  goes f (c ∷ cs) =
      if ltb_ℤ (pos 0) (f c.item)
      then c ∷ goes f cs
      else if ltb_ℤ (f c.item) (pos 0)
      then []
      else goes f cs

  unfoldable pub stays : (A → ℤ) → List (Cell A) → List (Cell A)
  stays f [] = []
  stays f (c ∷ cs) =
      if ltb_ℤ (pos 0) (f c.item)
      then stays f cs
      else if ltb_ℤ (f c.item) (pos 0)
      then c ∷ cs
      else c ∷ stays f cs

  ins_all_opt-cons :
      (c : Cell A) (cs : List (Cell A)) (dest : Option (Queue A))
      → ins_all_opt cs (ins_opt c.item dest) ≡ ins_all_opt (c ∷ cs) dest
  unfolding ins_all
  ins_all_opt-cons c cs none = refl
  ins_all_opt-cons c cs (some d) = refl

  ins_all_opt-nil : (dest : Option (Queue A)) → dest ≡ ins_all_opt [] dest
  unfolding ins_all
  ins_all_opt-nil none = refl
  ins_all_opt-nil (some d) = refl

  move_loop_lem :
      (f : A → ℤ) (cs : List (Cell A)) (dest : Option (Queue A))
      → move_loop f cs dest ≡ (stays f cs, ins_all_opt (goes f cs) dest, length (goes f cs))
  unfolding move_loop stays goes ins_all
  move_loop_lem f [] none = refl
  move_loop_lem f [] (some d) = refl
  move_loop_lem f (c ∷ cs) dest = elim (Bool-cases (ltb_ℤ (pos 0) (f c.item))) [
    | inl e ↦
        rw (e, move_loop_lem f cs (ins_opt c.item dest))
          (ap (λ d. (stays f cs, d, suc (length (goes f cs))))
            (ins_all_opt-cons c (goes f cs) dest))
    | inr e ↦ elim (Bool-cases (ltb_ℤ (f c.item) (pos 0))) [
      | inl h ↦ rw (e, h) (ap (λ d. (c ∷ cs, d, 0)) (ins_all_opt-nil dest))
      | inr h ↦ rw (e, h, move_loop_lem f cs dest)
    ]
  ]

  stays-All : (P : Cell A → Type 0) (f : A → ℤ) (cs : List (Cell A)) → All P cs → All P (stays f cs)
  unfolding stays
  stays-All P f [] h = tt
  stays-All P f (c ∷ cs) h = ground (arith, stays-All P f cs h.1)

  stays-Distinct : (f : A → ℤ) (cs : List (Cell A)) → Distinct cs → Distinct (stays f cs)
  unfolding stays
  stays-Distinct f [] d = tt
  stays-Distinct f (c ∷ cs) d =
      let later = stays-All (λ x. x.addr ≢ c.addr) f cs d.0 in
      let rest = stays-Distinct f cs d.1 in
      elim (Bool-cases (ltb_ℤ (pos 0) (f c.item))) [
        | inl e ↦ rw e rest
        | inr e ↦ elim (Bool-cases (ltb_ℤ (f c.item) (pos 0))) [
          | inl h ↦ rw (e, h) d
          | inr h ↦ rw (e, h) (later, rest)
        ]
      ]

  goes-stays-perm : (f : A → ℤ) (cs : List (Cell A)) → Perm (goes f cs ++ stays f cs) cs
  unfolding goes stays
  goes-stays-perm f [] = Perm.refl []
  goes-stays-perm f (c ∷ cs) =
      let rest = goes-stays-perm f cs in
      elim (Bool-cases (ltb_ℤ (pos 0) (f c.item))) [
        | inl e ↦ rw e (Perm.cons c rest)
        | inr e ↦ elim (Bool-cases (ltb_ℤ (f c.item) (pos 0))) [
          | inl h ↦ rw (e, h) (Perm.refl (c ∷ cs))
          | inr h ↦ rw (e, h) (Perm.trans (perm_middle (goes f cs) (stays f cs)) (Perm.cons c rest))
        ]
      ]

  pub move-IsValid :
      (f : A → ℤ) (q : Queue A) (dest : Option (Queue A)) → IsValid q → IsValid (move f q dest).0
  unfolding move
  move-IsValid f q dest v = rw (move_loop_lem f q.chain dest) (
      set_tail-IsValid (record q { chain = stays f q.chain }) (stays-Distinct f q.chain v.distinct)
        (stays-All _ f q.chain v.allocated))

  -- Between valid queues `move` loses no element and makes none up: what it takes from the source
  -- is appended to the destination in order, what it leaves keeps its order, the number that it
  -- returns is the number moved, and both queues stay valid.
  pub move_lem :
      (f : A → ℤ) (q d : Queue A)
      → IsValid q
      → IsValid d
      → (d' : Queue A) × ((move f q (some d)).1 ≡ some d')
        × IsValid d'
        × (entries d' ≡ entries d ++ unkeyed (goes f q.chain))
        × ((move f q (some d)).0.chain ≡ stays f q.chain)
        × ((move f q (some d)).2 ≡ length (goes f q.chain))
        × IsValid (move f q (some d)).0
        × Perm (goes f q.chain ++ stays f q.chain) q.chain
  unfolding move set_tail
  move_lem f q d v w =
      let looped = move_loop_lem f q.chain (some d) in
      (
        ins_all (goes f q.chain) d,
        ap (λ r. r.1) looped,
        ins_all-IsValid (goes f q.chain) d w,
        entries-ins_all (goes f q.chain) d w,
        ap (λ r. r.0) looped,
        ap (λ r. r.2) looped,
        move-IsValid f q (some d) v,
        goes-stays-perm f q.chain,
      )
