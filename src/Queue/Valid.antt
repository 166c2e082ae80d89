-- ===== src/Queue/Valid.antt =====
-- stdQueue.h: the invariant of the linked queue, and that its operations keep it.
use tiny_state.Prelude.{
  ℕ, suc, ◌<◌, ◌≡◌, ◌≢◌, inl, inr, refl, sym, ap, subst, ◌∙◌, Bool, Option, none, some, List, [],
  ◌∷◌, ◌++◌, arith, ◌==◌, if◌then◌else◌, length, length-append, All, All-append, All-imp,
  Bool-cases, ==_iff,
}
use mathlib.Core.Option.{some-injective}
use tiny_state.Prelude.Int.{ℤ, pos, ◌+ℤ◌, eqb_ℤ, pos-+ℤ_one}
use tiny_state.Queue.{
  Cell, Queue, max_integer64, new_cell, link_after, link_tail, link_sorted, at_end, ins_linked,
  ins_first, ins_at, ins, last_addr, stops_at,
}

module _ {ℓ} {A : Type ℓ} where
  -- No address occurs twice, and none is still to be given out.
  abbrev pub Distinct : List (Cell A) → Type 0
  Distinct [] = Unit
  Distinct (c ∷ cs) = All (λ d. d.addr ≢ c.addr) cs × Distinct cs

  pub record IsValid (q : Queue A) : Type 0 where
    pub distinct : Distinct q.chain
    pub allocated : All (λ c. c.addr < q.fresh) q.chain
    pub tail_last : q.tail ≡ last_addr q.chain
    pub counted : q.count ≡ pos (length q.chain)

  -- What holds of every address holds of the last.
  pub last_addr-All :
      (P : ℕ → Type 0) (cs : List (Cell A)) {t : ℕ}
      → All (λ c. P c.addr) cs
      → last_addr cs ≡ some t
      → P t
  unfolding last_addr
  last_addr-All P [] h e = cc
  last_addr-All P (c ∷ []) h e = subst P (some-injective _ _ e) h.0
  last_addr-All P (c ∷ d ∷ cs) h e = last_addr-All P (d ∷ cs) h.1 e

  pub last_addr-append :
      (cs : List (Cell A)) (el : Cell A) → last_addr (cs ++ el ∷ []) ≡ some el.addr
  unfolding last_addr
  last_addr-append [] el = refl
  last_addr-append (c ∷ []) el = refl
  last_addr-append (c ∷ d ∷ cs) el = last_addr-append (d ∷ cs) el

  -- With the tail at the last cell, the store through it appends.
  pub link_after-append :
      (t : ℕ) (el : Cell A) (cs : List (Cell A))
      → Distinct cs
      → last_addr cs ≡ some t
      → link_after t el cs ≡ cs ++ el ∷ []
  unfolding link_after last_addr
  link_after-append t el [] d e = cc
  link_after-append t el (c ∷ []) d e = ground (arith, ==_iff c.addr t)
  link_after-append t el (c ∷ x ∷ cs) d e =
      let apart : t ≢ c.addr = last_addr-All (λ a. a ≢ c.addr) (x ∷ cs) d.0 e in
      elim (Bool-cases (c.addr == t)) [
        | inl h ↦ absurd (apart (sym ((==_iff c.addr t).0 h)))
        | inr h ↦ rw h (ap (◌∷◌ c) (link_after-append t el (x ∷ cs) d.1 e))
      ]

  pub Distinct-append :
      (cs : List (Cell A)) (el : Cell A)
      → Distinct cs
      → All (λ c. c.addr < el.addr) cs
      → Distinct (cs ++ el ∷ [])
  Distinct-append [] el d h = (tt, tt)
  Distinct-append (c ∷ cs) el d h = (
    All-append (λ x. x.addr ≢ c.addr) cs (el ∷ []) d.0 ((λ e. omega arith), tt),
    Distinct-append cs el d.1 h.1,
  )

  pub link_sorted-All {κ} :
      (P : Cell A → Type κ) (neq : Bool) (el : Cell A) (cs : List (Cell A))
      → P el
      → All P cs
      → All P (link_sorted neq el cs)
  unfolding link_sorted
  link_sorted-All P neq el [] p h = (p, tt)
  link_sorted-All P neq el (c ∷ cs) p h = elim (Bool-cases (stops_at neq el.key c)) [
    | inl e ↦ rw e (p, (h.0, h.1))
    | inr e ↦ rw e (h.0, link_sorted-All P neq el cs p h.1)
  ]

  link_sorted-Distinct :
      (neq : Bool) (el : Cell A) (cs : List (Cell A))
      → Distinct cs
      → All (λ c. c.addr < el.addr) cs
      → Distinct (link_sorted neq el cs)
  unfolding link_sorted
  link_sorted-Distinct neq el [] d h = (tt, tt)
  link_sorted-Distinct neq el (c ∷ cs) d h = elim (Bool-cases (stops_at neq el.key c)) [
    | inl e ↦ rw e (((λ e. omega arith), All-imp (λ x l e. omega arith) cs h.1), (d.0, d.1))
    | inr e ↦ rw e (
      link_sorted-All (λ x. x.addr ≢ c.addr) neq el cs (λ e. omega arith) d.0,
      link_sorted-Distinct neq el cs d.1 h.1,
    )
  ]

  length-link_sorted :
      (neq : Bool) (el : Cell A) (cs : List (Cell A))
      → length (link_sorted neq el cs) ≡ suc (length cs)
  unfolding link_sorted
  length-link_sorted neq el [] = refl
  length-link_sorted neq el (c ∷ cs) = ground (arith, length-link_sorted neq el cs)

  pub last_addr-cons :
      (c : Cell A) (cs : List (Cell A)) {n : ℕ}
      → length cs ≡ suc n
      → last_addr (c ∷ cs) ≡ last_addr cs
  unfolding last_addr
  last_addr-cons c [] h = absurd (omega arith)
  last_addr-cons c (d ∷ cs) h = refl

  last_addr-link_sorted :
      (neq : Bool) (el : Cell A) (cs : List (Cell A))
      → last_addr (link_sorted neq el cs)
        ≡ (if at_end neq el.key cs then some el.addr else last_addr cs)
  unfolding link_sorted at_end last_addr
  last_addr-link_sorted neq el [] = refl
  last_addr-link_sorted neq el (c ∷ cs) = elim (Bool-cases (stops_at neq el.key c)) [
    | inl e ↦ rw e
    | inr e ↦
        rw
          (
            e,
            last_addr-cons c (link_sorted neq el cs) (length-link_sorted neq el cs),
            last_addr-link_sorted neq el cs,
          )
          (last_step cs)
  ]
    where
      last_step :
          (ds : List (Cell A))
          → (if at_end neq el.key ds then some el.addr else last_addr ds)
            ≡ (if at_end neq el.key ds then some el.addr else last_addr (c ∷ ds))
      last_step [] = refl
      last_step (d ∷ ds) = refl

  pub last_addr-ne-none : (c : Cell A) (cs : List (Cell A)) → last_addr (c ∷ cs) ≢ none
  unfolding last_addr
  last_addr-ne-none c [] = λ e. cc
  last_addr-ne-none c (d ∷ cs) = last_addr-ne-none d cs

  link_tail-append :
      (t : Option ℕ) (el c : Cell A) (cs : List (Cell A))
      → Distinct (c ∷ cs)
      → t ≡ last_addr (c ∷ cs)
      → link_tail t el (c ∷ cs) ≡ c ∷ cs ++ el ∷ []
  unfolding link_tail
  link_tail-append none el c cs d e = absurd (last_addr-ne-none c cs (sym e))
  link_tail-append (some t) el c cs d e = link_after-append t el (c ∷ cs) d (sym e)

  ins_first-IsValid :
      (q : Queue A) (k : ℤ) (x : A)
      → IsValid q
      → q.chain ≡ []
      → IsValid (ins_first q (new_cell q k x))
  unfolding ins_first last_addr
  ins_first-IsValid q k x v e = record {
    distinct = (tt, tt);
    allocated = (omega arith, tt);
    tail_last = refl;
    counted = rw (v.counted, e) (pos-+ℤ_one 0);
  }

  pub link_tail-chain :
      (q : Queue A) (el c : Cell A) (cs : List (Cell A))
      → IsValid q
      → q.chain ≡ c ∷ cs
      → link_tail q.tail el q.chain ≡ q.chain ++ el ∷ []
  link_tail-chain q el c cs v e =
      rw e (
        link_tail-append q.tail el c cs (subst Distinct e v.distinct)
          (v.tail_last ∙ ap last_addr e))

  -- appended behind the tail
  append-IsValid :
      (q : Queue A) (k : ℤ) (x : A) (c : Cell A) (cs : List (Cell A))
      → IsValid q
      → q.chain ≡ c ∷ cs
      → IsValid (record q {
        chain = link_tail q.tail (new_cell q k x) q.chain;
        tail = some q.fresh;
        count = q.count +ℤ pos 1;
        fresh = suc q.fresh;
      })
  append-IsValid q k x c cs v e =
      let el = new_cell q k x in
      let linked = link_tail-chain q el c cs v e in
      record {
        distinct = rw linked (Distinct-append q.chain el v.distinct v.allocated);
        allocated = rw linked (
            All-append _ q.chain (el ∷ [])
              (All-imp (λ d (h : d.addr < q.fresh). omega arith) q.chain v.allocated)
              (omega arith, tt));
        tail_last = rw linked (sym (last_addr-append q.chain el));
        counted =
            rw (linked, v.counted, length-append q.chain (el ∷ []), pos-+ℤ_one)
              (ap pos (omega arith));
      }

  -- linked in front of the cell at which the search stopped
  sorted-IsValid :
      (q : Queue A) (k : ℤ) (x : A)
      → IsValid q
      → IsValid (record q {
        chain = link_sorted q.ins_neq (new_cell q k x) q.chain;
        tail = if at_end q.ins_neq k q.chain then some q.fresh else q.tail;
        count = q.count +ℤ pos 1;
        fresh = suc q.fresh;
      })
  sorted-IsValid q k x v =
      let el = new_cell q k x in
      record {
        distinct = link_sorted-Distinct q.ins_neq el q.chain v.distinct v.allocated;
        allocated =
            link_sorted-All _ q.ins_neq el q.chain (omega arith)
              (All-imp (λ d (h : d.addr < q.fresh). omega arith) q.chain v.allocated);
        tail_last = rw v.tail_last (sym (last_addr-link_sorted q.ins_neq el q.chain));
        counted = rw (v.counted, length-link_sorted q.ins_neq el q.chain, pos-+ℤ_one);
      }

  ins_at-IsValid :
      (k : ℤ) (x : A) (q : Queue A) (cs : List (Cell A))
      → IsValid q
      → q.chain ≡ cs
      → IsValid (ins_at cs (new_cell q k x) q)
  unfolding ins_at
  ins_at-IsValid k x q [] v e = ins_first-IsValid q k x v e
  ins_at-IsValid k x q (c ∷ cs) v e = elim (Bool-cases (eqb_ℤ k max_integer64)) [
    | inl h ↦ rw h (append-IsValid q k x c cs v e)
    | inr h ↦ rw h (sorted-IsValid q k x v)
  ]

  pub ins-IsValid : (k : ℤ) (x : A) (q : Queue A) → IsValid q → IsValid (ins k x q)
  unfolding ins
  ins-IsValid k x q v = ins_at-IsValid k x q q.chain v refl

  ins_at_fields :
      (q : Queue A) (el : Cell A) (cs : List (Cell A))
      → ((ins_at cs el q).count ≡ q.count +ℤ pos 1) × ((ins_at cs el q).ins_neq ≡ q.ins_neq)
  unfolding ins_at ins_first ins_linked
  ins_at_fields q el [] = (refl, refl)
  ins_at_fields q el (c ∷ cs) = elim (Bool-cases (eqb_ℤ el.key max_integer64)) [
    | inl e ↦ rw e (refl, refl)
    | inr e ↦ rw e (refl, refl)
  ]

  pub ins_fields :
      (k : ℤ) (x : A) (q : Queue A)
      → ((ins k x q).count ≡ q.count +ℤ pos 1) × ((ins k x q).ins_neq ≡ q.ins_neq)
  unfolding ins
  ins_fields k x q = ins_at_fields q (new_cell q k x) q.chain
