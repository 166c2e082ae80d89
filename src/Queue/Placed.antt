-- ===== src/Queue/Placed.antt =====
-- stdQueue.h: `ins(ref, d, cmp)` links one element, right but for `count`.
use tiny_state.Prelude.{
  ℕ, suc, ◌<◌, ◌≡◌, ◌≢◌, inl, inr, refl, sym, ap, subst, ◌∙◌, Bool, true, false, Option, none, some,
  List, [], ◌∷◌, arith, ◌==◌, if◌then◌else◌, length, length-append, All, All-append, All-imp, not,
  ◌||◌, Bool-cases, Option-cases, ==_iff, ==_refl, ◌-◌,
}
use tiny_state.Prelude.Int.{ℤ, pos, ◌+ℤ◌, ltb_ℤ, eqb_ℤ}
use tiny_state.Queue.{Cell, Queue, last_addr, link_tail}
use mathlib.Core.Option.{some-injective}
use tiny_state.Queue.Valid.{
  Distinct, IsValid, last_addr-All, last_addr-append, last_addr-cons, last_addr-ne-none,
  link_tail-chain, Distinct-append,
}
use tiny_state.Queue.Near.{keyless, place, link_of, advance_tail, ins_edge, ins_placed, ins_near}

abbrev or_else : ℕ → Option ℕ → Option ℕ
or_else t none = some t
or_else t (some n) = some n

one_more : (a : ℤ) (n m : ℕ) → a +ℤ pos n ≡ pos m → a +ℤ pos (suc n) ≡ pos (suc m)
unfolding ◌+ℤ◌
one_more a n m e = ground (arith, e)

module _ {ℓ} {A : Type ℓ} where
  -- whether an element, or the null pointer, gives an answer other than 0
  unfoldable pub answers : (A → ℤ) → ℤ → List (Cell A) → Bool
  answers f r [] = not (eqb_ℤ r (pos 0))
  answers f r (c ∷ cs) = not (eqb_ℤ (f c.item) (pos 0)) || answers f r cs

  -- an element linked in behind or in front of one of a chain
  data Placed (el : Cell A) : List (Cell A) → List (Cell A) → Type ℓ where
    behind : (c : Cell A) (cs : List (Cell A)) → Placed el (c ∷ cs) (c ∷ el ∷ cs)
    before : (c : Cell A) (cs : List (Cell A)) → Placed el (c ∷ cs) (el ∷ c ∷ cs)
    further : (c : Cell A) (cs ds : List (Cell A)) → Placed el cs ds → Placed el (c ∷ cs) (c ∷ ds)

  place-Placed :
      (f : A → ℤ) (el : Cell A) (cs ds : List (Cell A)) → place f el cs ≡ some ds → Placed el cs ds
  unfolding place
  place-Placed f el [] ds e = absurd (cc e)
  place-Placed f el (c ∷ cs) ds e = elim (Bool-cases (eqb_ℤ (f c.item) (pos 0))) [
    | inl a ↦ elim (Option-cases (place f el cs)) [
      | inl b ↦ absurd (ground arith)
      | inr (es, b) ↦
          subst (Placed el (c ∷ cs)) (some-injective (c ∷ es) ds (ground arith))
            (further c cs es (place-Placed f el cs es b))
    ]
    | inr a ↦ elim (Bool-cases (ltb_ℤ (pos 0) (f c.item))) [
      | inl b ↦
          subst (Placed el (c ∷ cs)) (some-injective (c ∷ el ∷ cs) ds (ground arith)) (behind c cs)
      | inr b ↦
          subst (Placed el (c ∷ cs)) (some-injective (el ∷ c ∷ cs) ds (ground arith)) (before c cs)
    ]
  ]

  Placed-All :
      (P : Cell A → Type 0) (el : Cell A) (cs ds : List (Cell A))
      → Placed el cs ds
      → P el
      → All P cs
      → All P ds
  Placed-All P el cs ds (behind c es) p h = (h.0, (p, h.1))
  Placed-All P el cs ds (before c es) p h = (p, h)
  Placed-All P el cs ds (further c es fs k) p h = (h.0, Placed-All P el es fs k p h.1)

  Placed-Distinct :
      (el : Cell A) (cs ds : List (Cell A))
      → Placed el cs ds
      → All (λ c. c.addr < el.addr) cs
      → Distinct cs
      → Distinct ds
  Placed-Distinct el cs ds (behind c es) h d =
      (((λ e. omega (arith, h.0, e)), d.0), (All-imp (λ x l e. omega (arith, l, e)) es h.1, d.1))
  Placed-Distinct el cs ds (before c es) h d =
      (((λ e. omega (arith, h.0, e)), All-imp (λ x l e. omega (arith, l, e)) es h.1), d)
  Placed-Distinct el cs ds (further c es fs k) h d = (
    Placed-All (λ x. x.addr ≢ c.addr) el es fs k (λ e. omega (arith, h.0, e)) d.0,
    Placed-Distinct el es fs k h.1 d.1,
  )

  length-Placed :
      (el : Cell A) (cs ds : List (Cell A)) → Placed el cs ds → length ds ≡ suc (length cs)
  length-Placed el cs ds (behind c es) = refl
  length-Placed el cs ds (before c es) = refl
  length-Placed el cs ds (further c es fs k) = ap suc (length-Placed el es fs k)

  unlike :
      (t : ℕ) (c : Cell A) (cs : List (Cell A))
      → All (λ d. d.addr ≢ c.addr) cs
      → last_addr cs ≡ some t
      → (c.addr == t) ≡ false
  unlike t c cs h e =
      let apart : t ≢ c.addr = last_addr-All (λ a. a ≢ c.addr) cs h e in
      ground (arith, ==_iff c.addr t)

  -- nothing hangs behind the last
  link_of-last :
      (t : ℕ) (cs : List (Cell A)) → Distinct cs → last_addr cs ≡ some t → link_of t cs ≡ none
  unfolding link_of last_addr
  link_of-last t [] d e = refl
  link_of-last t (c ∷ []) d e = refl
  link_of-last t (c ∷ x ∷ cs) d e = rw (unlike t c (x ∷ cs) d.0 e) (link_of-last t (x ∷ cs) d.1 e)

  skips :
      (t : ℕ) (c : Cell A) (cs : List (Cell A))
      → (c.addr == t) ≡ false
      → link_of t (c ∷ cs) ≡ link_of t cs
  unfolding link_of
  skips t c [] e = refl
  skips t c (x ∷ cs) e = rw e

  Placed-nonempty :
      (el : Cell A) (cs ds : List (Cell A)) → Placed el cs ds → length cs ≡ suc (length cs - 1)
  Placed-nonempty el cs ds (behind c es) = omega arith
  Placed-nonempty el cs ds (before c es) = omega arith
  Placed-nonempty el cs ds (further c es fs k) = omega arith

  advance_tail_lem :
      (t : ℕ) (cs : List (Cell A)) (o : Option ℕ)
      → link_of t cs ≡ o
      → advance_tail (some t) cs ≡ or_else t o
  unfolding advance_tail
  advance_tail_lem t cs none e = rw (advance_tail, e)
  advance_tail_lem t cs (some n) e = rw (advance_tail, e)

  links_to : (c el : Cell A) → link_of c.addr (c ∷ el ∷ []) ≡ some el.addr
  unfolding link_of
  links_to c el = rw (==_refl c.addr)

  -- The link of the tail after the insertion; what it is not, is that the tail stays last.
  Placed-link :
      (el : Cell A) (cs ds : List (Cell A)) (t : ℕ)
      → Placed el cs ds
      → All (λ c. c.addr < el.addr) cs
      → Distinct cs
      → last_addr cs ≡ some t
      → last_addr ds ≡ or_else t (link_of t ds)
  unfolding last_addr
  Placed-link el cs ds t (behind c []) h d e =
      subst (λ u. some el.addr ≡ or_else u (link_of u (c ∷ el ∷ []))) (some-injective c.addr t e)
        (sym (ap (or_else c.addr) (links_to c el)))
  Placed-link el cs ds t (behind c (x ∷ es)) h d e =
      e
      ∙ sym (
          ap (or_else t) (
            skips t c (el ∷ x ∷ es) (unlike t c (x ∷ es) d.0 e)
            ∙ skips t el (x ∷ es)
                (unlike t el (x ∷ es) (All-imp (λ y l i. omega (arith, l, i)) (x ∷ es) h.1) e)
            ∙ link_of-last t (x ∷ es) d.1 e))
  Placed-link el cs ds t (before c es) h d e =
      e
      ∙ sym (
          ap (or_else t) (
            skips t el (c ∷ es)
              (unlike t el (c ∷ es) (All-imp (λ y l i. omega (arith, l, i)) (c ∷ es) h) e)
            ∙ link_of-last t (c ∷ es) d e))
  Placed-link el cs ds t (further c es fs k) h d e =
      let ends = sym (last_addr-cons c es (Placed-nonempty el es fs k)) ∙ e in
      last_addr-cons c fs (length-Placed el es fs k)
      ∙ Placed-link el es fs t k h.1 d.1 ends
      ∙ sym (ap (or_else t) (skips t c fs (unlike t c es d.0 ends)))

  -- The tail moves on where the element was linked behind it, and stays otherwise.
  Placed-tail :
      (el : Cell A) (cs ds : List (Cell A)) (t : Option ℕ)
      → Placed el cs ds
      → All (λ c. c.addr < el.addr) cs
      → Distinct cs
      → t ≡ last_addr cs
      → advance_tail t ds ≡ last_addr ds
  Placed-tail el cs ds none k h d e = absurd (no_tail cs (Placed-nonempty el cs ds k) (sym e))
    where
      no_tail : (cs : List (Cell A)) → length cs ≡ suc (length cs - 1) → last_addr cs ≢ none
      no_tail [] n i = absurd (omega (arith, n))
      no_tail (c ∷ cs) n i = last_addr-ne-none c cs i
  Placed-tail el cs ds (some t) k h d e =
      advance_tail_lem t ds (link_of t ds) refl ∙ sym (Placed-link el cs ds t k h d (sym e))

  answered :
      (f : A → ℤ) (r : ℤ) (el : Cell A) (cs ds : List (Cell A))
      → place f el cs ≡ some ds
      → answers f r cs ≡ true
  unfolding answers place
  answered f r el [] ds e = absurd (cc e)
  answered f r el (c ∷ cs) ds e = elim (Bool-cases (eqb_ℤ (f c.item) (pos 0))) [
    | inl a ↦ elim (Option-cases (place f el cs)) [
      | inl b ↦ absurd (ground arith)
      | inr (es, b) ↦ rw (a, answered f r el cs es b)
    ]
    | inr a ↦ rw a
  ]

  unanswered :
      (f : A → ℤ) (r : ℤ) (el : Cell A) (cs : List (Cell A))
      → place f el cs ≡ none
      → answers f r cs ≡ not (eqb_ℤ r (pos 0))
  unfolding answers place
  unanswered f r el [] e = refl
  unanswered f r el (c ∷ cs) e = elim (Bool-cases (eqb_ℤ (f c.item) (pos 0))) [
    | inl a ↦ elim (Option-cases (place f el cs)) [
      | inl b ↦ rw a (unanswered f r el cs b)
      | inr (es, b) ↦ absurd (ground arith)
    ]
    | inr a ↦ absurd (ground arith)
  ]

  abbrev pub recounted : ℕ → Queue A → Queue A
  recounted n q = record q { count = q.count +ℤ pos n }

  module _ (n : ℕ) (q : Queue A) (v : IsValid (recounted n q)) where
    placed-IsValid :
        (x : A) (ds : List (Cell A))
        → Placed (keyless q x) q.chain ds
        → IsValid (
            recounted
              (suc n)
              (record q { chain = ds; tail = advance_tail q.tail ds; fresh = suc q.fresh }))
    placed-IsValid x ds k =
        let el = keyless q x in
        record {
          distinct = Placed-Distinct el q.chain ds k v.allocated v.distinct;
          allocated =
              Placed-All (λ c. c.addr < suc q.fresh) el q.chain ds k (omega arith)
                (All-imp (λ c (h : c.addr < q.fresh). omega (arith, h)) q.chain v.allocated);
          tail_last = Placed-tail el q.chain ds q.tail k v.allocated v.distinct v.tail_last;
          counted =
              one_more q.count n (length q.chain) v.counted
              ∙ ap pos (sym (length-Placed el q.chain ds k));
        }

    abbrev after_edge : ℤ → ℕ
    after_edge r = if not (eqb_ℤ r (pos 0)) then suc n else n

    edge-IsValid :
        (r : ℤ) (x : A) (cs : List (Cell A))
        → q.chain ≡ cs
        → IsValid (recounted (after_edge r) (ins_edge r (keyless q x) q cs))
    unfolding ins_edge last_addr
    edge-IsValid r x [] e = elim (Bool-cases (eqb_ℤ r (pos 0))) [
      | inl a ↦ rw a v
      | inr a ↦ rw a (record {
        distinct = (tt, tt);
        allocated = (omega arith, tt);
        tail_last = refl;
        counted = one_more q.count n 0 (v.counted ∙ ap (λ c. pos (length c)) e);
      })
    ]
    edge-IsValid r x (c ∷ cs) e =
        let el = keyless q x in
        let away : (d : Cell A) → d.addr < q.fresh → d.addr ≢ q.fresh =
          λ d h i. omega (arith, h, i) in
        let apart = All-imp away q.chain v.allocated in
        let older : All (λ d. d.addr < suc q.fresh) q.chain =
          All-imp (λ d (h : d.addr < q.fresh). omega (arith, h)) q.chain v.allocated in
        elim (Bool-cases (eqb_ℤ r (pos 0))) [
          | inl a ↦ rw a v
          | inr a ↦ elim (Bool-cases (ltb_ℤ (pos 0) r)) [
            | inl b ↦
                rw (a, b)
                  (record {
                    distinct =
                        subst (λ ds. All (λ d. d.addr ≢ q.fresh) ds × Distinct ds) e
                          (apart, v.distinct);
                    allocated = (omega arith, subst (All (λ d. d.addr < suc q.fresh)) e older);
                    tail_last = v.tail_last ∙ ap last_addr e;
                    counted =
                        one_more q.count n (suc (length cs))
                          (v.counted ∙ ap (λ ds. pos (length ds)) e);
                  })
            | inr b ↦ rw (a, b) (appended x c cs e)
          ]
        ]
      where
        appended :
            (x : A) (c : Cell A) (cs : List (Cell A))
            → q.chain ≡ c ∷ cs
            → IsValid (
                recounted (suc n) (record q {
                  chain = link_tail q.tail (keyless q x) q.chain;
                  tail = some q.fresh;
                  fresh = suc q.fresh;
                }))
        appended x c cs e =
            let el = keyless q x in
            let linked = link_tail-chain (recounted n q) el c cs v e in
            record {
              distinct = rw linked (Distinct-append q.chain el v.distinct v.allocated);
              allocated = rw linked (
                  All-append _ q.chain (el ∷ [])
                    (All-imp (λ d (h : d.addr < q.fresh). omega (arith, h)) q.chain v.allocated)
                    (omega arith, tt));
              tail_last = rw linked (sym (last_addr-append q.chain el));
              counted =
                  one_more q.count n (length q.chain) v.counted
                  ∙ ap pos (sym (ap length linked ∙ length-append q.chain (el ∷ []) ∙ omega arith));
            }

    -- `count` falls behind by one when an element is linked in, and everything else is right
    pub ins_near-IsValid :
        (f : A → ℤ) (r : ℤ) (x : A)
        → IsValid (recounted (if answers f r q.chain then suc n else n) (ins_near f r x q))
    unfolding ins_near ins_placed
    ins_near-IsValid f r x = elim (Option-cases (place f (keyless q x) q.chain)) [
      | inl e ↦ rw (e, unanswered f r (keyless q x) q.chain e) (edge-IsValid r x q.chain refl)
      | inr (ds, e) ↦
          rw (e, answered f r (keyless q x) q.chain ds e)
            (placed-IsValid x ds (place-Placed f (keyless q x) q.chain ds e))
    ]
