-- ===== src/Queue/Remove.antt =====
-- stdQueue.h: `del` and `del(cmp)` on a valid queue, as the removal of the first element that fits.
use tiny_state.Prelude.{
  ℕ, suc, ◌<◌, ◌≡◌, ◌≢◌, inl, inr, refl, sym, ap, subst, ◌∙◌, Bool, Option, none, some, List, [],
  ◌∷◌, arith, ◌==◌, if◌then◌else◌, length, All, Bool-cases, Option-cases, ==_iff, ==_refl,
}
use tiny_state.Prelude.Int.{pos, ◌-ℤ◌, pos_suc-ℤ_one}
use tiny_state.Queue.{
  Cell, Queue, same_addr, del_at, del, unlink, take_out, keep_before, del_where_at, del_where, find,
  last_addr, tail_without,
}
use tiny_state.Queue.Valid.{Distinct, IsValid, last_addr-All}

module _ {ℓ} {A : Type ℓ} where
  -- the chain less its first element that satisfies `p`
  unfoldable pub without : (A → Bool) → List (Cell A) → List (Cell A)
  without p [] = []
  without p (c ∷ cs) = if p c.item then cs else c ∷ without p cs

  without-All {κ} :
      (P : Cell A → Type κ) (p : A → Bool) (cs : List (Cell A)) → All P cs → All P (without p cs)
  unfolding without
  without-All P p [] h = tt
  without-All P p (c ∷ cs) h = elim (Bool-cases (p c.item)) [
    | inl e ↦ rw e h.1
    | inr e ↦ rw e (h.0, without-All P p cs h.1)
  ]

  without-Distinct : (p : A → Bool) (cs : List (Cell A)) → Distinct cs → Distinct (without p cs)
  unfolding without
  without-Distinct p [] d = tt
  without-Distinct p (c ∷ cs) d = elim (Bool-cases (p c.item)) [
    | inl e ↦ rw e d.1
    | inr e ↦ rw e (without-All _ p cs d.0, without-Distinct p cs d.1)
  ]

  length-without :
      (p : A → Bool) (cs : List (Cell A)) (x : A)
      → find p cs ≡ some x
      → suc (length (without p cs)) ≡ length cs
  unfolding without find
  length-without p [] x e = cc
  length-without p (c ∷ cs) x e = ground (arith, length-without p cs x)

  -- what the loop returns when the tail is right
  abbrev unlinked : Cell A → List (Cell A) → Option A → Option (A × List (Cell A) × Option ℕ)
  unlinked prev cs none = none
  unlinked prev cs (some x) = some (x, prev ∷ cs, last_addr (prev ∷ cs))

  tail_moves :
      (prev c : Cell A) (cs : List (Cell A))
      → Distinct (c ∷ cs)
      → (if same_addr (last_addr (c ∷ cs)) c.addr then some prev.addr else last_addr (c ∷ cs))
        ≡ last_addr (prev ∷ cs)
  unfolding last_addr
  tail_moves prev c [] d = rw ==_refl
  tail_moves prev c (x ∷ cs) d = elim (Option-cases (last_addr (x ∷ cs))) [
    | inl e ↦ rw e
    | inr (t, e) ↦
        let apart : t ≢ c.addr = last_addr-All (λ a. a ≢ c.addr) (x ∷ cs) d.0 e in
        elim (Bool-cases (t == c.addr)) [
          | inl h ↦ absurd (apart ((==_iff t c.addr).0 h))
          | inr h ↦ rw (e, h)
        ]
  ]

  keep_before-unlinked :
      (prev c : Cell A) (cs : List (Cell A)) (o : Option A)
      → keep_before prev (unlinked c cs o) ≡ unlinked prev (c ∷ cs) o
  unfolding last_addr
  keep_before-unlinked prev c cs none = refl
  keep_before-unlinked prev c cs (some x) = refl

  unlink_lem :
      (p : A → Bool) (prev : Cell A) (cs : List (Cell A))
      → Distinct cs
      → unlink p (last_addr (prev ∷ cs)) prev cs ≡ unlinked prev (without p cs) (find p cs)
  unfolding unlink find without last_addr
  unlink_lem p prev [] d = refl
  unlink_lem p prev (c ∷ cs) d = elim (Bool-cases (p c.item)) [
    | inl e ↦ rw e (ap (λ t. some (c.item, prev ∷ cs, t)) (tail_moves prev c cs d))
    | inr e ↦ rw (e, unlink_lem p c cs d.1) (keep_before-unlinked prev c (without p cs) (find p cs))
  ]

  -- the queue less one element
  abbrev pub shorter : Queue A → List (Cell A) → Queue A
  shorter q cs = record q { chain = cs; tail = last_addr cs; count = q.count -ℤ pos 1 }

  abbrev pub removed : Queue A → List (Cell A) → Option A → Option A × Queue A
  removed q cs none = (none, q)
  removed q cs (some x) = (some x, shorter q cs)

  tail_without-last_addr :
      (c : Cell A) (cs : List (Cell A)) → tail_without cs (last_addr (c ∷ cs)) ≡ last_addr cs
  unfolding last_addr
  tail_without-last_addr c [] = refl
  tail_without-last_addr c (d ∷ cs) = refl

  del_at_cons :
      (q : Queue A) (c : Cell A) (cs : List (Cell A))
      → q.tail ≡ last_addr (c ∷ cs)
      → del_at (c ∷ cs) q ≡ (some c.item, shorter q cs)
  unfolding del_at
  del_at_cons q c cs e =
      ap (λ t. (some c.item, record q { chain = cs; tail = t; count = q.count -ℤ pos 1 }))
        (ap (tail_without cs) e ∙ tail_without-last_addr c cs)

  abbrev pub del_result : Queue A → List (Cell A) → Option A × Queue A
  del_result q [] = (none, q)
  del_result q (c ∷ cs) = (some c.item, shorter q cs)

  -- `del()` takes the head element off
  pub del_lem : (q : Queue A) → IsValid q → del q ≡ del_result q q.chain
  unfolding del
  del_lem q v = go q.chain refl
    where
      go : (cs : List (Cell A)) → q.chain ≡ cs → del_at cs q ≡ del_result q cs
      go [] e = refl
      go (c ∷ cs) e = del_at_cons q c cs (v.tail_last ∙ ap last_addr e)

  take_out-unlinked :
      (q : Queue A) (c : Cell A) (cs : List (Cell A)) (o : Option A)
      → take_out q (unlinked c cs o) ≡ removed q (c ∷ cs) o
  unfolding take_out
  take_out-unlinked q c cs none = refl
  take_out-unlinked q c cs (some x) = refl

  del_where_at_lem :
      (p : A → Bool) (q : Queue A) (cs : List (Cell A))
      → IsValid q
      → q.chain ≡ cs
      → del_where_at p cs q ≡ removed q (without p cs) (find p cs)
  unfolding del_where_at without find
  del_where_at_lem p q [] v e = refl
  del_where_at_lem p q (c ∷ cs) v e = elim (Bool-cases (p c.item)) [
    | inl h ↦ rw h (del_lem q v ∙ ap (del_result q) e)
    | inr h ↦
        let d : Distinct (c ∷ cs) = subst Distinct e v.distinct in
        rw h (
          ap (λ t. take_out q (unlink p t c cs)) (v.tail_last ∙ ap last_addr e)
          ∙ ap (take_out q) (unlink_lem p c cs d.1)
          ∙ take_out-unlinked q c (without p cs) (find p cs))
  ]

  -- `del(cmp)` returns the first element that fits and takes it out; with none it does nothing
  pub del_where_lem :
      (p : A → Bool) (q : Queue A)
      → IsValid q
      → del_where p q ≡ removed q (without p q.chain) (find p q.chain)
  unfolding del_where
  del_where_lem p q v = del_where_at_lem p q q.chain v refl

  shorter-IsValid :
      (q : Queue A) (cs : List (Cell A))
      → IsValid q
      → Distinct cs
      → All (λ c. c.addr < q.fresh) cs
      → suc (length cs) ≡ length q.chain
      → IsValid (shorter q cs)
  shorter-IsValid q cs v d a n = record {
    distinct = d;
    allocated = a;
    tail_last = refl;
    counted = rw (v.counted, ← n) (pos_suc-ℤ_one (length cs));
  }

  pub del-IsValid : (q : Queue A) → IsValid q → IsValid (del q).1
  del-IsValid q v = rw (del_lem q v) (go q.chain refl)
    where
      go : (cs : List (Cell A)) → q.chain ≡ cs → IsValid (del_result q cs).1
      go [] e = v
      go (c ∷ cs) e =
          let d : Distinct (c ∷ cs) = subst Distinct e v.distinct in
          let a : All (λ x. x.addr < q.fresh) (c ∷ cs) = subst (All _) e v.allocated in
          shorter-IsValid q cs v d.1 a.1 (sym (ap length e))

  pub del_where-IsValid : (p : A → Bool) (q : Queue A) → IsValid q → IsValid (del_where p q).1
  del_where-IsValid p q v = rw (del_where_lem p q v) (elim (Option-cases (find p q.chain)) [
    | inl e ↦ rw e v
    | inr (x, e) ↦ rw e (
        shorter-IsValid q (without p q.chain) v (without-Distinct p q.chain v.distinct)
          (without-All _ p q.chain v.allocated) (length-without p q.chain x e))
  ])
