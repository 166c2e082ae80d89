-- ===== src/Queue/Recount.antt =====
-- stdQueue.h: the calls that only add to or take from `count` do so from any count.
use tiny_state.Prelude.{
  ℕ, ◌≡◌, inl, inr, refl, ap, ◌∙◌, Bool, Option, none, some, List, [], ◌∷◌, Bool-cases, arith,
}
use tiny_state.Prelude.Int.{ℤ, pos, ◌+ℤ◌, ◌-ℤ◌, eqb_ℤ, +ℤ_parts, -ℤ_parts, eq_of_parts}
use tiny_state.Queue.{
  Cell, Queue, max_integer64, new_cell, ins_at, ins_first, ins_linked, ins, ins_all, del_at, del,
  del_where_at, del_where, take_out, unlink,
}
use tiny_state.Queue.Placed.{recounted}

add_add : (a b c : ℤ) → (a +ℤ c) +ℤ b ≡ (a +ℤ b) +ℤ c
add_add a b c = grind (arith, +ℤ_parts, eq_of_parts)

sub_add : (a b c : ℤ) → (a +ℤ c) -ℤ b ≡ (a -ℤ b) +ℤ c
sub_add a b c = grind (arith, +ℤ_parts, -ℤ_parts, eq_of_parts)

module _ {ℓ} {A : Type ℓ} (n : ℕ) where
  ins_at-recounted :
      (cs : List (Cell A)) (el : Cell A) (q : Queue A)
      → ins_at cs el (recounted n q) ≡ recounted n (ins_at cs el q)
  unfolding ins_at ins_first ins_linked
  ins_at-recounted [] el q =
      ap (λ k. record (ins_first q el) { count = k }) (add_add q.count (pos 1) (pos n))
  ins_at-recounted (c ∷ cs) el q = elim (Bool-cases (eqb_ℤ el.key max_integer64)) [
    | inl e ↦ rw (e, add_add q.count (pos 1) (pos n)) refl
    | inr e ↦ rw (e, add_add q.count (pos 1) (pos n)) refl
  ]

  pub ins-recounted :
      (k : ℤ) (x : A) (q : Queue A) → ins k x (recounted n q) ≡ recounted n (ins k x q)
  unfolding ins
  ins-recounted k x q = ins_at-recounted q.chain (new_cell q k x) q

  pub ins_all-recounted :
      (cs : List (Cell A)) (q : Queue A) → ins_all cs (recounted n q) ≡ recounted n (ins_all cs q)
  unfolding ins_all
  ins_all-recounted [] q = refl
  ins_all-recounted (c ∷ cs) q =
      ap (ins_all cs) (ins-recounted max_integer64 c.item q)
      ∙ ins_all-recounted cs (ins max_integer64 c.item q)

  del_at-recounted :
      (cs : List (Cell A)) (q : Queue A)
      → (del_at cs (recounted n q)).1 ≡ recounted n (del_at cs q).1
  unfolding del_at
  del_at-recounted [] q = refl
  del_at-recounted (c ∷ cs) q =
      ap (λ k. record (del_at (c ∷ cs) q).1 { count = k }) (sub_add q.count (pos 1) (pos n))

  pub del-recounted : (q : Queue A) → (del (recounted n q)).1 ≡ recounted n (del q).1
  unfolding del
  del-recounted q = del_at-recounted q.chain q

  take_out-recounted :
      (q : Queue A) (o : Option (A × List (Cell A) × Option ℕ))
      → (take_out (recounted n q) o).1 ≡ recounted n (take_out q o).1
  unfolding take_out
  take_out-recounted q none = refl
  take_out-recounted q (some (x, ds, t)) =
      ap (λ k. record (take_out q (some (x, ds, t))).1 { count = k })
        (sub_add q.count (pos 1) (pos n))

  del_where_at-recounted :
      (p : A → Bool) (cs : List (Cell A)) (q : Queue A)
      → (del_where_at p cs (recounted n q)).1 ≡ recounted n (del_where_at p cs q).1
  unfolding del_where_at
  del_where_at-recounted p [] q = refl
  del_where_at-recounted p (c ∷ cs) q = elim (Bool-cases (p c.item)) [
    | inl e ↦ rw e (del-recounted q)
    | inr e ↦ rw e (take_out-recounted q (unlink p q.tail c cs))
  ]

  pub del_where-recounted :
      (p : A → Bool) (q : Queue A) → (del_where p (recounted n q)).1 ≡ recounted n (del_where p q).1
  unfolding del_where
  del_where-recounted p q = del_where_at-recounted p q.chain q
