-- ===== src/Sync/LimitSemaphore/Wake.antt =====
-- stdLimitSemaphore.cpp: the loops that wake waiters.
use mathlib.Core.List.{append-nil}
use tiny_state.Prelude.{
  ℕ, zero, suc, ◌≡◌, ◌⊎◌, inl, inr, refl, sym, ap, subst, ◌∙◌, Bool, true, false, Option, none,
  some, List, [], ◌∷◌, ◌++◌, arith, if◌then◌else◌, length, length-append, Bool-cases, ◌||◌,
}
use tiny_state.Prelude.Int.{ℤ, eqb_ℤ}
use tiny_state.Queue.{max_integer64}
use tiny_state.WaitQueue.{WaitQueue, Buckets, w_ins, w_has, w_del, w_taken, pop_front}
use tiny_state.WaitQueue.Order.{flat, IsWell, put-IsWell, Pops, pop_front-Pops}
use tiny_state.WaitQueue.Agrees.{names}
use tiny_state.Sync.LimitSemaphore.{woken_also, enqueue, wake_up_to}

-- what `w_del` does to the order of service
abbrev pub Deletes : WaitQueue → Option ℕ × WaitQueue → Type 0
Deletes w (none, v) = (flat w.bucket ≡ []) × (v ≡ w)
Deletes w (some x, v) =
    (names (flat w.bucket) ≡ x ∷ names (flat v.bucket)) × IsWell v.bucket × (v.ins_neq ≡ w.ins_neq)

taken-Deletes :
    (w : WaitQueue) (o : Option (ℕ × Buckets)) → Pops w.bucket o → Deletes w (w_taken w o)
unfolding w_taken
taken-Deletes w none p = (p, refl)
taken-Deletes w (some (x, m)) (k, e, v) = (ap names e, v, refl)

pub w_del-Deletes : (w : WaitQueue) → IsWell w.bucket → Deletes w (w_del w)
unfolding w_del
w_del-Deletes w h = taken-Deletes w (pop_front w.bucket) (pop_front-Pops w.bucket h)

pub enqueue-IsWell :
    (b : Bool) (k : ℤ) (x : ℕ) (w : WaitQueue) → IsWell w.bucket → IsWell (enqueue b k x w).bucket
unfolding enqueue w_ins
enqueue-IsWell b k x w h = elim (Bool-cases (w_has x w)) [ inl e ↦ rw e h | inr e ↦ rw e (added b) ]
  where
    added : (c : Bool) → IsWell (if c then w_ins k x w else w_ins max_integer64 x w).bucket
    added true = put-IsWell (w.ins_neq || eqb_ℤ k max_integer64) k x w.bucket h
    added false =
        put-IsWell (w.ins_neq || eqb_ℤ max_integer64 max_integer64) max_integer64 x w.bucket h

-- Waiters are woken in the order of service, either as many as there were rounds or all.
pub record Woke (n : ℕ) (w : WaitQueue) (r : List ℕ × WaitQueue) : Type 0 where
  pub well : IsWell r.1.bucket
  pub in_order : names (flat w.bucket) ≡ r.0 ++ names (flat r.1.bucket)
  pub enough : (flat r.1.bucket ≡ []) ⊎ (length r.0 ≡ n)

pub wake_up_to-Woke : (n : ℕ) (w : WaitQueue) → IsWell w.bucket → Woke n w (wake_up_to n w)
unfolding wake_up_to
wake_up_to-Woke zero w h = record { well = h; in_order = refl; enough = inr refl }
wake_up_to-Woke (suc n) w h =
    go (w_del w).0 (w_del w).1 (w_del-Deletes w h) (wake_up_to-Woke n (w_del w).1)
  where
    go :
        (o : Option ℕ) (v : WaitQueue)
        → Deletes w (o, v)
        → (IsWell v.bucket → Woke n v (wake_up_to n v))
        → Woke (suc n) w (woken_also o v (wake_up_to n v))
    go none v d rest = record {
      well = subst (λ u. IsWell u.bucket) (sym d.1) h;
      in_order = ap (λ u. names (flat u.bucket)) (sym d.1);
      enough = inl (ap (λ u. flat u.bucket) d.1 ∙ d.0);
    }
    go (some x) v d rest =
        let r = rest d.1 in
        record {
          well = r.well;
          in_order = d.0 ∙ ap (◌∷◌ x) r.in_order;
          enough = elim r.enough [ inl e ↦ inl e | inr e ↦ inr (ap suc e) ];
        }

length-names : (es : List (ℤ × ℕ)) → length (names es) ≡ length es
length-names [] = refl
length-names (e ∷ es) = ap suc (length-names es)

-- One round more than there are waiters is enough to wake them all.
pub wake_up_to_all :
    (w : WaitQueue)
    → IsWell w.bucket
    → (wake_up_to (suc (length (flat w.bucket))) w).0 ≡ names (flat w.bucket)
wake_up_to_all w h =
    let all = wake_up_to (suc (length (flat w.bucket))) w in
    let r = wake_up_to-Woke (suc (length (flat w.bucket))) w h in
    elim r.enough [
      | inl e ↦ sym (append-nil all.0) ∙ ap (λ es. all.0 ++ names es) (sym e) ∙ sym r.in_order
      | inr e ↦ absurd (
          omega (
            arith,
            e,
            ap length r.in_order,
            length-append all.0 (names (flat all.1.bucket)),
            length-names (flat w.bucket),
          ))
    ]
