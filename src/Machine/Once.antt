-- ===== src/Machine/Once.antt =====
-- tinyState.cpp: `onlyOneEvent_mask` and `onlyOneEvent_occur`.
use tiny_state.Prelude.{
  ℕ, suc, ◌+◌, ◌≡◌, inl, inr, refl, sym, ap, subst, ◌∙◌, Bool, true, false, Option, none, some,
  List, [], ◌∷◌, ◌++◌, map, arith, ◌==◌, ==_iff, if◌then◌else◌, Bool-cases,
}
use tiny_state.Prelude.Int.{ℤ}
use tiny_state.Queue.{Cell, Queue, max_integer64}
use tiny_state.Queue.Valid.{IsValid, ins-IsValid}
use tiny_state.Queue.Remove.{del-IsValid, del_lem, del_result}
use tiny_state.Queue.Order.{entry, entries, ins_fifo}
use tiny_state.Machine.{
  Event, Table, Machine, set_bit, clear_bit, ins_event, ins_event_at, del_event, del_event_at,
  deleted,
}

-- how many events of a type a list of entries holds
abbrev pub occurrences : ℕ → List (ℤ × Event) → ℕ
occurrences t [] = 0
occurrences t ((k, ev) ∷ es) = if t == ev.type then suc (occurrences t es) else occurrences t es

pub occurrences-append :
    (t : ℕ) (es fs : List (ℤ × Event))
    → occurrences t (es ++ fs) ≡ occurrences t es + occurrences t fs
occurrences-append t [] fs = omega arith
occurrences-append t ((k, ev) ∷ es) fs = ground (arith, occurrences-append t es fs)

abbrev pub bit : Bool → ℕ
bit true = 1
bit false = 0

abbrev pub OnceEach : (ℕ → Bool) → (ℕ → Bool) → List (ℤ × Event) → Type 0
OnceEach mask occur es = (t : ℕ) → mask t ≡ true → occurrences t es ≡ bit (occur t)

abbrev pub Unused : (ℕ → Bool) → (ℕ → Bool) → Type 0
Unused mask occur = (t : ℕ) → mask t ≡ false → occur t ≡ false

-- An only-one type is queued once if its bit is set and otherwise not at all. Other bits are clear.
pub record Mirrors (mask occur : ℕ → Bool) (q : Queue Event) : Type 0 where
  pub valid : IsValid q
  pub once : OnceEach mask occur (entries q)
  pub unused : Unused mask occur

abbrev pub Consistent : (ℕ → Bool) → (ℕ → Bool) → Option (Queue Event) → Type 0
Consistent mask occur none = Unit
Consistent mask occur (some q) = Mirrors mask occur q

module _ (mask occur : ℕ → Bool) (ev : Event) where
  set_bit-Unused : mask ev.type ≡ true → Unused mask occur → Unused mask (set_bit ev.type occur)
  set_bit-Unused h u t k = elim (Bool-cases (t == ev.type)) [
    | inl e ↦ absurd (cc (h, ap mask ((==_iff t ev.type).0 e), k))
    | inr e ↦ rw e (u t k)
  ]

  clear_bit-Unused : Unused mask occur → Unused mask (clear_bit ev.type occur)
  clear_bit-Unused u t k = elim (Bool-cases (t == ev.type)) [ inl e ↦ rw e | inr e ↦ rw e (u t k) ]

  added-OnceEach :
      (k : ℤ) (es : List (ℤ × Event))
      → occur ev.type ≡ false
      → OnceEach mask occur es
      → OnceEach mask (set_bit ev.type occur) (es ++ (k, ev) ∷ [])
  added-OnceEach k es fresh h t masked =
      rw (occurrences-append t es ((k, ev) ∷ [])) (elim (Bool-cases (t == ev.type)) [
        | inl e ↦ rw e (
            omega
              (arith, h t masked ∙ ap (λ u. bit (occur u)) ((==_iff t ev.type).0 e) ∙ ap bit fresh))
        | inr e ↦ rw e (omega (arith, h t masked))
      ])

  unmasked-OnceEach :
      (k : ℤ) (es : List (ℤ × Event))
      → mask ev.type ≡ false
      → OnceEach mask occur es
      → OnceEach mask occur (es ++ (k, ev) ∷ [])
  unmasked-OnceEach k es free h t masked =
      rw (occurrences-append t es ((k, ev) ∷ [])) (elim (Bool-cases (t == ev.type)) [
        | inl e ↦ absurd (cc (free, ap mask ((==_iff t ev.type).0 e), masked))
        | inr e ↦ rw e (omega (arith, h t masked))
      ])

  removed-OnceEach :
      (k : ℤ) (es : List (ℤ × Event))
      → OnceEach mask occur ((k, ev) ∷ es)
      → OnceEach mask (clear_bit ev.type occur) es
  removed-OnceEach k es h t masked = elim (Bool-cases (t == ev.type)) [
    | inl e ↦ rw e (one_less (occur t) (h' e))
    | inr e ↦ rw e (h'' e)
  ]
    where
      h' : (t == ev.type) ≡ true → suc (occurrences t es) ≡ bit (occur t)
      h' e =
          subst (λ b. (if b then suc (occurrences t es) else occurrences t es) ≡ bit (occur t)) e
            (h t masked)

      h'' : (t == ev.type) ≡ false → occurrences t es ≡ bit (occur t)
      h'' e =
          subst (λ b. (if b then suc (occurrences t es) else occurrences t es) ≡ bit (occur t)) e
            (h t masked)

      one_less : (b : Bool) → suc (occurrences t es) ≡ bit b → occurrences t es ≡ 0
      one_less true e = omega arith
      one_less false e = omega arith

module _ (c : Table) where
  ins_event_at-Consistent :
      (ev : Event) (m : Machine) (o : Option (Queue Event))
      → Consistent m.mask m.occur o
      → m.que ≡ o
      → let n = (ins_event_at c o ev m).1 in Consistent n.mask n.occur n.que
  unfolding ins_event_at
  ins_event_at-Consistent ev m none h e = subst (Consistent m.mask m.occur) (sym e) tt
  ins_event_at-Consistent ev m (some q) h e = elim (Bool-cases (m.mask ev.type)) [
    | inl masked ↦ elim (Bool-cases (m.occur ev.type)) [
      | inl there ↦ rw (masked, there) (subst (Consistent m.mask m.occur) (sym e) h)
      | inr fresh ↦
          rw (masked, fresh)
            (record {
              valid = ins-IsValid max_integer64 ev q h.valid;
              once =
                  subst (OnceEach m.mask (set_bit ev.type m.occur)) (sym (ins_fifo ev q h.valid))
                    (added-OnceEach m.mask m.occur ev max_integer64 (entries q) fresh h.once);
              unused = set_bit-Unused m.mask m.occur ev masked h.unused;
            })
    ]
    | inr free ↦ rw free (record {
      valid = ins-IsValid max_integer64 ev q h.valid;
      once =
          subst (OnceEach m.mask m.occur) (sym (ins_fifo ev q h.valid))
            (unmasked-OnceEach m.mask m.occur ev max_integer64 (entries q) free h.once);
      unused = h.unused;
    })
  ]

  pub ins_event-Consistent :
      (ev : Event) (m : Machine)
      → Consistent m.mask m.occur m.que
      → let n = (ins_event c ev m).1 in Consistent n.mask n.occur n.que
  unfolding ins_event
  ins_event-Consistent ev m h = ins_event_at-Consistent ev m m.que h refl

del_result-Consistent :
    (m : Machine) (q : Queue Event) (cs : List (Cell Event))
    → q.chain ≡ cs
    → Mirrors m.mask m.occur q
    → IsValid (del_result q cs).1
    → let n = (deleted (del_result q cs) m).1 in Consistent n.mask n.occur n.que
unfolding deleted
del_result-Consistent m q [] e h v = h
del_result-Consistent m q (x ∷ cs) e h v = record {
  valid = v;
  once =
      removed-OnceEach m.mask m.occur x.item x.key (map entry cs)
        (subst (λ ds. OnceEach m.mask m.occur (map entry ds)) e h.once);
  unused = clear_bit-Unused m.mask m.occur x.item h.unused;
}

del_event_at-Consistent :
    (m : Machine) (o : Option (Queue Event))
    → Consistent m.mask m.occur o
    → m.que ≡ o
    → let n = (del_event_at o m).1 in Consistent n.mask n.occur n.que
unfolding del_event_at
del_event_at-Consistent m none h e = subst (Consistent m.mask m.occur) (sym e) tt
del_event_at-Consistent m (some q) h e =
    let taken = del_lem q h.valid in
    subst (λ r. let n = (deleted r m).1 in Consistent n.mask n.occur n.que) (sym taken)
      (del_result-Consistent m q q.chain refl h
        (subst (λ r. IsValid r.1) taken (del-IsValid q h.valid)))

pub del_event-Consistent :
    (m : Machine)
    → Consistent m.mask m.occur m.que
    → let n = (del_event m).1 in Consistent n.mask n.occur n.que
unfolding del_event
del_event-Consistent m h = del_event_at-Consistent m m.que h refl

-- an event that is posted, and one that the dispatch takes
pub data Access : Type 0 where
  posts : Event → Access
  takes : Access

module _ (c : Table) where
  unfoldable pub accessed : List Access → Machine → Machine
  accessed [] m = m
  accessed (posts ev ∷ as') m = accessed as' (ins_event c ev m).1
  accessed (takes ∷ as') m = accessed as' (del_event m).1

  -- Over every sequence of `_insEvent` and `_delEvent`, in whatever state the machine is: an event of
  -- an only-one type is queued once if its bit in `onlyOneEvent_occur` is set and otherwise not at
  -- all, no other bit is set, and the queue stays valid.
  pub accessed-Consistent :
      (as' : List Access) (m : Machine)
      → Consistent m.mask m.occur m.que
      → let n = accessed as' m in Consistent n.mask n.occur n.que
  unfolding accessed
  accessed-Consistent [] m h = h
  accessed-Consistent (posts ev ∷ as') m h =
      accessed-Consistent as' (ins_event c ev m).1 (ins_event-Consistent c ev m h)
  accessed-Consistent (takes ∷ as') m h =
      accessed-Consistent as' (del_event m).1 (del_event-Consistent m h)
