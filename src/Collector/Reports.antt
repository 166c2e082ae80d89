-- ===== src/Collector/Reports.antt =====
-- stdObject.cpp: a bucket with work is known to its parent, to a call of `relref` or to the collector.
use tiny_state.Prelude.{
  ℕ, zero, suc, ◌+◌, ◌*◌, ◌≡◌, refl, sym, ap, ◌∙◌, inl, inr, Bool, true, false, ◌||◌, Option, none,
  some, List, [], ◌∷◌, ◌++◌, ◌==◌, ==_iff, leb, update, Bool-cases,
}
use tiny_state.Collector.Counts.{update_other}
use tiny_state.Collector.{
  Task, sweep, deletes, raises, World, bucket, reported, queued, listed, counted_down, relref_at,
  at_rest, within,
}

abbrev pub sweeping : ℕ → List Task → Bool
sweeping id [] = false
sweeping id (sweep j ∷ ts) = id == j || sweeping id ts
sweeping id (deletes x ∷ ts) = sweeping id ts
sweeping id (raises x ∷ ts) = sweeping id ts

-- who knows of the work in a bucket: the bucket has none or is the root, or its parent has its bit, or a
-- call of `relref` is about to set that bit, or the collector is about to sweep it
pub data Known (id : ℕ) (w : World) : Type 0 where
  by_rest : at_rest id w ≡ true → Known id w
  by_root : id ≡ 0 → Known id w
  by_flag : w.flagged id ≡ true → Known id w
  by_climb : within id w.climbing ≡ true → Known id w
  by_sweep : sweeping id w.stack ≡ true → Known id w

abbrev pub Reported : World → Type 0
Reported w = (id : ℕ) → Known id w

pub Known-imp :
    (j : ℕ) (v w : World)
    → (at_rest j v ≡ true → at_rest j w ≡ true)
    → (v.flagged j ≡ true → w.flagged j ≡ true)
    → (within j v.climbing ≡ true → within j w.climbing ≡ true)
    → (sweeping j v.stack ≡ true → sweeping j w.stack ≡ true)
    → Known j v
    → Known j w
Known-imp j v w r f c s (by_rest e) = by_rest (r e)
Known-imp j v w r f c s (by_root e) = by_root e
Known-imp j v w r f c s (by_flag e) = by_flag (f e)
Known-imp j v w r f c s (by_climb e) = by_climb (c e)
Known-imp j v w r f c s (by_sweep e) = by_sweep (s e)

pub or_left : (a b : Bool) → a ≡ true → (a || b) ≡ true
or_left a b e = ap (λ c. c || b) e

pub or_right : (a b : Bool) → b ≡ true → (a || b) ≡ true
or_right true b e = refl
or_right false b e = e

pub same_rest :
    (j : ℕ) (v w : World)
    → v.ref_list j ≡ w.ref_list j
    → v.ref_event j ≡ w.ref_event j
    → v.flagged (j * 2 + 1) ≡ w.flagged (j * 2 + 1)
    → v.flagged (j * 2 + 2) ≡ w.flagged (j * 2 + 2)
    → at_rest j v ≡ true
    → at_rest j w ≡ true
unfolding at_rest
same_rest j v w l e f g h = cc (l, e, f, g, h)

pub reported-Reported :
    (id : ℕ) (w : World) → ((j : ℕ) → (j == id) ≡ false → Known j w) → Reported (reported id w)
unfolding reported at_rest
reported-Reported id w k j = elim (Bool-cases (id == 0)) [
  | inl e ↦ rw e (elim (Bool-cases (j == id)) [
    | inl f ↦ by_root ((==_iff j id).0 f ∙ (==_iff id 0).0 e)
    | inr f ↦ k j f
  ])
  | inr e ↦ rw e (elim (Bool-cases (j == id)) [
    | inl f ↦ by_climb (or_left (j == id) (within j w.climbing) f)
    | inr f ↦
        Known-imp j w (record w { climbing = id ∷ w.climbing }) (λ r. r) (λ r. r)
          (or_right (j == id) (within j w.climbing)) (λ r. r) (k j f)
  ])
]

queued-Reported : (x : ℕ) (w : World) → Reported w → Reported (queued x w)
unfolding queued
queued-Reported x w k = reported-Reported (bucket x) v (λ j f.
    Known-imp j w v
      (same_rest j w v refl
        (sym (update_other (bucket x) j (w.ref_event (bucket x) ++ x ∷ []) w.ref_event f)) refl
        refl)
      (λ r. r) (λ r. r) (λ r. r) (k j))
  where
    v : World
    v = record w {
      watch = update x 0 w.watch;
      ref_event = update (bucket x) (w.ref_event (bucket x) ++ x ∷ []) w.ref_event;
    }

listed-Reported : (x : ℕ) (w : World) → Reported w → Reported (listed x w)
unfolding listed
listed-Reported x w k = reported-Reported (bucket x) v (λ j f.
    Known-imp j w v
      (same_rest j w v (sym (update_other (bucket x) j (x ∷ w.ref_list (bucket x)) w.ref_list f))
        refl refl refl)
      (λ r. r) (λ r. r) (λ r. r) (k j))
  where
    v : World
    v = record w { ref_list = update (bucket x) (x ∷ w.ref_list (bucket x)) w.ref_list }

-- what the counts have to do with it
pub recounted :
    (f : ℕ → Option ℕ) (g h : ℕ → ℕ) (w : World)
    → Reported w
    → Reported (record w { ref = f; watch = g; held = h })
unfolding at_rest
recounted f g h w k j =
    Known-imp j w (record w { ref = f; watch = g; held = h }) (λ r. r) (λ r. r) (λ r. r) (λ r. r)
      (k j)

abbrev pub Passes : Option World → Type 0
Passes none = Unit
Passes (some w) = Reported w

pub relref_at-Passes : (o : Option ℕ) (x : ℕ) (w : World) → Reported w → Passes (relref_at o x w)
unfolding relref_at counted_down
relref_at-Passes none x w k = k
relref_at-Passes (some zero) x w k = tt
relref_at-Passes (some (suc r)) x w k = elim (Bool-cases (leb (suc r) (w.watch x))) [
  | inl e ↦ rw e (queued-Reported x w k)
  | inr e ↦ rw e (elim (Bool-cases (r == 0)) [
    | inl f ↦ rw f (listed-Reported x _ (recounted (update x (some r) w.ref) w.watch w.held w k))
    | inr f ↦ rw f (recounted (update x (some r) w.ref) w.watch w.held w k)
  ])
]
