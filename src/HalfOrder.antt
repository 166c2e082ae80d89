-- ===== src/HalfOrder.antt =====
-- stdHalfOrderQueue.cpp and stdHalfOrderQueue.h: a heap that is balanced by the sizes of its halves.
pub mod Shape
pub mod Insert
pub mod Last
pub mod Sift
pub mod Delete
use tiny_state.Prelude.{ℕ, Bool, true, false, ◌&&◌, Option, none, some, if◌then◌else◌}
use tiny_state.Prelude.Int.{ℤ, pos, ◌+ℤ◌, ◌-ℤ◌, ltb_ℤ, leb_ℤ}

module _ {ℓ} where
  -- `stdHalfOrderNode`, or the null pointer
  pub data Tree (A : Type ℓ) : Type ℓ where
    leaf : Tree A
    -- key, data, count, `n[0]` and `n[1]`
    node : ℤ → A → ℤ → Tree A → Tree A → Tree A

module _ {ℓ} {A : Type ℓ} where
  abbrev pub single : ℤ → A → Tree A
  single k x = node k x (pos 1) leaf leaf

  -- the swap with a child under the last test of `_ins`
  abbrev pub swap_left : ℤ → A → ℤ → ℤ → A → ℤ → Tree A → Tree A → Tree A → Tree A
  swap_left j y c i z d l' r' r =
      if leb_ℤ j i then node j y c (node i z d l' r') r else node i z c (node j y d l' r') r

  abbrev pub swap_right : ℤ → A → ℤ → Tree A → ℤ → A → ℤ → Tree A → Tree A → Tree A
  swap_right j y c l i z d l' r' =
      if leb_ℤ j i then node j y c l (node i z d l' r') else node i z c l (node j y d l' r')

  -- `if ( swap < 0 )` and what follows, for a node with two children; one is there by then
  unfoldable pub settle : ℤ → A → ℤ → Tree A → Tree A → Tree A
  settle j y c (node i z d l' r') (node h w e l'' r'') =
      if leb_ℤ j i && leb_ℤ j h
      then node j y c (node i z d l' r') (node h w e l'' r'')
      else if ltb_ℤ i j && ltb_ℤ i h
      then swap_left j y c i z d l' r' (node h w e l'' r'')
      else swap_right j y c (node i z d l' r') h w e l'' r''
  settle j y c l r = node j y c l r

  abbrev pub count_of : Tree A → ℤ
  count_of leaf = pos 0
  count_of (node j y c l r) = c

  abbrev pub settle_left : ℤ → A → ℤ → Option (Tree A) → Tree A → Option (Tree A)
  settle_left j y c none r = none
  settle_left j y c (some l) r = some (settle j y c l r)

  abbrev pub settle_right : ℤ → A → ℤ → Tree A → Option (Tree A) → Option (Tree A)
  settle_right j y c l none = none
  settle_right j y c l (some r) = some (settle j y c l r)

  -- `_ins` at a node, with what it does to either child; `none` is the panic
  unfoldable pub placed :
      ℤ → A → ℤ → A → ℤ → Tree A → Tree A → Option (Tree A) → Option (Tree A) → Option (Tree A)
  unfolding settle
  placed k x j y c leaf leaf ol or =
      some (if leb_ℤ j k then node j y c (single k x) leaf else node k x c (single j y) leaf)
  placed k x j y c leaf (node h w e l'' r'') ol or = none
  placed k x j y c (node i z d l' r') leaf ol or =
      some (settle j y c (node i z d l' r') (single k x))
  placed k x j y c (node i z d l' r') (node h w e l'' r'') ol or =
      if leb_ℤ d e
      then settle_left j y c ol (node h w e l'' r'')
      else settle_right j y c (node i z d l' r') or

  -- `ins` and `_ins`
  unfoldable pub ins : ℤ → A → Tree A → Option (Tree A)
  unfolding placed
  ins k x leaf = some (single k x)
  ins k x (node j y c l r) =
      let ol = ins k x l in let or = ins k x r in placed k x j y (c +ℤ pos 1) l r ol or

  -- `prev->n[0] = prev->n[1]` when the left child was the last node
  abbrev pub close_left : ℤ → A → ℤ → Tree A → Tree A → Tree A
  close_left j y c leaf r = node j y c r leaf
  close_left j y c (node i z d l' r') r = node j y c (node i z d l' r') r

  abbrev pub below_left : ℤ → A → ℤ → Option (ℤ × A × Tree A) → Tree A → Option (ℤ × A × Tree A)
  below_left j y c none r = none
  below_left j y c (some (k, x, l)) r = some (k, x, close_left j y c l r)

  abbrev pub below_right : ℤ → A → ℤ → Tree A → Option (ℤ × A × Tree A) → Option (ℤ × A × Tree A)
  below_right j y c l none = none
  below_right j y c l (some (k, x, r)) = some (k, x, node j y c l r)

  -- one step of the first loop of `del`, with what the loop does below either child
  unfoldable pub cut :
      ℤ
      → A
      → ℤ
      → Tree A
      → Tree A
      → Option (ℤ × A × Tree A)
      → Option (ℤ × A × Tree A)
      → Option (ℤ × A × Tree A)
  cut j y c leaf r ol or = some (j, y, leaf)
  cut j y c (node i z d l' r') leaf ol or = below_left j y c ol leaf
  cut j y c (node i z d l' r') (node h w e l'' r'') ol or =
      if leb_ℤ e d
      then below_left j y c ol (node h w e l'' r'')
      else below_right j y c (node i z d l' r') or

  -- the first loop of `del`: the last node, and the tree without it
  unfoldable pub take_last : Tree A → Option (ℤ × A × Tree A)
  unfolding cut
  take_last leaf = none
  take_last (node j y c l r) =
      let ol = take_last l in let or = take_last r in cut j y (c -ℤ pos 1) l r ol or

  -- one step of the second loop, with what the loop does below either child
  unfoldable pub sifted : ℤ → A → ℤ → Tree A → Tree A → Tree A → Tree A → Tree A
  sifted k x c leaf r sl sr = node k x c leaf r
  sifted k x c (node i z d l' r') leaf sl sr =
      if leb_ℤ k i then node k x c (node i z d l' r') leaf else node i z c sl leaf
  sifted k x c (node i z d l' r') (node h w e l'' r'') sl sr =
      if leb_ℤ k i && leb_ℤ k h
      then node k x c (node i z d l' r') (node h w e l'' r'')
      else if leb_ℤ i k && leb_ℤ i h
      then node i z c sl (node h w e l'' r'')
      else node h w c (node i z d l' r') sr

  -- the second loop, after the key and the data of the root have been replaced
  unfoldable pub sift : ℤ → A → Tree A → Tree A
  unfolding sifted
  sift k x leaf = leaf
  sift k x (node j y c l r) = let sl = sift k x l in let sr = sift k x r in sifted k x c l r sl sr

  abbrev pub refilled : ℤ → A → Option (ℤ × A × Tree A) → Option (Option (ℤ × A) × Tree A)
  unfolding sift
  refilled j y none = none
  refilled j y (some (k, x, t)) = some (some (j, y), sift k x t)

  -- `del(kp)`, with the key and the data; `none` is the panic
  unfoldable pub del : Tree A → Option (Option (ℤ × A) × Tree A)
  unfolding refilled take_last
  del leaf = some (none, leaf)
  del (node j y c leaf r) = some (some (j, y), leaf)
  del (node j y c (node i z d l' r') r) = refilled j y (take_last (node j y c (node i z d l' r') r))

  -- `count()` and `getTop()`
  unfoldable pub count : Tree A → ℤ
  count leaf = pos 0
  count (node j y c l r) = c

  unfoldable pub get_top : Tree A → Option A
  get_top leaf = none
  get_top (node j y c l r) = some y
