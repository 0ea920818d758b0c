-- ===== src/Lattice.antt =====
-- rola/ops/lattice.py: the leaf order. A box is its levels, outermost first, each with its width and
-- an owner's span in it; `box_shape`, which chooses the spans, makes each divide its width.
pub mod Order
pub mod Box
pub mod Fitted
pub mod Atoms
pub mod Search
pub mod Ranks
pub mod Admitted
pub mod Convert
pub mod Planes
pub mod Scan
pub mod Best
mod Tests
use rola.Prelude.{List, [], ℕ, ◌%◌, ◌*◌, ◌+◌, ◌/◌, ◌∷◌}
use rola.Keying.{mma_k_quantum}

pub record Level : Type 0 where
  pub width : ℕ
  pub span : ℕ

-- `math.prod(widths)`, `math.prod(s)` and `math.prod(g)`
unfoldable pub leaves : List Level → ℕ
leaves [] = 1
leaves (l ∷ box) = l.width * leaves box

unfoldable pub owner_leaves : List Level → ℕ
owner_leaves [] = 1
owner_leaves (l ∷ box) = l.span * owner_leaves box

unfoldable pub owners : List Level → ℕ
owners [] = 1
owners (l ∷ box) = l.width / l.span * owners box

-- `d` in the loop of `permutation`, at the level in front of `inner`.
unfoldable pub digit : Level → List Level → ℕ → ℕ
unfolding leaves
digit l inner ell = ell / leaves inner % l.width

-- `o_term` and `local` at the end of the loop.
unfoldable pub owner_index : List Level → ℕ → ℕ
unfolding digit owners
owner_index [] ell = 0
owner_index (l ∷ box) ell = digit l box ell / l.span * owners box + owner_index box ell

unfoldable pub local_index : List Level → ℕ → ℕ
unfolding digit owner_leaves
local_index [] ell = 0
local_index (l ∷ box) ell = digit l box ell % l.span * owner_leaves box + local_index box ell

-- `permutation`, at one leaf.
unfoldable pub lattice_index : List Level → ℕ → ℕ
unfolding owner_index local_index owner_leaves
lattice_index box ell = owner_index box ell * owner_leaves box + local_index box ell
