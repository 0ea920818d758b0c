-- ===== src/Lattice/Atoms.antt =====
-- `atom_rectangle` and `walk_unit` of rola/ops/lattice.py: how an atom lies over the levels.
pub mod Walk
use rola.Prelude.{
  List, Result, [], if◌then◌else◌, length, ltb, ok, raised, value_error, ℕ, ◌%◌, ◌*◌, ◌+◌, ◌/◌,
  ◌==◌, ◌∷◌,
}
use rola.Keying.{mma_k_quantum}

-- `reversed(spans)`, onto `done`.
unfoldable pub reversed_onto : List ℕ → List ℕ → List ℕ
reversed_onto [] done = done
reversed_onto (s ∷ spans) done = reversed_onto spans (s ∷ done)

-- The loop of `atom_rectangle`: `whole` levels are taken, of product `filled`.
unfoldable pub rectangle_from : List ℕ → ℕ → ℕ → ℕ × ℕ
rectangle_from [] whole filled = (whole, mma_k_quantum / filled)
rectangle_from (s ∷ outer) whole filled =
    let rest = rectangle_from outer (whole + 1) (filled * s) in
    if ltb mma_k_quantum (filled * s) then (whole, mma_k_quantum / filled) else rest

-- `atom_rectangle`, for positive spans.
unfoldable pub atom_rectangle : List ℕ → ℕ × ℕ
unfolding reversed_onto rectangle_from
atom_rectangle spans = rectangle_from (reversed_onto spans []) 0 1

-- `(unit_base, unit_leaves, unit_atoms)`
pub record WalkUnit : Type 0 where
  pub unit_base : ℕ
  pub unit_leaves : ℕ
  pub unit_atoms : ℕ

-- The loop of `walk_unit`, over the spans from the innermost out.
unfoldable pub walk_from : List ℕ → ℕ → Result WalkUnit
walk_from [] filled = raised value_error
walk_from (s ∷ outer) filled =
    let rest = walk_from outer (filled * s) in
    if filled * s % mma_k_quantum == 0
    then ok (record {
      unit_base = length outer;
      unit_leaves = filled * s;
      unit_atoms = filled * s / mma_k_quantum;
    })
    else rest

-- `walk_unit`
unfoldable pub walk_unit : List ℕ → Result WalkUnit
unfolding walk_from reversed_onto
walk_unit spans = walk_from (reversed_onto spans []) 1
