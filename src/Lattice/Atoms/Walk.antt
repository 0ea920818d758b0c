-- ===== src/Lattice/Atoms/Walk.antt =====
-- `walk_unit` finds a unit for every box of whole atoms.
use rola.Prelude.{
  Bool-cases, List, [], ap, arith, inl, inr, length, ok, prod, refl, sym, ℕ, ◌%◌, ◌*◌, ◌++◌, ◌/◌,
  ◌==◌, ◌∙◌, ◌∷◌, ◌≡◌, ◌≢◌,
}
use rola.Lattice.Atoms.{WalkUnit, reversed_onto, walk_from, walk_unit}

-- What a unit is over the spans from the innermost out, with `filled` taken already: the product of
-- the inner ones, in whole atoms, with `unit_base` of them left outside.
pub record IsUnit (spans : List ℕ) (filled : ℕ) (u : WalkUnit) : Type 0 where
  pub whole : u.unit_leaves ≡ u.unit_atoms * 16
  pub inner : List ℕ
  pub outer : List ℕ
  pub suffix : inner ++ outer ≡ spans
  pub depth : length outer ≡ u.unit_base
  pub product : u.unit_leaves ≡ filled * prod inner

walk_from-IsUnit :
    (spans : List ℕ) (filled : ℕ)
    → filled % 16 ≢ 0
    → filled * prod spans % 16 ≡ 0
    → (u : WalkUnit) × (walk_from spans filled ≡ ok u) × IsUnit spans filled u
unfolding walk_from
walk_from-IsUnit [] filled partial atoms = absurd (partial (ap (λ k. k % 16) (omega arith) ∙ atoms))
walk_from-IsUnit (s ∷ outer) filled partial atoms = elim (Bool-cases (filled * s % 16 == 0)) [
  | inl found ↦ (
    record { unit_base = length outer; unit_leaves = filled * s; unit_atoms = filled * s / 16 },
    rw found refl,
    record {
      whole = ground arith;
      inner = s ∷ [];
      outer = outer;
      suffix = refl;
      depth = refl;
      product = omega arith;
    },
  )
  | inr further ↦
      let regroup : (p : ℕ) → filled * (s * p) ≡ filled * s * p = λ p. omega arith in
      let (u, e, unit) =
        walk_from-IsUnit outer (filled * s) (λ h. ground arith)
          (ap (λ k. k % 16) (sym (regroup (prod outer))) ∙ atoms) in
      (
        u,
        rw further e,
        record {
          whole = unit.whole;
          inner = s ∷ unit.inner;
          outer = unit.outer;
          suffix = ap (◌∷◌ s) unit.suffix;
          depth = unit.depth;
          product = unit.product ∙ sym (regroup (prod unit.inner));
        },
      )
]

prod-reversed_onto :
    (spans done : List ℕ) → prod (reversed_onto spans done) ≡ prod spans * prod done
unfolding reversed_onto
prod-reversed_onto [] done = omega arith
prod-reversed_onto (s ∷ spans) done =
    prod-reversed_onto spans (s ∷ done) ∙ regroup (prod spans) (prod done)
  where
    regroup : (p q : ℕ) → p * (s * q) ≡ s * p * q
    regroup p q = omega arith

-- A box that holds a whole number of atoms has a walk unit: the product of its inner levels, a whole
-- number of atoms too, with as many levels left outside as the unit's base says.
pub walk_unit_total :
    (spans : List ℕ)
    → prod spans % 16 ≡ 0
    → (u : WalkUnit) × (walk_unit spans ≡ ok u) × IsUnit (reversed_onto spans []) 1 u
unfolding walk_unit
walk_unit_total spans atoms =
    walk_from-IsUnit (reversed_onto spans []) 1 (λ h. absurd (omega arith))
      (ap (λ k. k % 16) whole ∙ atoms)
  where
    whole : 1 * prod (reversed_onto spans []) ≡ prod spans
    whole = omega (arith, prod-reversed_onto spans [])
