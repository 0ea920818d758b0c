-- ===== src/Routing/Constructed.antt =====
-- What holds of a level that was constructed: its activations have rows, all of them normalized and
-- ratified.
use rola.Prelude.{
  All, Bool-cases, Exception, List, Result-cases, [], arith, inl, inr, ltb, ok, raised, refl, suc,
  true, value_error, ℕ, ◌<◌, ◌∷◌, ◌≡◌, ◌≤◌,
}
use rola.Padding.{validate_level_width}
use rola.Routing.{
  Tag, Alpha, LevelRouting, Duty, ActivationProperties, properties_for, width_of, at_width,
  level_routing, activation, unratified_from,
}

-- A level whose construction did not raise.
abbrev pub IsConstructed : LevelRouting → Type 0
IsConstructed level = level_routing level ≡ ok level

-- A tag with a row.
pub record HasRow (tag : Tag) : Type 0 where
  pub row : ActivationProperties
  pub found : properties_for tag ≡ ok row
  pub is_normalized : row.normalized ≡ true
  pub is_kerneled : row.kerneled ≡ true

properties_for-HasRow :
    (tag : Tag) (p : ActivationProperties) → properties_for tag ≡ ok p → HasRow tag
unfolding properties_for
properties_for-HasRow Tag.softmax p h = record {
  row = p;
  found = h;
  is_normalized = ground arith;
  is_kerneled = ground arith;
}
properties_for-HasRow Tag.opaque p h = record {
  row = p;
  found = h;
  is_normalized = ground arith;
  is_kerneled = ground arith;
}
properties_for-HasRow (Tag.entmax Alpha.three_halves) p h = record {
  row = p;
  found = h;
  is_normalized = ground arith;
  is_kerneled = ground arith;
}
properties_for-HasRow (Tag.entmax Alpha.two) p h = record {
  row = p;
  found = h;
  is_normalized = ground arith;
  is_kerneled = ground arith;
}
properties_for-HasRow (Tag.entmax (Alpha.other_alpha n)) p h = cc
properties_for-HasRow (Tag.unknown n) p h = cc

not_raised-HasRow : (tag : Tag) → ((x : Exception) → properties_for tag ≡ raised x → ⊥) → HasRow tag
not_raised-HasRow tag h = elim (Result-cases (properties_for tag)) [
  | inl (p, e) ↦ properties_for-HasRow tag p e
  | inr (x, e) ↦ absurd (h x e)
]

pub constructed-HasRow :
    (level : LevelRouting) (duty : Duty) → IsConstructed level → HasRow (activation level duty)
unfolding level_routing activation
constructed-HasRow (LevelRouting.independent w r s) Duty.read h =
    not_raised-HasRow r (λ x e. ground arith)
constructed-HasRow (LevelRouting.independent w r s) Duty.write h =
    not_raised-HasRow s (λ x e. ground arith)
constructed-HasRow (LevelRouting.tied w op) duty h = not_raised-HasRow op (λ x e. ground arith)
constructed-HasRow (LevelRouting.union w alpha) duty h =
    not_raised-HasRow (Tag.entmax alpha) (λ x e. ground arith)
constructed-HasRow (LevelRouting.foreign w) duty h = properties_for-HasRow Tag.opaque _ refl

validated-width :
    (w : ℕ) → ((x : Exception) → validate_level_width w ≡ raised x → ⊥) → (0 < w) × (w ≤ 256)
unfolding validate_level_width
validated-width w h = elim (Bool-cases (ltb w 1)) [
  | inl low ↦ absurd (h value_error (rw low))
  | inr fine ↦ elim (Bool-cases (ltb 256 w)) [
    | inl high ↦ absurd (h value_error (rw (fine, high)))
    | inr small ↦ (ground arith, ground arith)
  ]
]

pub constructed-width :
    (level : LevelRouting) → IsConstructed level → (0 < width_of level) × (width_of level ≤ 256)
unfolding level_routing width_of
constructed-width (LevelRouting.independent w r s) h = validated-width w (λ x e. ground arith)
constructed-width (LevelRouting.tied w op) h = validated-width w (λ x e. ground arith)
constructed-width (LevelRouting.union w alpha) h = validated-width w (λ x e. ground arith)
constructed-width (LevelRouting.foreign w) h = validated-width w (λ x e. ground arith)

-- A topology of constructed levels names no activation without a ratified kernel.
pub unratified_from-none :
    (i : ℕ) (levels : List LevelRouting)
    → All IsConstructed levels
    → unratified_from i levels ≡ ok []
unfolding unratified_from
unratified_from-none i [] p = refl
unratified_from-none i (level ∷ levels) p =
    let r = constructed-HasRow level Duty.read p.0 in
    let s = constructed-HasRow level Duty.write p.0 in
    rw (r.found, s.found, unratified_from-none (suc i) levels p.1, r.is_kerneled, s.is_kerneled)

-- A level constructed at another lawful width is constructed, with the same activations.
pub at_width-IsConstructed :
    (level : LevelRouting) (width : ℕ)
    → IsConstructed level
    → 0 < width
    → width ≤ 256
    → (there : LevelRouting) × (at_width level width ≡ ok there)
      × IsConstructed there
      × (width_of there ≡ width)
      × ((duty : Duty) → activation there duty ≡ activation level duty)
unfolding at_width level_routing width_of activation validate_level_width
at_width-IsConstructed (LevelRouting.independent w r s) width h pos le = (
  LevelRouting.independent width r s,
  ground (
    arith,
    (constructed-HasRow (LevelRouting.independent w r s) Duty.read h).found,
    (constructed-HasRow (LevelRouting.independent w r s) Duty.write h).found,
  ),
  ground (
    arith,
    (constructed-HasRow (LevelRouting.independent w r s) Duty.read h).found,
    (constructed-HasRow (LevelRouting.independent w r s) Duty.write h).found,
  ),
  refl,
  λ duty. refl,
)
at_width-IsConstructed (LevelRouting.tied w op) width h pos le =
    (LevelRouting.tied width op, ground arith, ground arith, refl, λ duty. refl)
at_width-IsConstructed (LevelRouting.union w alpha) width h pos le =
    (LevelRouting.union width alpha, ground arith, ground arith, refl, λ duty. refl)
at_width-IsConstructed (LevelRouting.foreign w) width h pos le =
    (LevelRouting.foreign width, ground arith, ground arith, refl, λ duty. refl)

pub at_width_self :
    (level : LevelRouting) → IsConstructed level → at_width level (width_of level) ≡ ok level
unfolding at_width width_of
at_width_self (LevelRouting.independent w r s) h = h
at_width_self (LevelRouting.tied w op) h = h
at_width_self (LevelRouting.union w alpha) h = h
at_width_self (LevelRouting.foreign w) h = h
